-- ===== src/Deposits/Tables.antt =====
-- The tables that watcher/src/deposits/block-handler.ts reads and writes, with the columns it uses.
use wbob_bridge.Prelude.{ℕ, Bool, Option, List, [], ◌∷◌, ◌++◌, ◌==◌}
use wbob_bridge.Prelude.Tables.{update_where}
use wbob_bridge.Shared.Inbound.{InboundState}

pub record DepositOrder : Type 0 where
  pub id : ℕ
  pub is_inbound : Bool
  pub state : InboundState
  pub user_gnosis_address : ℕ
  pub amount_sat : Option ℕ

pub record SourceDeposit : Type 0 where
  pub order_id : ℕ
  pub deposit_address : ℕ
  pub hd_index : Option ℕ
  pub source_chain_name : ℕ
  pub txid : Option ℕ
  pub vout : Option ℕ
  pub amount_sat : Option ℕ
  pub deposit_id : Option ℕ
  pub block_hash : Option ℕ
  pub block_height : Option ℕ
  pub confirmations : ℕ

pub record TrackedAddress : Type 0 where
  pub recipient_gnosis_address : ℕ
  pub source_chain_name : ℕ
  pub dobbscoin_address : ℕ
  pub hd_index : ℕ

pub data WatcherEvent : Type 0 where
  state_transition order_created tx_left_active_chain reorg_rollback : WatcherEvent

pub record WatcherAudit : Type 0 where
  pub order_id : ℕ
  pub event_type : WatcherEvent
  pub from_state : InboundState
  pub to_state : InboundState

-- `next_id` stands for the ids that the database hands out.
pub record Store : Type 0 where
  pub bridge_orders : List DepositOrder
  pub source_deposits : List SourceDeposit
  pub deposit_addresses : List TrackedAddress
  pub audit_events : List WatcherAudit
  pub next_id : ℕ

abbrev pub order_is : ℕ → DepositOrder → Bool
order_is i o = o.id == i

abbrev pub deposit_of : ℕ → SourceDeposit → Bool
deposit_of i d = d.order_id == i

abbrev pub set_state : InboundState → DepositOrder → DepositOrder
set_state to o = record o { state = to }

-- UPDATE bridge_orders SET state, and the audit row that goes with it.
unfoldable pub move_order : ℕ → WatcherEvent → InboundState → InboundState → Store → Store
move_order i event from to s = record s {
  bridge_orders = update_where (order_is i) (set_state to) s.bridge_orders;
  audit_events =
      s.audit_events
      ++ record { order_id = i; event_type = event; from_state = from; to_state = to } ∷ [];
}

unfoldable pub update_deposit : ℕ → (SourceDeposit → SourceDeposit) → Store → Store
update_deposit i f s = record s {
  source_deposits = update_where (deposit_of i) f s.source_deposits;
}
