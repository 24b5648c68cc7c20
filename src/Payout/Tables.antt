-- ===== src/Payout/Tables.antt =====
-- The tables that backend/src/executor/payout-executor.ts reads and writes, with the columns it uses.
use wbob_bridge.Prelude.{
  ℕ, ◌+◌, Bool, true, false, ◌&&◌, Option, none, some, List, [], ◌∷◌, ◌++◌, ◌==◌, if◌then◌else◌,
}
use wbob_bridge.Prelude.Text.{Text}
use wbob_bridge.Prelude.Tables.{select_one, update_where}
use wbob_bridge.Shared.Outbound.{OutboundState, can_transition_outbound, same_outbound}
use wbob_bridge.TxBuilder.RawTx.{RawTx}
use wbob_bridge.Refund.Rows.{RefundRow, RefundAudit}

-- A row of bridge_orders with order_type 'outbound'.
pub record PayoutOrder : Type 0 where
  pub id : ℕ
  pub state : OutboundState
  pub user_dobbscoin_address : Text
  pub amount_sat : ℕ

pub record WithdrawalRequest : Type 0 where
  pub id : ℕ
  pub order_id : ℕ
  pub withdrawal_id : ℕ
  pub burn_tx_hash : Option Text
  pub sender_address : ℕ
  pub amount_sat : ℕ
  pub dobbscoin_address : Text

pub record PayoutRow : Type 0 where
  pub id : ℕ
  pub withdrawal_request_id : ℕ
  pub dobbscoin_address : Text
  pub amount_sat : ℕ
  pub fee_sat : ℕ
  pub txid : Option ℕ
  pub broadcast_at : Option ℕ
  pub confirmed_at : Option ℕ
  pub confirmations : ℕ

pub data UtxoStatus : Type 0 where
  available reserved spent : UtxoStatus

pub record BridgeUtxo : Type 0 where
  pub order_id : ℕ
  pub txid : ℕ
  pub vout : ℕ
  pub amount_sat : ℕ
  pub address : Text
  pub hd_index : ℕ
  pub is_change : Bool
  pub status : UtxoStatus
  pub spent_payout_id : Option ℕ
  pub spent_refund_id : Option ℕ

pub data PayoutEvent : Type 0 where
  order_created signed_payout retry_same_tx broadcast_attempt broadcast_refused : PayoutEvent
  sent_out_of_state broadcast_payout state_transition : PayoutEvent

abbrev pub event_code : PayoutEvent → ℕ
event_code order_created = 0
event_code signed_payout = 1
event_code retry_same_tx = 2
event_code broadcast_attempt = 3
event_code broadcast_refused = 4
event_code sent_out_of_state = 5
event_code broadcast_payout = 6
event_code state_transition = 7

abbrev pub same_event : PayoutEvent → PayoutEvent → Bool
same_event a b = event_code a == event_code b

-- The keys of an audit row's JSON that the executor reads again; `none` where a key is missing, null or
-- an empty text.
pub record Metadata : Type 0 where
  pub payout_id : Option ℕ
  pub txid : Option ℕ
  pub signed_hex : Option RawTx
  pub change_sat : ℕ
  pub change_address : Option Text
  pub change_index : Option ℕ
  pub withdrawal_id : Option ℕ

abbrev pub no_metadata : Metadata
no_metadata = record {
  payout_id = none;
  txid = none;
  signed_hex = none;
  change_sat = 0;
  change_address = none;
  change_index = none;
  withdrawal_id = none;
}

-- `id` is a BIGSERIAL: it grows with every row.
pub record PayoutAudit : Type 0 where
  pub id : ℕ
  pub order_id : ℕ
  pub event_type : PayoutEvent
  pub from_state : Option OutboundState
  pub to_state : Option OutboundState
  pub metadata : Metadata

-- `refund_events` holds the rows of audit_events that the refunds write: no query of the payouts sees
-- them, nor the other way round.
pub record Db : Type 0 where
  pub bridge_orders : List PayoutOrder
  pub withdrawal_requests : List WithdrawalRequest
  pub payouts : List PayoutRow
  pub bridge_utxos : List BridgeUtxo
  pub audit_events : List PayoutAudit
  pub deposit_refunds : List RefundRow
  pub refund_events : List RefundAudit
  pub next_audit_id : ℕ
  pub next_payout_id : ℕ

abbrev pub same_id : Option ℕ → ℕ → Bool
same_id none i = false
same_id (some j) i = j == i

abbrev pub order_is : ℕ → PayoutOrder → Bool
order_is i o = o.id == i

abbrev pub payout_is : ℕ → PayoutRow → Bool
payout_is i p = p.id == i

abbrev pub is_outpoint : ℕ → ℕ → BridgeUtxo → Bool
is_outpoint txid vout u = (u.txid == txid) && (u.vout == vout)

abbrev pub held_by : ℕ → BridgeUtxo → Bool
held_by payout_id u = same_id u.spent_payout_id payout_id

abbrev pub status_code : UtxoStatus → ℕ
status_code available = 0
status_code reserved = 1
status_code spent = 2

abbrev pub has_status : UtxoStatus → BridgeUtxo → Bool
has_status s u = status_code u.status == status_code s

abbrev pub append_audit :
    ℕ → PayoutEvent → Option OutboundState → Option OutboundState → Metadata → Db → Db
append_audit order_id event from to metadata db = record db {
  audit_events =
      db.audit_events
      ++ record {
        id = db.next_audit_id;
        order_id = order_id;
        event_type = event;
        from_state = from;
        to_state = to;
        metadata = metadata;
      }
        ∷ [];
  next_audit_id = db.next_audit_id + 1;
}

abbrev pub with_order_state : OutboundState → PayoutOrder → PayoutOrder
with_order_state to o = record o { state = to }

abbrev pub set_order_state : ℕ → OutboundState → Db → Db
set_order_state order_id to db = record db {
  bridge_orders = update_where (order_is order_id) (with_order_state to) db.bridge_orders;
}

abbrev pub row_state : Option PayoutOrder → Option OutboundState
row_state none = none
row_state (some o) = some o.state

abbrev pub row_is : OutboundState → Option PayoutOrder → Bool
row_is state none = false
row_is state (some o) = same_outbound o.state state

abbrev pub state_of_order : ℕ → Db → Option OutboundState
state_of_order order_id db = row_state (select_one (order_is order_id) db.bridge_orders)

-- `SELECT state … FOR UPDATE`: the order is there, in that state.
abbrev pub is_in : ℕ → OutboundState → Db → Bool
is_in order_id state db = row_is state (select_one (order_is order_id) db.bridge_orders)

-- Where the database may throw.
pub data Write : Type 0 where
  parking retrying signing attempting committing refusing releasing : Write
  confirming recording completing : Write

-- `_transitionGeneric`, and `_transitionOutbound`, which writes a plain STATE_TRANSITION. The flag
-- says that it returned and did not throw.
unfoldable pub transition_generic :
    (Write → ℕ → Bool)
    → Write
    → ℕ
    → OutboundState
    → OutboundState
    → PayoutEvent
    → Metadata
    → Db
    → Db × Bool
transition_generic fails write order_id from to event metadata db =
    if can_transition_outbound from to
    then (if fails write order_id then (db, false) else (
      if is_in order_id from db
          then append_audit order_id event (some from) (some to) metadata
              (set_order_state order_id to db)
          else db,
      true,
    ))
    else (db, false)

abbrev pub transition_outbound :
    (Write → ℕ → Bool) → Write → ℕ → OutboundState → OutboundState → Metadata → Db → Db × Bool
transition_outbound fails write order_id from to metadata db =
    transition_generic fails write order_id from to state_transition metadata db
