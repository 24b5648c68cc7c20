-- ===== src/Deposits/Advance.antt =====
-- watcher/src/deposits/block-handler.ts, pass B and `handleOrphan`: confirmations and reorgs.
-- `tx_status` is the watcher's own node, which may fail to answer; `fails` says for which orders the
-- database throws, and where.
use wbob_bridge.Prelude.{
  ℕ, ◌+◌, ◌-◌, Bool, false, ◌&&◌, ◌||◌, not, Option, none, some, List, [], ◌∷◌, ltb, ◌==◌,
  if◌then◌else◌, min, max,
}
use wbob_bridge.Prelude.Tables.{select_one}
use wbob_bridge.Shared.Result.{Result, ok, err}
use wbob_bridge.Shared.Inbound.{
  InboundState, InboundTransitionError, deposit_seen_mempool, deposit_confirmed, deposit_finalized,
  same_inbound, assert_inbound_transition,
}
use wbob_bridge.Deposits.Confirmations.{
  ConfirmationConfig, compute_confirmation_transition, compute_reorg_rollback,
}
use wbob_bridge.Deposits.Matching.{RpcBlock}
use wbob_bridge.Deposits.Tables.{
  DepositOrder, SourceDeposit, Store, WatcherEvent, state_transition, tx_left_active_chain,
  reorg_rollback, order_is, move_order, update_deposit,
}

pub record TxOutput : Type 0 where
  pub n : ℕ
  pub address : Option ℕ
  pub value_sat : ℕ

pub record TxChainStatus : Type 0 where
  pub confirmations : ℕ
  pub block_hash : Option ℕ
  pub block_height : Option ℕ
  pub outputs : Option (List TxOutput)

-- The orders for which the database throws, at the update of a re-mined transaction and at the
-- transaction that moves the order.
pub record DbFailures : Type 0 where
  pub relocating : ℕ → Bool
  pub confirming : ℕ → Bool

pub record AdvanceRow : Type 0 where
  pub order_id : ℕ
  pub state : InboundState
  pub block_height : ℕ
  pub block_hash : Option ℕ
  pub txid : Option ℕ

abbrev pub can_advance : DepositOrder → Bool
can_advance o =
    o.is_inbound
    && (same_inbound o.state deposit_seen_mempool || same_inbound o.state deposit_confirmed)

-- The query `pendingAdvance`.
abbrev pub pending_advance : List DepositOrder → List SourceDeposit → List AdvanceRow
pending_advance orders [] = []
pending_advance orders (d ∷ ds) =
    let rest = pending_advance orders ds in
    elim (select_one (order_is d.order_id) orders) [
      | none ↦ rest
      | some o ↦ elim d.block_height [
        | none ↦ rest
        | some h ↦
            if can_advance o
            then record {
              order_id = o.id;
              state = o.state;
              block_height = h;
              block_hash = d.block_hash;
              txid = d.txid;
            }
              ∷ rest
            else rest
      ]
    ]

abbrev pub set_confirmations : ℕ → SourceDeposit → SourceDeposit
set_confirmations n d = record d { confirmations = n }

-- GREATEST(confirmations, n).
abbrev pub raise_confirmations : ℕ → SourceDeposit → SourceDeposit
raise_confirmations n d = record d { confirmations = max d.confirmations n }

-- The steps of one transaction: each edge is asserted, and a refused one undoes the whole.
unfoldable pub walk_path :
    ℕ
    → WatcherEvent
    → InboundState
    → List InboundState
    → Store
    → Result InboundTransitionError Store
unfolding move_order
walk_path i event from [] s = ok s
walk_path i event from (to ∷ path) s =
    let rest = walk_path i event to path (move_order i event from to s) in
    elim (assert_inbound_transition from to) [ err e ↦ err e | ok _ ↦ rest ]

abbrev pub kept_or : Store → Result InboundTransitionError Store → Store
kept_or s (ok s') = s'
kept_or s (err e) = s

-- SELECT … FOR UPDATE: the order is still in the state that was read.
abbrev pub still_in : ℕ → InboundState → Store → Bool
still_in i state s = elim (select_one (order_is i) s.bridge_orders) [
  | none ↦ false
  | some o ↦ same_inbound o.state state
]

abbrev pub path_of_rollback : Option InboundState → List InboundState
path_of_rollback none = []
path_of_rollback (some back) = back ∷ []

-- SEEN_MEMPOOL → FINALIZED goes through CONFIRMED.
abbrev pub path_to : InboundState → Option InboundState → List InboundState
path_to state none = []
path_to state (some target) =
    if same_inbound state deposit_seen_mempool && same_inbound target deposit_finalized
    then deposit_confirmed ∷ target ∷ []
    else target ∷ []

abbrev pub moved_block : Option ℕ → Option ℕ → Bool
moved_block (some a) (some b) = not (a == b)
moved_block _ _ = false

abbrev pub or_else : Option ℕ → Option ℕ → Option ℕ
or_else none b = b
or_else (some a) b = some a

abbrev pub confirmations_of : Option TxChainStatus → ℕ
confirmations_of none = 0
confirmations_of (some c) = c.confirmations

abbrev pub block_hash_of : Option TxChainStatus → Option ℕ
block_hash_of none = none
block_hash_of (some c) = c.block_hash

abbrev pub block_height_of : Option TxChainStatus → Option ℕ
block_height_of none = none
block_height_of (some c) = c.block_height

abbrev pub relocate : Option TxChainStatus → SourceDeposit → SourceDeposit
relocate chain d = record d {
  block_hash = block_hash_of chain;
  block_height = or_else (block_height_of chain) d.block_height;
  confirmations = confirmations_of chain;
}

module _ (config : ConfirmationConfig) (fails : DbFailures) where
  -- The node says that the tx is not in the active chain.
  unfoldable pub hold_deposit : AdvanceRow → Store → Store
  unfolding walk_path
  hold_deposit row s =
      if fails.confirming row.order_id || not (still_in row.order_id row.state s)
      then s
      else kept_or s (
          walk_path row.order_id tx_left_active_chain row.state
            (path_of_rollback (compute_reorg_rollback row.state 0 config))
            (update_deposit row.order_id (set_confirmations 0) s))

  -- The transaction that counts confirmations and walks to the target state.
  unfoldable pub confirm_deposit : ℕ → AdvanceRow → Store → Store
  unfolding walk_path
  confirm_deposit confs row s =
      if fails.confirming row.order_id || not (still_in row.order_id row.state s)
      then s
      else kept_or s (
          walk_path row.order_id state_transition row.state
            (path_to row.state (compute_confirmation_transition row.state confs config))
            (update_deposit row.order_id (raise_confirmations confs) s))

  -- What is done with the node's answer about the tx.
  unfoldable pub follow_node : ℕ → AdvanceRow → Option TxChainStatus → Store → Store
  unfolding hold_deposit confirm_deposit
  follow_node tip row chain s =
      let node_confs = confirmations_of chain in
      let confs = min (tip - row.block_height + 1) node_confs in
      let moved = moved_block (block_hash_of chain) row.block_hash in
      if ltb node_confs 1
      then hold_deposit row s
      else if moved && fails.relocating row.order_id
      then s
      else confirm_deposit confs row
          (if moved then update_deposit row.order_id (relocate chain) s else s)

  module _ (tx_status : ℕ → Result (Unit {0}) (Option TxChainStatus)) where
    -- One row of pass B. `tip - row.block_height` is computed where it is not negative.
    unfoldable pub advance_row : ℕ → AdvanceRow → Store → Store
    unfolding follow_node
    advance_row tip row s = if ltb tip row.block_height then s else elim row.txid [
      | none ↦ s
      | some txid ↦ elim (tx_status txid) [ err _ ↦ s | ok chain ↦ follow_node tip row chain s ]
    ]

    unfoldable pub advance_rows : ℕ → List AdvanceRow → Store → Store
    unfolding advance_row
    advance_rows tip [] s = s
    advance_rows tip (row ∷ rows) s = advance_rows tip rows (advance_row tip row s)

    -- Pass B of `handleBlock`.
    unfoldable pub advance_deposits : RpcBlock → Store → Store
    unfolding advance_rows
    advance_deposits block s =
        advance_rows block.height (pending_advance s.bridge_orders s.source_deposits) s

  -- `handleOrphan`: the confirmed deposits of an orphaned block.
  abbrev pub orphaned_rows : ℕ → List DepositOrder → List SourceDeposit → List (ℕ × InboundState)
  orphaned_rows hash orders [] = []
  orphaned_rows hash orders (d ∷ ds) =
      let rest = orphaned_rows hash orders ds in
      elim (select_one (order_is d.order_id) orders) [
        | none ↦ rest
        | some o ↦ elim d.block_hash [
          | none ↦ rest
          | some h ↦
              if o.is_inbound && (same_inbound o.state deposit_confirmed && h == hash)
              then (o.id, o.state) ∷ rest
              else rest
        ]
      ]

  unfoldable pub roll_back : ℕ × InboundState → Store → Store
  unfolding move_order
  roll_back (i, state) s = elim (compute_reorg_rollback state 0 config) [
    | none ↦ s
    | some back ↦
        if fails.confirming i || not (still_in i state s)
        then s
        else move_order i reorg_rollback state back s
  ]

  unfoldable pub roll_back_all : List (ℕ × InboundState) → Store → Store
  unfolding roll_back
  roll_back_all [] s = s
  roll_back_all (r ∷ rs) s = roll_back_all rs (roll_back r s)

  unfoldable pub handle_orphan : ℕ → Store → Store
  unfolding roll_back_all
  handle_orphan hash s = roll_back_all (orphaned_rows hash s.bridge_orders s.source_deposits) s
