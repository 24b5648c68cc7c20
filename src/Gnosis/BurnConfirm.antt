-- ===== src/Gnosis/BurnConfirm.antt =====
-- backend/src/gnosis/event-watcher.ts, `confirmPendingBurns`: a burn that is deep enough is queued for
-- its payout, in two transactions.
use wbob_bridge.Prelude.{
  ℕ, ◌+◌, ◌≤◌, ◌≡◌, refl, ◌∙◌, ap, Bool, true, false, Option, none, some, List, [], ◌∷◌, ◌++◌, ◌==◌,
  if◌then◌else◌, Bool-cases, inl, inr, arith, All, All-append,
}
use wbob_bridge.Prelude.Int.{ltb_ℤ, sub_ℕ, pos}
use wbob_bridge.Prelude.Tables.{select_one, update_where}
use wbob_bridge.Shared.Outbound.{
  OutboundState, burn_tx_seen, burn_confirmed, payout_queued, same_outbound,
  can_transition_outbound,
}
use wbob_bridge.Gnosis.EventWatcher.{OutboundOrder, WithdrawalRow}

-- A STATE_TRANSITION row of audit_events.
pub record BurnTransition : Type 0 where
  pub order_id : ℕ
  pub from_state : OutboundState
  pub to_state : OutboundState

pub record BurnDb : Type 0 where
  pub bridge_orders : List OutboundOrder
  pub withdrawal_requests : List WithdrawalRow
  pub transitions : List BurnTransition

pub record ConfirmingBurnRow : Type 0 where
  pub order_id : ℕ
  pub burn_block_number : ℕ

abbrev pub is_order : ℕ → OutboundOrder → Bool
is_order i o = o.id == i

abbrev pub order_in : OutboundState → Option OutboundOrder → Bool
order_in state none = false
order_in state (some o) = same_outbound o.state state

-- The join of withdrawals with the orders in BURN_TX_SEEN.
unfoldable pub pending_burns : BurnDb → List WithdrawalRow → List ConfirmingBurnRow
pending_burns db [] = []
pending_burns db (w ∷ ws) =
    if order_in burn_tx_seen (select_one (is_order w.order_id) db.bridge_orders)
    then record { order_id = w.order_id; burn_block_number = w.burn_block_number }
      ∷ pending_burns db ws
    else pending_burns db ws

abbrev pub to_state : OutboundState → OutboundOrder → OutboundOrder
to_state s o = record o { state = s }

-- `_transitionOutbound`; the flag says that it did not throw.
unfoldable pub transition_burn :
    (OutboundState → ℕ → Bool) → ℕ → OutboundState → OutboundState → BurnDb → BurnDb × Bool
transition_burn fails i from to db =
    if can_transition_outbound from to
    then (if fails from i then (db, false) else (
      if order_in from (select_one (is_order i) db.bridge_orders)
          then record db {
            bridge_orders = update_where (is_order i) (to_state to) db.bridge_orders;
            transitions =
                db.transitions ++ record { order_id = i; from_state = from; to_state = to } ∷ [];
          }
          else db,
      true,
    ))
    else (db, false)

-- One turn of the loop: the second transaction runs only if the first returned.
unfoldable pub confirm_burn :
    (OutboundState → ℕ → Bool) → ℕ → ℕ → ConfirmingBurnRow → BurnDb → BurnDb
unfolding transition_burn
confirm_burn fails current_block confirmation_depth row db =
    if ltb_ℤ (sub_ℕ current_block row.burn_block_number) (pos confirmation_depth)
    then db
    else let (db', returned) = transition_burn fails row.order_id burn_tx_seen burn_confirmed db in
      elim returned [
        | false ↦ db'
        | true ↦ (transition_burn fails row.order_id burn_confirmed payout_queued db').0
      ]

unfoldable pub confirm_burns :
    (OutboundState → ℕ → Bool) → ℕ → ℕ → List ConfirmingBurnRow → BurnDb → BurnDb
unfolding confirm_burn
confirm_burns fails current_block confirmation_depth [] db = db
confirm_burns fails current_block confirmation_depth (row ∷ rows) db =
    confirm_burns fails current_block confirmation_depth rows
      (confirm_burn fails current_block confirmation_depth row db)

-- `confirmPendingBurns`. `current_block` is none where the node does not answer, which is thrown.
unfoldable pub confirm_pending_burns :
    (OutboundState → ℕ → Bool) → Option ℕ → ℕ → BurnDb → BurnDb × Bool
unfolding confirm_burns pending_burns
confirm_pending_burns fails current_block confirmation_depth db =
    elim (pending_burns db db.withdrawal_requests) [
      | [] ↦ (db, true)
      | row ∷ rows ↦ elim current_block [
        | none ↦ (db, false)
        | some block ↦ (confirm_burns fails block confirmation_depth (row ∷ rows) db, true)
      ]
    ]

-- Only transitions that the predicate holds of are added to the journal.
abbrev AddsOnly : (BurnTransition → Type 0) → BurnDb → BurnDb → Type 0
AddsOnly P db db' =
    (new : List BurnTransition) × ((db'.transitions ≡ db.transitions ++ new) × All P new)

append_nothing : (ts : List BurnTransition) → ts ≡ ts ++ []
append_nothing [] = refl
append_nothing (t ∷ ts) = ap (λ l. t ∷ l) (append_nothing ts)

append_assoc : (a b c : List BurnTransition) → (a ++ b) ++ c ≡ a ++ (b ++ c)
append_assoc [] b c = refl
append_assoc (t ∷ a) b c = ap (λ l. t ∷ l) (append_assoc a b c)

AddsOnly-refl : (P : BurnTransition → Type 0) (db : BurnDb) → AddsOnly P db db
AddsOnly-refl P db = ([], (append_nothing db.transitions, tt))

AddsOnly-trans :
    (P : BurnTransition → Type 0) (a b c : BurnDb)
    → AddsOnly P a b
    → AddsOnly P b c
    → AddsOnly P a c
AddsOnly-trans P a b c (new, (e, h)) (more, (e', h')) = (
  new ++ more,
  (e' ∙ (ap (λ l. l ++ more) e ∙ append_assoc a.transitions new more), All-append P new more h h'),
)

transition-AddsOnly :
    (P : BurnTransition → Type 0) (fails : OutboundState → ℕ → Bool) (i : ℕ)
    (from to : OutboundState) (db : BurnDb)
    → P (record { order_id = i; from_state = from; to_state = to })
    → AddsOnly P db (transition_burn fails i from to db).0
unfolding transition_burn
transition-AddsOnly P fails i from to db p = elim (Bool-cases (can_transition_outbound from to)) [
  | inr no_edge ↦ rw (no_edge, transition_burn) (AddsOnly-refl P db)
  | inl edge ↦ elim (Bool-cases (fails from i)) [
    | inl thrown ↦ rw (edge, transition_burn, thrown) (AddsOnly-refl P db)
    | inr fine ↦ elim (Bool-cases (order_in from (select_one (is_order i) db.bridge_orders))) [
      | inr moved ↦ rw (edge, transition_burn, fine, moved) (AddsOnly-refl P db)
      | inl here ↦ rw (edge, transition_burn, fine, here) (_, (refl, (p, tt)))
    ]
  ]
]

-- A turn of the loop moves no order but the row's, and that one only if its burn is deep enough.
confirm_burn-AddsOnly :
    (fails : OutboundState → ℕ → Bool) (current_block confirmation_depth : ℕ)
    (row : ConfirmingBurnRow) (db : BurnDb)
    → AddsOnly
        (λ t.
          (t.order_id ≡ row.order_id)
          × (row.burn_block_number + confirmation_depth ≤ current_block))
        db
        (confirm_burn fails current_block confirmation_depth row db)
unfolding confirm_burn
confirm_burn-AddsOnly fails current_block confirmation_depth row db =
    elim (Bool-cases (ltb_ℤ (sub_ℕ current_block row.burn_block_number) (pos confirmation_depth))) [
      | inl shallow ↦ rw (confirm_burn, shallow) (AddsOnly-refl P db)
      | inr deep ↦
          let next = transition_burn fails row.order_id burn_tx_seen burn_confirmed db in
          let first =
            transition-AddsOnly P fails row.order_id burn_tx_seen burn_confirmed db
              (refl, is_deep deep) in
          elim (Bool-cases next.1) [
            | inr thrown ↦ rw (confirm_burn, deep, thrown) first
            | inl returned ↦
                rw (confirm_burn, deep, returned)
                  (AddsOnly-trans P db next.0
                    (transition_burn fails row.order_id burn_confirmed payout_queued next.0).0 first
                    (transition-AddsOnly P fails row.order_id burn_confirmed payout_queued next.0
                      (refl, is_deep deep)))
          ]
    ]
  where
    P : BurnTransition → Type 0
    P t = (t.order_id ≡ row.order_id) × (row.burn_block_number + confirmation_depth ≤ current_block)

    is_deep :
        ltb_ℤ (sub_ℕ current_block row.burn_block_number) (pos confirmation_depth) ≡ false
        → row.burn_block_number + confirmation_depth ≤ current_block
    is_deep e = ground arith
