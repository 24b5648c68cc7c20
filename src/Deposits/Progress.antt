-- ===== src/Deposits/Progress.antt =====
-- Walking an order to its target (watcher/src/deposits/block-handler.ts, pass B).
use wbob_bridge.Prelude.{
  ℕ, ◌≤◌, ◌<◌, ◌≡◌, refl, ◌∙◌, sym, ap, inl, inr, true, false, some, List, [], ◌∷◌, arith,
  Option-cases,
}
use mathlib.Core.Option
use wbob_bridge.Prelude.Tables.{select_one}
use wbob_bridge.Shared.Result.{ok}
use wbob_bridge.Shared.Inbound.{
  InboundState, deposit_finalized, assert_inbound_transition, can_transition_inbound,
  same_inbound_iff,
}
use wbob_bridge.Deposits.Confirmations.{ConfirmationConfig, compute_confirmation_transition}
use wbob_bridge.Deposits.Tables.{
  DepositOrder, Store, WatcherEvent, order_is, state_transition, move_order, update_deposit,
}
use wbob_bridge.Deposits.Advance.{
  AdvanceRow, DbFailures, raise_confirmations, walk_path, still_in, path_to, confirm_deposit,
}
use wbob_bridge.Deposits.Targets.{is_legal, is_pending, path_to_legal, target_at_finality}
use wbob_bridge.Deposits.Finality.{state_of, moved_self}

abbrev last_of : InboundState → List InboundState → InboundState
last_of from [] = from
last_of from (to ∷ path) = last_of to path

assert_allowed :
    (from to : InboundState)
    → can_transition_inbound from to ≡ true
    → assert_inbound_transition from to ≡ ok tt
unfolding assert_inbound_transition
assert_allowed from to e = rw (e, assert_inbound_transition) refl

state_moved :
    (i : ℕ) (event : WatcherEvent) (from to : InboundState) (s : Store) {x : InboundState}
    → state_of i s ≡ some x
    → state_of i (move_order i event from to s) ≡ some to
state_moved i event from to s h = elim (Option-cases (select_one (order_is i) s.bridge_orders)) [
  | inl gone ↦ absurd (cc (sym (ap (Option.map (λ (o : DepositOrder). o.state)) gone) ∙ h))
  | inr (o, e) ↦ ap (Option.map (λ (o : DepositOrder). o.state)) (moved_self i event from to s o e)
]

-- A legal path is walked to its end.
walk_ends :
    (i : ℕ) (event : WatcherEvent) (from : InboundState) (path : List InboundState) (s : Store)
    → state_of i s ≡ some from
    → is_legal from path ≡ true
    → (s' : Store) × (walk_path i event from path s ≡ ok s')
      × (state_of i s' ≡ some (last_of from path))
unfolding walk_path
walk_ends i event from [] s h legal = (s, refl, h)
walk_ends i event from (to ∷ path) s h legal =
    let edge : can_transition_inbound from to ≡ true = ground arith in
    let (s', w, e) =
      walk_ends i event to path (move_order i event from to s) (state_moved i event from to s h)
        (ground arith) in
    (s', rw (assert_allowed from to edge, walk_path) w, e)

last_is_target :
    (state : InboundState) (target : InboundState)
    → last_of state (path_to state (some target)) ≡ target
last_is_target state target = ground arith

still_in_state :
    (i : ℕ) (state : InboundState) (s : Store)
    → state_of i s ≡ some state
    → still_in i state s ≡ true
still_in_state i state s h = elim (Option-cases (select_one (order_is i) s.bridge_orders)) [
  | inl gone ↦ absurd (cc (sym (ap (Option.map (λ (o : DepositOrder). o.state)) gone) ∙ h))
  | inr (o, e) ↦
      let same : some o.state ≡ some state =
        sym (ap (Option.map (λ (o : DepositOrder). o.state)) e) ∙ h in
      rw (e, still_in) ((same_inbound_iff o.state state).1 (cc))
]

module _ (config : ConfirmationConfig) (fails : DbFailures) where
  -- A seen or confirmed deposit that still is in the state that was read becomes FINALIZED in the
  -- transaction of a block that counts the final number of confirmations, if the database does not
  -- fail.
  pub confirm_finalizes :
      (confs : ℕ) (row : AdvanceRow) (s : Store)
      → state_of row.order_id s ≡ some row.state
      → is_pending row.state ≡ true
      → fails.confirming row.order_id ≡ false
      → 0 < confs
      → config.final_confirmations ≤ confs
      → state_of row.order_id (confirm_deposit config fails confs row s) ≡ some deposit_finalized
  unfolding confirm_deposit update_deposit
  confirm_finalizes confs row s h pending fine p le =
      let target = target_at_finality row.state confs config pending p le in
      let (s', w, e) =
        walk_ends row.order_id state_transition row.state
          (path_to row.state (compute_confirmation_transition row.state confs config))
          (update_deposit row.order_id (raise_confirmations confs) s) h
          (path_to_legal row.state confs config pending) in
      let there : last_of row.state
            (path_to row.state (compute_confirmation_transition row.state confs config))
          ≡ deposit_finalized =
        rw target (last_is_target row.state deposit_finalized) in
      rw (fine, still_in_state row.order_id row.state s h, w) (e ∙ ap (λ x. some x) there)
