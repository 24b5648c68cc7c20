-- ===== src/Deposits/Finality.antt =====
-- What pass B of watcher/src/deposits/block-handler.ts does to the orders.
use wbob_bridge.Prelude.{
  ℕ, ◌+◌, ◌-◌, ◌≤◌, ◌≡◌, refl, ◌∙◌, sym, ap, subst, ◌≢◌, ◌⊎◌, inl, inr, Bool, true, false, ◌&&◌,
  ◌||◌, not, Option, none, some, List, [], ◌∷◌, arith, ltb, if◌then◌else◌, min, Bool-cases,
  Option-cases, ℕ_discrete,
}
use mathlib.Core.Option
use wbob_bridge.Prelude.Tables.{select_one, select-update_self, select-update_ne}
use wbob_bridge.Shared.Result.{Result, ok, Result-cases}
use wbob_bridge.Shared.Inbound.{
  InboundState, InboundTransitionError, deposit_finalized, same_inbound, includes_inbound,
  assert_inbound_transition,
}
use wbob_bridge.Deposits.Confirmations.{ConfirmationConfig}
use wbob_bridge.Deposits.Tables.{
  DepositOrder, SourceDeposit, Store, WatcherEvent, order_is, set_state, move_order, update_deposit,
}
use wbob_bridge.Deposits.Advance.{
  AdvanceRow, DbFailures, TxChainStatus, walk_path, kept_or, still_in, hold_deposit,
  confirm_deposit, follow_node, advance_row, advance_rows, confirmations_of, moved_block,
  block_hash_of, relocate,
}
use wbob_bridge.Deposits.Targets.{path_to_finalized, rollback_not_finalized}

abbrev pub state_of : ℕ → Store → Option InboundState
state_of i s = Option.map (λ (o : DepositOrder). o.state) (select_one (order_is i) s.bridge_orders)

clash : {b : Bool} → b ≡ true → b ≡ false → ⊥
clash t f = cc

ok-injective : {a b : Store} → ◌≡◌ {A = Result InboundTransitionError Store} (ok a) (ok b) → a ≡ b
ok-injective h = cc

includes-cons :
    (x : InboundState) (xs : List InboundState) (y : InboundState)
    → includes_inbound xs y ≡ true
    → includes_inbound (x ∷ xs) y ≡ true
includes-cons x xs y h = ground arith

module _ (i : ℕ) (event : WatcherEvent) (from to : InboundState) (s : Store) where
  moved_other : (j : ℕ) → j ≢ i → state_of j (move_order i event from to s) ≡ state_of j s
  unfolding move_order
  moved_other j ne = ap (Option.map (λ (o : DepositOrder). o.state)) (
      select-update_ne (order_is i) (order_is j) (set_state to) s.bridge_orders
        (λ a h. ground arith) (λ a h. ground arith))

  pub moved_self :
      (o : DepositOrder)
      → select_one (order_is i) s.bridge_orders ≡ some o
      → select_one (order_is i) (move_order i event from to s).bridge_orders ≡ some (set_state to o)
  unfolding move_order
  moved_self o h =
      rw (select-update_self (order_is i) (set_state to) s.bridge_orders (λ a. refl), h) refl

moved_missing :
    (i : ℕ) (event : WatcherEvent) (from to : InboundState) (s : Store)
    → select_one (order_is i) s.bridge_orders ≡ none
    → state_of i (move_order i event from to s) ≡ none
unfolding move_order
moved_missing i event from to s h =
    rw (select-update_self (order_is i) (set_state to) s.bridge_orders (λ a. refl), h) refl

finalized_self :
    (i : ℕ) (event : WatcherEvent) (from to : InboundState) (s : Store)
    → state_of i (move_order i event from to s) ≡ some deposit_finalized
    → same_inbound to deposit_finalized ≡ true
finalized_self i event from to s h = elim (Option-cases (select_one (order_is i) s.bridge_orders)) [
  | inl gone ↦ absurd (cc (sym (moved_missing i event from to s gone) ∙ h))
  | inr (o, e) ↦
      let back : some to ≡ some deposit_finalized =
        sym (ap (Option.map (λ (o : DepositOrder). o.state)) (moved_self i event from to s o e))
        ∙ h in
      ground arith
]

-- Where a walk ends FINALIZED, the order was FINALIZED or the path goes there.
finalized_by_move :
    (i j : ℕ) (event : WatcherEvent) (from to : InboundState) (s : Store)
    → state_of j (move_order i event from to s) ≡ some deposit_finalized
    → (state_of j s ≡ some deposit_finalized)
      ⊎ ((j ≡ i) × (same_inbound to deposit_finalized ≡ true))
finalized_by_move i j event from to s h = elim (ℕ_discrete j i) [
  | no ne ↦ inl (sym (moved_other i event from to s j ne) ∙ h)
  | yes same ↦ inr (
    same,
    finalized_self i event from to s
        (subst (λ k. state_of k (move_order i event from to s) ≡ some deposit_finalized) same h),
  )
]

finalized_by_walk :
    (i j : ℕ) (event : WatcherEvent) (from : InboundState) (path : List InboundState) (s s' : Store)
    → walk_path i event from path s ≡ ok s'
    → state_of j s' ≡ some deposit_finalized
    → (state_of j s ≡ some deposit_finalized)
      ⊎ ((j ≡ i) × (includes_inbound path deposit_finalized ≡ true))
unfolding walk_path
finalized_by_walk i j event from [] s s' w h = inl (ap (state_of j) (ok-injective w) ∙ h)
finalized_by_walk i j event from (to ∷ path) s s' w h =
    elim (Result-cases (assert_inbound_transition from to)) [
      | inr (e, bad) ↦ absurd (cc (rw (walk_path, bad) at w))
      | inl (u, good) ↦
          elim (finalized_by_walk i j event to path (move_order i event from to s) s'
            (rw (walk_path, good) at w) h) [
              | inr (same, there) ↦ inr (same, includes-cons to path _ there)
              | inl before ↦ elim (finalized_by_move i j event from to s before) [
                | inl older ↦ inl older
                | inr (same, now) ↦ inr (same, rw now refl)
              ]
            ]
    ]

-- The store after a transaction that may be undone.
finalized_by_kept :
    (i j : ℕ) (event : WatcherEvent) (from : InboundState) (path : List InboundState) (s0 s : Store)
    → state_of j s0 ≡ state_of j s
    → state_of j (kept_or s0 (walk_path i event from path s)) ≡ some deposit_finalized
    → (state_of j s0 ≡ some deposit_finalized)
      ⊎ ((j ≡ i) × (includes_inbound path deposit_finalized ≡ true))
finalized_by_kept i j event from path s0 s e h =
    elim (Result-cases (walk_path i event from path s)) [
      | inr (x, bad) ↦ inl (subst (λ r. state_of j (kept_or s0 r) ≡ some deposit_finalized) bad h)
      | inl (s', good) ↦
          elim (finalized_by_walk i j event from path s s' good
            (subst (λ r. state_of j (kept_or s0 r) ≡ some deposit_finalized) good h)) [
              | inl older ↦ inl (e ∙ older)
              | inr there ↦ inr there
            ]
    ]

pub deposits_leave_orders :
    (b : Bool) (i j : ℕ) (f : SourceDeposit → SourceDeposit) (s : Store)
    → state_of j (if b then update_deposit i f s else s) ≡ state_of j s
unfolding update_deposit
deposits_leave_orders true i j f s = refl
deposits_leave_orders false i j f s = refl

module _ (config : ConfirmationConfig) (fails : DbFailures) where
  finalized_by_hold :
      (row : AdvanceRow) (s : Store) (j : ℕ)
      → state_of j (hold_deposit config fails row s) ≡ some deposit_finalized
      → state_of j s ≡ some deposit_finalized
  unfolding hold_deposit update_deposit
  finalized_by_hold row s j h =
      elim (Bool-cases (fails.confirming row.order_id || not (still_in row.order_id row.state s))) [
        | inl skip ↦ rw (hold_deposit, skip) at h
        | inr go ↦
            elim (finalized_by_kept row.order_id j _ row.state _ s _ refl
              (rw (hold_deposit, go) at h)) [
                | inl older ↦ older
                | inr (same, there) ↦
                    absurd (clash there (rollback_not_finalized row.state 0 config))
              ]
      ]

  -- The evidence on which a deposit becomes FINALIZED: the node's confirmations and the height.
  abbrev pub Evidence : ℕ → AdvanceRow → Option TxChainStatus → Type 0
  Evidence tip row chain =
      (config.final_confirmations ≤ confirmations_of chain)
      × (config.final_confirmations ≤ tip - row.block_height + 1)

  finalized_by_confirm :
      (confs : ℕ) (row : AdvanceRow) (s : Store) (j : ℕ)
      → state_of j (confirm_deposit config fails confs row s) ≡ some deposit_finalized
      → (state_of j s ≡ some deposit_finalized)
        ⊎ ((j ≡ row.order_id) × (config.final_confirmations ≤ confs))
  unfolding confirm_deposit update_deposit
  finalized_by_confirm confs row s j h =
      elim (Bool-cases (fails.confirming row.order_id || not (still_in row.order_id row.state s))) [
        | inl skip ↦ inl (rw (confirm_deposit, skip) at h)
        | inr go ↦
            elim (finalized_by_kept row.order_id j _ row.state _ s _ refl
              (rw (confirm_deposit, go) at h)) [
                | inl older ↦ inl older
                | inr (same, there) ↦ inr (same, path_to_finalized row.state confs config there)
              ]
      ]

  finalized_by_follow :
      (tip : ℕ) (row : AdvanceRow) (chain : Option TxChainStatus) (s : Store) (j : ℕ)
      → state_of j (follow_node config fails tip row chain s) ≡ some deposit_finalized
      → (state_of j s ≡ some deposit_finalized) ⊎ ((j ≡ row.order_id) × Evidence tip row chain)
  unfolding follow_node update_deposit
  finalized_by_follow tip row chain s j h =
      let moved = moved_block (block_hash_of chain) row.block_hash in
      elim (Bool-cases (ltb (confirmations_of chain) 1)) [
        | inl absent ↦ inl (finalized_by_hold row s j (rw (follow_node, absent) at h))
        | inr present ↦ elim (Bool-cases (moved && fails.relocating row.order_id)) [
          | inl broken ↦ inl (rw (follow_node, present, broken) at h)
          | inr fine ↦
              elim (finalized_by_confirm (min (tip - row.block_height + 1) (confirmations_of chain))
                row (if moved then update_deposit row.order_id (relocate chain) s else s) j
                (rw (follow_node, present, fine) at h)) [
                  | inl older ↦
                      inl (
                        sym (deposits_leave_orders moved row.order_id j (relocate chain) s) ∙ older)
                  | inr (same, enough) ↦ inr (same, (omega arith, omega arith))
                ]
        ]
      ]

  module _ (tx_status : ℕ → Result (Unit {0}) (Option TxChainStatus)) where
    -- The order's row names a tx that the node answered for with that evidence.
    pub record Verified (tip j : ℕ) (row : AdvanceRow) : Type 0 where
      pub chain : Option TxChainStatus
      pub txid : ℕ
      pub of_order : j ≡ row.order_id
      pub names : row.txid ≡ some txid
      pub answered : tx_status txid ≡ ok chain
      pub height : row.block_height ≤ tip
      pub evidence : Evidence tip row chain

    finalized_by_row :
        (tip : ℕ) (row : AdvanceRow) (s : Store) (j : ℕ)
        → state_of j (advance_row config fails tx_status tip row s) ≡ some deposit_finalized
        → (state_of j s ≡ some deposit_finalized) ⊎ Verified tip j row
    unfolding advance_row
    finalized_by_row tip row s j h = elim (Bool-cases (ltb tip row.block_height)) [
      | inl early ↦ inl (rw (advance_row, early) at h)
      | inr fine ↦ elim (Option-cases row.txid) [
        | inl unnamed ↦ inl (rw (advance_row, fine, unnamed) at h)
        | inr (t, named) ↦ elim (Result-cases (tx_status t)) [
          | inr (x, silent) ↦ inl (rw (advance_row, fine, named, silent) at h)
          | inl (chain, answer) ↦
              elim (finalized_by_follow tip row chain s j
                (rw (advance_row, fine, named, answer) at h)) [
                  | inl older ↦ inl older
                  | inr (same, ev) ↦ inr (record {
                    chain = chain;
                    txid = t;
                    of_order = same;
                    names = named;
                    answered = answer;
                    height = ground arith;
                    evidence = ev;
                  })
                ]
        ]
      ]
    ]

    -- Some row of the list is verified for the order.
    abbrev pub SomeVerified : ℕ → ℕ → List AdvanceRow → Type 0
    SomeVerified tip j [] = ⊥
    SomeVerified tip j (row ∷ rows) = Verified tip j row ⊎ SomeVerified tip j rows

    -- Pass B makes an order FINALIZED only on evidence: the watcher's own node reports the deposit's
    -- transaction with at least the final number of confirmations, and its recorded block is that
    -- deep under the block being handled.
    pub advance_rows_finalize_verified :
        (tip : ℕ) (rows : List AdvanceRow) (s : Store) (j : ℕ)
        → state_of j (advance_rows config fails tx_status tip rows s) ≡ some deposit_finalized
        → (state_of j s ≡ some deposit_finalized) ⊎ SomeVerified tip j rows
    unfolding advance_rows
    advance_rows_finalize_verified tip [] s j h = inl h
    advance_rows_finalize_verified tip (row ∷ rows) s j h =
        elim (advance_rows_finalize_verified tip rows (advance_row config fails tx_status tip row s)
          j h) [
            | inr later ↦ inr (inr later)
            | inl before ↦ elim (finalized_by_row tip row s j before) [
              | inl older ↦ inl older
              | inr here ↦ inr (inl here)
            ]
          ]
