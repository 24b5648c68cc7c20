-- ===== src/Payout/Moves.antt =====
-- The states of the orders under backend/src/executor/payout-executor.ts, against the outbound graph.
use mathlib.Core.Option
use wbob_bridge.Prelude.{
  ℕ, ◌≡◌, refl, ◌∙◌, sym, ap, subst, Bool, true, Option, none, some, List, arith, if◌then◌else◌,
  Bool-cases, Option-cases, inl, inr,
}
use wbob_bridge.Prelude.Tables.{select_one, update_where, select-update, select_one-holds}
use wbob_bridge.Shared.Outbound.{
  OutboundState, same_outbound, outbound_code-injective, can_transition_outbound,
}
use wbob_bridge.Shared.OutboundPaths.{OutboundWalk, stay, move}
use wbob_bridge.Payout.Tables.{
  PayoutOrder, PayoutEvent, Metadata, Db, Write, order_is, with_order_state, is_in, row_state,
  row_is, transition_generic,
}

abbrev pub WalkTo : OutboundState → OutboundState → Type 0
WalkTo s t = (visited : List OutboundState) × OutboundWalk s visited t

walk_on :
    {s t u : OutboundState} {v : List OutboundState} → WalkTo s t → OutboundWalk t v u → WalkTo s u
walk_on w stay = w
walk_on w (move w' e) = let (v, w'') = walk_on w w' in (_, move w'' e)

abbrev pub state_in : ℕ → List PayoutOrder → Option OutboundState
state_in i orders = row_state (select_one (order_is i) orders)

-- Every order's state is reached from the one before along allowed edges.
abbrev pub Walks : List PayoutOrder → List PayoutOrder → Type 0
Walks orders orders' =
    (i : ℕ) (s : OutboundState)
    → state_in i orders ≡ some s
    → (t : OutboundState) × ((state_in i orders' ≡ some t) × WalkTo s t)

pub Walks-trans : (a b c : List PayoutOrder) → Walks a b → Walks b c → Walks a c
Walks-trans a b c f g i s h =
    let (t, (ht, w)) = f i s h in let (u, (hu, w')) = g i t ht in (u, (hu, walk_on w w'.1))

pub Walks-refl : (a : List PayoutOrder) → Walks a a
Walks-refl a i s h = (s, (h, (_, stay)))

-- What leaves the orders alone moves none.
pub Walks-same : (a b : List PayoutOrder) → b ≡ a → Walks a b
Walks-same a b e = subst (λ c. Walks a c) (sym e) (Walks-refl a)

nothing : {s : OutboundState} → ◌≡◌ {A = Option OutboundState} none (some s) → ⊥
nothing e = cc

same_state : {s t : OutboundState} → ◌≡◌ {A = Option OutboundState} (some s) (some t) → s ≡ t
same_state e = cc

is_that : (a b : OutboundState) → same_outbound a b ≡ true → a ≡ b
is_that a b h = outbound_code-injective a b (ground arith)

pub Walks-set :
    (i : ℕ) (from to : OutboundState) (orders : List PayoutOrder)
    → row_is from (select_one (order_is i) orders) ≡ true
    → can_transition_outbound from to ≡ true
    → Walks orders (update_where (order_is i) (with_order_state to) orders)
Walks-set i from to orders here edge j s h = elim (Option-cases (select_one (order_is j) orders)) [
  | inl gone ↦ absurd (nothing (sym (ap row_state gone) ∙ h))
  | inr (o, found) ↦
      let after = ap row_state (
        select-update (order_is i) (order_is j) (with_order_state to) orders (λ r. refl)
        ∙ ap (Option.map (λ (r : PayoutOrder). if order_is i r then with_order_state to r else r))
            found) in
      let was : o.state ≡ s = same_state (sym (ap row_state found) ∙ h) in
      elim (Bool-cases (order_is i o)) [
        | inr other ↦ (s, (after ∙ rw other (ap (λ x. some x) was), (_, stay)))
        | inl mine ↦
            let ours : i ≡ j = ids o mine (select_one-holds (order_is j) orders found) in
            let here' : row_is from (select_one (order_is j) orders) ≡ true =
              subst (λ k. row_is from (select_one (order_is k) orders) ≡ true) ours here in
            let in_from : same_outbound o.state from ≡ true =
              subst (λ r. row_is from r ≡ true) found here' in
            (
              to,
              (
                after ∙ rw mine refl,
                (
                  _,
                  move stay (
                      subst (λ x. can_transition_outbound x to ≡ true)
                        (sym (is_that o.state from in_from) ∙ was) edge),
                ),
              ),
            )
      ]
]
  where
    ids : (o : PayoutOrder) → order_is i o ≡ true → order_is j o ≡ true → i ≡ j
    ids o m f = ground arith

pub transition-Walks :
    (fails : Write → ℕ → Bool) (write : Write) (i : ℕ) (from to : OutboundState)
    (event : PayoutEvent) (metadata : Metadata) (db : Db)
    → Walks db.bridge_orders
        (transition_generic fails write i from to event metadata db).0.bridge_orders
unfolding transition_generic
transition-Walks fails write i from to event metadata db =
    elim (Bool-cases (can_transition_outbound from to)) [
      | inr no_edge ↦ rw (no_edge, transition_generic) (Walks-refl db.bridge_orders)
      | inl edge ↦ elim (Bool-cases (fails write i)) [
        | inl broken ↦ rw (edge, transition_generic, broken) (Walks-refl db.bridge_orders)
        | inr fine ↦ elim (Bool-cases (is_in i from db)) [
          | inr moved ↦ rw (edge, transition_generic, fine, moved) (Walks-refl db.bridge_orders)
          | inl here ↦
              rw (edge, transition_generic, fine, here)
                (Walks-set i from to db.bridge_orders here edge)
        ]
      ]
    ]
