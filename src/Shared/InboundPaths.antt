-- ===== src/Shared/InboundPaths.antt =====
-- Walks through the inbound graph (shared/src/state-machine/inbound.ts): what a walk has passed.
use wbob_bridge.Prelude.{
  ℕ, ◌+◌, ◌≤◌, ◌<◌, ◌≡◌, refl, ◌↔◌, ◌⊎◌, inl, inr, true, List, [], ◌∷◌, arith,
}
use wbob_bridge.Shared.Inbound.{
  InboundState, quote_created, deposit_address_assigned, deposit_seen_mempool, deposit_confirmed,
  deposit_finalized, mint_auth_created, mint_submitted, mint_confirmed, completed, failed, refunded,
  same_inbound, includes_inbound, can_transition_inbound, is_inbound_terminal, valid_next_states,
}

-- A walk along allowed edges, with the states that it visits, the last one first.
pub data InboundWalk (start : InboundState) : List InboundState → InboundState → Type 0 where
  stay : InboundWalk start (start ∷ []) start
  move :
      {visited : List InboundState} {s t : InboundState}
      → InboundWalk start visited s
      → can_transition_inbound s t ≡ true
      → InboundWalk start (t ∷ visited) t

-- How far along the way to a mint a state stands; a failed or refunded order stands nowhere.
abbrev mint_stage : InboundState → ℕ
mint_stage quote_created = 0
mint_stage deposit_address_assigned = 1
mint_stage deposit_seen_mempool = 2
mint_stage deposit_confirmed = 3
mint_stage deposit_finalized = 4
mint_stage mint_auth_created = 5
mint_stage mint_submitted = 6
mint_stage mint_confirmed = 7
mint_stage completed = 8
mint_stage failed = 0
mint_stage refunded = 0

edge_stage :
    (s t : InboundState) → can_transition_inbound s t ≡ true → mint_stage t ≤ mint_stage s + 1
unfolding can_transition_inbound
edge_stage s t h = ground arith

stage_unique :
    (x t : InboundState) → 0 < mint_stage x → mint_stage x ≡ mint_stage t → same_inbound t x ≡ true
stage_unique x t p e = ground arith

stage_split :
    (x s t : InboundState)
    → 0 < mint_stage x
    → mint_stage x ≤ mint_stage t
    → mint_stage t ≤ mint_stage s + 1
    → (same_inbound t x ≡ true) ⊎ (mint_stage x ≤ mint_stage s)
stage_split x s t p le step = ground (arith, stage_unique x t)

module _ (start : InboundState) where
  -- A walk along allowed edges, from any state, has visited every stage of the mint from the one
  -- that it starts at up to the one that it ends at: none of the stages seen, confirmed, finalized,
  -- authorised, submitted between the two can be skipped.
  walk_visits_stages :
      {visited : List InboundState} {s : InboundState} (x : InboundState)
      → InboundWalk start visited s
      → 0 < mint_stage x
      → mint_stage start ≤ mint_stage x
      → mint_stage x ≤ mint_stage s
      → includes_inbound visited x ≡ true
  walk_visits_stages x stay p from le = ground (arith, stage_unique x start p (omega arith))
  walk_visits_stages x (move {s = s} {t = t} w e) p from le =
      elim (stage_split x s t p le (edge_stage s t e)) [
        | inl here ↦ ground arith
        | inr earlier ↦ ground (arith, walk_visits_stages x w p from earlier)
      ]

-- A state is terminal exactly when it has no allowed successor.
pub is_inbound_terminal-iff_no_exit :
    (s : InboundState) → (is_inbound_terminal s ≡ true) ↔ (valid_next_states s ≡ [])
unfolding is_inbound_terminal valid_next_states
is_inbound_terminal-iff_no_exit s = ground arith

-- From every state an order can still end: in a completed mint or in a refund.
inbound_can_end :
    (s : InboundState)
    → (visited : List InboundState) × (end : InboundState) × InboundWalk s visited end
      × (is_inbound_terminal end ≡ true)
unfolding can_transition_inbound is_inbound_terminal
inbound_can_end completed = (_, _, stay, refl)
inbound_can_end refunded = (_, _, stay, refl)
inbound_can_end failed = (_, refunded, move stay refl, refl)
inbound_can_end mint_confirmed = (_, completed, move stay refl, refl)
inbound_can_end s = (_, refunded, move (move {t = failed} stay refl) refl, refl)
