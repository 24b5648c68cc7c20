-- ===== src/Shared/OutboundPaths.antt =====
-- Walks through the outbound graph (shared/src/state-machine/outbound.ts): what a payout has passed.
use wbob_bridge.Prelude.{
  ℕ, ◌+◌, ◌≤◌, ◌≡◌, refl, ◌↔◌, ◌⊎◌, inl, inr, Bool, true, false, List, [], ◌∷◌, arith,
}
use wbob_bridge.Shared.Outbound.{
  OutboundState, withdraw_request_created, burn_tx_seen, burn_confirmed, payout_queued,
  payout_signed, payout_broadcast, payout_confirmed, completed, failed, manual_review,
  same_outbound, includes_outbound, can_transition_outbound, is_outbound_terminal,
  valid_outbound_next_states,
}

-- A walk along allowed edges, with the states that it visits, the last one first.
pub data OutboundWalk (start : OutboundState) : List OutboundState → OutboundState → Type 0 where
  stay : OutboundWalk start (start ∷ []) start
  move :
      {visited : List OutboundState} {s t : OutboundState}
      → OutboundWalk start visited s
      → can_transition_outbound s t ≡ true
      → OutboundWalk start (t ∷ visited) t

-- How far along the way to a payout a state stands. Review stands just before the queue.
abbrev pub payout_stage : OutboundState → ℕ
payout_stage withdraw_request_created = 0
payout_stage burn_tx_seen = 1
payout_stage burn_confirmed = 2
payout_stage payout_queued = 3
payout_stage payout_signed = 4
payout_stage payout_broadcast = 5
payout_stage payout_confirmed = 6
payout_stage completed = 7
payout_stage failed = 1
payout_stage manual_review = 2

edge_stage :
    (s t : OutboundState) → can_transition_outbound s t ≡ true → payout_stage t ≤ payout_stage s + 1
unfolding can_transition_outbound
edge_stage s t h = ground arith

stage_unique :
    (x t : OutboundState)
    → 3 ≤ payout_stage x
    → payout_stage x ≡ payout_stage t
    → same_outbound t x ≡ true
stage_unique x t p e = ground arith

stage_split :
    (x s t : OutboundState)
    → 3 ≤ payout_stage x
    → payout_stage x ≤ payout_stage t
    → payout_stage t ≤ payout_stage s + 1
    → (same_outbound t x ≡ true) ⊎ (payout_stage x ≤ payout_stage s)
stage_split x s t p le step = ground (arith, stage_unique x t)

-- A withdrawal has visited every stage of the payout from the queue up to the one that it stands at:
-- none of queued, signed, broadcast, confirmed is skipped, with or without a manual review.
pub walk_visits_payout_stages :
    {visited : List OutboundState} {s : OutboundState} (x : OutboundState)
    → OutboundWalk withdraw_request_created visited s
    → 3 ≤ payout_stage x
    → payout_stage x ≤ payout_stage s
    → includes_outbound visited x ≡ true
walk_visits_payout_stages x stay p le = absurd (omega arith)
walk_visits_payout_stages x (move {s = s} {t = t} w e) p le =
    elim (stage_split x s t p le (edge_stage s t e)) [
      | inl here ↦ ground arith
      | inr earlier ↦ ground (arith, walk_visits_payout_stages x w p earlier)
    ]

-- The states that an order reaches only through a confirmed burn, unless an operator reviewed it.
abbrev pub past_burn : OutboundState → Bool
past_burn withdraw_request_created = false
past_burn burn_tx_seen = false
past_burn failed = false
past_burn _ = true

past_burn_back :
    (s t : OutboundState)
    → can_transition_outbound s t ≡ true
    → same_outbound t manual_review ≡ false
    → past_burn t ≡ true
    → (same_outbound t burn_confirmed ≡ true)
      ⊎ (same_outbound s manual_review ≡ true)
      ⊎ (past_burn s ≡ true)
unfolding can_transition_outbound
past_burn_back s t e n p = ground arith

visits_last :
    {visited : List OutboundState} {s : OutboundState}
    → OutboundWalk withdraw_request_created visited s
    → same_outbound s manual_review ≡ true
    → includes_outbound visited manual_review ≡ true
visits_last stay h = ground arith
visits_last (move w e) h = ground arith

-- An order that no operator has reviewed is past the burn only if its burn was confirmed.
unreviewed_walk_visits_burn :
    {visited : List OutboundState} {s : OutboundState}
    → OutboundWalk withdraw_request_created visited s
    → includes_outbound visited manual_review ≡ false
    → past_burn s ≡ true
    → includes_outbound visited burn_confirmed ≡ true
unreviewed_walk_visits_burn stay n p = ground arith
unreviewed_walk_visits_burn (move {s = s} {t = t} w e) n p =
    ground (arith, past_burn_back s t e, visits_last w, unreviewed_walk_visits_burn w)

-- An operator's retry leads to the queue although no burn was confirmed.
pub reviewed_walk_skips_burn :
    (visited : List OutboundState) × OutboundWalk withdraw_request_created visited payout_queued
    × (includes_outbound visited burn_confirmed ≡ false)
unfolding can_transition_outbound
reviewed_walk_skips_burn =
    (_, move (move {t = manual_review} (move {t = failed} stay refl) refl) refl, refl)

-- A state is terminal exactly when it has no allowed successor.
pub is_outbound_terminal-iff_no_exit :
    (s : OutboundState) → (is_outbound_terminal s ≡ true) ↔ (valid_outbound_next_states s ≡ [])
unfolding is_outbound_terminal valid_outbound_next_states
is_outbound_terminal-iff_no_exit s = ground arith

retry_completes :
    {start : OutboundState} {visited : List OutboundState}
    → OutboundWalk start visited payout_queued
    → (visited' : List OutboundState) × OutboundWalk start visited' completed
unfolding can_transition_outbound
retry_completes w = (
  _,
  move
      (move {t = payout_confirmed}
        (move {t = payout_broadcast} (move {t = payout_signed} w refl) refl) refl)
      refl,
)

-- No withdrawal is ever lost: from every state it can still be completed.
outbound_can_complete :
    (s : OutboundState) → (visited : List OutboundState) × OutboundWalk s visited completed
unfolding can_transition_outbound
outbound_can_complete completed = (_, stay)
outbound_can_complete payout_confirmed = (_, move stay refl)
outbound_can_complete manual_review = retry_completes (move stay refl)
outbound_can_complete payout_queued = retry_completes stay
outbound_can_complete failed = retry_completes (move (move {t = manual_review} stay refl) refl)
outbound_can_complete s =
    retry_completes (move (move {t = manual_review} (move {t = failed} stay refl) refl) refl)
