-- ===== src/Shared/Outbound.antt =====
-- shared/src/states.ts and shared/src/state-machine/outbound.ts: a burn on its way to a payout.
use wbob_bridge.Prelude.{ℕ, ◌≡◌, Bool, true, false, List, [], ◌∷◌, arith, ◌==◌, if◌then◌else◌}
use wbob_bridge.Shared.Result.{Result, ok, err}

pub data OutboundState : Type 0 where
  withdraw_request_created burn_tx_seen burn_confirmed payout_queued : OutboundState
  payout_signed payout_broadcast payout_confirmed : OutboundState
  completed failed manual_review : OutboundState

abbrev pub outbound_code : OutboundState → ℕ
outbound_code withdraw_request_created = 0
outbound_code burn_tx_seen = 1
outbound_code burn_confirmed = 2
outbound_code payout_queued = 3
outbound_code payout_signed = 4
outbound_code payout_broadcast = 5
outbound_code payout_confirmed = 6
outbound_code completed = 7
outbound_code failed = 8
outbound_code manual_review = 9

abbrev pub same_outbound : OutboundState → OutboundState → Bool
same_outbound a b = outbound_code a == outbound_code b

abbrev pub includes_outbound : List OutboundState → OutboundState → Bool
includes_outbound [] s = false
includes_outbound (x ∷ xs) s = if same_outbound x s then true else includes_outbound xs s

abbrev pub outbound_terminal_states : List OutboundState
outbound_terminal_states = completed ∷ []

unfoldable pub outbound_transitions : OutboundState → List OutboundState
outbound_transitions withdraw_request_created = burn_tx_seen ∷ failed ∷ []
outbound_transitions burn_tx_seen = burn_confirmed ∷ failed ∷ []
outbound_transitions burn_confirmed = payout_queued ∷ failed ∷ []
outbound_transitions payout_queued = payout_signed ∷ failed ∷ manual_review ∷ []
outbound_transitions payout_signed = payout_broadcast ∷ failed ∷ manual_review ∷ []
outbound_transitions payout_broadcast = payout_confirmed ∷ failed ∷ manual_review ∷ []
outbound_transitions payout_confirmed = completed ∷ []
outbound_transitions completed = []
outbound_transitions failed = manual_review ∷ []
outbound_transitions manual_review = payout_queued ∷ failed ∷ []

unfoldable pub can_transition_outbound : OutboundState → OutboundState → Bool
unfolding outbound_transitions
can_transition_outbound from to = includes_outbound (outbound_transitions from) to

unfoldable pub valid_outbound_next_states : OutboundState → List OutboundState
unfolding outbound_transitions
valid_outbound_next_states state = outbound_transitions state

unfoldable pub is_outbound_terminal : OutboundState → Bool
is_outbound_terminal state = includes_outbound outbound_terminal_states state

pub record OutboundTransitionError : Type 0 where
  pub from : OutboundState
  pub to : OutboundState

unfoldable pub assert_outbound_transition :
    OutboundState → OutboundState → Result OutboundTransitionError (Unit {0})
assert_outbound_transition from to =
    if can_transition_outbound from to then ok tt else err (record { from = from; to = to })

pub outbound_code-injective : (a b : OutboundState) → outbound_code a ≡ outbound_code b → a ≡ b
outbound_code-injective a b h = ground arith
