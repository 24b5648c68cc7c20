-- ===== src/Shared/Inbound.antt =====
-- shared/src/states.ts and shared/src/state-machine/inbound.ts: a deposit on its way to a mint.
-- Enum members are strings that are only compared; `inbound_code` numbers them apart.
use wbob_bridge.Prelude.{ℕ, ◌≡◌, ◌↔◌, Bool, true, false, List, [], ◌∷◌, arith, ◌==◌, if◌then◌else◌}
use wbob_bridge.Shared.Result.{Result, ok, err}

pub data InboundState : Type 0 where
  quote_created deposit_address_assigned deposit_seen_mempool deposit_confirmed : InboundState
  deposit_finalized mint_auth_created mint_submitted mint_confirmed : InboundState
  completed failed refunded : InboundState

abbrev pub inbound_code : InboundState → ℕ
inbound_code quote_created = 0
inbound_code deposit_address_assigned = 1
inbound_code deposit_seen_mempool = 2
inbound_code deposit_confirmed = 3
inbound_code deposit_finalized = 4
inbound_code mint_auth_created = 5
inbound_code mint_submitted = 6
inbound_code mint_confirmed = 7
inbound_code completed = 8
inbound_code failed = 9
inbound_code refunded = 10

-- `===` on members.
abbrev pub same_inbound : InboundState → InboundState → Bool
same_inbound a b = inbound_code a == inbound_code b

-- `Array.includes` and `Set.has`.
abbrev pub includes_inbound : List InboundState → InboundState → Bool
includes_inbound [] s = false
includes_inbound (x ∷ xs) s = if same_inbound x s then true else includes_inbound xs s

abbrev pub inbound_terminal_states : List InboundState
inbound_terminal_states = completed ∷ refunded ∷ []

unfoldable pub inbound_transitions : InboundState → List InboundState
inbound_transitions quote_created = deposit_address_assigned ∷ failed ∷ []
inbound_transitions deposit_address_assigned = deposit_seen_mempool ∷ failed ∷ []
inbound_transitions deposit_seen_mempool = deposit_confirmed ∷ failed ∷ []
inbound_transitions deposit_confirmed = deposit_finalized ∷ deposit_seen_mempool ∷ failed ∷ []
inbound_transitions deposit_finalized = mint_auth_created ∷ refunded ∷ failed ∷ []
inbound_transitions mint_auth_created = mint_submitted ∷ failed ∷ []
inbound_transitions mint_submitted = mint_confirmed ∷ failed ∷ []
inbound_transitions mint_confirmed = completed ∷ []
inbound_transitions completed = []
inbound_transitions failed = refunded ∷ []
inbound_transitions refunded = []

unfoldable pub can_transition_inbound : InboundState → InboundState → Bool
unfolding inbound_transitions
can_transition_inbound from to = includes_inbound (inbound_transitions from) to

unfoldable pub valid_next_states : InboundState → List InboundState
unfolding inbound_transitions
valid_next_states state = inbound_transitions state

unfoldable pub is_inbound_terminal : InboundState → Bool
is_inbound_terminal state = includes_inbound inbound_terminal_states state

pub record InboundTransitionError : Type 0 where
  pub from : InboundState
  pub to : InboundState

unfoldable pub assert_inbound_transition :
    InboundState → InboundState → Result InboundTransitionError (Unit {0})
assert_inbound_transition from to =
    if can_transition_inbound from to then ok tt else err (record { from = from; to = to })

pub inbound_code-injective : (a b : InboundState) → inbound_code a ≡ inbound_code b → a ≡ b
inbound_code-injective a b h = ground arith

pub same_inbound_iff : (a b : InboundState) → (same_inbound a b ≡ true) ↔ (a ≡ b)
same_inbound_iff a b = ground (arith, inbound_code-injective a b)
