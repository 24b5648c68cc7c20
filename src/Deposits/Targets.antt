-- ===== src/Deposits/Targets.antt =====
-- The states that confirmations call for (watcher/src/deposits/confirmation-tracker.ts) against the
-- inbound graph and the path that block-handler.ts walks to them.
use wbob_bridge.Prelude.{
  ℕ, ◌≤◌, ◌<◌, ◌≡◌, Bool, true, false, ◌&&◌, ◌||◌, Option, none, some, List, [], ◌∷◌, arith,
}
use wbob_bridge.Shared.Inbound.{
  InboundState, inbound_code, deposit_seen_mempool, deposit_confirmed, deposit_finalized,
  same_inbound, includes_inbound, can_transition_inbound,
}
use wbob_bridge.Deposits.Confirmations.{
  ConfirmationConfig, compute_confirmation_transition, compute_reorg_rollback,
}
use wbob_bridge.Deposits.Advance.{path_to, path_of_rollback}

-- Every step of a path is an allowed edge.
abbrev pub is_legal : InboundState → List InboundState → Bool
is_legal from [] = true
is_legal from (to ∷ path) = can_transition_inbound from to && is_legal to path

-- The states from which pass B advances a deposit.
abbrev pub is_pending : InboundState → Bool
is_pending s = same_inbound s deposit_seen_mempool || same_inbound s deposit_confirmed

-- Whatever the confirmations, the path from a seen or confirmed deposit to its target is never
-- refused by the guard on transitions.
pub path_to_legal :
    (state : InboundState) (confs : ℕ) (config : ConfirmationConfig)
    → is_pending state ≡ true
    → is_legal state (path_to state (compute_confirmation_transition state confs config)) ≡ true
unfolding compute_confirmation_transition can_transition_inbound
path_to_legal state confs config h = ground arith

-- Finality is called for only at the configured number of confirmations.
pub path_to_finalized :
    (state : InboundState) (confs : ℕ) (config : ConfirmationConfig)
    → includes_inbound
        (path_to state (compute_confirmation_transition state confs config))
        deposit_finalized
      ≡ true
    → config.final_confirmations ≤ confs
unfolding compute_confirmation_transition
path_to_finalized state confs config h = ground arith

pub rollback_not_finalized :
    (state : InboundState) (confs : ℕ) (config : ConfirmationConfig)
    → includes_inbound
        (path_of_rollback (compute_reorg_rollback state confs config))
        deposit_finalized
      ≡ false
unfolding compute_reorg_rollback
rollback_not_finalized state confs config = ground arith

pub target_at_finality :
    (state : InboundState) (confs : ℕ) (config : ConfirmationConfig)
    → is_pending state ≡ true
    → 0 < confs
    → config.final_confirmations ≤ confs
    → compute_confirmation_transition state confs config ≡ some deposit_finalized
unfolding compute_confirmation_transition
target_at_finality state confs config h p le = ground arith

-- More confirmations never call for an earlier state.
abbrev pub deposit_rank : Option InboundState → InboundState → ℕ
deposit_rank none current = inbound_code current
deposit_rank (some target) current = inbound_code target

confirmations_monotone :
    (state : InboundState) (confs confs' : ℕ) (config : ConfirmationConfig)
    → confs ≤ confs'
    → config.min_confirmations ≤ config.final_confirmations
    → deposit_rank (compute_confirmation_transition state confs config) state
      ≤ deposit_rank (compute_confirmation_transition state confs' config) state
unfolding compute_confirmation_transition
confirmations_monotone state confs confs' config le order = ground arith
