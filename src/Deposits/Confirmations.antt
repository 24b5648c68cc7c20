-- ===== src/Deposits/Confirmations.antt =====
-- watcher/src/deposits/confirmation-tracker.ts: which state a number of confirmations calls for.
use wbob_bridge.Prelude.{ℕ, ◌&&◌, ◌||◌, Option, none, some, ltb, leb, ◌==◌, if◌then◌else◌}
use wbob_bridge.Shared.Inbound.{
  InboundState, deposit_address_assigned, deposit_seen_mempool, deposit_confirmed,
  deposit_finalized, same_inbound,
}

pub record ConfirmationConfig : Type 0 where
  pub min_confirmations : ℕ
  pub final_confirmations : ℕ

abbrev pub default_confirmation_config : ConfirmationConfig
default_confirmation_config = record { min_confirmations = 3; final_confirmations = 6 }

-- `none` is `{ transition: null }`.
unfoldable pub compute_confirmation_transition :
    InboundState → ℕ → ConfirmationConfig → Option InboundState
compute_confirmation_transition current confirmations config =
    let assigned = same_inbound current deposit_address_assigned in
    let seen = same_inbound current deposit_seen_mempool in
    let confirmed = same_inbound current deposit_confirmed in
    if confirmations == 0
    then (if assigned then some deposit_seen_mempool else none)
    else if leb config.final_confirmations confirmations
    then (if confirmed || (seen || assigned) then some deposit_finalized else none)
    else if leb config.min_confirmations confirmations
    then (if seen || assigned then some deposit_confirmed else none)
    else if assigned
    then some deposit_seen_mempool
    else none

unfoldable pub compute_reorg_rollback : InboundState → ℕ → ConfirmationConfig → Option InboundState
compute_reorg_rollback current new_confirmations config =
    if same_inbound current deposit_confirmed && ltb new_confirmations config.min_confirmations
    then some deposit_seen_mempool
    else none
