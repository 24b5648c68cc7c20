-- ===== src/Shared/Examples.antt =====
-- Runs and instances for the shared package.
use wbob_bridge.Prelude.{◌≡◌, refl, true, [], ◌∷◌, arith}
use wbob_bridge.Shared.Result.{err}
use wbob_bridge.Shared.Inbound.{
  deposit_seen_mempool, deposit_finalized, can_transition_inbound, assert_inbound_transition,
}
use wbob_bridge.Shared.Outbound.{
  withdraw_request_created, burn_tx_seen, burn_confirmed, payout_queued, payout_signed,
  includes_outbound, can_transition_outbound,
}
use wbob_bridge.Shared.OutboundPaths
use wbob_bridge.Shared.OutboundPaths.{OutboundWalk, walk_visits_payout_stages}

skip_is_refused :
    assert_inbound_transition deposit_seen_mempool deposit_finalized
    ≡ err (record { from = deposit_seen_mempool; to = deposit_finalized })
unfolding assert_inbound_transition can_transition_inbound
skip_is_refused = refl

signed_walk :
    OutboundWalk withdraw_request_created
      (payout_signed ∷ payout_queued ∷ burn_confirmed ∷ burn_tx_seen ∷ withdraw_request_created
        ∷ [])
      payout_signed
unfolding can_transition_outbound
signed_walk =
    OutboundPaths.move
      (OutboundPaths.move (OutboundPaths.move (OutboundPaths.move OutboundPaths.stay refl) refl)
        refl)
      refl

walk_visits_payout_stages_example :
    includes_outbound
      (payout_signed ∷ payout_queued ∷ burn_confirmed ∷ burn_tx_seen ∷ withdraw_request_created
        ∷ [])
      payout_queued
    ≡ true
walk_visits_payout_stages_example =
    walk_visits_payout_stages payout_queued signed_walk (omega arith) (omega arith)
