-- ===== src/Monitor/Examples.antt =====
-- Runs and instances for the solvency monitor.
use wbob_bridge.Prelude.{◌≡◌, refl, none, some, [], ◌∷◌}
use wbob_bridge.Monitor.{
  check_stuck_orders, check_manual_review, check_drip_wallet_balance, check_scan_halt,
  drip_wallet_low,
}

drip_runs_low : check_drip_wallet_balance 7 50 10 100 ≡ drip_wallet_low 7 50 100 ∷ []
unfolding check_drip_wallet_balance
drip_runs_low = refl

late_order_is_stuck :
    check_stuck_orders
      (record { id = 1; updated_at = 10 } ∷ record { id = 2; updated_at = 95 } ∷ [])
      30
      100
    ≡ 1 ∷ []
unfolding check_stuck_orders
late_order_is_stuck = refl

short_halt_is_silent : check_scan_halt (some 5) 2 3 none ≡ []
unfolding check_scan_halt
short_halt_is_silent = refl

no_review_is_silent : check_manual_review 0 [] ≡ []
unfolding check_manual_review
no_review_is_silent = refl
