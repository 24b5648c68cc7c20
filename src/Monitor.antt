-- ===== src/Monitor.antt =====
-- backend/src/monitor/checks.ts: the decisions of the solvency monitor. An alert carries the numbers
-- of its data; its text, its timestamp and the coverage ratio, a floating-point number, are left out.
use wbob_bridge.Prelude.{
  ℕ, ◌+◌, ◌-◌, ◌≡◌, refl, Bool, true, false, ◌&&◌, not, Option, none, some, List, [], ◌∷◌, ◌++◌,
  map, arith, ltb, leb, ◌==◌, if◌then◌else◌,
}
use wbob_bridge.Prelude.Int.{ℤ, sub_ℕ, ltb_ℤ, pos}
use wbob_bridge.Prelude.Tables.{select_all, any_row}
mod Examples

pub record SolvencyResult : Type 0 where
  pub is_solvent : Bool
  pub deficit_sat : ℕ

pub record SolvencySnapshot : Type 0 where
  pub wbob_supply_sat : ℕ
  pub utxo_pool_sat : ℕ
  pub cumulative_fees_paid_sat : ℕ
  pub is_solvent : Bool
  pub stuck_order_count : ℕ

pub record WatchedOrder : Type 0 where
  pub id : ℕ
  pub updated_at : ℕ

pub data AlertLevel : Type 0 where
  critical warning info : AlertLevel

pub data Alert : Type 0 where
  solvency_breach : ℕ → ℕ → ℕ → ℕ → ℤ → Alert
  solvency_recovered : ℕ → ℕ → ℕ → ℕ → Alert
  low_utxo_pool : ℕ → ℕ → Alert
  stuck_orders : ℕ → Alert
  manual_review_orders : ℕ → List ℕ → Alert
  drip_wallet_dry : ℕ → ℕ → ℕ → Alert
  drip_wallet_low : ℕ → ℕ → ℕ → Alert
  gnosis_scan_halted : ℕ → ℕ → ℕ → Option ℕ → Alert

abbrev pub level_of : Alert → AlertLevel
level_of (solvency_breach _ _ _ _ _) = critical
level_of (solvency_recovered _ _ _ _) = info
level_of (low_utxo_pool _ _) = warning
level_of (stuck_orders _) = warning
level_of (manual_review_orders _ _) = warning
level_of (drip_wallet_dry _ _ _) = critical
level_of (drip_wallet_low _ _ _) = warning
level_of (gnosis_scan_halted _ _ _ _) = critical

unfoldable pub check_solvency : ℕ → ℕ → ℕ → SolvencyResult
check_solvency supply pool fees =
    let effective = pool + fees in
    let solvent = leb supply effective in
    record { is_solvent = solvent; deficit_sat = if solvent then 0 else supply - effective }

-- `nowMs - updatedAt > stuckThresholdMs`, on integers: a clock that runs back is never stuck.
unfoldable pub check_stuck_orders : List WatchedOrder → ℕ → ℕ → List ℕ
check_stuck_orders orders threshold now =
    map (λ (o : WatchedOrder). o.id)
      (select_all (λ (o : WatchedOrder). ltb_ℤ (pos threshold) (sub_ℕ now o.updated_at)) orders)

abbrev pub solvency_alerts : SolvencySnapshot → Option Bool → List Alert
solvency_alerts s previously =
    let effective = s.utxo_pool_sat + s.cumulative_fees_paid_sat in
    if not s.is_solvent
    then solvency_breach s.wbob_supply_sat s.utxo_pool_sat s.cumulative_fees_paid_sat effective
        (sub_ℕ s.wbob_supply_sat effective)
      ∷ []
    else elim previously [
      | none ↦ []
      | some true ↦ []
      | some false ↦
          solvency_recovered s.utxo_pool_sat s.cumulative_fees_paid_sat effective s.wbob_supply_sat
          ∷ []
    ]

abbrev pub pool_alerts : SolvencySnapshot → ℕ → List Alert
pool_alerts s low = if ltb s.utxo_pool_sat low then low_utxo_pool s.utxo_pool_sat low ∷ [] else []

abbrev pub stuck_alerts : SolvencySnapshot → List Alert
stuck_alerts s = if ltb 0 s.stuck_order_count then stuck_orders s.stuck_order_count ∷ [] else []

unfoldable pub build_alerts : SolvencySnapshot → Option Bool → ℕ → List Alert
build_alerts s previously low =
    solvency_alerts s previously ++ (pool_alerts s low ++ stuck_alerts s)

unfoldable pub check_manual_review : ℕ → List ℕ → List Alert
check_manual_review count newest =
    if leb count 0 then [] else manual_review_orders count newest ∷ []

unfoldable pub check_drip_wallet_balance : ℕ → ℕ → ℕ → ℕ → List Alert
check_drip_wallet_balance wallet balance drip low_water_mark =
    if ltb balance drip
    then drip_wallet_dry wallet balance drip ∷ []
    else if ltb balance low_water_mark
    then drip_wallet_low wallet balance low_water_mark ∷ []
    else []

-- `none` is a null or empty halt block.
unfoldable pub check_scan_halt : Option ℕ → ℕ → ℕ → Option ℕ → List Alert
check_scan_halt none halt_count threshold failing = []
check_scan_halt (some block) halt_count threshold failing =
    if ltb halt_count threshold
    then []
    else gnosis_scan_halted block halt_count threshold failing ∷ []

abbrev pub is_critical : Alert → Bool
is_critical a = elim (level_of a) [ critical ↦ true | warning ↦ false | info ↦ false ]

abbrev pub is_recovery : Alert → Bool
is_recovery (solvency_recovered _ _ _ _) = true
is_recovery _ = false

-- The deficit is what is missing: topped up by some coins, the pool is solvent exactly when they are
-- at least the deficit that was reported.
deficit_is_exact :
    (supply pool fees more : ℕ)
    → (check_solvency supply (pool + more) fees).is_solvent
      ≡ leb (check_solvency supply pool fees).deficit_sat more
unfolding check_solvency
deficit_is_exact supply pool fees more = ground arith

-- Whatever came before, a snapshot raises a critical alert exactly when it is not solvent.
build_alerts_critical :
    (s : SolvencySnapshot) (previously : Option Bool) (low : ℕ)
    → any_row is_critical (build_alerts s previously low) ≡ not s.is_solvent
unfolding build_alerts
build_alerts_critical s previously low = ground arith

-- Of two snapshots in a row, the second reports a recovery exactly when it is solvent and the first
-- was not.
build_alerts_recovery :
    (before s : SolvencySnapshot) (low : ℕ)
    → any_row is_recovery (build_alerts s (some before.is_solvent) low)
      ≡ (s.is_solvent && not before.is_solvent)
unfolding build_alerts
build_alerts_recovery before s low = ground arith
