-- ===== src/Capacity/Split.antt =====
-- Splitting a deposit into what is minted and what goes back
-- (backend/src/executor/mint-capacity.ts, `availableCapacity` and `splitDeposit`).
use wbob_bridge.Prelude.{ℕ, zero, suc, ◌+◌, ◌≤◌, ◌<◌, ◌≡◌, ◌⊎◌, arith}
use wbob_bridge.Shared.Result.{Result, ok, err}
use wbob_bridge.Capacity.{
  MintCapWindow, DepositSplit, available_capacity, split_deposit, SplitError, deposit_not_positive,
}

-- What a call of `split_deposit` promises, by how it ended.
abbrev pub SplitOutcome : ℕ → ℕ → Result SplitError DepositSplit → Type 0
SplitOutcome deposit capacity (ok d) =
    (d.mint_sat + d.excess_sat ≡ deposit)
    × (d.mint_sat ≤ capacity)
    × ((d.excess_sat ≡ 0) ⊎ (d.mint_sat ≡ capacity))
    × (0 < deposit)
SplitOutcome deposit capacity (err e) = (deposit ≡ 0) × (e ≡ deposit_not_positive deposit)

-- A split loses nothing, mints no more than the capacity, and refunds only when the capacity is used
-- up; it throws exactly on a deposit of nothing.
pub split_deposit-SplitOutcome :
    (deposit capacity : ℕ) → SplitOutcome deposit capacity (split_deposit deposit capacity)
unfolding split_deposit
split_deposit-SplitOutcome zero capacity = ground arith
split_deposit-SplitOutcome (suc d) capacity = ground arith

-- What a new deposit mints fits beside everything that is already reserved.
pub minted_fits_beside_reserved :
    (w : MintCapWindow) (deposit reserved : ℕ) {d : DepositSplit}
    → split_deposit deposit (available_capacity w reserved) ≡ ok d
    → (d.mint_sat ≡ 0) ⊎ (d.mint_sat + reserved ≤ w.remaining_today_sat)
unfolding split_deposit available_capacity
minted_fits_beside_reserved w deposit reserved h = ground arith
