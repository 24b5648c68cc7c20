-- ===== src/Capacity/Window.antt =====
-- The window of the daily cap (backend/src/executor/mint-capacity.ts, `computeCapWindow`).
use wbob_bridge.Prelude.{
  ℕ, ◌+◌, ◌%◌, ◌≤◌, ◌<◌, ◌≡◌, ◌↔◌, ◌⊎◌, Bool, true, arith, leb, if◌then◌else◌,
}
use wbob_bridge.Capacity.{MintCapChainState, day_seconds, compute_cap_window}

-- The window that is shown contains the moment that it is shown for, and ends within a day of it.
pub window_contains_now :
    (state : MintCapChainState) (now : ℕ)
    → state.current_day_start ≤ now
    → let w = compute_cap_window state now in
      (w.window_start_sec ≤ now) × (now < w.resets_at_sec) × (w.resets_at_sec ≤ now + day_seconds)
unfolding compute_cap_window
window_contains_now state now h = ground arith

-- Once a window has expired the next one starts at midnight UTC.
pub stale_window_starts_at_midnight :
    (state : MintCapChainState) (now : ℕ)
    → let w = compute_cap_window state now in
      w.window_stale ≡ true → w.window_start_sec % day_seconds ≡ 0
unfolding compute_cap_window
stale_window_starts_at_midnight state now h = ground arith

-- What WBob._checkAndUpdateDailyLimit and WBob.mint do, as the head of the source file documents it:
-- the amount fits under the day's limit, after the reset of an expired day, and under MAX_SUPPLY.
abbrev pub minted_by_clock : MintCapChainState → ℕ → ℕ
minted_by_clock s now =
    if leb (s.current_day_start + day_seconds) now then 0 else s.current_day_minted

abbrev pub MintAllowed : MintCapChainState → ℕ → ℕ → Type 0
MintAllowed s now amount =
    (amount + minted_by_clock s now ≤ s.daily_mint_limit)
    × ((s.max_supply ≡ 0) ⊎ (amount + s.total_supply ≤ s.max_supply))

fits_supply :
    (s : MintCapChainState) (now amount : ℕ)
    → 0 < amount
    → amount ≤ (compute_cap_window s now).remaining_today_sat
    → (s.max_supply ≡ 0) ⊎ (amount + s.total_supply ≤ s.max_supply)
unfolding compute_cap_window
fits_supply s now amount p le = ground arith

fits_limit :
    (s : MintCapChainState) (now amount : ℕ)
    → 0 < amount
    → amount ≤ (compute_cap_window s now).remaining_today_sat
    → amount + minted_by_clock s now ≤ s.daily_mint_limit
unfolding compute_cap_window
fits_limit s now amount p le = ground arith

-- `accepts` is the contract: whether a mint of that amount goes through at that block time.
module _ (accepts : MintCapChainState → ℕ → ℕ → Bool)
    (documented : (s : MintCapChainState) (now amount : ℕ)
      → (accepts s now amount ≡ true) ↔ MintAllowed s now amount) where
  -- A positive amount is accepted by the contract exactly when it is at most `remainingTodaySat`.
  pub remaining_is_exact :
      (s : MintCapChainState) (now amount : ℕ)
      → 0 < amount
      → (accepts s now amount ≡ true) ↔ (amount ≤ (compute_cap_window s now).remaining_today_sat)
  unfolding compute_cap_window
  remaining_is_exact s now amount p = (
    (λ h. ground (arith, (documented s now amount).0 h)),
    (λ le.
        (documented s now amount).1 (fits_limit s now amount p le, fits_supply s now amount p le)),
  )
