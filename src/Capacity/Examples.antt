-- ===== src/Capacity/Examples.antt =====
-- Runs and instances for the mint capacity.
use wbob_bridge.Prelude.{
  ℕ, ◌+◌, ◌≤◌, ◌<◌, ◌≡◌, refl, ◌↔◌, ◌⊎◌, Bool, true, ◌&&◌, ◌||◌, none, some, List, [], ◌∷◌, arith,
  leb, ◌==◌, ◌%◌,
}
use wbob_bridge.Prelude.Text.{Text}
use wbob_bridge.Shared.Inbound.{mint_auth_created, mint_submitted, failed}
use wbob_bridge.Capacity.{
  MintOrder, MintCapChainState, Reservation, day_seconds, compute_cap_window, available_capacity,
  split_deposit, outstanding_reserved_sat,
}
use wbob_bridge.Capacity.Window
use wbob_bridge.Capacity.Window.{
  MintAllowed, window_contains_now, stale_window_starts_at_midnight, remaining_is_exact,
}
use wbob_bridge.Capacity.Split.{
  SplitOutcome, split_deposit-SplitOutcome, minted_fits_beside_reserved,
}
use wbob_bridge.Capacity.Reservations.{reserved_sum, outstanding-eq-reserved_sum}

-- A limit of 1000 with 400 minted on the day that began at 86400; the supply is capped at 5000.
abbrev state : MintCapChainState
state = record {
  daily_mint_limit = 1000;
  current_day_minted = 400;
  current_day_start = 86400;
  max_supply = 5000;
  total_supply = 4500;
  block_number = 77;
  block_timestamp = 90000;
}

remaining_at_noon : (compute_cap_window state 90000).remaining_today_sat ≡ 500
unfolding compute_cap_window
remaining_at_noon = refl

window_contains_now_example :
    let w = compute_cap_window state 200000 in
    (w.window_start_sec ≤ 200000)
    × (200000 < w.resets_at_sec)
    × (w.resets_at_sec ≤ 200000 + day_seconds)
window_contains_now_example = window_contains_now state 200000 (omega arith)

stale_window_starts_at_midnight_example :
    (compute_cap_window state 200000).window_start_sec % day_seconds ≡ 0
unfolding compute_cap_window
stale_window_starts_at_midnight_example = stale_window_starts_at_midnight state 200000 refl

-- A contract that does what is documented.
abbrev contract : MintCapChainState → ℕ → ℕ → Bool
contract s now amount =
    leb (amount + Window.minted_by_clock s now) s.daily_mint_limit
    && (s.max_supply == 0 || leb (amount + s.total_supply) s.max_supply)

contract_documented :
    (s : MintCapChainState) (now amount : ℕ)
    → (contract s now amount ≡ true) ↔ MintAllowed s now amount
contract_documented s now amount = ground arith

remaining_is_exact_example :
    (contract state 90000 500 ≡ true) ↔ (500 ≤ (compute_cap_window state 90000).remaining_today_sat)
remaining_is_exact_example =
    remaining_is_exact contract contract_documented state 90000 500 (omega arith)

split_deposit-SplitOutcome_example : SplitOutcome 900 500 (split_deposit 900 500)
split_deposit-SplitOutcome_example = split_deposit-SplitOutcome 900 500

minted_fits_beside_reserved_example :
    (◌≡◌ {A = ℕ} 300 0) ⊎ (300 + 200 ≤ (compute_cap_window state 90000).remaining_today_sat)
unfolding split_deposit available_capacity compute_cap_window
minted_fits_beside_reserved_example =
    minted_fits_beside_reserved (compute_cap_window state 90000) 900 200
      {d = record { mint_sat = 300; excess_sat = 600 }} refl

-- Two open reservations, one of which the chain shows already.
abbrev rows : List Reservation
rows =
    record { order_id = 1; amount_sat = 30; gnosis_tx_hash = some (65 ∷ []) }
    ∷ record { order_id = 2; amount_sat = 40; gnosis_tx_hash = none }
    ∷ record { order_id = 3; amount_sat = 50; gnosis_tx_hash = none }
    ∷ []

-- The third order has failed.
abbrev orders : List MintOrder
orders =
    record { id = 1; state = mint_submitted }
    ∷ record { id = 2; state = mint_auth_created }
    ∷ record { id = 3; state = failed }
    ∷ []

abbrev reader : Text → ℕ → Bool
reader hash block = true

outstanding-eq-reserved_sum_example :
    outstanding_reserved_sat reader orders rows state none ≡ reserved_sum reader 77 none orders rows
outstanding-eq-reserved_sum_example =
    outstanding-eq-reserved_sum reader (λ g h block e. refl) orders rows state none

outstanding_counts_what_is_not_mined : outstanding_reserved_sat reader orders rows state none ≡ 40
unfolding outstanding_reserved_sat
outstanding_counts_what_is_not_mined = outstanding-eq-reserved_sum_example
