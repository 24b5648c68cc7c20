-- ===== src/Capacity.antt =====
-- backend/src/executor/mint-capacity.ts: how much of a deposit can be minted right now.
-- Amounts, heights and timestamps are the bigints of uint256 values, so they are not negative; where
-- the code subtracts and tests the sign, the difference is an integer.
pub mod Window
pub mod Split
pub mod Reservations
mod Examples
use wbob_bridge.Prelude.{
  ℕ, ◌+◌, ◌-◌, ◌*◌, ◌%◌, Bool, true, false, ◌||◌, not, Option, none, some, List, [], ◌∷◌, ltb, leb,
  ◌==◌, if◌then◌else◌,
}
use wbob_bridge.Prelude.Int.{ℤ, pos, negsuc, sub_ℕ, pos_part, ltb_ℤ}
use wbob_bridge.Prelude.Tables.{select_one, select_all}
use wbob_bridge.Prelude.Text.{Text, to_lower_case, has_text}
use wbob_bridge.Shared.Inbound.{InboundState, mint_auth_created, mint_submitted, same_inbound}
use wbob_bridge.Shared.Result.{Result, ok, err}

abbrev pub day_seconds : ℕ
day_seconds = 86400

pub record MintCapChainState : Type 0 where
  pub daily_mint_limit : ℕ
  pub current_day_minted : ℕ
  pub current_day_start : ℕ
  pub max_supply : ℕ
  pub total_supply : ℕ
  pub block_number : ℕ
  pub block_timestamp : ℕ

pub record MintCapWindow : Type 0 where
  pub limit_sat : ℕ
  pub minted_today_sat : ℕ
  pub remaining_today_sat : ℕ
  pub window_stale : Bool
  pub window_start_sec : ℕ
  pub resets_at_sec : ℕ

-- `maxSupply > totalSupply ? maxSupply - totalSupply : 0n`, and the like for the limit.
abbrev pub room_under : ℕ → ℕ → ℕ
room_under cap used = if ltb used cap then cap - used else 0

unfoldable pub compute_cap_window : MintCapChainState → ℕ → MintCapWindow
compute_cap_window state now_sec =
    let stale = leb (state.current_day_start + day_seconds) now_sec in
    let minted = if stale then 0 else state.current_day_minted in
    let start = if stale then now_sec - now_sec % day_seconds else state.current_day_start in
    let under_limit = room_under state.daily_mint_limit minted in
    let room = room_under state.max_supply state.total_supply in
    let remaining =
      if ltb 0 state.max_supply
      then (if ltb room under_limit then room else under_limit)
      else under_limit in
    record {
      limit_sat = state.daily_mint_limit;
      minted_today_sat = minted;
      remaining_today_sat = remaining;
      window_stale = stale;
      window_start_sec = start;
      resets_at_sec = start + day_seconds;
    }

-- `left > 0n ? left : 0n`.
unfoldable pub available_capacity : MintCapWindow → ℕ → ℕ
available_capacity window reserved_sat =
    let left = sub_ℕ window.remaining_today_sat reserved_sat in
    if ltb_ℤ (pos 0) left then pos_part left else 0

pub record DepositSplit : Type 0 where
  pub mint_sat : ℕ
  pub excess_sat : ℕ

-- `Error('splitDeposit: deposit must be positive, got …')`.
pub data SplitError : Type 0 where
  deposit_not_positive : ℕ → SplitError

unfoldable pub split_deposit : ℕ → ℕ → Result SplitError DepositSplit
split_deposit deposit_sat capacity_sat =
    if leb deposit_sat 0
    then err (deposit_not_positive deposit_sat)
    else let cap = if ltb 0 capacity_sat then capacity_sat else 0 in
      let mint = if ltb deposit_sat cap then deposit_sat else cap in
      ok (record { mint_sat = mint; excess_sat = deposit_sat - mint })

-- A row of mint_requests, with the columns that `outstandingReservedSat` selects.
pub record Reservation : Type 0 where
  pub order_id : ℕ
  pub amount_sat : ℕ
  pub gnosis_tx_hash : Option Text

-- `r.gnosisTxHash && minedByStateBlock.has(r.gnosisTxHash.toLowerCase())`: the empty string is falsy.
pub counted_in_state : List Text → Option Text → Bool
counted_in_state mined none = false
counted_in_state mined (some []) = false
counted_in_state mined (some (c ∷ h)) = has_text mined (to_lower_case (c ∷ h))

-- The loop of `sumOutstandingReservations` over its accumulator.
unfoldable pub sum_outstanding_from : ℕ → List Text → List Reservation → ℕ
sum_outstanding_from total mined [] = total
sum_outstanding_from total mined (r ∷ rs) =
    sum_outstanding_from
      (if counted_in_state mined r.gnosis_tx_hash then total else total + r.amount_sat) mined rs

unfoldable pub sum_outstanding_reservations : List Reservation → List Text → ℕ
unfolding sum_outstanding_from
sum_outstanding_reservations rs mined = sum_outstanding_from 0 mined rs

-- The loop that collects the mined hashes: `mined_at_or_before` is the chain reader.
pub add_mined : (Text → ℕ → Bool) → ℕ → Option Text → List Text → List Text
add_mined mined_at_or_before block none mined = mined
add_mined mined_at_or_before block (some []) mined = mined
add_mined mined_at_or_before block (some (c ∷ h)) mined =
    if mined_at_or_before (c ∷ h) block then to_lower_case (c ∷ h) ∷ mined else mined

pub mined_hashes : (Text → ℕ → Bool) → ℕ → List Reservation → List Text
mined_hashes mined_at_or_before block [] = []
mined_hashes mined_at_or_before block (r ∷ rs) =
    add_mined mined_at_or_before block r.gnosis_tx_hash (mined_hashes mined_at_or_before block rs)

-- `r.order_id !== excludeOrderId`.
abbrev pub is_other_order : Option ℕ → Reservation → Bool
is_other_order none r = true
is_other_order (some i) r = not (r.order_id == i)

-- The columns of bridge_orders that the query reads.
pub record MintOrder : Type 0 where
  pub id : ℕ
  pub state : InboundState

abbrev pub is_reserving_state : InboundState → Bool
is_reserving_state s = same_inbound s mint_auth_created || same_inbound s mint_submitted

-- JOIN bridge_orders bo ON bo.id = mr.order_id WHERE bo.state IN (…), for one mint request: `id` is
-- the primary key, so at most one order joins it.
abbrev pub is_reserving : List MintOrder → Reservation → Bool
is_reserving orders r = elim (select_one (λ (o : MintOrder). o.id == r.order_id) orders) [
  | none ↦ false
  | some o ↦ is_reserving_state o.state
]

unfoldable pub reserving_rows : List MintOrder → List Reservation → List Reservation
reserving_rows orders mint_requests = select_all (is_reserving orders) mint_requests

-- What follows the query, on its rows.
unfoldable pub outstanding_of_rows :
    (Text → ℕ → Bool) → List Reservation → MintCapChainState → Option ℕ → ℕ
unfolding sum_outstanding_reservations mined_hashes
outstanding_of_rows mined_at_or_before rows state excluded =
    let reservations = select_all (is_other_order excluded) rows in
    sum_outstanding_reservations reservations
      (mined_hashes mined_at_or_before state.block_number reservations)

unfoldable pub outstanding_reserved_sat :
    (Text → ℕ → Bool) → List MintOrder → List Reservation → MintCapChainState → Option ℕ → ℕ
unfolding reserving_rows outstanding_of_rows
outstanding_reserved_sat mined_at_or_before orders mint_requests state excluded =
    outstanding_of_rows mined_at_or_before (reserving_rows orders mint_requests) state excluded
