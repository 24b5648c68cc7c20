-- ===== src/Gnosis/Examples.antt =====
-- Runs and instances for the Gnosis side.
use wbob_bridge.Prelude.{
  ℕ, ◌+◌, ◌≡◌, refl, sym, subst, Bool, true, false, ◌&&◌, none, some, List, [], ◌∷◌, ◌==◌, leb,
  if◌then◌else◌, All, Bool-cases, inl, inr, arith,
}
use wbob_bridge.Prelude.Text.{
  Text, codes, contains, contains_any, to_lower_case, text_eq, starts_with,
}
use wbob_bridge.Prelude.Tables.{select_all}
use wbob_bridge.Shared.Result.{Result, ok}
use wbob_bridge.Gnosis.EventWatcher.{
  EventLog, WatchDb, WatchWrite, creating, saving, halting, clearing, create_withdrawal_order,
  insert_log, sort_logs, ingest_logs, halt_at, scan_windows, process_new_withdrawals,
}
use wbob_bridge.Gnosis.Watermark.{Listed}
use wbob_bridge.Gnosis.Scan.{IsHonest, IsBetween, Covers, process_new_withdrawals-Covers}
use wbob_bridge.Gnosis.Recount.{RecountState, ingest_missing, recount_windows, recount}
use wbob_bridge.Gnosis.RecountLaws.{Recounted, recount-Recounted}
use wbob_bridge.Gnosis.Reach.{process_new_withdrawals_reach}
use wbob_bridge.Gnosis.Destination.{
  all_printable, is_plausible, sanitize_dobbscoin_destination, is_unpayable_destination, to_decimal,
  digits_from, to_hex, utf8, utf8_char,
}
use wbob_bridge.Gnosis.DestinationLaws.{sanitize_storable}
use wbob_bridge.Gnosis.BurnVerifier.{
  BurnClaim, BurnRead, Receipt, WithdrawalEvent, backed, refused, deferred, found, failed_read,
  no_burn_tx_hash, no_such_tx, node_unreachable, amount_differs, is_burn_tx_hash, says_no_such_tx,
  matching_events, compare_event, check_events, check_read, verify_burn,
}
use wbob_bridge.Gnosis.Backing.{IsBacked, verify_burn-IsBacked}

-- A space is kept only as hex.
space_is_marked :
    (sanitize_dobbscoin_destination (some (codes "a b"))).value ≡ codes "INVALID:612062"
unfolding sanitize_dobbscoin_destination is_plausible starts_with to_hex utf8 utf8_char
space_is_marked = refl

twelve : to_decimal 12 ≡ codes "12"
unfolding to_decimal digits_from
twelve = refl

sanitize_storable_example :
    (all_printable (sanitize_dobbscoin_destination (some (codes "a b"))).value ≡ true)
    × (is_unpayable_destination (sanitize_dobbscoin_destination (some (codes "a b"))).value
        ≡ (sanitize_dobbscoin_destination (some (codes "a b"))).invalid)
sanitize_storable_example = sanitize_storable (some (codes "a b"))

abbrev burn : WithdrawalEvent
burn = record { withdrawal_id = 4; sender = 60; amount = 5000; dobbscoin_address = codes "8abc" }

abbrev receipt : Receipt
receipt = record {
  success = true;
  block_number = 100;
  logs =
      record { address = 8; event = some burn }
      ∷ record { address = 9; event = none }
      ∷ record { address = 9; event = some burn }
      ∷ [];
}

abbrev burn_hash : Text
burn_hash = codes "0x00000000000000000000000000000000000000000000000000000000000000aB"

-- Gnosis at height 111, with one burn.
abbrev gnosis : Text → BurnRead
gnosis hash =
    if text_eq hash burn_hash then found receipt 111 else failed_read (codes "Receipt Not Found")

abbrev claim : BurnClaim
claim = record {
  withdrawal_id = 4;
  burn_tx_hash = some burn_hash;
  sender_address = 60;
  amount_sat = 5000;
  dobbscoin_address = codes "8abc";
}

claim_is_backed : verify_burn gnosis 9 12 claim ≡ backed
unfolding verify_burn is_burn_tx_hash check_read check_events matching_events compare_event
    sanitize_dobbscoin_destination is_plausible starts_with text_eq
claim_is_backed = refl

larger_claim_is_refused :
    verify_burn gnosis 9 12 (record claim { amount_sat = 5001 }) ≡ refused amount_differs
unfolding verify_burn is_burn_tx_hash check_read check_events matching_events compare_event text_eq
larger_claim_is_refused = refl

short_hash_is_refused :
    verify_burn gnosis 9 12 (record claim { burn_tx_hash = some (codes "0xab") })
    ≡ refused no_burn_tx_hash
unfolding verify_burn is_burn_tx_hash
short_hash_is_refused = refl

unknown_hash_is_refused :
    check_read gnosis 9 12 claim (failed_read (codes "Receipt Not Found")) ≡ refused no_such_tx
unfolding check_read says_no_such_tx contains_any contains starts_with to_lower_case
unknown_hash_is_refused = refl

host_not_found_is_deferred :
    check_read gnosis 9 12 claim (failed_read (codes "fetch failed: host not found"))
    ≡ deferred node_unreachable
unfolding check_read says_no_such_tx contains_any contains starts_with to_lower_case
host_not_found_is_deferred = refl

verify_burn-IsBacked_example : IsBacked gnosis 9 12 claim
verify_burn-IsBacked_example = verify_burn-IsBacked gnosis 9 12 claim claim_is_backed

abbrev works : WatchWrite → ℕ → Bool
works write id = false

-- Withdrawal 5 cannot be stored.
abbrev stuck : WatchWrite → ℕ → Bool
stuck creating id = id == 5
stuck saving id = false
stuck halting id = false
stuck clearing id = false

abbrev burn_log : ℕ → ℕ → EventLog
burn_log block id = record {
  block_number = block;
  log_index = 0;
  transaction_hash = 70 + id;
  withdrawal_id = id;
  sender = 60;
  amount = 5000;
  dobbscoin_address = codes "8abc";
  nonce = 1;
}

-- Two burns, in blocks 3 and 6.
abbrev two_burns : List EventLog
two_burns = burn_log 3 4 ∷ burn_log 6 5 ∷ []

abbrev in_window : ℕ → ℕ → EventLog → Bool
in_window from to e = leb from e.block_number && leb e.block_number to

abbrev logs_of : ℕ → ℕ → List EventLog
logs_of from to = select_all (in_window from to) two_burns

abbrev node_logs : ℕ → ℕ → Result ℕ (List EventLog)
node_logs from to = ok (logs_of from to)

abbrev new_watch : WatchDb
new_watch = record {
  bridge_orders = [];
  withdrawal_requests = [];
  audit_events = [];
  gnosis_last_block = 0;
  scan_halt = none;
  next_order_id = 1;
}

-- The scan halts before block 6, with the burn of block 3 recorded.
scan_halts_below_the_stuck_burn :
    (process_new_withdrawals node_logs 4 stuck 10 2 new_watch).0.gnosis_last_block ≡ 5
unfolding process_new_withdrawals scan_windows ingest_logs create_withdrawal_order sort_logs
    insert_log halt_at
scan_halts_below_the_stuck_burn = refl

node_logs-IsHonest : IsHonest node_logs two_burns
node_logs-IsHonest = record {
  complete = λ from to logs answer e listed between.
      subst (Listed e) (same answer) (selected two_burns from to e listed between);
  in_range = λ from to logs answer.
      subst (All (IsBetween from to)) (same answer) (ranged two_burns from to);
}
  where
    same : {a b : List EventLog} → ◌≡◌ {A = Result ℕ (List EventLog)} (ok a) (ok b) → a ≡ b
    same e = cc

    selected :
        (es : List EventLog) (from to : ℕ) (e : EventLog)
        → Listed e es
        → IsBetween from to e
        → Listed e (select_all (in_window from to) es)
    selected [] from to e listed between = absurd listed
    selected (x ∷ es) from to e (inl is_x) between = elim (Bool-cases (in_window from to x)) [
      | inl here ↦ rw here (inl is_x)
      | inr out ↦ absurd (outside (subst (IsBetween from to) (sym is_x) between) out)
    ]
      where
        outside : IsBetween from to x → in_window from to x ≡ false → ⊥
        outside b o = ground (arith, b.0, b.1)
    selected (x ∷ es) from to e (inr more) between = elim (Bool-cases (in_window from to x)) [
      | inl here ↦ rw here (inr (selected es from to e more between))
      | inr out ↦ rw out (selected es from to e more between)
    ]

    ranged :
        (es : List EventLog) (from to : ℕ)
        → All (IsBetween from to) (select_all (in_window from to) es)
    ranged [] from to = tt
    ranged (x ∷ es) from to = elim (Bool-cases (in_window from to x)) [
      | inl here ↦ rw here ((ground arith, ground arith), ranged es from to)
      | inr out ↦ rw out (ranged es from to)
    ]

nothing_below : Covers two_burns new_watch
nothing_below e (inl is_x) less = absurd (ground arith)
nothing_below e (inr (inl is_x)) less = absurd (ground arith)
nothing_below e (inr (inr none_left)) less = absurd none_left

process_new_withdrawals-Covers_example :
    Covers two_burns (process_new_withdrawals node_logs 4 stuck 10 2 new_watch).0
process_new_withdrawals-Covers_example =
    process_new_withdrawals-Covers node_logs two_burns node_logs-IsHonest 4 stuck 10 2 new_watch
      nothing_below

process_new_withdrawals_reach_example :
    ((process_new_withdrawals node_logs 4 works 10 2 new_watch).1 ≡ true)
    × ((process_new_withdrawals node_logs 4 works 10 2 new_watch).0.gnosis_last_block ≡ 8)
process_new_withdrawals_reach_example =
    process_new_withdrawals_reach works (λ write id. refl) ℕ logs_of 4 (omega arith) 10 2 new_watch
      (omega arith)

-- A database whose watermark was moved past the burns.
abbrev moved : RecountState
moved = record { db = record new_watch { gnosis_last_block = 8 }; recount_cursor = none }

both_are_found : (recount node_logs 4 1 works 10 2 moved).0.db.next_order_id ≡ 3
unfolding recount recount_windows ingest_missing create_withdrawal_order
both_are_found = refl

recount-Recounted_example :
    Recounted works
      (λ write id. refl)
      ℕ
      logs_of
      4
      1
      (omega arith)
      two_burns
      1
      8
      moved
      (recount node_logs 4 1 works 10 2 moved)
recount-Recounted_example =
    recount-Recounted works (λ write id. refl) ℕ logs_of 4 1 (omega arith) two_burns
      node_logs-IsHonest 10 2 moved (omega arith)
