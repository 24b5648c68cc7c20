-- ===== src/Gnosis/Reach.antt =====
-- A scan that nothing disturbs (backend/src/gnosis/event-watcher.ts).
use wbob_bridge.Prelude.{
  ℕ, zero, suc, ◌+◌, ◌-◌, ◌≤◌, ◌<◌, ◌≡◌, refl, Bool, true, false, none, List, [], ◌∷◌, ltb, min,
  Bool-cases, inl, inr, arith,
}
use wbob_bridge.Prelude.Tables.{any_row}
use wbob_bridge.Shared.Result.{Result, ok}
use wbob_bridge.Gnosis.EventWatcher.{
  EventLog, WatchDb, WatchWrite, creating, saving, clearing, requests_withdrawal,
  create_withdrawal_order, sort_logs, ingest_logs, set_last_block, clear_scan_halt, window_end,
  scan_windows, process_new_withdrawals,
}

module _ (fails : WatchWrite → ℕ → Bool)
    (works : (w : WatchWrite) (i : ℕ) → fails w i ≡ false) where
  pub create_returns : (e : EventLog) (db : WatchDb) → (create_withdrawal_order fails e db).1 ≡ true
  unfolding create_withdrawal_order
  create_returns e db =
      elim (Bool-cases (any_row (requests_withdrawal e.withdrawal_id) db.withdrawal_requests)) [
        | inl there ↦ rw (works creating e.withdrawal_id, create_withdrawal_order, there) refl
        | inr fresh ↦ rw (works creating e.withdrawal_id, create_withdrawal_order, fresh) refl
      ]

  ingest_returns : (es : List EventLog) (db : WatchDb) → (ingest_logs fails es db).1 ≡ none
  unfolding ingest_logs
  ingest_returns [] db = refl
  ingest_returns (e ∷ es) db =
      rw (create_returns e db, ingest_logs)
        (ingest_returns es (create_withdrawal_order fails e db).0)

  module _ {ℓ} (E : Type ℓ) (logs_of : ℕ → ℕ → List EventLog) (chunk : ℕ)
      (some_blocks : 0 < chunk) where
    abbrev answers : ℕ → ℕ → Result E (List EventLog)
    answers from to = ok (logs_of from to)

    -- The fuel covers the windows that are left.
    scan_windows_reach :
        (fuel from_block safe_tip start : ℕ) (db : WatchDb)
        → safe_tip + 1 < start + fuel
        → start ≤ safe_tip + 1
        → db.gnosis_last_block + 1 ≡ start
        → ((scan_windows answers chunk fails fuel from_block safe_tip start db).1 ≡ true)
          × ((scan_windows answers chunk fails fuel from_block safe_tip start
                db).0.gnosis_last_block
              ≡ safe_tip)
    unfolding scan_windows clear_scan_halt
    scan_windows_reach zero from_block safe_tip start db enough within at = absurd (omega arith)
    scan_windows_reach (suc fuel) from_block safe_tip start db enough within at =
        let end = window_end answers chunk fails safe_tip start in
        let next = ingest_logs fails (sort_logs (logs_of start end)) db in
        elim (Bool-cases (ltb safe_tip start)) [
          | inl past ↦ rw (scan_windows, past, works clearing 0) (refl, reached (ground arith))
          | inr more ↦
              rw
                (
                  scan_windows,
                  more,
                  ingest_returns (sort_logs (logs_of start end)) db,
                  works saving end,
                )
                (scan_windows_reach fuel from_block safe_tip (end + 1) (set_last_block end next.0)
                  (further (ground arith)) (inside (ground arith)) refl)
        ]
      where
        reached : safe_tip < start → db.gnosis_last_block ≡ safe_tip
        reached past = omega arith

        further : start ≤ safe_tip → safe_tip + 1 < min (start + chunk - 1) safe_tip + 1 + fuel
        further more = omega arith

        inside : start ≤ safe_tip → min (start + chunk - 1) safe_tip + 1 ≤ safe_tip + 1
        inside more = omega arith

    -- If the node answers, the database works and windows are not empty, a scan with something to scan
    -- ends with the watermark on the last block that is deep enough.
    pub process_new_withdrawals_reach :
        (current_block confirmation_depth : ℕ) (db : WatchDb)
        → db.gnosis_last_block + confirmation_depth < current_block
        → ((process_new_withdrawals answers chunk fails current_block confirmation_depth db).1
            ≡ true)
          × ((process_new_withdrawals answers chunk fails current_block confirmation_depth
                db).0.gnosis_last_block
              ≡ current_block - confirmation_depth)
    unfolding process_new_withdrawals
    process_new_withdrawals_reach current_block confirmation_depth db ahead =
        let safe_tip = current_block - confirmation_depth in
        let from_block = db.gnosis_last_block + 1 in
        elim (Bool-cases (ltb safe_tip from_block)) [
          | inl early ↦ absurd (too_early (ground arith))
          | inr more ↦
              rw (process_new_withdrawals, more)
                (scan_windows_reach (safe_tip + 2) from_block safe_tip from_block db (omega arith)
                  (ground arith) refl)
        ]
      where
        too_early : current_block - confirmation_depth < db.gnosis_last_block + 1 → ⊥
        too_early e = omega arith
