-- ===== src/Gnosis/Scan.antt =====
-- No burn at or below the watermark is lost (backend/src/gnosis/event-watcher.ts).
use wbob_bridge.Prelude.{
  ℕ, zero, suc, ◌+◌, ◌-◌, ◌≤◌, ◌<◌, ◌≡◌, sym, subst, Bool, Option, none, some, List, ltb, leb, All,
  Bool-cases, Option-cases, inl, inr, arith,
}
use wbob_bridge.Shared.Result.{Result, ok, Result-cases}
use wbob_bridge.Gnosis.EventWatcher.{
  EventLog, WatchDb, WatchWrite, saving, halting, clearing, sort_logs, ingest_logs, set_last_block,
  halt_at, clear_scan_halt, window_end, scan_windows, process_new_withdrawals,
}
use wbob_bridge.Gnosis.Watermark.{
  IsRecorded, KeepsRecorded, Listed, IsIngested, ingest-KeepsRecorded, ingest-last_block,
  ingest-IsIngested,
}
use wbob_bridge.Gnosis.LogOrder.{All-sort, All-unsort, All-Listed, sort-IsSorted}

-- A block of a window.
abbrev pub IsBetween : ℕ → ℕ → EventLog → Type 0
IsBetween from to e = (from ≤ e.block_number) × (e.block_number ≤ to)

-- The node's logs of a range are the events of its chain there: none is missing, and each is in range.
pub record IsHonest {ℓ} {E : Type ℓ} (get_logs : ℕ → ℕ → Result E (List EventLog))
    (chain : List EventLog) : Type ℓ where
  pub complete :
      (from to : ℕ) (logs : List EventLog)
      → get_logs from to ≡ ok logs
      → (e : EventLog) → Listed e chain
      → IsBetween from to e
      → Listed e logs
  pub in_range :
      (from to : ℕ) (logs : List EventLog)
      → get_logs from to ≡ ok logs
      → All (IsBetween from to) logs

-- Every burn of the chain below a block has its withdrawal.
abbrev pub CoversBelow : List EventLog → ℕ → WatchDb → Type 0
CoversBelow chain block db =
    (e : EventLog) → Listed e chain → e.block_number < block → IsRecorded db e

-- Every burn of the chain at or below the watermark has its withdrawal.
abbrev pub Covers : List EventLog → WatchDb → Type 0
Covers chain db = CoversBelow chain (db.gnosis_last_block + 1) db

clear-Covers :
    (chain : List EventLog) (fails : WatchWrite → ℕ → Bool) (db : WatchDb)
    → Covers chain db
    → Covers chain (clear_scan_halt fails db).0
unfolding clear_scan_halt
clear-Covers chain fails db covers = elim (Bool-cases (fails clearing 0)) [
  | inl thrown ↦ rw (clear_scan_halt, thrown) covers
  | inr fine ↦ rw (clear_scan_halt, fine) covers
]

-- Whether the watermark stays or moves up to the block before the failed one.
halt-Covers :
    (chain : List EventLog) (fails : WatchWrite → ℕ → Bool) (from_block : ℕ) (f : EventLog)
    (db : WatchDb)
    → Covers chain db
    → CoversBelow chain f.block_number db
    → Covers chain (halt_at fails from_block f db).0
unfolding halt_at
halt-Covers chain fails from_block f db covers below =
    elim (Bool-cases (fails halting f.block_number)) [
      | inl thrown ↦ rw (halt_at, thrown) covers
      | inr fine ↦ elim (Bool-cases (leb (from_block + 1) f.block_number)) [
        | inr first ↦ rw (halt_at, fine, first) covers
        | inl forward ↦ elim (Bool-cases (fails saving (f.block_number - 1))) [
          | inl thrown ↦ rw (halt_at, fine, forward, thrown) covers
          | inr saved ↦
              rw (halt_at, fine, forward, saved)
                (λ e listed less. below e listed (before e less (ground arith)))
        ]
      ]
    ]
  where
    before :
        (e : EventLog)
        → e.block_number < f.block_number - 1 + 1
        → from_block + 1 ≤ f.block_number
        → e.block_number < f.block_number
    before e less forward = omega arith

-- With all burns below `start` recorded and the watermark below it, the watermark is covered.
below-Covers :
    (chain : List EventLog) (start : ℕ) (db : WatchDb)
    → db.gnosis_last_block < start
    → CoversBelow chain start db
    → Covers chain db
below-Covers chain start db low below e listed less = below e listed (omega arith)

keeps-CoversBelow :
    (chain : List EventLog) (block : ℕ) (db db' : WatchDb)
    → KeepsRecorded db db'
    → CoversBelow chain block db
    → CoversBelow chain block db'
keeps-CoversBelow chain block db db' keeps below e listed less = keeps e (below e listed less)

module _ {ℓ} {E : Type ℓ} (get_logs : ℕ → ℕ → Result E (List EventLog)) (chain : List EventLog)
    (honest : IsHonest get_logs chain) (chunk : ℕ) (fails : WatchWrite → ℕ → Bool) where
  -- The blocks that a window settles: all of them, or those before the failed event's.
  abbrev settled : ℕ → Option EventLog → ℕ
  settled end none = end + 1
  settled end (some f) = f.block_number

  window-CoversBelow :
      (start end : ℕ) (logs : List EventLog) (db db' : WatchDb) (failed : Option EventLog)
      → get_logs start end ≡ ok logs
      → KeepsRecorded db db'
      → CoversBelow chain start db
      → IsIngested db' (sort_logs logs) failed
      → CoversBelow chain (settled end failed) db'
  window-CoversBelow start end logs db db' none answer keeps below all e listed less =
      elim (Bool-cases (ltb e.block_number start)) [
        | inl old ↦ keeps e (below e listed (ground arith))
        | inr new ↦
            All-Listed (IsRecorded db') e logs
              (honest.complete start end logs answer e listed (ground arith, omega arith))
              (All-unsort (IsRecorded db') logs all)
      ]
  window-CoversBelow start end logs db db' (some f) answer keeps below (there, all) e listed less =
      let f_in =
        All-Listed (IsBetween start end) f (sort_logs logs) there
          (All-sort (IsBetween start end) logs (honest.in_range start end logs answer)) in
      elim (Bool-cases (ltb e.block_number start)) [
        | inl old ↦ keeps e (below e listed (ground arith))
        | inr new ↦
            All-Listed (λ (x : EventLog). x.block_number < f.block_number → IsRecorded db' x) e logs
              (honest.complete start end logs answer e listed (ground arith, upper f_in.1 less))
              (All-unsort (λ (x : EventLog). x.block_number < f.block_number → IsRecorded db' x)
                logs all)
              less
      ]
    where
      upper : {a b c : ℕ} → b ≤ c → a < b → a ≤ c
      upper p q = omega arith

  scan_windows-Covers :
      (fuel from_block safe_tip start : ℕ) (db : WatchDb)
      → db.gnosis_last_block < start
      → CoversBelow chain start db
      → Covers chain (scan_windows get_logs chunk fails fuel from_block safe_tip start db).0
  unfolding scan_windows
  scan_windows-Covers zero from_block safe_tip start db low below =
      below-Covers chain start db low below
  scan_windows-Covers (suc fuel) from_block safe_tip start db low below =
      let end = window_end get_logs chunk fails safe_tip start in
      elim (Bool-cases (ltb safe_tip start)) [
        | inl past ↦
            rw (scan_windows, past)
              (clear-Covers chain fails db (below-Covers chain start db low below))
        | inr more ↦ elim (Result-cases (get_logs start end)) [
          | inr (x, bad) ↦ rw (scan_windows, more, bad) (below-Covers chain start db low below)
          | inl (logs, answer) ↦
              let next = ingest_logs fails (sort_logs logs) db in
              let keeps = ingest-KeepsRecorded fails (sort_logs logs) db in
              let low' =
                subst (λ k. k < start) (sym (ingest-last_block fails (sort_logs logs) db)) low in
              let covers =
                below-Covers chain start next.0 low'
                  (keeps-CoversBelow chain start db next.0 keeps below) in
              let window = λ (o : Option EventLog) (e : next.1 ≡ o).
                window-CoversBelow start end logs db next.0 o answer keeps below (
                  subst (IsIngested next.0 (sort_logs logs)) e
                    (ingest-IsIngested fails (sort_logs logs) db (sort-IsSorted logs))) in
              elim (Option-cases next.1) [
                | inr (f, failed) ↦
                    rw (scan_windows, more, answer, failed)
                      (halt-Covers chain fails from_block f next.0 covers (window (some f) failed))
                | inl fine ↦ elim (Bool-cases (fails saving end)) [
                  | inl thrown ↦ rw (scan_windows, more, answer, fine, thrown) covers
                  | inr saved ↦
                      rw (scan_windows, more, answer, fine, saved)
                        (scan_windows-Covers fuel from_block safe_tip (end + 1)
                          (set_last_block end next.0) (omega arith) (window none fine))
                ]
              ]
        ]
      ]

  -- If the node answers with its chain's events, a scan keeps every burn at or below the watermark
  -- recorded, wherever the database throws and wherever the scan halts.
  pub process_new_withdrawals-Covers :
      (current_block confirmation_depth : ℕ) (db : WatchDb)
      → Covers chain db
      → Covers chain
          (process_new_withdrawals get_logs chunk fails current_block confirmation_depth db).0
  unfolding process_new_withdrawals
  process_new_withdrawals-Covers current_block confirmation_depth db covers =
      let from_block = db.gnosis_last_block + 1 in
      let safe_tip = current_block - confirmation_depth in
      elim (Bool-cases (ltb safe_tip from_block)) [
        | inl early ↦ rw (process_new_withdrawals, early) covers
        | inr some_blocks ↦
            rw (process_new_withdrawals, some_blocks)
              (scan_windows-Covers (safe_tip + 2) from_block safe_tip from_block db (omega arith)
                covers)
      ]
