-- ===== src/Gnosis/Recount.antt =====
-- backend/src/gnosis/event-watcher.ts, `recount`: the burns up to the watermark are read again with a
-- cursor of their own, and those without a withdrawal are recorded.
use wbob_bridge.Prelude.{
  ℕ, zero, suc, ◌+◌, ◌-◌, Bool, true, false, Option, none, some, List, [], ◌∷◌, ltb, if◌then◌else◌,
  min,
}
use wbob_bridge.Prelude.Tables.{any_row}
use wbob_bridge.Shared.Result.{Result, ok, err}
use wbob_bridge.Gnosis.EventWatcher.{
  EventLog, WatchDb, WatchWrite, requests_withdrawal, create_withdrawal_order,
}

-- The tables and `recountCursor`.
pub record RecountState : Type 0 where
  pub db : WatchDb
  pub recount_cursor : Option ℕ

-- `have`: the withdrawals that were there when the window was read.
abbrev pub had : WatchDb → EventLog → Bool
had db e = any_row (requests_withdrawal e.withdrawal_id) db.withdrawal_requests

-- The loop over the logs of a window.
unfoldable pub ingest_missing :
    (WatchWrite → ℕ → Bool) → WatchDb → List EventLog → WatchDb → WatchDb × Bool
unfolding create_withdrawal_order
ingest_missing fails before [] db = (db, true)
ingest_missing fails before (e ∷ es) db = elim (had before e) [
  | true ↦ ingest_missing fails before es db
  | false ↦
      let (db', returned) = create_withdrawal_order fails e db in
      elim returned [ false ↦ (db', false) | true ↦ ingest_missing fails before es db' ]
]

abbrev pub start_of : ℕ → Option ℕ → ℕ
start_of start_block none = start_block
start_of start_block (some cursor) = cursor

module _ {ℓ} {E : Type ℓ} (get_logs : ℕ → ℕ → Result E (List EventLog)) (chunk start_block : ℕ)
    (fails : WatchWrite → ℕ → Bool) where
  -- The loop over the windows, on fuel as in the scan.
  unfoldable pub recount_windows : ℕ → ℕ → ℕ → RecountState → RecountState × Bool
  unfolding ingest_missing
  recount_windows zero end from s = (s, false)
  recount_windows (suc fuel) end from s =
      let to = min (from + chunk - 1) end in
      let later = λ (d : WatchDb).
        recount_windows fuel end (to + 1) (record { db = d; recount_cursor = some (to + 1) }) in
      elim (ltb end from) [
        | true ↦ (s, true)
        | false ↦ elim (get_logs from to) [
          | err e ↦ (s, false)
          | ok logs ↦
              let (db', returned) = ingest_missing fails s.db logs s.db in
              elim returned [ false ↦ (record s { db = db' }, false) | true ↦ later db' ]
        ]
      ]

  -- The last block of a recount: the watermark, and no block that may still be reorganised.
  abbrev pub recount_end : ℕ → ℕ → WatchDb → ℕ
  recount_end current_block confirmation_depth db =
      min db.gnosis_last_block (current_block - confirmation_depth)

  -- `recount`, without its alert. A chain below the confirmation depth has no block to recount.
  unfoldable pub recount : ℕ → ℕ → RecountState → RecountState × Bool
  unfolding recount_windows
  recount current_block confirmation_depth s =
      let end = recount_end current_block confirmation_depth s.db in
      if ltb current_block confirmation_depth
      then (s, true)
      else recount_windows (end + 2) end (start_of start_block s.recount_cursor) s
