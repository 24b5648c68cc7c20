-- ===== src/Gnosis/RecountLaws.antt =====
-- What a recount finds again (backend/src/gnosis/event-watcher.ts).
use wbob_bridge.Prelude.{
  ℕ, zero, suc, ◌+◌, ◌-◌, ◌≤◌, ◌<◌, ◌≡◌, refl, Bool, true, false, some, List, [], ◌∷◌, ltb, min,
  All, Bool-cases, inl, inr, arith,
}
use wbob_bridge.Shared.Result.{Result, ok}
use wbob_bridge.Gnosis.EventWatcher.{EventLog, WatchDb, WatchWrite, create_withdrawal_order}
use wbob_bridge.Gnosis.Watermark.{
  IsRecorded, KeepsRecorded, Listed, create-KeepsRecorded, create-IsRecorded,
}
use wbob_bridge.Gnosis.LogOrder.{All-Listed}
use wbob_bridge.Gnosis.Scan.{IsHonest}
use wbob_bridge.Gnosis.Reach.{create_returns}
use wbob_bridge.Gnosis.Recount.{
  RecountState, had, ingest_missing, start_of, recount_windows, recount_end, recount,
}

missing-KeepsRecorded :
    (fails : WatchWrite → ℕ → Bool) (before : WatchDb) (es : List EventLog) (db : WatchDb)
    → KeepsRecorded db (ingest_missing fails before es db).0
unfolding ingest_missing
missing-KeepsRecorded fails before [] db f h = h
missing-KeepsRecorded fails before (e ∷ es) db f h =
    let next = create_withdrawal_order fails e db in
    let kept = create-KeepsRecorded fails e db f h in
    elim (Bool-cases (had before e)) [
      | inl there ↦ rw (there, ingest_missing) (missing-KeepsRecorded fails before es db f h)
      | inr fresh ↦ elim (Bool-cases next.1) [
        | inr thrown ↦ rw (fresh, ingest_missing, thrown) kept
        | inl returned ↦
            rw (fresh, ingest_missing, returned)
              (missing-KeepsRecorded fails before es next.0 f kept)
      ]
    ]

module _ (fails : WatchWrite → ℕ → Bool)
    (works : (w : WatchWrite) (i : ℕ) → fails w i ≡ false) where
  missing_returns :
      (before : WatchDb) (es : List EventLog) (db : WatchDb)
      → (ingest_missing fails before es db).1 ≡ true
  unfolding ingest_missing
  missing_returns before [] db = refl
  missing_returns before (e ∷ es) db = elim (Bool-cases (had before e)) [
    | inl there ↦ rw (there, ingest_missing) (missing_returns before es db)
    | inr fresh ↦
        rw (fresh, ingest_missing, create_returns fails works e db)
          (missing_returns before es (create_withdrawal_order fails e db).0)
  ]

  missing-IsRecorded :
      (before : WatchDb) (es : List EventLog) (db after : WatchDb)
      → KeepsRecorded before db
      → KeepsRecorded (ingest_missing fails before es db).0 after
      → All (IsRecorded after) es
  unfolding ingest_missing
  missing-IsRecorded before [] db after keeps onward = tt
  missing-IsRecorded before (e ∷ es) db after keeps onward =
      let next = create_withdrawal_order fails e db in
      elim (Bool-cases (had before e)) [
        | inl there ↦
            let onward' : KeepsRecorded (ingest_missing fails before es db).0 after =
              rw (there, ingest_missing) at onward in
            (
              onward' e (missing-KeepsRecorded fails before es db e (keeps e there)),
              missing-IsRecorded before es db after keeps onward',
            )
        | inr fresh ↦
            let onward' : KeepsRecorded (ingest_missing fails before es next.0).0 after =
              rw (fresh, ingest_missing, create_returns fails works e db) at onward in
            (
              onward' e (
                  missing-KeepsRecorded fails before es next.0 e
                    (create-IsRecorded fails e db (create_returns fails works e db))),
              missing-IsRecorded before es next.0 after
                  (λ f h. create-KeepsRecorded fails e db f (keeps f h)) onward',
            )
      ]

  module _ {ℓ} (E : Type ℓ) (logs_of : ℕ → ℕ → List EventLog) (chunk start_block : ℕ)
      (some_blocks : 0 < chunk) where
    abbrev pub answers : ℕ → ℕ → Result E (List EventLog)
    answers from to = ok (logs_of from to)

    -- It returned, and every burn of the chain from a block to another has its withdrawal.
    pub record Recounted (chain : List EventLog) (from end : ℕ) (before : RecountState)
        (after : RecountState × Bool) : Type 0 where
      pub returned : after.1 ≡ true
      pub kept : KeepsRecorded before.db after.0.db
      pub recorded :
          (e : EventLog)
          → Listed e chain
          → from ≤ e.block_number
          → e.block_number ≤ end
          → IsRecorded after.0.db e

    -- A window, and the windows after it.
    extend :
        (chain : List EventLog)
        → IsHonest answers chain
        → (end from : ℕ) (s : RecountState) (middle : WatchDb) (after : RecountState × Bool)
        → KeepsRecorded s.db middle
        → All (IsRecorded middle) (logs_of from (min (from + chunk - 1) end))
        → Recounted chain
            (min (from + chunk - 1) end + 1)
            end
            (record { db = middle; recount_cursor = some (min (from + chunk - 1) end + 1) })
            after
        → Recounted chain from end s after
    extend chain honest end from s middle after keeps all later = record {
      returned = later.returned;
      kept = λ e h. later.kept e (keeps e h);
      recorded = λ e listed low high.
          let to = min (from + chunk - 1) end in
          elim (Bool-cases (ltb to e.block_number)) [
            | inl beyond ↦ later.recorded e listed (ground arith) high
            | inr within ↦ later.kept e (
                All-Listed (IsRecorded middle) e (logs_of from to)
                  (honest.complete from to (logs_of from to) refl e listed (low, ground arith)) all)
          ];
    }

    recount_windows-Recounted :
        (chain : List EventLog)
        → IsHonest answers chain
        → (fuel end from : ℕ) (s : RecountState) → end + 1 < from + fuel
        → 0 < fuel
        → Recounted chain from end s
            (recount_windows answers chunk start_block fails fuel end from s)
    unfolding recount_windows
    recount_windows-Recounted chain honest zero end from s enough some_fuel = absurd (omega arith)
    recount_windows-Recounted chain honest (suc fuel) end from s enough some_fuel =
        let to = min (from + chunk - 1) end in
        let next = ingest_missing fails s.db (logs_of from to) s.db in
        let s' : RecountState = record { db = next.0; recount_cursor = some (to + 1) } in
        elim (Bool-cases (ltb end from)) [
          | inl past ↦
              rw (recount_windows, past)
                (record {
                  returned = refl;
                  kept = λ e h. h;
                  recorded = λ e listed low high. absurd (beyond (ground arith) low high);
                })
          | inr more ↦
              rw (recount_windows, more, missing_returns s.db (logs_of from to) s.db)
                (extend chain honest end from s next.0
                  (recount_windows answers chunk start_block fails fuel end (to + 1) s')
                  (missing-KeepsRecorded fails s.db (logs_of from to) s.db)
                  (missing-IsRecorded s.db (logs_of from to) s.db next.0 (λ e h. h) (λ e h. h))
                  (recount_windows-Recounted chain honest fuel end (to + 1) s'
                    (further (ground arith)) (fuelled (ground arith))))
        ]
      where
        beyond : {a : ℕ} → end < from → from ≤ a → a ≤ end → ⊥
        beyond p q r = omega arith

        further : from ≤ end → end + 1 < min (from + chunk - 1) end + 1 + fuel
        further p = omega arith

        fuelled : from ≤ end → 0 < fuel
        fuelled p = omega arith

    -- If the node answers with its chain's events, the database works, windows are not empty and the
    -- chain is as high as the confirmation depth, a recount returns, and every burn of the chain from its
    -- cursor on, up to the watermark and the confirmation depth, has its withdrawal: those that were
    -- missing are recorded, and none is lost.
    pub recount-Recounted :
        (chain : List EventLog)
        → IsHonest answers chain
        → (current_block confirmation_depth : ℕ) (s : RecountState)
        → confirmation_depth ≤ current_block
        → Recounted chain
            (start_of start_block s.recount_cursor)
            (recount_end answers chunk start_block fails current_block confirmation_depth s.db)
            s
            (recount answers chunk start_block fails current_block confirmation_depth s)
    unfolding recount
    recount-Recounted chain honest current_block confirmation_depth s deep =
        elim (Bool-cases (ltb current_block confirmation_depth)) [
          | inl shallow ↦ absurd (not_both (ground arith) deep)
          | inr enough ↦
              rw (recount, enough)
                (recount_windows-Recounted chain honest
                  (recount_end answers chunk start_block fails current_block confirmation_depth s.db
                    + 2)
                  (recount_end answers chunk start_block fails current_block confirmation_depth
                    s.db)
                  (start_of start_block s.recount_cursor) s (omega arith) (omega arith))
        ]
      where
        not_both : current_block < confirmation_depth → confirmation_depth ≤ current_block → ⊥
        not_both p q = omega arith
