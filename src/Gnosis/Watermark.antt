-- ===== src/Gnosis/Watermark.antt =====
-- What the loop over the logs of a window records (backend/src/gnosis/event-watcher.ts).
use wbob_bridge.Prelude.{
  ℕ, ◌≤◌, ◌<◌, ◌≡◌, refl, ◌∙◌, ◌⊎◌, Bool, true, false, Option, none, some, List, [], ◌∷◌, ◌++◌, All,
  Bool-cases, inl, inr, arith,
}
use wbob_bridge.Prelude.Tables.{any_row}
use wbob_bridge.Gnosis.EventWatcher.{
  EventLog, WithdrawalRow, WatchDb, WatchWrite, creating, requests_withdrawal, request_for,
  create_withdrawal_order, ingest_logs,
}

-- The burn has its withdrawal.
abbrev pub IsRecorded : WatchDb → EventLog → Type 0
IsRecorded db e = any_row (requests_withdrawal e.withdrawal_id) db.withdrawal_requests ≡ true

abbrev pub KeepsRecorded : WatchDb → WatchDb → Type 0
KeepsRecorded db db' = (e : EventLog) → IsRecorded db e → IsRecorded db' e

abbrev pub Listed : EventLog → List EventLog → Type 0
Listed e [] = ⊥
Listed e (x ∷ xs) = (x ≡ e) ⊎ Listed e xs

abbrev pub IsSorted : List EventLog → Type 0
IsSorted [] = Unit
IsSorted (x ∷ xs) = All (λ (y : EventLog). x.block_number ≤ y.block_number) xs × IsSorted xs

any-append :
    (id : ℕ) (ws : List WithdrawalRow) (w : WithdrawalRow)
    → any_row (requests_withdrawal id) ws ≡ true
    → any_row (requests_withdrawal id) (ws ++ w ∷ []) ≡ true
any-append id [] w h = ground arith
any-append id (x ∷ ws) w h = elim (Bool-cases (requests_withdrawal id x)) [
  | inl hit ↦ rw hit refl
  | inr miss ↦ rw miss (any-append id ws w (rw miss at h))
]

any_last :
    (ws : List WithdrawalRow) (w : WithdrawalRow)
    → any_row (requests_withdrawal w.withdrawal_id) (ws ++ w ∷ []) ≡ true
any_last [] w = ground arith
any_last (x ∷ ws) w = elim (Bool-cases (requests_withdrawal w.withdrawal_id x)) [
  | inl hit ↦ rw hit refl
  | inr miss ↦ rw miss (any_last ws w)
]

pub create-KeepsRecorded :
    (fails : WatchWrite → ℕ → Bool) (e : EventLog) (db : WatchDb)
    → KeepsRecorded db (create_withdrawal_order fails e db).0
unfolding create_withdrawal_order
create-KeepsRecorded fails e db f h = elim (Bool-cases (fails creating e.withdrawal_id)) [
  | inl thrown ↦ rw (create_withdrawal_order, thrown) h
  | inr fine ↦
      elim (Bool-cases (any_row (requests_withdrawal e.withdrawal_id) db.withdrawal_requests)) [
        | inl there ↦ rw (create_withdrawal_order, fine, there) h
        | inr fresh ↦
            rw (create_withdrawal_order, fine, fresh)
              (any-append f.withdrawal_id db.withdrawal_requests (request_for e db.next_order_id) h)
      ]
]

pub create-IsRecorded :
    (fails : WatchWrite → ℕ → Bool) (e : EventLog) (db : WatchDb)
    → (create_withdrawal_order fails e db).1 ≡ true
    → IsRecorded (create_withdrawal_order fails e db).0 e
unfolding create_withdrawal_order
create-IsRecorded fails e db h = elim (Bool-cases (fails creating e.withdrawal_id)) [
  | inl thrown ↦ absurd (clash (rw (create_withdrawal_order, thrown) at h))
  | inr fine ↦
      elim (Bool-cases (any_row (requests_withdrawal e.withdrawal_id) db.withdrawal_requests)) [
        | inl there ↦ rw (create_withdrawal_order, fine, there) there
        | inr fresh ↦
            rw (create_withdrawal_order, fine, fresh)
              (any_last db.withdrawal_requests (request_for e db.next_order_id))
      ]
]
  where
    clash : false ≡ true → ⊥
    clash e' = cc

create-last_block :
    (fails : WatchWrite → ℕ → Bool) (e : EventLog) (db : WatchDb)
    → (create_withdrawal_order fails e db).0.gnosis_last_block ≡ db.gnosis_last_block
unfolding create_withdrawal_order
create-last_block fails e db = ground arith

-- What a loop over sorted logs leaves: all of them recorded, or all those of blocks before the failed one.
abbrev pub IsIngested : WatchDb → List EventLog → Option EventLog → Type 0
IsIngested db es none = All (IsRecorded db) es
IsIngested db es (some f) =
    Listed f es × All (λ (e : EventLog). e.block_number < f.block_number → IsRecorded db e) es

pub ingest-KeepsRecorded :
    (fails : WatchWrite → ℕ → Bool) (es : List EventLog) (db : WatchDb)
    → KeepsRecorded db (ingest_logs fails es db).0
unfolding ingest_logs
ingest-KeepsRecorded fails [] db f h = h
ingest-KeepsRecorded fails (e ∷ es) db f h =
    let next = create_withdrawal_order fails e db in
    let kept = create-KeepsRecorded fails e db f h in
    elim (Bool-cases next.1) [
      | inr thrown ↦ rw (ingest_logs, thrown) kept
      | inl returned ↦ rw (ingest_logs, returned) (ingest-KeepsRecorded fails es next.0 f kept)
    ]

pub ingest-last_block :
    (fails : WatchWrite → ℕ → Bool) (es : List EventLog) (db : WatchDb)
    → (ingest_logs fails es db).0.gnosis_last_block ≡ db.gnosis_last_block
unfolding ingest_logs
ingest-last_block fails [] db = refl
ingest-last_block fails (e ∷ es) db =
    let next = create_withdrawal_order fails e db in
    elim (Bool-cases next.1) [
      | inr thrown ↦ rw (ingest_logs, thrown) (create-last_block fails e db)
      | inl returned ↦
          rw (ingest_logs, returned)
            (ingest-last_block fails es next.0 ∙ create-last_block fails e db)
    ]

later_blocks :
    (db : WatchDb) (f : EventLog) (es : List EventLog)
    → All (λ (y : EventLog). f.block_number ≤ y.block_number) es
    → All (λ (e : EventLog). e.block_number < f.block_number → IsRecorded db e) es
later_blocks db f [] h = tt
later_blocks db f (e ∷ es) h = ((λ less. absurd (between h.0 less)), later_blocks db f es h.1)
  where
    between : {a b : ℕ} → a ≤ b → b < a → ⊥
    between p q = omega arith

pub ingest-IsIngested :
    (fails : WatchWrite → ℕ → Bool) (es : List EventLog) (db : WatchDb)
    → IsSorted es
    → IsIngested (ingest_logs fails es db).0 es (ingest_logs fails es db).1
unfolding ingest_logs
ingest-IsIngested fails [] db s = tt
ingest-IsIngested fails (e ∷ es) db s =
    let next = create_withdrawal_order fails e db in
    elim (Bool-cases next.1) [
      | inr thrown ↦
          rw (ingest_logs, thrown)
            (inl refl, ((λ less. absurd (itself less)), later_blocks next.0 e es s.0))
      | inl returned ↦
          rw (ingest_logs, returned)
            (add (ingest_logs fails es next.0).0 (ingest_logs fails es next.0).1
              (ingest-IsIngested fails es next.0 s.1)
              (ingest-KeepsRecorded fails es next.0 e (create-IsRecorded fails e db returned)))
    ]
  where
    itself : {a : ℕ} → a < a → ⊥
    itself p = omega arith

    add :
        (db' : WatchDb) (o : Option EventLog)
        → IsIngested db' es o
        → IsRecorded db' e
        → IsIngested db' (e ∷ es) o
    add db' none all here = (here, all)
    add db' (some f) (there, all) here = (inr there, ((λ less. here), all))
