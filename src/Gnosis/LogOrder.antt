-- ===== src/Gnosis/LogOrder.antt =====
-- The defensive sort of a window's logs (backend/src/gnosis/event-watcher.ts).
use wbob_bridge.Prelude.{◌≤◌, ◌≡◌, subst, false, List, [], ◌∷◌, All, Bool-cases, inl, inr, arith}
use wbob_bridge.Gnosis.EventWatcher.{EventLog, is_before, insert_log, sort_logs}
use wbob_bridge.Gnosis.Watermark.{Listed, IsSorted}

module _ {κ} (P : EventLog → Type κ) where
  All-insert : (x : EventLog) (ys : List EventLog) → P x → All P ys → All P (insert_log x ys)
  unfolding insert_log
  All-insert x [] p h = (p, tt)
  All-insert x (y ∷ ys) p h = elim (Bool-cases (is_before y x)) [
    | inl before ↦ rw before (h.0, All-insert x ys p h.1)
    | inr after ↦ rw after (p, h)
  ]

  All-uninsert : (x : EventLog) (ys : List EventLog) → All P (insert_log x ys) → P x × All P ys
  unfolding insert_log
  All-uninsert x [] h = h
  All-uninsert x (y ∷ ys) h = elim (Bool-cases (is_before y x)) [
    | inl before ↦
        let h' = rw before at h in let (p, rest) = All-uninsert x ys h'.1 in (p, (h'.0, rest))
    | inr after ↦ rw after at h
  ]

  pub All-sort : (xs : List EventLog) → All P xs → All P (sort_logs xs)
  unfolding sort_logs
  All-sort [] h = tt
  All-sort (x ∷ xs) h = All-insert x (sort_logs xs) h.0 (All-sort xs h.1)

  pub All-unsort : (xs : List EventLog) → All P (sort_logs xs) → All P xs
  unfolding sort_logs
  All-unsort [] h = tt
  All-unsort (x ∷ xs) h = let (p, rest) = All-uninsert x (sort_logs xs) h in (p, All-unsort xs rest)

  pub All-Listed : (e : EventLog) (xs : List EventLog) → Listed e xs → All P xs → P e
  All-Listed e [] listed h = absurd listed
  All-Listed e (x ∷ xs) (inl same) h = subst P same h.0
  All-Listed e (x ∷ xs) (inr more) h = All-Listed e xs more h.1

insert-IsSorted : (x : EventLog) (ys : List EventLog) → IsSorted ys → IsSorted (insert_log x ys)
unfolding insert_log
insert-IsSorted x [] s = (tt, tt)
insert-IsSorted x (y ∷ ys) s = elim (Bool-cases (is_before y x)) [
  | inl before ↦ rw before (
    All-insert (λ (z : EventLog). y.block_number ≤ z.block_number) x ys (ground arith) s.0,
    insert-IsSorted x ys s.1,
  )
  | inr after ↦ rw after ((not_less after, above ys (not_less after) s.0), s)
]
  where
    not_less : is_before y x ≡ false → x.block_number ≤ y.block_number
    not_less e = ground arith

    above :
        (zs : List EventLog)
        → x.block_number ≤ y.block_number
        → All (λ (z : EventLog). y.block_number ≤ z.block_number) zs
        → All (λ (z : EventLog). x.block_number ≤ z.block_number) zs
    above [] le h = tt
    above (z ∷ zs) le h = (omega (arith, h.0), above zs le h.1)

pub sort-IsSorted : (xs : List EventLog) → IsSorted (sort_logs xs)
unfolding sort_logs
sort-IsSorted [] = tt
sort-IsSorted (x ∷ xs) = insert-IsSorted x (sort_logs xs) (sort-IsSorted xs)
