-- ===== src/TxBuilder/Sorting.antt =====
-- The coins sorted largest first, against any other choice of coins
-- (backend/src/dobbscoin/tx-builder.ts, `selectUtxos`).
use wbob_bridge.Prelude.{
  ℕ, zero, suc, ◌+◌, ◌≤◌, ◌≡◌, refl, List, [], ◌∷◌, arith, ltb, length, take, All, Bool-cases, inl,
  inr,
}
use wbob_bridge.TxBuilder.{UtxoInput, total_sat, insert_largest, sort_largest}

-- A choice of some of the coins, in their order.
pub data Choice : List UtxoInput → List UtxoInput → Type 0 where
  done : Choice [] []
  keep : {cs us : List UtxoInput} (u : UtxoInput) → Choice cs us → Choice (u ∷ cs) (u ∷ us)
  skip : {cs us : List UtxoInput} (u : UtxoInput) → Choice cs us → Choice cs (u ∷ us)

abbrev pub Descending : List UtxoInput → Type 0
Descending [] = Unit
Descending (u ∷ us) = All (λ (v : UtxoInput). v.amount_sat ≤ u.amount_sat) us × Descending us

All-insert :
    (n : ℕ) (x : UtxoInput) (ys : List UtxoInput)
    → x.amount_sat ≤ n
    → All (λ (v : UtxoInput). v.amount_sat ≤ n) ys
    → All (λ (v : UtxoInput). v.amount_sat ≤ n) (insert_largest x ys)
unfolding insert_largest
All-insert n x [] p h = (p, tt)
All-insert n x (y ∷ ys) p h = elim (Bool-cases (ltb x.amount_sat y.amount_sat)) [
  | inl e ↦ rw e (h.0, All-insert n x ys p h.1)
  | inr e ↦ rw e (p, h)
]

All-weaken :
    (m n : ℕ) (ys : List UtxoInput)
    → m ≤ n
    → All (λ (v : UtxoInput). v.amount_sat ≤ m) ys
    → All (λ (v : UtxoInput). v.amount_sat ≤ n) ys
All-weaken m n [] p h = tt
All-weaken m n (y ∷ ys) p h = (omega arith, All-weaken m n ys p h.1)

insert-Descending :
    (x : UtxoInput) (ys : List UtxoInput) → Descending ys → Descending (insert_largest x ys)
unfolding insert_largest
insert-Descending x [] h = (tt, tt)
insert-Descending x (y ∷ ys) h = elim (Bool-cases (ltb x.amount_sat y.amount_sat)) [
  | inl e ↦ rw e (All-insert y.amount_sat x ys (ground arith) h.0, insert-Descending x ys h.1)
  | inr e ↦ rw e ((ground arith, All-weaken y.amount_sat x.amount_sat ys (ground arith) h.0), h)
]

pub sort-Descending : (us : List UtxoInput) → Descending (sort_largest us)
unfolding sort_largest
sort-Descending [] = tt
sort-Descending (u ∷ us) = insert-Descending u (sort_largest us) (sort-Descending us)

take-shift :
    (k : ℕ) (y : UtxoInput) (ys : List UtxoInput)
    → Descending (y ∷ ys)
    → total_sat (take k ys) ≤ total_sat (take k (y ∷ ys))
take-shift zero y ys h = omega arith
take-shift (suc k) y [] h = omega arith
take-shift (suc k) y (z ∷ zs) h = omega (arith, take-shift k z zs h.1, h.0.0)

take-insert_skip :
    (k : ℕ) (x : UtxoInput) (ys : List UtxoInput)
    → Descending ys
    → total_sat (take k ys) ≤ total_sat (take k (insert_largest x ys))
unfolding insert_largest
take-insert_skip zero x ys h = omega arith
take-insert_skip (suc k) x [] h = omega arith
take-insert_skip (suc k) x (y ∷ ys) h =
    ground (arith, take-insert_skip k x ys h.1, take-shift k y ys h)

take-insert_keep :
    (k : ℕ) (x : UtxoInput) (ys : List UtxoInput)
    → x.amount_sat + total_sat (take k ys) ≤ total_sat (take (suc k) (insert_largest x ys))
unfolding insert_largest
take-insert_keep zero x [] = omega arith
take-insert_keep (suc k) x [] = omega arith
take-insert_keep zero x (y ∷ ys) = ground arith
take-insert_keep (suc k) x (y ∷ ys) = ground (arith, take-insert_keep k x ys)

-- Any `k` of the coins are worth at most the `k` largest.
pub Choice-le-largest :
    {cs us : List UtxoInput}
    → Choice cs us
    → total_sat cs ≤ total_sat (take (length cs) (sort_largest us))
unfolding sort_largest
Choice-le-largest done = omega arith
Choice-le-largest (keep {cs = cs} {us = us} u c) =
    omega (arith, Choice-le-largest c, take-insert_keep (length cs) u (sort_largest us))
Choice-le-largest (skip {cs = cs} {us = us} u c) = omega (
  arith,
  Choice-le-largest c,
  take-insert_skip (length cs) u (sort_largest us) (sort-Descending us),
)

length-insert :
    (x : UtxoInput) (ys : List UtxoInput) → length (insert_largest x ys) ≡ suc (length ys)
unfolding insert_largest
length-insert x [] = refl
length-insert x (y ∷ ys) = ground (arith, length-insert x ys)

pub length-sort : (us : List UtxoInput) → length (sort_largest us) ≡ length us
unfolding sort_largest
length-sort [] = refl
length-sort (u ∷ us) = omega (arith, length-insert u (sort_largest us), length-sort us)

pub Choice-length : {cs us : List UtxoInput} → Choice cs us → length cs ≤ length us
Choice-length done = omega arith
Choice-length (keep u c) = omega (arith, Choice-length c)
Choice-length (skip u c) = omega (arith, Choice-length c)
