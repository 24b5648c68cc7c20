-- ===== src/Prelude/Tables.antt =====
-- Database tables as lists of rows in insertion order: the queries that the services write.
use mathlib.Core.Path.{◌≡◌, refl, ◌∙◌, subst}
use mathlib.Core.Logic.{inl, inr}
use mathlib.Core.Bool.{Bool, true, false}
use mathlib.Core.Option
use mathlib.Core.Option.{Option, none, some}
use mathlib.Core.List.{List, [], ◌∷◌, ◌++◌}
use wbob_bridge.Prelude.Tests.{if◌then◌else◌, Bool-cases}

module _ {ℓ} {A : Type ℓ} where
  -- The first row that satisfies the WHERE clause.
  abbrev pub select_one : (A → Bool) → List A → Option A
  select_one p [] = none
  select_one p (x ∷ xs) = if p x then some x else select_one p xs

  -- The last row that satisfies it.
  abbrev pub select_last : (A → Bool) → List A → Option A
  select_last p [] = none
  select_last p (x ∷ xs) = elim (select_last p xs) [
    | some y ↦ some y
    | none ↦ if p x then some x else none
  ]

  -- Every row that satisfies it.
  abbrev pub select_all : (A → Bool) → List A → List A
  select_all p [] = []
  select_all p (x ∷ xs) = if p x then x ∷ select_all p xs else select_all p xs

  -- UPDATE … SET f WHERE p.
  abbrev pub update_where : (A → Bool) → (A → A) → List A → List A
  update_where p f [] = []
  update_where p f (x ∷ xs) = (if p x then f x else x) ∷ update_where p f xs

  abbrev pub any_row : (A → Bool) → List A → Bool
  any_row p [] = false
  any_row p (x ∷ xs) = if p x then true else any_row p xs

none_is_not_some {ℓ} : {A : Type ℓ} {a : A} → ◌≡◌ {A = Option A} none (some a) → ⊥
none_is_not_some h = cc

some_same {ℓ} : {A : Type ℓ} {a b : A} → ◌≡◌ {A = Option A} (some a) (some b) → a ≡ b
some_same h = cc

module _ {ℓ} {A : Type ℓ} where
  -- An update that leaves the WHERE clause alone is seen through it.
  pub select-update_self :
      (p : A → Bool) (f : A → A) (xs : List A)
      → ((a : A) → p (f a) ≡ p a)
      → select_one p (update_where p f xs) ≡ Option.map f (select_one p xs)
  select-update_self p f [] keep = refl
  select-update_self p f (x ∷ xs) keep = elim (Bool-cases (p x)) [
    | inl t ↦ simp (t, keep x ∙ t)
    | inr e ↦ simp (e, select-update_self p f xs keep)
  ]

  -- Rows that a query does not see, before or after the update, do not change its answer.
  pub select-update_ne :
      (p q : A → Bool) (f : A → A) (xs : List A)
      → ((a : A) → p a ≡ true → q a ≡ false)
      → ((a : A) → p a ≡ true → q (f a) ≡ false)
      → select_one q (update_where p f xs) ≡ select_one q xs
  select-update_ne p q f [] before after = refl
  select-update_ne p q f (x ∷ xs) before after = elim (Bool-cases (p x)) [
    | inl t ↦ simp (t, before x t, after x t, select-update_ne p q f xs before after)
    | inr e ↦ simp (e, select-update_ne p q f xs before after)
  ]

  -- An update that leaves the other query's WHERE clause alone changes the row that it finds, or not.
  pub select-update :
      (p q : A → Bool) (f : A → A) (xs : List A)
      → ((a : A) → q (f a) ≡ q a)
      → select_one q (update_where p f xs)
        ≡ Option.map (λ (a : A). if p a then f a else a) (select_one q xs)
  select-update p q f [] keep = refl
  select-update p q f (x ∷ xs) keep = elim (Bool-cases (p x)) [
    | inl t ↦ elim (Bool-cases (q x)) [
      | inl s ↦ simp (t, s, keep x ∙ s)
      | inr e ↦ simp (t, e, keep x ∙ e, select-update p q f xs keep)
    ]
    | inr n ↦ elim (Bool-cases (q x)) [
      | inl s ↦ simp (n, s)
      | inr e ↦ simp (n, e, select-update p q f xs keep)
    ]
  ]

  pub select-append :
      (q : A → Bool) (xs ys : List A) {a : A}
      → select_one q xs ≡ some a
      → select_one q (xs ++ ys) ≡ some a
  select-append q [] ys h = absurd (none_is_not_some h)
  select-append q (x ∷ xs) ys h = elim (Bool-cases (q x)) [
    | inl t ↦ rw t (rw t at h)
    | inr e ↦ rw e (select-append q xs ys (rw e at h))
  ]

  pub select_one-holds :
      (q : A → Bool) (xs : List A) {a : A} → select_one q xs ≡ some a → q a ≡ true
  select_one-holds q [] h = absurd (none_is_not_some h)
  select_one-holds q (x ∷ xs) h = elim (Bool-cases (q x)) [
    | inl t ↦ subst (λ (b : A). q b ≡ true) (some_same (rw t at h)) t
    | inr e ↦ select_one-holds q xs (rw e at h)
  ]
