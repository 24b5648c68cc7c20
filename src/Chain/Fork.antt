-- ===== src/Chain/Fork.antt =====
-- The walk and the difference of `computeDiff` (watcher/src/chain/reorg-detector.ts).
use wbob_bridge.Prelude.{
  ℕ, zero, suc, ◌+◌, ◌≤◌, ◌<◌, ◌≡◌, refl, sym, ap, subst, ◌≢◌, inl, inr, Bool, true, false, Option,
  some, List, [], ◌∷◌, ◌++◌, arith, ltb, ◌==◌, Bool-cases, Option-cases,
}
use wbob_bridge.Shared.Result.{Result, ok, err}
use wbob_bridge.Chain.{
  BlockHeader, DiffError, ReorgResult, unfinished, get_header, orphans_above, insert_asc, sort_asc,
  walked_enough, with_header, walk_back, diff_of, compute_diff,
}

-- The blocks grow from one to the other, each on the one before.
abbrev pub Chained : BlockHeader → List BlockHeader → BlockHeader → Type 0
Chained a [] b = a ≡ b
Chained a (x ∷ xs) b =
    (x.previousblockhash ≡ some a.hash) × ((x.height ≡ a.height + 1) × Chained x xs b)

Chained-rises : (a b : BlockHeader) (xs : List BlockHeader) → Chained a xs b → a.height ≤ b.height
Chained-rises a b [] c = subst (λ (h : BlockHeader). a.height ≤ h.height) c (omega arith)
Chained-rises a b (x ∷ xs) (p, (h, c)) = let r = Chained-rises x b xs c in omega arith

Chained-snoc :
    (a b h : BlockHeader) (xs : List BlockHeader)
    → Chained a xs b
    → h.previousblockhash ≡ some b.hash
    → h.height ≡ b.height + 1
    → Chained a (xs ++ h ∷ []) h
Chained-snoc a b h [] c p e =
    subst (λ (x : BlockHeader). Chained x (h ∷ []) h) (sym c) (p, (e, refl))
Chained-snoc a b h (x ∷ xs) (q, (d, c)) p e = (q, (d, Chained-snoc x b h xs c p e))

insert_top :
    (a b h : BlockHeader) (xs : List BlockHeader)
    → Chained a xs b
    → h.height ≡ b.height + 1
    → insert_asc h xs ≡ xs ++ h ∷ []
unfolding insert_asc
insert_top a b h [] c e = refl
insert_top a b h (x ∷ xs) (q, (d, c)) e =
    let r = Chained-rises x b xs c in
    let below : ltb x.height h.height ≡ true = ground arith in
    rw below (ap (λ ys. x ∷ ys) (insert_top x b h xs c e))

-- The node answers with the block that was asked for, and a block stands one above its parent.
pub record IsHonest (fetch_header : ℕ → Option BlockHeader) : Type 0 where
  pub names : (c : ℕ) {h : BlockHeader} → fetch_header c ≡ some h → h.hash ≡ c
  pub steps :
      (c p : ℕ) {h b : BlockHeader}
      → fetch_header c ≡ some h
      → h.previousblockhash ≡ some p
      → fetch_header p ≡ some b
      → h.height ≡ b.height + 1

-- The window holds what the node answered.
abbrev pub Remembers : (ℕ → Option BlockHeader) → List BlockHeader → Type 0
Remembers fetch_header window =
    (c : ℕ) (h : BlockHeader) → get_header c window ≡ some h → fetch_header c ≡ some h

module _ (fetch_header : ℕ → Option BlockHeader) (window : List BlockHeader) (max_walk : Option ℕ)
    (honest : IsHonest fetch_header) where
  -- The fetched headers, sorted by height, grow from the known block to the cursor's.
  abbrev Fetched : ℕ → Result DiffError (List BlockHeader × BlockHeader) → Type 0
  Fetched c (err e) = Unit
  Fetched c (ok (hs, a)) =
      (b : BlockHeader) × ((fetch_header c ≡ some b) × Chained a (sort_asc hs) b)

  Fetched-with :
      (c p : ℕ) (h : BlockHeader) (r : Result DiffError (List BlockHeader × BlockHeader))
      → fetch_header c ≡ some h
      → h.previousblockhash ≡ some p
      → Fetched p r
      → Fetched c (with_header h r)
  unfolding sort_asc
  Fetched-with c p h (err e) got prev f = tt
  Fetched-with c p h (ok (hs, a)) got prev (b, (at, chain)) =
      let up = honest.steps c p got prev at in
      (
        h,
        (
          got,
          rw (insert_top a b h (sort_asc hs) chain up)
              (Chained-snoc a b h (sort_asc hs) chain (rw (honest.names p at) prev) up),
        ),
      )

  walk_back-Fetched :
      (fuel n c : ℕ)
      → Remembers fetch_header window
      → Fetched c (walk_back fetch_header window max_walk fuel n c)
  unfolding walk_back sort_asc
  walk_back-Fetched zero n c kept = tt
  walk_back-Fetched (suc fuel) n c kept = elim (Option-cases (get_header c window)) [
    | inr (a, known) ↦ rw (known, walk_back) (a, (kept c a known, refl))
    | inl new ↦ elim (Bool-cases (walked_enough max_walk n)) [
      | inl enough ↦ rw (new, walk_back, enough) tt
      | inr go ↦ elim (Option-cases (fetch_header c)) [
        | inl bad ↦ rw (new, walk_back, go, bad) tt
        | inr (h, got) ↦ elim (Option-cases h.previousblockhash) [
          | inl first ↦ rw (new, walk_back, go, got, first) tt
          | inr (p, prev) ↦
              rw (new, walk_back, go, got, prev)
                (Fetched-with c p h _ got prev (walk_back-Fetched fuel (n + 1) p kept))
        ]
      ]
    ]
  ]

  abbrev found : ReorgResult → Result DiffError (Option ReorgResult) → ReorgResult
  found d (ok (some e)) = e
  found d _ = d

  Fetched-diff :
      (c : ℕ) (r : Result DiffError (List BlockHeader × BlockHeader)) {d : ReorgResult}
      → Fetched c r
      → diff_of fetch_header window max_walk r ≡ ok (some d)
      → (b : BlockHeader) × ((fetch_header c ≡ some b) × Chained d.common_ancestor d.added b)
  Fetched-diff c (err e) f h = absurd (ground arith)
  Fetched-diff c (ok (hs, a)) {d} f h =
      let start : ReorgResult = record {
        orphaned = orphans_above fetch_header window max_walk a;
        added = sort_asc hs;
        common_ancestor = a;
      } in
      subst
        (λ (r : ReorgResult).
          (b : BlockHeader) × ((fetch_header c ≡ some b) × Chained r.common_ancestor r.added b))
        (ap (found start) h) f

  -- What `computeDiff` adds is a chain, lowest block first: it starts on the common ancestor and ends
  -- with the new tip, if the node is honest and the window holds what it answered.
  pub compute_diff-Chained :
      (fuel new_tip old_tip : ℕ) {d : ReorgResult}
      → Remembers fetch_header window
      → compute_diff fetch_header window max_walk fuel new_tip old_tip ≡ ok (some d)
      → (tip : BlockHeader) × ((fetch_header new_tip ≡ some tip)
          × Chained d.common_ancestor d.added tip)
  unfolding compute_diff
  compute_diff-Chained fuel new_tip old_tip kept h = elim (Bool-cases (new_tip == old_tip)) [
    | inl same ↦ absurd (ground arith)
    | inr moved ↦
        Fetched-diff new_tip _ (walk_back-Fetched fuel 0 new_tip kept)
          (rw (compute_diff, moved) at h)
  ]

  abbrev is_unfinished : Result DiffError (List BlockHeader × BlockHeader) → Bool
  is_unfinished (ok r) = false
  is_unfinished (err unfinished) = true
  is_unfinished (err _) = false

  finished-with :
      (h : BlockHeader) (r : Result DiffError (List BlockHeader × BlockHeader))
      → is_unfinished r ≡ false
      → is_unfinished (with_header h r) ≡ false
  finished-with h (ok r) e = refl
  finished-with h (err x) e = e

  walk_finishes :
      (fuel n c : ℕ)
      → 0 < fuel
      → ((h : BlockHeader) → fetch_header c ≡ some h → h.height + 1 < fuel)
      → is_unfinished (walk_back fetch_header window max_walk fuel n c) ≡ false
  unfolding walk_back
  walk_finishes zero n c pos enough = absurd (omega arith)
  walk_finishes (suc fuel) n c pos enough = elim (Option-cases (get_header c window)) [
    | inr (a, known) ↦ rw (known, walk_back) refl
    | inl new ↦ elim (Bool-cases (walked_enough max_walk n)) [
      | inl far ↦ rw (new, walk_back, far) refl
      | inr go ↦ elim (Option-cases (fetch_header c)) [
        | inl bad ↦ rw (new, walk_back, go, bad) refl
        | inr (h, got) ↦ elim (Option-cases h.previousblockhash) [
          | inl first ↦ rw (new, walk_back, go, got, first) refl
          | inr (p, prev) ↦
              rw (new, walk_back, go, got, prev)
                (finished-with h _ (
                  walk_finishes fuel (n + 1) p (let e = enough h got in omega arith) (λ b at.
                    let e = enough h got in let up = honest.steps c p got prev at in omega arith)))
        ]
      ]
    ]
  ]

  diff_finished :
      (r : Result DiffError (List BlockHeader × BlockHeader))
      → is_unfinished r ≡ false
      → diff_of fetch_header window max_walk r ≡ err unfinished
      → ⊥
  diff_finished (ok r) e h = ground arith
  diff_finished (err x) e h = ground arith

  -- The walk always ends: fuel of two more than the new tip's height is enough, if the node is honest.
  pub compute_diff_ends :
      (fuel new_tip old_tip : ℕ) (tip : BlockHeader)
      → fetch_header new_tip ≡ some tip
      → tip.height + 1 < fuel
      → compute_diff fetch_header window max_walk fuel new_tip old_tip ≢ err unfinished
  unfolding compute_diff
  compute_diff_ends fuel new_tip old_tip tip got enough = elim (Bool-cases (new_tip == old_tip)) [
    | inl same ↦ rw (compute_diff, same) λ h. ground arith
    | inr moved ↦
        rw (compute_diff, moved)
          (diff_finished _ (walk_finishes fuel 0 new_tip (omega arith) enough_for_tip))
  ]
    where
      enough_for_tip : (h : BlockHeader) → fetch_header new_tip ≡ some h → h.height + 1 < fuel
      enough_for_tip h at = ground arith
