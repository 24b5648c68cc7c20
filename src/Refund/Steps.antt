-- ===== src/Refund/Steps.antt =====
-- The diagram at the top of backend/src/executor/refund-executor.ts, and updates that follow it.
use mathlib.Core.Option
use wbob_bridge.Prelude.{
  ℕ, ◌≡◌, refl, ◌∙◌, sym, ap, Bool, true, false, ◌||◌, some, List, if◌then◌else◌, Bool-cases, inl,
  inr, arith, subst,
}
use wbob_bridge.Prelude.Tables.{select_one, update_where, select-update, select_one-holds}
use wbob_bridge.Refund.Rows.{
  RefundStatus, RefundRow, queued, signed, broadcast, confirmed, needs_attention, too_small,
  same_status, status_code, refund_is, is_refund_in,
}

abbrev pub refund_edge : RefundStatus → RefundStatus → Bool
refund_edge queued to =
    same_status to signed || (same_status to needs_attention || same_status to too_small)
refund_edge signed to = same_status to broadcast || same_status to needs_attention
refund_edge broadcast to = same_status to confirmed
refund_edge confirmed to = false
refund_edge needs_attention to = false
refund_edge too_small to = false

-- A walk along the diagram.
pub data RefundWalk (s : RefundStatus) : RefundStatus → Type 0 where
  rest : RefundWalk s s
  onward : {t u : RefundStatus} → RefundWalk s t → refund_edge t u ≡ true → RefundWalk s u

pub walk_on : {s t u : RefundStatus} → RefundWalk s t → RefundWalk t u → RefundWalk s u
walk_on w rest = w
walk_on w (onward w' e) = onward (walk_on w w') e

-- Every refund is still there, further along the diagram or where it was.
abbrev pub Steps : List RefundRow → List RefundRow → Type 0
Steps rows rows' =
    (i : ℕ) (r : RefundRow)
    → select_one (refund_is i) rows ≡ some r
    → (r' : RefundRow) × ((select_one (refund_is i) rows' ≡ some r')
        × RefundWalk r.status r'.status)

pub Steps-refl : (rows : List RefundRow) → Steps rows rows
Steps-refl rows i r h = (r, (h, rest))

pub Steps-trans : (a b c : List RefundRow) → Steps a b → Steps b c → Steps a c
Steps-trans a b c f g i r h =
    let (r', (h', w)) = f i r h in let (r'', (h'', w')) = g i r' h' in (r'', (h'', walk_on w w'))

-- An update that keeps the ids and moves the rows that it finds along the diagram.
pub Steps-update :
    (p : RefundRow → Bool) (f : RefundRow → RefundRow) (rows : List RefundRow)
    → ((i : ℕ) (r : RefundRow) → refund_is i (f r) ≡ refund_is i r)
    → ((i : ℕ) (r : RefundRow)
        → select_one (refund_is i) rows ≡ some r
        → p r ≡ true
        → RefundWalk r.status (f r).status)
    → Steps rows (update_where p f rows)
Steps-update p f rows keep walks i r h =
    let after =
      select-update p (refund_is i) f rows (keep i)
      ∙ ap (Option.map (λ (x : RefundRow). if p x then f x else x)) h in
    elim (Bool-cases (p r)) [
      | inl hit ↦ (f r, (after ∙ rw hit refl, walks i r h hit))
      | inr miss ↦ (r, (after ∙ rw miss refl, rest))
    ]

status_code-injective : (a b : RefundStatus) → status_code a ≡ status_code b → a ≡ b
status_code-injective a b h = ground arith

pub status_is : (a b : RefundStatus) → same_status a b ≡ true → a ≡ b
status_is a b h = status_code-injective a b (ground arith)

-- One edge, from the status that a row was found in.
pub one_edge :
    (r : RefundRow) (from to : RefundStatus)
    → same_status r.status from ≡ true
    → refund_edge from to ≡ true
    → RefundWalk r.status to
one_edge r from to found edge =
    onward rest (subst (λ s. refund_edge s to ≡ true) (sym (status_is r.status from found)) edge)

-- UPDATE … WHERE id = … AND status = from, along an edge.
pub Steps-guarded :
    (i : ℕ) (from to : RefundStatus) (f : RefundRow → RefundRow) (rows : List RefundRow)
    → ((j : ℕ) (r : RefundRow) → refund_is j (f r) ≡ refund_is j r)
    → ((r : RefundRow) → (f r).status ≡ to)
    → refund_edge from to ≡ true
    → Steps rows (update_where (is_refund_in i from) f rows)
Steps-guarded i from to f rows keep sets edge =
    Steps-update (is_refund_in i from) f rows keep (λ j r h hit.
      subst (λ s. RefundWalk r.status s) (sym (sets r)) (one_edge r from to (ground arith) edge))

-- UPDATE … WHERE id = …, once the row was found in a status.
pub Steps-checked :
    (i : ℕ) (from to : RefundStatus) (f : RefundRow → RefundRow) (rows : List RefundRow)
    → ((r : RefundRow) → select_one (refund_is i) rows ≡ some r → same_status r.status from ≡ true)
    → ((j : ℕ) (r : RefundRow) → refund_is j (f r) ≡ refund_is j r)
    → ((r : RefundRow) → (f r).status ≡ to)
    → refund_edge from to ≡ true
    → Steps rows (update_where (refund_is i) f rows)
Steps-checked i from to f rows here keep sets edge =
    Steps-update (refund_is i) f rows keep (λ j r h hit.
      subst (λ s. RefundWalk r.status s) (sym (sets r))
        (one_edge r from to
          (here r (
            subst (λ k. select_one (refund_is k) rows ≡ some r)
              (ids j r (select_one-holds (refund_is j) rows h) hit) h))
          edge))
  where
    ids : (j : ℕ) (r : RefundRow) → refund_is j r ≡ true → refund_is i r ≡ true → j ≡ i
    ids j r m n = ground arith

-- An update that leaves the statuses alone.
pub Steps-still :
    (p : RefundRow → Bool) (f : RefundRow → RefundRow) (rows : List RefundRow)
    → ((j : ℕ) (r : RefundRow) → refund_is j (f r) ≡ refund_is j r)
    → ((r : RefundRow) → (f r).status ≡ r.status)
    → Steps rows (update_where p f rows)
Steps-still p f rows keep same =
    Steps-update p f rows keep (λ j r h hit. subst (λ s. RefundWalk r.status s) (sym (same r)) rest)
