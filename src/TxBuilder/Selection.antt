-- ===== src/TxBuilder/Selection.antt =====
-- Selecting coins for a payout (backend/src/dobbscoin/tx-builder.ts, `selectUtxos`).
use wbob_bridge.Prelude.{
  ℕ, zero, suc, ◌+◌, ◌≤◌, ◌<◌, ◌≡◌, refl, Bool, true, false, List, [], ◌∷◌, ◌++◌, arith, ltb, leb,
  if◌then◌else◌, length, length-append, take, ap, subst, ◌⊎◌,
}
use wbob_bridge.Shared.Result.{Result, ok, err}
use wbob_bridge.TxBuilder.{
  UtxoInput, TxError, insufficient_utxos, Selected, total_sat, estimate_fee, select_from,
  select_utxos, insert_largest, sort_largest,
}
use wbob_bridge.TxBuilder.Sorting.{Choice, Choice-le-largest, Choice-length, length-sort}

pub total-append : (xs ys : List UtxoInput) → total_sat (xs ++ ys) ≡ total_sat xs + total_sat ys
total-append [] ys = omega arith
total-append (x ∷ xs) ys = omega (arith, total-append xs ys)

-- What a selection promises: coins from the front of the list, worth the target and a fee that is
-- estimated for them with one output or with two.
pub record Covers (target rate : ℕ) (coins : List UtxoInput) (s : Selected) : Type 0 where
  pub left : List UtxoInput
  pub from_front : s.selected ++ left ≡ coins
  pub enough : target + s.fee_sat ≤ total_sat s.selected
  pub fee :
      (s.fee_sat ≡ estimate_fee (length s.selected) 1 rate)
      ⊎ (s.fee_sat ≡ estimate_fee (length s.selected) 2 rate)

abbrev pub SelectOutcome : ℕ → ℕ → List UtxoInput → Result TxError Selected → Type 0
SelectOutcome target rate coins (ok s) = Covers target rate coins s
SelectOutcome target rate coins (err e) = e ≡ insufficient_utxos target (total_sat coins)

pub append_assoc_one :
    (xs : List UtxoInput) (u : UtxoInput) (us : List UtxoInput)
    → (xs ++ u ∷ []) ++ us ≡ xs ++ u ∷ us
append_assoc_one [] u us = refl
append_assoc_one (x ∷ xs) u us = ap (◌∷◌ x) (append_assoc_one xs u us)

pushed_total :
    (xs : List UtxoInput) (u : UtxoInput) (total : ℕ)
    → total ≡ total_sat xs
    → total + u.amount_sat ≡ total_sat (xs ++ u ∷ [])
pushed_total xs u total e = omega (arith, total-append xs (u ∷ []))

pub append_nil : (xs : List UtxoInput) → xs ++ [] ≡ xs
append_nil [] = refl
append_nil (x ∷ xs) = ap (◌∷◌ x) (append_nil xs)

-- What the loop returns if it stops at these coins.
abbrev candidate : ℕ → ℕ → List UtxoInput → ℕ → Selected
candidate target rate selected total = record {
  selected = selected;
  fee_sat = estimate_fee (length selected) (if ltb target total then 2 else 1) rate;
}

accepted :
    (target rate total : ℕ) (selected us : List UtxoInput)
    → total ≡ total_sat selected
    → leb (target + (candidate target rate selected total).fee_sat) total ≡ true
    → Covers target rate (selected ++ us) (candidate target rate selected total)
accepted target rate total selected us e h = record {
  left = us;
  from_front = refl;
  enough = ground arith;
  fee = ground arith;
}

choose :
    (target rate : ℕ) (coins : List UtxoInput) (b : Bool) (s : Selected)
    (r : Result TxError Selected)
    → (b ≡ true → Covers target rate coins s)
    → SelectOutcome target rate coins r
    → SelectOutcome target rate coins (if b then ok s else r)
choose target rate coins true s r h k = h refl
choose target rate coins false s r h k = k

select_from-SelectOutcome :
    (target rate : ℕ) (us selected : List UtxoInput) (total : ℕ)
    → total ≡ total_sat selected
    → SelectOutcome target rate (selected ++ us) (select_from target rate us selected total)
unfolding select_from
select_from-SelectOutcome target rate [] selected total e = rw (append_nil selected, e) refl
select_from-SelectOutcome target rate (u ∷ us) selected total e =
    let pushed = selected ++ u ∷ [] in
    let total' = total + u.amount_sat in
    let e' : total' ≡ total_sat pushed = pushed_total selected u total e in
    choose target rate (selected ++ u ∷ us) _ _ _
      (λ h.
        subst (λ cs. Covers target rate cs (candidate target rate pushed total'))
          (append_assoc_one selected u us) (accepted target rate total' pushed us e' h))
      (subst (λ cs. SelectOutcome target rate cs (select_from target rate us pushed total'))
        (append_assoc_one selected u us)
        (select_from-SelectOutcome target rate us pushed total' e'))

total-insert :
    (x : UtxoInput) (ys : List UtxoInput)
    → total_sat (insert_largest x ys) ≡ x.amount_sat + total_sat ys
unfolding insert_largest
total-insert x [] = refl
total-insert x (y ∷ ys) = ground (arith, total-insert x ys)

total-sort : (us : List UtxoInput) → total_sat (sort_largest us) ≡ total_sat us
unfolding sort_largest
total-sort [] = refl
total-sort (u ∷ us) = omega (arith, total-insert u (sort_largest us), total-sort us)

-- A selection takes coins from the front of the list sorted largest first, and they cover the target
-- and the estimated fee; otherwise it throws, with the total of all the coins.
pub select_utxos-SelectOutcome :
    (available : List UtxoInput) (target rate : ℕ)
    → SelectOutcome target rate (sort_largest available) (select_utxos available target rate)
unfolding select_utxos
select_utxos-SelectOutcome available target rate =
    select_from-SelectOutcome target rate (sort_largest available) [] 0 refl

-- The loop returns by the `k`-th coin if the first `k` coins pay for themselves with two outputs.
abbrev pub Within : ℕ → Result TxError Selected → Type 0
Within k r = (s : Selected) × (r ≡ ok s) × (length s.selected ≤ k)

Within-choose :
    (k : ℕ) (b : Bool) (s : Selected) (r : Result TxError Selected)
    → length s.selected ≤ k
    → (b ≡ false → Within k r)
    → Within k (if b then ok s else r)
Within-choose k true s r le h = (s, refl, le)
Within-choose k false s r le h = h refl

fee_mono : (n rate : ℕ) → estimate_fee n 1 rate ≤ estimate_fee n 2 rate
unfolding estimate_fee
fee_mono n rate = grind arith

pays :
    (target rate n total : ℕ)
    → target + estimate_fee n 2 rate ≤ total
    → leb (target + estimate_fee n (if ltb target total then 2 else 1) rate) total ≡ true
pays target rate n total h = ground (arith, fee_mono n rate)

pub length-pushed : (xs : List UtxoInput) (u : UtxoInput) → length (xs ++ u ∷ []) ≡ suc (length xs)
length-pushed xs u = omega (arith, length-append xs (u ∷ []))

true≢false : {b : Bool} {A : Type 0} → b ≡ true → b ≡ false → A
true≢false t f = absurd (cc)

select_from-Within :
    (k n target rate : ℕ) (us selected : List UtxoInput) (total : ℕ)
    → n ≡ length selected + suc k
    → suc k ≤ length us
    → target + estimate_fee n 2 rate ≤ total + total_sat (take (suc k) us)
    → Within n (select_from target rate us selected total)
unfolding select_from
select_from-Within k n target rate [] selected total e le h = absurd (omega arith)
select_from-Within zero n target rate (u ∷ us) selected total e le h =
    let pushed = selected ++ u ∷ [] in
    let total' = total + u.amount_sat in
    let same : n ≡ length pushed = omega (arith, length-pushed selected u) in
    let covered : target + estimate_fee n 2 rate ≤ total' = omega arith in
    let h' : target + estimate_fee (length pushed) 2 rate ≤ total' = rw same at covered in
    Within-choose n _ (candidate target rate pushed total') _ (omega arith)
      (true≢false (pays target rate (length pushed) total' h'))
select_from-Within (suc k) n target rate (u ∷ us) selected total e le h =
    let pushed = selected ++ u ∷ [] in
    let total' = total + u.amount_sat in
    Within-choose n _ (candidate target rate pushed total') _
      (omega (arith, length-pushed selected u))
      (λ _.
        select_from-Within k n target rate us pushed total'
          (omega (arith, length-pushed selected u)) (omega arith) (omega arith))

-- Largest first is as good as any choice: if some of the coins cover the target and the fee of
-- spending them with a change output, the selection succeeds with no more coins than those.
pub select_utxos_minimal :
    (available : List UtxoInput) (target rate : ℕ) {coins : List UtxoInput}
    → 0 < target
    → Choice coins available
    → target + estimate_fee (length coins) 2 rate ≤ total_sat coins
    → Within (length coins) (select_utxos available target rate)
unfolding select_utxos
select_utxos_minimal available target rate {coins = []} p c h = absurd (omega arith)
select_utxos_minimal available target rate {coins = u ∷ us} p c h =
    select_from-Within (length us) (suc (length us)) target rate (sort_largest available) [] 0
      (omega arith) (omega (arith, length-sort available, Choice-length c))
      (omega (arith, Choice-le-largest c))

fee_positive :
    (rate : ℕ)
    → 0 < rate
    → (0 < estimate_fee 1 1 rate) × (estimate_fee 1 1 rate < estimate_fee 1 2 rate)
unfolding estimate_fee
fee_positive rate h = (omega arith, omega arith)

-- A coin worth exactly the payout and the fee of a transaction without change is refused: any excess
-- over the bare target, the fee's part included, is charged for a change output.
pub exact_coin_refused :
    (u : UtxoInput) (target rate : ℕ)
    → 0 < rate
    → u.amount_sat ≡ target + estimate_fee 1 1 rate
    → select_utxos (u ∷ []) target rate ≡ err (insufficient_utxos target u.amount_sat)
unfolding select_utxos
exact_coin_refused u target rate r e = ground (arith, fee_positive rate r)
