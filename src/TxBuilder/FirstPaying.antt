-- ===== src/TxBuilder/FirstPaying.antt =====
-- When a selection of coins for a payout stops, and when it throws
-- (backend/src/dobbscoin/tx-builder.ts, `selectUtxos`).
use wbob_bridge.Prelude.{
  ℕ, zero, suc, ◌+◌, ◌≤◌, ◌<◌, ◌≡◌, refl, sym, ap, subst, true, false, List, [], ◌∷◌, ◌++◌, arith,
  ltb, leb, if◌then◌else◌, length, length-append, take, All, Bool-cases, inl, inr,
}
use mathlib.Core.List.Perm
use mathlib.Core.List.{Perm}
use wbob_bridge.Shared.Result.{Result, ok, err}
use wbob_bridge.TxBuilder.{
  UtxoInput, TxError, insufficient_utxos, Selected, total_sat, estimate_fee, select_from,
  select_utxos, insert_largest, sort_largest,
}
use wbob_bridge.TxBuilder.Sorting.{Descending, sort-Descending}
use wbob_bridge.TxBuilder.Selection.{total-append, append_assoc_one, append_nil, length-pushed}

insert-Perm : (x : UtxoInput) (ys : List UtxoInput) → Perm (insert_largest x ys) (x ∷ ys)
unfolding insert_largest
insert-Perm x [] = Perm.rfl
insert-Perm x (y ∷ ys) = elim (Bool-cases (ltb x.amount_sat y.amount_sat)) [
  | inl e ↦ rw e (Perm.trans (Perm.cons y (insert-Perm x ys)) (Perm.swap x y ys))
  | inr e ↦ rw e (Perm.rfl)
]

sort-Perm : (us : List UtxoInput) → Perm (sort_largest us) us
unfolding sort_largest
sort-Perm [] = Perm.rfl
sort-Perm (u ∷ us) = Perm.trans (insert-Perm u (sort_largest us)) (Perm.cons u (sort-Perm us))

-- The numbers below `n`.
abbrev pub below : ℕ → List ℕ
below zero = []
below (suc n) = n ∷ below n

-- The fee that is counted for coins of this total: with a change output if they exceed the target.
abbrev pub counted_fee : ℕ → ℕ → List UtxoInput → ℕ
counted_fee target rate coins =
    estimate_fee (length coins) (if ltb target (total_sat coins) then 2 else 1) rate

-- The coins do not pay for the target and their fee.
abbrev pub IsShort : ℕ → ℕ → List UtxoInput → Type 0
IsShort target rate coins = total_sat coins < target + counted_fee target rate coins

-- None of the first one, two, … `n` coins pay.
abbrev pub AllShort : ℕ → ℕ → List UtxoInput → ℕ → Type 0
AllShort target rate coins n = All (λ (k : ℕ). IsShort target rate (take (suc k) coins)) (below n)

-- The first coins that pay, and no fewer.
pub record FirstPaying (target rate : ℕ) (coins : List UtxoInput) (s : Selected) : Type 0 where
  pub last : ℕ
  pub in_range : suc last ≤ length coins
  pub taken : s.selected ≡ take (suc last) coins
  pub fee : s.fee_sat ≡ counted_fee target rate s.selected
  pub enough : target + s.fee_sat ≤ total_sat s.selected
  pub no_fewer : AllShort target rate coins last

abbrev pub StopOutcome : ℕ → ℕ → List UtxoInput → Result TxError Selected → Type 0
StopOutcome target rate coins (ok s) = FirstPaying target rate coins s
StopOutcome target rate coins (err e) =
    (e ≡ insufficient_utxos target (total_sat coins)) × AllShort target rate coins (length coins)

take-pushed :
    (xs : List UtxoInput) (u : UtxoInput) (us : List UtxoInput)
    → take (suc (length xs)) (xs ++ u ∷ us) ≡ xs ++ u ∷ []
take-pushed [] u us = refl
take-pushed (x ∷ xs) u us = ap (◌∷◌ x) (take-pushed xs u us)

pushed_total :
    (xs : List UtxoInput) (u : UtxoInput) → total_sat xs + u.amount_sat ≡ total_sat (xs ++ u ∷ [])
pushed_total xs u = omega (arith, total-append xs (u ∷ []))

short_of_test : (target fee total : ℕ) → leb (target + fee) total ≡ false → total < target + fee
short_of_test target fee total h = ground arith

paying_of_test : (target fee total : ℕ) → leb (target + fee) total ≡ true → target + fee ≤ total
paying_of_test target fee total h = ground arith

module _ (target rate : ℕ) where
  -- The loop stops at the coins pushed by now.
  stops :
      (selected : List UtxoInput) (u : UtxoInput) (us : List UtxoInput)
      → AllShort target rate (selected ++ u ∷ us) (length selected)
      → leb (target + counted_fee target rate (selected ++ u ∷ [])) (total_sat (selected ++ u ∷ []))
        ≡ true
      → FirstPaying target rate (selected ++ u ∷ us) (record {
        selected = selected ++ u ∷ [];
        fee_sat = counted_fee target rate (selected ++ u ∷ []);
      })
  stops selected u us short pays = record {
    last = length selected;
    in_range = omega (arith, length-append selected (u ∷ us));
    taken = sym (take-pushed selected u us);
    fee = refl;
    enough = paying_of_test target _ _ pays;
    no_fewer = short;
  }

  -- The loop goes on, with one coin more that does not pay.
  goes_on :
      (selected : List UtxoInput) (u : UtxoInput) (us : List UtxoInput)
      → AllShort target rate (selected ++ u ∷ us) (length selected)
      → leb (target + counted_fee target rate (selected ++ u ∷ [])) (total_sat (selected ++ u ∷ []))
        ≡ false
      → AllShort target rate ((selected ++ u ∷ []) ++ us) (length (selected ++ u ∷ []))
  goes_on selected u us short fails =
      rw (append_assoc_one selected u us, length-pushed selected u)
        (
          (subst (IsShort target rate) (sym (take-pushed selected u us))
              (short_of_test target _ _ fails)),
          short,
        )

  select_from-StopOutcome :
      (us selected : List UtxoInput)
      → AllShort target rate (selected ++ us) (length selected)
      → StopOutcome target rate
          (selected ++ us)
          (select_from target rate us selected (total_sat selected))
  unfolding select_from
  select_from-StopOutcome [] selected short = (
    ap (λ xs. insufficient_utxos target (total_sat xs)) (sym (append_nil selected)),
    subst (λ xs. AllShort target rate (selected ++ []) (length xs)) (sym (append_nil selected))
        short,
  )
  select_from-StopOutcome (u ∷ us) selected short =
      rw (select_from, pushed_total selected u)
        (elim (Bool-cases (
          leb (target + counted_fee target rate (selected ++ u ∷ []))
            (total_sat (selected ++ u ∷ [])))) [
              | inl pays ↦ rw pays (stops selected u us short pays)
              | inr fails ↦ rw fails (
                  subst
                    (λ xs. StopOutcome target rate xs (
                      select_from target rate us (selected ++ u ∷ [])
                        (total_sat (selected ++ u ∷ []))))
                    (append_assoc_one selected u us)
                    (select_from-StopOutcome us (selected ++ u ∷ [])
                      (goes_on selected u us short fails)))
            ])

-- What `selectUtxos` does with the coins: it sorts all of them by amount, the largest first, and
-- takes the first ones that pay for the target and their own fee, and no fewer; it throws, with the
-- total, where no number of the first ones pays.
pub record SortedOutcome (available : List UtxoInput) (target rate : ℕ)
    (answer : Result TxError Selected) : Type 0 where
  pub sorted : List UtxoInput
  pub same_coins : Perm sorted available
  pub descending : Descending sorted
  pub stop : StopOutcome target rate sorted answer

-- There is an order of the coins, a permutation of them with the largest first, such that the
-- selection is the first coins that cover the target and their fee, and no fewer; where it throws
-- instead, with the target and the total, none of the first one, two, … up to all coins cover that.
pub select_utxos-SortedOutcome :
    (available : List UtxoInput) (target rate : ℕ)
    → SortedOutcome available target rate (select_utxos available target rate)
unfolding select_utxos
select_utxos-SortedOutcome available target rate = record {
  sorted = sort_largest available;
  same_coins = sort-Perm available;
  descending = sort-Descending available;
  stop = select_from-StopOutcome target rate (sort_largest available) [] tt;
}
