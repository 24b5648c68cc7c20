-- ===== src/Payout/Coins.antt =====
-- The coins of the pool under the operations of backend/src/executor/payout-executor.ts.
use mathlib.Core.Option
use wbob_bridge.Prelude.{
  ℕ, ◌≡◌, refl, ◌∙◌, ap, Bool, true, false, some, List, [], ◌∷◌, ◌++◌, arith, ltb, if◌then◌else◌,
  Bool-cases, Option-cases, inl, inr,
}
use wbob_bridge.Prelude.Tables.{select_one, update_where, any_row, select-update, select-append}
use wbob_bridge.TxBuilder.RawTx.{TxInput}
use wbob_bridge.Payout.Tables.{BridgeUtxo, available, is_outpoint, has_status}
use wbob_bridge.Payout.Broadcast.{
  SignedPayoutRow, set_spent, set_spent_by, spend_inputs, ingest_change,
}

abbrev pub is_taken : BridgeUtxo → Bool
is_taken u = if has_status available u then false else true

-- A coin that is reserved or spent stays so.
abbrev pub KeepsTaken : List BridgeUtxo → List BridgeUtxo → Type 0
KeepsTaken us us' =
    (t v : ℕ) (u : BridgeUtxo)
    → select_one (is_outpoint t v) us ≡ some u
    → is_taken u ≡ true
    → (u' : BridgeUtxo) × ((select_one (is_outpoint t v) us' ≡ some u') × (is_taken u' ≡ true))

pub KeepsTaken-refl : (us : List BridgeUtxo) → KeepsTaken us us
KeepsTaken-refl us t v u h taken = (u, (h, taken))

pub KeepsTaken-trans :
    (us vs ws : List BridgeUtxo) → KeepsTaken us vs → KeepsTaken vs ws → KeepsTaken us ws
KeepsTaken-trans us vs ws f g t v u h taken =
    let (u', (h', taken')) = f t v u h taken in g t v u' h' taken'

-- An update that leaves the outpoints alone and frees nothing.
pub KeepsTaken-update :
    (p : BridgeUtxo → Bool) (f : BridgeUtxo → BridgeUtxo) (us : List BridgeUtxo)
    → ((t v : ℕ) (u : BridgeUtxo) → is_outpoint t v (f u) ≡ is_outpoint t v u)
    → ((u : BridgeUtxo) → is_taken u ≡ true → is_taken (if p u then f u else u) ≡ true)
    → KeepsTaken us (update_where p f us)
KeepsTaken-update p f us same keep t v u h taken = (
  if p u then f u else u,
  (
    select-update p (is_outpoint t v) f us (same t v)
        ∙ ap (Option.map (λ (a : BridgeUtxo). if p a then f a else a)) h,
    keep u taken,
  ),
)

KeepsTaken-append : (us vs : List BridgeUtxo) → KeepsTaken us (us ++ vs)
KeepsTaken-append us vs t v u h taken = (u, (select-append (is_outpoint t v) us vs h, taken))

pub KeepsTaken-spend :
    (p : BridgeUtxo → Bool) (us : List BridgeUtxo) → KeepsTaken us (update_where p set_spent us)
KeepsTaken-spend p us = KeepsTaken-update p set_spent us (λ t v u. refl) (λ u taken. ground arith)

pub KeepsTaken-spend_inputs :
    (payout_id : ℕ) (is : List TxInput) (us : List BridgeUtxo)
    → KeepsTaken us (spend_inputs payout_id is us)
unfolding spend_inputs
KeepsTaken-spend_inputs payout_id [] us = KeepsTaken-refl us
KeepsTaken-spend_inputs payout_id (i ∷ is) us =
    let us' = update_where (is_outpoint i.txid i.vout) (set_spent_by payout_id) us in
    KeepsTaken-trans us us' (spend_inputs payout_id is us')
      (KeepsTaken-update (is_outpoint i.txid i.vout) (set_spent_by payout_id) us (λ t v u. refl)
        (λ u taken. ground arith))
      (KeepsTaken-spend_inputs payout_id is us')

pub KeepsTaken-ingest_change :
    (row : SignedPayoutRow) (txid : ℕ) (us : List BridgeUtxo)
    → KeepsTaken us (ingest_change row txid us)
unfolding ingest_change
KeepsTaken-ingest_change row txid us = elim (Bool-cases (ltb 0 row.change_sat)) [
  | inr no_change ↦ rw (no_change, ingest_change) (KeepsTaken-refl us)
  | inl change ↦ elim (Option-cases row.change_address) [
    | inl e ↦ rw (change, ingest_change, e) (KeepsTaken-refl us)
    | inr (address, e) ↦ elim (Option-cases row.change_index) [
      | inl e' ↦ rw (change, ingest_change, e, e') (KeepsTaken-refl us)
      | inr (index, e') ↦ elim (Bool-cases (any_row (is_outpoint txid 1) us)) [
        | inl there ↦ rw (change, ingest_change, e, e', there) (KeepsTaken-refl us)
        | inr fresh ↦ rw (change, ingest_change, e, e', fresh) (KeepsTaken-append us _)
      ]
    ]
  ]
]
