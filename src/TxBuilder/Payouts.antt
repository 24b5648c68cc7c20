-- ===== src/TxBuilder/Payouts.antt =====
-- Building a payout (backend/src/dobbscoin/tx-builder.ts, `buildPayoutTx`).
use wbob_bridge.Prelude.{
  ℕ, ◌+◌, ◌≤◌, ◌<◌, ◌≡◌, refl, subst, ◌-◌, List, [], ◌∷◌, arith, ltb, leb, if◌then◌else◌, All,
  Bool-cases, inl, inr,
}
use wbob_bridge.Prelude.Text.{Text}
use wbob_bridge.Shared.Result.{Result, ok, Result-cases}
use wbob_bridge.TxBuilder.{
  UtxoInput, TxOutputSpec, TxError, Selected, BuildTxResult, SignedTx, total_sat,
  dust_threshold_sat, outputs_with_change, select_utxos, sort_largest, finish_payout,
  build_payout_tx,
}
use wbob_bridge.TxBuilder.Selection.{SelectOutcome, select_utxos-SelectOutcome}

abbrev pub outputs_total : List TxOutputSpec → ℕ
outputs_total [] = 0
outputs_total (o ∷ os) = o.amount_sat + outputs_total os

module _ (sign : List UtxoInput → List TxOutputSpec → Result TxError SignedTx) where
  -- What was signed, and how the result accounts for it.
  pub record Accounts (payout : ℕ) (recipient : Text) (r : BuildTxResult) : Type 0 where
    pub outputs : List TxOutputSpec
    pub change_outputs : List TxOutputSpec
    pub signed : sign r.inputs outputs ≡ ok (record { raw_hex = r.raw_hex; txid = r.txid })
    pub recipient_first :
        outputs ≡ record { address = recipient; amount_sat = payout } ∷ change_outputs
    pub change : outputs_total change_outputs ≡ r.change_sat
    pub conserved : outputs_total outputs + r.fee_sat ≡ r.input_amount_sat
    pub inputs_total : r.input_amount_sat ≡ total_sat r.inputs
    pub no_dust : All (λ (o : TxOutputSpec). dust_threshold_sat < o.amount_sat) outputs

  finish-Accounts :
      (payout : ℕ) (recipient change_address : Text) (s : Selected) {r : BuildTxResult}
      → dust_threshold_sat < payout
      → payout + s.fee_sat ≤ total_sat s.selected
      → finish_payout sign payout recipient change_address s ≡ ok r
      → Accounts payout recipient r
  unfolding finish_payout
  finish-Accounts payout recipient change_address s dust enough h =
      elim (Result-cases (sign s.selected outs)) [
        | inr (e, bad) ↦ absurd (ground arith)
        | inl (tx, good) ↦ record {
          outputs = outs;
          change_outputs = changes;
          signed = ground arith;
          recipient_first = refl;
          change = ground arith;
          conserved = ground arith;
          inputs_total = ground arith;
          no_dust = ground arith;
        }
      ]
    where
      change : ℕ
      change = total_sat s.selected - payout - s.fee_sat

      changes : List TxOutputSpec
      changes =
          if ltb dust_threshold_sat change
          then record { address = change_address; amount_sat = change } ∷ []
          else []

      outs : List TxOutputSpec
      outs = outputs_with_change recipient payout change_address change

  -- A payout that is built pays the recipient exactly the burned amount, at output 0, and every
  -- satoshi of its inputs goes to an output or to the fee; no output is dust.
  pub build_payout_tx-Accounts :
      (utxos : List UtxoInput) (payout : ℕ) (recipient change_address : Text) (rate : ℕ)
      {r : BuildTxResult}
      → build_payout_tx sign utxos payout recipient change_address rate ≡ ok r
      → Accounts payout recipient r
  unfolding build_payout_tx
  build_payout_tx-Accounts utxos payout recipient change_address rate h =
      elim (Bool-cases (leb payout dust_threshold_sat)) [
        | inl e ↦ absurd (ground arith)
        | inr e ↦ elim (Result-cases (select_utxos utxos payout rate)) [
          | inr (x, bad) ↦ absurd (cc (rw (build_payout_tx, e, bad) at h))
          | inl (s, good) ↦
              finish-Accounts payout recipient change_address s (ground arith) (covered s good)
                (rw (build_payout_tx, e, good) at h)
        ]
      ]
    where
      covered :
          (s : Selected)
          → select_utxos utxos payout rate ≡ ok s
          → payout + s.fee_sat ≤ total_sat s.selected
      covered s good =
          (subst (SelectOutcome payout rate (sort_largest utxos)) good
            (select_utxos-SelectOutcome utxos payout rate)).enough
