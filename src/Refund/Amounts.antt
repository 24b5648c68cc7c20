-- ===== src/Refund/Amounts.antt =====
-- What a refund transaction pays (backend/src/dobbscoin/tx-builder.ts, `buildRefundTx`).
use wbob_bridge.Prelude.{
  ℕ, ◌+◌, ◌≤◌, ◌<◌, ◌≡◌, refl, sym, ◌∙◌, subst, Option, List, [], ◌∷◌, ltb, if◌then◌else◌, arith,
  length, inl, inr,
}
use wbob_bridge.Prelude.Text.{Text}
use wbob_bridge.Shared.Result.{Result, ok, err, Result-cases}
use wbob_bridge.TxBuilder.{
  UtxoInput, TxOutputSpec, TxError, SignedTx, RefundPlan, OutPoint, plan_refund, estimate_fee,
  total_sat, dust_threshold_sat,
}
use wbob_bridge.TxBuilder.Refunds.{Balanced, plan_refund-Balanced}
use wbob_bridge.Refund.Signing.{BuildRefundResult, refund_outputs, build_refund_tx}

-- The sum of the outputs.
abbrev pub paid_sat : List TxOutputSpec → ℕ
paid_sat [] = 0
paid_sat (o ∷ os) = o.amount_sat + paid_sat os

-- The transaction behind a built refund and its amounts.
pub record Refunds (sign : List UtxoInput → List TxOutputSpec → Result TxError SignedTx) (gross : ℕ)
    (recipient : Text) (rate : ℕ) (b : BuildRefundResult) : Type 0 where
  pub outputs : List TxOutputSpec
  pub change : List TxOutputSpec
  pub signature : SignedTx
  pub was_signed : sign b.inputs outputs ≡ ok signature
  pub is_the_one : (b.raw_hex ≡ signature.raw_hex) × (b.txid ≡ signature.txid)
  pub recipient_first :
      outputs ≡ record { address = recipient; amount_sat = b.recipient_sat } ∷ change
  pub conserved : total_sat b.inputs ≡ paid_sat outputs + b.fee_sat
  pub fee_from_refund :
      b.recipient_sat + estimate_fee (length b.inputs) (if ltb 0 b.change_sat then 2 else 1) rate
      ≡ gross
  pub pool_loses : total_sat b.inputs ≡ b.change_sat + gross + b.bridge_fee_sat
  pub bridge_adds_dust : b.bridge_fee_sat ≤ dust_threshold_sat
  pub not_dust : dust_threshold_sat < b.recipient_sat

outputs-paid :
    (plan : RefundPlan) (recipient change_address : Text)
    → paid_sat (refund_outputs plan recipient change_address) ≡ plan.recipient_sat + plan.change_sat
outputs-paid plan recipient change_address = ground arith

-- A refund that is built pays its recipient first: the refund less the estimated fee, and more than dust.
-- Every satoshi of its inputs goes to an output or to the fee, and the pool loses the refund and at most
-- a dust remainder.
pub build_refund_tx-Refunds :
    (sign : List UtxoInput → List TxOutputSpec → Result TxError SignedTx) (utxos : List UtxoInput)
    (gross : ℕ) (recipient change_address : Text) (rate : ℕ) (preferred : Option OutPoint)
    (b : BuildRefundResult)
    → build_refund_tx sign utxos gross recipient change_address rate preferred ≡ ok b
    → Refunds sign gross recipient rate b
unfolding build_refund_tx
build_refund_tx-Refunds sign utxos gross recipient change_address rate preferred b h =
    elim (Result-cases (plan_refund utxos gross rate preferred)) [
      | inr (e, bad) ↦ absurd (failed (rw (build_refund_tx, bad) at h))
      | inl (plan, planned) ↦
          let outputs = refund_outputs plan recipient change_address in
          elim (Result-cases (sign plan.selected outputs)) [
            | inr (e, bad) ↦ absurd (failed (rw (build_refund_tx, planned, bad) at h))
            | inl (s, good) ↦
                subst (Refunds sign gross recipient rate)
                  (same (rw (build_refund_tx, planned, good) at h))
                  (built plan outputs s (plan_refund-Balanced utxos gross rate preferred planned)
                    good (outputs-paid plan recipient change_address))
          ]
    ]
  where
    failed : {e : TxError} → ◌≡◌ {A = Result TxError BuildRefundResult} (err e) (ok b) → ⊥
    failed e' = cc

    same :
        {c : BuildRefundResult} → ◌≡◌ {A = Result TxError BuildRefundResult} (ok c) (ok b) → c ≡ b
    same e' = cc

    sums : (i r c f t p : ℕ) → i ≡ t → r + c + f ≡ i → p ≡ r + c → t ≡ p + f
    sums i r c f t p e1 e2 e3 = omega arith

    built :
        (plan : RefundPlan) (outputs : List TxOutputSpec) (s : SignedTx)
        → Balanced gross rate plan
        → sign plan.selected (refund_outputs plan recipient change_address) ≡ ok s
        → paid_sat (refund_outputs plan recipient change_address)
          ≡ plan.recipient_sat + plan.change_sat
        → Refunds sign gross recipient rate (record {
          raw_hex = s.raw_hex;
          txid = s.txid;
          input_amount_sat = plan.input_sat;
          fee_sat = plan.fee_sat;
          change_sat = plan.change_sat;
          inputs = plan.selected;
          recipient_sat = plan.recipient_sat;
          bridge_fee_sat = plan.bridge_fee_sat;
        })
    built plan outputs s b good paid = record {
      outputs = refund_outputs plan recipient change_address;
      change = _;
      signature = s;
      was_signed = good;
      is_the_one = (refl, refl);
      recipient_first = refl;
      conserved = sums _ _ _ _ _ _ b.inputs b.spent paid;
      fee_from_refund = b.recipient_pays;
      pool_loses = sym b.inputs ∙ b.pool_loses;
      bridge_adds_dust = b.bridge_adds;
      not_dust = b.recipient_not_dust;
    }
