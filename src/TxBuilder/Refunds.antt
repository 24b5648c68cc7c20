-- ===== src/TxBuilder/Refunds.antt =====
-- Planning a refund (backend/src/dobbscoin/tx-builder.ts, `planRefund`).
use wbob_bridge.Prelude.{
  ℕ, ◌+◌, ◌-◌, ◌≤◌, ◌<◌, ◌≡◌, refl, true, false, Option, none, some, List, [], ◌∷◌, ◌++◌, arith,
  ltb, leb, if◌then◌else◌, length, Bool-cases, inl, inr, ◌⊎◌, ◌∙◌, ap, not,
}
use wbob_bridge.Prelude.Tables.{select_all}
use wbob_bridge.Shared.Result.{ok, err}
use wbob_bridge.TxBuilder.{
  UtxoInput, OutPoint, RefundPlan, total_sat, estimate_fee, dust_threshold_sat, is_preferred,
  refund_order, sort_largest, take_until, settle_refund, plan_refund, is_refund_too_small,
  refund_too_small,
}
use wbob_bridge.TxBuilder.Selection.{total-append}

-- The figures of a refund: the inputs are spent on recipient, change and fee; the refund pays the
-- estimated fee itself, and the bridge adds at most a dust remainder; no output is dust.
pub record Balanced (gross rate : ℕ) (p : RefundPlan) : Type 0 where
  pub inputs : p.input_sat ≡ total_sat p.selected
  pub spent : p.recipient_sat + p.change_sat + p.fee_sat ≡ p.input_sat
  pub recipient_pays :
      p.recipient_sat + estimate_fee (length p.selected) (if ltb 0 p.change_sat then 2 else 1) rate
      ≡ gross
  pub pool_loses : p.input_sat ≡ p.change_sat + gross + p.bridge_fee_sat
  pub bridge_adds : p.bridge_fee_sat ≤ dust_threshold_sat
  pub recipient_not_dust : dust_threshold_sat < p.recipient_sat
  pub change_not_dust : (p.change_sat ≡ 0) ⊎ (dust_threshold_sat < p.change_sat)

settle-Balanced :
    (gross rate : ℕ) (selected : List UtxoInput) (input : ℕ) {p : RefundPlan}
    → input ≡ total_sat selected
    → settle_refund gross rate selected input ≡ ok p
    → Balanced gross rate p
unfolding settle_refund
settle-Balanced gross rate selected input e h = ground arith

take_until_total :
    (gross : ℕ) (us selected : List UtxoInput) (input : ℕ)
    → input ≡ total_sat selected
    → (take_until gross us selected input).1 ≡ total_sat (take_until gross us selected input).0
unfolding take_until
take_until_total gross [] selected input e = e
take_until_total gross (u ∷ us) selected input e = ground (
  arith,
  total-append selected (u ∷ []),
  take_until_total gross us (selected ++ u ∷ []) (input + u.amount_sat),
)

-- A refund plan that is returned is balanced.
pub plan_refund-Balanced :
    (available : List UtxoInput) (gross rate : ℕ) (preferred : Option OutPoint) {p : RefundPlan}
    → plan_refund available gross rate preferred ≡ ok p
    → Balanced gross rate p
unfolding plan_refund
plan_refund-Balanced available gross rate preferred h = elim (Bool-cases (leb gross 0)) [
  | inl e ↦ absurd (ground arith)
  | inr e ↦
      settle-Balanced gross rate _ _
        (take_until_total gross (refund_order available preferred) [] 0 refl)
        (rw (plan_refund, e) at h)
]

take_until_first :
    (gross : ℕ) (u : UtxoInput) (us : List UtxoInput)
    → gross ≤ u.amount_sat
    → take_until gross (u ∷ us) [] 0 ≡ (u ∷ [], u.amount_sat)
unfolding take_until
take_until_first gross u us h = ground arith

settle_selected :
    (gross rate : ℕ) (selected : List UtxoInput) (input : ℕ) {p : RefundPlan}
    → settle_refund gross rate selected input ≡ ok p
    → p.selected ≡ selected
unfolding settle_refund
settle_selected gross rate selected input h = ground arith

plan_selected :
    (available : List UtxoInput) (gross rate : ℕ) (preferred : Option OutPoint) {p : RefundPlan}
    → plan_refund available gross rate preferred ≡ ok p
    → p.selected ≡ (take_until gross (refund_order available preferred) [] 0).0
unfolding plan_refund
plan_selected available gross rate preferred h = elim (Bool-cases (leb gross 0)) [
  | inl e ↦ absurd (ground arith)
  | inr e ↦ settle_selected gross rate _ _ (rw (plan_refund, e) at h)
]

refund_order-preferred :
    (available : List UtxoInput) (o : OutPoint) (u : UtxoInput) (others : List UtxoInput)
    → select_all (is_preferred (some o)) available ≡ u ∷ others
    → (rest : List UtxoInput) × (refund_order available (some o) ≡ u ∷ rest)
unfolding refund_order
refund_order-preferred available o u others found = (
  others ++ sort_largest (select_all (λ c. not (is_preferred (some o) c)) available),
  rw (found, refund_order) refl,
)

-- The deposit's own coin, when it is there and covers the refund, is the only coin spent: the pool
-- keeps all the others.
pub refund_spends_deposit_coin :
    (available : List UtxoInput) (gross rate : ℕ) (o : OutPoint) (u : UtxoInput)
    (others : List UtxoInput) {p : RefundPlan}
    → select_all (is_preferred (some o)) available ≡ u ∷ others
    → gross ≤ u.amount_sat
    → plan_refund available gross rate (some o) ≡ ok p
    → p.selected ≡ u ∷ []
refund_spends_deposit_coin available gross rate o u others found covers h =
    let (rest, order) = refund_order-preferred available o u others found in
    plan_selected available gross rate (some o) h
    ∙ ap (λ us. (take_until gross us [] 0).0) order
    ∙ ap (λ r. r.0) (take_until_first gross u rest covers)

-- The quick test that parks an excess as too small agrees with the planner on a coin that leaves
-- change: it says yes exactly when the plan is refused as dust, and else the plan is made.
pub is_refund_too_small_agrees :
    (u : UtxoInput) (gross rate : ℕ)
    → 0 < gross
    → gross + dust_threshold_sat < u.amount_sat
    → (is_refund_too_small gross rate ≡ true
        → plan_refund (u ∷ []) gross rate none
          ≡ err (refund_too_small gross (estimate_fee 1 2 rate)))
      × (is_refund_too_small gross rate ≡ false
          → (p : RefundPlan) × (plan_refund (u ∷ []) gross rate none ≡ ok p))
unfolding is_refund_too_small plan_refund
is_refund_too_small_agrees u gross rate pos more =
    ((λ h. ground arith), (λ h. (planned, ground arith)))
  where
    fee : ℕ
    fee = estimate_fee 1 2 rate

    planned : RefundPlan
    planned = record {
      selected = u ∷ [];
      input_sat = u.amount_sat;
      recipient_sat = gross - fee;
      change_sat = u.amount_sat - gross;
      fee_sat = u.amount_sat - (gross - fee) - (u.amount_sat - gross);
      bridge_fee_sat = u.amount_sat - (gross - fee) - (u.amount_sat - gross) - fee;
    }
