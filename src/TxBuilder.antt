-- ===== src/TxBuilder.antt =====
-- backend/src/dobbscoin/tx-builder.ts: choosing coins for payouts and refunds, and their outputs.
-- Amounts are bigints that are not negative; a difference whose sign is tested is an integer.
-- Signing and serialising is @scure/btc-signer's work and enters as the parameter `sign`.
pub mod Sorting
pub mod Selection
pub mod FirstPaying
pub mod Refunds
pub mod Payouts
pub mod RawTx
pub mod RawTxLaws
mod Examples
use wbob_bridge.Prelude.{
  ℕ, ◌+◌, ◌-◌, ◌*◌, Bool, true, false, ◌&&◌, not, Option, none, some, List, [], ◌∷◌, ◌++◌, ltb, leb,
  ◌==◌, if◌then◌else◌, length,
}
use wbob_bridge.Prelude.Int.{ℤ, pos, sub_ℕ, pos_part, leb_ℤ}
use wbob_bridge.Prelude.Tables.{select_all}
use wbob_bridge.Prelude.Text.{Text}
use wbob_bridge.Shared.Result.{Result, ok, err}

pub record UtxoInput : Type 0 where
  pub txid : ℕ
  pub vout : ℕ
  pub amount_sat : ℕ
  pub hd_index : ℕ
  pub is_change : Bool

pub record TxOutputSpec : Type 0 where
  pub address : Text
  pub amount_sat : ℕ

pub data TxError : Type 0 where
  insufficient_utxos : ℕ → ℕ → TxError
  gross_not_positive : ℕ → TxError
  refund_too_small : ℕ → ℕ → TxError
  payout_is_dust : ℕ → TxError
  sign_failed : ℕ → TxError

abbrev pub dust_threshold_sat : ℕ
dust_threshold_sat = 546

unfoldable pub estimate_fee : ℕ → ℕ → ℕ → ℕ
estimate_fee input_count output_count fee_rate =
    (10 + input_count * 148 + output_count * 34) * fee_rate

abbrev pub total_sat : List UtxoInput → ℕ
total_sat [] = 0
total_sat (u ∷ us) = u.amount_sat + total_sat us

-- `sort((a, b) => a.amountSat > b.amountSat ? -1 : …)`: largest first, and stable.
unfoldable pub insert_largest : UtxoInput → List UtxoInput → List UtxoInput
insert_largest x [] = x ∷ []
insert_largest x (y ∷ ys) =
    if ltb x.amount_sat y.amount_sat then y ∷ insert_largest x ys else x ∷ y ∷ ys

unfoldable pub sort_largest : List UtxoInput → List UtxoInput
unfolding insert_largest
sort_largest [] = []
sort_largest (x ∷ xs) = insert_largest x (sort_largest xs)

pub record Selected : Type 0 where
  pub selected : List UtxoInput
  pub fee_sat : ℕ

-- The loop of `selectUtxos`, over the coins left, the coins pushed and their total.
unfoldable pub select_from : ℕ → ℕ → List UtxoInput → List UtxoInput → ℕ → Result TxError Selected
unfolding estimate_fee
select_from target rate [] selected total = err (insufficient_utxos target total)
select_from target rate (u ∷ us) selected total =
    let selected' = selected ++ u ∷ [] in
    let total' = total + u.amount_sat in
    let output_count = if ltb target total' then 2 else 1 in
    let fee = estimate_fee (length selected') output_count rate in
    let rest = select_from target rate us selected' total' in
    if leb (target + fee) total' then ok (record { selected = selected'; fee_sat = fee }) else rest

unfoldable pub select_utxos : List UtxoInput → ℕ → ℕ → Result TxError Selected
unfolding sort_largest select_from
select_utxos available target rate = select_from target rate (sort_largest available) [] 0

unfoldable pub is_refund_too_small : ℕ → ℕ → Bool
is_refund_too_small gross rate =
    leb_ℤ (sub_ℕ gross (estimate_fee 1 2 rate)) (pos dust_threshold_sat)

pub record OutPoint : Type 0 where
  pub txid : ℕ
  pub vout : ℕ

abbrev pub is_preferred : Option OutPoint → UtxoInput → Bool
is_preferred none u = false
is_preferred (some p) u = (u.txid == p.txid) && (u.vout == p.vout)

unfoldable pub refund_order : List UtxoInput → Option OutPoint → List UtxoInput
unfolding sort_largest
refund_order available preferred =
    select_all (is_preferred preferred) available
    ++ sort_largest (select_all (λ u. not (is_preferred preferred u)) available)

-- The loop of `planRefund`, which breaks as soon as the inputs cover the refund.
unfoldable pub take_until : ℕ → List UtxoInput → List UtxoInput → ℕ → List UtxoInput × ℕ
take_until gross [] selected input = (selected, input)
take_until gross (u ∷ us) selected input =
    let selected' = selected ++ u ∷ [] in
    let input' = input + u.amount_sat in
    let rest = take_until gross us selected' input' in
    if leb gross input' then (selected', input') else rest

pub record RefundPlan : Type 0 where
  pub selected : List UtxoInput
  pub input_sat : ℕ
  pub recipient_sat : ℕ
  pub change_sat : ℕ
  pub fee_sat : ℕ
  pub bridge_fee_sat : ℕ

-- The part after the loop. `gross` is at most `input` where amounts are computed, so `-` is exact.
unfoldable pub settle_refund : ℕ → ℕ → List UtxoInput → ℕ → Result TxError RefundPlan
settle_refund gross rate selected input =
    if ltb input gross
    then err (insufficient_utxos gross input)
    else let raw_change = input - gross in
      let has_change = ltb dust_threshold_sat raw_change in
      let est_fee = estimate_fee (length selected) (if has_change then 2 else 1) rate in
      let recipient = sub_ℕ gross est_fee in
      if leb_ℤ recipient (pos dust_threshold_sat)
      then err (refund_too_small gross est_fee)
      else let change = if has_change then raw_change else 0 in
        let fee = input - pos_part recipient - change in
        ok (record {
          selected = selected;
          input_sat = input;
          recipient_sat = pos_part recipient;
          change_sat = change;
          fee_sat = fee;
          bridge_fee_sat = fee - est_fee;
        })

unfoldable pub plan_refund : List UtxoInput → ℕ → ℕ → Option OutPoint → Result TxError RefundPlan
unfolding refund_order take_until settle_refund
plan_refund available gross rate preferred =
    if leb gross 0
    then err (gross_not_positive gross)
    else let (selected, input) = take_until gross (refund_order available preferred) [] 0 in
      settle_refund gross rate selected input

pub record BuildTxResult : Type 0 where
  pub raw_hex : List ℕ
  pub txid : ℕ
  pub input_amount_sat : ℕ
  pub fee_sat : ℕ
  pub change_sat : ℕ
  pub inputs : List UtxoInput

pub record SignedTx : Type 0 where
  pub raw_hex : List ℕ
  pub txid : ℕ

-- Recipient at vout 0, change (if it is more than dust) at vout 1.
abbrev pub outputs_with_change : Text → ℕ → Text → ℕ → List TxOutputSpec
outputs_with_change recipient amount change_address change =
    record { address = recipient; amount_sat = amount }
    ∷ (if ltb dust_threshold_sat change
        then record { address = change_address; amount_sat = change } ∷ []
        else [])

module _ (sign : List UtxoInput → List TxOutputSpec → Result TxError SignedTx) where
  -- The part of `buildPayoutTx` after the selection, which covers payout and fee.
  unfoldable pub finish_payout : ℕ → Text → Text → Selected → Result TxError BuildTxResult
  finish_payout payout recipient change_address s =
      let input_total = total_sat s.selected in
      let change = input_total - payout - s.fee_sat in
      elim (sign s.selected (outputs_with_change recipient payout change_address change)) [
        | err e ↦ err e
        | ok signed ↦ ok (record {
          raw_hex = signed.raw_hex;
          txid = signed.txid;
          input_amount_sat = input_total;
          fee_sat = if leb change dust_threshold_sat then input_total - payout else s.fee_sat;
          change_sat = if ltb dust_threshold_sat change then change else 0;
          inputs = s.selected;
        })
      ]

  unfoldable pub build_payout_tx :
      List UtxoInput → ℕ → Text → Text → ℕ → Result TxError BuildTxResult
  build_payout_tx utxos payout recipient change_address rate =
      if leb payout dust_threshold_sat
      then err (payout_is_dust payout)
      else elim (select_utxos utxos payout rate) [
        | err e ↦ err e
        | ok s ↦ finish_payout payout recipient change_address s
      ]
