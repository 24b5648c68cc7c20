-- ===== src/TxBuilder/Examples.antt =====
-- Runs and instances for the transaction builder.
use wbob_bridge.Prelude.{◌≡◌, refl, false, true, none, some, List, [], ◌∷◌, arith, length}
use wbob_bridge.Shared.Result.{Result, ok, err}
use wbob_bridge.TxBuilder.{
  UtxoInput, TxOutputSpec, TxError, SignedTx, RefundPlan, BuildTxResult, estimate_fee, select_utxos,
  is_refund_too_small, plan_refund, refund_too_small, build_payout_tx, insufficient_utxos,
  finish_payout,
}
use wbob_bridge.TxBuilder.RawTx.{skip, read_varint, tx_inputs_from_raw_hex}
use wbob_bridge.TxBuilder.RawTxLaws.{SerializedInput, IsWritable, write_tx, tx_inputs-write_tx}
use wbob_bridge.TxBuilder.Sorting
use wbob_bridge.TxBuilder.Sorting.{Choice}
use wbob_bridge.TxBuilder.Selection.{Within, select_utxos_minimal, exact_coin_refused}
use wbob_bridge.TxBuilder.FirstPaying.{SortedOutcome, select_utxos-SortedOutcome}
use wbob_bridge.TxBuilder.Refunds.{
  Balanced, plan_refund-Balanced, refund_spends_deposit_coin, is_refund_too_small_agrees,
}
use wbob_bridge.TxBuilder.Payouts.{Accounts, build_payout_tx-Accounts}

abbrev small : UtxoInput
small = record { txid = 1; vout = 0; amount_sat = 4000; hd_index = 5; is_change = false }

abbrev large : UtxoInput
large = record { txid = 2; vout = 1; amount_sat = 9000; hd_index = 6; is_change = true }

abbrev pool : List UtxoInput
pool = small ∷ large ∷ []

-- 5000 at 2 sat a byte: the larger coin alone pays the 226 bytes with a change output.
largest_is_chosen : select_utxos pool 5000 2 ≡ ok (record { selected = large ∷ []; fee_sat = 452 })
unfolding select_utxos estimate_fee
largest_is_chosen = refl

select_throws_for_both : select_utxos pool 13000 2 ≡ err (insufficient_utxos 13000 13000)
unfolding select_utxos estimate_fee
select_throws_for_both = refl

select_utxos-SortedOutcome_example : SortedOutcome pool 5000 2 (select_utxos pool 5000 2)
select_utxos-SortedOutcome_example = select_utxos-SortedOutcome pool 5000 2

both_coins : Choice pool pool
both_coins = Sorting.keep small (Sorting.keep large Sorting.done)

select_utxos_minimal_example : Within 2 (select_utxos pool 5000 2)
unfolding estimate_fee
select_utxos_minimal_example =
    select_utxos_minimal pool 5000 2 (omega arith) both_coins (omega arith)

exact_coin_refused_example : select_utxos (small ∷ []) 3616 2 ≡ err (insufficient_utxos 3616 4000)
unfolding estimate_fee
exact_coin_refused_example = exact_coin_refused small 3616 2 (omega arith) refl

abbrev refund : RefundPlan
refund = record {
  selected = small ∷ [];
  input_sat = 4000;
  recipient_sat = 2548;
  change_sat = 1000;
  fee_sat = 452;
  bridge_fee_sat = 0;
}

refund_planned : plan_refund pool 3000 2 (some (record { txid = 1; vout = 0 })) ≡ ok refund
unfolding plan_refund estimate_fee
refund_planned = refl

plan_refund-Balanced_example : Balanced 3000 2 refund
plan_refund-Balanced_example =
    plan_refund-Balanced pool 3000 2 (some (record { txid = 1; vout = 0 })) refund_planned

refund_spends_deposit_coin_example : refund.selected ≡ small ∷ []
refund_spends_deposit_coin_example =
    refund_spends_deposit_coin pool 3000 2 (record { txid = 1; vout = 0 }) small [] refl
      (omega arith) refund_planned

is_refund_too_small_agrees_example :
    (is_refund_too_small 900 2 ≡ true
      → plan_refund (small ∷ []) 900 2 none ≡ err (refund_too_small 900 (estimate_fee 1 2 2)))
    × (is_refund_too_small 900 2 ≡ false
        → (p : RefundPlan) × (plan_refund (small ∷ []) 900 2 none ≡ ok p))
is_refund_too_small_agrees_example =
    is_refund_too_small_agrees small 900 2 (omega arith) (omega arith)

-- A signer that accepts everything.
abbrev signer : List UtxoInput → List TxOutputSpec → Result TxError SignedTx
signer inputs outputs = ok (record { raw_hex = length inputs ∷ []; txid = length outputs })

abbrev payout : BuildTxResult
payout = record {
  raw_hex = 1 ∷ [];
  txid = 2;
  input_amount_sat = 9000;
  fee_sat = 452;
  change_sat = 3548;
  inputs = large ∷ [];
}

payout_built : build_payout_tx signer pool 5000 (77 ∷ []) (88 ∷ []) 2 ≡ ok payout
unfolding build_payout_tx select_utxos finish_payout estimate_fee
payout_built = refl

build_payout_tx-Accounts_example : Accounts signer 5000 (77 ∷ []) payout
build_payout_tx-Accounts_example =
    build_payout_tx-Accounts signer pool 5000 (77 ∷ []) (88 ∷ []) 2 payout_built

-- One input that spends output 5 of transaction 300, with a script of two bytes.
abbrev serialized : SerializedInput
serialized = record {
  outpoint = record { txid = 300; vout = 5 };
  script = 81 ∷ 82 ∷ [];
  sequence = 255 ∷ 255 ∷ 255 ∷ 255 ∷ [];
}

coinbase_has_no_inputs : tx_inputs_from_raw_hex (1 ∷ 0 ∷ 0 ∷ 0 ∷ 0 ∷ []) ≡ none
unfolding tx_inputs_from_raw_hex skip read_varint
coinbase_has_no_inputs = refl

serialized-IsWritable : IsWritable serialized
serialized-IsWritable = record {
  txid_fits = refl;
  vout_fits = refl;
  script_fits = omega arith;
  sequence_length = refl;
}

tx_inputs-write_tx_example :
    tx_inputs_from_raw_hex (write_tx (1 ∷ 0 ∷ 0 ∷ 0 ∷ []) (serialized ∷ []) (7 ∷ []))
    ≡ some (serialized.outpoint ∷ [])
tx_inputs-write_tx_example =
    tx_inputs-write_tx (1 ∷ 0 ∷ 0 ∷ 0 ∷ []) (serialized ∷ []) (7 ∷ []) refl (omega arith)
      (omega arith) (serialized-IsWritable, tt)
