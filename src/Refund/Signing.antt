-- ===== src/Refund/Signing.antt =====
-- backend/src/executor/refund-executor.ts, `signQueued`, and backend/src/dobbscoin/tx-builder.ts,
-- `buildRefundTx`. `sign` is the transaction builder's signer and `is_network` tells which of its errors
-- are an unreachable node.
use wbob_bridge.Prelude.{
  ℕ, Bool, true, false, ◌&&◌, not, Option, none, some, List, [], ◌∷◌, ◌++◌, ltb, if◌then◌else◌,
  length, ◌==◌,
}
use wbob_bridge.Prelude.Text.{Text}
use wbob_bridge.Prelude.Tables.{select_one, select_all, update_where}
use wbob_bridge.Shared.Result.{Result, ok, err}
use wbob_bridge.TxBuilder.{
  UtxoInput, TxOutputSpec, TxError, SignedTx, RefundPlan, OutPoint, plan_refund, insufficient_utxos,
  gross_not_positive, refund_too_small, payout_is_dust, sign_failed,
}
use wbob_bridge.TxBuilder.RawTx.{RawTx}
use wbob_bridge.Refund.Rows.{
  RefundStatus, RefundRow, RefundEvent, queued, signed, needs_attention, too_small, refund_signed,
  refund_needs_attention, refund_too_small_event, refund_is, is_refund_in, same_status,
  same_address,
}
use wbob_bridge.Payout.Tables.{BridgeUtxo, Db, available, reserved, has_status}
use wbob_bridge.Payout.Signing.{inputs_of, is_free, next_change_index}

-- Where the database may throw.
pub data RefundWrite : Type 0 where
  resolving announcing signing parking auditing sending counting : RefundWrite

abbrev pub set_refund : (RefundRow → Bool) → (RefundRow → RefundRow) → Db → Db
set_refund p f db = record db { deposit_refunds = update_where p f db.deposit_refunds }

abbrev pub audit_refund : RefundRow → RefundEvent → RefundStatus → RefundStatus → Db → Db
audit_refund r event from to db = record db {
  refund_events =
      db.refund_events
      ++ record { order_id = r.order_id; event_type = event; from_status = from; to_status = to }
        ∷ [];
}

abbrev pub with_status : RefundStatus → RefundRow → RefundRow
with_status to r = record r { status = to }

-- `_audit`; the flag says that it did not throw.
abbrev pub try_audit :
    (RefundWrite → ℕ → Bool)
    → RefundRow
    → RefundEvent
    → RefundStatus
    → RefundStatus
    → Db
    → Db × Bool
try_audit fails r event from to db =
    if fails auditing r.id then (db, false) else (audit_refund r event from to db, true)

abbrev pub park_event : RefundStatus → RefundEvent
park_event to = if same_status to too_small then refund_too_small_event else refund_needs_attention

-- `_park`: an update and an audit row that are no transaction.
unfoldable pub park_refund :
    (RefundWrite → ℕ → Bool) → RefundRow → RefundStatus → RefundStatus → Db → Db × Bool
park_refund fails r from to db =
    if fails parking r.id
    then (db, false)
    else if length (select_all (is_refund_in r.id from) db.deposit_refunds) == 0
    then (db, true)
    else try_audit fails r (park_event to) from to
        (set_refund (is_refund_in r.id from) (with_status to) db)

pub record BuildRefundResult : Type 0 where
  pub raw_hex : RawTx
  pub txid : ℕ
  pub input_amount_sat : ℕ
  pub fee_sat : ℕ
  pub change_sat : ℕ
  pub inputs : List UtxoInput
  pub recipient_sat : ℕ
  pub bridge_fee_sat : ℕ

abbrev pub refund_outputs : RefundPlan → Text → Text → List TxOutputSpec
refund_outputs plan recipient change_address =
    record { address = recipient; amount_sat = plan.recipient_sat }
    ∷ (if ltb 0 plan.change_sat
        then record { address = change_address; amount_sat = plan.change_sat } ∷ []
        else [])

unfoldable pub build_refund_tx :
    (List UtxoInput → List TxOutputSpec → Result TxError SignedTx)
    → List UtxoInput
    → ℕ
    → Text
    → Text
    → ℕ
    → Option OutPoint
    → Result TxError BuildRefundResult
build_refund_tx sign utxos gross recipient change_address rate preferred =
    elim (plan_refund utxos gross rate preferred) [
      | err e ↦ err e
      | ok plan ↦ elim (sign plan.selected (refund_outputs plan recipient change_address)) [
        | err e ↦ err e
        | ok s ↦ ok (record {
          raw_hex = s.raw_hex;
          txid = s.txid;
          input_amount_sat = plan.input_sat;
          fee_sat = plan.fee_sat;
          change_sat = plan.change_sat;
          inputs = plan.selected;
          recipient_sat = plan.recipient_sat;
          bridge_fee_sat = plan.bridge_fee_sat;
        })
      ]
    ]

abbrev pub reserve_for_refund : ℕ → BridgeUtxo → BridgeUtxo
reserve_for_refund refund_id u = record u { status = reserved; spent_refund_id = some refund_id }

-- The loop that reserves; `none` is "is no longer available".
unfoldable pub reserve_refund_inputs :
    ℕ → List UtxoInput → List BridgeUtxo → Option (List BridgeUtxo)
reserve_refund_inputs refund_id [] utxos = some utxos
reserve_refund_inputs refund_id (i ∷ is) utxos =
    if length (select_all (is_free i) utxos) == 1
    then reserve_refund_inputs refund_id is
        (update_where (is_free i) (reserve_for_refund refund_id) utxos)
    else none

abbrev pub where_change {ℓ} : {A : Type ℓ} → BuildRefundResult → A → Option A
where_change built a = if ltb 0 built.change_sat then some a else none

abbrev pub set_signed : BuildRefundResult → Text → ℕ → ℕ → RefundRow → RefundRow
set_signed built change_address change_index now r = record r {
  status = signed;
  amount_sat = some built.recipient_sat;
  fee_sat = some built.fee_sat;
  bridge_fee_sat = some built.bridge_fee_sat;
  signed_hex = some built.raw_hex;
  txid = some built.txid;
  change_sat = some built.change_sat;
  change_address = where_change built change_address;
  change_index = where_change built change_index;
  signed_at = now;
}

-- How signing a refund ends: in tables, or in a throw that is retried, too small, or for a human.
pub data RefundOutcome : Type 0 where
  done : Db → RefundOutcome
  retry_later dust_refund broken : RefundOutcome

-- Whether the row is as it was read.
abbrev pub is_as_read : RefundRow → Db → Bool
is_as_read r db = elim (select_one (refund_is r.id) db.deposit_refunds) [
  | none ↦ false
  | some cur ↦ same_status cur.status queued && same_address cur.refund_address r.refund_address
]

-- The transaction of `_signOne`.
unfoldable pub commit_refund :
    (RefundWrite → ℕ → Bool) → RefundRow → BuildRefundResult → Text → ℕ → ℕ → Db → RefundOutcome
unfolding reserve_refund_inputs
commit_refund fails r built change_address change_index now db =
    if fails signing r.id
    then broken
    else if not (is_as_read r db)
    then done db
    else elim (reserve_refund_inputs r.id built.inputs db.bridge_utxos) [
      | none ↦ retry_later
      | some utxos ↦ done (
          audit_refund r refund_signed queued signed (
            set_refund (refund_is r.id) (set_signed built change_address change_index now)
              (record db { bridge_utxos = utxos })))
    ]

module _ (sign : List UtxoInput → List TxOutputSpec → Result TxError SignedTx)
    (is_network : ℕ → Bool) (change_address_of : ℕ → Text) (fee_rate : ℕ)
    (fails : RefundWrite → ℕ → Bool) (now : ℕ) where
  -- The catch of `signQueued`, by the kind of the error.
  unfoldable pub outcome_of : TxError → RefundOutcome
  outcome_of (insufficient_utxos target total) = retry_later
  outcome_of (refund_too_small gross fee) = dust_refund
  outcome_of (gross_not_positive gross) = broken
  outcome_of (payout_is_dust amount) = broken
  outcome_of (sign_failed code) = if is_network code then retry_later else broken

  -- `_signOne`, for a row with a refund address.
  unfoldable pub sign_one : RefundRow → Text → Db → RefundOutcome
  unfolding commit_refund build_refund_tx outcome_of next_change_index
  sign_one r address db =
      let change_index = next_change_index db in
      elim (build_refund_tx sign (inputs_of (select_all (has_status available) db.bridge_utxos))
        r.excess_sat address (change_address_of change_index) fee_rate
        (some (record { txid = r.deposit_txid; vout = r.deposit_vout }))) [
          | err e ↦ outcome_of e
          | ok built ↦
              commit_refund fails r built (change_address_of change_index) change_index now db
        ]

  abbrev pub after_sign : RefundRow → Db → RefundOutcome → Db × Bool
  after_sign r db (done db') = (db', true)
  after_sign r db retry_later = (db, true)
  after_sign r db dust_refund = park_refund fails r queued too_small db
  after_sign r db broken = park_refund fails r queued needs_attention db

  unfoldable pub sign_refunds : List RefundRow → Db → Db × Bool
  unfolding sign_one park_refund
  sign_refunds [] db = (db, true)
  sign_refunds (r ∷ rs) db = elim r.refund_address [
    | none ↦ sign_refunds rs db
    | some address ↦
        let (db', returned) = after_sign r db (sign_one r address db) in
        elim returned [ false ↦ (db', false) | true ↦ sign_refunds rs db' ]
  ]

  -- The rows of the query: queued, with an address, and announced.
  abbrev pub is_signable : RefundRow → Bool
  is_signable r =
      same_status r.status queued
      && ((elim r.refund_address [ none ↦ false | some a ↦ true ]) && r.split_alerted)

  -- `signQueued`.
  unfoldable pub sign_queued : Bool → Db → Db × Bool
  unfolding sign_refunds
  sign_queued auto_send db =
      if auto_send then sign_refunds (select_all is_signable db.deposit_refunds) db else (db, true)
