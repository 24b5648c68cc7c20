-- ===== src/Payout/Signing.antt =====
-- backend/src/executor/payout-executor.ts, `_buildAndSignPayout`: the coins of a payout are reserved in
-- the transaction that records its signature. The available coins come in any order: the selection
-- sorts them, as the query does. `sign` is the transaction builder's signer, and `change_address_of`
-- derives a change address from its index.
use wbob_bridge.Prelude.{
  ℕ, ◌+◌, Bool, true, false, ◌&&◌, Option, none, some, List, [], ◌∷◌, ◌++◌, ◌==◌, ltb,
  if◌then◌else◌, length, max,
}
use wbob_bridge.Prelude.Text.{Text}
use wbob_bridge.Prelude.Tables.{select_all, update_where, any_row}
use wbob_bridge.Shared.Result.{Result, ok, err}
use wbob_bridge.Shared.Outbound.{payout_queued, payout_signed}
use wbob_bridge.TxBuilder.{
  UtxoInput, TxOutputSpec, TxError, SignedTx, BuildTxResult, build_payout_tx,
}
use wbob_bridge.Refund.Rows.{RefundRow}
use wbob_bridge.Payout.Tables.{
  WithdrawalRequest, PayoutRow, BridgeUtxo, PayoutAudit, Metadata, Db, Write, signing, available,
  reserved, signed_payout, same_event, is_outpoint, held_by, has_status, append_audit,
  set_order_state, is_in,
}
use wbob_bridge.Payout.Checks.{QueuedPayoutRow, withdrawal_of}

abbrev pub input_of : BridgeUtxo → UtxoInput
input_of u = record {
  txid = u.txid;
  vout = u.vout;
  amount_sat = u.amount_sat;
  hd_index = u.hd_index;
  is_change = u.is_change;
}

abbrev pub inputs_of : List BridgeUtxo → List UtxoInput
inputs_of [] = []
inputs_of (u ∷ us) = input_of u ∷ inputs_of us

-- One more than the largest index, 0 without any: COALESCE(MAX(…), -1) + 1.
abbrev pub above : Option ℕ → ℕ
above none = 0
above (some i) = i + 1

abbrev pub above_refunds : List RefundRow → ℕ
above_refunds [] = 0
above_refunds (r ∷ rs) = max (above r.change_index) (above_refunds rs)

abbrev pub above_utxos : List BridgeUtxo → ℕ
above_utxos [] = 0
above_utxos (u ∷ us) = max (if u.is_change then u.hd_index + 1 else 0) (above_utxos us)

abbrev pub above_audit : List PayoutAudit → ℕ
above_audit [] = 0
above_audit (a ∷ more) =
    max (if same_event a.event_type signed_payout then above a.metadata.change_index else 0)
      (above_audit more)

-- `nextChangeIndex` of refund-executor.ts.
unfoldable pub next_change_index : Db → ℕ
next_change_index db =
    max (above_utxos db.bridge_utxos)
      (max (above_refunds db.deposit_refunds) (above_audit db.audit_events))

abbrev pub reserve_for : ℕ → BridgeUtxo → BridgeUtxo
reserve_for payout_id u = record u { status = reserved; spent_payout_id = some payout_id }

abbrev pub is_free : UtxoInput → BridgeUtxo → Bool
is_free i u = is_outpoint i.txid i.vout u && has_status available u

-- The loop that reserves; `none` is a UtxoRaceError.
unfoldable pub reserve_inputs : ℕ → List UtxoInput → List BridgeUtxo → Option (List BridgeUtxo)
reserve_inputs payout_id [] utxos = some utxos
reserve_inputs payout_id (i ∷ is) utxos =
    if length (select_all (is_free i) utxos) == 1
    then reserve_inputs payout_id is (update_where (is_free i) (reserve_for payout_id) utxos)
    else none

pub data SignOutcome : Type 0 where
  signed : Db → SignOutcome
  raced : SignOutcome
  failed : SignOutcome

abbrev pub change_given : BuildTxResult → Bool
change_given r = ltb 0 r.change_sat

abbrev pub when {ℓ} : {A : Type ℓ} → Bool → A → Option A
when true a = some a
when false a = none

abbrev pub signed_metadata : ℕ → BuildTxResult → Text → ℕ → Metadata
signed_metadata payout_id r change_address change_index = record {
  payout_id = some payout_id;
  txid = some r.txid;
  signed_hex = some r.raw_hex;
  change_sat = r.change_sat;
  change_address = when (change_given r) change_address;
  change_index = when (change_given r) change_index;
  withdrawal_id = none;
}

abbrev pub set_fee : ℕ → PayoutRow → PayoutRow
set_fee fee p = record p { fee_sat = fee }

abbrev pub is_unsent : ℕ → PayoutRow → Bool
is_unsent payout_id p = (p.id == payout_id) && (elim p.txid [ none ↦ true | some t ↦ false ])

-- The payout row: inserted (withdrawal_request_id is UNIQUE), or reused if nothing points at its old
-- transaction. `none` is a throw.
unfoldable pub payout_row : QueuedPayoutRow → WithdrawalRequest → ℕ → Db → Option (ℕ × Db)
payout_row row w fee db = elim row.payout_id [
  | some p ↦
      if (length (select_all (held_by p) db.bridge_utxos) == 0)
        && (length (select_all (is_unsent p) db.payouts) == 1)
      then some (p, record db { payouts = update_where (is_unsent p) (set_fee fee) db.payouts })
      else none
  | none ↦
      if any_row (λ (q : PayoutRow). q.withdrawal_request_id == w.id) db.payouts
      then none
      else some (
        db.next_payout_id,
        record db {
          payouts =
              db.payouts
              ++ record {
                id = db.next_payout_id;
                withdrawal_request_id = w.id;
                dobbscoin_address = row.dobbscoin_address;
                amount_sat = row.amount_sat;
                fee_sat = fee;
                txid = none;
                broadcast_at = none;
                confirmed_at = none;
                confirmations = 0;
              }
                ∷ [];
          next_payout_id = db.next_payout_id + 1;
        },
      )
]

-- The rest of the transaction, once the payout row is there.
unfoldable pub record_signature : QueuedPayoutRow → BuildTxResult → Text → ℕ → ℕ × Db → SignOutcome
unfolding reserve_inputs
record_signature row r change_address change_index (payout_id, db) =
    elim (reserve_inputs payout_id r.inputs db.bridge_utxos) [
      | none ↦ raced
      | some utxos ↦ signed (
          set_order_state row.order_id payout_signed (
            append_audit row.order_id signed_payout (some payout_queued) (some payout_signed)
              (signed_metadata payout_id r change_address change_index)
              (record db { bridge_utxos = utxos })))
    ]

-- The transaction. An order that has moved on is left alone.
unfoldable pub commit_signature :
    (Write → ℕ → Bool) → QueuedPayoutRow → BuildTxResult → Text → ℕ → Db → SignOutcome
unfolding payout_row record_signature
commit_signature fails row r change_address change_index db =
    if fails signing row.order_id
    then failed
    else if is_in row.order_id payout_queued db
    then elim (withdrawal_of row.order_id db) [
      | none ↦ failed
      | some w ↦ elim (payout_row row w r.fee_sat db) [
        | none ↦ failed
        | some created ↦ record_signature row r change_address change_index created
      ]
    ]
    else signed db

module _ (sign : List UtxoInput → List TxOutputSpec → Result TxError SignedTx)
    (change_address_of : ℕ → Text) (fee_rate : ℕ) (fails : Write → ℕ → Bool) where
  unfoldable pub build_and_sign_payout : QueuedPayoutRow → Db → SignOutcome
  unfolding commit_signature next_change_index
  build_and_sign_payout row db =
      let change_index = next_change_index db in
      let change_address = change_address_of change_index in
      elim (select_all (has_status available) db.bridge_utxos) [
        | [] ↦ failed
        | u ∷ us ↦
            elim (build_payout_tx sign (inputs_of (u ∷ us)) row.amount_sat row.dobbscoin_address
              change_address fee_rate) [
                | err e ↦ failed
                | ok r ↦ commit_signature fails row r change_address change_index db
              ]
      ]
