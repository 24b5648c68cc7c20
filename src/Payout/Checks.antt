-- ===== src/Payout/Checks.antt =====
-- backend/src/executor/payout-executor.ts: what is asked before a payout is signed.
-- `txid_of` is txidFromRawHex, a hash; `verify` is the burn verifier.
use wbob_bridge.Prelude.{
  ℕ, Bool, true, false, ◌&&◌, ◌||◌, not, Option, none, some, List, [], ◌∷◌, ◌==◌, ltb,
  if◌then◌else◌, length,
}
use wbob_bridge.Prelude.Text.{Text, text_eq}
use wbob_bridge.Prelude.Tables.{select_one, select_all, select_last, any_row}
use wbob_bridge.Shared.Result.{ok, err}
use wbob_bridge.Shared.Outbound.{payout_queued, same_outbound}
use wbob_bridge.TxBuilder.RawTx.{RawTx, TxInput, tx_inputs_from_raw_hex}
use wbob_bridge.Gnosis.Destination.{is_unpayable_destination}
use wbob_bridge.Gnosis.BurnVerifier.{BurnClaim, BurnVerdict, BurnFault, backed, deferred, refused}
use wbob_bridge.Payout.Node.{Node, NodeHas, in_mempool, in_chain, nowhere, unreachable, node_has}
use wbob_bridge.Payout.Tables.{
  PayoutOrder, WithdrawalRequest, PayoutRow, BridgeUtxo, PayoutAudit, Db, reserved, spent,
  order_created, signed_payout, sent_out_of_state, broadcast_payout, same_event, same_id, held_by,
  has_status,
}

-- A row of the query of `processQueued`. `withdrawal` is none where its columns are null.
pub record QueuedPayoutRow : Type 0 where
  pub order_id : ℕ
  pub dobbscoin_address : Text
  pub amount_sat : ℕ
  pub payout_id : Option ℕ
  pub payout_txid : Option ℕ
  pub held_utxos : ℕ
  pub spent_utxos : ℕ
  pub withdrawal : Option WithdrawalRequest
  pub same_burn_rows : ℕ

abbrev pub withdrawal_of : ℕ → Db → Option WithdrawalRequest
withdrawal_of order_id db =
    select_one (λ (w : WithdrawalRequest). w.order_id == order_id) db.withdrawal_requests

abbrev pub payout_of : Option WithdrawalRequest → Db → Option PayoutRow
payout_of none db = none
payout_of (some w) db = select_one (λ (p : PayoutRow). p.withdrawal_request_id == w.id) db.payouts

abbrev pub id_of : Option PayoutRow → Option ℕ
id_of none = none
id_of (some p) = some p.id

abbrev pub txid_of_row : Option PayoutRow → Option ℕ
txid_of_row none = none
txid_of_row (some p) = p.txid

-- The coins of a payout with a status, none without a payout.
abbrev pub held_coins : Option PayoutRow → List BridgeUtxo → (BridgeUtxo → Bool) → ℕ
held_coins none utxos p = 0
held_coins (some payout) utxos p =
    length (select_all (λ (u : BridgeUtxo). held_by payout.id u && p u) utxos)

abbrev pub same_burns : Option WithdrawalRequest → Db → ℕ
same_burns none db = 0
same_burns (some w) db = length (
    select_all
      (λ (o : WithdrawalRequest). not (o.id == w.id) && (o.withdrawal_id == w.withdrawal_id))
      db.withdrawal_requests)

unfoldable pub queued_row : Db → PayoutOrder → QueuedPayoutRow
queued_row db o =
    let w = withdrawal_of o.id db in
    let p = payout_of w db in
    record {
      order_id = o.id;
      dobbscoin_address = o.user_dobbscoin_address;
      amount_sat = o.amount_sat;
      payout_id = id_of p;
      payout_txid = txid_of_row p;
      held_utxos = held_coins p db.bridge_utxos (has_status reserved);
      spent_utxos = held_coins p db.bridge_utxos (has_status spent);
      withdrawal = w;
      same_burn_rows = same_burns w db;
    }

unfoldable pub queued_rows_of : Db → List PayoutOrder → List QueuedPayoutRow
unfolding queued_row
queued_rows_of db [] = []
queued_rows_of db (o ∷ os) =
    if same_outbound o.state payout_queued
    then queued_row db o ∷ queued_rows_of db os
    else queued_rows_of db os

-- Why a row is not signed: `defer` is retried at the next poll, `refuse` parks the order.
pub data Refusal : Type 0 where
  unpayable_destination below_minimum already_broadcast older_tx_known : Refusal
  no_withdrawal already_paid input_spent burn_rows_clash rows_disagree : Refusal
  burn_not_backed : BurnFault → Refusal
  signing_failed : Refusal

pub data Check : Type 0 where
  pass : Check
  defer : Check
  refuse : Refusal → Check

-- `unpayableDestinationReason ?? belowPayoutMinimumReason`.
unfoldable pub unpayable_reason : ℕ → QueuedPayoutRow → Option Refusal
unpayable_reason payout_min_sat row =
    if is_unpayable_destination row.dobbscoin_address
    then some unpayable_destination
    else if ltb payout_min_sat row.amount_sat
    then none
    else some below_minimum

-- A transaction that was signed before: its txid and its bytes, as far as they were recorded.
pub record EarlierTx : Type 0 where
  pub txid : Option ℕ
  pub hex : Option RawTx

abbrev pub earlier_of : PayoutAudit → EarlierTx
earlier_of a = record { txid = a.metadata.txid; hex = a.metadata.signed_hex }

abbrev pub earlier_all : List PayoutAudit → List EarlierTx
earlier_all [] = []
earlier_all (a ∷ more) = earlier_of a ∷ earlier_all more

abbrev pub has_number : ℕ → List ℕ → Bool
has_number n [] = false
has_number n (m ∷ ms) = if m == n then true else has_number n ms

-- The orders whose ORDER_CREATED row names the withdrawal.
abbrev pub creates : ℕ → ℕ → PayoutAudit → Bool
creates withdrawal_id order_id a =
    same_event a.event_type order_created
    && (same_id a.metadata.withdrawal_id withdrawal_id && (a.order_id == order_id))

abbrev pub tells_payment : PayoutAudit → Bool
tells_payment a =
    same_event a.event_type signed_payout
    || (same_event a.event_type sent_out_of_state || same_event a.event_type broadcast_payout)

-- The query of `_alreadyPaidReason`.
unfoldable pub signed_for : ℕ → ℕ → Db → List EarlierTx
signed_for withdrawal_id order_id db = earlier_all (
    select_all
      (λ (a : PayoutAudit).
        tells_payment a
        && ((a.order_id == order_id) || any_row (creates withdrawal_id a.order_id) db.audit_events))
      db.audit_events)

abbrev pub and_then : Check → Check → Check
and_then pass k = k
and_then defer k = defer
and_then (refuse r) k = refuse r

abbrev pub check_answer : NodeHas → Check → Check
check_answer nowhere k = k
check_answer unreachable k = defer
check_answer in_mempool k = refuse already_paid
check_answer in_chain k = refuse already_paid

abbrev pub older_of : ℕ → ℕ → Db → List EarlierTx
older_of order_id payout_id db = earlier_all (
    select_all
      (λ (a : PayoutAudit).
        (a.order_id == order_id)
        && (same_event a.event_type signed_payout && same_id a.metadata.payout_id payout_id))
      db.audit_events)

abbrev pub claim_of : QueuedPayoutRow → WithdrawalRequest → BurnClaim
claim_of row w = record {
  withdrawal_id = w.withdrawal_id;
  burn_tx_hash = w.burn_tx_hash;
  sender_address = w.sender_address;
  amount_sat = row.amount_sat;
  dobbscoin_address = row.dobbscoin_address;
}

abbrev pub check_verdict : BurnVerdict → Check
check_verdict backed = pass
check_verdict (deferred f) = defer
check_verdict (refused f) = refuse (burn_not_backed f)

module _ (node : Node) (txid_of : RawTx → ℕ) (verify : BurnClaim → BurnVerdict) where
  -- `txid ?? (hex ? txidFromRawHex(hex) : null)`.
  abbrev pub known_txid : EarlierTx → Option ℕ
  known_txid e = elim e.txid [
    | some t ↦ some t
    | none ↦ elim e.hex [ none ↦ none | some hex ↦ some (txid_of hex) ]
  ]

  -- The older transactions of the payout itself, before it is signed anew.
  unfoldable pub check_older : List EarlierTx → Check
  check_older [] = pass
  check_older (e ∷ es) = elim (known_txid e) [
    | none ↦ check_older es
    | some t ↦ elim (node_has node t) [
      | nowhere ↦ check_older es
      | unreachable ↦ defer
      | in_mempool ↦ refuse older_tx_known
      | in_chain ↦ refuse older_tx_known
    ]
  ]

  -- `hexOf`: the last hex that was set for the txid.
  abbrev pub names_hex : ℕ → EarlierTx → Bool
  names_hex t e = elim e.hex [ none ↦ false | some hex ↦ same_id (known_txid e) t ]

  abbrev pub hex_for : ℕ → List EarlierTx → Option RawTx
  hex_for t es = elim (select_last (names_hex t) es) [ none ↦ none | some e ↦ e.hex ]

  unfoldable pub check_inputs : List TxInput → Check
  check_inputs [] = pass
  check_inputs (i ∷ is) = elim (node.get_tx_out i.txid i.vout) [
    | err e ↦ defer
    | ok false ↦ refuse input_spent
    | ok true ↦ check_inputs is
  ]

  -- A hex that does not parse is passed over.
  unfoldable pub check_hex : Option RawTx → Check
  unfolding check_inputs
  check_hex none = pass
  check_hex (some hex) = elim (tx_inputs_from_raw_hex hex) [
    | none ↦ pass
    | some inputs ↦ check_inputs inputs
  ]

  -- The loop of `_alreadyPaidReason`, with the set of txids that were seen.
  unfoldable pub check_earlier : List EarlierTx → List EarlierTx → List ℕ → Check
  unfolding check_hex
  check_earlier all [] seen = pass
  check_earlier all (e ∷ es) seen = elim (known_txid e) [
    | none ↦ check_earlier all es seen
    | some t ↦ elim (has_number t seen) [
      | true ↦ check_earlier all es seen
      | false ↦
          check_answer (node_has node t)
            (and_then (check_hex (hex_for t all)) (check_earlier all es (t ∷ seen)))
    ]
  ]

  -- `_alreadyPaidReason`.
  unfoldable pub check_unpaid : QueuedPayoutRow → Db → Check
  unfolding check_earlier signed_for
  check_unpaid row db = elim row.withdrawal [
    | none ↦ refuse no_withdrawal
    | some w ↦
        let signed = signed_for w.withdrawal_id row.order_id db in check_earlier signed signed []
  ]

  -- `_burnNotBackedReason`.
  unfoldable pub check_burn : QueuedPayoutRow → Check
  check_burn row = elim row.withdrawal [
    | none ↦ refuse no_withdrawal
    | some w ↦
        if ltb 0 row.same_burn_rows
        then refuse burn_rows_clash
        else if not
            ((w.amount_sat == row.amount_sat) && text_eq w.dobbscoin_address row.dobbscoin_address)
        then refuse rows_disagree
        else check_verdict (verify (claim_of row w))
  ]
