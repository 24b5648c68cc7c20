-- ===== src/Payout/Broadcast.antt =====
-- backend/src/executor/payout-executor.ts, `broadcastSigned`: sending the signed transaction, and what
-- its answer means for the coins. `now` is the time of the poll.
use wbob_bridge.Prelude.{
  ℕ, ◌+◌, Bool, true, false, ◌&&◌, ◌||◌, not, Option, none, some, List, [], ◌∷◌, ◌++◌, ◌==◌, ltb,
  if◌then◌else◌, length, max,
}
use wbob_bridge.Prelude.Text.{Text}
use wbob_bridge.Prelude.Tables.{select_one, select_all, select_last, update_where, any_row}
use wbob_bridge.Shared.Result.{ok, err}
use wbob_bridge.Shared.Outbound.{payout_signed, payout_broadcast, manual_review, same_outbound}
use wbob_bridge.TxBuilder.RawTx.{RawTx, TxInput, tx_inputs_from_raw_hex}
use wbob_bridge.Payout.Node.{
  Node, NodeHas, RpcError, in_mempool, in_chain, nowhere, unreachable, node_has, has_code,
  is_definite_rejection, is_transient,
}
use wbob_bridge.Payout.Tables.{
  PayoutOrder, WithdrawalRequest, PayoutRow, BridgeUtxo, PayoutAudit, Metadata, Db, Write,
  attempting, committing, refusing, releasing, parking, available, reserved, spent, signed_payout,
  retry_same_tx, broadcast_attempt, broadcast_refused, sent_out_of_state, state_transition,
  no_metadata, same_event, same_id, order_is, payout_is, is_outpoint, held_by, has_status,
  append_audit, set_order_state, is_in, state_of_order, transition_outbound,
}

-- A row of the query: the newest signature of a payout that was not sent.
pub record SignedPayoutRow : Type 0 where
  pub order_id : ℕ
  pub payout_id : ℕ
  pub signed_hex : Option RawTx
  pub change_sat : ℕ
  pub change_address : Option Text
  pub change_index : Option ℕ

abbrev pub signs : ℕ → ℕ → PayoutAudit → Bool
signs order_id payout_id a =
    (a.order_id == order_id)
    && (same_event a.event_type signed_payout && same_id a.metadata.payout_id payout_id)

abbrev pub signed_row : ℕ → ℕ → PayoutAudit → SignedPayoutRow
signed_row order_id payout_id a = record {
  order_id = order_id;
  payout_id = payout_id;
  signed_hex = a.metadata.signed_hex;
  change_sat = a.metadata.change_sat;
  change_address = a.metadata.change_address;
  change_index = a.metadata.change_index;
}

-- The order of a payout, through its withdrawal request.
abbrev pub order_of_payout : PayoutRow → Db → Option PayoutOrder
order_of_payout p db =
    elim (select_one (λ (w : WithdrawalRequest). w.id == p.withdrawal_request_id)
      db.withdrawal_requests) [
        | none ↦ none
        | some w ↦ select_one (order_is w.order_id) db.bridge_orders
      ]

abbrev pub is_unsent_row : PayoutRow → Bool
is_unsent_row p = elim p.txid [ none ↦ true | some t ↦ false ]

unfoldable pub signed_rows_of : Db → List PayoutRow → List SignedPayoutRow
signed_rows_of db [] = []
signed_rows_of db (p ∷ ps) =
    let rest = signed_rows_of db ps in
    elim (order_of_payout p db) [
      | none ↦ rest
      | some o ↦
          if same_outbound o.state payout_signed && is_unsent_row p
          then elim (select_last (signs o.id p.id) db.audit_events) [
            | none ↦ rest
            | some a ↦ signed_row o.id p.id a ∷ rest
          ]
          else rest
    ]

-- `_recordBroadcastAttempt`: what happened to this transaction before. Attempts less refusals is only
-- compared with 0, so the two counts are kept.
pub record History : Type 0 where
  pub attempts : ℕ
  pub refusals : ℕ
  pub since_retry : ℕ
  pub retried : Bool

abbrev pub concerns : PayoutAudit → ℕ → ℕ → Bool
concerns a order_id payout_id = (a.order_id == order_id) && same_id a.metadata.payout_id payout_id

abbrev pub is_attempt : ℕ → ℕ → PayoutAudit → Bool
is_attempt order_id payout_id a =
    concerns a order_id payout_id && same_event a.event_type broadcast_attempt

-- The txid, or a row of the time before the txid was recorded.
abbrev pub may_be : ℕ → PayoutAudit → Bool
may_be txid a = elim a.metadata.txid [ none ↦ true | some t ↦ t == txid ]

abbrev pub is_refused : ℕ → ℕ → ℕ → PayoutAudit → Bool
is_refused order_id payout_id txid a =
    concerns a order_id payout_id
    && (same_event a.event_type broadcast_refused && same_id a.metadata.txid txid)

abbrev pub is_retry : ℕ → ℕ → PayoutAudit → Bool
is_retry order_id payout_id a =
    concerns a order_id payout_id && same_event a.event_type retry_same_tx

abbrev pub max_id : List PayoutAudit → ℕ
max_id [] = 0
max_id (a ∷ more) = max a.id (max_id more)

unfoldable pub history_of : ℕ → ℕ → ℕ → Db → History
history_of order_id payout_id txid db =
    let last_retry = max_id (select_all (is_retry order_id payout_id) db.audit_events) in
    let tried = select_all (is_attempt order_id payout_id) db.audit_events in
    record {
      attempts = length (select_all (may_be txid) tried);
      refusals = length (select_all (is_refused order_id payout_id txid) db.audit_events);
      since_retry = length (
          select_all (λ (a : PayoutAudit). same_id a.metadata.txid txid && ltb last_retry a.id)
            tried);
      retried = ltb 0 last_retry;
    }

abbrev pub attempt_metadata : ℕ → ℕ → Metadata
attempt_metadata payout_id txid = record no_metadata {
  payout_id = some payout_id;
  txid = some txid;
}

abbrev pub record_attempt : ℕ → ℕ → ℕ → Db → Db
record_attempt order_id payout_id txid db =
    append_audit order_id broadcast_attempt (some payout_signed) (some payout_signed)
      (attempt_metadata payout_id txid) db

-- `_recordRefusal`; a throw is logged.
unfoldable pub record_refusal : (Write → ℕ → Bool) → ℕ → ℕ → ℕ → Db → Db
record_refusal fails order_id payout_id txid db =
    if fails refusing order_id
    then db
    else append_audit order_id broadcast_refused (some payout_signed) (some payout_signed)
        (attempt_metadata payout_id txid) db

abbrev pub set_sent : ℕ → ℕ → PayoutRow → PayoutRow
set_sent txid now p = record p { txid = some txid; broadcast_at = some now }

abbrev pub set_spent : BridgeUtxo → BridgeUtxo
set_spent u = record u { status = spent }

abbrev pub set_spent_by : ℕ → BridgeUtxo → BridgeUtxo
set_spent_by payout_id u = record u { status = spent; spent_payout_id = some payout_id }

unfoldable pub spend_inputs : ℕ → List TxInput → List BridgeUtxo → List BridgeUtxo
spend_inputs payout_id [] utxos = utxos
spend_inputs payout_id (i ∷ is) utxos =
    spend_inputs payout_id is
      (update_where (is_outpoint i.txid i.vout) (set_spent_by payout_id) utxos)

-- The change output as a new coin; ON CONFLICT (txid, vout) DO NOTHING.
unfoldable pub ingest_change : SignedPayoutRow → ℕ → List BridgeUtxo → List BridgeUtxo
ingest_change row txid utxos =
    if ltb 0 row.change_sat
    then elim row.change_address [
      | none ↦ utxos
      | some address ↦ elim row.change_index [
        | none ↦ utxos
        | some index ↦
            if any_row (is_outpoint txid 1) utxos
            then utxos
            else utxos
              ++ record {
                order_id = row.order_id;
                txid = txid;
                vout = 1;
                amount_sat = row.change_sat;
                address = address;
                hd_index = index;
                is_change = true;
                status = available;
                spent_payout_id = none;
                spent_refund_id = none;
              }
                ∷ []
      ]
    ]
    else utxos

abbrev pub parsed_inputs : Option RawTx → List TxInput
parsed_inputs none = []
parsed_inputs (some hex) = elim (tx_inputs_from_raw_hex hex) [ none ↦ [] | some is ↦ is ]

abbrev pub mark_sent : SignedPayoutRow → ℕ → ℕ → Db → Db
mark_sent row txid now db = record db {
  payouts = update_where (payout_is row.payout_id) (set_sent txid now) db.payouts;
  bridge_utxos = update_where (held_by row.payout_id) set_spent db.bridge_utxos;
}

-- The order moved meanwhile: the coins are spent all the same. For a missing order both states of the
-- audit row are `none`, where the code writes the text UNKNOWN as the second.
unfoldable pub commit_out_of_state : SignedPayoutRow → ℕ → ℕ → Db → Db
unfolding spend_inputs ingest_change
commit_out_of_state row txid now db =
    let sent = mark_sent row txid now db in
    append_audit row.order_id sent_out_of_state (state_of_order row.order_id db)
      (state_of_order row.order_id db) (attempt_metadata row.payout_id txid)
      (record sent {
        bridge_utxos =
            ingest_change row txid
              (spend_inputs row.payout_id (parsed_inputs row.signed_hex) sent.bridge_utxos);
      })

unfoldable pub commit_in_state : SignedPayoutRow → ℕ → ℕ → Db → Db
unfolding ingest_change
commit_in_state row txid now db =
    let sent = mark_sent row txid now db in
    append_audit row.order_id state_transition (some payout_signed) (some payout_broadcast)
      (record no_metadata { txid = some txid })
      (set_order_state row.order_id payout_broadcast
        (record sent { bridge_utxos = ingest_change row txid sent.bridge_utxos }))

-- `_commitBroadcast`; a throw is logged and the next poll sends again.
unfoldable pub commit_broadcast : (Write → ℕ → Bool) → SignedPayoutRow → ℕ → ℕ → Db → Db
unfolding commit_in_state commit_out_of_state
commit_broadcast fails row txid now db =
    if fails committing row.order_id
    then db
    else if is_in row.order_id payout_signed db
    then commit_in_state row txid now db
    else commit_out_of_state row txid now db

abbrev pub is_held : ℕ → BridgeUtxo → Bool
is_held payout_id u = held_by payout_id u && has_status reserved u

abbrev pub release : BridgeUtxo → BridgeUtxo
release u = record u { status = available; spent_payout_id = none }

-- `_parkAndRelease`.
unfoldable pub park_and_release : (Write → ℕ → Bool) → ℕ → ℕ → Db → Db
park_and_release fails order_id payout_id db =
    if fails releasing order_id
    then db
    else if is_in order_id payout_signed db
    then append_audit order_id state_transition (some payout_signed) (some manual_review)
        no_metadata
        (set_order_state order_id manual_review
          (record db { bridge_utxos = update_where (is_held payout_id) release db.bridge_utxos }))
    else db

-- Re-sends of the same signed tx before it is parked.
abbrev pub max_send_attempts : ℕ
max_send_attempts = 240

abbrev pub node_holds : NodeHas → Bool
node_holds in_mempool = true
node_holds in_chain = true
node_holds nowhere = false
node_holds unreachable = false

pub data AfterRefusal : Type 0 where
  release_coins decide_later go_on : AfterRefusal

-- Step 4: whether a definite refusal frees the coins.
unfoldable pub after_refusal : History → NodeHas → AfterRefusal
after_refusal h has =
    if (h.attempts == h.refusals) && not h.retried
    then elim has [
      | nowhere ↦ release_coins
      | unreachable ↦ decide_later
      | in_mempool ↦ go_on
      | in_chain ↦ go_on
    ]
    else go_on

module _ (node : Node) (txid_of : RawTx → ℕ) (fails : Write → ℕ → Bool) (now : ℕ) where
  -- Steps 5 and 6: send again later, or park with the coins held.
  unfoldable pub retry_or_park : SignedPayoutRow → RpcError → History → Db → Db
  retry_or_park row e h db =
      if is_transient e && ltb (h.since_retry + 1) max_send_attempts
      then db
      else (transition_outbound fails parking row.order_id payout_signed manual_review no_metadata
          db).0

  -- Steps 3 to 6, after a failed send.
  unfoldable pub after_failure : SignedPayoutRow → ℕ → RpcError → History → Db → Db
  unfolding commit_broadcast park_and_release record_refusal after_refusal retry_or_park
  after_failure row txid e h db =
      let has = node_has node txid in
      if has_code 27 e || node_holds has
      then commit_broadcast fails row txid now db
      else if is_definite_rejection e
      then (let refused = record_refusal fails row.order_id row.payout_id txid db in
          elim (after_refusal h has) [
            | release_coins ↦ park_and_release fails row.order_id row.payout_id refused
            | decide_later ↦ refused
            | go_on ↦ retry_or_park row e h refused
          ])
      else retry_or_park row e h db

  unfoldable pub send_row : SignedPayoutRow → RawTx → History → Db → Db
  unfolding commit_broadcast after_failure
  send_row row hex h db = elim (node.send_raw_transaction hex) [
    | ok txid ↦ commit_broadcast fails row txid now db
    | err e ↦ after_failure row (txid_of hex) e h db
  ]

  -- One turn of the loop of `broadcastSigned`.
  unfoldable pub broadcast_row : SignedPayoutRow → Db → Db
  unfolding send_row history_of
  broadcast_row row db = elim row.signed_hex [
    | none ↦ db
    | some hex ↦
        let h = history_of row.order_id row.payout_id (txid_of hex) db in
        if fails attempting row.order_id
        then db
        else send_row row hex h (record_attempt row.order_id row.payout_id (txid_of hex) db)
  ]

  unfoldable pub broadcast_rows : List SignedPayoutRow → Db → Db
  unfolding broadcast_row
  broadcast_rows [] db = db
  broadcast_rows (row ∷ rows) db = broadcast_rows rows (broadcast_row row db)

  -- `broadcastSigned`.
  unfoldable pub broadcast_signed : Db → Db
  unfolding broadcast_rows signed_rows_of
  broadcast_signed db = broadcast_rows (signed_rows_of db db.payouts) db
