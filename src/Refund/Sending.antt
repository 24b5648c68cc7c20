-- ===== src/Refund/Sending.antt =====
-- backend/src/executor/refund-executor.ts, `broadcastSigned` and `confirmBroadcast`. Alerts are left out.
use wbob_bridge.Prelude.{
  ℕ, Bool, true, false, ◌&&◌, ◌||◌, not, Option, none, some, List, [], ◌∷◌, ◌++◌, ltb, leb,
  if◌then◌else◌, length, ◌==◌,
}
use wbob_bridge.Prelude.Text.{Text, codes, contains, to_lower_case}
use wbob_bridge.Prelude.Tables.{select_one, select_all, update_where, any_row}
use wbob_bridge.Shared.Result.{Result, ok, err}
use wbob_bridge.TxBuilder.RawTx.{RawTx}
use wbob_bridge.Refund.Rows.{
  RefundStatus, RefundRow, signed, broadcast, confirmed, needs_attention, refund_broadcast,
  refund_confirmed, refund_is, is_refund_in, same_status,
}
use wbob_bridge.Refund.Signing.{
  RefundWrite, sending, counting, set_refund, audit_refund, try_audit, park_refund,
}
use wbob_bridge.Payout.Node.{
  Node, RpcError, rpc_call_error, rpc_network_error, is_code, get_confirmations,
}
use wbob_bridge.Payout.Tables.{BridgeUtxo, Db, available, spent, same_id, is_outpoint}

abbrev pub refund_min_confirmations : ℕ
refund_min_confirmations = 3

-- `ORDER BY signed_at`.
unfoldable pub insert_signed : RefundRow → List RefundRow → List RefundRow
insert_signed r [] = r ∷ []
insert_signed r (x ∷ xs) =
    if leb r.signed_at x.signed_at then r ∷ x ∷ xs else x ∷ insert_signed r xs

unfoldable pub sort_signed : List RefundRow → List RefundRow
unfolding insert_signed
sort_signed [] = []
sort_signed (r ∷ rs) = insert_signed r (sort_signed rs)

abbrev pub is_sendable : RefundRow → Bool
is_sendable r =
    same_status r.status signed && (elim r.signed_hex [ none ↦ false | some hex ↦ true ])

-- What a send means: out under a txid (`none` is null), refused, or no answer.
pub data Sent : Type 0 where
  is_out : Option ℕ → Sent
  is_refused is_unknown : Sent

unfoldable pub sent_as : RefundRow → Result RpcError ℕ → Sent
unfolding contains to_lower_case
sent_as r (ok txid) = is_out (some txid)
sent_as r (err (rpc_network_error method)) = is_unknown
sent_as r (err (rpc_call_error method code message)) =
    if is_code 27 code || contains (codes "already") (to_lower_case message)
    then is_out r.txid
    else is_refused

abbrev pub held_by_refund : ℕ → BridgeUtxo → Bool
held_by_refund refund_id u = same_id u.spent_refund_id refund_id

abbrev pub spend : BridgeUtxo → BridgeUtxo
spend u = record u { status = spent }

abbrev pub set_broadcast : Option ℕ → RefundRow → RefundRow
set_broadcast txid r = record r { status = broadcast; txid = txid }

abbrev pub change_coin : RefundRow → ℕ → ℕ → Text → ℕ → BridgeUtxo
change_coin r txid change address index = record {
  order_id = r.order_id;
  txid = txid;
  vout = 1;
  amount_sat = change;
  address = address;
  hd_index = index;
  is_change = true;
  status = available;
  spent_payout_id = none;
  spent_refund_id = none;
}

-- The change output as a new coin. `none` is a throw: the column txid of bridge_utxos is NOT NULL.
unfoldable pub ingest_refund_change :
    RefundRow → Option ℕ → List BridgeUtxo → Option (List BridgeUtxo)
ingest_refund_change r txid utxos = elim r.change_sat [
  | none ↦ some utxos
  | some change ↦ elim r.change_address [
    | none ↦ some utxos
    | some address ↦ elim r.change_index [
      | none ↦ some utxos
      | some index ↦ if not (ltb 0 change) then some utxos else elim txid [
        | none ↦ none
        | some t ↦ some (
            if any_row (is_outpoint t 1) utxos
            then utxos
            else utxos ++ change_coin r t change address index ∷ [])
      ]
    ]
  ]
]

abbrev pub is_status : RefundStatus → Option RefundRow → Bool
is_status status none = false
is_status status (some r) = same_status r.status status

-- The transaction of `broadcastSigned`.
unfoldable pub commit_sent : (RefundWrite → ℕ → Bool) → RefundRow → Option ℕ → Db → Db × Bool
unfolding ingest_refund_change
commit_sent fails r txid db =
    if fails sending r.id
    then (db, false)
    else if not (is_status signed (select_one (refund_is r.id) db.deposit_refunds))
    then (db, true)
    else elim (ingest_refund_change r txid
        (update_where (held_by_refund r.id) spend db.bridge_utxos)) [
          | none ↦ (db, false)
          | some utxos ↦ (
            audit_refund r refund_broadcast signed broadcast (
                set_refund (refund_is r.id) (set_broadcast txid)
                  (record db { bridge_utxos = utxos })),
            true,
          )
        ]

abbrev pub with_confirmations : ℕ → RefundRow → RefundRow
with_confirmations confs r = record r { confirmations = confs }

abbrev pub set_confirmed : ℕ → RefundRow → RefundRow
set_confirmed confs r = record r { status = confirmed; confirmations = confs }

-- The rows of the query of `confirmBroadcast`.
abbrev pub is_watched : RefundRow → Bool
is_watched r = same_status r.status broadcast && (elim r.txid [ none ↦ false | some t ↦ true ])

module _ (node : Node) (fails : RefundWrite → ℕ → Bool) where
  abbrev pub after_send : RefundRow → Sent → Db → Db × Bool
  after_send r (is_out txid) db = commit_sent fails r txid db
  after_send r is_refused db = park_refund fails r signed needs_attention db
  after_send r is_unknown db = (db, true)

  unfoldable pub send_refund : RefundRow → RawTx → Db → Db × Bool
  unfolding sent_as commit_sent park_refund
  send_refund r hex db = after_send r (sent_as r (node.send_raw_transaction hex)) db

  unfoldable pub send_refunds : List RefundRow → Db → Db × Bool
  unfolding send_refund
  send_refunds [] db = (db, true)
  send_refunds (r ∷ rs) db = elim r.signed_hex [
    | none ↦ send_refunds rs db
    | some hex ↦
        let (db', returned) = send_refund r hex db in
        elim returned [ false ↦ (db', false) | true ↦ send_refunds rs db' ]
  ]

  -- `broadcastSigned`.
  unfoldable pub broadcast_refunds : Db → Db × Bool
  unfolding send_refunds sort_signed
  broadcast_refunds db = send_refunds (sort_signed (select_all is_sendable db.deposit_refunds)) db

  -- A failed lookup counts as -1.
  abbrev pub count_of : Result RpcError (Option ℕ) → Option ℕ
  count_of (err e) = none
  count_of (ok n) = n

  unfoldable pub confirm_refund : RefundRow → ℕ → Db → Db × Bool
  confirm_refund r confs db =
      if fails counting r.id
      then (db, false)
      else if ltb confs refund_min_confirmations
      then (set_refund (is_refund_in r.id broadcast) (with_confirmations confs) db, true)
      else if length (select_all (is_refund_in r.id broadcast) db.deposit_refunds) == 0
      then (db, true)
      else try_audit fails r refund_confirmed broadcast confirmed
          (set_refund (is_refund_in r.id broadcast) (set_confirmed confs) db)

  -- One turn of the loop of `confirmBroadcast`.
  unfoldable pub watch_refund : RefundRow → Db → Db × Bool
  unfolding confirm_refund
  watch_refund r db = elim r.txid [
    | none ↦ (db, true)
    | some txid ↦ elim (count_of (get_confirmations node txid)) [
      | none ↦ (db, true)
      | some confs ↦ confirm_refund r confs db
    ]
  ]

  unfoldable pub watch_refunds : List RefundRow → Db → Db × Bool
  unfolding watch_refund
  watch_refunds [] db = (db, true)
  watch_refunds (r ∷ rs) db =
      let (db', returned) = watch_refund r db in
      elim returned [ false ↦ (db', false) | true ↦ watch_refunds rs db' ]

  -- `confirmBroadcast`.
  unfoldable pub confirm_refunds : Db → Db × Bool
  unfolding watch_refunds
  confirm_refunds db = watch_refunds (select_all is_watched db.deposit_refunds) db
