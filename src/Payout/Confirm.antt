-- ===== src/Payout/Confirm.antt =====
-- backend/src/executor/payout-executor.ts, `confirmBroadcast`, `_resendForgotten` and `poll`.
-- `now` is Date.now() in milliseconds, the same for the whole poll.
use wbob_bridge.Prelude.{
  ℕ, ◌+◌, Bool, true, false, ◌||◌, not, Option, none, some, List, [], ◌∷◌, ◌==◌, ltb, leb,
  if◌then◌else◌,
}
use wbob_bridge.Prelude.Int.{ltb_ℤ, sub_ℕ, pos}
use wbob_bridge.Prelude.Text.{Text}
use wbob_bridge.Prelude.Tables.{select_one, select_all, select_last, update_where}
use wbob_bridge.Shared.Result.{Result, ok, err}
use wbob_bridge.Shared.Outbound.{
  payout_broadcast, payout_confirmed, completed, manual_review, same_outbound,
}
use wbob_bridge.TxBuilder.{UtxoInput, TxOutputSpec, TxError, SignedTx}
use wbob_bridge.TxBuilder.RawTx.{RawTx}
use wbob_bridge.Gnosis.BurnVerifier.{BurnClaim, BurnVerdict}
use wbob_bridge.Payout.Node.{Node, RpcError, get_confirmations, is_in_mempool, has_code, is_network}
use wbob_bridge.Payout.Tables.{
  PayoutRow, PayoutAudit, Db, Write, parking, confirming, recording, completing, no_metadata,
  payout_is, transition_outbound,
}
use wbob_bridge.Payout.Queue.{park, process_queued}
use wbob_bridge.Payout.Broadcast.{order_of_payout, signs, broadcast_signed}

pub record BroadcastPayoutRow : Type 0 where
  pub order_id : ℕ
  pub payout_id : ℕ
  pub txid : ℕ
  pub broadcast_at : Option ℕ

-- `ORDER BY p.broadcast_at ASC NULLS FIRST`.
abbrev pub sent_before : Option ℕ → Option ℕ → Bool
sent_before none b = true
sent_before (some a) none = false
sent_before (some a) (some b) = leb a b

unfoldable pub insert_by_time :
    BroadcastPayoutRow → List BroadcastPayoutRow → List BroadcastPayoutRow
insert_by_time r [] = r ∷ []
insert_by_time r (x ∷ xs) =
    if sent_before r.broadcast_at x.broadcast_at then r ∷ x ∷ xs else x ∷ insert_by_time r xs

unfoldable pub broadcast_rows_of : Db → List PayoutRow → List BroadcastPayoutRow
unfolding insert_by_time
broadcast_rows_of db [] = []
broadcast_rows_of db (p ∷ ps) =
    let rest = broadcast_rows_of db ps in
    elim (order_of_payout p db) [
      | none ↦ rest
      | some o ↦ elim p.txid [
        | none ↦ rest
        | some txid ↦
            if same_outbound o.state payout_broadcast
            then insert_by_time
                (record {
                  order_id = o.id;
                  payout_id = p.id;
                  txid = txid;
                  broadcast_at = p.broadcast_at;
                })
                rest
            else rest
      ]
    ]

abbrev pub payout_min_confirmations : ℕ
payout_min_confirmations = 3

abbrev pub resend_forgotten_after_ms : ℕ
resend_forgotten_after_ms = 600000

abbrev pub resend_forgotten_max_failures : ℕ
resend_forgotten_max_failures = 3

-- An entry of `resendState`: the last re-send of a forgotten payout, and refusals in a row.
pub record ResendEntry : Type 0 where
  pub payout_id : ℕ
  pub last : ℕ
  pub failures : ℕ

abbrev pub entry_is : ℕ → ResendEntry → Bool
entry_is payout_id e = e.payout_id == payout_id

abbrev pub get_entry : ℕ → List ResendEntry → ResendEntry
get_entry payout_id entries = elim (select_one (entry_is payout_id) entries) [
  | none ↦ record { payout_id = payout_id; last = 0; failures = 0 }
  | some e ↦ e
]

abbrev pub delete_entry : ℕ → List ResendEntry → List ResendEntry
delete_entry payout_id entries =
    select_all (λ (e : ResendEntry). not (entry_is payout_id e)) entries

abbrev pub set_entry : ResendEntry → List ResendEntry → List ResendEntry
set_entry e entries = e ∷ delete_entry e.payout_id entries

-- The tables and the executor's own map. The flag says that the step did not throw.
pub record PollState : Type 0 where
  pub db : Db
  pub resend_state : List ResendEntry

abbrev pub set_confirmed : ℕ → ℕ → PayoutRow → PayoutRow
set_confirmed confs now p = record p { confirmed_at = some now; confirmations = confs }

-- What becomes of a re-send: no word of the tx, it is out, or it was refused.
pub data Resent : Type 0 where
  out unknown refused_again : Resent

unfoldable pub resent : Result RpcError ℕ → Resent
resent (ok txid) = out
resent (err e) =
    if has_code 27 e then out else if is_network e || has_code 28 e then unknown else refused_again

-- Younger than RESEND_FORGOTTEN_AFTER_MS; a clock that runs back counts as young.
abbrev pub is_recent : ℕ → ℕ → Bool
is_recent now since = ltb_ℤ (sub_ℕ now since) (pos resend_forgotten_after_ms)

abbrev pub sent_recently : ℕ → Option ℕ → Bool
sent_recently now none = false
sent_recently now (some at) = is_recent now at

module _ (node : Node) (txid_of : RawTx → ℕ) (fails : Write → ℕ → Bool) (now : ℕ) where
  abbrev pub has_txid : ℕ → PayoutAudit → Bool
  has_txid txid a = elim a.metadata.signed_hex [ none ↦ false | some hex ↦ txid_of hex == txid ]

  -- The newest stored transaction with the recorded txid.
  abbrev pub stored_hex : BroadcastPayoutRow → Db → Option RawTx
  stored_hex row db =
      elim (select_last (has_txid row.txid)
        (select_all (signs row.order_id row.payout_id) db.audit_events)) [
          | none ↦ none
          | some a ↦ a.metadata.signed_hex
        ]

  unfoldable pub after_resend : BroadcastPayoutRow → ResendEntry → Resent → PollState → PollState
  after_resend row e out s = record s {
    resend_state = set_entry (record e { failures = 0 }) s.resend_state;
  }
  after_resend row e unknown s = s
  after_resend row e refused_again s =
      if ltb (e.failures + 1) resend_forgotten_max_failures
      then record s {
        resend_state = set_entry (record e { failures = e.failures + 1 }) s.resend_state;
      }
      else record {
        db =
            (transition_outbound fails parking row.order_id payout_broadcast manual_review
              no_metadata s.db).0;
        resend_state = delete_entry row.payout_id s.resend_state;
      }

  -- `_resendForgotten`.
  unfoldable pub resend_forgotten : BroadcastPayoutRow → PollState → PollState
  unfolding after_resend resent park
  resend_forgotten row s =
      let e = record (get_entry row.payout_id s.resend_state) { last = now } in
      let s' = record s { resend_state = set_entry e s.resend_state } in
      if sent_recently now row.broadcast_at
        || is_recent now (get_entry row.payout_id s.resend_state).last
      then s
      else elim (stored_hex row s.db) [
        | none ↦ record {
          db = park fails row.order_id payout_broadcast s.db;
          resend_state = delete_entry row.payout_id s.resend_state;
        }
        | some hex ↦ after_resend row e (resent (node.send_raw_transaction hex)) s'
      ]

  abbrev pub then_complete : BroadcastPayoutRow → Db → Db × Bool
  then_complete row db =
      transition_outbound fails completing row.order_id payout_confirmed completed
        (record no_metadata { txid = some row.txid }) db

  abbrev pub then_record : BroadcastPayoutRow → ℕ → Db × Bool → Db × Bool
  then_record row confs (db, false) = (db, false)
  then_record row confs (db, true) =
      if fails recording row.order_id
      then (db, false)
      else then_complete row (record db {
        payouts = update_where (payout_is row.payout_id) (set_confirmed confs now) db.payouts;
      })

  -- The two transitions of a confirmed payout; each is a transaction of its own.
  unfoldable pub confirm_payout : BroadcastPayoutRow → ℕ → Db → Db × Bool
  confirm_payout row confs db = then_record row confs (
      transition_outbound fails confirming row.order_id payout_broadcast payout_confirmed
        (record no_metadata { txid = some row.txid }) db)

  abbrev pub with_db : List ResendEntry → Db × Bool → PollState × Bool
  with_db entries (db, returned) = (record { db = db; resend_state = entries }, returned)

  -- A transaction with no confirmations is sent again only if it is in no mempool either.
  abbrev pub if_out_of_pool : BroadcastPayoutRow → Result RpcError Bool → PollState → PollState
  if_out_of_pool row (err e) s = s
  if_out_of_pool row (ok true) s = s
  if_out_of_pool row (ok false) s = resend_forgotten row s

  -- One turn of the loop of `confirmBroadcast`.
  unfoldable pub confirm_row : BroadcastPayoutRow → PollState → PollState × Bool
  unfolding confirm_payout resend_forgotten
  confirm_row row s = elim (get_confirmations node row.txid) [
    | err e ↦ (s, true)
    | ok none ↦ (resend_forgotten row s, true)
    | ok (some confs) ↦
        if confs == 0
        then (if_out_of_pool row (is_in_mempool node row.txid) s, true)
        else if ltb confs payout_min_confirmations
        then (s, true)
        else with_db (delete_entry row.payout_id s.resend_state) (confirm_payout row confs s.db)
  ]

  unfoldable pub confirm_rows : List BroadcastPayoutRow → PollState → PollState × Bool
  unfolding confirm_row
  confirm_rows [] s = (s, true)
  confirm_rows (row ∷ rows) s =
      let (s', returned) = confirm_row row s in
      elim returned [ false ↦ (s', false) | true ↦ confirm_rows rows s' ]

  -- `confirmBroadcast`.
  unfoldable pub confirm_broadcast : PollState → PollState × Bool
  unfolding confirm_rows broadcast_rows_of
  confirm_broadcast s = confirm_rows (broadcast_rows_of s.db s.db.payouts) s

  module _ (verify : BurnClaim → BurnVerdict)
      (sign : List UtxoInput → List TxOutputSpec → Result TxError SignedTx)
      (change_address_of : ℕ → Text) (fee_rate payout_min_sat : ℕ) where
    abbrev pub after_queue : List ResendEntry → Db × Bool → PollState × Bool
    after_queue entries (db, false) = (record { db = db; resend_state = entries }, false)
    after_queue entries (db, true) =
        confirm_broadcast
          (record { db = broadcast_signed node txid_of fails now db; resend_state = entries })

    -- `poll`, without the refunds that run after it.
    unfoldable pub poll_payouts : PollState → PollState × Bool
    unfolding process_queued broadcast_signed confirm_broadcast
    poll_payouts s = after_queue s.resend_state (
        process_queued node txid_of verify sign change_address_of fee_rate payout_min_sat fails
          s.db)
