-- ===== src/Payout/Queue.antt =====
-- backend/src/executor/payout-executor.ts, `processQueued`: what becomes of each queued withdrawal.
use wbob_bridge.Prelude.{
  ℕ, Bool, true, false, ◌||◌, Option, none, some, List, [], ◌∷◌, ltb, if◌then◌else◌,
}
use wbob_bridge.Prelude.Text.{Text}
use wbob_bridge.Shared.Result.{Result}
use wbob_bridge.Shared.Outbound.{OutboundState, payout_queued, payout_signed, manual_review}
use wbob_bridge.TxBuilder.{UtxoInput, TxOutputSpec, TxError, SignedTx}
use wbob_bridge.TxBuilder.RawTx.{RawTx}
use wbob_bridge.Gnosis.BurnVerifier.{BurnClaim, BurnVerdict}
use wbob_bridge.Payout.Node.{Node}
use wbob_bridge.Payout.Tables.{
  Db, Write, parking, retrying, retry_same_tx, no_metadata, transition_generic, transition_outbound,
}
use wbob_bridge.Payout.Checks.{
  QueuedPayoutRow, Check, pass, defer, refuse, queued_rows_of, unpayable_reason, check_older,
  older_of, check_unpaid, check_burn, and_then,
}
use wbob_bridge.Payout.Signing.{SignOutcome, signed, raced, failed, build_and_sign_payout}

-- `_park`: a throw is logged, and the order stays where it is.
unfoldable pub park : (Write → ℕ → Bool) → ℕ → OutboundState → Db → Db
unfolding transition_generic
park fails order_id from db =
    (transition_outbound fails parking order_id from manual_review no_metadata db).0

abbrev pub is_some : Option ℕ → Bool
is_some none = false
is_some (some t) = true

-- What the row's own payout calls for.
pub data Retry : Type 0 where
  sign_anew : Retry
  refuse_retry : Retry
  resend_same_tx : ℕ → Retry

unfoldable pub retry_of : QueuedPayoutRow → Retry
retry_of row = elim row.payout_id [
  | none ↦ sign_anew
  | some p ↦
      if is_some row.payout_txid || ltb 0 row.spent_utxos
      then refuse_retry
      else if ltb 0 row.held_utxos
      then resend_same_tx p
      else sign_anew
]

module _ (node : Node) (txid_of : RawTx → ℕ) (verify : BurnClaim → BurnVerdict)
    (sign : List UtxoInput → List TxOutputSpec → Result TxError SignedTx)
    (change_address_of : ℕ → Text) (fee_rate payout_min_sat : ℕ) (fails : Write → ℕ → Bool) where
  -- The older transactions are asked about only where a payout row is signed anew.
  unfoldable pub check_resign : QueuedPayoutRow → Db → Check
  unfolding check_older
  check_resign row db = elim row.payout_id [
    | none ↦ pass
    | some p ↦ check_older node txid_of verify (older_of row.order_id p db)
  ]

  -- Everything that is checked before a new signature.
  unfoldable pub check_signable : QueuedPayoutRow → Db → Check
  unfolding check_resign check_unpaid check_burn
  check_signable row db =
      and_then (check_resign row db)
        (and_then (check_unpaid node txid_of verify row db) (check_burn node txid_of verify row))

  abbrev pub after_signing : QueuedPayoutRow → Db → SignOutcome → Db
  after_signing row db (signed db') = db'
  after_signing row db raced = db
  after_signing row db failed = park fails row.order_id payout_queued db

  -- A row that may be signed anew.
  unfoldable pub sign_row : QueuedPayoutRow → Db → Db
  unfolding check_signable build_and_sign_payout park
  sign_row row db = elim (check_signable row db) [
    | defer ↦ db
    | refuse r ↦ park fails row.order_id payout_queued db
    | pass ↦
        after_signing row db (build_and_sign_payout sign change_address_of fee_rate fails row db)
  ]

  -- One turn of the loop. The flag says that it did not throw.
  unfoldable pub queue_row : QueuedPayoutRow → Db → Db × Bool
  unfolding sign_row park transition_generic
  queue_row row db = elim (unpayable_reason payout_min_sat row) [
    | some r ↦ (park fails row.order_id payout_queued db, true)
    | none ↦ elim (retry_of row) [
      | refuse_retry ↦ (park fails row.order_id payout_queued db, true)
      | resend_same_tx p ↦
          transition_generic fails retrying row.order_id payout_queued payout_signed retry_same_tx
            (record no_metadata { payout_id = some p }) db
      | sign_anew ↦ (sign_row row db, true)
    ]
  ]

  unfoldable pub queue_rows : List QueuedPayoutRow → Db → Db × Bool
  unfolding queue_row
  queue_rows [] db = (db, true)
  queue_rows (row ∷ rows) db =
      let (db', returned) = queue_row row db in
      elim returned [ false ↦ (db', false) | true ↦ queue_rows rows db' ]

  -- `processQueued`.
  unfoldable pub process_queued : Db → Db × Bool
  unfolding queue_rows queued_rows_of
  process_queued db = queue_rows (queued_rows_of db db.bridge_orders) db
