-- ===== src/Payout/PollMoves.antt =====
-- The states of the orders under `confirmBroadcast` and a whole `poll` of
-- backend/src/executor/payout-executor.ts.
use wbob_bridge.Prelude.{
  ℕ, ◌+◌, ◌≡◌, Bool, true, false, ◌||◌, none, some, List, [], ◌∷◌, ◌==◌, ltb, Bool-cases,
  Option-cases, inl, inr,
}
use wbob_bridge.Prelude.Text.{Text}
use wbob_bridge.Shared.Result.{Result, ok, err, Result-cases}
use wbob_bridge.Shared.Outbound.{
  OutboundState, payout_broadcast, payout_confirmed, completed, manual_review,
}
use wbob_bridge.TxBuilder.{UtxoInput, TxOutputSpec, TxError, SignedTx}
use wbob_bridge.TxBuilder.RawTx.{RawTx}
use wbob_bridge.Gnosis.BurnVerifier.{BurnClaim, BurnVerdict}
use wbob_bridge.Payout.Node.{Node, RpcError, get_confirmations, is_in_mempool}
use wbob_bridge.Payout.Tables.{
  Db, Write, parking, confirming, recording, completing, no_metadata, state_transition,
  transition_outbound,
}
use wbob_bridge.Payout.Queue.{process_queued}
use wbob_bridge.Payout.Broadcast.{broadcast_signed}
use wbob_bridge.Payout.Confirm.{
  BroadcastPayoutRow, ResendEntry, PollState, Resent, out, unknown, refused_again, after_resend,
  resent, resend_forgotten, resend_forgotten_max_failures, get_entry, set_entry, sent_recently,
  is_recent, stored_hex, then_record, confirm_payout, if_out_of_pool, confirm_row, confirm_rows,
  confirm_broadcast, broadcast_rows_of, payout_min_confirmations, after_queue, poll_payouts,
}
use wbob_bridge.Payout.Moves.{Walks, WalkTo, state_in, Walks-refl, Walks-trans, transition-Walks}
use wbob_bridge.Payout.SigningMoves.{park-Walks, process_queued-Walks}
use wbob_bridge.Payout.BroadcastMoves.{broadcast_signed-Walks}

abbrev PollWalks : PollState → PollState → Type 0
PollWalks s s' = Walks s.db.bridge_orders s'.db.bridge_orders

PollWalks-refl : (s : PollState) → PollWalks s s
PollWalks-refl s = Walks-refl s.db.bridge_orders

module _ (node : Node) (txid_of : RawTx → ℕ) (fails : Write → ℕ → Bool) (now : ℕ) where
  after_resend-Walks :
      (row : BroadcastPayoutRow) (e : ResendEntry) (r : Resent) (s : PollState)
      → PollWalks s (after_resend node txid_of fails now row e r s)
  unfolding after_resend
  after_resend-Walks row e out s = PollWalks-refl s
  after_resend-Walks row e unknown s = PollWalks-refl s
  after_resend-Walks row e refused_again s =
      elim (Bool-cases (ltb (e.failures + 1) resend_forgotten_max_failures)) [
        | inl again ↦ rw (after_resend, again) (PollWalks-refl s)
        | inr enough ↦
            rw (after_resend, enough)
              (transition-Walks fails parking row.order_id payout_broadcast manual_review
                state_transition no_metadata s.db)
      ]

  resend_forgotten-Walks :
      (row : BroadcastPayoutRow) (s : PollState)
      → PollWalks s (resend_forgotten node txid_of fails now row s)
  unfolding resend_forgotten
  resend_forgotten-Walks row s =
      let e = record (get_entry row.payout_id s.resend_state) { last = now } in
      elim (Bool-cases (
        sent_recently now row.broadcast_at
        || is_recent now (get_entry row.payout_id s.resend_state).last)) [
          | inl young ↦ rw (resend_forgotten, young) (PollWalks-refl s)
          | inr old ↦ elim (Option-cases (stored_hex node txid_of fails now row s.db)) [
            | inl missing ↦
                rw (resend_forgotten, old, missing)
                  (park-Walks fails row.order_id payout_broadcast s.db)
            | inr (hex, there) ↦
                rw (resend_forgotten, old, there)
                  (after_resend-Walks row e (resent (node.send_raw_transaction hex))
                    (record s { resend_state = set_entry e s.resend_state }))
          ]
        ]

  then_record-Walks :
      (row : BroadcastPayoutRow) (confs : ℕ) (before : Db) (step : Db × Bool)
      → Walks before.bridge_orders step.0.bridge_orders
      → Walks before.bridge_orders
          (then_record node txid_of fails now row confs step).0.bridge_orders
  then_record-Walks row confs before (db, false) w = w
  then_record-Walks row confs before (db, true) w =
      elim (Bool-cases (fails recording row.order_id)) [
        | inl broken ↦ rw (broken) w
        | inr fine ↦ rw (fine) (
            Walks-trans before.bridge_orders db.bridge_orders _ w (
              transition-Walks fails completing row.order_id payout_confirmed completed
                state_transition (record no_metadata { txid = some row.txid }) _))
      ]

  confirm_payout-Walks :
      (row : BroadcastPayoutRow) (confs : ℕ) (db : Db)
      → Walks db.bridge_orders (confirm_payout node txid_of fails now row confs db).0.bridge_orders
  unfolding confirm_payout
  confirm_payout-Walks row confs db =
      then_record-Walks row confs db
        (transition_outbound fails confirming row.order_id payout_broadcast payout_confirmed
          (record no_metadata { txid = some row.txid }) db)
        (transition-Walks fails confirming row.order_id payout_broadcast payout_confirmed
          state_transition (record no_metadata { txid = some row.txid }) db)

  if_out_of_pool-Walks :
      (row : BroadcastPayoutRow) (r : Result RpcError Bool) (s : PollState)
      → PollWalks s (if_out_of_pool node txid_of fails now row r s)
  if_out_of_pool-Walks row (err e) s = PollWalks-refl s
  if_out_of_pool-Walks row (ok true) s = PollWalks-refl s
  if_out_of_pool-Walks row (ok false) s = resend_forgotten-Walks row s

  counted-Walks :
      (row : BroadcastPayoutRow) (confs : ℕ) (s : PollState)
      → get_confirmations node row.txid ≡ ok (some confs)
      → PollWalks s (confirm_row node txid_of fails now row s).0
  unfolding confirm_row
  counted-Walks row confs s known = elim (Bool-cases (confs == 0)) [
    | inl unmined ↦
        rw (known, confirm_row, unmined) (if_out_of_pool-Walks row (is_in_mempool node row.txid) s)
    | inr mined ↦ elim (Bool-cases (ltb confs payout_min_confirmations)) [
      | inl few ↦ rw (known, confirm_row, mined, few) (PollWalks-refl s)
      | inr enough ↦ rw (known, confirm_row, mined, enough) (confirm_payout-Walks row confs s.db)
    ]
  ]

  confirm_row-Walks :
      (row : BroadcastPayoutRow) (s : PollState)
      → PollWalks s (confirm_row node txid_of fails now row s).0
  unfolding confirm_row
  confirm_row-Walks row s = elim (Result-cases (get_confirmations node row.txid)) [
    | inr (e, bad) ↦ rw (bad, confirm_row) (PollWalks-refl s)
    | inl (none, forgotten) ↦ rw (forgotten, confirm_row) (resend_forgotten-Walks row s)
    | inl (some confs, known) ↦ counted-Walks row confs s known
  ]

  confirm_rows-Walks :
      (rows : List BroadcastPayoutRow) (s : PollState)
      → PollWalks s (confirm_rows node txid_of fails now rows s).0
  unfolding confirm_rows
  confirm_rows-Walks [] s = PollWalks-refl s
  confirm_rows-Walks (row ∷ rows) s =
      let next = confirm_row node txid_of fails now row s in
      elim (Bool-cases next.1) [
        | inr thrown ↦ rw (thrown, confirm_rows) (confirm_row-Walks row s)
        | inl returned ↦
            rw (returned, confirm_rows)
              (Walks-trans s.db.bridge_orders next.0.db.bridge_orders
                (confirm_rows node txid_of fails now rows next.0).0.db.bridge_orders
                (confirm_row-Walks row s) (confirm_rows-Walks rows next.0))
      ]

  confirm_broadcast-Walks :
      (s : PollState) → PollWalks s (confirm_broadcast node txid_of fails now s).0
  unfolding confirm_broadcast
  confirm_broadcast-Walks s = confirm_rows-Walks (broadcast_rows_of s.db s.db.payouts) s

  module _ (verify : BurnClaim → BurnVerdict)
      (sign : List UtxoInput → List TxOutputSpec → Result TxError SignedTx)
      (change_address_of : ℕ → Text) (fee_rate payout_min_sat : ℕ) where
    after_queue-Walks :
        (before : Db) (entries : List ResendEntry) (step : Db × Bool)
        → Walks before.bridge_orders step.0.bridge_orders
        → Walks before.bridge_orders
            (after_queue node txid_of fails now verify sign change_address_of fee_rate
              payout_min_sat entries step).0.db.bridge_orders
    after_queue-Walks before entries (db, false) w = w
    after_queue-Walks before entries (db, true) w =
        let sent = broadcast_signed node txid_of fails now db in
        Walks-trans before.bridge_orders sent.bridge_orders _
          (Walks-trans before.bridge_orders db.bridge_orders sent.bridge_orders w
            (broadcast_signed-Walks node txid_of fails now db))
          (confirm_broadcast-Walks (record { db = sent; resend_state = entries }))

    -- However the node, the burn verifier, the signer and the database answer during a poll, every
    -- order is still there after it, in a state that the outbound graph reaches from the one it had.
    pub poll_payouts-Walks :
        (s : PollState) (i : ℕ) (from : OutboundState)
        → state_in i s.db.bridge_orders ≡ some from
        → (to : OutboundState) × ((state_in i
                (poll_payouts node txid_of fails now verify sign change_address_of fee_rate
                  payout_min_sat s).0.db.bridge_orders
              ≡ some to)
            × WalkTo from to)
    unfolding poll_payouts
    poll_payouts-Walks s =
        after_queue-Walks s.db s.resend_state
          (process_queued node txid_of verify sign change_address_of fee_rate payout_min_sat fails
            s.db)
          (process_queued-Walks node txid_of verify sign change_address_of fee_rate payout_min_sat
            fails s.db)
