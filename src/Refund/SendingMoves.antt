-- ===== src/Refund/SendingMoves.antt =====
-- The statuses of the refunds under `broadcastSigned` and `confirmBroadcast` of
-- backend/src/executor/refund-executor.ts.
use wbob_bridge.Prelude.{
  ℕ, ◌≡◌, refl, Bool, true, Option, some, List, [], ◌∷◌, ◌==◌, ltb, Bool-cases, Option-cases, inl,
  inr, length,
}
use wbob_bridge.Prelude.Tables.{select_one, select_all, update_where}
use wbob_bridge.TxBuilder.RawTx.{RawTx}
use wbob_bridge.Refund.Rows.{
  RefundStatus, RefundRow, signed, broadcast, confirmed, needs_attention, refund_confirmed,
  refund_is, is_refund_in, same_status,
}
use wbob_bridge.Refund.Signing.{RefundWrite, sending, counting, set_refund}
use wbob_bridge.Refund.Sending.{
  Sent, is_out, is_refused, is_unknown, sent_as, held_by_refund, spend, set_broadcast,
  ingest_refund_change, is_status, commit_sent, with_confirmations, set_confirmed,
  refund_min_confirmations, after_send, send_refund, send_refunds, broadcast_refunds, count_of,
  confirm_refund, watch_refund, watch_refunds, confirm_refunds, is_sendable, is_watched,
  sort_signed,
}
use wbob_bridge.Refund.Steps.{Steps-guarded, Steps-checked, Steps-still}
use wbob_bridge.Payout.Node.{Node, get_confirmations}
use wbob_bridge.Payout.Tables.{Db}
use wbob_bridge.Refund.SigningMoves.{
  DbSteps, DbSteps-refl, DbSteps-trans, try_audit-Steps, park_refund-Steps,
}

status_found :
    (status : RefundStatus) (o : Option RefundRow) (r : RefundRow)
    → is_status status o ≡ true
    → o ≡ some r
    → same_status r.status status ≡ true
status_found status o r h e = rw e at h

commit_sent-Steps :
    (fails : RefundWrite → ℕ → Bool) (r : RefundRow) (txid : Option ℕ) (db : Db)
    → DbSteps db (commit_sent fails r txid db).0
unfolding commit_sent
commit_sent-Steps fails r txid db = elim (Bool-cases (fails sending r.id)) [
  | inl thrown ↦ rw (commit_sent, thrown) (DbSteps-refl db)
  | inr fine ↦
      elim (Bool-cases (is_status signed (select_one (refund_is r.id) db.deposit_refunds))) [
        | inr moved ↦ rw (commit_sent, fine, moved) (DbSteps-refl db)
        | inl here ↦
            elim (Option-cases (
              ingest_refund_change r txid
                (update_where (held_by_refund r.id) spend db.bridge_utxos))) [
                  | inl thrown ↦ rw (commit_sent, fine, here, thrown) (DbSteps-refl db)
                  | inr (utxos, got) ↦
                      rw (commit_sent, fine, here, got)
                        (Steps-checked r.id signed broadcast (set_broadcast txid) db.deposit_refunds
                          (λ cur found.
                            status_found signed (select_one (refund_is r.id) db.deposit_refunds) cur
                              here found)
                          (λ j x. refl) (λ x. refl) refl)
                ]
      ]
]

module _ (node : Node) (fails : RefundWrite → ℕ → Bool) where
  send_refund-Steps :
      (r : RefundRow) (hex : RawTx) (db : Db) → DbSteps db (send_refund node fails r hex db).0
  unfolding send_refund
  send_refund-Steps r hex db = by_answer (sent_as r (node.send_raw_transaction hex))
    where
      by_answer : (sent : Sent) → DbSteps db (after_send node fails r sent db).0
      by_answer (is_out txid) = commit_sent-Steps fails r txid db
      by_answer is_refused = park_refund-Steps fails r signed needs_attention db refl
      by_answer is_unknown = DbSteps-refl db

  send_refunds-Steps :
      (rs : List RefundRow) (db : Db) → DbSteps db (send_refunds node fails rs db).0
  unfolding send_refunds
  send_refunds-Steps [] db = DbSteps-refl db
  send_refunds-Steps (r ∷ rs) db = elim (Option-cases r.signed_hex) [
    | inl missing ↦ rw (missing, send_refunds) (send_refunds-Steps rs db)
    | inr (hex, there) ↦
        let next = send_refund node fails r hex db in
        elim (Bool-cases next.1) [
          | inr thrown ↦ rw (there, send_refunds, thrown) (send_refund-Steps r hex db)
          | inl returned ↦
              rw (there, send_refunds, returned)
                (DbSteps-trans db next.0 (send_refunds node fails rs next.0).0
                  (send_refund-Steps r hex db) (send_refunds-Steps rs next.0))
        ]
  ]

  confirm_refund-Steps :
      (r : RefundRow) (confs : ℕ) (db : Db) → DbSteps db (confirm_refund node fails r confs db).0
  unfolding confirm_refund
  confirm_refund-Steps r confs db = elim (Bool-cases (fails counting r.id)) [
    | inl thrown ↦ rw (confirm_refund, thrown) (DbSteps-refl db)
    | inr fine ↦ elim (Bool-cases (ltb confs refund_min_confirmations)) [
      | inl few ↦
          rw (confirm_refund, fine, few)
            (Steps-still (is_refund_in r.id broadcast) (with_confirmations confs) db.deposit_refunds
              (λ j x. refl) (λ x. refl))
      | inr enough ↦
          elim (Bool-cases
            (length (select_all (is_refund_in r.id broadcast) db.deposit_refunds) == 0)) [
              | inl gone ↦ rw (confirm_refund, fine, enough, gone) (DbSteps-refl db)
              | inr there ↦
                  rw (confirm_refund, fine, enough, there)
                    (try_audit-Steps fails r refund_confirmed broadcast confirmed db
                      (set_refund (is_refund_in r.id broadcast) (set_confirmed confs) db)
                      (Steps-guarded r.id broadcast confirmed (set_confirmed confs)
                        db.deposit_refunds (λ j x. refl) (λ x. refl) refl))
            ]
    ]
  ]

  watch_refund-Steps : (r : RefundRow) (db : Db) → DbSteps db (watch_refund node fails r db).0
  unfolding watch_refund
  watch_refund-Steps r db = elim (Option-cases r.txid) [
    | inl unsent ↦ rw (unsent, watch_refund) (DbSteps-refl db)
    | inr (txid, sent) ↦ elim (Option-cases (count_of node fails (get_confirmations node txid))) [
      | inl unknown ↦ rw (sent, watch_refund, unknown) (DbSteps-refl db)
      | inr (confs, known) ↦ rw (sent, watch_refund, known) (confirm_refund-Steps r confs db)
    ]
  ]

  watch_refunds-Steps :
      (rs : List RefundRow) (db : Db) → DbSteps db (watch_refunds node fails rs db).0
  unfolding watch_refunds
  watch_refunds-Steps [] db = DbSteps-refl db
  watch_refunds-Steps (r ∷ rs) db =
      let next = watch_refund node fails r db in
      elim (Bool-cases next.1) [
        | inr thrown ↦ rw (thrown, watch_refunds) (watch_refund-Steps r db)
        | inl returned ↦
            rw (returned, watch_refunds)
              (DbSteps-trans db next.0 (watch_refunds node fails rs next.0).0
                (watch_refund-Steps r db) (watch_refunds-Steps rs next.0))
      ]

  pub broadcast_refunds-Steps : (db : Db) → DbSteps db (broadcast_refunds node fails db).0
  unfolding broadcast_refunds
  broadcast_refunds-Steps db =
      send_refunds-Steps (sort_signed (select_all is_sendable db.deposit_refunds)) db

  pub confirm_refunds-Steps : (db : Db) → DbSteps db (confirm_refunds node fails db).0
  unfolding confirm_refunds
  confirm_refunds-Steps db = watch_refunds-Steps (select_all is_watched db.deposit_refunds) db
