-- ===== src/Refund/PollMoves.antt =====
-- The statuses of the refunds under a whole `poll` of backend/src/executor/refund-executor.ts.
use wbob_bridge.Prelude.{ℕ, ◌≡◌, refl, Bool, some, List, [], ◌∷◌, Bool-cases, inl, inr, arith}
use wbob_bridge.Prelude.Text.{Text}
use wbob_bridge.Prelude.Tables.{select_one, select_all}
use wbob_bridge.Shared.Result.{Result, ok, err}
use wbob_bridge.TxBuilder.{UtxoInput, TxOutputSpec, TxError, SignedTx}
use wbob_bridge.Refund.Rows.{RefundRow, queued, needs_attention, refund_needs_attention, refund_is}
use wbob_bridge.Refund.Sender.{
  RpcVerboseTx, SenderResult, resolved, unresolved, detect_deposit_sender,
}
use wbob_bridge.Refund.Signing.{
  RefundWrite, resolving, announcing, set_refund, with_status, sign_queued,
}
use wbob_bridge.Refund.Sending.{broadcast_refunds, confirm_refunds}
use wbob_bridge.Refund.Poll.{
  is_that_unresolved, is_unresolved, with_address, set_alerted, is_announceable, after_lookup,
  announce_all, announce_splits, resolve_all, resolve_senders, poll_refunds,
}
use wbob_bridge.Refund.Steps.{RefundWalk, Steps-update, Steps-still, one_edge}
use wbob_bridge.Payout.Node.{Node, RpcError}
use wbob_bridge.Payout.Tables.{Db}
use wbob_bridge.Refund.SigningMoves.{
  DbSteps, DbSteps-refl, DbSteps-trans, try_audit-Steps, sign_queued-Steps,
}
use wbob_bridge.Refund.SendingMoves.{broadcast_refunds-Steps, confirm_refunds-Steps}

module _ (fails : RefundWrite → ℕ → Bool) where
  after_lookup-Steps :
      (r : RefundRow) (answer : Result RpcError SenderResult) (db : Db)
      → DbSteps db (after_lookup fails r answer db).0
  after_lookup-Steps r (err e) db = DbSteps-refl db
  after_lookup-Steps r (ok (resolved address detail)) db =
      elim (Bool-cases (fails resolving r.id)) [
        | inl thrown ↦ rw thrown (DbSteps-refl db)
        | inr fine ↦ rw fine (
            Steps-still (is_that_unresolved r.id) (with_address address) db.deposit_refunds
              (λ j x. refl) (λ x. refl))
      ]
  after_lookup-Steps r (ok (unresolved fault detail)) db =
      elim (Bool-cases (fails resolving r.id)) [
        | inl thrown ↦ rw thrown (DbSteps-refl db)
        | inr fine ↦ rw fine (
            try_audit-Steps fails r refund_needs_attention queued needs_attention db
              (set_refund (is_that_unresolved r.id) (with_status needs_attention) db)
              (Steps-update (is_that_unresolved r.id) (with_status needs_attention)
                db.deposit_refunds (λ j x. refl)
                (λ j x h hit. one_edge x queued needs_attention (ground arith) refl)))
      ]

  announce_all-Steps : (rs : List RefundRow) (db : Db) → DbSteps db (announce_all fails rs db).0
  unfolding announce_all
  announce_all-Steps [] db = DbSteps-refl db
  announce_all-Steps (r ∷ rs) db =
      let next = set_refund (refund_is r.id) set_alerted db in
      elim (Bool-cases (fails announcing r.id)) [
        | inl thrown ↦ rw (thrown, announce_all) (DbSteps-refl db)
        | inr fine ↦
            rw (fine, announce_all)
              (DbSteps-trans db next (announce_all fails rs next).0
                (Steps-still (refund_is r.id) set_alerted db.deposit_refunds (λ j x. refl)
                  (λ x. refl))
                (announce_all-Steps rs next))
      ]

  announce_splits-Steps : (db : Db) → DbSteps db (announce_splits fails db).0
  unfolding announce_splits
  announce_splits-Steps db = announce_all-Steps (select_all is_announceable db.deposit_refunds) db

  module _ (p2pkh_address : Text → Text) (bridge_addresses : List Text)
      (get_verbose : ℕ → Result RpcError RpcVerboseTx) where
    resolve_all-Steps :
        (rs : List RefundRow) (db : Db)
        → DbSteps db (resolve_all fails p2pkh_address bridge_addresses get_verbose rs db).0
    unfolding resolve_all
    resolve_all-Steps [] db = DbSteps-refl db
    resolve_all-Steps (r ∷ rs) db =
        let answer =
          detect_deposit_sender p2pkh_address bridge_addresses get_verbose r.deposit_txid in
        let next = after_lookup fails r answer db in
        elim (Bool-cases next.1) [
          | inr thrown ↦ rw (thrown, resolve_all) (after_lookup-Steps r answer db)
          | inl returned ↦
              rw (returned, resolve_all)
                (DbSteps-trans db next.0
                  (resolve_all fails p2pkh_address bridge_addresses get_verbose rs next.0).0
                  (after_lookup-Steps r answer db) (resolve_all-Steps rs next.0))
        ]

    resolve_senders-Steps :
        (db : Db)
        → DbSteps db (resolve_senders fails p2pkh_address bridge_addresses get_verbose db).0
    unfolding resolve_senders
    resolve_senders-Steps db = resolve_all-Steps (select_all is_unresolved db.deposit_refunds) db

    module _ (node : Node) (sign : List UtxoInput → List TxOutputSpec → Result TxError SignedTx)
        (is_network : ℕ → Bool) (change_address_of : ℕ → Text) (fee_rate : ℕ) (now : ℕ)
        (refunds_auto_send : Bool) where
      -- However the node, the signer and the database answer during a poll, every refund is still there
      -- after it, and its status is the one it had or one that the diagram reaches from it.
      pub poll_refunds-Steps :
          (db : Db) (i : ℕ) (r : RefundRow)
          → select_one (refund_is i) db.deposit_refunds ≡ some r
          → (r' : RefundRow) × ((select_one
                  (refund_is i)
                  (poll_refunds fails p2pkh_address bridge_addresses get_verbose node sign
                    is_network change_address_of fee_rate now refunds_auto_send db).deposit_refunds
                ≡ some r')
              × RefundWalk r.status r'.status)
      unfolding poll_refunds
      poll_refunds-Steps db =
          let found = (resolve_senders fails p2pkh_address bridge_addresses get_verbose db).0 in
          let announced = (announce_splits fails found).0 in
          let made =
            (sign_queued sign is_network change_address_of fee_rate fails now refunds_auto_send
              announced).0 in
          let sent = (broadcast_refunds node fails made).0 in
          let final = (confirm_refunds node fails sent).0 in
          DbSteps-trans db found final (resolve_senders-Steps db) (
            DbSteps-trans found announced final (announce_splits-Steps found) (
              DbSteps-trans announced made final
                (sign_queued-Steps sign is_network change_address_of fee_rate fails now
                  refunds_auto_send announced)
                (DbSteps-trans made sent final (broadcast_refunds-Steps node fails made)
                  (confirm_refunds-Steps node fails sent))))
