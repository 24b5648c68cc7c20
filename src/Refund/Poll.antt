-- ===== src/Refund/Poll.antt =====
-- backend/src/executor/refund-executor.ts, `resolveSenders`, `announceSplits` and `poll`, in which each
-- job runs whether or not the one before it threw. `bridge_addresses` are the addresses of the tables.
use wbob_bridge.Prelude.{
  ℕ, Bool, true, false, ◌&&◌, ◌||◌, not, none, some, List, [], ◌∷◌, if◌then◌else◌,
}
use wbob_bridge.Prelude.Text.{Text}
use wbob_bridge.Prelude.Tables.{select_all}
use wbob_bridge.Shared.Result.{Result, ok, err}
use wbob_bridge.TxBuilder.{UtxoInput, TxOutputSpec, TxError, SignedTx}
use wbob_bridge.Refund.Rows.{
  RefundRow, queued, needs_attention, too_small, refund_needs_attention, refund_is, same_status,
}
use wbob_bridge.Refund.Sender.{
  RpcVerboseTx, SenderResult, resolved, unresolved, detect_deposit_sender,
}
use wbob_bridge.Refund.Signing.{
  RefundWrite, resolving, announcing, set_refund, with_status, try_audit, sign_queued,
}
use wbob_bridge.Refund.Sending.{broadcast_refunds, confirm_refunds}
use wbob_bridge.Payout.Node.{Node, RpcError}
use wbob_bridge.Payout.Tables.{Db}

abbrev pub has_refund_address : RefundRow → Bool
has_refund_address r = elim r.refund_address [ none ↦ false | some a ↦ true ]

-- `status = 'queued' AND refund_address IS NULL`.
abbrev pub is_unresolved : RefundRow → Bool
is_unresolved r = same_status r.status queued && not (has_refund_address r)

abbrev pub is_that_unresolved : ℕ → RefundRow → Bool
is_that_unresolved i r = refund_is i r && is_unresolved r

abbrev pub with_address : Text → RefundRow → RefundRow
with_address address r = record r { refund_address = some address }

abbrev pub set_alerted : RefundRow → RefundRow
set_alerted r = record r { split_alerted = true }

-- The rows of the query of `announceSplits`. Its join with bridge_orders adds a column for the alert
-- and, under the foreign key, loses no row.
abbrev pub is_announceable : RefundRow → Bool
is_announceable r =
    not r.split_alerted
    && (has_refund_address r
        || (same_status r.status needs_attention || same_status r.status too_small))

module _ (fails : RefundWrite → ℕ → Bool) where
  abbrev pub after_lookup : RefundRow → Result RpcError SenderResult → Db → Db × Bool
  after_lookup r (err e) db = (db, true)
  after_lookup r (ok (resolved address detail)) db =
      if fails resolving r.id
      then (db, false)
      else (set_refund (is_that_unresolved r.id) (with_address address) db, true)
  after_lookup r (ok (unresolved fault detail)) db =
      if fails resolving r.id
      then (db, false)
      else try_audit fails r refund_needs_attention queued needs_attention
          (set_refund (is_that_unresolved r.id) (with_status needs_attention) db)

  unfoldable pub announce_all : List RefundRow → Db → Db × Bool
  announce_all [] db = (db, true)
  announce_all (r ∷ rs) db =
      if fails announcing r.id
      then (db, false)
      else announce_all rs (set_refund (refund_is r.id) set_alerted db)

  -- `announceSplits`; the alert itself is left out.
  unfoldable pub announce_splits : Db → Db × Bool
  unfolding announce_all
  announce_splits db = announce_all (select_all is_announceable db.deposit_refunds) db

  module _ (p2pkh_address : Text → Text) (bridge_addresses : List Text)
      (get_verbose : ℕ → Result RpcError RpcVerboseTx) where
    unfoldable pub resolve_all : List RefundRow → Db → Db × Bool
    unfolding detect_deposit_sender
    resolve_all [] db = (db, true)
    resolve_all (r ∷ rs) db =
        let (db', returned) =
          after_lookup r
            (detect_deposit_sender p2pkh_address bridge_addresses get_verbose r.deposit_txid) db in
        elim returned [ false ↦ (db', false) | true ↦ resolve_all rs db' ]

    -- `resolveSenders`.
    unfoldable pub resolve_senders : Db → Db × Bool
    unfolding resolve_all
    resolve_senders db = resolve_all (select_all is_unresolved db.deposit_refunds) db

    module _ (node : Node) (sign : List UtxoInput → List TxOutputSpec → Result TxError SignedTx)
        (is_network : ℕ → Bool) (change_address_of : ℕ → Text) (fee_rate : ℕ) (now : ℕ)
        (refunds_auto_send : Bool) where
      -- `poll`.
      unfoldable pub poll_refunds : Db → Db
      unfolding resolve_senders announce_splits sign_queued broadcast_refunds confirm_refunds
      poll_refunds db =
          let found = (resolve_senders db).0 in
          let announced = (announce_splits found).0 in
          let signed =
            (sign_queued sign is_network change_address_of fee_rate fails now refunds_auto_send
              announced).0 in
          (confirm_refunds node fails (broadcast_refunds node fails signed).0).0
