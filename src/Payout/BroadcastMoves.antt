-- ===== src/Payout/BroadcastMoves.antt =====
-- The states of the orders under `broadcastSigned` of backend/src/executor/payout-executor.ts.
use wbob_bridge.Prelude.{
  ℕ, ◌+◌, ◌≡◌, refl, Bool, true, false, ◌&&◌, ◌||◌, List, [], ◌∷◌, arith, ltb, Bool-cases,
  Option-cases, inl, inr,
}
use wbob_bridge.Shared.Result.{Result-cases}
use wbob_bridge.Shared.Outbound.{
  payout_signed, payout_broadcast, manual_review, can_transition_outbound,
}
use wbob_bridge.TxBuilder.RawTx.{RawTx}
use wbob_bridge.Payout.Node.{
  Node, RpcError, node_has, has_code, is_definite_rejection, is_transient,
}
use wbob_bridge.Payout.Tables.{
  Db, Write, attempting, committing, releasing, parking, no_metadata, state_transition, is_in,
}
use wbob_bridge.Payout.Broadcast.{
  SignedPayoutRow, History, history_of, record_attempt, record_refusal, commit_in_state,
  commit_out_of_state, commit_broadcast, park_and_release, max_send_attempts, node_holds,
  after_refusal, retry_or_park, after_failure, send_row, broadcast_row, broadcast_rows,
  broadcast_signed, signed_rows_of,
}
use wbob_bridge.Payout.Moves.{
  Walks, Walks-refl, Walks-same, Walks-set, Walks-trans, transition-Walks,
}
use wbob_bridge.Payout.Release.{AfterRefusal-cases}

commit_in_state-Walks :
    (row : SignedPayoutRow) (txid now : ℕ) (db : Db)
    → is_in row.order_id payout_signed db ≡ true
    → Walks db.bridge_orders (commit_in_state row txid now db).bridge_orders
unfolding commit_in_state can_transition_outbound
commit_in_state-Walks row txid now db here =
    Walks-set row.order_id payout_signed payout_broadcast db.bridge_orders here refl

commit_broadcast-Walks :
    (fails : Write → ℕ → Bool) (row : SignedPayoutRow) (txid now : ℕ) (db : Db)
    → Walks db.bridge_orders (commit_broadcast fails row txid now db).bridge_orders
unfolding commit_broadcast commit_out_of_state
commit_broadcast-Walks fails row txid now db = elim (Bool-cases (fails committing row.order_id)) [
  | inl broken ↦ rw (commit_broadcast, broken) (Walks-refl db.bridge_orders)
  | inr fine ↦ elim (Bool-cases (is_in row.order_id payout_signed db)) [
    | inl here ↦ rw (commit_broadcast, fine, here) (commit_in_state-Walks row txid now db here)
    | inr moved ↦ rw (commit_broadcast, fine, moved) (Walks-refl db.bridge_orders)
  ]
]

park_and_release-Walks :
    (fails : Write → ℕ → Bool) (i p : ℕ) (db : Db)
    → Walks db.bridge_orders (park_and_release fails i p db).bridge_orders
unfolding park_and_release can_transition_outbound
park_and_release-Walks fails i p db = elim (Bool-cases (fails releasing i)) [
  | inl broken ↦ rw (park_and_release, broken) (Walks-refl db.bridge_orders)
  | inr fine ↦ elim (Bool-cases (is_in i payout_signed db)) [
    | inl here ↦
        rw (park_and_release, fine, here)
          (Walks-set i payout_signed manual_review db.bridge_orders here refl)
    | inr moved ↦ rw (park_and_release, fine, moved) (Walks-refl db.bridge_orders)
  ]
]

record_refusal-orders :
    (fails : Write → ℕ → Bool) (i p t : ℕ) (db : Db)
    → (record_refusal fails i p t db).bridge_orders ≡ db.bridge_orders
unfolding record_refusal
record_refusal-orders fails i p t db = ground arith

module _ (node : Node) (txid_of : RawTx → ℕ) (fails : Write → ℕ → Bool) (now : ℕ) where
  retry_or_park-Walks :
      (row : SignedPayoutRow) (e : RpcError) (h : History) (db : Db)
      → Walks db.bridge_orders (retry_or_park node txid_of fails now row e h db).bridge_orders
  unfolding retry_or_park
  retry_or_park-Walks row e h db =
      elim (Bool-cases (is_transient e && ltb (h.since_retry + 1) max_send_attempts)) [
        | inl again ↦ rw (retry_or_park, again) (Walks-refl db.bridge_orders)
        | inr enough ↦
            rw (retry_or_park, enough)
              (transition-Walks fails parking row.order_id payout_signed manual_review
                state_transition no_metadata db)
      ]

  refused-Walks :
      (row : SignedPayoutRow) (txid : ℕ) (e : RpcError) (h : History) (db : Db)
      → has_code 27 e || node_holds (node_has node txid) ≡ false
      → is_definite_rejection e ≡ true
      → Walks db.bridge_orders (after_failure node txid_of fails now row txid e h db).bridge_orders
  unfolding after_failure
  refused-Walks row txid e h db absent definite =
      let refused = record_refusal fails row.order_id row.payout_id txid db in
      let same =
        Walks-same db.bridge_orders refused.bridge_orders
          (record_refusal-orders fails row.order_id row.payout_id txid db) in
      elim (AfterRefusal-cases (after_refusal h (node_has node txid))) [
        | inl free ↦
            rw (after_failure, absent, definite, free)
              (Walks-trans db.bridge_orders refused.bridge_orders
                (park_and_release fails row.order_id row.payout_id refused).bridge_orders same
                (park_and_release-Walks fails row.order_id row.payout_id refused))
        | inr (inl later) ↦ rw (after_failure, absent, definite, later) same
        | inr (inr on) ↦
            rw (after_failure, absent, definite, on)
              (Walks-trans db.bridge_orders refused.bridge_orders
                (retry_or_park node txid_of fails now row e h refused).bridge_orders same
                (retry_or_park-Walks row e h refused))
      ]

  after_failure-Walks :
      (row : SignedPayoutRow) (txid : ℕ) (e : RpcError) (h : History) (db : Db)
      → Walks db.bridge_orders (after_failure node txid_of fails now row txid e h db).bridge_orders
  unfolding after_failure
  after_failure-Walks row txid e h db =
      elim (Bool-cases (has_code 27 e || node_holds (node_has node txid))) [
        | inl there ↦ rw (after_failure, there) (commit_broadcast-Walks fails row txid now db)
        | inr absent ↦ elim (Bool-cases (is_definite_rejection e)) [
          | inl definite ↦ refused-Walks row txid e h db absent definite
          | inr vague ↦ rw (after_failure, absent, vague) (retry_or_park-Walks row e h db)
        ]
      ]

  send_row-Walks :
      (row : SignedPayoutRow) (hex : RawTx) (h : History) (db : Db)
      → Walks db.bridge_orders (send_row node txid_of fails now row hex h db).bridge_orders
  unfolding send_row
  send_row-Walks row hex h db = elim (Result-cases (node.send_raw_transaction hex)) [
    | inl (txid, sent) ↦ rw (send_row, sent) (commit_broadcast-Walks fails row txid now db)
    | inr (e, bad) ↦ rw (send_row, bad) (after_failure-Walks row (txid_of hex) e h db)
  ]

  broadcast_row-Walks :
      (row : SignedPayoutRow) (db : Db)
      → Walks db.bridge_orders (broadcast_row node txid_of fails now row db).bridge_orders
  unfolding broadcast_row
  broadcast_row-Walks row db = elim (Option-cases row.signed_hex) [
    | inl missing ↦ rw (missing, broadcast_row) (Walks-refl db.bridge_orders)
    | inr (hex, there) ↦ elim (Bool-cases (fails attempting row.order_id)) [
      | inl broken ↦ rw (there, broadcast_row, broken) (Walks-refl db.bridge_orders)
      | inr fine ↦
          rw (there, broadcast_row, fine)
            (send_row-Walks row hex (history_of row.order_id row.payout_id (txid_of hex) db)
              (record_attempt row.order_id row.payout_id (txid_of hex) db))
    ]
  ]

  broadcast_rows-Walks :
      (rows : List SignedPayoutRow) (db : Db)
      → Walks db.bridge_orders (broadcast_rows node txid_of fails now rows db).bridge_orders
  unfolding broadcast_rows
  broadcast_rows-Walks [] db = Walks-refl db.bridge_orders
  broadcast_rows-Walks (row ∷ rows) db =
      let next = broadcast_row node txid_of fails now row db in
      Walks-trans db.bridge_orders next.bridge_orders
        (broadcast_rows node txid_of fails now rows next).bridge_orders (broadcast_row-Walks row db)
        (broadcast_rows-Walks rows next)

  pub broadcast_signed-Walks :
      (db : Db) → Walks db.bridge_orders (broadcast_signed node txid_of fails now db).bridge_orders
  unfolding broadcast_signed
  broadcast_signed-Walks db = broadcast_rows-Walks (signed_rows_of db db.payouts) db
