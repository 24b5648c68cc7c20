-- ===== src/Payout/Release.antt =====
-- When a coin that a payout holds goes back to the pool (backend/src/executor/payout-executor.ts,
-- `broadcastSigned`).
use wbob_bridge.Prelude.{
  ℕ, ◌+◌, ◌≡◌, refl, ◌∙◌, sym, subst, ◌⊎◌, Bool, true, false, ◌&&◌, ◌||◌, some, List, arith, ltb,
  Bool-cases, Option-cases, inl, inr,
}
use wbob_bridge.Shared.Result.{err, Result-cases}
use wbob_bridge.Shared.Outbound.{OutboundState, payout_signed, manual_review}
use wbob_bridge.TxBuilder.RawTx.{RawTx}
use wbob_bridge.Payout.Node.{
  Node, NodeHas, RpcError, nowhere, unreachable, in_mempool, in_chain, node_has, has_code,
  is_definite_rejection, is_transient,
}
use wbob_bridge.Payout.Tables.{
  BridgeUtxo, Db, Write, attempting, committing, parking, held_by, is_in, no_metadata, PayoutEvent,
  Metadata, transition_generic, state_transition,
}
use wbob_bridge.Payout.Broadcast.{
  SignedPayoutRow, History, AfterRefusal, release_coins, decide_later, go_on, history_of,
  record_attempt, record_refusal, mark_sent, spend_inputs, parsed_inputs, ingest_change,
  commit_in_state, commit_out_of_state, commit_broadcast, max_send_attempts, node_holds,
  after_refusal, retry_or_park, after_failure, send_row, broadcast_row,
}
use wbob_bridge.Payout.Coins.{
  KeepsTaken, KeepsTaken-refl, KeepsTaken-trans, KeepsTaken-spend, KeepsTaken-spend_inputs,
  KeepsTaken-ingest_change,
}

abbrev pub DbKeepsTaken : Db → Db → Type 0
DbKeepsTaken db db' = KeepsTaken db.bridge_utxos db'.bridge_utxos

commit_in_state-Keeps :
    (row : SignedPayoutRow) (txid now : ℕ) (db : Db)
    → DbKeepsTaken db (commit_in_state row txid now db)
unfolding commit_in_state
commit_in_state-Keeps row txid now db =
    let sent = mark_sent row txid now db in
    KeepsTaken-trans db.bridge_utxos sent.bridge_utxos (ingest_change row txid sent.bridge_utxos)
      (KeepsTaken-spend (held_by row.payout_id) db.bridge_utxos)
      (KeepsTaken-ingest_change row txid sent.bridge_utxos)

commit_out_of_state-Keeps :
    (row : SignedPayoutRow) (txid now : ℕ) (db : Db)
    → DbKeepsTaken db (commit_out_of_state row txid now db)
unfolding commit_out_of_state
commit_out_of_state-Keeps row txid now db =
    let sent = mark_sent row txid now db in
    let inputs = spend_inputs row.payout_id (parsed_inputs row.signed_hex) sent.bridge_utxos in
    KeepsTaken-trans db.bridge_utxos sent.bridge_utxos (ingest_change row txid inputs)
      (KeepsTaken-spend (held_by row.payout_id) db.bridge_utxos)
      (KeepsTaken-trans sent.bridge_utxos inputs (ingest_change row txid inputs)
        (KeepsTaken-spend_inputs row.payout_id (parsed_inputs row.signed_hex) sent.bridge_utxos)
        (KeepsTaken-ingest_change row txid inputs))

pub commit_broadcast-Keeps :
    (fails : Write → ℕ → Bool) (row : SignedPayoutRow) (txid now : ℕ) (db : Db)
    → DbKeepsTaken db (commit_broadcast fails row txid now db)
unfolding commit_broadcast
commit_broadcast-Keeps fails row txid now db = elim (Bool-cases (fails committing row.order_id)) [
  | inl broken ↦ rw (commit_broadcast, broken) (KeepsTaken-refl db.bridge_utxos)
  | inr fine ↦ elim (Bool-cases (is_in row.order_id payout_signed db)) [
    | inl here ↦ rw (commit_broadcast, fine, here) (commit_in_state-Keeps row txid now db)
    | inr moved ↦ rw (commit_broadcast, fine, moved) (commit_out_of_state-Keeps row txid now db)
  ]
]

-- A transition does not touch the coins.
pub transition_coins :
    (fails : Write → ℕ → Bool) (write : Write) (i : ℕ) (from to : OutboundState)
    (event : PayoutEvent) (metadata : Metadata) (db : Db)
    → (transition_generic fails write i from to event metadata db).0.bridge_utxos ≡ db.bridge_utxos
unfolding transition_generic
transition_coins fails write i from to event metadata db = ground arith

record_refusal-coins :
    (fails : Write → ℕ → Bool) (i p t : ℕ) (db : Db)
    → (record_refusal fails i p t db).bridge_utxos ≡ db.bridge_utxos
unfolding record_refusal
record_refusal-coins fails i p t db = ground arith

pub AfterRefusal-cases :
    (a : AfterRefusal) → (a ≡ release_coins) ⊎ ((a ≡ decide_later) ⊎ (a ≡ go_on))
AfterRefusal-cases release_coins = inl refl
AfterRefusal-cases decide_later = inr (inl refl)
AfterRefusal-cases go_on = inr (inr refl)

module _ (node : Node) (txid_of : RawTx → ℕ) (fails : Write → ℕ → Bool) (now : ℕ) where
  retry_or_park-coins :
      (row : SignedPayoutRow) (e : RpcError) (h : History) (db : Db)
      → (retry_or_park node txid_of fails now row e h db).bridge_utxos ≡ db.bridge_utxos
  unfolding retry_or_park
  retry_or_park-coins row e h db =
      elim (Bool-cases (is_transient e && ltb (h.since_retry + 1) max_send_attempts)) [
        | inl again ↦ rw (retry_or_park, again) refl
        | inr enough ↦
            rw (retry_or_park, enough)
              (transition_coins fails parking row.order_id payout_signed manual_review
                state_transition no_metadata db)
      ]

  -- The evidence on which the coins of a payout are freed.
  pub record FreedOnRefusal (row : SignedPayoutRow) (h : History) (hex : RawTx) : Type 0 where
    pub error : RpcError
    pub refused : node.send_raw_transaction hex ≡ err error
    pub definite : is_definite_rejection error ≡ true
    pub not_mined : has_code 27 error ≡ false
    pub absent : node_has node (txid_of hex) ≡ nowhere
    pub never_sent : h.attempts ≡ h.refusals
    pub never_retried : h.retried ≡ false

  release_reason :
      (h : History) (has : NodeHas)
      → after_refusal h has ≡ release_coins
      → (has ≡ nowhere) × ((h.attempts ≡ h.refusals) × (h.retried ≡ false))
  unfolding after_refusal
  release_reason h nowhere e = ground arith
  release_reason h unreachable e = ground arith
  release_reason h in_mempool e = ground arith
  release_reason h in_chain e = ground arith

  by_coins : {us us' : List BridgeUtxo} → us' ≡ us → KeepsTaken us us'
  by_coins {us} e = subst (λ vs. KeepsTaken us vs) (sym e) (KeepsTaken-refl us)

  after_failure-Freed :
      (row : SignedPayoutRow) (hex : RawTx) (e : RpcError) (h : History) (db : Db)
      → node.send_raw_transaction hex ≡ err e
      → DbKeepsTaken db (after_failure node txid_of fails now row (txid_of hex) e h db)
        ⊎ FreedOnRefusal row h hex
  unfolding after_failure
  after_failure-Freed row hex e h db sent =
      let has = node_has node (txid_of hex) in
      let refused = record_refusal fails row.order_id row.payout_id (txid_of hex) db in
      elim (Bool-cases (has_code 27 e || node_holds has)) [
        | inl out ↦
            rw (after_failure, out) (inl (commit_broadcast-Keeps fails row (txid_of hex) now db))
        | inr not_out ↦ elim (Bool-cases (is_definite_rejection e)) [
          | inr unsure ↦
              rw (after_failure, not_out, unsure) (inl (by_coins (retry_or_park-coins row e h db)))
          | inl definite ↦ elim (AfterRefusal-cases (after_refusal h has)) [
            | inl free ↦
                let (absent, (never, fresh)) = release_reason h has free in
                inr (record {
                  error = e;
                  refused = sent;
                  definite = definite;
                  not_mined = ground arith;
                  absent = absent;
                  never_sent = never;
                  never_retried = fresh;
                })
            | inr (inl later) ↦
                rw (after_failure, not_out, definite, later)
                  (inl (
                    by_coins
                      (record_refusal-coins fails row.order_id row.payout_id (txid_of hex) db)))
            | inr (inr on) ↦
                rw (after_failure, not_out, definite, on)
                  (inl (
                    by_coins (
                      retry_or_park-coins row e h refused
                      ∙ record_refusal-coins fails row.order_id row.payout_id (txid_of hex) db)))
          ]
        ]
      ]

  -- Sending a payout takes no coin back, whatever the node and the database do, unless the node
  -- refused this very transaction for a reason that proves that it was not relayed, does not hold it,
  -- refused it each time it was sent before, and no operator ever had it sent again.
  pub broadcast_row-Freed :
      (row : SignedPayoutRow) (db : Db)
      → DbKeepsTaken db (broadcast_row node txid_of fails now row db)
        ⊎ ((hex : RawTx) × ((row.signed_hex ≡ some hex)
              × FreedOnRefusal row (history_of row.order_id row.payout_id (txid_of hex) db) hex))
  unfolding broadcast_row send_row
  broadcast_row-Freed row db = elim (Option-cases row.signed_hex) [
    | inl unsigned ↦ rw (broadcast_row, unsigned) (inl (KeepsTaken-refl db.bridge_utxos))
    | inr (hex, signed) ↦ elim (Bool-cases (fails attempting row.order_id)) [
      | inl broken ↦ rw (broadcast_row, signed, broken) (inl (KeepsTaken-refl db.bridge_utxos))
      | inr fine ↦
          let h = history_of row.order_id row.payout_id (txid_of hex) db in
          let tried = record_attempt row.order_id row.payout_id (txid_of hex) db in
          elim (Result-cases (node.send_raw_transaction hex)) [
            | inl (txid, accepted) ↦
                rw (broadcast_row, signed, fine, send_row, accepted)
                  (inl (commit_broadcast-Keeps fails row txid now tried))
            | inr (e, sent) ↦ elim (after_failure-Freed row hex e h tried sent) [
              | inl kept ↦ rw (broadcast_row, signed, fine, send_row, sent) (inl kept)
              | inr freed ↦ inr (hex, (signed, freed))
            ]
          ]
    ]
  ]
