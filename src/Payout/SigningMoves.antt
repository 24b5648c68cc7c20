-- ===== src/Payout/SigningMoves.antt =====
-- The states of the orders under `processQueued` of backend/src/executor/payout-executor.ts.
use wbob_bridge.Prelude.{
  ℕ, ◌≡◌, refl, sym, subst, Bool, true, some, List, [], ◌∷◌, arith, Bool-cases, Option-cases, inl,
  inr,
}
use wbob_bridge.Prelude.Text.{Text}
use wbob_bridge.Prelude.Tables.{select_one, select_all, update_where}
use wbob_bridge.Shared.Result.{Result, Result-cases}
use wbob_bridge.Shared.Outbound.{
  OutboundState, payout_queued, payout_signed, manual_review, can_transition_outbound,
}
use wbob_bridge.TxBuilder.{
  UtxoInput, TxOutputSpec, TxError, SignedTx, BuildTxResult, build_payout_tx,
}
use wbob_bridge.TxBuilder.RawTx.{RawTx}
use wbob_bridge.Gnosis.BurnVerifier.{BurnClaim, BurnVerdict}
use wbob_bridge.Payout.Node.{Node}
use wbob_bridge.Payout.Tables.{
  WithdrawalRequest, BridgeUtxo, Db, Write, signing, parking, retrying, state_transition,
  no_metadata, retry_same_tx, available, has_status, with_order_state, is_in, row_is, order_is,
}
use wbob_bridge.Payout.Checks.{QueuedPayoutRow, withdrawal_of, unpayable_reason, queued_rows_of}
use wbob_bridge.Payout.Signing.{
  SignOutcome, signed, raced, failed, payout_row, record_signature, reserve_inputs,
  commit_signature, build_and_sign_payout, inputs_of, next_change_index,
}
use wbob_bridge.Payout.Queue.{
  park, retry_of, check_signable, after_signing, sign_row, queue_row, queue_rows, process_queued,
}
use wbob_bridge.Payout.Evidence.{Check-cases}
use wbob_bridge.Payout.Signatures.{Retry-cases}
use wbob_bridge.Payout.Moves.{Walks, Walks-refl, Walks-set, Walks-trans, transition-Walks}

-- A signature that is recorded moves orders along the graph.
abbrev OutcomeWalks : Db → SignOutcome → Type 0
OutcomeWalks db (signed db') = Walks db.bridge_orders db'.bridge_orders
OutcomeWalks db raced = Unit
OutcomeWalks db failed = Unit

pub park-Walks :
    (fails : Write → ℕ → Bool) (i : ℕ) (from : OutboundState) (db : Db)
    → Walks db.bridge_orders (park fails i from db).bridge_orders
unfolding park
park-Walks fails i from db =
    transition-Walks fails parking i from manual_review state_transition no_metadata db

payout_row-orders :
    (row : QueuedPayoutRow) (w : WithdrawalRequest) (fee : ℕ) (db : Db) (p : ℕ) (db' : Db)
    → payout_row row w fee db ≡ some (p, db')
    → db'.bridge_orders ≡ db.bridge_orders
unfolding payout_row
payout_row-orders row w fee db p db' e = ground arith

record_signature-Walks :
    (row : QueuedPayoutRow) (r : BuildTxResult) (address : Text) (index p : ℕ) (db db' : Db)
    → db'.bridge_orders ≡ db.bridge_orders
    → is_in row.order_id payout_queued db ≡ true
    → OutcomeWalks db (record_signature row r address index (p, db'))
unfolding record_signature can_transition_outbound
record_signature-Walks row r address index p db db' same here =
    elim (Option-cases (reserve_inputs p r.inputs db'.bridge_utxos)) [
      | inl race ↦ rw (race, record_signature) tt
      | inr (utxos, got) ↦
          rw (got, record_signature)
            (subst
              (λ os. Walks os (
                update_where (order_is row.order_id) (with_order_state payout_signed)
                  db'.bridge_orders))
              same
              (Walks-set row.order_id payout_queued payout_signed db'.bridge_orders
                (subst (λ os. row_is payout_queued (select_one (order_is row.order_id) os) ≡ true)
                  (sym same) here)
                refl))
    ]

commit_signature-Walks :
    (fails : Write → ℕ → Bool) (row : QueuedPayoutRow) (r : BuildTxResult) (address : Text)
    (index : ℕ) (db : Db)
    → OutcomeWalks db (commit_signature fails row r address index db)
unfolding commit_signature
commit_signature-Walks fails row r address index db =
    elim (Bool-cases (fails signing row.order_id)) [
      | inl broken ↦ rw (commit_signature, broken) tt
      | inr fine ↦ elim (Bool-cases (is_in row.order_id payout_queued db)) [
        | inr moved ↦ rw (commit_signature, fine, moved) (Walks-refl db.bridge_orders)
        | inl here ↦ elim (Option-cases (withdrawal_of row.order_id db)) [
          | inl missing ↦ rw (commit_signature, fine, here, missing) tt
          | inr (w, there) ↦ elim (Option-cases (payout_row row w r.fee_sat db)) [
            | inl taken ↦ rw (commit_signature, fine, here, there, taken) tt
            | inr ((p, db'), created) ↦
                rw (commit_signature, fine, here, there, created)
                  (record_signature-Walks row r address index p db db'
                    (payout_row-orders row w r.fee_sat db p db' created) here)
          ]
        ]
      ]
    ]

module _ (node : Node) (txid_of : RawTx → ℕ) (verify : BurnClaim → BurnVerdict)
    (sign : List UtxoInput → List TxOutputSpec → Result TxError SignedTx)
    (change_address_of : ℕ → Text) (fee_rate payout_min_sat : ℕ) (fails : Write → ℕ → Bool) where
  build-Walks :
      (row : QueuedPayoutRow) (db : Db)
      → OutcomeWalks db (build_and_sign_payout sign change_address_of fee_rate fails row db)
  unfolding build_and_sign_payout
  build-Walks row db = coins (select_all (has_status available) db.bridge_utxos) refl
    where
      coins :
          (us : List BridgeUtxo)
          → select_all (has_status available) db.bridge_utxos ≡ us
          → OutcomeWalks db (build_and_sign_payout sign change_address_of fee_rate fails row db)
      coins [] none_left = rw (none_left, build_and_sign_payout) tt
      coins (u ∷ us) e =
          elim (Result-cases (
            build_payout_tx sign (inputs_of (u ∷ us)) row.amount_sat row.dobbscoin_address
              (change_address_of (next_change_index db)) fee_rate)) [
                | inr (x, bad) ↦ rw (e, build_and_sign_payout, bad) tt
                | inl (r, built) ↦
                    rw (e, build_and_sign_payout, built)
                      (commit_signature-Walks fails row r (change_address_of (next_change_index db))
                        (next_change_index db) db)
              ]

  after_signing-Walks :
      (row : QueuedPayoutRow) (db : Db) (o : SignOutcome)
      → OutcomeWalks db o
      → Walks db.bridge_orders
          (after_signing node txid_of verify sign change_address_of fee_rate payout_min_sat fails
            row db o).bridge_orders
  after_signing-Walks row db (signed db') w = w
  after_signing-Walks row db raced w = Walks-refl db.bridge_orders
  after_signing-Walks row db failed w = park-Walks fails row.order_id payout_queued db

  sign_row-Walks :
      (row : QueuedPayoutRow) (db : Db)
      → Walks db.bridge_orders
          (sign_row node txid_of verify sign change_address_of fee_rate payout_min_sat fails row
            db).bridge_orders
  unfolding sign_row
  sign_row-Walks row db =
      elim (Check-cases (
        check_signable node txid_of verify sign change_address_of fee_rate payout_min_sat fails row
          db)) [
            | inl passed ↦
                rw (passed, sign_row)
                  (after_signing-Walks row db
                    (build_and_sign_payout sign change_address_of fee_rate fails row db)
                    (build-Walks row db))
            | inr (inl deferred) ↦ rw (deferred, sign_row) (Walks-refl db.bridge_orders)
            | inr (inr (r, refused)) ↦
                rw (refused, sign_row) (park-Walks fails row.order_id payout_queued db)
          ]

  queue_row-Walks :
      (row : QueuedPayoutRow) (db : Db)
      → Walks db.bridge_orders
          (queue_row node txid_of verify sign change_address_of fee_rate payout_min_sat fails row
            db).0.bridge_orders
  unfolding queue_row
  queue_row-Walks row db = elim (Option-cases (unpayable_reason payout_min_sat row)) [
    | inr (r, unpayable) ↦
        rw (unpayable, queue_row) (park-Walks fails row.order_id payout_queued db)
    | inl payable ↦ elim (Retry-cases (retry_of row)) [
      | inr (inl refusal) ↦
          rw (payable, queue_row, refusal) (park-Walks fails row.order_id payout_queued db)
      | inr (inr (p, again)) ↦
          rw (payable, queue_row, again)
            (transition-Walks fails retrying row.order_id payout_queued payout_signed retry_same_tx
              (record no_metadata { payout_id = some p }) db)
      | inl anew ↦ rw (payable, queue_row, anew) (sign_row-Walks row db)
    ]
  ]

  queue_rows-Walks :
      (rows : List QueuedPayoutRow) (db : Db)
      → Walks db.bridge_orders
          (queue_rows node txid_of verify sign change_address_of fee_rate payout_min_sat fails rows
            db).0.bridge_orders
  unfolding queue_rows
  queue_rows-Walks [] db = Walks-refl db.bridge_orders
  queue_rows-Walks (row ∷ rows) db =
      let now =
        queue_row node txid_of verify sign change_address_of fee_rate payout_min_sat fails row db in
      elim (Bool-cases now.1) [
        | inr thrown ↦ rw (thrown, queue_rows) (queue_row-Walks row db)
        | inl returned ↦
            rw (returned, queue_rows)
              (Walks-trans db.bridge_orders now.0.bridge_orders
                (queue_rows node txid_of verify sign change_address_of fee_rate payout_min_sat fails
                  rows now.0).0.bridge_orders
                (queue_row-Walks row db) (queue_rows-Walks rows now.0))
      ]

  pub process_queued-Walks :
      (db : Db)
      → Walks db.bridge_orders
          (process_queued node txid_of verify sign change_address_of fee_rate payout_min_sat fails
            db).0.bridge_orders
  unfolding process_queued
  process_queued-Walks db = queue_rows-Walks (queued_rows_of db db.bridge_orders) db
