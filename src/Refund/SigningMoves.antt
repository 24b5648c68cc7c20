-- ===== src/Refund/SigningMoves.antt =====
-- The statuses of the refunds under `_park` and `signQueued` of
-- backend/src/executor/refund-executor.ts.
use wbob_bridge.Prelude.{
  ℕ, ◌≡◌, refl, Bool, true, false, ◌&&◌, some, List, [], ◌∷◌, ◌==◌, Bool-cases, Option-cases, inl,
  inr, arith, length,
}
use wbob_bridge.Prelude.Text.{Text}
use wbob_bridge.Prelude.Tables.{select_one, select_all}
use wbob_bridge.Shared.Result.{Result, Result-cases}
use wbob_bridge.TxBuilder.{
  UtxoInput, TxOutputSpec, TxError, SignedTx, insufficient_utxos, gross_not_positive,
  refund_too_small, payout_is_dust, sign_failed,
}
use wbob_bridge.Refund.Rows.{
  RefundStatus, RefundRow, RefundEvent, queued, signed, needs_attention, too_small, refund_is,
  is_refund_in, same_status, same_address,
}
use wbob_bridge.Refund.Signing.{
  RefundWrite, auditing, parking, signing, RefundOutcome, BuildRefundResult, done, retry_later,
  dust_refund, broken, set_refund, try_audit, with_status, park_event, park_refund, set_signed,
  is_as_read, reserve_refund_inputs, commit_refund, build_refund_tx, outcome_of, sign_one,
  after_sign, sign_refunds, is_signable, sign_queued,
}
use wbob_bridge.Refund.Steps.{
  Steps, refund_edge, Steps-refl, Steps-trans, Steps-guarded, Steps-checked,
}
use wbob_bridge.Payout.Tables.{Db, available, has_status}
use wbob_bridge.Payout.Signing.{inputs_of, next_change_index}

abbrev pub DbSteps : Db → Db → Type 0
DbSteps db db' = Steps db.deposit_refunds db'.deposit_refunds

pub DbSteps-refl : (db : Db) → DbSteps db db
DbSteps-refl db = Steps-refl db.deposit_refunds

pub DbSteps-trans : (a b c : Db) → DbSteps a b → DbSteps b c → DbSteps a c
DbSteps-trans a b c f g = Steps-trans a.deposit_refunds b.deposit_refunds c.deposit_refunds f g

pub try_audit-Steps :
    (fails : RefundWrite → ℕ → Bool) (r : RefundRow) (event : RefundEvent) (from to : RefundStatus)
    (before db : Db)
    → DbSteps before db
    → DbSteps before (try_audit fails r event from to db).0
try_audit-Steps fails r event from to before db w = elim (Bool-cases (fails auditing r.id)) [
  | inl thrown ↦ rw thrown w
  | inr fine ↦ rw fine w
]

pub park_refund-Steps :
    (fails : RefundWrite → ℕ → Bool) (r : RefundRow) (from to : RefundStatus) (db : Db)
    → refund_edge from to ≡ true
    → DbSteps db (park_refund fails r from to db).0
unfolding park_refund
park_refund-Steps fails r from to db edge = elim (Bool-cases (fails parking r.id)) [
  | inl thrown ↦ rw (park_refund, thrown) (DbSteps-refl db)
  | inr fine ↦
      elim (Bool-cases (length (select_all (is_refund_in r.id from) db.deposit_refunds) == 0)) [
        | inl gone ↦ rw (park_refund, fine, gone) (DbSteps-refl db)
        | inr there ↦
            rw (park_refund, fine, there)
              (try_audit-Steps fails r (park_event to) from to db
                (set_refund (is_refund_in r.id from) (with_status to) db)
                (Steps-guarded r.id from to (with_status to) db.deposit_refunds (λ j x. refl)
                  (λ x. refl) edge))
      ]
]

as_read_is_queued :
    (r : RefundRow) (db : Db) (cur : RefundRow)
    → is_as_read r db ≡ true
    → select_one (refund_is r.id) db.deposit_refunds ≡ some cur
    → same_status cur.status queued ≡ true
as_read_is_queued r db cur h found =
    both (same_status cur.status queued) (same_address cur.refund_address r.refund_address)
      (rw (is_as_read, found) at h)
  where
    both : (a b : Bool) → (a && b) ≡ true → a ≡ true
    both a b e = ground arith

-- A signature that is recorded moves the refund along the diagram.
abbrev OutcomeSteps : Db → RefundOutcome → Type 0
OutcomeSteps db (done db') = DbSteps db db'
OutcomeSteps db retry_later = Unit
OutcomeSteps db dust_refund = Unit
OutcomeSteps db broken = Unit

commit_refund-Steps :
    (fails : RefundWrite → ℕ → Bool) (r : RefundRow) (built : BuildRefundResult) (address : Text)
    (index now : ℕ) (db : Db)
    → OutcomeSteps db (commit_refund fails r built address index now db)
unfolding commit_refund
commit_refund-Steps fails r built address index now db = elim (Bool-cases (fails signing r.id)) [
  | inl thrown ↦ rw (commit_refund, thrown) tt
  | inr fine ↦ elim (Bool-cases (is_as_read r db)) [
    | inr changed ↦ rw (commit_refund, fine, changed) (DbSteps-refl db)
    | inl same ↦ elim (Option-cases (reserve_refund_inputs r.id built.inputs db.bridge_utxos)) [
      | inl raced ↦ rw (commit_refund, fine, same, raced) tt
      | inr (utxos, got) ↦
          rw (commit_refund, fine, same, got)
            (Steps-checked r.id queued signed (set_signed built address index now)
              db.deposit_refunds (λ cur found. as_read_is_queued r db cur same found) (λ j x. refl)
              (λ x. refl) refl)
    ]
  ]
]

module _ (sign : List UtxoInput → List TxOutputSpec → Result TxError SignedTx)
    (is_network : ℕ → Bool) (change_address_of : ℕ → Text) (fee_rate : ℕ)
    (fails : RefundWrite → ℕ → Bool) (now : ℕ) where
  outcome_of-Steps :
      (db : Db) (e : TxError)
      → OutcomeSteps db (outcome_of sign is_network change_address_of fee_rate fails now e)
  unfolding outcome_of
  outcome_of-Steps db (insufficient_utxos target total) = tt
  outcome_of-Steps db (refund_too_small gross fee) = tt
  outcome_of-Steps db (gross_not_positive gross) = tt
  outcome_of-Steps db (payout_is_dust amount) = tt
  outcome_of-Steps db (sign_failed code) = elim (Bool-cases (is_network code)) [
    | inl unreachable ↦ rw (outcome_of, unreachable) tt
    | inr other ↦ rw (outcome_of, other) tt
  ]

  sign_one-Steps :
      (r : RefundRow) (address : Text) (db : Db)
      → OutcomeSteps db (sign_one sign is_network change_address_of fee_rate fails now r address db)
  unfolding sign_one
  sign_one-Steps r address db =
      let index = next_change_index db in
      elim (Result-cases (
        build_refund_tx sign (inputs_of (select_all (has_status available) db.bridge_utxos))
          r.excess_sat address (change_address_of index) fee_rate
          (some (record { txid = r.deposit_txid; vout = r.deposit_vout })))) [
            | inr (e, bad) ↦ rw (sign_one, bad) (outcome_of-Steps db e)
            | inl (built, good) ↦
                rw (sign_one, good)
                  (commit_refund-Steps fails r built (change_address_of index) index now db)
          ]

  after_sign-Steps :
      (r : RefundRow) (db : Db) (o : RefundOutcome)
      → OutcomeSteps db o
      → DbSteps db (after_sign sign is_network change_address_of fee_rate fails now r db o).0
  after_sign-Steps r db (done db') w = w
  after_sign-Steps r db retry_later w = DbSteps-refl db
  after_sign-Steps r db dust_refund w = park_refund-Steps fails r queued too_small db refl
  after_sign-Steps r db broken w = park_refund-Steps fails r queued needs_attention db refl

  sign_refunds-Steps :
      (rs : List RefundRow) (db : Db)
      → DbSteps db (sign_refunds sign is_network change_address_of fee_rate fails now rs db).0
  unfolding sign_refunds
  sign_refunds-Steps [] db = DbSteps-refl db
  sign_refunds-Steps (r ∷ rs) db = elim (Option-cases r.refund_address) [
    | inl unknown ↦ rw (unknown, sign_refunds) (sign_refunds-Steps rs db)
    | inr (address, known) ↦
        let o = sign_one sign is_network change_address_of fee_rate fails now r address db in
        let next = after_sign sign is_network change_address_of fee_rate fails now r db o in
        let moved = after_sign-Steps r db o (sign_one-Steps r address db) in
        elim (Bool-cases next.1) [
          | inr thrown ↦ rw (known, sign_refunds, thrown) moved
          | inl returned ↦
              rw (known, sign_refunds, returned)
                (DbSteps-trans db next.0
                  (sign_refunds sign is_network change_address_of fee_rate fails now rs next.0).0
                  moved (sign_refunds-Steps rs next.0))
        ]
  ]

  pub sign_queued-Steps :
      (auto_send : Bool) (db : Db)
      → DbSteps db (sign_queued sign is_network change_address_of fee_rate fails now auto_send db).0
  unfolding sign_queued
  sign_queued-Steps true db =
      sign_refunds-Steps
        (select_all (is_signable sign is_network change_address_of fee_rate fails now)
          db.deposit_refunds)
        db
  sign_queued-Steps false db = DbSteps-refl db
