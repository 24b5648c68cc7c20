-- ===== src/Payout/Signatures.antt =====
-- Which turns of `processQueued` (backend/src/executor/payout-executor.ts) sign a payout.
use wbob_bridge.Prelude.{
  ℕ, suc, ◌+◌, ◌<◌, ◌≡◌, refl, ap, ◌⊎◌, Bool, false, none, some, List, [], ◌∷◌, ◌++◌, arith,
  Bool-cases, Option-cases, inl, inr, length,
}
use wbob_bridge.Prelude.Text.{Text}
use wbob_bridge.Prelude.Tables.{select_all}
use wbob_bridge.Shared.Result.{Result}
use wbob_bridge.Shared.Outbound.{
  OutboundState, payout_queued, payout_signed, manual_review, can_transition_outbound,
}
use wbob_bridge.TxBuilder.{UtxoInput, TxOutputSpec, TxError, SignedTx}
use wbob_bridge.TxBuilder.RawTx.{RawTx}
use wbob_bridge.Gnosis.Destination.{is_unpayable_destination}
use wbob_bridge.Gnosis.BurnVerifier.{BurnClaim, BurnVerdict}
use wbob_bridge.Payout.Node.{Node}
use wbob_bridge.Payout.Tables.{
  PayoutAudit, PayoutEvent, Metadata, Db, Write, signed_payout, retry_same_tx, parking, retrying,
  state_transition, no_metadata, same_event, is_in, transition_generic,
}
use wbob_bridge.Payout.Checks.{
  QueuedPayoutRow, and_then, check_unpaid, check_burn, unpayable_reason,
}
use wbob_bridge.Payout.Queue.{
  Retry, sign_anew, refuse_retry, resend_same_tx, is_some, park, retry_of, check_resign,
  check_signable, sign_row, queue_row,
}
use wbob_bridge.Payout.Evidence.{IsPayable, Check-cases, both_pass, checks-IsPayable}

abbrev pub is_signature : PayoutAudit → Bool
is_signature a = same_event a.event_type signed_payout

abbrev pub signatures : Db → ℕ
signatures db = length (select_all is_signature db.audit_events)

length_select-append :
    (p : PayoutAudit → Bool) (xs : List PayoutAudit) (a : PayoutAudit)
    → p a ≡ false
    → length (select_all p (xs ++ a ∷ [])) ≡ length (select_all p xs)
length_select-append p [] a h = rw h refl
length_select-append p (x ∷ xs) a h = elim (Bool-cases (p x)) [
  | inl t ↦ rw t (ap (λ n. suc n) (length_select-append p xs a h))
  | inr e ↦ rw e (length_select-append p xs a h)
]

transition_signatures :
    (fails : Write → ℕ → Bool) (write : Write) (i : ℕ) (from to : OutboundState)
    (event : PayoutEvent) (metadata : Metadata) (db : Db)
    → same_event event signed_payout ≡ false
    → signatures (transition_generic fails write i from to event metadata db).0 ≡ signatures db
unfolding transition_generic
transition_signatures fails write i from to event metadata db other =
    elim (Bool-cases (can_transition_outbound from to)) [
      | inr no_edge ↦ rw (no_edge, transition_generic) refl
      | inl edge ↦ elim (Bool-cases (fails write i)) [
        | inl broken ↦ rw (edge, transition_generic, broken) refl
        | inr fine ↦ elim (Bool-cases (is_in i from db)) [
          | inr moved ↦ rw (edge, transition_generic, fine, moved) refl
          | inl here ↦
              rw (edge, transition_generic, fine, here)
                (length_select-append is_signature db.audit_events _ other)
        ]
      ]
    ]

pub Retry-cases :
    (r : Retry) → (r ≡ sign_anew) ⊎ ((r ≡ refuse_retry) ⊎ ((p : ℕ) × (r ≡ resend_same_tx p)))
Retry-cases sign_anew = inl refl
Retry-cases refuse_retry = inr (inl refl)
Retry-cases (resend_same_tx p) = inr (inr (p, refl))

module _ (node : Node) (txid_of : RawTx → ℕ) (verify : BurnClaim → BurnVerdict)
    (sign : List UtxoInput → List TxOutputSpec → Result TxError SignedTx)
    (change_address_of : ℕ → Text) (fee_rate payout_min_sat : ℕ) (fails : Write → ℕ → Bool) where
  -- What a new signature rests on.
  pub record IsJustified (row : QueuedPayoutRow) (db : Db) : Type 0 where
    pub payable : IsPayable node txid_of verify row db
    pub can_be_paid : is_unpayable_destination row.dobbscoin_address ≡ false
    pub above_minimum : payout_min_sat < row.amount_sat
    pub no_txid : is_some row.payout_txid ≡ false ⊎ (row.payout_id ≡ none)
    pub no_coins_out : (row.held_utxos + row.spent_utxos ≡ 0) ⊎ (row.payout_id ≡ none)

  parked_signatures : (i : ℕ) (db : Db) → signatures (park fails i payout_queued db) ≡ signatures db
  unfolding park
  parked_signatures i db =
      transition_signatures fails parking i payout_queued manual_review state_transition no_metadata
        db refl

  not_more : {a b : ℕ} → b ≡ a → a < b → ⊥
  not_more e h = omega arith

  sign_row-IsPayable :
      (row : QueuedPayoutRow) (db : Db)
      → signatures db
        < signatures (
            sign_row node txid_of verify sign change_address_of fee_rate payout_min_sat fails row
              db)
      → IsPayable node txid_of verify row db
  unfolding sign_row check_signable
  sign_row-IsPayable row db more =
      elim (Check-cases (
        check_signable node txid_of verify sign change_address_of fee_rate payout_min_sat fails row
          db)) [
            | inl passed ↦
                let (older, rest) =
                  both_pass
                    (check_resign node txid_of verify sign change_address_of fee_rate payout_min_sat
                      fails row db)
                    (and_then (check_unpaid node txid_of verify row db)
                      (check_burn node txid_of verify row))
                    passed in
                let (unpaid, burn) =
                  both_pass (check_unpaid node txid_of verify row db)
                    (check_burn node txid_of verify row) rest in
                checks-IsPayable node txid_of verify row db unpaid burn
            | inr (inl deferred) ↦ absurd (not_more refl (rw (sign_row, deferred) at more))
            | inr (inr (r, refused)) ↦
                absurd
                  (not_more (parked_signatures row.order_id db) (rw (sign_row, refused) at more))
          ]

  -- A payout is signed in a turn of the loop only if its withdrawal may be paid: the burn is verified
  -- for just this amount and destination, no other row claims it, no payout ever recorded for it is
  -- known to the node or has an input spent, and no coin is out for it.
  pub queue_row-IsJustified :
      (row : QueuedPayoutRow) (db : Db)
      → signatures db
        < signatures
            (queue_row node txid_of verify sign change_address_of fee_rate payout_min_sat fails row
              db).0
      → IsJustified row db
  unfolding queue_row unpayable_reason retry_of
  queue_row-IsJustified row db more = elim (Option-cases (unpayable_reason payout_min_sat row)) [
    | inr (r, unpayable) ↦
        absurd (not_more (parked_signatures row.order_id db) (rw (queue_row, unpayable) at more))
    | inl payable ↦ elim (Retry-cases (retry_of row)) [
      | inr (inl refusal) ↦
          absurd (
            not_more (parked_signatures row.order_id db) (rw (queue_row, payable, refusal) at more))
      | inr (inr (p, again)) ↦ absurd (
          not_more
            (transition_signatures fails retrying row.order_id payout_queued payout_signed
              retry_same_tx (record no_metadata { payout_id = some p }) db refl)
            (rw (queue_row, payable, again) at more))
      | inl anew ↦
          let (can, above) = reason payable in
          let (unsent, out) = anew_facts anew in
          record {
            payable = sign_row-IsPayable row db (rw (queue_row, payable, anew) at more);
            can_be_paid = can;
            above_minimum = above;
            no_txid = unsent;
            no_coins_out = out;
          }
    ]
  ]
    where
      reason :
          unpayable_reason payout_min_sat row ≡ none
          → (is_unpayable_destination row.dobbscoin_address ≡ false)
            × (payout_min_sat < row.amount_sat)
      reason e = ground arith

      anew_facts :
          retry_of row ≡ sign_anew
          → (is_some row.payout_txid ≡ false ⊎ (row.payout_id ≡ none))
            × ((row.held_utxos + row.spent_utxos ≡ 0) ⊎ (row.payout_id ≡ none))
      anew_facts e = elim (Option-cases row.payout_id) [
        | inl new ↦ (inr new, inr new)
        | inr (p, old) ↦ (inl (ground arith), inl (ground arith))
      ]
