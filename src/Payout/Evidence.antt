-- ===== src/Payout/Evidence.antt =====
-- What stands behind a new payout signature (backend/src/executor/payout-executor.ts,
-- `processQueued`).
use wbob_bridge.Prelude.{
  ℕ, ◌≡◌, refl, ◌∙◌, sym, subst, ◌⊎◌, true, false, ◌&&◌, not, Option, none, some, List, [], ◌∷◌,
  arith, ltb, ◌==◌, Bool-cases, Option-cases, inl, inr, All,
}
use wbob_bridge.Prelude.Text.{text_eq}
use wbob_bridge.Shared.Result.{ok, Result-cases}
use wbob_bridge.TxBuilder.RawTx.{RawTx, TxInput, tx_inputs_from_raw_hex}
use wbob_bridge.Gnosis.BurnVerifier.{BurnClaim, BurnVerdict, backed, deferred, refused}
use wbob_bridge.Payout.Node.{Node, NodeHas, nowhere, unreachable, in_mempool, in_chain, node_has}
use wbob_bridge.Payout.Tables.{WithdrawalRequest, Db}
use wbob_bridge.Payout.Checks.{
  QueuedPayoutRow, Check, Refusal, EarlierTx, pass, defer, refuse, has_number, known_txid, hex_for,
  signed_for, check_inputs, check_hex, check_answer, and_then, check_earlier, check_unpaid,
  check_verdict, check_burn, claim_of,
}

pub Check-cases : (c : Check) → (c ≡ pass) ⊎ ((c ≡ defer) ⊎ ((r : Refusal) × (c ≡ refuse r)))
Check-cases pass = inl refl
Check-cases defer = inr (inl refl)
Check-cases (refuse r) = inr (inr (r, refl))

pub both_pass : (c k : Check) → and_then c k ≡ pass → (c ≡ pass) × (k ≡ pass)
both_pass pass k h = (refl, h)
both_pass defer k h = cc
both_pass (refuse r) k h = cc

answer_passes :
    (has : NodeHas) (k : Check) → check_answer has k ≡ pass → (has ≡ nowhere) × (k ≡ pass)
answer_passes nowhere k h = (refl, h)
answer_passes unreachable k h = cc
answer_passes in_mempool k h = cc
answer_passes in_chain k h = cc

module _ (node : Node) (txid_of : RawTx → ℕ) (verify : BurnClaim → BurnVerdict) where
  -- The node says that the outpoint is unspent.
  abbrev pub IsUnspent : TxInput → Type 0
  IsUnspent i = node.get_tx_out i.txid i.vout ≡ ok true

  -- The node does not know the transaction, and everything that it spends is unspent.
  abbrev pub IsGone : List EarlierTx → ℕ → Type 0
  IsGone all t =
      (node_has node t ≡ nowhere)
      × ((hex : RawTx) (inputs : List TxInput)
          → hex_for node txid_of verify t all ≡ some hex
          → tx_inputs_from_raw_hex hex ≡ some inputs
          → All IsUnspent inputs)

  inputs_pass : (is : List TxInput) → check_inputs node txid_of verify is ≡ pass → All IsUnspent is
  unfolding check_inputs
  inputs_pass [] h = tt
  inputs_pass (i ∷ is) h = elim (Result-cases (node.get_tx_out i.txid i.vout)) [
    | inr (e, bad) ↦ absurd (clash (rw (bad, check_inputs) at h))
    | inl (false, gone) ↦ absurd (clash' (rw (gone, check_inputs) at h))
    | inl (true, there) ↦ (there, inputs_pass is (rw (there, check_inputs) at h))
  ]
    where
      clash : defer ≡ pass → ⊥
      clash e = cc

      clash' : {r : Refusal} → refuse r ≡ pass → ⊥
      clash' e = cc

  hex_passes :
      (o : Option RawTx) (hex : RawTx) (inputs : List TxInput)
      → check_hex node txid_of verify o ≡ pass
      → o ≡ some hex
      → tx_inputs_from_raw_hex hex ≡ some inputs
      → All IsUnspent inputs
  unfolding check_hex
  hex_passes o hex inputs h e parsed = inputs_pass inputs (rw (e, check_hex, parsed) at h)

  seen-IsGone :
      (all : List EarlierTx) (t : ℕ) (seen : List ℕ)
      → IsGone all t
      → ((s : ℕ) → has_number s seen ≡ true → IsGone all s)
      → (s : ℕ) → has_number s (t ∷ seen) ≡ true
      → IsGone all s
  seen-IsGone all t seen gone before s h = elim (Bool-cases (t == s)) [
    | inl same ↦ subst (IsGone all) (ground arith) gone
    | inr other ↦ before s (rw other at h)
  ]

  earlier-IsGone :
      (all es : List EarlierTx) (seen : List ℕ)
      → ((s : ℕ) → has_number s seen ≡ true → IsGone all s)
      → check_earlier node txid_of verify all es seen ≡ pass
      → All
          (λ (e : EarlierTx). (t : ℕ) → known_txid node txid_of verify e ≡ some t → IsGone all t)
          es
  unfolding check_earlier
  earlier-IsGone all [] seen before h = tt
  earlier-IsGone all (e ∷ es) seen before h =
      elim (Option-cases (known_txid node txid_of verify e)) [
        | inl unnamed ↦ (
          (λ t named. absurd (nothing (sym unnamed ∙ named))),
          earlier-IsGone all es seen before (rw (unnamed, check_earlier) at h),
        )
        | inr (s, named) ↦ elim (Bool-cases (has_number s seen)) [
          | inl again ↦ (
            (λ t e'. subst (IsGone all) (same (sym named ∙ e')) (before s again)),
            earlier-IsGone all es seen before (rw (named, check_earlier, again) at h),
          )
          | inr fresh ↦
              step s named (λ b k. earlier-IsGone all es (s ∷ seen) b k)
                (rw (named, check_earlier, fresh) at h)
        ]
      ]
    where
      nothing : {t : ℕ} → ◌≡◌ {A = Option ℕ} none (some t) → ⊥
      nothing e' = cc

      same : {s t : ℕ} → ◌≡◌ {A = Option ℕ} (some s) (some t) → s ≡ t
      same e' = cc

      step :
          (s : ℕ)
          → known_txid node txid_of verify e ≡ some s
          → (((u : ℕ) → has_number u (s ∷ seen) ≡ true → IsGone all u)
              → check_earlier node txid_of verify all es (s ∷ seen) ≡ pass
              → All
                  (λ (e : EarlierTx).
                    (t : ℕ) → known_txid node txid_of verify e ≡ some t → IsGone all t)
                  es)
          → check_answer (node_has node s) (
              and_then
                (check_hex node txid_of verify (hex_for node txid_of verify s all))
                (check_earlier node txid_of verify all es (s ∷ seen)))
            ≡ pass
          → All
              (λ (e : EarlierTx).
                (t : ℕ) → known_txid node txid_of verify e ≡ some t → IsGone all t)
              (e ∷ es)
      step s named rec h' =
          let (gone, rest) =
            answer_passes (node_has node s)
              (and_then (check_hex node txid_of verify (hex_for node txid_of verify s all))
                (check_earlier node txid_of verify all es (s ∷ seen)))
              h' in
          let (unspent, more) =
            both_pass (check_hex node txid_of verify (hex_for node txid_of verify s all))
              (check_earlier node txid_of verify all es (s ∷ seen)) rest in
          let now_gone : IsGone all s = (
            gone,
            λ hex inputs e' parsed.
                hex_passes (hex_for node txid_of verify s all) hex inputs unspent e' parsed,
          ) in
          (
            (λ t e'. subst (IsGone all) (same (sym named ∙ e')) now_gone),
            rec (seen-IsGone all s seen now_gone before) more,
          )

  -- What a withdrawal must have before it is paid.
  pub record IsPayable (row : QueuedPayoutRow) (db : Db) : Type 0 where
    pub withdrawal : WithdrawalRequest
    pub recorded : row.withdrawal ≡ some withdrawal
    pub amounts_agree : withdrawal.amount_sat ≡ row.amount_sat
    pub destinations_agree : text_eq withdrawal.dobbscoin_address row.dobbscoin_address ≡ true
    pub only_claim : row.same_burn_rows ≡ 0
    pub burned : verify (claim_of row withdrawal) ≡ backed
    pub never_paid :
        All
          (λ (e : EarlierTx).
            (t : ℕ)
            → known_txid node txid_of verify e ≡ some t
            → IsGone (signed_for withdrawal.withdrawal_id row.order_id db) t)
          (signed_for withdrawal.withdrawal_id row.order_id db)

  verdict_passes : (v : BurnVerdict) → check_verdict v ≡ pass → v ≡ backed
  verdict_passes backed h = refl
  verdict_passes (deferred f) h = cc
  verdict_passes (refused f) h = cc

  burn_passes :
      (row : QueuedPayoutRow) (w : WithdrawalRequest)
      → row.withdrawal ≡ some w
      → check_burn node txid_of verify row ≡ pass
      → (w.amount_sat ≡ row.amount_sat)
        × ((text_eq w.dobbscoin_address row.dobbscoin_address ≡ true)
            × ((row.same_burn_rows ≡ 0) × (verify (claim_of row w) ≡ backed)))
  unfolding check_burn
  burn_passes row w e h = elim (Bool-cases (ltb 0 row.same_burn_rows)) [
    | inl more ↦ absurd (no (rw (e, check_burn, more) at h))
    | inr one ↦
        elim (Bool-cases (
          not (
            (w.amount_sat == row.amount_sat)
            && text_eq w.dobbscoin_address row.dobbscoin_address))) [
              | inl differ ↦ absurd (no (rw (e, check_burn, one, differ) at h))
              | inr agree ↦ (
                ground arith,
                (
                  ground arith,
                  (
                    ground arith,
                    verdict_passes (verify (claim_of row w)) (rw (e, check_burn, one, agree) at h),
                  ),
                ),
              )
            ]
  ]
    where
      no : {r : Refusal} → refuse r ≡ pass → ⊥
      no e' = cc

  pub checks-IsPayable :
      (row : QueuedPayoutRow) (db : Db)
      → check_unpaid node txid_of verify row db ≡ pass
      → check_burn node txid_of verify row ≡ pass
      → IsPayable row db
  unfolding check_unpaid
  checks-IsPayable row db unpaid burn = elim (Option-cases row.withdrawal) [
    | inl missing ↦ absurd (no (rw (missing, check_unpaid) at unpaid))
    | inr (w, there) ↦
        let (amounts, (destinations, (only, burned))) = burn_passes row w there burn in
        record {
          withdrawal = w;
          recorded = there;
          amounts_agree = amounts;
          destinations_agree = destinations;
          only_claim = only;
          burned = burned;
          never_paid =
              earlier-IsGone (signed_for w.withdrawal_id row.order_id db)
                (signed_for w.withdrawal_id row.order_id db) [] (λ s h. absurd (none_seen h))
                (rw (there, check_unpaid) at unpaid);
        }
  ]
    where
      no : {r : Refusal} → refuse r ≡ pass → ⊥
      no e' = cc

      none_seen : false ≡ true → ⊥
      none_seen e' = cc
