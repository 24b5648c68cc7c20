-- ===== src/Payout/Completion.antt =====
-- When `confirmBroadcast` of backend/src/executor/payout-executor.ts makes an order COMPLETED.
use wbob_bridge.Prelude.{
  ℕ, ◌+◌, ◌≤◌, ◌≡◌, refl, ◌∙◌, sym, ap, ◌⊎◌, Bool, true, false, ◌||◌, Option, none, some, List,
  arith, ◌==◌, ltb, Bool-cases, Option-cases, inl, inr,
}
use wbob_bridge.Prelude.Tables.{select_one, update_where, select-update, select_one-holds}
use wbob_bridge.Shared.Result.{Result, ok, err, Result-cases}
use wbob_bridge.Shared.Outbound.{
  OutboundState, payout_broadcast, payout_confirmed, completed, manual_review,
  can_transition_outbound,
}
use wbob_bridge.TxBuilder.RawTx.{RawTx}
use wbob_bridge.Payout.Node.{Node, RpcError, get_confirmations, is_in_mempool}
use wbob_bridge.Payout.Tables.{
  PayoutOrder, PayoutEvent, Metadata, Db, Write, parking, confirming, recording, completing,
  no_metadata, state_transition, order_is, with_order_state, row_state, is_in, transition_generic,
  transition_outbound,
}
use wbob_bridge.Payout.Queue.{park}
use wbob_bridge.Payout.Confirm.{
  BroadcastPayoutRow, ResendEntry, PollState, Resent, out, unknown, refused_again, after_resend,
  resent, resend_forgotten, resend_forgotten_max_failures, get_entry, set_entry, sent_recently,
  is_recent, stored_hex, then_record, confirm_payout, if_out_of_pool, confirm_row,
  payout_min_confirmations,
}
use wbob_bridge.Payout.Moves.{state_in}

-- Where an order is COMPLETED now it was so before, or it is the order i and the condition holds.
abbrev pub CompletesOnly {ℓ} : ℕ → Type ℓ → List PayoutOrder → List PayoutOrder → Type ℓ
CompletesOnly i P orders orders' =
    (j : ℕ)
    → state_in j orders' ≡ some completed
    → (state_in j orders ≡ some completed) ⊎ ((i ≡ j) × P)

CompletesOnly-refl {ℓ} :
    {P : Type ℓ} → (i : ℕ) (orders : List PayoutOrder) → CompletesOnly i P orders orders
CompletesOnly-refl i orders j h = inl h

CompletesOnly-trans {ℓ} :
    {P : Type ℓ}
    → (i : ℕ) (a b c : List PayoutOrder) → CompletesOnly i P a b
    → CompletesOnly i P b c
    → CompletesOnly i P a c
CompletesOnly-trans i a b c f g j h = elim (g j h) [ inl before ↦ f j before | inr made ↦ inr made ]

CompletesOnly-weaken {ℓ} :
    {P Q : Type ℓ}
    → (i : ℕ) (a b : List PayoutOrder) → (P → Q)
    → CompletesOnly i P a b
    → CompletesOnly i Q a b
CompletesOnly-weaken i a b k f j h = elim (f j h) [
  | inl before ↦ inl before
  | inr (ours, p) ↦ inr (ours, k p)
]

set-CompletesOnly :
    (i : ℕ) (to : OutboundState) (orders : List PayoutOrder)
    → CompletesOnly i
        (to ≡ completed)
        orders
        (update_where (order_is i) (with_order_state to) orders)
set-CompletesOnly i to orders j h =
    let e = select-update (order_is i) (order_is j) (with_order_state to) orders (λ r. refl) in
    let h' = sym (ap row_state e) ∙ h in
    elim (Option-cases (select_one (order_is j) orders)) [
      | inl gone ↦ inl (rw gone (rw gone at h'))
      | inr (o, found) ↦ elim (Bool-cases (order_is i o)) [
        | inl mine ↦ inr (
          ids o mine (select_one-holds (order_is j) orders found),
          same_state (rw (found, mine) at h'),
        )
        | inr other ↦ inl (rw found (rw (found, other) at h'))
      ]
    ]
  where
    ids : (o : PayoutOrder) → order_is i o ≡ true → order_is j o ≡ true → i ≡ j
    ids o m f = ground arith

    same_state : {s t : OutboundState} → ◌≡◌ {A = Option OutboundState} (some s) (some t) → s ≡ t
    same_state e = cc

transition-CompletesOnly :
    (fails : Write → ℕ → Bool) (write : Write) (i : ℕ) (from to : OutboundState)
    (event : PayoutEvent) (metadata : Metadata) (db : Db)
    → CompletesOnly i
        (to ≡ completed)
        db.bridge_orders
        (transition_generic fails write i from to event metadata db).0.bridge_orders
unfolding transition_generic
transition-CompletesOnly fails write i from to event metadata db =
    elim (Bool-cases (can_transition_outbound from to)) [
      | inr no_edge ↦ rw (no_edge, transition_generic) (CompletesOnly-refl i db.bridge_orders)
      | inl edge ↦ elim (Bool-cases (fails write i)) [
        | inl broken ↦ rw (edge, transition_generic, broken) (CompletesOnly-refl i db.bridge_orders)
        | inr fine ↦ elim (Bool-cases (is_in i from db)) [
          | inr moved ↦
              rw (edge, transition_generic, fine, moved) (CompletesOnly-refl i db.bridge_orders)
          | inl here ↦
              rw (edge, transition_generic, fine, here) (set-CompletesOnly i to db.bridge_orders)
        ]
      ]
    ]

-- Parking completes nothing.
parked-CompletesOnly :
    {P : Type 0}
    → (fails : Write → ℕ → Bool) (i : ℕ) (from : OutboundState) (db : Db)
    → CompletesOnly i P db.bridge_orders
        (transition_generic fails parking i from manual_review state_transition no_metadata
          db).0.bridge_orders
parked-CompletesOnly fails i from db =
    CompletesOnly-weaken i db.bridge_orders _ (λ e. absurd (apart e))
      (transition-CompletesOnly fails parking i from manual_review state_transition no_metadata db)
  where
    apart : manual_review ≡ completed → ⊥
    apart e = cc

module _ (node : Node) (txid_of : RawTx → ℕ) (fails : Write → ℕ → Bool) (now : ℕ) where
  after_resend-CompletesOnly :
      {P : Type 0}
      → (row : BroadcastPayoutRow) (e : ResendEntry) (r : Resent) (s : PollState)
      → CompletesOnly row.order_id P s.db.bridge_orders
          (after_resend node txid_of fails now row e r s).db.bridge_orders
  unfolding after_resend
  after_resend-CompletesOnly row e out s = CompletesOnly-refl row.order_id s.db.bridge_orders
  after_resend-CompletesOnly row e unknown s = CompletesOnly-refl row.order_id s.db.bridge_orders
  after_resend-CompletesOnly row e refused_again s =
      elim (Bool-cases (ltb (e.failures + 1) resend_forgotten_max_failures)) [
        | inl again ↦ rw (after_resend, again) (CompletesOnly-refl row.order_id s.db.bridge_orders)
        | inr enough ↦
            rw (after_resend, enough)
              (parked-CompletesOnly fails row.order_id payout_broadcast s.db)
      ]

  resend_forgotten-CompletesOnly :
      {P : Type 0}
      → (row : BroadcastPayoutRow) (s : PollState)
      → CompletesOnly row.order_id P s.db.bridge_orders
          (resend_forgotten node txid_of fails now row s).db.bridge_orders
  unfolding resend_forgotten park
  resend_forgotten-CompletesOnly row s =
      let e = record (get_entry row.payout_id s.resend_state) { last = now } in
      elim (Bool-cases (
        sent_recently now row.broadcast_at
        || is_recent now (get_entry row.payout_id s.resend_state).last)) [
          | inl young ↦
              rw (resend_forgotten, young) (CompletesOnly-refl row.order_id s.db.bridge_orders)
          | inr old ↦ elim (Option-cases (stored_hex node txid_of fails now row s.db)) [
            | inl missing ↦
                rw (resend_forgotten, old, missing)
                  (parked-CompletesOnly fails row.order_id payout_broadcast s.db)
            | inr (hex, there) ↦
                rw (resend_forgotten, old, there)
                  (after_resend-CompletesOnly row e (resent (node.send_raw_transaction hex))
                    (record s { resend_state = set_entry e s.resend_state }))
          ]
        ]

  if_out_of_pool-CompletesOnly :
      {P : Type 0}
      → (row : BroadcastPayoutRow) (r : Result RpcError Bool) (s : PollState)
      → CompletesOnly row.order_id P s.db.bridge_orders
          (if_out_of_pool node txid_of fails now row r s).db.bridge_orders
  if_out_of_pool-CompletesOnly row (err e) s = CompletesOnly-refl row.order_id s.db.bridge_orders
  if_out_of_pool-CompletesOnly row (ok true) s = CompletesOnly-refl row.order_id s.db.bridge_orders
  if_out_of_pool-CompletesOnly row (ok false) s = resend_forgotten-CompletesOnly row s

  then_record-CompletesOnly :
      {P : Type 0}
      → P
      → (row : BroadcastPayoutRow) (confs : ℕ) (before : Db) (step : Db × Bool)
      → CompletesOnly row.order_id P before.bridge_orders step.0.bridge_orders
      → CompletesOnly row.order_id P before.bridge_orders
          (then_record node txid_of fails now row confs step).0.bridge_orders
  then_record-CompletesOnly p row confs before (db, false) w = w
  then_record-CompletesOnly p row confs before (db, true) w =
      elim (Bool-cases (fails recording row.order_id)) [
        | inl broken ↦ rw broken w
        | inr fine ↦ rw fine (
            CompletesOnly-trans row.order_id before.bridge_orders db.bridge_orders _ w (
              CompletesOnly-weaken row.order_id db.bridge_orders _ (λ e. p)
                (transition-CompletesOnly fails completing row.order_id payout_confirmed completed
                  state_transition (record no_metadata { txid = some row.txid }) _)))
      ]

  confirm_payout-CompletesOnly :
      {P : Type 0}
      → P
      → (row : BroadcastPayoutRow) (confs : ℕ) (db : Db)
      → CompletesOnly row.order_id P db.bridge_orders
          (confirm_payout node txid_of fails now row confs db).0.bridge_orders
  unfolding confirm_payout
  confirm_payout-CompletesOnly p row confs db =
      then_record-CompletesOnly p row confs db
        (transition_outbound fails confirming row.order_id payout_broadcast payout_confirmed
          (record no_metadata { txid = some row.txid }) db)
        (CompletesOnly-weaken row.order_id db.bridge_orders _ (λ e. p)
          (transition-CompletesOnly fails confirming row.order_id payout_broadcast payout_confirmed
            state_transition (record no_metadata { txid = some row.txid }) db))

  -- The node counts enough confirmations of the recorded transaction.
  abbrev pub IsConfirmed : BroadcastPayoutRow → Type 0
  IsConfirmed row =
      (confs : ℕ) × ((get_confirmations node row.txid ≡ ok (some confs))
        × (payout_min_confirmations ≤ confs))

  counted-CompletesOnly :
      {P : Type 0}
      → (row : BroadcastPayoutRow) (confs : ℕ) (s : PollState)
      → get_confirmations node row.txid ≡ ok (some confs)
      → (payout_min_confirmations ≤ confs → P)
      → CompletesOnly row.order_id P s.db.bridge_orders
          (confirm_row node txid_of fails now row s).0.db.bridge_orders
  unfolding confirm_row
  counted-CompletesOnly row confs s known k = elim (Bool-cases (confs == 0)) [
    | inl unmined ↦
        rw (known, confirm_row, unmined)
          (if_out_of_pool-CompletesOnly row (is_in_mempool node row.txid) s)
    | inr mined ↦ elim (Bool-cases (ltb confs payout_min_confirmations)) [
      | inl few ↦
          rw (known, confirm_row, mined, few) (CompletesOnly-refl row.order_id s.db.bridge_orders)
      | inr enough ↦
          rw (known, confirm_row, mined, enough)
            (confirm_payout-CompletesOnly (k (ground arith)) row confs s.db)
    ]
  ]

  -- A turn of `confirmBroadcast` makes an order COMPLETED only if it is the row's own and the node
  -- counts three confirmations or more of the recorded transaction, whatever the database does.
  pub confirm_row_completes-IsConfirmed :
      (row : BroadcastPayoutRow) (s : PollState) (j : ℕ)
      → state_in j (confirm_row node txid_of fails now row s).0.db.bridge_orders ≡ some completed
      → (state_in j s.db.bridge_orders ≡ some completed) ⊎ ((row.order_id ≡ j) × IsConfirmed row)
  unfolding confirm_row
  confirm_row_completes-IsConfirmed row s = elim (Result-cases (get_confirmations node row.txid)) [
    | inr (e, bad) ↦ rw (bad, confirm_row) (CompletesOnly-refl row.order_id s.db.bridge_orders)
    | inl (none, forgotten) ↦ rw (forgotten, confirm_row) (resend_forgotten-CompletesOnly row s)
    | inl (some confs, known) ↦
        counted-CompletesOnly row confs s known (λ enough. (confs, (known, enough)))
  ]
