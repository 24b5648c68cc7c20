-- ===== src/Engine/Journal.antt =====
-- The audit log as a journal of the orders (backend/src/state-machine/engine.ts).
use wbob_bridge.Prelude.{
  ℕ, ◌≡◌, ◌∙◌, refl, ◌≢◌, ◌⊎◌, inl, inr, true, false, Option, none, some, List, [], ◌∷◌, ◌++◌,
  arith, ◌==◌, if◌then◌else◌, All, All-append, Bool-cases, Option-cases, ap, sym, subst, ==_of_ne,
  ℕ_discrete,
}
use wbob_bridge.Prelude.Tables.{select_one, update_where, select-update_self, select-update_ne}
use wbob_bridge.Shared.Result.{Result, ok, err}
use wbob_bridge.Shared.Inbound
use wbob_bridge.Shared.Inbound.{InboundState, can_transition_inbound}
use wbob_bridge.Shared.Outbound.{OutboundState, failed, manual_review, can_transition_outbound}
use wbob_bridge.Engine.{
  inbound_name, outbound_name, OrderType, Order, AuditEvent, Db, TransitionOptions, EngineError,
  order_not_found, concurrent_transition, invalid_transition, has_id, with_state,
  execute_transition, transition_inbound, transition_outbound, transition_event,
}

module _ (i to : ℕ) (os : List Order) where
  stored_state :
      (o : Order)
      → select_one (has_id i) os ≡ some o
      → select_one (has_id i) (update_where (has_id i) (with_state to) os) ≡ some (with_state to o)
  stored_state o h = rw (select-update_self (has_id i) (with_state to) os (λ a. refl), h)

  others_kept :
      (j : ℕ)
      → j ≢ i
      → select_one (has_id j) (update_where (has_id i) (with_state to) os)
        ≡ select_one (has_id j) os
  others_kept j ne =
      select-update_ne (has_id i) (has_id j) (with_state to) os (λ a h. ground arith)
        (λ a h. ground arith)

-- What a transition that committed has done.
pub record Committed (i from to : ℕ) (opts : TransitionOptions) (db db' : Db) : Type 0 where
  pub row : Order
  pub before : select_one (has_id i) db.bridge_orders ≡ some row
  pub was : row.state ≡ from
  pub after : select_one (has_id i) db'.bridge_orders ≡ some (with_state to row)
  pub others :
      (j : ℕ)
      → j ≢ i
      → select_one (has_id j) db'.bridge_orders ≡ select_one (has_id j) db.bridge_orders
  pub logged : db'.audit_events ≡ db.audit_events ++ transition_event i from to opts ∷ []

-- What a run of `execute_transition` from `db` promises, by how it ended.
abbrev pub Outcome : ℕ → ℕ → ℕ → TransitionOptions → Db → Result EngineError Db → Type 0
Outcome i from to opts db (ok db') = Committed i from to opts db db'
Outcome i from to opts db (err e) =
    ((e ≡ order_not_found i) × (select_one (has_id i) db.bridge_orders ≡ none))
    ⊎ ((row : Order) × (select_one (has_id i) db.bridge_orders ≡ some row)
        × (row.state ≢ from)
        × (e ≡ concurrent_transition i from row.state))

-- A transition commits exactly when the order is there in the expected state: it then changes that
-- order's state alone and appends one audit row. Otherwise it throws the error that says why.
pub execute_transition-Outcome :
    (i from to : ℕ) (opts : TransitionOptions) (db : Db)
    → Outcome i from to opts db (execute_transition i from to opts db)
unfolding execute_transition
execute_transition-Outcome i from to opts db =
    elim (Option-cases (select_one (has_id i) db.bridge_orders)) [
      | inl gone ↦ rw (gone, Outcome) (inl (refl, gone))
      | inr (row, e) ↦ elim (Bool-cases (row.state == from)) [
        | inl same ↦
            rw (e, Outcome, same)
              (record {
                row = row;
                before = e;
                was = ground arith;
                after = stored_state i to db.bridge_orders row e;
                others = others_kept i to db.bridge_orders;
                logged = refl;
              })
        | inr other ↦ rw (e, Outcome, other) (inr (row, e, (λ p. ground arith), refl))
      ]
    ]

-- One call of the engine by some service.
pub data Request : Type 0 where
  inbound_step : ℕ → InboundState → InboundState → TransitionOptions → Request
  outbound_step : ℕ → OutboundState → OutboundState → TransitionOptions → Request

unfoldable pub call : Request → Db → Result EngineError Db
unfolding transition_inbound transition_outbound
call (inbound_step i s t opts) db = transition_inbound i s t opts db
call (outbound_step i s t opts) db = transition_outbound i s t opts db

-- A transaction that throws is rolled back.
abbrev pub committed_or : Db → Result EngineError Db → Db
committed_or db (ok db') = db'
committed_or db (err e) = db

-- Any interleaving of calls: the row lock makes each of them one step.
unfoldable pub serve : List Request → Db → Db
serve [] db = db
serve (r ∷ rs) db = serve rs (committed_or db (call r db))

-- An edge of one of the two graphs, between stored texts.
pub data IsEdge (from to : ℕ) : Type 0 where
  inbound_edge :
      (s t : InboundState)
      → can_transition_inbound s t ≡ true
      → from ≡ inbound_name s
      → to ≡ inbound_name t
      → IsEdge from to
  outbound_edge :
      (s t : OutboundState)
      → can_transition_outbound s t ≡ true
      → from ≡ outbound_name s
      → to ≡ outbound_name t
      → IsEdge from to

-- The state that the log leads order `i` to from state `s`; `none` where a row does not fit.
unfoldable pub replay : ℕ → List AuditEvent → ℕ → Option ℕ
replay i [] s = some s
replay i (e ∷ es) s =
    let rest = replay i es e.to_state in
    let skip = replay i es s in
    if e.order_id == i then (if e.from_state == s then rest else none) else skip

replay-append :
    (i : ℕ) (xs ys : List AuditEvent) (s t : ℕ)
    → replay i xs s ≡ some t
    → replay i (xs ++ ys) s ≡ replay i ys t
unfolding replay
replay-append i [] ys s t h = ground arith
replay-append i (x ∷ xs) ys s t h =
    ground (arith, replay-append i xs ys s t, replay-append i xs ys x.to_state t)

-- The log is a journal of the orders: it holds edges only, and replaying it from the state in which
-- an order was created gives the state that the order has.
pub record IsJournal (initial : ℕ → ℕ) (db : Db) : Type 0 where
  pub edges : All (λ (e : AuditEvent). IsEdge e.from_state e.to_state) db.audit_events
  pub replays :
      (i : ℕ) (row : Order)
      → select_one (has_id i) db.bridge_orders ≡ some row
      → replay i db.audit_events (initial i) ≡ some row.state

replay_own :
    (i from to : ℕ) (opts : TransitionOptions)
    → replay i (transition_event i from to opts ∷ []) from ≡ some to
unfolding replay
replay_own i from to opts = ground arith

replay_other :
    (i j from to s : ℕ) (opts : TransitionOptions)
    → j ≢ i
    → replay j (transition_event i from to opts ∷ []) s ≡ some s
unfolding replay
replay_other i j from to s opts ne = ground arith

module _ (initial : ℕ → ℕ) (i from to : ℕ) (opts : TransitionOptions) {db db' : Db}
    (edge : IsEdge from to) (c : Committed i from to opts db db') (j : IsJournal initial db) where
  own_replays :
      replay i (db.audit_events ++ transition_event i from to opts ∷ []) (initial i) ≡ some to
  own_replays =
      replay-append i db.audit_events _ (initial i) from
        (j.replays i c.row c.before ∙ ap some c.was)
      ∙ replay_own i from to opts

  other_replays :
      (k : ℕ) (row : Order)
      → k ≢ i
      → select_one (has_id k) db'.bridge_orders ≡ some row
      → replay k (db.audit_events ++ transition_event i from to opts ∷ []) (initial k)
        ≡ some row.state
  other_replays k row ne e =
      replay-append k db.audit_events _ (initial k) row.state
        (j.replays k row (sym (c.others k ne) ∙ e))
      ∙ replay_other i k from to row.state opts ne

  row_replays :
      (k : ℕ) (row : Order)
      → select_one (has_id k) db'.bridge_orders ≡ some row
      → replay k (db.audit_events ++ transition_event i from to opts ∷ []) (initial k)
        ≡ some row.state
  row_replays k row e = elim (ℕ_discrete k i) [
    | yes same ↦
        let e' : select_one (has_id i) db'.bridge_orders ≡ some row = rw same at e in
        let r : some (with_state to c.row) ≡ some row = sym c.after ∙ e' in
        rw same (own_replays ∙ cc)
    | no ne ↦ other_replays k row ne e
  ]

  Committed-IsJournal : IsJournal initial db'
  Committed-IsJournal = record {
    edges =
        rw c.logged
          (All-append _ db.audit_events (transition_event i from to opts ∷ []) j.edges (edge, tt));
    replays = λ k row e. rw c.logged (row_replays k row e);
  }

Outcome-IsJournal :
    (initial : ℕ → ℕ) (i from to : ℕ) (opts : TransitionOptions) (db : Db)
    (r : Result EngineError Db)
    → IsEdge from to
    → Outcome i from to opts db r
    → IsJournal initial db
    → IsJournal initial (committed_or db r)
Outcome-IsJournal initial i from to opts db (ok db') edge c j =
    Committed-IsJournal initial i from to opts edge c j
Outcome-IsJournal initial i from to opts db (err e) edge c j = j

execute-IsJournal :
    (initial : ℕ → ℕ) (i from to : ℕ) (opts : TransitionOptions) (db : Db)
    → IsEdge from to
    → IsJournal initial db
    → IsJournal initial (committed_or db (execute_transition i from to opts db))
execute-IsJournal initial i from to opts db edge =
    Outcome-IsJournal initial i from to opts db (execute_transition i from to opts db) edge
      (execute_transition-Outcome i from to opts db)

module _ (i : ℕ) (s t : InboundState) (opts : TransitionOptions) (db : Db) where
  allowed_inbound :
      can_transition_inbound s t ≡ true
      → transition_inbound i s t opts db
        ≡ execute_transition i (inbound_name s) (inbound_name t) opts db
  unfolding transition_inbound
  allowed_inbound e = rw (e, transition_inbound) refl

  refused_inbound :
      can_transition_inbound s t ≡ false
      → transition_inbound i s t opts db
        ≡ err (invalid_transition (inbound_name s) (inbound_name t))
  unfolding transition_inbound
  refused_inbound e = rw (e, transition_inbound) refl

module _ (i : ℕ) (s t : OutboundState) (opts : TransitionOptions) (db : Db) where
  allowed_outbound :
      can_transition_outbound s t ≡ true
      → transition_outbound i s t opts db
        ≡ execute_transition i (outbound_name s) (outbound_name t) opts db
  unfolding transition_outbound
  allowed_outbound e = rw (e, transition_outbound) refl

  refused_outbound :
      can_transition_outbound s t ≡ false
      → transition_outbound i s t opts db
        ≡ err (invalid_transition (outbound_name s) (outbound_name t))
  unfolding transition_outbound
  refused_outbound e = rw (e, transition_outbound) refl

call-IsJournal :
    (initial : ℕ → ℕ) (r : Request) (db : Db)
    → IsJournal initial db
    → IsJournal initial (committed_or db (call r db))
unfolding call
call-IsJournal initial (inbound_step i s t opts) db j =
    elim (Bool-cases (can_transition_inbound s t)) [
      | inl e ↦
          subst (λ r. IsJournal initial (committed_or db r)) (sym (allowed_inbound i s t opts db e))
            (execute-IsJournal initial i _ _ opts db (inbound_edge s t e refl refl) j)
      | inr e ↦
          subst (λ r. IsJournal initial (committed_or db r)) (sym (refused_inbound i s t opts db e))
            j
    ]
call-IsJournal initial (outbound_step i s t opts) db j =
    elim (Bool-cases (can_transition_outbound s t)) [
      | inl e ↦
          subst (λ r. IsJournal initial (committed_or db r))
            (sym (allowed_outbound i s t opts db e))
            (execute-IsJournal initial i _ _ opts db (outbound_edge s t e refl refl) j)
      | inr e ↦
          subst (λ r. IsJournal initial (committed_or db r))
            (sym (refused_outbound i s t opts db e)) j
    ]

-- Whatever calls the services interleave, failed ones included, the log stays a journal: every row
-- is an edge of one of the two graphs, and replaying the rows of an order gives its stored state.
pub serve-IsJournal :
    (initial : ℕ → ℕ) (rs : List Request) (db : Db)
    → IsJournal initial db
    → IsJournal initial (serve rs db)
unfolding serve
serve-IsJournal initial [] db j = j
serve-IsJournal initial (r ∷ rs) db j =
    serve-IsJournal initial rs (committed_or db (call r db)) (call-IsJournal initial r db j)

no_self_edge :
    (s t : InboundState) → can_transition_inbound s t ≡ true → inbound_name t ≢ inbound_name s
unfolding can_transition_inbound
no_self_edge s t e = ground arith

err≢ok : {e : EngineError} {db : Db} → ◌≡◌ {A = Result EngineError Db} (err e) (ok db) → ⊥
err≢ok h = cc

committed :
    (i from to : ℕ) (opts : TransitionOptions) (db : Db) {db' : Db}
    → execute_transition i from to opts db ≡ ok db'
    → Committed i from to opts db db'
committed i from to opts db h =
    subst (Outcome i from to opts db) h (execute_transition-Outcome i from to opts db)

late_transition :
    (i from to to' : ℕ) {opts : TransitionOptions} (opts' : TransitionOptions) {db db' : Db}
    → to ≢ from
    → Committed i from to opts db db'
    → execute_transition i from to' opts' db' ≡ err (concurrent_transition i from to)
unfolding execute_transition
late_transition i from to to' opts' ne c =
    rw (c.after, execute_transition, ==_of_ne to from ne) refl

-- Of two services that try to move an inbound order on from one state, whichever comes second is
-- told that the order has moved, and commits nothing.
pub racing_transition_loses :
    (i : ℕ) (s t u : InboundState) (opts opts' : TransitionOptions) (db db' : Db)
    → transition_inbound i s t opts db ≡ ok db'
    → can_transition_inbound s u ≡ true
    → transition_inbound i s u opts' db'
      ≡ err (concurrent_transition i (inbound_name s) (inbound_name t))
racing_transition_loses i s t u opts opts' db db' h e =
    elim (Bool-cases (can_transition_inbound s t)) [
      | inl edge ↦
          allowed_inbound i s u opts' db' e
          ∙ late_transition i (inbound_name s) (inbound_name t) (inbound_name u) opts'
              (no_self_edge s t edge)
              (committed i _ _ opts db (sym (allowed_inbound i s t opts db edge) ∙ h))
      | inr bad ↦ absurd (err≢ok (sym (refused_inbound i s t opts db bad) ∙ h))
    ]

stuck_name : (s : InboundState) → inbound_name s ≢ outbound_name manual_review
stuck_name s e = ground arith

stuck_order :
    (i : ℕ) (s t : InboundState) (opts : TransitionOptions) (db : Db) (row : Order)
    → select_one (has_id i) db.bridge_orders ≡ some row
    → row.state ≡ outbound_name manual_review
    → can_transition_inbound s t ≡ true
    → transition_inbound i s t opts db
      ≡ err (concurrent_transition i (inbound_name s) (outbound_name manual_review))
stuck_order i s t opts db row e m edge = allowed_inbound i s t opts db edge ∙ refuse
  where
    differs : (row.state == inbound_name s) ≡ false
    differs = ==_of_ne _ _ (λ p. stuck_name s (sym p ∙ m))

    refuse :
        execute_transition i (inbound_name s) (inbound_name t) opts db
        ≡ err (concurrent_transition i (inbound_name s) (outbound_name manual_review))
    refuse = unfold execute_transition in rw (e, execute_transition, differs, m) refl

-- The engine does not look at `order_type`: an inbound order in FAILED can be moved to MANUAL_REVIEW
-- by the outbound call, and from there no inbound call moves it any more.
pub outbound_call_strands_inbound_order :
    (i : ℕ) (opts : TransitionOptions) (db : Db) (row : Order)
    → select_one (has_id i) db.bridge_orders ≡ some row
    → row.order_type ≡ OrderType.inbound
    → row.state ≡ inbound_name Inbound.failed
    → (db' : Db) × (transition_outbound i failed manual_review opts db ≡ ok db')
      × ((s t : InboundState)
          → can_transition_inbound s t ≡ true
          → transition_inbound i s t opts db'
            ≡ err (concurrent_transition i (inbound_name s) (outbound_name manual_review)))
unfolding can_transition_outbound
outbound_call_strands_inbound_order i opts db row e kind m = (
  _,
  allowed_outbound i failed manual_review opts db refl ∙ moved,
  λ s t edge.
      stuck_order i s t opts _ (with_state (outbound_name manual_review) row)
        (stored_state i (outbound_name manual_review) db.bridge_orders row e) refl edge,
)
  where
    fits : (row.state == outbound_name failed) ≡ true
    fits = ground arith

    moved :
        execute_transition i (outbound_name failed) (outbound_name manual_review) opts db
        ≡ ok (record {
          bridge_orders =
              update_where (has_id i) (with_state (outbound_name manual_review)) db.bridge_orders;
          audit_events =
              db.audit_events
              ++ transition_event i (outbound_name failed) (outbound_name manual_review) opts ∷ [];
        })
    moved = unfold execute_transition in rw (e, execute_transition, fits) refl
