-- ===== src/Engine.antt =====
-- backend/src/state-machine/engine.ts: transitions persisted with a row lock and an audit row.
-- A Postgres transaction is a function of the tables that either returns new tables or throws.
pub mod Journal
mod Examples
use wbob_bridge.Prelude.{
  ℕ, ◌≡◌, Bool, true, false, Option, none, some, List, [], ◌∷◌, ◌++◌, ◌==◌, if◌then◌else◌,
}
use wbob_bridge.Prelude.Tables.{select_one, update_where}
use wbob_bridge.Shared.Result.{Result, ok, err}
use wbob_bridge.Shared.Inbound
use wbob_bridge.Shared.Inbound.{InboundState, assert_inbound_transition}
use wbob_bridge.Shared.Outbound
use wbob_bridge.Shared.Outbound.{OutboundState, assert_outbound_transition}

-- The stored text of a state. COMPLETED and FAILED are the same text for both kinds of order, so
-- they are one name: `inbound_name` and `outbound_name` number the texts apart, and nothing else.
abbrev pub inbound_name : InboundState → ℕ
inbound_name s = Inbound.inbound_code s

abbrev pub outbound_name : OutboundState → ℕ
outbound_name Outbound.completed = 8
outbound_name Outbound.failed = 9
outbound_name Outbound.withdraw_request_created = 11
outbound_name Outbound.burn_tx_seen = 12
outbound_name Outbound.burn_confirmed = 13
outbound_name Outbound.payout_queued = 14
outbound_name Outbound.payout_signed = 15
outbound_name Outbound.payout_broadcast = 16
outbound_name Outbound.payout_confirmed = 17
outbound_name Outbound.manual_review = 18

pub data OrderType : Type 0 where
  inbound outbound : OrderType

-- The columns of bridge_orders that the engine reads or writes; an id is a number.
pub record Order : Type 0 where
  pub id : ℕ
  pub order_type : OrderType
  pub state : ℕ

pub data EventType : Type 0 where
  state_transition : EventType
  other_event : ℕ → EventType

-- A row of audit_events; actor and metadata are opaque numbers.
pub record AuditEvent : Type 0 where
  pub order_id : ℕ
  pub event_type : EventType
  pub from_state : ℕ
  pub to_state : ℕ
  pub actor : Option ℕ
  pub metadata : Option ℕ

pub record Db : Type 0 where
  pub bridge_orders : List Order
  pub audit_events : List AuditEvent

pub record TransitionOptions : Type 0 where
  pub actor : Option ℕ
  pub metadata : Option ℕ

pub data EngineError : Type 0 where
  invalid_transition : ℕ → ℕ → EngineError
  order_not_found : ℕ → EngineError
  concurrent_transition : ℕ → ℕ → ℕ → EngineError

abbrev pub has_id : ℕ → Order → Bool
has_id order_id o = o.id == order_id

abbrev pub with_state : ℕ → Order → Order
with_state to o = record o { state = to }

-- The audit row of step 4.
abbrev pub transition_event : ℕ → ℕ → ℕ → TransitionOptions → AuditEvent
transition_event order_id from to opts = record {
  order_id = order_id;
  event_type = state_transition;
  from_state = from;
  to_state = to;
  actor = opts.actor;
  metadata = opts.metadata;
}

-- `_executeTransition`, inside its transaction.
unfoldable pub execute_transition : ℕ → ℕ → ℕ → TransitionOptions → Db → Result EngineError Db
execute_transition order_id expected_from to opts db =
    elim (select_one (has_id order_id) db.bridge_orders) [
      | none ↦ err (order_not_found order_id)
      | some row ↦
          if row.state == expected_from
          then ok (record {
            bridge_orders = update_where (has_id order_id) (with_state to) db.bridge_orders;
            audit_events = db.audit_events ++ transition_event order_id expected_from to opts ∷ [];
          })
          else err (concurrent_transition order_id expected_from row.state)
    ]

unfoldable pub transition_inbound :
    ℕ → InboundState → InboundState → TransitionOptions → Db → Result EngineError Db
unfolding assert_inbound_transition execute_transition
transition_inbound order_id expected to opts db = elim (assert_inbound_transition expected to) [
  | err e ↦ err (invalid_transition (inbound_name e.from) (inbound_name e.to))
  | ok _ ↦ execute_transition order_id (inbound_name expected) (inbound_name to) opts db
]

unfoldable pub transition_outbound :
    ℕ → OutboundState → OutboundState → TransitionOptions → Db → Result EngineError Db
unfolding assert_outbound_transition execute_transition
transition_outbound order_id expected to opts db = elim (assert_outbound_transition expected to) [
  | err e ↦ err (invalid_transition (outbound_name e.from) (outbound_name e.to))
  | ok _ ↦ execute_transition order_id (outbound_name expected) (outbound_name to) opts db
]

unfoldable pub lock_order : ℕ → Db → Result EngineError Order
lock_order order_id db = elim (select_one (has_id order_id) db.bridge_orders) [
  | none ↦ err (order_not_found order_id)
  | some row ↦ ok row
]

unfoldable pub record_event : ℕ → EventType → ℕ → Option ℕ → Option ℕ → Db → Db
record_event order_id event_type current_state metadata actor db = record db {
  audit_events =
      db.audit_events
      ++ record {
        order_id = order_id;
        event_type = event_type;
        from_state = current_state;
        to_state = current_state;
        actor = actor;
        metadata = metadata;
      }
        ∷ [];
}
