-- ===== src/Engine/Examples.antt =====
-- Runs and instances for the engine.
use wbob_bridge.Prelude.{ℕ, zero, suc, arith, ◌≡◌, refl, true, none, some, List, [], ◌∷◌}
use wbob_bridge.Prelude.Tables.{select_one}
use wbob_bridge.Shared.Result.{ok, err}
use wbob_bridge.Shared.Inbound
use wbob_bridge.Shared.Inbound.{InboundState, can_transition_inbound, assert_inbound_transition}
use wbob_bridge.Shared.Outbound
use wbob_bridge.Shared.Outbound.{can_transition_outbound, assert_outbound_transition}
use wbob_bridge.Engine
use wbob_bridge.Engine.{
  OrderType, Order, Db, TransitionOptions, inbound_name, outbound_name, has_id, execute_transition,
  transition_inbound, transition_outbound, concurrent_transition,
}
use wbob_bridge.Engine.Journal
use wbob_bridge.Engine.Journal.{
  Outcome, execute_transition-Outcome, Request, inbound_step, outbound_step, serve, IsJournal,
  serve-IsJournal, racing_transition_loses, outbound_call_strands_inbound_order,
}

abbrev no_options : TransitionOptions
no_options = record { actor = none; metadata = none }

abbrev quoted : Order
quoted = record { id = 1; order_type = OrderType.inbound; state = 0 }

abbrev broken : Order
broken = record { id = 2; order_type = OrderType.inbound; state = 9 }

abbrev start : Db
start = record { bridge_orders = quoted ∷ broken ∷ []; audit_events = [] }

-- The states in which the two orders were created.
abbrev created : ℕ → ℕ
created zero = 0
created (suc zero) = 0
created (suc (suc n)) = 9

start-IsJournal : IsJournal created start
unfolding Journal.replay
start-IsJournal = record { edges = tt; replays = λ i row e. replayed i row e }
  where
    replayed :
        (i : ℕ) (row : Order)
        → select_one (has_id i) start.bridge_orders ≡ some row
        → some (created i) ≡ some row.state
    replayed zero row e = ground arith
    replayed (suc zero) row e = ground arith
    replayed (suc (suc zero)) row e = ground arith
    replayed (suc (suc (suc n))) row e = ground arith

abbrev requests : List Request
requests =
    inbound_step 1 Inbound.quote_created Inbound.deposit_address_assigned no_options
    ∷ inbound_step 1 Inbound.quote_created Inbound.failed no_options
    ∷ outbound_step 2 Outbound.failed Outbound.manual_review no_options
    ∷ []

serve-IsJournal_example : IsJournal created (serve requests start)
serve-IsJournal_example = serve-IsJournal created requests start start-IsJournal

execute_transition-Outcome_example :
    Outcome 3 0 1 no_options start (execute_transition 3 0 1 no_options start)
execute_transition-Outcome_example = execute_transition-Outcome 3 0 1 no_options start

abbrev after_assignment : Db
after_assignment = record {
  bridge_orders = record quoted { state = 1 } ∷ broken ∷ [];
  audit_events = Engine.transition_event 1 0 1 no_options ∷ [];
}

racing_transition_loses_example :
    transition_inbound 1 Inbound.quote_created Inbound.failed no_options after_assignment
    ≡ err (concurrent_transition 1 0 1)
unfolding transition_inbound can_transition_inbound
racing_transition_loses_example =
    racing_transition_loses 1 Inbound.quote_created Inbound.deposit_address_assigned Inbound.failed
      no_options no_options start after_assignment refl refl

outbound_call_strands_inbound_order_example :
    (db' : Db) × (transition_outbound 2 Outbound.failed Outbound.manual_review no_options start
      ≡ ok db')
    × ((s t : InboundState)
        → can_transition_inbound s t ≡ true
        → transition_inbound 2 s t no_options db'
          ≡ err (concurrent_transition 2 (inbound_name s) (outbound_name Outbound.manual_review)))
outbound_call_strands_inbound_order_example =
    outbound_call_strands_inbound_order 2 no_options start broken refl refl refl
