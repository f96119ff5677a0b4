-- ===== src/Journal/Tests.antt =====
-- Runs of the journal of executor/journal.py, and its theorems there.
use polymarket_trade_executo.Common.{
  ◌≡◌, refl, false, none, some, List, [], ◌∷◌, ◌++◌, map, ok, err, ◌==◌, string_eq,
}
use polymarket_trade_executo.Common.Int.{pos, ◌+ℤ◌, ◌-ℤ◌, ◌*ℤ◌, ◌/ℤ◌}
use polymarket_trade_executo.Common.Text.{decimal, decimal_upto}
use polymarket_trade_executo.StateMachine.Types.{Side, TimeInForce, PackageState, PackageExecution}
use polymarket_trade_executo.StateMachine.Events.{StateMachineEvent, event_package_id}
use polymarket_trade_executo.StateMachine.Tables.{
  is_terminal_package, is_terminal_order, is_live_order, order_allowed, package_allowed,
}
use polymarket_trade_executo.StateMachine.Package.{
  Raises, create_package_execution, check_legs, validate_package_match, leg_by_id, find_leg,
  assert_order_transition, assert_client_order_match, append_leg, replace_leg, replace_in,
  move_package_state, set_failure_reason, intended_legs, recompute_from, recompute_package_state,
}
use polymarket_trade_executo.StateMachine.Handlers.{on_order_intent, on_fill}
use polymarket_trade_executo.StateMachine.Reducer.{apply_events, apply_event, dispatch}
use polymarket_trade_executo.Planner.Types.{PlannedLeg, ExecutionPlan}
use polymarket_trade_executo.Common.Dict.{keys}
use polymarket_trade_executo.Journal.Json.{
  Json, Items, Fields, Decoded, Python, str, int, is_truthy, as_optional_str,
}
use polymarket_trade_executo.Journal.Primitive.{primitive_fields, HasJson}
use polymarket_trade_executo.Journal.Types.{
  JournalEventType, JournalRecord, ReconstructedExecutorState, empty_state,
}
use polymarket_trade_executo.Journal.Serialize.{
  serialize_planned_leg, serialize_legs, serialize_execution_plan, serialize_order_intent,
  serialize_venue_fill_event,
}
use polymarket_trade_executo.Journal.Deserialize.{
  mappings, as_mapping_list, deserialize_planned_leg, deserialize_legs, deserialize_execution_plan,
  deserialize_order_intent, deserialize_venue_fill_event,
}
use polymarket_trade_executo.Journal.Records.{
  build_record, execution_plan_created_record, dumps, loads, package_failure_record,
  order_submitted_record, order_fill_record, journal_event_record,
}
use polymarket_trade_executo.Journal.Replay.{
  leg_of_plan, reconstruct, apply_records, apply_record, apply_typed, apply_failure, fail_package,
  apply_plan_created, add_raw_plan, add_plan, add_created, update_package_bucket, after_transition,
  apply_to_package, apply_state_event, event_of_type, event_from_payload, event_from_record,
  apply_event_found, apply_event_record,
}
use polymarket_trade_executo.Journal.RoundTrip.{deserialize_execution_plan-serialize_execution_plan}
use polymarket_trade_executo.Journal.Lines.{loads-dumps}
use polymarket_trade_executo.Journal.Rebuilt.{IsRebuilt, reconstruct-IsRebuilt}
use polymarket_trade_executo.Journal.Replayed.{IsBucketed, journal_records}
use polymarket_trade_executo.Journal.Recovered.{reconstruct-journal_records}

abbrev python : Python
python = record { repr = λ v. "{}"; read_int = λ s. none; int_of = λ v. none }

abbrev leg : PlannedLeg
leg = record {
  leg_id = "a";
  market_id = "m";
  token_id = "t";
  side = Side.sell;
  submission_rank = pos 1;
  quantity = pos 10;
  executable_price_ticks = pos 45;
  limit_price_ticks = pos 45;
  tick_size_ticks = pos 1;
  timeout_ms = pos 800;
  tif = TimeInForce.ioc;
  snapshot_ts_ns = pos 100;
  available_units_at_plan = pos 20;
}

abbrev plan : ExecutionPlan
plan = record {
  plan_id = "o:100";
  opportunity_id = "o";
  created_ts_ns = pos 100;
  expires_at_ns = pos 90000000;
  package_timeout_ms = pos 60;
  package_units = pos 10;
  tif = TimeInForce.gtc;
  total_shares = pos 10;
  total_notional_cents = pos 450;
  expected_gross_profit_cents = pos 30;
  expected_fee_cents = pos 0;
  expected_net_profit_cents = pos 30;
  expected_net_edge_bps = pos 600;
  legs = leg ∷ [];
}

deserialize_execution_plan-serialize_execution_plan_example :
    deserialize_execution_plan python (serialize_execution_plan plan) ≡ ok plan
deserialize_execution_plan-serialize_execution_plan_example =
    deserialize_execution_plan-serialize_execution_plan python plan (refl, tt)

abbrev submitted : StateMachineEvent
submitted = StateMachineEvent.order_intent (record {
  package_id = "p";
  leg_id = "a";
  client_order_id = "c";
  qty = pos 10;
  limit_price_ticks = pos 45;
  tif = TimeInForce.ioc;
  ts_ns = pos 200;
  side = some Side.sell;
  market_id = none;
  is_unwind = false;
})

abbrev filled : StateMachineEvent
filled = StateMachineEvent.venue_fill (record {
  package_id = "p";
  leg_id = "a";
  client_order_id = "c";
  fill_qty = pos 10;
  fill_price_ticks = pos 45;
  ts_ns = pos 300;
  cumulative_qty = none;
})

-- opens what the runs call
unfoldable run : PackageExecution → List StateMachineEvent → Raises PackageExecution
unfolding apply_events apply_event dispatch validate_package_match event_package_id on_order_intent
    on_fill leg_by_id find_leg assert_order_transition assert_client_order_match append_leg
    replace_leg replace_in move_package_state set_failure_reason intended_legs recompute_from
    recompute_package_state is_terminal_order is_live_order is_terminal_package order_allowed
    package_allowed create_package_execution check_legs build_record decimal decimal_upto ◌+ℤ◌ ◌-ℤ◌
    ◌*ℤ◌ ◌/ℤ◌
run = apply_events

abbrev or_else : PackageExecution → Raises PackageExecution → PackageExecution
or_else p (ok q) = q
or_else p (err e) = p

abbrev no_package : PackageExecution
no_package = record {
  package_id = "";
  opportunity_id = "";
  created_ts_ns = pos 0;
  updated_ts_ns = pos 0;
  state = PackageState.new;
  intended_leg_ids = [];
  legs = [];
  failure_reason = none;
}

abbrev start : PackageExecution
unfolding run
start = or_else no_package (create_package_execution "p" "o" (pos 150) (map leg_of_plan plan.legs))

abbrev events : List StateMachineEvent
events = submitted ∷ filled ∷ []

abbrev done : PackageExecution
unfolding run
done = or_else no_package (run start events)

made :
    create_package_execution "p" plan.opportunity_id (pos 150) (map leg_of_plan plan.legs)
    ≡ ok start
unfolding run
made = refl

accepted : apply_events start events ≡ ok done
unfolding run
accepted = refl

completed : done.state ≡ PackageState.completed
unfolding run
completed = refl

abbrev journal : List JournalRecord
journal =
    execution_plan_created_record (pos 1) "p" "r" plan (pos 150)
    ∷ journal_records (pos 2) "r" events

reconstruct-journal_records_example :
    (state : ReconstructedExecutorState) × (reconstruct python journal ≡ ok state)
    × IsBucketed state done
    × (state.replay_errors ≡ [])
    × (state.orphan_records ≡ [])
unfolding ◌+ℤ◌
reconstruct-journal_records_example =
    reconstruct-journal_records python (pos 1) (pos 150) "p" "r" plan start done events (refl, tt)
      made (refl, (refl, tt)) accepted

-- A failure of a package that is not active is an orphan.
abbrev failure : JournalRecord
failure = package_failure_record (pos 1) "p" none none "stop" (pos 150)

orphaned :
    reconstruct python (failure ∷ []) ≡ ok (record empty_state { orphan_records = failure ∷ [] })
unfolding apply_records apply_record apply_typed apply_failure fail_package package_failure_record
    build_record
orphaned = refl

-- the journal of a package that completes, and the plan of another one
abbrev two_packages : List JournalRecord
two_packages = journal ++ (execution_plan_created_record (pos 5) "p2" "r" plan (pos 160) ∷ [])

-- opens what a replay calls
unfoldable replay : List JournalRecord → Decoded ReconstructedExecutorState
unfolding run apply_records apply_record apply_typed apply_plan_created add_raw_plan add_plan
    add_created update_package_bucket after_transition apply_to_package apply_state_event
    event_of_type event_from_payload event_from_record apply_event_found apply_event_record mappings
    as_mapping_list deserialize_planned_leg deserialize_legs deserialize_execution_plan
    deserialize_order_intent deserialize_venue_fill_event serialize_planned_leg serialize_legs
    serialize_execution_plan serialize_order_intent serialize_venue_fill_event
    order_submitted_record order_fill_record execution_plan_created_record journal_event_record
    journal_records str int is_truthy as_optional_str
replay = reconstruct python

abbrev state_or_empty : Decoded ReconstructedExecutorState → ReconstructedExecutorState
state_or_empty (ok state) = state
state_or_empty (err e) = empty_state

abbrev rebuilt : ReconstructedExecutorState
unfolding replay
rebuilt = state_or_empty (replay two_packages)

replayed : reconstruct python two_packages ≡ ok rebuilt
unfolding replay
replayed = refl

rebuilt_active : keys rebuilt.active_packages ≡ "p2" ∷ []
unfolding replay
rebuilt_active = refl

rebuilt_terminal : keys rebuilt.terminal_packages ≡ "p" ∷ []
unfolding replay
rebuilt_terminal = refl

reconstruct-IsRebuilt_example : IsRebuilt rebuilt
reconstruct-IsRebuilt_example = reconstruct-IsRebuilt python two_packages rebuilt replayed

has_id : (failure.event_id == "") ≡ false
unfolding package_failure_record run
has_id = refl

has_source : (failure.source == "") ≡ false
unfolding package_failure_record run
has_source = refl

plain_payload : HasJson failure.payload
unfolding package_failure_record build_record HasJson
plain_payload = (tt, tt)

loads-dumps_example : loads python "0" (dumps failure) ≡ ok failure
loads-dumps_example = loads-dumps python "0" failure has_id has_source plain_payload

-- a payload with an enum's member, a tuple and an object
abbrev mixed : JournalRecord
mixed = record {
  schema_version = pos 1;
  event_id = "1";
  ts_ns = pos 150;
  event_type = JournalEventType.opportunity_accepted;
  package_id = some "p";
  opportunity_id = some "o";
  relation_id = none;
  payload = Fields.field "side" (Json.member "BUY") (
      Fields.field "at" (Json.sequence (Items.item (Json.other_object "1970-01-01") Items.empty))
        Fields.end);
  source = "executor";
}

mixed_payload :
    primitive_fields mixed.payload
    ≡ Fields.field "side" (Json.text "BUY") (
        Fields.field "at" (Json.array (Items.item (Json.text "1970-01-01") Items.empty)) Fields.end)
unfolding primitive_fields
mixed_payload = refl
