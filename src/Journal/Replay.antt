-- ===== src/Journal/Replay.antt =====
-- JournalStateReconstructor of executor/journal.py. The state that it mutates is passed on; an
-- exception that it does not catch is the result.
use polymarket_trade_executo.Common.{
  String, true, false, Option, none, some, List, [], ◌∷◌, ◌++◌, map, ok, err, ◌>>=◌, ◌==◌,
  string_eq, if◌then◌else◌,
}
use polymarket_trade_executo.Common.Int.{pos}
use polymarket_trade_executo.Common.Dict.{Dict, get, set, remove}
use polymarket_trade_executo.Common.Lists.{add_to}
use polymarket_trade_executo.StateMachine.Types.{
  OrderState, PackageState, LegExecution, PackageExecution, Error,
}
use polymarket_trade_executo.StateMachine.Events.{StateMachineEvent, event_package_id}
use polymarket_trade_executo.StateMachine.Tables.{is_terminal_package}
use polymarket_trade_executo.StateMachine.Package.{Raises, create_package_execution}
use polymarket_trade_executo.StateMachine.Reducer.{apply_event}
use polymarket_trade_executo.Planner.Types.{PlannedLeg, ExecutionPlan}
use polymarket_trade_executo.Journal.Json.{
  Json, Fields, JournalError, Decoded, Python, lookup, as_optional_str,
}
use polymarket_trade_executo.Journal.Types.{
  JournalEventType, JournalRecord, ReplayError, ReconstructedExecutorState, empty_state,
}
use polymarket_trade_executo.Journal.Deserialize.{
  deserialize_execution_plan, deserialize_order_intent, deserialize_venue_order_ack,
  deserialize_venue_fill_event, deserialize_venue_cancel_event, deserialize_venue_reject_event,
  deserialize_leg_event,
}

abbrev pub orphan : ReconstructedExecutorState → JournalRecord → ReconstructedExecutorState
orphan state entry = record state { orphan_records = state.orphan_records ++ (entry ∷ []) }

abbrev pub replay_error : ReconstructedExecutorState → ReplayError → ReconstructedExecutorState
replay_error state error = record state { replay_errors = state.replay_errors ++ (error ∷ []) }

-- `if key: s.add(key)`
abbrev pub add_known : List String → Option String → List String
add_known ids none = ids
add_known ids (some id) = if id == "" then ids else add_to ids id

-- `if a and b: d[a] = b`
abbrev pub relate : Dict String → Option String → Option String → Dict String
relate d none relation_id = d
relate d (some package_id) none = d
relate d (some package_id) (some relation_id) =
    if package_id == "" then d else (if relation_id == "" then d else set d package_id relation_id)

unfoldable pub update_package_bucket :
    ReconstructedExecutorState → PackageExecution → ReconstructedExecutorState
update_package_bucket state pkg =
    if is_terminal_package pkg.state
    then record state {
      active_packages = remove state.active_packages pkg.package_id;
      terminal_packages = set state.terminal_packages pkg.package_id pkg;
    }
    else record state {
      active_packages = set state.active_packages pkg.package_id pkg;
      terminal_packages = remove state.terminal_packages pkg.package_id;
    }

-- the package after a transition, or what `error` makes of the exception
unfoldable pub after_transition :
    ReconstructedExecutorState
    → (error : Error → ReplayError) → Raises PackageExecution
    → ReconstructedExecutorState
after_transition state error (err exception) = replay_error state (error exception)
after_transition state error (ok updated) = update_package_bucket state updated

-- `_apply_state_event`, where `found` is the active package
unfoldable pub apply_to_package :
    ReconstructedExecutorState
    → StateMachineEvent
    → JournalRecord
    → (found : Option PackageExecution) → ReconstructedExecutorState
apply_to_package state event entry none = orphan state entry
apply_to_package state event entry (some pkg) =
    after_transition state (ReplayError.event_not_applied entry.event_type entry.event_id)
      (apply_event pkg event)

unfoldable pub apply_state_event :
    ReconstructedExecutorState → StateMachineEvent → JournalRecord → ReconstructedExecutorState
apply_state_event state event entry =
    apply_to_package state event entry (get state.active_packages (event_package_id event))

-- `_force_terminal_state`, where the arguments are the package that is popped and the terminal one
abbrev pub forced :
    ReconstructedExecutorState
    → (package_id : String) → PackageState
    → (active terminal : Option PackageExecution) → ReconstructedExecutorState
forced state package_id package_state none none = state
forced state package_id package_state none (some pkg) = record state {
  terminal_packages = set state.terminal_packages package_id (record pkg { state = package_state });
}
forced state package_id package_state (some pkg) terminal = record state {
  active_packages = remove state.active_packages package_id;
  terminal_packages = set state.terminal_packages package_id (record pkg { state = package_state });
}

unfoldable pub force_terminal_state :
    ReconstructedExecutorState
    → (package_id : Option String) → PackageState
    → ReconstructedExecutorState
force_terminal_state state none package_state = state
force_terminal_state state (some package_id) package_state =
    forced state package_id package_state (get state.active_packages package_id)
      (get state.terminal_packages package_id)

-- the leg of a package for a leg of a plan
abbrev pub leg_of_plan : PlannedLeg → LegExecution
leg_of_plan leg = record {
  leg_id = leg.leg_id;
  market_id = leg.market_id;
  side = leg.side;
  intended_qty = leg.quantity;
  limit_price_ticks = leg.limit_price_ticks;
  state = OrderState.new;
  client_order_id = none;
  venue_order_id = none;
  filled_qty = pos 0;
  canceled_qty = pos 0;
  avg_fill_price_ticks = none;
  last_fill_price_ticks = none;
  rejection_reason = none;
  timeout_count = pos 0;
  submit_ts_ns = none;
  ack_ts_ns = none;
  done_ts_ns = none;
  is_unwind_leg = false;
}

-- `if record.relation_id: d[package_id] = record.relation_id`
abbrev pub relate_plan : Dict String → String → Option String → Dict String
relate_plan d package_id none = d
relate_plan d package_id (some relation_id) =
    if relation_id == "" then d else set d package_id relation_id

-- the rest of `_apply_plan_created`, on a package that was created
unfoldable pub add_created :
    ReconstructedExecutorState
    → JournalRecord
    → (package_id : String) → Raises PackageExecution
    → Decoded ReconstructedExecutorState
add_created state entry package_id (err exception) = err (JournalError.machine exception)
add_created state entry package_id (ok pkg) = ok (record state {
  active_packages = set state.active_packages package_id pkg;
  relation_by_package = relate_plan state.relation_by_package package_id entry.relation_id;
})

-- what is done with the plan that was decoded
unfoldable pub add_plan :
    ReconstructedExecutorState
    → JournalRecord
    → (package_id : String) → Decoded ExecutionPlan
    → Decoded ReconstructedExecutorState
add_plan state entry package_id (err exception) =
    ok (replay_error state (ReplayError.plan_not_decoded entry.event_id exception))
add_plan state entry package_id (ok plan) = add_created state entry package_id (
    create_package_execution package_id plan.opportunity_id entry.ts_ns (map leg_of_plan plan.legs))

module _ (python : Python) where
  -- what is done with the payload's plan
  unfoldable pub add_raw_plan :
      ReconstructedExecutorState
      → JournalRecord
      → (package_id : String) → (raw_plan : Option Json) → Decoded ReconstructedExecutorState
  add_raw_plan state entry package_id none =
      ok (replay_error state (ReplayError.plan_missing entry.event_id))
  add_raw_plan state entry package_id (some (Json.object raw_plan)) =
      add_plan state entry package_id (deserialize_execution_plan python raw_plan)
  add_raw_plan state entry package_id (some other) =
      ok (replay_error state (ReplayError.plan_missing entry.event_id))

  unfoldable pub apply_plan_created :
      ReconstructedExecutorState
      → JournalRecord
      → (package_id : Option String) → Decoded ReconstructedExecutorState
  apply_plan_created state entry none = ok (orphan state entry)
  apply_plan_created state entry (some package_id) =
      add_raw_plan state entry package_id (lookup entry.payload "plan")

  -- `_as_optional_str(record.payload.get("reason")) or "package failed"`
  abbrev pub failure_text : Option String → String
  failure_text none = "package failed"
  failure_text (some reason) = if reason == "" then "package failed" else reason

  -- the branch for PACKAGE_FAILED, where `found` is the active package
  unfoldable pub fail_package :
      ReconstructedExecutorState
      → JournalRecord
      → (package_id : String) → (found : Option PackageExecution) → ReconstructedExecutorState
  fail_package state entry package_id none = orphan state entry
  fail_package state entry package_id (some pkg) =
      after_transition state (ReplayError.failure_not_applied entry.event_id) (
        apply_event pkg (
          StateMachineEvent.abort (record {
            package_id = package_id;
            reason = failure_text (as_optional_str python (lookup entry.payload "reason"));
            ts_ns = entry.ts_ns;
          })))

  unfoldable pub apply_failure :
      ReconstructedExecutorState
      → JournalRecord
      → (package_id : Option String) → ReconstructedExecutorState
  apply_failure state entry none = orphan state entry
  apply_failure state entry (some package_id) =
      fail_package state entry package_id (get state.active_packages package_id)

  -- `_event_from_record`, on the payload's event
  unfoldable pub event_of_type : JournalEventType → Fields → Decoded (Option StateMachineEvent)
  event_of_type JournalEventType.order_submitted d =
      deserialize_order_intent python d >>= λ e. ok (some (StateMachineEvent.order_intent e))
  event_of_type JournalEventType.order_ack d =
      deserialize_venue_order_ack python d >>= λ e. ok (some (StateMachineEvent.order_ack e))
  event_of_type JournalEventType.order_fill d =
      deserialize_venue_fill_event python d >>= λ e. ok (some (StateMachineEvent.venue_fill e))
  event_of_type JournalEventType.order_cancel_requested d =
      deserialize_leg_event python d >>= λ e. ok (some (StateMachineEvent.cancel_requested e))
  event_of_type JournalEventType.order_cancel_confirmed d =
      deserialize_venue_cancel_event python d >>= λ e. ok (some (StateMachineEvent.venue_cancel e))
  event_of_type JournalEventType.order_rejected d =
      deserialize_venue_reject_event python d >>= λ e. ok (some (StateMachineEvent.venue_reject e))
  event_of_type JournalEventType.order_timeout d =
      deserialize_leg_event python d >>= λ e. ok (some (StateMachineEvent.leg_timeout e))
  event_of_type other d = ok none

  unfoldable pub event_from_payload :
      JournalEventType → (payload : Option Json) → Decoded (Option StateMachineEvent)
  event_from_payload event_type none = ok none
  event_from_payload event_type (some (Json.object d)) = event_of_type event_type d
  event_from_payload event_type (some other) = ok none

  unfoldable pub event_from_record : JournalRecord → Decoded (Option StateMachineEvent)
  event_from_record entry = event_from_payload entry.event_type (lookup entry.payload "event")

  -- the end of `apply_record`
  unfoldable pub apply_event_found :
      ReconstructedExecutorState
      → JournalRecord
      → Option StateMachineEvent
      → ReconstructedExecutorState
  apply_event_found state entry none = state
  apply_event_found state entry (some event) = apply_state_event state event entry

  unfoldable pub apply_event_record :
      ReconstructedExecutorState → JournalRecord → Decoded ReconstructedExecutorState
  apply_event_record state entry =
      event_from_record entry >>= λ found. ok (apply_event_found state entry found)

  -- `apply_record`, by the type of the record
  unfoldable pub apply_typed :
      ReconstructedExecutorState
      → JournalRecord
      → JournalEventType
      → Decoded ReconstructedExecutorState
  apply_typed state entry JournalEventType.opportunity_accepted = ok (record state {
    accepted_opportunities = add_known state.accepted_opportunities entry.opportunity_id;
    relation_by_package = relate state.relation_by_package entry.package_id entry.relation_id;
  })
  apply_typed state entry JournalEventType.opportunity_rejected = ok (record state {
    rejected_opportunities = add_known state.rejected_opportunities entry.opportunity_id;
  })
  apply_typed state entry JournalEventType.kill_switch_activated = ok (record state {
    kill_switch_active = true;
    kill_switch_reason = as_optional_str python (lookup entry.payload "reason");
  })
  apply_typed state entry JournalEventType.execution_plan_created =
      apply_plan_created state entry entry.package_id
  apply_typed state entry JournalEventType.package_completed =
      ok (force_terminal_state state entry.package_id PackageState.completed)
  apply_typed state entry JournalEventType.package_failed =
      ok (apply_failure state entry entry.package_id)
  apply_typed state entry other = apply_event_record state entry

  unfoldable pub apply_record :
      ReconstructedExecutorState → JournalRecord → Decoded ReconstructedExecutorState
  apply_record state entry = apply_typed state entry entry.event_type

  -- the loop of `reconstruct`
  unfoldable pub apply_records :
      ReconstructedExecutorState → List JournalRecord → Decoded ReconstructedExecutorState
  apply_records state [] = ok state
  apply_records state (entry ∷ entries) =
      apply_record state entry >>= λ next. apply_records next entries

  abbrev pub reconstruct : List JournalRecord → Decoded ReconstructedExecutorState
  reconstruct entries = apply_records empty_state entries
