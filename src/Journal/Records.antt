-- ===== src/Journal/Records.antt =====
-- executor/journal.py: the records that ExecutorJournal builds and appends, and their lines. A line is
-- the JSON value that it encodes, `uuid` is what `uuid4().hex` gives.
use polymarket_trade_executo.Common.{
  String, Bool, Option, none, some, ok, err, ◌>>=◌, string_eq, if◌then◌else◌,
}
use polymarket_trade_executo.Common.Int.{ℤ, pos}
use polymarket_trade_executo.Common.Text.{◌⧺◌, decimal}
use polymarket_trade_executo.StateMachine.Events.{
  OrderIntent, VenueOrderAck, VenueFillEvent, VenueCancelEvent, VenueRejectEvent, LegEvent,
  StateMachineEvent,
}
use polymarket_trade_executo.Planner.Types.{ExecutionPlan}
use polymarket_trade_executo.Journal.Primitive.{primitive_fields}
use polymarket_trade_executo.Journal.Json.{
  Json, Fields, JournalError, Decoded, Python, lookup, str, int, text_at, int_at, as_optional_str,
  is_truthy,
}
use polymarket_trade_executo.Journal.Types.{
  JournalEventType, JournalRecord, event_type_value, event_type_of,
}
use polymarket_trade_executo.Journal.Serialize.{
  optional_text, serialize_execution_plan, serialize_order_intent, serialize_venue_order_ack,
  serialize_venue_fill_event, serialize_venue_cancel_event, serialize_venue_reject_event,
  serialize_leg_event,
}

-- a payload with one entry
abbrev pub payload_of : String → Json → Fields
payload_of key value = Fields.field key value Fields.end

-- `_build_record`, with the number that it takes from the sequence
unfoldable pub build_record :
    (sequence : ℤ)
    → JournalEventType
    → (ts_ns : ℤ) → (package_id opportunity_id relation_id : Option String) → (payload : Fields)
    → JournalRecord
build_record sequence event_type ts_ns package_id opportunity_id relation_id payload = record {
  event_id = decimal ts_ns ⧺ "-" ⧺ decimal sequence ⧺ "-" ⧺ event_type_value event_type;
  ts_ns = ts_ns;
  event_type = event_type;
  package_id = package_id;
  opportunity_id = opportunity_id;
  relation_id = relation_id;
  payload = payload;
  source = "executor";
  schema_version = pos 1;
}

-- the record of `record_order_submitted`
unfoldable pub order_submitted_record :
    (sequence : ℤ) → OrderIntent → (relation_id : Option String) → JournalRecord
order_submitted_record sequence event relation_id =
    build_record sequence JournalEventType.order_submitted event.ts_ns (some event.package_id) none
      relation_id (payload_of "event" (Json.object (serialize_order_intent event)))

-- the record of `record_order_ack`
unfoldable pub order_ack_record :
    (sequence : ℤ) → VenueOrderAck → (relation_id : Option String) → JournalRecord
order_ack_record sequence event relation_id =
    build_record sequence JournalEventType.order_ack event.ts_ns (some event.package_id) none
      relation_id (payload_of "event" (Json.object (serialize_venue_order_ack event)))

-- the record of `record_order_fill`
unfoldable pub order_fill_record :
    (sequence : ℤ) → VenueFillEvent → (relation_id : Option String) → JournalRecord
order_fill_record sequence event relation_id =
    build_record sequence JournalEventType.order_fill event.ts_ns (some event.package_id) none
      relation_id (payload_of "event" (Json.object (serialize_venue_fill_event event)))

-- the record of `record_cancel_request`
unfoldable pub cancel_request_record :
    (sequence : ℤ) → LegEvent → (relation_id : Option String) → JournalRecord
cancel_request_record sequence event relation_id =
    build_record sequence JournalEventType.order_cancel_requested event.ts_ns
      (some event.package_id) none relation_id
      (payload_of "event" (Json.object (serialize_leg_event event)))

-- the record of `record_cancel_confirm`
unfoldable pub cancel_confirm_record :
    (sequence : ℤ) → VenueCancelEvent → (relation_id : Option String) → JournalRecord
cancel_confirm_record sequence event relation_id =
    build_record sequence JournalEventType.order_cancel_confirmed event.ts_ns
      (some event.package_id) none relation_id
      (payload_of "event" (Json.object (serialize_venue_cancel_event event)))

-- the record of `record_order_reject`
unfoldable pub order_reject_record :
    (sequence : ℤ) → VenueRejectEvent → (relation_id : Option String) → JournalRecord
order_reject_record sequence event relation_id =
    build_record sequence JournalEventType.order_rejected event.ts_ns (some event.package_id) none
      relation_id (payload_of "event" (Json.object (serialize_venue_reject_event event)))

-- the record of `record_timeout`
unfoldable pub timeout_record :
    (sequence : ℤ) → LegEvent → (relation_id : Option String) → JournalRecord
timeout_record sequence event relation_id =
    build_record sequence JournalEventType.order_timeout event.ts_ns (some event.package_id) none
      relation_id (payload_of "event" (Json.object (serialize_leg_event event)))

-- the record of `record_opportunity_accepted`
unfoldable pub opportunity_accepted_record :
    (sequence : ℤ)
    → (package_id opportunity_id relation_id : String) → (ts_ns : ℤ) → (metadata : Fields)
    → JournalRecord
opportunity_accepted_record sequence package_id opportunity_id relation_id ts_ns metadata =
    build_record sequence JournalEventType.opportunity_accepted ts_ns (some package_id)
      (some opportunity_id) (some relation_id) (payload_of "metadata" (Json.object metadata))

-- the record of `record_opportunity_rejected`
unfoldable pub opportunity_rejected_record :
    (sequence : ℤ) → (opportunity_id relation_id reason : String) → (ts_ns : ℤ) → JournalRecord
opportunity_rejected_record sequence opportunity_id relation_id reason ts_ns =
    build_record sequence JournalEventType.opportunity_rejected ts_ns none (some opportunity_id)
      (some relation_id) (payload_of "reason" (Json.text reason))

-- the record of `record_execution_plan_created`
unfoldable pub execution_plan_created_record :
    (sequence : ℤ) → (package_id relation_id : String) → ExecutionPlan → (ts_ns : ℤ) → JournalRecord
execution_plan_created_record sequence package_id relation_id plan ts_ns =
    build_record sequence JournalEventType.execution_plan_created ts_ns (some package_id)
      (some plan.opportunity_id) (some relation_id)
      (payload_of "plan" (Json.object (serialize_execution_plan plan)))

-- the record of `record_package_completion`
unfoldable pub package_completion_record :
    (sequence : ℤ)
    → (package_id opportunity_id : String) → (relation_id : Option String) → (ts_ns : ℤ)
    → (metadata : Fields) → JournalRecord
package_completion_record sequence package_id opportunity_id relation_id ts_ns metadata =
    build_record sequence JournalEventType.package_completed ts_ns (some package_id)
      (some opportunity_id) relation_id (payload_of "metadata" (Json.object metadata))

-- the record of `record_package_failure`
unfoldable pub package_failure_record :
    (sequence : ℤ)
    → (package_id : String) → (opportunity_id relation_id : Option String) → (reason : String)
    → (ts_ns : ℤ) → JournalRecord
package_failure_record sequence package_id opportunity_id relation_id reason ts_ns =
    build_record sequence JournalEventType.package_failed ts_ns (some package_id) opportunity_id
      relation_id (payload_of "reason" (Json.text reason))

-- the record of `record_kill_switch_activation`
unfoldable pub kill_switch_activation_record :
    (sequence : ℤ) → (reason : String) → (ts_ns : ℤ) → (automatic : Bool) → JournalRecord
kill_switch_activation_record sequence reason ts_ns automatic =
    build_record sequence JournalEventType.kill_switch_activated ts_ns none none none (
      Fields.field "reason" (Json.text reason)
        (Fields.field "automatic" (Json.boolean automatic) Fields.end))

-- the record that executor_service.py's `_journal_event` asks for: some events have none
unfoldable pub journal_event_record :
    (sequence : ℤ) → (relation_id : String) → StateMachineEvent → Option JournalRecord
journal_event_record sequence relation_id (StateMachineEvent.order_intent e) =
    some (order_submitted_record sequence e (some relation_id))
journal_event_record sequence relation_id (StateMachineEvent.order_ack e) =
    some (order_ack_record sequence e (some relation_id))
journal_event_record sequence relation_id (StateMachineEvent.venue_fill e) =
    some (order_fill_record sequence e (some relation_id))
journal_event_record sequence relation_id (StateMachineEvent.venue_cancel e) =
    some (cancel_confirm_record sequence e (some relation_id))
journal_event_record sequence relation_id (StateMachineEvent.venue_reject e) =
    some (order_reject_record sequence e (some relation_id))
journal_event_record sequence relation_id (StateMachineEvent.cancel_requested e) =
    some (cancel_request_record sequence e (some relation_id))
journal_event_record sequence relation_id (StateMachineEvent.leg_timeout e) =
    some (timeout_record sequence e (some relation_id))
journal_event_record sequence relation_id (StateMachineEvent.unwind_required e) = none
journal_event_record sequence relation_id (StateMachineEvent.unwound e) = none
journal_event_record sequence relation_id (StateMachineEvent.abort e) = none
journal_event_record sequence relation_id (StateMachineEvent.emergency_halt e) = none

-- `JournalEventSerializer.dumps`; a payload is a dict, which `_to_json_primitive` makes a dict
unfoldable pub dumps : JournalRecord → Json
dumps entry = Json.object (
    Fields.field "schema_version" (Json.number entry.schema_version) (
      Fields.field "event_id" (Json.text entry.event_id) (
        Fields.field "ts_ns" (Json.number entry.ts_ns) (
          Fields.field "event_type" (Json.text (event_type_value entry.event_type)) (
            Fields.field "package_id" (optional_text entry.package_id) (
              Fields.field "opportunity_id" (optional_text entry.opportunity_id) (
                Fields.field "relation_id" (optional_text entry.relation_id) (
                  Fields.field "source" (Json.text entry.source) (
                    Fields.field "payload" (Json.object (primitive_fields entry.payload))
                      Fields.end)))))))))

-- `data.get("payload", {})`, which must be a dict
abbrev pub payload_or_empty : Option Json → Decoded Fields
payload_or_empty none = ok Fields.end
payload_or_empty (some (Json.object d)) = ok d
payload_or_empty (some other) = err JournalError.payload_not_object

module _ (python : Python) where
  -- `str(data.get(key) or default)`
  abbrev pub str_or : Option Json → (default : String) → String
  str_or none default = default
  str_or (some v) default = if is_truthy v then str python v else default

  -- `int(data.get("schema_version", 1))`
  abbrev pub version_or_one : Option Json → Decoded ℤ
  version_or_one none = ok (pos 1)
  version_or_one (some v) = int python v

  -- `loads`, on a dict
  unfoldable pub loads_object : (uuid : String) → Fields → Decoded JournalRecord
  loads_object uuid d = do
    type_text ← text_at python d "event_type"
    event_type ← event_type_of type_text
    payload ← payload_or_empty (lookup d "payload")
    ts_ns ← int_at python d "ts_ns"
    schema_version ← version_or_one (lookup d "schema_version")
    ok (record {
      event_id = str_or (lookup d "event_id") uuid;
      ts_ns = ts_ns;
      event_type = event_type;
      package_id = as_optional_str python (lookup d "package_id");
      opportunity_id = as_optional_str python (lookup d "opportunity_id");
      relation_id = as_optional_str python (lookup d "relation_id");
      payload = payload;
      source = str_or (lookup d "source") "executor";
      schema_version = schema_version;
    })

  -- `JournalEventSerializer.loads`
  unfoldable pub loads : (uuid : String) → Json → Decoded JournalRecord
  loads uuid (Json.object d) = loads_object uuid d
  loads uuid other = err JournalError.line_not_object
