-- ===== src/Journal/Lines.antt =====
-- executor/journal.py: a record that is written as a line is read back from it.
use polymarket_trade_executo.Common.{String, ◌≡◌, refl, ap, ◌∙◌, false, ok, ◌==◌, string_eq}
use polymarket_trade_executo.Journal.Primitive.{primitive_fields, HasJson, primitive_fields-HasJson}
use polymarket_trade_executo.Journal.Json.{Python, str, int, is_truthy}
use polymarket_trade_executo.Journal.Types.{
  JournalEventType, JournalRecord, event_type_value, event_type_of,
}
use polymarket_trade_executo.Journal.Records.{dumps, loads, loads_object}
use polymarket_trade_executo.Journal.RoundTrip.{as_optional_str-optional_text}

event_type_of-event_type_value : (t : JournalEventType) → event_type_of (event_type_value t) ≡ ok t
unfolding event_type_of
event_type_of-event_type_value JournalEventType.opportunity_accepted = refl
event_type_of-event_type_value JournalEventType.opportunity_rejected = refl
event_type_of-event_type_value JournalEventType.execution_plan_created = refl
event_type_of-event_type_value JournalEventType.order_submitted = refl
event_type_of-event_type_value JournalEventType.order_ack = refl
event_type_of-event_type_value JournalEventType.order_fill = refl
event_type_of-event_type_value JournalEventType.order_cancel_requested = refl
event_type_of-event_type_value JournalEventType.order_cancel_confirmed = refl
event_type_of-event_type_value JournalEventType.order_rejected = refl
event_type_of-event_type_value JournalEventType.order_timeout = refl
event_type_of-event_type_value JournalEventType.package_completed = refl
event_type_of-event_type_value JournalEventType.package_failed = refl
event_type_of-event_type_value JournalEventType.kill_switch_activated = refl

pub loads-dumps_converted :
    (python : Python) (uuid : String) (entry : JournalRecord)
    → (entry.event_id == "") ≡ false
    → (entry.source == "") ≡ false
    → loads python uuid (dumps entry)
      ≡ ok (record entry { payload = primitive_fields entry.payload })
unfolding loads loads_object dumps str int is_truthy
loads-dumps_converted python uuid entry id source =
    rw
      (
        event_type_of-event_type_value entry.event_type,
        id,
        source,
        as_optional_str-optional_text python entry.package_id,
        as_optional_str-optional_text python entry.opportunity_id,
        as_optional_str-optional_text python entry.relation_id,
      )
      refl

-- A record with an id and a source, whose payload holds only what JSON has, is read back from its line
-- as it was.
pub loads-dumps :
    (python : Python) (uuid : String) (entry : JournalRecord)
    → (entry.event_id == "") ≡ false
    → (entry.source == "") ≡ false
    → HasJson entry.payload
    → loads python uuid (dumps entry) ≡ ok entry
loads-dumps python uuid entry id source plain =
    loads-dumps_converted python uuid entry id source
    ∙ ap (λ payload. ok (record entry { payload = payload }))
        (primitive_fields-HasJson entry.payload plain)
