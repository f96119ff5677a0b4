-- ===== src/Journal/Types.antt =====
-- executor/journal.py: the records of the journal and the state that they reconstruct.
use polymarket_trade_executo.Common.{
  String, Bool, false, Option, none, List, [], ◌∷◌, ok, err, ◌==◌, string_eq, if◌then◌else◌,
}
use polymarket_trade_executo.Common.Int.{ℤ}
use polymarket_trade_executo.Common.Dict.{Dict}
use polymarket_trade_executo.StateMachine.Types.{PackageExecution, Error}
use polymarket_trade_executo.Venue.Types.{ReconciliationResult}
use polymarket_trade_executo.Journal.Json.{Fields, JournalError, Decoded}

pub data JournalEventType : Type 0 where
  opportunity_accepted opportunity_rejected execution_plan_created : JournalEventType
  order_submitted order_ack order_fill order_cancel_requested : JournalEventType
  order_cancel_confirmed order_rejected order_timeout package_completed : JournalEventType
  package_failed kill_switch_activated : JournalEventType

-- `event_type.value`
abbrev pub event_type_value : JournalEventType → String
event_type_value JournalEventType.opportunity_accepted = "OPPORTUNITY_ACCEPTED"
event_type_value JournalEventType.opportunity_rejected = "OPPORTUNITY_REJECTED"
event_type_value JournalEventType.execution_plan_created = "EXECUTION_PLAN_CREATED"
event_type_value JournalEventType.order_submitted = "ORDER_SUBMITTED"
event_type_value JournalEventType.order_ack = "ORDER_ACK"
event_type_value JournalEventType.order_fill = "ORDER_FILL"
event_type_value JournalEventType.order_cancel_requested = "ORDER_CANCEL_REQUESTED"
event_type_value JournalEventType.order_cancel_confirmed = "ORDER_CANCEL_CONFIRMED"
event_type_value JournalEventType.order_rejected = "ORDER_REJECTED"
event_type_value JournalEventType.order_timeout = "ORDER_TIMEOUT"
event_type_value JournalEventType.package_completed = "PACKAGE_COMPLETED"
event_type_value JournalEventType.package_failed = "PACKAGE_FAILED"
event_type_value JournalEventType.kill_switch_activated = "KILL_SWITCH_ACTIVATED"

abbrev pub event_types : List JournalEventType
event_types =
    JournalEventType.opportunity_accepted ∷ JournalEventType.opportunity_rejected
    ∷ JournalEventType.execution_plan_created ∷ JournalEventType.order_submitted
    ∷ JournalEventType.order_ack ∷ JournalEventType.order_fill
    ∷ JournalEventType.order_cancel_requested ∷ JournalEventType.order_cancel_confirmed
    ∷ JournalEventType.order_rejected ∷ JournalEventType.order_timeout
    ∷ JournalEventType.package_completed ∷ JournalEventType.package_failed
    ∷ JournalEventType.kill_switch_activated ∷ []

abbrev member_of : List JournalEventType → String → Decoded JournalEventType
member_of [] value = err (JournalError.not_a_member value)
member_of (t ∷ ts) value =
    let rest = member_of ts value in if value == event_type_value t then ok t else rest

-- `JournalEventType(value)`
unfoldable pub event_type_of : String → Decoded JournalEventType
event_type_of value = member_of event_types value

pub record JournalRecord : Type 0 where
  pub event_id : String
  pub ts_ns : ℤ
  pub event_type : JournalEventType
  pub package_id : Option String
  pub opportunity_id : Option String
  pub relation_id : Option String
  pub payload : Fields
  pub source : String
  pub schema_version : ℤ

-- what the texts of `replay_errors` say
pub data ReplayError : Type 0 where
  failure_not_applied : (event_id : String) → Error → ReplayError
  plan_missing : (event_id : String) → ReplayError
  plan_not_decoded : (event_id : String) → JournalError → ReplayError
  event_not_applied : JournalEventType → (event_id : String) → Error → ReplayError

pub record ReconstructedExecutorState : Type 0 where
  pub active_packages : Dict PackageExecution
  pub terminal_packages : Dict PackageExecution
  pub accepted_opportunities : List String
  pub rejected_opportunities : List String
  pub relation_by_package : Dict String
  pub kill_switch_active : Bool
  pub kill_switch_reason : Option String
  pub replay_errors : List ReplayError
  pub orphan_records : List JournalRecord

abbrev pub empty_state : ReconstructedExecutorState
empty_state = record {
  active_packages = [];
  terminal_packages = [];
  accepted_opportunities = [];
  rejected_opportunities = [];
  relation_by_package = [];
  kill_switch_active = false;
  kill_switch_reason = none;
  replay_errors = [];
  orphan_records = [];
}

-- an action's type and its message
pub data RecoveryActionType : Type 0 where
  unknown_open_order missing_expected_order reconciled_event_applied : RecoveryActionType

pub record RecoveryAction : Type 0 where
  pub action_type : RecoveryActionType
  pub package_id : Option String
  pub client_order_id : Option String

pub record RecoveryResult : Type 0 where
  pub reconstructed_state : ReconstructedExecutorState
  pub records_loaded : ℤ
  pub reconciliation : ReconciliationResult
  pub actions : List RecoveryAction
