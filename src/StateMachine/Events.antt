-- ===== src/StateMachine/Events.antt =====
-- executor/state_machine.py: the events of the reducer.
use polymarket_trade_executo.Common.{String, Bool, Option}
use polymarket_trade_executo.Common.Int.{ℤ}
use polymarket_trade_executo.StateMachine.Types.{Side, TimeInForce}

pub record OrderIntent : Type 0 where
  pub package_id : String
  pub leg_id : String
  pub client_order_id : String
  pub qty : ℤ
  pub limit_price_ticks : ℤ
  pub tif : TimeInForce
  pub ts_ns : ℤ
  pub side : Option Side
  pub market_id : Option String
  pub is_unwind : Bool

pub record VenueOrderAck : Type 0 where
  pub package_id : String
  pub leg_id : String
  pub client_order_id : String
  pub venue_order_id : String
  pub ts_ns : ℤ

pub record VenueFillEvent : Type 0 where
  pub package_id : String
  pub leg_id : String
  pub client_order_id : String
  pub fill_qty : ℤ
  pub fill_price_ticks : ℤ
  pub ts_ns : ℤ
  pub cumulative_qty : Option ℤ

pub record VenueCancelEvent : Type 0 where
  pub package_id : String
  pub leg_id : String
  pub client_order_id : String
  pub canceled_qty : ℤ
  pub reason : String
  pub ts_ns : ℤ

pub record VenueRejectEvent : Type 0 where
  pub package_id : String
  pub leg_id : String
  pub client_order_id : String
  pub reason : String
  pub ts_ns : ℤ

-- CancelRequestedEvent and LegTimeoutEvent
pub record LegEvent : Type 0 where
  pub package_id : String
  pub leg_id : String
  pub reason : String
  pub ts_ns : ℤ

-- PackageUnwindRequiredEvent, PackageUnwoundEvent, PackageAbortEvent and EmergencyHaltEvent
pub record PackageEvent : Type 0 where
  pub package_id : String
  pub reason : String
  pub ts_ns : ℤ

pub data StateMachineEvent : Type 0 where
  order_intent : OrderIntent → StateMachineEvent
  order_ack : VenueOrderAck → StateMachineEvent
  venue_fill : VenueFillEvent → StateMachineEvent
  venue_cancel : VenueCancelEvent → StateMachineEvent
  venue_reject : VenueRejectEvent → StateMachineEvent
  cancel_requested leg_timeout : LegEvent → StateMachineEvent
  unwind_required unwound abort emergency_halt : PackageEvent → StateMachineEvent

-- `event.package_id`
unfoldable pub event_package_id : StateMachineEvent → String
event_package_id (order_intent e) = e.package_id
event_package_id (order_ack e) = e.package_id
event_package_id (venue_fill e) = e.package_id
event_package_id (venue_cancel e) = e.package_id
event_package_id (venue_reject e) = e.package_id
event_package_id (cancel_requested e) = e.package_id
event_package_id (leg_timeout e) = e.package_id
event_package_id (unwind_required e) = e.package_id
event_package_id (unwound e) = e.package_id
event_package_id (abort e) = e.package_id
event_package_id (emergency_halt e) = e.package_id
