-- ===== src/Venue/Types.antt =====
-- executor/venue.py: the data that the executor and a venue adapter exchange.
use polymarket_trade_executo.Common.{String, Bool, Option, List}
use polymarket_trade_executo.Common.Int.{ℤ}
use polymarket_trade_executo.StateMachine.Types.{Side, TimeInForce}
use polymarket_trade_executo.StateMachine.Events.{
  VenueOrderAck, VenueFillEvent, VenueCancelEvent, VenueRejectEvent, StateMachineEvent,
}

pub data NormalizedOrderEvent : Type 0 where
  ack : VenueOrderAck → NormalizedOrderEvent
  fill : VenueFillEvent → NormalizedOrderEvent
  cancel : VenueCancelEvent → NormalizedOrderEvent
  reject : VenueRejectEvent → NormalizedOrderEvent

-- a normalized event as an event of the reducer
abbrev pub reducer_event : NormalizedOrderEvent → StateMachineEvent
reducer_event (NormalizedOrderEvent.ack e) = StateMachineEvent.order_ack e
reducer_event (NormalizedOrderEvent.fill e) = StateMachineEvent.venue_fill e
reducer_event (NormalizedOrderEvent.cancel e) = StateMachineEvent.venue_cancel e
reducer_event (NormalizedOrderEvent.reject e) = StateMachineEvent.venue_reject e

-- `event.client_order_id`
abbrev pub event_client_order_id : NormalizedOrderEvent → String
event_client_order_id (NormalizedOrderEvent.ack e) = e.client_order_id
event_client_order_id (NormalizedOrderEvent.fill e) = e.client_order_id
event_client_order_id (NormalizedOrderEvent.cancel e) = e.client_order_id
event_client_order_id (NormalizedOrderEvent.reject e) = e.client_order_id

-- `event.ts_ns`
abbrev pub event_ts_ns : NormalizedOrderEvent → ℤ
event_ts_ns (NormalizedOrderEvent.ack e) = e.ts_ns
event_ts_ns (NormalizedOrderEvent.fill e) = e.ts_ns
event_ts_ns (NormalizedOrderEvent.cancel e) = e.ts_ns
event_ts_ns (NormalizedOrderEvent.reject e) = e.ts_ns

pub data SubmitOrderStatus : Type 0 where
  acknowledged rejected already_submitted ambiguous failed_retryable : SubmitOrderStatus

pub data CancelOrderStatus : Type 0 where
  canceled already_canceled not_found ambiguous failed_retryable : CancelOrderStatus

pub record VenueOrderIntent : Type 0 where
  pub package_id : String
  pub leg_id : String
  pub market_id : String
  pub token_id : String
  pub side : Side
  pub quantity : ℤ
  pub limit_price_ticks : ℤ
  pub tif : TimeInForce
  pub ts_ns : ℤ
  pub expires_at_ns : Option ℤ
  pub client_order_id : Option String

pub record SubmitOrderResult : Type 0 where
  pub status : SubmitOrderStatus
  pub client_order_id : String
  pub venue_order_id : Option String
  pub events : List NormalizedOrderEvent
  pub ambiguous : Bool
  pub message : Option String

pub record CancelOrderResult : Type 0 where
  pub status : CancelOrderStatus
  pub client_order_id : Option String
  pub venue_order_id : Option String
  pub events : List NormalizedOrderEvent
  pub ambiguous : Bool
  pub message : Option String

pub record ReconciliationResult : Type 0 where
  pub venue_open_client_order_ids : List String
  pub unknown_open_client_order_ids : List String
  pub missing_expected_client_order_ids : List String
  pub generated_events : List NormalizedOrderEvent
