-- ===== src/Journal/RoundTrip.antt =====
-- executor/journal.py: what is serialized is deserialized unchanged.
use polymarket_trade_executo.Common.{
  String, ◌≡◌, refl, false, Option, none, some, List, [], ◌∷◌, ok, ◌==◌, string_eq,
}
use polymarket_trade_executo.Common.Int.{ℤ}
use polymarket_trade_executo.Common.Lists.{All}
use polymarket_trade_executo.StateMachine.Types.{Side, TimeInForce}
use polymarket_trade_executo.StateMachine.Events.{
  OrderIntent, VenueOrderAck, VenueFillEvent, VenueCancelEvent, VenueRejectEvent, LegEvent,
}
use polymarket_trade_executo.Planner.Types.{PlannedLeg, ExecutionPlan}
use polymarket_trade_executo.Journal.Json.{Python, str, int, as_optional_str, is_truthy}
use polymarket_trade_executo.Journal.Serialize.{
  side_value, tif_value, optional_text, optional_side, optional_number, serialize_planned_leg,
  serialize_legs, serialize_execution_plan, serialize_order_intent, serialize_venue_order_ack,
  serialize_venue_fill_event, serialize_venue_cancel_event, serialize_venue_reject_event,
  serialize_leg_event,
}
use polymarket_trade_executo.Journal.Deserialize.{
  side_of, tif_of, side_or_none, int_or_none, mappings, as_mapping_list, deserialize_planned_leg,
  deserialize_legs, deserialize_execution_plan, deserialize_order_intent,
  deserialize_venue_order_ack, deserialize_venue_fill_event, deserialize_venue_cancel_event,
  deserialize_venue_reject_event, deserialize_leg_event,
}

side_of-side_value : (side : Side) → side_of (side_value side) ≡ ok side
side_of-side_value Side.buy = refl
side_of-side_value Side.sell = refl

tif_of-tif_value : (tif : TimeInForce) → tif_of (tif_value tif) ≡ ok tif
tif_of-tif_value TimeInForce.ioc = refl
tif_of-tif_value TimeInForce.gtc = refl

module _ (python : Python) where
  pub as_optional_str-optional_text :
      (o : Option String) → as_optional_str python (some (optional_text o)) ≡ o
  unfolding as_optional_str str
  as_optional_str-optional_text none = refl
  as_optional_str-optional_text (some s) = refl

  side_or_none-optional_side :
      (o : Option Side) → side_or_none (as_optional_str python (some (optional_side o))) ≡ ok o
  unfolding as_optional_str str
  side_or_none-optional_side none = refl
  side_or_none-optional_side (some side) = rw (side_of-side_value side) refl

  int_or_none-optional_number :
      (o : Option ℤ) → int_or_none python (some (optional_number o)) ≡ ok o
  unfolding int
  int_or_none-optional_number none = refl
  int_or_none-optional_number (some n) = refl

  pub deserialize_venue_order_ack-serialize_venue_order_ack :
      (event : VenueOrderAck)
      → deserialize_venue_order_ack python (serialize_venue_order_ack event) ≡ ok event
  unfolding deserialize_venue_order_ack serialize_venue_order_ack str int
  deserialize_venue_order_ack-serialize_venue_order_ack event = refl

  deserialize_planned_leg-serialize_planned_leg :
      (leg : PlannedLeg)
      → (leg.token_id == "") ≡ false
      → deserialize_planned_leg python (serialize_planned_leg leg) ≡ ok leg
  unfolding deserialize_planned_leg serialize_planned_leg str int as_optional_str
  deserialize_planned_leg-serialize_planned_leg leg h =
      rw (side_of-side_value leg.side, tif_of-tif_value leg.tif, h) refl

  deserialize_legs-serialize_legs :
      (legs : List PlannedLeg)
      → All (λ leg. (leg.token_id == "") ≡ false) legs
      → deserialize_legs python (mappings (serialize_legs legs)) ≡ ok legs
  unfolding deserialize_legs serialize_legs mappings
  deserialize_legs-serialize_legs [] h = refl
  deserialize_legs-serialize_legs (leg ∷ legs) h =
      rw
        (
          deserialize_planned_leg-serialize_planned_leg leg h.0,
          deserialize_legs-serialize_legs legs h.1,
        )
        refl

  -- A plan that is written down and read back is the plan, if no leg has an empty token id. (An empty
  -- token id is read back as the market id.)
  pub deserialize_execution_plan-serialize_execution_plan :
      (plan : ExecutionPlan)
      → All (λ leg. (leg.token_id == "") ≡ false) plan.legs
      → deserialize_execution_plan python (serialize_execution_plan plan) ≡ ok plan
  unfolding deserialize_execution_plan serialize_execution_plan str int as_mapping_list
  deserialize_execution_plan-serialize_execution_plan plan h =
      rw (tif_of-tif_value plan.tif, deserialize_legs-serialize_legs plan.legs h) refl

  pub deserialize_order_intent-serialize_order_intent :
      (event : OrderIntent)
      → deserialize_order_intent python (serialize_order_intent event) ≡ ok event
  unfolding deserialize_order_intent serialize_order_intent str int is_truthy
  deserialize_order_intent-serialize_order_intent event =
      rw
        (
          tif_of-tif_value event.tif,
          side_or_none-optional_side event.side,
          as_optional_str-optional_text event.market_id,
        )
        refl

  pub deserialize_venue_fill_event-serialize_venue_fill_event :
      (event : VenueFillEvent)
      → deserialize_venue_fill_event python (serialize_venue_fill_event event) ≡ ok event
  unfolding deserialize_venue_fill_event serialize_venue_fill_event str int
  deserialize_venue_fill_event-serialize_venue_fill_event event =
      rw (int_or_none-optional_number event.cumulative_qty) refl

  pub deserialize_venue_cancel_event-serialize_venue_cancel_event :
      (event : VenueCancelEvent)
      → deserialize_venue_cancel_event python (serialize_venue_cancel_event event) ≡ ok event
  unfolding deserialize_venue_cancel_event serialize_venue_cancel_event str int
  deserialize_venue_cancel_event-serialize_venue_cancel_event event = refl

  pub deserialize_venue_reject_event-serialize_venue_reject_event :
      (event : VenueRejectEvent)
      → deserialize_venue_reject_event python (serialize_venue_reject_event event) ≡ ok event
  unfolding deserialize_venue_reject_event serialize_venue_reject_event str int
  deserialize_venue_reject_event-serialize_venue_reject_event event = refl

  pub deserialize_leg_event-serialize_leg_event :
      (event : LegEvent) → deserialize_leg_event python (serialize_leg_event event) ≡ ok event
  unfolding deserialize_leg_event serialize_leg_event str int
  deserialize_leg_event-serialize_leg_event event = refl
