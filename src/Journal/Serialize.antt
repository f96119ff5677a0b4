-- ===== src/Journal/Serialize.antt =====
-- executor/journal.py: serialize_... of plans and events.
use polymarket_trade_executo.Common.{String, Option, none, some, List, [], ◌∷◌, string_eq}
use polymarket_trade_executo.Common.Int.{ℤ}
use polymarket_trade_executo.StateMachine.Types.{Side, TimeInForce}
use polymarket_trade_executo.StateMachine.Events.{
  OrderIntent, VenueOrderAck, VenueFillEvent, VenueCancelEvent, VenueRejectEvent, LegEvent,
}
use polymarket_trade_executo.Planner.Types.{PlannedLeg, ExecutionPlan}
use polymarket_trade_executo.Journal.Json.{Json, Items, Fields}

-- `side.value`
abbrev pub side_value : Side → String
side_value Side.buy = "BUY"
side_value Side.sell = "SELL"

-- `tif.value`
abbrev pub tif_value : TimeInForce → String
tif_value TimeInForce.ioc = "IOC"
tif_value TimeInForce.gtc = "GTC"

abbrev pub optional_text : Option String → Json
optional_text none = Json.null
optional_text (some s) = Json.text s

abbrev pub optional_number : Option ℤ → Json
optional_number none = Json.null
optional_number (some n) = Json.number n

abbrev pub optional_side : Option Side → Json
optional_side none = Json.null
optional_side (some side) = Json.text (side_value side)

-- a dict as it is written down
abbrev fields : List (String × Json) → Fields
fields [] = Fields.end
fields (entry ∷ entries) = Fields.field entry.0 entry.1 (fields entries)

unfoldable pub serialize_planned_leg : PlannedLeg → Fields
serialize_planned_leg leg = fields (
    ("leg_id", Json.text leg.leg_id)
    ∷ ("market_id", Json.text leg.market_id)
    ∷ ("token_id", Json.text leg.token_id)
    ∷ ("side", Json.text (side_value leg.side))
    ∷ ("submission_rank", Json.number leg.submission_rank)
    ∷ ("quantity", Json.number leg.quantity)
    ∷ ("executable_price_ticks", Json.number leg.executable_price_ticks)
    ∷ ("limit_price_ticks", Json.number leg.limit_price_ticks)
    ∷ ("tick_size_ticks", Json.number leg.tick_size_ticks)
    ∷ ("timeout_ms", Json.number leg.timeout_ms)
    ∷ ("tif", Json.text (tif_value leg.tif))
    ∷ ("snapshot_ts_ns", Json.number leg.snapshot_ts_ns)
    ∷ ("available_units_at_plan", Json.number leg.available_units_at_plan)
    ∷ [])

unfoldable pub serialize_legs : List PlannedLeg → Items
serialize_legs [] = Items.empty
serialize_legs (leg ∷ legs) =
    Items.item (Json.object (serialize_planned_leg leg)) (serialize_legs legs)

unfoldable pub serialize_execution_plan : ExecutionPlan → Fields
serialize_execution_plan plan = fields (
    ("plan_id", Json.text plan.plan_id)
    ∷ ("opportunity_id", Json.text plan.opportunity_id)
    ∷ ("created_ts_ns", Json.number plan.created_ts_ns)
    ∷ ("expires_at_ns", Json.number plan.expires_at_ns)
    ∷ ("package_timeout_ms", Json.number plan.package_timeout_ms)
    ∷ ("package_units", Json.number plan.package_units)
    ∷ ("tif", Json.text (tif_value plan.tif))
    ∷ ("total_shares", Json.number plan.total_shares)
    ∷ ("total_notional_cents", Json.number plan.total_notional_cents)
    ∷ ("expected_gross_profit_cents", Json.number plan.expected_gross_profit_cents)
    ∷ ("expected_fee_cents", Json.number plan.expected_fee_cents)
    ∷ ("expected_net_profit_cents", Json.number plan.expected_net_profit_cents)
    ∷ ("expected_net_edge_bps", Json.number plan.expected_net_edge_bps)
    ∷ ("legs", Json.array (serialize_legs plan.legs))
    ∷ [])

unfoldable pub serialize_order_intent : OrderIntent → Fields
serialize_order_intent event = fields (
    ("package_id", Json.text event.package_id)
    ∷ ("leg_id", Json.text event.leg_id)
    ∷ ("client_order_id", Json.text event.client_order_id)
    ∷ ("qty", Json.number event.qty)
    ∷ ("limit_price_ticks", Json.number event.limit_price_ticks)
    ∷ ("tif", Json.text (tif_value event.tif))
    ∷ ("ts_ns", Json.number event.ts_ns)
    ∷ ("side", optional_side event.side)
    ∷ ("market_id", optional_text event.market_id)
    ∷ ("is_unwind", Json.boolean event.is_unwind)
    ∷ [])

unfoldable pub serialize_venue_order_ack : VenueOrderAck → Fields
serialize_venue_order_ack event = fields (
    ("package_id", Json.text event.package_id)
    ∷ ("leg_id", Json.text event.leg_id)
    ∷ ("client_order_id", Json.text event.client_order_id)
    ∷ ("venue_order_id", Json.text event.venue_order_id)
    ∷ ("ts_ns", Json.number event.ts_ns)
    ∷ [])

unfoldable pub serialize_venue_fill_event : VenueFillEvent → Fields
serialize_venue_fill_event event = fields (
    ("package_id", Json.text event.package_id)
    ∷ ("leg_id", Json.text event.leg_id)
    ∷ ("client_order_id", Json.text event.client_order_id)
    ∷ ("fill_qty", Json.number event.fill_qty)
    ∷ ("fill_price_ticks", Json.number event.fill_price_ticks)
    ∷ ("ts_ns", Json.number event.ts_ns)
    ∷ ("cumulative_qty", optional_number event.cumulative_qty)
    ∷ [])

unfoldable pub serialize_venue_cancel_event : VenueCancelEvent → Fields
serialize_venue_cancel_event event = fields (
    ("package_id", Json.text event.package_id)
    ∷ ("leg_id", Json.text event.leg_id)
    ∷ ("client_order_id", Json.text event.client_order_id)
    ∷ ("canceled_qty", Json.number event.canceled_qty)
    ∷ ("reason", Json.text event.reason)
    ∷ ("ts_ns", Json.number event.ts_ns)
    ∷ [])

unfoldable pub serialize_venue_reject_event : VenueRejectEvent → Fields
serialize_venue_reject_event event = fields (
    ("package_id", Json.text event.package_id)
    ∷ ("leg_id", Json.text event.leg_id)
    ∷ ("client_order_id", Json.text event.client_order_id)
    ∷ ("reason", Json.text event.reason)
    ∷ ("ts_ns", Json.number event.ts_ns)
    ∷ [])

-- serialize_cancel_requested_event and serialize_leg_timeout_event
unfoldable pub serialize_leg_event : LegEvent → Fields
serialize_leg_event event = fields (
    ("package_id", Json.text event.package_id)
    ∷ ("leg_id", Json.text event.leg_id)
    ∷ ("reason", Json.text event.reason)
    ∷ ("ts_ns", Json.number event.ts_ns)
    ∷ [])
