-- ===== src/Journal/Deserialize.antt =====
-- executor/journal.py: deserialize_... of plans and events.
use polymarket_trade_executo.Common.{
  String, Bool, false, Option, none, some, List, [], ◌∷◌, ok, err, ◌>>=◌, ◌==◌, string_eq,
  if◌then◌else◌,
}
use polymarket_trade_executo.Common.Int.{ℤ}
use polymarket_trade_executo.StateMachine.Types.{Side, TimeInForce}
use polymarket_trade_executo.StateMachine.Events.{
  OrderIntent, VenueOrderAck, VenueFillEvent, VenueCancelEvent, VenueRejectEvent, LegEvent,
}
use polymarket_trade_executo.Planner.Types.{PlannedLeg, ExecutionPlan}
use polymarket_trade_executo.Journal.Json.{
  Json, Items, Fields, JournalError, Decoded, Python, lookup, is_truthy, int, text_at, int_at,
  as_optional_str,
}

-- `Side(value)`
abbrev pub side_of : String → Decoded Side
side_of value =
    if value == "BUY"
    then ok Side.buy
    else (if value == "SELL" then ok Side.sell else err (JournalError.not_a_member value))

-- `TimeInForce(value)`
abbrev pub tif_of : String → Decoded TimeInForce
tif_of value =
    if value == "IOC"
    then ok TimeInForce.ioc
    else (if value == "GTC" then ok TimeInForce.gtc else err (JournalError.not_a_member value))

-- `Side(side_value) if side_value is not None else None`
abbrev pub side_or_none : Option String → Decoded (Option Side)
side_or_none none = ok none
side_or_none (some value) = side_of value >>= λ side. ok (some side)

-- `bool(data.get(key, False))`
abbrev flag : Option Json → Bool
flag none = false
flag (some v) = is_truthy v

-- `_as_mapping_list`
unfoldable pub mappings : Items → List Fields
mappings Items.empty = []
mappings (Items.item (Json.object d) vs) = d ∷ mappings vs
mappings (Items.item v vs) = mappings vs

unfoldable pub as_mapping_list : Option Json → List Fields
as_mapping_list none = []
as_mapping_list (some (Json.array vs)) = mappings vs
as_mapping_list (some v) = []

-- `token_id_raw if token_id_raw else market_id`
abbrev token_or_market : Option String → (market_id : String) → String
token_or_market none market_id = market_id
token_or_market (some token_id) market_id = if token_id == "" then market_id else token_id

module _ (python : Python) where
  -- `int(value) if value is not None else None`
  abbrev pub int_or_none : Option Json → Decoded (Option ℤ)
  int_or_none none = ok none
  int_or_none (some Json.null) = ok none
  int_or_none (some v) = int python v >>= λ n. ok (some n)

  unfoldable pub deserialize_planned_leg : Fields → Decoded PlannedLeg
  deserialize_planned_leg d = do
    market_id ← text_at python d "market_id"
    leg_id ← text_at python d "leg_id"
    let token_id = token_or_market (as_optional_str python (lookup d "token_id")) market_id
    side_text ← text_at python d "side"
    side ← side_of side_text
    submission_rank ← int_at python d "submission_rank"
    quantity ← int_at python d "quantity"
    executable_price_ticks ← int_at python d "executable_price_ticks"
    limit_price_ticks ← int_at python d "limit_price_ticks"
    tick_size_ticks ← int_at python d "tick_size_ticks"
    timeout_ms ← int_at python d "timeout_ms"
    tif_text ← text_at python d "tif"
    tif ← tif_of tif_text
    snapshot_ts_ns ← int_at python d "snapshot_ts_ns"
    available_units_at_plan ← int_at python d "available_units_at_plan"
    ok (record {
      market_id = market_id;
      leg_id = leg_id;
      token_id = token_id;
      side = side;
      submission_rank = submission_rank;
      quantity = quantity;
      executable_price_ticks = executable_price_ticks;
      limit_price_ticks = limit_price_ticks;
      tick_size_ticks = tick_size_ticks;
      timeout_ms = timeout_ms;
      tif = tif;
      snapshot_ts_ns = snapshot_ts_ns;
      available_units_at_plan = available_units_at_plan;
    })

  unfoldable pub deserialize_legs : List Fields → Decoded (List PlannedLeg)
  deserialize_legs [] = ok []
  deserialize_legs (d ∷ ds) =
      deserialize_planned_leg d >>= λ leg. deserialize_legs ds >>= λ legs. ok (leg ∷ legs)

  unfoldable pub deserialize_execution_plan : Fields → Decoded ExecutionPlan
  deserialize_execution_plan d = do
    plan_id ← text_at python d "plan_id"
    opportunity_id ← text_at python d "opportunity_id"
    created_ts_ns ← int_at python d "created_ts_ns"
    expires_at_ns ← int_at python d "expires_at_ns"
    package_timeout_ms ← int_at python d "package_timeout_ms"
    package_units ← int_at python d "package_units"
    tif_text ← text_at python d "tif"
    tif ← tif_of tif_text
    total_shares ← int_at python d "total_shares"
    total_notional_cents ← int_at python d "total_notional_cents"
    expected_gross_profit_cents ← int_at python d "expected_gross_profit_cents"
    expected_fee_cents ← int_at python d "expected_fee_cents"
    expected_net_profit_cents ← int_at python d "expected_net_profit_cents"
    expected_net_edge_bps ← int_at python d "expected_net_edge_bps"
    legs ← deserialize_legs (as_mapping_list (lookup d "legs"))
    ok (record {
      plan_id = plan_id;
      opportunity_id = opportunity_id;
      created_ts_ns = created_ts_ns;
      expires_at_ns = expires_at_ns;
      package_timeout_ms = package_timeout_ms;
      package_units = package_units;
      tif = tif;
      total_shares = total_shares;
      total_notional_cents = total_notional_cents;
      expected_gross_profit_cents = expected_gross_profit_cents;
      expected_fee_cents = expected_fee_cents;
      expected_net_profit_cents = expected_net_profit_cents;
      expected_net_edge_bps = expected_net_edge_bps;
      legs = legs;
    })

  unfoldable pub deserialize_order_intent : Fields → Decoded OrderIntent
  deserialize_order_intent d = do
    package_id ← text_at python d "package_id"
    leg_id ← text_at python d "leg_id"
    client_order_id ← text_at python d "client_order_id"
    qty ← int_at python d "qty"
    limit_price_ticks ← int_at python d "limit_price_ticks"
    tif_text ← text_at python d "tif"
    tif ← tif_of tif_text
    ts_ns ← int_at python d "ts_ns"
    side ← side_or_none (as_optional_str python (lookup d "side"))
    let market_id = as_optional_str python (lookup d "market_id")
    let is_unwind = flag (lookup d "is_unwind")
    ok (record {
      package_id = package_id;
      leg_id = leg_id;
      client_order_id = client_order_id;
      qty = qty;
      limit_price_ticks = limit_price_ticks;
      tif = tif;
      ts_ns = ts_ns;
      side = side;
      market_id = market_id;
      is_unwind = is_unwind;
    })

  unfoldable pub deserialize_venue_order_ack : Fields → Decoded VenueOrderAck
  deserialize_venue_order_ack d = do
    package_id ← text_at python d "package_id"
    leg_id ← text_at python d "leg_id"
    client_order_id ← text_at python d "client_order_id"
    venue_order_id ← text_at python d "venue_order_id"
    ts_ns ← int_at python d "ts_ns"
    ok (record {
      package_id = package_id;
      leg_id = leg_id;
      client_order_id = client_order_id;
      venue_order_id = venue_order_id;
      ts_ns = ts_ns;
    })

  unfoldable pub deserialize_venue_fill_event : Fields → Decoded VenueFillEvent
  deserialize_venue_fill_event d = do
    package_id ← text_at python d "package_id"
    leg_id ← text_at python d "leg_id"
    client_order_id ← text_at python d "client_order_id"
    fill_qty ← int_at python d "fill_qty"
    fill_price_ticks ← int_at python d "fill_price_ticks"
    ts_ns ← int_at python d "ts_ns"
    cumulative_qty ← int_or_none (lookup d "cumulative_qty")
    ok (record {
      package_id = package_id;
      leg_id = leg_id;
      client_order_id = client_order_id;
      fill_qty = fill_qty;
      fill_price_ticks = fill_price_ticks;
      ts_ns = ts_ns;
      cumulative_qty = cumulative_qty;
    })

  unfoldable pub deserialize_venue_cancel_event : Fields → Decoded VenueCancelEvent
  deserialize_venue_cancel_event d = do
    package_id ← text_at python d "package_id"
    leg_id ← text_at python d "leg_id"
    client_order_id ← text_at python d "client_order_id"
    canceled_qty ← int_at python d "canceled_qty"
    reason ← text_at python d "reason"
    ts_ns ← int_at python d "ts_ns"
    ok (record {
      package_id = package_id;
      leg_id = leg_id;
      client_order_id = client_order_id;
      canceled_qty = canceled_qty;
      reason = reason;
      ts_ns = ts_ns;
    })

  unfoldable pub deserialize_venue_reject_event : Fields → Decoded VenueRejectEvent
  deserialize_venue_reject_event d = do
    package_id ← text_at python d "package_id"
    leg_id ← text_at python d "leg_id"
    client_order_id ← text_at python d "client_order_id"
    reason ← text_at python d "reason"
    ts_ns ← int_at python d "ts_ns"
    ok (record {
      package_id = package_id;
      leg_id = leg_id;
      client_order_id = client_order_id;
      reason = reason;
      ts_ns = ts_ns;
    })

  -- deserialize_cancel_requested_event and deserialize_leg_timeout_event
  unfoldable pub deserialize_leg_event : Fields → Decoded LegEvent
  deserialize_leg_event d = do
    package_id ← text_at python d "package_id"
    leg_id ← text_at python d "leg_id"
    reason ← text_at python d "reason"
    ts_ns ← int_at python d "ts_ns"
    ok (record { package_id = package_id; leg_id = leg_id; reason = reason; ts_ns = ts_ns })
