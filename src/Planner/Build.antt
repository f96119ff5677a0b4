-- ===== src/Planner/Build.antt =====
-- executor/planner.py: _build_plan.
use Prim.Native.String.{String, compare}
use Prim.Native.Nat.{Ordering}
use polymarket_trade_executo.Common.{
  Bool, true, false, ◌&&◌, ◌||◌, Option, none, some, List, [], ◌∷◌, ok, ◌>>=◌, ◌>>◌, if◌then◌else◌,
}
use polymarket_trade_executo.Common.Text.{◌⧺◌, decimal}
use polymarket_trade_executo.Common.Int.{ℤ, pos, ◌+ℤ◌, ◌-ℤ◌, ◌*ℤ◌, ltb_ℤ, leb_ℤ, eqb_ℤ, min_ℤ}
use polymarket_trade_executo.StateMachine.Types.{Side}
use polymarket_trade_executo.Planner.Types.{
  PlannerRejectCode, RejectReason, Opportunity, PlannedLeg, PlannerConfig, ExecutionPlan,
  LegPlanInputs, bps_scale, ns_per_ms,
}
use polymarket_trade_executo.Planner.Prices.{Returns, ceil_div, floor_div}
use polymarket_trade_executo.Planner.Checks.{reject_if}

-- the sums of the first loop
pub record Totals : Type 0 where
  pub total_notional : ℤ
  pub total_shares : ℤ
  pub gross_profit : ℤ
  pub fee_cents : ℤ

-- the profit of one leg: what a sale brings, less what a purchase costs
abbrev pub signed_by : Side → ℤ → ℤ
signed_by Side.buy notional = pos 0 -ℤ notional
signed_by Side.sell notional = notional

abbrev pub leg_notional : (package_units : ℤ) → LegPlanInputs → ℤ
leg_notional package_units item = package_units *ℤ item.leg.quantity_ratio *ℤ item.limit_price_ticks

unfoldable pub leg_fee : PlannerConfig → (package_units : ℤ) → LegPlanInputs → Returns ℤ
leg_fee config package_units item =
    let fee_bps_total = item.leg.fee_bps +ℤ config.additional_cost_bps in
    if ltb_ℤ (pos 0) fee_bps_total
    then ceil_div (leg_notional package_units item *ℤ fee_bps_total) bps_scale
    else ok (pos 0)

-- the first loop, from the sums so far
unfoldable pub add_legs :
    PlannerConfig → (package_units : ℤ) → Totals → List LegPlanInputs → Returns Totals
add_legs config package_units totals [] = ok totals
add_legs config package_units totals (item ∷ items) = do
  fee ← leg_fee config package_units item
  add_legs config package_units
      (record {
        total_notional = totals.total_notional +ℤ leg_notional package_units item;
        total_shares = totals.total_shares +ℤ package_units *ℤ item.leg.quantity_ratio;
        gross_profit =
            totals.gross_profit +ℤ signed_by item.leg.side (leg_notional package_units item);
        fee_cents = totals.fee_cents +ℤ fee;
      })
      items

abbrev pub no_totals : Totals
no_totals = record {
  total_notional = pos 0;
  total_shares = pos 0;
  gross_profit = pos 0;
  fee_cents = pos 0;
}

-- `a < b` of texts
abbrev pub text_ltb : String → String → Bool
text_ltb a b = elim (compare a b) [ Ordering.lt ↦ true | _ ↦ false ]

-- the order of the sort's keys, `(available_units, leg_id)`
unfoldable pub key_ltb : LegPlanInputs → LegPlanInputs → Bool
key_ltb a b =
    ltb_ℤ a.available_units b.available_units
    || (eqb_ℤ a.available_units b.available_units && text_ltb a.leg.leg_id b.leg.leg_id)

-- before the first item whose key is not smaller
unfoldable pub insert : LegPlanInputs → List LegPlanInputs → List LegPlanInputs
insert item [] = item ∷ []
insert item (x ∷ xs) =
    let rest = insert item xs in if key_ltb x item then x ∷ rest else item ∷ x ∷ xs

-- `sorted(leg_inputs, key=...)`: stable, so equal keys keep their order
unfoldable pub sorted : List LegPlanInputs → List LegPlanInputs
sorted [] = []
sorted (item ∷ items) = insert item (sorted items)

-- `order_timeout_ms or default`
abbrev pub timeout_or : Option ℤ → ℤ → ℤ
timeout_or none default_ms = default_ms
timeout_or (some ms) default_ms = if eqb_ℤ ms (pos 0) then default_ms else ms

abbrev pub planned_leg : PlannerConfig → (package_units rank : ℤ) → LegPlanInputs → PlannedLeg
planned_leg config package_units rank item = record {
  leg_id = item.leg.leg_id;
  market_id = item.leg.market_id;
  token_id = item.leg.token_id;
  side = item.leg.side;
  submission_rank = rank;
  quantity = package_units *ℤ item.leg.quantity_ratio;
  executable_price_ticks = item.executable_price_ticks;
  limit_price_ticks = item.limit_price_ticks;
  tick_size_ticks = item.snapshot.tick_size_ticks;
  timeout_ms = timeout_or item.leg.order_timeout_ms config.default_leg_timeout_ms;
  tif = config.tif;
  snapshot_ts_ns = item.snapshot.ts_ns;
  available_units_at_plan = item.available_units;
}

-- the second loop: `enumerate(ordered_inputs, start=rank)`
unfoldable pub planned_legs :
    PlannerConfig → (package_units rank : ℤ) → List LegPlanInputs → List PlannedLeg
planned_legs config package_units rank [] = []
planned_legs config package_units rank (item ∷ items) =
    planned_leg config package_units rank item
    ∷ planned_legs config package_units (rank +ℤ pos 1) items

-- f"{opportunity_id}:{now_ns}"
unfoldable pub plan_id_of : (opportunity_id : String) (now_ns : ℤ) → String
plan_id_of opportunity_id now_ns = opportunity_id ⧺ ":" ⧺ decimal now_ns

unfoldable pub build_plan :
    PlannerConfig
    → Opportunity
    → List LegPlanInputs
    → (package_units now_ns : ℤ) → Returns ExecutionPlan
build_plan config opportunity leg_inputs package_units now_ns = do
  totals ← add_legs config package_units no_totals leg_inputs
  let fee_cents = totals.fee_cents +ℤ config.fixed_cost_cents
  let net_profit = totals.gross_profit -ℤ fee_cents
  reject_if (leb_ℤ totals.total_notional (pos 0)) PlannerRejectCode.notional_out_of_bounds
      RejectReason.notional_zero now_ns none
  net_edge_bps ← floor_div (net_profit *ℤ bps_scale) totals.total_notional
  reject_if (ltb_ℤ net_profit config.min_expected_profit_cents)
      PlannerRejectCode.profit_below_threshold
      (RejectReason.profit_below net_profit config.min_expected_profit_cents) now_ns none
  reject_if (ltb_ℤ net_edge_bps config.min_expected_edge_bps) PlannerRejectCode.edge_below_threshold
      (RejectReason.edge_below net_edge_bps config.min_expected_edge_bps) now_ns none
  let expiry_ns = min_ℤ opportunity.expires_at_ns (now_ns +ℤ config.plan_ttl_ms *ℤ ns_per_ms)
  reject_if (leb_ℤ expiry_ns now_ns) PlannerRejectCode.opportunity_expired
      RejectReason.expiry_elapsed now_ns none
  ok (record {
    plan_id = plan_id_of opportunity.opportunity_id now_ns;
    opportunity_id = opportunity.opportunity_id;
    created_ts_ns = now_ns;
    expires_at_ns = expiry_ns;
    package_timeout_ms = config.package_timeout_ms;
    package_units = package_units;
    tif = config.tif;
    total_shares = totals.total_shares;
    total_notional_cents = totals.total_notional;
    expected_gross_profit_cents = totals.gross_profit;
    expected_fee_cents = fee_cents;
    expected_net_profit_cents = net_profit;
    expected_net_edge_bps = net_edge_bps;
    legs = planned_legs config package_units (pos 1) (sorted leg_inputs);
  })
