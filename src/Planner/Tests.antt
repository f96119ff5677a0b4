-- ===== src/Planner/Tests.antt =====
-- Runs of the planner of executor/planner.py, and its theorems at a concrete opportunity: a
-- purchase at 45 and a sale at 60.
use polymarket_trade_executo.Common.{
  String, ◌≡◌, refl, true, false, none, some, List, [], ◌∷◌, ok, ◌==◌, string_eq, arith,
  if◌then◌else◌,
}
use polymarket_trade_executo.Common.Text.{decimal, decimal_upto}
use polymarket_trade_executo.Planner.Build.{plan_id_of}
use polymarket_trade_executo.Common.Int.{ℤ, pos, ◌+ℤ◌, ◌-ℤ◌, ◌*ℤ◌, ◌/ℤ◌}
use polymarket_trade_executo.Common.Float.{finite, float_ltb, nan}
use polymarket_trade_executo.StateMachine.Types.{Side, TimeInForce}
use polymarket_trade_executo.Planner.Types.{
  PlannerRejectCode, RejectReason, OpportunityLeg, Opportunity, PricingSnapshot, PlannedLeg,
  ExecutionPlan, PlannerConfig, PlannerDecision, LegPlanInputs,
}
use polymarket_trade_executo.Planner.Prices.{
  Returns, reject, floor_div, ceil_div, round_up_to_tick, round_down_to_tick, buy_limit, sell_limit,
  compute_marketable_limit,
}
use polymarket_trade_executo.Planner.Checks.{validate_legs, validate_opportunity, validate_snapshot}
use polymarket_trade_executo.Planner.Units.{leg_caps, choose_package_units}
use polymarket_trade_executo.Planner.Build.{
  leg_fee, add_legs, key_ltb, insert, sorted, planned_legs, build_plan,
}
use polymarket_trade_executo.Planner.Plan.{
  Snapshots, plan_on, plan_leg, leg_inputs, plan_steps, plan,
}
use polymarket_trade_executo.Planner.Limits.{IsProtected, marketable_limit-IsProtected}
use polymarket_trade_executo.Planner.Caps.{IsChosen, choose_package_units-IsChosen}
use polymarket_trade_executo.Planner.Total.{IsDecision, plan_decides}
use polymarket_trade_executo.Planner.Acceptance.{accepting}
use polymarket_trade_executo.Planner.Spending.{
  IsWithinCaps, IsProfitable, AreBacked, accepted-IsWithinCaps, accepted-IsProfitable,
  accepted_legs-AreBacked,
}

-- the defaults of `PlannerConfig`
abbrev config : PlannerConfig
config = record {
  aggressiveness_bps = pos 20;
  max_cross_bps_from_touch = pos 50;
  default_max_slippage_bps = pos 80;
  max_snapshot_age_ms = pos 200;
  min_confidence = finite (pos 8106479329266893) 53;
  scale_down_to_common_size = true;
  min_expected_profit_cents = pos 1;
  min_expected_edge_bps = pos 1;
  additional_cost_bps = pos 0;
  fixed_cost_cents = pos 0;
  default_leg_timeout_ms = pos 800;
  package_timeout_ms = pos 1200;
  plan_ttl_ms = pos 400;
  min_total_notional_cents = pos 1;
  max_total_notional_cents = pos 2000000;
  min_package_units = pos 1;
  max_package_units = pos 10000;
  max_shares_per_leg = pos 10000;
  max_total_shares = pos 30000;
  tif = TimeInForce.ioc;
  reject_crossed_book = true;
}

abbrev leg_of : String → Side → ℤ → OpportunityLeg
leg_of id side reference = record {
  leg_id = id;
  market_id = id;
  token_id = id;
  side = side;
  quantity_ratio = pos 1;
  reference_price_ticks = reference;
  max_slippage_bps = none;
  fee_bps = pos 0;
  order_timeout_ms = none;
}

abbrev opportunity : Opportunity
opportunity = record {
  opportunity_id = "o";
  detected_ts_ns = pos 1000000000;
  expires_at_ns = pos 2000000000;
  expected_edge_bps = pos 100;
  confidence = finite (pos 19) 4;
  target_package_units = pos 50;
  min_package_units = pos 1;
  max_package_units = pos 100;
  legs = leg_of "a" Side.buy (pos 46) ∷ leg_of "b" Side.sell (pos 60) ∷ [];
}

abbrev book_of : String → (bid ask size : ℤ) → PricingSnapshot
book_of id bid ask size = record {
  market_id = id;
  ts_ns = pos 999000000;
  best_bid_ticks = bid;
  best_bid_size = size;
  best_ask_ticks = ask;
  best_ask_size = size;
  tick_size_ticks = pos 1;
  is_uncertain = false;
}

abbrev books : Snapshots
books id =
    if id == "a"
    then some (book_of "a" (pos 44) (pos 45) (pos 100))
    else (if id == "b" then some (book_of "b" (pos 60) (pos 61) (pos 80)) else none)

abbrev now : ℤ
now = pos 1000000000

-- opens every function that a run of the planner calls
unfoldable run : Opportunity → Snapshots → Returns PlannerDecision
unfolding plan plan_steps validate_opportunity validate_legs float_ltb leg_inputs plan_leg plan_on
    validate_snapshot floor_div ceil_div round_up_to_tick round_down_to_tick
    compute_marketable_limit buy_limit sell_limit choose_package_units leg_caps build_plan
    plan_id_of decimal decimal_upto add_legs leg_fee sorted insert key_ltb planned_legs ◌+ℤ◌ ◌-ℤ◌
    ◌*ℤ◌ ◌/ℤ◌
run o s = plan config o s now

abbrev leg_plan : String → Side → (rank price available : ℤ) → PlannedLeg
leg_plan id side rank price available = record {
  leg_id = id;
  market_id = id;
  token_id = id;
  side = side;
  submission_rank = rank;
  quantity = pos 50;
  executable_price_ticks = price;
  limit_price_ticks = price;
  tick_size_ticks = pos 1;
  timeout_ms = pos 800;
  tif = TimeInForce.ioc;
  snapshot_ts_ns = pos 999000000;
  available_units_at_plan = available;
}

-- the leg with less liquidity comes first
abbrev made : ExecutionPlan
made = record {
  plan_id = "o:1000000000";
  opportunity_id = "o";
  created_ts_ns = now;
  expires_at_ns = pos 1400000000;
  package_timeout_ms = pos 1200;
  package_units = pos 50;
  tif = TimeInForce.ioc;
  total_shares = pos 100;
  total_notional_cents = pos 5250;
  expected_gross_profit_cents = pos 750;
  expected_fee_cents = pos 0;
  expected_net_profit_cents = pos 750;
  expected_net_edge_bps = pos 1428;
  legs =
      leg_plan "b" Side.sell (pos 1) (pos 60) (pos 80)
      ∷ leg_plan "a" Side.buy (pos 2) (pos 45) (pos 100)
      ∷ [];
}

planned : plan config opportunity books now ≡ ok (accepting made)
unfolding run
planned = refl

no_books_reject :
    run opportunity (λ _. none)
    ≡ ok
        (reject PlannerRejectCode.missing_snapshot (RejectReason.missing_market "a") now (some "a"))
unfolding run
no_books_reject = refl

-- A confidence that is not a number passes the test for low confidence.
nan_confidence_passes : run (record opportunity { confidence = nan }) books ≡ ok (accepting made)
unfolding run
nan_confidence_passes = refl

plan_decides_example :
    (d : PlannerDecision) × (plan config opportunity books now ≡ ok d) × IsDecision now d
plan_decides_example = plan_decides config opportunity books now

accepted-IsWithinCaps_example : IsWithinCaps config opportunity made
accepted-IsWithinCaps_example = accepted-IsWithinCaps config opportunity books now made planned

accepted-IsProfitable_example : IsProfitable config opportunity made
accepted-IsProfitable_example = accepted-IsProfitable config opportunity books now made planned

accepted_legs-AreBacked_example : AreBacked config opportunity books now made
accepted_legs-AreBacked_example = accepted_legs-AreBacked config opportunity books now made planned

abbrev buy_leg : OpportunityLeg
buy_leg = leg_of "a" Side.buy (pos 46)

abbrev buy_book : PricingSnapshot
buy_book = book_of "a" (pos 44) (pos 45) (pos 100)

buy_priced : compute_marketable_limit config buy_leg buy_book (pos 45) now ≡ ok (pos 45)
unfolding run
buy_priced = refl

marketable_limit-IsProtected_example : IsProtected Side.buy config buy_leg (pos 1) (pos 45) (pos 45)
marketable_limit-IsProtected_example =
    marketable_limit-IsProtected config buy_leg buy_book (pos 45) now (omega arith) (pos 45)
      buy_priced

abbrev inputs : List LegPlanInputs
inputs =
    record {
      leg = buy_leg;
      snapshot = buy_book;
      executable_price_ticks = pos 45;
      limit_price_ticks = pos 45;
      available_units = pos 100;
    }
    ∷ []

units_chosen : choose_package_units config opportunity inputs now ≡ ok (pos 50)
unfolding run
units_chosen = refl

choose_package_units-IsChosen_example : IsChosen config opportunity inputs (pos 50)
choose_package_units-IsChosen_example =
    choose_package_units-IsChosen config opportunity inputs now (omega arith, tt) (pos 50)
      units_chosen
