-- ===== src/Planner/Plan.antt =====
-- executor/planner.py: ExecutionPlanner's constructor and `plan`.
use polymarket_trade_executo.Common.{
  String, Bool, true, false, Option, none, some, List, [], ◌∷◌, Result, ok, err, ◌>>=◌, ◌>>◌,
}
use polymarket_trade_executo.Common.Int.{ℤ, pos, leb_ℤ}
use polymarket_trade_executo.StateMachine.Types.{Side}
use polymarket_trade_executo.Planner.Types.{
  PlannerRejectCode, RejectReason, OpportunityLeg, Opportunity, PricingSnapshot, PlannerConfig,
  PlannerDecision, ExecutionPlan, LegPlanInputs, decided, zero_division, empty_min,
}
use polymarket_trade_executo.Planner.Prices.{Returns, rejected, floor_div, compute_marketable_limit}
use polymarket_trade_executo.Planner.Checks.{
  reject_if, validate_config, validate_opportunity, validate_snapshot,
}
use polymarket_trade_executo.Planner.Units.{choose_package_units}
use polymarket_trade_executo.Planner.Build.{build_plan}

-- `snapshots.get(market_id)`
abbrev pub Snapshots : Type 0
Snapshots = String → Option PricingSnapshot

-- the planner keeps its configuration and nothing else
unfoldable pub new_planner : PlannerConfig → Result String PlannerConfig
new_planner config = do validate_config config; ok config

abbrev pub touch_price : Side → PricingSnapshot → ℤ
touch_price Side.buy snapshot = snapshot.best_ask_ticks
touch_price Side.sell snapshot = snapshot.best_bid_ticks

abbrev pub touch_size : Side → PricingSnapshot → ℤ
touch_size Side.buy snapshot = snapshot.best_ask_size
touch_size Side.sell snapshot = snapshot.best_bid_size

-- one round of the loop, on the snapshot that was found
unfoldable pub plan_on :
    PlannerConfig → OpportunityLeg → PricingSnapshot → (now_ns : ℤ) → Returns LegPlanInputs
plan_on config leg snapshot now_ns = do
  validate_snapshot config leg snapshot now_ns
  let executable_price = touch_price leg.side snapshot
  let displayed_size = touch_size leg.side snapshot
  available_units ← floor_div displayed_size leg.quantity_ratio
  reject_if (leb_ℤ available_units (pos 0)) PlannerRejectCode.insufficient_size
      (RejectReason.displayed_too_small leg.leg_id displayed_size leg.quantity_ratio) now_ns
      (some leg.leg_id)
  limit_price ← compute_marketable_limit config leg snapshot executable_price now_ns
  ok (record {
    leg = leg;
    snapshot = snapshot;
    executable_price_ticks = executable_price;
    limit_price_ticks = limit_price;
    available_units = available_units;
  })

-- one round of the loop, from what `snapshots.get` returned
abbrev pub plan_found :
    PlannerConfig → (now_ns : ℤ) → OpportunityLeg → Option PricingSnapshot → Returns LegPlanInputs
plan_found config now_ns leg none =
    rejected PlannerRejectCode.missing_snapshot (RejectReason.missing_market leg.market_id) now_ns
      (some leg.leg_id)
plan_found config now_ns leg (some snapshot) = plan_on config leg snapshot now_ns

unfoldable pub plan_leg :
    PlannerConfig → Snapshots → (now_ns : ℤ) → OpportunityLeg → Returns LegPlanInputs
plan_leg config snapshots now_ns leg = plan_found config now_ns leg (snapshots leg.market_id)

-- the loop over the opportunity's legs
unfoldable pub leg_inputs :
    PlannerConfig → Snapshots → (now_ns : ℤ) → List OpportunityLeg → Returns (List LegPlanInputs)
leg_inputs config snapshots now_ns [] = ok []
leg_inputs config snapshots now_ns (leg ∷ legs) = do
  item ← plan_leg config snapshots now_ns leg
  items ← leg_inputs config snapshots now_ns legs
  ok (item ∷ items)

-- the steps of `plan`, up to its returns
unfoldable pub plan_steps :
    PlannerConfig → Opportunity → Snapshots → (now_ns : ℤ) → Returns ExecutionPlan
plan_steps config opportunity snapshots now_ns = do
  validate_opportunity config opportunity now_ns
  inputs ← leg_inputs config snapshots now_ns opportunity.legs
  package_units ← choose_package_units config opportunity inputs now_ns
  build_plan config opportunity inputs package_units now_ns

-- a plan is returned as an accepting decision, a decision as it is, an exception goes on
abbrev pub returned : Returns ExecutionPlan → Returns PlannerDecision
returned (ok made) = ok (record { plan = some made; rejection = none })
returned (err (decided decision)) = ok decision
returned (err zero_division) = err zero_division
returned (err empty_min) = err empty_min

unfoldable pub plan :
    PlannerConfig → Opportunity → Snapshots → (now_ns : ℤ) → Returns PlannerDecision
plan config opportunity snapshots now_ns = returned (plan_steps config opportunity snapshots now_ns)

-- `PlannerDecision.accepted`
abbrev pub accepted : PlannerDecision → Bool
accepted decision = elim decision.plan [ none ↦ false | some _ ↦ true ]
