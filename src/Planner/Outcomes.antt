-- ===== src/Planner/Outcomes.antt =====
-- The helpers of executor/planner.py end early only with a rejection: the divisors are positive.
use polymarket_trade_executo.Common.{
  String, ◌≡◌, refl, sym, arith, Bool, true, false, Option, none, some, List, [], ◌∷◌, map, ok, err,
  Result, ◌⊎◌, inl, inr, Fails, Fails-ok, Fails-err, Fails-if, Fails-guard, Fails-bind, fails_rules,
}
use polymarket_trade_executo.Common.Int.{ℤ, pos, ◌<ℤ◌}
use polymarket_trade_executo.StateMachine.Types.{Side}
use polymarket_trade_executo.Planner.Types.{
  OpportunityLeg, Opportunity, PricingSnapshot, PlannerConfig, PlannerDecision, PlannerRejection,
  Stop, decided, zero_division, empty_min, bps_scale,
}
use polymarket_trade_executo.Planner.Prices.{
  floor_div, ceil_div, round_up_to_tick, round_down_to_tick, buy_limit, sell_limit,
  compute_marketable_limit,
}
use polymarket_trade_executo.Planner.Checks.{validate_legs, validate_opportunity, validate_snapshot}
use polymarket_trade_executo.Planner.Rounding.{floor_div-returns}

-- The decision rejects, and says when.
pub record IsRejection (now_ns : ℤ) (d : PlannerDecision) : Type 0 where
  pub no_plan : d.plan ≡ none
  pub rejection : (r : PlannerRejection) × (d.rejection ≡ some r) × (r.ts_ns ≡ now_ns)

-- A call ends early only with a rejection, never with an exception.
abbrev pub Rejects : (now_ns : ℤ) → Stop → Type 0
Rejects now_ns (decided d) = IsRejection now_ns d
Rejects now_ns zero_division = ⊥
Rejects now_ns empty_min = ⊥

pub floor_div-Fails : {P : Stop → Type 0} (n d : ℤ) → pos 0 <ℤ d → Fails P (floor_div n d)
unfolding floor_div
floor_div-Fails n d h = rw (floor_div-returns n d h) (Fails-ok _)

pub ceil_div-Fails : {P : Stop → Type 0} (n d : ℤ) → pos 0 <ℤ d → Fails P (ceil_div n d)
unfolding ceil_div
ceil_div-Fails n d h = Fails-bind _ _ (floor_div-Fails _ d h) (λ q e. Fails-ok _)

pub round_up-Fails : {P : Stop → Type 0} (n d : ℤ) → pos 0 <ℤ d → Fails P (round_up_to_tick n d)
unfolding round_up_to_tick
round_up-Fails n d h = Fails-bind _ _ (ceil_div-Fails n d h) (λ q e. Fails-ok _)

pub round_down-Fails : {P : Stop → Type 0} (n d : ℤ) → pos 0 <ℤ d → Fails P (round_down_to_tick n d)
unfolding round_down_to_tick
round_down-Fails n d h = Fails-bind _ _ (floor_div-Fails n d h) (λ q e. Fails-ok _)

pub scale-positive : pos 0 <ℤ bps_scale
scale-positive = omega arith

pub rejects_now :
    (now_ns : ℤ) (r : PlannerRejection)
    → r.ts_ns ≡ now_ns
    → IsRejection now_ns (record { plan = none; rejection = some r })
rejects_now now_ns r e = record { no_plan = refl; rejection = (r, refl, e) }

pub ruleset outcome_rules = (
  fails_rules, floor_div-Fails, ceil_div-Fails, round_up-Fails, round_down-Fails, scale-positive,
  rejects_now, refl,
)

buy_limit-Fails :
    (config : PlannerConfig) (leg : OpportunityLeg) (snapshot : PricingSnapshot) (touch now_ns : ℤ)
    → pos 0 <ℤ snapshot.tick_size_ticks
    → Fails (Rejects now_ns) (buy_limit config leg snapshot touch now_ns)
unfolding buy_limit
buy_limit-Fails config leg snapshot touch now_ns h = search outcome_rules depth 12

sell_limit-Fails :
    (config : PlannerConfig) (leg : OpportunityLeg) (snapshot : PricingSnapshot) (touch now_ns : ℤ)
    → pos 0 <ℤ snapshot.tick_size_ticks
    → Fails (Rejects now_ns) (sell_limit config leg snapshot touch now_ns)
unfolding sell_limit
sell_limit-Fails config leg snapshot touch now_ns h = search outcome_rules depth 12

limit_by_side-Fails :
    (side : Side) (config : PlannerConfig) (leg : OpportunityLeg) (snapshot : PricingSnapshot)
    (touch now_ns : ℤ)
    → pos 0 <ℤ snapshot.tick_size_ticks
    → Fails (Rejects now_ns) (elim side [
      | Side.buy ↦ buy_limit config leg snapshot touch now_ns
      | Side.sell ↦ sell_limit config leg snapshot touch now_ns
    ])
limit_by_side-Fails Side.buy = buy_limit-Fails
limit_by_side-Fails Side.sell = sell_limit-Fails

pub marketable_limit-Fails :
    (config : PlannerConfig) (leg : OpportunityLeg) (snapshot : PricingSnapshot) (touch now_ns : ℤ)
    → pos 0 <ℤ snapshot.tick_size_ticks
    → Fails (Rejects now_ns) (compute_marketable_limit config leg snapshot touch now_ns)
unfolding compute_marketable_limit
marketable_limit-Fails config leg = limit_by_side-Fails leg.side config leg

pub validate_snapshot-Fails :
    (config : PlannerConfig) (leg : OpportunityLeg) (snapshot : PricingSnapshot) (now_ns : ℤ)
    → Fails (Rejects now_ns) (validate_snapshot config leg snapshot now_ns)
unfolding validate_snapshot
validate_snapshot-Fails config leg snapshot now_ns = search outcome_rules depth 14

validate_legs-Fails :
    (seen : List String) (legs : List OpportunityLeg) (now_ns : ℤ)
    → Fails (Rejects now_ns) (validate_legs seen legs now_ns)
unfolding validate_legs
validate_legs-Fails seen [] now_ns = Fails-ok _
validate_legs-Fails seen (leg ∷ legs) now_ns =
    let rest = validate_legs-Fails (leg.leg_id ∷ seen) legs now_ns in
    search (outcome_rules, rest) depth 12

pub validate_opportunity-Fails :
    (config : PlannerConfig) (opportunity : Opportunity) (now_ns : ℤ)
    → Fails (Rejects now_ns) (validate_opportunity config opportunity now_ns)
unfolding validate_opportunity
validate_opportunity-Fails config opportunity now_ns =
    search (outcome_rules, validate_legs-Fails) depth 14
