-- ===== src/Planner/Inputs.antt =====
-- The loop of `plan` in executor/planner.py: what it knows of each leg when it ends.
use polymarket_trade_executo.Common.{
  ◌≡◌, ◌∙◌, ok-injective, refl, sym, subst, arith, Option, none, some, List, [], ◌∷◌, map, Ensures,
  Ensures-ok, Ensures-err, Ensures-guard, Ensures-bind,
}
use polymarket_trade_executo.Common.Int.{ℤ, pos, ◌/ℤ◌, ◌<ℤ◌, leb_ℤ}
use polymarket_trade_executo.Common.Lists.{All}
use polymarket_trade_executo.Planner.Types.{
  OpportunityLeg, PricingSnapshot, PlannerConfig, LegPlanInputs,
}
use polymarket_trade_executo.Planner.Prices.{floor_div, compute_marketable_limit}
use polymarket_trade_executo.Planner.Checks.{validate_snapshot}
use polymarket_trade_executo.Planner.Units.{ratios}
use polymarket_trade_executo.Planner.Plan.{
  Snapshots, touch_price, touch_size, plan_on, plan_found, plan_leg, leg_inputs,
}
use polymarket_trade_executo.Planner.Passed.{IsOpenLeg, IsFresh, validate_snapshot-IsFresh}
use polymarket_trade_executo.Planner.Rounding.{floor_div-returns}
use polymarket_trade_executo.Planner.Limits.{IsProtected, marketable_limit-IsProtected}

-- The book of one leg, on which its inputs rest.
pub record IsInput (config : PlannerConfig) (snapshots : Snapshots) (now_ns : ℤ)
    (item : LegPlanInputs) : Type 0 where
  pub found : snapshots item.leg.market_id ≡ some item.snapshot
  pub fresh : IsFresh config item.leg item.snapshot now_ns
  pub touch : item.executable_price_ticks ≡ touch_price item.leg.side item.snapshot
  pub has_size : pos 0 <ℤ item.available_units
  pub available :
      pos 0 <ℤ item.leg.quantity_ratio
      → item.available_units ≡ touch_size item.leg.side item.snapshot /ℤ item.leg.quantity_ratio
  pub protected :
      IsProtected item.leg.side config item.leg item.snapshot.tick_size_ticks
        item.executable_price_ticks item.limit_price_ticks

-- The inputs of one leg ...
pub record IsInputOf (config : PlannerConfig) (snapshots : Snapshots) (now_ns : ℤ)
    (leg : OpportunityLeg) (item : LegPlanInputs) : Type 0 where
  pub of_leg : item.leg ≡ leg
  pub input : IsInput config snapshots now_ns item

-- ... and of several.
pub record AreInputs (config : PlannerConfig) (snapshots : Snapshots) (now_ns : ℤ)
    (legs : List OpportunityLeg) (items : List LegPlanInputs) : Type 0 where
  pub of_legs : map (λ item. item.leg) items ≡ legs
  pub inputs : All (IsInput config snapshots now_ns) items

module _ (config : PlannerConfig) (snapshots : Snapshots) (now_ns : ℤ) where
  plan_on-IsInput :
      (leg : OpportunityLeg) (snapshot : PricingSnapshot)
      → snapshots leg.market_id ≡ some snapshot
      → Ensures (IsInputOf config snapshots now_ns leg) (plan_on config leg snapshot now_ns)
  unfolding plan_on
  plan_on-IsInput leg snapshot found =
      Ensures-bind (validate_snapshot config leg snapshot now_ns) _ λ done is_valid.
        Ensures-bind (floor_div (touch_size leg.side snapshot) leg.quantity_ratio) _
          λ units is_units. Ensures-guard (leb_ℤ units (pos 0)) _ _ λ positive.
            Ensures-bind
              (compute_marketable_limit config leg snapshot (touch_price leg.side snapshot) now_ns)
              _
              λ limit is_limit.
                let fresh =
                  (validate_snapshot-IsFresh config leg snapshot now_ns).at done is_valid in
                Ensures-ok _ (record {
                  of_leg = refl;
                  input = record {
                    found = found;
                    fresh = fresh;
                    touch = refl;
                    has_size = ground (arith, positive);
                    available = λ ratio. ok-injective (
                        sym is_units
                        ∙ floor_div-returns (touch_size leg.side snapshot) leg.quantity_ratio
                            ratio);
                    protected =
                        marketable_limit-IsProtected config leg snapshot
                          (touch_price leg.side snapshot) now_ns fresh.positive_tick limit is_limit;
                  };
                })

  plan_found-IsInput :
      (leg : OpportunityLeg) (found : Option PricingSnapshot)
      → snapshots leg.market_id ≡ found
      → Ensures (IsInputOf config snapshots now_ns leg) (plan_found config now_ns leg found)
  plan_found-IsInput leg none e = Ensures-err _
  plan_found-IsInput leg (some snapshot) e = plan_on-IsInput leg snapshot e

  plan_leg-IsInput :
      (leg : OpportunityLeg)
      → Ensures (IsInputOf config snapshots now_ns leg) (plan_leg config snapshots now_ns leg)
  unfolding plan_leg
  plan_leg-IsInput leg = plan_found-IsInput leg (snapshots leg.market_id) refl

  pub leg_inputs-AreInputs :
      (legs : List OpportunityLeg)
      → Ensures (AreInputs config snapshots now_ns legs) (leg_inputs config snapshots now_ns legs)
  unfolding leg_inputs
  leg_inputs-AreInputs [] = Ensures-ok [] (record { of_legs = refl; inputs = tt })
  leg_inputs-AreInputs (leg ∷ legs) =
      Ensures-bind (plan_leg config snapshots now_ns leg) _ λ item is_item.
        Ensures-bind (leg_inputs config snapshots now_ns legs) _ λ items are_items.
          let one = (plan_leg-IsInput leg).at item is_item in
          let rest = (leg_inputs-AreInputs legs).at items are_items in
          Ensures-ok (item ∷ items) (record { of_legs = cc; inputs = (one.input, rest.inputs) })

-- The ratios of validated legs are positive.
positive_of_open :
    (items : List LegPlanInputs)
    → All IsOpenLeg (map (λ item. item.leg) items)
    → All (λ ratio. pos 0 <ℤ ratio) (ratios items)
positive_of_open [] h = tt
positive_of_open (item ∷ items) h = (h.0.positive_ratio, positive_of_open items h.1)

pub ratios-positive :
    (items : List LegPlanInputs) (legs : List OpportunityLeg)
    → map (λ item. item.leg) items ≡ legs
    → All IsOpenLeg legs
    → All (λ ratio. pos 0 <ℤ ratio) (ratios items)
ratios-positive items legs same h = positive_of_open items (subst (All IsOpenLeg) (sym same) h)
