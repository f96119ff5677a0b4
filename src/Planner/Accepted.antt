-- ===== src/Planner/Accepted.antt =====
-- `plan` of executor/planner.py: where an accepted plan comes from.
use polymarket_trade_executo.Common.{List, Ensures, Ensures-bind}
use polymarket_trade_executo.Common.Int.{ℤ}
use polymarket_trade_executo.Planner.Types.{
  Opportunity, PlannerConfig, ExecutionPlan, LegPlanInputs,
}
use polymarket_trade_executo.Planner.Checks.{validate_opportunity}
use polymarket_trade_executo.Planner.Units.{choose_package_units}
use polymarket_trade_executo.Planner.Plan.{Snapshots, leg_inputs, plan_steps}
use polymarket_trade_executo.Planner.Passed.{IsOpen, validate_opportunity-IsOpen}
use polymarket_trade_executo.Planner.Inputs.{AreInputs, leg_inputs-AreInputs, ratios-positive}
use polymarket_trade_executo.Planner.Caps.{IsChosen, choose-IsChosen}
use polymarket_trade_executo.Planner.Built.{IsBuilt, build_plan-IsBuilt}

pub record IsPlanned (config : PlannerConfig) (opportunity : Opportunity) (snapshots : Snapshots)
    (now_ns : ℤ) (p : ExecutionPlan) : Type 0 where
  pub is_open : IsOpen config opportunity now_ns
  pub items : List LegPlanInputs
  pub inputs : AreInputs config snapshots now_ns opportunity.legs items
  pub units : ℤ
  pub chosen : IsChosen config opportunity items units
  pub built : IsBuilt config opportunity items units now_ns p

module _ (config : PlannerConfig) (opportunity : Opportunity) (snapshots : Snapshots)
    (now_ns : ℤ) where
  pub plan_steps-IsPlanned :
      Ensures
        (IsPlanned config opportunity snapshots now_ns)
        (plan_steps config opportunity snapshots now_ns)
  unfolding plan_steps
  plan_steps-IsPlanned =
      Ensures-bind (validate_opportunity config opportunity now_ns) _ λ done is_valid.
        Ensures-bind (leg_inputs config snapshots now_ns opportunity.legs) _ λ items are_items.
          Ensures-bind (choose_package_units config opportunity items now_ns) _ λ units are_units.
            let is_open =
              (validate_opportunity-IsOpen config opportunity now_ns).at done is_valid in
            let inputs =
              (leg_inputs-AreInputs config snapshots now_ns opportunity.legs).at items are_items in
            let positive =
              ratios-positive items opportunity.legs inputs.of_legs is_open.open_legs in
            record {
              at = λ p is_built. record {
                is_open = is_open;
                items = items;
                inputs = inputs;
                units = units;
                chosen =
                    (choose-IsChosen config opportunity items now_ns positive).at units are_units;
                built = (build_plan-IsBuilt config opportunity items units now_ns).at p is_built;
              };
            }
