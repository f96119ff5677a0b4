-- ===== src/Planner/Built.antt =====
-- `_build_plan` of executor/planner.py: the plan that it returns.
use polymarket_trade_executo.Common.{
  ◌≡◌, refl, sym, ap, arith, List, ok-injective, ◌∙◌, Ensures, Ensures-ok, Ensures-guard,
  Ensures-bind,
}
use polymarket_trade_executo.Common.Int.{
  ℤ, pos, ◌+ℤ◌, ◌-ℤ◌, ◌*ℤ◌, ◌/ℤ◌, ◌≤ℤ◌, ◌<ℤ◌, ltb_ℤ, leb_ℤ, min_ℤ, +ℤ_parts, eq_of_parts,
}
use polymarket_trade_executo.Planner.Types.{
  Opportunity, PlannerConfig, ExecutionPlan, LegPlanInputs, bps_scale, ns_per_ms,
}
use polymarket_trade_executo.Planner.Prices.{floor_div}
use polymarket_trade_executo.Planner.Units.{sum_of}
use polymarket_trade_executo.Planner.Build.{
  signed_by, leg_notional, add_legs, no_totals, sorted, planned_legs, build_plan,
}
use polymarket_trade_executo.Planner.Rounding.{floor_div-returns}
use polymarket_trade_executo.Planner.Totals.{total, AreFees, add_legs-AreTotals}

-- What the plan says of its legs' inputs, and the tests that it passed.
pub record IsBuilt (config : PlannerConfig) (opportunity : Opportunity) (items : List LegPlanInputs)
    (units now_ns : ℤ) (p : ExecutionPlan) : Type 0 where
  pub legs : p.legs ≡ planned_legs config units (pos 1) (sorted items)
  pub units_kept : p.package_units ≡ units
  pub notional : p.total_notional_cents ≡ total (leg_notional units) items
  pub shares : p.total_shares ≡ total (λ item. units *ℤ item.leg.quantity_ratio) items
  pub gross :
      p.expected_gross_profit_cents
      ≡ total (λ item. signed_by item.leg.side (leg_notional units item)) items
  pub fees :
      (fees : List ℤ) × AreFees config units items fees
      × (p.expected_fee_cents ≡ sum_of fees +ℤ config.fixed_cost_cents)
  pub net : p.expected_net_profit_cents ≡ p.expected_gross_profit_cents -ℤ p.expected_fee_cents
  pub edge :
      p.expected_net_edge_bps ≡ p.expected_net_profit_cents *ℤ bps_scale /ℤ p.total_notional_cents
  pub positive_notional : pos 0 <ℤ p.total_notional_cents
  pub enough_profit : config.min_expected_profit_cents ≤ℤ p.expected_net_profit_cents
  pub enough_edge : config.min_expected_edge_bps ≤ℤ p.expected_net_edge_bps
  pub lives : now_ns <ℤ p.expires_at_ns
  pub within_opportunity : p.expires_at_ns ≤ℤ opportunity.expires_at_ns
  pub within_ttl : p.expires_at_ns ≤ℤ now_ns +ℤ config.plan_ttl_ms *ℤ ns_per_ms

zero_+ℤ : (a : ℤ) → pos 0 +ℤ a ≡ a
zero_+ℤ a = eq_of_parts _ _ (omega (arith, +ℤ_parts (pos 0) a))

pub build_plan-IsBuilt :
    (config : PlannerConfig) (opportunity : Opportunity) (items : List LegPlanInputs)
    (units now_ns : ℤ)
    → Ensures
        (IsBuilt config opportunity items units now_ns)
        (build_plan config opportunity items units now_ns)
unfolding build_plan
build_plan-IsBuilt config opportunity items units now_ns =
    Ensures-bind (add_legs config units no_totals items) _ λ t is_totals.
      let fee_cents = t.fee_cents +ℤ config.fixed_cost_cents in
      let net_profit = t.gross_profit -ℤ fee_cents in
      Ensures-guard (leb_ℤ t.total_notional (pos 0)) _ _ λ positive.
        Ensures-bind (floor_div (net_profit *ℤ bps_scale) t.total_notional) _ λ edge is_edge.
          Ensures-guard (ltb_ℤ net_profit config.min_expected_profit_cents) _ _ λ profit.
            Ensures-guard (ltb_ℤ edge config.min_expected_edge_bps) _ _ λ enough.
              let expiry =
                min_ℤ opportunity.expires_at_ns (now_ns +ℤ config.plan_ttl_ms *ℤ ns_per_ms) in
              Ensures-guard (leb_ℤ expiry now_ns) _ _ λ alive.
                let sums = (add_legs-AreTotals config units items no_totals).at t is_totals in
                let (fees, are_fees, fee_sum) = sums.fees in
                let above_zero : pos 0 <ℤ t.total_notional = ground (arith, positive) in
                Ensures-ok _ (record {
                  legs = refl;
                  units_kept = refl;
                  notional = sums.notional ∙ zero_+ℤ _;
                  shares = sums.shares ∙ zero_+ℤ _;
                  gross = sums.profit ∙ zero_+ℤ _;
                  fees = (
                    fees,
                    are_fees,
                    ap (λ f. f +ℤ config.fixed_cost_cents) (fee_sum ∙ zero_+ℤ _),
                  );
                  net = refl;
                  edge = ok-injective (
                      sym is_edge
                      ∙ floor_div-returns (net_profit *ℤ bps_scale) t.total_notional above_zero);
                  positive_notional = above_zero;
                  enough_profit = ground (arith, profit);
                  enough_edge = ground (arith, enough);
                  lives = ground (arith, alive);
                  within_opportunity = ground arith;
                  within_ttl = ground arith;
                })
