-- ===== src/Planner/Passed.antt =====
-- What an opportunity and a snapshot satisfy when the checks of executor/planner.py let them pass.
use polymarket_trade_executo.Common.{
  String, ◌≡◌, ◌≢◌, arith, true, false, List, [], ◌∷◌, string_eq, eq_iff, Ensures, Ensures-ok,
}
use polymarket_trade_executo.Common.Int.{ℤ, pos, ◌-ℤ◌, ◌*ℤ◌, ◌≤ℤ◌, ◌<ℤ◌, -ℤ_parts}
use polymarket_trade_executo.Common.Float.{float_ltb}
use polymarket_trade_executo.Common.Lists.{All, is_empty}
use polymarket_trade_executo.Planner.Types.{
  OpportunityLeg, Opportunity, PricingSnapshot, PlannerConfig, ns_per_ms,
}
use polymarket_trade_executo.Planner.Checks.{validate_legs, validate_opportunity, validate_snapshot}

pub record IsOpenLeg (leg : OpportunityLeg) : Type 0 where
  pub positive_ratio : pos 0 <ℤ leg.quantity_ratio
  pub positive_reference : pos 0 <ℤ leg.reference_price_ticks
  pub has_token : leg.token_id ≢ ""

pub record IsOpen (config : PlannerConfig) (opportunity : Opportunity) (now_ns : ℤ) : Type 0 where
  pub not_expired : now_ns <ℤ opportunity.expires_at_ns
  pub confident : float_ltb opportunity.confidence config.min_confidence ≡ false
  pub positive_target : pos 0 <ℤ opportunity.target_package_units
  pub positive_min : pos 0 <ℤ opportunity.min_package_units
  pub ordered_bounds : opportunity.min_package_units ≤ℤ opportunity.max_package_units
  pub has_legs : is_empty opportunity.legs ≡ false
  pub open_legs : All IsOpenLeg opportunity.legs

pub record IsFresh (config : PlannerConfig) (leg : OpportunityLeg) (snapshot : PricingSnapshot)
    (now_ns : ℤ) : Type 0 where
  pub same_market : snapshot.market_id ≡ leg.market_id
  pub certain : snapshot.is_uncertain ≡ false
  pub not_future : snapshot.ts_ns ≤ℤ now_ns
  pub not_stale : now_ns -ℤ snapshot.ts_ns ≤ℤ config.max_snapshot_age_ms *ℤ ns_per_ms
  pub positive_tick : pos 0 <ℤ snapshot.tick_size_ticks
  pub positive_bid : pos 0 <ℤ snapshot.best_bid_ticks
  pub positive_ask : pos 0 <ℤ snapshot.best_ask_ticks
  pub not_crossed :
      config.reject_crossed_book ≡ true → snapshot.best_bid_ticks <ℤ snapshot.best_ask_ticks

validate_legs-IsOpenLeg :
    (seen : List String) (legs : List OpportunityLeg) (now_ns : ℤ)
    → Ensures (λ _. All IsOpenLeg legs) (validate_legs seen legs now_ns)
unfolding validate_legs
validate_legs-IsOpenLeg seen [] now_ns = Ensures-ok tt tt
validate_legs-IsOpenLeg seen (leg ∷ legs) now_ns = record {
  at = λ done e. (
    record {
      positive_ratio = ground arith;
      positive_reference = ground arith;
      has_token = λ empty. ground (arith, eq_iff leg.token_id "");
    },
    (validate_legs-IsOpenLeg (leg.leg_id ∷ seen) legs now_ns).at done (ground arith),
  );
}

pub validate_opportunity-IsOpen :
    (config : PlannerConfig) (opportunity : Opportunity) (now_ns : ℤ)
    → Ensures
        (λ _. IsOpen config opportunity now_ns)
        (validate_opportunity config opportunity now_ns)
unfolding validate_opportunity
validate_opportunity-IsOpen config opportunity now_ns = record {
  at = λ done e. record {
    not_expired = ground arith;
    confident = ground arith;
    positive_target = ground arith;
    positive_min = ground arith;
    ordered_bounds = ground arith;
    has_legs = ground arith;
    open_legs = (validate_legs-IsOpenLeg [] opportunity.legs now_ns).at done (ground arith);
  };
}

pub validate_snapshot-IsFresh :
    (config : PlannerConfig) (leg : OpportunityLeg) (snapshot : PricingSnapshot) (now_ns : ℤ)
    → Ensures
        (λ _. IsFresh config leg snapshot now_ns)
        (validate_snapshot config leg snapshot now_ns)
unfolding validate_snapshot
validate_snapshot-IsFresh config leg snapshot now_ns = record {
  at = λ done e. record {
    same_market = (eq_iff snapshot.market_id leg.market_id).0 (ground arith);
    certain = ground arith;
    not_future = ground (arith, -ℤ_parts now_ns snapshot.ts_ns);
    not_stale = ground arith;
    positive_tick = ground arith;
    positive_bid = ground arith;
    positive_ask = ground arith;
    not_crossed = λ on. ground arith;
  };
}
