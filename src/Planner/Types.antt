-- ===== src/Planner/Types.antt =====
-- executor/planner.py: the opportunity, the book snapshot, the plan, the configuration and the
-- decision. The text of a rejection is a constructor that carries the values it prints.
use polymarket_trade_executo.Common.{String, Bool, Option, List}
use polymarket_trade_executo.Common.Int.{ℤ}
use polymarket_trade_executo.Common.Float.{Float}
use polymarket_trade_executo.StateMachine.Types.{Side, TimeInForce}

pub data PlannerRejectCode : Type 0 where
  invalid_opportunity opportunity_expired low_confidence missing_snapshot : PlannerRejectCode
  stale_snapshot uncertain_snapshot invalid_book price_protection : PlannerRejectCode
  insufficient_size share_cap_exceeded notional_out_of_bounds : PlannerRejectCode
  profit_below_threshold edge_below_threshold : PlannerRejectCode

-- what the texts of a rejection say
pub data RejectReason : Type 0 where
  opportunity_id_required leg_required opportunity_already_expired : RejectReason
  confidence_below : (confidence minimum : Float) → RejectReason
  unit_bounds_not_positive min_units_exceed_max : RejectReason
  duplicate_leg_id ratio_not_positive reference_not_positive no_token : String → RejectReason
  missing_market : (market_id : String) → RejectReason
  market_mismatch : (leg_id expected got : String) → RejectReason
  uncertain future tick_not_positive invalid_top : (leg_id : String) → RejectReason
  stale : (leg_id : String) (age_ms max_ms : ℤ) → RejectReason
  crossed : (leg_id : String) (bid ask : ℤ) → RejectReason
  displayed_too_small : (leg_id : String) (displayed ratio : ℤ) → RejectReason
  buy_protection sell_protection : (leg_id : String) (limit touch : ℤ) → RejectReason
  invalid_units min_exceeds_max one_unit_too_dear notional_zero : RejectReason
  target_exceeds_liquidity below_minimum shares_exceed_cap : (units limit : ℤ) → RejectReason
  notional_exceeds_cap final_below_minimum notional_below : (units limit : ℤ) → RejectReason
  profit_below edge_below : (value threshold : ℤ) → RejectReason
  expiry_elapsed : RejectReason

pub record PlannerRejection : Type 0 where
  pub code : PlannerRejectCode
  pub reason : RejectReason
  pub ts_ns : ℤ
  pub leg_id : Option String

pub record OpportunityLeg : Type 0 where
  pub leg_id : String
  pub market_id : String
  pub token_id : String
  pub side : Side
  pub quantity_ratio : ℤ
  pub reference_price_ticks : ℤ
  pub max_slippage_bps : Option ℤ
  pub fee_bps : ℤ
  pub order_timeout_ms : Option ℤ

pub record Opportunity : Type 0 where
  pub opportunity_id : String
  pub detected_ts_ns : ℤ
  pub expires_at_ns : ℤ
  pub expected_edge_bps : ℤ
  pub confidence : Float
  pub target_package_units : ℤ
  pub min_package_units : ℤ
  pub max_package_units : ℤ
  pub legs : List OpportunityLeg

pub record PricingSnapshot : Type 0 where
  pub market_id : String
  pub ts_ns : ℤ
  pub best_bid_ticks : ℤ
  pub best_bid_size : ℤ
  pub best_ask_ticks : ℤ
  pub best_ask_size : ℤ
  pub tick_size_ticks : ℤ
  pub is_uncertain : Bool

pub record PlannedLeg : Type 0 where
  pub leg_id : String
  pub market_id : String
  pub token_id : String
  pub side : Side
  pub submission_rank : ℤ
  pub quantity : ℤ
  pub executable_price_ticks : ℤ
  pub limit_price_ticks : ℤ
  pub tick_size_ticks : ℤ
  pub timeout_ms : ℤ
  pub tif : TimeInForce
  pub snapshot_ts_ns : ℤ
  pub available_units_at_plan : ℤ

pub record ExecutionPlan : Type 0 where
  pub plan_id : String
  pub opportunity_id : String
  pub created_ts_ns : ℤ
  pub expires_at_ns : ℤ
  pub package_timeout_ms : ℤ
  pub package_units : ℤ
  pub tif : TimeInForce
  pub total_shares : ℤ
  pub total_notional_cents : ℤ
  pub expected_gross_profit_cents : ℤ
  pub expected_fee_cents : ℤ
  pub expected_net_profit_cents : ℤ
  pub expected_net_edge_bps : ℤ
  pub legs : List PlannedLeg

pub record PlannerConfig : Type 0 where
  pub aggressiveness_bps : ℤ
  pub max_cross_bps_from_touch : ℤ
  pub default_max_slippage_bps : ℤ
  pub max_snapshot_age_ms : ℤ
  pub min_confidence : Float
  pub scale_down_to_common_size : Bool
  pub min_expected_profit_cents : ℤ
  pub min_expected_edge_bps : ℤ
  pub additional_cost_bps : ℤ
  pub fixed_cost_cents : ℤ
  pub default_leg_timeout_ms : ℤ
  pub package_timeout_ms : ℤ
  pub plan_ttl_ms : ℤ
  pub min_total_notional_cents : ℤ
  pub max_total_notional_cents : ℤ
  pub min_package_units : ℤ
  pub max_package_units : ℤ
  pub max_shares_per_leg : ℤ
  pub max_total_shares : ℤ
  pub tif : TimeInForce
  pub reject_crossed_book : Bool

pub record PlannerDecision : Type 0 where
  pub plan : Option ExecutionPlan
  pub rejection : Option PlannerRejection

-- what the planner knows of one leg when it builds the plan
pub record LegPlanInputs : Type 0 where
  pub leg : OpportunityLeg
  pub snapshot : PricingSnapshot
  pub executable_price_ticks : ℤ
  pub limit_price_ticks : ℤ
  pub available_units : ℤ

-- How a call ends early: with a decision that `plan` returns at once, or with an exception of
-- Python's own (`//` by zero, `min` of an empty sequence).
pub data Stop : Type 0 where
  decided : PlannerDecision → Stop
  zero_division empty_min : Stop

abbrev pub bps_scale : ℤ
bps_scale = ℤ.pos 10000

abbrev pub ns_per_ms : ℤ
ns_per_ms = ℤ.pos 1000000
