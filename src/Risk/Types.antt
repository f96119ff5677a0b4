-- ===== src/Risk/Types.antt =====
-- executor/risk.py: reason codes, decisions, the configuration, requests and the kill switch state.
-- The text of a decision is a constructor that carries the values it prints.
use polymarket_trade_executo.Common.{ℕ, String, Bool, true, false, Option, none}
use polymarket_trade_executo.Common.Int.{ℤ}
use polymarket_trade_executo.Common.Float.{Float}
use polymarket_trade_executo.Planner.Types.{ExecutionPlan}

pub data RiskReasonCode : Type 0 where
  manual_kill_switch auto_kill_switch max_notional_per_package : RiskReasonCode
  max_notional_per_market max_total_open_notional max_active_packages : RiskReasonCode
  min_expected_net_profit min_displayed_executable_size stale_leg_data : RiskReasonCode
  duplicate_package conflicting_active_package relation_cooldown_active : RiskReasonCode
  market_cooldown_active second_leg_timeout max_partial_fill_exposure : RiskReasonCode
  max_open_directional_imbalance package_execution_deadline failure_rate_spike : RiskReasonCode
  daily_loss_cap repeated_reject_threshold repeated_venue_ambiguity_threshold : RiskReasonCode
  repeated_stale_data_threshold invalid_request : RiskReasonCode

-- what the texts of a decision say; `given` is a text as it stands
pub data RiskText : Type 0 where
  given : String → RiskText
  relation_cools market_cools : (id : String) (until : ℤ) → RiskText
  package_active opportunity_active relation_active market_conflict : String → RiskText
  package_cap : (active : ℕ) (cap : ℤ) → RiskText
  profit_below package_notional total_notional : (value bound : ℤ) → RiskText
  market_notional : (market_id : String) (value bound : ℤ) → RiskText
  stale_count reject_count : (seen : ℕ) (threshold : ℤ) → RiskText
  ambiguity_count : (seen : ℕ) (threshold : ℤ) (detail : String) → RiskText
  leg_stale : (leg_id : String) (age_ms limit_ms : ℤ) → RiskText
  displayed_below : (leg_id : String) (shares minimum : ℤ) → RiskText
  failure_rate : (failures starts : ℕ) (threshold : Float) → RiskText
  daily_loss partial_exposure : (value cap : ℤ) → RiskText
  imbalance : (value : ℤ) (market_id : String) (cap : ℤ) → RiskText
  timeout_after_fill : (package_id : String) → RiskText
  deadline_exceeded second_leg_exceeded : (package_id : String) (bound : ℤ) → RiskText

pub record RiskDecision : Type 0 where
  pub allowed : Bool
  pub code : Option RiskReasonCode
  pub reason : RiskText
  pub ts_ns : ℤ
  pub package_id : Option String
  pub relation_id : Option String
  pub should_abort_package : Bool
  pub should_halt_trading : Bool

-- `RiskDecision.allow`
abbrev pub allow : (ts_ns : ℤ) (reason : RiskText) → RiskDecision
allow ts_ns reason = record {
  allowed = true;
  code = none;
  reason = reason;
  ts_ns = ts_ns;
  package_id = none;
  relation_id = none;
  should_abort_package = false;
  should_halt_trading = false;
}

-- `RiskDecision.deny`, its keywords in their order
abbrev pub deny :
    RiskReasonCode
    → RiskText
    → (ts_ns : ℤ) (package_id relation_id : Option String)
      (should_abort_package should_halt_trading : Bool)
    → RiskDecision
deny code reason ts_ns package_id relation_id should_abort_package should_halt_trading = record {
  allowed = false;
  code = Option.some code;
  reason = reason;
  ts_ns = ts_ns;
  package_id = package_id;
  relation_id = relation_id;
  should_abort_package = should_abort_package;
  should_halt_trading = should_halt_trading;
}

pub record RiskManagerConfig : Type 0 where
  pub max_notional_per_package_cents : ℤ
  pub max_notional_per_market_cents : ℤ
  pub max_total_open_notional_cents : ℤ
  pub max_simultaneous_active_packages : ℤ
  pub min_expected_net_profit_cents : ℤ
  pub min_displayed_executable_size_shares : ℤ
  pub max_leg_snapshot_age_ms : ℤ
  pub block_conflicting_markets : Bool
  pub relation_cooldown_ms : ℤ
  pub market_cooldown_ms : ℤ
  pub second_leg_timeout_ms : ℤ
  pub max_partial_fill_exposure_cents : ℤ
  pub max_open_directional_imbalance_shares : ℤ
  pub package_execution_deadline_ms : ℤ
  pub failure_rate_window_ms : ℤ
  pub failure_rate_halt_threshold : Float
  pub failure_rate_min_sample : ℤ
  pub enable_auto_kill_switch : Bool
  pub daily_loss_cap_cents : ℤ
  pub repeated_reject_threshold : ℤ
  pub repeated_venue_ambiguity_threshold : ℤ
  pub repeated_stale_data_threshold : ℤ
  pub repeated_event_window_ms : ℤ

pub record PreTradeRiskRequest : Type 0 where
  pub package_id : String
  pub relation_id : String
  pub plan : ExecutionPlan

pub record KillSwitchState : Type 0 where
  pub manual_active : Bool
  pub auto_active : Bool
  pub manual_reason : Option RiskText
  pub auto_reason : Option RiskText
  pub activated_ts_ns : Option ℤ
