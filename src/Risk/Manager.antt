-- ===== src/Risk/Manager.antt =====
-- executor/risk.py: the state of ExecutionRiskManager, its construction and its kill switches. What
-- it logs and counts for metrics is output and is left out.
use polymarket_trade_executo.Common.{
  String, Bool, true, false, not, ◌&&◌, ◌||◌, Option, none, some, List, [], ◌∷◌, Result, ok, ◌>>◌,
  raise_if, ◌==◌, string_eq, if◌then◌else◌,
}
use polymarket_trade_executo.Common.Int.{ℤ, pos, ◌*ℤ◌, leb_ℤ, ltb_ℤ}
use polymarket_trade_executo.Common.Float.{finite, float_leb}
use polymarket_trade_executo.Common.Dict.{Dict}
use polymarket_trade_executo.Planner.Types.{ns_per_ms}
use polymarket_trade_executo.Risk.Types.{
  RiskReasonCode, RiskText, RiskDecision, RiskManagerConfig, KillSwitchState, allow, deny,
}
use polymarket_trade_executo.Risk.Exposure.{InMemoryExposureTracker}
use polymarket_trade_executo.Risk.Counter.{RollingCounter}

pub record ExecutionRiskManager : Type 0 where
  pub config : RiskManagerConfig
  pub exposure : InMemoryExposureTracker
  pub manual_kill_active : Bool
  pub manual_kill_reason : Option RiskText
  pub auto_kill_active : Bool
  pub auto_kill_reason : Option RiskText
  pub kill_activated_ts_ns : Option ℤ
  pub active_relation_packages : Dict (List String)
  pub active_market_packages : Dict (List String)
  pub active_opportunity_to_package : Dict String
  pub relation_cooldowns : Dict ℤ
  pub market_cooldowns : Dict ℤ
  pub starts_counter : RollingCounter
  pub failures_counter : RollingCounter
  pub reject_counter : RollingCounter
  pub ambiguity_counter : RollingCounter
  pub stale_counter : RollingCounter
  pub daily_realized_pnl_cents : ℤ

-- the fields that must be positive, by name
abbrev pub positive_fields : RiskManagerConfig → Dict ℤ
positive_fields c =
    ("max_notional_per_package_cents", c.max_notional_per_package_cents)
    ∷ ("max_notional_per_market_cents", c.max_notional_per_market_cents)
    ∷ ("max_total_open_notional_cents", c.max_total_open_notional_cents)
    ∷ ("max_simultaneous_active_packages", c.max_simultaneous_active_packages)
    ∷ ("min_displayed_executable_size_shares", c.min_displayed_executable_size_shares)
    ∷ ("max_leg_snapshot_age_ms", c.max_leg_snapshot_age_ms)
    ∷ ("relation_cooldown_ms", c.relation_cooldown_ms)
    ∷ ("market_cooldown_ms", c.market_cooldown_ms)
    ∷ ("second_leg_timeout_ms", c.second_leg_timeout_ms)
    ∷ ("max_partial_fill_exposure_cents", c.max_partial_fill_exposure_cents)
    ∷ ("max_open_directional_imbalance_shares", c.max_open_directional_imbalance_shares)
    ∷ ("package_execution_deadline_ms", c.package_execution_deadline_ms)
    ∷ ("failure_rate_window_ms", c.failure_rate_window_ms)
    ∷ ("failure_rate_min_sample", c.failure_rate_min_sample)
    ∷ ("daily_loss_cap_cents", c.daily_loss_cap_cents)
    ∷ ("repeated_reject_threshold", c.repeated_reject_threshold)
    ∷ ("repeated_venue_ambiguity_threshold", c.repeated_venue_ambiguity_threshold)
    ∷ ("repeated_stale_data_threshold", c.repeated_stale_data_threshold)
    ∷ ("repeated_event_window_ms", c.repeated_event_window_ms)
    ∷ []

-- the loop of `_validate_config`; the error is the name of the field
unfoldable pub all_positive : Dict ℤ → Result String (Unit {0})
all_positive [] = ok tt
all_positive (entry ∷ fields) = raise_if (leb_ℤ entry.1 (pos 0)) entry.0 >> all_positive fields

-- `_validate_config`: the error is the name of the field that is out of range
unfoldable pub validate_risk_config : RiskManagerConfig → Result String (Unit {0})
validate_risk_config config = do
  all_positive (positive_fields config)
  raise_if (ltb_ℤ config.min_expected_net_profit_cents (pos 0)) "min_expected_net_profit_cents"
  raise_if
      (not (
        float_leb (finite (pos 0) 0) config.failure_rate_halt_threshold
        && float_leb config.failure_rate_halt_threshold (finite (pos 1) 0)))
      "failure_rate_halt_threshold"
  ok tt

abbrev pub empty_exposure : InMemoryExposureTracker
empty_exposure = record {
  active_packages = [];
  total_open_notional_cents = pos 0;
  open_notional_by_market_cents = [];
  open_directional_imbalance_by_market = [];
}

abbrev pub counter_of : (window_ms : ℤ) → RollingCounter
counter_of window_ms = record { window_ns = window_ms *ℤ ns_per_ms; timestamps = [] }

-- the state that the constructor makes of a valid configuration
abbrev pub initial_manager : RiskManagerConfig → ExecutionRiskManager
initial_manager config = record {
  config = config;
  exposure = empty_exposure;
  manual_kill_active = false;
  manual_kill_reason = none;
  auto_kill_active = false;
  auto_kill_reason = none;
  kill_activated_ts_ns = none;
  active_relation_packages = [];
  active_market_packages = [];
  active_opportunity_to_package = [];
  relation_cooldowns = [];
  market_cooldowns = [];
  starts_counter = counter_of config.failure_rate_window_ms;
  failures_counter = counter_of config.failure_rate_window_ms;
  reject_counter = counter_of config.repeated_event_window_ms;
  ambiguity_counter = counter_of config.repeated_event_window_ms;
  stale_counter = counter_of config.repeated_event_window_ms;
  daily_realized_pnl_cents = pos 0;
}

unfoldable pub new_manager : RiskManagerConfig → Result String ExecutionRiskManager
new_manager config = do validate_risk_config config; ok (initial_manager config)

abbrev pub is_trading_halted : ExecutionRiskManager → Bool
is_trading_halted m = m.manual_kill_active || m.auto_kill_active

abbrev pub kill_switch_state : ExecutionRiskManager → KillSwitchState
kill_switch_state m = record {
  manual_active = m.manual_kill_active;
  auto_active = m.auto_kill_active;
  manual_reason = m.manual_kill_reason;
  auto_reason = m.auto_kill_reason;
  activated_ts_ns = m.kill_activated_ts_ns;
}

-- `reason or default`
abbrev pub reason_or : (reason default : String) → RiskText
reason_or reason default = if reason == "" then RiskText.given default else RiskText.given reason

unfoldable pub activate_manual_kill_switch :
    ExecutionRiskManager → (reason : String) (now_ns : ℤ) → ExecutionRiskManager × RiskDecision
activate_manual_kill_switch m reason now_ns =
    let text = reason_or reason "manual kill switch" in
    (
      record m {
        manual_kill_active = true;
        manual_kill_reason = some text;
        kill_activated_ts_ns = some now_ns;
      },
      deny RiskReasonCode.manual_kill_switch text now_ns none none false true,
    )

unfoldable pub clear_manual_kill_switch :
    ExecutionRiskManager → (now_ns : ℤ) → ExecutionRiskManager × RiskDecision
clear_manual_kill_switch m now_ns = (
  record m {
    manual_kill_active = false;
    manual_kill_reason = none;
    kill_activated_ts_ns = if not m.auto_kill_active then none else m.kill_activated_ts_ns;
  },
  allow now_ns (RiskText.given "manual kill switch cleared"),
)

unfoldable pub clear_auto_kill_switch :
    ExecutionRiskManager → (now_ns : ℤ) → ExecutionRiskManager × RiskDecision
clear_auto_kill_switch m now_ns = (
  record m {
    auto_kill_active = false;
    auto_kill_reason = none;
    kill_activated_ts_ns = if not m.manual_kill_active then none else m.kill_activated_ts_ns;
  },
  allow now_ns (RiskText.given "auto kill switch cleared"),
)

unfoldable pub trigger_auto_kill :
    ExecutionRiskManager
    → RiskReasonCode
    → RiskText
    → (now_ns : ℤ) → ExecutionRiskManager × RiskDecision
trigger_auto_kill m code reason now_ns =
    if not m.config.enable_auto_kill_switch
    then (m, deny code reason now_ns none none false false)
    else (
      record m {
        auto_kill_active = true;
        auto_kill_reason = some reason;
        kill_activated_ts_ns = some now_ns;
      },
      deny code reason now_ns none none false true,
    )
