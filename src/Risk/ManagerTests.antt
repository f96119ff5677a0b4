-- ===== src/Risk/ManagerTests.antt =====
-- Runs of the risk manager of executor/risk.py, and its theorems there.
use polymarket_trade_executo.Common.{◌≡◌, refl, true, false, none, some, List, [], ◌∷◌, ok, arith}
use polymarket_trade_executo.Common.Int.{ℤ, pos, ◌+ℤ◌, ◌-ℤ◌, ◌*ℤ◌, ◌/ℤ◌}
use polymarket_trade_executo.Common.Float.{finite, float_leb}
use polymarket_trade_executo.Common.Dict.{get}
use polymarket_trade_executo.Common.Lists.{length}
use polymarket_trade_executo.StateMachine.Tables.{is_terminal_package}
use polymarket_trade_executo.Risk.Halted.{calls-halted}
use polymarket_trade_executo.Risk.Closed.{on_state_event-closes}
use polymarket_trade_executo.StateMachine.Types.{Side, TimeInForce, PackageState, PackageExecution}
use polymarket_trade_executo.StateMachine.Events.{StateMachineEvent}
use polymarket_trade_executo.Planner.Types.{PlannedLeg, ExecutionPlan}
use polymarket_trade_executo.Risk.Types.{
  RiskManagerConfig, PreTradeRiskRequest, RiskReasonCode, RiskDecision,
}
use polymarket_trade_executo.Risk.Exposure.{add_each, reserve_unless, reserve_package}
use polymarket_trade_executo.Risk.Counter.{add, count, trim, drop_below}
use polymarket_trade_executo.Risk.Manager.{
  ExecutionRiskManager, all_positive, validate_risk_config, initial_manager, new_manager,
  is_trading_halted, trigger_auto_kill,
}
use polymarket_trade_executo.Risk.PreTrade.{
  SetOrder, add_notionals, trading_block_reject, validate_request, check_market_cooldowns,
  check_market_conflicts, check_market_notionals, check_activity, check_amounts, check_request,
  reject_stale, check_leg_freshness, validate_pre_trade,
}
use polymarket_trade_executo.Risk.Register.{
  leg_states, build_active_package_state, add_at_each, index_package, register_allowed,
  register_package, close_package,
}
use polymarket_trade_executo.Risk.Watch.{
  on_state_event, evaluate_active_risk, record_venue_ambiguity,
}
use polymarket_trade_executo.Risk.Evaluated.{evaluate_active_risk_again}
use polymarket_trade_executo.Risk.Allowed.{IsAllowed, validate_pre_trade-IsAllowed}
use polymarket_trade_executo.Risk.Registered.{
  RegisterOutcome, register_package-returns, register_package-halted,
}
use polymarket_trade_executo.Risk.Kept.{IsSafe}
use polymarket_trade_executo.Risk.History.{RiskCall, call, calls, new_manager-calls}

abbrev config : RiskManagerConfig
config = record {
  max_notional_per_package_cents = pos 1000;
  max_notional_per_market_cents = pos 800;
  max_total_open_notional_cents = pos 1500;
  max_simultaneous_active_packages = pos 2;
  min_expected_net_profit_cents = pos 10;
  min_displayed_executable_size_shares = pos 5;
  max_leg_snapshot_age_ms = pos 100;
  block_conflicting_markets = true;
  relation_cooldown_ms = pos 5;
  market_cooldown_ms = pos 5;
  second_leg_timeout_ms = pos 10;
  max_partial_fill_exposure_cents = pos 300;
  max_open_directional_imbalance_shares = pos 8;
  package_execution_deadline_ms = pos 50;
  failure_rate_window_ms = pos 1000;
  failure_rate_halt_threshold = finite (pos 1) 1;
  failure_rate_min_sample = pos 2;
  enable_auto_kill_switch = true;
  daily_loss_cap_cents = pos 400;
  repeated_reject_threshold = pos 2;
  repeated_venue_ambiguity_threshold = pos 1;
  repeated_stale_data_threshold = pos 2;
  repeated_event_window_ms = pos 1000;
}

abbrev order : SetOrder
order ids = ids

abbrev leg : PlannedLeg
leg = record {
  leg_id = "a";
  market_id = "m";
  token_id = "t";
  side = Side.buy;
  submission_rank = pos 1;
  quantity = pos 10;
  executable_price_ticks = pos 45;
  limit_price_ticks = pos 45;
  tick_size_ticks = pos 1;
  timeout_ms = pos 800;
  tif = TimeInForce.ioc;
  snapshot_ts_ns = pos 100;
  available_units_at_plan = pos 20;
}

abbrev plan : ExecutionPlan
plan = record {
  plan_id = "o:100";
  opportunity_id = "o";
  created_ts_ns = pos 100;
  expires_at_ns = pos 90000000;
  package_timeout_ms = pos 60;
  package_units = pos 10;
  tif = TimeInForce.ioc;
  total_shares = pos 10;
  total_notional_cents = pos 450;
  expected_gross_profit_cents = pos 30;
  expected_fee_cents = pos 0;
  expected_net_profit_cents = pos 30;
  expected_net_edge_bps = pos 600;
  legs = leg ∷ [];
}

abbrev request : PreTradeRiskRequest
request = record { package_id = "p"; relation_id = "r"; plan = plan }

abbrev filled : StateMachineEvent
filled = StateMachineEvent.venue_fill (record {
  package_id = "p";
  leg_id = "a";
  client_order_id = "c";
  fill_qty = pos 10;
  fill_price_ticks = pos 45;
  ts_ns = pos 290;
  cumulative_qty = none;
})

abbrev open_package : PackageExecution
open_package = record {
  package_id = "p";
  opportunity_id = "o";
  created_ts_ns = pos 200;
  updated_ts_ns = pos 290;
  state = PackageState.executing;
  intended_leg_ids = [];
  legs = [];
  failure_reason = none;
}

abbrev done : PackageExecution
done = record open_package { state = PackageState.completed }

closed_state : is_terminal_package done.state ≡ true
unfolding is_terminal_package
closed_state = refl

abbrev fresh : ExecutionRiskManager
fresh = initial_manager config

-- opens what the runs call
unfoldable run : ExecutionRiskManager → ℤ → ExecutionRiskManager × RiskDecision
unfolding validate_pre_trade check_request trading_block_reject validate_request
    check_market_cooldowns check_market_conflicts check_market_notionals check_activity
    check_amounts reject_stale check_leg_freshness add_notionals add count trim drop_below
    trigger_auto_kill record_venue_ambiguity register_package register_allowed
    build_active_package_state leg_states reserve_package reserve_unless add_each index_package
    add_at_each call calls new_manager validate_risk_config all_positive float_leb ◌+ℤ◌ ◌-ℤ◌ ◌*ℤ◌
    ◌/ℤ◌
run m now_ns = validate_pre_trade m order request now_ns

made : new_manager config ≡ ok fresh
unfolding run
made = refl

allowed : (validate_pre_trade fresh order request (pos 200)).1.allowed ≡ true
unfolding run
allowed = refl

-- One ambiguity is enough for this configuration, and halts.
abbrev halted : ExecutionRiskManager
halted = (record_venue_ambiguity fresh (pos 150) "timeout").0

halts : is_trading_halted halted ≡ true
unfolding run
halts = refl

-- A snapshot from the future is stale.
stale :
    (validate_pre_trade fresh order request (pos 99)).1.code ≡ some RiskReasonCode.stale_leg_data
unfolding run
stale = refl

validate_pre_trade-IsAllowed_example : IsAllowed fresh request (pos 200) order
validate_pre_trade-IsAllowed_example =
    validate_pre_trade-IsAllowed fresh request (pos 200) order allowed

register_package-returns_example :
    (r : ExecutionRiskManager × RiskDecision) × (register_package fresh order request (pos 200)
      ≡ ok r)
    × RegisterOutcome fresh order request (pos 200) r.1.allowed r.0
register_package-returns_example = register_package-returns fresh order request (pos 200)

register_package-halted_example :
    (decision : RiskDecision) × (register_package halted order request (pos 200)
      ≡ ok (halted, decision))
    × (decision.allowed ≡ false)
    × (decision.should_halt_trading ≡ true)
register_package-halted_example = register_package-halted halted order request (pos 200) halts

calls-halted_example :
    (let m =
        calls order halted
          (RiskCall.register request (pos 200) ∷ RiskCall.rebuild [] [] (pos 300) ∷ []) in
      (decision : RiskDecision) × (is_trading_halted m ≡ true)
      × (register_package m order request (pos 400) ≡ ok (m, decision))
      × (decision.allowed ≡ false))
calls-halted_example =
    calls-halted order halted
      (RiskCall.register request (pos 200) ∷ RiskCall.rebuild [] [] (pos 300) ∷ []) request
      (pos 400) halts (tt, (tt, tt))

abbrev history : List RiskCall
history =
    RiskCall.register request (pos 200)
    ∷ RiskCall.state_event open_package filled (pos 300)
    ∷ RiskCall.evaluate (pos 90000001)
    ∷ RiskCall.close "p" (pos 90000002) false none
    ∷ []

new_manager-calls_example : IsSafe config (calls order fresh history)
new_manager-calls_example =
    new_manager-calls config order fresh history made (omega arith, (tt, (tt, (tt, tt))))

abbrev registered : ExecutionRiskManager
registered = calls order fresh (RiskCall.register request (pos 200) ∷ [])

active_packages_after :
    (length registered.exposure.active_packages ≡ 1)
    × (registered.exposure.total_open_notional_cents ≡ pos 450)
unfolding run
active_packages_after = (refl, refl)

on_state_event-closes_example :
    (let m = (on_state_event registered done filled (pos 300)).0 in
      (get m.exposure.active_packages "p" ≡ none)
      × (close_package m "p" (pos 400) true none ≡ (m, [])))
on_state_event-closes_example =
    on_state_event-closes registered done filled (pos 300) (pos 400) true none closed_state

evaluate_active_risk_again_example :
    (let m = (evaluate_active_risk registered (pos 90000001)).0 in
      evaluate_active_risk m (pos 90000001) ≡ (m, []))
evaluate_active_risk_again_example = evaluate_active_risk_again registered (pos 90000001)
