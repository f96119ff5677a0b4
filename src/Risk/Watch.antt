-- ===== src/Risk/Watch.antt =====
-- executor/risk.py: on_state_event, evaluate_active_risk, record_venue_ambiguity, the recovery of the
-- manager, and apply_state_transition_with_risk.
use polymarket_trade_executo.Common.{
  String, Bool, true, false, not, ◌&&◌, Option, none, some, List, [], ◌∷◌, ◌++◌, Result, ok, ◌>>=◌,
  ◌==◌, string_eq, if◌then◌else◌,
}
use polymarket_trade_executo.Common.Int.{ℤ, pos, ◌-ℤ◌, ◌*ℤ◌, ◌/ℤ◌, leb_ℤ, ltb_ℤ, abs_ℤ}
use polymarket_trade_executo.Common.Dict.{Dict, get, get_or}
use polymarket_trade_executo.Planner.Types.{ExecutionPlan, PlannedLeg, ns_per_ms}
use polymarket_trade_executo.StateMachine.Types.{
  TimeInForce, PackageState, PackageExecution, Error, package_state_eq,
}
use polymarket_trade_executo.StateMachine.Events.{StateMachineEvent, VenueFillEvent, LegEvent}
use polymarket_trade_executo.StateMachine.Tables.{is_terminal_package}
use polymarket_trade_executo.StateMachine.Reducer.{apply_event}
use polymarket_trade_executo.Risk.Types.{RiskReasonCode, RiskText, RiskDecision, deny}
use polymarket_trade_executo.Risk.Exposure.{
  ActiveLegRiskState, ActivePackageRiskState, all_legs_filled, partial_fill_exposure_cents,
  apply_fill,
}
use polymarket_trade_executo.Risk.Counter.{add, count}
use polymarket_trade_executo.Risk.Manager.{ExecutionRiskManager, trigger_auto_kill}
use polymarket_trade_executo.Risk.Register.{close_package}

-- a denial that asks for the package to be aborted
abbrev pub abort_package :
    RiskReasonCode → RiskText → (now_ns : ℤ) (package_id relation_id : String) → RiskDecision
abort_package code reason now_ns package_id relation_id =
    deny code reason now_ns (some package_id) (some relation_id) true false

abbrev pub when : Bool → RiskDecision → List RiskDecision
when test decision = if test then decision ∷ [] else []

-- the decision on the imbalance of the market of a leg that was found
abbrev pub imbalance_decisions :
    ExecutionRiskManager
    → ActivePackageRiskState
    → Option ActiveLegRiskState
    → (now_ns : ℤ) → List RiskDecision
imbalance_decisions m active none now_ns = []
imbalance_decisions m active (some leg) now_ns =
    let imbalance =
      abs_ℤ (get_or m.exposure.open_directional_imbalance_by_market leg.market_id (pos 0)) in
    let cap = m.config.max_open_directional_imbalance_shares in
    when (ltb_ℤ cap imbalance) (
      abort_package RiskReasonCode.max_open_directional_imbalance
        (RiskText.imbalance imbalance leg.market_id cap) now_ns active.package_id
        active.relation_id)

-- the decisions on a fill, where `active` is what `apply_fill` returned
unfoldable pub fill_decisions :
    ExecutionRiskManager
    → VenueFillEvent
    → (active : Option ActivePackageRiskState) → (now_ns : ℤ) → List RiskDecision
fill_decisions m event none now_ns = []
fill_decisions m event (some active) now_ns =
    let exposure = partial_fill_exposure_cents active in
    let cap = m.config.max_partial_fill_exposure_cents in
    when (ltb_ℤ cap exposure) (
      abort_package RiskReasonCode.max_partial_fill_exposure
        (RiskText.partial_exposure exposure cap) now_ns active.package_id active.relation_id)
    ++ imbalance_decisions m active (get active.legs event.leg_id) now_ns

-- `isinstance(event, VenueFillEvent)`
unfoldable pub on_risk_fill :
    ExecutionRiskManager → VenueFillEvent → (now_ns : ℤ) → ExecutionRiskManager × List RiskDecision
on_risk_fill m event now_ns =
    let (exposure, active) =
      apply_fill m.exposure event.package_id event.leg_id event.fill_qty event.fill_price_ticks
        event.ts_ns in
    let m' = record m { exposure = exposure } in (m', fill_decisions m' event active now_ns)

abbrev pub is_some {ℓ} : {A : Type ℓ} → Option A → Bool
is_some none = false
is_some (some a) = true

-- `isinstance(event, LegTimeoutEvent)`, where `active` is the package that was found
unfoldable pub timeout_decisions :
    LegEvent → (active : Option ActivePackageRiskState) → (now_ns : ℤ) → List RiskDecision
timeout_decisions event none now_ns = []
timeout_decisions event (some active) now_ns =
    when (is_some active.first_fill_ts_ns && not (all_legs_filled active)) (
      abort_package RiskReasonCode.second_leg_timeout (RiskText.timeout_after_fill event.package_id)
        now_ns event.package_id active.relation_id)

-- `isinstance(event, VenueRejectEvent)`
unfoldable pub on_risk_reject :
    ExecutionRiskManager → (now_ns : ℤ) → ExecutionRiskManager × List RiskDecision
on_risk_reject m now_ns =
    let (counter, rejects) = count (add m.reject_counter now_ns) now_ns in
    let m' = record m { reject_counter = counter } in
    let threshold = m.config.repeated_reject_threshold in
    let (halted, decision) =
      trigger_auto_kill m' RiskReasonCode.repeated_reject_threshold
        (RiskText.reject_count rejects threshold) now_ns in
    if leb_ℤ threshold (pos rejects) then (halted, decision ∷ []) else (m', [])

-- the three `isinstance` tests
unfoldable pub on_event_kind :
    ExecutionRiskManager
    → StateMachineEvent
    → (now_ns : ℤ) → ExecutionRiskManager × List RiskDecision
on_event_kind m (StateMachineEvent.venue_fill event) now_ns = on_risk_fill m event now_ns
on_event_kind m (StateMachineEvent.leg_timeout event) now_ns =
    (m, timeout_decisions event (get m.exposure.active_packages event.package_id) now_ns)
on_event_kind m (StateMachineEvent.venue_reject event) now_ns = on_risk_reject m now_ns
on_event_kind m (StateMachineEvent.order_intent event) now_ns = (m, [])
on_event_kind m (StateMachineEvent.order_ack event) now_ns = (m, [])
on_event_kind m (StateMachineEvent.venue_cancel event) now_ns = (m, [])
on_event_kind m (StateMachineEvent.cancel_requested event) now_ns = (m, [])
on_event_kind m (StateMachineEvent.unwind_required event) now_ns = (m, [])
on_event_kind m (StateMachineEvent.unwound event) now_ns = (m, [])
on_event_kind m (StateMachineEvent.abort event) now_ns = (m, [])
on_event_kind m (StateMachineEvent.emergency_halt event) now_ns = (m, [])

-- a terminal package is closed
unfoldable pub close_terminal :
    PackageExecution
    → (now_ns : ℤ) → ExecutionRiskManager × List RiskDecision
    → ExecutionRiskManager × List RiskDecision
close_terminal pkg now_ns (m, decisions) =
    let (closed, more) =
      close_package m pkg.package_id now_ns (pkg.state == PackageState.completed) none in
    if is_terminal_package pkg.state then (closed, decisions ++ more) else (m, decisions)

unfoldable pub on_state_event :
    ExecutionRiskManager
    → PackageExecution
    → StateMachineEvent
    → (now_ns : ℤ) → ExecutionRiskManager × List RiskDecision
on_state_event m pkg event now_ns = close_terminal pkg now_ns (on_event_kind m event now_ns)

-- the deadline of one package
unfoldable pub check_deadline :
    (now_ns : ℤ) → ActivePackageRiskState → ActivePackageRiskState × List RiskDecision
check_deadline now_ns state =
    if not state.deadline_breached && ltb_ℤ state.deadline_ts_ns now_ns
    then (
      record state { deadline_breached = true },
      abort_package RiskReasonCode.package_execution_deadline
            (RiskText.deadline_exceeded state.package_id state.deadline_ts_ns) now_ns
            state.package_id state.relation_id
          ∷ [],
    )
    else (state, [])

-- `now_ns - first_fill_ts_ns > timeout_ns`, where there was a first fill
abbrev pub is_late : (first_fill_ts_ns : Option ℤ) → (now_ns timeout_ns : ℤ) → Bool
is_late none now_ns timeout_ns = false
is_late (some first) now_ns timeout_ns = ltb_ℤ timeout_ns (now_ns -ℤ first)

-- the time that the other legs of one package have
unfoldable pub check_second_leg :
    (timeout_ms now_ns : ℤ) → ActivePackageRiskState → ActivePackageRiskState × List RiskDecision
check_second_leg timeout_ms now_ns state =
    if not (all_legs_filled state)
      && not state.second_leg_timeout_breached
      && is_late state.first_fill_ts_ns now_ns (timeout_ms *ℤ ns_per_ms)
    then (
      record state { second_leg_timeout_breached = true },
      abort_package RiskReasonCode.second_leg_timeout
            (RiskText.second_leg_exceeded state.package_id timeout_ms) now_ns state.package_id
            state.relation_id
          ∷ [],
    )
    else (state, [])

-- one round of the loop of `evaluate_active_risk`
unfoldable pub evaluate_package :
    (timeout_ms now_ns : ℤ) → ActivePackageRiskState → ActivePackageRiskState × List RiskDecision
evaluate_package timeout_ms now_ns state =
    let (first, deadline) = check_deadline now_ns state in
    let (second, late) = check_second_leg timeout_ms now_ns first in (second, deadline ++ late)

unfoldable pub evaluate_packages :
    (timeout_ms now_ns : ℤ)
    → Dict ActivePackageRiskState
    → Dict ActivePackageRiskState × List RiskDecision
evaluate_packages timeout_ms now_ns [] = ([], [])
evaluate_packages timeout_ms now_ns (entry ∷ entries) =
    let (state, decisions) = evaluate_package timeout_ms now_ns entry.1 in
    let (rest, more) = evaluate_packages timeout_ms now_ns entries in
    ((entry.0, state) ∷ rest, decisions ++ more)

unfoldable pub evaluate_active_risk :
    ExecutionRiskManager → (now_ns : ℤ) → ExecutionRiskManager × List RiskDecision
evaluate_active_risk m now_ns =
    let (active, decisions) =
      evaluate_packages m.config.second_leg_timeout_ms now_ns m.exposure.active_packages in
    (record m { exposure = record m.exposure { active_packages = active } }, decisions)

unfoldable pub record_venue_ambiguity :
    ExecutionRiskManager
    → (now_ns : ℤ) → (detail : String) → ExecutionRiskManager × Option RiskDecision
record_venue_ambiguity m now_ns detail =
    let (counter, current) = count (add m.ambiguity_counter now_ns) now_ns in
    let m' = record m { ambiguity_counter = counter } in
    let threshold = m.config.repeated_venue_ambiguity_threshold in
    let (halted, decision) =
      trigger_auto_kill m' RiskReasonCode.repeated_venue_ambiguity_threshold
        (RiskText.ambiguity_count current threshold detail) now_ns in
    if leb_ℤ threshold (pos current) then (halted, some decision) else (m', none)

-- the exception of the state machine, or what it and the manager made of the event
unfoldable pub apply_state_transition_with_risk :
    ExecutionRiskManager
    → PackageExecution
    → StateMachineEvent
    → (now_ns : ℤ) → Result Error (PackageExecution × ExecutionRiskManager × List RiskDecision)
apply_state_transition_with_risk m pkg event now_ns = do
  next ← apply_event pkg event
  let (m', decisions) = on_state_event m next event now_ns
  ok (next, m', decisions)

unfoldable pub build_execution_plan :
    (plan_id opportunity_id : String)
    → (created_ts_ns expires_at_ns package_timeout_ms package_units total_shares : ℤ)
      (total_notional_cents expected_net_profit_cents : ℤ)
    → List PlannedLeg
    → ExecutionPlan
build_execution_plan plan_id opportunity_id created expires timeout units shares notional profit
      legs =
    record {
      plan_id = plan_id;
      opportunity_id = opportunity_id;
      created_ts_ns = created;
      expires_at_ns = expires;
      package_timeout_ms = timeout;
      package_units = units;
      tif = TimeInForce.ioc;
      total_shares = shares;
      total_notional_cents = notional;
      expected_gross_profit_cents = profit;
      expected_fee_cents = pos 0;
      expected_net_profit_cents = profit;
      expected_net_edge_bps =
          if ltb_ℤ (pos 0) notional then profit *ℤ pos 10000 /ℤ notional else pos 0;
      legs = legs;
    }
