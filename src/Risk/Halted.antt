-- ===== src/Risk/Halted.antt =====
-- executor/risk.py: a kill switch that is on stays on through every call that does not clear it.
use polymarket_trade_executo.Common.{
  String, ◌≡◌, refl, ap, ◌∙◌, arith, Bool, true, false, Bool-cases, inl, inr, Option, none, some,
  List, [], ◌∷◌, ok, err, Result,
}
use polymarket_trade_executo.Common.Int.{ℤ}
use polymarket_trade_executo.Common.Lists.{All}
use polymarket_trade_executo.StateMachine.Types.{PackageExecution, package_state_eq}
use polymarket_trade_executo.StateMachine.Events.{StateMachineEvent}
use polymarket_trade_executo.StateMachine.Tables.{is_terminal_package}
use polymarket_trade_executo.Risk.Types.{RiskDecision, PreTradeRiskRequest}
use polymarket_trade_executo.Risk.Exposure.{
  ActivePackageRiskState, InMemoryExposureTracker, release_package,
}
use polymarket_trade_executo.Risk.Manager.{
  ExecutionRiskManager, is_trading_halted, activate_manual_kill_switch, trigger_auto_kill,
}
use polymarket_trade_executo.Risk.PreTrade.{SetOrder, validate_pre_trade, after_checks}
use polymarket_trade_executo.Risk.Register.{
  register_package, unindex_package, maybe_trigger_failure_rate_halt, record_failure,
  check_daily_loss, close_released, close_package,
}
use polymarket_trade_executo.Risk.Watch.{
  on_risk_fill, on_risk_reject, on_event_kind, close_terminal, on_state_event, evaluate_active_risk,
  record_venue_ambiguity,
}
use polymarket_trade_executo.Risk.Recovery.{
  recovered_package_state, recover_package, recover_packages, after_recovery,
  rebuild_from_recovered_state,
}
use polymarket_trade_executo.Common.{Ensures, Ensures-bind, Ensures-ok, Result-cases}
use polymarket_trade_executo.Common.Dict.{Dict, get_or}
use polymarket_trade_executo.Risk.Exposure.{reserve_package}
use polymarket_trade_executo.Risk.Register.{index_package}
use polymarket_trade_executo.Risk.Registered.{register_package-halted, check_request-Blocked}
use polymarket_trade_executo.Risk.History.{RiskCall, manager_after, call, calls}

abbrev IsHalted : ExecutionRiskManager → Type 0
IsHalted m = is_trading_halted m ≡ true

module _ (m : ExecutionRiskManager) (now_ns : ℤ) (h : IsHalted m) where
  maybe_trigger_failure_rate_halt-IsHalted : IsHalted (maybe_trigger_failure_rate_halt m now_ns).0
  unfolding maybe_trigger_failure_rate_halt trigger_auto_kill
  maybe_trigger_failure_rate_halt-IsHalted = ground (arith, h)

  check_daily_loss-IsHalted :
      (decisions : List RiskDecision) → IsHalted (check_daily_loss now_ns (m, decisions)).0
  unfolding check_daily_loss trigger_auto_kill
  check_daily_loss-IsHalted decisions = ground (arith, h)

  on_risk_reject-IsHalted : IsHalted (on_risk_reject m now_ns).0
  unfolding on_risk_reject trigger_auto_kill
  on_risk_reject-IsHalted = ground (arith, h)

  record_venue_ambiguity-IsHalted :
      (detail : String) → IsHalted (record_venue_ambiguity m now_ns detail).0
  unfolding record_venue_ambiguity trigger_auto_kill
  record_venue_ambiguity-IsHalted detail = ground (arith, h)

record_failure-IsHalted :
    (m : ExecutionRiskManager) (state : ActivePackageRiskState) (now_ns : ℤ)
    → IsHalted m
    → IsHalted (record_failure m state now_ns).0
unfolding record_failure
record_failure-IsHalted m state now_ns h = maybe_trigger_failure_rate_halt-IsHalted _ now_ns h

close_released-IsHalted :
    (m : ExecutionRiskManager) (id : String) (now_ns : ℤ) (success : Bool) (pnl : Option ℤ)
    (released : InMemoryExposureTracker × Option ActivePackageRiskState)
    → IsHalted m
    → IsHalted (close_released m id now_ns success pnl released).0
unfolding close_released unindex_package
close_released-IsHalted m id now_ns success pnl (t, none) h = h
close_released-IsHalted m id now_ns true pnl (t, some state) h =
    check_daily_loss-IsHalted _ now_ns h []
close_released-IsHalted m id now_ns false pnl (t, some state) h =
    check_daily_loss-IsHalted _ now_ns (record_failure-IsHalted _ state now_ns h) _

on_event_kind-IsHalted :
    (m : ExecutionRiskManager) (event : StateMachineEvent) (now_ns : ℤ)
    → IsHalted m
    → IsHalted (on_event_kind m event now_ns).0
unfolding on_event_kind on_risk_fill
on_event_kind-IsHalted m (StateMachineEvent.venue_fill e) now_ns h = h
on_event_kind-IsHalted m (StateMachineEvent.leg_timeout e) now_ns h = h
on_event_kind-IsHalted m (StateMachineEvent.venue_reject e) now_ns h =
    on_risk_reject-IsHalted m now_ns h
on_event_kind-IsHalted m (StateMachineEvent.order_intent e) now_ns h = h
on_event_kind-IsHalted m (StateMachineEvent.order_ack e) now_ns h = h
on_event_kind-IsHalted m (StateMachineEvent.venue_cancel e) now_ns h = h
on_event_kind-IsHalted m (StateMachineEvent.cancel_requested e) now_ns h = h
on_event_kind-IsHalted m (StateMachineEvent.unwind_required e) now_ns h = h
on_event_kind-IsHalted m (StateMachineEvent.unwound e) now_ns h = h
on_event_kind-IsHalted m (StateMachineEvent.abort e) now_ns h = h
on_event_kind-IsHalted m (StateMachineEvent.emergency_halt e) now_ns h = h

on_state_event-IsHalted :
    (m : ExecutionRiskManager) (pkg : PackageExecution) (event : StateMachineEvent) (now_ns : ℤ)
    → IsHalted m
    → IsHalted (on_state_event m pkg event now_ns).0
unfolding on_state_event close_terminal close_package
on_state_event-IsHalted m pkg event now_ns h =
    let after = (on_event_kind m event now_ns).0 in
    let still = on_event_kind-IsHalted m event now_ns h in
    let released = release_package after.exposure pkg.package_id in
    elim (Bool-cases (is_terminal_package pkg.state)) [
      | inl terminal ↦
          rw terminal (close_released-IsHalted after pkg.package_id now_ns _ none released still)
      | inr live ↦ rw live still
    ]

validate_pre_trade-unchanged :
    (m : ExecutionRiskManager) (order : SetOrder) (request : PreTradeRiskRequest) (now_ns : ℤ)
    → IsHalted m
    → (validate_pre_trade m order request now_ns).0 ≡ m
unfolding validate_pre_trade
validate_pre_trade-unchanged m order request now_ns h =
    ap (λ c. (after_checks m request now_ns c).0) (check_request-Blocked m order request now_ns h).1

recover_package-IsHalted :
    (m : ExecutionRiskManager) (relation_id : String) (pkg : PackageExecution)
    → IsHalted m
    → Ensures IsHalted (recover_package m relation_id pkg)
unfolding recover_package index_package
recover_package-IsHalted m relation_id pkg h =
    Ensures-bind (recovered_package_state pkg relation_id m.config.package_execution_deadline_ms) _
      λ state e. Ensures-bind (reserve_package m.exposure state) _ λ exposure f. Ensures-ok _ h

recover_packages-IsHalted :
    (m : ExecutionRiskManager) (relations : Dict String) (packages : Dict PackageExecution)
    → IsHalted m
    → IsHalted (recover_packages m relations packages).0
unfolding recover_packages
recover_packages-IsHalted m relations [] h = h
recover_packages-IsHalted m relations (entry ∷ packages) h =
    let relation_id = get_or relations entry.0 "recovered" in
    let skipped = recover_packages-IsHalted m relations packages h in
    let recovered = recover_package-IsHalted m relation_id entry.1 h in
    elim (Bool-cases (is_terminal_package entry.1.state)) [
      | inl terminal ↦ rw (terminal, recover_packages) skipped
      | inr live ↦ elim (Result-cases (recover_package m relation_id entry.1)) [
        | inl (next, e) ↦
            rw (live, e, recover_packages)
              (recover_packages-IsHalted next relations packages (recovered.at next e))
        | inr (exception, e) ↦ rw (live, e, recover_packages) h
      ]
    ]

after_recovery-IsHalted :
    (now_ns : ℤ) (r : ExecutionRiskManager × Result String (Unit {0}))
    → IsHalted r.0
    → IsHalted (after_recovery now_ns r).0
unfolding after_recovery evaluate_active_risk
after_recovery-IsHalted now_ns (m, err exception) h = h
after_recovery-IsHalted now_ns (m, ok done) h = h

-- a call that does not clear a kill switch
abbrev IsNotClear : RiskCall → Type 0
IsNotClear (RiskCall.clear_manual now_ns) = ⊥
IsNotClear (RiskCall.clear_auto now_ns) = ⊥
IsNotClear other = Unit

call-IsHalted :
    (order : SetOrder) (m : ExecutionRiskManager) (k : RiskCall)
    → IsNotClear k
    → IsHalted m
    → IsHalted (call order m k)
unfolding call activate_manual_kill_switch evaluate_active_risk close_package
    rebuild_from_recovered_state
call-IsHalted order m (RiskCall.kill reason now_ns) n h = refl
call-IsHalted order m (RiskCall.clear_manual now_ns) n h = absurd n
call-IsHalted order m (RiskCall.clear_auto now_ns) n h = absurd n
call-IsHalted order m (RiskCall.evaluate now_ns) n h = h
call-IsHalted order m (RiskCall.validate request now_ns) n h =
    ap is_trading_halted (validate_pre_trade-unchanged m order request now_ns h) ∙ h
call-IsHalted order m (RiskCall.register request now_ns) n h =
    let (decision, e, refused, halt) = register_package-halted m order request now_ns h in
    ap (λ r. is_trading_halted (manager_after m r)) e ∙ h
call-IsHalted order m (RiskCall.close id now_ns success pnl) n h =
    close_released-IsHalted m id now_ns success pnl (release_package m.exposure id) h
call-IsHalted order m (RiskCall.state_event pkg event now_ns) n h =
    on_state_event-IsHalted m pkg event now_ns h
call-IsHalted order m (RiskCall.ambiguity now_ns detail) n h =
    record_venue_ambiguity-IsHalted m now_ns h detail
call-IsHalted order m (RiskCall.rebuild packages relations now_ns) n h =
    after_recovery-IsHalted now_ns _ (recover_packages-IsHalted _ relations packages h)

-- Once trading is halted it stays halted through any calls of the manager, a rebuild from recovered
-- state included, that do not clear a kill switch, so after them a registration changes nothing and is denied.
pub calls-halted :
    (order : SetOrder) (m : ExecutionRiskManager) (ks : List RiskCall)
    (request : PreTradeRiskRequest) (now_ns : ℤ)
    → is_trading_halted m ≡ true
    → All IsNotClear ks
    → (let m' = calls order m ks in
        (decision : RiskDecision) × (is_trading_halted m' ≡ true)
        × (register_package m' order request now_ns ≡ ok (m', decision))
        × (decision.allowed ≡ false))
unfolding calls
calls-halted order m [] request now_ns h n =
    let (decision, e, refused, halt) = register_package-halted m order request now_ns h in
    (decision, h, e, refused)
calls-halted order m (k ∷ ks) request now_ns h n =
    calls-halted order (call order m k) ks request now_ns (call-IsHalted order m k n.0 h) n.1
