-- ===== src/Risk/Kept.antt =====
-- executor/risk.py: the operations of the manager keep its configuration, and its exposure within the
-- limits of that configuration.
use polymarket_trade_executo.Common.{
  String, ◌≡◌, refl, sym, ◌∙◌, subst, arith, Bool, true, false, Bool-cases, inl, inr, Option, none,
  some, List, ok,
}
use polymarket_trade_executo.Common.Int.{ℤ, pos, ◌≤ℤ◌}
use polymarket_trade_executo.StateMachine.Types.{PackageExecution, package_state_eq}
use polymarket_trade_executo.StateMachine.Events.{StateMachineEvent}
use polymarket_trade_executo.StateMachine.Tables.{is_terminal_package}
use polymarket_trade_executo.Risk.Types.{RiskManagerConfig, RiskDecision, PreTradeRiskRequest}
use polymarket_trade_executo.Risk.Exposure.{
  ActivePackageRiskState, InMemoryExposureTracker, release_package,
}
use polymarket_trade_executo.Risk.Manager.{
  ExecutionRiskManager, activate_manual_kill_switch, clear_manual_kill_switch,
  clear_auto_kill_switch, trigger_auto_kill,
}
use polymarket_trade_executo.Risk.PreTrade.{SetOrder}
use polymarket_trade_executo.Risk.Register.{
  build_active_package_state, register_package, unindex_package, maybe_trigger_failure_rate_halt,
  record_failure, check_daily_loss, close_released, close_package,
}
use polymarket_trade_executo.Risk.Watch.{
  on_risk_fill, on_risk_reject, on_event_kind, close_terminal, on_state_event, evaluate_active_risk,
  record_venue_ambiguity,
}
use polymarket_trade_executo.Risk.Passed.{Keeps}
use polymarket_trade_executo.Risk.Limits.{
  IsWithinLimits, reserve-IsWithinLimits, release-IsWithinLimits, apply_fill-IsWithinLimits,
}
use polymarket_trade_executo.Risk.Evaluated.{evaluate-IsWithinLimits}
use polymarket_trade_executo.Risk.Allowed.{IsAllowed}
use polymarket_trade_executo.Risk.Registered.{
  HasReserved, RegisterOutcome, register_package-returns,
}

-- The manager has the configuration `c`, and its exposure is within the limits of `c`.
pub record IsSafe (c : RiskManagerConfig) (m : ExecutionRiskManager) : Type 0 where
  pub same_config : m.config ≡ c
  pub within_limits : IsWithinLimits c m.exposure

module _ (m : ExecutionRiskManager) (now_ns : ℤ) where
  pub activate_manual_kill_switch-Keeps :
      (reason : String) → Keeps m (activate_manual_kill_switch m reason now_ns).0
  unfolding activate_manual_kill_switch
  activate_manual_kill_switch-Keeps reason = record { same_config = refl; same_exposure = refl }

  pub clear_manual_kill_switch-Keeps : Keeps m (clear_manual_kill_switch m now_ns).0
  unfolding clear_manual_kill_switch
  clear_manual_kill_switch-Keeps = record { same_config = refl; same_exposure = refl }

  pub clear_auto_kill_switch-Keeps : Keeps m (clear_auto_kill_switch m now_ns).0
  unfolding clear_auto_kill_switch
  clear_auto_kill_switch-Keeps = record { same_config = refl; same_exposure = refl }

  pub maybe_trigger_failure_rate_halt-Keeps : Keeps m (maybe_trigger_failure_rate_halt m now_ns).0
  unfolding maybe_trigger_failure_rate_halt trigger_auto_kill
  maybe_trigger_failure_rate_halt-Keeps = ground arith

  pub check_daily_loss-Keeps :
      (decisions : List RiskDecision) → Keeps m (check_daily_loss now_ns (m, decisions)).0
  unfolding check_daily_loss trigger_auto_kill
  check_daily_loss-Keeps decisions = ground arith

  on_risk_reject-Keeps : Keeps m (on_risk_reject m now_ns).0
  unfolding on_risk_reject trigger_auto_kill
  on_risk_reject-Keeps = ground arith

  pub record_venue_ambiguity-Keeps :
      (detail : String) → Keeps m (record_venue_ambiguity m now_ns detail).0
  unfolding record_venue_ambiguity trigger_auto_kill
  record_venue_ambiguity-Keeps detail = ground arith

  evaluate_active_risk-config : (evaluate_active_risk m now_ns).0.config ≡ m.config
  unfolding evaluate_active_risk
  evaluate_active_risk-config = refl

module _ (c : RiskManagerConfig) where
  pub Keeps-IsSafe : (m m' : ExecutionRiskManager) → Keeps m m' → IsSafe c m → IsSafe c m'
  Keeps-IsSafe m m' k s = record {
    same_config = k.same_config ∙ s.same_config;
    within_limits = subst (IsWithinLimits c) (sym k.same_exposure) s.within_limits;
  }

  record_failure-IsSafe :
      (m : ExecutionRiskManager) (state : ActivePackageRiskState) (now_ns : ℤ)
      → IsSafe c m
      → IsSafe c (record_failure m state now_ns).0
  unfolding record_failure
  record_failure-IsSafe m state now_ns s =
      Keeps-IsSafe _ _ (maybe_trigger_failure_rate_halt-Keeps _ now_ns)
        (record { same_config = s.same_config; within_limits = s.within_limits })

  check_daily_loss-IsSafe :
      (r : ExecutionRiskManager × List RiskDecision) (now_ns : ℤ)
      → IsSafe c r.0
      → IsSafe c (check_daily_loss now_ns r).0
  check_daily_loss-IsSafe r now_ns s =
      Keeps-IsSafe r.0 (check_daily_loss now_ns r).0 (check_daily_loss-Keeps r.0 now_ns r.1) s

  close_released-IsSafe :
      (m : ExecutionRiskManager) (id : String) (now_ns : ℤ) (success : Bool) (pnl : Option ℤ)
      (released : InMemoryExposureTracker × Option ActivePackageRiskState)
      → m.config ≡ c
      → IsWithinLimits c released.0
      → IsSafe c (close_released m id now_ns success pnl released).0
  unfolding close_released unindex_package
  close_released-IsSafe m id now_ns success pnl (t, none) e w = record {
    same_config = e;
    within_limits = w;
  }
  close_released-IsSafe m id now_ns true pnl (t, some state) e w =
      check_daily_loss-IsSafe _ now_ns (record { same_config = e; within_limits = w })
  close_released-IsSafe m id now_ns false pnl (t, some state) e w =
      check_daily_loss-IsSafe _ now_ns
        (record_failure-IsSafe _ state now_ns (record { same_config = e; within_limits = w }))

  pub close_package-IsSafe :
      (m : ExecutionRiskManager) (id : String) (now_ns : ℤ) (success : Bool) (pnl : Option ℤ)
      → IsSafe c m
      → IsSafe c (close_package m id now_ns success pnl).0
  unfolding close_package
  close_package-IsSafe m id now_ns success pnl s =
      close_released-IsSafe m id now_ns success pnl (release_package m.exposure id) s.same_config
        (release-IsWithinLimits c m.exposure id s.within_limits)

  on_event_kind-IsSafe :
      (m : ExecutionRiskManager) (event : StateMachineEvent) (now_ns : ℤ)
      → IsSafe c m
      → IsSafe c (on_event_kind m event now_ns).0
  unfolding on_event_kind on_risk_fill
  on_event_kind-IsSafe m (StateMachineEvent.venue_fill e) now_ns s = record {
    same_config = s.same_config;
    within_limits =
        apply_fill-IsWithinLimits c m.exposure e.package_id e.leg_id e.fill_qty e.fill_price_ticks
          e.ts_ns s.within_limits;
  }
  on_event_kind-IsSafe m (StateMachineEvent.leg_timeout e) now_ns s = s
  on_event_kind-IsSafe m (StateMachineEvent.venue_reject e) now_ns s =
      Keeps-IsSafe _ _ (on_risk_reject-Keeps m now_ns) s
  on_event_kind-IsSafe m (StateMachineEvent.order_intent e) now_ns s = s
  on_event_kind-IsSafe m (StateMachineEvent.order_ack e) now_ns s = s
  on_event_kind-IsSafe m (StateMachineEvent.venue_cancel e) now_ns s = s
  on_event_kind-IsSafe m (StateMachineEvent.cancel_requested e) now_ns s = s
  on_event_kind-IsSafe m (StateMachineEvent.unwind_required e) now_ns s = s
  on_event_kind-IsSafe m (StateMachineEvent.unwound e) now_ns s = s
  on_event_kind-IsSafe m (StateMachineEvent.abort e) now_ns s = s
  on_event_kind-IsSafe m (StateMachineEvent.emergency_halt e) now_ns s = s

  pub on_state_event-IsSafe :
      (m : ExecutionRiskManager) (pkg : PackageExecution) (event : StateMachineEvent) (now_ns : ℤ)
      → IsSafe c m
      → IsSafe c (on_state_event m pkg event now_ns).0
  unfolding on_state_event close_terminal
  on_state_event-IsSafe m pkg event now_ns s =
      let after = (on_event_kind m event now_ns).0 in
      let safe = on_event_kind-IsSafe m event now_ns s in
      elim (Bool-cases (is_terminal_package pkg.state)) [
        | inl terminal ↦ rw terminal (close_package-IsSafe after pkg.package_id now_ns _ none safe)
        | inr live ↦ rw live safe
      ]

  pub evaluate_active_risk-IsSafe :
      (m : ExecutionRiskManager) (now_ns : ℤ)
      → IsSafe c m
      → IsSafe c (evaluate_active_risk m now_ns).0
  evaluate_active_risk-IsSafe m now_ns s = record {
    same_config = evaluate_active_risk-config m now_ns ∙ s.same_config;
    within_limits =
        subst (λ d. IsWithinLimits d (evaluate_active_risk m now_ns).0.exposure) s.same_config
          (evaluate-IsWithinLimits m now_ns
            (subst (λ d. IsWithinLimits d m.exposure) (sym s.same_config) s.within_limits));
  }

  HasReserved-IsSafe :
      (m : ExecutionRiskManager) (order : SetOrder) (request : PreTradeRiskRequest) (now_ns : ℤ)
      (m' : ExecutionRiskManager)
      → pos 0 ≤ℤ request.plan.total_notional_cents
      → IsSafe c m
      → IsAllowed m request now_ns order
      → HasReserved m request now_ns m'
      → IsSafe c m'
  unfolding build_active_package_state
  HasReserved-IsSafe m order request now_ns m' nonneg s a h =
      let w = subst (λ d. IsWithinLimits d m.exposure) (sym s.same_config) s.within_limits in
      record {
        same_config = h.same_config ∙ s.same_config;
        within_limits =
            subst (λ d. IsWithinLimits d m'.exposure) s.same_config
              (reserve-IsWithinLimits m.config m.exposure _ m'.exposure w nonneg
                a.affordable.total_notional a.is_free.room a.is_free.package_free h.reserves);
      }

  outcome-IsSafe :
      (m : ExecutionRiskManager) (order : SetOrder) (request : PreTradeRiskRequest) (now_ns : ℤ)
      (allowed : Bool) (m' : ExecutionRiskManager)
      → pos 0 ≤ℤ request.plan.total_notional_cents
      → IsSafe c m
      → RegisterOutcome m order request now_ns allowed m'
      → IsSafe c m'
  outcome-IsSafe m order request now_ns true m' nonneg s o =
      HasReserved-IsSafe m order request now_ns m' nonneg s o.0 o.1
  outcome-IsSafe m order request now_ns false m' nonneg s o = Keeps-IsSafe m m' o s

  pub register_package-IsSafe :
      (m : ExecutionRiskManager) (order : SetOrder) (request : PreTradeRiskRequest) (now_ns : ℤ)
      → pos 0 ≤ℤ request.plan.total_notional_cents
      → IsSafe c m
      → (r : ExecutionRiskManager × RiskDecision) × (register_package m order request now_ns ≡ ok r)
        × IsSafe c r.0
  register_package-IsSafe m order request now_ns nonneg s =
      let (r, e, outcome) = register_package-returns m order request now_ns in
      (r, e, outcome-IsSafe m order request now_ns r.1.allowed r.0 nonneg s outcome)
