-- ===== src/Risk/History.antt =====
-- executor/risk.py: any sequence of calls of the manager, from its construction.
use polymarket_trade_executo.Common.{
  String, ◌≡◌, refl, sym, subst, arith, Bool, Option, List, [], ◌∷◌, Result, ok, err, Ensures,
  Ensures-ok, Ensures-guard, Ensures-bind,
}
use polymarket_trade_executo.Common.Int.{ℤ, pos, ◌≤ℤ◌, ◌<ℤ◌, leb_ℤ}
use polymarket_trade_executo.Common.Dict.{Dict}
use polymarket_trade_executo.Common.Lists.{All}
use polymarket_trade_executo.StateMachine.Types.{PackageExecution}
use polymarket_trade_executo.StateMachine.Events.{StateMachineEvent}
use polymarket_trade_executo.Risk.Types.{RiskManagerConfig, RiskDecision, PreTradeRiskRequest}
use polymarket_trade_executo.Risk.Manager.{
  ExecutionRiskManager, positive_fields, all_positive, validate_risk_config, new_manager,
  activate_manual_kill_switch, clear_manual_kill_switch, clear_auto_kill_switch,
}
use polymarket_trade_executo.Risk.PreTrade.{SetOrder, validate_pre_trade}
use polymarket_trade_executo.Risk.Register.{register_package, close_package}
use polymarket_trade_executo.Risk.Watch.{
  on_state_event, evaluate_active_risk, record_venue_ambiguity,
}
use polymarket_trade_executo.Risk.Recovery.{rebuild_from_recovered_state}
use polymarket_trade_executo.Risk.Passed.{validate_pre_trade-Keeps}
use polymarket_trade_executo.Risk.Kept.{
  IsSafe, Keeps-IsSafe, activate_manual_kill_switch-Keeps, clear_manual_kill_switch-Keeps,
  clear_auto_kill_switch-Keeps, record_venue_ambiguity-Keeps, close_package-IsSafe,
  on_state_event-IsSafe, evaluate_active_risk-IsSafe, register_package-IsSafe,
}

-- a call of the manager, with its arguments
pub data RiskCall : Type 0 where
  kill : (reason : String) (now_ns : ℤ) → RiskCall
  clear_manual clear_auto evaluate : (now_ns : ℤ) → RiskCall
  validate register : (request : PreTradeRiskRequest) (now_ns : ℤ) → RiskCall
  close :
      (package_id : String) (now_ns : ℤ) (success : Bool) (realized_pnl_cents : Option ℤ) → RiskCall
  state_event : (pkg : PackageExecution) (event : StateMachineEvent) (now_ns : ℤ) → RiskCall
  ambiguity : (now_ns : ℤ) (detail : String) → RiskCall
  rebuild :
      (active_packages : Dict PackageExecution) (relation_by_package : Dict String) (now_ns : ℤ)
      → RiskCall

-- a registration that raises leaves the manager as it was
abbrev pub manager_after :
    ExecutionRiskManager
    → Result String (ExecutionRiskManager × RiskDecision)
    → ExecutionRiskManager
manager_after m (ok r) = r.0
manager_after m (err id) = m

unfoldable pub call : SetOrder → ExecutionRiskManager → RiskCall → ExecutionRiskManager
call order m (RiskCall.kill reason now_ns) = (activate_manual_kill_switch m reason now_ns).0
call order m (RiskCall.clear_manual now_ns) = (clear_manual_kill_switch m now_ns).0
call order m (RiskCall.clear_auto now_ns) = (clear_auto_kill_switch m now_ns).0
call order m (RiskCall.evaluate now_ns) = (evaluate_active_risk m now_ns).0
call order m (RiskCall.validate request now_ns) = (validate_pre_trade m order request now_ns).0
call order m (RiskCall.register request now_ns) =
    manager_after m (register_package m order request now_ns)
call order m (RiskCall.close id now_ns success pnl) = (close_package m id now_ns success pnl).0
call order m (RiskCall.state_event pkg event now_ns) = (on_state_event m pkg event now_ns).0
call order m (RiskCall.ambiguity now_ns detail) = (record_venue_ambiguity m now_ns detail).0
call order m (RiskCall.rebuild packages relations now_ns) =
    (rebuild_from_recovered_state m packages relations now_ns).0

unfoldable pub calls : SetOrder → ExecutionRiskManager → List RiskCall → ExecutionRiskManager
calls order m [] = m
calls order m (c ∷ cs) = calls order (call order m c) cs

-- A plan that is registered has no negative notional, and the manager is not rebuilt.
abbrev pub IsSensible : RiskCall → Type 0
IsSensible (RiskCall.register request now_ns) = pos 0 ≤ℤ request.plan.total_notional_cents
IsSensible (RiskCall.rebuild packages relations now_ns) = ⊥
IsSensible other = Unit

module _ (c : RiskManagerConfig) (order : SetOrder) where
  call-IsSafe :
      (m : ExecutionRiskManager) (k : RiskCall)
      → IsSensible k
      → IsSafe c m
      → IsSafe c (call order m k)
  unfolding call
  call-IsSafe m (RiskCall.kill reason now_ns) h s =
      Keeps-IsSafe c m _ (activate_manual_kill_switch-Keeps m now_ns reason) s
  call-IsSafe m (RiskCall.clear_manual now_ns) h s =
      Keeps-IsSafe c m _ (clear_manual_kill_switch-Keeps m now_ns) s
  call-IsSafe m (RiskCall.clear_auto now_ns) h s =
      Keeps-IsSafe c m _ (clear_auto_kill_switch-Keeps m now_ns) s
  call-IsSafe m (RiskCall.evaluate now_ns) h s = evaluate_active_risk-IsSafe c m now_ns s
  call-IsSafe m (RiskCall.validate request now_ns) h s =
      Keeps-IsSafe c m _ (validate_pre_trade-Keeps m request now_ns order) s
  call-IsSafe m (RiskCall.register request now_ns) h s =
      let (r, e, safe) = register_package-IsSafe c m order request now_ns h s in
      subst (λ result. IsSafe c (manager_after m result)) (sym e) safe
  call-IsSafe m (RiskCall.close id now_ns success pnl) h s =
      close_package-IsSafe c m id now_ns success pnl s
  call-IsSafe m (RiskCall.state_event pkg event now_ns) h s =
      on_state_event-IsSafe c m pkg event now_ns s
  call-IsSafe m (RiskCall.rebuild packages relations now_ns) h s = absurd h
  call-IsSafe m (RiskCall.ambiguity now_ns detail) h s =
      Keeps-IsSafe c m _ (record_venue_ambiguity-Keeps m now_ns detail) s

  calls-IsSafe :
      (m : ExecutionRiskManager) (ks : List RiskCall)
      → All IsSensible ks
      → IsSafe c m
      → IsSafe c (calls order m ks)
  unfolding calls
  calls-IsSafe m [] h s = s
  calls-IsSafe m (k ∷ ks) h s = calls-IsSafe (call order m k) ks h.1 (call-IsSafe m k h.0 s)

  all_positive-Ensures :
      (d : Dict ℤ) → Ensures (λ _. All (λ entry. pos 0 <ℤ entry.1) d) (all_positive d)
  unfolding all_positive
  all_positive-Ensures [] = Ensures-ok tt tt
  all_positive-Ensures (entry ∷ d) = Ensures-guard (leb_ℤ entry.1 (pos 0)) _ _ λ positive. record {
    at = λ done e. (ground (arith, positive), (all_positive-Ensures d).at done e);
  }

  validate_risk_config-caps :
      Ensures
        (λ _.
          (pos 0 <ℤ c.max_total_open_notional_cents)
          × (pos 0 <ℤ c.max_simultaneous_active_packages))
        (validate_risk_config c)
  unfolding validate_risk_config
  validate_risk_config-caps = Ensures-bind (all_positive (positive_fields c)) _ λ done e. record {
    at = λ done' e'.
        let h = (all_positive-Ensures (positive_fields c)).at done e in (h.1.1.0, h.1.1.1.0);
  }

  new_manager-IsSafe : Ensures (IsSafe c) (new_manager c)
  unfolding new_manager
  new_manager-IsSafe = Ensures-bind (validate_risk_config c) _ λ done e.
      let (total, count) = validate_risk_config-caps.at done e in
      Ensures-ok _ (record {
        same_config = refl;
        within_limits = record {
          distinct = tt;
          accounted = refl;
          nonneg = tt;
          within_total = omega (arith, total);
          within_count = omega (arith, count);
        };
      })

-- After any calls of a manager that was constructed, in any order, its configuration is that of its
-- construction, its total open notional is the sum of what its active packages reserve, and neither
-- that total nor their number exceeds its cap. The plans that are registered have no negative
-- notional, and the calls do not rebuild the manager from a journal.
pub new_manager-calls :
    (c : RiskManagerConfig) (order : SetOrder) (m : ExecutionRiskManager) (ks : List RiskCall)
    → new_manager c ≡ ok m
    → All IsSensible ks
    → IsSafe c (calls order m ks)
new_manager-calls c order m ks made h =
    calls-IsSafe c order m ks h ((new_manager-IsSafe c order).at m made)
