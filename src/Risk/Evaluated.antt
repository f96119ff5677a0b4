-- ===== src/Risk/Evaluated.antt =====
-- `evaluate_active_risk` of executor/risk.py: what the scan of the active packages keeps, and that a
-- breach is reported once.
use polymarket_trade_executo.Common.{
  String, ◌≡◌, refl, sym, ap, ◌∙◌, subst, arith, Bool, true, false, not, ◌&&◌, Bool-cases, inl, inr,
  none, [], ◌∷◌, string_eq,
}
use polymarket_trade_executo.Common.Int.{ℤ, pos, ◌*ℤ◌, ◌≤ℤ◌, ltb_ℤ}
use polymarket_trade_executo.Common.Dict.{Dict, get, AllValues}
use polymarket_trade_executo.Common.DictSums.{HasDistinctKeys, sum_by}
use polymarket_trade_executo.Common.Lists.{length}
use polymarket_trade_executo.Risk.Exposure.{ActivePackageRiskState, all_legs_filled}
use polymarket_trade_executo.Risk.Watch.{
  check_deadline, check_second_leg, evaluate_package, evaluate_packages, is_late,
  evaluate_active_risk,
}
use polymarket_trade_executo.Risk.Manager.{ExecutionRiskManager}
use polymarket_trade_executo.Planner.Types.{ns_per_ms}
use polymarket_trade_executo.Risk.Limits.{reserved, IsReserving, IsWithinLimits}

module _ (timeout_ms now_ns : ℤ) where
  evaluate_package-reserved :
      (s : ActivePackageRiskState) → reserved (evaluate_package timeout_ms now_ns s).0 ≡ reserved s
  unfolding evaluate_package check_deadline check_second_leg
  evaluate_package-reserved s = ground arith

  evaluate_packages-get :
      (d : Dict ActivePackageRiskState) (k : String)
      → get d k ≡ none
      → get (evaluate_packages timeout_ms now_ns d).0 k ≡ none
  unfolding evaluate_packages
  evaluate_packages-get [] k h = refl
  evaluate_packages-get (entry ∷ d) k h = ground (arith, evaluate_packages-get d k)

  pub evaluate_packages-HasDistinctKeys :
      (d : Dict ActivePackageRiskState)
      → HasDistinctKeys d
      → HasDistinctKeys (evaluate_packages timeout_ms now_ns d).0
  unfolding evaluate_packages
  evaluate_packages-HasDistinctKeys [] h = tt
  evaluate_packages-HasDistinctKeys (entry ∷ d) h =
      (evaluate_packages-get d entry.0 h.0, evaluate_packages-HasDistinctKeys d h.1)

  pub sum-evaluate_packages :
      (d : Dict ActivePackageRiskState)
      → sum_by reserved (evaluate_packages timeout_ms now_ns d).0 ≡ sum_by reserved d
  unfolding evaluate_packages
  sum-evaluate_packages [] = refl
  sum-evaluate_packages (entry ∷ d) =
      rw (evaluate_package-reserved entry.1, sum-evaluate_packages d) refl

  pub length-evaluate_packages :
      (d : Dict ActivePackageRiskState)
      → length (evaluate_packages timeout_ms now_ns d).0 ≡ length d
  unfolding evaluate_packages
  length-evaluate_packages [] = refl
  length-evaluate_packages (entry ∷ d) = omega (arith, length-evaluate_packages d)

  pub evaluate_packages-IsReserving :
      (d : Dict ActivePackageRiskState)
      → AllValues IsReserving d
      → AllValues IsReserving (evaluate_packages timeout_ms now_ns d).0
  unfolding evaluate_packages
  evaluate_packages-IsReserving [] h = tt
  evaluate_packages-IsReserving (entry ∷ d) h = (
    subst (λ n. pos 0 ≤ℤ n) (sym (evaluate_package-reserved entry.1)) h.0,
    evaluate_packages-IsReserving d h.1,
  )

  abbrev deadline_passed : ActivePackageRiskState → Bool
  deadline_passed s = not s.deadline_breached && ltb_ℤ s.deadline_ts_ns now_ns

  abbrev second_leg_late : ActivePackageRiskState → Bool
  second_leg_late s =
      not (all_legs_filled s)
      && not s.second_leg_timeout_breached
      && is_late s.first_fill_ts_ns now_ns (timeout_ms *ℤ ns_per_ms)

  -- There is nothing to report of the package.
  record IsReported (s : ActivePackageRiskState) : Type 0 where
    deadline : deadline_passed s ≡ false
    second_leg : second_leg_late s ≡ false

  check_second_leg-IsReported :
      (s : ActivePackageRiskState)
      → deadline_passed s ≡ false
      → IsReported (check_second_leg timeout_ms now_ns s).0
  unfolding check_second_leg
  check_second_leg-IsReported s h = elim (Bool-cases (second_leg_late s)) [
    | inl late ↦ rw late (record { deadline = h; second_leg = ground arith })
    | inr early ↦ rw early (record { deadline = h; second_leg = early })
  ]

  evaluate_package-IsReported :
      (s : ActivePackageRiskState) → IsReported (evaluate_package timeout_ms now_ns s).0
  unfolding evaluate_package check_deadline check_second_leg
  evaluate_package-IsReported s = elim (Bool-cases (deadline_passed s)) [
    | inl late ↦ rw late (check_second_leg-IsReported (record s { deadline_breached = true }) refl)
    | inr early ↦ rw early (check_second_leg-IsReported s early)
  ]

  evaluate_reported :
      (s : ActivePackageRiskState) → IsReported s → evaluate_package timeout_ms now_ns s ≡ (s, [])
  unfolding evaluate_package check_deadline check_second_leg
  evaluate_reported s r = rw (r.deadline, r.second_leg) refl

  evaluate_packages-again :
      (d : Dict ActivePackageRiskState)
      → (let d' = (evaluate_packages timeout_ms now_ns d).0 in
          evaluate_packages timeout_ms now_ns d' ≡ (d', []))
  unfolding evaluate_packages
  evaluate_packages-again [] = refl
  evaluate_packages-again (entry ∷ d) =
      let s' = (evaluate_package timeout_ms now_ns entry.1).0 in
      rw (evaluate_reported s' (evaluate_package-IsReported entry.1), evaluate_packages-again d)
        refl

-- A scan of the active packages straight after a scan at the same time reports nothing, and changes
-- nothing.
pub evaluate_active_risk_again :
    (m : ExecutionRiskManager) (now_ns : ℤ)
    → (let m' = (evaluate_active_risk m now_ns).0 in evaluate_active_risk m' now_ns ≡ (m', []))
unfolding evaluate_active_risk
evaluate_active_risk_again m now_ns =
    let again =
      evaluate_packages-again m.config.second_leg_timeout_ms now_ns m.exposure.active_packages in
    ap (λ r. (record m { exposure = record m.exposure { active_packages = r.0 } }, r.1)) again

pub evaluate-IsWithinLimits :
    (m : ExecutionRiskManager) (now_ns : ℤ)
    → IsWithinLimits m.config m.exposure
    → IsWithinLimits m.config (evaluate_active_risk m now_ns).0.exposure
unfolding evaluate_active_risk
evaluate-IsWithinLimits m now_ns v =
    let ms = m.config.second_leg_timeout_ms in
    let d = m.exposure.active_packages in
    record {
      distinct = evaluate_packages-HasDistinctKeys ms now_ns d v.distinct;
      accounted = v.accounted ∙ sym (sum-evaluate_packages ms now_ns d);
      nonneg = evaluate_packages-IsReserving ms now_ns d v.nonneg;
      within_total = v.within_total;
      within_count = omega (arith, length-evaluate_packages ms now_ns d, v.within_count);
    }
