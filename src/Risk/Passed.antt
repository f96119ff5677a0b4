-- ===== src/Risk/Passed.antt =====
-- `validate_pre_trade` of executor/risk.py: what holds of a request that it allows, and that it leaves
-- the exposure alone.
use polymarket_trade_executo.Common.{
  String, ◌≡◌, refl, sym, ◌∙◌, arith, Bool, true, false, Bool-cases, inl, inr, Option, none, some,
  List, [], ◌∷◌, ok, err, string_eq, Fails, Fails-ok, fails_rules,
}
use polymarket_trade_executo.Common.Int.{ℤ, ◌≤ℤ◌, ltb_ℤ}
use polymarket_trade_executo.Common.Dict.{Dict}
use polymarket_trade_executo.Common.Lists.{All}
use polymarket_trade_executo.Planner.Types.{PlannedLeg}
use polymarket_trade_executo.Risk.Types.{
  RiskReasonCode, RiskText, RiskDecision, PreTradeRiskRequest,
}
use polymarket_trade_executo.Risk.Manager.{ExecutionRiskManager, trigger_auto_kill}
use polymarket_trade_executo.Risk.PreTrade.{
  SetOrder, Check, trading_block_reject, validate_request, check_market_cooldowns,
  check_market_conflicts, check_market_notionals, check_activity, check_amounts, check_request,
  reject_stale, is_stale, displayed_shares, check_leg_freshness, after_freshness, after_checks,
  validate_pre_trade,
}

-- Only the configuration and the exposure matter for the limits; these stay.
pub record Keeps (m m' : ExecutionRiskManager) : Type 0 where
  pub same_config : m'.config ≡ m.config
  pub same_exposure : m'.exposure ≡ m.exposure

pub trigger_auto_kill-Keeps :
    (m : ExecutionRiskManager) (code : RiskReasonCode) (reason : RiskText) (now_ns : ℤ)
    → Keeps m (trigger_auto_kill m code reason now_ns).0
unfolding trigger_auto_kill
trigger_auto_kill-Keeps m code reason now_ns = ground arith

-- A denial never says that it is allowed.
abbrev pub Denies : RiskDecision → Type 0
Denies decision = decision.allowed ≡ false

pub trigger_auto_kill-Denies :
    (m : ExecutionRiskManager) (code : RiskReasonCode) (reason : RiskText) (now_ns : ℤ)
    → Denies (trigger_auto_kill m code reason now_ns).1
unfolding trigger_auto_kill
trigger_auto_kill-Denies m code reason now_ns = ground arith

false-is_not-true : (let b : Bool = false in b ≡ true) → ⊥
false-is_not-true h = cc

module _ (m : ExecutionRiskManager) (request : PreTradeRiskRequest) (now_ns : ℤ) where
  check_market_cooldowns-Fails :
      (ids : List String) → Fails Denies (check_market_cooldowns m request ids now_ns)
  unfolding check_market_cooldowns
  check_market_cooldowns-Fails [] = Fails-ok _
  check_market_cooldowns-Fails (id ∷ ids) =
      let rest = check_market_cooldowns-Fails ids in search (fails_rules, rest)

  check_market_conflicts-Fails :
      (ids : List String) → Fails Denies (check_market_conflicts m request ids now_ns)
  unfolding check_market_conflicts
  check_market_conflicts-Fails [] = Fails-ok _
  check_market_conflicts-Fails (id ∷ ids) =
      let rest = check_market_conflicts-Fails ids in search (fails_rules, rest)

  check_market_notionals-Fails :
      (d : Dict ℤ) → Fails Denies (check_market_notionals m request d now_ns)
  unfolding check_market_notionals
  check_market_notionals-Fails [] = Fails-ok _
  check_market_notionals-Fails (entry ∷ d) =
      let rest = check_market_notionals-Fails d in search (fails_rules, rest)

  pub check_request-Fails : (order : SetOrder) → Fails Denies (check_request m order request now_ns)
  unfolding check_request trading_block_reject validate_request check_activity check_amounts
  check_request-Fails order =
      search
        (
          fails_rules, check_market_cooldowns-Fails, check_market_conflicts-Fails,
          check_market_notionals-Fails,
        )
        depth 16

  reject_stale-Keeps : (leg : PlannedLeg) → Keeps m (reject_stale m request leg now_ns).0
  unfolding reject_stale trigger_auto_kill
  reject_stale-Keeps leg = ground arith

  check_leg_freshness-Keeps :
      (legs : List PlannedLeg) → Keeps m (check_leg_freshness m request legs now_ns).0
  unfolding check_leg_freshness
  check_leg_freshness-Keeps [] = record { same_config = refl; same_exposure = refl }
  check_leg_freshness-Keeps (leg ∷ legs) =
      ground (arith, check_leg_freshness-Keeps legs, reject_stale-Keeps leg)

  reject_stale-Denies : (leg : PlannedLeg) → Denies (reject_stale m request leg now_ns).1
  unfolding reject_stale trigger_auto_kill
  reject_stale-Denies leg = ground arith

  -- The freshness checks end with a denial, or with nothing when every leg is fresh and large enough.
  abbrev pub IsFreshLeg : PlannedLeg → Type 0
  IsFreshLeg leg =
      (is_stale m leg now_ns ≡ false)
      × (m.config.min_displayed_executable_size_shares ≤ℤ displayed_shares request.plan leg)

  abbrev FreshnessOutcome : List PlannedLeg → Option RiskDecision → Type 0
  FreshnessOutcome legs none = All IsFreshLeg legs
  FreshnessOutcome legs (some decision) = Denies decision

  outcome_cons :
      (leg : PlannedLeg) (legs : List PlannedLeg) (o : Option RiskDecision)
      → IsFreshLeg leg
      → FreshnessOutcome legs o
      → FreshnessOutcome (leg ∷ legs) o
  outcome_cons leg legs none fresh h = (fresh, h)
  outcome_cons leg legs (some decision) fresh h = h

  check_leg_freshness-Outcome :
      (legs : List PlannedLeg) → FreshnessOutcome legs (check_leg_freshness m request legs now_ns).1
  unfolding check_leg_freshness
  check_leg_freshness-Outcome [] = tt
  check_leg_freshness-Outcome (leg ∷ legs) = elim (Bool-cases (is_stale m leg now_ns)) [
    | inl stale ↦ rw stale (reject_stale-Denies leg)
    | inr fresh ↦
        elim (Bool-cases (
          ltb_ℤ (displayed_shares request.plan leg)
            m.config.min_displayed_executable_size_shares)) [
              | inl small ↦ rw (fresh, small) refl
              | inr large ↦
                  rw (fresh, large)
                    (outcome_cons leg legs (check_leg_freshness m request legs now_ns).1
                      (fresh, ground (arith, large)) (check_leg_freshness-Outcome legs))
            ]
  ]

  after_freshness-allowed :
      (r : ExecutionRiskManager × Option RiskDecision)
      → FreshnessOutcome request.plan.legs r.1
      → Keeps m r.0
      → (after_freshness now_ns r).1.allowed ≡ true
      → All IsFreshLeg request.plan.legs
  after_freshness-allowed (m', none) h k allowed = h
  after_freshness-allowed (m', some decision) h k allowed =
      absurd (false-is_not-true (sym h ∙ allowed))

  after_freshness-Keeps :
      (r : ExecutionRiskManager × Option RiskDecision)
      → Keeps m r.0
      → Keeps m (after_freshness now_ns r).0
  after_freshness-Keeps (m', none) k = k
  after_freshness-Keeps (m', some decision) k = k

  after_checks-Keeps : (r : Check) → Keeps m (after_checks m request now_ns r).0
  after_checks-Keeps (err decision) = record { same_config = refl; same_exposure = refl }
  after_checks-Keeps (ok done) =
      after_freshness-Keeps (check_leg_freshness m request request.plan.legs now_ns)
        (check_leg_freshness-Keeps request.plan.legs)

  pub validate_pre_trade-Keeps :
      (order : SetOrder) → Keeps m (validate_pre_trade m order request now_ns).0
  unfolding validate_pre_trade
  validate_pre_trade-Keeps order = after_checks-Keeps (check_request m order request now_ns)

  pub after_checks-allowed :
      (r : Check)
      → Fails Denies r
      → (after_checks m request now_ns r).1.allowed ≡ true
      → (r ≡ ok tt) × All IsFreshLeg request.plan.legs
  after_checks-allowed (err decision) f allowed =
      absurd (false-is_not-true (sym (f.at decision refl) ∙ allowed))
  after_checks-allowed (ok done) f allowed = (
    refl,
    after_freshness-allowed (check_leg_freshness m request request.plan.legs now_ns)
        (check_leg_freshness-Outcome request.plan.legs)
        (check_leg_freshness-Keeps request.plan.legs) allowed,
  )
