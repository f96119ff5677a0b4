-- ===== src/Risk/Registered.antt =====
-- `register_package` of executor/risk.py: what a registration that is allowed has done, and that the
-- reservation it makes is never refused.
use polymarket_trade_executo.Common.{
  String, ◌≡◌, refl, sym, ap, ◌∙◌, subst, arith, Bool, true, false, Bool-cases, inl, inr, none,
  Result, ok, err,
}
use polymarket_trade_executo.Common.Int.{ℤ}
use polymarket_trade_executo.Common.Dict.{get}
use polymarket_trade_executo.Risk.Counter.{add}
use polymarket_trade_executo.Risk.Types.{
  RiskReasonCode, RiskText, allow, deny, RiskDecision, PreTradeRiskRequest,
}
use polymarket_trade_executo.Risk.Exposure.{
  ActivePackageRiskState, InMemoryExposureTracker, reserve_package, reserve_unless,
}
use polymarket_trade_executo.Risk.Manager.{ExecutionRiskManager, is_trading_halted}
use polymarket_trade_executo.Risk.PreTrade.{
  SetOrder, text_or, validate_pre_trade, check_request, trading_block_reject, after_checks,
}
use polymarket_trade_executo.Risk.Register.{
  build_active_package_state, index_package, register_allowed, register_package,
}
use polymarket_trade_executo.Risk.Passed.{Keeps, validate_pre_trade-Keeps}
use polymarket_trade_executo.Risk.Allowed.{IsAllowed, validate_pre_trade-IsAllowed}

-- `m'` has reserved the package, and its configuration is that of `m`.
pub record HasReserved (m : ExecutionRiskManager) (request : PreTradeRiskRequest) (now_ns : ℤ)
    (m' : ExecutionRiskManager) : Type 0 where
  pub same_config : m'.config ≡ m.config
  pub reserves :
      reserve_unless m.exposure
        (build_active_package_state request now_ns m.config.package_execution_deadline_ms)
        none
      ≡ ok m'.exposure

module _ (m : ExecutionRiskManager) (request : PreTradeRiskRequest) (now_ns : ℤ) where
  abbrev built : ActivePackageRiskState
  built = build_active_package_state request now_ns m.config.package_execution_deadline_ms

  reserve_package-free :
      get m.exposure.active_packages request.package_id ≡ none
      → reserve_package m.exposure built ≡ reserve_unless m.exposure built none
  unfolding reserve_package build_active_package_state
  reserve_package-free free = ap (reserve_unless m.exposure built) free

  register_allowed-denied :
      (r : ExecutionRiskManager × RiskDecision)
      → r.1.allowed ≡ false
      → register_allowed request now_ns r ≡ ok r
  unfolding register_allowed
  register_allowed-denied (m', decision) h = rw h refl

  abbrev Registered : Result String (ExecutionRiskManager × RiskDecision) → Type 0
  Registered result =
      (r : ExecutionRiskManager × RiskDecision) × (result ≡ ok r)
      × (r.1.allowed ≡ true)
      × HasReserved m request now_ns r.0

  reserve_unless-succeeds :
      (t : InMemoryExposureTracker) (s : ActivePackageRiskState)
      → (t' : InMemoryExposureTracker) × (reserve_unless t s none ≡ ok t')
  unfolding reserve_unless
  reserve_unless-succeeds t s = (_, refl)

  register_allowed-Registered :
      (decision : RiskDecision)
      → get m.exposure.active_packages request.package_id ≡ none
      → decision.allowed ≡ true
      → Registered (register_allowed request now_ns (m, decision))
  unfolding register_allowed index_package
  register_allowed-Registered decision free h =
      let (t', e) = reserve_unless-succeeds m.exposure built in
      let indexed = index_package m t' built in
      (
        (
          record indexed { starts_counter = add m.starts_counter now_ns },
          allow now_ns (RiskText.given "package registered"),
        ),
        rw (h, reserve_package-free free, e) refl,
        refl,
        record { same_config = refl; reserves = e },
      )

HasReserved-Keeps :
    (m m' : ExecutionRiskManager) (request : PreTradeRiskRequest) (now_ns : ℤ)
    (t : ExecutionRiskManager)
    → Keeps m m'
    → HasReserved m' request now_ns t
    → HasReserved m request now_ns t
HasReserved-Keeps m m' request now_ns t k h = record {
  same_config = h.same_config ∙ k.same_config;
  reserves = cc (k.same_config, k.same_exposure, h.reserves);
}

module _ (m : ExecutionRiskManager) (order : SetOrder) (request : PreTradeRiskRequest)
    (now_ns : ℤ) where
  package_free :
      (m' : ExecutionRiskManager)
      → Keeps m m'
      → IsAllowed m request now_ns order
      → get m'.exposure.active_packages request.package_id ≡ none
  package_free m' k a =
      ap (λ t. get t.active_packages request.package_id) k.same_exposure ∙ a.is_free.package_free

  -- what a registration has done, by whether it was allowed
  abbrev pub RegisterOutcome : Bool → ExecutionRiskManager → Type 0
  RegisterOutcome false m' = Keeps m m'
  RegisterOutcome true m' = IsAllowed m request now_ns order × HasReserved m request now_ns m'

  -- A registration returns a decision: its reservation is never refused. Where it is denied, the
  -- configuration and the exposure stay; where it is allowed, the package is reserved.
  pub register_package-returns :
      (r : ExecutionRiskManager × RiskDecision) × (register_package m order request now_ns ≡ ok r)
      × RegisterOutcome r.1.allowed r.0
  unfolding register_package
  register_package-returns =
      let v = validate_pre_trade m order request now_ns in
      let k = validate_pre_trade-Keeps m request now_ns order in
      elim (Bool-cases v.1.allowed) [
        | inl allowed ↦
            let a = validate_pre_trade-IsAllowed m request now_ns order allowed in
            let (r, e, h, reserved) =
              register_allowed-Registered v.0 request now_ns v.1 (package_free v.0 k a) allowed in
            (
              r,
              e,
              subst (λ b. RegisterOutcome b r.0) (sym h)
                  (a, HasReserved-Keeps m v.0 request now_ns r.0 k reserved),
            )
        | inr refused ↦ (
          v,
          register_allowed-denied m request now_ns v refused,
          subst (λ b. RegisterOutcome b v.0) (sym refused) k,
        )
      ]

-- A request that is denied while the kill switch is on.
abbrev pub Blocked : ExecutionRiskManager → SetOrder → PreTradeRiskRequest → ℤ → Type 0
Blocked m order request now_ns =
    (decision : RiskDecision) × (check_request m order request now_ns ≡ err decision)
    × (decision.allowed ≡ false)
    × (decision.should_halt_trading ≡ true)

pub check_request-Blocked :
    (m : ExecutionRiskManager) (order : SetOrder) (request : PreTradeRiskRequest) (now_ns : ℤ)
    → is_trading_halted m ≡ true
    → Blocked m order request now_ns
unfolding check_request trading_block_reject
check_request-Blocked m order request now_ns halted =
    let blocked : RiskReasonCode → RiskText → RiskDecision =
      λ code text. deny code text now_ns none none false true in
    elim (Bool-cases m.manual_kill_active) [
      | inl manual ↦
          let text = text_or m.manual_kill_reason "manual kill switch active" in
          (blocked RiskReasonCode.manual_kill_switch text, simp manual refl, refl, refl)
      | inr other ↦
          let auto : m.auto_kill_active ≡ true = ground (arith, halted, other) in
          let text = text_or m.auto_kill_reason "auto kill switch active" in
          (blocked RiskReasonCode.auto_kill_switch text, simp (other, auto) refl, refl, refl)
    ]

-- While trading is halted, a registration changes nothing and is denied, and its decision asks for
-- the halt.
pub register_package-halted :
    (m : ExecutionRiskManager) (order : SetOrder) (request : PreTradeRiskRequest) (now_ns : ℤ)
    → is_trading_halted m ≡ true
    → (decision : RiskDecision) × (register_package m order request now_ns ≡ ok (m, decision))
      × (decision.allowed ≡ false)
      × (decision.should_halt_trading ≡ true)
unfolding register_package validate_pre_trade
register_package-halted m order request now_ns halted =
    let (decision, stopped, refused, halt) = check_request-Blocked m order request now_ns halted in
    let after =
      ap (λ c. register_allowed request now_ns (after_checks m request now_ns c)) stopped in
    (
      decision,
      after ∙ register_allowed-denied m request now_ns (m, decision) refused,
      refused,
      halt,
    )
