-- ===== src/Risk/PreTrade.antt =====
-- executor/risk.py: validate_pre_trade and the checks it makes. Python gives the elements of a set in
-- an order of its own: `order` gives the elements of the set of a list in that order.
use polymarket_trade_executo.Common.{
  String, Bool, true, false, not, ◌||◌, Option, none, some, List, [], ◌∷◌, map, Result, ok, err,
  ◌>>◌, raise_if, ◌==◌, string_eq, if◌then◌else◌,
}
use polymarket_trade_executo.Common.Int.{ℤ, pos, ◌+ℤ◌, ◌-ℤ◌, ◌*ℤ◌, ◌/ℤ◌, leb_ℤ, ltb_ℤ, max_ℤ}
use polymarket_trade_executo.Common.Dict.{Dict, get_or, set, has}
use polymarket_trade_executo.Common.Lists.{length, is_empty}
use polymarket_trade_executo.Planner.Types.{ExecutionPlan, PlannedLeg, ns_per_ms}
use polymarket_trade_executo.Risk.Types.{
  RiskReasonCode, RiskText, RiskDecision, PreTradeRiskRequest, allow, deny,
}
use polymarket_trade_executo.Risk.Counter.{add, count}
use polymarket_trade_executo.Risk.Manager.{ExecutionRiskManager, trigger_auto_kill}

abbrev pub SetOrder : Type 0
SetOrder = List String → List String

-- A check that lets a request pass, or the decision that denies it.
abbrev pub Check : Type 0
Check = Result RiskDecision (Unit {0})

abbrev pub leg_market_ids : ExecutionPlan → List String
leg_market_ids plan = map (λ leg. leg.market_id) plan.legs

-- `_market_ids_from_plan`
abbrev pub market_ids_from_plan : SetOrder → ExecutionPlan → List String
market_ids_from_plan order plan = order (leg_market_ids plan)

-- the loop of `_market_notional_from_plan`
unfoldable pub add_notionals : Dict ℤ → List PlannedLeg → Dict ℤ
add_notionals d [] = d
add_notionals d (leg ∷ legs) =
    add_notionals
      (set d leg.market_id
        (get_or d leg.market_id (pos 0) +ℤ leg.quantity *ℤ leg.limit_price_ticks))
      legs

abbrev pub market_notional_from_plan : ExecutionPlan → Dict ℤ
market_notional_from_plan plan = add_notionals [] plan.legs

-- `reason or default`
abbrev pub text_or : Option RiskText → String → RiskText
text_or none default = RiskText.given default
text_or (some (RiskText.given text)) default =
    if text == "" then RiskText.given default else RiskText.given text
text_or (some text) default = text

unfoldable pub trading_block_reject : ExecutionRiskManager → (now_ns : ℤ) → Check
trading_block_reject m now_ns = do
  raise_if m.manual_kill_active (
      deny RiskReasonCode.manual_kill_switch
        (text_or m.manual_kill_reason "manual kill switch active") now_ns none none false true)
  raise_if m.auto_kill_active (
      deny RiskReasonCode.auto_kill_switch (text_or m.auto_kill_reason "auto kill switch active")
        now_ns none none false true)
  ok tt

unfoldable pub validate_request : PreTradeRiskRequest → (now_ns : ℤ) → Check
validate_request request now_ns =
    let invalid = RiskReasonCode.invalid_request in
    do
      raise_if (request.package_id == "") (
          deny invalid (RiskText.given "package_id must be non-empty") now_ns none none false false)
      raise_if (request.relation_id == "") (
          deny invalid (RiskText.given "relation_id must be non-empty") now_ns
            (some request.package_id) none false false)
      raise_if (is_empty request.plan.legs) (
          deny invalid (RiskText.given "plan must have at least one leg") now_ns
            (some request.package_id) (some request.relation_id) false false)
      ok tt

-- the denial of a request, with its ids
abbrev pub denied : PreTradeRiskRequest → (now_ns : ℤ) → RiskReasonCode → RiskText → RiskDecision
denied request now_ns code reason =
    deny code reason now_ns (some request.package_id) (some request.relation_id) false false

unfoldable pub check_market_cooldowns :
    ExecutionRiskManager → PreTradeRiskRequest → List String → (now_ns : ℤ) → Check
check_market_cooldowns m request [] now_ns = ok tt
check_market_cooldowns m request (market_id ∷ ids) now_ns =
    let until = get_or m.market_cooldowns market_id (pos 0) in
    raise_if (ltb_ℤ now_ns until) (
      denied request now_ns RiskReasonCode.market_cooldown_active
        (RiskText.market_cools market_id until))
    >> check_market_cooldowns m request ids now_ns

-- `bool(d.get(k))` of a dict of sets
abbrev pub has_some : Dict (List String) → String → Bool
has_some d k = not (is_empty (get_or d k []))

unfoldable pub check_market_conflicts :
    ExecutionRiskManager → PreTradeRiskRequest → List String → (now_ns : ℤ) → Check
check_market_conflicts m request [] now_ns = ok tt
check_market_conflicts m request (market_id ∷ ids) now_ns =
    raise_if (has_some m.active_market_packages market_id) (
      denied request now_ns RiskReasonCode.conflicting_active_package
        (RiskText.market_conflict market_id))
    >> check_market_conflicts m request ids now_ns

unfoldable pub check_market_notionals :
    ExecutionRiskManager → PreTradeRiskRequest → Dict ℤ → (now_ns : ℤ) → Check
check_market_notionals m request [] now_ns = ok tt
check_market_notionals m request (entry ∷ entries) now_ns =
    let projected = get_or m.exposure.open_notional_by_market_cents entry.0 (pos 0) +ℤ entry.1 in
    let cap = m.config.max_notional_per_market_cents in
    raise_if (ltb_ℤ cap projected) (
      denied request now_ns RiskReasonCode.max_notional_per_market
        (RiskText.market_notional entry.0 projected cap))
    >> check_market_notionals m request entries now_ns

-- the checks of `validate_pre_trade` from the cooldowns to the number of packages
unfoldable pub check_activity :
    ExecutionRiskManager → SetOrder → PreTradeRiskRequest → (now_ns : ℤ) → Check
check_activity m order request now_ns =
    let market_ids = market_ids_from_plan order request.plan in
    let until = get_or m.relation_cooldowns request.relation_id (pos 0) in
    let active = length m.exposure.active_packages in
    let cap = m.config.max_simultaneous_active_packages in
    do
      raise_if (ltb_ℤ now_ns until) (
          denied request now_ns RiskReasonCode.relation_cooldown_active
            (RiskText.relation_cools request.relation_id until))
      check_market_cooldowns m request market_ids now_ns
      raise_if (has m.exposure.active_packages request.package_id) (
          denied request now_ns RiskReasonCode.duplicate_package
            (RiskText.package_active request.package_id))
      raise_if (has m.active_opportunity_to_package request.plan.opportunity_id) (
          denied request now_ns RiskReasonCode.duplicate_package
            (RiskText.opportunity_active request.plan.opportunity_id))
      raise_if (has_some m.active_relation_packages request.relation_id) (
          denied request now_ns RiskReasonCode.conflicting_active_package
            (RiskText.relation_active request.relation_id))
      if m.config.block_conflicting_markets
          then check_market_conflicts m request market_ids now_ns
          else ok tt
      raise_if (leb_ℤ cap (pos active)) (
          denied request now_ns RiskReasonCode.max_active_packages
            (RiskText.package_cap active cap))
      ok tt

-- the checks of `validate_pre_trade` on profit and notional
unfoldable pub check_amounts : ExecutionRiskManager → PreTradeRiskRequest → (now_ns : ℤ) → Check
check_amounts m request now_ns =
    let plan = request.plan in
    let c = m.config in
    let projected = m.exposure.total_open_notional_cents +ℤ plan.total_notional_cents in
    do
      raise_if (ltb_ℤ plan.expected_net_profit_cents c.min_expected_net_profit_cents) (
          denied request now_ns RiskReasonCode.min_expected_net_profit
            (RiskText.profit_below plan.expected_net_profit_cents c.min_expected_net_profit_cents))
      raise_if (ltb_ℤ c.max_notional_per_package_cents plan.total_notional_cents) (
          denied request now_ns RiskReasonCode.max_notional_per_package
            (RiskText.package_notional plan.total_notional_cents c.max_notional_per_package_cents))
      raise_if (ltb_ℤ c.max_total_open_notional_cents projected) (
          denied request now_ns RiskReasonCode.max_total_open_notional
            (RiskText.total_notional projected c.max_total_open_notional_cents))
      check_market_notionals m request (market_notional_from_plan plan) now_ns

unfoldable pub check_request :
    ExecutionRiskManager → SetOrder → PreTradeRiskRequest → (now_ns : ℤ) → Check
check_request m order request now_ns = do
  trading_block_reject m now_ns
  validate_request request now_ns
  check_activity m order request now_ns
  check_amounts m request now_ns

-- a leg whose snapshot is stale: the stale counter may trigger the kill switch
unfoldable pub reject_stale :
    ExecutionRiskManager
    → PreTradeRiskRequest
    → PlannedLeg
    → (now_ns : ℤ) → ExecutionRiskManager × RiskDecision
reject_stale m request leg now_ns =
    let (counter, stale_count) = count (add m.stale_counter now_ns) now_ns in
    let m' = record m { stale_counter = counter } in
    let threshold = m.config.repeated_stale_data_threshold in
    if leb_ℤ threshold (pos stale_count)
    then trigger_auto_kill m' RiskReasonCode.repeated_stale_data_threshold
        (RiskText.stale_count stale_count threshold) now_ns
    else (
      m',
      denied request now_ns RiskReasonCode.stale_leg_data (
          RiskText.leg_stale leg.leg_id ((now_ns -ℤ leg.snapshot_ts_ns) /ℤ ns_per_ms)
            m.config.max_leg_snapshot_age_ms),
    )

abbrev pub is_stale : ExecutionRiskManager → PlannedLeg → (now_ns : ℤ) → Bool
is_stale m leg now_ns =
    let age_ns = now_ns -ℤ leg.snapshot_ts_ns in
    ltb_ℤ age_ns (pos 0) || ltb_ℤ (m.config.max_leg_snapshot_age_ms *ℤ ns_per_ms) age_ns

abbrev pub displayed_shares : ExecutionPlan → PlannedLeg → ℤ
displayed_shares plan leg =
    leg.available_units_at_plan *ℤ max_ℤ (pos 1) (leg.quantity /ℤ max_ℤ plan.package_units (pos 1))

-- `_check_leg_freshness_and_displayed_size`, on the legs that are left
unfoldable pub check_leg_freshness :
    ExecutionRiskManager
    → PreTradeRiskRequest
    → List PlannedLeg
    → (now_ns : ℤ) → ExecutionRiskManager × Option RiskDecision
check_leg_freshness m request [] now_ns = (m, none)
check_leg_freshness m request (leg ∷ legs) now_ns =
    let rest = check_leg_freshness m request legs now_ns in
    let shares = displayed_shares request.plan leg in
    let minimum = m.config.min_displayed_executable_size_shares in
    let (stale, decision) = reject_stale m request leg now_ns in
    if is_stale m leg now_ns
    then (stale, some decision)
    else (if ltb_ℤ shares minimum
        then (
          m,
          some (
              denied request now_ns RiskReasonCode.min_displayed_executable_size
                (RiskText.displayed_below leg.leg_id shares minimum)),
        )
        else rest)

-- what is returned after the checks of the request
abbrev pub after_freshness :
    (now_ns : ℤ) → ExecutionRiskManager × Option RiskDecision → ExecutionRiskManager × RiskDecision
after_freshness now_ns (m, none) = (m, allow now_ns (RiskText.given "allowed"))
after_freshness now_ns (m, some decision) = (m, decision)

abbrev pub after_checks :
    ExecutionRiskManager
    → PreTradeRiskRequest
    → (now_ns : ℤ) → Check
    → ExecutionRiskManager × RiskDecision
after_checks m request now_ns (err decision) = (m, decision)
after_checks m request now_ns (ok _) =
    after_freshness now_ns (check_leg_freshness m request request.plan.legs now_ns)

unfoldable pub validate_pre_trade :
    ExecutionRiskManager
    → SetOrder
    → PreTradeRiskRequest
    → (now_ns : ℤ) → ExecutionRiskManager × RiskDecision
validate_pre_trade m order request now_ns =
    after_checks m request now_ns (check_request m order request now_ns)
