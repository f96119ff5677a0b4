-- ===== src/Risk/Allowed.antt =====
-- `validate_pre_trade` of executor/risk.py: every limit that a request meets when it is allowed.
use polymarket_trade_executo.Common.{
  String, ◌≡◌, refl, sym, ap, ◌∙◌, arith, true, false, Bool-cases, inl, inr, none, some, List, [],
  ◌∷◌, ok, string_eq, if◌then◌else◌, ◌⊎◌, Ensures, Ensures-guard, Ensures-bind, Ensures-ok,
}
use polymarket_trade_executo.Common.Int.{ℤ, pos, ◌+ℤ◌, ◌≤ℤ◌, ◌<ℤ◌, leb_ℤ, ltb_ℤ}
use polymarket_trade_executo.Common.Dict.{Dict, get, get_or, has}
use polymarket_trade_executo.Common.Lists.{length, is_empty, All}
use polymarket_trade_executo.Risk.Types.{PreTradeRiskRequest}
use polymarket_trade_executo.Risk.Manager.{ExecutionRiskManager, is_trading_halted}
use polymarket_trade_executo.Risk.PreTrade.{
  SetOrder, market_ids_from_plan, market_notional_from_plan, has_some, trading_block_reject,
  validate_request, check_market_cooldowns, check_market_conflicts, check_market_notionals,
  check_activity, check_amounts, check_request, validate_pre_trade,
}
use polymarket_trade_executo.Risk.Passed.{IsFreshLeg, check_request-Fails, after_checks-allowed}

module _ (m : ExecutionRiskManager) (request : PreTradeRiskRequest) (now_ns : ℤ) where
  -- What the activity checks ask for: nothing that is active or cooling conflicts, and there is room.
  pub record IsFree (order : SetOrder) : Type 0 where
    pub relation_cool : get_or m.relation_cooldowns request.relation_id (pos 0) ≤ℤ now_ns
    pub markets_cool :
        All
          (λ id. get_or m.market_cooldowns id (pos 0) ≤ℤ now_ns)
          (market_ids_from_plan order request.plan)
    pub package_free : get m.exposure.active_packages request.package_id ≡ none
    pub opportunity_free : get m.active_opportunity_to_package request.plan.opportunity_id ≡ none
    pub relation_free : has_some m.active_relation_packages request.relation_id ≡ false
    pub markets_free :
        (m.config.block_conflicting_markets ≡ false)
        ⊎ All
            (λ id. has_some m.active_market_packages id ≡ false)
            (market_ids_from_plan order request.plan)
    pub room : pos (length m.exposure.active_packages) <ℤ m.config.max_simultaneous_active_packages

  -- What the checks of the amounts ask for.
  pub record IsAffordable : Type 0 where
    pub profit : m.config.min_expected_net_profit_cents ≤ℤ request.plan.expected_net_profit_cents
    pub package_notional :
        request.plan.total_notional_cents ≤ℤ m.config.max_notional_per_package_cents
    pub total_notional :
        m.exposure.total_open_notional_cents +ℤ request.plan.total_notional_cents
        ≤ℤ m.config.max_total_open_notional_cents
    pub market_notionals :
        All
          (λ entry.
            get_or m.exposure.open_notional_by_market_cents entry.0 (pos 0) +ℤ entry.1
            ≤ℤ m.config.max_notional_per_market_cents)
          (market_notional_from_plan request.plan)

  pub record IsAllowed (order : SetOrder) : Type 0 where
    pub not_halted : is_trading_halted m ≡ false
    pub has_legs : is_empty request.plan.legs ≡ false
    pub is_free : IsFree order
    pub affordable : IsAffordable
    pub fresh : All (IsFreshLeg m request now_ns) request.plan.legs

  absent : {V : Type 0} (d : Dict V) (k : String) → has d k ≡ false → get d k ≡ none
  absent d k h =
      elim (get d k) as (λ o. (elim o [ none ↦ false | some _ ↦ true ]) ≡ false → o ≡ none) [
        | none ↦ λ e. refl
        | some v ↦ λ e. cc
      ]
        h

  cooldowns-Ensures :
      (ids : List String)
      → Ensures
          (λ _. All (λ id. get_or m.market_cooldowns id (pos 0) ≤ℤ now_ns) ids)
          (check_market_cooldowns m request ids now_ns)
  unfolding check_market_cooldowns
  cooldowns-Ensures [] = Ensures-ok tt tt
  cooldowns-Ensures (id ∷ ids) =
      Ensures-guard (ltb_ℤ now_ns (get_or m.market_cooldowns id (pos 0))) _ _
        λ cool. record { at = λ done e. (ground (arith, cool), (cooldowns-Ensures ids).at done e) }

  conflicts-Ensures :
      (ids : List String)
      → Ensures
          (λ _. All (λ id. has_some m.active_market_packages id ≡ false) ids)
          (check_market_conflicts m request ids now_ns)
  unfolding check_market_conflicts
  conflicts-Ensures [] = Ensures-ok tt tt
  conflicts-Ensures (id ∷ ids) =
      Ensures-guard (has_some m.active_market_packages id) _ _
        λ clear. record { at = λ done e. (clear, (conflicts-Ensures ids).at done e) }

  notionals-Ensures :
      (d : Dict ℤ)
      → Ensures
          (λ _.
            All
              (λ entry.
                get_or m.exposure.open_notional_by_market_cents entry.0 (pos 0) +ℤ entry.1
                ≤ℤ m.config.max_notional_per_market_cents)
              d)
          (check_market_notionals m request d now_ns)
  unfolding check_market_notionals
  notionals-Ensures [] = Ensures-ok tt tt
  notionals-Ensures (entry ∷ d) =
      Ensures-guard
        (ltb_ℤ m.config.max_notional_per_market_cents
          (get_or m.exposure.open_notional_by_market_cents entry.0 (pos 0) +ℤ entry.1))
        _ _
        λ within. record {
          at = λ done e. (ground (arith, within), (notionals-Ensures d).at done e);
        }

  activity-IsFree :
      (order : SetOrder) → Ensures (λ _. IsFree order) (check_activity m order request now_ns)
  unfolding check_activity
  activity-IsFree order =
      let ids = market_ids_from_plan order request.plan in
      let block = m.config.block_conflicting_markets in
      Ensures-guard (ltb_ℤ now_ns (get_or m.relation_cooldowns request.relation_id (pos 0))) _ _
        λ relation_cool. Ensures-bind (check_market_cooldowns m request ids now_ns) _ λ done cool.
          Ensures-guard (has m.exposure.active_packages request.package_id) _ _ λ new_package.
            Ensures-guard (has m.active_opportunity_to_package request.plan.opportunity_id) _ _
              λ new_opportunity.
                Ensures-guard (has_some m.active_relation_packages request.relation_id) _ _
                  λ relation_free.
                    Ensures-bind
                      (if block then check_market_conflicts m request ids now_ns else ok tt) _
                      λ done' conflicts.
                        Ensures-guard
                          (leb_ℤ m.config.max_simultaneous_active_packages
                            (pos (length m.exposure.active_packages)))
                          _ _
                          λ room. Ensures-ok tt (record {
                            relation_cool = ground (arith, relation_cool);
                            markets_cool = (cooldowns-Ensures ids).at done cool;
                            package_free =
                                absent m.exposure.active_packages request.package_id new_package;
                            opportunity_free =
                                absent m.active_opportunity_to_package request.plan.opportunity_id
                                  new_opportunity;
                            relation_free = relation_free;
                            markets_free = elim (Bool-cases block) [
                              | inl on ↦ inr (
                                  (conflicts-Ensures ids).at done' (
                                    sym (
                                      ap
                                        (λ b.
                                          if b
                                          then check_market_conflicts m request ids now_ns
                                          else ok tt)
                                        on)
                                    ∙ conflicts))
                              | inr off ↦ inl off
                            ];
                            room = ground (arith, room);
                          })

  amounts-IsAffordable : Ensures (λ _. IsAffordable) (check_amounts m request now_ns)
  unfolding check_amounts
  amounts-IsAffordable = record {
    at = λ done e. record {
      profit = ground (arith, e);
      package_notional = ground (arith, e);
      total_notional = ground (arith, e);
      market_notionals =
          (notionals-Ensures (market_notional_from_plan request.plan)).at done (ground (arith, e));
    };
  }

  -- Where validate_pre_trade allows a request, the request meets every limit.
  pub validate_pre_trade-IsAllowed :
      (order : SetOrder)
      → (validate_pre_trade m order request now_ns).1.allowed ≡ true
      → IsAllowed order
  unfolding validate_pre_trade check_request trading_block_reject validate_request
  validate_pre_trade-IsAllowed order allowed =
      let (passed, fresh) =
        after_checks-allowed m request now_ns (check_request m order request now_ns)
          (check_request-Fails m request now_ns order) allowed in
      record {
        not_halted = ground (arith, passed);
        has_legs = ground (arith, passed);
        is_free = (activity-IsFree order).at tt (ground (arith, passed));
        affordable = amounts-IsAffordable.at tt (ground (arith, passed));
        fresh = fresh;
      }
