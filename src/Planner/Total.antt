-- ===== src/Planner/Total.antt =====
-- `plan` of executor/planner.py raises nothing: it returns a plan or a rejection.
use polymarket_trade_executo.Common.{
  ◌≡◌, refl, sym, subst, arith, false, Option, none, some, List, [], ◌∷◌, map, ok, err, Result, ◌⊎◌,
  inl, inr, Fails, Fails-ok, Fails-if, Fails-guard, Fails-bind, fails_rules, ◌∙◌, ok-injective,
}
use polymarket_trade_executo.Common.Int.{ℤ, pos, ◌<ℤ◌, leb_ℤ, ltb_ℤ}
use polymarket_trade_executo.Common.Lists.{All, is_empty}
use polymarket_trade_executo.Planner.Types.{
  OpportunityLeg, Opportunity, PricingSnapshot, PlannerConfig, PlannerDecision, ExecutionPlan,
  LegPlanInputs, Stop, decided, zero_division, empty_min,
}
use polymarket_trade_executo.Planner.Prices.{floor_div, compute_marketable_limit}
use polymarket_trade_executo.Planner.Checks.{validate_opportunity, validate_snapshot}
use polymarket_trade_executo.Planner.Units.{
  min_of, ratios, leg_caps, notional_cap, choose_package_units,
}
use polymarket_trade_executo.Planner.Build.{Totals, leg_fee, add_legs, no_totals, build_plan}
use polymarket_trade_executo.Planner.Plan.{
  Snapshots, touch_price, touch_size, plan_on, plan_found, plan_leg, leg_inputs, plan_steps,
  returned, plan,
}
use polymarket_trade_executo.Planner.Passed.{
  IsOpenLeg, validate_opportunity-IsOpen, validate_snapshot-IsFresh,
}
use polymarket_trade_executo.Planner.Inputs.{leg_inputs-AreInputs, ratios-positive}
use polymarket_trade_executo.Planner.Sums.{sum_of-positive, leg_caps-returns}
use polymarket_trade_executo.Planner.Outcomes.{
  IsRejection, Rejects, outcome_rules, marketable_limit-Fails, validate_snapshot-Fails,
  validate_opportunity-Fails, floor_div-Fails, ceil_div-Fails, scale-positive, rejects_now,
}

module _ (config : PlannerConfig) (now_ns : ℤ) where
  plan_found-Fails :
      (leg : OpportunityLeg) (found : Option PricingSnapshot)
      → pos 0 <ℤ leg.quantity_ratio
      → Fails (Rejects now_ns) (plan_found config now_ns leg found)
  unfolding plan_on
  plan_found-Fails leg none h = search outcome_rules
  plan_found-Fails leg (some snapshot) h =
      Fails-bind (validate_snapshot config leg snapshot now_ns) _
        (validate_snapshot-Fails config leg snapshot now_ns)
        λ done is_valid.
          let fresh = (validate_snapshot-IsFresh config leg snapshot now_ns).at done is_valid in
          let limited =
            marketable_limit-Fails config leg snapshot (touch_price leg.side snapshot) now_ns
              fresh.positive_tick in
          Fails-bind (floor_div (touch_size leg.side snapshot) leg.quantity_ratio) _
            (floor_div-Fails (touch_size leg.side snapshot) leg.quantity_ratio h)
            λ units _.
              Fails-guard (leb_ℤ units (pos 0)) _ _ (λ _. rejects_now now_ns _ refl)
                λ _.
                  Fails-bind
                    (compute_marketable_limit config leg snapshot (touch_price leg.side snapshot)
                      now_ns)
                    _ limited λ limit _. Fails-ok _

  leg_inputs-Fails :
      (snapshots : Snapshots) (legs : List OpportunityLeg)
      → All IsOpenLeg legs
      → Fails (Rejects now_ns) (leg_inputs config snapshots now_ns legs)
  unfolding leg_inputs plan_leg
  leg_inputs-Fails snapshots [] h = Fails-ok _
  leg_inputs-Fails snapshots (leg ∷ legs) h =
      Fails-bind (plan_leg config snapshots now_ns leg) _
        (plan_found-Fails leg (snapshots leg.market_id) h.0.positive_ratio)
        λ item _.
          Fails-bind (leg_inputs config snapshots now_ns legs) _
            (leg_inputs-Fails snapshots legs h.1) λ items _. Fails-ok _

  leg_caps-Fails :
      {P : Stop → Type 0} (shares : ℤ) (rs : List ℤ)
      → All (λ r. pos 0 <ℤ r) rs
      → Fails P (leg_caps shares rs)
  leg_caps-Fails shares rs h = rw (leg_caps-returns shares rs h) (Fails-ok _)

  min_of_caps-Fails :
      {P : Stop → Type 0} (shares r : ℤ) (rs caps : List ℤ)
      → All (λ r. pos 0 <ℤ r) (r ∷ rs)
      → leg_caps shares (r ∷ rs) ≡ ok caps
      → Fails P (min_of caps)
  min_of_caps-Fails {P} shares r rs caps h is_caps =
      subst (λ xs. Fails P (min_of xs))
        (ok-injective (sym (leg_caps-returns shares (r ∷ rs) h) ∙ is_caps)) (Fails-ok _)

  notional_cap-Fails :
      {P : Stop → Type 0} (max_notional per_unit : ℤ) → Fails P (notional_cap max_notional per_unit)
  notional_cap-Fails max_notional per_unit =
      Fails-if (ltb_ℤ (pos 0) per_unit) _ _
        (λ e. floor_div-Fails max_notional per_unit (ground (arith, e))) (λ e. Fails-ok _)

  choose_units-Fails :
      (opportunity : Opportunity) (item : LegPlanInputs) (items : List LegPlanInputs)
      → All (λ r. pos 0 <ℤ r) (ratios (item ∷ items))
      → Fails (Rejects now_ns) (choose_package_units config opportunity (item ∷ items) now_ns)
  unfolding choose_package_units
  choose_units-Fails opportunity item items h =
      let total = sum_of-positive item.leg.quantity_ratio (ratios items) h in
      let min_caps =
        min_of_caps-Fails {P = Rejects now_ns} config.max_shares_per_leg item.leg.quantity_ratio
          (ratios items) in
      search (outcome_rules, leg_caps-Fails, notional_cap-Fails, total, h, min_caps) depth 20

  units_of_some-Fails :
      (opportunity : Opportunity) (items : List LegPlanInputs)
      → is_empty (map (λ item. item.leg) items) ≡ false
      → All (λ r. pos 0 <ℤ r) (ratios items)
      → Fails (Rejects now_ns) (choose_package_units config opportunity items now_ns)
  units_of_some-Fails opportunity [] some_leg h = cc
  units_of_some-Fails opportunity (item ∷ items) some_leg h =
      choose_units-Fails opportunity item items h

  leg_fee-Fails :
      {P : Stop → Type 0} (units : ℤ) (item : LegPlanInputs) → Fails P (leg_fee config units item)
  unfolding leg_fee
  leg_fee-Fails units item = search (fails_rules, ceil_div-Fails, scale-positive)

  add_legs-Fails :
      {P : Stop → Type 0} (units : ℤ) (items : List LegPlanInputs) (start : Totals)
      → Fails P (add_legs config units start items)
  unfolding add_legs
  add_legs-Fails units [] start = Fails-ok _
  add_legs-Fails units (item ∷ items) start =
      Fails-bind (leg_fee config units item) _ (leg_fee-Fails units item)
        λ fee _. add_legs-Fails units items _

  build_plan-Fails :
      (opportunity : Opportunity) (items : List LegPlanInputs) (units : ℤ)
      → Fails (Rejects now_ns) (build_plan config opportunity items units now_ns)
  unfolding build_plan
  build_plan-Fails opportunity items units =
      Fails-bind (add_legs config units no_totals items) _ (add_legs-Fails units items no_totals)
        λ t _.
          Fails-guard (leb_ℤ t.total_notional (pos 0)) _ _ (λ _. search outcome_rules)
            λ positive.
              let above_zero : pos 0 <ℤ t.total_notional = ground (arith, positive) in
              search (outcome_rules, above_zero) depth 12

pub plan_steps-Fails :
    (config : PlannerConfig) (opportunity : Opportunity) (snapshots : Snapshots) (now_ns : ℤ)
    → Fails (Rejects now_ns) (plan_steps config opportunity snapshots now_ns)
unfolding plan_steps
plan_steps-Fails config opportunity snapshots now_ns =
    Fails-bind (validate_opportunity config opportunity now_ns) _
      (validate_opportunity-Fails config opportunity now_ns)
      λ done is_valid.
        let is_open = (validate_opportunity-IsOpen config opportunity now_ns).at done is_valid in
        Fails-bind (leg_inputs config snapshots now_ns opportunity.legs) _
          (leg_inputs-Fails config now_ns snapshots opportunity.legs is_open.open_legs)
          λ items are_items.
            let inputs =
              (leg_inputs-AreInputs config snapshots now_ns opportunity.legs).at items are_items in
            let positive =
              ratios-positive items opportunity.legs inputs.of_legs is_open.open_legs in
            let nonempty : is_empty (map (λ item. item.leg) items) ≡ false =
              subst (λ legs. is_empty legs ≡ false) (sym inputs.of_legs) is_open.has_legs in
            Fails-bind (choose_package_units config opportunity items now_ns) _
              (units_of_some-Fails config now_ns opportunity items nonempty positive)
              λ units _. build_plan-Fails config now_ns opportunity items units

-- Of an ended call: a plan was returned, or a rejection.
abbrev pub IsDecision : (now_ns : ℤ) → PlannerDecision → Type 0
IsDecision now_ns d =
    ((p : ExecutionPlan) × (d ≡ record { plan = some p; rejection = none })) ⊎ IsRejection now_ns d

returned-decides :
    (now_ns : ℤ) (steps : Result Stop ExecutionPlan)
    → Fails (Rejects now_ns) steps
    → (d : PlannerDecision) × (returned steps ≡ ok d) × IsDecision now_ns d
returned-decides now_ns (ok p) h = (_, refl, inl (p, refl))
returned-decides now_ns (err (decided d)) h = (d, refl, inr (h.at (decided d) refl))
returned-decides now_ns (err zero_division) h = absurd (h.at zero_division refl)
returned-decides now_ns (err empty_min) h = absurd (h.at empty_min refl)

-- For every configuration, opportunity, set of snapshots and time, `plan` raises no exception: no
-- division by zero and no minimum of nothing. It returns a decision with a plan and no rejection,
-- or one with no plan and a rejection that carries the time.
pub plan_decides :
    (config : PlannerConfig) (opportunity : Opportunity) (snapshots : Snapshots) (now_ns : ℤ)
    → (d : PlannerDecision) × (plan config opportunity snapshots now_ns ≡ ok d)
      × IsDecision now_ns d
unfolding plan
plan_decides config opportunity snapshots now_ns =
    returned-decides now_ns (plan_steps config opportunity snapshots now_ns)
      (plan_steps-Fails config opportunity snapshots now_ns)
