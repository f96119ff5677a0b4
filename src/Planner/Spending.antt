-- ===== src/Planner/Spending.antt =====
-- `plan` of executor/planner.py: what an accepted plan may spend, earn and rest on.
use polymarket_trade_executo.Common.{
  String, map, ◌≡◌, refl, sym, ap, subst, ◌∙◌, some, List, [], ◌∷◌, ok,
}
use polymarket_trade_executo.Common.Int.{ℤ, pos, ◌+ℤ◌, ◌-ℤ◌, ◌*ℤ◌, ◌/ℤ◌, ◌≤ℤ◌, ◌<ℤ◌}
use polymarket_trade_executo.Common.IntLaws.{within-/ℤ, *ℤ_comm, *ℤ_assoc}
use polymarket_trade_executo.Common.Lists.{All, All-mono, IsOneOf}
use polymarket_trade_executo.StateMachine.Types.{Side}
use polymarket_trade_executo.Planner.Fees.{
  planned_notional, FeeLine, IsFeeLine, IsCharged, fee_of, fee_lines, sum_of_fees, items-IsCharged,
  map-fee_lines, total-fee_lines, fee_lines-IsFeeLine,
}
use polymarket_trade_executo.Planner.Acceptance.{
  accepting, plan-IsPlanned, total-scale, IsChosenInput, planned_total, planned_items,
  planned_legs-All,
}
use polymarket_trade_executo.Planner.Types.{
  OpportunityLeg, PricingSnapshot, Opportunity, PlannedLeg, PlannerConfig, ExecutionPlan, bps_scale,
}
use polymarket_trade_executo.Planner.Units.{per_unit_notional}
use polymarket_trade_executo.Planner.Build.{signed_by, leg_notional, sorted}
use polymarket_trade_executo.Planner.Plan.{Snapshots, touch_price, touch_size, plan}
use polymarket_trade_executo.Planner.Passed.{IsFresh}
use polymarket_trade_executo.Planner.Limits.{IsProtected}
use polymarket_trade_executo.Planner.Totals.{total, total-sorted, All-sorted}

-- The plan's totals are those of its legs, and neither they nor its units nor a leg exceed a cap.
pub record IsWithinCaps (config : PlannerConfig) (opportunity : Opportunity) (p : ExecutionPlan)
    : Type 0 where
  pub shares : p.total_shares ≡ total (λ leg. leg.quantity) p.legs
  pub notional : p.total_notional_cents ≡ total planned_notional p.legs
  pub positive_units : pos 0 <ℤ p.package_units
  pub units_in_target : p.package_units ≤ℤ opportunity.target_package_units
  pub units_in_max : p.package_units ≤ℤ opportunity.max_package_units
  pub units_in_config_max : p.package_units ≤ℤ config.max_package_units
  pub at_least_min : opportunity.min_package_units ≤ℤ p.package_units
  pub at_least_config_min : config.min_package_units ≤ℤ p.package_units
  pub leg_shares : All (λ leg. leg.quantity ≤ℤ config.max_shares_per_leg) p.legs
  pub leg_liquidity : All (λ leg. p.package_units ≤ℤ leg.available_units_at_plan) p.legs
  pub shares_within : p.total_shares ≤ℤ config.max_total_shares
  pub notional_within : p.total_notional_cents ≤ℤ config.max_total_notional_cents
  pub notional_enough : config.min_total_notional_cents ≤ℤ p.total_notional_cents

-- The profit is that of the legs less their fees and the fixed cost, and pays for the plan.
pub record IsProfitable (config : PlannerConfig) (opportunity : Opportunity) (p : ExecutionPlan)
    : Type 0 where
  pub lines : List FeeLine
  pub of_plan : map (λ line. line.planned) lines ≡ p.legs
  pub are_lines : All (IsFeeLine config opportunity.legs) lines
  pub fees : p.expected_fee_cents ≡ total (λ line. line.fee) lines +ℤ config.fixed_cost_cents
  pub gross :
      p.expected_gross_profit_cents
      ≡ total (λ leg. signed_by leg.side (planned_notional leg)) p.legs
  pub net : p.expected_net_profit_cents ≡ p.expected_gross_profit_cents -ℤ p.expected_fee_cents
  pub edge :
      p.expected_net_edge_bps ≡ p.expected_net_profit_cents *ℤ bps_scale /ℤ p.total_notional_cents
  pub enough_profit : config.min_expected_profit_cents ≤ℤ p.expected_net_profit_cents
  pub enough_edge : config.min_expected_edge_bps ≤ℤ p.expected_net_edge_bps

-- What the other side of the book offers: its price and its size.
abbrev IsTouch : Side → PricingSnapshot → (price size : ℤ) → Type 0
IsTouch Side.buy snapshot price size =
    (price ≡ snapshot.best_ask_ticks) × (size ≡ snapshot.best_ask_size)
IsTouch Side.sell snapshot price size =
    (price ≡ snapshot.best_bid_ticks) × (size ≡ snapshot.best_bid_size)

-- Which leg of the opportunity a planned leg executes, and the book that backs it.
pub record IsBacked (config : PlannerConfig) (opportunity : Opportunity) (snapshots : Snapshots)
    (now_ns units : ℤ) (planned : PlannedLeg) : Type 0 where
  pub leg : OpportunityLeg
  pub of_opportunity : IsOneOf opportunity.legs leg
  pub same_leg : planned.leg_id ≡ leg.leg_id
  pub same_market : planned.market_id ≡ leg.market_id
  pub same_token : planned.token_id ≡ leg.token_id
  pub same_side : planned.side ≡ leg.side
  pub quantity : planned.quantity ≡ units *ℤ leg.quantity_ratio
  pub snapshot : PricingSnapshot
  pub found : snapshots leg.market_id ≡ some snapshot
  pub fresh : IsFresh config leg snapshot now_ns
  pub same_ts : planned.snapshot_ts_ns ≡ snapshot.ts_ns
  pub same_tick : planned.tick_size_ticks ≡ snapshot.tick_size_ticks
  pub displayed_size : ℤ
  pub touch : IsTouch leg.side snapshot planned.executable_price_ticks displayed_size
  pub is_displayed : planned.quantity ≤ℤ displayed_size
  pub protected :
      IsProtected leg.side config leg snapshot.tick_size_ticks planned.executable_price_ticks
        planned.limit_price_ticks

-- Each planned leg is backed, and the plan and the opportunity have the same leg ids equally often.
pub record AreBacked (config : PlannerConfig) (opportunity : Opportunity) (snapshots : Snapshots)
    (now_ns : ℤ) (p : ExecutionPlan) : Type 0 where
  pub each : All (IsBacked config opportunity snapshots now_ns p.package_units) p.legs
  pub same_legs :
      (weight : String → ℤ)
      → total (λ leg. weight leg.leg_id) p.legs ≡ total (λ leg. weight leg.leg_id) opportunity.legs

total-map :
    {A B : Type 0} (f : B → ℤ) (g : A → B) (xs : List A)
    → total (λ x. f (g x)) xs ≡ total f (map g xs)
total-map f g [] = refl
total-map f g (x ∷ xs) = ap (λ n. f (g x) +ℤ n) (total-map f g xs)

touch_price-IsTouch :
    (side : Side) (snapshot : PricingSnapshot)
    → IsTouch side snapshot (touch_price side snapshot) (touch_size side snapshot)
touch_price-IsTouch Side.buy snapshot = (refl, refl)
touch_price-IsTouch Side.sell snapshot = (refl, refl)

module _ (config : PlannerConfig) (opportunity : Opportunity) (snapshots : Snapshots) (now_ns : ℤ)
    (p : ExecutionPlan) where
  -- An accepted plan has the totals of its legs; its units are positive, at least the opportunity's and
  -- the configured minimum and at most the opportunity's target and maximum, the configured maximum
  -- and each leg's available units; each leg's shares, the total shares and the notional are within
  -- the configured caps, and the notional is at least the configured minimum.
  pub accepted-IsWithinCaps :
      plan config opportunity snapshots now_ns ≡ ok (accepting p)
      → IsWithinCaps config opportunity p
  accepted-IsWithinCaps accepted =
      let h = plan-IsPlanned config opportunity snapshots now_ns p accepted in
      let units = h.units in
      let per_unit = per_unit_notional h.items in
      let shares =
        h.built.shares
        ∙ total-scale units (λ item. item.leg.quantity_ratio) _ h.items (λ item. refl) in
      let notional =
        h.built.notional
        ∙ total-scale units (λ item. item.limit_price_ticks *ℤ item.leg.quantity_ratio)
            (leg_notional units) h.items
            (λ item.
              *ℤ_assoc units item.leg.quantity_ratio item.limit_price_ticks
              ∙ ap (λ n. units *ℤ n) (*ℤ_comm item.leg.quantity_ratio item.limit_price_ticks)) in
      let keeps = h.built.units_kept in
      record {
        shares =
            h.built.shares
            ∙ sym (
                planned_total config opportunity snapshots now_ns p h (λ leg. leg.quantity) _
                  (λ r item. refl));
        notional =
            h.built.notional
            ∙ sym (
                planned_total config opportunity snapshots now_ns p h planned_notional _
                  (λ r item. refl));
        positive_units = subst (λ u. pos 0 <ℤ u) (sym keeps) h.chosen.positive;
        units_in_target =
            subst (λ u. u ≤ℤ opportunity.target_package_units) (sym keeps)
              h.chosen.fits.within_target;
        units_in_max =
            subst (λ u. u ≤ℤ opportunity.max_package_units) (sym keeps) h.chosen.fits.within_max;
        units_in_config_max =
            subst (λ u. u ≤ℤ config.max_package_units) (sym keeps) h.chosen.fits.within_config_max;
        at_least_config_min =
            subst (λ u. config.min_package_units ≤ℤ u) (sym keeps) h.chosen.at_least_config_min;
        leg_shares =
            planned_legs-All config opportunity snapshots now_ns p h _ (λ r item i. i.few_shares);
        leg_liquidity =
            subst (λ u. All (λ leg. u ≤ℤ leg.available_units_at_plan) p.legs) (sym keeps)
              (planned_legs-All config opportunity snapshots now_ns p h _ (λ r item i. i.liquid));
        at_least_min =
            subst (λ u. opportunity.min_package_units ≤ℤ u) (sym keeps) h.chosen.at_least_min;
        shares_within =
            subst (λ n. n ≤ℤ config.max_total_shares) (sym shares)
              h.chosen.fits.within_total_shares;
        notional_within =
            subst (λ n. n ≤ℤ config.max_total_notional_cents) (sym notional)
              h.chosen.fits.within_notional;
        notional_enough =
            subst (λ n. config.min_total_notional_cents ≤ℤ n)
              (sym (notional ∙ *ℤ_comm units per_unit)) h.chosen.min_notional;
      }

  -- An accepted plan's gross profit is what its sales bring less what its purchases cost at their
  -- limit prices; its fee is the fixed cost and one fee for each planned leg, which is that leg's
  -- notional times the fee and additional basis points of the opportunity's leg it executes, rounded
  -- up, and nothing where these are not positive; its net profit is the gross profit less the fee, its
  -- edge the net profit in basis points of the notional rounded down, and both reach the configured
  -- thresholds.
  pub accepted-IsProfitable :
      plan config opportunity snapshots now_ns ≡ ok (accepting p)
      → IsProfitable config opportunity p
  accepted-IsProfitable accepted =
      let h = plan-IsPlanned config opportunity snapshots now_ns p accepted in
      let (fees, are_fees, fee_sum) = h.built.fees in
      let charged = items-IsCharged config h.units opportunity.legs h.items fees are_fees (
        All-mono (IsChosenInput config opportunity snapshots now_ns h.units) _ h.items
          (λ item i. i.of_opportunity) (planned_items config opportunity snapshots now_ns p h)) in
      let same_fees =
        sum_of_fees config h.units h.items fees are_fees
        ∙ sym (
            total-fee_lines config h.units (pos 1) (sorted h.items)
            ∙ total-sorted (fee_of config h.units) h.items) in
      record {
        lines = fee_lines config h.units (pos 1) (sorted h.items);
        of_plan = map-fee_lines config h.units (pos 1) (sorted h.items) ∙ sym h.built.legs;
        are_lines =
            fee_lines-IsFeeLine config h.units (pos 1) opportunity.legs (sorted h.items)
              (All-sorted (IsCharged config h.units opportunity.legs) h.items charged);
        fees = fee_sum ∙ ap (λ n. n +ℤ config.fixed_cost_cents) same_fees;
        gross =
            h.built.gross
            ∙ sym (
                planned_total config opportunity snapshots now_ns p h
                  (λ leg. signed_by leg.side (planned_notional leg)) _ (λ r item. refl));
        net = h.built.net;
        edge = h.built.edge;
        enough_profit = h.built.enough_profit;
        enough_edge = h.built.enough_edge;
      }

  -- An accepted plan has the opportunity's leg ids, each as often: whatever an id weighs, the legs of
  -- both weigh the same. Every leg of the plan executes one of the opportunity's: it has that leg's id,
  -- market, token and side, and the package units times its ratio as its quantity. There is a snapshot
  -- of that market, certain, neither stale nor of the future and well formed, whose time and tick size it has;
  -- its executable price is the snapshot's best ask for a purchase and best bid for a sale, the size
  -- displayed there covers its quantity, and its limit price is protected against that price.
  pub accepted_legs-AreBacked :
      plan config opportunity snapshots now_ns ≡ ok (accepting p)
      → AreBacked config opportunity snapshots now_ns p
  accepted_legs-AreBacked accepted =
      let h = plan-IsPlanned config opportunity snapshots now_ns p accepted in
      let each =
        subst (λ u. All (IsBacked config opportunity snapshots now_ns u) p.legs)
          (sym h.built.units_kept)
          (planned_legs-All config opportunity snapshots now_ns p h _ (λ r item i. record {
            leg = item.leg;
            of_opportunity = i.of_opportunity;
            same_leg = refl;
            same_market = refl;
            same_token = refl;
            same_side = refl;
            quantity = refl;
            snapshot = item.snapshot;
            found = i.input.found;
            fresh = i.input.fresh;
            same_ts = refl;
            same_tick = refl;
            displayed_size = touch_size item.leg.side item.snapshot;
            touch =
                subst
                  (λ price.
                    IsTouch item.leg.side item.snapshot price
                      (touch_size item.leg.side item.snapshot))
                  (sym i.input.touch) (touch_price-IsTouch item.leg.side item.snapshot);
            is_displayed =
                within-/ℤ h.units _ _ i.positive_ratio
                  (subst (λ n. h.units ≤ℤ n) (i.input.available i.positive_ratio) i.liquid);
            protected = i.input.protected;
          })) in
      record {
        each = each;
        same_legs = λ weight.
            planned_total config opportunity snapshots now_ns p h (λ leg. weight leg.leg_id)
              (λ item. weight item.leg.leg_id) (λ r item. refl)
            ∙ total-map (λ leg. weight leg.leg_id) (λ item. item.leg) h.items
            ∙ ap (total (λ leg. weight leg.leg_id)) h.inputs.of_legs;
      }
