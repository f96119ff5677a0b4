-- ===== src/Planner/Caps.antt =====
-- `_choose_package_units` of executor/planner.py: the units it chooses respect every cap and
-- are the most that do.
use polymarket_trade_executo.Common.{
  ◌≡◌, sym, subst, arith, false, not, ◌&&◌, ◌||◌, List, [], ◌∷◌, map, ok, ok-injective, ◌∙◌,
  Ensures, Ensures-ok, Ensures-guard, Ensures-bind, if◌then◌else◌,
}
use polymarket_trade_executo.Common.Int.{ℤ, pos, ◌*ℤ◌, ◌/ℤ◌, ◌≤ℤ◌, ◌<ℤ◌, ltb_ℤ, leb_ℤ, min_ℤ, max_ℤ}
use polymarket_trade_executo.Common.Lists.{All}
use polymarket_trade_executo.Common.IntLaws.{within-/ℤ, above-/ℤ}
use polymarket_trade_executo.Planner.Types.{Opportunity, PlannerConfig, LegPlanInputs}
use polymarket_trade_executo.Planner.Prices.{floor_div}
use polymarket_trade_executo.Planner.Units.{
  min_of, sum_of, ratios, leg_caps, per_unit_notional, notional_cap, scaled_down,
  choose_package_units,
}
use polymarket_trade_executo.Planner.Rounding.{floor_div-returns}
use polymarket_trade_executo.Planner.Sums.{
  IsLeast, min_of-IsLeast, sum_of-positive, leg_caps-returns, caps-within, within-caps, All-≤ℤ,
}

abbrev pub available : List LegPlanInputs → List ℤ
available leg_inputs = map (λ item. item.available_units) leg_inputs

-- `v` units exceed no cap.
pub record Fits (config : PlannerConfig) (opportunity : Opportunity)
    (leg_inputs : List LegPlanInputs) (v : ℤ) : Type 0 where
  pub within_target : v ≤ℤ opportunity.target_package_units
  pub within_max : v ≤ℤ opportunity.max_package_units
  pub within_config_max : v ≤ℤ config.max_package_units
  pub within_liquidity : All (λ units. v ≤ℤ units) (available leg_inputs)
  pub within_leg_shares : All (λ ratio. v *ℤ ratio ≤ℤ config.max_shares_per_leg) (ratios leg_inputs)
  pub within_total_shares : v *ℤ sum_of (ratios leg_inputs) ≤ℤ config.max_total_shares
  pub within_notional : v *ℤ per_unit_notional leg_inputs ≤ℤ config.max_total_notional_cents

pub record IsChosen (config : PlannerConfig) (opportunity : Opportunity)
    (leg_inputs : List LegPlanInputs) (units : ℤ) : Type 0 where
  pub fits : Fits config opportunity leg_inputs units
  pub positive : pos 0 <ℤ units
  pub at_least_min : opportunity.min_package_units ≤ℤ units
  pub at_least_config_min : config.min_package_units ≤ℤ units
  pub min_notional : config.min_total_notional_cents ≤ℤ per_unit_notional leg_inputs *ℤ units
  pub largest : (v : ℤ) → Fits config opportunity leg_inputs v → v ≤ℤ units

total_ratio-positive :
    (leg_inputs : List LegPlanInputs) (cap : ℤ)
    → min_of (available leg_inputs) ≡ ok cap
    → All (λ ratio. pos 0 <ℤ ratio) (ratios leg_inputs)
    → pos 0 <ℤ sum_of (ratios leg_inputs)
total_ratio-positive [] cap h positive = cc
total_ratio-positive (item ∷ items) cap h positive =
    sum_of-positive item.leg.quantity_ratio (ratios items) positive

notional_cap-returns :
    (max_notional per_unit cap : ℤ)
    → notional_cap max_notional per_unit ≡ ok cap
    → pos 0 <ℤ cap
    → (pos 0 <ℤ per_unit) × (cap ≡ max_notional /ℤ per_unit)
unfolding floor_div
notional_cap-returns max_notional per_unit cap h positive =
    (ground (arith, h, positive), ground (arith, h, positive))

caps_of-IsLeast :
    (shares : ℤ) (rs caps : List ℤ) (least : ℤ)
    → All (λ ratio. pos 0 <ℤ ratio) rs
    → leg_caps shares rs ≡ ok caps
    → min_of caps ≡ ok least
    → IsLeast (map (λ r. shares /ℤ r) rs) least
caps_of-IsLeast shares rs caps least positive is_caps is_least =
    subst (λ xs. IsLeast xs least)
      (ok-injective (sym is_caps ∙ leg_caps-returns shares rs positive))
      ((min_of-IsLeast caps).at least is_least)

-- A scaled-down count is the smaller of the count and the cap.
record IsSmaller (u c m : ℤ) : Type 0 where
  left : m ≤ℤ u
  right : m ≤ℤ c
  greatest : (v : ℤ) → v ≤ℤ u → v ≤ℤ c → v ≤ℤ m

scaled_down-IsSmaller : (u c : ℤ) → IsSmaller u c (scaled_down u c)
scaled_down-IsSmaller u c = record {
  left = ground arith;
  right = ground arith;
  greatest = λ v h k. ground arith;
}

module _ (config : PlannerConfig) (opportunity : Opportunity)
    (leg_inputs : List LegPlanInputs) where
  abbrev configured_min : ℤ
  configured_min = max_ℤ opportunity.min_package_units config.min_package_units

  abbrev configured_max : ℤ
  configured_max = min_ℤ opportunity.max_package_units config.max_package_units

  abbrev target_units : ℤ
  target_units = min_ℤ opportunity.target_package_units configured_max

  -- the caps that the function computes
  record AreCaps (liquidity_cap leg_cap total_cap notional_units_cap : ℤ) : Type 0 where
    liquidity : IsLeast (available leg_inputs) liquidity_cap
    shares : IsLeast (map (λ r. config.max_shares_per_leg /ℤ r) (ratios leg_inputs)) leg_cap
    total : total_cap ≡ config.max_total_shares /ℤ sum_of (ratios leg_inputs)
    notional : notional_units_cap ≡ config.max_total_notional_cents /ℤ per_unit_notional leg_inputs
    positive_ratios : All (λ ratio. pos 0 <ℤ ratio) (ratios leg_inputs)
    positive_total : pos 0 <ℤ sum_of (ratios leg_inputs)
    positive_unit : pos 0 <ℤ per_unit_notional leg_inputs

  module _ {liquidity_cap leg_cap total_cap notional_units_cap : ℤ}
      (caps : AreCaps liquidity_cap leg_cap total_cap notional_units_cap) where
    below_caps-Fits :
        (v : ℤ)
        → v ≤ℤ target_units
        → v ≤ℤ liquidity_cap
        → v ≤ℤ leg_cap
        → v ≤ℤ total_cap
        → v ≤ℤ notional_units_cap
        → Fits config opportunity leg_inputs v
    below_caps-Fits v t l s w n = record {
      within_target = ground arith;
      within_max = ground arith;
      within_config_max = ground arith;
      within_liquidity = All-≤ℤ v liquidity_cap (available leg_inputs) l caps.liquidity.below;
      within_leg_shares =
          caps-within config.max_shares_per_leg v (ratios leg_inputs) caps.positive_ratios
            (All-≤ℤ v leg_cap _ s caps.shares.below);
      within_total_shares = within-/ℤ v _ _ caps.positive_total (subst (λ c. v ≤ℤ c) caps.total w);
      within_notional = within-/ℤ v _ _ caps.positive_unit (subst (λ c. v ≤ℤ c) caps.notional n);
    }

    Fits-below_caps :
        (v : ℤ)
        → Fits config opportunity leg_inputs v
        → (v ≤ℤ target_units)
          × (v ≤ℤ liquidity_cap)
          × (v ≤ℤ leg_cap)
          × (v ≤ℤ total_cap)
          × (v ≤ℤ notional_units_cap)
    Fits-below_caps v f = (
      ground (arith, f.within_target, f.within_max, f.within_config_max),
      caps.liquidity.greatest v f.within_liquidity,
      caps.shares.greatest v (
          within-caps config.max_shares_per_leg v (ratios leg_inputs) caps.positive_ratios
            f.within_leg_shares),
      subst (λ c. v ≤ℤ c) (sym caps.total)
          (above-/ℤ v _ _ caps.positive_total f.within_total_shares),
      subst (λ c. v ≤ℤ c) (sym caps.notional) (above-/ℤ v _ _ caps.positive_unit f.within_notional),
    )

  abbrev wanted_units : (liquidity_cap : ℤ) → ℤ
  wanted_units liquidity_cap =
      if config.scale_down_to_common_size then min_ℤ target_units liquidity_cap else target_units

  wanted-bounds :
      (liquidity_cap : ℤ)
      → not config.scale_down_to_common_size && ltb_ℤ liquidity_cap target_units ≡ false
      → (wanted_units liquidity_cap ≤ℤ target_units) × (wanted_units liquidity_cap ≤ℤ liquidity_cap)
  wanted-bounds liquidity_cap enough = (ground arith, ground arith)

  wanted-largest :
      (liquidity_cap v : ℤ)
      → v ≤ℤ target_units
      → v ≤ℤ liquidity_cap
      → v ≤ℤ wanted_units liquidity_cap
  wanted-largest liquidity_cap v t l = ground arith

  within_caps-IsChosen :
      {liquidity_cap leg_cap total_cap notional_units_cap : ℤ}
      (caps : AreCaps liquidity_cap leg_cap total_cap notional_units_cap) (shared units : ℤ)
      → not config.scale_down_to_common_size && ltb_ℤ liquidity_cap target_units ≡ false
      → IsSmaller (wanted_units liquidity_cap) (min_ℤ leg_cap total_cap) shared
      → IsSmaller shared notional_units_cap units
      → leb_ℤ configured_min (pos 0) || leb_ℤ configured_max (pos 0) ≡ false
      → ltb_ℤ units configured_min ≡ false
      → ltb_ℤ (per_unit_notional leg_inputs *ℤ units) config.min_total_notional_cents ≡ false
      → IsChosen config opportunity leg_inputs units
  within_caps-IsChosen {liquidity_cap} {leg_cap} {total_cap} caps shared units enough s u bounds
        minimum notional =
      let share_cap = min_ℤ leg_cap total_cap in
      let w = wanted-bounds liquidity_cap enough in
      let below_share : units ≤ℤ share_cap = omega (arith, u.left, s.right) in
      let below_wanted : units ≤ℤ wanted_units liquidity_cap = omega (arith, u.left, s.left) in
      record {
        fits =
            below_caps-Fits caps units (omega (arith, below_wanted, w.0))
              (omega (arith, below_wanted, w.1)) (ground (arith, below_share))
              (ground (arith, below_share)) u.right;
        positive = ground (arith, bounds, minimum);
        at_least_min = ground (arith, minimum);
        at_least_config_min = ground (arith, minimum);
        min_notional = ground (arith, notional);
        largest = λ v f.
            let below = Fits-below_caps caps v f in
            let below_shares : v ≤ℤ share_cap = ground (arith, below.2, below.3) in
            u.greatest v
              (s.greatest v (wanted-largest liquidity_cap v below.0 below.1) below_shares) below.4;
      }

  pub choose-IsChosen :
      (now_ns : ℤ)
      → All (λ ratio. pos 0 <ℤ ratio) (ratios leg_inputs)
      → Ensures
          (IsChosen config opportunity leg_inputs)
          (choose_package_units config opportunity leg_inputs now_ns)
  unfolding choose_package_units
  choose-IsChosen now_ns positive =
      let scale = config.scale_down_to_common_size in
      let per_unit = per_unit_notional leg_inputs in
      let max_notional = config.max_total_notional_cents in
      Ensures-guard (leb_ℤ configured_min (pos 0) || leb_ℤ configured_max (pos 0)) _ _ λ bounds.
        Ensures-guard (ltb_ℤ configured_max configured_min) _ _ λ order.
          Ensures-bind (min_of (available leg_inputs)) _ λ liquidity is_liquidity.
            Ensures-guard (not scale && ltb_ℤ liquidity target_units) _ _ λ enough.
              let wanted = wanted_units liquidity in
              Ensures-guard (ltb_ℤ wanted configured_min) _ _ λ _.
                Ensures-bind (leg_caps config.max_shares_per_leg (ratios leg_inputs)) _
                  λ caps is_caps. Ensures-bind (min_of caps) _ λ leg_cap is_leg.
                    Ensures-bind (floor_div config.max_total_shares (sum_of (ratios leg_inputs))) _
                      λ total is_total.
                        let share_cap = min_ℤ leg_cap total in
                        Ensures-guard (ltb_ℤ share_cap wanted && not scale) _ _ λ _.
                          let shared = scaled_down wanted share_cap in
                          Ensures-bind (notional_cap max_notional per_unit) _ λ dear is_dear.
                            Ensures-guard (leb_ℤ dear (pos 0)) _ _ λ affordable.
                              Ensures-guard (ltb_ℤ dear shared && not scale) _ _ λ _.
                                let units = scaled_down shared dear in
                                Ensures-guard (ltb_ℤ units configured_min) _ _ λ minimum.
                                  Ensures-guard
                                    (ltb_ℤ (per_unit *ℤ units) config.min_total_notional_cents) _ _
                                    λ notional.
                                      let ratio_total =
                                        total_ratio-positive leg_inputs liquidity is_liquidity
                                          positive in
                                      let (unit_positive, dear_quotient) =
                                        notional_cap-returns max_notional per_unit dear is_dear
                                          (ground (arith, affordable)) in
                                      Ensures-ok units (
                                        within_caps-IsChosen
                                          (record {
                                            liquidity =
                                                (min_of-IsLeast (available leg_inputs)).at liquidity
                                                  is_liquidity;
                                            shares =
                                                caps_of-IsLeast config.max_shares_per_leg
                                                  (ratios leg_inputs) caps leg_cap positive is_caps
                                                  is_leg;
                                            total = ok-injective (
                                                sym is_total
                                                ∙ floor_div-returns config.max_total_shares
                                                    (sum_of (ratios leg_inputs)) ratio_total);
                                            notional = dear_quotient;
                                            positive_ratios = positive;
                                            positive_total = ratio_total;
                                            positive_unit = unit_positive;
                                          })
                                          shared units enough
                                          (scaled_down-IsSmaller wanted share_cap)
                                          (scaled_down-IsSmaller shared dear) bounds minimum
                                          notional)

-- Units that `_choose_package_units` returns for inputs with positive ratios are positive and at
-- least both minimums, and their notional is at least the configured minimum. They exceed neither the
-- target nor a maximum, nor the liquidity of any leg, the shares allowed per leg and in total, or the
-- notional allowed; and no larger number of units does so, whether or not it may scale down.
pub choose_package_units-IsChosen :
    (config : PlannerConfig) (opportunity : Opportunity) (leg_inputs : List LegPlanInputs)
    (now_ns : ℤ)
    → All (λ ratio. pos 0 <ℤ ratio) (ratios leg_inputs)
    → (units : ℤ) → choose_package_units config opportunity leg_inputs now_ns ≡ ok units
    → IsChosen config opportunity leg_inputs units
choose_package_units-IsChosen config opportunity leg_inputs now_ns positive units =
    (choose-IsChosen config opportunity leg_inputs now_ns positive).at units
