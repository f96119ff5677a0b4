-- ===== src/Planner/Units.antt =====
-- executor/planner.py: _choose_package_units.
use polymarket_trade_executo.Common.{
  not, ◌&&◌, ◌||◌, none, List, [], ◌∷◌, map, ok, err, ◌>>=◌, ◌>>◌, if◌then◌else◌,
}
use polymarket_trade_executo.Common.Int.{ℤ, pos, ◌+ℤ◌, ◌*ℤ◌, ltb_ℤ, leb_ℤ, min_ℤ, max_ℤ}
use polymarket_trade_executo.Planner.Types.{
  PlannerRejectCode, RejectReason, Opportunity, PlannerConfig, LegPlanInputs, empty_min,
}
use polymarket_trade_executo.Planner.Prices.{Returns, floor_div}
use polymarket_trade_executo.Planner.Checks.{reject_if}

abbrev pub min_from : ℤ → List ℤ → ℤ
min_from least [] = least
min_from least (x ∷ xs) = min_from (min_ℤ least x) xs

-- `min(xs)`
abbrev pub min_of : List ℤ → Returns ℤ
min_of [] = err empty_min
min_of (x ∷ xs) = ok (min_from x xs)

-- `sum(xs)`
abbrev pub sum_of : List ℤ → ℤ
sum_of [] = pos 0
sum_of (x ∷ xs) = x +ℤ sum_of xs

abbrev pub ratios : List LegPlanInputs → List ℤ
ratios leg_inputs = map (λ item. item.leg.quantity_ratio) leg_inputs

-- `shares // ratio` for each ratio
unfoldable pub leg_caps : ℤ → List ℤ → Returns (List ℤ)
leg_caps shares [] = ok []
leg_caps shares (ratio ∷ rest) = do
  cap ← floor_div shares ratio
  caps ← leg_caps shares rest
  ok (cap ∷ caps)

abbrev pub per_unit_notional : List LegPlanInputs → ℤ
per_unit_notional leg_inputs =
    sum_of (map (λ item. item.limit_price_ticks *ℤ item.leg.quantity_ratio) leg_inputs)

abbrev pub notional_cap : (max_notional per_unit : ℤ) → Returns ℤ
notional_cap max_notional per_unit =
    if ltb_ℤ (pos 0) per_unit then floor_div max_notional per_unit else ok (pos 0)

-- the units after a cap: the cap itself when they exceed it
abbrev pub scaled_down : (units cap : ℤ) → ℤ
scaled_down units cap = if ltb_ℤ cap units then cap else units

unfoldable pub choose_package_units :
    PlannerConfig → Opportunity → List LegPlanInputs → (now_ns : ℤ) → Returns ℤ
choose_package_units config opportunity leg_inputs now_ns =
    let configured_min = max_ℤ opportunity.min_package_units config.min_package_units in
    let configured_max = min_ℤ opportunity.max_package_units config.max_package_units in
    let target_units = min_ℤ opportunity.target_package_units configured_max in
    let scale_down = config.scale_down_to_common_size in
    let insufficient = PlannerRejectCode.insufficient_size in
    let out_of_bounds = PlannerRejectCode.notional_out_of_bounds in
    do
      reject_if (leb_ℤ configured_min (pos 0) || leb_ℤ configured_max (pos 0))
          PlannerRejectCode.invalid_opportunity RejectReason.invalid_units now_ns none
      reject_if (ltb_ℤ configured_max configured_min) PlannerRejectCode.invalid_opportunity
          RejectReason.min_exceeds_max now_ns none
      liquidity_cap ← min_of (map (λ item. item.available_units) leg_inputs)
      reject_if (not scale_down && ltb_ℤ liquidity_cap target_units) insufficient
          (RejectReason.target_exceeds_liquidity target_units liquidity_cap) now_ns none
      let wanted = if scale_down then min_ℤ target_units liquidity_cap else target_units
      reject_if (ltb_ℤ wanted configured_min) insufficient
          (RejectReason.below_minimum wanted configured_min) now_ns none
      caps ← leg_caps config.max_shares_per_leg (ratios leg_inputs)
      shares_cap_per_leg ← min_of caps
      total_shares_cap ← floor_div config.max_total_shares (sum_of (ratios leg_inputs))
      let share_units_cap = min_ℤ shares_cap_per_leg total_shares_cap
      reject_if (ltb_ℤ share_units_cap wanted && not scale_down)
          PlannerRejectCode.share_cap_exceeded
          (RejectReason.shares_exceed_cap wanted share_units_cap) now_ns none
      let shared = scaled_down wanted share_units_cap
      notional_units_cap ←
          notional_cap config.max_total_notional_cents (per_unit_notional leg_inputs)
      reject_if (leb_ℤ notional_units_cap (pos 0)) out_of_bounds RejectReason.one_unit_too_dear
          now_ns none
      reject_if (ltb_ℤ notional_units_cap shared && not scale_down) out_of_bounds
          (RejectReason.notional_exceeds_cap shared notional_units_cap) now_ns none
      let units = scaled_down shared notional_units_cap
      reject_if (ltb_ℤ units configured_min) insufficient
          (RejectReason.final_below_minimum units configured_min) now_ns none
      let total_notional = per_unit_notional leg_inputs *ℤ units
      reject_if (ltb_ℤ total_notional config.min_total_notional_cents) out_of_bounds
          (RejectReason.notional_below total_notional config.min_total_notional_cents) now_ns none
      ok units
