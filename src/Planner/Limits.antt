-- ===== src/Planner/Limits.antt =====
-- `_compute_marketable_limit` of executor/planner.py: the limit price is on the book's ticks, at
-- least as good as the touch, and within both protections.
use polymarket_trade_executo.Common.{
  ◌≡◌, arith, ok, Ensures, Ensures-ok, Ensures-err, Ensures-bind, Ensures-if,
}
use polymarket_trade_executo.Common.Int.{ℤ, pos, ◌+ℤ◌, ◌-ℤ◌, ◌*ℤ◌, ◌≤ℤ◌, ◌<ℤ◌, ltb_ℤ, min_ℤ, max_ℤ}
use polymarket_trade_executo.Common.IntLaws.{*ℤ-mono}
use polymarket_trade_executo.StateMachine.Types.{Side}
use polymarket_trade_executo.Planner.Types.{
  OpportunityLeg, PricingSnapshot, PlannerConfig, bps_scale,
}
use polymarket_trade_executo.Planner.Prices.{
  floor_div, ceil_div, round_up_to_tick, round_down_to_tick, slippage_bps, buy_limit, sell_limit,
  compute_marketable_limit,
}
use polymarket_trade_executo.Planner.Rounding.{
  OnTick, floor_div-IsFloor, ceil_div-IsCeiling, round_up-OnTick, round_down-OnTick, min_ℤ-keeps,
  max_ℤ-keeps,
}

-- A purchase: not below the ask, and above neither protection by more than the rounding to a
-- price of one tick.
pub record IsBuyLimit (config : PlannerConfig) (leg : OpportunityLeg) (tick touch limit : ℤ)
    : Type 0 where
  pub on_tick : OnTick tick limit
  pub marketable : touch ≤ℤ limit
  pub within_slippage :
      limit *ℤ bps_scale
      ≤ℤ max_ℤ
          (leg.reference_price_ticks *ℤ (bps_scale +ℤ slippage_bps config leg.max_slippage_bps))
          (tick *ℤ bps_scale)
  pub within_touch :
      limit *ℤ bps_scale
      ≤ℤ max_ℤ (touch *ℤ (bps_scale +ℤ config.max_cross_bps_from_touch)) (tick *ℤ bps_scale)

-- A sale: not above the bid, below neither protection, and never free.
pub record IsSellLimit (config : PlannerConfig) (leg : OpportunityLeg) (tick touch limit : ℤ)
    : Type 0 where
  pub on_tick : OnTick tick limit
  pub marketable : limit ≤ℤ touch
  pub at_least_a_tick : tick ≤ℤ limit
  pub within_slippage :
      leg.reference_price_ticks *ℤ (bps_scale -ℤ slippage_bps config leg.max_slippage_bps)
      ≤ℤ limit *ℤ bps_scale
  pub within_touch : touch *ℤ (bps_scale -ℤ config.max_cross_bps_from_touch) ≤ℤ limit *ℤ bps_scale

abbrev pub IsProtected : Side → PlannerConfig → OpportunityLeg → (tick touch limit : ℤ) → Type 0
IsProtected Side.buy config leg tick touch limit = IsBuyLimit config leg tick touch limit
IsProtected Side.sell config leg tick touch limit = IsSellLimit config leg tick touch limit

-- A cap, but never below one tick.
capped :
    (limit cap n tick : ℤ)
    → cap *ℤ bps_scale ≤ℤ n
    → limit ≤ℤ max_ℤ cap tick
    → limit *ℤ bps_scale ≤ℤ max_ℤ n (tick *ℤ bps_scale)
capped limit cap n tick crossed =
    max_ℤ-keeps (λ m. limit ≤ℤ m → limit *ℤ bps_scale ≤ℤ max_ℤ n (tick *ℤ bps_scale)) cap tick
      (λ h. ground (arith, *ℤ-mono bps_scale limit cap (omega arith) h, crossed))
      (λ h. ground (arith, *ℤ-mono bps_scale limit tick (omega arith) h))

-- A floor, but never below one tick.
floored :
    (limit floor n tick : ℤ)
    → n ≤ℤ floor *ℤ bps_scale
    → max_ℤ floor tick ≤ℤ limit
    → (n ≤ℤ limit *ℤ bps_scale) × (tick ≤ℤ limit)
floored limit floor n tick crossed h =
    let above : floor ≤ℤ limit = ground (arith, h) in
    (omega (arith, *ℤ-mono bps_scale floor limit (omega arith) above, crossed), ground (arith, h))

buy_limit-IsBuyLimit :
    (config : PlannerConfig) (leg : OpportunityLeg) (snapshot : PricingSnapshot) (touch now_ns : ℤ)
    → pos 0 <ℤ snapshot.tick_size_ticks
    → Ensures
        (IsBuyLimit config leg snapshot.tick_size_ticks touch)
        (buy_limit config leg snapshot touch now_ns)
unfolding buy_limit
buy_limit-IsBuyLimit config leg snapshot touch now_ns h =
    let tick = snapshot.tick_size_ticks in
    let reach = touch *ℤ (bps_scale +ℤ config.aggressiveness_bps) in
    let slip =
      leg.reference_price_ticks *ℤ (bps_scale +ℤ slippage_bps config leg.max_slippage_bps) in
    let cross = touch *ℤ (bps_scale +ℤ config.max_cross_bps_from_touch) in
    Ensures-bind (ceil_div reach bps_scale) _ λ raised _.
      Ensures-bind (round_up_to_tick raised tick) _ λ aggressive is_aggressive.
        Ensures-bind (floor_div slip bps_scale) _ λ slipped is_slipped.
          Ensures-bind (round_down_to_tick (max_ℤ slipped tick) tick) _ λ slippage_cap is_cap.
            Ensures-bind (floor_div cross bps_scale) _ λ crossed is_crossed.
              Ensures-bind (round_down_to_tick (max_ℤ crossed tick) tick) _ λ touch_cap is_touch.
                let a = (round_up-OnTick raised tick h).at aggressive is_aggressive in
                let s = (round_down-OnTick (max_ℤ slipped tick) tick h).at slippage_cap is_cap in
                let t = (round_down-OnTick (max_ℤ crossed tick) tick h).at touch_cap is_touch in
                let limit = min_ℤ (min_ℤ aggressive slippage_cap) touch_cap in
                Ensures-if (ltb_ℤ limit touch) _ _ (λ _. Ensures-err _)
                  λ not_below. Ensures-ok limit (record {
                    on_tick =
                        min_ℤ-keeps (OnTick tick) (min_ℤ aggressive slippage_cap) touch_cap
                          (min_ℤ-keeps (OnTick tick) aggressive slippage_cap a.0 s.0) t.0;
                    marketable = ground (arith, not_below);
                    within_slippage =
                        capped limit slipped slip tick
                          ((floor_div-IsFloor slip bps_scale (omega arith)).at slipped
                            is_slipped).below
                          (ground (arith, s.1));
                    within_touch =
                        capped limit crossed cross tick
                          ((floor_div-IsFloor cross bps_scale (omega arith)).at crossed
                            is_crossed).below
                          (ground (arith, t.1));
                  })

sell_limit-IsSellLimit :
    (config : PlannerConfig) (leg : OpportunityLeg) (snapshot : PricingSnapshot) (touch now_ns : ℤ)
    → pos 0 <ℤ snapshot.tick_size_ticks
    → Ensures
        (IsSellLimit config leg snapshot.tick_size_ticks touch)
        (sell_limit config leg snapshot touch now_ns)
unfolding sell_limit
sell_limit-IsSellLimit config leg snapshot touch now_ns h =
    let tick = snapshot.tick_size_ticks in
    let reach = touch *ℤ (bps_scale -ℤ config.aggressiveness_bps) in
    let slip =
      leg.reference_price_ticks *ℤ (bps_scale -ℤ slippage_bps config leg.max_slippage_bps) in
    let cross = touch *ℤ (bps_scale -ℤ config.max_cross_bps_from_touch) in
    Ensures-bind (floor_div reach bps_scale) _ λ lowered _.
      Ensures-bind (round_down_to_tick lowered tick) _ λ aggressive is_aggressive.
        Ensures-bind (ceil_div slip bps_scale) _ λ slipped is_slipped.
          Ensures-bind (round_up_to_tick (max_ℤ slipped tick) tick) _ λ slippage_floor is_floor.
            Ensures-bind (ceil_div cross bps_scale) _ λ crossed is_crossed.
              Ensures-bind (round_up_to_tick (max_ℤ crossed tick) tick) _ λ touch_floor is_touch.
                let a = (round_down-OnTick lowered tick h).at aggressive is_aggressive in
                let s = (round_up-OnTick (max_ℤ slipped tick) tick h).at slippage_floor is_floor in
                let t = (round_up-OnTick (max_ℤ crossed tick) tick h).at touch_floor is_touch in
                let limit = max_ℤ (max_ℤ aggressive slippage_floor) touch_floor in
                let above_slip =
                  floored limit slipped slip tick
                    ((ceil_div-IsCeiling slip bps_scale (omega arith)).at slipped is_slipped).above
                    (ground (arith, s.1)) in
                let above_cross =
                  floored limit crossed cross tick
                    ((ceil_div-IsCeiling cross bps_scale (omega arith)).at crossed is_crossed).above
                    (ground (arith, t.1)) in
                Ensures-if (ltb_ℤ touch limit) _ _ (λ _. Ensures-err _)
                  λ not_above. Ensures-ok limit (record {
                    on_tick =
                        max_ℤ-keeps (OnTick tick) (max_ℤ aggressive slippage_floor) touch_floor
                          (max_ℤ-keeps (OnTick tick) aggressive slippage_floor a.0 s.0) t.0;
                    marketable = ground (arith, not_above);
                    at_least_a_tick = above_slip.1;
                    within_slippage = above_slip.0;
                    within_touch = above_cross.0;
                  })

limit_by_side-IsProtected :
    (side : Side) (config : PlannerConfig) (leg : OpportunityLeg) (snapshot : PricingSnapshot)
    (touch now_ns : ℤ)
    → pos 0 <ℤ snapshot.tick_size_ticks
    → Ensures (IsProtected side config leg snapshot.tick_size_ticks touch) (elim side [
      | Side.buy ↦ buy_limit config leg snapshot touch now_ns
      | Side.sell ↦ sell_limit config leg snapshot touch now_ns
    ])
limit_by_side-IsProtected Side.buy config leg snapshot touch now_ns h =
    buy_limit-IsBuyLimit config leg snapshot touch now_ns h
limit_by_side-IsProtected Side.sell config leg snapshot touch now_ns h =
    sell_limit-IsSellLimit config leg snapshot touch now_ns h

-- A limit price that is computed for a book with a positive tick is protected. For a purchase: on
-- the tick, not below the touch (the best ask), and its value in basis points within the reference
-- price and slippage, and within the touch and the allowed crossing (or one tick, where a cap is
-- smaller). For a sale: on the tick, not above the touch (the best bid), at least one tick, and not
-- below the reference price less slippage, nor below the touch less the allowed crossing.
pub marketable_limit-IsProtected :
    (config : PlannerConfig) (leg : OpportunityLeg) (snapshot : PricingSnapshot) (touch now_ns : ℤ)
    → pos 0 <ℤ snapshot.tick_size_ticks
    → (limit : ℤ) → compute_marketable_limit config leg snapshot touch now_ns ≡ ok limit
    → IsProtected leg.side config leg snapshot.tick_size_ticks touch limit
unfolding compute_marketable_limit
marketable_limit-IsProtected config leg snapshot touch now_ns h limit returned =
    (limit_by_side-IsProtected leg.side config leg snapshot touch now_ns h).at limit returned
