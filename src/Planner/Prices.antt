-- ===== src/Planner/Prices.antt =====
-- executor/planner.py: _reject, the rounding helpers and _compute_marketable_limit.
use polymarket_trade_executo.Common.{
  String, Option, none, some, Result, ok, err, ◌>>=◌, if◌then◌else◌,
}
use polymarket_trade_executo.Common.Int.{ℤ, pos, ◌+ℤ◌, ◌-ℤ◌, ◌*ℤ◌, ◌/ℤ◌, ltb_ℤ, eqb_ℤ, min_ℤ, max_ℤ}
use polymarket_trade_executo.StateMachine.Types.{Side}
use polymarket_trade_executo.Planner.Types.{
  PlannerRejectCode, RejectReason, OpportunityLeg, PricingSnapshot, PlannerConfig, PlannerDecision,
  Stop, decided, zero_division, bps_scale,
}

abbrev pub Returns : Type 0 → Type 0
Returns A = Result Stop A

abbrev pub reject :
    PlannerRejectCode → RejectReason → (ts_ns : ℤ) → (leg_id : Option String) → PlannerDecision
reject code reason ts_ns leg_id = record {
  plan = none;
  rejection = some (record { code = code; reason = reason; ts_ns = ts_ns; leg_id = leg_id });
}

-- `return self._reject(...)`
abbrev pub rejected {ℓ} :
    {A : Type ℓ} → PlannerRejectCode → RejectReason → ℤ → Option String → Result Stop A
rejected code reason ts_ns leg_id = err (decided (reject code reason ts_ns leg_id))

-- `n // d`
unfoldable pub floor_div : (n d : ℤ) → Returns ℤ
floor_div n d = if eqb_ℤ d (pos 0) then err zero_division else ok (n /ℤ d)

-- `-(-n // d)`
unfoldable pub ceil_div : (n d : ℤ) → Returns ℤ
ceil_div n d = do below ← floor_div (pos 0 -ℤ n) d; ok (pos 0 -ℤ below)

unfoldable pub round_up_to_tick : (price_ticks tick_size_ticks : ℤ) → Returns ℤ
round_up_to_tick price_ticks tick_size_ticks = do
  ticks ← ceil_div price_ticks tick_size_ticks
  ok (ticks *ℤ tick_size_ticks)

unfoldable pub round_down_to_tick : (price_ticks tick_size_ticks : ℤ) → Returns ℤ
round_down_to_tick price_ticks tick_size_ticks = do
  ticks ← floor_div price_ticks tick_size_ticks
  ok (ticks *ℤ tick_size_ticks)

abbrev pub slippage_bps : PlannerConfig → Option ℤ → ℤ
slippage_bps config none = config.default_max_slippage_bps
slippage_bps config (some bps) = bps

unfoldable pub buy_limit :
    PlannerConfig
    → OpportunityLeg
    → PricingSnapshot
    → (executable_price_ticks now_ns : ℤ) → Returns ℤ
buy_limit config leg snapshot executable_price_ticks now_ns =
    let tick = snapshot.tick_size_ticks in
    let slip_bps = slippage_bps config leg.max_slippage_bps in
    do
      raised ←
          ceil_div (executable_price_ticks *ℤ (bps_scale +ℤ config.aggressiveness_bps)) bps_scale
      aggressive ← round_up_to_tick raised tick
      slipped ← floor_div (leg.reference_price_ticks *ℤ (bps_scale +ℤ slip_bps)) bps_scale
      slippage_cap ← round_down_to_tick (max_ℤ slipped tick) tick
      crossed ←
          floor_div (executable_price_ticks *ℤ (bps_scale +ℤ config.max_cross_bps_from_touch))
            bps_scale
      touch_cap ← round_down_to_tick (max_ℤ crossed tick) tick
      let limit_price = min_ℤ (min_ℤ aggressive slippage_cap) touch_cap
      if ltb_ℤ limit_price executable_price_ticks
          then rejected PlannerRejectCode.price_protection
              (RejectReason.buy_protection leg.leg_id limit_price executable_price_ticks) now_ns
              (some leg.leg_id)
          else ok limit_price

unfoldable pub sell_limit :
    PlannerConfig
    → OpportunityLeg
    → PricingSnapshot
    → (executable_price_ticks now_ns : ℤ) → Returns ℤ
sell_limit config leg snapshot executable_price_ticks now_ns =
    let tick = snapshot.tick_size_ticks in
    let slip_bps = slippage_bps config leg.max_slippage_bps in
    do
      lowered ←
          floor_div (executable_price_ticks *ℤ (bps_scale -ℤ config.aggressiveness_bps)) bps_scale
      aggressive ← round_down_to_tick lowered tick
      slipped ← ceil_div (leg.reference_price_ticks *ℤ (bps_scale -ℤ slip_bps)) bps_scale
      slippage_floor ← round_up_to_tick (max_ℤ slipped tick) tick
      crossed ←
          ceil_div (executable_price_ticks *ℤ (bps_scale -ℤ config.max_cross_bps_from_touch))
            bps_scale
      touch_floor ← round_up_to_tick (max_ℤ crossed tick) tick
      let limit_price = max_ℤ (max_ℤ aggressive slippage_floor) touch_floor
      if ltb_ℤ executable_price_ticks limit_price
          then rejected PlannerRejectCode.price_protection
              (RejectReason.sell_protection leg.leg_id limit_price executable_price_ticks) now_ns
              (some leg.leg_id)
          else ok limit_price

unfoldable pub compute_marketable_limit :
    PlannerConfig
    → OpportunityLeg
    → PricingSnapshot
    → (executable_price_ticks now_ns : ℤ) → Returns ℤ
compute_marketable_limit config leg snapshot executable_price_ticks now_ns = elim leg.side [
  | Side.buy ↦ buy_limit config leg snapshot executable_price_ticks now_ns
  | Side.sell ↦ sell_limit config leg snapshot executable_price_ticks now_ns
]
