-- ===== src/Planner/Checks.antt =====
-- executor/planner.py: _validate_config, _validate_opportunity and _validate_snapshot. A check that
-- returns a rejection stops the call; a check that returns None lets it go on.
use polymarket_trade_executo.Common.{
  String, Bool, not, ◌&&◌, ◌||◌, Option, none, some, List, [], ◌∷◌, Result, ok, ◌>>◌, raise_if,
  ◌==◌, string_eq,
}
use polymarket_trade_executo.Common.Int.{ℤ, pos, ◌-ℤ◌, ◌*ℤ◌, ◌/ℤ◌, ltb_ℤ, leb_ℤ}
use polymarket_trade_executo.Common.Float.{finite, float_ltb, float_leb}
use polymarket_trade_executo.Common.Lists.{contains, is_empty}
use polymarket_trade_executo.Planner.Types.{
  PlannerRejectCode, RejectReason, OpportunityLeg, Opportunity, PricingSnapshot, PlannerConfig,
  decided, bps_scale, ns_per_ms,
}
use polymarket_trade_executo.Planner.Prices.{Returns, reject}

-- `if c: return self._reject(...)`
abbrev pub reject_if :
    Bool → PlannerRejectCode → RejectReason → ℤ → Option String → Returns (Unit {0})
reject_if c code reason ts_ns leg_id = raise_if c (decided (reject code reason ts_ns leg_id))

-- the exception is a ValueError with this text
unfoldable pub validate_config : PlannerConfig → Result String (Unit {0})
validate_config config = do
  raise_if (ltb_ℤ config.aggressiveness_bps (pos 0)) "aggressiveness_bps must be >= 0"
  raise_if
      (not (
        leb_ℤ (pos 0) config.max_cross_bps_from_touch
        && leb_ℤ config.max_cross_bps_from_touch bps_scale))
      "max_cross_bps_from_touch must be between 0 and 10000"
  raise_if
      (not (
        leb_ℤ (pos 0) config.default_max_slippage_bps
        && leb_ℤ config.default_max_slippage_bps bps_scale))
      "default_max_slippage_bps must be between 0 and 10000"
  raise_if (leb_ℤ config.max_snapshot_age_ms (pos 0)) "max_snapshot_age_ms must be > 0"
  raise_if
      (not (
        float_leb (finite (pos 0) 0) config.min_confidence
        && float_leb config.min_confidence (finite (pos 1) 0)))
      "min_confidence must be in [0, 1]"
  raise_if (ltb_ℤ config.min_expected_edge_bps (pos 0)) "min_expected_edge_bps must be >= 0"
  raise_if (leb_ℤ config.max_total_notional_cents (pos 0)) "max_total_notional_cents must be > 0"
  raise_if (leb_ℤ config.min_total_notional_cents (pos 0)) "min_total_notional_cents must be > 0"
  raise_if (ltb_ℤ config.max_total_notional_cents config.min_total_notional_cents)
      "min_total_notional_cents cannot exceed max_total_notional_cents"
  raise_if (leb_ℤ config.min_package_units (pos 0)) "min_package_units must be > 0"
  raise_if (leb_ℤ config.max_package_units (pos 0)) "max_package_units must be > 0"
  raise_if (ltb_ℤ config.max_package_units config.min_package_units)
      "min_package_units cannot exceed max_package_units"
  raise_if (leb_ℤ config.max_shares_per_leg (pos 0)) "max_shares_per_leg must be > 0"
  raise_if (leb_ℤ config.max_total_shares (pos 0)) "max_total_shares must be > 0"
  raise_if (leb_ℤ config.default_leg_timeout_ms (pos 0)) "default_leg_timeout_ms must be > 0"
  raise_if (leb_ℤ config.package_timeout_ms (pos 0)) "package_timeout_ms must be > 0"
  raise_if (leb_ℤ config.plan_ttl_ms (pos 0)) "plan_ttl_ms must be > 0"
  ok tt

-- the loop over the legs; `seen` is `seen_leg_ids`
unfoldable pub validate_legs : List String → List OpportunityLeg → (now_ns : ℤ) → Returns (Unit {0})
validate_legs seen [] now_ns = ok tt
validate_legs seen (leg ∷ legs) now_ns =
    let code = PlannerRejectCode.invalid_opportunity in
    let i = leg.leg_id in
    do
      reject_if (contains seen i) code (RejectReason.duplicate_leg_id i) now_ns (some i)
      reject_if (leb_ℤ leg.quantity_ratio (pos 0)) code (RejectReason.ratio_not_positive i) now_ns
          (some i)
      reject_if (leb_ℤ leg.reference_price_ticks (pos 0)) code
          (RejectReason.reference_not_positive i) now_ns (some i)
      reject_if (leg.token_id == "") code (RejectReason.no_token i) now_ns (some i)
      validate_legs (i ∷ seen) legs now_ns

unfoldable pub validate_opportunity :
    PlannerConfig → Opportunity → (now_ns : ℤ) → Returns (Unit {0})
validate_opportunity config opportunity now_ns =
    let invalid = PlannerRejectCode.invalid_opportunity in
    do
      reject_if (opportunity.opportunity_id == "") invalid RejectReason.opportunity_id_required
          now_ns none
      reject_if (is_empty opportunity.legs) invalid RejectReason.leg_required now_ns none
      reject_if (leb_ℤ opportunity.expires_at_ns now_ns) PlannerRejectCode.opportunity_expired
          RejectReason.opportunity_already_expired now_ns none
      reject_if (float_ltb opportunity.confidence config.min_confidence)
          PlannerRejectCode.low_confidence
          (RejectReason.confidence_below opportunity.confidence config.min_confidence) now_ns none
      reject_if
          (leb_ℤ opportunity.target_package_units (pos 0)
            || leb_ℤ opportunity.min_package_units (pos 0)
            || leb_ℤ opportunity.max_package_units (pos 0))
          invalid RejectReason.unit_bounds_not_positive now_ns none
      reject_if (ltb_ℤ opportunity.max_package_units opportunity.min_package_units) invalid
          RejectReason.min_units_exceed_max now_ns none
      validate_legs [] opportunity.legs now_ns

unfoldable pub validate_snapshot :
    PlannerConfig → OpportunityLeg → PricingSnapshot → (now_ns : ℤ) → Returns (Unit {0})
validate_snapshot config leg snapshot now_ns =
    let i = leg.leg_id in
    let age_ns = now_ns -ℤ snapshot.ts_ns in
    do
      reject_if (not (snapshot.market_id == leg.market_id)) PlannerRejectCode.missing_snapshot
          (RejectReason.market_mismatch i leg.market_id snapshot.market_id) now_ns (some i)
      reject_if snapshot.is_uncertain PlannerRejectCode.uncertain_snapshot
          (RejectReason.uncertain i) now_ns (some i)
      reject_if (ltb_ℤ age_ns (pos 0)) PlannerRejectCode.uncertain_snapshot (RejectReason.future i)
          now_ns (some i)
      reject_if (ltb_ℤ (config.max_snapshot_age_ms *ℤ ns_per_ms) age_ns)
          PlannerRejectCode.stale_snapshot
          (RejectReason.stale i (age_ns /ℤ ns_per_ms) config.max_snapshot_age_ms) now_ns (some i)
      reject_if (leb_ℤ snapshot.tick_size_ticks (pos 0)) PlannerRejectCode.invalid_book
          (RejectReason.tick_not_positive i) now_ns (some i)
      reject_if
          (leb_ℤ snapshot.best_bid_ticks (pos 0)
            || leb_ℤ snapshot.best_ask_ticks (pos 0)
            || ltb_ℤ snapshot.best_bid_size (pos 0)
            || ltb_ℤ snapshot.best_ask_size (pos 0))
          PlannerRejectCode.invalid_book (RejectReason.invalid_top i) now_ns (some i)
      reject_if
          (config.reject_crossed_book && leb_ℤ snapshot.best_ask_ticks snapshot.best_bid_ticks)
          PlannerRejectCode.invalid_book
          (RejectReason.crossed i snapshot.best_bid_ticks snapshot.best_ask_ticks) now_ns (some i)
      ok tt
