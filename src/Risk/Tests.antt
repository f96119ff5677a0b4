-- ===== src/Risk/Tests.antt =====
-- Runs of the exposure tracker and the counters of executor/risk.py, and their theorems there.
use polymarket_trade_executo.Common.{
  String, ◌≡◌, refl, false, none, some, [], ◌∷◌, ok, arith, Result,
}
use polymarket_trade_executo.Common.Int.{pos, ◌+ℤ◌, ◌-ℤ◌, ◌*ℤ◌}
use polymarket_trade_executo.Common.Dict.{AllValues}
use polymarket_trade_executo.Common.Lists.{length, filter}
use polymarket_trade_executo.StateMachine.Types.{Side}
use polymarket_trade_executo.Risk.Exposure.{
  ActiveLegRiskState, ActivePackageRiskState, InMemoryExposureTracker, add_each, reserve_unless,
  reserve_package, release_package, apply_fill,
}
use polymarket_trade_executo.Risk.Counter.{RollingCounter, count, within, count-filter}
use polymarket_trade_executo.Risk.Reservations.{
  AreInLimit, release_package-reserve_package, apply_fill-AreInLimit,
}

abbrev leg : ActiveLegRiskState
leg = record {
  leg_id = "a";
  market_id = "m";
  side = Side.buy;
  intended_qty = pos 10;
  filled_qty = pos 0;
}

abbrev state : ActivePackageRiskState
state = record {
  package_id = "p";
  relation_id = "r";
  opportunity_id = "o";
  opened_ts_ns = pos 0;
  deadline_ts_ns = pos 100;
  market_notional_cents = ("m", pos 450) ∷ [];
  legs = ("a", leg) ∷ [];
  total_reserved_notional_cents = pos 450;
  buy_filled_notional_cents = pos 0;
  sell_filled_notional_cents = pos 0;
  first_fill_ts_ns = none;
  market_directional_shares = [];
  second_leg_timeout_breached = false;
  deadline_breached = false;
}

abbrev empty_tracker : InMemoryExposureTracker
empty_tracker = record {
  active_packages = [];
  total_open_notional_cents = pos 0;
  open_notional_by_market_cents = [];
  open_directional_imbalance_by_market = [];
}

abbrev one_active : InMemoryExposureTracker
one_active = record {
  active_packages = ("p", state) ∷ [];
  total_open_notional_cents = pos 450;
  open_notional_by_market_cents = ("m", pos 450) ∷ [];
  open_directional_imbalance_by_market = [];
}

-- opens what the runs call
unfoldable run :
    InMemoryExposureTracker → ActivePackageRiskState → Result String InMemoryExposureTracker
unfolding reserve_package reserve_unless add_each ◌+ℤ◌ ◌-ℤ◌ ◌*ℤ◌
run t s = reserve_package t s

reserved : reserve_package empty_tracker state ≡ ok one_active
unfolding run
reserved = refl

release_package-reserve_package_example :
    (let r = release_package one_active "p" in
      (r.1 ≡ some state) × (r.0.active_packages ≡ []) × (r.0.total_open_notional_cents ≡ pos 0))
release_package-reserve_package_example =
    release_package-reserve_package empty_tracker state one_active (omega arith) reserved

-- a fill of 25 shares on a leg that wants 10
apply_fill-AreInLimit_example :
    AllValues AreInLimit (apply_fill one_active "p" "a" (pos 25) (pos 45) (pos 7)).0.active_packages
apply_fill-AreInLimit_example =
    apply_fill-AreInLimit one_active "p" "a" (pos 25) (pos 45) (pos 7) ((omega arith, tt), tt)

abbrev counter : RollingCounter
counter = record { window_ns = pos 10; timestamps = pos 1 ∷ pos 5 ∷ pos 12 ∷ [] }

count-filter_example :
    (let recent = filter (within (pos 14 -ℤ pos 10)) counter.timestamps in
      ((count counter (pos 14)).0.timestamps ≡ recent)
      × ((count counter (pos 14)).1 ≡ length recent))
count-filter_example =
    count-filter counter (pos 14) ((omega arith, (omega arith, tt)), ((omega arith, tt), (tt, tt)))
