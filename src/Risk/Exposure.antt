-- ===== src/Risk/Exposure.antt =====
-- executor/risk.py: `_ActiveLegRiskState`, `_ActivePackageRiskState` and `InMemoryExposureTracker`.
-- A package is mutated in place through the tracker's dict, so the model sets the entry anew.
use polymarket_trade_executo.Common.{
  ℕ, String, Bool, ◌||◌, Option, none, some, [], ◌∷◌, Result, ok, err, if◌then◌else◌,
}
use polymarket_trade_executo.Common.Int.{
  ℤ, pos, ◌+ℤ◌, ◌-ℤ◌, ◌*ℤ◌, leb_ℤ, eqb_ℤ, min_ℤ, max_ℤ, abs_ℤ,
}
use polymarket_trade_executo.Common.Dict.{Dict, get, get_or, set, remove}
use polymarket_trade_executo.Common.Lists.{length, all}
use polymarket_trade_executo.StateMachine.Types.{Side}

pub record ActiveLegRiskState : Type 0 where
  pub leg_id : String
  pub market_id : String
  pub side : Side
  pub intended_qty : ℤ
  pub filled_qty : ℤ

pub record ActivePackageRiskState : Type 0 where
  pub package_id : String
  pub relation_id : String
  pub opportunity_id : String
  pub opened_ts_ns : ℤ
  pub deadline_ts_ns : ℤ
  pub market_notional_cents : Dict ℤ
  pub legs : Dict ActiveLegRiskState
  pub total_reserved_notional_cents : ℤ
  pub buy_filled_notional_cents : ℤ
  pub sell_filled_notional_cents : ℤ
  pub first_fill_ts_ns : Option ℤ
  pub market_directional_shares : Dict ℤ
  pub second_leg_timeout_breached : Bool
  pub deadline_breached : Bool

abbrev pub partial_fill_exposure_cents : ActivePackageRiskState → ℤ
partial_fill_exposure_cents pkg =
    abs_ℤ (pkg.buy_filled_notional_cents -ℤ pkg.sell_filled_notional_cents)

abbrev pub realized_pnl_cents : ActivePackageRiskState → ℤ
realized_pnl_cents pkg = pkg.sell_filled_notional_cents -ℤ pkg.buy_filled_notional_cents

abbrev pub all_legs_filled : ActivePackageRiskState → Bool
all_legs_filled pkg = all (λ entry. leb_ℤ entry.1.intended_qty entry.1.filled_qty) pkg.legs

pub record InMemoryExposureTracker : Type 0 where
  pub active_packages : Dict ActivePackageRiskState
  pub total_open_notional_cents : ℤ
  pub open_notional_by_market_cents : Dict ℤ
  pub open_directional_imbalance_by_market : Dict ℤ

pub record ExposureSnapshot : Type 0 where
  pub total_open_notional_cents : ℤ
  pub open_notional_by_market_cents : Dict ℤ
  pub open_directional_imbalance_by_market : Dict ℤ
  pub active_package_count : ℕ

-- `d[k] = d.get(k, 0) + n` for each entry
unfoldable pub add_each : Dict ℤ → Dict ℤ → Dict ℤ
add_each d [] = d
add_each d (entry ∷ entries) =
    add_each (set d entry.0 (get_or d entry.0 (pos 0) +ℤ entry.1)) entries

-- the loop over the package's notionals: an entry that is used up is popped
unfoldable pub release_notional : Dict ℤ → Dict ℤ → Dict ℤ
release_notional d [] = d
release_notional d (entry ∷ entries) =
    let current = get_or d entry.0 (pos 0) -ℤ entry.1 in
    release_notional (if leb_ℤ current (pos 0) then remove d entry.0 else set d entry.0 current)
      entries

-- the loop over the package's shares: an entry that is back at zero is popped
unfoldable pub release_shares : Dict ℤ → Dict ℤ → Dict ℤ
release_shares d [] = d
release_shares d (entry ∷ entries) =
    let current = get_or d entry.0 (pos 0) -ℤ entry.1 in
    release_shares (if eqb_ℤ current (pos 0) then remove d entry.0 else set d entry.0 current)
      entries

-- the reservation, where `found` is what is active under the id
unfoldable pub reserve_unless :
    InMemoryExposureTracker
    → ActivePackageRiskState
    → (found : Option ActivePackageRiskState) → Result String InMemoryExposureTracker
reserve_unless tracker state (some _) = err state.package_id
reserve_unless tracker state none = ok (record {
  active_packages = set tracker.active_packages state.package_id state;
  total_open_notional_cents =
      tracker.total_open_notional_cents +ℤ state.total_reserved_notional_cents;
  open_notional_by_market_cents =
      add_each tracker.open_notional_by_market_cents state.market_notional_cents;
  open_directional_imbalance_by_market =
      add_each tracker.open_directional_imbalance_by_market state.market_directional_shares;
})

-- the error is the id of the package that is already reserved
unfoldable pub reserve_package :
    InMemoryExposureTracker → ActivePackageRiskState → Result String InMemoryExposureTracker
reserve_package tracker state =
    reserve_unless tracker state (get tracker.active_packages state.package_id)

-- the release, where `found` is what is popped
unfoldable pub release_found :
    InMemoryExposureTracker
    → String
    → (found : Option ActivePackageRiskState)
    → InMemoryExposureTracker × Option ActivePackageRiskState
release_found tracker package_id none = (tracker, none)
release_found tracker package_id (some state) = (
  record {
    active_packages = remove tracker.active_packages package_id;
    total_open_notional_cents =
        max_ℤ (pos 0) (tracker.total_open_notional_cents -ℤ state.total_reserved_notional_cents);
    open_notional_by_market_cents =
        release_notional tracker.open_notional_by_market_cents state.market_notional_cents;
    open_directional_imbalance_by_market =
        release_shares tracker.open_directional_imbalance_by_market state.market_directional_shares;
  },
  some state,
)

unfoldable pub release_package :
    InMemoryExposureTracker → String → InMemoryExposureTracker × Option ActivePackageRiskState
release_package tracker package_id =
    release_found tracker package_id (get tracker.active_packages package_id)

-- the shares of a fill, as a purchase or as a sale
abbrev pub signed_qty : Side → ℤ → ℤ
signed_qty Side.buy incremental = incremental
signed_qty Side.sell incremental = pos 0 -ℤ incremental

-- the notional of a purchase
abbrev pub bought : Side → ℤ → ℤ
bought Side.buy notional = notional
bought Side.sell notional = pos 0

-- the notional of a sale
abbrev pub sold : Side → ℤ → ℤ
sold Side.buy notional = pos 0
sold Side.sell notional = notional

abbrev pub first_fill : Option ℤ → ℤ → Option ℤ
first_fill none fill_ts_ns = some fill_ts_ns
first_fill (some earlier) fill_ts_ns = some earlier

-- what of a fill is new: at most what the leg still wants
abbrev pub incremental_fill : ActiveLegRiskState → (fill_qty : ℤ) → ℤ
incremental_fill leg fill_qty =
    let remaining = max_ℤ (pos 0) (leg.intended_qty -ℤ leg.filled_qty) in
    if leb_ℤ remaining (pos 0) then pos 0 else min_ℤ fill_qty remaining

-- the package after `incremental` shares of a leg
unfoldable pub filled_package :
    ActivePackageRiskState
    → ActiveLegRiskState
    → (leg_id : String) (incremental fill_price_ticks fill_ts_ns : ℤ) → ActivePackageRiskState
filled_package pkg leg leg_id incremental fill_price_ticks fill_ts_ns =
    let fill_notional = incremental *ℤ fill_price_ticks in
    record pkg {
      legs = set pkg.legs leg_id (record leg { filled_qty = leg.filled_qty +ℤ incremental });
      first_fill_ts_ns = first_fill pkg.first_fill_ts_ns fill_ts_ns;
      buy_filled_notional_cents = pkg.buy_filled_notional_cents +ℤ bought leg.side fill_notional;
      sell_filled_notional_cents = pkg.sell_filled_notional_cents +ℤ sold leg.side fill_notional;
      market_directional_shares = set pkg.market_directional_shares leg.market_id (
          get_or pkg.market_directional_shares leg.market_id (pos 0)
          +ℤ signed_qty leg.side incremental);
    }

-- the fill of a leg that was found
unfoldable pub fill_leg :
    InMemoryExposureTracker
    → ActivePackageRiskState
    → ActiveLegRiskState
    → (package_id leg_id : String) (fill_qty fill_price_ticks fill_ts_ns : ℤ)
    → InMemoryExposureTracker × Option ActivePackageRiskState
fill_leg tracker pkg leg package_id leg_id fill_qty fill_price_ticks fill_ts_ns =
    let incremental = incremental_fill leg fill_qty in
    let next = filled_package pkg leg leg_id incremental fill_price_ticks fill_ts_ns in
    if leb_ℤ incremental (pos 0) then (tracker, some pkg) else (
      record tracker {
        active_packages = set tracker.active_packages package_id next;
        open_directional_imbalance_by_market =
            set tracker.open_directional_imbalance_by_market leg.market_id (
              get_or tracker.open_directional_imbalance_by_market leg.market_id (pos 0)
              +ℤ signed_qty leg.side incremental);
      },
      some next,
    )

-- the fill, where `found` is the leg
unfoldable pub fill_found :
    InMemoryExposureTracker
    → ActivePackageRiskState
    → (found : Option ActiveLegRiskState)
    → (package_id leg_id : String) (fill_qty fill_price_ticks fill_ts_ns : ℤ)
    → InMemoryExposureTracker × Option ActivePackageRiskState
fill_found tracker pkg none package_id leg_id qty price ts = (tracker, none)
fill_found tracker pkg (some leg) package_id leg_id qty price ts =
    fill_leg tracker pkg leg package_id leg_id qty price ts

-- the fill, where `found` is the package
unfoldable pub fill_active :
    InMemoryExposureTracker
    → (found : Option ActivePackageRiskState)
    → (package_id leg_id : String) (fill_qty fill_price_ticks fill_ts_ns : ℤ)
    → InMemoryExposureTracker × Option ActivePackageRiskState
fill_active tracker none package_id leg_id qty price ts = (tracker, none)
fill_active tracker (some pkg) package_id leg_id qty price ts =
    fill_found tracker pkg (get pkg.legs leg_id) package_id leg_id qty price ts

unfoldable pub apply_fill :
    InMemoryExposureTracker
    → (package_id leg_id : String) (fill_qty fill_price_ticks fill_ts_ns : ℤ)
    → InMemoryExposureTracker × Option ActivePackageRiskState
apply_fill tracker package_id leg_id qty price ts =
    if leb_ℤ qty (pos 0) || leb_ℤ price (pos 0)
    then (tracker, none)
    else fill_active tracker (get tracker.active_packages package_id) package_id leg_id qty price ts

-- `InMemoryExposureTracker.snapshot`
abbrev pub exposure_snapshot : InMemoryExposureTracker → ExposureSnapshot
exposure_snapshot tracker = record {
  total_open_notional_cents = tracker.total_open_notional_cents;
  open_notional_by_market_cents = tracker.open_notional_by_market_cents;
  open_directional_imbalance_by_market = tracker.open_directional_imbalance_by_market;
  active_package_count = length tracker.active_packages;
}
