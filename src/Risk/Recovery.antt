-- ===== src/Risk/Recovery.antt =====
-- executor/risk.py: the recovery of the manager from packages that a journal gave back.
use polymarket_trade_executo.Common.{
  String, true, false, Option, none, some, List, [], ◌∷◌, Result, ok, err, ◌>>=◌, ◌>>◌, raise_if,
  if◌then◌else◌,
}
use polymarket_trade_executo.Common.Int.{ℤ, pos, ◌+ℤ◌, ◌*ℤ◌, leb_ℤ, ltb_ℤ, eqb_ℤ, min_ℤ, max_ℤ}
use polymarket_trade_executo.Common.Dict.{Dict, get_or, set, values}
use polymarket_trade_executo.Common.Lists.{is_empty}
use polymarket_trade_executo.Planner.Types.{ns_per_ms}
use polymarket_trade_executo.Planner.Units.{sum_of}
use polymarket_trade_executo.StateMachine.Types.{LegExecution, PackageExecution}
use polymarket_trade_executo.StateMachine.Tables.{is_terminal_package}
use polymarket_trade_executo.StateMachine.Package.{intended_legs}
use polymarket_trade_executo.Risk.Types.{RiskDecision}
use polymarket_trade_executo.Risk.Exposure.{
  ActivePackageRiskState, signed_qty, bought, sold, reserve_package,
}
use polymarket_trade_executo.Risk.Manager.{ExecutionRiskManager, empty_exposure}
use polymarket_trade_executo.Risk.Register.{index_package}
use polymarket_trade_executo.Risk.Watch.{evaluate_active_risk}

-- `a or b` of a number that may be None: zero is false as well
abbrev pub int_or : Option ℤ → ℤ → ℤ
int_or none default = default
int_or (some n) default = if eqb_ℤ n (pos 0) then default else n

abbrev pub clamped_fill : LegExecution → ℤ
clamped_fill leg = max_ℤ (pos 0) (min_ℤ leg.filled_qty leg.intended_qty)

abbrev pub fill_price : LegExecution → ℤ
fill_price leg =
    int_or leg.avg_fill_price_ticks (int_or leg.last_fill_price_ticks leg.limit_price_ticks)

-- the earlier of two first fills
abbrev pub earliest : Option ℤ → ℤ → Option ℤ
earliest none candidate = some candidate
earliest (some first) candidate = if ltb_ℤ candidate first then some candidate else some first

-- what the loop over the legs adds for one leg: its notional and its state ...
unfoldable pub recover_leg : ActivePackageRiskState → LegExecution → ActivePackageRiskState
recover_leg state leg = record state {
  market_notional_cents = set state.market_notional_cents leg.market_id (
      get_or state.market_notional_cents leg.market_id (pos 0)
      +ℤ leg.intended_qty *ℤ leg.limit_price_ticks);
  legs = set state.legs leg.leg_id (record {
    leg_id = leg.leg_id;
    market_id = leg.market_id;
    side = leg.side;
    intended_qty = leg.intended_qty;
    filled_qty = clamped_fill leg;
  });
}

-- ... and, where it has a fill, what the fill is worth
unfoldable pub recover_fill :
    (updated_ts_ns : ℤ) → ActivePackageRiskState → LegExecution → ActivePackageRiskState
recover_fill updated_ts_ns state leg =
    let filled_qty = clamped_fill leg in
    let fill_notional = filled_qty *ℤ fill_price leg in
    if leb_ℤ filled_qty (pos 0) then state else (record state {
      buy_filled_notional_cents = state.buy_filled_notional_cents +ℤ bought leg.side fill_notional;
      sell_filled_notional_cents = state.sell_filled_notional_cents +ℤ sold leg.side fill_notional;
      market_directional_shares = set state.market_directional_shares leg.market_id (
          get_or state.market_directional_shares leg.market_id (pos 0)
          +ℤ signed_qty leg.side filled_qty);
      first_fill_ts_ns =
          earliest state.first_fill_ts_ns
            (int_or leg.ack_ts_ns (int_or leg.submit_ts_ns updated_ts_ns));
    })

unfoldable pub recover_legs :
    (updated_ts_ns : ℤ) → ActivePackageRiskState → List LegExecution → ActivePackageRiskState
recover_legs updated_ts_ns state [] = state
recover_legs updated_ts_ns state (leg ∷ legs) =
    recover_legs updated_ts_ns (recover_fill updated_ts_ns (recover_leg state leg) leg) legs

-- `_build_active_package_state_from_package_execution`; the error is the package's id
unfoldable pub recovered_package_state :
    PackageExecution
    → (relation_id : String) → (package_execution_deadline_ms : ℤ)
    → Result String ActivePackageRiskState
recovered_package_state pkg relation_id deadline_ms =
    let start : ActivePackageRiskState = record {
      package_id = pkg.package_id;
      relation_id = relation_id;
      opportunity_id = pkg.opportunity_id;
      opened_ts_ns = pkg.created_ts_ns;
      deadline_ts_ns = pkg.created_ts_ns +ℤ deadline_ms *ℤ ns_per_ms;
      market_notional_cents = [];
      legs = [];
      total_reserved_notional_cents = pos 0;
      buy_filled_notional_cents = pos 0;
      sell_filled_notional_cents = pos 0;
      first_fill_ts_ns = none;
      market_directional_shares = [];
      second_leg_timeout_breached = false;
      deadline_breached = false;
    } in
    let state = recover_legs pkg.updated_ts_ns start (intended_legs pkg) in
    do
      raise_if (is_empty (intended_legs pkg)) pkg.package_id
      ok (record state {
        total_reserved_notional_cents = sum_of (values state.market_notional_cents);
      })

-- one round of the loop of `rebuild_from_recovered_state`: both calls raise before anything is changed
unfoldable pub recover_package :
    ExecutionRiskManager
    → (relation_id : String) → PackageExecution
    → Result String ExecutionRiskManager
recover_package m relation_id pkg = do
  state ← recovered_package_state pkg relation_id m.config.package_execution_deadline_ms
  exposure ← reserve_package m.exposure state
  ok (index_package m exposure state)

-- the loop: the manager as it was left, and the exception, if one was raised
unfoldable pub recover_packages :
    ExecutionRiskManager
    → (relation_by_package : Dict String) → Dict PackageExecution
    → ExecutionRiskManager × Result String (Unit {0})
recover_packages m relations [] = (m, ok tt)
recover_packages m relations (entry ∷ entries) = elim (is_terminal_package entry.1.state) [
  | true ↦ recover_packages m relations entries
  | false ↦ elim (recover_package m (get_or relations entry.0 "recovered") entry.1) [
    | err exception ↦ (m, err exception)
    | ok next ↦ recover_packages next relations entries
  ]
]

-- what follows the loop
unfoldable pub after_recovery :
    (now_ns : ℤ)
    → ExecutionRiskManager × Result String (Unit {0})
    → ExecutionRiskManager × Result String (List RiskDecision)
after_recovery now_ns (m, err exception) = (m, err exception)
after_recovery now_ns (m, ok done) =
    let (scanned, decisions) = evaluate_active_risk m now_ns in (scanned, ok decisions)

unfoldable pub rebuild_from_recovered_state :
    ExecutionRiskManager
    → (active_packages : Dict PackageExecution) → (relation_by_package : Dict String) → (now_ns : ℤ)
    → ExecutionRiskManager × Result String (List RiskDecision)
rebuild_from_recovered_state m active_packages relations now_ns =
    let cleared = record m {
      exposure = empty_exposure;
      active_relation_packages = [];
      active_market_packages = [];
      active_opportunity_to_package = [];
    } in
    after_recovery now_ns (recover_packages cleared relations active_packages)
