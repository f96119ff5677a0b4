-- ===== src/Risk/Register.antt =====
-- executor/risk.py: register_package, close_package and what they call.
use polymarket_trade_executo.Common.{
  String, Bool, false, not, Option, none, some, List, [], ◌∷◌, ◌++◌, Result, ok, ◌>>=◌,
  if◌then◌else◌, string_eq,
}
use polymarket_trade_executo.Common.Int.{ℤ, pos, ◌+ℤ◌, ◌-ℤ◌, ◌*ℤ◌, leb_ℤ, ltb_ℤ, min_ℤ}
use polymarket_trade_executo.Common.Float.{true_div, float_ltb}
use polymarket_trade_executo.Common.Dict.{Dict, get, get_or, set, remove, keys}
use polymarket_trade_executo.Common.Lists.{is_empty, add_to, discard}
use polymarket_trade_executo.Planner.Types.{PlannedLeg, ns_per_ms}
use polymarket_trade_executo.Risk.Types.{
  RiskReasonCode, RiskText, RiskDecision, PreTradeRiskRequest, allow,
}
use polymarket_trade_executo.Risk.Exposure.{
  ActiveLegRiskState, ActivePackageRiskState, InMemoryExposureTracker, realized_pnl_cents,
  reserve_package, release_package,
}
use polymarket_trade_executo.Risk.Counter.{add, count}
use polymarket_trade_executo.Risk.Manager.{ExecutionRiskManager, trigger_auto_kill}
use polymarket_trade_executo.Risk.PreTrade.{SetOrder, market_notional_from_plan, validate_pre_trade}

-- the loop of `_build_active_package_state` over the legs
unfoldable pub leg_states : Dict ActiveLegRiskState → List PlannedLeg → Dict ActiveLegRiskState
leg_states d [] = d
leg_states d (leg ∷ legs) =
    leg_states
      (set d leg.leg_id (record {
        leg_id = leg.leg_id;
        market_id = leg.market_id;
        side = leg.side;
        intended_qty = leg.quantity;
        filled_qty = pos 0;
      }))
      legs

unfoldable pub build_active_package_state :
    PreTradeRiskRequest → (now_ns package_execution_deadline_ms : ℤ) → ActivePackageRiskState
build_active_package_state request now_ns deadline_ms =
    let plan_deadline_ns =
      now_ns +ℤ min_ℤ deadline_ms request.plan.package_timeout_ms *ℤ ns_per_ms in
    record {
      package_id = request.package_id;
      relation_id = request.relation_id;
      opportunity_id = request.plan.opportunity_id;
      opened_ts_ns = now_ns;
      deadline_ts_ns = min_ℤ plan_deadline_ns request.plan.expires_at_ns;
      market_notional_cents = market_notional_from_plan request.plan;
      legs = leg_states [] request.plan.legs;
      total_reserved_notional_cents = request.plan.total_notional_cents;
      buy_filled_notional_cents = pos 0;
      sell_filled_notional_cents = pos 0;
      first_fill_ts_ns = none;
      market_directional_shares = [];
      second_leg_timeout_breached = false;
      deadline_breached = false;
    }

-- `d.setdefault(key, set()).add(id)`
abbrev pub add_at : Dict (List String) → (key id : String) → Dict (List String)
add_at d key id = set d key (add_to (get_or d key []) id)

unfoldable pub add_at_each : Dict (List String) → List String → (id : String) → Dict (List String)
add_at_each d [] id = d
add_at_each d (key ∷ rest) id = add_at_each (add_at d key id) rest id

-- a reserved package becomes active under its opportunity, its relation and its markets
unfoldable pub index_package :
    ExecutionRiskManager → InMemoryExposureTracker → ActivePackageRiskState → ExecutionRiskManager
index_package m exposure state = record m {
  exposure = exposure;
  active_opportunity_to_package =
      set m.active_opportunity_to_package state.opportunity_id state.package_id;
  active_relation_packages = add_at m.active_relation_packages state.relation_id state.package_id;
  active_market_packages =
      add_at_each m.active_market_packages (keys state.market_notional_cents) state.package_id;
}

-- the rest of `register_package`, after `validate_pre_trade`
unfoldable pub register_allowed :
    PreTradeRiskRequest
    → (now_ns : ℤ) → ExecutionRiskManager × RiskDecision
    → Result String (ExecutionRiskManager × RiskDecision)
register_allowed request now_ns (m, decision) =
    let state = build_active_package_state request now_ns m.config.package_execution_deadline_ms in
    if not decision.allowed then ok (m, decision) else (do
      exposure ← reserve_package m.exposure state
      let indexed = index_package m exposure state
      ok (
        record indexed { starts_counter = add m.starts_counter now_ns },
        allow now_ns (RiskText.given "package registered"),
      ))

-- the error is that of `reserve_package`
unfoldable pub register_package :
    ExecutionRiskManager
    → SetOrder
    → PreTradeRiskRequest
    → (now_ns : ℤ) → Result String (ExecutionRiskManager × RiskDecision)
register_package m order request now_ns =
    register_allowed request now_ns (validate_pre_trade m order request now_ns)

-- the id leaves the set of the key, and an empty set leaves the dict
abbrev pub drop_at : Dict (List String) → (key id : String) → Dict (List String)
drop_at d key id = elim (get d key) [
  | none ↦ d
  | some ids ↦ let left = discard ids id in if is_empty left then remove d key else set d key left
]

unfoldable pub drop_at_each : Dict (List String) → List String → (id : String) → Dict (List String)
drop_at_each d [] id = d
drop_at_each d (key ∷ rest) id = drop_at_each (drop_at d key id) rest id

-- the reverse of `index_package`, in `close_package`
unfoldable pub unindex_package :
    ExecutionRiskManager
    → InMemoryExposureTracker
    → ActivePackageRiskState
    → (package_id : String) → ExecutionRiskManager
unindex_package m exposure state package_id = record m {
  exposure = exposure;
  active_opportunity_to_package = remove m.active_opportunity_to_package state.opportunity_id;
  active_relation_packages = drop_at m.active_relation_packages state.relation_id package_id;
  active_market_packages =
      drop_at_each m.active_market_packages (keys state.market_notional_cents) package_id;
}

unfoldable pub set_each : Dict ℤ → List String → ℤ → Dict ℤ
set_each d [] value = d
set_each d (key ∷ rest) value = set_each (set d key value) rest value

-- `_maybe_trigger_failure_rate_halt`
unfoldable pub maybe_trigger_failure_rate_halt :
    ExecutionRiskManager → (now_ns : ℤ) → ExecutionRiskManager × Option RiskDecision
maybe_trigger_failure_rate_halt m now_ns =
    let (starts_counter, starts) = count m.starts_counter now_ns in
    let (failures_counter, failures) = count m.failures_counter now_ns in
    let m' = record m { starts_counter = starts_counter; failures_counter = failures_counter } in
    let threshold = m.config.failure_rate_halt_threshold in
    let (halted, decision) =
      trigger_auto_kill m' RiskReasonCode.failure_rate_spike
        (RiskText.failure_rate failures starts threshold) now_ns in
    if ltb_ℤ (pos starts) m.config.failure_rate_min_sample
    then (m', none)
    else (if float_ltb (true_div failures starts) threshold
        then (m', none)
        else (halted, some decision))

abbrev pub optional : Option RiskDecision → List RiskDecision
optional none = []
optional (some decision) = decision ∷ []

-- what `close_package` does for a package that failed
unfoldable pub record_failure :
    ExecutionRiskManager
    → ActivePackageRiskState
    → (now_ns : ℤ) → ExecutionRiskManager × List RiskDecision
record_failure m state now_ns =
    let cooling = record m {
      failures_counter = add m.failures_counter now_ns;
      relation_cooldowns =
          set m.relation_cooldowns state.relation_id
            (now_ns +ℤ m.config.relation_cooldown_ms *ℤ ns_per_ms);
      market_cooldowns =
          set_each m.market_cooldowns (keys state.market_notional_cents)
            (now_ns +ℤ m.config.market_cooldown_ms *ℤ ns_per_ms);
    } in
    let (m', decision) = maybe_trigger_failure_rate_halt cooling now_ns in (m', optional decision)

-- the test of the daily loss, at the end of `close_package`
unfoldable pub check_daily_loss :
    (now_ns : ℤ)
    → ExecutionRiskManager × List RiskDecision
    → ExecutionRiskManager × List RiskDecision
check_daily_loss now_ns (m, decisions) =
    let loss = pos 0 -ℤ m.daily_realized_pnl_cents in
    let cap = m.config.daily_loss_cap_cents in
    let (m', decision) =
      trigger_auto_kill m RiskReasonCode.daily_loss_cap (RiskText.daily_loss loss cap) now_ns in
    if leb_ℤ cap loss then (m', decisions ++ (decision ∷ [])) else (m, decisions)

abbrev pub pnl_or : Option ℤ → ActivePackageRiskState → ℤ
pnl_or none state = realized_pnl_cents state
pnl_or (some pnl) state = pnl

-- `close_package`, where `released` is what `release_package` returned
unfoldable pub close_released :
    ExecutionRiskManager
    → (package_id : String) → (now_ns : ℤ) → (success : Bool) → (realized_pnl_cents : Option ℤ)
    → (released : InMemoryExposureTracker × Option ActivePackageRiskState)
    → ExecutionRiskManager × List RiskDecision
close_released m package_id now_ns success pnl (exposure, none) =
    (record m { exposure = exposure }, [])
close_released m package_id now_ns success pnl (exposure, some state) =
    let unindexed = unindex_package m exposure state package_id in
    let booked = record unindexed {
      daily_realized_pnl_cents = m.daily_realized_pnl_cents +ℤ pnl_or pnl state;
    } in
    check_daily_loss now_ns (if success then (booked, []) else record_failure booked state now_ns)

unfoldable pub close_package :
    ExecutionRiskManager
    → (package_id : String) → (now_ns : ℤ) → (success : Bool) → (realized_pnl_cents : Option ℤ)
    → ExecutionRiskManager × List RiskDecision
close_package m package_id now_ns success pnl =
    close_released m package_id now_ns success pnl (release_package m.exposure package_id)
