-- ===== src/Risk/Closed.antt =====
-- `close_package` and `on_state_event` of executor/risk.py: a package that is closed is gone.
use polymarket_trade_executo.Common.{
  String, ◌≡◌, refl, ap, ◌∙◌, Bool, true, false, Option, none, some, [], string_eq,
}
use polymarket_trade_executo.Common.Int.{ℤ}
use polymarket_trade_executo.Common.Dict.{get, get-remove}
use polymarket_trade_executo.StateMachine.Types.{PackageExecution, package_state_eq}
use polymarket_trade_executo.StateMachine.Events.{StateMachineEvent}
use polymarket_trade_executo.StateMachine.Tables.{is_terminal_package}
use polymarket_trade_executo.Risk.Exposure.{
  ActivePackageRiskState, InMemoryExposureTracker, release_package, release_found,
}
use polymarket_trade_executo.Risk.Manager.{ExecutionRiskManager}
use polymarket_trade_executo.Risk.Register.{
  unindex_package, record_failure, close_released, close_package,
}
use polymarket_trade_executo.Risk.Watch.{on_event_kind, close_terminal, on_state_event}
use polymarket_trade_executo.Risk.Kept.{
  maybe_trigger_failure_rate_halt-Keeps, check_daily_loss-Keeps,
}

record_failure-exposure :
    (m : ExecutionRiskManager) (state : ActivePackageRiskState) (now_ns : ℤ)
    → (record_failure m state now_ns).0.exposure ≡ m.exposure
unfolding record_failure
record_failure-exposure m state now_ns =
    (maybe_trigger_failure_rate_halt-Keeps _ now_ns).same_exposure

close_released-exposure :
    (m : ExecutionRiskManager) (id : String) (now_ns : ℤ) (success : Bool) (pnl : Option ℤ)
    (released : InMemoryExposureTracker × Option ActivePackageRiskState)
    → (close_released m id now_ns success pnl released).0.exposure ≡ released.0
unfolding close_released unindex_package
close_released-exposure m id now_ns success pnl (t, none) = refl
close_released-exposure m id now_ns true pnl (t, some state) =
    (check_daily_loss-Keeps _ now_ns []).same_exposure
close_released-exposure m id now_ns false pnl (t, some state) =
    (check_daily_loss-Keeps _ now_ns _).same_exposure ∙ record_failure-exposure _ state now_ns

release_found-absent :
    (t : InMemoryExposureTracker) (id : String) (found : Option ActivePackageRiskState)
    → get t.active_packages id ≡ found
    → get (release_found t id found).0.active_packages id ≡ none
unfolding release_found
release_found-absent t id none e = e
release_found-absent t id (some state) e = get-remove t.active_packages id

close_package-absent :
    (m : ExecutionRiskManager) (id : String) (now_ns : ℤ) (success : Bool) (pnl : Option ℤ)
    → get (close_package m id now_ns success pnl).0.exposure.active_packages id ≡ none
unfolding close_package release_package
close_package-absent m id now_ns success pnl =
    ap (λ t. get t.active_packages id)
      (close_released-exposure m id now_ns success pnl (release_package m.exposure id))
    ∙ release_found-absent m.exposure id (get m.exposure.active_packages id) refl

close_package-unknown :
    (m : ExecutionRiskManager) (id : String) (now_ns : ℤ) (success : Bool) (pnl : Option ℤ)
    → get m.exposure.active_packages id ≡ none
    → close_package m id now_ns success pnl ≡ (m, [])
unfolding close_package release_package release_found close_released
close_package-unknown m id now_ns success pnl e =
    ap (λ f. close_released m id now_ns success pnl (release_found m.exposure id f)) e

-- An event that leaves its package in a terminal state closes the package: it is no longer active,
-- and closing it again, with whatever result, changes nothing and decides nothing.
pub on_state_event-closes :
    (m : ExecutionRiskManager) (pkg : PackageExecution) (event : StateMachineEvent)
    (now_ns later_ns : ℤ) (success : Bool) (pnl : Option ℤ)
    → is_terminal_package pkg.state ≡ true
    → (let m' = (on_state_event m pkg event now_ns).0 in
        (get m'.exposure.active_packages pkg.package_id ≡ none)
        × (close_package m' pkg.package_id later_ns success pnl ≡ (m', [])))
unfolding on_state_event close_terminal
on_state_event-closes m pkg event now_ns later_ns success pnl terminal =
    let id = pkg.package_id in
    let gone : get (on_state_event m pkg event now_ns).0.exposure.active_packages id ≡ none =
      rw terminal (close_package-absent (on_event_kind m event now_ns).0 id now_ns _ none) in
    (gone, close_package-unknown (on_state_event m pkg event now_ns).0 id later_ns success pnl gone)
