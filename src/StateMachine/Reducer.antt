-- ===== src/StateMachine/Reducer.antt =====
-- executor/state_machine.py: `apply_event`, the entry point of the reducer, and its iteration.
use polymarket_trade_executo.Common.{
  Bool, true, false, not, ◌&&◌, List, [], ◌∷◌, ok, ◌>>=◌, ◌>>◌, raise_if,
}
use polymarket_trade_executo.StateMachine.Types.{
  PackageExecution, state_transition, package_terminal,
}
use polymarket_trade_executo.StateMachine.Events.{StateMachineEvent, event_package_id}
use polymarket_trade_executo.StateMachine.Tables.{is_terminal_package}
use polymarket_trade_executo.StateMachine.Package.{Raises, validate_package_match}
use polymarket_trade_executo.StateMachine.Handlers.{
  on_order_intent, on_order_ack, on_fill, on_cancel_confirmed, on_reject, on_cancel_requested,
  on_timeout, on_unwind_required, on_unwound, on_abort, on_emergency_halt,
}

-- the ladder of `isinstance` tests
unfoldable pub dispatch : PackageExecution → StateMachineEvent → Raises PackageExecution
dispatch pkg (StateMachineEvent.order_intent e) = on_order_intent pkg e
dispatch pkg (StateMachineEvent.order_ack e) = on_order_ack pkg e
dispatch pkg (StateMachineEvent.venue_fill e) = on_fill pkg e
dispatch pkg (StateMachineEvent.venue_cancel e) = on_cancel_confirmed pkg e
dispatch pkg (StateMachineEvent.venue_reject e) = on_reject pkg e
dispatch pkg (StateMachineEvent.cancel_requested e) = on_cancel_requested pkg e
dispatch pkg (StateMachineEvent.leg_timeout e) = on_timeout pkg e
dispatch pkg (StateMachineEvent.unwind_required e) = on_unwind_required pkg e
dispatch pkg (StateMachineEvent.unwound e) = on_unwound pkg e
dispatch pkg (StateMachineEvent.abort e) = on_abort pkg e
dispatch pkg (StateMachineEvent.emergency_halt e) = on_emergency_halt pkg e

-- `isinstance(event, EmergencyHaltEvent)`
unfoldable pub is_halt : StateMachineEvent → Bool
is_halt (StateMachineEvent.emergency_halt e) = true
is_halt (StateMachineEvent.order_intent e) = false
is_halt _ = false

unfoldable pub apply_event : PackageExecution → StateMachineEvent → Raises PackageExecution
unfolding is_halt
apply_event pkg event = do
  validate_package_match pkg (event_package_id event)
  raise_if (is_terminal_package pkg.state && not (is_halt event))
      (state_transition (package_terminal pkg.state))
  dispatch pkg event

-- A caller that feeds events one after the other and stops at the first exception.
unfoldable pub apply_events : PackageExecution → List StateMachineEvent → Raises PackageExecution
apply_events pkg [] = ok pkg
apply_events pkg (event ∷ events) = apply_event pkg event >>= λ pkg'. apply_events pkg' events
