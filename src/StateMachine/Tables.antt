-- ===== src/StateMachine/Tables.antt =====
-- executor/state_machine.py: ORDER_TRANSITIONS, PACKAGE_TRANSITIONS and the sets of states.
use polymarket_trade_executo.Common.{Bool, List, [], ◌∷◌}
use polymarket_trade_executo.Common.Lists.{contains}
use polymarket_trade_executo.StateMachine.Types.{
  OrderState, PackageState, order_state_eq, package_state_eq,
}

unfoldable pub order_transitions : OrderState → List OrderState
order_transitions OrderState.new = OrderState.pending_ack ∷ OrderState.halted ∷ []
order_transitions OrderState.pending_ack =
    OrderState.working ∷ OrderState.partially_filled ∷ OrderState.filled
    ∷ OrderState.cancel_requested ∷ OrderState.canceled ∷ OrderState.rejected ∷ OrderState.timed_out
    ∷ OrderState.halted ∷ []
order_transitions OrderState.working =
    OrderState.partially_filled ∷ OrderState.filled ∷ OrderState.cancel_requested
    ∷ OrderState.canceled ∷ OrderState.rejected ∷ OrderState.timed_out ∷ OrderState.halted ∷ []
order_transitions OrderState.partially_filled =
    OrderState.partially_filled ∷ OrderState.filled ∷ OrderState.cancel_requested
    ∷ OrderState.canceled ∷ OrderState.rejected ∷ OrderState.timed_out ∷ OrderState.halted ∷ []
order_transitions OrderState.cancel_requested =
    OrderState.partially_filled ∷ OrderState.filled ∷ OrderState.canceled ∷ OrderState.rejected
    ∷ OrderState.timed_out ∷ OrderState.halted ∷ []
order_transitions OrderState.canceled = OrderState.pending_ack ∷ []
order_transitions OrderState.rejected = OrderState.pending_ack ∷ []
order_transitions OrderState.timed_out =
    OrderState.pending_ack ∷ OrderState.canceled ∷ OrderState.halted ∷ []
order_transitions OrderState.filled = []
order_transitions OrderState.halted = []

unfoldable pub package_transitions : PackageState → List PackageState
package_transitions PackageState.new =
    PackageState.executing ∷ PackageState.failed ∷ PackageState.halted ∷ []
package_transitions PackageState.executing =
    PackageState.unwind_required ∷ PackageState.completed ∷ PackageState.failed
    ∷ PackageState.halted ∷ []
package_transitions PackageState.unwind_required =
    PackageState.unwinding ∷ PackageState.aborted_unwound ∷ PackageState.failed
    ∷ PackageState.halted ∷ []
package_transitions PackageState.unwinding =
    PackageState.unwind_required ∷ PackageState.aborted_unwound ∷ PackageState.failed
    ∷ PackageState.halted ∷ []
package_transitions PackageState.completed = []
package_transitions PackageState.aborted_unwound = []
package_transitions PackageState.failed = []
package_transitions PackageState.halted = []

abbrev terminal_order_states : List OrderState
terminal_order_states =
    OrderState.filled ∷ OrderState.canceled ∷ OrderState.rejected ∷ OrderState.timed_out
    ∷ OrderState.halted ∷ []

abbrev live_order_states : List OrderState
live_order_states =
    OrderState.pending_ack ∷ OrderState.working ∷ OrderState.partially_filled
    ∷ OrderState.cancel_requested ∷ []

abbrev terminal_package_states : List PackageState
terminal_package_states =
    PackageState.completed ∷ PackageState.aborted_unwound ∷ PackageState.failed
    ∷ PackageState.halted ∷ []

-- `state in TERMINAL_ORDER_STATES`
unfoldable pub is_terminal_order : OrderState → Bool
is_terminal_order s = contains terminal_order_states s

-- `state in LIVE_ORDER_STATES`
unfoldable pub is_live_order : OrderState → Bool
is_live_order s = contains live_order_states s

-- `state in TERMINAL_PACKAGE_STATES`
unfoldable pub is_terminal_package : PackageState → Bool
is_terminal_package s = contains terminal_package_states s

-- `target in ORDER_TRANSITIONS[current]`
unfoldable pub order_allowed : OrderState → OrderState → Bool
unfolding order_transitions
order_allowed current target = contains (order_transitions current) target

-- `target in PACKAGE_TRANSITIONS[state]`
unfoldable pub package_allowed : PackageState → PackageState → Bool
unfolding package_transitions
package_allowed current target = contains (package_transitions current) target
