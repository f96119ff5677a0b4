-- ===== src/StateMachine/Types.antt =====
-- executor/state_machine.py: the enumerations, the leg and the package, and the exceptions.
-- Quantities, prices (in ticks) and times (in nanoseconds) are Python's signed integers.
use polymarket_trade_executo.Common.{
  ℕ, String, ◌≡◌, ◌↔◌, Bool, true, ◌&&◌, Option, List, arith, eqb, Eq, ◌==◌, string_eq, option_eq,
}
use polymarket_trade_executo.Common.Int.{ℤ, int_eq}

pub data Side : Type 0 where
  buy sell : Side

pub data TimeInForce : Type 0 where
  ioc gtc : TimeInForce

pub data OrderState : Type 0 where
  new pending_ack working partially_filled filled : OrderState
  cancel_requested canceled rejected timed_out halted : OrderState

pub data PackageState : Type 0 where
  new executing unwind_required unwinding completed aborted_unwound failed halted : PackageState

pub data FailureCode : Type 0 where
  leg_rejected leg_timeout unwind_required unwind_confirmed manual_abort : FailureCode
  emergency_halt : FailureCode

pub record PackageFailureReason : Type 0 where
  pub code : FailureCode
  pub message : String
  pub ts_ns : ℤ
  pub leg_id : Option String

pub record LegExecution : Type 0 where
  pub leg_id : String
  pub market_id : String
  pub side : Side
  pub intended_qty : ℤ
  pub limit_price_ticks : ℤ
  pub state : OrderState
  pub client_order_id : Option String
  pub venue_order_id : Option String
  pub filled_qty : ℤ
  pub canceled_qty : ℤ
  pub avg_fill_price_ticks : Option ℤ
  pub last_fill_price_ticks : Option ℤ
  pub rejection_reason : Option String
  pub timeout_count : ℤ
  pub submit_ts_ns : Option ℤ
  pub ack_ts_ns : Option ℤ
  pub done_ts_ns : Option ℤ
  pub is_unwind_leg : Bool

pub record PackageExecution : Type 0 where
  pub package_id : String
  pub opportunity_id : String
  pub created_ts_ns : ℤ
  pub updated_ts_ns : ℤ
  pub state : PackageState
  pub intended_leg_ids : List String
  pub legs : List LegExecution
  pub failure_reason : Option PackageFailureReason

-- what the messages of `EventValidationError` say
pub data EventFault : Type 0 where
  empty_package_id empty_opportunity_id no_legs : EventFault
  duplicate_leg_id intended_qty_not_positive limit_price_not_positive : String → EventFault
  not_new unknown_leg_id no_client_order_id client_order_mismatch : String → EventFault
  package_mismatch intent_qty_not_positive intent_price_not_positive : EventFault
  unwind_needs_side_and_market fill_qty_not_positive fill_price_not_positive : EventFault
  qty_mismatch non_monotonic_fill overfill : String → EventFault
  negative_canceled_qty no_intended_legs : EventFault

-- what the messages of `StateTransitionError` say
pub data TransitionFault : Type 0 where
  package_terminal : PackageState → TransitionFault
  package_transition : PackageState → PackageState → TransitionFault
  leg_transition : String → OrderState → OrderState → TransitionFault
  late_fill cancel_refused : String → OrderState → TransitionFault
  fill_before_submit : String → TransitionFault
  not_unwinding : PackageState → TransitionFault

-- the exceptions of the module; `zero_division` is Python's own
pub data Error : Type 0 where
  event_validation : EventFault → Error
  state_transition : TransitionFault → Error
  zero_division : Error

abbrev order_rank : OrderState → ℕ
order_rank OrderState.new = 0
order_rank OrderState.pending_ack = 1
order_rank OrderState.working = 2
order_rank OrderState.partially_filled = 3
order_rank OrderState.filled = 4
order_rank OrderState.cancel_requested = 5
order_rank OrderState.canceled = 6
order_rank OrderState.rejected = 7
order_rank OrderState.timed_out = 8
order_rank OrderState.halted = 9

abbrev package_rank : PackageState → ℕ
package_rank PackageState.new = 0
package_rank PackageState.executing = 1
package_rank PackageState.unwind_required = 2
package_rank PackageState.unwinding = 3
package_rank PackageState.completed = 4
package_rank PackageState.aborted_unwound = 5
package_rank PackageState.failed = 6
package_rank PackageState.halted = 7

abbrev code_rank : FailureCode → ℕ
code_rank FailureCode.leg_rejected = 0
code_rank FailureCode.leg_timeout = 1
code_rank FailureCode.unwind_required = 2
code_rank FailureCode.unwind_confirmed = 3
code_rank FailureCode.manual_abort = 4
code_rank FailureCode.emergency_halt = 5

abbrev side_rank : Side → ℕ
side_rank Side.buy = 0
side_rank Side.sell = 1

pub order_rank_iff : (s t : OrderState) → (eqb (order_rank s) (order_rank t) ≡ true) ↔ (s ≡ t)
order_rank_iff s t = ground arith

pub package_rank_iff :
    (s t : PackageState) → (eqb (package_rank s) (package_rank t) ≡ true) ↔ (s ≡ t)
package_rank_iff s t = ground arith

pub code_rank_iff : (s t : FailureCode) → (eqb (code_rank s) (code_rank t) ≡ true) ↔ (s ≡ t)
code_rank_iff s t = ground arith

pub side_rank_iff : (s t : Side) → (eqb (side_rank s) (side_rank t) ≡ true) ↔ (s ≡ t)
side_rank_iff s t = ground arith

instance abbrev pub order_state_eq : Eq OrderState
order_state_eq = record { test = λ s t. eqb (order_rank s) (order_rank t); agrees = order_rank_iff }

instance abbrev pub package_state_eq : Eq PackageState
package_state_eq = record {
  test = λ s t. eqb (package_rank s) (package_rank t);
  agrees = package_rank_iff;
}

instance abbrev pub failure_code_eq : Eq FailureCode
failure_code_eq = record { test = λ s t. eqb (code_rank s) (code_rank t); agrees = code_rank_iff }

instance abbrev pub side_eq : Eq Side
side_eq = record { test = λ s t. eqb (side_rank s) (side_rank t); agrees = side_rank_iff }

abbrev pub failure_reason_eqb : PackageFailureReason → PackageFailureReason → Bool
failure_reason_eqb r s =
    r.code == s.code && (r.message == s.message && (r.ts_ns == s.ts_ns && r.leg_id == s.leg_id))
