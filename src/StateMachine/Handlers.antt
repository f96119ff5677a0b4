-- ===== src/StateMachine/Handlers.antt =====
-- executor/state_machine.py: the handlers of the events, one function each.
use Prim.Native.String.{◌++◌ as string_append}
use polymarket_trade_executo.Common.{
  String, Bool, true, not, ◌&&◌, ◌||◌, Option, none, some, List, [], ◌∷◌, ok, err, ◌>>=◌, ◌>>◌,
  raise_if, ◌==◌, string_eq, option_eq, if◌then◌else◌,
}
use polymarket_trade_executo.Common.Int.{
  ℤ, pos, leb_ℤ, ltb_ℤ, max_ℤ, int_eq, ◌+ℤ◌, ◌-ℤ◌, ◌*ℤ◌, ◌/ℤ◌,
}
use polymarket_trade_executo.StateMachine.Types.{
  Side, OrderState, PackageState, FailureCode, PackageFailureReason, LegExecution, PackageExecution,
  event_validation, state_transition, zero_division, unwind_needs_side_and_market,
  intent_qty_not_positive, intent_price_not_positive, qty_mismatch, fill_qty_not_positive,
  fill_price_not_positive, non_monotonic_fill, overfill, negative_canceled_qty, late_fill,
  fill_before_submit, cancel_refused, not_unwinding, order_state_eq, package_state_eq,
}
use polymarket_trade_executo.StateMachine.Events.{
  OrderIntent, VenueOrderAck, VenueFillEvent, VenueCancelEvent, VenueRejectEvent, LegEvent,
  PackageEvent,
}
use polymarket_trade_executo.StateMachine.Tables.{is_live_order, is_terminal_order}
use polymarket_trade_executo.StateMachine.Package.{
  Raises, invalid, leg_by_id, assert_order_transition, assert_client_order_match, append_leg,
  replace_leg, move_package_state, set_failure_reason, recompute_package_state, is_unwind_state,
}

-- the leg that an unwind intent for an unknown id brings in
unfoldable pub synthetic_unwind_leg : OrderIntent → Side → String → LegExecution
synthetic_unwind_leg event side market_id = record {
  leg_id = event.leg_id;
  market_id = market_id;
  side = side;
  intended_qty = event.qty;
  limit_price_ticks = event.limit_price_ticks;
  state = OrderState.pending_ack;
  client_order_id = some event.client_order_id;
  venue_order_id = none;
  filled_qty = pos 0;
  canceled_qty = pos 0;
  avg_fill_price_ticks = none;
  last_fill_price_ticks = none;
  rejection_reason = none;
  timeout_count = pos 0;
  submit_ts_ns = some event.ts_ns;
  ack_ts_ns = none;
  done_ts_ns = none;
  is_unwind_leg = true;
}

-- `if package.state == UNWIND_REQUIRED and c: package = _move_package_state(..., UNWINDING, ...)`
unfoldable pub start_unwinding : Bool → PackageExecution → ℤ → Raises PackageExecution
start_unwinding c pkg ts_ns =
    if pkg.state == PackageState.unwind_required && c
    then move_package_state pkg PackageState.unwinding ts_ns
    else ok pkg

-- the `except` branch of `_on_order_intent`, once the side and the market are known
unfoldable pub add_unwind_leg :
    PackageExecution → OrderIntent → LegExecution → Raises PackageExecution
unfolding start_unwinding
add_unwind_leg pkg event leg = do
  pkg' ← append_leg pkg leg event.ts_ns
  pkg'' ← start_unwinding true pkg' event.ts_ns
  recompute_package_state pkg'' event.ts_ns

unfoldable pub unknown_leg_intent :
    PackageExecution → OrderIntent → Option Side → Option String → Raises PackageExecution
unfolding add_unwind_leg synthetic_unwind_leg
unknown_leg_intent pkg event none market = invalid unwind_needs_side_and_market
unknown_leg_intent pkg event (some side) none = invalid unwind_needs_side_and_market
unknown_leg_intent pkg event (some side) (some market_id) =
    add_unwind_leg pkg event (synthetic_unwind_leg event side market_id)

-- the leg as resubmitted
unfoldable pub resubmitted : LegExecution → OrderIntent → LegExecution
resubmitted leg event = record leg {
  intended_qty = if leg.is_unwind_leg then event.qty else leg.intended_qty;
  limit_price_ticks = event.limit_price_ticks;
  state = OrderState.pending_ack;
  client_order_id = some event.client_order_id;
  venue_order_id = none;
  rejection_reason = none;
  submit_ts_ns = some event.ts_ns;
  done_ts_ns = none;
}

-- `_on_order_intent` below the lookup, for a leg of the package
unfoldable pub known_leg_intent :
    PackageExecution → OrderIntent → LegExecution → Raises PackageExecution
unfolding start_unwinding resubmitted
known_leg_intent pkg event leg =
    if leg.client_order_id == some event.client_order_id && is_live_order leg.state
    then ok pkg
    else do
      raise_if (not leg.is_unwind_leg && not (event.qty == leg.intended_qty))
          (event_validation (qty_mismatch event.leg_id))
      assert_order_transition leg.state OrderState.pending_ack leg.leg_id
      pkg' ← replace_leg pkg (resubmitted leg event) event.ts_ns
      pkg'' ← start_unwinding (event.is_unwind || leg.is_unwind_leg) pkg' event.ts_ns
      recompute_package_state pkg'' event.ts_ns

unfoldable pub on_order_intent : PackageExecution → OrderIntent → Raises PackageExecution
unfolding unknown_leg_intent known_leg_intent
on_order_intent pkg event = do
  raise_if (leb_ℤ event.qty (pos 0)) (event_validation intent_qty_not_positive)
  raise_if (leb_ℤ event.limit_price_ticks (pos 0)) (event_validation intent_price_not_positive)
  elim (leg_by_id pkg event.leg_id) [
    | ok leg ↦ known_leg_intent pkg event leg
    | err e ↦
        if event.is_unwind then unknown_leg_intent pkg event event.side event.market_id else err e
  ]

-- `_replace_leg` and then `_recompute_package_state`
unfoldable pub replace_and_recompute : PackageExecution → LegExecution → ℤ → Raises PackageExecution
replace_and_recompute pkg leg ts_ns = do
  pkg' ← replace_leg pkg leg ts_ns
  recompute_package_state pkg' ts_ns

-- an ack for a leg in one of these states only adds the venue's order id
unfoldable pub ack_is_late : OrderState → Bool
ack_is_late s =
    s == OrderState.working
    || (s == OrderState.partially_filled
        || (s == OrderState.filled
            || (s == OrderState.cancel_requested || s == OrderState.canceled)))

unfoldable pub on_order_ack : PackageExecution → VenueOrderAck → Raises PackageExecution
unfolding replace_and_recompute ack_is_late
on_order_ack pkg event = do
  leg ← leg_by_id pkg event.leg_id
  assert_client_order_match leg event.client_order_id
  let enriched = record leg {
    venue_order_id = some event.venue_order_id;
    ack_ts_ns = some event.ts_ns;
  }
  if ack_is_late leg.state
      then replace_and_recompute pkg enriched event.ts_ns
      else (assert_order_transition leg.state OrderState.working leg.leg_id
          >> replace_and_recompute pkg (record enriched { state = OrderState.working }) event.ts_ns)

-- `leg.avg_fill_price_ticks or 0`
abbrev or_zero : Option ℤ → ℤ
or_zero none = pos 0
or_zero (some n) = n

-- `(previous_notional + fill_notional) // new_cumulative_qty`
unfoldable pub average_price : LegExecution → ℤ → ℤ → Raises ℤ
average_price leg price cumulative =
    if cumulative == pos 0
    then err zero_division
    else ok (
        (or_zero leg.avg_fill_price_ticks *ℤ leg.filled_qty
          +ℤ (cumulative -ℤ leg.filled_qty) *ℤ price)
        /ℤ cumulative)

-- the leg with the fill booked
unfoldable pub booked : LegExecution → ℤ → ℤ → ℤ → LegExecution
booked leg price cumulative average = record leg {
  filled_qty = cumulative;
  last_fill_price_ticks = some price;
  avg_fill_price_ticks = some average;
}

-- `f"{leg.state}"`: Python 3.12 prints a member of a `str` enumeration with its class
abbrev order_state_text : OrderState → String
order_state_text OrderState.new = "OrderState.NEW"
order_state_text OrderState.pending_ack = "OrderState.PENDING_ACK"
order_state_text OrderState.working = "OrderState.WORKING"
order_state_text OrderState.partially_filled = "OrderState.PARTIALLY_FILLED"
order_state_text OrderState.filled = "OrderState.FILLED"
order_state_text OrderState.cancel_requested = "OrderState.CANCEL_REQUESTED"
order_state_text OrderState.canceled = "OrderState.CANCELED"
order_state_text OrderState.rejected = "OrderState.REJECTED"
order_state_text OrderState.timed_out = "OrderState.TIMED_OUT"
order_state_text OrderState.halted = "OrderState.HALTED"

unfoldable pub late_fill_reason : LegExecution → VenueFillEvent → PackageFailureReason
late_fill_reason leg event = record {
  code = FailureCode.unwind_required;
  message =
      string_append "late fill on terminal leg "
        (string_append leg.leg_id (string_append " in state=" (order_state_text leg.state)));
  ts_ns = event.ts_ns;
  leg_id = some leg.leg_id;
}

-- a fill on a leg that is CANCELED, REJECTED or TIMED_OUT
unfoldable pub book_late_fill :
    PackageExecution → VenueFillEvent → LegExecution → ℤ → Raises PackageExecution
unfolding average_price booked late_fill_reason
book_late_fill pkg event leg cumulative = do
  average ← average_price leg event.fill_price_ticks cumulative
  replaced ← replace_leg pkg (booked leg event.fill_price_ticks cumulative average) event.ts_ns
  let marked = set_failure_reason replaced (late_fill_reason leg event) event.ts_ns
  if is_unwind_state marked.state
      then ok marked
      else move_package_state marked PackageState.unwind_required event.ts_ns

-- the state of a leg that has `cumulative` filled
unfoldable pub fill_target : LegExecution → ℤ → OrderState
fill_target leg cumulative =
    if leb_ℤ leg.intended_qty cumulative then OrderState.filled else OrderState.partially_filled

-- a fill on a leg that is not terminal
unfoldable pub book_fill :
    PackageExecution → VenueFillEvent → LegExecution → ℤ → Raises PackageExecution
unfolding average_price booked fill_target replace_and_recompute
book_fill pkg event leg cumulative = do
  let target = fill_target leg cumulative
  assert_order_transition leg.state target leg.leg_id
  average ← average_price leg event.fill_price_ticks cumulative
  let next = booked leg event.fill_price_ticks cumulative average
  replace_and_recompute pkg
      (record next {
        state = target;
        done_ts_ns = if target == OrderState.filled then some event.ts_ns else leg.done_ts_ns;
      })
      event.ts_ns

-- `leg.state in {CANCELED, REJECTED, TIMED_OUT}`
unfoldable pub is_closed_unfilled : OrderState → Bool
is_closed_unfilled s =
    s == OrderState.canceled || (s == OrderState.rejected || s == OrderState.timed_out)

-- `event.cumulative_qty if event.cumulative_qty is not None else leg.filled_qty + event.fill_qty`
unfoldable pub new_cumulative : LegExecution → VenueFillEvent → ℤ
new_cumulative leg event = elim event.cumulative_qty [
  | none ↦ leg.filled_qty +ℤ event.fill_qty
  | some total ↦ total
]

-- `_on_fill` once a positive increment is known
unfoldable pub fill_by_state :
    PackageExecution → VenueFillEvent → LegExecution → ℤ → Raises PackageExecution
unfolding book_late_fill book_fill is_closed_unfilled
fill_by_state pkg event leg cumulative =
    if is_closed_unfilled leg.state
    then book_late_fill pkg event leg cumulative
    else if leg.state == OrderState.halted
    then err (state_transition (late_fill leg.leg_id leg.state))
    else if leg.state == OrderState.new
    then err (state_transition (fill_before_submit leg.leg_id))
    else book_fill pkg event leg cumulative

unfoldable pub on_fill : PackageExecution → VenueFillEvent → Raises PackageExecution
unfolding new_cumulative fill_by_state
on_fill pkg event = do
  leg ← leg_by_id pkg event.leg_id
  assert_client_order_match leg event.client_order_id
  raise_if (leb_ℤ event.fill_qty (pos 0)) (event_validation fill_qty_not_positive)
  raise_if (leb_ℤ event.fill_price_ticks (pos 0)) (event_validation fill_price_not_positive)
  let cumulative = new_cumulative leg event
  raise_if (ltb_ℤ cumulative leg.filled_qty) (event_validation (non_monotonic_fill leg.leg_id))
  raise_if (not leg.is_unwind_leg && ltb_ℤ leg.intended_qty cumulative)
      (event_validation (overfill leg.leg_id))
  if cumulative -ℤ leg.filled_qty == pos 0 then ok pkg else fill_by_state pkg event leg cumulative

unfoldable pub leg_failure : FailureCode → String → ℤ → String → PackageFailureReason
leg_failure code message ts_ns leg_id = record {
  code = code;
  message = message;
  ts_ns = ts_ns;
  leg_id = some leg_id;
}

unfoldable pub on_reject : PackageExecution → VenueRejectEvent → Raises PackageExecution
unfolding leg_failure
on_reject pkg event = do
  leg ← leg_by_id pkg event.leg_id
  assert_client_order_match leg event.client_order_id
  if leg.state == OrderState.rejected then ok pkg else do
    assert_order_transition leg.state OrderState.rejected leg.leg_id
    replaced ←
        replace_leg pkg
          (record leg {
            state = OrderState.rejected;
            rejection_reason = some event.reason;
            done_ts_ns = some event.ts_ns;
          })
          event.ts_ns
    recompute_package_state
        (set_failure_reason replaced
          (leg_failure FailureCode.leg_rejected event.reason event.ts_ns event.leg_id) event.ts_ns)
        event.ts_ns

unfoldable pub on_cancel_requested : PackageExecution → LegEvent → Raises PackageExecution
unfolding replace_and_recompute is_closed_unfilled
on_cancel_requested pkg event = do
  leg ← leg_by_id pkg event.leg_id
  if leg.state == OrderState.cancel_requested || is_closed_unfilled leg.state then ok pkg else do
    raise_if
        (leg.state == OrderState.filled
          || (leg.state == OrderState.halted || leg.state == OrderState.new))
        (state_transition (cancel_refused leg.leg_id leg.state))
    assert_order_transition leg.state OrderState.cancel_requested leg.leg_id
    replace_and_recompute pkg (record leg { state = OrderState.cancel_requested }) event.ts_ns

unfoldable pub on_cancel_confirmed : PackageExecution → VenueCancelEvent → Raises PackageExecution
unfolding replace_and_recompute
on_cancel_confirmed pkg event = do
  leg ← leg_by_id pkg event.leg_id
  assert_client_order_match leg event.client_order_id
  raise_if (ltb_ℤ event.canceled_qty (pos 0)) (event_validation negative_canceled_qty)
  if leg.state == OrderState.canceled then ok pkg else do
    assert_order_transition leg.state OrderState.canceled leg.leg_id
    replace_and_recompute pkg
        (record leg {
          state = OrderState.canceled;
          canceled_qty = max_ℤ leg.canceled_qty event.canceled_qty;
          done_ts_ns = some event.ts_ns;
        })
        event.ts_ns

-- a timeout leaves a leg in one of these states alone; the source tests TIMED_OUT first
unfoldable pub timeout_is_late : OrderState → Bool
timeout_is_late s =
    s == OrderState.timed_out
    || (s == OrderState.canceled
        || (s == OrderState.rejected || (s == OrderState.filled || s == OrderState.halted)))

unfoldable pub on_timeout : PackageExecution → LegEvent → Raises PackageExecution
unfolding leg_failure timeout_is_late
on_timeout pkg event = do
  leg ← leg_by_id pkg event.leg_id
  if timeout_is_late leg.state then ok pkg else do
    assert_order_transition leg.state OrderState.timed_out leg.leg_id
    replaced ←
        replace_leg pkg
          (record leg {
            state = OrderState.timed_out;
            timeout_count = leg.timeout_count +ℤ pos 1;
            done_ts_ns = some event.ts_ns;
          })
          event.ts_ns
    recompute_package_state
        (set_failure_reason replaced
          (leg_failure FailureCode.leg_timeout event.reason event.ts_ns event.leg_id) event.ts_ns)
        event.ts_ns

-- a reason that names no leg
unfoldable pub package_failure : FailureCode → PackageEvent → PackageFailureReason
package_failure code event = record {
  code = code;
  message = event.reason;
  ts_ns = event.ts_ns;
  leg_id = none;
}

unfoldable pub on_unwind_required : PackageExecution → PackageEvent → Raises PackageExecution
unfolding package_failure
on_unwind_required pkg event =
    if is_unwind_state pkg.state
    then ok pkg
    else move_package_state
        (set_failure_reason pkg (package_failure FailureCode.unwind_required event) event.ts_ns)
        PackageState.unwind_required event.ts_ns

unfoldable pub on_unwound : PackageExecution → PackageEvent → Raises PackageExecution
unfolding package_failure
on_unwound pkg event =
    if not (is_unwind_state pkg.state)
    then err (state_transition (not_unwinding pkg.state))
    else move_package_state
        (set_failure_reason pkg (package_failure FailureCode.unwind_confirmed event) event.ts_ns)
        PackageState.aborted_unwound event.ts_ns

unfoldable pub on_abort : PackageExecution → PackageEvent → Raises PackageExecution
unfolding package_failure
on_abort pkg event =
    let marked =
      set_failure_reason pkg (package_failure FailureCode.manual_abort event) event.ts_ns in
    if marked.state == PackageState.failed
    then ok marked
    else move_package_state marked PackageState.failed event.ts_ns

-- the loop of `_on_emergency_halt`
unfoldable pub halt_legs : ℤ → List LegExecution → Raises (List LegExecution)
halt_legs ts_ns [] = ok []
halt_legs ts_ns (leg ∷ legs) =
    let rest = halt_legs ts_ns legs in
    if is_terminal_order leg.state
    then (rest >>= λ ls. ok (leg ∷ ls))
    else (assert_order_transition leg.state OrderState.halted leg.leg_id
        >> (rest >>= λ ls.
            ok (record leg { state = OrderState.halted; done_ts_ns = some ts_ns } ∷ ls)))

unfoldable pub on_emergency_halt : PackageExecution → PackageEvent → Raises PackageExecution
unfolding halt_legs package_failure
on_emergency_halt pkg event = do
  legs ← halt_legs event.ts_ns pkg.legs
  let frozen = record pkg { legs = legs; updated_ts_ns = event.ts_ns }
  let marked =
      set_failure_reason frozen (package_failure FailureCode.emergency_halt event) event.ts_ns
  if marked.state == PackageState.halted
      then ok marked
      else move_package_state marked PackageState.halted event.ts_ns
