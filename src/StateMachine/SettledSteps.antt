-- ===== src/StateMachine/SettledSteps.antt =====
-- Every event keeps the package state in step with the legs (executor/state_machine.py).
use polymarket_trade_executo.Common.{
  String, ◌≡◌, ◌≢◌, refl, inl, inr, true, false, not, ◌&&◌, arith, ok, Ensures, Option, none, some,
  Ensures-ok, Ensures-err, Ensures-if, Ensures-bind, ensures_rules, ◌==◌, string_eq, option_eq,
  raise_if, Result-cases,
}
use polymarket_trade_executo.Common.Int.{ℤ, pos, leb_ℤ, int_eq}
use polymarket_trade_executo.StateMachine.Types.{
  OrderState, PackageState, LegExecution, PackageExecution, package_state_eq, package_rank_iff,
  order_state_eq, Side, FailureCode,
}
use polymarket_trade_executo.StateMachine.Events.{
  OrderIntent, VenueOrderAck, VenueFillEvent, VenueCancelEvent, VenueRejectEvent, LegEvent,
  PackageEvent, StateMachineEvent, event_package_id,
}
use polymarket_trade_executo.StateMachine.Tables.{is_terminal_package, is_live_order}
use polymarket_trade_executo.StateMachine.Package.{
  leg_by_id, assert_order_transition, replace_leg, append_leg, set_failure_reason, is_unwind_state,
  validate_package_match,
}
use polymarket_trade_executo.StateMachine.Handlers.{
  synthetic_unwind_leg, unknown_leg_intent, resubmitted, known_leg_intent, on_order_intent,
  on_order_ack, booked, average_price, book_late_fill, late_fill_reason, book_fill, on_fill,
  on_reject, on_cancel_requested, on_cancel_confirmed, on_timeout, on_unwind_required, on_unwound,
  on_abort, on_emergency_halt, halt_legs, package_failure,
}
use polymarket_trade_executo.StateMachine.Reducer.{dispatch, is_halt, apply_event}
use polymarket_trade_executo.StateMachine.FillSteps.{guard-false}
use polymarket_trade_executo.StateMachine.Settled.{
  is_open, IsSettled, replace_and_recompute-IsSettled, mark_and_recompute-IsSettled,
  unwind_and_recompute-IsSettled, moved-IsSettled, move-IsSettled, append_leg-state,
  replace_leg-state,
}

unwind-IsSettled : (q : PackageExecution) → is_unwind_state q.state ≡ true → IsSettled q
unwind-IsSettled q h = moved-IsSettled q (λ e. ground arith) (ground arith)

failed-IsSettled :
    (q : PackageExecution) (t : PackageState)
    → (q.state == t) ≡ true
    → t ≢ PackageState.completed
    → is_open t ≡ false
    → IsSettled q
failed-IsSettled q t e n o =
    let there : q.state ≡ t = (package_rank_iff q.state t).0 e in
    moved-IsSettled q (rw there n) (rw there o)

module _ (p : PackageExecution) (open_ended : is_terminal_package p.state ≡ false)
    (settled : IsSettled p) where
  on_order_ack-IsSettled : (e : VenueOrderAck) → Ensures IsSettled (on_order_ack p e)
  unfolding on_order_ack
  on_order_ack-IsSettled e =
      search (ensures_rules, replace_and_recompute-IsSettled p open_ended) depth 9

  on_reject-IsSettled : (e : VenueRejectEvent) → Ensures IsSettled (on_reject p e)
  unfolding on_reject
  on_reject-IsSettled e =
      search (ensures_rules, settled, mark_and_recompute-IsSettled p open_ended) depth 9

  on_timeout-IsSettled : (e : LegEvent) → Ensures IsSettled (on_timeout p e)
  unfolding on_timeout
  on_timeout-IsSettled e =
      search (ensures_rules, settled, mark_and_recompute-IsSettled p open_ended) depth 9

  on_cancel_requested-IsSettled : (e : LegEvent) → Ensures IsSettled (on_cancel_requested p e)
  unfolding on_cancel_requested
  on_cancel_requested-IsSettled e =
      search (ensures_rules, settled, replace_and_recompute-IsSettled p open_ended) depth 9

  on_cancel_confirmed-IsSettled :
      (e : VenueCancelEvent) → Ensures IsSettled (on_cancel_confirmed p e)
  unfolding on_cancel_confirmed
  on_cancel_confirmed-IsSettled e =
      search (ensures_rules, settled, replace_and_recompute-IsSettled p open_ended) depth 9

  on_unwind_required-IsSettled : (e : PackageEvent) → Ensures IsSettled (on_unwind_required p e)
  unfolding on_unwind_required
  on_unwind_required-IsSettled e =
      Ensures-if (is_unwind_state p.state) _ _ (λ _. Ensures-ok p settled)
        λ _. move-IsSettled _ PackageState.unwind_required e.ts_ns (λ x. cc) refl

  on_unwound-IsSettled : (e : PackageEvent) → Ensures IsSettled (on_unwound p e)
  unfolding on_unwound
  on_unwound-IsSettled e =
      Ensures-if (not (is_unwind_state p.state)) _ _ (λ _. Ensures-err _)
        λ _. move-IsSettled _ PackageState.aborted_unwound e.ts_ns (λ x. cc) refl

  book_late_fill-IsSettled :
      (e : VenueFillEvent) (l : LegExecution) (c : ℤ) → Ensures IsSettled (book_late_fill p e l c)
  unfolding book_late_fill
  book_late_fill-IsSettled e l c =
      Ensures-bind (average_price l e.fill_price_ticks c) _ λ average _.
        Ensures-bind (replace_leg p (booked l e.fill_price_ticks c average) e.ts_ns) _ λ q _.
          let r = set_failure_reason q (late_fill_reason l e) e.ts_ns in
          Ensures-if (is_unwind_state r.state) _ _ (λ u. Ensures-ok r (unwind-IsSettled r u))
            λ _. move-IsSettled r PackageState.unwind_required e.ts_ns (λ x. cc) refl

  book_fill-IsSettled :
      (e : VenueFillEvent) (l : LegExecution) (c : ℤ) → Ensures IsSettled (book_fill p e l c)
  unfolding book_fill
  book_fill-IsSettled e l c =
      search (ensures_rules, replace_and_recompute-IsSettled p open_ended) depth 9

  on_fill-IsSettled : (e : VenueFillEvent) → Ensures IsSettled (on_fill p e)
  unfolding on_fill
  on_fill-IsSettled e =
      search (ensures_rules, settled, book_late_fill-IsSettled, book_fill-IsSettled) depth 14

  unknown_leg_intent-IsSettled :
      (e : OrderIntent) (side : Option Side) (market : Option String)
      → Ensures IsSettled (unknown_leg_intent p e side market)
  unfolding unknown_leg_intent
  unknown_leg_intent-IsSettled e none market = Ensures-err _
  unknown_leg_intent-IsSettled e (some side) none = Ensures-err _
  unknown_leg_intent-IsSettled e (some side) (some market_id) =
      Ensures-bind (append_leg p (synthetic_unwind_leg e side market_id) e.ts_ns) _ λ q added.
        unwind_and_recompute-IsSettled p open_ended q true e.ts_ns
          ((append_leg-state p _ e.ts_ns).at q added)

  known_leg_intent-IsSettled :
      (e : OrderIntent) (l : LegExecution) → Ensures IsSettled (known_leg_intent p e l)
  unfolding known_leg_intent
  known_leg_intent-IsSettled e l =
      Ensures-if (l.client_order_id == some e.client_order_id && is_live_order l.state) _ _
        (λ again. Ensures-ok p settled)
        λ first.
          Ensures-bind (raise_if (not l.is_unwind_leg && not (e.qty == l.intended_qty)) _) _ λ _ _.
            Ensures-bind (assert_order_transition l.state OrderState.pending_ack l.leg_id) _ λ _ _.
              Ensures-bind (replace_leg p (resubmitted l e) e.ts_ns) _ λ q back.
                unwind_and_recompute-IsSettled p open_ended q _ e.ts_ns
                  ((replace_leg-state p _ e.ts_ns).at q back)

  on_order_intent-IsSettled : (e : OrderIntent) → Ensures IsSettled (on_order_intent p e)
  unfolding on_order_intent
  on_order_intent-IsSettled e = Ensures-bind (raise_if (leb_ℤ e.qty (pos 0)) _) _ λ _ _.
      Ensures-bind (raise_if (leb_ℤ e.limit_price_ticks (pos 0)) _) _ λ _ _.
        elim (Result-cases (leg_by_id p e.leg_id)) [
          | inl (l, found) ↦ rw found (known_leg_intent-IsSettled e l)
          | inr (x, missing) ↦ rw missing (
              Ensures-if e.is_unwind _ _ (λ _. unknown_leg_intent-IsSettled e e.side e.market_id)
                λ _. Ensures-err x)
        ]

  on_abort-IsSettled : (e : PackageEvent) → Ensures IsSettled (on_abort p e)
  unfolding on_abort
  on_abort-IsSettled e =
      let q = set_failure_reason p (package_failure FailureCode.manual_abort e) e.ts_ns in
      Ensures-if (q.state == PackageState.failed) _ _
        (λ same. Ensures-ok q (failed-IsSettled q PackageState.failed same (λ x. cc) refl))
        λ _. move-IsSettled q PackageState.failed e.ts_ns (λ x. cc) refl

on_emergency_halt-IsSettled :
    (p : PackageExecution) (e : PackageEvent) → Ensures IsSettled (on_emergency_halt p e)
unfolding on_emergency_halt
on_emergency_halt-IsSettled p e = Ensures-bind (halt_legs e.ts_ns p.legs) _ λ ls _.
    let q =
      set_failure_reason (record p { legs = ls; updated_ts_ns = e.ts_ns })
        (package_failure FailureCode.emergency_halt e) e.ts_ns in
    Ensures-if (q.state == PackageState.halted) _ _
      (λ same. Ensures-ok q (failed-IsSettled q PackageState.halted same (λ x. cc) refl))
      λ _. move-IsSettled q PackageState.halted e.ts_ns (λ x. cc) refl

dispatch-IsSettled :
    (p : PackageExecution) (e : StateMachineEvent)
    → (is_terminal_package p.state && not (is_halt e)) ≡ false
    → IsSettled p
    → Ensures IsSettled (dispatch p e)
unfolding dispatch is_halt
dispatch-IsSettled p (StateMachineEvent.emergency_halt e) h s = on_emergency_halt-IsSettled p e
dispatch-IsSettled p (StateMachineEvent.order_intent e) h s =
    on_order_intent-IsSettled p (ground arith) s e
dispatch-IsSettled p (StateMachineEvent.order_ack e) h s =
    on_order_ack-IsSettled p (ground arith) s e
dispatch-IsSettled p (StateMachineEvent.venue_fill e) h s = on_fill-IsSettled p (ground arith) s e
dispatch-IsSettled p (StateMachineEvent.venue_cancel e) h s =
    on_cancel_confirmed-IsSettled p (ground arith) s e
dispatch-IsSettled p (StateMachineEvent.venue_reject e) h s =
    on_reject-IsSettled p (ground arith) s e
dispatch-IsSettled p (StateMachineEvent.cancel_requested e) h s =
    on_cancel_requested-IsSettled p (ground arith) s e
dispatch-IsSettled p (StateMachineEvent.leg_timeout e) h s =
    on_timeout-IsSettled p (ground arith) s e
dispatch-IsSettled p (StateMachineEvent.unwind_required e) h s =
    on_unwind_required-IsSettled p (ground arith) s e
dispatch-IsSettled p (StateMachineEvent.unwound e) h s = on_unwound-IsSettled p (ground arith) s e
dispatch-IsSettled p (StateMachineEvent.abort e) h s = on_abort-IsSettled p (ground arith) s e

-- An event that the reducer accepts leaves a package whose state agrees with its intended legs: if
-- it is COMPLETED they are all FILLED, and if it is still NEW or EXECUTING then not all are FILLED
-- and none is REJECTED or TIMED_OUT. It is enough that this held before.
pub apply_event-IsSettled :
    (p p' : PackageExecution) (e : StateMachineEvent)
    → apply_event p e ≡ ok p'
    → IsSettled p
    → IsSettled p'
unfolding apply_event
apply_event-IsSettled p p' e h settled =
    (Ensures-bind (validate_package_match p (event_package_id e)) _ λ _ _.
        Ensures-bind (raise_if (is_terminal_package p.state && not (is_halt e)) _) _
          λ _ passed. dispatch-IsSettled p e (guard-false _ _ passed) settled).at
      p' h
