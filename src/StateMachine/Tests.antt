-- ===== src/StateMachine/Tests.antt =====
-- Runs of the reducer of executor/state_machine.py, and its theorems at concrete packages.
use polymarket_trade_executo.Common.{
  String, ◌≡◌, refl, ◌⊎◌, inl, true, false, List, [], ◌∷◌, map, ok, err, none, some, ◌↔◌,
}
use mathlib.Core.Option
use polymarket_trade_executo.Common.Int.{ℤ, pos, ◌+ℤ◌, ◌-ℤ◌, ◌*ℤ◌, ◌/ℤ◌}
use polymarket_trade_executo.Common.Lists.{All, all}
use polymarket_trade_executo.StateMachine.Types.{
  Side, TimeInForce, OrderState, PackageState, LegExecution, PackageExecution, Error,
  state_transition, package_transition,
}
use polymarket_trade_executo.StateMachine.Events.{
  StateMachineEvent, VenueFillEvent, PackageEvent, event_package_id,
}
use polymarket_trade_executo.StateMachine.Tables.{
  is_terminal_order, is_live_order, is_terminal_package, order_allowed, package_allowed,
}
use polymarket_trade_executo.StateMachine.Package.{
  check_legs, create_package_execution, find_leg, leg_by_id, assert_order_transition,
  assert_client_order_match, validate_package_match, append_leg, replace_in, replace_leg,
  move_package_state, set_failure_reason, intended_legs, recompute_from, recompute_package_state,
  Raises, is_filled, is_unwind_state,
}
use polymarket_trade_executo.StateMachine.Handlers.{
  on_order_intent, on_order_ack, on_fill, on_reject, on_cancel_requested, on_cancel_confirmed,
  on_timeout, on_unwind_required, on_unwound, on_abort, on_emergency_halt, new_cumulative,
}
use polymarket_trade_executo.StateMachine.Reducer.{dispatch, apply_event, apply_events}
use polymarket_trade_executo.StateMachine.Evolves.{Moves, SameIdentity}
use polymarket_trade_executo.StateMachine.Transitions.{apply_event-Moves, LegAfter, apply_event-leg}
use polymarket_trade_executo.StateMachine.Terminal.{
  terminal_absorbs, frozen, emergency_halt-total, closed-refuses,
}
use polymarket_trade_executo.StateMachine.Creation.{
  created, IsCreatable, create_package_execution_iff,
}
use polymarket_trade_executo.StateMachine.Reachability.{
  IsReachable, IsFilledInFull, reachable-invariant, completed_in_full,
}
use polymarket_trade_executo.StateMachine.Transitions.{IsSound}
use polymarket_trade_executo.StateMachine.Settled.{IsSettled}
use polymarket_trade_executo.StateMachine.Fills.{HasBooked, fill_books, fill_redelivered}
use polymarket_trade_executo.StateMachine.LateFills.{late_fill-Unwinds, completing_fill-refused}

-- `apply_events`, with all that it calls open for evaluation.
run : PackageExecution → List StateMachineEvent → Raises PackageExecution
unfolding apply_events apply_event dispatch validate_package_match event_package_id on_order_intent
    on_order_ack on_fill on_reject on_cancel_requested on_cancel_confirmed on_timeout
    on_unwind_required on_unwound on_abort on_emergency_halt leg_by_id find_leg
    assert_order_transition assert_client_order_match append_leg replace_leg replace_in
    move_package_state set_failure_reason intended_legs recompute_from recompute_package_state
    is_terminal_order is_live_order is_terminal_package order_allowed package_allowed
    create_package_execution check_legs ◌+ℤ◌ ◌-ℤ◌ ◌*ℤ◌ ◌/ℤ◌
run = apply_events

-- The package that a call returns; where it raises, the one it was given.
abbrev returned : PackageExecution → Raises PackageExecution → PackageExecution
returned p (ok q) = q
returned p (err e) = p

abbrev planned_leg : String → Side → LegExecution
planned_leg i side = record {
  leg_id = i;
  market_id = "m";
  side = side;
  intended_qty = pos 10;
  limit_price_ticks = pos 40;
  state = OrderState.new;
  client_order_id = none;
  venue_order_id = none;
  filled_qty = pos 0;
  canceled_qty = pos 0;
  avg_fill_price_ticks = none;
  last_fill_price_ticks = none;
  rejection_reason = none;
  timeout_count = pos 0;
  submit_ts_ns = none;
  ack_ts_ns = none;
  done_ts_ns = none;
  is_unwind_leg = false;
}

abbrev two_legs : List LegExecution
two_legs = planned_leg "a" Side.buy ∷ planned_leg "b" Side.sell ∷ []

abbrev start : PackageExecution
start = created "p" "o" (pos 1) two_legs

abbrev submit : String → StateMachineEvent
submit i = StateMachineEvent.order_intent (record {
  package_id = "p";
  leg_id = i;
  client_order_id = i;
  qty = pos 10;
  limit_price_ticks = pos 40;
  tif = TimeInForce.ioc;
  ts_ns = pos 2;
  side = none;
  market_id = none;
  is_unwind = false;
})

abbrev fill_of : String → ℤ → VenueFillEvent
fill_of i total = record {
  package_id = "p";
  leg_id = i;
  client_order_id = i;
  fill_qty = pos 5;
  fill_price_ticks = pos 41;
  ts_ns = pos 3;
  cumulative_qty = some total;
}

abbrev fill : String → ℤ → StateMachineEvent
fill i total = StateMachineEvent.venue_fill (fill_of i total)

abbrev plain : PackageEvent
plain = record { package_id = "p"; reason = "stop"; ts_ns = pos 4 }

abbrev unwind : StateMachineEvent
unwind = StateMachineEvent.unwind_required plain

abbrev cancel_b : StateMachineEvent
cancel_b = StateMachineEvent.venue_cancel (record {
  package_id = "p";
  leg_id = "b";
  client_order_id = "b";
  canceled_qty = pos 10;
  reason = "x";
  ts_ns = pos 5;
})

abbrev both_filled : List StateMachineEvent
both_filled = submit "a" ∷ submit "b" ∷ fill "a" (pos 10) ∷ fill "b" (pos 10) ∷ []

abbrev done_package : PackageExecution
unfolding run
done_package = returned start (run start both_filled)

run-both_filled : done_package.state ≡ PackageState.completed
unfolding run
run-both_filled = refl

start-is_created : create_package_execution "p" "o" (pos 1) two_legs ≡ ok start
unfolding run
start-is_created = refl

done-IsReachable : IsReachable done_package
unfolding run
done-IsReachable = record {
  start = start;
  package_id = "p";
  opportunity_id = "o";
  ts_ns = pos 1;
  legs = two_legs;
  events = both_filled;
  unfilled = (refl, (refl, tt));
  creation = refl;
  run = refl;
}

-- both legs submitted, the first one filled
abbrev half_done : PackageExecution
unfolding run
half_done = returned start (run start (submit "a" ∷ submit "b" ∷ fill "a" (pos 10) ∷ []))

-- the same while the package unwinds
abbrev half_unwinding : PackageExecution
unfolding run
half_unwinding = returned half_done (run half_done (unwind ∷ []))

-- leg b canceled before any fill
abbrev canceled_b : PackageExecution
unfolding run
canceled_b = returned half_done (run half_done (cancel_b ∷ []))

-- The fill that would complete an unwinding package raises, and its quantity is not booked.
completing_fill_raises :
    apply_event half_unwinding (fill "b" (pos 10))
    ≡ err
        (state_transition (package_transition PackageState.unwind_required PackageState.completed))
unfolding run
completing_fill_raises = refl

-- f"...{leg.state}" in the message of a late fill
late_fill_message :
    Option.map
      (λ r. r.message)
      (returned canceled_b (apply_event canceled_b (fill "b" (pos 4)))).failure_reason
    ≡ some "late fill on terminal leg b in state=OrderState.CANCELED"
unfolding run
late_fill_message = refl

apply_event-Moves_example :
    Moves half_done.state half_unwinding.state × SameIdentity half_done half_unwinding
unfolding run
apply_event-Moves_example = apply_event-Moves half_done half_unwinding unwind refl

abbrev leg_b_of : PackageExecution → LegExecution
leg_b_of p = elim p.legs [
  | a ∷ rest ↦ elim rest [ b ∷ _ ↦ b | [] ↦ a ]
  | [] ↦ planned_leg "b" Side.sell
]

apply_event-leg_example : LegAfter canceled_b "b" (leg_b_of half_done)
unfolding run
apply_event-leg_example =
    apply_event-leg half_done canceled_b cancel_b "b" (leg_b_of half_done) refl refl

abbrev halt : StateMachineEvent
halt = StateMachineEvent.emergency_halt plain

abbrev halted_package : PackageExecution
unfolding run
halted_package = returned half_done (run half_done (halt ∷ []))

-- a second halt, for another reason
abbrev halted_again : PackageExecution
unfolding run
halted_again =
    returned halted_package (
      run halted_package
        (StateMachineEvent.emergency_halt (record plain { reason = "again" }) ∷ []))

terminal_absorbs_example : halted_again.state ≡ halted_package.state
unfolding run
terminal_absorbs_example =
    terminal_absorbs halted_package halted_again
      (StateMachineEvent.emergency_halt (record plain { reason = "again" }) ∷ []) refl refl

emergency_halt-total_example :
    (p' : PackageExecution) × (apply_event half_done (StateMachineEvent.emergency_halt plain)
      ≡ ok p')
    × (p'.state ≡ PackageState.halted)
    × (p'.legs ≡ map (frozen (pos 4)) half_done.legs)
unfolding run
emergency_halt-total_example = emergency_halt-total half_done plain refl (inl refl)

closed-refuses_example :
    (x : Error) × (apply_event done_package (StateMachineEvent.emergency_halt plain) ≡ err x)
unfolding run
closed-refuses_example =
    closed-refuses done_package (StateMachineEvent.emergency_halt plain) refl (λ e. cc)

create_package_execution_iff_example :
    (create_package_execution "p" "o" (pos 1) two_legs ≡ ok (created "p" "o" (pos 1) two_legs))
    ↔ IsCreatable "p" "o" two_legs
create_package_execution_iff_example = create_package_execution_iff "p" "o" (pos 1) two_legs

reachable-invariant_example : IsSound done_package × IsSettled done_package
reachable-invariant_example = reachable-invariant done_package done-IsReachable

completed_in_full_example : All IsFilledInFull (intended_legs done_package)
unfolding run
completed_in_full_example = completed_in_full done_package done-IsReachable refl

fill_books_example :
    (l : LegExecution) × (leg_by_id half_done "b" ≡ ok l)
    × HasBooked l (new_cumulative l (fill_of "b" (pos 10))) done_package
unfolding run
fill_books_example = fill_books half_done done_package (fill_of "b" (pos 10)) refl

abbrev partly_filled : PackageExecution
unfolding run
partly_filled = returned half_done (run half_done (fill "b" (pos 4) ∷ []))

fill_redelivered_example : apply_event partly_filled (fill "b" (pos 4)) ≡ ok partly_filled
unfolding run
fill_redelivered_example =
    fill_redelivered half_done partly_filled (fill_of "b" (pos 4)) (pos 4) refl refl refl

abbrev late_filled : PackageExecution
unfolding run
late_filled = returned canceled_b (run canceled_b (fill "b" (pos 4) ∷ []))

late_fill-Unwinds_example : is_unwind_state late_filled.state ≡ true
unfolding run
late_fill-Unwinds_example =
    late_fill-Unwinds canceled_b late_filled (fill_of "b" (pos 4)) (leg_b_of canceled_b) refl refl
      (λ e. cc) refl

abbrev unwinding_partly : PackageExecution
unfolding run
unwinding_partly = returned half_unwinding (run half_unwinding (fill "b" (pos 4) ∷ []))

completing_fill-refused_example :
    (new_cumulative (leg_b_of half_unwinding) (fill_of "b" (pos 4)) ≡ pos 0)
    ⊎ (all is_filled (intended_legs unwinding_partly) ≡ false)
unfolding run
completing_fill-refused_example =
    completing_fill-refused half_unwinding unwinding_partly (fill_of "b" (pos 4))
      (leg_b_of half_unwinding) refl refl refl refl
