-- ===== src/StateMachine/LateFills.antt =====
-- Late fills and fills while a package unwinds (`_on_fill` of executor/state_machine.py).
use polymarket_trade_executo.Common.{
  ◌≡◌, ◌≢◌, refl, sym, subst, ◌∙◌, ◌⊎◌, inl, inr, true, false, List, arith, ok, Ensures, Ensures-ok,
  Ensures-err, Ensures-if, Ensures-bind, ◌==◌, Bool-cases, string_eq, option_eq, ok-injective,
}
use polymarket_trade_executo.Common.Int.{ℤ, pos, int_eq, int_laws, ◌-ℤ◌, eqb_ℤ_iff}
use polymarket_trade_executo.Common.Lists.{is_empty, all}
use polymarket_trade_executo.StateMachine.Types.{
  OrderState, PackageState, LegExecution, PackageExecution, package_state_eq, order_state_eq,
}
use polymarket_trade_executo.StateMachine.Events.{VenueFillEvent, StateMachineEvent}
use polymarket_trade_executo.StateMachine.Tables.{
  is_terminal_package, is_live_order, package_allowed,
}
use polymarket_trade_executo.StateMachine.Package.{
  is_filled, intended_legs, leg_by_id, assert_order_transition, replace_leg, move_package_state,
  set_failure_reason, is_unwind_state, recompute_package_state, recompute_from,
}
use polymarket_trade_executo.StateMachine.Handlers.{
  replace_and_recompute, booked, average_price, book_late_fill, late_fill_reason, fill_target,
  book_fill, is_closed_unfilled, new_cumulative, fill_by_state,
}
use polymarket_trade_executo.StateMachine.Reducer.{apply_event}
use polymarket_trade_executo.StateMachine.Fills.{apply_fill-IsAccepted, admitted_fill}
use polymarket_trade_executo.StateMachine.Settled.{
  move_package_state-target, intended_legs-Progress, open-not_halted, replace_leg-state,
}
use polymarket_trade_executo.StateMachine.Effects.{recompute_from-Progress}

increment-not_zero :
    (l : LegExecution) (e : VenueFillEvent)
    → new_cumulative l e ≢ l.filled_qty
    → (new_cumulative l e -ℤ l.filled_qty == pos 0) ≡ false
increment-not_zero l e new =
    grind (int_laws, eqb_ℤ_iff (new_cumulative l e -ℤ l.filled_qty) (pos 0))

abbrev Unwinds : PackageExecution → Type 0
Unwinds q = is_unwind_state q.state ≡ true

move-Unwinds :
    (p : PackageExecution) (ts : ℤ)
    → Ensures Unwinds (move_package_state p PackageState.unwind_required ts)
move-Unwinds p ts = record {
  at = λ q moved. rw (move_package_state-target p q PackageState.unwind_required ts moved) refl;
}

book_late_fill-Unwinds :
    (p : PackageExecution) (e : VenueFillEvent) (l : LegExecution) (c : ℤ)
    → Ensures Unwinds (book_late_fill p e l c)
unfolding book_late_fill
book_late_fill-Unwinds p e l c =
    Ensures-bind {P = Unwinds} (average_price l e.fill_price_ticks c) _ λ average _.
      Ensures-bind {P = Unwinds} (replace_leg p (booked l e.fill_price_ticks c average) e.ts_ns) _
        λ q back.
          let r = set_failure_reason q (late_fill_reason l e) e.ts_ns in
          Ensures-if {P = Unwinds} (is_unwind_state r.state) _ _ (λ u. Ensures-ok {P = Unwinds} r u)
            λ _. move-Unwinds r e.ts_ns

accepted_at :
    (p p' : PackageExecution) (e : VenueFillEvent) (l : LegExecution)
    → leg_by_id p e.leg_id ≡ ok l
    → apply_event p (StateMachineEvent.venue_fill e) ≡ ok p'
    → admitted_fill p e l ≡ ok p'
accepted_at p p' e l found h =
    let accepted = (apply_fill-IsAccepted p e).at p' h in
    subst (λ x. admitted_fill p e x ≡ ok p') (ok-injective (sym accepted.found ∙ found))
      accepted.done

-- A fill on a leg that is CANCELED, REJECTED or TIMED_OUT, if it brings something new and is
-- accepted, puts the package into UNWIND_REQUIRED or leaves it UNWINDING.
pub late_fill-Unwinds :
    (p p' : PackageExecution) (e : VenueFillEvent) (l : LegExecution)
    → leg_by_id p e.leg_id ≡ ok l
    → is_closed_unfilled l.state ≡ true
    → new_cumulative l e ≢ l.filled_qty
    → apply_event p (StateMachineEvent.venue_fill e) ≡ ok p'
    → is_unwind_state p'.state ≡ true
late_fill-Unwinds p p' e l found closed new h =
    let done = accepted_at p p' e l found h in
    (book_late_fill-Unwinds p e l (new_cumulative l e)).at p'
      (unfold fill_by_state in rw (increment-not_zero l e new, closed) at done)

recompute_from-not_filled :
    (p q : PackageExecution) (ls : List LegExecution) (ts : ℤ)
    → is_unwind_state p.state ≡ true
    → recompute_from p ls ts ≡ ok q
    → all is_filled ls ≡ false
unfolding recompute_from move_package_state package_allowed
recompute_from-not_filled p q ls ts u h = ground arith

abbrev NotAllFilled : PackageExecution → Type 0
NotAllFilled q = all is_filled (intended_legs q) ≡ false

recompute_from-NotAllFilled :
    (p : PackageExecution) (ts : ℤ)
    → is_unwind_state p.state ≡ true
    → Ensures NotAllFilled (recompute_from p (intended_legs p) ts)
recompute_from-NotAllFilled p ts u = record {
  at = λ q e.
      rw (intended_legs-Progress p q ((recompute_from-Progress p (intended_legs p) ts).at q e))
        (recompute_from-not_filled p q (intended_legs p) ts u e);
}

unwinding-not_terminal :
    (s : PackageState) → is_unwind_state s ≡ true → is_terminal_package s ≡ false
unfolding is_terminal_package
unwinding-not_terminal s u = ground arith

recompute-NotAllFilled :
    (p : PackageExecution) (ts : ℤ)
    → is_unwind_state p.state ≡ true
    → Ensures NotAllFilled (recompute_package_state p ts)
unfolding recompute_package_state
recompute-NotAllFilled p ts u =
    let running = unwinding-not_terminal p.state u in
    rw (running, open-not_halted p.state running)
      (Ensures-if {P = NotAllFilled} (is_empty (intended_legs p)) _ _ (λ _. Ensures-err _)
        λ _. recompute_from-NotAllFilled p ts u)

book_fill-NotAllFilled :
    (p : PackageExecution) (e : VenueFillEvent) (l : LegExecution) (c : ℤ)
    → is_unwind_state p.state ≡ true
    → Ensures NotAllFilled (book_fill p e l c)
unfolding book_fill replace_and_recompute
book_fill-NotAllFilled p e l c u =
    Ensures-bind {P = NotAllFilled} (assert_order_transition l.state (fill_target l c) l.leg_id) _
      λ _ _. Ensures-bind {P = NotAllFilled} (average_price l e.fill_price_ticks c) _ λ average _.
        Ensures-bind {P = NotAllFilled} (replace_leg p _ e.ts_ns) _ λ q back.
          recompute-NotAllFilled q e.ts_ns (rw ((replace_leg-state p _ e.ts_ns).at q back) u)

live-not_closed :
    (s : OrderState)
    → is_live_order s ≡ true
    → (is_closed_unfilled s ≡ false)
      × ((s == OrderState.halted) ≡ false)
      × ((s == OrderState.new) ≡ false)
unfolding is_live_order is_closed_unfilled
live-not_closed s h = (ground arith, ground arith, ground arith)

-- A package in UNWIND_REQUIRED or UNWINDING cannot take the fill that would complete it: a fill of
-- a live leg is accepted only if it brings nothing new or leaves some intended leg not FILLED.
pub completing_fill-refused :
    (p p' : PackageExecution) (e : VenueFillEvent) (l : LegExecution)
    → is_unwind_state p.state ≡ true
    → leg_by_id p e.leg_id ≡ ok l
    → is_live_order l.state ≡ true
    → apply_event p (StateMachineEvent.venue_fill e) ≡ ok p'
    → (new_cumulative l e ≡ l.filled_qty) ⊎ (all is_filled (intended_legs p') ≡ false)
completing_fill-refused p p' e l u found live h =
    let done = accepted_at p p' e l found h in
    let (not_closed, not_halted, not_new) = live-not_closed l.state live in
    elim (Bool-cases (new_cumulative l e -ℤ l.filled_qty == pos 0)) [
      | inl none_new ↦
          inl (grind (int_laws, eqb_ℤ_iff (new_cumulative l e -ℤ l.filled_qty) (pos 0)))
      | inr some_new ↦ inr (
          (book_fill-NotAllFilled p e l (new_cumulative l e) u).at p'
            (unfold fill_by_state in rw (some_new, not_closed, not_halted, not_new) at done))
    ]
