-- ===== src/StateMachine/Steps.antt =====
-- Every handler of executor/state_machine.py is an evolution of the package.
use polymarket_trade_executo.Common.{
  String, ◌≡◌, refl, sym, subst, ◌≢◌, Bool, ◌||◌, arith, ok, Ensures, Ensures-ok, Ensures-bind,
  Ensures-if, Ensures-weaken, ensures_rules, raise_if, ◌==◌, string_eq, option_eq, ◌>>=◌,
}
use polymarket_trade_executo.Common.Int.{ℤ, pos, ltb_ℤ, int_eq}
use polymarket_trade_executo.StateMachine.Types.{
  OrderState, PackageState, LegExecution, PackageExecution, PackageFailureReason, order_state_eq,
  package_state_eq,
}
use polymarket_trade_executo.StateMachine.Events.{
  VenueOrderAck, VenueCancelEvent, VenueRejectEvent, LegEvent, PackageEvent,
}
use polymarket_trade_executo.StateMachine.Package.{
  Raises, leg_by_id, find_leg, assert_order_transition, assert_client_order_match, replace_leg,
  move_package_state, set_failure_reason, recompute_package_state,
}
use polymarket_trade_executo.StateMachine.Handlers.{
  replace_and_recompute, ack_is_late, on_order_ack, is_closed_unfilled, on_reject,
  on_cancel_requested, on_cancel_confirmed, timeout_is_late, on_timeout, on_unwind_required,
  on_unwound, on_abort,
}
use polymarket_trade_executo.StateMachine.Evolves.{
  LegEvolves, Progress, Evolves, Evolves-refl, Evolves-Progress, Progress-Evolves,
}
use polymarket_trade_executo.StateMachine.Effects.{
  assert_order_transition-ok, move_package_state-Progress, set_failure_reason-Progress,
  recompute-Progress, leg_id-find_leg, replace_leg-Evolves,
}
use polymarket_trade_executo.StateMachine.LegSteps.{
  SameBooks, restated-LegEvolves, annotated-LegEvolves,
}

-- A leg that a lookup found is found by its own id.
pub leg_by_id_self :
    (p : PackageExecution) (i : String) (l : LegExecution)
    → leg_by_id p i ≡ ok l
    → leg_by_id p l.leg_id ≡ ok l
unfolding leg_by_id
leg_by_id_self p i l found =
    subst (λ j. find_leg j p.legs ≡ ok l) (sym (leg_id-find_leg i p.legs l found)) found

-- What follows an evolution and leaves the legs alone continues it.
pub continue :
    (p q : PackageExecution) (r : Raises PackageExecution)
    → Evolves p q
    → Ensures (Progress q) r
    → Ensures (Evolves p) r
continue p q r ev h = Ensures-weaken r (λ s pr. Evolves-Progress p q s ev pr) h

pub replace_and_recompute-Evolves :
    (p : PackageExecution) (l u : LegExecution) (ts : ℤ)
    → leg_by_id p u.leg_id ≡ ok l
    → LegEvolves l u
    → Ensures (Evolves p) (replace_and_recompute p u ts)
unfolding replace_and_recompute
replace_and_recompute-Evolves p l u ts found ev = Ensures-bind (replace_leg p u ts) _ λ q back.
    continue p q _ ((replace_leg-Evolves p l u ts found ev).at q back) (recompute-Progress q ts)

-- `_replace_leg`, `_set_failure_reason` and `_recompute_package_state`, as on a failed leg
replace_mark_recompute-Evolves :
    (p : PackageExecution) (l u : LegExecution) (r : PackageFailureReason) (ts : ℤ)
    → leg_by_id p u.leg_id ≡ ok l
    → LegEvolves l u
    → Ensures
        (Evolves p)
        (replace_leg p u ts >>= λ q. recompute_package_state (set_failure_reason q r ts) ts)
replace_mark_recompute-Evolves p l u r ts found ev = Ensures-bind (replace_leg p u ts) _ λ q back.
    continue p (set_failure_reason q r ts) _
      (Evolves-Progress p q _ ((replace_leg-Evolves p l u ts found ev).at q back)
        (set_failure_reason-Progress q r ts))
      (recompute-Progress (set_failure_reason q r ts) ts)

-- A checked move of a leg to a state other than NEW and FILLED, with its books untouched.
pub checked :
    (l u : LegExecution)
    → SameBooks l u
    → u.state ≢ OrderState.filled
    → u.state ≢ OrderState.new
    → assert_order_transition l.state u.state l.leg_id ≡ ok tt
    → LegEvolves l u
checked l u b not_filled not_new asserted =
    restated-LegEvolves l u b (assert_order_transition-ok l.state u.state l.leg_id asserted)
      not_filled not_new

pub on_order_ack-Evolves :
    (p : PackageExecution) (e : VenueOrderAck) → Ensures (Evolves p) (on_order_ack p e)
unfolding on_order_ack
on_order_ack-Evolves p e = Ensures-bind (leg_by_id p e.leg_id) _ λ l found.
    Ensures-bind (assert_client_order_match l e.client_order_id) _ λ _ matched.
      Ensures-if (ack_is_late l.state) _ _
        (λ late.
          replace_and_recompute-Evolves p l _ e.ts_ns (leg_by_id_self p e.leg_id l found)
            (annotated-LegEvolves l _ (ground arith) refl))
        λ early. Ensures-bind (assert_order_transition l.state OrderState.working l.leg_id) _ λ _ a.
          replace_and_recompute-Evolves p l _ e.ts_ns (leg_by_id_self p e.leg_id l found)
            (checked l _ (ground arith) (λ x. cc) (λ x. cc) a)

pub on_reject-Evolves :
    (p : PackageExecution) (e : VenueRejectEvent) → Ensures (Evolves p) (on_reject p e)
unfolding on_reject
on_reject-Evolves p e = Ensures-bind (leg_by_id p e.leg_id) _ λ l found.
    Ensures-bind (assert_client_order_match l e.client_order_id) _ λ _ matched.
      Ensures-if (l.state == OrderState.rejected) _ _ (λ again. Ensures-ok p (Evolves-refl p))
        λ first.
          Ensures-bind (assert_order_transition l.state OrderState.rejected l.leg_id) _ λ _ a.
            replace_mark_recompute-Evolves p l _ _ e.ts_ns (leg_by_id_self p e.leg_id l found)
              (checked l _ (ground arith) (λ x. cc) (λ x. cc) a)

pub on_timeout-Evolves :
    (p : PackageExecution) (e : LegEvent) → Ensures (Evolves p) (on_timeout p e)
unfolding on_timeout
on_timeout-Evolves p e = Ensures-bind (leg_by_id p e.leg_id) _ λ l found.
    Ensures-if (timeout_is_late l.state) _ _ (λ late. Ensures-ok p (Evolves-refl p))
      λ early. Ensures-bind (assert_order_transition l.state OrderState.timed_out l.leg_id) _ λ _ a.
        replace_mark_recompute-Evolves p l _ _ e.ts_ns (leg_by_id_self p e.leg_id l found)
          (checked l _ (ground arith) (λ x. cc) (λ x. cc) a)

abbrev not_cancelable : OrderState → Bool
not_cancelable s = s == OrderState.filled || (s == OrderState.halted || s == OrderState.new)

pub on_cancel_requested-Evolves :
    (p : PackageExecution) (e : LegEvent) → Ensures (Evolves p) (on_cancel_requested p e)
unfolding on_cancel_requested
on_cancel_requested-Evolves p e = Ensures-bind (leg_by_id p e.leg_id) _ λ l found.
    Ensures-if (l.state == OrderState.cancel_requested || is_closed_unfilled l.state) _ _
      (λ again. Ensures-ok p (Evolves-refl p))
      λ first. Ensures-bind (raise_if (not_cancelable l.state) _) _ λ _ open_leg.
        Ensures-bind (assert_order_transition l.state OrderState.cancel_requested l.leg_id) _ λ _ a.
          replace_and_recompute-Evolves p l _ e.ts_ns (leg_by_id_self p e.leg_id l found)
            (checked l _ (ground arith) (λ x. cc) (λ x. cc) a)

pub on_cancel_confirmed-Evolves :
    (p : PackageExecution) (e : VenueCancelEvent) → Ensures (Evolves p) (on_cancel_confirmed p e)
unfolding on_cancel_confirmed
on_cancel_confirmed-Evolves p e = Ensures-bind (leg_by_id p e.leg_id) _ λ l found.
    Ensures-bind (assert_client_order_match l e.client_order_id) _ λ _ matched.
      Ensures-bind (raise_if (ltb_ℤ e.canceled_qty (pos 0)) _) _ λ _ valid.
        Ensures-if (l.state == OrderState.canceled) _ _ (λ again. Ensures-ok p (Evolves-refl p))
          λ first.
            Ensures-bind (assert_order_transition l.state OrderState.canceled l.leg_id) _ λ _ a.
              replace_and_recompute-Evolves p l _ e.ts_ns (leg_by_id_self p e.leg_id l found)
                (checked l _ (ground arith) (λ x. cc) (λ x. cc) a)

marked_move-Evolves :
    (p : PackageExecution) (r : PackageFailureReason) (t : PackageState) (ts : ℤ)
    → Ensures (Evolves p) (move_package_state (set_failure_reason p r ts) t ts)
marked_move-Evolves p r t ts =
    let q = set_failure_reason p r ts in
    continue p q _ (Progress-Evolves p q (set_failure_reason-Progress p r ts))
      (move_package_state-Progress q t ts)

marked-Evolves :
    (p : PackageExecution) (r : PackageFailureReason) (ts : ℤ)
    → Evolves p (set_failure_reason p r ts)
marked-Evolves p r ts = Progress-Evolves p _ (set_failure_reason-Progress p r ts)

pub on_unwind_required-Evolves :
    (p : PackageExecution) (e : PackageEvent) → Ensures (Evolves p) (on_unwind_required p e)
unfolding on_unwind_required
on_unwind_required-Evolves p e = search (ensures_rules, Evolves-refl, marked_move-Evolves)

pub on_unwound-Evolves :
    (p : PackageExecution) (e : PackageEvent) → Ensures (Evolves p) (on_unwound p e)
unfolding on_unwound
on_unwound-Evolves p e = search (ensures_rules, marked_move-Evolves)

pub on_abort-Evolves :
    (p : PackageExecution) (e : PackageEvent) → Ensures (Evolves p) (on_abort p e)
unfolding on_abort
on_abort-Evolves p e = search (ensures_rules, marked-Evolves, marked_move-Evolves)
