-- ===== src/StateMachine/FillSteps.antt =====
-- `_on_fill`, `_on_order_intent` and `_on_emergency_halt` of executor/state_machine.py are
-- evolutions of the package.
use polymarket_trade_executo.Common.{
  String, ◌≡◌, refl, ap, inl, inr, ◌≢◌, Bool, true, false, not, ◌&&◌, Option, none, some, List, [],
  ◌∷◌, arith, ok, Ensures, Ensures-ok, Ensures-err, Ensures-bind, Ensures-if, raise_if, ◌==◌,
  string_eq, option_eq, ◌>>=◌, Result-cases,
}
use polymarket_trade_executo.Common.Int.{ℤ, pos, leb_ℤ, ltb_ℤ, int_eq, ◌-ℤ◌}
use polymarket_trade_executo.StateMachine.Types.{
  OrderState, PackageState, Error, LegExecution, PackageExecution, Side, order_state_eq,
  package_state_eq,
}
use polymarket_trade_executo.StateMachine.Events.{OrderIntent, VenueFillEvent, PackageEvent}
use polymarket_trade_executo.StateMachine.Tables.{is_live_order, is_terminal_order}
use polymarket_trade_executo.StateMachine.Package.{
  leg_by_id, assert_order_transition, assert_client_order_match, replace_leg, set_failure_reason,
  recompute_package_state, append_leg, is_unwind_state,
}
use polymarket_trade_executo.StateMachine.Handlers.{
  start_unwinding, add_unwind_leg, unknown_leg_intent, resubmitted, known_leg_intent,
  on_order_intent, booked, average_price, book_late_fill, late_fill_reason, fill_target, book_fill,
  is_closed_unfilled, new_cumulative, fill_by_state, on_fill, halt_legs, on_emergency_halt,
}
use polymarket_trade_executo.StateMachine.Evolves.{
  Evolves, Evolves-refl, Evolves-Progress, IsFreshLeg,
}
use polymarket_trade_executo.StateMachine.Effects.{
  assert_order_transition-ok, move_package_state-Progress, set_failure_reason-Progress,
  recompute-Progress, start_unwinding-Progress, replace_leg-Evolves, append_leg-Evolves, Replaced,
  Replaced-there, with_legs-Evolves,
}
use polymarket_trade_executo.StateMachine.LegSteps.{
  synthetic-IsFreshLeg, resubmitted-LegEvolves, IsBookable, booked-LegEvolves, filled-LegEvolves,
}
use polymarket_trade_executo.StateMachine.Steps.{
  leg_by_id_self, continue, checked, replace_and_recompute-Evolves,
}

-- `_move_package_state` to UNWINDING where it applies, then `_recompute_package_state`
unwind_recompute-Evolves :
    (p q : PackageExecution) (c : Bool) (ts : ℤ)
    → Evolves p q
    → Ensures (Evolves p) (start_unwinding c q ts >>= λ r. recompute_package_state r ts)
unwind_recompute-Evolves p q c ts ev = Ensures-bind (start_unwinding c q ts) _ λ r started.
    continue p r _ (Evolves-Progress p q r ev ((start_unwinding-Progress c q ts).at r started))
      (recompute-Progress r ts)

add_unwind_leg-Evolves :
    (p : PackageExecution) (e : OrderIntent) (l : LegExecution)
    → IsFreshLeg l
    → Ensures (Evolves p) (add_unwind_leg p e l)
unfolding add_unwind_leg
add_unwind_leg-Evolves p e l fresh = Ensures-bind (append_leg p l e.ts_ns) _ λ q added.
    unwind_recompute-Evolves p q true e.ts_ns ((append_leg-Evolves p l e.ts_ns fresh).at q added)

unknown_leg_intent-Evolves :
    (p : PackageExecution) (e : OrderIntent) (side : Option Side) (market : Option String)
    → leb_ℤ e.qty (pos 0) ≡ false
    → Ensures (Evolves p) (unknown_leg_intent p e side market)
unfolding unknown_leg_intent
unknown_leg_intent-Evolves p e none market h = Ensures-err _
unknown_leg_intent-Evolves p e (some side) none h = Ensures-err _
unknown_leg_intent-Evolves p e (some side) (some market_id) h =
    add_unwind_leg-Evolves p e _ (synthetic-IsFreshLeg e side market_id h)

pub guard-false : (c : Bool) (x : Error) → raise_if c x ≡ ok tt → c ≡ false
guard-false c x h = ground arith

known_leg_intent-Evolves :
    (p : PackageExecution) (e : OrderIntent) (l : LegExecution)
    → leb_ℤ e.qty (pos 0) ≡ false
    → leg_by_id p e.leg_id ≡ ok l
    → Ensures (Evolves p) (known_leg_intent p e l)
unfolding known_leg_intent
known_leg_intent-Evolves p e l h found =
    Ensures-if (l.client_order_id == some e.client_order_id && is_live_order l.state) _ _
      (λ again. Ensures-ok p (Evolves-refl p))
      λ first.
        Ensures-bind (raise_if (not l.is_unwind_leg && not (e.qty == l.intended_qty)) _) _
          λ _ matches.
            Ensures-bind (assert_order_transition l.state OrderState.pending_ack l.leg_id) _ λ _ a.
              Ensures-bind (replace_leg p (resubmitted l e) e.ts_ns) _ λ q back.
                unwind_recompute-Evolves p q _ e.ts_ns (
                  (replace_leg-Evolves p l _ e.ts_ns (leg_by_id_self p e.leg_id l found) (
                      resubmitted-LegEvolves l e h (guard-false _ _ matches)
                        (assert_order_transition-ok l.state _ l.leg_id a))).at
                    q back)

pub on_order_intent-Evolves :
    (p : PackageExecution) (e : OrderIntent) → Ensures (Evolves p) (on_order_intent p e)
unfolding on_order_intent
on_order_intent-Evolves p e = Ensures-bind (raise_if (leb_ℤ e.qty (pos 0)) _) _ λ _ q.
    Ensures-bind (raise_if (leb_ℤ e.limit_price_ticks (pos 0)) _) _ λ _ price.
      elim (Result-cases (leg_by_id p e.leg_id)) [
        | inl (l, found) ↦ rw found (known_leg_intent-Evolves p e l (guard-false _ _ q) found)
        | inr (x, missing) ↦ rw missing (
            Ensures-if e.is_unwind _ _
              (λ c. unknown_leg_intent-Evolves p e e.side e.market_id (guard-false _ _ q))
              λ c. Ensures-err x)
      ]

closed-not_filled : (s : OrderState) → is_closed_unfilled s ≡ true → s ≢ OrderState.filled
unfolding is_closed_unfilled
closed-not_filled s h e = ground arith

closed-not_new : (s : OrderState) → is_closed_unfilled s ≡ true → s ≢ OrderState.new
unfolding is_closed_unfilled
closed-not_new s h e = ground arith

book_late_fill-Evolves :
    (p : PackageExecution) (e : VenueFillEvent) (l : LegExecution) (c : ℤ)
    → leg_by_id p l.leg_id ≡ ok l
    → IsBookable l c
    → is_closed_unfilled l.state ≡ true
    → Ensures (Evolves p) (book_late_fill p e l c)
unfolding book_late_fill
book_late_fill-Evolves p e l c found b closed =
    Ensures-bind (average_price l e.fill_price_ticks c) _ λ average _.
      Ensures-bind (replace_leg p (booked l e.fill_price_ticks c average) e.ts_ns) _ λ q back.
        let r = set_failure_reason q (late_fill_reason l e) e.ts_ns in
        let booking =
          (replace_leg-Evolves p l (booked l e.fill_price_ticks c average) e.ts_ns found (
              booked-LegEvolves l e.fill_price_ticks c average b (closed-not_filled l.state closed)
                (closed-not_new l.state closed))).at
            q back in
        let marking = Evolves-Progress p q r booking (set_failure_reason-Progress q _ e.ts_ns) in
        Ensures-if (is_unwind_state r.state) _ _ (λ _. Ensures-ok r marking)
          λ _. continue p r _ marking (move_package_state-Progress r _ e.ts_ns)

book_fill-Evolves :
    (p : PackageExecution) (e : VenueFillEvent) (l : LegExecution) (c : ℤ)
    → leg_by_id p l.leg_id ≡ ok l
    → IsBookable l c
    → Ensures (Evolves p) (book_fill p e l c)
unfolding book_fill
book_fill-Evolves p e l c found b =
    Ensures-bind (assert_order_transition l.state (fill_target l c) l.leg_id) _ λ _ a.
      Ensures-bind (average_price l e.fill_price_ticks c) _ λ average _.
        replace_and_recompute-Evolves p l _ e.ts_ns found (
          filled-LegEvolves l e.fill_price_ticks c average _ b
            (assert_order_transition-ok l.state _ l.leg_id a))

fill_by_state-Evolves :
    (p : PackageExecution) (e : VenueFillEvent) (l : LegExecution) (c : ℤ)
    → leg_by_id p l.leg_id ≡ ok l
    → IsBookable l c
    → Ensures (Evolves p) (fill_by_state p e l c)
unfolding fill_by_state
fill_by_state-Evolves p e l c found b =
    Ensures-if (is_closed_unfilled l.state) _ _
      (λ closed. book_late_fill-Evolves p e l c found b closed)
      λ _.
        Ensures-if (l.state == OrderState.halted) _ _ (λ _. Ensures-err _)
          λ _.
            Ensures-if (l.state == OrderState.new) _ _ (λ _. Ensures-err _)
              λ _. book_fill-Evolves p e l c found b

guarded-IsBookable :
    (l : LegExecution) (c : ℤ)
    → ltb_ℤ c l.filled_qty ≡ false
    → (not l.is_unwind_leg && ltb_ℤ l.intended_qty c) ≡ false
    → IsBookable l c
guarded-IsBookable l c h k = record { grows = ground arith; within = ground arith }

pub on_fill-Evolves :
    (p : PackageExecution) (e : VenueFillEvent) → Ensures (Evolves p) (on_fill p e)
unfolding on_fill
on_fill-Evolves p e = Ensures-bind (leg_by_id p e.leg_id) _ λ l found.
    Ensures-bind (assert_client_order_match l e.client_order_id) _ λ _ matched.
      Ensures-bind (raise_if (leb_ℤ e.fill_qty (pos 0)) _) _ λ _ _.
        Ensures-bind (raise_if (leb_ℤ e.fill_price_ticks (pos 0)) _) _ λ _ _.
          let c = new_cumulative l e in
          Ensures-bind (raise_if (ltb_ℤ c l.filled_qty) _) _ λ _ grows.
            Ensures-bind (raise_if (not l.is_unwind_leg && ltb_ℤ l.intended_qty c) _) _ λ _ within.
              Ensures-if (c -ℤ l.filled_qty == pos 0) _ _ (λ _. Ensures-ok p (Evolves-refl p))
                λ _.
                  fill_by_state-Evolves p e l c (leg_by_id_self p e.leg_id l found)
                    (guarded-IsBookable l c (guard-false _ _ grows) (guard-false _ _ within))

pub halt_legs-Replaced : (ts : ℤ) (ls : List LegExecution) → Ensures (Replaced ls) (halt_legs ts ls)
unfolding halt_legs
halt_legs-Replaced ts [] = Ensures-ok [] (tt, refl)
halt_legs-Replaced ts (l ∷ ls) =
    Ensures-if (is_terminal_order l.state) _ _
      (λ _. Ensures-bind (halt_legs ts ls) _ λ ls' e.
        Ensures-ok (l ∷ ls') (Replaced-there l ls ls' ((halt_legs-Replaced ts ls).at ls' e)))
      λ _. Ensures-bind (assert_order_transition l.state OrderState.halted l.leg_id) _ λ _ a.
        Ensures-bind (halt_legs ts ls) _ λ ls' e.
          let (rest, ids) = (halt_legs-Replaced ts ls).at ls' e in
          Ensures-ok _
            ((checked l _ (ground arith) (λ x. cc) (λ x. cc) a, rest), ap (λ is. l.leg_id ∷ is) ids)

pub on_emergency_halt-Evolves :
    (p : PackageExecution) (e : PackageEvent) → Ensures (Evolves p) (on_emergency_halt p e)
unfolding on_emergency_halt
on_emergency_halt-Evolves p e = Ensures-bind (halt_legs e.ts_ns p.legs) _ λ ls halted.
    let q = record p { legs = ls; updated_ts_ns = e.ts_ns } in
    let r = set_failure_reason q _ e.ts_ns in
    let marking =
      Evolves-Progress p q r
        (with_legs-Evolves p e.ts_ns ls ((halt_legs-Replaced e.ts_ns p.legs).at ls halted))
        (set_failure_reason-Progress q _ e.ts_ns) in
    Ensures-if (r.state == PackageState.halted) _ _ (λ _. Ensures-ok r marking)
      λ _. continue p r _ marking (move_package_state-Progress r _ e.ts_ns)
