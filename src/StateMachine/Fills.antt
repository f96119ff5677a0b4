-- ===== src/StateMachine/Fills.antt =====
-- What a venue fill does (`_on_fill` of executor/state_machine.py): the books, late fills,
-- redelivery, and fills while a package unwinds.
use polymarket_trade_executo.Common.{
  String, ◌≡◌, refl, sym, ap, subst, ◌∙◌, inl, inr, true, false, not, ◌&&◌, List, [], ◌∷◌, arith,
  ok, Ensures, some, Ensures-ok, Ensures-err, Ensures-if, Ensures-bind, ◌==◌, Bool-cases, string_eq,
  option_eq, if◌then◌else◌, raise_if, eq_iff,
}
use polymarket_trade_executo.Common.Int.{
  ℤ, pos, leb_ℤ, ltb_ℤ, int_eq, int_laws, ◌-ℤ◌, eqb_ℤ_iff, pos_part, neg_part,
}
use polymarket_trade_executo.StateMachine.Types.{
  OrderState, PackageState, LegExecution, PackageExecution, package_state_eq, order_state_eq,
}
use polymarket_trade_executo.StateMachine.Events.{
  VenueFillEvent, StateMachineEvent, event_package_id,
}
use polymarket_trade_executo.StateMachine.Tables.{is_terminal_package}
use polymarket_trade_executo.StateMachine.Package.{
  Raises, has_id, find_leg, leg_by_id, assert_order_transition, assert_client_order_match,
  replace_in, replace_leg, set_failure_reason, is_unwind_state, validate_package_match,
}
use polymarket_trade_executo.StateMachine.Handlers.{
  booked, average_price, book_late_fill, late_fill_reason, fill_target, book_fill,
  is_closed_unfilled, new_cumulative, fill_by_state, on_fill,
}
use polymarket_trade_executo.StateMachine.Reducer.{dispatch, apply_event}
use polymarket_trade_executo.StateMachine.Transitions.{apply_event-Moves}
use polymarket_trade_executo.StateMachine.Steps.{leg_by_id_self}
use polymarket_trade_executo.StateMachine.FillSteps.{guard-false}
use polymarket_trade_executo.StateMachine.Evolves.{Progress, Progress-trans}
use polymarket_trade_executo.StateMachine.Effects.{
  recompute-Progress, set_failure_reason-Progress, move_package_state-Progress, leg_id-find_leg,
}

-- What was put in place is found.
find_leg-replace_in :
    (u : LegExecution) (ls : List LegExecution)
    → Ensures (λ ls'. find_leg u.leg_id ls' ≡ ok u) (replace_in u ls)
unfolding replace_in find_leg
find_leg-replace_in u [] = Ensures-err _
find_leg-replace_in u (l ∷ ls) = elim (Bool-cases (has_id u.leg_id l)) [
  | inl here ↦ rw here (Ensures-ok _ (rw ((eq_iff u.leg_id u.leg_id).1 refl)))
  | inr there ↦ rw there (
      Ensures-bind (replace_in u ls) _
        λ ls' e. Ensures-ok _ (rw there ((find_leg-replace_in u ls).at ls' e)))
]

leg_by_id-replace_leg :
    (p : PackageExecution) (u : LegExecution) (ts : ℤ)
    → Ensures (λ q. leg_by_id q u.leg_id ≡ ok u) (replace_leg p u ts)
unfolding replace_leg leg_by_id
leg_by_id-replace_leg p u ts =
    Ensures-bind (replace_in u p.legs) _
      λ ls e. Ensures-ok _ ((find_leg-replace_in u p.legs).at ls e)

leg_by_id-Progress :
    (p q : PackageExecution) (i : String) → Progress p q → leg_by_id q i ≡ leg_by_id p i
unfolding leg_by_id
leg_by_id-Progress p q i pr = rw pr.same_legs

-- The leg `l` with `cumulative` booked, as a later event finds it.
pub record HasBooked (l : LegExecution) (cumulative : ℤ) (q : PackageExecution) : Type 0 where
  pub after : LegExecution
  pub found : leg_by_id q l.leg_id ≡ ok after
  pub booked_qty : after.filled_qty ≡ cumulative
  pub same_client_order_id : after.client_order_id ≡ l.client_order_id
  pub same_intended : after.intended_qty ≡ l.intended_qty
  pub same_unwind : after.is_unwind_leg ≡ l.is_unwind_leg

-- `u` is `l` with the quantity booked
record IsBooking (l : LegExecution) (cumulative : ℤ) (u : LegExecution) : Type 0 where
  same_id : u.leg_id ≡ l.leg_id
  booked_qty : u.filled_qty ≡ cumulative
  same_client_order_id : u.client_order_id ≡ l.client_order_id
  same_intended : u.intended_qty ≡ l.intended_qty
  same_unwind : u.is_unwind_leg ≡ l.is_unwind_leg

replaced-HasBooked :
    (p q r : PackageExecution) (l u : LegExecution) (c ts : ℤ)
    → IsBooking l c u
    → replace_leg p u ts ≡ ok q
    → Progress q r
    → HasBooked l c r
replaced-HasBooked p q r l u c ts b e pr = record {
  after = u;
  found =
      leg_by_id-Progress q r l.leg_id pr
      ∙ subst (λ i. leg_by_id q i ≡ ok u) b.same_id ((leg_by_id-replace_leg p u ts).at q e);
  booked_qty = b.booked_qty;
  same_client_order_id = b.same_client_order_id;
  same_intended = b.same_intended;
  same_unwind = b.same_unwind;
}

module _ (p : PackageExecution) (e : VenueFillEvent) (l : LegExecution) (c : ℤ) where
  book_late_fill-HasBooked : Ensures (HasBooked l c) (book_late_fill p e l c)
  unfolding book_late_fill
  book_late_fill-HasBooked = Ensures-bind (average_price l e.fill_price_ticks c) _ λ average _.
      Ensures-bind (replace_leg p (booked l e.fill_price_ticks c average) e.ts_ns) _ λ q back.
        let r = set_failure_reason q (late_fill_reason l e) e.ts_ns in
        let marking = set_failure_reason-Progress q (late_fill_reason l e) e.ts_ns in
        Ensures-if (is_unwind_state r.state) _ _
          (λ _. Ensures-ok r (replaced-HasBooked p q r l _ c e.ts_ns (ground arith) back marking))
          λ _. record {
            at = λ s moved. replaced-HasBooked p q s l _ c e.ts_ns (ground arith) back (
                Progress-trans q r s marking (
                  (move_package_state-Progress r PackageState.unwind_required e.ts_ns).at s moved));
          }

  book_fill-HasBooked : Ensures (HasBooked l c) (book_fill p e l c)
  unfolding book_fill
  book_fill-HasBooked =
      Ensures-bind (assert_order_transition l.state (fill_target l c) l.leg_id) _ λ _ _.
        Ensures-bind (average_price l e.fill_price_ticks c) _ λ average _.
          Ensures-bind (replace_leg p _ e.ts_ns) _ λ q back. record {
            at = λ s recomputed.
                replaced-HasBooked p q s l _ c e.ts_ns (ground arith) back
                  ((recompute-Progress q e.ts_ns).at s recomputed);
          }

  fill_by_state-HasBooked : Ensures (HasBooked l c) (fill_by_state p e l c)
  unfolding fill_by_state
  fill_by_state-HasBooked =
      Ensures-if (is_closed_unfilled l.state) _ _ (λ _. book_late_fill-HasBooked)
        λ _.
          Ensures-if (l.state == OrderState.halted) _ _ (λ _. Ensures-err _)
            λ _.
              Ensures-if (l.state == OrderState.new) _ _ (λ _. Ensures-err _)
                λ _. book_fill-HasBooked

-- What the guards of `_on_fill` have let through.
pub record IsAdmissible (l : LegExecution) (e : VenueFillEvent) : Type 0 where
  matches : assert_client_order_match l e.client_order_id ≡ ok tt
  qty_positive : leb_ℤ e.fill_qty (pos 0) ≡ false
  price_positive : leb_ℤ e.fill_price_ticks (pos 0) ≡ false
  grows : ltb_ℤ (new_cumulative l e) l.filled_qty ≡ false
  within : (not l.is_unwind_leg && ltb_ℤ l.intended_qty (new_cumulative l e)) ≡ false

-- what `_on_fill` does once the guards have passed
abbrev pub admitted_fill :
    PackageExecution → VenueFillEvent → LegExecution → Raises PackageExecution
admitted_fill p e l =
    if new_cumulative l e -ℤ l.filled_qty == pos 0
    then ok p
    else fill_by_state p e l (new_cumulative l e)

-- An accepted fill found its leg, passed the guards and was booked.
pub record IsAccepted (p : PackageExecution) (e : VenueFillEvent) (p' : PackageExecution)
    : Type 0 where
  pub leg : LegExecution
  pub found : leg_by_id p e.leg_id ≡ ok leg
  pub admissible : IsAdmissible leg e
  pub done : admitted_fill p e leg ≡ ok p'

on_fill-IsAccepted :
    (p : PackageExecution) (e : VenueFillEvent) → Ensures (IsAccepted p e) (on_fill p e)
unfolding on_fill
on_fill-IsAccepted p e = Ensures-bind (leg_by_id p e.leg_id) _ λ l found.
    Ensures-bind (assert_client_order_match l e.client_order_id) _ λ _ matched.
      Ensures-bind (raise_if (leb_ℤ e.fill_qty (pos 0)) _) _ λ _ qty.
        Ensures-bind (raise_if (leb_ℤ e.fill_price_ticks (pos 0)) _) _ λ _ price.
          Ensures-bind (raise_if (ltb_ℤ (new_cumulative l e) l.filled_qty) _) _ λ _ grows.
            Ensures-bind
              (raise_if (not l.is_unwind_leg && ltb_ℤ l.intended_qty (new_cumulative l e)) _) _
              λ _ within. record {
                at = λ p' h. record {
                  leg = l;
                  found = found;
                  admissible = record {
                    matches = matched;
                    qty_positive = guard-false _ _ qty;
                    price_positive = guard-false _ _ price;
                    grows = guard-false _ _ grows;
                    within = guard-false _ _ within;
                  };
                  done = h;
                };
              }

admitted_fill-HasBooked :
    (p p' : PackageExecution) (e : VenueFillEvent) (l : LegExecution)
    → leg_by_id p l.leg_id ≡ ok l
    → admitted_fill p e l ≡ ok p'
    → HasBooked l (new_cumulative l e) p'
admitted_fill-HasBooked p p' e l found h =
    (Ensures-if (new_cumulative l e -ℤ l.filled_qty == pos 0) (ok p) _
        (λ none_new. Ensures-ok p (record {
          after = l;
          found = found;
          booked_qty = grind (int_laws, eqb_ℤ_iff (new_cumulative l e -ℤ l.filled_qty) (pos 0));
          same_client_order_id = refl;
          same_intended = refl;
          same_unwind = refl;
        }))
        λ _. fill_by_state-HasBooked p e l (new_cumulative l e)).at
      p' h

pub apply_fill-IsAccepted :
    (p : PackageExecution) (e : VenueFillEvent)
    → Ensures (IsAccepted p e) (apply_event p (StateMachineEvent.venue_fill e))
unfolding apply_event dispatch
apply_fill-IsAccepted p e =
    Ensures-bind (validate_package_match p (event_package_id (StateMachineEvent.venue_fill e))) _
      λ _ _.
        Ensures-bind (raise_if (is_terminal_package p.state && true) _) _
          λ _ _. on_fill-IsAccepted p e

-- The event's package id matches before and after.
event-matches-after :
    (p p' : PackageExecution) (e : StateMachineEvent)
    → apply_event p e ≡ ok p'
    → validate_package_match p' (event_package_id e) ≡ ok tt
unfolding apply_event validate_package_match
event-matches-after p p' e h = rw (apply_event-Moves p p' e h).1.same_package_id (ground arith)

-- An accepted fill raises the filled quantity of the leg that it names to the new cumulative
-- quantity, the event's own if it carries one and the sum of the old quantity and the increment if
-- not, and leaves the order id, the intended quantity and the kind of the leg alone.
pub fill_books :
    (p p' : PackageExecution) (e : VenueFillEvent)
    → apply_event p (StateMachineEvent.venue_fill e) ≡ ok p'
    → (l : LegExecution) × (leg_by_id p e.leg_id ≡ ok l) × HasBooked l (new_cumulative l e) p'
unfolding apply_event dispatch
fill_books p p' e h =
    let accepted = (apply_fill-IsAccepted p e).at p' h in
    let l = accepted.leg in
    (
      l,
      accepted.found,
      admitted_fill-HasBooked p p' e l (leg_by_id_self p e.leg_id l accepted.found) accepted.done,
    )

client_match-transfers :
    (l l' : LegExecution) (i : String)
    → l'.client_order_id ≡ l.client_order_id
    → assert_client_order_match l i ≡ ok tt
    → assert_client_order_match l' i ≡ ok tt
unfolding assert_client_order_match
client_match-transfers l l' i same h = ground arith

-- A fill that brings nothing new leaves the package as it is.
on_fill-nothing_new :
    (p : PackageExecution) (e : VenueFillEvent) (l : LegExecution)
    → leg_by_id p e.leg_id ≡ ok l
    → IsAdmissible l e
    → l.filled_qty ≡ new_cumulative l e
    → on_fill p e ≡ ok p
unfolding on_fill
on_fill-nothing_new p e l found a same =
    let zero_increment : (new_cumulative l e -ℤ l.filled_qty == pos 0) ≡ true =
      (eqb_ℤ_iff (new_cumulative l e -ℤ l.filled_qty) (pos 0)).1
        (omega (int_laws, ap pos_part same, ap neg_part same)) in
    rw (found, a.matches, a.qty_positive, a.price_positive, a.grows, a.within, zero_increment)

new_cumulative-total :
    (l : LegExecution) (e : VenueFillEvent) (c : ℤ)
    → e.cumulative_qty ≡ some c
    → new_cumulative l e ≡ c
unfolding new_cumulative
new_cumulative-total l e c total = ground arith

redelivered-IsAdmissible :
    (l : LegExecution) (e : VenueFillEvent) (c : ℤ) (q : PackageExecution)
    → e.cumulative_qty ≡ some c
    → IsAdmissible l e
    → (b : HasBooked l c q) → IsAdmissible b.after e
redelivered-IsAdmissible l e c q total a b = record {
  matches = client_match-transfers l b.after e.client_order_id b.same_client_order_id a.matches;
  qty_positive = a.qty_positive;
  price_positive = a.price_positive;
  grows = rw (new_cumulative-total b.after e c total, b.booked_qty) (ground arith);
  within =
      rw (new_cumulative-total b.after e c total, b.same_unwind, b.same_intended)
        (rw (new_cumulative-total l e c total) at (a.within));
}

-- A fill that carries the cumulative quantity may be delivered again: as long as the package is
-- not terminal, the second delivery is accepted and changes nothing.
pub fill_redelivered :
    (p p' : PackageExecution) (e : VenueFillEvent) (c : ℤ)
    → e.cumulative_qty ≡ some c
    → apply_event p (StateMachineEvent.venue_fill e) ≡ ok p'
    → is_terminal_package p'.state ≡ false
    → apply_event p' (StateMachineEvent.venue_fill e) ≡ ok p'
unfolding apply_event dispatch event_package_id
fill_redelivered p p' e c total h open_ended =
    let accepted = (apply_fill-IsAccepted p e).at p' h in
    let l = accepted.leg in
    let b : HasBooked l c p' =
      subst (λ k. HasBooked l k p') (new_cumulative-total l e c total)
        (admitted_fill-HasBooked p p' e l (leg_by_id_self p e.leg_id l accepted.found)
          accepted.done) in
    rw (
      event-matches-after p p' (StateMachineEvent.venue_fill e) h,
      open_ended,
      on_fill-nothing_new p' e b.after
          (subst (λ i. leg_by_id p' i ≡ ok b.after)
            (leg_id-find_leg e.leg_id p.legs l (unfold leg_by_id in accepted.found)) b.found)
          (redelivered-IsAdmissible l e c p' total accepted.admissible b)
          (b.booked_qty ∙ sym (new_cumulative-total b.after e c total)),
    )
