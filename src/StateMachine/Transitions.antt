-- ===== src/StateMachine/Transitions.antt =====
-- What one event, and a sequence of events, may do to a package (`apply_event` of
-- executor/state_machine.py).
use polymarket_trade_executo.Common.{
  String, ok-injective, ◌≡◌, sym, subst, ◌⊎◌, inl, inr, true, false, List, [], ◌∷◌, ok, Ensures,
  Ensures-bind, string_eq, Bool-cases, >>=-returns, not, ◌&&◌, raise_if,
}
use polymarket_trade_executo.Common.Int.{◌≤ℤ◌}
use polymarket_trade_executo.Common.Lists.{All}
use polymarket_trade_executo.StateMachine.Types.{LegExecution, PackageExecution}
use polymarket_trade_executo.StateMachine.Events.{StateMachineEvent, event_package_id}
use polymarket_trade_executo.StateMachine.Tables.{order_allowed, is_terminal_package}
use polymarket_trade_executo.StateMachine.Package.{
  has_id, find_leg, leg_by_id, validate_package_match,
}
use polymarket_trade_executo.StateMachine.Reducer.{dispatch, is_halt, apply_event, apply_events}
use polymarket_trade_executo.StateMachine.Evolves.{
  IsSoundLeg, LegEvolves, LegsEvolve, Moves, stay, Moves-trans, leg_ids, AreDistinct, SameIdentity,
  Evolves,
}
use polymarket_trade_executo.StateMachine.Effects.{found_here}
use polymarket_trade_executo.StateMachine.Steps.{
  on_order_ack-Evolves, on_reject-Evolves, on_cancel_requested-Evolves, on_cancel_confirmed-Evolves,
  on_timeout-Evolves, on_unwind_required-Evolves, on_unwound-Evolves, on_abort-Evolves,
}
use polymarket_trade_executo.StateMachine.FillSteps.{
  on_order_intent-Evolves, on_fill-Evolves, on_emergency_halt-Evolves,
}

dispatch-Evolves :
    (p : PackageExecution) (e : StateMachineEvent) → Ensures (Evolves p) (dispatch p e)
unfolding dispatch
dispatch-Evolves p (StateMachineEvent.order_intent e) = on_order_intent-Evolves p e
dispatch-Evolves p (StateMachineEvent.order_ack e) = on_order_ack-Evolves p e
dispatch-Evolves p (StateMachineEvent.venue_fill e) = on_fill-Evolves p e
dispatch-Evolves p (StateMachineEvent.venue_cancel e) = on_cancel_confirmed-Evolves p e
dispatch-Evolves p (StateMachineEvent.venue_reject e) = on_reject-Evolves p e
dispatch-Evolves p (StateMachineEvent.cancel_requested e) = on_cancel_requested-Evolves p e
dispatch-Evolves p (StateMachineEvent.leg_timeout e) = on_timeout-Evolves p e
dispatch-Evolves p (StateMachineEvent.unwind_required e) = on_unwind_required-Evolves p e
dispatch-Evolves p (StateMachineEvent.unwound e) = on_unwound-Evolves p e
dispatch-Evolves p (StateMachineEvent.abort e) = on_abort-Evolves p e
dispatch-Evolves p (StateMachineEvent.emergency_halt e) = on_emergency_halt-Evolves p e

pub apply_event-Evolves :
    (p : PackageExecution) (e : StateMachineEvent) → Ensures (Evolves p) (apply_event p e)
unfolding apply_event
apply_event-Evolves p e = Ensures-bind (validate_package_match p (event_package_id e)) _ λ _ _.
    Ensures-bind (raise_if (is_terminal_package p.state && not (is_halt e)) _) _
      λ _ _. dispatch-Evolves p e

-- What an event that the reducer accepts does to the package state is a walk along
-- PACKAGE_TRANSITIONS, and the package's identity, opportunity, time of creation and intended legs
-- stay what they are.
pub apply_event-Moves :
    (p p' : PackageExecution) (e : StateMachineEvent)
    → apply_event p e ≡ ok p'
    → Moves p.state p'.state × SameIdentity p p'
apply_event-Moves p p' e h = let ev = (apply_event-Evolves p e).at p' h in (ev.moves, ev.identity)

-- What becomes of a leg that a lookup finds.
pub record LegAfter (p' : PackageExecution) (i : String) (l : LegExecution) : Type 0 where
  pub after : LegExecution
  pub found : leg_by_id p' i ≡ ok after
  pub step : (after.state ≡ l.state) ⊎ (order_allowed l.state after.state ≡ true)
  pub filled_grows : l.filled_qty ≤ℤ after.filled_qty
  pub same_unwind : after.is_unwind_leg ≡ l.is_unwind_leg

find_leg-LegsEvolve :
    (i : String) (ls ls' : List LegExecution) (l : LegExecution)
    → LegsEvolve ls ls'
    → find_leg i ls ≡ ok l
    → (l' : LegExecution) × (find_leg i ls' ≡ ok l') × LegEvolves l l'
unfolding find_leg
find_leg-LegsEvolve i [] ls' l ev h = cc
find_leg-LegsEvolve i (x ∷ ls) [] l ev h = absurd ev
find_leg-LegsEvolve i (x ∷ ls) (x' ∷ ls') l ev h = elim (Bool-cases (has_id i x)) [
  | inl here ↦
      let here' : has_id i x' ≡ true = rw ev.0.same_id here in
      (x', rw here', subst (λ y. LegEvolves y x') (sym (found_here x l (rw here at h))) ev.0)
  | inr there ↦
      let there' : has_id i x' ≡ false = rw ev.0.same_id there in
      let (l', found, step) = find_leg-LegsEvolve i ls ls' l ev.1 (rw there at h) in
      (l', rw there' found, step)
]

-- No event that the reducer accepts makes a leg disappear: the leg is still found under its id, its
-- state is the same or one edge of ORDER_TRANSITIONS further, its filled quantity has not gone
-- down, and it has not turned into or ceased to be an unwind leg.
pub apply_event-leg :
    (p p' : PackageExecution) (e : StateMachineEvent) (i : String) (l : LegExecution)
    → apply_event p e ≡ ok p'
    → leg_by_id p i ≡ ok l
    → LegAfter p' i l
unfolding leg_by_id
apply_event-leg p p' e i l h found =
    let (l', found', ev) =
      find_leg-LegsEvolve i p.legs p'.legs l ((apply_event-Evolves p e).at p' h).legs_evolve
        found in
    record {
      after = l';
      found = found';
      step = ev.step;
      filled_grows = ev.filled_grows;
      same_unwind = ev.same_unwind;
    }

-- A package between two events.
pub record IsSound (p : PackageExecution) : Type 0 where
  pub legs_sound : All IsSoundLeg p.legs
  pub ids_distinct : AreDistinct (leg_ids p.legs)

LegsEvolve-sound :
    (ls ls' : List LegExecution) → LegsEvolve ls ls' → All IsSoundLeg ls → All IsSoundLeg ls'
LegsEvolve-sound [] [] ev h = tt
LegsEvolve-sound [] (l' ∷ ls') ev h = (ev.0.sound, LegsEvolve-sound [] ls' ev.1 tt)
LegsEvolve-sound (l ∷ ls) [] ev h = absurd ev
LegsEvolve-sound (l ∷ ls) (l' ∷ ls') ev h = (ev.0.keeps_sound h.0, LegsEvolve-sound ls ls' ev.1 h.1)

-- Every event that the reducer accepts keeps a package sound: leg ids stay distinct, quantities are
-- in range, a leg that is not an unwind leg is never filled beyond its intended quantity, a FILLED
-- leg is filled in full, and a NEW leg has no fill.
pub apply_event-IsSound :
    (p p' : PackageExecution) (e : StateMachineEvent)
    → apply_event p e ≡ ok p'
    → IsSound p
    → IsSound p'
apply_event-IsSound p p' e h sound =
    let ev = (apply_event-Evolves p e).at p' h in
    record {
      legs_sound = LegsEvolve-sound p.legs p'.legs ev.legs_evolve sound.legs_sound;
      ids_distinct = ev.keeps_distinct sound.ids_distinct;
    }

-- The same for any sequence of events that the reducer accepts, in any order.
pub apply_events-IsSound :
    (p p' : PackageExecution) (es : List StateMachineEvent)
    → apply_events p es ≡ ok p'
    → IsSound p
    → IsSound p'
unfolding apply_events
apply_events-IsSound p p' [] h sound = subst IsSound (ok-injective h) sound
apply_events-IsSound p p' (e ∷ es) h sound =
    let (q, step, rest) = >>=-returns (apply_event p e) (λ q. apply_events q es) h in
    apply_events-IsSound q p' es rest (apply_event-IsSound p q e step sound)

pub apply_events-Moves :
    (p p' : PackageExecution) (es : List StateMachineEvent)
    → apply_events p es ≡ ok p'
    → Moves p.state p'.state
unfolding apply_events
apply_events-Moves p p' [] h =
    subst (λ (q : PackageExecution). Moves p.state q.state) (ok-injective h) stay
apply_events-Moves p p' (e ∷ es) h =
    let (q, step, rest) = >>=-returns (apply_event p e) (λ q. apply_events q es) h in
    Moves-trans (apply_event-Moves p q e step).0 (apply_events-Moves q p' es rest)
