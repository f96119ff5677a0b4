-- ===== src/StateMachine/Reachability.antt =====
-- The packages that executor/state_machine.py can reach: created, then fed events in any order.
use polymarket_trade_executo.Common.{
  String, ◌≡◌, ◌≢◌, inl, inr, refl, subst, Bool, ◌&&◌, true, false, List, [], ◌∷◌, arith, ok,
  >>=-returns, ok-injective, eq_iff, string_eq, Bool-cases,
}
use polymarket_trade_executo.Common.Int.{ℤ, ◌≤ℤ◌}
use polymarket_trade_executo.Common.Lists.{All, any, all, filter, contains}
use polymarket_trade_executo.StateMachine.Types.{
  OrderState, PackageState, LegExecution, PackageExecution, order_rank_iff,
}
use polymarket_trade_executo.StateMachine.Events.{StateMachineEvent}
use polymarket_trade_executo.StateMachine.Package.{
  create_package_execution, intended_legs, is_filled, is_failure,
}
use polymarket_trade_executo.StateMachine.Reducer.{apply_event, apply_events}
use polymarket_trade_executo.StateMachine.Evolves.{IsSoundLeg, leg_ids}
use polymarket_trade_executo.StateMachine.Transitions.{IsSound, apply_events-IsSound}
use polymarket_trade_executo.StateMachine.Creation.{
  IsNewLeg, IsCreatable, created, AreUnfilled, create_package_execution-IsSound,
  create_package_execution-made,
}
use polymarket_trade_executo.StateMachine.Settled.{IsSettled}
use polymarket_trade_executo.StateMachine.SettledSteps.{apply_event-IsSettled}

-- A package that some sequence of accepted events leads to from a package as created.
pub record IsReachable (p : PackageExecution) : Type 0 where
  pub start : PackageExecution
  pub package_id : String
  pub opportunity_id : String
  pub ts_ns : ℤ
  pub legs : List LegExecution
  pub events : List StateMachineEvent
  pub unfilled : AreUnfilled legs
  pub creation : create_package_execution package_id opportunity_id ts_ns legs ≡ ok start
  pub run : apply_events start events ≡ ok p

new_legs-not_failed :
    (test : LegExecution → Bool) (ls : List LegExecution)
    → All IsNewLeg ls
    → any is_failure (filter test ls) ≡ false
new_legs-not_failed test [] n = refl
new_legs-not_failed test (l ∷ ls) n =
    ground (arith, n.0.not_started, new_legs-not_failed test ls n.1)

some_leg_intended :
    (l : LegExecution) (ls : List LegExecution)
    → l.state ≡ OrderState.new
    → all is_filled (filter (λ x. contains (leg_ids (l ∷ ls)) x.leg_id) (l ∷ ls)) ≡ false
some_leg_intended l ls h = ground (arith, (eq_iff l.leg_id l.leg_id).1 refl)

some_new_leg-not_filled :
    (ls : List LegExecution)
    → ls ≢ []
    → All IsNewLeg ls
    → all is_filled (filter (λ x. contains (leg_ids ls) x.leg_id) ls) ≡ false
some_new_leg-not_filled [] h n = absurd (h refl)
some_new_leg-not_filled (l ∷ ls) h n = some_leg_intended l ls n.0.not_started

created-IsSettled :
    (package_id opportunity_id : String) (ts : ℤ) (ls : List LegExecution)
    → IsCreatable package_id opportunity_id ls
    → IsSettled (created package_id opportunity_id ts ls)
unfolding intended_legs
created-IsSettled package_id opportunity_id ts ls c = record {
  completed_means = λ e. cc;
  open_not_filled = λ _. some_new_leg-not_filled ls c.nonempty c.legs_new;
  open_not_failed = λ _. new_legs-not_failed _ ls c.legs_new;
}

apply_events-IsSettled :
    (p p' : PackageExecution) (es : List StateMachineEvent)
    → apply_events p es ≡ ok p'
    → IsSettled p
    → IsSettled p'
unfolding apply_events
apply_events-IsSettled p p' [] h s = subst IsSettled (ok-injective h) s
apply_events-IsSettled p p' (e ∷ es) h s =
    let (q, step, rest) = >>=-returns (apply_event p e) (λ q. apply_events q es) h in
    apply_events-IsSettled q p' es rest (apply_event-IsSettled p q e step s)

creation-IsSettled :
    (package_id opportunity_id : String) (ts : ℤ) (ls : List LegExecution) (p : PackageExecution)
    → create_package_execution package_id opportunity_id ts ls ≡ ok p
    → IsSettled p
creation-IsSettled package_id opportunity_id ts ls p h =
    let (made, c) = create_package_execution-made package_id opportunity_id ts ls p h in
    subst IsSettled made (created-IsSettled package_id opportunity_id ts ls c)

-- Every reachable package is sound, and its state agrees with its legs: a package that is NEW or
-- EXECUTING has no intended leg REJECTED or TIMED_OUT and not all of them FILLED.
pub reachable-invariant : (p : PackageExecution) → IsReachable p → IsSound p × IsSettled p
reachable-invariant p r =
    let (sound, _) =
      create_package_execution-IsSound r.package_id r.opportunity_id r.ts_ns r.legs r.start
        r.unfilled r.creation in
    (
      apply_events-IsSound r.start p r.events r.run sound,
      apply_events-IsSettled r.start p r.events r.run
          (creation-IsSettled r.package_id r.opportunity_id r.ts_ns r.legs r.start r.creation),
    )

-- A leg whose order is done.
pub record IsFilledInFull (l : LegExecution) : Type 0 where
  pub is_done : l.state ≡ OrderState.filled
  pub at_least : l.intended_qty ≤ℤ l.filled_qty
  pub exactly : l.is_unwind_leg ≡ false → l.filled_qty ≡ l.intended_qty

eq_of_le : (a b : ℤ) → a ≤ℤ b → b ≤ℤ a → a ≡ b
eq_of_le a b h k = ground arith

and-true : (a b : Bool) → (a && b) ≡ true → (a ≡ true) × (b ≡ true)
and-true a b h = ground arith

leg-IsFilledInFull : (l : LegExecution) → IsSoundLeg l → is_filled l ≡ true → IsFilledInFull l
leg-IsFilledInFull l s h =
    let is_done : l.state ≡ OrderState.filled = (order_rank_iff l.state OrderState.filled).0 h in
    let at_least = s.filled_in_full is_done in
    record {
      is_done = is_done;
      at_least = at_least;
      exactly = λ planned. eq_of_le l.filled_qty l.intended_qty (s.no_overfill planned) at_least;
    }

filter-IsFilledInFull :
    (test : LegExecution → Bool) (ls : List LegExecution)
    → All IsSoundLeg ls
    → all is_filled (filter test ls) ≡ true
    → All IsFilledInFull (filter test ls)
filter-IsFilledInFull test [] s h = tt
filter-IsFilledInFull test (l ∷ ls) s h = elim (Bool-cases (test l)) [
  | inl kept ↦
      let (l_filled, rest) =
        and-true (is_filled l) (all is_filled (filter test ls)) (rw kept at h) in
      rw kept (leg-IsFilledInFull l s.0 l_filled, filter-IsFilledInFull test ls s.1 rest)
  | inr left ↦ rw left (filter-IsFilledInFull test ls s.1 (rw left at h))
]

-- In a reachable package that is COMPLETED every intended leg is FILLED, with at least its intended
-- quantity, and with exactly that quantity if it is not an unwind leg.
pub completed_in_full :
    (p : PackageExecution)
    → IsReachable p
    → p.state ≡ PackageState.completed
    → All IsFilledInFull (intended_legs p)
unfolding intended_legs
completed_in_full p r h =
    let (sound, settled) = reachable-invariant p r in
    filter-IsFilledInFull _ p.legs sound.legs_sound (settled.completed_means h)
