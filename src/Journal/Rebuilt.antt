-- ===== src/Journal/Rebuilt.antt =====
-- executor/journal.py: what holds of every state that the reconstructor makes of records.
use polymarket_trade_executo.Common.{
  String, ◌≡◌, refl, ap, ◌∙◌, true, false, Bool-cases, inl, inr, Option, none, some, List, [], ◌∷◌,
  ◌++◌, map, ok, err, ok-injective, >>=-returns, ◌>>=◌, Ensures, Ensures-ok, Ensures-err,
  Ensures-bind,
}
use polymarket_trade_executo.Common.Int.{ℤ}
use polymarket_trade_executo.Common.Dict.{get, AllValues, AllValues-get, AllValues-set}
use polymarket_trade_executo.Common.DictSums.{AllValues-remove}
use polymarket_trade_executo.StateMachine.Types.{
  PackageState, LegExecution, PackageExecution, Error,
}
use polymarket_trade_executo.StateMachine.Events.{StateMachineEvent, event_package_id}
use polymarket_trade_executo.StateMachine.Tables.{is_terminal_package}
use polymarket_trade_executo.StateMachine.Package.{Raises, create_package_execution}
use polymarket_trade_executo.StateMachine.Reducer.{apply_event, apply_events}
use polymarket_trade_executo.StateMachine.Creation.{AreUnfilled, create_package_execution-IsSound}
use polymarket_trade_executo.StateMachine.Reachability.{IsReachable}
use polymarket_trade_executo.Planner.Types.{PlannedLeg, ExecutionPlan}
use polymarket_trade_executo.Journal.Json.{Json, Decoded, Python, lookup}
use polymarket_trade_executo.Journal.Types.{
  JournalEventType, JournalRecord, ReplayError, ReconstructedExecutorState, empty_state,
}
use polymarket_trade_executo.Journal.Deserialize.{deserialize_execution_plan}
use polymarket_trade_executo.Journal.Replay.{
  update_package_bucket, after_transition, apply_to_package, apply_state_event, forced,
  force_terminal_state, leg_of_plan, add_created, add_plan, add_raw_plan, apply_plan_created,
  fail_package, apply_failure, event_from_record, apply_event_found, apply_event_record,
  apply_typed, apply_record, apply_records, reconstruct,
}

-- A package that the reducer can reach and that is not terminal.
pub record IsLive (p : PackageExecution) : Type 0 where
  pub reachable : IsReachable p
  pub not_terminal : is_terminal_package p.state ≡ false

abbrev pub IsDone : PackageExecution → Type 0
IsDone p = is_terminal_package p.state ≡ true

-- The active packages are live, the terminal packages are terminal.
pub record IsRebuilt (state : ReconstructedExecutorState) : Type 0 where
  pub active : AllValues IsLive state.active_packages
  pub terminal : AllValues IsDone state.terminal_packages

apply_events-append :
    (p q r : PackageExecution) (es : List StateMachineEvent) (e : StateMachineEvent)
    → apply_events p es ≡ ok q
    → apply_event q e ≡ ok r
    → apply_events p (es ++ (e ∷ [])) ≡ ok r
unfolding apply_events
apply_events-append p q r [] e h step =
    let same : p ≡ q = ok-injective h in
    ap (λ x. apply_event x e >>= λ y. ok y) same ∙ ap (λ x. x >>= λ y. ok y) step
apply_events-append p q r (e' ∷ es) e h step =
    let (p', first, rest) = >>=-returns (apply_event p e') (λ x. apply_events x es) h in
    ap (λ x. x >>= λ y. apply_events y (es ++ (e ∷ []))) first
    ∙ apply_events-append p' q r es e rest step

apply_event-IsReachable :
    (p q : PackageExecution) (e : StateMachineEvent)
    → IsReachable p
    → apply_event p e ≡ ok q
    → IsReachable q
apply_event-IsReachable p q e r h = record {
  start = r.start;
  package_id = r.package_id;
  opportunity_id = r.opportunity_id;
  ts_ns = r.ts_ns;
  legs = r.legs;
  events = r.events ++ (e ∷ []);
  unfilled = r.unfilled;
  creation = r.creation;
  run = apply_events-append r.start p q r.events e r.run h;
}

update_package_bucket-IsRebuilt :
    (state : ReconstructedExecutorState) (p : PackageExecution)
    → IsRebuilt state
    → IsReachable p
    → IsRebuilt (update_package_bucket state p)
unfolding update_package_bucket
update_package_bucket-IsRebuilt state p s r = elim (Bool-cases (is_terminal_package p.state)) [
  | inl done ↦ rw done (record {
    active = AllValues-remove IsLive state.active_packages p.package_id s.active;
    terminal = AllValues-set IsDone state.terminal_packages p.package_id p s.terminal done;
  })
  | inr live ↦ rw live (record {
    active =
        AllValues-set IsLive state.active_packages p.package_id p s.active
          (record { reachable = r; not_terminal = live });
    terminal = AllValues-remove IsDone state.terminal_packages p.package_id s.terminal;
  })
]

after_transition-IsRebuilt :
    (state : ReconstructedExecutorState) (error : Error → ReplayError) (p : PackageExecution)
    (e : StateMachineEvent) (result : Raises PackageExecution)
    → IsRebuilt state
    → IsReachable p
    → apply_event p e ≡ result
    → IsRebuilt (after_transition state error result)
unfolding after_transition
after_transition-IsRebuilt state error p e (err exception) s r h = record {
  active = s.active;
  terminal = s.terminal;
}
after_transition-IsRebuilt state error p e (ok q) s r h =
    update_package_bucket-IsRebuilt state q s (apply_event-IsReachable p q e r h)

apply_to_package-IsRebuilt :
    (state : ReconstructedExecutorState) (e : StateMachineEvent) (entry : JournalRecord)
    (found : Option PackageExecution)
    → IsRebuilt state
    → get state.active_packages (event_package_id e) ≡ found
    → IsRebuilt (apply_to_package state e entry found)
unfolding apply_to_package
apply_to_package-IsRebuilt state e entry none s h = record {
  active = s.active;
  terminal = s.terminal;
}
apply_to_package-IsRebuilt state e entry (some p) s h =
    let live = AllValues-get IsLive state.active_packages (event_package_id e) p s.active h in
    after_transition-IsRebuilt state _ p e (apply_event p e) s live.reachable refl

pub apply_state_event-IsRebuilt :
    (state : ReconstructedExecutorState) (e : StateMachineEvent) (entry : JournalRecord)
    → IsRebuilt state
    → IsRebuilt (apply_state_event state e entry)
unfolding apply_state_event
apply_state_event-IsRebuilt state e entry s =
    apply_to_package-IsRebuilt state e entry (get state.active_packages (event_package_id e)) s refl

forced-IsRebuilt :
    (state : ReconstructedExecutorState) (id : String) (active terminal : Option PackageExecution)
    → IsRebuilt state
    → IsRebuilt (forced state id PackageState.completed active terminal)
unfolding is_terminal_package
forced-IsRebuilt state id none none s = s
forced-IsRebuilt state id none (some p) s = record {
  active = s.active;
  terminal = AllValues-set IsDone state.terminal_packages id _ s.terminal refl;
}
forced-IsRebuilt state id (some p) terminal s = record {
  active = AllValues-remove IsLive state.active_packages id s.active;
  terminal = AllValues-set IsDone state.terminal_packages id _ s.terminal refl;
}

force_terminal_state-IsRebuilt :
    (state : ReconstructedExecutorState) (id : Option String)
    → IsRebuilt state
    → IsRebuilt (force_terminal_state state id PackageState.completed)
unfolding force_terminal_state
force_terminal_state-IsRebuilt state none s = s
force_terminal_state-IsRebuilt state (some id) s =
    forced-IsRebuilt state id (get state.active_packages id) (get state.terminal_packages id) s

pub leg_of_plan-AreUnfilled : (legs : List PlannedLeg) → AreUnfilled (map leg_of_plan legs)
leg_of_plan-AreUnfilled [] = tt
leg_of_plan-AreUnfilled (leg ∷ legs) = (refl, leg_of_plan-AreUnfilled legs)

pub created-IsLive :
    (id opportunity_id : String) (ts : ℤ) (legs : List LegExecution) (p : PackageExecution)
    → AreUnfilled legs
    → create_package_execution id opportunity_id ts legs ≡ ok p
    → IsLive p
unfolding apply_events is_terminal_package
created-IsLive id opportunity_id ts legs p u h =
    let (sound, new) = create_package_execution-IsSound id opportunity_id ts legs p u h in
    record {
      reachable = record {
        start = p;
        package_id = id;
        opportunity_id = opportunity_id;
        ts_ns = ts;
        legs = legs;
        events = [];
        unfilled = u;
        creation = h;
        run = refl;
      };
      not_terminal = rw new refl;
    }

add_created-IsRebuilt :
    (state : ReconstructedExecutorState) (entry : JournalRecord) (id : String)
    (result : Raises PackageExecution)
    → IsRebuilt state
    → ((p : PackageExecution) → result ≡ ok p → IsLive p)
    → Ensures IsRebuilt (add_created state entry id result)
unfolding add_created
add_created-IsRebuilt state entry id (err exception) s live = Ensures-err _
add_created-IsRebuilt state entry id (ok p) s live = Ensures-ok _ (record {
  active = AllValues-set IsLive state.active_packages id p s.active (live p refl);
  terminal = s.terminal;
})

add_plan-IsRebuilt :
    (state : ReconstructedExecutorState) (entry : JournalRecord) (id : String)
    (plan : Decoded ExecutionPlan)
    → IsRebuilt state
    → Ensures IsRebuilt (add_plan state entry id plan)
unfolding add_plan
add_plan-IsRebuilt state entry id (err exception) s =
    Ensures-ok _ (record { active = s.active; terminal = s.terminal })
add_plan-IsRebuilt state entry id (ok plan) s = add_created-IsRebuilt state entry id _ s (λ p h.
    created-IsLive id plan.opportunity_id entry.ts_ns _ p (leg_of_plan-AreUnfilled plan.legs) h)

module _ (python : Python) where
  add_raw_plan-IsRebuilt :
      (state : ReconstructedExecutorState) (entry : JournalRecord) (id : String) (raw : Option Json)
      → IsRebuilt state
      → Ensures IsRebuilt (add_raw_plan python state entry id raw)
  unfolding add_raw_plan
  add_raw_plan-IsRebuilt state entry id none s =
      Ensures-ok _ (record { active = s.active; terminal = s.terminal })
  add_raw_plan-IsRebuilt state entry id (some (Json.object d)) s =
      add_plan-IsRebuilt state entry id (deserialize_execution_plan python d) s
  add_raw_plan-IsRebuilt state entry id (some other) s =
      Ensures-ok _ (record { active = s.active; terminal = s.terminal })

  apply_plan_created-IsRebuilt :
      (state : ReconstructedExecutorState) (entry : JournalRecord) (id : Option String)
      → IsRebuilt state
      → Ensures IsRebuilt (apply_plan_created python state entry id)
  unfolding apply_plan_created
  apply_plan_created-IsRebuilt state entry none s =
      Ensures-ok _ (record { active = s.active; terminal = s.terminal })
  apply_plan_created-IsRebuilt state entry (some id) s =
      add_raw_plan-IsRebuilt state entry id (lookup entry.payload "plan") s

  fail_package-IsRebuilt :
      (state : ReconstructedExecutorState) (entry : JournalRecord) (id : String)
      (found : Option PackageExecution)
      → IsRebuilt state
      → get state.active_packages id ≡ found
      → IsRebuilt (fail_package python state entry id found)
  unfolding fail_package
  fail_package-IsRebuilt state entry id none s h = record {
    active = s.active;
    terminal = s.terminal;
  }
  fail_package-IsRebuilt state entry id (some p) s h =
      let live = AllValues-get IsLive state.active_packages id p s.active h in
      after_transition-IsRebuilt state _ p _ _ s live.reachable refl

  apply_failure-IsRebuilt :
      (state : ReconstructedExecutorState) (entry : JournalRecord) (id : Option String)
      → IsRebuilt state
      → IsRebuilt (apply_failure python state entry id)
  unfolding apply_failure
  apply_failure-IsRebuilt state entry none s = record { active = s.active; terminal = s.terminal }
  apply_failure-IsRebuilt state entry (some id) s =
      fail_package-IsRebuilt state entry id (get state.active_packages id) s refl

  apply_event_found-IsRebuilt :
      (state : ReconstructedExecutorState) (entry : JournalRecord)
      (found : Option StateMachineEvent)
      → IsRebuilt state
      → IsRebuilt (apply_event_found python state entry found)
  unfolding apply_event_found
  apply_event_found-IsRebuilt state entry none s = s
  apply_event_found-IsRebuilt state entry (some e) s = apply_state_event-IsRebuilt state e entry s

  apply_event_record-IsRebuilt :
      (state : ReconstructedExecutorState) (entry : JournalRecord)
      → IsRebuilt state
      → Ensures IsRebuilt (apply_event_record python state entry)
  unfolding apply_event_record
  apply_event_record-IsRebuilt state entry s =
      Ensures-bind (event_from_record python entry) _
        λ found e. Ensures-ok _ (apply_event_found-IsRebuilt state entry found s)

  apply_typed-IsRebuilt :
      (state : ReconstructedExecutorState) (entry : JournalRecord) (t : JournalEventType)
      → IsRebuilt state
      → Ensures IsRebuilt (apply_typed python state entry t)
  unfolding apply_typed
  apply_typed-IsRebuilt state entry JournalEventType.opportunity_accepted s =
      Ensures-ok _ (record { active = s.active; terminal = s.terminal })
  apply_typed-IsRebuilt state entry JournalEventType.opportunity_rejected s =
      Ensures-ok _ (record { active = s.active; terminal = s.terminal })
  apply_typed-IsRebuilt state entry JournalEventType.kill_switch_activated s =
      Ensures-ok _ (record { active = s.active; terminal = s.terminal })
  apply_typed-IsRebuilt state entry JournalEventType.execution_plan_created s =
      apply_plan_created-IsRebuilt state entry entry.package_id s
  apply_typed-IsRebuilt state entry JournalEventType.package_completed s =
      Ensures-ok _ (force_terminal_state-IsRebuilt state entry.package_id s)
  apply_typed-IsRebuilt state entry JournalEventType.package_failed s =
      Ensures-ok _ (apply_failure-IsRebuilt state entry entry.package_id s)
  apply_typed-IsRebuilt state entry other s = apply_event_record-IsRebuilt state entry s

  apply_records-IsRebuilt :
      (state : ReconstructedExecutorState) (entries : List JournalRecord)
      → IsRebuilt state
      → Ensures IsRebuilt (apply_records python state entries)
  unfolding apply_records apply_record
  apply_records-IsRebuilt state [] s = Ensures-ok _ s
  apply_records-IsRebuilt state (entry ∷ entries) s =
      Ensures-bind (apply_typed python state entry entry.event_type) _ λ next e.
        apply_records-IsRebuilt next entries
          ((apply_typed-IsRebuilt state entry entry.event_type s).at next e)

-- Whatever records are replayed, if the replay returns a state then each of its active packages is one
-- that the reducer reaches from a package as created and is not terminal, and each of its terminal
-- packages is terminal.
pub reconstruct-IsRebuilt :
    (python : Python) (entries : List JournalRecord) (state : ReconstructedExecutorState)
    → reconstruct python entries ≡ ok state
    → IsRebuilt state
reconstruct-IsRebuilt python entries state h =
    (apply_records-IsRebuilt python empty_state entries (record { active = tt; terminal = tt })).at
      state h
