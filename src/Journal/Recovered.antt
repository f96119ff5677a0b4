-- ===== src/Journal/Recovered.antt =====
-- executor/journal.py: a journal that begins with a package's plan reconstructs the package.
use polymarket_trade_executo.Common.{
  String, ◌≡◌, refl, sym, ap, ◌∙◌, subst, false, some, List, [], ◌∷◌, map, ok, ◌==◌, string_eq,
}
use polymarket_trade_executo.Common.Int.{ℤ, pos, ◌+ℤ◌}
use polymarket_trade_executo.Common.Dict.{get, set, get-set}
use polymarket_trade_executo.Common.Lists.{All}
use polymarket_trade_executo.StateMachine.Types.{LegExecution, PackageExecution}
use polymarket_trade_executo.StateMachine.Events.{StateMachineEvent}
use polymarket_trade_executo.StateMachine.Package.{create_package_execution}
use polymarket_trade_executo.StateMachine.Reducer.{apply_events}
use polymarket_trade_executo.StateMachine.Creation.{create_package_execution-made}
use polymarket_trade_executo.Planner.Types.{ExecutionPlan}
use polymarket_trade_executo.Journal.Json.{Python}
use polymarket_trade_executo.Journal.Types.{ReconstructedExecutorState, empty_state}
use polymarket_trade_executo.Journal.Records.{build_record, execution_plan_created_record}
use polymarket_trade_executo.Journal.Replay.{
  leg_of_plan, relate_plan, add_created, add_plan, add_raw_plan, apply_plan_created, apply_typed,
  apply_record, apply_records, reconstruct,
}
use polymarket_trade_executo.Journal.RoundTrip.{deserialize_execution_plan-serialize_execution_plan}
use polymarket_trade_executo.Journal.Rebuilt.{created-IsLive, leg_of_plan-AreUnfilled}
use polymarket_trade_executo.Journal.Replayed.{
  IsJournaled, IsBucketed, Bucketed, HasSameFaults, journal_records, apply_records-apply_events,
}

module _ (python : Python) (sequence ts_ns : ℤ) (package_id relation_id : String) where
  apply_record-execution_plan_created_record :
      (plan : ExecutionPlan) (p : PackageExecution)
      → All (λ leg. (leg.token_id == "") ≡ false) plan.legs
      → create_package_execution package_id plan.opportunity_id ts_ns (map leg_of_plan plan.legs)
        ≡ ok p
      → (state : ReconstructedExecutorState) × (apply_record python empty_state
            (execution_plan_created_record sequence package_id relation_id plan ts_ns)
          ≡ ok state)
        × (state.active_packages ≡ set [] package_id p)
        × HasSameFaults empty_state state
  unfolding apply_record apply_typed apply_plan_created add_raw_plan add_plan add_created
      execution_plan_created_record build_record
  apply_record-execution_plan_created_record plan p tokens made = (
    record empty_state {
      active_packages = set [] package_id p;
      relation_by_package = relate_plan [] package_id (some relation_id);
    },
    rw (deserialize_execution_plan-serialize_execution_plan python plan tokens, made) refl,
    refl,
    record { same_errors = refl; same_orphans = refl },
  )

  made_package_id :
      (opportunity_id : String) (p : PackageExecution) (ls : List LegExecution)
      → create_package_execution package_id opportunity_id ts_ns ls ≡ ok p
      → p.package_id ≡ package_id
  made_package_id opportunity_id p ls made =
      ap (λ (q : PackageExecution). q.package_id)
        (sym (create_package_execution-made package_id opportunity_id ts_ns ls p made).0)

  -- The journal of a package is the record of its plan and then the records of its events. If the plan
  -- makes a package, no leg of it has an empty token id, the events are of the kinds that the journal
  -- has records for, and the package accepts them one after the other, then the reconstruction from
  -- the journal returns a state without errors and orphans that holds the package after the events, in
  -- the dict for its state.
  pub reconstruct-journal_records :
      (plan : ExecutionPlan) (p q : PackageExecution) (es : List StateMachineEvent)
      → All (λ leg. (leg.token_id == "") ≡ false) plan.legs
      → create_package_execution package_id plan.opportunity_id ts_ns (map leg_of_plan plan.legs)
        ≡ ok p
      → All IsJournaled es
      → apply_events p es ≡ ok q
      → (state : ReconstructedExecutorState) × (reconstruct python (
            execution_plan_created_record sequence package_id relation_id plan ts_ns
            ∷ journal_records (sequence +ℤ pos 1) relation_id es)
          ≡ ok state)
        × IsBucketed state q
        × (state.replay_errors ≡ [])
        × (state.orphan_records ≡ [])
  unfolding apply_records
  reconstruct-journal_records plan p q es tokens made journaled run =
      let legs = map leg_of_plan plan.legs in
      let (state, applied, active, faults) =
        apply_record-execution_plan_created_record plan p tokens made in
      let live =
        created-IsLive package_id plan.opportunity_id ts_ns legs p
          (leg_of_plan-AreUnfilled plan.legs) made in
      let id = made_package_id plan.opportunity_id p legs made in
      let found : get state.active_packages p.package_id ≡ some p =
        ap (λ d. get d p.package_id) active
        ∙ ap (get (set [] package_id p)) id
        ∙ get-set [] package_id p in
      let (state', replayed, bucketed, same) =
        apply_records-apply_events python state p q es (sequence +ℤ pos 1) relation_id
          (subst (λ t. Bucketed t state p) (sym live.not_terminal) found) journaled run in
      (
        state',
        rw applied replayed,
        bucketed,
        same.same_errors ∙ faults.same_errors,
        same.same_orphans ∙ faults.same_orphans,
      )
