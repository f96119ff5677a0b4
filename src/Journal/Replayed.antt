-- ===== src/Journal/Replayed.antt =====
-- executor/journal.py with executor_service.py's `_journal_event`: replaying the records of events
-- does to a package what the events did.
use polymarket_trade_executo.Common.{
  String, ◌≡◌, refl, sym, ap, ◌∙◌, subst, arith, Bool, true, false, not, ◌&&◌, Bool-cases, inl, inr,
  Option, none, some, List, [], ◌∷◌, ok, ok-injective, >>=-returns, Ensures, Ensures-guard,
  Ensures-bind, ◌==◌, string_eq, eq_iff,
}
use polymarket_trade_executo.Common.Int.{ℤ, pos, ◌+ℤ◌}
use polymarket_trade_executo.Common.Dict.{get, get-set, get-remove}
use polymarket_trade_executo.Common.Lists.{All}
use polymarket_trade_executo.StateMachine.Types.{PackageExecution}
use polymarket_trade_executo.StateMachine.Events.{StateMachineEvent, event_package_id}
use polymarket_trade_executo.StateMachine.Tables.{is_terminal_package}
use polymarket_trade_executo.StateMachine.Package.{validate_package_match}
use polymarket_trade_executo.StateMachine.Reducer.{apply_event, apply_events, is_halt}
use polymarket_trade_executo.Journal.Json.{Python}
use polymarket_trade_executo.Journal.Types.{JournalRecord, ReconstructedExecutorState}
use polymarket_trade_executo.Journal.Records.{
  build_record, order_submitted_record, order_ack_record, order_fill_record, cancel_request_record,
  cancel_confirm_record, order_reject_record, timeout_record, journal_event_record,
}
use polymarket_trade_executo.Journal.Replay.{
  update_package_bucket, after_transition, apply_to_package, apply_state_event, event_of_type,
  event_from_payload, event_from_record, apply_event_found, apply_event_record, apply_typed,
  apply_record, apply_records,
}
use polymarket_trade_executo.Journal.RoundTrip.{
  deserialize_order_intent-serialize_order_intent,
  deserialize_venue_order_ack-serialize_venue_order_ack,
  deserialize_venue_fill_event-serialize_venue_fill_event,
  deserialize_venue_cancel_event-serialize_venue_cancel_event,
  deserialize_venue_reject_event-serialize_venue_reject_event,
  deserialize_leg_event-serialize_leg_event,
}

-- an event that the journal has a record for
abbrev pub is_journaled : StateMachineEvent → Bool
is_journaled (StateMachineEvent.unwind_required e) = false
is_journaled (StateMachineEvent.unwound e) = false
is_journaled (StateMachineEvent.abort e) = false
is_journaled (StateMachineEvent.emergency_halt e) = false
is_journaled other = true

abbrev pub IsJournaled : StateMachineEvent → Type 0
IsJournaled e = is_journaled e ≡ true

abbrev pub optional_record : Option JournalRecord → List JournalRecord → List JournalRecord
optional_record none entries = entries
optional_record (some entry) entries = entry ∷ entries

-- the records of events, in their order
unfoldable pub journal_records :
    (sequence : ℤ) → (relation_id : String) → List StateMachineEvent → List JournalRecord
journal_records sequence relation_id [] = []
journal_records sequence relation_id (e ∷ es) =
    optional_record (journal_event_record sequence relation_id e)
      (journal_records (sequence +ℤ pos 1) relation_id es)

-- the package is in the dict of the state for its own state
abbrev pub Bucketed : Bool → ReconstructedExecutorState → PackageExecution → Type 0
Bucketed false state p = get state.active_packages p.package_id ≡ some p
Bucketed true state p =
    (get state.active_packages p.package_id ≡ none)
    × (get state.terminal_packages p.package_id ≡ some p)

abbrev pub IsBucketed : ReconstructedExecutorState → PackageExecution → Type 0
IsBucketed state p = Bucketed (is_terminal_package p.state) state p

false_not_true : (let b : Bool = false in b ≡ true) → ⊥
false_not_true h = cc

module _ (python : Python) where
  -- the record of an event, and what its replay comes to
  record Replays (sequence : ℤ) (relation_id : String) (state : ReconstructedExecutorState)
      (e : StateMachineEvent) : Type 0 where
    entry : JournalRecord
    recorded : journal_event_record sequence relation_id e ≡ some entry
    applied : apply_record python state entry ≡ ok (apply_state_event state e entry)

  event_from_journal_event_record :
      (sequence : ℤ) (relation_id : String) (state : ReconstructedExecutorState)
      (e : StateMachineEvent)
      → IsJournaled e
      → Replays sequence relation_id state e
  unfolding journal_event_record order_submitted_record order_ack_record order_fill_record
      cancel_request_record cancel_confirm_record order_reject_record timeout_record build_record
      apply_record apply_typed apply_event_record apply_event_found event_from_record
      event_from_payload event_of_type
  event_from_journal_event_record sequence relation_id state (StateMachineEvent.order_intent e) h =
      record {
        entry = _;
        recorded = refl;
        applied = rw (deserialize_order_intent-serialize_order_intent python e) refl;
      }
  event_from_journal_event_record sequence relation_id state (StateMachineEvent.order_ack e) h =
      record {
        entry = _;
        recorded = refl;
        applied = rw (deserialize_venue_order_ack-serialize_venue_order_ack python e) refl;
      }
  event_from_journal_event_record sequence relation_id state (StateMachineEvent.venue_fill e) h =
      record {
        entry = _;
        recorded = refl;
        applied = rw (deserialize_venue_fill_event-serialize_venue_fill_event python e) refl;
      }
  event_from_journal_event_record sequence relation_id state (StateMachineEvent.venue_cancel e) h =
      record {
        entry = _;
        recorded = refl;
        applied = rw (deserialize_venue_cancel_event-serialize_venue_cancel_event python e) refl;
      }
  event_from_journal_event_record sequence relation_id state (StateMachineEvent.venue_reject e) h =
      record {
        entry = _;
        recorded = refl;
        applied = rw (deserialize_venue_reject_event-serialize_venue_reject_event python e) refl;
      }
  event_from_journal_event_record sequence relation_id state (StateMachineEvent.cancel_requested e)
        h =
      record {
        entry = _;
        recorded = refl;
        applied = rw (deserialize_leg_event-serialize_leg_event python e) refl;
      }
  event_from_journal_event_record sequence relation_id state (StateMachineEvent.leg_timeout e) h =
      record {
        entry = _;
        recorded = refl;
        applied = rw (deserialize_leg_event-serialize_leg_event python e) refl;
      }
  event_from_journal_event_record sequence relation_id state (StateMachineEvent.unwind_required e)
        h =
      absurd (false_not_true h)
  event_from_journal_event_record sequence relation_id state (StateMachineEvent.unwound e) h =
      absurd (false_not_true h)
  event_from_journal_event_record sequence relation_id state (StateMachineEvent.abort e) h =
      absurd (false_not_true h)
  event_from_journal_event_record sequence relation_id state (StateMachineEvent.emergency_halt e)
        h =
      absurd (false_not_true h)

matched :
    (p : PackageExecution) (e : StateMachineEvent)
    → Ensures (λ q. p.package_id ≡ event_package_id e) (apply_event p e)
unfolding apply_event validate_package_match
matched p e = Ensures-guard (not (p.package_id == event_package_id e)) _ _ λ same. record {
  at = λ q h. (eq_iff p.package_id (event_package_id e)).0 (ground (arith, same));
}

is_halt-journaled : (e : StateMachineEvent) → IsJournaled e → is_halt e ≡ false
unfolding is_halt
is_halt-journaled (StateMachineEvent.emergency_halt e) h = absurd (false_not_true h)
is_halt-journaled (StateMachineEvent.order_intent e) h = refl
is_halt-journaled other h = refl

accepting :
    (p : PackageExecution) (e : StateMachineEvent)
    → IsJournaled e
    → Ensures (λ q. is_terminal_package p.state ≡ false) (apply_event p e)
unfolding apply_event
accepting p e j = Ensures-bind (validate_package_match p (event_package_id e)) _ λ u m.
    Ensures-guard (is_terminal_package p.state && not (is_halt e)) _ _
      λ live. record { at = λ q h. ground (arith, live, is_halt-journaled e j) }

update_package_bucket-IsBucketed :
    (state : ReconstructedExecutorState) (p : PackageExecution)
    → IsBucketed (update_package_bucket state p) p
unfolding update_package_bucket
update_package_bucket-IsBucketed state p = elim (Bool-cases (is_terminal_package p.state)) [
  | inl done ↦ rw done (
    get-remove state.active_packages p.package_id,
    get-set state.terminal_packages p.package_id p,
  )
  | inr live ↦ rw live (get-set state.active_packages p.package_id p)
]

apply_state_event-bucket :
    (state : ReconstructedExecutorState) (p q : PackageExecution) (e : StateMachineEvent)
    (entry : JournalRecord)
    → IsJournaled e
    → IsBucketed state p
    → apply_event p e ≡ ok q
    → apply_state_event state e entry ≡ update_package_bucket state q
unfolding apply_state_event apply_to_package after_transition
apply_state_event-bucket state p q e entry j b h =
    let active : get state.active_packages p.package_id ≡ some p =
      subst (λ t. Bucketed t state p) ((accepting p e j).at q h) b in
    let found = ap (get state.active_packages) (sym ((matched p e).at q h)) ∙ active in
    ap (apply_to_package state e entry) found ∙ ap (after_transition state _) h

-- what a replay leaves alone
pub record HasSameFaults (state state' : ReconstructedExecutorState) : Type 0 where
  pub same_errors : state'.replay_errors ≡ state.replay_errors
  pub same_orphans : state'.orphan_records ≡ state.orphan_records

update_package_bucket-HasSameFaults :
    (state : ReconstructedExecutorState) (p : PackageExecution)
    → HasSameFaults state (update_package_bucket state p)
unfolding update_package_bucket
update_package_bucket-HasSameFaults state p = ground arith

module _ (python : Python) where
  -- A state that holds a package in its bucket, and the records of events that the package accepts, in
  -- their order: the replay returns a state that holds the package after the events in its bucket, and
  -- adds no replay error and no orphan. The events are of the kinds that the journal has records for.
  pub apply_records-apply_events :
      (state : ReconstructedExecutorState) (p q : PackageExecution) (es : List StateMachineEvent)
      (sequence : ℤ) (relation_id : String)
      → IsBucketed state p
      → All IsJournaled es
      → apply_events p es ≡ ok q
      → (state' : ReconstructedExecutorState) × (apply_records python state
            (journal_records sequence relation_id es)
          ≡ ok state')
        × IsBucketed state' q
        × HasSameFaults state state'
  unfolding apply_records journal_records apply_events
  apply_records-apply_events state p q [] sequence relation_id b j h = (
    state,
    refl,
    subst (IsBucketed state) (ok-injective h) b,
    record { same_errors = refl; same_orphans = refl },
  )
  apply_records-apply_events state p q (e ∷ es) sequence relation_id b j h =
      let (p', step, rest) = >>=-returns (apply_event p e) (λ x. apply_events x es) h in
      let next = update_package_bucket state p' in
      let r = event_from_journal_event_record python sequence relation_id state e j.0 in
      let moved = apply_state_event-bucket state p p' e r.entry j.0 b step in
      let (state', replayed, bucketed, same) =
        apply_records-apply_events next p' q es (sequence +ℤ pos 1) relation_id
          (update_package_bucket-IsBucketed state p') j.1 rest in
      let faults = update_package_bucket-HasSameFaults state p' in
      (
        state',
        rw (r.recorded, r.applied, moved) replayed,
        bucketed,
        record {
          same_errors = same.same_errors ∙ faults.same_errors;
          same_orphans = same.same_orphans ∙ faults.same_orphans;
        },
      )
