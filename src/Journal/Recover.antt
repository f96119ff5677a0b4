-- ===== src/Journal/Recover.antt =====
-- executor/journal.py: the queries of the reconstructed state, and RecoveryCoordinator. The venue
-- adapter is what it answers to the ids that are expected. An id made by `uuid4` is a function of the
-- number of the lines, or events, that come after.
use polymarket_trade_executo.Common.{
  ℕ, String, Bool, true, false, Option, none, some, List, [], ◌∷◌, ◌++◌, ok, ◌>>=◌, ◌==◌, string_eq,
  option_eq, if◌then◌else◌,
}
use polymarket_trade_executo.Common.Int.{pos}
use polymarket_trade_executo.Common.Dict.{get, values}
use polymarket_trade_executo.Common.Lists.{add_to, any, contains, length}
use polymarket_trade_executo.StateMachine.Types.{
  OrderState, LegExecution, PackageExecution, order_state_eq,
}
use polymarket_trade_executo.StateMachine.Events.{event_package_id}
use polymarket_trade_executo.Venue.Types.{
  NormalizedOrderEvent, ReconciliationResult, reducer_event, event_client_order_id, event_ts_ns,
}
use polymarket_trade_executo.Journal.Json.{Fields, Decoded, Python, Json}
use polymarket_trade_executo.Journal.Types.{
  JournalEventType, JournalRecord, ReconstructedExecutorState, RecoveryActionType, RecoveryAction,
  RecoveryResult,
}
use polymarket_trade_executo.Journal.Replay.{apply_state_event, reconstruct}
use polymarket_trade_executo.Journal.Records.{loads}

abbrev pub open_order_states : List OrderState
open_order_states =
    OrderState.pending_ack ∷ OrderState.working ∷ OrderState.partially_filled
    ∷ OrderState.cancel_requested ∷ []

-- the id of a leg's order, if it is open
abbrev pub id_in_state : Bool → Option String → Option String
id_in_state true (some id) = if id == "" then none else some id
id_in_state true none = none
id_in_state false id = none

abbrev pub open_client_order_id : LegExecution → Option String
open_client_order_id leg = id_in_state (contains open_order_states leg.state) leg.client_order_id

abbrev pub add_optional : List String → Option String → List String
add_optional ids none = ids
add_optional ids (some id) = add_to ids id

unfoldable pub add_open_ids : List String → List LegExecution → List String
add_open_ids ids [] = ids
add_open_ids ids (leg ∷ legs) = add_open_ids (add_optional ids (open_client_order_id leg)) legs

unfoldable pub add_package_ids : List String → List PackageExecution → List String
add_package_ids ids [] = ids
add_package_ids ids (pkg ∷ pkgs) = add_package_ids (add_open_ids ids pkg.legs) pkgs

unfoldable pub expected_open_client_order_ids : ReconstructedExecutorState → List String
expected_open_client_order_ids state = add_package_ids [] (values state.active_packages)

-- the first package with a leg that has the id
unfoldable pub package_with_id : List PackageExecution → (client_order_id : String) → Option String
package_with_id [] client_order_id = none
package_with_id (pkg ∷ pkgs) client_order_id =
    if any (λ leg. leg.client_order_id == some client_order_id) pkg.legs
    then some pkg.package_id
    else package_with_id pkgs client_order_id

unfoldable pub find_package_by_client_order_id :
    ReconstructedExecutorState → (client_order_id : String) → Option String
find_package_by_client_order_id state client_order_id =
    package_with_id (values state.active_packages ++ values state.terminal_packages) client_order_id

abbrev pub event_type_for_normalized : NormalizedOrderEvent → JournalEventType
event_type_for_normalized (NormalizedOrderEvent.ack e) = JournalEventType.order_ack
event_type_for_normalized (NormalizedOrderEvent.fill e) = JournalEventType.order_fill
event_type_for_normalized (NormalizedOrderEvent.cancel e) = JournalEventType.order_cancel_confirmed
event_type_for_normalized (NormalizedOrderEvent.reject e) = JournalEventType.order_rejected

-- the event's id is f"reconcile-{uuid4().hex}"
unfoldable pub apply_normalized_event :
    (event_id : String)
    → ReconstructedExecutorState
    → NormalizedOrderEvent
    → ReconstructedExecutorState
apply_normalized_event event_id state event =
    let package_id = event_package_id (reducer_event event) in
    apply_state_event state (reducer_event event) (record {
      event_id = event_id;
      ts_ns = event_ts_ns event;
      event_type = event_type_for_normalized event;
      package_id = some package_id;
      opportunity_id = none;
      relation_id = get state.relation_by_package package_id;
      payload = Fields.end;
      source = "executor";
      schema_version = pos 1;
    })

-- the loops over the ids that the venue did not agree on
unfoldable pub id_actions :
    RecoveryActionType → ReconstructedExecutorState → List String → List RecoveryAction
id_actions action_type state [] = []
id_actions action_type state (id ∷ ids) =
    record {
      action_type = action_type;
      package_id = find_package_by_client_order_id state id;
      client_order_id = some id;
    }
    ∷ id_actions action_type state ids

-- the loop over the events that the venue generated
unfoldable pub apply_generated :
    (event_id : ℕ → String)
    → ReconstructedExecutorState
    → List NormalizedOrderEvent
    → ReconstructedExecutorState × List RecoveryAction
apply_generated event_id state [] = (state, [])
apply_generated event_id state (event ∷ events) =
    let (final, actions) =
      apply_generated event_id (apply_normalized_event (event_id (length events)) state event)
        events in
    (
      final,
      record {
        action_type = RecoveryActionType.reconciled_event_applied;
        package_id = some (event_package_id (reducer_event event));
        client_order_id = some (event_client_order_id event);
      }
          ∷ actions,
    )

-- `expected_open_ids.update(additional)`
unfoldable pub add_all : List String → List String → List String
add_all ids [] = ids
add_all ids (id ∷ more) = add_all (add_to ids id) more

-- `recover`, on the state that the records gave
unfoldable pub recover_state :
    (event_id : ℕ → String)
    → (reconcile_open_orders : List String → ReconciliationResult) → (additional : List String)
    → (records_loaded : ℕ) → ReconstructedExecutorState
    → RecoveryResult
recover_state event_id reconcile_open_orders additional records_loaded state =
    let reconciliation =
      reconcile_open_orders (add_all (expected_open_client_order_ids state) additional) in
    let unknown =
      id_actions RecoveryActionType.unknown_open_order state
        reconciliation.unknown_open_client_order_ids in
    let missing =
      id_actions RecoveryActionType.missing_expected_order state
        reconciliation.missing_expected_client_order_ids in
    let (final, applied) = apply_generated event_id state reconciliation.generated_events in
    record {
      reconstructed_state = final;
      records_loaded = pos records_loaded;
      reconciliation = reconciliation;
      actions = unknown ++ missing ++ applied;
    }

module _ (python : Python) where
  -- `load_records`, on the lines of the storage
  unfoldable pub load_lines : (uuid : ℕ → String) → List Json → Decoded (List JournalRecord)
  load_lines uuid [] = ok []
  load_lines uuid (line ∷ lines) = loads python (uuid (length lines)) line >>= λ entry.
      load_lines uuid lines >>= λ rest. ok (entry ∷ rest)

  unfoldable pub recover :
      (uuid : ℕ → String)
      → (reconcile_open_orders : List String → ReconciliationResult) → (additional : List String)
      → (lines : List Json) → Decoded RecoveryResult
  recover uuid reconcile_open_orders additional lines = do
    entries ← load_lines uuid lines
    state ← reconstruct python entries
    ok (recover_state uuid reconcile_open_orders additional (length entries) state)
