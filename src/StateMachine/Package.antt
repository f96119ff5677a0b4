-- ===== src/StateMachine/Package.antt =====
-- executor/state_machine.py: create_package_execution, leg_by_id and the private helpers that the
-- handlers share. A function that may raise returns a `Result`; `replace` is a record update.
use polymarket_trade_executo.Common.{
  String, Bool, false, not, ◌||◌, Option, none, some, List, [], ◌∷◌, ◌++◌, map, Result, ok, err,
  ◌>>=◌, ◌>>◌, raise_if, ◌==◌, string_eq, if◌then◌else◌,
}
use polymarket_trade_executo.Common.Int.{ℤ, pos, leb_ℤ, ltb_ℤ}
use polymarket_trade_executo.Common.Lists.{any, all, filter, contains, is_empty}
use polymarket_trade_executo.StateMachine.Types.{
  OrderState, PackageState, PackageFailureReason, LegExecution, PackageExecution, Error, EventFault,
  event_validation, state_transition, package_transition, leg_transition, empty_package_id,
  empty_opportunity_id, no_legs, duplicate_leg_id, intended_qty_not_positive,
  limit_price_not_positive, not_new, unknown_leg_id, no_client_order_id, client_order_mismatch,
  package_mismatch, no_intended_legs, order_state_eq, package_state_eq, failure_reason_eqb,
}
use polymarket_trade_executo.StateMachine.Tables.{
  is_terminal_package, is_live_order, order_allowed, package_allowed,
}

abbrev pub Raises : Type 0 → Type 0
Raises A = Result Error A

abbrev pub invalid {ℓ} : {A : Type ℓ} → EventFault → Result Error A
invalid fault = err (event_validation fault)

-- `existing.leg_id == leg_id`
abbrev pub has_id : String → LegExecution → Bool
has_id leg_id leg = leg.leg_id == leg_id

-- the loop of `create_package_execution`; `seen` is `seen_leg_ids`
unfoldable pub check_legs : List String → List LegExecution → Raises (Unit {0})
check_legs seen [] = ok tt
check_legs seen (leg ∷ legs) =
    raise_if (contains seen leg.leg_id) (event_validation (duplicate_leg_id leg.leg_id))
    >> (raise_if (leb_ℤ leg.intended_qty (pos 0))
          (event_validation (intended_qty_not_positive leg.leg_id))
        >> (raise_if (leb_ℤ leg.limit_price_ticks (pos 0))
              (event_validation (limit_price_not_positive leg.leg_id))
            >> (raise_if (not (leg.state == OrderState.new)) (event_validation (not_new leg.leg_id))
                >> check_legs (leg.leg_id ∷ seen) legs)))

unfoldable pub create_package_execution :
    String → String → ℤ → List LegExecution → Raises PackageExecution
unfolding check_legs
create_package_execution package_id opportunity_id created_ts_ns legs = do
  raise_if (package_id == "") (event_validation empty_package_id)
  raise_if (opportunity_id == "") (event_validation empty_opportunity_id)
  raise_if (is_empty legs) (event_validation no_legs)
  check_legs [] legs
  ok (record {
    package_id = package_id;
    opportunity_id = opportunity_id;
    created_ts_ns = created_ts_ns;
    updated_ts_ns = created_ts_ns;
    state = PackageState.new;
    intended_leg_ids = map (λ leg. leg.leg_id) legs;
    legs = legs;
    failure_reason = none;
  })

-- the loop of `leg_by_id`
unfoldable pub find_leg : String → List LegExecution → Raises LegExecution
find_leg leg_id [] = invalid (unknown_leg_id leg_id)
find_leg leg_id (leg ∷ legs) = if has_id leg_id leg then ok leg else find_leg leg_id legs

unfoldable pub leg_by_id : PackageExecution → String → Raises LegExecution
leg_by_id pkg leg_id = find_leg leg_id pkg.legs

unfoldable pub assert_order_transition : OrderState → OrderState → String → Raises (Unit {0})
assert_order_transition current target leg_id =
    if current == target
    then ok tt
    else if order_allowed current target
    then ok tt
    else err (state_transition (leg_transition leg_id current target))

unfoldable pub assert_client_order_match : LegExecution → String → Raises (Unit {0})
assert_client_order_match leg client_order_id = elim leg.client_order_id [
  | none ↦ invalid (no_client_order_id leg.leg_id)
  | some expected ↦
      raise_if (not (expected == client_order_id))
        (event_validation (client_order_mismatch leg.leg_id))
]

unfoldable pub validate_package_match : PackageExecution → String → Raises (Unit {0})
validate_package_match pkg event_package_id =
    raise_if (not (pkg.package_id == event_package_id)) (event_validation package_mismatch)

unfoldable pub append_leg : PackageExecution → LegExecution → ℤ → Raises PackageExecution
append_leg pkg leg ts_ns =
    if any (has_id leg.leg_id) pkg.legs
    then invalid (duplicate_leg_id leg.leg_id)
    else ok (record pkg { legs = pkg.legs ++ leg ∷ []; updated_ts_ns = ts_ns })

-- the loop of `_replace_leg`: the first leg with the id of `updated` makes way for it
unfoldable pub replace_in : LegExecution → List LegExecution → Raises (List LegExecution)
replace_in updated [] = invalid (unknown_leg_id updated.leg_id)
replace_in updated (leg ∷ legs) =
    let rest = replace_in updated legs in
    if has_id updated.leg_id leg then ok (updated ∷ legs) else (rest >>= λ ls. ok (leg ∷ ls))

unfoldable pub replace_leg : PackageExecution → LegExecution → ℤ → Raises PackageExecution
replace_leg pkg updated ts_ns =
    replace_in updated pkg.legs >>= λ legs. ok (record pkg { legs = legs; updated_ts_ns = ts_ns })

unfoldable pub move_package_state : PackageExecution → PackageState → ℤ → Raises PackageExecution
move_package_state pkg target ts_ns =
    if pkg.state == target
    then ok pkg
    else if package_allowed pkg.state target
    then ok (record pkg { state = target; updated_ts_ns = ts_ns })
    else err (state_transition (package_transition pkg.state target))

-- `package.failure_reason == reason`
abbrev pub same_reason : Option PackageFailureReason → PackageFailureReason → Bool
same_reason none reason = false
same_reason (some old) reason = failure_reason_eqb old reason

unfoldable pub set_failure_reason : PackageExecution → PackageFailureReason → ℤ → PackageExecution
set_failure_reason pkg reason ts_ns =
    if same_reason pkg.failure_reason reason
    then pkg
    else record pkg { failure_reason = some reason; updated_ts_ns = ts_ns }

unfoldable pub intended_legs : PackageExecution → List LegExecution
intended_legs pkg = filter (λ leg. contains pkg.intended_leg_ids leg.leg_id) pkg.legs

abbrev pub is_filled : LegExecution → Bool
is_filled leg = leg.state == OrderState.filled

abbrev pub is_failure : LegExecution → Bool
is_failure leg = leg.state == OrderState.rejected || leg.state == OrderState.timed_out

abbrev pub is_live : LegExecution → Bool
is_live leg = is_live_order leg.state

abbrev pub has_fill : LegExecution → Bool
has_fill leg = ltb_ℤ (pos 0) leg.filled_qty

abbrev pub is_started : LegExecution → Bool
is_started leg = not (leg.state == OrderState.new)

-- `package.state in {UNWIND_REQUIRED, UNWINDING}`
abbrev pub is_unwind_state : PackageState → Bool
is_unwind_state s = s == PackageState.unwind_required || s == PackageState.unwinding

-- the part of `_recompute_package_state` below the guards, on the intended legs
unfoldable pub recompute_from : PackageExecution → List LegExecution → ℤ → Raises PackageExecution
recompute_from pkg intended ts_ns =
    if all is_filled intended
    then move_package_state pkg PackageState.completed ts_ns
    else if any is_failure intended
    then (if any has_fill intended || any is_live intended
        then (if pkg.state == PackageState.unwinding
            then ok pkg
            else move_package_state pkg PackageState.unwind_required ts_ns)
        else move_package_state pkg PackageState.failed ts_ns)
    else if any is_started intended
    then (if is_unwind_state pkg.state
        then ok pkg
        else move_package_state pkg PackageState.executing ts_ns)
    else ok pkg

-- The second guard of the source, on HALTED, repeats a part of the first.
unfoldable pub recompute_package_state : PackageExecution → ℤ → Raises PackageExecution
recompute_package_state pkg ts_ns =
    if is_terminal_package pkg.state
    then ok pkg
    else if pkg.state == PackageState.halted
    then ok pkg
    else if is_empty (intended_legs pkg)
    then invalid no_intended_legs
    else recompute_from pkg (intended_legs pkg) ts_ns
