-- ===== src/StateMachine/Terminal.antt =====
-- Terminal packages and the emergency halt (executor/state_machine.py).
use polymarket_trade_executo.Common.{
  String, ◌≡◌, refl, ◌∙◌, ◌≢◌, ◌⊎◌, inl, inr, Bool, true, false, not, ◌&&◌, List, [], ◌∷◌, map,
  some, arith, ok, err, raise_if, ◌==◌, string_eq, Bool-cases, Result-cases, ◌>>◌, if◌then◌else◌,
  eq_iff,
}
use polymarket_trade_executo.Common.Int.{ℤ}
use polymarket_trade_executo.StateMachine.Types.{
  OrderState, PackageState, LegExecution, PackageExecution, Error, state_transition,
  package_terminal, package_transition, order_state_eq, package_state_eq, package_rank_iff,
  FailureCode,
}
use polymarket_trade_executo.StateMachine.Events.{StateMachineEvent, PackageEvent, event_package_id}
use polymarket_trade_executo.StateMachine.Tables.{
  order_allowed, package_allowed, is_terminal_package, is_terminal_order,
}
use polymarket_trade_executo.StateMachine.Package.{
  Raises, validate_package_match, assert_order_transition, move_package_state, set_failure_reason,
}
use polymarket_trade_executo.StateMachine.Handlers.{halt_legs, on_emergency_halt, package_failure}
use polymarket_trade_executo.StateMachine.Reducer.{dispatch, is_halt, apply_event, apply_events}
use polymarket_trade_executo.StateMachine.Evolves.{Moves, stay, move}
use polymarket_trade_executo.StateMachine.Transitions.{apply_events-Moves}

terminal-no_edge : (s t : PackageState) → is_terminal_package s ≡ true → package_allowed s t ≡ false
unfolding is_terminal_package package_allowed
terminal-no_edge s t h = ground arith

Moves-terminal : {s t : PackageState} → Moves s t → is_terminal_package s ≡ true → t ≡ s
Moves-terminal stay h = refl
Moves-terminal {s = s} (move {t} {u} m e) h =
    let back : t ≡ s = Moves-terminal m h in
    let none_left : package_allowed t u ≡ false = rw back (terminal-no_edge s u h) in cc

-- A terminal package stays in its state whatever events follow.
pub terminal_absorbs :
    (p p' : PackageExecution) (es : List StateMachineEvent)
    → is_terminal_package p.state ≡ true
    → apply_events p es ≡ ok p'
    → p'.state ≡ p.state
terminal_absorbs p p' es h run = Moves-terminal (apply_events-Moves p p' es run) h

-- What the emergency halt makes of a leg: a terminal leg stays, any other is HALTED.
abbrev pub frozen : ℤ → LegExecution → LegExecution
frozen ts l =
    if is_terminal_order l.state
    then l
    else record l { state = OrderState.halted; done_ts_ns = some ts }

halt-allowed :
    (s : OrderState) (i : String)
    → is_terminal_order s ≡ false
    → assert_order_transition s OrderState.halted i ≡ ok tt
unfolding is_terminal_order assert_order_transition order_allowed
halt-allowed s i h = ground arith

-- Every state that is not terminal may go to HALTED, so the loop never raises.
pub halt_legs-eq : (ts : ℤ) (ls : List LegExecution) → halt_legs ts ls ≡ ok (map (frozen ts) ls)
unfolding halt_legs
halt_legs-eq ts [] = refl
halt_legs-eq ts (l ∷ ls) = elim (Bool-cases (is_terminal_order l.state)) [
  | inl c ↦ rw (c, halt_legs-eq ts ls)
  | inr c ↦ rw (c, halt-allowed l.state l.leg_id c, halt_legs-eq ts ls)
]

-- the end of `_on_emergency_halt`
abbrev finish_halt : PackageExecution → ℤ → Raises PackageExecution
finish_halt q ts =
    if q.state == PackageState.halted then ok q else move_package_state q PackageState.halted ts

finish_halt-refused :
    (q : PackageExecution) (ts : ℤ)
    → is_terminal_package q.state ≡ true
    → (q.state == PackageState.halted) ≡ false
    → finish_halt q ts ≡ err (state_transition (package_transition q.state PackageState.halted))
unfolding move_package_state
finish_halt-refused q ts h not_halted =
    rw (not_halted, terminal-no_edge q.state PackageState.halted h)

halt_open :
    (s : PackageState)
    → is_terminal_package s ≡ false
    → package_allowed s PackageState.halted ≡ true
unfolding is_terminal_package package_allowed
halt_open s h = ground arith

finish_halt-total :
    (q : PackageExecution) (ts : ℤ)
    → (is_terminal_package q.state ≡ false) ⊎ (q.state ≡ PackageState.halted)
    → (p' : PackageExecution) × (finish_halt q ts ≡ ok p')
      × (p'.state ≡ PackageState.halted)
      × (p'.legs ≡ q.legs)
unfolding move_package_state
finish_halt-total q ts (inr e) = (q, rw e, e, refl)
finish_halt-total q ts (inl h) = elim (Bool-cases (q.state == PackageState.halted)) [
  | inl same ↦ (q, rw same, (package_rank_iff _ _).0 same, refl)
  | inr differ ↦ (
    record q { state = PackageState.halted; updated_ts_ns = ts },
    rw (differ, halt_open q.state h),
    refl,
    refl,
  )
]

-- the package as `_on_emergency_halt` marks it
abbrev halt_marked : PackageExecution → PackageEvent → PackageExecution
halt_marked p e =
    set_failure_reason (record p { legs = map (frozen e.ts_ns) p.legs; updated_ts_ns = e.ts_ns })
      (package_failure FailureCode.emergency_halt e) e.ts_ns

state-halt_marked : (p : PackageExecution) (e : PackageEvent) → (halt_marked p e).state ≡ p.state
unfolding set_failure_reason
state-halt_marked p e = ground arith

legs-halt_marked :
    (p : PackageExecution) (e : PackageEvent) → (halt_marked p e).legs ≡ map (frozen e.ts_ns) p.legs
unfolding set_failure_reason
legs-halt_marked p e = ground arith

on_emergency_halt-eq :
    (p : PackageExecution) (e : PackageEvent)
    → on_emergency_halt p e ≡ finish_halt (halt_marked p e) e.ts_ns
unfolding on_emergency_halt
on_emergency_halt-eq p e = rw (halt_legs-eq e.ts_ns p.legs)

and-false : (b : Bool) → b && false ≡ false
and-false b = ground arith

-- The emergency halt of a package that is HALTED or not yet terminal always goes through: the
-- package is HALTED, every leg that was not terminal is HALTED, and the others are as they were.
pub emergency_halt-total :
    (p : PackageExecution) (e : PackageEvent)
    → p.package_id ≡ e.package_id
    → (is_terminal_package p.state ≡ false) ⊎ (p.state ≡ PackageState.halted)
    → (p' : PackageExecution) × (apply_event p (StateMachineEvent.emergency_halt e) ≡ ok p')
      × (p'.state ≡ PackageState.halted)
      × (p'.legs ≡ map (frozen e.ts_ns) p.legs)
unfolding apply_event validate_package_match event_package_id dispatch
emergency_halt-total p e same open_or_halted =
    let state_kept = state-halt_marked p e in
    let (p', finished, state_is, legs_are) =
      finish_halt-total (halt_marked p e) e.ts_ns (rw state_kept open_or_halted) in
    (
      p',
      rw ((eq_iff _ _).1 same, and-false (is_terminal_package p.state), on_emergency_halt-eq p e)
          finished,
      state_is,
      legs_are ∙ legs-halt_marked p e,
    )

-- `apply_event` below the test of the package id
abbrev guarded_dispatch : PackageExecution → StateMachineEvent → Raises PackageExecution
guarded_dispatch p e =
    raise_if (is_terminal_package p.state && not (is_halt e))
      (state_transition (package_terminal p.state))
    >> dispatch p e

terminal-guard :
    (p : PackageExecution) (e : StateMachineEvent)
    → is_terminal_package p.state ≡ true
    → is_halt e ≡ false
    → (x : Error) × (guarded_dispatch p e ≡ err x)
terminal-guard p e terminal other =
    (state_transition (package_terminal p.state), rw (terminal, other))

guarded-refuses :
    (p : PackageExecution) (e : StateMachineEvent)
    → is_terminal_package p.state ≡ true
    → (p.state == PackageState.halted) ≡ false
    → (x : Error) × (guarded_dispatch p e ≡ err x)
unfolding is_halt dispatch
guarded-refuses p (StateMachineEvent.emergency_halt e) terminal not_halted =
    let q = halt_marked p e in
    let kept = state-halt_marked p e in
    (
      state_transition (package_transition q.state PackageState.halted),
      rw (and-false (is_terminal_package p.state), on_emergency_halt-eq p e)
          (finish_halt-refused q e.ts_ns (rw kept terminal) (rw kept not_halted)),
    )
guarded-refuses p other terminal h = terminal-guard p other terminal refl

-- A package that is COMPLETED, ABORTED_UNWOUND or FAILED refuses every event, the emergency halt
-- included: `apply_event` raises.
pub closed-refuses :
    (p : PackageExecution) (e : StateMachineEvent)
    → is_terminal_package p.state ≡ true
    → p.state ≢ PackageState.halted
    → (x : Error) × (apply_event p e ≡ err x)
unfolding apply_event
closed-refuses p e terminal not_halted =
    elim (Result-cases (validate_package_match p (event_package_id e))) [
      | inl (passed, good) ↦ rw good (
          guarded-refuses p e terminal
            (ground (arith, package_rank_iff p.state PackageState.halted)))
      | inr (x, bad) ↦ (x, rw bad)
    ]
