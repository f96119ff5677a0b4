-- ===== src/StateMachine/Settled.antt =====
-- `_recompute_package_state` of executor/state_machine.py: how the package state reflects the legs.
use polymarket_trade_executo.Common.{
  ◌≡◌, ◌≢◌, refl, Bool, true, false, ◌||◌, List, arith, ok, Ensures, Ensures-ok, Ensures-err,
  Ensures-if, Ensures-bind, ◌==◌, string_eq, ◌>>=◌,
}
use polymarket_trade_executo.Common.Int.{ℤ}
use polymarket_trade_executo.Common.Lists.{is_empty, any, all}
use polymarket_trade_executo.StateMachine.Types.{
  PackageState, LegExecution, PackageExecution, PackageFailureReason, package_state_eq,
  package_rank_iff, order_state_eq,
}
use polymarket_trade_executo.StateMachine.Tables.{is_terminal_package}
use polymarket_trade_executo.StateMachine.Package.{
  is_filled, is_failure, intended_legs, has_id, replace_in, replace_leg, append_leg,
  move_package_state, set_failure_reason, recompute_from, recompute_package_state,
}
use polymarket_trade_executo.StateMachine.Handlers.{start_unwinding, replace_and_recompute}
use polymarket_trade_executo.StateMachine.Evolves.{Progress}
use polymarket_trade_executo.StateMachine.Effects.{recompute_from-Progress}

-- the states before any failure or completion
abbrev pub is_open : PackageState → Bool
is_open s = s == PackageState.new || s == PackageState.executing

-- What the package state says of the intended legs.
pub record IsSettled (q : PackageExecution) : Type 0 where
  pub completed_means : q.state ≡ PackageState.completed → all is_filled (intended_legs q) ≡ true
  pub open_not_filled : is_open q.state ≡ true → all is_filled (intended_legs q) ≡ false
  pub open_not_failed : is_open q.state ≡ true → any is_failure (intended_legs q) ≡ false

-- the same of a list of legs
abbrev Reflects : PackageState → List LegExecution → Type 0
Reflects s ls =
    (s ≡ PackageState.completed → all is_filled ls ≡ true)
    × (is_open s ≡ true → all is_filled ls ≡ false)
    × (is_open s ≡ true → any is_failure ls ≡ false)

recompute_from-Reflects :
    (p q : PackageExecution) (ls : List LegExecution) (ts : ℤ)
    → is_terminal_package p.state ≡ false
    → recompute_from p ls ts ≡ ok q
    → Reflects q.state ls
unfolding recompute_from move_package_state is_terminal_package
recompute_from-Reflects p q ls ts h e = (ground arith, ground arith, ground arith)

pub intended_legs-Progress :
    (p q : PackageExecution) → Progress p q → intended_legs q ≡ intended_legs p
unfolding intended_legs
intended_legs-Progress p q pr = rw (pr.same_legs, pr.identity.same_intended)

pub open-not_halted :
    (s : PackageState) → is_terminal_package s ≡ false → (s == PackageState.halted) ≡ false
unfolding is_terminal_package
open-not_halted s h = ground arith

Reflects-IsSettled :
    (p q : PackageExecution) → Progress p q → Reflects q.state (intended_legs p) → IsSettled q
Reflects-IsSettled p q pr (completed, not_filled, not_failed) =
    let same = intended_legs-Progress p q pr in
    record {
      completed_means = rw same completed;
      open_not_filled = rw same not_filled;
      open_not_failed = rw same not_failed;
    }

recompute_from-IsSettled :
    (p : PackageExecution) (ts : ℤ)
    → is_terminal_package p.state ≡ false
    → Ensures IsSettled (recompute_from p (intended_legs p) ts)
recompute_from-IsSettled p ts h = record {
  at = λ q e.
      Reflects-IsSettled p q ((recompute_from-Progress p (intended_legs p) ts).at q e)
        (recompute_from-Reflects p q (intended_legs p) ts h e);
}

-- After a recomputation the package state reflects the legs.
pub recompute-IsSettled :
    (p : PackageExecution) (ts : ℤ)
    → is_terminal_package p.state ≡ false
    → Ensures IsSettled (recompute_package_state p ts)
unfolding recompute_package_state
recompute-IsSettled p ts h =
    rw (h, open-not_halted p.state h)
      (Ensures-if (is_empty (intended_legs p)) _ _ (λ _. Ensures-err _)
        λ _. recompute_from-IsSettled p ts h)

abbrev IsOpenEnded : PackageExecution → Type 0
IsOpenEnded q = is_terminal_package q.state ≡ false

pub replace_leg-state :
    (p : PackageExecution) (u : LegExecution) (ts : ℤ)
    → Ensures (λ q. q.state ≡ p.state) (replace_leg p u ts)
unfolding replace_leg
replace_leg-state p u ts = Ensures-bind (replace_in u p.legs) _ λ ls _. Ensures-ok _ refl

pub append_leg-state :
    (p : PackageExecution) (u : LegExecution) (ts : ℤ)
    → Ensures (λ q. q.state ≡ p.state) (append_leg p u ts)
unfolding append_leg
append_leg-state p u ts =
    Ensures-if (any (has_id u.leg_id) p.legs) _ _ (λ _. Ensures-err _) λ _. Ensures-ok _ refl

start_unwinding-open :
    (c : Bool) (p q : PackageExecution) (ts : ℤ)
    → IsOpenEnded p
    → start_unwinding c p ts ≡ ok q
    → IsOpenEnded q
unfolding start_unwinding move_package_state is_terminal_package
start_unwinding-open c p q ts h e = ground arith

-- Where a handler ends by recomputing, what it returns is settled.
module _ (p : PackageExecution) (open_ended : is_terminal_package p.state ≡ false) where
  pub replace_and_recompute-IsSettled :
      (u : LegExecution) (ts : ℤ) → Ensures IsSettled (replace_and_recompute p u ts)
  unfolding replace_and_recompute
  replace_and_recompute-IsSettled u ts =
      Ensures-bind (replace_leg p u ts) _
        λ q e. recompute-IsSettled q ts (rw ((replace_leg-state p u ts).at q e) open_ended)

  pub mark_and_recompute-IsSettled :
      (u : LegExecution) (r : PackageFailureReason) (ts : ℤ)
      → Ensures IsSettled
          (replace_leg p u ts >>= λ q. recompute_package_state (set_failure_reason q r ts) ts)
  unfolding set_failure_reason
  mark_and_recompute-IsSettled u r ts = Ensures-bind (replace_leg p u ts) _ λ q e.
      recompute-IsSettled (set_failure_reason q r ts) ts
        (ground (arith, (replace_leg-state p u ts).at q e))

  pub unwind_and_recompute-IsSettled :
      (q : PackageExecution) (c : Bool) (ts : ℤ)
      → q.state ≡ p.state
      → Ensures IsSettled (start_unwinding c q ts >>= λ r. recompute_package_state r ts)
  unwind_and_recompute-IsSettled q c ts same =
      Ensures-bind (start_unwinding c q ts) _
        λ r e. recompute-IsSettled r ts (start_unwinding-open c q r ts (rw same open_ended) e)

-- A package that is moved to a state of failure or unwinding is settled.
pub moved-IsSettled :
    (q : PackageExecution)
    → q.state ≢ PackageState.completed
    → is_open q.state ≡ false
    → IsSettled q
moved-IsSettled q not_completed not_open = record {
  completed_means = λ e. absurd (not_completed e);
  open_not_filled = λ e. cc;
  open_not_failed = λ e. cc;
}

pub move_package_state-target :
    (p q : PackageExecution) (t : PackageState) (ts : ℤ)
    → move_package_state p t ts ≡ ok q
    → q.state ≡ t
unfolding move_package_state
move_package_state-target p q t ts e = ground (arith, package_rank_iff p.state t)

pub move-IsSettled :
    (p : PackageExecution) (t : PackageState) (ts : ℤ)
    → t ≢ PackageState.completed
    → is_open t ≡ false
    → Ensures IsSettled (move_package_state p t ts)
move-IsSettled p t ts not_completed not_open = record {
  at = λ q e.
      let there = move_package_state-target p q t ts e in
      moved-IsSettled q (rw there not_completed) (rw there not_open);
}
