-- ===== src/StateMachine/Effects.antt =====
-- What the helpers of executor/state_machine.py do to a package.
use polymarket_trade_executo.Common.{
  String, ◌≡◌, refl, subst, ◌⊎◌, inl, inr, Bool, true, false, List, [], ◌∷◌, ◌++◌, ap, arith,
  string_eq, Result, ok, Ensures, Ensures-ok, Ensures-err, Ensures-bind, ensures_rules, Bool-cases,
  eq_iff, ◌==◌,
}
use polymarket_trade_executo.Common.Int.{ℤ}
use polymarket_trade_executo.Common.Lists.{any, contains}
use polymarket_trade_executo.StateMachine.Types.{
  OrderState, order_rank_iff, Error, PackageState, PackageFailureReason, LegExecution,
  PackageExecution,
}
use polymarket_trade_executo.StateMachine.Tables.{order_allowed, package_allowed}
use polymarket_trade_executo.StateMachine.Package.{
  has_id, same_reason, find_leg, leg_by_id, assert_order_transition, append_leg, replace_in,
  replace_leg, move_package_state, set_failure_reason, recompute_from, recompute_package_state,
}
use polymarket_trade_executo.StateMachine.Handlers.{start_unwinding}
use polymarket_trade_executo.StateMachine.Evolves.{
  LegEvolves, LegEvolves-refl, IsFreshLeg, LegsEvolve, LegsEvolve-refl, LegsEvolve-append, stay,
  move, leg_ids, AreDistinct, Progress, Progress-refl, Evolves,
}

-- A checked transition is a self loop or an edge of the table.
pub assert_order_transition-ok :
    (s t : OrderState) (leg_id : String)
    → assert_order_transition s t leg_id ≡ ok tt
    → (t ≡ s) ⊎ (order_allowed s t ≡ true)
unfolding assert_order_transition
assert_order_transition-ok s t leg_id h = ground (arith, order_rank_iff s t)

move_to-Progress :
    (p : PackageExecution) (t : PackageState) (ts : ℤ)
    → package_allowed p.state t ≡ true
    → Progress p (record p { state = t; updated_ts_ns = ts })
move_to-Progress p t ts e = record {
  identity = ground arith;
  same_legs = refl;
  moves = move stay e;
}

pub move_package_state-Progress :
    (p : PackageExecution) (t : PackageState) (ts : ℤ)
    → Ensures (Progress p) (move_package_state p t ts)
unfolding move_package_state
move_package_state-Progress p t ts = search (ensures_rules, Progress-refl, move_to-Progress)

pub set_failure_reason-Progress :
    (p : PackageExecution) (r : PackageFailureReason) (ts : ℤ)
    → Progress p (set_failure_reason p r ts)
unfolding set_failure_reason
set_failure_reason-Progress p r ts = elim (Bool-cases (same_reason p.failure_reason r)) [
  | inl same ↦ rw same (Progress-refl p)
  | inr new ↦ rw new (record { identity = ground arith; same_legs = refl; moves = stay })
]

pub recompute_from-Progress :
    (p : PackageExecution) (ls : List LegExecution) (ts : ℤ)
    → Ensures (Progress p) (recompute_from p ls ts)
unfolding recompute_from
recompute_from-Progress p ls ts =
    search (ensures_rules, Progress-refl, move_package_state-Progress) depth 9

pub recompute-Progress :
    (p : PackageExecution) (ts : ℤ) → Ensures (Progress p) (recompute_package_state p ts)
unfolding recompute_package_state
recompute-Progress p ts = search (ensures_rules, Progress-refl, recompute_from-Progress) depth 9

pub start_unwinding-Progress :
    (c : Bool) (p : PackageExecution) (ts : ℤ) → Ensures (Progress p) (start_unwinding c p ts)
unfolding start_unwinding
start_unwinding-Progress c p ts = search (ensures_rules, Progress-refl, move_package_state-Progress)

-- A leg that is found has the id that was looked for.
pub leg_id-find_leg :
    (i : String) (ls : List LegExecution) (l : LegExecution) → find_leg i ls ≡ ok l → l.leg_id ≡ i
unfolding find_leg
leg_id-find_leg i [] l h = cc
leg_id-find_leg i (x ∷ ls) l h = ground (arith, eq_iff x.leg_id i, leg_id-find_leg i ls l)

pub found_here :
    (x l : LegExecution) → (let r : Result Error LegExecution = ok x in r ≡ ok l) → l ≡ x
found_here x l h = cc

-- What putting a leg into a list of legs leaves: every leg in its place, and the same ids.
abbrev pub Replaced : List LegExecution → List LegExecution → Type 0
Replaced ls ls' = LegsEvolve ls ls' × (leg_ids ls' ≡ leg_ids ls)

pub Replaced-here :
    (x u : LegExecution) (ls : List LegExecution) → LegEvolves x u → Replaced (x ∷ ls) (u ∷ ls)
Replaced-here x u ls ev = ((ev, LegsEvolve-refl ls), ap (λ i. i ∷ leg_ids ls) ev.same_id)

pub Replaced-there :
    (x : LegExecution) (ls ls' : List LegExecution) → Replaced ls ls' → Replaced (x ∷ ls) (x ∷ ls')
Replaced-there x ls ls' h = ((LegEvolves-refl x, h.0), ap (λ is. x.leg_id ∷ is) h.1)

-- The leg that is replaced is the one that a lookup finds.
pub replace_in-evolves :
    (ls : List LegExecution) (l u : LegExecution)
    → find_leg u.leg_id ls ≡ ok l
    → LegEvolves l u
    → Ensures (Replaced ls) (replace_in u ls)
unfolding find_leg replace_in
replace_in-evolves [] l u found ev = Ensures-err _
replace_in-evolves (x ∷ ls) l u found ev = elim (Bool-cases (has_id u.leg_id x)) [
  | inl e ↦ rw e (
      Ensures-ok (u ∷ ls)
        (Replaced-here x u ls (subst (λ y. LegEvolves y u) (found_here x l (rw e at found)) ev)))
  | inr e ↦ rw e (
      Ensures-bind (replace_in u ls) _ λ ls' back.
        Ensures-ok (x ∷ ls')
          (Replaced-there x ls ls' ((replace_in-evolves ls l u (rw e at found) ev).at ls' back)))
]

pub with_legs-Evolves :
    (p : PackageExecution) (ts : ℤ) (ls' : List LegExecution)
    → Replaced p.legs ls'
    → Evolves p (record p { legs = ls'; updated_ts_ns = ts })
with_legs-Evolves p ts ls' h = record {
  identity = ground arith;
  legs_evolve = h.0;
  moves = stay;
  keeps_distinct = λ d. rw h.1 d;
}

-- Putting the next state of a leg in its place is an evolution of the package.
pub replace_leg-Evolves :
    (p : PackageExecution) (l u : LegExecution) (ts : ℤ)
    → leg_by_id p u.leg_id ≡ ok l
    → LegEvolves l u
    → Ensures (Evolves p) (replace_leg p u ts)
unfolding leg_by_id replace_leg
replace_leg-Evolves p l u ts found ev = Ensures-bind (replace_in u p.legs) _ λ ls' back.
    Ensures-ok _ (with_legs-Evolves p ts ls' ((replace_in-evolves p.legs l u found ev).at ls' back))

contains-leg_ids-append :
    (ls : List LegExecution) (l x : LegExecution)
    → contains (leg_ids ls) x.leg_id ≡ false
    → (x.leg_id == l.leg_id) ≡ false
    → contains (leg_ids (ls ++ l ∷ [])) x.leg_id ≡ false
contains-leg_ids-append [] l x h e = ground arith
contains-leg_ids-append (y ∷ ls) l x h e = ground (arith, contains-leg_ids-append ls l x)

AreDistinct-append :
    (ls : List LegExecution) (l : LegExecution)
    → any (has_id l.leg_id) ls ≡ false
    → AreDistinct (leg_ids ls)
    → AreDistinct (leg_ids (ls ++ l ∷ []))
AreDistinct-append [] l h d = (refl, tt)
AreDistinct-append (x ∷ ls) l h d =
    ground (arith, contains-leg_ids-append ls l x, AreDistinct-append ls l)

pub append_leg-Evolves :
    (p : PackageExecution) (l : LegExecution) (ts : ℤ)
    → IsFreshLeg l
    → Ensures (Evolves p) (append_leg p l ts)
unfolding append_leg
append_leg-Evolves p l ts fresh = elim (Bool-cases (any (has_id l.leg_id) p.legs)) [
  | inl taken ↦ rw taken (Ensures-err _)
  | inr free ↦ rw free (
      Ensures-ok _ (record {
        identity = ground arith;
        legs_evolve = LegsEvolve-append p.legs l fresh;
        moves = stay;
        keeps_distinct = AreDistinct-append p.legs l free;
      }))
]
