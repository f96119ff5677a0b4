-- ===== src/StateMachine/Evolves.antt =====
-- How a package may change: the relations that every handler of executor/state_machine.py keeps to.
use polymarket_trade_executo.Common.{
  String, ◌≡◌, refl, ◌∙◌, ◌⊎◌, inl, true, false, List, [], ◌∷◌, ◌++◌, map, arith, string_eq,
}
use polymarket_trade_executo.Common.Int.{pos, ◌≤ℤ◌, ◌<ℤ◌}
use polymarket_trade_executo.Common.Lists.{All, contains}
use polymarket_trade_executo.StateMachine.Types.{
  OrderState, PackageState, LegExecution, PackageExecution,
}
use polymarket_trade_executo.StateMachine.Tables.{order_allowed, package_allowed}

-- A leg between two events.
pub record IsSoundLeg (l : LegExecution) : Type 0 where
  pub positive : pos 0 <ℤ l.intended_qty
  pub nonneg : pos 0 ≤ℤ l.filled_qty
  pub no_overfill : l.is_unwind_leg ≡ false → l.filled_qty ≤ℤ l.intended_qty
  pub filled_in_full : l.state ≡ OrderState.filled → l.intended_qty ≤ℤ l.filled_qty
  pub new_unfilled : l.state ≡ OrderState.new → l.filled_qty ≡ pos 0

-- One event takes a leg from `l` to `l'`.
pub record LegEvolves (l l' : LegExecution) : Type 0 where
  pub same_id : l'.leg_id ≡ l.leg_id
  pub same_unwind : l'.is_unwind_leg ≡ l.is_unwind_leg
  pub step : (l'.state ≡ l.state) ⊎ (order_allowed l.state l'.state ≡ true)
  pub filled_grows : l.filled_qty ≤ℤ l'.filled_qty
  pub keeps_sound : IsSoundLeg l → IsSoundLeg l'

pub LegEvolves-refl : (l : LegExecution) → LegEvolves l l
LegEvolves-refl l = record {
  same_id = refl;
  same_unwind = refl;
  step = inl refl;
  filled_grows = omega arith;
  keeps_sound = λ h. h;
}

-- A leg that an event brought in.
pub record IsFreshLeg (l : LegExecution) : Type 0 where
  pub is_unwind : l.is_unwind_leg ≡ true
  pub submitted : l.state ≡ OrderState.pending_ack
  pub sound : IsSoundLeg l

-- Every leg stays in its place and evolves; legs may come in at the end.
abbrev pub LegsEvolve : List LegExecution → List LegExecution → Type 0
LegsEvolve [] news = All IsFreshLeg news
LegsEvolve (l ∷ ls) [] = ⊥
LegsEvolve (l ∷ ls) (l' ∷ ls') = LegEvolves l l' × LegsEvolve ls ls'

pub LegsEvolve-refl : (ls : List LegExecution) → LegsEvolve ls ls
LegsEvolve-refl [] = tt
LegsEvolve-refl (l ∷ ls) = (LegEvolves-refl l, LegsEvolve-refl ls)

pub LegsEvolve-append :
    (ls : List LegExecution) (l : LegExecution) → IsFreshLeg l → LegsEvolve ls (ls ++ l ∷ [])
LegsEvolve-append [] l h = (h, tt)
LegsEvolve-append (x ∷ ls) l h = (LegEvolves-refl x, LegsEvolve-append ls l h)

-- The package state moves along PACKAGE_TRANSITIONS.
pub data Moves (s : PackageState) : PackageState → Type 0 where
  stay : Moves s s
  move : {t u : PackageState} → Moves s t → package_allowed t u ≡ true → Moves s u

pub Moves-trans : {s t u : PackageState} → Moves s t → Moves t u → Moves s u
Moves-trans m stay = m
Moves-trans m (move n e) = move (Moves-trans m n) e

abbrev pub leg_ids : List LegExecution → List String
leg_ids ls = map (λ l. l.leg_id) ls

-- No id occurs twice.
abbrev pub AreDistinct : List String → Type 0
AreDistinct [] = Unit
AreDistinct (x ∷ xs) = (contains xs x ≡ false) × AreDistinct xs

-- What never changes in a package.
pub record SameIdentity (p p' : PackageExecution) : Type 0 where
  pub same_package_id : p'.package_id ≡ p.package_id
  pub same_opportunity_id : p'.opportunity_id ≡ p.opportunity_id
  pub same_created : p'.created_ts_ns ≡ p.created_ts_ns
  pub same_intended : p'.intended_leg_ids ≡ p.intended_leg_ids

-- Only the package state, the failure reason and the time of update change.
pub record Progress (p p' : PackageExecution) : Type 0 where
  pub identity : SameIdentity p p'
  pub same_legs : p'.legs ≡ p.legs
  pub moves : Moves p.state p'.state

-- One event takes a package from `p` to `p'`.
pub record Evolves (p p' : PackageExecution) : Type 0 where
  pub identity : SameIdentity p p'
  pub legs_evolve : LegsEvolve p.legs p'.legs
  pub moves : Moves p.state p'.state
  pub keeps_distinct : AreDistinct (leg_ids p.legs) → AreDistinct (leg_ids p'.legs)

pub SameIdentity-refl : (p : PackageExecution) → SameIdentity p p
SameIdentity-refl p = ground arith

pub SameIdentity-trans :
    (p q r : PackageExecution) → SameIdentity p q → SameIdentity q r → SameIdentity p r
SameIdentity-trans p q r a b = ground arith

pub Progress-refl : (p : PackageExecution) → Progress p p
Progress-refl p = record { identity = SameIdentity-refl p; same_legs = refl; moves = stay }

pub Progress-trans : (p q r : PackageExecution) → Progress p q → Progress q r → Progress p r
Progress-trans p q r a b = record {
  identity = SameIdentity-trans p q r a.identity b.identity;
  same_legs = b.same_legs ∙ a.same_legs;
  moves = Moves-trans a.moves b.moves;
}

pub Evolves-refl : (p : PackageExecution) → Evolves p p
Evolves-refl p = record {
  identity = SameIdentity-refl p;
  legs_evolve = LegsEvolve-refl p.legs;
  moves = stay;
  keeps_distinct = λ h. h;
}

-- What follows an evolution and leaves the legs alone continues it.
pub Evolves-Progress : (p q r : PackageExecution) → Evolves p q → Progress q r → Evolves p r
Evolves-Progress p q r a b = record {
  identity = SameIdentity-trans p q r a.identity b.identity;
  legs_evolve = rw b.same_legs a.legs_evolve;
  moves = Moves-trans a.moves b.moves;
  keeps_distinct = λ h. rw b.same_legs (a.keeps_distinct h);
}

pub Progress-Evolves : (p q : PackageExecution) → Progress p q → Evolves p q
Progress-Evolves p q h = Evolves-Progress p p q (Evolves-refl p) h
