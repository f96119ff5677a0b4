-- ===== src/StateMachine/Creation.antt =====
-- `create_package_execution` of executor/state_machine.py: which packages it makes.
use polymarket_trade_executo.Common.{
  String, ◌≡◌, ◌≢◌, refl, sym, subst, none, ◌↔◌, false, List, [], ◌∷◌, arith, ok, string_eq, eq_iff,
}
use polymarket_trade_executo.Common.Int.{ℤ, pos, ◌<ℤ◌}
use polymarket_trade_executo.Common.Lists.{All, contains}
use polymarket_trade_executo.StateMachine.Types.{
  OrderState, PackageState, LegExecution, PackageExecution, order_rank_iff,
}
use polymarket_trade_executo.StateMachine.Package.{check_legs, create_package_execution}
use polymarket_trade_executo.StateMachine.Evolves.{IsSoundLeg, leg_ids, AreDistinct}
use polymarket_trade_executo.StateMachine.Transitions.{IsSound}

-- What the loop asks of one leg.
pub record IsNewLeg (l : LegExecution) : Type 0 where
  pub positive_qty : pos 0 <ℤ l.intended_qty
  pub positive_price : pos 0 <ℤ l.limit_price_ticks
  pub not_started : l.state ≡ OrderState.new

abbrev Unseen : List String → List LegExecution → Type 0
Unseen seen ls = All (λ l. contains seen l.leg_id ≡ false) ls

unsee :
    (i : String) (seen : List String) (ls : List LegExecution)
    → Unseen (i ∷ seen) ls
    → (contains (leg_ids ls) i ≡ false) × Unseen seen ls
unsee i seen [] h = (refl, tt)
unsee i seen (l ∷ ls) h = ground (arith, eq_iff i l.leg_id, eq_iff l.leg_id i, unsee i seen ls h.1)

see :
    (i : String) (seen : List String) (ls : List LegExecution)
    → contains (leg_ids ls) i ≡ false
    → Unseen seen ls
    → Unseen (i ∷ seen) ls
see i seen [] h k = tt
see i seen (l ∷ ls) h k = ground (arith, eq_iff i l.leg_id, eq_iff l.leg_id i, see i seen ls)

check_legs-passes :
    (seen : List String) (ls : List LegExecution)
    → check_legs seen ls ≡ ok tt
    → All IsNewLeg ls × AreDistinct (leg_ids ls) × Unseen seen ls
unfolding check_legs
check_legs-passes seen [] h = (tt, tt, tt)
check_legs-passes seen (l ∷ ls) h =
    let (rest_new, rest_distinct, rest_unseen) =
      check_legs-passes (l.leg_id ∷ seen) ls (ground arith) in
    let (l_alone, unseen) = unsee l.leg_id seen ls rest_unseen in
    (
      (
        record {
          positive_qty = ground arith;
          positive_price = ground arith;
          not_started = ground (arith, order_rank_iff l.state OrderState.new);
        },
        rest_new,
      ),
      (l_alone, rest_distinct),
      (ground arith, unseen),
    )

passes-check_legs :
    (seen : List String) (ls : List LegExecution)
    → All IsNewLeg ls
    → AreDistinct (leg_ids ls)
    → Unseen seen ls
    → check_legs seen ls ≡ ok tt
unfolding check_legs
passes-check_legs seen [] n d u = refl
passes-check_legs seen (l ∷ ls) n d u =
    let rest = passes-check_legs (l.leg_id ∷ seen) ls n.1 d.1 (see l.leg_id seen ls d.0 u.1) in
    ground (arith, n.0.positive_qty, n.0.positive_price, n.0.not_started)

-- What `create_package_execution` asks of its arguments.
pub record IsCreatable (package_id opportunity_id : String) (ls : List LegExecution) : Type 0 where
  pub named : package_id ≢ ""
  pub has_opportunity : opportunity_id ≢ ""
  pub nonempty : ls ≢ []
  pub legs_new : All IsNewLeg ls
  pub distinct : AreDistinct (leg_ids ls)

Unseen-nil : (ls : List LegExecution) → Unseen [] ls
Unseen-nil [] = tt
Unseen-nil (l ∷ ls) = (refl, Unseen-nil ls)

-- the package that is made
abbrev pub created : String → String → ℤ → List LegExecution → PackageExecution
created package_id opportunity_id ts legs = record {
  package_id = package_id;
  opportunity_id = opportunity_id;
  created_ts_ns = ts;
  updated_ts_ns = ts;
  state = PackageState.new;
  intended_leg_ids = leg_ids legs;
  legs = legs;
  failure_reason = none;
}

created-checked :
    (package_id opportunity_id : String) (ts : ℤ) (ls : List LegExecution)
    → create_package_execution package_id opportunity_id ts ls
      ≡ ok (created package_id opportunity_id ts ls)
    → check_legs [] ls ≡ ok tt
unfolding create_package_execution
created-checked package_id opportunity_id ts ls h = ground arith

new_leg_sound : (l : LegExecution) → IsNewLeg l → l.filled_qty ≡ pos 0 → IsSoundLeg l
new_leg_sound l n u = record {
  positive = n.positive_qty;
  nonneg = rw u (omega arith);
  no_overfill = λ _. ground (arith, n.positive_qty);
  filled_in_full = λ e. ground (arith, n.not_started);
  new_unfilled = λ e. u;
}

-- A package is created exactly when both ids are non-empty, there is a leg, every leg is NEW with
-- a positive quantity and price, and no leg id occurs twice; it is then NEW and holds these legs.
pub create_package_execution_iff :
    (package_id opportunity_id : String) (ts : ℤ) (ls : List LegExecution)
    → (create_package_execution package_id opportunity_id ts ls
        ≡ ok (created package_id opportunity_id ts ls))
      ↔ IsCreatable package_id opportunity_id ls
unfolding create_package_execution
create_package_execution_iff package_id opportunity_id ts ls = (
  λ h.
      let (new_legs, distinct, _) =
        check_legs-passes [] ls (created-checked package_id opportunity_id ts ls h) in
      record {
        named = ground (arith, eq_iff package_id "");
        has_opportunity = ground (arith, eq_iff opportunity_id "");
        nonempty = ground arith;
        legs_new = new_legs;
        distinct = distinct;
      },
  λ c. ground (
    arith,
    eq_iff package_id "",
    eq_iff opportunity_id "",
    c.named,
    c.has_opportunity,
    c.nonempty,
    passes-check_legs [] ls c.legs_new c.distinct (Unseen-nil ls),
  ),
)

-- No leg is filled yet: `filled_qty` has its default.
abbrev pub AreUnfilled : List LegExecution → Type 0
AreUnfilled ls = All (λ l. l.filled_qty ≡ pos 0) ls

new_legs_sound : (ls : List LegExecution) → All IsNewLeg ls → AreUnfilled ls → All IsSoundLeg ls
new_legs_sound [] n u = tt
new_legs_sound (l ∷ ls) n u = (new_leg_sound l n.0 u.0, new_legs_sound ls n.1 u.1)

-- What is returned is the package of the arguments, and they are acceptable.
pub create_package_execution-made :
    (package_id opportunity_id : String) (ts : ℤ) (ls : List LegExecution) (p : PackageExecution)
    → create_package_execution package_id opportunity_id ts ls ≡ ok p
    → (created package_id opportunity_id ts ls ≡ p) × IsCreatable package_id opportunity_id ls
unfolding create_package_execution
create_package_execution-made package_id opportunity_id ts ls p h =
    let made : created package_id opportunity_id ts ls ≡ p = ground arith in
    (
      made,
      (create_package_execution_iff package_id opportunity_id ts ls).0 (
          subst (λ q. create_package_execution package_id opportunity_id ts ls ≡ ok q) (sym made)
            h),
    )

-- Whatever `create_package_execution` returns for legs without fills is NEW and sound.
pub create_package_execution-IsSound :
    (package_id opportunity_id : String) (ts : ℤ) (ls : List LegExecution) (p : PackageExecution)
    → AreUnfilled ls
    → create_package_execution package_id opportunity_id ts ls ≡ ok p
    → IsSound p × (p.state ≡ PackageState.new)
create_package_execution-IsSound package_id opportunity_id ts ls p unfilled h =
    let (made, c) = create_package_execution-made package_id opportunity_id ts ls p h in
    subst (λ (q : PackageExecution). IsSound q × (q.state ≡ PackageState.new)) made
      (
        record { legs_sound = new_legs_sound ls c.legs_new unfilled; ids_distinct = c.distinct },
        refl,
      )
