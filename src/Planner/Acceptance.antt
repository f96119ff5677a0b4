-- ===== src/Planner/Acceptance.antt =====
-- `plan` of executor/planner.py: what is known of the legs of an accepted plan.
use polymarket_trade_executo.Common.{
  ◌≡◌, refl, sym, ap, subst, ◌∙◌, arith, Option, none, some, List, [], ◌∷◌, ok, err, ok-injective,
  Result, Fails,
}
use polymarket_trade_executo.Common.Int.{ℤ, pos, ◌*ℤ◌, ◌≤ℤ◌, ◌<ℤ◌, eq_of_parts, *ℤ_parts}
use polymarket_trade_executo.Common.IntLaws.{*ℤ-+ℤ}
use polymarket_trade_executo.Common.Lists.{All, All-map, IsOneOf, All-IsOneOf}
use polymarket_trade_executo.Planner.Types.{
  Opportunity, PlannedLeg, PlannerConfig, PlannerDecision, ExecutionPlan, LegPlanInputs, Stop,
  decided, zero_division, empty_min,
}
use polymarket_trade_executo.Planner.Build.{sorted, planned_leg}
use polymarket_trade_executo.Planner.Plan.{Snapshots, plan_steps, plan, returned}
use polymarket_trade_executo.Planner.Passed.{IsOpenLeg}
use polymarket_trade_executo.Planner.Inputs.{IsInput}
use polymarket_trade_executo.Planner.Totals.{
  total, total-sorted, All-sorted, total-planned, All-planned,
}
use polymarket_trade_executo.Planner.Outcomes.{Rejects}
use polymarket_trade_executo.Planner.Total.{plan_steps-Fails}
use polymarket_trade_executo.Planner.Accepted.{IsPlanned, plan_steps-IsPlanned}

-- the decision that accepts a plan
abbrev pub accepting : ExecutionPlan → PlannerDecision
accepting p = record { plan = some p; rejection = none }

none-is_not-some : {p : ExecutionPlan} → (let o : Option ExecutionPlan = none in o ≡ some p) → ⊥
none-is_not-some h = cc

returned-ok :
    (now_ns : ℤ) (steps : Result Stop ExecutionPlan) (p : ExecutionPlan)
    → Fails (Rejects now_ns) steps
    → returned steps ≡ ok (accepting p)
    → steps ≡ ok p
returned-ok now_ns (ok q) p fails h =
    let same : Option.some q ≡ some p = ap (λ d. d.plan) (ok-injective h) in cc
returned-ok now_ns (err (decided d)) p fails h =
    let rejected = fails.at (decided d) refl in
    let same : d.plan ≡ some p = ap (λ d. d.plan) (ok-injective h) in
    absurd (none-is_not-some (sym rejected.no_plan ∙ same))
returned-ok now_ns (err zero_division) p fails h = cc
returned-ok now_ns (err empty_min) p fails h = cc

pub plan-IsPlanned :
    (config : PlannerConfig) (opportunity : Opportunity) (snapshots : Snapshots) (now_ns : ℤ)
    (p : ExecutionPlan)
    → plan config opportunity snapshots now_ns ≡ ok (accepting p)
    → IsPlanned config opportunity snapshots now_ns p
unfolding plan
plan-IsPlanned config opportunity snapshots now_ns p h =
    (plan_steps-IsPlanned config opportunity snapshots now_ns).at p (
      returned-ok now_ns (plan_steps config opportunity snapshots now_ns) p
        (plan_steps-Fails config opportunity snapshots now_ns) h)

pub total-scale :
    {A : Type 0} (u : ℤ) (f g : A → ℤ) (xs : List A)
    → ((x : A) → g x ≡ u *ℤ f x)
    → total g xs ≡ u *ℤ total f xs
total-scale u f g [] same = eq_of_parts _ _ (omega (arith, *ℤ_parts u (pos 0)))
total-scale u f g (x ∷ xs) same =
    rw (same x, total-scale u f g xs same) (sym (*ℤ-+ℤ u (f x) (total f xs)))

-- What the planner knows of an item once the units are chosen.
pub record IsChosenInput (config : PlannerConfig) (opportunity : Opportunity)
    (snapshots : Snapshots) (now_ns units : ℤ) (item : LegPlanInputs) : Type 0 where
  pub of_opportunity : IsOneOf opportunity.legs item.leg
  pub positive_ratio : pos 0 <ℤ item.leg.quantity_ratio
  pub input : IsInput config snapshots now_ns item
  pub liquid : units ≤ℤ item.available_units
  pub few_shares : units *ℤ item.leg.quantity_ratio ≤ℤ config.max_shares_per_leg

chosen-inputs :
    (config : PlannerConfig) (opportunity : Opportunity) (snapshots : Snapshots) (now_ns units : ℤ)
    (items : List LegPlanInputs)
    → All (λ item. IsOneOf opportunity.legs item.leg) items
    → All (λ item. IsOpenLeg item.leg) items
    → All (IsInput config snapshots now_ns) items
    → All (λ item. units ≤ℤ item.available_units) items
    → All (λ item. units *ℤ item.leg.quantity_ratio ≤ℤ config.max_shares_per_leg) items
    → All (IsChosenInput config opportunity snapshots now_ns units) items
chosen-inputs config opportunity snapshots now_ns units [] a b c d e = tt
chosen-inputs config opportunity snapshots now_ns units (item ∷ items) a b c d e = (
  record {
    of_opportunity = a.0;
    positive_ratio = b.0.positive_ratio;
    input = c.0;
    liquid = d.0;
    few_shares = e.0;
  },
  chosen-inputs config opportunity snapshots now_ns units items a.1 b.1 c.1 d.1 e.1,
)

module _ (config : PlannerConfig) (opportunity : Opportunity) (snapshots : Snapshots) (now_ns : ℤ)
    (p : ExecutionPlan) where
  pub planned_total :
      (h : IsPlanned config opportunity snapshots now_ns p) (f : PlannedLeg → ℤ)
      (g : LegPlanInputs → ℤ)
      → ((r : ℤ) (item : LegPlanInputs) → f (planned_leg config h.units r item) ≡ g item)
      → total f p.legs ≡ total g h.items
  planned_total h f g same =
      ap (total f) h.built.legs
      ∙ (total-planned config h.units (pos 1) f g (sorted h.items) same ∙ total-sorted g h.items)

  pub planned_items :
      (h : IsPlanned config opportunity snapshots now_ns p)
      → All (IsChosenInput config opportunity snapshots now_ns h.units) h.items
  planned_items h =
      let legs = sym h.inputs.of_legs in
      let fits = h.chosen.fits in
      chosen-inputs config opportunity snapshots now_ns h.units h.items
        (All-map (λ item. item.leg) (IsOneOf opportunity.legs) h.items
          (subst (All (IsOneOf opportunity.legs)) legs (All-IsOneOf opportunity.legs)))
        (All-map (λ item. item.leg) IsOpenLeg h.items
          (subst (All IsOpenLeg) legs h.is_open.open_legs))
        h.inputs.inputs (All-map (λ item. item.available_units) _ h.items fits.within_liquidity)
        (All-map (λ item. item.leg.quantity_ratio) _ h.items fits.within_leg_shares)

  -- what a plan's legs owe to the items
  pub planned_legs-All :
      (h : IsPlanned config opportunity snapshots now_ns p) (P : PlannedLeg → Type 0)
      → ((r : ℤ) (item : LegPlanInputs)
          → IsChosenInput config opportunity snapshots now_ns h.units item
          → P (planned_leg config h.units r item))
      → All P p.legs
  planned_legs-All h P keeps =
      let Q = IsChosenInput config opportunity snapshots now_ns h.units in
      subst (All P) (sym h.built.legs) (
        All-planned config h.units (pos 1) P Q (sorted h.items) keeps
          (All-sorted Q h.items (planned_items h)))
