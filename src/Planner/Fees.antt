-- ===== src/Planner/Fees.antt =====
-- `_build_plan` of executor/planner.py: the fee that each leg of an accepted plan pays.
use polymarket_trade_executo.Common.{
  ◌≡◌, refl, ap, arith, List, [], ◌∷◌, map, ok, err, Ensures, Ensures-ok, Ensures-if,
}
use polymarket_trade_executo.Common.Int.{ℤ, pos, ◌+ℤ◌, ◌*ℤ◌, ◌≤ℤ◌, ◌<ℤ◌, ltb_ℤ}
use polymarket_trade_executo.Common.Lists.{All, IsOneOf}
use polymarket_trade_executo.Planner.Types.{
  OpportunityLeg, PlannerConfig, LegPlanInputs, PlannedLeg, bps_scale,
}
use polymarket_trade_executo.Planner.Units.{sum_of}
use polymarket_trade_executo.Planner.Prices.{Returns}
use polymarket_trade_executo.Planner.Build.{leg_notional, leg_fee, planned_leg, planned_legs}
use polymarket_trade_executo.Planner.Rounding.{IsCeiling, ceil_div-IsCeiling}
use polymarket_trade_executo.Planner.Totals.{total, AreFees}

-- the notional of a planned leg
abbrev pub planned_notional : PlannedLeg → ℤ
planned_notional leg = leg.quantity *ℤ leg.limit_price_ticks

-- the basis points that a leg pays
abbrev pub fee_rate : PlannerConfig → OpportunityLeg → ℤ
fee_rate config leg = leg.fee_bps +ℤ config.additional_cost_bps

-- The fee of a notional: its rate in basis points rounded up, or nothing.
pub record IsFee (config : PlannerConfig) (leg : OpportunityLeg) (notional fee : ℤ) : Type 0 where
  pub due : pos 0 <ℤ fee_rate config leg → IsCeiling (notional *ℤ fee_rate config leg) bps_scale fee
  pub free : fee_rate config leg ≤ℤ pos 0 → fee ≡ pos 0

-- a leg of the opportunity, what was planned for it and its fee
pub record FeeLine : Type 0 where
  pub leg : OpportunityLeg
  pub planned : PlannedLeg
  pub fee : ℤ

pub record IsFeeLine (config : PlannerConfig) (legs : List OpportunityLeg) (line : FeeLine)
    : Type 0 where
  pub of_legs : IsOneOf legs line.leg
  pub same_leg : line.planned.leg_id ≡ line.leg.leg_id
  pub is_fee : IsFee config line.leg (planned_notional line.planned) line.fee

leg_fee-IsFee :
    (config : PlannerConfig) (units : ℤ) (item : LegPlanInputs)
    → Ensures (IsFee config item.leg (leg_notional units item)) (leg_fee config units item)
unfolding leg_fee
leg_fee-IsFee config units item =
    let rate = fee_rate config item.leg in
    let product = leg_notional units item *ℤ rate in
    Ensures-if (ltb_ℤ (pos 0) rate) _ _
      (λ positive. record {
        at = λ fee e. record {
          due = λ _. (ceil_div-IsCeiling product bps_scale (omega arith)).at fee e;
          free = λ none. absurd (ground (arith, positive));
        };
      })
      (λ negative.
        Ensures-ok (pos 0)
          (record { due = λ some. absurd (ground (arith, negative)); free = λ _. refl }))

-- the fee of an item, which is there once `leg_fee` has returned
abbrev fee_or_zero : Returns ℤ → ℤ
fee_or_zero (ok fee) = fee
fee_or_zero (err stop) = pos 0

abbrev pub fee_of : PlannerConfig → (units : ℤ) → LegPlanInputs → ℤ
fee_of config units item = fee_or_zero (leg_fee config units item)

pub sum_of_fees :
    (config : PlannerConfig) (units : ℤ) (items : List LegPlanInputs) (fees : List ℤ)
    → AreFees config units items fees
    → sum_of fees ≡ total (fee_of config units) items
sum_of_fees config units [] [] h = refl
sum_of_fees config units [] (fee ∷ fees) h = absurd h
sum_of_fees config units (item ∷ items) [] h = absurd h
sum_of_fees config units (item ∷ items) (fee ∷ fees) h =
    rw (h.0, sum_of_fees config units items fees h.1) refl

-- an item of one of the legs, whose fee is due
abbrev pub IsCharged : PlannerConfig → (units : ℤ) → List OpportunityLeg → LegPlanInputs → Type 0
IsCharged config units legs item =
    IsOneOf legs item.leg
    × IsFee config item.leg (leg_notional units item) (fee_of config units item)

pub fee_of-IsFee :
    (config : PlannerConfig) (units : ℤ) (item : LegPlanInputs) (fee : ℤ)
    → leg_fee config units item ≡ ok fee
    → IsFee config item.leg (leg_notional units item) (fee_of config units item)
fee_of-IsFee config units item fee e = rw e ((leg_fee-IsFee config units item).at fee e)

pub items-IsCharged :
    (config : PlannerConfig) (units : ℤ) (legs : List OpportunityLeg) (items : List LegPlanInputs)
    (fees : List ℤ)
    → AreFees config units items fees
    → All (λ item. IsOneOf legs item.leg) items
    → All (IsCharged config units legs) items
items-IsCharged config units legs [] [] h of_legs = tt
items-IsCharged config units legs [] (fee ∷ fees) h of_legs = tt
items-IsCharged config units legs (item ∷ items) [] h of_legs = absurd h
items-IsCharged config units legs (item ∷ items) (fee ∷ fees) h of_legs = (
  (of_legs.0, fee_of-IsFee config units item fee h.0),
  items-IsCharged config units legs items fees h.1 of_legs.1,
)

-- one line for each planned leg
abbrev pub fee_lines : PlannerConfig → (units rank : ℤ) → List LegPlanInputs → List FeeLine
fee_lines config units rank [] = []
fee_lines config units rank (item ∷ items) =
    record {
      leg = item.leg;
      planned = planned_leg config units rank item;
      fee = fee_of config units item;
    }
    ∷ fee_lines config units (rank +ℤ pos 1) items

pub map-fee_lines :
    (config : PlannerConfig) (units rank : ℤ) (items : List LegPlanInputs)
    → map (λ line. line.planned) (fee_lines config units rank items)
      ≡ planned_legs config units rank items
unfolding planned_legs
map-fee_lines config units rank [] = refl
map-fee_lines config units rank (item ∷ items) =
    ap (λ legs. planned_leg config units rank item ∷ legs)
      (map-fee_lines config units (rank +ℤ pos 1) items)

pub total-fee_lines :
    (config : PlannerConfig) (units rank : ℤ) (items : List LegPlanInputs)
    → total (λ line. line.fee) (fee_lines config units rank items)
      ≡ total (fee_of config units) items
total-fee_lines config units rank [] = refl
total-fee_lines config units rank (item ∷ items) =
    ap (λ n. fee_of config units item +ℤ n) (total-fee_lines config units (rank +ℤ pos 1) items)

pub fee_lines-IsFeeLine :
    (config : PlannerConfig) (units rank : ℤ) (legs : List OpportunityLeg)
    (items : List LegPlanInputs)
    → All (IsCharged config units legs) items
    → All (IsFeeLine config legs) (fee_lines config units rank items)
fee_lines-IsFeeLine config units rank legs [] h = tt
fee_lines-IsFeeLine config units rank legs (item ∷ items) h = (
  record { of_legs = h.0.0; same_leg = refl; is_fee = h.0.1 },
  fee_lines-IsFeeLine config units (rank +ℤ pos 1) legs items h.1,
)
