-- ===== src/Planner/Totals.antt =====
-- The two loops of `_build_plan` of executor/planner.py: its sums, its fees and its order.
use polymarket_trade_executo.Common.{
  ◌≡◌, refl, sym, ap, ◌∙◌, arith, Bool-cases, inl, inr, List, [], ◌∷◌, map, ok, Ensures, Ensures-ok,
  Ensures-bind,
}
use polymarket_trade_executo.Common.Int.{ℤ, pos, ◌+ℤ◌, ◌*ℤ◌, +ℤ_parts, eq_of_parts}
use polymarket_trade_executo.Common.Lists.{All}
use polymarket_trade_executo.Planner.Types.{PlannerConfig, LegPlanInputs, PlannedLeg}
use polymarket_trade_executo.Planner.Units.{sum_of}
use polymarket_trade_executo.Planner.Build.{
  Totals, signed_by, leg_notional, leg_fee, add_legs, key_ltb, insert, sorted, planned_leg,
  planned_legs,
}

pub +ℤ_assoc : (a b c : ℤ) → a +ℤ b +ℤ c ≡ a +ℤ (b +ℤ c)
+ℤ_assoc a b c =
    eq_of_parts _ _
      (omega (arith, +ℤ_parts a b, +ℤ_parts (a +ℤ b) c, +ℤ_parts b c, +ℤ_parts a (b +ℤ c)))

pub +ℤ_swap : (a b c : ℤ) → a +ℤ (b +ℤ c) ≡ b +ℤ (a +ℤ c)
+ℤ_swap a b c =
    eq_of_parts _ _
      (omega (arith, +ℤ_parts a c, +ℤ_parts b (a +ℤ c), +ℤ_parts b c, +ℤ_parts a (b +ℤ c)))

pub +ℤ_zero : (a : ℤ) → a +ℤ pos 0 ≡ a
+ℤ_zero a = eq_of_parts _ _ (omega (arith, +ℤ_parts a (pos 0)))

-- the sum of `f` over a list
abbrev pub total {ℓ} : {A : Type ℓ} → (A → ℤ) → List A → ℤ
total f xs = sum_of (map f xs)

-- the fee of each item is the one the loop adds
abbrev pub AreFees : PlannerConfig → (units : ℤ) → List LegPlanInputs → List ℤ → Type 0
AreFees config units [] [] = Unit
AreFees config units [] (fee ∷ fees) = ⊥
AreFees config units (item ∷ items) [] = ⊥
AreFees config units (item ∷ items) (fee ∷ fees) =
    (leg_fee config units item ≡ ok fee) × AreFees config units items fees

pub record AreTotals (config : PlannerConfig) (units : ℤ) (start : Totals)
    (items : List LegPlanInputs) (t : Totals) : Type 0 where
  pub notional : t.total_notional ≡ start.total_notional +ℤ total (leg_notional units) items
  pub shares :
      t.total_shares ≡ start.total_shares +ℤ total (λ item. units *ℤ item.leg.quantity_ratio) items
  pub profit :
      t.gross_profit
      ≡ start.gross_profit
        +ℤ total (λ item. signed_by item.leg.side (leg_notional units item)) items
  pub fees :
      (fees : List ℤ) × AreFees config units items fees
      × (t.fee_cents ≡ start.fee_cents +ℤ sum_of fees)

pub add_legs-AreTotals :
    (config : PlannerConfig) (units : ℤ) (items : List LegPlanInputs) (start : Totals)
    → Ensures (AreTotals config units start items) (add_legs config units start items)
unfolding add_legs
add_legs-AreTotals config units [] start = Ensures-ok start (record {
  notional = sym (+ℤ_zero start.total_notional);
  shares = sym (+ℤ_zero start.total_shares);
  profit = sym (+ℤ_zero start.gross_profit);
  fees = ([], tt, sym (+ℤ_zero start.fee_cents));
})
add_legs-AreTotals config units (item ∷ items) start =
    Ensures-bind (leg_fee config units item) _ λ fee is_fee. record {
      at = λ t e.
          let rest = (add_legs-AreTotals config units items _).at t e in
          let (fees, are_fees, fee_sum) = rest.fees in
          record {
            notional = rest.notional ∙ +ℤ_assoc _ _ _;
            shares = rest.shares ∙ +ℤ_assoc _ _ _;
            profit = rest.profit ∙ +ℤ_assoc _ _ _;
            fees = (fee ∷ fees, (is_fee, are_fees), fee_sum ∙ +ℤ_assoc _ _ _);
          };
    }

-- Sorting keeps every sum ...
total-insert :
    (f : LegPlanInputs → ℤ) (item : LegPlanInputs) (items : List LegPlanInputs)
    → total f (insert item items) ≡ f item +ℤ total f items
unfolding insert
total-insert f item [] = refl
total-insert f item (x ∷ xs) = elim (Bool-cases (key_ltb x item)) [
  | inl lt ↦ rw (lt, total-insert f item xs, +ℤ_swap (f x) (f item) (total f xs)) refl
  | inr ge ↦ rw ge refl
]

pub total-sorted :
    (f : LegPlanInputs → ℤ) (items : List LegPlanInputs) → total f (sorted items) ≡ total f items
unfolding sorted
total-sorted f [] = refl
total-sorted f (item ∷ items) =
    total-insert f item (sorted items) ∙ ap (λ t. f item +ℤ t) (total-sorted f items)

-- ... and what holds of every item.
All-insert {ℓ} :
    (P : LegPlanInputs → Type ℓ) (item : LegPlanInputs) (items : List LegPlanInputs)
    → P item
    → All P items
    → All P (insert item items)
unfolding insert
All-insert P item [] p h = (p, tt)
All-insert P item (x ∷ xs) p h = elim (Bool-cases (key_ltb x item)) [
  | inl lt ↦ rw lt (h.0, All-insert P item xs p h.1)
  | inr ge ↦ rw ge (p, h)
]

pub All-sorted {ℓ} :
    (P : LegPlanInputs → Type ℓ) (items : List LegPlanInputs) → All P items → All P (sorted items)
unfolding sorted
All-sorted P [] h = tt
All-sorted P (item ∷ items) h = All-insert P item (sorted items) h.0 (All-sorted P items h.1)

-- A planned leg's sums are its item's.
pub total-planned :
    (config : PlannerConfig) (units rank : ℤ) (f : PlannedLeg → ℤ) (g : LegPlanInputs → ℤ)
    (items : List LegPlanInputs)
    → ((r : ℤ) (item : LegPlanInputs) → f (planned_leg config units r item) ≡ g item)
    → total f (planned_legs config units rank items) ≡ total g items
unfolding planned_legs
total-planned config units rank f g [] same = refl
total-planned config units rank f g (item ∷ items) same =
    rw (same rank item, total-planned config units (rank +ℤ pos 1) f g items same) refl

pub All-planned {ℓ κ} :
    (config : PlannerConfig) (units rank : ℤ) (P : PlannedLeg → Type ℓ) (Q : LegPlanInputs → Type κ)
    (items : List LegPlanInputs)
    → ((r : ℤ) (item : LegPlanInputs) → Q item → P (planned_leg config units r item))
    → All Q items
    → All P (planned_legs config units rank items)
unfolding planned_legs
All-planned config units rank P Q [] keeps h = tt
All-planned config units rank P Q (item ∷ items) keeps h =
    (keeps rank item h.0, All-planned config units (rank +ℤ pos 1) P Q items keeps h.1)
