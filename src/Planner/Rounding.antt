-- ===== src/Planner/Rounding.antt =====
-- The rounding helpers of executor/planner.py: what they return.
use polymarket_trade_executo.Common.{
  ◌*◌, ◌≡◌, refl, ap, arith, ok, Bool-cases, inl, inr, Ensures, Ensures-ok, Ensures-bind,
  Ensures-if, Ensures-err,
}
use polymarket_trade_executo.Common.Int.{
  ℤ, pos, pos_part, neg_part, ◌+ℤ◌, ◌-ℤ◌, ◌*ℤ◌, ◌/ℤ◌, ◌≤ℤ◌, ◌<ℤ◌, ltb_ℤ, eqb_ℤ, min_ℤ, max_ℤ,
  +ℤ_parts, -ℤ_parts, *ℤ_parts, /ℤ-mul-le, lt-/ℤ-mul,
}
use polymarket_trade_executo.Planner.Prices.{
  floor_div, ceil_div, round_up_to_tick, round_down_to_tick,
}

pub record IsFloor (n d q : ℤ) : Type 0 where
  pub quotient : q ≡ n /ℤ d
  pub below : q *ℤ d ≤ℤ n
  pub close : n <ℤ q *ℤ d +ℤ d

pub record IsCeiling (n d q : ℤ) : Type 0 where
  pub above : n ≤ℤ q *ℤ d
  pub close : q *ℤ d <ℤ n +ℤ d

abbrev pub OnTick : (tick x : ℤ) → Type 0
OnTick tick x = (k : ℤ) × (x ≡ k *ℤ tick)

pub floor_div-returns : (n d : ℤ) → pos 0 <ℤ d → floor_div n d ≡ ok (n /ℤ d)
unfolding floor_div
floor_div-returns n d h = ground arith

pub floor_div-IsFloor : (n d : ℤ) → pos 0 <ℤ d → Ensures (IsFloor n d) (floor_div n d)
unfolding floor_div
floor_div-IsFloor n d h =
    Ensures-if (eqb_ℤ d (pos 0)) _ _ (λ e. Ensures-err _)
      (λ e.
        Ensures-ok (n /ℤ d)
          (record { quotient = refl; below = /ℤ-mul-le n d h; close = lt-/ℤ-mul n d h }))

pub ceil_div-IsCeiling : (n d : ℤ) → pos 0 <ℤ d → Ensures (IsCeiling n d) (ceil_div n d)
unfolding ceil_div
ceil_div-IsCeiling n d h = Ensures-bind (floor_div (pos 0 -ℤ n) d) _ λ q e.
    let floor = (floor_div-IsFloor (pos 0 -ℤ n) d h).at q e in
    let facts = -ℤ_parts (pos 0) n in
    let negated = -ℤ_parts (pos 0) q in
    let product = *ℤ_parts (pos 0 -ℤ q) d in
    let positive = ap (λ x. x * pos_part d) negated in
    let negative = ap (λ x. x * neg_part d) negated in
    Ensures-ok (pos 0 -ℤ q) (record {
      above = omega (
        arith,
        floor.below,
        facts,
        product,
        positive,
        negative,
        *ℤ_parts q d,
        +ℤ_parts (q *ℤ d) d,
      );
      close = omega (
        arith,
        floor.below,
        floor.close,
        facts,
        product,
        positive,
        negative,
        *ℤ_parts q d,
        +ℤ_parts n d,
        +ℤ_parts (q *ℤ d) d,
      );
    })

pub round_up-OnTick :
    (price tick : ℤ)
    → pos 0 <ℤ tick
    → Ensures (λ x. OnTick tick x × (price ≤ℤ x)) (round_up_to_tick price tick)
unfolding round_up_to_tick
round_up-OnTick price tick h =
    Ensures-bind (ceil_div price tick) _
      λ k e. Ensures-ok (k *ℤ tick) ((k, refl), ((ceil_div-IsCeiling price tick h).at k e).above)

pub round_down-OnTick :
    (price tick : ℤ)
    → pos 0 <ℤ tick
    → Ensures (λ x. OnTick tick x × (x ≤ℤ price)) (round_down_to_tick price tick)
unfolding round_down_to_tick
round_down-OnTick price tick h =
    Ensures-bind (floor_div price tick) _
      λ k e. Ensures-ok (k *ℤ tick) ((k, refl), ((floor_div-IsFloor price tick h).at k e).below)

-- What holds of both numbers holds of the smaller one ...
pub min_ℤ-keeps {ℓ} : (P : ℤ → Type ℓ) (a b : ℤ) → P a → P b → P (min_ℤ a b)
min_ℤ-keeps P a b pa pb = elim (Bool-cases (ltb_ℤ b a)) [ inl lt ↦ rw lt pb | inr ge ↦ rw ge pa ]

-- ... and of the larger one.
pub max_ℤ-keeps {ℓ} : (P : ℤ → Type ℓ) (a b : ℤ) → P a → P b → P (max_ℤ a b)
max_ℤ-keeps P a b pa pb = elim (Bool-cases (ltb_ℤ a b)) [ inl lt ↦ rw lt pb | inr ge ↦ rw ge pa ]
