-- ===== src/Planner/Sums.antt =====
-- `min` and `sum` over the legs, as executor/planner.py uses them, and the caps per leg.
use polymarket_trade_executo.Common.{
  ◌≡◌, refl, arith, List, [], ◌∷◌, map, ok, Ensures, Ensures-ok, Ensures-err,
}
use polymarket_trade_executo.Common.Int.{ℤ, pos, ◌*ℤ◌, ◌/ℤ◌, ◌≤ℤ◌, ◌<ℤ◌, min_ℤ, +ℤ_parts}
use polymarket_trade_executo.Common.Lists.{All}
use polymarket_trade_executo.Common.IntLaws.{within-/ℤ, above-/ℤ}
use polymarket_trade_executo.Planner.Units.{min_from, min_of, sum_of, leg_caps}
use polymarket_trade_executo.Planner.Rounding.{floor_div-returns}

-- `least` is the smallest element.
pub record IsLeast (xs : List ℤ) (least : ℤ) : Type 0 where
  pub below : All (λ x. least ≤ℤ x) xs
  pub greatest : (v : ℤ) → All (λ x. v ≤ℤ x) xs → v ≤ℤ least

All-weaken : {P Q : ℤ → Type 0} (xs : List ℤ) → ((x : ℤ) → P x → Q x) → All P xs → All Q xs
All-weaken [] f h = tt
All-weaken (x ∷ xs) f h = (f x h.0, All-weaken xs f h.1)

pub min_from-IsLeast : (least : ℤ) (xs : List ℤ) → IsLeast (least ∷ xs) (min_from least xs)
min_from-IsLeast least [] = record { below = (omega arith, tt); greatest = λ v h. h.0 }
min_from-IsLeast least (x ∷ xs) =
    let rest = min_from-IsLeast (min_ℤ least x) xs in
    record {
      below = (ground (arith, rest.below.0), (ground (arith, rest.below.0), rest.below.1));
      greatest = λ v h. rest.greatest v (ground arith, h.1.1);
    }

pub min_of-IsLeast : (xs : List ℤ) → Ensures (IsLeast xs) (min_of xs)
min_of-IsLeast [] = Ensures-err _
min_of-IsLeast (x ∷ xs) = Ensures-ok (min_from x xs) (min_from-IsLeast x xs)

pub sum_of-positive :
    (x : ℤ) (xs : List ℤ) → All (λ y. pos 0 <ℤ y) (x ∷ xs) → pos 0 <ℤ sum_of (x ∷ xs)
sum_of-positive x [] h = omega (arith, +ℤ_parts x (pos 0), h.0)
sum_of-positive x (y ∷ ys) h =
    omega (arith, +ℤ_parts x (sum_of (y ∷ ys)), h.0, sum_of-positive y ys h.1)

pub leg_caps-returns :
    (shares : ℤ) (ratios : List ℤ)
    → All (λ r. pos 0 <ℤ r) ratios
    → leg_caps shares ratios ≡ ok (map (λ r. shares /ℤ r) ratios)
unfolding leg_caps
leg_caps-returns shares [] h = refl
leg_caps-returns shares (r ∷ rs) h =
    rw (floor_div-returns shares r h.0, leg_caps-returns shares rs h.1) refl

-- Units are within every cap exactly when each leg's shares are within the limit.
pub caps-within :
    (shares v : ℤ) (ratios : List ℤ)
    → All (λ r. pos 0 <ℤ r) ratios
    → All (λ cap. v ≤ℤ cap) (map (λ r. shares /ℤ r) ratios)
    → All (λ r. v *ℤ r ≤ℤ shares) ratios
caps-within shares v [] h k = tt
caps-within shares v (r ∷ rs) h k = (within-/ℤ v shares r h.0 k.0, caps-within shares v rs h.1 k.1)

pub within-caps :
    (shares v : ℤ) (ratios : List ℤ)
    → All (λ r. pos 0 <ℤ r) ratios
    → All (λ r. v *ℤ r ≤ℤ shares) ratios
    → All (λ cap. v ≤ℤ cap) (map (λ r. shares /ℤ r) ratios)
within-caps shares v [] h k = tt
within-caps shares v (r ∷ rs) h k = (above-/ℤ v shares r h.0 k.0, within-caps shares v rs h.1 k.1)

-- Smaller units are below whatever larger ones are below.
pub All-≤ℤ : (u v : ℤ) (xs : List ℤ) → u ≤ℤ v → All (λ x. v ≤ℤ x) xs → All (λ x. u ≤ℤ x) xs
All-≤ℤ u v xs h = All-weaken xs (λ x k. omega arith)
