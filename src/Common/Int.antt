-- ===== src/Common/Int.antt =====
-- Python's integers, over the native numbers: `negsuc n` is -(n + 1).
use polymarket_trade_executo.Common.{
  ℕ, suc, ◌+◌, ◌-◌, ◌*◌, ◌/◌, ◌≤◌, ◌<◌, ◌≡◌, refl, ◌↔◌, ◌⊎◌, Bool, true, false, arith, ltb, leb,
  eqb, if◌then◌else◌, Eq,
}
use native.Mathlib.Nat.{div-mul-le_self, lt-div-mul-add}

pub data ℤ : Type 0 where
  pos : ℕ → ℤ
  negsuc : ℕ → ℤ

abbrev pub pos_part : ℤ → ℕ
pos_part (pos n) = n
pos_part (negsuc n) = 0

abbrev pub neg_part : ℤ → ℕ
neg_part (pos n) = 0
neg_part (negsuc n) = suc n

-- a - b, as an integer
abbrev pub sub_ℕ : ℕ → ℕ → ℤ
sub_ℕ a b = if leb b a then pos (a - b) else negsuc (b - a - 1)

infixl 65 ◌+ℤ◌ ◌-ℤ◌
infixl 70 ◌*ℤ◌ ◌/ℤ◌
infix 50 ◌≤ℤ◌ ◌<ℤ◌
unfoldable pub ◌+ℤ◌ : ℤ → ℤ → ℤ
a +ℤ b = sub_ℕ (pos_part a + pos_part b) (neg_part a + neg_part b)

unfoldable pub ◌-ℤ◌ : ℤ → ℤ → ℤ
a -ℤ b = sub_ℕ (pos_part a + neg_part b) (neg_part a + pos_part b)

unfoldable pub ◌*ℤ◌ : ℤ → ℤ → ℤ
a *ℤ b =
    sub_ℕ (pos_part a * pos_part b + neg_part a * neg_part b)
      (pos_part a * neg_part b + neg_part a * pos_part b)

-- -(a / b) rounded down, of natural numbers: -((a + b - 1) / b)
abbrev neg_div : ℕ → ℕ → ℤ
neg_div a b = sub_ℕ 0 ((a + b - 1) / b)

-- `a // b`: rounded towards minus infinity. Python raises on a zero divisor; every caller tests
-- for it, or models the exception.
unfoldable pub ◌/ℤ◌ : ℤ → ℤ → ℤ
pos a /ℤ pos b = pos (a / b)
negsuc a /ℤ pos b = neg_div (suc a) b
pos a /ℤ negsuc b = neg_div a (suc b)
negsuc a /ℤ negsuc b = pos (suc a / suc b)

abbrev pub ◌≤ℤ◌ : ℤ → ℤ → Type 0
a ≤ℤ b = pos_part a + neg_part b ≤ pos_part b + neg_part a

abbrev pub ◌<ℤ◌ : ℤ → ℤ → Type 0
a <ℤ b = pos_part a + neg_part b < pos_part b + neg_part a

abbrev pub ltb_ℤ : ℤ → ℤ → Bool
ltb_ℤ a b = ltb (pos_part a + neg_part b) (pos_part b + neg_part a)

abbrev pub leb_ℤ : ℤ → ℤ → Bool
leb_ℤ a b = leb (pos_part a + neg_part b) (pos_part b + neg_part a)

abbrev pub eqb_ℤ : ℤ → ℤ → Bool
eqb_ℤ a b = eqb (pos_part a + neg_part b) (pos_part b + neg_part a)

abbrev pub min_ℤ : ℤ → ℤ → ℤ
min_ℤ a b = if ltb_ℤ b a then b else a

abbrev pub max_ℤ : ℤ → ℤ → ℤ
max_ℤ a b = if ltb_ℤ a b then b else a

abbrev pub abs_ℤ : ℤ → ℤ
abs_ℤ a = if ltb_ℤ a (pos 0) then pos (neg_part a) else a

pub eqb_ℤ_iff : (a b : ℤ) → (eqb_ℤ a b ≡ true) ↔ (a ≡ b)
eqb_ℤ_iff a b = ground arith

instance abbrev pub int_eq : Eq ℤ
int_eq = record { test = eqb_ℤ; agrees = eqb_ℤ_iff }

-- With these `omega` and `ground` work with the operations shut.
pub +ℤ_parts :
    (a b : ℤ)
    → pos_part (a +ℤ b) + neg_part a + neg_part b ≡ neg_part (a +ℤ b) + pos_part a + pos_part b
unfolding ◌+ℤ◌
+ℤ_parts a b = ground arith

pub -ℤ_parts :
    (a b : ℤ)
    → pos_part (a -ℤ b) + neg_part a + pos_part b ≡ neg_part (a -ℤ b) + pos_part a + neg_part b
unfolding ◌-ℤ◌
-ℤ_parts a b = ground arith

pub eq_of_parts : (a b : ℤ) → pos_part a + neg_part b ≡ pos_part b + neg_part a → a ≡ b
eq_of_parts a b h = ground arith

pub *ℤ_parts :
    (a b : ℤ)
    → pos_part (a *ℤ b) + pos_part a * neg_part b + neg_part a * pos_part b
      ≡ neg_part (a *ℤ b) + pos_part a * pos_part b + neg_part a * neg_part b
unfolding ◌*ℤ◌
*ℤ_parts a b = ground arith

pub ruleset int_laws = (arith, +ℤ_parts, -ℤ_parts, eq_of_parts)

-- The product of two numbers, neither negative, is not negative.
pub *ℤ-nonneg : (a b : ℤ) → pos 0 ≤ℤ a → pos 0 ≤ℤ b → pos 0 ≤ℤ a *ℤ b
unfolding ◌*ℤ◌
*ℤ-nonneg (pos a) (pos b) p q = ground arith
*ℤ-nonneg (pos a) (negsuc b) p q = absurd (omega arith)
*ℤ-nonneg (negsuc a) b p q = absurd (omega arith)

neg_div-parts :
    (a b : ℕ) → (pos_part (neg_div a b) ≡ 0) × (neg_part (neg_div a b) ≡ (a + b - 1) / b)
neg_div-parts a b = ground arith

neg_div-mul :
    (a b : ℕ)
    → (pos_part (neg_div a b) * b ≡ 0) × (neg_part (neg_div a b) * b ≡ (a + b - 1) / b * b)
neg_div-mul a b = rw ((neg_div-parts a b).0, (neg_div-parts a b).1) (omega arith)

-- A quotient by a positive number, times that number, is not above the dividend ...
pub /ℤ-mul-le : (n d : ℤ) → pos 0 <ℤ d → (n /ℤ d) *ℤ d ≤ℤ n
unfolding ◌/ℤ◌
/ℤ-mul-le n (negsuc k) h = absurd (omega arith)
/ℤ-mul-le (pos a) (pos d) h = omega (arith, *ℤ_parts (pos (a / d)) (pos d), div-mul-le_self a d)
/ℤ-mul-le (negsuc a) (pos d) h =
    let m = (suc a + d - 1) / d in
    omega (
      arith,
      *ℤ_parts (neg_div (suc a) d) (pos d),
      lt-div-mul-add {a = suc a + d - 1} {b = d} (omega arith),
      neg_div-mul (suc a) d,
    )

-- ... and less than one divisor below it.
pub lt-/ℤ-mul : (n d : ℤ) → pos 0 <ℤ d → n <ℤ (n /ℤ d) *ℤ d +ℤ d
unfolding ◌/ℤ◌
lt-/ℤ-mul n (negsuc k) h = absurd (omega arith)
lt-/ℤ-mul (pos a) (pos d) h =
    omega (int_laws, *ℤ_parts (pos (a / d)) (pos d), lt-div-mul-add {a = a} {b = d} (omega arith))
lt-/ℤ-mul (negsuc a) (pos d) h = omega (
  int_laws,
  *ℤ_parts (neg_div (suc a) d) (pos d),
  div-mul-le_self (suc a + d - 1) d,
  neg_div-mul (suc a) d,
)

floor_rounds_down : negsuc 6 /ℤ pos 2 ≡ negsuc 3
unfolding ◌/ℤ◌
floor_rounds_down = refl
