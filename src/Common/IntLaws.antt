-- ===== src/Common/IntLaws.antt =====
-- Laws of the integers that products and quotients need.
use polymarket_trade_executo.Common.{◌+◌, ◌*◌, ◌≡◌, ap, arith, Bool-cases, inl, inr}
use native.Mathlib.Nat.{mul-le-mul_right}
use polymarket_trade_executo.Common.Int.{
  ℤ, pos, negsuc, pos_part, neg_part, ◌+ℤ◌, ◌*ℤ◌, ◌/ℤ◌, ◌≤ℤ◌, ◌<ℤ◌, leb_ℤ, +ℤ_parts, *ℤ_parts,
  eq_of_parts, int_laws, /ℤ-mul-le, lt-/ℤ-mul,
}

pub *ℤ_comm : (a b : ℤ) → a *ℤ b ≡ b *ℤ a
*ℤ_comm a b = eq_of_parts _ _ (omega (arith, *ℤ_parts a b, *ℤ_parts b a))

pub *ℤ-+ℤ : (u a b : ℤ) → u *ℤ (a +ℤ b) ≡ u *ℤ a +ℤ u *ℤ b
*ℤ-+ℤ u a b =
    let s = a +ℤ b in
    eq_of_parts _ _ (
      omega (
        arith,
        *ℤ_parts u s,
        *ℤ_parts u a,
        *ℤ_parts u b,
        +ℤ_parts (u *ℤ a) (u *ℤ b),
        ap (λ x. pos_part u * x) (+ℤ_parts a b),
        ap (λ x. neg_part u * x) (+ℤ_parts a b),
      ))

pub *ℤ_assoc : (a b c : ℤ) → a *ℤ b *ℤ c ≡ a *ℤ (b *ℤ c)
*ℤ_assoc a b c = eq_of_parts _ _ (
    omega (
      arith,
      *ℤ_parts (a *ℤ b) c,
      *ℤ_parts a (b *ℤ c),
      ap (λ x. x * pos_part c) (*ℤ_parts a b),
      ap (λ x. x * neg_part c) (*ℤ_parts a b),
      ap (λ x. pos_part a * x) (*ℤ_parts b c),
      ap (λ x. neg_part a * x) (*ℤ_parts b c),
    ))

pub *ℤ-mono : (c a b : ℤ) → pos 0 ≤ℤ c → a ≤ℤ b → a *ℤ c ≤ℤ b *ℤ c
*ℤ-mono (negsuc c) a b hc h = absurd (omega arith)
*ℤ-mono (pos c) a b hc h = omega (
  arith,
  *ℤ_parts a (pos c),
  *ℤ_parts b (pos c),
  mul-le-mul_right {m = pos_part a + neg_part b} {n = pos_part b + neg_part a} c h,
)

-- A number within a quotient, times the divisor, is within the dividend.
pub within-/ℤ : (x n d : ℤ) → pos 0 <ℤ d → x ≤ℤ n /ℤ d → x *ℤ d ≤ℤ n
within-/ℤ x n d hd h = omega (arith, *ℤ-mono d x (n /ℤ d) (omega arith) h, /ℤ-mul-le n d hd)

-- ... and one more than it, times the divisor, is above.
pub above-/ℤ : (x n d : ℤ) → pos 0 <ℤ d → x *ℤ d ≤ℤ n → x ≤ℤ n /ℤ d
above-/ℤ x n d hd h =
    let q = n /ℤ d in
    elim (Bool-cases (leb_ℤ x q)) [
      | inl le ↦ ground arith
      | inr gt ↦
          let next : (q +ℤ pos 1) *ℤ d ≤ℤ x *ℤ d =
            *ℤ-mono d (q +ℤ pos 1) x (omega arith) (ground (arith, gt, +ℤ_parts q (pos 1))) in
          absurd (
            omega (
              int_laws,
              next,
              lt-/ℤ-mul n d hd,
              *ℤ_parts (q +ℤ pos 1) d,
              *ℤ_parts q d,
              +ℤ_parts (q *ℤ d) d,
              ap (λ y. y * pos_part d) (+ℤ_parts q (pos 1)),
              ap (λ y. y * neg_part d) (+ℤ_parts q (pos 1)),
            ))
    ]
