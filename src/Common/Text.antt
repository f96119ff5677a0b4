-- ===== src/Common/Text.antt =====
-- Texts: appending, and what `str` prints of an integer.
pub use Prim.Native.String.{◌++◌ as ◌⧺◌}
use Prim.Native.String.{String, slice}
use polymarket_trade_executo.Common.{
  ℕ, zero, suc, ◌≡◌, refl, sym, ap, ◌∙◌, ◌<◌, ◌/◌, ◌%◌, arith, Bool-cases, true, false, inl, inr,
  ltb,
}
use polymarket_trade_executo.Common.Int.{ℤ, pos, negsuc}

-- the last digit of a number
abbrev digit : ℕ → String
digit n = slice "0123456789" n (suc n)

-- the decimal digits of a number, where the fuel is more than the number
unfoldable pub decimal_upto : (fuel n : ℕ) → String
decimal_upto zero n = ""
decimal_upto (suc fuel) n = elim (ltb n 10) [
  | true ↦ digit n
  | false ↦ decimal_upto fuel (n / 10) ⧺ digit (n % 10)
]

unfoldable pub decimal : ℤ → String
decimal (pos n) = decimal_upto (suc n) n
decimal (negsuc n) = "-" ⧺ decimal_upto (suc (suc n)) (suc n)

decimal_upto-small : (fuel n : ℕ) → ltb n 10 ≡ true → decimal_upto (suc fuel) n ≡ digit n
unfolding decimal_upto
decimal_upto-small fuel n small = simp (decimal_upto, small) refl

decimal_upto-large :
    (fuel n : ℕ)
    → ltb n 10 ≡ false
    → decimal_upto (suc fuel) n ≡ decimal_upto fuel (n / 10) ⧺ digit (n % 10)
unfolding decimal_upto
decimal_upto-large fuel n large = simp (decimal_upto, large) refl

-- More fuel than that prints the same.
decimal_upto-enough : (fuel n : ℕ) → n < fuel → decimal_upto (suc fuel) n ≡ decimal_upto fuel n
decimal_upto-enough zero n h = elim h [ ]
decimal_upto-enough (suc fuel) n h = elim (Bool-cases (ltb n 10)) [
  | inl small ↦ decimal_upto-small (suc fuel) n small ∙ sym (decimal_upto-small fuel n small)
  | inr large ↦
      decimal_upto-large (suc fuel) n large
      ∙ ap (λ t. t ⧺ digit (n % 10)) (decimal_upto-enough fuel (n / 10) (ground (arith, large, h)))
      ∙ sym (decimal_upto-large fuel n large)
]

decimal-minus_10204 : decimal (negsuc 10203) ≡ "-10204"
unfolding decimal decimal_upto
decimal-minus_10204 = refl
