-- ===== src/Common/Float.antt =====
-- Python's floats, as far as the program compares them: a finite double is `n / 2 ^ k` exactly,
-- and a comparison of two of them is exact. Every comparison with NaN is false. A quotient of two
-- counts is rounded to 53 bits, ties to even.
use Prim.Native.Nat.{◌^◌}
use polymarket_trade_executo.Common.{
  ℕ, zero, suc, ◌+◌, ◌*◌, ◌/◌, ◌%◌, Bool, true, false, not, ◌&&◌, ◌||◌, ltb, leb, eqb,
  if◌then◌else◌,
}
use polymarket_trade_executo.Common.Int.{ℤ, pos, ◌*ℤ◌, ltb_ℤ, leb_ℤ}

pub data Float : Type 0 where
  finite : (n : ℤ) (k : ℕ) → Float
  infinite : (is_negative : Bool) → Float
  nan : Float

-- `x < y`
unfoldable pub float_ltb : Float → Float → Bool
float_ltb (finite a m) (finite b n) = ltb_ℤ (a *ℤ pos (2 ^ n)) (b *ℤ pos (2 ^ m))
float_ltb (finite a m) (infinite is_negative) = not is_negative
float_ltb (finite a m) nan = false
float_ltb (infinite is_negative) (finite b n) = is_negative
float_ltb (infinite x) (infinite y) = x && not y
float_ltb (infinite x) nan = false
float_ltb nan y = false

-- `x <= y`
unfoldable pub float_leb : Float → Float → Bool
float_leb (finite a m) (finite b n) = leb_ℤ (a *ℤ pos (2 ^ n)) (b *ℤ pos (2 ^ m))
float_leb (finite a m) (infinite is_negative) = not is_negative
float_leb (finite a m) nan = false
float_leb (infinite is_negative) (finite b n) = is_negative
float_leb (infinite true) (infinite y) = true
float_leb (infinite false) (infinite y) = not y
float_leb (infinite x) nan = false
float_leb nan y = false

-- `n / d` to the nearest integer, ties to even
unfoldable pub round_half_even : (n d : ℕ) → ℕ
round_half_even n d =
    let q = n / d in
    let twice = 2 * (n % d) in if ltb twice d || (eqb twice d && eqb (q % 2) 0) then q else q + 1

-- the least scale `k`, of `fuel` many, at which `n * 2 ^ k / d` has 53 bits or more
unfoldable pub scale_of : (fuel n d k : ℕ) → ℕ
scale_of zero n d k = k
scale_of (suc fuel) n d k =
    let rest = scale_of fuel (2 * n) d (k + 1) in if leb (d * 2 ^ 52) n then k else rest

-- `n / d` of counts, where `0 < d`, and `n / d` is below `2 ^ 53`, which every count is: a scale of at
-- most `52 + d` gives the quotient of a positive `n` its 53 bits
unfoldable pub true_div : (n d : ℕ) → Float
true_div n d =
    let k = scale_of (53 + d) n d 0 in
    if eqb n 0 then finite (pos 0) 0 else finite (pos (round_half_even (n * 2 ^ k) d)) k
