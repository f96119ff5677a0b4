-- ===== src/Risk/Counter.antt =====
-- executor/risk.py: `_RollingCounter`.
use polymarket_trade_executo.Common.{
  ℕ, ◌≡◌, refl, ap, arith, Bool, Bool-cases, inl, inr, List, [], ◌∷◌, ◌++◌, not, if◌then◌else◌,
}
use polymarket_trade_executo.Common.Int.{ℤ, ◌-ℤ◌, ◌≤ℤ◌, ltb_ℤ}
use polymarket_trade_executo.Common.Lists.{length, filter, All}

pub record RollingCounter : Type 0 where
  pub window_ns : ℤ
  pub timestamps : List ℤ

-- the loop of `_trim`: the leading timestamps below the floor are dropped
unfoldable pub drop_below : (floor : ℤ) → List ℤ → List ℤ
drop_below floor [] = []
drop_below floor (ts ∷ rest) =
    let dropped = drop_below floor rest in if ltb_ℤ ts floor then dropped else ts ∷ rest

unfoldable pub trim : RollingCounter → (now_ns : ℤ) → RollingCounter
trim counter now_ns = record counter {
  timestamps = drop_below (now_ns -ℤ counter.window_ns) counter.timestamps;
}

unfoldable pub add : RollingCounter → (ts_ns : ℤ) → RollingCounter
add counter ts_ns = trim (record counter { timestamps = counter.timestamps ++ (ts_ns ∷ []) }) ts_ns

-- `count` trims, and returns how many are left
unfoldable pub count : RollingCounter → (now_ns : ℤ) → RollingCounter × ℕ
count counter now_ns = let trimmed = trim counter now_ns in (trimmed, length trimmed.timestamps)

-- Each timestamp is at most the ones after it.
abbrev pub IsSorted : List ℤ → Type 0
IsSorted [] = Unit
IsSorted (ts ∷ rest) = All (λ later. ts ≤ℤ later) rest × IsSorted rest

abbrev pub within : (floor ts : ℤ) → Bool
within floor ts = not (ltb_ℤ ts floor)

all_within :
    (floor ts : ℤ) (rest : List ℤ)
    → floor ≤ℤ ts
    → All (λ later. ts ≤ℤ later) rest
    → filter (within floor) rest ≡ rest
all_within floor ts [] h later = refl
all_within floor ts (next ∷ rest) h later =
    ground (arith, all_within floor ts rest h later.1, later.0)

drop_below-filter :
    (floor : ℤ) (timestamps : List ℤ)
    → IsSorted timestamps
    → drop_below floor timestamps ≡ filter (within floor) timestamps
unfolding drop_below
drop_below-filter floor [] h = refl
drop_below-filter floor (ts ∷ rest) h = elim (Bool-cases (ltb_ℤ ts floor)) [
  | inl old ↦ rw (old, drop_below-filter floor rest h.1) refl
  | inr recent ↦ rw (recent, all_within floor ts rest (ground (arith, recent)) h.0) refl
]

-- The count of a counter whose timestamps are in order is the number of its timestamps that are
-- not older than the window, and exactly those are left in it.
pub count-filter :
    (counter : RollingCounter) (now_ns : ℤ)
    → IsSorted counter.timestamps
    → (let recent = filter (within (now_ns -ℤ counter.window_ns)) counter.timestamps in
        ((count counter now_ns).0.timestamps ≡ recent) × ((count counter now_ns).1 ≡ length recent))
unfolding count trim
count-filter counter now_ns h =
    let kept = drop_below-filter (now_ns -ℤ counter.window_ns) counter.timestamps h in
    (kept, ap length kept)
