-- ===== src/Common/DictSums.antt =====
-- Dicts with distinct keys: what setting and removing an entry does to a sum over the values.
use polymarket_trade_executo.Common.{
  suc, ◌≤◌, String, ◌≡◌, ◌≢◌, refl, sym, ap, ◌∙◌, arith, Bool-cases, inl, inr, none, some, [], ◌∷◌,
  ◌==◌, string_eq, eq_iff,
}
use polymarket_trade_executo.Common.Int.{ℤ, pos, ◌+ℤ◌, ◌≤ℤ◌, +ℤ_parts, eq_of_parts}
use polymarket_trade_executo.Common.Dict.{Dict, get, set, remove, AllValues}
use polymarket_trade_executo.Common.Lists.{length}

module _ {ℓ} {V : Type ℓ} where
  -- No key occurs twice.
  abbrev pub HasDistinctKeys : Dict V → Type ℓ
  HasDistinctKeys [] = Unit
  HasDistinctKeys (entry ∷ d) = (get d entry.0 ≡ none) × HasDistinctKeys d

  -- the sum of `f` over the values
  abbrev pub sum_by : (V → ℤ) → Dict V → ℤ
  sum_by f [] = pos 0
  sum_by f (entry ∷ d) = f entry.1 +ℤ sum_by f d

  pub get-set_other : (d : Dict V) (k j : String) (v : V) → k ≢ j → get (set d k v) j ≡ get d j
  get-set_other [] k j v other = ground (arith, eq_iff k j)
  get-set_other (entry ∷ d) k j v other =
      ground (arith, get-set_other d k j v other, eq_iff entry.0 k, eq_iff entry.0 j, eq_iff k j)

  pub get-remove_missing : (d : Dict V) (k j : String) → get d j ≡ none → get (remove d k) j ≡ none
  get-remove_missing [] k j h = refl
  get-remove_missing (entry ∷ d) k j h = ground (arith, get-remove_missing d k j)

  pub remove_absent : (d : Dict V) (k : String) → get d k ≡ none → remove d k ≡ d
  remove_absent [] k h = refl
  remove_absent (entry ∷ d) k h = ground (arith, remove_absent d k)

  pub set-HasDistinctKeys :
      (d : Dict V) (k : String) (v : V) → HasDistinctKeys d → HasDistinctKeys (set d k v)
  set-HasDistinctKeys [] k v h = (refl, tt)
  set-HasDistinctKeys (entry ∷ d) k v h = elim (Bool-cases (entry.0 == k)) [
    | inl here ↦ rw here (ground (arith, h.0, eq_iff entry.0 k, here), h.1)
    | inr there ↦ rw there (
      ground (arith, h.0, get-set_other d k entry.0 v, eq_iff entry.0 k, there),
      set-HasDistinctKeys d k v h.1,
    )
  ]

  pub remove-HasDistinctKeys :
      (d : Dict V) (k : String) → HasDistinctKeys d → HasDistinctKeys (remove d k)
  remove-HasDistinctKeys [] k h = tt
  remove-HasDistinctKeys (entry ∷ d) k h = elim (Bool-cases (entry.0 == k)) [
    | inl here ↦ rw here (remove-HasDistinctKeys d k h.1)
    | inr there ↦ rw there (get-remove_missing d k entry.0 h.0, remove-HasDistinctKeys d k h.1)
  ]

  pub length-set_new :
      (d : Dict V) (k : String) (v : V) → get d k ≡ none → length (set d k v) ≡ suc (length d)
  length-set_new [] k v h = refl
  length-set_new (entry ∷ d) k v h = ground (arith, length-set_new d k v)

  pub length-set_old :
      (d : Dict V) (k : String) (v w : V) → get d k ≡ some w → length (set d k v) ≡ length d
  length-set_old [] k v w h = cc
  length-set_old (entry ∷ d) k v w h = ground (arith, length-set_old d k v w)

  pub length-remove : (d : Dict V) (k : String) → length (remove d k) ≤ length d
  length-remove [] k = omega arith
  length-remove (entry ∷ d) k = ground (arith, length-remove d k)

  pub sum-set_new :
      (f : V → ℤ) (d : Dict V) (k : String) (v : V)
      → get d k ≡ none
      → sum_by f (set d k v) ≡ sum_by f d +ℤ f v
  sum-set_new f [] k v h =
      eq_of_parts _ _ (omega (arith, +ℤ_parts (f v) (pos 0), +ℤ_parts (pos 0) (f v)))
  sum-set_new f (entry ∷ d) k v h = elim (Bool-cases (entry.0 == k)) [
    | inl here ↦ absurd (ground arith)
    | inr there ↦
        rw (there, sum-set_new f d k v (ground (arith, there, h)))
          (eq_of_parts _ _ (
            omega (
              arith,
              +ℤ_parts (f entry.1) (sum_by f d +ℤ f v),
              +ℤ_parts (sum_by f d) (f v),
              +ℤ_parts (f entry.1 +ℤ sum_by f d) (f v),
              +ℤ_parts (f entry.1) (sum_by f d),
            )))
  ]

  pub sum-set_old :
      (f : V → ℤ) (d : Dict V) (k : String) (v w : V)
      → get d k ≡ some w
      → f v ≡ f w
      → sum_by f (set d k v) ≡ sum_by f d
  sum-set_old f [] k v w h e = cc
  sum-set_old f (entry ∷ d) k v w h e = elim (Bool-cases (entry.0 == k)) [
    | inl here ↦
        let same : entry.1 ≡ w = ground arith in
        rw here (ap (λ n. n +ℤ sum_by f d) (e ∙ ap f (sym same)))
    | inr there ↦ rw there (ap (λ n. f entry.1 +ℤ n) (sum-set_old f d k v w (ground arith) e))
  ]

  pub sum-remove :
      (f : V → ℤ) (d : Dict V) (k : String) (v : V)
      → HasDistinctKeys d
      → get d k ≡ some v
      → sum_by f d ≡ sum_by f (remove d k) +ℤ f v
  sum-remove f [] k v distinct h = cc
  sum-remove f (entry ∷ d) k v distinct h = elim (Bool-cases (entry.0 == k)) [
    | inl here ↦
        let same : entry.1 ≡ v = ground arith in
        let absent : get d k ≡ none = ground (arith, distinct.0, eq_iff entry.0 k, here) in
        rw (here, remove_absent d k absent, sym same)
          (eq_of_parts _ _
            (omega (arith, +ℤ_parts (f entry.1) (sum_by f d), +ℤ_parts (sum_by f d) (f entry.1))))
    | inr there ↦
        let rest = sum-remove f d k v distinct.1 (ground arith) in
        rw (there, rest)
          (eq_of_parts _ _ (
            omega (
              arith,
              +ℤ_parts (f entry.1) (sum_by f (remove d k) +ℤ f v),
              +ℤ_parts (sum_by f (remove d k)) (f v),
              +ℤ_parts (f entry.1) (sum_by f (remove d k)),
              +ℤ_parts (f entry.1 +ℤ sum_by f (remove d k)) (f v),
            )))
  ]

  pub AllValues-remove {κ} :
      (P : V → Type κ) (d : Dict V) (k : String) → AllValues P d → AllValues P (remove d k)
  AllValues-remove P [] k h = tt
  AllValues-remove P (entry ∷ d) k h = elim (Bool-cases (entry.0 == k)) [
    | inl here ↦ rw here (AllValues-remove P d k h.1)
    | inr there ↦ rw there (h.0, AllValues-remove P d k h.1)
  ]

  pub sum-nonneg : (f : V → ℤ) (d : Dict V) → AllValues (λ v. pos 0 ≤ℤ f v) d → pos 0 ≤ℤ sum_by f d
  sum-nonneg f [] h = omega arith
  sum-nonneg f (entry ∷ d) h =
      omega (arith, h.0, sum-nonneg f d h.1, +ℤ_parts (f entry.1) (sum_by f d))
