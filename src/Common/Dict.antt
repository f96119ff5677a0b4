-- ===== src/Common/Dict.antt =====
-- Python's dict from texts, as a list of entries in insertion order.
use polymarket_trade_executo.Common.{
  String, ◌≡◌, ◌≢◌, refl, sym, ap, subst, ◌∙◌, arith, Bool, true, false, Bool-cases, inl, inr,
  Option, none, some, List, [], ◌∷◌, map, ◌==◌, string_eq, eq_iff, if◌then◌else◌,
}

abbrev pub Dict {ℓ} : Type ℓ → Type ℓ
Dict V = List (String × V)

module _ {ℓ} {V : Type ℓ} where
  -- `d.get(k)`
  abbrev pub get : Dict V → String → Option V
  get [] k = none
  get (entry ∷ d) k = let rest = get d k in if entry.0 == k then some entry.1 else rest

  -- `d.get(k, default)`
  abbrev pub get_or : Dict V → String → V → V
  get_or d k default = elim (get d k) [ none ↦ default | some v ↦ v ]

  -- `d.keys()` and `d.values()`
  abbrev pub keys : Dict V → List String
  keys d = map (λ entry. entry.0) d

  abbrev pub values : Dict V → List V
  values d = map (λ entry. entry.1) d

  -- `k in d`
  abbrev pub has : Dict V → String → Bool
  has d k = elim (get d k) [ none ↦ false | some _ ↦ true ]

  -- `d[k] = v`: in place, or at the end
  abbrev pub set : Dict V → String → V → Dict V
  set [] k v = (k, v) ∷ []
  set (entry ∷ d) k v = let rest = set d k v in if entry.0 == k then (k, v) ∷ d else entry ∷ rest

  -- `d.pop(k, None)`, what is left
  abbrev pub remove : Dict V → String → Dict V
  remove [] k = []
  remove (entry ∷ d) k = let rest = remove d k in if entry.0 == k then rest else entry ∷ rest

  pub get-remove : (d : Dict V) (k : String) → get (remove d k) k ≡ none
  get-remove [] k = refl
  get-remove (entry ∷ d) k = ground (arith, get-remove d k)

  pub get-remove_other : (d : Dict V) (k j : String) → k ≢ j → get (remove d k) j ≡ get d j
  get-remove_other [] k j other = refl
  get-remove_other (entry ∷ d) k j other =
      ground (arith, get-remove_other d k j other, eq_iff entry.0 k, eq_iff entry.0 j, eq_iff k j)

  pub get-set : (d : Dict V) (k : String) (v : V) → get (set d k v) k ≡ some v
  get-set [] k v = ground (arith, eq_iff k k)
  get-set (entry ∷ d) k v = ground (arith, get-set d k v, eq_iff k k)

  pub remove-set_new : (d : Dict V) (k : String) (v : V) → get d k ≡ none → remove (set d k v) k ≡ d
  remove-set_new [] k v new = ground (arith, eq_iff k k)
  remove-set_new (entry ∷ d) k v new = ground (arith, remove-set_new d k v, new, eq_iff k k)

  -- What holds of every value holds of one that is looked up, and stays when one is set that has it.
  module _ {κ} (P : V → Type κ) where
    abbrev pub AllValues : Dict V → Type κ
    AllValues [] = Unit
    AllValues (entry ∷ d) = P entry.1 × AllValues d

    pub AllValues-get : (d : Dict V) (k : String) (v : V) → AllValues d → get d k ≡ some v → P v
    AllValues-get [] k v h e = cc
    AllValues-get (entry ∷ d) k v h e = elim (Bool-cases (entry.0 == k)) [
      | inl here ↦
          let found : some entry.1 ≡ some v =
            sym (ap (λ b. if b then some entry.1 else get d k) here) ∙ e in
          subst P (cc) h.0
      | inr there ↦
          AllValues-get d k v h.1 (sym (ap (λ b. if b then some entry.1 else get d k) there) ∙ e)
    ]

    pub AllValues-set :
        (d : Dict V) (k : String) (v : V) → AllValues d → P v → AllValues (set d k v)
    AllValues-set [] k v h p = (p, tt)
    AllValues-set (entry ∷ d) k v h p = elim (Bool-cases (entry.0 == k)) [
      | inl here ↦ rw here (p, h.1)
      | inr there ↦ rw there (h.0, AllValues-set d k v h.1 p)
    ]
