-- ===== src/Common/Lists.antt =====
-- Lists: length and membership as tests, predicates by recursion.
use polymarket_trade_executo.Common.{
  ℕ, suc, ◌≡◌, refl, ◌⊎◌, inl, inr, map, Bool, true, false, not, ◌||◌, ◌&&◌, List, [], ◌∷◌, ◌++◌,
  Eq, ◌==◌, if◌then◌else◌,
}

module _ {ℓ} {A : Type ℓ} where
  abbrev pub length : List A → ℕ
  length [] = 0
  length (x ∷ xs) = suc (length xs)

  -- `not xs`
  abbrev pub is_empty : List A → Bool
  is_empty [] = true
  is_empty (x ∷ xs) = false

  -- `any(test(x) for x in xs)`
  abbrev pub any : (A → Bool) → List A → Bool
  any test [] = false
  any test (x ∷ xs) = test x || any test xs

  -- `all(test(x) for x in xs)`
  abbrev pub all : (A → Bool) → List A → Bool
  all test [] = true
  all test (x ∷ xs) = test x && all test xs

  -- `[x for x in xs if test(x)]`
  abbrev pub filter : (A → Bool) → List A → List A
  filter test [] = []
  filter test (x ∷ xs) = if test x then x ∷ filter test xs else filter test xs

-- `a in xs`
abbrev pub contains {ℓ} : {A : Type ℓ} ⦃e : Eq A⦄ → List A → A → Bool
contains [] wanted = false
contains (x ∷ xs) wanted = wanted == x || contains xs wanted

-- `xs.add(a)` and `xs.discard(a)` of a set
abbrev pub add_to {ℓ} : {A : Type ℓ} ⦃e : Eq A⦄ → List A → A → List A
add_to xs a = if contains xs a then xs else xs ++ (a ∷ [])

abbrev pub discard {ℓ} : {A : Type ℓ} ⦃e : Eq A⦄ → List A → A → List A
discard xs a = filter (λ x. not (x == a)) xs

abbrev pub All {ℓ κ} : {A : Type ℓ} → (A → Type κ) → List A → Type κ
All P [] = Unit
All P (x ∷ xs) = P x × All P xs

pub All-append {ℓ κ} :
    {A : Type ℓ} (P : A → Type κ) (xs ys : List A) → All P xs → All P ys → All P (xs ++ ys)
All-append P [] ys hx hy = hy
All-append P (x ∷ xs) ys hx hy = (hx.0, All-append P xs ys hx.1 hy)

pub All-mono {ℓ κ μ} :
    {A : Type ℓ} (P : A → Type κ) (Q : A → Type μ) (xs : List A)
    → ((x : A) → P x → Q x)
    → All P xs
    → All Q xs
All-mono P Q [] keeps h = tt
All-mono P Q (x ∷ xs) keeps h = (keeps x h.0, All-mono P Q xs keeps h.1)

pub All-map {ℓ κ μ} :
    {A : Type ℓ} {B : Type κ} (f : A → B) (P : B → Type μ) (xs : List A)
    → All P (map f xs)
    → All (λ x. P (f x)) xs
All-map f P [] h = tt
All-map f P (x ∷ xs) h = (h.0, All-map f P xs h.1)

-- the element is one of the list
abbrev pub IsOneOf : {A : Type 0} → List A → A → Type 0
IsOneOf [] a = ⊥
IsOneOf (x ∷ xs) a = (a ≡ x) ⊎ IsOneOf xs a

pub All-IsOneOf : {A : Type 0} (xs : List A) → All (IsOneOf xs) xs
All-IsOneOf [] = tt
All-IsOneOf (x ∷ xs) =
    (inl refl, All-mono (IsOneOf xs) (IsOneOf (x ∷ xs)) xs (λ a h. inr h) (All-IsOneOf xs))
