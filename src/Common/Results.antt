-- ===== src/Common/Results.antt =====
-- A call that may raise: a value or the exception.
use mathlib.Core.Path.{◌≡◌, refl, subst}
use mathlib.Core.Bool.{Bool, true, false}
use mathlib.Core.Logic.{◌⊎◌, inl, inr}
use polymarket_trade_executo.Common.Tests.{if◌then◌else◌}

pub data Result {ℓ κ} (E : Type κ) (A : Type ℓ) : Type (ℓ ⊔ κ) where
  ok : A → Result E A
  err : E → Result E A

module _ {ℓ κ μ} {E : Type μ} {A : Type ℓ} {B : Type κ} where
  infixl 5 ◌>>=◌
  abbrev pub ◌>>=◌ : (first : Result E A) (next : A → Result E B) → Result E B
  err exception >>= next = err exception
  ok value >>= next = next value

module _ {ℓ μ} {E : Type μ} {B : Type ℓ} where
  infixl 5 ◌>>◌
  abbrev pub ◌>>◌ : (check : Result E (Unit {0})) (next : Result E B) → Result E B
  check >> next = check >>= λ _. next

-- `if c: raise e`
abbrev pub raise_if {μ} : {E : Type μ} → Bool → E → Result E (Unit {0})
raise_if true e = err e
raise_if false e = ok tt

-- The first step of a chain that returned did return, and the rest ran on its value.
module _ {ℓ κ μ} {E : Type μ} {A : Type ℓ} {B : Type κ} where
  pub >>=-returns :
      (first : Result E A) (next : A → Result E B) {b : B} (returned : (first >>= next) ≡ ok b)
      → (a : A) × (first ≡ ok a) × (next a ≡ ok b)
  >>=-returns (err exception) next returned = cc
  >>=-returns (ok value) next returned = (value, refl, returned)

pub Result-cases {ℓ μ} :
    {E : Type μ} {A : Type ℓ} (m : Result E A) → ((a : A) × (m ≡ ok a)) ⊎ ((e : E) × (m ≡ err e))
Result-cases (ok a) = inl (a, refl)
Result-cases (err e) = inr (e, refl)

pub ok-injective {ℓ μ} :
    {E : Type μ} {A : Type ℓ} {a b : A} → (let r : Result E A = ok a in r ≡ ok b) → a ≡ b
ok-injective h = cc

-- Whatever `r` returns satisfies `P`.
pub record Ensures {ℓ κ μ} {E : Type μ} {A : Type ℓ} (P : A → Type κ) (r : Result E A)
    : Type (ℓ ⊔ κ ⊔ μ) where
  pub at : (a : A) → r ≡ ok a → P a

module _ {ℓ κ μ} {E : Type μ} {A : Type ℓ} {P : A → Type κ} where
  pub Ensures-ok : (a : A) → P a → (let r : Result E A = ok a in Ensures P r)
  Ensures-ok a h = record { at = λ b e. subst P (cc) h }

  pub Ensures-err : (e : E) → (let r : Result E A = err e in Ensures P r)
  Ensures-err e = record { at = λ b h. cc }

  pub Ensures-if :
      (c : Bool) (r s : Result E A)
      → (c ≡ true → Ensures P r)
      → (c ≡ false → Ensures P s)
      → Ensures P (if c then r else s)
  Ensures-if true r s hr hs = hr refl
  Ensures-if false r s hr hs = hs refl

  pub Ensures-guard :
      (c : Bool) (e : E) (r : Result E A)
      → (c ≡ false → Ensures P r)
      → Ensures P (raise_if c e >> r)
  Ensures-guard true e r h = Ensures-err e
  Ensures-guard false e r h = h refl

module _ {ℓ κ ν μ} {E : Type μ} {A : Type ℓ} {B : Type ν} {P : B → Type κ} where
  pub Ensures-bind :
      (m : Result E A) (f : A → Result E B)
      → ((a : A) → m ≡ ok a → Ensures P (f a))
      → Ensures P (m >>= f)
  Ensures-bind (ok a) f h = h a refl
  Ensures-bind (err e) f h = Ensures-err e

-- A `do` block is read off by these rules.
pub ruleset ensures_rules = (Ensures-ok, Ensures-err, Ensures-if, Ensures-guard, Ensures-bind)

module _ {ℓ κ ν μ} {E : Type μ} {A : Type ℓ} {P : A → Type κ} {Q : A → Type ν} where
  pub Ensures-weaken : (r : Result E A) → ((a : A) → P a → Q a) → Ensures P r → Ensures Q r
  Ensures-weaken r f h = record { at = λ a e. f a (h.at a e) }

-- Whatever `r` raises satisfies `P`.
pub record Fails {ℓ κ μ} {E : Type μ} {A : Type ℓ} (P : E → Type κ) (r : Result E A)
    : Type (ℓ ⊔ κ ⊔ μ) where
  pub at : (e : E) → r ≡ err e → P e

module _ {ℓ κ μ} {E : Type μ} {A : Type ℓ} {P : E → Type κ} where
  pub Fails-ok : (a : A) → (let r : Result E A = ok a in Fails P r)
  Fails-ok a = record { at = λ e h. cc }

  pub Fails-err : (e : E) → P e → (let r : Result E A = err e in Fails P r)
  Fails-err e p = record { at = λ d h. subst P (cc) p }

  pub Fails-if :
      (c : Bool) (r s : Result E A)
      → (c ≡ true → Fails P r)
      → (c ≡ false → Fails P s)
      → Fails P (if c then r else s)
  Fails-if true r s hr hs = hr refl
  Fails-if false r s hr hs = hs refl

  pub Fails-guard :
      (c : Bool) (e : E) (r : Result E A)
      → (c ≡ true → P e)
      → (c ≡ false → Fails P r)
      → Fails P (raise_if c e >> r)
  Fails-guard true e r he hr = Fails-err e (he refl)
  Fails-guard false e r he hr = hr refl

module _ {ℓ κ ν μ} {E : Type μ} {A : Type ℓ} {B : Type ν} {P : E → Type κ} where
  pub Fails-bind :
      (m : Result E A) (f : A → Result E B)
      → Fails P m
      → ((a : A) → m ≡ ok a → Fails P (f a))
      → Fails P (m >>= f)
  Fails-bind (ok a) f hm hf = hf a refl
  Fails-bind (err e) f hm hf = Fails-err e (hm.at e refl)

pub ruleset fails_rules = (Fails-ok, Fails-err, Fails-if, Fails-guard, Fails-bind)
