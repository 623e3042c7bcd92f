-- ===== src/Run.antt =====
-- What a call that may throw ends with.
use mathlib.Core.Path.{◌≡◌, refl, ap}
use mathlib.Core.Logic.{◌⊎◌, inl, inr}

-- `undefined`: behaviour that C++ leaves undefined.
pub data Run {ℓ κ} (E : Type ℓ) (A : Type κ) : Type (ℓ ⊔ κ) where
  done : A → Run E A
  throws : E → Run E A
  undefined : Run E A

infixl 5 ◌>>=◌
abbrev pub ◌>>=◌ {ℓ κ μ} :
    {E : Type ℓ} {A : Type κ} {B : Type μ} → Run E A → (A → Run E B) → Run E B
done a >>= f = f a
throws e >>= f = throws e
undefined >>= f = undefined

pub bind-eq-done {ℓ κ μ} :
    {E : Type ℓ} {A : Type κ} {B : Type μ} (m : Run E A) (f : A → Run E B) {b : B}
    → (m >>= f) ≡ done b
    → (a : A) × (m ≡ done a) × (f a ≡ done b)
bind-eq-done (done a) f h = (a, refl, h)
bind-eq-done (throws e) f h = cc
bind-eq-done undefined f h = cc

value_or {ℓ κ} : {E : Type ℓ} {A : Type κ} → A → Run E A → A
value_or d (done a) = a
value_or d (throws e) = d
value_or d undefined = d

pub done-injective {ℓ κ} :
    {E : Type ℓ} {A : Type κ} {a b : A} → ◌≡◌ {A = Run E A} (done a) (done b) → a ≡ b
unfolding value_or
done-injective {a = a} h = ap (value_or a) h

pub Run-cases {ℓ κ} :
    {E : Type ℓ} {A : Type κ} (m : Run E A)
    → ((a : A) × (m ≡ done a)) ⊎ (((e : E) × (m ≡ throws e)) ⊎ (m ≡ undefined))
Run-cases (done a) = inl (a, refl)
Run-cases (throws e) = inr (inl (e, refl))
Run-cases undefined = inr (inr refl)
