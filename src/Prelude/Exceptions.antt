-- ===== src/Prelude/Exceptions.antt =====
-- Code that may throw: a value, or what was thrown.
use mathlib.Core.Path.{◌≡◌, refl}
use mathlib.Core.Logic.{◌⊎◌, inl, inr}
use mathlib.Core.Bool.{Bool, true, false}

pub data Except {ℓ κ} (E : Type κ) (A : Type ℓ) : Type (ℓ ⊔ κ) where
  returned : A → Except E A
  thrown : E → Except E A

infixl 5 ◌>>=◌ ◌>>◌
abbrev pub ◌>>=◌ {ℓ κ μ} :
    {E : Type κ} {A : Type ℓ} {B : Type μ} → Except E A → (A → Except E B) → Except E B
returned a >>= f = f a
thrown e >>= f = thrown e

abbrev pub ◌>>◌ {ℓ κ} : {E : Type κ} {B : Type ℓ} → Except E (Unit {0}) → Except E B → Except E B
m >> k = m >>= λ _. k

-- `if (test) throw e`
abbrev pub throw_if {κ} : {E : Type κ} → Bool → E → Except E (Unit {0})
throw_if true e = thrown e
throw_if false e = returned tt

pub Except-cases {ℓ κ} :
    {E : Type κ} {A : Type ℓ} (m : Except E A)
    → ((a : A) × (m ≡ returned a)) ⊎ ((e : E) × (m ≡ thrown e))
Except-cases (returned a) = inl (a, refl)
Except-cases (thrown e) = inr (e, refl)

-- A sequence returns only if both parts do.
pub >>-returned {ℓ κ} :
    {E : Type κ} {B : Type ℓ} (m : Except E (Unit {0})) (k : Except E B) {b : B}
    → (m >> k) ≡ returned b
    → (m ≡ returned tt) × (k ≡ returned b)
>>-returned (returned a) k h = (refl, h)
>>-returned (thrown e) k h = cc

pub >>=-returned {ℓ κ μ} :
    {E : Type κ} {A : Type ℓ} {B : Type μ} (m : Except E A) (f : A → Except E B) {b : B}
    → (m >>= f) ≡ returned b
    → (a : A) × (m ≡ returned a) × (f a ≡ returned b)
>>=-returned (returned a) f h = (a, refl, h)
>>=-returned (thrown e) f h = cc

pub returned-injective {ℓ κ} :
    {E : Type κ} {A : Type ℓ} {a b : A} → ◌≡◌ {A = Except E A} (returned a) (returned b) → a ≡ b
returned-injective h = cc

pub >>=-assoc {ℓ κ μ ν} :
    {E : Type κ} {A : Type ℓ} {B : Type μ} {C : Type ν} (m : Except E A) (f : A → Except E B)
    (g : B → Except E C)
    → ((m >>= f) >>= g) ≡ (m >>= λ a. f a >>= g)
>>=-assoc (returned a) f g = refl
>>=-assoc (thrown e) f g = refl
