-- ===== src/Prelude/Fallible.antt =====
-- Go's pair of a value and an `error`: either the value or an error, whose text is not kept.
use mathlib.Core.Path.{◌≡◌, refl}
use mathlib.Core.Logic.{◌⊎◌, inl, inr}

pub data Fallible {ℓ} (A : Type ℓ) : Type ℓ where
  ok : A → Fallible A
  fails : Fallible A

infixl 5 ◌>>=◌
abbrev pub ◌>>=◌ {ℓ κ} : {A : Type ℓ} {B : Type κ} → Fallible A → (A → Fallible B) → Fallible B
ok a >>= f = f a
fails >>= f = fails

-- A chain that succeeds has succeeded at its first step and at the rest.
pub >>=-ok {ℓ κ} :
    {A : Type ℓ} {B : Type κ} (first : Fallible A) (next : A → Fallible B) {result : B}
    → (first >>= next) ≡ ok result
    → (value : A) × (first ≡ ok value) × (next value ≡ ok result)
>>=-ok (ok value) next done = (value, refl, done)
>>=-ok fails next done = cc

pub ok-injective {ℓ} : {A : Type ℓ} {a b : A} → ok a ≡ ok b → a ≡ b
ok-injective h = cc

-- To split on a computed result and keep the equation.
pub Fallible-cases {ℓ} : {A : Type ℓ} (m : Fallible A) → (m ≡ fails) ⊎ ((a : A) × (m ≡ ok a))
Fallible-cases (ok a) = inr (a, refl)
Fallible-cases fails = inl refl
