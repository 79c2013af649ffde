-- ===== src/Prelude/Go.antt =====
-- What a Go call ends in when it has no error result: a value, a panic, or, for a loop that is run on
-- fuel, no end within the fuel.
use mathlib.Core.Path.{◌≡◌, refl}
use mathlib.Core.Bool.{Bool, true, false}
use polymarket_go_bot.Prelude.Tests.{if◌then◌else◌}

pub data Go {ℓ} (A : Type ℓ) : Type ℓ where
  returns : A → Go A
  panics : Go A
  out_of_fuel : Go A

infixl 5 ◌>>=◌
abbrev pub ◌>>=◌ {ℓ κ} : {A : Type ℓ} {B : Type κ} → Go A → (A → Go B) → Go B
returns a >>= f = f a
panics >>= f = panics
out_of_fuel >>= f = out_of_fuel

-- The call comes back, with a value of which `P` holds.
abbrev pub Returns {ℓ} : {A : Type ℓ} → (A → Type 0) → Go A → Type 0
Returns P (returns a) = P a
Returns P panics = ⊥
Returns P out_of_fuel = ⊥

module _ {ℓ κ} {A : Type ℓ} {B : Type κ} (P : A → Type 0) (Q : B → Type 0) where
  -- A `do` block comes back if each of its steps does.
  pub Returns-bind :
      (m : Go A) (f : A → Go B)
      → Returns P m
      → ((a : A) → P a → Returns Q (f a))
      → Returns Q (m >>= f)
  Returns-bind (returns a) f h k = k a h
  Returns-bind panics f h k = absurd h
  Returns-bind out_of_fuel f h k = absurd h

module _ {ℓ} {A : Type ℓ} where
  pub Returns-mono :
      (P Q : A → Type 0) (m : Go A) → Returns P m → ((a : A) → P a → Q a) → Returns Q m
  Returns-mono P Q (returns a) h k = k a h
  Returns-mono P Q panics h k = absurd h
  Returns-mono P Q out_of_fuel h k = absurd h

  -- What a call comes back with, if it does.
  pub Returns-value : (P : A → Type 0) (m : Go A) → Returns P m → (a : A) × (m ≡ returns a) × P a
  Returns-value P (returns a) h = (a, refl, h)
  Returns-value P panics h = absurd h
  Returns-value P out_of_fuel h = absurd h

pub >>=_assoc {ℓ} :
    {A B C : Type ℓ} (m : Go A) (f : A → Go B) (g : B → Go C)
    → (m >>= f >>= g) ≡ (m >>= λ a. f a >>= g)
>>=_assoc (returns a) f g = refl
>>=_assoc panics f g = refl
>>=_assoc out_of_fuel f g = refl

pub Returns-if {ℓ} :
    {A : Type ℓ} (P : A → Type 0) (b : Bool) (m n : Go A)
    → Returns P m
    → Returns P n
    → Returns P (if b then m else n)
Returns-if P true m n h k = h
Returns-if P false m n h k = k

-- What a call comes back with, if it does, satisfies `P`.
abbrev pub IfReturns {ℓ} : {A : Type ℓ} → (A → Type 0) → Go A → Type 0
IfReturns P (returns a) = P a
IfReturns P panics = Unit
IfReturns P out_of_fuel = Unit

module _ {ℓ κ} {A : Type ℓ} {B : Type κ} (Q : B → Type 0) where
  pub IfReturns-then :
      (m : Go A) (f : A → Go B) → ((a : A) → IfReturns Q (f a)) → IfReturns Q (m >>= f)
  IfReturns-then (returns a) f k = k a
  IfReturns-then panics f k = tt
  IfReturns-then out_of_fuel f k = tt

  pub IfReturns-bind :
      (P : A → Type 0) (m : Go A) (f : A → Go B)
      → IfReturns P m
      → ((a : A) → P a → IfReturns Q (f a))
      → IfReturns Q (m >>= f)
  IfReturns-bind P (returns a) f h k = k a h
  IfReturns-bind P panics f h k = tt
  IfReturns-bind P out_of_fuel f h k = tt

pub IfReturns-mono {ℓ} :
    {A : Type ℓ} (P Q : A → Type 0) (m : Go A)
    → IfReturns P m
    → ((a : A) → P a → Q a)
    → IfReturns Q m
IfReturns-mono P Q (returns a) h k = k a h
IfReturns-mono P Q panics h k = tt
IfReturns-mono P Q out_of_fuel h k = tt

-- A call that comes back, with a value that has a property of all values that it may come back with.
pub Returns-and {ℓ} :
    {A : Type ℓ} (P Q : A → Type 0) (m : Go A)
    → Returns P m
    → IfReturns Q m
    → Returns (λ a. P a × Q a) m
Returns-and P Q (returns a) h k = (h, k)
Returns-and P Q panics h k = absurd h
Returns-and P Q out_of_fuel h k = absurd h

pub IfReturns-if {ℓ} :
    {A : Type ℓ} (P : A → Type 0) (b : Bool) (m n : Go A)
    → IfReturns P m
    → IfReturns P n
    → IfReturns P (if b then m else n)
IfReturns-if P true m n h k = h
IfReturns-if P false m n h k = k

pub returns-injective {ℓ} : {A : Type ℓ} {a b : A} → returns a ≡ returns b → a ≡ b
returns-injective h = cc
