-- ===== src/Prelude/Int.antt =====
-- Signed integers over the native numbers, under the library's names (its ℤ stands on the unary ℕ).
-- Orders and sums go through the two parts of an integer, which are numbers that `omega` reads.
use Prim.Native.Nat.{ℕ, suc, ◌+◌, ◌-◌, ◌*◌, ◌/◌}
use mathlib.Core.Path.{◌≡◌, ap}
use mathlib.Core.Bool.{Bool}
use native.Mathlib.Omega.{arith}
use polymarket_go_bot.Prelude.Tests.{ltb, leb, if◌then◌else◌}

-- `negsuc n` is -(n + 1).
pub data ℤ : Type 0 where
  pos : ℕ → ℤ
  negsuc : ℕ → ℤ

abbrev pub pos_part : ℤ → ℕ
pos_part (pos n) = n
pos_part (negsuc n) = 0

abbrev pub neg_part : ℤ → ℕ
neg_part (pos n) = 0
neg_part (negsuc n) = suc n

abbrev pub nat_abs : ℤ → ℕ
nat_abs (pos n) = n
nat_abs (negsuc n) = suc n

-- a - b, as an integer.
abbrev pub sub_ℕ : ℕ → ℕ → ℤ
sub_ℕ a b = if leb b a then pos (a - b) else negsuc (b - a - 1)

infixl 65 ◌+ℤ◌ ◌-ℤ◌
infixl 70 ◌*ℤ◌
unfoldable pub ◌+ℤ◌ : ℤ → ℤ → ℤ
a +ℤ b = sub_ℕ (pos_part a + pos_part b) (neg_part a + neg_part b)

unfoldable pub ◌-ℤ◌ : ℤ → ℤ → ℤ
a -ℤ b = sub_ℕ (pos_part a + neg_part b) (neg_part a + pos_part b)

unfoldable pub ◌*ℤ◌ : ℤ → ℤ → ℤ
a *ℤ b =
    sub_ℕ (pos_part a * pos_part b + neg_part a * neg_part b)
      (pos_part a * neg_part b + neg_part a * pos_part b)

abbrev pub ltb_ℤ : ℤ → ℤ → Bool
ltb_ℤ a b = ltb (pos_part a + neg_part b) (pos_part b + neg_part a)

-- Go's `/` on int64: towards zero. `d` is a positive constant of the source.
abbrev pub quot_ℕ : ℤ → ℕ → ℤ
quot_ℕ (pos n) d = pos (n / d)
quot_ℕ (negsuc n) d = sub_ℕ 0 (suc n / d)

ext : (a b : ℤ) → pos_part a + neg_part b ≡ pos_part b + neg_part a → a ≡ b
ext a b h = ground arith

+ℤ_parts :
    (a b : ℤ)
    → pos_part (a +ℤ b) + neg_part a + neg_part b ≡ neg_part (a +ℤ b) + pos_part a + pos_part b
unfolding ◌+ℤ◌
+ℤ_parts a b = ground arith

-ℤ_parts :
    (a b : ℤ)
    → pos_part (a -ℤ b) + neg_part a + pos_part b ≡ neg_part (a -ℤ b) + pos_part a + neg_part b
unfolding ◌-ℤ◌
-ℤ_parts a b = ground arith

pos_part-*ℤ : (a b : ℤ) → pos_part (a *ℤ b) ≡ pos_part a * pos_part b + neg_part a * neg_part b
unfolding ◌*ℤ◌
pos_part-*ℤ a b = ground arith

neg_part-*ℤ : (a b : ℤ) → neg_part (a *ℤ b) ≡ pos_part a * neg_part b + neg_part a * pos_part b
unfolding ◌*ℤ◌
neg_part-*ℤ a b = ground arith

ruleset times = (pos_part-*ℤ, neg_part-*ℤ)

pub +ℤ_comm : (a b : ℤ) → a +ℤ b ≡ b +ℤ a
+ℤ_comm a b = ext _ _ (omega (arith, +ℤ_parts))

pub +ℤ_assoc : (a b c : ℤ) → a +ℤ b +ℤ c ≡ a +ℤ (b +ℤ c)
+ℤ_assoc a b c = ext _ _ (omega (arith, +ℤ_parts))

pub +ℤ_idr : (a : ℤ) → a +ℤ pos 0 ≡ a
+ℤ_idr a = ext _ _ (omega (arith, +ℤ_parts))

pub -ℤ-+ℤ_cancel : (a b : ℤ) → a -ℤ b +ℤ b ≡ a
-ℤ-+ℤ_cancel a b = ext _ _ (omega (arith, +ℤ_parts, -ℤ_parts))

pub *ℤ_comm : (a b : ℤ) → a *ℤ b ≡ b *ℤ a
*ℤ_comm a b = ext _ _ (simp times (omega arith))

pub *ℤ_assoc : (a b c : ℤ) → a *ℤ b *ℤ c ≡ a *ℤ (b *ℤ c)
*ℤ_assoc a b c = ext _ _ (simp times (omega arith))

pub *ℤ-one : (a : ℤ) → a *ℤ pos 1 ≡ a
*ℤ-one a = ext _ _ (simp times (omega arith))

pub *ℤ-+ℤ : (a b c : ℤ) → a *ℤ (b +ℤ c) ≡ a *ℤ b +ℤ a *ℤ c
*ℤ-+ℤ a b c = ext _ _ (
    simp times (
      omega (
        arith,
        simp times at (+ℤ_parts (a *ℤ b) (a *ℤ c)),
        ap (λ (t : ℕ). pos_part a * t) (+ℤ_parts b c),
        ap (λ (t : ℕ). neg_part a * t) (+ℤ_parts b c),
      )))
