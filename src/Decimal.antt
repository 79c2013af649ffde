-- ===== src/Decimal.antt =====
-- The package github.com/shopspring/decimal, which is not part of the repository: the operations that
-- the program calls, as an interface. `D` is the type of the numbers that a `decimal.Decimal` can
-- stand for: 1.0 and 1.00 are one element, as they are for every operation below.
pub mod Laws
pub mod Whole
use Prim.Native.Nat.{Ordering}
use polymarket_go_bot.Prelude.{
  ℕ, zero, suc, ◌*◌, ◌^◌, String, ◌≡◌, ◌↔◌, Bool, true, false, not, if◌then◌else◌,
}
use polymarket_go_bot.Prelude.Int.{ℤ, pos, ltb_ℤ}
use polymarket_go_bot.Prelude.Go.{Go, Returns}
use polymarket_go_bot.Prelude.Fallible.{Fallible, ok}

pub record Decimal (D : Type 0) : Type 0 where
  pub from_int : ℤ → D
  pub add : D → D → D
  pub sub : D → D → D
  pub mul : D → D → D
  -- `Div` panics if the divisor is zero: the value of `div a b` for a zero `b` is never used, since
  -- the model calls `quo` below.
  pub div : D → D → D
  pub abs : D → D
  pub less_than : D → D → Bool
  pub greater_than : D → D → Bool
  pub less_than_or_equal : D → D → Bool
  pub equal : D → D → Bool
  pub is_zero : D → Bool
  pub is_negative : D → Bool
  pub cmp : D → D → Ordering
  pub min : D → D → D
  pub max : D → D → D
  -- Truncate(0).BigInt()
  pub truncate : D → ℤ
  pub string_fixed : D → ℕ → String
  pub from_string : String → Fallible D
  -- `NewFromFloat` of `math.Pow` of the two `Float64` values; it panics if that is no number.
  pub float_pow : D → D → Go D

module _ {D : Type 0} ⦃d : Decimal D⦄ where
  open d use {from_int, less_than}

  -- a.Div(b)
  abbrev pub quo : D → D → Go D
  quo a b = if d.is_zero b then Go.panics else Go.returns (d.div a b)

  -- decimal.Zero, decimal.NewFromInt(1) and the other constants of strategy.go
  abbrev pub dec_zero : D
  dec_zero = from_int (pos 0)

  abbrev pub dec_one : D
  dec_one = from_int (pos 1)

  abbrev pub dec_two : D
  dec_two = from_int (pos 2)

  abbrev pub dec_half : D
  dec_half = d.div (from_int (pos 1)) (from_int (pos 2))

  abbrev pub dec_one_half : D
  dec_one_half = d.div (from_int (pos 3)) (from_int (pos 2))

  infix 4 ◌≼◌ ◌≺◌
  abbrev pub ◌≼◌ : D → D → Type 0
  a ≼ b = less_than b a ≡ false

  abbrev pub ◌≺◌ : D → D → Type 0
  a ≺ b = less_than a b ≡ true

  -- Half of the last of so many decimal places.
  abbrev pub half_unit : (places : ℕ) → D
  half_unit places = d.div (from_int (pos 1)) (from_int (pos (2 * 10 ^ places)))

-- What the package documents of these operations, as far as the theorems rely on it: exact ring
-- operations, a total order, a division that rounds to a fixed number of places (so never past an
-- integer, and off by `ulp` at most), integers in their
-- order, texts that parse again to the number rounded to their places, and a power that stays in [0, 1].
pub record IsDecimal (D : Type 0) ⦃d : Decimal D⦄ : Type 0 where
  pub add_comm : (a b : D) → d.add a b ≡ d.add b a
  pub add_assoc : (a b c : D) → d.add (d.add a b) c ≡ d.add a (d.add b c)
  pub add-zero : (a : D) → d.add a dec_zero ≡ a
  pub sub-add : (a b : D) → d.add (d.sub a b) b ≡ a
  pub mul_comm : (a b : D) → d.mul a b ≡ d.mul b a
  pub mul_assoc : (a b c : D) → d.mul (d.mul a b) c ≡ d.mul a (d.mul b c)
  pub mul-one : (a : D) → d.mul a dec_one ≡ a
  pub mul-add : (a b c : D) → d.mul a (d.add b c) ≡ d.add (d.mul a b) (d.mul a c)
  pub lt_asymm : (a b : D) → a ≺ b → a ≼ b
  pub le_trans : (a b c : D) → a ≼ b → b ≼ c → a ≼ c
  pub le_antisymm : (a b : D) → a ≼ b → b ≼ a → a ≡ b
  pub add_le : (a b c : D) → a ≼ b → d.add a c ≼ d.add b c
  pub mul_nonneg : (a b : D) → dec_zero ≼ a → dec_zero ≼ b → dec_zero ≼ d.mul a b
  pub zero_lt_one : dec_zero {D = D} ≺ dec_one
  pub from_int-suc : (n : ℕ) → d.from_int (pos (suc n)) ≡ d.add (d.from_int (pos n)) dec_one
  pub from_int_lt : (a b : ℤ) → ltb_ℤ a b ≡ true → d.from_int a ≺ d.from_int b
  pub greater_than_lem : (a b : D) → d.greater_than a b ≡ d.less_than b a
  pub less_than_or_equal_lem : (a b : D) → d.less_than_or_equal a b ≡ not (d.less_than b a)
  pub is_zero_iff : (a : D) → (d.is_zero a ≡ true) ↔ (a ≡ dec_zero)
  pub equal_iff : (a b : D) → (d.equal a b ≡ true) ↔ (a ≡ b)
  pub is_negative_lem : (a : D) → d.is_negative a ≡ d.less_than a dec_zero
  pub cmp_lem :
      (a b : D)
      → d.cmp a b ≡ (
          if d.less_than a b
          then Ordering.lt
          else if d.less_than b a
          then Ordering.gt
          else Ordering.eq)
  pub min_lem : (a b : D) → d.min a b ≡ (if d.less_than b a then b else a)
  pub max_lem : (a b : D) → d.max a b ≡ (if d.less_than a b then b else a)
  pub abs_lem : (a : D) → d.abs a ≡ (if d.less_than a dec_zero then d.sub dec_zero a else a)
  pub ulp : D
  pub le-div :
      (n : ℕ) (a b : D)
      → dec_zero ≺ b
      → d.mul (d.from_int (pos n)) b ≼ a
      → d.from_int (pos n) ≼ d.div a b
  pub div-le :
      (n : ℕ) (a b : D)
      → dec_zero ≺ b
      → a ≼ d.mul (d.from_int (pos n)) b
      → d.div a b ≼ d.from_int (pos n)
  pub div_mono : (a a' b : D) → dec_zero ≺ b → a ≼ a' → d.div a b ≼ d.div a' b
  pub mul-div-le : (a b : D) → dec_zero ≺ b → d.mul b (d.div a b) ≼ d.add a (d.mul b ulp)
  pub le-mul-div : (a b : D) → dec_zero ≺ b → a ≼ d.add (d.mul b (d.div a b)) (d.mul b ulp)
  pub half_pos : dec_zero {D = D} ≺ dec_half
  pub string_fixed_nonneg :
      (a : D) (places : ℕ)
      → dec_zero ≼ a
      → (b : D) × (d.from_string (d.string_fixed a places) ≡ ok b) × (dec_zero ≼ b)
  pub string_fixed_near :
      (a : D) (places : ℕ)
      → dec_zero ≼ a
      → (b : D) × (d.from_string (d.string_fixed a places) ≡ ok b)
        × (a ≼ d.add b (half_unit places))
        × (b ≼ d.add a (half_unit places))
  pub float_pow_unit :
      (x n : D)
      → dec_zero ≼ x
      → x ≼ dec_one
      → dec_zero ≼ n
      → Returns (λ r. (dec_zero ≼ r) × (r ≼ dec_one)) (d.float_pow x n)
