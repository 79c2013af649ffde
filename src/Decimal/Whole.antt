-- ===== src/Decimal/Whole.antt =====
-- Decimals with no places: whole numbers, with a division that rounds to the nearest one, half away
-- from zero. They show that the laws of `IsDecimal` can be met; texts are tally marks.
use Prim.Native.Nat.{Ordering}
use Prim.Native.String
use native.Mathlib.Nat.{le-div_iff_mul-le, div-lt_iff_lt-mul, mul-div-le, lt-mul-div-succ}
use text.Mathlib.TextLemmas.{length-nil, length-cons}
use polymarket_go_bot.Prelude.{
  ℕ, zero, suc, ◌+◌, ◌*◌, ◌/◌, ◌≤◌, ◌<◌, String, ◌≡◌, refl, ap, ◌∙◌, true, not, ◌&&◌, arith,
  if◌then◌else◌, ◌↔◌,
}
use polymarket_go_bot.Prelude.Int.{
  ℤ, pos, negsuc, ◌+ℤ◌, ◌-ℤ◌, ◌*ℤ◌, ltb_ℤ, sub_ℕ, +ℤ_comm, +ℤ_assoc, +ℤ_idr, -ℤ-+ℤ_cancel, *ℤ_comm,
  *ℤ_assoc, *ℤ-one, *ℤ-+ℤ,
}
use polymarket_go_bot.Prelude.Go.{Go}
use polymarket_go_bot.Prelude.Fallible.{ok}
use polymarket_go_bot.Decimal.{Decimal, IsDecimal, dec_zero, half_unit, ◌≼◌, ◌≺◌}

-- n / m to the nearest number, a half going up
unfoldable pub round_div : ℕ → ℕ → ℕ
round_div n m = (2 * n + m) / (2 * m)

module _ (n k m : ℕ) (h : 0 < m) where
  le-round_div : k * m ≤ n → k ≤ round_div n m
  unfolding round_div
  le-round_div e =
      (le-div_iff_mul-le {k = 2 * m} {x = k} {y = 2 * n + m} (omega arith)).1 (omega arith)

  round_div-le : n ≤ k * m → round_div n m ≤ k
  unfolding round_div
  round_div-le e = omega (
    arith,
    (div-lt_iff_lt-mul {k = 2 * m} {x = 2 * n + m} {y = k + 1} (omega arith)).1 (omega arith),
  )

  mul-round_div-le : m * round_div n m ≤ n + m
  unfolding round_div
  mul-round_div-le = omega (arith, mul-div-le (2 * n + m) (2 * m))

  le-mul-round_div : n ≤ m * round_div n m + m
  unfolding round_div
  le-mul-round_div = omega (arith, lt-mul-div-succ (2 * n + m) {b = 2 * m} (omega arith))

  round_div_mono : n ≤ k → round_div n m ≤ round_div k m
  unfolding round_div
  round_div_mono e =
      (le-div_iff_mul-le {k = 2 * m} {x = (2 * n + m) / (2 * m)} {y = 2 * k + m} (omega arith)).1
        (omega (arith, mul-div-le (2 * n + m) (2 * m)))

abbrev pub neg_ℤ : ℕ → ℤ
neg_ℤ n = sub_ℕ 0 n

abbrev pub whole_div : ℤ → ℤ → ℤ
whole_div (pos n) (pos m) = pos (round_div n m)
whole_div (pos n) (negsuc m) = neg_ℤ (round_div n (suc m))
whole_div (negsuc n) (pos m) = neg_ℤ (round_div (suc n) m)
whole_div (negsuc n) (negsuc m) = pos (round_div (suc n) (suc m))

abbrev pub tally : ℕ → String
tally zero = String.[]
tally (suc n) = String.◌∷◌ "1" (tally n)

pub count-tally : (n : ℕ) → String.count (tally n) ≡ n
count-tally zero = length-nil
count-tally (suc n) = length-cons "1" (tally n) ∙ ap suc (count-tally n)

abbrev pub whole_text : ℤ → String
whole_text (pos n) = tally n
whole_text (negsuc n) = String.◌∷◌ "-" (tally (suc n))

instance abbrev pub whole : Decimal ℤ
whole = record {
  from_int = λ n. n;
  add = ◌+ℤ◌;
  sub = ◌-ℤ◌;
  mul = ◌*ℤ◌;
  div = whole_div;
  abs = λ a. if ltb_ℤ a (pos 0) then pos 0 -ℤ a else a;
  less_than = ltb_ℤ;
  greater_than = λ a b. ltb_ℤ b a;
  less_than_or_equal = λ a b. not (ltb_ℤ b a);
  equal = λ a b. not (ltb_ℤ b a) && not (ltb_ℤ a b);
  is_zero = λ a. not (ltb_ℤ a (pos 0)) && not (ltb_ℤ (pos 0) a);
  is_negative = λ a. ltb_ℤ a (pos 0);
  cmp = λ a b. if ltb_ℤ a b then Ordering.lt else if ltb_ℤ b a then Ordering.gt else Ordering.eq;
  min = λ a b. if ltb_ℤ b a then b else a;
  max = λ a b. if ltb_ℤ a b then b else a;
  truncate = λ a. a;
  string_fixed = λ a places. whole_text a;
  from_string = λ s. ok (pos (String.count s));
  float_pow = λ x n. Go.returns x;
}

mul_nonneg : (a b : ℤ) → dec_zero ≼ a → dec_zero ≼ b → dec_zero ≼ a *ℤ b
unfolding ◌*ℤ◌
mul_nonneg (pos n) (pos m) h k = ground arith
mul_nonneg (pos n) (negsuc m) h k = ground arith
mul_nonneg (negsuc n) b h k = ground arith

le-div : (n : ℕ) (a b : ℤ) → dec_zero ≺ b → pos n *ℤ b ≼ a → pos n ≼ whole_div a b
unfolding ◌*ℤ◌
le-div n a (negsuc m) h k = ground arith
le-div n (pos j) (pos m) h k = ground (arith, le-round_div j n m)
le-div n (negsuc j) (pos m) h k = ground (arith)

div-le : (n : ℕ) (a b : ℤ) → dec_zero ≺ b → a ≼ pos n *ℤ b → whole_div a b ≼ pos n
unfolding ◌*ℤ◌
div-le n a (negsuc m) h k = ground arith
div-le n (pos j) (pos m) h k = ground (arith, round_div-le j n m)
div-le n (negsuc j) (pos m) h k = ground (arith)

div_mono : (a a' b : ℤ) → dec_zero ≺ b → a ≼ a' → whole_div a b ≼ whole_div a' b
div_mono a a' (negsuc m) h k = ground arith
div_mono (pos n) (pos n') (pos m) h k = ground (arith, round_div_mono n n' m)
div_mono (pos n) (negsuc n') (pos m) h k = ground arith
div_mono (negsuc n) (pos n') (pos m) h k = ground arith
div_mono (negsuc n) (negsuc n') (pos m) h k = ground (arith, round_div_mono (suc n') (suc n) m)

mul-div-le' : (a b : ℤ) → dec_zero ≺ b → b *ℤ whole_div a b ≼ a +ℤ b *ℤ pos 1
unfolding ◌*ℤ◌ ◌+ℤ◌
mul-div-le' a (negsuc m) h = ground arith
mul-div-le' (pos n) (pos m) h = ground (arith, mul-round_div-le n 0 m)
mul-div-le' (negsuc n) (pos m) h = ground (arith, le-mul-round_div (suc n) 0 m)

le-mul-div : (a b : ℤ) → dec_zero ≺ b → a ≼ b *ℤ whole_div a b +ℤ b *ℤ pos 1
unfolding ◌*ℤ◌ ◌+ℤ◌
le-mul-div a (negsuc m) h = ground arith
le-mul-div (pos n) (pos m) h = ground (arith, le-mul-round_div n 0 m)
le-mul-div (negsuc n) (pos m) h = ground (arith, mul-round_div-le (suc n) 0 m)

from_int-suc : (n : ℕ) → pos (suc n) ≡ pos n +ℤ pos 1
unfolding ◌+ℤ◌
from_int-suc n = ground arith

add_le : (a b c : ℤ) → a ≼ b → a +ℤ c ≼ b +ℤ c
unfolding ◌+ℤ◌
add_le a b c h = ground arith

is_zero_iff : (a : ℤ) → (whole.is_zero a ≡ true) ↔ (a ≡ pos 0)
is_zero_iff a = ground arith

equal_iff : (a b : ℤ) → (whole.equal a b ≡ true) ↔ (a ≡ b)
equal_iff a b = ground arith

string_nonneg :
    (a : ℤ) → dec_zero ≼ a → (b : ℤ) × (whole.from_string (whole_text a) ≡ ok b) × (dec_zero ≼ b)
string_nonneg a h = (pos (String.count (whole_text a)), refl, ground arith)

half_unit_nonneg : (places : ℕ) → pos 0 ≼ half_unit {D = ℤ} places
half_unit_nonneg places = ground arith

string_near :
    (a : ℤ) (places : ℕ)
    → dec_zero ≼ a
    → (b : ℤ) × (whole.from_string (whole_text a) ≡ ok b)
      × (a ≼ b +ℤ half_unit {D = ℤ} places)
      × (b ≼ a +ℤ half_unit {D = ℤ} places)
unfolding ◌+ℤ◌
string_near (pos n) places h =
    let same = ap pos (count-tally n) in
    (
      pos n,
      ap ok same,
      ground (arith, half_unit_nonneg places),
      ground (arith, half_unit_nonneg places),
    )
string_near (negsuc n) places h = absurd (ground arith)

half_pos : pos 0 ≺ pos (round_div 1 2)
unfolding round_div
half_pos = refl

pub whole_laws : IsDecimal ℤ
whole_laws = record {
  add_comm = +ℤ_comm;
  add_assoc = +ℤ_assoc;
  add-zero = +ℤ_idr;
  sub-add = -ℤ-+ℤ_cancel;
  mul_comm = *ℤ_comm;
  mul_assoc = *ℤ_assoc;
  mul-one = *ℤ-one;
  mul-add = *ℤ-+ℤ;
  lt_asymm = λ a b h. ground arith;
  le_trans = λ a b c h k. ground arith;
  le_antisymm = λ a b h k. ground arith;
  add_le = add_le;
  mul_nonneg = mul_nonneg;
  zero_lt_one = refl;
  from_int-suc = from_int-suc;
  from_int_lt = λ a b h. h;
  greater_than_lem = λ a b. refl;
  less_than_or_equal_lem = λ a b. refl;
  is_zero_iff = is_zero_iff;
  equal_iff = equal_iff;
  is_negative_lem = λ a. refl;
  cmp_lem = λ a b. refl;
  min_lem = λ a b. refl;
  max_lem = λ a b. refl;
  abs_lem = λ a. refl;
  ulp = pos 1;
  le-div = le-div;
  div-le = div-le;
  div_mono = div_mono;
  mul-div-le = mul-div-le';
  le-mul-div = le-mul-div;
  half_pos = half_pos;
  string_fixed_nonneg = λ a places. string_nonneg a;
  string_fixed_near = string_near;
  float_pow_unit = λ x n h k m. (h, k);
}
