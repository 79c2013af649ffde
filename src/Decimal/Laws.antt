-- ===== src/Decimal/Laws.antt =====
-- Facts about decimals that follow from `IsDecimal`: an ordered ring, and division by positive numbers.
use mathlib.Core.Path.{subst}
use polymarket_go_bot.Prelude.{ℕ, zero, suc, ◌≡◌, sym, ap, ◌∙◌, inl, inr, false, Bool-cases, ◌≢◌}
use polymarket_go_bot.Prelude.Int.{pos}
use polymarket_go_bot.Prelude.Go.{Go}
use polymarket_go_bot.Decimal.{Decimal, IsDecimal, dec_zero, dec_one, ◌≼◌, ◌≺◌, quo}

module _ {D : Type 0} ⦃d : Decimal D⦄ (laws : IsDecimal D) where
  open d use {add, sub, mul, div, less_than}
  open laws use {
    add_comm, add_assoc, from_int-suc, add-zero, sub-add, mul_comm, mul_assoc, mul-one, mul-add,
    lt_asymm, le_trans, le_antisymm, add_le, mul_nonneg, zero_lt_one,
  }

  pub le_refl : (a : D) → a ≼ a
  le_refl a = elim (Bool-cases (less_than a a)) [ inl h ↦ lt_asymm a a h | inr h ↦ h ]

  pub le_of_eq : {a b : D} → a ≡ b → a ≼ b
  le_of_eq {a} e = rw (← e) (le_refl a)

  pub zero-add : (a : D) → add dec_zero a ≡ a
  zero-add a = add_comm dec_zero a ∙ add-zero a

  pub add-sub : (a b : D) → add a (sub b a) ≡ b
  add-sub a b = add_comm a (sub b a) ∙ sub-add b a

  pub add_le_left : (a b c : D) → b ≼ c → add a b ≼ add a c
  add_le_left a b c h = rw (add_comm a b, add_comm a c) (add_le b c a h)

  pub add_mono : (a b c e : D) → a ≼ b → c ≼ e → add a c ≼ add b e
  add_mono a b c e h k =
      le_trans (add a c) (add b c) (add b e) (add_le a b c h) (add_le_left b c e k)

  pub add-sub_cancel : (a b : D) → sub (add a b) b ≡ a
  add-sub_cancel a b =
      sym (add-zero _)
      ∙ ap (add (sub (add a b) b)) (sym (add-sub b dec_zero))
      ∙ sym (add_assoc _ _ _)
      ∙ ap (λ t. add t (sub dec_zero b)) (sub-add (add a b) b)
      ∙ add_assoc a b (sub dec_zero b)
      ∙ ap (add a) (add-sub b dec_zero)
      ∙ add-zero a

  pub sub-eq-add : (a b : D) → sub a b ≡ add a (sub dec_zero b)
  sub-eq-add a b = ap (λ t. sub t b) (sym regroup) ∙ add-sub_cancel (add a (sub dec_zero b)) b
    where
      regroup : add (add a (sub dec_zero b)) b ≡ a
      regroup = add_assoc a _ b ∙ ap (add a) (sub-add dec_zero b) ∙ add-zero a

  pub sub_mono : (a b c : D) → a ≼ b → sub a c ≼ sub b c
  sub_mono a b c h = rw (sub-eq-add a c, sub-eq-add b c) (add_le a b (sub dec_zero c) h)

  pub le_of_add_le : (a b c : D) → add a c ≼ add b c → a ≼ b
  le_of_add_le a b c h =
      subst (λ t. t ≼ b) (add-sub_cancel a c)
        (subst (λ t. sub (add a c) c ≼ t) (add-sub_cancel b c) (sub_mono (add a c) (add b c) c h))

  pub sub_self : (a : D) → sub a a ≡ dec_zero
  sub_self a = ap (λ t. sub t a) (sym (zero-add a)) ∙ add-sub_cancel dec_zero a

  pub sub_nonneg : (a b : D) → a ≼ b → dec_zero ≼ sub b a
  sub_nonneg a b h = subst (λ t. t ≼ sub b a) (sub_self a) (sub_mono a b a h)

  pub le-add : (a b : D) → dec_zero ≼ b → a ≼ add a b
  le-add a b h = subst (λ t. t ≼ add a b) (add-zero a) (add_le_left a dec_zero b h)

  pub add_nonneg : (a b : D) → dec_zero ≼ a → dec_zero ≼ b → dec_zero ≼ add a b
  add_nonneg a b h k = le_trans dec_zero a (add a b) h (le-add a b k)

  -- 0 - a
  pub sub_antitone : (a b c : D) → a ≼ b → sub c b ≼ sub c a
  sub_antitone a b c h = le_of_add_le (sub c b) (sub c a) b (
      rw (sub-add c b)
        (subst (λ t. t ≼ add (sub c a) b) (sub-add c a) (add_le_left (sub c a) a b h)))

  pub sub-le : (a b : D) → dec_zero ≼ b → sub a b ≼ a
  sub-le a b h = subst (λ t. sub a b ≼ t) (sub-add a b) (le-add (sub a b) b h)

  pub mul_le_left : (a b c : D) → dec_zero ≼ a → b ≼ c → mul a b ≼ mul a c
  mul_le_left a b c h k =
      subst (λ t. mul a b ≼ t) (sym (mul-add a b (sub c b)) ∙ ap (mul a) (add-sub b c))
        (le-add (mul a b) (mul a (sub c b)) (mul_nonneg a (sub c b) h (sub_nonneg b c k)))

  pub mul_le_right : (a b c : D) → dec_zero ≼ a → b ≼ c → mul b a ≼ mul c a
  mul_le_right a b c h k = rw (mul_comm b a, mul_comm c a) (mul_le_left a b c h k)

  pub mul-le_of_le_one : (a b : D) → dec_zero ≼ a → b ≼ dec_one → mul a b ≼ a
  mul-le_of_le_one a b h k = subst (λ t. mul a b ≼ t) (mul-one a) (mul_le_left a b dec_one h k)

  pub mul-zero : (a : D) → mul a dec_zero ≡ dec_zero
  mul-zero a =
      sym (add-sub_cancel (mul a dec_zero) (mul a dec_zero))
      ∙ ap (λ t. sub t (mul a dec_zero))
          (sym (mul-add a dec_zero dec_zero) ∙ ap (mul a) (add-zero dec_zero))
      ∙ sub_self (mul a dec_zero)

  pub one-mul : (a : D) → mul dec_one a ≡ a
  one-mul a = mul_comm dec_one a ∙ mul-one a

  pub zero-mul : (a : D) → mul dec_zero a ≡ dec_zero
  zero-mul a = mul_comm dec_zero a ∙ mul-zero a

  pub lt_of_lt_of_le : (a b c : D) → a ≺ b → b ≼ c → a ≺ c
  lt_of_lt_of_le a b c h k = elim (Bool-cases (less_than a c)) [
    | inl yes' ↦ yes'
    | inr no' ↦ absurd (cc (h, le_trans b c a k no'))
  ]

  pub lt_of_le_of_lt : (a b c : D) → a ≼ b → b ≺ c → a ≺ c
  lt_of_le_of_lt a b c h k = elim (Bool-cases (less_than a c)) [
    | inl yes' ↦ yes'
    | inr no' ↦ absurd (cc (k, le_trans c a b no' h))
  ]

  pub pos_of_nonneg_of_ne : (a : D) → dec_zero ≼ a → a ≢ dec_zero → dec_zero ≺ a
  pos_of_nonneg_of_ne a h k = elim (Bool-cases (less_than dec_zero a)) [
    | inl yes' ↦ yes'
    | inr no' ↦ absurd (k (le_antisymm a dec_zero no' h))
  ]

  pub is_zero-pos : (a : D) → dec_zero ≺ a → d.is_zero a ≡ false
  is_zero-pos a h = elim (Bool-cases (d.is_zero a)) [
    | inl z ↦ absurd (cc (h, le_refl dec_zero, (laws.is_zero_iff a).0 z))
    | inr n ↦ n
  ]

  pub from_int_nonneg : (n : ℕ) → dec_zero ≼ d.from_int (pos n)
  from_int_nonneg zero = le_refl dec_zero
  from_int_nonneg (suc n) = rw (from_int-suc n) (
      add_nonneg (d.from_int (pos n)) dec_one (from_int_nonneg n)
        (lt_asymm dec_zero dec_one zero_lt_one))

  pub from_int-suc_pos : (n : ℕ) → dec_zero ≺ d.from_int (pos (suc n))
  from_int-suc_pos n = rw (from_int-suc n) (
      lt_of_lt_of_le dec_zero dec_one (add (d.from_int (pos n)) dec_one) zero_lt_one (
        rw (add_comm (d.from_int (pos n)) dec_one)
          (le-add dec_one (d.from_int (pos n)) (from_int_nonneg n))))

  pub quo-pos : (a b : D) → dec_zero ≺ b → quo a b ≡ Go.returns (div a b)
  quo-pos a b h = rw (is_zero-pos b h)

  pub sub_lt : (a b : D) → dec_zero ≺ b → sub a b ≺ a
  sub_lt a b h = elim (Bool-cases (less_than (sub a b) a)) [
    | inl lt ↦ lt
    | inr ge ↦ absurd (cc (h, nonpos ge))
  ]
    where
      nonpos : a ≼ sub a b → b ≼ dec_zero
      nonpos ge =
          le_of_add_le b dec_zero (sub a b)
            (rw (zero-add (sub a b), add_comm b (sub a b), sub-add a b) ge)
