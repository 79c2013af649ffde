-- ===== src/Strategy/Bounds.antt =====
-- internal/engine/strategy.go: the ranges of the functions before the limit price.
use mathlib.Core.Path.{subst}
use polymarket_go_bot.Prelude.{◌≡◌, false, arith, Bool-cases, inl, inr}
use polymarket_go_bot.Prelude.Int.{pos}
use polymarket_go_bot.Prelude.Go.{Returns, Returns-bind}
use polymarket_go_bot.Decimal.{
  Decimal, IsDecimal, dec_zero, dec_one, dec_two, dec_half, dec_one_half, ◌≼◌, ◌≺◌,
}
use polymarket_go_bot.Decimal.Laws
use polymarket_go_bot.Strategy.{clamp, p_fair, dec_pow01, k_tte, target_tilt, eps_tte, money_tilt}

module _ {D : Type 0} ⦃d : Decimal D⦄ where
  -- x lies in [a, b].
  abbrev pub IsBetween : D → D → D → Type 0
  IsBetween a b x = (a ≼ x) × (x ≼ b)

module _ {D : Type 0} ⦃d : Decimal D⦄ (laws : IsDecimal D) where
  open d use {add, sub, mul, div, less_than}

  pub clamp-IsBetween : (x a b : D) → a ≼ b → IsBetween a b (clamp x a b)
  unfolding clamp
  clamp-IsBetween x a b h =
      ground (arith, laws.greater_than_lem x b, Laws.le_refl laws a, Laws.le_refl laws b)

  pub clamp_id : (x a b : D) → IsBetween a b x → clamp x a b ≡ x
  unfolding clamp
  clamp_id x a b h = ground (arith, laws.greater_than_lem x b)

  pub clamp_mono : (x y a b : D) → a ≼ b → x ≼ y → clamp x a b ≼ clamp y a b
  unfolding clamp
  clamp_mono x y a b h k = ground (
    arith,
    laws.greater_than_lem x b,
    laws.greater_than_lem y b,
    Laws.le_refl laws a,
    Laws.le_refl laws b,
    laws.le_trans x y b,
    laws.le_trans a x y,
  )

  pub zero_le_one : ◌≼◌ {D = D} dec_zero dec_one
  zero_le_one = laws.lt_asymm _ _ laws.zero_lt_one

  pub less_than_or_equal-false : (a b : D) → d.less_than_or_equal a b ≡ false → b ≺ a
  less_than_or_equal-false a b h = ground (arith, laws.less_than_or_equal_lem a b)

  pub two_pos : dec_zero {D = D} ≺ dec_two
  two_pos = rw (laws.from_int-suc 1) (
      Laws.lt_of_lt_of_le laws _ dec_one _ laws.zero_lt_one
        (Laws.le-add laws dec_one dec_one zero_le_one))

  -- A share a / b of a whole b.
  pub div_unit :
      (a b : D) → dec_zero ≺ b → dec_zero ≼ a → a ≼ b → IsBetween dec_zero dec_one (div a b)
  div_unit a b p h k = (
    laws.le-div 0 a b p (rw (Laws.zero-mul laws b) h),
    laws.div-le 1 a b p (rw (Laws.one-mul laws b) k),
  )

  pub half_unit : IsBetween {D = D} dec_zero dec_one dec_half
  half_unit =
      div_unit dec_one dec_two two_pos zero_le_one
        (rw (laws.from_int-suc 1) (Laws.le-add laws dec_one dec_one zero_le_one))

  le-add_right : (a b : D) → dec_zero ≼ a → b ≼ add a b
  le-add_right a b h = rw (laws.add_comm a b) (Laws.le-add laws b a h)

  -- From prices that are not negative the fair probability is in [0, 1]; there is no panic.
  pub p_fair-IsBetween :
      (mid_up mid_down : D)
      → dec_zero ≼ mid_up
      → dec_zero ≼ mid_down
      → Returns (IsBetween dec_zero dec_one) (p_fair mid_up mid_down)
  unfolding p_fair
  p_fair-IsBetween u w hu hw = elim (Bool-cases (d.less_than_or_equal (add u w) dec_zero)) [
    | inl e ↦ rw e half_unit
    | inr e ↦
        let p = less_than_or_equal-false (add u w) dec_zero e in
        rw (e, Laws.is_zero-pos laws (add u w) p)
          (div_unit u (add u w) p hu (Laws.le-add laws u w hw))
  ]

  -- A share of a cost that is not zero.
  share-IsBetween :
      (a b : D)
      → dec_zero ≼ a
      → dec_zero ≼ b
      → d.is_zero (add a b) ≡ false
      → IsBetween dec_zero dec_one (div a (add a b))
  share-IsBetween a b ha hb e =
      div_unit a (add a b)
        (Laws.pos_of_nonneg_of_ne laws _ (Laws.add_nonneg laws a b ha hb)
          (λ z. cc (e, (laws.is_zero_iff (add a b)).1 z)))
        ha (Laws.le-add laws a b hb)

  -- From a position and prices that are not negative the money tilt is in [0, 1]; there is no panic.
  pub money_tilt-IsBetween :
      (q_up p_up q_down p_down : D)
      → dec_zero ≼ q_up
      → dec_zero ≼ p_up
      → dec_zero ≼ q_down
      → dec_zero ≼ p_down
      → Returns (IsBetween dec_zero dec_one) (money_tilt q_up p_up q_down p_down)
  unfolding money_tilt
  money_tilt-IsBetween q p r s hq hp hr hs =
      elim (Bool-cases (d.is_zero (add (mul q p) (mul r s)))) [
        | inl e ↦ rw e half_unit
        | inr e ↦ rw e (
            share-IsBetween (mul q p) (mul r s) (laws.mul_nonneg q p hq hp)
              (laws.mul_nonneg r s hr hs) e)
      ]

  pub dec_pow01-IsBetween :
      (x n : D) → dec_zero ≼ n → Returns (IsBetween dec_zero dec_one) (dec_pow01 x n)
  unfolding dec_pow01
  dec_pow01-IsBetween x n h =
      let c = clamp-IsBetween x dec_zero dec_one zero_le_one in
      elim (Bool-cases (d.is_zero n)) [
        | inl e ↦ rw e (zero_le_one, Laws.le_refl laws _)
        | inr e ↦ rw e (elim (Bool-cases (d.is_zero (clamp x dec_zero dec_one))) [
          | inl e ↦ rw e (Laws.le_refl laws _, zero_le_one)
          | inr e ↦ rw e (elim (Bool-cases (d.equal (clamp x dec_zero dec_one) dec_one)) [
            | inl e ↦ rw e (zero_le_one, Laws.le_refl laws _)
            | inr e ↦ rw e (laws.float_pow_unit _ n c.0 c.1 h)
          ])
        ])
      ]

  -- lo + (hi - lo) * x for x in [0, 1]
  pub mix-IsBetween :
      (lo hi x : D)
      → lo ≼ hi
      → IsBetween dec_zero dec_one x
      → IsBetween lo hi (add lo (mul (sub hi lo) x))
  mix-IsBetween lo hi x h b =
      let room = Laws.sub_nonneg laws lo hi h in
      (
        Laws.le-add laws lo _ (laws.mul_nonneg _ x room b.0),
        subst (λ t. add lo (mul (sub hi lo) x) ≼ t) (Laws.add-sub laws lo hi)
            (Laws.add_le_left laws lo _ _ (Laws.mul-le_of_le_one laws (sub hi lo) x room b.1)),
      )

  -- For k_min at most k_max and alpha not negative, k stays between k_min and k_max, whatever the time;
  -- there is no panic.
  pub k_tte-IsBetween :
      (tte market_time_ms k_min k_max alpha : D)
      → k_min ≼ k_max
      → dec_zero ≼ alpha
      → Returns (IsBetween k_min k_max) (k_tte tte market_time_ms k_min k_max alpha)
  unfolding k_tte
  k_tte-IsBetween tte t lo hi alpha h ha = elim (Bool-cases (d.less_than_or_equal t dec_zero)) [
    | inl e ↦ rw e (Laws.le_refl laws lo, h)
    | inr e ↦
        rw (e, Laws.is_zero-pos laws t (less_than_or_equal-false t dec_zero e))
          (Returns-bind (IsBetween dec_zero dec_one) (IsBetween lo hi) (dec_pow01 _ alpha) _
            (dec_pow01-IsBetween _ alpha ha) (λ x b. mix-IsBetween lo hi x h b))
  ]

  -- For tau_min at most tau_max, k_min at most k_max and alpha not negative, the target stays between
  -- tau_min and tau_max, whatever the fair price and the time; there is no panic.
  pub target_tilt-IsBetween :
      (p tte market_time_ms k_min k_max alpha tau_min tau_max : D)
      → k_min ≼ k_max
      → dec_zero ≼ alpha
      → tau_min ≼ tau_max
      → Returns
          (IsBetween tau_min tau_max)
          (target_tilt p tte market_time_ms k_min k_max alpha tau_min tau_max)
  unfolding target_tilt
  target_tilt-IsBetween p tte t lo hi alpha tau_min tau_max h ha ht =
      Returns-bind (IsBetween lo hi) (IsBetween tau_min tau_max) (k_tte tte t lo hi alpha) _
        (k_tte-IsBetween tte t lo hi alpha h ha) (λ k b. clamp-IsBetween _ tau_min tau_max ht)

  -- 1 - x for x in [0, 1]
  pub one_minus-IsBetween :
      (x : D) → IsBetween dec_zero dec_one x → IsBetween dec_zero dec_one (sub dec_one x)
  one_minus-IsBetween x b = (Laws.sub_nonneg laws x dec_one b.1, Laws.sub-le laws dec_one x b.0)

  -- For eps_min at most eps_max, epsilon stays between them, whatever the time; there is no panic.
  pub eps_tte-IsBetween :
      (tte market_time_ms eps_min eps_max : D)
      → eps_min ≼ eps_max
      → Returns (IsBetween eps_min eps_max) (eps_tte tte market_time_ms eps_min eps_max)
  unfolding eps_tte
  eps_tte-IsBetween tte t lo hi h = elim (Bool-cases (d.less_than_or_equal t dec_zero)) [
    | inl e ↦ rw e (Laws.le_refl laws lo, h)
    | inr e ↦
        rw (e, Laws.is_zero-pos laws t (less_than_or_equal-false t dec_zero e))
          (mix-IsBetween lo hi _ h (one_minus-IsBetween _ (clamp-IsBetween _ _ _ zero_le_one)))
  ]

  -- The threshold shrinks as the market nears its end: for eps_min at most eps_max, epsilon with less
  -- time left is no larger.
  pub eps_tte_mono :
      (tte tte' market_time_ms eps_min eps_max : D)
      → eps_min ≼ eps_max
      → tte ≼ tte'
      → Returns
          (λ eps. Returns (λ eps'. eps ≼ eps') (eps_tte tte' market_time_ms eps_min eps_max))
          (eps_tte tte market_time_ms eps_min eps_max)
  unfolding eps_tte
  eps_tte_mono tte tte' t lo hi h ht = elim (Bool-cases (d.less_than_or_equal t dec_zero)) [
    | inl e ↦ rw e (Laws.le_refl laws lo)
    | inr e ↦
        let p = less_than_or_equal-false t dec_zero e in
        rw (e, Laws.is_zero-pos laws t p)
          (Laws.add_le_left laws lo _ _ (
            Laws.mul_le_left laws (sub hi lo) _ _ (Laws.sub_nonneg laws lo hi h) (
              Laws.sub_antitone laws _ _ dec_one (
                clamp_mono _ _ _ _ zero_le_one
                  (Laws.sub_antitone laws _ _ dec_one (laws.div_mono tte tte' t p ht))))))
  ]

  pub one_half_nonneg : dec_zero {D = D} ≼ dec_one_half
  one_half_nonneg = laws.le-div 0 _ _ two_pos (rw (Laws.zero-mul laws dec_two) (nonneg_three))
    where
      nonneg_three : dec_zero {D = D} ≼ d.from_int (pos 3)
      nonneg_three =
          rw (laws.from_int-suc 2)
            (Laws.add_nonneg laws _ _ (laws.lt_asymm _ _ two_pos) zero_le_one)

  pub div_nonneg : (a b : D) → dec_zero ≺ b → dec_zero ≼ a → dec_zero ≼ div a b
  div_nonneg a b p h = laws.le-div 0 a b p (rw (Laws.zero-mul laws b) h)
