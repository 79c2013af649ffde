-- ===== src/Strategy/Price.antt =====
-- internal/engine/strategy.go: the range of chooseLimitPrice.
use mathlib.Core.Path.{subst}
use polymarket_go_bot.Prelude.{◌∙◌, ap, arith, Bool-cases, inl, inr}
use polymarket_go_bot.Prelude.Go.{Returns, Returns-bind}
use polymarket_go_bot.Decimal.{Decimal, IsDecimal, dec_zero, dec_one, dec_two, dec_one_half, ◌≼◌}
use polymarket_go_bot.Decimal.Laws
use polymarket_go_bot.Strategy.{clamp, k_tte, choose_limit_price}
use polymarket_go_bot.Strategy.Bounds.{
  IsBetween, clamp-IsBetween, clamp_id, clamp_mono, zero_le_one, less_than_or_equal-false, two_pos,
  k_tte-IsBetween, one_half_nonneg,
}

module _ {D : Type 0} ⦃d : Decimal D⦄ (laws : IsDecimal D) where
  open d use {add, sub, mul, div, less_than}

  -- a * b <= c for a in [0, 1] and b in [0, c]
  unit-mul-IsBetween :
      (a b c : D)
      → IsBetween dec_zero dec_one a
      → IsBetween dec_zero c b
      → IsBetween dec_zero c (mul a b)
  unit-mul-IsBetween a b c h k = (
    laws.mul_nonneg a b h.0 k.0,
    laws.le_trans _ b c (rw (laws.mul_comm a b) (Laws.mul-le_of_le_one laws b a k.0 h.1)) k.1,
  )

  abs_nonneg : (a : D) → dec_zero ≼ d.abs a
  abs_nonneg a =
      ground (arith, laws.abs_lem a, Laws.sub_nonneg laws a dec_zero, laws.lt_asymm a dec_zero)

  -- The price for an aggression of at most `c`.
  module _ (bid ask e tte market_time_ms k_min k_max alpha e_max c : D) where
    choose_limit_price_within :
        bid ≼ ask
        → k_min ≼ k_max
        → dec_zero ≼ alpha
        → dec_zero ≼ c
        → ((k : D) → IsBetween k_min k_max k → IsBetween dec_zero c (clamp k dec_zero dec_one_half))
        → Returns
            (IsBetween bid (add bid (mul c (sub ask bid))))
            (choose_limit_price bid ask e tte market_time_ms k_min k_max alpha e_max)
    unfolding choose_limit_price
    choose_limit_price_within h hk ha hc cap =
        let spread = Laws.sub_nonneg laws bid ask h in
        elim (Bool-cases (d.less_than_or_equal e_max dec_zero)) [
          | inl z ↦
              rw z (Laws.le_refl laws bid, Laws.le-add laws bid _ (laws.mul_nonneg _ _ hc spread))
          | inr z ↦
              rw (z, Laws.is_zero-pos laws e_max (less_than_or_equal-false laws e_max dec_zero z))
                (Returns-bind (IsBetween k_min k_max)
                  (IsBetween bid (add bid (mul c (sub ask bid))))
                  (k_tte tte market_time_ms k_min k_max alpha) _
                  (k_tte-IsBetween laws tte market_time_ms k_min k_max alpha hk ha)
                  λ k b.
                    let share =
                      clamp-IsBetween laws (div (d.abs e) e_max) dec_zero dec_one
                        (zero_le_one laws) in
                    let m = unit-mul-IsBetween _ _ c share (cap k b) in
                    (
                      Laws.le-add laws bid _ (laws.mul_nonneg _ _ m.0 spread),
                      Laws.add_le_left laws bid _ _
                          (Laws.mul_le_right laws (sub ask bid) _ c spread m.1),
                    ))
        ]

  -- For a bid not above the ask, k_min at most k_max and alpha not negative, the limit price lies
  -- between the bid and the bid plus one and a half spreads, on every branch and for every time; there
  -- is no panic.
  pub choose_limit_price-IsBetween :
      (bid ask e tte market_time_ms k_min k_max alpha e_max : D)
      → bid ≼ ask
      → k_min ≼ k_max
      → dec_zero ≼ alpha
      → Returns
          (IsBetween bid (add bid (mul dec_one_half (sub ask bid))))
          (choose_limit_price bid ask e tte market_time_ms k_min k_max alpha e_max)
  choose_limit_price-IsBetween bid ask e tte t lo hi alpha e_max h hk ha =
      choose_limit_price_within bid ask e tte t lo hi alpha e_max dec_one_half h hk ha
        (one_half_nonneg laws)
        (λ k b. clamp-IsBetween laws k dec_zero dec_one_half (one_half_nonneg laws))

  one-le-one_half : dec_one {D = D} ≼ dec_one_half
  one-le-one_half = laws.le-div 1 _ _ (two_pos laws) (
      rw (Laws.one-mul laws dec_two, laws.from_int-suc 2)
        (Laws.le-add laws dec_two dec_one (zero_le_one laws)))

  -- For a bid not above the ask, k_min at most k_max, alpha not negative and k_max at most 1, the limit
  -- price is neither above the ask nor below the bid; there is no panic.
  pub choose_limit_price-le-ask :
      (bid ask e tte market_time_ms k_min k_max alpha e_max : D)
      → bid ≼ ask
      → k_min ≼ k_max
      → dec_zero ≼ alpha
      → k_max ≼ dec_one
      → Returns
          (IsBetween bid ask)
          (choose_limit_price bid ask e tte market_time_ms k_min k_max alpha e_max)
  choose_limit_price-le-ask bid ask e tte t lo hi alpha e_max h hk ha h1 =
      subst
        (λ top. Returns (IsBetween bid top) (choose_limit_price bid ask e tte t lo hi alpha e_max))
        (ap (add bid) (Laws.one-mul laws (sub ask bid)) ∙ Laws.add-sub laws bid ask)
        (choose_limit_price_within bid ask e tte t lo hi alpha e_max dec_one h hk ha
          (zero_le_one laws)
          λ k b. (
            (clamp-IsBetween laws k dec_zero dec_one_half (one_half_nonneg laws)).0,
            subst (λ top. clamp k dec_zero dec_one_half ≼ top)
                (clamp_id laws dec_one dec_zero dec_one_half ((zero_le_one laws), one-le-one_half))
                (clamp_mono laws k dec_one _ _ (one_half_nonneg laws) (laws.le_trans _ _ _ b.1 h1)),
          ))
