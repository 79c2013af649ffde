-- ===== src/Worker/Sizing.antt =====
-- internal/engine/worker.go: what the loop that sizes an order leaves.
use polymarket_go_bot.Prelude.{ℕ, zero, suc, ◌≡◌, ◌⊎◌, inl, inr, arith, Bool-cases, if◌then◌else◌}
use polymarket_go_bot.Prelude.Go.{Go, returns, Returns, Returns-mono}
use polymarket_go_bot.Decimal.{Decimal, IsDecimal, dec_zero, dec_half, ◌≼◌, ◌≺◌}
use polymarket_go_bot.Decimal.Laws
use polymarket_go_bot.Strategy.{simulate_new_risk}
use polymarket_go_bot.Strategy.Risk.{simulate_new_risk-returns}
use polymarket_go_bot.Worker.{MarketWorker, is_less, is_greater, buys_up, shrink}

module _ {D : Type 0} ⦃d : Decimal D⦄ where
  open d use {add, sub, cmp, less_than}

  -- The minimal size and `n` halves more.
  abbrev pub size_above : D → ℕ → D
  size_above min_size zero = min_size
  size_above min_size (suc n) = add (size_above min_size n) dec_half

  -- The simulated risk of a buy is below the limit.
  abbrev pub IsWithinLimit : MarketWorker D → D → D → Type 0
  IsWithinLimit w price q =
      Returns (λ r. r ≺ w.risk_limit)
        (simulate_new_risk w.q_up w.p_up w.q_down w.p_down (buys_up w) q price)

  -- What the loop may leave: a size below the minimum, or one at least the minimum within the limit.
  abbrev pub IsSized : MarketWorker D → D → D → D → Type 0
  IsSized w price q q' =
      (q' ≼ q) × ((q' ≺ w.min_size) ⊎ ((w.min_size ≼ q') × IsWithinLimit w price q'))

module _ {D : Type 0} ⦃d : Decimal D⦄ (laws : IsDecimal D) where
  open d use {add, sub, cmp, less_than}

  pub is_less-cmp : (a b : D) → is_less (cmp a b) ≡ less_than a b
  is_less-cmp a b = ground (arith, laws.cmp_lem a b)

  pub is_greater-cmp : (a b : D) → is_greater (cmp a b) ≡ less_than b a
  is_greater-cmp a b = ground (arith, laws.cmp_lem a b, laws.lt_asymm a b)

  module _ (w : MarketWorker D) (price : D) (hu : dec_zero ≼ w.q_up) (hd : dec_zero ≼ w.q_down)
      (hm : dec_zero ≺ w.min_size) where
    shrink_below : (fuel : ℕ) (q : D) → q ≺ w.min_size → shrink (suc fuel) w price q ≡ returns q
    unfolding shrink
    shrink_below fuel q h = rw (is_less-cmp q w.min_size, h)

    shrink_round :
        (fuel : ℕ) (q r : D)
        → w.min_size ≼ q
        → simulate_new_risk w.q_up w.p_up w.q_down w.p_down (buys_up w) q price ≡ returns r
        → shrink (suc fuel) w price q
          ≡ (if less_than r w.risk_limit then returns q else shrink fuel w price (sub q dec_half))
    unfolding shrink
    shrink_round fuel q r big e =
        ground (arith, is_less-cmp q w.min_size, is_less-cmp r w.risk_limit)

    weaken :
        (q : D) (m : Go D)
        → Returns (IsSized w price (sub q dec_half)) m
        → Returns (IsSized w price q) m
    weaken q m h = Returns-mono (IsSized w price (sub q dec_half)) (IsSized w price q) m h λ q' s. (
      laws.le_trans q' (sub q dec_half) q s.0
          (laws.lt_asymm _ _ (Laws.sub_lt laws q dec_half laws.half_pos)),
      s.1,
    )

    -- One round and what follows it.
    round-IsSized :
        (n : ℕ) (q : D)
        → q ≼ size_above w.min_size n
        → Returns (IsSized w price (sub q dec_half)) (shrink (suc n) w price (sub q dec_half))
        → Returns (IsSized w price q) (shrink (suc (suc n)) w price q)
    round-IsSized n q h rest = elim (Bool-cases (less_than q w.min_size)) [
      | inl small ↦ rw (shrink_below (suc n) q small) (Laws.le_refl laws q, inl small)
      | inr big ↦
          let pos_q = Laws.lt_of_lt_of_le laws dec_zero w.min_size q hm big in
          let (r, e) =
            simulate_new_risk-returns laws w.q_up w.p_up w.q_down w.p_down (buys_up w) q price hu hd
              pos_q in
          rw (shrink_round (suc n) q r big e) (elim (Bool-cases (less_than r w.risk_limit)) [
            | inl low ↦ rw low (Laws.le_refl laws q, inr (big, rw e low))
            | inr high ↦ rw high (weaken q _ rest)
          ])
    ]

    -- From a size at most `n` halves above the minimum, fuel for `n + 2` rounds is enough: the loop
    -- ends, with a size that is below the minimum or whose simulated risk is below the limit.
    pub shrink-IsSized :
        (n : ℕ) (q : D)
        → q ≼ size_above w.min_size n
        → Returns (IsSized w price q) (shrink (suc (suc n)) w price q)
    shrink-IsSized zero q h = round-IsSized zero q h (
        let small =
          Laws.lt_of_lt_of_le laws _ q w.min_size (Laws.sub_lt laws q dec_half laws.half_pos) h in
        rw (shrink_below zero (sub q dec_half) small) (Laws.le_refl laws _, inl small))
    shrink-IsSized (suc n) q h = round-IsSized (suc n) q h (
        shrink-IsSized n (sub q dec_half) (
          rw (Laws.add-sub_cancel laws (size_above w.min_size n) dec_half) at
            (Laws.sub_mono laws q _ dec_half h)))
