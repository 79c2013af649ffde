-- ===== src/Worker/Panic.antt =====
-- internal/engine/worker.go: the division by the limit price.
use polymarket_go_bot.Prelude.{ℕ, ◌≡◌, ap, ◌∙◌, Bool-cases, inl, inr, if◌then◌else◌}
use polymarket_go_bot.Prelude.Go.{panics, Returns, Returns-mono, Returns-value}
use polymarket_go_bot.Decimal.{Decimal, IsDecimal, dec_zero, dec_one_half, ◌≼◌}
use polymarket_go_bot.Decimal.Laws
use polymarket_go_bot.Strategy.{choose_limit_price}
use polymarket_go_bot.Strategy.Bounds.{IsBetween}
use polymarket_go_bot.Strategy.Price.{choose_limit_price-IsBetween}
use polymarket_go_bot.Worker.{MarketWorker, Readings, signal, buys_up, limit_price, size_order}
use polymarket_go_bot.Worker.Ready.{IsConfigured, bid_of}

module _ {D : Type 0} ⦃d : Decimal D⦄ where
  abbrev pub ask_of : MarketWorker D → D
  ask_of w = if buys_up w then w.ask_up else w.ask_down

module _ {D : Type 0} ⦃d : Decimal D⦄ (laws : IsDecimal D) where
  open d use {add, sub, mul}

  zero_spread : add dec_zero (mul dec_one_half (sub dec_zero dec_zero)) ≡ dec_zero
  zero_spread =
      Laws.zero-add laws _
      ∙ ap (mul dec_one_half) (Laws.sub_self laws dec_zero)
      ∙ Laws.mul-zero laws dec_one_half

  -- With no bid and no ask the limit price is zero.
  empty_side :
      (bid ask e tte market_time_ms k_min k_max alpha e_max : D)
      → bid ≡ dec_zero
      → ask ≡ dec_zero
      → k_min ≼ k_max
      → dec_zero ≼ alpha
      → Returns
          (λ p. p ≡ dec_zero)
          (choose_limit_price bid ask e tte market_time_ms k_min k_max alpha e_max)
  empty_side bid ask e tte t lo hi alpha e_max hb ha hk h0 =
      rw (hb, ha)
        (Returns-mono (IsBetween dec_zero (add dec_zero (mul dec_one_half (sub dec_zero dec_zero))))
          _ _
          (choose_limit_price-IsBetween laws dec_zero dec_zero e tte t lo hi alpha e_max
            (Laws.le_refl laws dec_zero) hk h0)
          λ p b.
            laws.le_antisymm p dec_zero
              (laws.le_trans p _ dec_zero b.1 (Laws.le_of_eq laws zero_spread)) b.0)

  limit_price-zero :
      (w : MarketWorker D)
      → IsConfigured w
      → bid_of w ≡ dec_zero
      → ask_of w ≡ dec_zero
      → Returns (λ p. p ≡ dec_zero) (limit_price w)
  unfolding limit_price
  limit_price-zero w c hb ha = elim (Bool-cases (buys_up w)) [
    | inl e ↦ rw e (
        empty_side w.bid_up w.ask_up (signal w) w.tte w.market_time_ms w.k_min w.k_max w.alpha
          w.e_max (rw e at hb) (rw e at ha) c.k_le c.alpha_nonneg)
    | inr e ↦ rw e (
        empty_side w.bid_down w.ask_down (signal w) w.tte w.market_time_ms w.k_min w.k_max w.alpha
          w.e_max (rw e at hb) (rw e at ha) c.k_le c.alpha_nonneg)
  ]

  -- If the side that is to be bought has neither a bid nor an ask, a decision that has come as far as
  -- the sizing panics, whatever the fuel: the size is divided by a limit price of zero.
  pub size_order_empty_book :
      (fuel : ℕ) (now : Readings) (w : MarketWorker D)
      → IsConfigured w
      → bid_of w ≡ dec_zero
      → ask_of w ≡ dec_zero
      → size_order fuel now w ≡ panics
  unfolding size_order
  size_order_empty_book fuel now w c hb ha =
      let (price, e, z) =
        Returns-value (λ p. p ≡ dec_zero) (limit_price w) (limit_price-zero w c hb ha) in
      rw (e, (laws.is_zero_iff price).1 z)
