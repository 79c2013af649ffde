-- ===== src/Worker/Position.antt =====
-- internal/engine/worker.go: the position that a worker keeps, over fills and ticks.
use polymarket_go_bot.Prelude.{
  ℕ, suc, ◌≡◌, refl, ◌∙◌, Bool, true, false, Option, none, some, List, [], ◌∷◌, if◌then◌else◌, ltb,
}
use polymarket_go_bot.Prelude.Go.{Go, returns, Returns, Returns-bind}
use polymarket_go_bot.Prelude.Fallible.{Fallible, ok, fails}
use polymarket_go_bot.Decimal.{Decimal, IsDecimal, dec_zero, dec_two, ◌≼◌, ◌≺◌}
use polymarket_go_bot.Decimal.Laws
use polymarket_go_bot.Model.{resolved, Order, Price}
use polymarket_go_bot.Strategy.Bounds.{two_pos}
use polymarket_go_bot.Worker.{MarketWorker, Readings, process_new_market_state}
use polymarket_go_bot.Worker.Ready.{
  IsQuoted, IsWithinSteps, IsReady, IsOrderFor, IsOrderIfAny, IsDecided, bid_of,
}
use polymarket_go_bot.Worker.Decision.{
  update-IsReady, bid_of-pos, process_new_market_state-IsDecided,
}
use polymarket_go_bot.Worker.Tick.{
  close, update_market_status, Env, Call, parse_or_zero, fill, on_placed, on_decision, with_prices,
  on_prices, process_tick,
}
use polymarket_go_bot.Worker.Fills.{IsSound, fill-IsSound}

module _ {D : Type 0} ⦃d : Decimal D⦄ where
  abbrev Keeps : Go (MarketWorker D × List Call) → Type 0
  Keeps m = Returns (λ r. IsSound r.0) m

  -- What a tick needs of the answer of the exchange: if there are prices, they are a quoted book on
  -- which the sizing loop has `n` steps at most.
  abbrev pub IsAnswered : Env D → MarketWorker D → ℕ → Type 0
  IsAnswered env w n =
      (p : Price D)
      → env.get_prices w.market.token_up w.market.token_down ≡ ok p
      → IsQuoted (with_prices w p) × IsWithinSteps (with_prices w p) n

module _ {D : Type 0} ⦃d : Decimal D⦄ (laws : IsDecimal D) where
  open d use {add, sub, mul, div, is_zero}

  parse_or_zero-nonneg :
      (a : D) (places : ℕ)
      → dec_zero ≼ a
      → dec_zero ≼ parse_or_zero {D = D} (d.string_fixed a places)
  parse_or_zero-nonneg a places h =
      let (b, e, nonneg) = laws.string_fixed_nonneg a places h in rw e nonneg

  on_placed-IsSound :
      (w : MarketWorker D) (o : Order) (buy_up : Bool) (calls : List Call) (placed : Fallible Order)
      → IsSound w
      → dec_zero ≺ bid_of w
      → IsOrderFor w o
      → Keeps (on_placed w o buy_up calls placed)
  unfolding on_placed
  on_placed-IsSound w o buy_up calls fails h b f = h
  on_placed-IsSound w o buy_up calls (ok placed) h b f =
      let size_nonneg = laws.le_trans _ _ _ (laws.lt_asymm _ _ h.0.min_size_pos) f.min_size_le in
      let price_nonneg = laws.le_trans _ _ _ (laws.lt_asymm _ _ b) f.bid_le in
      Returns-bind IsSound (λ r. IsSound r.0)
        (fill buy_up (parse_or_zero o.original_size) (parse_or_zero o.price) w) _
        (rw (f.size_text, f.price_text)
          (fill-IsSound laws w buy_up _ _ h (parse_or_zero-nonneg f.size 2 size_nonneg)
            (parse_or_zero-nonneg f.price 2 price_nonneg)))
        λ w' k. k

  on_decision-IsSound :
      (env : Env D) (calls : List Call) (w : MarketWorker D) (o : Option Order)
      → IsSound w
      → dec_zero ≺ bid_of w
      → IsOrderIfAny w o
      → Keeps (on_decision env calls (w, o))
  unfolding on_decision
  on_decision-IsSound env calls w none h b f = h
  on_decision-IsSound env calls w (some o) h b f =
      rw (Laws.is_zero-pos laws dec_two (two_pos laws)) (on_placed-IsSound w o _ _ _ h b f)

  pub closed-IsSound : (w : MarketWorker D) → IsSound w → IsSound (close w)
  closed-IsSound w (c, l) = (
    record {
      min_size_pos = c.min_size_pos;
      k_le = c.k_le;
      alpha_nonneg = c.alpha_nonneg;
      tau_le = c.tau_le;
      eps_le = c.eps_le;
    },
    record {
      q_up_nonneg = l.q_up_nonneg;
      p_up_nonneg = l.p_up_nonneg;
      q_down_nonneg = l.q_down_nonneg;
      p_down_nonneg = l.p_down_nonneg;
    },
  )

  priced-IsReady :
      (w : MarketWorker D) (n : ℕ) (p : Price D)
      → IsSound w
      → IsQuoted (with_prices w p) × IsWithinSteps (with_prices w p) n
      → IsReady (with_prices w p) n
  priced-IsReady w n p (c, l) (b, s) = record {
    configured = record {
      min_size_pos = c.min_size_pos;
      k_le = c.k_le;
      alpha_nonneg = c.alpha_nonneg;
      tau_le = c.tau_le;
      eps_le = c.eps_le;
    };
    long = record {
      q_up_nonneg = l.q_up_nonneg;
      p_up_nonneg = l.p_up_nonneg;
      q_down_nonneg = l.q_down_nonneg;
      p_down_nonneg = l.p_down_nonneg;
    };
    quoted = b;
    steps = s;
  }

  on_prices-IsSound :
      (env : Env D) (now : Readings) (w : MarketWorker D) (n : ℕ)
      → IsSound w
      → (answer : Fallible (Price D))
      → ((p : Price D)
          → answer ≡ ok p
          → IsQuoted (with_prices w p) × IsWithinSteps (with_prices w p) n)
      → Keeps (on_prices (suc (suc n)) env now w answer)
  unfolding on_prices
  on_prices-IsSound env now w n h fails a = h
  on_prices-IsSound env now w n h (ok p) a =
      let ready = priced-IsReady w n p h (a p refl) in
      Returns-bind (IsDecided (with_prices w p)) (λ r. IsSound r.0)
        (process_new_market_state (suc (suc n)) now (with_prices w p)) _
        (process_new_market_state-IsDecided laws (with_prices w p) n now ready)
        λ r decided.
          let ready2 = update-IsReady laws (with_prices w p) r.0 n decided.0 ready in
          on_decision-IsSound env _ r.0 r.1 (ready2.configured, ready2.long)
            (bid_of-pos laws r.0 ready2.quoted) decided.1

  -- Whatever the storage and the exchange answer, if prices are a quoted book, a tick of a worker with
  -- settings in order and a position not short comes back, without a panic, and keeps both.
  pub process_tick-IsSound :
      (env : Env D) (now : Readings) (w : MarketWorker D) (n : ℕ)
      → IsSound w
      → IsAnswered env w n
      → Returns (λ r. IsSound r.0) (process_tick (suc (suc n)) env now w)
  unfolding process_tick
  process_tick-IsSound env now w n h a = split (ltb w.market.end_time now.at_expiry_check)
    where
      rest :
          (answer : Fallible (Price D))
          → env.get_prices w.market.token_up w.market.token_down ≡ answer
          → Keeps (on_prices (suc (suc n)) env now w answer)
      rest answer e = on_prices-IsSound env now w n h answer (λ p got. a p (e ∙ got))

      split :
          (over : Bool)
          → Keeps (
              if over
              then returns (close w, update_market_status w.market.id resolved ∷ [])
              else on_prices
                  (suc (suc n))
                  env
                  now
                  w
                  (env.get_prices w.market.token_up w.market.token_down))
      split true = closed-IsSound w h
      split false = rest _ refl
