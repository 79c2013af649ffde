-- ===== src/System/Keeps.antt =====
-- internal/engine/worker.go: what a tick leaves alone, and which of its calls write a status.
use mathlib.Core.Path.{subst}
use polymarket_go_bot.Prelude.{
  ℕ, String, ◌≡◌, refl, sym, ◌∙◌, Bool, true, false, ◌&&◌, not, Option, none, some, List, [], ◌∷◌,
  All, All-append, ltb, ◌⊎◌, inl, inr, if◌then◌else◌, arith,
}
use polymarket_go_bot.Prelude.Go.{
  Go, returns, returns-injective, IfReturns, IfReturns-then, IfReturns-bind, IfReturns-if,
}
use polymarket_go_bot.Prelude.Fallible.{Fallible, ok, fails}
use polymarket_go_bot.Decimal.{Decimal, quo, dec_two, dec_zero}
use polymarket_go_bot.Model.{Order, Price, Market, active, resolved}
use polymarket_go_bot.Prelude.Int.{sub_ℕ}
use polymarket_go_bot.Strategy.{p_fair, money_tilt, target_tilt, eps_tte}
use polymarket_go_bot.Worker.{
  signal, is_less, is_greater, milliseconds, since, MarketWorker, Readings, evaluate, decide,
  size_order, limit_price, shrink, process_new_market_state, buys_up,
}
use polymarket_go_bot.Worker.Tick.{
  run_start, load_market, Env, Call, fill, filled_price, on_placed, on_decision, on_prices,
  process_tick, with_prices, parse_or_zero,
}

-- The call writes no status.
abbrev pub IsQuiet : Call → Type 0
IsQuiet (Call.update_market_status id st) = ⊥
IsQuiet call = Unit

never {ℓ} : {A : Type ℓ} (b : Bool) (x y : A) → (if b && false then x else y) ≡ y
never true x y = refl
never false x y = refl

module _ {D : Type 0} ⦃d : Decimal D⦄ where
  open d use {add, sub, abs, cmp, min, max, from_int}

  -- The worker trades the same market, and is as open or closed.
  abbrev pub IsSameMarket : MarketWorker D → MarketWorker D → Type 0
  IsSameMarket w w' = (w'.market ≡ w.market) × (w'.closed ≡ w.closed)

  evaluate-IsSameMarket : (w : MarketWorker D) → IfReturns (IsSameMarket w) (evaluate w)
  unfolding evaluate
  evaluate-IsSameMarket w =
      IfReturns-then (IsSameMarket w) (quo (add w.ask_up w.bid_up) dec_two) _ λ mid_up.
        IfReturns-then (IsSameMarket w) (quo (add w.ask_down w.bid_down) dec_two) _ λ mid_down.
          IfReturns-then (IsSameMarket w) (p_fair mid_up mid_down) _ λ p.
            IfReturns-then (IsSameMarket w) (money_tilt w.q_up mid_up w.q_down mid_down) _ λ money.
              IfReturns-then (IsSameMarket w)
                (target_tilt p w.tte w.market_time_ms w.k_min w.k_max w.alpha w.tau_min w.tau_max) _
                λ target. (refl, refl)

  abbrev KeepsMarket : MarketWorker D → MarketWorker D × Option Order → Type 0
  KeepsMarket w r = IsSameMarket w r.0

  size_order-IsSameMarket :
      (fuel : ℕ) (now : Readings) (w : MarketWorker D)
      → IfReturns (KeepsMarket w) (size_order fuel now w)
  unfolding size_order
  size_order-IsSameMarket fuel now w = IfReturns-then (KeepsMarket w) (limit_price w) _ λ price.
      IfReturns-then (KeepsMarket w) (quo (min w.max_step_risk (sub w.risk_limit w.risk_val)) price)
        _
        λ q_raw.
          IfReturns-then (KeepsMarket w) (shrink fuel w price (max q_raw w.min_size)) _ λ q_buy.
            IfReturns-if (KeepsMarket w) (is_less (cmp q_buy w.min_size)) _ _ (refl, refl)
              (refl, refl)

  decide-IsSameMarket :
      (fuel : ℕ) (now : Readings) (w : MarketWorker D)
      → IfReturns (KeepsMarket w) (decide fuel now w)
  unfolding decide
  decide-IsSameMarket fuel now w =
      IfReturns-if (KeepsMarket w) (is_less (cmp (sub w.risk_limit w.risk_val) dec_zero)) _ _
        (refl, refl)
        (IfReturns-then (KeepsMarket w) (eps_tte w.tte w.market_time_ms w.eps_min w.eps_max) _
          λ eps.
            IfReturns-if (KeepsMarket w) (not (is_greater (cmp (abs (signal w)) eps))) _ _
              (refl, refl)
              (IfReturns-if (KeepsMarket w)
                (not (
                  is_greater (
                    cmp (from_int (milliseconds (since now.at_debounce w.last_decision)))
                      w.decision_debounce_ms)))
                _ _ (refl, refl) (size_order-IsSameMarket fuel now w)))

  process_new_market_state-IsSameMarket :
      (fuel : ℕ) (now : Readings) (w : MarketWorker D)
      → IfReturns (KeepsMarket w) (process_new_market_state fuel now w)
  unfolding process_new_market_state
  process_new_market_state-IsSameMarket fuel now w =
      IfReturns-if (KeepsMarket w) (is_greater (cmp w1.stop_trade_tte_ms w1.tte)) _ _ (refl, refl)
        (IfReturns-bind (KeepsMarket w) (IsSameMarket w1) (evaluate w1) (decide fuel now)
          (evaluate-IsSameMarket w1)
          (λ w2 (same : IsSameMarket w1 w2). decided w2 same _ (decide-IsSameMarket fuel now w2)))
    where
      w1 : MarketWorker D
      w1 = record w { tte = from_int (milliseconds (sub_ℕ w.market.end_time now.at_tte)) }

      decided :
          (w2 : MarketWorker D)
          → IsSameMarket w1 w2
          → (m : Go (MarketWorker D × Option Order)) → IfReturns (KeepsMarket w2) m
          → IfReturns (KeepsMarket w) m
      decided w2 same (returns r) k = (k.0 ∙ same.0, k.1 ∙ same.1)
      decided w2 same Go.panics k = tt
      decided w2 same Go.out_of_fuel k = tt

  abbrev pub IsQuietTick : MarketWorker D → MarketWorker D × List Call → Type 0
  IsQuietTick w r = IsSameMarket w r.0 × All IsQuiet r.1

  fill-IsSameMarket :
      (buy_up : Bool) (size price : D) (w : MarketWorker D)
      → IfReturns (IsSameMarket w) (fill buy_up size price w)
  unfolding fill
  fill-IsSameMarket true size price w =
      IfReturns-then (IsSameMarket w) (filled_price w.q_up w.p_up size price) _ λ p. (refl, refl)
  fill-IsSameMarket false size price w =
      IfReturns-then (IsSameMarket w) (filled_price w.q_down w.p_down size price) _
        λ p. (refl, refl)

  on_placed-IsQuietTick :
      (w w0 : MarketWorker D) (o : Order) (buy_up : Bool) (calls : List Call)
      (answer : Fallible Order)
      → IsSameMarket w w0
      → All IsQuiet calls
      → IfReturns (IsQuietTick w) (on_placed w0 o buy_up calls answer)
  unfolding on_placed
  on_placed-IsQuietTick w w0 o buy_up calls fails same q = (same, q)
  on_placed-IsQuietTick w w0 o buy_up calls (ok placed) same q =
      IfReturns-bind (IsQuietTick w) (IsSameMarket w0)
        (fill buy_up (parse_or_zero o.original_size) (parse_or_zero o.price) w0) _
        (fill-IsSameMarket buy_up (parse_or_zero o.original_size) (parse_or_zero o.price) w0)
        λ w2 k. ((k.0 ∙ same.0, k.1 ∙ same.1), All-append IsQuiet calls _ q (tt, tt))

  on_decision-IsQuietTick :
      (w : MarketWorker D) (env : Env D) (calls : List Call) (r : MarketWorker D × Option Order)
      → IsSameMarket w r.0
      → All IsQuiet calls
      → IfReturns (IsQuietTick w) (on_decision env calls r)
  unfolding on_decision
  on_decision-IsQuietTick w env calls (w0, none) same q = (same, q)
  on_decision-IsQuietTick w env calls (w0, some o) same q =
      IfReturns-then (IsQuietTick w) (quo (add w0.ask_up w0.bid_up) dec_two) _ λ mid_up.
        IfReturns-then (IsQuietTick w) (quo (add w0.ask_down w0.bid_down) dec_two) _ λ mid_down.
          on_placed-IsQuietTick w w0 o (buys_up w0) _ _ same (All-append IsQuiet calls _ q (tt, tt))

  on_prices-IsQuietTick :
      (fuel : ℕ) (env : Env D) (now : Readings) (w : MarketWorker D) (answer : Fallible (Price D))
      → IfReturns (IsQuietTick w) (on_prices fuel env now w answer)
  unfolding on_prices
  on_prices-IsQuietTick fuel env now w fails = ((refl, refl), (tt, tt))
  on_prices-IsQuietTick fuel env now w (ok p) =
      IfReturns-bind (IsQuietTick w) (KeepsMarket (with_prices w p))
        (process_new_market_state fuel now (with_prices w p)) _
        (process_new_market_state-IsSameMarket fuel now (with_prices w p))
        λ r k. on_decision-IsQuietTick w env _ r k (tt, tt)

  -- A tick closes the worker and asks for `resolved`, if the market is over, and else keeps it and
  -- writes no status.
  pub process_tick-cases :
      (fuel : ℕ) (env : Env D) (now : Readings) (w : MarketWorker D)
      (r : MarketWorker D × List Call)
      → process_tick fuel env now w ≡ returns r
      → ((ltb w.market.end_time now.at_expiry_check ≡ true)
          × (r ≡ (record w { closed = true }, Call.update_market_status w.market.id resolved ∷ [])))
        ⊎ ((ltb w.market.end_time now.at_expiry_check ≡ false) × IsQuietTick w r)
  unfolding process_tick
  process_tick-cases fuel env now w r h =
      go (ltb w.market.end_time now.at_expiry_check) refl _
        (on_prices-IsQuietTick fuel env now w
          (env.get_prices w.market.token_up w.market.token_down))
        h
    where
      go :
          (over : Bool)
          → ltb w.market.end_time now.at_expiry_check ≡ over
          → (m : Go (MarketWorker D × List Call)) → IfReturns (IsQuietTick w) m
          → (if over
              then returns
                  (record w { closed = true }, Call.update_market_status w.market.id resolved ∷ [])
              else m)
            ≡ returns r
          → ((ltb w.market.end_time now.at_expiry_check ≡ true)
              × (r ≡ (
                record w { closed = true },
                Call.update_market_status w.market.id resolved ∷ [],
              )))
            ⊎ ((ltb w.market.end_time now.at_expiry_check ≡ false) × IsQuietTick w r)
      go true e m k h = inl (e, sym (returns-injective h))
      go false e (returns x) k h = inr (e, subst (IsQuietTick w) (returns-injective h) k)
      go false e Go.panics k h = absurd (ground arith)
      go false e Go.out_of_fuel k h = absurd (ground arith)

  -- The start of `Run` fails, or it takes the stored market over and asks for `active`.
  pub run_start-cases :
      (get_market : String → Fallible Market) (now : ℕ) (w : MarketWorker D)
      → let r = run_start get_market now false w in
        (r ≡ (w, fails))
        ⊎ ((m : Market) × (get_market w.market.id ≡ ok m)
            × (r ≡ (load_market m w, ok (Call.update_market_status m.id active ∷ []))))
  unfolding run_start
  run_start-cases get_market now w = go (get_market w.market.id) refl (ltb now)
    where
      go :
          (answer : Fallible Market)
          → get_market w.market.id ≡ answer
          → (ahead : ℕ → Bool)
          → let r : MarketWorker D × Fallible (List Call) = elim answer [
            | fails ↦ (w, fails)
            | ok m ↦
                if ahead m.start_time && false
                then (load_market m w, fails)
                else (load_market m w, ok (Call.update_market_status m.id active ∷ []))
          ] in
            (r ≡ (w, fails))
            ⊎ ((m : Market) × (get_market w.market.id ≡ ok m)
                × (r ≡ (load_market m w, ok (Call.update_market_status m.id active ∷ []))))
      go fails e ahead = inl refl
      go (ok m) e ahead = inr (m, e, never (ahead m.start_time) _ _)
