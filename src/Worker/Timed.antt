-- ===== src/Worker/Timed.antt =====
-- internal/engine/worker.go: when a decision asks for an order, by its readings of the clock.
pub mod Ticks
use polymarket_go_bot.Prelude.{
  ℕ, String, arith, ◌≡◌, refl, ◌∙◌, Bool, true, false, not, Option, none, some, List, [], ◌∷◌, ◌++◌,
  ◌||◌, if◌then◌else◌, ltb,
}
use polymarket_go_bot.Prelude.Int.{sub_ℕ}
use polymarket_go_bot.Prelude.Go.{
  Go, returns, ◌>>=◌, IfReturns, IfReturns-then, IfReturns-bind, IfReturns-mono,
}
use polymarket_go_bot.Prelude.Fallible.{Fallible, ok, fails}
use polymarket_go_bot.Decimal.{Decimal, dec_zero, dec_two, quo}
use polymarket_go_bot.Model.{MarketStatus, Order, Price}
use polymarket_go_bot.Strategy.{eps_tte, risk, p_fair, money_tilt, target_tilt}
use polymarket_go_bot.Worker.{
  MarketWorker, Readings, milliseconds, since, is_greater, is_less, evaluate, signal, decide,
  size_order, sized_order, shrink, limit_price, process_new_market_state, buys_up,
}
use polymarket_go_bot.Worker.Tick.{
  Env, Call, on_placed, on_decision, on_prices, process_tick, with_prices, fill, filled_price,
  close, insert_order, place_order, token_of, outcome_of,
}

module _ {D : Type 0} ⦃d : Decimal D⦄ where
  open d use {from_int, sub, abs, cmp}

  -- Neither the stop time nor the pause forbids an order.
  abbrev pub IsInTime : MarketWorker D → Readings → Type 0
  IsInTime w now =
      (is_greater
          (cmp w.stop_trade_tte_ms (from_int (milliseconds (sub_ℕ w.market.end_time now.at_tte))))
        ≡ false)
      × (is_greater (
            cmp (from_int (milliseconds (since now.at_debounce w.last_decision)))
              w.decision_debounce_ms)
          ≡ true)

  -- The market, the limits of the sizing, the two times and the quantities stay.
  abbrev pub IsUnmoved : MarketWorker D → MarketWorker D → Type 0
  IsUnmoved w w' =
      (w'.market ≡ w.market)
      × (w'.max_step_risk ≡ w.max_step_risk)
      × (w'.min_size ≡ w.min_size)
      × (w'.stop_trade_tte_ms ≡ w.stop_trade_tte_ms)
      × (w'.decision_debounce_ms ≡ w.decision_debounce_ms)
      × (w'.q_up ≡ w.q_up)
      × (w'.q_down ≡ w.q_down)

  abbrev pause_over : MarketWorker D → Readings → Bool
  pause_over w now =
      is_greater (
        cmp (from_int (milliseconds (since now.at_debounce w.last_decision)))
          w.decision_debounce_ms)

  -- What is told of the decision on an evaluated worker.
  abbrev IsDecidedAt : MarketWorker D → Readings → MarketWorker D × Option Order → Type 0
  IsDecidedAt w now (w', none) = IsUnmoved w w' × (w'.last_decision ≡ w.last_decision)
  IsDecidedAt w now (w', some o) =
      IsUnmoved w w' × (pause_over w now ≡ true) × (w'.last_decision ≡ some now.at_decision)

  pub unmoved : (w : MarketWorker D) → IsUnmoved w w
  unmoved w = (refl, refl, refl, refl, refl, refl, refl)

  pub IsUnmoved-trans : (w v u : MarketWorker D) → IsUnmoved w v → IsUnmoved v u → IsUnmoved w u
  IsUnmoved-trans w v u (a, b, c, e, f, g, h) (a', b', c', e', f', g', h') =
      (a' ∙ a, b' ∙ b, c' ∙ c, e' ∙ e, f' ∙ f, g' ∙ g, h' ∙ h)

  size_order-IsDecidedAt :
      (fuel : ℕ) (now : Readings) (w : MarketWorker D)
      → pause_over w now ≡ true
      → IfReturns (IsDecidedAt w now) (size_order fuel now w)
  unfolding size_order
  size_order-IsDecidedAt fuel now w over =
      IfReturns-then (IsDecidedAt w now) (limit_price w) _ λ price.
        IfReturns-then (IsDecidedAt w now) _ _ λ q_raw.
          IfReturns-then (IsDecidedAt w now) (shrink fuel w price _) _
            λ q_buy. sized price q_buy (is_less (cmp q_buy w.min_size))
    where
      sized :
          (price q_buy : D) (small : Bool)
          → IfReturns (IsDecidedAt w now) (
              if small
              then returns (w, none)
              else returns (
                record w { last_decision = some now.at_decision },
                some (sized_order q_buy price),
              ))
      sized price q_buy true = (unmoved w, refl)
      sized price q_buy false = ((refl, refl, refl, refl, refl, refl, refl), over, refl)

  decide-IsDecidedAt :
      (fuel : ℕ) (now : Readings) (w : MarketWorker D)
      → IfReturns (IsDecidedAt w now) (decide fuel now w)
  unfolding decide
  decide-IsDecidedAt fuel now w = risky (is_less (cmp (sub w.risk_limit w.risk_val) dec_zero))
    where
      paused :
          (eps : D) (strong over : Bool)
          → pause_over w now ≡ over
          → IfReturns (IsDecidedAt w now) (
              if not strong
              then returns (w, none)
              else if not over
              then returns (w, none)
              else size_order fuel now w)
      paused eps false over e = (unmoved w, refl)
      paused eps true false e = (unmoved w, refl)
      paused eps true true e = size_order-IsDecidedAt fuel now w e

      risky :
          (full : Bool)
          → IfReturns (IsDecidedAt w now) (
              if full
              then returns (w, none)
              else (eps_tte w.tte w.market_time_ms w.eps_min w.eps_max >>= λ eps.
                  if not (is_greater (cmp (abs (signal w)) eps))
                  then returns (w, none)
                  else if not (pause_over w now)
                  then returns (w, none)
                  else size_order fuel now w))
      risky true = (unmoved w, refl)
      risky false =
          IfReturns-then (IsDecidedAt w now) (eps_tte w.tte w.market_time_ms w.eps_min w.eps_max) _
            λ eps. paused eps (is_greater (cmp (abs (signal w)) eps)) (pause_over w now) refl

  IsEvaluatedFrom : MarketWorker D → MarketWorker D → Type 0
  IsEvaluatedFrom w w' = IsUnmoved w w' × (w'.last_decision ≡ w.last_decision)

  revalued :
      (w : MarketWorker D) (p money target r : D)
      → IsEvaluatedFrom w (record w {
        p_fair_val = p;
        money_tilt_val = money;
        target_tilt_val = target;
        risk_val = r;
      })
  unfolding IsEvaluatedFrom
  revalued w p money target r = ((refl, refl, refl, refl, refl, refl, refl), refl)

  evaluate-IsEvaluatedFrom : (w : MarketWorker D) → IfReturns (IsEvaluatedFrom w) (evaluate w)
  unfolding evaluate IsEvaluatedFrom
  evaluate-IsEvaluatedFrom w =
      IfReturns-then (IsEvaluatedFrom w) (quo (d.add w.ask_up w.bid_up) dec_two) _ λ mid_up.
        IfReturns-then (IsEvaluatedFrom w) (quo (d.add w.ask_down w.bid_down) dec_two) _ λ mid_down.
          IfReturns-then (IsEvaluatedFrom w) (p_fair mid_up mid_down) _ λ p.
            IfReturns-then (IsEvaluatedFrom w) (money_tilt w.q_up mid_up w.q_down mid_down) _
              λ money.
                IfReturns-then (IsEvaluatedFrom w)
                  (target_tilt p w.tte w.market_time_ms w.k_min w.k_max w.alpha w.tau_min w.tau_max)
                  _ λ target. revalued w p money target (risk w.q_up w.p_up w.q_down w.p_down)

  -- What is told of a decision: an order is asked for in time.
  abbrev pub IsTimedDecision : MarketWorker D → Readings → MarketWorker D × Option Order → Type 0
  IsTimedDecision w now (w', none) = IsUnmoved w w' × (w'.last_decision ≡ w.last_decision)
  IsTimedDecision w now (w', some o) =
      IsUnmoved w w' × IsInTime w now × (w'.last_decision ≡ some now.at_decision)

  pub process_new_market_state-IsTimedDecision :
      (fuel : ℕ) (now : Readings) (w : MarketWorker D)
      → IfReturns (IsTimedDecision w now) (process_new_market_state fuel now w)
  unfolding process_new_market_state IsEvaluatedFrom
  process_new_market_state-IsTimedDecision fuel now w =
      stopped (is_greater (cmp w.stop_trade_tte_ms w1.tte)) refl
    where
      w1 : MarketWorker D
      w1 = record w { tte = from_int (milliseconds (sub_ℕ w.market.end_time now.at_tte)) }

      told :
          (w2 : MarketWorker D)
          → is_greater (cmp w.stop_trade_tte_ms w1.tte) ≡ false
          → IsEvaluatedFrom w1 w2
          → (r : MarketWorker D × Option Order) → IsDecidedAt w2 now r
          → IsTimedDecision w now r
      told w2 open_ (k, same) (w', none) (k', same') = (IsUnmoved-trans w w2 w' k k', same' ∙ same)
      told w2 open_ (k, same) (w', some o) (k', over, at) =
          (IsUnmoved-trans w w2 w' k k', (open_, rw (← same) (rw (← k.4) over)), at)

      stopped :
          (late : Bool)
          → is_greater (cmp w.stop_trade_tte_ms w1.tte) ≡ late
          → IfReturns
              (IsTimedDecision w now)
              (if late then returns (w1, none) else (evaluate w1 >>= λ w2. decide fuel now w2))
      stopped true e = ((refl, refl, refl, refl, refl, refl, refl), refl)
      stopped false e =
          IfReturns-bind (IsTimedDecision w now) (IsEvaluatedFrom w1) (evaluate w1) _
            (evaluate-IsEvaluatedFrom w1)
            λ w2 from.
              IfReturns-mono (IsDecidedAt w2 now) (IsTimedDecision w now) (decide fuel now w2)
                (decide-IsDecidedAt fuel now w2) (told w2 e from)
