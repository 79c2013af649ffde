-- ===== src/Worker/Timed/Ticks.antt =====
-- internal/engine/worker.go: when a tick asks for an order, by its readings of the clock.
use polymarket_go_bot.Prelude.{
  ℕ, ◌≡◌, refl, ap, ◌∙◌, Bool, true, false, Option, none, some, List, [], ◌∷◌, ◌++◌, ◌||◌,
  if◌then◌else◌, ltb,
}
use polymarket_go_bot.Prelude.Go.{returns, IfReturns, IfReturns-then, IfReturns-bind}
use polymarket_go_bot.Prelude.Fallible.{Fallible, ok, fails}
use polymarket_go_bot.Decimal.{Decimal, dec_two, quo}
use polymarket_go_bot.Model.{MarketStatus, Outcome, up, down, Order, Price}
use polymarket_go_bot.Worker.{
  MarketWorker, MarketState, Readings, process_new_market_state, buys_up,
}
use polymarket_go_bot.Worker.Tick.{
  Env, Call, on_placed, on_decision, on_prices, process_tick, with_prices, fill, filled_price,
  close, parse_or_zero, insert_order, place_order, token_of, outcome_of,
}
use polymarket_go_bot.Worker.Timed.{
  IsInTime, IsUnmoved, IsTimedDecision, process_new_market_state-IsTimedDecision,
}

-- The call asks the exchange for an order.
abbrev pub is_order : Call → Bool
is_order (Call.place_order token outcome price size) = true
is_order call = false

abbrev pub asks : List Call → Bool
asks [] = false
asks (call ∷ calls) = is_order call || asks calls

-- The call stores an order, which the exchange has accepted.
abbrev is_insert : Call → Bool
is_insert (Call.insert_order o) = true
is_insert call = false

abbrev is_accepted : List Call → Bool
is_accepted [] = false
is_accepted (call ∷ calls) = is_insert call || is_accepted calls

abbrev is_side : Outcome → Outcome → Bool
is_side up up = true
is_side down down = true
is_side side other = false

-- The calls of a tick that asks for an order; `m` and `n` are the market before and after the decision.
abbrev ordered : Bool → (m n : MarketState) → Order → List Call
ordered buy_up m n o =
    Call.get_prices m.token_up m.token_down
    ∷ place_order (token_of buy_up n) (outcome_of buy_up) o.price o.original_size
    ∷ []

module _ {D : Type 0} ⦃d : Decimal D⦄ where
  -- An order is asked for in time and its time is kept; without one the time kept stays as it is.
  abbrev pub IsTimed : MarketWorker D → Readings → Bool → MarketWorker D → Type 0
  IsTimed w now true w' = IsInTime w now × (w'.last_decision ≡ some now.at_decision)
  IsTimed w now false w' = w'.last_decision ≡ w.last_decision

  -- A quantity of a side with the sizes that the calls ask for.
  abbrev asked_for : Outcome → List Call → D → D
  asked_for side [] q = q
  asked_for side (Call.get_prices token_up token_down ∷ calls) q = asked_for side calls q
  asked_for side (Call.place_order token o price size ∷ calls) q =
      asked_for side calls (if is_side side o then d.add q (parse_or_zero size) else q)
  asked_for side (Call.insert_order o ∷ calls) q = asked_for side calls q
  asked_for side (Call.update_market_status id st ∷ calls) q = asked_for side calls q

  -- The quantity after a tick, which grows by the size of an order that was accepted.
  abbrev pub held : Outcome → List Call → D → D
  held side calls q = if is_accepted calls then asked_for side calls q else q

  abbrev pub IsHeld : MarketWorker D → MarketWorker D × List Call → Type 0
  IsHeld w (w', calls) = (w'.q_up ≡ held up calls w.q_up) × (w'.q_down ≡ held down calls w.q_down)

  -- The market, the limits of the sizing and the two times stay.
  abbrev pub IsKept : MarketWorker D → MarketWorker D → Type 0
  IsKept w w' =
      (w'.market ≡ w.market)
      × (w'.max_step_risk ≡ w.max_step_risk)
      × (w'.min_size ≡ w.min_size)
      × (w'.stop_trade_tte_ms ≡ w.stop_trade_tte_ms)
      × (w'.decision_debounce_ms ≡ w.decision_debounce_ms)

  -- What is told of a tick.
  abbrev pub IsTimedTick : MarketWorker D → Readings → MarketWorker D × List Call → Type 0
  IsTimedTick w now (w', calls) = IsKept w w' × IsTimed w now (asks calls) w' × IsHeld w (w', calls)

  -- After a fill of a size.
  IsFilled : Bool → D → MarketWorker D → MarketWorker D → Type 0
  IsFilled buy_up size w w' =
      IsKept w w'
      × (w'.last_decision ≡ w.last_decision)
      × (w'.q_up ≡ (if buy_up then d.add w.q_up size else w.q_up))
      × (w'.q_down ≡ (if buy_up then w.q_down else d.add w.q_down size))

  fill-IsFilled :
      (buy_up : Bool) (size price : D) (w : MarketWorker D)
      → IfReturns (IsFilled buy_up size w) (fill buy_up size price w)
  unfolding fill IsFilled
  fill-IsFilled true size price w =
      IfReturns-then (IsFilled true size w) (filled_price w.q_up w.p_up size price) _ up_filled
    where
      up_filled : (p : D) → IsFilled true size w (record w { p_up = p; q_up = d.add w.q_up size })
      up_filled p = ((refl, refl, refl, refl, refl), refl, refl, refl)
  fill-IsFilled false size price w =
      IfReturns-then (IsFilled false size w) (filled_price w.q_down w.p_down size price) _
        down_filled
    where
      down_filled :
          (p : D) → IsFilled false size w (record w { p_down = p; q_down = d.add w.q_down size })
      down_filled p = ((refl, refl, refl, refl, refl), refl, refl, refl)

  -- An order was asked for, by the worker `v`.
  module _ (w v : MarketWorker D) (now : Readings) (told : IsUnmoved w v) (in_time : IsInTime w now)
      (at : v.last_decision ≡ some now.at_decision) where
    kept : IsKept w v
    kept = (told.0, told.1, told.2, told.3, told.4)

    IsKept-trans : (u : MarketWorker D) → IsKept v u → IsKept w u
    IsKept-trans u (a, b, c, e, f) = (a ∙ kept.0, b ∙ kept.1, c ∙ kept.2, e ∙ kept.3, f ∙ kept.4)

    filled-IsTimedTick :
        (buy_up : Bool) (u : MarketWorker D) (o stored : Order)
        → IsFilled buy_up (parse_or_zero o.original_size) v u
        → IsTimedTick w now (u, ordered buy_up w.market v.market o ++ insert_order stored ∷ [])
    unfolding IsFilled
    filled-IsTimedTick true u o stored (k, same, qu, qd) = (
      IsKept-trans u k,
      (in_time, same ∙ at),
      (qu ∙ ap (λ q. d.add q (parse_or_zero o.original_size)) told.5, qd ∙ told.6),
    )
    filled-IsTimedTick false u o stored (k, same, qu, qd) = (
      IsKept-trans u k,
      (in_time, same ∙ at),
      (qu ∙ told.5, qd ∙ ap (λ q. d.add q (parse_or_zero o.original_size)) told.6),
    )

    on_placed-IsTimedTick :
        (buy_up : Bool) (o : Order) (placed : Fallible Order)
        → IfReturns
            (IsTimedTick w now)
            (on_placed v o buy_up (ordered buy_up w.market v.market o) placed)
    unfolding on_placed
    on_placed-IsTimedTick buy_up o fails = (kept, (in_time, at), (told.5, told.6))
    on_placed-IsTimedTick buy_up o (ok placed) =
        IfReturns-bind (IsTimedTick w now) (IsFilled buy_up (parse_or_zero o.original_size) v)
          (fill buy_up (parse_or_zero o.original_size) (parse_or_zero o.price) v) _
          (fill-IsFilled buy_up (parse_or_zero o.original_size) (parse_or_zero o.price) v)
          λ u filled.
            filled-IsTimedTick buy_up u o (record placed { condition_id = v.market.condition_id })
              filled

  on_decision-IsTimedTick :
      (w : MarketWorker D) (now : Readings) (env : Env D) (r : MarketWorker D × Option Order)
      → IsTimedDecision w now r
      → IfReturns
          (IsTimedTick w now)
          (on_decision env (Call.get_prices w.market.token_up w.market.token_down ∷ []) r)
  unfolding on_decision
  on_decision-IsTimedTick w now env (v, none) (k, same) =
      ((k.0, k.1, k.2, k.3, k.4), same, (k.5, k.6))
  on_decision-IsTimedTick w now env (v, some o) (k, t, at) =
      IfReturns-then (IsTimedTick w now) (quo (d.add v.ask_up v.bid_up) dec_two) _ λ mid_up.
        IfReturns-then (IsTimedTick w now) (quo (d.add v.ask_down v.bid_down) dec_two) _
          λ mid_down. on_placed-IsTimedTick w v now k t at (buys_up v) o _

  unpriced :
      (w : MarketWorker D) (p : Price D) (now : Readings) (r : MarketWorker D × Option Order)
      → IsTimedDecision (with_prices w p) now r
      → IsTimedDecision w now r
  unpriced w p now (w', none) h = h
  unpriced w p now (w', some o) h = h

  -- A tick asks for an order only in time and keeps its time then; without an order it keeps the time
  -- that was kept. The quantity of a side grows by the size of an order that was accepted for it.
  pub process_tick-IsTimedTick :
      (fuel : ℕ) (env : Env D) (now : Readings) (w : MarketWorker D)
      → IfReturns (IsTimedTick w now) (process_tick fuel env now w)
  unfolding process_tick on_prices
  process_tick-IsTimedTick fuel env now w = over (ltb w.market.end_time now.at_expiry_check)
    where
      priced :
          (answer : Fallible (Price D))
          → IfReturns (IsTimedTick w now) (on_prices fuel env now w answer)
      priced fails = ((refl, refl, refl, refl, refl), refl, (refl, refl))
      priced (ok p) =
          IfReturns-bind (IsTimedTick w now) (IsTimedDecision (with_prices w p) now)
            (process_new_market_state fuel now (with_prices w p)) _
            (process_new_market_state-IsTimedDecision fuel now (with_prices w p))
            λ r told. on_decision-IsTimedTick w now env r (unpriced w p now r told)

      over :
          (late : Bool)
          → IfReturns (IsTimedTick w now) (
              if late
              then returns
                  (close w, Call.update_market_status w.market.id MarketStatus.resolved ∷ [])
              else on_prices fuel env now w (env.get_prices w.market.token_up w.market.token_down))
      over true = ((refl, refl, refl, refl, refl), refl, (refl, refl))
      over false = priced _
