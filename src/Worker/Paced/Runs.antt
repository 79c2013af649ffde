-- ===== src/Worker/Paced/Runs.antt =====
-- internal/engine/worker.go: a whole run of the trading loop.
use mathlib.Core.Path.{subst}
use polymarket_go_bot.Prelude.{ℕ, suc, ◌≤◌, ◌≡◌, refl, sym, ◌∙◌, ap, List, [], ◌∷◌}
use polymarket_go_bot.Prelude.Go.{Returns, Returns-bind, Returns-and, Returns-if}
use polymarket_go_bot.Decimal.{Decimal, IsDecimal}
use polymarket_go_bot.Model.{Outcome, up, down}
use polymarket_go_bot.Worker.{MarketWorker, MarketState, Readings}
use polymarket_go_bot.Worker.Tick.{Call, process_tick}
use polymarket_go_bot.Worker.Fills.{IsSound}
use polymarket_go_bot.Worker.Position.{IsAnswered, closed-IsSound, process_tick-IsSound}
use polymarket_go_bot.Worker.Loop.{
  Signal, saw_closed, saw_done, ticked, LoopResult, Tick, with_tick, select_loop,
}
use polymarket_go_bot.Worker.Timed.Ticks.{asks, held, IsKept, IsTimedTick, process_tick-IsTimedTick}
use polymarket_go_bot.Worker.Paced.{
  IsPast, IsPaced, IsPast-mono, HasTimes, IsOrderTime, last_order, order_time, IsPast-order,
}

module _ {D : Type 0} ⦃d : Decimal D⦄ where
  -- The clock runs on from `t`.
  abbrev pub IsClock : ℕ → List (Signal D) → Type 0
  IsClock t [] = Unit
  IsClock t (saw_closed ∷ signals) = IsClock t signals
  IsClock t (saw_done ∷ signals) = IsClock t signals
  IsClock t (ticked env now ∷ signals) =
      (t ≤ now.at_debounce) × (now.at_debounce ≤ now.at_decision) × IsClock now.at_decision signals

  -- If there are prices, they are a quoted book, in each tick.
  abbrev pub AreAnswered : List (Signal D) → MarketWorker D → ℕ → Type 0
  AreAnswered [] w n = Unit
  AreAnswered (saw_closed ∷ signals) w n = AreAnswered signals w n
  AreAnswered (saw_done ∷ signals) w n = AreAnswered signals w n
  AreAnswered (ticked env now ∷ signals) w n = IsAnswered env w n × AreAnswered signals w n

  -- The quantity of a side after the ticks.
  abbrev pub held_after : Outcome → List Tick → D → D
  held_after side [] q = q
  held_after side (t ∷ ts) q = held_after side ts (held side t.calls q)

  -- What is told of a run that starts with the worker `w`.
  abbrev pub IsTrading : (stop pause : ℕ) → MarketWorker D → LoopResult D → Type 0
  IsTrading stop pause w r =
      IsSound r.worker
      × IsPaced stop pause w.market.end_time w.last_decision r.ticks
      × (r.worker.q_up ≡ held_after up r.ticks w.q_up)
      × (r.worker.q_down ≡ held_after down r.ticks w.q_down)

module _ {D : Type 0} ⦃d : Decimal D⦄ (laws : IsDecimal D) where
  kept-AreAnswered :
      (w w' : MarketWorker D) (n : ℕ) (signals : List (Signal D))
      → IsKept w w'
      → AreAnswered signals w n
      → AreAnswered signals w' n
  kept-AreAnswered w w' n [] k h = tt
  kept-AreAnswered w w' n (saw_closed ∷ signals) k h = kept-AreAnswered w w' n signals k h
  kept-AreAnswered w w' n (saw_done ∷ signals) k h = kept-AreAnswered w w' n signals k h
  kept-AreAnswered w w' n (ticked env now ∷ signals) k (a, h) = (
    λ p got.
        (let (quoted, steps) =
            a p
              (ap (λ (m : MarketState). env.get_prices m.token_up m.token_down) (sym k.0) ∙ got) in
          (
            record {
              bid_up_pos = quoted.bid_up_pos;
              bid_down_pos = quoted.bid_down_pos;
              up_le = quoted.up_le;
              down_le = quoted.down_le;
            },
            record {
              top = steps.top;
              step_up = rw k.1 steps.step_up;
              step_down = rw k.1 steps.step_down;
              top_le = rw k.2 steps.top_le;
            },
          )),
    kept-AreAnswered w w' n signals k h,
  )

  -- A tick and the rest of the run.
  module _ (stop pause : ℕ) (w w' : MarketWorker D) (now : Readings) (calls : List Call)
      (times : HasTimes w stop pause) (past : IsPast w.last_decision now.at_debounce)
      (told : IsTimedTick w now (w', calls)) where
    in_order :
        IsOrderTime (suc stop) pause w.market.end_time w.last_decision now (asks calls)
        × (w'.last_decision ≡ last_order w.last_decision now (asks calls))
    in_order = order_time laws w w' stop pause now (asks calls) times past told.1

    with_tick-IsTrading :
        (r : LoopResult D)
        → IsTrading (suc stop) pause w' r
        → IsTrading (suc stop) pause w (with_tick now calls r)
    with_tick-IsTrading r (sound, paced, up_held, down_held) = (
      sound,
      (
        in_order.0,
        subst (λ l. IsPaced (suc stop) pause w.market.end_time l r.ticks) in_order.1
            (subst
              (λ (m : MarketState). IsPaced (suc stop) pause m.end_time w'.last_decision r.ticks)
              told.0.0 paced),
      ),
      up_held ∙ ap (held_after up r.ticks) told.2.0,
      down_held ∙ ap (held_after down r.ticks) told.2.1,
    )

  -- For a worker whose stop time and pause are whole milliseconds, the stop time not zero, over any
  -- run of the loop, with fuel for the steps between the sizes, in which the clock does not go back,
  -- nor behind the last decision, and prices, if there are any, are a quoted book: the loop does not
  -- panic and keeps settings in order and a position not short, and a tick asks for an order only
  -- while at least the stop time is left until the end of the market, and only more than the pause
  -- after the decision before it. The quantity of each side is at the end what it was, with the sizes
  -- of the orders for it that the exchange accepted.
  pub select_loop-IsTrading :
      (stop pause n t : ℕ) (signals : List (Signal D)) (w : MarketWorker D)
      → IsSound w
      → HasTimes w stop pause
      → IsPast w.last_decision t
      → IsClock t signals
      → AreAnswered signals w n
      → Returns (IsTrading (suc stop) pause w) (select_loop (suc (suc n)) signals w)
  unfolding select_loop
  select_loop-IsTrading stop pause n t [] w sound times past clock answered =
      (sound, tt, refl, refl)
  select_loop-IsTrading stop pause n t (saw_done ∷ signals) w sound times past clock answered =
      (closed-IsSound laws w sound, tt, refl, refl)
  select_loop-IsTrading stop pause n t (saw_closed ∷ signals) w sound times past clock answered =
      Returns-if (IsTrading (suc stop) pause w) w.closed _ _ (sound, tt, refl, refl)
        (select_loop-IsTrading stop pause n t signals w sound times past clock answered)
  select_loop-IsTrading stop pause n t (ticked env now ∷ signals) w sound times past
        (from, through, clock) (answer, answered) =
      Returns-bind (λ r. IsSound r.0 × IsTimedTick w now r) (IsTrading (suc stop) pause w)
        (process_tick (suc (suc n)) env now w) _
        (Returns-and (λ r. IsSound r.0) (IsTimedTick w now) (process_tick (suc (suc n)) env now w)
          (process_tick-IsSound laws env now w n sound answer)
          (process_tick-IsTimedTick (suc (suc n)) env now w))
        λ (w', calls) (sound', told).
          let past' = IsPast-mono w.last_decision t now.at_debounce past from in
          Returns-bind (IsTrading (suc stop) pause w') (IsTrading (suc stop) pause w)
            (select_loop (suc (suc n)) signals w') _
            (select_loop-IsTrading stop pause n now.at_decision signals w' sound'
              (told.0.3 ∙ times.0, told.0.4 ∙ times.1)
              (subst (λ l. IsPast l now.at_decision)
                (sym (in_order stop pause w w' now calls times past' told).1)
                (IsPast-order w.last_decision now (asks calls) past' through))
              clock (kept-AreAnswered w w' n signals told.0 answered))
            λ r trading. with_tick-IsTrading stop pause w w' now calls times past' told r trading
