-- ===== src/Worker/Loop.antt =====
-- internal/engine/worker.go: the trading loop. What `select` picks is given as a list of signals.
use polymarket_go_bot.Prelude.{
  ℕ, ◌<◌, ◌≡◌, refl, Bool, true, false, List, [], ◌∷◌, All, lt→ltb, if◌then◌else◌,
}
use polymarket_go_bot.Prelude.Go.{Go, returns, ◌>>=◌, Returns, Returns-bind, Returns-if}
use polymarket_go_bot.Decimal.{Decimal}
use polymarket_go_bot.Model.{resolved}
use polymarket_go_bot.Worker.{MarketWorker, Readings}
use polymarket_go_bot.Worker.Tick.{Env, Call, update_market_status, close, process_tick}

-- The case that `select` takes: the channel `closed`, the end of the context, or the ticker.
pub data Signal (D : Type 0) : Type 0 where
  saw_closed : Signal D
  saw_done : Signal D
  ticked : Env D → Readings → Signal D

-- A tick, with its readings of the clock and the calls that it made.
pub record Tick : Type 0 where
  pub now : Readings
  pub calls : List Call

-- The worker, the ticks that it made, and whether the loop has returned.
pub record LoopResult (D : Type 0) : Type 0 where
  pub worker : MarketWorker D
  pub ticks : List Tick
  pub returned : Bool

module _ {D : Type 0} ⦃d : Decimal D⦄ where
  abbrev pub loop_result : MarketWorker D → List Tick → Bool → LoopResult D
  loop_result w ticks returned = record { worker = w; ticks = ticks; returned = returned }

  abbrev pub with_tick : Readings → List Call → LoopResult D → LoopResult D
  with_tick now calls r = record r { ticks = record { now = now; calls = calls } ∷ r.ticks }

  -- The loop over the signals of the rest of its life. The case of the channel is ready only once the
  -- channel is closed: picked before, it is no case, and the loop waits on.
  unfoldable pub select_loop : ℕ → List (Signal D) → MarketWorker D → Go (LoopResult D)
  select_loop fuel [] w = returns (loop_result w [] false)
  select_loop fuel (saw_closed ∷ signals) w =
      let rest = select_loop fuel signals w in
      if w.closed then returns (loop_result w [] true) else rest
  select_loop fuel (saw_done ∷ signals) w = returns (loop_result (close w) [] true)
  select_loop fuel (ticked env now ∷ signals) w = process_tick fuel env now w >>= λ (w', calls).
      select_loop fuel signals w' >>= λ r. returns (with_tick now calls r)

  -- One tick at once, and then the loop.
  unfoldable pub trading_loop :
      ℕ → Env D → Readings → List (Signal D) → MarketWorker D → Go (LoopResult D)
  trading_loop fuel env now signals w = select_loop fuel (ticked env now ∷ signals) w

  -- The call marks the market `id` resolved.
  abbrev pub IsResolving : MarketWorker D → Call → Type 0
  IsResolving w c = c ≡ update_market_status w.market.id resolved

  -- Every tick reads a clock past the end.
  abbrev pub IsAfter : ℕ → List (Signal D) → Type 0
  IsAfter end [] = Unit
  IsAfter end (saw_closed ∷ signals) = IsAfter end signals
  IsAfter end (saw_done ∷ signals) = IsAfter end signals
  IsAfter end (ticked env now ∷ signals) = (end < now.at_expiry_check) × IsAfter end signals

  -- The worker is as it was, but perhaps closed.
  abbrev pub IsSameButClosed : MarketWorker D → MarketWorker D → Type 0
  IsSameButClosed w w' = w' ≡ record w { closed = w'.closed }

  abbrev pub IsIdle : MarketWorker D → LoopResult D → Type 0
  IsIdle w r = IsSameButClosed w r.worker × All (λ t. All (IsResolving w) t.calls) r.ticks

  process_tick_expired :
      (fuel : ℕ) (env : Env D) (now : Readings) (w : MarketWorker D)
      → w.market.end_time < now.at_expiry_check
      → process_tick fuel env now w
        ≡ returns (close w, update_market_status w.market.id resolved ∷ [])
  unfolding process_tick
  process_tick_expired fuel env now w h = rw (lt→ltb _ _ h)

  -- Once the market is over, whatever the exchange would answer and however often the ticker wins
  -- against the closed channel, the loop does not panic, places no order and changes no position: it
  -- only marks the market resolved.
  pub select_loop_expired :
      (fuel : ℕ) (signals : List (Signal D)) (w : MarketWorker D)
      → IsAfter w.market.end_time signals
      → Returns (IsIdle w) (select_loop fuel signals w)
  unfolding select_loop
  select_loop_expired fuel [] w h = (refl, tt)
  select_loop_expired fuel (saw_closed ∷ signals) w h =
      Returns-if (IsIdle w) w.closed _ _ (refl, tt) (select_loop_expired fuel signals w h)
  select_loop_expired fuel (saw_done ∷ signals) w h = (refl, tt)
  select_loop_expired fuel (ticked env now ∷ signals) w (past, h) =
      rw (process_tick_expired fuel env now w past) (
        Returns-bind (IsIdle (close w)) (IsIdle w) (select_loop fuel signals (close w)) _
          (select_loop_expired fuel signals (close w) h) λ r idle. (idle.0, ((refl, tt), idle.1)))
