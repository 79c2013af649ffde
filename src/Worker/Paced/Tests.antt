-- ===== src/Worker/Paced/Tests.antt =====
-- Two ticks of the trading loop at concrete inputs.
use polymarket_go_bot.Worker.Tests.{at, tilted, answers}
use mathlib.Core.Path.{subst}
use polymarket_go_bot.Prelude.{◌≡◌, refl, List, [], ◌∷◌, arith}
use polymarket_go_bot.Prelude.Int.{ℤ, pos, ◌+ℤ◌, ◌-ℤ◌, ◌*ℤ◌}
use polymarket_go_bot.Prelude.Go.{Go, returns, ◌>>=◌, Returns}
use polymarket_go_bot.Prelude.Fallible.{ok-injective}
use polymarket_go_bot.Decimal.Whole.{whole, whole_laws, round_div}
use polymarket_go_bot.Strategy.{
  risk, simulate_new_risk, p_fair, money_tilt, target_tilt, k_tte, dec_pow01, clamp, min_dec,
  eps_tte, choose_limit_price, new_average,
}
use polymarket_go_bot.Worker.{
  MarketWorker, evaluate, decide, limit_price, shrink, process_new_market_state, size_order,
}
use polymarket_go_bot.Worker.Ready.{IsConfigured, IsLong, IsQuoted, IsWithinSteps}
use polymarket_go_bot.Worker.Tick.{
  on_prices, on_decision, process_tick, fill, filled_price, with_prices,
}
use polymarket_go_bot.Worker.Position.{IsAnswered}
use polymarket_go_bot.Worker.Paced.Runs.{IsTrading, select_loop-IsTrading}
use polymarket_go_bot.Worker.Loop.{LoopResult, Signal, saw_done, ticked, select_loop}

-- Two ticks of a worker with a stop time of one second and a pause of half a second.
abbrev trading : MarketWorker ℤ
trading = record tilted { stop_trade_tte_ms = pos 1_000 }

abbrev signals : List (Signal ℤ)
signals = ticked answers (at 1_000_000) ∷ ticked answers (at 900_000_000) ∷ saw_done ∷ []

trading-IsConfigured : IsConfigured trading
trading-IsConfigured = record {
  min_size_pos = refl;
  k_le = refl;
  alpha_nonneg = refl;
  tau_le = refl;
  eps_le = refl;
}

trading-IsLong : IsLong trading
trading-IsLong = record {
  q_up_nonneg = refl;
  p_up_nonneg = refl;
  q_down_nonneg = refl;
  p_down_nonneg = refl;
}

trading_quoted : IsQuoted trading
trading_quoted = record { bid_up_pos = refl; bid_down_pos = refl; up_le = refl; down_le = refl }

trading_steps : IsWithinSteps trading 9
unfolding ◌+ℤ◌ ◌*ℤ◌ round_div
trading_steps = record { top = 10; step_up = refl; step_down = refl; top_le = refl }

answered : IsAnswered answers trading 9
answered p e =
    subst (λ x. IsQuoted (with_prices trading x) × IsWithinSteps (with_prices trading x) 9)
      (ok-injective e) (trading_quoted, trading_steps)

select_loop-IsTrading_example :
    Returns (IsTrading 1_000 500 trading) (select_loop 11 signals trading)
select_loop-IsTrading_example =
    select_loop-IsTrading whole_laws 999 500 9 0 signals trading
      (trading-IsConfigured, trading-IsLong) (refl, refl) tt (omega arith)
      (answered, (answered, tt))

-- The first tick buys ten of Up; the second one finds the pause over and asks for more.
quantity_of : Go (LoopResult ℤ) → Go ℤ
quantity_of m = m >>= λ r. returns r.worker.q_up

quantity_run : quantity_of (select_loop 11 signals trading) ≡ returns (pos 20)
unfolding quantity_of select_loop process_tick process_new_market_state evaluate p_fair ◌+ℤ◌
    round_div money_tilt ◌*ℤ◌ target_tilt k_tte dec_pow01 clamp ◌-ℤ◌ decide risk min_dec eps_tte
    size_order limit_price choose_limit_price new_average simulate_new_risk shrink fill filled_price
    on_prices on_decision
quantity_run = refl
