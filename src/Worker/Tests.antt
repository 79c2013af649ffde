-- ===== src/Worker/Tests.antt =====
-- The worker at concrete inputs, over whole numbers.
use polymarket_go_bot.Prelude.{ℕ, ◌≡◌, refl, true, false, none, some, List, [], ◌∷◌, arith}
use polymarket_go_bot.Prelude.Int.{ℤ, pos, ◌+ℤ◌, ◌-ℤ◌, ◌*ℤ◌}
use polymarket_go_bot.Prelude.Go.{returns, panics, ◌>>=◌, Returns}
use polymarket_go_bot.Prelude.Fallible.{ok, fails}
use polymarket_go_bot.Decimal.Whole.{whole, whole_laws, round_div}
use polymarket_go_bot.Model.{Order, Price, up}
use polymarket_go_bot.Strategy.{
  risk, simulate_new_risk, p_fair, money_tilt, target_tilt, k_tte, dec_pow01, clamp, min_dec,
  eps_tte, choose_limit_price, new_average,
}
use polymarket_go_bot.Worker.{
  MarketWorker, Readings, is_greater, evaluate, decide, limit_price, shrink,
  process_new_market_state, size_order,
}
use polymarket_go_bot.Worker.Sizing.{IsSized, shrink-IsSized}
use polymarket_go_bot.Worker.Ready.{
  IsConfigured, IsLong, IsQuoted, IsWithinSteps, IsReady, IsDecided,
}
use polymarket_go_bot.Worker.Decision.{process_new_market_state-IsDecided}
use polymarket_go_bot.Worker.Tick.{Env, fill}
use polymarket_go_bot.Worker.Fills.{risk-fill}
use polymarket_go_bot.Worker.Loop.{
  Signal, saw_closed, ticked, select_loop, IsIdle, select_loop_expired,
}
use polymarket_go_bot.Worker.Guards.{IsSignalled, process_new_market_state-IsSignalled}
use polymarket_go_bot.Worker.Panic.{size_order_empty_book}

-- A worker with no position; `bid` is the bid and the ask of both sides.
abbrev worker_at : ℤ → MarketWorker ℤ
worker_at bid = record {
  market = record {
    id = "m";
    condition_id = "c";
    token_up = "u";
    token_down = "d";
    start_time = 0;
    end_time = 900_000_000_000;
  };
  ask_up = bid;
  bid_up = bid;
  ask_down = bid;
  bid_down = bid;
  p_fair_val = pos 0;
  q_up = pos 0;
  p_up = pos 0;
  q_down = pos 0;
  p_down = pos 0;
  tte = pos 0;
  risk_val = pos 0;
  money_tilt_val = pos 0;
  target_tilt_val = pos 1;
  last_decision = none;
  market_time_ms = pos 900_000;
  risk_limit = pos 100;
  min_size = pos 1;
  max_step_risk = pos 10;
  k_min = pos 1;
  k_max = pos 1;
  alpha = pos 2;
  tau_min = pos 0;
  tau_max = pos 1;
  eps_min = pos 0;
  eps_max = pos 0;
  e_max = pos 1;
  stop_trade_tte_ms = pos 0;
  decision_debounce_ms = pos 500;
  closed = false;
}

abbrev sample : MarketWorker ℤ
sample = worker_at (pos 1)

abbrev pub at : ℕ → Readings
at t = record { at_expiry_check = t; at_tte = t; at_debounce = t; at_decision = t }

abbrev quotes : Price ℤ
quotes = record { up_ask = pos 1; up_bid = pos 1; down_ask = pos 1; down_bid = pos 1 }

abbrev placed_order : Order
placed_order = record {
  id = "o";
  status = "";
  error = false;
  error_msg = "";
  condition_id = "";
  original_size = "";
  matched_size = "";
  price = "";
  token_id = "u";
  outcome = some up;
  trade_side = none;
  associate_trades = "";
}

abbrev pub answers : Env ℤ
answers = record {
  get_prices = λ u v. ok quotes;
  place_order = λ t o p s. ok placed_order;
  insert_order = λ o. fails;
  update_market_status = λ m s. ok tt;
}

configured : (bid : ℤ) → IsConfigured (worker_at bid)
configured bid = record {
  min_size_pos = refl;
  k_le = refl;
  alpha_nonneg = refl;
  tau_le = refl;
  eps_le = refl;
}

long : IsLong sample
long = record { q_up_nonneg = refl; p_up_nonneg = refl; q_down_nonneg = refl; p_down_nonneg = refl }

quoted : IsQuoted sample
quoted = record { bid_up_pos = refl; bid_down_pos = refl; up_le = refl; down_le = refl }

steps : IsWithinSteps sample 9
unfolding ◌+ℤ◌ ◌*ℤ◌ round_div
steps = record { top = 10; step_up = refl; step_down = refl; top_le = refl }

ready : IsReady sample 9
ready = record { configured = configured (pos 1); long = long; quoted = quoted; steps = steps }

shrink-IsSized_example : Returns (IsSized sample (pos 1) (pos 3)) (shrink 5 sample (pos 1) (pos 3))
unfolding ◌+ℤ◌ round_div
shrink-IsSized_example = shrink-IsSized whole_laws sample (pos 1) refl refl refl 3 (pos 3) refl

process_new_market_state-IsDecided_example :
    Returns (IsDecided sample) (process_new_market_state 11 (at 1_000_000) sample)
process_new_market_state-IsDecided_example =
    process_new_market_state-IsDecided whole_laws sample 9 (at 1_000_000) ready

risk-fill_example :
    (fill true (pos 4) (pos 1) sample >>= λ w'. returns (risk w'.q_up w'.p_up w'.q_down w'.p_down))
    ≡ simulate_new_risk (pos 0) (pos 0) (pos 0) (pos 0) true (pos 4) (pos 1)
unfolding ◌*ℤ◌ round_div
risk-fill_example = risk-fill whole_laws sample true (pos 4) (pos 1) long refl refl

-- The sample with its target at 2, so that the signal asks for Up.
abbrev pub tilted : MarketWorker ℤ
tilted = record sample { tau_min = pos 2; tau_max = pos 2 }

abbrev late : List (Signal ℤ)
late = ticked answers (at 900_000_000_001) ∷ ticked answers (at 900_500_000_001) ∷ saw_closed ∷ []

select_loop_expired_example : Returns (IsIdle sample) (select_loop 11 late sample)
select_loop_expired_example = select_loop_expired 11 late sample (omega arith)

size_order_empty_book_example : size_order 11 (at 1_000_000) (worker_at (pos 0)) ≡ panics
unfolding ◌-ℤ◌
size_order_empty_book_example =
    size_order_empty_book whole_laws 11 (at 1_000_000) (worker_at (pos 0)) (configured (pos 0)) refl
      refl

abbrev decided : MarketWorker ℤ
decided = record tilted {
  p_fair_val = pos 1;
  tte = pos 899_999;
  money_tilt_val = pos 1;
  target_tilt_val = pos 2;
  last_decision = some 1_000_000;
}

abbrev asked : Order
asked = record placed_order {
  id = "";
  original_size = "1111111111";
  price = "1";
  token_id = "";
  outcome = none;
}

process_new_market_state_run :
    process_new_market_state 11 (at 1_000_000) tilted ≡ returns (decided, some asked)
unfolding process_new_market_state evaluate p_fair ◌+ℤ◌ round_div money_tilt ◌*ℤ◌ target_tilt k_tte
    dec_pow01 clamp ◌-ℤ◌ decide risk min_dec eps_tte size_order limit_price choose_limit_price
    new_average simulate_new_risk shrink
process_new_market_state_run = refl

process_new_market_state-IsSignalled_example :
    (is_greater (whole.cmp (pos 0) (pos 899_999)) ≡ false)
    × ((w2 : MarketWorker ℤ) × (evaluate (record tilted { tte = pos 899_999 }) ≡ returns w2)
        × IsSignalled (at 1_000_000) w2)
process_new_market_state-IsSignalled_example =
    process_new_market_state-IsSignalled 11 (at 1_000_000) tilted decided asked
      process_new_market_state_run
