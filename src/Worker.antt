-- ===== src/Worker.antt =====
-- internal/engine/worker.go: the state of a worker and one decision of the trading algorithm. The
-- clock is read several times in a tick; each reading is an input, in nanoseconds.
pub mod Tick
pub mod Sizing
pub mod Ready
pub mod Decision
pub mod Fills
pub mod Position
pub mod Loop
pub mod Panic
pub mod Guards
pub mod Timed
pub mod Paced
pub mod Tests
use Prim.Native.Nat.{Ordering}
use polymarket_go_bot.Prelude.{
  ℕ, zero, suc, ◌-◌, ◌^◌, String, Bool, true, false, not, Option, none, some, if◌then◌else◌,
}
use polymarket_go_bot.Prelude.Int.{ℤ, pos, sub_ℕ, quot_ℕ}
use polymarket_go_bot.Prelude.Go.{Go, returns, out_of_fuel, ◌>>=◌}
use polymarket_go_bot.Decimal.{Decimal, dec_zero, dec_two, dec_half, quo}
use polymarket_go_bot.Model.{Order}
use polymarket_go_bot.Config.{Config}
use polymarket_go_bot.Strategy.{
  risk, p_fair, target_tilt, eps_tte, money_tilt, choose_limit_price, simulate_new_risk,
}

pub record MarketState : Type 0 where
  pub id : String
  pub condition_id : String
  pub token_up : String
  pub token_down : String
  pub start_time : ℕ
  pub end_time : ℕ

-- `last_decision` is `none` for the zero time; `closed` says whether the channel is closed.
pub record MarketWorker (D : Type 0) : Type 0 where
  pub market : MarketState
  pub ask_up : D
  pub bid_up : D
  pub ask_down : D
  pub bid_down : D
  pub p_fair_val : D
  pub q_up : D
  pub p_up : D
  pub q_down : D
  pub p_down : D
  pub tte : D
  pub risk_val : D
  pub money_tilt_val : D
  pub target_tilt_val : D
  pub last_decision : Option ℕ
  pub market_time_ms : D
  pub risk_limit : D
  pub min_size : D
  pub max_step_risk : D
  pub k_min : D
  pub k_max : D
  pub alpha : D
  pub tau_min : D
  pub tau_max : D
  pub eps_min : D
  pub eps_max : D
  pub e_max : D
  pub stop_trade_tte_ms : D
  pub decision_debounce_ms : D
  pub closed : Bool

-- The readings of the clock in one tick, in their order.
pub record Readings : Type 0 where
  pub at_expiry_check : ℕ
  pub at_tte : ℕ
  pub at_debounce : ℕ
  pub at_decision : ℕ

-- Duration.Milliseconds()
abbrev pub milliseconds : ℤ → ℤ
milliseconds n = quot_ℕ n 1_000_000

-- time.Since saturates at the longest duration; it does so for the zero time.
abbrev pub since : ℕ → Option ℕ → ℤ
since now none = pos (2 ^ 63 - 1)
since now (some t) = sub_ℕ now t

abbrev pub is_greater : Ordering → Bool
is_greater Ordering.gt = true
is_greater _ = false

abbrev pub is_less : Ordering → Bool
is_less Ordering.lt = true
is_less _ = false

module _ {D : Type 0} ⦃d : Decimal D⦄ where
  open d use {from_int, add, sub, mul, abs, cmp, min, max, string_fixed}

  unfoldable pub new_market_worker : Config D → String → MarketWorker D
  new_market_worker cfg market_id = record {
    market = record {
      id = market_id;
      condition_id = "";
      token_up = "";
      token_down = "";
      start_time = 0;
      end_time = 0;
    };
    ask_up = dec_zero;
    bid_up = dec_zero;
    ask_down = dec_zero;
    bid_down = dec_zero;
    p_fair_val = dec_zero;
    q_up = dec_zero;
    p_up = dec_zero;
    q_down = dec_zero;
    p_down = dec_zero;
    tte = dec_zero;
    risk_val = dec_zero;
    money_tilt_val = dec_zero;
    target_tilt_val = dec_zero;
    last_decision = none;
    market_time_ms = dec_zero;
    risk_limit = cfg.strategy.risk_limit;
    min_size = cfg.strategy.min_size;
    max_step_risk = cfg.strategy.max_step;
    k_min = cfg.strategy.k_min;
    k_max = cfg.strategy.k_max;
    alpha = cfg.strategy.alpha;
    tau_min = cfg.strategy.tau_min;
    tau_max = cfg.strategy.tau_max;
    eps_min = cfg.strategy.eps_min;
    eps_max = cfg.strategy.eps_max;
    e_max = cfg.strategy.e_max;
    stop_trade_tte_ms = from_int cfg.strategy.stop_tte;
    decision_debounce_ms = from_int cfg.strategy.debounce;
    closed = false;
  }

  -- The values that a decision starts from: fair price, tilts and risk.
  unfoldable pub evaluate : MarketWorker D → Go (MarketWorker D)
  evaluate w = do
    mid_up ← quo (add w.ask_up w.bid_up) dec_two
    mid_down ← quo (add w.ask_down w.bid_down) dec_two
    p ← p_fair mid_up mid_down
    money ← money_tilt w.q_up mid_up w.q_down mid_down
    target ← target_tilt p w.tte w.market_time_ms w.k_min w.k_max w.alpha w.tau_min w.tau_max
    returns (record w {
      p_fair_val = p;
      money_tilt_val = money;
      target_tilt_val = target;
      risk_val = risk w.q_up w.p_up w.q_down w.p_down;
    })

  -- e, and whether it asks for Up
  abbrev pub signal : MarketWorker D → D
  signal w = sub w.target_tilt_val w.money_tilt_val

  abbrev pub buys_up : MarketWorker D → Bool
  buys_up w = is_greater (cmp (signal w) dec_zero)

  unfoldable pub limit_price : MarketWorker D → Go D
  limit_price w =
      if buys_up w
      then choose_limit_price w.bid_up w.ask_up (signal w) w.tte w.market_time_ms w.k_min w.k_max
          w.alpha w.e_max
      else choose_limit_price w.bid_down w.ask_down (signal w) w.tte w.market_time_ms w.k_min
          w.k_max w.alpha w.e_max

  -- The loop that makes the size smaller until the simulated risk is below the limit or the size is
  -- below the minimum, on fuel.
  unfoldable pub shrink : ℕ → MarketWorker D → D → D → Go D
  shrink zero w price q_buy = out_of_fuel
  shrink (suc fuel) w price q_buy =
      let rest = shrink fuel w price (sub q_buy dec_half) in
      if not (is_less (cmp q_buy w.min_size))
      then (do
        r2 ← simulate_new_risk w.q_up w.p_up w.q_down w.p_down (buys_up w) q_buy price
        if is_less (cmp r2 w.risk_limit) then returns q_buy else rest)
      else returns q_buy

  -- OriginalSize and Price, the two fields that are set.
  abbrev pub sized_order : D → D → Order
  sized_order q_buy price = record {
    id = "";
    status = "";
    error = false;
    error_msg = "";
    condition_id = "";
    original_size = string_fixed q_buy 2;
    matched_size = "";
    price = string_fixed price 2;
    token_id = "";
    outcome = none;
    trade_side = none;
    associate_trades = "";
  }

  -- Price and size of an order, once the signal asks for one.
  unfoldable pub size_order : ℕ → Readings → MarketWorker D → Go (MarketWorker D × Option Order)
  size_order fuel now w = do
    let headroom = sub w.risk_limit w.risk_val
    price ← limit_price w
    q_raw ← quo (min w.max_step_risk headroom) price
    q_buy ← shrink fuel w price (max q_raw w.min_size)
    if is_less (cmp q_buy w.min_size)
        then returns (w, none)
        else returns
            (record w { last_decision = some now.at_decision }, some (sized_order q_buy price))

  -- The guards between the evaluation and the order.
  unfoldable pub decide : ℕ → Readings → MarketWorker D → Go (MarketWorker D × Option Order)
  decide fuel now w =
      if is_less (cmp (sub w.risk_limit w.risk_val) dec_zero) then returns (w, none) else do
        eps ← eps_tte w.tte w.market_time_ms w.eps_min w.eps_max
        if not (is_greater (cmp (abs (signal w)) eps))
            then returns (w, none)
            else if not (
                is_greater (
                  cmp (from_int (milliseconds (since now.at_debounce w.last_decision)))
                    w.decision_debounce_ms))
            then returns (w, none)
            else size_order fuel now w

  -- The result `(false, Order{})` is `none`.
  unfoldable pub process_new_market_state :
      ℕ → Readings → MarketWorker D → Go (MarketWorker D × Option Order)
  process_new_market_state fuel now w =
      let w1 = record w { tte = from_int (milliseconds (sub_ℕ w.market.end_time now.at_tte)) } in
      if is_greater (cmp w1.stop_trade_tte_ms w1.tte)
      then returns (w1, none)
      else do w2 ← evaluate w1; decide fuel now w2
