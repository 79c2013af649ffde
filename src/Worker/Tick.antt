-- ===== src/Worker/Tick.antt =====
-- internal/engine/worker.go: one tick of a worker. The exchange and the storage answer through `Env`;
-- the calls that a tick makes of them are returned in their order.
use polymarket_go_bot.Prelude.{
  ℕ, String, Bool, true, Option, none, some, List, [], ◌∷◌, ◌++◌, ◌&&◌, ltb, if◌then◌else◌,
}
use polymarket_go_bot.Prelude.Go.{Go, returns, ◌>>=◌}
use polymarket_go_bot.Prelude.Fallible.{Fallible, ok, fails}
use polymarket_go_bot.Decimal.{Decimal, dec_zero, dec_two, quo}
use polymarket_go_bot.Model.{
  MarketStatus, active, resolved, Market, Outcome, up, down, Order, Price,
}
use polymarket_go_bot.Prelude.Int.{sub_ℕ}
use polymarket_go_bot.Worker.{
  milliseconds, MarketWorker, MarketState, Readings, buys_up, process_new_market_state,
}

-- The answers of exchange.Client and storage.Storage in one tick.
pub record Env (D : Type 0) : Type 0 where
  pub get_prices : String → String → Fallible (Price D)
  pub place_order : String → Outcome → String → String → Fallible Order
  pub insert_order : Order → Fallible (Unit {0})
  pub update_market_status : String → MarketStatus → Fallible (Unit {0})

-- A call of the exchange or the storage, with its arguments.
pub data Call : Type 0 where
  get_prices : String → String → Call
  place_order : String → Outcome → String → String → Call
  insert_order : Order → Call
  update_market_status : String → MarketStatus → Call

abbrev pub token_of : Bool → MarketState → String
token_of buy_up m = if buy_up then m.token_up else m.token_down

abbrev pub outcome_of : Bool → Outcome
outcome_of buy_up = if buy_up then up else down

module _ {D : Type 0} ⦃d : Decimal D⦄ where
  open d use {add, mul, is_zero, from_string}

  -- mw.close(): closeOnce makes a second call do nothing.
  abbrev pub close : MarketWorker D → MarketWorker D
  close w = record w { closed = true }

  -- `v, _ := decimal.NewFromString(s)`: the zero value on an error
  abbrev pub value_or_zero : Fallible D → D
  value_or_zero (ok v) = v
  value_or_zero fails = dec_zero

  abbrev pub parse_or_zero : String → D
  parse_or_zero s = value_or_zero (from_string s)

  -- The average price after a fill of one side.
  unfoldable pub filled_price : D → D → D → D → Go D
  filled_price q p size price =
      if is_zero q then returns price else quo (add (mul q p) (mul size price)) (add q size)

  -- The position after a fill of `size` at `price`.
  unfoldable pub fill : Bool → D → D → MarketWorker D → Go (MarketWorker D)
  fill buy_up size price w =
      if buy_up
      then (do
        p ← filled_price w.q_up w.p_up size price
        returns (record w { p_up = p; q_up = add w.q_up size }))
      else (do
        p ← filled_price w.q_down w.p_down size price
        returns (record w { p_down = p; q_down = add w.q_down size }))

  -- What follows `PlaceOrder`. An error of `InsertOrder` is logged, and the position is updated.
  unfoldable pub on_placed :
      MarketWorker D → Order → Bool → List Call → Fallible Order → Go (MarketWorker D × List Call)
  on_placed w order buy_up calls fails = returns (w, calls)
  on_placed w order buy_up calls (ok placed) = do
    w2 ← fill buy_up (parse_or_zero order.original_size) (parse_or_zero order.price) w
    returns
        (w2, calls ++ (insert_order (record placed { condition_id = w.market.condition_id }) ∷ []))

  -- What follows the decision. The two mid prices are computed once more, for the log.
  unfoldable pub on_decision :
      Env D → List Call → MarketWorker D × Option Order → Go (MarketWorker D × List Call)
  unfolding on_placed
  on_decision env calls (w, none) = returns (w, calls)
  on_decision env calls (w, some order) = do
    mid_up ← quo (add w.ask_up w.bid_up) dec_two
    mid_down ← quo (add w.ask_down w.bid_down) dec_two
    let token = token_of (buys_up w) w.market
    let outcome = outcome_of (buys_up w)
    on_placed w order (buys_up w)
        (calls ++ (place_order token outcome order.price order.original_size ∷ []))
        (env.place_order token outcome order.price order.original_size)

  abbrev pub with_prices : MarketWorker D → Price D → MarketWorker D
  with_prices w p = record w {
    ask_up = p.up_ask;
    bid_up = p.up_bid;
    ask_down = p.down_ask;
    bid_down = p.down_bid;
  }

  unfoldable pub on_prices :
      ℕ → Env D → Readings → MarketWorker D → Fallible (Price D) → Go (MarketWorker D × List Call)
  on_prices fuel env now w fails =
      returns (w, get_prices w.market.token_up w.market.token_down ∷ [])
  on_prices fuel env now w (ok p) = do
    decision ← process_new_market_state fuel now (with_prices w p)
    on_decision env (get_prices w.market.token_up w.market.token_down ∷ []) decision

  -- An error of `UpdateMarketStatus` is dropped.
  unfoldable pub process_tick :
      ℕ → Env D → Readings → MarketWorker D → Go (MarketWorker D × List Call)
  process_tick fuel env now w =
      if ltb w.market.end_time now.at_expiry_check
      then returns (close w, update_market_status w.market.id resolved ∷ [])
      else on_prices fuel env now w (env.get_prices w.market.token_up w.market.token_down)

  -- What `Run` loads of the stored market.
  unfoldable pub load_market : Market → MarketWorker D → MarketWorker D
  load_market m w = record w {
    market = record {
      id = m.id;
      condition_id = m.condition_id;
      token_up = m.token_up;
      token_down = m.token_down;
      start_time = m.start_time;
      end_time = m.end_time;
    };
    market_time_ms = d.from_int (milliseconds (sub_ℕ m.end_time m.start_time));
  }

  -- `Run` up to the trading loop: `fails` if the market is not in the storage or the context ends
  -- while the worker waits for the start, which it does only if that lies ahead.
  unfoldable pub run_start :
      (String → Fallible Market)
      → (now : ℕ) (cancelled_in_wait : Bool) → MarketWorker D
      → MarketWorker D × Fallible (List Call)
  unfolding load_market
  run_start get_market now cancelled_in_wait w = elim (get_market w.market.id) [
    | fails ↦ (w, fails)
    | ok m ↦
        let w1 = load_market m w in
        if ltb now m.start_time && cancelled_in_wait
        then (w1, fails)
        else (w1, ok (update_market_status w1.market.id active ∷ []))
  ]
