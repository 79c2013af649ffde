-- ===== src/Worker/Ready.antt =====
-- internal/engine/worker.go: what a decision needs of the worker, and what it may do to it.
use polymarket_go_bot.Prelude.{String, ℕ, ◌≡◌, Option, none, some, if◌then◌else◌}
use polymarket_go_bot.Prelude.Int.{pos}
use polymarket_go_bot.Prelude.Fallible.{ok}
use polymarket_go_bot.Decimal.{half_unit, Decimal, dec_zero, ◌≼◌, ◌≺◌}
use polymarket_go_bot.Model.{Order}
use polymarket_go_bot.Strategy.{risk}
use polymarket_go_bot.Worker.{MarketWorker, buys_up}
use polymarket_go_bot.Worker.Sizing.{size_above, IsWithinLimit}

module _ {D : Type 0} ⦃d : Decimal D⦄ where
  open d use {add, sub, mul, div, from_int}

  -- The settings are in order.
  pub record IsConfigured (w : MarketWorker D) : Type 0 where
    pub min_size_pos : dec_zero ≺ w.min_size
    pub k_le : w.k_min ≼ w.k_max
    pub alpha_nonneg : dec_zero ≼ w.alpha
    pub tau_le : w.tau_min ≼ w.tau_max
    pub eps_le : w.eps_min ≼ w.eps_max

  -- The position is not short.
  pub record IsLong (w : MarketWorker D) : Type 0 where
    pub q_up_nonneg : dec_zero ≼ w.q_up
    pub p_up_nonneg : dec_zero ≼ w.p_up
    pub q_down_nonneg : dec_zero ≼ w.q_down
    pub p_down_nonneg : dec_zero ≼ w.p_down

  -- Both sides have a positive bid, and none is above its ask.
  pub record IsQuoted (w : MarketWorker D) : Type 0 where
    pub bid_up_pos : dec_zero ≺ w.bid_up
    pub bid_down_pos : dec_zero ≺ w.bid_down
    pub up_le : w.bid_up ≼ w.ask_up
    pub down_le : w.bid_down ≼ w.ask_down

  -- `w'` is `w` but for the values that a decision computes: the prices, the position, the market and
  -- the settings are as before.
  abbrev pub IsUpdate : MarketWorker D → MarketWorker D → Type 0
  IsUpdate w w' = w' ≡ record w {
    tte = w'.tte;
    p_fair_val = w'.p_fair_val;
    money_tilt_val = w'.money_tilt_val;
    target_tilt_val = w'.target_tilt_val;
    risk_val = w'.risk_val;
    last_decision = w'.last_decision;
  }

  abbrev pub IsEvaluated : MarketWorker D → MarketWorker D → Type 0
  IsEvaluated w w' = IsUpdate w w' × (w'.risk_val ≡ risk w.q_up w.p_up w.q_down w.p_down)

  abbrev pub bid_of : MarketWorker D → D
  bid_of w = if buys_up w then w.bid_up else w.bid_down

  -- The text gives a number that is no less than the bound, up to half a cent.
  abbrev pub IsAtLeast : D → String → Type 0
  IsAtLeast bound s = (sent : D) × (d.from_string s ≡ ok sent) × (bound ≼ d.add sent (half_unit 2))

  -- An order of at least the minimal size, at no less than the bid, asked for with money left, whose
  -- simulated risk is below the limit; its texts are the two numbers to two decimals.
  pub record IsOrderFor (w : MarketWorker D) (o : Order) : Type 0 where
    pub size : D
    pub price : D
    pub size_text : o.original_size ≡ d.string_fixed size 2
    pub price_text : o.price ≡ d.string_fixed price 2
    pub size_sent : IsAtLeast w.min_size o.original_size
    pub price_sent : IsAtLeast (bid_of w) o.price
    pub min_size_le : w.min_size ≼ size
    pub bid_le : bid_of w ≼ price
    pub headroom : dec_zero ≼ sub w.risk_limit w.risk_val
    pub within : IsWithinLimit w price size

  abbrev pub IsOrderIfAny : MarketWorker D → Option Order → Type 0
  IsOrderIfAny w none = Unit
  IsOrderIfAny w (some o) = IsOrderFor w o

  abbrev pub IsDecided : MarketWorker D → MarketWorker D × Option Order → Type 0
  IsDecided w (w', o) = IsUpdate w w' × IsOrderIfAny w' o

  -- The bids and the largest step fit `n` halves above the minimal size: what the loop may start from.
  pub record IsWithinSteps (w : MarketWorker D) (n : ℕ) : Type 0 where
    pub top : ℕ
    pub step_up : w.max_step_risk ≼ mul (from_int (pos top)) w.bid_up
    pub step_down : w.max_step_risk ≼ mul (from_int (pos top)) w.bid_down
    pub top_le : from_int (pos top) ≼ size_above w.min_size n

  -- What a decision needs of the worker.
  pub record IsReady (w : MarketWorker D) (n : ℕ) : Type 0 where
    pub configured : IsConfigured w
    pub long : IsLong w
    pub quoted : IsQuoted w
    pub steps : IsWithinSteps w n
