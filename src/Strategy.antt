-- ===== src/Strategy.antt =====
-- internal/engine/strategy.go: the functions that turn prices, a position and the time to expiry into
-- a target, a threshold, a limit price and a simulated risk. `Div` panics on a zero divisor, so the
-- functions that divide end in a `Go` result.
pub mod Bounds
pub mod Price
pub mod Risk
pub mod Tests
use polymarket_go_bot.Prelude.{Bool, true, false, not, if◌then◌else◌}
use polymarket_go_bot.Prelude.Go.{Go, returns, ◌>>=◌}
use polymarket_go_bot.Decimal.{Decimal, dec_zero, dec_one, dec_half, dec_one_half, quo}

module _ {D : Type 0} ⦃d : Decimal D⦄ where
  open d use {
    add, sub, mul, abs, less_than, greater_than, less_than_or_equal, equal, is_zero, float_pow,
  }

  unfoldable pub clamp : D → D → D → D
  clamp x a b = if less_than x a then a else if greater_than x b then b else x

  unfoldable pub min_dec : D → D → D
  min_dec a b = if less_than a b then a else b

  unfoldable pub risk : D → D → D → D → D
  risk q_up p_up q_down p_down = sub (add (mul q_up p_up) (mul q_down p_down)) (min_dec q_up q_down)

  unfoldable pub p_fair : D → D → Go D
  p_fair mid_up mid_down =
      let denom = add mid_up mid_down in
      if less_than_or_equal denom dec_zero then returns dec_half else quo mid_up denom

  unfoldable pub dec_pow01 : D → D → Go D
  dec_pow01 x n =
      let c = clamp x dec_zero dec_one in
      if is_zero n
      then returns dec_one
      else if is_zero c
      then returns dec_zero
      else if equal c dec_one
      then returns dec_one
      else float_pow c n

  unfoldable pub k_tte : D → D → D → D → D → Go D
  k_tte tte market_time_ms k_min k_max alpha =
      if less_than_or_equal market_time_ms dec_zero then returns k_min else do
        ratio ← quo tte market_time_ms
        x_pow ← dec_pow01 (clamp (sub dec_one ratio) dec_zero dec_one) alpha
        returns (add k_min (mul (sub k_max k_min) x_pow))

  unfoldable pub target_tilt : D → D → D → D → D → D → D → D → Go D
  target_tilt p tte market_time_ms k_min k_max alpha tau_min tau_max = do
    k ← k_tte tte market_time_ms k_min k_max alpha
    returns (clamp (add dec_half (mul k (sub p dec_half))) tau_min tau_max)

  unfoldable pub eps_tte : D → D → D → D → Go D
  eps_tte tte market_time_ms eps_min eps_max =
      if less_than_or_equal market_time_ms dec_zero then returns eps_min else do
        ratio ← quo tte market_time_ms
        let x = clamp (sub dec_one ratio) dec_zero dec_one
        returns (add eps_min (mul (sub eps_max eps_min) (sub dec_one x)))

  unfoldable pub money_tilt : D → D → D → D → Go D
  money_tilt q_up p_up q_down p_down =
      let c_up = mul q_up p_up in
      let denom = add c_up (mul q_down p_down) in
      if is_zero denom then returns dec_half else quo c_up denom

  unfoldable pub choose_limit_price : D → D → D → D → D → D → D → D → D → Go D
  choose_limit_price bid ask e tte market_time_ms k_min k_max alpha e_max =
      if less_than_or_equal e_max dec_zero then returns bid else do
        ratio ← quo (abs e) e_max
        k ← k_tte tte market_time_ms k_min k_max alpha
        let aggression1 = clamp ratio dec_zero dec_one
        let aggression2 = clamp k dec_zero dec_one_half
        returns (add bid (mul (mul aggression1 aggression2) (sub ask bid)))

  -- The average price of `q` contracts at `p` and `q_buy` more at `p_buy`; `p` if there are none.
  unfoldable pub new_average : D → D → D → D → Go D
  new_average q p q_buy p_buy =
      if not (is_zero (add q q_buy))
      then quo (add (mul q p) (mul q_buy p_buy)) (add q q_buy)
      else returns p

  unfoldable pub simulate_new_risk : D → D → D → D → Bool → D → D → Go D
  simulate_new_risk q_up p_up q_down p_down buy_up q_buy p_buy =
      if buy_up
      then (do
        p_up2 ← new_average q_up p_up q_buy p_buy
        returns (risk (add q_up q_buy) p_up2 q_down p_down))
      else (do
        p_down2 ← new_average q_down p_down q_buy p_buy
        returns (risk q_up p_up (add q_down q_buy) p_down2))
