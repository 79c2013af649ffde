-- ===== src/Strategy/Tests.antt =====
-- The strategy functions at concrete inputs, over whole numbers.
use polymarket_go_bot.Prelude.{◌≡◌, refl, true, ◌⊎◌}
use polymarket_go_bot.Prelude.Int.{ℤ, pos, ◌+ℤ◌, ◌-ℤ◌, ◌*ℤ◌}
use polymarket_go_bot.Prelude.Go.{returns, Returns}
use polymarket_go_bot.Decimal.{◌≼◌}
use polymarket_go_bot.Decimal.Whole.{whole, whole_laws, round_div}
use polymarket_go_bot.Strategy.{
  clamp, min_dec, risk, k_tte, target_tilt, choose_limit_price, simulate_new_risk, new_average,
}
use polymarket_go_bot.Strategy.Bounds.{IsBetween, target_tilt-IsBetween}
use polymarket_go_bot.Strategy.Price.{choose_limit_price-le-ask}
use polymarket_go_bot.Strategy.Risk.{IsWorst, cost, loss, risk_worst_loss, simulate_new_risk_sound}

-- The cases "more up than down" and "buy up to balance" of strategy_test.go, in cents.
risk_run : risk {D = ℤ} (pos 100) (pos 7) (pos 50) (pos 3) ≡ pos 800
unfolding risk min_dec ◌+ℤ◌ ◌-ℤ◌ ◌*ℤ◌
risk_run = refl

simulate_run :
    simulate_new_risk {D = ℤ} (pos 0) (pos 0) (pos 100) (pos 4) true (pos 100) (pos 6)
    ≡ returns (pos 900)
unfolding simulate_new_risk new_average risk min_dec ◌+ℤ◌ ◌-ℤ◌ ◌*ℤ◌ round_div
simulate_run = refl

-- A cap on k above 1 lets the limit price pass the ask: here the bid is 40, the ask 60, the price 80.
price_above_ask :
    choose_limit_price {D = ℤ}
      (pos 40)
      (pos 60)
      (pos 1)
      (pos 0)
      (pos 0)
      (pos 2)
      (pos 2)
      (pos 1)
      (pos 1)
    ≡ returns (pos 80)
unfolding choose_limit_price k_tte clamp ◌+ℤ◌ ◌-ℤ◌ ◌*ℤ◌ round_div
price_above_ask = refl

target_tilt-IsBetween_example :
    Returns
      (IsBetween (pos 2) (pos 8))
      (target_tilt (pos 9) (pos 0) (pos 900) (pos 1) (pos 1) (pos 1) (pos 2) (pos 8))
target_tilt-IsBetween_example =
    target_tilt-IsBetween whole_laws (pos 9) (pos 0) (pos 900) (pos 1) (pos 1) (pos 1) (pos 2)
      (pos 8) refl refl refl

choose_limit_price-le-ask_example :
    Returns (IsBetween (pos 40) (pos 60)) (
      choose_limit_price
        (pos 40)
        (pos 60)
        (pos 1)
        (pos 0)
        (pos 900)
        (pos 1)
        (pos 1)
        (pos 1)
        (pos 1))
choose_limit_price-le-ask_example =
    choose_limit_price-le-ask whole_laws (pos 40) (pos 60) (pos 1) (pos 0) (pos 900) (pos 1) (pos 1)
      (pos 1) (pos 1) refl refl refl refl

risk_worst_loss_example :
    let spent = cost (pos 100) (pos 7) (pos 50) (pos 3) in
    let worst = risk (pos 100) (pos 7) (pos 50) (pos 3) in
    (loss spent (pos 100) ≼ worst)
    × (loss spent (pos 50) ≼ worst)
    × ((worst ≡ loss spent (pos 100)) ⊎ (worst ≡ loss spent (pos 50)))
risk_worst_loss_example = risk_worst_loss whole_laws (pos 100) (pos 7) (pos 50) (pos 3)

simulate_new_risk_sound_example :
    Returns
      (IsWorst
        ((pos 0 +ℤ pos 100) *ℤ whole_laws.ulp)
        (cost (pos 0) (pos 0) (pos 100) (pos 4) +ℤ pos 100 *ℤ pos 6)
        (pos 0 +ℤ pos 100)
        (pos 100))
      (simulate_new_risk (pos 0) (pos 0) (pos 100) (pos 4) true (pos 100) (pos 6))
simulate_new_risk_sound_example =
    simulate_new_risk_sound whole_laws (pos 0) (pos 0) (pos 100) (pos 4) true (pos 100) (pos 6) refl
      refl refl
