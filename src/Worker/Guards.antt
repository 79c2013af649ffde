-- ===== src/Worker/Guards.antt =====
-- internal/engine/worker.go: the guards of a decision that ends in an order.
use polymarket_go_bot.Prelude.{
  ℕ, ◌≡◌, refl, Bool, true, false, not, Option, none, some, arith, if◌then◌else◌,
}
use polymarket_go_bot.Prelude.Int.{sub_ℕ}
use polymarket_go_bot.Prelude.Go.{Go, returns, panics, out_of_fuel, ◌>>=◌}
use polymarket_go_bot.Decimal.{Decimal, dec_zero}
use polymarket_go_bot.Model.{Order}
use polymarket_go_bot.Strategy.{eps_tte}
use polymarket_go_bot.Worker.{
  MarketWorker, Readings, milliseconds, since, is_greater, is_less, evaluate, signal, decide,
  size_order, process_new_market_state,
}

module _ {D : Type 0} ⦃d : Decimal D⦄ where
  open d use {from_int, sub, abs, cmp}

  -- The risk is within the limit, the signal is above the threshold of this time, and the pause since
  -- the last decision is over.
  abbrev pub IsSignalled : Readings → MarketWorker D → Type 0
  IsSignalled now w =
      (is_less (cmp (sub w.risk_limit w.risk_val) dec_zero) ≡ false)
      × ((eps : D) × (eps_tte w.tte w.market_time_ms w.eps_min w.eps_max ≡ returns eps)
          × (is_greater (cmp (abs (signal w)) eps) ≡ true))
      × (is_greater (
            cmp (from_int (milliseconds (since now.at_debounce w.last_decision)))
              w.decision_debounce_ms)
          ≡ true)

  decide-IsSignalled :
      (fuel : ℕ) (now : Readings) (w w' : MarketWorker D) (o : Order)
      → decide fuel now w ≡ returns (w', some o)
      → IsSignalled now w
  unfolding decide
  decide-IsSignalled fuel now w w' o h =
      go (is_less (cmp (sub w.risk_limit w.risk_val) dec_zero)) refl
        (eps_tte w.tte w.market_time_ms w.eps_min w.eps_max) refl h
    where
      late : Bool
      late = is_greater (
          cmp (from_int (milliseconds (since now.at_debounce w.last_decision)))
            w.decision_debounce_ms)

      guarded : D → Go (MarketWorker D × Option Order)
      guarded eps =
          if not (is_greater (cmp (abs (signal w)) eps))
          then returns (w, none)
          else if not late
          then returns (w, none)
          else size_order fuel now w

      signalled :
          (eps : D) (b c : Bool)
          → is_greater (cmp (abs (signal w)) eps) ≡ b
          → late ≡ c
          → (if not b
              then returns (w, none)
              else if not c
              then returns (w, none)
              else size_order fuel now w)
            ≡ returns (w', some o)
          → (b ≡ true) × (c ≡ true)
      signalled eps true true e f k = (refl, refl)
      signalled eps true false e f k = absurd (ground arith)
      signalled eps false c e f k = absurd (ground arith)

      go :
          (b : Bool)
          → is_less (cmp (sub w.risk_limit w.risk_val) dec_zero) ≡ b
          → (m : Go D) → eps_tte w.tte w.market_time_ms w.eps_min w.eps_max ≡ m
          → (if b then returns (w, none) else (m >>= guarded)) ≡ returns (w', some o)
          → IsSignalled now w
      go true e m f k = absurd (ground arith)
      go false e panics f k = absurd (ground arith)
      go false e out_of_fuel f k = absurd (ground arith)
      go false e (returns eps) f k =
          let (strong, over) = signalled eps _ _ refl refl k in (e, (eps, f, strong), over)

  -- A decision ends in an order only if the stop time has not come, and, for the worker as it is
  -- evaluated, the risk is within the limit, the signal is above the threshold of this time, and the
  -- pause since the last decision is over.
  pub process_new_market_state-IsSignalled :
      (fuel : ℕ) (now : Readings) (w w' : MarketWorker D) (o : Order)
      → process_new_market_state fuel now w ≡ returns (w', some o)
      → let w1 = record w { tte = from_int (milliseconds (sub_ℕ w.market.end_time now.at_tte)) } in
        (is_greater (cmp w1.stop_trade_tte_ms w1.tte) ≡ false)
        × ((w2 : MarketWorker D) × (evaluate w1 ≡ returns w2) × IsSignalled now w2)
  unfolding process_new_market_state
  process_new_market_state-IsSignalled fuel now w w' o h =
      go (is_greater (cmp w.stop_trade_tte_ms w1.tte)) refl (evaluate w1) refl h
    where
      w1 : MarketWorker D
      w1 = record w { tte = from_int (milliseconds (sub_ℕ w.market.end_time now.at_tte)) }

      go :
          (b : Bool)
          → is_greater (cmp w.stop_trade_tte_ms w1.tte) ≡ b
          → (m : Go (MarketWorker D)) → evaluate w1 ≡ m
          → (if b then returns (w1, none) else (m >>= decide fuel now)) ≡ returns (w', some o)
          → (is_greater (cmp w1.stop_trade_tte_ms w1.tte) ≡ false)
            × ((w2 : MarketWorker D) × (evaluate w1 ≡ returns w2) × IsSignalled now w2)
      go true e m f k = absurd (ground arith)
      go false e panics f k = absurd (ground arith)
      go false e out_of_fuel f k = absurd (ground arith)
      go false e (returns w2) f k = (e, (w2, f, decide-IsSignalled fuel now w2 w' o k))
