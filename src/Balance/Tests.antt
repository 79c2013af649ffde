-- ===== src/Balance/Tests.antt =====
-- The balance at concrete answers.
use polymarket_go_bot.Prelude.{◌≡◌, refl, [], ◌∷◌}
use polymarket_go_bot.Prelude.Int.{pos}
use polymarket_go_bot.Prelude.Fallible.{ok, fails}
use polymarket_go_bot.Decimal.Whole.{whole, whole_laws}
use polymarket_go_bot.Balance.{Node, tick, increase, decrease, update_worker, usdc_divisor}
use polymarket_go_bot.Balance.Refresh.{update_worker-tick}

abbrev five : Node
five = record { call_contract = ok ""; unpack = λ s. ok 5_000_000 }

abbrev down : Node
down = record { call_contract = fails; unpack = λ s. fails }

update_worker-tick_example :
    update_worker (increase (pos 3) ∷ tick down ∷ tick five ∷ decrease (pos 2) ∷ []) (pos 1)
    ≡ update_worker (decrease (pos 2) ∷ []) (whole.div (pos 5_000_000) usdc_divisor)
update_worker-tick_example =
    update_worker-tick whole_laws (increase (pos 3) ∷ tick down ∷ []) (decrease (pos 2) ∷ []) five
      5_000_000 (pos 1) refl
