-- ===== src/Engine/Tests.antt =====
-- The engine at concrete markets and tables.
use polymarket_go_bot.Prelude.{ℕ, String, ◌≡◌, refl, false, List, [], ◌∷◌, arith, ◌↔◌, ◌⊎◌}
use polymarket_go_bot.Prelude.Int.{ℤ, pos}
use polymarket_go_bot.Prelude.Fallible.{Fallible, ok}
use polymarket_go_bot.Decimal.Whole.{whole}
use polymarket_go_bot.Model.{Market, active, redeemed}
use polymarket_go_bot.Config.{has_key, build_allowed_underlyings}
use polymarket_go_bot.Config.Tests.{loaded as config}
use polymarket_go_bot.Storage.Postgres.{
  postgres, find_market, insert_market, get_planned_and_active_markets, get_resolved_markets,
  update_market_status,
}
use polymarket_go_bot.Storage.Postgres.Tests.{market_of, conn, db}
use polymarket_go_bot.Engine.{
  Handle, has_worker, filter_markets, process_markets, redeem_round, redeem_all,
}
use polymarket_go_bot.Engine.Filter.{IsIn, IsOffered, filter_markets-IsOffered}
use polymarket_go_bot.Engine.Round.{IsSingle, IsRound, process_markets-IsRound}
use polymarket_go_bot.Engine.Registry.{AreStored}
use polymarket_go_bot.Engine.Redeem.{IsPaid, status_in, redeem_round-IsEarned}

abbrev clock : ℕ → ℕ
clock i = 100

abbrev answer : List Market
answer = market_of "3" "c" active ∷ []

abbrev one_worker : List Handle
one_worker = record { market_id = "1"; cancelled = false } ∷ []

filter_markets-IsOffered_example :
    IsIn (market_of "3" "c" active) (filter_markets config clock answer)
    ↔ IsOffered config clock 0 answer (market_of "3" "c" active)
filter_markets-IsOffered_example =
    filter_markets-IsOffered config clock answer (market_of "3" "c" active)

process_markets-IsRound_example :
    let after =
      (process_markets ⦃storage = postgres conn⦄ config clock (ok answer) (db, one_worker)).1 in
    IsSingle after × IsRound ⦃storage = postgres conn⦄ config clock (ok answer) db one_worker after
unfolding has_worker
process_markets-IsRound_example =
    process_markets-IsRound ⦃storage = postgres conn⦄ config clock (ok answer) db one_worker
      (refl, tt)

-- The round over the tables starts the new market and no other.
process_markets_run :
    (process_markets ⦃storage = postgres conn⦄ config clock (ok answer) (db, one_worker)).1
    ≡ record { market_id = "1"; cancelled = false }
      ∷ record { market_id = "3"; cancelled = false }
      ∷ []
unfolding process_markets get_planned_and_active_markets insert_market build_allowed_underlyings
process_markets_run = refl

one_worker-AreStored : AreStored (has_worker one_worker) db
unfolding has_worker has_key
one_worker-AreStored j h = ground arith

abbrev redeem : String → Fallible ℤ
redeem condition_id = ok (pos 1)

abbrev late : ℕ → ℕ
late i = 2_000_000_000_000

redeem_round-IsEarned_example :
    let after = redeem_round ⦃storage = postgres conn⦄ late redeem db in
    (status_in "2" after ≡ status_in "2" db)
    ⊎ ((status_in "2" after ≡ ok redeemed)
        × ((ms : List Market) × (get_resolved_markets conn db ≡ ok ms)
            × IsPaid late redeem 0 ms "2"))
redeem_round-IsEarned_example = redeem_round-IsEarned conn late redeem db "2"

-- The round redeems the market whose window is open.
redeem_round_run :
    status_in "2" (redeem_round ⦃storage = postgres conn⦄ late redeem db) ≡ ok redeemed
unfolding redeem_round update_market_status get_resolved_markets find_market redeem_all
redeem_round_run = refl
