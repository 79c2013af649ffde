-- ===== src/Startup/Tests.antt =====
-- The start of the process at concrete answers.
use polymarket_go_bot.Prelude.{ℕ, ◌≡◌, ◌≢◌, refl, true, some, [], inl}
use polymarket_go_bot.Prelude.Int.{ℤ}
use polymarket_go_bot.Prelude.Fallible.{ok, fails}
use polymarket_go_bot.Decimal.Whole.{whole}
use polymarket_go_bot.Model.{up}
use polymarket_go_bot.Config.{Config, build_allowed_underlyings}
use polymarket_go_bot.Config.Tests.{loaded as config}
use polymarket_go_bot.Exchange.{L2Auth, get_or_derive_l2_creds}
use polymarket_go_bot.Exchange.Orders.{Client, place_order}
use polymarket_go_bot.Exchange.Tests.{platform}
use polymarket_go_bot.Startup.{Boot, options_of, client_of, new_client, new_postgres, run_main}
use polymarket_go_bot.Startup.Mock.{mock_orders-place_order}
use polymarket_go_bot.Startup.Ordered.{shutdown_of, run_main-Starts}

abbrev creds : L2Auth
creds = record { api_key = "k"; secret = "s"; passphrase = "p" }

abbrev boot : Config ℤ → Boot ℤ ℕ
boot cfg = record {
  load = ok cfg;
  open_ = ok tt;
  ping = ok tt;
  set_dialect = ok tt;
  up = ok tt;
  dial = ok tt;
  hex_to_ecdsa = λ s. ok 3;
  address_of = λ k. "0x01";
  derived = ok creds;
  created = fails;
}

abbrev mock_config : Config ℤ
mock_config = record config { market = record config.market { mock_orders = true } }

abbrev mock_client : Client
mock_client = record (client_of (boot mock_config) mock_config 3) {
  mock_orders = true;
  l2_creds = some creds;
}

abbrev real_client : Client
real_client = record (client_of (boot config) config 3) { l2_creds = some creds }

mock_orders-place_order_example :
    let after = place_order ℤ mock_client platform "u" up "11111" "1111111" in
    (after.requests ≡ []) × (after.client ≡ mock_client) × (after.result ≢ fails)
unfolding new_client get_or_derive_l2_creds
mock_orders-place_order_example =
    mock_orders-place_order (boot mock_config) mock_config mock_client platform "u" "11111"
      "1111111" up refl refl

run_main-Starts_example :
    (cfg : Config ℤ) × (ok config ≡ ok cfg)
    × (new_postgres (ok tt) (ok tt) (ok tt) (ok tt) ≡ ok tt)
    × (new_client (boot config) cfg (options_of cfg) ≡ ok real_client)
    × (run_main (boot config) ≡ shutdown_of cfg real_client)
unfolding run_main build_allowed_underlyings get_or_derive_l2_creds
run_main-Starts_example = run_main-Starts (boot config) real_client (inl refl)
