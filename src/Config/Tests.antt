-- ===== src/Config/Tests.antt =====
-- A configuration that loads.
use polymarket_go_bot.Prelude.{◌≡◌, refl, false, [], ◌∷◌}
use polymarket_go_bot.Prelude.Int.{ℤ, pos}
use polymarket_go_bot.Prelude.Fallible.{ok}
use polymarket_go_bot.Decimal.Whole.{whole, whole_laws}
use polymarket_go_bot.Config.{Config, load, validate, build_allowed_underlyings, get_db_conn_url}
use polymarket_go_bot.Config.Laws.{IsLoaded, load-IsLoaded}

abbrev raw : Config ℤ
raw = record {
  polymarket = record {
    clob_url = "https://clob.polymarket.com";
    gamma_url = "https://gamma-api.polymarket.com";
    usdce_address = "";
    proxy_wallet_address = "";
    condition_token_address = "";
    ctf_exchange_address = "";
  };
  blockchain = record { polygon_rpc = "https://rpc.ankr.com/polygon"; private_key = "" };
  market = record {
    allowed_underlying = "BTC" ∷ "ETH" ∷ [];
    update_interval = pos 900_000_000_000;
    poll_interval = pos 500_000_000;
    min_time_to_expiry = pos 840_000_000_000;
    mock_orders = false;
  };
  strategy = record {
    risk_limit = pos 15;
    min_size = pos 10;
    max_step = pos 10;
    eps_min = pos 0;
    eps_max = pos 0;
    tau_min = pos 0;
    tau_max = pos 1;
    k_min = pos 0;
    k_max = pos 1;
    alpha = pos 2;
    e_max = pos 1;
    debounce = pos 500;
    stop_tte = pos 0;
  };
  database = record {
    user = "u";
    password = "p";
    host = "localhost";
    port = "5432";
    dbname = "polybot";
  };
  telegram = record { bot_token = ""; chat_id = pos 0; enabled = false };
  allowed_underlyings = [];
}

abbrev pub loaded : Config ℤ
loaded =
    build_allowed_underlyings
      (record raw { blockchain = record raw.blockchain { private_key = "k" } })

load_run : load (λ path. ok "text") (λ text. ok raw) "k" "config.yaml" ≡ ok loaded
unfolding load validate
load_run = refl

conn_url_run : get_db_conn_url raw ≡ "postgres://u:p@localhost:5432/polybot?sslmode=disable"
unfolding get_db_conn_url
conn_url_run = refl

load-IsLoaded_example : IsLoaded loaded
load-IsLoaded_example =
    load-IsLoaded whole_laws (λ path. ok "text") (λ text. ok raw) "k" "config.yaml" load_run
