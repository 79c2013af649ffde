-- ===== src/Storage/Postgres/Tests.antt =====
-- The tables at concrete rows.
use polymarket_go_bot.Prelude.{refl, String, refl, true, [], ◌∷◌}
use polymarket_go_bot.Model.{Market, MarketStatus, btc, planned, active, resolved}
use polymarket_go_bot.Storage.Postgres.{Db, Conn}

abbrev pub market_of : String → String → MarketStatus → Market
market_of id condition_id status = record {
  id = id;
  event_id = "";
  question = "";
  condition_id = condition_id;
  slug = "";
  start_time = 0;
  end_time = 900_000_000_000;
  token_up = "u";
  token_down = "d";
  status = status;
  underlying = btc;
}

abbrev pub conn : Conn
conn = record {
  query = true;
  begin = true;
  commit = true;
  is_numeric = λ s. true;
  is_json = λ s. true;
}

abbrev pub db : Db
db = record {
  markets = market_of "1" "a" active ∷ market_of "2" "b" resolved ∷ [];
  orders = [];
  stats = [];
}

abbrev third : Market
third = market_of "3" "c" planned
