-- ===== src/Exchange/Tests.antt =====
-- The exchange at concrete answers, over whole numbers, which a text gives by its length.
use polymarket_go_bot.Prelude.{
  ℕ, String, ◌≡◌, refl, true, false, not, Option, none, some, [], str_eq,
}
use polymarket_go_bot.Prelude.Int.{ℤ, pos}
use polymarket_go_bot.Prelude.Fallible.{ok, fails}
use polymarket_go_bot.Decimal.Whole.{whole, whole_text}
use polymarket_go_bot.Model.{Order, Price, up, buy}
use polymarket_go_bot.Storage.Postgres.{Db, Conn, insert_order}
use polymarket_go_bot.Exchange.{Response, Quote, get_prices, get_or_derive_l2_creds}
use polymarket_go_bot.Exchange.Answers.{IsQuote, get_prices-IsQuote}
use polymarket_go_bot.Exchange.Signing.Tests.{eth}
use polymarket_go_bot.Exchange.Orders.{Client, Platform, place_order}
use polymarket_go_bot.Exchange.Orders.Placed.{IsPlaced, place_order-IsPlaced}
use polymarket_go_bot.Exchange.Orders.Lost.{place_order-insert_order}

abbrev quote : Quote
quote = record { buy_text = "1111111"; sell_text = "11111" }

abbrev quotes : String → Option Quote
quotes token = some quote

abbrev response : Response
response = record { status = 200; body = "" }

abbrev price_5 : Price ℤ
price_5 = record { up_ask = pos 7; up_bid = pos 5; down_ask = pos 7; down_bid = pos 5 }

get_prices_run : get_prices (ok response) (λ body. ok quotes) "u" "d" ≡ ok price_5
unfolding get_prices
get_prices_run = refl

get_prices-IsQuote_example :
    (response.status ≡ 200)
    × IsQuote quotes "u" (pos 7) (pos 5)
    × IsQuote quotes "d" (pos 7) (pos 5)
get_prices-IsQuote_example = get_prices-IsQuote response quotes "u" "d" price_5 get_prices_run

abbrev pub client : Client
client = record {
  mock_orders = false;
  owner_address = "0x01";
  proxy_wallet_address = "0x02";
  ctf_exchange_address = "0x03";
  l2_creds = none;
}

abbrev pub platform : Platform String ℕ
platform = record {
  uuid = "uuid";
  public_address = "0x01";
  hex_to_address = λ s. s;
  random_salt = "1";
  show = whole_text;
  derived = fails;
  created = ok (record { api_key = "k"; secret = "s"; passphrase = "p" });
  ethereum = eth;
  priv_key = 3;
  marshal = λ request. ok "body";
  new_request = λ body. ok tt;
  raw_url_encoding = λ s. fails;
  url_encoding = λ s. ok s;
  hmac = λ secret text. "hmac";
  timestamp = "0";
  request_path = "/order";
  post = λ headers request. ok response;
  decode = λ body. ok (record { success = true; error_msg = ""; order_id = "o" });
}

abbrev placed : Order
placed = record {
  id = "o";
  status = "";
  error = false;
  error_msg = "";
  condition_id = "";
  original_size = "1111111";
  matched_size = "";
  price = "11111";
  token_id = "u";
  outcome = some up;
  trade_side = some buy;
  associate_trades = "";
}

place_order_run : (place_order ℤ client platform "u" up "11111" "1111111").result ≡ ok placed
unfolding place_order get_or_derive_l2_creds
place_order_run = refl

place_order-IsPlaced_example :
    IsPlaced ℤ client platform "u" "11111" "1111111" up
      (place_order ℤ client platform "u" up "11111" "1111111")
place_order-IsPlaced_example = place_order-IsPlaced ℤ client platform "u" "11111" "1111111" up refl

abbrev conn : Conn
conn = record {
  query = true;
  begin = true;
  commit = true;
  is_numeric = λ s. not (str_eq s "");
  is_json = λ s. true;
}

abbrev db : Db
db = record { markets = []; orders = []; stats = [] }

place_order-insert_order_example :
    insert_order conn (record placed { condition_id = "c" }) db ≡ (db, fails)
place_order-insert_order_example =
    place_order-insert_order ℤ client platform "u" "11111" "1111111" up conn "c" placed db
      place_order_run refl
