-- ===== src/Exchange/Calls/Tests.antt =====
-- GetPrices against a concrete exchange.
use polymarket_go_bot.Prelude.{
  String, ◌≡◌, refl, true, Option, some, List, [], ◌∷◌, All, str_eq, if◌then◌else◌,
}
use polymarket_go_bot.Prelude.Int.{ℤ, pos}
use polymarket_go_bot.Prelude.Fallible.{Fallible, ok}
use polymarket_go_bot.Decimal.Whole.{whole}
use polymarket_go_bot.Model.{Price}
use polymarket_go_bot.Exchange.{Response, Quote}
use polymarket_go_bot.Exchange.Calls.{HttpRequest, PriceQuery, fetch_prices, trim_right_slash}
use polymarket_go_bot.Exchange.Calls.Prices.{quoted_text, IsQuoted, IsServed, fetch_prices-book}

abbrev quote_of : String → Quote
quote_of token =
    if str_eq token "u"
    then record { buy_text = "1111111"; sell_text = "11111" }
    else record { buy_text = "111"; sell_text = "11" }

abbrev quotes : String → Option Quote
quotes token = some (quote_of token)

abbrev book : String → String → String
book token side = quoted_text (quote_of token) side

abbrev canonical : String → String
canonical k = k

abbrev send : HttpRequest → Fallible Response
send req = ok (record { status = 200; body = "quotes" })

abbrev marshal : List PriceQuery → Fallible String
marshal queries = ok "queries"

abbrev decode : String → Fallible (String → Option Quote)
decode body = ok quotes

all_quoted : (queries : List PriceQuery) → All (IsQuoted quotes book) queries
all_quoted [] = tt
all_quoted (q ∷ queries) = ((quote_of q.token_id, refl, refl), all_quoted queries)

served : IsServed canonical send marshal decode "https://clob" book
served queries req sent posted to json =
    (record { status = 200; body = "quotes" }, refl, refl, quotes, refl, all_quoted queries)

abbrev price : Price ℤ
price = record { up_ask = pos 7; up_bid = pos 5; down_ask = pos 3; down_bid = pos 2 }

fetch_prices-book_example :
    fetch_prices (λ url. true) canonical send marshal decode "https://clob" "u" "d" ≡ ok price
fetch_prices-book_example =
    fetch_prices-book (λ url. true) canonical send marshal decode "https://clob" "u" "d" "queries"
      book price refl refl served refl refl refl refl

trim_right_slash_run : trim_right_slash "https://clob//" ≡ "https://clob"
unfolding trim_right_slash
trim_right_slash_run = refl
