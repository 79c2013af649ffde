-- ===== src/Exchange/Calls/Prices.antt =====
-- internal/exchange/polymarket/client.go, GetPrices: the call against an exchange that keeps to its API.
use Prim.Native.String.{◌++◌ as ◌<>◌}
use polymarket_go_bot.Prelude.{
  String, ◌≡◌, refl, ap, ◌∙◌, Bool, true, Option, none, some, List, All, str_eq, str_eq_iff,
  if◌then◌else◌, arith,
}
use polymarket_go_bot.Prelude.Fallible.{Fallible, ok}
use polymarket_go_bot.Decimal.{Decimal}
use polymarket_go_bot.Model.{Price}
use polymarket_go_bot.Exchange.{Response, Quote, get_prices}
use polymarket_go_bot.Exchange.Requests.{get_header, set_header}
use polymarket_go_bot.Exchange.Calls.{
  HttpRequest, PriceQuery, price_query, price_queries, new_request, prices_request, fetch_prices,
}

-- The text of a quote for a side of a query.
abbrev pub quoted_text : Quote → (side : String) → String
quoted_text q side = if str_eq side "BUY" then q.buy_text else q.sell_text

-- The quotes have an entry for the query, with this text.
abbrev pub IsQuoted :
    (String → Option Quote) → (book : String → String → String) → PriceQuery → Type 0
IsQuoted quotes book query =
    (q : Quote) × (quotes query.token_id ≡ some q)
    × (quoted_text q query.side ≡ book query.token_id query.side)

-- The exchange answers a JSON request for prices with the text of its book for each query; `book` gives
-- the text for a token and a side.
abbrev pub IsServed :
    (canonical : String → String) (send : HttpRequest → Fallible Response)
    (marshal : List PriceQuery → Fallible String)
    (decode : String → Fallible (String → Option Quote)) (clob_url : String)
    (book : String → String → String)
    → Type 0
IsServed canonical send marshal decode clob_url book =
    (queries : List PriceQuery) (req : HttpRequest)
    → marshal queries ≡ ok req.body
    → req.method ≡ "POST"
    → req.url ≡ clob_url <> "/prices"
    → get_header canonical "Content-Type" req.header ≡ some "application/json"
    → (resp : Response) × (send req ≡ ok resp)
      × (resp.status ≡ 200)
      × (quotes : String → Option Quote) × (decode resp.body ≡ ok quotes)
      × All (IsQuoted quotes book) queries

prices_request-IsJson :
    (parses : String → Bool) (canonical : String → String) (send : HttpRequest → Fallible Response)
    (marshal : List PriceQuery → Fallible String) (clob_url token_up token_down body : String)
    → parses (clob_url <> "/prices") ≡ true
    → marshal (price_queries token_up token_down) ≡ ok body
    → (req : HttpRequest) × (prices_request parses canonical send marshal clob_url token_up
          token_down
        ≡ ok req)
      × (req.method ≡ "POST")
      × (req.url ≡ clob_url <> "/prices")
      × (marshal (price_queries token_up token_down) ≡ ok req.body)
      × (get_header canonical "Content-Type" req.header ≡ some "application/json")
unfolding prices_request new_request get_header set_header
prices_request-IsJson parses canonical send marshal clob_url token_up token_down body url
      marshalled =
    let req : HttpRequest = record {
      method = "POST";
      url = clob_url <> "/prices";
      header =
          set_header canonical "Content-Type" "application/json"
            (set_header canonical "Accept" "application/json" (λ k. none));
      body = body;
    } in
    (
      req,
      rw (marshalled, url) refl,
      refl,
      refl,
      marshalled,
      ground (arith, str_eq_iff (canonical "Content-Type") (canonical "Content-Type")),
    )

module _ {D : Type 0} ⦃d : Decimal D⦄ where
  open d use {from_string}

  get_prices-IsQuoted :
      (resp : Response) (decode : String → Fallible (String → Option Quote))
      (quotes : String → Option Quote) (token_up token_down : String)
      (book : String → String → String) (price : Price D)
      → resp.status ≡ 200
      → decode resp.body ≡ ok quotes
      → IsQuoted quotes book (price_query token_up "BUY")
      → IsQuoted quotes book (price_query token_up "SELL")
      → IsQuoted quotes book (price_query token_down "BUY")
      → IsQuoted quotes book (price_query token_down "SELL")
      → from_string (book token_up "BUY") ≡ ok price.up_ask
      → from_string (book token_up "SELL") ≡ ok price.up_bid
      → from_string (book token_down "BUY") ≡ ok price.down_ask
      → from_string (book token_down "SELL") ≡ ok price.down_bid
      → get_prices (ok resp) decode token_up token_down ≡ ok price
  unfolding get_prices
  get_prices-IsQuoted resp decode quotes token_up token_down book price status decoded (q1, e1, t1)
        (q2, e2, t2) (q3, e3, t3) (q4, e4, t4) up_ask up_bid down_ask down_bid =
      let same_up : q1 ≡ q2 = ground arith in
      let same_down : q3 ≡ q4 = ground arith in
      let bid1 = ap from_string (ap (λ (q : Quote). q.sell_text) same_up ∙ t2) ∙ up_bid in
      let bid3 = ap from_string (ap (λ (q : Quote). q.sell_text) same_down ∙ t4) ∙ down_bid in
      rw (status, decoded, e1, t1, up_ask, bid1, e3, t3, down_ask, bid3) refl

module _ (parses : String → Bool) (canonical : String → String)
    (send : HttpRequest → Fallible Response) {D : Type 0} ⦃d : Decimal D⦄ where
  open d use {from_string}

  -- If the URL of the exchange parses and the queries can be written, the exchange answers each query
  -- of a JSON request with the text of its book, and the four texts are numbers: the call asks for all
  -- that it reads, and gives the BUY of each token in the book as its ask and the SELL as its bid.
  pub fetch_prices-book :
      (marshal : List PriceQuery → Fallible String)
      (decode : String → Fallible (String → Option Quote))
      (clob_url token_up token_down body : String) (book : String → String → String)
      (price : Price D)
      → parses (clob_url <> "/prices") ≡ true
      → marshal (price_queries token_up token_down) ≡ ok body
      → IsServed canonical send marshal decode clob_url book
      → from_string (book token_up "BUY") ≡ ok price.up_ask
      → from_string (book token_up "SELL") ≡ ok price.up_bid
      → from_string (book token_down "BUY") ≡ ok price.down_ask
      → from_string (book token_down "SELL") ≡ ok price.down_bid
      → fetch_prices parses canonical send marshal decode clob_url token_up token_down ≡ ok price
  unfolding fetch_prices price_queries
  fetch_prices-book marshal decode clob_url token_up token_down body book price url marshalled
        served up_ask up_bid down_ask down_bid =
      let (req, made, posted, to, sent, json) =
        prices_request-IsJson parses canonical send marshal clob_url token_up token_down body url
          marshalled in
      let (resp, done, status, quotes, decoded, quoted) =
        served (price_queries token_up token_down) req sent posted to json in
      rw (made, done)
        (get_prices-IsQuoted resp decode quotes token_up token_down book price status decoded
          quoted.0 quoted.1.0 quoted.1.1.0 quoted.1.1.1.0 up_ask up_bid down_ask down_bid)
