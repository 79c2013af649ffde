-- ===== src/Exchange/Calls.antt =====
-- internal/exchange/polymarket/client.go: the requests that GetPrices, GetMarkets and GetOrder send, and
-- the calls as a whole. HTTP, JSON and URLs are parameters.
pub mod Prices
pub mod Tests
use Prim.Native.String
use Prim.Native.String.{◌++◌ as ◌<>◌}
use Prim.Native.Char.{code}
use polymarket_go_bot.Prelude.{
  ℕ, String, Bool, true, false, Option, none, some, List, [], ◌∷◌, ◌==◌, if◌then◌else◌, str_eq,
}
use polymarket_go_bot.Prelude.Fallible.{Fallible, ok, fails, ◌>>=◌}
use polymarket_go_bot.Prelude.Bytes.{Bytes}
use polymarket_go_bot.Decimal.{Decimal}
use polymarket_go_bot.Model.{Market, Order, Price}
use polymarket_go_bot.Exchange.{
  L2Auth, Response, Quote, get_or_derive_l2_creds, build_l2_headers, get_prices,
}
use polymarket_go_bot.Exchange.Markets.{MarketEvent, get_markets, OpenOrder, get_order}
use polymarket_go_bot.Exchange.Requests.{Header, HeaderMap, l2_map, set_header, set_headers}

pub record HttpRequest : Type 0 where
  pub method : String
  pub url : String
  pub header : Header
  pub body : String

-- One entry of the body of /prices.
pub record PriceQuery : Type 0 where
  pub token_id : String
  pub side : String

abbrev pub price_query : String → String → PriceQuery
price_query token_id side = record { token_id = token_id; side = side }

unfoldable pub price_queries : (token_up token_down : String) → List PriceQuery
price_queries token_up token_down =
    price_query token_up "BUY"
    ∷ price_query token_up "SELL"
    ∷ price_query token_down "BUY"
    ∷ price_query token_down "SELL"
    ∷ []

-- strings.TrimRight by the slash.
unfoldable pub trim_right_slash : String → String
trim_right_slash String.[] = String.[]
trim_right_slash (String.◌∷◌ c s) =
    let rest = trim_right_slash s in
    if str_eq rest "" then (if code c == b'/' then "" else String.◌∷◌ c "") else String.◌∷◌ c rest

-- `parses` tells whether a URL does, `canonical` is CanonicalHeaderKey, and `send` does a request.
module _ (parses : String → Bool) (canonical : String → String)
    (send : HttpRequest → Fallible Response) where
  -- http.NewRequestWithContext
  unfoldable pub new_request : (method url body : String) → Fallible HttpRequest
  new_request method url body =
      if parses url
      then ok (record { method = method; url = url; header = λ k. none; body = body })
      else fails

  unfoldable pub prices_request :
      (marshal : List PriceQuery → Fallible String) (clob_url token_up token_down : String)
      → Fallible HttpRequest
  unfolding new_request price_queries set_header
  prices_request marshal clob_url token_up token_down =
      marshal (price_queries token_up token_down) >>= λ body.
      new_request "POST" (clob_url <> "/prices") body >>= λ req. ok (record req {
        header =
            set_header canonical "Content-Type" "application/json"
              (set_header canonical "Accept" "application/json" req.header);
      })

  -- GetPrices
  unfoldable pub fetch_prices :
      {D : Type 0} ⦃d : Decimal D⦄ (marshal : List PriceQuery → Fallible String)
      (decode : String → Fallible (String → Option Quote)) (clob_url token_up token_down : String)
      → Fallible (Price D)
  unfolding prices_request get_prices
  fetch_prices marshal decode clob_url token_up token_down =
      get_prices (prices_request marshal clob_url token_up token_down >>= send) decode token_up
        token_down

  unfoldable pub markets_request : (gamma_url : String) → Fallible HttpRequest
  unfolding new_request set_header
  markets_request gamma_url =
      new_request "GET"
        (gamma_url
          <> "/events?active=true&archived=false&tag_id=102467&order=startDate&limit=36&closed=false&offset=0")
        ""
      >>= λ req.
          ok (record req { header = set_header canonical "Accept" "application/json" req.header })

  -- GetMarkets
  unfoldable pub fetch_markets :
      (string : Bytes → String) (trim_space : Bytes → Bytes) (lower : String → String)
      (decode : String → Fallible (List MarketEvent)) (gamma_url : String)
      → Fallible (List Market)
  unfolding markets_request get_markets
  fetch_markets string trim_space lower decode gamma_url =
      get_markets string trim_space lower (markets_request gamma_url >>= send) decode

  abbrev pub order_url : (clob_url order_hash : String) → String
  order_url clob_url order_hash = trim_right_slash clob_url <> "/data/order/" <> order_hash

  -- GetOrder, with the credentials that the client keeps. `request_uri` is the path that is signed,
  -- `pick` the order of `range`, and the others are those of the calls that it makes.
  unfoldable pub fetch_order :
      {B : Type 0} (raw padded : String → Fallible B) (hmac : B → String → String)
      (request_uri : String → String) (pick : HeaderMap → HeaderMap)
      (equal_fold : String → String → Bool) (decode : String → Fallible OpenOrder)
      (derived created : Fallible L2Auth) (timestamp clob_url owner_address order_hash : String)
      → Option L2Auth
      → Fallible Order × Option L2Auth
  unfolding new_request trim_right_slash build_l2_headers set_headers get_order
      get_or_derive_l2_creds
  fetch_order raw padded hmac request_uri pick equal_fold decode derived created timestamp clob_url
        owner_address order_hash kept =
      let url = order_url clob_url order_hash in
      elim (new_request "GET" url "") [
        | fails ↦ (fails, kept)
        | ok req ↦
            (let (creds, kept') = get_or_derive_l2_creds derived created kept in
              let headers = creds >>= λ l2.
              build_l2_headers raw padded hmac l2 owner_address timestamp req.method
                (request_uri req.url) "" in
              (
                get_order equal_fold headers
                    (λ hs.
                      send (record req {
                        header = set_headers canonical (pick (l2_map hs)) req.header;
                      }))
                    decode,
                kept',
              ))
      ]
