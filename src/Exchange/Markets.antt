-- ===== src/Exchange/Markets.antt =====
-- internal/exchange/polymarket/client.go: GetMarkets and GetOrder, from the answer on. A list of texts
-- comes as one text, `["a", "b"]`, in bytes; `string` makes a text of bytes, and `trim_space` is
-- strings.TrimSpace, `lower` strings.ToLower, `equal_fold` strings.EqualFold.
pub mod Written
pub mod Tests
use polymarket_go_bot.Prelude.{
  ℕ, String, Bool, true, false, not, ◌&&◌, ◌||◌, Option, none, some, List, [], ◌∷◌, ◌++◌, ◌==◌,
  if◌then◌else◌,
}
use polymarket_go_bot.Prelude.Fallible.{Fallible, ok, fails, ◌>>=◌}
use polymarket_go_bot.Prelude.Bytes.{Bytes}
use polymarket_go_bot.Model.{Market, Order, UnderlyingType, btc, eth, sol, xrp, planned, buy, sell}
use polymarket_go_bot.Chain.{contains}
use polymarket_go_bot.Exchange.{L2Auth, Response, Headers}

-- strings.Trim, by the bytes to cut.
abbrev pub trim_left : (ℕ → Bool) → Bytes → Bytes
trim_left cut [] = []
trim_left cut (x ∷ xs) = let rest = trim_left cut xs in if cut x then rest else x ∷ xs

abbrev pub cut_last : (ℕ → Bool) → ℕ → Bytes → Bytes
cut_last cut x [] = if cut x then [] else x ∷ []
cut_last cut x (y ∷ ys) = x ∷ y ∷ ys

unfoldable pub trim_right : (ℕ → Bool) → Bytes → Bytes
trim_right cut [] = []
trim_right cut (x ∷ xs) = cut_last cut x (trim_right cut xs)

unfoldable pub trim : (ℕ → Bool) → Bytes → Bytes
unfolding trim_right
trim cut s = trim_right cut (trim_left cut s)

abbrev pub is_bracket : ℕ → Bool
is_bracket x = (x == b'[') || (x == b']')

-- strings.ReplaceAll of the quote by nothing.
unfoldable pub remove_quotes : Bytes → Bytes
remove_quotes [] = []
remove_quotes (x ∷ xs) = let rest = remove_quotes xs in if x == b'"' then rest else x ∷ rest

abbrev pub prepend : ℕ → List Bytes → List Bytes
prepend x [] = (x ∷ []) ∷ []
prepend x (piece ∷ pieces) = (x ∷ piece) ∷ pieces

-- strings.Split at ", ": `comma` tells that the byte before was a comma, which is not yet in a piece.
abbrev pub split_byte : (comma : Bool) → ℕ → List Bytes → List Bytes
split_byte false x rest = if x == b',' then rest else prepend x rest
split_byte true x rest =
    if x == b' ' then [] ∷ rest else prepend b',' (if x == b',' then rest else prepend x rest)

unfoldable pub split_from : (comma : Bool) → Bytes → List Bytes
split_from false [] = [] ∷ []
split_from true [] = (b',' ∷ []) ∷ []
split_from comma (x ∷ xs) = split_byte comma x (split_from (x == b',') xs)

-- The three steps that the source takes on both lists.
unfoldable pub read_list : Bytes → List Bytes
unfolding trim remove_quotes split_from
read_list s = split_from false (remove_quotes (trim is_bracket s))

-- An entry of the answer of /events; a time is its nanoseconds.
pub record EventMarket : Type 0 where
  pub id : String
  pub question : String
  pub condition_id : String
  pub slug : String
  pub end_date : ℕ
  pub outcomes : Bytes
  pub clob_token_ids : Bytes
  pub event_start_time : ℕ

pub record MarketEvent : Type 0 where
  pub id : String
  pub markets : List EventMarket

unfoldable pub extract_underlying : (lower : String → String) → String → UnderlyingType
extract_underlying lower slug =
    let slug_lower = lower slug in
    if contains slug_lower "btc" || contains slug_lower "bitcoin"
    then btc
    else if contains slug_lower "eth" || contains slug_lower "ethereum"
    then eth
    else if contains slug_lower "sol" || contains slug_lower "solana"
    then sol
    else if contains slug_lower "xrp" || contains slug_lower "ripple"
    then xrp
    else btc

module _ (string : Bytes → String) (trim_space : Bytes → Bytes) (lower : String → String) where
  -- What the two lists make of a market: `none` for `continue`.
  abbrev pub listed_market :
      (event_id : String) → EventMarket → (outcomes token_ids : List Bytes) → Option Market
  listed_market event_id m (o1 ∷ o2 ∷ []) (up ∷ down ∷ []) = some (record {
    id = m.id;
    event_id = event_id;
    question = m.question;
    condition_id = m.condition_id;
    slug = m.slug;
    start_time = m.event_start_time;
    end_time = m.end_date;
    token_up = string (trim_space up);
    token_down = string (trim_space down);
    status = planned;
    underlying = extract_underlying lower m.slug;
  })
  listed_market event_id m outcomes token_ids = none

  -- The body of the inner loop.
  unfoldable pub read_market : (event_id : String) → EventMarket → Option Market
  unfolding read_list
  read_market event_id m =
      listed_market event_id m (read_list m.outcomes) (read_list m.clob_token_ids)

  abbrev pub appended : Option Market → List Market → List Market
  appended none res = res
  appended (some m) res = res ++ m ∷ []

  unfoldable pub read_markets : (event_id : String) → List EventMarket → List Market → List Market
  unfolding read_market
  read_markets event_id [] res = res
  read_markets event_id (m ∷ ms) res =
      read_markets event_id ms (appended (read_market event_id m) res)

  unfoldable pub read_events : List MarketEvent → List Market → List Market
  unfolding read_markets
  read_events [] res = res
  read_events (e ∷ es) res = read_events es (read_markets e.id e.markets res)

  unfoldable pub get_markets :
      (answer : Fallible Response) (decode : String → Fallible (List MarketEvent))
      → Fallible (List Market)
  unfolding read_events
  get_markets answer decode = answer >>= λ resp.
      (if not (resp.status == 200)
        then fails
        else decode resp.body >>= λ events. ok (read_events events []))

-- The fields of OpenOrder that GetOrder reads.
pub record OpenOrder : Type 0 where
  pub id : String
  pub status : String
  pub market : String
  pub original_size : String
  pub price : String
  pub side : String
  pub size_matched : String
  pub asset_id : String

-- `headers` are those of BuildL2Headers on the credentials, or an error of either.
unfoldable pub get_order :
    (equal_fold : String → String → Bool) (headers : Fallible Headers)
    (answer : Headers → Fallible Response) (decode : String → Fallible OpenOrder)
    → Fallible Order
get_order equal_fold headers answer decode = headers >>= λ hs. answer hs >>= λ resp.
    (if not (resp.status == 200)
      then fails
      else decode resp.body >>= λ open_order. ok (record {
        id = open_order.id;
        status = open_order.status;
        error = false;
        error_msg = "";
        condition_id = open_order.market;
        original_size = open_order.original_size;
        matched_size = open_order.size_matched;
        price = open_order.price;
        token_id = open_order.asset_id;
        outcome = none;
        trade_side = some (if equal_fold open_order.side "BUY" then buy else sell);
        associate_trades = "";
      }))
