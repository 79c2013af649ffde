-- ===== src/Exchange/Markets/Tests.antt =====
-- Markets at concrete lists.
use polymarket_go_bot.Prelude.{String, ◌≡◌, refl, [], ◌∷◌, All}
use polymarket_go_bot.Prelude.Fallible.{ok}
use polymarket_go_bot.Prelude.Bytes.{Bytes, ascii}
use polymarket_go_bot.Model.{planned, eth}
use polymarket_go_bot.Exchange.Markets.{
  EventMarket, read_market, read_list, extract_underlying, get_markets,
}
use polymarket_go_bot.Exchange.Markets.Written.{IsListed, IsPlain, read_market-write_list}

abbrev string : Bytes → String
string bs = "token"

abbrev market : EventMarket
market = record {
  id = "1";
  question = "";
  condition_id = "c";
  slug = "eth-up-or-down";
  end_date = 900;
  outcomes = ascii "[\"Up\", \"Down\"]";
  clob_token_ids = ascii "[\"11\", \"22\"]";
  event_start_time = 0;
}

read_list_run : read_list (ascii "[\"11\", \"22\"]") ≡ ascii "11" ∷ ascii "22" ∷ []
unfolding read_list
read_list_run = refl

-- Without the space there is but one item.
read_list_close : read_list (ascii "[\"11\",\"22\"]") ≡ ascii "11,22" ∷ []
unfolding read_list
read_list_close = refl

abbrev outcomes-IsPlain : IsPlain (ascii "Up") × All IsPlain (ascii "Down" ∷ [])
outcomes-IsPlain = (
  ((refl, refl), ((refl, refl), tt)),
  (((refl, refl), ((refl, refl), ((refl, refl), ((refl, refl), tt)))), tt),
)

abbrev ids-IsPlain : IsPlain (ascii "11") × All IsPlain (ascii "22" ∷ [])
ids-IsPlain = (((refl, refl), ((refl, refl), tt)), (((refl, refl), ((refl, refl), tt)), tt))

read_market-write_list_example :
    IsListed string
      (λ s. s)
      (λ s. s)
      "e"
      market
      (ascii "11" ∷ ascii "22" ∷ [])
      2
      (read_market string (λ s. s) (λ s. s) "e" market)
read_market-write_list_example =
    read_market-write_list string (λ s. s) (λ s. s) "e" market (ascii "Up") (ascii "11")
      (ascii "Down" ∷ []) (ascii "22" ∷ []) refl refl outcomes-IsPlain ids-IsPlain

get_markets_run :
    get_markets string
      (λ s. s)
      (λ s. s)
      (ok (record { status = 200; body = "" }))
      (λ body. ok (record { id = "e"; markets = market ∷ [] } ∷ []))
    ≡ ok (
        record {
          id = "1";
          event_id = "e";
          question = "";
          condition_id = "c";
          slug = "eth-up-or-down";
          start_time = 0;
          end_time = 900;
          token_up = "token";
          token_down = "token";
          status = planned;
          underlying = eth;
        }
        ∷ [])
unfolding get_markets extract_underlying
get_markets_run = refl
