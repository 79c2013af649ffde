-- ===== src/Exchange/Answers.antt =====
-- internal/exchange/polymarket/client.go: what the answers of the exchange are read as.
use polymarket_go_bot.Prelude.{String, ◌≡◌, Option, some, inl, inr, arith, Option-cases}
use polymarket_go_bot.Prelude.Fallible.{ok, Fallible-cases}
use polymarket_go_bot.Decimal.{Decimal}
use polymarket_go_bot.Model.{Price}
use polymarket_go_bot.Exchange.{Response, Quote, get_prices}

module _ {D : Type 0} ⦃d : Decimal D⦄ where
  open d use {from_string}

  -- The ask of a token is the price at which the exchange's BUY stands, and the bid that of SELL.
  abbrev pub IsQuote : (String → Option Quote) → String → D → D → Type 0
  IsQuote quotes token ask bid =
      (q : Quote) × (quotes token ≡ some q)
      × (from_string q.buy_text ≡ ok ask)
      × (from_string q.sell_text ≡ ok bid)

  -- A price comes back only for an answer with the status 200 that quotes both tokens in numbers, and
  -- each of its four fields is the number of its token and side.
  pub get_prices-IsQuote :
      (resp : Response) (quotes : String → Option Quote) (up_token down_token : String)
      (p : Price D)
      → get_prices (ok resp) (λ body. ok quotes) up_token down_token ≡ ok p
      → (resp.status ≡ 200)
        × IsQuote quotes up_token p.up_ask p.up_bid
        × IsQuote quotes down_token p.down_ask p.down_bid
  unfolding get_prices
  get_prices-IsQuote resp quotes up_token down_token p h = elim (Option-cases (quotes up_token)) [
    | inl e ↦ absurd (ground arith)
    | inr (q, e) ↦ elim (Fallible-cases (from_string q.buy_text)) [
      | inl e2 ↦ absurd (ground arith)
      | inr (ask, e2) ↦ elim (Fallible-cases (from_string q.sell_text)) [
        | inl e3 ↦ absurd (ground arith)
        | inr (bid, e3) ↦ on_up q ask bid e e2 e3
      ]
    ]
  ]
    where
      Quoted : Type 0
      Quoted =
          (resp.status ≡ 200)
          × IsQuote quotes up_token p.up_ask p.up_bid
          × IsQuote quotes down_token p.down_ask p.down_bid

      on_up :
          (q : Quote) (ask bid : D)
          → quotes up_token ≡ some q
          → from_string q.buy_text ≡ ok ask
          → from_string q.sell_text ≡ ok bid
          → Quoted
      on_up q ask bid e e2 e3 = elim (Option-cases (quotes down_token)) [
        | inl k ↦ absurd (ground arith)
        | inr (q', k) ↦ elim (Fallible-cases (from_string q'.buy_text)) [
          | inl k2 ↦ absurd (ground arith)
          | inr (ask', k2) ↦ elim (Fallible-cases (from_string q'.sell_text)) [
            | inl k3 ↦ absurd (ground arith)
            | inr (bid', k3) ↦ (
              ground arith,
              (q, e, ground arith, ground arith),
              (q', k, ground arith, ground arith),
            )
          ]
        ]
      ]
