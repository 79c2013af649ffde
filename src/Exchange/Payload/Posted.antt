-- ===== src/Exchange/Payload/Posted.antt =====
-- internal/exchange/polymarket/client.go: the bodies of the requests that PlaceOrder sends.
use polymarket_go_bot.Prelude.{All-mono, ℕ, ◌<◌, String, ◌≡◌, ap, ◌∙◌, false, Option, some, All}
use polymarket_go_bot.Prelude.Int.{ℤ, pos}
use polymarket_go_bot.Prelude.Go.{Returns}
use polymarket_go_bot.Prelude.Fallible.{Fallible}
use polymarket_go_bot.Decimal.{Decimal}
use polymarket_go_bot.Model.{Outcome}
use polymarket_go_bot.Exchange.{ClobOrder, OrderRequest}
use polymarket_go_bot.Exchange.Orders.{Client, Platform, place_order}
use polymarket_go_bot.Exchange.Orders.Placed.{IsRequest, place_order-IsPlaced}
use polymarket_go_bot.Exchange.Payload.{random_salt_decimal64, payload_of}
use polymarket_go_bot.Exchange.Payload.Read.{IsRead, request_of, payload_of-request_of}

module _ (show : ℤ → String) (set_string : String → Option ℤ) (int64 : ℤ → ℤ) where
  -- The body is built, and stands for the request.
  abbrev pub IsReadable : OrderRequest → Type 0
  IsReadable r = Returns (λ body. request_of show body ≡ some r) (payload_of set_string int64 r)

module _ (show : ℤ → String) (set_string : String → Option ℤ) (int64 : ℤ → ℤ)
    (reads : (x : ℤ) → set_string (show x) ≡ some x)
    (fits : (n : ℕ) → n < 9_223_372_036_854_775_808 → int64 (pos n) ≡ pos n) where
  module _ (D : Type 0) ⦃d : Decimal D⦄ {B K : Type 0} (c : Client) (p : Platform B K)
      (token_id price size : String) where
    request_salt :
        (r : OrderRequest) → IsRequest D c p token_id price size r → r.order.salt ≡ p.random_salt
    request_salt r is_request =
        ap (λ (o : ClobOrder). o.salt) is_request.signs ∙ is_request.is_order.salt_is

    -- If SetString reads the texts that String writes, Int64 keeps what fits in 63 bits, and the salt
    -- is a random one, of bytes or of a time that fits: for each request that a call that is no mock
    -- sends, the body is built, without a panic, and what the exchange reads from it is the request,
    -- so that the order is, field for field, the one that was signed; its salt has not been cut.
    pub place_order-IsReadable :
        (outcome : Outcome) (read : Fallible (ℕ × ℕ × ℕ × ℕ)) (unix_nano : ℕ)
        → c.mock_orders ≡ false
        → IsRead read unix_nano
        → p.random_salt ≡ random_salt_decimal64 show read unix_nano
        → All
            (IsReadable show set_string int64)
            (place_order D c p token_id outcome price size).requests
    place_order-IsReadable outcome read unix_nano real bytes salt =
        All-mono (IsRequest D c p token_id price size) (IsReadable show set_string int64)
          (place_order D c p token_id outcome price size).requests
          (λ r h.
            payload_of-request_of show set_string int64 reads fits r read unix_nano bytes
              (request_salt r h ∙ salt))
          (place_order-IsPlaced D c p token_id price size outcome real).0
