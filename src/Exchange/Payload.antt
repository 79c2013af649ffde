-- ===== src/Exchange/Payload.antt =====
-- internal/exchange/polymarket/client.go: the body that PlaceOrder posts, and the salt of an order. A
-- record stands for the JSON object with its fields; `show` is the decimal text of an integer.
pub mod Read
pub mod Posted
pub mod Tests
use polymarket_go_bot.Prelude.{ℕ, ◌+◌, ◌*◌, String, Option, none, some, List, [], ◌∷◌}
use polymarket_go_bot.Prelude.Int.{ℤ, pos}
use polymarket_go_bot.Prelude.Go.{Go, returns, panics, ◌>>=◌}
use polymarket_go_bot.Prelude.Fallible.{Fallible, ok, fails}
use polymarket_go_bot.Prelude.Bytes.{Bytes}
use polymarket_go_bot.Exchange.{
  ClobOrder, OrderRequest, OrderSideClob, order_side_buy, order_side_sell, TimeInForce, gtc, gtd,
  fok, fak,
}
use polymarket_go_bot.Exchange.Signing.{signature_number}

-- big.Int's SetBytes: the number whose digits to base 256 are the bytes, the highest first.
unfoldable pub set_bytes : ℕ → Bytes → ℕ
set_bytes n [] = n
set_bytes n (b ∷ bs) = set_bytes (n * 256 + b) bs

-- `read` is what rand.Read puts into the four bytes, and `unix_nano` the time.
unfoldable pub random_salt_decimal64 :
    (show : ℤ → String) (read : Fallible (ℕ × ℕ × ℕ × ℕ)) (unix_nano : ℕ) → String
unfolding set_bytes
random_salt_decimal64 show (ok (b0, b1, b2, b3)) unix_nano =
    show (pos (set_bytes 0 (b0 ∷ b1 ∷ b2 ∷ b3 ∷ [])))
random_salt_decimal64 show fails unix_nano = show (pos unix_nano)

-- The texts of the constants of TimeInForce.
abbrev pub time_in_force_text : TimeInForce → String
time_in_force_text gtc = "GTC"
time_in_force_text gtd = "GTD"
time_in_force_text fok = "FOK"
time_in_force_text fak = "FAK"

pub record ClobOrderPayload : Type 0 where
  pub salt : ℤ
  pub maker : String
  pub signer : String
  pub taker : String
  pub token_id : String
  pub maker_amount : String
  pub taker_amount : String
  pub expiration : String
  pub nonce : String
  pub fee_rate_bps : String
  pub side : String
  pub signature_type : ℕ
  pub signature : String

pub record Payload : Type 0 where
  pub order : ClobOrderPayload
  pub owner : String
  pub order_type : String

-- `set_string` is big.Int's SetString at base 10, and `int64` its Int64: without a number the pointer
-- is nil, so that Int64 panics.
module _ (set_string : String → Option ℤ) (int64 : ℤ → ℤ) where
  unfoldable pub posted_salt : String → Go ℤ
  posted_salt text = elim (set_string text) [ none ↦ panics | some v ↦ returns (int64 v) ]

  abbrev pub order_with_salt : ClobOrder → ℤ → ClobOrderPayload
  order_with_salt order salt = record {
    salt = salt;
    maker = order.maker;
    signer = order.signer;
    taker = order.taker;
    token_id = order.token_id;
    maker_amount = order.maker_amount;
    taker_amount = order.taker_amount;
    expiration = order.expiration;
    nonce = order.nonce;
    fee_rate_bps = order.fee_rate_bps;
    side = order.side;
    signature_type = signature_number order.signature_type;
    signature = order.signature;
  }

  unfoldable pub payload_of : OrderRequest → Go Payload
  unfolding posted_salt
  payload_of request = posted_salt request.order.salt >>= λ salt. returns (record {
    order = order_with_salt request.order salt;
    owner = request.owner;
    order_type = time_in_force_text request.order_type;
  })
