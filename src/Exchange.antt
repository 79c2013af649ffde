-- ===== src/Exchange.antt =====
-- internal/exchange/polymarket/client.go and auth.go: the credentials, the prices and the orders. HTTP,
-- JSON, the signature and go-ethereum's addresses are parameters; an address is the text that Hex gives.
pub mod Orders
pub mod Answers
pub mod Signing
pub mod Markets
pub mod Requests
pub mod Calls
pub mod Payload
pub mod Tests
use Prim.Native.String.{◌++◌ as ◌<>◌}
use text.Mathlib.Text.{starts_with}
use polymarket_go_bot.Prelude.{
  ℕ, String, Bool, true, false, not, ◌||◌, Option, none, some, List, [], ◌∷◌, ltb, leb, ◌==◌,
  str_eq, if◌then◌else◌,
}
use polymarket_go_bot.Prelude.Int.{ℤ, pos}
use polymarket_go_bot.Prelude.Fallible.{Fallible, ok, fails, ◌>>=◌}
use polymarket_go_bot.Decimal.{Decimal}
use polymarket_go_bot.Model.{Order, Outcome, Price, buy}

pub record L2Auth : Type 0 where
  pub api_key : String
  pub secret : String
  pub passphrase : String

pub record Response : Type 0 where
  pub status : ℕ
  pub body : String

-- `headers` is the result of SetL1Headers, `answer` that of the request, `decode` json.Unmarshal.
unfoldable pub call_l1_get_api_creds :
    (headers : Fallible (Unit {0})) (answer : Fallible Response) (decode : String → Fallible L2Auth)
    → Fallible L2Auth
call_l1_get_api_creds headers answer decode = headers >>= λ u. answer >>= λ resp.
    (if leb 300 resp.status
      then fails
      else decode resp.body >>= λ r.
          (if str_eq r.api_key "" || str_eq r.secret "" || str_eq r.passphrase ""
            then fails
            else ok r))

-- The same without the test for empty credentials.
unfoldable pub call_l1_post_api_creds :
    (headers : Fallible (Unit {0})) (answer : Fallible Response) (decode : String → Fallible L2Auth)
    → Fallible L2Auth
call_l1_post_api_creds headers answer decode =
    headers >>= λ u. answer >>= λ resp. (if leb 300 resp.status then fails else decode resp.body)

-- The credentials, with what the client keeps: `derived` and `created` are the two calls above.
unfoldable pub get_or_derive_l2_creds :
    (derived created : Fallible L2Auth) → Option L2Auth → Fallible L2Auth × Option L2Auth
get_or_derive_l2_creds derived created (some creds) = (ok creds, some creds)
get_or_derive_l2_creds (ok creds) created none = (ok creds, some creds)
get_or_derive_l2_creds fails (ok creds) none = (ok creds, some creds)
get_or_derive_l2_creds fails fails none = (fails, none)

pub record Headers : Type 0 where
  pub poly_api_key : String
  pub poly_passphrase : String
  pub poly_signature : String
  pub poly_timestamp : String
  pub poly_address : String

-- `raw` and `padded` are base64's RawURLEncoding and URLEncoding.
unfoldable pub decode_url_safe_base64 :
    {B : Type 0} → (raw padded : String → Fallible B) → String → Fallible B
decode_url_safe_base64 raw padded s = elim (raw s) [ ok b ↦ ok b | fails ↦ padded s ]

-- `hmac` is the HMAC with SHA-256 in base64, for the decoded secret.
unfoldable pub build_l2_headers :
    {B : Type 0}
    → (raw padded : String → Fallible B) (hmac : B → String → String) → L2Auth
    → (wallet_address timestamp method request_path body : String) → Fallible Headers
unfolding decode_url_safe_base64
build_l2_headers raw padded hmac l2 wallet_address timestamp method request_path body =
    if str_eq wallet_address "" || not (starts_with wallet_address "0x")
    then fails
    else decode_url_safe_base64 raw padded l2.secret >>= λ secret_bytes. ok (record {
      poly_api_key = l2.api_key;
      poly_passphrase = l2.passphrase;
      poly_signature = hmac secret_bytes (timestamp <> method <> request_path <> body);
      poly_timestamp = timestamp;
      poly_address = wallet_address;
    })

-- OrderSideCLOB is a string type: the two constants are not all of its values.
abbrev pub OrderSideClob : Type 0
OrderSideClob = String

abbrev pub order_side_buy : OrderSideClob
order_side_buy = "BUY"

abbrev pub order_side_sell : OrderSideClob
order_side_sell = "SELL"

abbrev pub to_int : OrderSideClob → ℕ
to_int s = if str_eq s order_side_buy then 0 else 1

pub data SignatureType : Type 0 where
  eoa poly_proxy gnosis_safe : SignatureType

pub data TimeInForce : Type 0 where
  gtc gtd fok fak : TimeInForce

pub record ClobOrder : Type 0 where
  pub salt : String
  pub maker : String
  pub signer : String
  pub taker : String
  pub token_id : String
  pub maker_amount : String
  pub taker_amount : String
  pub expiration : String
  pub nonce : String
  pub fee_rate_bps : String
  pub side : OrderSideClob
  pub signature_type : SignatureType
  pub signature : String

pub record OrderRequest : Type 0 where
  pub order : ClobOrder
  pub owner : String
  pub order_type : TimeInForce

pub record OrderResponse : Type 0 where
  pub success : Bool
  pub error_msg : String
  pub order_id : String

-- One entry of the answer of /prices.
pub record Quote : Type 0 where
  pub buy_text : String
  pub sell_text : String

abbrev pub found {ℓ} : {A : Type ℓ} → Option A → Fallible A
found none = fails
found (some a) = ok a

module _ {D : Type 0} ⦃d : Decimal D⦄ where
  open d use {from_string}

  -- GetPrices, from the answer on: `decode` is json.Unmarshal into a map.
  unfoldable pub get_prices :
      (answer : Fallible Response) (decode : String → Fallible (String → Option Quote))
      → String
      → String
      → Fallible (Price D)
  get_prices answer decode token_up token_down = answer >>= λ resp.
      (if not (resp.status == 200)
        then fails
        else decode resp.body >>= λ prices_resp. found (prices_resp token_up) >>= λ up_prices.
            from_string up_prices.buy_text >>= λ up_ask.
            from_string up_prices.sell_text >>= λ up_bid.
            found (prices_resp token_down) >>= λ down_prices.
            from_string down_prices.buy_text >>= λ down_ask.
            from_string down_prices.sell_text >>= λ down_bid.
            ok (record {
              up_ask = up_ask;
              up_bid = up_bid;
              down_ask = down_ask;
              down_bid = down_bid;
            }))
