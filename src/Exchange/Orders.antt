-- ===== src/Exchange/Orders.antt =====
-- internal/exchange/polymarket/client.go: PlaceOrder.
pub mod Placed
pub mod Lost
use polymarket_go_bot.Prelude.{
  ℕ, String, Bool, true, false, not, ◌||◌, Option, none, some, List, [], ◌∷◌, str_eq, if◌then◌else◌,
}
use polymarket_go_bot.Prelude.Int.{ℤ, pos}
use polymarket_go_bot.Prelude.Fallible.{Fallible, ok, fails, ◌>>=◌}
use polymarket_go_bot.Decimal.{Decimal}
use polymarket_go_bot.Model.{Order, Outcome, buy}
use polymarket_go_bot.Exchange.{
  L2Auth, Response, Headers, ClobOrder, OrderRequest, OrderResponse, order_side_buy, gnosis_safe,
  fak, get_or_derive_l2_creds, build_l2_headers,
}
use polymarket_go_bot.Exchange.Signing.{Ethereum, sign_order}

abbrev pub zero_address : String
zero_address = "0x0000000000000000000000000000000000000000"

-- The fields of Client and of its configuration that PlaceOrder reads.
pub record Client : Type 0 where
  pub mock_orders : Bool
  pub owner_address : String
  pub proxy_wallet_address : String
  pub ctf_exchange_address : String
  pub l2_creds : Option L2Auth

-- What the libraries and the exchange answer in one call; `B` is the decoded secret, `K` a private key,
-- and `priv_key` the client's. `derived` and `created` are the results of the two calls for credentials,
-- and `show` is the decimal text of an integer.
pub record Platform (B K : Type 0) : Type 0 where
  pub uuid : String
  pub public_address : String
  pub hex_to_address : String → String
  pub random_salt : String
  pub show : ℤ → String
  pub derived : Fallible L2Auth
  pub created : Fallible L2Auth
  pub ethereum : Ethereum K
  pub priv_key : K
  pub marshal : OrderRequest → Fallible String
  pub new_request : (body : String) → Fallible (Unit {0})
  pub raw_url_encoding : String → Fallible B
  pub url_encoding : String → Fallible B
  pub hmac : B → String → String
  pub timestamp : String
  pub request_path : String
  pub post : Headers → OrderRequest → Fallible Response
  pub decode : String → Fallible OrderResponse

abbrev pub signer_of : {B K : Type 0} → Client → Platform B K → String
signer_of c p = if str_eq c.owner_address zero_address then p.public_address else c.owner_address

abbrev pub mock_order : String → Order
mock_order id = record {
  id = id;
  status = "";
  error = false;
  error_msg = "";
  condition_id = "";
  original_size = "";
  matched_size = "";
  price = "";
  token_id = "";
  outcome = none;
  trade_side = none;
  associate_trades = "";
}

module _ {D : Type 0} ⦃d : Decimal D⦄ where
  open d use {from_int, mul, truncate, from_string, is_zero, is_negative}

  -- NewFromString, and the test that the number is positive.
  unfoldable pub parse_positive : String → Fallible D
  parse_positive text = from_string text >>= λ x. if is_zero x || is_negative x then fails else ok x

  -- The order before it is signed, from the checked price and size.
  unfoldable pub build_order :
      (show : ℤ → String) (signer maker salt token_id : String) (price_dec size_dec : D) → ClobOrder
  build_order show signer maker salt token_id price_dec size_dec =
      let million = from_int (pos 1_000_000) in
      let price_micro = mul price_dec million in
      let size_micro = mul size_dec million in
      let total_usdc_micro = mul size_dec price_micro in
      record {
        salt = salt;
        maker = maker;
        signer = signer;
        taker = zero_address;
        token_id = token_id;
        maker_amount = show (truncate total_usdc_micro);
        taker_amount = show (truncate size_micro);
        expiration = "0";
        nonce = "0";
        fee_rate_bps = "0";
        side = order_side_buy;
        signature_type = gnosis_safe;
        signature = "";
      }

module _ (D : Type 0) ⦃d : Decimal D⦄ where
  -- The checks before the credentials.
  unfoldable pub check_order :
      {B K : Type 0} → Client → Platform B K → (token_id price size : String) → Fallible ClobOrder
  unfolding parse_positive build_order
  check_order c p token_id price size =
      if str_eq token_id ""
      then fails
      else parse_positive {D = D} price >>= λ price_dec. parse_positive {D = D} size >>= λ size_dec.
          (let proxy = p.hex_to_address c.proxy_wallet_address in
            if str_eq proxy zero_address
            then fails
            else ok (
                build_order p.show (signer_of c p) proxy p.random_salt token_id price_dec size_dec))

-- The headers of a signed request.
unfoldable pub on_signed :
    {B K : Type 0}
    → Client
    → Platform B K
    → L2Auth
    → OrderRequest
    → Fallible (OrderRequest × Headers)
unfolding build_l2_headers
on_signed c p l2 request = p.marshal request >>= λ body. p.new_request body >>= λ u.
    build_l2_headers p.raw_url_encoding p.url_encoding p.hmac l2 (signer_of c p) p.timestamp "POST"
      p.request_path body
    >>= λ headers. ok (request, headers)

-- The signed request of an order, and its headers.
unfoldable pub sign_request :
    {B K : Type 0} → Client → Platform B K → L2Auth → ClobOrder → Fallible (OrderRequest × Headers)
unfolding on_signed sign_order
sign_request c p l2 order = sign_order p.ethereum order p.priv_key c.ctf_exchange_address >>= λ sig.
    on_signed c p l2
      (record { order = record order { signature = sig }; owner = l2.api_key; order_type = fak })

-- What the decoded answer of the exchange makes of the call.
unfoldable pub accept :
    (token_id : String) → Outcome → (price size : String) → OrderResponse → Fallible Order
accept token_id outcome price size r =
    if not r.success || not (str_eq r.error_msg "")
    then fails
    else if str_eq r.order_id ""
    then fails
    else ok (record {
      id = r.order_id;
      status = "";
      error = false;
      error_msg = "";
      condition_id = "";
      original_size = size;
      matched_size = "";
      price = price;
      token_id = token_id;
      outcome = some outcome;
      trade_side = some buy;
      associate_trades = "";
    })

-- The result, the client after the call, and the requests that went out.
pub record Outcomes : Type 0 where
  pub result : Fallible Order
  pub client : Client
  pub requests : List OrderRequest

abbrev pub post_request :
    {B K : Type 0}
    → Client
    → Platform B K
    → (OrderResponse → Fallible Order)
    → Fallible (OrderRequest × Headers)
    → Outcomes
post_request c p accepts fails = record { result = fails; client = c; requests = [] }
post_request c p accepts (ok (request, headers)) = record {
  result = p.post headers request >>= λ resp. p.decode resp.body >>= accepts;
  client = c;
  requests = request ∷ [];
}

abbrev pub on_creds :
    {B K : Type 0}
    → Client
    → Platform B K
    → (OrderResponse → Fallible Order)
    → ClobOrder
    → Fallible L2Auth × Option L2Auth
    → Outcomes
on_creds c p accepts order (fails, kept) = record {
  result = fails;
  client = record c { l2_creds = kept };
  requests = [];
}
on_creds c p accepts order (ok l2, kept) =
    post_request (record c { l2_creds = kept }) p accepts
      (sign_request (record c { l2_creds = kept }) p l2 order)

abbrev pub on_checked :
    {B K : Type 0}
    → Client
    → Platform B K
    → (OrderResponse → Fallible Order)
    → Fallible ClobOrder
    → Outcomes
on_checked c p accepts fails = record { result = fails; client = c; requests = [] }
on_checked c p accepts (ok order) =
    on_creds c p accepts order (get_or_derive_l2_creds p.derived p.created c.l2_creds)

unfoldable pub place_order :
    (D : Type 0) ⦃d : Decimal D⦄
    → {B K : Type 0} → Client
    → Platform B K
    → String
    → Outcome
    → (price size : String) → Outcomes
unfolding check_order sign_request accept
place_order D c p token_id outcome price size =
    if c.mock_orders
    then record { result = ok (mock_order p.uuid); client = c; requests = [] }
    else on_checked c p (accept token_id outcome price size) (check_order D c p token_id price size)
