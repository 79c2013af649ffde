-- ===== src/Exchange/Requests.antt =====
-- internal/exchange/polymarket/auth.go: the headers that are set on a request. The header of net/http is
-- a function of the canonical key; a map of Go is the list of its entries in the order that `range`
-- picks, which the runtime chooses anew each time.
pub mod Ordered
pub mod Sent
pub mod Tests
use Prim.Native.String.{◌++◌ as ◌<>◌}
use polymarket_go_bot.Prelude.{
  String, Bool, Option, none, some, List, [], ◌∷◌, str_eq, if◌then◌else◌,
}
use polymarket_go_bot.Prelude.Int.{ℤ}
use polymarket_go_bot.Prelude.Fallible.{Fallible, ok, fails, ◌>>=◌}
use polymarket_go_bot.Exchange.{L2Auth, Headers, OrderSideClob, order_side_buy, order_side_sell}
use polymarket_go_bot.Exchange.Signing.{L1Headers}

abbrev pub Header : Type 0
Header = String → Option String

abbrev pub HeaderMap : Type 0
HeaderMap = List (String × String)

-- The maps that GenerateL1Headers and BuildL2Headers return; `show` is the decimal text of an integer.
abbrev pub l1_map : (show : ℤ → String) → L1Headers → HeaderMap
l1_map show h =
    ("POLY_ADDRESS", h.poly_address)
    ∷ ("POLY_SIGNATURE", h.poly_signature)
    ∷ ("POLY_TIMESTAMP", h.poly_timestamp)
    ∷ ("POLY_NONCE", show h.poly_nonce)
    ∷ []

abbrev pub l2_map : Headers → HeaderMap
l2_map h =
    ("POLY_API_KEY", h.poly_api_key)
    ∷ ("POLY_PASSPHRASE", h.poly_passphrase)
    ∷ ("POLY_SIGNATURE", h.poly_signature)
    ∷ ("POLY_TIMESTAMP", h.poly_timestamp)
    ∷ ("POLY_ADDRESS", h.poly_address)
    ∷ []

-- GenerateL2Headers, which no code calls: `std` is base64's StdEncoding, `raw_bytes` the bytes of a
-- text, and `hmac` the HMAC with SHA-256 in the standard base64.
abbrev pub secret_bytes :
    {B : Type 0} (std : String → Fallible B) (raw_bytes : String → B) → String → B
secret_bytes std raw_bytes secret = elim (std secret) [ ok b ↦ b | fails ↦ raw_bytes secret ]

unfoldable pub generate_l2_headers :
    {B : Type 0}
    → (std : String → Fallible B) (raw_bytes : String → B) (hmac : B → String → String) → L2Auth
    → (timestamp method path body : String) → HeaderMap
generate_l2_headers std raw_bytes hmac l2 timestamp method path body =
    let secret = secret_bytes std raw_bytes l2.secret in
    ("POLY_API_KEY", l2.api_key)
    ∷ ("POLY_API_SIGNATURE", hmac secret (timestamp <> method <> path <> body))
    ∷ ("POLY_API_TIMESTAMP", timestamp)
    ∷ ("POLY_PASSPHRASE", l2.passphrase)
    ∷ []

-- OrderSideCLOB.ToIntStr
abbrev pub to_int_str : OrderSideClob → String
to_int_str s = if str_eq s order_side_buy then "0" else "1"

-- JSONNumber.MarshalJSON
unfoldable pub marshal_json_number : String → String
marshal_json_number n = if str_eq n "" then "0" else n

-- `canonical` is CanonicalHeaderKey, under which the header keeps its keys.
module _ (canonical : String → String) where
  unfoldable pub set_header : String → String → Header → Header
  set_header k v h j = if str_eq (canonical k) j then some v else h j

  -- The loop over the entries of a map.
  unfoldable pub set_headers : HeaderMap → Header → Header
  unfolding set_header
  set_headers [] h = h
  set_headers ((k, v) ∷ entries) h = set_headers entries (set_header k v h)

  -- req.Header.Get
  unfoldable pub get_header : String → Header → Option String
  get_header k h = h (canonical k)

  -- `generated` is the result of GenerateL1Headers; `pick` is the order of `range`.
  unfoldable pub set_l1_headers :
      (pick : HeaderMap → HeaderMap) (show : ℤ → String) (generated : Fallible L1Headers)
      → Header
      → Fallible Header
  unfolding set_headers
  set_l1_headers pick show generated header =
      generated >>= λ h. ok (set_headers (pick (l1_map show h)) header)

  -- `built` is the result of BuildL2Headers; on its error log.Fatal ends the process, which is `none`.
  unfoldable pub set_l2_headers :
      (pick : HeaderMap → HeaderMap) (built : Fallible Headers) → Header → Option Header
  unfolding set_headers
  set_l2_headers pick (ok h) header = some (set_headers (pick (l2_map h)) header)
  set_l2_headers pick fails header = none
