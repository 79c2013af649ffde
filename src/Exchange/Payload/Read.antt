-- ===== src/Exchange/Payload/Read.antt =====
-- internal/exchange/polymarket/client.go: what the exchange reads from the body that PlaceOrder posts.
use polymarket_go_bot.Prelude.{
  ℕ, ◌<◌, String, ◌≡◌, refl, ap, Option, none, some, [], ◌∷◌, arith, str_eq, if◌then◌else◌, ◌==◌,
}
use polymarket_go_bot.Prelude.Int.{ℤ, pos}
use polymarket_go_bot.Prelude.Go.{returns, Returns}
use polymarket_go_bot.Prelude.Fallible.{Fallible, ok, fails}
use polymarket_go_bot.Exchange.{
  ClobOrder, OrderRequest, SignatureType, eoa, poly_proxy, gnosis_safe, TimeInForce, gtc, gtd, fok,
  fak,
}
use polymarket_go_bot.Exchange.Signing.{signature_number}
use polymarket_go_bot.Exchange.Payload.{
  set_bytes, random_salt_decimal64, ClobOrderPayload, Payload, posted_salt, payload_of,
  time_in_force_text,
}

abbrev pub signature_type_of : ℕ → Option SignatureType
signature_type_of n =
    if n == 0
    then some eoa
    else if n == 1
    then some poly_proxy
    else if n == 2
    then some gnosis_safe
    else none

abbrev pub time_in_force_of : String → Option TimeInForce
time_in_force_of text =
    if str_eq text "GTC"
    then some gtc
    else if str_eq text "GTD"
    then some gtd
    else if str_eq text "FOK"
    then some fok
    else if str_eq text "FAK"
    then some fak
    else none

-- What crypto/rand and the clock give: bytes, and a time before the end of an int64.
abbrev pub IsRead : Fallible (ℕ × ℕ × ℕ × ℕ) → ℕ → Type 0
IsRead (ok (b0, b1, b2, b3)) unix_nano = (b0 < 256) × (b1 < 256) × (b2 < 256) × (b3 < 256)
IsRead fails unix_nano = unix_nano < 9_223_372_036_854_775_808

-- The order, its texts as they are, with the salt as its decimal text.
abbrev pub with_kind : ClobOrderPayload → (salt : String) → Option SignatureType → Option ClobOrder
with_kind o salt (some kind) = some (record {
  salt = salt;
  maker = o.maker;
  signer = o.signer;
  taker = o.taker;
  token_id = o.token_id;
  maker_amount = o.maker_amount;
  taker_amount = o.taker_amount;
  expiration = o.expiration;
  nonce = o.nonce;
  fee_rate_bps = o.fee_rate_bps;
  side = o.side;
  signature_type = kind;
  signature = o.signature;
})
with_kind o salt none = none

abbrev pub with_order :
    (owner : String) → Option ClobOrder → Option TimeInForce → Option OrderRequest
with_order owner (some order) (some order_type) =
    some (record { order = order; owner = owner; order_type = order_type })
with_order owner order order_type = none

-- The request that a body stands for: its text and number as the constants that they name.
unfoldable pub request_of : (show : ℤ → String) → Payload → Option OrderRequest
request_of show p =
    with_order p.owner
      (with_kind p.order (show p.order.salt) (signature_type_of p.order.signature_type))
      (time_in_force_of p.order_type)

signature_type_of-signature_number :
    (kind : SignatureType) → signature_type_of (signature_number kind) ≡ some kind
signature_type_of-signature_number eoa = refl
signature_type_of-signature_number poly_proxy = refl
signature_type_of-signature_number gnosis_safe = refl

time_in_force_of-text : (t : TimeInForce) → time_in_force_of (time_in_force_text t) ≡ some t
time_in_force_of-text gtc = refl
time_in_force_of-text gtd = refl
time_in_force_of-text fok = refl
time_in_force_of-text fak = refl

-- The number of four bytes has 32 bits.
set_bytes-lt :
    (b0 b1 b2 b3 : ℕ)
    → b0 < 256
    → b1 < 256
    → b2 < 256
    → b3 < 256
    → set_bytes 0 (b0 ∷ b1 ∷ b2 ∷ b3 ∷ []) < 4_294_967_296
unfolding set_bytes
set_bytes-lt b0 b1 b2 b3 h0 h1 h2 h3 = omega arith

module _ (show : ℤ → String) (set_string : String → Option ℤ) (int64 : ℤ → ℤ)
    (reads : (x : ℤ) → set_string (show x) ≡ some x)
    (fits : (n : ℕ) → n < 9_223_372_036_854_775_808 → int64 (pos n) ≡ pos n) where
  posted_number :
      (n : ℕ)
      → n < 9_223_372_036_854_775_808
      → posted_salt set_string int64 (show (pos n)) ≡ returns (pos n)
  unfolding posted_salt
  posted_number n h = rw (posted_salt, reads (pos n)) (ap returns (fits n h))

  salt_text :
      (read : Fallible (ℕ × ℕ × ℕ × ℕ)) (unix_nano : ℕ)
      → IsRead read unix_nano
      → (n : ℕ) × (random_salt_decimal64 show read unix_nano ≡ show (pos n))
        × (posted_salt set_string int64 (show (pos n)) ≡ returns (pos n))
  unfolding random_salt_decimal64
  salt_text (ok (b0, b1, b2, b3)) unix_nano (h0, h1, h2, h3) =
      let n = set_bytes 0 (b0 ∷ b1 ∷ b2 ∷ b3 ∷ []) in
      (n, refl, posted_number n (omega (arith, set_bytes-lt b0 b1 b2 b3 h0 h1 h2 h3)))
  salt_text fails unix_nano h = (unix_nano, refl, posted_number unix_nano h)

  -- The body that is posted for a request whose salt is a random one is built, without a panic, and
  -- stands for that request: its salt has not been cut to other digits, so that the order that the
  -- exchange reads is, field for field, the one that was signed.
  pub payload_of-request_of :
      (request : OrderRequest) (read : Fallible (ℕ × ℕ × ℕ × ℕ)) (unix_nano : ℕ)
      → IsRead read unix_nano
      → request.order.salt ≡ random_salt_decimal64 show read unix_nano
      → Returns (λ body. request_of show body ≡ some request) (payload_of set_string int64 request)
  unfolding payload_of request_of
  payload_of-request_of request read unix_nano h salt =
      let (n, text, posted) = salt_text read unix_nano h in
      rw
        (
          salt,
          text,
          posted,
          signature_type_of-signature_number request.order.signature_type,
          time_in_force_of-text request.order_type,
        )
        refl
