-- ===== src/Exchange/Orders/Placed.antt =====
-- internal/exchange/polymarket/client.go: what PlaceOrder has sent when it returns.
use polymarket_go_bot.Prelude.{
  String, ◌≡◌, sym, ◌≢◌, ap, ◌∙◌, refl, Bool, true, false, Option, some, inl, inr, [], length, All,
  ◌≤◌, arith, str_eq_iff, if◌then◌else◌,
}
use polymarket_go_bot.Prelude.Int.{pos}
use polymarket_go_bot.Prelude.Fallible.{Fallible, ok, fails, Fallible-cases, ◌>>=◌, >>=-ok}
use polymarket_go_bot.Decimal.{Decimal}
use polymarket_go_bot.Model.{Order, Outcome}
use polymarket_go_bot.Exchange.{
  L2Auth, Headers, ClobOrder, OrderRequest, OrderResponse, fak, gnosis_safe, get_or_derive_l2_creds,
}
use polymarket_go_bot.Exchange.Signing.{sign_order}
use polymarket_go_bot.Exchange.Orders.{
  Client, Platform, Outcomes, zero_address, parse_positive, build_order, check_order, on_signed,
  sign_request, accept, post_request, on_creds, on_checked, place_order, mock_order, signer_of,
}

module _ {D : Type 0} ⦃d : Decimal D⦄ where
  open d use {from_int, mul, truncate, from_string, is_zero, is_negative}

  -- The text is a number that is not zero and not negative.
  abbrev pub IsPositiveText : String → D → Type 0
  IsPositiveText text x = (from_string text ≡ ok x) × (is_zero x ≡ false) × (is_negative x ≡ false)

  parse_positive-IsPositiveText :
      (text : String) (x : D) → parse_positive text ≡ ok x → IsPositiveText text x
  unfolding parse_positive
  parse_positive-IsPositiveText text x h = elim (Fallible-cases (from_string text)) [
    | inl e ↦ absurd (ground arith)
    | inr (y, e) ↦ ground arith
  ]

module _ (D : Type 0) ⦃d : Decimal D⦄ {B K : Type 0} (c : Client) (p : Platform B K)
    (token_id price size : String) where
  open d use {from_int, mul, truncate}

  -- The order buys `size` of the token at `price`, from the wallet and to anyone, with the amounts in
  -- millionths.
  pub record IsOrder (o : ClobOrder) : Type 0 where
    pub price_dec : D
    pub size_dec : D
    pub price_pos : IsPositiveText price price_dec
    pub size_pos : IsPositiveText size size_dec
    pub token_set : token_id ≢ ""
    pub maker_set : o.maker ≢ zero_address
    pub salt_is : o.salt ≡ p.random_salt
    pub maker_is : o.maker ≡ p.hex_to_address c.proxy_wallet_address
    pub signer_is : o.signer ≡ signer_of c p
    pub for_anyone : o.taker ≡ zero_address
    pub token_is : o.token_id ≡ token_id
    pub pays :
        o.maker_amount ≡ p.show (truncate (mul size_dec (mul price_dec (from_int (pos 1_000_000)))))
    pub gets : o.taker_amount ≡ p.show (truncate (mul size_dec (from_int (pos 1_000_000))))
    pub buys : o.side ≡ "BUY"
    pub by_safe : o.signature_type ≡ gnosis_safe
    pub fee_is : (o.expiration ≡ "0") × (o.nonce ≡ "0") × (o.fee_rate_bps ≡ "0")

  build_order-IsOrder :
      (x y : D) (o : ClobOrder)
      → IsPositiveText price x
      → IsPositiveText size y
      → token_id ≢ ""
      → p.hex_to_address c.proxy_wallet_address ≢ zero_address
      → o
        ≡ build_order p.show
            (signer_of c p)
            (p.hex_to_address c.proxy_wallet_address)
            p.random_salt
            token_id
            x
            y
      → IsOrder o
  unfolding build_order
  build_order-IsOrder x y o price_pos size_pos token_set wallet_set built = record {
    price_dec = x;
    size_dec = y;
    price_pos = price_pos;
    size_pos = size_pos;
    token_set = token_set;
    maker_set = λ e. wallet_set (sym (ap (λ (o : ClobOrder). o.maker) built) ∙ e);
    salt_is = ap (λ (o : ClobOrder). o.salt) built;
    maker_is = ap (λ (o : ClobOrder). o.maker) built;
    signer_is = ap (λ (o : ClobOrder). o.signer) built;
    for_anyone = ap (λ (o : ClobOrder). o.taker) built;
    token_is = ap (λ (o : ClobOrder). o.token_id) built;
    pays = ap (λ (o : ClobOrder). o.maker_amount) built;
    gets = ap (λ (o : ClobOrder). o.taker_amount) built;
    buys = ap (λ (o : ClobOrder). o.side) built;
    by_safe = ap (λ (o : ClobOrder). o.signature_type) built;
    fee_is = (
      ap (λ (o : ClobOrder). o.expiration) built,
      ap (λ (o : ClobOrder). o.nonce) built,
      ap (λ (o : ClobOrder). o.fee_rate_bps) built,
    );
  }

  check_order-IsOrder : (o : ClobOrder) → check_order D c p token_id price size ≡ ok o → IsOrder o
  unfolding check_order
  check_order-IsOrder o h = elim (Fallible-cases (parse_positive {D = D} price)) [
    | inl e ↦ absurd (ground arith)
    | inr (x, e) ↦ elim (Fallible-cases (parse_positive {D = D} size)) [
      | inl e2 ↦ absurd (ground arith)
      | inr (y, e2) ↦ on_parsed x y e e2
    ]
  ]
    where
      on_parsed :
          (x y : D)
          → parse_positive {D = D} price ≡ ok x
          → parse_positive {D = D} size ≡ ok y
          → IsOrder o
      on_parsed x y e e2 =
          let built : o
              ≡ build_order p.show (signer_of c p) (p.hex_to_address c.proxy_wallet_address)
                  p.random_salt token_id x y =
            ground arith in
          let wallet_set : p.hex_to_address c.proxy_wallet_address ≢ zero_address =
            ground (arith, str_eq_iff (p.hex_to_address c.proxy_wallet_address) zero_address) in
          build_order-IsOrder x y o (parse_positive-IsPositiveText price x e)
            (parse_positive-IsPositiveText size y e2) (ground (arith, str_eq_iff token_id ""))
            wallet_set built

  -- The request is for such an order, signed, and to be filled at once or killed.
  pub record IsRequest (r : OrderRequest) : Type 0 where
    pub order : ClobOrder
    pub is_order : IsOrder order
    pub signs : r.order ≡ record order { signature = r.order.signature }
    pub is_signed :
        sign_order p.ethereum order p.priv_key c.ctf_exchange_address ≡ ok r.order.signature
    pub is_fak : r.order_type ≡ fak

  -- The order that comes back has what was asked for, and no matched size.
  abbrev pub IsAccepted : Outcome → Order → Type 0
  IsAccepted outcome o =
      (o.price ≡ price)
      × (o.original_size ≡ size)
      × (o.matched_size ≡ "")
      × (o.token_id ≡ token_id)
      × (o.outcome ≡ some outcome)
      × (o.id ≢ "")

  -- What a call that is no mock has done: at most one request went out, and it is for such an order;
  -- if the call succeeds, one request went out.
  abbrev pub IsPlaced : Outcome → Outcomes → Type 0
  IsPlaced outcome o =
      All IsRequest o.requests
      × (length o.requests ≤ 1)
      × ((placed : Order)
          → o.result ≡ ok placed
          → (length o.requests ≡ 1) × IsAccepted outcome placed)

  accept-IsAccepted :
      (outcome : Outcome) (r : OrderResponse) (o : Order)
      → accept token_id outcome price size r ≡ ok o
      → IsAccepted outcome o
  unfolding accept
  accept-IsAccepted outcome r o h = ground (arith, str_eq_iff r.order_id "")

  on_signed-signs :
      (c' : Client) (l2 : L2Auth) (r r' : OrderRequest) (h : Headers)
      → on_signed c' p l2 r ≡ ok (r', h)
      → r' ≡ r
  unfolding on_signed
  on_signed-signs c' l2 r r' h e =
      let (body, _, e2) = >>=-ok (p.marshal r) _ e in
      let (made, _, e3) = >>=-ok (p.new_request body) _ e2 in last _ e3
    where
      paired : Headers → Fallible (OrderRequest × Headers)
      paired headers = ok (r, headers)

      last : (m : Fallible Headers) → (m >>= paired) ≡ ok (r', h) → r' ≡ r
      last (ok headers) k = cc
      last fails k = absurd (ground arith)

  posted-IsPlaced :
      (c' : Client) (outcome : Outcome) (l2 : L2Auth) (o : ClobOrder)
      (s : Fallible (OrderRequest × Headers))
      → c'.ctf_exchange_address ≡ c.ctf_exchange_address
      → sign_request c' p l2 o ≡ s
      → IsOrder o
      → IsPlaced outcome (post_request c' p (accept token_id outcome price size) s)
  unfolding sign_request
  posted-IsPlaced c' outcome l2 o fails own e h =
      (tt, omega arith, λ placed k. absurd (ground arith))
  posted-IsPlaced c' outcome l2 o (ok (r, headers)) own e h =
      let (sig, signed, e2) =
        >>=-ok (sign_order p.ethereum o p.priv_key c'.ctf_exchange_address) _ e in
      let same = on_signed-signs c' l2 _ r headers e2 in
      (
        (
          record {
            order = o;
            is_order = h;
            signs = rw same refl;
            is_signed = rw (same, sym own) signed;
            is_fak = rw same refl;
          },
          tt,
        ),
        omega arith,
        λ placed k.
            let (resp, _, k2) = >>=-ok (p.post headers r) _ k in
            let (answer, _, k3) = >>=-ok (p.decode resp.body) _ k2 in
            (refl, accept-IsAccepted outcome answer placed k3),
      )

  -- A call that is no mock posts at most one order, beside what it asks for its credentials, and only
  -- for a positive size and price of a set token: a BUY from the wallet, which pays size times price
  -- and gets the size, each in millionths cut to an integer, with the wallet's signature of just that
  -- order. If it succeeds, the order was posted, and the one that comes back has that price and size,
  -- but no matched size.
  pub place_order-IsPlaced :
      (outcome : Outcome)
      → c.mock_orders ≡ false
      → IsPlaced outcome (place_order D c p token_id outcome price size)
  unfolding place_order
  place_order-IsPlaced outcome real = by_mode c.mock_orders real
    where
      with_creds :
          (o : ClobOrder)
          → IsOrder o
          → (r : Fallible L2Auth × Option L2Auth)
          → IsPlaced outcome (on_creds c p (accept token_id outcome price size) o r)
      with_creds o h (fails, kept) = (tt, omega arith, λ placed k. absurd (ground arith))
      with_creds o h (ok l2, kept) =
          posted-IsPlaced (record c { l2_creds = kept }) outcome l2 o _ refl refl h

      checked :
          (r : Fallible ClobOrder)
          → check_order D c p token_id price size ≡ r
          → IsPlaced outcome (on_checked c p (accept token_id outcome price size) r)
      checked fails e = (tt, omega arith, λ placed k. absurd (ground arith))
      checked (ok o) e =
          with_creds o (check_order-IsOrder o e)
            (get_or_derive_l2_creds p.derived p.created c.l2_creds)

      by_mode :
          (b : Bool)
          → b ≡ false
          → IsPlaced outcome (
              if b
              then record { result = ok (mock_order p.uuid); client = c; requests = [] }
              else on_checked c p
                  (accept token_id outcome price size)
                  (check_order D c p token_id price size))
      by_mode true e = absurd (ground arith)
      by_mode false e = checked (check_order D c p token_id price size) refl
