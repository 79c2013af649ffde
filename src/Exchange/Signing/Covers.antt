-- ===== src/Exchange/Signing/Covers.antt =====
-- internal/exchange/polymarket/auth.go: what a signature of an order covers.
use mathlib.Core.Path.{subst}
use Prim.Native.String.{◌++◌ as ◌<>◌}
use polymarket_go_bot.Prelude.{
  ◌↔◌, str_eq_iff, ◌+◌, ◌≤◌, String, ◌≡◌, sym, ap, ◌∙◌, [], ◌∷◌, ◌++◌, length, length-append, arith,
}
use polymarket_go_bot.Prelude.Fallible.{ok, >>=-ok, ok-injective}
use polymarket_go_bot.Prelude.Bytes.{Bytes}
use polymarket_go_bot.Exchange.{ClobOrder, OrderSideClob, SignatureType, to_int}
use polymarket_go_bot.Exchange.Signing.{
  EcdsaSignature, Ethereum, adjusted, signature_number, build_order_typed_data, eip712_hash,
  sign_eip712, sign_order,
}

-- The orders agree but for the signature.
abbrev pub IsSameOrder : ClobOrder → ClobOrder → Type 0
IsSameOrder o o' =
    (o.salt ≡ o'.salt)
    × (o.maker ≡ o'.maker)
    × (o.signer ≡ o'.signer)
    × (o.taker ≡ o'.taker)
    × (o.token_id ≡ o'.token_id)
    × (o.maker_amount ≡ o'.maker_amount)
    × (o.taker_amount ≡ o'.taker_amount)
    × (o.expiration ≡ o'.expiration)
    × (o.nonce ≡ o'.nonce)
    × (o.fee_rate_bps ≡ o'.fee_rate_bps)
    × ((o.side ≡ "BUY") ↔ (o'.side ≡ "BUY"))
    × (o.signature_type ≡ o'.signature_type)

to_int-buy : (s t : OrderSideClob) → to_int s ≡ to_int t → s ≡ "BUY" → t ≡ "BUY"
to_int-buy s t h e = ground (arith, str_eq_iff s "BUY", str_eq_iff t "BUY")

signature_number_injective : (s t : SignatureType) → signature_number s ≡ signature_number t → s ≡ t
signature_number_injective s t h = ground arith

-- Two orders whose typed data are the same agree in the contract, in whether their side is BUY, and in
-- every other field but the signature.
pub build_order_typed_data_injective :
    (o o' : ClobOrder) (c c' : String)
    → build_order_typed_data o c ≡ build_order_typed_data o' c'
    → (c ≡ c') × IsSameOrder o o'
unfolding build_order_typed_data
build_order_typed_data_injective o o' c c' h =
    let same_side : to_int o.side ≡ to_int o'.side = ground arith in
    (
      ground arith,
      (
        ground arith,
        ground arith,
        ground arith,
        ground arith,
        ground arith,
        ground arith,
        ground arith,
        ground arith,
        ground arith,
        ground arith,
        (to_int-buy o.side o'.side same_side, to_int-buy o'.side o.side (sym same_side)),
        ground arith,
      ),
    )

-- crypto.Sign documents 65 bytes with a last one of 0 or 1.
abbrev pub SignsAsDocumented : {K : Type 0} → Ethereum K → Type 0
SignsAsDocumented {K = K} eth =
    (digest : Bytes) (pk : K) (sig : EcdsaSignature)
    → eth.sign digest pk ≡ ok sig
    → (length sig.r_s ≡ 64) × (sig.v ≤ 1)

pub adjusted_lem : (sig : EcdsaSignature) → sig.v ≤ 1 → adjusted sig ≡ sig.r_s ++ (27 + sig.v) ∷ []
adjusted_lem sig h = ap (λ b. sig.r_s ++ b ∷ []) (ground arith)

pub length-adjusted : (sig : EcdsaSignature) → length sig.r_s ≡ 64 → length (adjusted sig) ≡ 65
length-adjusted sig h = length-append sig.r_s _ ∙ ground arith

module _ {K : Type 0} (eth : Ethereum K) (documented : SignsAsDocumented eth) where
  -- If the library signs as it documents, with 65 bytes of which the last is 0 or 1, a signature
  -- that SignOrder returns is the text of 65 bytes: r and s of a signature by the key of the digest
  -- of the typed data of the order, then 27 plus its v.
  pub sign_order-IsSigned :
      (order : ClobOrder) (pk : K) (contract signature : String)
      → sign_order eth order pk contract ≡ ok signature
      → (digest : Bytes) × (sig : EcdsaSignature) × (eip712_hash eth
            (build_order_typed_data order contract)
          ≡ ok digest)
        × (eth.sign digest pk ≡ ok sig)
        × (signature ≡ "0x" <> eth.hex (sig.r_s ++ (27 + sig.v) ∷ []))
        × (length (sig.r_s ++ (27 + sig.v) ∷ []) ≡ 65)
  unfolding sign_order sign_eip712
  sign_order-IsSigned order pk contract signature h =
      let (digest, hashed, rest) =
        >>=-ok (eip712_hash eth (build_order_typed_data order contract)) _ h in
      let (sig, signed, done) = >>=-ok (eth.sign digest pk) _ rest in
      let (long, small) = documented digest pk sig signed in
      (
        digest,
        sig,
        hashed,
        signed,
        sym (ok-injective done) ∙ ap (λ bs. "0x" <> eth.hex bs) (adjusted_lem sig small),
        subst (λ bs. length bs ≡ 65) (adjusted_lem sig small) (length-adjusted sig long),
      )
