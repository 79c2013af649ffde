-- ===== src/Exchange/Signing/Tests.antt =====
-- A signature of an order by a concrete key.
use mathlib.Core.Path.{subst}
use Prim.Native.String.{◌++◌ as ◌<>◌}
use polymarket_go_bot.Prelude.{ℕ, ◌+◌, String, ◌≡◌, ◌≤◌, refl, [], ◌∷◌, ◌++◌, length, arith}
use polymarket_go_bot.Prelude.Fallible.{ok, ok-injective}
use polymarket_go_bot.Prelude.Bytes.{Bytes}
use polymarket_go_bot.Chain.{zeros}
use polymarket_go_bot.Exchange.{ClobOrder, order_side_buy, gnosis_safe}
use polymarket_go_bot.Exchange.Signing.{
  EcdsaSignature, Ethereum, build_order_typed_data, eip712_hash, sign_order,
}
use polymarket_go_bot.Exchange.Signing.Covers.{
  SignsAsDocumented, IsSameOrder, build_order_typed_data_injective, sign_order-IsSigned,
}

abbrev pub zero_signature : EcdsaSignature
zero_signature = record { r_s = zeros 64; v = 1 }

-- Keys are numbers; every digest has the same signature.
abbrev pub eth : Ethereum ℕ
eth = record {
  hash_domain = λ td. ok (7 ∷ []);
  hash_message = λ td. ok (8 ∷ []);
  keccak256 = λ bs. bs;
  sign = λ digest pk. ok zero_signature;
  address_of = λ pk. "0x01";
  hex = λ bs. "ab";
}

pub eth-SignsAsDocumented : SignsAsDocumented eth
eth-SignsAsDocumented digest pk sig h =
    subst (λ s. (length s.r_s ≡ 64) × (s.v ≤ 1)) (ok-injective h) (refl, ground arith)

abbrev contract : String
contract = "c"

abbrev order : ClobOrder
order = record {
  salt = "1";
  maker = "0x02";
  signer = "0x01";
  taker = "0x00";
  token_id = "u";
  maker_amount = "5";
  taker_amount = "10";
  expiration = "0";
  nonce = "0";
  fee_rate_bps = "0";
  side = order_side_buy;
  signature_type = gnosis_safe;
  signature = "";
}

sign_order-IsSigned_example :
    (digest : Bytes) × (sig : EcdsaSignature) × (eip712_hash eth (build_order_typed_data order "c")
      ≡ ok digest)
    × (eth.sign digest 3 ≡ ok sig)
    × ("0xab" ≡ "0x" <> eth.hex (sig.r_s ++ (27 + sig.v) ∷ []))
    × (length (sig.r_s ++ (27 + sig.v) ∷ []) ≡ 65)
unfolding sign_order
sign_order-IsSigned_example = sign_order-IsSigned eth eth-SignsAsDocumented order 3 "c" "0xab" refl

build_order_typed_data_injective_example :
    (contract ≡ contract) × IsSameOrder order (record order { signature = "0x" })
unfolding build_order_typed_data
build_order_typed_data_injective_example =
    build_order_typed_data_injective order (record order { signature = "0x" }) contract contract
      refl
