-- ===== src/Exchange/Signing.antt =====
-- internal/exchange/polymarket/auth.go: the typed data of EIP-712 and its signature, and the headers of
-- the first level. go-ethereum's hashes, keys and signature are parameters.
pub mod Covers
pub mod Tests
use Prim.Native.String.{◌++◌ as ◌<>◌}
use polymarket_go_bot.Prelude.{
  ℕ, ◌+◌, ◌%◌, ◌^◌, String, Bool, true, false, Option, none, some, List, [], ◌∷◌, ◌++◌, ltb,
  if◌then◌else◌,
}
use polymarket_go_bot.Prelude.Int.{ℤ, pos}
use polymarket_go_bot.Prelude.Fallible.{Fallible, ok, fails, ◌>>=◌}
use polymarket_go_bot.Prelude.Bytes.{Bytes}
use polymarket_go_bot.Exchange.{ClobOrder, SignatureType, eoa, poly_proxy, gnosis_safe, to_int}

-- apitypes.Type
pub record FieldType : Type 0 where
  pub name : String
  pub kind : String

-- A value of a message: `integer` stands for its decimal text.
pub data Value : Type 0 where
  text : String → Value
  integer : ℤ → Value
  bytes : Bytes → Value

-- apitypes.TypedDataDomain, of which `Map` leaves out what is empty.
pub record TypedDataDomain : Type 0 where
  pub domain_name : String
  pub version : String
  pub chain_id : ℤ
  pub verifying_contract : String

pub record TypedData : Type 0 where
  pub types : List (String × List FieldType)
  pub primary_type : String
  pub domain : TypedDataDomain
  pub message : List (String × Value)

abbrev pub field_type : String → String → FieldType
field_type name kind = record { name = name; kind = kind }

abbrev pub poly_chain_id : ℤ
poly_chain_id = pos 137

unfoldable pub build_clob_auth_typed_data : (addr timestamp : String) (nonce : ℤ) → TypedData
build_clob_auth_typed_data addr timestamp nonce = record {
  types =
      (
        "EIP712Domain",
        field_type "name" "string"
            ∷ field_type "version" "string"
            ∷ field_type "chainId" "uint256"
            ∷ [],
      )
      ∷ (
        "ClobAuth",
        field_type "address" "address"
            ∷ field_type "timestamp" "string"
            ∷ field_type "nonce" "uint256"
            ∷ field_type "message" "string"
            ∷ [],
      )
      ∷ [];
  primary_type = "ClobAuth";
  domain = record {
    domain_name = "ClobAuthDomain";
    version = "1";
    chain_id = poly_chain_id;
    verifying_contract = "";
  };
  message =
      ("address", text addr)
      ∷ ("timestamp", text timestamp)
      ∷ ("nonce", integer nonce)
      ∷ ("message", text "This message attests that I control the given wallet")
      ∷ [];
}

-- The constants of SignatureType.
abbrev pub signature_number : SignatureType → ℕ
signature_number eoa = 0
signature_number poly_proxy = 1
signature_number gnosis_safe = 2

unfoldable pub build_order_typed_data : ClobOrder → (verifying_contract : String) → TypedData
build_order_typed_data order verifying_contract = record {
  types =
      (
        "EIP712Domain",
        field_type "name" "string"
            ∷ field_type "version" "string"
            ∷ field_type "chainId" "uint256"
            ∷ field_type "verifyingContract" "address"
            ∷ [],
      )
      ∷ (
        "Order",
        field_type "salt" "uint256"
            ∷ field_type "maker" "address"
            ∷ field_type "signer" "address"
            ∷ field_type "taker" "address"
            ∷ field_type "tokenId" "uint256"
            ∷ field_type "makerAmount" "uint256"
            ∷ field_type "takerAmount" "uint256"
            ∷ field_type "expiration" "uint256"
            ∷ field_type "nonce" "uint256"
            ∷ field_type "feeRateBps" "uint256"
            ∷ field_type "side" "uint8"
            ∷ field_type "signatureType" "uint8"
            ∷ [],
      )
      ∷ [];
  primary_type = "Order";
  domain = record {
    domain_name = "Polymarket CTF Exchange";
    version = "1";
    chain_id = poly_chain_id;
    verifying_contract = verifying_contract;
  };
  message =
      ("salt", text order.salt)
      ∷ ("maker", text order.maker)
      ∷ ("signer", text order.signer)
      ∷ ("taker", text order.taker)
      ∷ ("tokenId", text order.token_id)
      ∷ ("makerAmount", text order.maker_amount)
      ∷ ("takerAmount", text order.taker_amount)
      ∷ ("expiration", text order.expiration)
      ∷ ("nonce", text order.nonce)
      ∷ ("feeRateBps", text order.fee_rate_bps)
      ∷ ("side", integer (pos (to_int order.side)))
      ∷ ("signatureType", integer (pos (signature_number order.signature_type)))
      ∷ [];
}

-- The 65 bytes of crypto.Sign: r and s, then v.
pub record EcdsaSignature : Type 0 where
  pub r_s : Bytes
  pub v : ℕ

-- go-ethereum: HashStruct of the domain and of the message, Keccak256, Sign, PubkeyToAddress with Hex;
-- and EncodeToString of encoding/hex. `K` is a private key.
pub record Ethereum (K : Type 0) : Type 0 where
  pub hash_domain : TypedData → Fallible Bytes
  pub hash_message : TypedData → Fallible Bytes
  pub keccak256 : Bytes → Bytes
  pub sign : Bytes → K → Fallible EcdsaSignature
  pub address_of : K → String
  pub hex : Bytes → String

-- v as 27 or 28, in a byte.
abbrev pub adjusted : EcdsaSignature → Bytes
adjusted sig = sig.r_s ++ (if ltb sig.v 27 then (sig.v + 27) % 2 ^ 8 else sig.v) ∷ []

-- The headers of the first level.
pub record L1Headers : Type 0 where
  pub poly_address : String
  pub poly_signature : String
  pub poly_timestamp : String
  pub poly_nonce : ℤ

module _ {K : Type 0} (eth : Ethereum K) where
  unfoldable pub eip712_hash : TypedData → Fallible Bytes
  eip712_hash typed_data = eth.hash_domain typed_data >>= λ domain_separator.
      eth.hash_message typed_data >>= λ msg_hash.
      ok (eth.keccak256 (0x19 ∷ 0x01 ∷ domain_separator ++ msg_hash))

  unfoldable pub sign_eip712 : TypedData → K → Fallible String
  unfolding eip712_hash
  sign_eip712 typed_data pk = eip712_hash typed_data >>= λ digest.
      eth.sign digest pk >>= λ sig. ok ("0x" <> eth.hex (adjusted sig))

  unfoldable pub sign_order : ClobOrder → K → (verifying_contract : String) → Fallible String
  unfolding build_order_typed_data sign_eip712
  sign_order order pk verifying_contract =
      sign_eip712 (build_order_typed_data order verifying_contract) pk

  abbrev pub nonce_or_zero : Option ℤ → ℤ
  nonce_or_zero none = pos 0
  nonce_or_zero (some n) = n

  -- `timestamp` is the text of the Unix time.
  unfoldable pub generate_l1_headers : (timestamp : String) → K → Option ℤ → Fallible L1Headers
  unfolding build_clob_auth_typed_data sign_eip712
  generate_l1_headers timestamp pk nonce =
      sign_eip712 (build_clob_auth_typed_data (eth.address_of pk) timestamp (nonce_or_zero nonce))
        pk
      >>= λ sig. ok (record {
        poly_address = eth.address_of pk;
        poly_signature = sig;
        poly_timestamp = timestamp;
        poly_nonce = nonce_or_zero nonce;
      })
