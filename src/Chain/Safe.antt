-- ===== src/Chain/Safe.antt =====
-- internal/exchange/polymarket/blockchain.go and redeem.go: the call of a redemption through a Gnosis
-- Safe, from the ABI's data to the packed call. The ABI and the node are parameters, as are
-- go-ethereum's hashes and keys. An address is the text that Hex gives.
pub mod Signed
pub mod Sorted
pub mod Tests
use Prim.Native.String.{compare}
use package.text.Mathlib.Text.{is_lt}
use polymarket_go_bot.Prelude.{ℕ, Bool, String, List, [], ◌∷◌, ◌++◌}
use polymarket_go_bot.Prelude.Int.{pos}
use polymarket_go_bot.Prelude.Fallible.{Fallible, ok, ◌>>=◌}
use polymarket_go_bot.Prelude.Bytes.{Bytes}
use polymarket_go_bot.Exchange.Signing.{
  TypedData, field_type, text, integer, bytes, Ethereum, adjusted, poly_chain_id,
}
use polymarket_go_bot.Chain.{trim_prefix}

pub record OwnerKey (K : Type 0) : Type 0 where
  pub addr : String
  pub key : K

-- The two contracts' calls that are packed, CallContract, the answer to `nonce` unpacked, HexToAddress,
-- HexToHash and HexToECDSA.
pub record Contracts (K : Type 0) : Type 0 where
  pub pack_redeem_positions :
      (collateral parent_collection condition : String) → List ℕ → Fallible Bytes
  pub pack_exec_transaction : (to : String) → (call_data signatures : Bytes) → Fallible String
  pub pack_nonce : Fallible Bytes
  pub call_contract : (to : String) → Bytes → Fallible Bytes
  pub unpack_nonce : Bytes → Fallible ℕ
  pub hex_to_address : String → String
  pub hex_to_hash : String → String
  pub hex_to_ecdsa : String → Fallible K

-- The fields of Client that a redemption reads.
pub record Redeemer (K : Type 0) : Type 0 where
  pub proxy_wallet_address : String
  pub condition_token_address : String
  pub usdce_address : String
  pub private_key : String
  pub owner_address : String
  pub priv_key : K

abbrev pub zero_address : String
zero_address = "0x0000000000000000000000000000000000000000"

abbrev parent_collection_id : String
parent_collection_id = "0x0000000000000000000000000000000000000000000000000000000000000000"

unfoldable pub get_safe_nonce : {K : Type 0} → Contracts K → (safe_addr : String) → Fallible ℕ
get_safe_nonce contracts safe_addr = contracts.pack_nonce >>= λ nonce_call.
    contracts.call_contract safe_addr nonce_call >>= λ out. contracts.unpack_nonce out

unfoldable pub build_safe_tx_typed_data :
    (safe_addr to : String) → (call_data : Bytes) → (nonce : ℕ) → TypedData
build_safe_tx_typed_data safe_addr to call_data nonce = record {
  types =
      (
        "EIP712Domain",
        field_type "chainId" "uint256" ∷ field_type "verifyingContract" "address" ∷ [],
      )
      ∷ (
        "SafeTx",
        field_type "to" "address"
            ∷ field_type "value" "uint256"
            ∷ field_type "data" "bytes"
            ∷ field_type "operation" "uint8"
            ∷ field_type "safeTxGas" "uint256"
            ∷ field_type "baseGas" "uint256"
            ∷ field_type "gasPrice" "uint256"
            ∷ field_type "gasToken" "address"
            ∷ field_type "refundReceiver" "address"
            ∷ field_type "nonce" "uint256"
            ∷ [],
      )
      ∷ [];
  primary_type = "SafeTx";
  domain = record {
    domain_name = "";
    version = "";
    chain_id = poly_chain_id;
    verifying_contract = safe_addr;
  };
  message =
      ("to", text to)
      ∷ ("value", integer (pos 0))
      ∷ ("data", bytes call_data)
      ∷ ("operation", integer (pos 0))
      ∷ ("safeTxGas", integer (pos 0))
      ∷ ("baseGas", integer (pos 0))
      ∷ ("gasPrice", integer (pos 0))
      ∷ ("gasToken", text zero_address)
      ∷ ("refundReceiver", text zero_address)
      ∷ ("nonce", integer (pos nonce))
      ∷ [];
}

-- The comparison that sort.Slice is given: the texts of the addresses, byte by byte.
abbrev pub less_owner : {K : Type 0} → OwnerKey K → OwnerKey K → Bool
less_owner a b = is_lt (compare a.addr b.addr)

-- sort.Slice, by a comparison.
abbrev pub Sort : Type 0 → Type 0
Sort K = (OwnerKey K → OwnerKey K → Bool) → List (OwnerKey K) → List (OwnerKey K)

module _ {K : Type 0} (eth : Ethereum K) where
  -- The loop over the owners, with the signatures so far.
  unfoldable pub sign_owners : Bytes → List (OwnerKey K) → Bytes → Fallible Bytes
  sign_owners safe_tx_hash [] sigs = ok sigs
  sign_owners safe_tx_hash (o ∷ os) sigs =
      eth.sign safe_tx_hash o.key >>= λ sig. sign_owners safe_tx_hash os (sigs ++ adjusted sig)

  unfoldable pub sign_safe_tx_hash : Sort K → Bytes → List (OwnerKey K) → Fallible Bytes
  unfolding sign_owners
  sign_safe_tx_hash sort safe_tx_hash owners = sign_owners safe_tx_hash (sort less_owner owners) []

  -- The same as eip712_hash of Exchange/Signing, in redeem.go.
  unfoldable pub eip712_digest : TypedData → Fallible Bytes
  eip712_digest td = eth.hash_domain td >>= λ domain_separator. eth.hash_message td >>= λ msg_hash.
      ok (eth.keccak256 (0x19 ∷ 0x01 ∷ domain_separator ++ msg_hash))

unfoldable pub prepare_redeem_data :
    {K : Type 0} → Contracts K → Redeemer K → (condition_id : String) → Fallible Bytes
prepare_redeem_data contracts c condition_id =
    contracts.pack_redeem_positions (contracts.hex_to_address c.usdce_address)
      (contracts.hex_to_hash parent_collection_id) (contracts.hex_to_hash condition_id) (1 ∷ 2 ∷ [])

abbrev pub owners_of : {K : Type 0} → Redeemer K → List (OwnerKey K)
owners_of c = record { addr = c.owner_address; key = c.priv_key } ∷ []

-- The start of Client.Redeem, and of executeSafeTransaction up to its loop.
unfoldable pub redeem_exec :
    {K : Type 0}
    → Ethereum K
    → Sort K
    → Contracts K
    → Redeemer K
    → (condition_id : String) → Fallible String
unfolding prepare_redeem_data get_safe_nonce build_safe_tx_typed_data eip712_digest
    sign_safe_tx_hash
redeem_exec eth sort contracts c condition_id =
    prepare_redeem_data contracts c condition_id >>= λ redeem_data.
    (let safe_addr = contracts.hex_to_address c.proxy_wallet_address in
      get_safe_nonce contracts safe_addr >>= λ safe_nonce.
      (let ctf_addr = contracts.hex_to_address c.condition_token_address in
        eip712_digest eth (build_safe_tx_typed_data safe_addr ctf_addr redeem_data safe_nonce)
        >>= λ safe_tx_hash. sign_safe_tx_hash eth sort safe_tx_hash (owners_of c) >>= λ signatures.
            contracts.hex_to_ecdsa (trim_prefix c.private_key "0x") >>= λ relayer_key.
            contracts.pack_exec_transaction ctf_addr redeem_data signatures))
