-- ===== src/Chain/Safe/Signed.antt =====
-- internal/exchange/polymarket/blockchain.go and redeem.go: whose signatures the packed call carries.
use Prim.Native.String.{compare}
use mathlib.Core.List.{Perm}
use mathlib.Core.Path.{subst}
use package.text.Mathlib.Text.{is_lt}
use polymarket_go_bot.Prelude.{
  ℕ, ◌+◌, Bool, false, Option, none, some, str_eq, if◌then◌else◌, ap, ◌*◌, String, ◌≡◌, refl, sym,
  ◌∙◌, List, [], ◌∷◌, ◌++◌, length, length-append, arith,
}
use polymarket_go_bot.Prelude.Int.{pos}
use polymarket_go_bot.Prelude.Fallible.{ok, >>=-ok, ok-injective}
use polymarket_go_bot.Prelude.Bytes.{Bytes, append_nil, append_assoc}
use polymarket_go_bot.Exchange.Signing.{
  TypedData, Value, text, integer, bytes, EcdsaSignature, Ethereum, adjusted, eip712_hash,
}
use polymarket_go_bot.Exchange.Signing.Covers.{SignsAsDocumented, adjusted_lem}
use polymarket_go_bot.Chain.{trim_prefix}
use polymarket_go_bot.Chain.Safe.{
  OwnerKey, Sort, less_owner, owners_of, Contracts, Redeemer, sign_owners, sign_safe_tx_hash,
  eip712_digest, build_safe_tx_typed_data, prepare_redeem_data, get_safe_nonce, redeem_exec,
}

-- The bytes are those of the owners' signatures of the digest, in their order, each r and
-- s, then 27 plus v.
pub data Signs {K : Type 0} (eth : Ethereum K) (digest : Bytes)
    : List (OwnerKey K) → Bytes → Type 0 where
  nobody : Signs eth digest [] []
  and_then :
      {o : OwnerKey K} {os : List (OwnerKey K)} {rest : Bytes} (sig : EcdsaSignature)
      → eth.sign digest o.key ≡ ok sig
      → Signs eth digest os rest
      → Signs eth digest (o ∷ os) ((sig.r_s ++ (27 + sig.v) ∷ []) ++ rest)

module _ {K : Type 0} (eth : Ethereum K) (documented : SignsAsDocumented eth) where
  sign_owners-Signs :
      (digest : Bytes) (os : List (OwnerKey K)) (front sigs : Bytes)
      → sign_owners eth digest os front ≡ ok sigs
      → (rest : Bytes) × (sigs ≡ front ++ rest) × Signs eth digest os rest
  unfolding sign_owners
  sign_owners-Signs digest [] front sigs h =
      ([], sym (ok-injective h) ∙ sym (append_nil front), nobody)
  sign_owners-Signs digest (o ∷ os) front sigs h =
      let (sig, signed, more) = >>=-ok (eth.sign digest o.key) _ h in
      let (rest, e, all) = sign_owners-Signs digest os (front ++ adjusted sig) sigs more in
      let own = adjusted_lem sig (documented digest o.key sig signed).1 in
      (
        (sig.r_s ++ (27 + sig.v) ∷ []) ++ rest,
        e ∙ append_assoc front (adjusted sig) rest ∙ ap (λ bs. front ++ (bs ++ rest)) own,
        and_then sig signed all,
      )

  length-Signs :
      (digest : Bytes) (os : List (OwnerKey K)) (sigs : Bytes)
      → Signs eth digest os sigs
      → length sigs ≡ 65 * length os
  length-Signs digest [] [] nobody = refl
  length-Signs digest [] (b ∷ bs) h = elim h [ ]
  length-Signs digest (o ∷ os) sigs (and_then {rest = rest} sig signed all) = omega (
    arith,
    length-append (sig.r_s ++ (27 + sig.v) ∷ []) rest,
    length-append sig.r_s ((27 + sig.v) ∷ []),
    length-Signs digest os rest all,
    (documented digest o.key sig signed).0,
  )

-- No element is less than the one before it.
abbrev pub IsAscending : {A : Type 0} → (A → A → Bool) → List A → Type 0
IsAscending less [] = Unit
IsAscending less (x ∷ []) = Unit
IsAscending less (x ∷ y ∷ l) = (less y x ≡ false) × IsAscending less (y ∷ l)

-- What sort.Slice documents, for the comparison of the owners.
abbrev pub SortsAsDocumented : {K : Type 0} → Sort K → Type 0
SortsAsDocumented {K = K} sort =
    (owners : List (OwnerKey K))
    → Perm (sort less_owner owners) owners × IsAscending less_owner (sort less_owner owners)

-- The text of no address is below that of the one before.
abbrev pub AreInOrder : {K : Type 0} → List (OwnerKey K) → Type 0
AreInOrder = IsAscending (λ a b. is_lt (compare a.addr b.addr))

-- The value of a field of a message.
abbrev pub field_of : String → List (String × Value) → Option Value
field_of name [] = none
field_of name ((k, v) ∷ fields) =
    let rest = field_of name fields in if str_eq k name then some v else rest

-- The typed data is the transaction of the Safe that calls the contract with the data, at the nonce,
-- with no value, no refund and no delegate call.
pub record IsSafeTx (safe to : String) (call_data : Bytes) (nonce : ℕ) (td : TypedData)
    : Type 0 where
  pub primary : td.primary_type ≡ "SafeTx"
  pub contract : td.domain.verifying_contract ≡ safe
  pub chain : td.domain.chain_id ≡ pos 137
  pub to_field : field_of "to" td.message ≡ some (text to)
  pub data_field : field_of "data" td.message ≡ some (bytes call_data)
  pub nonce_field : field_of "nonce" td.message ≡ some (integer (pos nonce))
  pub value_field : field_of "value" td.message ≡ some (integer (pos 0))
  pub operation_field : field_of "operation" td.message ≡ some (integer (pos 0))
  pub gas_price_field : field_of "gasPrice" td.message ≡ some (integer (pos 0))

built-IsSafeTx :
    (safe to : String) (call_data : Bytes) (nonce : ℕ)
    → IsSafeTx safe to call_data nonce (build_safe_tx_typed_data safe to call_data nonce)
unfolding build_safe_tx_typed_data
built-IsSafeTx safe to call_data nonce = record {
  primary = refl;
  contract = refl;
  chain = refl;
  to_field = refl;
  data_field = refl;
  nonce_field = refl;
  value_field = refl;
  operation_field = refl;
  gas_price_field = refl;
}

module _ {K : Type 0} (eth : Ethereum K) (sort : Sort K) where
  -- If the library signs as it documents, with 65 bytes of which the last is 0 or 1, and sorts as it
  -- documents: the signatures that are returned for several owners are those of the digest by each of
  -- the owners, in the order of the texts of their addresses, 65 bytes for each: r and s, then 27 plus
  -- v.
  pub sign_safe_tx_hash-Signs :
      SignsAsDocumented eth
      → SortsAsDocumented sort
      → (digest : Bytes) (owners : List (OwnerKey K)) (sigs : Bytes)
      → sign_safe_tx_hash eth sort digest owners ≡ ok sigs
      → (signers : List (OwnerKey K)) × Perm signers owners
        × AreInOrder signers
        × Signs eth digest signers sigs
        × (length sigs ≡ 65 * length signers)
  unfolding sign_safe_tx_hash
  sign_safe_tx_hash-Signs documented sorts digest owners sigs h =
      let signers = sort less_owner owners in
      let (rest, e, all) = sign_owners-Signs eth documented digest signers [] sigs h in
      let all' : Signs eth digest signers sigs = subst (Signs eth digest signers) (sym e) all in
      let (same, ascending) = sorts owners in
      (signers, same, ascending, all', length-Signs eth documented digest signers sigs all')

  module _ (contracts : Contracts K) (c : Redeemer K) where
    -- If the library signs and sorts as it documents, and the call of a redemption is built: it carries
    -- the data packed for redeemPositions of the condition, with the collateral of the configuration,
    -- no parent collection and the index sets 1 and 2, and the signatures of the owners over the hash
    -- of the transaction of the Safe that calls the same contract with just that data, at the nonce
    -- that the Safe has given.
    pub redeem_exec-IsSigned :
        SignsAsDocumented eth
        → SortsAsDocumented sort
        → (condition_id exec : String) → redeem_exec eth sort contracts c condition_id ≡ ok exec
        → let safe = contracts.hex_to_address c.proxy_wallet_address in
          let ctf = contracts.hex_to_address c.condition_token_address in
          (call_data : Bytes) × (nonce : ℕ) × (td : TypedData) × (digest : Bytes) × (signers : List
            (OwnerKey K))
          × (sigs : Bytes) × (contracts.pack_redeem_positions
                (contracts.hex_to_address c.usdce_address)
                (contracts.hex_to_hash
                  "0x0000000000000000000000000000000000000000000000000000000000000000")
                (contracts.hex_to_hash condition_id)
                (1 ∷ 2 ∷ [])
              ≡ ok call_data)
          × (get_safe_nonce contracts safe ≡ ok nonce)
          × IsSafeTx safe ctf call_data nonce td
          × (eip712_hash eth td ≡ ok digest)
          × Perm signers (record { addr = c.owner_address; key = c.priv_key } ∷ [])
          × Signs eth digest signers sigs
          × (contracts.pack_exec_transaction ctf call_data sigs ≡ ok exec)
    unfolding redeem_exec eip712_hash eip712_digest prepare_redeem_data
    redeem_exec-IsSigned documented sorts condition_id exec h =
        let safe = contracts.hex_to_address c.proxy_wallet_address in
        let ctf = contracts.hex_to_address c.condition_token_address in
        let (call_data, prepared, h1) = >>=-ok (prepare_redeem_data contracts c condition_id) _ h in
        let (nonce, given, h2) = >>=-ok (get_safe_nonce contracts safe) _ h1 in
        let td = build_safe_tx_typed_data safe ctf call_data nonce in
        let (digest, hashed, h3) = >>=-ok (eip712_digest eth td) _ h2 in
        let (sigs, signed, h4) = >>=-ok (sign_safe_tx_hash eth sort digest (owners_of c)) _ h3 in
        let (relayer, parsed, packed) =
          >>=-ok (contracts.hex_to_ecdsa (trim_prefix c.private_key "0x")) _ h4 in
        let (signers, same, ascending, all, long) =
          sign_safe_tx_hash-Signs documented sorts digest (owners_of c) sigs signed in
        (
          call_data,
          nonce,
          td,
          digest,
          signers,
          sigs,
          prepared,
          given,
          built-IsSafeTx safe ctf call_data nonce,
          hashed,
          same,
          all,
          packed,
        )
