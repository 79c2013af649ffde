-- ===== src/Chain/Safe/Tests.antt =====
-- The call of a redemption at concrete answers.
use mathlib.Core.List.{Perm}
use polymarket_go_bot.Prelude.{ℕ, ◌*◌, ◌≡◌, refl, List, [], ◌∷◌, ◌++◌, length}
use polymarket_go_bot.Prelude.Fallible.{ok}
use polymarket_go_bot.Prelude.Bytes.{Bytes}
use polymarket_go_bot.Exchange.Signing.{TypedData, eip712_hash, adjusted}
use polymarket_go_bot.Exchange.Signing.Tests.{eth, eth-SignsAsDocumented, zero_signature}
use polymarket_go_bot.Chain.Safe.{
  OwnerKey, less_owner, Contracts, Redeemer, sign_safe_tx_hash, get_safe_nonce, redeem_exec,
}
use polymarket_go_bot.Chain.Safe.Sorted.{sort, sort-SortsAsDocumented}
use polymarket_go_bot.Chain.Safe.Signed.{
  AreInOrder, IsSafeTx, Signs, sign_safe_tx_hash-Signs, redeem_exec-IsSigned,
}

abbrev two_owners : List (OwnerKey ℕ)
two_owners = record { addr = "0x02"; key = 2 } ∷ record { addr = "0x01"; key = 1 } ∷ []

abbrev two_signatures : Bytes
two_signatures = adjusted zero_signature ++ adjusted zero_signature

sign_safe_tx_hash-Signs_example :
    (signers : List (OwnerKey ℕ)) × Perm signers two_owners
    × AreInOrder signers
    × Signs eth (1 ∷ []) signers two_signatures
    × (length two_signatures ≡ 65 * length signers)
unfolding sign_safe_tx_hash
sign_safe_tx_hash-Signs_example =
    sign_safe_tx_hash-Signs eth sort eth-SignsAsDocumented sort-SortsAsDocumented (1 ∷ [])
      two_owners two_signatures refl

-- The owner with the lower address comes first.
sort_run :
    sort less_owner two_owners
    ≡ record { addr = "0x01"; key = 1 } ∷ record { addr = "0x02"; key = 2 } ∷ []
sort_run = refl

abbrev contracts : Contracts ℕ
contracts = record {
  pack_redeem_positions = λ collateral parent condition sets. ok sets;
  pack_exec_transaction = λ to call_data signatures. ok to;
  pack_nonce = ok [];
  call_contract = λ to call_data. ok (4 ∷ []);
  unpack_nonce = λ out. ok 4;
  hex_to_address = λ s. s;
  hex_to_hash = λ s. s;
  hex_to_ecdsa = λ s. ok 9;
}

abbrev redeemer : Redeemer ℕ
redeemer = record {
  proxy_wallet_address = "0x0a";
  condition_token_address = "0x0b";
  usdce_address = "0x0c";
  private_key = "0x09";
  owner_address = "0x01";
  priv_key = 9;
}

redeem_exec-IsSigned_example :
    (call_data : Bytes) × (nonce : ℕ) × (td : TypedData) × (digest : Bytes) × (signers : List
      (OwnerKey ℕ))
    × (sigs : Bytes) × (contracts.pack_redeem_positions "0x0c"
          "0x0000000000000000000000000000000000000000000000000000000000000000" "0x0d"
          (1 ∷ 2 ∷ [])
        ≡ ok call_data)
    × (get_safe_nonce contracts "0x0a" ≡ ok nonce)
    × IsSafeTx "0x0a" "0x0b" call_data nonce td
    × (eip712_hash eth td ≡ ok digest)
    × Perm signers (record { addr = "0x01"; key = 9 } ∷ [])
    × Signs eth digest signers sigs
    × (contracts.pack_exec_transaction "0x0b" call_data sigs ≡ ok "0x0b")
unfolding redeem_exec
redeem_exec-IsSigned_example =
    redeem_exec-IsSigned eth sort contracts redeemer eth-SignsAsDocumented sort-SortsAsDocumented
      "0x0d" "0x0b" refl
