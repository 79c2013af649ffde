-- ===== src/Exchange/Requests/Tests.antt =====
-- The headers of a request by a concrete key.
use mathlib.Core.List.{
  Perm, Nodup, Nodup-cons, mem-cons, not-mem-nil, Mem, reverse, reverse_perm, Pairwise,
}
use mathlib.Core.Logic.{∥∥₁_elim}
use polymarket_go_bot.Prelude.{
  String, ◌≡◌, ◌≢◌, ◌⊎◌, inl, inr, false, arith, str_eq, str_eq_iff, refl, none, List, ◌∷◌, map,
}
use polymarket_go_bot.Prelude.Int.{ℤ, pos}
use polymarket_go_bot.Prelude.Fallible.{ok}
use polymarket_go_bot.Exchange.Signing.{
  L1Headers, sign_eip712, build_clob_auth_typed_data, generate_l1_headers,
}
use polymarket_go_bot.Exchange.Signing.Tests.{eth}
use polymarket_go_bot.Exchange.Requests.{Header, HeaderMap, set_headers, set_l1_headers, l1_map}
use polymarket_go_bot.Exchange.Requests.Sent.{l1_keys, IsSent, headers_of, set_l1_headers-IsSent}

abbrev canonical : String → String
canonical k = k

abbrev no_headers : Header
no_headers k = none

-- The map is walked from its end.
abbrev pick : HeaderMap → HeaderMap
pick entries = reverse entries

picked : (entries : HeaderMap) → Perm (pick entries) entries
picked entries = reverse_perm entries

abbrev show : ℤ → String
show n = "0"

abbrev l1 : L1Headers
l1 = record {
  poly_address = "0x01";
  poly_signature = "0xab";
  poly_timestamp = "7";
  poly_nonce = pos 0;
}

module _ {ℓ} {A : Type ℓ} where
  not-mem : (a b : A) (l : List A) → a ≢ b → ¬ Mem a l → ¬ Mem a (b ∷ l)
  not-mem a b l other away m = ∥∥₁_elim (mem-cons.0 m) (λ x y. absurd x) λ found. apart found
    where
      apart : (a ≡ b) ⊎ Mem a l → ⊥
      apart (inl same) = other same
      apart (inr later) = away later

differs : (s t : String) → str_eq s t ≡ false → s ≢ t
differs s t h = λ e. absurd (ground (arith, str_eq_iff s t))

distinct : Nodup (map canonical l1_keys)
distinct = Nodup-cons.1 (
  not-mem _ _ _ (differs _ _ refl)
      (not-mem _ _ _ (differs _ _ refl) (not-mem _ _ _ (differs _ _ refl) not-mem-nil)),
  Nodup-cons.1 (
    not-mem _ _ _ (differs _ _ refl) (not-mem _ _ _ (differs _ _ refl) not-mem-nil),
    Nodup-cons.1
        (not-mem _ _ _ (differs _ _ refl) not-mem-nil, Nodup-cons.1 (not-mem-nil, Pairwise.nil)),
  ),
)

set_l1_headers_run :
    set_l1_headers canonical pick show (generate_l1_headers eth "7" 3 none) no_headers
    ≡ ok (set_headers canonical (pick (l1_map show l1)) no_headers)
unfolding set_l1_headers generate_l1_headers
set_l1_headers_run = refl

set_l1_headers-IsSent_example :
    (sig : String) × (sign_eip712 eth (build_clob_auth_typed_data "0x01" "7" (pos 0)) 3 ≡ ok sig)
    × IsSent canonical show
        (headers_of eth "7" 3 none sig)
        (set_headers canonical (pick (l1_map show l1)) no_headers)
set_l1_headers-IsSent_example =
    set_l1_headers-IsSent canonical pick show picked distinct eth "7" 3 none no_headers
      (set_headers canonical (pick (l1_map show l1)) no_headers) set_l1_headers_run
