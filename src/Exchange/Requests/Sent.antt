-- ===== src/Exchange/Requests/Sent.antt =====
-- internal/exchange/polymarket/auth.go: what a request carries after SetL1Headers.
use mathlib.Core.Path.{subst}
use mathlib.Core.List.{Perm, Mem, Nodup, mem-cons, mem-cons_self}
use mathlib.Core.List.Perm
use polymarket_go_bot.Prelude.{String, ◌≡◌, sym, Option, some, List, [], ◌∷◌, map, inr}
use polymarket_go_bot.Prelude.Int.{ℤ}
use polymarket_go_bot.Prelude.Fallible.{ok, >>=-ok, ok-injective}
use polymarket_go_bot.Exchange.Signing.{
  Ethereum, L1Headers, sign_eip712, build_clob_auth_typed_data, nonce_or_zero, generate_l1_headers,
}
use polymarket_go_bot.Exchange.Requests.{
  Header, HeaderMap, set_headers, get_header, l1_map, set_l1_headers,
}
use polymarket_go_bot.Exchange.Requests.Ordered.{set_headers-perm, get_header-set_headers}

abbrev pub l1_keys : List String
l1_keys = "POLY_ADDRESS" ∷ "POLY_SIGNATURE" ∷ "POLY_TIMESTAMP" ∷ "POLY_NONCE" ∷ []

-- The four headers of the first level, as the request holds them.
pub record IsSent (canonical : String → String) (show : ℤ → String) (h : L1Headers) (after : Header)
    : Type 0 where
  pub address : get_header canonical "POLY_ADDRESS" after ≡ some h.poly_address
  pub signature : get_header canonical "POLY_SIGNATURE" after ≡ some h.poly_signature
  pub timestamp : get_header canonical "POLY_TIMESTAMP" after ≡ some h.poly_timestamp
  pub nonce : get_header canonical "POLY_NONCE" after ≡ some (show h.poly_nonce)

abbrev pub headers_of :
    {K : Type 0} → Ethereum K → (timestamp : String) → K → Option ℤ → String → L1Headers
headers_of eth timestamp pk nonce sig = record {
  poly_address = eth.address_of pk;
  poly_signature = sig;
  poly_timestamp = timestamp;
  poly_nonce = nonce_or_zero eth nonce;
}

there {ℓ} : {A : Type ℓ} (a b : A) (l : List A) → Mem a l → Mem a (b ∷ l)
there a b l m = mem-cons.1 ∣ inr m ∣₁

module _ (canonical : String → String) (pick : HeaderMap → HeaderMap) (show : ℤ → String)
    (picked : (entries : HeaderMap) → Perm (pick entries) entries)
    (distinct : Nodup (map canonical l1_keys)) where
  set_headers-IsSent :
      (h : L1Headers) (header : Header)
      → IsSent canonical show h (set_headers canonical (pick (l1_map show h)) header)
  set_headers-IsSent h header =
      rw
        (sym (
          set_headers-perm canonical (l1_map show h) (pick (l1_map show h)) header
            (Perm.symm (picked (l1_map show h))) distinct))
        (record {
          address =
              get_header-set_headers canonical "POLY_ADDRESS" h.poly_address (l1_map show h) header
                distinct mem-cons_self;
          signature =
              get_header-set_headers canonical "POLY_SIGNATURE" h.poly_signature (l1_map show h)
                header distinct (there _ _ _ mem-cons_self);
          timestamp =
              get_header-set_headers canonical "POLY_TIMESTAMP" h.poly_timestamp (l1_map show h)
                header distinct (there _ _ _ (there _ _ _ mem-cons_self));
          nonce =
              get_header-set_headers canonical "POLY_NONCE" (show h.poly_nonce) (l1_map show h)
                header distinct (there _ _ _ (there _ _ _ (there _ _ _ mem-cons_self)));
        })

  module _ {K : Type 0} (eth : Ethereum K) where
    -- In whatever order the map is walked, if no two of the four keys have one canonical form: where
    -- SetL1Headers succeeds, the request carries the address of the key, the time, the nonce (0 if
    -- none is given), and the key's signature of the typed data of just these three.
    pub set_l1_headers-IsSent :
        (timestamp : String) (pk : K) (nonce : Option ℤ) (header after : Header)
        → set_l1_headers canonical pick show (generate_l1_headers eth timestamp pk nonce) header
          ≡ ok after
        → (sig : String) × (sign_eip712 eth
              (build_clob_auth_typed_data (eth.address_of pk) timestamp (nonce_or_zero eth nonce))
              pk
            ≡ ok sig)
          × IsSent canonical show (headers_of eth timestamp pk nonce sig) after
    unfolding set_l1_headers generate_l1_headers
    set_l1_headers-IsSent timestamp pk nonce header after done =
        let (h, built, set) = >>=-ok (generate_l1_headers eth timestamp pk nonce) _ done in
        let (sig, signed, made) =
          >>=-ok
            (sign_eip712 eth
              (build_clob_auth_typed_data (eth.address_of pk) timestamp (nonce_or_zero eth nonce))
              pk)
            _ built in
        (
          sig,
          signed,
          subst (IsSent canonical show (headers_of eth timestamp pk nonce sig)) (ok-injective set) (
              subst
                (λ x.
                  IsSent canonical show (headers_of eth timestamp pk nonce sig)
                    (set_headers canonical (pick (l1_map show x)) header))
                (ok-injective made)
                (set_headers-IsSent (headers_of eth timestamp pk nonce sig) header)),
        )
