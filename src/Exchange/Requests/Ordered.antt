-- ===== src/Exchange/Requests/Ordered.antt =====
-- internal/exchange/polymarket/auth.go: that the order in which a map is walked does not matter.
use mathlib.Core.Path.{fun_ext}
use mathlib.Core.Logic.{∥∥₁_elim}
use mathlib.Core.HLevel.{Π_set, hedberg}
use mathlib.Core.Option
use mathlib.Core.Logic.Or
use mathlib.Core.List.{Perm, Permᴰ, Mem, Nodup, Nodup-cons, mem-cons, not-mem-nil}
use mathlib.Core.List.Perm
use polymarket_go_bot.Prelude.{
  String, ◌≡◌, ◌≢◌, refl, sym, ap, ◌∙◌, some, [], ◌∷◌, map, arith, str_eq, str_eq_iff,
  if◌then◌else◌, inl, inr, Bool-cases,
}
use polymarket_go_bot.Exchange.Requests.{Header, HeaderMap, set_header, set_headers, get_header}

String-discrete : Discrete String
String-discrete s t = elim (Bool-cases (str_eq s t)) [
  | inl same ↦ yes ((str_eq_iff s t).0 same)
  | inr other ↦ no (λ e. absurd (ground (arith, str_eq_iff s t)))
]

Header-set : IsSet Header
Header-set = Π_set (λ k. Option.is_set (hedberg String-discrete))

module _ (canonical : String → String) where
  abbrev pub key_of : String × String → String
  key_of (k, v) = canonical k

  -- No two entries have the same canonical key.
  abbrev pub HasDistinctKeys : HeaderMap → Type 0
  HasDistinctKeys entries = Nodup (map key_of entries)

  set_header-set_header :
      (k j v w : String) (h : Header)
      → canonical k ≢ canonical j
      → set_header canonical k v (set_header canonical j w h)
        ≡ set_header canonical j w (set_header canonical k v h)
  unfolding set_header
  set_header-set_header k j v w h other =
      fun_ext λ i. ground (arith, str_eq_iff (canonical k) i, str_eq_iff (canonical j) i)

  first-ne-second :
      (a b : String × String) (entries : HeaderMap)
      → HasDistinctKeys (a ∷ b ∷ entries)
      → key_of b ≢ key_of a
  first-ne-second a b entries u same = (Nodup-cons.0 u).0 (mem-cons.1 ∣ inl (sym same) ∣₁)

  permᴰ :
      {xs ys : HeaderMap}
      → Permᴰ xs ys
      → HasDistinctKeys xs
      → (h : Header) → set_headers canonical xs h ≡ set_headers canonical ys h
  unfolding set_headers
  permᴰ Permᴰ.nil u h = refl
  permᴰ (Permᴰ.cons {a} {b} {l₁} {l₂} e p) u h =
      permᴰ p (Nodup-cons.0 u).1 (set_header canonical a.0 a.1 h)
      ∙ ap (λ (x : String × String). set_headers canonical l₂ (set_header canonical x.0 x.1 h)) e
  permᴰ (Permᴰ.swap {a} {b} {a'} {b'} {l} e e') u h = ap (set_headers canonical l) (
      set_header-set_header b.0 a.0 b.1 a.1 h (first-ne-second a b l u)
      ∙ ap (λ (x : String × String). set_header canonical x.0 x.1 (set_header canonical b.0 b.1 h))
          e
      ∙ ap
          (λ (x : String × String). set_header canonical b'.0 b'.1 (set_header canonical x.0 x.1 h))
          e')
  permᴰ (Permᴰ.trans p q) u h = permᴰ p u h ∙ permᴰ q (Perm.nodup (Perm.map key_of ∣ p ∣₁) u) h

  -- The headers that a request gets do not depend on the order in which a map is walked, if no two of
  -- its keys have one canonical form.
  pub set_headers-perm :
      (xs ys : HeaderMap) (h : Header)
      → Perm xs ys
      → HasDistinctKeys xs
      → set_headers canonical xs h ≡ set_headers canonical ys h
  set_headers-perm xs ys h p u = ∥∥₁_elim p (Header-set _ _) (λ q. permᴰ q u h)

  get_header-set_headers_other :
      (k : String) (entries : HeaderMap) (h : Header)
      → ¬ Mem (canonical k) (map key_of entries)
      → get_header canonical k (set_headers canonical entries h) ≡ get_header canonical k h
  unfolding set_headers get_header set_header
  get_header-set_headers_other k [] h away = refl
  get_header-set_headers_other k ((j, v) ∷ entries) h away =
      get_header-set_headers_other k entries (set_header canonical j v h)
        (λ m. away (mem-cons.1 ∣ inr m ∣₁))
      ∙ other (λ e. away (mem-cons.1 ∣ inl (sym e) ∣₁))
    where
      other :
          canonical j ≢ canonical k
          → (if str_eq (canonical j) (canonical k) then some v else h (canonical k))
            ≡ h (canonical k)
      other ne = ground (arith, str_eq_iff (canonical j) (canonical k))

  -- What the header holds after the loop: of a key in the map its value, of others what it held.
  pub get_header-set_headers :
      (k v : String) (entries : HeaderMap) (h : Header)
      → HasDistinctKeys entries
      → Mem (k, v) entries
      → get_header canonical k (set_headers canonical entries h) ≡ some v
  unfolding set_headers get_header set_header
  get_header-set_headers k v [] h u m = absurd (not-mem-nil m)
  get_header-set_headers k v ((j, w) ∷ entries) h u m =
      Or.elim (Option.is_set (hedberg String-discrete) _ _) (mem-cons.0 m) (λ e. first_of e)
        (λ later.
          get_header-set_headers k v entries (set_header canonical j w h) (Nodup-cons.0 u).1 later)
    where
      first_of :
          ◌≡◌ {A = String × String} (k, v) (j, w)
          → get_header canonical k (set_headers canonical entries (set_header canonical j w h))
            ≡ some v
      first_of e =
          ap
            (λ (x : String).
              get_header canonical x (set_headers canonical entries (set_header canonical j w h)))
            (ap (λ x. x.0) e)
          ∙ get_header-set_headers_other j entries (set_header canonical j w h) (Nodup-cons.0 u).0
          ∙ own
          ∙ ap some (sym (ap (λ x. x.1) e))
        where
          own : get_header canonical j (set_header canonical j w h) ≡ some w
          own = ground (arith, str_eq_iff (canonical j) (canonical j))
