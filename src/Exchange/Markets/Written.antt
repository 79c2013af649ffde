-- ===== src/Exchange/Markets/Written.antt =====
-- internal/exchange/polymarket/client.go: a list of texts is read as it was written.
use polymarket_go_bot.Prelude.{
  Option, some, ◌≢◌, ◌⊎◌, ℕ, String, ◌≡◌, refl, sym, ap, ◌∙◌, Bool, true, false, none, List, [],
  ◌∷◌, ◌++◌, length, All, arith, ◌==◌, Bool-cases, inl, inr,
}
use polymarket_go_bot.Model.{Market, planned}
use polymarket_go_bot.Prelude.Bytes.{Bytes, append_nil, append_assoc}
use polymarket_go_bot.Exchange.Markets.{
  trim, trim_right, cut_last, is_bracket, remove_quotes, split_from, prepend, read_list,
  EventMarket, listed_market, read_market,
}

-- The list as JSON writes it, if no text has a byte that is escaped.
abbrev quoted : Bytes → Bytes
quoted s = b'"' ∷ s ++ b'"' ∷ []

abbrev write_items : Bytes → List Bytes → Bytes
write_items s [] = quoted s
write_items s (t ∷ ts) = quoted s ++ b',' ∷ b' ' ∷ write_items t ts

abbrev pub write_list : Bytes → List Bytes → Bytes
write_list s ts = b'[' ∷ write_items s ts ++ b']' ∷ []

abbrev join_items : Bytes → List Bytes → Bytes
join_items s [] = s
join_items s (t ∷ ts) = s ++ b',' ∷ b' ' ∷ join_items t ts

-- Neither a quote nor a comma.
abbrev IsPlainByte : ℕ → Type 0
IsPlainByte x = ((x == b'"') ≡ false) × ((x == b',') ≡ false)

abbrev pub IsPlain : Bytes → Type 0
IsPlain s = All IsPlainByte s

-- What stands before a byte that stays is not cut.
trim_right_stays :
    (cut : ℕ → Bool) (s : Bytes) (x : ℕ)
    → cut x ≡ false
    → trim_right cut (s ++ x ∷ []) ≡ s ++ x ∷ []
unfolding trim_right
trim_right_stays cut [] x h = rw h refl
trim_right_stays cut (y ∷ s) x h = ap (cut_last cut y) (trim_right_stays cut s x h) ∙ kept s
  where
    kept : (s : Bytes) → cut_last cut y (s ++ x ∷ []) ≡ y ∷ s ++ x ∷ []
    kept [] = refl
    kept (z ∷ s) = refl

trim_right_cut :
    (cut : ℕ → Bool) (s : Bytes) (x : ℕ)
    → cut x ≡ true
    → trim_right cut (s ++ x ∷ []) ≡ trim_right cut s
unfolding trim_right
trim_right_cut cut [] x h = rw h refl
trim_right_cut cut (y ∷ s) x h = ap (cut_last cut y) (trim_right_cut cut s x h)

-- The items end in a quote, and begin with one.
ends_quoted :
    (s : Bytes) (ts : List Bytes) → (front : Bytes) × (write_items s ts ≡ b'"' ∷ front ++ b'"' ∷ [])
ends_quoted s [] = (s, refl)
ends_quoted s (t ∷ ts) =
    let (front, e) = ends_quoted t ts in
    (
      s ++ b'"' ∷ b',' ∷ b' ' ∷ b'"' ∷ front,
      ap (λ k. b'"' ∷ k)
          (append_assoc s (b'"' ∷ []) (b',' ∷ b' ' ∷ write_items t ts)
            ∙ ap (λ k. s ++ b'"' ∷ b',' ∷ b' ' ∷ k) e
            ∙ sym (append_assoc s (b'"' ∷ b',' ∷ b' ' ∷ b'"' ∷ front) (b'"' ∷ []))),
    )

trim_write : (s : Bytes) (ts : List Bytes) → trim is_bracket (write_list s ts) ≡ write_items s ts
unfolding trim
trim_write s ts = go (write_items s ts) (ends_quoted s ts)
  where
    go :
        (w : Bytes)
        → (front : Bytes) × (w ≡ b'"' ∷ front ++ b'"' ∷ [])
        → trim is_bracket (b'[' ∷ w ++ b']' ∷ []) ≡ w
    go w (front, e) = rw e (
        trim_right_cut is_bracket (b'"' ∷ front ++ b'"' ∷ []) b']' refl
        ∙ trim_right_stays is_bracket (b'"' ∷ front) b'"' refl)

remove_quotes-append : (s t : Bytes) → remove_quotes (s ++ t) ≡ remove_quotes s ++ remove_quotes t
unfolding remove_quotes
remove_quotes-append [] t = refl
remove_quotes-append (x ∷ s) t = elim (Bool-cases (x == b'"')) [
  | inl hit ↦ rw hit (remove_quotes-append s t)
  | inr miss ↦ rw miss (ap (λ k. x ∷ k) (remove_quotes-append s t))
]

remove_quotes_plain : (s : Bytes) → IsPlain s → remove_quotes s ≡ s
unfolding remove_quotes
remove_quotes_plain [] h = refl
remove_quotes_plain (x ∷ s) ((q, c), h) = rw q (ap (λ k. x ∷ k) (remove_quotes_plain s h))

remove_quotes-quoted :
    (s t : Bytes) → IsPlain s → remove_quotes (quoted s ++ t) ≡ s ++ remove_quotes t
unfolding remove_quotes
remove_quotes-quoted s t h =
    ap remove_quotes (append_assoc s (b'"' ∷ []) t)
    ∙ remove_quotes-append s (b'"' ∷ t)
    ∙ ap (λ k. k ++ remove_quotes t) (remove_quotes_plain s h)

remove_quotes-write :
    (s : Bytes) (ts : List Bytes)
    → IsPlain s
    → All IsPlain ts
    → remove_quotes (write_items s ts) ≡ join_items s ts
unfolding remove_quotes
remove_quotes-write s [] h hs =
    remove_quotes-append s (b'"' ∷ []) ∙ ap (λ k. k ++ []) (remove_quotes_plain s h) ∙ append_nil s
remove_quotes-write s (t ∷ ts) h (k, ks) =
    remove_quotes-quoted s (b',' ∷ b' ' ∷ write_items t ts) h
    ∙ ap (λ w. s ++ b',' ∷ b' ' ∷ w) (remove_quotes-write t ts k ks)

abbrev prepend_all : Bytes → List Bytes → List Bytes
prepend_all [] ps = ps
prepend_all (x ∷ s) ps = prepend x (prepend_all s ps)

prepend_all_lem : (s p : Bytes) (ps : List Bytes) → prepend_all s (p ∷ ps) ≡ (s ++ p) ∷ ps
prepend_all_lem [] p ps = refl
prepend_all_lem (x ∷ s) p ps = ap (prepend x) (prepend_all_lem s p ps)

split_from_plain :
    (s rest : Bytes)
    → IsPlain s
    → split_from false (s ++ rest) ≡ prepend_all s (split_from false rest)
unfolding split_from
split_from_plain [] rest h = refl
split_from_plain (x ∷ s) rest ((q, c), h) = rw c (ap (prepend x) (split_from_plain s rest h))

split_from-join :
    (s : Bytes) (ts : List Bytes)
    → IsPlain s
    → All IsPlain ts
    → split_from false (join_items s ts) ≡ s ∷ ts
unfolding split_from
split_from-join s [] h hs =
    ap (split_from false) (sym (append_nil s))
    ∙ split_from_plain s [] h
    ∙ prepend_all_lem s [] []
    ∙ ap (λ k. k ∷ []) (append_nil s)
split_from-join s (t ∷ ts) h (k, ks) =
    split_from_plain s (b',' ∷ b' ' ∷ join_items t ts) h
    ∙ ap (λ ps. prepend_all s ([] ∷ ps)) (split_from-join t ts k ks)
    ∙ prepend_all_lem s [] (t ∷ ts)
    ∙ ap (λ k. k ∷ t ∷ ts) (append_nil s)

-- A written list of one or more texts without quotes and commas is read as the texts.
pub read_list-write_list :
    (s : Bytes) (ts : List Bytes)
    → IsPlain s
    → All IsPlain ts
    → read_list (write_list s ts) ≡ s ∷ ts
unfolding read_list
read_list-write_list s ts h hs =
    ap (λ w. split_from false (remove_quotes w)) (trim_write s ts)
    ∙ ap (split_from false) (remove_quotes-write s ts h hs)
    ∙ split_from-join s ts h hs

module _ (string : Bytes → String) (trim_space : Bytes → Bytes) (lower : String → String) where
  -- The market is left out, and there are not two outcomes or not two ids; or there are two of each, and
  -- it is kept as planned, with the id, texts, condition and times of the answer, the first token for
  -- Up and the second for Down.
  abbrev pub IsListed :
      (event_id : String)
      → EventMarket
      → (tokens : List Bytes) (outcomes : ℕ) → Option Market
      → Type 0
  IsListed event_id m tokens outcomes r =
      ((r ≡ none) × ((outcomes ≢ 2) ⊎ (length tokens ≢ 2)))
      ⊎ ((up : Bytes) × (down : Bytes) × (kept : Market) × (r ≡ some kept)
          × (tokens ≡ up ∷ down ∷ [])
          × (outcomes ≡ 2)
          × ((kept.token_up ≡ string (trim_space up))
              × (kept.token_down ≡ string (trim_space down))
              × (kept.status ≡ planned)
              × ((kept.id ≡ m.id)
                  × (kept.event_id ≡ event_id)
                  × (kept.slug ≡ m.slug)
                  × (kept.question ≡ m.question))
              × (kept.condition_id ≡ m.condition_id)
              × (kept.start_time ≡ m.event_start_time)
              × (kept.end_time ≡ m.end_date)))

  -- What GetMarkets makes of a market whose outcomes and token ids are written as lists of texts without
  -- quotes and commas: with two outcomes and two ids it is planned, has the id, question, condition
  -- and times of the answer, the first token id for Up and the second for Down; with another
  -- number of either it is left out.
  pub read_market-write_list :
      (event_id : String) (m : EventMarket) (o t : Bytes) (os ts : List Bytes)
      → m.outcomes ≡ write_list o os
      → m.clob_token_ids ≡ write_list t ts
      → IsPlain o × All IsPlain os
      → IsPlain t × All IsPlain ts
      → IsListed event_id m
          (t ∷ ts)
          (length (o ∷ os))
          (read_market string trim_space lower event_id m)
  unfolding read_market
  read_market-write_list event_id m o t os ts e k (h, hs) (l, ls) =
      rw (e, k, read_list-write_list o os h hs, read_list-write_list t ts l ls) (listed os ts)
    where
      listed :
          (os ts : List Bytes)
          → IsListed event_id m
              (t ∷ ts)
              (length (o ∷ os))
              (listed_market string trim_space lower event_id m (o ∷ os) (t ∷ ts))
      listed [] ts = inl (refl, inl (λ e. absurd (ground arith)))
      listed (o2 ∷ []) [] = inl (refl, inr (λ e. absurd (ground arith)))
      listed (o2 ∷ []) (t2 ∷ []) = inr (
        t,
        t2,
        _,
        refl,
        refl,
        refl,
        (refl, refl, refl, (refl, refl, refl, refl), refl, refl, refl),
      )
      listed (o2 ∷ []) (t2 ∷ t3 ∷ ts) = inl (refl, inr (λ e. absurd (ground arith)))
      listed (o2 ∷ o3 ∷ os) ts = inl (refl, inl (λ e. absurd (ground arith)))
