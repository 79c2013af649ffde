-- ===== src/Engine/Filter.antt =====
-- internal/engine/engine.go: which markets the engine trades.
use polymarket_go_bot.Prelude.{
  ℕ, suc, ◌+◌, ◌<◌, ◌≤◌, ◌≡◌, refl, Bool, true, false, List, [], ◌∷◌, arith, inl, inr, ◌⊎◌, ◌↔◌,
  if◌then◌else◌,
}
use polymarket_go_bot.Prelude.Int.{ℤ, pos, negsuc}
use polymarket_go_bot.Decimal.{Decimal}
use polymarket_go_bot.Model.{Market, underlying_text}
use polymarket_go_bot.Config.{Config, has_key, is_allowed_underlying}
use polymarket_go_bot.Engine.{is_tradable, filter_from, filter_markets}

abbrev pub IsIn : Market → List Market → Type 0
IsIn m [] = ⊥
IsIn m (x ∷ xs) = (m ≡ x) ⊎ IsIn m xs

module _ {D : Type 0} ⦃d : Decimal D⦄ where
  -- The market's asset is allowed, its end lies ahead, and not nearer than the configured time.
  abbrev pub IsTradable : Config D → ℕ → Market → Type 0
  IsTradable cfg now m =
      (has_key cfg.allowed_underlyings (underlying_text m.underlying) ≡ true)
      × (now < m.end_time)
      × ((n : ℕ) → cfg.market.min_time_to_expiry ≡ pos n → now + n ≤ m.end_time)

  -- The tests of the loop are exactly these conditions.
  pub is_tradable-IsTradable :
      (cfg : Config D) (now : ℕ) (m : Market) → is_tradable cfg now m ≡ true → IsTradable cfg now m
  unfolding is_tradable is_allowed_underlying
  is_tradable-IsTradable cfg now m h = (ground arith, ground arith, λ n e. ground arith)

  pub IsTradable-is_tradable :
      (cfg : Config D) (now : ℕ) (m : Market) → IsTradable cfg now m → is_tradable cfg now m ≡ true
  unfolding is_tradable is_allowed_underlying
  IsTradable-is_tradable cfg now m (allowed, ahead, far) = at cfg.market.min_time_to_expiry refl
    where
      at : (z : ℤ) → cfg.market.min_time_to_expiry ≡ z → is_tradable cfg now m ≡ true
      at (pos n) e = let h = far n e in ground arith
      at (negsuc n) e = ground arith

  -- The market is in the list, at a place whose reading of the clock finds it tradable.
  abbrev pub IsOffered : Config D → (ℕ → ℕ) → ℕ → List Market → Market → Type 0
  IsOffered cfg clock i [] m = ⊥
  IsOffered cfg clock i (x ∷ xs) m =
      ((m ≡ x) × IsTradable cfg (clock i) x) ⊎ IsOffered cfg clock (suc i) xs m

  filter_from-IsOffered :
      (cfg : Config D) (clock : ℕ → ℕ) (i : ℕ) (ms : List Market) (m : Market)
      → (IsIn m (filter_from cfg clock i ms) → IsOffered cfg clock i ms m)
        × (IsOffered cfg clock i ms m → IsIn m (filter_from cfg clock i ms))
  unfolding filter_from
  filter_from-IsOffered cfg clock i [] m = (λ h. h, λ h. h)
  filter_from-IsOffered cfg clock i (x ∷ xs) m =
      split (is_tradable cfg (clock i) x) refl (filter_from-IsOffered cfg clock (suc i) xs m)
    where
      split :
          (b : Bool)
          → is_tradable cfg (clock i) x ≡ b
          → (IsIn m (filter_from cfg clock (suc i) xs) → IsOffered cfg clock (suc i) xs m)
            × (IsOffered cfg clock (suc i) xs m → IsIn m (filter_from cfg clock (suc i) xs))
          → (IsIn m (
                if b
                then x ∷ filter_from cfg clock (suc i) xs
                else filter_from cfg clock (suc i) xs)
              → IsOffered cfg clock i (x ∷ xs) m)
            × (IsOffered cfg clock i (x ∷ xs) m
                → IsIn m (
                    if b
                    then x ∷ filter_from cfg clock (suc i) xs
                    else filter_from cfg clock (suc i) xs))
      split true e ih = (
        elim [ inl h ↦ inl (h, is_tradable-IsTradable cfg (clock i) x e) | inr h ↦ inr (ih.0 h) ],
        elim [ inl h ↦ inl h.0 | inr h ↦ inr (ih.1 h) ],
      )
      split false e ih = (λ h. inr (ih.0 h), elim [ inl h ↦ absurd (clash h.1) | inr h ↦ ih.1 h ])
        where
          clash : IsTradable cfg (clock i) x → ⊥
          clash t = let yes = IsTradable-is_tradable cfg (clock i) x t in ground arith

  -- The markets that are kept are those of the answer that are allowed, still open and not too close
  -- to their end, each at the reading of the clock at its place.
  pub filter_markets-IsOffered :
      (cfg : Config D) (clock : ℕ → ℕ) (markets : List Market) (m : Market)
      → IsIn m (filter_markets cfg clock markets) ↔ IsOffered cfg clock 0 markets m
  unfolding filter_markets
  filter_markets-IsOffered cfg clock markets m = filter_from-IsOffered cfg clock 0 markets m
