-- ===== src/Engine/Redeem.antt =====
-- internal/engine/engine.go over PostgreSQL: the statuses of the markets after a redeem round.
use polymarket_go_bot.Prelude.{
  ℕ, suc, String, ◌≡◌, refl, ◌∙◌, Bool, true, false, List, [], ◌∷◌, arith, str_eq_iff,
  if◌then◌else◌, inl, inr, ◌⊎◌,
}
use polymarket_go_bot.Prelude.Int.{ℤ}
use polymarket_go_bot.Prelude.Fallible.{Fallible, ok, fails, ◌>>=◌}
use polymarket_go_bot.Model.{Market, MarketStatus, redeemed}
use polymarket_go_bot.Storage.Postgres.{
  Db, Conn, postgres, find_market, update_market_status, get_resolved_markets,
}
use polymarket_go_bot.Storage.Postgres.Laws.{find_market-set_status}
use polymarket_go_bot.Engine.{is_redeemable, after_redeem, redeem_all, on_resolved, redeem_round}

-- The status of the stored market with that id.
abbrev pub status_in : String → Db → Fallible MarketStatus
status_in id db = find_market id db.markets >>= λ m. ok m.status

-- A market of the list whose window was open at its reading of the clock and whose redemption went well.
abbrev pub IsPaid : (ℕ → ℕ) → (String → Fallible ℤ) → ℕ → List Market → String → Type 0
IsPaid clock redeem i [] id = ⊥
IsPaid clock redeem i (m ∷ ms) id =
    ((m.id ≡ id)
      × (is_redeemable (clock i) m ≡ true)
      × ((paid : ℤ) × (redeem m.condition_id ≡ ok paid)))
    ⊎ IsPaid clock redeem (suc i) ms id

-- Each market's status is as it was, or it is `redeemed` and the redemption went well.
abbrev IsEarned : (ℕ → ℕ) → (String → Fallible ℤ) → ℕ → List Market → Db → Db → Type 0
IsEarned clock redeem i ms db db' =
    (id : String)
    → (status_in id db' ≡ status_in id db)
      ⊎ ((status_in id db' ≡ ok redeemed) × IsPaid clock redeem i ms id)

status-set_status :
    (c : Conn) (id j : String) (db : Db)
    → (status_in j (update_market_status c id redeemed db).0 ≡ status_in j db)
      ⊎ ((id ≡ j) × (status_in j (update_market_status c id redeemed db).0 ≡ ok redeemed))
unfolding update_market_status
status-set_status c id j db =
    ground (arith, find_market-set_status id j redeemed db.markets, str_eq_iff id j)

module _ (c : Conn) (clock : ℕ → ℕ) (redeem : String → Fallible ℤ) where
  redeem_all-IsEarned :
      (i : ℕ) (ms : List Market) (db : Db)
      → IsEarned clock redeem i ms db (redeem_all ⦃storage = postgres c⦄ clock redeem i ms db)
  unfolding redeem_all
  redeem_all-IsEarned i [] db = λ id. inl refl
  redeem_all-IsEarned i (m ∷ ms) db =
      split (is_redeemable (clock i) m) refl (redeem m.condition_id) refl
        (redeem_all-IsEarned (suc i) ms)
    where
      later :
          (db' : Db)
          → IsEarned clock redeem (suc i) ms db db'
          → IsEarned clock redeem i (m ∷ ms) db db'
      later db' h id = elim (h id) [ inl e ↦ inl e | inr k ↦ inr (k.0, inr k.1) ]

      paid_now :
          (db' : Db) (paid : ℤ)
          → is_redeemable (clock i) m ≡ true
          → redeem m.condition_id ≡ ok paid
          → IsEarned clock redeem (suc i) ms (update_market_status c m.id redeemed db).0 db'
          → IsEarned clock redeem i (m ∷ ms) db db'
      paid_now db' paid e p h id = elim (h id) [
        | inl same ↦ elim (status-set_status c m.id id db) [
          | inl kept ↦ inl (same ∙ kept)
          | inr new ↦ inr (same ∙ new.1, inl (new.0, e, (paid, p)))
        ]
        | inr k ↦ inr (k.0, inr k.1)
      ]

      next : Db → Db
      next = redeem_all ⦃storage = postgres c⦄ clock redeem (suc i) ms

      split :
          (b : Bool)
          → is_redeemable (clock i) m ≡ b
          → (r : Fallible ℤ) → redeem m.condition_id ≡ r
          → ((db' : Db) → IsEarned clock redeem (suc i) ms db' (next db'))
          → IsEarned clock redeem i
              (m ∷ ms)
              db
              (next (if b then after_redeem ⦃storage = postgres c⦄ m r db else db))
      split true e (ok paid) p h =
          paid_now (next (update_market_status c m.id redeemed db).0) paid e p
            (h (update_market_status c m.id redeemed db).0)
      split true e fails p h = later (next db) (h db)
      split false e r p h = later (next db) (h db)

  -- After a round each market has the status that it had, or it is redeemed, was listed as resolved,
  -- its fifteen minutes had passed, and the exchange redeemed its condition.
  pub redeem_round-IsEarned :
      (db : Db) (id : String)
      → let after = redeem_round ⦃storage = postgres c⦄ clock redeem db in
        (status_in id after ≡ status_in id db)
        ⊎ ((status_in id after ≡ ok redeemed)
            × ((ms : List Market) × (get_resolved_markets c db ≡ ok ms)
                × IsPaid clock redeem 0 ms id))
  unfolding redeem_round
  redeem_round-IsEarned db id = go (get_resolved_markets c db) refl
    where
      go :
          (q : Fallible (List Market))
          → get_resolved_markets c db ≡ q
          → let after = on_resolved ⦃storage = postgres c⦄ clock redeem db q in
            (status_in id after ≡ status_in id db)
            ⊎ ((status_in id after ≡ ok redeemed)
                × ((ms : List Market) × (get_resolved_markets c db ≡ ok ms)
                    × IsPaid clock redeem 0 ms id))
      go fails e = inl refl
      go (ok ms) e = elim (redeem_all-IsEarned 0 ms db id) [
        | inl same ↦ inl same
        | inr k ↦ inr (k.0, (ms, e, k.1))
      ]
