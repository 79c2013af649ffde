-- ===== src/System/Rounds.antt =====
-- internal/engine/engine.go: the statuses in the tables over a round of processMarkets.
use polymarket_go_bot.Prelude.{
  ℕ, String, ◌≡◌, refl, sym, ap, ◌∙◌, Bool, true, false, List, [], ◌∷◌, ◌++◌, arith, str_eq,
  str_eq_iff, ◌⊎◌, inl, inr, if◌then◌else◌, Bool-cases,
}
use polymarket_go_bot.Prelude.Fallible.{Fallible, ok, fails}
use polymarket_go_bot.Decimal.{Decimal}
use polymarket_go_bot.Model.{Market, MarketStatus, planned}
use polymarket_go_bot.Config.{Config, has_key}
use polymarket_go_bot.Storage.Postgres.{
  Db, Conn, postgres, insert_market, get_planned_and_active_markets,
}
use polymarket_go_bot.Storage.Postgres.Laws.{IsUnique, writes-IsUnique, find_market-insert_market}
use polymarket_go_bot.Engine.{
  Handle, has_worker, start_workers, slice_existence_map, filter_markets, insert_new, after_insert,
  start_inserted, on_answers, process_markets,
}
use polymarket_go_bot.Engine.Round.{has_key-append, has_worker-start_workers}
use polymarket_go_bot.Engine.Redeem.{status_in}
use polymarket_go_bot.System.Statuses
use polymarket_go_bot.System.Statuses.{IsOpen}

-- The status is as before, or it is that of a market that was not stored.
abbrev pub IsInserted : Fallible MarketStatus → Fallible MarketStatus → Type 0
IsInserted x y = (y ≡ x) ⊎ ((x ≡ fails) × (y ≡ ok planned))

IsInserted-trans :
    (x y z : Fallible MarketStatus) → IsInserted x y → IsInserted y z → IsInserted x z
IsInserted-trans x y z (inl e) (inl k) = inl (k ∙ e)
IsInserted-trans x y z (inl e) (inr (k, l)) = inr (sym e ∙ k, l)
IsInserted-trans x y z (inr (e, l)) (inl k) = inr (e, k ∙ l)
IsInserted-trans x y z (inr (e, l)) (inr (k, m)) = inr (e, m)

pub IsInserted-IsOpen : (x y : Fallible MarketStatus) → IsInserted x y → IsOpen x → IsOpen y
IsInserted-IsOpen x y (inl e) (inl k) = inl (e ∙ k)
IsInserted-IsOpen x y (inl e) (inr k) = inr (e ∙ k)
IsInserted-IsOpen x y (inr (e, l)) k = inl l

abbrev AreOpen : List String → Db → Type 0
AreOpen ys db = (j : String) → has_key ys j ≡ true → IsOpen (status_in j db)

abbrev IsOpening : Db → Db × Fallible (List String) → Type 0
IsOpening db (db', ok ys) =
    IsUnique db'.markets
    × ((j : String) → IsInserted (status_in j db) (status_in j db'))
    × AreOpen ys db'
IsOpening db (db', fails) =
    IsUnique db'.markets × ((j : String) → IsInserted (status_in j db) (status_in j db'))

IsOpening-trans :
    (db1 db2 : Db) (r : Db × Fallible (List String))
    → ((j : String) → IsInserted (status_in j db1) (status_in j db2))
    → IsOpening db2 r
    → IsOpening db1 r
IsOpening-trans db1 db2 (db', ok ys) g (u, h, s) = (u, (λ j. IsInserted-trans _ _ _ (g j) (h j)), s)
IsOpening-trans db1 db2 (db', fails) g (u, h) = (u, λ j. IsInserted-trans _ _ _ (g j) (h j))

insert-IsInserted :
    (c : Conn) (m : Market) (j : String) (db : Db)
    → m.status ≡ planned
    → IsInserted (status_in j db) (status_in j (insert_market c m db).0)
insert-IsInserted c m j db p = elim (Statuses.status_in-insert c m j db) [
  | inl same ↦ inl same
  | inr new ↦ inr (new.0, new.1 ∙ ap ok p)
]

-- What a round leaves: unique keys, each status as it was or that of a new market, and a status that
-- is planned or active for each market that has got a worker; no worker is lost.
abbrev pub IsRounded : Db → List Handle → Db × List Handle → Type 0
IsRounded db hs (db', hs') =
    IsUnique db'.markets
    × ((j : String) → IsInserted (status_in j db) (status_in j db'))
    × ((j : String) → has_worker hs' j ≡ true → (has_worker hs j ≡ true) ⊎ IsOpen (status_in j db'))
    × ((j : String) → has_worker hs j ≡ true → has_worker hs' j ≡ true)

module _ (c : Conn) where
  insert-AreOpen :
      (m : Market) (xs : List String) (db : Db)
      → m.status ≡ planned
      → (insert_market c m db).1 ≡ ok tt
      → AreOpen xs db
      → AreOpen (xs ++ m.id ∷ []) (insert_market c m db).0
  unfolding has_key
  insert-AreOpen m xs db p done h j k = elim (Bool-cases (str_eq m.id j)) [
    | inl own ↦ inl (
        rw (sym ((str_eq_iff m.id j).0 own))
          (rw (find_market-insert_market c m db done).0 (ap ok p)))
    | inr other ↦
        IsInserted-IsOpen (status_in j db) (status_in j (insert_market c m db).0)
          (insert-IsInserted c m j db p) (h j (ground (arith, has_key-append xs (m.id ∷ []) j)))
  ]

  insert_new-IsOpening :
      (uniq : String → Bool) (ms : List Market) (xs : List String) (db : Db)
      → IsUnique db.markets
      → AreOpen xs db
      → IsOpening db (insert_new ⦃storage = postgres c⦄ uniq ms xs db)
  unfolding insert_new
  insert_new-IsOpening uniq [] xs db u h = (u, (λ j. inl refl), h)
  insert_new-IsOpening uniq (m ∷ ms) xs db u h =
      split (uniq m.id) (insert_new-IsOpening uniq ms xs db u h)
        (insert_new-IsOpening uniq ms (xs ++ m.id ∷ []))
    where
      m' : Market
      m' = record m { status = planned }

      db1 : Db
      db1 = (insert_market c m' db).0

      unique1 : IsUnique db1.markets
      unique1 = (writes-IsUnique c m' "" planned db u).0

      grown : (j : String) → IsInserted (status_in j db) (status_in j db1)
      grown j = insert-IsInserted c m' j db refl

      rest : Db → Db × Fallible (List String)
      rest = insert_new ⦃storage = postgres c⦄ uniq ms (xs ++ m.id ∷ [])

      inserted :
          ((db' : Db)
            → IsUnique db'.markets
            → AreOpen (xs ++ m.id ∷ []) db'
            → IsOpening db' (rest db'))
          → (r : Fallible (Unit {0})) → (insert_market c m' db).1 ≡ r
          → IsOpening db (after_insert rest (db1, r))
      inserted ih (ok t) e =
          IsOpening-trans db db1 (rest db1) grown
            (ih db1 unique1 (insert-AreOpen m' xs db refl e h))
      inserted ih fails e = (unique1, grown)

      split :
          (b : Bool)
          → IsOpening db (insert_new ⦃storage = postgres c⦄ uniq ms xs db)
          → ((db' : Db)
              → IsUnique db'.markets
              → AreOpen (xs ++ m.id ∷ []) db'
              → IsOpening db' (rest db'))
          → IsOpening db (
              if b
              then insert_new ⦃storage = postgres c⦄ uniq ms xs db
              else after_insert rest (insert_market c m' db))
      split true ih1 ih2 = ih1
      split false ih1 ih2 = inserted ih2 (insert_market c m' db).1 refl

  start_inserted-IsRounded :
      (db : Db) (hs : List Handle) (r : Db × Fallible (List String))
      → IsOpening db r
      → IsRounded db hs (start_inserted hs r)
  start_inserted-IsRounded db hs (db', fails) (u, g) = (u, g, (λ j k. inl k), λ j k. k)
  start_inserted-IsRounded db hs (db', ok ys) (u, g, s) = (
    u,
    g,
    (λ j k. got j (has_worker hs j) refl k),
    λ j k. ground (arith, has_worker-start_workers ys hs j),
  )
    where
      got :
          (j : String) (b : Bool)
          → has_worker hs j ≡ b
          → has_worker (start_workers ys hs) j ≡ true
          → (has_worker hs j ≡ true) ⊎ IsOpen (status_in j db')
      got j true e k = inl e
      got j false e k = inr (s j (ground (arith, has_worker-start_workers ys hs j)))

  pub process_markets-IsRounded :
      {D : Type 0} ⦃d : Decimal D⦄ (cfg : Config D) (clock : ℕ → ℕ)
      (answer : Fallible (List Market)) (db : Db) (hs : List Handle)
      → IsUnique db.markets
      → IsRounded db hs (process_markets ⦃storage = postgres c⦄ cfg clock answer (db, hs))
  unfolding process_markets on_answers slice_existence_map
  process_markets-IsRounded cfg clock answer db hs u =
      go (get_planned_and_active_markets c db) answer refl
    where
      go :
          (q : Fallible (List String)) (a : Fallible (List Market))
          → get_planned_and_active_markets c db ≡ q
          → IsRounded db hs (on_answers ⦃storage = postgres c⦄ cfg clock db hs q a)
      go fails a e = (u, (λ j. inl refl), (λ j k. inl k), λ j k. k)
      go (ok saved) fails e = (u, (λ j. inl refl), (λ j k. inl k), λ j k. k)
      go (ok saved) (ok markets) e =
          start_inserted-IsRounded db hs
            (insert_new ⦃storage = postgres c⦄ (has_key saved) (filter_markets cfg clock markets)
              saved db)
            (insert_new-IsOpening (has_key saved) (filter_markets cfg clock markets) saved db u
              (λ j. Statuses.saved-IsOpen c db saved j u e))
