-- ===== src/Engine/Registry.antt =====
-- internal/engine/engine.go over PostgreSQL: the running workers and the rows of their markets, which
-- `Run` looks up first.
use polymarket_go_bot.Prelude.{
  ℕ, String, ◌≡◌, refl, Bool, true, false, ◌||◌, List, [], ◌∷◌, ◌++◌, arith, str_eq, str_eq_iff,
  if◌then◌else◌,
}
use polymarket_go_bot.Prelude.Fallible.{Fallible, ok, fails}
use polymarket_go_bot.Decimal.{Decimal}
use polymarket_go_bot.Model.{Market, MarketStatus, planned}
use polymarket_go_bot.Config.{Config, has_key}
use polymarket_go_bot.Storage.Postgres.{
  Db, Conn, ids, postgres, select_where, set_status, insert_market, update_market_status,
  get_planned_and_active_markets, is_planned_or_active,
}
use polymarket_go_bot.Engine.{
  Handle, has_worker, filter_markets, insert_new, process_markets, slice_existence_map,
  start_inserted, after_insert, on_answers,
}
use polymarket_go_bot.Engine.Round.{has_worker-start_workers, has_key-append}

-- Every id of the list is the id of a row.
abbrev pub AreStored : (String → Bool) → Db → Type 0
AreStored p db = (j : String) → p j ≡ true → has_key (ids db.markets) j ≡ true

ids-append :
    (ms : List Market) (m : Market) (j : String)
    → has_key (ids (ms ++ m ∷ [])) j ≡ has_key (ids ms) j || str_eq m.id j
unfolding has_key
ids-append [] m j = ground arith
ids-append (k ∷ ks) m j = ground (arith, ids-append ks m j)

insert_market-ids :
    (c : Conn) (m : Market) (db : Db) (j : String)
    → has_key (ids db.markets) j ≡ true
    → has_key (ids (insert_market c m db).0.markets) j ≡ true
unfolding insert_market
insert_market-ids c m db j h = ground (arith, ids-append db.markets m j)

insert_market-stored :
    (c : Conn) (m : Market) (db : Db)
    → (insert_market c m db).1 ≡ ok tt
    → has_key (ids (insert_market c m db).0.markets) m.id ≡ true
unfolding insert_market
insert_market-stored c m db h = ground (arith, ids-append db.markets m m.id, str_eq_iff m.id m.id)

select_where-ids :
    (p : MarketStatus → Bool) (ms : List Market) (j : String)
    → has_key (ids (select_where p ms)) j ≡ true
    → has_key (ids ms) j ≡ true
unfolding select_where has_key
select_where-ids p [] j h = h
select_where-ids p (m ∷ ms) j h = ground (arith, select_where-ids p ms j)

set_status-ids :
    (id : String) (st : MarketStatus) (ms : List Market) (j : String)
    → has_key (ids (set_status id st ms)) j ≡ has_key (ids ms) j
unfolding set_status has_key
set_status-ids id st [] j = refl
set_status-ids id st (m ∷ ms) j = ground (arith, set_status-ids id st ms j)

Grows : Db → Db → Type 0
Grows db db' = (j : String) → has_key (ids db.markets) j ≡ true → has_key (ids db'.markets) j ≡ true

abbrev IsStoring : Db → Db × Fallible (List String) → Type 0
IsStoring db (db', ok ys) = Grows db db' × AreStored (has_key ys) db'
IsStoring db (db', fails) = Grows db db'

module _ (c : Conn) where
  IsStoring-trans :
      (db1 db2 : Db) (r : Db × Fallible (List String))
      → Grows db1 db2
      → IsStoring db2 r
      → IsStoring db1 r
  unfolding Grows
  IsStoring-trans db1 db2 (db', ok ys) g (h, s) = ((λ j e. h j (g j e)), s)
  IsStoring-trans db1 db2 (db', fails) g h = λ j e. h j (g j e)

  insert_new-IsStoring :
      (uniq : String → Bool) (ms : List Market) (xs : List String) (db : Db)
      → AreStored (has_key xs) db
      → IsStoring db (insert_new ⦃storage = postgres c⦄ uniq ms xs db)
  unfolding insert_new Grows has_key
  insert_new-IsStoring uniq [] xs db h = ((λ j e. e), h)
  insert_new-IsStoring uniq (m ∷ ms) xs db h =
      split (uniq m.id) (insert_new-IsStoring uniq ms xs db h)
        (insert_new-IsStoring uniq ms (xs ++ m.id ∷ []))
    where
      m' : Market
      m' = record m { status = planned }

      inserted :
          ((db' : Db)
            → AreStored (has_key (xs ++ m.id ∷ [])) db'
            → IsStoring db' (insert_new ⦃storage = postgres c⦄ uniq ms (xs ++ m.id ∷ []) db'))
          → (r : Fallible (Unit {0})) → (insert_market c m' db).1 ≡ r
          → IsStoring db (
              after_insert
                (insert_new ⦃storage = postgres c⦄ uniq ms (xs ++ m.id ∷ []))
                ((insert_market c m' db).0, r))
      inserted ih (ok u) e =
          IsStoring-trans db (insert_market c m' db).0
            (insert_new ⦃storage = postgres c⦄ uniq ms (xs ++ m.id ∷ []) (insert_market c m' db).0)
            (insert_market-ids c m' db)
            (ih _ λ j k. ground (
              arith,
              k,
              has_key-append xs (m.id ∷ []) j,
              h j,
              insert_market-ids c m' db j,
              insert_market-stored c m' db e,
              str_eq_iff m.id j,
            ))
      inserted ih fails e = insert_market-ids c m' db

      split :
          (b : Bool)
          → IsStoring db (insert_new ⦃storage = postgres c⦄ uniq ms xs db)
          → ((db' : Db)
              → AreStored (has_key (xs ++ m.id ∷ [])) db'
              → IsStoring db' (insert_new ⦃storage = postgres c⦄ uniq ms (xs ++ m.id ∷ []) db'))
          → IsStoring db (
              if b
              then insert_new ⦃storage = postgres c⦄ uniq ms xs db
              else after_insert
                  (insert_new ⦃storage = postgres c⦄ uniq ms (xs ++ m.id ∷ []))
                  (insert_market c m' db))
      split true ih1 ih2 = ih1
      split false ih1 ih2 = inserted ih2 (insert_market c m' db).1 refl

  start_inserted-AreStored :
      (db : Db) (hs : List Handle) (r : Db × Fallible (List String))
      → AreStored (has_worker hs) db
      → IsStoring db r
      → AreStored (has_worker (start_inserted hs r).1) (start_inserted hs r).0
  unfolding Grows
  start_inserted-AreStored db hs (db', ok ys) h (g, s) =
      λ j k. ground (arith, k, has_worker-start_workers ys hs j, h j, g j, s j)
  start_inserted-AreStored db hs (db', fails) h g = λ j k. g j (h j k)

  saved-AreStored :
      (db : Db) (saved : List String)
      → get_planned_and_active_markets c db ≡ ok saved
      → AreStored (has_key saved) db
  unfolding get_planned_and_active_markets
  saved-AreStored db saved e j k =
      ground (arith, e, k, select_where-ids is_planned_or_active db.markets j)

  -- If each running worker has its market in the table before a round, then each has it after the round.
  pub process_markets-AreStored :
      {D : Type 0} ⦃d : Decimal D⦄ (cfg : Config D) (clock : ℕ → ℕ)
      (answer : Fallible (List Market)) (db : Db) (hs : List Handle)
      → AreStored (has_worker hs) db
      → let (db', hs') = process_markets ⦃storage = postgres c⦄ cfg clock answer (db, hs) in
        AreStored (has_worker hs') db'
  unfolding process_markets on_answers slice_existence_map
  process_markets-AreStored cfg clock answer db hs h =
      go (get_planned_and_active_markets c db) answer refl
    where
      go :
          (q : Fallible (List String)) (a : Fallible (List Market))
          → get_planned_and_active_markets c db ≡ q
          → let (db', hs') = on_answers ⦃storage = postgres c⦄ cfg clock db hs q a in
            AreStored (has_worker hs') db'
      go fails a e = h
      go (ok saved) fails e = h
      go (ok saved) (ok markets) e = start_inserted-AreStored db hs _ h (
          insert_new-IsStoring (has_key saved) (filter_markets cfg clock markets) saved db
            (saved-AreStored db saved e))

  -- A change of status loses no market: what was stored is stored.
  pub update_market_status-AreStored :
      (id : String) (st : MarketStatus) (db : Db) (p : String → Bool)
      → AreStored p db
      → AreStored p (update_market_status c id st db).0
  unfolding update_market_status
  update_market_status-AreStored id st db p h j k =
      ground (arith, h j k, set_status-ids id st db.markets j)
