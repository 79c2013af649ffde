-- ===== src/Storage/Postgres/Laws.antt =====
-- What the storage promises: atomic transactions, unique keys, and look-ups after writes.
use polymarket_go_bot.Prelude.{
  String, ◌≡◌, ◌≢◌, refl, ◌∙◌, false, ◌||◌, List, [], ◌∷◌, ◌++◌, arith, str_eq, str_eq_iff,
  if◌then◌else◌,
}
use polymarket_go_bot.Prelude.Fallible.{Fallible, ok, fails, ◌>>=◌}
use polymarket_go_bot.Model.{MarketStatus, Market}
use polymarket_go_bot.Storage.Postgres.{
  Db, Conn, tx_wrap, find_market, conflicts, insert_market, set_status, update_market_status,
}

-- A transaction that reports an error has changed nothing, and one that reports none has done what
-- its function does.
pub tx_wrap_atomic :
    (c : Conn) (fn : Db → Fallible Db) (db : Db)
    → let (db', result) = tx_wrap c fn db in
      (result ≡ fails → db' ≡ db) × (result ≡ ok tt → fn db ≡ ok db')
unfolding tx_wrap
tx_wrap_atomic c fn db = ground (arith)

-- No two rows share an id or a condition id.
abbrev pub IsUnique : List Market → Type 0
IsUnique [] = Unit
IsUnique (m ∷ ms) = (conflicts m ms ≡ false) × IsUnique ms

conflicts-append :
    (m n : Market) (ms : List Market)
    → conflicts m (ms ++ n ∷ [])
      ≡ conflicts m ms || (str_eq n.id m.id || str_eq n.condition_id m.condition_id)
unfolding conflicts
conflicts-append m n [] = ground arith
conflicts-append m n (k ∷ ks) = ground (arith, conflicts-append m n ks)

str_eq_comm : (s t : String) → str_eq s t ≡ str_eq t s
str_eq_comm s t = ground (arith, str_eq_iff s t, str_eq_iff t s)

IsUnique-append :
    (m : Market) (ms : List Market) → conflicts m ms ≡ false → IsUnique ms → IsUnique (ms ++ m ∷ [])
unfolding conflicts
IsUnique-append m [] h u = (refl, tt)
IsUnique-append m (k ∷ ks) h (hk, u) = (
  ground (
    arith,
    conflicts-append k m ks,
    str_eq_comm k.id m.id,
    str_eq_comm k.condition_id m.condition_id,
  ),
  IsUnique-append m ks (ground arith) u,
)

conflicts-set_status :
    (id : String) (st : MarketStatus) (m : Market) (ms : List Market)
    → conflicts m (set_status id st ms) ≡ conflicts m ms
unfolding conflicts set_status
conflicts-set_status id st m [] = refl
conflicts-set_status id st m (k ∷ ks) = ground (arith, conflicts-set_status id st m ks)

conflicts-with_status :
    (st : MarketStatus) (m : Market) (ms : List Market)
    → conflicts (record m { status = st }) ms ≡ conflicts m ms
unfolding conflicts
conflicts-with_status st m [] = refl
conflicts-with_status st m (k ∷ ks) = ground (arith, conflicts-with_status st m ks)

IsUnique-set_status :
    (id : String) (st : MarketStatus) (ms : List Market)
    → IsUnique ms
    → IsUnique (set_status id st ms)
unfolding set_status
IsUnique-set_status id st [] u = tt
IsUnique-set_status id st (k ∷ ks) (h, u) = (
  ground (
    arith,
    conflicts-set_status id st k ks,
    conflicts-set_status id st (record k { status = st }) ks,
    conflicts-with_status st k ks,
  ),
  IsUnique-set_status id st ks u,
)

pub update_market_status-IsUnique :
    (c : Conn) (id : String) (st : MarketStatus) (db : Db)
    → IsUnique db.markets
    → IsUnique (update_market_status c id st db).0.markets
unfolding update_market_status
update_market_status-IsUnique c id st db u = ground (arith, IsUnique-set_status id st db.markets u)

-- If no two rows share an id or a condition id, then none do after an insert of a market or after an
-- update of a status, whether these succeed or not.
pub writes-IsUnique :
    (c : Conn) (m : Market) (id : String) (st : MarketStatus) (db : Db)
    → IsUnique db.markets
    → IsUnique (insert_market c m db).0.markets
      × IsUnique (update_market_status c id st db).0.markets
unfolding insert_market update_market_status
writes-IsUnique c m id st db u =
    ground (arith, IsUnique-append m db.markets, IsUnique-set_status id st db.markets u)

find_market-append :
    (id : String) (m : Market) (ms : List Market)
    → find_market id (ms ++ m ∷ [])
      ≡ elim (find_market id ms) [ ok n ↦ ok n | fails ↦ if str_eq m.id id then ok m else fails ]
unfolding find_market
find_market-append id m [] = refl
find_market-append id m (k ∷ ks) = ground (arith, find_market-append id m ks)

pub find_market-conflicts :
    (m : Market) (ms : List Market) → conflicts m ms ≡ false → find_market m.id ms ≡ fails
unfolding conflicts find_market
find_market-conflicts m [] h = refl
find_market-conflicts m (k ∷ ks) h = ground (arith, find_market-conflicts m ks)

pub insert_market-ok :
    (c : Conn) (m : Market) (db : Db)
    → (insert_market c m db).1 ≡ ok tt
    → (conflicts m db.markets ≡ false) × ((insert_market c m db).0.markets ≡ db.markets ++ m ∷ [])
unfolding insert_market
insert_market-ok c m db h = ground arith

pub find_market-insert_market :
    (c : Conn) (m : Market) (db : Db)
    → (insert_market c m db).1 ≡ ok tt
    → let after = (insert_market c m db).0.markets in
      (find_market m.id after ≡ ok m)
      × ((id : String) → id ≢ m.id → find_market id after ≡ find_market id db.markets)
find_market-insert_market c m db h =
    let (free, after) = insert_market-ok c m db h in
    rw after (
      find_market-append m.id m db.markets ∙ own (find_market-conflicts m db.markets free),
      λ id other. find_market-append id m db.markets ∙ others id other (find_market id db.markets),
    )
  where
    own :
        {r : Fallible Market}
        → r ≡ fails
        → elim r [ ok n ↦ ok n | fails ↦ if str_eq m.id m.id then ok m else fails ] ≡ ok m
    own e = ground (arith, str_eq_iff m.id m.id)

    others :
        (id : String)
        → id ≢ m.id
        → (r : Fallible Market)
        → elim r [ ok n ↦ ok n | fails ↦ if str_eq m.id id then ok m else fails ] ≡ r
    others id other (ok n) = refl
    others id other fails = ground (arith, str_eq_iff m.id id)

-- An update sets the status of the market with that id, and leaves each other market as it is.
pub find_market-set_status :
    (id j : String) (st : MarketStatus) (ms : List Market)
    → find_market j (set_status id st ms)
      ≡ (find_market j ms >>= λ m. ok (if str_eq id j then record m { status = st } else m))
unfolding find_market set_status
find_market-set_status id j st [] = refl
find_market-set_status id j st (k ∷ ks) = ground (
  arith,
  find_market-set_status id j st ks,
  str_eq_iff k.id id,
  str_eq_iff k.id j,
  str_eq_iff id j,
)
