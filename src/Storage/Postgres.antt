-- ===== src/Storage/Postgres.antt =====
-- internal/storage/postgres: the queries, over the tables of migrations/00001_init.sql. A table is the
-- list of its rows in the order of `created_at`. What the connection does is a parameter; the columns
-- `created_at` and `updated_at`, the serial id of `stats` and the indexes are left out.
pub mod Laws
pub mod Statuses
pub mod Tests
use polymarket_go_bot.Prelude.{
  String, Bool, true, false, not, ◌&&◌, ◌||◌, Option, none, some, List, [], ◌∷◌, ◌++◌, map, str_eq,
  if◌then◌else◌,
}
use polymarket_go_bot.Prelude.Fallible.{Fallible, ok, fails, ◌>>=◌}
use polymarket_go_bot.Storage.{Storage}
use polymarket_go_bot.Model.{
  MarketStatus, planned, active, resolved, redeemed, Market, Order, Stats,
}

pub record Db : Type 0 where
  pub markets : List Market
  pub orders : List Order
  pub stats : List Stats

-- How the connection answers: a query, the begin of a transaction and its commit each succeed or not;
-- a commit that fails has written nothing. `is_numeric` and `is_json` tell what a NUMERIC and a JSONB
-- column take.
pub record Conn : Type 0 where
  pub query : Bool
  pub begin : Bool
  pub commit : Bool
  pub is_numeric : String → Bool
  pub is_json : String → Bool

-- pg.TxWrap: a transaction in which `fn` fails is rolled back.
unfoldable pub tx_wrap : Conn → (Db → Fallible Db) → Db → Db × Fallible (Unit {0})
tx_wrap c fn db =
    if c.begin
    then (elim (fn db) [
      | fails ↦ (db, fails)
      | ok db' ↦ if c.commit then (db', ok tt) else (db, fails)
    ])
    else (db, fails)

unfoldable pub find_market : String → List Market → Fallible Market
find_market id [] = fails
find_market id (m ∷ ms) = if str_eq m.id id then ok m else find_market id ms

unfoldable pub get_market : Conn → String → Db → Fallible Market
get_market c id db = if c.query then find_market id db.markets else fails

abbrev pub is_resolved : MarketStatus → Bool
is_resolved resolved = true
is_resolved _ = false

abbrev pub is_planned_or_active : MarketStatus → Bool
is_planned_or_active planned = true
is_planned_or_active active = true
is_planned_or_active _ = false

-- WHERE, ORDER BY created_at ASC
unfoldable pub select_where : (MarketStatus → Bool) → List Market → List Market
select_where p [] = []
select_where p (m ∷ ms) = let rest = select_where p ms in if p m.status then m ∷ rest else rest

unfoldable pub get_resolved_markets : Conn → Db → Fallible (List Market)
unfolding select_where
get_resolved_markets c db = if c.query then ok (select_where is_resolved db.markets) else fails

abbrev pub ids : List Market → List String
ids = map (λ m. m.id)

unfoldable pub get_planned_and_active_markets : Conn → Db → Fallible (List String)
unfolding select_where
get_planned_and_active_markets c db =
    if c.query then ok (ids (select_where is_planned_or_active db.markets)) else fails

-- A row that breaks the primary key or the UNIQUE constraint of `markets`.
unfoldable pub conflicts : Market → List Market → Bool
conflicts m [] = false
conflicts m (n ∷ ns) = str_eq n.id m.id || str_eq n.condition_id m.condition_id || conflicts m ns

abbrev pub exec_insert_market : Market → Db → Fallible Db
exec_insert_market m db =
    if conflicts m db.markets then fails else ok (record db { markets = db.markets ++ m ∷ [] })

unfoldable pub insert_market : Conn → Market → Db → Db × Fallible (Unit {0})
unfolding tx_wrap conflicts
insert_market c m = tx_wrap c (exec_insert_market m)

-- UPDATE … WHERE id: no row at all is no error.
unfoldable pub set_status : String → MarketStatus → List Market → List Market
set_status id status [] = []
set_status id status (m ∷ ms) =
    (if str_eq m.id id then record m { status = status } else m) ∷ set_status id status ms

abbrev pub exec_update_market_status : String → MarketStatus → Db → Fallible Db
exec_update_market_status id status db =
    ok (record db { markets = set_status id status db.markets })

unfoldable pub update_market_status : Conn → String → MarketStatus → Db → Db × Fallible (Unit {0})
unfolding tx_wrap set_status
update_market_status c id status = tx_wrap c (exec_update_market_status id status)

abbrev pub has_order : String → List Order → Bool
has_order id [] = false
has_order id (o ∷ os) = str_eq o.id id || has_order id os

abbrev pub is_set {ℓ} : {A : Type ℓ} → Option A → Bool
is_set none = false
is_set (some a) = true

-- The NUMERIC columns take their texts, the outcome is 'Up' or 'Down', and the id is new.
abbrev pub accepts_order : Conn → Order → Db → Bool
accepts_order c o db =
    c.is_numeric o.original_size
    && c.is_numeric o.matched_size
    && c.is_numeric o.price
    && is_set o.outcome
    && not (has_order o.id db.orders)

-- GetOrdersByCondition returns the last order first; TradeSide is not stored.
abbrev pub exec_insert_order : Conn → Order → Db → Fallible Db
exec_insert_order c o db =
    if accepts_order c o db
    then ok (record db { orders = db.orders ++ record o { trade_side = none } ∷ [] })
    else fails

unfoldable pub insert_order : Conn → Order → Db → Db × Fallible (Unit {0})
unfolding tx_wrap
insert_order c o = tx_wrap c (exec_insert_order c o)

-- A nil message is NULL, which the column refuses.
abbrev pub accepts_stat : Conn → Option String → Bool
accepts_stat c none = false
accepts_stat c (some text) = c.is_json text

abbrev pub exec_insert_stats : Conn → Stats → Db → Fallible Db
exec_insert_stats c st db =
    if accepts_stat c st.stat then ok (record db { stats = db.stats ++ st ∷ [] }) else fails

unfoldable pub insert_stats : Conn → Stats → Db → Db × Fallible (Unit {0})
unfolding tx_wrap
insert_stats c st = tx_wrap c (exec_insert_stats c st)

unfoldable pub select_condition : String → List Order → List Order → List Order
select_condition id [] found = found
select_condition id (o ∷ os) found =
    select_condition id os (if str_eq o.condition_id id then o ∷ found else found)

unfoldable pub get_orders_by_condition : Conn → String → Db → Fallible (List Order)
unfolding select_condition
get_orders_by_condition c id db = if c.query then ok (select_condition id db.orders []) else fails

-- The methods of Postgres are those of the interface.
abbrev pub postgres : Conn → Storage Db
postgres c = record {
  get_market = get_market c;
  get_resolved_markets = get_resolved_markets c;
  get_planned_and_active_markets = get_planned_and_active_markets c;
  insert_market = insert_market c;
  update_market_status = update_market_status c;
  insert_order = insert_order c;
  insert_stats = insert_stats c;
  get_orders_by_condition = get_orders_by_condition c;
}
