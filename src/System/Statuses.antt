-- ===== src/System/Statuses.antt =====
-- The statuses in the tables, before and after each write.
use mathlib.Core.Path.{subst}
use polymarket_go_bot.Prelude.{
  String, ◌≡◌, refl, ap, Bool, true, false, ◌&&◌, List, [], ◌∷◌, All, arith, str_eq, str_eq_iff,
  ◌⊎◌, inl, inr, Bool-cases,
}
use polymarket_go_bot.Prelude.Fallible.{Fallible, ok, fails, Fallible-cases}
use polymarket_go_bot.Model.{Market, MarketStatus, planned, active, resolved, redeemed, Order}
use polymarket_go_bot.Config.{has_key}
use polymarket_go_bot.Storage.Postgres.{
  Db, Conn, find_market, select_where, ids, conflicts, update_market_status, insert_market,
  insert_order, is_planned_or_active, is_resolved, get_planned_and_active_markets,
  get_resolved_markets,
}
use polymarket_go_bot.Storage.Postgres.Laws.{
  IsUnique, find_market-set_status, find_market-insert_market, find_market-conflicts,
  insert_market-ok,
}
use polymarket_go_bot.Engine.Redeem.{status_in}

pub find_market-id :
    (id : String) (ms : List Market) (m : Market) → find_market id ms ≡ ok m → m.id ≡ id
unfolding find_market
find_market-id id [] m h = absurd (ground arith)
find_market-id id (k ∷ ks) m h = ground (arith, find_market-id id ks m, str_eq_iff k.id id)

-- An update of a status leaves each status, or it sets that of its id, which is stored.
pub status_in-update :
    (c : Conn) (id j : String) (st : MarketStatus) (db : Db)
    → (status_in j (update_market_status c id st db).0 ≡ status_in j db)
      ⊎ ((id ≡ j)
          × (status_in j (update_market_status c id st db).0 ≡ ok st)
          × ((old : MarketStatus) × (status_in j db ≡ ok old)))
unfolding update_market_status
status_in-update c id j st db = elim (Fallible-cases (find_market j db.markets)) [
  | inl e ↦ inl (ground (arith, find_market-set_status id j st db.markets))
  | inr (m, e) ↦ elim (Bool-cases (str_eq id j && c.begin && c.commit)) [
    | inl hit ↦ inr (
      ground (arith, str_eq_iff id j),
      ground (arith, find_market-set_status id j st db.markets),
      (m.status, ground arith),
    )
    | inr miss ↦ inl (ground (arith, find_market-set_status id j st db.markets))
  ]
]

insert_market-fails :
    (c : Conn) (m : Market) (db : Db)
    → (insert_market c m db).1 ≡ fails
    → (insert_market c m db).0.markets ≡ db.markets
unfolding insert_market
insert_market-fails c m db h = ground arith

-- An insert leaves each status, or it stores a market that was not there, with its status.
pub status_in-insert :
    (c : Conn) (m : Market) (j : String) (db : Db)
    → (status_in j (insert_market c m db).0 ≡ status_in j db)
      ⊎ ((status_in j db ≡ fails) × (status_in j (insert_market c m db).0 ≡ ok m.status))
status_in-insert c m j db = go (insert_market c m db).1 refl
  where
    inserted :
        (b : Bool)
        → str_eq j m.id ≡ b
        → (insert_market c m db).1 ≡ ok tt
        → (status_in j (insert_market c m db).0 ≡ status_in j db)
          ⊎ ((status_in j db ≡ fails) × (status_in j (insert_market c m db).0 ≡ ok m.status))
    inserted true e h =
        let (own, others) = find_market-insert_market c m db h in
        let same = (str_eq_iff j m.id).0 e in
        let (free, after) = insert_market-ok c m db h in
        inr (rw same (rw (find_market-conflicts m db.markets free) refl), rw same (rw own refl))
    inserted false e h =
        let (own, others) = find_market-insert_market c m db h in
        inl (rw (others j λ k. ground (arith, str_eq_iff j m.id)) refl)

    go :
        (r : Fallible (Unit {0}))
        → (insert_market c m db).1 ≡ r
        → (status_in j (insert_market c m db).0 ≡ status_in j db)
          ⊎ ((status_in j db ≡ fails) × (status_in j (insert_market c m db).0 ≡ ok m.status))
    go (ok u) h = inserted (str_eq j m.id) refl h
    go fails h = inl (rw (insert_market-fails c m db h) refl)

has_key-conflicts :
    (m : Market) (ms : List Market) (j : String)
    → m.id ≡ j
    → has_key (ids ms) j ≡ true
    → conflicts m ms ≡ true
unfolding conflicts has_key
has_key-conflicts m [] j e h = h
has_key-conflicts m (k ∷ ks) j e h =
    ground (arith, has_key-conflicts m ks j e, str_eq_iff k.id j, str_eq_iff k.id m.id)

has_key-select_where :
    (p : MarketStatus → Bool) (ms : List Market) (j : String)
    → has_key (ids (select_where p ms)) j ≡ true
    → has_key (ids ms) j ≡ true
unfolding select_where has_key
has_key-select_where p [] j h = h
has_key-select_where p (m ∷ ms) j h = ground (arith, has_key-select_where p ms j)

-- Where the keys are unique, a listed id is stored with a status that passes.
pub find_market-select_where :
    (p : MarketStatus → Bool) (ms : List Market) (j : String)
    → IsUnique ms
    → has_key (ids (select_where p ms)) j ≡ true
    → (m : Market) × (find_market j ms ≡ ok m) × (p m.status ≡ true)
unfolding select_where find_market has_key
find_market-select_where p [] j u h = absurd (ground arith)
find_market-select_where p (k ∷ ks) j (free, u) h = elim (Bool-cases (str_eq k.id j)) [
  | inr other ↦
      let (m, e, pass) = find_market-select_where p ks j u (ground (arith, str_eq_iff k.id j)) in
      (m, rw other e, pass)
  | inl hit ↦ (
    k,
    rw hit refl,
    ground (arith, str_eq_iff k.id j, has_key-conflicts k ks j, has_key-select_where p ks j),
  )
]

-- The status of a market of the first listing is planned or active.
abbrev pub IsOpen : Fallible MarketStatus → Type 0
IsOpen st = (st ≡ ok planned) ⊎ (st ≡ ok active)

abbrev pub IsOver : Fallible MarketStatus → Type 0
IsOver st = (st ≡ ok resolved) ⊎ (st ≡ ok redeemed)

is_planned_or_active-cases :
    (st : MarketStatus) → is_planned_or_active st ≡ true → (st ≡ planned) ⊎ (st ≡ active)
is_planned_or_active-cases planned h = inl refl
is_planned_or_active-cases active h = inr refl
is_planned_or_active-cases resolved h = absurd (ground arith)
is_planned_or_active-cases redeemed h = absurd (ground arith)

pub saved-IsOpen :
    (c : Conn) (db : Db) (saved : List String) (j : String)
    → IsUnique db.markets
    → get_planned_and_active_markets c db ≡ ok saved
    → has_key saved j ≡ true
    → IsOpen (status_in j db)
unfolding get_planned_and_active_markets
saved-IsOpen c db saved j u h k =
    let (m, e, pass) =
      find_market-select_where is_planned_or_active db.markets j u (ground arith) in
    elim (is_planned_or_active-cases m.status pass) [
      | inl p ↦ inl (rw e (ap ok p))
      | inr p ↦ inr (rw e (ap ok p))
    ]

All-ids :
    (P : String → Type 0) (ms : List Market)
    → ((j : String) → has_key (ids ms) j ≡ true → P j)
    → All (λ m. P m.id) ms
unfolding has_key
All-ids P [] h = tt
All-ids P (k ∷ ks) h =
    (h k.id (ground (arith, str_eq_iff k.id k.id)), All-ids P ks λ j e. h j (ground arith))

is_resolved-eq : (st : MarketStatus) → is_resolved st ≡ true → st ≡ resolved
is_resolved-eq resolved h = refl
is_resolved-eq planned h = absurd (ground arith)
is_resolved-eq active h = absurd (ground arith)
is_resolved-eq redeemed h = absurd (ground arith)

-- The markets of the second listing are resolved.
pub resolved-IsOver :
    (c : Conn) (db : Db) (ms : List Market)
    → IsUnique db.markets
    → get_resolved_markets c db ≡ ok ms
    → All (λ m. IsOver (status_in m.id db)) ms
unfolding get_resolved_markets
resolved-IsOver c db ms u h = subst (All (λ m. IsOver (status_in m.id db))) (ground arith) (
    All-ids (λ j. IsOver (status_in j db)) (select_where is_resolved db.markets)
      λ j k.
        let (m, e, pass) = find_market-select_where is_resolved db.markets j u k in
        inl (rw e (ap ok (is_resolved-eq m.status pass))))

pub insert_order-markets :
    (c : Conn) (o : Order) (db : Db) → (insert_order c o db).0.markets ≡ db.markets
unfolding insert_order
insert_order-markets c o db = ground arith
