-- ===== src/System/Redeems.antt =====
-- That the redeem worker can bring a resolved market to its end.
use mathlib.Core.Path.{subst}
use polymarket_go_bot.Prelude.{
  ◌+◌, String, ◌≡◌, refl, sym, Bool, true, false, List, [], ◌∷◌, arith, str_eq, str_eq_iff, inl,
  inr, if◌then◌else◌, Bool-cases,
}
use polymarket_go_bot.Prelude.Int.{pos}
use polymarket_go_bot.Prelude.Fallible.{Fallible, ok, fails, ◌>>=◌}
use polymarket_go_bot.Decimal.{Decimal}
use polymarket_go_bot.Model.{Market, MarketStatus, resolved, redeemed}
use polymarket_go_bot.Config.{Config, has_key}
use polymarket_go_bot.Storage.Postgres.{
  Db, Conn, find_market, ids, select_where, is_resolved, get_resolved_markets, update_market_status,
}
use polymarket_go_bot.Storage.Postgres.Laws.{find_market-set_status}
use polymarket_go_bot.Storage.Postgres.Statuses.{lists}
use polymarket_go_bot.Engine.{is_redeemable}
use polymarket_go_bot.Engine.Redeem.{status_in}
use polymarket_go_bot.System.{System, Step, list_step, visit_step, Reach, here, next}

-- A connection on which no call fails.
abbrev pub healthy : Conn
healthy = record {
  query = true;
  begin = true;
  commit = true;
  is_numeric = λ s. true;
  is_json = λ s. true;
}

same {ℓ} : {A : Type ℓ} (b : Bool) (x : A) → (if b then x else x) ≡ x
same true x = refl
same false x = refl

-- A healthy update of a stored status.
pub status-update :
    (k id : String) (st old : MarketStatus) (db : Db)
    → k ≡ id
    → status_in id db ≡ ok old
    → status_in id (update_market_status healthy k st db).0 ≡ ok st
unfolding update_market_status
status-update k id st old db e h =
    go (find_market id db.markets) h (find_market-set_status k id st db.markets)
      ((str_eq_iff k id).1 e)
  where
    go :
        (found : Fallible Market)
        → (found >>= λ m. ok m.status) ≡ ok old
        → find_market id (update_market_status healthy k st db).0.markets
          ≡ (found >>= λ m. ok (if str_eq k id then record m { status = st } else m))
        → str_eq k id ≡ true
        → status_in id (update_market_status healthy k st db).0 ≡ ok st
    go (ok m) h set hit = rw set (rw hit refl)
    go fails h set hit = absurd (ground arith)

lists-status :
    (p : MarketStatus → Bool) (ms : List Market) (id : String) (m : Market)
    → find_market id ms ≡ ok m
    → p m.status ≡ true
    → lists p ms id ≡ true
unfolding find_market select_where has_key
lists-status p [] id m h k = absurd (ground arith)
lists-status p (n ∷ ns) id m h k = ground (arith, lists-status p ns id m, str_eq_iff n.id id)

pub listed :
    (p : MarketStatus → Bool) (db : Db) (id : String) (st : MarketStatus)
    → status_in id db ≡ ok st
    → p st ≡ true
    → lists p db.markets id ≡ true
listed p db id st h k = go (find_market id db.markets) refl h
  where
    go :
        (found : Fallible Market)
        → find_market id db.markets ≡ found
        → (found >>= λ m. ok m.status) ≡ ok st
        → lists p db.markets id ≡ true
    go (ok m) e h = lists-status p db.markets id m e (ground arith)
    go fails e h = absurd (ground arith)

module _ {D : Type 0} ⦃d : Decimal D⦄ (cfg : Config D) where
  -- A run leads to a system in which the market is redeemed.
  abbrev pub CanRedeem : String → System D → Type 0
  CanRedeem id s = (t : System D) × Reach cfg s t × (status_in id t.db ≡ ok redeemed)

  pub Step-CanRedeem :
      (id : String) {s t : System D} → Step cfg s t → CanRedeem id t → CanRedeem id s
  Step-CanRedeem id {s = s} {t = t} step (u, run, done) = (u, after run, done)
    where
      after : {u : System D} → Reach cfg t u → Reach cfg s u
      after here = next here step
      after (next run more) = next (after run) more

  -- A visit at which the redemption fails.
  CanRedeem-skip :
      (id : String) (s : System D) (m : Market) (ms : List Market)
      → s.redeeming ≡ m ∷ ms
      → CanRedeem id (record s { redeeming = ms })
      → CanRedeem id s
  CanRedeem-skip id s m ms e h = Step-CanRedeem id (visit_step s healthy 0 fails m ms e) (
      subst (λ db. CanRedeem id (record s { db = db; redeeming = ms }))
        (sym (same (is_redeemable 0 m) s.db)) h)

  CanRedeem-hit :
      (id : String) (old : MarketStatus) (s : System D) (m : Market) (ms : List Market)
      → s.redeeming ≡ m ∷ ms
      → m.id ≡ id
      → status_in id s.db ≡ ok old
      → CanRedeem id s
  CanRedeem-hit id old s m ms e own h =
      Step-CanRedeem id (visit_step s healthy (m.end_time + 900_000_000_000) (ok (pos 0)) m ms e)
        (_, here, rw late (status-update m.id id redeemed old s.db own h))
    where
      late : is_redeemable (m.end_time + 900_000_000_000) m ≡ true
      late = ground arith

  -- The rest of a visit of the list that has the market.
  CanRedeem-listed :
      (id : String) (old : MarketStatus) (ms : List Market) (s : System D)
      → s.redeeming ≡ ms
      → has_key (ids ms) id ≡ true
      → status_in id s.db ≡ ok old
      → CanRedeem id s
  unfolding has_key
  CanRedeem-listed id old [] s e k h = absurd (ground arith)
  CanRedeem-listed id old (m ∷ ms) s e k h = elim (Bool-cases (str_eq m.id id)) [
    | inl hit ↦ CanRedeem-hit id old s m ms e ((str_eq_iff m.id id).0 hit) h
    | inr miss ↦
        CanRedeem-skip id s m ms e
          (CanRedeem-listed id old ms (record s { redeeming = ms }) refl (ground arith) h)
  ]

  -- A market that is resolved: the redeem worker ends its list, and makes a new one.
  pub CanRedeem-resolved :
      (id : String) (ms : List Market) (s : System D)
      → s.serving ≡ true
      → s.redeeming ≡ ms
      → status_in id s.db ≡ ok resolved
      → CanRedeem id s
  unfolding get_resolved_markets
  CanRedeem-resolved id [] s on_ e h =
      Step-CanRedeem id (list_step s healthy (select_where is_resolved s.db.markets) on_ e refl) (
        CanRedeem-listed id resolved (select_where is_resolved s.db.markets)
          (record s { redeeming = select_where is_resolved s.db.markets }) refl
          (listed is_resolved s.db id resolved h refl) h)
  CanRedeem-resolved id (m ∷ ms) s on_ e h =
      CanRedeem-skip id s m ms e (CanRedeem-resolved id ms (record s { redeeming = ms }) on_ refl h)
