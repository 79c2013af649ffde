-- ===== src/System/Workers.antt =====
-- What a start and a tick of a worker keep.
use mathlib.Core.Path.{subst}
use polymarket_go_bot.Prelude.{
  ℕ, String, ◌≡◌, refl, sym, ap, ◌∙◌, true, false, List, [], ◌∷◌, All, All-mono, arith, inl, inr,
}
use polymarket_go_bot.Prelude.Fallible.{ok, ◌>>=◌}
use polymarket_go_bot.Prelude.Go.{returns}
use polymarket_go_bot.Decimal.{Decimal}
use polymarket_go_bot.Model.{MarketStatus, active, resolved}
use polymarket_go_bot.Config.{Config}
use polymarket_go_bot.Storage.Postgres.{Db, Conn, find_market, update_market_status, get_market}
use polymarket_go_bot.Storage.Postgres.Laws.{IsUnique}
use polymarket_go_bot.Worker.{MarketWorker, Readings, new_market_worker}
use polymarket_go_bot.Worker.Tick.{Env, Call, load_market, process_tick}
use polymarket_go_bot.Engine.Redeem.{status_in}
use polymarket_go_bot.System.{
  System, Stage, starting, trading, set_stage, perform_all, start, after_tick,
}
use polymarket_go_bot.System.Statuses
use polymarket_go_bot.System.Statuses.{IsOpen, IsOver}
use polymarket_go_bot.System.Keeps.{IsQuiet, process_tick-cases, run_start-cases}
use polymarket_go_bot.System.Lifecycle.{
  stay, IsStaged, is_absent, IsLawful, same-Moves, activate-Moves, resolve-Moves,
  set_stage-IsStaged, set_stage-handled, IsStaged-mono, updated-IsLawful, IsLawfulMove,
}

-- Calls that write no status leave the markets.
pub perform_all-quiet :
    (c : Conn) (calls : List Call) (db : Db)
    → All IsQuiet calls
    → (perform_all c calls db).markets ≡ db.markets
unfolding perform_all
perform_all-quiet c [] db q = refl
perform_all-quiet c (Call.get_prices x y ∷ calls) db q = perform_all-quiet c calls db q.1
perform_all-quiet c (Call.place_order x y z t ∷ calls) db q = perform_all-quiet c calls db q.1
perform_all-quiet c (Call.insert_order o ∷ calls) db q =
    perform_all-quiet c calls _ q.1 ∙ Statuses.insert_order-markets c o db
perform_all-quiet c (Call.update_market_status id st ∷ calls) db q = absurd q.0

module _ {D : Type 0} ⦃d : Decimal D⦄ where
  pub quiet-IsLawful :
      (s : System D) (db' : Db) (id : String) (x : Stage D)
      → IsLawful s
      → is_absent (s.stage id) ≡ false
      → db'.markets ≡ s.db.markets
      → IsStaged s.db id x
      → is_absent x ≡ false
      → IsLawfulMove s (record s { db = db'; stage = set_stage id x s.stage })
  quiet-IsLawful s db' id x law before e own present = (
    record {
      unique = subst IsUnique (sym e) law.unique;
      handled = set_stage-handled s.handles id x s.stage present before law.handled;
      staged =
          set_stage-IsStaged db' id x s.stage (keep id x own)
            λ j other. keep j (s.stage j) (law.staged j);
      over =
          All-mono (λ m. IsOver (status_in m.id s.db)) (λ m. IsOver (status_in m.id db'))
            s.redeeming (λ m. subst IsOver (sym (same m.id))) law.over;
    },
    λ j. same-Moves (status_in j s.db) (status_in j db') (same j),
  )
    where
      same : (j : String) → status_in j db' ≡ status_in j s.db
      same j = ap (λ ms. find_market j ms >>= λ m. ok m.status) e

      keep : (j : String) (y : Stage D) → IsStaged s.db j y → IsStaged db' j y
      keep j y = IsStaged-mono s.db db' j y (subst IsOpen (sym (same j)))

  -- The same of a worker whose update names the market by the worker's own record.
  renamed-IsLawful :
      (s : System D) (c : Conn) (id k : String) (st : MarketStatus) (w : MarketWorker D)
      → k ≡ id
      → IsLawfulMove s (record s {
        db = (update_market_status c id st s.db).0;
        stage = set_stage id (trading w) s.stage;
      })
      → IsLawfulMove s (record s {
        db = (update_market_status c k st s.db).0;
        stage = set_stage id (trading w) s.stage;
      })
  renamed-IsLawful s c id k st w e h =
      subst
        (λ k. IsLawfulMove s (record s {
          db = (update_market_status c k st s.db).0;
          stage = set_stage id (trading w) s.stage;
        }))
        (sym e) h

  pub start-IsLawful :
      (cfg : Config D) (s : System D) (c : Conn) (now : ℕ) (id : String)
      → IsLawful s
      → s.stage id ≡ starting
      → IsLawfulMove s (start cfg c now id s)
  unfolding new_market_worker get_market perform_all load_market
  start-IsLawful cfg s c now id law e =
      elim (run_start-cases (λ j. get_market c j s.db) now (new_market_worker cfg id)) [
        | inl failed ↦ rw failed (law, λ j. stay (status_in j s.db))
        | inr (m, found, r) ↦
            let own : m.id ≡ id = Statuses.find_market-id id s.db.markets m (ground arith) in
            rw r (
              renamed-IsLawful s c id m.id active (load_market m (new_market_worker cfg id)) own (
                updated-IsLawful s c id active (load_market m (new_market_worker cfg id)) law
                  (ap is_absent e) (inr open_) own
                  λ old was new. activate-Moves (status_in id s.db) _ open_ new))
      ]
    where
      open_ : IsOpen (status_in id s.db)
      open_ = subst (IsStaged s.db id) e (law.staged id)

  pub tick-IsLawful :
      (s : System D) (c : Conn) (id : String) (w : MarketWorker D) (fuel : ℕ) (env : Env D)
      (now : Readings) (r : MarketWorker D × List Call)
      → IsLawful s
      → s.stage id ≡ trading w
      → process_tick fuel env now w ≡ returns r
      → IsLawfulMove s (after_tick c id s r)
  unfolding perform_all
  tick-IsLawful s c id w fuel env now r law e h = elim (process_tick-cases fuel env now w r h) [
    | inl (past, k) ↦ rw k (
        renamed-IsLawful s c id w.market.id resolved (record w { closed = true }) own
          (updated-IsLawful s c id resolved (record w { closed = true }) law (ap is_absent e)
            (inl (inl refl)) own λ old was new. resolve-Moves (status_in id s.db) _ old was new))
    | inr (ahead, (same, q)) ↦
        quiet-IsLawful s (perform_all c r.1 s.db) id (trading r.0) law (ap is_absent e)
          (perform_all-quiet c r.1 s.db q) (ap (λ m. m.id) same.0 ∙ own) refl
  ]
    where
      own : w.market.id ≡ id
      own = subst (IsStaged s.db id) e (law.staged id)
