-- ===== src/System.antt =====
-- The engine, its workers, the redeem worker and the tables together: internal/engine/engine.go and
-- internal/engine/worker.go over internal/storage/postgres, as steps that interleave. What the
-- connection, the exchange and the clocks answer is chosen anew at each step.
pub mod Statuses
pub mod Rounds
pub mod Keeps
pub mod Lifecycle
pub mod Visits
pub mod Workers
pub mod Steps
pub mod Lost
pub mod Stopped
pub mod Shutdown
pub mod Redeems
pub mod Progress
pub mod Restart
pub mod Tests
use polymarket_go_bot.Prelude.{
  ℕ, suc, String, ◌≡◌, Bool, true, false, Option, none, some, List, [], ◌∷◌, str_eq, if◌then◌else◌,
}
use polymarket_go_bot.Prelude.Int.{ℤ}
use polymarket_go_bot.Prelude.Go.{Go, returns}
use polymarket_go_bot.Prelude.Fallible.{Fallible, ok, fails, ◌>>=◌}
use polymarket_go_bot.Decimal.{Decimal}
use polymarket_go_bot.Model.{Market, MarketStatus}
use polymarket_go_bot.Config.{Config}
use polymarket_go_bot.Storage.Postgres.{
  Db, Conn, postgres, find_market, get_market, get_resolved_markets, update_market_status,
  insert_order,
}
use polymarket_go_bot.Worker.{MarketWorker, Readings, new_market_worker}
use polymarket_go_bot.Worker.Tick.{Env, Call, run_start, process_tick}
use polymarket_go_bot.Engine.{
  Handle, has_worker, cancel_all, process_markets, is_redeemable, after_redeem,
}

-- The goroutine of a market: none, before the trading loop (in `Run`, or in the pause before it is
-- called again), in the trading loop, or returned.
pub data Stage (D : Type 0) : Type 0 where
  absent : Stage D
  starting : Stage D
  trading : MarketWorker D → Stage D
  ended : Stage D

-- `redeeming` holds the markets that the loop of redeemFn has still to visit, `cancelled` tells whether
-- main has cancelled the context, `looping` and `serving` whether Engine.loop and the redeem worker have
-- not returned.
pub record System (D : Type 0) : Type 0 where
  pub db : Db
  pub handles : List Handle
  pub stage : String → Stage D
  pub redeeming : List Market
  pub cancelled : Bool
  pub looping : Bool
  pub serving : Bool

-- NewEngine, over the tables that it finds.
abbrev pub new_engine : {D : Type 0} → Db → System D
new_engine db = record {
  db = db;
  handles = [];
  stage = λ id. absent;
  redeeming = [];
  cancelled = false;
  looping = true;
  serving = true;
}

-- The writes of a call, over the tables.
abbrev pub perform : Conn → Call → Db → Db
perform c (Call.get_prices up down) db = db
perform c (Call.place_order token outcome price size) db = db
perform c (Call.insert_order o) db = (insert_order c o db).0
perform c (Call.update_market_status id st) db = (update_market_status c id st db).0

unfoldable pub perform_all : Conn → List Call → Db → Db
perform_all c [] db = db
perform_all c (call ∷ calls) db = perform_all c calls (perform c call db)

abbrev pub set_stage : {D : Type 0} → String → Stage D → (String → Stage D) → String → Stage D
set_stage id x stage j = if str_eq id j then x else stage j

-- The goroutine has not returned.
abbrev pub is_live : {D : Type 0} → Stage D → Bool
is_live absent = false
is_live starting = true
is_live (trading w) = true
is_live ended = false

-- The counter of `wgMarket`: it is raised for each handle, and lowered when its goroutine returns.
unfoldable pub wait_group : {D : Type 0} → (String → Stage D) → List Handle → ℕ
wait_group stage [] = 0
wait_group stage (h ∷ hs) =
    let rest = wait_group stage hs in if is_live (stage h.market_id) then suc rest else rest

-- `e.wgMarket.Wait()` in Engine.Stop comes back once the counter is zero.
abbrev pub IsStopped : {D : Type 0} → System D → Type 0
IsStopped s = (s.cancelled ≡ true) × (wait_group s.stage s.handles ≡ 0)

-- A market that has got a handle, and had none, starts.
abbrev pub started : {D : Type 0} → Bool → Stage D → Stage D
started true absent = starting
started true x = x
started false x = x

module _ {D : Type 0} ⦃d : Decimal D⦄ where
  abbrev pub after_round : System D → Db × List Handle → System D
  after_round s (db, hs) = record s {
    db = db;
    handles = hs;
    stage = λ id. started (has_worker hs id) (s.stage id);
  }

  -- One round of processMarkets.
  abbrev pub round : Config D → Conn → (ℕ → ℕ) → Fallible (List Market) → System D → System D
  round cfg c clock answer s =
      after_round s (process_markets ⦃storage = postgres c⦄ cfg clock answer (s.db, s.handles))

  -- `Run` up to the trading loop: after an error the goroutine calls it again.
  abbrev pub after_start :
      Conn → String → System D → MarketWorker D × Fallible (List Call) → System D
  after_start c id s (w, fails) = s
  after_start c id s (w, ok calls) = record s {
    db = perform_all c calls s.db;
    stage = set_stage id (trading w) s.stage;
  }

  abbrev pub start : Config D → Conn → (now : ℕ) → String → System D → System D
  start cfg c now id s =
      after_start c id s (run_start (λ j. get_market c j s.db) now false (new_market_worker cfg id))

  -- What a tick leaves: the worker after it, and its calls done.
  abbrev pub after_tick : Conn → String → System D → MarketWorker D × List Call → System D
  after_tick c id s (w, calls) = record s {
    db = perform_all c calls s.db;
    stage = set_stage id (trading w) s.stage;
  }

  -- The body of the loop of redeemFn.
  abbrev pub visit :
      Conn → (now : ℕ) (paid : Fallible ℤ) → Market → List Market → System D → System D
  visit c now paid m ms s = record s {
    db = if is_redeemable now m then after_redeem ⦃storage = postgres c⦄ m paid s.db else s.db;
    redeeming = ms;
  }

  -- The steps. A tick that panics ends the process, so that there is no step. Engine.Stop calls the
  -- cancel functions after main has cancelled the context that they derive from. After the cancel a
  -- goroutine whose `Run` fails gives up, one in the trading loop may leave it, and so may Engine.loop and
  -- the redeem worker, between two rounds and between two calls of redeemFn. Until they do, `select` may
  -- pick the ticker, and what began before the cancel goes on.
  pub data Step (cfg : Config D) : System D → System D → Type 0 where
    round_step :
        (s : System D) (c : Conn) (clock : ℕ → ℕ) (answer : Fallible (List Market))
        → s.looping ≡ true
        → Step cfg s (round cfg c clock answer s)
    start_step :
        (s : System D) (c : Conn) (now : ℕ) (id : String)
        → s.stage id ≡ starting
        → Step cfg s (start cfg c now id s)
    tick_step :
        (s : System D) (c : Conn) (id : String) (w : MarketWorker D) (fuel : ℕ) (env : Env D)
        (now : Readings) (r : MarketWorker D × List Call)
        → s.stage id ≡ trading w
        → process_tick fuel env now w ≡ returns r
        → Step cfg s (after_tick c id s r)
    return_step :
        (s : System D) (id : String) (w : MarketWorker D)
        → s.stage id ≡ trading w
        → w.closed ≡ true
        → Step cfg s (record s { stage = set_stage id ended s.stage })
    cancel_step : (s : System D) → Step cfg s (record s { cancelled = true })
    stop_step :
        (s : System D)
        → s.cancelled ≡ true
        → Step cfg s (record s { handles = cancel_all s.handles })
    give_up_step :
        (s : System D) (c : Conn) (now : ℕ) (id : String)
        → s.cancelled ≡ true
        → s.stage id ≡ starting
        → (run_start (λ j. get_market c j s.db) now true (new_market_worker cfg id)).1 ≡ fails
        → Step cfg s (record s { stage = set_stage id ended s.stage })
    leave_step :
        (s : System D) (id : String) (w : MarketWorker D)
        → s.cancelled ≡ true
        → s.stage id ≡ trading w
        → Step cfg s (record s { stage = set_stage id ended s.stage })
    end_loop_step : (s : System D) → s.cancelled ≡ true → Step cfg s (record s { looping = false })
    end_redeem_step :
        (s : System D)
        → s.cancelled ≡ true
        → s.redeeming ≡ []
        → Step cfg s (record s { serving = false })
    list_step :
        (s : System D) (c : Conn) (ms : List Market)
        → s.serving ≡ true
        → s.redeeming ≡ []
        → get_resolved_markets c s.db ≡ ok ms
        → Step cfg s (record s { redeeming = ms })
    visit_step :
        (s : System D) (c : Conn) (now : ℕ) (paid : Fallible ℤ) (m : Market) (ms : List Market)
        → s.redeeming ≡ m ∷ ms
        → Step cfg s (visit c now paid m ms s)

  pub data Reach (cfg : Config D) (s : System D) : System D → Type 0 where
    here : Reach cfg s s
    next : {t u : System D} → Reach cfg s t → Step cfg t u → Reach cfg s u
