-- ===== src/System/Progress.antt =====
-- That a market which has not been lost can still be brought to the end of its life.
use polymarket_go_bot.Prelude.{
  suc, String, ◌≡◌, refl, ap, ◌∙◌, Bool, true, false, ◌||◌, List, [], ◌∷◌, arith, str_eq_iff, inl,
  inr, Bool-cases, ltb,
}
use polymarket_go_bot.Prelude.Fallible.{Fallible, ok, fails, ◌>>=◌}
use polymarket_go_bot.Decimal.{Decimal}
use polymarket_go_bot.Model.{Market, MarketStatus, planned, active, resolved, redeemed}
use polymarket_go_bot.Config.{Config}
use polymarket_go_bot.Storage.Postgres.{
  Db, find_market, get_market, ids, select_where, is_planned_or_active,
  get_planned_and_active_markets,
}
use polymarket_go_bot.Storage.Postgres.Statuses.{lists}
use polymarket_go_bot.Worker.{MarketWorker, Readings, new_market_worker}
use polymarket_go_bot.Worker.Tick.{Env, Call, run_start, load_market, process_tick}
use polymarket_go_bot.Engine.{Handle, has_worker, process_markets, start_workers}
use polymarket_go_bot.Engine.Round.{has_worker-start_workers}
use polymarket_go_bot.Engine.Redeem.{status_in}
use polymarket_go_bot.System.{
  System, Stage, absent, starting, trading, started, ended, set_stage, perform_all, after_round,
  round, start, round_step, start_step, tick_step, here,
}
use polymarket_go_bot.System.Statuses
use polymarket_go_bot.System.Statuses.{IsOpen}
use polymarket_go_bot.System.Lifecycle.{IsStaged, IsLawful}
use polymarket_go_bot.System.Redeems.{
  healthy, status-update, listed, CanRedeem, Step-CanRedeem, CanRedeem-resolved,
}

or_holds : (a b : Bool) → b ≡ true → a || b ≡ true
or_holds a b h = ground arith

-- Main has not cancelled the context, and neither the loop of the engine nor the redeem worker has
-- returned.
abbrev pub IsRunning : {D : Type 0} → System D → Type 0
IsRunning s = (s.cancelled ≡ false) × (s.looping ≡ true) × (s.serving ≡ true)

module _ {D : Type 0} ⦃d : Decimal D⦄ (cfg : Config D) where
  pub set_own : (id : String) (x : Stage D) (stage : String → Stage D) → set_stage id x stage id ≡ x
  set_own id x stage = rw ((str_eq_iff id id).1 refl) refl

  CanRedeem-trading :
      (id : String) (old : MarketStatus) (s : System D) (w : MarketWorker D)
      → s.serving ≡ true
      → s.stage id ≡ trading w
      → w.market.id ≡ id
      → status_in id s.db ≡ ok old
      → CanRedeem cfg id s
  unfolding process_tick perform_all
  CanRedeem-trading id old s w on_ e own h =
      Step-CanRedeem cfg id
        (tick_step s healthy id w 0 env now
          (record w { closed = true }, Call.update_market_status w.market.id resolved ∷ []) e
          (rw late refl))
        (CanRedeem-resolved cfg id s.redeeming _ on_ refl
          (status-update w.market.id id resolved old s.db own h))
    where
      env : Env D
      env = record {
        get_prices = λ token_up token_down. fails;
        place_order = λ token outcome price size. fails;
        insert_order = λ o. fails;
        update_market_status = λ k st. fails;
      }

      now : Readings
      now = record {
        at_expiry_check = suc w.market.end_time;
        at_tte = 0;
        at_debounce = 0;
        at_decision = 0;
      }

      late : ltb w.market.end_time (suc w.market.end_time) ≡ true
      late = ground arith

  pub run_start-healthy :
      (id : String) (m : Market) (db : Db)
      → find_market id db.markets ≡ ok m
      → run_start (λ j. get_market healthy j db) 0 false (new_market_worker cfg id) ≡ (
        load_market m (new_market_worker cfg id),
        ok (Call.update_market_status m.id active ∷ []),
      )
  unfolding run_start get_market new_market_worker
  run_start-healthy id m db e =
      rw (run_start, e)
        (elim (Bool-cases (ltb 0 m.start_time)) [
          | inl ahead ↦ rw ahead refl
          | inr past ↦ rw past refl
        ])

  CanRedeem-starting :
      (id : String) (old : MarketStatus) (s : System D)
      → s.serving ≡ true
      → s.stage id ≡ starting
      → status_in id s.db ≡ ok old
      → CanRedeem cfg id s
  unfolding perform_all load_market
  CanRedeem-starting id old s on_ e h =
      Step-CanRedeem cfg id (start_step s healthy 0 id e) (go (find_market id s.db.markets) refl h)
    where
      go :
          (found : Fallible Market)
          → find_market id s.db.markets ≡ found
          → (found >>= λ m. ok m.status) ≡ ok old
          → CanRedeem cfg id (start cfg healthy 0 id s)
      go fails f k = absurd (ground arith)
      go (ok m) f k =
          let own : m.id ≡ id = Statuses.find_market-id id s.db.markets m f in
          rw (run_start-healthy id m s.db f) (
            CanRedeem-trading id active _ (load_market m (new_market_worker cfg id)) on_
              (set_own id _ s.stage) own (status-update m.id id active old s.db own h))

  round_run :
      (s : System D)
      → round cfg healthy (λ i. 0) (ok []) s
        ≡ after_round s
            (s.db, start_workers (ids (select_where is_planned_or_active s.db.markets)) s.handles)
  unfolding process_markets get_planned_and_active_markets
  round_run s = refl

  CanRedeem-absent :
      (id : String) (st : MarketStatus) (s : System D)
      → IsRunning s
      → s.stage id ≡ absent
      → status_in id s.db ≡ ok st
      → is_planned_or_active st ≡ true
      → CanRedeem cfg id s
  CanRedeem-absent id st s (off, loops, serves) e h open_ =
      Step-CanRedeem cfg id (round_step s healthy (λ i. 0) (ok []) loops) (
        rw (round_run s) (
          CanRedeem-starting id st _ serves
            (ap (started (has_worker hs id)) e ∙ begun (has_worker hs id) got) h))
    where
      hs : List Handle
      hs = start_workers (ids (select_where is_planned_or_active s.db.markets)) s.handles

      has : lists is_planned_or_active s.db.markets id ≡ true
      has = listed is_planned_or_active s.db id st h open_

      got : has_worker hs id ≡ true
      got =
          has_worker-start_workers (ids (select_where is_planned_or_active s.db.markets)) s.handles
            id
          ∙ or_holds (has_worker s.handles id) (lists is_planned_or_active s.db.markets id) has

      begun : (b : Bool) → b ≡ true → started {D = D} b absent ≡ starting
      begun true k = refl
      begun false k = absurd (ground arith)

  CanRedeem-open :
      (id : String) (st : MarketStatus) (s : System D) (x : Stage D)
      → IsRunning s
      → s.stage id ≡ x
      → IsStaged s.db id x
      → (s.stage id ≡ ended → IsOpen (status_in id s.db) → ⊥)
      → status_in id s.db ≡ ok st
      → is_planned_or_active st ≡ true
      → CanRedeem cfg id s
  CanRedeem-open id st s absent runs e own left h open_ = CanRedeem-absent id st s runs e h open_
  CanRedeem-open id st s starting runs e own left h open_ = CanRedeem-starting id st s runs.2 e h
  CanRedeem-open id st s (trading w) runs e own left h open_ =
      CanRedeem-trading id st s w runs.2 e own h
  CanRedeem-open id planned s ended runs e own left h open_ = absurd (left e (inl h))
  CanRedeem-open id active s ended runs e own left h open_ = absurd (left e (inr h))
  CanRedeem-open id resolved s ended runs e own left h open_ = absurd (ground arith)
  CanRedeem-open id redeemed s ended runs e own left h open_ = absurd (ground arith)

  -- From any system that the invariant of the steps holds of, whose context has not been cancelled
  -- and whose engine loop and redeem worker run, some run leads to one in which a given stored market
  -- is redeemed, unless its worker has returned while the tables still call it planned or active.
  pub IsLawful-CanRedeem :
      (id : String) (st : MarketStatus) (s : System D)
      → IsLawful s
      → IsRunning s
      → status_in id s.db ≡ ok st
      → (s.stage id ≡ ended → IsOpen (status_in id s.db) → ⊥)
      → CanRedeem cfg id s
  IsLawful-CanRedeem id planned s law runs h left =
      CanRedeem-open id planned s (s.stage id) runs refl (law.staged id) left h refl
  IsLawful-CanRedeem id active s law runs h left =
      CanRedeem-open id active s (s.stage id) runs refl (law.staged id) left h refl
  IsLawful-CanRedeem id resolved s law runs h left =
      CanRedeem-resolved cfg id s.redeeming s runs.2 refl h
  IsLawful-CanRedeem id redeemed s law runs h left = (s, here, h)
