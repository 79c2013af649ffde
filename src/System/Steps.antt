-- ===== src/System/Steps.antt =====
-- Each step of the running system keeps the invariant and follows the life of a market.
use polymarket_go_bot.Prelude.{
  ℕ, String, ◌≡◌, refl, sym, ap, ◌∙◌, Bool, true, false, not, List, All-mono, arith, inl, inr,
}
use polymarket_go_bot.Prelude.Fallible.{Fallible}
use polymarket_go_bot.Decimal.{Decimal}
use polymarket_go_bot.Model.{Market, MarketStatus}
use polymarket_go_bot.Config.{Config}
use polymarket_go_bot.Storage.Postgres.{Db, Conn, postgres}
use polymarket_go_bot.Storage.Postgres.Laws.{IsUnique}
use polymarket_go_bot.Engine.{Handle, has_worker, process_markets}
use polymarket_go_bot.Engine.Round.{has_worker-cancel_all}
use polymarket_go_bot.Engine.Redeem.{status_in}
use polymarket_go_bot.System.{
  new_engine, System, Stage, absent, starting, trading, ended, started, after_round, round, Step,
  round_step, start_step, tick_step, return_step, cancel_step, stop_step, give_up_step, leave_step,
  list_step, visit_step, end_loop_step, end_redeem_step, Reach, here, next,
}
use polymarket_go_bot.System.Statuses
use polymarket_go_bot.System.Statuses.{IsOpen, IsOver}
use polymarket_go_bot.System.Rounds.{
  IsInserted, IsInserted-IsOpen, IsRounded, process_markets-IsRounded,
}
use polymarket_go_bot.System.Lifecycle.{
  Moves, stay, IsStaged, is_absent, IsLawful, inserted-Moves, IsStaged-mono, IsLawfulMove,
}
use polymarket_go_bot.System.Visits.{visit-IsLawful}
use polymarket_go_bot.System.Workers.{quiet-IsLawful, start-IsLawful, tick-IsLawful}

module _ {D : Type 0} ⦃d : Decimal D⦄ where
  round-IsLawful :
      (cfg : Config D) (s : System D) (c : Conn) (clock : ℕ → ℕ) (answer : Fallible (List Market))
      → IsLawful s
      → IsLawfulMove s (round cfg c clock answer s)
  round-IsLawful cfg s c clock answer law =
      rounded (process_markets ⦃storage = postgres c⦄ cfg clock answer (s.db, s.handles))
        (process_markets-IsRounded c cfg clock answer s.db s.handles law.unique)
    where
      rounded :
          (r : Db × List Handle) → IsRounded s.db s.handles r → IsLawfulMove s (after_round s r)
      rounded (db, hs) (u, grown, got, more) = (
        record {
          unique = u;
          handled = λ j. started_handled j (has_worker hs j) refl (s.stage j) refl;
          staged = λ j. started_staged j (has_worker hs j) refl (s.stage j) refl (law.staged j);
          over =
              All-mono (λ m. IsOver (status_in m.id s.db)) (λ m. IsOver (status_in m.id db))
                s.redeeming (λ m. still_over (status_in m.id s.db) (status_in m.id db) (grown m.id))
                law.over;
        },
        λ j. inserted-Moves (status_in j s.db) (status_in j db) (grown j),
      )
        where
          still_over : (x y : Fallible MarketStatus) → IsInserted x y → IsOver x → IsOver y
          still_over x y (inl e) k = rw e k
          still_over x y (inr e) (inl k) = absurd (ground arith)
          still_over x y (inr e) (inr k) = absurd (ground arith)

          started_handled :
              (j : String) (b : Bool)
              → has_worker hs j ≡ b
              → (x : Stage D) → s.stage j ≡ x
              → is_absent (started b x) ≡ not b
          started_handled j true e absent k = refl
          started_handled j true e starting k = refl
          started_handled j true e (trading w) k = refl
          started_handled j true e ended k = refl
          started_handled j false e x k =
              let old : has_worker s.handles j ≡ false = ground (arith, more j) in
              sym (ap is_absent k) ∙ law.handled j ∙ ap not old

          was_present : (j : String) → has_worker s.handles j ≡ true → s.stage j ≡ absent → ⊥
          was_present j old k =
              let e : is_absent (s.stage j) ≡ false = law.handled j ∙ ap not old in
              (let e2 : true ≡ false = sym (ap is_absent k) ∙ e in ground arith)

          started_staged :
              (j : String) (b : Bool)
              → has_worker hs j ≡ b
              → (x : Stage D) → s.stage j ≡ x
              → IsStaged s.db j x
              → IsStaged db j (started b x)
          started_staged j true e absent k h = elim (got j e) [
            | inl old ↦ absurd (was_present j old k)
            | inr open_ ↦ open_
          ]
          started_staged j true e starting k h =
              IsInserted-IsOpen (status_in j s.db) (status_in j db) (grown j) h
          started_staged j true e (trading w) k h = h
          started_staged j true e ended k h = tt
          started_staged j false e x k h =
              IsStaged-mono s.db db j x
                (IsInserted-IsOpen (status_in j s.db) (status_in j db) (grown j)) h

  -- A round of the engine, a start, a tick or a return of a worker, a listing or a visit of the
  -- redeem worker, the cancel of main, the cancels of Engine.Stop and what a cancel makes the
  -- workers, Engine.loop and the redeem worker do, in any order and whatever the exchange and the database answer: from a system with the
  -- invariant (unique ids; a goroutine for each handle, running or returned, and for no other id; a
  -- worker before its loop has an open market, in its loop its own; the redeem worker lists only
  -- resolved and redeemed markets) each leads to one with the invariant, and leaves the status of each
  -- market or moves it along the life of a market: it is inserted as planned, becomes active,
  -- resolved, then redeemed. Off that path it may go from planned to resolved, and from redeemed back
  -- to resolved.
  pub Step-IsLawful :
      (cfg : Config D) {s t : System D}
      → Step cfg s t
      → IsLawful s
      → IsLawful t × ((id : String) → Moves (status_in id s.db) (status_in id t.db))
  Step-IsLawful cfg (round_step s c clock answer on_) law = round-IsLawful cfg s c clock answer law
  Step-IsLawful cfg (start_step s c now id e) law = start-IsLawful cfg s c now id law e
  Step-IsLawful cfg (tick_step s c id w fuel env now r e h) law =
      tick-IsLawful s c id w fuel env now r law e h
  Step-IsLawful cfg (return_step s id w e closed) law =
      quiet-IsLawful s s.db id ended law (ap is_absent e) refl tt refl
  Step-IsLawful cfg (cancel_step s) law = (
    record { unique = law.unique; handled = law.handled; staged = law.staged; over = law.over },
    λ j. stay (status_in j s.db),
  )
  Step-IsLawful cfg (stop_step s off) law = (
    record {
      unique = law.unique;
      handled = λ j. law.handled j ∙ ap not (sym (has_worker-cancel_all s.handles j));
      staged = law.staged;
      over = law.over;
    },
    λ j. stay (status_in j s.db),
  )
  Step-IsLawful cfg (give_up_step s c now id off e failed) law =
      quiet-IsLawful s s.db id ended law (ap is_absent e) refl tt refl
  Step-IsLawful cfg (leave_step s id w off e) law =
      quiet-IsLawful s s.db id ended law (ap is_absent e) refl tt refl
  Step-IsLawful cfg (end_loop_step s off) law = (
    record { unique = law.unique; handled = law.handled; staged = law.staged; over = law.over },
    λ j. stay (status_in j s.db),
  )
  Step-IsLawful cfg (end_redeem_step s off e) law = (
    record { unique = law.unique; handled = law.handled; staged = law.staged; over = law.over },
    λ j. stay (status_in j s.db),
  )
  Step-IsLawful cfg (list_step s c ms on_ e h) law = (
    record {
      unique = law.unique;
      handled = law.handled;
      staged = law.staged;
      over = Statuses.resolved-IsOver c s.db ms law.unique h;
    },
    λ j. stay (status_in j s.db),
  )
  Step-IsLawful cfg (visit_step s c now paid m ms e) law = visit-IsLawful s c now paid m ms law e

  pub Reach-IsLawful : (cfg : Config D) {s t : System D} → Reach cfg s t → IsLawful s → IsLawful t
  Reach-IsLawful cfg here law = law
  Reach-IsLawful cfg (next run step) law = (Step-IsLawful cfg step (Reach-IsLawful cfg run law)).0

  pub new_engine-IsLawful : (db : Db) → IsUnique db.markets → IsLawful {D = D} (new_engine db)
  unfolding has_worker
  new_engine-IsLawful db u = record {
    unique = u;
    handled = λ id. refl;
    staged = λ id. tt;
    over = tt;
  }
