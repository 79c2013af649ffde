-- ===== src/System/Lost.antt =====
-- What becomes of a market whose worker has returned while the tables still call it open.
use mathlib.Core.Path.{subst}
use polymarket_go_bot.Prelude.{
  ℕ, String, ◌≡◌, ◌≢◌, refl, sym, ap, ◌∙◌, Bool, true, false, List, All, arith, str_eq, str_eq_iff,
  inl, inr, if◌then◌else◌, Bool-cases,
}
use polymarket_go_bot.Prelude.Int.{ℤ}
use polymarket_go_bot.Prelude.Fallible.{Fallible, ok, fails, ◌>>=◌}
use polymarket_go_bot.Decimal.{Decimal}
use polymarket_go_bot.Model.{Market, MarketStatus, active, resolved, redeemed}
use polymarket_go_bot.Config.{Config}
use polymarket_go_bot.Storage.Postgres.{
  Db, Conn, postgres, find_market, get_market, update_market_status,
}
use polymarket_go_bot.Worker.{new_market_worker}
use polymarket_go_bot.Engine.{Handle, has_worker, process_markets, is_redeemable, after_redeem}
use polymarket_go_bot.Engine.Redeem.{status_in}
use polymarket_go_bot.System.{
  System, Stage, trading, started, ended, set_stage, perform_all, after_round, start, visit, Step,
  round_step, start_step, tick_step, return_step, cancel_step, stop_step, give_up_step, leave_step,
  list_step, visit_step, end_loop_step, end_redeem_step, Reach, here, next,
}
use polymarket_go_bot.System.Statuses
use polymarket_go_bot.System.Statuses.{IsOpen, IsOver}
use polymarket_go_bot.System.Rounds.{IsInserted, IsRounded, process_markets-IsRounded}
use polymarket_go_bot.System.Keeps.{process_tick-cases, run_start-cases}
use polymarket_go_bot.System.Lifecycle.{IsStaged, IsLawful, clash}
use polymarket_go_bot.System.Workers.{perform_all-quiet}
use polymarket_go_bot.System.Steps.{Reach-IsLawful}

-- An update of another id.
other-status :
    (c : Conn) (k id : String) (st : MarketStatus) (db : Db)
    → k ≢ id
    → status_in id (update_market_status c k st db).0 ≡ status_in id db
other-status c k id st db other = elim (Statuses.status_in-update c k id st db) [
  | inl same ↦ same
  | inr (hit, new, old) ↦ absurd (other hit)
]

uninserted : (x y : Fallible MarketStatus) → IsInserted x y → IsOpen x → y ≡ x
uninserted x y (inl e) h = e
uninserted x y (inr (e, k)) (inl h) = absurd (ground arith)
uninserted x y (inr (e, k)) (inr h) = absurd (ground arith)

module _ {D : Type 0} ⦃d : Decimal D⦄ where
  abbrev is_ended : Stage D → Bool
  is_ended ended = true
  is_ended x = false

  -- The market's worker has returned, and its status is the one given.
  abbrev pub IsLeft : String → Fallible MarketStatus → System D → Type 0
  IsLeft id st s = (s.stage id ≡ ended) × (status_in id s.db ≡ st)

  started_ended : (b : Bool) (x : Stage D) → x ≡ ended → started b x ≡ ended
  started_ended true x e = rw e refl
  started_ended false x e = e

  pub set-ended :
      (k id : String) (x : Stage D) (stage : String → Stage D)
      → k ≢ id
      → set_stage k x stage id ≡ stage id
  set-ended k id x stage other = elim (Bool-cases (str_eq k id)) [
    | inl hit ↦ absurd (other ((str_eq_iff k id).0 hit))
    | inr miss ↦ rw miss refl
  ]

  moved-on :
      (s : System D) (db : Db) (k id : String) (x : Stage D)
      → k ≢ id
      → s.stage id ≡ ended
      → status_in id db ≡ status_in id s.db
      → IsLeft id (status_in id s.db) (record s { db = db; stage = set_stage k x s.stage })
  moved-on s db k id x other e same = (set-ended k id x s.stage other ∙ e, same)

  not-ended :
      (s : System D) (k id : String) → s.stage id ≡ ended → is_ended (s.stage k) ≡ false → k ≢ id
  not-ended s k id e f h =
      let t : true ≡ false = sym (ap is_ended e) ∙ sym (ap (λ j. is_ended (s.stage j)) h) ∙ f in
      ground arith

  start-IsLeft :
      (cfg : Config D) (s : System D) (c : Conn) (now : ℕ) (k id : String)
      → k ≢ id
      → s.stage id ≡ ended
      → IsLeft id (status_in id s.db) (start cfg c now k s)
  unfolding new_market_worker get_market perform_all
  start-IsLeft cfg s c now k id other e =
      elim (run_start-cases (λ j. get_market c j s.db) now (new_market_worker cfg k)) [
        | inl failed ↦ rw failed (e, refl)
        | inr (m, found, r) ↦
            let own : m.id ≡ k = Statuses.find_market-id k s.db.markets m (ground arith) in
            rw r (
              moved-on s (update_market_status c m.id active s.db).0 k id _ other e
                (other-status c m.id id active s.db (λ h. other (sym own ∙ h))))
      ]

  visit-IsLeft :
      (s : System D) (c : Conn) (now : ℕ) (paid : Fallible ℤ) (m : Market) (ms : List Market)
      (id : String)
      → m.id ≢ id
      → s.stage id ≡ ended
      → IsLeft id (status_in id s.db) (visit c now paid m ms s)
  visit-IsLeft s c now paid m ms id other e = go (is_redeemable now m) paid
    where
      go :
          (b : Bool) (r : Fallible ℤ)
          → (s.stage id ≡ ended)
            × (status_in id (if b then after_redeem ⦃storage = postgres c⦄ m r s.db else s.db)
                ≡ status_in id s.db)
      go true (ok value) = (e, other-status c m.id id redeemed s.db other)
      go true fails = (e, refl)
      go false r = (e, refl)

  Step-IsLeft :
      (cfg : Config D) {s t : System D} (id : String)
      → Step cfg s t
      → IsLawful s
      → s.stage id ≡ ended
      → IsOpen (status_in id s.db)
      → IsLeft id (status_in id s.db) t
  unfolding perform_all
  Step-IsLeft cfg id (round_step s c clock answer on_) law e open_ =
      go (process_markets ⦃storage = postgres c⦄ cfg clock answer (s.db, s.handles))
        (process_markets-IsRounded c cfg clock answer s.db s.handles law.unique)
    where
      go :
          (r : Db × List Handle)
          → IsRounded s.db s.handles r
          → IsLeft id (status_in id s.db) (after_round s r)
      go (db, hs) (u, grown, got, more) =
          (started_ended (has_worker hs id) (s.stage id) e, uninserted _ _ (grown id) open_)
  Step-IsLeft cfg id (start_step s c now k h) law e open_ =
      start-IsLeft cfg s c now k id (not-ended s k id e (ap is_ended h)) e
  Step-IsLeft cfg id (tick_step s c k w fuel env now r h ticks) law e open_ =
      elim (process_tick-cases fuel env now w r ticks) [
        | inl (past, called) ↦ rw called (
            moved-on s (update_market_status c w.market.id resolved s.db).0 k id _ other e
              (other-status c w.market.id id resolved s.db (λ j. other (sym own ∙ j))))
        | inr (ahead, (same, q)) ↦
            moved-on s (perform_all c r.1 s.db) k id (trading r.0) other e
              (ap (λ ms. find_market id ms >>= λ m. ok m.status) (perform_all-quiet c r.1 s.db q))
      ]
    where
      other : k ≢ id
      other = not-ended s k id e (ap is_ended h)

      own : w.market.id ≡ k
      own = subst (IsStaged s.db k) h (law.staged k)
  Step-IsLeft cfg id (return_step s k w h closed) law e open_ =
      moved-on s s.db k id ended (not-ended s k id e (ap is_ended h)) e refl
  Step-IsLeft cfg id (cancel_step s) law e open_ = (e, refl)
  Step-IsLeft cfg id (stop_step s off) law e open_ = (e, refl)
  Step-IsLeft cfg id (give_up_step s c now k off h failed) law e open_ =
      moved-on s s.db k id ended (not-ended s k id e (ap is_ended h)) e refl
  Step-IsLeft cfg id (leave_step s k w off h) law e open_ =
      moved-on s s.db k id ended (not-ended s k id e (ap is_ended h)) e refl
  Step-IsLeft cfg id (end_loop_step s off) law e open_ = (e, refl)
  Step-IsLeft cfg id (end_redeem_step s off none) law e open_ = (e, refl)
  Step-IsLeft cfg id (list_step s c ms on_ h got) law e open_ = (e, refl)
  Step-IsLeft cfg id (visit_step s c now paid m ms h) law e open_ =
      visit-IsLeft s c now paid m ms id
        (λ j. clash (status_in id s.db) open_ (
          subst (λ k. IsOver (status_in k s.db)) j
            (subst (All (λ m. IsOver (status_in m.id s.db))) h law.over).0))
        e

  -- Once the worker of a market has returned while the tables still call the market planned or
  -- active, as after a failed update to resolved, no run of the system changes either: no goroutine
  -- trades the market again, and its status stays, so that it is neither resolved nor redeemed. The
  -- run starts from a system that the invariant of the steps holds of.
  pub Reach-IsLeft :
      (cfg : Config D) {s t : System D} (id : String)
      → Reach cfg s t
      → IsLawful s
      → s.stage id ≡ ended
      → IsOpen (status_in id s.db)
      → IsLeft id (status_in id s.db) t
  Reach-IsLeft cfg id here law e open_ = (e, refl)
  Reach-IsLeft cfg id (next run step) law e open_ =
      let (e', same) = Reach-IsLeft cfg id run law e open_ in
      let (e'', same') =
        Step-IsLeft cfg id step (Reach-IsLawful cfg run law) e' (subst IsOpen (sym same) open_) in
      (e'', same' ∙ same)
