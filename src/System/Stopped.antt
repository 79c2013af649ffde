-- ===== src/System/Stopped.antt =====
-- internal/engine/engine.go, Stop: what may still happen once its wait has come back.
use mathlib.Core.Path.{subst}
use polymarket_go_bot.Prelude.{
  ℕ, String, ◌≡◌, refl, sym, ap, ◌∙◌, Bool, true, false, not, List, [], ◌∷◌, All, arith, str_eq_iff,
  ◌⊎◌, inl, inr, if◌then◌else◌,
}
use polymarket_go_bot.Prelude.Int.{ℤ}
use polymarket_go_bot.Prelude.Fallible.{Fallible, ok, fails}
use polymarket_go_bot.Decimal.{Decimal}
use polymarket_go_bot.Model.{Market, MarketStatus, redeemed}
use polymarket_go_bot.Config.{Config}
use polymarket_go_bot.Storage.Postgres.{
  Db, Conn, postgres, update_market_status, get_planned_and_active_markets,
}
use polymarket_go_bot.Engine.{
  Handle, has_worker, process_markets, on_answers, is_redeemable, after_redeem,
}
use polymarket_go_bot.Engine.Redeem.{status_in}
use polymarket_go_bot.System.{
  System, Stage, absent, starting, trading, ended, is_live, wait_group, started, after_round, visit,
  Step, round_step, start_step, tick_step, return_step, cancel_step, stop_step, give_up_step,
  leave_step, list_step, visit_step, end_loop_step, end_redeem_step, Reach, here, next,
}
use polymarket_go_bot.System.Statuses
use polymarket_go_bot.System.Statuses.{IsOver}
use polymarket_go_bot.System.Lifecycle.{is_absent, IsLawful}
use polymarket_go_bot.System.Steps.{Reach-IsLawful}

-- The status is as it was, or the market was over and is redeemed.
abbrev pub IsSettled : Fallible MarketStatus → Fallible MarketStatus → Type 0
IsSettled x y = (y ≡ x) ⊎ (IsOver x × (y ≡ ok redeemed))

settled : (x y z : Fallible MarketStatus) → IsSettled x y → IsSettled y z → IsSettled x z
settled x y z (inl e) (inl k) = inl (k ∙ e)
settled x y z (inl e) (inr (over, k)) = inr (subst IsOver e over, k)
settled x y z (inr (over, e)) (inl k) = inr (over, k ∙ e)
settled x y z (inr (over, e)) (inr (over', k)) = inr (over, k)

not_running : {x : Bool} → x ≡ true → x ≡ false → ⊥
not_running e k = ground arith

module _ {D : Type 0} ⦃d : Decimal D⦄ where
  -- No goroutine of a market runs.
  abbrev pub IsDead : System D → Type 0
  IsDead s = (id : String) → is_live (s.stage id) ≡ false

  counted_dead :
      (stage : String → Stage D) (hs : List Handle) (id : String)
      → wait_group stage hs ≡ 0
      → has_worker hs id ≡ true
      → is_live (stage id) ≡ false
  unfolding wait_group has_worker
  counted_dead stage [] id none h = absurd (ground arith)
  counted_dead stage (k ∷ hs) id none h =
      ground (arith, counted_dead stage hs id, str_eq_iff k.market_id id)

  -- If the counter is zero then no goroutine runs, as each has its handle.
  pub wait_group-IsDead : (s : System D) → IsLawful s → wait_group s.stage s.handles ≡ 0 → IsDead s
  wait_group-IsDead s law none id = go (has_worker s.handles id) refl (s.stage id) refl
    where
      go :
          (b : Bool)
          → has_worker s.handles id ≡ b
          → (x : Stage D) → s.stage id ≡ x
          → is_live (s.stage id) ≡ false
      go true e x k = counted_dead s.stage s.handles id none e
      go false e x k = ground (arith, law.handled id)

  -- The exchange answers no round: its call takes the context, which main has cancelled.
  abbrev pub IsUnanswered : {cfg : Config D} {s t : System D} → Step cfg s t → Type 0
  IsUnanswered (round_step s c clock answer on_) = answer ≡ fails
  IsUnanswered (start_step s c now id h) = Unit
  IsUnanswered (tick_step s c id w fuel env now r h ticks) = Unit
  IsUnanswered (return_step s id w h closed) = Unit
  IsUnanswered (cancel_step s) = Unit
  IsUnanswered (stop_step s off) = Unit
  IsUnanswered (give_up_step s c now id off h failed) = Unit
  IsUnanswered (leave_step s id w off h) = Unit
  IsUnanswered (end_loop_step s off) = Unit
  IsUnanswered (end_redeem_step s off e) = Unit
  IsUnanswered (list_step s c ms on_ h got) = Unit
  IsUnanswered (visit_step s c now paid m ms h) = Unit

  abbrev pub AreUnanswered : {cfg : Config D} {s t : System D} → Reach cfg s t → Type 0
  AreUnanswered here = Unit
  AreUnanswered (next run step) = AreUnanswered run × IsUnanswered step

  -- No goroutine runs, the orders are as they were, and the statuses but for redemptions.
  abbrev pub IsAtRest : System D → System D → Type 0
  IsAtRest s t =
      IsDead t
      × (t.db.orders ≡ s.db.orders)
      × ((id : String) → IsSettled (status_in id s.db) (status_in id t.db))

  IsAtRest-trans : (s t u : System D) → IsAtRest s t → IsAtRest t u → IsAtRest s u
  IsAtRest-trans s t u (dead, same, moved) (dead', same', moved') =
      (dead', same' ∙ same, λ id. settled _ _ _ (moved id) (moved' id))

  unanswered :
      (cfg : Config D) (c : Conn) (clock : ℕ → ℕ) (db : Db) (hs : List Handle)
      → process_markets ⦃storage = postgres c⦄ cfg clock fails (db, hs) ≡ (db, hs)
  unfolding process_markets on_answers
  unanswered cfg c clock db hs = go (get_planned_and_active_markets c db)
    where
      go :
          (saved : Fallible (List String))
          → on_answers ⦃storage = postgres c⦄ cfg clock db hs saved fails ≡ (db, hs)
      go (ok ids) = refl
      go fails = refl

  at_rest : (s : System D) → IsDead s → IsAtRest s s
  at_rest s dead = (dead, refl, λ id. inl refl)

  round-IsAtRest :
      (s : System D) → IsLawful s → IsDead s → IsAtRest s (after_round s (s.db, s.handles))
  round-IsAtRest s law dead =
      ((λ id. begun id (has_worker s.handles id) refl (s.stage id) refl), refl, λ id. inl refl)
    where
      begun :
          (id : String) (b : Bool)
          → has_worker s.handles id ≡ b
          → (x : Stage D) → s.stage id ≡ x
          → is_live (started b x) ≡ false
      begun id true e absent k =
          let present : true ≡ false = sym (ap is_absent k) ∙ law.handled id ∙ ap not e in
          absurd (ground arith)
      begun id true e starting k = sym (ap is_live k) ∙ dead id
      begun id true e (trading w) k = sym (ap is_live k) ∙ dead id
      begun id true e ended k = refl
      begun id false e x k = sym (ap is_live k) ∙ dead id

  visit-IsAtRest :
      (s : System D) (c : Conn) (now : ℕ) (paid : Fallible ℤ) (m : Market) (ms : List Market)
      → IsDead s
      → IsOver (status_in m.id s.db)
      → IsAtRest s (visit c now paid m ms s)
  unfolding update_market_status
  visit-IsAtRest s c now paid m ms dead over =
      (dead, orders (is_redeemable now m) paid, λ id. moved id (is_redeemable now m) paid)
    where
      orders :
          (b : Bool) (r : Fallible ℤ)
          → (if b then after_redeem ⦃storage = postgres c⦄ m r s.db else s.db).orders ≡ s.db.orders
      orders true (ok value) = ground arith
      orders true fails = refl
      orders false r = refl

      moved :
          (id : String) (b : Bool) (r : Fallible ℤ)
          → IsSettled
              (status_in id s.db)
              (status_in id (if b then after_redeem ⦃storage = postgres c⦄ m r s.db else s.db))
      moved id true (ok value) = elim (Statuses.status_in-update c m.id id redeemed s.db) [
        | inl same ↦ inl same
        | inr (own, new, old) ↦ inr (subst (λ k. IsOver (status_in k s.db)) own over, new)
      ]
      moved id true fails = inl refl
      moved id false r = inl refl

  running :
      (s : System D) (id : String) (x : Stage D) → IsDead s → s.stage id ≡ x → is_live x ≡ false
  running s id x dead e = ap is_live (sym e) ∙ dead id

  Step-IsAtRest :
      (cfg : Config D) {s t : System D} (step : Step cfg s t)
      → IsUnanswered step
      → IsLawful s
      → IsDead s
      → IsAtRest s t
  Step-IsAtRest cfg (round_step s c clock answer on_) quiet law dead =
      rw (quiet, unanswered cfg c clock s.db s.handles) (round-IsAtRest s law dead)
  Step-IsAtRest cfg (start_step s c now id h) quiet law dead =
      absurd (not_running refl (running s id starting dead h))
  Step-IsAtRest cfg (tick_step s c id w fuel env now r h ticks) quiet law dead =
      absurd (not_running refl (running s id (trading w) dead h))
  Step-IsAtRest cfg (return_step s id w h closed) quiet law dead =
      absurd (not_running refl (running s id (trading w) dead h))
  Step-IsAtRest cfg (cancel_step s) quiet law dead = (dead, refl, λ id. inl refl)
  Step-IsAtRest cfg (stop_step s off) quiet law dead = (dead, refl, λ id. inl refl)
  Step-IsAtRest cfg (give_up_step s c now id off h failed) quiet law dead =
      absurd (not_running refl (running s id starting dead h))
  Step-IsAtRest cfg (leave_step s id w off h) quiet law dead =
      absurd (not_running refl (running s id (trading w) dead h))
  Step-IsAtRest cfg (end_loop_step s off) quiet law dead = (dead, refl, λ id. inl refl)
  Step-IsAtRest cfg (end_redeem_step s off e) quiet law dead = (dead, refl, λ id. inl refl)
  Step-IsAtRest cfg (list_step s c ms on_ h got) quiet law dead = (dead, refl, λ id. inl refl)
  Step-IsAtRest cfg (visit_step s c now paid m ms h) quiet law dead =
      visit-IsAtRest s c now paid m ms dead
        (subst (All (λ m. IsOver (status_in m.id s.db))) h law.over).0

  -- Once the wait of Engine.Stop could come back, so that its counter is zero, in a run in which the
  -- exchange answers no round any more: no goroutine of a market runs again, no order is stored, and
  -- no status changes but that of a market that is over to redeemed. The run starts from a system
  -- that the invariant of the steps holds of.
  pub Reach-IsAtRest :
      (cfg : Config D) {s t : System D} (run : Reach cfg s t)
      → AreUnanswered run
      → IsLawful s
      → wait_group s.stage s.handles ≡ 0
      → IsAtRest s t
  Reach-IsAtRest cfg {s = s} here quiet law none = at_rest s (wait_group-IsDead s law none)
  Reach-IsAtRest cfg {s = s} {t = t} (next {t = u} run step) (quiet, last) law none =
      let rest = Reach-IsAtRest cfg run quiet law none in
      IsAtRest-trans s u t rest (Step-IsAtRest cfg step last (Reach-IsLawful cfg run law) rest.0)
