-- ===== src/System/Shutdown.antt =====
-- internal/engine/engine.go, Stop: that its wait can come back.
use polymarket_go_bot.Prelude.{ℕ, String, ◌≡◌, true, false, List}
use polymarket_go_bot.Prelude.Fallible.{Fallible}
use polymarket_go_bot.Decimal.{Decimal}
use polymarket_go_bot.Config.{Config}
use polymarket_go_bot.Storage.Postgres.{Conn}
use polymarket_go_bot.Engine.{Handle}
use polymarket_go_bot.System.{
  System, Stage, is_live, wait_group, Step, round_step, start_step, tick_step, return_step,
  cancel_step, stop_step, give_up_step, leave_step, end_loop_step, end_redeem_step, list_step,
  visit_step, Reach, here, next,
}

module _ {D : Type 0} ⦃d : Decimal D⦄ where
  -- Only goroutines that ran before run.
  abbrev IsFewer : (String → Stage D) → (String → Stage D) → Type 0
  IsFewer stage stage' = (id : String) → is_live (stage' id) ≡ true → is_live (stage id) ≡ true

module _ {D : Type 0} ⦃d : Decimal D⦄ {cfg : Config D} (c : Conn) (now : ℕ) where
  -- What a goroutine does of itself after the cancel: it leaves the trading loop, or its `Run`, with
  -- this connection and clock, gets to the loop or fails. It makes no tick.
  abbrev pub IsOwn : {s t : System D} → Step cfg s t → Type 0
  IsOwn (round_step s c' clock answer on_) = ⊥
  IsOwn (start_step s c' now' id e) = (c' ≡ c) × (now' ≡ now)
  IsOwn (tick_step s c' id w fuel env now' r e ticks) = ⊥
  IsOwn (return_step s id w e closed) = ⊥
  IsOwn (cancel_step s) = ⊥
  IsOwn (stop_step s off) = ⊥
  IsOwn (give_up_step s c' now' id off e failed) = (c' ≡ c) × (now' ≡ now)
  IsOwn (leave_step s id w off e) = Unit
  IsOwn (end_loop_step s off) = ⊥
  IsOwn (end_redeem_step s off e) = ⊥
  IsOwn (list_step s c' ms on_ e got) = ⊥
  IsOwn (visit_step s c' now' paid m ms e) = ⊥

  abbrev pub AreOwn : {s t : System D} → Reach cfg s t → Type 0
  AreOwn here = Unit
  AreOwn (next run step) = AreOwn run × IsOwn step

  joined : {s t u : System D} → Reach cfg s t → Reach cfg t u → Reach cfg s u
  joined run here = run
  joined run (next more step) = next (joined run more) step

module _ {D : Type 0} ⦃d : Decimal D⦄ (cfg : Config D) (c : Conn) (now : ℕ) where
  -- A run in which no new goroutine starts, to a system in which that of `id` does not run.
  record CanEnd (id : String) (s : System D) : Type 0 where
    after : System D
    run : Reach cfg s after
    own : AreOwn c now run
    off : after.cancelled ≡ true
    handles : after.handles ≡ s.handles
    fewer : IsFewer s.stage after.stage
    dead : is_live (after.stage id) ≡ false

  -- A run after which none of the goroutines of the handles runs.
  record CanStop (hs : List Handle) (s : System D) : Type 0 where
    after : System D
    run : Reach cfg s after
    own : AreOwn c now run
    off : after.cancelled ≡ true
    handles : after.handles ≡ s.handles
    none : wait_group after.stage hs ≡ 0
