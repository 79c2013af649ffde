-- ===== src/System/Restart.antt =====
-- cmd/bot/main.go and internal/engine/engine.go over the tables that an earlier process has left: the
-- process may end after any step, as by a panic, and main starts a new engine over what is stored. So a
-- market that one process has lost is taken up by the next.
use polymarket_go_bot.Prelude.{String, ◌≡◌, refl, arith}
use polymarket_go_bot.Prelude.Fallible.{Fallible, ok}
use polymarket_go_bot.Decimal.{Decimal}
use polymarket_go_bot.Model.{MarketStatus, planned, active, resolved, redeemed}
use polymarket_go_bot.Config.{Config}
use polymarket_go_bot.Storage.Postgres.{Db}
use polymarket_go_bot.Storage.Postgres.Laws.{IsUnique}
use polymarket_go_bot.Engine.Redeem.{status_in}
use polymarket_go_bot.System.{System, new_engine, Reach, here, next}
use polymarket_go_bot.System.Lifecycle.{
  Moves, stay, insert, activate, resolve, redeem, resolve_planned, resolve_again, IsLawful,
}
use polymarket_go_bot.System.Steps.{Step-IsLawful, Reach-IsLawful, new_engine-IsLawful}
use polymarket_go_bot.System.Redeems.{CanRedeem}
use polymarket_go_bot.System.Progress.{IsLawful-CanRedeem}

-- There is a row with a status.
abbrev pub IsStored : Fallible MarketStatus → Type 0
IsStored x = (st : MarketStatus) × (x ≡ ok st)

Moves-IsStored : {x y : Fallible MarketStatus} → Moves x y → IsStored x → IsStored y
Moves-IsStored (stay x) stored = stored
Moves-IsStored insert stored = (planned, refl)
Moves-IsStored activate stored = (active, refl)
Moves-IsStored resolve stored = (resolved, refl)
Moves-IsStored redeem stored = (redeemed, refl)
Moves-IsStored resolve_planned stored = (resolved, refl)
Moves-IsStored resolve_again stored = (resolved, refl)

-- Tables that a number of processes leave, one after the other, each with its own configuration.
pub data Lives (D : Type 0) ⦃d : Decimal D⦄ (db : Db) : Db → Type 0 where
  none_yet : Lives D db db
  then_run :
      {old : Db} {s : System D} (cfg : Config D)
      → Lives D db old
      → Reach cfg (new_engine old) s
      → Lives D db s.db

module _ {D : Type 0} ⦃d : Decimal D⦄ where
  Reach-IsStored :
      (cfg : Config D) (id : String) {s t : System D}
      → Reach cfg s t
      → IsLawful s
      → IsStored (status_in id s.db)
      → IsStored (status_in id t.db)
  Reach-IsStored cfg id here law stored = stored
  Reach-IsStored cfg id (next run step) law stored =
      Moves-IsStored ((Step-IsLawful cfg step (Reach-IsLawful cfg run law)).1 id)
        (Reach-IsStored cfg id run law stored)

  Lives-IsStored :
      (id : String) {db db' : Db}
      → Lives D db db'
      → IsUnique db.markets
      → IsStored (status_in id db)
      → IsUnique db'.markets × IsStored (status_in id db')
  Lives-IsStored id none_yet unique stored = (unique, stored)
  Lives-IsStored id (then_run {old = old} cfg lives run) unique stored =
      let (before, kept) = Lives-IsStored id lives unique stored in
      let law = new_engine-IsLawful old before in
      ((Reach-IsLawful cfg run law).unique, Reach-IsStored cfg id run law kept)

  -- Whatever a number of processes have done one after the other, each ended after any of its steps:
  -- from tables with unique keys, a market that was stored is stored still, and some run of a new
  -- process leads to one in which it is redeemed.
  pub Lives-CanRedeem :
      (cfg : Config D) (id : String) (st : MarketStatus) {db db' : Db}
      → Lives D db db'
      → IsUnique db.markets
      → status_in id db ≡ ok st
      → IsStored (status_in id db') × CanRedeem cfg id (new_engine db')
  Lives-CanRedeem cfg id st {db' = db'} lives unique h =
      let (after, (st', kept)) = Lives-IsStored id lives unique (st, h) in
      (
        (st', kept),
        IsLawful-CanRedeem cfg id st' (new_engine db') (new_engine-IsLawful db' after)
            (refl, refl, refl) kept (λ e open_. absurd (ground arith)),
      )
