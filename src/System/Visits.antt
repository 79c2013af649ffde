-- ===== src/System/Visits.antt =====
-- What a visit of the redeem worker keeps.
use mathlib.Core.Path.{subst}
use polymarket_go_bot.Prelude.{
  ℕ, ◌≡◌, refl, Bool, true, false, List, ◌∷◌, All, All-mono, inl, inr, if◌then◌else◌,
}
use polymarket_go_bot.Prelude.Int.{ℤ}
use polymarket_go_bot.Prelude.Fallible.{Fallible, ok, fails}
use polymarket_go_bot.Decimal.{Decimal}
use polymarket_go_bot.Model.{Market, redeemed}
use polymarket_go_bot.Storage.Postgres.{Db, Conn, postgres, update_market_status}
use polymarket_go_bot.Storage.Postgres.Laws.{update_market_status-IsUnique}
use polymarket_go_bot.Engine.{is_redeemable, after_redeem}
use polymarket_go_bot.Engine.Redeem.{status_in}
use polymarket_go_bot.System.{System, visit}
use polymarket_go_bot.System.Statuses
use polymarket_go_bot.System.Statuses.{IsOpen, IsOver}
use polymarket_go_bot.System.Lifecycle.{
  stay, IsLawful, same-Moves, redeem-Moves, update-IsOver, update-IsOpen, IsStaged-mono,
  IsLawfulMove,
}

module _ {D : Type 0} ⦃d : Decimal D⦄ where
  pub visit-IsLawful :
      (s : System D) (c : Conn) (now : ℕ) (paid : Fallible ℤ) (m : Market) (ms : List Market)
      → IsLawful s
      → s.redeeming ≡ m ∷ ms
      → IsLawfulMove s (visit c now paid m ms s)
  visit-IsLawful s c now paid m ms law e =
      visited (is_redeemable now m) paid
        (subst (All (λ m. IsOver (status_in m.id s.db))) e law.over)
    where
      left_alone :
          All (λ k. IsOver (status_in k.id s.db)) ms → IsLawfulMove s (record s { redeeming = ms })
      left_alone over = (
        record { unique = law.unique; handled = law.handled; staged = law.staged; over = over },
        λ j. stay (status_in j s.db),
      )

      marked :
          IsOver (status_in m.id s.db)
          → All (λ k. IsOver (status_in k.id s.db)) ms
          → IsLawfulMove s
              (record s { db = (update_market_status c m.id redeemed s.db).0; redeeming = ms })
      marked here_over over = (
        record {
          unique = update_market_status-IsUnique c m.id redeemed s.db law.unique;
          handled = law.handled;
          staged = λ j.
              IsStaged-mono s.db db' j (s.stage j) (update-IsOpen c m.id j redeemed s.db here_over)
                (law.staged j);
          over =
              All-mono (λ k. IsOver (status_in k.id s.db)) (λ k. IsOver (status_in k.id db')) ms
                (λ k. update-IsOver c m.id k.id redeemed s.db (inl (inr refl))) over;
        },
        λ j. elim (Statuses.status_in-update c m.id j redeemed s.db) [
          | inl same ↦ same-Moves (status_in j s.db) (status_in j db') same
          | inr (hit, new, old) ↦
              redeem-Moves (status_in j s.db) (status_in j db')
                (subst (λ k. IsOver (status_in k s.db)) hit here_over) new
        ],
      )
        where
          db' : Db
          db' = (update_market_status c m.id redeemed s.db).0

      visited :
          (b : Bool) (r : Fallible ℤ)
          → All (λ k. IsOver (status_in k.id s.db)) (m ∷ ms)
          → IsLawfulMove s (record s {
            db = if b then after_redeem ⦃storage = postgres c⦄ m r s.db else s.db;
            redeeming = ms;
          })
      visited true (ok value) (h, over) = marked h over
      visited true fails (h, over) = left_alone over
      visited false r (h, over) = left_alone over
