-- ===== src/System/Tests.antt =====
-- The running system at concrete tables.
use polymarket_go_bot.Prelude.{
  ℕ, Bool, Bool-cases, String, ◌≡◌, refl, false, true, List, [], ◌∷◌, inl, inr, arith,
  if◌then◌else◌, str_eq, not,
}
use polymarket_go_bot.Prelude.Int.{ℤ}
use polymarket_go_bot.Prelude.Fallible.{Fallible, ok, fails}
use polymarket_go_bot.Decimal.Whole.{whole}
use polymarket_go_bot.Model.{Market, planned, active, resolved}
use polymarket_go_bot.Config.{build_allowed_underlyings}
use polymarket_go_bot.Config.Tests.{loaded as config}
use polymarket_go_bot.Storage.Postgres.{
  find_market, conflicts, get_planned_and_active_markets, insert_market, get_resolved_markets,
}
use polymarket_go_bot.Storage.Postgres.Tests.{market_of, conn, db}
use polymarket_go_bot.Engine.{has_worker, process_markets}
use polymarket_go_bot.Engine.Redeem.{status_in}
use polymarket_go_bot.System.{
  new_engine, System, set_stage, absent, starting, ended, round, round_step, list_step, wait_group,
  Reach, here, next,
}
use polymarket_go_bot.System.Lifecycle.{IsLawful, IsStaged, is_absent, Moves}
use polymarket_go_bot.System.Steps.{Step-IsLawful, new_engine-IsLawful}
use polymarket_go_bot.System.Progress.{IsLawful-CanRedeem}
use polymarket_go_bot.System.Redeems.{CanRedeem}
use polymarket_go_bot.System.Restart.{IsStored, none_yet, then_run, Lives-CanRedeem}
use polymarket_go_bot.System.Stopped.{IsAtRest, Reach-IsAtRest}
use polymarket_go_bot.System.Lost.{IsLeft, Reach-IsLeft}

abbrev clock : ℕ → ℕ
clock i = 100

abbrev answer : Fallible (List Market)
answer = ok (market_of "3" "c" active ∷ [])

-- The process has just started: two markets are stored, one of them resolved.
abbrev fresh : System ℤ
fresh = new_engine db

abbrev fresh-IsLawful : IsLawful fresh
unfolding conflicts
fresh-IsLawful = new_engine-IsLawful db (refl, (refl, tt))

Step-IsLawful_example :
    IsLawful (round config conn clock answer fresh)
    × ((id : String)
        → Moves (status_in id db) (status_in id (round config conn clock answer fresh).db))
unfolding has_worker
Step-IsLawful_example =
    Step-IsLawful config (round_step fresh conn clock answer refl) fresh-IsLawful

-- The round inserts the new market, and starts it and the active one.
round_run :
    let s = round config conn clock answer fresh in
    (status_in "3" s.db ≡ ok planned) × ((s.stage "1" ≡ starting) × (s.stage "2" ≡ absent))
unfolding process_markets get_planned_and_active_markets insert_market build_allowed_underlyings
    find_market
round_run = (refl, (refl, refl))

-- The worker of the active market has returned without its update.
abbrev lost : System ℤ
lost = record {
  db = db;
  handles = record { market_id = "1"; cancelled = false } ∷ [];
  stage = set_stage "1" ended (λ id. absent);
  redeeming = [];
  cancelled = false;
  looping = true;
  serving = true;
}

lost-IsStaged : (id : String) (b : Bool) → IsStaged {D = ℤ} db id (if b then ended else absent)
lost-IsStaged id true = tt
lost-IsStaged id false = tt

lost_handled : (id : String) → is_absent (lost.stage id) ≡ not (has_worker lost.handles id)
unfolding has_worker
lost_handled id = elim (Bool-cases (str_eq "1" id)) [
  | inl hit ↦ rw hit refl
  | inr miss ↦ rw miss refl
]

abbrev lost-IsLawful : IsLawful lost
unfolding conflicts
lost-IsLawful = record {
  unique = (refl, (refl, tt));
  handled = lost_handled;
  staged = λ id. lost-IsStaged id (str_eq "1" id);
  over = tt;
}

Reach-IsLeft_example : IsLeft "1" (status_in "1" db) (round config conn clock answer lost)
unfolding find_market
Reach-IsLeft_example =
    Reach-IsLeft config "1" (next here (round_step lost conn clock answer refl)) lost-IsLawful refl
      (inr refl)

-- The active market of a fresh process can be redeemed.
IsLawful-CanRedeem_example : CanRedeem config "1" fresh
unfolding find_market
IsLawful-CanRedeem_example =
    IsLawful-CanRedeem config "1" active fresh fresh-IsLawful (refl, refl, refl) refl
      (λ e open_. absurd (ground arith))

-- A process ends after its first round; the next one can redeem the market.
Lives-CanRedeem_example :
    IsStored (status_in "1" (round config conn clock answer fresh).db)
    × CanRedeem config "1" (new_engine (round config conn clock answer fresh).db)
unfolding find_market
Lives-CanRedeem_example =
    Lives-CanRedeem config "1" active
      (then_run config none_yet (next here (round_step fresh conn clock answer refl)))
      fresh-IsLawful.unique refl

-- Main has cancelled the context, and the counter of the workers is zero.
abbrev stopped : System ℤ
stopped = record lost { cancelled = true }

stopped-IsLawful : IsLawful stopped
stopped-IsLawful = record {
  unique = lost-IsLawful.unique;
  handled = lost-IsLawful.handled;
  staged = lost-IsLawful.staged;
  over = tt;
}

stopped_run : wait_group stopped.stage stopped.handles ≡ 0
unfolding wait_group
stopped_run = refl

-- A round without an answer, and a listing of the market that is resolved.
abbrev closing :
    Reach config stopped (record (round config conn clock fails stopped) {
      redeeming = market_of "2" "b" resolved ∷ [];
    })
unfolding process_markets get_resolved_markets get_planned_and_active_markets
closing = next (next here (round_step stopped conn clock fails refl)) (
    list_step (round config conn clock fails stopped) conn (market_of "2" "b" resolved ∷ []) refl
      refl refl)

Reach-IsAtRest_example :
    IsAtRest stopped (record (round config conn clock fails stopped) {
      redeeming = market_of "2" "b" resolved ∷ [];
    })
unfolding closing
Reach-IsAtRest_example = Reach-IsAtRest config closing ((tt, refl), tt) stopped-IsLawful stopped_run

-- The context is cancelled after the round, when the worker of the active market starts.
abbrev cancelled : System ℤ
cancelled = record (round config conn clock answer fresh) { cancelled = true }
