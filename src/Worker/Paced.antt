-- ===== src/Worker/Paced.antt =====
-- internal/engine/worker.go: the times at which the ticks of a run ask for orders.
pub mod Runs
pub mod Tests
use polymarket_go_bot.Prelude.{
  ℕ, suc, ◌+◌, ◌*◌, ◌≤◌, ◌≡◌, refl, sym, ◌∙◌, ap, Bool, true, false, Option, none, some, List, [],
  ◌∷◌, arith, inl, inr, Bool-cases, if◌then◌else◌,
}
use polymarket_go_bot.Prelude.Int.{ℤ, pos, sub_ℕ, ltb_ℤ}
use polymarket_go_bot.Prelude.Go.{returns, Returns, Returns-bind, Returns-and, Returns-if}
use polymarket_go_bot.Decimal.{Decimal, IsDecimal, ◌≺◌}
use polymarket_go_bot.Worker.{MarketWorker, MarketState, Readings, milliseconds, since, is_greater}
use polymarket_go_bot.Worker.Tick.{Env, Call, close, process_tick}
use polymarket_go_bot.Worker.Fills.{IsSound}
use polymarket_go_bot.Worker.Position.{IsAnswered, closed-IsSound, process_tick-IsSound}
use polymarket_go_bot.Worker.Loop.{
  Signal, saw_closed, saw_done, ticked, Tick, LoopResult, with_tick, select_loop, trading_loop,
}
use polymarket_go_bot.Worker.Timed.{IsInTime}
use polymarket_go_bot.Worker.Timed.Ticks.{asks, IsTimed, IsTimedTick, process_tick-IsTimedTick}

-- The time that is kept is not ahead of the clock.
abbrev pub IsPast : Option ℕ → ℕ → Type 0
IsPast none t = Unit
IsPast (some s) t = s ≤ t

-- More than `pause` whole milliseconds have passed.
abbrev pub IsAfterPause : ℕ → Option ℕ → ℕ → Type 0
IsAfterPause pause none now = Unit
IsAfterPause pause (some s) now = s + suc pause * 1_000_000 ≤ now

-- An order comes `stop` milliseconds before the end at the latest, and after the pause.
abbrev pub IsOrderTime : (stop pause end : ℕ) → Option ℕ → Readings → Bool → Type 0
IsOrderTime stop pause end last now true =
    (now.at_tte + stop * 1_000_000 ≤ end) × IsAfterPause pause last now.at_debounce
IsOrderTime stop pause end last now false = Unit

abbrev pub last_order : Option ℕ → Readings → Bool → Option ℕ
last_order last now true = some now.at_decision
last_order last now false = last

-- Each tick that asks for an order does so in time, where `last` is the time of the order before.
abbrev pub IsPaced : (stop pause end : ℕ) → Option ℕ → List Tick → Type 0
IsPaced stop pause end last [] = Unit
IsPaced stop pause end last (t ∷ ts) =
    IsOrderTime stop pause end last t.now (asks t.calls)
    × IsPaced stop pause end (last_order last t.now (asks t.calls)) ts

in_time :
    (end now k : ℕ)
    → ltb_ℤ (milliseconds (sub_ℕ end now)) (pos (suc k)) ≡ false
    → now + suc k * 1_000_000 ≤ end
in_time end now k h = ground arith

after_pause :
    (now s k : ℕ)
    → s ≤ now
    → ltb_ℤ (pos k) (milliseconds (sub_ℕ now s)) ≡ true
    → s + suc k * 1_000_000 ≤ now
after_pause now s k h e = ground arith

pub IsPast-mono : (last : Option ℕ) (t u : ℕ) → IsPast last t → t ≤ u → IsPast last u
IsPast-mono none t u past h = tt
IsPast-mono (some s) t u past h = omega arith

same_ℤ : (x y : ℤ) → ltb_ℤ x y ≡ false → ltb_ℤ y x ≡ false → x ≡ y
same_ℤ x y h k = ground arith

pub IsPast-order :
    (last : Option ℕ) (now : Readings) (b : Bool)
    → IsPast last now.at_debounce
    → now.at_debounce ≤ now.at_decision
    → IsPast (last_order last now b) now.at_decision
IsPast-order last now true past h = omega arith
IsPast-order last now false past h = IsPast-mono last now.at_debounce now.at_decision past h

module _ {D : Type 0} ⦃d : Decimal D⦄ where
  open d use {from_int}

  -- The settings of the two times, in milliseconds.
  abbrev pub HasTimes : MarketWorker D → (stop pause : ℕ) → Type 0
  HasTimes w stop pause =
      (w.stop_trade_tte_ms ≡ from_int (pos (suc stop)))
      × (w.decision_debounce_ms ≡ from_int (pos pause))

module _ {D : Type 0} ⦃d : Decimal D⦄ (laws : IsDecimal D) where
  open d use {from_int, cmp, less_than}

  -- The order of integers, read from the comparison of their decimals.
  lt_of_greater : (x y : ℤ) → is_greater (cmp (from_int x) (from_int y)) ≡ true → ltb_ℤ y x ≡ true
  lt_of_greater x y h = elim (Bool-cases (ltb_ℤ y x)) [
    | inl yes_ ↦ yes_
    | inr no_ ↦ elim (Bool-cases (ltb_ℤ x y)) [
      | inl less ↦
          absurd (ground (arith, laws.cmp_lem (from_int x) (from_int y), laws.from_int_lt x y less))
      | inr same ↦ absurd (
          ground (
            arith,
            ap from_int (same_ℤ x y same no_),
            laws.cmp_lem (from_int x) (from_int y),
            laws.lt_asymm (from_int x) (from_int x),
          ))
    ]
  ]

  ge_of_not_greater :
      (x y : ℤ) → is_greater (cmp (from_int x) (from_int y)) ≡ false → ltb_ℤ y x ≡ false
  ge_of_not_greater x y h = elim (Bool-cases (ltb_ℤ y x)) [
    | inl less ↦ absurd (
        ground (
          arith,
          laws.cmp_lem (from_int x) (from_int y),
          laws.from_int_lt y x less,
          laws.lt_asymm (from_int y) (from_int x),
        ))
    | inr no_ ↦ no_
  ]

  pub order_time :
      (w w' : MarketWorker D) (stop pause : ℕ) (now : Readings) (b : Bool)
      → HasTimes w stop pause
      → IsPast w.last_decision now.at_debounce
      → IsTimed w now b w'
      → IsOrderTime (suc stop) pause w.market.end_time w.last_decision now b
        × (w'.last_decision ≡ last_order w.last_decision now b)
  order_time w w' stop pause now false times past timed = (tt, timed)
  order_time w w' stop pause now true (e, f) past ((open_, over), at) = (
    (
      in_time w.market.end_time now.at_tte stop (
          ge_of_not_greater (pos (suc stop)) (milliseconds (sub_ℕ w.market.end_time now.at_tte))
            (rw e at open_)),
      paused w.last_decision past (rw f at over),
    ),
    at,
  )
    where
      paused :
          (last : Option ℕ)
          → IsPast last now.at_debounce
          → is_greater
              (cmp (from_int (milliseconds (since now.at_debounce last))) (from_int (pos pause)))
            ≡ true
          → IsAfterPause pause last now.at_debounce
      paused none past h = tt
      paused (some s) past h = after_pause now.at_debounce s pause past (lt_of_greater _ _ h)
