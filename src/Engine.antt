-- ===== src/Engine.antt =====
-- internal/engine/engine.go: the round that starts the market workers, and the round that redeems. The
-- exchange answers through arguments, the storage through its interface; the clock is given by its
-- successive readings.
pub mod Filter
pub mod Round
pub mod Redeem
pub mod Registry
pub mod Tests
use polymarket_go_bot.Prelude.{
  ℕ, suc, ◌+◌, String, Bool, true, false, not, ◌&&◌, ◌||◌, List, [], ◌∷◌, ◌++◌, str_eq,
  if◌then◌else◌,
}
use polymarket_go_bot.Prelude.Int.{ℤ, pos, sub_ℕ, ltb_ℤ}
use polymarket_go_bot.Prelude.Fallible.{Fallible, ok, fails}
use polymarket_go_bot.Decimal.{Decimal}
use polymarket_go_bot.Model.{Market, planned, redeemed, underlying_text}
use polymarket_go_bot.Config.{Config, has_key, is_allowed_underlying}
use polymarket_go_bot.Storage.{Storage}

-- An entry of `marketWorkers`: its key, and whether its context has been cancelled.
pub record Handle : Type 0 where
  pub market_id : String
  pub cancelled : Bool

unfoldable pub has_worker : List Handle → String → Bool
has_worker [] id = false
has_worker (h ∷ hs) id = str_eq h.market_id id || has_worker hs id

unfoldable pub slice_existence_map : List String → String → Bool
unfolding has_key
slice_existence_map slice id = has_key slice id

-- The loop under the lock: a worker for each id that has none, entered at once.
unfoldable pub start_workers : List String → List Handle → List Handle
unfolding has_worker
start_workers [] hs = hs
start_workers (id ∷ rest) hs =
    start_workers rest
      (if has_worker hs id then hs else hs ++ record { market_id = id; cancelled = false } ∷ [])

-- The calls of the cancel functions in Engine.Stop.
unfoldable pub cancel_all : List Handle → List Handle
cancel_all [] = []
cancel_all (h ∷ hs) = record h { cancelled = true } ∷ cancel_all hs

module _ {D : Type 0} ⦃d : Decimal D⦄ where
  -- The body of the loop of filterMarkets: whether the market is kept, at a reading of the clock.
  unfoldable pub is_tradable : Config D → ℕ → Market → Bool
  unfolding is_allowed_underlying
  is_tradable cfg now m =
      let time_to_expiry = sub_ℕ m.end_time now in
      if not (is_allowed_underlying cfg (underlying_text m.underlying))
      then false
      else if not (ltb_ℤ (pos 0) time_to_expiry)
      then false
      else if ltb_ℤ (pos 0) cfg.market.min_time_to_expiry
          && ltb_ℤ time_to_expiry cfg.market.min_time_to_expiry
      then false
      else true

  -- `clock i` is the reading at the market with the number `i`.
  unfoldable pub filter_from : Config D → (ℕ → ℕ) → ℕ → List Market → List Market
  unfolding is_tradable
  filter_from cfg clock i [] = []
  filter_from cfg clock i (m ∷ ms) =
      let rest = filter_from cfg clock (suc i) ms in
      if is_tradable cfg (clock i) m then m ∷ rest else rest

  unfoldable pub filter_markets : Config D → (ℕ → ℕ) → List Market → List Market
  unfolding filter_from
  filter_markets cfg clock markets = filter_from cfg clock 0 markets

-- Whether fifteen minutes have passed since the end.
abbrev pub is_redeemable : ℕ → Market → Bool
is_redeemable now m = not (ltb_ℤ (sub_ℕ now m.end_time) (pos 900_000_000_000))

module _ {S : Type 0} where
  -- What follows the attempt to insert a market: an error ends the round.
  abbrev pub after_insert :
      (S → S × Fallible (List String)) → S × Fallible (Unit {0}) → S × Fallible (List String)
  after_insert rest (st, ok u) = rest st
  after_insert rest (st, fails) = (st, fails)

  abbrev pub start_inserted : List Handle → S × Fallible (List String) → S × List Handle
  start_inserted hs (st, ok to_start) = (st, start_workers to_start hs)
  start_inserted hs (st, fails) = (st, hs)

module _ {S : Type 0} ⦃storage : Storage S⦄ where
  open storage use {
    get_resolved_markets, get_planned_and_active_markets, insert_market, update_market_status,
  }

  -- The loop that inserts the new markets, with `marketIDToStart`.
  unfoldable pub insert_new :
      (String → Bool) → List Market → List String → S → S × Fallible (List String)
  insert_new uniq [] to_start st = (st, ok to_start)
  insert_new uniq (m ∷ ms) to_start st =
      if uniq m.id
      then insert_new uniq ms to_start st
      else after_insert (insert_new uniq ms (to_start ++ m.id ∷ []))
          (insert_market (record m { status = planned }) st)

  -- What processMarkets does of the two answers; each error leaves the workers as they are.
  unfoldable pub on_answers :
      {D : Type 0} ⦃d : Decimal D⦄
      → Config D
      → (ℕ → ℕ)
      → S
      → List Handle
      → Fallible (List String)
      → Fallible (List Market)
      → S × List Handle
  unfolding insert_new filter_markets start_workers slice_existence_map
  on_answers cfg clock st hs fails answer = (st, hs)
  on_answers cfg clock st hs (ok saved) fails = (st, hs)
  on_answers cfg clock st hs (ok saved) (ok markets) =
      start_inserted hs
        (insert_new (slice_existence_map saved) (filter_markets cfg clock markets) saved st)

  unfoldable pub process_markets :
      {D : Type 0} ⦃d : Decimal D⦄
      → Config D
      → (ℕ → ℕ)
      → Fallible (List Market)
      → S × List Handle
      → S × List Handle
  unfolding on_answers
  process_markets cfg clock answer (st, hs) =
      on_answers cfg clock st hs (get_planned_and_active_markets st) answer

  -- The body of the loop of redeemFn after a redemption. A failed redemption leaves the market for
  -- the next round, and an error of the update is logged.
  abbrev pub after_redeem : Market → Fallible ℤ → S → S
  after_redeem m fails st = st
  after_redeem m (ok paid) st = (update_market_status m.id redeemed st).0

  unfoldable pub redeem_all :
      (clock : ℕ → ℕ) (redeem : String → Fallible ℤ) → ℕ → List Market → S → S
  redeem_all clock redeem i [] st = st
  redeem_all clock redeem i (m ∷ ms) st =
      redeem_all clock redeem (suc i) ms
        (if is_redeemable (clock i) m then after_redeem m (redeem m.condition_id) st else st)

  abbrev pub on_resolved :
      (clock : ℕ → ℕ) (redeem : String → Fallible ℤ) → S → Fallible (List Market) → S
  on_resolved clock redeem st fails = st
  on_resolved clock redeem st (ok markets) = redeem_all clock redeem 0 markets st

  unfoldable pub redeem_round : (clock : ℕ → ℕ) (redeem : String → Fallible ℤ) → S → S
  redeem_round clock redeem st = on_resolved clock redeem st (get_resolved_markets st)
