-- ===== src/Storage.antt =====
-- internal/storage/storage.go: the interface of the storage, as functions of its state `S`. A call that
-- writes returns the new state, also beside an error; it is given no transaction, as every caller does.
pub mod Postgres
use polymarket_go_bot.Prelude.{String, List}
use polymarket_go_bot.Prelude.Fallible.{Fallible}
use polymarket_go_bot.Model.{Market, MarketStatus, Order, Stats}

pub record Storage (S : Type 0) : Type 0 where
  pub get_market : String → S → Fallible Market
  pub get_resolved_markets : S → Fallible (List Market)
  pub get_planned_and_active_markets : S → Fallible (List String)
  pub insert_market : Market → S → S × Fallible (Unit {0})
  pub update_market_status : String → MarketStatus → S → S × Fallible (Unit {0})
  pub insert_order : Order → S → S × Fallible (Unit {0})
  pub insert_stats : Stats → S → S × Fallible (Unit {0})
  pub get_orders_by_condition : String → S → Fallible (List Order)
