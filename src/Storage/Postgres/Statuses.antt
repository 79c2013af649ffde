-- ===== src/Storage/Postgres/Statuses.antt =====
-- The life of a market in the tables: which markets the two listings show after a status is set.
use polymarket_go_bot.Prelude.{
  String, ◌≡◌, Bool, ◌&&◌, List, [], ◌∷◌, arith, str_eq, str_eq_iff, if◌then◌else◌,
}
use polymarket_go_bot.Model.{MarketStatus, Market}
use polymarket_go_bot.Config.{has_key}
use polymarket_go_bot.Storage.Postgres.{select_where, ids, set_status}

-- Whether an id is listed among the markets whose status passes `p`.
abbrev pub lists : (MarketStatus → Bool) → List Market → String → Bool
lists p ms j = has_key (ids (select_where p ms)) j

-- Setting a status that passes `p` lists the id if the market is there, and setting one that does not
-- takes it off the list; the other ids stay as they were.
pub lists-set_status :
    (p : MarketStatus → Bool) (id j : String) (st : MarketStatus) (ms : List Market)
    → lists p (set_status id st ms) j
      ≡ (if str_eq id j then p st && has_key (ids ms) j else lists p ms j)
unfolding select_where set_status has_key
lists-set_status p id j st [] = ground arith
lists-set_status p id j st (k ∷ ks) =
    ground
      (arith, lists-set_status p id j st ks, str_eq_iff k.id id, str_eq_iff k.id j, str_eq_iff id j)
