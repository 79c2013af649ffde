-- ===== src/Model.antt =====
-- internal/model: the domain types. A time is a number of nanoseconds, as time.Time compares and
-- subtracts them.
use polymarket_go_bot.Prelude.{ℕ, String, Bool, Option, ltb}

pub data MarketStatus : Type 0 where
  planned active resolved redeemed : MarketStatus

pub data UnderlyingType : Type 0 where
  btc eth sol xrp : UnderlyingType

pub record Market : Type 0 where
  pub id : String
  pub event_id : String
  pub question : String
  pub condition_id : String
  pub slug : String
  pub start_time : ℕ
  pub end_time : ℕ
  pub token_up : String
  pub token_down : String
  pub status : MarketStatus
  pub underlying : UnderlyingType

-- string(m.Underlying)
abbrev pub underlying_text : UnderlyingType → String
underlying_text btc = "BTC"
underlying_text eth = "ETH"
underlying_text sol = "SOL"
underlying_text xrp = "XRP"

pub data Outcome : Type 0 where
  up down : Outcome

pub data TradeSide : Type 0 where
  buy sell : TradeSide

-- `none` is the empty string of an outcome or a side that is not set.
pub record Order : Type 0 where
  pub id : String
  pub status : String
  pub error : Bool
  pub error_msg : String
  pub condition_id : String
  pub original_size : String
  pub matched_size : String
  pub price : String
  pub token_id : String
  pub outcome : Option Outcome
  pub trade_side : Option TradeSide
  pub associate_trades : String

pub record Price (D : Type 0) : Type 0 where
  pub up_ask : D
  pub up_bid : D
  pub down_ask : D
  pub down_bid : D

-- `stat` is the text of a json.RawMessage, `none` if it is nil.
pub record Stats : Type 0 where
  pub condition_id : String
  pub stat_type : String
  pub stat : Option String

-- now.After(m.EndTime)
unfoldable pub is_expired : Market → ℕ → Bool
is_expired m now = ltb m.end_time now
