-- ===== src/Config.antt =====
-- internal/config/config.go. Reading the file, its YAML and the environment are parameters of `load`;
-- durations are nanoseconds.
pub mod Tests
pub mod Laws
use Prim.Native.String.{◌++◌ as ◌<>◌}
use polymarket_go_bot.Prelude.{
  ℕ, String, Bool, true, false, ◌||◌, List, [], ◌∷◌, str_eq, if◌then◌else◌,
}
use polymarket_go_bot.Prelude.Int.{ℤ}
use polymarket_go_bot.Prelude.Fallible.{Fallible, ok, fails, ◌>>=◌}
use polymarket_go_bot.Decimal.{Decimal}

pub record PolymarketConfig : Type 0 where
  pub clob_url : String
  pub gamma_url : String
  pub usdce_address : String
  pub proxy_wallet_address : String
  pub condition_token_address : String
  pub ctf_exchange_address : String

pub record BlockchainConfig : Type 0 where
  pub polygon_rpc : String
  pub private_key : String

pub record MarketConfig : Type 0 where
  pub allowed_underlying : List String
  pub update_interval : ℤ
  pub poll_interval : ℤ
  pub min_time_to_expiry : ℤ
  pub mock_orders : Bool

pub record StrategyConfig (D : Type 0) : Type 0 where
  pub risk_limit : D
  pub min_size : D
  pub max_step : D
  pub eps_min : D
  pub eps_max : D
  pub tau_min : D
  pub tau_max : D
  pub k_min : D
  pub k_max : D
  pub alpha : D
  pub e_max : D
  pub debounce : ℤ
  pub stop_tte : ℤ

pub record DatabaseConfig : Type 0 where
  pub user : String
  pub password : String
  pub host : String
  pub port : String
  pub dbname : String

pub record TelegramConfig : Type 0 where
  pub bot_token : String
  pub chat_id : ℤ
  pub enabled : Bool

-- `allowed_underlyings` holds the keys that the map has, each with the value `true`.
pub record Config (D : Type 0) : Type 0 where
  pub polymarket : PolymarketConfig
  pub blockchain : BlockchainConfig
  pub market : MarketConfig
  pub strategy : StrategyConfig D
  pub database : DatabaseConfig
  pub telegram : TelegramConfig
  pub allowed_underlyings : List String

abbrev pub is_empty {ℓ} : {A : Type ℓ} → List A → Bool
is_empty [] = true
is_empty (x ∷ xs) = false

-- Whether a key is in a map to `true`, kept as the list of its keys.
unfoldable pub has_key : List String → String → Bool
has_key [] k = false
has_key (j ∷ js) k = str_eq j k || has_key js k

-- The loop that sets `allowedUnderlyings[u] = true`.
unfoldable pub set_all : List String → List String → List String
unfolding has_key
set_all [] keys = keys
set_all (u ∷ us) keys = set_all us (if has_key keys u then keys else u ∷ keys)

module _ {D : Type 0} ⦃d : Decimal D⦄ where
  unfoldable pub validate : Config D → Fallible (Unit {0})
  validate cfg =
      if str_eq cfg.polymarket.gamma_url ""
      then fails
      else if str_eq cfg.blockchain.polygon_rpc ""
      then fails
      else if str_eq cfg.database.host ""
      then fails
      else if is_empty cfg.market.allowed_underlying
      then fails
      else if d.is_zero cfg.strategy.min_size || d.is_negative cfg.strategy.min_size
      then fails
      else ok tt

  -- The map is made anew, and each value of the list is set in it: a later one adds a key.
  unfoldable pub build_allowed_underlyings : Config D → Config D
  unfolding set_all
  build_allowed_underlyings cfg = record cfg {
    allowed_underlyings = set_all cfg.market.allowed_underlying [];
  }

  unfoldable pub is_allowed_underlying : Config D → String → Bool
  unfolding has_key
  is_allowed_underlying cfg underlying = has_key cfg.allowed_underlyings underlying

  unfoldable pub get_db_conn_url : Config D → String
  get_db_conn_url cfg =
      "postgres://" <> cfg.database.user <> ":" <> cfg.database.password <> "@" <> cfg.database.host
      <> ":" <> cfg.database.port <> "/" <> cfg.database.dbname <> "?sslmode=disable"

  -- os.ReadFile, yaml.Unmarshal and os.Getenv("POLYMARKET_PRIVATE_KEY") are given by their results.
  unfoldable pub load :
      (read_file : String → Fallible String) (unmarshal : String → Fallible (Config D))
      (private_key : String)
      → String
      → Fallible (Config D)
  load read_file unmarshal private_key path = do
    text ← read_file path
    cfg ← unmarshal text
    _ ← validate cfg
    ok (
        build_allowed_underlyings
          (record cfg { blockchain = record cfg.blockchain { private_key = private_key } }))
