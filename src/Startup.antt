-- ===== src/Startup.antt =====
-- cmd/bot/main.go, with the constructors that it calls: internal/storage/postgres/postgres.go and
-- internal/exchange/polymarket/client.go. What the libraries answer is an argument.
pub mod Mock
pub mod Ordered
pub mod Tests
use polymarket_go_bot.Prelude.{
  String, Bool, true, false, Option, none, some, List, [], ◌∷◌, ◌++◌, if◌then◌else◌,
}
use polymarket_go_bot.Prelude.Fallible.{Fallible, ok, fails, ◌>>=◌}
use polymarket_go_bot.Config.{Config}
use polymarket_go_bot.Chain.{trim_prefix}
use polymarket_go_bot.Exchange.{L2Auth, get_or_derive_l2_creds}
use polymarket_go_bot.Exchange.Orders.{Client}

-- goose: SetDialect, then Up over the embedded migrations.
abbrev pub run_migrations : (set_dialect up : Fallible (Unit {0})) → Fallible (Unit {0})
run_migrations set_dialect up = set_dialect >>= λ u. up

-- postgres.New: the connection is opened, answers, and is brought to the last migration.
unfoldable pub new_postgres :
    (open_ ping set_dialect up : Fallible (Unit {0})) → Fallible (Unit {0})
new_postgres open_ ping set_dialect up = open_ >>= λ u. ping >>= λ u. run_migrations set_dialect up

-- A ClientOption, and MockOrder.
abbrev pub mock_order : Client → Client
mock_order c = record c { mock_orders = true }

abbrev pub apply_options : List (Client → Client) → Client → Client
apply_options [] c = c
apply_options (opt ∷ opts) c = apply_options opts (opt c)

-- What the libraries answer while the process starts; `K` is a private key. `derived` and `created` are
-- the results of the two calls for credentials.
pub record Boot (D K : Type 0) : Type 0 where
  pub load : Fallible (Config D)
  pub open_ : Fallible (Unit {0})
  pub ping : Fallible (Unit {0})
  pub set_dialect : Fallible (Unit {0})
  pub up : Fallible (Unit {0})
  pub dial : Fallible (Unit {0})
  pub hex_to_ecdsa : String → Fallible K
  pub address_of : K → String
  pub derived : Fallible L2Auth
  pub created : Fallible L2Auth

abbrev pub with_creds :
    List (Client → Client) → Client → Fallible L2Auth × Option L2Auth → Fallible Client
with_creds opts cli (fails, kept) = fails
with_creds opts cli (ok l2, kept) = ok (apply_options opts (record cli { l2_creds = some l2 }))

-- What main does, in order: the notifier's messages, the exits, the start of the engine with a client,
-- the wait for a signal, the cancelling of the context and the stop of the engine.
pub data Action : Type 0 where
  exit : String → Action
  send_info : String → Action
  start : Client → Action
  await_signal : Action
  cancel : Action
  stop : Action

module _ {D : Type 0} where
  abbrev pub options_of : Config D → List (Client → Client)
  options_of cfg = if cfg.market.mock_orders then mock_order ∷ [] else []

  abbrev pub told : Config D → String → List Action
  told cfg message = if cfg.telegram.enabled then send_info message ∷ [] else []

  abbrev pub on_client : Config D → Fallible Client → List Action
  on_client cfg fails = exit "failed to initialize polymarket client" ∷ []
  on_client cfg (ok cli) =
      start cli ∷ await_signal ∷ (told cfg "Polybot shutting down" ++ cancel ∷ stop ∷ [])

module _ {D K : Type 0} where
  abbrev pub client_of : Boot D K → Config D → K → Client
  client_of b cfg priv = record {
    mock_orders = false;
    owner_address = b.address_of priv;
    proxy_wallet_address = cfg.polymarket.proxy_wallet_address;
    ctf_exchange_address = cfg.polymarket.ctf_exchange_address;
    l2_creds = none;
  }

  -- polymarket.New
  unfoldable pub new_client : Boot D K → Config D → List (Client → Client) → Fallible Client
  new_client b cfg opts = b.dial >>= λ u.
      b.hex_to_ecdsa (trim_prefix cfg.blockchain.private_key "0x") >>= λ priv.
      with_creds opts (client_of b cfg priv) (get_or_derive_l2_creds b.derived b.created none)

  abbrev pub on_storage : Boot D K → Config D → Fallible (Unit {0}) → List Action
  on_storage b cfg fails = exit "failed to initialize storage" ∷ []
  on_storage b cfg (ok u) = on_client cfg (new_client b cfg (options_of cfg))

  abbrev pub on_config : Boot D K → Fallible (Config D) → List Action
  on_config b fails = exit "failed to load config" ∷ []
  on_config b (ok cfg) =
      told cfg "Polybot started"
      ++ on_storage b cfg (new_postgres b.open_ b.ping b.set_dialect b.up)

  unfoldable pub run_main : Boot D K → List Action
  unfolding new_postgres new_client
  run_main b = on_config b b.load
