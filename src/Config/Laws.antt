-- ===== src/Config/Laws.antt =====
-- What a loaded configuration guarantees.
use polymarket_go_bot.Prelude.{
  String, ◌≡◌, refl, Bool, false, ◌||◌, List, [], ◌∷◌, arith, str_eq, str_eq_iff, ◌≢◌, ◌∙◌,
}
use polymarket_go_bot.Prelude.Fallible.{Fallible, ok, >>=-ok, ok-injective}
use polymarket_go_bot.Decimal.{Decimal, IsDecimal, dec_zero, ◌≺◌}
use polymarket_go_bot.Decimal.Laws
use polymarket_go_bot.Config.{
  Config, has_key, set_all, validate, build_allowed_underlyings, is_allowed_underlying, load,
}

or-false : (b : Bool) → b || false ≡ b
or-false b = ground arith

-- A key is set afterwards exactly if it was set before or is among the values.
has_key-set_all :
    (us keys : List String) (k : String)
    → has_key (set_all us keys) k ≡ has_key us k || has_key keys k
unfolding has_key set_all
has_key-set_all [] keys k = refl
has_key-set_all (u ∷ us) keys k =
    ground (arith, has_key-set_all us keys k, has_key-set_all us (u ∷ keys) k, str_eq_iff u k)

module _ {D : Type 0} ⦃d : Decimal D⦄ where
  -- What holds of a configuration that passed `validate` and had its map built.
  pub record IsLoaded (cfg : Config D) : Type 0 where
    pub gamma_url_set : str_eq cfg.polymarket.gamma_url "" ≡ false
    pub polygon_rpc_set : str_eq cfg.blockchain.polygon_rpc "" ≡ false
    pub host_set : str_eq cfg.database.host "" ≡ false
    pub underlying_set : cfg.market.allowed_underlying ≢ []
    pub min_size_pos : dec_zero ≺ cfg.strategy.min_size
    pub allowed :
        (u : String) → is_allowed_underlying cfg u ≡ has_key cfg.market.allowed_underlying u

module _ {D : Type 0} ⦃d : Decimal D⦄ (laws : IsDecimal D) where
  not_zero_pos : (a : D) → d.is_zero a || d.is_negative a ≡ false → dec_zero ≺ a
  not_zero_pos a h =
      Laws.pos_of_nonneg_of_ne laws a (ground (arith, laws.is_negative_lem a))
        (λ e. ground (arith, (laws.is_zero_iff a).1 e))

  -- Validation accepts a configuration exactly if the required settings are there and the minimal
  -- size is positive.
  pub validate-ok :
      (cfg : Config D)
      → validate cfg ≡ ok tt
      → (str_eq cfg.polymarket.gamma_url "" ≡ false)
        × (str_eq cfg.blockchain.polygon_rpc "" ≡ false)
        × (str_eq cfg.database.host "" ≡ false)
        × (cfg.market.allowed_underlying ≢ [])
        × (d.is_zero cfg.strategy.min_size || d.is_negative cfg.strategy.min_size ≡ false)
  unfolding validate
  validate-ok cfg h = ground arith

  built-IsLoaded :
      (raw : Config D) → validate raw ≡ ok tt → IsLoaded (build_allowed_underlyings raw)
  unfolding build_allowed_underlyings is_allowed_underlying
  built-IsLoaded raw h =
      let (gamma, rpc, host, list, size) = validate-ok raw h in
      record {
        gamma_url_set = gamma;
        polygon_rpc_set = rpc;
        host_set = host;
        underlying_set = list;
        min_size_pos = not_zero_pos raw.strategy.min_size size;
        allowed = λ u. has_key-set_all raw.market.allowed_underlying [] u ∙ or-false _;
      }

  validate-with_key :
      (cfg : Config D) (key : String)
      → validate (record cfg { blockchain = record cfg.blockchain { private_key = key } })
        ≡ validate cfg
  unfolding validate
  validate-with_key cfg key = refl

  -- If `load` succeeds, the required settings are there, the minimal order size is positive, and an
  -- underlying is allowed exactly if the list of the configuration names it.
  pub load-IsLoaded :
      (read_file : String → Fallible String) (unmarshal : String → Fallible (Config D))
      (private_key path : String) {cfg : Config D}
      → load read_file unmarshal private_key path ≡ ok cfg
      → IsLoaded cfg
  unfolding load
  load-IsLoaded read_file unmarshal private_key path h =
      let (text, _, h1) = >>=-ok (read_file path) _ h in
      let (raw, _, h2) = >>=-ok (unmarshal text) _ h1 in
      let (u, valid, h3) = >>=-ok (validate raw) _ h2 in
      rw (← ok-injective h3) (built-IsLoaded _ (validate-with_key raw private_key ∙ valid))
