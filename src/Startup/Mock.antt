-- ===== src/Startup/Mock.antt =====
-- The setting for mock orders, from the configuration to the requests of the client.
use polymarket_go_bot.Prelude.{
  String, ◌≡◌, refl, sym, ap, ◌∙◌, Bool, true, false, Option, none, ◌≢◌, [], ◌∷◌, if◌then◌else◌,
  arith,
}
use polymarket_go_bot.Prelude.Fallible.{Fallible, ok, fails, >>=-ok, ok-injective}
use polymarket_go_bot.Decimal.{Decimal}
use polymarket_go_bot.Model.{Outcome}
use polymarket_go_bot.Config.{Config}
use polymarket_go_bot.Chain.{trim_prefix}
use polymarket_go_bot.Exchange.{L2Auth, get_or_derive_l2_creds}
use polymarket_go_bot.Exchange.Orders.{Client, Platform, place_order}
use polymarket_go_bot.Startup.{Boot, mock_order, with_creds, options_of, client_of, new_client}

with_creds-mock_orders :
    (b : Bool) (cli c : Client) (r : Fallible L2Auth × Option L2Auth)
    → cli.mock_orders ≡ false
    → with_creds (if b then mock_order ∷ [] else []) cli r ≡ ok c
    → c.mock_orders ≡ b
with_creds-mock_orders b cli c (fails, kept) e h = absurd (ground arith)
with_creds-mock_orders true cli c (ok l2, kept) e h = ap (λ k. k.mock_orders) (sym (ok-injective h))
with_creds-mock_orders false cli c (ok l2, kept) e h =
    ap (λ k. k.mock_orders) (sym (ok-injective h)) ∙ e

module _ {D K : Type 0} (b : Boot D K) (cfg : Config D) where
  new_client-mock_orders :
      (c : Client)
      → new_client b cfg (options_of cfg) ≡ ok c
      → c.mock_orders ≡ cfg.market.mock_orders
  unfolding new_client
  new_client-mock_orders c h =
      let (u, dialed, h1) = >>=-ok b.dial _ h in
      let (priv, parsed, h2) =
        >>=-ok (b.hex_to_ecdsa (trim_prefix cfg.blockchain.private_key "0x")) _ h1 in
      with_creds-mock_orders cfg.market.mock_orders (client_of b cfg priv) c
        (get_or_derive_l2_creds b.derived b.created none) refl h2

  -- With mock orders set in the configuration, the client that main builds sends no order to the
  -- exchange: each call of PlaceOrder succeeds, posts nothing and leaves the client as it is.
  pub mock_orders-place_order :
      ⦃d : Decimal D⦄ {B L : Type 0} (c : Client) (p : Platform B L) (token_id price size : String)
      (outcome : Outcome)
      → cfg.market.mock_orders ≡ true
      → new_client b cfg (options_of cfg) ≡ ok c
      → let after = place_order D c p token_id outcome price size in
        (after.requests ≡ []) × (after.client ≡ c) × (after.result ≢ fails)
  unfolding place_order
  mock_orders-place_order c p token_id price size outcome mock built =
      let silent : c.mock_orders ≡ true = new_client-mock_orders c built ∙ mock in
      rw silent (refl, refl, λ e. absurd (ground arith))
