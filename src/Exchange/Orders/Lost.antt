-- ===== src/Exchange/Orders/Lost.antt =====
-- The orders that PlaceOrder returns, and the table that internal/storage/postgres/order.go writes
-- them to: its column `matched_size` is NUMERIC.
use polymarket_go_bot.Prelude.{String, ◌≡◌, refl, ap, ◌∙◌, Bool, true, false, arith}
use polymarket_go_bot.Prelude.Fallible.{ok, fails}
use polymarket_go_bot.Decimal.{Decimal}
use polymarket_go_bot.Model.{Order, Outcome}
use polymarket_go_bot.Storage.Postgres.{Db, Conn, insert_order}
use polymarket_go_bot.Exchange.Orders.{Client, Platform, place_order}
use polymarket_go_bot.Exchange.Orders.Placed.{place_order-IsPlaced}

insert_order-refuses :
    (conn : Conn) (o : Order) (db : Db)
    → conn.is_numeric o.matched_size ≡ false
    → insert_order conn o db ≡ (db, fails)
unfolding insert_order
insert_order-refuses conn o db h = ground arith

module _ (D : Type 0) ⦃d : Decimal D⦄ {B K : Type 0} (c : Client) (p : Platform B K)
    (token_id price size : String) where
  place_order-matched_size :
      (outcome : Outcome) (placed : Order)
      → (place_order D c p token_id outcome price size).result ≡ ok placed
      → placed.matched_size ≡ ""
  unfolding place_order
  place_order-matched_size outcome placed h = by_mode c.mock_orders refl
    where
      by_mode : (b : Bool) → c.mock_orders ≡ b → placed.matched_size ≡ ""
      by_mode true e = ground arith
      by_mode false e =
          let (_, _, k) = place_order-IsPlaced D c p token_id price size outcome e in
          (k placed h).1.2

  -- An order that was placed, or mocked, is never stored: where the empty text is no number, the table
  -- refuses it, whatever condition the worker sets.
  pub place_order-insert_order :
      (outcome : Outcome) (conn : Conn) (condition_id : String) (placed : Order) (db : Db)
      → (place_order D c p token_id outcome price size).result ≡ ok placed
      → conn.is_numeric "" ≡ false
      → insert_order conn (record placed { condition_id = condition_id }) db ≡ (db, fails)
  place_order-insert_order outcome conn condition_id placed db h e =
      insert_order-refuses conn (record placed { condition_id = condition_id }) db
        (ap conn.is_numeric (place_order-matched_size outcome placed h) ∙ e)
