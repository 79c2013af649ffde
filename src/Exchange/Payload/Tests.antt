-- ===== src/Exchange/Payload/Tests.antt =====
-- The body of an order at concrete bytes: the text of a number is a tally.
use Prim.Native.Char.{code}
use Prim.Native.String
use polymarket_go_bot.Prelude.{
  ℕ, zero, suc, ◌-◌, String, ◌≡◌, refl, ap, Option, some, All, arith, ◌==◌, if◌then◌else◌,
}
use polymarket_go_bot.Prelude.Int.{ℤ, pos, negsuc}
use polymarket_go_bot.Prelude.Fallible.{ok}
use polymarket_go_bot.Decimal.Whole.{whole, whole_text, count-tally}
use polymarket_go_bot.Model.{up}
use polymarket_go_bot.Exchange.Orders.{Platform, place_order}
use polymarket_go_bot.Exchange.Tests.{client, platform}
use polymarket_go_bot.Exchange.Payload.{random_salt_decimal64, set_bytes}
use polymarket_go_bot.Exchange.Payload.Posted.{IsReadable, place_order-IsReadable}

abbrev read_text : String → Option ℤ
read_text String.[] = some (pos 0)
read_text (String.◌∷◌ c s) =
    some (if code c == b'-' then negsuc (String.count s - 1) else pos (suc (String.count s)))

read_text-whole_text : (x : ℤ) → read_text (whole_text x) ≡ some x
read_text-whole_text (pos zero) = refl
read_text-whole_text (pos (suc n)) = ap (λ k. some (pos (suc k))) (count-tally n)
read_text-whole_text (negsuc n) = ap (λ k. some (negsuc k)) (omega (arith, count-tally (suc n)))

abbrev salted : Platform String ℕ
salted = record platform { random_salt = "11111" }

salt_run : "11111" ≡ random_salt_decimal64 whole_text (ok (0, 0, 0, 5)) 0
unfolding random_salt_decimal64 set_bytes
salt_run = refl

place_order-IsReadable_example :
    All
      (IsReadable whole_text read_text (λ x. x))
      (place_order ℤ client salted "u" up "11111" "1111111").requests
place_order-IsReadable_example =
    place_order-IsReadable whole_text read_text (λ x. x) read_text-whole_text (λ n h. refl) ℤ client
      salted "u" "11111" "1111111" up (ok (0, 0, 0, 5)) 0 refl
      (ground arith, ground arith, ground arith, ground arith) salt_run
