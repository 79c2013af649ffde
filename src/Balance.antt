-- ===== src/Balance.antt =====
-- internal/balance/balance.go: the balance that is read from the chain, and what the program books on it
-- between two readings. The node and the ABI are parameters.
pub mod Refresh
pub mod Tests
use polymarket_go_bot.Prelude.{ℕ, String, Bool, true, false, List, [], ◌∷◌, if◌then◌else◌}
use polymarket_go_bot.Prelude.Int.{pos}
use polymarket_go_bot.Prelude.Go.{Go, returns, ◌>>=◌}
use polymarket_go_bot.Prelude.Fallible.{Fallible, ok, fails, ◌>>=◌ as ◌>>=?◌}
use polymarket_go_bot.Decimal.{Decimal, quo, dec_zero}

-- What CallContract answers to `balanceOf`, and what the ABI unpacks: a uint256.
pub record Node : Type 0 where
  pub call_contract : Fallible String
  pub unpack : String → Fallible ℕ

-- What comes to the record: a tick of the worker, which drops the error, or one of the two calls.
pub data Event (D : Type 0) : Type 0 where
  tick : Node → Event D
  increase decrease : D → Event D

module _ {D : Type 0} ⦃d : Decimal D⦄ where
  open d use {add, sub, equal, from_int}

  abbrev pub usdc_divisor : D
  usdc_divisor = from_int (pos 1_000_000)

  abbrev pub replaced : D → D → D
  replaced balance new_balance = if equal balance new_balance then balance else new_balance

  abbrev pub on_raw : D → Fallible ℕ → Go (Fallible (Unit {0}) × D)
  on_raw balance fails = returns (fails, balance)
  on_raw balance (ok n) = quo (from_int (pos n)) usdc_divisor >>= λ new_balance.
      returns (ok tt, replaced balance new_balance)

  -- The error, and the balance after the call.
  unfoldable pub update : Node → D → Go (Fallible (Unit {0}) × D)
  update node balance = on_raw balance (node.call_contract >>=? node.unpack)

  -- New, where `packs` is the result of the ABI and of Dial: the balance of a record that is returned.
  unfoldable pub new_balance : (packs : Fallible (Unit {0})) → Node → Go (Fallible D)
  unfolding update
  new_balance fails node = returns fails
  new_balance (ok u) node =
      update node dec_zero >>= λ (err, balance). returns (err >>=? λ u. ok balance)

  abbrev pub increase_balance : D → D → D
  increase_balance balance amount = add balance amount

  abbrev pub decrease_balance : D → D → D
  decrease_balance balance amount = sub balance amount

  unfoldable pub update_worker : List (Event D) → D → Go D
  unfolding update
  update_worker [] balance = returns balance
  update_worker (tick node ∷ es) balance =
      update node balance >>= λ (err, balance'). update_worker es balance'
  update_worker (increase amount ∷ es) balance = update_worker es (increase_balance balance amount)
  update_worker (decrease amount ∷ es) balance = update_worker es (decrease_balance balance amount)
