-- ===== src/Chain/Tests.antt =====
-- The transaction of a redemption at concrete answers.
use polymarket_go_bot.Prelude.{
  ℕ, zero, suc, ◌≤◌, ◌<◌, ◌-◌, String, ◌≡◌, refl, true, false, some, List, [], ◌∷◌, ◌++◌, length,
}
use polymarket_go_bot.Prelude.Int.{pos}
use polymarket_go_bot.Prelude.Go.{returns, panics, Returns}
use polymarket_go_bot.Prelude.Fallible.{Fallible, ok, fails}
use polymarket_go_bot.Chain.{
  Tx, Attempt, SendAnswer, sent, send_error, Log, Event, zeros, trim_prefix,
  execute_safe_transaction, parse_payout_redemption_event,
}
use polymarket_go_bot.Chain.Retry.{IsRun, execute_safe_transaction-IsRun}
use polymarket_go_bot.Chain.Payout.{IsFirstPayout, parse_payout_redemption_event-IsFirstPayout}

-- The first attempt is refused for its nonce, the others are accepted.
abbrev send_at : ℕ → Tx → SendAnswer
send_at zero tx = send_error "nonce too low: next nonce 8"
send_at (suc n) tx = sent

abbrev answers : ℕ → Attempt
answers k = record {
  is_done = false;
  nonce_at = ok 7;
  suggest_gas_tip_cap = ok 100;
  suggest_gas_price = ok 1000;
  estimate_gas = fails;
  signs = true;
  send = send_at k;
}

execute_safe_transaction-IsRun_example :
    IsRun answers "call" 3 (execute_safe_transaction answers (ok "call"))
execute_safe_transaction-IsRun_example = execute_safe_transaction-IsRun answers "call"

-- The second transaction goes out with the prices raised by twenty per cent.
execute_safe_transaction_run :
    (execute_safe_transaction answers (ok "call")).0
    ≡ ok (record {
      nonce = 7;
      gas = 500_000;
      gas_tip_cap = 120;
      gas_fee_cap = 1200;
      tx_data = "call";
    })
unfolding execute_safe_transaction
execute_safe_transaction_run = refl

abbrev logs : List Log
logs =
    record { address = "token"; topics = "transfer" ∷ []; log_data = "" }
    ∷ record { address = "ctf"; topics = "redemption" ∷ []; log_data = "paid" }
    ∷ []

abbrev unpack : String → Fallible Event
unpack text = ok (record { condition_id = zeros 31 ++ 5 ∷ []; payout = some 2_500_000 })

abbrev hex_to_bytes : String → List ℕ
hex_to_bytes text = 5 ∷ []

parse_payout_redemption_event-IsFirstPayout_example :
    let bytes = hex_to_bytes (trim_prefix "0x05" "0x") in
    let result =
      parse_payout_redemption_event unpack hex_to_bytes pos "redemption" "ctf" logs "0x05" in
    (length bytes ≤ 32
      → Returns
          (IsFirstPayout unpack hex_to_bytes pos "redemption" "ctf"
            (zeros (32 - length bytes) ++ bytes)
            logs)
          result)
    × (32 < length bytes → result ≡ panics)
parse_payout_redemption_event-IsFirstPayout_example =
    parse_payout_redemption_event-IsFirstPayout unpack hex_to_bytes pos "redemption" "ctf" logs
      "0x05"

-- 2.5 USDC are 250 cents.
parse_payout_redemption_event_run :
    parse_payout_redemption_event unpack hex_to_bytes pos "redemption" "ctf" logs "0x05"
    ≡ returns (ok (pos 250))
unfolding parse_payout_redemption_event
parse_payout_redemption_event_run = refl
