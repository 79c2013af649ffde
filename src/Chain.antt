-- ===== src/Chain.antt =====
-- internal/exchange/polymarket/blockchain.go: the transaction of a redemption. The answers of the node,
-- the ABI and the signature are parameters; amounts of big.Int are natural numbers, as none is negative.
pub mod Retry
pub mod Payout
pub mod Safe
pub mod Tests
use Prim.Native.String.{find, len, slice}
use text.Mathlib.Text.{starts_with}
use polymarket_go_bot.Prelude.{
  ℕ, zero, suc, ◌+◌, ◌-◌, ◌*◌, ◌/◌, String, Bool, true, false, not, ◌&&◌, ◌||◌, Option, none, some,
  List, [], ◌∷◌, ◌++◌, length, ltb, leb, ◌==◌, str_eq, if◌then◌else◌,
}
use polymarket_go_bot.Prelude.Int.{ℤ}
use polymarket_go_bot.Prelude.Go.{Go, returns, panics, ◌>>=◌}
use polymarket_go_bot.Prelude.Fallible.{Fallible, ok, fails, ◌>>=◌ as ◌>>=?◌}

-- strings.Contains, strings.TrimPrefix
abbrev pub contains : String → String → Bool
contains s sub = leb (find s sub) (len s)

abbrev pub trim_prefix : String → String → String
trim_prefix s prefix = if starts_with s prefix then slice s (len prefix) (len s) else s

-- types.DynamicFeeTx, with the fields that vary between attempts.
pub record Tx : Type 0 where
  pub nonce : ℕ
  pub gas : ℕ
  pub gas_tip_cap : ℕ
  pub gas_fee_cap : ℕ
  pub tx_data : String

-- SendTransaction: no error, or an error with this text.
pub data SendAnswer : Type 0 where
  sent : SendAnswer
  send_error : String → SendAnswer

-- What one attempt meets: whether the context ends in the pause before it, the answers of NonceAt,
-- SuggestGasTipCap, SuggestGasPrice, EstimateGas and SignTx, and that of SendTransaction.
pub record Attempt : Type 0 where
  pub is_done : Bool
  pub nonce_at : Fallible ℕ
  pub suggest_gas_tip_cap : Fallible ℕ
  pub suggest_gas_price : Fallible ℕ
  pub estimate_gas : Fallible ℕ
  pub signs : Bool
  pub send : Tx → SendAnswer

abbrev pub boost : ℕ → ℕ
boost attempt = 10 + attempt * 10

unfoldable pub boosted : ℕ → ℕ → ℕ
boosted attempt x = if ltb 0 attempt then x + x * boost attempt / 100 else x

abbrev pub gas_or_default : Fallible ℕ → ℕ
gas_or_default (ok gas) = gas
gas_or_default fails = 500_000

-- An attempt up to the signed transaction. An error of the node ends the loop.
unfoldable pub prepare : String → ℕ → Attempt → Fallible Tx
unfolding boosted
prepare exec_data attempt a =
    if ltb 0 attempt && a.is_done
    then fails
    else a.nonce_at >>=? λ nonce. a.suggest_gas_tip_cap >>=? λ tip. a.suggest_gas_price >>=? λ fee.
        (if a.signs
          then ok (record {
            nonce = nonce;
            gas = gas_or_default a.estimate_gas;
            gas_tip_cap = boosted attempt tip;
            gas_fee_cap = boosted attempt fee;
            tx_data = exec_data;
          })
          else fails)

-- The errors after which the transaction is sent once more.
abbrev pub is_retryable : String → Bool
is_retryable msg =
    contains msg "replacement transaction underpriced"
    || contains msg "nonce too low"
    || contains msg "already known"

-- The result, with every transaction that went out, the last one first.
abbrev pub on_send :
    (List Tx → Fallible Tx × List Tx) → Tx → List Tx → SendAnswer → Fallible Tx × List Tx
on_send retry tx out sent = (ok tx, tx ∷ out)
on_send retry tx out (send_error msg) =
    if is_retryable msg then retry (tx ∷ out) else (fails, tx ∷ out)

abbrev pub on_prepared :
    (List Tx → Fallible Tx × List Tx) → Attempt → List Tx → Fallible Tx → Fallible Tx × List Tx
on_prepared retry a out fails = (fails, out)
on_prepared retry a out (ok tx) = on_send retry tx out (a.send tx)

-- The loop with `left` attempts to go, from the one with the number `attempt`.
unfoldable pub send_loop :
    (answers : ℕ → Attempt) → String → (left attempt : ℕ) → List Tx → Fallible Tx × List Tx
unfolding prepare
send_loop answers exec_data zero attempt out = (fails, out)
send_loop answers exec_data (suc left) attempt out =
    on_prepared (send_loop answers exec_data left (suc attempt)) (answers attempt) out
      (prepare exec_data attempt (answers attempt))

unfoldable pub execute_safe_transaction : (ℕ → Attempt) → Fallible String → Fallible Tx × List Tx
unfolding send_loop
execute_safe_transaction answers fails = (fails, [])
execute_safe_transaction answers (ok exec_data) = send_loop answers exec_data 3 0 []

-- One poll of waitForTransaction: a receipt, with whether its status is the successful one and its logs;
-- not found yet, and whether the context is done before the next tick; or another error.
pub record Log : Type 0 where
  pub address : String
  pub topics : List String
  pub log_data : String

pub record Receipt : Type 0 where
  pub is_successful : Bool
  pub logs : List Log

pub data Poll : Type 0 where
  mined : Receipt → Poll
  not_found : Bool → Poll
  poll_error : Poll

-- `out_of_fuel` stands for a loop that goes on past the polls of the list.
unfoldable pub wait_for_transaction : List Poll → Go (Fallible Receipt)
wait_for_transaction [] = Go.out_of_fuel
wait_for_transaction (mined r ∷ polls) = returns (ok r)
wait_for_transaction (not_found is_done ∷ polls) =
    let rest = wait_for_transaction polls in if is_done then returns fails else rest
wait_for_transaction (poll_error ∷ polls) = returns fails

-- The event as UnpackIntoInterface fills it: the condition is 32 bytes, the payout may be nil.
pub record Event : Type 0 where
  pub condition_id : List ℕ
  pub payout : Option ℕ

abbrev pub zeros : ℕ → List ℕ
zeros zero = []
zeros (suc n) = 0 ∷ zeros n

-- copy(conditionIDBytes32[32-len(data):], data): the slice panics if the data is longer.
unfoldable pub pad_condition : List ℕ → Go (List ℕ)
pad_condition bytes =
    if leb (length bytes) 32 then returns (zeros (32 - length bytes) ++ bytes) else panics

abbrev pub bytes_eq : List ℕ → List ℕ → Bool
bytes_eq [] [] = true
bytes_eq [] (y ∷ ys) = false
bytes_eq (x ∷ xs) [] = false
bytes_eq (x ∷ xs) (y ∷ ys) = (x == y) && bytes_eq xs ys

abbrev pub has_signature : String → List String → Bool
has_signature sig [] = false
has_signature sig (t ∷ ts) = str_eq t sig

-- `unpack` is the ABI, `hex_to_bytes` go-ethereum's Hex2Bytes, `to_int64` big.Int's Int64.
module _ (unpack : String → Fallible Event) (hex_to_bytes : String → List ℕ)
    (to_int64 : ℕ → ℤ) where
  abbrev pub payout_of : List ℕ → Fallible Event → Option ℕ
  payout_of condition fails = none
  payout_of condition (ok e) = if bytes_eq e.condition_id condition then e.payout else none

  -- The body of the loop over the logs: the payout, or `none` for `continue`.
  unfoldable pub log_payout : (sig ctf : String) → List ℕ → Log → Option ℕ
  log_payout sig ctf condition log =
      if not (str_eq log.address ctf) || not (has_signature sig log.topics)
      then none
      else payout_of condition (unpack log.log_data)

  abbrev pub on_log_payout : Option ℕ → Fallible ℤ → Fallible ℤ
  on_log_payout (some payout) rest = ok (to_int64 (payout / 10_000))
  on_log_payout none rest = rest

  unfoldable pub find_payout : (sig ctf : String) → List ℕ → List Log → Fallible ℤ
  unfolding log_payout
  find_payout sig ctf condition [] = fails
  find_payout sig ctf condition (log ∷ logs) =
      on_log_payout (log_payout sig ctf condition log) (find_payout sig ctf condition logs)

  unfoldable pub parse_payout_redemption_event :
      (sig ctf : String) → List Log → String → Go (Fallible ℤ)
  unfolding find_payout pad_condition
  parse_payout_redemption_event sig ctf logs condition_id =
      pad_condition (hex_to_bytes (trim_prefix condition_id "0x")) >>= λ condition.
      returns (find_payout sig ctf condition logs)

  -- The end of Client.Redeem, from the receipt on.
  unfoldable pub redeem_receipt : (sig ctf : String) → String → Fallible Receipt → Go (Fallible ℤ)
  unfolding parse_payout_redemption_event
  redeem_receipt sig ctf condition_id fails = returns fails
  redeem_receipt sig ctf condition_id (ok r) =
      if r.is_successful
      then parse_payout_redemption_event sig ctf r.logs condition_id
      else returns fails

  abbrev pub on_sent : (sig ctf : String) → String → List Poll → Fallible Tx → Go (Fallible ℤ)
  on_sent sig ctf condition_id polls fails = returns fails
  on_sent sig ctf condition_id polls (ok tx) =
      wait_for_transaction polls >>= redeem_receipt sig ctf condition_id

  -- Client.Redeem: `exec_data` is the packed and signed call, or an error of one of the steps before.
  unfoldable pub redeem :
      (sig ctf : String) → String → Fallible String → (ℕ → Attempt) → List Poll → Go (Fallible ℤ)
  unfolding execute_safe_transaction wait_for_transaction redeem_receipt
  redeem sig ctf condition_id exec_data answers polls =
      on_sent sig ctf condition_id polls (execute_safe_transaction answers exec_data).0
