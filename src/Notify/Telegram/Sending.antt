-- ===== src/Notify/Telegram/Sending.antt =====
-- internal/notify/telegram/writer.go: the goroutine that Write and WriteLevel start for a message. Its
-- context is cancelled when the call returns, and the two run side by side.
pub mod Cut
use Prim.Native.String.{◌++◌ as ◌<>◌}
use polymarket_go_bot.Prelude.{
  Bool, true, false, not, ◌||◌, ◌≡◌, List, [], ◌∷◌, str_eq, if◌then◌else◌,
}
use polymarket_go_bot.Prelude.Fallible.{Fallible, ok, fails, ◌>>=◌}
use polymarket_go_bot.Notify.Telegram.{Notifier, Http, is_zero}

-- The goroutine: not begun, in SendMessage before `client.Do`, or at its end with a result.
pub data Sender (H : Type 0) : Type 0 where
  unstarted : Sender H
  holding : H → Sender H
  finished : Fallible (Unit {0}) → Sender H

-- `returned` tells whether the call has returned, `requests` what has gone out.
pub record Sending (H : Type 0) : Type 0 where
  pub returned : Bool
  pub sender : Sender H
  pub requests : List H

abbrev pub begun : {H : Type 0} → Sending H
begun = record { returned = false; sender = unstarted; requests = [] }

module _ {M H : Type 0} (http : Http M H) (n : Notifier) (message : M) where
  abbrev pub on_built : Fallible H → Sender H
  on_built fails = finished fails
  on_built (ok r) = holding r

  -- SendMessage up to the call of Do.
  unfoldable pub to_request : Sender H
  to_request =
      if not n.enabled
      then finished (ok tt)
      else if str_eq n.bot_token "" || is_zero n.chat_id
      then finished fails
      else on_built (
          http.marshal (record { chat_id = n.chat_id; text = message }) >>= λ body.
          http.new_request ("https://api.telegram.org/bot" <> n.bot_token <> "/sendMessage") body)

  -- SendMessage from the answer of Do on.
  unfoldable pub answered : H → Fallible (Unit {0})
  answered r =
      http.do_ r >>= λ body. http.unmarshal body >>= λ resp. (if resp.ok_ then ok tt else fails)

  -- With its context cancelled, Do reports an error, whether the request is out or not.
  pub data SendStep : Sending H → Sending H → Type 0 where
    return_step : (s : Sending H) → SendStep s (record s { returned = true })
    begin_step :
        (s : Sending H) → s.sender ≡ unstarted → SendStep s (record s { sender = to_request })
    do_step :
        (s : Sending H) (r : H)
        → s.returned ≡ false
        → s.sender ≡ holding r
        → SendStep s (record s { sender = finished (answered r); requests = r ∷ s.requests })
    cut_step :
        (s : Sending H) (r : H) (out : Bool)
        → s.returned ≡ true
        → s.sender ≡ holding r
        → SendStep s (record s {
          sender = finished fails;
          requests = if out then r ∷ s.requests else s.requests;
        })

  pub data SendRun : Sending H → Type 0 where
    here : SendRun begun
    next : {s t : Sending H} → SendRun s → SendStep s t → SendRun t
