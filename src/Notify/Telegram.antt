-- ===== src/Notify/Telegram.antt =====
-- internal/notify/telegram/telegram.go: the notifier. JSON and HTTP are parameters.
pub mod Writer
pub mod Spaced
pub mod Sending
pub mod Tests
use Prim.Native.String.{◌++◌ as ◌<>◌}
use polymarket_go_bot.Prelude.{
  ℕ, String, Bool, true, false, not, ◌||◌, List, [], ◌∷◌, str_eq, if◌then◌else◌, ◌==◌,
}
use polymarket_go_bot.Prelude.Int.{ℤ, pos, negsuc}
use polymarket_go_bot.Prelude.Fallible.{Fallible, ok, fails, ◌>>=◌}

pub record Notifier : Type 0 where
  pub bot_token : String
  pub chat_id : ℤ
  pub enabled : Bool

unfoldable pub new_notifier : (bot_token : String) (chat_id : ℤ) (enabled : Bool) → Notifier
new_notifier bot_token chat_id enabled = record {
  bot_token = bot_token;
  chat_id = chat_id;
  enabled = enabled;
}

-- ParseMode is never set.
pub record SendMessageRequest (M : Type 0) : Type 0 where
  pub chat_id : ℤ
  pub text : M

pub record TelegramResponse : Type 0 where
  pub ok_ : Bool
  pub description : String

abbrev pub is_zero : ℤ → Bool
is_zero (pos n) = n == 0
is_zero (negsuc n) = false

-- What the libraries and the network answer: json.Marshal, NewRequestWithContext, Do with the body of
-- the answer, json.Unmarshal. `H` is a request of net/http, `M` a text.
pub record Http (M H : Type 0) : Type 0 where
  pub marshal : SendMessageRequest M → Fallible String
  pub new_request : (url body : String) → Fallible H
  pub do_ : H → Fallible String
  pub unmarshal : String → Fallible TelegramResponse

module _ {M H : Type 0} (http : Http M H) where
  abbrev pub accepted : TelegramResponse → Fallible (Unit {0})
  accepted r = if r.ok_ then ok tt else fails

  -- The result, and the requests that went out.
  abbrev pub on_request : Fallible H → Fallible (Unit {0}) × List H
  on_request fails = (fails, [])
  on_request (ok r) = (http.do_ r >>= λ body. http.unmarshal body >>= accepted, r ∷ [])

  unfoldable pub send_message : Notifier → M → Fallible (Unit {0}) × List H
  send_message n message =
      if not n.enabled
      then (ok tt, [])
      else if str_eq n.bot_token "" || is_zero n.chat_id
      then (fails, [])
      else on_request (
          http.marshal (record { chat_id = n.chat_id; text = message }) >>= λ body.
          http.new_request ("https://api.telegram.org/bot" <> n.bot_token <> "/sendMessage") body)

-- The four kinds of message. An error is only logged.
module _ {H : Type 0} (http : Http String H) where
  abbrev pub send_error : Notifier → (component err : String) → List H
  send_error n component err = (send_message http n ("🔴 ERROR [" <> component <> "]\n" <> err)).1

  abbrev pub send_info : Notifier → String → List H
  send_info n message = (send_message http n ("ℹ\u{fe0f} " <> message)).1

  abbrev pub send_warning : Notifier → String → List H
  send_warning n message = (send_message http n ("⚠\u{fe0f} WARNING\n" <> message)).1

  abbrev pub send_success : Notifier → String → List H
  send_success n message = (send_message http n ("✅ " <> message)).1
