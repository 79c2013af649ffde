-- ===== src/Notify/Telegram/Writer.antt =====
-- internal/notify/telegram/writer.go: the writer of the log. Lines are bytes, times nanoseconds; a
-- message that is written is handed to a goroutine that calls SendMessage.
use polymarket_go_bot.Prelude.{
  ℕ, String, Bool, false, not, ◌||◌, Option, none, some, [], ◌∷◌, ◌++◌, length, ltb, str_eq,
  if◌then◌else◌,
}
use polymarket_go_bot.Prelude.Int.{ℤ, pos, sub_ℕ, ltb_ℤ}
use polymarket_go_bot.Prelude.Bytes.{Bytes, ascii, take, has_part}
use polymarket_go_bot.Notify.Telegram.{Notifier}

-- zerolog's levels, by their numbers.
abbrev pub debug_level : ℕ
debug_level = 0

abbrev pub info_level : ℕ
info_level = 1

abbrev pub warn_level : ℕ
warn_level = 2

abbrev pub error_level : ℕ
error_level = 3

abbrev pub fatal_level : ℕ
fatal_level = 4

abbrev pub no_level : ℕ
no_level = 6

-- `last_sent` is `none` for the zero time, which lies further back than any throttle.
pub record TelegramWriter : Type 0 where
  pub notifier : Notifier
  pub min_level : ℕ
  pub throttle : ℤ
  pub last_sent : Option ℕ
  pub max_msg_len : ℕ

unfoldable pub new_telegram_writer : Notifier → ℕ → TelegramWriter
new_telegram_writer notifier min_level = record {
  notifier = notifier;
  min_level = min_level;
  throttle = pos 5_000_000_000;
  last_sent = none;
  max_msg_len = 4000;
}

-- `lower` is strings.ToLower.
unfoldable pub extract_level : (lower : Bytes → Bytes) → Bytes → ℕ
extract_level lower line =
    let msg = lower line in
    if has_part msg (ascii "\"level\":\"fatal\"") || has_part msg (ascii "\"lvl\":\"ftl\"")
    then fatal_level
    else if has_part msg (ascii "\"level\":\"error\"") || has_part msg (ascii "\"lvl\":\"err\"")
    then error_level
    else if has_part msg (ascii "\"level\":\"warn\"") || has_part msg (ascii "\"lvl\":\"wrn\"")
    then warn_level
    else if has_part msg (ascii "\"level\":\"info\"") || has_part msg (ascii "\"lvl\":\"inf\"")
    then info_level
    else if has_part msg (ascii "\"level\":\"debug\"") || has_part msg (ascii "\"lvl\":\"dbg\"")
    then debug_level
    else no_level

abbrev pub truncated : ℕ → Bytes → Bytes
truncated max_msg_len msg =
    if ltb max_msg_len (length msg) then take max_msg_len msg ++ ascii "\n... (truncated)" else msg

abbrev pub is_throttled : TelegramWriter → ℕ → Bool
is_throttled w now = elim w.last_sent [ none ↦ false | some t ↦ ltb_ℤ (sub_ℕ now t) w.throttle ]

-- The writer after the line, and the message that is handed on; the result is always the length of the
-- line. The clock is read at the test, and again when the line passes.
unfoldable pub write :
    (lower : Bytes → Bytes) (at_check at_send : ℕ)
    → TelegramWriter
    → Bytes
    → TelegramWriter × Option Bytes
unfolding extract_level
write lower at_check at_send w p =
    if not w.notifier.enabled
    then (w, none)
    else if ltb (extract_level lower p) w.min_level
    then (w, none)
    else if is_throttled w at_check
    then (w, none)
    else (record w { last_sent = some at_send }, some (truncated w.max_msg_len p))

-- The emoji of a level, as UTF-8.
unfoldable pub emoji_of : String → Option Bytes
emoji_of level =
    if str_eq level "fatal" || str_eq level "panic" || str_eq level "error"
    then some (0xF0 ∷ 0x9F ∷ 0x94 ∷ 0xB4 ∷ [])
    else if str_eq level "warn"
    then some (0xE2 ∷ 0x9A ∷ 0xA0 ∷ 0xEF ∷ 0xB8 ∷ 0x8F ∷ [])
    else if str_eq level "info"
    then some (0xE2 ∷ 0x84 ∷ 0xB9 ∷ 0xEF ∷ 0xB8 ∷ 0x8F ∷ [])
    else none

-- `upper` is strings.ToUpper.
unfoldable pub write_level :
    (upper : String → Bytes) → TelegramWriter → String → Bytes → Option Bytes
unfolding emoji_of
write_level upper w level p = elim (emoji_of level) [
  | none ↦ none
  | some emoji ↦
      some (truncated w.max_msg_len (emoji ++ ascii " [" ++ upper level ++ ascii "]\n" ++ p))
]
