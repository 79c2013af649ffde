-- ===== src/Notify/Telegram/Tests.antt =====
-- The writer and the notifier at concrete lines.
use polymarket_go_bot.Prelude.{String, ◌≡◌, refl, true, false, none, some, List, [], ◌∷◌}
use polymarket_go_bot.Prelude.Int.{pos}
use polymarket_go_bot.Prelude.Fallible.{ok, fails}
use polymarket_go_bot.Prelude.Bytes.{Bytes, ascii, has_part}
use polymarket_go_bot.Notify.Telegram.{Notifier, Http, send_message}
use polymarket_go_bot.Notify.Telegram.Writer.{
  TelegramWriter, new_telegram_writer, info_level, extract_level, write_level,
}
use polymarket_go_bot.Notify.Telegram.Sending.{
  Sending, holding, finished, begun, to_request, answered, return_step, begin_step, do_step,
  SendRun, here, next,
}
use polymarket_go_bot.Notify.Telegram.Sending.Cut.{IsSentAs, SendRun-IsCut}
use polymarket_go_bot.Notify.Telegram.Spaced.{Line, Throttles, write_all, write_all-Throttles}

abbrev notifier : Notifier
notifier = record { bot_token = "t"; chat_id = pos 7; enabled = true }

abbrev writer : TelegramWriter
unfolding new_telegram_writer
writer = new_telegram_writer notifier info_level

abbrev lower : Bytes → Bytes
lower s = s

-- An error, a second one four seconds later, one of the debug level, and one after six seconds.
abbrev lines : List Line
lines =
    record { at_check = 0; at_send = 1; bytes = ascii "{\"level\":\"error\"}" }
    ∷ record {
      at_check = 4_000_000_000;
      at_send = 4_000_000_001;
      bytes = ascii "{\"level\":\"error\"}";
    }
    ∷ record {
      at_check = 5_000_000_000;
      at_send = 5_000_000_001;
      bytes = ascii "{\"level\":\"debug\"}";
    }
    ∷ record {
      at_check = 6_000_000_000;
      at_send = 6_000_000_001;
      bytes = ascii "{\"level\":\"info\"}";
    }
    ∷ []

write_all-Throttles_example :
    Throttles lower 5_000_000_000 1 4000 none lines (write_all lower writer lines)
unfolding writer
write_all-Throttles_example = write_all-Throttles lower 5_000_000_000 writer lines refl refl

write_all_run :
    write_all lower writer lines
    ≡ record { at = 1; message = ascii "{\"level\":\"error\"}" }
      ∷ record { at = 6_000_000_001; message = ascii "{\"level\":\"info\"}" }
      ∷ []
unfolding write_all writer has_part
write_all_run = refl

-- A line of the trace level has no level that the writer knows, and passes.
extract_level_trace : extract_level lower (ascii "{\"level\":\"trace\"}") ≡ 6
unfolding extract_level has_part
extract_level_trace = refl

write_level_run :
    write_level (λ s. ascii "FATAL") writer "fatal" (ascii "x")
    ≡ some (0xF0 ∷ 0x9F ∷ 0x94 ∷ 0xB4 ∷ ascii " [FATAL]\nx")
unfolding write_level writer
write_level_run = refl

abbrev http : Http String String
http = record {
  marshal = λ r. ok r.text;
  new_request = λ url body. ok body;
  do_ = λ r. ok r;
  unmarshal = λ body. ok (record { ok_ = true; description = "" });
}

send_message_run :
    (send_message http notifier "x" ≡ (ok tt, "x" ∷ []))
    × (send_message http (record notifier { bot_token = "" }) "x" ≡ (fails, []))
    × (send_message http (record notifier { enabled = false }) "x" ≡ (ok tt, []))
unfolding send_message
send_message_run = (refl, refl, refl)

-- The goroutine gets its answer, and then the call returns.
abbrev after_answer : Sending String
after_answer = record {
  returned = true;
  sender = finished (answered http notifier "x" "x");
  requests = "x" ∷ [];
}

holding_run : to_request http notifier "x" ≡ holding "x"
unfolding to_request
holding_run = refl

sent_run : SendRun http notifier "x" after_answer
sent_run =
    next
      (next (next here (begin_step begun refl))
        (do_step (record begun { sender = to_request http notifier "x" }) "x" refl holding_run))
      (return_step (record after_answer { returned = false }))

SendRun-IsCut_example :
    IsSentAs http notifier "x" true (finished (answered http notifier "x" "x")) ("x" ∷ [])
    × SendRun http notifier "x" (record { returned = true; sender = finished fails; requests = [] })
SendRun-IsCut_example =
    SendRun-IsCut http notifier "x" after_answer (answered http notifier "x" "x") "x" sent_run refl
      holding_run
