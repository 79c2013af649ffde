-- ===== src/Notify/Telegram/Sending/Cut.antt =====
-- internal/notify/telegram/writer.go: what becomes of a message that Write has handed to its goroutine.
use mathlib.Core.Path.{subst}
use polymarket_go_bot.Prelude.{
  Bool-cases, ◌||◌, Bool, true, false, ◌≡◌, refl, sym, ap, ◌∙◌, List, [], ◌∷◌, ◌⊎◌, inl, inr, arith,
  str_eq, if◌then◌else◌,
}
use polymarket_go_bot.Prelude.Fallible.{Fallible, ok, fails}
use polymarket_go_bot.Notify.Telegram.{Notifier, Http, is_zero, on_request, send_message}
use polymarket_go_bot.Notify.Telegram.Sending.{
  Sender, unstarted, holding, finished, Sending, begun, on_built, to_request, answered, return_step,
  begin_step, do_step, cut_step, SendRun, here, next,
}

module _ {M H : Type 0} (http : Http M H) (n : Notifier) (message : M) where
  -- What holds of the goroutine: before it is at Do nothing is out, and at its end it has done what
  -- SendMessage does alone, or it was cut off after the call returned.
  abbrev pub IsSentAs : Bool → Sender H → List H → Type 0
  IsSentAs returned unstarted out = out ≡ []
  IsSentAs returned (holding r) out =
      (out ≡ []) × (send_message http n message ≡ (answered http n message r, r ∷ []))
  IsSentAs returned (finished result) out =
      (send_message http n message ≡ (result, out))
      ⊎ ((returned ≡ true)
          × (result ≡ fails)
          × ((out ≡ []) ⊎ (out ≡ (send_message http n message).1)))

  to_request-IsSentAs : (b : Bool) → IsSentAs b (to_request http n message) []
  unfolding to_request send_message answered
  to_request-IsSentAs b = elim (Bool-cases n.enabled) [
    | inr off ↦ rw off (inl (ground arith))
    | inl on_ ↦ elim (Bool-cases (str_eq n.bot_token "" || is_zero n.chat_id)) [
      | inl missing ↦ simp (on_, missing) (inl (ground arith))
      | inr set_ ↦ simp (on_, set_) (built _ (ground arith))
    ]
  ]
    where
      built :
          (r : Fallible H)
          → send_message http n message ≡ on_request http r
          → IsSentAs b (on_built http n message r) []
      built fails e = inl e
      built (ok r) e = (refl, e)

  raised : (b : Bool) (x : Sender H) (out : List H) → IsSentAs b x out → IsSentAs true x out
  raised b unstarted out h = h
  raised b (holding r) out h = h
  raised b (finished result) out (inl alone) = inl alone
  raised b (finished result) out (inr (late, cut, left)) = inr (refl, cut, left)

  SendRun-IsSentAs :
      {s : Sending H} → SendRun http n message s → IsSentAs s.returned s.sender s.requests
  SendRun-IsSentAs here = refl
  SendRun-IsSentAs (next run (return_step s)) =
      raised s.returned s.sender s.requests (SendRun-IsSentAs run)
  SendRun-IsSentAs (next run (begin_step s e)) =
      let none_out = subst (λ x. IsSentAs s.returned x s.requests) e (SendRun-IsSentAs run) in
      rw none_out (to_request-IsSentAs s.returned)
  SendRun-IsSentAs (next run (do_step s r early e)) =
      let (none_out, alone) =
        subst (λ x. IsSentAs s.returned x s.requests) e (SendRun-IsSentAs run) in
      rw none_out (inl alone)
  SendRun-IsSentAs (next run (cut_step s r out late e)) =
      let (none_out, alone) =
        subst (λ x. IsSentAs s.returned x s.requests) e (SendRun-IsSentAs run) in
      inr (late, refl, cut out none_out (ap (λ p. p.1) alone))
    where
      cut :
          (b : Bool)
          → s.requests ≡ []
          → (send_message http n message).1 ≡ r ∷ []
          → ((if b then r ∷ s.requests else s.requests) ≡ [])
            ⊎ ((if b then r ∷ s.requests else s.requests) ≡ (send_message http n message).1)
      cut true none_out alone = inr (ap (λ rest. r ∷ rest) none_out ∙ sym alone)
      cut false none_out alone = inl none_out

  -- Where SendMessage would send a request, whatever the order of the two: when the goroutine ends, it
  -- has done what SendMessage does, with the same result and the same request; or the call had
  -- returned, the result is an error, and the request of SendMessage has gone out or not. And some
  -- order loses it: the call has returned, the goroutine has ended with an error, and nothing is out.
  pub SendRun-IsCut :
      (s : Sending H) (result : Fallible (Unit {0})) (r : H)
      → SendRun http n message s
      → s.sender ≡ finished result
      → to_request http n message ≡ holding r
      → IsSentAs s.returned (finished result) s.requests
        × SendRun http n message
            (record { returned = true; sender = finished fails; requests = [] })
  SendRun-IsCut s result r run e holds = (
    subst (λ x. IsSentAs s.returned x s.requests) e (SendRun-IsSentAs run),
    next
        (next (next here (begin_step begun refl))
          (return_step (record begun { sender = to_request http n message })))
        (cut_step (record { returned = true; sender = to_request http n message; requests = [] }) r
          false refl holds),
  )
