-- ===== src/Notify/Telegram/Spaced.antt =====
-- internal/notify/telegram/writer.go: the messages that a run of lines hands on.
use mathlib.Core.Path.{subst}
use polymarket_go_bot.Prelude.{
  ℕ, ◌+◌, ◌≤◌, ◌≡◌, refl, sym, ◌<◌, true, false, Option, none, some, List, [], ◌∷◌, length,
  length-append, arith, ltb, ◌⊎◌, inl, inr, Bool-cases,
}
use polymarket_go_bot.Prelude.Int.{pos}
use polymarket_go_bot.Prelude.Bytes.{Bytes, take, ascii, length-take}
use polymarket_go_bot.Notify.Telegram.Writer.{
  TelegramWriter, write, extract_level, truncated, is_throttled,
}

-- A line that is written, with the two readings of the clock.
pub record Line : Type 0 where
  pub at_check : ℕ
  pub at_send : ℕ
  pub bytes : Bytes

-- A message that is handed on, with its time.
pub record Sent : Type 0 where
  pub at : ℕ
  pub message : Bytes

abbrev handed_on : ℕ → Option Bytes → List Sent → List Sent
handed_on t none rest = rest
handed_on t (some msg) rest = record { at = t; message = msg } ∷ rest

module _ (lower : Bytes → Bytes) where
  unfoldable pub write_all : TelegramWriter → List Line → List Sent
  unfolding write
  write_all w [] = []
  write_all w (l ∷ ls) =
      let (w', message) = write lower l.at_check l.at_send w l.bytes in
      handed_on l.at_send message (write_all w' ls)

-- The clock runs on from `t`.
abbrev pub IsClock : ℕ → List Line → Type 0
IsClock t [] = Unit
IsClock t (l ∷ ls) = (t ≤ l.at_check) × (l.at_check ≤ l.at_send) × IsClock l.at_send ls

-- Each message comes at least `gap` after the one before, the first after `last`.
abbrev pub IsSpaced : ℕ → Option ℕ → List Sent → Type 0
IsSpaced gap last [] = Unit
IsSpaced gap none (s ∷ ss) = IsSpaced gap (some s.at) ss
IsSpaced gap (some t) (s ∷ ss) = (t + gap ≤ s.at) × IsSpaced gap (some s.at) ss

-- The time that is kept is not ahead of the clock.
abbrev pub IsPast : Option ℕ → ℕ → Type 0
IsPast none t = Unit
IsPast (some s) t = s ≤ t

pub length-truncated : (n : ℕ) (msg : Bytes) → length (truncated n msg) ≤ n + 16
length-truncated n msg = elim (Bool-cases (ltb n (length msg))) [
  | inl long ↦
      rw long
        (omega (arith, length-append (take n msg) (ascii "\n... (truncated)"), length-take n msg))
  | inr short ↦ rw short (ground arith)
]

-- A guard of `write` holds back the line, or the line passes all three.
abbrev IsPassing : (Bytes → Bytes) → TelegramWriter → Line → Type 0
IsPassing lower w l =
    (w.notifier.enabled ≡ true)
    × (w.min_level ≤ extract_level lower l.bytes)
    × (is_throttled w l.at_check ≡ false)

write-cases :
    (lower : Bytes → Bytes) (w : TelegramWriter) (l : Line)
    → ((write lower l.at_check l.at_send w l.bytes ≡ (w, none))
        × ((w.notifier.enabled ≡ false)
            ⊎ (ltb (extract_level lower l.bytes) w.min_level ≡ true)
            ⊎ (is_throttled w l.at_check ≡ true)))
      ⊎ (IsPassing lower w l
          × (write lower l.at_check l.at_send w l.bytes
              ≡ (record w { last_sent = some l.at_send }, some (truncated w.max_msg_len l.bytes))))
unfolding write
write-cases lower w l = elim (Bool-cases w.notifier.enabled) [
  | inr off ↦ inl (rw off refl, inl off)
  | inl on ↦ elim (Bool-cases (ltb (extract_level lower l.bytes) w.min_level)) [
    | inl low ↦ inl (rw on (rw low refl), inr (inl low))
    | inr high ↦ elim (Bool-cases (is_throttled w l.at_check)) [
      | inl soon ↦ inl (rw on (rw high (rw soon refl)), inr (inr soon))
      | inr late ↦ inr ((on, ground arith, late), rw on (rw high (rw late refl)))
    ]
  ]
]

module _ (lower : Bytes → Bytes) (gap : ℕ) where
  unthrottled :
      (w : TelegramWriter) (t now : ℕ)
      → w.throttle ≡ pos gap
      → is_throttled w now ≡ false
      → w.last_sent ≡ some t
      → t ≤ now
      → t + gap ≤ now
  unthrottled w t now e late last past = ground arith

  cons-IsSpaced :
      (last : Option ℕ) (s : Sent) (ss : List Sent)
      → ((t : ℕ) → last ≡ some t → t + gap ≤ s.at)
      → IsSpaced gap (some s.at) ss
      → IsSpaced gap last (s ∷ ss)
  cons-IsSpaced none s ss far h = h
  cons-IsSpaced (some t) s ss far h = (far t refl, h)

  IsPast-mono : (last : Option ℕ) (t u : ℕ) → IsPast last t → t ≤ u → IsPast last u
  IsPast-mono none t u h k = tt
  IsPast-mono (some s) t u h k = omega arith

  past_at : (last : Option ℕ) (t s : ℕ) → IsPast last t → last ≡ some s → s ≤ t
  past_at none t s h e = absurd (ground arith)
  past_at (some r) t s h e = ground arith

  -- Over a run of lines whose readings of the clock do not go back, nor behind the time of the
  -- message sent last before the run, each message is handed on at least the throttle after the one
  -- before it, and after that last one.
  pub write_all-IsSpaced :
      (t : ℕ) (w : TelegramWriter) (ls : List Line)
      → w.throttle ≡ pos gap
      → IsPast w.last_sent t
      → IsClock t ls
      → IsSpaced gap w.last_sent (write_all lower w ls)
  unfolding write_all
  write_all-IsSpaced t w [] e past clock = tt
  write_all-IsSpaced t w (l ∷ ls) e past (a, b, c) = elim (write-cases lower w l) [
    | inl (kept, why) ↦ rw kept (
        write_all-IsSpaced l.at_send w ls e (IsPast-mono w.last_sent t l.at_send past (omega arith))
          c)
    | inr ((on, high, late), out) ↦ rw out (
        cons-IsSpaced w.last_sent
          (record { at = l.at_send; message = truncated w.max_msg_len l.bytes })
          (write_all lower (record w { last_sent = some l.at_send }) ls)
          (λ s last.
            let h : s + gap ≤ l.at_check =
              unthrottled w s l.at_check e late last
                (let k = past_at w.last_sent t s past last in omega arith) in
            omega arith)
          (write_all-IsSpaced l.at_send (record w { last_sent = some l.at_send }) ls e (omega arith)
            c))
  ]

-- What the throttle promises of a run of lines: a line below the level is dropped, as is one less than
-- the throttle after the message sent last; every other one is handed on, cut to the length.
pub data Throttles (lower : Bytes → Bytes) (gap min max : ℕ)
    : Option ℕ → List Line → List Sent → Type 0 where
  ends : (last : Option ℕ) → Throttles lower gap min max last [] []
  is_quiet :
      (last : Option ℕ) (l : Line) (ls : List Line) (ss : List Sent)
      → extract_level lower l.bytes < min
      → Throttles lower gap min max last ls ss
      → Throttles lower gap min max last (l ∷ ls) ss
  is_held :
      (t : ℕ) (l : Line) (ls : List Line) (ss : List Sent)
      → l.at_check < t + gap
      → Throttles lower gap min max (some t) ls ss
      → Throttles lower gap min max (some t) (l ∷ ls) ss
  is_sent :
      (last : Option ℕ) (l : Line) (ls : List Line) (ss : List Sent)
      → min ≤ extract_level lower l.bytes
      → (last ≡ none) ⊎ ((t : ℕ) × (last ≡ some t) × (t + gap ≤ l.at_check))
      → length (truncated max l.bytes) ≤ max + 16
      → Throttles lower gap min max (some l.at_send) ls ss
      → Throttles lower gap min max last
          (l ∷ ls)
          (record { at = l.at_send; message = truncated max l.bytes } ∷ ss)

module _ (lower : Bytes → Bytes) (gap : ℕ) where
  held :
      (w : TelegramWriter) (now : ℕ)
      → w.throttle ≡ pos gap
      → is_throttled w now ≡ true
      → (t : ℕ) × (w.last_sent ≡ some t) × (now < t + gap)
  held w now e soon = go w.last_sent refl
    where
      go :
          (last : Option ℕ)
          → w.last_sent ≡ last
          → (t : ℕ) × (w.last_sent ≡ some t) × (now < t + gap)
      go none k = absurd (ground arith)
      go (some t) k = (t, k, ground arith)

  free :
      (w : TelegramWriter) (now : ℕ)
      → w.throttle ≡ pos gap
      → is_throttled w now ≡ false
      → (w.last_sent ≡ none) ⊎ ((t : ℕ) × (w.last_sent ≡ some t) × (t + gap ≤ now))
  free w now e late = go w.last_sent refl
    where
      go :
          (last : Option ℕ)
          → w.last_sent ≡ last
          → (w.last_sent ≡ none) ⊎ ((t : ℕ) × (w.last_sent ≡ some t) × (t + gap ≤ now))
      go none k = inl k
      go (some t) k = inr (t, k, ground arith)

  -- An enabled writer does of any run of lines what the throttle promises: it drops the lines below its
  -- level and those less than its throttle after the message sent last, and hands on every other one,
  -- cut to at most 16 bytes above its limit.
  pub write_all-Throttles :
      (w : TelegramWriter) (ls : List Line)
      → w.throttle ≡ pos gap
      → w.notifier.enabled ≡ true
      → Throttles lower gap w.min_level w.max_msg_len w.last_sent ls (write_all lower w ls)
  unfolding write_all
  write_all-Throttles w [] e on = ends w.last_sent
  write_all-Throttles w (l ∷ ls) e on = elim (write-cases lower w l) [
    | inl (kept, inl off) ↦ absurd (ground arith)
    | inl (kept, inr (inl low)) ↦
        rw kept (is_quiet w.last_sent l ls _ (ground arith) (write_all-Throttles w ls e on))
    | inl (kept, inr (inr soon)) ↦
        let (t, last, near) = held w l.at_check e soon in
        let rest = write_all-Throttles w ls e on in
        rw kept (
          subst
            (λ k. Throttles lower gap w.min_level w.max_msg_len k (l ∷ ls) (write_all lower w ls))
            (sym last)
            (is_held t l ls (write_all lower w ls) near (
              subst (λ k. Throttles lower gap w.min_level w.max_msg_len k ls (write_all lower w ls))
                last rest)))
    | inr ((on2, high, late), out) ↦ rw out (
        is_sent w.last_sent l ls _ high (free w l.at_check e late)
          (length-truncated w.max_msg_len l.bytes)
          (write_all-Throttles (record w { last_sent = some l.at_send }) ls e on))
  ]
