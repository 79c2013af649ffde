-- ===== src/Chain/Payout.antt =====
-- internal/exchange/polymarket/blockchain.go: which payout parsePayoutRedemptionEvent reports.
use polymarket_go_bot.Prelude.{
  ℕ, zero, suc, ◌-◌, ◌/◌, ◌≤◌, ◌<◌, String, ◌≡◌, refl, ap, true, Option, none, some, List, [], ◌∷◌,
  ◌++◌, length, arith, length-append, str_eq_iff, ◌⊎◌, inl, inr,
}
use polymarket_go_bot.Prelude.Int.{ℤ}
use polymarket_go_bot.Prelude.Go.{returns, panics, Returns}
use polymarket_go_bot.Prelude.Fallible.{Fallible, ok, fails}
use polymarket_go_bot.Chain.{
  Log, Event, zeros, pad_condition, bytes_eq, on_log_payout, log_payout, find_payout,
  parse_payout_redemption_event, trim_prefix,
}

length-zeros : (n : ℕ) → length (zeros n) ≡ n
length-zeros zero = refl
length-zeros (suc n) = ap suc (length-zeros n)

pad_condition-ok :
    (bytes : List ℕ)
    → length bytes ≤ 32
    → pad_condition bytes ≡ returns (zeros (32 - length bytes) ++ bytes)
unfolding pad_condition
pad_condition-ok bytes h = ground arith

pad_condition-panics : (bytes : List ℕ) → 32 < length bytes → pad_condition bytes ≡ panics
unfolding pad_condition
pad_condition-panics bytes h = ground arith

bytes_eq_sound : (xs ys : List ℕ) → bytes_eq xs ys ≡ true → xs ≡ ys
bytes_eq_sound [] [] h = refl
bytes_eq_sound (x ∷ xs) (y ∷ ys) h = ground (arith, bytes_eq_sound xs ys)
bytes_eq_sound [] (y ∷ ys) h = ground arith
bytes_eq_sound (x ∷ xs) [] h = ground arith

module _ (unpack : String → Fallible Event) (hex_to_bytes : String → List ℕ) (to_int64 : ℕ → ℤ)
    (sig ctf : String) where
  -- The log is the event of the contract, for this condition and with this payout.
  abbrev pub IsPayout : List ℕ → ℕ → Log → Type 0
  IsPayout condition payout log =
      (log.address ≡ ctf)
      × ((rest : List String) × (log.topics ≡ sig ∷ rest))
      × ((e : Event) × (unpack log.log_data ≡ ok e)
          × (e.condition_id ≡ condition)
          × (e.payout ≡ some payout))

  -- The result is that of the first such log of the list, or there is none.
  abbrev pub IsFirstPayout : List ℕ → List Log → Fallible ℤ → Type 0
  IsFirstPayout condition [] r = r ≡ fails
  IsFirstPayout condition (log ∷ logs) r =
      ((payout : ℕ) × IsPayout condition payout log × (r ≡ ok (to_int64 (payout / 10_000))))
      ⊎ (((payout : ℕ) → IsPayout condition payout log → ⊥) × IsFirstPayout condition logs r)

  log_payout-some :
      (condition : List ℕ) (log : Log) (payout : ℕ)
      → log_payout unpack hex_to_bytes to_int64 sig ctf condition log ≡ some payout
      → IsPayout condition payout log
  unfolding log_payout
  log_payout-some condition log payout h = go log.topics refl (unpack log.log_data) refl
    where
      go :
          (ts : List String)
          → log.topics ≡ ts
          → (u : Fallible Event) → unpack log.log_data ≡ u
          → IsPayout condition payout log
      go [] e u k = absurd (ground arith)
      go (t ∷ ts) e fails k = absurd (ground arith)
      go (t ∷ ts) e (ok ev) k = (
        ground (arith, str_eq_iff log.address ctf),
        (ts, ground (arith, str_eq_iff t sig)),
        (ev, k, ground (arith, bytes_eq_sound ev.condition_id condition), ground arith),
      )

  bytes_eq_refl : (xs : List ℕ) → bytes_eq xs xs ≡ true
  bytes_eq_refl [] = refl
  bytes_eq_refl (x ∷ xs) = ground (arith, bytes_eq_refl xs)

  log_payout-IsPayout :
      (condition : List ℕ) (log : Log) (payout : ℕ)
      → IsPayout condition payout log
      → log_payout unpack hex_to_bytes to_int64 sig ctf condition log ≡ some payout
  unfolding log_payout
  log_payout-IsPayout condition log payout (at_ctf, (rest, topics), (e, unpacked, same, paid)) =
      ground (arith, bytes_eq_refl condition, str_eq_iff log.address ctf, str_eq_iff sig sig)

  find_payout-IsFirstPayout :
      (condition : List ℕ) (logs : List Log)
      → IsFirstPayout condition logs
          (find_payout unpack hex_to_bytes to_int64 sig ctf condition logs)
  unfolding find_payout
  find_payout-IsFirstPayout condition [] = refl
  find_payout-IsFirstPayout condition (log ∷ logs) =
      go (log_payout unpack hex_to_bytes to_int64 sig ctf condition log) refl
        (find_payout-IsFirstPayout condition logs)
    where
      go :
          (r : Option ℕ)
          → log_payout unpack hex_to_bytes to_int64 sig ctf condition log ≡ r
          → IsFirstPayout condition logs
              (find_payout unpack hex_to_bytes to_int64 sig ctf condition logs)
          → IsFirstPayout condition (log ∷ logs) (
              on_log_payout unpack hex_to_bytes to_int64 r
                (find_payout unpack hex_to_bytes to_int64 sig ctf condition logs))
      go (some payout) e ih = inl (payout, log_payout-some condition log payout e, refl)
      go none e ih =
          inr ((λ payout h. let k = log_payout-IsPayout condition log payout h in ground arith), ih)

  -- The call reports the payout of the first log that is this condition's event with a payout, and an
  -- error if there is none; it panics exactly if the condition id is longer than 32 bytes.
  pub parse_payout_redemption_event-IsFirstPayout :
      (logs : List Log) (condition_id : String)
      → let bytes = hex_to_bytes (trim_prefix condition_id "0x") in
        let result =
          parse_payout_redemption_event unpack hex_to_bytes to_int64 sig ctf logs condition_id in
        (length bytes ≤ 32
          → Returns (IsFirstPayout (zeros (32 - length bytes) ++ bytes) logs) result)
        × (32 < length bytes → result ≡ panics)
  unfolding parse_payout_redemption_event
  parse_payout_redemption_event-IsFirstPayout logs condition_id =
      let bytes = hex_to_bytes (trim_prefix condition_id "0x") in
      (
        (λ h.
            rw (pad_condition-ok bytes h)
              (find_payout-IsFirstPayout (zeros (32 - length bytes) ++ bytes) logs)),
        λ h. rw (pad_condition-panics bytes h) refl,
      )

-- The padded id has 32 bytes.
pub length-pad_condition :
    (bytes : List ℕ) → length bytes ≤ 32 → length (zeros (32 - length bytes) ++ bytes) ≡ 32
length-pad_condition bytes h =
    omega
      (arith, h, length-append (zeros (32 - length bytes)) bytes, length-zeros (32 - length bytes))
