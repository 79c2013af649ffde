-- ===== src/Balance/Refresh.antt =====
-- internal/balance/balance.go: what a reading from the chain leaves.
use polymarket_go_bot.Prelude.{ℕ, ◌≡◌, refl, ap, ◌∙◌, List, [], ◌∷◌, ◌++◌, Bool-cases, inl, inr}
use polymarket_go_bot.Prelude.Int.{pos}
use polymarket_go_bot.Prelude.Go.{returns, ◌>>=◌}
use polymarket_go_bot.Prelude.Fallible.{Fallible, ok, fails, ◌>>=◌ as ◌>>=?◌}
use polymarket_go_bot.Decimal.{Decimal, IsDecimal}
use polymarket_go_bot.Decimal.Laws
use polymarket_go_bot.Balance.{
  Node, usdc_divisor, replaced, on_raw, update, Event, tick, increase, decrease, update_worker,
}

module _ {D : Type 0} ⦃d : Decimal D⦄ (laws : IsDecimal D) where
  open d use {div, from_int, equal}

  replaced_lem : (a b : D) → replaced a b ≡ b
  replaced_lem a b = elim (Bool-cases (equal a b)) [
    | inl same ↦ rw same ((laws.equal_iff a b).0 same)
    | inr other ↦ rw other refl
  ]

  -- What the record holds after an answer of the node.
  abbrev pub reading : D → Fallible ℕ → D
  reading balance fails = balance
  reading balance (ok n) = div (from_int (pos n)) usdc_divisor

  abbrev pub error_of : Fallible ℕ → Fallible (Unit {0})
  error_of fails = fails
  error_of (ok n) = ok tt

  -- An update always returns: with the error of the node or of the ABI and the balance as it was, or
  -- without one and with a millionth of the amount on the chain.
  pub update_lem :
      (node : Node) (balance : D)
      → let raw = node.call_contract >>=? node.unpack in
        update node balance ≡ returns (error_of raw, reading balance raw)
  unfolding update
  update_lem node balance = go (node.call_contract >>=? node.unpack)
    where
      go : (raw : Fallible ℕ) → on_raw balance raw ≡ returns (error_of raw, reading balance raw)
      go fails = refl
      go (ok n) =
          rw
            (Laws.quo-pos laws (from_int (pos n)) usdc_divisor (Laws.from_int-suc_pos laws 999_999))
            (ap (λ b. returns (ok tt, b))
              (replaced_lem balance (div (from_int (pos n)) usdc_divisor)))

  update_worker_returns :
      (es : List (Event D)) (balance : D) → (b : D) × (update_worker es balance ≡ returns b)
  unfolding update_worker
  update_worker_returns [] balance = (balance, refl)
  update_worker_returns (tick node ∷ es) balance =
      let (b, e) =
        update_worker_returns es (reading balance (node.call_contract >>=? node.unpack)) in
      (b, rw (update_lem node balance) e)
  update_worker_returns (increase amount ∷ es) balance =
      update_worker_returns es (d.add balance amount)
  update_worker_returns (decrease amount ∷ es) balance =
      update_worker_returns es (d.sub balance amount)

  update_worker-append :
      (es fs : List (Event D)) (balance : D)
      → update_worker (es ++ fs) balance ≡ (update_worker es balance >>= update_worker fs)
  unfolding update_worker
  update_worker-append [] fs balance = refl
  update_worker-append (tick node ∷ es) fs balance =
      rw (update_lem node balance)
        (update_worker-append es fs (reading balance (node.call_contract >>=? node.unpack)))
  update_worker-append (increase amount ∷ es) fs balance =
      update_worker-append es fs (d.add balance amount)
  update_worker-append (decrease amount ∷ es) fs balance =
      update_worker-append es fs (d.sub balance amount)

  -- The balance is that of the last good reading of the chain with what was booked after it: whatever
  -- came before a good reading, bookings and failed readings alike, is forgotten.
  pub update_worker-tick :
      (es fs : List (Event D)) (node : Node) (n : ℕ) (balance : D)
      → (node.call_contract >>=? node.unpack) ≡ ok n
      → update_worker (es ++ tick node ∷ fs) balance
        ≡ update_worker fs (div (from_int (pos n)) usdc_divisor)
  unfolding update_worker
  update_worker-tick es fs node n balance good =
      let (b, e) = update_worker_returns es balance in
      update_worker-append es (tick node ∷ fs) balance
      ∙ ap (λ m. m >>= update_worker (tick node ∷ fs)) e
      ∙ rw (update_lem node b) (ap (λ raw. update_worker fs (reading b raw)) good)
