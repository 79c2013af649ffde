-- ===== src/Chain/Retry.antt =====
-- internal/exchange/polymarket/blockchain.go: what the loop of executeSafeTransaction sends.
use mathlib.Core.Path.{subst}
use polymarket_go_bot.Prelude.{
  ℕ, zero, suc, ◌+◌, ◌≤◌, ◌<◌, String, ◌≡◌, refl, ap, Bool, true, false, inl, inr, List, [], ◌∷◌,
  length, arith, if◌then◌else◌,
}
use polymarket_go_bot.Prelude.Fallible.{Fallible, ok, fails, Fallible-cases}
use polymarket_go_bot.Chain.{
  Tx, Attempt, SendAnswer, sent, send_error, boosted, prepare, is_retryable, on_prepared, on_send,
  send_loop, execute_safe_transaction,
}

module _ (answers : ℕ → Attempt) (exec_data : String) where
  -- The transaction is the one of the attempt `k`, with the gas prices that the node suggested then,
  -- both raised by the boost of that attempt.
  abbrev pub IsOfAttempt : ℕ → Tx → Type 0
  IsOfAttempt k tx =
      (ok tx.nonce ≡ (answers k).nonce_at)
      × ((tip : ℕ) × ((answers k).suggest_gas_tip_cap ≡ ok tip) × (tx.gas_tip_cap ≡ boosted k tip))
      × ((fee : ℕ) × ((answers k).suggest_gas_price ≡ ok fee) × (tx.gas_fee_cap ≡ boosted k fee))
      × (tx.tx_data ≡ exec_data)

  abbrev pub IsRefused : ℕ → Tx → Type 0
  IsRefused k tx =
      (msg : String) × ((answers k).send tx ≡ send_error msg) × (is_retryable msg ≡ true)

  -- The transactions of the attempts before `k`, the last one first: each was refused with an error
  -- that allows another attempt.
  abbrev pub AreRefused : ℕ → List Tx → Type 0
  AreRefused zero [] = Unit
  AreRefused zero (tx ∷ out) = ⊥
  AreRefused (suc k) [] = ⊥
  AreRefused (suc k) (tx ∷ out) = (IsOfAttempt k tx × IsRefused k tx) × AreRefused k out

  -- What a run of the loop has done, if it made `k` attempts before.
  abbrev pub IsRun : ℕ → Fallible Tx × List Tx → Type 0
  IsRun n (ok tx, []) = ⊥
  IsRun n (ok tx, last ∷ out) =
      (k : ℕ) × (k < n)
      × (tx ≡ last)
      × IsOfAttempt k tx
      × ((answers k).send tx ≡ sent)
      × AreRefused k out
  IsRun n (fails, out) = length out ≤ n

  prepare-IsOfAttempt :
      (k : ℕ) (tx : Tx) → prepare exec_data k (answers k) ≡ ok tx → IsOfAttempt k tx
  unfolding prepare
  prepare-IsOfAttempt k tx h = elim (Fallible-cases (answers k).nonce_at) [
    | inl e ↦ absurd (ground arith)
    | inr (nonce, e) ↦ elim (Fallible-cases (answers k).suggest_gas_tip_cap) [
      | inl e2 ↦ absurd (ground arith)
      | inr (tip, e2) ↦ elim (Fallible-cases (answers k).suggest_gas_price) [
        | inl e3 ↦ absurd (ground arith)
        | inr (fee, e3) ↦
            (ground arith, (tip, e2, ground arith), (fee, e3, ground arith), ground arith)
      ]
    ]
  ]

  length-AreRefused : (k : ℕ) (out : List Tx) → AreRefused k out → length out ≡ k
  length-AreRefused zero [] h = refl
  length-AreRefused zero (tx ∷ out) h = absurd h
  length-AreRefused (suc k) [] h = absurd h
  length-AreRefused (suc k) (tx ∷ out) (_, h) = ap suc (length-AreRefused k out h)

  shift : (k left : ℕ) → suc k + left ≡ k + suc left
  shift k left = omega arith

  send_loop-IsRun :
      (left k : ℕ) (out : List Tx)
      → AreRefused k out
      → IsRun (k + left) (send_loop answers exec_data left k out)
  unfolding send_loop
  send_loop-IsRun zero k out h = omega (arith, length-AreRefused k out h)
  send_loop-IsRun (suc left) k out h =
      prepared (prepare exec_data k (answers k)) refl (send_loop-IsRun left (suc k))
    where
      retry : List Tx → Fallible Tx × List Tx
      retry = send_loop answers exec_data left (suc k)

      refused :
          (tx : Tx)
          → IsOfAttempt k tx
          → ((out' : List Tx) → AreRefused (suc k) out' → IsRun (suc k + left) (retry out'))
          → (msg : String) → (answers k).send tx ≡ send_error msg
          → (b : Bool) → is_retryable msg ≡ b
          → IsRun (k + suc left) (if b then retry (tx ∷ out) else (fails, tx ∷ out))
      refused tx t ih msg e true y =
          subst (λ n. IsRun n (retry (tx ∷ out))) (shift k left)
            (ih (tx ∷ out) ((t, (msg, e, y)), h))
      refused tx t ih msg e false y = omega (arith, length-AreRefused k out h)

      submitted :
          (tx : Tx)
          → IsOfAttempt k tx
          → ((out' : List Tx) → AreRefused (suc k) out' → IsRun (suc k + left) (retry out'))
          → (r : SendAnswer) → (answers k).send tx ≡ r
          → IsRun (k + suc left) (on_send retry tx out r)
      submitted tx t ih sent e = (k, omega arith, refl, t, e, h)
      submitted tx t ih (send_error msg) e = refused tx t ih msg e (is_retryable msg) refl

      prepared :
          (r : Fallible Tx)
          → prepare exec_data k (answers k) ≡ r
          → ((out' : List Tx) → AreRefused (suc k) out' → IsRun (suc k + left) (retry out'))
          → IsRun (k + suc left) (on_prepared retry (answers k) out r)
      prepared fails e ih = omega (arith, length-AreRefused k out h)
      prepared (ok tx) e ih =
          submitted tx (prepare-IsOfAttempt k tx e) ih ((answers k).send tx) refl

  -- The loop sends at most three transactions. If it succeeds, the last one is accepted and carries the
  -- gas prices of its attempt, and each one before was refused with an error that allows another attempt.
  pub execute_safe_transaction-IsRun : IsRun 3 (execute_safe_transaction answers (ok exec_data))
  unfolding execute_safe_transaction
  execute_safe_transaction-IsRun = send_loop-IsRun 3 0 [] tt
