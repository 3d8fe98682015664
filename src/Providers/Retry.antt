-- ===== src/Providers/Retry.antt =====
-- engine/llm_provider.py, `_call_with_retry`: how often it calls, and when it stops.
use autonomy_engine.Base.{
  ℕ, zero, suc, ◌+◌, ◌≡◌, ◌⊎◌, inl, inr, refl, sym, ap, subst, ◌∙◌, List, [], ◌∷◌, Bool, true,
  false, arith, Bool-cases,
}
use autonomy_engine.Providers.{Answer, value, error, Attempts, attempt_from, call_with_retry}

module _ {ℓ κ μ} {A : Type ℓ} {E : Type κ} {D : Type μ} (is_retryable : E → Bool) (power : ℕ → D)
    (api : ℕ → Answer A E) where
  -- The `k` calls from number `n` on all raised exceptions that are worth a retry.
  abbrev pub AllRetried : ℕ → ℕ → Type (ℓ ⊔ κ)
  AllRetried n zero = Unit
  AllRetried n (suc k) =
      ((e : E) × (api n ≡ error e) × (is_retryable e ≡ true)) × AllRetried (suc n) k

  -- Call `n` gave a value, or an exception that is not worth a retry, or it was the last one.
  abbrev pub Stopped : ℕ → ℕ → Type (ℓ ⊔ κ)
  Stopped n left =
      ((a : A) × (api n ≡ value a))
      ⊎ (((e : E) × (api n ≡ error e) × (is_retryable e ≡ false)) ⊎ (left ≡ 0))

  -- the delays after the `k` calls from number `n` on
  abbrev pub backoffs : ℕ → ℕ → List D
  backoffs n zero = []
  backoffs n (suc k) = power (n + 1) ∷ backoffs (suc n) k

  -- `r` is what comes of at most `left` retries from call `n` on, of which `k` were made.
  pub record IsRetried (n left k : ℕ) (r : Attempts A E D) : Type (ℓ ⊔ κ ⊔ μ) where
    pub bounded : (rest : ℕ) × (k + rest ≡ left) × Stopped (n + k) rest
    pub counted : r.calls ≡ suc (n + k)
    pub answered : r.answer ≡ api (n + k)
    pub retried : AllRetried n k
    pub delayed : r.delays ≡ backoffs n k

  stop_here :
      (n left : ℕ) (o : Answer A E)
      → o ≡ api n
      → Stopped n left
      → IsRetried n left 0 (record { answer = o; calls = suc n; delays = [] })
  stop_here n left o h stop = record {
    bounded = (left, omega arith, subst (λ m. Stopped m left) (omega arith) stop);
    counted = omega arith;
    answered = h ∙ ap api (omega arith);
    retried = tt;
    delayed = refl;
  }

  retry_here :
      (n left k : ℕ) (e : E) (r : Attempts A E D)
      → api n ≡ error e
      → is_retryable e ≡ true
      → IsRetried (suc n) left k r
      → IsRetried n (suc left) (suc k) (record r { delays = power (n + 1) ∷ r.delays })
  retry_here n left k e r h again i =
      let (rest, fits, stop) = i.bounded in
      let place : suc n + k ≡ n + suc k = omega arith in
      record {
        bounded = (rest, omega (arith, fits), subst (λ m. Stopped m rest) place stop);
        counted = omega (arith, i.counted);
        answered = i.answered ∙ ap api place;
        retried = ((e, h, again), i.retried);
        delayed = ap (λ ds. power (n + 1) ∷ ds) i.delayed;
      }

  attempt_from-IsRetried :
      (n left : ℕ) → (k : ℕ) × IsRetried n left k (attempt_from is_retryable power api n left)
  unfolding attempt_from
  attempt_from-IsRetried n zero = (0, stop_here n 0 (api n) refl (inr (inr refl)))
  attempt_from-IsRetried n (suc left) = go (attempt_from-IsRetried (suc n) left) (api n) refl
    where
      go :
          (k : ℕ) × IsRetried (suc n) left k (attempt_from is_retryable power api (suc n) left)
          → (o : Answer A E) → api n ≡ o
          → (k : ℕ) × IsRetried n (suc left) k (attempt_from is_retryable power api n (suc left))
      go rest (value a) h =
          rw (h, attempt_from) (0, stop_here n (suc left) (value a) (sym h) (inl (a, h)))
      go (k, i) (error e) h = elim (Bool-cases (is_retryable e)) [
        | inl again ↦ rw (h, attempt_from) (rw again (suc k, retry_here n left k e _ h again i))
        | inr fatal ↦
            rw (h, attempt_from)
              (rw fatal (0, stop_here n (suc left) (error e) (sym h) (inr (inl (e, h, fatal)))))
      ]

  -- For some number of retries that is at most `max_retries`, `_call_with_retry` makes one
  -- call more than it retries; each call before the last raised an exception that is worth a
  -- retry, the last one gave a value, or an exception that is not worth a retry, or no retry
  -- was left; the loop gives what the last call gave, and it slept the delays of growing
  -- exponent between the calls.
  pub call_with_retry-IsRetried :
      (max_retries : ℕ)
      → (k : ℕ) × IsRetried 0 max_retries k (call_with_retry is_retryable power api max_retries)
  unfolding call_with_retry
  call_with_retry-IsRetried max_retries = attempt_from-IsRetried 0 max_retries
