-- ===== src/Tests/Calls.antt =====
-- Calls of a model that fail once.
use autonomy_engine.Base.{ℕ, zero, ◌≡◌, ◌^◌, refl, String, Bool, true, [], ◌∷◌}
use autonomy_engine.Providers.{Answer, value, error, call_with_retry, resolve_max_tokens}
use autonomy_engine.Providers.Retry.{IsRetried, call_with_retry-IsRetried}

-- the first call meets a rate limit, and the second one answers
abbrev limited_once : ℕ → Answer String Bool
limited_once zero = error true
limited_once n = value "answer"

abbrev seconds : ℕ → ℕ
seconds n = 2 ^ n

second_answers :
    call_with_retry (λ e. e) seconds limited_once 3
    ≡ record { answer = value "answer"; calls = 2; delays = 2 ∷ [] }
unfolding call_with_retry
second_answers = refl

gives_up :
    call_with_retry {A = String} (λ e. e) seconds (λ n. error true) 1
    ≡ record { answer = error true; calls = 2; delays = 2 ∷ [] }
unfolding call_with_retry
gives_up = refl

clamped : resolve_max_tokens 8192 16384 ≡ 8192
unfolding resolve_max_tokens
clamped = refl

call_with_retry-IsRetried_example :
    (k : ℕ) × IsRetried
      (λ e. e)
      seconds
      limited_once
      0
      3
      k
      (call_with_retry (λ e. e) seconds limited_once 3)
call_with_retry-IsRetried_example = call_with_retry-IsRetried (λ e. e) seconds limited_once 3
