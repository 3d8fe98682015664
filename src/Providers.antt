-- ===== src/Providers.antt =====
-- engine/llm_provider.py: limits, retries and usage of the calls of a model. Logging is left out.
pub mod Retry
use autonomy_engine.Base.{
  ℕ, zero, suc, ◌+◌, ◌^◌, ◌-◌, Option, none, some, List, [], ◌∷◌, Bool, true, false, ltb,
  if◌then◌else◌,
}

-- `resolve_max_tokens`, for the hard limit of the model
unfoldable pub resolve_max_tokens : ℕ → ℕ → ℕ
resolve_max_tokens hard_limit requested = if ltb hard_limit requested then hard_limit else requested

-- last_usage
pub record LastUsage : Type 0 where
  pub input_tokens : ℕ
  pub output_tokens : ℕ

-- The counters of an `LLMProvider`.
pub record Usage : Type 0 where
  pub last_usage : Option LastUsage
  pub total_input_tokens : ℕ
  pub total_output_tokens : ℕ
  pub call_count : ℕ

-- `_record_usage`
unfoldable pub record_usage : ℕ → ℕ → Usage → Usage
record_usage input_tokens output_tokens u = record {
  last_usage = some (record { input_tokens = input_tokens; output_tokens = output_tokens });
  total_input_tokens = u.total_input_tokens + input_tokens;
  total_output_tokens = u.total_output_tokens + output_tokens;
  call_count = u.call_count + 1;
}

-- What one call of the API gives: a value, or an exception.
pub data Answer {ℓ κ} (A : Type ℓ) (E : Type κ) : Type (ℓ ⊔ κ) where
  value : A → Answer A E
  error : E → Answer A E

-- What `_call_with_retry` did: its answer, the number of calls, and the delays that it slept.
pub record Attempts {ℓ κ μ} (A : Type ℓ) (E : Type κ) (D : Type μ) : Type (ℓ ⊔ κ ⊔ μ) where
  pub answer : Answer A E
  pub calls : ℕ
  pub delays : List D

-- `power n` is `self.backoff_base ** n`, and `api n` is what call `n` gives. `max_retries` is a
-- natural: for a negative one no call is made, and `raise None` is a TypeError.
module _ {ℓ κ μ} {A : Type ℓ} {E : Type κ} {D : Type μ} (is_retryable : E → Bool) (power : ℕ → D)
    (api : ℕ → Answer A E) where
  abbrev answered : Answer A E → ℕ → Attempts A E D
  answered answer attempt = record { answer = answer; calls = suc attempt; delays = [] }

  abbrev after_delay : ℕ → Attempts A E D → Attempts A E D
  after_delay attempt r = record r { delays = power (attempt + 1) ∷ r.delays }

  -- The round of number `attempt` of the loop, with `left` rounds after it. After the last round
  -- the exception of that round is raised again.
  unfoldable pub attempt_from : ℕ → ℕ → Attempts A E D
  attempt_from attempt zero = answered (api attempt) attempt
  attempt_from attempt (suc left) =
      let rest = attempt_from (suc attempt) left in
      elim (api attempt) [
        | value a ↦ answered (value a) attempt
        | error e ↦ if is_retryable e then after_delay attempt rest else answered (error e) attempt
      ]

  unfoldable pub call_with_retry : ℕ → Attempts A E D
  unfolding attempt_from
  call_with_retry max_retries = attempt_from 0 max_retries
