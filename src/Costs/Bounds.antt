-- ===== src/Costs/Bounds.antt =====
-- engine/cost_estimator.py, estimate_run: the tiers compared over a whole estimate.
use Prim.Native.Nat.{max, ◌<◌}
use native.Mathlib.Nat.{max-le, mul-div-le, div-le_self, mul-add, mul-one, div-one}
use autonomy_engine.Base.{
  ℕ, zero, suc, ◌+◌, ◌*◌, ◌/◌, ◌≤◌, String, ◌≡◌, sym, subst, ap, inl, inr, true, false, arith,
  Bool-cases, if◌then◌else◌, Bool, ◌∙◌, ltb, ◌⊎◌,
}
use autonomy_engine.World.{ok}
use autonomy_engine.Base.Floats.{int}
use autonomy_engine.Base.Floats.Bounds.{int-times_exact}
use autonomy_engine.Costs.{implement_multiplier, StageEstimate, estimate_tokens}
use autonomy_engine.Costs.Estimate.{
  will_chunk, floordiv, chunked_stage, unchunked_stage, in_chunks, raw_output, implement_stage,
}
use autonomy_engine.Costs.Cheaper.{IsCheaper, chunked_stage-IsCheaper, unchunked_stage-IsCheaper}

-- what the chunks can give together is not much more than the tokens that they are made for
chunks-le : (h raw : ℕ) → suc h * max 2 (raw / suc h + 1) ≤ raw + suc h + suc h
chunks-le h raw =
    let q = raw / suc h in
    elim (max-cases 2 (q + 1)) [
      | inl e ↦ omega (arith, ap (λ x. suc h * x) e)
      | inr e ↦ omega (
        arith,
        ap (λ x. suc h * x) e,
        mul-div-le raw (suc h),
        mul-add (suc h) q 1,
        mul-one (suc h),
      )
    ]
  where
    max-cases : (a b : ℕ) → (max a b ≡ a) ⊎ (max a b ≡ b)
    max-cases a b = elim (Bool-cases (ltb a b)) [
      | inl below ↦ inr (ground arith)
      | inr above ↦ inl (ground arith)
    ]

raw_output-eq : (tokens : ℕ) → tokens * 6 < 9007199254740992 → raw_output tokens ≡ tokens * 6
unfolding raw_output int
raw_output-eq tokens small =
    ap int (int-times_exact tokens implement_multiplier (omega arith) small) ∙ div-one (tokens * 6)

in_chunks-IsCheaper :
    (tokens plan_overhead : ℕ) (model : String) (h budget : ℕ) (s : StageEstimate)
    → tokens * 6 < 1125899906842624
    → suc h < 1125899906842624
    → in_chunks tokens plan_overhead model (suc h) budget (ok (tokens * 6 / suc h)) ≡ ok s
    → IsCheaper (suc h) s × (s.model ≡ model)
unfolding in_chunks chunked_stage
in_chunks-IsCheaper tokens plan_overhead model h budget s t small e =
    let n = max 2 (tokens * 6 / suc h + 1) in
    let bound = chunks-le h (tokens * 6) in
    let few : n ≤ 1125899906842624 =
      max-le (omega arith) (omega (arith, div-le_self (tokens * 6) (suc h))) in
    let made = chunked_stage tokens plan_overhead model (suc h) budget n in
    let same : made ≡ s = cc e in
    (
      subst (IsCheaper (suc h)) same (
          chunked_stage-IsCheaper tokens plan_overhead model (suc h) budget n (omega arith)
            (omega arith) (omega arith)),
      ap (λ x. x.model) (sym same),
    )

chosen-IsCheaper :
    (tokens plan_overhead : ℕ) (model : String) (hard_limit budget : ℕ) (s : StageEstimate)
    (chunks : Bool)
    → tokens * 6 < 1125899906842624
    → hard_limit < 1125899906842624
    → (if chunks
        then in_chunks tokens plan_overhead model hard_limit budget
            (floordiv (tokens * 6) hard_limit)
        else ok (unchunked_stage tokens model hard_limit budget))
      ≡ ok s
    → IsCheaper hard_limit s × (s.model ≡ model)
unfolding floordiv in_chunks unchunked_stage
chosen-IsCheaper tokens plan_overhead model zero budget s true t h e = cc e
chosen-IsCheaper tokens plan_overhead model (suc h) budget s true t small e =
    in_chunks-IsCheaper tokens plan_overhead model h budget s t small e
chosen-IsCheaper tokens plan_overhead model hard_limit budget s false t h e =
    let same : unchunked_stage tokens model hard_limit budget ≡ s = cc e in
    (
      subst (IsCheaper hard_limit) same
          (unchunked_stage-IsCheaper tokens model hard_limit budget (omega arith) (omega arith)),
      ap (λ x. x.model) (sym same),
    )

pub implement_stage-IsCheaper :
    (tokens plan_length : ℕ) (model : String) (hard_limit budget : ℕ) (s : StageEstimate)
    → tokens * 6 < 1125899906842624
    → hard_limit < 1125899906842624
    → implement_stage tokens plan_length model hard_limit budget ≡ ok s
    → IsCheaper hard_limit s × (s.model ≡ model)
unfolding implement_stage floordiv
implement_stage-IsCheaper tokens plan_length model hard_limit budget s t h e =
    chosen-IsCheaper tokens (estimate_tokens plan_length) model hard_limit budget s
      (will_chunk (raw_output tokens) hard_limit) t h
      (subst
        (λ raw.
          (if will_chunk (raw_output tokens) hard_limit
            then in_chunks tokens (estimate_tokens plan_length) model hard_limit budget
                (floordiv raw hard_limit)
            else ok (unchunked_stage tokens model hard_limit budget))
          ≡ ok s)
        (raw_output-eq tokens (omega arith)) e)
