-- ===== src/Costs/Limits.antt =====
-- engine/cost_estimator.py, build_tiers: the limits of the tiers compared.
use Prim.Native.Nat.{min, max, ◌<◌}
use native.Mathlib.Nat.{
  min-le_left, min-le_right, le-max_left, le-max_right, max-le, mul-one, div-one,
}
use autonomy_engine.Base.{
  ℕ, ◌*◌, ◌≤◌, String, ◌≡◌, sym, ap, ◌∙◌, List, [], ◌∷◌, Bool, true, false, arith, some, or_default,
  if◌then◌else◌, ◌==◌, Bool-cases, inl, inr,
}
use autonomy_engine.Base.Dict.{Dict, lookup, insert, lookup-insert}
use autonomy_engine.Base.Floats.{of_nat, times, int}
use autonomy_engine.Base.Floats.Bounds.{IsAtMost, int-times_exact}
use autonomy_engine.Models.{Pricing, Registry, get_model_limit}
use autonomy_engine.Costs.{
  TierName, premium, mvp, whole, tier_stage_caps, StageEstimate, RunEstimate,
}
use autonomy_engine.Costs.Tiers.{stage_limit, per_stage, build_tier}
use autonomy_engine.Costs.Cheaper.{capped-le}
use autonomy_engine.Costs.Whole.{AreSmall}

cap-IsAtMost : (stage : String) → IsAtMost 1 (or_default whole (lookup stage (tier_stage_caps mvp)))
unfolding IsAtMost lookup
cap-IsAtMost stage = ground arith

whole_cap : (stage : String) → or_default whole (lookup stage (tier_stage_caps premium)) ≡ whole
unfolding lookup
whole_cap stage = ground arith

module _ (stage : String) (hard_limit budget : ℕ) (small : hard_limit < 9007199254740992) where
  -- Premium is the capacity of the model.
  pub premium_limit : stage_limit premium stage hard_limit budget ≡ max 1024 hard_limit
  unfolding stage_limit int
  premium_limit =
      ap (λ c. max 1024 (int (times (of_nat hard_limit) c))) (whole_cap stage)
      ∙ ap (λ x. max 1024 (int x))
          (int-times_exact hard_limit whole small (omega (arith, mul-one hard_limit)))
      ∙ ap (max 1024) (div-one (hard_limit * 1) ∙ mul-one hard_limit)

  capped : stage_limit mvp stage hard_limit budget ≤ max 1024 (min budget hard_limit)
  unfolding stage_limit
  capped =
      let cap = or_default whole (lookup stage (tier_stage_caps mvp)) in
      let below =
        capped-le cap (min budget hard_limit) (cap-IsAtMost stage)
          (omega (arith, min-le_right budget hard_limit)) in
      max-le (le-max_left 1024 (min budget hard_limit))
        (omega (arith, below, le-max_right 1024 (min budget hard_limit)))

  -- a bound of the numbers that a limit is the greater of
  max-bound : (b c : ℕ) → b ≤ c → max 1024 b ≤ max 1024 c
  max-bound b c h = max-le (le-max_left 1024 c) (omega (arith, le-max_right 1024 c))

  pub limit-le :
      stage_limit mvp stage hard_limit budget ≤ stage_limit premium stage hard_limit budget
  limit-le = omega (
    arith,
    capped,
    premium_limit,
    max-bound (min budget hard_limit) hard_limit (min-le_right budget hard_limit),
  )

  pub mvp_limit-le : stage_limit mvp stage hard_limit budget ≤ max 1024 budget
  mvp_limit-le =
      omega
        (arith, capped, max-bound (min budget hard_limit) budget (min-le_left budget hard_limit))

  pub limit-ge : 1024 ≤ stage_limit mvp stage hard_limit budget
  unfolding stage_limit
  limit-ge = le-max_left 1024 _

-- What holds of each limit of the MVP tier, beside the limits of Premium.
IsWithin : ℕ → Dict ℕ → Dict ℕ → Type 0
IsWithin budget limits above =
    (stage : String) (a : ℕ)
    → lookup stage limits ≡ some a
    → (1024 ≤ a) × (a ≤ max 1024 budget) × ((b : ℕ) × (lookup stage above ≡ some b) × (a ≤ b))

insert-IsWithin :
    (budget : ℕ) (limits above : Dict ℕ) (stage : String) (a b : ℕ)
    → IsWithin budget limits above
    → 1024 ≤ a
    → a ≤ max 1024 budget
    → a ≤ b
    → IsWithin budget (insert stage a limits) (insert stage b above)
unfolding IsWithin
insert-IsWithin budget limits above stage a b within low high le k c e =
    elim (Bool-cases (stage == k)) [
      | inl same ↦
          let p = inserted same a limits in
          let e1 : c ≡ a = cc in (omega arith, omega arith, (b, inserted same b above, omega arith))
      | inr differ ↦
          let (low', high', (d, found, le')) = within k c (sym (passed differ a limits) ∙ e) in
          (low', high', (d, passed differ b above ∙ found, le'))
    ]
  where
    inserted : (stage == k) ≡ true → (x : ℕ) (d : Dict ℕ) → lookup k (insert stage x d) ≡ some x
    inserted same x d = lookup-insert k stage x d ∙ ap (λ t. if t then some x else lookup k d) same

    passed : (stage == k) ≡ false → (x : ℕ) (d : Dict ℕ) → lookup k (insert stage x d) ≡ lookup k d
    passed differ x d =
        lookup-insert k stage x d ∙ ap (λ t. if t then some x else lookup k d) differ

module _ (reg : Registry) (small : AreSmall reg) (budget : ℕ) where
  step-IsWithin :
      (calls : Bool) (stage model : String) (limits above : Dict ℕ)
      → IsWithin budget limits above
      → let limit =
          λ (tier : TierName). stage_limit tier stage (get_model_limit reg model) budget in
        IsWithin budget
          (if calls then insert stage (limit mvp) limits else limits)
          (if calls then insert stage (limit premium) above else above)
  step-IsWithin true stage model limits above h =
      let hard_limit = get_model_limit reg model in
      let few : hard_limit < 9007199254740992 = omega (arith, small model) in
      insert-IsWithin budget limits above stage (stage_limit mvp stage hard_limit budget)
        (stage_limit premium stage hard_limit budget) h (limit-ge stage hard_limit budget few)
        (mvp_limit-le stage hard_limit budget few) (limit-le stage hard_limit budget few)
  step-IsWithin false stage model limits above h = h

  per_stage-IsWithin :
      (stages : List StageEstimate) (limits above : Dict ℕ)
      → IsWithin budget limits above
      → IsWithin budget
          (per_stage reg mvp budget stages limits)
          (per_stage reg premium budget stages above)
  unfolding per_stage
  per_stage-IsWithin [] limits above h = h
  per_stage-IsWithin (s ∷ stages) limits above h =
      per_stage-IsWithin stages _ _ (step-IsWithin s.uses_llm s.stage s.model limits above h)

-- A stage that has a limit in the MVP tier of `build_tiers` has one of at least 1024 tokens,
-- of at most the configured budget or 1024, and of at most its limit in Premium, which it
-- has; for limits of the models lower than 2 ^ 45.
pub build_tier_limits {ℓ} :
    {F : Type ℓ} (usd : ℕ → ℕ → Pricing → F) (reg : Registry) (e : RunEstimate) (stage : String)
    (a : ℕ)
    → AreSmall reg
    → lookup stage (build_tier usd reg e mvp).max_tokens_per_stage ≡ some a
    → (1024 ≤ a)
      × (a ≤ max 1024 e.config_max_tokens)
      × ((b : ℕ) × (lookup stage (build_tier usd reg e premium).max_tokens_per_stage ≡ some b)
          × (a ≤ b))
unfolding build_tier lookup IsWithin
build_tier_limits usd reg e stage a small h =
    per_stage-IsWithin reg small e.config_max_tokens e.stages [] [] (λ k c x. cc x) stage a h
