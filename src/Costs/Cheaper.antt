-- ===== src/Costs/Cheaper.antt =====
-- engine/cost_estimator.py: in every stage of an estimate the MVP tier takes no more than Premium.
use Prim.Native.Nat.{min, ◌<◌}
use native.Mathlib.Nat.{min-le_left, min-le_right, le-min, mul-one, mul-le-mul_right}
use autonomy_engine.Base.{ℕ, ◌*◌, ◌≤◌, String, sym, subst, arith}
use autonomy_engine.Base.Floats.{Float, of_nat, times, int}
use autonomy_engine.Base.Floats.Bounds.{
  IsAtMost, of_nat-IsAtMost, times-IsAtMost, int-IsAtMost, int-times-le, int-times_exact,
}
use autonomy_engine.Costs.{implement_multiplier, quarter, two_fifths, StageEstimate}
use autonomy_engine.Costs.Estimate.{
  premium_output, mvp_output, single_call, chunked_stage, unchunked_stage,
}

quarter-IsAtMost : IsAtMost 1 quarter
unfolding IsAtMost
quarter-IsAtMost = omega arith

two_fifths-IsAtMost : IsAtMost 1 two_fifths
unfolding IsAtMost
two_fifths-IsAtMost = omega arith

capped-IsAtMost :
    (x cap : Float) (b : ℕ)
    → IsAtMost 1 cap
    → b < 9007199254740992
    → IsAtMost b x
    → IsAtMost b (times x cap)
capped-IsAtMost x cap b le small h =
    subst (λ c. IsAtMost c (times x cap)) (mul-one b)
      (times-IsAtMost x cap b 1 (omega (arith, mul-one b)) h le)

-- what a cap leaves of a budget
pub capped-le :
    (cap : Float) (budget : ℕ)
    → IsAtMost 1 cap
    → budget < 9007199254740992
    → int (times (of_nat budget) cap) ≤ budget
capped-le cap budget le small =
    int-IsAtMost (times (of_nat budget) cap) budget
      (capped-IsAtMost (of_nat budget) cap budget le small (of_nat-IsAtMost budget small))

pub output-le :
    (multiplier cap : Float) (tokens hard_limit budget : ℕ)
    → IsAtMost 1 cap
    → tokens < 9007199254740992
    → tokens * multiplier.num < 9007199254740992
    → hard_limit < 9007199254740992
    → mvp_output multiplier cap tokens (min budget hard_limit)
      ≤ premium_output multiplier tokens hard_limit
unfolding mvp_output premium_output
output-le multiplier cap tokens hard_limit budget le t m h =
    let product = times (of_nat tokens) multiplier in
    let few : product.num < 9007199254740992 =
      subst (λ x. x.num < 9007199254740992) (sym (int-times_exact tokens multiplier t m)) m in
    let in_budget =
      capped-le cap (min budget hard_limit) le (omega (arith, min-le_right budget hard_limit)) in
    le-min
      (omega (
        arith,
        min-le_left (int (times product cap)) (int (times (of_nat (min budget hard_limit)) cap)),
        int-times-le product cap few le,
      ))
      (omega (
        arith,
        in_budget,
        min-le_right budget hard_limit,
        min-le_right (int (times product cap)) (int (times (of_nat (min budget hard_limit)) cap)),
      ))

-- The MVP tier takes no more than Premium, and Premium in every call no more than the model gives.
unfoldable pub IsCheaper : ℕ → StageEstimate → Type 0
IsCheaper hard_limit s =
    (s.output_tokens_mvp ≤ s.output_tokens_premium)
    × (s.output_tokens_premium ≤ hard_limit * s.estimated_chunks)

premium-le :
    (multiplier : Float) (tokens hard_limit : ℕ)
    → premium_output multiplier tokens hard_limit ≤ hard_limit * 1
unfolding premium_output
premium-le multiplier tokens hard_limit =
    omega
      (arith, mul-one hard_limit, min-le_right (int (times (of_nat tokens) multiplier)) hard_limit)

pub single_call-IsCheaper :
    (stage : String) (multiplier : Float) (tokens : ℕ) (model : String) (hard_limit budget : ℕ)
    → tokens < 9007199254740992
    → tokens * multiplier.num < 9007199254740992
    → hard_limit < 9007199254740992
    → IsCheaper hard_limit (single_call stage multiplier tokens model hard_limit budget)
unfolding IsCheaper single_call
single_call-IsCheaper stage multiplier tokens model hard_limit budget t m h = (
  output-le multiplier quarter tokens hard_limit budget quarter-IsAtMost t m h,
  premium-le multiplier tokens hard_limit,
)

pub unchunked_stage-IsCheaper :
    (tokens : ℕ) (model : String) (hard_limit budget : ℕ)
    → tokens * 6 < 9007199254740992
    → hard_limit < 9007199254740992
    → IsCheaper hard_limit (unchunked_stage tokens model hard_limit budget)
unfolding IsCheaper unchunked_stage
unchunked_stage-IsCheaper tokens model hard_limit budget t h = (
  output-le implement_multiplier two_fifths tokens hard_limit budget two_fifths-IsAtMost
      (omega arith) t h,
  premium-le implement_multiplier tokens hard_limit,
)

pub chunked_stage-IsCheaper :
    (tokens plan_overhead : ℕ) (model : String) (hard_limit budget n : ℕ)
    → n < 9007199254740992
    → hard_limit * n < 9007199254740992
    → hard_limit < 9007199254740992
    → IsCheaper hard_limit (chunked_stage tokens plan_overhead model hard_limit budget n)
unfolding IsCheaper chunked_stage
chunked_stage-IsCheaper tokens plan_overhead model hard_limit budget n few small h =
    let b = min budget hard_limit in
    let below : b * n ≤ hard_limit * n = mul-le-mul_right n (min-le_right budget hard_limit) in
    let b_small : b < 9007199254740992 = omega (arith, min-le_right budget hard_limit) in
    let capped =
      capped-IsAtMost (of_nat b) two_fifths b two_fifths-IsAtMost b_small
        (of_nat-IsAtMost b b_small) in
    let bound = int-IsAtMost (times (times (of_nat b) two_fifths) (of_nat n)) (b * n) (
      times-IsAtMost (times (of_nat b) two_fifths) (of_nat n) b n (omega arith) capped
        (of_nat-IsAtMost n few)) in
    (omega arith, omega arith)
