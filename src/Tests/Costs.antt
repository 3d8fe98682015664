-- ===== src/Tests/Costs.antt =====
-- Floats, the estimate of a run and its tiers.
use Prim.Native.Nat.{max}
use Prim.Native.Nat.{◌<◌}
use Prim.Native.String.{count}
use autonomy_engine.Base.{
  ℕ, ◌≤◌, ◌≡◌, refl, none, some, [], ◌∷◌, Bool, true, false, arith, ◌==◌, or_default, if◌then◌else◌,
}
use autonomy_engine.Base.Dict.{lookup}
use autonomy_engine.Base.Floats.{of_nat, times, int}
use autonomy_engine.World.{World, ok, raise, Result}
use autonomy_engine.Models.{
  Pricing, Registry, get_model_limit, get_model_entry, best_prefix_match, best_from,
}
use autonomy_engine.Costs.{
  premium, mvp, two_fifths, chunk_threshold, RunEstimate, total_output_tokens, LlmConfig,
}
use autonomy_engine.Costs.Estimate.{read_length, implement_stage, estimate_run}
use autonomy_engine.Costs.Tiers.{build_tier, chosen, prompt_tier_selection}
use autonomy_engine.Costs.Whole.{AreShort, AreSmall, AreCheaper, estimate_run_cheaper}
use autonomy_engine.Costs.Limits.{build_tier_limits}
use autonomy_engine.Tests.Samples.{sample, empty_world}

-- 3 * 0.4 is 1.2000000000000002, and five times that is rounded up to 6.000000000000001
int-times_sample : int (times (times (of_nat 3) two_fifths) (of_nat 5)) ≡ 6
unfolding int times of_nat
int-times_sample = refl

-- 1 + 2 ^ 53 is rounded to the even number
round_sample : int (of_nat 9007199254740993) ≡ 9007199254740992
unfolding int of_nat
round_sample = refl

threshold_sample : int (times (of_nat 64000) chunk_threshold) ≡ 54400
unfolding int times of_nat
threshold_sample = refl

abbrev registry : Registry
registry = record {
  models =
      (
        "claude-sonnet-4",
        record { provider = none; max_output_tokens = some 64000; pricing = none },
      )
      ∷ [];
  defaults = record { provider = none; max_output_tokens = none; pricing = none };
}

abbrev config : LlmConfig
config = record {
  provider = "claude";
  max_tokens = some 8000;
  models = some (("verify", "gpt-4") ∷ []);
  sections = ("claude", some "claude-sonnet-4-20250514") ∷ [];
}

abbrev with_requirements : World
with_requirements = record empty_world {
  files = ("/p/state/inputs/REQUIREMENTS.md", "a tool that adds numbers, and a test of it") ∷ [];
}

abbrev value_of : Result RunEstimate → RunEstimate
value_of (ok e) = e
value_of (raise x) = record { provider = ""; stages = []; config_max_tokens = 0 }

abbrev estimate : RunEstimate
unfolding estimate_run
estimate = value_of (estimate_run sample registry config with_requirements).0

estimate-returned :
    estimate_run sample registry config with_requirements ≡ (ok estimate, with_requirements)
unfolding estimate_run
estimate-returned = refl

estimate-totals :
    (total_output_tokens premium estimate ≡ 1035) × (total_output_tokens mvp estimate ≡ 294)
unfolding estimate_run total_output_tokens
estimate-totals = (refl, refl)

-- 600 tokens are expected to give 3600, of which a model gives 1000 at a time.
implement_stage-sample :
    implement_stage 600 100 "m" 1000 800
    ≡ ok (record {
      stage = "implement";
      input_tokens = 2425;
      output_tokens_premium = 4000;
      output_tokens_mvp = 1280;
      model = "m";
      uses_llm = true;
      chunked = true;
      estimated_chunks = 4;
    })
unfolding implement_stage
implement_stage-sample = refl

-- no cost
abbrev no_usd : ℕ → ℕ → Pricing → ℕ
no_usd i o p = 0

-- A configured budget below 1024 is exceeded by the limits of the MVP tier.
small_budget_exceeded :
    lookup "design"
      (build_tier no_usd registry
        (record estimate { config_max_tokens = 512 })
        mvp).max_tokens_per_stage
    ≡ some 1024
unfolding build_tier estimate_run lookup
small_budget_exceeded = refl

prompted : prompt_tier_selection (λ s. s) ("x" ∷ "MVP" ∷ []) ≡ chosen mvp
unfolding prompt_tier_selection
prompted = refl

registry-AreSmall : AreSmall registry
unfolding get_model_limit get_model_entry best_prefix_match best_from lookup
registry-AreSmall model = ground arith

requirements-AreShort : AreShort with_requirements
unfolding read_length lookup
requirements-AreShort path = go ("/p/state/inputs/REQUIREMENTS.md" == path)
  where
    go :
        (b : Bool)
        → count
            (or_default "" (if b then some "a tool that adds numbers, and a test of it" else none))
          < 35184372088832
    go true = omega arith
    go false = omega arith

estimate_run_cheaper_example :
    AreCheaper registry estimate.stages
    × (total_output_tokens mvp estimate ≤ total_output_tokens premium estimate)
unfolding estimate_run
estimate_run_cheaper_example =
    estimate_run_cheaper sample registry config with_requirements estimate with_requirements
      registry-AreSmall requirements-AreShort refl

build_tier_limits_example :
    (1024 ≤ 3200)
    × (3200 ≤ max 1024 8000)
    × ((b : ℕ) × (lookup "implement"
            (build_tier no_usd registry estimate premium).max_tokens_per_stage
          ≡ some b)
        × (3200 ≤ b))
unfolding build_tier estimate_run lookup
build_tier_limits_example =
    build_tier_limits no_usd registry estimate "implement" 3200 registry-AreSmall refl
