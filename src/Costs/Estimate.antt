-- ===== src/Costs/Estimate.antt =====
-- engine/cost_estimator.py, estimate_run: the estimate of each stage from the lengths of its texts.
use Prim.Native.Nat.{min, max}
use Prim.Native.String.{count}
use autonomy_engine.Base.{
  ℕ, zero, suc, ◌+◌, ◌*◌, ◌/◌, String, ◌<>◌, [], ◌∷◌, Bool, true, false, ltb, or_default,
  if◌then◌else◌,
}
use autonomy_engine.Base.Dict.{lookup}
use autonomy_engine.Base.Floats.{Float, of_nat, times, int}
use autonomy_engine.World.{
  Platform, World, failure, other_error, Result, ok, raise, Exec, pure, gets, lift, ◌>>=◌,
}
use autonomy_engine.Context.{get_state_dir, get_prompts_dir}
use autonomy_engine.Models.{Registry, get_model_limit}
use autonomy_engine.Costs.{
  design_multiplier, implement_multiplier, verify_multiplier, quarter, two_fifths, chunk_threshold,
  StageEstimate, RunEstimate, estimate_tokens, LlmConfig, resolve_model,
}

-- The numbers of a stage with no chunks: `tokens` of input, and what its budgets are.
unfoldable pub premium_output : Float → ℕ → ℕ → ℕ
unfolding of_nat times int
premium_output multiplier tokens hard_limit =
    min (int (times (of_nat tokens) multiplier)) hard_limit

unfoldable pub mvp_output : Float → Float → ℕ → ℕ → ℕ
unfolding of_nat times int
mvp_output multiplier cap tokens mvp_budget =
    min (int (times (times (of_nat tokens) multiplier) cap)) (int (times (of_nat mvp_budget) cap))

-- the estimates of the design stage and of the verify stage
unfoldable pub single_call : String → Float → ℕ → String → (hard_limit budget : ℕ) → StageEstimate
unfolding premium_output mvp_output
single_call stage multiplier tokens model hard_limit budget = record {
  stage = stage;
  input_tokens = tokens;
  output_tokens_premium = premium_output multiplier tokens hard_limit;
  output_tokens_mvp = mvp_output multiplier quarter tokens (min budget hard_limit);
  model = model;
  uses_llm = true;
  chunked = false;
  estimated_chunks = 1;
}

-- `will_chunk`
unfoldable pub will_chunk : (raw_premium_output hard_limit : ℕ) → Bool
unfolding of_nat times int
will_chunk raw_premium_output hard_limit =
    ltb (int (times (of_nat hard_limit) chunk_threshold)) raw_premium_output

-- `a // n`, which raises for a zero
unfoldable pub floordiv : ℕ → ℕ → Result ℕ
floordiv a zero = raise (failure other_error "integer division or modulo by zero")
floordiv a (suc n) = ok (a / suc n)

-- the estimate in chunks, of which there are `n`
unfoldable pub chunked_stage :
    (tokens plan_overhead : ℕ) → String → (hard_limit budget n : ℕ) → StageEstimate
unfolding of_nat times int
chunked_stage tokens plan_overhead model hard_limit budget n = record {
  stage = "implement";
  input_tokens = tokens * n + plan_overhead;
  output_tokens_premium = hard_limit * n;
  output_tokens_mvp = int (times (times (of_nat (min budget hard_limit)) two_fifths) (of_nat n));
  model = model;
  uses_llm = true;
  chunked = true;
  estimated_chunks = n;
}

unfoldable pub unchunked_stage : (tokens : ℕ) → String → (hard_limit budget : ℕ) → StageEstimate
unfolding premium_output mvp_output
unchunked_stage tokens model hard_limit budget = record {
  stage = "implement";
  input_tokens = tokens;
  output_tokens_premium = premium_output implement_multiplier tokens hard_limit;
  output_tokens_mvp = mvp_output implement_multiplier two_fifths tokens (min budget hard_limit);
  model = model;
  uses_llm = true;
  chunked = false;
  estimated_chunks = 1;
}

-- `quotient` is `raw_premium_output // impl_hard_limit`
unfoldable pub in_chunks :
    (tokens plan_overhead : ℕ) → String → (hard_limit budget : ℕ) → Result ℕ → Result StageEstimate
unfolding chunked_stage
in_chunks tokens plan_overhead model hard_limit budget (ok quotient) =
    ok (chunked_stage tokens plan_overhead model hard_limit budget (max 2 (quotient + 1)))
in_chunks tokens plan_overhead model hard_limit budget (raise e) = raise e

-- `raw_premium_output`
unfoldable pub raw_output : ℕ → ℕ
unfolding of_nat times int
raw_output tokens = int (times (of_nat tokens) implement_multiplier)

-- The estimate of the implement stage: `plan_length` is the length of the text of the planning call.
unfoldable pub implement_stage :
    (tokens plan_length : ℕ) → String → (hard_limit budget : ℕ) → Result StageEstimate
unfolding raw_output will_chunk floordiv in_chunks unchunked_stage estimate_tokens
implement_stage tokens plan_length model hard_limit budget =
    if will_chunk (raw_output tokens) hard_limit
    then in_chunks tokens (estimate_tokens plan_length) model hard_limit budget
        (floordiv (raw_output tokens) hard_limit)
    else ok (unchunked_stage tokens model hard_limit budget)

-- a stage that calls no model
abbrev pub idle_stage : String → StageEstimate
idle_stage stage = record {
  stage = stage;
  input_tokens = 0;
  output_tokens_premium = 0;
  output_tokens_mvp = 0;
  model = "";
  uses_llm = false;
  chunked = false;
  estimated_chunks = 1;
}

-- The lengths of the texts that are read; the text of a file that is not there is empty.
pub record Lengths : Type 0 where
  pub requirements : ℕ
  pub constraints : ℕ
  pub non_goals : ℕ
  pub acceptance : ℕ
  pub design_template : ℕ
  pub implement_template : ℕ
  pub plan_template : ℕ
  pub verify_template : ℕ

-- the length of `_read_if_exists`
unfoldable pub read_length : String → World → ℕ
unfolding lookup
read_length path w = count (or_default "" (lookup path w.files))

abbrev pub read_lengths : (state prompts : String) → World → Lengths
read_lengths state prompts w = record {
  requirements = read_length (state <> "/inputs/REQUIREMENTS.md") w;
  constraints = read_length (state <> "/inputs/CONSTRAINTS.md") w;
  non_goals = read_length (state <> "/inputs/NON_GOALS.md") w;
  acceptance = read_length (state <> "/inputs/ACCEPTANCE_CRITERIA.md") w;
  design_template = read_length (prompts <> "/design.txt") w;
  implement_template = read_length (prompts <> "/implement.txt") w;
  plan_template = read_length (prompts <> "/implement_plan.txt") w;
  verify_template = read_length (prompts <> "/verify.txt") w;
}

module _ (reg : Registry) (cfg : LlmConfig) (len : Lengths) where
  -- `llm_cfg.get("max_tokens", 16384)`
  abbrev pub budget : ℕ
  budget = or_default 16384 cfg.max_tokens

  unfoldable pub design_estimate : String → StageEstimate
  unfolding single_call get_model_limit estimate_tokens
  design_estimate model =
      single_call "design" design_multiplier
        (estimate_tokens (len.design_template + len.requirements + len.constraints + len.non_goals))
        model (get_model_limit reg model) budget

  -- `arch_size` is `estimated_arch_size`
  unfoldable pub implement_estimate : (arch_size : ℕ) → String → Result StageEstimate
  unfolding implement_stage get_model_limit estimate_tokens
  implement_estimate arch_size model =
      implement_stage
        (estimate_tokens (len.implement_template + arch_size + len.requirements + len.constraints))
        (len.plan_template + arch_size) model (get_model_limit reg model) budget

  unfoldable pub verify_estimate : String → StageEstimate
  unfolding single_call get_model_limit estimate_tokens
  verify_estimate model =
      single_call "verify" verify_multiplier
        (estimate_tokens (len.verify_template + 2000 + len.acceptance + len.requirements)) model
        (get_model_limit reg model) budget

  abbrev pub with_stages : (design implement verify : StageEstimate) → RunEstimate
  with_stages design implement verify = record {
    provider = cfg.provider;
    stages =
        design
        ∷ implement
        ∷ verify
        ∷ idle_stage "bootstrap"
        ∷ idle_stage "extract"
        ∷ idle_stage "test"
        ∷ [];
    config_max_tokens = budget;
  }

  unfoldable pub estimate_stages : Exec RunEstimate
  unfolding resolve_model design_estimate implement_estimate verify_estimate
  estimate_stages = do
    design_model ← lift (resolve_model cfg "design")
    implement_model ← lift (resolve_model cfg "implement")
    implement ← lift (
        implement_estimate ((design_estimate design_model).output_tokens_premium * 4)
          implement_model)
    verify_model ← lift (resolve_model cfg "verify")
    pure (with_stages (design_estimate design_model) implement (verify_estimate verify_model))

unfoldable pub estimate_run : Platform → Registry → LlmConfig → Exec RunEstimate
unfolding get_state_dir get_prompts_dir read_length estimate_stages
estimate_run P reg cfg = do
  state ← get_state_dir P
  prompts ← get_prompts_dir P
  len ← gets (read_lengths state prompts)
  estimate_stages reg cfg len
