-- ===== src/Usage.antt =====
-- engine/usage_tracker.py: the tokens that a run has used, from its log, beside the estimate. A count
-- is taken as the natural that the engine writes; costs are numbers of a type that is a parameter.
use autonomy_engine.Base.{
  ℕ, ◌+◌, ◌<>◌, String, Option, none, some, List, [], ◌∷◌, Bool, true, false, contains, eqb,
  or_default, truthy, if◌then◌else◌, ◌++◌, ◌==◌,
}
use autonomy_engine.Base.Dict.{lookup}
use autonomy_engine.World.Json.{Json, bool, num, str, arr, obj, end, get_field, of_dict, is_truthy}
use autonomy_engine.World.{
  Platform, World, Line, dict, invalid_json, other, type_error, attribute_error, failure, Result,
  ok, raise, Exec,
}
use autonomy_engine.World.Results.{◌>>=◌}
use autonomy_engine.Context.{get_state_dir}
use autonomy_engine.Models.{Pricing, Registry, get_model_pricing}
use autonomy_engine.Costs.{
  TierName, premium, mvp, RunEstimate, total_input_tokens, total_output_tokens, cost_usd,
}

pub record StageUsage : Type 0 where
  pub stage : String
  pub input_tokens : ℕ
  pub output_tokens : ℕ
  pub llm_calls : ℕ
  pub cache_hit : Bool
  pub model : String

-- `total_tokens`
abbrev pub total_tokens : StageUsage → ℕ
total_tokens s = s.input_tokens + s.output_tokens

-- What is projected from an estimate.
pub record Projection {ℓ} (F : Type ℓ) : Type ℓ where
  pub input_tokens : ℕ
  pub output_tokens : ℕ
  pub cost_usd : F

pub record UsageReport {ℓ} (F : Type ℓ) : Type ℓ where
  pub run_id : String
  pub tier : String
  pub stages : List StageUsage
  -- none is zeros
  pub projected : Option (Projection F)

-- sum(f(s) for s in self.stages)
unfoldable pub sum_stages : (StageUsage → ℕ) → List StageUsage → ℕ
sum_stages f [] = 0
sum_stages f (s ∷ stages) = f s + sum_stages f stages

-- next((s.model for s in self.stages if s.model), "")
unfoldable pub first_named_model : List StageUsage → String
first_named_model [] = ""
first_named_model (s ∷ stages) =
    let rest = first_named_model stages in if truthy s.model then s.model else rest

module _ {ℓ} {F : Type ℓ} where
  unfoldable pub actual_input_tokens : UsageReport F → ℕ
  unfolding sum_stages
  actual_input_tokens r = sum_stages (λ s. s.input_tokens) r.stages

  unfoldable pub actual_output_tokens : UsageReport F → ℕ
  unfolding sum_stages
  actual_output_tokens r = sum_stages (λ s. s.output_tokens) r.stages

  unfoldable pub actual_total_tokens : UsageReport F → ℕ
  unfolding actual_input_tokens actual_output_tokens
  actual_total_tokens r = actual_input_tokens r + actual_output_tokens r

  unfoldable pub total_llm_calls : UsageReport F → ℕ
  unfolding sum_stages
  total_llm_calls r = sum_stages (λ s. s.llm_calls) r.stages

  unfoldable pub projected_total_tokens : UsageReport F → ℕ
  projected_total_tokens r = elim r.projected [
    | none ↦ 0
    | some p ↦ p.input_tokens + p.output_tokens
  ]

  -- the two numbers of which `savings_pct` is the percentage
  unfoldable pub savings_ratio : UsageReport F → Option (ℕ × ℕ)
  unfolding actual_total_tokens projected_total_tokens
  savings_ratio r =
      if eqb (projected_total_tokens r) 0
      then none
      else some (actual_total_tokens r, projected_total_tokens r)

-- `_resolve_pricing_for_model`
unfoldable pub resolve_pricing_for_model : Registry → String → Pricing
unfolding get_model_pricing
resolve_pricing_for_model reg model =
    if truthy model then get_model_pricing reg model else record { input = "0.0"; output = "0.0" }

-- `actual_cost_usd`, with the pricing of the first model that is named
unfoldable pub actual_cost_usd {ℓ} :
    {F : Type ℓ} → (ℕ → ℕ → Pricing → F) → Registry → UsageReport F → F
unfolding actual_input_tokens actual_output_tokens resolve_pricing_for_model first_named_model
actual_cost_usd usd reg r =
    usd (actual_input_tokens r) (actual_output_tokens r)
      (resolve_pricing_for_model reg (first_named_model r.stages))

-- what `json.loads` gives for the lines that it can read
unfoldable pub readable : List Line → List Json
unfolding of_dict
readable [] = []
readable (dict d ∷ lines) = obj (of_dict d) ∷ readable lines
readable (invalid_json s ∷ lines) = readable lines
readable (other v ∷ lines) = v ∷ readable lines

unfoldable pub load_trace_entries : Platform → String → World → List Json × World
unfolding readable lookup get_state_dir
load_trace_entries P run_id w =
    let (state, w') = get_state_dir P w in
    elim state [
      | ok dir ↦ (
        readable (or_default [] (lookup (dir <> "/runs/" <> run_id <> "/trace.jsonl") w'.traces)),
        w',
      )
      | raise e ↦ ([], w')
    ]

-- v.get(key, default)
unfoldable pub get_or : String → Json → Json → Result Json
unfolding get_field
get_or key default (obj fs) = ok (or_default default (get_field key fs))
get_or key default v = raise (failure attribute_error "no attribute 'get'")

-- `task in _LLM_STAGES`; a list and a dict have no hash
unfoldable pub is_llm_stage : Json → Result Bool
is_llm_stage (str s) = ok (contains s ("design" ∷ "implement" ∷ "verify" ∷ []))
is_llm_stage (arr vs) = raise (failure type_error "unhashable type: 'list'")
is_llm_stage (obj fs) = raise (failure type_error "unhashable type: 'dict'")
is_llm_stage v = ok false

unfoldable pub as_count : Json → Result ℕ
as_count (num n) = ok n
as_count v = raise (failure type_error "not a natural")

abbrev pub text_of : Json → String
text_of (str s) = s
text_of v = ""

-- the usage of an entry of this task
unfoldable pub usage_of : String → Json → Result StageUsage
unfolding get_or as_count is_truthy
usage_of task entry = do
  extra ← get_or "extra" (obj end) entry
  usage ← get_or "usage" (obj end) extra
  input_tokens ← get_or "input_tokens" (num 0) usage >>= as_count
  output_tokens ← get_or "output_tokens" (num 0) usage >>= as_count
  llm_calls ← get_or "llm_calls" (num 0) usage >>= as_count
  cache_hit ← get_or "cache_hit" (bool false) extra
  model ← get_or "model" (str "") entry
  ok (record {
    stage = task;
    input_tokens = input_tokens;
    output_tokens = output_tokens;
    llm_calls = llm_calls;
    cache_hit = is_truthy cache_hit;
    model = text_of model;
  })

-- what an entry adds
unfoldable pub usage_if : Bool → Json → Json → Result (List StageUsage)
unfolding usage_of
usage_if false task e = ok []
usage_if true task e = usage_of (text_of task) e >>= λ s. ok (s ∷ [])

unfoldable pub entry_usage : Json → Result (List StageUsage)
unfolding usage_if is_llm_stage get_or
entry_usage e = do task ← get_or "task" (str "") e; llm ← is_llm_stage task; usage_if llm task e

unfoldable pub extract_usage_from_traces : List Json → Result (List StageUsage)
unfolding entry_usage
extract_usage_from_traces [] = ok []
extract_usage_from_traces (e ∷ entries) = do
  found ← entry_usage e
  rest ← extract_usage_from_traces entries
  ok (found ++ rest)

-- TierName(tier_name) if tier_name else TierName.MVP; for another name it raises
unfoldable pub tier_of : String → Option TierName
tier_of name =
    if truthy name
    then if name == "premium" then some premium else if name == "mvp" then some mvp else none
    else some mvp

module _ {ℓ} {F : Type ℓ} (usd : ℕ → ℕ → Pricing → F) (reg : Registry) where
  -- the projections; an exception leaves zeros
  unfoldable pub projection_of : Option RunEstimate → String → Option (Projection F)
  unfolding tier_of total_input_tokens total_output_tokens cost_usd
  projection_of none name = none
  projection_of (some e) name = elim (tier_of name) [
    | none ↦ none
    | some tier ↦ some (record {
      input_tokens = total_input_tokens e;
      output_tokens = total_output_tokens tier e;
      cost_usd = cost_usd usd reg tier e;
    })
  ]

  abbrev pub usage_report_of :
      String → Option RunEstimate → String → Result (List StageUsage) → Result (UsageReport F)
  usage_report_of run_id estimate tier_name (ok stages) = ok (record {
    run_id = run_id;
    tier = tier_name;
    stages = stages;
    projected = projection_of estimate tier_name;
  })
  usage_report_of run_id estimate tier_name (raise e) = raise e

  unfoldable pub build_usage_report :
      Platform → String → Option RunEstimate → String → Exec (UsageReport F)
  unfolding load_trace_entries extract_usage_from_traces projection_of
  build_usage_report P run_id estimate tier_name w =
      let (entries, w') = load_trace_entries P run_id w in
      (usage_report_of run_id estimate tier_name (extract_usage_from_traces entries), w')
