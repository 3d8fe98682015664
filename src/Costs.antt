-- ===== src/Costs.antt =====
-- engine/cost_estimator.py: the tokens that a run is expected to take, and the two tiers of a run.
-- The section of config.yml is taken as it is documented, and its texts by their lengths. Logging
-- and the printed comparison are left out.
pub mod Estimate
pub mod Tiers
pub mod Cheaper
pub mod Bounds
pub mod Whole
pub mod Limits
use Prim.Native.Nat.{max}
use autonomy_engine.Base.{
  ℕ, zero, ◌+◌, ◌*◌, ◌/◌, String, ◌<>◌, Option, none, some, List, [], ◌∷◌, Bool, true, false,
  contains, or_default, if◌then◌else◌,
}
use autonomy_engine.Base.Dict.{Dict, lookup}
use autonomy_engine.Base.Floats.{Float}
use autonomy_engine.World.{other_error, failure, Result, ok, raise}
use autonomy_engine.Models.{Pricing, Registry, get_model_pricing}

-- `_OUTPUT_MULTIPLIERS`
abbrev pub design_multiplier : Float
design_multiplier = record { num = 3; exp = 0 }

abbrev pub implement_multiplier : Float
implement_multiplier = record { num = 6; exp = 0 }

abbrev pub verify_multiplier : Float
verify_multiplier = record { num = 3; exp = 1 }

pub data TierName : Type 0 where
  premium mvp : TierName

abbrev pub whole : Float
whole = record { num = 1; exp = 0 }

abbrev pub quarter : Float
quarter = record { num = 1; exp = 2 }

-- the double 0.40
abbrev pub two_fifths : Float
two_fifths = record { num = 7205759403792794; exp = 54 }

-- the double 0.85
abbrev pub chunk_threshold : Float
chunk_threshold = record { num = 7656119366529843; exp = 53 }

-- `_TIER_STAGE_CAPS`
abbrev pub tier_stage_caps : TierName → Dict Float
tier_stage_caps premium = ("design", whole) ∷ ("implement", whole) ∷ ("verify", whole) ∷ []
tier_stage_caps mvp = ("design", quarter) ∷ ("implement", two_fifths) ∷ ("verify", quarter) ∷ []

pub record StageEstimate : Type 0 where
  pub stage : String
  pub input_tokens : ℕ
  pub output_tokens_premium : ℕ
  pub output_tokens_mvp : ℕ
  pub model : String
  pub uses_llm : Bool
  pub chunked : Bool
  pub estimated_chunks : ℕ

-- `total_premium` and `total_mvp`
abbrev pub total_premium : StageEstimate → ℕ
total_premium s = s.input_tokens + s.output_tokens_premium

abbrev pub total_mvp : StageEstimate → ℕ
total_mvp s = s.input_tokens + s.output_tokens_mvp

-- `cache_hits` is never filled
pub record RunEstimate : Type 0 where
  pub provider : String
  pub stages : List StageEstimate
  pub config_max_tokens : ℕ

-- the sum over the stages that call a model
unfoldable pub sum_llm : (StageEstimate → ℕ) → List StageEstimate → ℕ
sum_llm f [] = 0
sum_llm f (s ∷ stages) = if s.uses_llm then f s + sum_llm f stages else sum_llm f stages

unfoldable pub total_input_tokens : RunEstimate → ℕ
unfolding sum_llm
total_input_tokens e = sum_llm (λ s. s.input_tokens) e.stages

unfoldable pub total_output_tokens : TierName → RunEstimate → ℕ
unfolding sum_llm
total_output_tokens premium e = sum_llm (λ s. s.output_tokens_premium) e.stages
total_output_tokens mvp e = sum_llm (λ s. s.output_tokens_mvp) e.stages

-- next((s.model for s in self.stages if s.uses_llm), "")
unfoldable pub first_model : List StageEstimate → String
first_model [] = ""
first_model (s ∷ stages) = let rest = first_model stages in if s.uses_llm then s.model else rest

-- `usd` is the cost of two numbers of tokens at a pricing, as a float
unfoldable pub cost_usd {ℓ} :
    {F : Type ℓ} → (ℕ → ℕ → Pricing → F) → Registry → TierName → RunEstimate → F
unfolding total_input_tokens total_output_tokens first_model get_model_pricing
cost_usd usd reg tier e =
    usd (total_input_tokens e) (total_output_tokens tier e)
      (get_model_pricing reg (first_model e.stages))

-- `_estimate_tokens` of a text of this length
unfoldable pub estimate_tokens : ℕ → ℕ
estimate_tokens len = max 1 (len / 4)

-- The section `llm` of config.yml: `sections` has the sections of the providers, and in them the
-- model where there is one.
pub record LlmConfig : Type 0 where
  pub provider : String
  pub max_tokens : Option ℕ
  pub models : Option (Dict String)
  pub sections : Dict (Option String)

-- llm_cfg[provider]["model"]
abbrev pub provider_model : Option (Option String) → Result String
provider_model none = raise (failure other_error "KeyError")
provider_model (some none) = raise (failure other_error "'model'")
provider_model (some (some model)) = ok model

-- llm_cfg["models"][stage], where it is there
abbrev pub stage_model : String → Option (Dict String) → Option String
stage_model stage none = none
stage_model stage (some models) = lookup stage models

-- `_resolve_model`
unfoldable pub resolve_model : LlmConfig → String → Result String
unfolding lookup
resolve_model cfg stage = elim (stage_model stage cfg.models) [
  | none ↦ provider_model (lookup cfg.provider cfg.sections)
  | some model ↦ ok model
]
