-- ===== src/Costs/Tiers.antt =====
-- engine/cost_estimator.py, build_tiers and prompt_tier_selection: what a tier lets a stage use.
use Prim.Native.Nat.{min, max}
use autonomy_engine.Base.{ℕ, String, List, [], ◌∷◌, contains, or_default, if◌then◌else◌}
use autonomy_engine.Base.Dict.{Dict, lookup, insert}
use autonomy_engine.Base.Floats.{of_nat, times, int}
use autonomy_engine.Models.{Pricing, Registry, get_model_limit}
use autonomy_engine.Costs.{
  TierName, premium, mvp, whole, tier_stage_caps, StageEstimate, RunEstimate, cost_usd,
}

-- `base_budget`
abbrev pub base_budget : TierName → (hard_limit config_max_tokens : ℕ) → ℕ
base_budget premium hard_limit config_max_tokens = hard_limit
base_budget mvp hard_limit config_max_tokens = min config_max_tokens hard_limit

-- per_stage[se.stage], for the hard limit of the model
unfoldable pub stage_limit : TierName → String → (hard_limit config_max_tokens : ℕ) → ℕ
unfolding of_nat times int lookup
stage_limit tier stage hard_limit config_max_tokens = max 1024 (
    int (
      times (of_nat (base_budget tier hard_limit config_max_tokens))
        (or_default whole (lookup stage (tier_stage_caps tier)))))

-- `per_stage` after these stages
unfoldable pub per_stage : Registry → TierName → ℕ → List StageEstimate → Dict ℕ → Dict ℕ
unfolding stage_limit insert get_model_limit
per_stage reg tier max_tokens [] limits = limits
per_stage reg tier max_tokens (s ∷ stages) limits = per_stage reg tier max_tokens stages (
    if s.uses_llm
    then insert s.stage (stage_limit tier s.stage (get_model_limit reg s.model) max_tokens) limits
    else limits)

pub record Tier {ℓ} (F : Type ℓ) : Type ℓ where
  pub name : TierName
  pub max_tokens_per_stage : Dict ℕ
  pub estimated_cost_usd : F

-- tiers[name] of `build_tiers`; `usd` is the arithmetic of `cost_usd`
unfoldable pub build_tier {ℓ} :
    {F : Type ℓ} → (ℕ → ℕ → Pricing → F) → Registry → RunEstimate → TierName → Tier F
unfolding per_stage cost_usd
build_tier usd reg e tier = record {
  name = tier;
  max_tokens_per_stage = per_stage reg tier e.config_max_tokens e.stages [];
  estimated_cost_usd = cost_usd usd reg tier e;
}

-- How the dialogue ends; `eof` is the EOFError of an input that has no further line.
pub data TierChoice : Type 0 where
  chosen : TierName → TierChoice
  quit eof : TierChoice

-- `normalise` is `.strip().upper()`
unfoldable pub prompt_tier_selection : (String → String) → List String → TierChoice
prompt_tier_selection normalise [] = eof
prompt_tier_selection normalise (line ∷ input) =
    let rest = prompt_tier_selection normalise input in
    let choice = normalise line in
    if contains choice ("A" ∷ "PREMIUM" ∷ "P" ∷ [])
    then chosen premium
    else if contains choice ("B" ∷ "MVP" ∷ "M" ∷ [])
    then chosen mvp
    else if contains choice ("Q" ∷ "QUIT" ∷ "EXIT" ∷ [])
    then quit
    else rest
