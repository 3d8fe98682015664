-- ===== src/Models.antt =====
-- engine/model_registry.py: limits and prices of the models.
pub mod Longest
use Prim.Native.String.{count}
use autonomy_engine.Base.{
  ℕ, zero, suc, String, Option, none, some, List, [], ◌∷◌, Bool, true, false, ltb, starts_with,
  or_default, if◌then◌else◌,
}
use autonomy_engine.Base.Dict.{Dict, lookup}

-- A price in the text of its number.
pub record Pricing : Type 0 where
  pub input : String
  pub output : String

-- An entry of models.yml; a key that is not there is `none`.
pub record ModelEntry : Type 0 where
  pub provider : Option String
  pub max_output_tokens : Option ℕ
  pub pricing : Option Pricing

-- the key and the length of the best match so far
abbrev pub Best : Type 0
Best = Option String × ℕ

abbrev pub better : String → String → Best → Best
better model key (best_key, best_len) =
    if starts_with model key
    then (if ltb best_len (count key) then (some key, count key) else (best_key, best_len))
    else (best_key, best_len)

-- for key in registry
unfoldable pub best_from : String → Dict ModelEntry → Best → Best
best_from model [] best = best
best_from model ((key, e) ∷ registry) best = best_from model registry (better model key best)

unfoldable pub best_prefix_match : String → Dict ModelEntry → Option String
unfolding best_from
best_prefix_match model registry = (best_from model registry (none, 0)).0

-- `_load_registry`: what models.yml has, with defaults where it has none
pub record Registry : Type 0 where
  pub models : Dict ModelEntry
  pub defaults : ModelEntry

-- models[key], for a key of the models
abbrev pub entry_or : ModelEntry → Option ModelEntry → ModelEntry
entry_or d none = d
entry_or d (some e) = e

unfoldable pub get_model_entry : Registry → String → ModelEntry
unfolding best_prefix_match lookup
get_model_entry reg model = elim (best_prefix_match model reg.models) [
  | none ↦ reg.defaults
  | some key ↦ entry_or reg.defaults (lookup key reg.models)
]

unfoldable pub get_model_limit : Registry → String → ℕ
unfolding get_model_entry
get_model_limit reg model = or_default 4096 (get_model_entry reg model).max_output_tokens

unfoldable pub get_model_pricing : Registry → String → Pricing
unfolding get_model_entry
get_model_pricing reg model =
    or_default (record { input = "0.0"; output = "0.0" }) (get_model_entry reg model).pricing
