-- ===== src/Designs/Stored/Restored.antt =====
-- engine/design_contract.py: a contract that was written is read again.
use autonomy_engine.Base.{String, ◌≡◌, refl, List, [], ◌∷◌}
use autonomy_engine.Base.Dict.{Dict}
use autonomy_engine.World.Json.{Json, of_texts, get_field}
use autonomy_engine.World.{Result, ok}
use autonomy_engine.Designs.Contract.{
  TypeDefinition, ComponentContract, TechDecision, DesignContract,
}
use autonomy_engine.Designs.Stored.{
  of_pairs, type_to_dict, component_to_dict, decision_to_dict, list_to_json, to_dict, required,
  optional, as_text, as_number, items_to_list, as_list, fields_to_pairs, as_pairs, type_from_dict,
  component_from_dict, decision_from_dict, from_dict,
}

pairs-of_pairs : (d : Dict String) → fields_to_pairs (of_pairs d) ≡ ok d
unfolding fields_to_pairs of_pairs as_text
pairs-of_pairs [] = refl
pairs-of_pairs ((k, v) ∷ d) = rw (pairs-of_pairs d) refl

texts-of_texts : (xs : List String) → items_to_list as_text (of_texts xs) ≡ ok xs
unfolding items_to_list of_texts as_text
texts-of_texts [] = refl
texts-of_texts (x ∷ xs) = rw (texts-of_texts xs) refl

items-list_to_json {ℓ} :
    {A : Type ℓ} (f : A → Json) (g : Json → Result A)
    → ((a : A) → g (f a) ≡ ok a)
    → (xs : List A) → items_to_list g (list_to_json f xs) ≡ ok xs
unfolding items_to_list list_to_json
items-list_to_json f g h [] = refl
items-list_to_json f g h (x ∷ xs) = rw (h x, items-list_to_json f g h xs) refl

type-restored : (t : TypeDefinition) → type_from_dict (type_to_dict t) ≡ ok t
unfolding type_from_dict type_to_dict required optional get_field as_text as_pairs
type-restored t = rw (pairs-of_pairs t.fields) refl

component-restored : (c : ComponentContract) → component_from_dict (component_to_dict c) ≡ ok c
unfolding component_from_dict component_to_dict required optional get_field as_text as_list
    as_number
component-restored c =
    rw (texts-of_texts c.files, texts-of_texts c.imports_from, texts-of_texts c.exports_types) refl

decision-restored : (t : TechDecision) → decision_from_dict (decision_to_dict t) ≡ ok t
unfolding decision_from_dict decision_to_dict required optional get_field as_text
decision-restored t = refl

-- `DesignContract.from_dict` reads what `to_dict` writes of any contract, and returns that
-- contract.
pub from_dict-to_dict : (d : DesignContract) → from_dict (to_dict d) ≡ ok d
unfolding from_dict to_dict required optional get_field as_text as_list as_number
from_dict-to_dict d =
    rw
      (
        items-list_to_json component_to_dict component_from_dict component-restored d.components,
        items-list_to_json type_to_dict type_from_dict type-restored d.canonical_types,
        items-list_to_json decision_to_dict decision_from_dict decision-restored d.tech_decisions,
      )
      refl
