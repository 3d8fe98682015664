-- ===== src/Designs/Stored.antt =====
-- engine/design_contract.py: to_dict and from_dict. A contract is read with the types that it is
-- written with; from_dict does not test them.
pub mod Restored
use autonomy_engine.Base.{ℕ, String, Option, none, some, List, [], ◌∷◌}
use autonomy_engine.Base.Dict.{Dict}
use autonomy_engine.World.Json.{
  Json, null, bool, num, literal, str, arr, obj, Items, nil, cons, Fields, end, field, get_field,
  of_dict, of_texts,
}
use autonomy_engine.World.{type_error, attribute_error, other_error, failure, Result, ok, raise}
use autonomy_engine.World.Results.{◌>>=◌}
use autonomy_engine.Designs.Contract.{
  TypeDefinition, ComponentContract, TechDecision, DesignContract,
}

unfoldable pub of_pairs : Dict String → Fields
of_pairs [] = end
of_pairs ((k, v) ∷ d) = field k (str v) (of_pairs d)

unfoldable pub type_to_dict : TypeDefinition → Json
unfolding of_pairs
type_to_dict t = obj (
    field "name" (str t.name) (
      field "kind" (str t.kind)
        (field "fields" (obj (of_pairs t.fields)) (field "file_path" (str t.file_path) end))))

unfoldable pub component_to_dict : ComponentContract → Json
unfolding of_texts
component_to_dict c = obj (
    field "name" (str c.name) (
      field "description" (str c.description) (
        field "files" (arr (of_texts c.files)) (
          field "imports_from" (arr (of_texts c.imports_from)) (
            field "exports_types" (arr (of_texts c.exports_types))
              (field "max_files" (num c.max_files) end))))))

unfoldable pub decision_to_dict : TechDecision → Json
decision_to_dict t = obj (
    field "category" (str t.category)
      (field "choice" (str t.choice) (field "rationale" (str t.rationale) end)))

unfoldable pub list_to_json {ℓ} : {A : Type ℓ} → (A → Json) → List A → Items
list_to_json f [] = nil
list_to_json f (x ∷ xs) = cons (f x) (list_to_json f xs)

-- `DesignContract.to_dict`
unfoldable pub to_dict : DesignContract → Json
unfolding component_to_dict type_to_dict decision_to_dict list_to_json
to_dict d = obj (
    field "project_name" (str d.project_name) (
      field "language" (str d.language) (
        field "components" (arr (list_to_json component_to_dict d.components)) (
          field "canonical_types" (arr (list_to_json type_to_dict d.canonical_types)) (
            field "tech_decisions" (arr (list_to_json decision_to_dict d.tech_decisions)) (
              field "entry_point" (str d.entry_point)
                (field "total_file_budget" (num d.total_file_budget) end)))))))

-- d[key], and d.get(key, default)
unfoldable pub required : String → Json → Result Json
unfolding get_field
required key (obj fs) = elim (get_field key fs) [
  | none ↦ raise (failure other_error key)
  | some v ↦ ok v
]
required key v = raise (failure type_error "indices must be integers")

unfoldable pub optional : String → Json → Json → Result Json
unfolding get_field
optional key default (obj fs) = elim (get_field key fs) [ none ↦ ok default | some v ↦ ok v ]
optional key default v = raise (failure attribute_error "no attribute 'get'")

unfoldable pub as_text : Json → Result String
as_text (str s) = ok s
as_text v = raise (failure type_error "not a text")

unfoldable pub as_number : Json → Result ℕ
as_number (num n) = ok n
as_number v = raise (failure type_error "not a number")

unfoldable pub items_to_list {ℓ} : {A : Type ℓ} → (Json → Result A) → Items → Result (List A)
items_to_list f nil = ok []
items_to_list f (cons v vs) = do x ← f v; xs ← items_to_list f vs; ok (x ∷ xs)

-- [f(v) for v in value]
unfoldable pub as_list {ℓ} : {A : Type ℓ} → (Json → Result A) → Json → Result (List A)
unfolding items_to_list
as_list f (arr vs) = items_to_list f vs
as_list f v = raise (failure type_error "not a list")

unfoldable pub fields_to_pairs : Fields → Result (Dict String)
unfolding as_text
fields_to_pairs end = ok []
fields_to_pairs (field k v fs) = do s ← as_text v; d ← fields_to_pairs fs; ok ((k, s) ∷ d)

unfoldable pub as_pairs : Json → Result (Dict String)
unfolding fields_to_pairs
as_pairs (obj fs) = fields_to_pairs fs
as_pairs v = raise (failure type_error "not a dict")

unfoldable pub type_from_dict : Json → Result TypeDefinition
unfolding required optional as_text as_pairs
type_from_dict d = do
  name ← required "name" d >>= as_text
  kind ← optional "kind" (str "unknown") d >>= as_text
  fields ← optional "fields" (obj end) d >>= as_pairs
  file_path ← optional "file_path" (str "") d >>= as_text
  ok (record { name = name; kind = kind; fields = fields; file_path = file_path })

unfoldable pub component_from_dict : Json → Result ComponentContract
unfolding required optional as_text as_list as_number
component_from_dict d = do
  name ← required "name" d >>= as_text
  description ← required "description" d >>= as_text
  files ← required "files" d >>= as_list as_text
  imports_from ← optional "imports_from" (arr nil) d >>= as_list as_text
  exports_types ← optional "exports_types" (arr nil) d >>= as_list as_text
  max_files ← optional "max_files" (num 10) d >>= as_number
  ok (record {
    name = name;
    description = description;
    files = files;
    imports_from = imports_from;
    exports_types = exports_types;
    max_files = max_files;
  })

unfoldable pub decision_from_dict : Json → Result TechDecision
unfolding required optional as_text
decision_from_dict d = do
  category ← required "category" d >>= as_text
  choice ← required "choice" d >>= as_text
  rationale ← optional "rationale" (str "") d >>= as_text
  ok (record { category = category; choice = choice; rationale = rationale })

-- `DesignContract.from_dict`
unfoldable pub from_dict : Json → Result DesignContract
unfolding required optional as_text as_list as_number component_from_dict type_from_dict
    decision_from_dict
from_dict d = do
  project_name ← required "project_name" d >>= as_text
  language ← required "language" d >>= as_text
  components ← optional "components" (arr nil) d >>= as_list component_from_dict
  canonical_types ← optional "canonical_types" (arr nil) d >>= as_list type_from_dict
  tech_decisions ← optional "tech_decisions" (arr nil) d >>= as_list decision_from_dict
  entry_point ← optional "entry_point" (str "") d >>= as_text
  total_file_budget ← optional "total_file_budget" (num 80) d >>= as_number
  ok (record {
    project_name = project_name;
    language = language;
    components = components;
    canonical_types = canonical_types;
    tech_decisions = tech_decisions;
    entry_point = entry_point;
    total_file_budget = total_file_budget;
  })
