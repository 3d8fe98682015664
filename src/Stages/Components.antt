-- ===== src/Stages/Components.antt =====
-- tasks/implement.py: the components and the schema that the chunks of an implementation are made
-- from, and whether there are chunks.
use Prim.Native.String.{count}
use autonomy_engine.Base.{
  ℕ, ◌*◌, ◌/◌, ◌+◌, ◌^◌, String, ◌<>◌, ◌==◌, Option, none, some, List, [], ◌∷◌, ◌++◌, Bool, ltb,
  map, contains, or_default, if◌then◌else◌,
}
use autonomy_engine.Base.Dict.{Dict, lookup, insert}
use autonomy_engine.Base.Floats.{Float, of_nat, times}
use autonomy_engine.Designs.Contract.{TypeDefinition, ComponentContract, DesignContract, is_empty}

-- separator.join(parts)
unfoldable pub join : String → List String → String
join separator [] = ""
join separator (part ∷ []) = part
join separator (part ∷ next ∷ parts) = part <> separator <> join separator (next ∷ parts)

-- the first component of a name
unfoldable pub component_named : String → List ComponentContract → Option ComponentContract
component_named name [] = none
component_named name (c ∷ cs) =
    let rest = component_named name cs in if c.name == name then some c else rest

-- `dep_descriptions`
unfoldable pub dependency_lines : List ComponentContract → List String → List String
unfolding component_named
dependency_lines cs [] = []
dependency_lines cs (name ∷ names) = elim (component_named name cs) [
  | none ↦ dependency_lines cs names
  | some dep ↦ ("- **" <> dep.name <> "**: " <> dep.description) ∷ dependency_lines cs names
]

-- An element of what `_contract_to_components` returns.
pub record Component : Type 0 where
  pub name : String
  pub description : String
  pub contract_files : List String
  pub max_files : ℕ

-- `text_of_number` is `str` of a number
module _ (text_of_number : ℕ → String) where
  unfoldable pub describe : List ComponentContract → ComponentContract → String
  unfolding join dependency_lines
  describe cs c =
      let deps = dependency_lines cs c.imports_from in
      c.description
      <> "\n\n**You MUST produce exactly these files (no more, no fewer):**\n"
      <> join "\n" (map (λ f. "- `" <> f <> "`") c.files)
      <> "\n\n**Max files for this component: "
      <> text_of_number c.max_files
      <> "**\n\n**This component imports from:**\n"
      <> (if is_empty deps then "(none)" else join "\n" deps)
      <> (if is_empty c.exports_types
          then ""
          else "\n\n**This component defines these canonical types (use exact field names from the schema):** "
            <> join ", " c.exports_types)

  -- `_contract_to_components`
  unfoldable pub contract_to_components : DesignContract → List Component
  unfolding describe
  contract_to_components d =
      map
        (λ c. record {
          name = c.name;
          description = describe d.components c;
          contract_files = c.files;
          max_files = c.max_files;
        })
        d.components

-- by_file.setdefault(td.file_path, []).append(td)
unfoldable pub group_by_file :
    List TypeDefinition → Dict (List TypeDefinition) → Dict (List TypeDefinition)
unfolding lookup insert
group_by_file [] by_file = by_file
group_by_file (t ∷ ts) by_file =
    group_by_file ts
      (insert t.file_path (or_default [] (lookup t.file_path by_file) ++ t ∷ []) by_file)

unfoldable pub type_lines : Bool → TypeDefinition → List String
type_lines typescript t =
    if typescript
    then ("export " <> t.kind <> " " <> t.name <> " {")
      ∷ (map (λ f. "  " <> f.0 <> ": " <> f.1 <> ";") t.fields ++ "}" ∷ "" ∷ [])
    else "@dataclass"
      ∷ ("class " <> t.name <> ":")
      ∷ (map (λ f. "    " <> f.0 <> ": " <> f.1) t.fields ++ "" ∷ [])

unfoldable pub types_lines : Bool → List TypeDefinition → List String
unfolding type_lines
types_lines typescript [] = []
types_lines typescript (t ∷ ts) = type_lines typescript t ++ types_lines typescript ts

unfoldable pub schema_parts : Bool → Dict (List TypeDefinition) → List String
unfolding types_lines join
schema_parts typescript [] = []
schema_parts typescript ((path, ts) ∷ by_file) =
    join "\n" (
      ("### `" <> path <> "`")
      ∷ (if typescript then "```typescript" else "```python")
      ∷ (types_lines typescript ts ++ "```" ∷ []))
    ∷ schema_parts typescript by_file

-- `_build_canonical_schema_from_contract`
unfoldable pub build_canonical_schema_from_contract : DesignContract → String
unfolding join schema_parts group_by_file
build_canonical_schema_from_contract d =
    if is_empty d.canonical_types
    then ""
    else join "\n\n" (
        schema_parts (contains d.language ("typescript" ∷ "javascript" ∷ []))
          (group_by_file d.canonical_types []))

-- whether a natural is greater than a float
unfoldable pub exceeds : ℕ → Float → Bool
exceeds n x = ltb x.num (n * 2 ^ x.exp)

-- `_should_chunk`, for the budget of the provider
unfoldable pub should_chunk : (architecture requirements constraints : String) → ℕ → Bool
unfolding exceeds times of_nat
should_chunk architecture requirements constraints budget =
    let input_tokens = (count architecture + count requirements + count constraints) / 4 in
    exceeds (input_tokens * 6) (times (of_nat budget) (record { num = 7656119366529843; exp = 53 }))
