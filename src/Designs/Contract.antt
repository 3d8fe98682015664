-- ===== src/Designs/Contract.antt =====
-- engine/design_contract.py: the design contract and `validate_contract`. Its messages are the
-- constructors of a type. The numbers of a contract are naturals.
use autonomy_engine.Base.{
  ℕ, String, List, [], ◌∷◌, ◌++◌, Bool, true, false, contains, truthy, ltb, length, map,
  if◌then◌else◌,
}
use autonomy_engine.Base.Dict.{Dict}
use autonomy_engine.Base.Counts.{distinct, tally}

pub record TypeDefinition : Type 0 where
  pub name : String
  pub kind : String
  pub fields : Dict String
  pub file_path : String

pub record ComponentContract : Type 0 where
  pub name : String
  pub description : String
  pub files : List String
  pub imports_from : List String
  pub exports_types : List String
  pub max_files : ℕ

pub record TechDecision : Type 0 where
  pub category : String
  pub choice : String
  pub rationale : String

pub record DesignContract : Type 0 where
  pub project_name : String
  pub language : String
  pub components : List ComponentContract
  pub canonical_types : List TypeDefinition
  pub tech_decisions : List TechDecision
  pub entry_point : String
  pub total_file_budget : ℕ

pub data ContractError : Type 0 where
  empty_project_name empty_language no_components empty_component_name empty_type_name :
      ContractError
  duplicate_component no_files duplicate_type no_fields no_file_path : String → ContractError
  too_many_files : String → ℕ → ℕ → ContractError
  listed_twice unknown_import unknown_export : String → String → ContractError
  shared_file : String → ℕ → List String → ContractError
  over_budget : ℕ → ℕ → ContractError

-- `errors.append(e)` under a test
abbrev pub error_if : Bool → ContractError → List ContractError
error_if true e = e ∷ []
error_if false e = []

abbrev pub names_of : List ComponentContract → List String
names_of = map (λ c. c.name)

abbrev pub is_empty {ℓ} : {A : Type ℓ} → List A → Bool
is_empty [] = true
is_empty (x ∷ xs) = false

-- for f in comp.files, with the files that were seen
unfoldable pub repeated_files : String → List String → List String → List ContractError
repeated_files comp seen [] = []
repeated_files comp seen (f ∷ fs) =
    error_if (contains f seen) (listed_twice comp f) ++ repeated_files comp (f ∷ seen) fs

unfoldable pub unknown_imports : String → List String → List String → List ContractError
unknown_imports comp known [] = []
unknown_imports comp known (d ∷ ds) =
    error_if (if contains d known then false else true) (unknown_import comp d)
    ++ unknown_imports comp known ds

-- What one component with a name adds, given the names before it and those of all components.
unfoldable pub component_errors : ComponentContract → List String → List String → List ContractError
unfolding repeated_files unknown_imports
component_errors c seen known =
    error_if (contains c.name seen) (duplicate_component c.name)
    ++ (error_if (is_empty c.files) (no_files c.name)
        ++ (error_if (ltb c.max_files (length c.files))
              (too_many_files c.name (length c.files) c.max_files)
            ++ (repeated_files c.name [] c.files ++ unknown_imports c.name known c.imports_from)))

-- the names of the components that list a file
unfoldable pub owners_of : String → List ComponentContract → List String
owners_of f [] = []
owners_of f (c ∷ cs) =
    let rest = owners_of f cs in if contains f c.files then c.name ∷ rest else rest

unfoldable pub shared_files : List ComponentContract → Dict ℕ → List ContractError
unfolding owners_of
shared_files cs [] = []
shared_files cs ((f, n) ∷ counts) =
    error_if (ltb 1 n) (shared_file f n (owners_of f cs)) ++ shared_files cs counts

unfoldable pub unknown_exports : String → List String → List String → List ContractError
unknown_exports comp known [] = []
unknown_exports comp known (t ∷ ts) =
    error_if (if contains t known then false else true) (unknown_export comp t)
    ++ unknown_exports comp known ts

unfoldable pub exports_errors : List String → List ComponentContract → List ContractError
unfolding unknown_exports
exports_errors known [] = []
exports_errors known (c ∷ cs) =
    unknown_exports c.name known c.exports_types ++ exports_errors known cs

module _ (strip : String → String) where
  -- not s.strip()
  abbrev pub is_blank : String → Bool
  is_blank s = if truthy (strip s) then false else true

  unfoldable pub components_errors :
      List ComponentContract → List String → List String → List ContractError
  unfolding component_errors
  components_errors [] seen known = []
  components_errors (c ∷ cs) seen known =
      let skipped = components_errors cs seen known in
      let rest = components_errors cs (c.name ∷ seen) known in
      if is_blank c.name
      then empty_component_name ∷ skipped
      else component_errors c seen known ++ rest

  -- all_planned_files: those of the components with a name
  unfoldable pub planned_files : List ComponentContract → List String
  planned_files [] = []
  planned_files (c ∷ cs) =
      let rest = planned_files cs in if is_blank c.name then rest else c.files ++ rest

  -- What one canonical type with a name adds, given the names before it.
  unfoldable pub type_errors : TypeDefinition → List String → List ContractError
  type_errors t seen =
      error_if (contains t.name seen) (duplicate_type t.name)
      ++ (error_if (is_empty t.fields) (no_fields t.name)
          ++ error_if (is_blank t.file_path) (no_file_path t.name))

  unfoldable pub types_errors : List TypeDefinition → List String → List ContractError
  unfolding type_errors
  types_errors [] seen = []
  types_errors (t ∷ ts) seen =
      let skipped = types_errors ts seen in
      let rest = types_errors ts (t.name ∷ seen) in
      if is_blank t.name then empty_type_name ∷ skipped else type_errors t seen ++ rest

  -- type_names: the names that are not blank
  unfoldable pub type_names : List TypeDefinition → List String
  type_names [] = []
  type_names (t ∷ ts) = let rest = type_names ts in if is_blank t.name then rest else t.name ∷ rest

  unfoldable pub basic_errors : DesignContract → List ContractError
  basic_errors d =
      error_if (is_blank d.project_name) empty_project_name
      ++ (error_if (is_blank d.language) empty_language
          ++ error_if (is_empty d.components) no_components)

  unfoldable pub budget_errors : DesignContract → List ContractError
  unfolding distinct planned_files
  budget_errors d =
      let total_files = length (distinct (planned_files d.components)) in
      error_if (ltb d.total_file_budget total_files) (over_budget total_files d.total_file_budget)

  unfoldable pub validate_contract : DesignContract → List ContractError
  unfolding basic_errors components_errors shared_files tally planned_files budget_errors
      types_errors exports_errors type_names
  validate_contract d =
      basic_errors d
      ++ (components_errors d.components [] (names_of d.components)
          ++ (shared_files d.components (tally (planned_files d.components) [])
              ++ (budget_errors d
                  ++ (types_errors d.canonical_types []
                      ++ exports_errors (type_names d.canonical_types) d.components))))
