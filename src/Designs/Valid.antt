-- ===== src/Designs/Valid.antt =====
-- engine/design_contract.py: what a contract without errors is, as a specification, and
-- `validate_contract` against it.
use autonomy_engine.Base.{◌≤◌, String, ◌≡◌, List, [], ◌∷◌, ◌++◌, false, length, map, All}
use autonomy_engine.Base.Counts.{IsNodup}
use autonomy_engine.Designs.Clear.{Known}
use autonomy_engine.Designs.Contract.{
  TypeDefinition, ComponentContract, DesignContract, names_of, is_blank, is_empty,
}

-- the files of all components, one after the other
abbrev pub files_of : List ComponentContract → List String
files_of [] = []
files_of (c ∷ cs) = c.files ++ files_of cs

abbrev pub type_names_of : List TypeDefinition → List String
type_names_of = map (λ t. t.name)

module _ (strip : String → String) where
  pub record IsComponent (names types : List String) (c : ComponentContract) : Type 0 where
    pub named : is_blank strip c.name ≡ false
    pub has_files : is_empty c.files ≡ false
    pub within : length c.files ≤ c.max_files
    pub imports_known : Known names c.imports_from
    pub exports_known : Known types c.exports_types

  pub record IsType (t : TypeDefinition) : Type 0 where
    pub named : is_blank strip t.name ≡ false
    pub has_fields : is_empty t.fields ≡ false
    pub placed : is_blank strip t.file_path ≡ false

  -- What a contract promises to the implementation.
  pub record IsValid (d : DesignContract) : Type 0 where
    pub project_named : is_blank strip d.project_name ≡ false
    pub language_named : is_blank strip d.language ≡ false
    pub has_components : is_empty d.components ≡ false
    pub components :
        All (IsComponent (names_of d.components) (type_names_of d.canonical_types)) d.components
    pub names_once : IsNodup (names_of d.components)
    pub files_once : IsNodup (files_of d.components)
    pub in_budget : length (files_of d.components) ≤ d.total_file_budget
    pub types : All IsType d.canonical_types
    pub types_once : IsNodup (type_names_of d.canonical_types)
