-- ===== src/Designs/Checked.antt =====
-- engine/design_contract.py: `validate_contract` against the specification of a contract.
use autonomy_engine.Base.{
  ◌≤◌, String, ◌≡◌, ◌↔◌, refl, sym, ap, subst, ◌∙◌, List, [], ◌∷◌, ◌++◌, false, ltb, length, All,
  append-nil_iff, arith,
}
use autonomy_engine.Base.Counts.{
  IsNodup, Fresh, Fresh-iff, distinct, tally, length-distinct, occurrences-append,
}
use autonomy_engine.Designs.Clear.{
  Known, AreClear, TypesClear, error_if-split, error_if-nil, components_errors-nil, tally-nil,
  types_errors-nil, exports_errors-nil,
}
use autonomy_engine.Designs.Contract.{
  TypeDefinition, ComponentContract, DesignContract, over_budget, empty_project_name,
  empty_language, no_components, error_if, names_of, is_blank, is_empty, components_errors,
  planned_files, shared_files, types_errors, type_names, exports_errors, basic_errors,
  budget_errors, validate_contract,
}
use autonomy_engine.Designs.Valid.{files_of, IsComponent, IsType, IsValid, type_names_of}

module _ (strip : String → String) where
  planned-files_of :
      (cs : List ComponentContract) (seen known : List String)
      → AreClear strip cs seen known
      → planned_files strip cs ≡ files_of cs
  unfolding planned_files
  planned-files_of [] seen known h = refl
  planned-files_of (c ∷ cs) seen known (named, h, rest) =
      rw named (rw (planned-files_of cs (c.name ∷ seen) known rest))

  names-Fresh :
      (cs : List ComponentContract) (seen known : List String)
      → AreClear strip cs seen known
      → Fresh seen (names_of cs)
  names-Fresh [] seen known h = tt
  names-Fresh (c ∷ cs) seen known (named, (new, _, _, _, _), rest) =
      (new, names-Fresh cs (c.name ∷ seen) known rest)

  components-All :
      (types : List String) (cs : List ComponentContract) (seen known : List String)
      → AreClear strip cs seen known
      → All (λ c. Known types c.exports_types) cs
      → All (IsComponent strip known types) cs
  components-All types [] seen known h e = tt
  components-All types (c ∷ cs) seen known (named, (new, files, within, once, imports), rest)
        (x, e) =
      (
        record {
          named = named;
          has_files = files;
          within = within;
          imports_known = imports;
          exports_known = x;
        },
        components-All types cs (c.name ∷ seen) known rest e,
      )

  All-AreClear :
      (types : List String) (cs : List ComponentContract) (seen known : List String)
      → All (IsComponent strip known types) cs
      → Fresh seen (names_of cs)
      → IsNodup (files_of cs)
      → AreClear strip cs seen known
  All-AreClear types [] seen known h new once = tt
  All-AreClear types (c ∷ cs) seen known (i, h) (new, fresh) once =
      let here : IsNodup c.files =
        λ k. omega (arith, once k, occurrences-append k c.files (files_of cs)) in
      let later : IsNodup (files_of cs) =
        λ k. omega (arith, once k, occurrences-append k c.files (files_of cs)) in
      (
        i.named,
        (new, i.has_files, i.within, (Fresh-iff c.files).1 here, i.imports_known),
        All-AreClear types cs (c.name ∷ seen) known h fresh later,
      )

  exports-All :
      (types known : List String) (cs : List ComponentContract)
      → All (IsComponent strip known types) cs
      → All (λ c. Known types c.exports_types) cs
  exports-All types known [] h = tt
  exports-All types known (c ∷ cs) (i, h) = (i.exports_known, exports-All types known cs h)

  type_names-all :
      (ts : List TypeDefinition) (seen : List String)
      → TypesClear strip ts seen
      → type_names strip ts ≡ type_names_of ts
  unfolding type_names
  type_names-all [] seen h = refl
  type_names-all (t ∷ ts) seen (named, h, rest) =
      rw named (rw (type_names-all ts (t.name ∷ seen) rest))

  TypesClear-iff :
      (ts : List TypeDefinition) (seen : List String)
      → TypesClear strip ts seen ↔ (All (IsType strip) ts × Fresh seen (type_names_of ts))
  TypesClear-iff [] seen = (λ h. (tt, tt), λ h. tt)
  TypesClear-iff (t ∷ ts) seen =
      let rest = TypesClear-iff ts (t.name ∷ seen) in
      (
        λ (named, (new, fields, placed), h).
            let (all, fresh) = rest.0 h in
            ((record { named = named; has_fields = fields; placed = placed }, all), (new, fresh)),
        λ ((i, all), (new, fresh)). (i.named, (new, i.has_fields, i.placed), rest.1 (all, fresh)),
      )

  budget-nil :
      (d : DesignContract)
      → AreClear strip d.components [] (names_of d.components)
      → IsNodup (files_of d.components)
      → (budget_errors strip d ≡ []) ↔ (length (files_of d.components) ≤ d.total_file_budget)
  unfolding budget_errors
  budget-nil d clear once =
      let n = length (distinct (planned_files strip d.components)) in
      let e : n ≡ length (files_of d.components) =
        ap (λ fs. length (distinct fs))
          (planned-files_of d.components [] (names_of d.components) clear)
        ∙ length-distinct (files_of d.components) once in
      let nil = error_if-nil (ltb d.total_file_budget n) (over_budget n d.total_file_budget) in
      ground (arith, nil, e)

  basic_errors-nil :
      (d : DesignContract)
      → (basic_errors strip d ≡ []) ↔ (
          (is_blank strip d.project_name ≡ false)
          × (is_blank strip d.language ≡ false)
          × (is_empty d.components ≡ false))
  unfolding basic_errors
  basic_errors-nil d =
      let last = error_if (is_empty d.components) no_components in
      ground (
        arith,
        error_if-split (is_blank strip d.project_name) empty_project_name
            (error_if (is_blank strip d.language) empty_language ++ last),
        error_if-split (is_blank strip d.language) empty_language last,
        error_if-nil (is_empty d.components) no_components,
      )

  -- Every part of `validate_contract` gives no error.
  abbrev Parts : DesignContract → Type 0
  Parts d =
      (basic_errors strip d ≡ [])
      × (components_errors strip d.components [] (names_of d.components) ≡ [])
      × (shared_files d.components (tally (planned_files strip d.components) []) ≡ [])
      × (budget_errors strip d ≡ [])
      × (types_errors strip d.canonical_types [] ≡ [])
      × (exports_errors (type_names strip d.canonical_types) d.components ≡ [])

  validate-Parts : (d : DesignContract) → (validate_contract strip d ≡ []) ↔ Parts d
  unfolding validate_contract
  validate-Parts d = (
    λ h.
        let (a, h1) = (append-nil_iff _ _).0 h in
        let (b, h2) = (append-nil_iff _ _).0 h1 in
        let (c, h3) = (append-nil_iff _ _).0 h2 in
        let (e, h4) = (append-nil_iff _ _).0 h3 in
        let (f, g) = (append-nil_iff _ _).0 h4 in (a, b, c, e, f, g),
    λ (a, b, c, e, f, g). rw a (rw b (rw c (rw e (rw f g)))),
  )

  Parts-IsValid : (d : DesignContract) → Parts d → IsValid strip d
  Parts-IsValid d (basic, comps, shared, budget, types, exports) =
      let (project, language, some_component) = (basic_errors-nil d).0 basic in
      let names = names_of d.components in
      let clear = (components_errors-nil strip d.components [] names).0 comps in
      let same = planned-files_of d.components [] names clear in
      let once : IsNodup (files_of d.components) =
        subst IsNodup same ((tally-nil d.components (planned_files strip d.components)).0 shared) in
      let types_clear = (types_errors-nil strip d.canonical_types []).0 types in
      let (all_types, fresh) = (TypesClear-iff d.canonical_types []).0 types_clear in
      let known =
        subst (λ ts. exports_errors ts d.components ≡ [])
          (type_names-all d.canonical_types [] types_clear) exports in
      record {
        project_named = project;
        language_named = language;
        has_components = some_component;
        components =
            components-All (type_names_of d.canonical_types) d.components [] names clear
              ((exports_errors-nil (type_names_of d.canonical_types) d.components).0 known);
        names_once = (Fresh-iff names).0 (names-Fresh d.components [] names clear);
        files_once = once;
        in_budget = (budget-nil d clear once).0 budget;
        types = all_types;
        types_once = (Fresh-iff (type_names_of d.canonical_types)).0 fresh;
      }

  IsValid-Parts : (d : DesignContract) → IsValid strip d → Parts d
  IsValid-Parts d v =
      let names = names_of d.components in
      let ts = type_names_of d.canonical_types in
      let clear =
        All-AreClear ts d.components [] names v.components ((Fresh-iff names).1 v.names_once)
          v.files_once in
      let same = planned-files_of d.components [] names clear in
      let types_clear =
        (TypesClear-iff d.canonical_types []).1 (v.types, (Fresh-iff ts).1 v.types_once) in
      (
        (basic_errors-nil d).1 (v.project_named, v.language_named, v.has_components),
        (components_errors-nil strip d.components [] names).1 clear,
        (tally-nil d.components (planned_files strip d.components)).1
            (subst IsNodup (sym same) v.files_once),
        (budget-nil d clear v.files_once).1 v.in_budget,
        (types_errors-nil strip d.canonical_types []).1 types_clear,
        subst (λ known. exports_errors known d.components ≡ [])
            (sym (type_names-all d.canonical_types [] types_clear))
            ((exports_errors-nil ts d.components).1
              (exports-All ts names d.components v.components)),
      )

  -- `validate_contract` reports no error exactly if the contract is valid: project and
  -- language have a name, there is a component, every component has a name of its own, files
  -- within its limit, and imports and exports that are known, no file stands twice in the
  -- contract, the files are within the budget, and every canonical type has a name of its
  -- own, fields and a file.
  pub validate_iff : (d : DesignContract) → (validate_contract strip d ≡ []) ↔ IsValid strip d
  validate_iff d =
      (λ h. Parts-IsValid d ((validate-Parts d).0 h), λ v. (validate-Parts d).1 (IsValid-Parts d v))
