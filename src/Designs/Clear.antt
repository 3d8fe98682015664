-- ===== src/Designs/Clear.antt =====
-- engine/design_contract.py: when each loop of `validate_contract` adds no error.
use autonomy_engine.Base.{
  ℕ, ◌≤◌, String, ◌≡◌, ◌↔◌, refl, List, [], ◌∷◌, ◌++◌, Bool, true, false, contains, ltb, or_default,
  length, if◌then◌else◌, All, append-nil_iff, arith, eq_iff, eq_refl,
}
use autonomy_engine.Base.Dict.{Dict, lookup, NodupKeys, has_key}
use autonomy_engine.Base.Counts.{IsNodup, Fresh, tally, lookup-tally, tally-NodupKeys}
use autonomy_engine.Designs.Contract.{
  TypeDefinition, ComponentContract, ContractError, error_if, shared_file, duplicate_type,
  no_fields, no_file_path, listed_twice, unknown_import, unknown_export, duplicate_component,
  no_files, too_many_files, is_blank, is_empty, repeated_files, unknown_imports, component_errors,
  components_errors, owners_of, shared_files, type_errors, types_errors, unknown_exports,
  exports_errors,
}

pub error_if-nil : (b : Bool) (e : ContractError) → (error_if b e ≡ []) ↔ (b ≡ false)
error_if-nil true e = (λ h. cc h, λ h. cc h)
error_if-nil false e = (λ h. refl, λ h. refl)

-- every text of the list is a known one
abbrev pub Known : List String → List String → Type 0
Known known = All λ x. contains x known ≡ true

pub error_if-split :
    (b : Bool) (e : ContractError) (rest : List ContractError)
    → (error_if b e ++ rest ≡ []) ↔ ((b ≡ false) × (rest ≡ []))
error_if-split true e rest = (λ h. cc h, λ h. cc h.0)
error_if-split false e rest = (λ h. (refl, h), λ h. h.1)

repeated_files-nil :
    (comp : String) (seen fs : List String) → (repeated_files comp seen fs ≡ []) ↔ Fresh seen fs
unfolding repeated_files
repeated_files-nil comp seen [] = (λ h. tt, λ h. refl)
repeated_files-nil comp seen (f ∷ fs) = ground (
  arith,
  error_if-split (contains f seen) (listed_twice comp f) (repeated_files comp (f ∷ seen) fs),
  repeated_files-nil comp (f ∷ seen) fs,
)

unknown_imports-nil :
    (comp : String) (known ds : List String) → (unknown_imports comp known ds ≡ []) ↔ Known known ds
unfolding unknown_imports
unknown_imports-nil comp known [] = (λ h. tt, λ h. refl)
unknown_imports-nil comp known (d ∷ ds) = ground (
  arith,
  error_if-split (if contains d known then false else true) (unknown_import comp d)
      (unknown_imports comp known ds),
  unknown_imports-nil comp known ds,
)

unknown_exports-nil :
    (comp : String) (known ts : List String) → (unknown_exports comp known ts ≡ []) ↔ Known known ts
unfolding unknown_exports
unknown_exports-nil comp known [] = (λ h. tt, λ h. refl)
unknown_exports-nil comp known (t ∷ ts) = ground (
  arith,
  error_if-split (if contains t known then false else true) (unknown_export comp t)
      (unknown_exports comp known ts),
  unknown_exports-nil comp known ts,
)

-- What one component adds is nothing.
abbrev pub IsClear : ComponentContract → List String → List String → Type 0
IsClear c seen known =
    (contains c.name seen ≡ false)
    × (is_empty c.files ≡ false)
    × (length c.files ≤ c.max_files)
    × Fresh [] c.files
    × Known known c.imports_from

component_errors-nil :
    (c : ComponentContract) (seen known : List String)
    → (component_errors c seen known ≡ []) ↔ IsClear c seen known
unfolding component_errors
component_errors-nil c seen known =
    let imports = unknown_imports c.name known c.imports_from in
    let files = repeated_files c.name [] c.files in
    let many =
      error_if (ltb c.max_files (length c.files))
        (too_many_files c.name (length c.files) c.max_files) in
    ground (
      arith,
      error_if-split (contains c.name seen) (duplicate_component c.name)
          (error_if (is_empty c.files) (no_files c.name) ++ (many ++ (files ++ imports))),
      error_if-split (is_empty c.files) (no_files c.name) (many ++ (files ++ imports)),
      error_if-split (ltb c.max_files (length c.files))
          (too_many_files c.name (length c.files) c.max_files) (files ++ imports),
      append-nil_iff files imports,
      repeated_files-nil c.name [] c.files,
      unknown_imports-nil c.name known c.imports_from,
    )

shared_files-nil :
    (cs : List ComponentContract) (counts : Dict ℕ)
    → (shared_files cs counts ≡ []) ↔ All (λ p. p.1 ≤ 1) counts
unfolding shared_files
shared_files-nil cs [] = (λ h. tt, λ h. refl)
shared_files-nil cs ((f, n) ∷ counts) = ground (
  arith,
  error_if-split (ltb 1 n) (shared_file f n (owners_of f cs)) (shared_files cs counts),
  shared_files-nil cs counts,
)

pub exports_errors-nil :
    (known : List String) (cs : List ComponentContract)
    → (exports_errors known cs ≡ []) ↔ All (λ c. Known known c.exports_types) cs
unfolding exports_errors
exports_errors-nil known [] = (λ h. tt, λ h. refl)
exports_errors-nil known (c ∷ cs) = ground (
  arith,
  append-nil_iff (unknown_exports c.name known c.exports_types) (exports_errors known cs),
  unknown_exports-nil c.name known c.exports_types,
  exports_errors-nil known cs,
)

counts_at_most :
    (counts : Dict ℕ)
    → NodupKeys counts
    → All (λ p. p.1 ≤ 1) counts ↔ ((k : String) → or_default 0 (lookup k counts) ≤ 1)
unfolding lookup has_key
counts_at_most [] h = (λ a k. omega arith, λ a. tt)
counts_at_most ((f, n) ∷ counts) (fresh, h) = (
  λ (a, b) k. ground (arith, (counts_at_most counts h).0 b k),
  λ a. (
    ground (arith, a f, eq_refl f),
    (counts_at_most counts h).1 (λ k. ground (arith, a k, fresh, eq_iff f k)),
  ),
)

-- The counting dict of a list without repetitions holds no count above one.
pub tally-nil :
    (cs : List ComponentContract) (fs : List String)
    → (shared_files cs (tally fs []) ≡ []) ↔ IsNodup fs
unfolding lookup
tally-nil cs fs =
    let clear = shared_files-nil cs (tally fs []) in
    let counts = counts_at_most (tally fs []) (tally-NodupKeys fs [] tt) in
    (
      λ h k. omega (arith, lookup-tally k fs [], counts.0 (clear.0 h) k, start k),
      λ one. clear.1 (counts.1 (λ k. omega (arith, lookup-tally k fs [], one k, start k))),
    )
  where
    start : (k : String) → ◌≡◌ {A = ℕ} (or_default 0 (lookup k [])) 0
    start k = refl

module _ (strip : String → String) where
  -- Neither the components nor their names give an error, after the names `seen`.
  abbrev pub AreClear : List ComponentContract → List String → List String → Type 0
  AreClear [] seen known = Unit
  AreClear (c ∷ cs) seen known =
      (is_blank strip c.name ≡ false) × IsClear c seen known × AreClear cs (c.name ∷ seen) known

  pub components_errors-nil :
      (cs : List ComponentContract) (seen known : List String)
      → (components_errors strip cs seen known ≡ []) ↔ AreClear cs seen known
  unfolding components_errors
  components_errors-nil [] seen known = (λ h. tt, λ h. refl)
  components_errors-nil (c ∷ cs) seen known = ground (
    arith,
    append-nil_iff (component_errors c seen known)
        (components_errors strip cs (c.name ∷ seen) known),
    component_errors-nil c seen known,
    components_errors-nil cs (c.name ∷ seen) known,
  )

  -- The same for canonical types.
  abbrev pub TypesClear : List TypeDefinition → List String → Type 0
  TypesClear [] seen = Unit
  TypesClear (t ∷ ts) seen =
      (is_blank strip t.name ≡ false)
      × ((contains t.name seen ≡ false)
          × (is_empty t.fields ≡ false)
          × (is_blank strip t.file_path ≡ false))
      × TypesClear ts (t.name ∷ seen)

  type_errors-nil :
      (t : TypeDefinition) (seen : List String)
      → (type_errors strip t seen ≡ []) ↔ (
          (contains t.name seen ≡ false)
          × (is_empty t.fields ≡ false)
          × (is_blank strip t.file_path ≡ false))
  unfolding type_errors
  type_errors-nil t seen =
      let placed = error_if (is_blank strip t.file_path) (no_file_path t.name) in
      ground (
        arith,
        error_if-split (contains t.name seen) (duplicate_type t.name)
            (error_if (is_empty t.fields) (no_fields t.name) ++ placed),
        error_if-split (is_empty t.fields) (no_fields t.name) placed,
        error_if-nil (is_blank strip t.file_path) (no_file_path t.name),
      )

  pub types_errors-nil :
      (ts : List TypeDefinition) (seen : List String)
      → (types_errors strip ts seen ≡ []) ↔ TypesClear ts seen
  unfolding types_errors
  types_errors-nil [] seen = (λ h. tt, λ h. refl)
  types_errors-nil (t ∷ ts) seen = ground (
    arith,
    append-nil_iff (type_errors strip t seen) (types_errors strip ts (t.name ∷ seen)),
    type_errors-nil t seen,
    types_errors-nil ts (t.name ∷ seen),
  )
