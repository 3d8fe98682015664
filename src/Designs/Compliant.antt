-- ===== src/Designs/Compliant.antt =====
-- engine/contract_checker.py: when a report says that the project has passed.
use autonomy_engine.Base.{
  ℕ, ◌≤◌, String, ◌≡◌, ◌↔◌, refl, ◌∙◌, sym, List, [], ◌∷◌, ◌++◌, Bool, true, false, ◌==◌,
  if◌then◌else◌, contains, or_default, length, All, arith,
}
use autonomy_engine.Base.Dict.{Dict, has_key}
use autonomy_engine.Base.Counts.{difference, intersection}
use autonomy_engine.World.{Result, ok, raise}
use autonomy_engine.Designs.Compliance.{
  PlannedComponent, PlannedType, AtPath, absent, is_directory, text_file, Blueprint,
  ComplianceIssue, actual_files, planned, all_planned, missing_issues, extra_issues,
  component_issues, components_issues, budget_issues, field_issues, content_issues, type_issues,
  missing_type_file, append_issues, types_issues, has_error,
}
use autonomy_engine.Base.Texts.{contains_text}

abbrev pub IsWithin : List String → PlannedComponent → Type 0
IsWithin actual c = length (intersection (planned c) actual) ≤ or_default 10 c.max_files

-- The file of a type is there, and its name stands in it.
abbrev pub HasType : (String → AtPath) → PlannedType → Type 0
HasType read t =
    (content : String) × (read (or_default "" t.file_path) ≡ text_file content)
    × (contains_text content (or_default "" t.name) ≡ true)

-- A file that the check sees: a file of the project whose path has none of these texts.
abbrev pub IsSeen : Dict String → String → Type 0
IsSeen project f =
    (has_key f project ≡ true)
    × (contains_text f "node_modules/" ≡ false)
    × (contains_text f "__pycache__/" ≡ false)
    × (contains_text f ".git/" ≡ false)
    × (contains_text f ".env" ≡ false)
    × (contains_text f ".venv/" ≡ false)

-- The files that any project may have besides: of configuration, of a package, and an entry point
-- at the root.
abbrev pub usual_files : List String
usual_files =
    "package.json" ∷ "package-lock.json" ∷ "tsconfig.json" ∷ "tsconfig.node.json" ∷ "vite.config.ts"
    ∷ "vite.config.js" ∷ ".eslintrc.js" ∷ ".eslintrc.json" ∷ "postcss.config.js"
    ∷ "tailwind.config.js" ∷ "tailwind.config.ts" ∷ "requirements.txt" ∷ "pyproject.toml"
    ∷ "setup.py" ∷ "setup.cfg" ∷ "README.md" ∷ ".gitignore" ∷ "index.html" ∷ "Makefile"
    ∷ "DESIGN_CONTRACT.json" ∷ []

abbrev pub is_usual : (String → String) → String → Bool
is_usual name f =
    if contains f usual_files
    then true
    else if name f == "__init__.py"
    then true
    else if contains_text f "/"
    then false
    else contains (name f) ("run.py" ∷ "app.py" ∷ "manage.py" ∷ "wsgi.py" ∷ "asgi.py" ∷ [])

-- the others
abbrev pub unusual : (String → String) → List String → List String
unusual name [] = []
unusual name (f ∷ fs) = let rest = unusual name fs in if is_usual name f then rest else f ∷ rest

-- What a project owes to its contract.
pub record IsCompliant (name : String → String) (read : String → AtPath) (b : Blueprint)
    (project : Dict String) : Type 0 where
  pub produced :
      (f : String) → contains f (all_planned (or_default [] b.components)) ≡ true → IsSeen project f
  pub within : All (IsWithin (actual_files project)) (or_default [] b.components)
  pub in_budget : length (unusual name (actual_files project)) ≤ or_default 999 b.total_file_budget
  pub typed : All (HasType read) (or_default [] b.canonical_types)

pub has_error-append :
    (a b : List ComplianceIssue)
    → (has_error (a ++ b) ≡ false) ↔ ((has_error a ≡ false) × (has_error b ≡ false))
has_error-append [] b = (λ h. (refl, h), λ h. h.1)
has_error-append (i ∷ a) b = ground (arith, has_error-append a b)

pub append-ok :
    (x y : Result (List ComplianceIssue)) (is' : List ComplianceIssue)
    → append_issues x y ≡ ok is'
    → (a : List ComplianceIssue) × (b : List ComplianceIssue) × (x ≡ ok a)
      × (y ≡ ok b)
      × (is' ≡ a ++ b)
append-ok (ok a) (ok b) is' h = (a, b, refl, refl, cc h)
append-ok (ok a) (raise e) is' h = cc h
append-ok (raise e) y is' h = cc h

pub missing-clear :
    (cs : List PlannedComponent) (fs : List String)
    → (has_error (missing_issues cs fs) ≡ false) ↔ (fs ≡ [])
unfolding missing_issues
missing-clear cs [] = (λ h. refl, λ h. refl)
missing-clear cs (f ∷ fs) = (λ h. cc h, λ h. cc h)

pub extra-clear : (fs : List String) → has_error (extra_issues fs) ≡ false
unfolding extra_issues
extra-clear [] = refl
extra-clear (f ∷ fs) = extra-clear fs

pub components-clear :
    (actual : List String) (cs : List PlannedComponent)
    → (has_error (components_issues actual cs) ≡ false) ↔ All (IsWithin actual) cs
unfolding components_issues component_issues
components-clear actual [] = (λ h. tt, λ h. refl)
components-clear actual (c ∷ cs) = ground (
  arith,
  has_error-append (component_issues actual c) (components_issues actual cs),
  components-clear actual cs,
)

pub budget-clear :
    (actual extras : List String) (budget : ℕ)
    → (has_error (budget_issues actual extras budget) ≡ false)
      ↔ (length (difference actual extras) ≤ budget)
unfolding budget_issues
budget-clear actual extras budget = ground arith

field-clear :
    (content name path : String) (fs : List String)
    → has_error (field_issues content name path fs) ≡ false
unfolding field_issues
field-clear content name path [] = refl
field-clear content name path (f ∷ fs) = ground (arith, field-clear content name path fs)

content-clear :
    (content name path : String) (fs : List String)
    → (has_error (content_issues content name path fs) ≡ false)
      ↔ (contains_text content name ≡ true)
unfolding content_issues
content-clear content name path fs = ground (arith, field-clear content name path fs)

type-clear :
    (read : String → AtPath) (t : PlannedType) (is' : List ComplianceIssue)
    → type_issues read t ≡ ok is'
    → (has_error is' ≡ false) ↔ HasType read t
unfolding type_issues
type-clear read t is' h = go (read path) refl
  where
    path : String
    path = or_default "" t.file_path

    go : (a : AtPath) → read path ≡ a → (has_error is' ≡ false) ↔ HasType read t
    go is_directory e = let h' = rw (e, type_issues) at h in cc h'
    go absent e =
        let h' = rw (e, type_issues) at h in
        let same : missing_type_file (or_default "" t.name) path ∷ [] ≡ is' = cc h' in
        rw (← same) (λ x. cc x, λ (content, found, named). cc (sym e ∙ found))
    go (text_file content) e =
        let h' = rw (e, type_issues) at h in
        let same : content_issues content (or_default "" t.name) path (or_default [] t.fields)
            ≡ is' =
          cc h' in
        let clear = content-clear content (or_default "" t.name) path (or_default [] t.fields) in
        rw (← same) (
          λ x. (content, e, clear.0 x),
          λ (other, found, named).
              let one : content ≡ other = cc (sym e ∙ found) in clear.1 (rw one named),
        )

pub types-clear :
    (read : String → AtPath) (ts : List PlannedType) (is' : List ComplianceIssue)
    → types_issues read ts ≡ ok is'
    → (has_error is' ≡ false) ↔ All (HasType read) ts
unfolding types_issues
types-clear read [] is' h = let same : [] ≡ is' = cc h in rw (← same) (λ x. tt, λ x. refl)
types-clear read (t ∷ ts) is' h =
    let (a, b, ha, hb, same) = append-ok (type_issues read t) (types_issues read ts) is' h in
    let first = type-clear read t a ha in
    let later = types-clear read ts b hb in
    let both = has_error-append a b in
    rw same (
      λ x. let (p, q) = both.0 x in (first.0 p, later.0 q),
      λ (p, q). both.1 (first.1 p, later.1 q),
    )
