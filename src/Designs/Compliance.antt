-- ===== src/Designs/Compliance.antt =====
-- engine/contract_checker.py: `check_contract_compliance`. The project is its files by relative path.
mod Report
pub use Report.*
use autonomy_engine.Base.{
  ℕ, String, Option, none, some, List, [], ◌∷◌, ◌++◌, Bool, true, false, contains, ltb, or_default,
  length, map, ◌==◌, if◌then◌else◌,
}
use autonomy_engine.Base.Dict.{Dict, lookup}
use autonomy_engine.Base.Counts.{distinct, difference, intersection, sorted}
use autonomy_engine.World.{Result, ok, raise, failure, other_error}
use autonomy_engine.Base.Texts.{contains_text}

abbrev pub skip_texts : List String
skip_texts = "node_modules/" ∷ "__pycache__/" ∷ ".git/" ∷ ".env" ∷ ".venv/" ∷ []

-- any(skip in rel for skip in …)
unfoldable pub contains_any : String → List String → Bool
unfolding contains_text
contains_any rel [] = false
contains_any rel (s ∷ ss) = if contains_text rel s then true else contains_any rel ss

unfoldable pub actual_files : Dict String → List String
unfolding contains_any
actual_files [] = []
actual_files ((rel, content) ∷ fs) =
    let rest = actual_files fs in if contains_any rel skip_texts then rest else rel ∷ rest

abbrev pub planned : PlannedComponent → List String
planned c = or_default [] c.files

unfoldable pub all_planned : List PlannedComponent → List String
all_planned [] = []
all_planned (c ∷ cs) = planned c ++ all_planned cs

-- the first component that lists the file
unfoldable pub owner_of : String → List PlannedComponent → String
owner_of f [] = "unknown"
owner_of f (c ∷ cs) = if contains f (planned c) then c.name else owner_of f cs

abbrev pub default_extras : List String
default_extras =
    "package.json" ∷ "package-lock.json" ∷ "tsconfig.json" ∷ "tsconfig.node.json" ∷ "vite.config.ts"
    ∷ "vite.config.js" ∷ ".eslintrc.js" ∷ ".eslintrc.json" ∷ "postcss.config.js"
    ∷ "tailwind.config.js" ∷ "tailwind.config.ts" ∷ "requirements.txt" ∷ "pyproject.toml"
    ∷ "setup.py" ∷ "setup.cfg" ∷ "README.md" ∷ ".gitignore" ∷ "index.html" ∷ "Makefile"
    ∷ "DESIGN_CONTRACT.json" ∷ []

abbrev pub entry_files : List String
entry_files = "run.py" ∷ "app.py" ∷ "manage.py" ∷ "wsgi.py" ∷ "asgi.py" ∷ []

-- `name` is `Path(f).name`. A file at the root has its path as its name.
unfoldable pub is_structural : (String → String) → String → Bool
unfolding contains_text
is_structural name f =
    if name f == "__init__.py"
    then true
    else if contains (name f) entry_files
    then (if contains_text f "/" then false else true)
    else false

unfoldable pub structural_files : (String → String) → List String → List String
unfolding is_structural
structural_files name [] = []
structural_files name (f ∷ fs) =
    let rest = structural_files name fs in if is_structural name f then f ∷ rest else rest

unfoldable pub expected_extras : (String → String) → List String → List String
unfolding structural_files
expected_extras name actual = default_extras ++ structural_files name actual

unfoldable pub missing_issues : List PlannedComponent → List String → List ComplianceIssue
unfolding owner_of
missing_issues cs = map (λ f. missing_file (owner_of f cs) f)

unfoldable pub extra_issues : List String → List ComplianceIssue
extra_issues = map extra_file

-- the files of a component that exist, as often as they are listed
unfoldable pub component_issues : List String → PlannedComponent → List ComplianceIssue
component_issues actual c =
    let n = length (intersection (planned c) actual) in
    let max_files = or_default 10 c.max_files in
    if ltb max_files n then component_budget c.name n max_files ∷ [] else []

unfoldable pub components_issues : List String → List PlannedComponent → List ComplianceIssue
unfolding component_issues
components_issues actual [] = []
components_issues actual (c ∷ cs) = component_issues actual c ++ components_issues actual cs

unfoldable pub budget_issues : List String → List String → ℕ → List ComplianceIssue
budget_issues actual extras budget =
    let n = length (difference actual extras) in
    if ltb budget n then total_budget n budget ∷ [] else []

unfoldable pub field_issues : String → String → String → List String → List ComplianceIssue
unfolding contains_text
field_issues content name path [] = []
field_issues content name path (f ∷ fs) =
    let rest = field_issues content name path fs in
    if contains_text content f then rest else type_mismatch f name path ∷ rest

unfoldable pub content_issues : String → String → String → List String → List ComplianceIssue
unfolding field_issues contains_text
content_issues content name path fields =
    if contains_text content name
    then field_issues content name path fields
    else missing_type name path ∷ []

-- What is at a path: nothing, a directory, or a file with its text.
pub data AtPath : Type 0 where
  absent is_directory : AtPath
  text_file : String → AtPath

-- `read path` is what is at `project_dir / path`, which may leave the project. Reading a directory
-- raises.
unfoldable pub type_issues : (String → AtPath) → PlannedType → Result (List ComplianceIssue)
unfolding content_issues
type_issues read t =
    let name = or_default "" t.name in
    let path = or_default "" t.file_path in
    elim (read path) [
      | absent ↦ ok (missing_type_file name path ∷ [])
      | is_directory ↦ raise (failure other_error "Is a directory")
      | text_file content ↦ ok (content_issues content name path (or_default [] t.fields))
    ]

abbrev pub append_issues :
    Result (List ComplianceIssue) → Result (List ComplianceIssue) → Result (List ComplianceIssue)
append_issues (ok a) (ok b) = ok (a ++ b)
append_issues (ok a) (raise e) = raise e
append_issues (raise e) b = raise e

unfoldable pub types_issues : (String → AtPath) → List PlannedType → Result (List ComplianceIssue)
unfolding type_issues
types_issues read [] = ok []
types_issues read (t ∷ ts) = append_issues (type_issues read t) (types_issues read ts)

abbrev pub has_error : List ComplianceIssue → Bool
has_error [] = false
has_error (i ∷ is') = elim (severity i) [ error ↦ true | warning ↦ has_error is' ]

-- the issues of the files, before those of the types
unfoldable pub file_issues : (String → String) → Blueprint → List String → List ComplianceIssue
unfolding missing_issues extra_issues components_issues budget_issues expected_extras distinct
    all_planned sorted
file_issues name b actual =
    let components = or_default [] b.components in
    let expected = distinct (all_planned components) in
    let extras = expected_extras name actual in
    missing_issues components (sorted (difference expected actual))
    ++ (extra_issues (sorted (difference (difference actual expected) extras))
        ++ (components_issues actual components
            ++ budget_issues actual extras (or_default 999 b.total_file_budget)))

unfoldable pub report_of :
    (String → String) → Blueprint → List String → List ComplianceIssue → ComplianceReport
unfolding expected_extras distinct all_planned
report_of name b actual issues =
    let expected = distinct (all_planned (or_default [] b.components)) in
    record {
      passed = if has_error issues then false else true;
      issues = issues;
      files_expected = length expected;
      files_found = length (intersection actual expected);
      files_missing = length (difference expected actual);
      files_extra = length (difference (difference actual expected) (expected_extras name actual));
    }

abbrev pub not_loaded : ComplianceReport
not_loaded = record {
  passed = false;
  issues = contract_load ∷ [];
  files_expected = 0;
  files_found = 0;
  files_missing = 0;
  files_extra = 0;
}

unfoldable pub check_files :
    (String → String) → (String → AtPath) → Blueprint → Dict String → Result ComplianceReport
unfolding actual_files file_issues types_issues report_of
check_files name read b project =
    let actual = actual_files project in
    let files = ok (file_issues name b actual) in
    let types = types_issues read (or_default [] b.canonical_types) in
    elim (append_issues files types) [
      | ok issues ↦ ok (report_of name b actual issues)
      | raise e ↦ raise e
    ]

-- `none` is a contract that cannot be read or parsed.
unfoldable pub check_contract_compliance :
    (String → String) → (String → AtPath) → Option Blueprint → Dict String → Result ComplianceReport
unfolding check_files
check_contract_compliance name read none project = ok not_loaded
check_contract_compliance name read (some b) project = check_files name read b project
