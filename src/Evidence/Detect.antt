-- ===== src/Evidence/Detect.antt =====
-- engine/evidence.py, `auto_detect_checks`: the checks of a project that configures none.
use autonomy_engine.Base.{
  String, Option, none, some, List, [], ◌∷◌, ◌++◌, Bool, true, false, contains, map, if◌then◌else◌,
}
use autonomy_engine.Base.Dict.{Dict, lookup, has_key}
use autonomy_engine.Base.Texts.{contains_text}
use autonomy_engine.Evidence.{Check}

-- package.json: the commands of its scripts and the names of its dependencies. One that cannot be
-- read or parsed has none.
pub record Package : Type 0 where
  pub scripts : Dict String
  pub dependencies : List String
  pub dev_dependencies : List String
  pub peer_dependencies : List String

-- What the function looks at in a project: whether files exist, and their contents.
pub record Project : Type 0 where
  -- package.json, if it exists
  pub package_json : Option Package
  pub has_file : String → Bool
  pub has_tests_dir : Bool
  -- the text of pyproject.toml; "" where there is none
  pub pyproject_text : String
  -- what `_build_python_import_check_command` gives
  pub import_command : String

abbrev pub check_of : String → String → Check
check_of name command = record { name = name; command = command; cwd = none }

abbrev pub check_if : Bool → Check → List Check
check_if true c = c ∷ []
check_if false c = []

unfoldable pub has_ts_dependency : Package → Bool
has_ts_dependency p =
    if contains "typescript" p.dependencies
    then true
    else if contains "typescript" p.dev_dependencies
    then true
    else contains "typescript" p.peer_dependencies

unfoldable pub typecheck_checks : Package → List Check
unfolding has_key has_ts_dependency
typecheck_checks p =
    if has_key "typecheck" p.scripts
    then check_of "typecheck" "npm run typecheck" ∷ []
    else check_if (has_ts_dependency p) (check_of "typecheck" "npx tsc --noEmit")

unfoldable pub test_checks : Option String → List Check
unfolding contains_text
test_checks none = []
test_checks (some command) =
    if contains_text command "react-scripts test"
    then check_of "test" "npx react-scripts test --watchAll=false" ∷ []
    else check_of "test" "npm test" ∷ []

unfoldable pub node_checks : Package → List Check
unfolding typecheck_checks test_checks has_key lookup
node_checks p =
    check_of "install" "npm install"
    ∷ (typecheck_checks p
        ++ (check_if (has_key "build" p.scripts) (check_of "build" "npm run build")
            ++ (check_if (has_key "lint" p.scripts) (check_of "lint" "npm run lint")
                ++ test_checks (lookup "test" p.scripts))))

-- reached for a Python project only, so one of three files exists
unfoldable pub install_command : Project → String
install_command p =
    if p.has_file "requirements.txt"
    then "python -m pip install -r requirements.txt"
    else "python -m pip install -e ."

unfoldable pub uses_pytest : Project → Bool
unfolding contains_text
uses_pytest p =
    if contains_text p.pyproject_text "[tool.pytest"
    then true
    else if p.has_file "pytest.ini"
    then true
    else p.has_tests_dir

abbrev pub compile_command : String
compile_command =
    "python -m py_compile $(find . -name '*.py' -not -path './.venv/*' -not -path './venv/*' -not -path './.*') && echo 'All files compile'"

unfoldable pub python_checks : Project → List Check
unfolding install_command uses_pytest
python_checks p =
    check_of "install" (install_command p)
    ∷ check_of "syntax-check" compile_command
    ∷ check_of "import-check" p.import_command
    ∷ (check_if (uses_pytest p) (check_of "test" "python -m pytest")
        ++ (check_of "lint" "python -m ruff check . --select E,F --ignore E501 --fix --unsafe-fixes"
            ∷ check_of "typecheck"
                "python -m mypy . --ignore-missing-imports --no-error-summary --explicit-package-bases"
            ∷ []))

unfoldable pub is_python : Project → Bool
is_python p =
    if p.has_file "pyproject.toml"
    then true
    else if p.has_file "requirements.txt"
    then true
    else p.has_file "setup.py"

unfoldable pub auto_detect_checks : Project → List Check
unfolding node_checks python_checks is_python
auto_detect_checks p = elim p.package_json [
  | some found ↦ node_checks found
  | none ↦ if is_python p then python_checks p else []
]

abbrev pub names_of : List Check → List String
names_of = map (λ c. c.name)
