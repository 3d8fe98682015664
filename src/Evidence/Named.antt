-- ===== src/Evidence/Named.antt =====
-- engine/evidence.py: the names of the checks that `auto_detect_checks` finds.
use autonomy_engine.Base.{
  ◌≤◌, String, ◌≡◌, refl, Option, none, some, List, [], ◌∷◌, ◌++◌, Bool, true, false, arith,
  Bool-cases, Option-cases, inl, inr,
}
use autonomy_engine.Base.Dict.{lookup, has_key}
use autonomy_engine.Base.Counts.{occurrences, IsNodup, Fresh-iff}
use autonomy_engine.Base.Texts.{contains_text}
use autonomy_engine.Evidence.{Check}
use autonomy_engine.Evidence.Detect.{
  Package, Project, check_of, check_if, has_ts_dependency, typecheck_checks, test_checks,
  node_checks, uses_pytest, python_checks, is_python, auto_detect_checks, names_of,
}

-- At most one check, and if there is one it has that name.
abbrev IsOne : String → List Check → Type 0
IsOne name [] = Unit
IsOne name (c ∷ []) = c.name ≡ name
IsOne name (c ∷ d ∷ cs) = ⊥

check_if-IsOne : (b : Bool) (c : Check) → IsOne c.name (check_if b c)
check_if-IsOne true c = refl
check_if-IsOne false c = tt

typecheck-IsOne : (p : Package) → IsOne "typecheck" (typecheck_checks p)
unfolding typecheck_checks
typecheck-IsOne p = elim (Bool-cases (has_key "typecheck" p.scripts)) [
  | inl there ↦ rw there refl
  | inr absent ↦
      rw absent (check_if-IsOne (has_ts_dependency p) (check_of "typecheck" "npx tsc --noEmit"))
]

test-IsOne : (o : Option String) → IsOne "test" (test_checks o)
unfolding test_checks
test-IsOne none = tt
test-IsOne (some command) = elim (Bool-cases (contains_text command "react-scripts test")) [
  | inl react ↦ rw react refl
  | inr other ↦ rw other refl
]

-- One check more, under a name, in front of checks whose names are among others.
occurrences-one :
    (k name : String) (cs ds : List Check) (others : List String)
    → IsOne name cs
    → occurrences k (names_of ds) ≤ occurrences k others
    → occurrences k (names_of (cs ++ ds)) ≤ occurrences k (name ∷ others)
occurrences-one k name [] ds others one h = omega (arith, h)
occurrences-one k name (c ∷ []) ds others one h = rw one (omega (arith, h))
occurrences-one k name (c ∷ d ∷ cs) ds others one h = elim one [ ]

node_names-IsNodup : IsNodup ("install" ∷ "typecheck" ∷ "build" ∷ "lint" ∷ "test" ∷ [])
node_names-IsNodup =
    (Fresh-iff ("install" ∷ "typecheck" ∷ "build" ∷ "lint" ∷ "test" ∷ [])).0
      (refl, (refl, (refl, (refl, (refl, tt)))))

last-one :
    (k name : String) (cs : List Check)
    → IsOne name cs
    → occurrences k (names_of cs) ≤ occurrences k (name ∷ [])
last-one k name [] one = omega arith
last-one k name (c ∷ []) one = rw one (omega arith)
last-one k name (c ∷ d ∷ cs) one = elim one [ ]

node-IsNodup : (p : Package) → IsNodup (names_of (node_checks p))
unfolding node_checks
node-IsNodup p k =
    let o = lookup "test" p.scripts in
    let lint = check_of "lint" "npm run lint" in
    let build = check_of "build" "npm run build" in
    let d = last-one k "test" (test_checks o) (test-IsOne o) in
    let c =
      occurrences-one k "lint" (check_if (has_key "lint" p.scripts) lint) (test_checks o)
        ("test" ∷ []) (check_if-IsOne (has_key "lint" p.scripts) lint) d in
    let b =
      occurrences-one k "build" (check_if (has_key "build" p.scripts) build)
        (check_if (has_key "lint" p.scripts) lint ++ test_checks o) ("lint" ∷ "test" ∷ [])
        (check_if-IsOne (has_key "build" p.scripts) build) c in
    let a =
      occurrences-one k "typecheck" (typecheck_checks p)
        (check_if (has_key "build" p.scripts) build
          ++ (check_if (has_key "lint" p.scripts) lint ++ test_checks o))
        ("build" ∷ "lint" ∷ "test" ∷ []) (typecheck-IsOne p) b in
    omega (arith, a, node_names-IsNodup k)

python_names-IsNodup :
    IsNodup ("install" ∷ "syntax-check" ∷ "import-check" ∷ "test" ∷ "lint" ∷ "typecheck" ∷ [])
python_names-IsNodup =
    (Fresh-iff ("install" ∷ "syntax-check" ∷ "import-check" ∷ "test" ∷ "lint" ∷ "typecheck" ∷ [])).0
      (refl, (refl, (refl, (refl, (refl, (refl, tt))))))

python-IsNodup : (p : Project) → IsNodup (names_of (python_checks p))
unfolding python_checks
python-IsNodup p k = elim (Bool-cases (uses_pytest p)) [
  | inl pytest ↦ rw pytest (python_names-IsNodup k)
  | inr none_found ↦ rw none_found (omega (arith, python_names-IsNodup k))
]

-- The checks that `auto_detect_checks` finds have distinct names, for any project, so none of
-- their evidence files replaces that of another.
pub auto_detect-IsNodup : (p : Project) → IsNodup (names_of (auto_detect_checks p))
unfolding auto_detect_checks
auto_detect-IsNodup p k = elim (Option-cases p.package_json) [
  | inr (found, there) ↦ rw there (node-IsNodup found k)
  | inl absent ↦ rw absent (elim (Bool-cases (is_python p)) [
    | inl python ↦ rw python (python-IsNodup p k)
    | inr other ↦ rw other (omega arith)
  ])
]
