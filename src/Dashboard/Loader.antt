-- ===== src/Dashboard/Loader.antt =====
-- dashboard/data_loader.py: what the dashboard reads of a project. Directories are given by the
-- files in them; times of modification, benchmarks and what is read as it is are left out.
pub mod Rejected
use autonomy_engine.Base.{
  ℕ, ◌+◌, String, ◌<>◌, ◌==◌, Option, none, some, List, [], ◌∷◌, ◌++◌, Bool, true, false, length,
  or_default, map, truthy, contains, if◌then◌else◌,
}
use autonomy_engine.Base.Dict.{Dict, lookup, insert, remove, has_key}
use autonomy_engine.Base.Counts.{tally}
use autonomy_engine.World.Json.{Json, null, bool, num, literal, str, arr, obj, end, get_field}
use autonomy_engine.World.{
  Platform, World, Line, dict, invalid_json, other, RunStatus, GateRequest, CacheFile, CacheEntry,
  malformed, entry, EvidenceRecord, value_error, attribute_error, type_error, other_error, failure,
  Result, ok, raise,
}
use autonomy_engine.Context.{exists, is_dir}
use autonomy_engine.Tracer.{genesis_hash, trace_file}
use autonomy_engine.Evidence.{sort_files, records_of}

-- `get_state_dir`
abbrev pub state_of : String → String
state_of project = project <> "/state"

-- `find_project_dir`, with the current directory and the directory of the engine
unfoldable pub find_project_dir : (cwd engine_root : String) → World → Option String
unfolding is_dir lookup
find_project_dir cwd engine_root w =
    let env_dir = or_default "" (lookup "AUTONOMY_ENGINE_PROJECT_DIR" w.env) in
    let here =
      if is_dir (state_of cwd) w
      then some cwd
      else if is_dir (state_of engine_root) w
      then some engine_root
      else none in
    if truthy env_dir then if is_dir (state_of env_dir) w then some env_dir else here else here

-- The path of a file of a run.
abbrev pub run_file : String → String → String → String
run_file project run_id name = state_of project <> "/runs/" <> run_id <> name

unfoldable pub load_run_status : String → String → World → Option RunStatus
unfolding lookup
load_run_status project run_id w = lookup (run_file project run_id "/status.json") w.statuses

unfoldable pub load_pending_gate : String → String → World → Option GateRequest
unfolding lookup
load_pending_gate project run_id w =
    lookup (run_file project run_id "/pending_gate.json") w.pending_gates

-- `_load_trace_entries`: it raises on a line that is no JSON
unfoldable pub load_entries : List Line → Result (List Line)
load_entries [] = ok []
load_entries (invalid_json m ∷ lines) = raise (failure value_error m)
load_entries (dict d ∷ lines) = elim (load_entries lines) [
  | ok entries ↦ ok (dict d ∷ entries)
  | raise e ↦ raise e
]
load_entries (other v ∷ lines) = elim (load_entries lines) [
  | ok entries ↦ ok (other v ∷ entries)
  | raise e ↦ raise e
]

unfoldable pub load_trace : String → String → World → Result (List Line)
unfolding load_entries lookup
load_trace project run_id w = elim (lookup (trace_file (state_of project) run_id) w.traces) [
  | none ↦ ok []
  | some lines ↦ load_entries lines
]

-- The messages of the dashboard's `verify_trace_integrity`, by what they say.
pub data LoaderError : Type 0 where
  trace_not_found empty_trace : LoaderError
  invalid_line missing_hash prev_mismatch hash_mismatch : ℕ → LoaderError

abbrev pub Reported : Type 0
Reported = Result (List LoaderError)

abbrev pub report : List LoaderError → Reported → Reported
report es (ok fs) = ok (es ++ fs)
report es (raise e) = raise e

-- the message of a mismatch takes `[:16]` of what is there
unfoldable pub link_errors : ℕ → String → Option Json → Reported
link_errors i expected none = ok (prev_mismatch i ∷ [])
link_errors i expected (some (str s)) = if s == expected then ok [] else ok (prev_mismatch i ∷ [])
link_errors i expected (some (arr xs)) = ok (prev_mismatch i ∷ [])
link_errors i expected (some v) = raise (failure type_error "object is not subscriptable")

abbrev pub hash_errors : ℕ → String → String → List LoaderError
hash_errors i computed stored = if computed == stored then [] else hash_mismatch i ∷ []

-- `canonical` is `json.dumps` with sorted keys and no spaces
module _ (P : Platform) (canonical : Dict Json → String) where
  unfoldable pub line_errors : ℕ → String → Dict Json → String → Reported
  unfolding link_errors lookup
  line_errors i expected unsigned stored =
      elim (link_errors i expected (lookup "prev_hash" unsigned)) [
        | ok es ↦ ok (es ++ hash_errors i (P.sha256_hex (canonical unsigned)) stored)
        | raise e ↦ raise e
      ]

  abbrev pub then_report : Reported → Reported → Reported
  then_report (ok es) rest = report es rest
  then_report (raise e) rest = raise e

  -- An `entry_hash` that is a list is left out: it raises here.
  unfoldable pub replay : ℕ → String → List Line → Reported
  unfolding line_errors lookup remove
  replay i expected [] = ok []
  replay i expected (invalid_json m ∷ ls) = ok (invalid_line i ∷ [])
  replay i expected (other v ∷ ls) = raise (failure attribute_error "no attribute 'pop'")
  replay i expected (dict d ∷ ls) = elim (lookup "entry_hash" d) [
    | none ↦ ok (missing_hash i ∷ [])
    | some null ↦ ok (missing_hash i ∷ [])
    | some (str stored) ↦
        then_report (line_errors i expected (remove "entry_hash" d) stored)
          (replay (i + 1) stored ls)
    | some v ↦ raise (failure type_error "object is not subscriptable")
  ]

  abbrev pub judged : Reported → Result (Bool × List LoaderError)
  judged (ok []) = ok (true, [])
  judged (ok (e ∷ es)) = ok (false, e ∷ es)
  judged (raise e) = raise e

  abbrev pub verify_present : Option (List Line) → Result (Bool × List LoaderError)
  unfolding replay
  verify_present none = ok (false, trace_not_found ∷ [])
  verify_present (some []) = ok (false, empty_trace ∷ [])
  verify_present (some (l ∷ ls)) = judged (replay 0 genesis_hash (l ∷ ls))

  -- `verify_trace_integrity` of the dashboard
  unfoldable pub verify_unkeyed : String → String → World → Result (Bool × List LoaderError)
  unfolding replay lookup
  verify_unkeyed project run_id w =
      verify_present (lookup (trace_file (state_of project) run_id) w.traces)

unfoldable pub load_evidence : String → String → World → List EvidenceRecord
unfolding lookup sort_files records_of
load_evidence project run_id w =
    records_of
      (sort_files (or_default [] (lookup (run_file project run_id "/evidence") w.evidence)))

unfoldable pub load_artifact : String → String → World → Option String
unfolding lookup
load_artifact project path w = lookup (state_of project <> "/" <> path) w.files

-- the five artifacts of the intake, and whether they are there
unfoldable pub get_intake_status : String → World → Dict Bool
unfolding exists
get_intake_status project w =
    map (λ name. (name, exists (state_of project <> "/inputs/" <> name) w))
      ("project_spec.yml" ∷ "REQUIREMENTS.md" ∷ "CONSTRAINTS.md" ∷ "NON_GOALS.md"
        ∷ "ACCEPTANCE_CRITERIA.md" ∷ [])

unfoldable pub all_values : Dict Bool → Bool
all_values [] = true
all_values ((k, b) ∷ d) = if b then all_values d else false

-- `is_intake_complete`
unfoldable pub is_intake_complete : String → World → Bool
unfolding get_intake_status all_values
is_intake_complete project w = all_values (get_intake_status project w)

unfoldable pub get_pipeline_status : String → World → Dict Bool
unfolding is_intake_complete exists
get_pipeline_status project w =
    let there = λ (path : String). exists (state_of project <> path) w in
    ("intake_complete", is_intake_complete project w)
    ∷ ("has_architecture", there "/designs/ARCHITECTURE.md")
    ∷ ("has_implementation", there "/implementations/IMPLEMENTATION.md")
    ∷ ("has_manifest", there "/implementations/FILE_MANIFEST.json")
    ∷ ("has_test_results", there "/tests/TEST_RESULTS.md")
    ∷ ("has_verification", there "/tests/VERIFICATION.md")
    ∷ ("has_build_manifest", there "/build/MANIFEST.md")
    ∷ []

-- `load_config` and `load_config_snapshot` of a file, and what is there without one
unfoldable pub load_yaml : Platform → Json → String → World → Result Json
unfolding lookup
load_yaml P missing path w = elim (lookup path w.files) [
  | none ↦ ok missing
  | some text ↦ elim (P.safe_load text) [
    | none ↦ raise (failure other_error "invalid YAML")
    | some v ↦ ok v
  ]
]

-- `load_gate_policies`, of the first of the two directories that has the file
unfoldable pub load_gate_policies : Platform → (project engine_root : String) → World → Result Json
unfolding load_yaml exists get_field
load_gate_policies P project engine_root w =
    let of_file = λ (path : String). gates_of (load_yaml P null path w) in
    let own = project <> "/templates/DECISION_GATES.yml" in
    let shipped = engine_root <> "/templates/DECISION_GATES.yml" in
    if exists own w then of_file own else if exists shipped w then of_file shipped else ok (obj end)
  where
    gates_of : Result Json → Result Json
    gates_of (ok (obj fs)) = ok (or_default (obj end) (get_field "gates" fs))
    gates_of (ok v) = raise (failure attribute_error "no attribute 'get'")
    gates_of (raise e) = raise e
