-- ===== src/Pipeline/Nodes.antt =====
-- graph/nodes.py: the nodes of the graph. A node maps the state to a partial update, or raises.
use autonomy_engine.Base.{◌+◌, String, ◌<>◌, none, some, List, [], ◌∷◌, or_default, if◌then◌else◌}
use autonomy_engine.Base.Dict.{has_key}
use autonomy_engine.World.Json.{Json, null, num, obj, end, is_truthy}
use autonomy_engine.World.{
  Platform, World, Exc, failure, decision_required, interrupted, Result, ok, raise, Exec, pure,
  gets, lift, ◌>>=◌, ◌>>◌,
}
use autonomy_engine.Context
use autonomy_engine.Context.{exists, get_state_dir}
use autonomy_engine.Tracer.{init_run}
use autonomy_engine.Pipeline.State.{
  PipelineState, Update, no_update, results_of, passed_with, failed_with, stage_update, with_error,
}
use autonomy_engine.Pipeline.Config.{less, get_default, load_config}

-- str(e)
unfoldable pub message : Platform → Exc → String
message P (failure k m) = m
message P (decision_required req) =
    "Decision required at "
    <> req.stage
    <> ": "
    <> req.gate
    <> " (options: "
    <> P.repr_list req.options
    <> ")"
message P (interrupted req) = "Decision required: " <> req.gate

-- The work of the stages: `bootstrap_project`, `design_system`, `implement_system`,
-- `extract_project`, `test_system` and `verify_system`, what evicts the caches, and `notify`.
pub record Tasks : Type 0 where
  pub bootstrap : Exec (Unit {0})
  pub design : Exec (Unit {0})
  pub implement : Exec (Unit {0})
  pub extract : Exec (Unit {0})
  pub test : Exec (Unit {0})
  pub verify : Exec (Unit {0})
  pub evict_llm_cache : Json → Exec (Unit {0})
  pub evict_venv_cache : Json → Exec (Unit {0})
  pub notify : String → Exec (Unit {0})

-- REQUIRED_INPUTS
abbrev pub required_inputs : List String
required_inputs =
    "inputs/project_spec.yml" ∷ "inputs/REQUIREMENTS.md" ∷ "inputs/CONSTRAINTS.md"
    ∷ "inputs/NON_GOALS.md" ∷ "inputs/ACCEPTANCE_CRITERIA.md" ∷ []

unfoldable pub missing_inputs : String → List String → World → List String
unfolding exists
missing_inputs state [] w = []
missing_inputs state (f ∷ fs) w =
    let rest = missing_inputs state fs w in if exists (state <> "/" <> f) w then rest else f ∷ rest

-- ", ".join(names)
unfoldable pub join_names : List String → String
join_names [] = ""
join_names (n ∷ []) = n
join_names (n ∷ m ∷ ns) = n <> ", " <> join_names (m ∷ ns)

abbrev pub architecture : List String
architecture = "designs/ARCHITECTURE.md" ∷ "designs/DESIGN_CONTRACT.json" ∷ []

abbrev pub implementation : List String
implementation = "implementations/IMPLEMENTATION.md" ∷ "implementations/FILE_MANIFEST.json" ∷ []

abbrev pub test_results : List String
test_results = "tests/TEST_RESULTS.md" ∷ []

abbrev pub verification_report : List String
verification_report = "tests/VERIFICATION.md" ∷ []

-- the update of the `except Exception as e` branches
abbrev pub stage_failed : Platform → PipelineState → String → String → Exc → Update
stage_failed P s stage prefix e =
    with_error (prefix <> message P e) (stage_update s stage (failed_with (message P e) []))

module _ (P : Platform) (T : Tasks) where
  pub evict_if_positive : Json → (Json → Exec (Unit {0})) → Exec (Unit {0})
  unfolding less
  evict_if_positive ttl evict = do
    positive ← lift (less P 0 ttl)
    if positive then evict ttl else pure tt

  -- config.get("cache") or {}
  pub cache_config : Json → Json
  unfolding is_truthy
  cache_config v = if is_truthy v then v else obj end

  unfoldable pub start_run : String → Exec Update
  unfolding init_run load_config get_default cache_config evict_if_positive
  start_run root = do
    run_id ← init_run P
    config ← load_config P root
    cache ← lift (get_default "cache" null config)
    llm_ttl ← lift (get_default "llm_ttl_days" (num 30) (cache_config cache))
    venv_ttl ← lift (get_default "venv_ttl_days" (num 7) (cache_config cache))
    evict_if_positive llm_ttl T.evict_llm_cache
    evict_if_positive venv_ttl T.evict_venv_cache
    pipeline ← lift (get_default "pipeline" (obj end) config)
    max_retries ← lift (get_default "max_retries" (num 1) pipeline)
    pure (record {
      run_id = some run_id;
      config = some config;
      stage_results = some (("init", passed_with [] []) ∷ []);
      current_stage = some "init";
      decisions = some [];
      error = some none;
      retry_count = some 0;
      max_retries = some max_retries;
    })

  unfoldable pub intake_missing : List String → Update
  unfolding join_names
  intake_missing missing = record no_update {
    current_stage = some "init";
    stage_results =
        some (("init", failed_with ("Missing intake files: " <> join_names missing) []) ∷ []);
    error = some (some ("Intake not completed. Missing: " <> join_names missing));
  }

  unfoldable pub init_checked : String → List String → Exec Update
  unfolding start_run intake_missing
  init_checked root [] = start_run root
  init_checked root (f ∷ fs) = pure (intake_missing (f ∷ fs))

  unfoldable pub init_node : PipelineState → Exec Update
  unfolding init_checked missing_inputs get_state_dir
  init_node s = do
    Context.init P s.project_dir
    state ← get_state_dir P
    root ← Context.get_project_dir P
    missing ← gets (missing_inputs state required_inputs)
    init_checked root missing

  -- The nodes without a gate catch every exception.
  unfoldable pub bootstrap_outcome : PipelineState → Result (Unit {0}) → Update
  bootstrap_outcome s (ok done) =
      stage_update s "bootstrap" (passed_with ("config_snapshot.yml" ∷ []) [])
  bootstrap_outcome s (raise e) = stage_failed P s "bootstrap" "Bootstrap failed: " e

  unfoldable pub bootstrap_node : PipelineState → Exec Update
  unfolding bootstrap_outcome
  bootstrap_node s w = let r = T.bootstrap w in (ok (bootstrap_outcome s r.0), r.1)

  -- "retry_count" is given only when there is a result of an earlier implementation.
  unfoldable pub count_retry : PipelineState → Update → Update
  unfolding has_key
  count_retry s u =
      if has_key "implement" (results_of s)
      then record u { retry_count = some (or_default 0 s.retry_count + 1) }
      else u

  unfoldable pub implement_outcome : PipelineState → Result (Unit {0}) → Update
  implement_outcome s (ok done) = stage_update s "implement" (passed_with implementation [])
  implement_outcome s (raise e) = stage_failed P s "implement" "Implementation failed: " e

  unfoldable pub implement_node : PipelineState → Exec Update
  unfolding implement_outcome count_retry
  implement_node s w = let r = T.implement w in (ok (count_retry s (implement_outcome s r.0)), r.1)

  unfoldable pub extract_outcome : PipelineState → Result (Unit {0}) → Update
  extract_outcome s (ok done) = stage_update s "extract" (passed_with ("build/MANIFEST.md" ∷ []) [])
  extract_outcome s (raise e) = stage_failed P s "extract" "Extraction failed: " e

  unfoldable pub extract_node : PipelineState → Exec Update
  unfolding extract_outcome
  extract_node s w = let r = T.extract w in (ok (extract_outcome s r.0), r.1)

  unfoldable pub complete_node : PipelineState → Exec Update
  complete_node s = do
    T.notify "Autonomous build flow completed (LangGraph)."
    pure (record no_update { current_stage = some "complete" })
