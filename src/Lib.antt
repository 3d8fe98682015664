-- ===== src/Lib.antt =====
-- Verification of the autonomy engine: the pipeline graph, its decision gates and its audit trail,
-- and the contracts, manifests, evidence and checks that its stages work with.
--
-- The engine turns the intake files of a project into a tested build. A graph of eight nodes
-- (graph/) runs the stages one after the other; a stage may ask a human for a decision at a gate
-- (engine/decision_gates.py); what happens is appended to a signed log (engine/tracer.py) below the
-- project's state directory (engine/context.py).
--
-- Parts and files:
-- - Base: names from the libraries, Boolean tests, lists and `dict` as an association list.
-- - World: JSON values, exceptions, the files and thread-local variables that the functions change,
--   and the platform they call. A function that may raise is `World → Result A × World`: what was
--   written before a raise stays written.
-- - Context: engine/context.py (`init`, `_ensure_init`, `get_state_dir`, `get_config_path`, …).
-- - Tracer: engine/tracer.py. Tracer/Keys has `_resolve_key_dir`, `_write_hmac_key`,
--   `_migrate_legacy_key` and `_load_hmac_key`; Tracer has `init_run` and `trace`; Tracer/Verify has
--   `verify_trace_integrity` with its kinds of errors, Tracer/Cli the exit code of
--   engine/verify_trace.py. Proofs: Tracer/Keys/Kept, Tracer/Sound,
--   Tracer/Ready, Tracer/Run, Tracer/Verify/Chain, Tracer/Verify/Tamper, Tracer/Verify/Pin.
-- - Gates: engine/decision_gates.py. Gates/Policies has `get_gate_policy`; Gates has
--   `save_decision`, `load_decision` and `handle_gate`. Proofs: Gates/Saved, Gates/Loaded.
-- - Pipeline: graph/. State (graph/state.py), Gate (`_handle_decision_gate`), Config
--   (`_load_config`), Nodes and Gated (the nodes), Route (the routing functions and the graph), Run
--   (`run_pipeline` as steps, `_write_run_status`). Proofs: Settled, Started, Routing, Linear,
--   Advance, Reached, Live, Decided, Reviewed.
-- - Extraction: engine/extraction.py. Extraction/Braces has `extract_braced_body` over code points;
--   Extraction/Braces/Grammar the grammar of balanced text. Proofs: Extraction/Braces/Exact,
--   Extraction/Braces/Found, Extraction/Braces/Sound.
-- - Providers: engine/llm_provider.py. `resolve_max_tokens`, `_record_usage` and
--   `_call_with_retry`. Proofs: Providers/Retry.
-- - StateFiles: engine/state_loader.py.
-- - Designs: engine/design_contract.py and engine/contract_checker.py. Designs/Contract has
--   `validate_contract`, Designs/Stored `to_dict` and `from_dict` (Proofs: Designs/Stored/Restored), Designs/Valid what a valid contract is; Designs/Compliance has
--   `check_contract_compliance`, Designs/Compliance/Report its report, and Designs/Compliant what a
--   project owes to its contract. Proofs: Designs/Clear, Designs/Checked, Designs/Seen,
--   Designs/Passed.
-- - Stages: tasks/. Stages/Manifests has `_merge_manifests` of tasks/implement.py with its gate
--   (Stages/Manifests/Gate); Stages/Verify the mode, the cached verdict and the gates of
--   tasks/verify.py, Stages/Issues its `_classify_issues`; Stages/Components `_should_chunk` and
--   `_contract_to_components` of tasks/implement.py; Stages/Extract the limits, `_safe_path` and the loop of tasks/extract.py. Proofs:
--   Stages/Manifests/Gathered, Stages/Manifests/Collected,
--   Stages/Manifests/Merged, Stages/Manifests/Chosen,
--   Stages/Verify/Reflected, Stages/Extract/Confined, Stages/Decided.
-- - Evidence: engine/evidence.py and tasks/test.py: `run_check`, the directory of evidence,
--   `_has_failures` and the gate; Evidence/Detect has `auto_detect_checks`. Proofs: Evidence/Latest,
--   Evidence/Failures, Evidence/Named.
-- - Cache: engine/cache.py; Cache/Eviction has `evict_stale_llm_cache`. Proofs: Cache/Kept,
--   Cache/Filtered, Cache/Evicted.
-- - Guard: engine/prompt_guard.py over code points. Proofs: Guard/Escaped.
-- - Models: engine/model_registry.py. Proofs: Models/Longest.
-- - Costs: engine/cost_estimator.py. Costs has the data, the totals and `_resolve_model`,
--   Costs/Estimate `estimate_run`, Costs/Tiers `build_tiers`. Proofs: Costs/Cheaper, Costs/Bounds,
--   Costs/Whole, Costs/Limits. The doubles that it computes with are in Base/Floats, with a bound of
--   their products in Base/Floats/Bounds.
-- - Intake: intake/schema.py and intake/renderer.py, the specification of a project and the documents
--   that are written from it. Proofs: Intake/Complete.
-- - Usage: engine/usage_tracker.py, from the log of a run and an estimate.
-- - Sandboxes: engine/sandbox.py and engine/sandbox_docker.py. Sandboxes/Dirs has `copytree` and
--   `rmtree`, Sandboxes/Local the local backend with its cache of environments, Sandboxes/Docker the
--   containers, Sandboxes/Session `create_sandbox`, `run` and `metadata`. Proofs: Sandboxes/Isolated,
--   Sandboxes/Kept, Sandboxes/Confined, Sandboxes/Cached.
-- - Dashboard: dashboard/subprocess_env.py, dashboard/rate_limiter.py in Dashboard/Limiter and
--   dashboard/data_loader.py in Dashboard/Loader. Proofs: Dashboard/Curated,
--   Dashboard/Loader/Rejected.
-- - Tests: concrete inputs and runs.
--
-- How state corresponds: `World` has the thread-local variables, the environment and the files by
-- path. Files that the engine writes as JSON are kept as their values: decisions/*.json, status.json,
-- pending_gate.json, the cache, the evidence, and trace.jsonl as its list of lines, each as what
-- `json.loads` makes of it. The error messages of the contract checks are constructors.
-- `dict` is an association list in insertion order. Python's `None` is `none` or `null`. A key that
-- a partial update does not have is `none`, so an update of `error` to `None` is `some none`.
--
-- Parameters: the record `Platform` has what the engine calls and does not implement (clock, uuid,
-- secrets, SHA-256, HMAC over the canonical JSON, the YAML parser, case and stripping of texts). Clock
-- and generators are read by the number of the call. The record `Tasks` has the work of the stages,
-- cache eviction and notification. LangGraph's merge of an update into the state is a function with
-- the laws of `IsMerge`; `interrupt()` is an optional answer, and without one the node pauses.
-- `Tools` has the processes that a sandbox starts (venv, pip, npm, docker), by the number of the call;
-- those of an installation may change any text file. Base64 is in `Platform` too. What is at the path of a
-- canonical type, which may leave the project, is an argument of the check of contracts.
-- `Formats` has the texts that the merge of manifests reads and writes, `Shell` what a command does,
-- `Patterns` the searches by regular expressions, and the provider's call is a computation of its own.
-- Hypotheses on them: `HasHexDigests` (signatures are ASCII), `HasBase64` (base64 decodes what it
-- has encoded of a key), `HasOneValue` (a JSON number such as
-- 1.0 equals one natural at most), `IsCollisionFree` (HMAC takes no two different entries at one
-- place of two logs to one signature).
--
-- Loops are structural recursion on lists, and that of `_call_with_retry` on the retries that are
-- left; a run of the graph is a sequence of steps, so no fuel is needed. The number of bits of a
-- product of doubles is counted with the product as fuel, which has fewer bits than its value.
--
-- Not modelled: file modes, directories, OS errors, logging, signal handlers, the command lines, the
-- pages of the dashboard, the intake dialogue, the times of a sandbox, the prompts of the stages and
-- their parsers but for `extract_braced_body`, reports, sums of money (a cost in dollars is a value of
-- a type that is a parameter), and the SDK calls of the providers.
pub mod Base
pub mod Cache
pub mod Context
pub mod Costs
pub mod Dashboard
pub mod Designs
pub mod Evidence
pub mod Extraction
pub mod Gates
pub mod Guard
pub mod Intake
pub mod Models
pub mod Pipeline
pub mod Providers
pub mod Sandboxes
pub mod Stages
pub mod StateFiles
pub mod Tests
pub mod Tracer
pub mod Usage
pub mod World
