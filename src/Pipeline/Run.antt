-- ===== src/Pipeline/Run.antt =====
-- graph/pipeline.py: `run_pipeline`, and what LangGraph does with the graph that `build_graph`
-- makes, as steps from node to node.
use autonomy_engine.Base.{
  String, ◌<>◌, ◌≡◌, Option, none, some, [], Bool, truthy, ◌==◌, or_default, if◌then◌else◌,
}
use autonomy_engine.Base.Dict.{insert}
use autonomy_engine.World.Json.{num}
use autonomy_engine.World.{
  Platform, World, GateRequest, RunStatus, interrupted, ok, raise, Exec, modify, pure, ◌>>=◌,
}
use autonomy_engine.Context.{get_state_dir}
use autonomy_engine.Pipeline.State.{PipelineState, Update}
use autonomy_engine.Pipeline.Gate.{HumanInput}
use autonomy_engine.Pipeline.Nodes.{Tasks}
use autonomy_engine.Pipeline.Route.{NodeName, to, end, node_of, edge_of, entry_point}

abbrev pub keep {ℓ} : {A : Type ℓ} → Option A → Option A → Option A
keep old none = old
keep old (some new) = some new

-- LangGraph merges what a node returns into the state, key by key: the last value counts.
pub record IsMerge (merge : PipelineState → Update → PipelineState) : Type 0 where
  pub project_dir : (s : PipelineState) (u : Update) → (merge s u).project_dir ≡ s.project_dir
  pub run_id : (s : PipelineState) (u : Update) → (merge s u).run_id ≡ keep s.run_id u.run_id
  pub stage_results :
      (s : PipelineState) (u : Update)
      → (merge s u).stage_results ≡ keep s.stage_results u.stage_results
  pub current_stage :
      (s : PipelineState) (u : Update)
      → (merge s u).current_stage ≡ keep s.current_stage u.current_stage
  pub decisions :
      (s : PipelineState) (u : Update) → (merge s u).decisions ≡ keep s.decisions u.decisions
  pub error : (s : PipelineState) (u : Update) → (merge s u).error ≡ or_default s.error u.error
  pub retry_count :
      (s : PipelineState) (u : Update) → (merge s u).retry_count ≡ keep s.retry_count u.retry_count
  pub max_retries :
      (s : PipelineState) (u : Update) → (merge s u).max_retries ≡ keep s.max_retries u.max_retries

-- initial_state of `run_pipeline`
unfoldable pub initial_state : Option String → PipelineState
initial_state project_dir = record {
  project_dir = project_dir;
  run_id = none;
  config = none;
  stage_results = some [];
  current_stage = some "init";
  decisions = some [];
  error = none;
  retry_count = some 0;
  max_retries = some (num 1);
}

-- A run at a node that is to be executed next.
pub record Config : Type 0 where
  pub node : NodeName
  pub state : PipelineState
  pub world : World

unfoldable pub start : Option String → World → Config
unfolding initial_state
start project_dir w = record { node = entry_point; state = initial_state project_dir; world = w }

module _ (P : Platform) (T : Tasks) (merge : PipelineState → Update → PipelineState) where
  -- One execution of a node, with the answer of a human if the run is being resumed.
  pub data Step (c c' : Config) : Type 0 where
    move :
        (resume : Option HumanInput) {u : Update} {w' : World} {m : NodeName}
        → node_of P T c.node resume c.state c.world ≡ (ok u, w')
        → edge_of P c.node (merge c.state u) ≡ ok (to m)
        → c' ≡ record { node = m; state = merge c.state u; world = w' }
        → Step c c'
    wait :
        (resume : Option HumanInput) {req : GateRequest} {w' : World}
        → node_of P T c.node resume c.state c.world ≡ (raise (interrupted req), w')
        → c' ≡ record c { world = w' }
        → Step c c'

  -- The last execution of a node in a run, and the state that `invoke` returns.
  pub data Ends (c : Config) (s : PipelineState) : Type 0 where
    finish :
        (resume : Option HumanInput) {u : Update} {w' : World}
        → node_of P T c.node resume c.state c.world ≡ (ok u, w')
        → edge_of P c.node (merge c.state u) ≡ ok end
        → s ≡ merge c.state u
        → Ends c s

  pub data Reach (c : Config) : Config → Type 0 where
    here : Reach c c
    next : {d e : Config} → Reach c d → Step d e → Reach c e

-- The terminal state of a run, for status.json (`_write_run_status`).
unfoldable pub terminal_state : Bool → PipelineState → String
terminal_state paused s =
    if paused
    then "paused"
    else if truthy (or_default "" s.error)
    then "failed"
    else if or_default "" s.current_stage == "complete"
    then "complete"
    else "paused"

write_status : String → RunStatus → World → World
unfolding insert
write_status path status w = record w { statuses = insert path status w.statuses }

status_of : Option String → Bool → PipelineState → String → RunStatus
unfolding terminal_state
status_of rid paused s thread_id = record {
  state = terminal_state paused s;
  thread_id = thread_id;
  current_stage = s.current_stage;
  error = s.error;
}

status_for : Platform → String → Bool → PipelineState → String → Exec (Unit {0})
unfolding get_state_dir write_status status_of
status_for P rid paused s thread_id =
    if truthy rid
    then (do
      state ← get_state_dir P
      modify (
          write_status (state <> "/runs/" <> rid <> "/status.json")
            (status_of (some rid) paused s thread_id)))
    else pure tt

-- `paused` says that the result holds an interrupt.
unfoldable pub write_run_status : Platform → Bool → PipelineState → String → Exec (Unit {0})
unfolding status_for
write_run_status P paused s thread_id = status_for P (or_default "" s.run_id) paused s thread_id
