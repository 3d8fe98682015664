-- ===== src/Pipeline/Route.antt =====
-- graph/pipeline.py: the routing functions, and the graph that they make.
use autonomy_engine.Base.{
  String, Option, none, some, Bool, true, false, ◌==◌, truthy, or_default, if◌then◌else◌,
}
use autonomy_engine.Base.Dict.{lookup}
use autonomy_engine.World.Json.{Json, num, str}
use autonomy_engine.World.{Platform, Result, ok, raise, Exec}
use autonomy_engine.Pipeline.State.{
  StageStatus, passed, failed, skipped, StageResult, PipelineState, Update, results_of,
}
use autonomy_engine.Pipeline.Config.{less}
use autonomy_engine.Pipeline.Gate.{HumanInput}
use autonomy_engine.Pipeline.Nodes.{
  Tasks, init_node, bootstrap_node, implement_node, extract_node, complete_node,
}
use autonomy_engine.Pipeline.Gated.{design_node, test_node, verify_node}

-- The names of the nodes.
pub data NodeName : Type 0 where
  init bootstrap design implement extract test verify complete : NodeName

-- What a routing function returns: a node, or "__end__".
pub data Target : Type 0 where
  to : NodeName → Target
  end : Target

unfoldable pub is_failed : StageStatus → Bool
is_failed failed = true
is_failed _ = false

-- The routing after a stage that can only fail or go on.
unfoldable pub proceed : Option StageResult → NodeName → Target
unfolding is_failed
proceed none next = to next
proceed (some r) next = if is_failed r.status then end else to next

unfoldable pub route_after_init : PipelineState → Target
unfolding proceed lookup
route_after_init s = proceed (lookup "init" (results_of s)) bootstrap

unfoldable pub route_after_bootstrap : PipelineState → Target
unfolding proceed lookup
route_after_bootstrap s = proceed (lookup "bootstrap" (results_of s)) design

unfoldable pub route_after_design : PipelineState → Target
unfolding proceed lookup
route_after_design s = proceed (lookup "design" (results_of s)) implement

unfoldable pub route_after_implement : PipelineState → Target
unfolding proceed lookup
route_after_implement s = proceed (lookup "implement" (results_of s)) extract

unfoldable pub route_after_extract : PipelineState → Target
unfolding proceed lookup
route_after_extract s = proceed (lookup "extract" (results_of s)) test

unfoldable pub route_after_verify : PipelineState → Target
unfolding proceed lookup
route_after_verify s = proceed (lookup "verify" (results_of s)) complete

unfoldable pub is_text : String → Option Json → Bool
is_text t none = false
is_text t (some (str s)) = s == t
is_text t (some v) = false

-- `decision == "abort"` in the metadata, or an error in the state
unfoldable pub is_final : StageResult → Option String → Bool
unfolding is_text lookup
is_final r error =
    if is_text "abort" (lookup "decision" r.metadata) then true else truthy (or_default "" error)

unfoldable pub retry_or_end : Result Bool → Result Target
retry_or_end (ok true) = ok (to implement)
retry_or_end (ok false) = ok end
retry_or_end (raise e) = raise e

-- state.get("retry_count", 0) < state.get("max_retries", 1)
unfoldable pub within_budget : Platform → PipelineState → Result Bool
unfolding less
within_budget P s = less P (or_default 0 s.retry_count) (or_default (num 1) s.max_retries)

unfoldable pub by_status : Platform → PipelineState → StageResult → StageStatus → Result Target
unfolding is_final retry_or_end within_budget
by_status P s r failed = if is_final r s.error then ok end else retry_or_end (within_budget P s)
by_status P s r passed = ok (to verify)
by_status P s r skipped = ok (to verify)
by_status P s r _ = retry_or_end (within_budget P s)

unfoldable pub by_result : Platform → PipelineState → Option StageResult → Result Target
unfolding by_status
by_result P s none = ok end
by_result P s (some r) = by_status P s r r.status

unfoldable pub route_after_test : Platform → PipelineState → Result Target
unfolding by_result lookup
route_after_test P s = by_result P s (lookup "test" (results_of s))

-- build_graph: the node of each name, and where its conditional edge leads.
module _ (P : Platform) (T : Tasks) where
  unfoldable pub node_of : NodeName → Option HumanInput → PipelineState → Exec Update
  unfolding init_node bootstrap_node design_node implement_node extract_node test_node verify_node
      complete_node
  node_of init resume = init_node P T
  node_of bootstrap resume = bootstrap_node P T
  node_of design resume = design_node P T resume
  node_of implement resume = implement_node P T
  node_of extract resume = extract_node P T
  node_of test resume = test_node P T resume
  node_of verify resume = verify_node P T resume
  node_of complete resume = complete_node P T

unfoldable pub edge_of : Platform → NodeName → PipelineState → Result Target
unfolding route_after_init route_after_bootstrap route_after_design route_after_implement
    route_after_extract route_after_test route_after_verify
edge_of P init s = ok (route_after_init s)
edge_of P bootstrap s = ok (route_after_bootstrap s)
edge_of P design s = ok (route_after_design s)
edge_of P implement s = ok (route_after_implement s)
edge_of P extract s = ok (route_after_extract s)
edge_of P test s = route_after_test P s
edge_of P verify s = ok (route_after_verify s)
edge_of P complete s = ok end

abbrev pub entry_point : NodeName
entry_point = init
