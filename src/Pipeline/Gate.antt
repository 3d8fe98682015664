-- ===== src/Pipeline/Gate.antt =====
-- graph/nodes.py: how a node settles a decision gate.
use autonomy_engine.Base.{String, ◌<>◌, Option, none, some, truthy, or_default, if◌then◌else◌}
use autonomy_engine.Base.Dict.{insert, remove}
use autonomy_engine.World.Json.{Json}
use autonomy_engine.World.{
  Platform, World, GateRequest, interrupted, Exec, pure, throw, gets, modify, lift, ◌>>=◌, ◌>>◌,
}
use autonomy_engine.Context.{get_state_dir}
use autonomy_engine.Gates.{resolve_actor, save_decision, first_option, auto_option}
use autonomy_engine.Gates.Policies.{Policy, pause, auto, skip, get_gate_policy}
use autonomy_engine.Pipeline.State.{Decision, PipelineState}

-- What a human answers: the dict that resumes the graph.
pub record HumanInput : Type 0 where
  pub choice : Option String
  pub rationale : Option String

-- `interrupt()` of LangGraph: the answer in a resumed execution, and else a pause.
unfoldable pub interrupt : Option HumanInput → GateRequest → Exec HumanInput
interrupt none req = throw (interrupted req)
interrupt (some answer) req = pure answer

module _ (P : Platform) where
  pub marker_path : Option String → String → Option String
  marker_path none state = none
  marker_path (some rid) state =
      if truthy rid then some (state <> "/runs/" <> rid <> "/pending_gate.json") else none

  unfoldable pub pending_gate_path : PipelineState → Exec (Option String)
  unfolding marker_path get_state_dir
  pending_gate_path s = elim (marker_path s.run_id "") [
    | none ↦ pure none
    | some x ↦ do state ← get_state_dir P; pure (marker_path s.run_id state)
  ]

  mark : Option String → GateRequest → World → World
  unfolding insert
  mark none req w = w
  mark (some path) req w = record w { pending_gates = insert path req w.pending_gates }

  unfoldable pub write_pending_gate : PipelineState → GateRequest → Exec (Unit {0})
  unfolding pending_gate_path mark
  write_pending_gate s req = do path ← pending_gate_path s; modify (mark path req)

  unmark : Option String → World → World
  unfolding remove
  unmark none w = w
  unmark (some path) w = record w { pending_gates = remove path w.pending_gates }

  unfoldable pub clear_pending_gate : PipelineState → Exec (Unit {0})
  unfolding pending_gate_path unmark
  clear_pending_gate s = do path ← pending_gate_path s; modify (unmark path)

  -- the decision goes to the state and to the run's records
  unfoldable pub record_decision : GateRequest → String → String → String → Exec (Option Decision)
  unfolding save_decision
  record_decision req selected actor rationale = do
    save_decision P (record {
      gate = req.gate;
      stage = req.stage;
      allowed_options = req.options;
      selected = selected;
      actor = some actor;
      rationale = rationale;
    })
    pure (
        some (record {
          gate = req.gate;
          stage = req.stage;
          selected = selected;
          actor = actor;
          rationale = rationale;
        }))

  unfoldable pub decide :
      Option HumanInput → GateRequest → PipelineState → Policy → Json → Exec (Option Decision)
  unfolding write_pending_gate clear_pending_gate record_decision interrupt first_option auto_option
      resolve_actor
  decide resume req s skip default_option = pure none
  decide resume req s auto default_option = do
    selected ← lift (auto_option default_option req.options)
    record_decision req selected "auto-policy" ""
  decide resume req s pause default_option = do
    write_pending_gate s req
    answer ← interrupt resume req
    clear_pending_gate s
    first ← lift (first_option req.options)
    actor ← gets (resolve_actor none)
    record_decision req (or_default first answer.choice) actor (or_default "" answer.rationale)

  unfoldable pub handle_decision_gate :
      Option HumanInput → GateRequest → PipelineState → Exec (Option Decision)
  unfolding decide get_gate_policy
  handle_decision_gate resume req s = do
    policy ← get_gate_policy P req.stage
    decide resume req s policy.policy policy.default_option
