-- ===== src/Tests/Answers.antt =====
-- graph/nodes.py: a human rejects the design.
use autonomy_engine.Base.{◌≡◌, refl, some, [], ◌∷◌}
use autonomy_engine.World.{World, GateRequest, ok}
use autonomy_engine.Pipeline.State.{Decision, PipelineState}
use autonomy_engine.Pipeline.Gate.{HumanInput, handle_decision_gate}
use autonomy_engine.Pipeline.Run.{initial_state}
use autonomy_engine.Pipeline.Decided.{IsRecorded, handle-IsRecorded}
use autonomy_engine.Tests.Samples.{sample, sample-HasHexDigests, in_r1, in_r1-IsOpen}

abbrev approval : GateRequest
approval = record {
  gate = "design approval";
  stage = "design";
  options = "approve" ∷ "reject" ∷ [];
}

abbrev rejected : Decision
rejected = record {
  gate = "design approval";
  stage = "design";
  selected = "reject";
  actor = "human";
  rationale = "too large";
}

abbrev answer : HumanInput
answer = record { choice = some "reject"; rationale = some "too large" }

abbrev running : PipelineState
running = record (initial_state (some "/p")) { run_id = some "r1" }

abbrev decided_world : World
decided_world = (handle_decision_gate sample (some answer) approval running in_r1).1

answered :
    handle_decision_gate sample (some answer) approval running in_r1
    ≡ (ok (some rejected), decided_world)
unfolding handle_decision_gate autonomy_engine.Tracer.trace
answered = refl

handle-IsRecorded_example : IsRecorded sample "/p" "r1" "k" approval rejected decided_world
handle-IsRecorded_example =
    handle-IsRecorded sample sample-HasHexDigests "/p" "r1" "k" approval running rejected
      (some answer) in_r1 decided_world in_r1-IsOpen answered
