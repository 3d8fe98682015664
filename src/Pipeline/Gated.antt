-- ===== src/Pipeline/Gated.antt =====
-- graph/nodes.py: the nodes whose task may ask for a decision. An exception that is raised while a
-- decision is handled leaves the node: the `except Exception` beside it does not catch it.
use autonomy_engine.Base.{Option, none, some, [], ◌∷◌, true, ◌==◌, if◌then◌else◌}
use autonomy_engine.World.Json.{bool, str}
use autonomy_engine.World.{
  Platform, GateRequest, decision_required, Result, ok, raise, Exec, pure, ◌>>=◌, ◌>>◌,
}
use autonomy_engine.Pipeline.State.{
  skipped, Decision, PipelineState, Update, passed_with, failed_with, stage_update, with_decision,
  with_error,
}
use autonomy_engine.Pipeline.Gate.{HumanInput, handle_decision_gate}
use autonomy_engine.Pipeline.Nodes.{
  Tasks, architecture, test_results, verification_report, stage_failed,
}

module _ (P : Platform) (T : Tasks) (resume : Option HumanInput) where
  unfoldable pub design_decided : PipelineState → GateRequest → Option Decision → Exec Update
  design_decided s req none = pure (
      stage_update s "design" (record {
        status = skipped;
        artifacts = [];
        error = none;
        metadata = ("gate_skipped", str req.gate) ∷ [];
      }))
  design_decided s req (some d) = do
    T.design
    pure (
        with_decision s req.gate d
          (stage_update s "design" (passed_with architecture (("decision", str d.selected) ∷ []))))

  unfoldable pub design_outcome : PipelineState → Result (Unit {0}) → Exec Update
  unfolding design_decided handle_decision_gate
  design_outcome s (ok done) = pure (stage_update s "design" (passed_with architecture []))
  design_outcome s (raise (decision_required req)) = do
    decision ← handle_decision_gate P resume req s
    design_decided s req decision
  design_outcome s (raise e) = pure (stage_failed P s "design" "Design failed: " e)

  unfoldable pub design_node : PipelineState → Exec Update
  unfolding design_outcome
  design_node s w = let r = T.design w in design_outcome s r.0 r.1

  unfoldable pub test_continued : PipelineState → GateRequest → Decision → Exec Update
  test_continued s req d = do
    T.test
    pure (
        with_decision s req.gate d (
          stage_update s "test" (
            passed_with test_results
              (("decision", str "continue") ∷ ("had_failures", bool true) ∷ []))))

  unfoldable pub test_aborted : PipelineState → GateRequest → Decision → Update
  test_aborted s req d = with_error "Pipeline aborted at test triage" (
      with_decision s req.gate d (
        stage_update s "test"
          (failed_with "Aborted by human decision" (("decision", str "abort") ∷ []))))

  unfoldable pub test_decided : PipelineState → GateRequest → Option Decision → Exec Update
  unfolding test_continued test_aborted
  test_decided s req none = pure (
      stage_update s "test"
        (passed_with [] (("gate_skipped", str req.gate) ∷ ("had_failures", bool true) ∷ [])))
  test_decided s req (some d) =
      if d.selected == "abort" then pure (test_aborted s req d) else test_continued s req d

  unfoldable pub test_outcome : PipelineState → Result (Unit {0}) → Exec Update
  unfolding test_decided handle_decision_gate
  test_outcome s (ok done) = pure (stage_update s "test" (passed_with test_results []))
  test_outcome s (raise (decision_required req)) = do
    decision ← handle_decision_gate P resume req s
    test_decided s req decision
  test_outcome s (raise e) = pure (stage_failed P s "test" "Test stage failed: " e)

  unfoldable pub test_node : PipelineState → Exec Update
  unfolding test_outcome
  test_node s w = let r = T.test w in test_outcome s r.0 r.1

  unfoldable pub verify_rejected : PipelineState → GateRequest → Decision → Update
  verify_rejected s req d = with_error "Verification rejected" (
      with_decision s req.gate d (
        stage_update s "verify"
          (failed_with "Rejected by human reviewer" (("decision", str "reject") ∷ []))))

  unfoldable pub verify_accepted : PipelineState → GateRequest → Decision → Update
  verify_accepted s req d = with_decision s req.gate d (
      stage_update s "verify" (
        passed_with verification_report
          (("decision", str "accept") ∷ ("human_override", bool true) ∷ [])))

  unfoldable pub verify_decided : PipelineState → GateRequest → Option Decision → Update
  unfolding verify_rejected verify_accepted
  verify_decided s req none =
      stage_update s "verify" (passed_with [] (("gate_skipped", str req.gate) ∷ []))
  verify_decided s req (some d) =
      if d.selected == "reject" then verify_rejected s req d else verify_accepted s req d

  unfoldable pub verify_outcome : PipelineState → Result (Unit {0}) → Exec Update
  unfolding verify_decided handle_decision_gate
  verify_outcome s (ok done) = pure (stage_update s "verify" (passed_with verification_report []))
  verify_outcome s (raise (decision_required req)) = do
    decision ← handle_decision_gate P resume req s
    pure (verify_decided s req decision)
  verify_outcome s (raise e) = pure (stage_failed P s "verify" "Verification failed: " e)

  unfoldable pub verify_node : PipelineState → Exec Update
  unfolding verify_outcome
  verify_node s w = let r = T.verify w in verify_outcome s r.0 r.1
