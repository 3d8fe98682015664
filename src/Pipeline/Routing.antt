-- ===== src/Pipeline/Routing.antt =====
-- graph/pipeline.py: where the graph goes after a node, by what the node returned.
use autonomy_engine.Base.{
  String, ◌≡◌, refl, ap, ◌∙◌, inl, inr, Option, some, true, arith, truthy, or_default,
  if◌then◌else◌,
}
use autonomy_engine.Base.Dict.{lookup, lookup-insert_self}
use autonomy_engine.World.{Platform, ok}
use autonomy_engine.Pipeline.State.{
  StageStatus, passed, failed, skipped, StageResult, PipelineState, Update, results_of,
}
use autonomy_engine.Pipeline.Route.{
  NodeName, verify, to, end, proceed, is_failed, by_status, route_after_test, is_final,
}
use autonomy_engine.Pipeline.Run.{IsMerge}
use autonomy_engine.Pipeline.Settled.{Settles, Outcome, is_done}

module _ (merge : PipelineState → Update → PipelineState) (is_merge : IsMerge merge) where
  result_at :
      (stage : String) (s : PipelineState) (u : Update) (h : Settles stage s u)
      → lookup stage (results_of (merge s u)) ≡ some h.result
  result_at stage s u h =
      rw (is_merge.stage_results s u, h.stored) (lookup-insert_self stage h.result (results_of s))

  error_at :
      (s : PipelineState) (u : Update) (e : String)
      → u.error ≡ some (some e)
      → (merge s u).error ≡ some e
  error_at s u e h = is_merge.error s u ∙ ap (or_default s.error) h

  proceed_status :
      (status : StageStatus) (error : Option (Option String)) (next : NodeName)
      → Outcome status error
      → (if is_failed status then end else to next) ≡ (if is_done status then to next else end)
  unfolding is_failed
  proceed_status passed error next o = refl
  proceed_status skipped error next o = refl
  proceed_status failed error next o = refl
  proceed_status _ error next o = absurd (ground arith)

  -- A stage with one way on: it goes on if it is done, and else the run ends.
  pub proceed-Settles :
      (stage : String) (s : PipelineState) (u : Update) (h : Settles stage s u) (next : NodeName)
      → proceed (lookup stage (results_of (merge s u))) next
        ≡ (if is_done h.result.status then to next else end)
  unfolding proceed
  proceed-Settles stage s u h next =
      rw (result_at stage s u h) (proceed_status h.result.status u.error next h.outcome)

  final-failed :
      (s : PipelineState) (u : Update) (r : StageResult) (e : String)
      → u.error ≡ some (some e)
      → truthy e ≡ true
      → is_final r (merge s u).error ≡ true
  unfolding is_final
  final-failed s u r e error h = rw (error_at s u e error) (ground (arith, h))

  test_status :
      (P : Platform) (s : PipelineState) (u : Update) (r : StageResult) (status : StageStatus)
      → Outcome status u.error
      → by_status P (merge s u) r status ≡ ok (if is_done status then to verify else end)
  unfolding by_status
  test_status P s u r passed o = refl
  test_status P s u r skipped o = refl
  test_status P s u r failed (inl (h, e)) = absurd (cc)
  test_status P s u r failed (inr (h, (e, error, full))) = rw (final-failed s u r e error full)
  test_status P s u r _ o = absurd (ground arith)

  -- After the test stage the run goes on to verify, or it ends.
  pub test-Settles :
      (P : Platform) (s : PipelineState) (u : Update) (h : Settles "test" s u)
      → route_after_test P (merge s u) ≡ ok (if is_done h.result.status then to verify else end)
  unfolding route_after_test
  test-Settles P s u h =
      rw (result_at "test" s u h) (test_status P s u h.result h.result.status h.outcome)

pub proceed-done :
    (r : StageResult) (next : NodeName) → is_done r.status ≡ true → proceed (some r) next ≡ to next
unfolding proceed is_failed
proceed-done r next h = ground arith

pub proceed-failed :
    (r : StageResult) (next : NodeName) → r.status ≡ failed → proceed (some r) next ≡ end
unfolding proceed is_failed
proceed-failed r next h = ground arith
