-- ===== src/Pipeline/Advance.antt =====
-- graph/nodes.py and graph/pipeline.py: one execution of a node with the routing after it.
use autonomy_engine.Base.{
  String, ◌≡◌, ◌≢◌, refl, sym, ap, ◌∙◌, ◌⊎◌, inl, inr, subst, Option, none, some, [], ◌∷◌, Bool,
  true, false, truthy, or_default, if◌then◌else◌,
}
use autonomy_engine.Base.Dict.{insert, lookup}
use autonomy_engine.World.{Platform, World, ok}
use autonomy_engine.Pipeline.State.{failed, PipelineState, Update, results_of}
use autonomy_engine.Pipeline.Gate.{HumanInput}
use autonomy_engine.Pipeline.Nodes.{Tasks, bootstrap_node, implement_node, extract_node, init_node}
use autonomy_engine.Pipeline.Gated.{design_node, test_node, verify_node}
use autonomy_engine.Pipeline.Route.{
  NodeName, init, bootstrap, design, implement, extract, test, verify, complete, Target, to, end,
  proceed, node_of, edge_of, route_after_test, route_after_init,
}
use autonomy_engine.Pipeline.Run.{keep, IsMerge}
use autonomy_engine.Pipeline.Settled.{
  is_done, Outcome, Settles, ok-injective, bootstrap_outcome-Settles, implement_outcome-Settles,
  count_retry-Settles, extract_outcome-Settles, design_outcome-Settles, test_outcome-Settles,
  verify_outcome-Settles,
}
use autonomy_engine.Pipeline.Started.{Starts, init-Starts}
use autonomy_engine.Pipeline.Routing.{proceed-Settles, test-Settles, proceed-done, proceed-failed}
use autonomy_engine.Pipeline.Linear.{
  AllDone, AllDone-insert, name_of, stages_before, next_of, IsReady,
}

-- After node `n` the state is `s`: the run goes on to the next node, or it ends with an error.
abbrev pub Advances : NodeName → PipelineState → Target → Type 0
Advances n s t =
    ((t ≡ next_of n) × AllDone (name_of n ∷ stages_before n) (results_of s) × (s.error ≡ none))
    ⊎ ((t ≡ end) × ((e : String) × (s.error ≡ some e) × (truthy e ≡ true)))

module _ (merge : PipelineState → Update → PipelineState) (is_merge : IsMerge merge) (n : NodeName)
    (s : PipelineState) where
  Settles-Advances :
      (u : Update) (t : Target) (h : Settles (name_of n) s u)
      → IsReady n s
      → t ≡ (if is_done h.result.status then next_of n else end)
      → Advances n (merge s u) t
  Settles-Advances u t h ready e = go h.outcome
    where
      results : results_of (merge s u) ≡ insert (name_of n) h.result (results_of s)
      results = ap (or_default []) (is_merge.stage_results s u ∙ ap (keep s.stage_results) h.stored)

      go : Outcome h.result.status u.error → Advances n (merge s u) t
      go (inl (done, error)) = inl (
        e ∙ ap (λ b. if b then next_of n else end) done,
        rw results
            (AllDone-insert (stages_before n) (name_of n) h.result (results_of s) done ready.done),
        is_merge.error s u ∙ ap (or_default s.error) error ∙ ready.clean,
      )
      go (inr (status, (x, error, full))) = inr (
        e ∙ ap (λ st. if is_done st then next_of n else end) status,
        (x, is_merge.error s u ∙ ap (or_default s.error) error, full),
      )

module _ (merge : PipelineState → Update → PipelineState) (is_merge : IsMerge merge) (P : Platform)
    (T : Tasks) (resume : Option HumanInput) (s : PipelineState) (w w' : World) (u : Update) where
  design-Settles : design_node P T resume s w ≡ (ok u, w') → Settles "design" s u
  unfolding design_node
  design-Settles h = design_outcome-Settles P s T resume (T.design w).0 (T.design w).1 w' u h

  pub test_node-Settles : test_node P T resume s w ≡ (ok u, w') → Settles "test" s u
  unfolding test_node
  test_node-Settles h = test_outcome-Settles P s T resume (T.test w).0 (T.test w).1 w' u h

  verify-Settles : verify_node P T resume s w ≡ (ok u, w') → Settles "verify" s u
  unfolding verify_node
  verify-Settles h = verify_outcome-Settles P s T resume (T.verify w).0 (T.verify w).1 w' u h

  bootstrap-Settles : bootstrap_node P T s w ≡ (ok u, w') → Settles "bootstrap" s u
  unfolding bootstrap_node
  bootstrap-Settles h =
      subst (Settles "bootstrap" s) (ok-injective h)
        (bootstrap_outcome-Settles P s T (T.bootstrap w).0)

  pub implement-Settles : implement_node P T s w ≡ (ok u, w') → Settles "implement" s u
  unfolding implement_node
  implement-Settles h =
      subst (Settles "implement" s) (ok-injective h)
        (count_retry-Settles P s T _ (implement_outcome-Settles P s T (T.implement w).0))

  extract-Settles : extract_node P T s w ≡ (ok u, w') → Settles "extract" s u
  unfolding extract_node
  extract-Settles h =
      subst (Settles "extract" s) (ok-injective h) (extract_outcome-Settles P s T (T.extract w).0)

  -- Whatever update `test_node` returns, the routing after the merge of that update never
  -- goes back to the implementation stage.
  pub no_retry_after_test :
      test_node P T resume s w ≡ (ok u, w') → route_after_test P (merge s u) ≢ ok (to implement)
  no_retry_after_test h e = go _ (sym (test-Settles merge is_merge P s u (test_node-Settles h)) ∙ e)
    where
      go : (b : Bool) → ok (if b then to verify else end) ≢ ok (to implement)
      go true p = cc
      go false p = cc

  init-Advances :
      (t : Target)
      → init_node P T s w ≡ (ok u, w')
      → route_after_init (merge s u) ≡ t
      → Advances init (merge s u) t
  unfolding route_after_init lookup
  init-Advances t h e = go x.outcome
    where
      x : Starts u
      x = init-Starts P T s w w' u h

      results : results_of (merge s u) ≡ ("init", x.result) ∷ []
      results = ap (or_default []) (is_merge.stage_results s u ∙ ap (keep s.stage_results) x.stored)

      at : lookup "init" (results_of (merge s u)) ≡ some x.result
      at = rw results

      go :
          ((is_done x.result.status ≡ true) × (u.error ≡ some none))
            ⊎ ((x.result.status ≡ failed)
                × ((m : String) × (u.error ≡ some (some m)) × (truthy m ≡ true)))
          → Advances init (merge s u) t
      go (inl (done, error)) = inl (
        sym e ∙ ap (λ o. proceed o bootstrap) at ∙ proceed-done x.result bootstrap done,
        ((x.result, at, done), tt),
        is_merge.error s u ∙ ap (or_default s.error) error,
      )
      go (inr (status, (m, error, full))) = inr (
        sym e ∙ ap (λ o. proceed o bootstrap) at ∙ proceed-failed x.result bootstrap status,
        (m, is_merge.error s u ∙ ap (or_default s.error) error, full),
      )

ok-target : {a b : Target} → ok a ≡ ok b → a ≡ b
ok-target h = cc

module _ (merge : PipelineState → Update → PipelineState) (is_merge : IsMerge merge) (P : Platform)
    (T : Tasks) (resume : Option HumanInput) (s : PipelineState) (w w' : World) (u : Update)
    (t : Target) where
  -- Each node but the last advances the run.
  pub node-Advances :
      (n : NodeName)
      → n ≢ complete
      → IsReady n s
      → node_of P T n resume s w ≡ (ok u, w')
      → edge_of P n (merge s u) ≡ ok t
      → Advances n (merge s u) t
  unfolding node_of edge_of
  node-Advances init o r h e = init-Advances merge is_merge P T resume s w w' u t h (ok-target e)
  node-Advances bootstrap o r h e =
      let x = bootstrap-Settles merge is_merge P T resume s w w' u h in
      Settles-Advances merge is_merge bootstrap s u t x r
        (sym (ok-target e) ∙ proceed-Settles merge is_merge "bootstrap" s u x design)
  node-Advances design o r h e =
      let x = design-Settles merge is_merge P T resume s w w' u h in
      Settles-Advances merge is_merge design s u t x r
        (sym (ok-target e) ∙ proceed-Settles merge is_merge "design" s u x implement)
  node-Advances implement o r h e =
      let x = implement-Settles merge is_merge P T resume s w w' u h in
      Settles-Advances merge is_merge implement s u t x r
        (sym (ok-target e) ∙ proceed-Settles merge is_merge "implement" s u x extract)
  node-Advances extract o r h e =
      let x = extract-Settles merge is_merge P T resume s w w' u h in
      Settles-Advances merge is_merge extract s u t x r
        (sym (ok-target e) ∙ proceed-Settles merge is_merge "extract" s u x test)
  node-Advances test o r h e =
      let x = test_node-Settles merge is_merge P T resume s w w' u h in
      Settles-Advances merge is_merge test s u t x r
        (ok-target (sym e ∙ test-Settles merge is_merge P s u x))
  node-Advances verify o r h e =
      let x = verify-Settles merge is_merge P T resume s w w' u h in
      Settles-Advances merge is_merge verify s u t x r
        (sym (ok-target e) ∙ proceed-Settles merge is_merge "verify" s u x complete)
  node-Advances complete o r h e = absurd (o refl)
