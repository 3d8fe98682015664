-- ===== src/Pipeline/Started.antt =====
-- graph/nodes.py, `init_node`: what the first node returns.
use autonomy_engine.Base.{
  String, ◌<>◌, ◌≡◌, refl, ◌⊎◌, inl, inr, none, some, List, [], ◌∷◌, true, truthy, subst,
}
use autonomy_engine.World.Json.{null, num, obj, end}
use autonomy_engine.World.{Platform, World, ok, lift}
use autonomy_engine.Context
use autonomy_engine.Context.{get_state_dir}
use autonomy_engine.Tracer.{init_run}
use autonomy_engine.Pipeline.State.{
  failed, StageResult, PipelineState, Update, passed_with, failed_with,
}
use autonomy_engine.Pipeline.Config.{get_default, load_config}
use autonomy_engine.Pipeline.Nodes.{
  Tasks, required_inputs, missing_inputs, join_names, init_node, init_checked, start_run,
  intake_missing, evict_if_positive, cache_config,
}
use autonomy_engine.Pipeline.Settled.{bind-ok, ok-injective, is_done, prefix-truthy}

-- The update of the first node: it replaces all results by its own.
pub record Starts (u : Update) : Type 0 where
  pub result : StageResult
  pub stored : u.stage_results ≡ some (("init", result) ∷ [])
  pub outcome :
      ((is_done result.status ≡ true) × (u.error ≡ some none))
      ⊎ ((result.status ≡ failed) × ((e : String) × (u.error ≡ some (some e)) × (truthy e ≡ true)))

module _ (P : Platform) (T : Tasks) where
  start_run-Starts :
      (root : String) (w w' : World) (u : Update) → start_run P T root w ≡ (ok u, w') → Starts u
  unfolding start_run
  start_run-Starts root w w' u h =
      let (run_id, h1) = bind-ok (init_run P) _ w h in
      let w1 = (init_run P w).1 in
      let (config, h2) = bind-ok (load_config P root) _ w1 h1 in
      let w2 = (load_config P root w1).1 in
      let (cache, h3) = bind-ok (lift (get_default "cache" null config)) _ w2 h2 in
      let (llm, h4) =
        bind-ok (lift (get_default "llm_ttl_days" (num 30) (cache_config P T cache))) _ w2 h3 in
      let (venv, h5) =
        bind-ok (lift (get_default "venv_ttl_days" (num 7) (cache_config P T cache))) _ w2 h4 in
      let (a, h6) = bind-ok (evict_if_positive P T llm T.evict_llm_cache) _ w2 h5 in
      let w3 = (evict_if_positive P T llm T.evict_llm_cache w2).1 in
      let (b, h7) = bind-ok (evict_if_positive P T venv T.evict_venv_cache) _ w3 h6 in
      let w4 = (evict_if_positive P T venv T.evict_venv_cache w3).1 in
      let (pipeline, h8) = bind-ok (lift (get_default "pipeline" (obj end) config)) _ w4 h7 in
      let (max_retries, h9) = bind-ok (lift (get_default "max_retries" (num 1) pipeline)) _ w4 h8 in
      subst Starts (ok-injective h9)
        (record { result = passed_with [] []; stored = refl; outcome = inl (refl, refl) })

  init_checked-Starts :
      (root : String) (missing : List String) (w w' : World) (u : Update)
      → init_checked P T root missing w ≡ (ok u, w')
      → Starts u
  unfolding init_checked intake_missing
  init_checked-Starts root [] w w' u h = start_run-Starts root w w' u h
  init_checked-Starts root (f ∷ fs) w w' u h = subst Starts (ok-injective h) (record {
    result = failed_with ("Missing intake files: " <> join_names (f ∷ fs)) [];
    stored = refl;
    outcome = inr (
      refl,
      (
        "Intake not completed. Missing: " <> join_names (f ∷ fs),
        refl,
        prefix-truthy "Intake not completed. Missing: " (join_names (f ∷ fs)) refl,
      ),
    );
  })

  pub init-Starts :
      (s : PipelineState) (w w' : World) (u : Update) → init_node P T s w ≡ (ok u, w') → Starts u
  unfolding init_node
  init-Starts s w w' u h =
      let (a, h1) = bind-ok (Context.init P s.project_dir) _ w h in
      let w1 = (Context.init P s.project_dir w).1 in
      let (state, h2) = bind-ok (get_state_dir P) _ w1 h1 in
      let w2 = (get_state_dir P w1).1 in
      let (root, h3) = bind-ok (Context.get_project_dir P) _ w2 h2 in
      let w3 = (Context.get_project_dir P w2).1 in
      init_checked-Starts root (missing_inputs state required_inputs w3) w3 w' u h3
