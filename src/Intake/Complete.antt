-- ===== src/Intake/Complete.antt =====
-- intake/renderer.py and graph/nodes.py: the documents that the intake writes are those that a run
-- asks for.
use autonomy_engine.Base.{ℕ, ◌≡◌, refl, String, ◌<>◌, some, List, [], true, arith, eq_refl}
use autonomy_engine.Base.Dict.{Dict, insert, has_key, has_key-insert}
use autonomy_engine.World.{Platform, World, ok}
use autonomy_engine.World.Json.{Json}
use autonomy_engine.Context.{exists, get_state_dir, ensure_init, ensure_found}
use autonomy_engine.StateFiles.{save_state_file}
use autonomy_engine.Pipeline.Nodes.{required_inputs, missing_inputs}
use autonomy_engine.Intake.{
  ProjectSpec, render_all, write_input, render_requirements, render_constraints, render_non_goals,
  render_acceptance, spec_to_json,
}

-- The first write of a path lasts through a write of any other path.
kept :
    (j k : String) (v : String) (d : Dict String)
    → has_key j d ≡ true
    → has_key j (insert k v d) ≡ true
kept j k v d h = ground (arith, has_key-insert j k v d)

written : (k : String) (v : String) (d : Dict String) → has_key k (insert k v d) ≡ true
written k v d = ground (arith, has_key-insert k k v d, eq_refl k)

five_written :
    (k1 k2 k3 k4 k5 v1 v2 v3 v4 v5 : String) (d : Dict String)
    → let d' = insert k5 v5 (insert k4 v4 (insert k3 v3 (insert k2 v2 (insert k1 v1 d)))) in
      (has_key k1 d' ≡ true)
      × (has_key k2 d' ≡ true)
      × (has_key k3 d' ≡ true)
      × (has_key k4 d' ≡ true)
      × (has_key k5 d' ≡ true)
five_written k1 k2 k3 k4 k5 v1 v2 v3 v4 v5 d = (
  kept k1 k5 v5 _ (kept k1 k4 v4 _ (kept k1 k3 v3 _ (kept k1 k2 v2 _ (written k1 v1 d)))),
  kept k2 k5 v5 _ (kept k2 k4 v4 _ (kept k2 k3 v3 _ (written k2 v2 _))),
  kept k3 k5 v5 _ (kept k3 k4 v4 _ (written k3 v3 _)),
  kept k4 k5 v5 _ (written k4 v4 _),
  written k5 v5 _,
)

module _ (text_of_number : ℕ → String) (yaml_dump : Json → String) (P : Platform) where
  -- In an open project `render_all` returns, and then none of the files that it names is
  -- missing, and none of the inputs that a run asks for, whatever the specification is.
  pub missing_inputs-render_all :
      (root : String) (s : ProjectSpec) (w : World)
      → w.project_dir ≡ some root
      → let r = render_all text_of_number yaml_dump P s w in
        (names : List String) × (r.0 ≡ ok names)
        × (missing_inputs (root <> "/state") names r.1 ≡ [])
        × (missing_inputs (root <> "/state") required_inputs r.1 ≡ [])
  unfolding render_all write_input save_state_file get_state_dir ensure_init ensure_found
      missing_inputs exists
  missing_inputs-render_all root s w h =
      let state = root <> "/state" in
      let (h1, h2, h3, h4, h5) =
        five_written (state <> "/inputs/REQUIREMENTS.md") (state <> "/inputs/CONSTRAINTS.md")
          (state <> "/inputs/NON_GOALS.md") (state <> "/inputs/ACCEPTANCE_CRITERIA.md")
          (state <> "/inputs/project_spec.yml") (render_requirements text_of_number yaml_dump s)
          (render_constraints s) (render_non_goals s) (render_acceptance text_of_number yaml_dump s)
          (yaml_dump (spec_to_json s)) w.files in
      rw (h) (_, refl, rw (h1, h2, h3, h4, h5) refl, rw (h5, h1, h2, h3, h4) refl)
