-- ===== src/Context.antt =====
-- engine/context.py: where the project's files are, by a thread-local project directory.
use autonomy_engine.Base.{
  String, ◌<>◌, Option, none, some, [], ◌∷◌, Bool, true, false, ◌==◌, starts_with, if◌then◌else◌,
}
use autonomy_engine.Base.Dict.{Dict, has_key}
use autonomy_engine.World.{Platform, World, Result, Exec, pure, gets, modify, ◌>>=◌}

-- Path.exists, of a file
unfoldable pub exists : String → World → Bool
unfolding has_key
exists path w = has_key path w.files

any_below : String → Dict String → Bool
any_below dir [] = false
any_below dir ((path, content) ∷ fs) = if starts_with path dir then true else any_below dir fs

-- Path.is_dir, of a directory that holds a file
unfoldable pub is_dir : String → World → Bool
unfolding any_below
is_dir path w = any_below (path <> "/") w.files

module _ (P : Platform) where
  unfoldable pub init : Option String → Exec (Unit {0})
  init none = modify (λ w. record w { project_dir = some P.engine_root })
  init (some dir) = modify (λ w. record w { project_dir = some (P.resolve dir) })

  unfoldable pub ensure_found : Option String → Exec String
  ensure_found (some dir) w = (Result.ok dir, w)
  ensure_found none w = (Result.ok P.engine_root, record w { project_dir = some P.engine_root })

  unfoldable pub ensure_init : Exec String
  unfolding ensure_found
  ensure_init w = ensure_found w.project_dir w

  unfoldable pub get_project_dir : Exec String
  unfolding ensure_init
  get_project_dir = ensure_init

  unfoldable pub get_state_dir : Exec String
  unfolding ensure_init
  get_state_dir = do dir ← ensure_init; pure (dir <> "/state")

  config_path : String → Bool → String
  config_path project local_exists =
      if local_exists
      then project <> "/config.yml"
      else if project == P.engine_root
      then P.engine_root <> "/config.yml"
      else project <> "/config.yml"

  unfoldable pub get_config_path : Exec String
  unfolding ensure_init exists config_path
  get_config_path = do
    project ← ensure_init
    found ← gets (exists (project <> "/config.yml"))
    pure (config_path project found)

  unfoldable pub get_templates_dir : Exec String
  unfolding ensure_init is_dir
  get_templates_dir = do
    project ← ensure_init
    found ← gets (is_dir (project <> "/templates"))
    pure (if found then project <> "/templates" else P.engine_root <> "/templates")

  unfoldable pub get_prompts_dir : Exec String
  unfolding ensure_init is_dir
  get_prompts_dir = do
    project ← ensure_init
    found ← gets (is_dir (project <> "/templates/prompts"))
    pure (if found then project <> "/templates/prompts" else P.engine_root <> "/templates/prompts")
