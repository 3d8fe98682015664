-- ===== src/Pipeline/Config.antt =====
-- graph/nodes.py: the configuration of a run, and the values that a node reads from it.
use autonomy_engine.Base.{
  ℕ, String, ◌<>◌, Option, none, some, Bool, false, ltb, starts_with, truthy, or_default,
  if◌then◌else◌,
}
use autonomy_engine.Base.Dict.{lookup}
use autonomy_engine.World.Json.{Json, bool, num, literal, obj, end, get_field, is_truthy}
use autonomy_engine.World.{
  Platform, World, type_error, attribute_error, file_not_found, other_error, failure, Result, ok,
  raise, Exec,
}
use autonomy_engine.Context.{exists}

-- os.environ.get(name)
abbrev env_value : String → World → Option String
env_value name w = lookup name w.env

-- n < v
unfoldable pub less : Platform → ℕ → Json → Result Bool
less P n (num m) = ok (ltb n m)
less P n (bool b) = ok (if b then ltb n 1 else false)
less P n (literal s) = ok (P.literal_lt n s)
less P n v = raise (failure type_error "'<' not supported between these types")

-- c.get(k, default)
unfoldable pub get_default : String → Json → Json → Result Json
unfolding get_field
get_default k default (obj fs) = ok (or_default default (get_field k fs))
get_default k default v = raise (failure attribute_error "no attribute 'get'")

module _ (P : Platform) where
  -- yaml.safe_load(f) or {}
  parsed : Option Json → Result Json
  unfolding is_truthy
  parsed none = raise (failure other_error "invalid YAML")
  parsed (some v) = ok (if is_truthy v then v else obj end)

  parse_file : String → World → Result Json
  unfolding parsed lookup
  parse_file path w = parsed (P.safe_load (or_default "" (lookup path w.files)))

  -- the file that must be there
  read_required : String → World → Result Json
  unfolding parse_file exists
  read_required path w =
      if exists path w then parse_file path w else raise (failure file_not_found path)

  -- root / path
  join_path : String → String → String
  join_path root path = if starts_with path "/" then path else root <> "/" <> path

  by_env : String → String → World → Result Json
  unfolding read_required parse_file exists
  by_env root env w =
      if truthy env
      then read_required (root <> "/config." <> env <> ".yml") w
      else if exists (root <> "/config.yml") w
      then parse_file (root <> "/config.yml") w
      else ok (obj end)

  unfoldable pub load_config : String → Exec Json
  unfolding by_env read_required join_path lookup
  load_config root w =
      let explicit = or_default "" (env_value "AE_CONFIG_PATH" w) in
      let env = P.lower (P.strip (or_default "" (env_value "AE_ENV" w))) in
      (if truthy explicit then read_required (join_path root explicit) w else by_env root env w, w)
