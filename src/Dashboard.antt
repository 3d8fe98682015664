-- ===== src/Dashboard.antt =====
-- dashboard/subprocess_env.py: the environment of the subprocess that runs the pipeline.
pub mod Loader
pub mod Curated
pub mod Limiter
use autonomy_engine.Base.{
  String, Option, none, some, List, [], ◌∷◌, Bool, true, false, truthy, or_default, if◌then◌else◌,
}
use autonomy_engine.Base.Dict.{Dict, lookup, insert}
use autonomy_engine.World.{failure, runtime_error, Result, ok, raise}

-- ALLOWLIST
abbrev pub allowlist : List String
allowlist =
    "PATH" ∷ "HOME" ∷ "LANG" ∷ "LC_ALL" ∷ "LC_CTYPE" ∷ "TZ" ∷ "TMPDIR" ∷ "PYTHONPATH"
    ∷ "PYTHONUNBUFFERED" ∷ "VIRTUAL_ENV" ∷ "HTTP_PROXY" ∷ "HTTPS_PROXY" ∷ "NO_PROXY" ∷ "http_proxy"
    ∷ "https_proxy" ∷ "no_proxy" ∷ "SSL_CERT_FILE" ∷ "REQUESTS_CA_BUNDLE" ∷ "ANTHROPIC_API_KEY"
    ∷ "OPENAI_API_KEY" ∷ "AE_CONFIG_PATH" ∷ "AE_ENV" ∷ "AE_ACTOR" ∷ "AE_LOG_FORMAT" ∷ "AE_LOG_LEVEL"
    ∷ "AE_TRACE_KEY_DIR" ∷ "DEMO_MAX_RUNS" ∷ "USER" ∷ "LOGNAME" ∷ "USERNAME" ∷ []

-- a value that is there and not empty
abbrev pub set_value : Option String → Option String
set_value none = none
set_value (some v) = if truthy v then some v else none

-- env[key] = value, if there is a value
unfoldable pub insert_set : String → Option String → Dict String → Dict String
unfolding insert
insert_set key none env = env
insert_set key (some v) env = insert key v env

-- for key in ALLOWLIST
unfoldable pub copy_allowed : List String → Dict String → Dict String → Dict String
unfolding lookup insert_set
copy_allowed [] src env = env
copy_allowed (key ∷ keys) src env =
    copy_allowed keys src (insert_set key (set_value (lookup key src)) env)

-- for key, value in extra.items()
unfoldable pub merge_extra : Dict String → Dict String → Dict String
unfolding insert_set
merge_extra [] env = env
merge_extra ((key, v) ∷ extra) env = merge_extra extra (insert_set key (set_value (some v)) env)

abbrev pub is_set : Option String → Bool
is_set none = false
is_set (some v) = truthy v

-- any(env.get(key) for key in REQUIRE_AT_LEAST_ONE)
unfoldable pub has_credentials : Dict String → Bool
unfolding lookup
has_credentials env =
    if is_set (lookup "ANTHROPIC_API_KEY" env) then true else is_set (lookup "OPENAI_API_KEY" env)

-- `extra` is [] for None
unfoldable pub build_subprocess_env : Dict String → Dict String → Result (Dict String)
unfolding copy_allowed merge_extra has_credentials
build_subprocess_env src extra =
    let env = merge_extra extra (copy_allowed allowlist src []) in
    if has_credentials env
    then ok env
    else raise (failure runtime_error "Pipeline subprocess cannot start")
