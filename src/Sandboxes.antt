-- ===== src/Sandboxes.antt =====
-- engine/sandbox.py: a copy of a project with an environment of its own. Times and logging are left
-- out. The files of a directory are those whose paths begin with it.
pub mod Dirs
pub mod Local
pub mod Docker
pub mod Session
pub mod Isolated
pub mod Kept
pub mod Confined
pub mod Cached
use autonomy_engine.Base.{
  ℕ, String, ◌<>◌, Option, none, some, List, [], ◌∷◌, Bool, true, false, truthy, or_default,
  if◌then◌else◌, ◌==◌,
}
use autonomy_engine.Base.Dict.{Dict, lookup, insert, remove}
use autonomy_engine.World.{
  Platform, World, Venv, ℤ, pos, negsuc, Result, ok, raise, Exec, pure, throw, gets, modify, tick,
  ◌>>=◌, ◌>>◌,
}
use autonomy_engine.Context.{exists}
use autonomy_engine.Evidence.{Completed, exit_code_of, stdout_of, stderr_of}

-- The section `sandbox` of config.yml; a key that is not there is `none`.
pub record DockerConfig : Type 0 where
  pub python_version : Option String
  pub cpus : Option String
  pub memory : Option String
  pub image_name : Option String

pub record SandboxConfig : Type 0 where
  pub backend : Option String
  pub docker : DockerConfig

-- x or default, for a text that may be missing
unfoldable pub text_or : String → Option String → String
text_or default none = default
text_or default (some s) = if truthy s then s else default

pub data ProjectType : Type 0 where
  node python unknown : ProjectType

-- What a container is run with, besides its command.
pub record Container : Type 0 where
  pub image_tag : String
  pub image_digest : Option String
  pub py_version : String
  pub cpu_limit : String
  pub memory_limit : String
  pub image_built : Bool

pub data Backend : Type 0 where
  local : Backend
  docker : Container → Backend

-- whether the environment came from the cache, and its key
pub record CacheUse : Type 0 where
  pub hit : Bool
  pub key : String

-- A `Sandbox` or a `DockerSandbox`.
pub record Sandbox : Type 0 where
  pub backend : Backend
  pub workspace : String
  pub venv_path : Option String
  pub deps_installed : Bool
  pub project_type : ProjectType
  -- `_venv_cache_hit` and `_venv_cache_key`, where they are set
  pub cache : Option CacheUse

-- What the sandbox calls: processes are read by the number of the call. A process of the host may
-- change any text file: the scripts of an installation run as the user of the engine, and the caches
-- of pip and npm are in the state directory.
pub record Tools : Type 0 where
  -- tempfile.mkdtemp
  pub mkdtemp : ℕ → String
  pub python_version : String
  -- `json.dumps` of the section, with sorted keys
  pub dump_config : SandboxConfig → String
  -- whether `shutil.rmtree` and `unlink` can remove what is at a path
  pub removable : String → Bool
  -- the text files, as the process with that number leaves them
  pub files_after : ℕ → Dict String → Dict String
  -- what `shutil.copytree` of an environment to the cache leaves at the path; where it raises, this
  -- may be nothing, or a part
  pub cache_copy : String → Venv → Option Venv
  -- python -m venv, on what is at its path: what is there then, and whether the call succeeded
  pub create_venv : ℕ → Option Venv → Option Venv × Bool
  -- pip install, of a file of requirements: what the environment is then, and whether it succeeded
  pub pip_install : ℕ → String → Venv → Venv × Bool
  -- npm install succeeds
  pub npm_install : ℕ → Bool
  -- `node --version`, of an installed node
  pub node_version : Option String
  -- shutil.which("docker") finds a command, and `docker version` succeeds
  pub has_docker : Bool
  pub docker_version : ℕ → Bool
  -- docker build, of a Dockerfile: the id of the image, where it succeeds
  pub docker_build : ℕ → String → Option String

-- os.environ.copy() with the runtime of the sandbox; `pathsep` is ":"
unfoldable pub env : Sandbox → Dict String → Dict String
unfolding lookup insert remove
env sb environ = elim sb.backend [
  | docker c ↦ environ
  | local ↦ local_env sb.project_type sb.venv_path
]
  where
    search_path : String → Dict String → Dict String
    search_path bin d = insert "PATH" (bin <> ":" <> or_default "" (lookup "PATH" d)) d

    with_venv : Option String → Dict String
    with_venv none = environ
    with_venv (some venv) =
        remove "PYTHONHOME" (insert "VIRTUAL_ENV" venv (search_path (venv <> "/bin") environ))

    local_env : ProjectType → Option String → Dict String
    local_env node v = search_path (sb.workspace <> "/node_modules/.bin") environ
    local_env python v = with_venv v
    local_env unknown v = with_venv v

-- `detect_project_type`, of a directory
unfoldable pub detect_project_type : String → World → ProjectType
unfolding exists
detect_project_type workspace w =
    if exists (workspace <> "/package.json") w
    then node
    else if exists (workspace <> "/requirements.txt") w
    then python
    else if exists (workspace <> "/pyproject.toml") w
    then python
    else if exists (workspace <> "/setup.py") w
    then python
    else unknown
