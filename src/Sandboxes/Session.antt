-- ===== src/Sandboxes/Session.antt =====
-- engine/sandbox.py, create_sandbox: the life of a sandbox, and what is run in it.
use autonomy_engine.Base.{
  ◌+◌, String, ◌<>◌, Option, none, some, List, [], ◌∷◌, Bool, true, false, if◌then◌else◌, ◌==◌,
  ◌++◌, truthy,
}
use autonomy_engine.Base.Dict.{Dict}
use autonomy_engine.World.Json.{Json, bool, str, arr, of_texts, of_option}
use autonomy_engine.World.{Platform, World, ℤ, Result, Exec, gets, tick, ◌>>=◌, ◌>>◌}
use autonomy_engine.Evidence.{Completed, exit_code_of, stdout_of}
use autonomy_engine.Sandboxes.{
  SandboxConfig, Sandbox, Tools, Backend, CacheUse, local, docker, ProjectType, node, python,
  unknown, text_or, env, detect_project_type,
}
use autonomy_engine.Sandboxes.Dirs.{copy_project, rmtree}
use autonomy_engine.Sandboxes.Local.{setup_node_sandbox, setup_python_sandbox}
use autonomy_engine.Sandboxes.Docker.{docker_argv, setup_docker_sandbox}

-- What `subprocess.run` is called with: a command line for the shell of the host, with a directory
-- and an environment, or an argv.
pub data Invocation : Type 0 where
  host_shell : String → String → Dict String → Invocation
  process : List String → Invocation

-- the call of `Sandbox.run` and of `DockerSandbox.run`
unfoldable pub invocation : Sandbox → String → Dict String → Invocation
unfolding env docker_argv
invocation sb command environ = elim sb.backend [
  | local ↦ host_shell command sb.workspace (env sb environ)
  | docker c ↦ process (docker_argv sb.workspace c command)
]

-- What a run returns, but for the times.
pub record Outcome : Type 0 where
  pub exit_code : ℤ
  pub stdout : String
  pub stderr : String

-- the text of a failure to start
abbrev pub os_error_text : Backend → String → String
os_error_text local e = "Failed to execute command: " <> e
os_error_text (docker c) e = "Failed to execute docker run: " <> e

-- `limit` is the text of the number of seconds
abbrev pub error_text : Backend → String → String → Completed → String
error_text b command limit (Completed.returned code out err) = err
error_text b command limit (Completed.timed_out out) =
    "Command timed out after " <> limit <> " seconds: " <> command
error_text b command limit (Completed.os_error e) = os_error_text b e

-- `run`, for what `subprocess.run` does with an invocation
unfoldable pub run : (Invocation → Completed) → Sandbox → String → String → Dict String → Outcome
unfolding invocation
run process_of sb command limit environ =
    let done = process_of (invocation sb command environ) in
    record {
      exit_code = exit_code_of done;
      stdout = stdout_of done;
      stderr = error_text sb.backend command limit done;
    }

abbrev pub type_name : ProjectType → String
type_name node = "node"
type_name python = "python"
type_name unknown = "unknown"

-- `collect_host_metadata`
unfoldable pub collect_host_metadata : (python_version platform : String) → Dict Json
collect_host_metadata python_version platform =
    ("sandboxed", bool false)
    ∷ ("python_version", str python_version)
    ∷ ("platform", str platform)
    ∷ []

-- what `metadata` adds by the type of the project
abbrev pub runtime_fields : Sandbox → Tools → Dict Json
runtime_fields sb T = elim sb.project_type [
  | node ↦ node_fields T.node_version
  | python ↦ python_fields
  | unknown ↦ python_fields
]
  where
    node_fields : Option String → Dict Json
    node_fields none = []
    node_fields (some v) = if truthy v then ("node_version", str v) ∷ [] else []

    python_fields : Dict Json
    python_fields = ("python_version", str T.python_version) ∷ ("venv", of_option sb.venv_path) ∷ []

-- without the times
abbrev pub cache_fields : Option CacheUse → Dict Json
cache_fields none = []
cache_fields (some c) = ("venv_cache_hit", bool c.hit) ∷ ("venv_cache_key", str c.key) ∷ []

-- what `DockerSandbox.metadata` adds; the time is left out
abbrev pub container_fields : Backend → Dict Json
container_fields local = []
container_fields (docker c) =
    ("image_tag", str c.image_tag)
    ∷ ("image_digest", of_option c.image_digest)
    ∷ ("py_version", str c.py_version)
    ∷ (
      "isolation_flags",
      arr (
          of_texts (
            "--network=none"
            ∷ "--read-only"
            ∷ "--tmpfs=/tmp"
            ∷ "--user=1000"
            ∷ ("--cpus=" <> c.cpu_limit)
            ∷ ("--memory=" <> c.memory_limit)
            ∷ [])),
    )
    ∷ ("mount_mode", str "bind-rw")
    ∷ ("image_built_this_run", bool c.image_built)
    ∷ []

abbrev pub backend_text : Backend → String
backend_text local = "local"
backend_text (docker c) = "docker"

-- `metadata`, on a platform with this text
unfoldable pub metadata : Tools → String → Sandbox → Dict Json
metadata T platform sb =
    ("sandboxed", bool true)
    ∷ ("backend", str (backend_text sb.backend))
    ∷ ("workspace", str sb.workspace)
    ∷ ("project_type", str (type_name sb.project_type))
    ∷ ("platform", str platform)
    ∷ ("deps_installed", bool sb.deps_installed)
    ∷ (runtime_fields sb T ++ cache_fields sb.cache ++ container_fields sb.backend)

module _ (P : Platform) (T : Tools) where
  -- (cfg.get("backend") or "local").lower()
  abbrev pub backend_name : SandboxConfig → String
  unfolding text_or
  backend_name cfg = P.lower (text_or "local" cfg.backend)

  unfoldable pub setup_local : ProjectType → String → Bool → SandboxConfig → Exec Sandbox
  unfolding setup_node_sandbox setup_python_sandbox
  setup_local node workspace install cfg = setup_node_sandbox P T workspace install
  setup_local python workspace install cfg = setup_python_sandbox P T workspace install cfg
  setup_local unknown workspace install cfg = setup_python_sandbox P T workspace install cfg

  -- by the backend and the type of the project
  unfoldable pub setup_by : Bool → ProjectType → String → Bool → SandboxConfig → Exec Sandbox
  unfolding setup_local setup_docker_sandbox
  setup_by true node workspace install cfg = setup_local node workspace install cfg
  setup_by true python workspace install cfg = setup_docker_sandbox P T workspace install cfg.docker
  setup_by true unknown workspace install cfg =
      setup_docker_sandbox P T workspace install cfg.docker
  setup_by false t workspace install cfg = setup_local t workspace install cfg

  -- the sandbox that is yielded
  unfoldable pub setup_sandbox : String → String → Bool → SandboxConfig → Exec Sandbox
  unfolding copy_project detect_project_type setup_by
  setup_sandbox project workspace install cfg = do
    copy_project project workspace
    t ← gets (detect_project_type workspace)
    setup_by (backend_name cfg == "docker") t workspace install cfg

  abbrev removed {ℓ} : {A : Type ℓ} → String → Result A × World → Result A × World
  removed tmpdir (r, w) = (r, rmtree T.removable tmpdir w)

  -- `create_sandbox`, around the block of the `with`
  unfoldable pub create_sandbox {ℓ} :
      {A : Type ℓ} → String → Bool → SandboxConfig → (Sandbox → Exec A) → Exec A
  unfolding setup_sandbox rmtree tick
  create_sandbox project install cfg body w =
      let tmpdir = T.mkdtemp w.ticks in
      removed tmpdir (
        (setup_sandbox project (tmpdir <> "/project") install cfg >>= body)
          (record w { ticks = w.ticks + 1 }))
