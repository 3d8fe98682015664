-- ===== src/Sandboxes/Docker.antt =====
-- engine/sandbox_docker.py: a sandbox whose commands run in containers. Permissions of files are left out.
use Prim.Native.String.{slice}
use autonomy_engine.Base.{
  String, ◌<>◌, Option, none, some, List, [], ◌∷◌, Bool, true, false, if◌then◌else◌, ◌==◌,
}
use autonomy_engine.Base.Dict.{lookup, insert, has_key}
use autonomy_engine.World.{
  Platform, World, runtime_error, failure, ok, Exec, pure, throw, gets, modify, tick, ◌>>=◌, ◌>>◌,
}
use autonomy_engine.Sandboxes.{DockerConfig, Container, Sandbox, Tools, docker, python, text_or}
use autonomy_engine.Sandboxes.Local.{deps_file, deps_spec}

-- the step of the Dockerfile that installs the requirements
abbrev pub deps_step : Option (String × String) → String
deps_step none = "# (no requirements.txt or pyproject.toml — skipping deps install)"
deps_step (some (name, text)) =
    if name == "requirements.txt"
    then "COPY requirements.txt /tmp/requirements.txt\nRUN pip install --no-cache-dir --disable-pip-version-check -r /tmp/requirements.txt"
    else "COPY pyproject.toml /tmp/pyproject.toml\nRUN pip install --no-cache-dir --disable-pip-version-check /tmp"

-- `_build_dockerfile`
unfoldable pub build_dockerfile :
    Option (String × String) → (py_version deps_hash : String) → String
build_dockerfile spec py_version deps_hash =
    "# syntax=docker/dockerfile:1\nFROM python:"
    <> py_version
    <> "-slim\n\nLABEL autonomy-engine-sandbox=true\nLABEL autonomy-engine-deps-hash="
    <> deps_hash
    <> "\n\nRUN groupadd --gid 1000 sandbox \\\n && useradd --uid 1000 --gid 1000 --shell /bin/bash --create-home sandbox\n\nWORKDIR /workspace\n\n# Common dev tools the auto-detected checks invoke.  Installing them at\n# image-build time means the check container itself does not need network.\nRUN pip install --no-cache-dir --disable-pip-version-check \\\n    ruff==0.6.9 mypy==1.11.2 pytest==8.3.3\n\n"
    <> deps_step spec
    <> "\n\nUSER sandbox\n"

-- the argv of `DockerSandbox.run`
unfoldable pub docker_argv : String → Container → String → List String
docker_argv workspace c command =
    "docker"
    ∷ "run"
    ∷ "--rm"
    ∷ "--network"
    ∷ "none"
    ∷ "--read-only"
    ∷ "--tmpfs"
    ∷ "/tmp:rw,exec,size=512m"
    ∷ "--user"
    ∷ "1000"
    ∷ "--cpus"
    ∷ c.cpu_limit
    ∷ "--memory"
    ∷ c.memory_limit
    ∷ "--memory-swap"
    ∷ c.memory_limit
    ∷ "--workdir"
    ∷ "/workspace"
    ∷ "-v"
    ∷ (workspace <> ":/workspace:rw")
    ∷ c.image_tag
    ∷ "bash"
    ∷ "-c"
    ∷ command
    ∷ []

module _ (P : Platform) (T : Tools) where
  -- `_docker_available`
  unfoldable pub docker_available : Exec Bool
  unfolding tick
  docker_available = if T.has_docker then (do n ← tick; pure (T.docker_version n)) else pure false

  -- `_compute_deps_hash`; the digest is ASCII
  unfoldable pub compute_deps_hash : String → String → World → String
  unfolding deps_file
  compute_deps_hash workspace py_version w =
      slice (P.sha256_hex (deps_spec (deps_file workspace w) <> ":python=" <> py_version)) 0 12

  unfoldable pub record_image : String → Option String → Exec Bool
  unfolding insert
  record_image tag none = pure false
  record_image tag (some id) = do
    modify (λ w. record w { images = insert tag id w.images })
    pure true

  -- `_build_image`
  unfoldable pub build_image : String → String → (py_version deps_hash : String) → Exec Bool
  unfolding tick deps_file build_dockerfile record_image
  build_image workspace tag py_version deps_hash = do
    spec ← gets (deps_file workspace)
    n ← tick
    record_image tag (T.docker_build n (build_dockerfile spec py_version deps_hash))

  unfoldable pub built_or_raise : String → Bool → Exec Bool
  built_or_raise tag built =
      if built
      then pure true
      else throw (failure runtime_error ("Docker image build failed for tag " <> tag))

  -- image_built_this_run, once the image is there
  unfoldable pub ensure_image : String → String → (py_version deps_hash : String) → Exec Bool
  unfolding build_image built_or_raise has_key
  ensure_image workspace tag py_version deps_hash w =
      if has_key tag w.images
      then (ok false, w)
      else (build_image workspace tag py_version deps_hash >>= built_or_raise tag) w

  abbrev pub has_spec : Option (String × String) → Bool
  has_spec none = false
  has_spec (some s) = true

  abbrev pub docker_sandbox : String → Bool → Container → String → Sandbox
  docker_sandbox workspace deps_installed c key = record {
    backend = docker c;
    workspace = workspace;
    venv_path = none;
    deps_installed = deps_installed;
    project_type = python;
    cache = some (record { hit = if c.image_built then false else true; key = key });
  }

  abbrev pub image_tag_of : DockerConfig → String → String
  unfolding text_or
  image_tag_of cfg deps_hash =
      text_or "autonomy-sandbox" cfg.image_name
      <> ":py"
      <> text_or "3.11" cfg.python_version
      <> "-"
      <> deps_hash

  -- with the image
  unfoldable pub in_container : String → Bool → DockerConfig → String → Bool → Exec Sandbox
  unfolding deps_file lookup text_or
  in_container workspace install cfg deps_hash built = do
    digest ← gets (λ w. lookup (image_tag_of cfg deps_hash) w.images)
    spec ← gets (deps_file workspace)
    pure (
        docker_sandbox workspace (if has_spec spec then install else false)
          (record {
            image_tag = image_tag_of cfg deps_hash;
            image_digest = digest;
            py_version = text_or "3.11" cfg.python_version;
            cpu_limit = text_or "2.0" cfg.cpus;
            memory_limit = text_or "2g" cfg.memory;
            image_built = built;
          })
          deps_hash)

  unfoldable pub with_docker : String → Bool → DockerConfig → Exec Sandbox
  unfolding compute_deps_hash ensure_image in_container text_or
  with_docker workspace install cfg = do
    deps_hash ← gets (compute_deps_hash workspace (text_or "3.11" cfg.python_version))
    built ←
        ensure_image workspace (image_tag_of cfg deps_hash) (text_or "3.11" cfg.python_version)
          deps_hash
    in_container workspace install cfg deps_hash built

  -- `setup_docker_sandbox`
  unfoldable pub setup_docker_sandbox : String → Bool → DockerConfig → Exec Sandbox
  unfolding docker_available with_docker
  setup_docker_sandbox workspace install cfg = do
    available ← docker_available
    if available
        then with_docker workspace install cfg
        else throw (failure runtime_error "the Docker CLI/daemon is not available")
