-- ===== src/Sandboxes/Local.antt =====
-- engine/sandbox.py: the local backend, with its cache of virtual environments.
use autonomy_engine.Base.{
  ℕ, ◌+◌, ◌*◌, String, ◌<>◌, Option, none, some, [], ◌∷◌, Bool, true, false, or_default, ltb,
  if◌then◌else◌,
}
use autonomy_engine.Base.Dict.{Dict, lookup, insert, remove, has_key}
use autonomy_engine.World.{
  Platform, World, Venv, file_exists, failure, ok, raise, Exec, pure, gets, modify, tick, ◌>>=◌,
  ◌>>◌,
}
use autonomy_engine.Context.{exists, get_state_dir}
use autonomy_engine.Sandboxes.{SandboxConfig, Sandbox, Tools, CacheUse, local, node, python}
use autonomy_engine.Sandboxes.Dirs.{is_below, any_below}

-- The file of requirements: its name, and its text.
unfoldable pub deps_file : String → World → Option (String × String)
unfolding exists lookup
deps_file workspace w =
    if exists (workspace <> "/requirements.txt") w
    then some
        ("requirements.txt", or_default "" (lookup (workspace <> "/requirements.txt") w.files))
    else if exists (workspace <> "/pyproject.toml") w
    then some ("pyproject.toml", or_default "" (lookup (workspace <> "/pyproject.toml") w.files))
    else none

-- what the hash begins with
abbrev pub deps_spec : Option (String × String) → String
deps_spec none = "no-deps"
deps_spec (some (name, text)) = name <> ":" <> text

abbrev pub put_venv : String → Option Venv → World → World
put_venv path none w = record w { venvs = remove path w.venvs }
put_venv path (some v) w = record w { venvs = insert path v w.venvs }

-- entry by entry: the environments that stay, and the number of those that count as deleted
unfoldable pub evict_from :
    (String → Bool) → String → (now ttl_seconds : ℕ) → Dict Venv → Dict Venv × ℕ
evict_from removable dir now ttl_seconds [] = ([], 0)
evict_from removable dir now ttl_seconds ((path, v) ∷ d) =
    let (kept, deleted) = evict_from removable dir now ttl_seconds d in
    if is_below dir path
    then if ltb (v.mtime + ttl_seconds) now
      then if removable path then (kept, deleted + 1) else ((path, v) ∷ kept, deleted + 1)
      else ((path, v) ∷ kept, deleted)
    else ((path, v) ∷ kept, deleted)

module _ (P : Platform) (T : Tools) where
  -- a process of the host: the number of the call
  unfoldable pub run_process : Exec ℕ
  unfolding tick
  run_process = do n ← tick; modify (λ w. record w { files = T.files_after n w.files }); pure n

  -- `_create_venv`
  unfoldable pub create_venv : String → Exec (Option String)
  unfolding run_process lookup insert remove
  create_venv workspace = do
    n ← run_process
    made ← gets (λ w. T.create_venv n (lookup (workspace <> "/.venv") w.venvs))
    modify (put_venv (workspace <> "/.venv") made.0)
    pure (if made.1 then some (workspace <> "/.venv") else none)

  -- pip install, with the python of the environment; there is none where there is no environment
  unfoldable pub pip_into : String → String → Option Venv → Exec Bool
  unfolding run_process insert
  pip_into path spec none = pure false
  pip_into path spec (some v) = do
    n ← run_process
    let done = T.pip_install n spec v in modify (put_venv path (some done.0)) >> pure done.1

  unfoldable pub install_spec : String → Option (String × String) → Exec Bool
  unfolding pip_into lookup
  install_spec venv_path none = pure false
  install_spec venv_path (some (name, text)) =
      gets (λ w. lookup venv_path w.venvs) >>= λ v. pip_into venv_path text v

  -- `_install_deps`
  unfoldable pub install_deps : String → String → Exec Bool
  unfolding install_spec deps_file
  install_deps workspace venv_path =
      gets (deps_file workspace) >>= λ spec. install_spec venv_path spec

  -- `_install_node_deps`; the directory node_modules is left out
  unfoldable pub install_node_deps : String → Exec Bool
  unfolding run_process exists
  install_node_deps workspace = do
    found ← gets (exists (workspace <> "/package.json"))
    if found then (do n ← run_process; pure (T.npm_install n)) else pure false

  -- `_compute_venv_cache_key`
  unfoldable pub compute_venv_cache_key : String → SandboxConfig → World → String
  unfolding deps_file
  compute_venv_cache_key workspace cfg w = P.sha256_hex (
      deps_spec (deps_file workspace w)
      <> ":python="
      <> T.python_version
      <> ":config="
      <> T.dump_config cfg)

  unfoldable pub get_venv_cache_dir : Exec String
  unfolding get_state_dir
  get_venv_cache_dir = do state ← get_state_dir P; pure (state <> "/sandbox_cache/venvs")

  -- shutil.copytree of an environment, to a directory that must not be there
  unfoldable pub copy_venv : Venv → String → Exec (Unit {0})
  unfolding any_below has_key insert
  copy_venv v dest w =
      if any_below dest w.files
      then (raise (failure file_exists dest), w)
      else if has_key dest w.venvs
      then (raise (failure file_exists dest), w)
      else (ok tt, record w { venvs = insert dest v w.venvs })

  -- with what the cache has
  unfoldable pub reuse : String → Option Venv → Exec (Option String)
  unfolding copy_venv
  reuse workspace none = pure none
  reuse workspace (some v) =
      if v.has_python
      then copy_venv v (workspace <> "/.venv") >> pure (some (workspace <> "/.venv"))
      else pure none

  -- `_try_reuse_venv`: the path that it returns is there on a hit only
  unfoldable pub try_reuse_venv : String → String → Exec (Option String)
  unfolding get_venv_cache_dir reuse lookup
  try_reuse_venv key workspace = do
    dir ← get_venv_cache_dir
    cached ← gets (λ w. lookup (dir <> "/" <> key) w.venvs)
    reuse workspace cached

  abbrev pub copied_of : String → Option Venv → Option Venv
  copied_of dest none = none
  copied_of dest (some v) = T.cache_copy dest v

  abbrev pub copied_to : String → Option Venv → Dict Venv → Dict Venv
  copied_to dest none d = d
  copied_to dest (some v) d = insert dest v d

  -- the cache after the copy: an entry that exists stays, and an OSError is passed over
  abbrev pub cached_from : String → Option Venv → Option Venv → Dict Venv → Dict Venv
  cached_from dest (some old) v d = d
  cached_from dest none v d = copied_to dest (copied_of dest v) d

  -- `_save_venv_to_cache`
  unfoldable pub save_venv_to_cache : String → String → Exec (Unit {0})
  unfolding get_venv_cache_dir lookup insert
  save_venv_to_cache key venv_path = do
    dir ← get_venv_cache_dir
    let dest = dir <> "/" <> key in
        modify (λ w. record w {
          venvs = cached_from dest (lookup dest w.venvs) (lookup venv_path w.venvs) w.venvs;
        })

  -- `evict_stale_venv_cache`; `now` is the time in seconds
  unfoldable pub evict_stale_venv_cache : (now ttl_days : ℕ) → Exec ℕ
  unfolding get_venv_cache_dir evict_from
  evict_stale_venv_cache now ttl_days = do
    dir ← get_venv_cache_dir
    (kept, deleted) ← gets (λ w. evict_from T.removable dir now (ttl_days * 86400) w.venvs)
    modify (λ w. record w { venvs = kept })
    pure deleted

  -- `_setup_node_sandbox`
  unfoldable pub setup_node_sandbox : String → Bool → Exec Sandbox
  unfolding install_node_deps
  setup_node_sandbox workspace install = do
    done ← if install then install_node_deps workspace else pure false
    pure (record {
      backend = local;
      workspace = workspace;
      venv_path = none;
      deps_installed = done;
      project_type = node;
      cache = none;
    })

  abbrev pub python_sandbox : String → Option String → Bool → CacheUse → Sandbox
  python_sandbox workspace venv_path deps_installed use_of_cache = record {
    backend = local;
    workspace = workspace;
    venv_path = venv_path;
    deps_installed = deps_installed;
    project_type = python;
    cache = some use_of_cache;
  }

  -- with a new environment
  unfoldable pub fresh : String → Bool → String → Option String → Exec Sandbox
  unfolding install_deps save_venv_to_cache
  fresh workspace install key none =
      pure (python_sandbox workspace none false (record { hit = false; key = key }))
  fresh workspace install key (some venv) = do
    done ← if install then install_deps workspace venv else pure false
    save_venv_to_cache key venv
    pure (python_sandbox workspace (some venv) done (record { hit = false; key = key }))

  unfoldable pub reused_or_fresh : String → Bool → String → Option String → Exec Sandbox
  unfolding create_venv fresh
  reused_or_fresh workspace install key (some venv) =
      pure (python_sandbox workspace (some venv) true (record { hit = true; key = key }))
  reused_or_fresh workspace install key none =
      create_venv workspace >>= λ venv. fresh workspace install key venv

  -- `_setup_python_sandbox`
  unfoldable pub setup_python_sandbox : String → Bool → SandboxConfig → Exec Sandbox
  unfolding compute_venv_cache_key try_reuse_venv reused_or_fresh
  setup_python_sandbox workspace install cfg = do
    key ← gets (compute_venv_cache_key workspace cfg)
    venv ← try_reuse_venv key workspace
    reused_or_fresh workspace install key venv
