-- ===== src/Sandboxes/Kept.antt =====
-- engine/sandbox.py, engine/sandbox_docker.py: the text files that setting up a sandbox leaves alone.
use autonomy_engine.Base.{
  ◌+◌, String, ◌<>◌, ◌≡◌, refl, ap, ℕ, ◌∙◌, Option, none, some, Bool, true, false, if◌then◌else◌,
  Bool-cases, Option-cases, inl, inr,
}
use autonomy_engine.Base.Dict.{Dict, lookup, has_key}
use autonomy_engine.World.{
  Platform, World, Venv, Result, ok, raise, Exec, pure, throw, failure, runtime_error, ◌>>=◌, ◌>>◌,
  continue,
}
use autonomy_engine.Context.{exists, ensure_found, ensure_init, get_state_dir}
use autonomy_engine.Sandboxes.{
  SandboxConfig, ProjectType, DockerConfig, text_or, Tools, node, python, unknown,
}
use autonomy_engine.Sandboxes.Dirs.{any_below}
use autonomy_engine.Sandboxes.Local.{
  put_venv, deps_file, compute_venv_cache_key, create_venv, pip_into, install_spec, install_deps,
  install_node_deps, get_venv_cache_dir, copy_venv, reuse, try_reuse_venv, save_venv_to_cache,
  fresh, reused_or_fresh, setup_node_sandbox, setup_python_sandbox,
}
use autonomy_engine.Sandboxes.Docker.{
  docker_available, record_image, build_image, build_dockerfile, compute_deps_hash, image_tag_of,
  built_or_raise, ensure_image, in_container, with_docker, setup_docker_sandbox,
}
use autonomy_engine.Sandboxes.Session.{setup_local, setup_by}

-- The text file at a path does not change.
abbrev pub KeepsFile {ℓ} : {A : Type ℓ} → String → Exec A → Type 0
KeepsFile file m = (w : World) → lookup file (m w).1.files ≡ lookup file w.files

keeps-bind {ℓ κ} :
    (file : String) {A : Type ℓ} {B : Type κ} (m : Exec A) (f : A → Exec B)
    → KeepsFile file m
    → ((a : A) → KeepsFile file (f a))
    → KeepsFile file (m >>= f)
keeps-bind file {A} m f hm hf w = go (m w).0
  where
    go : (r : Result A) → lookup file (continue r f (m w).1).1.files ≡ lookup file w.files
    go (ok a) = hf a (m w).1 ∙ hm w
    go (raise e) = hm w

-- For a text file that the processes leave as it is.
module _ (P : Platform) (T : Tools) (file : String)
    (untouched : (n : ℕ) (files : Dict String)
      → lookup file (T.files_after n files) ≡ lookup file files) where
  dir_keeps : KeepsFile file (get_venv_cache_dir P T)
  unfolding get_venv_cache_dir get_state_dir ensure_init ensure_found
  dir_keeps w = elim (Option-cases w.project_dir) [ inl e ↦ rw e | inr (d, e) ↦ rw e ]

  put_keeps : (path : String) (o : Option Venv) (w : World) → (put_venv path o w).files ≡ w.files
  put_keeps path none w = refl
  put_keeps path (some v) w = refl

  create_venv_keeps : (ws : String) → KeepsFile file (create_venv P T ws)
  unfolding create_venv
  create_venv_keeps ws w =
      ap (lookup file) (
        put_keeps (ws <> "/.venv") (T.create_venv w.ticks (lookup (ws <> "/.venv") w.venvs)).0
          (record w { ticks = w.ticks + 1; files = T.files_after w.ticks w.files }))
      ∙ untouched w.ticks w.files

  pip_keeps : (path spec : String) (o : Option Venv) → KeepsFile file (pip_into P T path spec o)
  unfolding pip_into
  pip_keeps path spec none w = refl
  pip_keeps path spec (some v) w = untouched w.ticks w.files

  install_spec_keeps :
      (path : String) (spec : Option (String × String))
      → KeepsFile file (install_spec P T path spec)
  unfolding install_spec
  install_spec_keeps path none w = refl
  install_spec_keeps path (some (name, text)) w = pip_keeps path text (lookup path w.venvs) w

  install_deps_keeps : (ws path : String) → KeepsFile file (install_deps P T ws path)
  unfolding install_deps
  install_deps_keeps ws path w = install_spec_keeps path (deps_file ws w) w

  installing_keeps :
      (install : Bool) (m : Exec Bool)
      → KeepsFile file m
      → KeepsFile file (if install then m else pure false)
  installing_keeps true m h = h
  installing_keeps false m h = λ w. refl

  node_deps_keeps : (ws : String) → KeepsFile file (install_node_deps P T ws)
  unfolding install_node_deps
  node_deps_keeps ws w = elim (Bool-cases (exists (ws <> "/package.json") w)) [
    | inl e ↦ rw e (untouched w.ticks w.files)
    | inr e ↦ rw e
  ]

  either_keeps {ℓ} :
      {A : Type ℓ} (b : Bool) (r s : Result A × World) (files : Dict String)
      → lookup file r.1.files ≡ lookup file files
      → lookup file s.1.files ≡ lookup file files
      → lookup file (if b then r else s).1.files ≡ lookup file files
  either_keeps true r s files h k = h
  either_keeps false r s files h k = k

  copy_venv_keeps : (v : Venv) (dest : String) → KeepsFile file (copy_venv P T v dest)
  unfolding copy_venv
  copy_venv_keeps v dest w =
      either_keeps (any_below dest w.files) _ _ w.files refl
        (either_keeps (has_key dest w.venvs) _ _ w.files refl refl)

  reuse_keeps : (ws : String) (o : Option Venv) → KeepsFile file (reuse P T ws o)
  unfolding reuse
  reuse_keeps ws none = λ w. refl
  reuse_keeps ws (some v) = go v.has_python
    where
      go :
          (b : Bool)
          → KeepsFile file (
              if b
              then copy_venv P T v (ws <> "/.venv") >> pure (some (ws <> "/.venv"))
              else pure none)
      go true =
          keeps-bind file (copy_venv P T v (ws <> "/.venv")) _ (copy_venv_keeps v (ws <> "/.venv"))
            (λ u w. refl)
      go false = λ w. refl

  save_keeps : (key path : String) → KeepsFile file (save_venv_to_cache P T key path)
  unfolding save_venv_to_cache
  save_keeps key path = keeps-bind file (get_venv_cache_dir P T) _ dir_keeps (λ dir w. refl)

  fresh_keeps :
      (ws : String) (install : Bool) (key : String) (o : Option String)
      → KeepsFile file (fresh P T ws install key o)
  unfolding fresh
  fresh_keeps ws install key none = λ w. refl
  fresh_keeps ws install key (some venv) =
      keeps-bind file (if install then install_deps P T ws venv else pure false) _
        (installing_keeps install _ (install_deps_keeps ws venv))
        (λ done.
          keeps-bind file (save_venv_to_cache P T key venv) _ (save_keeps key venv) (λ u w. refl))

  reused_or_fresh_keeps :
      (ws : String) (install : Bool) (key : String) (o : Option String)
      → KeepsFile file (reused_or_fresh P T ws install key o)
  unfolding reused_or_fresh
  reused_or_fresh_keeps ws install key (some venv) = λ w. refl
  reused_or_fresh_keeps ws install key none =
      keeps-bind file (create_venv P T ws) (fresh P T ws install key) (create_venv_keeps ws)
        (fresh_keeps ws install key)

  python_keeps :
      (ws : String) (install : Bool) (cfg : SandboxConfig)
      → KeepsFile file (setup_python_sandbox P T ws install cfg)
  unfolding setup_python_sandbox try_reuse_venv
  python_keeps ws install cfg w =
      let key = compute_venv_cache_key P T ws cfg w in
      keeps-bind file (try_reuse_venv P T key ws) _
        (keeps-bind file (get_venv_cache_dir P T) _ dir_keeps
          (λ dir v. reuse_keeps ws (lookup (dir <> "/" <> key) v.venvs) v))
        (reused_or_fresh_keeps ws install key) w

  record_image_keeps : (tag : String) (o : Option String) → KeepsFile file (record_image P T tag o)
  unfolding record_image
  record_image_keeps tag none w = refl
  record_image_keeps tag (some id) w = refl

  built_or_raise_keeps :
      (tag : String) (built : Bool) → KeepsFile file (built_or_raise P T tag built)
  unfolding built_or_raise
  built_or_raise_keeps tag true w = refl
  built_or_raise_keeps tag false w = refl

  build_image_keeps :
      (ws tag py_version deps_hash : String)
      → KeepsFile file (build_image P T ws tag py_version deps_hash)
  unfolding build_image
  build_image_keeps ws tag py_version deps_hash w =
      record_image_keeps tag
        (T.docker_build w.ticks (build_dockerfile (deps_file ws w) py_version deps_hash))
        (record w { ticks = w.ticks + 1 })

  ensure_image_keeps :
      (ws tag py_version deps_hash : String)
      → KeepsFile file (ensure_image P T ws tag py_version deps_hash)
  unfolding ensure_image
  ensure_image_keeps ws tag py_version deps_hash w = elim (Bool-cases (has_key tag w.images)) [
    | inl e ↦ rw e
    | inr e ↦ rw e (
        keeps-bind file (build_image P T ws tag py_version deps_hash) _
          (build_image_keeps ws tag py_version deps_hash) (built_or_raise_keeps tag) w)
  ]

  with_docker_keeps :
      (ws : String) (install : Bool) (cfg : DockerConfig)
      → KeepsFile file (with_docker P T ws install cfg)
  unfolding with_docker in_container
  with_docker_keeps ws install cfg w =
      let deps_hash = compute_deps_hash P T ws (text_or "3.11" cfg.python_version) w in
      keeps-bind file
        (ensure_image P T ws (image_tag_of P T cfg deps_hash) (text_or "3.11" cfg.python_version)
          deps_hash)
        _
        (ensure_image_keeps ws (image_tag_of P T cfg deps_hash) (text_or "3.11" cfg.python_version)
          deps_hash)
        (λ built v. refl) w

  available_keeps : KeepsFile file (docker_available P T)
  unfolding docker_available
  available_keeps w = elim (Bool-cases T.has_docker) [ inl e ↦ rw e | inr e ↦ rw e ]

  docker_keeps :
      (ws : String) (install : Bool) (cfg : DockerConfig)
      → KeepsFile file (setup_docker_sandbox P T ws install cfg)
  unfolding setup_docker_sandbox
  docker_keeps ws install cfg = keeps-bind file (docker_available P T) _ available_keeps guarded
    where
      guarded :
          (available : Bool)
          → KeepsFile file (
              if available
              then with_docker P T ws install cfg
              else throw (failure runtime_error "the Docker CLI/daemon is not available"))
      guarded true = with_docker_keeps ws install cfg
      guarded false = λ w. refl

  node_keeps : (ws : String) (install : Bool) → KeepsFile file (setup_node_sandbox P T ws install)
  unfolding setup_node_sandbox
  node_keeps ws install =
      keeps-bind file (if install then install_node_deps P T ws else pure false) _
        (installing_keeps install _ (node_deps_keeps ws)) (λ done w. refl)

  pub setup_keeps :
      (docker : Bool) (t : ProjectType) (ws : String) (install : Bool) (cfg : SandboxConfig)
      → KeepsFile file (setup_by P T docker t ws install cfg)
  unfolding setup_by setup_local
  setup_keeps true node ws install cfg = node_keeps ws install
  setup_keeps true python ws install cfg = docker_keeps ws install cfg.docker
  setup_keeps true unknown ws install cfg = docker_keeps ws install cfg.docker
  setup_keeps false node ws install cfg = node_keeps ws install
  setup_keeps false python ws install cfg = python_keeps ws install cfg
  setup_keeps false unknown ws install cfg = python_keeps ws install cfg
