-- ===== src/Sandboxes/Cached.antt =====
-- engine/sandbox.py: the environment of one run, reused in the next.
use autonomy_engine.Base.{
  ◌+◌, String, ◌<>◌, ◌≡◌, refl, sym, subst, ap, ◌∙◌, Option, none, some, Bool, true, false,
  if◌then◌else◌, ◌==◌, eq_iff, Bool-cases, inl, inr,
}
use autonomy_engine.Base.Dict.{
  lookup, insert, has_key, lookup-insert, lookup-remove, lookup-insert_self,
}
use autonomy_engine.World.{Platform, World, Venv, Result, ok, pure, continue}
use autonomy_engine.World.Returned.{bind-values, ok-injective, ok-world}
use autonomy_engine.Context.{ensure_found, ensure_init, get_state_dir}
use autonomy_engine.Sandboxes.{SandboxConfig, Sandbox, Tools}
use autonomy_engine.Sandboxes.Dirs.{any_below}
use autonomy_engine.Sandboxes.Local.{
  put_venv, deps_file, compute_venv_cache_key, get_venv_cache_dir, copied_of, copied_to,
  cached_from, create_venv, pip_into, install_spec, install_deps, copy_venv, reuse, try_reuse_venv,
  save_venv_to_cache, fresh, reused_or_fresh, python_sandbox, setup_python_sandbox,
}

module _ (P : Platform) (T : Tools) (dir : String) where
  -- the directory of the cache in the project
  abbrev pub cache_entry : String → String
  cache_entry key = ((dir <> "/state") <> "/sandbox_cache/venvs") <> "/" <> key

  -- the world, with its project directory in sight
  abbrev opened : World → World
  opened w = record w { project_dir = some dir }

  -- the world after a process
  abbrev ran : World → World
  ran w = record w { ticks = w.ticks + 1; files = T.files_after w.ticks w.files }

  opened-eq : (w : World) → w.project_dir ≡ some dir → opened w ≡ w
  opened-eq w h = ap {A = Option String} (λ d. record w { project_dir = d }) (sym h)

  module _ (dest : String) where
    put_venv-lookup :
        (path : String) (o : Option Venv) (w : World)
        → (path == dest) ≡ false
        → lookup dest (put_venv path o w).venvs ≡ lookup dest w.venvs
    put_venv-lookup path none w h =
        lookup-remove dest path w.venvs ∙ ap (λ b. if b then none else lookup dest w.venvs) h
    put_venv-lookup path (some v) w h =
        lookup-insert dest path v w.venvs ∙ ap (λ b. if b then some v else lookup dest w.venvs) h

    install_spec-lookup :
        (path : String) (spec : Option (String × String)) (w : World)
        → (path == dest) ≡ false
        → lookup dest (install_spec P T path spec w).1.venvs ≡ lookup dest w.venvs
    unfolding install_spec
    install_spec-lookup path none w h = refl
    install_spec-lookup path (some (name, text)) w h = go (lookup path w.venvs)
      where
        go :
            (o : Option Venv)
            → lookup dest (pip_into P T path text o w).1.venvs ≡ lookup dest w.venvs
        go none = refl
        go (some v) = put_venv-lookup path (some (T.pip_install w.ticks text v).0) (ran w) h

    install_deps-lookup :
        (install : Bool) (ws path : String) (w : World)
        → (path == dest) ≡ false
        → lookup dest ((if install then install_deps P T ws path else pure false) w).1.venvs
          ≡ lookup dest w.venvs
    unfolding install_deps
    install_deps-lookup true ws path w h = install_spec-lookup path (deps_file ws w) w h
    install_deps-lookup false ws path w h = refl

  put_venv-dir :
      (path : String) (o : Option Venv) (w : World)
      → (put_venv path o w).project_dir ≡ w.project_dir
  put_venv-dir path none w = refl
  put_venv-dir path (some v) w = refl

  install_spec-dir :
      (path : String) (spec : Option (String × String)) (w : World)
      → (install_spec P T path spec w).1.project_dir ≡ w.project_dir
  unfolding install_spec
  install_spec-dir path none w = refl
  install_spec-dir path (some (name, text)) w = go (lookup path w.venvs)
    where
      go : (o : Option Venv) → (pip_into P T path text o w).1.project_dir ≡ w.project_dir
      go none = refl
      go (some v) = refl

  install_deps-dir :
      (install : Bool) (ws path : String) (w : World)
      → ((if install then install_deps P T ws path else pure false) w).1.project_dir ≡ w.project_dir
  unfolding install_deps
  install_deps-dir true ws path w = install_spec-dir path (deps_file ws w) w
  install_deps-dir false ws path w = refl

  swapped : (s t : String) → (s == t) ≡ false → (t == s) ≡ false
  swapped s t h = elim (Bool-cases (t == s)) [
    | inl same ↦
        let e = (eq_iff t s).0 same in let differ = sym h ∙ (eq_iff s t).1 (sym e) in absurd (cc)
    | inr differ ↦ differ
  ]

  -- After an environment is saved where nothing was, the cache has what is at its path.
  saved-lookup :
      (key venv : String) (w : World)
      → w.project_dir ≡ some dir
      → lookup (cache_entry key) w.venvs ≡ none
      → (cache_entry key == venv) ≡ false
      → let after = (save_venv_to_cache P T key venv w).1 in
        lookup (cache_entry key) after.venvs
        ≡ copied_of P T (cache_entry key) (lookup venv after.venvs)
  unfolding save_venv_to_cache get_venv_cache_dir get_state_dir ensure_init ensure_found
  saved-lookup key venv w h absent apart =
      subst
        (λ x.
          let after = (save_venv_to_cache P T key venv x).1 in
          lookup (cache_entry key) after.venvs
          ≡ copied_of P T (cache_entry key) (lookup venv after.venvs))
        (opened-eq w h)
        (subst
          (λ p.
            let d = cached_from P T (cache_entry key) p (lookup venv w.venvs) w.venvs in
            lookup (cache_entry key) d ≡ copied_of P T (cache_entry key) (lookup venv d))
          (sym absent) (go (lookup venv w.venvs) refl))
    where
      made :
          (v : Venv)
          → lookup venv w.venvs ≡ some v
          → (c : Option Venv) → T.cache_copy (cache_entry key) v ≡ c
          → let d = copied_to P T (cache_entry key) c w.venvs in
            lookup (cache_entry key) d ≡ copied_of P T (cache_entry key) (lookup venv d)
      made v e none q = absent ∙ sym (ap (copied_of P T (cache_entry key)) e ∙ q)
      made v e (some c) q =
          lookup-insert_self (cache_entry key) c w.venvs
          ∙ sym q
          ∙ sym (
              ap (copied_of P T (cache_entry key)) (
                lookup-insert venv (cache_entry key) c w.venvs
                ∙ ap (λ b. if b then some c else lookup venv w.venvs) apart
                ∙ e))

      go :
          (o : Option Venv)
          → lookup venv w.venvs ≡ o
          → let d = cached_from P T (cache_entry key) none o w.venvs in
            lookup (cache_entry key) d ≡ copied_of P T (cache_entry key) (lookup venv d)
      go none e = absent ∙ sym (ap (copied_of P T (cache_entry key)) e)
      go (some v) e = made v e (T.cache_copy (cache_entry key) v) refl

  try_reuse-eq :
      (key ws : String) (w : World)
      → w.project_dir ≡ some dir
      → try_reuse_venv P T key ws w ≡ reuse P T ws (lookup (cache_entry key) w.venvs) w
  unfolding try_reuse_venv get_venv_cache_dir get_state_dir ensure_init ensure_found
  try_reuse-eq key ws w h =
      subst (λ x. try_reuse_venv P T key ws x ≡ reuse P T ws (lookup (cache_entry key) x.venvs) x)
        (opened-eq w h) refl

  abbrev with_venv : String → Venv → World → World
  with_venv ws v w = record w { venvs = insert (ws <> "/.venv") v w.venvs }

  reuse-eq :
      (ws : String) (w : World) (v : Venv)
      → v.has_python ≡ true
      → any_below (ws <> "/.venv") w.files ≡ false
      → has_key (ws <> "/.venv") w.venvs ≡ false
      → reuse P T ws (some v) w ≡ (ok (some (ws <> "/.venv")), with_venv ws v w)
  unfolding reuse copy_venv
  reuse-eq ws w v has clear free = rw (has, clear, free) refl

  -- A cached environment is used, whatever its making has left out.
  hit-setup :
      (ws : String) (install : Bool) (cfg : SandboxConfig) (w : World) (v : Venv)
      → w.project_dir ≡ some dir
      → lookup (cache_entry (compute_venv_cache_key P T ws cfg w)) w.venvs ≡ some v
      → v.has_python ≡ true
      → any_below (ws <> "/.venv") w.files ≡ false
      → has_key (ws <> "/.venv") w.venvs ≡ false
      → setup_python_sandbox P T ws install cfg w ≡ (
        ok (
            python_sandbox P T ws
              (some (ws <> "/.venv"))
              true
              (record { hit = true; key = compute_venv_cache_key P T ws cfg w })),
        with_venv ws v w,
      )
  unfolding setup_python_sandbox reused_or_fresh
  hit-setup ws install cfg w v h cached has clear free =
      let key = compute_venv_cache_key P T ws cfg w in
      ap
        (λ (p : Result (Option String) × World).
          continue p.0 (reused_or_fresh P T ws install key) p.1)
        (try_reuse-eq key ws w h
          ∙ ap (λ o. reuse P T ws o w) cached
          ∙ reuse-eq ws w v has clear free)

  -- A sandbox that was made and not reused leaves its environment in the cache.
  fresh-lookup :
      (ws key : String) (install : Bool) (w w' : World) (sb : Sandbox) (venv : String)
      → fresh P T ws install key (some venv) w ≡ (ok sb, w')
      → (venv == cache_entry key) ≡ false
      → lookup (cache_entry key) w.venvs ≡ none
      → w.project_dir ≡ some dir
      → lookup (cache_entry key) w'.venvs ≡ copied_of P T (cache_entry key) (lookup venv w'.venvs)
  unfolding fresh
  fresh-lookup ws key install w w' sb venv h apart absent d =
      let m = if install then install_deps P T ws venv else pure false in
      let w1 = (m w).1 in
      let (done, i, h1) = bind-values m _ w h in
      let (u, s, h2) = bind-values (save_venv_to_cache P T key venv) _ w1 h1 in
      subst
        (λ x.
          lookup (cache_entry key) x.venvs ≡ copied_of P T (cache_entry key) (lookup venv x.venvs))
        (ok-world h2)
        (saved-lookup key venv w1 (install_deps-dir install ws venv w ∙ d)
          (install_deps-lookup (cache_entry key) install ws venv w apart ∙ absent)
          (swapped venv (cache_entry key) apart))

  fresh-none :
      (ws key : String) (install : Bool) (w w' : World) (sb : Sandbox)
      → fresh P T ws install key none w ≡ (ok sb, w')
      → sb.venv_path ≡ none
  unfolding fresh
  fresh-none ws key install w w' sb h = ap (λ s. s.venv_path) (sym (ok-injective h))

  -- What one run has made is in the cache of the next.
  miss-lookup :
      (ws : String) (install : Bool) (cfg : SandboxConfig) (w w' : World) (sb : Sandbox)
      (path : String)
      → let key = compute_venv_cache_key P T ws cfg w in
        w.project_dir ≡ some dir
        → lookup (cache_entry key) w.venvs ≡ none
        → (ws <> "/.venv" == cache_entry key) ≡ false
        → setup_python_sandbox P T ws install cfg w ≡ (ok sb, w')
        → sb.venv_path ≡ some path
        → lookup (cache_entry key) w'.venvs
          ≡ copied_of P T (cache_entry key) (lookup (ws <> "/.venv") w'.venvs)
  unfolding setup_python_sandbox reused_or_fresh create_venv
  miss-lookup ws install cfg w w' sb path d absent apart h made =
      go result.1 (sym (ap run start) ∙ h)
    where
      key : String
      key = compute_venv_cache_key P T ws cfg w

      venv : String
      venv = ws <> "/.venv"

      result : Option Venv × Bool
      result = T.create_venv w.ticks (lookup venv w.venvs)

      ticked : World
      ticked = ran w

      run : Result (Option String) × World → Result Sandbox × World
      run p = continue p.0 (reused_or_fresh P T ws install key) p.1

      start : try_reuse_venv P T key ws w ≡ (ok none, w)
      start = try_reuse-eq key ws w d ∙ ap (λ o. reuse P T ws o w) absent

      go :
          (succeeded : Bool)
          → fresh P T ws install key
              (if succeeded then some venv else none)
              (put_venv venv result.0 ticked)
            ≡ (ok sb, w')
          → lookup (cache_entry key) w'.venvs
            ≡ copied_of P T (cache_entry key) (lookup venv w'.venvs)
      go true e =
          fresh-lookup ws key install (put_venv venv result.0 ticked) w' sb venv e apart
            (put_venv-lookup (cache_entry key) venv result.0 ticked apart ∙ absent)
            (put_venv-dir venv result.0 ticked ∙ d)
      go false e =
          let none_made = fresh-none ws key install (put_venv venv result.0 ticked) w' sb e in
          let clash = sym made ∙ none_made in absurd (cc)

  -- When a Python sandbox was set up in a project, with an environment that could be copied
  -- whole and where the cache had none for its key, then the next one with the same key, in a
  -- workspace that has no environment, makes none: it gets a copy of that of the first
  -- workspace, which has a python, and reports its dependencies as installed, whether or not
  -- they were to be installed and whether or not the first installation succeeded.
  pub next_sandbox_reuses :
      (ws ws' : String) (install install' : Bool) (cfg : SandboxConfig) (w w' : World)
      (sb : Sandbox) (path : String) (v : Venv)
      → w.project_dir ≡ some dir
      → lookup (cache_entry (compute_venv_cache_key P T ws cfg w)) w.venvs ≡ none
      → (ws <> "/.venv" == cache_entry (compute_venv_cache_key P T ws cfg w)) ≡ false
      → setup_python_sandbox P T ws install cfg w ≡ (ok sb, w')
      → sb.venv_path ≡ some path
      → w'.project_dir ≡ some dir
      → compute_venv_cache_key P T ws' cfg w' ≡ compute_venv_cache_key P T ws cfg w
      → lookup (ws <> "/.venv") w'.venvs ≡ some v
      → T.cache_copy (cache_entry (compute_venv_cache_key P T ws cfg w)) v ≡ some v
      → v.has_python ≡ true
      → any_below (ws' <> "/.venv") w'.files ≡ false
      → has_key (ws' <> "/.venv") w'.venvs ≡ false
      → setup_python_sandbox P T ws' install' cfg w' ≡ (
        ok (
            python_sandbox P T ws'
              (some (ws' <> "/.venv"))
              true
              (record { hit = true; key = compute_venv_cache_key P T ws' cfg w' })),
        record w' { venvs = insert (ws' <> "/.venv") v w'.venvs },
      )
  next_sandbox_reuses ws ws' install install' cfg w w' sb path v d absent apart h made d' same there
        whole has clear free =
      hit-setup ws' install' cfg w' v d'
        (ap (λ key. lookup (cache_entry key) w'.venvs) same
          ∙ miss-lookup ws install cfg w w' sb path d absent apart h made
          ∙ ap (copied_of P T (cache_entry (compute_venv_cache_key P T ws cfg w))) there
          ∙ whole)
        has clear free
