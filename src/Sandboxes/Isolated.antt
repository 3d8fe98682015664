-- ===== src/Sandboxes/Isolated.antt =====
-- engine/sandbox_docker.py: a command of a Docker sandbox runs in an isolated container.
use autonomy_engine.Base.{
  ◌+◌, String, ◌<>◌, ◌≡◌, refl, sym, subst, ap, ◌∙◌, ◌≢◌, Option, none, some, List, [], ◌∷◌, Bool,
  true, false, contains, starts_with, if◌then◌else◌, ◌==◌, Bool-cases, inl, inr, eq_iff, ◌⊎◌,
  truthy,
}
use autonomy_engine.Base.Dict.{Dict, has_key, lookup-insert_self}
use autonomy_engine.World.{Platform, World, ok, pure, ◌>>=◌}
use autonomy_engine.World.Returned.{bind-values, ok-injective, ok-world, guard-ok}
use autonomy_engine.Sandboxes.{
  SandboxConfig, ProjectType, DockerConfig, Container, Sandbox, Tools, docker, node, python,
  unknown, text_or, detect_project_type,
}
use autonomy_engine.Sandboxes.Dirs.{copy_project}
use autonomy_engine.Sandboxes.Local.{deps_file}
use autonomy_engine.Sandboxes.Docker.{
  docker_argv, docker_available, compute_deps_hash, build_image, built_or_raise, build_dockerfile,
  ensure_image, record_image, with_docker, in_container, image_tag_of, setup_docker_sandbox,
}
use autonomy_engine.Sandboxes.Session.{
  Invocation, process, invocation, backend_name, setup_by, setup_sandbox,
}

-- A call of `docker run`, as the command line of Docker is documented: options that have a value
-- and options that have none come before the image, and the command comes after it.
pub record RunRequest : Type 0 where
  pub switches : List String
  pub options : Dict String
  pub image : String
  pub command : List String

-- the options that have no value, of those that are used
abbrev is_switch : String → Bool
is_switch word = contains word ("--rm" ∷ "--read-only" ∷ "--privileged" ∷ "--init" ∷ [])

abbrev with_switch : String → Option RunRequest → Option RunRequest
with_switch word none = none
with_switch word (some r) = some (record r { switches = word ∷ r.switches })

abbrev with_option : String → String → Option RunRequest → Option RunRequest
with_option word value none = none
with_option word value (some r) = some (record r { options = (word, value) ∷ r.options })

-- the words after `docker run`
parse_words : List String → Option RunRequest
parse_words [] = none
parse_words (word ∷ []) =
    if starts_with word "-"
    then none
    else some (record { switches = []; options = []; image = word; command = [] })
parse_words (word ∷ value ∷ words) =
    let after_switch = parse_words (value ∷ words) in
    let after_option = parse_words words in
    if is_switch word
    then with_switch word after_switch
    else if starts_with word "-"
    then with_option word value after_option
    else some (record { switches = []; options = []; image = word; command = value ∷ words })

unfoldable pub parse_docker_run : Invocation → Option RunRequest
unfolding parse_words
parse_docker_run (process (program ∷ verb ∷ words)) =
    if program == "docker" then if verb == "run" then parse_words words else none else none
parse_docker_run _ = none

-- The request that a container with these limits makes for a command: no network, a root file
-- system that is read-only, a user that is not root, and limits for processor and memory.
abbrev pub isolated_request : Container → String → String → RunRequest
isolated_request c workspace command = record {
  switches = "--rm" ∷ "--read-only" ∷ [];
  options =
      ("--network", "none")
      ∷ ("--tmpfs", "/tmp:rw,exec,size=512m")
      ∷ ("--user", "1000")
      ∷ ("--cpus", c.cpu_limit)
      ∷ ("--memory", c.memory_limit)
      ∷ ("--memory-swap", c.memory_limit)
      ∷ ("--workdir", "/workspace")
      ∷ ("-v", workspace <> ":/workspace:rw")
      ∷ [];
  image = c.image_tag;
  command = "bash" ∷ "-c" ∷ command ∷ [];
}

differs :
    (option word : String)
    → starts_with option "-" ≡ true
    → starts_with word "-" ≡ false
    → (option == word) ≡ false
differs option word h k = elim (Bool-cases (option == word)) [
  | inl same ↦
      let e = (eq_iff option word).0 same in
      let contradiction = sym h ∙ ap (λ s. starts_with s "-") e ∙ k in absurd (cc)
  | inr differ ↦ differ
]

-- a word that is no option is no switch
not_switch : (word : String) → starts_with word "-" ≡ false → is_switch word ≡ false
not_switch word h =
    rw
      (
        differs "--rm" word refl h,
        differs "--read-only" word refl h,
        differs "--privileged" word refl h,
        differs "--init" word refl h,
      )
      refl

pub parse-docker_argv :
    (c : Container) (workspace command : String)
    → starts_with c.image_tag "-" ≡ false
    → parse_docker_run (process (docker_argv workspace c command))
      ≡ some (isolated_request c workspace command)
unfolding parse_docker_run parse_words docker_argv
parse-docker_argv c workspace command h = rw (not_switch c.image_tag h, h) refl

-- A limit is the text of the configuration, or the default where there is none or an empty one.
abbrev pub IsLimit : String → Option String → String → Type 0
IsLimit default none limit = limit ≡ default
IsLimit default (some s) limit =
    ((truthy s ≡ true) × (limit ≡ s)) ⊎ ((truthy s ≡ false) × (limit ≡ default))

text_or-IsLimit : (default : String) (o : Option String) → IsLimit default o (text_or default o)
unfolding text_or
text_or-IsLimit default none = refl
text_or-IsLimit default (some s) = elim (Bool-cases (truthy s)) [
  | inl t ↦ rw t (inl (refl, refl))
  | inr f ↦ rw f (inr (refl, refl))
]

module _ (P : Platform) (T : Tools) where
  -- What a sandbox must be for the claim of isolation.
  unfoldable pub IsContained : DockerConfig → String → Sandbox → World → Type 0
  unfolding has_key
  IsContained cfg workspace sb w =
      (c : Container) × (sb.backend ≡ docker c)
      × (has_key c.image_tag w.images ≡ true)
      × IsLimit "2.0" cfg.cpus c.cpu_limit
      × IsLimit "2g" cfg.memory c.memory_limit
      × (sb.workspace ≡ workspace)

  record_image-has :
      (tag : String) (o : Option String) (w w' : World)
      → record_image P T tag o w ≡ (ok true, w')
      → has_key tag w'.images ≡ true
  unfolding record_image has_key
  record_image-has tag none w w' h = cc h
  record_image-has tag (some id) w w' h =
      subst (λ v. has_key tag v.images ≡ true) (ok-world h)
        (rw (lookup-insert_self tag id w.images, has_key) refl)

  build_image-has :
      (workspace tag py_version deps_hash : String) (w w' : World) (built : Bool)
      → (build_image P T workspace tag py_version deps_hash >>= built_or_raise P T tag) w
        ≡ (ok built, w')
      → has_key tag w'.images ≡ true
  unfolding build_image built_or_raise
  build_image-has workspace tag py_version deps_hash w w' built h =
      let (made, m, h1) =
        bind-values (build_image P T workspace tag py_version deps_hash) (built_or_raise P T tag) w
          h in
      let w1 = (build_image P T workspace tag py_version deps_hash w).1 in
      let (succeeded, h2) = guard-ok made (pure true) _ w1 h1 in
      let spec = deps_file workspace w in
      let answer = T.docker_build w.ticks (build_dockerfile spec py_version deps_hash) in
      let made_true = m ∙ ap (λ b. (ok b, w1)) succeeded in
      subst (λ v. has_key tag v.images ≡ true) (ok-world h2)
        (record_image-has tag answer (record w { ticks = w.ticks + 1 }) w1 made_true)

  ensure_image-has :
      (workspace tag py_version deps_hash : String) (w w' : World) (built : Bool)
      → ensure_image P T workspace tag py_version deps_hash w ≡ (ok built, w')
      → has_key tag w'.images ≡ true
  unfolding ensure_image
  ensure_image-has workspace tag py_version deps_hash w w' built h =
      go (has_key tag w.images) refl h
    where
      go :
          (found : Bool)
          → has_key tag w.images ≡ found
          → (if found
              then (ok false, w)
              else (build_image P T workspace tag py_version deps_hash >>= built_or_raise P T tag)
                  w)
            ≡ (ok built, w')
          → has_key tag w'.images ≡ true
      go true there e = subst (λ v. has_key tag v.images ≡ true) (ok-world e) there
      go false missing e = build_image-has workspace tag py_version deps_hash w w' built e

  setup_docker_sandbox-IsContained :
      (workspace : String) (install : Bool) (cfg : DockerConfig) (w w' : World) (sb : Sandbox)
      → setup_docker_sandbox P T workspace install cfg w ≡ (ok sb, w')
      → IsContained cfg workspace sb w'
  unfolding setup_docker_sandbox with_docker in_container IsContained
  setup_docker_sandbox-IsContained workspace install cfg w w' sb h =
      let (available, a, h1) = bind-values (docker_available P T) _ w h in
      let w1 = (docker_available P T w).1 in
      let (usable, h2) = guard-ok available (with_docker P T workspace install cfg) _ w1 h1 in
      let py_version = text_or "3.11" cfg.python_version in
      let deps_hash = compute_deps_hash P T workspace py_version w1 in
      let tag = image_tag_of P T cfg deps_hash in
      let (built, b, h3) =
        bind-values (ensure_image P T workspace tag py_version deps_hash) _ w1 h2 in
      let has = ensure_image-has workspace tag py_version deps_hash w1 _ built b in
      (
        _,
        sym (ap (λ s. s.backend) (ok-injective h3)),
        subst (λ v. has_key tag v.images ≡ true) (ok-world h3) has,
        text_or-IsLimit "2.0" cfg.cpus,
        text_or-IsLimit "2g" cfg.memory,
        sym (ap (λ s. s.workspace) (ok-injective h3)),
      )

  -- A sandbox whose commands all run in an isolated container of an image that is there.
  pub record IsIsolated (cfg : DockerConfig) (workspace : String) (sb : Sandbox) (w : World)
      : Type 0 where
    pub container : Container
    pub in_container : sb.backend ≡ docker container
    pub has_image : has_key container.image_tag w.images ≡ true
    pub cpus : IsLimit "2.0" cfg.cpus container.cpu_limit
    pub memory : IsLimit "2g" cfg.memory container.memory_limit
    pub requests :
        (command : String) (environ : Dict String)
        → parse_docker_run (invocation sb command environ)
          ≡ some (isolated_request container workspace command)

  setup_by-IsContained :
      (t : ProjectType) (workspace : String) (install : Bool) (cfg : SandboxConfig) (w w' : World)
      (sb : Sandbox)
      → t ≢ node
      → setup_by P T true t workspace install cfg w ≡ (ok sb, w')
      → IsContained cfg.docker workspace sb w'
  unfolding setup_by
  setup_by-IsContained node workspace install cfg w w' sb ne h = absurd (ne refl)
  setup_by-IsContained python workspace install cfg w w' sb ne h =
      setup_docker_sandbox-IsContained workspace install cfg.docker w w' sb h
  setup_by-IsContained unknown workspace install cfg w w' sb ne h =
      setup_docker_sandbox-IsContained workspace install cfg.docker w w' sb h

  -- Where the configuration asks for Docker and the copied project is no Node.js project, a
  -- sandbox that `create_sandbox` yields is a Docker sandbox whose image is there, and each
  -- of its commands is run by a `docker run` whose words, read as Docker's options, are a
  -- request without a network, with a read-only root, a user that is not root, and the limits
  -- for processor and memory of the configuration, or 2.0 and 2g where it has none; for an
  -- image tag that does not begin with a dash.
  pub setup_sandbox-IsIsolated :
      (project workspace : String) (install : Bool) (cfg : SandboxConfig) (w w' : World)
      (sb : Sandbox)
      → backend_name P T cfg ≡ "docker"
      → detect_project_type workspace (copy_project project workspace w).1 ≢ node
      → ((c : Container) → sb.backend ≡ docker c → starts_with c.image_tag "-" ≡ false)
      → setup_sandbox P T project workspace install cfg w ≡ (ok sb, w')
      → IsIsolated cfg.docker workspace sb w'
  unfolding setup_sandbox invocation IsContained
  setup_sandbox-IsIsolated project workspace install cfg w w' sb asked other tag h =
      let (copied, m, h1) = bind-values (copy_project project workspace) _ w h in
      let w1 = (copy_project project workspace w).1 in
      let t = detect_project_type workspace w1 in
      let h2 : setup_by P T true t workspace install cfg w1 ≡ (ok sb, w') =
        subst (λ b. setup_by P T b t workspace install cfg w1 ≡ (ok sb, w'))
          ((eq_iff (backend_name P T cfg) "docker").1 asked) h1 in
      let (c, is, has, cpus, memory, at) =
        setup_by-IsContained t workspace install cfg w1 w' sb other h2 in
      record {
        container = c;
        in_container = is;
        has_image = has;
        cpus = cpus;
        memory = memory;
        requests =
            λ command environ. rw (is, at) (parse-docker_argv c workspace command (tag c is));
      }
