-- ===== src/Tests/Sandboxes.antt =====
-- Sandboxes of small projects.
use autonomy_engine.Base.{
  String, ◌≡◌, refl, subst, Option, none, some, [], ◌∷◌, true, false, starts_with,
}
use autonomy_engine.Base.Dict.{lookup, insert, has_key}
use autonomy_engine.World.{World, Venv, Exec, Result, ok, pure}
use autonomy_engine.Sandboxes.{
  SandboxConfig, Container, Sandbox, Tools, docker, python, detect_project_type,
}
use autonomy_engine.Sandboxes.Dirs.{copy_project, any_below}
use autonomy_engine.Sandboxes.Local.{compute_venv_cache_key, python_sandbox, setup_python_sandbox}
use autonomy_engine.Sandboxes.Session.{setup_sandbox, create_sandbox}
use autonomy_engine.Sandboxes.Isolated.{IsIsolated, setup_sandbox-IsIsolated}
use autonomy_engine.Sandboxes.Cached.{next_sandbox_reuses}
use autonomy_engine.Tests.Samples.{sample, empty_world}

-- Every installation fails.
abbrev tools : Tools
tools = record {
  mkdtemp = λ n. "/tmp/ae";
  python_version = "3.12.1";
  dump_config = λ cfg. "{}";
  removable = λ path. true;
  files_after = λ n files. insert "/home/ae/.cache/pip/log" "http" files;
  cache_copy = λ dest v. some v;
  create_venv = λ n old. (some (record { has_python = true; packages = ""; mtime = n }), true);
  pip_install = λ n spec v. (v, false);
  npm_install = λ n. false;
  node_version = none;
  has_docker = true;
  docker_version = λ n. true;
  docker_build = λ n dockerfile. some "sha256:1";
}

abbrev config : Option String → SandboxConfig
config backend = record {
  backend = backend;
  docker = record { python_version = none; cpus = none; memory = none; image_name = none };
}

-- a project with requirements
abbrev with_project : World
with_project = record empty_world {
  files = ("/build/main.py", "print()") ∷ ("/build/requirements.txt", "flask") ∷ [];
}

-- the block of a `with` that does nothing
abbrev looked_at : Sandbox → Exec Sandbox
looked_at sb = pure sb

abbrev in_docker : Result Sandbox × World
unfolding setup_sandbox
in_docker =
    setup_sandbox sample tools "/build" "/tmp/ae/project" true (config (some "docker")) with_project

abbrev container : Container
container = record {
  image_tag = "autonomy-sandbox:py3.11-5ha";
  image_digest = some "sha256:1";
  py_version = "3.11";
  cpu_limit = "2.0";
  memory_limit = "2g";
  image_built = true;
}

abbrev contained_sandbox : Sandbox
contained_sandbox = record {
  backend = docker container;
  workspace = "/tmp/ae/project";
  venv_path = none;
  deps_installed = true;
  project_type = python;
  cache = some (record { hit = false; key = "5ha" });
}

image_tag_lem :
    (c : Container) → contained_sandbox.backend ≡ docker c → starts_with c.image_tag "-" ≡ false
image_tag_lem c e = subst (λ t. starts_with t "-" ≡ false) (tag_of e) refl
  where
    tag_of : contained_sandbox.backend ≡ docker c → "autonomy-sandbox:py3.11-5ha" ≡ c.image_tag
    tag_of h = cc h

setup_sandbox-IsIsolated_example :
    IsIsolated sample tools
      (config (some "docker")).docker
      "/tmp/ae/project"
      contained_sandbox
      in_docker.1
unfolding setup_sandbox detect_project_type copy_project
setup_sandbox-IsIsolated_example =
    setup_sandbox-IsIsolated sample tools "/build" "/tmp/ae/project" true (config (some "docker"))
      with_project in_docker.1 contained_sandbox refl (λ e. cc e) (λ c e. image_tag_lem c e) refl

-- what a sandbox leaves
create_sandbox_leaves :
    (create_sandbox sample tools "/build" true
      (config (some "docker"))
      looked_at
      with_project).1.files
    ≡ with_project.files
unfolding create_sandbox
create_sandbox_leaves = refl

abbrev two_projects : World
two_projects = record empty_world {
  files = ("/a/requirements.txt", "flask") ∷ ("/b/requirements.txt", "flask") ∷ [];
}

abbrev in_python : Result Sandbox × World
unfolding setup_python_sandbox
in_python = setup_python_sandbox sample tools "/a" true (config none) two_projects

abbrev made : Venv
made = record { has_python = true; packages = ""; mtime = 0 }

-- The first installation failed, and the second sandbox reports that it has its dependencies.
next_sandbox_reuses_example :
    setup_python_sandbox sample tools "/b" true (config none) in_python.1 ≡ (
      ok (
          python_sandbox sample tools "/b"
            (some "/b/.venv")
            true
            (record { hit = true; key = "5ha" })),
      record in_python.1 { venvs = insert "/b/.venv" made in_python.1.venvs },
    )
unfolding setup_python_sandbox compute_venv_cache_key lookup any_below has_key
next_sandbox_reuses_example =
    next_sandbox_reuses sample tools "/p" "/a" "/b" true true (config none) two_projects in_python.1
      (python_sandbox sample tools "/a" (some "/a/.venv") false
        (record { hit = false; key = "5ha" }))
      "/a/.venv" made refl refl refl refl refl refl refl refl refl refl refl refl
