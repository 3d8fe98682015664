-- ===== src/Tests/Samples.antt =====
-- A platform, tasks and worlds that the tests share.
use autonomy_engine.Base.{
  String, ◌<>◌, ◌≡◌, refl, Option, none, some, [], ◌∷◌, true, false, or_default, zero, suc,
}
use autonomy_engine.Base.Dict.{lookup}
use autonomy_engine.World.Json.{Json, num}
use autonomy_engine.World.{Platform, World, pure}
use autonomy_engine.Tracer.{genesis_hash}
use autonomy_engine.Tracer.Verify.{is_ascii}
use autonomy_engine.Tracer.Verify.Tamper.{HasOneValue}
use autonomy_engine.Tracer.Sound.{HasHexDigests, IsOpen}
use autonomy_engine.Pipeline.State.{PipelineState, Update}
use autonomy_engine.Pipeline.Nodes.{Tasks}
use autonomy_engine.Pipeline.Run.{keep, IsMerge}

-- a signature that tells apart the first lines of a log
abbrev pub toy_hmac : Option Json → String
toy_hmac (some (num zero)) = "a0"
toy_hmac (some (num (suc zero))) = "b1"
toy_hmac _ = "c2"

-- a toy codec that puts one character before a text
abbrev toy_decode : String → Option String
toy_decode String.[] = none
toy_decode (String.◌∷◌ c s) = some s

abbrev pub sample : Platform
sample = record {
  engine_root = "/engine";
  home = "/home/ae";
  keyring_installed = false;
  resolve = λ p. p;
  timestamp = λ n. "2026-01-01T00:00:00";
  uuid_hex = λ n. "0123456789ab";
  token_bytes = λ n. "secret";
  b64encode = λ key. "=" <> key;
  b64decode = toy_decode;
  sha256_hex = λ s. "5ha";
  hmac_hex = λ key entry. toy_hmac (lookup "seq" entry);
  repr_list = λ xs. "[]";
  dump_decision = λ r. "{}";
  literal_lt = λ n s. false;
  lower = λ s. s;
  strip = λ s. s;
  literal_eq = λ s n. false;
  safe_load = λ s. none;
}

pub sample-HasOneValue : HasOneValue sample
sample-HasOneValue s i j a b = cc

pub sample-HasHexDigests : HasHexDigests sample
unfolding is_ascii
sample-HasHexDigests key entry = go (lookup "seq" entry)
  where
    go : (o : Option Json) → is_ascii (toy_hmac o) ≡ true
    go (some (num zero)) = refl
    go (some (num (suc zero))) = refl
    go _ = refl

abbrev pub empty_world : World
empty_world = record {
  project_dir = some "/p";
  env = [];
  tracer = record { run_id = none; prev_hash = genesis_hash; seq = 0; hmac_key = "" };
  files = [];
  traces = [];
  keys = [];
  keyring = [];
  decisions = [];
  pending_gates = [];
  statuses = [];
  llm_cache = [];
  evidence = [];
  venvs = [];
  images = [];
  ticks = 0;
}

-- an open run
abbrev pub in_r1 : World
in_r1 = record empty_world {
  tracer = record { run_id = some "r1"; prev_hash = genesis_hash; seq = 0; hmac_key = "k" };
}

pub in_r1-IsOpen : IsOpen sample "/p" "r1" "k" in_r1
unfolding lookup
in_r1-IsOpen = record { in_dir = refl; in_run = refl; with_key = refl; chain = (refl, refl) }

-- the files of a completed intake
abbrev pub with_inputs : World
with_inputs = record empty_world {
  files =
      ("/p/state/inputs/project_spec.yml", "name: demo")
      ∷ ("/p/state/inputs/REQUIREMENTS.md", "r")
      ∷ ("/p/state/inputs/CONSTRAINTS.md", "c")
      ∷ ("/p/state/inputs/NON_GOALS.md", "n")
      ∷ ("/p/state/inputs/ACCEPTANCE_CRITERIA.md", "a")
      ∷ [];
}

-- tasks that do nothing
abbrev pub idle : Tasks
idle = record {
  bootstrap = pure tt;
  design = pure tt;
  implement = pure tt;
  extract = pure tt;
  test = pure tt;
  verify = pure tt;
  evict_llm_cache = λ ttl. pure tt;
  evict_venv_cache = λ ttl. pure tt;
  notify = λ m. pure tt;
}

abbrev pub merge : PipelineState → Update → PipelineState
merge s u = record s {
  run_id = keep s.run_id u.run_id;
  config = keep s.config u.config;
  stage_results = keep s.stage_results u.stage_results;
  current_stage = keep s.current_stage u.current_stage;
  decisions = keep s.decisions u.decisions;
  error = or_default s.error u.error;
  retry_count = keep s.retry_count u.retry_count;
  max_retries = keep s.max_retries u.max_retries;
}

pub merge-IsMerge : IsMerge merge
merge-IsMerge = record {
  project_dir = λ s u. refl;
  run_id = λ s u. refl;
  stage_results = λ s u. refl;
  current_stage = λ s u. refl;
  decisions = λ s u. refl;
  error = λ s u. refl;
  retry_count = λ s u. refl;
  max_retries = λ s u. refl;
}
