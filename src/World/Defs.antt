-- ===== src/World/Defs.antt =====
-- The records that stand for files, thread-local variables and the platform.
use autonomy_engine.Base.{ℕ, String, Bool, Option, List}
use autonomy_engine.Base.Dict.{Dict}
use autonomy_engine.World.Json.{Json}

-- `DecisionRequired` carries these, and so do the payload of `interrupt()` and pending_gate.json.
pub record GateRequest : Type 0 where
  pub gate : String
  pub stage : String
  pub options : List String

-- The JSON record of a decision (engine/decision_gates.py, save_decision).
pub record DecisionRecord : Type 0 where
  pub run_id : String
  pub gate : String
  pub stage : String
  pub allowed_options : List String
  pub selected : String
  pub actor : String
  pub timestamp : String
  pub rationale : String

-- A line of trace.jsonl, as what `json.loads` makes of it.
pub data Line : Type 0 where
  dict : Dict Json → Line
  invalid_json : String → Line
  -- JSON that is no object
  other : Json → Line

-- status.json (graph/pipeline.py, _write_run_status)
pub record RunStatus : Type 0 where
  pub state : String
  pub thread_id : String
  pub current_stage : Option String
  pub error : Option String

-- A file of the cache of model responses (engine/cache.py). A key that is not in it is `none`.
pub record CacheEntry : Type 0 where
  pub response : Option String
  pub created_at : Option Json
  pub stage : Option String
  pub model : Option String

pub data CacheFile : Type 0 where
  malformed no_object : CacheFile
  entry : CacheEntry → CacheFile

-- An exit code. `negsuc n` is the negative number of absolute value `n + 1`.
pub data ℤ : Type 0 where
  pos : ℕ → ℤ
  negsuc : ℕ → ℤ

-- An evidence record (engine/evidence.py), as far as the stages read it.
pub record EvidenceRecord : Type 0 where
  pub name : String
  pub command : String
  -- no_checks_record has none
  pub argv : Option (List String)
  pub cwd : String
  pub started_at : String
  pub finished_at : String
  pub exit_code : ℤ
  pub stdout : String
  pub stderr : String
  pub stdout_hash : String
  pub stderr_hash : String

-- The thread-local variables of engine/tracer.py.
pub record TracerState : Type 0 where
  pub run_id : Option String
  pub prev_hash : String
  pub seq : ℕ
  pub hmac_key : String

-- A virtual environment: whether it has bin/python, and what is installed in it, as a text.
pub record Venv : Type 0 where
  pub has_python : Bool
  pub packages : String
  pub mtime : ℕ

-- Files are kept by path. Those that the engine writes as JSON are kept as their value.
pub record World : Type 0 where
  pub project_dir : Option String
  pub env : Dict String
  pub tracer : TracerState
  pub files : Dict String
  pub traces : Dict (List Line)
  pub keys : Dict String
  pub keyring : Dict (Dict String)
  pub decisions : Dict DecisionRecord
  pub pending_gates : Dict GateRequest
  pub statuses : Dict RunStatus
  pub llm_cache : Dict CacheFile
  -- by directory, and there by the name of the file
  pub evidence : Dict (Dict EvidenceRecord)
  -- virtual environments, by their directory
  pub venvs : Dict Venv
  -- images of the Docker daemon: the id by the tag
  pub images : Dict String
  -- calls so far of the clock and of the generators of random values
  pub ticks : ℕ

-- What the engine calls and does not implement. The clock and the generators are read by the
-- number of the call.
pub record Platform : Type 0 where
  pub engine_root : String
  pub home : String
  -- whether the optional `keyring` library is installed
  pub keyring_installed : Bool
  -- `Path(p).expanduser().resolve()`
  pub resolve : String → String
  pub timestamp : ℕ → String
  pub uuid_hex : ℕ → String
  pub token_bytes : ℕ → String
  -- `base64.b64encode(key).decode("ascii")`, and `base64.b64decode`, which may raise
  pub b64encode : String → String
  pub b64decode : String → Option String
  pub sha256_hex : String → String
  -- HMAC-SHA256 under a key, of `json.dumps(entry, sort_keys=True)`
  pub hmac_hex : String → Dict Json → String
  -- the text of a list of texts in an f-string
  pub repr_list : List String → String
  -- `json.dumps(record, indent=2)` of a decision
  pub dump_decision : DecisionRecord → String
  -- whether a natural is less than such a number
  pub literal_lt : ℕ → String → Bool
  -- `str.lower` and `str.strip`
  pub lower : String → String
  pub strip : String → String
  -- whether a number that is written with a sign, a point or an exponent equals a natural
  pub literal_eq : String → ℕ → Bool
  -- `yaml.safe_load`; `none` where it raises
  pub safe_load : String → Option Json
