-- ===== src/Tracer.antt =====
-- engine/tracer.py: the audit log, whose entries are signed and chained.
pub mod Cli
pub mod Keys
pub mod Verify
pub mod Sound
pub mod Ready
pub mod Run
use autonomy_engine.Base.{
  ℕ, suc, ◌+◌, String, ◌<>◌, Option, none, some, List, [], ◌∷◌, ◌++◌, Bool, true, false, ◌==◌,
  starts_with, or_default, if◌then◌else◌,
}
use autonomy_engine.Base.Dict.{Dict, lookup, insert}
use autonomy_engine.World.Json.{Json, null, num, str, obj, of_dict, of_option}
use autonomy_engine.World.{
  Platform, World, TracerState, Line, dict, runtime_error, failure, Result, ok, raise, Exec, pure,
  throw, gets, modify, tick, ◌>>=◌, ◌>>◌,
}
use autonomy_engine.Context.{get_state_dir, get_config_path}
use Keys.{drop_text, write_hmac_key}

-- "0" * 64
abbrev pub genesis_hash : String
genesis_hash = "0000000000000000000000000000000000000000000000000000000000000000"

abbrev pub run_dir : String → String → String
run_dir state run_id = state <> "/runs/" <> run_id

abbrev pub trace_file : String → String → String
trace_file state run_id = run_dir state run_id <> "/trace.jsonl"

set_run : String → World → World
set_run run_id w = record w {
  tracer = record w.tracer { run_id = some run_id; prev_hash = genesis_hash; seq = 0 };
}

set_key : String → World → World
set_key key w = record w { tracer = record w.tracer { hmac_key = key } }

copy_found : String → Option String → World → World
unfolding insert
copy_found to none w = w
copy_found to (some content) w = record w { files = insert to content w.files }

-- config.yml is copied if it exists
snapshot_config : String → String → World → World
unfolding copy_found lookup
snapshot_config config to w = copy_found to (lookup config w.files) w

unfoldable pub get_run_id : Exec String
get_run_id w = (
  elim w.tracer.run_id [
    | none ↦ raise (failure runtime_error "No active run. Call init_run() first.")
    | some rid ↦ ok rid
  ],
  w,
)

module _ (P : Platform) where
  unfoldable pub init_run : Exec String
  unfolding set_run set_key snapshot_config write_hmac_key get_state_dir get_config_path tick
  init_run = do
    n ← tick
    let run_id = P.uuid_hex n
    modify (set_run run_id)
    state ← get_state_dir P
    m ← tick
    let key = P.token_bytes m
    modify (set_key key)
    write_hmac_key P run_id key
    config ← get_config_path P
    modify (snapshot_config config (run_dir state run_id <> "/config_snapshot.yml"))
    pure run_id

  unfoldable pub trace_path : Exec String
  unfolding get_state_dir get_run_id
  trace_path = do state ← get_state_dir P; rid ← get_run_id; pure (trace_file state rid)

  digest : Option String → Json
  digest none = null
  digest (some content) = str (P.sha256_hex content)

  -- `None` for a missing file, and for an external path without a base
  unfoldable pub hash_artifact : String → Option String → String → World → Json
  unfolding digest lookup drop_text
  hash_artifact state base path w =
      if starts_with path "<external>:"
      then (elim base [
        | none ↦ null
        | some dir ↦ digest (lookup (dir <> "/" <> drop_text 11 path) w.files)
      ])
      else digest (lookup (state <> "/" <> path) w.files)

  -- {p: _hash_artifact(p, external_base) for p in paths}
  hash_all : String → Option String → List String → World → Dict Json → Dict Json
  unfolding hash_artifact insert
  hash_all state base [] w d = d
  hash_all state base (p ∷ ps) w d =
      hash_all state base ps w (insert p (hash_artifact state base p w) d)

-- The arguments of `trace`. An empty `extra` is the same as none.
pub record TraceCall : Type 0 where
  pub task : String
  pub inputs : List String
  pub outputs : List String
  pub model : Option String
  pub prompt_hash : Option String
  pub provider : Option String
  pub max_tokens : Option ℕ
  pub external_base : Option String
  pub extra : Dict Json

abbrev pub simple_call : String → List String → List String → TraceCall
simple_call task inputs outputs = record {
  task = task;
  inputs = inputs;
  outputs = outputs;
  model = none;
  prompt_hash = none;
  provider = none;
  max_tokens = none;
  external_base = none;
  extra = [];
}

add_extra : Dict Json → Dict Json → Dict Json
unfolding insert of_dict
add_extra [] entry = entry
add_extra (kv ∷ extra) entry = insert "extra" (obj (of_dict (kv ∷ extra))) entry

of_tokens : Option ℕ → Json
of_tokens none = null
of_tokens (some n) = num n

-- The entry before it is signed.
unfoldable pub entry_of : TraceCall → ℕ → String → String → Dict Json → Dict Json → Dict Json
unfolding add_extra of_tokens of_option of_dict
entry_of c seq timestamp prev inputs outputs = add_extra c.extra (
    ("seq", num seq)
    ∷ ("timestamp", str timestamp)
    ∷ ("task", str c.task)
    ∷ ("inputs", obj (of_dict inputs))
    ∷ ("outputs", obj (of_dict outputs))
    ∷ ("model", of_option c.model)
    ∷ ("prompt_hash", of_option c.prompt_hash)
    ∷ ("provider", of_option c.provider)
    ∷ ("max_tokens", of_tokens c.max_tokens)
    ∷ ("prev_hash", str prev)
    ∷ [])

-- f.write(json.dumps(entry) + "\n") at the end of the file
unfoldable pub append_line : String → Line → World → World
unfolding insert lookup
append_line path line w = record w {
  traces = insert path (or_default [] (lookup path w.traces) ++ line ∷ []) w.traces;
}

unfoldable pub advance_chain : String → World → World
advance_chain hash w = record w {
  tracer = record w.tracer { prev_hash = hash; seq = w.tracer.seq + 1 };
}

module _ (P : Platform) where
  unfoldable pub compute_entry_hmac : Dict Json → String → String
  compute_entry_hmac entry key = P.hmac_hex key entry

  unfoldable pub trace : TraceCall → Exec (Unit {0})
  unfolding get_state_dir hash_all entry_of compute_entry_hmac trace_path append_line advance_chain
      insert tick
  trace c = do
    state ← get_state_dir P
    inputs ← gets (λ w. hash_all P state c.external_base c.inputs w [])
    outputs ← gets (λ w. hash_all P state c.external_base c.outputs w [])
    n ← tick
    t ← gets (λ w. w.tracer)
    let entry = entry_of c t.seq (P.timestamp n) t.prev_hash inputs outputs
    let hash = compute_entry_hmac entry t.hmac_key
    path ← trace_path P
    modify (append_line path (dict (insert "entry_hash" (str hash) entry)))
    modify (advance_chain hash)
