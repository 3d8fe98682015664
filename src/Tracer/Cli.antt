-- ===== src/Tracer/Cli.antt =====
-- engine/verify_trace.py: the exit code of the command that verifies a log, from the messages of the
-- verifier. What it prints is left out.
use autonomy_engine.Base.{
  ℕ, String, List, [], ◌∷◌, Bool, true, false, length, none, some, if◌then◌else◌,
}
use autonomy_engine.Base.Texts.{contains_text}
use autonomy_engine.Base.Dict.{lookup}
use autonomy_engine.World.{World}
use autonomy_engine.Tracer.{trace_file}

-- any(part in e for e in errors)
unfoldable pub any_contains : String → List String → Bool
unfolding contains_text
any_contains part [] = false
any_contains part (e ∷ errors) = if contains_text e part then true else any_contains part errors

-- `_is_missing_key_error` and `_is_missing_trace_error`
unfoldable pub is_missing_key_error : List String → Bool
unfolding any_contains
is_missing_key_error errors = any_contains "HMAC key" errors

unfoldable pub is_missing_trace_error : List String → Bool
unfolding any_contains
is_missing_trace_error errors = any_contains "trace.jsonl not found" errors

-- `_entry_count`
unfoldable pub entry_count : String → String → World → ℕ
unfolding lookup
entry_count state run_id w = elim (lookup (trace_file state run_id) w.traces) [
  | none ↦ 0
  | some lines ↦ length lines
]

-- what `main` returns, for what the verifier returned
unfoldable pub exit_code_for : Bool → List String → ℕ
unfolding is_missing_key_error is_missing_trace_error
exit_code_for valid errors =
    if valid
    then 0
    else if is_missing_key_error errors
    then 2
    else if is_missing_trace_error errors
    then 2
    else 1
