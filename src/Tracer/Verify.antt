-- ===== src/Tracer/Verify.antt =====
-- engine/tracer.py, verify_trace_integrity: the chain is replayed from the first line of the file,
-- which is kept as its lines (`read_text().strip().splitlines()`).
pub mod Chain
pub mod Tamper
pub mod Pin
use Prim.Native.Char.{code}
use autonomy_engine.Base.{
  ℕ, suc, ◌+◌, String, Option, none, some, List, [], ◌∷◌, ◌++◌, Bool, true, false, ◌==◌, eqb, leb,
  or_default, if◌then◌else◌,
}
use autonomy_engine.Base.Dict.{Dict, lookup, remove}
use autonomy_engine.World.Json.{Json, null, bool, num, literal, str, arr, obj}
use autonomy_engine.World.{
  Platform, World, Line, dict, invalid_json, other, Kind, attribute_error, type_error, failure,
  Result, ok, raise, Exec, pure, gets, lift, ◌>>=◌,
}
use autonomy_engine.Context.{get_state_dir}
use autonomy_engine.Tracer.{genesis_hash, trace_file, get_run_id, compute_entry_hmac}
use autonomy_engine.Tracer.Keys.{load_hmac_key}

-- The messages, by what they say.
pub data TraceError : Type 0 where
  trace_not_found key_not_found empty_trace : TraceError
  invalid_line missing_hash seq_mismatch prev_mismatch hmac_mismatch : ℕ → TraceError

-- `hmac.compare_digest` raises TypeError on a text that is not ASCII.
unfoldable pub is_ascii : String → Bool
is_ascii String.[] = true
is_ascii (String.◌∷◌ c s) = if leb (code c) 127 then is_ascii s else false

abbrev pub Checked : Type 0
Checked = Result (List TraceError)

abbrev pub prepend : List TraceError → Checked → Checked
prepend es (ok fs) = ok (es ++ fs)
prepend es (raise e) = raise e

module _ (P : Platform) where
  -- entry.get("seq") == i, where Python takes True for 1 and False for 0
  seq_value_eq : Json → ℕ → Bool
  seq_value_eq (num n) i = eqb n i
  seq_value_eq (bool b) i = if b then eqb 1 i else eqb 0 i
  seq_value_eq (literal s) i = P.literal_eq s i
  seq_value_eq null i = false
  seq_value_eq (str s) i = false
  seq_value_eq (arr xs) i = false
  seq_value_eq (obj fs) i = false

  pub seq_matches : Option Json → ℕ → Bool
  unfolding seq_value_eq
  seq_matches none i = false
  seq_matches (some v) i = seq_value_eq v i

  seq_errors : ℕ → Dict Json → List TraceError
  unfolding seq_matches lookup
  seq_errors i entry = if seq_matches (lookup "seq" entry) i then [] else seq_mismatch i ∷ []

  -- The message of a mismatch takes `[:16]` of what is there, which a text and a list have.
  prev_value_errors : ℕ → String → Option Json → Checked
  prev_value_errors i expected none = ok (prev_mismatch i ∷ [])
  prev_value_errors i expected (some (str s)) =
      if s == expected then ok [] else ok (prev_mismatch i ∷ [])
  prev_value_errors i expected (some (arr xs)) = ok (prev_mismatch i ∷ [])
  prev_value_errors i expected (some v) = raise (failure type_error "object is not subscriptable")

  prev_errors : ℕ → String → Dict Json → Checked
  unfolding prev_value_errors lookup
  prev_errors i expected entry = prev_value_errors i expected (lookup "prev_hash" entry)

  hmac_errors : ℕ → String → String → String → Checked
  unfolding is_ascii
  hmac_errors i key computed stored =
      if is_ascii stored
      then ok (if computed == stored then [] else hmac_mismatch i ∷ [])
      else raise (failure type_error "comparing strings with non-ASCII characters")

  -- What one line adds to the errors, given its dict without `entry_hash` and the stored hash.
  unfoldable pub check_entry : String → ℕ → String → Dict Json → String → Checked
  unfolding seq_errors prev_errors hmac_errors compute_entry_hmac
  check_entry key i expected entry stored = elim (prev_errors i expected entry) [
    | ok es ↦
        prepend (seq_errors i entry ++ es)
          (hmac_errors i key (compute_entry_hmac P entry key) stored)
    | raise e ↦ raise e
  ]

  after : Checked → Checked → Checked
  after (ok es) rest = prepend es rest
  after (raise e) rest = raise e

  -- `entry.pop("entry_hash", None)`
  unfoldable pub verify_lines : String → ℕ → String → List Line → Checked
  unfolding check_entry after lookup remove
  verify_lines key i expected [] = ok []
  verify_lines key i expected (invalid_json m ∷ ls) = ok (invalid_line i ∷ [])
  verify_lines key i expected (other v ∷ ls) = raise (failure attribute_error "no attribute 'pop'")
  verify_lines key i expected (dict d ∷ ls) = elim (lookup "entry_hash" d) [
    | none ↦ ok (missing_hash i ∷ [])
    | some null ↦ ok (missing_hash i ∷ [])
    | some (str stored) ↦
        after (check_entry key i expected (remove "entry_hash" d) stored)
          (verify_lines key (i + 1) stored ls)
    | some v ↦ raise (failure type_error "unsupported operand types")
  ]

  judge : Checked → Result (Bool × List TraceError)
  judge (ok []) = ok (true, [])
  judge (ok (e ∷ es)) = ok (false, e ∷ es)
  judge (raise e) = raise e

  verify_text : Option String → List Line → Result (Bool × List TraceError)
  unfolding judge verify_lines
  verify_text none ls = ok (false, key_not_found ∷ [])
  verify_text (some key) [] = ok (false, empty_trace ∷ [])
  verify_text (some key) (l ∷ ls) = judge (verify_lines key 0 genesis_hash (l ∷ ls))

  verify_found : String → Option (List Line) → Exec (Bool × List TraceError)
  unfolding load_hmac_key verify_text
  verify_found rid none = pure (false, trace_not_found ∷ [])
  verify_found rid (some ls) = do key ← load_hmac_key P rid; lift (verify_text key ls)

  run_to_verify : Option String → Exec String
  unfolding get_run_id
  run_to_verify none = get_run_id
  run_to_verify (some rid) = pure rid

  base_to_verify : Option String → Exec String
  unfolding get_state_dir
  base_to_verify none = get_state_dir P
  base_to_verify (some dir) = pure dir

  unfoldable pub verify_trace_integrity :
      Option String → Option String → Exec (Bool × List TraceError)
  unfolding run_to_verify base_to_verify verify_found lookup
  verify_trace_integrity run_id state_dir = do
    rid ← run_to_verify run_id
    base ← base_to_verify state_dir
    found ← gets (λ w. lookup (trace_file base rid) w.traces)
    verify_found rid found
