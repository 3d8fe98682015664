-- ===== src/Evidence.antt =====
-- engine/evidence.py and the gate of tasks/test.py: evidence of the checks of a build. The
-- "environment" of a record is left out.
pub mod Latest
pub mod Failures
pub mod Detect
pub mod Named
use Prim.Native.String.{compare}
use text.Mathlib.Text.{is_lt}
use autonomy_engine.Base.{
  ℕ, zero, suc, String, ◌<>◌, Option, none, some, List, [], ◌∷◌, Bool, true, false, ◌==◌,
  or_default, if◌then◌else◌,
}
use autonomy_engine.Base.Dict.{Dict, lookup, insert}
use autonomy_engine.World.{
  Platform, World, ℤ, pos, negsuc, EvidenceRecord, GateRequest, decision_required, failure,
  runtime_error, Result, ok, raise, Exec, pure, throw, gets, modify, lift, tick, ◌>>=◌, ◌>>◌,
}
use autonomy_engine.Context.{get_state_dir}
use autonomy_engine.Tracer.{get_run_id}
use autonomy_engine.Gates.{decision_exists, load_decision}

-- an entry of `checks` in config.yml
pub record Check : Type 0 where
  pub name : String
  pub command : String
  pub cwd : Option String

-- What `subprocess.run` does with a command.
pub data Completed : Type 0 where
  returned : ℤ → String → String → Completed
  timed_out : String → Completed
  os_error : String → Completed

-- `subprocess.run` in a directory, by the number of the call, and `shlex.split`.
pub record Shell : Type 0 where
  pub run_command : ℕ → String → String → Completed
  pub shlex_split : String → Result (List String)

abbrev pub is_zero : ℤ → Bool
is_zero (pos zero) = true
is_zero _ = false

abbrev pub exit_code_of : Completed → ℤ
exit_code_of (returned code out err) = code
exit_code_of _ = negsuc 0

abbrev pub stdout_of : Completed → String
stdout_of (returned code out err) = out
stdout_of (timed_out out) = out
stdout_of (os_error e) = ""

-- `limit` is the text of the number of seconds
abbrev pub stderr_of : String → String → Completed → String
stderr_of command limit (returned code out err) = err
stderr_of command limit (timed_out out) =
    "Command timed out after " <> limit <> " seconds: " <> command
stderr_of command limit (os_error e) = "Failed to execute command: " <> e

-- the files of a directory, sorted by their names
unfoldable pub insert_file : String → EvidenceRecord → Dict EvidenceRecord → Dict EvidenceRecord
insert_file k r [] = (k, r) ∷ []
insert_file k r ((j, s) ∷ d) =
    let rest = insert_file k r d in
    if is_lt (compare j k) then (j, s) ∷ rest else (k, r) ∷ (j, s) ∷ d

unfoldable pub sort_files : Dict EvidenceRecord → Dict EvidenceRecord
unfolding insert_file
sort_files [] = []
sort_files ((k, r) ∷ d) = insert_file k r (sort_files d)

unfoldable pub records_of : Dict EvidenceRecord → List EvidenceRecord
records_of [] = []
records_of ((k, r) ∷ d) = r ∷ records_of d

-- `_has_failures` of tasks/test.py
unfoldable pub has_failures : List EvidenceRecord → Bool
has_failures [] = false
has_failures (r ∷ rs) =
    let rest = has_failures rs in
    if r.name == "no_checks_configured" then rest else if is_zero r.exit_code then rest else true

-- `_all_checks_passed` of tasks/verify.py
unfoldable pub all_checks_passed : List EvidenceRecord → Bool
all_checks_passed [] = true
all_checks_passed (r ∷ rs) =
    let rest = all_checks_passed rs in
    if r.name == "no_checks_configured" then rest else if is_zero r.exit_code then rest else false

abbrev pub triage_request : GateRequest
triage_request = record {
  gate = "test_failure_triage";
  stage = "test";
  options = "continue" ∷ "abort" ∷ [];
}

module _ (P : Platform) where
  unfoldable pub evidence_dir : Exec String
  unfolding get_state_dir get_run_id
  evidence_dir = do
    state ← get_state_dir P
    rid ← get_run_id
    pure (state <> "/runs/" <> rid <> "/evidence")

  abbrev pub directory : String → World → Dict EvidenceRecord
  unfolding lookup
  directory dir w = or_default [] (lookup dir w.evidence)

  -- A record whose name has a slash, which makes it a path, is taken as any other.
  unfoldable pub write_record : String → EvidenceRecord → World → World
  unfolding insert lookup
  write_record dir r w = record w {
    evidence = insert dir (insert (r.name <> ".json") r (directory dir w)) w.evidence;
  }

  unfoldable pub save_evidence : EvidenceRecord → Exec (Unit {0})
  unfolding evidence_dir write_record
  save_evidence r = do dir ← evidence_dir; modify (write_record dir r)

  unfoldable pub load_all_evidence : Exec (List EvidenceRecord)
  unfolding evidence_dir sort_files records_of lookup
  load_all_evidence = do dir ← evidence_dir; gets (λ w. records_of (sort_files (directory dir w)))

  unfoldable pub no_checks_record : Exec EvidenceRecord
  unfolding tick
  no_checks_record = do
    n ← tick
    pure (record {
      name = "no_checks_configured";
      command = "";
      argv = none;
      cwd = "";
      started_at = P.timestamp n;
      finished_at = P.timestamp n;
      exit_code = negsuc 0;
      stdout = "";
      stderr =
          "No checks configured in config.yml. Add a 'checks' section to enable automated testing.";
      stdout_hash = P.sha256_hex "";
      stderr_hash =
          P.sha256_hex
            "No checks configured in config.yml. Add a 'checks' section to enable automated testing.";
    })

  -- the guard at the start of `test_system`
  unfoldable pub test_guard : Exec (Unit {0})
  unfolding decision_exists load_decision
  test_guard = do
    decided ← decision_exists P "test_failure_triage"
    if decided
        then (do
          r ← load_decision P "test_failure_triage"
          if r.selected == "abort"
              then throw (failure runtime_error "Test failure triage decision was 'abort'")
              else pure tt)
        else pure tt

  -- the gate at its end
  unfoldable pub test_gate : List EvidenceRecord → Exec (Unit {0})
  unfolding has_failures decision_exists
  test_gate evidence =
      if has_failures evidence
      then (do
        decided ← decision_exists P "test_failure_triage"
        if decided then pure tt else throw (decision_required triage_request))
      else pure tt

module _ (P : Platform) (S : Shell) where
  -- without a sandbox
  unfoldable pub run_check : String → String → String → String → Exec EvidenceRecord
  unfolding tick
  run_check name command cwd limit = do
    n ← tick
    m ← tick
    argv ← lift (S.shlex_split command)
    let done = S.run_command n command cwd in
        pure (record {
          name = name;
          command = command;
          argv = some argv;
          cwd = cwd;
          started_at = P.timestamp n;
          finished_at = P.timestamp m;
          exit_code = exit_code_of done;
          stdout = stdout_of done;
          stderr = stderr_of command limit done;
          stdout_hash = P.sha256_hex (stdout_of done);
          stderr_hash = P.sha256_hex (stderr_of command limit done);
        })

  unfoldable pub run_checks_direct : List Check → String → Exec (Unit {0})
  unfolding run_check save_evidence
  run_checks_direct [] project_dir = pure tt
  run_checks_direct (c ∷ checks) project_dir = do
    r ← run_check c.name c.command (or_default project_dir c.cwd) "300"
    save_evidence P r
    run_checks_direct checks project_dir
