-- ===== src/Tests/Audit.antt =====
-- engine/tracer.py: a log of two lines, a key and a run.
use autonomy_engine.Base.{
  ℕ, String, ◌≡◌, ◌↔◌, refl, ap, none, some, List, [], ◌∷◌, true, false, length,
}
use autonomy_engine.Base.Dict.{Dict, lookup, remove}
use autonomy_engine.World.Json.{Json, num, str}
use autonomy_engine.World.{Platform, World, Line, dict, ok}
use autonomy_engine.Dashboard.Loader.{hash_mismatch, verify_unkeyed}
use autonomy_engine.Dashboard.Loader.Rejected.{mismatches, accepted_rejected}
use autonomy_engine.Tracer.Cli.{exit_code_for}
use autonomy_engine.Tracer.{genesis_hash, TraceCall, simple_call, init_run}
use autonomy_engine.Tracer.Keys.{drop_text, write_hmac_key, load_hmac_key}
use autonomy_engine.Tracer.Keys.Kept.{write-load}
use autonomy_engine.Tracer.Verify.{verify_lines, verify_trace_integrity}
use autonomy_engine.Tracer.Verify.Chain.{IsChain, verify_iff}
use autonomy_engine.Tracer.Verify.Tamper.{line_at_its_place}
use autonomy_engine.Tracer.Verify.Pin.{SameLines, same_last-SameLines}
use autonomy_engine.Tracer.Run.{trace_all, verify-trace_all}
use autonomy_engine.Tests.Samples.{sample, sample-HasOneValue, sample-HasHexDigests, empty_world}

abbrev line0 : Dict Json
line0 = ("seq", num 0) ∷ ("prev_hash", str genesis_hash) ∷ ("entry_hash", str "a0") ∷ []

abbrev line1 : Dict Json
line1 = ("seq", num 1) ∷ ("prev_hash", str "a0") ∷ ("entry_hash", str "b1") ∷ []

abbrev log2 : List Line
log2 = dict line0 ∷ dict line1 ∷ []

log2-accepted : verify_lines sample "k" 0 genesis_hash log2 ≡ ok []
unfolding verify_lines
log2-accepted = refl

verify_iff_example :
    (verify_lines sample "k" 0 genesis_hash log2 ≡ ok [])
    ↔ ((j : ℕ) × (last : String) × IsChain sample "k" 0 genesis_hash log2 j last)
verify_iff_example = verify_iff sample "k" log2

line_at_its_place_example : length (dict line0 ∷ []) ≡ 1
line_at_its_place_example =
    line_at_its_place sample "k" sample-HasOneValue (dict line0 ∷ []) (dict line0 ∷ []) [] [] line1
      log2-accepted log2-accepted

same_last-SameLines_example : SameLines log2 log2
same_last-SameLines_example =
    same_last-SameLines sample "k" log2 log2 (λ e k. refl, (λ e k. refl, tt)) log2-accepted
      log2-accepted refl refl

abbrev with_keyring : Platform
with_keyring = record sample { keyring_installed = true }

abbrev in_keyring : World
in_keyring = record empty_world { env = ("AE_TRACE_KEY_DIR", "keyring:ae") ∷ [] }

wrote_encoded :
    write_hmac_key with_keyring "r1" "secret" in_keyring
    ≡ (ok none, record in_keyring { keyring = ("ae", ("r1", "=secret") ∷ []) ∷ [] })
unfolding write_hmac_key drop_text
wrote_encoded = refl

write-load_example :
    load_hmac_key with_keyring "r1" (write_hmac_key with_keyring "r1" "secret" in_keyring).1
    ≡ (ok (some "secret"), (write_hmac_key with_keyring "r1" "secret" in_keyring).1)
write-load_example =
    write-load with_keyring "r1" "secret" in_keyring refl (ap (λ r. r.0) wrote_encoded)

started : (init_run sample empty_world).0 ≡ ok "0123456789ab"
unfolding init_run
started = refl

abbrev calls : List TraceCall
calls = simple_call "design" ("REQUIREMENTS.md" ∷ []) [] ∷ []

verify-trace_all_example :
    (verify_trace_integrity sample none none
      (trace_all sample
        (simple_call "bootstrap" [] [] ∷ calls)
        (init_run sample empty_world).1).1).0
    ≡ ok (true, [])
unfolding lookup
verify-trace_all_example =
    verify-trace_all sample sample-HasHexDigests (λ n. refl) "/p" empty_world
      (simple_call "bootstrap" [] []) calls refl refl started

-- json.dumps of an entry; its plain hash is not its signature
abbrev dumped : Dict Json → String
dumped d = "{}"

abbrev with_log : World
with_log = record empty_world { traces = ("/p/state/runs/r1/trace.jsonl", log2) ∷ [] }

accepted_rejected_example :
    verify_unkeyed sample dumped "/p" "r1" with_log
    ≡ ok (false, hash_mismatch 0 ∷ hash_mismatch 1 ∷ [])
unfolding mismatches lookup remove
accepted_rejected_example =
    accepted_rejected sample dumped "k" "/p" "r1" with_log (dict line0) (dict line1 ∷ []) refl
      log2-accepted (refl, (refl, tt))

-- A signature that is replaced by these letters makes a tampered log one that cannot be verified.
exit_code_forged :
    exit_code_for false
      ("Line 0: HMAC mismatch — entry has been modified (expected a0…, got HMAC key…)" ∷ [])
    ≡ 2
unfolding exit_code_for
exit_code_forged = refl

exit_code_tampered :
    exit_code_for false
      ("Line 0: HMAC mismatch — entry has been modified (expected a0…, got b1…)" ∷ [])
    ≡ 1
unfolding exit_code_for
exit_code_tampered = refl
