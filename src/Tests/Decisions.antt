-- ===== src/Tests/Decisions.antt =====
-- engine/decision_gates.py: a choice, and a run in which it is saved.
use autonomy_engine.Base.{◌≡◌, refl, none, [], ◌∷◌, ◌+◌, true, List}
use autonomy_engine.World.{EvidenceRecord, ok}
use autonomy_engine.Tracer.Sound.{IsOpen}
use autonomy_engine.Gates.{Choice, resolve_actor, save_decision, load_decision}
use autonomy_engine.Gates.Saved.{save-load}
use autonomy_engine.Gates.Loaded.{decided}
use autonomy_engine.Evidence.{triage_request, test_guard, test_gate}
use autonomy_engine.Stages.Decided.{stopped_if, triage-decided}
use autonomy_engine.Tests.Samples.{sample, sample-HasHexDigests, in_r1, in_r1-IsOpen}

abbrev choice : Choice
choice = record {
  gate = "design approval";
  stage = "design";
  allowed_options = "approve" ∷ "reject" ∷ [];
  selected = "reject";
  actor = none;
  rationale = "too large";
}

save-load_example :
    ((save_decision sample choice in_r1).0 ≡ ok tt)
    × (load_decision sample choice.gate (save_decision sample choice in_r1).1 ≡ (
      ok (record {
        run_id = "r1";
        gate = "design approval";
        stage = "design";
        allowed_options = "approve" ∷ "reject" ∷ [];
        selected = "reject";
        actor = resolve_actor none in_r1;
        timestamp = "2026-01-01T00:00:00";
        rationale = "too large";
      }),
      (save_decision sample choice in_r1).1,
    ))
    × IsOpen sample "/p" "r1" "k" (save_decision sample choice in_r1).1
    × ((save_decision sample choice in_r1).1.tracer.seq ≡ in_r1.tracer.seq + 1)
save-load_example =
    save-load sample "/p" "r1" choice sample-HasHexDigests "k" in_r1 in_r1-IsOpen refl

triage-decided_example :
    (test_guard sample (decided sample triage_request "abort" in_r1) ≡ (
      stopped_if true "Test failure triage decision was 'abort'",
      decided sample triage_request "abort" in_r1,
    ))
    × ((evidence : List EvidenceRecord)
        → test_gate sample evidence (decided sample triage_request "abort" in_r1)
          ≡ (ok tt, decided sample triage_request "abort" in_r1))
triage-decided_example =
    triage-decided sample sample-HasHexDigests "/p" "r1" "k" "abort" in_r1 in_r1-IsOpen refl
