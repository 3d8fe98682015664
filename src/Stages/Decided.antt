-- ===== src/Stages/Decided.antt =====
-- tasks/test.py and tasks/verify.py: what the guards and gates of the stages make of a decision.
use autonomy_engine.Base.{
  String, ◌≡◌, refl, List, Bool, true, contains, ◌==◌, if◌then◌else◌, Bool-cases, inl, inr,
}
use autonomy_engine.World.{
  Platform, World, EvidenceRecord, failure, runtime_error, Result, ok, raise,
}
use autonomy_engine.Tracer.Sound.{HasHexDigests, IsOpen}
use autonomy_engine.Gates.{record_of}
use autonomy_engine.Gates.Loaded.{choice_of, decided, exists-loaded}
use autonomy_engine.Gates.Saved.{save-load}
use autonomy_engine.Evidence.{has_failures, triage_request, test_guard, test_gate}
use autonomy_engine.Stages.Verify.{review_request, verify_guard}

-- A guard passes, unless the decision stops the stage.
abbrev pub stopped_if : Bool → String → Result (Unit {0})
stopped_if stop reason = if stop then raise (failure runtime_error reason) else ok tt

module _ (P : Platform) (hex : HasHexDigests P) (dir rid key selected : String) (w : World)
    (open_run : IsOpen P dir rid key w) where
  -- In an open run, after an option of the gate for failed tests is saved as its decision,
  -- the guard at the start of the test stage raises exactly if the option is "abort", and
  -- passes else; and the gate at its end asks no more, whatever the evidence says; neither
  -- changes anything; for an HMAC whose signatures are ASCII.
  pub triage-decided :
      contains selected triage_request.options ≡ true
      → (test_guard P (decided P triage_request selected w) ≡ (
        stopped_if (selected == "abort") "Test failure triage decision was 'abort'",
        decided P triage_request selected w,
      ))
        × ((evidence : List EvidenceRecord)
            → test_gate P evidence (decided P triage_request selected w)
              ≡ (ok tt, decided P triage_request selected w))
  unfolding test_guard test_gate record_of
  triage-decided allowed =
      let c = choice_of triage_request selected in
      let (done, loads, o', counted) = save-load P dir rid c hex key w open_run allowed in
      let found = exists-loaded P "test_failure_triage" _ _ loads in
      (
        rw found (
            rw loads (elim (Bool-cases (selected == "abort")) [
              | inl abort ↦ rw abort refl
              | inr go_on ↦ rw go_on refl
            ])),
        λ evidence. elim (Bool-cases (has_failures evidence)) [
          | inl bad ↦ rw bad (rw found refl)
          | inr fine ↦ rw fine refl
        ],
      )

  -- In an open run, after an option of the gate for a rejected build is saved as its
  -- decision, the guard at the start of the verification raises exactly if the option is
  -- "reject", passes else, and changes nothing; for an HMAC whose signatures are ASCII.
  review-decided :
      contains selected review_request.options ≡ true
      → verify_guard P (decided P review_request selected w) ≡ (
        stopped_if (selected == "reject") "Verification review decision was 'reject'",
        decided P review_request selected w,
      )
  unfolding verify_guard record_of
  review-decided allowed =
      let c = choice_of review_request selected in
      let (done, loads, o', counted) = save-load P dir rid c hex key w open_run allowed in
      let found = exists-loaded P "verification_review" _ _ loads in
      rw found (
        rw loads (elim (Bool-cases (selected == "reject")) [
          | inl reject ↦ rw reject refl
          | inr accept ↦ rw accept refl
        ]))
