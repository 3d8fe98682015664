-- ===== src/Stages/Manifests/Chosen.antt =====
-- tasks/implement.py: the gate of the conflicts, before and after its decision.
use autonomy_engine.Base.{String, ◌≡◌, refl, List, true, contains, ◌==◌, Bool-cases, inl, inr}
use autonomy_engine.World.{
  Platform, World, Result, ok, raise, Exc, failure, runtime_error, pure, continue,
}
use autonomy_engine.Tracer.Sound.{HasHexDigests, IsOpen}
use autonomy_engine.Gates.{record_of}
use autonomy_engine.Gates.Loaded.{choice_of, decided, exists-loaded}
use autonomy_engine.Gates.Saved.{save-load}
use autonomy_engine.Stages.Manifests.{FileEntry, MergeConflict, first, Formats, merge_manifests}
use autonomy_engine.Stages.Manifests.Gate.{
  conflict_request, dump_pair, apply_choice, apply_manifest_conflict_gate,
}

module _ (P : Platform) (F : Formats) (hex : HasHexDigests P) (dir rid key : String) where
  -- What each option of the gate is to give, in a world that stays as it is.
  pub record IsApplied (selected manifest_json : String) (conflicts : List MergeConflict)
      (all_manifests names : List String) (w : World)
      (outcome : Result (String × List MergeConflict) × World) : Type 0 where
    pub unchanged : outcome.1 ≡ w
    pub aborted :
        selected ≡ "abort"
        → outcome.0 ≡ raise (failure runtime_error "Manifest conflict decision was 'abort'")
    pub first_written :
        selected ≡ "use_first_writer"
        → (files : List FileEntry) (reported : List MergeConflict)
        → merge_manifests F all_manifests names first ≡ ok (files, reported)
        → outcome.0 ≡ ok (F.dump_manifest files, reported)
    pub not_merged :
        selected ≡ "use_first_writer"
        → (e : Exc) → merge_manifests F all_manifests names first ≡ raise e
        → outcome.0 ≡ raise e
    pub last_written : selected ≡ "use_last_writer_wins" → outcome.0 ≡ ok (manifest_json, conflicts)

  merged-unchanged :
      (w : World) (r : Result (List FileEntry × List MergeConflict))
      → (continue r (λ merged. pure (dump_pair P F merged)) w).1 ≡ w
  merged-unchanged w (ok m) = refl
  merged-unchanged w (raise e) = refl

  choice-IsApplied :
      (selected manifest_json : String) (conflicts : List MergeConflict)
      (all_manifests names : List String) (w : World)
      → IsApplied selected manifest_json conflicts all_manifests names w
          (apply_choice P F selected manifest_json conflicts all_manifests names w)
  unfolding apply_choice
  choice-IsApplied selected manifest_json conflicts all_manifests names w = record {
    unchanged = elim (Bool-cases (selected == "abort")) [
      | inl a ↦ rw a refl
      | inr a ↦ elim (Bool-cases (selected == "use_first_writer")) [
        | inl b ↦ rw a (rw b (merged-unchanged w (merge_manifests F all_manifests names first)))
        | inr b ↦ rw a (rw b refl)
      ]
    ];
    aborted = λ e. rw e refl;
    first_written = λ e files reported m. rw e (rw m refl);
    not_merged = λ e x m. rw e (rw m refl);
    last_written = λ e. rw e refl;
  }

  -- In an open run, after one of the options of the gate for conflicting manifests is saved
  -- as its decision, the gate asks no more and changes nothing: it raises for an abort,
  -- merges again with the first writer, raising what that raises, or keeps the merge that it
  -- was given; for an HMAC whose signatures are ASCII.
  pub apply-chosen :
      (selected manifest_json : String) (conflicts : List MergeConflict)
      (all_manifests names : List String) (w : World)
      → IsOpen P dir rid key w
      → contains selected conflict_request.options ≡ true
      → IsApplied selected manifest_json conflicts all_manifests names
          (decided P conflict_request selected w)
          (apply_manifest_conflict_gate P F manifest_json conflicts all_manifests names
            (decided P conflict_request selected w))
  unfolding apply_manifest_conflict_gate record_of
  apply-chosen selected manifest_json conflicts all_manifests names w o allowed =
      let (done, loads, o', counted) =
        save-load P dir rid (choice_of conflict_request selected) hex key w o allowed in
      let found = exists-loaded P "manifest_conflict" _ _ loads in
      rw found (
        rw loads (
          choice-IsApplied selected manifest_json conflicts all_manifests names
            (decided P conflict_request selected w)))
