-- ===== src/Stages/Manifests/Gate.antt =====
-- tasks/implement.py, `_apply_manifest_conflict_gate`. Whether a decision exists is asked once here;
-- asking changes nothing.
use autonomy_engine.Base.{String, List, [], ◌∷◌, Bool, true, false, ◌==◌, if◌then◌else◌}
use autonomy_engine.World.{
  Platform, GateRequest, decision_required, failure, runtime_error, Exec, pure, throw, lift, ◌>>=◌,
  ◌>>◌,
}
use autonomy_engine.StateFiles.{save_state_file}
use autonomy_engine.Gates.{decision_exists, load_decision}
use autonomy_engine.Stages.Manifests.{FileEntry, MergeConflict, first, Formats, merge_manifests}

abbrev pub conflict_request : GateRequest
conflict_request = record {
  gate = "manifest_conflict";
  stage = "implement";
  options = "use_last_writer_wins" ∷ "use_first_writer" ∷ "abort" ∷ [];
}

abbrev pub has_conflicts : List MergeConflict → Bool
has_conflicts [] = false
has_conflicts (c ∷ cs) = true

module _ (P : Platform) (F : Formats) where
  abbrev pub dump_pair : List FileEntry × List MergeConflict → String × List MergeConflict
  dump_pair (files, conflicts) = (F.dump_manifest files, conflicts)

  unfoldable pub apply_choice :
      String
      → String
      → List MergeConflict
      → List String
      → List String
      → Exec (String × List MergeConflict)
  unfolding merge_manifests
  apply_choice selected manifest_json conflicts all_manifests names =
      if selected == "abort"
      then throw (failure runtime_error "Manifest conflict decision was 'abort'")
      else if selected == "use_first_writer"
      then (do merged ← lift (merge_manifests F all_manifests names first); pure (dump_pair merged))
      else pure (manifest_json, conflicts)

  -- without a decision
  unfoldable pub ask_conflict : List MergeConflict → Exec (Unit {0})
  unfolding save_state_file
  ask_conflict conflicts = do
    save_state_file P "implementations/MANIFEST_CONFLICTS.json" (F.dump_conflicts conflicts)
    throw (decision_required conflict_request)

  unfoldable pub apply_manifest_conflict_gate :
      String → List MergeConflict → List String → List String → Exec (String × List MergeConflict)
  unfolding decision_exists load_decision apply_choice ask_conflict
  apply_manifest_conflict_gate manifest_json conflicts all_manifests names = do
    decided ← decision_exists P "manifest_conflict"
    if decided
        then (do
          r ← load_decision P "manifest_conflict"
          apply_choice r.selected manifest_json conflicts all_manifests names)
        else if has_conflicts conflicts
        then (do ask_conflict conflicts; pure (manifest_json, conflicts))
        else pure (manifest_json, conflicts)
