-- ===== src/Stages/Manifests/Collected.antt =====
-- tasks/implement.py: what `_merge_manifests` takes of the versions that it has gathered.
use autonomy_engine.Base.{
  String, ◌≡◌, refl, ap, subst, ◌∙◌, Option, none, some, List, [], ◌∷◌, true, false, ltb,
  or_default, length, map, ◌==◌, eq_iff, if◌then◌else◌, arith, Bool-cases, inl, inr,
}
use autonomy_engine.Base.Dict.{Dict, lookup, has_key, NodupKeys, AllEntries, lookup-absent}
use autonomy_engine.Base.Counts.{occurrences}
use autonomy_engine.World.{Result, ok, raise}
use autonomy_engine.Stages.Manifests.{
  FileEntry, Version, MergeConflict, WinnerPolicy, first, last, first_of, winning, merged_files,
  conflict_of, conflicts_of, Formats, chunk_names, path_versions, merge_manifests,
}
use autonomy_engine.Stages.Manifests.Gathered.{
  versions_of, Produced, entry_at, conflict_at, optional_file, IsCollected, IsFilled, Gathers,
  path_versions-Gathers,
}

pub winning-first : (vs : List Version) → winning first vs ≡ first_of vs
winning-first [] = refl
winning-first (v ∷ []) = refl
winning-first (v ∷ w ∷ ws) = ground arith

winning-at :
    (policy : WinnerPolicy) (p : String) (vs : List Version)
    → IsFilled p vs
    → (v : Version) × (winning policy vs ≡ some v) × (v.entry.path ≡ p)
winning-at policy p [] (some_version, at) = absurd (some_version refl)
winning-at first p (v ∷ vs) (some_version, (at, rest)) = (v, winning-first (v ∷ vs), at)
winning-at last p (v ∷ []) (some_version, (at, rest)) = (v, refl, at)
winning-at last p (v ∷ w ∷ ws) (some_version, (at, rest)) =
    winning-at last p (w ∷ ws) ((λ h. cc h), rest)

nothing :
    (policy : WinnerPolicy) → ◌≡◌ {A = Option FileEntry} none (optional_file (winning policy []))
nothing first = refl
nothing last = refl

module _ (policy : WinnerPolicy) where
  abbrev kept_of : Option (List Version) → Option FileEntry
  kept_of none = none
  kept_of (some vs) = optional_file (winning policy vs)

  entry_at-merged :
      (p : String) (d : Dict (List Version))
      → AllEntries IsFilled d
      → entry_at p (merged_files policy d) ≡ kept_of (lookup p d)
  unfolding merged_files lookup
  entry_at-merged p [] h = refl
  entry_at-merged p ((j, vs) ∷ d) (filled, h) =
      let (v, wins, at) = winning-at policy j vs filled in
      rw wins (
        rw at (elim (Bool-cases (j == p)) [
          | inl same ↦ rw same (rw wins refl)
          | inr differ ↦ rw differ (entry_at-merged p d h)
        ]))

  occurrences-merged :
      (p : String) (d : Dict (List Version))
      → AllEntries IsFilled d
      → NodupKeys d
      → occurrences p (map (λ f. f.path) (merged_files policy d)) ≡ (if has_key p d then 1 else 0)
  unfolding merged_files has_key lookup
  occurrences-merged p [] h once = refl
  occurrences-merged p ((j, vs) ∷ d) (filled, h) (new, once) =
      let (v, wins, at) = winning-at policy j vs filled in
      let rest = occurrences-merged p d h once in
      rw wins (rw at (ground (arith, eq_iff j p, rest, new)))

  module _ (hash : String → String) where
    abbrev conflict_from : String → Option (List Version) → Option MergeConflict
    conflict_from p none = none
    conflict_from p (some vs) =
        if ltb 1 (length vs) then some (conflict_of hash policy p vs) else none

    conflict_at-conflicts :
        (p : String) (d : Dict (List Version))
        → NodupKeys d
        → conflict_at p (conflicts_of hash policy d) ≡ conflict_from p (lookup p d)
    unfolding conflicts_of lookup has_key conflict_of
    conflict_at-conflicts p [] once = refl
    conflict_at-conflicts p ((j, vs) ∷ d) (new, once) =
        let rest = conflict_at-conflicts p d once in
        elim (Bool-cases (ltb 1 (length vs))) [
          | inl many ↦ rw many (elim (Bool-cases (j == p)) [
            | inl same ↦ rw same (rw many (rw ((eq_iff j p).0 same) refl))
            | inr differ ↦ rw differ rest
          ])
          | inr few ↦ rw few (elim (Bool-cases (j == p)) [
            | inl same ↦ rw same (rw few (rest ∙ ap (conflict_from p) (gone same)))
            | inr differ ↦ rw differ rest
          ])
        ]
      where
        gone : (j == p) ≡ true → lookup p d ≡ none
        gone same = lookup-absent p d (subst (λ q. has_key q d ≡ false) ((eq_iff j p).0 same) new)

  kept_found :
      (p : String) (d : Dict (List Version)) (vs : List Version)
      → Gathers d vs
      → kept_of (lookup p d) ≡ optional_file (winning policy (versions_of p vs))
  kept_found p d vs g = rw (← g.found p) (go (lookup p d))
    where
      go :
          (o : Option (List Version)) → kept_of o ≡ optional_file (winning policy (or_default [] o))
      go none = nothing policy
      go (some ws) = refl

  reported_found :
      (hash : String → String) (p : String) (d : Dict (List Version)) (vs : List Version)
      → Gathers d vs
      → conflict_from hash p (lookup p d) ≡ (
          if ltb 1 (length (versions_of p vs))
          then some (conflict_of hash policy p (versions_of p vs))
          else none)
  reported_found hash p d vs g = rw (← g.found p) (go (lookup p d))
    where
      go :
          (o : Option (List Version))
          → conflict_from hash p o ≡ (
              if ltb 1 (length (or_default [] o))
              then some (conflict_of hash policy p (or_default [] o))
              else none)
      go none = refl
      go (some ws) = refl

module _ (F : Formats) where
  gathered-IsCollected :
      (policy : WinnerPolicy) (d : Dict (List Version)) (vs : List Version)
      → Gathers d vs
      → IsCollected F policy vs (merged_files policy d) (conflicts_of F.hash_content policy d)
  gathered-IsCollected policy d vs g = record {
    paths_once = λ p. ground (arith, occurrences-merged policy p d g.filled g.once);
    kept = λ p. entry_at-merged policy p d g.filled ∙ kept_found policy p d vs g;
    reported = λ p.
        conflict_at-conflicts policy F.hash_content p d g.once
        ∙ reported_found policy F.hash_content p d vs g;
  }

  -- What `_merge_manifests` returns is collected from the entries of all manifests.
  pub merge-IsCollected :
      (manifests names : List String) (policy : WinnerPolicy) (files : List FileEntry)
      (conflicts : List MergeConflict)
      → merge_manifests F manifests names policy ≡ ok (files, conflicts)
      → (vs : List Version) × Produced F manifests (chunk_names F manifests names) vs
        × IsCollected F policy vs files conflicts
  unfolding merge_manifests
  merge-IsCollected manifests names policy files conflicts h =
      go (path_versions F manifests (chunk_names F manifests names) []) refl
    where
      go :
          (r : Result (Dict (List Version)))
          → path_versions F manifests (chunk_names F manifests names) [] ≡ r
          → (vs : List Version) × Produced F manifests (chunk_names F manifests names) vs
            × IsCollected F policy vs files conflicts
      go (raise e) q = let h' = rw (q, merge_manifests) at h in cc h'
      go (ok d) q =
          let h' = rw (q, merge_manifests) at h in
          let (vs, made, g) =
            path_versions-Gathers F manifests (chunk_names F manifests names) [] d []
              (record { once = tt; filled = tt; found = λ p. unfold lookup in refl }) q in
          let merged = gathered-IsCollected policy d vs g in
          let same_files : merged_files policy d ≡ files = cc h' in
          let same_conflicts : conflicts_of F.hash_content policy d ≡ conflicts = cc h' in
          (
            vs,
            made,
            subst (λ fs. IsCollected F policy vs fs conflicts) same_files
                (subst (IsCollected F policy vs (merged_files policy d)) same_conflicts merged),
          )
