-- ===== src/Stages/Manifests/Gathered.antt =====
-- tasks/implement.py: what `_merge_manifests` is to keep and to report, and what `path_versions`
-- gathers.
use autonomy_engine.Base.{
  String, ◌≡◌, ◌≢◌, refl, sym, ap, subst, ◌∙◌, Option, none, some, List, [], ◌∷◌, ◌++◌, ltb,
  or_default, length, map, ◌==◌, eq_iff, if◌then◌else◌, All, arith, Bool-cases, inl, inr,
}
use mathlib.Core.List.{append-nil, append_assoc}
use autonomy_engine.Base.Dict.{
  Dict, lookup, NodupKeys, lookup-insert, insert-NodupKeys, AllEntries, insert-AllEntries,
}
use autonomy_engine.Base.Counts.{IsNodup}
use autonomy_engine.World.{Result, ok, raise}
use autonomy_engine.Stages.Manifests.{
  FileEntry, Version, MergeConflict, WinnerPolicy, append_version, add_files, winning, conflict_of,
  Formats, add_loaded, path_versions,
}

-- the versions of one path
abbrev pub versions_of : String → List Version → List Version
versions_of p [] = []
versions_of p (v ∷ vs) = let rest = versions_of p vs in if v.entry.path == p then v ∷ rest else rest

abbrev pub of_chunk : String → List FileEntry → List Version
of_chunk chunk = map (λ f. record { chunk = chunk; entry = f })

-- All entries of the manifests that have a name, in order.
pub data Produced (F : Formats) : List String → List String → List Version → Type 0 where
  no_manifest : {names : List String} → Produced F [] names []
  no_name : {mjs : List String} → Produced F mjs [] []
  one_more :
      {mj n : String} {mjs names : List String} {fs : List FileEntry} {vs : List Version}
      → F.load_files mj ≡ ok fs
      → Produced F mjs names vs
      → Produced F (mj ∷ mjs) (n ∷ names) (of_chunk n fs ++ vs)

abbrev pub entry_at : String → List FileEntry → Option FileEntry
entry_at p [] = none
entry_at p (f ∷ fs) = if f.path == p then some f else entry_at p fs

abbrev pub conflict_at : String → List MergeConflict → Option MergeConflict
conflict_at p [] = none
conflict_at p (c ∷ cs) = if c.path == p then some c else conflict_at p cs

abbrev pub optional_file : Option Version → Option FileEntry
optional_file none = none
optional_file (some v) = some v.entry

-- `files` and `conflicts` are what the code takes of the versions of each path.
pub record IsCollected (F : Formats) (policy : WinnerPolicy) (vs : List Version)
    (files : List FileEntry) (conflicts : List MergeConflict) : Type 0 where
  pub paths_once : IsNodup (map (λ f. f.path) files)
  pub kept : (p : String) → entry_at p files ≡ optional_file (winning policy (versions_of p vs))
  pub reported :
      (p : String)
      → conflict_at p conflicts ≡ (
          if ltb 1 (length (versions_of p vs))
          then some (conflict_of F.hash_content policy p (versions_of p vs))
          else none)

-- The list of a path is not empty, and all of it is for that path.
abbrev pub IsFilled : String → List Version → Type 0
IsFilled p vs = (vs ≢ []) × All (λ v. v.entry.path ≡ p) vs

-- `d` has gathered `vs`.
pub record Gathers (d : Dict (List Version)) (vs : List Version) : Type 0 where
  pub once : NodupKeys d
  pub filled : AllEntries IsFilled d
  pub found : (p : String) → or_default [] (lookup p d) ≡ versions_of p vs

versions_of-append :
    (p : String) (vs ws : List Version)
    → versions_of p (vs ++ ws) ≡ versions_of p vs ++ versions_of p ws
versions_of-append p [] ws = refl
versions_of-append p (v ∷ vs) ws = ground (arith, versions_of-append p vs ws)

versions_of-All : (p : String) (vs : List Version) → All (λ v. v.entry.path ≡ p) (versions_of p vs)
versions_of-All p [] = tt
versions_of-All p (v ∷ vs) = elim (Bool-cases (v.entry.path == p)) [
  | inl same ↦ rw same ((eq_iff v.entry.path p).0 same, versions_of-All p vs)
  | inr differ ↦ rw differ (versions_of-All p vs)
]

append-ne-nil {ℓ} : {A : Type ℓ} (xs : List A) (x : A) → xs ++ (x ∷ []) ≢ []
append-ne-nil [] x h = cc h
append-ne-nil (y ∷ ys) x h = cc h

append-All {ℓ κ} :
    {A : Type ℓ} (Q : A → Type κ) (xs : List A) (x : A) → All Q xs → Q x → All Q (xs ++ (x ∷ []))
append-All Q [] x h q = (q, tt)
append-All Q (y ∷ ys) x (p, h) q = (p, append-All Q ys x h q)

found-append :
    (chunk : String) (f : FileEntry) (d : Dict (List Version)) (vs : List Version)
    → ((p : String) → or_default [] (lookup p d) ≡ versions_of p vs)
    → (p : String)
    → or_default [] (lookup p (append_version d chunk f))
      ≡ versions_of p (vs ++ (record { chunk = chunk; entry = f } ∷ []))
found-append chunk f d vs h p =
    let v : Version = record { chunk = chunk; entry = f } in
    rw (lookup-insert p f.path (or_default [] (lookup f.path d) ++ (v ∷ [])) d) (
      rw (versions_of-append p vs (v ∷ [])) (elim (Bool-cases (f.path == p)) [
        | inl same ↦ rw same (
            ap (λ ws. ws ++ (v ∷ []))
              (subst (λ q. or_default [] (lookup q d) ≡ versions_of p vs)
                (sym ((eq_iff f.path p).0 same)) (h p)))
        | inr differ ↦ rw differ (h p ∙ sym (append-nil (versions_of p vs)))
      ]))

append-Gathers :
    (chunk : String) (f : FileEntry) (d : Dict (List Version)) (vs : List Version)
    → Gathers d vs
    → Gathers (append_version d chunk f) (vs ++ (record { chunk = chunk; entry = f } ∷ []))
append-Gathers chunk f d vs g =
    let v : Version = record { chunk = chunk; entry = f } in
    let old = or_default [] (lookup f.path d) in
    record {
      once = insert-NodupKeys f.path _ d g.once;
      filled =
          insert-AllEntries IsFilled f.path (old ++ (v ∷ [])) d
            (
              append-ne-nil old v,
              append-All (λ v. v.entry.path ≡ f.path) old v
                  (subst (All (λ v. v.entry.path ≡ f.path)) (sym (g.found f.path))
                    (versions_of-All f.path vs))
                  refl,
            )
            g.filled;
      found = found-append chunk f d vs g.found;
    }

add_files-Gathers :
    (chunk : String) (fs : List FileEntry) (d : Dict (List Version)) (vs : List Version)
    → Gathers d vs
    → Gathers (add_files chunk fs d) (vs ++ of_chunk chunk fs)
unfolding add_files
add_files-Gathers chunk [] d vs g = subst (Gathers d) (sym (append-nil vs)) g
add_files-Gathers chunk (f ∷ fs) d vs g =
    let v : Version = record { chunk = chunk; entry = f } in
    subst (Gathers (add_files chunk (f ∷ fs) d)) (append_assoc vs (v ∷ []) (of_chunk chunk fs)) (
      add_files-Gathers chunk fs (append_version d chunk f) (vs ++ (v ∷ []))
        (append-Gathers chunk f d vs g))

module _ (F : Formats) where
  -- What `path_versions` adds to a dict is what was produced.
  pub path_versions-Gathers :
      (mjs names : List String) (d d' : Dict (List Version)) (vs : List Version)
      → Gathers d vs
      → path_versions F mjs names d ≡ ok d'
      → (ws : List Version) × Produced F mjs names ws × Gathers d' (vs ++ ws)
  unfolding path_versions add_loaded
  path_versions-Gathers [] names d d' vs g h = (
    [],
    no_manifest,
    subst (λ x. Gathers x (vs ++ [])) (cc h) (subst (Gathers d) (sym (append-nil vs)) g),
  )
  path_versions-Gathers (mj ∷ mjs) [] d d' vs g h = (
    [],
    no_name,
    subst (λ x. Gathers x (vs ++ [])) (cc h) (subst (Gathers d) (sym (append-nil vs)) g),
  )
  path_versions-Gathers (mj ∷ mjs) (n ∷ ns) d d' vs g h = go (F.load_files mj) refl (λ fs e.
      path_versions-Gathers mjs ns (add_files n fs d) d' (vs ++ of_chunk n fs)
        (add_files-Gathers n fs d vs g) e)
    where
      go :
          (r : Result (List FileEntry))
          → F.load_files mj ≡ r
          → ((fs : List FileEntry)
              → path_versions F mjs ns (add_files n fs d) ≡ ok d'
              → (ws : List Version) × Produced F mjs ns ws
                × Gathers d' ((vs ++ of_chunk n fs) ++ ws))
          → (ws : List Version) × Produced F (mj ∷ mjs) (n ∷ ns) ws × Gathers d' (vs ++ ws)
      go (raise e) q again = let h' = rw (q, path_versions) at h in cc h'
      go (ok fs) q again =
          let (ws, made, gathered) = again fs (rw (q, path_versions) at h) in
          (
            of_chunk n fs ++ ws,
            one_more q made,
            subst (Gathers d') (append_assoc vs (of_chunk n fs) ws) gathered,
          )
