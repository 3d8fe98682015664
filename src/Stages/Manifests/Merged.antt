-- ===== src/Stages/Manifests/Merged.antt =====
-- tasks/implement.py: what `_merge_manifests` keeps and what it reports.
use Prim.Native.String.{count}
use autonomy_engine.Base.{
  ◌≤◌, ◌<◌, String, ◌≡◌, refl, ap, ◌∙◌, Option, none, some, List, [], ◌∷◌, or_default, ◌<>◌, length,
  map, ◌==◌, if◌then◌else◌, arith, Bool-cases, inl, inr,
}
use autonomy_engine.Base.Counts.{IsNodup}
use autonomy_engine.Gates.{take_text}
use autonomy_engine.World.{ok}
use autonomy_engine.Stages.Manifests.{
  FileEntry, Version, VersionSummary, MergeConflict, WinnerPolicy, first, last, first_of, last_of,
  winning, winner_name, summarize_file_version, conflict_of, Formats, chunk_names, merge_manifests,
}
use autonomy_engine.Stages.Manifests.Gathered.{
  versions_of, Produced, entry_at, conflict_at, optional_file, IsCollected,
}
use autonomy_engine.Stages.Manifests.Collected.{winning-first, merge-IsCollected}

-- the later one of two, where there is one
abbrev pub later_or : Option Version → Option Version → Option Version
later_or o none = o
later_or o (some later) = some later

-- The version of a path that the policy keeps, of all versions of all paths in order.
abbrev pub kept_version : WinnerPolicy → String → List Version → Option Version
kept_version policy p [] = none
kept_version first p (v ∷ vs) = if v.entry.path == p then some v else kept_version first p vs
kept_version last p (v ∷ vs) =
    later_or (if v.entry.path == p then some v else none) (kept_version last p vs)

-- What a report says of a version: its content by its hash, its length and how it begins.
abbrev pub IsSummary : (String → String) → Version → VersionSummary → Type 0
IsSummary hash v s =
    let content = or_default "" v.entry.content in
    (s.chunk ≡ v.chunk)
    × (s.sha256 ≡ hash content)
    × (s.size ≡ count content)
    × (count content ≤ 200 → s.content_preview ≡ take_text 200 content)
    × (200 < count content → s.content_preview ≡ take_text 200 content <> "…")

abbrev pub AreSummaries : (String → String) → List Version → List VersionSummary → Type 0
AreSummaries hash [] [] = Unit
AreSummaries hash [] (s ∷ ss) = ⊥
AreSummaries hash (v ∷ vs) [] = ⊥
AreSummaries hash (v ∷ vs) (s ∷ ss) = IsSummary hash v s × AreSummaries hash vs ss

-- A report of a path, of which there are these versions.
pub record IsReport (hash : String → String) (policy : WinnerPolicy) (p : String)
    (vs : List Version) (c : MergeConflict) : Type 0 where
  pub of_path : c.path ≡ p
  pub owners : c.chunks ≡ map (λ v. v.chunk) (versions_of p vs)
  pub of_winner : (v : Version) → kept_version policy p vs ≡ some v → c.winner ≡ v.chunk
  pub summaries : AreSummaries hash (versions_of p vs) c.versions

-- `files` and `conflicts` are the merge of `vs`.
pub record IsMergeOf (F : Formats) (policy : WinnerPolicy) (vs : List Version)
    (files : List FileEntry) (conflicts : List MergeConflict) : Type 0 where
  pub paths_once : IsNodup (map (λ f. f.path) files)
  pub kept : (p : String) → entry_at p files ≡ optional_file (kept_version policy p vs)
  pub agreed : (p : String) → length (versions_of p vs) ≤ 1 → conflict_at p conflicts ≡ none
  pub disputed :
      (p : String)
      → 2 ≤ length (versions_of p vs)
      → (c : MergeConflict) × (conflict_at p conflicts ≡ some c)
        × IsReport F.hash_content policy p vs c

first_of-versions :
    (p : String) (vs : List Version) → first_of (versions_of p vs) ≡ kept_version first p vs
first_of-versions p [] = refl
first_of-versions p (v ∷ vs) = elim (Bool-cases (v.entry.path == p)) [
  | inl same ↦ rw same refl
  | inr differ ↦ rw differ (first_of-versions p vs)
]

last_some : (v : Version) (vs : List Version) → (w : Version) × (last_of (v ∷ vs) ≡ some w)
last_some v [] = (v, refl)
last_some v (w ∷ ws) = last_some w ws

last_of-cons : (v : Version) (vs : List Version) → last_of (v ∷ vs) ≡ later_or (some v) (last_of vs)
last_of-cons v [] = refl
last_of-cons v (w ∷ ws) = let (x, e) = last_some w ws in rw e refl

later_or-none : (o : Option Version) → o ≡ later_or none o
later_or-none none = refl
later_or-none (some v) = refl

last_of-versions :
    (p : String) (vs : List Version) → last_of (versions_of p vs) ≡ kept_version last p vs
last_of-versions p [] = refl
last_of-versions p (v ∷ vs) =
    let rest = last_of-versions p vs in
    elim (Bool-cases (v.entry.path == p)) [
      | inl same ↦ rw same (last_of-cons v (versions_of p vs) ∙ ap (later_or (some v)) rest)
      | inr differ ↦ rw differ (rest ∙ later_or-none (kept_version last p vs))
    ]

winning-versions :
    (policy : WinnerPolicy) (p : String) (vs : List Version)
    → winning policy (versions_of p vs) ≡ kept_version policy p vs
winning-versions first p vs = winning-first (versions_of p vs) ∙ first_of-versions p vs
winning-versions last p vs = last_of-versions p vs

first_of-map :
    (vs : List Version) (v : Version)
    → first_of vs ≡ some v
    → first_of (map (λ v. v.chunk) vs) ≡ some v.chunk
first_of-map [] v h = absurd (cc h)
first_of-map (w ∷ ws) v h = let same : w ≡ v = cc h in ap (λ v. some v.chunk) same

last_of-map :
    (vs : List Version) (v : Version)
    → last_of vs ≡ some v
    → last_of (map (λ v. v.chunk) vs) ≡ some v.chunk
last_of-map [] v h = absurd (cc h)
last_of-map (w ∷ []) v h = let same : w ≡ v = cc h in ap (λ v. some v.chunk) same
last_of-map (w ∷ x ∷ xs) v h = last_of-map (x ∷ xs) v h

named_winner :
    (policy : WinnerPolicy) (p : String) (vs : List Version) (v : Version)
    → kept_version policy p vs ≡ some v
    → winner_name policy (map (λ v. v.chunk) (versions_of p vs)) ≡ v.chunk
named_winner first p vs v h =
    rw (first_of-map (versions_of p vs) v (first_of-versions p vs ∙ h)) refl
named_winner last p vs v h = rw (last_of-map (versions_of p vs) v (last_of-versions p vs ∙ h)) refl

summarize-IsSummary :
    (hash : String → String) (v : Version)
    → IsSummary hash v (summarize_file_version hash v.entry v.chunk)
unfolding summarize_file_version
summarize-IsSummary hash v = (refl, refl, refl, λ h. ground (arith, h), λ h. ground (arith, h))

summaries-AreSummaries :
    (hash : String → String) (vs : List Version)
    → AreSummaries hash vs (map (λ v. summarize_file_version hash v.entry v.chunk) vs)
summaries-AreSummaries hash [] = tt
summaries-AreSummaries hash (v ∷ vs) = (summarize-IsSummary hash v, summaries-AreSummaries hash vs)

conflict-IsReport :
    (hash : String → String) (policy : WinnerPolicy) (p : String) (vs : List Version)
    → IsReport hash policy p vs (conflict_of hash policy p (versions_of p vs))
unfolding conflict_of
conflict-IsReport hash policy p vs = record {
  of_path = refl;
  owners = refl;
  of_winner = named_winner policy p vs;
  summaries = summaries-AreSummaries hash (versions_of p vs);
}

collected-IsMergeOf :
    (F : Formats) (policy : WinnerPolicy) (vs : List Version) (files : List FileEntry)
    (conflicts : List MergeConflict)
    → IsCollected F policy vs files conflicts
    → IsMergeOf F policy vs files conflicts
collected-IsMergeOf F policy vs files conflicts m = record {
  paths_once = m.paths_once;
  kept = λ p. m.kept p ∙ ap optional_file (winning-versions policy p vs);
  agreed = λ p few. m.reported p ∙ ground (arith, few);
  disputed = λ p many. (
    conflict_of F.hash_content policy p (versions_of p vs),
    m.reported p ∙ ground (arith, many),
    conflict-IsReport F.hash_content policy p vs,
  );
}

-- When `_merge_manifests` returns, then for the entries of all manifests that have a name, in
-- order, the merged files have each path once at most; the file at a path is the first or the
-- last entry of that path, as the policy says, and there is none for a path without an entry;
-- a conflict is reported for a path just if it has more than one entry, and it names their
-- chunks in order with the one whose entry is kept, and has a summary of each.
pub merge-IsMergeOf :
    (F : Formats) (manifests names : List String) (policy : WinnerPolicy) (files : List FileEntry)
    (conflicts : List MergeConflict)
    → merge_manifests F manifests names policy ≡ ok (files, conflicts)
    → (vs : List Version) × Produced F manifests (chunk_names F manifests names) vs
      × IsMergeOf F policy vs files conflicts
merge-IsMergeOf F manifests names policy files conflicts h =
    let (vs, made, m) = merge-IsCollected F manifests names policy files conflicts h in
    (vs, made, collected-IsMergeOf F policy vs files conflicts m)
