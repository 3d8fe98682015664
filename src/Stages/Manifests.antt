-- ===== src/Stages/Manifests.antt =====
-- tasks/implement.py: the manifests of the chunks of an implementation, merged into one, and the
-- gate for paths that several chunks produced.
pub mod Gate
pub mod Gathered
pub mod Collected
pub mod Merged
pub mod Chosen
use Prim.Native.String.{count}
use autonomy_engine.Base.{
  ℕ, zero, suc, ◌+◌, String, ◌<>◌, Option, none, some, List, [], ◌∷◌, ◌++◌, Bool, true, false, ltb,
  eqb, or_default, length, map, ◌==◌, if◌then◌else◌,
}
use autonomy_engine.Base.Dict.{Dict, lookup, insert}
use autonomy_engine.World.Json.{Json}
use autonomy_engine.World.{Result, ok, raise}
use autonomy_engine.Gates.{take_text}

-- An entry of a manifest's "files": `rest` is what it has besides.
pub record FileEntry : Type 0 where
  pub path : String
  pub content : Option String
  pub rest : Dict Json

-- an entry, with the name of the chunk that has it
pub record Version : Type 0 where
  pub chunk : String
  pub entry : FileEntry

pub record VersionSummary : Type 0 where
  pub chunk : String
  pub sha256 : String
  pub size : ℕ
  pub content_preview : String

pub record MergeConflict : Type 0 where
  pub path : String
  pub chunks : List String
  pub winner : String
  pub versions : List VersionSummary

pub data WinnerPolicy : Type 0 where
  first last : WinnerPolicy

-- xs[0] and xs[-1]
abbrev pub first_of {ℓ} : {A : Type ℓ} → List A → Option A
first_of [] = none
first_of (x ∷ xs) = some x

abbrev pub last_of {ℓ} : {A : Type ℓ} → List A → Option A
last_of [] = none
last_of (x ∷ []) = some x
last_of (x ∷ y ∷ ys) = last_of (y ∷ ys)

-- `hash` is hash_content
unfoldable pub summarize_file_version : (String → String) → FileEntry → String → VersionSummary
unfolding take_text
summarize_file_version hash f chunk_name =
    let content = or_default "" f.content in
    let preview = take_text 200 content in
    record {
      chunk = chunk_name;
      sha256 = hash content;
      size = count content;
      content_preview = if ltb 200 (count content) then preview <> "…" else preview;
    }

-- path_versions.setdefault(path, []).append((chunk_name, f))
abbrev pub append_version : Dict (List Version) → String → FileEntry → Dict (List Version)
append_version d chunk f =
    insert f.path (or_default [] (lookup f.path d) ++ (record { chunk = chunk; entry = f } ∷ [])) d

-- for f in parsed["files"]
unfoldable pub add_files : String → List FileEntry → Dict (List Version) → Dict (List Version)
unfolding lookup insert
add_files chunk [] d = d
add_files chunk (f ∷ fs) d = add_files chunk fs (append_version d chunk f)

-- The entry that the policy keeps. The list of a path is never empty.
abbrev pub winning : WinnerPolicy → List Version → Option Version
winning last vs = last_of vs
winning first vs = if eqb (length vs) 1 then last_of vs else first_of vs

-- The chunk that is reported as the winner, of the owners of a path.
abbrev pub winner_name : WinnerPolicy → List String → String
winner_name first owners = or_default "" (first_of owners)
winner_name last owners = or_default "" (last_of owners)

abbrev pub optional_entry : Option Version → List FileEntry
optional_entry none = []
optional_entry (some v) = v.entry ∷ []

unfoldable pub merged_files : WinnerPolicy → Dict (List Version) → List FileEntry
merged_files policy [] = []
merged_files policy ((path, vs) ∷ d) = optional_entry (winning policy vs) ++ merged_files policy d

module _ (hash : String → String) where
  unfoldable pub conflict_of : WinnerPolicy → String → List Version → MergeConflict
  unfolding summarize_file_version
  conflict_of policy path vs = record {
    path = path;
    chunks = map (λ v. v.chunk) vs;
    winner = winner_name policy (map (λ v. v.chunk) vs);
    versions = map (λ v. summarize_file_version hash v.entry v.chunk) vs;
  }

  unfoldable pub conflicts_of : WinnerPolicy → Dict (List Version) → List MergeConflict
  unfolding conflict_of
  conflicts_of policy [] = []
  conflicts_of policy ((path, vs) ∷ d) =
      let rest = conflicts_of policy d in
      if ltb 1 (length vs) then conflict_of policy path vs ∷ rest else rest

-- What the module calls: hash_content, `json.loads(mj)["files"]` or what it raises, the text of a
-- merged manifest, of a conflict report, and of a number.
pub record Formats : Type 0 where
  pub hash_content : String → String
  pub load_files : String → Result (List FileEntry)
  pub dump_manifest : List FileEntry → String
  pub dump_conflicts : List MergeConflict → String
  pub chunk_label : ℕ → String

module _ (F : Formats) where
  -- component_names or [f"chunk_{i}" for i in range(len(manifest_jsons))]
  unfoldable pub labels_from : ℕ → List String → List String
  labels_from i [] = []
  labels_from i (mj ∷ mjs) = F.chunk_label i ∷ labels_from (suc i) mjs

  unfoldable pub chunk_names : List String → List String → List String
  unfolding labels_from
  chunk_names manifests [] = labels_from 0 manifests
  chunk_names manifests (n ∷ ns) = n ∷ ns

  unfoldable pub add_loaded :
      Result (List FileEntry) → String → Dict (List Version) → Result (Dict (List Version))
  unfolding add_files
  add_loaded (ok fs) chunk d = ok (add_files chunk fs d)
  add_loaded (raise e) chunk d = raise e

  -- for mj, chunk_name in zip(manifest_jsons, names)
  unfoldable pub path_versions :
      List String → List String → Dict (List Version) → Result (Dict (List Version))
  unfolding add_loaded
  path_versions [] names d = ok d
  path_versions (mj ∷ mjs) [] d = ok d
  path_versions (mj ∷ mjs) (n ∷ ns) d = elim (add_loaded (F.load_files mj) n d) [
    | ok d' ↦ path_versions mjs ns d'
    | raise e ↦ raise e
  ]

  unfoldable pub merge_manifests :
      List String → List String → WinnerPolicy → Result (List FileEntry × List MergeConflict)
  unfolding chunk_names path_versions merged_files conflicts_of
  merge_manifests manifests names policy =
      elim (path_versions manifests (chunk_names manifests names) []) [
        | ok d ↦ ok (merged_files policy d, conflicts_of F.hash_content policy d)
        | raise e ↦ raise e
      ]
