-- ===== src/Stages/Extract.antt =====
-- tasks/extract.py: limits on a manifest, safe paths, and the files that are written. The warnings on
-- their content are only logged, and are left out.
pub mod Confined
use Prim.Native.Char.{code}
use Prim.Native.String.{len}
use autonomy_engine.Base.{
  ℕ, ◌+◌, String, ◌<>◌, Option, none, some, List, [], ◌∷◌, ◌++◌, Bool, true, false, eqb, ltb, ◌==◌,
  truthy, contains, starts_with, length, map, if◌then◌else◌,
}
use autonomy_engine.Base.Dict.{insert}
use autonomy_engine.World.{
  Platform, World, failure, value_error, runtime_error, Result, ok, raise, Exec, pure, throw,
  modify, lift, ◌>>=◌, ◌>>◌,
}

-- `FileEntry` of tasks/manifest_schema.py
pub record ManifestEntry : Type 0 where
  pub path : String
  pub content : String

-- engine/tier_context.py: `is_mvp`, for the tier of the thread
abbrev pub is_mvp : Option String → Bool
is_mvp none = false
is_mvp (some tier) = tier == "mvp"

abbrev pub max_files : Option String → ℕ
max_files tier = if is_mvp tier then 80 else 250

abbrev pub max_bytes : Option String → ℕ
max_bytes tier = if is_mvp tier then 750000 else 5000000

-- the bytes of the contents in UTF-8
unfoldable pub total_bytes : List ManifestEntry → ℕ
total_bytes [] = 0
total_bytes (e ∷ es) = len e.content + total_bytes es

pub data Violation : Type 0 where
  too_many_files too_many_bytes : ℕ → ℕ → Violation

abbrev pub violation_if : Bool → Violation → List Violation
violation_if true v = v ∷ []
violation_if false v = []

unfoldable pub violations : Option String → List ManifestEntry → List Violation
unfolding total_bytes
violations tier files =
    violation_if (ltb (max_files tier) (length files))
      (too_many_files (length files) (max_files tier))
    ++ violation_if (ltb (max_bytes tier) (total_bytes files))
        (too_many_bytes (total_bytes files) (max_bytes tier))

unfoldable pub check_extraction_limits : Option String → List ManifestEntry → Result (Unit {0})
unfolding violations
check_extraction_limits tier files = elim (violations tier files) [
  | [] ↦ ok tt
  | v ∷ vs ↦ raise (failure runtime_error "Extraction circuit breaker tripped")
]

-- one character more at the start of the first segment
abbrev pub push_char : String → List String → List String
push_char c [] = c ∷ []
push_char c (s ∷ ss) = (c <> s) ∷ ss

-- s.split("/")
unfoldable pub split_slash : String → List String
split_slash String.[] = "" ∷ []
split_slash (String.◌∷◌ c s) =
    let rest = split_slash s in
    if eqb (code c) b'/' then "" ∷ rest else push_char (String.◌∷◌ c String.[]) rest

-- Path(p).parts of a relative path: no empty segment and no "."
unfoldable pub keep_parts : List String → List String
keep_parts [] = []
keep_parts (s ∷ ss) =
    let rest = keep_parts ss in if s == "" then rest else if s == "." then rest else s ∷ rest

unfoldable pub parts_of : String → List String
unfolding split_slash keep_parts
parts_of p = keep_parts (split_slash p)

-- "/".join(parts)
unfoldable pub join_parts : List String → String
join_parts [] = ""
join_parts (s ∷ ss) = "/" <> s <> join_parts ss

-- whether the parts of a path begin with those of another
abbrev pub begins_with : List String → List String → Bool
begins_with ss [] = true
begins_with [] (t ∷ ts) = false
begins_with (s ∷ ss) (t ∷ ts) = let rest = begins_with ss ts in if s == t then rest else false

-- p.is_relative_to(q) of two absolute paths
unfoldable pub is_relative_to : String → String → Bool
unfolding parts_of
is_relative_to p q = begins_with (parts_of p) (parts_of q)

module _ (P : Platform) where
  -- not part.strip()
  unfoldable pub has_blank : List String → Bool
  has_blank [] = false
  has_blank (s ∷ ss) = let rest = has_blank ss in if truthy (P.strip s) then rest else true

  abbrev pub refused : String → Result String
  refused reason = raise (failure value_error reason)

  unfoldable pub contained : String → String → Result String
  unfolding is_relative_to
  contained output_dir resolved =
      if is_relative_to resolved (P.resolve output_dir)
      then ok resolved
      else refused "Path escapes output directory"

  unfoldable pub safe_path : String → String → Result String
  unfolding parts_of join_parts has_blank contained
  safe_path output_dir filepath =
      if truthy (P.strip filepath)
      then (if starts_with filepath "/"
          then refused "Absolute path not allowed"
          else if contains ".." (parts_of filepath)
          then refused "Parent traversal not allowed"
          else if has_blank (parts_of filepath)
          then refused "Empty path segment"
          else contained output_dir (P.resolve (output_dir <> join_parts (parts_of filepath))))
      else refused "Empty file path"

  unfoldable pub write_file : String → String → World → World
  unfolding insert
  write_file path content w = record w { files = insert path content w.files }

  -- for entry in manifest.files
  unfoldable pub write_files : String → List ManifestEntry → Exec (Unit {0})
  unfolding safe_path write_file
  write_files output_dir [] = pure tt
  write_files output_dir (e ∷ es) = do
    dest ← lift (safe_path output_dir e.path)
    modify (write_file dest (e.content <> "\n"))
    write_files output_dir es
