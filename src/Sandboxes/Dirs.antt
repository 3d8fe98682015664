-- ===== src/Sandboxes/Dirs.antt =====
-- shutil.copytree and shutil.rmtree, as engine/sandbox.py uses them.
use Prim.Native.String.{slice, len}
use autonomy_engine.Base.{String, ◌<>◌, [], ◌∷◌, Bool, true, false, starts_with, if◌then◌else◌}
use autonomy_engine.Base.Dict.{Dict, insert}
use autonomy_engine.World.{World, file_not_found, file_exists, failure, ok, raise, Exec}

-- what of a path comes after its directory
abbrev pub relative : String → String → String
relative dir path = slice path (len dir) (len path)

-- whether a path is below a directory
abbrev pub is_below : String → String → Bool
is_below dir path = starts_with path (dir <> "/")

-- the entries below `src`, again below `dst`
unfoldable pub copy_below {ℓ} : {V : Type ℓ} → String → String → Dict V → Dict V → Dict V
unfolding insert
copy_below src dst [] d = d
copy_below src dst ((path, v) ∷ from) d =
    copy_below src dst from (if is_below src path then insert (dst <> relative src path) v d else d)

unfoldable pub any_below {ℓ} : {V : Type ℓ} → String → Dict V → Bool
any_below dir [] = false
any_below dir ((path, v) ∷ d) = if is_below dir path then true else any_below dir d

-- whether a directory is there: it holds a file or an environment
unfoldable pub is_there : String → World → Bool
unfolding any_below
is_there dir w = if any_below dir w.files then true else any_below dir w.venvs

-- whether there is such a source, and such a destination
unfoldable pub copy_checked : (found taken : Bool) → (src dst : String) → Exec (Unit {0})
unfolding copy_below
copy_checked false taken src dst w = (raise (failure file_not_found src), w)
copy_checked true true src dst w = (raise (failure file_exists dst), w)
copy_checked true false src dst w = (
  ok tt,
  record w {
    files = copy_below src dst w.files w.files;
    venvs = copy_below src dst w.venvs w.venvs;
  },
)

-- shutil.copytree of a project
unfoldable pub copy_project : String → String → Exec (Unit {0})
unfolding is_there copy_checked
copy_project src dst w = copy_checked (is_there src w) (is_there dst w) src dst w

-- the entries of which `gone` is false
unfoldable pub without {ℓ} : {V : Type ℓ} → (String → Bool) → Dict V → Dict V
without gone [] = []
without gone ((path, v) ∷ d) =
    let rest = without gone d in if gone path then rest else (path, v) ∷ rest

-- what is removed with a directory
abbrev pub goes : (String → Bool) → String → String → Bool
goes removable dir path = if is_below dir path then removable path else false

-- shutil.rmtree(dir, ignore_errors=True): what cannot be removed stays
unfoldable pub rmtree : (String → Bool) → String → World → World
unfolding without
rmtree removable dir w = record w {
  files = without (goes removable dir) w.files;
  venvs = without (goes removable dir) w.venvs;
}
