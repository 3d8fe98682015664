-- ===== src/StateFiles.antt =====
-- engine/state_loader.py: files below the state directory.
use autonomy_engine.Base.{String, ◌<>◌, none, some}
use autonomy_engine.Base.Dict.{lookup, insert}
use autonomy_engine.World.{
  Platform, failure, file_not_found, Exec, pure, throw, gets, modify, ◌>>=◌,
}
use autonomy_engine.Context.{get_state_dir}

module _ (P : Platform) where
  unfoldable pub load_state_file : String → Exec String
  unfolding get_state_dir lookup
  load_state_file name = do
    state ← get_state_dir P
    found ← gets (λ w. lookup (state <> "/" <> name) w.files)
    elim found [
      | none ↦ throw (failure file_not_found ("State file not found: " <> state <> "/" <> name))
      | some content ↦ pure content
    ]

  unfoldable pub save_state_file : String → String → Exec (Unit {0})
  unfolding get_state_dir insert
  save_state_file name content = do
    state ← get_state_dir P
    modify (λ w. record w { files = insert (state <> "/" <> name) content w.files })
