-- ===== src/Tracer/Keys.antt =====
-- engine/tracer.py: where the HMAC key of a run is kept, and how it is written, moved and read.
-- Modes of files and directories are not modelled.
pub mod Kept
use autonomy_engine.Base.{
  ℕ, zero, suc, String, ◌<>◌, Option, none, some, [], starts_with, truthy, or_default,
  if◌then◌else◌,
}
use autonomy_engine.Base.Dict.{lookup, insert, remove, has_key}
use autonomy_engine.World.{
  Platform, World, runtime_error, value_error, file_exists, failure, Result, ok, raise, Exec, pure,
  throw, gets, modify, ◌>>=◌, ◌>>◌,
}
use autonomy_engine.Context.{get_state_dir}

-- s[n:]
unfoldable pub drop_text : ℕ → String → String
drop_text zero s = s
drop_text (suc n) String.[] = String.[]
drop_text (suc n) (String.◌∷◌ c s) = drop_text n s

pub data KeyLocation : Type 0 where
  directory : String → KeyLocation
  keyring : String → KeyLocation

abbrev pub key_path : String → String → String
key_path dir run_id = dir <> "/" <> run_id <> ".key"

abbrev pub legacy_path : String → String → String
legacy_path state run_id = state <> "/runs/" <> run_id <> "/.trace_key"

module _ (P : Platform) where
  key_location : String → Result KeyLocation
  key_location env =
      if truthy env
      then if starts_with env "keyring:"
        then (let service = P.strip (drop_text 8 env) in
            if truthy service
            then ok (keyring service)
            else raise (failure value_error "keyring: requires a service name"))
        else ok (directory (P.resolve env))
      else ok (directory (P.home <> "/.autonomy_engine/keys"))

  unfoldable pub resolve_key_dir : Exec KeyLocation
  unfolding key_location lookup
  resolve_key_dir w = (key_location (P.strip (or_default "" (lookup "AE_TRACE_KEY_DIR" w.env))), w)

  write_file : String → String → Exec (Option String)
  unfolding has_key insert
  write_file path key w =
      if has_key path w.keys
      then (raise (failure file_exists path), w)
      else (ok (some path), record w { keys = insert path key w.keys })

  set_password : String → String → String → World → World
  unfolding insert lookup
  set_password service run_id key w = record w {
    keyring =
        insert service (insert run_id key (or_default [] (lookup service w.keyring))) w.keyring;
  }

  write_at : KeyLocation → String → String → Exec (Option String)
  unfolding write_file set_password
  write_at (keyring service) run_id key =
      if P.keyring_installed
      then (do modify (set_password service run_id (P.b64encode key)); pure none)
      else throw (failure runtime_error "the keyring library is not installed")
  write_at (directory dir) run_id key = write_file (key_path dir run_id) key

  unfoldable pub write_hmac_key : String → String → Exec (Option String)
  unfolding resolve_key_dir write_at
  write_hmac_key run_id key = do loc ← resolve_key_dir; write_at loc run_id key

  -- the legacy key goes to the new path, and a breadcrumb stays beside it
  move_key : String → String → String → String → World → World
  unfolding insert remove
  move_key state run_id new_path key w = record w {
    keys = remove (legacy_path state run_id) (insert new_path key w.keys);
    files =
        insert (state <> "/runs/" <> run_id <> "/.trace_key_moved")
          ("Key relocated to " <> new_path) w.files;
    ticks = suc w.ticks;
  }

  move_found : String → String → String → Option String → Exec (Option String)
  unfolding has_key move_key
  move_found state run_id new_path none w = (ok none, w)
  move_found state run_id new_path (some key) w =
      if has_key new_path w.keys
      then (raise (failure file_exists new_path), w)
      else (ok (some key), move_key state run_id new_path key w)

  unfoldable pub migrate_legacy_key : String → String → Exec (Option String)
  unfolding get_state_dir move_found lookup
  migrate_legacy_key run_id new_path = do
    state ← get_state_dir P
    legacy ← gets (λ w. lookup (legacy_path state run_id) w.keys)
    move_found state run_id new_path legacy

  load_file : String → String → Option String → Exec (Option String)
  unfolding migrate_legacy_key
  load_file run_id new_path (some key) = pure (some key)
  load_file run_id new_path none = migrate_legacy_key run_id new_path

  abbrev pub decoded : Option String → Result (Option String)
  decoded none = raise (failure value_error "Incorrect padding")
  decoded (some key) = ok (some key)

  -- of `keyring.get_password`
  abbrev pub from_password : Option String → Result (Option String)
  from_password none = ok none
  from_password (some encoded) = decoded (P.b64decode encoded)

  load_at : KeyLocation → String → Exec (Option String)
  unfolding load_file lookup
  load_at (keyring service) run_id w = (
    if P.keyring_installed
        then from_password (lookup run_id (or_default [] (lookup service w.keyring)))
        else ok none,
    w,
  )
  load_at (directory dir) run_id w =
      load_file run_id (key_path dir run_id) (lookup (key_path dir run_id) w.keys) w

  unfoldable pub load_hmac_key : String → Exec (Option String)
  unfolding resolve_key_dir load_at
  load_hmac_key run_id = do loc ← resolve_key_dir; load_at loc run_id
