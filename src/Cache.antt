-- ===== src/Cache.antt =====
-- engine/cache.py: responses of a model by the hash of the request. Cache files are kept by path.
pub mod Kept
pub mod Eviction
pub mod Filtered
pub mod Evicted
use autonomy_engine.Base.{String, ◌<>◌, Option, none, some, true, false, if◌then◌else◌}
use autonomy_engine.Base.Dict.{lookup, insert, has_key}
use autonomy_engine.World.Json.{str}
use autonomy_engine.World.{
  Platform, World, CacheEntry, CacheFile, malformed, no_object, entry, failure, value_error,
  type_error, other_error, Result, ok, raise, Exec, pure, throw, gets, modify, lift, tick, ◌>>=◌,
  ◌>>◌,
}
use autonomy_engine.Context.{get_state_dir}

module _ (P : Platform) where
  -- hashlib.sha256(text.encode()).hexdigest()
  abbrev pub hash_content : String → String
  hash_content text = P.sha256_hex text

  -- `max_tokens` is the text of the number
  abbrev pub hash_params : String → String → String
  hash_params model max_tokens = P.sha256_hex (model <> ":" <> max_tokens)

  unfoldable pub build_cache_key : String → String → String → String → String → String
  build_cache_key stage template_hash envelope_hash model params_hash =
      P.sha256_hex (
        stage <> ":" <> template_hash <> ":" <> envelope_hash <> ":" <> model <> ":" <> params_hash)

  abbrev pub cache_path : String → String → String
  cache_path state key = (state <> "/cache/llm/") <> (key <> ".json")

  -- data["response"] of the JSON of a file
  unfoldable pub response_of : Option CacheFile → Result (Option String)
  response_of none = ok none
  response_of (some malformed) = raise (failure value_error "Expecting value")
  response_of (some no_object) = raise (failure type_error "object is not subscriptable")
  response_of (some (entry e)) = elim e.response [
    | none ↦ raise (failure other_error "'response'")
    | some r ↦ ok (some r)
  ]

  unfoldable pub cache_lookup : String → Exec (Option String)
  unfolding get_state_dir lookup response_of
  cache_lookup key = do
    state ← get_state_dir P
    found ← gets (λ w. lookup (cache_path state key) w.llm_cache)
    lift (response_of found)

  unfoldable pub write_entry : String → String → String → String → String → World → World
  unfolding insert
  write_entry path response timestamp stage model w = record w {
    llm_cache =
        insert path
          (entry (record {
            response = some response;
            created_at = some (str timestamp);
            stage = some stage;
            model = some model;
          }))
          w.llm_cache;
  }

  unfoldable pub cache_save : String → String → String → String → Exec (Unit {0})
  unfolding get_state_dir has_key write_entry tick
  cache_save key response stage model = do
    state ← get_state_dir P
    found ← gets (λ w. has_key (cache_path state key) w.llm_cache)
    if found then pure tt else (do
      n ← tick
      modify (write_entry (cache_path state key) response (P.timestamp n) stage model))
