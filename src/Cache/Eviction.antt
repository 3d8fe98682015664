-- ===== src/Cache/Eviction.antt =====
-- engine/cache.py, `evict_stale_llm_cache`. A time is the number of microseconds since the first day
-- of the year 1, which is `datetime.min`; the age is compared as such a number, and not as a double
-- that counts days.
use autonomy_engine.Base.{
  ℕ, ◌+◌, ◌*◌, String, none, some, [], ◌∷◌, Bool, true, false, ltb, truthy, if◌then◌else◌,
}
use autonomy_engine.Base.Dict.{Dict}
use autonomy_engine.World.Json.{Json, str, is_truthy}
use autonomy_engine.World.{
  CacheFile, malformed, no_object, entry, failure, type_error, attribute_error, Result, ok, raise,
}

-- What `datetime.fromisoformat` gives: a ValueError, a time with no offset, or one with an offset.
pub data IsoTime : Type 0 where
  invalid naive : IsoTime
  aware : ℕ → IsoTime

abbrev pub micros_per_day : ℕ
micros_per_day = 86400000000

-- What is left, and the number of entries that were deleted. Entries that are deleted before a raise
-- stay deleted, which is not given here.
abbrev pub Eviction : Type 0
Eviction = Dict CacheFile × ℕ

module _ (parse_iso : String → IsoTime) (mtime : String → ℕ) (can_delete : String → Bool)
    (now : ℕ) where
  -- a time that cannot be parsed is infinitely long ago
  abbrev pub parsed : IsoTime → IsoTime
  parsed invalid = aware 0
  parsed naive = naive
  parsed (aware t) = aware t

  -- from what "created_at" is
  abbrev pub created_from : String → Json → Result IsoTime
  created_from path (str text) =
      ok (if truthy text then parsed (parse_iso text) else aware (mtime path))
  created_from path v =
      if is_truthy v
      then raise (failure type_error "fromisoformat: argument must be str")
      else ok (aware (mtime path))

  -- `created`; a malformed entry is infinitely old
  unfoldable pub created_of : String → CacheFile → Result IsoTime
  unfolding is_truthy
  created_of path malformed = ok (aware 0)
  created_of path no_object = raise (failure attribute_error "no attribute 'get'")
  created_of path (entry e) = elim e.created_at [
    | none ↦ ok (aware (mtime path))
    | some v ↦ created_from path v
  ]

  -- age_days > ttl_days. A time with no offset cannot be subtracted.
  unfoldable pub is_stale : ℕ → Result IsoTime → Result Bool
  is_stale ttl_days (raise e) = raise e
  is_stale ttl_days (ok invalid) = ok true
  is_stale ttl_days (ok naive) =
      raise (failure type_error "can't subtract offset-naive and offset-aware datetimes")
  is_stale ttl_days (ok (aware t)) = ok (ltb (t + ttl_days * micros_per_day) now)

  abbrev pub keep_file : String → CacheFile → Result Eviction → Result Eviction
  keep_file path f (ok (rest, n)) = ok ((path, f) ∷ rest, n)
  keep_file path f (raise e) = raise e

  abbrev pub count_deleted : Result Eviction → Result Eviction
  count_deleted (ok (rest, n)) = ok (rest, n + 1)
  count_deleted (raise e) = raise e

  abbrev pub evict_file : String → CacheFile → Result Bool → Result Eviction → Result Eviction
  evict_file path f (raise e) rest = raise e
  evict_file path f (ok false) rest = keep_file path f rest
  evict_file path f (ok true) rest =
      if can_delete path then count_deleted rest else keep_file path f rest

  -- over the files of the cache directory
  unfoldable pub evict_stale_llm_cache : ℕ → Dict CacheFile → Result Eviction
  unfolding created_of is_stale
  evict_stale_llm_cache ttl_days [] = ok ([], 0)
  evict_stale_llm_cache ttl_days ((path, f) ∷ fs) =
      evict_file path f (is_stale ttl_days (created_of path f)) (evict_stale_llm_cache ttl_days fs)
