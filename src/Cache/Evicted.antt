-- ===== src/Cache/Evicted.antt =====
-- engine/cache.py: what `evict_stale_llm_cache` leaves, by the age of the entries.
use autonomy_engine.Base.{
  ℕ, ◌+◌, ◌-◌, ◌*◌, ◌≤◌, ◌<◌, String, ◌≡◌, ◌⊎◌, Option, none, some, Bool, true, false, length, ltb,
  truthy,
}
use autonomy_engine.Base.Dict.{Dict, lookup}
use autonomy_engine.World.Json.{Json, str, is_truthy}
use autonomy_engine.World.{CacheFile, CacheEntry, malformed, entry, Exc, failure, type_error}
use autonomy_engine.Cache.Eviction.{Eviction, IsoTime, invalid, aware}

module _ (parse_iso : String → IsoTime) (mtime : String → ℕ) (can_delete : String → Bool)
    (now ttl_days : ℕ) where
  -- When an entry was made: at the time that it has, else at that of its file; what cannot be read is
  -- from the beginning of time.
  pub data CreatedAt (path : String) : CacheFile → ℕ → Type 0 where
    unreadable : CreatedAt path malformed 0
    no_time : {e : CacheEntry} → e.created_at ≡ none → CreatedAt path (entry e) (mtime path)
    empty_time :
        {e : CacheEntry} {v : Json}
        → e.created_at ≡ some v
        → is_truthy v ≡ false
        → CreatedAt path (entry e) (mtime path)
    no_iso :
        {e : CacheEntry} {s : String}
        → e.created_at ≡ some (str s)
        → truthy s ≡ true
        → parse_iso s ≡ invalid
        → CreatedAt path (entry e) 0
    iso :
        {e : CacheEntry} {s : String} {t : ℕ}
        → e.created_at ≡ some (str s)
        → truthy s ≡ true
        → parse_iso s ≡ aware t
        → CreatedAt path (entry e) t

  -- What becomes of an entry: it is gone if it can be deleted and is older than so many days of
  -- microseconds, and else it stays.
  abbrev pub IsTreated : String → CacheFile → Option CacheFile → Type 0
  IsTreated path f left =
      (t : ℕ) × CreatedAt path f t
      × (((left ≡ none) × (can_delete path ≡ true) × (ttl_days * 24 * 3600 * 1000000 < now - t))
          ⊎ ((left ≡ some f)
              × ((can_delete path ≡ false) ⊎ (now - t ≤ ttl_days * 24 * 3600 * 1000000))))

  pub record IsEvicted (fs left : Dict CacheFile) (deleted : ℕ) : Type 0 where
    pub none_new : (path : String) → lookup path fs ≡ none → lookup path left ≡ none
    pub treated :
        (path : String) (f : CacheFile)
        → lookup path fs ≡ some f
        → IsTreated path f (lookup path left)
    pub counted : deleted + length left ≡ length fs

  abbrev Aged : String → CacheFile → Bool → Type 0
  Aged path f old = (t : ℕ) × CreatedAt path f t × (old ≡ ltb (t + ttl_days * 86400000000) now)

  abbrev not_text : Exc
  not_text = failure type_error "fromisoformat: argument must be str"
