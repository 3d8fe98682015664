-- ===== src/Cache/Filtered.antt =====
-- engine/cache.py: the entries that `evict_stale_llm_cache` leaves, by its own test.
use autonomy_engine.Base.{
  ℕ, ◌+◌, String, ◌≡◌, refl, ap, subst, ◌∙◌, Option, none, some, [], ◌∷◌, Bool, true, false, length,
  ◌==◌, eq_iff, if◌then◌else◌, arith, Bool-cases, inl, inr,
}
use autonomy_engine.Base.Dict.{Dict, lookup, has_key, NodupKeys, lookup-absent}
use autonomy_engine.World.{CacheFile, Result, ok, raise}
use autonomy_engine.Cache.Eviction.{
  Eviction, IsoTime, created_of, is_stale, evict_file, keep_file, count_deleted,
  evict_stale_llm_cache,
}

pair-injective : {a b : Eviction} → ◌≡◌ {A = Result Eviction} (ok a) (ok b) → a ≡ b
pair-injective h = cc

module _ (parse_iso : String → IsoTime) (mtime : String → ℕ) (can_delete : String → Bool)
    (now ttl_days : ℕ) where
  -- An entry of that age goes, if it can be deleted.
  abbrev pub goes : String → Result Bool → Bool
  goes path (ok true) = can_delete path
  goes path (ok false) = false
  goes path (raise e) = false

  -- what is to be found of an entry
  abbrev pub left_of : String → Option CacheFile → Option CacheFile
  left_of path none = none
  left_of path (some f) =
      if goes path (
        is_stale parse_iso mtime can_delete now ttl_days
          (created_of parse_iso mtime can_delete now path f))
      then none
      else some f

  pub record IsFiltered (fs left : Dict CacheFile) (deleted : ℕ) : Type 0 where
    pub kept : (path : String) → lookup path left ≡ left_of path (lookup path fs)
    pub counted : deleted + length left ≡ length fs

  abbrev pub age_of : String → CacheFile → Result Bool
  age_of path f =
      is_stale parse_iso mtime can_delete now ttl_days
        (created_of parse_iso mtime can_delete now path f)

  kept-IsFiltered :
      (path : String) (f : CacheFile) (fs left : Dict CacheFile) (n : ℕ)
      → goes path (age_of path f) ≡ false
      → IsFiltered fs left n
      → IsFiltered ((path, f) ∷ fs) ((path, f) ∷ left) n
  unfolding lookup
  kept-IsFiltered path f fs left n stays e = record {
    kept = λ p. elim (Bool-cases (path == p)) [
      | inl same ↦
          let stays' = subst (λ q. goes q (age_of q f) ≡ false) ((eq_iff path p).0 same) stays in
          rw same (rw stays' refl)
      | inr differ ↦ rw differ (e.kept p)
    ];
    counted = omega (arith, e.counted);
  }

  gone-IsFiltered :
      (path : String) (f : CacheFile) (fs left : Dict CacheFile) (n : ℕ)
      → goes path (age_of path f) ≡ true
      → has_key path fs ≡ false
      → IsFiltered fs left n
      → IsFiltered ((path, f) ∷ fs) left (n + 1)
  unfolding lookup
  gone-IsFiltered path f fs left n leaves new e = record {
    kept = λ p. elim (Bool-cases (path == p)) [
      | inl same ↦
          let at = (eq_iff path p).0 same in
          let leaves' = subst (λ q. goes q (age_of q f) ≡ true) at leaves in
          let none_there = lookup-absent p fs (subst (λ q. has_key q fs ≡ false) at new) in
          rw same (rw leaves' (e.kept p ∙ ap (left_of p) none_there))
      | inr differ ↦ rw differ (e.kept p)
    ];
    counted = omega (arith, e.counted);
  }

  -- What is left is what does not go.
  pub evict-IsFiltered :
      (fs left : Dict CacheFile) (deleted : ℕ)
      → NodupKeys fs
      → evict_stale_llm_cache parse_iso mtime can_delete now ttl_days fs ≡ ok (left, deleted)
      → IsFiltered fs left deleted
  unfolding evict_stale_llm_cache lookup
  evict-IsFiltered [] left deleted once h =
      let same : [] ≡ left = cc h in
      let zero : 0 ≡ deleted = cc h in
      subst (λ l. IsFiltered [] l deleted) same
        (subst (IsFiltered [] []) zero (record { kept = λ p. refl; counted = refl }))
  evict-IsFiltered ((path, f) ∷ fs) left deleted (new, once) h =
      go (age_of path f) refl (evict_stale_llm_cache parse_iso mtime can_delete now ttl_days fs)
        (λ l n. evict-IsFiltered fs l n once) h
    where
      same :
          (l : Dict CacheFile) (n : ℕ)
          → ◌≡◌ {A = Result Eviction} (ok (l, n)) (ok (left, deleted))
          → IsFiltered ((path, f) ∷ fs) l n
          → IsFiltered ((path, f) ∷ fs) left deleted
      same l n q = subst (λ x. IsFiltered ((path, f) ∷ fs) x.0 x.1) (pair-injective q)

      keeps :
          (o : Result Eviction)
          → ((l : Dict CacheFile) (n : ℕ) → o ≡ ok (l, n) → IsFiltered fs l n)
          → goes path (age_of path f) ≡ false
          → keep_file parse_iso mtime can_delete now path f o ≡ ok (left, deleted)
          → IsFiltered ((path, f) ∷ fs) left deleted
      keeps (raise e) again stays q = absurd (cc q)
      keeps (ok (l, n)) again stays q =
          same ((path, f) ∷ l) n q (kept-IsFiltered path f fs l n stays (again l n refl))

      drops :
          (o : Result Eviction)
          → ((l : Dict CacheFile) (n : ℕ) → o ≡ ok (l, n) → IsFiltered fs l n)
          → goes path (age_of path f) ≡ true
          → count_deleted parse_iso mtime can_delete now o ≡ ok (left, deleted)
          → IsFiltered ((path, f) ∷ fs) left deleted
      drops (raise e) again leaves q = absurd (cc q)
      drops (ok (l, n)) again leaves q =
          same l (n + 1) q (gone-IsFiltered path f fs l n leaves new (again l n refl))

      go :
          (r : Result Bool)
          → age_of path f ≡ r
          → (o : Result Eviction)
          → ((l : Dict CacheFile) (n : ℕ) → o ≡ ok (l, n) → IsFiltered fs l n)
          → evict_file parse_iso mtime can_delete now path f r o ≡ ok (left, deleted)
          → IsFiltered ((path, f) ∷ fs) left deleted
      go (raise e) a o again q = absurd (cc q)
      go (ok false) a o again q = keeps o again (rw a refl) q
      go (ok true) a o again q = elim (Bool-cases (can_delete path)) [
        | inl can ↦ drops o again (rw a can) (rw can at q)
        | inr cannot ↦ keeps o again (rw a cannot) (rw cannot at q)
      ]
