-- ===== src/Cache/Kept.antt =====
-- engine/cache.py: what is in the cache after a save.
use autonomy_engine.Base.{
  ◌+◌, eq_refl, String, ◌<>◌, ◌≡◌, refl, sym, ap, subst, ◌∙◌, Option, none, some, Bool, true, false,
  ◌==◌, eq_iff, if◌then◌else◌, Bool-cases, inl, inr,
}
use text.Mathlib.TextLemmas.{append_cancel_left, append_cancel_right}
use autonomy_engine.Base.Dict.{lookup, has_key, lookup-insert, lookup-absent}
use autonomy_engine.World.Json.{str}
use autonomy_engine.World.{Platform, World, CacheEntry, entry, Result, ok}
use autonomy_engine.Cache.{cache_path, response_of, write_entry, cache_lookup, cache_save}

module _ (P : Platform) (dir : String) where
  abbrev in_project : World → World
  in_project w = record w { project_dir = some dir }

  in_project_of : (w : World) → w.project_dir ≡ some dir → w ≡ in_project w
  in_project_of w d = λ i. record w { project_dir = d i }

  abbrev pub path_of : String → String
  path_of key = cache_path P (dir <> "/state") key

  path_injective : (j k : String) → (path_of k == path_of j) ≡ (k == j)
  path_injective j k = elim (Bool-cases (k == j)) [
    | inl same ↦ rw ((eq_iff k j).0 same) (eq_refl (path_of j) ∙ sym (eq_refl j))
    | inr differ ↦ elim (Bool-cases (path_of k == path_of j)) [
      | inl paths ↦
          let h =
            append_cancel_left ((dir <> "/state") <> "/cache/llm/") (k <> ".json") (j <> ".json")
              ((eq_iff (path_of k) (path_of j)).0 paths) in
          let e = append_cancel_right k j ".json" h in absurd (cc (sym differ ∙ (eq_iff k j).1 e))
      | inr other ↦ other ∙ sym differ
    ]
  ]

  -- what a lookup finds in such a world
  lookup-in_project :
      (j : String) (w : World)
      → cache_lookup P j (in_project w)
        ≡ (response_of P (lookup (path_of j) w.llm_cache), in_project w)
  unfolding cache_lookup
  lookup-in_project j w = refl

  save_in_project :
      (k response stage model : String) (w : World)
      → (has_key (path_of k) w.llm_cache ≡ true
          → cache_save P k response stage model (in_project w) ≡ (ok tt, in_project w))
        × (has_key (path_of k) w.llm_cache ≡ false
            → cache_save P k response stage model (in_project w) ≡ (
              ok tt,
              write_entry P
                  (path_of k)
                  response
                  (P.timestamp w.ticks)
                  stage
                  model
                  (record (in_project w) { ticks = w.ticks + 1 }),
            ))
  unfolding cache_save
  save_in_project k response stage model w = (λ h. rw h refl, λ h. rw h refl)

  -- what a lookup of `j` gives after `response` was saved under `k`
  abbrev pub found_after : String → String → String → World → Result (Option String)
  found_after j k response w =
      if has_key (path_of k) w.llm_cache
      then (cache_lookup P j w).0
      else if k == j
      then ok (some response)
      else (cache_lookup P j w).0

  abbrev SavedThere : String → String → String → String → String → World → Type 0
  SavedThere j k response stage model w =
      ((cache_save P k response stage model w).0 ≡ ok tt)
      × (cache_lookup P j (cache_save P k response stage model w).1
          ≡ (found_after j k response w, (cache_save P k response stage model w).1))

  saved_in_project :
      (j k response stage model : String) (w : World)
      → SavedThere j k response stage model (in_project w)
  unfolding write_entry cache_lookup
  saved_in_project j k response stage model w =
      elim (Bool-cases (has_key (path_of k) w.llm_cache)) [
        | inl old ↦
            rw ((save_in_project k response stage model w).0 old)
              (refl, rw old (lookup-in_project j w))
        | inr new ↦
            let saved = (save_in_project k response stage model w).1 new in
            rw saved (
              refl,
              rw new (
                  ap (λ o. (response_of P o, after w))
                    (lookup-insert (path_of j) (path_of k) (entry (written w)) w.llm_cache)
                  ∙ rw (path_injective j k) (settled (k == j) w)),
            )
      ]
    where
      written : World → CacheEntry
      written w = record {
        response = some response;
        created_at = some (str (P.timestamp w.ticks));
        stage = some stage;
        model = some model;
      }

      after : World → World
      after w =
          write_entry P (path_of k) response (P.timestamp w.ticks) stage model
            (record (in_project w) { ticks = w.ticks + 1 })

      settled :
          (b : Bool) (w : World)
          → ◌≡◌ {A = Result (Option String) × World}
              (
                response_of P
                    (if b then some (entry (written w)) else lookup (path_of j) w.llm_cache),
                after w,
              )
              (
                if b then ok (some response) else response_of P (lookup (path_of j) w.llm_cache),
                after w,
              )
      settled true w = unfold response_of in refl
      settled false w = refl

  -- In a project, `cache_save` returns, and then a lookup of any key gives what it gave
  -- before if the saved key had an entry already or is another key, and else the saved
  -- response; the lookup changes nothing.
  pub lookup-saved :
      (j k response stage model : String) (w : World)
      → w.project_dir ≡ some dir
      → ((cache_save P k response stage model w).0 ≡ ok tt)
        × (cache_lookup P j (cache_save P k response stage model w).1
            ≡ (found_after j k response w, (cache_save P k response stage model w).1))
  lookup-saved j k response stage model w d =
      subst (SavedThere j k response stage model) (sym (in_project_of w d))
        (saved_in_project j k response stage model w)

  missing_in_project :
      (k : String) (w : World)
      → has_key (path_of k) w.llm_cache ≡ false
      → cache_lookup P k (in_project w) ≡ (ok none, in_project w)
  unfolding response_of
  missing_in_project k w absent =
      lookup-in_project k w
      ∙ ap (λ o. (response_of P o, in_project w)) (lookup-absent (path_of k) w.llm_cache absent)

  pub lookup-missing :
      (k : String) (w : World)
      → w.project_dir ≡ some dir
      → has_key (path_of k) w.llm_cache ≡ false
      → cache_lookup P k w ≡ (ok none, w)
  lookup-missing k w d absent =
      subst (λ v. cache_lookup P k v ≡ (ok none, v)) (sym (in_project_of w d))
        (missing_in_project k w absent)
