-- ===== src/Stages/Verify/Reflected.antt =====
-- tasks/verify.py: a verdict that reflects the canary, and the call after it.
use autonomy_engine.Base.{String, ◌≡◌, refl, some, true, false, eq_refl, Bool-cases, inl, inr}
use autonomy_engine.Base.Dict.{has_key}
use autonomy_engine.World.{Platform, World, ok, Exec}
use autonomy_engine.Cache.{cache_save}
use autonomy_engine.Cache.Kept.{path_of, lookup-saved, lookup-missing}
use autonomy_engine.Guard.{
  codes, occurs, is_canary, Patterns, safe, check_canary_reflected, check_overrides,
  validate_verify_output,
}
use autonomy_engine.Stages.Verify.{cached_or_generated, verification_of, is_suspicious}

module _ (P : Platform) (dir : String) (generate : Exec String) (key model v : String) (w : World)
    (in_dir : w.project_dir ≡ some dir) (absent : has_key (path_of P dir key) w.llm_cache ≡ false)
    (generated : generate w ≡ (ok v, w)) where
  -- the world after the first call
  abbrev pub cached_world : World
  cached_world = (cache_save P key v "verify" model w).1

  first_call :
      verification_of P generate key model w
      ≡ (ok (record { text = v; cache_hit = false }), cached_world)
  unfolding verification_of cached_or_generated
  first_call =
      let (saved, found) = lookup-saved P dir key key v "verify" model w in_dir in
      rw (lookup-missing P dir key w in_dir absent) (rw generated (rw saved refl))

  second_call :
      verification_of P generate key model cached_world
      ≡ (ok (record { text = v; cache_hit = true }), cached_world)
  unfolding verification_of cached_or_generated
  second_call =
      let (saved, found) = lookup-saved P dir key key v "verify" model w in_dir in
      let there = rw (absent, eq_refl key) at found in rw there refl

  -- If the provider answers a request that is not in the cache with a verdict that reflects
  -- the canary of the call, but has no word of override near a verdict, then the verdict is
  -- suspicious in that call; it is in the cache all the same, and the next call with the same
  -- key takes it from there, where with another canary that is not in it it is not
  -- suspicious.
  pub canary-forgotten :
      (R : Patterns) (canary canary' : String)
      → is_canary (codes canary) ≡ true
      → occurs (codes canary) (codes v) ≡ true
      → occurs (codes canary') (codes v) ≡ false
      → check_overrides R (codes v) (R.override_spans (codes v)) ≡ safe
      → (is_suspicious P R true v canary ≡ true)
        × (is_suspicious P R true v canary' ≡ false)
        × (verification_of P generate key model w
            ≡ (ok (record { text = v; cache_hit = false }), cached_world))
        × (verification_of P generate key model cached_world
            ≡ (ok (record { text = v; cache_hit = true }), cached_world))
  unfolding is_suspicious validate_verify_output check_canary_reflected
  canary-forgotten R canary canary' valid reflected other calm = (
    rw valid (rw reflected refl),
    elim (Bool-cases (is_canary (codes canary'))) [
      | inl token ↦ rw token (rw other (rw calm refl))
      | inr no_token ↦ rw no_token (rw calm refl)
    ],
    first_call,
    second_call,
  )
