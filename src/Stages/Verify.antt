-- ===== src/Stages/Verify.antt =====
-- tasks/verify.py: when a model gives the verdict, where it comes from, and the gates after it.
pub mod Reflected
use autonomy_engine.Base.{
  String, Option, none, some, [], ◌∷◌, Bool, true, false, ◌==◌, if◌then◌else◌,
}
use autonomy_engine.World.{
  Platform, World, GateRequest, decision_required, failure, runtime_error, Result, ok, raise, Exec,
  pure, throw, gets, modify, lift, ◌>>=◌, ◌>>◌,
}
use autonomy_engine.Cache.{cache_lookup, cache_save}
use autonomy_engine.Gates.{decision_exists, load_decision}
use autonomy_engine.Guard.{codes, occurs, Patterns, Verdict, safe, validate_verify_output}
use autonomy_engine.StateFiles.{save_state_file}
use autonomy_engine.Pipeline.Reviewed.{injection_request}

abbrev pub review_request : GateRequest
review_request = record {
  gate = "verification_review";
  stage = "verify";
  options = "accept" ∷ "reject" ∷ [];
}

-- `passed` is _all_checks_passed(evidence)
unfoldable pub calls_llm : String → Bool → Bool → Bool → Bool
calls_llm mode passed llm_on_pass llm_on_fail =
    if mode == "always_llm"
    then true
    else if mode == "never_llm"
    then false
    else if mode == "auto"
    then (if passed then llm_on_pass else llm_on_fail)
    else true

abbrev pub is_safe : Verdict → Bool
is_safe safe = true
is_safe _ = false

-- The text, and whether it comes from the cache.
pub record Verification : Type 0 where
  pub text : String
  pub cache_hit : Bool

module _ (P : Platform) where
  -- the guard at the start of `verify_system`
  unfoldable pub verify_guard : Exec (Unit {0})
  unfolding decision_exists load_decision
  verify_guard = do
    decided ← decision_exists P "verification_review"
    if decided
        then (do
          r ← load_decision P "verification_review"
          if r.selected == "reject"
              then throw (failure runtime_error "Verification review decision was 'reject'")
              else pure tt)
        else pure tt

  -- `generate` is the call of the provider
  unfoldable pub cached_or_generated :
      Exec String → String → String → Option String → Exec Verification
  unfolding cache_save
  cached_or_generated generate key model (some v) = pure (record { text = v; cache_hit = true })
  cached_or_generated generate key model none = do
    v ← generate
    cache_save P key v "verify" model
    pure (record { text = v; cache_hit = false })

  unfoldable pub verification_of : Exec String → String → String → Exec Verification
  unfolding cache_lookup cached_or_generated
  verification_of generate key model = do
    cached ← cache_lookup P key
    cached_or_generated generate key model cached

  -- injection_detected
  unfoldable pub is_suspicious : Patterns → Bool → String → String → Bool
  unfolding codes validate_verify_output
  is_suspicious R call_llm text canary =
      if call_llm
      then (if is_safe (validate_verify_output R (codes text) (codes canary)) then false else true)
      else false

  unless_decided : GateRequest → Exec (Unit {0})
  unfolding decision_exists
  unless_decided req = do
    decided ← decision_exists P req.gate
    if decided then pure tt else throw (decision_required req)

  -- the gates at the end of `verify_system`
  unfoldable pub verify_gates : Bool → Bool → String → Exec (Unit {0})
  unfolding unless_decided codes
  verify_gates suspicious call_llm text = do
    if suspicious then unless_decided injection_request else pure tt
    if call_llm
        then (if occurs (codes "REJECTED") (codes text)
            then unless_decided review_request
            else pure tt)
        else pure tt
