-- ===== src/Pipeline/Settled.antt =====
-- graph/nodes.py: what the update of a node says of its stage.
use autonomy_engine.Base.{
  subst, String, ◌<>◌, ◌≡◌, ◌≢◌, refl, ◌⊎◌, inl, inr, Option, none, some, Bool, true, false, ◌==◌,
  eq_iff, arith, truthy, Bool-cases,
}
pub use autonomy_engine.World.Returned.{bind-ok, bind-values, ok-injective}
use text.Mathlib.TextLemmas.{append-eq-nil_iff}
use autonomy_engine.Base.Dict.{insert, has_key}
use autonomy_engine.World.{
  Platform, World, Exc, failure, decision_required, interrupted, GateRequest, Result, ok, raise,
  pure,
}
use autonomy_engine.Pipeline.State.{
  StageStatus, passed, failed, skipped, StageResult, Decision, PipelineState, Update, results_of,
}
use autonomy_engine.Pipeline.Gate.{HumanInput, handle_decision_gate}
use autonomy_engine.Pipeline.Nodes.{
  Tasks, message, stage_failed, bootstrap_outcome, extract_outcome, implement_outcome, count_retry,
}
use autonomy_engine.Pipeline.Gated.{
  design_decided, design_outcome, test_decided, test_outcome, verify_decided, verify_outcome,
}

abbrev pub is_done : StageStatus → Bool
is_done passed = true
is_done skipped = true
is_done _ = false

abbrev pub Outcome : StageStatus → Option (Option String) → Type 0
Outcome status error =
    ((is_done status ≡ true) × (error ≡ none))
    ⊎ ((status ≡ failed) × ((e : String) × (error ≡ some (some e)) × (truthy e ≡ true)))

pub record Settles (stage : String) (s : PipelineState) (u : Update) : Type 0 where
  pub result : StageResult
  pub stored : u.stage_results ≡ some (insert stage result (results_of s))
  pub outcome : Outcome result.status u.error

pub prefix-truthy : (p s : String) → truthy p ≡ true → truthy (p <> s) ≡ true
prefix-truthy p s h = elim (Bool-cases ((p <> s) == "")) [
  | inl same ↦ absurd (p_nonempty ((append-eq-nil_iff.0 ((eq_iff (p <> s) "").0 same)).0))
  | inr differ ↦ rw differ
]
  where
    p_nonempty : p ≢ ""
    p_nonempty e = ground (arith, eq_iff p "", h, e)

module _ (P : Platform) (s : PipelineState) where
  failed-Settles :
      (stage prefix : String) (e : Exc)
      → truthy prefix ≡ true
      → Settles stage s (stage_failed P s stage prefix e)
  failed-Settles stage prefix e h = record {
    result = _;
    stored = refl;
    outcome = inr (refl, (prefix <> message P e, refl, prefix-truthy prefix (message P e) h));
  }

  done-Settles :
      (stage : String) (r : StageResult) (u : Update)
      → u.stage_results ≡ some (insert stage r (results_of s))
      → is_done r.status ≡ true
      → u.error ≡ none
      → Settles stage s u
  done-Settles stage r u stored done error = record {
    result = r;
    stored = stored;
    outcome = inl (done, error);
  }

  stopped-Settles :
      (stage : String) (r : StageResult) (u : Update) (e : String)
      → u.stage_results ≡ some (insert stage r (results_of s))
      → r.status ≡ failed
      → u.error ≡ some (some e)
      → truthy e ≡ true
      → Settles stage s u
  stopped-Settles stage r u e stored status error h = record {
    result = r;
    stored = stored;
    outcome = inr (status, (e, error, h));
  }

  pub bootstrap_outcome-Settles :
      (T : Tasks) (r : Result (Unit {0})) → Settles "bootstrap" s (bootstrap_outcome P T s r)
  unfolding bootstrap_outcome
  bootstrap_outcome-Settles T (ok done) = done-Settles _ _ _ refl refl refl
  bootstrap_outcome-Settles T (raise e) = failed-Settles "bootstrap" "Bootstrap failed: " e refl

  pub extract_outcome-Settles :
      (T : Tasks) (r : Result (Unit {0})) → Settles "extract" s (extract_outcome P T s r)
  unfolding extract_outcome
  extract_outcome-Settles T (ok done) = done-Settles _ _ _ refl refl refl
  extract_outcome-Settles T (raise e) = failed-Settles "extract" "Extraction failed: " e refl

  pub implement_outcome-Settles :
      (T : Tasks) (r : Result (Unit {0})) → Settles "implement" s (implement_outcome P T s r)
  unfolding implement_outcome
  implement_outcome-Settles T (ok done) = done-Settles _ _ _ refl refl refl
  implement_outcome-Settles T (raise e) =
      failed-Settles "implement" "Implementation failed: " e refl

  pub count_retry-Settles :
      (T : Tasks) (u : Update)
      → Settles "implement" s u
      → Settles "implement" s (count_retry P T s u)
  unfolding count_retry
  count_retry-Settles T u h = elim (Bool-cases (has_key "implement" (results_of s))) [
    | inl again ↦ rw again (record { result = h.result; stored = h.stored; outcome = h.outcome })
    | inr first ↦ rw first h
  ]

  module _ (T : Tasks) (resume : Option HumanInput) where
    design_decided-Settles :
        (req : GateRequest) (d : Option Decision) (w w' : World) (u : Update)
        → design_decided P T resume s req d w ≡ (ok u, w')
        → Settles "design" s u
    unfolding design_decided
    design_decided-Settles req none w w' u h =
        subst (Settles "design" s) (ok-injective h) (done-Settles _ _ _ refl refl refl)
    design_decided-Settles req (some d) w w' u h =
        let (again, e) = bind-ok T.design _ w h in
        subst (Settles "design" s) (ok-injective e) (done-Settles _ _ _ refl refl refl)

    pub design_outcome-Settles :
        (r : Result (Unit {0})) (w w' : World) (u : Update)
        → design_outcome P T resume s r w ≡ (ok u, w')
        → Settles "design" s u
    unfolding design_outcome
    design_outcome-Settles (ok done) w w' u h =
        subst (Settles "design" s) (ok-injective h) (done-Settles _ _ _ refl refl refl)
    design_outcome-Settles (raise (decision_required req)) w w' u h =
        let (d, e) =
          bind-ok (handle_decision_gate P resume req s) (design_decided P T resume s req) w h in
        design_decided-Settles req d (handle_decision_gate P resume req s w).1 w' u e
    design_outcome-Settles (raise (failure k m)) w w' u h =
        subst (Settles "design" s) (ok-injective h)
          (failed-Settles "design" "Design failed: " (failure k m) refl)
    design_outcome-Settles (raise (interrupted req)) w w' u h =
        subst (Settles "design" s) (ok-injective h)
          (failed-Settles "design" "Design failed: " (interrupted req) refl)

    test_decided-Settles :
        (req : GateRequest) (d : Option Decision) (w w' : World) (u : Update)
        → test_decided P T resume s req d w ≡ (ok u, w')
        → Settles "test" s u
    unfolding test_decided
    test_decided-Settles req none w w' u h =
        subst (Settles "test" s) (ok-injective h) (done-Settles _ _ _ refl refl refl)
    test_decided-Settles req (some d) w w' u h = elim (Bool-cases (d.selected == "abort")) [
      | inl abort ↦
          let h' = rw abort at h in
          subst (Settles "test" s) (ok-injective h') (stopped-Settles _ _ _ _ refl refl refl refl)
      | inr go_on ↦
          let h' = rw go_on at h in
          let (again, e) = bind-ok T.test _ w h' in
          subst (Settles "test" s) (ok-injective e) (done-Settles _ _ _ refl refl refl)
    ]

    pub test_outcome-Settles :
        (r : Result (Unit {0})) (w w' : World) (u : Update)
        → test_outcome P T resume s r w ≡ (ok u, w')
        → Settles "test" s u
    unfolding test_outcome
    test_outcome-Settles (ok done) w w' u h =
        subst (Settles "test" s) (ok-injective h) (done-Settles _ _ _ refl refl refl)
    test_outcome-Settles (raise (decision_required req)) w w' u h =
        let (d, e) =
          bind-ok (handle_decision_gate P resume req s) (test_decided P T resume s req) w h in
        test_decided-Settles req d (handle_decision_gate P resume req s w).1 w' u e
    test_outcome-Settles (raise (failure k m)) w w' u h =
        subst (Settles "test" s) (ok-injective h)
          (failed-Settles "test" "Test stage failed: " (failure k m) refl)
    test_outcome-Settles (raise (interrupted req)) w w' u h =
        subst (Settles "test" s) (ok-injective h)
          (failed-Settles "test" "Test stage failed: " (interrupted req) refl)

    verify_decided-Settles :
        (req : GateRequest) (d : Option Decision)
        → Settles "verify" s (verify_decided P T resume s req d)
    unfolding verify_decided
    verify_decided-Settles req none = done-Settles _ _ _ refl refl refl
    verify_decided-Settles req (some d) = elim (Bool-cases (d.selected == "reject")) [
      | inl reject ↦ rw reject (stopped-Settles _ _ _ _ refl refl refl refl)
      | inr accept ↦ rw accept (done-Settles _ _ _ refl refl refl)
    ]

    pub verify_outcome-Settles :
        (r : Result (Unit {0})) (w w' : World) (u : Update)
        → verify_outcome P T resume s r w ≡ (ok u, w')
        → Settles "verify" s u
    unfolding verify_outcome
    verify_outcome-Settles (ok done) w w' u h =
        subst (Settles "verify" s) (ok-injective h) (done-Settles _ _ _ refl refl refl)
    verify_outcome-Settles (raise (decision_required req)) w w' u h =
        let (d, e) =
          bind-ok (handle_decision_gate P resume req s)
            (λ d. pure (verify_decided P T resume s req d)) w h in
        subst (Settles "verify" s) (ok-injective e) (verify_decided-Settles req d)
    verify_outcome-Settles (raise (failure k m)) w w' u h =
        subst (Settles "verify" s) (ok-injective h)
          (failed-Settles "verify" "Verification failed: " (failure k m) refl)
    verify_outcome-Settles (raise (interrupted req)) w w' u h =
        subst (Settles "verify" s) (ok-injective h)
          (failed-Settles "verify" "Verification failed: " (interrupted req) refl)
