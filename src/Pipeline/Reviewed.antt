-- ===== src/Pipeline/Reviewed.antt =====
-- graph/nodes.py and the gates of tasks/verify.py and tasks/implement.py: what becomes of their
-- questions.
use autonomy_engine.Base.{
  String, ◌≡◌, refl, sym, ap, subst, ◌∙◌, Option, none, some, [], ◌∷◌, true, false, contains, ◌==◌,
  eq_iff, or_default, Bool-cases, inl, inr,
}
use autonomy_engine.Base.Dict.{insert, lookup, has_key, lookup-insert_self}
use autonomy_engine.World.{Platform, World, GateRequest, decision_required, ok, raise, pure}
use autonomy_engine.Tracer.Sound.{HasHexDigests, IsOpen}
use autonomy_engine.Pipeline.State.{Decision, PipelineState, Update, results_of}
use autonomy_engine.Pipeline.Gate.{HumanInput, handle_decision_gate}
use autonomy_engine.Pipeline.Nodes.{Tasks, implement_node, count_retry, implement_outcome}
use autonomy_engine.Pipeline.Gated.{verify_node, verify_outcome, verify_decided}
use autonomy_engine.Pipeline.Route.{end, extract, proceed, is_failed, route_after_implement}
use autonomy_engine.Pipeline.Run.{keep, IsMerge}
use autonomy_engine.Pipeline.Settled.{is_done, bind-values, ok-injective, Settles}
use autonomy_engine.Pipeline.Decided.{handle-IsRecorded}

-- the gate of tasks/verify.py for a verdict that may be injected
abbrev pub injection_request : GateRequest
injection_request = record {
  gate = "prompt_injection_review";
  stage = "verify";
  options = "accept_verdict" ∷ "reject_and_halt" ∷ [];
}

-- The verification is done, and the run has no error.
abbrev pub IsAccepted : PipelineState → Update → Type 0
IsAccepted s u = (h : Settles "verify" s u) × (is_done h.result.status ≡ true) × (u.error ≡ none)

not_rejected : (t : String) → contains t injection_request.options ≡ true → (t == "reject") ≡ false
not_rejected t h = elim (Bool-cases ("accept_verdict" == t)) [
  | inl same ↦ subst (λ x. (x == "reject") ≡ false) ((eq_iff "accept_verdict" t).0 same) refl
  | inr differ ↦ elim (Bool-cases ("reject_and_halt" == t)) [
    | inl same ↦ subst (λ x. (x == "reject") ≡ false) ((eq_iff "reject_and_halt" t).0 same) refl
    | inr other ↦ let h' = rw (differ, other) at h in cc h'
  ]
]

module _ (P : Platform) (T : Tasks) (resume : Option HumanInput) (s : PipelineState) where
  decided-IsAccepted :
      (d : Option Decision)
      → ((x : Decision) → d ≡ some x → (x.selected == "reject") ≡ false)
      → IsAccepted s (verify_decided P T resume s injection_request d)
  unfolding verify_decided
  decided-IsAccepted none h =
      (record { result = _; stored = refl; outcome = inl (refl, refl) }, refl, refl)
  decided-IsAccepted (some x) h =
      rw (h x refl) ((record { result = _; stored = refl; outcome = inl (refl, refl) }, refl, refl))

  -- If the verification raises the gate for an injected verdict in an open run, then whatever
  -- decision the gate is settled with, that of a human who rejects included, an update that
  -- `verify_node` returns has a result that is passed or skipped, and no error; for an HMAC
  -- whose signatures are ASCII.
  pub any_answer-IsAccepted :
      (dir rid key : String) (w w' : World) (u : Update)
      → HasHexDigests P
      → IsOpen P dir rid key (T.verify w).1
      → (T.verify w).0 ≡ raise (decision_required injection_request)
      → verify_node P T resume s w ≡ (ok u, w')
      → IsAccepted s u
  unfolding verify_node verify_outcome
  any_answer-IsAccepted dir rid key w w' u hex o asks h =
      let h1 = rw (asks, verify_node, verify_outcome) at h in
      let (d, decided, e) =
        bind-values (handle_decision_gate P resume injection_request s)
          (λ d. pure (verify_decided P T resume s injection_request d)) (T.verify w).1 h1 in
      let v : World = (handle_decision_gate P resume injection_request s (T.verify w).1).1 in
      subst (IsAccepted s) (ok-injective e) (
        decided-IsAccepted d (λ x same.
          let recorded =
            handle-IsRecorded P hex dir rid key injection_request s x resume (T.verify w).1 v o
              (decided ∙ ap (λ y. (ok y, v)) same) in
          not_rejected x.selected recorded.allowed))

module _ (merge : PipelineState → Update → PipelineState) (is_merge : IsMerge merge) (P : Platform)
    (T : Tasks) (s : PipelineState) where
  counted_results : (v : Update) → (count_retry P T s v).stage_results ≡ v.stage_results
  unfolding count_retry
  counted_results v = elim (Bool-cases (has_key "implement" (results_of s))) [
    | inl again ↦ rw again refl
    | inr first ↦ rw first refl
  ]

  -- If the implementation asks for a decision, then `implement_node` returns without asking
  -- anyone or changing more of the world than the implementation did, and the routing after
  -- the merge of its update ends the run.
  pub question-ends :
      (req : GateRequest) (w w' : World) (u : Update)
      → (T.implement w).0 ≡ raise (decision_required req)
      → implement_node P T s w ≡ (ok u, w')
      → (route_after_implement (merge s u) ≡ end) × (w' ≡ (T.implement w).1)
  unfolding implement_node implement_outcome route_after_implement proceed is_failed
  question-ends req w w' u asks h =
      let h' = rw (asks, implement_node) at h in
      let v = implement_outcome P T s (raise (decision_required req)) in
      let stored : u.stage_results ≡ some (insert "implement" _ (results_of s)) =
        ap (λ x. x.stage_results) (sym (ok-injective h')) ∙ counted_results v in
      let results =
        ap (or_default []) (is_merge.stage_results s u ∙ ap (keep s.stage_results) stored) in
      (
        ap (λ d. proceed (lookup "implement" d) extract) results
            ∙ ap (λ o. proceed o extract) (lookup-insert_self "implement" _ (results_of s)),
        sym (ap (λ x. x.1) h'),
      )
