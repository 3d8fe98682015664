-- ===== src/Pipeline/Decided.antt =====
-- graph/nodes.py, `_handle_decision_gate`: the decision that it returns, and the record of it.
use autonomy_engine.Base.{
  String, ◌≡◌, refl, sym, ap, subst, Option, none, some, true, contains, or_default, Bool-cases,
  Option-cases, inl, inr,
}
use autonomy_engine.Base.Dict.{Dict}
use autonomy_engine.World.Json.{Json}
use autonomy_engine.World.{
  Platform, World, GateRequest, DecisionRecord, Exc, Result, ok, raise, lift,
}
use autonomy_engine.Tracer.Sound.{HasHexDigests, IsOpen}
use autonomy_engine.Gates.{
  Choice, save_decision, load_decision, resolve_actor, first_option, auto_option,
}
use autonomy_engine.Gates.Policies.{Policy, pause, auto, skip, get_gate_policy}
use autonomy_engine.Gates.Saved.{save-load, save_refused}
use autonomy_engine.Pipeline.State.{Decision, PipelineState}
use autonomy_engine.Pipeline.Gate.{
  HumanInput, interrupt, marker_path, pending_gate_path, write_pending_gate, clear_pending_gate,
  record_decision, decide, handle_decision_gate,
}
use autonomy_engine.Pipeline.Settled.{bind-ok, ok-injective}

module _ (P : Platform) (dir rid key : String) where
  -- `d` answers `req`, and is on record in `w`.
  pub record IsRecorded (req : GateRequest) (d : Decision) (w : World) : Type 0 where
    pub allowed : contains d.selected req.options ≡ true
    pub gate_same : d.gate ≡ req.gate
    pub kept :
        (r : DecisionRecord) × (load_decision P req.gate w ≡ (ok r, w))
        × (r.selected ≡ d.selected)
        × (r.actor ≡ d.actor)
        × (r.rationale ≡ d.rationale)
    pub still_open : IsOpen P dir rid key w

module _ (P : Platform) (hex : HasHexDigests P) (dir rid key : String) where
  abbrev in_project : World → World
  in_project w = record w { project_dir = some dir }

  in_project_of : (w : World) → w.project_dir ≡ some dir → w ≡ in_project w
  in_project_of w d = λ i. record w { project_dir = d i }

  policy-in_project :
      (stage : String) (w : World) → (get_gate_policy P stage (in_project w)).1 ≡ in_project w
  unfolding get_gate_policy
  policy-in_project stage w = refl

  policy-same :
      (stage : String) (w : World) → w.project_dir ≡ some dir → (get_gate_policy P stage w).1 ≡ w
  policy-same stage w d =
      subst (λ v. (get_gate_policy P stage v).1 ≡ v) (sym (in_project_of w d))
        (policy-in_project stage w)

  abbrev chosen : GateRequest → String → String → String → Choice
  chosen req selected actor rationale = record {
    gate = req.gate;
    stage = req.stage;
    allowed_options = req.options;
    selected = selected;
    actor = some actor;
    rationale = rationale;
  }

  abbrev decision_of : GateRequest → String → String → String → Decision
  decision_of req selected actor rationale = record {
    gate = req.gate;
    stage = req.stage;
    selected = selected;
    actor = actor;
    rationale = rationale;
  }

  some-injective : (a b : Decision) → some a ≡ some b → a ≡ b
  some-injective a b h = cc

  recorded :
      (req : GateRequest) (selected actor rationale : String) (d : Decision) (w w' : World)
      → IsOpen P dir rid key w
      → record_decision P req selected actor rationale w ≡ (ok (some d), w')
      → IsRecorded P dir rid key req d w'
  unfolding record_decision
  recorded req selected actor rationale d w w' o h =
      let c = chosen req selected actor rationale in
      let made = decision_of req selected actor rationale in
      elim (Bool-cases (contains selected req.options)) [
        | inl allowed ↦
            let (done, loads, open_run, counted) = save-load P dir rid c hex key w o allowed in
            let h' = rw done at h in
            let v : World = (save_decision P c w).1 in
            let same : made ≡ d = some-injective made d (ok-injective h') in
            let there : IsRecorded P dir rid key req made v = record {
              allowed = allowed;
              gate_same = refl;
              kept = (_, loads, refl, refl, refl);
              still_open = open_run;
            } in
            subst (IsRecorded P dir rid key req d) (ap (λ p. p.1) h')
              (subst (λ x. IsRecorded P dir rid key req x v) same there)
        | inr refused ↦ let h' = rw (save_refused P dir rid c w refused) at h in absurd (raised h')
      ]
    where
      raised :
          {e : Exc} {v : World}
          → ◌≡◌ {A = Result (Option Decision) × World} (raise e, v) (ok (some d), w')
          → ⊥
      raised q = cc (ap (λ p. p.0) q)

  -- a world that differs in pending gates only
  IsOpen-pending :
      (w : World) (gates : Dict GateRequest)
      → IsOpen P dir rid key w
      → IsOpen P dir rid key (record w { pending_gates = gates })
  IsOpen-pending w gates o = record {
    in_dir = o.in_dir;
    in_run = o.in_run;
    with_key = o.with_key;
    chain = o.chain;
  }

  path_in_project :
      (s : PipelineState) (w : World)
      → (o : Option String) × (pending_gate_path P s (in_project w) ≡ (ok o, in_project w))
  unfolding pending_gate_path
  path_in_project s w = elim (Option-cases (marker_path P s.run_id "")) [
    | inl absent ↦ rw (absent, pending_gate_path) (none, refl)
    | inr (x, found) ↦ rw (found, pending_gate_path) (_, refl)
  ]

  path-ok :
      (s : PipelineState) (w : World)
      → w.project_dir ≡ some dir
      → (o : Option String) × (pending_gate_path P s w ≡ (ok o, w))
  path-ok s w d =
      subst (λ v. (o : Option String) × (pending_gate_path P s v ≡ (ok o, v)))
        (sym (in_project_of w d)) (path_in_project s w)

  write-IsOpen :
      (s : PipelineState) (req : GateRequest) (w : World)
      → IsOpen P dir rid key w
      → IsOpen P dir rid key (write_pending_gate P s req w).1
  unfolding write_pending_gate
  write-IsOpen s req w o = let (path, e) = path-ok s w o.in_dir in go path e
    where
      go :
          (path : Option String)
          → pending_gate_path P s w ≡ (ok path, w)
          → IsOpen P dir rid key (write_pending_gate P s req w).1
      go none e = rw e o
      go (some path) e = rw e (IsOpen-pending w _ o)

  clear-IsOpen :
      (s : PipelineState) (w : World)
      → IsOpen P dir rid key w
      → IsOpen P dir rid key (clear_pending_gate P s w).1
  unfolding clear_pending_gate
  clear-IsOpen s w o = let (path, e) = path-ok s w o.in_dir in go path e
    where
      go :
          (path : Option String)
          → pending_gate_path P s w ≡ (ok path, w)
          → IsOpen P dir rid key (clear_pending_gate P s w).1
      go none e = rw e o
      go (some path) e = rw e (IsOpen-pending w _ o)

  module _ (req : GateRequest) (s : PipelineState) (d : Decision) where
    decided :
        (resume : Option HumanInput) (policy : Policy) (default_option : Json) (w w' : World)
        → IsOpen P dir rid key w
        → decide P resume req s policy default_option w ≡ (ok (some d), w')
        → IsRecorded P dir rid key req d w'
    unfolding decide interrupt
    decided resume skip default_option w w' o h = absurd (cc (ok-injective h))
    decided resume auto default_option w w' o h =
        let (selected, e) = bind-ok (lift (auto_option default_option req.options)) _ w h in
        recorded req selected "auto-policy" "" d w w' o e
    decided none pause default_option w w' o h =
        let (a, e) = bind-ok (write_pending_gate P s req) _ w h in absurd (cc (ap (λ p. p.0) e))
    decided (some answer) pause default_option w w' o h =
        let (a, e) = bind-ok (write_pending_gate P s req) _ w h in
        let v : World = (write_pending_gate P s req w).1 in
        let (b, f) = bind-ok (clear_pending_gate P s) _ v e in
        let u : World = (clear_pending_gate P s v).1 in
        let (first, g) = bind-ok (lift (first_option req.options)) _ u f in
        recorded req (or_default first answer.choice) (resolve_actor none u)
          (or_default "" answer.rationale) d u w' (clear-IsOpen s v (write-IsOpen s req w o)) g

    -- In an open run with a valid chain, a decision that `_handle_decision_gate` returns, by
    -- the default of the policy or by a human's answer, is for the gate that asked and one of
    -- its options, `load_decision` of the gate then gives a record with just that choice,
    -- actor and rationale, and the run is still open with a valid chain; for an HMAC whose
    -- signatures are ASCII.
    pub handle-IsRecorded :
        (resume : Option HumanInput) (w w' : World)
        → IsOpen P dir rid key w
        → handle_decision_gate P resume req s w ≡ (ok (some d), w')
        → IsRecorded P dir rid key req d w'
    unfolding handle_decision_gate
    handle-IsRecorded resume w w' o h =
        let (policy, e) = bind-ok (get_gate_policy P req.stage) _ w h in
        let same : (get_gate_policy P req.stage w).1 ≡ w = policy-same req.stage w o.in_dir in
        decided resume policy.policy policy.default_option w w' o (rw same at e)
