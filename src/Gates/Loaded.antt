-- ===== src/Gates/Loaded.antt =====
-- engine/decision_gates.py: choices that answer a gate, and that a decision that can be loaded exists.
use autonomy_engine.Base.{String, ◌≡◌, refl, ap, none, Option-cases, inl, inr, true}
use autonomy_engine.Base.Dict.{lookup, has_key}
use autonomy_engine.World.{Platform, World, GateRequest, DecisionRecord, Result, ok, raise}
use autonomy_engine.Gates.{Choice, save_decision, decision_path, decision_exists, load_decision}

-- the choice of a human that answers a gate
abbrev pub choice_of : GateRequest → String → Choice
choice_of req selected = record {
  gate = req.gate;
  stage = req.stage;
  allowed_options = req.options;
  selected = selected;
  actor = none;
  rationale = "";
}

-- the world after that choice was saved
abbrev pub decided : Platform → GateRequest → String → World → World
decided P req selected w = (save_decision P (choice_of req selected) w).1

pub exists-loaded :
    (P : Platform) (gate : String) (r : DecisionRecord) (w : World)
    → load_decision P gate w ≡ (ok r, w)
    → decision_exists P gate w ≡ (ok true, w)
unfolding load_decision decision_exists has_key
exists-loaded P gate r w h = go (decision_path P gate w).0 refl
  where
    go :
        (p : Result String)
        → (decision_path P gate w).0 ≡ p
        → decision_exists P gate w ≡ (ok true, w)
    go (raise e) q = let h' = rw (q, load_decision) at h in absurd (cc (ap (λ x. x.0) h'))
    go (ok path) q =
        let v : World = (decision_path P gate w).1 in
        elim (Option-cases (lookup path v.decisions)) [
          | inl absent ↦
              let h' = rw (q, load_decision, absent) at h in absurd (cc (ap (λ x. x.0) h'))
          | inr (found, there) ↦
              let h' = rw (q, load_decision, there) at h in
              let same : v ≡ w = ap (λ x. x.1) h' in
              rw (q, has_key, there) (ap (λ u. (ok true, u)) same)
        ]
