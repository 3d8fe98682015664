-- ===== src/Gates/Saved.antt =====
-- engine/decision_gates.py, `save_decision` and what it leaves for `load_decision`.
use autonomy_engine.Base.{
  ◌∙◌, String, ◌<>◌, ◌+◌, ◌≡◌, refl, sym, subst, some, true, false, contains,
}
use autonomy_engine.Base.Dict.{insert, lookup-insert_self}
use autonomy_engine.World.{Platform, World, DecisionRecord, value_error, failure, ok, raise}
use autonomy_engine.Tracer.{trace}
use autonomy_engine.Tracer.Sound.{HasHexDigests, IsOpen, trace-IsOpen, trace_frame}
use autonomy_engine.Gates.{
  Choice, resolve_actor, decision_rel, decision_call, record_of, write_decision, save_decision,
  load_decision,
}

module _ (P : Platform) (dir rid : String) (c : Choice) where
  abbrev in_run : World → World
  in_run w = record w { project_dir = some dir; tracer = record w.tracer { run_id = some rid } }

  saved_record : World → DecisionRecord
  saved_record w = record_of c rid (resolve_actor c.actor w) (P.timestamp w.ticks)

  saved_path : String
  saved_path = (dir <> "/state") <> "/" <> decision_rel P rid c.gate

  -- the world before the trace of the decision
  written : World → World
  unfolding saved_record saved_path
  written w = write_decision P saved_path (saved_record w) (record w { ticks = w.ticks + 1 })

  save-in_run :
      (w : World)
      → contains c.selected c.allowed_options ≡ true
      → save_decision P c (in_run w)
        ≡ trace P
            (decision_call P c (resolve_actor c.actor (in_run w)) (decision_rel P rid c.gate))
            (written (in_run w))
  unfolding save_decision written
  save-in_run w h = rw h

  module _ (hex : HasHexDigests P) (key : String) where
    save-eq :
        (w : World)
        → IsOpen P dir rid key w
        → contains c.selected c.allowed_options ≡ true
        → save_decision P c w
          ≡ trace P
              (decision_call P c (resolve_actor c.actor w) (decision_rel P rid c.gate))
              (written w)
    save-eq w o h =
        let e : w ≡ in_run w = λ i. record w {
          project_dir = o.in_dir i;
          tracer = record w.tracer { run_id = o.in_run i };
        } in
        subst
          (λ u.
            save_decision P c u
            ≡ trace P (decision_call P c (resolve_actor c.actor u) (decision_rel P rid c.gate))
                (written u))
          (sym e) (save-in_run w h)

    written-IsOpen : (w : World) → IsOpen P dir rid key w → IsOpen P dir rid key (written w)
    unfolding written write_decision
    written-IsOpen w o = record {
      in_dir = o.in_dir;
      in_run = o.in_run;
      with_key = o.with_key;
      chain = o.chain;
    }

    written_seq : (w : World) → (written w).tracer.seq + 1 ≡ w.tracer.seq + 1
    unfolding written write_decision
    written_seq w = refl

    load-saved :
        (w v : World)
        → IsOpen P dir rid key v
        → v.decisions ≡ (written w).decisions
        → load_decision P c.gate v ≡ (ok (saved_record w), v)
    unfolding load_decision written write_decision saved_path
    load-saved w v o d =
        let u : World = record (in_run v) {
          decisions = insert saved_path (saved_record w) w.decisions;
        } in
        let e : v ≡ u = λ i. record v {
          project_dir = o.in_dir i;
          tracer = record v.tracer { run_id = o.in_run i };
          decisions = d i;
        } in
        subst (λ x. load_decision P c.gate x ≡ (ok (saved_record w), x)) (sym e)
          (rw (lookup-insert_self saved_path (saved_record w) w.decisions))

    -- In an open run with a valid chain, `save_decision` with a choice among the options
    -- returns, `load_decision` of the gate then gives the record of just that choice, actor
    -- and time without changing anything, and the log is a valid chain with one entry more;
    -- for an HMAC whose signatures are ASCII.
    pub save-load :
        (w : World)
        → IsOpen P dir rid key w
        → contains c.selected c.allowed_options ≡ true
        → ((save_decision P c w).0 ≡ ok tt)
          × (load_decision P c.gate (save_decision P c w).1 ≡ (
            ok (record {
              run_id = rid;
              gate = c.gate;
              stage = c.stage;
              allowed_options = c.allowed_options;
              selected = c.selected;
              actor = resolve_actor c.actor w;
              timestamp = P.timestamp w.ticks;
              rationale = c.rationale;
            }),
            (save_decision P c w).1,
          ))
          × IsOpen P dir rid key (save_decision P c w).1
          × ((save_decision P c w).1.tracer.seq ≡ w.tracer.seq + 1)
    unfolding saved_record record_of
    save-load w o h =
        let v = written w in
        let call = decision_call P c (resolve_actor c.actor w) (decision_rel P rid c.gate) in
        let (done, o') = trace-IsOpen P dir rid call hex key v (written-IsOpen w o) in
        let same = trace_frame P dir rid call hex key v (written-IsOpen w o) in
        rw (save-eq w o h) (
          done,
          load-saved w (trace P call v).1 o' same.decisions_same,
          o',
          same.counted ∙ written_seq w,
        )

  -- Any other choice is refused, and nothing is written.
  pub save_refused :
      (w : World)
      → contains c.selected c.allowed_options ≡ false
      → save_decision P c w ≡ (raise (failure value_error "Invalid choice"), w)
  unfolding save_decision
  save_refused w h = rw h
