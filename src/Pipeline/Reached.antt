-- ===== src/Pipeline/Reached.antt =====
-- graph/pipeline.py: whole runs, their order and their end.
use autonomy_engine.Base.{
  ℕ, suc, ◌+◌, String, ◌≡◌, ◌≢◌, refl, sym, ap, ◌∙◌, ◌⊎◌, inl, inr, subst, Option, none, some, [],
  ◌∷◌, true, false, arith, truthy, or_default,
}
use autonomy_engine.World.{Platform, World, ok}
use autonomy_engine.Pipeline.State.{PipelineState, Update, results_of, no_update}
use autonomy_engine.Pipeline.Gate.{HumanInput}
use autonomy_engine.Pipeline.Nodes.{Tasks}
use autonomy_engine.Pipeline.Route.{
  NodeName, init, bootstrap, design, implement, extract, test, verify, complete, to, end, node_of,
  edge_of,
}
use autonomy_engine.Pipeline.Run.{
  IsMerge, Config, start, move, wait, Ends, finish, Reach, here, next, terminal_state, keep,
}
use autonomy_engine.Pipeline.Settled.{bind-ok, ok-injective}
use autonomy_engine.Pipeline.Linear.{AllDone, IsReady, name_of, stages_before, next_of, rank}
use autonomy_engine.Pipeline.Advance.{Advances, node-Advances}

next-rank : (n m : NodeName) → to m ≡ next_of n → rank m ≡ rank n + 1
next-rank n m h = ground arith

next-stages : (n m : NodeName) → to m ≡ next_of n → stages_before m ≡ name_of n ∷ stages_before n
next-stages n m h = ground arith

to-ne-end : (m : NodeName) → to m ≢ end
to-ne-end m h = cc

module _ (P : Platform) (T : Tasks) (merge : PipelineState → Update → PipelineState)
    (is_merge : IsMerge merge) where
  complete_last :
      (c : Config) (m : NodeName) (u : Update)
      → edge_of P c.node (merge c.state u) ≡ ok (to m)
      → c.node ≢ complete
  unfolding edge_of
  complete_last c m u e h =
      let e' : ok end ≡ ok (to m) = subst (λ n. edge_of P n (merge c.state u) ≡ ok (to m)) h e in cc

  move-rank-IsReady :
      (c : Config) (resume : Option HumanInput) (u : Update) (w' : World) (m : NodeName)
      → IsReady c.node c.state
      → node_of P T c.node resume c.state c.world ≡ (ok u, w')
      → edge_of P c.node (merge c.state u) ≡ ok (to m)
      → (rank m ≡ rank c.node + 1) × IsReady m (merge c.state u)
  move-rank-IsReady c resume u w' m r h e = go (
      node-Advances merge is_merge P T resume c.state c.world w' u (to m) c.node
        (complete_last c m u e) r h e)
    where
      go :
          Advances c.node (merge c.state u) (to m)
          → (rank m ≡ rank c.node + 1) × IsReady m (merge c.state u)
      go (inl (on, done, clean)) = (
        next-rank c.node m on,
        record { done = rw (next-stages c.node m on) done; clean = clean },
      )
      go (inr (stop, x)) = absurd (to-ne-end m stop)

  -- the moves from node to node on the way, without the executions that paused
  abbrev pub moves : {c d : Config} → Reach P T merge c d → ℕ
  moves here = 0
  moves (next r (move resume h e x)) = suc (moves r)
  moves (next r (wait resume h x)) = moves r

  -- In every configuration that a run reaches, the number of moves from node to node is the
  -- place of the node in the order of the stages, all stages before that node have a result
  -- that is passed or skipped, and the state has no error; for any tasks and platform, and
  -- any merge of updates that keeps the last value of a key.
  pub Reach-IsReady :
      (dir : Option String) (w : World) {d : Config} (r : Reach P T merge (start dir w) d)
      → (moves r ≡ rank d.node) × IsReady d.node d.state
  unfolding start
  Reach-IsReady dir w here = (refl, record { done = tt; clean = refl })
  Reach-IsReady dir w (next {d} {e} r (move resume {u} {w'} {m} h edge x)) =
      let (n, ready) = Reach-IsReady dir w r in
      let (n', ready') = move-rank-IsReady d resume u w' m ready h edge in
      (rw x (omega (arith, n, n')), rw x ready')
  Reach-IsReady dir w (next {d} {e} r (wait resume h x)) =
      let (n, ready) = Reach-IsReady dir w r in (rw x n, rw x ready)

  complete_update :
      (resume : Option HumanInput) (s : PipelineState) (w w' : World) (u : Update)
      → node_of P T complete resume s w ≡ (ok u, w')
      → u ≡ record no_update { current_stage = some "complete" }
  unfolding node_of
  complete_update resume s w w' u h =
      let (a, e) = bind-ok (T.notify "Autonomous build flow completed (LangGraph).") _ w h in
      sym (ok-injective e)

  abbrev Finished : PipelineState → Type 0
  Finished s =
      ((terminal_state false s ≡ "complete") × AllDone (stages_before complete) (results_of s))
      ⊎ (terminal_state false s ≡ "failed")

  completes :
      (s : PipelineState) (u : Update)
      → IsReady complete s
      → u ≡ record no_update { current_stage = some "complete" }
      → Finished (merge s u)
  unfolding terminal_state
  completes s u ready h =
      let done_update : Update = record no_update { current_stage = some "complete" } in
      let error : (merge s u).error ≡ none =
        is_merge.error s u ∙ ap (λ (v : Update). or_default s.error v.error) h ∙ ready.clean in
      let stage : (merge s u).current_stage ≡ some "complete" =
        is_merge.current_stage s u ∙ ap (λ (v : Update). keep s.current_stage v.current_stage) h in
      let results : results_of (merge s u) ≡ results_of s = ap (or_default []) (
        is_merge.stage_results s u ∙ ap (λ (v : Update). keep s.stage_results v.stage_results) h) in
      inl (rw (error, stage), subst (AllDone (stages_before complete)) (sym results) ready.done)

  failed_state :
      (s : PipelineState) (e : String)
      → s.error ≡ some e
      → truthy e ≡ true
      → terminal_state false s ≡ "failed"
  unfolding terminal_state
  failed_state s e h full = rw h (rw full)

  next-ne-end : (n : NodeName) → n ≢ complete → next_of n ≢ end
  next-ne-end complete h e = h refl
  next-ne-end _ h e = cc

  -- A run of the graph from its initial state, with pauses and resumptions anywhere, that
  -- comes to its end without an interrupt has the terminal state "complete", and then the
  -- stages init to verify all have a result that is passed or skipped, or it has the terminal
  -- state "failed"; for any tasks and platform, and any merge of updates that keeps the last
  -- value of a key.
  pub run-Ends :
      (dir : Option String) (w : World) {d : Config} {s : PipelineState}
      → Reach P T merge (start dir w) d
      → Ends P T merge d s
      → ((terminal_state false s ≡ "complete") × AllDone (stages_before complete) (results_of s))
        ⊎ (terminal_state false s ≡ "failed")
  run-Ends dir w {d} {s} r (finish resume {u} {w'} h edge x) = rw x (go d.node refl)
    where
      ready : IsReady d.node d.state
      ready = (Reach-IsReady dir w r).1

      stopped :
          d.node ≢ complete → Advances d.node (merge d.state u) end → Finished (merge d.state u)
      stopped n (inl (on, done, clean)) = absurd (next-ne-end d.node n (sym on))
      stopped n (inr (stop, (e, error, full))) = inr (failed_state (merge d.state u) e error full)

      before : d.node ≢ complete → Finished (merge d.state u)
      before n =
          stopped n
            (node-Advances merge is_merge P T resume d.state d.world w' u end d.node n ready h edge)

      go : (n : NodeName) → d.node ≡ n → Finished (merge d.state u)
      go complete e = completes d.state u (subst (λ n. IsReady n d.state) e ready) (
          complete_update resume d.state d.world w' u
            (subst (λ n. node_of P T n resume d.state d.world ≡ (ok u, w')) e h))
      go init e = before (λ c. cc (sym e ∙ c))
      go bootstrap e = before (λ c. cc (sym e ∙ c))
      go design e = before (λ c. cc (sym e ∙ c))
      go implement e = before (λ c. cc (sym e ∙ c))
      go extract e = before (λ c. cc (sym e ∙ c))
      go test e = before (λ c. cc (sym e ∙ c))
      go verify e = before (λ c. cc (sym e ∙ c))
