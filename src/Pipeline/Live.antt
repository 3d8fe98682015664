-- ===== src/Pipeline/Live.antt =====
-- graph/pipeline.py: runs do not go on for ever, and do not get stuck.
use autonomy_engine.Base.{◌≤◌, String, ◌≡◌, refl, ◌⊎◌, inl, inr, Option, arith}
use autonomy_engine.World.{Platform, World, ok}
use autonomy_engine.Pipeline.State.{PipelineState, Update}
use autonomy_engine.Pipeline.Gate.{HumanInput}
use autonomy_engine.Pipeline.Nodes.{Tasks}
use autonomy_engine.Pipeline.Route.{
  NodeName, init, bootstrap, design, implement, extract, test, verify, complete, Target, to, end,
  node_of, edge_of,
}
use autonomy_engine.Pipeline.Run.{IsMerge, Config, start, Step, move, Reach, Ends, finish}
use autonomy_engine.Pipeline.Linear.{rank}
use autonomy_engine.Pipeline.Routing.{test-Settles}
use autonomy_engine.Pipeline.Advance.{test_node-Settles}
use autonomy_engine.Pipeline.Reached.{moves, Reach-IsReady}

rank_le : (n : NodeName) → rank n ≤ 7
rank_le n = ground arith

module _ (P : Platform) (T : Tasks) (merge : PipelineState → Update → PipelineState)
    (is_merge : IsMerge merge) where
  -- No run of the graph from its initial state makes more than seven moves from node to node,
  -- whatever the tasks do and however often it pauses; for any merge of updates that keeps
  -- the last value of a key.
  moves-le :
      (dir : Option String) (w : World) {d : Config} (r : Reach P T merge (start dir w) d)
      → moves P T merge is_merge r ≤ 7
  moves-le dir w {d} r = omega (arith, (Reach-IsReady P T merge is_merge dir w r).0, rank_le d.node)

  edge-returns :
      (n : NodeName) (resume : Option HumanInput) (s : PipelineState) (w w' : World) (u : Update)
      → node_of P T n resume s w ≡ (ok u, w')
      → (t : Target) × (edge_of P n (merge s u) ≡ ok t)
  unfolding node_of edge_of
  edge-returns init resume s w w' u h = (_, refl)
  edge-returns bootstrap resume s w w' u h = (_, refl)
  edge-returns design resume s w w' u h = (_, refl)
  edge-returns implement resume s w w' u h = (_, refl)
  edge-returns extract resume s w w' u h = (_, refl)
  edge-returns test resume s w w' u h = (
    _,
    test-Settles merge is_merge P s u (test_node-Settles merge is_merge P T resume s w w' u h),
  )
  edge-returns verify resume s w w' u h = (_, refl)
  edge-returns complete resume s w w' u h = (_, refl)

  -- Whenever an execution of a node returns an update, the run goes on with a step or comes
  -- to its end: no routing function raises after that.
  pub node-goes_on :
      (c : Config) (resume : Option HumanInput) (u : Update) (w' : World)
      → node_of P T c.node resume c.state c.world ≡ (ok u, w')
      → ((d : Config) × Step P T merge c d) ⊎ ((s : PipelineState) × Ends P T merge c s)
  node-goes_on c resume u w' h =
      let (t, e) = edge-returns c.node resume c.state c.world w' u h in go t e
    where
      go :
          (t : Target)
          → edge_of P c.node (merge c.state u) ≡ ok t
          → ((d : Config) × Step P T merge c d) ⊎ ((s : PipelineState) × Ends P T merge c s)
      go (to m) e = inl (_, move resume h e refl)
      go end e = inr (_, finish resume h e refl)
