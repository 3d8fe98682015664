-- ===== src/Tests/Runs.antt =====
-- graph/pipeline.py: a run with tasks that succeed, and a test stage that fails.
use autonomy_engine.Base.{◌≡◌, ◌≢◌, ◌⊎◌, refl, none, some, false}
use autonomy_engine.World.{World, Result, failure, runtime_error, ok, raise, throw}
use autonomy_engine.Context
use autonomy_engine.Pipeline.State.{PipelineState, Update, results_of}
use autonomy_engine.Pipeline.Nodes.{Tasks, stage_failed}
use autonomy_engine.Pipeline.Gated.{test_node}
use autonomy_engine.Pipeline.Route.{
  NodeName, bootstrap, design, implement, extract, test, verify, complete, to, node_of, edge_of,
  route_after_test,
}
use autonomy_engine.Pipeline.Run.{
  Config, start, initial_state, Step, move, Reach, here, next, Ends, finish, terminal_state,
}
use autonomy_engine.Pipeline.Linear.{IsReady, AllDone, stages_before, rank}
use autonomy_engine.Pipeline.Advance.{no_retry_after_test}
use autonomy_engine.Pipeline.Reached.{moves, Reach-IsReady, run-Ends}
use autonomy_engine.Pipeline.Live.{node-goes_on}
use autonomy_engine.Tests.Samples.{sample, idle, merge, merge-IsMerge, with_inputs}

-- the configuration after the node was executed, with no answer of a human
abbrev after_node : Config → NodeName → Result Update × World → Config
after_node c m (ok u, w) = record { node = m; state = merge c.state u; world = w }
after_node c m (raise e, w) = c

advance : Config → NodeName → Config
unfolding node_of Context.init Context.get_project_dir
advance c m = after_node c m (node_of sample idle c.node none c.state c.world)

abbrev c0 : Config
c0 = start (some "/p") with_inputs

abbrev c1 : Config
c1 = advance c0 bootstrap

step0 : Step sample idle merge c0 c1
unfolding start node_of edge_of advance
step0 = move none refl refl refl

abbrev c2 : Config
c2 = advance c1 design

step1 : Step sample idle merge c1 c2
unfolding start node_of edge_of advance
step1 = move none refl refl refl

abbrev c3 : Config
c3 = advance c2 implement

step2 : Step sample idle merge c2 c3
unfolding start node_of edge_of advance
step2 = move none refl refl refl

abbrev c4 : Config
c4 = advance c3 extract

step3 : Step sample idle merge c3 c4
unfolding start node_of edge_of advance
step3 = move none refl refl refl

abbrev c5 : Config
c5 = advance c4 test

step4 : Step sample idle merge c4 c5
unfolding start node_of edge_of advance
step4 = move none refl refl refl

abbrev c6 : Config
c6 = advance c5 verify

step5 : Step sample idle merge c5 c6
unfolding start node_of edge_of advance
step5 = move none refl refl refl

abbrev c7 : Config
c7 = advance c6 complete

step6 : Step sample idle merge c6 c7
unfolding start node_of edge_of advance
step6 = move none refl refl refl

run : Reach sample idle merge c0 c7
run = next (next (next (next (next (next (next here step0) step1) step2) step3) step4) step5) step6

last_state : PipelineState
unfolding advance
last_state = (advance c7 complete).state

end-Ends : Ends sample idle merge c7 last_state
unfolding start node_of edge_of advance last_state
end-Ends = finish none refl refl refl

run-Ends_example :
    ((terminal_state false last_state ≡ "complete")
      × AllDone (stages_before complete) (results_of last_state))
    ⊎ (terminal_state false last_state ≡ "failed")
run-Ends_example = run-Ends sample idle merge merge-IsMerge (some "/p") with_inputs run end-Ends

Reach-IsReady_example :
    (moves sample idle merge merge-IsMerge run ≡ rank c7.node) × IsReady c7.node c7.state
Reach-IsReady_example = Reach-IsReady sample idle merge merge-IsMerge (some "/p") with_inputs run

-- the tests fail
abbrev failing : Tasks
failing = record idle { test = throw (failure runtime_error "tests failed") }

abbrev s0 : PipelineState
s0 = initial_state (some "/p")

abbrev test_failed : Update
test_failed =
    stage_failed sample s0 "test" "Test stage failed: " (failure runtime_error "tests failed")

test-fails : test_node sample failing none s0 with_inputs ≡ (ok test_failed, with_inputs)
unfolding test_node
test-fails = refl

no_retry_after_test_example : route_after_test sample (merge s0 test_failed) ≢ ok (to implement)
no_retry_after_test_example =
    no_retry_after_test merge merge-IsMerge sample failing none s0 with_inputs with_inputs
      test_failed test-fails

abbrev at_test : Config
at_test = record { node = test; state = s0; world = with_inputs }

test-returns : node_of sample failing test none s0 with_inputs ≡ (ok test_failed, with_inputs)
unfolding node_of
test-returns = test-fails

node-goes_on_example :
    ((d : Config) × Step sample failing merge at_test d)
    ⊎ ((s : PipelineState) × Ends sample failing merge at_test s)
node-goes_on_example =
    node-goes_on sample failing merge merge-IsMerge at_test none test_failed with_inputs
      test-returns
