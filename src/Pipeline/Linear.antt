-- ===== src/Pipeline/Linear.antt =====
-- graph/pipeline.py: the nodes of a run in their order, and what is asked when one is executed.
use autonomy_engine.Pipeline.Route.{
  NodeName, init, bootstrap, design, implement, extract, test, verify, complete, Target, to, end,
}
use autonomy_engine.Base.{
  ℕ, String, ◌≡◌, ap, ◌∙◌, inl, inr, none, some, List, [], ◌∷◌, true, if◌then◌else◌, Bool-cases,
  ◌==◌,
}
use autonomy_engine.Base.Dict.{Dict, insert, lookup, lookup-insert, lookup-insert_self}
use autonomy_engine.Pipeline.State.{StageResult, PipelineState, results_of}
use autonomy_engine.Pipeline.Settled.{is_done}

abbrev pub IsDoneAt : String → Dict StageResult → Type 0
IsDoneAt stage d = (r : StageResult) × (lookup stage d ≡ some r) × (is_done r.status ≡ true)

-- Each of the stages has a result that is passed or skipped.
abbrev pub AllDone : List String → Dict StageResult → Type 0
AllDone [] d = Unit
AllDone (stage ∷ stages) d = IsDoneAt stage d × AllDone stages d

IsDoneAt-insert :
    (j k : String) (r : StageResult) (d : Dict StageResult)
    → is_done r.status ≡ true
    → IsDoneAt j d
    → IsDoneAt j (insert k r d)
IsDoneAt-insert j k r d h (old, found, done) = elim (Bool-cases (k == j)) [
  | inl same ↦ (r, lookup-insert j k r d ∙ ap (λ b. if b then some r else lookup j d) same, h)
  | inr differ ↦
      (old, lookup-insert j k r d ∙ ap (λ b. if b then some r else lookup j d) differ ∙ found, done)
]

pub AllDone-insert :
    (stages : List String) (k : String) (r : StageResult) (d : Dict StageResult)
    → is_done r.status ≡ true
    → AllDone stages d
    → AllDone (k ∷ stages) (insert k r d)
AllDone-insert stages k r d h all = ((r, lookup-insert_self k r d, h), keep_all stages all)
  where
    keep_all : (ss : List String) → AllDone ss d → AllDone ss (insert k r d)
    keep_all [] a = tt
    keep_all (s ∷ ss) (a, b) = (IsDoneAt-insert s k r d h a, keep_all ss b)

-- the name of a node as a key of the results
abbrev pub name_of : NodeName → String
name_of init = "init"
name_of bootstrap = "bootstrap"
name_of design = "design"
name_of implement = "implement"
name_of extract = "extract"
name_of test = "test"
name_of verify = "verify"
name_of complete = "complete"

-- the stages that stand before a node, the last one first
abbrev pub stages_before : NodeName → List String
stages_before init = []
stages_before bootstrap = "init" ∷ []
stages_before design = "bootstrap" ∷ "init" ∷ []
stages_before implement = "design" ∷ "bootstrap" ∷ "init" ∷ []
stages_before extract = "implement" ∷ "design" ∷ "bootstrap" ∷ "init" ∷ []
stages_before test = "extract" ∷ "implement" ∷ "design" ∷ "bootstrap" ∷ "init" ∷ []
stages_before verify = "test" ∷ "extract" ∷ "implement" ∷ "design" ∷ "bootstrap" ∷ "init" ∷ []
stages_before complete =
    "verify" ∷ "test" ∷ "extract" ∷ "implement" ∷ "design" ∷ "bootstrap" ∷ "init" ∷ []

-- what follows a node whose stage is done
abbrev pub next_of : NodeName → Target
next_of init = to bootstrap
next_of bootstrap = to design
next_of design = to implement
next_of implement = to extract
next_of extract = to test
next_of test = to verify
next_of verify = to complete
next_of complete = end

abbrev pub rank : NodeName → ℕ
rank init = 0
rank bootstrap = 1
rank design = 2
rank implement = 3
rank extract = 4
rank test = 5
rank verify = 6
rank complete = 7

-- Before a node is executed, all stages before it are done, and there is no error.
pub record IsReady (n : NodeName) (s : PipelineState) : Type 0 where
  pub done : AllDone (stages_before n) (results_of s)
  pub clean : s.error ≡ none
