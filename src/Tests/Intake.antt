-- ===== src/Tests/Intake.antt =====
-- A small specification, its validation and its documents.
use autonomy_engine.Base.{ℕ, zero, suc, ◌≡◌, refl, String, none, some, List, [], ◌∷◌}
use autonomy_engine.World.{ok}
use autonomy_engine.Pipeline.Nodes.{required_inputs, missing_inputs}
use autonomy_engine.Stages.Components.{join}
use autonomy_engine.Intake.{
  Domain, software, infra, ProjectSpec, spec_errors, security_errors, description_short,
  no_criteria, security_missing, numbered, render_acceptance, render_all,
}
use autonomy_engine.Intake.Complete.{missing_inputs-render_all}
use autonomy_engine.Tests.Samples.{sample, empty_world}

abbrev spec_of : Domain → String → List String → ProjectSpec
spec_of domain description criteria = record {
  project = record { name = "demo"; description = description; domain = domain };
  requirements = record { functional = "lists files" ∷ []; non_functional = [] };
  constraints = record { tech_stack = "python" ∷ []; performance = none; security = some "" };
  non_goals = [];
  acceptance_criteria = criteria;
  outputs = record { expected_artifacts = "app.py" ∷ [] };
}

valid : spec_errors (spec_of software "ten letters" ("it runs" ∷ [])) ≡ []
unfolding spec_errors security_errors
valid = refl

-- the validator of the model does not run where a field is wrong
two_errors : spec_errors (spec_of infra "too short" []) ≡ description_short ∷ no_criteria ∷ []
unfolding spec_errors security_errors
two_errors = refl

insecure : spec_errors (spec_of infra "ten letters" ("it runs" ∷ [])) ≡ security_missing ∷ []
unfolding spec_errors security_errors
insecure = refl

abbrev digit : ℕ → String
digit zero = "0"
digit (suc zero) = "1"
digit n = "2"

two_criteria :
    render_acceptance digit (λ v. "") (spec_of software "ten letters" ("it runs" ∷ "it stops" ∷ []))
    ≡ "# Acceptance Criteria\n\n1. it runs\n2. it stops\n"
unfolding render_acceptance join numbered
two_criteria = refl

missing_inputs-render_all_example :
    let r =
      render_all digit
        (λ v. "")
        sample
        (spec_of software "ten letters" ("it runs" ∷ []))
        empty_world in
    (names : List String) × (r.0 ≡ ok names)
    × (missing_inputs "/p/state" names r.1 ≡ [])
    × (missing_inputs "/p/state" required_inputs r.1 ≡ [])
missing_inputs-render_all_example =
    missing_inputs-render_all digit (λ v. "") sample "/p"
      (spec_of software "ten letters" ("it runs" ∷ [])) empty_world refl
