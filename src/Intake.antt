-- ===== src/Intake.antt =====
-- intake/schema.py, intake/renderer.py: the specification of a project, its validation, and the
-- documents that are written from it below inputs/ of the state directory.
pub mod Complete
use Prim.Native.String.{count}
use autonomy_engine.Base.{
  ℕ, ◌+◌, String, ◌<>◌, Option, none, some, List, [], ◌∷◌, ◌++◌, map, Bool, true, false, ltb,
  truthy, if◌then◌else◌,
}
use autonomy_engine.World.Json.{Json, str, arr, obj, end, field, of_texts, of_option}
use autonomy_engine.World.{Platform, Exec, pure, ◌>>=◌, ◌>>◌}
use autonomy_engine.Designs.Contract.{is_empty}
use autonomy_engine.Stages.Components.{join}
use autonomy_engine.StateFiles.{save_state_file}

pub data Domain : Type 0 where
  software data_domain ml infra : Domain

pub record ProjectInfo : Type 0 where
  pub name : String
  pub description : String
  pub domain : Domain

pub record Requirements : Type 0 where
  pub functional : List String
  pub non_functional : List String

pub record Constraints : Type 0 where
  pub tech_stack : List String
  pub performance : Option String
  pub security : Option String

pub record Outputs : Type 0 where
  pub expected_artifacts : List String

pub record ProjectSpec : Type 0 where
  pub project : ProjectInfo
  pub requirements : Requirements
  pub constraints : Constraints
  pub non_goals : List String
  pub acceptance_criteria : List String
  pub outputs : Outputs

-- the value of the enumeration
abbrev pub domain_value : Domain → String
domain_value software = "software"
domain_value data_domain = "data"
domain_value ml = "ml"
domain_value infra = "infra"

-- the fields with a `min_length`, and the validator of the model
pub data SpecError : Type 0 where
  name_short description_short no_functional no_criteria no_artifacts security_missing : SpecError

abbrev pub violated : Bool → SpecError → List SpecError
violated true v = v ∷ []
violated false v = []

abbrev pub given : Option String → Bool
given none = false
given (some s) = truthy s

abbrev pub field_errors : ProjectSpec → List SpecError
field_errors s =
    violated (ltb (count s.project.name) 1) name_short
    ++ violated (ltb (count s.project.description) 10) description_short
    ++ violated (is_empty s.requirements.functional) no_functional
    ++ violated (is_empty s.acceptance_criteria) no_criteria
    ++ violated (is_empty s.outputs.expected_artifacts) no_artifacts

-- `security_constraints_required_if_security_domain`
unfoldable pub security_errors : Domain → Option String → List SpecError
security_errors infra security = violated (if given security then false else true) security_missing
security_errors _ security = []

-- The validator of the model runs after the fields are accepted.
unfoldable pub spec_errors : ProjectSpec → List SpecError
unfolding security_errors
spec_errors s = elim (field_errors s) [
  | [] ↦ security_errors s.project.domain s.constraints.security
  | v ∷ vs ↦ v ∷ vs
]

-- `or "None specified."`, of a list of lines and of a text
abbrev pub lines_or_none : List String → List String
lines_or_none [] = "None specified." ∷ []
lines_or_none (l ∷ ls) = l ∷ ls

abbrev pub text_or_none : Option String → String
text_or_none none = "None specified."
text_or_none (some s) = if truthy s then s else "None specified."

abbrev pub bullets : List String → List String
bullets items = map (λ item. "- " <> item) items

unfoldable pub render_constraints : ProjectSpec → String
unfolding join
render_constraints s = join "\n" (
    ("# Constraints"
      ∷ ""
      ∷ "## Technical Constraints"
      ∷ lines_or_none (bullets s.constraints.tech_stack))
    ++ ""
      ∷ "## Performance Constraints"
      ∷ text_or_none s.constraints.performance
      ∷ ""
      ∷ "## Security Constraints"
      ∷ text_or_none s.constraints.security
      ∷ ""
      ∷ [])

unfoldable pub render_non_goals : ProjectSpec → String
unfolding join
render_non_goals s = join "\n" (
    ("# Non-Goals" ∷ "" ∷ "## Explicitly Out of Scope" ∷ lines_or_none (bullets s.non_goals))
    ++ ""
      ∷ "## Scope Boundary: Human Judgment"
      ∷ "This engine automates structured build workflows. It does **not** replace human judgment for:"
      ∷ "- Ethical decisions about what should be built"
      ∷ "- Final sign-off on production deployments"
      ∷ "- Security review of generated code"
      ∷ "- Architectural decisions with long-term organizational impact"
      ∷ ""
      ∷ ("The decision gate system exists precisely to enforce these boundaries. "
          <> "Any task that requires subjective judgment must route through a decision gate, "
          <> "not bypass it.")
      ∷ ""
      ∷ [])

-- `spec.model_dump(mode="json")`
unfoldable pub spec_to_json : ProjectSpec → Json
unfolding of_texts of_option
spec_to_json s = obj (
    field "project"
      (obj (
        field "name" (str s.project.name) (
          field "description" (str s.project.description)
            (field "domain" (str (domain_value s.project.domain)) end))))
      (field "requirements"
        (obj (
          field "functional" (arr (of_texts s.requirements.functional))
            (field "non_functional" (arr (of_texts s.requirements.non_functional)) end)))
        (field "constraints"
          (obj (
            field "tech_stack" (arr (of_texts s.constraints.tech_stack)) (
              field "performance" (of_option s.constraints.performance)
                (field "security" (of_option s.constraints.security) end))))
          (field "non_goals" (arr (of_texts s.non_goals)) (
            field "acceptance_criteria" (arr (of_texts s.acceptance_criteria)) (
              field "outputs"
                (obj (field "expected_artifacts" (arr (of_texts s.outputs.expected_artifacts)) end))
                end))))))

-- `text_of_number` is `str` of a number, and `yaml_dump` is `yaml.dump` in block style, with the
-- keys in their order.
module _ (text_of_number : ℕ → String) (yaml_dump : Json → String) where
  -- f"{i}. {item}", for i from a number on
  unfoldable pub numbered : ℕ → List String → List String
  numbered i [] = []
  numbered i (item ∷ items) = (text_of_number i <> ". " <> item) ∷ numbered (i + 1) items

  unfoldable pub render_requirements : ProjectSpec → String
  unfolding join numbered
  render_requirements s = join "\n" (
      ("# Requirements"
        ∷ ""
        ∷ "## Overview"
        ∷ s.project.description
        ∷ ""
        ∷ "## Functional Requirements"
        ∷ numbered 1 s.requirements.functional)
      ++ (""
          ∷ "## Non-Functional Requirements"
          ∷ lines_or_none (numbered 1 s.requirements.non_functional))
      ++ ("" ∷ "## Dependencies" ∷ lines_or_none (bullets s.constraints.tech_stack))
      ++ "" ∷ [])

  unfoldable pub render_acceptance : ProjectSpec → String
  unfolding join numbered
  render_acceptance s =
      join "\n" (("# Acceptance Criteria" ∷ "" ∷ numbered 1 s.acceptance_criteria) ++ "" ∷ [])

  module _ (P : Platform) where
    -- `_write` of a file below inputs/; the path relative to the state directory
    unfoldable pub write_input : String → String → Exec String
    unfolding save_state_file
    write_input name content = do
      save_state_file P ("inputs/" <> name) content
      pure ("inputs/" <> name)

    unfoldable pub render_all : ProjectSpec → Exec (List String)
    unfolding write_input render_constraints render_non_goals render_requirements render_acceptance
    render_all s = do
      requirements ← write_input "REQUIREMENTS.md" (render_requirements s)
      constraints ← write_input "CONSTRAINTS.md" (render_constraints s)
      non_goals ← write_input "NON_GOALS.md" (render_non_goals s)
      acceptance ← write_input "ACCEPTANCE_CRITERIA.md" (render_acceptance s)
      spec ← write_input "project_spec.yml" (yaml_dump (spec_to_json s))
      pure (requirements ∷ constraints ∷ non_goals ∷ acceptance ∷ spec ∷ [])
