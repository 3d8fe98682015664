-- ===== src/Gates/Policies.antt =====
-- engine/decision_gates.py: the policy of a gate, from templates/DECISION_GATES.yml or by default.
use autonomy_engine.Base.{String, ◌<>◌, Option, none, some, ◌==◌, if◌then◌else◌, or_default}
use autonomy_engine.Base.Dict.{lookup}
use autonomy_engine.World.Json.{Json, null, str, obj, Fields, get_field}
use autonomy_engine.World.{Platform, Exec, gets, ◌>>=◌}
use autonomy_engine.Context.{get_templates_dir}

pub data Policy : Type 0 where
  pause auto skip : Policy

-- `default_option` and `description` are what the file has there.
pub record GatePolicy : Type 0 where
  pub stage : String
  pub policy : Policy
  pub default_option : Json
  pub description : Json

-- _VALID_POLICIES
unfoldable pub parse_policy : String → Option Policy
parse_policy s =
    if s == "pause"
    then some pause
    else if s == "auto"
    then some auto
    else if s == "skip"
    then some skip
    else none

-- _DEFAULT_POLICIES.get(stage, "skip")
unfoldable pub default_policy : String → Policy
default_policy stage =
    if stage == "design" then pause else if stage == "verify" then pause else skip

unfoldable pub default_gate : String → GatePolicy
unfolding default_policy
default_gate stage = record {
  stage = stage;
  policy = default_policy stage;
  default_option = null;
  description = str "";
}

-- `GatePolicy(…)` raises ValueError on any other policy, and TypeError on one that is no text.
policy_value : Policy → Option Json → Option Policy
unfolding parse_policy
policy_value d none = some d
policy_value d (some (str s)) = parse_policy s
policy_value d (some v) = none

with_policy : String → Fields → Option Policy → GatePolicy
unfolding default_gate get_field
with_policy stage entry none = default_gate stage
with_policy stage entry (some p) = record {
  stage = stage;
  policy = p;
  default_option = or_default null (get_field "default_option" entry);
  description = or_default (str "") (get_field "description" entry);
}

of_entry : String → Option Json → GatePolicy
unfolding default_gate default_policy with_policy policy_value get_field
of_entry stage none = default_gate stage
of_entry stage (some (obj entry)) =
    with_policy stage entry (policy_value (default_policy stage) (get_field "policy" entry))
of_entry stage (some v) = default_gate stage

of_gates : String → Option Json → GatePolicy
unfolding default_gate of_entry get_field
of_gates stage none = default_gate stage
of_gates stage (some (obj gates)) = of_entry stage (get_field stage gates)
of_gates stage (some v) = default_gate stage

-- what the parsed file says; any failure on the way means the default
unfoldable pub of_document : String → Option Json → GatePolicy
unfolding default_gate of_gates get_field
of_document stage none = default_gate stage
of_document stage (some (obj doc)) = of_gates stage (get_field "gates" doc)
of_document stage (some v) = default_gate stage

module _ (P : Platform) where
  of_text : String → Option String → GatePolicy
  unfolding of_document default_gate
  of_text stage none = default_gate stage
  of_text stage (some text) = of_document stage (P.safe_load text)

  unfoldable pub get_gate_policy : String → Exec GatePolicy
  unfolding of_text get_templates_dir lookup
  get_gate_policy stage = do
    dir ← get_templates_dir P
    gets (λ w. of_text stage (lookup (dir <> "/DECISION_GATES.yml") w.files))
