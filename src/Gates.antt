-- ===== src/Gates.antt =====
-- engine/decision_gates.py: decision records and gate policies.
pub mod Policies
pub mod Saved
pub mod Loaded
use Prim.Native.Char.{Char, code}
use autonomy_engine.Base.{
  ℕ, zero, suc, String, ◌<>◌, Option, none, some, List, [], ◌∷◌, Bool, true, false, ◌==◌, eqb,
  truthy, contains, or_default, if◌then◌else◌,
}
use autonomy_engine.Base.Dict.{Dict, lookup, insert, has_key}
use autonomy_engine.World.Json.{Json, bool, str, is_truthy}
use autonomy_engine.World.{
  Platform, World, index_error, decision_required, GateRequest, DecisionRecord, value_error,
  file_not_found, failure, Result, ok, raise, Exec, pure, throw, gets, lift, modify, tick, ◌>>=◌,
  ◌>>◌,
}
use Policies.{GatePolicy, Policy, pause, auto, skip, get_gate_policy}
use autonomy_engine.Context.{get_state_dir}
use autonomy_engine.Tracer.{TraceCall, simple_call, get_run_id, trace}

-- s.replace(" ", "_")
unfoldable pub replace_spaces : String → String
replace_spaces String.[] = String.[]
replace_spaces (String.◌∷◌ c s) =
    String.◌∷◌ (if eqb (code c) b' ' then underscore else c) (replace_spaces s)
  where
    underscore : Char
    underscore = "_"

-- s[:n]
unfoldable pub take_text : ℕ → String → String
take_text zero s = String.[]
take_text (suc n) String.[] = String.[]
take_text (suc n) (String.◌∷◌ c s) = String.◌∷◌ c (take_text n s)

-- os.environ.get(name), where an empty text is as good as none
set_variable : String → World → Option String
unfolding lookup
set_variable name w = elim (lookup name w.env) [
  | none ↦ none
  | some v ↦ if truthy v then some v else none
]

first_set : Option String → Option String → Option String
first_set none b = b
first_set (some a) b = some a

user_name : World → Option String
unfolding set_variable first_set
user_name w =
    first_set (set_variable "USER" w)
      (first_set (set_variable "LOGNAME" w) (set_variable "USERNAME" w))

human : Option String → String
human none = "human"
human (some user) = "human:" <> user

actor_of : Option String → World → String
unfolding user_name human
actor_of (some ae) w = ae
actor_of none w = human (user_name w)

-- `_resolve_actor` of engine/decision_gates.py, and with `none` that of graph/nodes.py
unfoldable pub resolve_actor : Option String → World → String
unfolding actor_of
resolve_actor (some actor) w = actor
resolve_actor none w = actor_of (set_variable "AE_ACTOR" w) w

-- The arguments of `save_decision`.
pub record Choice : Type 0 where
  pub gate : String
  pub stage : String
  pub allowed_options : List String
  pub selected : String
  pub actor : Option String
  pub rationale : String

unfoldable pub record_of : Choice → String → String → String → DecisionRecord
record_of c rid actor timestamp = record {
  run_id = rid;
  gate = c.gate;
  stage = c.stage;
  allowed_options = c.allowed_options;
  selected = c.selected;
  actor = actor;
  timestamp = timestamp;
  rationale = c.rationale;
}

module _ (P : Platform) where
  unfoldable pub gate_slug : String → String
  unfolding replace_spaces take_text
  gate_slug gate = take_text 60 (replace_spaces (P.lower gate))

  -- the path of a decision record below the state directory
  unfoldable pub decision_rel : String → String → String
  unfolding gate_slug
  decision_rel rid gate = "runs/" <> rid <> "/decisions/" <> gate_slug gate <> ".json"

  unfoldable pub decision_path : String → Exec String
  unfolding decision_rel get_state_dir get_run_id
  decision_path gate = do
    state ← get_state_dir P
    rid ← get_run_id
    pure (state <> "/" <> decision_rel rid gate)

  unfoldable pub write_decision : String → DecisionRecord → World → World
  unfolding insert
  write_decision path r w = record w {
    decisions = insert path r w.decisions;
    files = insert path (P.dump_decision r) w.files;
  }

  unfoldable pub decision_call : Choice → String → String → TraceCall
  decision_call c actor rel = record (simple_call "decision" [] (rel ∷ [])) {
    extra =
        ("gate", str c.gate)
        ∷ ("stage", str c.stage)
        ∷ ("selected", str c.selected)
        ∷ ("actor", str actor)
        ∷ ("has_rationale", bool (truthy c.rationale))
        ∷ [];
  }

  save_valid : Choice → Exec (Unit {0})
  unfolding decision_path write_decision decision_call record_of resolve_actor get_run_id tick
  save_valid c = do
    actor ← gets (resolve_actor c.actor)
    rid ← get_run_id
    n ← tick
    path ← decision_path c.gate
    modify (write_decision path (record_of c rid actor (P.timestamp n)))
    trace P (decision_call c actor (decision_rel rid c.gate))

  unfoldable pub save_decision : Choice → Exec (Unit {0})
  unfolding save_valid
  save_decision c =
      if contains c.selected c.allowed_options
      then save_valid c
      else throw (failure value_error "Invalid choice")

  unfoldable pub decision_exists : String → Exec Bool
  unfolding decision_path has_key
  decision_exists gate = do path ← decision_path gate; gets (λ w. has_key path w.decisions)

  found_record : Option DecisionRecord → Result DecisionRecord
  found_record none = raise (failure file_not_found "No decision record")
  found_record (some r) = ok r

  unfoldable pub load_decision : String → Exec DecisionRecord
  unfolding decision_path lookup found_record
  load_decision gate = do
    path ← decision_path gate
    found ← gets (λ w. lookup path w.decisions)
    lift (found_record found)

-- options[0]
unfoldable pub first_option : List String → Result String
first_option [] = raise (failure index_error "list index out of range")
first_option (o ∷ os) = ok o

-- `policy.default_option or exc.options[0]`. A default that is no text is not among the options,
-- and `save_decision` refuses it.
unfoldable pub auto_option : Json → List String → Result String
unfolding first_option is_truthy
auto_option (str s) options = if truthy s then ok s else first_option options
auto_option v options =
    if is_truthy v then raise (failure value_error "Invalid choice") else first_option options

-- handle_gate: the task, then the policy if it raised `DecisionRequired`
module _ (P : Platform) (task : Exec (Unit {0})) (stage : String)
    (on_pause : GateRequest → Exec (Unit {0})) where
  auto_decide : GateRequest → Json → Exec (Unit {0})
  unfolding auto_option save_decision
  auto_decide req default_option = do
    selected ← lift (auto_option default_option req.options)
    save_decision P (record {
      gate = req.gate;
      stage = req.stage;
      allowed_options = req.options;
      selected = selected;
      actor = some "auto-policy";
      rationale = "";
    })

  by_policy : GateRequest → Policy → Json → Exec (Unit {0})
  unfolding auto_decide
  by_policy req skip default_option = pure tt
  by_policy req auto default_option = do auto_decide req default_option; task
  by_policy req pause default_option = do on_pause req; task

  gate_outcome : Result (Unit {0}) → Exec (Unit {0})
  unfolding by_policy get_gate_policy
  gate_outcome (ok done) = pure tt
  gate_outcome (raise (decision_required req)) = do
    policy ← get_gate_policy P stage
    by_policy req policy.policy policy.default_option
  gate_outcome (raise e) = throw e

  unfoldable pub handle_gate : Exec (Unit {0})
  unfolding gate_outcome
  handle_gate w = gate_outcome (task w).0 (task w).1
