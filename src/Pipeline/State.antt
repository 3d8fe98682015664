-- ===== src/Pipeline/State.antt =====
-- graph/state.py: the state that flows through the graph, and the partial updates of the nodes.
use autonomy_engine.Base.{ℕ, String, Option, none, some, List, [], or_default}
use autonomy_engine.Base.Dict.{Dict, insert}
use autonomy_engine.World.Json.{Json}

pub data StageStatus : Type 0 where
  pending running passed failed skipped awaiting_decision : StageStatus

pub record StageResult : Type 0 where
  pub status : StageStatus
  pub artifacts : List String
  pub error : Option String
  pub metadata : Dict Json

pub record Decision : Type 0 where
  pub gate : String
  pub stage : String
  pub selected : String
  pub actor : String
  pub rationale : String

-- A key that is not in the TypedDict is `none`. For `project_dir` and `error` so is the value None,
-- which every reader takes for the same.
pub record PipelineState : Type 0 where
  pub project_dir : Option String
  pub run_id : Option String
  pub config : Option Json
  pub stage_results : Option (Dict StageResult)
  pub current_stage : Option String
  pub decisions : Option (Dict Decision)
  pub error : Option String
  pub retry_count : Option ℕ
  pub max_retries : Option Json

-- What a node returns: `none` for a key that it does not give.
pub record Update : Type 0 where
  pub run_id : Option String
  pub config : Option Json
  pub stage_results : Option (Dict StageResult)
  pub current_stage : Option String
  pub decisions : Option (Dict Decision)
  pub error : Option (Option String)
  pub retry_count : Option ℕ
  pub max_retries : Option Json

abbrev pub no_update : Update
no_update = record {
  run_id = none;
  config = none;
  stage_results = none;
  current_stage = none;
  decisions = none;
  error = none;
  retry_count = none;
  max_retries = none;
}

-- state.get("stage_results", {}) and state.get("decisions", {})
abbrev pub results_of : PipelineState → Dict StageResult
results_of s = or_default [] s.stage_results

abbrev pub decisions_of : PipelineState → Dict Decision
decisions_of s = or_default [] s.decisions

-- StageResult(status=…, artifacts=…, error=…, metadata=…)
abbrev pub passed_with : List String → Dict Json → StageResult
passed_with artifacts metadata = record {
  status = passed;
  artifacts = artifacts;
  error = none;
  metadata = metadata;
}

abbrev pub failed_with : String → Dict Json → StageResult
failed_with error metadata = record {
  status = failed;
  artifacts = [];
  error = some error;
  metadata = metadata;
}

-- {"current_stage": stage, "stage_results": {**state.get("stage_results", {}), stage: result}}
abbrev pub stage_update : PipelineState → String → StageResult → Update
stage_update s stage r = record no_update {
  current_stage = some stage;
  stage_results = some (insert stage r (results_of s));
}

-- "decisions": {**state.get("decisions", {}), gate: decision}
abbrev pub with_decision : PipelineState → String → Decision → Update → Update
with_decision s gate d u = record u { decisions = some (insert gate d (decisions_of s)) }

abbrev pub with_error : String → Update → Update
with_error e u = record u { error = some (some e) }
