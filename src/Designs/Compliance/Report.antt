-- ===== src/Designs/Compliance/Report.antt =====
-- engine/contract_checker.py: the contract as its JSON says it, where keys may lack, and the report.
-- Messages are constructors.
use autonomy_engine.Base.{ℕ, String, Option, List, Bool}

pub record PlannedComponent : Type 0 where
  pub name : String
  pub files : Option (List String)
  pub max_files : Option ℕ

pub record PlannedType : Type 0 where
  pub name : Option String
  pub file_path : Option String
  -- the names of the fields
  pub fields : Option (List String)

pub record Blueprint : Type 0 where
  pub components : Option (List PlannedComponent)
  pub canonical_types : Option (List PlannedType)
  pub total_file_budget : Option ℕ

pub data Severity : Type 0 where
  error warning : Severity

pub data ComplianceIssue : Type 0 where
  contract_load : ComplianceIssue
  missing_file : String → String → ComplianceIssue
  extra_file : String → ComplianceIssue
  component_budget : String → ℕ → ℕ → ComplianceIssue
  total_budget : ℕ → ℕ → ComplianceIssue
  missing_type_file missing_type : String → String → ComplianceIssue
  type_mismatch : String → String → String → ComplianceIssue

abbrev pub severity : ComplianceIssue → Severity
severity (extra_file f) = warning
severity (type_mismatch f t p) = warning
severity _ = error

pub record ComplianceReport : Type 0 where
  pub passed : Bool
  pub issues : List ComplianceIssue
  pub files_expected : ℕ
  pub files_found : ℕ
  pub files_missing : ℕ
  pub files_extra : ℕ
