-- ===== src/Tests/Designs.antt =====
-- A small contract and a project built from it.
use autonomy_engine.Base.{
  String, ◌≡◌, ◌↔◌, refl, Option, none, some, List, [], ◌∷◌, true, false, contains, or_default,
}
use autonomy_engine.Base.Dict.{Dict, lookup}
use autonomy_engine.World.{ok}
use autonomy_engine.Designs.Contract.{DesignContract, validate_contract}
use autonomy_engine.Designs.Stored.{to_dict, from_dict}
use autonomy_engine.Designs.Stored.Restored.{from_dict-to_dict}
use autonomy_engine.Designs.Valid.{IsValid}
use autonomy_engine.Designs.Checked.{validate_iff}
use autonomy_engine.Designs.Compliance.{
  AtPath, absent, text_file, Blueprint, ComplianceReport, check_contract_compliance, contains_any,
  all_planned, check_files, skip_texts, extra_file, missing_file,
}
use autonomy_engine.Designs.Compliant.{IsCompliant}
use autonomy_engine.Designs.Passed.{passed_iff}

abbrev unchanged : String → String
unchanged s = s

abbrev web_contract : DesignContract
web_contract = record {
  project_name = "shop";
  language = "python";
  components =
      record {
        name = "web";
        description = "";
        files = "app.py" ∷ [];
        imports_from = [];
        exports_types = "Cart" ∷ [];
        max_files = 10;
      }
      ∷ [];
  canonical_types =
      record {
        name = "Cart";
        kind = "dataclass";
        fields = ("items", "list") ∷ [];
        file_path = "app.py";
      }
      ∷ [];
  tech_decisions = [];
  entry_point = "app.py";
  total_file_budget = 80;
}

validate_iff_example :
    (validate_contract unchanged web_contract ≡ []) ↔ IsValid unchanged web_contract
validate_iff_example = validate_iff unchanged web_contract

abbrev web_blueprint : List String → Blueprint
web_blueprint fs = record {
  components = some (record { name = "web"; files = some fs; max_files = none } ∷ []);
  canonical_types =
      some (
        record { name = some "Cart"; file_path = some "app.py"; fields = some ("items" ∷ []) }
        ∷ []);
  total_file_budget = some 3;
}

abbrev built : Dict String
built = ("app.py", "class Cart: items") ∷ ("notes.txt", "") ∷ (".env.example", "") ∷ []

abbrev found_text : Option String → AtPath
found_text none = absent
found_text (some text) = text_file text

abbrev read_built : String → AtPath
read_built path = found_text (lookup path built)

abbrev good_report : ComplianceReport
good_report = record {
  passed = true;
  issues = extra_file "notes.txt" ∷ [];
  files_expected = 1;
  files_found = 1;
  files_missing = 0;
  files_extra = 1;
}

good_run :
    check_contract_compliance unchanged read_built (some (web_blueprint ("app.py" ∷ []))) built
    ≡ ok good_report
unfolding check_contract_compliance check_files lookup
good_run = refl

passed_iff_example :
    (good_report.passed ≡ true)
    ↔ IsCompliant unchanged read_built (web_blueprint ("app.py" ∷ [])) built
passed_iff_example =
    passed_iff unchanged read_built (web_blueprint ("app.py" ∷ [])) built good_report good_run

abbrev env_report : ComplianceReport
env_report = record {
  passed = false;
  issues = missing_file "web" ".env.example" ∷ extra_file "notes.txt" ∷ [];
  files_expected = 2;
  files_found = 1;
  files_missing = 1;
  files_extra = 1;
}

abbrev env_files : List String
env_files = "app.py" ∷ ".env.example" ∷ []

env_run :
    check_contract_compliance unchanged read_built (some (web_blueprint env_files)) built
    ≡ ok env_report
unfolding check_contract_compliance check_files lookup
env_run = refl

env_planned :
    contains ".env.example" (all_planned (or_default [] (web_blueprint env_files).components))
    ≡ true
unfolding all_planned
env_planned = refl

env_skipped : contains_any ".env.example" skip_texts ≡ true
unfolding contains_any
env_skipped = refl

from_dict-to_dict_example : from_dict (to_dict web_contract) ≡ ok web_contract
from_dict-to_dict_example = from_dict-to_dict web_contract
