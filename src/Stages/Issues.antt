-- ===== src/Stages/Issues.antt =====
-- tasks/verify.py, `_classify_issues`: the failures of the evidence by kind.
use autonomy_engine.Base.{
  ℕ, ◌-◌, String, ◌<>◌, ◌==◌, List, [], ◌∷◌, ◌++◌, Bool, true, false, ltb, length, take, drop, map,
  truthy, starts_with, contains, if◌then◌else◌,
}
use autonomy_engine.Base.Dict.{Dict}
use autonomy_engine.Base.Texts.{contains_text}
use autonomy_engine.World.{ℤ, EvidenceRecord}
use autonomy_engine.Evidence.{is_zero}
use autonomy_engine.Designs.Contract.{is_empty}

-- The categories, in the order of the dict.
pub record Issues : Type 0 where
  pub type_errors : List String
  pub import_errors : List String
  pub lint_errors : List String
  pub test_failures : List String
  pub contract_issues : List String
  pub build_errors : List String
  pub other_failures : List String

abbrev pub no_issues : Issues
no_issues = record {
  type_errors = [];
  import_errors = [];
  lint_errors = [];
  test_failures = [];
  contract_issues = [];
  build_errors = [];
  other_failures = [];
}

-- The methods of `str` that the function calls, and `str` of numbers.
pub record TextMethods : Type 0 where
  pub strip : String → String
  pub lower : String → String
  pub splitlines : String → List String
  pub text_of_number : ℕ → String
  pub text_of_code : ℤ → String

-- [line for line in lines if test(line)]
unfoldable pub filter_lines : (String → Bool) → List String → List String
filter_lines test [] = []
filter_lines test (line ∷ lines) =
    let rest = filter_lines test lines in if test line then line ∷ rest else rest

-- the first of the lines, if there is one
abbrev pub first_line : List String → List String
first_line [] = []
first_line (line ∷ lines) = line ∷ []

module _ (M : TextMethods) where
  -- ten lines at most, and how many more there are; where there is none, that it failed
  unfoldable pub capped_lines : String → String → List String → List String
  capped_lines more fallback [] = fallback ∷ []
  capped_lines more fallback (line ∷ lines) =
      let n = length (line ∷ lines) in
      take 10 (line ∷ lines)
      ++ (if ltb 10 n then ("... and " <> M.text_of_number (n - 10) <> more) ∷ [] else [])

  abbrev pub output_of : EvidenceRecord → String
  output_of r = r.stdout <> "\n" <> r.stderr

  abbrev pub failed_text : String → EvidenceRecord → String
  failed_text what r = what <> " (exit " <> M.text_of_code r.exit_code <> ")"

  abbrev pub is_type_error : String → Bool
  unfolding contains_text
  is_type_error line = if contains_text line "error TS" then true else contains_text line ": error:"

  abbrev pub is_import_error : String → Bool
  unfolding contains_text
  is_import_error line = contains_text (M.lower line) "cannot resolve"

  abbrev pub is_lint_error : String → Bool
  unfolding contains_text
  is_lint_error line =
      if contains_text line ": "
      then if contains_text line "E" then true else contains_text line "F"
      else false

  abbrev pub is_test_summary : String → Bool
  unfolding contains_text
  is_test_summary line =
      if contains_text (M.lower line) "failed"
      then if contains_text (M.lower line) "passed"
        then true
        else contains_text (M.lower line) "error"
      else false

  abbrev pub is_compliance_issue : String → Bool
  is_compliance_issue line = if starts_with line "[ERROR]" then true else starts_with line "[WARN]"

  -- the last five
  abbrev pub last_five : List String → List String
  last_five lines = drop (length lines - 5) lines

  -- the issues of a compliance record, after those of the records before it
  unfoldable pub compliance_issues : List String → EvidenceRecord → List String
  unfolding filter_lines
  compliance_issues before r =
      let found =
        before ++ filter_lines is_compliance_issue (map M.strip (M.splitlines (output_of r))) in
      if is_empty found then failed_text "Contract compliance check failed" r ∷ [] else found

  -- what a failed record adds
  unfoldable pub classify_failure : EvidenceRecord → Issues → Issues
  unfolding compliance_issues capped_lines filter_lines
  classify_failure r i =
      let lines = M.splitlines (output_of r) in
      if r.name == "contract-compliance"
      then record i { contract_issues = compliance_issues i.contract_issues r }
      else if contains r.name ("typecheck" ∷ "type-check" ∷ [])
      then record i {
        type_errors =
            i.type_errors
            ++ capped_lines " more type errors" (failed_text "Type check failed" r)
                (filter_lines is_type_error lines);
      }
      else if contains r.name ("import-check" ∷ "import_check" ∷ [])
      then record i {
        import_errors =
            i.import_errors
            ++ capped_lines " more import errors" (failed_text "Import check failed" r)
                (filter_lines is_import_error lines);
      }
      else if r.name == "lint"
      then record i {
        lint_errors =
            i.lint_errors
            ++ capped_lines " more lint errors" (failed_text "Lint check failed" r)
                (filter_lines is_lint_error lines);
      }
      else if r.name == "test"
      then record i {
        test_failures =
            i.test_failures
            ++ failed_text "Tests failed" r
              ∷ map M.strip (first_line (filter_lines is_test_summary lines));
      }
      else if r.name == "build"
      then record i {
        build_errors =
            i.build_errors
            ++ failed_text "Build failed" r
              ∷ filter_lines truthy
                  (map M.strip (last_five (M.splitlines (M.strip (output_of r)))));
      }
      else record i {
        other_failures = i.other_failures ++ failed_text (r.name <> ": failed") r ∷ [];
      }

  unfoldable pub classify_from : List EvidenceRecord → Issues → Issues
  unfolding classify_failure
  classify_from [] i = i
  classify_from (r ∷ rs) i =
      if is_zero r.exit_code
      then classify_from rs i
      else if r.name == "no_checks_configured"
      then classify_from rs i
      else classify_from rs (classify_failure r i)

  abbrev pub category : String → List String → Dict (List String)
  category key [] = []
  category key (issue ∷ issues) = (key, issue ∷ issues) ∷ []

  -- `_classify_issues`: the categories that are not empty
  unfoldable pub classify_issues : List EvidenceRecord → Dict (List String)
  unfolding classify_from
  classify_issues evidence =
      let i = classify_from evidence no_issues in
      category "type_errors" i.type_errors
      ++ (category "import_errors" i.import_errors
          ++ (category "lint_errors" i.lint_errors
              ++ (category "test_failures" i.test_failures
                  ++ (category "contract_issues" i.contract_issues
                      ++ (category "build_errors" i.build_errors
                          ++ category "other_failures" i.other_failures)))))
