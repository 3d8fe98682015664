-- ===== src/Designs/Passed.antt =====
-- engine/contract_checker.py: `check_contract_compliance` against what a project owes to its contract.
use autonomy_engine.Base.{
  ◌≤◌, String, ◌≡◌, ◌↔◌, refl, subst, ◌∙◌, sym, some, List, [], ◌++◌, true, false, contains,
  or_default, length, All, arith, Bool-cases, inl, inr,
}
use autonomy_engine.Base.Dict.{Dict}
use autonomy_engine.Base.Counts.{
  distinct, difference, sorted, difference-nil, contains-distinct, sorted-nil,
}
use autonomy_engine.World.{Result, ok, raise}
use autonomy_engine.Designs.Seen.{contains-actual, visible_iff, difference-unusual}
use autonomy_engine.Designs.Compliance.{
  AtPath, Blueprint, ComplianceIssue, ComplianceReport, contains_any, skip_texts, actual_files,
  all_planned, expected_extras, missing_issues, extra_issues, components_issues, budget_issues,
  append_issues, types_issues, has_error, file_issues, report_of, check_files,
  check_contract_compliance,
}
use autonomy_engine.Designs.Compliant.{
  IsWithin, IsSeen, unusual, IsCompliant, has_error-append, append-ok, missing-clear, extra-clear,
  components-clear, budget-clear, types-clear,
}

module _ (name : String → String) (read : String → AtPath) (b : Blueprint)
    (project : Dict String) where
  abbrev FilesComply : Type 0
  FilesComply =
      ((f : String)
        → contains f (all_planned (or_default [] b.components)) ≡ true
        → IsSeen project f)
      × All (IsWithin (actual_files project)) (or_default [] b.components)
      × (length (unusual name (actual_files project)) ≤ or_default 999 b.total_file_budget)

  produced_iff :
      (expected actual : List String)
      → (sorted (difference (distinct expected) actual) ≡ [])
        ↔ ((f : String) → contains f expected ≡ true → contains f actual ≡ true)
  produced_iff expected actual =
      let nil = difference-nil (distinct expected) actual in
      let order = sorted-nil (difference (distinct expected) actual) in
      (
        λ h f m. nil.0 (order.0 h) f (contains-distinct f expected ∙ m),
        λ h. order.1 (nil.1 (λ f m. h f (sym (contains-distinct f expected) ∙ m))),
      )

  files-clear : (has_error (file_issues name b (actual_files project)) ≡ false) ↔ FilesComply
  unfolding file_issues
  files-clear =
      let cs = or_default [] b.components in
      let actual = actual_files project in
      let extras = expected_extras name actual in
      let lost = sorted (difference (distinct (all_planned cs)) actual) in
      let more = sorted (difference (difference actual (distinct (all_planned cs))) extras) in
      let sizes = budget_issues actual extras (or_default 999 b.total_file_budget) in
      let counts = components_issues actual cs ++ sizes in
      let h1 = has_error-append (missing_issues cs lost) (extra_issues more ++ counts) in
      let h2 = has_error-append (extra_issues more) counts in
      let h3 = has_error-append (components_issues actual cs) sizes in
      let produced = produced_iff (all_planned cs) actual in
      let within = components-clear actual cs in
      let counted = difference-unusual name actual actual (λ f m. m) in
      let limit = or_default 999 b.total_file_budget in
      let budget : (has_error sizes ≡ false) ↔ (length (unusual name actual) ≤ limit) =
        subst (λ fs. (has_error sizes ≡ false) ↔ (length fs ≤ limit)) counted
          (budget-clear actual extras limit) in
      (
        λ h.
            let (x, h') = h1.0 h in
            let (y, z) = h3.0 (h2.0 h').1 in
            (
              λ f m. (visible_iff f project).0 (produced.0 ((missing-clear cs lost).0 x) f m),
              within.0 y,
              budget.0 z,
            ),
        λ (x, y, z). h1.1 (
          (missing-clear cs lost).1 (produced.1 (λ f m. (visible_iff f project).1 (x f m))),
          h2.1 (extra-clear more, h3.1 (within.1 y, budget.1 z)),
        ),
      )

  passes :
      (is' : List ComplianceIssue)
      → ((report_of name b (actual_files project) is').passed ≡ true) ↔ (has_error is' ≡ false)
  unfolding report_of
  passes is' = ground arith

  -- When `check_contract_compliance` returns a report for a contract that can be read, the
  -- report says passed exactly if every planned file is in the project and has none of the
  -- texts that are skipped in its path, every component has no more of its files among those
  -- looked at than its limit, those that are no usual file of configuration, of a package or
  -- entry point are within the budget, and what is at the path of every canonical type is a
  -- file that contains its name; for any function for the name of a path, and for what is at
  -- a path.
  pub passed_iff :
      (r : ComplianceReport)
      → check_contract_compliance name read (some b) project ≡ ok r
      → (r.passed ≡ true) ↔ IsCompliant name read b project
  unfolding check_contract_compliance check_files
  passed_iff r h = go (append_issues (ok (file_issues name b (actual_files project))) types) refl
    where
      types : Result (List ComplianceIssue)
      types = types_issues read (or_default [] b.canonical_types)

      go :
          (o : Result (List ComplianceIssue))
          → append_issues (ok (file_issues name b (actual_files project))) types ≡ o
          → (r.passed ≡ true) ↔ IsCompliant name read b project
      go (raise e) o = let h' = rw (o, check_contract_compliance, check_files) at h in cc h'
      go (ok is') o =
          let h' = rw (o, check_contract_compliance, check_files) at h in
          let same : report_of name b (actual_files project) is' ≡ r = cc h' in
          let (x, y, ex, ey, split) =
            append-ok (ok (file_issues name b (actual_files project))) types is' o in
          let files : file_issues name b (actual_files project) ≡ x = cc ex in
          let both = has_error-append x y in
          let typed = types-clear read (or_default [] b.canonical_types) y ey in
          let pass = passes is' in
          rw (← same) (
            λ p.
                let (q, t) = both.0 (subst (λ l. has_error l ≡ false) split (pass.0 p)) in
                let (made, within, budget) =
                  files-clear.0 (subst (λ l. has_error l ≡ false) (sym files) q) in
                record { produced = made; within = within; in_budget = budget; typed = typed.0 t },
            λ c. pass.1 (
                subst (λ l. has_error l ≡ false) (sym split)
                  (both.1 (
                    subst (λ l. has_error l ≡ false) files
                        (files-clear.1 (c.produced, c.within, c.in_budget)),
                    typed.1 c.typed,
                  ))),
          )

  -- A contract that plans a file whose path contains one of the texts that are skipped, such
  -- as ".env", is never reported as passed, whatever files the project has.
  skipped-fails :
      (r : ComplianceReport) (f : String)
      → check_contract_compliance name read (some b) project ≡ ok r
      → contains f (all_planned (or_default [] b.components)) ≡ true
      → contains_any f skip_texts ≡ true
      → r.passed ≡ false
  skipped-fails r f h in_plan skip = elim (Bool-cases r.passed) [
    | inr failed ↦ failed
    | inl passed ↦
        let seen = (visible_iff f project).1 (((passed_iff r h).0 passed).produced f in_plan) in
        absurd (ground (arith, contains-actual f project, seen, skip))
  ]
