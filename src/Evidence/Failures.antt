-- ===== src/Evidence/Failures.antt =====
-- tasks/test.py and tasks/verify.py: which failures the stages see in the evidence of a run.
use autonomy_engine.Base.{
  String, ◌<>◌, ◌≡◌, ◌↔◌, refl, sym, ap, subst, ◌∙◌, none, some, List, [], ◌∷◌, Bool, true, false,
  ◌==◌, eq_iff, eq_refl, or_default, if◌then◌else◌, arith, Bool-cases, inl, inr,
}
use autonomy_engine.Base.Dict.{Dict, lookup, has_key, NodupKeys, lookup-AllEntries}
use autonomy_engine.World.{Platform, World, EvidenceRecord, ok}
use autonomy_engine.Evidence.{
  Check, Shell, is_zero, insert_file, sort_files, records_of, has_failures, all_checks_passed,
  load_all_evidence, run_checks_direct,
}
use autonomy_engine.Evidence.Latest.{
  latest, Ran, IsDirectory, IsIn, files_in, evidence_dir_eq, checks-IsRun,
}

-- a record that counts as a failure
abbrev pub is_failure : EvidenceRecord → Bool
is_failure r =
    if r.name == "no_checks_configured" then false else if is_zero r.exit_code then false else true

-- Some file of the directory is a failure.
abbrev FailsIn : Dict EvidenceRecord → Type 0
FailsIn d = (k : String) × (r : EvidenceRecord) × (lookup k d ≡ some r) × (is_failure r ≡ true)

pub passed-opposite :
    (es : List EvidenceRecord) → all_checks_passed es ≡ (if has_failures es then false else true)
unfolding all_checks_passed has_failures
passed-opposite [] = refl
passed-opposite (r ∷ rs) = ground (arith, passed-opposite rs)

failures-insert :
    (k : String) (r : EvidenceRecord) (d : Dict EvidenceRecord)
    → has_failures (records_of (insert_file k r d))
      ≡ (if is_failure r then true else has_failures (records_of d))
unfolding insert_file records_of has_failures
failures-insert k r [] = ground arith
failures-insert k r ((j, s) ∷ d) = ground (arith, failures-insert k r d)

failures-sort :
    (d : Dict EvidenceRecord)
    → has_failures (records_of (sort_files d)) ≡ has_failures (records_of d)
unfolding sort_files records_of has_failures
failures-sort [] = refl
failures-sort ((k, r) ∷ d) = ground (arith, failures-insert k r (sort_files d), failures-sort d)

failures-cons :
    (k : String) (r : EvidenceRecord) (d : Dict EvidenceRecord)
    → has_failures (records_of ((k, r) ∷ d))
      ≡ (if is_failure r then true else has_failures (records_of d))
unfolding records_of has_failures
failures-cons k r d = ground arith

failures_iff :
    (d : Dict EvidenceRecord) → NodupKeys d → (has_failures (records_of d) ≡ true) ↔ FailsIn d
unfolding lookup has_key records_of has_failures
failures_iff [] once = (λ h. absurd (cc h), λ (k, r, h, f). absurd (cc h))
failures_iff ((k, r) ∷ d) (new, once) =
    let (forth, back) = failures_iff d once in
    let first = failures-cons k r d in
    (
      λ h. elim (Bool-cases (is_failure r)) [
        | inl bad ↦ (k, r, rw (eq_refl k) refl, bad)
        | inr fine ↦
            let first' = rw fine at first in
            let (j, s, there, bad) = forth (sym first' ∙ h) in (j, s, other j s there, bad)
      ],
      λ (j, s, there, bad). elim (Bool-cases (k == j)) [
        | inl same ↦
            let r_is_s : some r ≡ some s = rw same at there in
            first ∙ rw (subst (λ o. is_failure (or_default r o) ≡ true) (sym r_is_s) bad) refl
        | inr differ ↦
            let rest = back (j, s, rw differ at there, bad) in first ∙ rw rest (ground arith)
      ],
    )
  where
    other :
        (j : String) (s : EvidenceRecord)
        → lookup j d ≡ some s
        → (if k == j then some r else lookup j d) ≡ some s
    other j s there = elim (Bool-cases (k == j)) [
      | inl same ↦
          let new' = subst (λ q. has_key q d ≡ false) ((eq_iff k j).0 same) new in
          absurd (cc (rw (there, has_key) at new'))
      | inr differ ↦ rw differ there
    ]

module _ (P : Platform) (S : Shell) (dir rid project_dir : String) where
  -- The stages judge the run of `cs` by `es`, which has the last record `rs` of each name.
  pub record IsJudged (cs : List Check) (rs es : List EvidenceRecord) : Type 0 where
    pub ran : Ran S project_dir cs rs
    pub failing : (has_failures es ≡ true) ↔ (
        (name : String) × (r : EvidenceRecord) × (latest name rs none ≡ some r)
        × (is_failure r ≡ true))
    pub passing : all_checks_passed es ≡ (if has_failures es then false else true)

  -- If the run of the checks without a sandbox returns, in a run without evidence so far,
  -- then each check has run its command in order, and `load_all_evidence` gives records for
  -- which `_has_failures` holds exactly if the last record of some name, other than that of
  -- the sentinel, has an exit code that is not 0; `_all_checks_passed` says the opposite of
  -- it.
  pub run-IsJudged :
      (cs : List Check) (w w' : World)
      → IsIn P dir rid w
      → files_in P dir rid w ≡ []
      → run_checks_direct P S cs project_dir w ≡ (ok tt, w')
      → (rs : List EvidenceRecord) × (es : List EvidenceRecord) × (load_all_evidence P w'
          ≡ (ok es, w'))
        × IsJudged cs rs es
  unfolding load_all_evidence
  run-IsJudged cs w w' i empty h =
      let tidy = subst IsDirectory (sym empty) (record { once = tt; named = tt }) in
      let (rs, run) = checks-IsRun P S dir rid project_dir cs w w' i tidy h in
      let d = files_in P dir rid w' in
      let (forth, back) = failures_iff d run.tidy.once in
      let fresh : (name : String) → lookup (name <> ".json") (files_in P dir rid w) ≡ none =
        (λ name. ap (lookup (name <> ".json")) empty ∙ unfold lookup in refl) in
      let found : (name : String) → lookup (name <> ".json") d ≡ latest name rs none =
        (λ name. run.kept name ∙ ap (latest name rs) (fresh name)) in
      (
        rs,
        records_of (sort_files d),
        rw (evidence_dir_eq P dir rid w' run.still_in) refl,
        record {
          ran = run.ran;
          failing = (
            λ f.
                let (k, r, there, bad) = forth (sym (failures-sort d) ∙ f) in
                let at =
                  lookup-AllEntries (λ k r. k ≡ r.name <> ".json") k r d run.tidy.named there in
                (r.name, r, sym (found r.name) ∙ ap (λ q. lookup q d) (sym at) ∙ there, bad),
            λ (name, r, l, bad). failures-sort d ∙ back (name <> ".json", r, found name ∙ l, bad),
          );
          passing = passed-opposite (records_of (sort_files d));
        },
      )
