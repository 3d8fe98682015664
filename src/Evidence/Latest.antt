-- ===== src/Evidence/Latest.antt =====
-- engine/evidence.py and tasks/test.py: which record of a check is kept.
use text.Mathlib.TextLemmas.{append_cancel_right}
use autonomy_engine.Base.{
  ℕ, ◌+◌, String, ◌<>◌, ◌≡◌, refl, sym, ap, subst, ◌∙◌, Option, some, List, [], ◌∷◌, ◌==◌, eq_iff,
  eq_refl, or_default, if◌then◌else◌, Bool-cases, inl, inr,
}
use autonomy_engine.Base.Dict.{
  Dict, lookup, insert, NodupKeys, lookup-insert, lookup-insert_self, insert-NodupKeys, AllEntries,
  insert-AllEntries,
}
use autonomy_engine.World.{Platform, World, EvidenceRecord, Result, ok, raise, ◌>>◌}
use autonomy_engine.Evidence.{
  Check, Shell, exit_code_of, evidence_dir, directory, write_record, save_evidence, run_check,
  run_checks_direct,
}
use autonomy_engine.Pipeline.Settled.{bind-values}

-- the last record of a name, or else `o`
abbrev pub latest : String → List EvidenceRecord → Option EvidenceRecord → Option EvidenceRecord
latest name [] o = o
latest name (r ∷ rs) o = latest name rs (if r.name == name then some r else o)

-- The records are those of the checks, in order: each has the exit code of its command.
pub data Ran (S : Shell) (project_dir : String) : List Check → List EvidenceRecord → Type 0 where
  no_check : Ran S project_dir [] []
  one_more :
      {c : Check} {r : EvidenceRecord} {cs : List Check} {rs : List EvidenceRecord} (n : ℕ)
      → r.name ≡ c.name
      → r.exit_code ≡ exit_code_of (S.run_command n c.command (or_default project_dir c.cwd))
      → Ran S project_dir cs rs
      → Ran S project_dir (c ∷ cs) (r ∷ rs)

-- Every file has the name of its record.
pub record IsDirectory (d : Dict EvidenceRecord) : Type 0 where
  pub once : NodupKeys d
  pub named : AllEntries (λ k r. k ≡ r.name <> ".json") d

module _ (P : Platform) (dir rid : String) where
  pub record IsIn (w : World) : Type 0 where
    pub in_dir : w.project_dir ≡ some dir
    pub in_run : w.tracer.run_id ≡ some rid

  abbrev pub run_evidence : String
  run_evidence = (dir <> "/state") <> "/runs/" <> rid <> "/evidence"

  abbrev pub files_in : World → Dict EvidenceRecord
  files_in w = directory P run_evidence w

  pub evidence_dir_eq : (w : World) → IsIn w → evidence_dir P w ≡ (ok run_evidence, w)
  unfolding evidence_dir
  evidence_dir_eq w i = rw i.in_dir (rw i.in_run refl)

  file_eq : (j k : String) → ((k <> ".json") == (j <> ".json")) ≡ (k == j)
  file_eq j k = elim (Bool-cases (k == j)) [
    | inl same ↦ rw ((eq_iff k j).0 same) (eq_refl (j <> ".json") ∙ sym (eq_refl j))
    | inr differ ↦ elim (Bool-cases ((k <> ".json") == (j <> ".json"))) [
      | inl files ↦
          let e =
            append_cancel_right k j ".json" ((eq_iff (k <> ".json") (j <> ".json")).0 files) in
          absurd (cc (sym differ ∙ (eq_iff k j).1 e))
      | inr other ↦ other ∙ sym differ
    ]
  ]

  write-files :
      (r : EvidenceRecord) (w : World)
      → files_in (write_record P run_evidence r w) ≡ insert (r.name <> ".json") r (files_in w)
  unfolding write_record
  write-files r w =
      rw (lookup-insert_self run_evidence (insert (r.name <> ".json") r (files_in w)) w.evidence)
        refl

  save_eq :
      (r : EvidenceRecord) (w : World)
      → IsIn w
      → save_evidence P r w ≡ (ok tt, write_record P run_evidence r w)
  unfolding save_evidence
  save_eq r w i = rw (evidence_dir_eq w i) refl

  lookup-write :
      (name : String) (r : EvidenceRecord) (w : World)
      → lookup (name <> ".json") (files_in (write_record P run_evidence r w))
        ≡ (if r.name == name then some r else lookup (name <> ".json") (files_in w))
  lookup-write name r w = rw (write-files r w) (
      lookup-insert (name <> ".json") (r.name <> ".json") r (files_in w)
      ∙ ap (λ b. if b then some r else lookup (name <> ".json") (files_in w)) (file_eq name r.name))

  write-IsDirectory :
      (r : EvidenceRecord) (w : World)
      → IsDirectory (files_in w)
      → IsDirectory (files_in (write_record P run_evidence r w))
  write-IsDirectory r w h = subst IsDirectory (sym (write-files r w)) (record {
    once = insert-NodupKeys (r.name <> ".json") r (files_in w) h.once;
    named =
        insert-AllEntries (λ k r. k ≡ r.name <> ".json") (r.name <> ".json") r (files_in w) refl
          h.named;
  })

  write-IsIn : (r : EvidenceRecord) (w : World) → IsIn w → IsIn (write_record P run_evidence r w)
  unfolding write_record
  write-IsIn r w i = record { in_dir = i.in_dir; in_run = i.in_run }

module _ (P : Platform) (S : Shell) (dir rid project_dir : String) where
  -- What `run_check` of a check gives, and the world after it.
  record IsChecked (c : Check) (w : World) (r : EvidenceRecord) (w' : World) : Type 0 where
    name_same : r.name ≡ c.name
    code_same :
        r.exit_code ≡ exit_code_of (S.run_command w.ticks c.command (or_default project_dir c.cwd))
    world_same : w' ≡ record w { ticks = w.ticks + 1 + 1 }

  check-IsChecked :
      (c : Check) (w w' : World) (r : EvidenceRecord)
      → run_check P S c.name c.command (or_default project_dir c.cwd) "300" w ≡ (ok r, w')
      → IsChecked c w r w'
  unfolding run_check
  check-IsChecked c w w' r h = go (S.shlex_split c.command) refl
    where
      go : (o : Result (List String)) → S.shlex_split c.command ≡ o → IsChecked c w r w'
      go (raise e) q = let h' = rw (q, run_check) at h in absurd (cc (ap (λ x. x.0) h'))
      go (ok argv) q =
          let h' = rw (q, run_check) at h in
          let e = made (ap (λ x. x.0) h') in
          record {
            name_same = sym (ap (λ x. x.name) e);
            code_same = sym (ap (λ x. x.exit_code) e);
            world_same = sym (ap (λ x. x.1) h');
          }
        where
          made : {a b : EvidenceRecord} → ok a ≡ ok b → a ≡ b
          made e = cc

  -- The records `rs` of `cs` are what the run added to the directory.
  pub record IsRun (cs : List Check) (rs : List EvidenceRecord) (w w' : World) : Type 0 where
    pub ran : Ran S project_dir cs rs
    pub still_in : IsIn P dir rid w'
    pub tidy : IsDirectory (files_in P dir rid w')
    pub kept :
        (name : String)
        → lookup (name <> ".json") (files_in P dir rid w')
          ≡ latest name rs (lookup (name <> ".json") (files_in P dir rid w))

  pub checks-IsRun :
      (cs : List Check) (w w' : World)
      → IsIn P dir rid w
      → IsDirectory (files_in P dir rid w)
      → run_checks_direct P S cs project_dir w ≡ (ok tt, w')
      → (rs : List EvidenceRecord) × IsRun cs rs w w'
  unfolding run_checks_direct
  checks-IsRun [] w w' i t h = (
    [],
    subst (IsRun [] [] w) (ap (λ x. x.1) h)
        (record { ran = no_check; still_in = i; tidy = t; kept = λ name. refl }),
  )
  checks-IsRun (c ∷ cs) w w' i t h =
      let check = run_check P S c.name c.command (or_default project_dir c.cwd) "300" in
      let (r, made, e) = bind-values check _ w h in
      let v : World = (check w).1 in
      let checked = check-IsChecked c w v r made in
      let same : v ≡ record w { ticks = w.ticks + 1 + 1 } = checked.world_same in
      let u : World = record w { ticks = w.ticks + 1 + 1 } in
      let i' : IsIn P dir rid u = record { in_dir = i.in_dir; in_run = i.in_run } in
      let e' : (save_evidence P r >> run_checks_direct P S cs project_dir) u ≡ (ok tt, w') =
        subst (λ x. (save_evidence P r >> run_checks_direct P S cs project_dir) x ≡ (ok tt, w'))
          same e in
      let x : World = write_record P (run_evidence P dir rid) r u in
      let saved = save_eq P dir rid r u i' in
      let e'' : run_checks_direct P S cs project_dir x ≡ (ok tt, w') = rw saved at e' in
      let (rs, rest) =
        checks-IsRun cs x w' (write-IsIn P dir rid r u i') (write-IsDirectory P dir rid r u t)
          e'' in
      (
        r ∷ rs,
        record {
          ran = one_more w.ticks checked.name_same checked.code_same rest.ran;
          still_in = rest.still_in;
          tidy = rest.tidy;
          kept = λ name. rest.kept name ∙ ap (latest name rs) (lookup-write P dir rid name r u);
        },
      )
