-- ===== src/Stages/Extract/Confined.antt =====
-- tasks/extract.py: where the files are written, and the limits.
use autonomy_engine.Base.{
  ◌≤◌, String, ◌<>◌, ◌≡◌, ◌↔◌, refl, sym, ap, subst, ◌∙◌, Option, some, List, [], ◌∷◌, Bool, true,
  false, truthy, contains, starts_with, ltb, ◌==◌, eq_iff, length, if◌then◌else◌, arith, Bool-cases,
  inl, inr,
}
use autonomy_engine.Base.Dict.{lookup, lookup-insert}
use autonomy_engine.World.{Platform, World, Result, ok, raise}
use autonomy_engine.Stages.Extract.{
  ManifestEntry, Violation, max_files, max_bytes, total_bytes, violation_if, violations,
  check_extraction_limits, parts_of, join_parts, is_relative_to, has_blank, contained, safe_path,
  write_file, write_files,
}

violation-nil : (b : Bool) (v : Violation) → (violation_if b v ≡ []) ↔ (b ≡ false)
violation-nil true v = (λ h. absurd (cc h), λ h. absurd (cc h))
violation-nil false v = (λ h. refl, λ h. refl)

-- `_check_extraction_limits` returns exactly if neither the number of files nor their bytes
-- in UTF-8 are over the limits of the tier.
limits_iff :
    (tier : Option String) (files : List ManifestEntry)
    → (check_extraction_limits tier files ≡ ok tt)
      ↔ ((length files ≤ max_files tier) × (total_bytes files ≤ max_bytes tier))
unfolding check_extraction_limits violations
limits_iff tier files = elim (Bool-cases (ltb (max_files tier) (length files))) [
  | inl many ↦
      rw (many, check_extraction_limits)
        (λ h. absurd (cc h), λ (a, b). absurd (ground (arith, many, a)))
  | inr few ↦
      rw (few, check_extraction_limits)
        (elim (Bool-cases (ltb (max_bytes tier) (total_bytes files))) [
          | inl large ↦
              rw (large, check_extraction_limits)
                (λ h. absurd (cc h), λ (a, b). absurd (ground (arith, large, b)))
          | inr small ↦
              rw (small, check_extraction_limits)
                (λ h. (ground (arith, few), ground (arith, small)), λ x. refl)
        ])
]

module _ (P : Platform) (output_dir : String) where
  abbrev pub is_inside : String → Bool
  is_inside p = is_relative_to p (P.resolve output_dir)

  contained-inside : (p q : String) → contained P output_dir q ≡ ok p → is_inside p ≡ true
  unfolding contained
  contained-inside p q h = elim (Bool-cases (is_relative_to q (P.resolve output_dir))) [
    | inl inside ↦
        let h' = rw (inside, contained) at h in
        let same : q ≡ p = cc h' in subst (λ x. is_inside x ≡ true) same inside
    | inr outside ↦ let h' = rw (outside, contained) at h in absurd (cc h')
  ]

  safe-inside : (f p : String) → safe_path P output_dir f ≡ ok p → is_inside p ≡ true
  unfolding safe_path
  safe-inside f p h = elim (Bool-cases (truthy (P.strip f))) [
    | inr blank ↦ let h' = rw (blank, safe_path) at h in absurd (cc h')
    | inl full ↦ elim (Bool-cases (starts_with f "/")) [
      | inl absolute ↦ let h' = rw (full, absolute, safe_path) at h in absurd (cc h')
      | inr relative ↦ elim (Bool-cases (contains ".." (parts_of f))) [
        | inl up ↦ let h' = rw (full, relative, up, safe_path) at h in absurd (cc h')
        | inr down ↦ elim (Bool-cases (has_blank P (parts_of f))) [
          | inl gap ↦ let h' = rw (full, relative, down, gap, safe_path) at h in absurd (cc h')
          | inr plain ↦
              let h' = rw (full, relative, down, plain, safe_path) at h in
              contained-inside p (P.resolve (output_dir <> join_parts (parts_of f))) h'
        ]
      ]
    ]
  ]

  -- the worlds differ in files inside of the output directory only
  pub record IsConfined (w w' : World) : Type 0 where
    pub frame : w' ≡ record w { files = w'.files }
    pub outside : (k : String) → is_inside k ≡ false → lookup k w'.files ≡ lookup k w.files

  write-IsConfined :
      (p content : String) (w : World)
      → is_inside p ≡ true
      → IsConfined w (write_file P p content w)
  unfolding write_file
  write-IsConfined p content w inside = record {
    frame = refl;
    outside = λ k out. lookup-insert k p content w.files ∙ other k out (p == k) refl;
  }
    where
      other :
          (k : String)
          → is_inside k ≡ false
          → (b : Bool) → (p == k) ≡ b
          → (if b then some content else lookup k w.files) ≡ lookup k w.files
      other k out true same =
          let at = (eq_iff p k).0 same in
          absurd (cc (sym out ∙ subst (λ x. is_inside x ≡ true) at inside))
      other k out false differ = refl

  IsConfined-trans : (u v w : World) → IsConfined u v → IsConfined v w → IsConfined u w
  IsConfined-trans u v w a b = record {
    frame = b.frame ∙ ap {A = World} (λ x. record x { files = w.files }) a.frame;
    outside = λ k out. b.outside k out ∙ a.outside k out;
  }

  -- The loop that writes the files of a manifest, whether it returns or raises halfway,
  -- changes nothing but files, and no file whose path is not relative to the resolved output
  -- directory.
  pub write_files-IsConfined :
      (es : List ManifestEntry) (w : World) → IsConfined w (write_files P output_dir es w).1
  unfolding write_files
  write_files-IsConfined [] w = record { frame = refl; outside = λ k out. refl }
  write_files-IsConfined (e ∷ es) w =
      go (safe_path P output_dir e.path) refl (write_files-IsConfined es)
    where
      go :
          (r : Result String)
          → safe_path P output_dir e.path ≡ r
          → ((v : World) → IsConfined v (write_files P output_dir es v).1)
          → IsConfined w (write_files P output_dir (e ∷ es) w).1
      go (raise x) q rest = rw q (record { frame = refl; outside = λ k out. refl })
      go (ok p) q rest =
          let v : World = write_file P p (e.content <> "\n") w in
          rw q (
            IsConfined-trans w v (write_files P output_dir es v).1
              (write-IsConfined p (e.content <> "\n") w (safe-inside e.path p q)) (rest v))
