-- ===== src/Designs/Seen.antt =====
-- engine/contract_checker.py: the files that the check looks at, and those that it does not count.
use autonomy_engine.Base.{
  String, ◌≡◌, ◌↔◌, refl, sym, ap, subst, ◌∙◌, List, [], ◌∷◌, ◌++◌, Bool, true, false, ◌==◌, eq_iff,
  eq_refl, contains, if◌then◌else◌, arith, Bool-cases, inl, inr,
}
use autonomy_engine.Base.Dict.{Dict, lookup, has_key}
use autonomy_engine.Base.Counts.{difference}
use autonomy_engine.Base.Texts.{contains_text}
use autonomy_engine.Designs.Compliance.{
  contains_any, skip_texts, actual_files, default_extras, entry_files, is_structural,
  structural_files, expected_extras,
}
use autonomy_engine.Designs.Compliant.{IsSeen, usual_files, is_usual, unusual}

pub contains-actual :
    (f : String) (fs : Dict String)
    → contains f (actual_files fs) ≡ (if contains_any f skip_texts then false else has_key f fs)
unfolding actual_files has_key lookup
contains-actual f [] = ground arith
contains-actual f ((rel, content) ∷ fs) =
    ground
      (arith, contains-actual f fs, eq_iff rel f, ap (λ (r : String). contains_any r skip_texts))

pub visible_iff :
    (f : String) (fs : Dict String) → (contains f (actual_files fs) ≡ true) ↔ IsSeen fs f
unfolding contains_any
visible_iff f fs = ground (arith, contains-actual f fs)

contains-append :
    (k : String) (xs ys : List String)
    → contains k (xs ++ ys) ≡ (if contains k xs then true else contains k ys)
contains-append k [] ys = refl
contains-append k (x ∷ xs) ys = ground (arith, contains-append k xs ys)

contains-structural :
    (name : String → String) (f : String) (fs : List String)
    → contains f (structural_files name fs)
      ≡ (if contains f fs then is_structural name f else false)
unfolding structural_files
contains-structural name f [] = refl
contains-structural name f (x ∷ xs) =
    let rest = contains-structural name f xs in
    elim (Bool-cases (x == f)) [
      | inl same ↦ elim (Bool-cases (is_structural name x)) [
        | inl s ↦
            let s' = subst (λ y. is_structural name y ≡ true) ((eq_iff x f).0 same) s in
            rw s (rw same (sym s'))
        | inr n ↦
            let n' = subst (λ y. is_structural name y ≡ false) ((eq_iff x f).0 same) n in
            rw n (rw same (rest ∙ rw n' (never (contains f xs))))
      ]
      | inr differ ↦ elim (Bool-cases (is_structural name x)) [
        | inl s ↦ rw s (rw differ rest)
        | inr n ↦ rw n (rw differ rest)
      ]
    ]
  where
    never : (b : Bool) → (if b then false else false) ≡ false
    never true = refl
    never false = refl

is_structural-usual :
    (name : String → String) (f : String)
    → is_structural name f ≡ (
        if name f == "__init__.py"
        then true
        else if contains_text f "/"
        then false
        else contains (name f) entry_files)
unfolding is_structural
is_structural-usual name f =
    go (name f == "__init__.py") (contains (name f) entry_files) (contains_text f "/")
  where
    go :
        (a b c : Bool)
        → (if a then true else if b then (if c then false else true) else false)
          ≡ (if a then true else if c then false else b)
    go a b c = ground arith

contains-extras :
    (name : String → String) (f : String) (actual : List String)
    → contains f actual ≡ true
    → contains f (expected_extras name actual) ≡ is_usual name f
unfolding expected_extras
contains-extras name f actual there =
    contains-append f default_extras (structural_files name actual)
    ∙ ap (λ b. if contains f usual_files then true else b)
        (contains-structural name f actual ∙ rw there (is_structural-usual name f))

pub difference-unusual :
    (name : String → String) (fs actual : List String)
    → ((f : String) → contains f fs ≡ true → contains f actual ≡ true)
    → difference fs (expected_extras name actual) ≡ unusual name fs
difference-unusual name [] actual h = refl
difference-unusual name (x ∷ xs) actual h = ground (
  arith,
  contains-extras name x actual (h x (rw (eq_refl x) refl)),
  difference-unusual name xs actual (λ f m. h f (ground (arith, m))),
)
