-- ===== src/Dashboard/Curated.antt =====
-- dashboard/subprocess_env.py: which variables reach the pipeline.
use autonomy_engine.Base.{
  String, ◌≡◌, ◌↔◌, ◌⊎◌, refl, sym, ap, subst, ◌∙◌, Option, none, some, List, [], ◌∷◌, Bool, true,
  false, truthy, contains, ◌==◌, eq_iff, if◌then◌else◌, arith, Bool-cases, inl, inr,
}
use autonomy_engine.Base.Dict.{Dict, lookup, has_key, NodupKeys, lookup-insert, lookup-absent}
use autonomy_engine.World.{Result, ok}
use autonomy_engine.Dashboard.{
  allowlist, set_value, insert_set, copy_allowed, merge_extra, is_set, has_credentials,
  build_subprocess_env,
}

-- the first value, or else the second
abbrev pub or_value : Option String → Option String → Option String
or_value none o = o
or_value (some v) o = some v

-- The value of a variable in the subprocess.
abbrev pub wanted : Dict String → Dict String → String → Option String
wanted src extra k =
    or_value (set_value (lookup k extra))
      (if contains k allowlist then set_value (lookup k src) else none)

lookup-insert_set :
    (j k : String) (o : Option String) (env : Dict String)
    → lookup j (insert_set k o env) ≡ (if k == j then or_value o (lookup j env) else lookup j env)
unfolding insert_set
lookup-insert_set j k none env = ground arith
lookup-insert_set j k (some v) env = ground (arith, lookup-insert j k v env)

or_value_twice :
    (b : Bool) (o r : Option String)
    → (if b then or_value o (or_value o r) else or_value o r) ≡ or_value o r
or_value_twice true none r = refl
or_value_twice true (some v) r = refl
or_value_twice false o r = refl

or_none : (o : Option String) → or_value o none ≡ o
or_none none = refl
or_none (some v) = refl

lookup-copy :
    (j : String) (keys : List String) (src env : Dict String)
    → lookup j (copy_allowed keys src env) ≡ (
        if contains j keys
        then or_value (set_value (lookup j src)) (lookup j env)
        else lookup j env)
unfolding copy_allowed
lookup-copy j [] src env = refl
lookup-copy j (k ∷ keys) src env =
    let new = insert_set k (set_value (lookup k src)) env in
    lookup-copy j keys src new
    ∙ rw (lookup-insert_set j k (set_value (lookup k src)) env) (elim (Bool-cases (k == j)) [
      | inl same ↦ rw same (
          rw ((eq_iff k j).0 same)
            (or_value_twice (contains j keys) (set_value (lookup j src)) (lookup j env)))
      | inr differ ↦ rw differ refl
    ])

lookup-merge :
    (j : String) (extra env : Dict String)
    → NodupKeys extra
    → lookup j (merge_extra extra env) ≡ or_value (set_value (lookup j extra)) (lookup j env)
unfolding merge_extra lookup
lookup-merge j [] env once = refl
lookup-merge j ((k, v) ∷ extra) env (new, once) =
    let rest = lookup-merge j extra (insert_set k (set_value (some v)) env) once in
    rest
    ∙ rw (lookup-insert_set j k (set_value (some v)) env) (elim (Bool-cases (k == j)) [
      | inl same ↦
          let gone =
            lookup-absent j extra
              (subst (λ q. has_key q extra ≡ false) ((eq_iff k j).0 same) new) in
          rw same (rw gone refl)
      | inr differ ↦ rw differ refl
    ])

-- a value that is not empty, or none
abbrev IsClean : Option String → Type 0
IsClean o = (is_set o ≡ true) ⊎ (o ≡ none)

set-IsClean : (o : Option String) → IsClean (set_value o)
set-IsClean none = inr refl
set-IsClean (some v) = elim (Bool-cases (truthy v)) [
  | inl full ↦ inl (rw full full)
  | inr empty ↦ inr (rw empty refl)
]

or-IsClean : (o p : Option String) → IsClean o → IsClean p → IsClean (or_value o p)
or-IsClean none p h k = k
or-IsClean (some v) p h k = h

if-IsClean : (b : Bool) (o : Option String) → IsClean o → IsClean (if b then o else none)
if-IsClean true o h = h
if-IsClean false o h = inr refl

either_iff :
    {A B : Type 0} (a b : Bool)
    → (a ≡ true) ↔ A
    → (b ≡ true) ↔ B
    → ((if a then true else b) ≡ true) ↔ (A ⊎ B)
either_iff true b f g = (λ h. inl (f.0 refl), λ x. refl)
either_iff false b f g =
    (λ h. inr (g.0 h), λ x. elim x [ inl x ↦ absurd (cc (f.1 x)) | inr y ↦ g.1 y ])

module _ (src extra : Dict String) (once : NodupKeys extra) where
  lookup-curated :
      (k : String)
      → lookup k (merge_extra extra (copy_allowed allowlist src [])) ≡ wanted src extra k
  lookup-curated k =
      lookup-merge k extra (copy_allowed allowlist src []) once
      ∙ ap (or_value (set_value (lookup k extra)))
          (lookup-copy k allowlist src [] ∙ settle (contains k allowlist))
    where
      settle :
          (b : Bool)
          → (if b then or_value (set_value (lookup k src)) (lookup k []) else lookup k [])
            ≡ (if b then set_value (lookup k src) else none)
      settle true = unfold lookup in or_none (set_value (lookup k src))
      settle false = unfold lookup in refl

  abbrev pub Provided : String → Type 0
  Provided k = (v : String) × (wanted src extra k ≡ some v)

  -- `result` has just the wanted variables, and is an error if it lacks both keys of providers.
  pub record IsCurated (result : Result (Dict String)) : Type 0 where
    pub variables :
        (env : Dict String) → result ≡ ok env → (k : String) → lookup k env ≡ wanted src extra k
    pub returns :
        ((env : Dict String) × (result ≡ ok env))
        ↔ (Provided "ANTHROPIC_API_KEY" ⊎ Provided "OPENAI_API_KEY")

  wanted-set : (k : String) → IsClean (wanted src extra k)
  wanted-set k =
      or-IsClean (set_value (lookup k extra)) _ (set-IsClean (lookup k extra))
        (if-IsClean (contains k allowlist) (set_value (lookup k src)) (set-IsClean (lookup k src)))

  Provided-iff : (k : String) → (is_set (wanted src extra k) ≡ true) ↔ Provided k
  Provided-iff k = (
    λ h. go (wanted src extra k) refl h,
    λ (v, e). elim (wanted-set k) [ inl full ↦ full | inr absent ↦ absurd (cc (sym e ∙ absent)) ],
  )
    where
      go :
          (o : Option String)
          → wanted src extra k ≡ o
          → is_set (wanted src extra k) ≡ true
          → Provided k
      go none q h = let h' = rw q at h in cc h'
      go (some v) q h = (v, q)

  credentials_iff :
      (has_credentials (merge_extra extra (copy_allowed allowlist src [])) ≡ true)
      ↔ (Provided "ANTHROPIC_API_KEY" ⊎ Provided "OPENAI_API_KEY")
  unfolding has_credentials
  credentials_iff = rw (lookup-curated "ANTHROPIC_API_KEY") (
      rw (lookup-curated "OPENAI_API_KEY") (
        either_iff (is_set (wanted src extra "ANTHROPIC_API_KEY"))
          (is_set (wanted src extra "OPENAI_API_KEY")) (Provided-iff "ANTHROPIC_API_KEY")
          (Provided-iff "OPENAI_API_KEY")))

  -- The environment that `build_subprocess_env` returns has a variable just if the extra
  -- settings or, for a name of the allowlist, the source have a value for it that is not
  -- empty, with the extra settings first; it returns exactly if that holds of one of the two
  -- keys of providers; for extra settings with distinct names.
  pub build-IsCurated : IsCurated (build_subprocess_env src extra)
  unfolding build_subprocess_env
  build-IsCurated =
      elim (Bool-cases (has_credentials (merge_extra extra (copy_allowed allowlist src [])))) [
        | inl there ↦ rw there (record {
          variables = λ env e k. ap (lookup k) (sym (ok-same e)) ∙ lookup-curated k;
          returns = (λ x. credentials_iff.0 there, λ p. (_, refl));
        })
        | inr absent ↦ rw absent (record {
          variables = λ env e k. absurd (cc e);
          returns =
              (λ (env, e). absurd (cc e), λ p. absurd (cc (sym absent ∙ credentials_iff.1 p)));
        })
      ]
    where
      ok-same : {a b : Dict String} → ok a ≡ ok b → a ≡ b
      ok-same e = cc
