-- ===== src/Base/Dict.antt =====
-- Python's `dict` with text keys, in insertion order.
use autonomy_engine.Base.Tests.{if◌then◌else◌, Bool-cases, Option-cases}
use mathlib.Core.Logic.{inl, inr}
use Prim.Native.String.{String}
use mathlib.Core.Path.{◌≡◌, refl, sym, subst}
use mathlib.Core.Bool.{Bool, true, false}
use mathlib.Core.Option.{Option, none, some}
use mathlib.Core.List.{List, [], ◌∷◌, ◌++◌}
use native.Mathlib.Omega.{arith}
use text.Mathlib.Text.{◌==◌}
use text.Mathlib.TextPositions.{eq_refl}
use text.Mathlib.TextEquality.{eq_iff}

abbrev pub Dict {ℓ} : Type ℓ → Type ℓ
Dict V = List (String × V)

module _ {ℓ} {V : Type ℓ} where
  -- d.get(k)
  unfoldable pub lookup : String → Dict V → Option V
  lookup k [] = none
  lookup k ((j, v) ∷ d) = if j == k then some v else lookup k d

  -- d[k] = v, and {**d, k: v}
  unfoldable pub insert : String → V → Dict V → Dict V
  insert k v [] = (k, v) ∷ []
  insert k v ((j, w) ∷ d) = if j == k then (j, v) ∷ d else (j, w) ∷ insert k v d

  -- d.pop(k, None), as to what stays in the dict
  unfoldable pub remove : String → Dict V → Dict V
  remove k [] = []
  remove k ((j, v) ∷ d) = let rest = remove k d in if j == k then rest else (j, v) ∷ rest

  -- k in d
  unfoldable pub has_key : String → Dict V → Bool
  unfolding lookup
  has_key k d = elim (lookup k d) [ none ↦ false | some v ↦ true ]

  -- The keys are distinct, as they are in every Python dict.
  abbrev pub NodupKeys : Dict V → Type 0
  NodupKeys [] = Unit
  NodupKeys ((k, v) ∷ d) = (has_key k d ≡ false) × NodupKeys d

  pub lookup-insert :
      (j k : String) (v : V) (d : Dict V)
      → lookup j (insert k v d) ≡ (if k == j then some v else lookup j d)
  unfolding lookup insert
  lookup-insert j k v [] = refl
  lookup-insert j k v ((i, w) ∷ d) =
      ground (arith, eq_iff i k, eq_iff i j, eq_iff k j, lookup-insert j k v d)

  pub lookup-remove :
      (j k : String) (d : Dict V) → lookup j (remove k d) ≡ (if k == j then none else lookup j d)
  unfolding lookup remove
  lookup-remove j k [] = ground arith
  lookup-remove j k ((i, w) ∷ d) =
      ground (arith, eq_iff i k, eq_iff i j, eq_iff k j, lookup-remove j k d)

  -- A fresh key is inserted at the end.
  pub insert_fresh :
      (k : String) (v : V) (d : Dict V) → has_key k d ≡ false → insert k v d ≡ d ++ (k, v) ∷ []
  unfolding insert has_key
  insert_fresh k v [] h = refl
  insert_fresh k v ((j, w) ∷ d) h = ground (arith, insert_fresh k v d)

  pub remove_fresh : (k : String) (d : Dict V) → has_key k d ≡ false → remove k d ≡ d
  unfolding remove has_key
  remove_fresh k [] h = refl
  remove_fresh k ((j, w) ∷ d) h = ground (arith, remove_fresh k d)

  -- `d[k] = v; d.pop(k)` gives back a dict without `k`.
  pub remove-insert :
      (k : String) (v : V) (d : Dict V) → has_key k d ≡ false → remove k (insert k v d) ≡ d
  unfolding insert remove has_key
  remove-insert k v [] h = ground (arith, eq_iff k k)
  remove-insert k v ((j, w) ∷ d) h = ground (arith, remove-insert k v d)

  pub has_key-insert :
      (j k : String) (v : V) (d : Dict V)
      → has_key j (insert k v d) ≡ (if k == j then true else has_key j d)
  unfolding has_key
  has_key-insert j k v d = ground (arith, lookup-insert j k v d)

  pub insert-NodupKeys : (k : String) (v : V) (d : Dict V) → NodupKeys d → NodupKeys (insert k v d)
  unfolding insert
  insert-NodupKeys k v [] h = (unfold has_key in refl, tt)
  insert-NodupKeys k v ((j, w) ∷ d) h =
      ground (arith, has_key-insert j k v d, insert-NodupKeys k v d, eq_iff j k, eq_iff k j)

  pub lookup-insert_self : (k : String) (v : V) (d : Dict V) → lookup k (insert k v d) ≡ some v
  lookup-insert_self k v d = rw (lookup-insert k k v d) (rw (eq_refl k))

  pub lookup-absent : (k : String) (d : Dict V) → has_key k d ≡ false → lookup k d ≡ none
  unfolding has_key
  lookup-absent k d h = elim (Option-cases (lookup k d)) [
    | inl absent ↦ absent
    | inr (v, there) ↦ let h' = rw (there, has_key) at h in cc h'
  ]

  -- The relation holds of every key and its value.
  abbrev pub AllEntries {κ} : (String → V → Type κ) → Dict V → Type κ
  AllEntries Q [] = Unit
  AllEntries Q ((k, v) ∷ d) = Q k v × AllEntries Q d

  pub insert-AllEntries {κ} :
      (Q : String → V → Type κ) (k : String) (v : V) (d : Dict V)
      → Q k v
      → AllEntries Q d
      → AllEntries Q (insert k v d)
  unfolding insert
  insert-AllEntries Q k v [] q h = (q, tt)
  insert-AllEntries Q k v ((j, w) ∷ d) q (p, h) = elim (Bool-cases (j == k)) [
    | inl same ↦ rw same (subst (λ i. Q i v) (sym ((eq_iff j k).0 same)) q, h)
    | inr differ ↦ rw differ (p, insert-AllEntries Q k v d q h)
  ]

  pub lookup-AllEntries {κ} :
      (Q : String → V → Type κ) (k : String) (v : V) (d : Dict V)
      → AllEntries Q d
      → lookup k d ≡ some v
      → Q k v
  unfolding lookup
  lookup-AllEntries Q k v [] h there = absurd (cc there)
  lookup-AllEntries Q k v ((j, w) ∷ d) (q, h) there = elim (Bool-cases (j == k)) [
    | inl same ↦
        let there' = rw same at there in
        subst (λ x. Q k x) (cc there') (subst (λ i. Q i w) ((eq_iff j k).0 same) q)
    | inr differ ↦ lookup-AllEntries Q k v d h (rw differ at there)
  ]
