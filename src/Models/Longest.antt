-- ===== src/Models/Longest.antt =====
-- engine/model_registry.py: the key that `_best_prefix_match` finds.
use Prim.Native.String.{count}
use autonomy_engine.Base.{
  ◌≤◌, String, ◌≡◌, ◌↔◌, ◌⊎◌, refl, sym, subst, ◌∙◌, none, some, [], ◌∷◌, true, false, ltb,
  starts_with, ◌==◌, eq_iff, if◌then◌else◌, arith, Bool-cases, inl, inr,
}
use autonomy_engine.Base.Dict.{Dict, lookup, has_key}
use autonomy_engine.Models.{ModelEntry, Best, better, best_from, best_prefix_match}

-- `best` is a longest key that was seen and begins the model, and 0 is the length of none.
record IsBest (model : String) (Seen : String → Type 0) (best : Best) : Type 0 where
  upper : (k : String) → Seen k → starts_with model k ≡ true → count k ≤ best.1
  found :
      (k : String) → best.0 ≡ some k → Seen k × (starts_with model k ≡ true) × (count k ≡ best.1)
  nothing : best.0 ≡ none → best.1 ≡ 0

better-IsBest :
    (model key : String) (Seen Seen' : String → Type 0) (best : Best)
    → ((k : String) → Seen k → Seen' k)
    → Seen' key
    → ((k : String) → Seen' k → (key == k) ≡ false → Seen k)
    → IsBest model Seen best
    → IsBest model Seen' (better model key best)
better-IsBest model key Seen Seen' (b, n) more new old h =
    elim (Bool-cases (starts_with model key)) [
      | inl begins ↦ elim (Bool-cases (ltb n (count key))) [
        | inl longer ↦ rw begins (
            rw longer (record {
              upper = λ k s p. elim (Bool-cases (key == k)) [
                | inl same ↦
                    subst (λ x. count k ≤ count x) (sym ((eq_iff key k).0 same)) (ground arith)
                | inr differ ↦ ground (arith, h.upper k (old k s differ) p, longer)
              ];
              found = λ k e.
                  subst (λ x. Seen' x × (starts_with model x ≡ true) × (count x ≡ count key))
                    (same_key e) (new, begins, refl);
              nothing = λ e. absurd (cc e);
            }))
        | inr shorter ↦ rw begins (
            rw shorter (record {
              upper = λ k s p. elim (Bool-cases (key == k)) [
                | inl same ↦
                    subst (λ x. count x ≤ n) ((eq_iff key k).0 same) (ground (arith, shorter))
                | inr differ ↦ h.upper k (old k s differ) p
              ];
              found = kept;
              nothing = h.nothing;
            }))
      ]
      | inr other ↦ rw other (record {
        upper = λ k s p. elim (Bool-cases (key == k)) [
          | inl same ↦
              let p' = subst (λ x. starts_with model x ≡ true) (sym ((eq_iff key k).0 same)) p in
              absurd (cc (sym other ∙ p'))
          | inr differ ↦ h.upper k (old k s differ) p
        ];
        found = kept;
        nothing = h.nothing;
      })
    ]
  where
    same_key : {k : String} → some key ≡ some k → key ≡ k
    same_key e = cc

    kept : (k : String) → b ≡ some k → Seen' k × (starts_with model k ≡ true) × (count k ≡ n)
    kept k e = let (s, p, c) = h.found k e in (more k s, p, c)

-- The registry has the key, or it was seen before.
abbrev SeenIn : (String → Type 0) → Dict ModelEntry → String → Type 0
SeenIn Seen [] k = Seen k
SeenIn Seen ((j, e) ∷ registry) k = SeenIn (λ i. Seen i ⊎ (j ≡ i)) registry k

best_from-IsBest :
    (model : String) (registry : Dict ModelEntry) (Seen : String → Type 0) (best : Best)
    → IsBest model Seen best
    → IsBest model (SeenIn Seen registry) (best_from model registry best)
unfolding best_from
best_from-IsBest model [] Seen best h = h
best_from-IsBest model ((key, e) ∷ registry) Seen best h =
    best_from-IsBest model registry (λ i. Seen i ⊎ (key ≡ i)) (better model key best)
      (better-IsBest model key Seen (λ i. Seen i ⊎ (key ≡ i)) best (λ k. inl) (inr refl) old h)
  where
    old : (k : String) → Seen k ⊎ (key ≡ k) → (key == k) ≡ false → Seen k
    old k (inl s) differ = s
    old k (inr same) differ = absurd (cc (sym differ ∙ (eq_iff key k).1 same))

has_key-cons :
    (k j : String) (e : ModelEntry) (registry : Dict ModelEntry)
    → has_key k ((j, e) ∷ registry) ≡ (if j == k then true else has_key k registry)
unfolding has_key lookup
has_key-cons k j e registry = ground arith

no_key : (k : String) → has_key {V = ModelEntry} k [] ≡ false
unfolding has_key lookup
no_key k = refl

-- What was seen is a key of the registry.
in_registry :
    (registry : Dict ModelEntry) (Seen : String → Type 0) (k : String)
    → SeenIn Seen registry k ↔ (Seen k ⊎ (has_key k registry ≡ true))
in_registry [] Seen k = (inl, empty)
  where
    empty : Seen k ⊎ (has_key {V = ModelEntry} k [] ≡ true) → Seen k
    empty (inl s) = s
    empty (inr h) = absurd (cc (sym (no_key k) ∙ h))
in_registry ((j, e) ∷ registry) Seen k =
    let (forth, back) = in_registry registry (λ i. Seen i ⊎ (j ≡ i)) k in
    (λ h. there (forth h), λ h. back (here h))
  where
    first : has_key k ((j, e) ∷ registry) ≡ (if j == k then true else has_key k registry)
    first = has_key-cons k j e registry

    there :
        (Seen k ⊎ (j ≡ k)) ⊎ (has_key k registry ≡ true)
        → Seen k ⊎ (has_key k ((j, e) ∷ registry) ≡ true)
    there (inl (inl s)) = inl s
    there (inl (inr same)) = inr (first ∙ rw ((eq_iff j k).1 same) refl)
    there (inr h) = inr (first ∙ rw h (ground arith))

    here :
        Seen k ⊎ (has_key k ((j, e) ∷ registry) ≡ true)
        → (Seen k ⊎ (j ≡ k)) ⊎ (has_key k registry ≡ true)
    here (inl s) = inl (inl s)
    here (inr h) = elim (Bool-cases (j == k)) [
      | inl same ↦ inl (inr ((eq_iff j k).0 same))
      | inr differ ↦ let first' = rw differ at first in inr (sym first' ∙ h)
    ]

-- `key` is a key of the registry that begins the model, and no other such key is longer.
pub record IsLongest (model : String) (registry : Dict ModelEntry) (key : String) : Type 0 where
  pub there : has_key key registry ≡ true
  pub begins : starts_with model key ≡ true
  pub longest :
      (k : String) → has_key k registry ≡ true → starts_with model k ≡ true → count k ≤ count key

module _ (model : String) (registry : Dict ModelEntry) where
  search-IsBest : IsBest model (λ k. has_key k registry ≡ true) (best_from model registry (none, 0))
  search-IsBest =
      let h =
        best_from-IsBest model registry (λ k. ⊥) (none, 0)
          (record {
            upper = λ k s p. absurd s;
            found = λ k e. absurd (cc e);
            nothing = λ e. refl;
          }) in
      record {
        upper = λ k s p. h.upper k ((in_registry registry (λ k. ⊥) k).1 (inr s)) p;
        found = λ k e.
            let (s, p, c) = h.found k e in (only ((in_registry registry (λ k. ⊥) k).0 s), p, c);
        nothing = h.nothing;
      }
    where
      only : {A : Type 0} → ⊥ ⊎ A → A
      only (inl x) = absurd x
      only (inr a) = a

  -- A key that `_best_prefix_match` returns is a key of the registry that begins the name of
  -- the model, and no other such key is longer; when it returns none, every key that begins
  -- the name is empty.
  pub best_match-IsLongest :
      ((key : String) → best_prefix_match model registry ≡ some key → IsLongest model registry key)
      × (best_prefix_match model registry ≡ none
          → (k : String) → has_key k registry ≡ true
          → starts_with model k ≡ true
          → count k ≡ 0)
  unfolding best_prefix_match
  best_match-IsLongest = (
    λ key e.
        let (s, p, c) = search-IsBest.found key e in
        record {
          there = s;
          begins = p;
          longest = λ k i b. subst (λ n. count k ≤ n) (sym c) (search-IsBest.upper k i b);
        },
    λ e k i b. omega (arith, search-IsBest.upper k i b, search-IsBest.nothing e),
  )
