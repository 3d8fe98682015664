-- ===== src/Base/Counts.antt =====
-- How often texts stand in a list, and Python's `set` and counting dict of a list.
use Prim.Native.Nat.{ℕ, ◌+◌, ◌≤◌, ◌<◌}
use Prim.Native.String.{String}
use mathlib.Core.Path.{◌≡◌, refl, ◌∙◌}
use mathlib.Core.Logic.{◌≢◌, inl, inr, ◌↔◌}
use mathlib.Core.Bool.{true, false}
use mathlib.Core.List.{List, [], ◌∷◌, ◌++◌}
use native.Mathlib.Omega.{arith}
use Prim.Native.String.{compare}
use text.Mathlib.Text.{◌==◌, is_lt}
use text.Mathlib.TextEquality.{eq_iff}
use text.Mathlib.TextPositions.{eq_refl}
use autonomy_engine.Base.Tests.{if◌then◌else◌, contains, or_default, Bool-cases}
use autonomy_engine.Base.Lists.{length}
use autonomy_engine.Base.Dict.{Dict, lookup, insert, NodupKeys, lookup-insert, insert-NodupKeys}

abbrev pub occurrences : String → List String → ℕ
occurrences k [] = 0
occurrences k (x ∷ xs) = (if x == k then 1 else 0) + occurrences k xs

-- No text stands twice.
abbrev pub IsNodup : List String → Type 0
IsNodup xs = (k : String) → occurrences k xs ≤ 1

-- set(xs), in the order of the first occurrences
unfoldable pub distinct_after : List String → List String → List String
distinct_after seen [] = []
distinct_after seen (x ∷ xs) =
    let old = distinct_after seen xs in
    let new = distinct_after (x ∷ seen) xs in if contains x seen then old else x ∷ new

unfoldable pub distinct : List String → List String
unfolding distinct_after
distinct xs = distinct_after [] xs

-- for x in xs: d[x] = d.get(x, 0) + 1
unfoldable pub tally : List String → Dict ℕ → Dict ℕ
tally [] d = d
tally (x ∷ xs) d = tally xs (insert x (or_default 0 (lookup x d) + 1) d)

pub lookup-tally :
    (k : String) (xs : List String) (d : Dict ℕ)
    → or_default 0 (lookup k (tally xs d)) ≡ or_default 0 (lookup k d) + occurrences k xs
unfolding tally
lookup-tally k [] d = omega arith
lookup-tally k (x ∷ xs) d = lookup-tally k xs (insert x (or_default 0 (lookup x d) + 1) d) ∙ step
  where
    step :
        or_default 0 (lookup k (insert x (or_default 0 (lookup x d) + 1) d)) + occurrences k xs
        ≡ or_default 0 (lookup k d) + ((if x == k then 1 else 0) + occurrences k xs)
    step = ground (arith, lookup-insert k x (or_default 0 (lookup x d) + 1) d, eq_iff x k)

pub tally-NodupKeys : (xs : List String) (d : Dict ℕ) → NodupKeys d → NodupKeys (tally xs d)
unfolding tally
tally-NodupKeys [] d h = h
tally-NodupKeys (x ∷ xs) d h = tally-NodupKeys xs _ (insert-NodupKeys x _ d h)

pub contains-occurrences :
    (k : String) (xs : List String) → (contains k xs ≡ true) ↔ (0 < occurrences k xs)
contains-occurrences k [] = ground arith
contains-occurrences k (x ∷ xs) = ground (arith, contains-occurrences k xs)

pub length-distinct_after :
    (xs seen : List String)
    → ((k : String) → contains k seen ≡ true → occurrences k xs ≡ 0)
    → IsNodup xs
    → length (distinct_after seen xs) ≡ length xs
unfolding distinct_after
length-distinct_after [] seen apart one = refl
length-distinct_after (x ∷ xs) seen apart one =
    ground (arith, apart x, eq_refl x, length-distinct_after xs (x ∷ seen) further fewer)
  where
    further : (k : String) → contains k (x ∷ seen) ≡ true → occurrences k xs ≡ 0
    further k h = ground (arith, apart k, one k)

    fewer : IsNodup xs
    fewer k = omega (arith, one k)

-- A list without repetitions is as long as its set.
pub length-distinct : (xs : List String) → IsNodup xs → length (distinct xs) ≡ length xs
unfolding distinct
length-distinct xs one = length-distinct_after xs [] (λ k h. cc h) one

-- No text of the list was seen, neither before the list nor in it.
abbrev pub Fresh : List String → List String → Type 0
Fresh seen [] = Unit
Fresh seen (x ∷ xs) = (contains x seen ≡ false) × Fresh (x ∷ seen) xs

-- What `Fresh` says of the counts.
abbrev pub Apart : List String → List String → Type 0
Apart seen xs = (k : String) → contains k seen ≡ true → occurrences k xs ≡ 0

pub Fresh-Apart : (seen xs : List String) → Fresh seen xs → IsNodup xs × Apart seen xs
Fresh-Apart seen [] h = (λ k. omega arith, λ k m. refl)
Fresh-Apart seen (x ∷ xs) (new, h) =
    let (one, apart) = Fresh-Apart (x ∷ seen) xs h in
    (λ k. ground (arith, one k, apart k, eq_iff x k), λ k m. ground (arith, apart k, eq_iff x k))

pub Apart-Fresh : (seen xs : List String) → IsNodup xs → Apart seen xs → Fresh seen xs
Apart-Fresh seen [] one apart = tt
Apart-Fresh seen (x ∷ xs) one apart =
    (ground (arith, apart x, eq_refl x), Apart-Fresh (x ∷ seen) xs fewer further)
  where
    fewer : IsNodup xs
    fewer k = omega (arith, one k)

    further : Apart (x ∷ seen) xs
    further k h = ground (arith, apart k, one k)

pub Fresh-iff : (xs : List String) → Fresh [] xs ↔ IsNodup xs
Fresh-iff xs = (λ h. (Fresh-Apart [] xs h).0, λ one. Apart-Fresh [] xs one (λ k h. cc h))

pub occurrences-append :
    (k : String) (xs ys : List String)
    → occurrences k (xs ++ ys) ≡ occurrences k xs + occurrences k ys
occurrences-append k [] ys = omega arith
occurrences-append k (x ∷ xs) ys = omega (arith, occurrences-append k xs ys)

-- xs - ys of sets
abbrev pub difference : List String → List String → List String
difference [] ys = []
difference (x ∷ xs) ys = let rest = difference xs ys in if contains x ys then rest else x ∷ rest

-- xs & ys of sets
abbrev pub intersection : List String → List String → List String
intersection [] ys = []
intersection (x ∷ xs) ys = let rest = intersection xs ys in if contains x ys then x ∷ rest else rest

unfoldable pub insert_sorted : String → List String → List String
insert_sorted x [] = x ∷ []
insert_sorted x (y ∷ ys) =
    let rest = insert_sorted x ys in if is_lt (compare y x) then y ∷ rest else x ∷ y ∷ ys

-- sorted(xs)
unfoldable pub sorted : List String → List String
unfolding insert_sorted
sorted [] = []
sorted (x ∷ xs) = insert_sorted x (sorted xs)

pub difference-nil :
    (xs ys : List String)
    → (difference xs ys ≡ []) ↔ ((k : String) → contains k xs ≡ true → contains k ys ≡ true)
difference-nil [] ys = (λ h k m. cc m, λ h. refl)
difference-nil (x ∷ xs) ys = elim (Bool-cases (contains x ys)) [
  | inl there ↦ rw there (
    λ h k m. ground (arith, (difference-nil xs ys).0 h k, eq_iff x k, there),
    λ h. (difference-nil xs ys).1 (λ k m. h k (ground (arith, m))),
  )
  | inr absent ↦ rw absent (λ h. cc h, λ h. absurd (ground (arith, h x, eq_refl x, absent)))
]

pub contains-distinct_after :
    (k : String) (seen xs : List String)
    → contains k (distinct_after seen xs) ≡ (if contains k seen then false else contains k xs)
unfolding distinct_after
contains-distinct_after k seen [] = ground arith
contains-distinct_after k seen (x ∷ xs) =
    ground (
      arith,
      contains-distinct_after k seen xs,
      contains-distinct_after k (x ∷ seen) xs,
      eq_iff x k,
    )

pub contains-distinct : (k : String) (xs : List String) → contains k (distinct xs) ≡ contains k xs
unfolding distinct
contains-distinct k xs = contains-distinct_after k [] xs

insert_sorted-ne-nil : (x : String) (ys : List String) → insert_sorted x ys ≢ []
unfolding insert_sorted
insert_sorted-ne-nil x [] h = cc h
insert_sorted-ne-nil x (y ∷ ys) h = ground arith

pub sorted-nil : (xs : List String) → (sorted xs ≡ []) ↔ (xs ≡ [])
unfolding sorted
sorted-nil [] = (λ h. refl, λ h. refl)
sorted-nil (x ∷ xs) = (λ h. absurd (insert_sorted-ne-nil x (sorted xs) h), λ h. cc h)
