-- ===== src/Tracer/Verify/Tamper.antt =====
-- engine/tracer.py, logs that were cut or reordered, under the verifier.
use autonomy_engine.Base.{
  ℕ, ◌+◌, String, ◌≡◌, subst, Option, some, List, [], ◌∷◌, ◌++◌, true, arith, length,
}
use autonomy_engine.Base.Dict.{Dict, lookup}
use autonomy_engine.World.Json.{Json, bool, num, literal}
use autonomy_engine.World.{Platform, Line, dict, ok}
use autonomy_engine.Tracer.{genesis_hash}
use autonomy_engine.Tracer.Verify.{seq_matches, verify_lines}
use autonomy_engine.Tracer.Verify.Chain.{unsigned, verify-IsChain, IsChain-verify, IsChain-split}

-- A number that is written with a sign, a point or an exponent equals one natural at most.
abbrev pub HasOneValue : Platform → Type 0
HasOneValue P = (s : String) (i j : ℕ) → P.literal_eq s i ≡ true → P.literal_eq s j ≡ true → i ≡ j

module _ (P : Platform) (key : String) where
  -- Every prefix of an accepted list of lines is accepted too: lines cut from the end are not
  -- noticed.
  verify-take :
      (xs ys : List Line)
      → verify_lines P key 0 genesis_hash (xs ++ ys) ≡ ok []
      → verify_lines P key 0 genesis_hash xs ≡ ok []
  verify-take xs ys h =
      let (j, last, c) = IsChain-verify P key 0 genesis_hash (xs ++ ys) h in
      let (hash, front, back) = IsChain-split P key 0 genesis_hash xs ys j last c in
      verify-IsChain P key 0 genesis_hash xs (0 + length xs) hash front

  -- the number of the line at a cut of an accepted log
  number_at :
      (xs ys : List Line) (d : Dict Json)
      → verify_lines P key 0 genesis_hash (xs ++ dict d ∷ ys) ≡ ok []
      → seq_matches P (lookup "seq" (unsigned d)) (length xs) ≡ true
  number_at xs ys d h =
      let (j, last, c) = IsChain-verify P key 0 genesis_hash (xs ++ dict d ∷ ys) h in
      let (hash, front, (h', link, rest)) =
        IsChain-split P key 0 genesis_hash xs (dict d ∷ ys) j last c in
      let e : 0 + length xs ≡ length xs = omega arith in
      subst (λ k. seq_matches P (lookup "seq" (unsigned d)) k ≡ true) e link.numbered

  seq_unique :
      HasOneValue P
      → (v : Option Json) (i j : ℕ) → seq_matches P v i ≡ true
      → seq_matches P v j ≡ true
      → i ≡ j
  unfolding seq_matches
  seq_unique one (some (literal s)) i j a b = one s i j a b
  seq_unique one (some (num n)) i j a b = ground arith
  seq_unique one (some (bool v)) i j a b = ground arith
  seq_unique one _ i j a b = ground arith

  -- Two logs that the verifier accepts under one key have an entry that stands in both at the
  -- same place of both, if a number that is not written as a plain natural equals one natural
  -- at most.
  pub line_at_its_place :
      HasOneValue P
      → (xs xs' ys ys' : List Line) (d : Dict Json)
      → verify_lines P key 0 genesis_hash (xs ++ dict d ∷ ys) ≡ ok []
      → verify_lines P key 0 genesis_hash (xs' ++ dict d ∷ ys') ≡ ok []
      → length xs ≡ length xs'
  line_at_its_place one xs xs' ys ys' d a b =
      seq_unique one (lookup "seq" (unsigned d)) (length xs) (length xs') (number_at xs ys d a)
        (number_at xs' ys' d b)
