-- ===== src/Tracer/Verify/Chain.antt =====
-- engine/tracer.py, the audit log as a chain of signed lines, and the verifier against it.
use autonomy_engine.Tracer.{genesis_hash}
use autonomy_engine.Base.{
  length, suc, subst, ◌++◌, ap, ℕ, ◌+◌, String, ◌≡◌, refl, Option, some, List, [], ◌∷◌, true,
  eq_iff, eq_refl, arith, ◌↔◌,
}
use autonomy_engine.Base.Dict.{Dict, lookup, remove}
use autonomy_engine.World.Json.{Json, num, str}
use autonomy_engine.World.{Platform, Line, dict, invalid_json, other, ok}
use autonomy_engine.Tracer.Verify.{
  is_ascii, Checked, seq_matches, prev_value_errors, check_entry, verify_lines, after,
}

-- the entry of a line, without its signature
abbrev pub unsigned : Dict Json → Dict Json
unsigned d = remove "entry_hash" d

-- Line `i` of a chain whose last signature is `prev`: it is signed by `hash`.
pub record IsLink (P : Platform) (key : String) (i : ℕ) (prev : String) (d : Dict Json)
    (hash : String) : Type 0 where
  pub stored : lookup "entry_hash" d ≡ some (str hash)
  pub numbered : seq_matches P (lookup "seq" (unsigned d)) i ≡ true
  pub linked : lookup "prev_hash" (unsigned d) ≡ some (str prev)
  pub ascii : is_ascii hash ≡ true
  pub signed : P.hmac_hex key (unsigned d) ≡ hash

-- From number `i` and signature `prev` the lines lead to number `j` and signature `last`.
abbrev pub IsChain : Platform → String → ℕ → String → List Line → ℕ → String → Type 0
IsChain P key i prev [] j last = (i ≡ j) × (prev ≡ last)
IsChain P key i prev (dict d ∷ ls) j last =
    (hash : String) × IsLink P key i prev d hash × IsChain P key (i + 1) hash ls j last
IsChain P key i prev (invalid_json m ∷ ls) j last = ⊥
IsChain P key i prev (other v ∷ ls) j last = ⊥

pub seq_matches-num : (P : Platform) (n : ℕ) → seq_matches P (some (num n)) n ≡ true
unfolding seq_matches
seq_matches-num P n = ground arith

module _ (P : Platform) (key : String) where
  check-link :
      (i : ℕ) (prev : String) (d : Dict Json) (hash : String)
      → IsLink P key i prev d hash
      → check_entry P key i prev (unsigned d) hash ≡ ok []
  unfolding check_entry
  check-link i prev d hash l = ground (arith, eq_refl prev, eq_refl hash)

  prev_value-ok :
      (i : ℕ) (prev : String) (o : Option Json)
      → prev_value_errors P i prev o ≡ ok []
      → o ≡ some (str prev)
  unfolding prev_value_errors
  prev_value-ok i prev (some (str s)) h = ground (arith, eq_iff s prev)
  prev_value-ok i prev _ h = ground arith

  -- The converse: a line that adds no error is a link.
  check-ok :
      (i : ℕ) (prev : String) (d : Dict Json) (hash : String)
      → lookup "entry_hash" d ≡ some (str hash)
      → check_entry P key i prev (unsigned d) hash ≡ ok []
      → IsLink P key i prev d hash
  unfolding check_entry
  check-ok i prev d hash s h = record {
    stored = s;
    numbered = ground arith;
    linked = prev_value-ok i prev (lookup "prev_hash" (unsigned d)) (ground arith);
    ascii = ground arith;
    signed = ground (arith, eq_iff (P.hmac_hex key (unsigned d)) hash);
  }

  after-ok : (a b : Checked) → after P a b ≡ ok [] → (a ≡ ok []) × (b ≡ ok [])
  unfolding after
  after-ok (ok []) (ok []) h = (refl, refl)
  after-ok _ _ h = ground arith

  -- The verifier has nothing to report of a chain.
  pub verify-IsChain :
      (i : ℕ) (prev : String) (ls : List Line) (j : ℕ) (last : String)
      → IsChain P key i prev ls j last
      → verify_lines P key i prev ls ≡ ok []
  unfolding verify_lines
  verify-IsChain i prev [] j last c = refl
  verify-IsChain i prev (dict d ∷ ls) j last (hash, l, c) =
      ground (arith, l.stored, check-link i prev d hash l, verify-IsChain (i + 1) hash ls j last c)
  verify-IsChain i prev (invalid_json m ∷ ls) j last c = absurd c
  verify-IsChain i prev (other v ∷ ls) j last c = absurd c

  abbrev Leads : ℕ → String → List Line → Type 0
  Leads i prev ls = (j : ℕ) × (last : String) × IsChain P key i prev ls j last

  stored_link :
      (i : ℕ) (prev : String) (d : Dict Json) (ls : List Line)
      → ((hash : String) → verify_lines P key (i + 1) hash ls ≡ ok [] → Leads (i + 1) hash ls)
      → (o : Option Json) → lookup "entry_hash" d ≡ o
      → verify_lines P key i prev (dict d ∷ ls) ≡ ok []
      → Leads i prev (dict d ∷ ls)
  unfolding verify_lines
  stored_link i prev d ls rest (some (str hash)) s h =
      let both : (check_entry P key i prev (unsigned d) hash ≡ ok [])
          × (verify_lines P key (i + 1) hash ls ≡ ok []) =
        after-ok _ _ (ground arith) in
      let (j, last, c) = rest hash both.1 in (j, last, (hash, check-ok i prev d hash s both.0, c))
  stored_link i prev d ls rest _ s h = absurd (ground arith)

  -- What the verifier accepts is a chain.
  pub IsChain-verify :
      (i : ℕ) (prev : String) (ls : List Line)
      → verify_lines P key i prev ls ≡ ok []
      → (j : ℕ) × (last : String) × IsChain P key i prev ls j last
  IsChain-verify i prev [] h = (i, prev, (refl, refl))
  IsChain-verify i prev (dict d ∷ ls) h =
      stored_link i prev d ls (λ hash. IsChain-verify (i + 1) hash ls) (lookup "entry_hash" d) refl
        h
  IsChain-verify i prev (invalid_json m ∷ ls) h = absurd (unfold verify_lines in ground arith)
  IsChain-verify i prev (other v ∷ ls) h = absurd (unfold verify_lines in ground arith)

  -- A chain is cut at any line.
  pub IsChain-split :
      (i : ℕ) (prev : String) (xs ys : List Line) (j : ℕ) (last : String)
      → IsChain P key i prev (xs ++ ys) j last
      → (hash : String) × IsChain P key i prev xs (i + length xs) hash
        × IsChain P key (i + length xs) hash ys j last
  IsChain-split i prev [] ys j last c =
      let e : i ≡ i + 0 = omega arith in
      (prev, (e, refl), subst (λ k. IsChain P key k prev ys j last) e c)
  IsChain-split i prev (dict d ∷ xs) ys j last (h, l, c) =
      let (hash, a, b) = IsChain-split (i + 1) h xs ys j last c in
      let e : i + 1 + length xs ≡ i + suc (length xs) = omega arith in
      (
        hash,
        (h, l, subst (λ k. IsChain P key (i + 1) h xs k hash) e a),
        subst (λ k. IsChain P key k hash ys j last) e b,
      )
  IsChain-split i prev (invalid_json m ∷ xs) ys j last c = absurd c
  IsChain-split i prev (other v ∷ xs) ys j last c = absurd c

  -- One more link makes the chain longer.
  pub IsChain-append :
      (i : ℕ) (prev : String) (xs : List Line) (j : ℕ) (last : String) (d : Dict Json)
      (hash : String)
      → IsChain P key i prev xs j last
      → IsLink P key j last d hash
      → IsChain P key i prev (xs ++ dict d ∷ []) (j + 1) hash
  IsChain-append i prev [] j last d hash c l =
      (hash, rw c.0 (rw c.1 l), (ap (λ k. k + 1) c.0, refl))
  IsChain-append i prev (dict e ∷ xs) j last d hash (h, k, c) l =
      (h, k, IsChain-append (i + 1) h xs j last d hash c l)
  IsChain-append i prev (invalid_json m ∷ xs) j last d hash c l = absurd c
  IsChain-append i prev (other v ∷ xs) j last d hash c l = absurd c

  -- The verifier reports nothing of a list of lines exactly if the lines are a chain: each is
  -- a dict that holds its place as "seq", the signature before it as "prev_hash" and its own
  -- ASCII signature, which is the HMAC of the entry without it.
  pub verify_iff :
      (ls : List Line)
      → (verify_lines P key 0 genesis_hash ls ≡ ok [])
        ↔ ((j : ℕ) × (last : String) × IsChain P key 0 genesis_hash ls j last)
  verify_iff ls =
      (IsChain-verify 0 genesis_hash ls, λ (j, last, c). verify-IsChain 0 genesis_hash ls j last c)
