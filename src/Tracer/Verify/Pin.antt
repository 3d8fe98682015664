-- ===== src/Tracer/Verify/Pin.antt =====
-- engine/tracer.py, two audit logs compared line by line.
use autonomy_engine.Base.{
  ℕ, ◌+◌, String, ◌≡◌, sym, refl, ◌∙◌, Option, none, some, List, [], ◌∷◌, arith, length, ◌==◌,
  eq_iff, Bool-cases, inl, inr,
}
use autonomy_engine.Base.Dict.{Dict, lookup, lookup-remove}
use autonomy_engine.World.Json.{Json, str}
use autonomy_engine.World.{Platform, Line, dict, invalid_json, other, ok}
use autonomy_engine.Tracer.{genesis_hash}
use autonomy_engine.Tracer.Verify.{verify_lines}
use autonomy_engine.Tracer.Verify.Chain.{unsigned, IsChain, IsChain-verify}

-- Equal as Python dicts: the order of the keys is not compared, and is not signed.
abbrev pub SameDict : Dict Json → Dict Json → Type 0
SameDict a b = (k : String) → lookup k a ≡ lookup k b

-- Two logs, line by line.
abbrev pub SameLines : List Line → List Line → Type 0
SameLines [] [] = Unit
SameLines (dict d ∷ ls) (dict e ∷ ms) = SameDict d e × SameLines ls ms
SameLines _ _ = ⊥

-- At no place of the two logs does HMAC take different entries to one signature.
abbrev pub IsCollisionFree : Platform → String → List Line → List Line → Type 0
IsCollisionFree P key (dict d ∷ ls) (dict e ∷ ms) =
    (P.hmac_hex key (unsigned d) ≡ P.hmac_hex key (unsigned e) → SameDict (unsigned d) (unsigned e))
    × IsCollisionFree P key ls ms
IsCollisionFree P key _ _ = Unit

-- the signature of the last line, or `before` for no line
abbrev pub last_hash : Option Json → List Line → Option Json
last_hash before [] = before
last_hash before (dict d ∷ ls) = last_hash (lookup "entry_hash" d) ls
last_hash before (_ ∷ ls) = none

abbrev pub genesis : Option Json
genesis = some (str genesis_hash)

same_with_hash :
    (d e : Dict Json) (h : String)
    → SameDict (unsigned d) (unsigned e)
    → lookup "entry_hash" d ≡ some (str h)
    → lookup "entry_hash" e ≡ some (str h)
    → SameDict d e
same_with_hash d e h same p q k = elim (Bool-cases ("entry_hash" == k)) [
  | inl at ↦ ground (arith, eq_iff "entry_hash" k, at)
  | inr off ↦
      ground (arith, same k, lookup-remove k "entry_hash" d, lookup-remove k "entry_hash" e, off)
]

str_injective : (s t : String) → some (str s) ≡ some (str t) → s ≡ t
str_injective s t h = cc

module _ (P : Platform) (key : String) where
  pin_chains :
      (i : ℕ) (p q : String) (ls ms : List Line) (j k : ℕ) (last : String)
      → length ls ≡ length ms
      → IsCollisionFree P key ls ms
      → IsChain P key i p ls j last
      → IsChain P key i q ms k last
      → SameLines ls ms × (p ≡ q)
  pin_chains i p q [] [] j k last n free a b = (tt, a.1 ∙ sym b.1)
  pin_chains i p q (dict d ∷ ls) (dict e ∷ ms) j k last n free (h, l, a) (h', l', b) =
      let (same, hashes) = pin_chains (i + 1) h h' ls ms j k last (omega arith) free.1 a b in
      let entries : SameDict (unsigned d) (unsigned e) =
        free.0 (l.signed ∙ hashes ∙ sym l'.signed) in
      let stored : lookup "entry_hash" e ≡ some (str h) = rw hashes l'.stored in
      (
        (same_with_hash d e h entries l.stored stored, same),
        str_injective p q (sym l.linked ∙ entries "prev_hash" ∙ l'.linked),
      )
  pin_chains i p q [] (m ∷ ms) j k last n free a b = absurd (omega arith)
  pin_chains i p q (l ∷ ls) [] j k last n free a b = absurd (omega arith)
  pin_chains i p q (invalid_json l ∷ ls) ms j k last n free a b = absurd a
  pin_chains i p q (other l ∷ ls) ms j k last n free a b = absurd a
  pin_chains i p q ls (invalid_json l ∷ ms) j k last n free a b = absurd b
  pin_chains i p q ls (other l ∷ ms) j k last n free a b = absurd b

  last-IsChain :
      (i : ℕ) (p : String) (o : Option Json) (ls : List Line) (j : ℕ) (last : String)
      → o ≡ some (str p)
      → IsChain P key i p ls j last
      → last_hash o ls ≡ some (str last)
  last-IsChain i p o [] j last e c = rw (← c.1) e
  last-IsChain i p o (dict d ∷ ls) j last e (h, l, c) =
      last-IsChain (i + 1) h (lookup "entry_hash" d) ls j last l.stored c
  last-IsChain i p o (invalid_json m ∷ ls) j last e c = absurd c
  last-IsChain i p o (other v ∷ ls) j last e c = absurd c

  -- Two accepted logs of one length whose last signatures are equal have the same entries at
  -- every place, up to the order of the keys, if HMAC takes no two different entries at one
  -- place to one signature.
  pub same_last-SameLines :
      (ls ms : List Line)
      → IsCollisionFree P key ls ms
      → verify_lines P key 0 genesis_hash ls ≡ ok []
      → verify_lines P key 0 genesis_hash ms ≡ ok []
      → length ls ≡ length ms
      → last_hash genesis ls ≡ last_hash genesis ms
      → SameLines ls ms
  same_last-SameLines ls ms free a b n e =
      let (j, last, c) = IsChain-verify P key 0 genesis_hash ls a in
      let (k, last', c') = IsChain-verify P key 0 genesis_hash ms b in
      let lasts : some (str last) ≡ some (str last') =
        sym (last-IsChain 0 genesis_hash genesis ls j last refl c)
        ∙ e
        ∙ last-IsChain 0 genesis_hash genesis ms k last' refl c' in
      let d : IsChain P key 0 genesis_hash ms k last = rw (str_injective last last' lasts) c' in
      (pin_chains 0 genesis_hash genesis_hash ls ms j k last n free c d).0
