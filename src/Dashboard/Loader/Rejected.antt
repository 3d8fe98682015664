-- ===== src/Dashboard/Loader/Rejected.antt =====
-- dashboard/data_loader.py against engine/tracer.py: the verifier of the dashboard has no key.
use autonomy_engine.Base.{
  ℕ, zero, suc, ◌+◌, String, ◌≡◌, refl, some, List, [], ◌∷◌, false, ◌==◌, length, arith, eq_refl,
}
use autonomy_engine.Base.Dict.{Dict, lookup}
use autonomy_engine.World.Json.{Json}
use autonomy_engine.World.{Platform, World, Line, dict, invalid_json, other, ok}
use autonomy_engine.Tracer.{genesis_hash, trace_file}
use autonomy_engine.Tracer.Verify.{verify_lines}
use autonomy_engine.Tracer.Verify.Chain.{unsigned, IsLink, IsChain, IsChain-verify}
use autonomy_engine.Dashboard.Loader.{
  LoaderError, hash_mismatch, link_errors, line_errors, replay, state_of, verify_unkeyed,
}

-- a mismatch of each of `n` lines, from line `i`
unfoldable pub mismatches : ℕ → ℕ → List LoaderError
mismatches i zero = []
mismatches i (suc n) = hash_mismatch i ∷ mismatches (i + 1) n

module _ (P : Platform) (canonical : Dict Json → String) (key : String) where
  -- The plain hash of an entry is not its signature under the key.
  abbrev pub Differs : Line → Type 0
  Differs (dict d) = (P.sha256_hex (canonical (unsigned d)) == P.hmac_hex key (unsigned d)) ≡ false
  Differs _ = Unit

  abbrev pub AllDiffer : List Line → Type 0
  AllDiffer [] = Unit
  AllDiffer (l ∷ ls) = Differs l × AllDiffer ls

  line_rejected :
      (i : ℕ) (prev : String) (d : Dict Json) (hash : String)
      → IsLink P key i prev d hash
      → Differs (dict d)
      → line_errors P canonical i prev (unsigned d) hash ≡ ok (hash_mismatch i ∷ [])
  unfolding line_errors link_errors
  line_rejected i prev d hash l differs = ground (arith, l.linked, l.signed, eq_refl prev)

  replay-mismatches :
      (i : ℕ) (prev : String) (ls : List Line) (j : ℕ) (last : String)
      → IsChain P key i prev ls j last
      → AllDiffer ls
      → replay P canonical i prev ls ≡ ok (mismatches i (length ls))
  unfolding replay mismatches
  replay-mismatches i prev [] j last c h = refl
  replay-mismatches i prev (dict d ∷ ls) j last (hash, l, c) (h, hs) = ground (
    arith,
    l.stored,
    line_rejected i prev d hash l h,
    replay-mismatches (i + 1) hash ls j last c hs,
  )
  replay-mismatches i prev (invalid_json m ∷ ls) j last c h = absurd c
  replay-mismatches i prev (other v ∷ ls) j last c h = absurd c

  -- A log with a line at least that the engine's verifier accepts under a key, and no entry
  -- of which has its plain SHA-256 as its signature, is called invalid by the verifier of the
  -- dashboard, which reports a hash mismatch for each line and nothing else.
  pub accepted_rejected :
      (project run_id : String) (w : World) (l : Line) (ls : List Line)
      → lookup (trace_file (state_of project) run_id) w.traces ≡ some (l ∷ ls)
      → verify_lines P key 0 genesis_hash (l ∷ ls) ≡ ok []
      → AllDiffer (l ∷ ls)
      → verify_unkeyed P canonical project run_id w ≡ ok (false, mismatches 0 (length (l ∷ ls)))
  unfolding verify_unkeyed mismatches
  accepted_rejected project run_id w l ls there accepted differ =
      let (j, last, c) = IsChain-verify P key 0 genesis_hash (l ∷ ls) accepted in
      rw (there, replay-mismatches 0 genesis_hash (l ∷ ls) j last c differ) refl
