-- ===== src/Tracer/Run.antt =====
-- engine/tracer.py, a whole run: `init_run`, calls of `trace`, and the verifier on what they wrote.
use autonomy_engine.Base.{
  ℕ, ◌<◌, length, [], ◌+◌, String, ◌<>◌, ◌≡◌, refl, subst, Option, none, some, List, [], ◌∷◌, true,
  arith, or_default,
}
use autonomy_engine.Base.Dict.{lookup}
use autonomy_engine.World.{Platform, World, Line, ok, Exec, pure, ◌>>◌}
use autonomy_engine.Tracer.{genesis_hash, trace_file, TraceCall, init_run, trace}
use autonomy_engine.Tracer.Keys.{load_hmac_key}
use autonomy_engine.Tracer.Keys.Kept.{HasBase64, load-HasKey, HasKey-later}
use autonomy_engine.Tracer.Sound.{HasHexDigests, trace-IsOpen, trace_frame}
use autonomy_engine.Tracer.Verify.{verify_lines, verify_trace_integrity}
use autonomy_engine.Tracer.Verify.Chain.{IsChain, verify-IsChain}
use autonomy_engine.Tracer.Ready.{IsReady, init_run-IsReady, run_id_of, key_of}

-- The calls of `trace` that a run makes, in their order.
unfoldable pub trace_all : Platform → List TraceCall → Exec (Unit {0})
trace_all P [] = pure tt
trace_all P (c ∷ cs) = do trace P c; trace_all P cs

module _ (P : Platform) (hex : HasHexDigests P) (dir rid key : String) where
  trace-IsReady :
      (c : TraceCall) (w : World)
      → IsReady P dir rid key w
      → ((trace P c w).0 ≡ ok tt) × IsReady P dir rid key (trace P c w).1
  trace-IsReady c w r =
      let (done, o) = trace-IsOpen P dir rid c hex key w r.open_run in
      let f = trace_frame P dir rid c hex key w r.open_run in
      (
        done,
        record {
          open_run = o;
          has_key =
              HasKey-later P rid key (trace P c w).1 w f.env_same f.keys_same f.keyring_same
                r.has_key;
        },
      )

  trace_all-IsReady :
      (cs : List TraceCall) (w : World)
      → IsReady P dir rid key w
      → ((trace_all P cs w).0 ≡ ok tt) × IsReady P dir rid key (trace_all P cs w).1
  unfolding trace_all
  trace_all-IsReady [] w r = (refl, r)
  trace_all-IsReady (c ∷ cs) w r =
      let (done, r') = trace-IsReady c w r in rw done (trace_all-IsReady cs (trace P c w).1 r')

  seq-trace_all :
      (cs : List TraceCall) (w : World)
      → IsReady P dir rid key w
      → (trace_all P cs w).1.tracer.seq ≡ w.tracer.seq + length cs
  unfolding trace_all
  seq-trace_all [] w r = omega arith
  seq-trace_all (c ∷ cs) w r =
      let (done, r') = trace-IsReady c w r in
      let f = trace_frame P dir rid c hex key w r.open_run in
      rw done (omega (arith, f.counted, seq-trace_all cs (trace P c w).1 r'))

module _ (P : Platform) (dir rid key : String) where
  abbrev in_run : World → World
  in_run w = record w { project_dir = some dir; tracer = record w.tracer { run_id = some rid } }

  verify_lines_found :
      (u : World) (l : Line) (ls : List Line)
      → lookup (trace_file (dir <> "/state") rid) u.traces ≡ some (l ∷ ls)
      → load_hmac_key P rid (in_run u) ≡ (ok (some key), in_run u)
      → verify_lines P key 0 genesis_hash (l ∷ ls) ≡ ok []
      → (verify_trace_integrity P none none (in_run u)).0 ≡ ok (true, [])
  unfolding verify_trace_integrity
  verify_lines_found u l ls found k v = rw found (rw k (rw v))

  verify-IsReady :
      (u : World)
      → IsReady P dir rid key u
      → 0 < u.tracer.seq
      → (verify_trace_integrity P none none u).0 ≡ ok (true, [])
  verify-IsReady u r n =
      let o = r.open_run in
      let e : u ≡ in_run u = λ i. record u {
        project_dir = o.in_dir i;
        tracer = record u.tracer { run_id = o.in_run i };
      } in
      let k =
        subst (λ v. load_hmac_key P rid v ≡ (ok (some key), v)) e
          (load-HasKey P rid key u r.has_key) in
      rw e (go (lookup (trace_file (dir <> "/state") rid) u.traces) refl k o.chain)
    where
      go :
          (found : Option (List Line))
          → lookup (trace_file (dir <> "/state") rid) u.traces ≡ found
          → load_hmac_key P rid (in_run u) ≡ (ok (some key), in_run u)
          → IsChain P key 0 genesis_hash (or_default [] found) u.tracer.seq u.tracer.prev_hash
          → (verify_trace_integrity P none none (in_run u)).0 ≡ ok (true, [])
      go none f k c = absurd (omega (arith, c.0))
      go (some []) f k c = absurd (omega (arith, c.0))
      go (some (l ∷ ls)) f k c =
          verify_lines_found u l ls f k
            (verify-IsChain P key 0 genesis_hash (l ∷ ls) u.tracer.seq u.tracer.prev_hash c)

-- If `init_run` returns in a project where the trace file of the new run does not exist, then
-- after one or more calls of `trace` the function `verify_trace_integrity` says that the log
-- of the current run is intact and reports no error; for an HMAC whose signatures are ASCII,
-- and a base64 that decodes what it encodes of the generated keys.
pub verify-trace_all :
    (P : Platform)
    → HasHexDigests P
    → ((n : ℕ) → HasBase64 P (P.token_bytes n))
    → (dir : String) (w : World) (c : TraceCall) (cs : List TraceCall) {rid : String}
    → w.project_dir ≡ some dir
    → lookup (trace_file (dir <> "/state") (P.uuid_hex w.ticks)) w.traces ≡ none
    → (init_run P w).0 ≡ ok rid
    → (verify_trace_integrity P none none (trace_all P (c ∷ cs) (init_run P w).1).1).0
      ≡ ok (true, [])
verify-trace_all P hex base64 dir w c cs {rid} d new h =
    let r = init_run-IsReady P dir w rid (base64 (w.ticks + 1)) d new h in
    let (done, r') =
      trace_all-IsReady P hex dir (run_id_of P dir w) (key_of P dir w) (c ∷ cs) (init_run P w).1
        r in
    let n =
      seq-trace_all P hex dir (run_id_of P dir w) (key_of P dir w) (c ∷ cs) (init_run P w).1 r in
    verify-IsReady P dir (run_id_of P dir w) (key_of P dir w) _ r' (omega arith)
