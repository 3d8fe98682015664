-- ===== src/Tracer/Sound.antt =====
-- engine/tracer.py, `trace`: what one call does to an open run and its log.
use autonomy_engine.Base.{
  ℕ, ◌+◌, String, ◌<>◌, ◌≡◌, subst, refl, sym, some, List, [], ◌∷◌, ◌++◌, true, false, arith,
  eq_refl, or_default,
}
use autonomy_engine.Base.Dict.{Dict, lookup, insert, has_key, lookup-insert, remove-insert}
use autonomy_engine.World.Json.{Json, num, str}
use autonomy_engine.World.{Platform, World, Line, dict, ok}
use autonomy_engine.Tracer.{
  genesis_hash, trace_file, TraceCall, entry_of, append_line, advance_chain, hash_all,
  compute_entry_hmac, trace,
}
use autonomy_engine.Tracer.Verify.{is_ascii}
use autonomy_engine.Tracer.Verify.Chain.{seq_matches-num, unsigned, IsLink, IsChain, IsChain-append}

-- A digest in hexadecimal digits is ASCII text.
abbrev pub HasHexDigests : Platform → Type 0
HasHexDigests P = (key : String) (entry : Dict Json) → is_ascii (P.hmac_hex key entry) ≡ true

abbrev pub log_of : String → String → World → List Line
log_of dir rid w = or_default [] (lookup (trace_file (dir <> "/state") rid) w.traces)

-- The run `rid` of the project `dir` is open, and its log is a chain that ends at the tracer's state.
pub record IsOpen (P : Platform) (dir rid key : String) (w : World) : Type 0 where
  pub in_dir : w.project_dir ≡ some dir
  pub in_run : w.tracer.run_id ≡ some rid
  pub with_key : w.tracer.hmac_key ≡ key
  pub chain : IsChain P key 0 genesis_hash (log_of dir rid w) w.tracer.seq w.tracer.prev_hash

-- `v` has one entry more in its log than `w`, and has the same files, keys and environment.
pub record SameButLog (v w : World) : Type 0 where
  pub counted : v.tracer.seq ≡ w.tracer.seq + 1
  pub env_same : v.env ≡ w.env
  pub keys_same : v.keys ≡ w.keys
  pub keyring_same : v.keyring ≡ w.keyring
  pub files_same : v.files ≡ w.files
  pub decisions_same : v.decisions ≡ w.decisions
  pub gates_same : v.pending_gates ≡ w.pending_gates
  pub statuses_same : v.statuses ≡ w.statuses

module _ (c : TraceCall) (seq : ℕ) (timestamp prev : String) (inputs outputs : Dict Json) where
  entry_fresh : has_key "entry_hash" (entry_of c seq timestamp prev inputs outputs) ≡ false
  unfolding entry_of has_key
  entry_fresh = ground arith

  entry_seq : lookup "seq" (entry_of c seq timestamp prev inputs outputs) ≡ some (num seq)
  unfolding entry_of lookup
  entry_seq = ground arith

  entry_prev : lookup "prev_hash" (entry_of c seq timestamp prev inputs outputs) ≡ some (str prev)
  unfolding entry_of lookup
  entry_prev = ground arith

module _ (P : Platform) (hex : HasHexDigests P) (key : String) where
  signed-IsLink :
      (c : TraceCall) (seq : ℕ) (timestamp prev : String) (inputs outputs : Dict Json)
      → let entry = entry_of c seq timestamp prev inputs outputs in
        IsLink P key seq prev
          (insert "entry_hash" (str (compute_entry_hmac P entry key)) entry)
          (compute_entry_hmac P entry key)
  unfolding compute_entry_hmac
  signed-IsLink c seq timestamp prev inputs outputs =
      let entry = entry_of c seq timestamp prev inputs outputs in
      let hash = P.hmac_hex key entry in
      let popped : unsigned (insert "entry_hash" (str hash) entry) ≡ entry =
        remove-insert "entry_hash" (str hash) entry
          (entry_fresh c seq timestamp prev inputs outputs) in
      record {
        stored = lookup-insert "entry_hash" "entry_hash" (str hash) entry;
        numbered =
            rw (popped, entry_seq c seq timestamp prev inputs outputs) (seq_matches-num P seq);
        linked = rw popped (entry_prev c seq timestamp prev inputs outputs);
        ascii = hex key entry;
        signed = rw popped refl;
      }

module _ (P : Platform) (dir rid : String) (c : TraceCall) where
  abbrev opened : World → World
  opened w = record w { project_dir = some dir; tracer = record w.tracer { run_id = some rid } }

  opened_lem : (w : World) → w.project_dir ≡ some dir → w.tracer.run_id ≡ some rid → w ≡ opened w
  opened_lem w d r = λ i. record w { project_dir = d i; tracer = record w.tracer { run_id = r i } }

  hashes_of : List String → World → Dict Json
  hashes_of paths w = hash_all P (dir <> "/state") c.external_base paths w []

  -- the entry that this call signs
  entry_at : World → Dict Json
  unfolding hashes_of
  entry_at w =
      entry_of c w.tracer.seq (P.timestamp w.ticks) w.tracer.prev_hash (hashes_of c.inputs w)
        (hashes_of c.outputs w)

  hash_at : World → String
  unfolding entry_at
  hash_at w = compute_entry_hmac P (entry_at w) w.tracer.hmac_key

  traced : World → World
  unfolding hash_at
  traced w = advance_chain (hash_at w) (
      append_line (trace_file (dir <> "/state") rid)
        (dict (insert "entry_hash" (str (hash_at w)) (entry_at w)))
        (record w { ticks = w.ticks + 1 }))

  trace-opened : (w : World) → trace P c (opened w) ≡ (ok tt, traced (opened w))
  unfolding trace traced
  trace-opened w = refl

  log-traced :
      (w : World)
      → log_of dir rid (traced w)
        ≡ log_of dir rid w ++ dict (insert "entry_hash" (str (hash_at w)) (entry_at w)) ∷ []
  unfolding traced append_line advance_chain
  log-traced w =
      let path = trace_file (dir <> "/state") rid in
      rw (lookup-insert path path) (rw (eq_refl path))

  module _ (hex : HasHexDigests P) (key : String) (w : World) where
    traced-IsLink :
        w.tracer.hmac_key ≡ key
        → IsLink P key w.tracer.seq w.tracer.prev_hash
            (insert "entry_hash" (str (hash_at w)) (entry_at w))
            (hash_at w)
    unfolding hash_at
    traced-IsLink e =
        subst
          (λ k.
            IsLink P k w.tracer.seq w.tracer.prev_hash
              (insert "entry_hash" (str (hash_at w)) (entry_at w)) (hash_at w))
          e
          (signed-IsLink P hex w.tracer.hmac_key c w.tracer.seq (P.timestamp w.ticks)
            w.tracer.prev_hash (hashes_of c.inputs w) (hashes_of c.outputs w))

    traced-IsOpen : IsOpen P dir rid key w → IsOpen P dir rid key (traced w)
    unfolding traced append_line advance_chain
    traced-IsOpen o = record {
      in_dir = o.in_dir;
      in_run = o.in_run;
      with_key = o.with_key;
      chain = rw (log-traced w) (
          IsChain-append P key 0 genesis_hash (log_of dir rid w) w.tracer.seq w.tracer.prev_hash
            (insert "entry_hash" (str (hash_at w)) (entry_at w)) (hash_at w) o.chain
            (traced-IsLink o.with_key));
    }

    trace-eq : IsOpen P dir rid key w → trace P c w ≡ (ok tt, traced w)
    trace-eq o =
        let e : w ≡ opened w = opened_lem w o.in_dir o.in_run in
        subst (λ v. trace P c v ≡ (ok tt, traced v)) (sym e) (trace-opened w)

    pub trace-IsOpen :
        IsOpen P dir rid key w → ((trace P c w).0 ≡ ok tt) × IsOpen P dir rid key (trace P c w).1
    trace-IsOpen o = rw (trace-eq o) (refl, traced-IsOpen o)

    -- `trace` changes the log and the tracer's variables, and nothing else but the clock.
    pub trace_frame : IsOpen P dir rid key w → SameButLog (trace P c w).1 w
    unfolding traced append_line advance_chain
    trace_frame o = rw (trace-eq o) (record {
      counted = refl;
      env_same = refl;
      keys_same = refl;
      keyring_same = refl;
      files_same = refl;
      decisions_same = refl;
      gates_same = refl;
      statuses_same = refl;
    })
