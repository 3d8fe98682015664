-- ===== src/Tracer/Ready.antt =====
-- engine/tracer.py, `init_run`: the run that it opens.
use autonomy_engine.Base.{
  ◌+◌, String, ◌<>◌, ◌≡◌, refl, sym, ap, ◌∙◌, subst, Option, none, some, Option-cases, inl, inr,
}
use autonomy_engine.Base.Dict.{lookup}
use autonomy_engine.World.{
  Platform, World, TracerState, Result, ok, raise, Exec, pure, modify, continue, ◌>>=◌, ◌>>◌,
}
use autonomy_engine.Context.{get_config_path}
use autonomy_engine.Tracer.{trace_file, run_dir, init_run, set_run, set_key, snapshot_config}
use autonomy_engine.Tracer.Keys.{write_hmac_key}
use autonomy_engine.Tracer.Keys.Kept.{HasKey, SameButKeys, HasBase64, write-HasKey, HasKey-later}
use autonomy_engine.Tracer.Sound.{IsOpen}

-- an open run whose key can be loaded
pub record IsReady (P : Platform) (dir rid key : String) (w : World) : Type 0 where
  pub open_run : IsOpen P dir rid key w
  pub has_key : HasKey P rid key w

-- The world of `init_run` in the project `dir` before it writes the key.
module _ (P : Platform) (dir : String) where
  abbrev in_project : World → World
  in_project w = record w { project_dir = some dir }

  abbrev pub run_id_of : World → String
  run_id_of w = P.uuid_hex w.ticks

  abbrev pub key_of : World → String
  key_of w = P.token_bytes (w.ticks + 1)

  keyless : World → World
  unfolding set_run set_key
  keyless w =
      set_key (key_of w) (record (set_run (run_id_of w) (in_project w)) { ticks = w.ticks + 1 + 1 })

  keyless_dir : (w : World) → (keyless w).project_dir ≡ some dir
  unfolding keyless
  keyless_dir w = refl

  rest_of_init : String → Option String → Exec String
  unfolding get_config_path snapshot_config
  rest_of_init rid o = do
    config ← get_config_path P
    modify (snapshot_config config (run_dir (dir <> "/state") rid <> "/config_snapshot.yml"))
    pure rid

  init_run-in_project :
      (w : World)
      → init_run P (in_project w)
        ≡ (write_hmac_key P (run_id_of w) (key_of w) >>= rest_of_init (run_id_of w)) (keyless w)
  unfolding init_run keyless rest_of_init
  init_run-in_project w = refl

  -- `v` has what `w` had, but for files.
  record SameButFiles (v w : World) : Type 0 where
    dir_same : v.project_dir ≡ w.project_dir
    tracer_same : v.tracer ≡ w.tracer
    traces_same : v.traces ≡ w.traces
    env_same : v.env ≡ w.env
    keys_same : v.keys ≡ w.keys
    keyring_same : v.keyring ≡ w.keyring

  snapshot_same : (config to : String) (w : World) → SameButFiles (snapshot_config config to w) w
  unfolding snapshot_config
  snapshot_same config to w = elim (Option-cases (lookup config w.files)) [
    | inl absent ↦ rw absent (record {
      dir_same = refl;
      tracer_same = refl;
      traces_same = refl;
      env_same = refl;
      keys_same = refl;
      keyring_same = refl;
    })
    | inr (content, found) ↦ rw found (record {
      dir_same = refl;
      tracer_same = refl;
      traces_same = refl;
      env_same = refl;
      keys_same = refl;
      keyring_same = refl;
    })
  ]

  rest_same :
      (rid : String) (o : Option String) (v : World)
      → v.project_dir ≡ some dir
      → SameButFiles (rest_of_init rid o v).1 v
  unfolding rest_of_init
  rest_same rid o v d =
      let e : v ≡ in_project v = λ i. record v { project_dir = d i } in
      subst (λ u. SameButFiles (rest_of_init rid o u).1 u) (sym e)
        (snapshot_same _ (run_dir (dir <> "/state") rid <> "/config_snapshot.yml") (in_project v))

  start-IsReady :
      (w v u : World)
      → lookup (trace_file (dir <> "/state") (run_id_of w)) w.traces ≡ none
      → HasKey P (run_id_of w) (key_of w) v
      → SameButKeys v (keyless w)
      → SameButFiles u v
      → IsReady P dir (run_id_of w) (key_of w) u
  unfolding keyless
  start-IsReady w v u new k a b = record {
    open_run = record {
      in_dir = b.dir_same ∙ a.dir;
      in_run = ap (λ (t : TracerState). t.run_id) (b.tracer_same ∙ a.tracer);
      with_key = ap (λ (t : TracerState). t.hmac_key) (b.tracer_same ∙ a.tracer);
      chain =
          rw
            (ap (λ ts. lookup (trace_file (dir <> "/state") (run_id_of w)) ts)
                (b.traces_same ∙ a.traces)
              ∙ new)
            (
              sym (ap (λ (t : TracerState). t.seq) (b.tracer_same ∙ a.tracer)),
              sym (ap (λ (t : TracerState). t.prev_hash) (b.tracer_same ∙ a.tracer)),
            );
    };
    has_key = HasKey-later P (run_id_of w) (key_of w) u v b.env_same b.keys_same b.keyring_same k;
  }

  started :
      (w : World) (r : Result (Option String)) (v : World) (rid : String)
      → (continue r (rest_of_init (run_id_of w)) v).0 ≡ ok rid
      → (o : Option String) × (r ≡ ok o)
  started w (ok o) v rid h = (o, refl)
  started w (raise e) v rid h = cc

  in_project-IsReady :
      (w : World) (rid : String)
      → HasBase64 P (key_of w)
      → lookup (trace_file (dir <> "/state") (run_id_of w)) w.traces ≡ none
      → (init_run P (in_project w)).0 ≡ ok rid
      → IsReady P dir (run_id_of w) (key_of w) (init_run P (in_project w)).1
  in_project-IsReady w rid base64 new h =
      let W = write_hmac_key P (run_id_of w) (key_of w) (keyless w) in
      let e = init_run-in_project w in
      let h' : (continue W.0 (rest_of_init (run_id_of w)) W.1).0 ≡ ok rid = rw e at h in
      let (o, wrote) = started w W.0 W.1 rid h' in
      let (k, same) = write-HasKey P (run_id_of w) (key_of w) (keyless w) o base64 wrote in
      let in_dir : W.1.project_dir ≡ some dir = same.dir ∙ keyless_dir w in
      rw (e, wrote)
        (start-IsReady w W.1 (rest_of_init (run_id_of w) o W.1).1 new k same
          (rest_same (run_id_of w) o W.1 in_dir))

  pub init_run-IsReady :
      (w : World) (rid : String)
      → HasBase64 P (key_of w)
      → w.project_dir ≡ some dir
      → lookup (trace_file (dir <> "/state") (run_id_of w)) w.traces ≡ none
      → (init_run P w).0 ≡ ok rid
      → IsReady P dir (run_id_of w) (key_of w) (init_run P w).1
  init_run-IsReady w rid base64 d new h =
      let e : w ≡ in_project w = λ i. record w { project_dir = d i } in
      subst (λ u. IsReady P dir (run_id_of w) (key_of w) (init_run P u).1) (sym e)
        (in_project-IsReady w rid base64 new (subst (λ u. (init_run P u).0 ≡ ok rid) e h))
