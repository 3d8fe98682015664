-- ===== src/Tracer/Keys/Kept.antt =====
-- engine/tracer.py, the key files: where a key is looked for, after it was written and later.
use autonomy_engine.Base.{
  String, ◌≡◌, refl, ap, Option, some, [], or_default, true, arith, Bool-cases, inl, inr,
}
use autonomy_engine.Base.Dict.{lookup, has_key, lookup-insert_self}
use autonomy_engine.World.{Platform, World, continue, Result, ok, raise}
use autonomy_engine.Tracer.Keys.{
  KeyLocation, directory, keyring, key_path, key_location, write_at, write_hmac_key, load_file,
  load_at, load_hmac_key,
}

-- where the environment says that keys are
pub location_of : Platform → World → Result KeyLocation
location_of P w = key_location P (P.strip (or_default "" (lookup "AE_TRACE_KEY_DIR" w.env)))

-- What base64 encodes, it decodes.
abbrev pub HasBase64 : Platform → String → Type 0
HasBase64 P key = P.b64decode (P.b64encode key) ≡ some key

abbrev pub KeyAt : Platform → String → String → Result KeyLocation → World → Type 0
KeyAt P rid key (ok (directory dir)) w = lookup (key_path dir rid) w.keys ≡ some key
KeyAt P rid key (ok (keyring service)) w =
    (P.keyring_installed ≡ true)
    × (lookup rid (or_default [] (lookup service w.keyring)) ≡ some (P.b64encode key))
KeyAt P rid key (raise e) w = ⊥

-- The key of a run is where it will be looked for.
pub record HasKey (P : Platform) (rid key : String) (w : World) : Type 0 where
  pub at : KeyAt P rid key (location_of P w) w
  pub decodes : HasBase64 P key

-- `v` has what `w` had, but for keys.
pub record SameButKeys (v w : World) : Type 0 where
  pub dir : v.project_dir ≡ w.project_dir
  pub tracer : v.tracer ≡ w.tracer
  pub traces : v.traces ≡ w.traces
  pub env : v.env ≡ w.env

module _ (P : Platform) (rid key : String) where
  write_at-KeyAt :
      (loc : KeyLocation) (w : World) (o : Option String)
      → (write_at P loc rid key w).0 ≡ ok o
      → KeyAt P rid key (ok loc) (write_at P loc rid key w).1
        × SameButKeys (write_at P loc rid key w).1 w
  unfolding write_at
  write_at-KeyAt (directory dir) w o h = elim (Bool-cases (has_key (key_path dir rid) w.keys)) [
    | inl old ↦ absurd (ground arith)
    | inr new ↦ rw new (
      lookup-insert_self (key_path dir rid) key w.keys,
      record { dir = refl; tracer = refl; traces = refl; env = refl },
    )
  ]
  write_at-KeyAt (keyring service) w o h = elim (Bool-cases P.keyring_installed) [
    | inl here ↦ rw here (
      (
        refl,
        rw (lookup-insert_self service _ w.keyring) (lookup-insert_self rid (P.b64encode key) _),
      ),
      record { dir = refl; tracer = refl; traces = refl; env = refl },
    )
    | inr missing ↦ absurd (ground arith)
  ]

  load-KeyAt :
      (loc : KeyLocation) (w : World)
      → HasBase64 P key
      → KeyAt P rid key (ok loc) w
      → load_at P loc rid w ≡ (ok (some key), w)
  unfolding load_at
  load-KeyAt (directory dir) w b h = rw (h, load_file)
  load-KeyAt (keyring service) w b h = rw (h.0) (rw (h.1, b) refl)

  load_from :
      (r : Result KeyLocation) (w : World)
      → HasBase64 P key
      → KeyAt P rid key r w
      → continue r (λ loc. load_at P loc rid) w ≡ (ok (some key), w)
  load_from (ok loc) w b h = load-KeyAt loc w b h
  load_from (raise e) w b h = absurd h

  pub load-HasKey : (w : World) → HasKey P rid key w → load_hmac_key P rid w ≡ (ok (some key), w)
  unfolding load_hmac_key location_of
  load-HasKey w h = load_from (location_of P w) w h.decodes h.at

  write_from :
      (r : Result KeyLocation) (w : World) (o : Option String)
      → (continue r (λ loc. write_at P loc rid key) w).0 ≡ ok o
      → KeyAt P rid key r (continue r (λ loc. write_at P loc rid key) w).1
        × SameButKeys (continue r (λ loc. write_at P loc rid key) w).1 w
  write_from (ok loc) w o h = write_at-KeyAt loc w o h
  write_from (raise e) w o h = cc

  location_of-env : (v w : World) → v.env ≡ w.env → location_of P v ≡ location_of P w
  unfolding location_of
  location_of-env v w e =
      ap (λ env. key_location P (P.strip (or_default "" (lookup "AE_TRACE_KEY_DIR" env)))) e

  -- A key that was written is where it will be looked for.
  pub write-HasKey :
      (w : World) (o : Option String)
      → HasBase64 P key
      → (write_hmac_key P rid key w).0 ≡ ok o
      → HasKey P rid key (write_hmac_key P rid key w).1
        × SameButKeys (write_hmac_key P rid key w).1 w
  unfolding write_hmac_key location_of
  write-HasKey w o b h =
      let (k, same) = write_from (location_of P w) w o h in
      let v : World = (write_hmac_key P rid key w).1 in
      (record { at = rw (location_of-env v w same.env) k; decodes = b }, same)

  -- It is found in any later world that has the same keys and environment.
  pub HasKey-later :
      (v w : World)
      → v.env ≡ w.env
      → v.keys ≡ w.keys
      → v.keyring ≡ w.keyring
      → HasKey P rid key w
      → HasKey P rid key v
  HasKey-later v w e k r h = record {
    at = rw (location_of-env v w e) (later (location_of P w) h.at);
    decodes = h.decodes;
  }
    where
      later : (l : Result KeyLocation) → KeyAt P rid key l w → KeyAt P rid key l v
      later (ok (directory dir)) a = rw k a
      later (ok (keyring service)) a = (a.0, rw r a.1)
      later (raise x) a = a

  -- When `_write_hmac_key` returns, `_load_hmac_key` for that run gives the key that was
  -- written and changes nothing, whether keys are kept in files or, encoded, in the keyring;
  -- for a key that base64 decodes again.
  pub write-load :
      (w : World) {o : Option String}
      → HasBase64 P key
      → (write_hmac_key P rid key w).0 ≡ ok o
      → load_hmac_key P rid (write_hmac_key P rid key w).1
        ≡ (ok (some key), (write_hmac_key P rid key w).1)
  write-load w {o} b h = load-HasKey (write_hmac_key P rid key w).1 (write-HasKey w o b h).0
