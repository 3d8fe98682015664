-- ===== src/World/Returned.antt =====
-- What a function that returned a value says of the functions that it called.
use autonomy_engine.Base.{◌≡◌, refl, ap, Bool, true, false, if◌then◌else◌}
use autonomy_engine.World.Defs.{World}
use autonomy_engine.World.Effects.{Exc, Result, ok, raise, Exec, throw, continue, ◌>>=◌}

-- A successful bind is two successes.
pub bind-ok {ℓ κ} :
    {A : Type ℓ} {B : Type κ} (m : Exec A) (f : A → Exec B) (w : World) {b : B} {w' : World}
    → (m >>= f) w ≡ (ok b, w')
    → (a : A) × (f a (m w).1 ≡ (ok b, w'))
bind-ok {A} {B} m f w {b} {w'} h = go (m w).0 h
  where
    go : (r : Result A) → continue r f (m w).1 ≡ (ok b, w') → (a : A) × (f a (m w).1 ≡ (ok b, w'))
    go (ok a) e = (a, e)
    go (raise x) e = absurd (cc)

-- The same, with what the first of them gave.
pub bind-values {ℓ κ} :
    {A : Type ℓ} {B : Type κ} (m : Exec A) (f : A → Exec B) (w : World) {b : B} {w' : World}
    → (m >>= f) w ≡ (ok b, w')
    → (a : A) × (m w ≡ (ok a, (m w).1)) × (f a (m w).1 ≡ (ok b, w'))
bind-values {A} {B} m f w {b} {w'} h = go (m w).0 refl h
  where
    go :
        (r : Result A)
        → (m w).0 ≡ r
        → continue r f (m w).1 ≡ (ok b, w')
        → (a : A) × (m w ≡ (ok a, (m w).1)) × (f a (m w).1 ≡ (ok b, w'))
    go (ok a) q e = (a, ap (λ r. (r, (m w).1)) q, e)
    go (raise x) q e = absurd (cc)

pub ok-injective {ℓ} :
    {A : Type ℓ} {a b : A} {v w : World} → ◌≡◌ {A = Result A × World} (ok a, v) (ok b, w) → a ≡ b
ok-injective h = cc (ap (λ p. p.0) h)

-- A guard that did not raise was true.
pub guard-ok {ℓ} :
    {A : Type ℓ} (b : Bool) (m : Exec A) (x : Exc) (w : World) {a : A} {w' : World}
    → (if b then m else throw x) w ≡ (ok a, w')
    → (b ≡ true) × (m w ≡ (ok a, w'))
guard-ok true m x w h = (refl, h)
guard-ok false m x w h = cc h

pub ok-world {ℓ} :
    {A : Type ℓ} {a b : A} {v w : World} → ◌≡◌ {A = Result A × World} (ok a, v) (ok b, w) → v ≡ w
ok-world h = ap (λ p. p.1) h
