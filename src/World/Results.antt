-- ===== src/World/Results.antt =====
-- Chains of results that leave the world alone.
use autonomy_engine.World.Effects.{Result, ok, raise}

infixl 10 ◌>>=◌
abbrev pub ◌>>=◌ {ℓ κ} : {A : Type ℓ} {B : Type κ} → Result A → (A → Result B) → Result B
◌>>=◌ (ok a) f = f a
◌>>=◌ (raise e) f = raise e
