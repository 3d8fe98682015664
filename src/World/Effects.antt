-- ===== src/World/Effects.antt =====
-- Functions that change the world and may raise. What was written before a raise stays written,
-- so the world comes back beside the exception too.
use autonomy_engine.Base.{ℕ, ◌+◌, String}
use autonomy_engine.World.Defs.{GateRequest, World}

pub data Kind : Type 0 where
  value_error runtime_error type_error attribute_error : Kind
  index_error file_not_found file_exists other_error : Kind

-- `interrupted` is the exception by which LangGraph's `interrupt()` leaves a node.
pub data Exc : Type 0 where
  failure : Kind → String → Exc
  decision_required : GateRequest → Exc
  interrupted : GateRequest → Exc

pub data Result {ℓ} (A : Type ℓ) : Type ℓ where
  ok : A → Result A
  raise : Exc → Result A

abbrev pub Exec {ℓ} : Type ℓ → Type ℓ
Exec A = World → Result A × World

module _ {ℓ} {A : Type ℓ} where
  abbrev pub pure : A → Exec A
  pure a w = (ok a, w)

  abbrev pub throw : Exc → Exec A
  throw e w = (raise e, w)

  abbrev pub gets : (World → A) → Exec A
  gets f w = (ok (f w), w)

  abbrev pub lift : Result A → Exec A
  lift r w = (r, w)

abbrev pub modify : (World → World) → Exec (Unit {0})
modify f w = (ok tt, f w)

module _ {ℓ κ} {A : Type ℓ} {B : Type κ} where
  abbrev pub continue : Result A → (A → Exec B) → Exec B
  continue (ok a) f w = f a w
  continue (raise e) f w = (raise e, w)

  infixl 10 ◌>>=◌ ◌>>◌
  abbrev pub ◌>>=◌ : Exec A → (A → Exec B) → Exec B
  ◌>>=◌ m f w = let r = m w in continue r.0 f r.1

  abbrev pub ◌>>◌ : Exec A → Exec B → Exec B
  m >> n = m >>= λ _. n

-- The number of this call of the clock or of a generator.
unfoldable pub tick : Exec ℕ
tick w = (ok w.ticks, record w { ticks = w.ticks + 1 })
