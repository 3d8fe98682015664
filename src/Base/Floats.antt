-- ===== src/Base/Floats.antt =====
-- Double-precision numbers that are not negative, as far as the products that the engine
-- computes with them. Overflow and subnormal numbers are left out.
pub mod Bounds
use Prim.Native.Nat.{ℕ, zero, suc, ◌+◌, ◌*◌, ◌/◌, ◌%◌, ◌^◌}
use mathlib.Core.Bool.{true, false}
use autonomy_engine.Base.Tests.{ltb, eqb, if◌then◌else◌}

-- The number `num / 2 ^ exp`, where `num` has 53 significant bits.
pub record Float : Type 0 where
  pub num : ℕ
  pub exp : ℕ

-- the number of bits of `n` beyond 53; the fuel `n` is enough
unfoldable pub excess : ℕ → ℕ → ℕ
excess zero n = 0
excess (suc fuel) n = elim (ltb n 9007199254740992) [ true ↦ 0 | false ↦ suc (excess fuel (n / 2)) ]

-- what is added to the quotient by `u`: to the nearest, and from the middle to the even one
unfoldable pub carry : ℕ → ℕ → ℕ
carry n u =
    let twice = (n % u) * 2 in if ltb u twice then 1 else if eqb twice u then (n / u) % 2 else 0

-- `n` rounded to multiples of `u`
unfoldable pub round_to : ℕ → ℕ → ℕ
unfolding carry
round_to n u = (n / u + carry n u) * u

-- `n` rounded to 53 significant bits
unfoldable pub round : ℕ → ℕ
unfolding excess round_to
round n = round_to n (2 ^ excess n n)

unfoldable pub of_nat : ℕ → Float
unfolding round
of_nat n = record { num = round n; exp = 0 }

-- a * b
unfoldable pub times : Float → Float → Float
unfolding round
times a b = record { num = round (a.num * b.num); exp = a.exp + b.exp }

-- `int` of a float
unfoldable pub int : Float → ℕ
int x = x.num / 2 ^ x.exp
