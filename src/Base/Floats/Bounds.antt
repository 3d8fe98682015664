-- ===== src/Base/Floats/Bounds.antt =====
-- A product of floats is at most a natural that bounds the exact product.
use Prim.Native.Nat.{ℕ, zero, suc, ◌+◌, ◌-◌, ◌*◌, ◌/◌, ◌%◌, ◌^◌, ◌≤◌, ◌<◌}
use mathlib.Core.Path.{◌≡◌, ap, ◌∙◌, sym, subst}
use mathlib.Core.Logic.{inl, inr}
use native.Mathlib.Omega.{arith}
use native.Mathlib.Nat.{
  div-add-mod, mod-lt, zero-lt-suc, div-mul-le_self, le-div_iff_mul-le, le_of_mul-le-mul_right,
  mul-le-mul_left, one-mul, add-mul, mul-le-mul, mod-one, mul_comm, mul_assoc, one-le-pow,
  mul-le-mul_right, two-pow-succ, div-le_of_le-mul, div-one,
}
use autonomy_engine.Base.Tests.{eqb-cases}
use autonomy_engine.Base.Floats.{Float, excess, carry, round_to, round, of_nat, times, int}

pub excess-le : (fuel n e : ℕ) → n < 9007199254740992 * 2 ^ e → excess fuel n ≤ e
unfolding excess
excess-le zero n e h = omega arith
excess-le (suc fuel) n zero h = ground arith
excess-le (suc fuel) n (suc e) h = ground (arith, excess-le fuel (n / 2) e, two-pow-succ e)

carry-le : (n u : ℕ) → carry n u ≤ 1
unfolding carry
carry-le n u = ground (arith, mod-lt (n / u) (zero-lt-suc 1))

carry-exact : (n u : ℕ) → 0 < u → n % u ≡ 0 → carry n u ≡ 0
unfolding carry
carry-exact n u pos h = ground arith

-- where the quotient reaches the bound, there is no remainder
no_remainder : (n u k : ℕ) → n ≤ k * u → n / u ≡ k → n % u ≡ 0
no_remainder n u k h e = omega (arith, div-add-mod n u, ap (λ q. u * q) e, mul_comm u k)

quotient-le : (n u k : ℕ) → 0 < u → n ≤ k * u → (n / u ≤ k) → n / u + carry n u ≤ k
quotient-le n u k pos h le = elim (eqb-cases (n / u) k) [
  | inl e ↦ omega (arith, carry-exact n u pos (no_remainder n u k h e))
  | inr ne ↦ omega (arith, carry-le n u)
]

-- a multiple of `u` that bounds `n` bounds what `n` is rounded to
round_to-le : (n u k : ℕ) → 0 < u → n ≤ k * u → round_to n u ≤ k * u
unfolding round_to
round_to-le n u k pos h =
    mul-le-mul_right u
      (quotient-le n u k pos h (div-le_of_le-mul u (subst (λ x. n ≤ x) (mul_comm k u) h)))

round_to-one : (n : ℕ) → round_to n 1 ≡ n
unfolding round_to carry
round_to-one n = rw (div-one n) (ground (arith, mod-one n))

two-pow-pos : (s : ℕ) → 0 < 2 ^ s
two-pow-pos s = one-le-pow s 2 (omega arith)

two-pow-add : (d s : ℕ) → 2 ^ (d + s) ≡ 2 ^ d * 2 ^ s
two-pow-add zero s = ap (λ x. 2 ^ x) (omega arith) ∙ sym (one-mul (2 ^ s))
two-pow-add (suc d) s =
    grind (arith, two-pow-add d s, two-pow-succ d, two-pow-succ (d + s), add-mul)

scale-split : (b s e : ℕ) → s ≤ e → b * 2 ^ e ≡ b * 2 ^ (e - s) * 2 ^ s
scale-split b s e h =
    ap (λ x. b * 2 ^ x) (omega arith)
    ∙ ap (λ x. b * x) (two-pow-add (e - s) s)
    ∙ sym (mul_assoc b (2 ^ (e - s)) (2 ^ s))

below_scale : (n b e : ℕ) → b < 9007199254740992 → n ≤ b * 2 ^ e → n < 9007199254740992 * 2 ^ e
below_scale n b e small h = omega (arith, mul-le-mul_right (2 ^ e) (small), two-pow-pos e)

-- Rounding a number of the scale `2 ^ e` does not pass a natural below `2 ^ 53`.
pub round-le : (n b e : ℕ) → b < 9007199254740992 → n ≤ b * 2 ^ e → round n ≤ b * 2 ^ e
unfolding round
round-le n b e small h =
    let s = excess n n in
    let split = scale-split b s e (excess-le n n e (below_scale n b e small h)) in
    subst (λ x. round_to n (2 ^ s) ≤ x) (sym split)
      (round_to-le n (2 ^ s) (b * 2 ^ (e - s)) (two-pow-pos s) (subst (λ x. n ≤ x) split h))

-- A natural below `2 ^ 53` is a float.
pub round-exact : (n : ℕ) → n < 9007199254740992 → round n ≡ n
unfolding round
round-exact n h =
    let none_left : excess n n ≡ 0 = omega (arith, excess-le n n 0) in
    ap (λ s. round_to n (2 ^ s)) none_left ∙ round_to-one n

-- The float is at most the natural `b`.
unfoldable pub IsAtMost : ℕ → Float → Type 0
IsAtMost b x = x.num ≤ b * 2 ^ x.exp

pub of_nat-IsAtMost : (n : ℕ) → n < 9007199254740992 → IsAtMost n (of_nat n)
unfolding of_nat IsAtMost
of_nat-IsAtMost n h = omega (arith, round-exact n h)

times_product : (x y b c d e : ℕ) → x ≤ b * d → y ≤ c * e → x * y ≤ b * c * (d * e)
times_product x y b c d e h k = grind (arith, mul-le-mul h k)

pub times-IsAtMost :
    (x y : Float) (b c : ℕ)
    → b * c < 9007199254740992
    → IsAtMost b x
    → IsAtMost c y
    → IsAtMost (b * c) (times x y)
unfolding times IsAtMost
times-IsAtMost x y b c small h k = round-le (x.num * y.num) (b * c) (x.exp + y.exp) small (
    subst (λ s. x.num * y.num ≤ b * c * s) (sym (two-pow-add x.exp y.exp))
      (times_product x.num y.num b c (2 ^ x.exp) (2 ^ y.exp) h k))

pub int-IsAtMost : (x : Float) (b : ℕ) → IsAtMost b x → int x ≤ b
unfolding int IsAtMost
int-IsAtMost x b h =
    div-le_of_le-mul (2 ^ x.exp) (subst (λ s. x.num ≤ s) (mul_comm b (2 ^ x.exp)) h)

-- the quotient by a product of powers, where the dividend is bounded at the scale of one of them
div-le_scaled : (m n e f : ℕ) → m ≤ n * 2 ^ f → m / 2 ^ (e + f) ≤ n / 2 ^ e
div-le_scaled m n e f h =
    let q = m / 2 ^ (e + f) in
    let below : q * 2 ^ e * 2 ^ f ≤ n * 2 ^ f = omega (
      arith,
      div-mul-le_self m (2 ^ (e + f)),
      h,
      ap (λ x. q * x) (two-pow-add e f),
      mul_assoc q (2 ^ e) (2 ^ f),
    ) in
    (le-div_iff_mul-le (two-pow-pos e)).1 (le_of_mul-le-mul_right below (two-pow-pos f))

-- A product with a float that is at most 1 truncates to no more than the float does.
pub int-times-le : (x c : Float) → x.num < 9007199254740992 → IsAtMost 1 c → int (times x c) ≤ int x
unfolding times int IsAtMost
int-times-le x c small h =
    div-le_scaled (round (x.num * c.num)) x.num x.exp c.exp
      (round-le (x.num * c.num) x.num c.exp small (mul-le-mul_left x.num (omega (arith, h))))

-- A product that has 53 bits is exact.
pub int-times_exact :
    (n : ℕ) (c : Float)
    → n < 9007199254740992
    → n * c.num < 9007199254740992
    → times (of_nat n) c ≡ record { num = n * c.num; exp = c.exp }
unfolding times of_nat
int-times_exact n c h k =
    rw (round-exact n h, round-exact (n * c.num) k)
      (ap (λ e. record { num = n * c.num; exp = e }) (omega arith))
