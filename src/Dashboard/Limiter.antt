-- ===== src/Dashboard/Limiter.antt =====
-- dashboard/rate_limiter.py: how often a session may run the pipeline.
use autonomy_engine.Base.{
  ℕ, zero, suc, ◌+◌, ◌-◌, ◌≡◌, String, Option, none, some, List, [], ◌∷◌, Bool, true, false, leb,
  truthy, or_default, if◌then◌else◌, arith, Bool-cases, inl, inr,
}

-- The limit: the environment first, where `digits` is `int` of a text of digits, then the secrets.
unfoldable pub get_max_runs : (String → Option ℕ) → Option String → Option ℕ → ℕ
get_max_runs digits none secret = or_default 3 secret
get_max_runs digits (some value) secret =
    if truthy value then or_default (or_default 3 secret) (digits value) else or_default 3 secret

-- The answer, and the counter of the session; `none` is a session without one.
unfoldable pub check_rate_limit : ℕ → Option ℕ → Bool × Option ℕ
check_rate_limit max_runs counter =
    let n = or_default 0 counter in if leb max_runs n then (false, some n) else (true, some (n + 1))

unfoldable pub get_remaining_runs : ℕ → Option ℕ → ℕ
get_remaining_runs max_runs counter = max_runs - or_default 0 counter

-- the answers of a number of calls
unfoldable pub answers : ℕ → ℕ → Option ℕ → List Bool
unfolding check_rate_limit
answers max_runs zero counter = []
answers max_runs (suc calls) counter =
    let r = check_rate_limit max_runs counter in r.0 ∷ answers max_runs calls r.1

abbrev pub count_true : List Bool → ℕ
count_true [] = 0
count_true (b ∷ bs) = (if b then 1 else 0) + count_true bs

abbrev pub smaller : ℕ → ℕ → ℕ
smaller a b = if leb a b then a else b

count-answers :
    (max_runs calls n : ℕ)
    → count_true (answers max_runs calls (some n)) ≡ smaller calls (max_runs - n)
unfolding answers check_rate_limit
count-answers max_runs zero n = ground arith
count-answers max_runs (suc calls) n = elim (Bool-cases (leb max_runs n)) [
  | inl reached ↦ rw reached (ground (arith, count-answers max_runs calls n, reached))
  | inr below ↦ rw below (ground (arith, count-answers max_runs calls (n + 1), below))
]

-- Of any number of calls of `check_rate_limit`, as many are allowed as `get_remaining_runs`
-- said before, or all of them if they are fewer.
answers-remaining :
    (max_runs calls : ℕ) (counter : Option ℕ)
    → count_true (answers max_runs calls counter)
      ≡ smaller calls (get_remaining_runs max_runs counter)
unfolding answers check_rate_limit get_remaining_runs
answers-remaining max_runs calls (some n) = count-answers max_runs calls n
answers-remaining max_runs zero none = ground arith
answers-remaining max_runs (suc calls) none = elim (Bool-cases (leb max_runs 0)) [
  | inl reached ↦ rw reached (ground (arith, count-answers max_runs calls 0, reached))
  | inr below ↦ rw below (ground (arith, count-answers max_runs calls 1, below))
]
