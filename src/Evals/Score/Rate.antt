-- ===== src/Evals/Score/Rate.antt =====
-- `_rate` of evals/run_eval.py.
use bounded_refund_agent.Prelude.{ℕ, ◌+◌, ◌*◌, ◌/◌, ◌%◌, ◌≤◌, ltb, eqb, arith, if◌then◌else◌}

-- The nearest multiple of a ten-thousandth, the even one of two. What Python's `round` gives on the nearest
-- double is this for denominators below 160, where a tie has a denominator of 32 and is exact.
unfoldable pub rate : ℕ → ℕ → ℕ
rate numerator denominator =
    let q = 10000 * numerator / denominator in
    let r = 10000 * numerator % denominator in
    if eqb denominator 0
    then 10000
    else if ltb (2 * r) denominator
    then q
    else if ltb denominator (2 * r)
    then q + 1
    else q + q % 2

-- The share of 24 that reaches nine tenths.
pub rate_of_24 : (n : ℕ) → 9000 ≤ rate n 24 → 22 ≤ n
unfolding rate
rate_of_24 n h = ground arith
