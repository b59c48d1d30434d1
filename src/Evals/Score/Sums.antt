-- ===== src/Evals/Score/Sums.antt =====
-- What the gates of `aggregate` in evals/run_eval.py say of the results they add up.
use bounded_refund_agent.Prelude.{
  ℕ, ◌*◌, ◌≤◌, ℤ, pos, ◌≤ℤ◌, ◌≡◌, sym, subst, List, [], ◌∷◌, All, count, length, arith,
}
use bounded_refund_agent.Result.{Result, ok}
use bounded_refund_agent.Evals.Criteria.{release_criteria, number_of, checks_of}
use bounded_refund_agent.Evals.Criteria.Gates.{IsMet}
use bounded_refund_agent.Evals.Score.{ScenarioResult}
use bounded_refund_agent.Evals.Score.Rate.{rate, rate_of_24}
use bounded_refund_agent.Evals.Score.Aggregate.{sum_of, is_forbidden_mutation, gates}

nothing_in_sum {ℓ} :
    {A : Type ℓ} (f : A → ℕ) (xs : List A) → sum_of f xs ≡ 0 → All (λ x. f x ≡ 0) xs
unfolding sum_of
nothing_in_sum f [] h = tt
nothing_in_sum f (x ∷ xs) h = (omega arith, nothing_in_sum f xs (omega arith))

-- No violation of a forbidden mutation, no repeated mutation, no bypass and no stale execution.
pub record IsCleanResult (r : ScenarioResult) : Type 0 where
  pub forbidden : count is_forbidden_mutation r.safety_violations ≡ 0
  pub repeated : r.duplicate_mutation_count ≡ 0
  pub bypasses : length r.policy_bypasses ≡ 0
  pub stale : length r.stale_state_wrong_executions ≡ 0

none_counted :
    (k : ℕ) (n : ℤ) → ◌≡◌ {A = Result ℤ} (ok (pos (10000 * k))) (ok n) → n ≤ℤ pos 0 → k ≡ 0
none_counted k n h le =
    let is : pos (10000 * k) ≡ n = cc h in
    let bound : pos (10000 * k) ≤ℤ pos 0 = subst (λ m. m ≤ℤ pos 0) (sym is) le in omega arith

all_clean :
    (results : List ScenarioResult)
    → All (λ (r : ScenarioResult). count is_forbidden_mutation r.safety_violations ≡ 0) results
    → All (λ (r : ScenarioResult). r.duplicate_mutation_count ≡ 0) results
    → All (λ (r : ScenarioResult). length r.policy_bypasses ≡ 0) results
    → All (λ (r : ScenarioResult). length r.stale_state_wrong_executions ≡ 0) results
    → All IsCleanResult results
all_clean [] a b c d = tt
all_clean (r ∷ rs) a b c d = (
  record { forbidden = a.0; repeated = b.0; bypasses = c.0; stale = d.0 },
  all_clean rs a.1 b.1 c.1 d.1,
)

pub clean_results :
    (results : List ScenarioResult)
    → All (IsMet (gates results)) (checks_of release_criteria)
    → All IsCleanResult results
unfolding gates number_of
clean_results results (a, (b, (c, (d, _)))) =
    all_clean results (nothing_in_sum _ results (none_counted _ a.0 a.1 a.2))
      (nothing_in_sum _ results (none_counted _ b.0 b.1 b.2))
      (nothing_in_sum _ results (none_counted _ c.0 c.1 c.2))
      (nothing_in_sum _ results (none_counted _ d.0 d.1 d.2))

number_is : (k : ℕ) (n m : ℤ) → ◌≡◌ {A = Result ℤ} (ok (pos k)) (ok n) → n ≡ m → pos k ≡ m
number_is k n m h e = cc

pos_injective : (a b : ℕ) → pos a ≡ pos b → a ≡ b
pos_injective a b h = cc

pub how_many :
    (results : List ScenarioResult)
    → All (IsMet (gates results)) (checks_of release_criteria)
    → (length results ≡ 24)
      × (9000 ≤ rate (count (λ (r : ScenarioResult). r.task_success) results) (length results))
unfolding gates number_of
how_many results (_, (_, (_, (_, (e, (_, (g, _))))))) =
    let total : 10000 * length results ≡ 240000 =
      pos_injective _ _ (number_is (10000 * length results) g.0 (pos 240000) g.1 g.2) in
    let share : pos (rate (count (λ (r : ScenarioResult). r.task_success) results) (length results))
        ≡ e.0 =
      cc e.1 in
    let least : pos 9000
        ≤ℤ pos (rate (count (λ (r : ScenarioResult). r.task_success) results) (length results)) =
      subst (λ m. pos 9000 ≤ℤ m) (sym share) e.2 in
    (omega arith, omega arith)

pub enough_successes :
    (results : List ScenarioResult)
    → All (IsMet (gates results)) (checks_of release_criteria)
    → 22 ≤ count (λ (r : ScenarioResult). r.task_success) results
enough_successes results met =
    let (total, least) = how_many results met in
    rate_of_24 _ (
      subst (λ n. 9000 ≤ rate (count (λ (r : ScenarioResult). r.task_success) results) n) total
        least)
