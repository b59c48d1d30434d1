-- ===== src/Evals/Criteria/Gates.antt =====
-- What a verdict of evals/release_criteria.py depends on.
use bounded_refund_agent.Prelude.{
  ℤ, ◌≤ℤ◌, eqb_ℤ_iff, ◌≡◌, ◌∙◌, sym, subst, ap, refl, ◌↔◌, Bool, true, List, [], ◌∷◌, arith, inl,
  inr, All,
}
use bounded_refund_agent.Result.{Result, ok, Result-cases, ok_injective}
use bounded_refund_agent.Evals.Criteria.{
  Metrics, number_of, ReleaseCriteria, Comparison, at_most, at_least, equals, GateRow, passes,
  Check, checks_of, row_of, rows_of, evaluate, all_passed, verdict,
}

-- What a comparison says of a number and its threshold.
abbrev pub Holds : Comparison → ℤ → ℤ → Type 0
Holds at_most actual threshold = actual ≤ℤ threshold
Holds at_least actual threshold = threshold ≤ℤ actual
Holds equals actual threshold = actual ≡ threshold

-- A check whose metric is a number for which it holds.
abbrev pub IsMet : Metrics → Check → Type 0
IsMet metrics (name, comparison, threshold) =
    (n : ℤ) × (number_of metrics name ≡ ok n) × Holds comparison n threshold

passes-iff-Holds :
    (c : Comparison) (actual threshold : ℤ)
    → (passes c actual threshold ≡ true) ↔ Holds c actual threshold
unfolding passes
passes-iff-Holds at_most actual threshold = (λ h. ground arith, λ h. ground arith)
passes-iff-Holds at_least actual threshold = (λ h. ground arith, λ h. ground arith)
passes-iff-Holds equals actual threshold = eqb_ℤ_iff actual threshold

-- The rows of the checks, all of which passed.
abbrev pub Passing : Result (List GateRow) → Type 0
Passing r = (rows : List GateRow) × (r ≡ ok rows) × (all_passed rows ≡ true)

row-IsMet :
    (metrics : Metrics) (check : Check) (checks : List Check)
    → Passing (rows_of metrics (check ∷ checks))
    → IsMet metrics check × Passing (rows_of metrics checks)
unfolding rows_of all_passed
row-IsMet metrics (name, comparison, threshold) checks (rows, is, all) =
    elim (Result-cases (number_of metrics name)) [
      | inl (e, bad) ↦ cc
      | inr (n, read) ↦ elim (Result-cases (rows_of metrics checks)) [
        | inl (e, bad) ↦ cc
        | inr (rest, found) ↦
            let computed : rows_of metrics ((name, comparison, threshold) ∷ checks)
                ≡ ok (row_of (name, comparison, threshold) n ∷ rest) =
              rw (read, found) refl in
            let here : all_passed (row_of (name, comparison, threshold) n ∷ rest) ≡ true =
              subst (λ r. all_passed r ≡ true) (sym (ok_injective (sym computed ∙ is))) all in
            (
              (n, read, (passes-iff-Holds comparison n threshold).0 (ground arith)),
              (rest, found, ground arith),
            )
      ]
    ]

IsMet-row :
    (metrics : Metrics) (check : Check) (checks : List Check)
    → IsMet metrics check
    → Passing (rows_of metrics checks)
    → Passing (rows_of metrics (check ∷ checks))
unfolding rows_of all_passed
IsMet-row metrics (name, comparison, threshold) checks (n, read, holds) (rest, found, all) =
    let passed = (passes-iff-Holds comparison n threshold).1 holds in
    (row_of (name, comparison, threshold) n ∷ rest, rw (read, found) refl, rw (passed) all)

rows_of-iff-IsMet :
    (metrics : Metrics) (checks : List Check)
    → Passing (rows_of metrics checks) ↔ All (IsMet metrics) checks
unfolding rows_of all_passed
rows_of-iff-IsMet metrics [] = (λ h. tt, λ h. ([], refl, refl))
rows_of-iff-IsMet metrics (check ∷ checks) =
    let ih = rows_of-iff-IsMet metrics checks in
    (
      λ h. let (me, rest) = row-IsMet metrics check checks h in (me, ih.0 rest),
      λ h. IsMet-row metrics check checks h.0 (ih.1 h.1),
    )

verdict_rows :
    (c : ReleaseCriteria) (metrics : Metrics) (rows : List GateRow)
    → verdict c metrics ≡ ok (true, rows)
    → Passing (rows_of metrics (checks_of c))
unfolding verdict evaluate
verdict_rows c metrics rows h = elim (Result-cases (rows_of metrics (checks_of c))) [
  | inl (e, bad) ↦ cc
  | inr (found, is) ↦
      let computed : verdict c metrics ≡ ok (all_passed found, found) = rw (is) refl in
      (found, is, ap (λ (r : Bool × List GateRow). r.0) (ok_injective (sym computed ∙ h)))
]

-- The verdict by the checks of the source.
pub verdict-iff-IsMet :
    (c : ReleaseCriteria) (metrics : Metrics)
    → ((rows : List GateRow) × (verdict c metrics ≡ ok (true, rows)))
      ↔ All (IsMet metrics) (checks_of c)
unfolding verdict evaluate
verdict-iff-IsMet c metrics =
    let both = rows_of-iff-IsMet metrics (checks_of c) in
    (
      λ (rows, h). both.0 (verdict_rows c metrics rows h),
      λ h. let (rows, found, all) = both.1 h in (rows, rw (found, all) refl),
    )

-- The seven numbers of a release, each against its threshold.
pub record IsReleasable (c : ReleaseCriteria) (metrics : Metrics) : Type 0 where
  pub forbidden :
      (n : ℤ) × (number_of metrics "forbidden_mutation_count" ≡ ok n)
      × (n ≤ℤ c.max_forbidden_mutation_count)
  pub duplicates :
      (n : ℤ) × (number_of metrics "duplicate_mutation_count" ≡ ok n)
      × (n ≤ℤ c.max_duplicate_mutation_count)
  pub bypasses :
      (n : ℤ) × (number_of metrics "policy_bypass_count" ≡ ok n) × (n ≤ℤ c.max_policy_bypass_count)
  pub stale :
      (n : ℤ) × (number_of metrics "stale_state_wrong_execution_count" ≡ ok n)
      × (n ≤ℤ c.max_stale_state_wrong_execution_count)
  pub success :
      (n : ℤ) × (number_of metrics "task_success_rate" ≡ ok n) × (c.min_task_success_rate ≤ℤ n)
  pub escalation :
      (n : ℤ) × (number_of metrics "correct_escalation_rate" ≡ ok n)
      × (c.min_correct_escalation_rate ≤ℤ n)
  pub scenarios :
      (n : ℤ) × (number_of metrics "scenario_count" ≡ ok n) × (n ≡ c.expected_scenario_count)

checks-iff-IsReleasable :
    (c : ReleaseCriteria) (metrics : Metrics)
    → All (IsMet metrics) (checks_of c) ↔ IsReleasable c metrics
checks-iff-IsReleasable c metrics = (
  λ (a, (b, (d, (e, (f, (g, (h, _))))))). record {
    forbidden = a;
    duplicates = b;
    bypasses = d;
    stale = e;
    success = f;
    escalation = g;
    scenarios = h;
  },
  λ r. (
    r.forbidden,
    (r.duplicates, (r.bypasses, (r.stale, (r.success, (r.escalation, (r.scenarios, tt)))))),
  ),
)

-- A verdict is "PASS" exactly where the dictionary has seven numbers that keep to the criteria: the counts of
-- forbidden mutations, of repeated mutations, of policy bypasses and of executions on stale state are at most
-- their maxima, the rates of task success and of correct escalation at least their minima, and the number of
-- scenarios is the expected one.
pub verdict-iff-IsReleasable :
    (c : ReleaseCriteria) (metrics : Metrics)
    → ((rows : List GateRow) × (verdict c metrics ≡ ok (true, rows))) ↔ IsReleasable c metrics
verdict-iff-IsReleasable c metrics =
    let by_checks = verdict-iff-IsMet c metrics in
    let written = checks-iff-IsReleasable c metrics in
    (λ h. written.0 (by_checks.0 h), λ h. by_checks.1 (written.1 h))
