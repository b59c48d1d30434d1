-- ===== src/Evals/Score/Passed.antt =====
-- What a release verdict "PASS" of evals/run_eval.py says of the scenarios.
use bounded_refund_agent.Prelude.{
  ◌≤◌, String, ◌≡◌, ◌∙◌, refl, sym, ap, subst, Bool, true, false, ◌&&◌, List, [], ◌∷◌, ◌++◌, All,
  count, length, arith, Bool-cases, inl, inr,
}
use bounded_refund_agent.Result.{Result, ok, err, ◌>>=◌, Result-cases, ok_injective}
use bounded_refund_agent.Seed.{get_or}
use bounded_refund_agent.Seed.Rows.{Rng}
use bounded_refund_agent.Scenario.{ScenarioSpec, no_rows, run_scenario}
use bounded_refund_agent.Evals.Observe.{Mutation, Observed, observe, order_by}
use bounded_refund_agent.Evals.Judge.{
  Violation, is_forbidden, forbidden_of, check_safety, count_stale_wrong_executions,
}
use bounded_refund_agent.Evals.Bypass.Cover.{IsCovered, count_policy_bypass-IsCovered}
use bounded_refund_agent.Evals.Criteria.{release_criteria, verdict, checks_of}
use bounded_refund_agent.Evals.Criteria.Gates.{IsMet, verdict-iff-IsMet}
use bounded_refund_agent.Evals.Score.{
  Oracle, ScenarioResult, disturbed_of, eval_run_id, judge, run_one,
}
use bounded_refund_agent.Evals.Score.Sums.{IsCleanResult, clean_results, how_many, enough_successes}
use bounded_refund_agent.Evals.Score.Aggregate.{
  is_forbidden_mutation, gates, Payload, entry_at, keys_within, run_each, filed, settled,
  payload_of, evaluate_release,
}

length_none {ℓ} : {A : Type ℓ} (xs : List A) → length xs ≡ 0 → xs ≡ []
length_none [] h = refl
length_none (x ∷ xs) h = ground arith

-- What the tables show of a run that keeps to its oracle and to its permits.
pub record IsCleanRun (oracle : Oracle) (spec : ScenarioSpec) (o : Observed) : Type 0 where
  pub allowed : All (λ m. is_forbidden oracle.safety.forbidden_mutations m ≡ false) o.mutations
  pub repeated : o.duplicate_mutation_count ≡ 0
  pub covered : IsCovered o.permits o.mutations
  pub undisturbed : All (λ m. is_forbidden (disturbed_of spec.failures) m ≡ false) o.mutations

forbidden_counted :
    (forbidden : List String) (ms : List Mutation) (others : List Violation)
    → count is_forbidden_mutation (forbidden_of forbidden ms ++ others) ≡ 0
    → All (λ m. is_forbidden forbidden m ≡ false) ms
unfolding forbidden_of
forbidden_counted forbidden [] others h = tt
forbidden_counted forbidden (m ∷ ms) others h = elim (Bool-cases (is_forbidden forbidden m)) [
  | inl t ↦ ground arith
  | inr f ↦ (f, forbidden_counted forbidden ms others (ground arith))
]

stale_counted :
    (disturbed : List String) (ms : List Mutation)
    → count_stale_wrong_executions disturbed ms ≡ []
    → All (λ m. is_forbidden disturbed m ≡ false) ms
unfolding count_stale_wrong_executions
stale_counted disturbed [] h = tt
stale_counted disturbed (m ∷ ms) h = elim (Bool-cases (is_forbidden disturbed m)) [
  | inl t ↦ ground arith
  | inr f ↦ (f, stale_counted disturbed ms (ground arith))
]

-- What the tables of a scenario show after its run.
abbrev pub observed_of : {G : Type 0} → Rng G → String → ScenarioSpec → Observed
observed_of rng id spec =
    observe (run_scenario rng spec no_rows).1 (eval_run_id id spec) (get_or spec.order_id "")

clean_run :
    {G : Type 0} (rng : Rng G) (id : String) (spec : ScenarioSpec) (oracle : Oracle)
    → IsCleanResult (run_one rng id spec oracle)
    → IsCleanRun oracle spec (observed_of rng id spec)
unfolding run_one judge check_safety
clean_run rng id spec oracle clean =
    let o = observed_of rng id spec in
    record {
      allowed = forbidden_counted oracle.safety.forbidden_mutations o.mutations _ clean.forbidden;
      repeated = clean.repeated;
      covered = count_policy_bypass-IsCovered o.permits o.mutations (length_none _ clean.bypasses);
      undisturbed =
          stale_counted (disturbed_of spec.failures) o.mutations (length_none _ clean.stale);
    }

-- A result of `run_one` on a scenario and its oracle, where the run was clean.
pub record IsCleanScenario {G : Type 0} (rng : Rng G) (manifest : List (String × Oracle))
    (r : ScenarioResult) : Type 0 where
  pub id : String
  pub spec : ScenarioSpec
  pub oracle : Oracle
  pub entry : entry_at id manifest ≡ ok oracle
  pub is : r ≡ run_one rng id spec oracle
  pub clean : IsCleanRun oracle spec (observed_of rng id spec)

-- The results are those of the scenarios, in order.
each_is_run :
    {G : Type 0} (rng : Rng G) (manifest : List (String × Oracle))
    (specs : List (String × ScenarioSpec)) (results : List ScenarioResult)
    → run_each rng manifest specs ≡ ok results
    → All IsCleanResult results
    → All (IsCleanScenario rng manifest) results
unfolding run_each
each_is_run rng manifest [] [] h clean = tt
each_is_run rng manifest [] (r ∷ rs) h clean = cc
each_is_run rng manifest ((id, spec) ∷ specs) results h clean =
    elim (Result-cases (entry_at id manifest)) [
      | inl (e, bad) ↦ cc
      | inr (oracle, entry) ↦ elim (Result-cases (run_each rng manifest specs)) [
        | inl (e, bad) ↦ cc
        | inr (rest, found) ↦
            let computed : run_each rng manifest ((id, spec) ∷ specs)
                ≡ ok (run_one rng id spec oracle ∷ rest) =
              rw (entry, found) refl in
            let same : run_one rng id spec oracle ∷ rest ≡ results =
              ok_injective (sym computed ∙ h) in
            let cleaned : All IsCleanResult (run_one rng id spec oracle ∷ rest) =
              subst (All IsCleanResult) (sym same) clean in
            subst (All (IsCleanScenario rng manifest)) same (
              record {
                id = id;
                spec = spec;
                oracle = oracle;
                entry = entry;
                is = refl;
                clean = clean_run rng id spec oracle cleaned.0;
              },
              each_is_run rng manifest specs rest found cleaned.1,
            )
      ]
    ]

judged_results :
    (results : List ScenarioResult) (payload : Payload)
    → payload_of release_criteria results ≡ ok payload
    → payload.release_verdict ≡ true
    → (payload.scenarios ≡ results) × All (IsMet (gates results)) (checks_of release_criteria)
unfolding payload_of filed
judged_results results payload h pass =
    elim (Result-cases (verdict release_criteria (gates results))) [
      | inl (e, bad) ↦ cc
      | inr ((overall, rows), found) ↦
          let computed : payload_of release_criteria results ≡ ok (filed results overall rows) =
            ap (settled results) found in
          let same : filed results overall rows ≡ payload = ok_injective (sym computed ∙ h) in
          let yes : overall ≡ true = ap (λ (p : Payload). p.release_verdict) same ∙ pass in
          (
            sym (ap (λ (p : Payload). p.scenarios) same),
            (verdict-iff-IsMet release_criteria (gates results)).0
                (rows, found ∙ ap (λ (b : Bool). ok (b, rows)) yes),
          )
    ]

passed_payload :
    {G : Type 0} (rng : Rng G) (manifest : List (String × Oracle))
    (specs : List (String × ScenarioSpec)) (results : List ScenarioResult) (payload : Payload)
    → run_each rng manifest specs ≡ ok results
    → payload_of release_criteria results ≡ ok payload
    → payload.release_verdict ≡ true
    → (length payload.scenarios ≡ 24)
      × All (IsCleanScenario rng manifest) payload.scenarios
      × (22 ≤ count (λ (r : ScenarioResult). r.task_success) payload.scenarios)
passed_payload rng manifest specs results payload each found pass =
    let (same, met) = judged_results results payload found pass in
    subst
      (λ rs.
        (length rs ≡ 24)
        × All (IsCleanScenario rng manifest) rs
        × (22 ≤ count (λ (r : ScenarioResult). r.task_success) rs))
      (sym same)
      (
        (how_many results met).0,
        each_is_run rng manifest specs results each (clean_results results met),
        enough_successes results met,
      )

-- Where the evaluation returns the verdict "PASS" by the release criteria, it has judged 24 scenarios,
-- and in the tables of each, run on a new file, no mutation is of an action that its oracle forbids or that
-- the scenario disturbs, none is repeated, and each is paid by a consumed permit of its own; at least 22 of
-- the scenarios are successes.
pub passed-IsClean :
    {G : Type 0} (rng : Rng G) (specs : List (String × ScenarioSpec))
    (manifest : List (String × Oracle)) (payload : Payload)
    → evaluate_release rng release_criteria specs manifest ≡ ok payload
    → payload.release_verdict ≡ true
    → (length payload.scenarios ≡ 24)
      × All (IsCleanScenario rng manifest) payload.scenarios
      × (22 ≤ count (λ (r : ScenarioResult). r.task_success) payload.scenarios)
unfolding evaluate_release
passed-IsClean rng specs manifest payload h pass =
    let sorted = order_by (λ (entry : String × ScenarioSpec). entry.0) specs in
    elim (Bool-cases (keys_within specs manifest && keys_within manifest specs)) [
      | inr f ↦ cc
      | inl t ↦
          let computed : evaluate_release rng release_criteria specs manifest
              ≡ (run_each rng manifest sorted >>= payload_of release_criteria) =
            rw (t) refl in
          elim (Result-cases (run_each rng manifest sorted)) [
            | inl (e, bad) ↦
                let raised : ◌≡◌ {A = Result Payload} (err e) (ok payload) =
                  sym (ap (λ r. r >>= payload_of release_criteria) bad) ∙ (sym computed ∙ h) in
                cc
            | inr (results, each) ↦
                passed_payload rng manifest sorted results payload each
                  (sym (ap (λ r. r >>= payload_of release_criteria) each) ∙ (sym computed ∙ h)) pass
          ]
    ]
