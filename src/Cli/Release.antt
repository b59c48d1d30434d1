-- ===== src/Cli/Release.antt =====
-- What the exit code of `bra eval` of app/cli.py says of the scenarios.
use bounded_refund_agent.Prelude.{
  ◌≤◌, String, ◌≡◌, refl, sym, ap, true, List, [], ◌∷◌, All, count, length, arith, Bool-cases, inl,
  inr,
}
use bounded_refund_agent.Result.{Result, ok, err}
use bounded_refund_agent.Seed.Rows.{Rng}
use bounded_refund_agent.Scenario.{ScenarioSpec}
use bounded_refund_agent.Evals.Criteria.{release_criteria}
use bounded_refund_agent.Evals.Score.{Oracle, ScenarioResult}
use bounded_refund_agent.Evals.Score.Aggregate.{Payload, evaluate_release}
use bounded_refund_agent.Evals.Score.Passed.{IsCleanScenario, passed-IsClean}
use bounded_refund_agent.Cli.{Line, Ending, exits}
use bounded_refund_agent.Cli.Commands.{cmd_eval, evaluated}

-- A report of the evaluation, printed and passed, with what its tables show.
pub record IsReleased {G : Type 0} (rng : Rng G) (manifest : List (String × Oracle))
    (lines : List Line) : Type 0 where
  pub payload : Payload
  pub printed : lines ≡ Line.evaluation payload ∷ []
  pub passed : payload.release_verdict ≡ true
  pub judged : length payload.scenarios ≡ 24
  pub clean : All (IsCleanScenario rng manifest) payload.scenarios
  pub enough : 22 ≤ count (λ (r : ScenarioResult). r.task_success) payload.scenarios

evaluated-passed :
    (found : Result Payload) (lines : List Line)
    → evaluated found ≡ (exits 0, lines)
    → (payload : Payload) × (found ≡ ok payload)
      × (payload.release_verdict ≡ true)
      × (lines ≡ Line.evaluation payload ∷ [])
evaluated-passed (err e) lines h = cc
evaluated-passed (ok payload) lines h = elim (Bool-cases payload.release_verdict) [
  | inl t ↦ (payload, refl, t, sym (ap (λ (x : Ending × List Line). x.1) h))
  | inr f ↦ ground arith
]

-- `bra eval` ends with exit code 0 only where the report that it prints has judged 24 scenarios, and in the
-- tables of each, run on a new file, no mutation is of an action that its oracle forbids or that the scenario
-- disturbs, none is repeated, and each is paid by a consumed permit of its own; at least 22 of the scenarios
-- are successes.
pub cmd_eval-IsReleased :
    {G : Type 0} (rng : Rng G) (specs : List (String × ScenarioSpec))
    (manifest : List (String × Oracle)) (lines : List Line)
    → cmd_eval rng specs manifest ≡ (exits 0, lines)
    → IsReleased rng manifest lines
unfolding cmd_eval
cmd_eval-IsReleased rng specs manifest lines h =
    let (payload, found, pass, printed) =
      evaluated-passed (evaluate_release rng release_criteria specs manifest) lines h in
    let (judged, clean, enough) = passed-IsClean rng specs manifest payload found pass in
    record {
      payload = payload;
      printed = printed;
      passed = pass;
      judged = judged;
      clean = clean;
      enough = enough;
    }
