-- ===== src/Evals.antt =====
-- evals/run_eval.py and evals/release_criteria.py: the judgement of a run from its tables.
pub mod Observe
pub mod Judge
pub mod Bypass
pub mod Criteria
pub mod Score
