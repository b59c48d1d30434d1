-- ===== src/Scenario/Sound.antt =====
-- The ledger that `run_scenario` of app/agent/runner.py leaves in a new file.
use bounded_refund_agent.Prelude.{◌≡◌, refl, subst, sym, arith}
use bounded_refund_agent.Result.{Result, ok, err}
use bounded_refund_agent.Db.{Db}
use bounded_refund_agent.Ledger.Same.{SameLedger}
use bounded_refund_agent.Ledger.Backing.{IsBacked, IsSafe-IsBacked, SameLedger-IsBacked}
use bounded_refund_agent.Ledger.Growth.{IsPaid, IsSafe-IsPaid, SameLedger-IsPaid}
use bounded_refund_agent.Ledger.Mirror.{IsMirrored, IsSafe-IsMirrored, SameLedger-IsMirrored}
use bounded_refund_agent.Safety.Core.{IsSafe}
use bounded_refund_agent.Safety.Whole.{run_all-Leads}
use bounded_refund_agent.Seed.{SeededWorld}
use bounded_refund_agent.Seed.Rows.{Rng, seed_world}
use bounded_refund_agent.Seed.World.{seed_world-SameLedger}
use bounded_refund_agent.Scenario.{
  ScenarioSpec, assemble, no_rows, options_of, run_of, run_scenario, seeded_run, started,
}
use bounded_refund_agent.World.{World}

-- A property of the ledger that the three writes keep and that only the ledger decides.
record IsLedgerSafe (Q : Db → Type 0) : Type 0 where
  safe : IsSafe Q
  same : (db db' : Db) → SameLedger db db' → Q db → Q db'

pub assemble-db : (spec : ScenarioSpec) (db : Db) (w : World) → assemble spec db ≡ ok w → w.db ≡ db
unfolding assemble
assemble-db spec db w e = ground arith

module _ {Q : Db → Type 0} (s : IsLedgerSafe Q) (spec : ScenarioSpec) where
  started-keeps :
      (db : Db) (made : Result World) → assemble spec db ≡ made → Q db → Q (started spec db made).1
  started-keeps db (err x) e q = q
  started-keeps db (ok w) e q =
      (run_all-Leads s.safe (run_of spec) (options_of spec)).at w
        (subst Q (sym (assemble-db spec db w e)) q)

  seeded_run-keeps :
      (db : Db) (made : Result (SeededWorld × Db))
      → ((ids : SeededWorld) (seeded : Db) → made ≡ ok (ids, seeded) → SameLedger db seeded)
      → Q db
      → Q (seeded_run spec db made).1
  seeded_run-keeps db (err x) kept q = q
  seeded_run-keeps db (ok (ids, seeded)) kept q =
      started-keeps seeded (assemble spec seeded) refl (s.same db seeded (kept ids seeded refl) q)

run_scenario-keeps :
    {Q : Db → Type 0} (s : IsLedgerSafe Q) {G : Type 0} (rng : Rng G) (spec : ScenarioSpec)
    (db : Db)
    → Q db
    → Q (run_scenario rng spec db).1
unfolding run_scenario
run_scenario-keeps s rng spec db q =
    seeded_run-keeps s spec db (seed_world rng spec.world db)
      (λ ids seeded e. seed_world-SameLedger rng spec.world db seeded ids e) q

-- Whatever a scenario declares, whatever numbers are drawn, whatever is proposed and whatever fails: in
-- the tables that a scenario leaves in a new file, also where it raises, every logged mutation has a
-- consumed permit for its action, its resource and, of a refund, at least its amount; the log is no longer
-- than the number of consumed permits; and the execution records, the refunds and the tickets are row by
-- row those of the log.
pub run_scenario-IsSound :
    {G : Type 0} (rng : Rng G) (spec : ScenarioSpec)
    → IsBacked (run_scenario rng spec no_rows).1
      × IsPaid (run_scenario rng spec no_rows).1
      × IsMirrored (run_scenario rng spec no_rows).1
run_scenario-IsSound rng spec = (
  run_scenario-keeps (record { safe = IsSafe-IsBacked; same = SameLedger-IsBacked }) rng spec
      no_rows tt,
  run_scenario-keeps (record { safe = IsSafe-IsPaid; same = SameLedger-IsPaid }) rng spec no_rows
      (omega arith),
  run_scenario-keeps (record { safe = IsSafe-IsMirrored; same = SameLedger-IsMirrored }) rng spec
      no_rows (record { records = refl; refunds = refl; tickets = refl }),
)
