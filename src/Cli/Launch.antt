-- ===== src/Cli/Launch.antt =====
-- A command of app/cli.py that ends with its exit code has run the scenario in a new file.
use bounded_refund_agent.Prelude.{subst}
use bounded_refund_agent.Ledger.Same.{SameLedger}
use bounded_refund_agent.Ledger.Mirror.{IsMirrored, SameLedger-IsMirrored}
use bounded_refund_agent.Scenario.Sound.{assemble-db}
use bounded_refund_agent.Prelude.{ℕ, String, ◌≡◌, ◌∙◌, refl, sym, ap, some, List, [], ◌++◌, arith}
use bounded_refund_agent.Result.{Result, ok, err, ok_injective}
use bounded_refund_agent.Db.{Db}
use bounded_refund_agent.Runner.{run_all}
use bounded_refund_agent.Runner.Report.{RunReport}
use bounded_refund_agent.Seed.{SeededWorld}
use bounded_refund_agent.Seed.Rows.{Rng, seed_world}
use bounded_refund_agent.Seed.World.{seed_world-SameLedger}
use bounded_refund_agent.Scenario.{
  ScenarioSpec, assemble, no_rows, options_of, run_of, run_scenario, seeded_run, started,
}
use bounded_refund_agent.World.{World}
use bounded_refund_agent.Cli.{
  Line, Ending, exits, TraceDir, TraceText, built, launched, stored, unlink, execute,
}
use bounded_refund_agent.Cli.Commands.{Shows, finished, launch}

no_rows-IsMirrored : IsMirrored no_rows
no_rows-IsMirrored = record { records = refl; refunds = refl; tickets = refl }

-- The run started on an empty log and an empty trace, and it is the one of `run_scenario` in a new file.
pub record IsRun (spec : ScenarioSpec) (scenario : Result RunReport × Db)
    (ran : Result RunReport × World) : Type 0 where
  pub start : World
  pub no_event : start.audit ≡ some []
  pub no_mutation : start.db.mutation_log ≡ []
  pub mirrored : IsMirrored start.db
  pub runs : run_all (run_of spec) (options_of spec) start ≡ ran
  pub same : scenario ≡ (ran.0, ran.1.db)

module _ (spec : ScenarioSpec) where
  assembled :
      (db : Db) (w : World)
      → assemble spec db ≡ ok w
      → (w.audit ≡ some []) × (w.db.mutation_log ≡ db.mutation_log)
  unfolding assemble
  assembled db w e = ground arith

  launched-IsRun :
      (db : Db) (made : Result World) (ran : Result RunReport × World)
      → assemble spec db ≡ made
      → SameLedger no_rows db
      → launched spec made ≡ ok ran
      → IsRun spec (started spec db made) ran
  launched-IsRun db (err x) ran e empty h = cc
  launched-IsRun db (ok w) ran e empty h =
      let runs : run_all (run_of spec) (options_of spec) w ≡ ran = ok_injective h in
      record {
        start = w;
        no_event = (assembled db w e).0;
        no_mutation = (assembled db w e).1 ∙ empty.log;
        mirrored =
            subst IsMirrored (sym (assemble-db spec db w e))
              (SameLedger-IsMirrored no_rows db empty no_rows-IsMirrored);
        runs = runs;
        same = ap (λ (x : Result RunReport × World). (x.0, x.1.db)) runs;
      }

  built-IsRun :
      (made : Result (SeededWorld × Db)) (ran : Result RunReport × World)
      → ((ids : SeededWorld) (db : Db) → made ≡ ok (ids, db) → SameLedger no_rows db)
      → built spec made ≡ ok ran
      → IsRun spec (seeded_run spec no_rows made) ran
  built-IsRun (err x) ran empty h = cc
  built-IsRun (ok (ids, db)) ran empty h =
      launched-IsRun db (assemble spec db) ran refl (empty ids db refl) h

  pub execute-IsRun :
      {G : Type 0} (rng : Rng G) (ran : Result RunReport × World)
      → execute rng spec ≡ ok ran
      → IsRun spec (run_scenario rng spec no_rows) ran
  unfolding execute run_scenario
  execute-IsRun rng ran =
      built-IsRun (seed_world rng spec.world no_rows) ran
        (λ ids db e. seed_world-SameLedger rng spec.world no_rows db ids e)

-- A command that ends with an exit code has printed a run that returned, and stored its trace.
pub record IsShown (text : TraceText) (executed : Result (Result RunReport × World)) (name : String)
    (before : List Line) (shows : Shows) (traces : TraceDir) (lines : List Line) (left : TraceDir)
    : Type 0 where
  pub report : RunReport
  pub world : World
  pub ran : executed ≡ ok (ok report, world)
  pub printed : lines ≡ before ++ shows report world
  pub kept : left ≡ stored text name world.audit traces

finished-IsShown :
    (text : TraceText) (executed : Result (Result RunReport × World)) (name : String)
    (before : List Line) (shows : Shows) (traces : TraceDir) (lines : List Line) (left : TraceDir)
    (code : ℕ)
    → finished text name before shows traces executed ≡ (exits code, lines, left)
    → IsShown text executed name before shows traces lines left
finished-IsShown text (err e) name before shows traces lines left code h = cc
finished-IsShown text (ok (err e, w)) name before shows traces lines left code h = cc
finished-IsShown text (ok (ok r, w)) name before shows traces lines left code h = record {
  report = r;
  world = w;
  ran = refl;
  printed = sym (ap (λ (x : Ending × List Line × TraceDir). x.1) h);
  kept = sym (ap (λ (x : Ending × List Line × TraceDir). x.2) h);
}

pub launch-IsShown :
    {G : Type 0} (text : TraceText) (rng : Rng G) (name : String) (spec : ScenarioSpec)
    (before : List Line) (shows : Shows) (traces : TraceDir) (lines : List Line) (left : TraceDir)
    (code : ℕ)
    → launch text rng name spec before shows traces ≡ (exits code, lines, left)
    → IsShown text (execute rng spec) name before shows (unlink name traces) lines left
unfolding launch
launch-IsShown text rng name spec before shows traces lines left code =
    finished-IsShown text (execute rng spec) name before shows (unlink name traces) lines left code
