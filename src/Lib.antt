-- ===== src/Lib.antt =====
-- A refund agent whose planner only proposes: every proposal passes a schema gate, a deterministic
-- policy decides, the server issues a permit for the decision, and an executor checks the permit and
-- writes in one transaction. This library models that program and its failure injection.
--
-- How the parts work together (app/agent/runner.py): `run` asks the planner for a proposal, `_validate`
-- is the gate, `_snapshot` reads the tables through the read tools, `rules.evaluate` decides,
-- `PermitIssuer.issue_permit` inserts a permit, `Executor.execute` runs its checks and `_commit`, a lost
-- response is retried once with the same permit, a stale version is planned again once, an escalation
-- writes a ticket through a permit of its own, and `_verify` and `_report` read the tables back.
--
-- Files and code:
--   Domain, Domain/Transitions: app/models/domain.py (enumerations, transition tables, records).
--   Schemas, Schemas/Gate: app/models/schemas.py, and `_validate` and `_raw_order_id` of
--     app/agent/runner.py.
--   Clock: app/clock.py. An instant is a number of microseconds; a text is what `datetime` reads in it.
--   Policy: app/policy/rules.py and app/policy/constants.py.
--   Db, Db/Tables, Tx: app/models/db.py. A table is the list of its rows; a transaction is a function
--     from the tables to a value and tables, or to an exception, after which the old tables stand.
--   WriteTools: app/tools/write_tools.py and app/executor/_authority.py.
--   Permits: app/executor/permits.py. Executor, Executor/Commit: app/executor/executor.py.
--   ReadTools: app/tools/read_tools.py. Failures, Injection: simulator/failures.py.
--   Seed, Seed/Rows: simulator/data.py; `random.Random` is a parameter. Scenario: `build_runner` and
--     `run_scenario` of app/agent/runner.py, with `from_dict` of simulator/failures.py.
--   Evals/Observe, Evals/Judge, Evals/Bypass, Evals/Score (with Rate and Aggregate): evals/run_eval.py.
--     Evals/Criteria: evals/release_criteria.py.
--   LivePlanner: app/agent/live_planner.py; the SDK's client and `json.loads` are parameters.
--   Audit: app/audit.py. Runner, Runner/Attempts, Runner/Report: app/agent/runner.py and the scripted
--     planner of app/agent/planner.py.
--   World: the objects that these share (connection, clock, injector, trace, recorder, issuer, planner)
--     as one record, and the monad of actions on it, which may raise. World/Leads and
--     World/Yields: rules for properties of the tables from before to after an action, and of its value.
--   Flow: what the shared objects only let grow or shrink in a run, with Flow/Calls, Flow/Execution and
--     Flow/Advance on its parts, and Flow/Fuel on the fuel of its loop. Flow/Shape is the interface of a
--     property of actions; Flow/Runs and Flow/Whole carry any such property through a run.
--   Trace, with Trace/Quiet, Trace/Parts, Trace/Checks, Trace/Targets, Trace/Execution, Trace/Whole and
--     Trace/Ended: the events of app/audit.py that report a commit against the rows of the log.
--   Cli, Cli/Commands: app/cli.py. Cli/Launch, Cli/Runs, Cli/Tally, Cli/Demos, Cli/Shown, Cli/Traces and
--     Cli/Release: what the commands print. SQLite's choice among the rows of a query without an order
--     is a parameter, and so are `json` and `str.splitlines` in the texts of the traces.
--   Safety: the properties of the tables that the edits of the injector, the insertion of a permit and
--     the executor's transaction keep, carried through the parts of a run.
--   Effect: what a transaction writes, table by table. Tx/Ensures: rules for what a transaction that
--     commits has reached. Ledger: the invariants of the tables; Ledger/Book: an abstract book of
--     permits and entries, and the steps that it may take. Ledger/Keys: the primary and foreign keys of
--     the tables, and Ledger/Inserts, Ledger/Updates, Ledger/Inserted, Ledger/Written and Ledger/Typed on
--     the statements, the transaction and the runs that keep them.
--   Schemas/Bounds, Policy/Refund, Policy/Cancel, Policy/Ladder, Failures/Budget, WriteTools/Guard,
--     ReadTools/Retries, Executor/Replay, Executor/Commits, Safety/Refusals, Safety/Rejected,
--     Seed/Keeps, Seed/World, Seed/Payments, Scenario/Sound, LivePlanner/Gate, Evals/Observe/Agrees,
--     Evals/Judge/Exact, Evals/Bypass/Cover, Evals/Criteria/Gates, Evals/Score/Sums,
--     Evals/Score/Reported and Evals/Score/Passed hold the proofs on the part that they stand under.
--   Examples: a small world and specifications, runs of the model on them, and each theorem at a
--     concrete input.
--
-- Integers: amounts and versions are unbounded integers, as in Python. SQLite's limit of 64 bits is not
-- modelled; the gate bounds an amount far below it.
-- Loops: the attempts of a run and of a read count down the source's own bounds (2 or 1, and 2). The
-- loop over follow-up proposals takes one proposal from the planner in each round and stops when none is
-- left, so its fuel is the number of proposals left. The digits of a number n have fuel n.
--
-- Not modelled: pydantic's coercions (a raw value is given with what the gate reads in it), pydantic's
-- check of the proposal that an escalation builds for an order identifier of more than 64 characters,
-- the wording of details and its cut at 200 characters, JSON, past the text of the traces, the SQLite
-- engine, `datetime`, latencies, the conversions of `int()` and `str()` on a scenario file (a specification is
-- given with its keys as optional fields), of app/cli.py `argparse`, the padding of its lines and the
-- traces that `bra eval` writes, and of evals/ the reading of files and the rendering of the reports.
-- The planner's answers are arbitrary raw proposals, so that they cover any planner. A share of an
-- evaluation is held in ten-thousandths, rounded exactly, which is what Python's floats give for
-- denominators below 160.
pub mod Prelude
pub mod Result
pub mod Clock
pub mod Domain
pub mod Schemas
pub mod Policy
pub mod Db
pub mod Tx
pub mod WriteTools
pub mod Failures
pub mod Audit
pub mod World
pub mod Injection
pub mod Flow
pub mod Permits
pub mod Executor
pub mod ReadTools
pub mod Runner
pub mod Safety
pub mod Effect
pub mod Ledger
pub mod LivePlanner
pub mod Examples
pub mod Seed
pub mod Scenario
pub mod Trace
pub mod Cli
pub mod Evals
