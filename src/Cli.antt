-- ===== src/Cli.antt =====
-- app/cli.py: the commands `demo`, `eval`, `run` and `trace`. A line of output is kept as the values it
-- shows, past their padding. A trace file is its text; `json` and `str.splitlines` are parameters. `argparse`
-- and the texts of the scenario files are not modelled.
pub mod Commands
pub mod Tally
pub mod Launch
pub mod Demos
pub mod Shown
pub mod Traces
pub mod Runs
pub mod Release
use Prim.Native.String.{◌++◌ as ◌^^◌}
use bounded_refund_agent.Prelude.{
  ℕ, ℤ, String, Bool, true, false, ◌&&◌, ◌||◌, not, Option, none, some, List, [], ◌∷◌, ◌++◌, ◌==◌,
  find, map, select, length, if◌then◌else◌,
}
use bounded_refund_agent.Result.{Result, Exception, ok, err}
use bounded_refund_agent.Clock.{IsoText}
use bounded_refund_agent.Schemas.{ActionName, DecisionOwner, Outcome, ReasonCode}
use bounded_refund_agent.Schemas.Gate.{RawProposal}
use bounded_refund_agent.Db.{
  Db, OrderRow, PaymentRow, ShipmentRow, RefundRow, TicketRow, LogRow, mutation_count,
  mutation_log_rows,
}
use bounded_refund_agent.Audit.{Event, EventType}
use bounded_refund_agent.Runner.{run_all}
use bounded_refund_agent.Runner.Report.{RunReport, sum_refunds}
use bounded_refund_agent.Seed.{SeededWorld, get_or}
use bounded_refund_agent.Seed.Rows.{Rng, seed_world}
use bounded_refund_agent.Scenario.{FailureDict, ScenarioSpec, assemble, no_rows, options_of, run_of}
use bounded_refund_agent.Evals.Observe.{status_of}
use bounded_refund_agent.Evals.Score.Aggregate.{Payload}
use bounded_refund_agent.World.{Note, World}

-- What a scenario file holds; `has_failures` is `bool(spec.get("failures"))`.
pub record ScenarioFile : Type 0 where
  pub spec : ScenarioSpec
  pub user_request : String
  pub has_failures : Bool

-- SCENARIO_DIR and TRACE_DIR, by scenario identifier.
abbrev pub ScenarioDir : Type 0
ScenarioDir = String → Option ScenarioFile

-- A trace is the text of its file.
abbrev pub TraceDir : Type 0
TraceDir = List (String × String)

-- The libraries' part in a trace: `json.dumps` of an event with ensure_ascii=False, `str.splitlines`, whether
-- a text has one of its line boundaries, whether `str.strip` leaves nothing, and `json.loads` of a line.
pub record TraceText : Type 0 where
  pub dumps : Event → String
  pub splitlines : String → List String
  pub has_break : String → Bool
  pub is_blank : String → Bool
  pub loads : String → Result Event

pub data Line : Type 0 where
  empty : Line
  demo : String → String → Line
  blurb user_request : String → Line
  proposals : List RawProposal → Line
  failures : Option FailureDict → Line
  permit_presented_again : Line
  outcome : Outcome → ReasonCode → Line
  scenario : String → Outcome → ReasonCode → Line
  note : Note → Line
  audit_trace : Line
  event : IsoText → EventType → DecisionOwner → String → ℤ → Option ReasonCode → Line
  final_state : Line
  order payment shipment : String → Line
  refunds : ℕ → ℤ → Line
  tickets : ℕ → Line
  mutation_log no_mutation : Line
  mutation : ActionName → String → ℤ → Line
  committed : ℕ → Line
  trace_written : String → Line
  evaluation : Payload → Line

-- The text of a SystemExit.
pub data Message : Type 0 where
  no_scenario_file unknown_demo no_trace : String → Message
  no_argument : Message
  no_events : String → Message

-- How a command ends: with an exit code, with a SystemExit, or with another exception.
pub data Ending : Type 0 where
  exits : ℕ → Ending
  aborts : Message → Ending
  raises : Exception → Ending

-- The end of a command, what it has printed, and the traces it leaves.
abbrev pub Ran : Type 0
Ran = Ending × List Line × TraceDir

-- DEMOS
unfoldable pub demos : String → Option (String × String)
demos key =
    if key == "a"
    then some (
      "happy_cancel_then_refund_005",
      "Normal cancel and refund: still before hand-off to the carrier, the policy allows both steps, both mutations commit, and the final state is verified by reading the tables back.",
    )
    else if key == "b"
    then some (
      "escalate_above_auto_limit_009",
      "Above the automatic refund limit: the planner proposes a 60,000 refund, the policy refuses to execute it, and a support ticket is the only thing written.",
    )
    else if key == "c"
    then some (
      "stale_shipment_shipped_018",
      "Stale state: the order is cancellable when it is read, the shipment moves to SHIPPED before the write lands, the version-guarded UPDATE misses, and nothing is mutated.",
    )
    else if key == "d"
    then some (
      "timeout_after_commit_retry_019",
      "Committed then lost: the first refund commits, the response never arrives, the same permit and idempotency key are retried, and the stored result comes back instead of a second refund.",
    )
    else none

-- `args.name.lower()`, as far as the names of the demos go
abbrev pub lower : String → String
lower name =
    if name == "A"
    then "a"
    else if name == "B"
    then "b"
    else if name == "C"
    then "c"
    else if name == "D"
    then "d"
    else name

-- `str(spec.get("run_id", f"run_{name}"))`
abbrev pub shown_run : String → ScenarioSpec → String
shown_run name spec = get_or spec.run_id ("run_" ^^ name)

-- `path.unlink()`, where the path exists
unfoldable pub unlink : String → TraceDir → TraceDir
unlink name traces = select (λ file. not (file.0 == name)) traces

-- The lines that `AuditTrace.emit` writes of events, one after the other.
unfoldable pub text_of : TraceText → List Event → String
text_of text [] = ""
text_of text (e ∷ es) = text.dumps e ^^ ("\n" ^^ text_of text es)

-- `AuditTrace.emit` opens the file to append: it makes it where there is none.
unfoldable pub append_trace : String → String → TraceDir → TraceDir
append_trace name written [] = (name, written) ∷ []
append_trace name written ((other, old) ∷ traces) =
    let rest = append_trace name written traces in
    if other == name then (other, old ^^ written) ∷ traces else (other, old) ∷ rest

-- What a run has emitted, in its file.
unfoldable pub stored : TraceText → String → Option (List Event) → TraceDir → TraceDir
unfolding text_of append_trace
stored text name none traces = traces
stored text name (some []) traces = traces
stored text name (some (e ∷ es)) traces = append_trace name (text_of text (e ∷ es)) traces

-- `list(runner.audit.events)`
abbrev pub events_of : World → List Event
events_of w = elim w.audit [ none ↦ [] | some events ↦ events ]

-- `build_runner` and `runner.run`: an exception before the run, or the run's report or exception, with
-- the world that the run leaves.
abbrev pub launched : ScenarioSpec → Result World → Result (Result RunReport × World)
launched spec (err e) = err e
launched spec (ok w) = ok (run_all (run_of spec) (options_of spec) w)

abbrev pub built : ScenarioSpec → Result (SeededWorld × Db) → Result (Result RunReport × World)
built spec (err e) = err e
built spec (ok (ids, seeded)) = launched spec (assemble spec seeded)

unfoldable pub execute : {G : Type 0} → Rng G → ScenarioSpec → Result (Result RunReport × World)
unfolding seed_world assemble run_all
execute rng spec = built spec (seed_world rng spec.world no_rows)

-- `resource or "-"`
unfoldable pub dash_or : String → String
dash_or s = if s == "" then "-" else s

abbrev pub event_line : Event → Line
event_line e =
    Line.event e.timestamp e.event_type e.decision_owner (dash_or e.resource_id) e.resource_version
      e.reason_code

unfoldable pub print_trace : List Event → List Line
unfolding dash_or
print_trace events = audit_trace ∷ map event_line events

abbrev pub or_missing : Option String → String
or_missing none = "<missing>"
or_missing (some s) = s
