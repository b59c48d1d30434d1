-- ===== src/Cli/Commands.antt =====
-- The printing and the commands of app/cli.py.
use Prim.Native.String.{◌++◌ as ◌^^◌}
use bounded_refund_agent.Prelude.{
  String, Bool, false, ◌||◌, not, Option, none, some, List, [], ◌∷◌, ◌++◌, ◌==◌, count, find, map,
  select, length, if◌then◌else◌,
}
use bounded_refund_agent.Result.{Result, ok, err, ◌>>=◌}
use bounded_refund_agent.Db.{
  Db, OrderRow, PaymentRow, ShipmentRow, RefundRow, TicketRow, LogRow, mutation_count,
  mutation_log_rows,
}
use bounded_refund_agent.Audit.{Event}
use bounded_refund_agent.Runner.Report.{RunReport, sum_refunds}
use bounded_refund_agent.Seed.{get_or}
use bounded_refund_agent.Seed.Rows.{Rng}
use bounded_refund_agent.Scenario.{ScenarioSpec}
use bounded_refund_agent.Evals.Observe.{order_by, status_of}
use bounded_refund_agent.Evals.Score.{Oracle}
use bounded_refund_agent.Evals.Criteria.{release_criteria}
use bounded_refund_agent.Evals.Score.Aggregate.{Payload, evaluate_release}
use bounded_refund_agent.World.{World}
use bounded_refund_agent.Cli.{
  ScenarioFile, ScenarioDir, TraceDir, TraceText, Line, Message, Ending, exits, aborts, raises, Ran,
  demos, lower, shown_run, unlink, stored, events_of, execute, print_trace, or_missing,
}

-- `print_mutations`
abbrev pub mutation_line : LogRow → Line
mutation_line row = Line.mutation row.action row.resource_id row.amount_cents

abbrev pub mutation_lines : List LogRow → List Line
mutation_lines [] = Line.no_mutation ∷ []
mutation_lines (row ∷ rows) = map mutation_line (row ∷ rows)

unfoldable pub print_mutations : Db → String → List Line
unfolding mutation_log_rows mutation_count
print_mutations db run =
    Line.mutation_log
    ∷ (mutation_lines (mutation_log_rows run db)
        ++ Line.committed (mutation_count (some run) db) ∷ [])

-- What a command prints of a run that has returned.
abbrev pub Shows : Type 0
Shows = RunReport → World → List Line

-- The run of a command: the old trace is removed, and the new one is what the run has emitted.
abbrev pub finished :
    TraceText → String → List Line → Shows → TraceDir → Result (Result RunReport × World) → Ran
finished text name before shows traces (err e) = (raises e, before, traces)
finished text name before shows traces (ok (err e, w)) =
    (raises e, before, stored text name w.audit traces)
finished text name before shows traces (ok (ok report, w)) =
    (exits 0, before ++ shows report w, stored text name w.audit traces)

unfoldable pub launch :
    {G : Type 0} → TraceText → Rng G → String → ScenarioSpec → List Line → Shows → TraceDir → Ran
unfolding execute unlink stored
launch text rng name spec before shows traces =
    finished text name before shows (unlink name traces) (execute rng spec)

-- What `cmd_demo` prints before the run.
abbrev pub intro_lines : String → String → String → ScenarioFile → List Line
intro_lines key name text file =
    Line.demo key name
    ∷ Line.blurb text
    ∷ Line.user_request file.user_request
    ∷ Line.proposals (file.spec).proposals
    ∷ ((if file.has_failures then Line.failures (file.spec).failures ∷ [] else [])
        ++ ((if get_or (file.spec).replay_last_permit false
              then Line.permit_presented_again ∷ []
              else [])
            ++ Line.empty ∷ []))

-- `fetchone` gives one of the rows of a query without an order, if there are any.
module _ (fetchone : (A : Type 0) → List A → Option A) where
  unfoldable pub print_state : Db → String → String → List Line
  unfolding sum_refunds
  print_state db run order_id =
      let refunds = select (λ (r : RefundRow). r.run_id == run) db.refunds in
      Line.final_state
      ∷ Line.order (
          or_missing (
            status_of (λ (r : OrderRow). r.status)
              (fetchone OrderRow (select (λ (r : OrderRow). r.order_id == order_id) db.orders))))
      ∷ Line.payment (
          or_missing (
            status_of (λ (r : PaymentRow). r.status)
              (fetchone PaymentRow
                (select (λ (r : PaymentRow). r.order_id == order_id) db.payments))))
      ∷ Line.shipment (
          or_missing (
            status_of (λ (r : ShipmentRow). r.status)
              (fetchone ShipmentRow
                (select (λ (r : ShipmentRow). r.order_id == order_id) db.shipments))))
      ∷ Line.refunds (length refunds) (sum_refunds refunds)
      ∷ Line.tickets (count (λ (r : TicketRow). r.run_id == run) db.support_tickets)
      ∷ []

  -- What `cmd_run` and `cmd_demo` print of a run that has returned.
  abbrev pub run_lines : String → ScenarioSpec → Shows
  run_lines name spec report w =
      Line.scenario name report.outcome report.reason_code
      ∷ (map Line.note report.notes
          ++ (print_state w.db (shown_run name spec) (get_or spec.order_id "")
              ++ (print_mutations w.db (shown_run name spec) ++ Line.trace_written name ∷ [])))

  abbrev pub demo_lines : String → ScenarioSpec → Shows
  demo_lines name spec report w =
      Line.outcome report.outcome report.reason_code
      ∷ (map Line.note report.notes
          ++ (Line.empty
              ∷ (print_trace (events_of w)
                  ++ (Line.empty
                      ∷ (print_state w.db (shown_run name spec) (get_or spec.order_id "")
                          ++ Line.empty ∷ print_mutations w.db (shown_run name spec))))))

  module _ (text : TraceText) {G : Type 0} (rng : Rng G) (scenarios : ScenarioDir) where
    -- `cmd_run`
    unfoldable pub cmd_run : String → TraceDir → Ran
    unfolding launch print_state print_mutations
    cmd_run name traces = elim (scenarios name) [
      | none ↦ (aborts (Message.no_scenario_file name), [], traces)
      | some file ↦ launch text rng name file.spec [] (run_lines name file.spec) traces
    ]

    -- `cmd_demo`
    abbrev pub demonstrate : String → Option (String × String) → TraceDir → Ran
    demonstrate given none traces = (aborts (Message.unknown_demo given), [], traces)
    demonstrate given (some (name, blurb)) traces = elim (scenarios name) [
      | none ↦ (aborts (Message.no_scenario_file name), [], traces)
      | some file ↦
          launch text rng name file.spec (intro_lines (lower given) name blurb file)
            (demo_lines name file.spec) traces
    ]

    unfoldable pub cmd_demo : String → TraceDir → Ran
    unfolding demos launch print_state print_mutations print_trace
    cmd_demo given traces = demonstrate given (demos (lower given)) traces

-- `cmd_trace`
unfoldable pub trace_of : String → TraceDir → Option String
trace_of name traces = elim (find (λ (file : String × String). file.0 == name) traces) [
  | none ↦ none
  | some file ↦ some file.1
]

-- `sorted(TRACE_DIR.glob("*.jsonl"))`
abbrev pub sorted : TraceDir → TraceDir
sorted traces = order_by (λ (file : String × String). file.0 ^^ ".jsonl") traces

-- `args.run_id and event.get("run_id") != args.run_id` leaves an event out.
abbrev pub is_asked_for : String → Event → Bool
is_asked_for run e = run == "" || e.run_id == run

module _ (text : TraceText) (run : String) where
  -- The lines of a file, and then those of the files behind it.
  unfoldable pub read_lines : List String → Result (List Event) → Result (List Event)
  read_lines [] more = more
  read_lines (line ∷ lines) more =
      let rest = read_lines lines more in
      if text.is_blank line
      then rest
      else do e ← text.loads line; es ← rest; ok (if is_asked_for run e then e ∷ es else es)

  unfoldable pub read_files : List String → Result (List Event)
  unfolding read_lines
  read_files [] = ok []
  read_files (file ∷ files) = read_lines (text.splitlines file) (read_files files)

  abbrev pub traced : Result (List Event) → TraceDir → Ran
  traced (err e) traces = (raises e, [], traces)
  traced (ok []) traces = (aborts (Message.no_events run), [], traces)
  traced (ok (e ∷ es)) traces = (exits 0, print_trace (e ∷ es), traces)

  abbrev pub traced_scenario : String → Option String → TraceDir → Ran
  traced_scenario name none traces = (aborts (Message.no_trace name), [], traces)
  traced_scenario name (some file) traces = traced (read_files (file ∷ [])) traces

  unfoldable pub cmd_trace : String → TraceDir → Ran
  unfolding trace_of read_files order_by print_trace
  cmd_trace name traces =
      if not (name == "")
      then traced_scenario name (trace_of name traces) traces
      else if not (run == "")
      then traced (read_files (map (λ (file : String × String). file.1) (sorted traces))) traces
      else (aborts Message.no_argument, [], traces)

-- `main` of evals/run_eval.py, and so `cmd_eval`; the traces that the evaluation writes are left out.
abbrev pub evaluated : Result Payload → Ending × List Line
evaluated (err e) = (raises e, [])
evaluated (ok payload) =
    (exits (if payload.release_verdict then 0 else 1), Line.evaluation payload ∷ [])

unfoldable pub cmd_eval :
    {G : Type 0}
    → Rng G
    → List (String × ScenarioSpec)
    → List (String × Oracle)
    → Ending × List Line
unfolding evaluate_release
cmd_eval rng specs manifest = evaluated (evaluate_release rng release_criteria specs manifest)
