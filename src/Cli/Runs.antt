-- ===== src/Cli/Runs.antt =====
-- What `bra run` of app/cli.py prints against the report of the run.
use bounded_refund_agent.Prelude.{
  ℕ, String, ltb, ◌≡◌, ◌∙◌, refl, sym, subst, ap, Bool, true, false, ◌==◌, Option, none, some, List,
  [], ◌∷◌, ◌++◌, map, select, select-append, length, length-select,
}
use bounded_refund_agent.Result.{Result, ok}
use bounded_refund_agent.Schemas.{Outcome, ReasonCode, VerifiedState}
use bounded_refund_agent.Db.{Db, LogRow, TicketRow, mutation_count, mutation_log_rows}
use bounded_refund_agent.Ledger.Mirror.{IsMirrored}
use bounded_refund_agent.Ledger.Reported.{run_all-Yields}
use bounded_refund_agent.Runner.Report.{RunReport, refunds_of, sum_refunds, summarise, tickets_of}
use bounded_refund_agent.Seed.{get_or}
use bounded_refund_agent.Seed.Rows.{Rng}
use bounded_refund_agent.Scenario.{ScenarioSpec, no_rows, options_of, run_of, run_scenario}
use bounded_refund_agent.World.{Note, Run, World}
use bounded_refund_agent.Cli.{
  ScenarioFile, ScenarioDir, TraceDir, TraceText, Line, Message, exits, aborts, Ran, execute,
  shown_run,
}
use bounded_refund_agent.Cli.Commands.{
  cmd_run, launch, mutation_line, mutation_lines, print_mutations, print_state, run_lines,
}
use bounded_refund_agent.Cli.Launch.{IsRun, IsShown, execute-IsRun, launch-IsShown}

-- The lines with the figures of the run.
abbrev pub is_figure : Line → Bool
is_figure (Line.scenario name outcome reason) = true
is_figure (Line.refunds n total) = true
is_figure (Line.tickets n) = true
is_figure (Line.committed n) = true
is_figure _ = false

notes_show_nothing : (notes : List Note) → select is_figure (map Line.note notes) ≡ []
notes_show_nothing [] = refl
notes_show_nothing (n ∷ ns) = notes_show_nothing ns

rows_show_nothing : (rows : List LogRow) → select is_figure (map mutation_line rows) ≡ []
rows_show_nothing [] = refl
rows_show_nothing (row ∷ rows) = rows_show_nothing rows

mutation_lines_show_nothing : (rows : List LogRow) → select is_figure (mutation_lines rows) ≡ []
mutation_lines_show_nothing [] = refl
mutation_lines_show_nothing (row ∷ rows) = rows_show_nothing (row ∷ rows)

-- The figures, in the order of the output.
abbrev figures : String → RunReport → String → Db → List Line
figures name report run db =
    Line.scenario name report.outcome report.reason_code
    ∷ Line.refunds (length (refunds_of run db)) (sum_refunds (refunds_of run db))
    ∷ Line.tickets (length (tickets_of run db))
    ∷ Line.committed (mutation_count (some run) db)
    ∷ []

print_mutations-figures :
    (db : Db) (run : String)
    → select is_figure (print_mutations db run) ≡ Line.committed (mutation_count (some run) db) ∷ []
unfolding print_mutations
print_mutations-figures db run =
    let rest = Line.committed (mutation_count (some run) db) ∷ [] in
    let split = select-append is_figure (mutation_lines (mutation_log_rows run db)) rest in
    split ∙ ap (λ l. l ++ rest) (mutation_lines_show_nothing (mutation_log_rows run db))

module _ (fetchone : (A : Type 0) → List A → Option A) where
  print_state-figures :
      (db : Db) (run id : String)
      → select is_figure (print_state fetchone db run id)
        ≡ Line.refunds (length (refunds_of run db)) (sum_refunds (refunds_of run db))
          ∷ Line.tickets (length (tickets_of run db))
          ∷ []
  unfolding print_state refunds_of tickets_of
  print_state-figures db run id =
      ap
        (λ n.
          Line.refunds (length (refunds_of run db)) (sum_refunds (refunds_of run db))
          ∷ Line.tickets n
          ∷ [])
        (sym (length-select (λ (r : TicketRow). r.run_id == run) db.support_tickets))

  run_lines-figures :
      (name : String) (spec : ScenarioSpec) (report : RunReport) (w : World)
      → select is_figure (run_lines fetchone name spec report w)
        ≡ figures name report (shown_run name spec) w.db
  run_lines-figures name spec report w =
      let run = shown_run name spec in
      let state = print_state fetchone w.db run (get_or spec.order_id "") in
      let log = print_mutations w.db run in
      let written = Line.trace_written name ∷ [] in
      let a = select-append is_figure (map Line.note report.notes) (state ++ (log ++ written)) in
      let b = select-append is_figure state (log ++ written) in
      let c = select-append is_figure log written in
      let d = notes_show_nothing report.notes in
      let e = print_state-figures w.db run (get_or spec.order_id "") in
      let f = print_mutations-figures w.db run in
      ap (λ l. Line.scenario name report.outcome report.reason_code ∷ l)
        (rw (a, b, c, d, e, f) refl)

-- The figures that the tables show are those of the report.
pub record IsFigured (run : String) (r : RunReport) (db : Db) : Type 0 where
  pub refunded : sum_refunds (refunds_of run db) ≡ r.refund_amount_cents
  pub refund : ltb 0 (length (refunds_of run db)) ≡ r.refund_created
  pub ticket : ltb 0 (length (tickets_of run db)) ≡ r.support_ticket_created
  pub mutations : mutation_count (some run) db ≡ r.mutation_count

summarise-IsFigured :
    (run : Run) (outcome : Outcome) (reason : ReasonCode) (final : VerifiedState) (w : World)
    → IsMirrored w.db
    → (db : Db) → db ≡ w.db
    → IsFigured run.run_id (summarise run outcome reason final w) db
unfolding summarise mutation_count mutation_log_rows
summarise-IsFigured run outcome reason final w m db e =
    subst (IsFigured run.run_id (summarise run outcome reason final w)) (sym e) (record {
      refunded = refl;
      refund = refl;
      ticket = refl;
      mutations =
          sym (length-select (λ (row : LogRow). row.run_id == run.run_id) w.db.mutation_log);
    })

IsRun-IsFigured :
    (spec : ScenarioSpec) (report : RunReport) (w : World) {scenario : Result RunReport × Db}
    → IsRun spec scenario (ok report, w)
    → IsFigured (run_of spec).run_id report w.db
IsRun-IsFigured spec report w r =
    subst
      (λ (x : Result RunReport × World).
        x.0 ≡ ok report → IsFigured (run_of spec).run_id report x.1.db)
      r.runs
      ((run_all-Yields (run_of spec) {T = IsFigured (run_of spec).run_id}
          (summarise-IsFigured (run_of spec)) (options_of spec)).at
        r.start r.mirrored report)
      refl

-- A report, and lines that show its figures.
pub record IsTold (name : String) (scenario : Result RunReport × Db) (lines : List Line)
    : Type 0 where
  pub report : RunReport
  pub returned : scenario.0 ≡ ok report
  pub refunds : ℕ
  pub tickets : ℕ
  pub shown :
      select is_figure lines
      ≡ Line.scenario name report.outcome report.reason_code
        ∷ Line.refunds refunds report.refund_amount_cents
        ∷ Line.tickets tickets
        ∷ Line.committed report.mutation_count
        ∷ []
  pub refund : ltb 0 refunds ≡ report.refund_created
  pub ticket : ltb 0 tickets ≡ report.support_ticket_created

module _ (fetchone : (A : Type 0) → List A → Option A) (text : TraceText) {G : Type 0} (rng : Rng G)
    (scenarios : ScenarioDir) where
  shown-IsTold :
      (name : String) (spec : ScenarioSpec) (lines : List Line) (traces left : TraceDir)
      → shown_run name spec ≡ (run_of spec).run_id
      → IsShown text (execute rng spec) name [] (run_lines fetchone name spec) traces lines left
      → IsTold name (run_scenario rng spec no_rows) lines
  shown-IsTold name spec lines traces left own h =
      let ran = execute-IsRun spec rng (ok h.report, h.world) h.ran in
      let f =
        subst (λ id. IsFigured id h.report h.world.db) (sym own)
          (IsRun-IsFigured spec h.report h.world ran) in
      record {
        report = h.report;
        returned = ap (λ (x : Result RunReport × Db). x.0) ran.same;
        refunds = length (refunds_of (shown_run name spec) h.world.db);
        tickets = length (tickets_of (shown_run name spec) h.world.db);
        shown =
            ap (select is_figure) h.printed
            ∙ (run_lines-figures fetchone name spec h.report h.world ∙ λ i.
                Line.scenario name (h.report).outcome (h.report).reason_code
                ∷ Line.refunds (length (refunds_of (shown_run name spec) h.world.db)) (f.refunded i)
                ∷ Line.tickets (length (tickets_of (shown_run name spec) h.world.db))
                ∷ Line.committed (f.mutations i)
                ∷ []);
        refund = f.refund;
        ticket = f.ticket;
      }

  loaded-IsTold :
      (name : String) (file : ScenarioFile) (found : Option ScenarioFile) (lines : List Line)
      (traces left : TraceDir) (code : ℕ)
      → found ≡ some file
      → shown_run name file.spec ≡ (run_of file.spec).run_id
      → (elim found as (λ (x : Option ScenarioFile). Ran) [
        | none ↦ (aborts (Message.no_scenario_file name), [], traces)
        | some file ↦ launch text rng name file.spec [] (run_lines fetchone name file.spec) traces
      ])
        ≡ (exits code, lines, left)
      → IsTold name (run_scenario rng file.spec no_rows) lines
  loaded-IsTold name file none lines traces left code e own h = cc
  loaded-IsTold name file (some other) lines traces left code e own h =
      let same : other ≡ file = cc e in
      shown-IsTold name file.spec lines _ left own (
        launch-IsShown text rng name file.spec [] _ traces lines left code (
          subst
            (λ (f : ScenarioFile).
              launch text rng name f.spec [] (run_lines fetchone name f.spec) traces
              ≡ (exits code, lines, left))
            same h))

  -- A run of the command line that ends with an exit code has printed the figures of the report that the
  -- scenario returns in a new file: its outcome and reason, its refunded amount, its number of mutations, and
  -- numbers of refunds and tickets that are above 0 exactly where the report says that there are any. The file
  -- of the scenario either gives its run identifier or has its own name as scenario identifier.
  pub cmd_run-IsTold :
      (name : String) (file : ScenarioFile) (traces : TraceDir) (code : ℕ) (lines : List Line)
      (left : TraceDir)
      → scenarios name ≡ some file
      → shown_run name file.spec ≡ (run_of file.spec).run_id
      → cmd_run fetchone text rng scenarios name traces ≡ (exits code, lines, left)
      → IsTold name (run_scenario rng file.spec no_rows) lines
  unfolding cmd_run
  cmd_run-IsTold name file traces code lines left =
      loaded-IsTold name file (scenarios name) lines traces left code
