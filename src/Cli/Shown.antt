-- ===== src/Cli/Shown.antt =====
-- The lines of a trace among those that app/cli.py prints, part by part.
use mathlib.Core.List.{append-nil}
use bounded_refund_agent.Prelude.{
  String, ◌≡◌, refl, ap, Bool, true, false, Option, some, List, [], ◌∷◌, ◌++◌, map, select, arith,
  select-append,
}
use bounded_refund_agent.Db.{Db, LogRow, mutation_count, mutation_log_rows}
use bounded_refund_agent.Audit.{Event}
use bounded_refund_agent.Runner.Report.{RunReport}
use bounded_refund_agent.Seed.{get_or}
use bounded_refund_agent.Scenario.{ScenarioSpec}
use bounded_refund_agent.World.{Note, World}
use bounded_refund_agent.Cli.{ScenarioFile, Line, event_line, events_of, print_trace, shown_run}
use bounded_refund_agent.Cli.Commands.{
  demo_lines, intro_lines, mutation_line, mutation_lines, print_mutations, print_state,
}

-- The lines of a trace, with its title.
abbrev pub is_trace_line : Line → Bool
is_trace_line Line.audit_trace = true
is_trace_line (Line.event time type owner resource version reason) = true
is_trace_line _ = false

-- Among the lines are those of one trace.
pub record Shown (trace lines : List Line) : Type 0 where
  pub only : select is_trace_line lines ≡ trace

before_trace : {trace xs ys : List Line} → Shown [] xs → Shown trace ys → Shown trace (xs ++ ys)
before_trace {xs = xs} {ys} h k = record {
  only = let a = select-append is_trace_line xs ys in rw (a, h.only) k.only;
}

after_trace : {trace xs ys : List Line} → Shown trace xs → Shown [] ys → Shown trace (xs ++ ys)
after_trace {trace} {xs} {ys} h k = record {
  only = let a = select-append is_trace_line xs ys in rw (a, h.only, k.only) (append-nil trace);
}

notes-Shown : (notes : List Note) → Shown [] (map Line.note notes)
notes-Shown [] = record { only = refl }
notes-Shown (n ∷ ns) = record { only = (notes-Shown ns).only }

rows-Shown : (rows : List LogRow) → Shown [] (map mutation_line rows)
rows-Shown [] = record { only = refl }
rows-Shown (row ∷ rows) = record { only = (rows-Shown rows).only }

mutation_lines-Shown : (rows : List LogRow) → Shown [] (mutation_lines rows)
mutation_lines-Shown [] = record { only = refl }
mutation_lines-Shown (row ∷ rows) = rows-Shown (row ∷ rows)

print_mutations-Shown : (db : Db) (run : String) → Shown [] (print_mutations db run)
unfolding print_mutations
print_mutations-Shown db run =
    before_trace {xs = Line.mutation_log ∷ []} (record { only = refl })
      (after_trace {ys = Line.committed (mutation_count (some run) db) ∷ []}
        (mutation_lines-Shown (mutation_log_rows run db)) (record { only = refl }))

events-Shown : (es : List Event) → Shown (map event_line es) (map event_line es)
events-Shown [] = record { only = refl }
events-Shown (e ∷ es) = record { only = ap (λ ls. event_line e ∷ ls) (events-Shown es).only }

print_trace-Shown : (es : List Event) → Shown (print_trace es) (print_trace es)
unfolding print_trace
print_trace-Shown es = record { only = ap (λ ls. Line.audit_trace ∷ ls) (events-Shown es).only }

pub intro_lines-Shown :
    (key name text : String) (file : ScenarioFile) → Shown [] (intro_lines key name text file)
intro_lines-Shown key name text file = record { only = ground arith }

module _ (fetchone : (A : Type 0) → List A → Option A) where
  print_state-Shown : (db : Db) (run id : String) → Shown [] (print_state fetchone db run id)
  unfolding print_state
  print_state-Shown db run id = record { only = refl }

  pub demo_lines-Shown :
      (before : List Line) (name : String) (spec : ScenarioSpec) (report : RunReport) (w : World)
      → Shown [] before
      → Shown (print_trace (events_of w)) (before ++ demo_lines fetchone name spec report w)
  demo_lines-Shown before name spec report w h =
      let log = print_mutations-Shown w.db (shown_run name spec) in
      let state = print_state-Shown w.db (shown_run name spec) (get_or spec.order_id "") in
      before_trace h (
        before_trace {xs = _ ∷ []} (record { only = refl })
          (before_trace (notes-Shown report.notes) (
            before_trace {xs = Line.empty ∷ []} (record { only = refl })
              (after_trace (print_trace-Shown (events_of w)) (
                before_trace {xs = Line.empty ∷ []} (record { only = refl })
                  (before_trace state
                    (before_trace {xs = Line.empty ∷ []} (record { only = refl }) log)))))))
