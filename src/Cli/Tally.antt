-- ===== src/Cli/Tally.antt =====
-- What the lines that app/cli.py prints count for, part by part.
use bounded_refund_agent.Prelude.{
  ℕ, ◌+◌, String, ◌≡◌, ◌==◌, ◌∙◌, refl, sym, Option, some, List, [], ◌∷◌, ◌++◌, map, count, length,
  arith, if◌then◌else◌, length-select,
}
use bounded_refund_agent.Db.{Db, LogRow, mutation_count, mutation_log_rows}
use bounded_refund_agent.Audit.{Event}
use bounded_refund_agent.Flow.Shape.{is_commit_type, is_commit_event}
use bounded_refund_agent.Seed.{get_or}
use bounded_refund_agent.World.{Note, World}
use bounded_refund_agent.Scenario.{ScenarioSpec}
use bounded_refund_agent.Runner.Report.{RunReport}
use bounded_refund_agent.Cli.{ScenarioFile, shown_run, events_of, Line, event_line, print_trace}
use bounded_refund_agent.Cli.Commands.{
  mutation_line, mutation_lines, print_mutations, print_state, intro_lines, demo_lines,
}

-- The sum of what each line counts for.
pub tally : (Line → ℕ) → List Line → ℕ
tally f [] = 0
tally f (l ∷ ls) = f l + tally f ls

tally-append : (f : Line → ℕ) (xs ys : List Line) → tally f (xs ++ ys) ≡ tally f xs + tally f ys
unfolding tally
tally-append f [] ys = omega arith
tally-append f (x ∷ xs) ys = omega (arith, tally-append f xs ys)

-- Lines of a trace that report a commit count for one.
abbrev pub commit_weight : Line → ℕ
commit_weight (Line.event time type owner resource version reason) =
    if is_commit_type type then 1 else 0
commit_weight _ = 0

-- Lines that show a row of the log count for one.
abbrev pub row_weight : Line → ℕ
row_weight (Line.mutation action resource amount) = 1
row_weight _ = 0

-- The line that gives the number of commits counts for that number.
abbrev pub total_weight : Line → ℕ
total_weight (Line.committed n) = n
total_weight _ = 0

-- The trace, the rows and the number that are printed tell of as many commits.
pub record IsHonest (lines : List Line) : Type 0 where
  pub trace : tally commit_weight lines ≡ tally row_weight lines
  pub total : tally total_weight lines ≡ tally row_weight lines

-- How much lines count for: commits in the trace, rows of the log, and the number that is given.
pub record Counts (c r t : ℕ) (lines : List Line) : Type 0 where
  commits : tally commit_weight lines ≡ c
  rows : tally row_weight lines ≡ r
  total : tally total_weight lines ≡ t

pub Counts-IsHonest : {c n : ℕ} {lines : List Line} → c ≡ n → Counts c n n lines → IsHonest lines
Counts-IsHonest same h = record {
  trace = h.commits ∙ (same ∙ sym h.rows);
  total = h.total ∙ sym h.rows;
}

-- Commits are shown before the log.
trace_before :
    {c r t : ℕ} {xs ys : List Line} → Counts c 0 0 xs → Counts 0 r t ys → Counts c r t (xs ++ ys)
trace_before {xs = xs} {ys} h k =
    let a = tally-append commit_weight xs ys in
    let b = tally-append row_weight xs ys in
    let d = tally-append total_weight xs ys in
    record {
      commits = let x = h.commits in let y = k.commits in omega arith;
      rows = let x = h.rows in let y = k.rows in omega arith;
      total = let x = h.total in let y = k.total in omega arith;
    }

-- A part that counts for nothing, before and behind.
silent_before :
    {c r t : ℕ} {xs ys : List Line} → Counts 0 0 0 xs → Counts c r t ys → Counts c r t (xs ++ ys)
silent_before {xs = xs} {ys} h k =
    let a = tally-append commit_weight xs ys in
    let b = tally-append row_weight xs ys in
    let d = tally-append total_weight xs ys in
    record {
      commits = let x = h.commits in let y = k.commits in omega arith;
      rows = let x = h.rows in let y = k.rows in omega arith;
      total = let x = h.total in let y = k.total in omega arith;
    }

line_before :
    {c r t : ℕ} {ys : List Line} (l : Line)
    → commit_weight l ≡ 0
    → row_weight l ≡ 0
    → total_weight l ≡ 0
    → Counts c r t ys
    → Counts c r t (l ∷ ys)
unfolding tally
line_before l a b d k = record {
  commits = let y = k.commits in omega arith;
  rows = let y = k.rows in omega arith;
  total = let y = k.total in omega arith;
}

notes-Counts : (notes : List Note) → Counts 0 0 0 (map Line.note notes)
unfolding tally
notes-Counts [] = record { commits = refl; rows = refl; total = refl }
notes-Counts (n ∷ ns) =
    let h = notes-Counts ns in
    record {
      commits = let x = h.commits in omega arith;
      rows = let x = h.rows in omega arith;
      total = let x = h.total in omega arith;
    }

events-Counts : (es : List Event) → Counts (count is_commit_event es) 0 0 (map event_line es)
unfolding tally
events-Counts [] = record { commits = refl; rows = refl; total = refl }
events-Counts (e ∷ es) =
    let h = events-Counts es in
    record {
      commits = let x = h.commits in ground arith;
      rows = let x = h.rows in omega arith;
      total = let x = h.total in omega arith;
    }

rows-Counts : (rows : List LogRow) → Counts 0 (length rows) 0 (map mutation_line rows)
unfolding tally
rows-Counts [] = record { commits = refl; rows = refl; total = refl }
rows-Counts (row ∷ rows) =
    let h = rows-Counts rows in
    record {
      commits = let x = h.commits in omega arith;
      rows = let x = h.rows in omega arith;
      total = let x = h.total in omega arith;
    }

pub silent :
    {lines : List Line}
    → tally commit_weight lines ≡ 0
    → tally row_weight lines ≡ 0
    → tally total_weight lines ≡ 0
    → Counts 0 0 0 lines
silent a b c = record { commits = a; rows = b; total = c }

-- The rows and their number.
mutation_lines-Counts : (rows : List LogRow) → Counts 0 (length rows) 0 (mutation_lines rows)
unfolding tally
mutation_lines-Counts [] = silent refl refl refl
mutation_lines-Counts (row ∷ rows) = rows-Counts (row ∷ rows)

logged : (db : Db) (run : String) → length (mutation_log_rows run db) ≡ mutation_count (some run) db
unfolding mutation_log_rows mutation_count
logged db run = length-select (λ (row : LogRow). row.run_id == run) db.mutation_log

print_mutations-Counts :
    (db : Db) (run : String)
    → let n = mutation_count (some run) db in Counts 0 n n (print_mutations db run)
unfolding print_mutations tally
print_mutations-Counts db run =
    let same : length (mutation_log_rows run db) ≡ mutation_count (some run) db = logged db run in
    let lines = mutation_lines (mutation_log_rows run db) in
    let n = mutation_count (some run) db in
    let h = mutation_lines-Counts (mutation_log_rows run db) in
    let a = tally-append commit_weight lines (Line.committed n ∷ []) in
    let b = tally-append row_weight lines (Line.committed n ∷ []) in
    let d = tally-append total_weight lines (Line.committed n ∷ []) in
    record {
      commits = let x = h.commits in omega arith;
      rows = let x = h.rows in omega arith;
      total = let x = h.total in omega arith;
    }

print_trace-Counts : (es : List Event) → Counts (count is_commit_event es) 0 0 (print_trace es)
unfolding print_trace tally
print_trace-Counts es =
    silent_before (silent {lines = Line.audit_trace ∷ []} refl refl refl) (events-Counts es)

pub intro_lines-Counts :
    (key name text : String) (file : ScenarioFile) → Counts 0 0 0 (intro_lines key name text file)
unfolding tally
intro_lines-Counts key name text file = silent (ground arith) (ground arith) (ground arith)

module _ (fetchone : (A : Type 0) → List A → Option A) where
  print_state-Counts : (db : Db) (run id : String) → Counts 0 0 0 (print_state fetchone db run id)
  unfolding print_state tally
  print_state-Counts db run id = silent refl refl refl

  -- The trace and the log are all that counts.
  pub demo_lines-Counts :
      (before : List Line) (name : String) (spec : ScenarioSpec) (report : RunReport) (w : World)
      → Counts 0 0 0 before
      → let n = mutation_count (some (shown_run name spec)) w.db in
        Counts
          (count is_commit_event (events_of w))
          n
          n
          (before ++ demo_lines fetchone name spec report w)
  unfolding tally
  demo_lines-Counts before name spec report w h =
      let shown = print_mutations-Counts w.db (shown_run name spec) in
      let state = print_state-Counts w.db (shown_run name spec) (get_or spec.order_id "") in
      silent_before h (
        line_before _ refl refl refl (
          silent_before (notes-Counts report.notes) (
            line_before _ refl refl refl (
              trace_before (print_trace-Counts (events_of w)) (
                line_before _ refl refl refl
                  (silent_before state (line_before _ refl refl refl shown)))))))
