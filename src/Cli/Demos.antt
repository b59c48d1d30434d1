-- ===== src/Cli/Demos.antt =====
-- What `bra demo` of app/cli.py prints of commits: in its trace, row by row, and as a number.
use bounded_refund_agent.Prelude.{
  ℕ, String, ◌≡◌, ◌∙◌, refl, sym, subst, ap, Option, none, some, List, [], count, arith, is_some,
}
use bounded_refund_agent.Result.{Result, ok}
use bounded_refund_agent.Db.{Db, mutation_count}
use bounded_refund_agent.Audit.{Event}
use bounded_refund_agent.Flow.Shape.{is_commit_event}
use bounded_refund_agent.Trace.{commits, commits_in, mutations}
use bounded_refund_agent.Trace.Whole.{run_all-reports_each}
use bounded_refund_agent.Runner.Report.{RunReport}
use bounded_refund_agent.Seed.Rows.{Rng}
use bounded_refund_agent.Scenario.{ScenarioSpec, options_of, run_of}
use bounded_refund_agent.World.{World}
use bounded_refund_agent.Cli.{
  ScenarioFile, ScenarioDir, TraceDir, TraceText, Line, Message, exits, aborts, Ran, demos,
  events_of, execute, lower, shown_run,
}
use bounded_refund_agent.Cli.Commands.{cmd_demo, demo_lines, demonstrate, intro_lines, launch}
use bounded_refund_agent.Cli.Launch.{IsRun, IsShown, execute-IsRun, launch-IsShown}
use bounded_refund_agent.Cli.Tally.{
  Counts, Counts-IsHonest, IsHonest, demo_lines-Counts, intro_lines-Counts,
}

commits_shown :
    (w : World) (audit : Option (List Event))
    → w.audit ≡ audit
    → commits w ≡ count is_commit_event (events_of w)
commits_shown w none e = rw (e) refl
commits_shown w (some es) e = rw (e) refl

no_mutations : (id : String) (w : World) → w.db.mutation_log ≡ [] → mutations id w ≡ 0
unfolding mutation_count
no_mutations id w e = rw (e) refl

-- A run on an empty log reports each row under its identifier.
IsRun-reports :
    (spec : ScenarioSpec) (report : RunReport) (w : World) {scenario : Result RunReport × Db}
    → IsRun spec scenario (ok report, w)
    → count is_commit_event (events_of w) ≡ mutation_count (some (run_of spec).run_id) w.db
IsRun-reports spec report w r =
    let ran = r.runs in
    let each =
      run_all-reports_each (run_of spec) (options_of spec) r.start report (ap is_some r.no_event)
        (ap (λ (x : Result RunReport × World). x.0) ran) in
    let later = ap (λ (x : Result RunReport × World). commits x.1) ran in
    let logged = ap (λ (x : Result RunReport × World). mutations (run_of spec).run_id x.1) ran in
    let none_logged = no_mutations (run_of spec).run_id r.start r.no_mutation in
    let none_told = ap commits_in r.no_event in
    let told = commits_shown w w.audit refl in omega arith

module _ (fetchone : (A : Type 0) → List A → Option A) (text : TraceText) {G : Type 0} (rng : Rng G)
    (scenarios : ScenarioDir) where
  shown-IsHonest :
      (name : String) (spec : ScenarioSpec) (before lines : List Line) (traces left : TraceDir)
      → shown_run name spec ≡ (run_of spec).run_id
      → Counts 0 0 0 before
      → IsShown text
          (execute rng spec)
          name
          before
          (demo_lines fetchone name spec)
          traces
          lines
          left
      → IsHonest lines
  shown-IsHonest name spec before lines traces left own silent h =
      let told =
        IsRun-reports spec h.report h.world (execute-IsRun spec rng (ok h.report, h.world) h.ran) in
      let counts = demo_lines-Counts fetchone before name spec h.report h.world silent in
      let same = told ∙ ap (λ id. mutation_count (some id) (h.world).db) (sym own) in
      subst IsHonest (sym h.printed) (Counts-IsHonest same counts)

  abbrev OwnIds : Type 0
  OwnIds =
      (name : String) (file : ScenarioFile)
      → scenarios name ≡ some file
      → shown_run name file.spec ≡ (run_of file.spec).run_id

  found-IsHonest :
      (given name blurb : String) (lines : List Line) (traces left : TraceDir) (code : ℕ)
      (found : Option ScenarioFile)
      → ((file : ScenarioFile)
          → found ≡ some file
          → shown_run name file.spec ≡ (run_of file.spec).run_id)
      → (elim found as (λ (x : Option ScenarioFile). Ran) [
        | none ↦ (aborts (Message.no_scenario_file name), [], traces)
        | some file ↦
            launch text rng name file.spec
              (intro_lines (lower given) name blurb file)
              (demo_lines fetchone name file.spec)
              traces
      ])
        ≡ (exits code, lines, left)
      → IsHonest lines
  found-IsHonest given name blurb lines traces left code none own h = cc
  found-IsHonest given name blurb lines traces left code (some file) own h =
      shown-IsHonest name file.spec _ lines _ left (own file refl)
        (intro_lines-Counts (lower given) name blurb file)
        (launch-IsShown text rng name file.spec _ _ traces lines left code h)

  demonstrated-IsHonest :
      (given : String) (demo : Option (String × String)) (lines : List Line)
      (traces left : TraceDir) (code : ℕ)
      → OwnIds
      → demonstrate fetchone text rng scenarios given demo traces ≡ (exits code, lines, left)
      → IsHonest lines
  demonstrated-IsHonest given none lines traces left code own h = cc
  demonstrated-IsHonest given (some (name, blurb)) lines traces left code own h =
      found-IsHonest given name blurb lines traces left code (scenarios name) (own name) h

  -- A demo that ends with an exit code has printed as many events that report a commit as rows of the log of
  -- mutations, and that number: in its trace, under `mutation_log`, and in its last line. Each file of the
  -- scenarios either gives its run identifier or has its own name as scenario identifier.
  pub cmd_demo-IsHonest :
      (given : String) (traces : TraceDir) (code : ℕ) (lines : List Line) (left : TraceDir)
      → ((name : String) (file : ScenarioFile)
          → scenarios name ≡ some file
          → shown_run name file.spec ≡ (run_of file.spec).run_id)
      → cmd_demo fetchone text rng scenarios given traces ≡ (exits code, lines, left)
      → IsHonest lines
  unfolding cmd_demo
  cmd_demo-IsHonest given traces code lines left own =
      demonstrated-IsHonest given (demos (lower given)) lines traces left code own
