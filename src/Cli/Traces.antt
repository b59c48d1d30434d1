-- ===== src/Cli/Traces.antt =====
-- `bra trace` of app/cli.py shows the trace that `bra demo` has shown.
use Prim.Native.String.{◌++◌ as ◌^^◌}
use bounded_refund_agent.Prelude.{
  ℕ, String, ◌≡◌, ◌∙◌, refl, sym, subst, ap, Bool, true, false, Option, none, some, List, [], ◌∷◌,
  ◌==◌, eq_refl, select, All, arith, is_some, if◌then◌else◌,
}
use bounded_refund_agent.Result.{Result, ok, ok_injective}
use bounded_refund_agent.Db.{Db}
use bounded_refund_agent.Audit.{Event}
use bounded_refund_agent.Trace.Whole.{run_all-watched}
use bounded_refund_agent.Trace.Ended.{run_all_speaks}
use bounded_refund_agent.Runner.Report.{RunReport}
use bounded_refund_agent.Seed.Rows.{Rng}
use bounded_refund_agent.Scenario.{ScenarioSpec, options_of, run_of}
use bounded_refund_agent.World.{World}
use bounded_refund_agent.Cli.{
  append_trace, ScenarioFile, ScenarioDir, TraceDir, TraceText, text_of, Line, Message, exits,
  aborts, Ran, demos, events_of, execute, lower, print_trace, stored, unlink,
}
use bounded_refund_agent.Cli.Commands.{
  cmd_demo, cmd_trace, demo_lines, demonstrate, intro_lines, launch, read_files, read_lines,
  trace_of,
}
use bounded_refund_agent.Cli.Launch.{IsRun, IsShown, execute-IsRun, launch-IsShown}
use bounded_refund_agent.Cli.Shown.{Shown, is_trace_line, intro_lines-Shown, demo_lines-Shown}

-- `str.splitlines` of a line with no boundary in it, with a newline and more text behind it.
pub record SplitsLines (text : TraceText) : Type 0 where
  pub nothing : text.splitlines "" ≡ []
  pub line :
      (s rest : String)
      → text.has_break s ≡ false
      → text.splitlines (s ^^ ("\n" ^^ rest)) ≡ s ∷ text.splitlines rest

-- An event whose JSON text has no line boundary and is read back by `json.loads`. JSON escapes every line
-- boundary but U+0085, U+2028 and U+2029.
pub record IsReadBack (text : TraceText) (e : Event) : Type 0 where
  pub one_line : text.has_break (text.dumps e) ≡ false
  pub shown : text.is_blank (text.dumps e) ≡ false
  pub loaded : text.loads (text.dumps e) ≡ ok e

module _ (text : TraceText) (splits : SplitsLines text) where
  lines_read :
      (es : List Event)
      → All (IsReadBack text) es
      → read_lines text "" (text.splitlines (text_of text es)) (ok []) ≡ ok es
  unfolding text_of read_lines
  lines_read [] kept = rw (splits.nothing) refl
  lines_read (e ∷ es) (here, kept) =
      let split = splits.line (text.dumps e) (text_of text es) here.one_line in
      rw (split, here.shown, here.loaded, lines_read es kept) refl

-- What is appended where the old trace has been removed is found again.
stored-traced :
    (text : TraceText) (name : String) (e : Event) (es : List Event) (traces : TraceDir)
    → trace_of name (stored text name (some (e ∷ es)) (unlink name traces))
      ≡ some (text_of text (e ∷ es))
unfolding trace_of stored unlink append_trace
stored-traced text name e es [] = ground (arith, eq_refl name)
stored-traced text name e es ((other, old) ∷ traces) =
    ground (arith, eq_refl name, stored-traced text name e es traces)

IsNamed : Option (String × String) → Type 0
IsNamed none = Unit
IsNamed (some (name, blurb)) = (name == "") ≡ false

either-IsNamed :
    (b : Bool) (x y : Option (String × String))
    → IsNamed x
    → IsNamed y
    → IsNamed (if b then x else y)
either-IsNamed true x y h k = h
either-IsNamed false x y h k = k

demos-IsNamed : (key : String) → IsNamed (demos key)
unfolding demos IsNamed
demos-IsNamed key = either-IsNamed (key == "a") _ _ refl (
    either-IsNamed (key == "b") _ _ refl
      (either-IsNamed (key == "c") _ _ refl (either-IsNamed (key == "d") _ _ refl tt)))

-- What is stored of a run that has returned, and that its trace has an event.
record IsStored (text : TraceText) (name : String) (traces left : TraceDir) (w : World)
    : Type 0 where
  first : Event
  rest : List Event
  events : events_of w ≡ first ∷ rest
  kept : trace_of name left ≡ some (text_of text (first ∷ rest))

stored-IsStored :
    (text : TraceText) (name : String) (traces left : TraceDir) (w : World)
    (audit : Option (List Event))
    → w.audit ≡ audit
    → is_some w.audit ≡ true
    → ¬ (w.audit ≡ some [])
    → left ≡ stored text name w.audit (unlink name traces)
    → IsStored text name traces left w
stored-IsStored text name traces left w none e seen spoken same =
    absurd (ground (arith, ap is_some e))
stored-IsStored text name traces left w (some []) e seen spoken same = absurd (spoken e)
stored-IsStored text name traces left w (some (x ∷ xs)) e seen spoken same = record {
  first = x;
  rest = xs;
  events = rw (e) refl;
  kept =
      ap (trace_of name) (same ∙ ap (λ a. stored text name a (unlink name traces)) e)
      ∙ stored-traced text name x xs traces;
}

IsRun-IsStored :
    (text : TraceText) (spec : ScenarioSpec) (name : String) (report : RunReport) (w : World)
    (traces left : TraceDir) {scenario : Result RunReport × Db}
    → IsRun spec scenario (ok report, w)
    → left ≡ stored text name w.audit (unlink name traces)
    → IsStored text name traces left w
IsRun-IsStored text spec name report w traces left r same =
    stored-IsStored text name traces left w w.audit refl
      (subst (λ (x : Result RunReport × World). is_some x.1.audit ≡ true) r.runs
        (run_all-watched (run_of spec) (options_of spec) r.start ∙ ap is_some r.no_event))
      (subst (λ (x : Result RunReport × World). x.0 ≡ ok report → ¬ (x.1.audit ≡ some [])) r.runs
        (run_all_speaks (run_of spec) (options_of spec) r.start report) refl)
      same

-- `bra trace --scenario` prints what is stored.
stored_is_read :
    (text : TraceText) (name : String) (traces left : TraceDir) (w : World)
    → SplitsLines text
    → All (IsReadBack text) (events_of w)
    → (name == "") ≡ false
    → IsStored text name traces left w
    → cmd_trace text "" name left ≡ (exits 0, print_trace (events_of w), left)
unfolding cmd_trace read_files
stored_is_read text name traces left w splits kept named h =
    let back = subst (All (IsReadBack text)) h.events kept in
    let read = lines_read text splits (h.first ∷ h.rest) back in
    rw (named, h.kept, h.events, read) refl

module _ (fetchone : (A : Type 0) → List A → Option A) (text : TraceText) {G : Type 0} (rng : Rng G)
    (scenarios : ScenarioDir) (splits : SplitsLines text) (ran : Result RunReport × World)
    (kept : All (IsReadBack text) (events_of ran.1)) where
  launched_retraced :
      (name : String) (spec : ScenarioSpec) (before lines : List Line) (traces left : TraceDir)
      → (name == "") ≡ false
      → execute rng spec ≡ ok ran
      → Shown [] before
      → IsShown text
          (execute rng spec)
          name
          before
          (demo_lines fetchone name spec)
          (unlink name traces)
          lines
          left
      → cmd_trace text "" name left ≡ (exits 0, select is_trace_line lines, left)
  launched_retraced name spec before lines traces left named runs silent h =
      let same_run : ran ≡ (ok h.report, h.world) = ok_injective (sym runs ∙ h.ran) in
      let back =
        subst (λ (x : Result RunReport × World). All (IsReadBack text) (events_of x.1)) same_run
          kept in
      let there =
        IsRun-IsStored text spec name h.report h.world traces left
          (execute-IsRun spec rng (ok h.report, h.world) h.ran) h.kept in
      let shown = demo_lines-Shown fetchone before name spec h.report h.world silent in
      let same = ap (select is_trace_line) h.printed ∙ shown.only in
      stored_is_read text name traces left h.world splits back named there
      ∙ ap (λ (ls : List Line). (exits 0, ls, left)) (sym same)

  found-retraced :
      (given name blurb : String) (file : ScenarioFile) (lines : List Line) (traces left : TraceDir)
      (code : ℕ) (found : Option ScenarioFile)
      → found ≡ some file
      → execute rng file.spec ≡ ok ran
      → (name == "") ≡ false
      → (elim found as (λ (x : Option ScenarioFile). Ran) [
        | none ↦ (aborts (Message.no_scenario_file name), [], traces)
        | some file ↦
            launch text rng name file.spec
              (intro_lines (lower given) name blurb file)
              (demo_lines fetchone name file.spec)
              traces
      ])
        ≡ (exits code, lines, left)
      → cmd_trace text "" name left ≡ (exits 0, select is_trace_line lines, left)
  found-retraced given name blurb file lines traces left code none e runs named h = cc
  found-retraced given name blurb file lines traces left code (some other) e runs named h =
      let same : other ≡ file = cc e in
      let runs_other = subst (λ (f : ScenarioFile). execute rng f.spec ≡ ok ran) (sym same) runs in
      launched_retraced name other.spec _ lines traces left named runs_other
        (intro_lines-Shown (lower given) name blurb other)
        (launch-IsShown text rng name other.spec _ _ traces lines left code h)

  demonstrated-retraced :
      (given name blurb : String) (file : ScenarioFile) (demo : Option (String × String))
      (lines : List Line) (traces left : TraceDir) (code : ℕ)
      → scenarios name ≡ some file
      → execute rng file.spec ≡ ok ran
      → demo ≡ some (name, blurb)
      → (name == "") ≡ false
      → demonstrate fetchone text rng scenarios given demo traces ≡ (exits code, lines, left)
      → cmd_trace text "" name left ≡ (exits 0, select is_trace_line lines, left)
  demonstrated-retraced given name blurb file demo lines traces left code found runs e named h =
      found-retraced given name blurb file lines traces left code (scenarios name) found runs named
        (subst
          (λ d. demonstrate fetchone text rng scenarios given d traces ≡ (exits code, lines, left))
          e h)

  -- After a demo that has ended with an exit code, `bra trace` on its scenario ends with 0, prints exactly the
  -- lines of the trace that the demo has printed, in their order, and leaves the traces as they were, where the
  -- JSON text of each event of the run has no line boundary of `str.splitlines`, is not blank and is read back
  -- by `json.loads`.
  pub cmd_demo-retraced :
      (given name blurb : String) (file : ScenarioFile) (traces : TraceDir) (code : ℕ)
      (lines : List Line) (left : TraceDir)
      → demos (lower given) ≡ some (name, blurb)
      → scenarios name ≡ some file
      → execute rng file.spec ≡ ok ran
      → cmd_demo fetchone text rng scenarios given traces ≡ (exits code, lines, left)
      → cmd_trace text "" name left ≡ (exits 0, select is_trace_line lines, left)
  unfolding cmd_demo IsNamed
  cmd_demo-retraced given name blurb file traces code lines left e found runs =
      demonstrated-retraced given name blurb file (demos (lower given)) lines traces left code found
        runs e (subst IsNamed e (demos-IsNamed (lower given)))
