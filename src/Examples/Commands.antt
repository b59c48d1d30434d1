-- ===== src/Examples/Commands.antt =====
-- The theorems on the keys of the tables, the trace of a run and the command line at concrete inputs.
use Prim.Native.Char.{Char, code}
use Prim.Native.String.append
use Prim.Native.String.{◌++◌ as ◌^^◌}
use bounded_refund_agent.Prelude
use bounded_refund_agent.Prelude.{
  ◌+◌, ◌≤◌, String, ◌≡◌, ◌∙◌, ap, refl, subst, Bool, true, false, ◌==◌, eqb, All, Bool-cases, inl,
  inr, arith, if◌then◌else◌, Option, none, some, List, [], ◌∷◌, select,
}
use bounded_refund_agent.Result.{Result, ok, err, value_error}
use bounded_refund_agent.Audit.{Event, EventType}
use bounded_refund_agent.Cli
use bounded_refund_agent.World.{World}
use bounded_refund_agent.Policy.{
  evaluate_cancel, decide_cancel, evaluate_refund, decide_refund, decide_asked, decide_amount,
  decide_window,
}
use bounded_refund_agent.Db.{parse_shipment_status}
use bounded_refund_agent.Tx.{update_where}
use bounded_refund_agent.Failures.{new_injector}
use bounded_refund_agent.Seed.{order_to_shipment}
use bounded_refund_agent.Runner.{run_all}
use bounded_refund_agent.Runner.Report.{RunReport}
use bounded_refund_agent.Scenario.{no_rows, run_of, run_scenario}
use bounded_refund_agent.Ledger.Keys.{IsTyped, keys_of}
use bounded_refund_agent.Ledger.Typed.{run_scenario-IsTyped}
use bounded_refund_agent.Trace.{commits, mutations}
use bounded_refund_agent.Trace.Whole.{run_all-reports_each}
use bounded_refund_agent.World
use bounded_refund_agent.World.{catch, transaction}
use bounded_refund_agent.Cli.{
  ScenarioFile, ScenarioDir, TraceDir, TraceText, Line, exits, execute, events_of, demos, lower,
  shown_run,
}
use bounded_refund_agent.Cli.Commands.{cmd_demo, cmd_run, cmd_trace}
use bounded_refund_agent.Cli.Tally.{IsHonest}
use bounded_refund_agent.Cli.Demos.{cmd_demo-IsHonest}
use bounded_refund_agent.Cli.Shown.{is_trace_line}
use bounded_refund_agent.Cli.Traces.{IsReadBack, SplitsLines, cmd_demo-retraced}
use bounded_refund_agent.Cli.Runs.{IsTold, cmd_run-IsTold}
use bounded_refund_agent.Examples.{the_run, options, refund_world}
use bounded_refund_agent.Examples.Specs.{still, cancel_spec}

run_scenario-IsTyped_example : IsTyped (keys_of (run_scenario still cancel_spec no_rows).1)
run_scenario-IsTyped_example = run_scenario-IsTyped still cancel_spec

reported_refund : (r : RunReport) × ((run_all the_run options refund_world).0 ≡ ok r)
unfolding run_all World.◌>>=◌ catch transaction evaluate_refund decide_refund decide_asked
    decide_amount decide_window Prelude.◌+ℤ◌ Prelude.◌*ℤ◌ update_where parse_shipment_status
reported_refund = (_, refl)

run_all-reports_each_example :
    commits (run_all the_run options refund_world).1 + mutations "run1" refund_world
    ≡ mutations "run1" (run_all the_run options refund_world).1 + commits refund_world
run_all-reports_each_example =
    run_all-reports_each the_run options refund_world reported_refund.0 refl reported_refund.1

abbrev first_row : (A : Type 0) → List A → Option A
first_row A [] = none
first_row A (row ∷ rows) = some row

abbrev cancel_file : ScenarioFile
cancel_file = record {
  spec = record cancel_spec { run_id = some "run_S1" };
  user_request = "please cancel";
  has_failures = false;
}

abbrev one_file : ScenarioDir
one_file name = some cancel_file

-- The lines of a text, at its newlines.
abbrev push : Char → List String → List String
push c [] = String.◌∷◌ c "" ∷ []
push c (line ∷ lines) = String.◌∷◌ c line ∷ lines

abbrev is_newline : Char → Bool
is_newline c = eqb (code c) 10

abbrev split : String → List String
split String.[] = []
split (String.◌∷◌ c s) = let rest = split s in if is_newline c then "" ∷ rest else push c rest

abbrev holds_newline : String → Bool
holds_newline String.[] = false
holds_newline (String.◌∷◌ c s) = let rest = holds_newline s in if is_newline c then true else rest

split-line :
    (s rest : String) → holds_newline s ≡ false → split (s ^^ ("\n" ^^ rest)) ≡ s ∷ split rest
split-line String.[] rest h =
    ap split (append.nil ("\n" ^^ rest))
    ∙ ap split (append.cons "\n" "" rest)
    ∙ ap (λ t. "" ∷ split t) (append.nil rest)
split-line (String.◌∷◌ c s) rest h = elim (Bool-cases (is_newline c)) [
  | inl t ↦ ground arith
  | inr f ↦
      let later : holds_newline s ≡ false = ground arith in
      let ih = split-line s rest later in
      ap split (append.cons c s ("\n" ^^ rest)) ∙ rw (f, ih) refl
]

-- A text for each type of event, read back among the events of a run.
abbrev type_text : EventType → String
type_text EventType.user_request_received = "user_request_received"
type_text EventType.proposal_created = "proposal_created"
type_text EventType.proposal_validated = "proposal_validated"
type_text EventType.proposal_rejected = "proposal_rejected"
type_text EventType.policy_allowed = "policy_allowed"
type_text EventType.policy_denied = "policy_denied"
type_text EventType.permit_issued = "permit_issued"
type_text EventType.mutation_attempted = "mutation_attempted"
type_text EventType.mutation_committed = "mutation_committed"
type_text EventType.mutation_replayed = "mutation_replayed"
type_text EventType.mutation_rejected = "mutation_rejected"
type_text EventType.state_verified = "state_verified"
type_text EventType.run_finished = "run_finished"

abbrev event_of : String → List Event → Result Event
event_of line [] = err value_error
event_of line (e ∷ es) =
    let rest = event_of line es in if type_text e.event_type == line then ok e else rest

abbrev text_among : List Event → TraceText
text_among es = record {
  dumps = λ e. type_text e.event_type;
  splitlines = split;
  has_break = holds_newline;
  is_blank = λ s. s == "";
  loads = λ s. event_of s es;
}

splits : (es : List Event) → SplitsLines (text_among es)
splits es = record { nothing = refl; line = split-line }

-- The run of the demo, and its trace in the file.
ran_cancel : (ran : Result RunReport × World) × (execute still cancel_file.spec ≡ ok ran)
unfolding Cli.execute order_to_shipment World.◌>>=◌ catch new_injector evaluate_cancel decide_cancel
    transaction Prelude.◌+ℤ◌ Prelude.◌*ℤ◌ update_where
ran_cancel = (_, refl)

abbrev cancel_events : List Event
cancel_events = events_of ran_cancel.0.1

abbrev text : TraceText
text = text_among cancel_events

read_back : All (IsReadBack text) cancel_events
unfolding ran_cancel
read_back = (
  record { one_line = refl; shown = refl; loaded = refl },
  (
    record { one_line = refl; shown = refl; loaded = refl },
    (
      record { one_line = refl; shown = refl; loaded = refl },
      (
        record { one_line = refl; shown = refl; loaded = refl },
        (
          record { one_line = refl; shown = refl; loaded = refl },
          (
            record { one_line = refl; shown = refl; loaded = refl },
            (
              record { one_line = refl; shown = refl; loaded = refl },
              (
                record { one_line = refl; shown = refl; loaded = refl },
                (record { one_line = refl; shown = refl; loaded = refl }, tt),
              ),
            ),
          ),
        ),
      ),
    ),
  ),
)

own_ids :
    (name : String) (file : ScenarioFile)
    → one_file name ≡ some file
    → shown_run name file.spec ≡ (run_of file.spec).run_id
own_ids name file e =
    let same : cancel_file ≡ file = cc e in
    subst (λ (f : ScenarioFile). shown_run name f.spec ≡ (run_of f.spec).run_id) same refl

shown_demo :
    (ran : List Line × TraceDir) × (cmd_demo first_row text still one_file "a" []
      ≡ (exits 0, ran.0, ran.1))
unfolding cmd_demo order_to_shipment World.◌>>=◌ catch new_injector evaluate_cancel decide_cancel
    transaction Prelude.◌+ℤ◌ Prelude.◌*ℤ◌ update_where
shown_demo = (_, refl)

cmd_demo-IsHonest_example : IsHonest shown_demo.0.0
cmd_demo-IsHonest_example =
    cmd_demo-IsHonest first_row text still one_file "a" [] 0 shown_demo.0.0 shown_demo.0.1 own_ids
      shown_demo.1

blurb_a : (text : String) × (demos (lower "a") ≡ some ("happy_cancel_then_refund_005", text))
unfolding demos
blurb_a = (_, refl)

cmd_demo-retraced_example :
    cmd_trace text "" "happy_cancel_then_refund_005" shown_demo.0.1
    ≡ (exits 0, select is_trace_line shown_demo.0.0, shown_demo.0.1)
cmd_demo-retraced_example =
    cmd_demo-retraced first_row text still one_file (splits cancel_events) ran_cancel.0 read_back
      "a" "happy_cancel_then_refund_005" blurb_a.0 cancel_file [] 0 shown_demo.0.0 shown_demo.0.1
      blurb_a.1 refl ran_cancel.1 shown_demo.1

shown_run_cmd :
    (ran : List Line × TraceDir) × (cmd_run first_row text still one_file "case" []
      ≡ (exits 0, ran.0, ran.1))
unfolding cmd_run order_to_shipment World.◌>>=◌ catch new_injector evaluate_cancel decide_cancel
    transaction Prelude.◌+ℤ◌ Prelude.◌*ℤ◌ update_where
shown_run_cmd = (_, refl)

cmd_run-IsTold_example :
    IsTold "case" (run_scenario still cancel_file.spec no_rows) shown_run_cmd.0.0
cmd_run-IsTold_example =
    cmd_run-IsTold first_row text still one_file "case" cancel_file [] 0 shown_run_cmd.0.0
      shown_run_cmd.0.1 refl refl shown_run_cmd.1
