-- ===== src/Scenario.antt =====
-- `build_runner` and `run_scenario` of app/agent/runner.py, and `FailureSpec.from_dict` of
-- simulator/failures.py: a run from its specification.
pub mod Sound
use Prim.Native.String.{◌++◌ as ◌^^◌}
use bounded_refund_agent.Prelude.{
  ℕ, ℤ, pos, String, Bool, true, false, Option, none, some, List, [], ◌∷◌, ◌==◌, if◌then◌else◌,
}
use bounded_refund_agent.Result.{Result, ok, err, key_error, ◌>>=◌}
use bounded_refund_agent.Clock.{Clock, IsoText, aware, parse_iso}
use bounded_refund_agent.Schemas.{
  ActionName, action_text, ReadTool, get_order, get_payment, get_shipment, get_refund_policy,
}
use bounded_refund_agent.Schemas.Gate.{RawProposal}
use bounded_refund_agent.Db.{Db}
use bounded_refund_agent.Failures.{
  Edit, FailureInjector, FailureSpec, Resource, StateChange, new_injector,
}
use bounded_refund_agent.Seed.{WorldSpec, SeededWorld, get_or}
use bounded_refund_agent.Seed.Rows.{Rng, seed_world, required}
use bounded_refund_agent.Runner.{Options, run_all}
use bounded_refund_agent.Runner.Report.{RunReport}
use bounded_refund_agent.World.{Run, World}

-- One entry of `pre_commit_changes`; a missing key is `none`.
pub record ChangeSpec : Type 0 where
  pub resource : Option String
  pub resource_id : Option String
  pub set_values : List Edit
  pub bump_version : Option Bool

-- The `failures` of a scenario. A count below 0 acts like 0.
pub record FailureDict : Type 0 where
  pub read_timeouts : List (String × ℕ)
  pub pre_commit_changes : List (String × List ChangeSpec)
  pub pre_commit_times : List (String × ℕ)
  pub post_commit_timeout_actions : List (String × ℕ)

pub record ScenarioSpec : Type 0 where
  pub scenario_id : Option String
  pub run_id : Option String
  pub order_id : Option String
  pub world : WorldSpec
  pub clock_base : Option IsoText
  -- in microseconds
  pub clock_step : Option ℤ
  pub failures : Option FailureDict
  pub proposals : List RawProposal
  pub allow_replan_on_stale : Option Bool
  pub chain_proposals : Option Bool
  pub replay_last_permit : Option Bool

-- `str(tool)`
unfoldable pub tool_text : ReadTool → String
tool_text get_order = "get_order"
tool_text get_payment = "get_payment"
tool_text get_shipment = "get_shipment"
tool_text get_refund_policy = "get_refund_policy"

unfoldable pub resource_of : String → Resource
resource_of s =
    if s == "order"
    then Resource.order
    else if s == "payment"
    then Resource.payment
    else if s == "shipment"
    then Resource.shipment
    else Resource.unknown

-- `dict.get(key, default)`
unfoldable pub lookup {ℓ} : {A : Type ℓ} → A → String → List (String × A) → A
lookup default key [] = default
lookup default key ((k, a) ∷ entries) =
    let rest = lookup default key entries in if k == key then a else rest

unfoldable pub change_of : ChangeSpec → Result StateChange
unfolding resource_of
change_of spec = do
  resource ← required spec.resource
  id ← required spec.resource_id
  ok (record {
    resource = resource_of resource;
    resource_id = id;
    set_values = spec.set_values;
    bump_version = get_or spec.bump_version true;
  })

unfoldable pub changes_of : List ChangeSpec → Result (List StateChange)
unfolding change_of
changes_of [] = ok []
changes_of (spec ∷ specs) = do
  change ← change_of spec
  changes ← changes_of specs
  ok (change ∷ changes)

unfoldable pub pre_commit_of :
    List (String × List ChangeSpec) → Result (List (String × List StateChange))
unfolding changes_of
pre_commit_of [] = ok []
pre_commit_of ((action, specs) ∷ entries) = do
  changes ← changes_of specs
  rest ← pre_commit_of entries
  ok ((action, changes) ∷ rest)

-- `FailureSpec()`
abbrev pub no_failures : FailureSpec
no_failures = record {
  read_timeouts = λ _. 0;
  pre_commit_changes = λ _. [];
  pre_commit_times = λ _. 1;
  post_commit_timeout_actions = λ _. 0;
}

-- `FailureSpec.from_dict`; the defaults are those of the injector's reads.
unfoldable pub from_dict : Option FailureDict → Result FailureSpec
unfolding pre_commit_of lookup tool_text action_text
from_dict none = ok no_failures
from_dict (some spec) = do
  pre_commit ← pre_commit_of spec.pre_commit_changes
  ok (record {
    read_timeouts = λ tool. lookup 0 (tool_text tool) spec.read_timeouts;
    pre_commit_changes = λ action. lookup [] (action_text action) pre_commit;
    pre_commit_times = λ action. lookup 1 (action_text action) spec.pre_commit_times;
    post_commit_timeout_actions =
        λ action. lookup 0 (action_text action) spec.post_commit_timeout_actions;
  })

-- DEFAULT_CLOCK_BASE, in microseconds
abbrev pub default_clock_base : IsoText
default_clock_base = aware (pos 1775044800000000)

-- `FixedClock(base, step_seconds)`
unfoldable pub fixed_clock : Option IsoText → Option ℤ → Result Clock
unfolding parse_iso
fixed_clock base step = do
  start ← parse_iso (get_or base default_clock_base)
  ok (record { current = start; step = get_or step (pos 0); readings = 0 })

abbrev pub scenario_id_of : ScenarioSpec → String
scenario_id_of spec = get_or spec.scenario_id "unnamed_scenario"

-- `str(spec.get("run_id", f"run_{scenario_id}"))`
abbrev pub run_of : ScenarioSpec → Run
run_of spec = record {
  run_id = get_or spec.run_id ("run_" ^^ scenario_id_of spec);
  scenario_id = scenario_id_of spec;
}

abbrev pub options_of : ScenarioSpec → Options
options_of spec = record {
  allow_replan_on_stale = get_or spec.allow_replan_on_stale false;
  default_order_id = get_or spec.order_id "";
  chain_proposals = get_or spec.chain_proposals false;
  replay_last_permit = get_or spec.replay_last_permit false;
}

-- What `Runner.__init__` starts from.
abbrev pub initial_world : ScenarioSpec → Db → Clock → FailureSpec → World
initial_world spec db clock failures = record {
  db = db;
  clock = clock;
  injector = some (new_injector failures);
  audit = some [];
  recorder = some [];
  sequence = 0;
  proposals = spec.proposals;
  last_execution = none;
  notes = [];
  recovered = false;
}

-- Past the seeding: the clock, and then the injector.
unfoldable pub assemble : ScenarioSpec → Db → Result World
unfolding fixed_clock from_dict
assemble spec db = do
  clock ← fixed_clock spec.clock_base spec.clock_step
  failures ← from_dict spec.failures
  ok (initial_world spec db clock failures)

-- The tables of a file that `open_world` has made.
abbrev pub no_rows : Db
no_rows = record {
  refund_policies = [];
  orders = [];
  payments = [];
  shipments = [];
  support_tickets = [];
  refunds = [];
  execution_permits = [];
  execution_records = [];
  mutation_log = [];
}

abbrev pub started : ScenarioSpec → Db → Result World → Result RunReport × Db
started spec db (err e) = (err e, db)
started spec db (ok w) = let (r, w') = run_all (run_of spec) (options_of spec) w in (r, w'.db)

abbrev pub seeded_run : ScenarioSpec → Db → Result (SeededWorld × Db) → Result RunReport × Db
seeded_run spec db (err e) = (err e, db)
seeded_run spec db (ok (ids, seeded)) = started spec seeded (assemble spec seeded)

-- The report or the exception, and the tables that stay in the file.
unfoldable pub run_scenario : {G : Type 0} → Rng G → ScenarioSpec → Db → Result RunReport × Db
unfolding seed_world assemble run_all
run_scenario rng spec db = seeded_run spec db (seed_world rng spec.world db)
