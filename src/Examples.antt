-- ===== src/Examples.antt =====
-- A small world for the witnesses and the tests: one delivered order with its payment and shipment,
-- one paid order that waits for its shipment, and the standard policy.
pub mod Tests
pub mod Witnesses
pub mod Specs
pub mod Judged
pub mod Commands
use bounded_refund_agent.Prelude.{ℤ, pos, String, Option, none, some, List, [], ◌∷◌, true, false}
use bounded_refund_agent.Clock.{IsoText, aware}
use bounded_refund_agent.Domain.{
  Order, OrderStatus, Payment, Shipment, ShipmentStatus, RefundPolicy, captured,
}
use bounded_refund_agent.Schemas.{ActionName, ActionProposal, ExecutionPermit}
use bounded_refund_agent.Schemas.Gate.{RawProposal, mapping, value, Value, validated}
use bounded_refund_agent.Policy.{PolicySnapshot}
use bounded_refund_agent.Db.{Db, OrderRow, PaymentRow, ShipmentRow, PermitRow, ExecutionRow}
use bounded_refund_agent.Failures.{FailureSpec, Resource, Edit, new_injector}
use bounded_refund_agent.Executor.{Target}
use bounded_refund_agent.Runner.{Options}
use bounded_refund_agent.World.{World, Run}

abbrev pub the_run : Run
the_run = record { run_id = "run1"; scenario_id = "S1" }

abbrev pub the_policy : RefundPolicy
the_policy = record {
  policy_id = "pol";
  name = "standard";
  auto_refund_limit_cents = pos 20000;
  post_delivery_window_days = pos 7;
  version = pos 1;
}

abbrev pub the_order : Order
the_order = record {
  order_id = "ord1";
  customer_id = "cus1";
  policy_id = "pol";
  status = OrderStatus.paid;
  total_cents = pos 5000;
  placed_at = aware (pos 0);
  delivered_at = none;
  version = pos 1;
}

abbrev pub the_payment : Payment
the_payment = record {
  payment_id = "pay1";
  order_id = "ord1";
  status = captured;
  captured_cents = pos 5000;
  refunded_cents = pos 0;
  version = pos 1;
}

abbrev pub the_shipment : Shipment
the_shipment = record {
  shipment_id = "shp1";
  order_id = "ord1";
  status = ShipmentStatus.preparing;
  carrier = "post";
  version = pos 1;
}

abbrev pub cancel_proposal : ActionProposal
cancel_proposal = record {
  action = ActionName.cancel_order;
  order_id = "ord1";
  amount_cents = none;
  reason = "changed my mind";
}

abbrev pub refund_proposal : ℤ → ActionProposal
refund_proposal amount = record {
  action = ActionName.issue_refund;
  order_id = "ord1";
  amount_cents = some amount;
  reason = "broken";
}

abbrev pub full_snapshot : RefundPolicy → PolicySnapshot
full_snapshot pol = record {
  now = pos 1000000;
  order = some the_order;
  payment = some the_payment;
  shipment = some the_shipment;
  refund_policy = some pol;
  read_failures = [];
}

abbrev pub zero_limit_policy : RefundPolicy
zero_limit_policy = record the_policy { auto_refund_limit_cents = pos 0 }

abbrev pub empty_snapshot : PolicySnapshot
empty_snapshot = record {
  now = pos 1000000;
  order = none;
  payment = none;
  shipment = none;
  refund_policy = none;
  read_failures = [];
}

-- A permit that another run has consumed.
abbrev pub consumed_permit : ExecutionPermit
consumed_permit = record {
  permit_id = "prm_run0_001";
  action = ActionName.issue_refund;
  resource_id = "pay1";
  expected_resource_version = pos 1;
  max_amount_cents = pos 100;
  expires_at = aware (pos 900000000);
  idempotency_key = "idk_run0_001_issue_refund_pay1";
  used = true;
}

abbrev pub the_db : Db
the_db = record {
  refund_policies = the_policy ∷ [];
  orders =
      (record {
        order_id = "ord1";
        customer_id = "cus1";
        policy_id = "pol";
        status = "PAID";
        total_cents = pos 5000;
        placed_at = aware (pos 0);
        delivered_at = none;
        version = pos 1;
      })
      ∷ [];
  payments =
      (record {
        payment_id = "pay1";
        order_id = "ord1";
        status = "CAPTURED";
        captured_cents = pos 5000;
        refunded_cents = pos 0;
        version = pos 1;
      })
      ∷ [];
  shipments =
      (record {
        shipment_id = "shp1";
        order_id = "ord1";
        status = "PREPARING";
        carrier = "post";
        version = pos 1;
      })
      ∷ [];
  support_tickets = [];
  refunds = [];
  execution_permits =
      (record { permit = consumed_permit; created_at = aware (pos 0); run_id = "run0" }) ∷ [];
  execution_records = [];
  mutation_log = [];
}

abbrev pub options : Options
options = record {
  allow_replan_on_stale = true;
  default_order_id = "ord1";
  chain_proposals = false;
  replay_last_permit = true;
}

abbrev pub world_with : List RawProposal → World
world_with proposals = record {
  db = the_db;
  clock = record { current = pos 1000000; step = pos 1000000; readings = 0 };
  injector = none;
  audit = some [];
  recorder = some [];
  sequence = 0;
  proposals = proposals;
  last_execution = none;
  notes = [];
  recovered = false;
}

abbrev pub refund_mapping : List (String × Value)
refund_mapping =
    ("action", value "issue_refund" (some "issue_refund") none)
    ∷ ("order_id", value "ord1" (some "ord1") none)
    ∷ ("amount_cents", value "3000" (some "3000") (some (pos 3000)))
    ∷ ("reason", value "broken" (some "broken") none)
    ∷ []

abbrev pub refund_world : World
refund_world = world_with (mapping refund_mapping ∷ [])

-- The planner names an action that there is none of, and then the refund.
abbrev pub rejected_world : World
rejected_world =
    world_with
      (mapping (("action", value "wire" (some "wire") none) ∷ []) ∷ mapping refund_mapping ∷ [])

abbrev pub one_timeout : FailureSpec
one_timeout = record {
  read_timeouts = λ _. 1;
  pre_commit_changes = λ _. [];
  pre_commit_times = λ _. 1;
  post_commit_timeout_actions = λ _. 1;
}

-- The carrier collects the parcel between the policy's reading and the commit; the order's own version
-- stays.
abbrev pub collected_before_commit : FailureSpec
collected_before_commit = record {
  read_timeouts = λ _. 0;
  pre_commit_changes = λ _.
      (record {
        resource = Resource.shipment;
        resource_id = "shp1";
        set_values = Edit.status "SHIPPED" ∷ [];
        bump_version = true;
      })
      ∷ [];
  pre_commit_times = λ _. 1;
  post_commit_timeout_actions = λ _. 0;
}

abbrev pub collected_world : World
collected_world = record (world_with (validated cancel_proposal ∷ [])) {
  injector = some (new_injector collected_before_commit);
}

abbrev pub flaky_world : World
flaky_world = record refund_world { injector = some (new_injector one_timeout) }

-- The refund that the consumed permit paid for, and a world in which it is stored.
abbrev pub stored_row : ExecutionRow
stored_row = record {
  idempotency_key = "idk_run0_001_issue_refund_pay1";
  run_id = "run0";
  action = ActionName.issue_refund;
  resource_id = "pay1";
  amount_cents = pos 100;
  result = record {
    committed = true;
    action = some ActionName.issue_refund;
    resource_id = "pay1";
    amount_cents = pos 100;
    reason_code = none;
    replayed = false;
    created_id = "ref_prm_run0_001";
  };
  created_at = aware (pos 0);
}

abbrev pub settled_world : World
settled_world = record (world_with []) {
  db = record the_db { execution_records = stored_row ∷ [] };
}

abbrev pub payment_target : Target
payment_target = record { resource_id = "pay1"; version = pos 1; status = "CAPTURED" }

-- The same permit before it is consumed.
abbrev pub open_permit : ExecutionPermit
open_permit = record consumed_permit { used = false }

abbrev pub open_world : World
open_world = record (world_with []) {
  db = record the_db {
    execution_permits =
        (record { permit = open_permit; created_at = aware (pos 0); run_id = "run0" }) ∷ [];
  };
}
