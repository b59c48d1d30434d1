-- ===== src/Flow/Runs.antt =====
-- A property of the actions of app/agent/runner.py passes to the parts of `Runner.run`.
use bounded_refund_agent.Prelude.{
  ℕ, zero, suc, ◌+◌, String, Bool, ◌&&◌, ◌||◌, not, Option, none, some, refl,
}
use bounded_refund_agent.Schemas.{
  ActionName, ActionProposal, Decision, Detail, Outcome, PolicyResult, ReasonCode,
}
use bounded_refund_agent.Schemas.Gate.{RawProposal}
use bounded_refund_agent.Domain.{Order}
use bounded_refund_agent.Policy.{PolicySnapshot}
use bounded_refund_agent.ReadTools.{get_order, get_payment, get_shipment, get_refund_policy}
use bounded_refund_agent.Runner.{Options, attempt_loop, chain, replay_last, is_completed}
use bounded_refund_agent.Runner.Attempts.{
  needs_payment, needs_shipment, read_policy, snapshot, escalate_order, escalate_found, escalate,
  execute_allowed, acted, allowed, decided_as, decided, validated_attempt, gated, attempt,
}
use bounded_refund_agent.Runner.Report.{verify}
use bounded_refund_agent.World.{Run, M}
use bounded_refund_agent.Flow.Shape.{IsFlow, either}

module _ {run : Run} {F : (A : Type 0) → M A → Type 0} (flow : IsFlow run F) where
  read_policy-flows : (a : ActionName) (o : Option Order) → F _ (read_policy a o)
  unfolding get_refund_policy
  read_policy-flows ActionName.issue_refund (some o) = flow.reads _ _ _ _
  read_policy-flows ActionName.issue_refund none = flow.pures _
  read_policy-flows ActionName.cancel_order o = flow.pures _
  read_policy-flows ActionName.create_support_ticket o = flow.pures _

  snapshot-flows : (p : ActionProposal) → F _ (snapshot p)
  unfolding snapshot get_order get_payment get_shipment
  snapshot-flows p = flow.binds (flow.reads _ _ _ _) λ a.
      flow.binds (either (F _) (needs_payment p.action) _ _ (flow.reads _ _ _ _) (flow.pures _))
        λ b.
          flow.binds
            (either (F _) (needs_shipment p.action) _ _ (flow.reads _ _ _ _) (flow.pures _))
            λ c.
              flow.binds (read_policy-flows p.action a.0)
                λ d. flow.binds flow.nows λ time. flow.pures _

  pub verify-flows : (id : String) → F _ (verify run id)
  unfolding verify
  verify-flows id = flow.binds (flow.queries _) λ o. flow.binds (flow.queries _) λ pay.
      flow.binds (flow.queries _) λ sh.
        flow.binds (flow.queries _)
          λ total. flow.binds (flow.emits _ _ _ _ _ _ refl) λ _. flow.pures _

  escalate_order-flows :
      (o : Order) (reason : ReasonCode) (detail : Detail) → F _ (escalate_order run o reason detail)
  unfolding escalate_order
  escalate_order-flows o reason detail = flow.binds (flow.permits _ _ _ _) λ permit.
      flow.binds (flow.emits _ _ _ _ _ _ refl)
        λ _. flow.binds (flow.executes (some permit.permit_id) _ _) λ r. flow.pures tt

  escalate_found-flows :
      (id : String) (o : Option Order) (reason : ReasonCode) (detail : Detail)
      → F _ (escalate_found run id o reason detail)
  escalate_found-flows id none reason detail =
      flow.keeps _
        (λ w. record { audit = refl; recorder = refl; sequence = refl; proposals = refl })
        (λ w. refl)
  escalate_found-flows id (some o) reason detail = escalate_order-flows o reason detail

  pub escalate-flows :
      (id : String) (reason : ReasonCode) (detail : Detail) → F _ (escalate run id reason detail)
  unfolding escalate
  escalate-flows id reason detail =
      flow.binds (flow.queries _) λ o. escalate_found-flows id o reason detail

  execute_allowed-flows :
      (replans : Bool) (p : ActionProposal) (d : PolicyResult) (n : ℕ)
      → F _ (execute_allowed run replans p d n)
  unfolding execute_allowed
  execute_allowed-flows replans p d n = flow.binds (flow.permits _ _ _ _) λ permit.
      flow.binds (flow.emits _ _ _ _ _ _ refl) λ _.
        flow.binds
          (flow.keeps _
            (λ w. record { audit = refl; recorder = refl; sequence = refl; proposals = refl })
            (λ w. refl))
          λ _. flow.binds (flow.executes_once_more permit p) λ r. flow.pures _

  acted-flows :
      (replans : Bool) (n : ℕ) (p : ActionProposal) (d : PolicyResult) (kind : Decision)
      → F _ (acted run replans n p d kind)
  acted-flows replans n p d Decision.escalate = flow.binds (escalate-flows _ _ _) λ _. flow.pures _
  acted-flows replans n p d Decision.allow =
      flow.binds (execute_allowed-flows replans p d n) λ a. flow.pures _
  acted-flows replans n p d Decision.deny =
      flow.binds (execute_allowed-flows replans p d n) λ a. flow.pures _

  allowed-flows :
      (replans : Bool) (n : ℕ) (p : ActionProposal) (d : PolicyResult)
      → F _ (allowed run replans n p d)
  unfolding allowed
  allowed-flows replans n p d =
      flow.binds (flow.emits _ _ _ _ _ _ refl) λ _. acted-flows replans n p d d.decision

  decided_as-flows :
      (replans : Bool) (n : ℕ) (p : ActionProposal) (s : PolicySnapshot) (d : PolicyResult)
      (kind : Decision)
      → F _ (decided_as run replans n p s d kind)
  decided_as-flows replans n p s d Decision.deny =
      flow.binds (flow.emits _ _ _ _ _ _ refl) λ _. flow.pures _
  decided_as-flows replans n p s d Decision.allow = allowed-flows replans n p d
  decided_as-flows replans n p s d Decision.escalate = allowed-flows replans n p d

  pub gated-flows :
      (replans : Bool) (n : ℕ) (id : String) (checked : Option ActionProposal × Option ReasonCode)
      (raw : RawProposal)
      → F _ (gated run replans n id checked raw)
  unfolding gated validated_attempt decided
  gated-flows replans n id (none, reason) raw =
      flow.binds (flow.emits _ _ _ _ _ _ refl) λ _. flow.pures _
  gated-flows replans n id (some p, reason) raw = flow.binds (flow.emits _ _ _ _ _ _ refl) λ _.
      flow.binds (snapshot-flows p)
        λ s. flow.binds (flow.lifts _) λ d. decided_as-flows replans n p s d d.decision

  pub attempt-flows : (replans : Bool) (n : ℕ) (id : String) → F _ (attempt run replans n id)
  unfolding attempt
  attempt-flows replans n id =
      flow.binds flow.proposes
        λ raw. flow.binds (flow.emits _ _ _ _ _ _ refl) λ _. gated-flows replans n id _ raw

  pub attempt_loop-flows :
      (options : Options) (left n : ℕ) (id : String) → F _ (attempt_loop run options left n id)
  unfolding attempt_loop
  attempt_loop-flows options zero n id = flow.pures _
  attempt_loop-flows options (suc left) n id = flow.binds (attempt-flows _ n id) λ a.
      either (F _) (a.0).replan _ _
        (flow.binds
          (flow.keeps _
            (λ w. record { audit = refl; recorder = refl; sequence = refl; proposals = refl })
            (λ w. refl))
          λ _. attempt_loop-flows options left (n + 1) _)
        (flow.pures _)

  pub chain-flows :
      (options : Options) (fuel : ℕ) (outcome : Outcome) (reason : ReasonCode) (id : String)
      → F _ (chain run options fuel outcome reason id)
  unfolding chain
  chain-flows options zero outcome reason id = flow.pures _
  chain-flows options (suc fuel) outcome reason id = flow.binds (flow.observes _) λ exhausted.
      either (F _) (options.chain_proposals && (is_completed outcome && not exhausted)) _ _
        (flow.binds (attempt-flows _ 1 id) λ a.
          either (F _) ((a.0).replan || (a.0).escalate_after_replan) _ _ (flow.pures _)
            (chain-flows options fuel (a.0).outcome (a.0).reason_code a.1))
        (flow.pures _)

  pub replay_last-flows : (last : Option (String × ActionProposal)) → F _ (replay_last run last)
  unfolding replay_last
  replay_last-flows none = flow.pures tt
  replay_last-flows (some (id, p)) = flow.binds (flow.executes (some id) _ _) λ r.
      flow.keeps _
        (λ w. record { audit = refl; recorder = refl; sequence = refl; proposals = refl })
        (λ w. refl)
