-- ===== src/Runner.antt =====
-- app/agent/runner.py and the scripted planner of app/agent/planner.py: a request goes through the
-- planner, the schema gate, the policy, the permit, the executor and the verifier.
pub mod Attempts
pub mod Report
use bounded_refund_agent.Prelude.{
  ℕ, zero, suc, ◌+◌, String, Bool, true, false, not, ◌&&◌, ◌||◌, Option, none, some, List, [], ◌∷◌,
  ◌==◌, length, if◌then◌else◌,
}
use bounded_refund_agent.Clock.{to_iso}
use bounded_refund_agent.Schemas.{
  ActionProposal, DecisionOwner, Detail, Outcome, completed, denied, escalated, ReasonCode,
}
use bounded_refund_agent.Schemas.Gate.{RawProposal}
use bounded_refund_agent.Prelude.{negsuc}
use bounded_refund_agent.Audit.{EventType, Extra}
use bounded_refund_agent.Executor.{execute}
use bounded_refund_agent.Executor.Commit.{no_ticket_text}
use bounded_refund_agent.World.{World, Note, Run, M, pure, gets, modify, emit, ◌>>=◌, ◌>>◌}
use Attempts.{Attempt, attempt, escalate, add_note}
use Report.{RunReport, verify, report}

-- The arguments of `Runner.__init__` that steer a run.
pub record Options : Type 0 where
  pub allow_replan_on_stale : Bool
  pub default_order_id : String
  pub chain_proposals : Bool
  pub replay_last_permit : Bool

-- Where the loop over the attempts leaves the run: the outcome, its reason, whether to escalate for
-- staleness, and the order.
pub record LoopEnd : Type 0 where
  pub outcome : Outcome
  pub reason_code : ReasonCode
  pub escalates : Bool
  pub order_id : String

-- `step[1] or order_id`
abbrev pub text_or : String → String → String
text_or a b = if a == "" then b else a

abbrev pub stale_end : String → LoopEnd
stale_end order_id = record {
  outcome = escalated;
  reason_code = ReasonCode.stale_resource_version;
  escalates = true;
  order_id = order_id;
}

abbrev pub plain_end : Attempt → String → LoopEnd
plain_end a order_id = record {
  outcome = a.outcome;
  reason_code = a.reason_code;
  escalates = false;
  order_id = order_id;
}

-- `for attempt in range(1, max_attempts + 1)` with its `else`: the rounds left, and the number.
unfoldable pub attempt_loop : Run → Options → ℕ → ℕ → String → M LoopEnd
unfolding attempt
attempt_loop run options zero n order_id = pure (stale_end order_id)
attempt_loop run options (suc left) n order_id = do
  (a, reached) ← attempt run options.allow_replan_on_stale n order_id
  let order_id' = text_or reached order_id
  let again =
      modify (add_note (Note.replanning n)) >> attempt_loop run options left (n + 1) order_id'
  if a.replan
      then again
      else pure (if a.escalate_after_replan then stale_end order_id' else plain_end a order_id')

abbrev pub is_completed : Outcome → Bool
is_completed completed = true
is_completed _ = false

-- `planner.exhausted`
abbrev pub is_exhausted : World → Bool
is_exhausted w = elim w.proposals [ [] ↦ true | _ ∷ _ ↦ false ]

-- The `while` over follow-up proposals, with fuel; each round takes a proposal from the planner.
unfoldable pub chain :
    Run → Options → ℕ → Outcome → ReasonCode → String → M (Outcome × ReasonCode × String)
unfolding attempt
chain run options zero outcome reason order_id = pure (outcome, reason, order_id)
chain run options (suc fuel) outcome reason order_id = do
  exhausted ← gets is_exhausted
  let follow_up = attempt run options.allow_replan_on_stale 1 order_id >>= λ (a, reached).
      if a.replan || a.escalate_after_replan
      then pure (outcome, reason, reached)
      else chain run options fuel a.outcome a.reason_code reached
  if options.chain_proposals && (is_completed outcome && not exhausted)
      then follow_up
      else pure (outcome, reason, order_id)

unfoldable pub replay_last : Run → Option (String × ActionProposal) → M (Unit {0})
unfolding execute
replay_last run none = pure tt
replay_last run (some (permit_id, p)) = do
  r ← execute run (some permit_id) p no_ticket_text
  modify (add_note (Note.deliberate_replay permit_id r.committed r.replayed r.reason_code))

-- The report's clock time is not modelled.
unfoldable pub run_all : Run → Options → M RunReport
unfolding attempt_loop chain replay_last verify report escalate emit
run_all run options = do
  let order_id = options.default_order_id
  emit run EventType.user_request_received order_id (negsuc 0) DecisionOwner.planner none
      Extra.no_extra
  end ← attempt_loop run options (if options.allow_replan_on_stale then 2 else 1) 1 order_id
  if end.escalates
      then escalate run end.order_id ReasonCode.stale_resource_version Detail.stale_after_replan
      else pure tt
  fuel ← gets (λ w. length w.proposals)
  (outcome, reason, last_order) ← chain run options fuel end.outcome end.reason_code end.order_id
  last ← gets (λ w. w.last_execution)
  if options.replay_last_permit then replay_last run last else pure tt
  final ← verify run last_order
  summary ← report run outcome reason final
  emit run EventType.run_finished last_order (negsuc 0) DecisionOwner.verifier (some reason)
      (Extra.finished outcome summary.mutation_count)
  pure summary
