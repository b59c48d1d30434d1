-- ===== src/Flow/Shape.antt =====
-- The actions that app/agent/runner.py is built of, as what a property of actions must be shown for: the
-- parts of a run then have it, whatever it is.
use bounded_refund_agent.Prelude.{ℤ, String, ◌≡◌, Bool, true, false, Option, if◌then◌else◌}
use bounded_refund_agent.Result.{Result}
use bounded_refund_agent.Schemas.{
  ActionName, ActionProposal, DecisionOwner, ExecutionPermit, ReadTool, ReasonCode,
}
use bounded_refund_agent.Db.{Db}
use bounded_refund_agent.Audit.{Event, EventType, Extra}
use bounded_refund_agent.Permits.{issue_permit}
use bounded_refund_agent.Executor.{execute}
use bounded_refund_agent.Executor.Commit.{TicketText}
use bounded_refund_agent.ReadTools.{call}
use bounded_refund_agent.Runner.Attempts.{propose, try_read, execute_once_more}
use bounded_refund_agent.World.{World, Run, M, pure, lift, query, gets, modify, now, emit, ◌>>=◌}
use bounded_refund_agent.Flow.{IsAlike}

-- The event that reports a committed mutation.
abbrev pub is_commit_type : EventType → Bool
is_commit_type EventType.mutation_committed = true
is_commit_type _ = false

abbrev pub is_commit_event : Event → Bool
is_commit_event e = is_commit_type e.event_type

pub record IsFlow (run : Run) (F : (A : Type 0) → M A → Type 0) : Type 1 where
  pub pures : {A : Type 0} (a : A) → F _ (pure a)
  pub lifts : {A : Type 0} (r : Result A) → F _ (lift r)
  pub queries : {A : Type 0} (q : Db → Result A) → F _ (query q)
  pub observes : {A : Type 0} (f : World → A) → F _ (gets f)
  pub binds : {A B : Type 0} {m : M A} {f : A → M B} → F A m → ((a : A) → F B (f a)) → F _ (m >>= f)
  -- what the runner keeps for itself: its notes, its last execution, whether it recovered
  pub keeps :
      (f : World → World)
      → ((w : World) → IsAlike w (f w))
      → ((w : World) → (f w).db ≡ w.db)
      → F _ (modify f)
  pub nows : F _ now
  -- the runner reports no commit
  pub emits :
      (type : EventType) (resource : String) (version : ℤ) (owner : DecisionOwner)
      (reason : Option ReasonCode) (extra : Extra)
      → is_commit_type type ≡ false
      → F _ (emit run type resource version owner reason extra)
  pub proposes : F _ propose
  pub reads :
      {A : Type 0} (tool named : ReadTool) (argument : String) (fetch : Db → Result (Option A))
      → F _ (try_read tool (call named argument fetch))
  pub permits :
      (a : ActionName) (resource : String) (version amount : ℤ)
      → F _ (issue_permit run a resource version amount)
  pub executes :
      (id : Option String) (p : ActionProposal) (ticket : TicketText)
      → F _ (execute run id p ticket)
  pub executes_once_more :
      (permit : ExecutionPermit) (p : ActionProposal) → F _ (execute_once_more run permit p)

pub either {ℓ} :
    {A : Type 0} (F : M A → Type ℓ) (b : Bool) (m n : M A) → F m → F n → F (if b then m else n)
either F true m n km kn = km
either F false m n km kn = kn
