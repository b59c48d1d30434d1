-- ===== src/ReadTools/Retries.antt =====
-- The attempts of `ReadTools._call` against the injector's budget.
use bounded_refund_agent.Prelude.{◌+◌, ltb, String, ◌≡◌, Option, some, arith, if◌then◌else◌}
use bounded_refund_agent.Result.{Result, err, read_unavailable}
use bounded_refund_agent.Schemas.{ReadTool}
use bounded_refund_agent.Db.{Db}
use bounded_refund_agent.Failures.{FailureInjector, read_should_fail}
use bounded_refund_agent.Failures.Budget.{same_tool_refl}
use bounded_refund_agent.World
use bounded_refund_agent.World.{World, record_call}
use bounded_refund_agent.ReadTools.{call}

module _ {A : Type 0} (tool : ReadTool) (argument : String) (fetch : Db → Result (Option A)) where
  -- With an injector, a read raises `ReadUnavailable` exactly when the injector has at least two more
  -- failures for the tool, and otherwise it answers what the tables hold.
  pub call-injected :
      (w : World) (i : FailureInjector)
      → w.injector ≡ some i
      → (call tool argument fetch w).0 ≡ (
          if ltb (i.read_calls tool + 1) (i.spec.read_timeouts tool)
          then err read_unavailable
          else fetch w.db)
  unfolding call read_should_fail World.◌>>=◌
  call-injected w i e = let same = same_tool_refl tool in ground arith
