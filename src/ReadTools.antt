-- ===== src/ReadTools.antt =====
-- app/tools/read_tools.py: reads that are tried a bounded number of times.
pub mod Retries
use bounded_refund_agent.Prelude.{ℕ, zero, suc, ◌+◌, String, Option, if◌then◌else◌}
use bounded_refund_agent.Result.{Result, err, read_unavailable}
use bounded_refund_agent.Domain.{Order, Payment, RefundPolicy, Shipment}
use bounded_refund_agent.Schemas.{ReadTool}
use bounded_refund_agent.Policy.{read_max_attempts}
use bounded_refund_agent.Db.{
  Db, fetch_order, fetch_payment_for_order, fetch_shipment_for_order, fetch_refund_policy,
}
use bounded_refund_agent.Injection.{read_fails}
use bounded_refund_agent.World.{ToolCall, M, lift, query, modify, record_call, ◌>>=◌, ◌>>◌}

-- `for attempt in range(1, max_attempts + 1)`: the rounds left and the attempt's number.
unfoldable pub attempts :
    {A : Type 0} → ReadTool → String → (Db → Result (Option A)) → ℕ → ℕ → M (Option A)
unfolding record_call read_fails
attempts tool argument fetch zero attempt = lift (err read_unavailable)
attempts tool argument fetch (suc left) attempt = do
  modify (record_call (ToolCall.read tool attempt argument))
  failed ← read_fails tool
  if failed then attempts tool argument fetch left (attempt + 1) else query fetch

unfoldable pub call : {A : Type 0} → ReadTool → String → (Db → Result (Option A)) → M (Option A)
unfolding attempts
call tool argument fetch = attempts tool argument fetch read_max_attempts 1

unfoldable pub get_order : String → M (Option Order)
unfolding call fetch_order
get_order id = call ReadTool.get_order id (fetch_order id)

unfoldable pub get_payment : String → M (Option Payment)
unfolding call fetch_payment_for_order
get_payment id = call ReadTool.get_payment id (fetch_payment_for_order id)

unfoldable pub get_shipment : String → M (Option Shipment)
unfolding call fetch_shipment_for_order
get_shipment id = call ReadTool.get_shipment id (fetch_shipment_for_order id)

unfoldable pub get_refund_policy : String → M (Option RefundPolicy)
unfolding call fetch_refund_policy
get_refund_policy id = call ReadTool.get_refund_policy id (fetch_refund_policy id)
