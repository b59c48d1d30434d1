-- ===== src/Policy/Ladder.antt =====
-- The order of the rules, the decisions that refuse, and the exceptions of `evaluate`.
use bounded_refund_agent.Prelude.{ℤ, pos, ◌<ℤ◌, ◌≤ℤ◌, ◌≡◌, ◌≢◌, Option, none, some, [], arith}
use bounded_refund_agent.Result.{ok, err, assertion_error}
use bounded_refund_agent.Clock.{IsoText, aware, naive, malformed}
use bounded_refund_agent.Domain.{Order, Payment, RefundPolicy, captured}
use bounded_refund_agent.Schemas.{ActionProposal, PolicyResult, issue_refund}
use bounded_refund_agent.Policy.Refund.{allowed_refund, IsRefundable-evaluate-allow}
use bounded_refund_agent.Policy.{
  PolicySnapshot, evaluate, evaluate_cancel, evaluate_refund, evaluate_ticket, decide_refund,
  decide_asked, decide_amount, decide_window, refund_limit,
}

decide_window-ne-assertion_error :
    (s : PolicySnapshot) (pol : RefundPolicy) (r : PolicyResult) (d : Option IsoText)
    → decide_window s pol r d ≢ err assertion_error
unfolding decide_window
decide_window-ne-assertion_error s pol r none h = ground arith
decide_window-ne-assertion_error s pol r (some (aware t)) h = ground arith
decide_window-ne-assertion_error s pol r (some (naive t)) h = ground arith
decide_window-ne-assertion_error s pol r (some malformed) h = ground arith

decide_refund-ne-assertion_error :
    (p : ActionProposal) (s : PolicySnapshot) (o : Order) (pay : Payment) (pol : RefundPolicy)
    → decide_refund p s o pay pol ≢ err assertion_error
unfolding decide_refund decide_asked decide_amount
decide_refund-ne-assertion_error p s o pay pol h = grind (arith, decide_window-ne-assertion_error)

-- The assertions of the source never fail, for any proposal and any snapshot: what they assert is
-- what `_missing_records` has tested.
pub evaluate-ne-assertion_error :
    (q : Option ActionProposal) (s : PolicySnapshot) → evaluate q s ≢ err assertion_error
unfolding evaluate evaluate_cancel evaluate_refund evaluate_ticket
evaluate-ne-assertion_error none s h = ground arith
evaluate-ne-assertion_error (some p) s h = grind (arith, decide_refund-ne-assertion_error)

-- Where the order, the payment and the policy row were read and no read failed, the payment is captured, the
-- order has no delivery date, and the policy row's automatic limit is 0, a refund of more than 0, at most what
-- was captured and at most 25,000 cents is allowed.
pub zero_limit_allows :
    (p : ActionProposal) (s : PolicySnapshot) (o : Order) (pay : Payment) (pol : RefundPolicy)
    (amount : ℤ)
    → s.order ≡ some o
    → s.payment ≡ some pay
    → s.refund_policy ≡ some pol
    → s.read_failures ≡ []
    → p.action ≡ issue_refund
    → p.amount_cents ≡ some amount
    → pay.status ≡ captured
    → pos 0 <ℤ amount
    → amount ≤ℤ pay.captured_cents
    → o.delivered_at ≡ none
    → pol.auto_refund_limit_cents ≡ pos 0
    → amount ≤ℤ pos 25000
    → evaluate (some p) s ≡ ok (allowed_refund pay amount)
zero_limit_allows p s o pay pol amount ho hp hq hf act asked st positive within undelivered
      zero_limit le =
    IsRefundable-evaluate-allow p s o pay pol amount act (record {
      has_order = ho;
      has_payment = hp;
      has_policy = hq;
      all_read = hf;
      asked = asked;
      not_refunded = st;
      positive = positive;
      within_captured = within;
      within_limit = unfold refund_limit in ground arith;
      in_window = rw undelivered tt;
    })
