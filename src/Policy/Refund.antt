-- ===== src/Policy/Refund.antt =====
-- When a refund is allowed: `_evaluate_refund` of app/policy/rules.py.
use bounded_refund_agent.Prelude.{
  ◌∙◌, sym, ap, ◌↔◌, ℤ, pos, ◌≤ℤ◌, ◌<ℤ◌, ◌*ℤ◌, ◌-ℤ◌, ◌≡◌, refl, Option, none, some, [], arith,
}
use bounded_refund_agent.Result.{Result, ok, err}
use bounded_refund_agent.Clock.{parse_iso, IsoText, aware, naive, malformed}
use bounded_refund_agent.Domain.{Order, Payment, RefundPolicy, captured}
use bounded_refund_agent.Schemas.{ActionProposal, Decision, PolicyResult, ReasonCode, issue_refund}
use bounded_refund_agent.Policy.{
  PolicySnapshot, evaluate, evaluate_refund, decide_refund, decide_asked, assert_refund,
  decide_amount, decide_window, refund_limit, allow, microseconds_per_day,
}

abbrev pub OnTime : ℤ → RefundPolicy → Result ℤ → Type 0
OnTime now pol (ok t) = now -ℤ t ≤ℤ pol.post_delivery_window_days *ℤ microseconds_per_day
OnTime now pol (err _) = ⊥

-- The delivery, if there was one, has a readable date at most the window ago.
abbrev pub InWindow : ℤ → RefundPolicy → Option IsoText → Type 0
InWindow now pol none = Unit
InWindow now pol (some text) = OnTime now pol (parse_iso text)

-- Everything that must hold before a refund may be executed.
pub record IsRefundable (p : ActionProposal) (s : PolicySnapshot) (o : Order) (pay : Payment)
    (pol : RefundPolicy) (amount : ℤ) : Type 0 where
  pub has_order : s.order ≡ some o
  pub has_payment : s.payment ≡ some pay
  pub has_policy : s.refund_policy ≡ some pol
  pub all_read : s.read_failures ≡ []
  pub asked : p.amount_cents ≡ some amount
  pub not_refunded : pay.status ≡ captured
  pub positive : pos 0 <ℤ amount
  pub within_captured : amount ≤ℤ pay.captured_cents
  pub within_limit : amount ≤ℤ refund_limit pol
  pub in_window : InWindow s.now pol o.delivered_at

abbrev pub allowed_refund : Payment → ℤ → PolicyResult
allowed_refund pay amount =
    allow ReasonCode.refundable_within_limits amount pay.payment_id pay.version

decide_window_sound :
    (s : PolicySnapshot) (pol : RefundPolicy) (allowed r : PolicyResult) (d : Option IsoText)
    → decide_window s pol allowed d ≡ ok r
    → r.decision ≡ Decision.allow
    → InWindow s.now pol d × (r ≡ allowed)
unfolding decide_window
decide_window_sound s pol allowed r none h a = ground arith
decide_window_sound s pol allowed r (some (aware t)) h a = ground arith
decide_window_sound s pol allowed r (some (naive t)) h a = ground arith
decide_window_sound s pol allowed r (some malformed) h a = ground arith

decide_window_complete :
    (s : PolicySnapshot) (pol : RefundPolicy) (allowed : PolicyResult) (d : Option IsoText)
    → InWindow s.now pol d
    → decide_window s pol allowed d ≡ ok allowed
unfolding decide_window
decide_window_complete s pol allowed none h = ground arith
decide_window_complete s pol allowed (some (aware t)) h = ground arith
decide_window_complete s pol allowed (some (naive t)) h = ground arith
decide_window_complete s pol allowed (some malformed) h = absurd h

module _ (s : PolicySnapshot) (o : Order) (pay : Payment) (pol : RefundPolicy) (r : PolicyResult)
    (a : r.decision ≡ Decision.allow) where
  decide_amount_sound :
      (amount : ℤ)
      → decide_amount s o pay pol amount ≡ ok r
      → (pos 0 <ℤ amount)
        × (amount ≤ℤ pay.captured_cents)
        × (amount ≤ℤ refund_limit pol)
        × InWindow s.now pol o.delivered_at
        × (r ≡ allowed_refund pay amount)
  unfolding decide_amount
  decide_amount_sound amount h =
      ground (arith, decide_window_sound s pol (allowed_refund pay amount) r o.delivered_at)

  decide_asked_sound :
      (asked : Option ℤ)
      → decide_asked s o pay pol asked ≡ ok r
      → (amount : ℤ) × (asked ≡ some amount) × (decide_amount s o pay pol amount ≡ ok r)
  unfolding decide_asked
  decide_asked_sound none h = ground arith
  decide_asked_sound (some amount) h = (amount, refl, h)

  decide_refund_sound :
      (p : ActionProposal)
      → decide_refund p s o pay pol ≡ ok r
      → (pay.status ≡ captured) × (decide_asked s o pay pol p.amount_cents ≡ ok r)
  unfolding decide_refund
  decide_refund_sound p h = ground arith

assert_refund_sound :
    (p : ActionProposal) (s : PolicySnapshot) (mo : Option Order) (mp : Option Payment)
    (mq : Option RefundPolicy) {r : PolicyResult}
    → assert_refund p s mo mp mq ≡ ok r
    → (o : Order) × (pay : Payment) × (pol : RefundPolicy) × (mo ≡ some o)
      × (mp ≡ some pay)
      × (mq ≡ some pol)
      × (decide_refund p s o pay pol ≡ ok r)
unfolding assert_refund
assert_refund_sound p s (some o) (some pay) (some pol) h = (o, pay, pol, refl, refl, refl, h)
assert_refund_sound p s _ _ _ h = cc

evaluate-refund_parts :
    (p : ActionProposal) (s : PolicySnapshot) (r : PolicyResult)
    → p.action ≡ issue_refund
    → evaluate (some p) s ≡ ok r
    → r.decision ≡ Decision.allow
    → (s.read_failures ≡ []) × (assert_refund p s s.order s.payment s.refund_policy ≡ ok r)
unfolding evaluate evaluate_refund
evaluate-refund_parts p s r act h a = ground arith

-- If the policy allows a refund, then every record was read, the payment is still captured, the
-- amount is positive and within the captured amount, the limit and the return window, and the result
-- carries exactly that amount and the payment's identifier and version.
evaluate-allow-IsRefundable :
    (p : ActionProposal) (s : PolicySnapshot) {r : PolicyResult}
    → p.action ≡ issue_refund
    → evaluate (some p) s ≡ ok r
    → r.decision ≡ Decision.allow
    → (o : Order) × (pay : Payment) × (pol : RefundPolicy) × (amount : ℤ) × IsRefundable p s o pay
        pol amount
      × (r ≡ allowed_refund pay amount)
evaluate-allow-IsRefundable p s {r} act h a =
    let (hf, h1) = evaluate-refund_parts p s r act h a in
    let (o, pay, pol, ho, hp, hq, h2) =
      assert_refund_sound p s s.order s.payment s.refund_policy h1 in
    let (status, h3) = decide_refund_sound s o pay pol r a p h2 in
    let (amount, asked, h4) = decide_asked_sound s o pay pol r a p.amount_cents h3 in
    let (positive, captured_le, limit_le, window, e) =
      decide_amount_sound s o pay pol r a amount h4 in
    (
      o,
      pay,
      pol,
      amount,
      record {
        has_order = ho;
        has_payment = hp;
        has_policy = hq;
        all_read = hf;
        asked = asked;
        not_refunded = status;
        positive = positive;
        within_captured = captured_le;
        within_limit = limit_le;
        in_window = window;
      },
      e,
    )

-- Conversely, a refund with all of that is always allowed.
pub IsRefundable-evaluate-allow :
    (p : ActionProposal) (s : PolicySnapshot) (o : Order) (pay : Payment) (pol : RefundPolicy)
    (amount : ℤ)
    → p.action ≡ issue_refund
    → IsRefundable p s o pay pol amount
    → evaluate (some p) s ≡ ok (allowed_refund pay amount)
unfolding evaluate evaluate_refund decide_refund decide_asked decide_amount
IsRefundable-evaluate-allow p s o pay pol amount act d =
    ground
      (arith, decide_window_complete s pol (allowed_refund pay amount) o.delivered_at d.in_window)

-- A result of the policy for a refund allows it exactly where every record was read, the payment is
-- captured, the amount is positive and within what was captured and within the limit, the delivery is
-- within the window, and the result names exactly that payment and amount.
pub evaluate-allow-iff-IsRefundable :
    (p : ActionProposal) (s : PolicySnapshot) (r : PolicyResult)
    → p.action ≡ issue_refund
    → ((evaluate (some p) s ≡ ok r) × (r.decision ≡ Decision.allow)) ↔ (
        (o : Order) × (pay : Payment) × (pol : RefundPolicy) × (amount : ℤ) × IsRefundable p s o pay
          pol amount
        × (r ≡ allowed_refund pay amount))
unfolding allow
evaluate-allow-iff-IsRefundable p s r act = (
  λ (e, a). evaluate-allow-IsRefundable p s act e a,
  λ (o, pay, pol, amount, d, same). (
    IsRefundable-evaluate-allow p s o pay pol amount act d ∙ ap ok (sym same),
    ap (λ (x : PolicyResult). x.decision) same,
  ),
)
