-- ===== src/Flow/Fuel.antt =====
-- The loop over follow-up proposals of app/agent/runner.py ends by its own condition.
use bounded_refund_agent.Prelude.{
  ℕ, zero, suc, ◌+◌, ◌≤◌, String, ◌≡◌, ◌∙◌, refl, sym, subst, ap, Bool, true, false, ◌&&◌, ◌||◌,
  not, none, List, [], ◌∷◌, length, arith, if◌then◌else◌, Bool-cases, inl, inr,
}
use bounded_refund_agent.Result.{Result, ok, err}
use bounded_refund_agent.Prelude.{negsuc}
use bounded_refund_agent.Audit.{EventType, Extra}
use bounded_refund_agent.Schemas.{DecisionOwner, Outcome, ReasonCode}
use bounded_refund_agent.Schemas.Gate.{RawProposal, raw_order_id, validate}
use bounded_refund_agent.Runner.{Options, chain, is_completed, is_exhausted}
use bounded_refund_agent.Runner.Attempts.{Attempt, propose, gated, attempt, text_or}
use bounded_refund_agent.World.{World, Run, M, pure, emit, continue, ◌>>=◌, ◌>>◌}
use bounded_refund_agent.Flow.{Flows, Flows-bind}
use bounded_refund_agent.Flow.Calls.{Flows-emit}
use bounded_refund_agent.Flow.Advance.{Flows-IsFlow}
use bounded_refund_agent.Flow.Runs.{gated-flows}

propose_lem :
    (w : World) (raw : RawProposal) (rest : List RawProposal)
    → w.proposals ≡ raw ∷ rest
    → propose w ≡ (ok raw, record w { proposals = rest })
unfolding propose
propose_lem w raw rest e = rw (e, propose) refl

same_continue :
    {A B : Type 0} (r : Result A) (f g : A → M B) (w : World)
    → ((a : A) → f a w ≡ g a w)
    → continue r f w ≡ continue r g w
same_continue (ok a) f g w h = h a
same_continue (err e) f g w h = refl

module _ (run : Run) (options : Options) where
  -- What an attempt does with what the planner says.
  abbrev after : String → RawProposal → M (Attempt × String)
  after id raw =
      emit run EventType.proposal_created (text_or (raw_order_id raw) id) (negsuc 0)
        DecisionOwner.planner none (Extra.attempt 1)
      >> gated run options.allow_replan_on_stale 1 id (validate raw) raw

  after-Flows : (id : String) (raw : RawProposal) → Flows (after id raw)
  after-Flows id raw =
      Flows-bind (Flows-emit run _ _ _ _ _ _) λ _. gated-flows (Flows-IsFlow run) _ 1 id _ raw

  -- An attempt takes a proposal from the planner.
  attempt-shrinks :
      (w : World) (raw : RawProposal) (rest : List RawProposal) (id : String)
      → w.proposals ≡ raw ∷ rest
      → length (attempt run options.allow_replan_on_stale 1 id w).1.proposals ≤ length rest
  unfolding attempt ◌>>=◌
  attempt-shrinks w raw rest id e =
      subst
        (λ (x : Result RawProposal × World).
          length (continue x.0 (after id) x.1).1.proposals ≤ length rest)
        (sym (propose_lem w raw rest e))
        ((after-Flows id raw).at (record w { proposals = rest })).proposals

  -- A round of the loop.
  abbrev round : ℕ → Outcome → ReasonCode → String → M (Outcome × ReasonCode × String)
  round fuel outcome reason id = attempt run options.allow_replan_on_stale 1 id >>= λ (a, reached).
      if a.replan || a.escalate_after_replan
      then pure (outcome, reason, reached)
      else chain run options fuel a.outcome a.reason_code reached

  abbrev pub goes_on : Outcome → World → Bool
  goes_on outcome w = options.chain_proposals && (is_completed outcome && not (is_exhausted w))

  chain_step :
      (fuel : ℕ) (outcome : Outcome) (reason : ReasonCode) (id : String) (w : World)
      → chain run options (suc fuel) outcome reason id w
        ≡ (if goes_on outcome w then round fuel outcome reason id else pure (outcome, reason, id)) w
  unfolding chain ◌>>=◌
  chain_step fuel outcome reason id w = refl

  exhausted_stops :
      (outcome : Outcome) (w : World) → is_exhausted w ≡ true → goes_on outcome w ≡ false
  exhausted_stops outcome w h = ground (arith, h)

  -- The loop goes on only where the planner has a proposal.
  next_proposal :
      (outcome : Outcome) (w : World) (ps : List RawProposal)
      → w.proposals ≡ ps
      → goes_on outcome w ≡ true
      → (raw : RawProposal) × (rest : List RawProposal) × (w.proposals ≡ raw ∷ rest)
  next_proposal outcome w (raw ∷ rest) e go = (raw, rest, e)
  next_proposal outcome w [] e go =
      let done : is_exhausted w ≡ true = rw (e) refl in
      let stop = exhausted_stops outcome w done in ground arith

  pub chain_stopped :
      (fuel : ℕ) (outcome : Outcome) (reason : ReasonCode) (id : String) (w : World)
      → goes_on outcome w ≡ false
      → chain run options fuel outcome reason id w ≡ pure (outcome, reason, id) w
  unfolding chain
  chain_stopped zero outcome reason id w stop = refl
  chain_stopped (suc fuel) outcome reason id w stop =
      chain_step fuel outcome reason id w ∙ rw (stop) refl

  stopped_alike :
      (fuel k : ℕ) (outcome : Outcome) (reason : ReasonCode) (id : String) (w : World)
      → goes_on outcome w ≡ false
      → chain run options fuel outcome reason id w
        ≡ chain run options (fuel + k) outcome reason id w
  stopped_alike fuel k outcome reason id w stop =
      chain_stopped fuel outcome reason id w stop
      ∙ sym (chain_stopped (fuel + k) outcome reason id w stop)

  chain_goes :
      (fuel : ℕ) (outcome : Outcome) (reason : ReasonCode) (id : String) (w : World)
      → goes_on outcome w ≡ true
      → chain run options (suc fuel) outcome reason id w ≡ round fuel outcome reason id w
  chain_goes fuel outcome reason id w go = chain_step fuel outcome reason id w ∙ rw (go) refl

  round-settles :
      (fuel k : ℕ) (outcome : Outcome) (reason : ReasonCode) (id : String) (w : World)
      → ((a : Attempt) (reached : String)
          → chain run options fuel a.outcome a.reason_code reached
              (attempt run options.allow_replan_on_stale 1 id w).1
            ≡ chain run options
                (fuel + k)
                a.outcome
                a.reason_code
                reached
                (attempt run options.allow_replan_on_stale 1 id w).1)
      → round fuel outcome reason id w ≡ round (fuel + k) outcome reason id w
  unfolding ◌>>=◌
  round-settles fuel k outcome reason id w ih =
      same_continue (attempt run options.allow_replan_on_stale 1 id w).0 _ _
        (attempt run options.allow_replan_on_stale 1 id w).1
        (λ (a, reached). elim (Bool-cases (a.replan || a.escalate_after_replan)) [
          | inl t ↦ rw (t) refl
          | inr f ↦ rw (f) (ih a reached)
        ])

  -- The fuel of the loop over follow-up proposals is enough: from the number of proposals left on, more fuel
  -- changes neither the result nor the world, so the loop ends by its own condition.
  pub chain-settles :
      (fuel k : ℕ) (outcome : Outcome) (reason : ReasonCode) (id : String) (w : World)
      → length w.proposals ≤ fuel
      → chain run options fuel outcome reason id w
        ≡ chain run options (fuel + k) outcome reason id w
  chain-settles zero k outcome reason id w h = elim (Bool-cases (goes_on outcome w)) [
    | inr stop ↦ stopped_alike zero k outcome reason id w stop
    | inl go ↦
        let (raw, rest, e) = next_proposal outcome w w.proposals refl go in
        let some_left : length w.proposals ≡ suc (length rest) = ap length e in
        ground (arith, some_left, h)
  ]
  chain-settles (suc fuel) k outcome reason id w h = elim (Bool-cases (goes_on outcome w)) [
    | inr stop ↦ stopped_alike (suc fuel) k outcome reason id w stop
    | inl go ↦
        let (raw, rest, e) = next_proposal outcome w w.proposals refl go in
        let some_left : length w.proposals ≡ suc (length rest) = ap length e in
        let same : suc (fuel + k) ≡ suc fuel + k = omega arith in
        let fewer = attempt-shrinks w raw rest id e in
        chain_goes fuel outcome reason id w go
        ∙ (round-settles fuel k outcome reason id w
              (λ a reached. chain-settles fuel k a.outcome a.reason_code reached _ (omega arith))
            ∙ (sym (chain_goes (fuel + k) outcome reason id w go)
                ∙ ap (λ n. chain run options n outcome reason id w) same))
  ]
