-- ===== src/Safety/Rejected.antt =====
-- A run of app/agent/runner.py whose planner says nothing that the gate accepts.
use bounded_refund_agent.Prelude.{
  ℕ, suc, negsuc, ℤ, String, ◌≡◌, ◌∙◌, refl, sym, subst, Bool, true, false, Option, none, some,
  List, [], ◌∷◌, arith, if◌then◌else◌,
}
use bounded_refund_agent.Result.{Result, ok, err, ok_injective}
use bounded_refund_agent.Audit.{EventType, Extra}
use bounded_refund_agent.Schemas.{ActionProposal, DecisionOwner, Outcome, denied, ReasonCode}
use bounded_refund_agent.Schemas.Gate.{RawProposal, nothing, validate}
use bounded_refund_agent.Db.{Db}
use bounded_refund_agent.Runner.{Options, LoopEnd, attempt_loop, chain, replay_last, run_all}
use bounded_refund_agent.Runner.Attempts.{Attempt, propose, gated, attempt}
use bounded_refund_agent.Runner.Report.{verify, report}
use bounded_refund_agent.World.{World, Run, M, pure, gets, emit, continue, ◌>>=◌, ◌>>◌}
use bounded_refund_agent.World.Leads.{
  Leads, IsSilent-gets, IsSilent-emit, IsSilent-Leads, Leads-pure, Leads-bind,
}
use bounded_refund_agent.Flow.Fuel.{goes_on, chain_stopped}
use bounded_refund_agent.Safety.Whole.{verify-Leads}

-- What a step that started in `w` has left: the tables, the last execution, and `P` of its value.
record Keeps {A : Type 0} (w : World) (P : A → World → Type 0) (x : Result A × World) : Type 0 where
  db : x.1.db ≡ w.db
  last : x.1.last_execution ≡ w.last_execution
  value : (a : A) → x.0 ≡ ok a → P a x.1

module _ {A B : Type 0} {P : A → World → Type 0} {Q : B → World → Type 0} where
  continue-Keeps :
      (w : World) (f : A → M B) (r : Result A) (w' : World)
      → Keeps w P (r, w')
      → ((a : A) (v : World) → P a v → Keeps v Q (f a v))
      → Keeps w Q (continue r f w')
  continue-Keeps w f (ok a) w' k kf =
      let next = kf a w' (k.value a refl) in
      record { db = next.db ∙ k.db; last = next.last ∙ k.last; value = next.value }
  continue-Keeps w f (err e) w' k kf = record { db = k.db; last = k.last; value = λ a h. cc }

  Keeps-bind :
      (m : M A) (f : A → M B) (w : World)
      → Keeps w P (m w)
      → ((a : A) (v : World) → P a v → Keeps v Q (f a v))
      → Keeps w Q ((m >>= f) w)
  unfolding ◌>>=◌
  Keeps-bind m f w k kf = continue-Keeps w f (m w).0 (m w).1 k kf

module _ {A B : Type 0} {P : A → World → Type 0} where
  continue_same :
      (w : World) (f : A → M B) (r : Result A) (w' : World)
      → Keeps w P (r, w')
      → ((a : A) (v : World) → P a v → v.last_execution ≡ w.last_execution → (f a v).1.db ≡ v.db)
      → (continue r f w').1.db ≡ w.db
  continue_same w f (ok a) w' k kf = kf a w' (k.value a refl) k.last ∙ k.db
  continue_same w f (err e) w' k kf = k.db

  -- What follows leaves the tables too.
  bind_same :
      (m : M A) (f : A → M B) (w : World)
      → Keeps w P (m w)
      → ((a : A) (v : World) → P a v → v.last_execution ≡ w.last_execution → (f a v).1.db ≡ v.db)
      → ((m >>= f) w).1.db ≡ w.db
  unfolding ◌>>=◌
  bind_same m f w k kf = continue_same w f (m w).0 (m w).1 k kf

Keeps-pure :
    {A : Type 0} {P : A → World → Type 0} (a : A) (w : World) → P a w → Keeps w P (pure a w)
unfolding pure
Keeps-pure {P} a w p = record {
  db = refl;
  last = refl;
  value = λ b h. subst (λ x. P x w) (ok_injective h) p;
}

-- What the planner says next.
abbrev pub next_answer : List RawProposal → RawProposal
next_answer [] = nothing
next_answer (raw ∷ rest) = raw

-- The gate accepts nothing of what the planner says next.
abbrev pub IsRejected : World → Type 0
IsRejected w = (validate (next_answer w.proposals)).0 ≡ none

module _ (run : Run) where
  emit-Keeps :
      (type : EventType) (resource : String) (version : ℤ) (owner : DecisionOwner)
      (reason : Option ReasonCode) (extra : Extra) (w : World)
      → Keeps w
          (λ _ v. v.proposals ≡ w.proposals)
          (emit run type resource version owner reason extra w)
  unfolding emit
  emit-Keeps type resource version owner reason extra w = record {
    db = ground arith;
    last = ground arith;
    value = λ a h. ground arith;
  }

  propose-Keeps : (w : World) → Keeps w (λ raw _. raw ≡ next_answer w.proposals) (propose w)
  unfolding propose
  propose-Keeps w = record { db = ground arith; last = ground arith; value = λ a h. ground arith }

  -- An attempt that ended at the gate.
  abbrev AtGate : Attempt × String → World → Type 0
  AtGate r v = (r.0.outcome ≡ denied) × (r.0.replan ≡ false) × (r.0.escalate_after_replan ≡ false)

  gated-Keeps :
      (replans : Bool) (n : ℕ) (id : String) (checked : Option ActionProposal × Option ReasonCode)
      (raw : RawProposal) (w : World)
      → checked.0 ≡ none
      → Keeps w AtGate (gated run replans n id checked raw w)
  unfolding gated
  gated-Keeps replans n id (none, reason) raw w h =
      Keeps-bind _ _ w (emit-Keeps _ _ _ _ _ _ w) λ _ v same. Keeps-pure _ v (refl, refl, refl)
  gated-Keeps replans n id (some p, reason) raw w h = cc

  attempt-Keeps :
      (replans : Bool) (n : ℕ) (id : String) (w : World)
      → IsRejected w
      → Keeps w AtGate (attempt run replans n id w)
  unfolding attempt
  attempt-Keeps replans n id w rejected = Keeps-bind _ _ w (propose-Keeps w) λ raw v same.
      Keeps-bind _ _ v (emit-Keeps _ _ _ _ _ _ v) λ _ u _.
        gated-Keeps replans n id (validate raw) raw u
          (subst (λ x. (validate x).0 ≡ none) (sym same) rejected)

  -- The loop over the attempts ends with its first one.
  abbrev Refused : LoopEnd → World → Type 0
  Refused e v = (e.outcome ≡ denied) × (e.escalates ≡ false)

  attempt_loop-Keeps :
      (options : Options) (left n : ℕ) (id : String) (w : World)
      → IsRejected w
      → Keeps w Refused (attempt_loop run options (suc left) n id w)
  unfolding attempt_loop
  attempt_loop-Keeps options left n id w rejected =
      Keeps-bind _ _ w (attempt-Keeps _ n id w rejected)
        λ (a, reached) v (outcome, replan, escalates).
          rw (replan, escalates) (Keeps-pure _ v (outcome, refl))

  first_round :
      (options : Options) (again : Bool) (id : String) (w : World)
      → IsRejected w
      → Keeps w Refused (attempt_loop run options (if again then 2 else 1) 1 id w)
  first_round options true id w rejected = attempt_loop-Keeps options 1 1 id w rejected
  first_round options false id w rejected = attempt_loop-Keeps options 0 1 id w rejected

  no_follow_up :
      (options : Options) (outcome : Outcome) (w : World)
      → outcome ≡ denied
      → goes_on run options outcome w ≡ false
  no_follow_up options outcome w e = rw (e) (ground arith)

  chain-Keeps :
      (options : Options) (fuel : ℕ) (outcome : Outcome) (reason : ReasonCode) (id : String)
      (w : World)
      → outcome ≡ denied
      → Keeps w (λ _ _. Unit {0}) (chain run options fuel outcome reason id w)
  chain-Keeps options fuel outcome reason id w e =
      subst (Keeps w (λ _ _. Unit {0}))
        (sym
          (chain_stopped run options fuel outcome reason id w (no_follow_up options outcome w e)))
        (Keeps-pure _ w tt)

  if_pure-Keeps :
      {A : Type 0} (b : Bool) (m : M A) (a : A) (w : World)
      → b ≡ false
      → Keeps w (λ _ _. Unit {0}) ((if b then m else pure a) w)
  if_pure-Keeps b m a w h = rw (h) (Keeps-pure a w tt)

  replayed-Keeps :
      (again : Bool) (last : Option (String × ActionProposal)) (w : World)
      → last ≡ none
      → Keeps w (λ _ _. Unit {0}) ((if again then replay_last run last else pure tt) w)
  unfolding replay_last
  replayed-Keeps true none w h = Keeps-pure tt w tt
  replayed-Keeps false last w h = Keeps-pure tt w tt
  replayed-Keeps true (some x) w h = cc

  -- Past the replay: the verifier and the report only read.
  reported-keeps :
      (reason : ReasonCode) (outcome : Outcome) (id : String) (base : Db)
      → Leads
          (λ db. db ≡ base)
          (λ db. db ≡ base)
          (verify run id >>= λ final. report run outcome reason final >>= λ summary.
            emit run EventType.run_finished id
              (negsuc 0)
              DecisionOwner.verifier
              (some reason)
              (Extra.finished outcome summary.mutation_count)
            >> pure summary)
  unfolding report
  reported-keeps reason outcome id base =
      Leads-bind (λ db h. h) (verify-Leads run _)
        λ final.
          Leads-bind (λ db h. h) (IsSilent-Leads (IsSilent-gets _))
            λ summary.
              Leads-bind (λ db h. h) (IsSilent-Leads (IsSilent-emit run _ _ _ _ _ _))
                λ _. Leads-pure _ (λ db h. h)

  gets-Keeps : {A : Type 0} (f : World → A) (w : World) → Keeps w (λ a _. a ≡ f w) (gets f w)
  unfolding gets
  gets-Keeps f w = record { db = refl; last = refl; value = λ a h. sym (ok_injective h) }

  after_chain_same :
      (options : Options) (reason : ReasonCode) (outcome : Outcome) (id : String) (w : World)
      → w.last_execution ≡ none
      → ((gets (λ v. v.last_execution) >>= λ last.
            (if options.replay_last_permit then replay_last run last else pure tt) >>= λ _.
            verify run id >>= λ final. report run outcome reason final >>= λ summary.
            emit run EventType.run_finished id
              (negsuc 0)
              DecisionOwner.verifier
              (some reason)
              (Extra.finished outcome summary.mutation_count)
            >> pure summary)
          w).1.db
        ≡ w.db
  after_chain_same options reason outcome id w none_yet =
      bind_same _ _ w (gets-Keeps (λ v. v.last_execution) w) λ last v same kept.
        bind_same _ _ v (replayed-Keeps options.replay_last_permit last v (same ∙ none_yet))
          λ _ u _ _. (reported-keeps reason outcome id u.db).at u refl

-- A run whose planner's first answer does not pass the gate leaves every table as it was, whatever the planner
-- would say next, for every clock and injector, and also where it ends in an exception; before it, nothing
-- was executed that it could replay.
pub run_all-rejected_unchanged :
    (run : Run) (options : Options) (w : World)
    → IsRejected w
    → w.last_execution ≡ none
    → (run_all run options w).1.db ≡ w.db
unfolding run_all
run_all-rejected_unchanged run options w rejected none_yet =
    bind_same _ _ w (emit-Keeps run _ _ _ _ _ _ w) λ _ v same kept.
      bind_same {P = Refused run} _ _ v
        (first_round run options options.allow_replan_on_stale options.default_order_id v
          (subst (λ ps. (validate (next_answer ps)).0 ≡ none) (sym same) rejected))
        λ end u (outcome, escalates) kept2.
          bind_same _ _ u (if_pure-Keeps run end.escalates _ tt u escalates) λ _ t _ kept3.
            bind_same _ _ t (gets-Keeps run _ t) λ fuel s _ kept4.
              bind_same _ _ s (chain-Keeps run options fuel _ _ _ s outcome) λ c r _ kept5.
                after_chain_same run options c.1 c.0 c.2 r
                  (kept5 ∙ (kept4 ∙ (kept3 ∙ (kept2 ∙ (kept ∙ none_yet)))))
