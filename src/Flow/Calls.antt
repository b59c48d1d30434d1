-- ===== src/Flow/Calls.antt =====
-- The clock, the trace, the recorder, the injector and the reads: what they let grow.
use bounded_refund_agent.Prelude.{
  ℕ, zero, suc, ◌+◌, ℤ, String, ◌≡◌, refl, false, Option, none, some, List, [], ◌∷◌, ◌++◌, arith,
}
use bounded_refund_agent.Result.{Result, ok, err}
use bounded_refund_agent.Schemas.{ActionName, DecisionOwner, ReadTool, ReasonCode}
use bounded_refund_agent.Db.{Db}
use bounded_refund_agent.Failures.{
  StateChange, FailureInjector, apply, is_due, read_should_fail, should_timeout_after_commit,
}
use bounded_refund_agent.Injection.{
  settle, apply_changes, fire_changes, inject, apply_pre_commit, read_fails, response_lost,
}
use bounded_refund_agent.Audit.{Event, EventType, Extra}
use bounded_refund_agent.Policy.{read_max_attempts}
use bounded_refund_agent.ReadTools.{attempts, call}
use bounded_refund_agent.World.{World, ToolCall, Run, modify, now, append_event, emit, record_call}
use bounded_refund_agent.Flow.{
  Grown-refl, Grown-snoc, Advances, Advances-refl, alike, Flows, Flows-pure, Flows-lift,
  Flows-query, Flows-if, Flows-modify, Flows-bind,
}

pub Flows-now : Flows now
unfolding now
Flows-now = record { at = λ w. alike refl refl refl refl }

emit-Advances :
    (run : Run) (type : EventType) (resource : String) (version : ℤ) (owner : DecisionOwner)
    (reason : Option ReasonCode) (extra : Extra) (w : World) (audit : Option (List Event))
    → w.audit ≡ audit
    → Advances w
        (elim audit as (λ (x : Option (List Event)). Result (Unit {0}) × World) [
          | none ↦ (ok tt, w)
          | some events ↦ append_event run type resource version owner reason extra events w
        ]).1
unfolding append_event
emit-Advances run type resource version owner reason extra w none e = Advances-refl w
emit-Advances run type resource version owner reason extra w (some events) e = record {
  audit = Grown-snoc w.audit events _ e;
  recorder = Grown-refl w.recorder;
  sequence = omega arith;
  proposals = omega arith;
}

pub Flows-emit :
    (run : Run) (type : EventType) (resource : String) (version : ℤ) (owner : DecisionOwner)
    (reason : Option ReasonCode) (extra : Extra)
    → Flows (emit run type resource version owner reason extra)
unfolding emit
Flows-emit run type resource version owner reason extra = record {
  at = λ w. emit-Advances run type resource version owner reason extra w w.audit refl;
}

record_call-Advances :
    (c : ToolCall) (w : World) (recorder : Option (List ToolCall))
    → w.recorder ≡ recorder
    → Advances w
        (elim recorder [ none ↦ w | some calls ↦ record w { recorder = some (calls ++ c ∷ []) } ])
record_call-Advances c w none e = Advances-refl w
record_call-Advances c w (some calls) e = record {
  audit = Grown-refl w.audit;
  recorder = Grown-snoc w.recorder calls c e;
  sequence = omega arith;
  proposals = omega arith;
}

pub Flows-record_call : (c : ToolCall) → Flows (modify (record_call c))
unfolding record_call
Flows-record_call c = Flows-modify (record_call c) (λ w. record_call-Advances c w w.recorder refl)

settle-Advances : (w : World) (r : Result Db) → Advances w (settle r w).1
settle-Advances w (ok db) = alike refl refl refl refl
settle-Advances w (err e) = Advances-refl w

apply_changes-Flows : (cs : List StateChange) → Flows (apply_changes cs)
unfolding apply_changes
apply_changes-Flows [] = Flows-pure tt
apply_changes-Flows (c ∷ cs) =
    Flows-bind (record { at = λ w. settle-Advances w (apply c w.db) }) (λ _. apply_changes-Flows cs)

update_injector-Advances :
    (f : FailureInjector → FailureInjector) (w : World) (i : Option FailureInjector)
    → Advances w (elim i [ none ↦ w | some j ↦ record w { injector = some (f j) } ])
update_injector-Advances f w none = Advances-refl w
update_injector-Advances f w (some i) = alike refl refl refl refl

fire_changes-Flows : (a : ActionName) (i : FailureInjector) → Flows (fire_changes a i)
unfolding fire_changes
fire_changes-Flows a i =
    Flows-if (is_due a i) _ _
      (Flows-bind (Flows-modify _ (λ w. alike refl refl refl refl)) (λ _.
        Flows-bind (apply_changes-Flows _)
          (λ _. Flows-modify _ (λ w. update_injector-Advances _ w w.injector))))
      (Flows-pure tt)

inject-Flows : (a : ActionName) (i : Option FailureInjector) → Flows (inject a i)
inject-Flows a none = Flows-pure tt
inject-Flows a (some i) = fire_changes-Flows a i

pub apply_pre_commit-Flows : (a : ActionName) → Flows (apply_pre_commit a)
unfolding apply_pre_commit
apply_pre_commit-Flows a = record { at = λ w. (inject-Flows a w.injector).at w }

-- A count of the injector: a value, and the injector after it.
counted-Advances :
    {A : Type 0} (count : FailureInjector → A × FailureInjector) (a : A) (w : World)
    (i : Option FailureInjector)
    → Advances w
        (elim i as (λ (x : Option FailureInjector). Result A × World) [
          | none ↦ (ok a, w)
          | some j ↦ (ok (count j).0, record w { injector = some (count j).1 })
        ]).1
counted-Advances count a w none = Advances-refl w
counted-Advances count a w (some i) = alike refl refl refl refl

read_fails-Flows : (tool : ReadTool) → Flows (read_fails tool)
unfolding read_fails
read_fails-Flows tool = record {
  at = λ w. counted-Advances (read_should_fail tool) false w w.injector;
}

pub response_lost-Flows : (a : ActionName) → Flows (response_lost a)
unfolding response_lost
response_lost-Flows a = record {
  at = λ w. counted-Advances (should_timeout_after_commit a) false w w.injector;
}

attempts-Flows :
    {A : Type 0} (tool : ReadTool) (argument : String) (fetch : Db → Result (Option A)) (left n : ℕ)
    → Flows (attempts tool argument fetch left n)
unfolding attempts
attempts-Flows tool argument fetch zero n = Flows-lift _
attempts-Flows tool argument fetch (suc left) n = Flows-bind (Flows-record_call _) λ _.
    Flows-bind (read_fails-Flows tool) λ failed.
      Flows-if failed _ _ (attempts-Flows tool argument fetch left (n + 1)) (Flows-query fetch)

pub call-Flows :
    {A : Type 0} (tool : ReadTool) (argument : String) (fetch : Db → Result (Option A))
    → Flows (call tool argument fetch)
unfolding call
call-Flows tool argument fetch = attempts-Flows tool argument fetch read_max_attempts 1
