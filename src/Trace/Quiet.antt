-- ===== src/Trace/Quiet.antt =====
-- The actions of a run that add no row to the log and report no commit.
use bounded_refund_agent.Prelude.{
  ℕ, ℤ, String, ◌≡◌, refl, false, Option, none, some, List, [], ◌∷◌, ◌++◌, arith, count-append,
}
use bounded_refund_agent.Result.{Result, Exception, ok, err}
use bounded_refund_agent.Schemas.{ActionName, DecisionOwner, ReadTool, ReasonCode}
use bounded_refund_agent.Db.{Db}
use bounded_refund_agent.Failures.{
  StateChange, FailureInjector, apply, is_due, read_should_fail, should_timeout_after_commit,
}
use bounded_refund_agent.Injection.{
  settle, apply_changes, fire_changes, inject, apply_pre_commit, read_fails, response_lost,
}
use bounded_refund_agent.Audit.{Event, EventType, Extra}
use bounded_refund_agent.Ledger.Same.{apply-SameLedger}
use bounded_refund_agent.World.{
  World, ToolCall, Run, M, pure, lift, query, gets, modify, now, append_event, emit, record_call,
  continue, ◌>>=◌,
}
use bounded_refund_agent.Flow.Shape.{is_commit_type, is_commit_event, either}
use bounded_refund_agent.Trace.{Logs, Logs-refl, Logs-trans, nothing_added, Tallies, Quiet}

module _ {id : String} where
  module _ {A : Type 0} where
    pub Quiet-pure : (a : A) → Quiet id A (pure a)
    unfolding pure
    Quiet-pure a = record { at = Logs-refl }

    pub Quiet-lift : (r : Result A) → Quiet id A (lift r)
    unfolding lift
    Quiet-lift r = record { at = Logs-refl }

    pub Quiet-query : (q : Db → Result A) → Quiet id A (query q)
    unfolding query
    Quiet-query q = record { at = Logs-refl }

    pub Quiet-gets : (f : World → A) → Quiet id A (gets f)
    unfolding gets
    Quiet-gets f = record { at = Logs-refl }

  pub Quiet-modify : (f : World → World) → ((w : World) → Logs id 0 w (f w)) → Quiet id _ (modify f)
  unfolding modify
  Quiet-modify f h = record { at = h }

  module _ {A B : Type 0} (g : Result B → ℕ) (none_raised : (e : Exception) → g (err e) ≡ 0) where
    continue-Logs :
        (r : Result A) (f : A → M B) (w w' : World)
        → ((a : A) → Tallies id g (f a))
        → Logs id 0 w w'
        → Logs id (g (continue r f w').0) w (continue r f w').1
    continue-Logs (ok a) f w w' kf h = Logs-trans h ((kf a).at w')
    continue-Logs (err e) f w w' kf h = rw (none_raised e) h

    -- What raises adds no row.
    pub Tallies-bind :
        {m : M A} {f : A → M B}
        → Quiet id A m
        → ((a : A) → Tallies id g (f a))
        → Tallies id g (m >>= f)
    unfolding ◌>>=◌
    Tallies-bind {m} {f} km kf = record { at = λ w. continue-Logs (m w).0 f w (m w).1 kf (km.at w) }

  pub Quiet-bind :
      {A B : Type 0} {m : M A} {f : A → M B}
      → Quiet id A m
      → ((a : A) → Quiet id B (f a))
      → Quiet id B (m >>= f)
  Quiet-bind = Tallies-bind (λ _. 0) (λ e. refl)

  pub Quiet-now : Quiet id _ now
  unfolding now
  Quiet-now = record { at = λ w. nothing_added refl refl }

  -- An event that reports no commit.
  emit-Logs :
      (run : Run) (type : EventType) (resource : String) (version : ℤ) (owner : DecisionOwner)
      (reason : Option ReasonCode) (extra : Extra) (w : World) (audit : Option (List Event))
      → is_commit_type type ≡ false
      → w.audit ≡ audit
      → Logs id 0 w
          (elim audit as (λ (x : Option (List Event)). Result (Unit {0}) × World) [
            | none ↦ (ok tt, w)
            | some events ↦ append_event run type resource version owner reason extra events w
          ]).1
  unfolding append_event
  emit-Logs run type resource version owner reason extra w none plain e = Logs-refl w
  emit-Logs run type resource version owner reason extra w (some events) plain e = record {
    watched = rw (e) refl;
    trace = let more = count-append is_commit_event events in rw (e, more, plain) (omega arith);
    log = omega arith;
  }

  pub Quiet-emit :
      (run : Run) (type : EventType) (resource : String) (version : ℤ) (owner : DecisionOwner)
      (reason : Option ReasonCode) (extra : Extra)
      → is_commit_type type ≡ false
      → Quiet id _ (emit run type resource version owner reason extra)
  unfolding emit
  Quiet-emit run type resource version owner reason extra plain = record {
    at = λ w. emit-Logs run type resource version owner reason extra w w.audit plain refl;
  }

  record_call-Logs :
      (c : ToolCall) (w : World) (recorder : Option (List ToolCall))
      → Logs id 0 w
          (elim recorder [ none ↦ w | some calls ↦ record w { recorder = some (calls ++ c ∷ []) } ])
  record_call-Logs c w none = Logs-refl w
  record_call-Logs c w (some calls) = nothing_added refl refl

  pub Quiet-record_call : (c : ToolCall) → Quiet id _ (modify (record_call c))
  unfolding record_call
  Quiet-record_call c = Quiet-modify (record_call c) (λ w. record_call-Logs c w w.recorder)

  settle-Logs :
      (c : StateChange) (w : World) (r : Result Db) → apply c w.db ≡ r → Logs id 0 w (settle r w).1
  settle-Logs c w (ok db) e = nothing_added refl (apply-SameLedger c w.db db e).log
  settle-Logs c w (err x) e = Logs-refl w

  apply_changes-Quiet : (cs : List StateChange) → Quiet id _ (apply_changes cs)
  unfolding apply_changes
  apply_changes-Quiet [] = Quiet-pure tt
  apply_changes-Quiet (c ∷ cs) =
      Quiet-bind (record { at = λ w. settle-Logs c w (apply c w.db) refl })
        (λ _. apply_changes-Quiet cs)

  update_injector-Logs :
      (f : FailureInjector → FailureInjector) (w : World) (i : Option FailureInjector)
      → Logs id 0 w (elim i [ none ↦ w | some j ↦ record w { injector = some (f j) } ])
  update_injector-Logs f w none = Logs-refl w
  update_injector-Logs f w (some i) = nothing_added refl refl

  fire_changes-Quiet : (a : ActionName) (i : FailureInjector) → Quiet id _ (fire_changes a i)
  unfolding fire_changes
  fire_changes-Quiet a i =
      either (Quiet id _) (is_due a i) _ _
        (Quiet-bind (Quiet-modify _ (λ w. nothing_added refl refl)) (λ _.
          Quiet-bind (apply_changes-Quiet _)
            (λ _. Quiet-modify _ (λ w. update_injector-Logs _ w w.injector))))
        (Quiet-pure tt)

  inject-Quiet : (a : ActionName) (i : Option FailureInjector) → Quiet id _ (inject a i)
  inject-Quiet a none = Quiet-pure tt
  inject-Quiet a (some i) = fire_changes-Quiet a i

  pub apply_pre_commit-Quiet : (a : ActionName) → Quiet id _ (apply_pre_commit a)
  unfolding apply_pre_commit
  apply_pre_commit-Quiet a = record { at = λ w. (inject-Quiet a w.injector).at w }

  counted-Logs :
      {A : Type 0} (counting : FailureInjector → A × FailureInjector) (a : A) (w : World)
      (i : Option FailureInjector)
      → Logs id 0 w
          (elim i as (λ (x : Option FailureInjector). Result A × World) [
            | none ↦ (ok a, w)
            | some j ↦ (ok (counting j).0, record w { injector = some (counting j).1 })
          ]).1
  counted-Logs counting a w none = Logs-refl w
  counted-Logs counting a w (some i) = nothing_added refl refl

  pub read_fails-Quiet : (tool : ReadTool) → Quiet id _ (read_fails tool)
  unfolding read_fails
  read_fails-Quiet tool = record {
    at = λ w. counted-Logs (read_should_fail tool) false w w.injector;
  }

  pub response_lost-Quiet : (a : ActionName) → Quiet id _ (response_lost a)
  unfolding response_lost
  response_lost-Quiet a = record {
    at = λ w. counted-Logs (should_timeout_after_commit a) false w w.injector;
  }
