-- ===== src/Trace/Execution.antt =====
-- `Executor.execute` of app/executor/executor.py: a row of the log for each event that reports a commit.
use bounded_refund_agent.Prelude.{
  ◌+◌, ℤ, String, ◌≡◌, ◌∙◌, refl, sym, ap, Bool, true, false, not, ◌&&◌, Option, none, some, List,
  is_some, arith, count-append, if◌then◌else◌,
}
use bounded_refund_agent.Result.{Result, Exception, ok, err}
use bounded_refund_agent.Schemas.{
  ActionProposal, DecisionOwner, ExecutionPermit, ExecutionResult, ReasonCode,
}
use bounded_refund_agent.Audit.{Event, EventType, Extra}
use bounded_refund_agent.Executor.{
  Target, resolve_target, run_checks, emit_event, report, report_committed, execute,
}
use bounded_refund_agent.Executor.Commit.{TicketText, no_ticket_text}
use bounded_refund_agent.Runner.Attempts.{is_response_timeout, execute_once_more}
use bounded_refund_agent.World.{
  World, Run, M, pure, query, gets, catch, resume, continue, append_event, emit, ◌>>=◌,
}
use bounded_refund_agent.Flow.Shape.{is_commit_type, is_commit_event, either}
use bounded_refund_agent.Trace.{
  Logs, Logs-trans, commits, commits_in, mutations, Quiet, is_settled, Agrees, Logs-Agrees,
  Agrees-trans, Balances, Quiet-Balances, Balances-bind, continue-Agrees, nothing_added,
}
use bounded_refund_agent.Trace.Quiet.{
  Quiet-pure, Quiet-lift, Quiet-query, Quiet-gets, Quiet-bind, Quiet-emit, Quiet-modify,
  response_lost-Quiet,
}
use bounded_refund_agent.Trace.Targets.{IsPlain, resolve_target-IsPlain}
use bounded_refund_agent.Trace.Checks.{owed, run_checks-Tallies}

-- The log has a row more than the trace has reported since `w`.
record Owes (id : String) (w w' : World) : Type 0 where
  watched : is_some w'.audit ≡ is_some w.audit
  ahead : commits w' + mutations id w + 1 ≡ mutations id w' + commits w

unpaid-Agrees :
    {id : String} {b : Bool} {w w' : World}
    → Owes id w w'
    → (is_some w'.audit ≡ true → b ≡ false)
    → Agrees id b w w'
unpaid-Agrees {b = b} {w} {w'} h free = record {
  watched = h.watched;
  at_most = let a = h.ahead in omega arith;
  exact = λ seen settled. let e = free (h.watched ∙ seen) in cc;
}

-- What ran ends in agreement with `w`.
abbrev Ends : {A : Type 0} → String → World → Result A × World → Type 0
Ends id w ran = Agrees id (is_settled ran.0) w ran.1

Quiet-Ends :
    {id : String} {A : Type 0} {m : M A} {w w' : World}
    → Logs id 0 w w'
    → Quiet id A m
    → Ends id w (m w')
Quiet-Ends {w' = w'} h q = Logs-Agrees (Logs-trans h (q.at w'))

one-Owes : {id : String} {w w' : World} → Logs id 1 w w' → Owes id w w'
one-Owes h = record { watched = h.watched; ahead = let t = h.trace in let l = h.log in omega arith }

reported-Agrees :
    {id : String} (committed again : Bool) (replayed fresh refused : M ExecutionResult)
    (w w' : World)
    → Logs id (if committed && not again then 1 else 0) w w'
    → Quiet id _ replayed
    → (Owes id w w' → Ends id w (fresh w'))
    → Quiet id _ refused
    → Ends id w ((if committed then (if again then replayed else fresh) else refused) w')
reported-Agrees true true replayed fresh refused w w' h a b c = Quiet-Ends h a
reported-Agrees true false replayed fresh refused w w' h a b c = b (one-Owes h)
reported-Agrees false again replayed fresh refused w w' h a b c = Quiet-Ends h c

module _ (run : Run) (p : ActionProposal) (permit : Option ExecutionPermit) where
  -- The event of a commit, where there is a trace.
  appended-Agrees :
      (resource : String) (version : ℤ) (reason : Option ReasonCode) (extra : Extra) (w w' : World)
      (audit : Option (List Event))
      → Owes run.run_id w w'
      → w'.audit ≡ audit
      → Ends run.run_id w (elim audit as (λ (x : Option (List Event)). Result (Unit {0}) × World) [
        | none ↦ (ok tt, w')
        | some events ↦
            append_event run EventType.mutation_committed resource version DecisionOwner.executor
              reason extra events w'
      ])
  unfolding append_event
  appended-Agrees resource version reason extra w w' none h e =
      unpaid-Agrees h (λ seen. ground (arith, e))
  appended-Agrees resource version reason extra w w' (some events) h e =
      let more = count-append is_commit_event events in
      let before = ap commits_in e in
      let watched = ap is_some e in
      record {
        watched = sym watched ∙ h.watched;
        at_most = let a = h.ahead in rw (more) (omega arith);
        exact = λ seen settled. let a = h.ahead in rw (more) (omega arith);
      }

  asked-Agrees :
      (resource : String) (version : Option Target → ℤ) (reason : Option ReasonCode) (extra : Extra)
      (w w' : World) (target : Result (Option Target))
      → Owes run.run_id w w'
      → IsPlain target
      → Ends run.run_id w (
          continue target
            (λ t.
              emit run EventType.mutation_committed resource
                (version t)
                DecisionOwner.executor
                reason
                extra)
            w')
  unfolding emit
  asked-Agrees resource version reason extra w w' (err e) h plain = unpaid-Agrees h (λ seen. plain)
  asked-Agrees resource version reason extra w w' (ok t) h plain =
      appended-Agrees resource (version t) reason extra w w' w'.audit h refl

  watching-Agrees :
      (asked : M (Unit {0})) (w w' : World) (watched : Bool)
      → Owes run.run_id w w'
      → Ends run.run_id w (asked w')
      → is_some w'.audit ≡ watched
      → Ends run.run_id w ((if watched then asked else pure tt) w')
  unfolding pure
  watching-Agrees asked w w' true h k e = k
  watching-Agrees asked w w' false h k e = unpaid-Agrees h (λ seen. cc)

  -- The event that a commit is reported with pays for its row.
  announce-Agrees :
      (reason : Option ReasonCode) (extra : Extra) (w w' : World)
      → Owes run.run_id w w'
      → Ends run.run_id w (emit_event run EventType.mutation_committed p permit reason extra w')
  unfolding emit_event ◌>>=◌ gets query
  announce-Agrees reason extra w w' h =
      watching-Agrees _ w w' (is_some w'.audit) h
        (asked-Agrees _ _ reason extra w w' (resolve_target p w'.db) h
          (resolve_target-IsPlain p w'.db))
        refl

  emit_event-Quiet :
      (type : EventType) (reason : Option ReasonCode) (extra : Extra)
      → is_commit_type type ≡ false
      → Quiet run.run_id _ (emit_event run type p permit reason extra)
  unfolding emit_event
  emit_event-Quiet type reason extra plain = Quiet-bind (Quiet-gets _) λ watched.
      either (Quiet run.run_id _) watched _ _
        (Quiet-bind (Quiet-query _) λ target. Quiet-emit run type _ _ _ _ _ plain) (Quiet-pure tt)

  -- A commit is announced, and then its response may be lost.
  report_committed-Agrees :
      (r : ExecutionResult) (w w' : World)
      → Owes run.run_id w w'
      → Ends run.run_id w (report_committed run p permit r w')
  unfolding report_committed ◌>>=◌
  report_committed-Agrees r w w' h =
      let announced = emit_event run EventType.mutation_committed p permit r.reason_code _ w' in
      continue-Agrees announced.0 _ w announced.1
        (λ _. Quiet-Balances (
          Quiet-bind (response_lost-Quiet p.action)
            λ lost. either (Quiet run.run_id _) lost _ _ (Quiet-lift _) (Quiet-pure r)))
        (announce-Agrees r.reason_code _ w w' h)

  report_plain-Quiet :
      (type : EventType) (r : ExecutionResult) (extra : Extra)
      → is_commit_type type ≡ false
      → Quiet run.run_id _ (emit_event run type p permit r.reason_code extra >>= λ _. pure r)
  report_plain-Quiet type r extra plain =
      Quiet-bind (emit_event-Quiet type r.reason_code extra plain) λ _. Quiet-pure r

  -- The report of a result pays what the result owes.
  report-Agrees :
      (r : ExecutionResult) (w w' : World)
      → Logs run.run_id (owed (ok r)) w w'
      → Ends run.run_id w (report run p permit r w')
  unfolding report
  report-Agrees r w w' h =
      reported-Agrees r.committed r.replayed _ _ _ w w' h
        (report_plain-Quiet EventType.mutation_replayed r _ refl) (report_committed-Agrees r w w')
        (report_plain-Quiet EventType.mutation_rejected r _ refl)

module _ (run : Run) (p : ActionProposal) (ticket : TicketText) where
  ended-Agrees :
      (permit : Option ExecutionPermit) (r : Result ExecutionResult) (w w' : World)
      → Logs run.run_id (owed r) w w'
      → Ends run.run_id w (continue r (report run p permit) w')
  ended-Agrees permit (ok r) w w' h = report-Agrees run p permit r w w' h
  ended-Agrees permit (err e) w w' h = Logs-Agrees h

  checked-Balances :
      (permit : Option ExecutionPermit)
      → Balances run.run_id _ (run_checks run permit p ticket >>= report run p permit)
  unfolding ◌>>=◌
  checked-Balances permit = record {
    at = λ w.
        let ran = run_checks run permit p ticket w in
        ended-Agrees permit ran.0 w ran.1 ((run_checks-Tallies run p ticket permit).at w);
  }

  pub execute-Balances : (id : Option String) → Balances run.run_id _ (execute run id p ticket)
  unfolding execute
  execute-Balances id = Balances-bind (Quiet-Balances (Quiet-query _)) λ permit.
      Balances-bind (Quiet-Balances (emit_event-Quiet run p permit _ _ _ refl))
        λ _. checked-Balances permit

caught-Agrees :
    {id : String} {A : Type 0} (lost : Bool) (e : Exception) (handler : M A) (w w' : World)
    → is_response_timeout e ≡ lost
    → Agrees id lost w w'
    → Balances id A handler
    → Ends id w ((if lost then handler else λ v. (err e, v)) w')
caught-Agrees true e handler w w' same h k = Agrees-trans h (k.at w')
caught-Agrees false e handler w w' same h k = rw (same) h

-- Only a lost response is caught, and then the world is in agreement.
handled-Agrees :
    {id : String} {A : Type 0} (r : Result A) (handler : M A) (w w' : World)
    → Ends id w (r, w')
    → Balances id A handler
    → Ends id w (resume r is_response_timeout handler w')
handled-Agrees (ok a) handler w w' h k = h
handled-Agrees (err e) handler w w' h k =
    caught-Agrees (is_response_timeout e) e handler w w' refl h k

module _ (run : Run) where
  pub execute_once_more-Balances :
      (permit : ExecutionPermit) (p : ActionProposal)
      → Balances run.run_id _ (execute_once_more run permit p)
  unfolding execute_once_more catch
  execute_once_more-Balances permit p = record {
    at = λ w.
        let ran = execute run (some permit.permit_id) p no_ticket_text w in
        handled-Agrees ran.0 _ w ran.1
          ((execute-Balances run p no_ticket_text (some permit.permit_id)).at w)
          (Balances-bind (Quiet-Balances (Quiet-modify _ (λ w. nothing_added refl refl)))
            λ _. execute-Balances run p no_ticket_text (some permit.permit_id));
  }
