-- ===== src/Trace/Checks.antt =====
-- The checks and the write of app/executor/executor.py: a row of the log for each commit that they return.
use bounded_refund_agent.Prelude.{
  ℕ, ℤ, String, ◌≡◌, refl, Bool, true, false, not, ◌&&◌, ltb_ℤ, eqb_ℤ, ◌==◌, Option, none, some,
  find, arith, count-append, eq_refl, if◌then◌else◌,
}
use bounded_refund_agent.Result.{Result, Exception, ok, err}
use bounded_refund_agent.Clock.{to_iso}
use bounded_refund_agent.Schemas.{
  ActionProposal, ExecutionPermit, ExecutionResult, ReasonCode, same_action,
}
use bounded_refund_agent.Db.{Db, LogRow, ExecutionRow, mutation_count}
use bounded_refund_agent.Effect.{write_lem}
use bounded_refund_agent.Executor.{
  Target, replay, stored_result, stored_or, proceed, check_stored, check_expiry, check_target,
  run_checks,
}
use bounded_refund_agent.Executor.Commit.{
  TicketText, amount_of, authorization, rejected, is_stale, write, commit,
}
use bounded_refund_agent.World.{
  World, Run, M, pure, query, transaction, catch, lift, settle, resume, ◌>>=◌,
}
use bounded_refund_agent.Flow.Shape.{either}
use bounded_refund_agent.WriteTools.{new_authorization}
use bounded_refund_agent.Trace.{Logs, Logs-refl, Tallies, Quiet}
use bounded_refund_agent.Trace.Quiet.{
  Quiet-lift, Quiet-query, Tallies-bind, Quiet-now, Quiet-record_call, apply_pre_commit-Quiet,
}

-- What a result says the log has gained: a row for a commit that is no replay.
abbrev pub owed : Result ExecutionResult → ℕ
owed (ok r) = if r.committed && not r.replayed then 1 else 0
owed (err e) = 0

owed-bind :
    {id : String} {A : Type 0} {m : M A} {f : A → M ExecutionResult}
    → Quiet id A m
    → ((a : A) → Tallies id owed (f a))
    → Tallies id owed (m >>= f)
owed-bind = Tallies-bind owed (λ e. refl)

pure-Tallies : {id : String} (r : ExecutionResult) → owed (ok r) ≡ 0 → Tallies id owed (pure r)
unfolding pure
pure-Tallies r h = record { at = λ w. rw (h) (Logs-refl w) }

-- A stored result that the executor gives back is marked as replayed.
IsReplay : Option ExecutionResult → Type 0
IsReplay none = Unit
IsReplay (some r) = r.replayed ≡ true

replayed_none_owed : (r : ExecutionResult) → r.replayed ≡ true → owed (ok r) ≡ 0
replayed_none_owed r h = ground arith

found-IsReplay :
    (found : Option ExecutionRow)
    → IsReplay (elim found [ none ↦ none | some row ↦ some (replay row.result) ])
unfolding IsReplay
found-IsReplay none = tt
found-IsReplay (some row) = refl

-- The stored result, and the rejections.
stored_or-owed :
    (stored : Option ExecutionResult) (reason : ReasonCode) (permit : ExecutionPermit)
    → IsReplay stored
    → owed (ok (stored_or stored reason permit)) ≡ 0
unfolding IsReplay
stored_or-owed none reason permit h = refl
stored_or-owed (some r) reason permit h = replayed_none_owed r h

handled-Logs :
    {id : String} (b : Bool) (e : Exception) (r : ExecutionResult) (w : World)
    → owed (ok r) ≡ 0
    → Logs id
        (owed ((if b then pure r else λ v. (err e, v)) w).0)
        w
        ((if b then pure r else λ v. (err e, v)) w).1
unfolding pure
handled-Logs true e r w h = rw (h) (Logs-refl w)
handled-Logs false e r w h = Logs-refl w

module _ (run : Run) (permit : ExecutionPermit) (p : ActionProposal) (ticket : TicketText) where
  written-Logs :
      (time : ℤ) (w : World) (refused : ExecutionResult) (made : Result (ExecutionResult × Db))
      → owed (ok refused) ≡ 0
      → write run (authorization run permit) permit p ticket (to_iso time) w.db ≡ made
      → Logs run.run_id
          (owed (resume (settle made w).0 is_stale (pure refused) (settle made w).1).0)
          w
          (resume (settle made w).0 is_stale (pure refused) (settle made w).1).1
  unfolding mutation_count
  written-Logs time w refused (ok (r, db)) free e =
      let effect = write_lem run permit p ticket (to_iso time) w.db db r e in
      let more = count-append (λ (row : LogRow). row.run_id == run.run_id) w.db.mutation_log in
      let own = eq_refl run.run_id in
      record {
        watched = refl;
        trace = refl;
        log = rw (effect.log, effect.committed, effect.fresh, more, own) refl;
      }
  written-Logs time w refused (err x) free e = handled-Logs (is_stale x) x refused w free

  try_write-Tallies :
      (time : ℤ) (refused : ExecutionResult)
      → owed (ok refused) ≡ 0
      → Tallies run.run_id owed (
          catch
            (transaction (write run (authorization run permit) permit p ticket (to_iso time)))
            is_stale
            (pure refused))
  unfolding catch transaction
  try_write-Tallies time refused free = record {
    at = λ w.
        written-Logs time w refused
          (write run (authorization run permit) permit p ticket (to_iso time) w.db) free refl;
  }

  -- The executor holds the token, so its authorization is made.
  commit-Tallies : Tallies run.run_id owed (commit run permit p ticket)
  unfolding commit ◌>>=◌ lift new_authorization
  commit-Tallies = record {
    at = λ w.
        (owed-bind Quiet-now λ time. owed-bind (Quiet-record_call _) λ _.
            try_write-Tallies time (rejected ReasonCode.stale_resource_version permit.resource_id)
              refl).at
          w;
  }

  proceed-Tallies : (t : Target) → Tallies run.run_id owed (proceed run permit p ticket t)
  unfolding proceed
  proceed-Tallies t = owed-bind (Quiet-lift _) λ allowed.
      either (Tallies run.run_id owed) allowed _ _
        (owed-bind (apply_pre_commit-Quiet p.action) λ _. commit-Tallies) (pure-Tallies _ refl)

  stored_or_proceed-Tallies :
      (t : Target) (stored : Option ExecutionResult)
      → IsReplay stored
      → Tallies run.run_id owed
          (elim stored [ none ↦ proceed run permit p ticket t | some r ↦ pure r ])
  unfolding IsReplay
  stored_or_proceed-Tallies t none h = proceed-Tallies t
  stored_or_proceed-Tallies t (some r) h = pure-Tallies r (replayed_none_owed r h)

  check_stored-Tallies :
      (t : Target) (stored : Option ExecutionResult)
      → IsReplay stored
      → Tallies run.run_id owed (check_stored run permit p ticket t stored)
  unfolding check_stored
  check_stored-Tallies t stored h =
      either (Tallies run.run_id owed) permit.used _ _
        (pure-Tallies _ (stored_or-owed stored _ permit h))
        (either (Tallies run.run_id owed) (ltb_ℤ permit.max_amount_cents (amount_of p)) _ _
          (pure-Tallies _ refl)
          (either (Tallies run.run_id owed) (not (eqb_ℤ t.version permit.expected_resource_version))
            _ _ (pure-Tallies _ (stored_or-owed stored _ permit h))
            (stored_or_proceed-Tallies t stored h)))

  -- What is read from the execution records is marked as replayed.
  read_stored-Tallies :
      (t : Target)
      → Tallies run.run_id owed (
          query (λ db. ok (stored_result permit.idempotency_key db))
          >>= check_stored run permit p ticket t)
  unfolding ◌>>=◌ query stored_result
  read_stored-Tallies t = record {
    at = λ w.
        (check_stored-Tallies t _ (
            found-IsReplay (
              find (λ row. row.idempotency_key == permit.idempotency_key)
                w.db.execution_records))).at
          w;
  }

  check_target-Tallies :
      (target : Option Target) → Tallies run.run_id owed (check_target run permit p ticket target)
  unfolding check_target check_expiry
  check_target-Tallies none = pure-Tallies _ refl
  check_target-Tallies (some t) =
      either (Tallies run.run_id owed) (t.resource_id == permit.resource_id) _ _
        (owed-bind Quiet-now λ time. owed-bind (Quiet-lift _) λ expires.
          either (Tallies run.run_id owed) (ltb_ℤ expires time) _ _ (pure-Tallies _ refl)
            (read_stored-Tallies t))
        (pure-Tallies _ refl)

module _ (run : Run) (p : ActionProposal) (ticket : TicketText) where
  pub run_checks-Tallies :
      (permit : Option ExecutionPermit) → Tallies run.run_id owed (run_checks run permit p ticket)
  unfolding run_checks
  run_checks-Tallies none = pure-Tallies _ refl
  run_checks-Tallies (some permit) =
      either (Tallies run.run_id owed) (same_action permit.action p.action) _ _
        (owed-bind (Quiet-query _) λ target. check_target-Tallies run permit p ticket target)
        (pure-Tallies _ refl)
