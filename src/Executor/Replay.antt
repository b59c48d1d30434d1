-- ===== src/Executor/Replay.antt =====
-- A permit that is shown again to `Executor.execute`.
use bounded_refund_agent.Prelude.{
  ℤ, ◌+ℤ◌, ◌≤ℤ◌, String, ◌≡◌, ◌∙◌, ap, sym, subst, refl, true, Option, none, some, arith, eq_iff,
  ◌==◌, find,
}
use bounded_refund_agent.Result.{Result, ok}
use bounded_refund_agent.Clock.{parse_iso, tick}
use bounded_refund_agent.Schemas.{
  same_action_refl, ActionProposal, ExecutionPermit, ExecutionResult, ReasonCode,
}
use bounded_refund_agent.Db.{Db, ExecutionRow}
use bounded_refund_agent.Audit.{EventType, Extra}
use bounded_refund_agent.Permits.{load_permit}
use bounded_refund_agent.Executor.{
  Target, resolve_target, stored_result, replay, check_stored, check_expiry, check_target,
  run_checks, emit_event, report, execute, permit_extra, event_permit,
}
use bounded_refund_agent.Safety.Refusals.{is_refused, run_checks-Stays, execute-refused_unchanged}
use bounded_refund_agent.Executor.Commit.{TicketText}
use bounded_refund_agent.World
use bounded_refund_agent.World.{World, Run, M, ◌>>=◌, pure, query, emit, append_event}

-- The instant at which the checks of a call read the clock: a trace reads it once before.
abbrev pub checked_at : World → ℤ
checked_at w = elim w.audit [ none ↦ w.clock.current | some _ ↦ w.clock.current +ℤ w.clock.step ]

-- The call presents a permit that is in force for the proposal and has been consumed, and the result of the
-- action is stored under its key.
pub record IsReplay (id : Option String) (p : ActionProposal) (w : World) (permit : ExecutionPermit)
    (t : Target) (expires : ℤ) (row : ExecutionRow) : Type 0 where
  pub loaded : load_permit id w.db ≡ some permit
  pub consumed : permit.used ≡ true
  pub same : permit.action ≡ p.action
  pub found : resolve_target p w.db ≡ ok (some t)
  pub same_resource : t.resource_id ≡ permit.resource_id
  pub expiry : parse_iso permit.expires_at ≡ ok expires
  pub in_force : checked_at w ≤ℤ expires
  pub stored :
      find
        (λ (r : ExecutionRow). r.idempotency_key == permit.idempotency_key)
        w.db.execution_records
      ≡ some row

module _ (run : Run) (p : ActionProposal) (ticket : TicketText) (permit : ExecutionPermit)
    (t : Target) (expires : ℤ) (row : ExecutionRow) where
  replays_stored :
      (w : World)
      → permit.used ≡ true
      → parse_iso permit.expires_at ≡ ok expires
      → w.clock.current ≤ℤ expires
      → find
          (λ (r : ExecutionRow). r.idempotency_key == permit.idempotency_key)
          w.db.execution_records
        ≡ some row
      → (check_expiry run permit p ticket t w).0 ≡ ok (replay row.result)
  unfolding check_expiry check_stored stored_result World.◌>>=◌ parse_iso
  replays_stored w used expiry in_force stored = ground arith

  run_checks-replay :
      (w : World)
      → permit.used ≡ true
      → permit.action ≡ p.action
      → resolve_target p w.db ≡ ok (some t)
      → t.resource_id ≡ permit.resource_id
      → parse_iso permit.expires_at ≡ ok expires
      → w.clock.current ≤ℤ expires
      → find
          (λ (r : ExecutionRow). r.idempotency_key == permit.idempotency_key)
          w.db.execution_records
        ≡ some row
      → (run_checks run (some permit) p ticket w).0 ≡ ok (replay row.result)
  unfolding run_checks check_target World.◌>>=◌
  run_checks-replay w used same found same_resource expiry in_force stored =
      let answer = replays_stored w used expiry in_force stored in
      ground (arith, same_action_refl p.action, eq_iff t.resource_id permit.resource_id)

bind_ok :
    {A B : Type 0} (m : M A) (f : A → M B) (w : World) (a : A)
    → (m w).0 ≡ ok a
    → (m >>= f) w ≡ f a (m w).1
unfolding World.◌>>=◌
bind_ok m f w a e = rw e refl

pub record IsEmitted (w : World) (out : Result (Unit {0}) × World) : Type 0 where
  pub answered : out.0 ≡ ok tt
  pub same_db : out.1.db ≡ w.db
  pub time : out.1.clock.current ≡ checked_at w
  pub step : out.1.clock.step ≡ w.clock.step
  pub injector : out.1.injector ≡ w.injector

pub emit_event_lem :
    (run : Run) (type : EventType) (p : ActionProposal) (permit : Option ExecutionPermit)
    (reason : Option ReasonCode) (extra : Extra) (w : World) (target : Option Target)
    → resolve_target p w.db ≡ ok target
    → IsEmitted w (emit_event run type p permit reason extra w)
unfolding emit_event World.◌>>=◌ emit append_event tick
emit_event_lem run type p permit reason extra w target found = record {
  answered = ground arith;
  same_db = ground arith;
  time = ground arith;
  step = ground arith;
  injector = ground arith;
}

module _ (run : Run) (p : ActionProposal) (permit : Option ExecutionPermit) (r : ExecutionResult)
    (target : Option Target) where
  report-replay :
      (w : World)
      → r.replayed ≡ true
      → resolve_target p w.db ≡ ok target
      → (report run p permit r w).0 ≡ ok r
  unfolding report World.◌>>=◌ pure
  report-replay w replayed found =
      let rejected =
        (emit_event_lem run EventType.mutation_rejected p permit r.reason_code (permit_extra permit)
          w target found).answered in
      let repeated =
        (emit_event_lem run EventType.mutation_replayed p permit r.reason_code
          (Extra.replayed_permit (event_permit permit) r.created_id) w target found).answered in
      ground arith

module _ (run : Run) (id : Option String) (p : ActionProposal) (ticket : TicketText) (w : World)
    (permit : ExecutionPermit) (t : Target) (expires : ℤ) (row : ExecutionRow)
    (s : IsReplay id p w permit t expires row) where
  abbrev attempted : M (Unit {0})
  attempted =
      emit_event run EventType.mutation_attempted p (some permit) none (permit_extra (some permit))

  attempted_lem : IsEmitted w (attempted w)
  attempted_lem = emit_event_lem run _ p (some permit) none _ w (some t) s.found

  abbrev checks : M ExecutionResult
  checks = run_checks run (some permit) p ticket

  refused : is_refused (some permit) p ≡ true
  unfolding is_refused
  refused = let u = s.consumed in ground arith

  after_attempt : (attempted w).1.db ≡ w.db
  after_attempt = attempted_lem.same_db

  checks_answer : (checks (attempted w).1).0 ≡ ok (replay row.result)
  checks_answer =
      let db = after_attempt in
      run_checks-replay run p ticket permit t expires row (attempted w).1 s.consumed s.same
        (ap (resolve_target p) db ∙ s.found) s.same_resource s.expiry
        (subst (λ c. c ≤ℤ expires) (sym attempted_lem.time) s.in_force)
        (ap
            (λ (d : Db).
              find (λ (r : ExecutionRow). r.idempotency_key == permit.idempotency_key)
                d.execution_records)
            db
          ∙ s.stored)

  checks_db : (checks (attempted w).1).1.db ≡ w.db
  checks_db =
      (run_checks-Stays {Q = λ db. db ≡ w.db} run (some permit) p ticket refused).at (attempted w).1
        after_attempt

  steps :
      execute run id p ticket w
      ≡ report run p (some permit) (replay row.result) (checks (attempted w).1).1
  unfolding execute World.◌>>=◌ query
  steps =
      let a = s.loaded in
      let b = attempted_lem.answered in let c = checks_answer in rw (a, b, c) refl

  answers : (execute run id p ticket w).0 ≡ ok (replay row.result)
  answers =
      ap (λ (x : Result ExecutionResult × World). x.0) steps
      ∙ report-replay run p (some permit) (replay row.result) (some t) (checks (attempted w).1).1
          refl (ap (resolve_target p) checks_db ∙ s.found)

-- A permit shown again commits nothing and answers what was stored: where the permit is in force for the
-- proposal, has been consumed and has a stored result, the call of the executor returns that result,
-- marked as replayed, and leaves every table as it was.
pub execute-replays :
    (run : Run) (id : Option String) (p : ActionProposal) (ticket : TicketText) (w : World)
    (permit : ExecutionPermit) (t : Target) (expires : ℤ) (row : ExecutionRow)
    → IsReplay id p w permit t expires row
    → ((execute run id p ticket w).0 ≡ ok (replay row.result))
      × ((execute run id p ticket w).1.db ≡ w.db)
execute-replays run id p ticket w permit t expires row s = (
  answers run id p ticket w permit t expires row s,
  execute-refused_unchanged run id p ticket w (
      subst (λ l. is_refused l p ≡ true) (sym s.loaded)
        (refused run id p ticket w permit t expires row s)),
)
