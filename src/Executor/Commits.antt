-- ===== src/Executor/Commits.antt =====
-- A permit that `Executor.execute` accepts, and the transaction that follows.
use bounded_refund_agent.Prelude.{
  ℤ, ◌+ℤ◌, ◌≤ℤ◌, ltb_ℤ, eqb_ℤ_iff, String, ◌≡◌, ◌∙◌, ap, sym, subst, refl, true, false, Option,
  none, some, arith, eq_iff, ◌==◌, find,
}
use bounded_refund_agent.Result.{Result, ok}
use bounded_refund_agent.Clock.{parse_iso, to_iso, tick}
use bounded_refund_agent.Schemas.{
  ActionName, same_action, same_action_refl, ActionProposal, ExecutionPermit, ExecutionResult,
}
use bounded_refund_agent.Db.{Db, ExecutionRow}
use bounded_refund_agent.Audit.{EventType}
use bounded_refund_agent.Permits.{load_permit}
use bounded_refund_agent.Failures.{FailureInjector}
use bounded_refund_agent.Injection.{inject, apply_pre_commit, response_lost}
use bounded_refund_agent.WriteTools.{new_authorization}
use bounded_refund_agent.Executor.{
  Target, resolve_target, transition_allowed, stored_result, proceed, check_stored, check_expiry,
  check_target, run_checks, emit_event, report, report_committed, execute, permit_extra,
}
use bounded_refund_agent.Executor.Commit.{TicketText, amount_of, authorization, write, commit}
use bounded_refund_agent.Executor.Replay.{checked_at, IsEmitted, emit_event_lem}
use bounded_refund_agent.World
use bounded_refund_agent.World.{World, Run, M, ◌>>=◌, pure, query, record_call}

-- The table holds no result under the permit's key.
abbrev pub IsFresh : ExecutionPermit → Db → Type 0
IsFresh permit db =
    find (λ (r : ExecutionRow). r.idempotency_key == permit.idempotency_key) db.execution_records
    ≡ none

-- What an action has left, with no injector in the world.
record IsDone (r : ExecutionResult) (db : Db) (out : Result ExecutionResult × World) : Type 0 where
  answered : out.0 ≡ ok r
  tables : out.1.db ≡ db
  injector : out.1.injector ≡ none

module _ (run : Run) (p : ActionProposal) (ticket : TicketText) (permit : ExecutionPermit)
    (r : ExecutionResult) (db' : Db) where
  -- The transaction commits at an instant.
  abbrev Writes : ℤ → Db → Type 0
  Writes time db =
      write run (authorization run permit) permit p ticket (to_iso time) db ≡ ok (r, db')

  commit-IsDone :
      (w : World)
      → Writes w.clock.current w.db
      → w.injector ≡ none
      → IsDone r db' (commit run permit p ticket w)
  unfolding commit World.◌>>=◌ World.now World.transaction World.catch new_authorization record_call
  commit-IsDone w writes quiet = record {
    answered = ground arith;
    tables = ground arith;
    injector = ground arith;
  }

  inject_nothing :
      (i : Option FailureInjector) (w : World) → i ≡ none → inject p.action i w ≡ (ok tt, w)
  unfolding pure
  inject_nothing none w h = refl
  inject_nothing (some i) w h = cc

  no_changes : (w : World) → w.injector ≡ none → apply_pre_commit p.action w ≡ (ok tt, w)
  unfolding apply_pre_commit
  no_changes w h = inject_nothing w.injector w h

  proceeds :
      (t : Target) (w : World)
      → transition_allowed p t ≡ ok true
      → w.injector ≡ none
      → proceed run permit p ticket t w ≡ commit run permit p ticket w
  unfolding proceed World.◌>>=◌
  proceeds t w allowed quiet = let same = no_changes w quiet in rw (allowed, same) refl

  proceed-IsDone :
      (t : Target) (w : World)
      → transition_allowed p t ≡ ok true
      → Writes w.clock.current w.db
      → w.injector ≡ none
      → IsDone r db' (proceed run permit p ticket t w)
  proceed-IsDone t w allowed writes quiet =
      subst (IsDone r db') (sym (proceeds t w allowed quiet)) (commit-IsDone w writes quiet)

  -- The checks on the permit and on what stands in the table, passed.
  record Passes (t : Target) (time : ℤ) (db : Db) : Type 0 where
    expires : ℤ
    expiry : parse_iso permit.expires_at ≡ ok expires
    in_force : time ≤ℤ expires
    unused : permit.used ≡ false
    within : amount_of p ≤ℤ permit.max_amount_cents
    version : t.version ≡ permit.expected_resource_version
    fresh : IsFresh permit db

  check_stored_proceeds :
      (t : Target) (time : ℤ) (db : Db) (w : World)
      → Passes t time db
      → check_stored run permit p ticket t none w ≡ proceed run permit p ticket t w
  unfolding check_stored
  check_stored_proceeds t time db w s =
      let unused = s.unused in
      let within = s.within in
      let version = (eqb_ℤ_iff t.version permit.expected_resource_version).1 s.version in
      ground arith

  fresh_stored : (db : Db) → IsFresh permit db → stored_result permit.idempotency_key db ≡ none
  unfolding stored_result
  fresh_stored db h = ground arith

  check_expiry_proceeds :
      (t : Target) (w : World)
      → Passes t w.clock.current w.db
      → check_expiry run permit p ticket t w
        ≡ proceed run permit p ticket t (record w { clock = tick w.clock })
  unfolding check_expiry World.◌>>=◌ World.now
  check_expiry_proceeds t w s =
      let passed =
        check_stored_proceeds t w.clock.current w.db (record w { clock = tick w.clock }) s in
      let expiry = s.expiry in
      let in_force : ltb_ℤ s.expires w.clock.current ≡ false =
        (let h = s.in_force in ground arith) in
      let nothing_stored = fresh_stored w.db s.fresh in rw (expiry, in_force, nothing_stored) passed

  run_checks_proceeds :
      (t : Target) (w : World)
      → permit.action ≡ p.action
      → resolve_target p w.db ≡ ok (some t)
      → t.resource_id ≡ permit.resource_id
      → Passes t w.clock.current w.db
      → run_checks run (some permit) p ticket w
        ≡ proceed run permit p ticket t (record w { clock = tick w.clock })
  unfolding run_checks check_target World.◌>>=◌
  run_checks_proceeds t w same found same_resource s =
      let action : same_action permit.action p.action ≡ true =
        subst (λ a. same_action a p.action ≡ true) (sym same) (same_action_refl p.action) in
      let resource = (eq_iff t.resource_id permit.resource_id).1 same_resource in
      rw (action, found, resource) (check_expiry_proceeds t w s)

  not_lost : (a : ActionName) (w : World) → w.injector ≡ none → response_lost a w ≡ (ok false, w)
  unfolding response_lost
  not_lost a w quiet = ground arith

  abbrev told : M (Unit {0})
  told =
      emit_event run EventType.mutation_committed p (some permit) r.reason_code
        (permit_extra (some permit))

  report-answers :
      (w : World) (target : Option Target)
      → r.committed ≡ true
      → r.replayed ≡ false
      → w.injector ≡ none
      → resolve_target p w.db ≡ ok target
      → ((report run p (some permit) r w).0 ≡ ok r) × ((report run p (some permit) r w).1.db ≡ w.db)
  unfolding report report_committed World.◌>>=◌ pure
  report-answers w target committed replayed quiet found =
      let emitted =
        emit_event_lem run EventType.mutation_committed p (some permit) r.reason_code
          (permit_extra (some permit)) w target found in
      let answered = emitted.answered in
      let lost = not_lost p.action (told w).1 (emitted.injector ∙ quiet) in
      rw (committed, replayed, answered, lost) (refl, emitted.same_db)

-- The instant at which the transaction of a call reads the clock.
abbrev pub committed_at : World → ℤ
committed_at w = checked_at w +ℤ w.clock.step

-- The call presents a permit that is in force for the proposal and unused, nothing is stored under its key, the
-- target is at the version of the permit and may make the transition, there is no injector, and the
-- transaction of the write commits with a new result, after which the target can be read.
pub record IsAccepted (run : Run) (id : Option String) (p : ActionProposal) (ticket : TicketText)
    (w : World) (permit : ExecutionPermit) (t : Target) (r : ExecutionResult) (db' : Db)
    : Type 0 where
  pub loaded : load_permit id w.db ≡ some permit
  pub same : permit.action ≡ p.action
  pub found : resolve_target p w.db ≡ ok (some t)
  pub same_resource : t.resource_id ≡ permit.resource_id
  pub expires : ℤ
  pub expiry : parse_iso permit.expires_at ≡ ok expires
  pub in_force : checked_at w ≤ℤ expires
  pub unused : permit.used ≡ false
  pub within : amount_of p ≤ℤ permit.max_amount_cents
  pub version : t.version ≡ permit.expected_resource_version
  pub fresh : IsFresh permit w.db
  pub allowed : transition_allowed p t ≡ ok true
  pub quiet : w.injector ≡ none
  pub writes :
      write run (authorization run permit) permit p ticket (to_iso (committed_at w)) w.db
      ≡ ok (r, db')
  pub committed : r.committed ≡ true
  pub replayed : r.replayed ≡ false
  pub target : Option Target
  pub found_after : resolve_target p db' ≡ ok target

module _ (run : Run) (id : Option String) (p : ActionProposal) (ticket : TicketText) (w : World)
    (permit : ExecutionPermit) (t : Target) (r : ExecutionResult) (db' : Db)
    (s : IsAccepted run id p ticket w permit t r db') where
  abbrev attempted : M (Unit {0})
  attempted =
      emit_event run EventType.mutation_attempted p (some permit) none (permit_extra (some permit))

  attempted_lem : IsEmitted w (attempted w)
  attempted_lem = emit_event_lem run _ p (some permit) none _ w (some t) s.found

  abbrev checks : Result ExecutionResult × World
  checks = run_checks run (some permit) p ticket (attempted w).1

  passes : Passes run p ticket permit r db' t (attempted w).1.clock.current (attempted w).1.db
  passes = record {
    expires = s.expires;
    expiry = s.expiry;
    in_force = subst (λ c. c ≤ℤ s.expires) (sym attempted_lem.time) s.in_force;
    unused = s.unused;
    within = s.within;
    version = s.version;
    fresh = subst (IsFresh permit) (sym attempted_lem.same_db) s.fresh;
  }

  -- The world at the transaction.
  abbrev ready : World
  ready = record ((attempted w).1) { clock = tick (attempted w).1.clock }

  ready_time : ready.clock.current ≡ committed_at w
  unfolding tick
  ready_time = λ i. attempted_lem.time i +ℤ attempted_lem.step i

  ready-Writes : Writes run p ticket permit r db' ready.clock.current ready.db
  ready-Writes =
      subst (λ time. Writes run p ticket permit r db' time ready.db) (sym ready_time)
        (subst (Writes run p ticket permit r db' (committed_at w)) (sym attempted_lem.same_db)
          s.writes)

  checks-IsDone : IsDone r db' checks
  checks-IsDone =
      subst (IsDone r db')
        (sym (
          run_checks_proceeds run p ticket permit r db' t (attempted w).1 s.same
            (ap (resolve_target p) attempted_lem.same_db ∙ s.found) s.same_resource passes))
        (proceed-IsDone run p ticket permit r db' t ready s.allowed ready-Writes
          (attempted_lem.injector ∙ s.quiet))

  answered : execute run id p ticket w ≡ report run p (some permit) r checks.1
  unfolding execute World.◌>>=◌ query
  answered =
      let a = s.loaded in
      let b = attempted_lem.answered in let c = checks-IsDone.answered in rw (a, b, c) refl

  reported :
      ((report run p (some permit) r checks.1).0 ≡ ok r)
      × ((report run p (some permit) r checks.1).1.db ≡ checks.1.db)
  reported =
      report-answers run p ticket permit r db' checks.1 s.target s.committed s.replayed
        checks-IsDone.injector (ap (resolve_target p) checks-IsDone.tables ∙ s.found_after)

-- What the checks accept is done: where a call of the executor presents a permit that is in force for the
-- proposal and unused, with nothing stored under its key, the target at the permit's version and free to make the
-- transition, no injector, and a write whose transaction commits, the call returns the result of that
-- transaction and leaves its tables.
pub execute-commits :
    (run : Run) (id : Option String) (p : ActionProposal) (ticket : TicketText) (w : World)
    (permit : ExecutionPermit) (t : Target) (r : ExecutionResult) (db' : Db)
    → IsAccepted run id p ticket w permit t r db'
    → ((execute run id p ticket w).0 ≡ ok r) × ((execute run id p ticket w).1.db ≡ db')
execute-commits run id p ticket w permit t r db' s =
    let same = answered run id p ticket w permit t r db' s in
    let (value, tables) = reported run id p ticket w permit t r db' s in
    (
      ap (λ (x : Result ExecutionResult × World). x.0) same ∙ value,
      ap (λ (x : Result ExecutionResult × World). x.1.db) same
          ∙ (tables ∙ (checks-IsDone run id p ticket w permit t r db' s).tables),
    )
