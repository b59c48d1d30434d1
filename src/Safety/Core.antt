-- ===== src/Safety/Core.antt =====
-- Safe properties of the tables, and the executor's checks and commit over them.
use bounded_refund_agent.Prelude.{
  ◌≤ℤ◌, ◌≡◌, refl, false, Option, none, some, List, [], ◌∷◌, arith, ltb_ℤ, eqb_ℤ, not, ◌==◌,
}
use bounded_refund_agent.Result.{Result, ok, err}
use bounded_refund_agent.Clock.{IsoText, to_iso}
use bounded_refund_agent.Schemas.{
  ActionName, ActionProposal, ExecutionPermit, ExecutionResult, same_action, same_action_sound,
  ReasonCode,
}
use bounded_refund_agent.Db.{Db, PermitRow}
use bounded_refund_agent.Tx.{insert_permit}
use bounded_refund_agent.Failures.{StateChange, FailureInjector, apply, is_due}
use bounded_refund_agent.Injection.{
  apply_changes, fire_changes, apply_pre_commit, inject, response_lost, settle,
}
use bounded_refund_agent.Audit.{EventType, Extra}
use bounded_refund_agent.Permits.{find_permit}
use bounded_refund_agent.Executor.{
  Target, proceed, check_stored, check_expiry, check_target, run_checks, emit_event,
}
use bounded_refund_agent.Executor.Commit.{TicketText, authorization, amount_of, write, commit}
use bounded_refund_agent.World.{World, Run, pure, transaction}
use bounded_refund_agent.WriteTools.{WriteAuthorization, new_authorization, executor_token}
use bounded_refund_agent.World.Leads.{
  Leads, IsSilent, IsSilent-lift, IsSilent-query, IsSilent-gets, IsSilent-now, IsSilent-emit,
  IsSilent-record_call, IsSilent-Leads, Leads-modify, Leads-pure, Leads-if, Leads-transaction,
  Leads-bind, Leads-bind_lift, Leads-catch,
}

-- The table holds the permit as it was loaded.
abbrev pub HasPermit : ExecutionPermit → Db → Type 0
HasPermit permit db = find_permit permit.permit_id db.execution_permits ≡ some permit

-- What the checks have established when the transaction starts.
pub record IsCleared (permit : ExecutionPermit) (p : ActionProposal) (db : Db) : Type 0 where
  pub has_permit : HasPermit permit db
  pub same : permit.action ≡ p.action
  pub unused : permit.used ≡ false
  pub within : amount_of p ≤ℤ permit.max_amount_cents

pub record IsSafe (Q : Db → Type 0) : Type 0 where
  pub edits : (c : StateChange) (db db' : Db) → apply c db ≡ ok db' → Q db → Q db'
  pub permits :
      (row : PermitRow) (db db' : Db)
      → row.used ≡ false
      → insert_permit row db ≡ ok (tt, db')
      → Q db
      → Q db'
  pub writes :
      (run : Run) (permit : ExecutionPermit) (p : ActionProposal) (ticket : TicketText)
      (time : IsoText) (db db' : Db) (r : ExecutionResult)
      → IsCleared permit p db
      → write run (authorization run permit) permit p ticket time db ≡ ok (r, db')
      → Q db
      → Q db'

abbrev pub KeptByEdits : (Db → Type 0) → Type 0
KeptByEdits R = (c : StateChange) (db db' : Db) → apply c db ≡ ok db' → R db → R db'

-- The edits never touch the permits.
edits-HasPermit : (permit : ExecutionPermit) → KeptByEdits (HasPermit permit)
unfolding apply
edits-HasPermit permit c db db' e h = ground arith

module _ {R : Db → Type 0} (kept : KeptByEdits R) where
  settle-kept :
      (c : StateChange) (w : World) (r : Result Db)
      → apply c w.db ≡ r
      → R w.db
      → R (settle r w).1.db
  settle-kept c w (ok db) e h = kept c w.db db e h
  settle-kept c w (err x) e h = h

  apply_changes-Leads : (cs : List StateChange) → Leads R R (apply_changes cs)
  unfolding apply_changes
  apply_changes-Leads [] = Leads-pure tt (λ db h. h)
  apply_changes-Leads (c ∷ cs) =
      Leads-bind (λ db h. h) (record { at = λ w h. settle-kept c w (apply c w.db) refl h })
        (λ _. apply_changes-Leads cs)

  fire_changes-Leads : (a : ActionName) (i : FailureInjector) → Leads R R (fire_changes a i)
  unfolding fire_changes
  fire_changes-Leads a i =
      Leads-if (is_due a i) _ _
        (λ _.
          Leads-bind (λ db h. h) (Leads-modify _ (λ w h. h))
            (λ _.
              Leads-bind (λ db h. h) (apply_changes-Leads _)
                (λ _. Leads-modify _ (λ w h. ground arith))))
        (λ _. Leads-pure tt (λ db h. h))

  inject-Leads : (a : ActionName) (i : Option FailureInjector) → Leads R R (inject a i)
  inject-Leads a none = Leads-pure tt (λ db h. h)
  inject-Leads a (some i) = fire_changes-Leads a i

  pub apply_pre_commit-Leads : (a : ActionName) → Leads R R (apply_pre_commit a)
  unfolding apply_pre_commit
  apply_pre_commit-Leads a = record { at = λ w h. (inject-Leads a w.injector).at w h }

pub IsSilent-response_lost : (a : ActionName) → IsSilent (response_lost a)
unfolding response_lost
IsSilent-response_lost a = record { same = λ w. ground arith }

pub emit_event-Leads :
    (run : Run) (type : EventType) (p : ActionProposal) (permit : Option ExecutionPermit)
    (reason : Option ReasonCode) (extra : Extra) {R : Db → Type 0}
    → Leads R R (emit_event run type p permit reason extra)
unfolding emit_event
emit_event-Leads run type p permit reason extra =
    Leads-bind (λ db h. h) (IsSilent-Leads (IsSilent-gets _))
      λ watched.
        Leads-if watched _ _
          (λ _.
            Leads-bind (λ db h. h) (IsSilent-Leads (IsSilent-query _))
              λ target. IsSilent-Leads (IsSilent-emit run type _ _ _ _ _))
          (λ _. Leads-pure tt (λ db h. h))

executor_authorizes : (a b : WriteAuthorization) → new_authorization executor_token a ≡ ok b → a ≡ b
unfolding new_authorization
executor_authorizes a b h = cc

module _ {Q : Db → Type 0} (safe : IsSafe Q) (run : Run) (permit : ExecutionPermit)
    (p : ActionProposal) (ticket : TicketText) where
  abbrev pub Armed : Db → Type 0
  Armed db = Q db × HasPermit permit db

  edits-Armed : KeptByEdits Armed
  edits-Armed c db db' e h = (safe.edits c db db' e h.0, edits-HasPermit permit c db db' e h.1)

  write-Leads :
      permit.action ≡ p.action
      → permit.used ≡ false
      → amount_of p ≤ℤ permit.max_amount_cents
      → (auth : WriteAuthorization) → authorization run permit ≡ auth
      → (time : IsoText) → Leads Armed Q (transaction (write run auth permit p ticket time))
  write-Leads same unused within auth e time =
      Leads-transaction _ (λ db h. h.0)
        λ db db' r done h.
          safe.writes run permit p ticket time db db' r
            (record { has_permit = h.1; same = same; unused = unused; within = within }) (rw e done)
            h.0

  commit-Leads :
      permit.action ≡ p.action
      → permit.used ≡ false
      → amount_of p ≤ℤ permit.max_amount_cents
      → Leads Armed Q (commit run permit p ticket)
  unfolding commit
  commit-Leads same unused within =
      Leads-bind_lift (new_authorization executor_token (authorization run permit)) _ (λ db h. h.0)
        λ auth e.
          Leads-bind (λ db h. h.0) (IsSilent-Leads IsSilent-now)
            λ time.
              Leads-bind (λ db h. h.0) (IsSilent-Leads (IsSilent-record_call _))
                λ _.
                  Leads-catch _ _ _ (λ db h. h)
                    (write-Leads same unused within auth (executor_authorizes _ auth e)
                      (to_iso time))
                    (Leads-pure _ (λ db h. h))

  proceed-Leads :
      permit.action ≡ p.action
      → permit.used ≡ false
      → amount_of p ≤ℤ permit.max_amount_cents
      → (t : Target) → Leads Armed Q (proceed run permit p ticket t)
  unfolding proceed
  proceed-Leads same unused within t =
      Leads-bind (λ db h. h.0) (IsSilent-Leads (IsSilent-lift _))
        λ allowed.
          Leads-if allowed _ _
            (λ _.
              Leads-bind (λ db h. h.0) (apply_pre_commit-Leads edits-Armed p.action)
                λ _. commit-Leads same unused within)
            (λ _. Leads-pure _ (λ db h. h.0))

  stored_or_proceed :
      permit.action ≡ p.action
      → permit.used ≡ false
      → amount_of p ≤ℤ permit.max_amount_cents
      → (t : Target) (stored : Option ExecutionResult)
      → Leads Armed Q (elim stored [ none ↦ proceed run permit p ticket t | some r ↦ pure r ])
  stored_or_proceed same unused within t none = proceed-Leads same unused within t
  stored_or_proceed same unused within t (some r) = Leads-pure r (λ db h. h.0)

  check_stored-Leads :
      permit.action ≡ p.action
      → (t : Target) (stored : Option ExecutionResult)
      → Leads Armed Q (check_stored run permit p ticket t stored)
  unfolding check_stored
  check_stored-Leads same t stored =
      Leads-if permit.used _ _ (λ _. Leads-pure _ (λ db h. h.0))
        λ unused.
          Leads-if (ltb_ℤ permit.max_amount_cents (amount_of p)) _ _
            (λ _. Leads-pure _ (λ db h. h.0))
            λ within.
              Leads-if (not (eqb_ℤ t.version permit.expected_resource_version)) _ _
                (λ _. Leads-pure _ (λ db h. h.0))
                (λ _. stored_or_proceed same unused (ground arith) t stored)

  check_expiry-Leads :
      permit.action ≡ p.action → (t : Target) → Leads Armed Q (check_expiry run permit p ticket t)
  unfolding check_expiry
  check_expiry-Leads same t =
      Leads-bind (λ db h. h.0) (IsSilent-Leads IsSilent-now)
        λ time.
          Leads-bind (λ db h. h.0) (IsSilent-Leads (IsSilent-lift _))
            λ expires.
              Leads-if (ltb_ℤ expires time) _ _ (λ _. Leads-pure _ (λ db h. h.0))
                λ _.
                  Leads-bind (λ db h. h.0) (IsSilent-Leads (IsSilent-query _))
                    λ stored. check_stored-Leads same t stored

  check_target-Leads :
      permit.action ≡ p.action
      → (target : Option Target) → Leads Armed Q (check_target run permit p ticket target)
  unfolding check_target
  check_target-Leads same none = Leads-pure _ (λ db h. h.0)
  check_target-Leads same (some t) =
      Leads-if (t.resource_id == permit.resource_id) _ _ (λ _. check_expiry-Leads same t)
        (λ _. Leads-pure _ (λ db h. h.0))

  pub run_checks-Leads : Leads Armed Q (run_checks run (some permit) p ticket)
  unfolding run_checks
  run_checks-Leads =
      Leads-if (same_action permit.action p.action) _ _
        (λ same.
          Leads-bind (λ db h. h.0) (IsSilent-Leads (IsSilent-query _))
            λ target. check_target-Leads (same_action_sound permit.action p.action same) target)
        (λ _. Leads-pure _ (λ db h. h.0))
