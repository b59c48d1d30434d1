-- ===== src/Safety/Refusals.antt =====
-- The refusals of `_run_checks` of app/executor/executor.py, and the tables.
use bounded_refund_agent.Prelude.{
  ◌∙◌, ltb_ℤ, String, ◌≡◌, refl, sym, subst, Bool, true, false, not, ◌||◌, Option, none, some,
  arith, ◌==◌, ap,
}
use bounded_refund_agent.Schemas.{ActionProposal, ExecutionPermit, ExecutionResult, same_action}
use bounded_refund_agent.Db.{Db}
use bounded_refund_agent.Permits.{load_permit}
use bounded_refund_agent.Executor.{
  Target, check_stored, check_expiry, check_target, run_checks, report, report_committed, execute,
}
use bounded_refund_agent.Executor.Commit.{TicketText, amount_of}
use bounded_refund_agent.World.{World, Run}
use bounded_refund_agent.World.Leads.{
  Leads, IsSilent-lift, IsSilent-query, IsSilent-now, IsSilent-Leads, Leads-pure, Leads-if,
  Leads-bind, Leads-bind_query,
}
use bounded_refund_agent.Safety.Core.{emit_event-Leads, IsSilent-response_lost}

-- No permit, a consumed permit, a permit of another action or a permit of a smaller amount.
unfoldable pub is_refused : Option ExecutionPermit → ActionProposal → Bool
unfolding same_action
is_refused none p = true
is_refused (some permit) p =
    permit.used
    || (not (same_action permit.action p.action) || ltb_ℤ permit.max_amount_cents (amount_of p))

over_or_used :
    (permit : ExecutionPermit) (p : ActionProposal)
    → same_action permit.action p.action ≡ true
    → permit.used ≡ false
    → is_refused (some permit) p ≡ true
    → ltb_ℤ permit.max_amount_cents (amount_of p) ≡ true
unfolding is_refused
over_or_used permit p same unused h = ground arith

module _ {Q : Db → Type 0} (run : Run) where
  check_stored-Stays :
      (permit : ExecutionPermit) (p : ActionProposal) (ticket : TicketText)
      → same_action permit.action p.action ≡ true
      → is_refused (some permit) p ≡ true
      → (t : Target) (stored : Option ExecutionResult)
      → Leads Q Q (check_stored run permit p ticket t stored)
  unfolding check_stored
  check_stored-Stays permit p ticket same h t stored =
      Leads-if permit.used _ _ (λ _. Leads-pure _ (λ db q. q))
        λ unused.
          Leads-if (ltb_ℤ permit.max_amount_cents (amount_of p)) _ _ (λ _. Leads-pure _ (λ db q. q))
            λ within. let over = over_or_used permit p same unused h in cc

  check_target-Stays :
      (permit : ExecutionPermit) (p : ActionProposal) (ticket : TicketText)
      → same_action permit.action p.action ≡ true
      → is_refused (some permit) p ≡ true
      → (target : Option Target) → Leads Q Q (check_target run permit p ticket target)
  unfolding check_target check_expiry
  check_target-Stays permit p ticket same h none = Leads-pure _ (λ db q. q)
  check_target-Stays permit p ticket same h (some t) =
      Leads-if (t.resource_id == permit.resource_id) _ _
        (λ _.
          Leads-bind (λ db q. q) (IsSilent-Leads IsSilent-now)
            λ time.
              Leads-bind (λ db q. q) (IsSilent-Leads (IsSilent-lift _))
                λ expires.
                  Leads-if (ltb_ℤ expires time) _ _ (λ _. Leads-pure _ (λ db q. q))
                    λ _.
                      Leads-bind (λ db q. q) (IsSilent-Leads (IsSilent-query _))
                        λ stored. check_stored-Stays permit p ticket same h t stored)
        (λ _. Leads-pure _ (λ db q. q))

  pub run_checks-Stays :
      (permit : Option ExecutionPermit) (p : ActionProposal) (ticket : TicketText)
      → is_refused permit p ≡ true
      → Leads Q Q (run_checks run permit p ticket)
  unfolding run_checks
  run_checks-Stays none p ticket h = Leads-pure _ (λ db q. q)
  run_checks-Stays (some permit) p ticket h =
      Leads-if (same_action permit.action p.action) _ _
        (λ same.
          Leads-bind (λ db q. q) (IsSilent-Leads (IsSilent-query _))
            λ target. check_target-Stays permit p ticket same h target)
        (λ _. Leads-pure _ (λ db q. q))

  report-Stays :
      (p : ActionProposal) (permit : Option ExecutionPermit) (r : ExecutionResult)
      → Leads Q Q (report run p permit r)
  unfolding report report_committed
  report-Stays p permit r =
      Leads-if r.committed _ _
        (λ _.
          Leads-if r.replayed _ _
            (λ _.
              Leads-bind (λ db q. q) (emit_event-Leads run _ p permit _ _)
                λ _. Leads-pure r (λ db q. q))
            (λ _.
              Leads-bind (λ db q. q) (emit_event-Leads run _ p permit _ _)
                λ _.
                  Leads-bind (λ db q. q) (IsSilent-Leads (IsSilent-response_lost p.action))
                    λ lost.
                      Leads-if lost _ _ (λ _. IsSilent-Leads (IsSilent-lift _))
                        (λ _. Leads-pure r (λ db q. q))))
        (λ _.
          Leads-bind (λ db q. q) (emit_event-Leads run _ p permit _ _)
            λ _. Leads-pure r (λ db q. q))

loaded_checks-Stays :
    (Q : Db → Type 0) (run : Run) (loaded permit : Option ExecutionPermit) (p : ActionProposal)
    (ticket : TicketText) (w : World)
    → loaded ≡ permit
    → is_refused loaded p ≡ true
    → Q w.db
    → Q (run_checks run permit p ticket w).1.db
loaded_checks-Stays Q run loaded permit p ticket w e h q =
    (run_checks-Stays {Q = Q} run permit p ticket (subst (λ l. is_refused l p ≡ true) e h)).at w q

-- A call of the executor without a permit, with a consumed one, with one of another action or with one
-- of a smaller amount leaves every table as it was, also where the call raises.
pub execute-refused_unchanged :
    (run : Run) (id : Option String) (p : ActionProposal) (ticket : TicketText) (w : World)
    → is_refused (load_permit id w.db) p ≡ true
    → (execute run id p ticket w).1.db ≡ w.db
unfolding execute
execute-refused_unchanged run id p ticket w h = stays.at w refl
  where
    stays : Leads (λ db. db ≡ w.db) (λ db. db ≡ w.db) (execute run id p ticket)
    stays =
        Leads-bind_query _ _ (λ db q. q)
          λ permit.
            Leads-bind (λ db q. q.0) (emit_event-Leads run _ p permit _ _)
              λ _.
                Leads-bind (λ db q. q)
                  (record {
                    at = λ v q.
                        loaded_checks-Stays (λ db. db ≡ w.db) run (load_permit id w.db) permit p
                          ticket v (ap (load_permit id) (sym q.0) ∙ cc (q.1)) h q.0;
                  })
                  λ r. report-Stays run p permit r
