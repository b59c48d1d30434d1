-- ===== src/Trace/Parts.antt =====
-- The reads, the planner's proposals and the issue of permits add no row to the log and report no commit.
use bounded_refund_agent.Prelude.{
  ℕ, zero, suc, ◌+◌, ℤ, String, ◌≡◌, refl, ap, Bool, true, false, Option, List, [], ◌∷◌,
  if◌then◌else◌,
}
use bounded_refund_agent.Result.{Result, Exception, ok, err}
use bounded_refund_agent.Schemas.{ActionName, ReadTool}
use bounded_refund_agent.Schemas.Gate.{RawProposal, nothing}
use bounded_refund_agent.Db.{Db, PermitRow}
use bounded_refund_agent.Tx.{insert_permit}
use bounded_refund_agent.Policy.{read_max_attempts}
use bounded_refund_agent.Permits.{issue_permit}
use bounded_refund_agent.ReadTools.{attempts, call}
use bounded_refund_agent.Runner.Attempts.{propose, try_read}
use bounded_refund_agent.Ledger.Same.{insert_permit_lem}
use bounded_refund_agent.World.{World, Run, M, transaction, catch, settle, resume}
use bounded_refund_agent.Flow.Shape.{either}
use bounded_refund_agent.Trace.{Logs, Logs-refl, Logs-trans, nothing_added, Quiet}
use bounded_refund_agent.Trace.Quiet.{
  Quiet-pure, Quiet-lift, Quiet-query, Quiet-gets, Quiet-modify, Quiet-bind, Quiet-now,
  Quiet-record_call, read_fails-Quiet,
}

module _ {id : String} where
  module _ {A : Type 0} where
    handle-Logs :
        (b : Bool) (e : Exception) (handler : M A) (w w' : World)
        → Quiet id A handler
        → Logs id 0 w w'
        → Logs id 0 w ((if b then handler else λ v. (err e, v)) w').1
    handle-Logs true e handler w w' k h = Logs-trans h (k.at w')
    handle-Logs false e handler w w' k h = h

    resume-Logs :
        (r : Result A) (caught : Exception → Bool) (handler : M A) (w w' : World)
        → Quiet id A handler
        → Logs id 0 w w'
        → Logs id 0 w (resume r caught handler w').1
    resume-Logs (ok a) caught handler w w' k h = h
    resume-Logs (err e) caught handler w w' k h = handle-Logs (caught e) e handler w w' k h

    Quiet-catch :
        (m : M A) (caught : Exception → Bool) (handler : M A)
        → Quiet id A m
        → Quiet id A handler
        → Quiet id A (catch m caught handler)
    unfolding catch
    Quiet-catch m caught handler km kh = record {
      at = λ w. resume-Logs (m w).0 caught handler w (m w).1 kh (km.at w);
    }

    attempts-Quiet :
        (tool : ReadTool) (argument : String) (fetch : Db → Result (Option A)) (left n : ℕ)
        → Quiet id _ (attempts tool argument fetch left n)
    unfolding attempts
    attempts-Quiet tool argument fetch zero n = Quiet-lift _
    attempts-Quiet tool argument fetch (suc left) n = Quiet-bind (Quiet-record_call _) λ _.
        Quiet-bind (read_fails-Quiet tool) λ failed.
          either (Quiet id _) failed _ _ (attempts-Quiet tool argument fetch left (n + 1))
            (Quiet-query fetch)

  pub try_read-Quiet :
      {A : Type 0} (tool named : ReadTool) (argument : String) (fetch : Db → Result (Option A))
      → Quiet id _ (try_read tool (call named argument fetch))
  unfolding try_read call
  try_read-Quiet tool named argument fetch =
      Quiet-catch _ _ _
        (Quiet-bind (attempts-Quiet named argument fetch read_max_attempts 1) λ found. Quiet-pure _)
        (Quiet-pure _)

  propose-Logs :
      (w : World) (ps : List RawProposal)
      → Logs id 0 w
          (elim ps as (λ (x : List RawProposal). Result RawProposal × World) [
            | [] ↦ (ok nothing, w)
            | raw ∷ rest ↦ (ok raw, record w { proposals = rest })
          ]).1
  propose-Logs w [] = Logs-refl w
  propose-Logs w (raw ∷ rest) = nothing_added refl refl

  pub propose-Quiet : Quiet id _ propose
  unfolding propose
  propose-Quiet = record { at = λ w. propose-Logs w w.proposals }

  inserted-Logs :
      (row : PermitRow) (w : World) (r : Result (Unit {0} × Db))
      → insert_permit row w.db ≡ r
      → Logs id 0 w (settle r w).1
  inserted-Logs row w (ok (tt, db)) e =
      nothing_added refl (ap (λ (d : Db). d.mutation_log) (insert_permit_lem row w.db db e))
  inserted-Logs row w (err x) e = Logs-refl w

  insert_permit-Quiet : (row : PermitRow) → Quiet id _ (transaction (insert_permit row))
  unfolding transaction
  insert_permit-Quiet row = record { at = λ w. inserted-Logs row w (insert_permit row w.db) refl }

  pub issue_permit-Quiet :
      (run : Run) (a : ActionName) (resource : String) (version amount : ℤ)
      → Quiet id _ (issue_permit run a resource version amount)
  unfolding issue_permit
  issue_permit-Quiet run a resource version amount =
      Quiet-bind (Quiet-modify _ (λ w. nothing_added refl refl)) λ _.
        Quiet-bind (Quiet-gets _) λ sequence.
          Quiet-bind Quiet-now λ issued_at. Quiet-bind (insert_permit-Quiet _) λ _. Quiet-pure _
