-- ===== src/Ledger/Book.antt =====
-- What the permits and the log promise, without the other tables: an abstract book, its steps, and the
-- runs of app/agent/runner.py as paths of them.

use bounded_refund_agent.Prelude.{
  ◌⊎◌, inl, inr, pos, ◌≤ℤ◌, String, ◌≡◌, ◌∙◌, ap, refl, sym, subst, true, false, Option, some, List,
  [], ◌∷◌, ◌++◌, map, find, ◌==◌, arith, if◌then◌else◌,
}
use bounded_refund_agent.Clock.{IsoText}
use bounded_refund_agent.Schemas.{
  ActionName, cancel_order, issue_refund, create_support_ticket, ActionProposal, ExecutionPermit,
  ExecutionResult,
}
use bounded_refund_agent.Db.{Db, PermitRow, LogRow}
use bounded_refund_agent.Tx.{update_where}
use bounded_refund_agent.Permits.{find_permit}
use bounded_refund_agent.Executor.Commit.{TicketText, mark_used, amount_of}
use bounded_refund_agent.Effect.{WriteEffect, write_lem, log_row}
use bounded_refund_agent.Ledger.Same.{SameLedger, apply-SameLedger, insert_permit_lem}
use bounded_refund_agent.Safety.Core.{IsSafe, IsCleared}
use bounded_refund_agent.Safety.Whole.{run_all-Leads}
use bounded_refund_agent.Runner.{Options, run_all}
use bounded_refund_agent.World.{World, Run}

-- The permits that were issued, and the entries that were paid with them.
pub record Book : Type 0 where
  pub permits : List ExecutionPermit
  pub entries : List LogRow

abbrev pub consumed : ExecutionPermit → ExecutionPermit
consumed q = record q { used = true }

-- The permits of the identifier are consumed.
unfoldable pub consume : String → List ExecutionPermit → List ExecutionPermit
consume id [] = []
consume id (q ∷ qs) = (if q.permit_id == id then consumed q else q) ∷ consume id qs

-- The first permit of the identifier.
abbrev pub held : String → List ExecutionPermit → Option ExecutionPermit
held id = find (λ (q : ExecutionPermit). q.permit_id == id)

-- An entry that the permit allows: of its action, for its resource, of no amount or of a refund's amount
-- within the permit's.
pub record Allows (q : ExecutionPermit) (l : LogRow) : Type 0 where
  pub action : l.action ≡ q.action
  pub resource : l.resource_id ≡ q.resource_id
  pub amount :
      (l.amount_cents ≡ pos 0)
      ⊎ ((q.action ≡ issue_refund) × (l.amount_cents ≤ℤ q.max_amount_cents))

infix 40 ◌⇒◌ ◌⇒*◌
pub data ◌⇒◌ : Book → Book → Type 0 where
  issue :
      (b : Book) (q : ExecutionPermit)
      → q.used ≡ false
      → b ⇒ (record b { permits = b.permits ++ q ∷ [] })
  pay :
      (b : Book) (q : ExecutionPermit) (l : LogRow)
      → held q.permit_id b.permits ≡ some q
      → q.used ≡ false
      → Allows q l
      → b ⇒ (record { permits = consume q.permit_id b.permits; entries = b.entries ++ l ∷ [] })

pub data ◌⇒*◌ (b : Book) : Book → Type 0 where
  here : b ⇒* b
  next : {c d : Book} → b ⇒* c → c ⇒ d → b ⇒* d

-- The book that the tables hold.
abbrev pub book : Db → Book
book db = record {
  permits = map (λ (row : PermitRow). row.permit) db.execution_permits;
  entries = db.mutation_log;
}

consume-map :
    (id : String) (rows : List PermitRow)
    → map
        (λ (row : PermitRow). row.permit)
        (update_where (λ (row : PermitRow). row.permit_id == id) mark_used rows)
      ≡ consume id (map (λ (row : PermitRow). row.permit) rows)
unfolding consume update_where
consume-map id [] = refl
consume-map id (row ∷ rows) = ground (arith, consume-map id rows)

held-map :
    (id : String) (rows : List PermitRow)
    → held id (map (λ (row : PermitRow). row.permit) rows) ≡ find_permit id rows
held-map id [] = refl
held-map id (row ∷ rows) = ground (arith, held-map id rows)

map-snoc {ℓ κ} :
    {A : Type ℓ} {B : Type κ} (f : A → B) (xs : List A) (x : A)
    → map f (xs ++ x ∷ []) ≡ map f xs ++ f x ∷ []
map-snoc f [] x = refl
map-snoc f (y ∷ xs) x = ap (λ r. f y ∷ r) (map-snoc f xs x)

log_row-Allows :
    (run : Run) (permit : ExecutionPermit) (p : ActionProposal) (time : IsoText) (a : ActionName)
    → permit.action ≡ a
    → amount_of p ≤ℤ permit.max_amount_cents
    → Allows permit (log_row run a permit p time)
log_row-Allows run permit p time cancel_order same within = record {
  action = sym same;
  resource = refl;
  amount = inl refl;
}
log_row-Allows run permit p time issue_refund same within = record {
  action = sym same;
  resource = refl;
  amount = inr (same, within);
}
log_row-Allows run permit p time create_support_ticket same within = record {
  action = sym same;
  resource = refl;
  amount = inl refl;
}

write_pays :
    (run : Run) (permit : ExecutionPermit) (p : ActionProposal) (ticket : TicketText)
    (time : IsoText) (db db' : Db) (r : ExecutionResult)
    → IsCleared permit p db
    → WriteEffect run permit p ticket time db r db'
    → book db ⇒ book db'
write_pays run permit p ticket time db db' r c e =
    rw (e.log, e.permits, consume-map permit.permit_id db.execution_permits)
      (pay (book db) permit (log_row run p.action permit p time)
        (held-map permit.permit_id db.execution_permits ∙ c.has_permit) c.unused
        (log_row-Allows run permit p time p.action c.same c.within))

insert_issues :
    (row : PermitRow) (db : Db)
    → row.used ≡ false
    → book db ⇒ book (record db { execution_permits = db.execution_permits ++ row ∷ [] })
insert_issues row db unused =
    rw (map-snoc (λ (r : PermitRow). r.permit) db.execution_permits row)
      (issue (book db) row.permit unused)

apply-book : (db db' : Db) → SameLedger db db' → book db' ≡ book db
apply-book db db' s = rw (s.log, s.permits) refl

IsSafe-Reached : (b : Book) → IsSafe (λ db. b ⇒* book db)
IsSafe-Reached b = record {
  edits =
      λ c db db' e h. subst (λ k. b ⇒* k) (sym (apply-book db db' (apply-SameLedger c db db' e))) h;
  permits = λ row db db' unused e h.
      subst (λ d. b ⇒* book d) (sym (insert_permit_lem row db db' e))
        (next h (insert_issues row db unused));
  writes = λ run permit p ticket time db db' r cleared e h. next h (
      write_pays run permit p ticket time db db' r cleared
        (write_lem run permit p ticket time db db' r e));
}

-- Every run, whatever the planner proposes and whatever fails, and also where it ends in an exception,
-- takes the book of permits and log entries along steps of two kinds only: an unused permit is added,
-- or an unused permit is consumed and one entry that it allows is added with it.
pub run_all-refines :
    (run : Run) (options : Options) (w : World) → book w.db ⇒* book (run_all run options w).1.db
run_all-refines run options w = (run_all-Leads (IsSafe-Reached (book w.db)) run options).at w here
