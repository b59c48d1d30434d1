-- ===== src/Evals/Observe/Agrees.antt =====
-- What `observe` of evals/run_eval.py reads, against the report of app/agent/runner.py on the same tables.
use text.Mathlib.Text.{is_lt}
use Prim.Native.String.{compare}
use bounded_refund_agent.Prelude.{
  suc, ◌-◌, ltb, ℤ, ◌+ℤ◌, int_laws, String, ◌≡◌, ◌∙◌, sym, subst, ap, refl, List, [], ◌∷◌, length,
  map, arith, Bool-cases, inl, inr,
}
use bounded_refund_agent.Schemas.{ActionName, Outcome, ReasonCode, VerifiedState}
use bounded_refund_agent.Db.{Db, RefundRow, LogRow, mutation_log_rows}
use bounded_refund_agent.World.{World, Run}
use bounded_refund_agent.Runner.{Options, run_all}
use bounded_refund_agent.Ledger.Mirror.{IsMirrored}
use bounded_refund_agent.Ledger.Reported.{run_all-Yields}
use bounded_refund_agent.Result.{ok}
use bounded_refund_agent.Runner.Report.{
  RunReport, distinct, sum_refunds, refunds_of, tickets_of, summarise,
}
use bounded_refund_agent.Evals.Observe.{insert_by, order_by, mutation_of, key_of, Observed, observe}

module _ {ℓ} {A : Type ℓ} (key : A → String) where
  length-insert_by : (x : A) (xs : List A) → length (insert_by key x xs) ≡ suc (length xs)
  unfolding insert_by
  length-insert_by x [] = refl
  length-insert_by x (y ∷ ys) = ground (arith, length-insert_by x ys)

  length-order_by : (xs : List A) → length (order_by key xs) ≡ length xs
  unfolding order_by
  length-order_by [] = refl
  length-order_by (x ∷ xs) =
      ground (arith, length-insert_by x (order_by key xs), length-order_by xs)

add_swap : (a b c : ℤ) → b +ℤ (a +ℤ c) ≡ a +ℤ (b +ℤ c)
add_swap a b c = grind int_laws

sum_refunds-insert_by :
    (key : RefundRow → String) (x : RefundRow) (xs : List RefundRow)
    → sum_refunds (insert_by key x xs) ≡ x.amount_cents +ℤ sum_refunds xs
unfolding insert_by sum_refunds
sum_refunds-insert_by key x [] = refl
sum_refunds-insert_by key x (y ∷ ys) = elim (Bool-cases (is_lt (compare (key y) (key x)))) [
  | inl t ↦ rw (t) (
      ap (λ s. y.amount_cents +ℤ s) (sum_refunds-insert_by key x ys)
      ∙ add_swap x.amount_cents y.amount_cents (sum_refunds ys))
  | inr f ↦ rw (f) refl
]

sum_refunds-order_by :
    (key : RefundRow → String) (xs : List RefundRow)
    → sum_refunds (order_by key xs) ≡ sum_refunds xs
unfolding order_by sum_refunds
sum_refunds-order_by key [] = refl
sum_refunds-order_by key (x ∷ xs) =
    sum_refunds-insert_by key x (order_by key xs)
    ∙ ap (λ s. x.amount_cents +ℤ s) (sum_refunds-order_by key xs)

length-map {ℓ κ} :
    {A : Type ℓ} {B : Type κ} (f : A → B) (xs : List A) → length (map f xs) ≡ length xs
length-map f [] = refl
length-map f (x ∷ xs) = ap suc (length-map f xs)

abbrev entry_of : LogRow → ActionName × String
entry_of r = (r.action, r.resource_id)

keys_of_mutations : (rows : List LogRow) → map key_of (map mutation_of rows) ≡ map entry_of rows
keys_of_mutations [] = refl
keys_of_mutations (r ∷ rows) = ap (λ s. (r.action, r.resource_id) ∷ s) (keys_of_mutations rows)

-- The figures of a report are those that `observe` reads: the refunded amount, whether there is a refund
-- and a ticket, and the numbers of mutations and of repeated ones.
pub record Agrees (o : Observed) (r : RunReport) : Type 0 where
  pub refunded : o.refund_amount_cents ≡ r.refund_amount_cents
  pub refund : o.refund_created ≡ r.refund_created
  pub ticket : o.support_ticket_created ≡ r.support_ticket_created
  pub mutations : o.mutation_count ≡ r.mutation_count
  pub repeated : o.duplicate_mutation_count ≡ r.duplicate_mutation_count

pub observe-Agrees-summarise :
    (run : Run) (order : String) (outcome : Outcome) (reason : ReasonCode) (final : VerifiedState)
    (w : World)
    → Agrees (observe w.db run.run_id order) (summarise run outcome reason final w)
unfolding observe summarise refunds_of tickets_of
observe-Agrees-summarise run order outcome reason final w =
    let rows = mutation_log_rows run.run_id w.db in
    record {
      refunded = sum_refunds-order_by _ (refunds_of run.run_id w.db);
      refund = ap (ltb 0) (length-order_by _ (refunds_of run.run_id w.db));
      ticket = ap (ltb 0) (length-order_by _ (tickets_of run.run_id w.db));
      mutations = length-map mutation_of rows;
      repeated = λ i.
          (length-map mutation_of rows ∙ sym (length-map entry_of rows)) i
          - distinct (keys_of_mutations rows i);
    }

reported-Agrees :
    (run : Run) (order : String) (outcome : Outcome) (reason : ReasonCode) (final : VerifiedState)
    (w : World)
    → IsMirrored w.db
    → (db : Db) → db ≡ w.db
    → Agrees (observe db run.run_id order) (summarise run outcome reason final w)
reported-Agrees run order outcome reason final w m db e =
    subst (λ d. Agrees (observe d run.run_id order) (summarise run outcome reason final w)) (sym e)
      (observe-Agrees-summarise run order outcome reason final w)

pub run_all-Agrees :
    (run : Run) (options : Options) (w : World) (order : String) (r : RunReport)
    → IsMirrored w.db
    → (run_all run options w).0 ≡ ok r
    → Agrees (observe (run_all run options w).1.db run.run_id order) r
run_all-Agrees run options w order r m e =
    (run_all-Yields run {T = λ r' db. Agrees (observe db run.run_id order) r'}
        (reported-Agrees run order) options).at
      w m r e
