-- ===== src/Ledger/Totals.antt =====
-- The figures of `_report` of app/agent/runner.py against the log.
use bounded_refund_agent.Prelude.{
  ℤ, pos, ◌+ℤ◌, String, ◌≡◌, ◌∙◌, ap, refl, ◌&&◌, List, [], ◌∷◌, ◌==◌, map, select, length, arith,
  if◌then◌else◌,
}
use bounded_refund_agent.Clock.{IsoText}
use bounded_refund_agent.Schemas.{issue_refund, Outcome, ReasonCode, VerifiedState}
use bounded_refund_agent.Db.{RefundRow, LogRow}
use bounded_refund_agent.World.{World, Run}
use bounded_refund_agent.Runner.Report.{sum_refunds, summarise}
use bounded_refund_agent.Ledger.Mirror.{IsMirrored, refund_entry, logged_refund, is_action}

-- What the refunds of a run in the log add up to.
unfoldable pub logged_total : String → List LogRow → ℤ
logged_total run [] = pos 0
logged_total run (row ∷ rows) =
    let rest = logged_total run rows in
    if is_action issue_refund row && row.run_id == run then row.amount_cents +ℤ rest else rest

-- The same of a list of entries.
unfoldable entries_total : String → List (String × String × ℤ × IsoText) → ℤ
entries_total run [] = pos 0
entries_total run ((id, _, amount, _) ∷ es) =
    let rest = entries_total run es in if id == run then amount +ℤ rest else rest

refunds_total :
    (run : String) (rows : List RefundRow)
    → sum_refunds (select (λ (row : RefundRow). row.run_id == run) rows)
      ≡ entries_total run (map refund_entry rows)
unfolding sum_refunds entries_total
refunds_total run [] = refl
refunds_total run (row ∷ rows) = ground (arith, refunds_total run rows)

logged_entries :
    (run : String) (rows : List LogRow)
    → entries_total run (map logged_refund (select (is_action issue_refund) rows))
      ≡ logged_total run rows
unfolding entries_total logged_total
logged_entries run [] = refl
logged_entries run (row ∷ rows) = ground (arith, logged_entries run rows)

-- Where the refunds are those of the log, row by row, the refunded amount of a report is the sum of
-- the refunds that the log has for the run, and its number of mutations is the number of the run's log rows.
pub summarise-agrees :
    (run : Run) (outcome : Outcome) (reason : ReasonCode) (final : VerifiedState) (w : World)
    → IsMirrored w.db
    → ((summarise run outcome reason final w).refund_amount_cents
        ≡ logged_total run.run_id w.db.mutation_log)
      × ((summarise run outcome reason final w).mutation_count
          ≡ length (select (λ (row : LogRow). row.run_id == run.run_id) w.db.mutation_log))
unfolding summarise
summarise-agrees run outcome reason final w m = (
  refunds_total run.run_id w.db.refunds
      ∙ (ap (entries_total run.run_id) m.refunds ∙ logged_entries run.run_id w.db.mutation_log),
  refl,
)
