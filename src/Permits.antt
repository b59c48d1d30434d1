-- ===== src/Permits.antt =====
-- app/executor/permits.py: permits are issued by the server, with identifiers from the run and a
-- sequence number.
use Prim.Native.String.{◌++◌ as ◌^^◌}
use bounded_refund_agent.Prelude.{
  ℕ, zero, suc, ◌+◌, ◌/◌, ◌%◌, ℤ, ◌+ℤ◌, ◌*ℤ◌, String, false, Option, none, some, List, ◌==◌, eqb,
  ltb, find, if◌then◌else◌,
}
use bounded_refund_agent.Clock.{to_iso, microseconds_per_second}
use bounded_refund_agent.Schemas.{ActionName, action_text, ExecutionPermit}
use bounded_refund_agent.Policy.{permit_ttl_seconds}
use bounded_refund_agent.Db.{Db, PermitRow}
use bounded_refund_agent.Tx.{insert_permit}
use bounded_refund_agent.World.{World, Run, M, pure, gets, modify, transaction, now, ◌>>=◌, ◌>>◌}

unfoldable pub digit : ℕ → String
digit n =
    if eqb n 0
    then "0"
    else if eqb n 1
    then "1"
    else if eqb n 2
    then "2"
    else if eqb n 3
    then "3"
    else if eqb n 4
    then "4"
    else if eqb n 5
    then "5"
    else if eqb n 6
    then "6"
    else if eqb n 7
    then "7"
    else if eqb n 8
    then "8"
    else "9"

-- The decimal digits of a number, with fuel; a number has fewer digits than itself plus one.
unfoldable pub decimal : ℕ → ℕ → String
unfolding digit
decimal zero n = digit (n % 10)
decimal (suc fuel) n =
    let front = decimal fuel (n / 10) in if ltb n 10 then digit n else front ^^ digit (n % 10)

-- `{sequence:03d}`
unfoldable pub three_digits : ℕ → String
unfolding decimal
three_digits n =
    if ltb n 10 then "00" ^^ decimal n n else if ltb n 100 then "0" ^^ decimal n n else decimal n n

unfoldable pub permit_id_for : String → ℕ → String
unfolding three_digits
permit_id_for run sequence = "prm_" ^^ (run ^^ ("_" ^^ three_digits sequence))

unfoldable pub idempotency_key_for : String → ℕ → ActionName → String → String
unfolding three_digits action_text
idempotency_key_for run sequence action resource =
    "idk_"
    ^^ (run
        ^^ ("_" ^^ (three_digits sequence ^^ ("_" ^^ (action_text action ^^ ("_" ^^ resource))))))

-- The permit of a sequence number and an instant. No caller gives a `ttl_seconds` or a key of its own.
unfoldable pub new_permit : Run → ℕ → ℤ → ActionName → String → ℤ → ℤ → ExecutionPermit
unfolding permit_id_for idempotency_key_for to_iso
new_permit run sequence issued_at action resource version amount = record {
  permit_id = permit_id_for run.run_id sequence;
  action = action;
  resource_id = resource;
  expected_resource_version = version;
  max_amount_cents = amount;
  expires_at = to_iso (issued_at +ℤ permit_ttl_seconds *ℤ microseconds_per_second);
  idempotency_key = idempotency_key_for run.run_id sequence action resource;
  used = false;
}

abbrev next_sequence : World → World
next_sequence w = record w { sequence = w.sequence + 1 }

unfoldable pub issue_permit : Run → ActionName → String → ℤ → ℤ → M ExecutionPermit
unfolding new_permit insert_permit to_iso
issue_permit run action resource version amount = do
  modify next_sequence
  sequence ← gets (λ w. w.sequence)
  issued_at ← now
  let permit = new_permit run sequence issued_at action resource version amount
  transaction (
      insert_permit
        (record { permit = permit; created_at = to_iso issued_at; run_id = run.run_id }))
  pure permit

abbrev pub find_permit : String → List PermitRow → Option ExecutionPermit
find_permit id rows = elim (find (λ row. row.permit_id == id) rows) [
  | none ↦ none
  | some row ↦ some row.permit
]

-- `none` and the empty text are no identifier.
unfoldable pub load_permit : Option String → Db → Option ExecutionPermit
load_permit none db = none
load_permit (some id) db = if id == "" then none else find_permit id db.execution_permits
