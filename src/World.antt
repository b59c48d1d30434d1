-- ===== src/World.antt =====
-- What a run works on: the connection, the clock, the injector, the trace, the recorder, and what the
-- runner keeps. Each effect of the program on it is an action of `M`, which may raise.
pub mod Leads
pub mod Yields
use bounded_refund_agent.Prelude.{
  ℕ, ◌+◌, ℤ, String, Bool, true, false, Option, none, some, List, [], ◌∷◌, ◌++◌, if◌then◌else◌,
}
use bounded_refund_agent.Result.{Result, Exception, ok, err}
use bounded_refund_agent.Clock.{Clock, tick, to_iso}
use bounded_refund_agent.Schemas.{
  ActionName, ActionProposal, DecisionOwner, Detail, ReasonCode, ReadTool,
}
use bounded_refund_agent.Schemas.Gate.{RawProposal}
use bounded_refund_agent.Db.{Db}
use bounded_refund_agent.Tx.{Tx}
use bounded_refund_agent.Failures.{FailureInjector}
use bounded_refund_agent.Audit.{Event, EventType, Extra}

-- A call that the recorder keeps: a read's attempt with its argument, or a write.
pub data ToolCall : Type 0 where
  read : ReadTool → ℕ → String → ToolCall
  write : ActionName → String → ℤ → ToolCall

pub data Note : Type 0 where
  replanning : ℕ → Note
  response_lost : String → Note
  deliberate_replay : String → Bool → Bool → Option ReasonCode → Note
  no_ticket : String → Note

-- What identifies a run: `run_id` and `scenario_id`.
pub record Run : Type 0 where
  pub run_id : String
  pub scenario_id : String

pub record World : Type 0 where
  pub db : Db
  pub clock : Clock
  pub injector : Option FailureInjector
  pub audit : Option (List Event)
  pub recorder : Option (List ToolCall)
  -- the issuer's `_sequence`
  pub sequence : ℕ
  -- what the planner has not emitted yet
  pub proposals : List RawProposal
  pub last_execution : Option (String × ActionProposal)
  pub notes : List Note
  pub recovered : Bool

abbrev pub M : Type 0 → Type 0
M A = World → Result A × World

module _ {A : Type 0} where
  unfoldable pub pure : A → M A
  pure a w = (ok a, w)

  unfoldable pub lift : Result A → M A
  lift r w = (r, w)

  -- A query on the connection.
  unfoldable pub query : (Db → Result A) → M A
  query q w = (q w.db, w)

  unfoldable pub gets : (World → A) → M A
  gets f w = (ok (f w), w)

  abbrev pub settle : Result (A × Db) → World → Result A × World
  settle (ok (a, db)) w = (ok a, record w { db = db })
  settle (err e) w = (err e, w)

  -- `with db.immediate_transaction(conn)`: BEGIN, then COMMIT, or ROLLBACK and the exception again.
  unfoldable pub transaction : Tx A → M A
  transaction tx w = settle (tx w.db) w

  abbrev pub handle : Exception → (Exception → Bool) → M A → M A
  handle e caught handler = if caught e then handler else λ w. (err e, w)

  abbrev pub resume : Result A → (Exception → Bool) → M A → M A
  resume (ok a) caught handler w = (ok a, w)
  resume (err e) caught handler w = handle e caught handler w

  -- `try: m` with `except caught: handler`
  unfoldable pub catch : M A → (Exception → Bool) → M A → M A
  catch m caught handler w = let (r, w') = m w in resume r caught handler w'

unfoldable pub modify : (World → World) → M (Unit {0})
modify f w = (ok tt, f w)

module _ {A B : Type 0} where
  abbrev pub continue : Result A → (A → M B) → M B
  continue (ok a) f w = f a w
  continue (err e) f w = (err e, w)

  infixl 5 ◌>>=◌
  unfoldable pub ◌>>=◌ : M A → (A → M B) → M B
  unfolding pure lift query gets modify
  ◌>>=◌ m f w = let (r, w') = m w in continue r f w'

infixl 5 ◌>>◌
abbrev pub ◌>>◌ : {B : Type 0} → M (Unit {0}) → M B → M B
m >> k = m >>= λ _. k

-- `clock.now()`
unfoldable pub now : M ℤ
unfolding tick
now w = (ok w.clock.current, record w { clock = tick w.clock })

-- `AuditTrace.emit`; it reads the clock.
unfoldable pub append_event :
    Run
    → EventType
    → String
    → ℤ
    → DecisionOwner
    → Option ReasonCode
    → Extra
    → List Event
    → M (Unit {0})
unfolding now tick to_iso
append_event run type resource version owner reason extra events w =
    (ok tt, record w { clock = tick w.clock; audit = some (events ++ event ∷ []) })
  where
    event : Event
    event = record {
      run_id = run.run_id;
      scenario_id = run.scenario_id;
      event_type = type;
      resource_id = resource;
      resource_version = version;
      decision_owner = owner;
      reason_code = reason;
      timestamp = to_iso w.clock.current;
      extra = extra;
    }

unfoldable pub emit :
    Run → EventType → String → ℤ → DecisionOwner → Option ReasonCode → Extra → M (Unit {0})
unfolding append_event
emit run type resource version owner reason extra w = elim w.audit [
  | none ↦ (ok tt, w)
  | some events ↦ append_event run type resource version owner reason extra events w
]

-- `recorder.record`, where there is a recorder
unfoldable pub record_call : ToolCall → World → World
record_call call w = elim w.recorder [
  | none ↦ w
  | some calls ↦ record w { recorder = some (calls ++ call ∷ []) }
]
