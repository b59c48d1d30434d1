-- ===== src/Injection.antt =====
-- The injector's three methods of simulator/failures.py as effects on the world. Without an injector
-- nothing goes wrong.
use bounded_refund_agent.Prelude.{Bool, false, Option, none, some, List, [], ◌∷◌, if◌then◌else◌}
use bounded_refund_agent.Result.{Result, ok, err}
use bounded_refund_agent.Schemas.{ActionName, ReadTool}
use bounded_refund_agent.Db.{Db}
use bounded_refund_agent.Failures.{
  FailureInjector, StateChange, apply, read_should_fail, should_timeout_after_commit, is_due, fire,
  fired,
}
use bounded_refund_agent.World.{World, M, pure, modify, ◌>>◌}

abbrev set_injector : FailureInjector → World → World
set_injector i w = record w { injector = some i }

abbrev pub settle : Result Db → World → Result (Unit {0}) × World
settle (ok db) w = (ok tt, record w { db = db })
settle (err e) w = (err e, w)

-- `change.apply(conn)`, outside a transaction: one UPDATE, or an exception.
unfoldable pub apply_change : StateChange → M (Unit {0})
apply_change c w = settle (apply c w.db) w

-- An exception leaves the changes before it in place.
unfoldable pub apply_changes : List StateChange → M (Unit {0})
unfolding apply_change
apply_changes [] = pure tt
apply_changes (c ∷ cs) = apply_change c >> apply_changes cs

abbrev update_injector : (FailureInjector → FailureInjector) → World → World
update_injector f w = elim w.injector [ none ↦ w | some i ↦ set_injector (f i) w ]

unfoldable pub fire_changes : ActionName → FailureInjector → M (Unit {0})
unfolding apply_changes fire fired is_due
fire_changes action i =
    if is_due action i
    then modify (set_injector (fire action i))
      >> (apply_changes (i.spec.pre_commit_changes action)
          >> modify (update_injector (fired action)))
    else pure tt

abbrev pub inject : ActionName → Option FailureInjector → M (Unit {0})
inject action none = pure tt
inject action (some i) = fire_changes action i

-- `if self.injector is not None: self.injector.apply_pre_commit(conn, action)`
unfoldable pub apply_pre_commit : ActionName → M (Unit {0})
unfolding fire_changes
apply_pre_commit action w = inject action w.injector w

-- `self.injector is not None and self.injector.read_should_fail(tool)`
unfoldable pub read_fails : ReadTool → M Bool
unfolding read_should_fail
read_fails tool w = elim w.injector [
  | none ↦ (ok false, w)
  | some i ↦ let (failed, i') = read_should_fail tool i in (ok failed, set_injector i' w)
]

unfoldable pub response_lost : ActionName → M Bool
unfolding should_timeout_after_commit
response_lost action w = elim w.injector [
  | none ↦ (ok false, w)
  | some i ↦ let (lost, i') = should_timeout_after_commit action i in (ok lost, set_injector i' w)
]
