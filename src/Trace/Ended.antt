-- ===== src/Trace/Ended.antt =====
-- The trace of a run of app/agent/runner.py that returns holds an event: its last one.
use bounded_refund_agent.Prelude.{ℤ, String, ◌≡◌, refl, Option, none, some, List, [], ◌∷◌, ◌++◌}
use bounded_refund_agent.Result.{Result, ok, err}
use bounded_refund_agent.Schemas.{DecisionOwner, ReasonCode}
use bounded_refund_agent.Audit.{Event, EventType, Extra}
use bounded_refund_agent.Runner.{Options, run_all}
use bounded_refund_agent.Runner.Report.{RunReport, report}
use bounded_refund_agent.World.{World, Run, M, pure, emit, append_event, continue, ◌>>=◌}

snoc_not_empty :
    {A : Type 0} (xs : List A) (x : A)
    → ¬ (◌≡◌ {A = Option (List A)} (some (xs ++ x ∷ [])) (some []))
snoc_not_empty [] x h = cc
snoc_not_empty (y ∷ ys) x h = cc

-- What returns leaves a trace with an event, if it leaves a trace.
record Speaks {A : Type 0} (m : M A) : Type 0 where
  at : (w : World) (a : A) → (m w).0 ≡ ok a → ¬ ((m w).1.audit ≡ some [])

module _ {A B : Type 0} where
  continue-Speaks :
      (r : Result A) (f : A → M B) (w : World) (b : B)
      → ((a : A) → Speaks (f a))
      → (continue r f w).0 ≡ ok b
      → ¬ ((continue r f w).1.audit ≡ some [])
  continue-Speaks (ok a) f w b k e = (k a).at w b e
  continue-Speaks (err x) f w b k e = cc

  Speaks-bind : (m : M A) {f : A → M B} → ((a : A) → Speaks (f a)) → Speaks (m >>= f)
  unfolding ◌>>=◌
  Speaks-bind m {f} k = record { at = λ w b e. continue-Speaks (m w).0 f (m w).1 b k e }

module _ {A : Type 0} (run : Run) (type : EventType) (resource : String) (version : ℤ)
    (owner : DecisionOwner) (reason : Option ReasonCode) (extra : Extra) (a : A) where
  appended_speaks :
      (w : World) (audit : Option (List Event))
      → w.audit ≡ audit
      → ¬ (
          (continue
            (elim audit as (λ (x : Option (List Event)). Result (Unit {0}) × World) [
              | none ↦ (ok tt, w)
              | some events ↦ append_event run type resource version owner reason extra events w
            ]).0
            (λ _. pure a)
            (elim audit as (λ (x : Option (List Event)). Result (Unit {0}) × World) [
              | none ↦ (ok tt, w)
              | some events ↦ append_event run type resource version owner reason extra events w
            ]).1).1.audit
          ≡ some [])
  unfolding append_event pure
  appended_speaks w none e h = cc
  appended_speaks w (some events) e h = snoc_not_empty events _ h

  emit-Speaks : Speaks (emit run type resource version owner reason extra >>= λ _. pure a)
  unfolding emit ◌>>=◌
  emit-Speaks = record { at = λ w b e. appended_speaks w w.audit refl }

run_all-Speaks : (run : Run) (options : Options) → Speaks (run_all run options)
unfolding run_all report
run_all-Speaks run options = Speaks-bind _ λ _. Speaks-bind _ λ end. Speaks-bind _ λ _.
    Speaks-bind _ λ fuel. Speaks-bind _ λ chained. Speaks-bind _ λ last.
      Speaks-bind _
        λ _. Speaks-bind _ λ final. Speaks-bind _ λ summary. emit-Speaks run _ _ _ _ _ _ summary

-- Where a run returns a report, its trace is not empty.
pub run_all_speaks :
    (run : Run) (options : Options) (w : World) (r : RunReport)
    → (run_all run options w).0 ≡ ok r
    → ¬ ((run_all run options w).1.audit ≡ some [])
run_all_speaks run options w r = (run_all-Speaks run options).at w r
