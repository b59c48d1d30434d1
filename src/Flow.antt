-- ===== src/Flow.antt =====
-- What only ever grows or shrinks in the shared objects of a run, from before to after an action, whether it
-- returns or raises: one rule for each way to build an action.
pub mod Calls
pub mod Execution
pub mod Shape
pub mod Advance
pub mod Runs
pub mod Fuel
pub mod Whole
use bounded_refund_agent.Prelude.{
  ℕ, suc, ◌+◌, ◌≤◌, ℤ, String, ◌≡◌, ◌∙◌, refl, sym, subst, ap, Bool, true, false, Option, none,
  some, List, [], ◌∷◌, ◌++◌, append_assoc, length, arith, if◌then◌else◌,
}
use bounded_refund_agent.Result.{Result, Exception, ok, err}
use bounded_refund_agent.Schemas.{DecisionOwner, ReasonCode}
use bounded_refund_agent.Db.{Db}
use bounded_refund_agent.Tx.{Tx}
use bounded_refund_agent.Audit.{EventType, Extra}
use bounded_refund_agent.World.{
  World, ToolCall, Run, M, pure, lift, query, gets, modify, transaction, catch, now, append_event,
  emit, record_call, ◌>>=◌, settle, continue, resume,
}

-- Where there is a list, further entries may stand behind it; where there is none, there is none later.
abbrev pub Grown {ℓ} : {A : Type ℓ} → Option (List A) → Option (List A) → Type ℓ
Grown none later = later ≡ none
Grown {A} (some xs) later = (ys : List A) × (later ≡ some (xs ++ ys))

-- The trace and the recorded calls grow at their end, the issuer's sequence number does not fall, and the
-- planner has no more to say.
pub record Advances (w w' : World) : Type 0 where
  pub audit : Grown w.audit w'.audit
  pub recorder : Grown w.recorder w'.recorder
  pub sequence : w.sequence ≤ w'.sequence
  pub proposals : length w'.proposals ≤ length w.proposals

module _ {ℓ} {A : Type ℓ} where
  append_nothing : (xs : List A) → xs ≡ xs ++ []
  append_nothing [] = refl
  append_nothing (x ∷ xs) = ap (λ r. x ∷ r) (append_nothing xs)

  pub Grown-refl : (a : Option (List A)) → Grown a a
  Grown-refl none = refl
  Grown-refl (some xs) = ([], ap some (append_nothing xs))

  pub Grown-trans : (a b c : Option (List A)) → Grown a b → Grown b c → Grown a c
  Grown-trans none b c h k = subst (λ o. Grown o c) h k
  Grown-trans (some xs) b c (ys, h) k =
      let (zs, e) = subst (λ o. Grown o c) h k in (ys ++ zs, e ∙ ap some (append_assoc xs ys zs))

  pub Grown-snoc :
      (a : Option (List A)) (xs : List A) (x : A) → a ≡ some xs → Grown a (some (xs ++ x ∷ []))
  Grown-snoc a xs x e = subst (λ b. Grown b (some (xs ++ x ∷ []))) (sym e) (x ∷ [], refl)

  pub Grown-same : (a b : Option (List A)) → b ≡ a → Grown a b
  Grown-same none b h = h
  Grown-same (some xs) b h = ([], h ∙ ap some (append_nothing xs))

pub Advances-refl : (w : World) → Advances w w
Advances-refl w = record {
  audit = Grown-refl w.audit;
  recorder = Grown-refl w.recorder;
  sequence = omega arith;
  proposals = omega arith;
}

pub Advances-trans : {w w' w'' : World} → Advances w w' → Advances w' w'' → Advances w w''
Advances-trans {w} {w'} {w''} a b = record {
  audit = Grown-trans w.audit w'.audit w''.audit a.audit b.audit;
  recorder = Grown-trans w.recorder w'.recorder w''.recorder a.recorder b.recorder;
  sequence = let h = a.sequence in let k = b.sequence in omega arith;
  proposals = let h = a.proposals in let k = b.proposals in omega arith;
}

-- Worlds that agree in these four.
pub record IsAlike (w w' : World) : Type 0 where
  pub audit : w'.audit ≡ w.audit
  pub recorder : w'.recorder ≡ w.recorder
  pub sequence : w'.sequence ≡ w.sequence
  pub proposals : w'.proposals ≡ w.proposals

pub IsAlike-Advances : {w w' : World} → IsAlike w w' → Advances w w'
IsAlike-Advances {w} {w'} s = record {
  audit = Grown-same w.audit w'.audit s.audit;
  recorder = Grown-same w.recorder w'.recorder s.recorder;
  sequence = let e = s.sequence in omega arith;
  proposals = let e = ap length s.proposals in omega arith;
}

pub alike :
    {w w' : World}
    → w'.audit ≡ w.audit
    → w'.recorder ≡ w.recorder
    → w'.sequence ≡ w.sequence
    → w'.proposals ≡ w.proposals
    → Advances w w'
alike a r s p = IsAlike-Advances (record { audit = a; recorder = r; sequence = s; proposals = p })

pub record Flows {A : Type 0} (m : M A) : Type 0 where
  pub at : (w : World) → Advances w (m w).1

module _ {A : Type 0} where
  pub Flows-pure : (a : A) → Flows (pure a)
  unfolding pure
  Flows-pure a = record { at = Advances-refl }

  pub Flows-lift : (r : Result A) → Flows (lift r)
  unfolding lift
  Flows-lift r = record { at = Advances-refl }

  pub Flows-query : (q : Db → Result A) → Flows (query q)
  unfolding query
  Flows-query q = record { at = Advances-refl }

  pub Flows-gets : (f : World → A) → Flows (gets f)
  unfolding gets
  Flows-gets f = record { at = Advances-refl }

  pub Flows-if : (b : Bool) (m n : M A) → Flows m → Flows n → Flows (if b then m else n)
  Flows-if true m n km kn = km
  Flows-if false m n km kn = kn

  settle-Advances : (w : World) (r : Result (A × Db)) → Advances w (settle r w).1
  settle-Advances w (ok (a, db)) =
      IsAlike-Advances (record { audit = refl; recorder = refl; sequence = refl; proposals = refl })
  settle-Advances w (err x) = Advances-refl w

  pub Flows-transaction : (tx : Tx A) → Flows (transaction tx)
  unfolding transaction
  Flows-transaction tx = record { at = λ w. settle-Advances w (tx w.db) }

  handle-Advances :
      (b : Bool) (e : Exception) (handler : M A) (w : World)
      → Flows handler
      → Advances w ((if b then handler else λ v. (err e, v)) w).1
  handle-Advances true e handler w k = k.at w
  handle-Advances false e handler w k = Advances-refl w

  resume-Advances :
      (r : Result A) (caught : Exception → Bool) (handler : M A) (w : World)
      → Flows handler
      → Advances w (resume r caught handler w).1
  resume-Advances (ok a) caught handler w k = Advances-refl w
  resume-Advances (err e) caught handler w k = handle-Advances (caught e) e handler w k

  pub Flows-catch :
      (m : M A) (caught : Exception → Bool) (handler : M A)
      → Flows m
      → Flows handler
      → Flows (catch m caught handler)
  unfolding catch
  Flows-catch m caught handler km kh = record {
    at = λ w. Advances-trans (km.at w) (resume-Advances (m w).0 caught handler (m w).1 kh);
  }

pub Flows-modify : (f : World → World) → ((w : World) → Advances w (f w)) → Flows (modify f)
unfolding modify
Flows-modify f h = record { at = h }

module _ {A B : Type 0} where
  continue-Advances :
      (r : Result A) (f : A → M B) (w : World)
      → ((a : A) → Flows (f a))
      → Advances w (continue r f w).1
  continue-Advances (ok a) f w k = (k a).at w
  continue-Advances (err x) f w k = Advances-refl w

  pub Flows-bind : {m : M A} {f : A → M B} → Flows m → ((a : A) → Flows (f a)) → Flows (m >>= f)
  unfolding ◌>>=◌
  Flows-bind {m} {f} km kf = record {
    at = λ w. Advances-trans (km.at w) (continue-Advances (m w).0 f (m w).1 kf);
  }
