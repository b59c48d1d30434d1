-- ===== src/World/Leads.antt =====
-- Properties of the tables from before to after an action, whether it returns or raises: one rule for
-- each way to build an action.
use bounded_refund_agent.Prelude.{
  ℤ, String, ◌≡◌, refl, Bool, true, false, Option, arith, if◌then◌else◌,
}
use bounded_refund_agent.Result.{Result, Exception, ok, err}
use bounded_refund_agent.Schemas.{DecisionOwner, ReasonCode}
use bounded_refund_agent.Db.{Db}
use bounded_refund_agent.Tx.{Tx}
use bounded_refund_agent.Audit.{EventType, Extra}
use bounded_refund_agent.World.{
  World, ToolCall, Run, M, pure, lift, query, gets, modify, transaction, catch, now, emit,
  record_call, ◌>>=◌, settle, continue, resume,
}

-- From tables with `P`, the action ends, with a value or an exception, in tables with `Q`.
pub record Leads (P Q : Db → Type 0) {A : Type 0} (m : M A) : Type 0 where
  pub at : (w : World) → P w.db → Q (m w).1.db

abbrev pub Implies : (Db → Type 0) → (Db → Type 0) → Type 0
Implies P Q = (db : Db) → P db → Q db

-- An action that leaves the tables alone.
pub record IsSilent {A : Type 0} (m : M A) : Type 0 where
  pub same : (w : World) → (m w).1.db ≡ w.db

module _ {A : Type 0} where
  pub IsSilent-pure : (a : A) → IsSilent (pure a)
  unfolding pure
  IsSilent-pure a = record { same = λ w. refl }

  pub IsSilent-lift : (r : Result A) → IsSilent (lift r)
  unfolding lift
  IsSilent-lift r = record { same = λ w. refl }

  pub IsSilent-query : (q : Db → Result A) → IsSilent (query q)
  unfolding query
  IsSilent-query q = record { same = λ w. refl }

  pub IsSilent-gets : (f : World → A) → IsSilent (gets f)
  unfolding gets
  IsSilent-gets f = record { same = λ w. refl }

  pub IsSilent-Leads : {P : Db → Type 0} {m : M A} → IsSilent m → Leads P P m
  IsSilent-Leads {P} s = record { at = λ w h. rw (s.same w) h }

pub IsSilent-now : IsSilent now
unfolding now
IsSilent-now = record { same = λ w. refl }

pub IsSilent-emit :
    (run : Run) (type : EventType) (resource : String) (version : ℤ) (owner : DecisionOwner)
    (reason : Option ReasonCode) (extra : Extra)
    → IsSilent (emit run type resource version owner reason extra)
unfolding emit
IsSilent-emit run type resource version owner reason extra = record { same = λ w. ground arith }

pub IsSilent-record_call : (c : ToolCall) → IsSilent (modify (record_call c))
unfolding modify record_call
IsSilent-record_call c = record { same = λ w. ground arith }

module _ {P Q : Db → Type 0} where
  pub Leads-modify :
      (f : World → World) → ((w : World) → P w.db → Q (f w).db) → Leads P Q (modify f)
  unfolding modify
  Leads-modify f h = record { at = h }

module _ {A : Type 0} {Q : Db → Type 0} where
  settle-Leads :
      (w : World) (r : Result (A × Db))
      → Q w.db
      → ((a : A) (db' : Db) → r ≡ ok (a, db') → Q db')
      → Q (settle r w).1.db
  settle-Leads w (ok (a, db')) stay go = go a db' refl
  settle-Leads w (err x) stay go = stay

module _ {A B : Type 0} {Q R : Db → Type 0} where
  continue-Leads :
      (r : Result A) (f : A → M B) (w : World)
      → Implies Q R
      → ((a : A) → Leads Q R (f a))
      → Q w.db
      → R (continue r f w).1.db
  continue-Leads (ok a) f w weaken kf h = (kf a).at w h
  continue-Leads (err x) f w weaken kf h = weaken w.db h

module _ {A : Type 0} {Q R : Db → Type 0} where
  handle-Leads :
      (b : Bool) (e : Exception) (handler : M A) (w : World)
      → Implies Q R
      → Leads Q R handler
      → Q w.db
      → R ((if b then handler else λ v. (err e, v)) w).1.db
  handle-Leads true e handler w weaken kh h = kh.at w h
  handle-Leads false e handler w weaken kh h = weaken w.db h

  resume-Leads :
      (r : Result A) (caught : Exception → Bool) (handler : M A) (w : World)
      → Implies Q R
      → Leads Q R handler
      → Q w.db
      → R (resume r caught handler w).1.db
  resume-Leads (ok a) caught handler w weaken kh h = weaken w.db h
  resume-Leads (err e) caught handler w weaken kh h =
      handle-Leads (caught e) e handler w weaken kh h

module _ {A : Type 0} {P Q : Db → Type 0} where
  pub Leads-pure : (a : A) → Implies P Q → Leads P Q (pure a)
  unfolding pure
  Leads-pure a h = record { at = λ w. h w.db }

  pub Leads-if :
      (b : Bool) (m n : M A)
      → (b ≡ true → Leads P Q m)
      → (b ≡ false → Leads P Q n)
      → Leads P Q (if b then m else n)
  Leads-if true m n km kn = km refl
  Leads-if false m n km kn = kn refl

  -- A rolled back transaction leaves what was there; a committed one has to reach `Q`.
  pub Leads-transaction :
      (tx : Tx A)
      → Implies P Q
      → ((db db' : Db) (a : A) → tx db ≡ ok (a, db') → P db → Q db')
      → Leads P Q (transaction tx)
  unfolding transaction
  Leads-transaction tx stay go = record {
    at = λ w h. settle-Leads w (tx w.db) (stay w.db h) (λ a db' e. go w.db db' a e h);
  }

module _ {A B : Type 0} {P Q R : Db → Type 0} where
  pub Leads-bind :
      {m : M A} {f : A → M B}
      → Implies Q R
      → Leads P Q m
      → ((a : A) → Leads Q R (f a))
      → Leads P R (m >>= f)
  unfolding ◌>>=◌
  Leads-bind {m} {f} weaken km kf = record {
    at = λ w h. continue-Leads (m w).0 f (m w).1 weaken kf (km.at w h);
  }

module _ {A B : Type 0} {P R : Db → Type 0} where
  -- What follows may use that `r` did not raise.
  pub Leads-bind_lift :
      (r : Result A) (f : A → M B)
      → Implies P R
      → ((a : A) → r ≡ ok a → Leads P R (f a))
      → Leads P R (lift r >>= f)
  unfolding ◌>>=◌
  Leads-bind_lift (ok a) f weaken kf = record { at = (kf a refl).at }
  Leads-bind_lift (err e) f weaken kf = record { at = λ w h. weaken w.db h }

module _ {A : Type 0} {P Q R : Db → Type 0} where
  pub Leads-catch :
      (m : M A) (caught : Exception → Bool) (handler : M A)
      → Implies Q R
      → Leads P Q m
      → Leads Q R handler
      → Leads P R (catch m caught handler)
  unfolding catch
  Leads-catch m caught handler weaken km kh = record {
    at = λ w h. resume-Leads (m w).0 caught handler (m w).1 weaken kh (km.at w h);
  }

module _ {A B : Type 0} {P R : Db → Type 0} where
  bind_query_at :
      (r : Result A) (f : A → M B) (w : World)
      → Implies P R
      → ((a : A) → r ≡ ok a → R (f a w).1.db)
      → P w.db
      → R (continue r f w).1.db
  bind_query_at (ok a) f w weaken kf h = kf a refl
  bind_query_at (err e) f w weaken kf h = weaken w.db h

  -- What follows may use what the query answered about the tables.
  pub Leads-bind_query :
      (q : Db → Result A) (f : A → M B)
      → Implies P R
      → ((a : A) → Leads (λ db. P db × (q db ≡ ok a)) R (f a))
      → Leads P R (query q >>= f)
  unfolding ◌>>=◌
  Leads-bind_query q f weaken kf = record {
    at = λ w h. bind_query_at (q w.db) f w weaken (λ a e. (kf a).at w (h, e)) h;
  }

pub Leads-weaken :
    {A : Type 0} {P P' Q : Db → Type 0} {m : M A} → Implies P' P → Leads P Q m → Leads P' Q m
Leads-weaken weaken k = record { at = λ w h. k.at w (weaken w.db h) }
