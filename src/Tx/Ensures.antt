-- ===== src/Tx/Ensures.antt =====
-- What a transaction that commits has established, about its value and the tables: one rule for each
-- way to build one.
use bounded_refund_agent.Prelude.{◌≡◌, refl, subst}
use bounded_refund_agent.Result.{Result, Exception, ok, err}
use bounded_refund_agent.Db.{Db}
use bounded_refund_agent.Tx.{Tx, pure, raise, ◌>>=◌}

-- From tables with `P`, a transaction that commits a value leaves tables that stand to it as `Q` says.
pub record Ensures (P : Db → Type 0) {A : Type 0} (Q : A → Db → Type 0) (m : Tx A) : Type 0 where
  pub at : (db db' : Db) (a : A) → P db → m db ≡ ok (a, db') → Q a db'

module _ {P : Db → Type 0} {A : Type 0} {Q : A → Db → Type 0} where
  pub Ensures-pure : (a : A) → ((db : Db) → P db → Q a db) → Ensures P Q (pure a)
  Ensures-pure a h = record {
    at = λ db db' b p e.
        let same : ◌≡◌ {A = A × Db} (a, db) (b, db') = cc e in
        subst (λ (x : A × Db). Q x.0 x.1) same (h db p);
  }

  pub Ensures-raise : (e : Exception) → Ensures P Q (raise e)
  Ensures-raise e = record { at = λ db db' b p h. cc }

module _ {A B : Type 0} {R : A → Db → Type 0} {Q : B → Db → Type 0} where
  continue-Ensures :
      (made : Result (A × Db)) (f : A → Tx B) (db' : Db) (b : B)
      → ((a : A) (mid : Db) → made ≡ ok (a, mid) → R a mid)
      → ((a : A) → Ensures (R a) Q (f a))
      → ◌≡◌ {A = Result (B × Db)}
          (elim made [ ok (a, mid) ↦ f a mid | err e ↦ err e ])
          (ok (b, db'))
      → Q b db'
  continue-Ensures (ok (a, mid)) f db' b km kf e = (kf a).at mid db' b (km a mid refl) e
  continue-Ensures (err x) f db' b km kf e = cc

module _ {P : Db → Type 0} {A B : Type 0} {R : A → Db → Type 0} {Q : B → Db → Type 0} where
  pub Ensures-bind :
      {m : Tx A} {f : A → Tx B}
      → Ensures P R m
      → ((a : A) → Ensures (R a) Q (f a))
      → Ensures P Q (m >>= f)
  Ensures-bind {m} {f} km kf = record {
    at = λ db db' b p e. continue-Ensures (m db) f db' b (λ a mid h. km.at db mid a p h) kf e;
  }

module _ {P P' : Db → Type 0} {A : Type 0} {Q Q' : A → Db → Type 0} where
  pub Ensures-weaken :
      {m : Tx A}
      → ((db : Db) → P' db → P db)
      → ((a : A) (db : Db) → Q a db → Q' a db)
      → Ensures P Q m
      → Ensures P' Q' m
  Ensures-weaken before after k = record {
    at = λ db db' a p e. after a db' (k.at db db' a (before db p) e);
  }
