-- ===== src/World/Yields.antt =====
-- Properties of the value that an action returns and of the tables that it leaves.
use bounded_refund_agent.Prelude.{◌≡◌, refl, subst}
use bounded_refund_agent.Result.{Result, ok, err}
use bounded_refund_agent.Db.{Db}
use bounded_refund_agent.World.{World, M, pure, gets, ◌>>=◌, continue}
use bounded_refund_agent.World.Leads.{Leads}

-- From tables with `P`, a value that the action returns stands to the tables it leaves as `Q` says.
pub record Yields (P : Db → Type 0) {A : Type 0} (Q : A → Db → Type 0) (m : M A) : Type 0 where
  pub at : (w : World) → P w.db → (a : A) → (m w).0 ≡ ok a → Q a (m w).1.db

module _ {P : Db → Type 0} {A : Type 0} {Q : A → Db → Type 0} where
  pub Yields-pure : (a : A) → ((db : Db) → P db → Q a db) → Yields P Q (pure a)
  unfolding pure
  Yields-pure a h = record {
    at = λ w p b e. let same : a ≡ b = cc e in subst (λ x. Q x w.db) same (h w.db p);
  }

module _ {R : Db → Type 0} {A B : Type 0} {Q : B → Db → Type 0} where
  continue-Yields :
      (r : Result A) (f : A → M B) (w : World)
      → ((a : A) → Yields R Q (f a))
      → R w.db
      → (b : B) → (continue r f w).0 ≡ ok b
      → Q b (continue r f w).1.db
  continue-Yields (ok a) f w kf h b e = (kf a).at w h b e
  continue-Yields (err x) f w kf h b e = cc

module _ {P R : Db → Type 0} {A B : Type 0} {Q : B → Db → Type 0} where
  pub Yields-bind :
      {m : M A} {f : A → M B} → Leads P R m → ((a : A) → Yields R Q (f a)) → Yields P Q (m >>= f)
  unfolding ◌>>=◌
  Yields-bind {m} {f} km kf = record {
    at = λ w h. continue-Yields (m w).0 f (m w).1 kf (km.at w h);
  }

module _ {P : Db → Type 0} {A B : Type 0} {Q : B → Db → Type 0} where
  -- What follows may use what was read of the world.
  pub Yields-bind_gets :
      (f : World → A) (g : A → M B)
      → ((w : World) → P w.db → Yields (λ db. db ≡ w.db) Q (g (f w)))
      → Yields P Q (gets f >>= g)
  unfolding ◌>>=◌ gets
  Yields-bind_gets f g k = record { at = λ w h. (k w h).at w refl }
