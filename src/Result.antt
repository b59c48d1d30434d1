-- ===== src/Result.antt =====
-- The exceptions that the program raises or lets through, and a value or an exception.
use bounded_refund_agent.Prelude.{◌≡◌, refl, ◌⊎◌, inl, inr, Option, none, some}

pub data Exception : Type 0 where
  permit_required stale_resource response_timeout read_unavailable : Exception
  -- sqlite3.IntegrityError, ValueError, AssertionError
  integrity_error value_error assertion_error : Exception
  -- KeyError and IndexError
  key_error index_error : Exception

pub data Result {ℓ} (A : Type ℓ) : Type ℓ where
  ok : A → Result A
  err : Exception → Result A

-- What follows a statement runs on its value; an exception skips it.
infixl 5 ◌>>=◌
abbrev pub ◌>>=◌ {ℓ κ} : {X : Type ℓ} {Y : Type κ} → Result X → (X → Result Y) → Result Y
err raised >>= next = err raised
ok x >>= next = next x

-- `f` on a row, if there is one.
abbrev pub traverse {ℓ κ} :
    {A : Type ℓ} {B : Type κ} → (A → Result B) → Option A → Result (Option B)
traverse f none = ok none
traverse f (some a) = f a >>= λ b. ok (some b)

pub Result-cases {ℓ} :
    {A : Type ℓ} (r : Result A) → ((e : Exception) × (r ≡ err e)) ⊎ ((a : A) × (r ≡ ok a))
Result-cases (err e) = inl (e, refl)
Result-cases (ok a) = inr (a, refl)

pub ok_injective {ℓ} : {A : Type ℓ} {a b : A} → ◌≡◌ {A = Result A} (ok a) (ok b) → a ≡ b
ok_injective h = cc
