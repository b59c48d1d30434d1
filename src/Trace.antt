-- ===== src/Trace.antt =====
-- The `mutation_committed` events of app/audit.py against the rows of `mutation_log`: what an action adds to
-- the one and to the other.
pub mod Quiet
pub mod Parts
pub mod Targets
pub mod Checks
pub mod Execution
pub mod Whole
pub mod Ended
use bounded_refund_agent.Prelude.{
  ℕ, String, ◌+◌, ◌≤◌, ◌≡◌, ◌∙◌, refl, Bool, true, false, Option, none, some, List, count, length,
  arith, is_some,
}
use bounded_refund_agent.Result.{Result, Exception, ok, err}
use bounded_refund_agent.Db.{mutation_count}
use bounded_refund_agent.Audit.{Event}
use bounded_refund_agent.Runner.Attempts.{is_response_timeout}
use bounded_refund_agent.World.{World, M, pure, lift, query, gets, modify, ◌>>=◌, continue}
use bounded_refund_agent.Flow.Shape.{is_commit_event}

abbrev pub commits_in : Option (List Event) → ℕ
commits_in none = 0
commits_in (some events) = count is_commit_event events

-- How many commits the trace reports, and how many rows the log has under a run's identifier.
abbrev pub commits : World → ℕ
commits w = commits_in w.audit

abbrev pub mutations : String → World → ℕ
mutations id w = mutation_count (some id) w.db

-- From `w` to `w'` the log gains `n` rows, and the trace no commit.
pub record Logs (id : String) (n : ℕ) (w w' : World) : Type 0 where
  pub watched : is_some w'.audit ≡ is_some w.audit
  pub trace : commits w' ≡ commits w
  pub log : mutations id w' ≡ mutations id w + n

pub Logs-refl : {id : String} (w : World) → Logs id 0 w w
Logs-refl w = record { watched = refl; trace = refl; log = omega arith }

pub Logs-trans :
    {id : String} {n : ℕ} {w w' w'' : World} → Logs id 0 w w' → Logs id n w' w'' → Logs id n w w''
Logs-trans {n = n} {w} {w'} {w''} a b = record {
  watched = b.watched ∙ a.watched;
  trace = b.trace ∙ a.trace;
  log = let h = a.log in let k = b.log in omega arith;
}

pub nothing_added :
    {id : String} {w w' : World}
    → w'.audit ≡ w.audit
    → w'.db.mutation_log ≡ w.db.mutation_log
    → Logs id 0 w w'
unfolding mutation_count
nothing_added {w = w} {w'} a l = record {
  watched = rw (a) refl;
  trace = rw (a) refl;
  log = rw (l) (omega arith);
}

-- The rows that an action adds depend on its result as `g` says, and it reports no commit.
pub record Tallies (id : String) {A : Type 0} (g : Result A → ℕ) (m : M A) : Type 0 where
  pub at : (w : World) → Logs id (g (m w).0) w (m w).1

-- It adds no row and reports no commit.
abbrev pub Quiet : String → (A : Type 0) → M A → Type 0
Quiet id A m = Tallies id (λ _. 0) m

-- Rows and reports agree, but where the action ends in an exception other than a lost response, the log may
-- have a row more.
abbrev pub is_settled : {A : Type 0} → Result A → Bool
is_settled (ok a) = true
is_settled (err e) = is_response_timeout e

pub record Agrees (id : String) (settled : Bool) (w w' : World) : Type 0 where
  pub watched : is_some w'.audit ≡ is_some w.audit
  pub at_most : commits w' + mutations id w ≤ mutations id w' + commits w
  pub exact :
      is_some w.audit ≡ true
      → settled ≡ true
      → commits w' + mutations id w ≡ mutations id w' + commits w

pub record Balances (id : String) (A : Type 0) (m : M A) : Type 0 where
  pub at : (w : World) → Agrees id (is_settled (m w).0) w (m w).1

pub Agrees-trans :
    {id : String} {b : Bool} {w w' w'' : World}
    → Agrees id true w w'
    → Agrees id b w' w''
    → Agrees id b w w''
Agrees-trans {b = b} {w} {w'} {w''} h k = record {
  watched = k.watched ∙ h.watched;
  at_most = let x = h.at_most in let y = k.at_most in omega arith;
  exact = λ seen settled.
      let x = h.exact seen refl in let y = k.exact (h.watched ∙ seen) settled in omega arith;
}

pub Logs-Agrees : {id : String} {b : Bool} {w w' : World} → Logs id 0 w w' → Agrees id b w w'
Logs-Agrees {b = b} {w} {w'} h = record {
  watched = h.watched;
  at_most = let t = h.trace in let l = h.log in omega arith;
  exact = λ seen settled. let t = h.trace in let l = h.log in omega arith;
}

pub Quiet-Balances : {id : String} {A : Type 0} {m : M A} → Quiet id A m → Balances id A m
Quiet-Balances q = record { at = λ w. Logs-Agrees (q.at w) }

module _ {id : String} {A B : Type 0} where
  pub continue-Agrees :
      (r : Result A) (f : A → M B) (w w' : World)
      → ((a : A) → Balances id B (f a))
      → Agrees id (is_settled r) w w'
      → Agrees id (is_settled (continue r f w').0) w (continue r f w').1
  continue-Agrees (ok a) f w w' kf h = Agrees-trans h ((kf a).at w')
  continue-Agrees (err e) f w w' kf h = h

  pub Balances-bind :
      {m : M A} {f : A → M B}
      → Balances id A m
      → ((a : A) → Balances id B (f a))
      → Balances id B (m >>= f)
  unfolding ◌>>=◌
  Balances-bind {m} {f} km kf = record {
    at = λ w. continue-Agrees (m w).0 f w (m w).1 kf (km.at w);
  }
