-- ===== src/Failures/Budget.antt =====
-- The budgets of `FailureInjector` of simulator/failures.py.
use bounded_refund_agent.Prelude.{inl, ◌≤◌, ◌⊎◌, ℕ, zero, suc, ltb, ◌≡◌, ap, refl, true, arith}
use bounded_refund_agent.Schemas.{ActionName, ReadTool, same_action_refl}
use bounded_refund_agent.Failures.{
  FailureSpec, FailureInjector, new_injector, read_should_fail, should_timeout_after_commit,
  same_tool,
}

-- The injector after `n` reads by the tool.
unfoldable pub after_reads : ReadTool → ℕ → FailureInjector → FailureInjector
unfolding read_should_fail
after_reads tool zero i = i
after_reads tool (suc n) i = (read_should_fail tool (after_reads tool n i)).1

-- The injector after `n` commits of the action.
unfoldable pub after_commits : ActionName → ℕ → FailureInjector → FailureInjector
unfolding should_timeout_after_commit
after_commits action zero i = i
after_commits action (suc n) i = (should_timeout_after_commit action (after_commits action n i)).1

pub same_tool_refl : (t : ReadTool) → same_tool t t ≡ true
unfolding same_tool
same_tool_refl t = ground arith

record Counted (spec : FailureSpec) (tool : ReadTool) (n : ℕ) (i : FailureInjector) : Type 0 where
  kept : i.spec ≡ spec
  seen : i.read_calls tool ≡ n

count_read :
    (spec : FailureSpec) (tool : ReadTool) (n : ℕ) (i : FailureInjector)
    → Counted spec tool n i
    → Counted spec tool (suc n) (read_should_fail tool i).1
unfolding read_should_fail
count_read spec tool n i c =
    let same = same_tool_refl tool in
    let k = c.kept in let s = c.seen in record { kept = ground arith; seen = ground arith }

counted :
    (spec : FailureSpec) (tool : ReadTool) (n : ℕ)
    → Counted spec tool n (after_reads tool n (new_injector spec))
unfolding after_reads new_injector
counted spec tool zero = record { kept = refl; seen = refl }
counted spec tool (suc n) =
    count_read spec tool n (after_reads tool n (new_injector spec)) (counted spec tool n)

answers_read :
    (spec : FailureSpec) (tool : ReadTool) (n : ℕ) (i : FailureInjector)
    → Counted spec tool n i
    → (read_should_fail tool i).0 ≡ ltb n (spec.read_timeouts tool)
unfolding read_should_fail
answers_read spec tool n i c =
    let k = ap (λ (s : FailureSpec). s.read_timeouts tool) c.kept in let s = c.seen in ground arith

-- After any number of reads by a tool, a new injector fails the next one exactly when there were
-- fewer than its specification says for that tool.
read_should_fail-budget :
    (spec : FailureSpec) (tool : ReadTool) (n : ℕ)
    → (read_should_fail tool (after_reads tool n (new_injector spec))).0
      ≡ ltb n (spec.read_timeouts tool)
read_should_fail-budget spec tool n =
    answers_read spec tool n (after_reads tool n (new_injector spec)) (counted spec tool n)

record CountedCommits (spec : FailureSpec) (action : ActionName) (n : ℕ) (i : FailureInjector)
    : Type 0 where
  kept : i.spec ≡ spec
  seen :
      ((i.post_commit_fired action ≡ n) × (n ≤ spec.post_commit_timeout_actions action))
      ⊎ ((i.post_commit_fired action ≡ spec.post_commit_timeout_actions action)
          × (spec.post_commit_timeout_actions action ≤ n))

count_commit :
    (spec : FailureSpec) (action : ActionName) (n : ℕ) (i : FailureInjector)
    → CountedCommits spec action n i
    → CountedCommits spec action (suc n) (should_timeout_after_commit action i).1
unfolding should_timeout_after_commit
count_commit spec action n i c =
    let same = same_action_refl action in
    let k = c.kept in
    let b = ap (λ (s : FailureSpec). s.post_commit_timeout_actions action) c.kept in
    let s = c.seen in record { kept = ground arith; seen = ground arith }

counted_commits :
    (spec : FailureSpec) (action : ActionName) (n : ℕ)
    → CountedCommits spec action n (after_commits action n (new_injector spec))
unfolding after_commits new_injector
counted_commits spec action zero = record { kept = refl; seen = inl (refl, ground arith) }
counted_commits spec action (suc n) =
    count_commit spec action n (after_commits action n (new_injector spec))
      (counted_commits spec action n)

answers_commit :
    (spec : FailureSpec) (action : ActionName) (n : ℕ) (i : FailureInjector)
    → CountedCommits spec action n i
    → (should_timeout_after_commit action i).0 ≡ ltb n (spec.post_commit_timeout_actions action)
unfolding should_timeout_after_commit
answers_commit spec action n i c =
    let b = ap (λ (s : FailureSpec). s.post_commit_timeout_actions action) c.kept in
    let s = c.seen in ground arith

-- After any number of commits of an action, a new injector loses the response of the next one exactly
-- when there were fewer than its specification says for that action.
should_timeout-budget :
    (spec : FailureSpec) (action : ActionName) (n : ℕ)
    → (should_timeout_after_commit action (after_commits action n (new_injector spec))).0
      ≡ ltb n (spec.post_commit_timeout_actions action)
should_timeout-budget spec action n =
    answers_commit spec action n (after_commits action n (new_injector spec))
      (counted_commits spec action n)

-- After any number of reads by a tool, a new injector fails the next one exactly when there were fewer
-- than its specification says for that tool; and after any number of commits of an action, it loses the
-- response of the next one exactly when there were fewer than its specification says for that action.
pub new_injector-budgets :
    (spec : FailureSpec) (tool : ReadTool) (action : ActionName) (n : ℕ)
    → ((read_should_fail tool (after_reads tool n (new_injector spec))).0
        ≡ ltb n (spec.read_timeouts tool))
      × ((should_timeout_after_commit action (after_commits action n (new_injector spec))).0
          ≡ ltb n (spec.post_commit_timeout_actions action))
new_injector-budgets spec tool action n =
    (read_should_fail-budget spec tool n, should_timeout-budget spec action n)
