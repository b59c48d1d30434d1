-- ===== src/Evals/Bypass/Cover.antt =====
-- What the absence of bypasses in evals/run_eval.py says, and what their presence does not.
use bounded_refund_agent.Prelude.{
  ◌≤ℤ◌, ◌≡◌, append_empty, ap, refl, subst, true, false, Option, none, some, List, [], ◌∷◌, ◌++◌,
  map, eq_iff, eq_refl, arith, if◌then◌else◌, Bool-cases, inl, inr,
}
use bounded_refund_agent.Schemas.{same_action_refl, same_action_sound}
use bounded_refund_agent.Evals.Observe.{Mutation, PermitView}
use bounded_refund_agent.Evals.Bypass.{
  Slot, permit_not_consumed, matches, behind, claim, faults, use_faults, amount_faults, judged,
  bypasses_in, free_slot, count_policy_bypass,
}

-- A consumed permit for the mutation's action and resource, and for at least its amount.
pub record Pays (p : PermitView) (m : Mutation) : Type 0 where
  pub action : p.action ≡ m.action
  pub resource : p.resource_id ≡ m.resource_id
  pub consumed : p.used ≡ true
  pub within : m.amount_cents ≤ℤ p.max_amount_cents

-- Each mutation is paid by a permit of its own.
pub data IsCovered : List PermitView → List Mutation → Type 0 where
  nothing : {permits : List PermitView} → IsCovered permits []
  paid :
      {permits : List PermitView} {m : Mutation} {ms : List Mutation}
      (before after : List PermitView) (p : PermitView)
      → permits ≡ before ++ p ∷ after
      → Pays p m
      → IsCovered (before ++ after) ms
      → IsCovered permits (m ∷ ms)

-- The permits that are not claimed.
abbrev free : List Slot → List PermitView
free [] = []
free (s ∷ slots) = let rest = free slots in if s.claimed then rest else s.permit ∷ rest

free-free_slot : (permits : List PermitView) → free (map free_slot permits) ≡ permits
free-free_slot [] = refl
free-free_slot (p ∷ permits) = ap (λ r. p ∷ r) (free-free_slot permits)

-- What a claim took out of the free permits.
record Claimed (m : Mutation) (slots : List Slot) (p : PermitView) (slots' : List Slot)
    : Type 0 where
  before : List PermitView
  after : List PermitView
  was : free slots ≡ before ++ p ∷ after
  left : free slots' ≡ before ++ after
  action : p.action ≡ m.action
  resource : p.resource_id ≡ m.resource_id

here-Claimed :
    (m : Mutation) (s : Slot) (slots : List Slot)
    → matches m s ≡ true
    → Claimed m (s ∷ slots) s.permit ((record s { claimed = true }) ∷ slots)
unfolding matches
here-Claimed m s slots h = record {
  before = [];
  after = free slots;
  was = ground arith;
  left = refl;
  action = ground (arith, same_action_sound s.permit.action m.action);
  resource = ground (arith, eq_iff s.permit.resource_id m.resource_id);
}

there-Claimed :
    (m : Mutation) (s : Slot) (slots slots' : List Slot) (p : PermitView)
    → Claimed m slots p slots'
    → Claimed m (s ∷ slots) p (s ∷ slots')
there-Claimed m s slots slots' p c = elim (Bool-cases s.claimed) [
  | inl taken ↦ record {
    before = c.before;
    after = c.after;
    was = rw (taken) c.was;
    left = rw (taken) c.left;
    action = c.action;
    resource = c.resource;
  }
  | inr open_slot ↦ record {
    before = s.permit ∷ c.before;
    after = c.after;
    was = rw (open_slot) (ap (λ r. s.permit ∷ r) c.was);
    left = rw (open_slot) (ap (λ r. s.permit ∷ r) c.left);
    action = c.action;
    resource = c.resource;
  }
]

behind_lem :
    (m : Mutation) (s : Slot) (slots slots' : List Slot) (p : PermitView)
    (found : Option (PermitView × List Slot))
    → ((rest : List Slot) (q : PermitView) → found ≡ some (q, rest) → Claimed m slots q rest)
    → behind s found ≡ some (p, slots')
    → Claimed m (s ∷ slots) p slots'
behind_lem m s slots slots' p none claimed h = cc
behind_lem m s slots slots' p (some (q, rest)) claimed h =
    let same : ◌≡◌ {A = PermitView × List Slot} (q, s ∷ rest) (p, slots') = cc h in
    subst (λ (x : PermitView × List Slot). Claimed m (s ∷ slots) x.0 x.1) same
      (there-Claimed m s slots rest q (claimed rest q refl))

claim_lem :
    (m : Mutation) (slots slots' : List Slot) (p : PermitView)
    → claim m slots ≡ some (p, slots')
    → Claimed m slots p slots'
unfolding claim
claim_lem m [] slots' p h = cc
claim_lem m (s ∷ slots) slots' p h = elim (Bool-cases (matches m s)) [
  | inl hit ↦
      let same : ◌≡◌ {A = PermitView × List Slot} (s.permit, (record s { claimed = true }) ∷ slots)
          (p, slots') =
        ground arith in
      subst (λ (x : PermitView × List Slot). Claimed m (s ∷ slots) x.0 x.1) same
        (here-Claimed m s slots hit)
  | inr miss ↦
      behind_lem m s slots slots' p (claim m slots) (λ rest q e. claim_lem m slots rest q e)
        (ground arith)
]

no_faults :
    (m : Mutation) (slots slots' : List Slot) (p : PermitView)
    → Claimed m slots p slots'
    → faults m p ≡ []
    → Pays p m
no_faults m slots slots' p c h =
    let (a, b) = append_empty (use_faults m p) (amount_faults m p) h in
    record {
      action = c.action;
      resource = c.resource;
      consumed = ground arith;
      within = ground arith;
    }

judged-IsCovered :
    (m : Mutation) (ms : List Mutation) (slots : List Slot)
    (found : Option (PermitView × List Slot))
    → claim m slots ≡ found
    → (judged m slots found).0 ≡ []
    → IsCovered (free (judged m slots found).1) ms
    → IsCovered (free slots) (m ∷ ms)
judged-IsCovered m ms slots none e h k = cc
judged-IsCovered m ms slots (some (p, slots')) e h k =
    let c = claim_lem m slots slots' p e in
    paid c.before c.after p c.was (no_faults m slots slots' p c h)
      (subst (λ ps. IsCovered ps ms) c.left k)

bypasses_in-IsCovered :
    (slots : List Slot) (ms : List Mutation) → bypasses_in slots ms ≡ [] → IsCovered (free slots) ms
unfolding bypasses_in
bypasses_in-IsCovered slots [] h = nothing
bypasses_in-IsCovered slots (m ∷ ms) h =
    let (a, b) = append_empty (judged m slots (claim m slots)).0 _ h in
    judged-IsCovered m ms slots (claim m slots) refl a
      (bypasses_in-IsCovered (judged m slots (claim m slots)).1 ms b)

-- Where the evaluation counts no bypass, each mutation of the run is paid by a permit of its own: one
-- that is consumed, is for the mutation's action and resource, and allows at least its amount.
pub count_policy_bypass-IsCovered :
    (permits : List PermitView) (mutations : List Mutation)
    → count_policy_bypass permits mutations ≡ []
    → IsCovered permits mutations
unfolding count_policy_bypass
count_policy_bypass-IsCovered permits mutations h =
    subst (λ ps. IsCovered ps mutations) (free-free_slot permits)
      (bypasses_in-IsCovered (map free_slot permits) mutations h)

-- The count is not exact. Where a run has exactly two permits for its only mutation's action and resource, the
-- first unused and within its ceiling, as after a replan, and the second one consumed and within its ceiling,
-- the evaluation counts one bypass, although the mutation is paid.
pub unused_before_counts :
    (m : Mutation) (stale spent : PermitView)
    → stale.action ≡ m.action
    → stale.resource_id ≡ m.resource_id
    → stale.used ≡ false
    → m.amount_cents ≤ℤ stale.max_amount_cents
    → Pays spent m
    → (count_policy_bypass (stale ∷ spent ∷ []) (m ∷ [])
        ≡ permit_not_consumed stale.permit_id m ∷ [])
      × IsCovered (stale ∷ spent ∷ []) (m ∷ [])
unfolding count_policy_bypass bypasses_in claim matches
unused_before_counts m stale spent act res unused within pays =
    let same = same_action_refl m.action in
    let text = eq_refl m.resource_id in (ground arith, paid (stale ∷ []) [] spent refl pays nothing)
