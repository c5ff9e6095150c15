-- ===== src/Runtime/Host/Identities.antt =====
-- The invocation identities that `ToolHost::plan` issues.
use hermes_rs.Prelude.{
  ◌≡◌, ◌↔◌, refl, sym, ◌∙◌, ap, subst, String, false, Bool-cases, inl, inr, List, [], ◌∷◌, map,
  Result-cases, ok, All, Fresh, Distinct, contains, contains-eq-false_iff, list_beq_iff, arith,
}
use mathlib.Core.Path.{ap₂}
use hermes_rs.Domain.Id.{InvocationId, invocation, new_id, id_eq}
use hermes_rs.Domain.Effect.{ToolCall, PlannedToolCall}
use hermes_rs.Runtime.Broker.{ToolBroker}
use hermes_rs.Runtime.Host.{scoped, allocate_invocation_ids, validate_plans, ToolHost, plan}

-- The set after the insertions, the latest first.
abbrev pub insert_all : List InvocationId → List InvocationId → List InvocationId
insert_all [] seen = seen
insert_all (id ∷ ids) seen = insert_all ids (id ∷ seen)

pub Fresh-insert_all :
    (a : InvocationId) (ids seen : List InvocationId)
    → Fresh a (insert_all ids seen) ↔ (Fresh a ids × Fresh a seen)
Fresh-insert_all a [] seen = (λ h. (tt, h), λ h. h.1)
Fresh-insert_all a (id ∷ ids) seen =
    let (to, from) = Fresh-insert_all a ids (id ∷ seen) in
    (λ h. let t = to h in ((t.1.0, t.0), t.1.1), λ h. from (h.0.1, (h.0.0, h.1)))

abbrev pub plan_ids : {V : Type 0} → List (PlannedToolCall V) → List InvocationId
plan_ids = map λ plan. plan.invocation_id

-- Identities issued for `calls` when those of `seen` were taken.
pub record Issued {V : Type 0} (scope : String) (calls : List (ToolCall V))
    (seen ids : List InvocationId) : Type 0 where
  pub named : map (λ id. id.value) ids ≡ map (λ call. scoped scope call.id) calls
  pub unseen : All (λ id. Fresh id seen) ids
  pub distinct : Distinct ids

new_id-value : (s : String) (id : InvocationId) → new_id invocation s ≡ ok id → id.value ≡ s
unfolding new_id
new_id-value s id h = ground arith

unseen_cons :
    (a : InvocationId) (seen ids : List InvocationId)
    → All (λ id. Fresh id (a ∷ seen)) ids
    → Fresh a ids × All (λ id. Fresh id seen) ids
unseen_cons a seen [] h = (tt, tt)
unseen_cons a seen (id ∷ ids) h =
    let (fresh, rest) = unseen_cons a seen ids h.1 in ((λ e. h.0.0 (sym e), fresh), (h.0.1, rest))

module _ {V : Type 0} (scope : String) where
  -- The parts of a successful allocation.
  allocate-cons :
      (call : ToolCall V) (calls : List (ToolCall V)) (seen ids : List InvocationId)
      → (allocate_invocation_ids scope (call ∷ calls) seen).1 ≡ ok ids
      → (id : InvocationId) × (rest : List InvocationId) × (new_id invocation (scoped scope call.id)
          ≡ ok id)
        × (contains id seen ≡ false)
        × ((allocate_invocation_ids scope calls (id ∷ seen)).1 ≡ ok rest)
        × (ids ≡ id ∷ rest)
        × ((allocate_invocation_ids scope (call ∷ calls) seen).0
            ≡ (allocate_invocation_ids scope calls (id ∷ seen)).0)
  unfolding allocate_invocation_ids
  allocate-cons call calls seen ids h = ground arith

  pub allocate-ok :
      (calls : List (ToolCall V)) (seen ids : List InvocationId)
      → (allocate_invocation_ids scope calls seen).1 ≡ ok ids
      → Issued scope calls seen ids
        × ((allocate_invocation_ids scope calls seen).0 ≡ insert_all ids seen)
  unfolding allocate_invocation_ids
  allocate-ok [] seen [] h = (record { named = refl; unseen = tt; distinct = tt }, refl)
  allocate-ok [] seen (id ∷ ids) h = absurd (cc)
  allocate-ok (call ∷ calls) seen ids h =
      let (id, rest, made, free, others, same, grown) = allocate-cons call calls seen ids h in
      let (issued, inserted) = allocate-ok calls (id ∷ seen) rest others in
      let (fresh, unseen) = unseen_cons id seen rest issued.unseen in
      rw same (
        record {
          named = ap₂ ◌∷◌ (new_id-value _ id made) issued.named;
          unseen = ((contains-eq-false_iff id seen).0 free, unseen);
          distinct = (fresh, issued.distinct);
        },
        grown ∙ inserted,
      )

  -- A failed allocation also only adds to the set.
  allocate-grows :
      (calls : List (ToolCall V)) (seen : List InvocationId)
      → (ids : List InvocationId) × ((allocate_invocation_ids scope calls seen).0
          ≡ insert_all ids seen)
  unfolding allocate_invocation_ids
  allocate-grows [] seen = ([], refl)
  allocate-grows (call ∷ calls) seen =
      elim (Result-cases (new_id invocation (scoped scope call.id))) [
        | inr (e, bad) ↦ ([], rw (bad, allocate_invocation_ids) refl)
        | inl (id, made) ↦ elim (Bool-cases (contains id seen)) [
          | inl taken ↦ ([], rw (made, taken, allocate_invocation_ids) refl)
          | inr free ↦
              let (ids, grown) = allocate-grows calls (id ∷ seen) in
              (id ∷ ids, rw (made, free, allocate_invocation_ids) grown)
        ]
      ]

pub validate_plans_iff :
    {V : Type 0} (calls : List (ToolCall V)) (ids : List InvocationId)
    (plans : List (PlannedToolCall V))
    → (validate_plans calls ids plans ≡ ok tt)
      ↔ ((map (λ call. call.id) calls ≡ map (λ plan. plan.call_id) plans) × (ids ≡ plan_ids plans))
unfolding validate_plans
validate_plans_iff calls ids plans = ground (
  arith,
  list_beq_iff (map (λ call. call.id) calls) (map (λ plan. plan.call_id) plans),
  list_beq_iff ids (plan_ids plans),
)

-- What a host knows of plans that it returned, and of its state afterwards.
pub record IsPlanned {V S : Type 0} (host after : ToolHost S) (calls : List (ToolCall V))
    (plans : List (PlannedToolCall V)) : Type 0 where
  pub order : map (λ call. call.id) calls ≡ map (λ plan. plan.call_id) plans
  pub issued : Issued host.execution_scope calls host.seen_invocation_ids (plan_ids plans)
  pub grown : after.seen_invocation_ids ≡ insert_all (plan_ids plans) host.seen_invocation_ids
  pub same_scope : after.execution_scope ≡ host.execution_scope

module _ {V S : Type 0} (broker : ToolBroker V S) where
  plan-parts :
      (host : ToolHost S) (calls : List (ToolCall V)) (plans : List (PlannedToolCall V))
      → (plan broker host calls).1 ≡ ok plans
      → (ids : List InvocationId) × ((allocate_invocation_ids host.execution_scope calls
            host.seen_invocation_ids).1
          ≡ ok ids)
        × (validate_plans calls ids plans ≡ ok tt)
  unfolding plan
  plan-parts host calls plans h = ground arith

  plan-state :
      (host : ToolHost S) (calls : List (ToolCall V))
      → ((plan broker host calls).0.seen_invocation_ids
          ≡ (allocate_invocation_ids host.execution_scope calls host.seen_invocation_ids).0)
        × ((plan broker host calls).0.execution_scope ≡ host.execution_scope)
  unfolding plan
  plan-state host calls = ground arith

  pub plan-grows :
      (host : ToolHost S) (calls : List (ToolCall V))
      → (ids : List InvocationId) × ((plan broker host calls).0.seen_invocation_ids
          ≡ insert_all ids host.seen_invocation_ids)
  plan-grows host calls =
      let (ids, grown) = allocate-grows host.execution_scope calls host.seen_invocation_ids in
      (ids, (plan-state host calls).0 ∙ grown)

  pub plan-IsPlanned :
      (host : ToolHost S) (calls : List (ToolCall V)) (plans : List (PlannedToolCall V))
      → (plan broker host calls).1 ≡ ok plans
      → IsPlanned host (plan broker host calls).0 calls plans
  plan-IsPlanned host calls plans h =
      let (ids, allocated, valid) = plan-parts host calls plans h in
      let (order, same) = (validate_plans_iff calls ids plans).0 valid in
      let (issued, inserted) =
        allocate-ok host.execution_scope calls host.seen_invocation_ids ids allocated in
      let (seen, scope) = plan-state host calls in
      record {
        order = order;
        issued = subst (Issued host.execution_scope calls host.seen_invocation_ids) same issued;
        grown = seen ∙ inserted ∙ ap (λ x. insert_all x host.seen_invocation_ids) same;
        same_scope = scope;
      }
