-- ===== src/Runtime/Host/Approvals.antt =====
-- What `validate_approval_resolution` lets a broker change.
use hermes_rs.Prelude.{
  ◌≡◌, ◌↔◌, ◌⊎◌, refl, ap, true, false, inl, inr, Option, none, some, List, [], ◌∷◌, suc, length,
  ok, PartialEq, string_eq, bool_eq, bool_beq_iff, nat_eq, nat_beq_iff, All, arith,
}
use hermes_rs.Domain.Id.{id_eq, id_beq_iff}
use hermes_rs.Domain.Effect.{
  PlannedToolCall, ApprovalRecord, pending, approval_beq_iff, arguments_eq, arguments_beq_iff,
  effect_eq,
}
use hermes_rs.Runtime.Broker.{ToolBroker}
use hermes_rs.Runtime.Host.{
  ToolHost, check_approval, check_resolved, check_all_resolved, validate_approval_resolution,
  resolve_approvals,
}
use hermes_rs.Runtime.Host.Identities.{plan_ids}

-- A pending requirement is decided by its own principal, for or against.
pub record IsDecision (before after : ApprovalRecord) : Type 0 where
  pub was_pending : pending before ≡ true
  pub decided : (after.decision ≡ "allow") ⊎ (after.decision ≡ "deny")
  pub same_required : before.required ≡ after.required
  pub same_principal : before.principal ≡ after.principal

-- What may become of an approval: a pending one is decided, and any other stays.
abbrev pub ApprovalStep : Option ApprovalRecord → Option ApprovalRecord → Type 0
ApprovalStep none none = Unit
ApprovalStep (some before) (some after) =
    IsDecision before after ⊎ ((pending before ≡ false) × (before ≡ after))
ApprovalStep none (some _) = ⊥
ApprovalStep (some _) none = ⊥

-- The resolved plan is the frozen one, but for a decision.
pub record Resolves {V : Type 0} (planned resolved : PlannedToolCall V) : Type 0 where
  pub same_call : planned.call_id ≡ resolved.call_id
  pub same_name : planned.name ≡ resolved.name
  pub same_arguments : planned.arguments ≡ resolved.arguments
  pub same_invocation : planned.invocation_id ≡ resolved.invocation_id
  pub same_effect : planned.effect ≡ resolved.effect
  pub approval : ApprovalStep planned.approval resolved.approval

abbrev pub AllResolve : {V : Type 0} → List (PlannedToolCall V) → List (PlannedToolCall V) → Type 0
AllResolve [] [] = Unit
AllResolve (planned ∷ plans) (resolved ∷ rest) = Resolves planned resolved × AllResolve plans rest
AllResolve [] (_ ∷ _) = ⊥
AllResolve (_ ∷ _) [] = ⊥

-- Nobody still has to decide.
abbrev pub IsSettled : Option ApprovalRecord → Type 0
IsSettled none = Unit
IsSettled (some a) = pending a ≡ false

decided-IsSettled :
    (a : ApprovalRecord) → (a.decision ≡ "allow") ⊎ (a.decision ≡ "deny") → pending a ≡ false
unfolding pending
decided-IsSettled a (inl e) = rw e refl
decided-IsSettled a (inr e) = rw e refl

check_approval_iff :
    (before after : Option ApprovalRecord)
    → (check_approval before after ≡ ok tt) ↔ ApprovalStep before after
unfolding check_approval
check_approval_iff none none = (λ _. tt, λ _. refl)
check_approval_iff none (some after) = (λ h. absurd (cc), λ h. absurd h)
check_approval_iff (some before) none = (λ h. absurd (cc), λ h. absurd h)
check_approval_iff (some before) (some after) = ground (
  arith,
  decided-IsSettled after,
  string_eq.eq_iff_same after.decision "allow",
  string_eq.eq_iff_same after.decision "deny",
  bool_beq_iff before.required after.required,
  string_eq.eq_iff_same before.principal after.principal,
  approval_beq_iff before after,
)

step-IsSettled :
    (before after : Option ApprovalRecord) → ApprovalStep before after → IsSettled after
step-IsSettled none none h = tt
step-IsSettled none (some _) h = absurd h
step-IsSettled (some _) none h = absurd h
step-IsSettled (some before) (some after) (inl d) = decided-IsSettled after d.decided
step-IsSettled (some before) (some after) (inr (settled, same)) = rw same at settled

module _ {V : Type 0} ⦃e : PartialEq V⦄ where
  check_resolved_iff :
      (planned resolved : PlannedToolCall V)
      → (check_resolved planned resolved ≡ ok tt) ↔ Resolves planned resolved
  unfolding check_resolved
  check_resolved_iff planned resolved = ground (
    arith,
    id_beq_iff planned.call_id resolved.call_id,
    string_eq.eq_iff_same planned.name resolved.name,
    arguments_beq_iff planned.arguments resolved.arguments,
    id_beq_iff planned.invocation_id resolved.invocation_id,
    effect_eq.eq_iff_same planned.effect resolved.effect,
    check_approval_iff planned.approval resolved.approval,
  )

  check_all_resolved_iff :
      (planned resolved : List (PlannedToolCall V))
      → length planned ≡ length resolved
      → (check_all_resolved planned resolved ≡ ok tt) ↔ AllResolve planned resolved
  unfolding check_all_resolved
  check_all_resolved_iff [] [] same = (λ _. tt, λ _. refl)
  check_all_resolved_iff [] (_ ∷ _) same = absurd (omega arith)
  check_all_resolved_iff (_ ∷ _) [] same = absurd (omega arith)
  check_all_resolved_iff (p ∷ ps) (r ∷ rs) same =
      ground (arith, check_resolved_iff p r, check_all_resolved_iff ps rs)

  AllResolve-length :
      (planned resolved : List (PlannedToolCall V))
      → AllResolve planned resolved
      → length planned ≡ length resolved
  AllResolve-length [] [] h = refl
  AllResolve-length [] (_ ∷ _) h = absurd h
  AllResolve-length (_ ∷ _) [] h = absurd h
  AllResolve-length (p ∷ ps) (r ∷ rs) h = ap suc (AllResolve-length ps rs h.1)

  -- The check passes exactly when every plan comes back in its place unchanged but for a decision
  -- on a pending approval.
  pub validate_approval_resolution_iff :
      (planned resolved : List (PlannedToolCall V))
      → (validate_approval_resolution planned resolved ≡ ok tt) ↔ AllResolve planned resolved
  unfolding validate_approval_resolution
  validate_approval_resolution_iff planned resolved = ground (
    arith,
    nat_beq_iff (length planned) (length resolved),
    check_all_resolved_iff planned resolved,
    AllResolve-length planned resolved,
  )

  AllResolve-plan_ids :
      (planned resolved : List (PlannedToolCall V))
      → AllResolve planned resolved
      → plan_ids resolved ≡ plan_ids planned
  AllResolve-plan_ids [] [] h = refl
  AllResolve-plan_ids [] (_ ∷ _) h = absurd h
  AllResolve-plan_ids (_ ∷ _) [] h = absurd h
  AllResolve-plan_ids (p ∷ ps) (r ∷ rs) h = cc (h.0.same_invocation, AllResolve-plan_ids ps rs h.1)

  AllResolve-IsSettled :
      (planned resolved : List (PlannedToolCall V))
      → AllResolve planned resolved
      → All (λ r. IsSettled r.approval) resolved
  AllResolve-IsSettled [] [] h = tt
  AllResolve-IsSettled [] (_ ∷ _) h = absurd h
  AllResolve-IsSettled (_ ∷ _) [] h = absurd h
  AllResolve-IsSettled (p ∷ ps) (r ∷ rs) h =
      (step-IsSettled p.approval r.approval h.0.approval, AllResolve-IsSettled ps rs h.1)

  -- Whatever the broker, plans that the host returns from `resolve_approvals` are the planned ones
  -- but for decisions, carry the same invocation identities, and have no pending approval left.
  pub resolve_approvals-settles :
      {S : Type 0} (broker : ToolBroker V S) (host : ToolHost S)
      (planned resolved : List (PlannedToolCall V))
      → (resolve_approvals broker host planned).1 ≡ ok resolved
      → AllResolve planned resolved
        × (plan_ids resolved ≡ plan_ids planned)
        × All (λ r. IsSettled r.approval) resolved
  unfolding resolve_approvals
  resolve_approvals-settles broker host planned resolved h =
      let checked : validate_approval_resolution planned resolved ≡ ok tt = ground arith in
      let all = (validate_approval_resolution_iff planned resolved).0 checked in
      (all, AllResolve-plan_ids planned resolved all, AllResolve-IsSettled planned resolved all)
