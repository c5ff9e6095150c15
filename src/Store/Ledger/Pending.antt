-- ===== src/Store/Ledger/Pending.antt =====
-- `pending` of apps/hermesd/src/adapters/sqlite.rs gives back the plans that `record_plans` wrote.
use mathlib.Core.List.Perm
use mathlib.Core.List.{Perm}
use hermes_rs.Prelude.{
  ℕ, ◌≡◌, refl, sym, ◌∙◌, ap, subst, String, Bool, Option, some, none, List, [], ◌∷◌, ◌++◌, map, ok,
  traverse, >>=-eq-ok, ok-injective, All, PartialEq, arith, ◌==◌, string_eq, select,
}
use hermes_rs.Domain.Id.{IdError, tool_call, invocation, new_id}
use hermes_rs.Domain.Effect.{ToolArguments, ToolEffect, ApprovalRecord, PlannedToolCall}
use hermes_rs.Store.Table.{Codec, IsCoded, order_by}
use hermes_rs.Store.Table.Ordered.{traverse-cons, traverse-append, traverse-order_by, order_by-Perm}
use hermes_rs.Store.Ledger.{
  EffectRow, PendingEffect, plan_row, record_plans, pending_effect, pending_effects, transpose,
  planned_before,
}
use hermes_rs.Store.Ledger.Evolution.{record_plans-eq-ok}
use hermes_rs.Store.Ledger.Keys.{plan_row-eq-ok}

abbrev waits : EffectRow → Bool
waits row = row.status == "planned"

select-append :
    (rows more : List EffectRow)
    → select waits (rows ++ more) ≡ select waits rows ++ select waits more
unfolding select
select-append [] more = refl
select-append (row ∷ rows) more = ground (arith, select-append rows more)

select-all :
    (rows : List EffectRow) → All (λ row. row.status ≡ "planned") rows → select waits rows ≡ rows
unfolding select
select-all [] h = refl
select-all (row ∷ rows) h =
    ground (arith, select-all rows h.1, string_eq.eq_iff_same row.status "planned", h.0)

module _ {V : Type 0} ⦃e : PartialEq V⦄ (arguments : Codec (ToolArguments V))
    (effects : Codec ToolEffect) (approvals : Codec ApprovalRecord) where
  -- `serde_json` reads back what it wrote of the plan, and its identifiers are valid.
  pub record IsStorable (plan : PlannedToolCall V) : Type 0 where
    pub arguments_coded : IsCoded arguments plan.arguments
    pub effect_coded : IsCoded effects plan.effect
    pub approval_coded :
        (approval : ApprovalRecord) → plan.approval ≡ some approval → IsCoded approvals approval
    pub valid_call : new_id tool_call plan.call_id.value ≡ ok plan.call_id
    pub valid_key : new_id invocation plan.invocation_id.value ≡ ok plan.invocation_id

  coded-decode :
      {A : Type 0} (codec : Codec A) (a : A) (text : String)
      → IsCoded codec a
      → codec.encode a ≡ ok text
      → codec.decode text ≡ ok a
  coded-decode codec a text coded h =
      subst (λ t. codec.decode t ≡ ok a) (ok-injective (sym coded.encoded ∙ h)) coded.decoded

  approval-decode :
      (approval : Option ApprovalRecord) (text : Option String)
      → ((a : ApprovalRecord) → approval ≡ some a → IsCoded approvals a)
      → transpose approvals.encode approval ≡ ok text
      → transpose approvals.decode text ≡ ok approval
  unfolding transpose
  approval-decode none text coded h =
      subst (λ t. transpose approvals.decode t ≡ ok none) (ok-injective h) refl
  approval-decode (some a) text coded h =
      let (written, encoded, same) = >>=-eq-ok (approvals.encode a) _ h in
      let read = coded-decode approvals a written (coded a refl) encoded in
      subst (λ t. transpose approvals.decode t ≡ ok (some a)) (ok-injective same)
        (rw (transpose, read) refl)

  abbrev pub in_scope : String → PlannedToolCall V → PendingEffect V
  in_scope scope plan = record { execution_scope = scope; plan = plan }

  pending_effect-plan_row :
      (display : IdError → String) (now : ℕ) (scope : String) (plan : PlannedToolCall V)
      (row : EffectRow)
      → plan_row arguments effects approvals now scope plan ≡ ok row
      → IsStorable plan
      → pending_effect arguments effects approvals display row ≡ ok (in_scope scope plan)
  unfolding pending_effect
  pending_effect-plan_row display now scope plan row made storable =
      let (
        arguments_json, effect_json, approval_json, key, scope', call, name, status, content, time,
      ) =
        plan_row-eq-ok arguments effects approvals now scope plan row made in
      let arguments_read =
        coded-decode arguments plan.arguments row.arguments_json storable.arguments_coded
          arguments_json in
      let effect_read =
        coded-decode effects plan.effect row.effect_json storable.effect_coded effect_json in
      let approval_read =
        approval-decode plan.approval row.approval_json storable.approval_coded approval_json in
      rw
        (
          pending_effect, call, key, scope', name, storable.valid_call, storable.valid_key,
          arguments_read, effect_read, approval_read,
        )
        refl

  traverse-plan_row :
      (display : IdError → String) (now : ℕ) (scope : String) (plans : List (PlannedToolCall V))
      (rows : List EffectRow)
      → traverse (plan_row arguments effects approvals now scope) plans ≡ ok rows
      → All IsStorable plans
      → All (λ row. row.status ≡ "planned") rows
        × (traverse (pending_effect arguments effects approvals display) rows
            ≡ ok (map (in_scope scope) plans))
  unfolding traverse
  traverse-plan_row display now scope [] rows made storable =
      subst
        (λ rows.
          All (λ row. row.status ≡ "planned") rows
          × (traverse (pending_effect arguments effects approvals display) rows ≡ ok []))
        (ok-injective made) (tt, refl)
  traverse-plan_row display now scope (plan ∷ plans) rows made storable =
      let (row, one, h1) = >>=-eq-ok (plan_row arguments effects approvals now scope plan) _ made in
      let (rest, others, h2) =
        >>=-eq-ok (traverse (plan_row arguments effects approvals now scope) plans) _ h1 in
      let (
        arguments_json, effect_json, approval_json, key, scope', call, name, status, content, time,
      ) =
        plan_row-eq-ok arguments effects approvals now scope plan row one in
      let (planned, read) = traverse-plan_row display now scope plans rest others storable.1 in
      subst
        (λ rows.
          All (λ row. row.status ≡ "planned") rows
          × (traverse (pending_effect arguments effects approvals display) rows
              ≡ ok (in_scope scope plan ∷ map (in_scope scope) plans)))
        (ok-injective h2)
        (
          (status, planned),
          traverse-cons (pending_effect arguments effects approvals display) row rest
              (in_scope scope plan) (map (in_scope scope) plans)
              (pending_effect-plan_row display now scope plan row one storable.0) read,
        )

  -- When `record_plans` succeeds on a table that `pending` can read, with plans that can be stored,
  -- `pending` can read the new table, and gives what it gave before and exactly the recorded plans
  -- under their scope, in some order.
  pub pending_effects-record_plans :
      (display : IdError → String) (now : ℕ) (rows : List EffectRow) (scope : String)
      (plans : List (PlannedToolCall V)) (rows' : List EffectRow) (before : List (PendingEffect V))
      → All IsStorable plans
      → pending_effects arguments effects approvals display rows ≡ ok before
      → record_plans arguments effects approvals now rows scope plans ≡ ok rows'
      → (after : List (PendingEffect V)) × (pending_effects arguments effects approvals display
            rows'
          ≡ ok after)
        × Perm after (before ++ map (in_scope scope) plans)
  unfolding pending_effects
  pending_effects-record_plans display now rows scope plans rows' before storable read done =
      let f = pending_effect arguments effects approvals display in
      let (distinct, absent, inserted, made, same) =
        record_plans-eq-ok arguments effects approvals now rows scope plans rows' done in
      let (planned, new_read) = traverse-plan_row display now scope plans inserted made storable in
      let (old, old_read, old_order) =
        order_by-Perm planned_before f (select waits rows) before read in
      let all_read =
        traverse-append f (select waits rows) inserted old (map (in_scope scope) plans) old_read
          new_read in
      let (after, ordered, order) =
        traverse-order_by planned_before f (select waits rows ++ inserted)
          (old ++ map (in_scope scope) plans) all_read in
      let selected : select waits rows ++ inserted ≡ select waits rows' =
        ap (λ more. select waits rows ++ more) (sym (select-all inserted planned))
        ∙ sym (select-append rows inserted)
        ∙ ap (select waits) same in
      (
        after,
        subst (λ table. traverse f (order_by planned_before table) ≡ ok after) selected ordered,
        Perm.trans order (Perm.append_right (map (in_scope scope) plans) (Perm.symm old_order)),
      )
