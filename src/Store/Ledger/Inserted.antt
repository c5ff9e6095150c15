-- ===== src/Store/Ledger/Inserted.antt =====
-- The rows that `record_plans` of apps/hermesd/src/adapters/sqlite.rs inserts.
use hermes_rs.Prelude.{
  ℕ, ◌≡◌, ◌≢◌, sym, ◌∙◌, subst, String, some, none, List, [], ◌∷◌, ◌++◌, map, ok, traverse,
  >>=-eq-ok, ok-injective, All, Fresh, Distinct, PartialEq, arith, string_eq,
}
use hermes_rs.Domain.Effect.{ToolArguments, ToolEffect, ApprovalRecord, PlannedToolCall}
use hermes_rs.Store.Table.{Codec, find_row, find_row-append_new}
use hermes_rs.Store.Ledger.{EffectRow, find_effect, plan_row, record_plans}
use hermes_rs.Store.Ledger.Evolution.{record_plans-eq-ok}
use hermes_rs.Store.Ledger.Keys.{
  key_of, Distinct-values, check_absent-eq-ok, check_keys-Distinct, plan_row-eq-ok,
}

find_effect-here :
    (key : String) (row : EffectRow) (rows : List EffectRow)
    → row.execution_key ≡ key
    → find_effect key (row ∷ rows) ≡ some row
unfolding find_row
find_effect-here key row rows same = ground (arith, string_eq.eq_iff_same row.execution_key key)

find_effect-there :
    (key : String) (row : EffectRow) (rows : List EffectRow)
    → row.execution_key ≢ key
    → find_effect key (row ∷ rows) ≡ find_effect key rows
unfolding find_row
find_effect-there key row rows other = ground (arith, string_eq.eq_iff_same row.execution_key key)

module _ {V : Type 0} ⦃e : PartialEq V⦄ (arguments : Codec (ToolArguments V))
    (effects : Codec ToolEffect) (approvals : Codec ApprovalRecord) (now : ℕ) (scope : String) where
  abbrev pub insert_key : PlannedToolCall V → String
  insert_key = key_of λ plan. plan.invocation_id

  -- The row of a plan, as the statement inserts it, stands in the table under the plan's key.
  pub record IsInserted (rows : List EffectRow) (plan : PlannedToolCall V) : Type 0 where
    pub row : EffectRow
    pub found : find_effect plan.invocation_id.value rows ≡ some row
    pub made : plan_row arguments effects approvals now scope plan ≡ ok row

  IsInserted-there :
      (row : EffectRow) (rows : List EffectRow) (plans : List (PlannedToolCall V))
      → Fresh row.execution_key (map insert_key plans)
      → All (IsInserted rows) plans
      → All (IsInserted (row ∷ rows)) plans
  IsInserted-there row rows [] fresh h = tt
  IsInserted-there row rows (plan ∷ plans) fresh h = (
    record {
      row = h.0.row;
      found = find_effect-there plan.invocation_id.value row rows fresh.0 ∙ h.0.found;
      made = h.0.made;
    },
    IsInserted-there row rows plans fresh.1 h.1,
  )

  traverse-IsInserted :
      (plans : List (PlannedToolCall V)) (rows : List EffectRow)
      → traverse (plan_row arguments effects approvals now scope) plans ≡ ok rows
      → Distinct (map insert_key plans)
      → All (IsInserted rows) plans
  unfolding traverse
  traverse-IsInserted [] rows h distinct = tt
  traverse-IsInserted (plan ∷ plans) rows h distinct =
      let (row, made, h1) = >>=-eq-ok (plan_row arguments effects approvals now scope plan) _ h in
      let (rest, all_made, h2) =
        >>=-eq-ok (traverse (plan_row arguments effects approvals now scope) plans) _ h1 in
      let (args, effect, approval, key, scope', call, name, status, content, time) =
        plan_row-eq-ok arguments effects approvals now scope plan row made in
      subst (λ rows. All (IsInserted rows) (plan ∷ plans)) (ok-injective h2)
        (
          record {
            row = row;
            found = find_effect-here plan.invocation_id.value row rest key;
            made = made;
          },
          IsInserted-there row rest plans
              (subst (λ k. Fresh k (map insert_key plans)) (sym key) distinct.0)
              (traverse-IsInserted plans rest all_made distinct.1),
        )

  IsInserted-append :
      (rows inserted : List EffectRow) (plans : List (PlannedToolCall V))
      → All (λ plan. find_effect plan.invocation_id.value rows ≡ none) plans
      → All (IsInserted inserted) plans
      → All (IsInserted (rows ++ inserted)) plans
  IsInserted-append rows inserted [] absent h = tt
  IsInserted-append rows inserted (plan ∷ plans) absent h = (
    record {
      row = h.0.row;
      found =
          find_row-append_new (λ row. row.execution_key) plan.invocation_id.value rows inserted
            absent.0
          ∙ h.0.found;
      made = h.0.made;
    },
    IsInserted-append rows inserted plans absent.1 h.1,
  )

  pub record_plans-IsInserted :
      (rows : List EffectRow) (plans : List (PlannedToolCall V)) (rows' : List EffectRow)
      → record_plans arguments effects approvals now rows scope plans ≡ ok rows'
      → All (IsInserted rows') plans
  record_plans-IsInserted rows plans rows' done =
      let (distinct, absent, inserted, made, same) =
        record_plans-eq-ok arguments effects approvals now rows scope plans rows' done in
      let new_keys =
        Distinct-values (λ plan. plan.invocation_id) plans
          (check_keys-Distinct "plan batch" [] (map (λ plan. plan.invocation_id) plans)
            distinct).0 in
      subst (λ rows. All (IsInserted rows) plans) same
        (IsInserted-append rows inserted plans (check_absent-eq-ok rows plans absent)
          (traverse-IsInserted plans inserted made new_keys))
