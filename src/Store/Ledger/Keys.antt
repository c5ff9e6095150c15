-- ===== src/Store/Ledger/Keys.antt =====
-- The constraints of the table `tool_effects` (apps/hermesd/src/adapters/sqlite.rs): `execution_key` is
-- the primary key, and a row is planned just when it has no content and no time of completion.
use hermes_rs.Prelude.{
  ℕ, ◌≡◌, ◌≢◌, refl, sym, ap, subst, String, none, some, List, [], ◌∷◌, map, ok, traverse,
  >>=-eq-ok, ok-injective, Option-cases, inl, inr, arith, string_eq, nat_eq, contains,
  contains-eq-false_iff, All, Fresh, Distinct, Distinct-append, All-append, All-map, PartialEq,
  Bool-cases,
}
use mathlib.Core.List.{map-append}
use hermes_rs.Domain.Id.{InvocationId, id_eq}
use hermes_rs.Domain.Effect.{
  ToolArguments, ToolEffect, ApprovalRecord, PlannedToolCall, ToolTerminal, ToolResultStatus,
}
use hermes_rs.Runtime.Projection.{status_name}
use hermes_rs.Store.Table.{Codec, find_row-none_iff, update, keys-update, All-update}
use hermes_rs.Store.Ledger.{
  EffectRow, find_effect, is_planned, approve_row, apply_updates, complete_row, complete_rows,
  check_keys, record_terminals, check_absent, plan_row, record_plans, transpose,
}
use hermes_rs.Store.Ledger.Approve.{record_approvals}
use hermes_rs.Store.Ledger.Evolution.{
  apply_updates-kept, complete_rows-kept, record_terminals-eq-ok, record_plans-eq-ok,
  record_approvals-eq-ok,
}

abbrev pub row_keys : List EffectRow → List String
row_keys = map λ row. row.execution_key

-- The table's `CHECK` on the columns of a disposition.
pub data IsChecked (row : EffectRow) : Type 0 where
  waiting : row.status ≡ "planned" → row.content ≡ none → row.completed_at ≡ none → IsChecked row
  settled :
      row.status ≢ "planned"
      → (content : String) → row.content ≡ some content
      → (time : ℕ) → row.completed_at ≡ some time
      → IsChecked row

pub record IsLedger (rows : List EffectRow) : Type 0 where
  pub distinct_keys : Distinct (row_keys rows)
  pub checked : All IsChecked rows

pub status_name-not_planned : (status : ToolResultStatus) → status_name status ≢ "planned"
unfolding status_name
status_name-not_planned ToolResultStatus.succeeded h = absurd (cc)
status_name-not_planned ToolResultStatus.failed h = absurd (cc)
status_name-not_planned ToolResultStatus.cancelled h = absurd (cc)
status_name-not_planned ToolResultStatus.rejected h = absurd (cc)
status_name-not_planned ToolResultStatus.outcome_unknown h = absurd (cc)
status_name-not_planned ToolResultStatus.observed h = absurd (cc)

IsChecked-approved :
    (row : EffectRow) (text : String)
    → IsChecked row
    → IsChecked (record row { approval_json = some text })
IsChecked-approved row text (waiting p c t) = waiting p c t
IsChecked-approved row text (settled p content c time t) = settled p content c time t

update-IsLedger :
    (key : String) (change : EffectRow → EffectRow) (rows : List EffectRow)
    → ((row : EffectRow) → (change row).execution_key ≡ row.execution_key)
    → ((row : EffectRow) → IsChecked row → IsChecked (change row))
    → IsLedger rows
    → IsLedger (update (is_planned key) change rows)
update-IsLedger key change rows keeps checks h = record {
  distinct_keys =
      subst Distinct
        (sym (keys-update (is_planned key) change (λ row. row.execution_key) keeps rows))
        h.distinct_keys;
  checked = All-update (is_planned key) change IsChecked (λ row _. checks row) rows h.checked;
}

apply_updates-IsLedger :
    (changes : List (String × String)) (rows rows' : List EffectRow)
    → apply_updates rows changes ≡ ok rows'
    → IsLedger rows
    → IsLedger rows'
apply_updates-IsLedger = apply_updates-kept λ key text rows.
    update-IsLedger key (approve_row text) rows (λ row. refl) (λ row. IsChecked-approved row text)

complete_rows-IsLedger :
    (now : ℕ) (terminals : List ToolTerminal) (rows rows' : List EffectRow)
    → complete_rows now rows terminals ≡ ok rows'
    → IsLedger rows
    → IsLedger rows'
complete_rows-IsLedger now = complete_rows-kept now λ terminal rows.
    update-IsLedger terminal.invocation_id.value (complete_row now terminal) rows (λ row. refl)
      (λ row _. settled (status_name-not_planned terminal.status) terminal.content refl now refl)

-- The identities that pass `check_keys` are distinct and none of those met.
pub check_keys-Distinct :
    (batch : String) (keys : List InvocationId) (ids : List InvocationId)
    → check_keys batch keys ids ≡ ok tt
    → Distinct ids × All (λ id. Fresh id keys) ids
unfolding check_keys
check_keys-Distinct batch keys [] h = (tt, tt)
check_keys-Distinct batch keys (id ∷ ids) h = elim (Bool-cases (contains id keys)) [
  | inl again ↦ absurd (cc (rw (check_keys, again) at h))
  | inr new ↦
      let (distinct, apart) = check_keys-Distinct batch (id ∷ keys) ids (ground arith) in
      (
        (All-map (λ other fresh e. fresh.0 (sym e)) ids apart, distinct),
        ((contains-eq-false_iff id keys).0 new, All-map (λ other fresh. fresh.1) ids apart),
      )
]

module _ {A : Type 0} (id : A → InvocationId) where
  abbrev pub key_of : A → String
  key_of a = (id a).value

  apart-values : (a : A) (xs : List A) → Fresh (id a) (map id xs) → Fresh (key_of a) (map key_of xs)
  apart-values a [] h = tt
  apart-values a (x ∷ xs) h =
      (λ e. h.0 (ap (λ value. record { value = value }) e), apart-values a xs h.1)

  pub Distinct-values : (xs : List A) → Distinct (map id xs) → Distinct (map key_of xs)
  Distinct-values [] h = tt
  Distinct-values (x ∷ xs) h = (apart-values x xs h.0, Distinct-values xs h.1)

pub check_absent-eq-ok :
    {V : Type 0} (rows : List EffectRow) (plans : List (PlannedToolCall V))
    → check_absent rows plans ≡ ok tt
    → All (λ plan. find_effect plan.invocation_id.value rows ≡ none) plans
unfolding check_absent
check_absent-eq-ok rows [] h = tt
check_absent-eq-ok rows (plan ∷ plans) h =
    elim (Option-cases (find_effect plan.invocation_id.value rows)) [
      | inl absent ↦ (absent, check_absent-eq-ok rows plans (rw (check_absent, absent) at h))
      | inr (row, found) ↦ absurd (cc (rw (check_absent, found) at h))
    ]

module _ {V : Type 0} ⦃e : PartialEq V⦄ (arguments : Codec (ToolArguments V))
    (effects : Codec ToolEffect) (approvals : Codec ApprovalRecord) where
  -- The columns of an inserted row.
  pub plan_row-eq-ok :
      (now : ℕ) (scope : String) (plan : PlannedToolCall V) (row : EffectRow)
      → plan_row arguments effects approvals now scope plan ≡ ok row
      → (arguments.encode plan.arguments ≡ ok row.arguments_json)
        × (effects.encode plan.effect ≡ ok row.effect_json)
        × (transpose approvals.encode plan.approval ≡ ok row.approval_json)
        × (row.execution_key ≡ plan.invocation_id.value)
        × (row.execution_scope ≡ scope)
        × (row.call_id ≡ plan.call_id.value)
        × (row.name ≡ plan.name)
        × (row.status ≡ "planned")
        × (row.content ≡ none)
        × (row.completed_at ≡ none)
  unfolding plan_row
  plan_row-eq-ok now scope plan row h = ground arith

  inserted-rows :
      (now : ℕ) (scope : String) (plans : List (PlannedToolCall V)) (rows : List EffectRow)
      → traverse (plan_row arguments effects approvals now scope) plans ≡ ok rows
      → (row_keys rows ≡ map (key_of λ plan. plan.invocation_id) plans) × All IsChecked rows
  unfolding traverse
  inserted-rows now scope [] rows h =
      subst (λ rows. (row_keys rows ≡ []) × All IsChecked rows) (ok-injective h) (refl, tt)
  inserted-rows now scope (plan ∷ plans) rows h =
      let (row, made, h1) = >>=-eq-ok (plan_row arguments effects approvals now scope plan) _ h in
      let (rest, all_made, h2) =
        >>=-eq-ok (traverse (plan_row arguments effects approvals now scope) plans) _ h1 in
      let (
        arguments_json, effect_json, approval_json, key, scope', call, name, status, content, time,
      ) =
        plan_row-eq-ok now scope plan row made in
      let (keys, checked) = inserted-rows now scope plans rest all_made in
      subst
        (λ rows.
          (row_keys rows ≡ plan.invocation_id.value ∷ map (key_of λ plan. plan.invocation_id) plans)
          × All IsChecked rows)
        (ok-injective h2) (cc, (waiting status content time, checked))

  apart-keys :
      (rows : List EffectRow) (plans : List (PlannedToolCall V))
      → All (λ plan. find_effect plan.invocation_id.value rows ≡ none) plans
      → All (λ key. Fresh key (row_keys rows)) (map (key_of λ plan. plan.invocation_id) plans)
  apart-keys rows [] h = tt
  apart-keys rows (plan ∷ plans) h = (
    All-map (λ other different same. different (sym same)) (row_keys rows)
        (find_row-none_iff (λ row. row.execution_key) plan.invocation_id.value rows h.0),
    apart-keys rows plans h.1,
  )

  pub record_plans-IsLedger :
      (now : ℕ) (rows : List EffectRow) (scope : String) (plans : List (PlannedToolCall V))
      (rows' : List EffectRow)
      → record_plans arguments effects approvals now rows scope plans ≡ ok rows'
      → IsLedger rows
      → IsLedger rows'
  record_plans-IsLedger now rows scope plans rows' done h =
      let (distinct, absent, inserted, made, same) =
        record_plans-eq-ok arguments effects approvals now rows scope plans rows' done in
      let (keys, checked) = inserted-rows now scope plans inserted made in
      let new_keys =
        Distinct-values (λ plan. plan.invocation_id) plans
          (check_keys-Distinct "plan batch" [] (map (λ plan. plan.invocation_id) plans)
            distinct).0 in
      let apart = apart-keys rows plans (check_absent-eq-ok rows plans absent) in
      subst IsLedger same (record {
        distinct_keys = subst Distinct (sym (map-append (λ row. row.execution_key) rows inserted)) (
            Distinct-append (row_keys rows) (row_keys inserted) h.distinct_keys
              (subst Distinct (sym keys) new_keys)
              (subst (All (λ key. Fresh key (row_keys rows))) (sym keys) apart));
        checked = All-append IsChecked rows inserted h.checked checked;
      })

  pub record_approvals-IsLedger :
      (rows : List EffectRow) (plans : List (PlannedToolCall V)) (rows' : List EffectRow)
      → record_approvals arguments effects approvals rows plans ≡ ok rows'
      → IsLedger rows
      → IsLedger rows'
  record_approvals-IsLedger rows plans rows' done h =
      let (changes, applied) =
        record_approvals-eq-ok arguments effects approvals rows plans rows' done in
      apply_updates-IsLedger changes rows rows' applied h

pub record_terminals-IsLedger :
    (effects : Codec ToolEffect) (now : ℕ) (rows : List EffectRow) (terminals : List ToolTerminal)
    (rows' : List EffectRow)
    → record_terminals effects now rows terminals ≡ ok rows'
    → IsLedger rows
    → IsLedger rows'
record_terminals-IsLedger effects now rows terminals rows' done =
    complete_rows-IsLedger now terminals rows rows'
      (record_terminals-eq-ok effects now rows terminals rows' done).2
