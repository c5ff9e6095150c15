-- ===== src/Store/Ledger/Evolution.antt =====
-- What the three methods of `SqliteEffectLedger` (apps/hermesd/src/adapters/sqlite.rs) leave as it was.
use hermes_rs.Prelude.{
  ℕ, ◌≡◌, refl, String, List, [], ◌∷◌, ◌++◌, map, ok, guard, traverse, >>=-eq-ok, ok-injective, not,
  subst, PartialEq, ◌==◌, nat_eq,
}
use hermes_rs.Prelude.Text.{is_empty}
use hermes_rs.Domain.Effect.{
  ToolArguments, ToolEffect, ApprovalRecord, PlannedToolCall, ToolTerminal,
}
use hermes_rs.Runtime.Journal.{already_terminal, invalid}
use hermes_rs.Store.Table.{Codec, update, count}
use hermes_rs.Store.Ledger.{
  EffectRow, is_nil, is_planned, approve_row, apply_updates, complete_row, complete_rows,
  check_keys, check_all_recorded, record_terminals, check_absent, plan_row, record_plans,
}
use hermes_rs.Store.Ledger.Approve.{pending_updates, record_approvals}
use hermes_rs.Store.Ledger.Rows.{
  Evolves, Evolves-refl, Evolves-trans, Evolves-append, Evolves-update,
}

-- What every `UPDATE` of a batch keeps, the batch keeps.
pub apply_updates-kept {κ} :
    {P : List EffectRow → Type κ}
    → ((key text : String) (rows : List EffectRow)
        → P rows
        → P (update (is_planned key) (approve_row text) rows))
    → (changes : List (String × String)) (rows rows' : List EffectRow)
    → apply_updates rows changes ≡ ok rows'
    → P rows
    → P rows'
unfolding apply_updates
apply_updates-kept {P = P} step [] rows rows' done h = subst P (ok-injective done) h
apply_updates-kept {P = P} step (change ∷ changes) rows rows' done h =
    let (u, one, rest) =
      >>=-eq-ok (guard (count (is_planned change.0) rows == 1) (already_terminal change.0)) _
        done in
    apply_updates-kept {P = P} step changes
      (update (is_planned change.0) (approve_row change.1) rows) rows' rest
      (step change.0 change.1 rows h)

pub complete_rows-kept {κ} :
    {P : List EffectRow → Type κ} (now : ℕ)
    → ((terminal : ToolTerminal) (rows : List EffectRow)
        → P rows
        → P (update (is_planned terminal.invocation_id.value) (complete_row now terminal) rows))
    → (terminals : List ToolTerminal) (rows rows' : List EffectRow)
    → complete_rows now rows terminals ≡ ok rows'
    → P rows
    → P rows'
unfolding complete_rows
complete_rows-kept {P = P} now step [] rows rows' done h = subst P (ok-injective done) h
complete_rows-kept {P = P} now step (terminal ∷ terminals) rows rows' done h =
    let (u, one, rest) =
      >>=-eq-ok
        (guard (count (is_planned terminal.invocation_id.value) rows == 1)
          (already_terminal terminal.invocation_id.value))
        _ done in
    complete_rows-kept {P = P} now step terminals
      (update (is_planned terminal.invocation_id.value) (complete_row now terminal) rows) rows' rest
      (step terminal rows h)

pub apply_updates-Evolves :
    (changes : List (String × String)) (rows rows' : List EffectRow)
    → apply_updates rows changes ≡ ok rows'
    → Evolves rows rows'
apply_updates-Evolves changes rows rows' done =
    apply_updates-kept {P = Evolves rows}
      (λ key text mid h.
        Evolves-trans rows mid _ h (Evolves-update key (approve_row text) (λ row. refl) mid))
      changes rows rows' done (Evolves-refl rows)

pub complete_rows-Evolves :
    (now : ℕ) (terminals : List ToolTerminal) (rows rows' : List EffectRow)
    → complete_rows now rows terminals ≡ ok rows'
    → Evolves rows rows'
complete_rows-Evolves now terminals rows rows' done =
    complete_rows-kept {P = Evolves rows} now
      (λ terminal mid h.
        Evolves-trans rows mid _ h (
          Evolves-update terminal.invocation_id.value (complete_row now terminal) (λ row. refl)
            mid))
      terminals rows rows' done (Evolves-refl rows)

module _ (effects : Codec ToolEffect) where
  -- What a success of `record_terminals` has checked and done.
  pub record_terminals-eq-ok :
      (now : ℕ) (rows : List EffectRow) (terminals : List ToolTerminal) (rows' : List EffectRow)
      → record_terminals effects now rows terminals ≡ ok rows'
      → (check_keys "terminal batch" [] (map (λ terminal. terminal.invocation_id) terminals)
          ≡ ok tt)
        × (check_all_recorded effects rows terminals ≡ ok tt)
        × (complete_rows now rows terminals ≡ ok rows')
  unfolding record_terminals
  record_terminals-eq-ok now rows terminals rows' h =
      let (u, filled, h1) =
        >>=-eq-ok (guard (not (is_nil terminals)) (invalid "cannot record an empty terminal batch"))
          _ h in
      let (v, distinct, h2) =
        >>=-eq-ok
          (check_keys "terminal batch" [] (map (λ terminal. terminal.invocation_id) terminals)) _
          h1 in
      let (w, checked, h3) = >>=-eq-ok (check_all_recorded effects rows terminals) _ h2 in
      (distinct, checked, h3)

  pub record_terminals-Evolves :
      (now : ℕ) (rows : List EffectRow) (terminals : List ToolTerminal) (rows' : List EffectRow)
      → record_terminals effects now rows terminals ≡ ok rows'
      → Evolves rows rows'
  record_terminals-Evolves now rows terminals rows' h =
      complete_rows-Evolves now terminals rows rows'
        (record_terminals-eq-ok now rows terminals rows' h).2

module _ {V : Type 0} ⦃e : PartialEq V⦄ (arguments : Codec (ToolArguments V))
    (effects : Codec ToolEffect) (approvals : Codec ApprovalRecord) where
  -- What a success of `record_plans` has checked and done.
  pub record_plans-eq-ok :
      (now : ℕ) (rows : List EffectRow) (scope : String) (plans : List (PlannedToolCall V))
      (rows' : List EffectRow)
      → record_plans arguments effects approvals now rows scope plans ≡ ok rows'
      → (check_keys "plan batch" [] (map (λ plan. plan.invocation_id) plans) ≡ ok tt)
        × (check_absent rows plans ≡ ok tt)
        × (inserted : List EffectRow) × (traverse
              (plan_row arguments effects approvals now scope)
              plans
            ≡ ok inserted)
        × (rows ++ inserted ≡ rows')
  unfolding record_plans
  record_plans-eq-ok now rows scope plans rows' h =
      let (u, named, h1) =
        >>=-eq-ok (guard (not (is_empty scope)) (invalid "execution scope must be non-empty")) _
          h in
      let (v, filled, h2) =
        >>=-eq-ok (guard (not (is_nil plans)) (invalid "cannot record an empty plan batch")) _ h1 in
      let (w, distinct, h3) =
        >>=-eq-ok (check_keys "plan batch" [] (map (λ plan. plan.invocation_id) plans)) _ h2 in
      let (x, absent, h4) = >>=-eq-ok (check_absent rows plans) _ h3 in
      let (inserted, made, h5) =
        >>=-eq-ok (traverse (plan_row arguments effects approvals now scope) plans) _ h4 in
      (distinct, absent, inserted, made, ok-injective h5)

  pub record_plans-Evolves :
      (now : ℕ) (rows : List EffectRow) (scope : String) (plans : List (PlannedToolCall V))
      (rows' : List EffectRow)
      → record_plans arguments effects approvals now rows scope plans ≡ ok rows'
      → Evolves rows rows'
  record_plans-Evolves now rows scope plans rows' h =
      let (distinct, absent, inserted, made, same) =
        record_plans-eq-ok now rows scope plans rows' h in
      subst (Evolves rows) same (Evolves-append rows inserted)

  pub record_approvals-eq-ok :
      (rows : List EffectRow) (plans : List (PlannedToolCall V)) (rows' : List EffectRow)
      → record_approvals arguments effects approvals rows plans ≡ ok rows'
      → (changes : List (String × String)) × (apply_updates rows changes ≡ ok rows')
  unfolding record_approvals
  record_approvals-eq-ok rows plans rows' h =
      let (u, filled, h1) =
        >>=-eq-ok
          (guard (not (is_nil plans)) (invalid "cannot resolve approvals for an empty plan batch"))
          _ h in
      let (changes, made, h2) =
        >>=-eq-ok (pending_updates arguments effects approvals rows [] plans) _ h1 in
      (changes, h2)

  pub record_approvals-Evolves :
      (rows : List EffectRow) (plans : List (PlannedToolCall V)) (rows' : List EffectRow)
      → record_approvals arguments effects approvals rows plans ≡ ok rows'
      → Evolves rows rows'
  record_approvals-Evolves rows plans rows' h =
      let (changes, applied) = record_approvals-eq-ok rows plans rows' h in
      apply_updates-Evolves changes rows rows' applied
