-- ===== src/Store/Delegation/Restart.antt =====
-- After `reconcile_running` of apps/hermesd/src/adapters/sqlite_delegation.rs no worker is left.
use hermes_rs.Prelude.{nat_eq, ◌≢◌}
use hermes_rs.Prelude.{
  ℕ, ◌≡◌, refl, sym, ◌∙◌, ap, subst, String, Bool, true, List, [], ◌∷◌, ◌==◌, string_eq, nat_eq,
  option_eq, ok, >>=-eq-ok, ok-injective,
}
use hermes_rs.Domain.Delegation.{DelegationCompletion}
use hermes_rs.Store.Delegation.{RawDelegation, Formats, to_i64, ensure_monotonic_timestamp}
use hermes_rs.Store.Delegation.Moves.{steps}
use hermes_rs.Store.Delegation.Lifecycle.{Tables}
use hermes_rs.Store.Delegation.Legal.{ensure_monotonic-eq-ok}
use hermes_rs.Prelude.{select, All, All-map}
use hermes_rs.Store.Delegation.{validate_detail}
use hermes_rs.Store.Delegation.Moves.{IsTable, ids}
use hermes_rs.Store.Delegation.Rows.{reconciliation_outcome}
use hermes_rs.Store.Table.{order_by}
use hermes_rs.Store.Delegation.Reconcile.{
  earlier, reconcile_row, abandon_rows, reconcile_running_transaction,
}
use mathlib.Core.List.{Memᴰ}
use hermes_rs.Store.Table.{All-update_found}
use hermes_rs.Store.Table.Members.{All-of_members, map-member, selected-member}
use hermes_rs.Store.Delegation.Moves.{Moves-sound}
use hermes_rs.Store.Delegation.Recovery.{
  IsWaiting, IsWaiting-rest, running-IsWaiting, reconcile_row-IsStep,
}

-- Every running delegation is one that the loop still has to treat.
abbrev IsAwaited : List RawDelegation → RawDelegation → Type 0
IsAwaited raws row = row.state ≡ "running" → Memᴰ row.delegation_id (ids raws)

abbrev IsIdle : RawDelegation → Type 0
IsIdle row = row.state ≢ "running"

IsAwaited-rest :
    (raw : RawDelegation) (raws : List RawDelegation) (row : RawDelegation)
    → row.delegation_id ≢ raw.delegation_id
    → IsAwaited (raw ∷ raws) row
    → IsAwaited raws row
IsAwaited-rest raw raws row other h runs = elim (h runs) [
  | Memᴰ.head same ↦ absurd (other same)
  | Memᴰ.tail m ↦ m
]

module _ (formats : Formats) (now : ℕ) (reason : String) where
  abandon_rows-IsIdle :
      (raws : List RawDelegation) (tables tables' : Tables)
      (completions : List DelegationCompletion)
      → IsTable tables.delegations
      → IsWaiting tables.delegations raws
      → All (IsAwaited raws) tables.delegations
      → abandon_rows formats reason now tables raws ≡ ok (tables', completions)
      → All IsIdle tables'.delegations
  unfolding abandon_rows
  abandon_rows-IsIdle [] tables tables' completions table waits all h =
      subst (λ t. All IsIdle t.delegations) (ap (λ t. t.0) (ok-injective h))
        (All-map (λ row a runs. elim (a runs) [ ]) tables.delegations all)
  abandon_rows-IsIdle (raw ∷ raws) tables tables' completions table waits all h =
      let (u, timed, h1) =
        >>=-eq-ok (ensure_monotonic_timestamp formats raw now "reconciliation timestamp") _ h in
      let (outcome, chosen, h2) = >>=-eq-ok (reconciliation_outcome raw reason) _ h1 in
      let (done, settled, h3) =
        >>=-eq-ok (reconcile_row formats (λ row. true) now tables raw outcome) _ h2 in
      let (rest, others, h4) = >>=-eq-ok (abandon_rows formats reason now done.0 raws) _ h3 in
      let (step, same, ended) =
        reconcile_row-IsStep formats now (λ row. true) tables raw outcome done.0 done.1
          waits.listed.found.0 waits.runs.0
          (ensure_monotonic-eq-ok formats raw now "reconciliation timestamp" timed) settled in
      let (table', evolved) = Moves-sound (steps step) table in
      let all' = subst (All (IsAwaited raws)) step.updated (
        All-update_found step.test step.change (λ row. row.delegation_id) step.id step.only
          (IsAwaited raws) (IsAwaited (raw ∷ raws))
          (λ row other. IsAwaited-rest raw raws row (λ e. other (e ∙ sym same))) tables.delegations
          step.raw table.distinct_ids step.found (λ runs. absurd (ended refl runs)) all) in
      subst (λ t. All IsIdle t.delegations) (ap (λ t. t.0) (ok-injective h4))
        (abandon_rows-IsIdle raws done.0 rest.0 rest.1 table'
          (IsWaiting-rest formats now step raw raws same waits) all' others)

-- When `reconcile_running` succeeds on a table that meets its constraints, no delegation of the new
-- table is running.
pub reconcile_running-IsIdle :
    (formats : Formats) (tables : Tables) (reason : String) (now_ms : ℕ) (tables' : Tables)
    (completions : List DelegationCompletion)
    → IsTable tables.delegations
    → reconcile_running_transaction formats tables reason now_ms ≡ ok (tables', completions)
    → All (λ row. row.state ≢ "running") tables'.delegations
unfolding reconcile_running_transaction
reconcile_running-IsIdle formats tables reason now_ms tables' completions table h =
    let (u, valid, h1) = >>=-eq-ok (validate_detail reason "restart reconciliation reason") _ h in
    let (now, fits, h2) = >>=-eq-ok (to_i64 now_ms "reconciliation timestamp") _ h1 in
    let test : RawDelegation → Bool = λ row. row.state == "running" in
    let order = earlier λ row. row.updated_at_ms in
    abandon_rows-IsIdle formats now reason (order_by order (select test tables.delegations)) tables
      tables' completions table (running-IsWaiting tables.delegations table order)
      (All-of_members (IsAwaited (order_by order (select test tables.delegations)))
        tables.delegations
        (λ row m runs.
          map-member (λ r. r.delegation_id) row (order_by order (select test tables.delegations))
            (selected-member order test row tables.delegations
              ((string_eq.eq_iff_same row.state "running").1 runs) m)))
      h2
