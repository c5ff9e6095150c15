-- ===== src/Store/Delegation/Reconcile.antt =====
-- `reconcile_expired` and `reconcile_running` of apps/hermesd/src/adapters/sqlite_delegation.rs: every
-- delegation whose worker is lost gets a terminal, in one transaction.
use Prim.Native.String
use hermes_rs.Prelude.{
  ℕ, String, Bool, true, false, ◌&&◌, ◌||◌, none, some, List, [], ◌∷◌, ok, ◌>>=◌, ◌>>◌, ok_or, ◌==◌,
  string_eq, nat_eq, ltb, leb, select,
}
use hermes_rs.Domain.Delegation.{terminal_name, DelegationTerminal, DelegationCompletion}
use hermes_rs.Store.Table.{order_by, text_le}
use hermes_rs.Store.Delegation.{
  invalid, RawDelegation, Formats, to_i64, increment, validate_detail, ensure_monotonic_timestamp,
}
use hermes_rs.Store.Delegation.Rows.{completion_from_raw, reconciliation_outcome}
use hermes_rs.Store.Delegation.Lifecycle.{
  Tables, Stored, commit, conflict, is_fenced, update_one, finished_row, encode_terminal,
  insert_completion,
}

-- `lease_expires_at_ms <= ?`, which NULL does not pass.
abbrev pub lease_passed : ℕ → RawDelegation → Bool
lease_passed now row = elim row.lease_expires_at_ms [
  | none ↦ false
  | some deadline ↦ leb deadline now
]

-- `ORDER BY … ASC, delegation_id ASC`, by a time of the row.
abbrev pub earlier : (RawDelegation → ℕ) → RawDelegation → RawDelegation → Bool
earlier time a b =
    ltb (time a) (time b) || time a == time b && text_le a.delegation_id b.delegation_id

abbrev pub deadline_or_zero : RawDelegation → ℕ
deadline_or_zero row = elim row.lease_expires_at_ms [ none ↦ 0 | some deadline ↦ deadline ]

abbrev pub Batch : Type 0
Batch = Tables × List DelegationCompletion

module _ (formats : Formats) where
  -- What both loops do with one row, whose `UPDATE` also tests `test`.
  unfoldable pub reconcile_row :
      (RawDelegation → Bool)
      → ℕ
      → Tables
      → RawDelegation
      → DelegationTerminal
      → Stored (Tables × DelegationCompletion)
  reconcile_row test now tables raw outcome = do
    completion ← completion_from_raw formats raw outcome now
    next_generation ← increment raw.owner_generation "owner generation"
    terminal_json ← encode_terminal formats outcome
    rows ←
        update_one
          (λ row.
            is_fenced raw.delegation_id raw.owner_generation raw.fencing_token row && test row)
          (finished_row (terminal_name outcome) next_generation terminal_json now)
          (conflict completion.delegation_id raw.owner_generation raw.owner_generation)
          tables.delegations
    completions ← insert_completion formats tables.completions completion
    ok (record { delegations = rows; completions = completions }, completion)

  unfoldable pub expire_rows : ℕ → Tables → List RawDelegation → Stored Batch
  expire_rows now tables [] = ok (tables, [])
  expire_rows now tables (raw ∷ raws) = do
    ensure_monotonic_timestamp formats raw now "reconciliation timestamp"
    deadline ←
        ok_or raw.lease_expires_at_ms (invalid "running delegation has no durable lease deadline")
    outcome ← reconciliation_outcome raw (
        String.◌++◌ "worker lease expired at "
          (String.◌++◌ (formats.number deadline) "; no terminal outcome was durably recorded"))
    done ← reconcile_row (lease_passed now) now tables raw outcome
    rest ← expire_rows now done.0 raws
    ok (rest.0, done.1 ∷ rest.1)

  unfoldable pub reconcile_expired_transaction : Tables → ℕ → Stored Batch
  reconcile_expired_transaction tables now_ms = do
    now ← to_i64 now_ms "reconciliation timestamp"
    expire_rows now tables (
        order_by (earlier deadline_or_zero)
          (select (λ row. row.state == "running" && lease_passed now row) tables.delegations))

  abbrev pub reconcile_expired : Tables → ℕ → Tables × Stored (List DelegationCompletion)
  reconcile_expired tables now_ms = commit tables (reconcile_expired_transaction tables now_ms)

  unfoldable pub abandon_rows : String → ℕ → Tables → List RawDelegation → Stored Batch
  abandon_rows reason now tables [] = ok (tables, [])
  abandon_rows reason now tables (raw ∷ raws) = do
    ensure_monotonic_timestamp formats raw now "reconciliation timestamp"
    outcome ← reconciliation_outcome raw reason
    done ← reconcile_row (λ row. true) now tables raw outcome
    rest ← abandon_rows reason now done.0 raws
    ok (rest.0, done.1 ∷ rest.1)

  unfoldable pub reconcile_running_transaction : Tables → String → ℕ → Stored Batch
  reconcile_running_transaction tables reason now_ms = do
    validate_detail reason "restart reconciliation reason"
    now ← to_i64 now_ms "reconciliation timestamp"
    abandon_rows reason now tables (
        order_by (earlier λ row. row.updated_at_ms)
          (select (λ row. row.state == "running") tables.delegations))

  abbrev pub reconcile_running : Tables → String → ℕ → Tables × Stored (List DelegationCompletion)
  reconcile_running tables reason now_ms =
      commit tables (reconcile_running_transaction tables reason now_ms)
