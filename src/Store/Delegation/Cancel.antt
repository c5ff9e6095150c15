-- ===== src/Store/Delegation/Cancel.antt =====
-- `cancel` of apps/hermesd/src/adapters/sqlite_delegation.rs.
use hermes_rs.Store.Delegation.Lifecycle.{
  Tables, Stored, conflict, is_current, update_one, withdrawn_row, asked_row, encode_terminal,
  insert_completion, reread,
}
use hermes_rs.Prelude.{
  ℕ, String, ◌&&◌, none, some, ok, err, ◌>>=◌, ◌>>◌, if◌then◌else◌, ◌==◌, string_eq, nat_eq,
  option_eq,
}
use hermes_rs.Domain.Id.{id_eq}
use hermes_rs.Domain.Delegation.{DelegationId, OwnerGeneration, cancelled, DelegationSnapshot}
use hermes_rs.Store.Delegation.{
  not_claimable, invalid, RawDelegation, Formats, to_i64, increment, validate_detail,
  ensure_generation, ensure_monotonic_timestamp, ensure_active_lease,
}
use hermes_rs.Store.Delegation.Rows.{load_raw, completion_from_raw}

module _ (formats : Formats) where
  -- The branch of `cancel` for a delegation that no worker has claimed.
  unfoldable pub cancel_pending :
      Tables → RawDelegation → DelegationId → OwnerGeneration → String → ℕ → Stored Tables
  cancel_pending tables raw id expected reason requested_at_ms = do
    completion ← completion_from_raw formats raw (cancelled reason) requested_at_ms
    next_generation ← increment raw.owner_generation "owner generation"
    terminal_json ← encode_terminal formats (cancelled reason)
    now ← to_i64 requested_at_ms "cancellation timestamp"
    current ← to_i64 expected.value "expected generation"
    rows ←
        update_one (is_current id.value "pending" current)
          (withdrawn_row next_generation terminal_json now)
          (conflict id expected.value raw.owner_generation) tables.delegations
    completions ← insert_completion formats tables.completions completion
    ok (record { delegations = rows; completions = completions })

  -- The branch for one that is running: the worker is asked, once.
  unfoldable pub ask_cancellation :
      Tables → RawDelegation → DelegationId → OwnerGeneration → String → ℕ → Stored Tables
  ask_cancellation tables raw id expected reason requested_at_ms = do
    now ← to_i64 requested_at_ms "cancellation timestamp"
    current ← to_i64 expected.value "expected generation"
    rows ←
        update_one
          (λ row.
            is_current id.value "running" current row
            && row.cancellation_reason == none
            && row.cancellation_requested_at_ms == none)
          (asked_row reason now) (conflict id expected.value raw.owner_generation)
          tables.delegations
    ok (record tables { delegations = rows })

  unfoldable pub cancel_running :
      Tables → RawDelegation → DelegationId → OwnerGeneration → String → ℕ → Stored Tables
  cancel_running tables raw id expected reason requested_at_ms = do
    ensure_active_lease formats raw requested_at_ms
    elim raw.cancellation_reason [
      | none ↦ elim raw.cancellation_requested_at_ms [
        | none ↦ ask_cancellation tables raw id expected reason requested_at_ms
        | some _ ↦ err (invalid "stored cancellation reason and timestamp must be paired")
      ]
      | some existing ↦ elim raw.cancellation_requested_at_ms [
        | none ↦ err (invalid "stored cancellation reason and timestamp must be paired")
        | some _ ↦
            if existing == reason
            then ok tables
            else err (not_claimable id "cancellation_requested")
      ]
    ]

  unfoldable pub cancel_transaction :
      Tables → DelegationId → OwnerGeneration → String → ℕ → Stored Tables
  cancel_transaction tables id expected reason requested_at_ms = do
    validate_detail reason "delegation cancellation reason"
    raw ← load_raw tables.delegations id
    ensure_generation formats raw expected
    ensure_monotonic_timestamp formats raw requested_at_ms "cancellation timestamp"
    if raw.state == "pending"
        then cancel_pending tables raw id expected reason requested_at_ms
        else if raw.state == "running"
        then cancel_running tables raw id expected reason requested_at_ms
        else err (not_claimable id raw.state)

  abbrev pub cancel :
      Tables → DelegationId → OwnerGeneration → String → ℕ → Tables × Stored DelegationSnapshot
  cancel tables id expected reason requested_at_ms =
      reread formats id tables (cancel_transaction tables id expected reason requested_at_ms)
