-- ===== src/Store/Delegation/Finish.antt =====
-- `finish` of apps/hermesd/src/adapters/sqlite_delegation.rs.
use hermes_rs.Store.Delegation.Lifecycle.{
  Tables, Stored, commit, conflict, is_fenced, update_one, finished_row, encode_terminal,
  insert_completion,
}
use hermes_rs.Prelude.{ℕ, ok, ◌>>=◌, ◌>>◌, string_eq, nat_eq, option_eq}
use hermes_rs.Domain.Id.{id_eq}
use hermes_rs.Domain.Delegation.{
  DelegationId, OwnerGeneration, FencingToken, DelegationTerminal, terminal_name,
  DelegationCompletion,
}
use hermes_rs.Store.Delegation.{
  RawDelegation, Formats, Checked, to_i64, increment, validate_terminal, ensure_generation,
  ensure_running_fence, ensure_monotonic_timestamp, ensure_active_lease,
}
use hermes_rs.Store.Delegation.Rows.{load_raw, completion_from_raw, ensure_legal_terminal}

module _ (formats : Formats) where
  -- The end of `finish` and `complete_child`, whose last statements are the same.
  unfoldable pub settle_delegation :
      Tables
      → RawDelegation
      → DelegationId
      → OwnerGeneration
      → FencingToken
      → DelegationTerminal
      → ℕ
      → Stored (Tables × DelegationCompletion)
  settle_delegation tables raw id expected fencing_token outcome completed_at_ms = do
    completion ← completion_from_raw formats raw outcome completed_at_ms
    next_generation ← increment raw.owner_generation "owner generation"
    terminal_json ← encode_terminal formats outcome
    now ← to_i64 completed_at_ms "completion timestamp"
    current ← to_i64 expected.value "expected generation"
    token ← to_i64 fencing_token.value "fencing token"
    rows ←
        update_one (is_fenced id.value current token)
          (finished_row (terminal_name outcome) next_generation terminal_json now)
          (conflict id expected.value raw.owner_generation) tables.delegations
    completions ← insert_completion formats tables.completions completion
    ok (record { delegations = rows; completions = completions }, completion)

  -- The checks before it.
  unfoldable pub ensure_worker :
      RawDelegation → OwnerGeneration → FencingToken → DelegationTerminal → ℕ → Checked
  ensure_worker raw expected fencing_token outcome completed_at_ms = do
    ensure_generation formats raw expected
    ensure_running_fence formats raw fencing_token
    ensure_monotonic_timestamp formats raw completed_at_ms "completion timestamp"
    ensure_active_lease formats raw completed_at_ms
    ensure_legal_terminal formats raw outcome

  unfoldable pub finish_transaction :
      Tables
      → DelegationId
      → OwnerGeneration
      → FencingToken
      → DelegationTerminal
      → ℕ
      → Stored (Tables × DelegationCompletion)
  finish_transaction tables id expected fencing_token outcome completed_at_ms = do
    validate_terminal outcome
    raw ← load_raw tables.delegations id
    ensure_worker raw expected fencing_token outcome completed_at_ms
    settle_delegation tables raw id expected fencing_token outcome completed_at_ms

  abbrev pub finish :
      Tables
      → DelegationId
      → OwnerGeneration
      → FencingToken
      → DelegationTerminal
      → ℕ
      → Tables × Stored DelegationCompletion
  finish tables id expected fencing_token outcome completed_at_ms =
      commit tables (finish_transaction tables id expected fencing_token outcome completed_at_ms)
