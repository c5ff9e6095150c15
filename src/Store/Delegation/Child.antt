-- ===== src/Store/Delegation/Child.antt =====
-- apps/hermesd/src/adapters/sqlite_delegation.rs: the methods that also use the session tables, and
-- the lists of delegations.
use Prim.Native.String
use hermes_rs.Prelude.{
  ℕ, String, Bool, not, ◌&&◌, ◌||◌, none, List, [], ◌∷◌, ◌++◌, ok, ◌>>=◌, ◌>>◌, guard, map_err,
  ◌==◌, string_eq, nat_eq, ltb, select, traverse, take,
}
use hermes_rs.Domain.Id.{session, delegation, owner_generation, id_eq}
use hermes_rs.Domain.Delegation.{
  DelegationId, SessionId, OwnerGeneration, DelegationAuthority, DelegationSpec, completed,
  DelegationSnapshot, pending, DelegationCompletion,
}
use hermes_rs.Store.Session.{SessionStoreError, session_message, SessionTables}
use hermes_rs.Store.Table.{count, order_by, text_le}
use hermes_rs.Store.Delegation.{
  DelegationStoreError, already_exists, invalid, storage, RawDelegation, Formats, Checked, to_i64,
  validate_spec, validate_terminal, read_id,
}
use hermes_rs.Store.Delegation.Rows.{load_raw, read_counter, snapshot_from_raw}
use hermes_rs.Store.Delegation.Lifecycle.{Tables, Stored, commit}
use hermes_rs.Store.Delegation.Finish.{ensure_worker, settle_delegation}

module _ (formats : Formats) where
  -- `session_error`
  unfoldable pub session_error : SessionStoreError → DelegationStoreError
  session_error (SessionStoreError.storage message) = storage message
  session_error other = invalid (session_message formats.number other)

  -- A `list` statement of the identifiers, each of which is then loaded.
  unfoldable pub load_listed :
      List RawDelegation → List RawDelegation → Stored (List DelegationSnapshot)
  load_listed rows = traverse λ row. do
    id ← read_id formats delegation row.delegation_id
    raw ← load_raw rows id
    snapshot_from_raw formats raw

  -- `ORDER BY created_at_ms DESC, delegation_id DESC`
  abbrev pub newest_first : RawDelegation → RawDelegation → Bool
  newest_first a b =
      ltb b.created_at_ms a.created_at_ms
      || a.created_at_ms == b.created_at_ms && text_le b.delegation_id a.delegation_id

  abbrev pub oldest_first : RawDelegation → RawDelegation → Bool
  oldest_first a b =
      ltb a.created_at_ms b.created_at_ms
      || a.created_at_ms == b.created_at_ms && text_le a.delegation_id b.delegation_id

  unfoldable pub list_for_parent : Tables → SessionId → ℕ → Stored (List DelegationSnapshot)
  list_for_parent tables parent_session_id limit = do
    guard (not (limit == 0)) (invalid "delegation list limit must be greater than zero")
    count' ← to_i64 limit "delegation list limit"
    load_listed tables.delegations (
        take count' (
          order_by newest_first
            (select (λ row. row.parent_session_id == parent_session_id.value) tables.delegations)))

  unfoldable pub pending_delegations : Tables → ℕ → Stored (List DelegationSnapshot)
  pending_delegations tables limit = do
    guard (not (limit == 0)) (invalid "pending delegation limit must be greater than zero")
    count' ← to_i64 limit "pending limit"
    load_listed tables.delegations (
        take count'
          (order_by oldest_first (select (λ row. row.state == "pending") tables.delegations)))

  unfoldable pub load : Tables → DelegationId → Stored DelegationSnapshot
  load tables id = do raw ← load_raw tables.delegations id; snapshot_from_raw formats raw

  -- The row that a creation inserts.
  abbrev pub created_row : DelegationSpec → ℕ → RawDelegation
  created_row spec now = record {
    delegation_id = spec.delegation_id.value;
    completion_event_id = spec.completion_event_id.value;
    parent_session_id = spec.parent_session_id.value;
    child_session_id = spec.child_session_id.value;
    goal = spec.goal;
    context = spec.context;
    state = "pending";
    owner_generation = 1;
    worker_id = none;
    fencing_token = 0;
    lease_expires_at_ms = none;
    terminal_json = none;
    cancellation_reason = none;
    cancellation_requested_at_ms = none;
    created_at_ms = now;
    updated_at_ms = now;
  }

  module _ {S C M : Type 0} (sessions : SessionTables S C M) where
    unfoldable pub ensure_session_exists : S → SessionId → String → Checked
    ensure_session_exists s id relation =
        guard (sessions.has_session s id.value)
          (invalid (String.◌++◌ relation (String.◌++◌ " session does not exist: " id.value)))

    -- The `UNIQUE` child session is the one constraint that the checks before leave to SQLite.
    unfoldable pub create_delegation_in_transaction :
        S → Tables → DelegationSpec → ℕ → Stored (Tables × DelegationSnapshot)
    create_delegation_in_transaction s tables spec now_ms = do
      validate_spec spec
      guard
          (count
              (λ row.
                row.delegation_id == spec.delegation_id.value
                || row.completion_event_id == spec.completion_event_id.value)
              tables.delegations
            == 0)
          (already_exists spec.delegation_id)
      ensure_session_exists s spec.parent_session_id "parent"
      ensure_session_exists s spec.child_session_id "child"
      now ← to_i64 now_ms "creation timestamp"
      guard
          (count (λ row. row.child_session_id == spec.child_session_id.value) tables.delegations
            == 0)
          (storage formats.constraint)
      generation ← read_counter formats owner_generation 1
      ok (
        record tables { delegations = tables.delegations ++ created_row spec now ∷ [] },
        record {
          spec = spec;
          owner_generation = generation;
          state = pending;
          created_at_ms = now_ms;
          updated_at_ms = now_ms;
        },
      )

    abbrev pub create : S → Tables → DelegationSpec → ℕ → Tables × Stored DelegationSnapshot
    create s tables spec now_ms =
        commit tables (validate_spec spec >> create_delegation_in_transaction s tables spec now_ms)

    unfoldable pub create_with_child_transaction :
        S × Tables → C → DelegationSpec → ℕ → Stored ((S × Tables) × DelegationSnapshot)
    create_with_child_transaction (s, tables) child_config spec now_ms = do
      validate_spec spec
      guard (sessions.config_session child_config == spec.child_session_id)
          (invalid "child session config does not match delegation child identity")
      ensure_session_exists s spec.parent_session_id "parent"
      s' ← map_err session_error (sessions.create_session s child_config)
      created ← create_delegation_in_transaction s' tables spec now_ms
      ok ((s', created.0), created.1)

    abbrev pub create_with_child :
        S × Tables → C → DelegationSpec → ℕ → (S × Tables) × Stored DelegationSnapshot
    create_with_child db child_config spec now_ms =
        commit db (create_with_child_transaction db child_config spec now_ms)

    unfoldable pub complete_child_transaction :
        S × Tables
        → DelegationId
        → DelegationAuthority
        → OwnerGeneration
        → List M
        → String
        → ℕ
        → Stored ((S × Tables) × DelegationCompletion)
    complete_child_transaction (s, tables) id authority child_generation child_messages summary
          completed_at_ms =
        do
          validate_terminal (completed summary)
          raw ← load_raw tables.delegations id
          ensure_worker formats raw authority.owner_generation authority.fencing_token
              (completed summary) completed_at_ms
          child_session_id ← read_id formats session raw.child_session_id
          s' ←
              map_err session_error
                (sessions.append_turn s child_session_id child_generation child_messages)
          settled ←
              settle_delegation formats tables raw id authority.owner_generation
                authority.fencing_token (completed summary) completed_at_ms
          ok ((s', settled.0), settled.1)

    abbrev pub complete_child :
        S × Tables
        → DelegationId
        → DelegationAuthority
        → OwnerGeneration
        → List M
        → String
        → ℕ
        → (S × Tables) × Stored DelegationCompletion
    complete_child db id authority child_generation child_messages summary completed_at_ms =
        commit db (
          complete_child_transaction db id authority child_generation child_messages summary
            completed_at_ms)
