-- ===== src/Store/Delegation/Lifecycle.antt =====
-- apps/hermesd/src/adapters/sqlite_delegation.rs: the statements on the tables, and `claim` and
-- `heartbeat`, of the trait `DelegationStore`, whose methods
-- are each one transaction over the tables; what a method reads back after its
-- commit does not undo the commit.
use hermes_rs.Prelude.{
  ℕ, String, Bool, ◌&&◌, ◌||◌, Option, none, some, List, [], ◌∷◌, ◌++◌, Result, ok, err, ◌>>=◌,
  ◌>>◌, guard, ok_or, map_err, ◌==◌, string_eq, nat_eq, option_eq, ltb,
}
use hermes_rs.Domain.Id.{id_eq}
use hermes_rs.Domain.Delegation.{
  DelegationId, DelegationWorkerId, OwnerGeneration, FencingToken, DelegationTerminal,
  DelegationSnapshot, DelegationCompletion,
}
use hermes_rs.Store.Table.{update, count}
use hermes_rs.Store.Delegation.{
  DelegationStoreError, not_claimable, generation_conflict, invalid, storage, RawDelegation,
  Formats, to_i64, increment, validate_lease, ensure_no_cancellation, ensure_generation,
  ensure_running_fence, ensure_monotonic_timestamp, ensure_active_lease,
}
use hermes_rs.Store.Delegation.Rows.{load_raw, snapshot_from_raw}

-- A row of `delegation_completions`.
pub record CompletionRow : Type 0 where
  pub event_id : String
  pub delegation_id : String
  pub payload_json : String
  pub delivery_state : String
  pub delivery_claim_id : Option String
  pub delivery_claim_expires_at_ms : Option ℕ
  pub delivery_attempts : ℕ
  pub created_at_ms : ℕ
  pub delivered_at_ms : Option ℕ

pub record Tables : Type 0 where
  pub delegations : List RawDelegation
  pub completions : List CompletionRow

abbrev pub Stored : Type 0 → Type 0
Stored A = Result DelegationStoreError A

-- A transaction that fails is rolled back. What is read after the commit may fail too.
unfoldable pub commit : {T A : Type 0} → T → Stored (T × A) → T × Stored A
commit tables (ok (tables', a)) = (tables', ok a)
commit tables (err e) = (tables, err e)

-- `updated != 1` after an `UPDATE` of the row that was read.
abbrev pub conflict : DelegationId → ℕ → ℕ → DelegationStoreError
conflict = generation_conflict

-- `WHERE delegation_id = … AND state = … AND owner_generation = …`
abbrev pub is_current : String → String → ℕ → RawDelegation → Bool
is_current id state generation row =
    row.delegation_id == id && row.state == state && row.owner_generation == generation

abbrev pub is_fenced : String → ℕ → ℕ → RawDelegation → Bool
is_fenced id generation token row =
    is_current id "running" generation row && row.fencing_token == token

-- `UPDATE delegations SET … WHERE …`, which must change one row.
unfoldable pub update_one :
    (RawDelegation → Bool)
    → (RawDelegation → RawDelegation)
    → DelegationStoreError
    → List RawDelegation
    → Stored (List RawDelegation)
update_one test change otherwise rows = do
  guard (count test rows == 1) otherwise
  ok (update test change rows)

-- What the statements set: of a claim, a heartbeat, a cancelled pending delegation, an asked
-- cancellation and a terminal.
abbrev pub claimed_row : ℕ → String → ℕ → ℕ → ℕ → RawDelegation → RawDelegation
claimed_row generation worker token deadline now row = record row {
  state = "running";
  owner_generation = generation;
  worker_id = some worker;
  fencing_token = token;
  lease_expires_at_ms = some deadline;
  updated_at_ms = now;
}

abbrev pub extended_row : ℕ → ℕ → ℕ → RawDelegation → RawDelegation
extended_row generation deadline now row = record row {
  owner_generation = generation;
  lease_expires_at_ms = some deadline;
  updated_at_ms = now;
}

abbrev pub withdrawn_row : ℕ → String → ℕ → RawDelegation → RawDelegation
withdrawn_row generation terminal_json now row = record row {
  state = "cancelled";
  owner_generation = generation;
  fencing_token = 1;
  terminal_json = some terminal_json;
  updated_at_ms = now;
}

abbrev pub asked_row : String → ℕ → RawDelegation → RawDelegation
asked_row reason now row = record row {
  cancellation_reason = some reason;
  cancellation_requested_at_ms = some now;
  updated_at_ms = now;
}

abbrev pub finished_row : String → ℕ → String → ℕ → RawDelegation → RawDelegation
finished_row state generation terminal_json now row = record row {
  state = state;
  owner_generation = generation;
  lease_expires_at_ms = none;
  terminal_json = some terminal_json;
  cancellation_reason = none;
  cancellation_requested_at_ms = none;
  updated_at_ms = now;
}

module _ (formats : Formats) where
  abbrev pub encode_terminal : DelegationTerminal → Stored String
  encode_terminal outcome = map_err (λ e. storage e.message) (formats.terminal.encode outcome)

  -- The `PRIMARY KEY` of an event and the `UNIQUE` delegation refuse a second completion.
  unfoldable pub insert_completion :
      List CompletionRow → DelegationCompletion → Stored (List CompletionRow)
  insert_completion rows completion = do
    payload ← map_err (λ e. storage e.message) (formats.completion.encode completion)
    time ← to_i64 completion.completed_at_ms "completion timestamp"
    guard
        (count
            (λ row.
              row.event_id == completion.event_id.value
              || row.delegation_id == completion.delegation_id.value)
            rows
          == 0)
        (storage formats.constraint)
    ok (
        rows
        ++ record {
          event_id = completion.event_id.value;
          delegation_id = completion.delegation_id.value;
          payload_json = payload;
          delivery_state = "pending";
          delivery_claim_id = none;
          delivery_claim_expires_at_ms = none;
          delivery_attempts = 0;
          created_at_ms = time;
          delivered_at_ms = none;
        }
          ∷ [])

  -- What a method returns that reads the delegation again after its commit.
  unfoldable pub reread : DelegationId → Tables → Stored Tables → Tables × Stored DelegationSnapshot
  reread id tables (err e) = (tables, err e)
  reread id tables (ok tables') =
      (tables', load_raw tables'.delegations id >>= snapshot_from_raw formats)

  unfoldable pub claim_transaction :
      Tables → DelegationId → OwnerGeneration → DelegationWorkerId → ℕ → ℕ → Stored Tables
  claim_transaction tables id expected worker_id now_ms lease_expires_at_ms = do
    validate_lease now_ms lease_expires_at_ms
    raw ← load_raw tables.delegations id
    ensure_generation formats raw expected
    ensure_monotonic_timestamp formats raw now_ms "claim timestamp"
    ensure_no_cancellation raw
    guard (raw.state == "pending") (not_claimable id raw.state)
    next_generation ← increment raw.owner_generation "owner generation"
    next_fence ← increment raw.fencing_token "fencing token"
    deadline ← to_i64 lease_expires_at_ms "lease deadline"
    now ← to_i64 now_ms "claim timestamp"
    current ← to_i64 expected.value "expected generation"
    rows ←
        update_one (is_current id.value "pending" current)
          (claimed_row next_generation worker_id.value next_fence deadline now)
          (conflict id expected.value raw.owner_generation) tables.delegations
    ok (record tables { delegations = rows })

  abbrev pub claim :
      Tables
      → DelegationId
      → OwnerGeneration
      → DelegationWorkerId
      → ℕ
      → ℕ
      → Tables × Stored DelegationSnapshot
  claim tables id expected worker_id now_ms lease_expires_at_ms =
      reread id tables (claim_transaction tables id expected worker_id now_ms lease_expires_at_ms)

  unfoldable pub heartbeat_transaction :
      Tables → DelegationId → OwnerGeneration → FencingToken → ℕ → ℕ → Stored Tables
  heartbeat_transaction tables id expected fencing_token now_ms lease_expires_at_ms = do
    validate_lease now_ms lease_expires_at_ms
    raw ← load_raw tables.delegations id
    ensure_generation formats raw expected
    ensure_running_fence formats raw fencing_token
    ensure_monotonic_timestamp formats raw now_ms "heartbeat timestamp"
    ensure_active_lease formats raw now_ms
    current_deadline ←
        ok_or raw.lease_expires_at_ms (invalid "running delegation has no lease deadline")
    deadline ← to_i64 lease_expires_at_ms "lease deadline"
    guard (ltb current_deadline deadline)
        (invalid "heartbeat must extend the current delegation lease")
    next_generation ← increment raw.owner_generation "owner generation"
    now ← to_i64 now_ms "heartbeat timestamp"
    current ← to_i64 expected.value "expected generation"
    token ← to_i64 fencing_token.value "fencing token"
    rows ←
        update_one (is_fenced id.value current token) (extended_row next_generation deadline now)
          (conflict id expected.value raw.owner_generation) tables.delegations
    ok (record tables { delegations = rows })

  abbrev pub heartbeat :
      Tables
      → DelegationId
      → OwnerGeneration
      → FencingToken
      → ℕ
      → ℕ
      → Tables × Stored DelegationSnapshot
  heartbeat tables id expected fencing_token now_ms lease_expires_at_ms =
      reread id tables
        (heartbeat_transaction tables id expected fencing_token now_ms lease_expires_at_ms)
