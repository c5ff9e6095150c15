-- ===== src/Store/Delegation/Rows.antt =====
-- apps/hermesd/src/adapters/sqlite_delegation.rs: what a stored delegation is read as.
use Prim.Native.String
use hermes_rs.Prelude.{
  ℕ, String, Bool, not, ◌||◌, Option, none, some, List, Result, ok, err, ◌>>=◌, ◌>>◌, guard, ok_or,
  map_err, if◌then◌else◌, ◌==◌, string_eq, ltb,
}
use hermes_rs.Domain.Id.{
  delegation, completion_event, session, delegation_worker, owner_generation, fencing_token,
  AuthorityCounter, CounterKind, new_counter,
}
use hermes_rs.Domain.Delegation.{
  DelegationId, DelegationCancellation, DelegationSpec, DelegationTerminal, cancelled,
  outcome_unknown, terminal_name, DelegationState, pending, running, terminal, DelegationSnapshot,
  DelegationCompletion,
}
use hermes_rs.Store.Table.{find_row}
use hermes_rs.Store.Delegation.{
  DelegationStoreError, not_found, not_claimable, invalid, RawDelegation, Formats, Checked, read_id,
  validate_spec, validate_detail, ensure_no_cancellation,
}

abbrev pub find_delegation : String → List RawDelegation → Option RawDelegation
find_delegation = find_row λ raw. raw.delegation_id

unfoldable pub load_raw :
    List RawDelegation → DelegationId → Result DelegationStoreError RawDelegation
load_raw rows id = ok_or (find_delegation id.value rows) (not_found id)

unfoldable pub cancellation_from_raw :
    RawDelegation → Result DelegationStoreError (Option DelegationCancellation)
cancellation_from_raw raw = elim raw.cancellation_reason [
  | none ↦ elim raw.cancellation_requested_at_ms [
    | none ↦ ok none
    | some _ ↦ err (invalid "stored cancellation reason and timestamp must be paired")
  ]
  | some reason ↦ elim raw.cancellation_requested_at_ms [
    | none ↦ err (invalid "stored cancellation reason and timestamp must be paired")
    | some requested_at_ms ↦ do
      validate_detail reason "stored delegation cancellation reason"
      guard (not (ltb requested_at_ms raw.created_at_ms || ltb raw.updated_at_ms requested_at_ms))
          (invalid "stored cancellation timestamp is outside the delegation lifetime")
      ok (some (record { reason = reason; requested_at_ms = requested_at_ms }))
  ]
]

abbrev pub is_terminal_name : String → Bool
is_terminal_name state =
    state == "completed" || state == "failed" || state == "cancelled" || state == "outcome_unknown"

module _ (formats : Formats) where
  abbrev pub read_counter : (k : CounterKind) → ℕ → Result DelegationStoreError (AuthorityCounter k)
  read_counter k value = map_err (λ e. invalid (formats.id_error e)) (new_counter k value)

  unfoldable pub spec_from_raw : RawDelegation → Result DelegationStoreError DelegationSpec
  spec_from_raw raw = do
    delegation_id ← read_id formats delegation raw.delegation_id
    completion_event_id ← read_id formats completion_event raw.completion_event_id
    parent_session_id ← read_id formats session raw.parent_session_id
    child_session_id ← read_id formats session raw.child_session_id
    let spec : DelegationSpec = record {
      delegation_id = delegation_id;
      completion_event_id = completion_event_id;
      parent_session_id = parent_session_id;
      child_session_id = child_session_id;
      goal = raw.goal;
      context = raw.context;
    }
    validate_spec spec
    ok spec

  unfoldable pub completion_from_raw :
      RawDelegation → DelegationTerminal → ℕ → Result DelegationStoreError DelegationCompletion
  completion_from_raw raw outcome completed_at_ms = do
    spec ← spec_from_raw raw
    ok (record {
      event_id = spec.completion_event_id;
      delegation_id = spec.delegation_id;
      spec = spec;
      outcome = outcome;
      completed_at_ms = completed_at_ms;
    })

  unfoldable pub running_from_raw : RawDelegation → Result DelegationStoreError DelegationState
  running_from_raw raw = do
    worker ← ok_or raw.worker_id (invalid "running delegation has no worker id")
    worker_id ← read_id formats delegation_worker worker
    token ← read_counter fencing_token raw.fencing_token
    deadline ← ok_or raw.lease_expires_at_ms (invalid "running delegation has no lease deadline")
    cancellation ← cancellation_from_raw raw
    ok (running worker_id token deadline cancellation)

  unfoldable pub terminal_from_raw : RawDelegation → Result DelegationStoreError DelegationState
  terminal_from_raw raw = do
    ensure_no_cancellation raw
    encoded ← ok_or raw.terminal_json (invalid "terminal delegation has no outcome")
    outcome ←
        map_err (λ e. invalid (String.◌++◌ "stored delegation terminal is invalid: " e.message))
          (formats.terminal.decode encoded)
    guard (terminal_name outcome == raw.state) (
        invalid (
          String.◌++◌ "delegation state " (
            String.◌++◌ raw.state
              (String.◌++◌ " disagrees with terminal " (terminal_name outcome)))))
    ok (terminal outcome raw.updated_at_ms)

  -- `quoted` is the text of an unknown state as `Debug` prints it.
  unfoldable pub state_from_raw : RawDelegation → Result DelegationStoreError DelegationState
  state_from_raw raw =
      if raw.state == "pending"
      then (ensure_no_cancellation raw >> ok pending)
      else if raw.state == "running"
      then running_from_raw raw
      else if is_terminal_name raw.state
      then terminal_from_raw raw
      else err (invalid (String.◌++◌ "unknown delegation state " (formats.quoted raw.state)))

  unfoldable pub snapshot_from_raw : RawDelegation → Result DelegationStoreError DelegationSnapshot
  snapshot_from_raw raw = do
    spec ← spec_from_raw raw
    state ← state_from_raw raw
    generation ← read_counter owner_generation raw.owner_generation
    ok (record {
      spec = spec;
      owner_generation = generation;
      state = state;
      created_at_ms = raw.created_at_ms;
      updated_at_ms = raw.updated_at_ms;
    })

  -- A worker that has been asked to cancel can report that cancellation and nothing else.
  unfoldable pub check_intent :
      RawDelegation → Option DelegationCancellation → DelegationTerminal → Checked
  check_intent raw none (cancelled reason) =
      err (invalid "worker cannot cancel a delegation without durable operator intent")
  check_intent raw none _ = ok tt
  check_intent raw (some cancellation) outcome =
      let refused : Checked = read_id formats delegation raw.delegation_id >>= λ id.
      err (not_claimable id "cancellation_requested") in
      elim outcome [
        | DelegationTerminal.cancelled reason ↦
            if cancellation.reason == reason then ok tt else refused
        | _ ↦ refused
      ]

  unfoldable pub ensure_legal_terminal : RawDelegation → DelegationTerminal → Checked
  ensure_legal_terminal raw outcome = do
    cancellation ← cancellation_from_raw raw
    check_intent raw cancellation outcome

unfoldable pub reconciliation_outcome :
    RawDelegation → String → Result DelegationStoreError DelegationTerminal
reconciliation_outcome raw unknown_reason = do
  cancellation ← cancellation_from_raw raw
  elim cancellation [
    | some cancellation ↦ ok (cancelled cancellation.reason)
    | none ↦ ok (outcome_unknown unknown_reason)
  ]
