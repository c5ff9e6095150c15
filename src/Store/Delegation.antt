-- ===== src/Store/Delegation.antt =====
-- apps/hermesd/src/adapters/sqlite_delegation.rs: the rows of the tables `delegations` and
-- `delegation_completions`, the errors of crates/ports/src/lib.rs, and the checks of input and of
-- stored columns. A column of type INTEGER holds a natural number below 2 ^ 63: all that is written to
-- these columns passes `to_i64`, `increment` or the table's constraints, so `u64_from_i64` never fails.
pub mod Rows
pub mod Moves
pub mod Held
pub mod Lifecycle
pub mod Finish
pub mod Cancel
pub mod Changes
pub mod Legal
pub mod Ends
pub mod Intent
pub mod Report
pub mod Finished
pub mod Withdrawals
pub mod Child
pub mod Reconcile
pub mod Outbox
pub mod Children
pub mod Recovery
pub mod Restart
pub mod History
pub mod Kept
pub mod Guards
pub mod Exclusion
pub mod Fencing
pub mod Delivery
mod Tests
use Prim.Native.String
use hermes_rs.Prelude.{
  ℕ, String, Bool, true, false, not, ◌&&◌, ◌||◌, Option, none, some, Result, ok, err, ◌>>=◌, ◌>>◌,
  guard, ok_or, map_err, if◌then◌else◌, ◌==◌, string_eq, nat_eq, option_eq, ltb, leb, ◌+◌,
}
use hermes_rs.Prelude.Text.{is_empty, trim}
use hermes_rs.Domain.Id.{IdError, IdKind, OpaqueId, new_id, id_eq}
use hermes_rs.Domain.Delegation.{
  DelegationId, DelegationSpec, DelegationTerminal, completed, failed, cancelled, outcome_unknown,
  DelegationCompletion, OwnerGeneration, FencingToken,
}
use hermes_rs.Domain.Id.{delegation}
use hermes_rs.Store.Table.{Codec, fits_i64, i64_limit}

pub data DelegationStoreError : Type 0 where
  already_exists not_found : DelegationId → DelegationStoreError
  not_claimable : DelegationId → String → DelegationStoreError
  generation_conflict : DelegationId → ℕ → ℕ → DelegationStoreError
  fencing_conflict : DelegationId → ℕ → Option ℕ → DelegationStoreError
  invalid storage : String → DelegationStoreError

pub record RawDelegation : Type 0 where
  pub delegation_id : String
  pub completion_event_id : String
  pub parent_session_id : String
  pub child_session_id : String
  pub goal : String
  pub context : Option String
  pub state : String
  pub owner_generation : ℕ
  pub worker_id : Option String
  pub fencing_token : ℕ
  pub lease_expires_at_ms : Option ℕ
  pub terminal_json : Option String
  pub cancellation_reason : Option String
  pub cancellation_requested_at_ms : Option ℕ
  pub created_at_ms : ℕ
  pub updated_at_ms : ℕ

-- What the code takes from other crates: the texts of numbers, of identifier errors
-- and of strings in quotes, `serde_json`,
-- and the text of SQLite's error when a `UNIQUE` or `PRIMARY KEY` constraint refuses an insertion
-- and when a row is missing.
pub record Formats : Type 0 where
  pub number : ℕ → String
  pub id_error : IdError → String
  pub quoted : String → String
  pub terminal : Codec DelegationTerminal
  pub completion : Codec DelegationCompletion
  pub constraint : String
  pub no_rows : String

abbrev pub Checked : Type 0
Checked = Result DelegationStoreError (Unit {0})

unfoldable pub to_i64 : ℕ → String → Result DelegationStoreError ℕ
to_i64 value name =
    if fits_i64 value
    then ok value
    else err (invalid (String.◌++◌ name " exceeds SQLite integer range"))

unfoldable pub increment : ℕ → String → Result DelegationStoreError ℕ
increment value name =
    if fits_i64 (value + 1) then ok (value + 1) else err (invalid (String.◌++◌ name " overflowed"))

unfoldable pub validate_spec : DelegationSpec → Checked
validate_spec spec = do
  guard (not (spec.parent_session_id == spec.child_session_id))
      (invalid "delegation parent and child sessions must be distinct")
  guard (not (is_empty spec.goal || not (trim spec.goal == spec.goal)))
      (invalid "delegation goal must be non-empty and have no surrounding whitespace")

abbrev pub is_blank : String → Bool
is_blank detail = is_empty (trim detail)

abbrev pub check_detail : String → Checked
check_detail detail =
    guard (not (is_blank detail))
      (invalid "non-completed delegation terminal detail must be non-empty")

unfoldable pub validate_terminal : DelegationTerminal → Checked
validate_terminal (completed _) = ok tt
validate_terminal (failed error) = check_detail error
validate_terminal (cancelled reason) = check_detail reason
validate_terminal (outcome_unknown reason) = check_detail reason

unfoldable pub validate_detail : String → String → Checked
validate_detail detail name =
    guard (not (is_blank detail || not (trim detail == detail)))
      (invalid (String.◌++◌ name " must be non-empty and have no surrounding whitespace"))

unfoldable pub validate_lease : ℕ → ℕ → Checked
validate_lease now_ms deadline_ms =
    guard (ltb now_ms deadline_ms)
      (invalid "delegation lease deadline must be later than the mutation timestamp")

unfoldable pub validate_claim : ℕ → ℕ → Checked
validate_claim now_ms deadline_ms =
    guard (ltb now_ms deadline_ms)
      (invalid "delivery claim deadline must be later than the claim timestamp")

unfoldable pub ensure_no_cancellation : RawDelegation → Checked
ensure_no_cancellation raw =
    guard (raw.cancellation_reason == none && raw.cancellation_requested_at_ms == none)
      (invalid (String.◌++◌ raw.state " delegation retained a cancellation request"))

module _ (formats : Formats) where
  -- `new` of an identifier, whose error is `Invalid`.
  abbrev pub read_id : (k : IdKind) → String → Result DelegationStoreError (OpaqueId k)
  read_id k value = map_err (λ e. invalid (formats.id_error e)) (new_id k value)

  unfoldable pub ensure_generation : RawDelegation → OwnerGeneration → Checked
  ensure_generation raw expected = if raw.owner_generation == expected.value then ok tt else do
    id ← read_id delegation raw.delegation_id
    err (generation_conflict id expected.value raw.owner_generation)

  unfoldable pub ensure_running_fence : RawDelegation → FencingToken → Checked
  ensure_running_fence raw expected =
      let actual = if ltb 0 raw.fencing_token then some raw.fencing_token else none in
      if raw.state == "running" && actual == some expected.value then ok tt else do
        id ← read_id delegation raw.delegation_id
        err (fencing_conflict id expected.value actual)

  unfoldable pub ensure_monotonic_timestamp : RawDelegation → ℕ → String → Checked
  ensure_monotonic_timestamp raw timestamp_ms name = guard (leb raw.updated_at_ms timestamp_ms) (
      invalid (
        String.◌++◌ name (
          String.◌++◌ " " (
            String.◌++◌ (formats.number timestamp_ms) (
              String.◌++◌ " precedes the previous update at "
                (formats.number raw.updated_at_ms))))))

  unfoldable pub ensure_active_lease : RawDelegation → ℕ → Checked
  ensure_active_lease raw mutation_at_ms = do
    deadline ← ok_or raw.lease_expires_at_ms (invalid "running delegation has no lease deadline")
    mutation ← to_i64 mutation_at_ms "worker mutation timestamp"
    guard (ltb mutation deadline)
        (invalid (String.◌++◌ "delegation worker lease expired at " (formats.number deadline)))
