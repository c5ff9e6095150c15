-- ===== src/Store/Delegation/Outbox.antt =====
-- apps/hermesd/src/adapters/sqlite_delegation.rs: the completions that wait for delivery, and the
-- claims on them.
use Prim.Native.String
use hermes_rs.Prelude.{
  ℕ, suc, String, Bool, false, not, ◌&&◌, ◌||◌, Option, none, some, List, ok, err, ◌>>=◌, ◌>>◌,
  guard, map_err, ok_or, if◌then◌else◌, ◌==◌, string_eq, nat_eq, option_eq, ltb, leb, select,
  traverse, take,
}
use hermes_rs.Domain.Delegation.{
  CompletionEventId, DeliveryClaimId, SessionId, DelegationCompletion,
}
use hermes_rs.Store.Table.{find_row, update, count, order_by, text_le}
use hermes_rs.Store.Delegation.{invalid, storage, RawDelegation, Formats, to_i64, validate_claim}
use hermes_rs.Store.Delegation.Lifecycle.{CompletionRow, Tables, Stored, commit}
use hermes_rs.Store.Delegation.Rows.{find_delegation}

-- `delivery_claim_id IS NULL OR delivery_claim_expires_at_ms <= ?`
abbrev pub unclaimed : ℕ → CompletionRow → Bool
unclaimed now row =
    row.delivery_claim_id == none
    || (elim row.delivery_claim_expires_at_ms [ none ↦ false | some deadline ↦ leb deadline now ])

abbrev pub is_available : ℕ → CompletionRow → Bool
is_available now row = row.delivery_state == "pending" && unclaimed now row

abbrev pub oldest_event_first : CompletionRow → CompletionRow → Bool
oldest_event_first a b =
    ltb a.created_at_ms b.created_at_ms
    || a.created_at_ms == b.created_at_ms && text_le a.event_id b.event_id

abbrev pub is_claimed_by : String → String → CompletionRow → Bool
is_claimed_by event claim row =
    row.event_id == event && row.delivery_state == "pending" && row.delivery_claim_id == some claim

-- What the statements set.
abbrev pub claimed : String → ℕ → CompletionRow → CompletionRow
claimed claim deadline row = record row {
  delivery_claim_id = some claim;
  delivery_claim_expires_at_ms = some deadline;
  delivery_attempts = suc row.delivery_attempts;
}

abbrev pub delivered : ℕ → CompletionRow → CompletionRow
delivered time row = record row {
  delivery_state = "delivered";
  delivered_at_ms = some time;
  delivery_claim_id = none;
  delivery_claim_expires_at_ms = none;
}

abbrev pub released : CompletionRow → CompletionRow
released row = record row { delivery_claim_id = none; delivery_claim_expires_at_ms = none }

-- The join with the delegation of a completion.
abbrev pub belongs_to : List RawDelegation → String → CompletionRow → Bool
belongs_to rows parent row = elim (find_delegation row.delegation_id rows) [
  | none ↦ false
  | some raw ↦ raw.parent_session_id == parent
]

abbrev pub find_event : String → List CompletionRow → Option CompletionRow
find_event = find_row λ row. row.event_id

module _ (formats : Formats) where
  unfoldable pub decode_completion : CompletionRow → Stored DelegationCompletion
  decode_completion row =
      map_err (λ e. invalid (String.◌++◌ "stored delegation completion is invalid: " e.message))
        (formats.completion.decode row.payload_json)

  unfoldable pub available_completions : Tables → ℕ → ℕ → Stored (List DelegationCompletion)
  available_completions tables now_ms limit = do
    guard (not (limit == 0)) (invalid "completion limit must be greater than zero")
    now ← to_i64 now_ms "completion availability timestamp"
    count' ← to_i64 limit "completion limit"
    traverse decode_completion
        (take count' (order_by oldest_event_first (select (is_available now) tables.completions)))

  unfoldable pub available_completions_for :
      Tables → SessionId → ℕ → ℕ → Stored (List DelegationCompletion)
  available_completions_for tables parent_session_id now_ms limit = do
    guard (not (limit == 0)) (invalid "completion limit must be greater than zero")
    now ← to_i64 now_ms "completion availability timestamp"
    count' ← to_i64 limit "completion limit"
    traverse decode_completion (
        take count' (
          order_by oldest_event_first (
            select
              (λ row.
                is_available now row && belongs_to tables.delegations parent_session_id.value row)
              tables.completions)))

  -- The count of rows is at most one: `event_id` is the primary key.
  unfoldable pub claim_completion_transaction :
      Tables
      → CompletionEventId
      → DeliveryClaimId
      → ℕ
      → ℕ
      → Stored (Tables × Option DelegationCompletion)
  claim_completion_transaction tables event_id claim_id now_ms claim_expires_at_ms = do
    validate_claim now_ms claim_expires_at_ms
    deadline ← to_i64 claim_expires_at_ms "delivery claim deadline"
    now ← to_i64 now_ms "delivery claim timestamp"
    let free : CompletionRow → Bool = λ row. row.event_id == event_id.value && is_available now row
    let rows : List CompletionRow = update free (claimed claim_id.value deadline) tables.completions
    if not (count free tables.completions == 1) then ok (tables, none) else do
      row ← ok_or (find_event event_id.value rows) (storage formats.no_rows)
      completion ← decode_completion row
      ok (record tables { completions = rows }, some completion)

  abbrev pub claim_completion :
      Tables
      → CompletionEventId
      → DeliveryClaimId
      → ℕ
      → ℕ
      → Tables × Stored (Option DelegationCompletion)
  claim_completion tables event_id claim_id now_ms claim_expires_at_ms =
      commit tables
        (claim_completion_transaction tables event_id claim_id now_ms claim_expires_at_ms)

unfoldable pub acknowledge_completion :
    Tables → CompletionEventId → DeliveryClaimId → ℕ → Tables × Stored Bool
acknowledge_completion tables event_id claim_id delivered_at_ms =
    elim (to_i64 delivered_at_ms "delivery timestamp") [
      | err e ↦ (tables, err e)
      | ok time ↦
          let test : CompletionRow → Bool =
            λ row. is_claimed_by event_id.value claim_id.value row && leb row.created_at_ms time in
          (
            record tables { completions = update test (delivered time) tables.completions },
            ok (count test tables.completions == 1),
          )
    ]

unfoldable pub release_completion :
    Tables → CompletionEventId → DeliveryClaimId → Tables × Stored Bool
release_completion tables event_id claim_id =
    let test : CompletionRow → Bool = is_claimed_by event_id.value claim_id.value in
    (
      record tables { completions = update test released tables.completions },
      ok (count test tables.completions == 1),
    )
