-- ===== src/Store/Delegation/Report.antt =====
-- The completion that a terminal delegation reports, and its row: `completion_from_raw` and
-- `insert_completion` of apps/hermesd/src/adapters/sqlite_delegation.rs.
use hermes_rs.Prelude.{
  ℕ, ◌≡◌, refl, sym, ◌∙◌, ap, String, none, List, [], ◌∷◌, ◌++◌, ok, guard, map_err, >>=-eq-ok,
  map_err-eq-ok, ok-injective, ◌==◌, string_eq, nat_eq, arith,
}
use hermes_rs.Domain.Id.{IdKind, OpaqueId, completion_event, delegation, session, new_id}
use hermes_rs.Domain.Delegation.{DelegationTerminal, DelegationCompletion}
use hermes_rs.Store.Table.{count}
use hermes_rs.Store.Delegation.{
  RawDelegation, Formats, invalid, storage, read_id, to_i64, validate_spec,
}
use hermes_rs.Store.Delegation.Rows.{spec_from_raw, completion_from_raw}
use hermes_rs.Store.Delegation.Lifecycle.{CompletionRow, insert_completion}

new_id-value : (k : IdKind) (s : String) (id : OpaqueId k) → new_id k s ≡ ok id → id.value ≡ s
unfolding new_id
new_id-value k s id h = ground arith

read_id-value :
    (formats : Formats) (k : IdKind) (s : String) (id : OpaqueId k)
    → read_id formats k s ≡ ok id
    → id.value ≡ s
read_id-value formats k s id h =
    new_id-value k s id (map_err-eq-ok (λ e. invalid (formats.id_error e)) h)

-- The completion that a terminal delegation reports.
pub record IsReport (row : RawDelegation) (outcome : DelegationTerminal) (now : ℕ)
    (completion : DelegationCompletion) : Type 0 where
  pub event : completion.event_id.value ≡ row.completion_event_id
  pub delegation : completion.delegation_id.value ≡ row.delegation_id
  pub parent : completion.spec.parent_session_id.value ≡ row.parent_session_id
  pub goal : completion.spec.goal ≡ row.goal
  pub reported : completion.outcome ≡ outcome
  pub time : completion.completed_at_ms ≡ now

pub completion_from_raw-IsReport :
    (formats : Formats) (raw : RawDelegation) (outcome : DelegationTerminal) (now : ℕ)
    (completion : DelegationCompletion)
    → completion_from_raw formats raw outcome now ≡ ok completion
    → IsReport raw outcome now completion
unfolding completion_from_raw spec_from_raw
completion_from_raw-IsReport formats raw outcome now completion h =
    let (spec, read, done) = >>=-eq-ok (spec_from_raw formats raw) _ h in
    let (id, a, h1) = >>=-eq-ok (read_id formats delegation raw.delegation_id) _ read in
    let (event, b, h2) =
      >>=-eq-ok (read_id formats completion_event raw.completion_event_id) _ h1 in
    let (parent, c, h3) = >>=-eq-ok (read_id formats session raw.parent_session_id) _ h2 in
    let (child, d, h4) = >>=-eq-ok (read_id formats session raw.child_session_id) _ h3 in
    let (u, valid, h5) = >>=-eq-ok (validate_spec _) _ h4 in
    let made = ok-injective h5 in
    let same = ok-injective done in
    record {
      event =
          ap (λ t. t.event_id.value) (sym same)
          ∙ ap (λ t. t.completion_event_id.value) (sym made)
          ∙ read_id-value formats completion_event raw.completion_event_id event b;
      delegation =
          ap (λ t. t.delegation_id.value) (sym same)
          ∙ ap (λ t. t.delegation_id.value) (sym made)
          ∙ read_id-value formats delegation raw.delegation_id id a;
      parent =
          ap (λ t. t.spec.parent_session_id.value) (sym same)
          ∙ ap (λ t. t.parent_session_id.value) (sym made)
          ∙ read_id-value formats session raw.parent_session_id parent c;
      goal = ap (λ t. t.spec.goal) (sym same) ∙ ap (λ t. t.goal) (sym made);
      reported = ap (λ t. t.outcome) (sym same);
      time = ap (λ t. t.completed_at_ms) (sym same);
    }

-- The row of a completion that waits for delivery.
pub record IsQueued (formats : Formats) (completion : DelegationCompletion) (row : CompletionRow)
    : Type 0 where
  pub event : row.event_id ≡ completion.event_id.value
  pub delegation : row.delegation_id ≡ completion.delegation_id.value
  pub payload : formats.completion.encode completion ≡ ok row.payload_json
  pub waits : row.delivery_state ≡ "pending"
  pub unclaimed : row.delivery_claim_id ≡ none

pub insert_completion-IsQueued :
    (formats : Formats) (rows rows' : List CompletionRow) (completion : DelegationCompletion)
    → insert_completion formats rows completion ≡ ok rows'
    → (row : CompletionRow) × (rows' ≡ rows ++ row ∷ []) × IsQueued formats completion row
unfolding insert_completion
insert_completion-IsQueued formats rows rows' completion h =
    let (payload, encoded, h1) =
      >>=-eq-ok (map_err (λ e. storage e.message) (formats.completion.encode completion)) _ h in
    let (time, fits, h2) =
      >>=-eq-ok (to_i64 completion.completed_at_ms "completion timestamp") _ h1 in
    let (u, fresh, done) =
      >>=-eq-ok (guard (count _ rows == 0) (storage formats.constraint)) _ h2 in
    (
      _,
      sym (ok-injective done),
      record {
        event = refl;
        delegation = refl;
        payload = map_err-eq-ok (λ e. storage e.message) encoded;
        waits = refl;
        unclaimed = refl;
      },
    )
