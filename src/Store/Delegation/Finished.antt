-- ===== src/Store/Delegation/Finished.antt =====
-- What `settle_delegation` writes, the last statements of `finish` of
-- apps/hermesd/src/adapters/sqlite_delegation.rs.
use hermes_rs.Prelude.{
  ℕ, ◌+◌, ◌≡◌, ◌≢◌, refl, sym, ◌∙◌, ap, String, true, false, subst, none, some, List, [], ◌∷◌, ◌++◌,
  ok, >>=-eq-ok, map_err-eq-ok, ok-injective, string_eq, nat_eq, arith, Option-cases, inl, inr,
}
use hermes_rs.Domain.Delegation.{
  DelegationId, OwnerGeneration, FencingToken, DelegationTerminal, completed, failed, cancelled,
  outcome_unknown, terminal_name, DelegationCompletion,
}
use hermes_rs.Store.Table.{find_row-key, find_row-update, update}
use hermes_rs.Store.Delegation.{RawDelegation, Formats, storage, to_i64, increment}
use hermes_rs.Store.Delegation.Rows.{find_delegation, completion_from_raw}
use hermes_rs.Store.Delegation.Moves.{commission}
use hermes_rs.Store.Delegation.Lifecycle.{
  Tables, CompletionRow, conflict, is_fenced, update_one, finished_row, encode_terminal,
  insert_completion,
}
use hermes_rs.Store.Delegation.Finish.{settle_delegation}
use hermes_rs.Store.Delegation.Legal.{to_i64-eq-ok, increment-eq-ok, update_one-eq-ok}
use hermes_rs.Store.Delegation.Report.{
  IsReport, completion_from_raw-IsReport, IsQueued, insert_completion-IsQueued,
}

-- The text of an outcome in the column `state`.
pub data IsStateText : DelegationTerminal → String → Type 0 where
  says_completed : {summary : String} → IsStateText (completed summary) "completed"
  says_failed : {error : String} → IsStateText (failed error) "failed"
  says_cancelled : {reason : String} → IsStateText (cancelled reason) "cancelled"
  says_unknown : {reason : String} → IsStateText (outcome_unknown reason) "outcome_unknown"

terminal_name-IsStateText :
    (outcome : DelegationTerminal) → IsStateText outcome (terminal_name outcome)
unfolding terminal_name
terminal_name-IsStateText (completed _) = says_completed
terminal_name-IsStateText (failed _) = says_failed
terminal_name-IsStateText (cancelled _) = says_cancelled
terminal_name-IsStateText (outcome_unknown _) = says_unknown

-- What a worker's terminal leaves: the row of the delegation ended, the rows of the others as they were,
-- and its completion waiting for delivery.
pub record IsFinished (formats : Formats) (tables tables' : Tables) (before : RawDelegation)
    (result : DelegationTerminal) (now : ℕ) (completion : DelegationCompletion) : Type 0 where
  pub after : RawDelegation
  pub stored : find_delegation before.delegation_id tables'.delegations ≡ some after
  pub state : IsStateText result after.state
  pub generation : after.owner_generation ≡ before.owner_generation + 1
  pub fence : after.fencing_token ≡ before.fencing_token
  pub released : after.lease_expires_at_ms ≡ none
  pub text : String
  pub encoded : formats.terminal.encode result ≡ ok text
  pub outcome : after.terminal_json ≡ some text
  pub settled : after.cancellation_reason ≡ none
  pub time : after.updated_at_ms ≡ now
  pub same_commission : commission after ≡ commission before
  pub others :
      (id : String)
      → id ≢ before.delegation_id
      → find_delegation id tables'.delegations ≡ find_delegation id tables.delegations
  pub report : IsReport before result now completion
  pub row : CompletionRow
  pub added : tables'.completions ≡ tables.completions ++ row ∷ []
  pub queued : IsQueued formats completion row

module _ (id : String) (generation token : ℕ) (change : RawDelegation → RawDelegation)
    (keeps : (row : RawDelegation) → (change row).delegation_id ≡ row.delegation_id)
    (rows : List RawDelegation) where
  find-fenced :
      (raw : RawDelegation)
      → find_delegation id rows ≡ some raw
      → raw.state ≡ "running"
      → raw.owner_generation ≡ generation
      → raw.fencing_token ≡ token
      → find_delegation id (update (is_fenced id generation token) change rows) ≡ some (change raw)
  find-fenced raw found runs g t =
      let here = find_row-key (λ row. row.delegation_id) id rows raw found in
      let hit : is_fenced id generation token raw ≡ true = ground (
        arith,
        here,
        runs,
        g,
        t,
        string_eq.eq_iff_same raw.delegation_id id,
        string_eq.eq_iff_same raw.state "running",
      ) in
      find_row-update (is_fenced id generation token) change (λ row. row.delegation_id) keeps id
        rows
      ∙ rw (found, hit) refl

  find-fenced_other :
      (key : String)
      → key ≢ id
      → find_delegation key (update (is_fenced id generation token) change rows)
        ≡ find_delegation key rows
  find-fenced_other key other =
      let moved =
        find_row-update (is_fenced id generation token) change (λ row. row.delegation_id) keeps key
          rows in
      elim (Option-cases (find_delegation key rows)) [
        | inl missing ↦ moved ∙ rw missing refl
        | inr (row, found) ↦
            let here = find_row-key (λ row. row.delegation_id) key rows row found in
            let miss : is_fenced id generation token row ≡ false =
              ground (arith, here, other, string_eq.eq_iff_same row.delegation_id id) in
            moved ∙ rw (found, miss) refl
      ]

pub settle_delegation-IsFinished :
    (formats : Formats) (tables : Tables) (id : DelegationId) (expected : OwnerGeneration)
    (token : FencingToken) (outcome : DelegationTerminal) (completed_at_ms : ℕ)
    (raw : RawDelegation) (tables' : Tables) (completion : DelegationCompletion)
    → find_delegation id.value tables.delegations ≡ some raw
    → raw.state ≡ "running"
    → raw.owner_generation ≡ expected.value
    → raw.fencing_token ≡ token.value
    → settle_delegation formats tables raw id expected token outcome completed_at_ms
      ≡ ok (tables', completion)
    → IsFinished formats tables tables' raw outcome completed_at_ms completion
unfolding settle_delegation
settle_delegation-IsFinished formats tables id expected token outcome completed_at_ms raw tables'
      completion found runs g f h =
    let (c, described, h1) =
      >>=-eq-ok (completion_from_raw formats raw outcome completed_at_ms) _ h in
    let (next, stepped, h2) = >>=-eq-ok (increment raw.owner_generation "owner generation") _ h1 in
    let (text, encoded, h3) = >>=-eq-ok (encode_terminal formats outcome) _ h2 in
    let (now, now_fits, h4) = >>=-eq-ok (to_i64 completed_at_ms "completion timestamp") _ h3 in
    let (current, c_fits, h5) = >>=-eq-ok (to_i64 expected.value "expected generation") _ h4 in
    let (fence, f_fits, h6) = >>=-eq-ok (to_i64 token.value "fencing token") _ h5 in
    let change : RawDelegation → RawDelegation =
      finished_row (terminal_name outcome) next text now in
    let (rows, changed, h7) =
      >>=-eq-ok
        (update_one (is_fenced id.value current fence)
          (finished_row (terminal_name outcome) next text now)
          (conflict id expected.value raw.owner_generation) tables.delegations)
        _ h6 in
    let (completions, inserted, h8) =
      >>=-eq-ok (insert_completion formats tables.completions c) _ h7 in
    let updated =
      update_one-eq-ok (is_fenced id.value current fence) change
        (conflict id expected.value raw.owner_generation) tables.delegations rows changed in
    let key = find_row-key (λ row. row.delegation_id) id.value tables.delegations raw found in
    let (row, added, queued) =
      insert_completion-IsQueued formats tables.completions completions c inserted in
    let same = ok-injective h8 in
    let same_rows = ap (λ t. t.0.delegations) same in
    let same_completion = ap (λ t. t.1) same in
    let g' = g ∙ sym (to_i64-eq-ok expected.value "expected generation" current c_fits) in
    let f' = f ∙ sym (to_i64-eq-ok token.value "fencing token" fence f_fits) in
    record {
      after = change raw;
      stored =
          subst (λ k. find_delegation k tables'.delegations ≡ some (change raw)) (sym key)
            (subst (λ r. find_delegation id.value r ≡ some (change raw)) (updated ∙ same_rows)
              (find-fenced id.value current fence change (λ row. refl) tables.delegations raw found
                runs g' f'));
      state = terminal_name-IsStateText outcome;
      generation = increment-eq-ok raw.owner_generation "owner generation" next stepped;
      fence = refl;
      released = refl;
      text = text;
      encoded = map_err-eq-ok (λ e. storage e.message) encoded;
      outcome = refl;
      settled = refl;
      time = to_i64-eq-ok completed_at_ms "completion timestamp" now now_fits;
      same_commission = refl;
      others = λ k other.
          subst (λ r. find_delegation k r ≡ find_delegation k tables.delegations)
            (updated ∙ same_rows)
            (find-fenced_other id.value current fence change (λ row. refl) tables.delegations k
              (subst (λ i. k ≢ i) key other));
      report =
          subst (IsReport raw outcome completed_at_ms) same_completion
            (completion_from_raw-IsReport formats raw outcome completed_at_ms c described);
      row = row;
      added = sym (ap (λ t. t.0.completions) same) ∙ added;
      queued = subst (λ d. IsQueued formats d row) same_completion queued;
    }
