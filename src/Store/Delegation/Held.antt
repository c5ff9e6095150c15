-- ===== src/Store/Delegation/Held.antt =====
-- A completion that one claim holds: what `delegation_completions` of
-- apps/hermesd/src/adapters/sqlite.rs says of it until the claim expires.
use hermes_rs.Prelude.{
  ℕ, ◌≡◌, ◌≢◌, refl, ◌∙◌, ap, subst, String, Bool, true, some, none, List, ◌⊎◌, ok, guard, map_err,
  >>=-eq-ok, ok-injective, ◌==◌, ◌||◌, string_eq, nat_eq, arith, All, All-append,
}
use hermes_rs.Domain.Delegation.{DelegationCompletion}
use hermes_rs.Store.Table.{
  update, change_if, count, count-zero, find_row-append, find_row-update, All-update,
}
use hermes_rs.Store.Delegation.{Formats, to_i64, storage}
use hermes_rs.Store.Delegation.Lifecycle.{CompletionRow, insert_completion}
use hermes_rs.Store.Delegation.Outbox.{find_event}

-- If the row is of this event, it is delivered or the claim has it until the deadline.
abbrev pub IsGuarded : String → String → ℕ → CompletionRow → Type 0
IsGuarded event claim deadline row =
    row.event_id ≡ event
    → (row.delivery_state ≢ "pending")
      ⊎ ((row.delivery_claim_id ≡ some claim) × (row.delivery_claim_expires_at_ms ≡ some deadline))

pub record IsHeld (event claim : String) (deadline : ℕ) (rows : List CompletionRow) : Type 0 where
  pub row : CompletionRow
  pub found : find_event event rows ≡ some row
  pub guarded : All (IsGuarded event claim deadline) rows

-- What is held stays held.
pub record Keeps (rows rows' : List CompletionRow) : Type 0 where
  pub carry :
      (event claim : String) (deadline : ℕ)
      → IsHeld event claim deadline rows
      → IsHeld event claim deadline rows'

pub Keeps-same : {rows rows' : List CompletionRow} → rows ≡ rows' → Keeps rows rows'
Keeps-same same = record {
  carry = λ event claim deadline. subst (IsHeld event claim deadline) same;
}

pub Keeps-trans : {a b c : List CompletionRow} → Keeps a b → Keeps b c → Keeps a c
Keeps-trans p q = record {
  carry = λ event claim deadline h. q.carry event claim deadline (p.carry event claim deadline h);
}

pub update-IsHeld :
    (event claim : String) (deadline : ℕ) (test : CompletionRow → Bool)
    (change : CompletionRow → CompletionRow)
    → ((row : CompletionRow) → (change row).event_id ≡ row.event_id)
    → ((row : CompletionRow)
        → test row ≡ true
        → IsGuarded event claim deadline row
        → IsGuarded event claim deadline (change row))
    → (rows : List CompletionRow) → IsHeld event claim deadline rows
    → IsHeld event claim deadline (update test change rows)
update-IsHeld event claim deadline test change same keeps rows h = record {
  row = change_if test change h.row;
  found = find_row-update test change (λ row. row.event_id) same event rows ∙ rw h.found refl;
  guarded = All-update test change (IsGuarded event claim deadline) keeps rows h.guarded;
}

-- The completions that an insertion adds are of other events.
pub insert_completion-Keeps :
    (formats : Formats) (rows rows' : List CompletionRow) (completion : DelegationCompletion)
    → insert_completion formats rows completion ≡ ok rows'
    → Keeps rows rows'
unfolding insert_completion
insert_completion-Keeps formats rows rows' completion done = record {
  carry = λ event claim deadline h.
      let (payload, encoded, h1) =
        >>=-eq-ok (map_err (λ e. storage e.message) (formats.completion.encode completion)) _
          done in
      let (time, fits, h2) =
        >>=-eq-ok (to_i64 completion.completed_at_ms "completion timestamp") _ h1 in
      let taken : CompletionRow → Bool = λ row.
        row.event_id == completion.event_id.value
        || row.delegation_id == completion.delegation_id.value in
      let (u, fresh, h3) =
        >>=-eq-ok (guard (count taken rows == 0) (storage formats.constraint)) _ h2 in
      let none_taken : count taken rows ≡ 0 =
        ground (arith, nat_eq.eq_iff_same (count taken rows) 0) in
      let absent : find_event completion.event_id.value rows ≡ none =
        count-zero (λ row. row.event_id) taken completion.event_id.value rows
          (λ row same. ground (arith, string_eq.eq_iff_same row.event_id completion.event_id.value))
          none_taken in
      let other : completion.event_id.value ≢ event =
        λ same. cc (ap (λ k. find_event k rows) same, absent, h.found) in
      subst (IsHeld event claim deadline) (ok-injective h3) (record {
        row = h.row;
        found = find_row-append (λ row. row.event_id) event rows _ h.row h.found;
        guarded =
            All-append (IsGuarded event claim deadline) rows _ h.guarded
              ((λ same. absurd (other same)), tt);
      });
}
