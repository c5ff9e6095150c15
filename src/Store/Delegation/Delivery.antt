-- ===== src/Store/Delegation/Delivery.antt =====
-- At most one consumer holds a completion: `claim_completion` of
-- apps/hermesd/src/adapters/sqlite_delegation.rs.
use hermes_rs.Prelude.{
  ℕ, ◌<◌, ◌≡◌, ◌≢◌, refl, sym, subst, String, false, none, some, List, [], ◌∷◌, map, ok, err,
  Result-cases, Bool-cases, ◌⊎◌, inl, inr, arith, All, Fresh, Distinct, ◌==◌, string_eq, nat_eq,
  select,
}
use hermes_rs.Domain.Delegation.{CompletionEventId, DeliveryClaimId, DelegationCompletion}
use hermes_rs.Store.Session.{SessionTables}
use hermes_rs.Store.Table.{update, count}
use hermes_rs.Store.Delegation.{DelegationStoreError, Formats}
use hermes_rs.Store.Delegation.Lifecycle.{Tables, CompletionRow, Stored, commit}
use hermes_rs.Store.Delegation.Outbox.{claim_completion, claim_completion_transaction, claimed}
use hermes_rs.Store.Delegation.Held.{IsGuarded, IsHeld}
use hermes_rs.Store.Delegation.History.{DelegationCall, perform_all}
use hermes_rs.Store.Delegation.Guards.{is_free, claim_completion-eq-ok, IsGuarded-not_free}
use hermes_rs.Store.Delegation.Exclusion.{IsWithin, perform_all-IsHeld}

abbrev pub event_ids : List CompletionRow → List String
event_ids = map λ row. row.event_id

module _ (event : String) (now : ℕ) where
  free-other : (row : CompletionRow) → row.event_id ≢ event → is_free event now row ≡ false
  free-other row other = ground (arith, string_eq.eq_iff_same row.event_id event)

  count-absent :
      (rows : List CompletionRow)
      → Fresh event (event_ids rows)
      → count (is_free event now) rows ≡ 0
  unfolding count select
  count-absent [] h = refl
  count-absent (row ∷ rows) h = rw (free-other row (λ e. h.0 (sym e))) (count-absent rows h.1)

  module _ (claim : String) (deadline : ℕ) where
    abbrev taken : List CompletionRow → List CompletionRow
    taken = update (is_free event now) (claimed claim deadline)

    absent-IsGuarded :
        (rows : List CompletionRow)
        → Fresh event (event_ids rows)
        → All (IsGuarded event claim deadline) (taken rows)
    unfolding update
    absent-IsGuarded [] h = tt
    absent-IsGuarded (row ∷ rows) h =
        rw (free-other row (λ e. h.0 (sym e)))
          ((λ same. absurd (h.0 (sym same))), absent-IsGuarded rows h.1)

    -- The one free row of the event is the one row of the event, and the claim has it.
    taken-IsGuarded :
        (rows : List CompletionRow)
        → Distinct (event_ids rows)
        → count (is_free event now) rows ≡ 1
        → All (IsGuarded event claim deadline) (taken rows)
    unfolding count select update
    taken-IsGuarded [] h one = tt
    taken-IsGuarded (row ∷ rows) h one = elim (Bool-cases (row.event_id == event)) [
      | inl hit ↦
          let key = (string_eq.eq_iff_same row.event_id event).0 hit in
          let absent = subst (λ k. Fresh k (event_ids rows)) key h.0 in
          elim (Bool-cases (is_free event now row)) [
            | inl free ↦ rw free ((λ same. inr (refl, refl)), absent-IsGuarded rows absent)
            | inr busy ↦ absurd (omega (arith, count-absent rows absent, rw busy at one))
          ]
      | inr miss ↦
          let other : row.event_id ≢ event =
            λ e. cc ((string_eq.eq_iff_same row.event_id event).1 e, miss) in
          let busy = free-other row other in
          rw busy ((λ same. absurd (other same)), taken-IsGuarded rows h.1 (rw busy at one))
    ]

module _ (event claim : String) (deadline later : ℕ) (early : later < deadline) where
  count-IsGuarded :
      (rows : List CompletionRow)
      → All (IsGuarded event claim deadline) rows
      → count (is_free event later) rows ≡ 0
  unfolding count select
  count-IsGuarded [] h = refl
  count-IsGuarded (row ∷ rows) h =
      rw (IsGuarded-not_free event claim deadline row later early h.0) (count-IsGuarded rows h.1)

commit-eq-ok :
    {T A : Type 0} (tables : T) (result : Stored (T × A)) (tables' : T) (a : A)
    → commit tables result ≡ (tables', ok a)
    → result ≡ ok (tables', a)
unfolding commit
commit-eq-ok tables (ok (t, b)) tables' a h = cc
commit-eq-ok tables (err e) tables' a h = absurd (cc)

-- A claim gives no completion and changes nothing.
abbrev pub IsRefused : Formats → Tables → CompletionEventId → DeliveryClaimId → ℕ → ℕ → Type 0
IsRefused formats tables event claim_id now until =
    (claim_completion formats tables event claim_id now until ≡ (tables, ok none))
    ⊎ ((e : DelegationStoreError) × (claim_completion formats tables event claim_id now until
          ≡ (tables, err e)))

module _ (formats : Formats) (tables : Tables) (event : CompletionEventId) where
  claimed-IsHeld :
      (claim_id : DeliveryClaimId) (now deadline : ℕ) (tables' : Tables)
      (completion : DelegationCompletion)
      → Distinct (event_ids tables.completions)
      → claim_completion_transaction formats tables event claim_id now deadline
        ≡ ok (tables', some completion)
      → IsHeld event.value claim_id.value deadline tables'.completions
  claimed-IsHeld claim_id now deadline tables' completion distinct done =
      elim (claim_completion-eq-ok formats tables event claim_id now deadline tables'
        (some completion) done) [
          | inl (same, nothing) ↦ absurd (cc (nothing))
          | inr (row, one, updated, found) ↦ record {
            row = row;
            found = found;
            guarded = subst (All (IsGuarded event.value claim_id.value deadline)) updated (
                taken-IsGuarded event.value now claim_id.value deadline tables.completions distinct
                  one);
          }
        ]

  held-IsRefused :
      (claim : String) (deadline : ℕ) (claim_id : DeliveryClaimId) (now until : ℕ)
      → now < deadline
      → IsHeld event.value claim deadline tables.completions
      → IsRefused formats tables event claim_id now until
  unfolding commit
  held-IsRefused claim deadline claim_id now until early held =
      elim (Result-cases (claim_completion_transaction formats tables event claim_id now until)) [
        | inr (e, failed) ↦ inr (e, rw failed refl)
        | inl ((tables', result), done) ↦
            elim (claim_completion-eq-ok formats tables event claim_id now until tables' result
              done) [
                | inl (same, nothing) ↦ inl (rw done (rw (sym same, nothing) refl))
                | inr (row, one, updated, found) ↦ absurd (
                    omega (
                      arith,
                      one,
                      count-IsGuarded event.value claim deadline now early tables.completions
                          held.guarded,
                    ))
              ]
      ]

module _ {S C M : Type 0} (formats : Formats) (sessions : SessionTables S C M) where
  -- After a claim of a completion has succeeded, on a table whose events are distinct, and after any
  -- calls of the store, failed ones included, with no claim of that completion from the deadline of
  -- the first on and no release of it by the first claim's own identifier, every further claim of it
  -- before that deadline gives no completion and changes nothing.
  pub claim_completion-exclusive :
      (s : S) (tables : Tables) (event : CompletionEventId) (first second : DeliveryClaimId)
      (now deadline later until : ℕ) (tables' : Tables) (completion : DelegationCompletion)
      (calls : List (DelegationCall C M))
      → Distinct (event_ids tables.completions)
      → claim_completion formats tables event first now deadline ≡ (tables', ok (some completion))
      → All (IsWithin event.value first.value deadline) calls
      → later < deadline
      → IsRefused formats
          (perform_all formats sessions (s, tables') calls).1
          event
          second
          later
          until
  claim_completion-exclusive s tables event first second now deadline later until tables' completion
        calls distinct claimed_first within early =
      held-IsRefused formats (perform_all formats sessions (s, tables') calls).1 event first.value
        deadline second later until early
        (perform_all-IsHeld event.value first.value deadline formats sessions (s, tables') calls
          within
          (claimed-IsHeld formats tables event first now deadline tables' completion distinct
            (commit-eq-ok tables _ tables' (some completion) claimed_first)))
