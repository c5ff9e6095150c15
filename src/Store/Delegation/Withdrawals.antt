-- ===== src/Store/Delegation/Withdrawals.antt =====
-- `cancel` of apps/hermesd/src/adapters/sqlite_delegation.rs makes a legal move.
use hermes_rs.Prelude.{
  ℕ, ◌+◌, ◌≤◌, ◌≡◌, refl, ◌∙◌, ap, subst, String, Bool, ◌&&◌, none, some, ◌==◌, string_eq, nat_eq,
  option_eq, arith, ok, >>=-eq-ok, ok-injective, Bool-cases, Option-cases, inl, inr,
}
use hermes_rs.Domain.Delegation.{DelegationId, OwnerGeneration, cancelled}
use hermes_rs.Store.Delegation.Held.{Keeps, Keeps-same, insert_completion-Keeps}
use hermes_rs.Store.Delegation.{
  RawDelegation, Formats, to_i64, increment, ensure_generation, ensure_monotonic_timestamp,
  ensure_active_lease, validate_detail,
}
use hermes_rs.Store.Delegation.Rows.{find_delegation, load_raw, completion_from_raw}
use hermes_rs.Store.Delegation.Moves.{Moves, steps, stays}
use hermes_rs.Store.Delegation.Changes.{
  withdrawn-Advances, withdrawn-IsRow, asked-IsRow, running-Advances,
}
use hermes_rs.Store.Delegation.Lifecycle.{
  Tables, conflict, is_current, update_one, withdrawn_row, asked_row, encode_terminal,
  insert_completion,
}
use hermes_rs.Store.Delegation.Cancel.{
  cancel_pending, ask_cancellation, cancel_running, cancel_transaction,
}
use hermes_rs.Store.Delegation.Legal.{
  to_i64-eq-ok, increment-eq-ok, load_raw-eq-ok, update_one-eq-ok, later_at, ensure_monotonic-eq-ok,
  is_current-id,
}

module _ (formats : Formats) (tables : Tables) (raw : RawDelegation) (id : DelegationId)
    (expected : OwnerGeneration) (reason : String) (now_ms : ℕ) (tables' : Tables)
    (found : find_delegation id.value tables.delegations ≡ some raw)
    (time : raw.updated_at_ms ≤ now_ms) where
  cancel_pending-Moves :
      raw.state ≡ "pending"
      → cancel_pending formats tables raw id expected reason now_ms ≡ ok tables'
      → Moves tables.delegations tables'.delegations × Keeps tables.completions tables'.completions
  unfolding cancel_pending
  cancel_pending-Moves waits h =
      let (c, described, h1) =
        >>=-eq-ok (completion_from_raw formats raw (cancelled reason) now_ms) _ h in
      let (next, stepped, h2) =
        >>=-eq-ok (increment raw.owner_generation "owner generation") _ h1 in
      let (text, encoded, h3) = >>=-eq-ok (encode_terminal formats (cancelled reason)) _ h2 in
      let (now, now_fits, h4) = >>=-eq-ok (to_i64 now_ms "cancellation timestamp") _ h3 in
      let (current, c_fits, h5) = >>=-eq-ok (to_i64 expected.value "expected generation") _ h4 in
      let (rows, changed, h6) =
        >>=-eq-ok
          (update_one (is_current id.value "pending" current) (withdrawn_row next text now)
            (conflict id expected.value raw.owner_generation) tables.delegations)
          _ h5 in
      let (completions, inserted, h7) =
        >>=-eq-ok (insert_completion formats tables.completions c) _ h6 in
      let later = later_at time (to_i64-eq-ok now_ms "cancellation timestamp" now now_fits) in
      let grown = increment-eq-ok raw.owner_generation "owner generation" next stepped in
      (
        steps (record {
          id = id.value;
          raw = raw;
          test = is_current id.value "pending" current;
          change = withdrawn_row next text now;
          found = found;
          only = is_current-id id.value "pending" current;
          keeps = λ row. refl;
          advances = λ hit well. withdrawn-Advances raw well now later next grown waits text;
          well = λ hit well. withdrawn-IsRow raw well now later next grown waits text;
          updated =
              update_one-eq-ok (is_current id.value "pending" current) (withdrawn_row next text now)
                (conflict id expected.value raw.owner_generation) tables.delegations rows changed
              ∙ ap (λ t. t.delegations) (ok-injective h7);
        }),
        subst (Keeps tables.completions) (ap (λ t. t.completions) (ok-injective h7))
            (insert_completion-Keeps formats tables.completions completions c inserted),
      )

  abbrev unasked : ℕ → RawDelegation → Bool
  unasked current row =
      is_current id.value "running" current row
      && row.cancellation_reason == none
      && row.cancellation_requested_at_ms == none

  ask_cancellation-Moves :
      raw.state ≡ "running"
      → ask_cancellation formats tables raw id expected reason now_ms ≡ ok tables'
      → Moves tables.delegations tables'.delegations × Keeps tables.completions tables'.completions
  unfolding ask_cancellation
  ask_cancellation-Moves runs h =
      let (now, now_fits, h1) = >>=-eq-ok (to_i64 now_ms "cancellation timestamp") _ h in
      let (current, c_fits, h2) = >>=-eq-ok (to_i64 expected.value "expected generation") _ h1 in
      let (rows, changed, h3) =
        >>=-eq-ok
          (update_one (unasked current) (asked_row reason now)
            (conflict id expected.value raw.owner_generation) tables.delegations)
          _ h2 in
      let later = later_at time (to_i64-eq-ok now_ms "cancellation timestamp" now now_fits) in
      let next = raw.owner_generation + 1 in
      (
        steps (record {
          id = id.value;
          raw = raw;
          test = unasked current;
          change = asked_row reason now;
          found = found;
          only = λ row h. ground (arith, string_eq.eq_iff_same row.delegation_id id.value);
          keeps = λ row. refl;
          advances = λ hit well.
              running-Advances raw well now later next refl runs (asked_row reason now raw) refl
                (omega arith) refl refl;
          well = λ hit well. asked-IsRow raw well now later next refl runs reason;
          updated =
              update_one-eq-ok (unasked current) (asked_row reason now)
                (conflict id expected.value raw.owner_generation) tables.delegations rows changed
              ∙ ap (λ t. t.delegations) (ok-injective h3);
        }),
        Keeps-same (ap (λ t. t.completions) (ok-injective h3)),
      )

  cancel_running-Moves :
      raw.state ≡ "running"
      → cancel_running formats tables raw id expected reason now_ms ≡ ok tables'
      → Moves tables.delegations tables'.delegations × Keeps tables.completions tables'.completions
  unfolding cancel_running
  cancel_running-Moves runs h =
      let (u, active, h1) = >>=-eq-ok (ensure_active_lease formats raw now_ms) _ h in
      elim (Option-cases raw.cancellation_reason) [
        | inl absent ↦ elim (Option-cases raw.cancellation_requested_at_ms) [
          | inl unset ↦ ask_cancellation-Moves runs (rw (absent, unset) at h1)
          | inr (t, set) ↦ absurd (cc (rw (absent, set) at h1))
        ]
        | inr (existing, present) ↦ elim (Option-cases raw.cancellation_requested_at_ms) [
          | inl unset ↦ absurd (cc (rw (present, unset) at h1))
          | inr (t, set) ↦ elim (Bool-cases (existing == reason)) [
            | inl same ↦
                subst
                  (λ t.
                    Moves tables.delegations t.delegations × Keeps tables.completions t.completions)
                  (ok-injective (rw (present, set, same) at h1))
                  (stays tables.delegations, Keeps-same refl)
            | inr other ↦ absurd (cc (rw (present, set, other) at h1))
          ]
        ]
      ]

module _ (formats : Formats) where
  pub cancel-Moves :
      (tables : Tables) (id : DelegationId) (expected : OwnerGeneration) (reason : String)
      (now_ms : ℕ) (tables' : Tables)
      → cancel_transaction formats tables id expected reason now_ms ≡ ok tables'
      → Moves tables.delegations tables'.delegations × Keeps tables.completions tables'.completions
  unfolding cancel_transaction
  cancel-Moves tables id expected reason now_ms tables' h =
      let (u, valid, h1) =
        >>=-eq-ok (validate_detail reason "delegation cancellation reason") _ h in
      let (raw, loaded, h2) = >>=-eq-ok (load_raw tables.delegations id) _ h1 in
      let (v, generation, h3) = >>=-eq-ok (ensure_generation formats raw expected) _ h2 in
      let (w, timed, h4) =
        >>=-eq-ok (ensure_monotonic_timestamp formats raw now_ms "cancellation timestamp") _ h3 in
      let found = load_raw-eq-ok tables.delegations id raw loaded in
      let time = ensure_monotonic-eq-ok formats raw now_ms "cancellation timestamp" timed in
      elim (Bool-cases (raw.state == "pending")) [
        | inl waits ↦
            cancel_pending-Moves formats tables raw id expected reason now_ms tables' found time
              ((string_eq.eq_iff_same raw.state "pending").0 waits) (rw waits at h4)
        | inr waits_not ↦ elim (Bool-cases (raw.state == "running")) [
          | inl runs ↦
              cancel_running-Moves formats tables raw id expected reason now_ms tables' found time
                ((string_eq.eq_iff_same raw.state "running").0 runs) (rw (waits_not, runs) at h4)
          | inr other ↦ absurd (cc (rw (waits_not, other) at h4))
        ]
      ]
