-- ===== src/Store/Delegation/Children.antt =====
-- The methods of apps/hermesd/src/adapters/sqlite_delegation.rs that use the session tables make legal
-- moves.
use hermes_rs.Prelude.{
  ℕ, ◌≡◌, refl, ap, subst, ◌∙◌, String, Bool, some, ◌||◌, List, ◌==◌, string_eq, nat_eq, option_eq,
  arith, ok, guard, >>=-eq-ok, ok-injective,
}
use hermes_rs.Domain.Delegation.{DelegationId, OwnerGeneration, DelegationCompletion}
use hermes_rs.Store.Table.{count-zero, count}
use hermes_rs.Store.Delegation.Held.{Keeps, Keeps-same}
use hermes_rs.Store.Delegation.{
  DelegationStoreError, RawDelegation, Formats, to_i64, validate_terminal,
}
use hermes_rs.Store.Delegation.Rows.{find_delegation, load_raw}
use hermes_rs.Store.Delegation.Moves.{state_check, row_check, is_asked_well, IsRow, Moves}
use hermes_rs.Store.Delegation.Lifecycle.{Tables}
use hermes_rs.Store.Delegation.Finish.{settle_delegation, ensure_worker}
use hermes_rs.Store.Delegation.Legal.{load_raw-eq-ok}
use hermes_rs.Prelude.{map_err}
use hermes_rs.Store.Session.{SessionTables}
use hermes_rs.Store.Delegation.{to_i64, validate_spec, already_exists, storage}
use hermes_rs.Store.Delegation.Rows.{read_counter}
use hermes_rs.Domain.Id.{session, owner_generation}
use hermes_rs.Domain.Delegation.{DelegationSpec, DelegationAuthority, DelegationSnapshot, completed}
use hermes_rs.Store.Delegation.{read_id}
use hermes_rs.Store.Delegation.Child.{
  session_error, created_row, ensure_session_exists, create_delegation_in_transaction,
  complete_child_transaction,
}
use hermes_rs.Store.Delegation.Moves.{creates, IsNew, id_of, event_of, child_of}
use hermes_rs.Store.Delegation.Ends.{settle_delegation-Moves, ensure_worker-eq-ok}

guard_zero : {n : ℕ} (e : DelegationStoreError) → guard (n == 0) e ≡ ok tt → n ≡ 0
guard_zero {n} e h = ground (arith, nat_eq.eq_iff_same n 0)

module _ {S C M : Type 0} (formats : Formats) (sessions : SessionTables S C M) where
  created-IsRow : (spec : DelegationSpec) (now : ℕ) → IsRow (created_row formats spec now)
  unfolding row_check state_check is_asked_well
  created-IsRow spec now = record { constrained = ground arith; asked_well = refl }

  pub create-Moves :
      (s : S) (tables : Tables) (spec : DelegationSpec) (now_ms : ℕ) (tables' : Tables)
      (snapshot : DelegationSnapshot)
      → create_delegation_in_transaction formats sessions s tables spec now_ms
        ≡ ok (tables', snapshot)
      → Moves tables.delegations tables'.delegations × Keeps tables.completions tables'.completions
  unfolding create_delegation_in_transaction
  create-Moves s tables spec now_ms tables' snapshot h =
      let taken : RawDelegation → Bool = λ row.
        row.delegation_id == spec.delegation_id.value
        || row.completion_event_id == spec.completion_event_id.value in
      let (u, valid, h1) = >>=-eq-ok (validate_spec spec) _ h in
      let (v, fresh, h2) =
        >>=-eq-ok (guard (count taken tables.delegations == 0) (already_exists spec.delegation_id))
          _ h1 in
      let (w, parent, h3) =
        >>=-eq-ok (ensure_session_exists formats sessions s spec.parent_session_id "parent") _ h2 in
      let (x, child, h4) =
        >>=-eq-ok (ensure_session_exists formats sessions s spec.child_session_id "child") _ h3 in
      let (now, fits, h5) = >>=-eq-ok (to_i64 now_ms "creation timestamp") _ h4 in
      let (y, unique, h6) =
        >>=-eq-ok
          (guard
            (count (λ row. row.child_session_id == spec.child_session_id.value) tables.delegations
              == 0)
            (storage formats.constraint))
          _ h5 in
      let (g, one, h7) = >>=-eq-ok (read_counter formats owner_generation 1) _ h6 in
      let none_taken = guard_zero (already_exists spec.delegation_id) fresh in
      let new : IsNew (created_row formats spec now) tables.delegations = record {
        id =
            count-zero id_of taken spec.delegation_id.value tables.delegations
              (λ row same.
                ground (arith, string_eq.eq_iff_same row.delegation_id spec.delegation_id.value))
              none_taken;
        event =
            count-zero event_of taken spec.completion_event_id.value tables.delegations
              (λ row same. ground (
                arith,
                string_eq.eq_iff_same row.completion_event_id spec.completion_event_id.value,
              ))
              none_taken;
        child =
            count-zero child_of (λ row. row.child_session_id == spec.child_session_id.value)
              spec.child_session_id.value tables.delegations
              (λ row same.
                ground
                  (arith, string_eq.eq_iff_same row.child_session_id spec.child_session_id.value))
              (guard_zero (storage formats.constraint) unique);
      } in
      (
        subst (Moves tables.delegations) (ap (λ t. t.0.delegations) (ok-injective h7)) (
            creates tables.delegations (created_row formats spec now) new (created-IsRow spec now)),
        Keeps-same (ap (λ t. t.0.completions) (ok-injective h7)),
      )

  module _ (s : S) (tables : Tables) (id : DelegationId) (authority : DelegationAuthority)
      (child_generation : OwnerGeneration) (messages : List M) (summary : String)
      (completed_at_ms : ℕ) (s' : S) (tables' : Tables) (completion : DelegationCompletion)
      (done : complete_child_transaction formats sessions
          (s, tables)
          id
          authority
          child_generation
          messages
          summary
          completed_at_ms
        ≡ ok ((s', tables'), completion)) where
    -- The row that a successful `complete_child` has read.
    pub complete_child-eq-ok :
        (raw : RawDelegation) × (find_delegation id.value tables.delegations ≡ some raw)
        × (ensure_worker formats raw authority.owner_generation authority.fencing_token
              (completed summary)
              completed_at_ms
            ≡ ok tt)
        × (settle_delegation formats tables raw id authority.owner_generation
              authority.fencing_token
              (completed summary)
              completed_at_ms
            ≡ ok (tables', completion))
    unfolding complete_child_transaction
    complete_child-eq-ok =
        let (u, valid, h1) = >>=-eq-ok (validate_terminal (completed summary)) _ done in
        let (raw, loaded, h2) = >>=-eq-ok (load_raw tables.delegations id) _ h1 in
        let (v, worker, h3) =
          >>=-eq-ok
            (ensure_worker formats raw authority.owner_generation authority.fencing_token
              (completed summary) completed_at_ms)
            _ h2 in
        let (child, named, h4) = >>=-eq-ok (read_id formats session raw.child_session_id) _ h3 in
        let (s1, appended, h5) =
          >>=-eq-ok
            (map_err (session_error formats)
              (sessions.append_turn s child child_generation messages))
            _ h4 in
        let (settled, ended, h6) =
          >>=-eq-ok
            (settle_delegation formats tables raw id authority.owner_generation
              authority.fencing_token (completed summary) completed_at_ms)
            _ h5 in
        (
          raw,
          load_raw-eq-ok tables.delegations id raw loaded,
          worker,
          ended ∙ ap (λ t. ok (t.0.1, t.1)) (ok-injective h6),
        )

    pub complete_child-Moves :
        Moves tables.delegations tables'.delegations × Keeps tables.completions tables'.completions
    complete_child-Moves =
        let (raw, found, worker, settled) = complete_child-eq-ok in
        let (generation, runs, fence, time, active, legal) =
          ensure_worker-eq-ok formats tables id authority.owner_generation authority.fencing_token
            (completed summary) completed_at_ms raw tables' completion worker in
        settle_delegation-Moves formats tables id authority.owner_generation authority.fencing_token
          (completed summary) completed_at_ms raw tables' completion found runs time settled
