-- ===== src/Store/Delegation/Exclusion.antt =====
-- While a claim on a completion has not expired, which calls of the trait `DelegationStore` leave it in
-- place: apps/hermesd/src/adapters/sqlite_delegation.rs.
use hermes_rs.Prelude.{
  ℕ, ◌<◌, ◌≡◌, ◌≢◌, refl, ap, subst, String, ◌&&◌, List, [], ◌∷◌, ok, err, >>=-eq-ok, ok-injective,
  Result-cases, inl, inr, All, guard, map_err, ◌==◌, string_eq, nat_eq, option_eq, leb,
}
use hermes_rs.Domain.Delegation.{DelegationId, DelegationSpec, DelegationSnapshot}
use hermes_rs.Store.Session.{SessionTables}
use hermes_rs.Store.Delegation.{Formats, to_i64, validate_spec, invalid}
use hermes_rs.Store.Delegation.Held.{IsHeld, Keeps}
use hermes_rs.Store.Delegation.Lifecycle.{Tables, Stored, commit, reread}
use hermes_rs.Store.Delegation.Outbox.{is_claimed_by, acknowledge_completion, release_completion}
use hermes_rs.Store.Delegation.Child.{
  create_with_child_transaction, create_delegation_in_transaction, ensure_session_exists,
  session_error,
}
use hermes_rs.Domain.Id.{id_eq}
use hermes_rs.Store.Delegation.Ends.{finish-Moves}
use hermes_rs.Store.Delegation.Withdrawals.{cancel-Moves}
use hermes_rs.Store.Delegation.Children.{create-Moves, complete_child-Moves}
use hermes_rs.Store.Delegation.Kept.{
  claim-Keeps, heartbeat-Keeps, reconcile_running-Keeps, reconcile_expired-Keeps,
}
use hermes_rs.Store.Delegation.History.{
  DelegationCall, create_call, create_with_child_call, claim_call, heartbeat_call, cancel_call,
  finish_call, complete_child_call, reconcile_expired_call, reconcile_running_call,
  claim_completion_call, acknowledge_call, release_call, perform, perform_all,
}
use hermes_rs.Store.Delegation.Guards.{
  claim_completion-eq-ok, claim-IsHeld, acknowledge-IsHeld, release-IsHeld,
}

-- A call that does not end the claim: no claim on the event from the deadline on, and no release of the
-- event by the claim itself.
unfoldable pub IsWithin : {C M : Type 0} → String → String → ℕ → DelegationCall C M → Type 0
IsWithin event claim deadline (claim_completion_call event_id claim_id now until) =
    event_id.value ≡ event → now < deadline
IsWithin event claim deadline (release_call event_id claim_id) =
    event_id.value ≡ event → claim_id.value ≢ claim
IsWithin event claim deadline _ = Unit {0}

module _ (event claim : String) (deadline : ℕ) where
  module _ {S C M : Type 0} (formats : Formats) (sessions : SessionTables S C M) where
    abbrev Holds : Tables → Type 0
    Holds tables = IsHeld event claim deadline tables.completions

    commit-kept :
        {T A : Type 0} (P : T → Type 0) (tables : T) (result : Stored (T × A))
        → P tables
        → ((tables' : T) (a : A) → result ≡ ok (tables', a) → P tables')
        → P (commit tables result).0
    unfolding commit
    commit-kept P tables (ok (tables', a)) h kept = kept tables' a refl
    commit-kept P tables (err e) h kept = h

    reread-kept :
        (id : DelegationId) (tables : Tables) (result : Stored Tables)
        → Holds tables
        → ((tables' : Tables) → result ≡ ok tables' → Keeps tables.completions tables'.completions)
        → Holds (reread formats id tables result).0
    unfolding reread
    reread-kept id tables (ok tables') h kept = (kept tables' refl).carry event claim deadline h
    reread-kept id tables (err e) h kept = h

    create_with_child-kept :
        (s : S) (tables : Tables) (config : C) (spec : DelegationSpec) (now : ℕ) (db' : S × Tables)
        (snapshot : DelegationSnapshot)
        → create_with_child_transaction formats sessions (s, tables) config spec now
          ≡ ok (db', snapshot)
        → Keeps tables.completions db'.1.completions
    unfolding create_with_child_transaction
    create_with_child-kept s tables config spec now db' snapshot h =
        let (u, valid, h1) = >>=-eq-ok (validate_spec spec) _ h in
        let (v, same, h2) =
          >>=-eq-ok
            (guard (sessions.config_session config == spec.child_session_id)
              (invalid "child session config does not match delegation child identity"))
            _ h1 in
        let (w, parent, h3) =
          >>=-eq-ok (ensure_session_exists formats sessions s spec.parent_session_id "parent") _
            h2 in
        let (s', added, h4) =
          >>=-eq-ok (map_err (session_error formats) (sessions.create_session s config)) _ h3 in
        let (done, created, h5) =
          >>=-eq-ok (create_delegation_in_transaction formats sessions s' tables spec now) _ h4 in
        subst (λ t. Keeps tables.completions t.completions) (ap (λ t. t.0.1) (ok-injective h5))
          (create-Moves formats sessions s' tables spec now done.0 done.1 created).1

    -- Any other call leaves a held completion held, failed or not.
    pub perform-IsHeld :
        (db : S × Tables) (call : DelegationCall C M)
        → IsWithin event claim deadline call
        → Holds db.1
        → Holds (perform formats sessions db call).1
    unfolding perform acknowledge_completion release_completion IsWithin
    perform-IsHeld (s, tables) (create_call spec now) w h =
        commit-kept Holds tables _ h λ tables' snapshot done.
          let (u, valid, created) = >>=-eq-ok (validate_spec spec) _ done in
          (create-Moves formats sessions s tables spec now tables' snapshot created).1.carry event
            claim deadline h
    perform-IsHeld (s, tables) (create_with_child_call config spec now) w h =
        commit-kept (λ db. Holds db.1) (s, tables) _ h
          λ db' snapshot done.
            (create_with_child-kept s tables config spec now db' snapshot done).carry event claim
              deadline h
    perform-IsHeld (s, tables) (claim_call id generation worker now until) w h =
        reread-kept id tables _ h
          λ tables' done. claim-Keeps formats tables id generation now tables' worker until done
    perform-IsHeld (s, tables) (heartbeat_call id generation token now until) w h =
        reread-kept id tables _ h
          λ tables' done. heartbeat-Keeps formats tables id generation now tables' token until done
    perform-IsHeld (s, tables) (cancel_call id generation reason now) w h =
        reread-kept id tables _ h
          λ tables' done. (cancel-Moves formats tables id generation reason now tables' done).1
    perform-IsHeld (s, tables) (finish_call id generation token outcome now) w h =
        commit-kept Holds tables _ h λ tables' completion done.
          (finish-Moves formats tables id generation token outcome now tables' completion
              done).1.carry
            event claim deadline h
    perform-IsHeld (s, tables) (complete_child_call id authority generation messages summary now) w
          h =
        commit-kept (λ db. Holds db.1) (s, tables) _ h
          λ db' completion done.
            (complete_child-Moves formats sessions s tables id authority generation messages summary
                now db'.0 db'.1 completion done).1.carry
              event claim deadline h
    perform-IsHeld (s, tables) (reconcile_expired_call now) w h =
        commit-kept Holds tables _ h λ tables' completions done.
          (reconcile_expired-Keeps formats tables now (tables', completions) done).carry event claim
            deadline h
    perform-IsHeld (s, tables) (reconcile_running_call reason now) w h =
        commit-kept Holds tables _ h λ tables' completions done.
          (reconcile_running-Keeps formats tables now (tables', completions) reason done).carry
            event claim deadline h
    perform-IsHeld (s, tables) (claim_completion_call event' claim' now until) w h =
        commit-kept Holds tables _ h λ tables' result done.
          elim (claim_completion-eq-ok formats tables event' claim' now until tables' result done) [
            | inl (same, nothing) ↦ subst Holds same h
            | inr (row, one, updated, found) ↦ subst (IsHeld event claim deadline) updated (
                claim-IsHeld event claim deadline event'.value claim'.value now until w
                  tables.completions h)
          ]
    perform-IsHeld (s, tables) (acknowledge_call event' claim' now) w h =
        elim (Result-cases (to_i64 now "delivery timestamp")) [
          | inl (time, fits) ↦
              rw (acknowledge_completion, fits)
                (acknowledge-IsHeld event claim deadline
                  (λ row. is_claimed_by event'.value claim'.value row && leb row.created_at_ms time)
                  time tables.completions h)
          | inr (e, failed) ↦ rw (acknowledge_completion, failed) h
        ]
    perform-IsHeld (s, tables) (release_call event' claim') w h =
        release-IsHeld event claim deadline event'.value claim'.value w tables.completions h

    pub perform_all-IsHeld :
        (db : S × Tables) (calls : List (DelegationCall C M))
        → All (IsWithin event claim deadline) calls
        → Holds db.1
        → Holds (perform_all formats sessions db calls).1
    unfolding perform_all
    perform_all-IsHeld db [] within h = h
    perform_all-IsHeld db (call ∷ calls) within h =
        perform_all-IsHeld (perform formats sessions db call) calls within.1
          (perform-IsHeld db call within.0 h)
