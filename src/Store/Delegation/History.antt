-- ===== src/Store/Delegation/History.antt =====
-- Sequences of calls of the trait `DelegationStore` on the tables of
-- apps/hermesd/src/adapters/sqlite_delegation.rs, failed calls included.
use hermes_rs.Prelude.{
  ℕ, ◌≡◌, refl, ap, subst, String, Bool, ◌&&◌, Option, List, [], ◌∷◌, ok, err, ok_or, Result-cases,
  Bool-cases, inl, inr, >>=-eq-ok, ok-injective, ◌==◌, string_eq, nat_eq, guard, map_err,
}
use hermes_rs.Domain.Id.{id_eq}
use hermes_rs.Domain.Delegation.{
  DelegationId, CompletionEventId, DelegationWorkerId, DeliveryClaimId, OwnerGeneration,
  FencingToken, DelegationAuthority, DelegationSpec, DelegationTerminal, DelegationSnapshot,
  DelegationCompletion,
}
use hermes_rs.Store.Session.{SessionTables}
use hermes_rs.Store.Table.{update, count}
use hermes_rs.Store.Delegation.{Formats, validate_spec, validate_claim, to_i64, storage, invalid}
use hermes_rs.Store.Delegation.Moves.{
  IsTable, Evolves, Moves, Moves-sound, stays, Evolves-refl, Evolves-trans,
}
use hermes_rs.Store.Delegation.Lifecycle.{
  Tables, Stored, CompletionRow, commit, reread, claim, heartbeat,
}
use hermes_rs.Store.Delegation.Finish.{finish}
use hermes_rs.Store.Delegation.Cancel.{cancel}
use hermes_rs.Store.Delegation.Child.{
  create, create_with_child, complete_child, create_delegation_in_transaction, session_error,
  create_with_child_transaction, ensure_session_exists,
}
use hermes_rs.Store.Delegation.Reconcile.{reconcile_expired, reconcile_running}
use hermes_rs.Store.Delegation.Outbox.{
  claim_completion, claim_completion_transaction, acknowledge_completion, release_completion,
  claimed, is_available, decode_completion, find_event,
}
use hermes_rs.Store.Delegation.Legal.{claim-Moves, heartbeat-Moves}
use hermes_rs.Store.Delegation.Ends.{finish-Moves}
use hermes_rs.Store.Delegation.Withdrawals.{cancel-Moves}
use hermes_rs.Store.Delegation.Children.{create-Moves, complete_child-Moves}
use hermes_rs.Store.Delegation.Recovery.{reconcile_expired-Moves, reconcile_running-Moves}

-- The methods that change the tables, with their arguments.
pub data DelegationCall (C M : Type 0) : Type 0 where
  create_call : DelegationSpec → ℕ → DelegationCall C M
  create_with_child_call : C → DelegationSpec → ℕ → DelegationCall C M
  claim_call : DelegationId → OwnerGeneration → DelegationWorkerId → ℕ → ℕ → DelegationCall C M
  heartbeat_call : DelegationId → OwnerGeneration → FencingToken → ℕ → ℕ → DelegationCall C M
  cancel_call : DelegationId → OwnerGeneration → String → ℕ → DelegationCall C M
  finish_call :
      DelegationId → OwnerGeneration → FencingToken → DelegationTerminal → ℕ → DelegationCall C M
  complete_child_call :
      DelegationId
      → DelegationAuthority
      → OwnerGeneration
      → List M
      → String
      → ℕ
      → DelegationCall C M
  reconcile_expired_call : ℕ → DelegationCall C M
  reconcile_running_call : String → ℕ → DelegationCall C M
  claim_completion_call : CompletionEventId → DeliveryClaimId → ℕ → ℕ → DelegationCall C M
  acknowledge_call : CompletionEventId → DeliveryClaimId → ℕ → DelegationCall C M
  release_call : CompletionEventId → DeliveryClaimId → DelegationCall C M

module _ {S C M : Type 0} (formats : Formats) (sessions : SessionTables S C M) where
  unfoldable pub perform : S × Tables → DelegationCall C M → S × Tables
  perform (s, tables) (create_call spec now) = (s, (create formats sessions s tables spec now).0)
  perform db (create_with_child_call config spec now) =
      (create_with_child formats sessions db config spec now).0
  perform (s, tables) (claim_call id generation worker now deadline) =
      (s, (claim formats tables id generation worker now deadline).0)
  perform (s, tables) (heartbeat_call id generation token now deadline) =
      (s, (heartbeat formats tables id generation token now deadline).0)
  perform (s, tables) (cancel_call id generation reason now) =
      (s, (cancel formats tables id generation reason now).0)
  perform (s, tables) (finish_call id generation token outcome now) =
      (s, (finish formats tables id generation token outcome now).0)
  perform db (complete_child_call id authority generation messages summary now) =
      (complete_child formats sessions db id authority generation messages summary now).0
  perform (s, tables) (reconcile_expired_call now) = (s, (reconcile_expired formats tables now).0)
  perform (s, tables) (reconcile_running_call reason now) =
      (s, (reconcile_running formats tables reason now).0)
  perform (s, tables) (claim_completion_call event claim_id now deadline) =
      (s, (claim_completion formats tables event claim_id now deadline).0)
  perform (s, tables) (acknowledge_call event claim_id now) =
      (s, (acknowledge_completion tables event claim_id now).0)
  perform (s, tables) (release_call event claim_id) =
      (s, (release_completion tables event claim_id).0)

  unfoldable pub perform_all : S × Tables → List (DelegationCall C M) → S × Tables
  perform_all db [] = db
  perform_all db (call ∷ calls) = perform_all (perform db call) calls

  commit-Moves :
      {A : Type 0} (tables : Tables) (result : Stored (Tables × A))
      → ((tables' : Tables) (a : A)
          → result ≡ ok (tables', a)
          → Moves tables.delegations tables'.delegations)
      → Moves tables.delegations (commit tables result).0.delegations
  unfolding commit
  commit-Moves tables (ok (tables', a)) moves = moves tables' a refl
  commit-Moves tables (err e) moves = stays tables.delegations

  commit_both-Moves :
      {A : Type 0} (db : S × Tables) (result : Stored ((S × Tables) × A))
      → ((db' : S × Tables) (a : A)
          → result ≡ ok (db', a)
          → Moves db.1.delegations db'.1.delegations)
      → Moves db.1.delegations (commit db result).0.1.delegations
  unfolding commit
  commit_both-Moves db (ok (db', a)) moves = moves db' a refl
  commit_both-Moves db (err e) moves = stays db.1.delegations

  reread-Moves :
      (id : DelegationId) (tables : Tables) (result : Stored Tables)
      → ((tables' : Tables) → result ≡ ok tables' → Moves tables.delegations tables'.delegations)
      → Moves tables.delegations (reread formats id tables result).0.delegations
  unfolding reread
  reread-Moves id tables (ok tables') moves = moves tables' refl
  reread-Moves id tables (err e) moves = stays tables.delegations

  create_call-Moves :
      (s : S) (tables : Tables) (spec : DelegationSpec) (now : ℕ)
      → Moves tables.delegations (create formats sessions s tables spec now).0.delegations
  create_call-Moves s tables spec now = commit-Moves tables _ λ tables' snapshot h.
      let (u, valid, created) = >>=-eq-ok (validate_spec spec) _ h in
      (create-Moves formats sessions s tables spec now tables' snapshot created).0

  create_with_child-Moves :
      (s : S) (tables : Tables) (config : C) (spec : DelegationSpec) (now : ℕ) (db' : S × Tables)
      (snapshot : DelegationSnapshot)
      → create_with_child_transaction formats sessions (s, tables) config spec now
        ≡ ok (db', snapshot)
      → Moves tables.delegations db'.1.delegations
  unfolding create_with_child_transaction
  create_with_child-Moves s tables config spec now db' snapshot h =
      let (u, valid, h1) = >>=-eq-ok (validate_spec spec) _ h in
      let (v, same, h2) =
        >>=-eq-ok
          (guard (sessions.config_session config == spec.child_session_id)
            (invalid "child session config does not match delegation child identity"))
          _ h1 in
      let (w, parent, h3) =
        >>=-eq-ok (ensure_session_exists formats sessions s spec.parent_session_id "parent") _ h2 in
      let (s', added, h4) =
        >>=-eq-ok (map_err (session_error formats) (sessions.create_session s config)) _ h3 in
      let (done, created, h5) =
        >>=-eq-ok (create_delegation_in_transaction formats sessions s' tables spec now) _ h4 in
      subst (λ t. Moves tables.delegations t.delegations) (ap (λ t. t.0.1) (ok-injective h5))
        (create-Moves formats sessions s' tables spec now done.0 done.1 created).0

  claim_completion-same :
      (tables : Tables) (event : CompletionEventId) (claim_id : DeliveryClaimId) (now deadline : ℕ)
      (tables' : Tables) (completion : Option DelegationCompletion)
      → claim_completion_transaction formats tables event claim_id now deadline
        ≡ ok (tables', completion)
      → tables.delegations ≡ tables'.delegations
  unfolding claim_completion_transaction
  claim_completion-same tables event claim_id now deadline tables' completion h =
      let (u, valid, h1) = >>=-eq-ok (validate_claim now deadline) _ h in
      let (d, d_fits, h2) = >>=-eq-ok (to_i64 deadline "delivery claim deadline") _ h1 in
      let (time, fits, h3) = >>=-eq-ok (to_i64 now "delivery claim timestamp") _ h2 in
      let free : CompletionRow → Bool =
        λ row. row.event_id == event.value && is_available time row in
      elim (Bool-cases (count free tables.completions == 1)) [
        | inr none_free ↦ ap (λ t. t.0.delegations) (ok-injective (rw none_free at h3))
        | inl one_free ↦
            let (row, found, h4) =
              >>=-eq-ok
                (ok_or
                  (find_event event.value
                    (update free (claimed claim_id.value d) tables.completions))
                  (storage formats.no_rows))
                _ (rw one_free at h3) in
            let (c, decoded, h5) = >>=-eq-ok (decode_completion formats row) _ h4 in
            ap (λ t. t.0.delegations) (ok-injective h5)
      ]

  -- One call, failed or not.
  pub perform-Moves :
      (db : S × Tables) (call : DelegationCall C M)
      → IsTable db.1.delegations
      → Moves db.1.delegations (perform db call).1.delegations
  unfolding perform acknowledge_completion release_completion
  perform-Moves (s, tables) (create_call spec now) h = create_call-Moves s tables spec now
  perform-Moves (s, tables) (create_with_child_call config spec now) h =
      commit_both-Moves (s, tables) _ (create_with_child-Moves s tables config spec now)
  perform-Moves (s, tables) (claim_call id generation worker now deadline) h =
      reread-Moves id tables _
        λ tables' done. claim-Moves formats tables id generation now tables' worker deadline done
  perform-Moves (s, tables) (heartbeat_call id generation token now deadline) h =
      reread-Moves id tables _
        λ tables' done. heartbeat-Moves formats tables id generation now tables' token deadline done
  perform-Moves (s, tables) (cancel_call id generation reason now) h =
      reread-Moves id tables _
        λ tables' done. (cancel-Moves formats tables id generation reason now tables' done).0
  perform-Moves (s, tables) (finish_call id generation token outcome now) h =
      commit-Moves tables _ λ tables' completion done.
        (finish-Moves formats tables id generation token outcome now tables' completion done).0
  perform-Moves (s, tables) (complete_child_call id authority generation messages summary now) h =
      commit_both-Moves (s, tables) _
        λ db' completion done.
          (complete_child-Moves formats sessions s tables id authority generation messages summary
            now db'.0 db'.1 completion done).0
  perform-Moves (s, tables) (reconcile_expired_call now) h =
      commit-Moves tables _ (reconcile_expired-Moves formats tables h now)
  perform-Moves (s, tables) (reconcile_running_call reason now) h =
      commit-Moves tables _ λ tables' completions.
        reconcile_running-Moves formats tables h now tables' completions reason
  perform-Moves (s, tables) (claim_completion_call event claim_id now deadline) h =
      commit-Moves tables _ λ tables' completion done.
        subst (Moves tables.delegations)
          (claim_completion-same tables event claim_id now deadline tables' completion done)
          (stays tables.delegations)
  perform-Moves (s, tables) (acknowledge_call event claim_id now) h =
      elim (Result-cases (to_i64 now "delivery timestamp")) [
        | inl (time, fits) ↦ rw (acknowledge_completion, fits) (stays tables.delegations)
        | inr (e, failed) ↦ rw (acknowledge_completion, failed) (stays tables.delegations)
      ]
  perform-Moves (s, tables) (release_call event claim_id) h = stays tables.delegations

  both :
      (db : S × Tables) (calls : List (DelegationCall C M))
      → IsTable db.1.delegations
      → IsTable (perform_all db calls).1.delegations
        × Evolves db.1.delegations (perform_all db calls).1.delegations
  unfolding perform_all
  both db [] h = (h, Evolves-refl db.1.delegations)
  both db (call ∷ calls) h =
      let (middle, first) = Moves-sound (perform-Moves db call h) h in
      let (last, second) = both (perform db call) calls middle in
      (
        last,
        Evolves-trans db.1.delegations (perform db call).1.delegations
            (perform_all (perform db call) calls).1.delegations first second,
      )

  -- Over any sequence of calls of the delegation store, failed ones included, the identifiers, the
  -- completion events and the child sessions of the table stay distinct, every row keeps the table's
  -- checks on generation, times and state, and a cancellation stands in running rows only.
  pub perform_all-IsTable :
      (db : S × Tables) (calls : List (DelegationCall C M))
      → IsTable db.1.delegations
      → IsTable (perform_all db calls).1.delegations
  perform_all-IsTable db calls h = (both db calls h).0

  -- Over any sequence of calls of the delegation store on a table that meets its constraints, failed
  -- ones included, no delegation is lost, its commission never changes, its generation, fencing token
  -- and time of update never decrease, and a delegation that is terminal never changes at all.
  pub perform_all-Evolves :
      (db : S × Tables) (calls : List (DelegationCall C M))
      → IsTable db.1.delegations
      → Evolves db.1.delegations (perform_all db calls).1.delegations
  perform_all-Evolves db calls h = (both db calls h).1
