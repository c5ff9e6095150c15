-- ===== src/Store/Delegation/Kept.antt =====
-- The calls of apps/hermesd/src/adapters/sqlite_delegation.rs that leave the held completions held: a
-- claim and a heartbeat of a worker, and the reconciliations.
use hermes_rs.Prelude.{
  ℕ, ◌≡◌, ap, subst, String, Bool, true, List, [], ◌∷◌, ok, ok_or, guard, ◌>>=◌, >>=-eq-ok,
  ok-injective, ◌==◌, ◌&&◌, string_eq, nat_eq, ltb,
}
use hermes_rs.Domain.Delegation.{
  DelegationId, DelegationWorkerId, OwnerGeneration, FencingToken, DelegationTerminal,
  DelegationCompletion, terminal_name,
}
use hermes_rs.Store.Delegation.{
  RawDelegation, Formats, invalid, not_claimable, to_i64, increment, validate_lease,
  validate_detail, ensure_generation, ensure_running_fence, ensure_monotonic_timestamp,
  ensure_active_lease, ensure_no_cancellation,
}
use hermes_rs.Store.Delegation.Rows.{load_raw, completion_from_raw, reconciliation_outcome}
use hermes_rs.Store.Delegation.Held.{Keeps, Keeps-same, Keeps-trans, insert_completion-Keeps}
use hermes_rs.Store.Delegation.Lifecycle.{
  Tables, conflict, is_current, is_fenced, update_one, claimed_row, extended_row, finished_row,
  encode_terminal, insert_completion, claim_transaction, heartbeat_transaction,
}
use hermes_rs.Store.Delegation.Reconcile.{
  lease_passed, reconcile_row, expire_rows, abandon_rows, reconcile_expired_transaction,
  reconcile_running_transaction,
}

module _ (formats : Formats) (tables : Tables) (id : DelegationId) (expected : OwnerGeneration)
    (now_ms : ℕ) (tables' : Tables) where
  pub claim-Keeps :
      (worker_id : DelegationWorkerId) (deadline : ℕ)
      → claim_transaction formats tables id expected worker_id now_ms deadline ≡ ok tables'
      → Keeps tables.completions tables'.completions
  unfolding claim_transaction
  claim-Keeps worker_id deadline h =
      let (u, lease, h1) = >>=-eq-ok (validate_lease now_ms deadline) _ h in
      let (raw, loaded, h2) = >>=-eq-ok (load_raw tables.delegations id) _ h1 in
      let (v, generation, h3) = >>=-eq-ok (ensure_generation formats raw expected) _ h2 in
      let (w, time, h4) =
        >>=-eq-ok (ensure_monotonic_timestamp formats raw now_ms "claim timestamp") _ h3 in
      let (x, unasked, h5) = >>=-eq-ok (ensure_no_cancellation raw) _ h4 in
      let (y, state, h6) =
        >>=-eq-ok (guard (raw.state == "pending") (not_claimable id raw.state)) _ h5 in
      let (next, stepped, h7) =
        >>=-eq-ok (increment raw.owner_generation "owner generation") _ h6 in
      let (fence, fenced, h8) = >>=-eq-ok (increment raw.fencing_token "fencing token") _ h7 in
      let (d, d_fits, h9) = >>=-eq-ok (to_i64 deadline "lease deadline") _ h8 in
      let (now, now_fits, h10) = >>=-eq-ok (to_i64 now_ms "claim timestamp") _ h9 in
      let (current, c_fits, h11) = >>=-eq-ok (to_i64 expected.value "expected generation") _ h10 in
      let (rows, changed, h12) =
        >>=-eq-ok
          (update_one (is_current id.value "pending" current)
            (claimed_row next worker_id.value fence d now)
            (conflict id expected.value raw.owner_generation) tables.delegations)
          _ h11 in
      Keeps-same (ap (λ t. t.completions) (ok-injective h12))

  heartbeat_end :
      (token : FencingToken) (deadline : ℕ) (raw : RawDelegation)
      → (do
        next_generation ← increment raw.owner_generation "owner generation"
        now ← to_i64 now_ms "heartbeat timestamp"
        current ← to_i64 expected.value "expected generation"
        fence ← to_i64 token.value "fencing token"
        rows ←
            update_one
              (is_fenced id.value current fence)
              (extended_row next_generation deadline now)
              (conflict id expected.value raw.owner_generation)
              tables.delegations
        ok (record tables { delegations = rows }))
        ≡ ok tables'
      → tables.completions ≡ tables'.completions
  heartbeat_end token d raw h =
      let (next, stepped, h1) = >>=-eq-ok (increment raw.owner_generation "owner generation") _ h in
      let (now, now_fits, h2) = >>=-eq-ok (to_i64 now_ms "heartbeat timestamp") _ h1 in
      let (current, c_fits, h3) = >>=-eq-ok (to_i64 expected.value "expected generation") _ h2 in
      let (fence, f_fits, h4) = >>=-eq-ok (to_i64 token.value "fencing token") _ h3 in
      let (rows, changed, h5) =
        >>=-eq-ok
          (update_one (is_fenced id.value current fence) (extended_row next d now)
            (conflict id expected.value raw.owner_generation) tables.delegations)
          _ h4 in
      ap (λ t. t.completions) (ok-injective h5)

  pub heartbeat-Keeps :
      (token : FencingToken) (deadline : ℕ)
      → heartbeat_transaction formats tables id expected token now_ms deadline ≡ ok tables'
      → Keeps tables.completions tables'.completions
  unfolding heartbeat_transaction
  heartbeat-Keeps token deadline h =
      let (u, lease, h1) = >>=-eq-ok (validate_lease now_ms deadline) _ h in
      let (raw, loaded, h2) = >>=-eq-ok (load_raw tables.delegations id) _ h1 in
      let (v, generation, h3) = >>=-eq-ok (ensure_generation formats raw expected) _ h2 in
      let (w, fenced, h4) = >>=-eq-ok (ensure_running_fence formats raw token) _ h3 in
      let (x, time, h5) =
        >>=-eq-ok (ensure_monotonic_timestamp formats raw now_ms "heartbeat timestamp") _ h4 in
      let (y, active, h6) = >>=-eq-ok (ensure_active_lease formats raw now_ms) _ h5 in
      let (old, leased, h7) =
        >>=-eq-ok
          (ok_or raw.lease_expires_at_ms (invalid "running delegation has no lease deadline")) _
          h6 in
      let (d, d_fits, h8) = >>=-eq-ok (to_i64 deadline "lease deadline") _ h7 in
      let (z, extends, h9) =
        >>=-eq-ok (guard (ltb old d) (invalid "heartbeat must extend the current delegation lease"))
          _ h8 in
      Keeps-same (heartbeat_end token d raw h9)

module _ (formats : Formats) (now : ℕ) where
  reconcile_row-Keeps :
      (test : RawDelegation → Bool) (tables : Tables) (raw : RawDelegation)
      (outcome : DelegationTerminal) (done : Tables × DelegationCompletion)
      → reconcile_row formats test now tables raw outcome ≡ ok done
      → Keeps tables.completions done.0.completions
  unfolding reconcile_row
  reconcile_row-Keeps test tables raw outcome done h =
      let (c, described, h1) = >>=-eq-ok (completion_from_raw formats raw outcome now) _ h in
      let (next, stepped, h2) =
        >>=-eq-ok (increment raw.owner_generation "owner generation") _ h1 in
      let (text, encoded, h3) = >>=-eq-ok (encode_terminal formats outcome) _ h2 in
      let (rows, changed, h4) =
        >>=-eq-ok
          (update_one
            (λ row.
              is_fenced raw.delegation_id raw.owner_generation raw.fencing_token row && test row)
            (finished_row (terminal_name outcome) next text now)
            (conflict c.delegation_id raw.owner_generation raw.owner_generation) tables.delegations)
          _ h3 in
      let (completions, inserted, h5) =
        >>=-eq-ok (insert_completion formats tables.completions c) _ h4 in
      subst (Keeps tables.completions) (ap (λ t. t.0.completions) (ok-injective h5))
        (insert_completion-Keeps formats tables.completions completions c inserted)

  abandon_rows-Keeps :
      (reason : String) (raws : List RawDelegation) (tables : Tables)
      (batch : Tables × List DelegationCompletion)
      → abandon_rows formats reason now tables raws ≡ ok batch
      → Keeps tables.completions batch.0.completions
  unfolding abandon_rows
  abandon_rows-Keeps reason [] tables batch h =
      Keeps-same (ap (λ t. t.0.completions) (ok-injective h))
  abandon_rows-Keeps reason (raw ∷ raws) tables batch h =
      let (u, timed, h1) =
        >>=-eq-ok (ensure_monotonic_timestamp formats raw now "reconciliation timestamp") _ h in
      let (outcome, chosen, h2) = >>=-eq-ok (reconciliation_outcome raw reason) _ h1 in
      let (done, settled, h3) =
        >>=-eq-ok (reconcile_row formats (λ row. true) now tables raw outcome) _ h2 in
      let (rest, others, h4) = >>=-eq-ok (abandon_rows formats reason now done.0 raws) _ h3 in
      subst (Keeps tables.completions) (ap (λ t. t.0.completions) (ok-injective h4)) (
        Keeps-trans (reconcile_row-Keeps (λ row. true) tables raw outcome done settled)
          (abandon_rows-Keeps reason raws done.0 rest others))

  expire_rows-Keeps :
      (raws : List RawDelegation) (tables : Tables) (batch : Tables × List DelegationCompletion)
      → expire_rows formats now tables raws ≡ ok batch
      → Keeps tables.completions batch.0.completions
  unfolding expire_rows
  expire_rows-Keeps [] tables batch h = Keeps-same (ap (λ t. t.0.completions) (ok-injective h))
  expire_rows-Keeps (raw ∷ raws) tables batch h =
      let (u, timed, h1) =
        >>=-eq-ok (ensure_monotonic_timestamp formats raw now "reconciliation timestamp") _ h in
      let (deadline, leased, h2) =
        >>=-eq-ok
          (ok_or raw.lease_expires_at_ms
            (invalid "running delegation has no durable lease deadline"))
          _ h1 in
      let (outcome, chosen, h3) = >>=-eq-ok (reconciliation_outcome raw _) _ h2 in
      let (done, settled, h4) =
        >>=-eq-ok (reconcile_row formats (lease_passed now) now tables raw outcome) _ h3 in
      let (rest, others, h5) = >>=-eq-ok (expire_rows formats now done.0 raws) _ h4 in
      subst (Keeps tables.completions) (ap (λ t. t.0.completions) (ok-injective h5)) (
        Keeps-trans (reconcile_row-Keeps (lease_passed now) tables raw outcome done settled)
          (expire_rows-Keeps raws done.0 rest others))

module _ (formats : Formats) (tables : Tables) (now_ms : ℕ)
    (batch : Tables × List DelegationCompletion) where
  pub reconcile_running-Keeps :
      (reason : String)
      → reconcile_running_transaction formats tables reason now_ms ≡ ok batch
      → Keeps tables.completions batch.0.completions
  unfolding reconcile_running_transaction
  reconcile_running-Keeps reason h =
      let (u, valid, h1) = >>=-eq-ok (validate_detail reason "restart reconciliation reason") _ h in
      let (now, fits, h2) = >>=-eq-ok (to_i64 now_ms "reconciliation timestamp") _ h1 in
      abandon_rows-Keeps formats now reason _ tables batch h2

  pub reconcile_expired-Keeps :
      reconcile_expired_transaction formats tables now_ms ≡ ok batch
      → Keeps tables.completions batch.0.completions
  unfolding reconcile_expired_transaction
  reconcile_expired-Keeps h =
      let (now, fits, h1) = >>=-eq-ok (to_i64 now_ms "reconciliation timestamp") _ h in
      expire_rows-Keeps formats now _ tables batch h1
