-- ===== src/Store/Delegation/Legal.antt =====
-- The statements of apps/hermesd/src/adapters/sqlite_delegation.rs make legal moves: what each check
-- has shown when the `UPDATE` is reached.
use hermes_rs.Prelude.{
  ℕ, ◌+◌, ◌≤◌, ◌<◌, ◌≡◌, refl, sym, ◌∙◌, ap, subst, String, Bool, true, some, List, ltb, ◌==◌,
  string_eq, nat_eq, option_eq, arith, ok, guard, ok_or, >>=-eq-ok, ok-injective, Option-cases, inl,
  inr,
}
use hermes_rs.Domain.Delegation.{DelegationId, DelegationWorkerId, OwnerGeneration, FencingToken}
use hermes_rs.Store.Table.{update, fits_i64}
use hermes_rs.Store.Delegation.{
  DelegationStoreError, not_claimable, invalid, RawDelegation, Formats, to_i64, increment,
  ensure_generation, ensure_running_fence, ensure_monotonic_timestamp, ensure_active_lease,
  ensure_no_cancellation, validate_lease,
}
use hermes_rs.Store.Delegation.Rows.{find_delegation, load_raw}
use hermes_rs.Store.Delegation.Moves.{Moves, steps}
use hermes_rs.Store.Delegation.Changes.{
  claimed-Advances, claimed-IsRow, extended-IsRow, running-Advances,
}
use hermes_rs.Store.Delegation.Lifecycle.{
  Tables, conflict, is_current, is_fenced, update_one, claimed_row, extended_row, claim_transaction,
  heartbeat_transaction,
}

pub to_i64-eq-ok : (value : ℕ) (name : String) (n : ℕ) → to_i64 value name ≡ ok n → n ≡ value
unfolding to_i64 fits_i64
to_i64-eq-ok value name n h = ground arith

pub increment-eq-ok :
    (value : ℕ) (name : String) (n : ℕ) → increment value name ≡ ok n → n ≡ value + 1
unfolding increment fits_i64
increment-eq-ok value name n h = ground arith

pub load_raw-eq-ok :
    (rows : List RawDelegation) (id : DelegationId) (raw : RawDelegation)
    → load_raw rows id ≡ ok raw
    → find_delegation id.value rows ≡ some raw
unfolding load_raw
load_raw-eq-ok rows id raw h = ground arith

pub update_one-eq-ok :
    (test : RawDelegation → Bool) (change : RawDelegation → RawDelegation)
    (otherwise : DelegationStoreError) (rows rows' : List RawDelegation)
    → update_one test change otherwise rows ≡ ok rows'
    → update test change rows ≡ rows'
unfolding update_one
update_one-eq-ok test change otherwise rows rows' h = ground arith

pub later_at : {before now written : ℕ} → before ≤ now → written ≡ now → before ≤ written
later_at {before} h same = subst (λ t. before ≤ t) (sym same) h

pub grows_by_one : {before after : ℕ} → after ≡ before + 1 → before ≤ after
grows_by_one h = omega (arith, h)

module _ (formats : Formats) (raw : RawDelegation) where
  pub ensure_generation-eq-ok :
      (expected : OwnerGeneration)
      → ensure_generation formats raw expected ≡ ok tt
      → raw.owner_generation ≡ expected.value
  unfolding ensure_generation
  ensure_generation-eq-ok expected h =
      ground (arith, nat_eq.eq_iff_same raw.owner_generation expected.value)

  pub ensure_running_fence-eq-ok :
      (expected : FencingToken)
      → ensure_running_fence formats raw expected ≡ ok tt
      → (raw.state ≡ "running") × (raw.fencing_token ≡ expected.value)
  unfolding ensure_running_fence
  ensure_running_fence-eq-ok expected h = ground (arith, string_eq.eq_iff_same raw.state "running")

  pub ensure_monotonic-eq-ok :
      (now : ℕ) (name : String)
      → ensure_monotonic_timestamp formats raw now name ≡ ok tt
      → raw.updated_at_ms ≤ now
  unfolding ensure_monotonic_timestamp
  ensure_monotonic-eq-ok now name h = ground arith

  pub ensure_active_lease-eq-ok :
      (now : ℕ)
      → ensure_active_lease formats raw now ≡ ok tt
      → (deadline : ℕ) × (raw.lease_expires_at_ms ≡ some deadline) × (now < deadline)
  unfolding ensure_active_lease to_i64 fits_i64
  ensure_active_lease-eq-ok now h = elim (Option-cases raw.lease_expires_at_ms) [
    | inl missing ↦ absurd (cc (rw (ensure_active_lease, missing) at h))
    | inr (deadline, found) ↦ (deadline, found, ground arith)
  ]

pub is_current-id :
    (id state : String) (generation : ℕ) (row : RawDelegation)
    → is_current id state generation row ≡ true
    → row.delegation_id ≡ id
is_current-id id state generation row h = ground (arith, string_eq.eq_iff_same row.delegation_id id)

pub is_fenced-id :
    (id : String) (generation token : ℕ) (row : RawDelegation)
    → is_fenced id generation token row ≡ true
    → row.delegation_id ≡ id
is_fenced-id id generation token row h = ground (arith, string_eq.eq_iff_same row.delegation_id id)

module _ (formats : Formats) (tables : Tables) (id : DelegationId) (expected : OwnerGeneration)
    (now_ms : ℕ) (tables' : Tables) where
  pub claim-Moves :
      (worker_id : DelegationWorkerId) (deadline : ℕ)
      → claim_transaction formats tables id expected worker_id now_ms deadline ≡ ok tables'
      → Moves tables.delegations tables'.delegations
  unfolding claim_transaction
  claim-Moves worker_id deadline h =
      let (u, lease, h1) = >>=-eq-ok (validate_lease now_ms deadline) _ h in
      let (raw, loaded, h2) = >>=-eq-ok (load_raw tables.delegations id) _ h1 in
      let (v, generation, h3) = >>=-eq-ok (ensure_generation formats raw expected) _ h2 in
      let (w, time, h4) =
        >>=-eq-ok (ensure_monotonic_timestamp formats raw now_ms "claim timestamp") _ h3 in
      let (x, unasked, h5) = >>=-eq-ok (ensure_no_cancellation raw) _ h4 in
      let (y, state, h6) =
        >>=-eq-ok (guard (raw.state == "pending") (not_claimable id raw.state)) _ h5 in
      let (next, stepped, h7) =
        >>=-eq-ok (increment raw.owner_generation "owner generation") _ h6 in
      let (fence, fenced, h8) = >>=-eq-ok (increment raw.fencing_token "fencing token") _ h7 in
      let (d, d_fits, h9) = >>=-eq-ok (to_i64 deadline "lease deadline") _ h8 in
      let (now, now_fits, h10) = >>=-eq-ok (to_i64 now_ms "claim timestamp") _ h9 in
      let (current, c_fits, h11) = >>=-eq-ok (to_i64 expected.value "expected generation") _ h10 in
      let (rows, changed, h12) =
        >>=-eq-ok
          (update_one (is_current id.value "pending" current)
            (claimed_row next worker_id.value fence d now)
            (conflict id expected.value raw.owner_generation) tables.delegations)
          _ h11 in
      let waits : raw.state ≡ "pending" =
        ground (arith, string_eq.eq_iff_same raw.state "pending") in
      let later : raw.updated_at_ms ≤ now =
        later_at (ensure_monotonic-eq-ok formats raw now_ms "claim timestamp" time)
          (to_i64-eq-ok now_ms "claim timestamp" now now_fits) in
      let grown = increment-eq-ok raw.owner_generation "owner generation" next stepped in
      let risen = increment-eq-ok raw.fencing_token "fencing token" fence fenced in
      steps (record {
        id = id.value;
        raw = raw;
        test = is_current id.value "pending" current;
        change = claimed_row next worker_id.value fence d now;
        found = load_raw-eq-ok tables.delegations id raw loaded;
        only = is_current-id id.value "pending" current;
        keeps = λ row. refl;
        advances = λ hit well.
            claimed-Advances raw well now later next grown waits worker_id.value fence d risen;
        well = λ hit well.
            claimed-IsRow raw well now later next grown waits worker_id.value fence d risen;
        updated =
            update_one-eq-ok (is_current id.value "pending" current)
              (claimed_row next worker_id.value fence d now)
              (conflict id expected.value raw.owner_generation) tables.delegations rows changed
            ∙ ap (λ t. t.delegations) (ok-injective h12);
      })

  pub heartbeat-Moves :
      (token : FencingToken) (deadline : ℕ)
      → heartbeat_transaction formats tables id expected token now_ms deadline ≡ ok tables'
      → Moves tables.delegations tables'.delegations
  unfolding heartbeat_transaction
  heartbeat-Moves token deadline h =
      let (u, lease, h1) = >>=-eq-ok (validate_lease now_ms deadline) _ h in
      let (raw, loaded, h2) = >>=-eq-ok (load_raw tables.delegations id) _ h1 in
      let (v, generation, h3) = >>=-eq-ok (ensure_generation formats raw expected) _ h2 in
      let (w, fenced, h4) = >>=-eq-ok (ensure_running_fence formats raw token) _ h3 in
      let (x, time, h5) =
        >>=-eq-ok (ensure_monotonic_timestamp formats raw now_ms "heartbeat timestamp") _ h4 in
      let (y, active, h6) = >>=-eq-ok (ensure_active_lease formats raw now_ms) _ h5 in
      let (old, leased, h7) =
        >>=-eq-ok
          (ok_or raw.lease_expires_at_ms (invalid "running delegation has no lease deadline")) _
          h6 in
      let (d, d_fits, h8) = >>=-eq-ok (to_i64 deadline "lease deadline") _ h7 in
      let (z, extends, h9) =
        >>=-eq-ok (guard (ltb old d) (invalid "heartbeat must extend the current delegation lease"))
          _ h8 in
      let (next, stepped, h10) =
        >>=-eq-ok (increment raw.owner_generation "owner generation") _ h9 in
      let (now, now_fits, h11) = >>=-eq-ok (to_i64 now_ms "heartbeat timestamp") _ h10 in
      let (current, c_fits, h12) = >>=-eq-ok (to_i64 expected.value "expected generation") _ h11 in
      let (fence, f_fits, h13) = >>=-eq-ok (to_i64 token.value "fencing token") _ h12 in
      let (rows, changed, h14) =
        >>=-eq-ok
          (update_one (is_fenced id.value current fence) (extended_row next d now)
            (conflict id expected.value raw.owner_generation) tables.delegations)
          _ h13 in
      let (runs, held) = ensure_running_fence-eq-ok formats raw token fenced in
      let later : raw.updated_at_ms ≤ now =
        later_at (ensure_monotonic-eq-ok formats raw now_ms "heartbeat timestamp" time)
          (to_i64-eq-ok now_ms "heartbeat timestamp" now now_fits) in
      let grown = increment-eq-ok raw.owner_generation "owner generation" next stepped in
      steps (record {
        id = id.value;
        raw = raw;
        test = is_fenced id.value current fence;
        change = extended_row next d now;
        found = load_raw-eq-ok tables.delegations id raw loaded;
        only = is_fenced-id id.value current fence;
        keeps = λ row. refl;
        advances = λ hit well.
            running-Advances raw well now later next grown runs (extended_row next d now raw) refl
              (grows_by_one grown) refl refl;
        well = λ hit well. extended-IsRow raw well now later next grown runs d;
        updated =
            update_one-eq-ok (is_fenced id.value current fence) (extended_row next d now)
              (conflict id expected.value raw.owner_generation) tables.delegations rows changed
            ∙ ap (λ t. t.delegations) (ok-injective h14);
      })
