-- ===== src/Store/Delegation/Ends.antt =====
-- `finish` of apps/hermesd/src/adapters/sqlite_delegation.rs makes a legal move.
use hermes_rs.Prelude.{
  ℕ, ◌≤◌, ◌≡◌, refl, ◌∙◌, ap, subst, some, string_eq, nat_eq, option_eq, ok, >>=-eq-ok,
  ok-injective,
}
use hermes_rs.Domain.Delegation.{
  DelegationId, OwnerGeneration, FencingToken, DelegationTerminal, terminal_name,
  DelegationCompletion,
}
use hermes_rs.Store.Delegation.Held.{Keeps, insert_completion-Keeps}
use hermes_rs.Store.Delegation.{
  RawDelegation, Formats, to_i64, increment, ensure_generation, ensure_running_fence,
  ensure_monotonic_timestamp, ensure_active_lease, validate_terminal,
}
use hermes_rs.Store.Delegation.Rows.{
  find_delegation, load_raw, completion_from_raw, ensure_legal_terminal,
}
use hermes_rs.Store.Delegation.Moves.{Moves, steps}
use hermes_rs.Store.Delegation.Changes.{finished-IsRow, running-Advances}
use hermes_rs.Store.Delegation.Lifecycle.{
  Tables, conflict, is_fenced, update_one, finished_row, encode_terminal, insert_completion,
}
use hermes_rs.Store.Delegation.Finish.{settle_delegation, ensure_worker, finish_transaction}
use hermes_rs.Store.Delegation.Legal.{
  to_i64-eq-ok, increment-eq-ok, load_raw-eq-ok, update_one-eq-ok, later_at, grows_by_one,
  ensure_generation-eq-ok, ensure_running_fence-eq-ok, ensure_monotonic-eq-ok, is_fenced-id,
}

module _ (formats : Formats) (tables : Tables) (id : DelegationId) (expected : OwnerGeneration)
    (token : FencingToken) (outcome : DelegationTerminal) (completed_at_ms : ℕ)
    (raw : RawDelegation) (tables' : Tables) (completion : DelegationCompletion) where
  pub settle_delegation-Moves :
      find_delegation id.value tables.delegations ≡ some raw
      → raw.state ≡ "running"
      → raw.updated_at_ms ≤ completed_at_ms
      → settle_delegation formats tables raw id expected token outcome completed_at_ms
        ≡ ok (tables', completion)
      → Moves tables.delegations tables'.delegations × Keeps tables.completions tables'.completions
  unfolding settle_delegation
  settle_delegation-Moves found runs time h =
      let (c, described, h1) =
        >>=-eq-ok (completion_from_raw formats raw outcome completed_at_ms) _ h in
      let (next, stepped, h2) =
        >>=-eq-ok (increment raw.owner_generation "owner generation") _ h1 in
      let (text, encoded, h3) = >>=-eq-ok (encode_terminal formats outcome) _ h2 in
      let (now, now_fits, h4) = >>=-eq-ok (to_i64 completed_at_ms "completion timestamp") _ h3 in
      let (current, c_fits, h5) = >>=-eq-ok (to_i64 expected.value "expected generation") _ h4 in
      let (fence, f_fits, h6) = >>=-eq-ok (to_i64 token.value "fencing token") _ h5 in
      let (rows, changed, h7) =
        >>=-eq-ok
          (update_one (is_fenced id.value current fence)
            (finished_row (terminal_name outcome) next text now)
            (conflict id expected.value raw.owner_generation) tables.delegations)
          _ h6 in
      let (completions, inserted, h8) =
        >>=-eq-ok (insert_completion formats tables.completions c) _ h7 in
      let later =
        later_at time (to_i64-eq-ok completed_at_ms "completion timestamp" now now_fits) in
      let grown = increment-eq-ok raw.owner_generation "owner generation" next stepped in
      (
        steps (record {
          id = id.value;
          raw = raw;
          test = is_fenced id.value current fence;
          change = finished_row (terminal_name outcome) next text now;
          found = found;
          only = is_fenced-id id.value current fence;
          keeps = λ row. refl;
          advances = λ hit well.
              running-Advances raw well now later next grown runs
                (finished_row (terminal_name outcome) next text now raw) refl (grows_by_one grown)
                refl refl;
          well = λ hit well. finished-IsRow raw well now later next grown runs outcome text;
          updated =
              update_one-eq-ok (is_fenced id.value current fence)
                (finished_row (terminal_name outcome) next text now)
                (conflict id expected.value raw.owner_generation) tables.delegations rows changed
              ∙ ap (λ t. t.0.delegations) (ok-injective h8);
        }),
        subst (Keeps tables.completions) (ap (λ t. t.0.completions) (ok-injective h8))
            (insert_completion-Keeps formats tables.completions completions c inserted),
      )

  -- What the checks of a worker's terminal have shown.
  pub ensure_worker-eq-ok :
      ensure_worker formats raw expected token outcome completed_at_ms ≡ ok tt
      → (raw.owner_generation ≡ expected.value)
        × (raw.state ≡ "running")
        × (raw.fencing_token ≡ token.value)
        × (raw.updated_at_ms ≤ completed_at_ms)
        × (ensure_active_lease formats raw completed_at_ms ≡ ok tt)
        × (ensure_legal_terminal formats raw outcome ≡ ok tt)
  unfolding ensure_worker
  ensure_worker-eq-ok h =
      let (u, generation, h1) = >>=-eq-ok (ensure_generation formats raw expected) _ h in
      let (v, fenced, h2) = >>=-eq-ok (ensure_running_fence formats raw token) _ h1 in
      let (w, time, h3) =
        >>=-eq-ok (ensure_monotonic_timestamp formats raw completed_at_ms "completion timestamp") _
          h2 in
      let (x, active, legal) = >>=-eq-ok (ensure_active_lease formats raw completed_at_ms) _ h3 in
      let (runs, held) = ensure_running_fence-eq-ok formats raw token fenced in
      (
        ensure_generation-eq-ok formats raw expected generation,
        runs,
        held,
        ensure_monotonic-eq-ok formats raw completed_at_ms "completion timestamp" time,
        active,
        legal,
      )

module _ (formats : Formats) (tables : Tables) (id : DelegationId) (expected : OwnerGeneration)
    (token : FencingToken) (outcome : DelegationTerminal) (completed_at_ms : ℕ) (tables' : Tables)
    (completion : DelegationCompletion) where
  -- The row that a successful `finish` has read.
  pub finish_transaction-eq-ok :
      finish_transaction formats tables id expected token outcome completed_at_ms
        ≡ ok (tables', completion)
      → (raw' : RawDelegation) × (find_delegation id.value tables.delegations ≡ some raw')
        × (ensure_worker formats raw' expected token outcome completed_at_ms ≡ ok tt)
        × (settle_delegation formats tables raw' id expected token outcome completed_at_ms
            ≡ ok (tables', completion))
  unfolding finish_transaction
  finish_transaction-eq-ok h =
      let (u, valid, h1) = >>=-eq-ok (validate_terminal outcome) _ h in
      let (raw', loaded, h2) = >>=-eq-ok (load_raw tables.delegations id) _ h1 in
      let (v, worker, settled) =
        >>=-eq-ok (ensure_worker formats raw' expected token outcome completed_at_ms) _ h2 in
      (raw', load_raw-eq-ok tables.delegations id raw' loaded, worker, settled)

  pub finish-Moves :
      finish_transaction formats tables id expected token outcome completed_at_ms
        ≡ ok (tables', completion)
      → Moves tables.delegations tables'.delegations × Keeps tables.completions tables'.completions
  finish-Moves h =
      let (raw, found, worker, settled) = finish_transaction-eq-ok h in
      let (generation, runs, fence, time, active, legal) =
        ensure_worker-eq-ok formats tables id expected token outcome completed_at_ms raw tables'
          completion worker in
      settle_delegation-Moves formats tables id expected token outcome completed_at_ms raw tables'
        completion found runs time settled
