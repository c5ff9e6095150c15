-- ===== src/Store/Delegation/Fencing.antt =====
-- What generations and fencing tokens promise about workers: `finish`, `heartbeat` and
-- `complete_child` of apps/hermesd/src/adapters/sqlite_delegation.rs.
use hermes_rs.Prelude.{
  ℕ, ◌<◌, ◌≡◌, refl, sym, subst, String, true, some, List, ok, err, Result-cases, inl, inr, arith,
  >>=-eq-ok,
}
use hermes_rs.Domain.Delegation.{
  DelegationId, OwnerGeneration, FencingToken, DelegationAuthority, DelegationTerminal, completed,
  DelegationCompletion,
}
use hermes_rs.Store.Session.{SessionTables}
use hermes_rs.Store.Delegation.{
  RawDelegation, Formats, DelegationStoreError, ensure_generation, ensure_running_fence,
  validate_lease,
}
use hermes_rs.Store.Delegation.Rows.{find_delegation, load_raw, is_terminal_name}
use hermes_rs.Store.Delegation.Moves.{IsTable, Evolves, Advances}
use hermes_rs.Store.Delegation.Lifecycle.{Tables, commit, heartbeat, heartbeat_transaction, reread}
use hermes_rs.Store.Delegation.Finish.{finish, finish_transaction}
use hermes_rs.Store.Delegation.Intent.{IsLegal, ensure_legal_terminal-IsLegal}
use hermes_rs.Store.Delegation.Finished.{IsFinished, settle_delegation-IsFinished}
use hermes_rs.Store.Delegation.Child.{complete_child, complete_child_transaction}
use hermes_rs.Store.Delegation.Children.{complete_child-eq-ok}
use hermes_rs.Store.Delegation.Legal.{
  load_raw-eq-ok, ensure_generation-eq-ok, ensure_running_fence-eq-ok, ensure_active_lease-eq-ok,
}
use hermes_rs.Store.Delegation.Ends.{finish_transaction-eq-ok, ensure_worker-eq-ok}
use hermes_rs.Store.Delegation.History.{DelegationCall, perform_all, perform_all-Evolves}

-- A worker's authority over a row is out of date.
pub data IsStale (expected : OwnerGeneration) (token : FencingToken) (row : RawDelegation)
    : Type 0 where
  old_generation : expected.value < row.owner_generation → IsStale expected token row
  old_fence : token.value < row.fencing_token → IsStale expected token row
  ended : is_terminal_name row.state ≡ true → IsStale expected token row

-- The row that authorises a worker's mutation.
pub record IsAuthorised (tables : Tables) (id : DelegationId) (expected : OwnerGeneration)
    (token : FencingToken) : Type 0 where
  pub row : RawDelegation
  pub found : find_delegation id.value tables.delegations ≡ some row
  pub same_generation : row.owner_generation ≡ expected.value
  pub same_fence : row.fencing_token ≡ token.value
  pub runs : row.state ≡ "running"

stale-Advances :
    (expected : OwnerGeneration) (token : FencingToken) (before after : RawDelegation)
    → IsStale expected token before
    → Advances before after
    → IsStale expected token after
stale-Advances expected token before after (old_generation h) a =
    old_generation (omega (arith, h, a.generation_grows))
stale-Advances expected token before after (old_fence h) a =
    old_fence (omega (arith, h, a.fence_grows))
stale-Advances expected token before after (ended h) a =
    ended (subst (λ r. is_terminal_name r.state ≡ true) (sym (a.absorbed h)) h)

stale-unauthorised :
    (tables : Tables) (id : DelegationId) (expected : OwnerGeneration) (token : FencingToken)
    (row : RawDelegation)
    → find_delegation id.value tables.delegations ≡ some row
    → IsStale expected token row
    → IsAuthorised tables id expected token
    → ⊥
stale-unauthorised tables id expected token row found stale h =
    let same : h.row ≡ row = ground (arith, found, h.found) in
    go stale (subst (λ r. r.owner_generation ≡ expected.value) same h.same_generation)
      (subst (λ r. r.fencing_token ≡ token.value) same h.same_fence)
      (subst (λ r. r.state ≡ "running") same h.runs)
  where
    go :
        IsStale expected token row
        → row.owner_generation ≡ expected.value
        → row.fencing_token ≡ token.value
        → row.state ≡ "running"
        → ⊥
    go (old_generation h) g f r = omega (arith, h, g)
    go (old_fence h) g f r = omega (arith, h, f)
    go (ended h) g f r = cc (rw r at h)

module _ (formats : Formats) (tables : Tables) (id : DelegationId) (expected : OwnerGeneration)
    (token : FencingToken) where
  -- A worker's `finish` succeeds only on a running row with exactly its generation and fencing token,
  -- before the lease of that row has passed, and with an outcome that is the cancellation asked for,
  -- or no cancellation when none was asked for. It then leaves that row ended by the outcome, at the
  -- next generation and without lease or cancellation, the rows of other delegations as they were, and
  -- one more completion waiting, which reports the outcome.
  pub finish-IsAuthorised :
      (outcome : DelegationTerminal) (now : ℕ) (tables' : Tables)
      (completion : DelegationCompletion)
      → finish_transaction formats tables id expected token outcome now ≡ ok (tables', completion)
      → (h : IsAuthorised tables id expected token) × (deadline : ℕ) × (h.row.lease_expires_at_ms
          ≡ some deadline)
        × (now < deadline)
        × IsLegal h.row outcome
        × IsFinished formats tables tables' h.row outcome now completion
  finish-IsAuthorised outcome now tables' completion done =
      let (raw, found, worker, settled) =
        finish_transaction-eq-ok formats tables id expected token outcome now tables' completion
          done in
      let (generation, runs, fence, time, active, legal) =
        ensure_worker-eq-ok formats tables id expected token outcome now raw tables' completion
          worker in
      let (deadline, leased, early) = ensure_active_lease-eq-ok formats raw now active in
      (
        record {
          row = raw;
          found = found;
          same_generation = generation;
          same_fence = fence;
          runs = runs;
        },
        deadline,
        leased,
        early,
        ensure_legal_terminal-IsLegal formats raw outcome legal,
        settle_delegation-IsFinished formats tables id expected token outcome now raw tables'
            completion found runs generation fence settled,
      )

  heartbeat-IsAuthorised :
      (now deadline : ℕ) (tables' : Tables)
      → heartbeat_transaction formats tables id expected token now deadline ≡ ok tables'
      → IsAuthorised tables id expected token
  unfolding heartbeat_transaction
  heartbeat-IsAuthorised now deadline tables' h =
      let (u, lease, h1) = >>=-eq-ok (validate_lease now deadline) _ h in
      let (raw, loaded, h2) = >>=-eq-ok (load_raw tables.delegations id) _ h1 in
      let (v, generation, h3) = >>=-eq-ok (ensure_generation formats raw expected) _ h2 in
      let (w, fenced, h4) = >>=-eq-ok (ensure_running_fence formats raw token) _ h3 in
      let (runs, held) = ensure_running_fence-eq-ok formats raw token fenced in
      record {
        row = raw;
        found = load_raw-eq-ok tables.delegations id raw loaded;
        same_generation = ensure_generation-eq-ok formats raw expected generation;
        same_fence = held;
        runs = runs;
      }

  module _ (row : RawDelegation) (found : find_delegation id.value tables.delegations ≡ some row)
      (stale : IsStale expected token row) where
    finish-stale :
        (outcome : DelegationTerminal) (now : ℕ)
        → (e : DelegationStoreError) × (finish formats tables id expected token outcome now
            ≡ (tables, err e))
    unfolding commit
    finish-stale outcome now =
        elim (Result-cases (finish_transaction formats tables id expected token outcome now)) [
          | inr (e, failed) ↦ (e, rw failed refl)
          | inl ((tables', completion), done) ↦ absurd (
              stale-unauthorised tables id expected token row found stale
                (finish-IsAuthorised outcome now tables' completion done).0)
        ]

    heartbeat-stale :
        (now deadline : ℕ)
        → (e : DelegationStoreError) × (heartbeat formats tables id expected token now deadline
            ≡ (tables, err e))
    unfolding reread
    heartbeat-stale now deadline =
        elim (Result-cases (heartbeat_transaction formats tables id expected token now deadline)) [
          | inr (e, failed) ↦ (e, rw failed refl)
          | inl (tables', done) ↦ absurd (
              stale-unauthorised tables id expected token row found stale
                (heartbeat-IsAuthorised now deadline tables' done))
        ]

module _ {S C M : Type 0} (formats : Formats) (sessions : SessionTables S C M) where
  abbrev authority : OwnerGeneration → FencingToken → DelegationAuthority
  authority expected token = record { owner_generation = expected; fencing_token = token }

  complete_child-stale :
      (s : S) (tables : Tables) (id : DelegationId) (expected : OwnerGeneration)
      (token : FencingToken) (row : RawDelegation)
      → find_delegation id.value tables.delegations ≡ some row
      → IsStale expected token row
      → (child_generation : OwnerGeneration) (messages : List M) (summary : String) (now : ℕ)
      → (e : DelegationStoreError) × (complete_child formats sessions
            (s, tables)
            id
            (authority expected token)
            child_generation
            messages
            summary
            now
          ≡ ((s, tables), err e))
  unfolding commit
  complete_child-stale s tables id expected token row found stale child_generation messages summary
        now =
      elim (Result-cases (
        complete_child_transaction formats sessions (s, tables) id (authority expected token)
          child_generation messages summary now)) [
            | inr (e, failed) ↦ (e, rw failed refl)
            | inl (((s', tables'), completion), done) ↦
                let (raw, there, worker, settled) =
                  complete_child-eq-ok formats sessions s tables id (authority expected token)
                    child_generation messages summary now s' tables' completion done in
                let (generation, runs, fence, time, active, legal) =
                  ensure_worker-eq-ok formats tables id expected token (completed summary) now raw
                    tables' completion worker in
                absurd (
                  stale-unauthorised tables id expected token row found stale (record {
                    row = raw;
                    found = there;
                    same_generation = generation;
                    same_fence = fence;
                    runs = runs;
                  }))
          ]

  -- A worker's three mutations, `finish`, `heartbeat` and `complete_child`, fail and change nothing.
  pub record IsFenced (tables : Tables) (id : DelegationId) (expected : OwnerGeneration)
      (token : FencingToken) : Type 0 where
    pub finish_fails :
        (outcome : DelegationTerminal) (now : ℕ)
        → (e : DelegationStoreError) × (finish formats tables id expected token outcome now
            ≡ (tables, err e))
    pub heartbeat_fails :
        (now deadline : ℕ)
        → (e : DelegationStoreError) × (heartbeat formats tables id expected token now deadline
            ≡ (tables, err e))
    pub complete_child_fails :
        (s : S) (child_generation : OwnerGeneration) (messages : List M) (summary : String)
        (now : ℕ)
        → (e : DelegationStoreError) × (complete_child formats sessions
              (s, tables)
              id
              (authority expected token)
              child_generation
              messages
              summary
              now
            ≡ ((s, tables), err e))

  -- Once a worker's generation or fencing token is behind that of its delegation, or the delegation is
  -- terminal, every later `finish`, `heartbeat` and `complete_child` with them fails and changes
  -- nothing, in the session tables neither, whatever calls of the store come in between; the table
  -- meets its constraints at the start.
  pub stale-IsFenced :
      (db : S × Tables) (calls : List (DelegationCall C M)) (id : DelegationId)
      (expected : OwnerGeneration) (token : FencingToken) (row : RawDelegation)
      → IsTable db.1.delegations
      → find_delegation id.value db.1.delegations ≡ some row
      → IsStale expected token row
      → IsFenced (perform_all formats sessions db calls).1 id expected token
  unfolding Evolves
  stale-IsFenced db calls id expected token row table found stale =
      let (row', found', advances) =
        perform_all-Evolves formats sessions db calls table id.value row found in
      let stale' = stale-Advances expected token row row' stale advances in
      let after : Tables = (perform_all formats sessions db calls).1 in
      record {
        finish_fails = finish-stale formats after id expected token row' found' stale';
        heartbeat_fails = heartbeat-stale formats after id expected token row' found' stale';
        complete_child_fails =
            λ s. complete_child-stale s after id expected token row' found' stale';
      }
