-- ===== src/Store/Delegation/Recovery.antt =====
-- `reconcile_expired` and `reconcile_running` of apps/hermesd/src/adapters/sqlite_delegation.rs make
-- legal moves.
use hermes_rs.Domain.Delegation.{completed, failed, cancelled, outcome_unknown}
use hermes_rs.Store.Table.{change_if}
use hermes_rs.Prelude.{nat_eq, ◌≢◌}
use hermes_rs.Prelude.{
  ℕ, ◌≤◌, ◌≡◌, refl, sym, ◌∙◌, ap, subst, String, Bool, true, ◌&&◌, some, List, [], ◌∷◌, ◌==◌,
  string_eq, nat_eq, option_eq, arith, ok, ok_or, >>=-eq-ok, ok-injective,
}
use hermes_rs.Domain.Delegation.{DelegationTerminal, terminal_name, DelegationCompletion}
use hermes_rs.Store.Delegation.{
  invalid, RawDelegation, Formats, to_i64, increment, ensure_monotonic_timestamp,
}
use hermes_rs.Store.Delegation.Rows.{find_delegation, completion_from_raw}
use hermes_rs.Store.Delegation.Moves.{Moves, steps, stays, IsStep}
use hermes_rs.Store.Delegation.Changes.{finished-IsRow, running-Advances}
use hermes_rs.Store.Delegation.Lifecycle.{
  Tables, conflict, is_fenced, update_one, finished_row, encode_terminal, insert_completion,
}
use hermes_rs.Store.Delegation.Legal.{
  increment-eq-ok, update_one-eq-ok, grows_by_one, ensure_monotonic-eq-ok,
}
use Prim.Native.String as Text
use hermes_rs.Prelude.{select, All, Fresh, All-map}
use hermes_rs.Store.Delegation.{validate_detail}
use hermes_rs.Store.Delegation.Moves.{step-other, and_then, IsTable, ids}
use hermes_rs.Store.Delegation.Rows.{reconciliation_outcome}
use hermes_rs.Store.Table.{order_by}
use hermes_rs.Store.Table.Selected.{IsListed, selected-IsListed, selected-test}
use hermes_rs.Store.Delegation.Reconcile.{
  lease_passed, earlier, deadline_or_zero, reconcile_row, expire_rows,
  reconcile_expired_transaction, abandon_rows, reconcile_running_transaction,
}

-- The delegations that a loop still has to treat are running, and are those of the table.
pub record IsWaiting (rows raws : List RawDelegation) : Type 0 where
  pub listed : IsListed (λ raw. raw.delegation_id) rows raws
  pub runs : All (λ raw. raw.state ≡ "running") raws

terminal_name-not_running : (outcome : DelegationTerminal) → terminal_name outcome ≢ "running"
unfolding terminal_name
terminal_name-not_running (completed _) h = absurd (cc)
terminal_name-not_running (failed _) h = absurd (cc)
terminal_name-not_running (cancelled _) h = absurd (cc)
terminal_name-not_running (outcome_unknown _) h = absurd (cc)

module _ (formats : Formats) (now : ℕ) where
  pub reconcile_row-IsStep :
      (test : RawDelegation → Bool) (tables : Tables) (raw : RawDelegation)
      (outcome : DelegationTerminal) (tables' : Tables) (completion : DelegationCompletion)
      → find_delegation raw.delegation_id tables.delegations ≡ some raw
      → raw.state ≡ "running"
      → raw.updated_at_ms ≤ now
      → reconcile_row formats test now tables raw outcome ≡ ok (tables', completion)
      → (step : IsStep tables.delegations tables'.delegations) × (step.id ≡ raw.delegation_id)
        × (test raw ≡ true → (change_if step.test step.change step.raw).state ≢ "running")
  unfolding reconcile_row
  reconcile_row-IsStep test tables raw outcome tables' completion found runs later h =
      let fenced : RawDelegation → Bool =
        λ row. is_fenced raw.delegation_id raw.owner_generation raw.fencing_token row && test row in
      let (c, described, h1) = >>=-eq-ok (completion_from_raw formats raw outcome now) _ h in
      let (next, stepped, h2) =
        >>=-eq-ok (increment raw.owner_generation "owner generation") _ h1 in
      let (text, encoded, h3) = >>=-eq-ok (encode_terminal formats outcome) _ h2 in
      let change = finished_row (terminal_name outcome) next text now in
      let otherwise = conflict c.delegation_id raw.owner_generation raw.owner_generation in
      let (rows, changed, h4) =
        >>=-eq-ok (update_one fenced change otherwise tables.delegations) _ h3 in
      let (completions, inserted, h5) =
        >>=-eq-ok (insert_completion formats tables.completions c) _ h4 in
      let grown = increment-eq-ok raw.owner_generation "owner generation" next stepped in
      (
        record {
          id = raw.delegation_id;
          raw = raw;
          test = fenced;
          change = change;
          found = found;
          only = λ row h. ground (arith, string_eq.eq_iff_same row.delegation_id raw.delegation_id);
          keeps = λ row. refl;
          advances = λ hit well.
              running-Advances raw well now later next grown runs (change raw) refl
                (grows_by_one grown) refl refl;
          well = λ hit well. finished-IsRow raw well now later next grown runs outcome text;
          updated =
              update_one-eq-ok fenced change otherwise tables.delegations rows changed
              ∙ ap (λ t. t.0.delegations) (ok-injective h5);
        },
        refl,
        λ passes.
            let hit : fenced raw ≡ true = ground (
              arith,
              string_eq.eq_iff_same raw.delegation_id raw.delegation_id,
              string_eq.eq_iff_same raw.state "running",
              nat_eq.eq_iff_same raw.owner_generation raw.owner_generation,
              nat_eq.eq_iff_same raw.fencing_token raw.fencing_token,
              runs,
              passes,
            ) in
            rw hit (terminal_name-not_running outcome),
      )

  found-step :
      {rows rows' : List RawDelegation} (step : IsStep rows rows') (raws : List RawDelegation)
      → Fresh step.id (ids raws)
      → All (λ raw. find_delegation raw.delegation_id rows ≡ some raw) raws
      → All (λ raw. find_delegation raw.delegation_id rows' ≡ some raw) raws
  found-step step [] fresh h = tt
  found-step step (raw ∷ raws) fresh h = (
    step-other step raw.delegation_id raw (λ e. fresh.0 (sym e)) h.0,
    found-step step raws fresh.1 h.1,
  )

  pub IsWaiting-rest :
      {rows rows' : List RawDelegation} (step : IsStep rows rows') (raw : RawDelegation)
      (raws : List RawDelegation)
      → step.id ≡ raw.delegation_id
      → IsWaiting rows (raw ∷ raws)
      → IsWaiting rows' raws
  IsWaiting-rest step raw raws same h = record {
    listed = record {
      found =
          found-step step raws (subst (λ k. Fresh k (ids raws)) (sym same) h.listed.distinct.0)
            h.listed.found.1;
      distinct = h.listed.distinct.1;
    };
    runs = h.runs.1;
  }

  abandon_rows-Moves :
      (reason : String) (raws : List RawDelegation) (tables tables' : Tables)
      (completions : List DelegationCompletion)
      → IsWaiting tables.delegations raws
      → abandon_rows formats reason now tables raws ≡ ok (tables', completions)
      → Moves tables.delegations tables'.delegations
  unfolding abandon_rows
  abandon_rows-Moves reason [] tables tables' completions waits h =
      subst (λ t. Moves tables.delegations t.delegations) (ap (λ t. t.0) (ok-injective h))
        (stays tables.delegations)
  abandon_rows-Moves reason (raw ∷ raws) tables tables' completions waits h =
      let (u, timed, h1) =
        >>=-eq-ok (ensure_monotonic_timestamp formats raw now "reconciliation timestamp") _ h in
      let (outcome, chosen, h2) = >>=-eq-ok (reconciliation_outcome raw reason) _ h1 in
      let (done, settled, h3) =
        >>=-eq-ok (reconcile_row formats (λ row. true) now tables raw outcome) _ h2 in
      let (rest, others, h4) = >>=-eq-ok (abandon_rows formats reason now done.0 raws) _ h3 in
      let (step, same, ended) =
        reconcile_row-IsStep (λ row. true) tables raw outcome done.0 done.1 waits.listed.found.0
          waits.runs.0 (ensure_monotonic-eq-ok formats raw now "reconciliation timestamp" timed)
          settled in
      subst (λ t. Moves tables.delegations t.delegations) (ap (λ t. t.0) (ok-injective h4))
        (and_then (steps step) (
          abandon_rows-Moves reason raws done.0 rest.0 rest.1
            (IsWaiting-rest step raw raws same waits) others))

  expire_rows-Moves :
      (raws : List RawDelegation) (tables tables' : Tables)
      (completions : List DelegationCompletion)
      → IsWaiting tables.delegations raws
      → expire_rows formats now tables raws ≡ ok (tables', completions)
      → Moves tables.delegations tables'.delegations
  unfolding expire_rows
  expire_rows-Moves [] tables tables' completions waits h =
      subst (λ t. Moves tables.delegations t.delegations) (ap (λ t. t.0) (ok-injective h))
        (stays tables.delegations)
  expire_rows-Moves (raw ∷ raws) tables tables' completions waits h =
      let (u, timed, h1) =
        >>=-eq-ok (ensure_monotonic_timestamp formats raw now "reconciliation timestamp") _ h in
      let (deadline, leased, h2) =
        >>=-eq-ok
          (ok_or raw.lease_expires_at_ms
            (invalid "running delegation has no durable lease deadline"))
          _ h1 in
      let (outcome, chosen, h3) =
        >>=-eq-ok
          (reconciliation_outcome raw (
            Text.◌++◌ "worker lease expired at "
              (Text.◌++◌ (formats.number deadline) "; no terminal outcome was durably recorded")))
          _ h2 in
      let (done, settled, h4) =
        >>=-eq-ok (reconcile_row formats (lease_passed now) now tables raw outcome) _ h3 in
      let (rest, others, h5) = >>=-eq-ok (expire_rows formats now done.0 raws) _ h4 in
      let (step, same, ended) =
        reconcile_row-IsStep (lease_passed now) tables raw outcome done.0 done.1
          waits.listed.found.0 waits.runs.0
          (ensure_monotonic-eq-ok formats raw now "reconciliation timestamp" timed) settled in
      subst (λ t. Moves tables.delegations t.delegations) (ap (λ t. t.0) (ok-injective h5))
        (and_then (steps step) (
          expire_rows-Moves raws done.0 rest.0 rest.1 (IsWaiting-rest step raw raws same waits)
            others))

-- The delegations that `reconcile_running` selects.
pub running-IsWaiting :
    (rows : List RawDelegation)
    → IsTable rows
    → (order : RawDelegation → RawDelegation → Bool)
    → IsWaiting rows (order_by order (select (λ row. row.state == "running") rows))
running-IsWaiting rows well order = record {
  listed =
      selected-IsListed (λ raw. raw.delegation_id) order (λ row. row.state == "running") rows
        well.distinct_ids;
  runs =
      All-map (λ row hit. (string_eq.eq_iff_same row.state "running").0 hit) _
        (selected-test (λ raw. raw.delegation_id) order (λ row. row.state == "running") rows);
}

module _ (formats : Formats) (tables : Tables) (well : IsTable tables.delegations) (now_ms : ℕ)
    (tables' : Tables) (completions : List DelegationCompletion) where
  pub reconcile_running-Moves :
      (reason : String)
      → reconcile_running_transaction formats tables reason now_ms ≡ ok (tables', completions)
      → Moves tables.delegations tables'.delegations
  unfolding reconcile_running_transaction
  reconcile_running-Moves reason h =
      let (u, valid, h1) = >>=-eq-ok (validate_detail reason "restart reconciliation reason") _ h in
      let (now, fits, h2) = >>=-eq-ok (to_i64 now_ms "reconciliation timestamp") _ h1 in
      let test : RawDelegation → Bool = λ row. row.state == "running" in
      let order = earlier λ row. row.updated_at_ms in
      abandon_rows-Moves formats now reason (order_by order (select test tables.delegations)) tables
        tables' completions (running-IsWaiting tables.delegations well order) h2

  pub reconcile_expired-Moves :
      reconcile_expired_transaction formats tables now_ms ≡ ok (tables', completions)
      → Moves tables.delegations tables'.delegations
  unfolding reconcile_expired_transaction
  reconcile_expired-Moves h =
      let (now, fits, h1) = >>=-eq-ok (to_i64 now_ms "reconciliation timestamp") _ h in
      let test : RawDelegation → Bool = λ row. row.state == "running" && lease_passed now row in
      let order = earlier deadline_or_zero in
      expire_rows-Moves formats now (order_by order (select test tables.delegations)) tables tables'
        completions
        (record {
          listed =
              selected-IsListed (λ raw. raw.delegation_id) order test tables.delegations
                well.distinct_ids;
          runs =
              All-map (λ row hit. ground (arith, string_eq.eq_iff_same row.state "running")) _
                (selected-test (λ raw. raw.delegation_id) order test tables.delegations);
        })
        h1
