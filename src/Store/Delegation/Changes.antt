-- ===== src/Store/Delegation/Changes.antt =====
-- What the statements of apps/hermesd/src/adapters/sqlite_delegation.rs set in a row keeps the
-- constraints of the table, and lets the row advance.
use hermes_rs.Prelude.{
  ℕ, ◌+◌, ◌≤◌, ◌<◌, ◌≡◌, refl, String, true, none, ◌==◌, string_eq, nat_eq, arith, option_eq, not,
}
use hermes_rs.Domain.Delegation.{
  DelegationTerminal, completed, failed, cancelled, outcome_unknown, terminal_name,
}
use hermes_rs.Store.Delegation.{RawDelegation}
use hermes_rs.Store.Delegation.Moves.{
  state_check, row_check, is_asked_well, IsRow, Advances, commission,
}
use hermes_rs.Store.Delegation.Lifecycle.{
  claimed_row, extended_row, withdrawn_row, asked_row, finished_row,
}

module _ (raw : RawDelegation) (h : IsRow raw) (now : ℕ) (later : raw.updated_at_ms ≤ now)
    (generation : ℕ) (next : generation ≡ raw.owner_generation + 1) where
  positive : 0 < raw.owner_generation
  unfolding row_check
  positive = ground (arith, h.constrained)

  ordered : raw.created_at_ms ≤ raw.updated_at_ms
  unfolding row_check
  ordered = ground (arith, h.constrained)

  checked : state_check raw ≡ true
  unfolding row_check
  checked = ground (arith, h.constrained)

  module _ (waits : raw.state ≡ "pending") where
    waiting_columns :
        (raw.worker_id ≡ none)
        × (raw.fencing_token ≡ 0)
        × (raw.lease_expires_at_ms ≡ none)
        × (raw.terminal_json ≡ none)
    unfolding state_check
    waiting_columns = let c = rw (state_check, waits) at checked in ground (arith, c)

    waiting_unasked : (raw.cancellation_reason ≡ none) × (raw.cancellation_requested_at_ms ≡ none)
    unfolding is_asked_well
    waiting_unasked = let c = rw (is_asked_well, waits) at h.asked_well in ground (arith, c)

    pub claimed-IsRow :
        (worker : String) (fence deadline : ℕ)
        → fence ≡ raw.fencing_token + 1
        → IsRow (claimed_row generation worker fence deadline now raw)
    unfolding row_check state_check is_asked_well
    claimed-IsRow worker fence deadline f = record {
      constrained = ground (arith, waiting_columns, ordered);
      asked_well = ground (arith, waiting_unasked);
    }

    pub withdrawn-IsRow : (text : String) → IsRow (withdrawn_row generation text now raw)
    unfolding row_check state_check is_asked_well
    withdrawn-IsRow text = record {
      constrained = ground (arith, waiting_columns, ordered);
      asked_well = ground (arith, waiting_unasked);
    }

    pub claimed-Advances :
        (worker : String) (fence deadline : ℕ)
        → fence ≡ raw.fencing_token + 1
        → Advances raw (claimed_row generation worker fence deadline now raw)
    claimed-Advances worker fence deadline f = record {
      same_commission = refl;
      generation_grows = omega (arith, next);
      fence_grows = omega (arith, f);
      time_grows = later;
      absorbed = λ terminal. absurd (cc (rw waits at terminal));
    }

    pub withdrawn-Advances : (text : String) → Advances raw (withdrawn_row generation text now raw)
    withdrawn-Advances text = record {
      same_commission = refl;
      generation_grows = omega (arith, next);
      fence_grows = omega (arith, waiting_columns.1);
      time_grows = later;
      absorbed = λ terminal. absurd (cc (rw waits at terminal));
    }

  module _ (runs : raw.state ≡ "running") where
    running_columns :
        (0 < raw.fencing_token)
        × (raw.terminal_json ≡ none)
        × (not (raw.worker_id == none) ≡ true)
        × (not (raw.lease_expires_at_ms == none) ≡ true)
    unfolding state_check
    running_columns = let c = rw (state_check, runs) at checked in ground (arith, c)

    pub extended-IsRow : (deadline : ℕ) → IsRow (extended_row generation deadline now raw)
    unfolding row_check state_check is_asked_well
    extended-IsRow deadline = record {
      constrained = rw runs (ground (arith, running_columns, ordered));
      asked_well = h.asked_well;
    }

    pub asked-IsRow : (reason : String) → IsRow (asked_row reason now raw)
    unfolding row_check state_check is_asked_well
    asked-IsRow reason = record {
      constrained = rw runs (ground (arith, running_columns, ordered, positive));
      asked_well = rw runs refl;
    }

    finished-checked :
        (outcome : DelegationTerminal) (text : String)
        → state_check (finished_row (terminal_name outcome) generation text now raw) ≡ true
    unfolding state_check terminal_name
    finished-checked (completed _) text = ground (arith, running_columns.0)
    finished-checked (failed _) text = ground (arith, running_columns.0)
    finished-checked (cancelled _) text = ground (arith, running_columns.0)
    finished-checked (outcome_unknown _) text = ground (arith, running_columns.0)

    pub finished-IsRow :
        (outcome : DelegationTerminal) (text : String)
        → IsRow (finished_row (terminal_name outcome) generation text now raw)
    unfolding row_check is_asked_well
    finished-IsRow outcome text = record {
      constrained = rw (finished-checked outcome text) (ground (arith, ordered));
      asked_well = refl;
    }

    -- Whatever keeps the commission and does not go back is an advance of a running row.
    pub running-Advances :
        (after : RawDelegation)
        → commission after ≡ commission raw
        → raw.owner_generation ≤ after.owner_generation
        → after.fencing_token ≡ raw.fencing_token
        → after.updated_at_ms ≡ now
        → Advances raw after
    running-Advances after same grows fence time = record {
      same_commission = same;
      generation_grows = grows;
      fence_grows = omega (arith, fence);
      time_grows = omega (arith, time, later);
      absorbed = λ terminal. absurd (cc (rw runs at terminal));
    }
