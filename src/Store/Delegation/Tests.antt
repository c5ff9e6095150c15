-- ===== src/Store/Delegation/Tests.antt =====
-- Runs of the delegation store: a claimed delegation, its completion and its delivery.
use hermes_rs.Domain.Id.{new_id}
use hermes_rs.Prelude.Text.{is_whitespace}
use hermes_rs.Prelude.Text.{trim_end}
use hermes_rs.Prelude.Text.{trim_start}
use hermes_rs.Prelude.Text.{trim}
use hermes_rs.Prelude.{select}
use hermes_rs.Store.Delegation.History.{perform}
use hermes_rs.Store.Delegation.Lifecycle.{commit}
use hermes_rs.Store.Delegation.Finish.{ensure_worker}
use hermes_rs.Store.Delegation.Lifecycle.{heartbeat_transaction}
use hermes_rs.Store.Delegation.Lifecycle.{insert_completion}
use hermes_rs.Store.Delegation.Lifecycle.{reread}
use hermes_rs.Store.Delegation.Finish.{settle_delegation}
use hermes_rs.Store.Delegation.Lifecycle.{update_one}
use hermes_rs.Store.Delegation.Reconcile.{abandon_rows}
use hermes_rs.Store.Delegation.Reconcile.{reconcile_running_transaction}
use hermes_rs.Store.Delegation.Rows.{cancellation_from_raw}
use hermes_rs.Store.Delegation.Rows.{check_intent}
use hermes_rs.Store.Delegation.Rows.{completion_from_raw}
use hermes_rs.Store.Delegation.Rows.{load_raw}
use hermes_rs.Store.Delegation.Rows.{spec_from_raw}
use hermes_rs.Store.Delegation.{ensure_active_lease}
use hermes_rs.Store.Delegation.{ensure_generation}
use hermes_rs.Store.Delegation.{ensure_monotonic_timestamp}
use hermes_rs.Store.Delegation.{ensure_running_fence}
use hermes_rs.Store.Delegation.{increment}
use hermes_rs.Store.Delegation.{validate_detail}
use hermes_rs.Store.Delegation.{validate_lease}
use hermes_rs.Store.Delegation.{validate_spec}
use hermes_rs.Store.Delegation.{validate_terminal}
use hermes_rs.Store.Table.{insert_by}
use hermes_rs.Store.Table.{order_by}
use hermes_rs.Store.Delegation.Moves.{is_asked_well}
use hermes_rs.Store.Delegation.Moves.{row_check}
use hermes_rs.Store.Delegation.Moves.{state_check}
use hermes_rs.Store.Delegation.Outbox.{decode_completion}
use hermes_rs.Store.Delegation.{to_i64}
use hermes_rs.Store.Delegation.{validate_claim}
use hermes_rs.Store.Table.{count}
use hermes_rs.Store.Table.{find_row}
use hermes_rs.Store.Table.{fits_i64}
use hermes_rs.Store.Table.{update}
use hermes_rs.Prelude.{
  ℕ, ◌≡◌, refl, String, some, none, List, [], ◌∷◌, ◌++◌, ok, string_eq, contains, arith, ◌<◌,
}
use hermes_rs.Domain.Delegation.{
  DelegationId, CompletionEventId, DeliveryClaimId, DelegationSpec, completed, terminal_name,
  DelegationCompletion, OwnerGeneration, FencingToken,
}
use hermes_rs.Prelude.{All, ◌≢◌}
use hermes_rs.Domain.Delegation.{outcome_unknown}
use hermes_rs.Store.Delegation.Rows.{reconciliation_outcome}
use hermes_rs.Store.Delegation.Reconcile.{reconcile_row}
use hermes_rs.Store.Delegation.Restart.{reconcile_running-IsIdle}
use hermes_rs.Store.Session.{SessionTables}
use hermes_rs.Store.Delegation.{RawDelegation, Formats}
use hermes_rs.Store.Delegation.Rows.{ensure_legal_terminal}
use hermes_rs.Store.Delegation.Lifecycle.{Tables, CompletionRow}
use hermes_rs.Store.Delegation.Finish.{finish_transaction}
use hermes_rs.Store.Delegation.Intent.{IsLegal}
use hermes_rs.Store.Delegation.Finished.{IsFinished}
use hermes_rs.Store.Delegation.Moves.{IsTable, Evolves}
use hermes_rs.Store.Delegation.History.{
  DelegationCall, heartbeat_call, finish_call, reconcile_running_call, claim_completion_call,
  release_call, perform_all, perform_all-IsTable, perform_all-Evolves,
}
use hermes_rs.Store.Delegation.Fencing.{
  old_generation, IsFenced, IsAuthorised, stale-IsFenced, finish-IsAuthorised,
}
use hermes_rs.Store.Delegation.Outbox.{
  claim_completion, claim_completion_transaction, release_completion,
}
use hermes_rs.Store.Delegation.Exclusion.{IsWithin}
use hermes_rs.Store.Delegation.Delivery.{IsRefused, claim_completion-exclusive}

abbrev spec : DelegationSpec
spec = record {
  delegation_id = record { value = "d1" };
  completion_event_id = record { value = "e1" };
  parent_session_id = record { value = "s1" };
  child_session_id = record { value = "s2" };
  goal = "look";
  context = none;
}

abbrev completion : DelegationCompletion
completion = record {
  event_id = record { value = "e1" };
  delegation_id = record { value = "d1" };
  spec = spec;
  outcome = completed "seen";
  completed_at_ms = 30;
}

abbrev formats : Formats
formats = record {
  number = λ n. "n";
  id_error = λ e. "invalid identifier";
  quoted = λ s. s;
  terminal = record { encode = λ outcome. ok "terminal"; decode = λ text. ok (completed "seen") };
  completion = record { encode = λ c. ok "completion"; decode = λ text. ok completion };
  constraint = "constraint failed";
  no_rows = "no rows";
}

abbrev sessions : SessionTables (List String) String (Unit {0})
sessions = record {
  has_session = λ s id. contains id s;
  config_session = λ c. record { value = c };
  create_session = λ s c. ok (s ++ c ∷ []);
  append_turn = λ s id generation messages. ok s;
}

abbrev running_row : RawDelegation
running_row = record {
  delegation_id = "d1";
  completion_event_id = "e1";
  parent_session_id = "s1";
  child_session_id = "s2";
  goal = "look";
  context = none;
  state = "running";
  owner_generation = 2;
  worker_id = some "w1";
  fencing_token = 1;
  lease_expires_at_ms = some 50;
  terminal_json = none;
  cancellation_reason = none;
  cancellation_requested_at_ms = none;
  created_at_ms = 10;
  updated_at_ms = 20;
}

abbrev finished : RawDelegation
finished = record running_row {
  state = "completed";
  owner_generation = 3;
  lease_expires_at_ms = none;
  terminal_json = some "terminal";
  updated_at_ms = 30;
}

abbrev waiting_row : CompletionRow
waiting_row = record {
  event_id = "e1";
  delegation_id = "d1";
  payload_json = "completion";
  delivery_state = "pending";
  delivery_claim_id = none;
  delivery_claim_expires_at_ms = none;
  delivery_attempts = 0;
  created_at_ms = 30;
  delivered_at_ms = none;
}

abbrev claimed_event : CompletionRow
claimed_event = record waiting_row {
  delivery_claim_id = some "c1";
  delivery_claim_expires_at_ms = some 60;
  delivery_attempts = 1;
}

abbrev running_tables : Tables
running_tables = record { delegations = running_row ∷ []; completions = [] }

abbrev finished_tables : Tables
finished_tables = record { delegations = finished ∷ []; completions = waiting_row ∷ [] }

abbrev claimed_tables : Tables
claimed_tables = record { delegations = finished ∷ []; completions = claimed_event ∷ [] }

abbrev d1 : DelegationId
d1 = record { value = "d1" }

abbrev generation : ℕ → OwnerGeneration
generation n = record { value = n }

abbrev token : ℕ → FencingToken
token n = record { value = n }

abbrev calls : List (DelegationCall String (Unit {0}))
calls =
    heartbeat_call d1 (generation 2) (token 1) 25 60
    ∷ finish_call d1 (generation 2) (token 1) (completed "late") 28
    ∷ finish_call d1 (generation 3) (token 1) (completed "seen") 30
    ∷ reconcile_running_call "restart" 40
    ∷ []

running_tables-IsTable : IsTable (running_row ∷ [])
unfolding row_check state_check is_asked_well
running_tables-IsTable = record {
  distinct_ids = (tt, tt);
  distinct_events = (tt, tt);
  distinct_children = (tt, tt);
  rows_well = (record { constrained = refl; asked_well = refl }, tt);
}

-- The old generation is refused, and the terminal stays.
finishes_once :
    (perform_all formats sessions ("s1" ∷ "s2" ∷ [], running_tables) calls).1.delegations
    ≡ record finished { owner_generation = 4 } ∷ []
unfolding perform_all perform commit reconcile_running_transaction abandon_rows order_by insert_by
    reread heartbeat_transaction validate_lease finish_transaction validate_terminal load_raw
    find_row ensure_worker ensure_generation ensure_running_fence ensure_monotonic_timestamp
    ensure_active_lease to_i64 fits_i64 ensure_legal_terminal cancellation_from_raw check_intent
    settle_delegation completion_from_raw spec_from_raw terminal_name new_id select is_whitespace
    trim trim_end trim_start insert_completion update_one increment validate_detail validate_spec
    count update
finishes_once = refl

perform_all-IsTable_example :
    IsTable (perform_all formats sessions ("s1" ∷ "s2" ∷ [], running_tables) calls).1.delegations
perform_all-IsTable_example =
    perform_all-IsTable formats sessions ("s1" ∷ "s2" ∷ [], running_tables) calls
      running_tables-IsTable

perform_all-Evolves_example :
    Evolves
      (running_row ∷ [])
      (perform_all formats sessions ("s1" ∷ "s2" ∷ [], running_tables) calls).1.delegations
perform_all-Evolves_example =
    perform_all-Evolves formats sessions ("s1" ∷ "s2" ∷ [], running_tables) calls
      running_tables-IsTable

one_two : 1 < 2
one_two = omega arith

stale-IsFenced_example :
    IsFenced formats sessions
      (perform_all formats sessions ("s1" ∷ "s2" ∷ [], running_tables) calls).1
      d1
      (generation 1)
      (token 1)
unfolding find_row
stale-IsFenced_example =
    stale-IsFenced formats sessions ("s1" ∷ "s2" ∷ [], running_tables) calls d1 (generation 1)
      (token 1) running_row running_tables-IsTable refl (old_generation one_two)

finish-IsAuthorised_example :
    (h : IsAuthorised running_tables d1 (generation 2) (token 1)) × (deadline : ℕ)
    × (h.row.lease_expires_at_ms ≡ some deadline)
    × (30 < deadline)
    × IsLegal h.row (completed "seen")
    × IsFinished formats running_tables finished_tables h.row (completed "seen") 30 completion
unfolding finish_transaction validate_terminal load_raw find_row ensure_worker ensure_generation
    ensure_running_fence ensure_monotonic_timestamp ensure_active_lease to_i64 fits_i64
    ensure_legal_terminal cancellation_from_raw check_intent settle_delegation completion_from_raw
    spec_from_raw terminal_name new_id select is_whitespace trim trim_end trim_start
    insert_completion update_one increment validate_detail validate_spec count update
finish-IsAuthorised_example =
    finish-IsAuthorised formats running_tables d1 (generation 2) (token 1) (completed "seen") 30
      finished_tables completion refl

early : 59 < 60
early = omega arith

abbrev e1 : CompletionEventId
e1 = record { value = "e1" }

abbrev claimant : String → DeliveryClaimId
claimant name = record { value = name }

-- Between the claims, another one is refused, and so is a release by it.
abbrev between : List (DelegationCall String (Unit {0}))
between =
    claim_completion_call e1 (claimant "c2") 50 70
    ∷ release_call e1 (claimant "c2")
    ∷ reconcile_running_call "restart" 55
    ∷ []

fifty_sixty : 50 < 60
fifty_sixty = omega arith

other_claimant : ◌≢◌ {A = String} "c2" "c1"
other_claimant same = cc ((string_eq.eq_iff_same "c2" "c1").1 same)

between-IsWithin : All (IsWithin "e1" "c1" 60) between
unfolding IsWithin
between-IsWithin = ((λ same. fifty_sixty), ((λ same. other_claimant), (tt, tt)))

claim_completion-exclusive_example :
    IsRefused formats
      (perform_all formats sessions ("s1" ∷ "s2" ∷ [], claimed_tables) between).1
      e1
      (claimant "c2")
      59
      90
unfolding claim_completion_transaction validate_claim to_i64 fits_i64 count find_row update
    decode_completion commit select
claim_completion-exclusive_example =
    claim_completion-exclusive formats sessions ("s1" ∷ "s2" ∷ []) finished_tables e1
      (claimant "c1") (claimant "c2") 40 60 59 90 claimed_tables completion between (tt, tt) refl
      between-IsWithin early

-- The run gives no completion, and the claim is still in place.
refused_run :
    claim_completion formats
      (perform_all formats sessions ("s1" ∷ "s2" ∷ [], claimed_tables) between).1
      e1
      (claimant "c2")
      59
      90
    ≡ (claimed_tables, ok none)
unfolding perform_all perform commit claim_completion_transaction validate_claim to_i64 fits_i64
    count find_row update decode_completion select reconcile_running_transaction abandon_rows
    order_by insert_by validate_detail release_completion trim trim_end trim_start is_whitespace
refused_run = refl

abbrev abandoned : RawDelegation
abandoned = record running_row {
  state = "outcome_unknown";
  owner_generation = 3;
  lease_expires_at_ms = none;
  terminal_json = some "terminal";
  updated_at_ms = 40;
}

abbrev abandoned_tables : Tables
abandoned_tables = record {
  delegations = abandoned ∷ [];
  completions = record waiting_row { created_at_ms = 40 } ∷ [];
}

reconcile_running-IsIdle_example : All (λ row. row.state ≢ "running") (abandoned ∷ [])
unfolding reconcile_running_transaction abandon_rows order_by insert_by load_raw find_row
    ensure_monotonic_timestamp ensure_active_lease to_i64 fits_i64 ensure_legal_terminal
    cancellation_from_raw check_intent settle_delegation completion_from_raw spec_from_raw
    terminal_name new_id select is_whitespace trim trim_end trim_start insert_completion update_one
    increment validate_detail validate_spec count update reconciliation_outcome reconcile_row
reconcile_running-IsIdle_example =
    reconcile_running-IsIdle formats running_tables "restart" 40 abandoned_tables
      (record completion { outcome = outcome_unknown "restart"; completed_at_ms = 40 } ∷ [])
      running_tables-IsTable refl
