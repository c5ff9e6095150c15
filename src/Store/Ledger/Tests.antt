-- ===== src/Store/Ledger/Tests.antt =====
-- Runs of the ledger: one plan, its approval and its terminal.
use hermes_rs.Domain.Effect.{effect_discrete}
use hermes_rs.Domain.Effect.{pending}
use hermes_rs.Domain.Id.{new_id}
use hermes_rs.Prelude.Text.{trim}
use hermes_rs.Prelude.{contains}
use hermes_rs.Prelude.{select}
use hermes_rs.Prelude.{traverse}
use hermes_rs.Runtime.Projection.{status_name}
use hermes_rs.Store.Ledger.Journal.{perform}
use hermes_rs.Store.Ledger.Journal.{transaction}
use hermes_rs.Store.Ledger.{apply_updates}
use hermes_rs.Store.Ledger.{check_absent}
use hermes_rs.Store.Ledger.{check_all_recorded}
use hermes_rs.Store.Ledger.Approve.{check_approved}
use hermes_rs.Store.Ledger.{check_keys}
use hermes_rs.Store.Ledger.{check_recorded}
use hermes_rs.Store.Ledger.{compare_approvals}
use hermes_rs.Store.Ledger.{complete_rows}
use hermes_rs.Store.Ledger.Approve.{pending_updates}
use hermes_rs.Store.Ledger.{plan_row}
use hermes_rs.Store.Ledger.Approve.{record_approvals}
use hermes_rs.Store.Ledger.{transpose}
use hermes_rs.Store.Table.{count}
use hermes_rs.Store.Table.{find_row}
use hermes_rs.Store.Table.{order_by}
use hermes_rs.Store.Table.{update}
use mathlib.Core.List.{Perm}
use hermes_rs.Prelude.{
  ℕ, ◌≡◌, refl, subst, String, true, some, none, List, [], ◌∷◌, ok, err, if◌then◌else◌, ◌==◌,
  string_eq, nat_eq, All, suc,
}
use hermes_rs.Domain.Effect.{
  ToolArguments, ToolEffect, read_only, external_mutation, ApprovalRecord, PlannedToolCall,
  ToolTerminal, succeeded,
}
use hermes_rs.Runtime.Broker.{ToolBroker}
use hermes_rs.Runtime.Fault.{JsonError}
use hermes_rs.Runtime.Host.{ToolHost}
use hermes_rs.Runtime.Host.Turn.{HostCall}
use hermes_rs.Store.Table.{Codec, IsCoded}
use hermes_rs.Store.Ledger.{
  EffectRow, PendingEffect, record_plans, record_terminals, pending_effects,
}
use hermes_rs.Store.Ledger.Rows.{Evolves}
use hermes_rs.Store.Ledger.Keys.{IsLedger}
use hermes_rs.Store.Ledger.Terminals.{IsCompleted, record_terminals-IsCompleted}
use hermes_rs.Store.Ledger.Pending.{IsStorable, in_scope, pending_effects-record_plans}
use hermes_rs.Store.Ledger.Journal.{
  Database, LedgerCall, records, approves, completes, database_after, database_after-Evolves,
  database_after-IsLedger,
}

abbrev refused : JsonError
refused = record { message = "expected value" }

abbrev arguments : Codec (ToolArguments ℕ)
arguments = record {
  encode = λ a. ok "{}";
  decode = λ text. if text == "{}" then ok (record { entries = [] }) else err refused;
}

abbrev effects : Codec ToolEffect
effects = record {
  encode =
      λ effect. elim effect [ ToolEffect.read_only ↦ ok "read_only" | _ ↦ ok "external_mutation" ];
  decode = λ text.
      if text == "read_only"
      then ok read_only
      else if text == "external_mutation"
      then ok external_mutation
      else err refused;
}

abbrev approvals : Codec ApprovalRecord
approvals = record {
  encode = λ approval. ok approval.decision;
  decode = λ text. ok (record { required = true; decision = text; principal = "user" });
}

abbrev approval : String → ApprovalRecord
approval decision = record { required = true; decision = decision; principal = "user" }

abbrev write_plan : String → PlannedToolCall ℕ
write_plan decision = record {
  call_id = record { value = "call-1" };
  name = "write";
  arguments = record { entries = [] };
  invocation_id = record { value = "turn-1/1" };
  effect = external_mutation;
  approval = some (approval decision);
}

abbrev terminal : ToolTerminal
terminal = record {
  call_id = record { value = "call-1" };
  name = "write";
  status = succeeded;
  content = "done";
  invocation_id = record { value = "turn-1/1" };
  effect = external_mutation;
  receipt = some "r1";
}

abbrev planned_row : EffectRow
planned_row = record {
  execution_key = "turn-1/1";
  execution_scope = "turn-1";
  call_id = "call-1";
  name = "write";
  arguments_json = "{}";
  effect_json = "external_mutation";
  approval_json = some "pending";
  status = "planned";
  content = none;
  receipt = none;
  planned_at = 7;
  completed_at = none;
}

abbrev completed_row : EffectRow
completed_row = record planned_row {
  status = "succeeded";
  content = some "done";
  receipt = some "r1";
  completed_at = some 9;
}

abbrev empty : Database
empty = record { now = 7; rows = [] }

abbrev ledger_calls : List (LedgerCall ℕ)
ledger_calls =
    records "turn-1" (write_plan "pending" ∷ [])
    ∷ approves (write_plan "allow" ∷ [])
    ∷ completes (terminal ∷ [])
    ∷ completes (terminal ∷ [])
    ∷ []

-- The second completion is refused, and the row stays.
completes_once :
    (database_after arguments effects approvals suc empty ledger_calls).rows
    ≡ record completed_row { approval_json = some "allow" } ∷ []
unfolding database_after transaction perform record_terminals check_keys contains check_all_recorded
    find_row record_approvals pending_updates record_plans check_absent traverse plan_row transpose
    check_approved effect_discrete compare_approvals pending select status_name apply_updates
    check_recorded complete_rows count update
completes_once = refl

empty-IsLedger : IsLedger []
empty-IsLedger = record { distinct_keys = tt; checked = tt }

database_after-Evolves_example :
    Evolves
      (planned_row ∷ [])
      (database_after arguments effects approvals suc
        (record { now = 9; rows = planned_row ∷ [] })
        (completes (terminal ∷ []) ∷ approves (write_plan "allow" ∷ []) ∷ [])).rows
database_after-Evolves_example =
    database_after-Evolves arguments effects approvals suc
      (record { now = 9; rows = planned_row ∷ [] })
      (completes (terminal ∷ []) ∷ approves (write_plan "allow" ∷ []) ∷ [])

database_after-IsLedger_example :
    IsLedger (database_after arguments effects approvals suc empty ledger_calls).rows
database_after-IsLedger_example =
    database_after-IsLedger arguments effects approvals suc empty ledger_calls empty-IsLedger

record_terminals-IsCompleted_example :
    All (IsCompleted effects 9 (planned_row ∷ []) (completed_row ∷ [])) (terminal ∷ [])
unfolding record_terminals check_keys contains check_all_recorded find_row check_recorded
    effect_discrete complete_rows count update status_name
record_terminals-IsCompleted_example =
    record_terminals-IsCompleted effects 9 (planned_row ∷ []) (terminal ∷ []) (completed_row ∷ [])
      refl

allow-IsCoded : (a : ApprovalRecord) → some (approval "pending") ≡ some a → IsCoded approvals a
allow-IsCoded a h =
    subst (IsCoded approvals) {x = approval "pending"} (cc)
      (record { text = "pending"; encoded = refl; decoded = refl })

plan-IsStorable : IsStorable arguments effects approvals (write_plan "pending")
unfolding new_id trim
plan-IsStorable = record {
  arguments_coded = record { text = "{}"; encoded = refl; decoded = refl };
  effect_coded = record { text = "external_mutation"; encoded = refl; decoded = refl };
  approval_coded = allow-IsCoded;
  valid_call = refl;
  valid_key = refl;
}

pending_effects-record_plans_example :
    (after : List (PendingEffect ℕ)) × (pending_effects arguments effects approvals
        (λ e. "invalid")
        (planned_row ∷ [])
      ≡ ok after)
    × Perm after (in_scope arguments effects approvals "turn-1" (write_plan "pending") ∷ [])
unfolding pending_effects traverse order_by select record_plans check_keys contains check_absent
    find_row plan_row transpose
pending_effects-record_plans_example =
    pending_effects-record_plans arguments effects approvals (λ e. "invalid") 7 [] "turn-1"
      (write_plan "pending" ∷ []) (planned_row ∷ []) [] (plan-IsStorable, tt) refl refl

abbrev planner : ToolBroker ℕ (Unit {0})
planner = record {
  plan = λ s calls ids. (s, ok (write_plan "allow" ∷ []));
  resolve_approvals = λ s plans. (s, ok plans);
  execute = λ s plans. (s, ok (terminal ∷ []));
}

abbrev host : ToolHost (Unit {0} × Database)
host = record { tools = (tt, empty); execution_scope = "turn-1"; seen_invocation_ids = [] }

abbrev host_calls : List (HostCall ℕ)
host_calls =
    HostCall.plans (
      record {
        id = record { value = "call-1" };
        name = "write";
        arguments = record { entries = [] };
      }
      ∷ [])
    ∷ HostCall.executes (write_plan "allow" ∷ [])
    ∷ []

abbrev allowed_row : EffectRow
allowed_row = record planned_row { approval_json = some "allow" }
