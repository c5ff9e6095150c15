-- ===== src/Store/Ledger.antt =====
-- `SqliteEffectLedger` of apps/hermesd/src/adapters/sqlite.rs: the table `tool_effects` and the methods
-- of the trait `EffectLedger`. `now` is `unixepoch()` at the statement.
pub mod Approve
pub mod Approvals
pub mod Keys
pub mod Inserted
pub mod Rows
pub mod Evolution
pub mod Terminals
pub mod Pending
pub mod Journal
mod Tests
use Prim.Native.String
use hermes_rs.Prelude.{
  ℕ, String, Bool, true, false, not, ◌&&◌, ◌||◌, Option, none, some, List, [], ◌∷◌, ◌++◌, map,
  Result, ok, err, ◌>>=◌, ◌>>◌, guard, ok_or, map_err, traverse, if◌then◌else◌, PartialEq, ◌==◌,
  nat_eq, string_eq, bool_eq, contains, select, ltb, nat_beq,
}
use hermes_rs.Prelude.Text.{is_empty}
use hermes_rs.Domain.Id.{IdError, ToolCallId, InvocationId, tool_call, invocation, new_id, id_eq}
use hermes_rs.Domain.Effect.{
  ToolArguments, ToolEffect, ApprovalRecord, pending, PlannedToolCall, ToolTerminal, arguments_eq,
  effect_eq, approval_eq,
}
use hermes_rs.Runtime.Fault.{JsonError}
use hermes_rs.Runtime.Projection.{status_name}
use hermes_rs.Runtime.Journal.{
  EffectLedgerError, already_recorded, missing_plan, plan_mismatch, already_terminal, invalid,
  storage,
}
use hermes_rs.Store.Table.{Codec, find_row, update, count, order_by, text_le}

pub record EffectRow : Type 0 where
  pub execution_key : String
  pub execution_scope : String
  pub call_id : String
  pub name : String
  pub arguments_json : String
  pub effect_json : String
  pub approval_json : Option String
  pub status : String
  pub content : Option String
  pub receipt : Option String
  pub planned_at : ℕ
  pub completed_at : Option ℕ

pub record PendingEffect (V : Type 0) : Type 0 where
  pub execution_scope : String
  pub plan : PlannedToolCall V

abbrev pub find_effect : String → List EffectRow → Option EffectRow
find_effect = find_row λ row. row.execution_key

abbrev pub is_nil {ℓ} : {A : Type ℓ} → List A → Bool
is_nil [] = true
is_nil (x ∷ xs) = false

-- `ledger_storage_error` of a JSON error, and `Invalid` of one that is read.
abbrev pub json_storage : JsonError → EffectLedgerError
json_storage e = storage e.message

abbrev pub json_invalid : JsonError → EffectLedgerError
json_invalid e = invalid e.message

-- The loop that fills the set `keys`; `batch` names the batch in the error.
unfoldable pub check_keys :
    String → List InvocationId → List InvocationId → Result EffectLedgerError (Unit {0})
check_keys batch keys [] = ok tt
check_keys batch keys (id ∷ ids) =
    let rest = check_keys batch (id ∷ keys) ids in
    if contains id keys
    then err (
        invalid (
          String.◌++◌ "duplicate execution key in "
            (String.◌++◌ batch (String.◌++◌ ": " id.value))))
    else rest

-- `Option::transpose` of a fallible map.
unfoldable pub transpose : {A B E : Type 0} → (A → Result E B) → Option A → Result E (Option B)
transpose f none = ok none
transpose f (some a) = do b ← f a; ok (some b)

-- The match on the approval before and after: the record to write, if there is one.
unfoldable pub compare_approvals :
    Option ApprovalRecord
    → Option ApprovalRecord
    → String
    → Result EffectLedgerError (Option ApprovalRecord)
compare_approvals none none key = ok none
compare_approvals (some before) (some after) key =
    if pending before
    then (if pending after
          || not (after.decision == "allow" || after.decision == "deny")
          || not (before.required == after.required)
          || not (before.principal == after.principal)
        then err (plan_mismatch key)
        else ok (some after))
    else if before == after
    then ok none
    else err (plan_mismatch key)
compare_approvals none (some _) key = err (plan_mismatch key)
compare_approvals (some _) none key = err (plan_mismatch key)

-- A row is still planned and is the one of this key.
abbrev pub is_planned : String → EffectRow → Bool
is_planned key row = row.execution_key == key && row.status == "planned"

-- The `UPDATE` of `record_approvals`, for each of these updates.
abbrev pub approve_row : String → EffectRow → EffectRow
approve_row text row = record row { approval_json = some text }

unfoldable pub apply_updates :
    List EffectRow → List (String × String) → Result EffectLedgerError (List EffectRow)
apply_updates rows [] = ok rows
apply_updates rows (change ∷ changes) = do
  guard (count (is_planned change.0) rows == 1) (already_terminal change.0)
  apply_updates (update (is_planned change.0) (approve_row change.1) rows) changes

-- The `UPDATE` of `record_terminals`, for each terminal. Each reads `unixepoch()`, a clock in seconds;
-- the model reads it once for the batch.
abbrev pub complete_row : ℕ → ToolTerminal → EffectRow → EffectRow
complete_row now terminal row = record row {
  status = status_name terminal.status;
  content = some terminal.content;
  receipt = terminal.receipt;
  completed_at = some now;
}

unfoldable pub complete_rows :
    ℕ → List EffectRow → List ToolTerminal → Result EffectLedgerError (List EffectRow)
complete_rows now rows [] = ok rows
complete_rows now rows (terminal ∷ terminals) = do
  guard (count (is_planned terminal.invocation_id.value) rows == 1)
      (already_terminal terminal.invocation_id.value)
  complete_rows now
      (update (is_planned terminal.invocation_id.value) (complete_row now terminal) rows) terminals

module _ (effects : Codec ToolEffect) where
  -- The checks of one terminal against its row.
  unfoldable pub check_recorded : EffectRow → ToolTerminal → Result EffectLedgerError (Unit {0})
  check_recorded recorded terminal = do
    guard (recorded.status == "planned") (already_terminal terminal.invocation_id.value)
    effect ← map_err json_invalid (effects.decode recorded.effect_json)
    guard
        (recorded.call_id == terminal.call_id.value
          && recorded.name == terminal.name
          && effect == terminal.effect)
        (plan_mismatch terminal.invocation_id.value)

  unfoldable pub check_all_recorded :
      List EffectRow → List ToolTerminal → Result EffectLedgerError (Unit {0})
  check_all_recorded rows [] = ok tt
  check_all_recorded rows (terminal ∷ terminals) = do
    recorded ←
        ok_or (find_effect terminal.invocation_id.value rows)
          (missing_plan terminal.invocation_id.value)
    check_recorded recorded terminal
    check_all_recorded rows terminals

  unfoldable pub record_terminals :
      ℕ → List EffectRow → List ToolTerminal → Result EffectLedgerError (List EffectRow)
  record_terminals now rows terminals = do
    guard (not (is_nil terminals)) (invalid "cannot record an empty terminal batch")
    check_keys "terminal batch" [] (map (λ terminal. terminal.invocation_id) terminals)
    check_all_recorded rows terminals
    complete_rows now rows terminals

-- `ORDER BY planned_at ASC, execution_key ASC`
abbrev pub planned_before : EffectRow → EffectRow → Bool
planned_before a b =
    ltb a.planned_at b.planned_at
    || a.planned_at == b.planned_at && text_le a.execution_key b.execution_key

unfoldable pub check_absent :
    {V : Type 0} → List EffectRow → List (PlannedToolCall V) → Result EffectLedgerError (Unit {0})
check_absent rows [] = ok tt
check_absent rows (plan ∷ plans) = elim (find_effect plan.invocation_id.value rows) [
  | some _ ↦ err (already_recorded plan.invocation_id.value)
  | none ↦ check_absent rows plans
]

module _ {V : Type 0} ⦃e : PartialEq V⦄ (arguments : Codec (ToolArguments V))
    (effects : Codec ToolEffect) (approvals : Codec ApprovalRecord) where
  -- The values that the statement inserts.
  unfoldable pub plan_row : ℕ → String → PlannedToolCall V → Result EffectLedgerError EffectRow
  plan_row now execution_scope plan = do
    arguments_json ← map_err json_storage (arguments.encode plan.arguments)
    effect_json ← map_err json_storage (effects.encode plan.effect)
    approval_json ← map_err json_storage (transpose approvals.encode plan.approval)
    ok (record {
      execution_key = plan.invocation_id.value;
      execution_scope = execution_scope;
      call_id = plan.call_id.value;
      name = plan.name;
      arguments_json = arguments_json;
      effect_json = effect_json;
      approval_json = approval_json;
      status = "planned";
      content = none;
      receipt = none;
      planned_at = now;
      completed_at = none;
    })

  unfoldable pub record_plans :
      ℕ
      → List EffectRow
      → String
      → List (PlannedToolCall V)
      → Result EffectLedgerError (List EffectRow)
  record_plans now rows execution_scope plans = do
    guard (not (is_empty execution_scope)) (invalid "execution scope must be non-empty")
    guard (not (is_nil plans)) (invalid "cannot record an empty plan batch")
    check_keys "plan batch" [] (map (λ plan. plan.invocation_id) plans)
    check_absent rows plans
    inserted ← traverse (plan_row now execution_scope) plans
    ok (rows ++ inserted)

  -- `display` is the text of an identifier error.
  unfoldable pub pending_effect :
      (IdError → String) → EffectRow → Result EffectLedgerError (PendingEffect V)
  pending_effect display row = do
    call_id ← map_err (λ e. invalid (display e)) (new_id tool_call row.call_id)
    arguments' ← map_err json_invalid (arguments.decode row.arguments_json)
    invocation_id ← map_err (λ e. invalid (display e)) (new_id invocation row.execution_key)
    effect ← map_err json_invalid (effects.decode row.effect_json)
    approval ← map_err json_invalid (transpose approvals.decode row.approval_json)
    ok (record {
      execution_scope = row.execution_scope;
      plan = record {
        call_id = call_id;
        name = row.name;
        arguments = arguments';
        invocation_id = invocation_id;
        effect = effect;
        approval = approval;
      };
    })

  unfoldable pub pending_effects :
      (IdError → String) → List EffectRow → Result EffectLedgerError (List (PendingEffect V))
  pending_effects display rows =
      traverse (pending_effect display)
        (order_by planned_before (select (λ row. row.status == "planned") rows))
