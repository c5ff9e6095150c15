-- ===== src/Store/Ledger/Approve.antt =====
-- `record_approvals` of apps/hermesd/src/adapters/sqlite.rs.
use hermes_rs.Store.Ledger.{
  EffectRow, find_effect, is_nil, json_storage, json_invalid, transpose, compare_approvals,
  apply_updates,
}
use Prim.Native.String
use hermes_rs.Prelude.{
  String, not, ◌&&◌, Option, none, some, List, [], ◌∷◌, Result, ok, ◌>>=◌, ◌>>◌, guard, ok_or,
  map_err, PartialEq, ◌==◌, nat_eq, string_eq, bool_eq, contains,
}
use hermes_rs.Domain.Id.{InvocationId, id_eq}
use hermes_rs.Domain.Effect.{
  ToolArguments, ToolEffect, ApprovalRecord, PlannedToolCall, arguments_eq, effect_eq, approval_eq,
}
use hermes_rs.Runtime.Journal.{
  EffectLedgerError, missing_plan, plan_mismatch, already_terminal, invalid,
}
use hermes_rs.Store.Table.{Codec}

module _ {V : Type 0} ⦃e : PartialEq V⦄ (arguments : Codec (ToolArguments V))
    (effects : Codec ToolEffect) (approvals : Codec ApprovalRecord) where
  -- The checks of one plan against its row; the update that it asks for, if it does.
  unfoldable pub check_approved :
      EffectRow → PlannedToolCall V → Result EffectLedgerError (Option String)
  check_approved recorded plan = do
    guard (recorded.status == "planned") (already_terminal plan.invocation_id.value)
    arguments' ← map_err json_invalid (arguments.decode recorded.arguments_json)
    effect ← map_err json_invalid (effects.decode recorded.effect_json)
    guard
        (recorded.call_id == plan.call_id.value
          && recorded.name == plan.name
          && arguments' == plan.arguments
          && effect == plan.effect)
        (plan_mismatch plan.invocation_id.value)
    before ← map_err json_invalid (transpose approvals.decode recorded.approval_json)
    after ← compare_approvals before plan.approval plan.invocation_id.value
    map_err json_storage (transpose approvals.encode after)

  -- The first loop of `record_approvals`: the updates that are to be made.
  unfoldable pub pending_updates :
      List EffectRow
      → List InvocationId
      → List (PlannedToolCall V)
      → Result EffectLedgerError (List (String × String))
  pending_updates rows keys [] = ok []
  pending_updates rows keys (plan ∷ plans) = do
    guard (not (contains plan.invocation_id keys)) (
        invalid
          (String.◌++◌ "duplicate execution key in approval batch: " plan.invocation_id.value))
    recorded ←
        ok_or (find_effect plan.invocation_id.value rows) (missing_plan plan.invocation_id.value)
    change ← check_approved recorded plan
    rest ← pending_updates rows (plan.invocation_id ∷ keys) plans
    elim change [
      | none ↦ ok rest
      | some approval_json ↦ ok ((plan.invocation_id.value, approval_json) ∷ rest)
    ]

  unfoldable pub record_approvals :
      List EffectRow → List (PlannedToolCall V) → Result EffectLedgerError (List EffectRow)
  record_approvals rows resolved_plans = do
    guard (not (is_nil resolved_plans)) (invalid "cannot resolve approvals for an empty plan batch")
    changes ← pending_updates rows [] resolved_plans
    apply_updates rows changes
