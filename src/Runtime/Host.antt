-- ===== src/Runtime/Host.antt =====
-- `ToolHost` of crates/runtime/src/lib.rs, and the checks that it makes of what a broker returns.
-- `V` is `serde_json::Value` with its equality.
pub mod Identities
pub mod Turn
pub mod Approvals
pub mod Checked
pub mod Terminals
mod Tests
use hermes_rs.Prelude.{
  ℕ, suc, ◌≡◌, refl, String, Bool, true, false, not, ◌&&◌, ◌||◌, Option, none, some, List, [], ◌∷◌,
  map, length, Result, ok, err, ◌>>=◌, ◌>>◌, guard, ok_or, traverse, if◌then◌else◌, PartialEq, ◌==◌,
  nat_eq, string_eq, bool_eq, option_eq, list_eq, contains, map_err,
}
use Prim.Native.String
use hermes_rs.Prelude.Text.{is_empty}
use hermes_rs.Prelude.Maps.{find_last}
use hermes_rs.Domain.Id.{ToolCallId, InvocationId, invocation, new_id, id_eq}
use hermes_rs.Domain.Effect.{
  ToolCall, PlannedToolCall, ToolTerminal, ToolArguments, ApprovalRecord, pending, arguments_eq,
  effect_eq, approval_eq,
}
use hermes_rs.Runtime.Broker.{ToolBroker}
use hermes_rs.Runtime.Fault.{
  TurnFault, RuntimeError, invalid_turn, identifier, tool_broker, empty_host_scope, reused_call_id,
  plans_mismatch, approval_count_changed, plan_mutated, pending_unresolved, approval_changed,
  terminals_not_once, terminal_unplanned, terminal_mutated_plan, no_terminal,
}

abbrev pub fault {ℓ} : {A : Type ℓ} → TurnFault → Result RuntimeError A
fault f = err (invalid_turn f)

-- `format!("{execution_scope}:{}", call.id)`
abbrev pub scoped : String → ToolCallId → String
scoped scope id = String.◌++◌ scope (String.◌++◌ ":" id.value)

module _ {V : Type 0} where
  -- The set `seen` keeps what was inserted before a failure.
  unfoldable pub allocate_invocation_ids :
      String
      → List (ToolCall V)
      → List InvocationId
      → List InvocationId × Result RuntimeError (List InvocationId)
  allocate_invocation_ids scope [] seen = (seen, ok [])
  allocate_invocation_ids scope (call ∷ calls) seen =
      elim (new_id invocation (scoped scope call.id)) [
        | err e ↦ (seen, err (identifier e))
        | ok id ↦
            let rest = allocate_invocation_ids scope calls (id ∷ seen) in
            if contains id seen
            then (seen, fault (reused_call_id call.id))
            else (rest.0, rest.1 >>= λ ids. ok (id ∷ ids))
      ]

  unfoldable pub validate_plans :
      List (ToolCall V)
      → List InvocationId
      → List (PlannedToolCall V)
      → Result RuntimeError (Unit {0})
  validate_plans calls invocation_ids plans =
      if not (map (λ call. call.id) calls == map (λ plan. plan.call_id) plans)
        || not (invocation_ids == map (λ plan. plan.invocation_id) plans)
      then fault plans_mismatch
      else ok tt

-- The match on the approval before and after.
unfoldable pub check_approval :
    Option ApprovalRecord → Option ApprovalRecord → Result RuntimeError (Unit {0})
check_approval none none = ok tt
check_approval (some before) (some after) =
    if pending before
    then (if pending after
          || not (after.decision == "allow" || after.decision == "deny")
          || not (before.required == after.required)
          || not (before.principal == after.principal)
        then fault pending_unresolved
        else ok tt)
    else if before == after
    then ok tt
    else fault approval_changed
check_approval none (some _) = fault approval_changed
check_approval (some _) none = fault approval_changed

module _ {V : Type 0} ⦃e : PartialEq V⦄ where
  unfoldable pub check_resolved :
      PlannedToolCall V → PlannedToolCall V → Result RuntimeError (Unit {0})
  check_resolved planned resolved =
      if not (planned.call_id == resolved.call_id)
        || not (planned.name == resolved.name)
        || not (planned.arguments == resolved.arguments)
        || not (planned.invocation_id == resolved.invocation_id)
        || not (planned.effect == resolved.effect)
      then fault plan_mutated
      else check_approval planned.approval resolved.approval

  -- The loop over the two lists side by side.
  unfoldable pub check_all_resolved :
      List (PlannedToolCall V) → List (PlannedToolCall V) → Result RuntimeError (Unit {0})
  check_all_resolved (planned ∷ plans) (resolved ∷ rest) = do
    check_resolved planned resolved
    check_all_resolved plans rest
  check_all_resolved [] _ = ok tt
  check_all_resolved (_ ∷ _) [] = ok tt

  unfoldable pub validate_approval_resolution :
      List (PlannedToolCall V) → List (PlannedToolCall V) → Result RuntimeError (Unit {0})
  unfolding check_all_resolved
  validate_approval_resolution planned resolved =
      if not (length planned == length resolved)
      then fault approval_count_changed
      else check_all_resolved planned resolved

module _ {V : Type 0} where
  -- A lookup in the hash map `plans_by_id`.
  abbrev pub find_plan : ToolCallId → List (PlannedToolCall V) → Option (PlannedToolCall V)
  find_plan = find_last λ plan. plan.call_id

  unfoldable pub check_terminal : PlannedToolCall V → ToolTerminal → Result RuntimeError (Unit {0})
  check_terminal plan terminal =
      if not (terminal.name == plan.name)
        || not (terminal.invocation_id == plan.invocation_id)
        || not (terminal.effect == plan.effect)
      then fault terminal_mutated_plan
      else ok tt

  -- The loop over the terminals; `actual` is the set of identities seen.
  unfoldable pub check_terminals :
      List (PlannedToolCall V)
      → List ToolCallId
      → List ToolTerminal
      → Result RuntimeError (Unit {0})
  check_terminals plans actual [] = ok tt
  check_terminals plans actual (terminal ∷ terminals) =
      let rest = check_terminals plans (terminal.call_id ∷ actual) terminals in
      if contains terminal.call_id actual then fault terminals_not_once else do
        plan ←
            ok_or (find_plan terminal.call_id plans)
              (invalid_turn (terminal_unplanned terminal.call_id))
        check_terminal plan terminal
        rest

  unfoldable pub validate_terminals :
      List (PlannedToolCall V) → List ToolTerminal → Result RuntimeError (Unit {0})
  validate_terminals plans terminals =
      if not (length terminals == length plans)
      then fault terminals_not_once
      else check_terminals plans [] terminals

-- A lookup in the hash map `terminals_by_id`.
abbrev pub find_terminal : ToolCallId → List ToolTerminal → Option ToolTerminal
find_terminal = find_last λ terminal. terminal.call_id

-- The terminals in the order of the plans, as `run_turn` collects them.
unfoldable pub order_terminals :
    {V : Type 0}
    → List (PlannedToolCall V)
    → List ToolTerminal
    → Result RuntimeError (List ToolTerminal)
unfolding traverse
order_terminals resolved completed =
    traverse
      (λ plan.
        ok_or (find_terminal plan.call_id completed) (invalid_turn (no_terminal plan.call_id)))
      resolved

pub record ToolHost (S : Type 0) : Type 0 where
  pub tools : S
  pub execution_scope : String
  pub seen_invocation_ids : List InvocationId

unfoldable pub new_host : {S : Type 0} → S → String → Result RuntimeError (ToolHost S)
new_host tools scope =
    if is_empty scope
    then fault empty_host_scope
    else ok (record { tools = tools; execution_scope = scope; seen_invocation_ids = [] })

module _ {V S : Type 0} (broker : ToolBroker V S) where
  unfoldable pub plan :
      ToolHost S → List (ToolCall V) → ToolHost S × Result RuntimeError (List (PlannedToolCall V))
  plan host calls =
      let (seen, allocated) =
        allocate_invocation_ids host.execution_scope calls host.seen_invocation_ids in
      let host' = record host { seen_invocation_ids = seen } in
      elim allocated [
        | err e ↦ (host', err e)
        | ok invocation_ids ↦
            let (tools, answer) = broker.plan host.tools calls invocation_ids in
            (
              record host' { tools = tools },
              do
                planned ← map_err tool_broker answer
                validate_plans calls invocation_ids planned
                ok planned,
            )
      ]

  unfoldable pub resolve_approvals :
      ⦃e : PartialEq V⦄
      → ToolHost S
      → List (PlannedToolCall V)
      → ToolHost S × Result RuntimeError (List (PlannedToolCall V))
  resolve_approvals host planned =
      let (tools, answer) = broker.resolve_approvals host.tools planned in
      (
        record host { tools = tools },
        do
          resolved ← map_err tool_broker answer
          validate_approval_resolution planned resolved
          ok resolved,
      )

  unfoldable pub execute :
      ToolHost S → List (PlannedToolCall V) → ToolHost S × Result RuntimeError (List ToolTerminal)
  execute host resolved =
      let (tools, answer) = broker.execute host.tools resolved in
      (
        record host { tools = tools },
        do
          completed ← map_err tool_broker answer
          validate_terminals resolved completed
          ok completed,
      )
