-- ===== src/Runtime/Turn/Tools.antt =====
-- The tool calls of one attempt, in `run_turn_with_limit_observed`: approvals, execution, results.
use hermes_rs.Prelude.{
  Bool, true, false, none, some, List, [], ◌∷◌, ◌++◌, map, Result, ok, ◌>>=◌, map_err, traverse,
  if◌then◌else◌, PartialEq,
}
use hermes_rs.Domain.Effect.{
  ToolCall, PlannedToolCall, ToolTerminal, ToolResultStatus, succeeded, pending, denied,
}
use hermes_rs.Runtime.Message.{ProviderMessage, tool, Json}
use hermes_rs.Runtime.Fault.{RuntimeError, json}
use hermes_rs.Runtime.Broker.{ToolBroker}
use hermes_rs.Runtime.Host
use hermes_rs.Runtime.Host.{ToolHost, order_terminals}
use hermes_rs.Runtime.Projection.{status_name}
use hermes_rs.Runtime.Turn.{
  RuntimeEventObserver, PublicEventLog, PersistenceIntent, push, approval_request,
  approval_resolved, tool_start, tool_complete, batch_complete, tool_planned, tool_started,
  tool_ended, append_tool_result_batch,
}

abbrev pub is_denied : {V : Type 0} → PlannedToolCall V → Bool
is_denied call = elim call.approval [ none ↦ false | some approval ↦ denied approval ]

unfoldable pub has_succeeded : ToolResultStatus → Bool
has_succeeded succeeded = true
has_succeeded _ = false

module _ {V : Type 0} (serde : Json V) where
  unfoldable pub provider_tool_result : ToolTerminal → Result RuntimeError (ProviderMessage V)
  provider_tool_result terminal = do
    content ←
        if has_succeeded terminal.status
        then ok terminal.content
        else map_err json (
            serde.payload_to_string terminal.invocation_id.value terminal.content
              (status_name terminal.status))
    ok (
        tool terminal.call_id.value (status_name terminal.status) content
          terminal.invocation_id.value)

module _ {V O : Type 0} (observer : RuntimeEventObserver V O) where
  -- The loop over the plans before they are resolved.
  unfoldable pub request_approvals :
      PublicEventLog V O → List (PlannedToolCall V) → Result RuntimeError (PublicEventLog V O)
  request_approvals log [] = ok log
  request_approvals log (call ∷ calls) = elim call.approval [
    | none ↦ request_approvals log calls
    | some approval ↦ do
      log' ← push observer log (
          approval_request call.call_id approval (
            if pending approval
            then some
                (record { name = call.name; arguments = call.arguments; effect = call.effect })
            else none))
      request_approvals log' calls
  ]

  -- The persistence intents and the log, which the loops below extend.
  abbrev pub Emitted : Type 0
  Emitted = List (PersistenceIntent V) × PublicEventLog V O

  -- The events and intents of one resolved call.
  unfoldable pub start_tool : Emitted → PlannedToolCall V → Result RuntimeError Emitted
  start_tool (intents, log) call = do
    log' ← elim call.approval [
      | none ↦ ok log
      | some approval ↦ push observer log (approval_resolved call.call_id approval.decision)
    ]
    if is_denied call then ok (intents ++ tool_planned call ∷ [], log') else do
      log'' ← push observer log' (tool_start call.call_id call.name call.invocation_id)
      ok (intents ++ tool_planned call ∷ tool_started call.call_id call.invocation_id ∷ [], log'')

  unfoldable pub start_tools : Emitted → List (PlannedToolCall V) → Result RuntimeError Emitted
  start_tools emitted [] = ok emitted
  start_tools emitted (call ∷ calls) = do
    emitted' ← start_tool emitted call
    start_tools emitted' calls

  -- The loop over the terminals.
  unfoldable pub complete_tools : Emitted → List ToolTerminal → Result RuntimeError Emitted
  complete_tools emitted [] = ok emitted
  complete_tools (intents, log) (terminal ∷ terminals) = do
    log' ←
        push observer log
          (tool_complete terminal.call_id terminal.name terminal.status terminal.invocation_id)
    complete_tools (intents ++ tool_ended terminal ∷ [], log') terminals

module _ {V S O : Type 0} ⦃e : PartialEq V⦄ (broker : ToolBroker V S)
    (observer : RuntimeEventObserver V O) (serde : Json V) where
  pub record Batch : Type 0 where
    pub host : ToolHost S
    pub results : List (ProviderMessage V)
    pub emitted : Emitted observer

  -- From the plan to the results that go back to the provider.
  unfoldable pub run_batch :
      ToolHost S → Emitted observer → List (ToolCall V) → Result RuntimeError Batch
  run_batch host (intents, log) calls =
      let (host₁, planning) = Host.plan broker host calls in
      do
        planned ← planning
        log₁ ← request_approvals observer log planned
        let (host₂, resolution) = Host.resolve_approvals broker host₁ planned
        resolved ← resolution
        started ← start_tools observer (intents, log₁) resolved
        let (host₃, execution) = Host.execute broker host₂ resolved
        completed ← execution
        (intents₂, log₂) ← complete_tools observer started completed
        ordered ← order_terminals resolved completed
        results ← traverse (provider_tool_result serde) ordered
        log₃ ← push observer log₂ (batch_complete (map (λ terminal. terminal.call_id) ordered))
        ok (record {
          host = host₃;
          results = results;
          emitted = (intents₂ ++ append_tool_result_batch ordered ∷ [], log₃);
        })
