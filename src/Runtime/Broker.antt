-- ===== src/Runtime/Broker.antt =====
-- The trait `ToolBroker` of crates/ports/src/lib.rs: what the host calls to plan, approve and
-- execute tools. A call may change the broker, of type `S`, whether it succeeds or fails.
use hermes_rs.Prelude.{List, Result}
use hermes_rs.Domain.Id.{InvocationId}
use hermes_rs.Domain.Effect.{ToolCall, PlannedToolCall, ToolTerminal}
use hermes_rs.Runtime.Fault.{ToolBrokerError}

pub record ToolBroker (V S : Type 0) : Type 0 where
  pub plan :
      S
      → List (ToolCall V)
      → List InvocationId
      → S × Result ToolBrokerError (List (PlannedToolCall V))
  pub resolve_approvals :
      S → List (PlannedToolCall V) → S × Result ToolBrokerError (List (PlannedToolCall V))
  pub execute : S → List (PlannedToolCall V) → S × Result ToolBrokerError (List ToolTerminal)
