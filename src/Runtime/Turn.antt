-- ===== src/Runtime/Turn.antt =====
-- The types of the turn loop of crates/runtime/src/lib.rs: what a turn emits, the provider and the
-- observer that it calls, and its state. A JSON object that the source builds with `json!` is a
-- constructor that holds the fields.
pub mod Attempt
pub mod Tools
pub mod State
pub mod Loop
pub mod Received
pub mod Round
pub mod Retry
pub mod Outcome
mod Tests
use hermes_rs.Prelude.{
  ℕ, String, Bool, true, false, Option, none, some, List, [], ◌∷◌, ◌++◌, Result, ok, ◌>>=◌, ◌>>◌,
  map_err,
}
use hermes_rs.Domain.Id.{ToolCallId, InvocationId}
use hermes_rs.Domain.Effect.{
  ToolArguments, ToolEffect, ToolResultStatus, ApprovalRecord, PlannedToolCall, ToolTerminal,
}
use hermes_rs.Domain.Conversation.{SemanticMessage}
use hermes_rs.Runtime.Message.{
  ProviderMessage, ProviderEvent, ChatCompletionsRequest, TransportKind, Usage, TerminalOutcome,
}
use hermes_rs.Runtime.Fault.{RuntimeError, ProviderError, RuntimeEventObserverError, event_observer}

-- What an approval request shows of a call that is still pending.
pub record PendingCall (V : Type 0) : Type 0 where
  pub name : String
  pub arguments : ToolArguments V
  pub effect : ToolEffect

pub data PublicEvent (V : Type 0) : Type 0 where
  -- the attempt, and what the provider sent
  attempt_started : String → PublicEvent V
  message_start : String → PublicEvent V
  message_delta reasoning_delta : String → String → PublicEvent V
  tool_call_delta : String → ℕ → Option String → Option String → String → PublicEvent V
  usage : String → Usage → PublicEvent V
  -- the end of the attempt; reason
  stream_failed attempt_failed provider_cancelled protocol_error : String → String → PublicEvent V
  -- content, finish_reason
  message_complete : String → String → String → PublicEvent V
  approval_request : ToolCallId → ApprovalRecord → Option (PendingCall V) → PublicEvent V
  -- decision
  approval_resolved : ToolCallId → String → PublicEvent V
  -- name, execution_key
  tool_start : ToolCallId → String → InvocationId → PublicEvent V
  -- name, status, execution_key
  tool_complete : ToolCallId → String → ToolResultStatus → InvocationId → PublicEvent V
  batch_complete : List ToolCallId → PublicEvent V

pub data PersistenceIntent (V : Type 0) : Type 0 where
  append_message append_assistant append_tool_request : ProviderMessage V → PersistenceIntent V
  tool_planned : PlannedToolCall V → PersistenceIntent V
  tool_started : ToolCallId → InvocationId → PersistenceIntent V
  tool_ended : ToolTerminal → PersistenceIntent V
  append_tool_result_batch : List ToolTerminal → PersistenceIntent V

pub data AttemptErrorPolicy : Type 0 where
  stop fallback_before_visible_output : AttemptErrorPolicy

-- A stream is the list of what it yields until it ends.
pub record ProviderAttempt (V : Type 0) : Type 0 where
  pub attempt_id : String
  pub error_policy : AttemptErrorPolicy
  pub events : List (Result ProviderError (ProviderEvent V))

pub record Provider (V P : Type 0) : Type 0 where
  pub stream : P → ChatCompletionsRequest V → P × Result ProviderError (ProviderAttempt V)
  pub remaining_attempts : P → Option ℕ

pub record RuntimeEventObserver (V O : Type 0) : Type 0 where
  pub observe : O → PublicEvent V → O × Result RuntimeEventObserverError (Unit {0})

pub record PublicEventLog (V O : Type 0) : Type 0 where
  pub events : List (PublicEvent V)
  pub observer : O

-- A step of the turn that fails gives its error alone: the log goes with it.
unfoldable pub push :
    {V O : Type 0}
    → RuntimeEventObserver V O
    → PublicEventLog V O
    → PublicEvent V
    → Result RuntimeError (PublicEventLog V O)
push observer log event =
    let (seen, answer) = observer.observe log.observer event in
    do
      map_err event_observer answer
      ok (record { events = log.events ++ event ∷ []; observer = seen })

pub record ProviderRequestRecord (V : Type 0) : Type 0 where
  pub attempt_id : String
  pub transport : TransportKind
  pub request : ChatCompletionsRequest V

pub record ContractOutcome (V : Type 0) : Type 0 where
  pub provider_requests : List (ProviderRequestRecord V)
  pub semantic_conversation : List (SemanticMessage V)
  pub persistence_intents : List (PersistenceIntent V)
  pub public_events : List (PublicEvent V)
  pub usage : Usage
  pub terminal_outcome : TerminalOutcome
