-- ===== src/Runtime/Fault.antt =====
-- `RuntimeError` of crates/runtime/src/lib.rs. The text in `InvalidTurn` is a data type here, with a
-- constructor for each message that holds what the message shows.
use hermes_rs.Prelude.{ℕ, String}
use hermes_rs.Domain.Id.{IdError, ToolCallId}
use hermes_rs.Domain.Conversation.{ConversationError}

-- `serde_json::Error`, of which only the text is seen.
pub record JsonError : Type 0 where
  pub message : String

pub data TurnFault : Type 0 where
  -- the request
  zero_attempt_budget unsupported_transport empty_model empty_scope no_user_message : TurnFault
  empty_host_scope : TurnFault
  -- the provider's stream
  attempt_budget_exceeded : ℕ → TurnFault
  event_after_terminal : String → TurnFault
  changed_fragment : ℕ → String → TurnFault
  indexes_not_contiguous : TurnFault
  missing_call_id : ℕ → TurnFault
  missing_call_name : String → TurnFault
  -- the call's identity, what the parser says
  malformed_arguments : String → JsonError → TurnFault
  unused_attempts : ℕ → TurnFault
  -- the tool host
  reused_call_id : ToolCallId → TurnFault
  plans_mismatch : TurnFault
  approval_count_changed plan_mutated pending_unresolved approval_changed : TurnFault
  terminals_not_once : TurnFault
  terminal_unplanned : ToolCallId → TurnFault
  terminal_mutated_plan : TurnFault
  no_terminal : ToolCallId → TurnFault
  -- the projection
  missing_execution_key : ToolCallId → TurnFault
  results_mismatch orphaned_result : TurnFault
  unknown_status : String → TurnFault

pub record ToolBrokerError : Type 0 where
  pub message : String

pub record ProviderError : Type 0 where
  pub message : String

pub record RuntimeEventObserverError : Type 0 where
  pub message : String

pub data RuntimeError : Type 0 where
  invalid_turn : TurnFault → RuntimeError
  provider : ProviderError → RuntimeError
  tool_broker : ToolBrokerError → RuntimeError
  identifier : IdError → RuntimeError
  conversation : ConversationError → RuntimeError
  json : JsonError → RuntimeError
  event_observer : RuntimeEventObserverError → RuntimeError
