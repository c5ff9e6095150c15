-- ===== src/Domain/Conversation.antt =====
-- crates/domain/src/conversation.rs: the messages of a conversation and their validation.
pub mod Grammar
mod Calls
pub mod Acceptance
pub mod Errors
mod Tests
use hermes_rs.Prelude.{
  ℕ, suc, ◌≡◌, String, Bool, true, false, ◌||◌, not, Option, List, [], ◌∷◌, map, Result, ok, err,
  ◌>>=◌, ◌>>◌, if◌then◌else◌, ◌==◌, list_eq, contains,
}
use hermes_rs.Prelude.Text.{is_empty}
use hermes_rs.Domain.Id.{ToolCallId, id_eq}
use hermes_rs.Domain.Effect.{ToolCall, ToolResult}

pub data SemanticMessage (V : Type 0) : Type 0 where
  -- content, display_content
  user : String → Option String → SemanticMessage V
  -- content, calls, reasoning, provider_replay
  assistant_tool_request :
      Option String → List (ToolCall V) → Option String → Option V → SemanticMessage V
  -- results
  tool_result_batch : List ToolResult → SemanticMessage V
  -- content, reasoning, provider_replay
  assistant : String → Option String → Option V → SemanticMessage V

pub record Conversation (V : Type 0) : Type 0 where
  pub messages : List (SemanticMessage V)

pub data ConversationError : Type 0 where
  -- index, expected, actual
  unexpected_message : ℕ → String → String → ConversationError
  empty_tool_request : ℕ → ConversationError
  duplicate_tool_call : ℕ → ToolCallId → ConversationError
  empty_tool_name : ℕ → ConversationError
  tool_result_order_mismatch : ℕ → ConversationError
  missing_tool_result_batch : ConversationError

pub data ValidationState : Type 0 where
  start awaiting_assistant : ValidationState
  awaiting_tool_results : List ToolCallId → ValidationState
  after_tool_results after_assistant : ValidationState

unfoldable pub expected_message : ValidationState → String
expected_message start = "user"
expected_message after_assistant = "user"
expected_message awaiting_assistant = "assistant or assistant_tool_request"
expected_message after_tool_results = "assistant or assistant_tool_request"
expected_message (awaiting_tool_results _) = "tool_result_batch"

module _ {V : Type 0} where
  unfoldable pub message_kind : SemanticMessage V → String
  message_kind (user _ _) = "user"
  message_kind (assistant_tool_request _ _ _ _) = "assistant_tool_request"
  message_kind (tool_result_batch _) = "tool_result_batch"
  message_kind (assistant _ _ _) = "assistant"

  -- The loop of `validate_calls`; `seen` is the hash set.
  unfoldable pub check_calls :
      ℕ → List ToolCallId → List (ToolCall V) → Result ConversationError (Unit {0})
  check_calls index seen [] = ok tt
  check_calls index seen (call ∷ calls) =
      let rest = check_calls index (call.id ∷ seen) calls in
      if is_empty call.name
      then err (empty_tool_name index)
      else if contains call.id seen
      then err (duplicate_tool_call index call.id)
      else rest

  unfoldable pub validate_calls : ℕ → List (ToolCall V) → Result ConversationError (Unit {0})
  validate_calls index [] = err (empty_tool_request index)
  validate_calls index (call ∷ calls) = check_calls index [] (call ∷ calls)

  request : ℕ → List (ToolCall V) → Result ConversationError ValidationState
  request index calls = do
    validate_calls index calls
    ok (awaiting_tool_results (map (λ call. call.id) calls))

  -- One round of the loop of `new`.
  unfoldable pub step :
      ℕ → ValidationState → SemanticMessage V → Result ConversationError ValidationState
  unfolding request
  step index start (user _ _) = ok awaiting_assistant
  step index after_assistant (user _ _) = ok awaiting_assistant
  step index awaiting_assistant (assistant _ _ _) = ok after_assistant
  step index after_tool_results (assistant _ _ _) = ok after_assistant
  step index awaiting_assistant (assistant_tool_request _ calls _ _) = request index calls
  step index after_tool_results (assistant_tool_request _ calls _ _) = request index calls
  step index (awaiting_tool_results expected) (tool_result_batch results) =
      if map (λ result. result.call_id) results == expected
      then ok after_tool_results
      else err (tool_result_order_mismatch index)
  step index current actual =
      err (unexpected_message index (expected_message current) (message_kind actual))

  unfoldable pub validate_from :
      ℕ → ValidationState → List (SemanticMessage V) → Result ConversationError ValidationState
  validate_from index state [] = ok state
  validate_from index state (message ∷ messages) = do
    next ← step index state message
    validate_from (suc index) next messages

  close : List (SemanticMessage V) → ValidationState → Result ConversationError (Conversation V)
  close messages (awaiting_tool_results _) = err missing_tool_result_batch
  close messages _ = ok (record { messages = messages })

  unfoldable pub new : List (SemanticMessage V) → Result ConversationError (Conversation V)
  unfolding close
  new messages = do state ← validate_from 0 start messages; close messages state
