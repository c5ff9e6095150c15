-- ===== src/Runtime/Projection.antt =====
-- `project_conversation` and `semanticize` of crates/runtime/src/lib.rs: a conversation as the
-- messages of a Chat Completions request, and back.
mod Status
pub mod Persisted
pub mod RoundTrip
mod Tests
use hermes_rs.Prelude.{
  String, Bool, true, false, not, Option, none, some, List, [], ◌∷◌, ◌++◌, map, Result, ok, err,
  ◌>>=◌, ok_or, map_err, traverse, if◌then◌else◌, ◌==◌, list_eq, string_eq,
}
use hermes_rs.Prelude.Text.{is_empty}
use hermes_rs.Domain.Id.{ToolCallId, tool_call, new_id, id_eq}
use hermes_rs.Domain.Effect.{
  ToolArguments, ToolCall, ToolResult, ToolResultStatus, succeeded, failed, cancelled, rejected,
  outcome_unknown, observed,
}
use hermes_rs.Domain.Conversation
use hermes_rs.Domain.Conversation.{SemanticMessage, assistant_tool_request, tool_result_batch, new}
use hermes_rs.Runtime.Message.{
  ProviderMessage, ProviderToolCall, ProviderFunctionCall, Json, system, user, assistant, tool,
}
use hermes_rs.Runtime.Fault.{
  RuntimeError, JsonError, invalid_turn, identifier, conversation, json, missing_execution_key,
  results_mismatch, orphaned_result, unknown_status,
}

unfoldable pub status_name : ToolResultStatus → String
status_name succeeded = "succeeded"
status_name failed = "failed"
status_name cancelled = "cancelled"
status_name rejected = "rejected"
status_name outcome_unknown = "outcome_unknown"
status_name observed = "observed"

unfoldable pub parse_status : String → Result RuntimeError ToolResultStatus
parse_status value =
    if value == "succeeded"
    then ok succeeded
    else if value == "failed"
    then ok failed
    else if value == "cancelled"
    then ok cancelled
    else if value == "rejected"
    then ok rejected
    else if value == "outcome_unknown"
    then ok outcome_unknown
    else if value == "observed"
    then ok observed
    else err (invalid_turn (unknown_status value))

-- `Option::unwrap_or_default` of a text.
abbrev pub or_empty : Option String → String
or_empty none = ""
or_empty (some s) = s

-- `(!s.is_empty()).then_some(s)`
abbrev pub unless_empty : String → Option String
unless_empty s = if is_empty s then none else some s

module _ {V : Type 0} (serde : Json V) where
  unfoldable pub provider_tool_call : ToolCall V → Result JsonError ProviderToolCall
  provider_tool_call call = do
    arguments ← serde.to_string call.arguments
    ok (record {
      id = call.id.value;
      kind = "function";
      function = record { name = call.name; arguments = arguments };
    })

  unfoldable pub provider_tool_request :
      String → String → List (ToolCall V) → Option V → Result RuntimeError (ProviderMessage V)
  provider_tool_request content reasoning calls provider_replay = do
    tool_calls ← map_err json (traverse provider_tool_call calls)
    ok (assistant (unless_empty content) (unless_empty reasoning) tool_calls provider_replay)

  unfoldable pub project_result : ToolResult → Result RuntimeError (ProviderMessage V)
  project_result result = do
    execution_key ← ok_or result.execution_key (invalid_turn (missing_execution_key result.call_id))
    ok (tool result.call_id.value (status_name result.status) result.content execution_key)

  unfoldable pub project_message :
      SemanticMessage V → Result RuntimeError (List (ProviderMessage V))
  project_message (Conversation.user content _) = ok (user content ∷ [])
  project_message (Conversation.assistant content reasoning provider_replay) =
      ok (assistant (some content) reasoning [] provider_replay ∷ [])
  project_message (assistant_tool_request content calls reasoning provider_replay) = do
    message ← provider_tool_request (or_empty content) (or_empty reasoning) calls provider_replay
    ok (message ∷ [])
  project_message (tool_result_batch results) = traverse project_result results

  -- The loop over the messages.
  unfoldable pub project_messages :
      List (SemanticMessage V) → Result RuntimeError (List (ProviderMessage V))
  project_messages [] = ok []
  project_messages (message ∷ messages) = do
    projected ← project_message message
    rest ← project_messages messages
    ok (projected ++ rest)

  unfoldable pub project_conversation :
      List (SemanticMessage V) → Result RuntimeError (List (ProviderMessage V))
  project_conversation messages = do
    _ ← map_err conversation (new messages)
    project_messages messages

  unfoldable pub semantic_call : ProviderToolCall → Result RuntimeError (ToolCall V)
  semantic_call call = do
    id ← map_err identifier (new_id tool_call call.id)
    arguments ← map_err json (serde.from_str call.function.arguments)
    ok (record { id = id; name = call.function.name; arguments = arguments })

-- Where the reader stands: between messages, or in the inner loop that collects the results of a
-- request, with the identities it expects and the results it has.
pub data Reading : Type 0 where
  between : Reading
  collecting : List ToolCallId → List ToolResult → Reading

unfoldable pub semantic_result : String → String → String → String → Result RuntimeError ToolResult
semantic_result tool_call_id status content execution_key = do
  call_id ← map_err identifier (new_id tool_call tool_call_id)
  status' ← parse_status status
  ok (record {
    call_id = call_id;
    status = status';
    content = content;
    execution_key = some execution_key;
  })

module _ {V : Type 0} where
  -- The end of the inner loop.
  unfoldable pub finish_results : Reading → Result RuntimeError (List (SemanticMessage V))
  finish_results between = ok []
  finish_results (collecting expected results) =
      if map (λ result. result.call_id) results == expected
      then ok (tool_result_batch results ∷ [])
      else err (invalid_turn results_mismatch)

module _ {V : Type 0} (serde : Json V) where
  -- The match on a message outside the inner loop.
  unfoldable pub semantic_message :
      ProviderMessage V → Result RuntimeError (List (SemanticMessage V) × Reading)
  semantic_message (system _) = ok ([], between)
  semantic_message (user content) = ok (Conversation.user content none ∷ [], between)
  semantic_message (assistant content reasoning [] provider_replay) =
      ok (Conversation.assistant (or_empty content) reasoning provider_replay ∷ [], between)
  semantic_message (assistant content reasoning (first ∷ others) provider_replay) = do
    calls ← traverse (semantic_call serde) (first ∷ others)
    ok (
      assistant_tool_request content calls reasoning provider_replay ∷ [],
      collecting (map (λ call. call.id) calls) [],
    )
  semantic_message (tool _ _ _ _) = err (invalid_turn orphaned_result)

  unfoldable pub semantic_from :
      Reading → List (ProviderMessage V) → Result RuntimeError (List (SemanticMessage V))
  semantic_from reading [] = finish_results reading
  semantic_from (collecting expected results) (tool id status content key ∷ messages) = do
    result ← semantic_result id status content key
    semantic_from (collecting expected (results ++ result ∷ [])) messages
  semantic_from reading (message ∷ messages) = do
    closed ← finish_results reading
    opened ← semantic_message message
    rest ← semantic_from opened.1 messages
    ok (closed ++ opened.0 ++ rest)

  unfoldable pub semanticize :
      List (ProviderMessage V) → Result RuntimeError (List (SemanticMessage V))
  semanticize messages = do
    semantic ← semantic_from between messages
    accepted ← map_err conversation (new semantic)
    ok accepted.messages
