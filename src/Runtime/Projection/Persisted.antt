-- ===== src/Runtime/Projection/Persisted.antt =====
-- The conversations that a store keeps, and what the projection leaves of a message.
use hermes_rs.Prelude.{◌≡◌, String, none, some, List, map, ok, All, list_eq, string_eq}
use hermes_rs.Domain.Id.{tool_call, new_id, id_eq}
use hermes_rs.Domain.Effect.{ToolCall, ToolResult}
use hermes_rs.Domain.Conversation
use hermes_rs.Domain.Conversation.{SemanticMessage, assistant_tool_request, tool_result_batch, new}
use hermes_rs.Domain.Conversation.Grammar.{
  IsReply, IsConversation, unanswered, exchange, answered, empty, turn,
}
use hermes_rs.Runtime.Message.{Json}
use hermes_rs.Runtime.Projection.{or_empty, unless_empty}

-- A text that the other direction reads back.
pub record IsReadable {V : Type 0} (serde : Json V) (call : ToolCall V) : Type 0 where
  pub valid : new_id tool_call call.id.value ≡ ok call.id
  pub text : String
  pub written : serde.to_string call.arguments ≡ ok text
  pub read : serde.from_str text ≡ ok call.arguments

pub record HasKey (result : ToolResult) : Type 0 where
  pub valid : new_id tool_call result.call_id.value ≡ ok result.call_id
  pub key : String
  pub present : result.execution_key ≡ some key

-- What the store keeps: identities that were checked when they were made, arguments that came from
-- JSON, and a key for every result.
abbrev pub IsPersisted : {V : Type 0} → Json V → SemanticMessage V → Type 0
IsPersisted serde (Conversation.user _ _) = Unit
IsPersisted serde (Conversation.assistant _ _ _) = Unit
IsPersisted serde (assistant_tool_request _ calls _ _) = All (IsReadable serde) calls
IsPersisted serde (tool_result_batch results) = All HasKey results

-- The message without what the projection leaves out.
abbrev pub replayed : {V : Type 0} → SemanticMessage V → SemanticMessage V
replayed (Conversation.user content _) = Conversation.user content none
replayed (Conversation.assistant content reasoning replay) =
    Conversation.assistant content reasoning replay
replayed (assistant_tool_request content calls reasoning replay) =
    assistant_tool_request (unless_empty (or_empty content)) calls
      (unless_empty (or_empty reasoning)) replay
replayed (tool_result_batch results) = tool_result_batch results

mutual
  replayed-IsReply :
      {V : Type 0} {messages : List (SemanticMessage V)}
      → IsReply messages
      → IsReply (map replayed messages)
  replayed-IsReply unanswered = unanswered
  replayed-IsReply (exchange request ids rest) = exchange request ids (replayed-IsReply rest)
  replayed-IsReply (answered rest) = answered (replayed-IsConversation rest)

  pub replayed-IsConversation :
      {V : Type 0} {messages : List (SemanticMessage V)}
      → IsConversation messages
      → IsConversation (map replayed messages)
  replayed-IsConversation empty = empty
  replayed-IsConversation (turn rest) = turn (replayed-IsReply rest)
