-- ===== src/Domain/Conversation/Grammar.antt =====
-- A grammar of the conversations that crates/domain/src/conversation.rs describes.
use hermes_rs.Prelude.{
  ◌≡◌, ◌≢◌, String, Option, List, [], ◌∷◌, map, list_eq, string_eq, All, Distinct,
}
use hermes_rs.Domain.Id.{ToolCallId, id_eq}
use hermes_rs.Domain.Effect.{ToolCall, ToolResult}
use hermes_rs.Domain.Conversation.{
  SemanticMessage, user, assistant_tool_request, tool_result_batch, assistant,
}

abbrev pub call_ids : {V : Type 0} → List (ToolCall V) → List ToolCallId
call_ids = map λ call. call.id

abbrev pub result_ids : List ToolResult → List ToolCallId
result_ids = map λ result. result.call_id

-- A request has a call, names each tool, and repeats no identity.
pub record IsRequest {V : Type 0} (calls : List (ToolCall V)) : Type 0 where
  pub some_call : calls ≢ []
  pub named : All (λ call. call.name ≢ "") calls
  pub distinct : Distinct (call_ids calls)

mutual
  -- What may follow a user message: any number of requests, each with its results in the order of
  -- the calls, then an answer and the rest of the conversation, or nothing yet.
  pub data IsReply {V : Type 0} : List (SemanticMessage V) → Type 0 where
    unanswered : IsReply []
    exchange :
        {content reasoning : Option String} {replay : Option V} {calls : List (ToolCall V)}
        {results : List ToolResult} {messages : List (SemanticMessage V)}
        → IsRequest calls
        → result_ids results ≡ call_ids calls
        → IsReply messages
        → IsReply (
            assistant_tool_request content calls reasoning replay
            ∷ tool_result_batch results
            ∷ messages)
    answered :
        {content : String} {reasoning : Option String} {replay : Option V}
        {messages : List (SemanticMessage V)}
        → IsConversation messages
        → IsReply (assistant content reasoning replay ∷ messages)

  pub data IsConversation {V : Type 0} : List (SemanticMessage V) → Type 0 where
    empty : IsConversation []
    turn :
        {content : String} {display : Option String} {messages : List (SemanticMessage V)}
        → IsReply messages
        → IsConversation (user content display ∷ messages)
