-- ===== src/Runtime/Projection/Tests.antt =====
-- The turn of the unit test `semantic_projection_round_trips_a_tool_turn`, with numbers for JSON
-- values and a reader of the empty object.
use hermes_rs.Prelude.{
  ℕ, ◌≡◌, refl, String, none, some, List, [], ◌∷◌, map, Result, ok, err, ◌>>=◌, if◌then◌else◌, ◌==◌,
  string_eq,
}
use hermes_rs.Prelude.Text.{trim}
use hermes_rs.Domain.Id.{new_id}
use hermes_rs.Domain.Effect.{ToolCall, ToolArguments, ToolResult, succeeded}
use hermes_rs.Domain.Conversation.{
  SemanticMessage, user, assistant, assistant_tool_request, tool_result_batch,
}
use hermes_rs.Domain.Conversation.Grammar.{IsConversation, turn, exchange, answered, empty}
use hermes_rs.Runtime.Fault.{JsonError}
use hermes_rs.Runtime.Message.{Json}
use hermes_rs.Runtime.Projection.{project_conversation, semanticize}
use hermes_rs.Runtime.Projection.RoundTrip.{semanticize-project_conversation}
use hermes_rs.Runtime.Projection.Persisted.{IsReadable, HasKey, replayed}

write_empty : ToolArguments ℕ → Result JsonError String
write_empty arguments = elim arguments.entries [
  | [] ↦ ok "{}"
  | _ ∷ _ ↦ err (record { message = "unsupported" })
]

read_empty : String → Result JsonError (ToolArguments ℕ)
read_empty text =
    if text == "{}" then ok (record { entries = [] }) else err (record { message = "unsupported" })

abbrev empty_object : Json ℕ
empty_object = record {
  to_string = write_empty;
  from_str = read_empty;
  payload_to_string = λ execution_key message status. ok message;
}

abbrev read_file : ToolCall ℕ
read_file = record {
  id = record { value = "call-read" };
  name = "read_file";
  arguments = record { entries = [] };
}

abbrev read_result : ToolResult
read_result = record {
  call_id = record { value = "call-read" };
  status = succeeded;
  content = "1|hello";
  execution_key = some "session:call-read";
}

abbrev tool_turn : List (SemanticMessage ℕ)
tool_turn =
    user "read it" (some "Read it")
    ∷ assistant_tool_request (some "") (read_file ∷ []) none none
    ∷ tool_result_batch (read_result ∷ [])
    ∷ assistant "It says hello." none none
    ∷ []

tool_turn-IsConversation : IsConversation tool_turn
tool_turn-IsConversation = turn (
    exchange (record { some_call = λ h. cc; named = ((λ h. cc), tt); distinct = (tt, tt) }) refl
      (answered empty))

read_file-IsReadable : IsReadable empty_object read_file
unfolding new_id write_empty read_empty trim
read_file-IsReadable = record { valid = refl; text = "{}"; written = refl; read = refl }

result-HasKey : HasKey read_result
unfolding new_id trim
result-HasKey = record { valid = refl; key = "session:call-read"; present = refl }

semanticize-project_conversation_example :
    (project_conversation empty_object tool_turn >>= semanticize empty_object)
    ≡ ok (map replayed tool_turn)
semanticize-project_conversation_example =
    semanticize-project_conversation empty_object tool_turn tool_turn-IsConversation
      (tt, ((read_file-IsReadable, tt), ((result-HasKey, tt), (tt, tt))))
