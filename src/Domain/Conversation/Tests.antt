-- ===== src/Domain/Conversation/Tests.antt =====
-- Conversations of the unit tests in crates/domain/src/conversation.rs, with numbers for JSON values.
use hermes_rs.Prelude.{ℕ, ◌≡◌, ◌↔◌, refl, none, some, String, List, [], ◌∷◌, ok, err, contains}
use hermes_rs.Domain.Effect.{ToolCall, ToolResult, succeeded}
use hermes_rs.Domain.Conversation.{
  SemanticMessage, user, assistant_tool_request, tool_result_batch, assistant, Conversation,
  tool_result_order_mismatch, missing_tool_result_batch, unexpected_message, duplicate_tool_call,
  check_calls, validate_calls, step, validate_from, new, expected_message, message_kind,
}
use hermes_rs.Domain.Conversation.Grammar.{IsConversation}
use hermes_rs.Domain.Conversation.Acceptance.{new-iff-IsConversation}
use hermes_rs.Domain.Conversation.Errors.{Explains, new-err-Explains}

abbrev call : String → ToolCall ℕ
call id = record {
  id = record { value = id };
  name = "read_file";
  arguments = record { entries = [] };
}

abbrev result : String → ToolResult
result id = record {
  call_id = record { value = id };
  status = succeeded;
  content = "ok";
  execution_key = some "scenario";
}

abbrev compare : SemanticMessage ℕ
compare = user "compare" none

abbrev two_calls : SemanticMessage ℕ
two_calls = assistant_tool_request none (call "a" ∷ call "b" ∷ []) none none

abbrev complete : List (SemanticMessage ℕ)
complete =
    compare
    ∷ two_calls
    ∷ tool_result_batch (result "a" ∷ result "b" ∷ [])
    ∷ assistant "done" none none
    ∷ []

abbrev swapped : List (SemanticMessage ℕ)
swapped = compare ∷ two_calls ∷ tool_result_batch (result "b" ∷ result "a" ∷ []) ∷ []

run : Unit {0}
unfolding new validate_from step validate_calls check_calls contains expected_message message_kind
run = tt

accepts_complete : new complete ≡ ok (record { messages = complete })
unfolding run
accepts_complete = refl

rejects_swapped : new swapped ≡ err (tool_result_order_mismatch 2)
unfolding run
rejects_swapped = refl

rejects_unresolved : new (compare ∷ two_calls ∷ []) ≡ err missing_tool_result_batch
unfolding run
rejects_unresolved = refl

rejects_second_user :
    new (compare ∷ compare ∷ [])
    ≡ err (unexpected_message 1 "assistant or assistant_tool_request" "user")
unfolding run
rejects_second_user = refl

rejects_duplicate :
    new (compare ∷ assistant_tool_request none (call "a" ∷ call "a" ∷ []) none none ∷ [])
    ≡ err (duplicate_tool_call 1 (record { value = "a" }))
unfolding run
rejects_duplicate = refl

new-iff-IsConversation_example : (new complete ≡ ok (record { messages = complete })) ↔ (
    (◌≡◌ {A = Conversation ℕ} (record { messages = complete }) (record { messages = complete }))
    × IsConversation complete)
new-iff-IsConversation_example = new-iff-IsConversation complete (record { messages = complete })

new-err-Explains_example : Explains swapped (some 2)
new-err-Explains_example = new-err-Explains swapped (tool_result_order_mismatch 2) rejects_swapped
