-- ===== src/Runtime/Projection/RoundTrip.antt =====
-- What `semanticize` makes of a projected conversation.
use hermes_rs.Prelude.{
  ◌≡◌, refl, sym, ap, String, Option, some, List, [], ◌∷◌, ◌++◌, map, ok, ◌>>=◌, traverse, All,
  list_eq, string_eq, arith, list_beq_iff, append_assoc, append-nil,
}
use hermes_rs.Domain.Id.{id_eq, ToolCallId}
use hermes_rs.Domain.Effect.{ToolCall, ToolResult}
use hermes_rs.Domain.Conversation.{SemanticMessage, assistant_tool_request, tool_result_batch}
use hermes_rs.Domain.Conversation.Grammar.{
  IsRequest, IsReply, IsConversation, unanswered, exchange, answered, empty, turn, result_ids,
  call_ids,
}
use hermes_rs.Domain.Conversation.Acceptance.{new-iff-IsConversation}
use hermes_rs.Runtime.Message.{
  ProviderMessage, ProviderToolCall, Json, system, user, assistant, tool,
}
use hermes_rs.Runtime.Projection.{
  or_empty, unless_empty, provider_tool_call, provider_tool_request, project_result,
  project_message, project_messages, project_conversation, semantic_call, semantic_result,
  finish_results, collecting, between, semantic_message, semantic_from, semanticize, status_name,
}
use hermes_rs.Runtime.Projection.Status.{parse_status-status_name}
use hermes_rs.Runtime.Projection.Persisted.{
  IsReadable, HasKey, IsPersisted, replayed, replayed-IsConversation,
}

module _ {V : Type 0} (serde : Json V) where
  call_read :
      (call : ToolCall V)
      → IsReadable serde call
      → (t : ProviderToolCall) × (provider_tool_call serde call ≡ ok t)
        × (semantic_call serde t ≡ ok call)
  unfolding provider_tool_call semantic_call
  call_read call h = rw h.written (_, refl, rw (h.valid, h.read) refl)

  calls_read :
      (calls : List (ToolCall V))
      → All (IsReadable serde) calls
      → (ts : List ProviderToolCall) × (traverse (provider_tool_call serde) calls ≡ ok ts)
        × (traverse (semantic_call serde) ts ≡ ok calls)
  unfolding traverse
  calls_read [] h = ([], refl, refl)
  calls_read (call ∷ calls) h =
      let (t, written, read) = call_read call h.0 in
      let (ts, written', read') = calls_read calls h.1 in
      (t ∷ ts, rw (written, written') refl, rw (read, read') refl)

  result_read :
      (result : ToolResult)
      → HasKey result
      → (key : String) × (project_result serde result
          ≡ ok (tool result.call_id.value (status_name result.status) result.content key))
        × (semantic_result result.call_id.value (status_name result.status) result.content key
            ≡ ok result)
  unfolding project_result semantic_result
  result_read result h = (
    h.key,
    rw h.present refl,
    rw (h.valid, parse_status-status_name result.status, sym h.present) refl,
  )

  -- The next message ends the inner loop.
  StartsOutside : List (ProviderMessage V) → Type 0
  StartsOutside [] = Unit
  StartsOutside (tool _ _ _ _ ∷ _) = ⊥
  StartsOutside (system _ ∷ _) = Unit
  StartsOutside (user _ ∷ _) = Unit
  StartsOutside (assistant _ _ _ _ ∷ _) = Unit

  closing :
      (expected : List ToolCallId) (results : List ToolResult) (rest : List (ProviderMessage V))
      {read : List (SemanticMessage V)}
      → result_ids results ≡ expected
      → StartsOutside rest
      → semantic_from serde between rest ≡ ok read
      → semantic_from serde (collecting expected results) rest
        ≡ ok (tool_result_batch results ∷ read)
  unfolding semantic_from finish_results StartsOutside
  closing expected results [] e h k = ground (arith, list_beq_iff (result_ids results) expected)
  closing expected results (tool _ _ _ _ ∷ rest) e h k = absurd h
  closing expected results (system x ∷ rest) e h k =
      ground (arith, list_beq_iff (result_ids results) expected)
  closing expected results (user x ∷ rest) e h k =
      ground (arith, list_beq_iff (result_ids results) expected)
  closing expected results (assistant c r ts p ∷ rest) e h k =
      ground (arith, list_beq_iff (result_ids results) expected)

  collected :
      (expected : List ToolCallId) (before results : List ToolResult)
      (rest : List (ProviderMessage V)) (read : List (SemanticMessage V))
      → All HasKey results
      → result_ids (before ++ results) ≡ expected
      → StartsOutside rest
      → semantic_from serde between rest ≡ ok read
      → (ps : List (ProviderMessage V)) × (traverse (project_result serde) results ≡ ok ps)
        × (semantic_from serde (collecting expected before) (ps ++ rest)
            ≡ ok (tool_result_batch (before ++ results) ∷ read))
  unfolding traverse semantic_from
  collected expected before [] rest read h e s k =
      let same = append-nil before in
      ([], refl, rw same (closing expected before rest (rw (sym same) e) s k))
  collected expected before (result ∷ results) rest read h e s k =
      let same = append_assoc before (result ∷ []) results in
      let (key, written, parsed) = result_read result h.0 in
      let (ps, projected, collects) =
        collected expected (before ++ result ∷ []) results rest read h.1 (rw same e) s k in
      (
        tool result.call_id.value (status_name result.status) result.content key ∷ ps,
        rw (written, projected) refl,
        rw (parsed, collects) (ap (λ whole. ok (tool_result_batch whole ∷ read)) same),
      )

  record Replays (messages : List (SemanticMessage V)) : Type 0 where
    projected : List (ProviderMessage V)
    projects : project_messages serde messages ≡ ok projected
    outside : StartsOutside projected
    reads : semantic_from serde between projected ≡ ok (map replayed messages)

  exchange-Replays :
      (content reasoning : Option String) (replay : Option V) (calls : List (ToolCall V))
      (results : List ToolResult) (messages : List (SemanticMessage V))
      → IsRequest calls
      → result_ids results ≡ call_ids calls
      → All (IsReadable serde) calls
      → All HasKey results
      → Replays messages
      → Replays (
          assistant_tool_request content calls reasoning replay
          ∷ tool_result_batch results
          ∷ messages)
  unfolding project_messages project_message provider_tool_request semantic_from semantic_message
      StartsOutside traverse finish_results
  exchange-Replays content reasoning replay [] results messages request ids readable keys rest =
      absurd (request.some_call refl)
  exchange-Replays content reasoning replay (call ∷ calls) results messages request ids readable
        keys rest =
      let (t, written, read) = call_read call readable.0 in
      let (ts, written', read') = calls_read calls readable.1 in
      let (ps, projected, collects) =
        collected (call_ids (call ∷ calls)) [] results rest.projected _ keys ids rest.outside
          rest.reads in
      record {
        projected =
            assistant (unless_empty (or_empty content)) (unless_empty (or_empty reasoning)) (t ∷ ts)
              replay
            ∷ (ps ++ rest.projected);
        projects = rw (written, written', projected, rest.projects) refl;
        outside = tt;
        reads = rw (read, read', collects) refl;
      }

  mutual
    unfolding project_messages project_message semantic_from semantic_message StartsOutside
        finish_results

    reply-Replays :
        {messages : List (SemanticMessage V)}
        → IsReply messages
        → All (IsPersisted serde) messages
        → Replays messages
    reply-Replays unanswered h = record {
      projected = [];
      projects = refl;
      outside = tt;
      reads = refl;
    }
    reply-Replays (exchange request ids rest) h =
        exchange-Replays _ _ _ _ _ _ request ids h.0 h.1.0 (reply-Replays rest h.1.1)
    reply-Replays (answered {content} {reasoning} {replay} rest) h =
        let r = conversation-Replays rest h.1 in
        record {
          projected = assistant (some content) reasoning [] replay ∷ r.projected;
          projects = rw r.projects refl;
          outside = tt;
          reads = rw r.reads refl;
        }

    conversation-Replays :
        {messages : List (SemanticMessage V)}
        → IsConversation messages
        → All (IsPersisted serde) messages
        → Replays messages
    conversation-Replays empty h = record {
      projected = [];
      projects = refl;
      outside = tt;
      reads = refl;
    }
    conversation-Replays (turn {content} rest) h =
        let r = reply-Replays rest h.1 in
        record {
          projected = user content ∷ r.projected;
          projects = rw r.projects refl;
          outside = tt;
          reads = rw r.reads refl;
        }

  -- A valid conversation whose identities, arguments and keys are as the store keeps them is
  -- projected without an error, and the reader returns the same messages, but for the display text
  -- of a user message and an empty text in a tool request.
  pub semanticize-project_conversation :
      (messages : List (SemanticMessage V))
      → IsConversation messages
      → All (IsPersisted serde) messages
      → (project_conversation serde messages >>= semanticize serde) ≡ ok (map replayed messages)
  unfolding project_conversation semanticize
  semanticize-project_conversation messages valid persisted =
      let r = conversation-Replays valid persisted in
      let accepted = (new-iff-IsConversation messages _).1 (refl, valid) in
      let again =
        (new-iff-IsConversation (map replayed messages) _).1
          (refl, replayed-IsConversation valid) in
      rw (accepted, r.projects, r.reads, again) refl
