-- ===== src/Domain/Conversation/Acceptance.antt =====
-- `Conversation::new` of crates/domain/src/conversation.rs against the grammar.
use hermes_rs.Prelude.{
  ℕ, suc, ◌≡◌, ◌↔◌, refl, subst, String, Bool, true, false, Option, List, [], ◌∷◌, ok, list_beq_iff,
  arith, >>=-eq-ok,
}
use hermes_rs.Domain.Id.{ToolCallId, id_eq}
use hermes_rs.Domain.Effect.{ToolCall, ToolResult}
use hermes_rs.Domain.Conversation.{
  SemanticMessage, user, assistant_tool_request, tool_result_batch, assistant, Conversation,
  ValidationState, start, awaiting_assistant, awaiting_tool_results, after_tool_results,
  after_assistant, step, validate_from, close, new,
}
use hermes_rs.Domain.Conversation.Grammar.{
  IsRequest, IsReply, unanswered, exchange, answered, IsConversation, empty, turn, call_ids,
  result_ids,
}
use hermes_rs.Domain.Conversation.Calls.{validate_calls_iff}

-- Where a conversation may end.
abbrev pub IsClosed : ValidationState → Type 0
IsClosed (awaiting_tool_results _) = ⊥
IsClosed _ = Unit

-- The two states before a user message, and the two that wait for the assistant.
abbrev pub idle : Bool → ValidationState
idle true = start
idle false = after_assistant

abbrev pub busy : Bool → ValidationState
busy true = awaiting_assistant
busy false = after_tool_results

step-results :
    (V : Type 0) (index : ℕ) (ids : List ToolCallId) (results : List ToolResult)
    (next : ValidationState)
    → (step {V = V} index (awaiting_tool_results ids) (tool_result_batch results) ≡ ok next)
      ↔ ((result_ids results ≡ ids) × (next ≡ after_tool_results))
unfolding step
step-results V index ids results next = ground (arith, list_beq_iff (result_ids results) ids)

module _ {V : Type 0} where
  -- The messages take the validation from `state` to a place where a conversation may end.
  pub record Accepts (index : ℕ) (state : ValidationState) (messages : List (SemanticMessage V))
      : Type 0 where
    pub last : ValidationState
    pub runs : validate_from index state messages ≡ ok last
    pub closed : IsClosed last

  Accepts-cons :
      (index : ℕ) (state next : ValidationState) (message : SemanticMessage V)
      (messages : List (SemanticMessage V))
      → step index state message ≡ ok next
      → Accepts (suc index) next messages
      → Accepts index state (message ∷ messages)
  unfolding validate_from
  Accepts-cons index state next message messages e a = record {
    last = a.last;
    runs = rw e a.runs;
    closed = a.closed;
  }

  Accepts-uncons :
      (index : ℕ) (state : ValidationState) (message : SemanticMessage V)
      (messages : List (SemanticMessage V))
      → Accepts index state (message ∷ messages)
      → (next : ValidationState) × (step index state message ≡ ok next)
        × Accepts (suc index) next messages
  unfolding validate_from
  Accepts-uncons index state message messages a =
      let (next, e, rest) = >>=-eq-ok (step index state message) _ a.runs in
      (next, e, record { last = a.last; runs = rest; closed = a.closed })

  step-IsRequest :
      (index : ℕ) (b : Bool) (content reasoning : Option String) (replay : Option V)
      (calls : List (ToolCall V)) (next : ValidationState)
      → (step index (busy b) (assistant_tool_request content calls reasoning replay) ≡ ok next)
        ↔ (IsRequest calls × (next ≡ awaiting_tool_results (call_ids calls)))
  unfolding step
  step-IsRequest index true content reasoning replay calls next =
      ground (arith, validate_calls_iff index calls)
  step-IsRequest index false content reasoning replay calls next =
      ground (arith, validate_calls_iff index calls)

  mutual
    unfolding validate_from step

    pub Accepts-reply :
        (index : ℕ) (b : Bool) {messages : List (SemanticMessage V)}
        → IsReply messages
        → Accepts index (busy b) messages
    Accepts-reply index true unanswered = record {
      last = awaiting_assistant;
      runs = refl;
      closed = tt;
    }
    Accepts-reply index false unanswered = record {
      last = after_tool_results;
      runs = refl;
      closed = tt;
    }
    Accepts-reply index b
          (exchange {content} {reasoning} {replay} {calls} {results} {messages} r e reply) =
        Accepts-cons index (busy b) (awaiting_tool_results (call_ids calls)) _ _
          ((step-IsRequest index b content reasoning replay calls _).1 (r, refl))
          (Accepts-cons (suc index) _ after_tool_results _ messages
            ((step-results V (suc index) (call_ids calls) results _).1 (e, refl))
            (Accepts-reply (suc (suc index)) false reply))
    Accepts-reply index true (answered c) =
        Accepts-cons index _ after_assistant _ _ refl (Accepts-conversation (suc index) false c)
    Accepts-reply index false (answered c) =
        Accepts-cons index _ after_assistant _ _ refl (Accepts-conversation (suc index) false c)

    pub Accepts-conversation :
        (index : ℕ) (b : Bool) {messages : List (SemanticMessage V)}
        → IsConversation messages
        → Accepts index (idle b) messages
    Accepts-conversation index true empty = record { last = start; runs = refl; closed = tt }
    Accepts-conversation index false empty = record {
      last = after_assistant;
      runs = refl;
      closed = tt;
    }
    Accepts-conversation index true (turn reply) =
        Accepts-cons index _ awaiting_assistant _ _ refl (Accepts-reply (suc index) true reply)
    Accepts-conversation index false (turn reply) =
        Accepts-cons index _ awaiting_assistant _ _ refl (Accepts-reply (suc index) true reply)

  Accepts-IsRequest :
      (index : ℕ) (b : Bool) (content reasoning : Option String) (replay : Option V)
      (calls : List (ToolCall V)) (messages : List (SemanticMessage V))
      → Accepts index (busy b) (assistant_tool_request content calls reasoning replay ∷ messages)
      → IsRequest calls × Accepts (suc index) (awaiting_tool_results (call_ids calls)) messages
  Accepts-IsRequest index b content reasoning replay calls messages a =
      let (next, e, rest) = Accepts-uncons index (busy b) _ messages a in
      let (r, same) = (step-IsRequest index b content reasoning replay calls next).0 e in
      (r, subst (λ s. Accepts (suc index) s messages) same rest)

  Accepts-results :
      (index : ℕ) (ids : List ToolCallId) (results : List ToolResult)
      (messages : List (SemanticMessage V))
      → Accepts index (awaiting_tool_results ids) (tool_result_batch results ∷ messages)
      → (result_ids results ≡ ids) × Accepts (suc index) after_tool_results messages
  Accepts-results index ids results messages a =
      let (next, e, rest) = Accepts-uncons index (awaiting_tool_results ids) _ messages a in
      let (same_ids, same) = (step-results V index ids results next).0 e in
      (same_ids, subst (λ s. Accepts (suc index) s messages) same rest)

  -- Only a batch of results may follow a request.
  IsBatch : List (SemanticMessage V) → Type 0
  IsBatch (tool_result_batch _ ∷ _) = Unit
  IsBatch _ = ⊥

  IsBatch-of_Accepts :
      (messages : List (SemanticMessage V)) (index : ℕ) (ids : List ToolCallId)
      → Accepts index (awaiting_tool_results ids) messages
      → IsBatch messages
  unfolding IsBatch validate_from step
  IsBatch-of_Accepts [] index ids a = ground (arith, a.runs, a.closed)
  IsBatch-of_Accepts (tool_result_batch _ ∷ _) index ids a = tt
  IsBatch-of_Accepts (_ ∷ _) index ids a = cc (a.runs)

  mutual
    unfolding validate_from step IsBatch

    pub IsReply-of_Accepts :
        (messages : List (SemanticMessage V)) (index : ℕ) (b : Bool)
        → Accepts index (busy b) messages
        → IsReply messages
    IsReply-of_Accepts [] index b a = unanswered
    IsReply-of_Accepts (assistant _ _ _ ∷ messages) index true a = answered (
        IsConversation-of_Accepts messages (suc index) false
          (record { last = a.last; runs = a.runs; closed = a.closed }))
    IsReply-of_Accepts (assistant _ _ _ ∷ messages) index false a = answered (
        IsConversation-of_Accepts messages (suc index) false
          (record { last = a.last; runs = a.runs; closed = a.closed }))
    IsReply-of_Accepts
          (assistant_tool_request content calls reasoning replay
            ∷ tool_result_batch results
            ∷ messages)
          index b a =
        let (r, rest) = Accepts-IsRequest index b content reasoning replay calls _ a in
        let (e, after) = Accepts-results (suc index) (call_ids calls) results messages rest in
        exchange r e (IsReply-of_Accepts messages (suc (suc index)) false after)
    IsReply-of_Accepts (assistant_tool_request content calls reasoning replay ∷ other) index b a =
        absurd (
          IsBatch-of_Accepts other (suc index) (call_ids calls)
            (Accepts-IsRequest index b content reasoning replay calls other a).1)
    IsReply-of_Accepts (_ ∷ _) index true a = cc (a.runs)
    IsReply-of_Accepts (_ ∷ _) index false a = cc (a.runs)

    pub IsConversation-of_Accepts :
        (messages : List (SemanticMessage V)) (index : ℕ) (b : Bool)
        → Accepts index (idle b) messages
        → IsConversation messages
    IsConversation-of_Accepts [] index b a = empty
    IsConversation-of_Accepts (user _ _ ∷ messages) index true a = turn (
        IsReply-of_Accepts messages (suc index) true
          (record { last = a.last; runs = a.runs; closed = a.closed }))
    IsConversation-of_Accepts (user _ _ ∷ messages) index false a = turn (
        IsReply-of_Accepts messages (suc index) true
          (record { last = a.last; runs = a.runs; closed = a.closed }))
    IsConversation-of_Accepts (_ ∷ messages) index true a = cc (a.runs)
    IsConversation-of_Accepts (_ ∷ messages) index false a = cc (a.runs)

  close-ok_iff :
      (messages : List (SemanticMessage V)) (state : ValidationState) (c : Conversation V)
      → (close messages state ≡ ok c) ↔ ((c ≡ record { messages = messages }) × IsClosed state)
  unfolding close
  close-ok_iff messages (awaiting_tool_results _) c = (λ h. cc, λ h. absurd h.1)
  close-ok_iff messages start c = ground arith
  close-ok_iff messages awaiting_assistant c = ground arith
  close-ok_iff messages after_tool_results c = ground arith
  close-ok_iff messages after_assistant c = ground arith

  Accepts-of_new :
      (messages : List (SemanticMessage V)) (c : Conversation V)
      → new messages ≡ ok c
      → (c ≡ record { messages = messages }) × Accepts 0 start messages
  unfolding new
  Accepts-of_new messages c h =
      let (last, runs, closes) = >>=-eq-ok (validate_from 0 start messages) _ h in
      let (e, closed) = (close-ok_iff messages last c).0 closes in
      (e, record { last = last; runs = runs; closed = closed })

  new_of_Accepts :
      (messages : List (SemanticMessage V)) (c : Conversation V)
      → c ≡ record { messages = messages }
      → Accepts 0 start messages
      → new messages ≡ ok c
  unfolding new
  new_of_Accepts messages c e a = rw a.runs ((close-ok_iff messages a.last c).1 (e, a.closed))

  -- `new` accepts a list of messages exactly when it is a conversation of the grammar, and then
  -- wraps the list unchanged.
  pub new-iff-IsConversation :
      (messages : List (SemanticMessage V)) (c : Conversation V)
      → (new messages ≡ ok c) ↔ ((c ≡ record { messages = messages }) × IsConversation messages)
  new-iff-IsConversation messages c = (
    λ h.
        let (e, a) = Accepts-of_new messages c h in
        (e, IsConversation-of_Accepts messages 0 true a),
    λ h. new_of_Accepts messages c h.0 (Accepts-conversation 0 true h.1),
  )
