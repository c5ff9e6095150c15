-- ===== src/Domain/Conversation/Errors.antt =====
-- Where `Conversation::new` says that a conversation goes wrong.
use hermes_rs.Prelude.{
  ℕ, suc, ◌+◌, ◌≡◌, refl, ap, subst, true, Option, none, some, List, [], ◌∷◌, ◌++◌, map, ok, err,
  ◌>>=◌, list_beq_iff, length, arith, >>=-eq-err, Result-cases, inl, inr,
}
use native.Mathlib.Nat.{add-zero, add-suc, suc-add}
use hermes_rs.Domain.Id.{ToolCallId}
use hermes_rs.Domain.Effect.{ToolCall, ToolResult, succeeded}
use hermes_rs.Domain.Conversation.{
  SemanticMessage, user, assistant_tool_request, tool_result_batch, ConversationError,
  unexpected_message, empty_tool_request, duplicate_tool_call, empty_tool_name,
  tool_result_order_mismatch, missing_tool_result_batch, ValidationState, start, awaiting_assistant,
  awaiting_tool_results, after_tool_results, after_assistant, check_calls, validate_calls, step,
  validate_from, close, new,
}
use hermes_rs.Domain.Conversation.Grammar.{IsConversation, result_ids}
use hermes_rs.Domain.Conversation.Acceptance.{
  IsClosed, Accepts-conversation, IsConversation-of_Accepts,
}

-- The message that an error points at.
abbrev pub error_index : ConversationError → Option ℕ
error_index (unexpected_message index _ _) = some index
error_index (empty_tool_request index) = some index
error_index (duplicate_tool_call index _) = some index
error_index (empty_tool_name index) = some index
error_index (tool_result_order_mismatch index) = some index
error_index missing_tool_result_batch = none

-- The messages before `faulty` begin some conversation, and with `faulty` they begin none.
pub record FirstFault {V : Type 0} (messages : List (SemanticMessage V)) (index : ℕ) : Type 0 where
  pub before : List (SemanticMessage V)
  pub faulty : SemanticMessage V
  pub rest : List (SemanticMessage V)
  pub split : messages ≡ before ++ faulty ∷ rest
  pub position : index ≡ length before
  pub completion : List (SemanticMessage V)
  pub viable : IsConversation (before ++ completion)
  pub stuck : (more : List (SemanticMessage V)) → ¬ IsConversation (before ++ faulty ∷ more)

-- The messages end in a request whose results are missing.
pub record LacksResults {V : Type 0} (messages : List (SemanticMessage V)) : Type 0 where
  pub results : List ToolResult
  pub open_ended : ¬ IsConversation messages
  pub completed : IsConversation (messages ++ tool_result_batch results ∷ [])

-- What the error states of the messages.
abbrev pub Explains : {V : Type 0} → List (SemanticMessage V) → Option ℕ → Type 0
Explains messages (some index) = FirstFault messages index
Explains messages none = LacksResults messages

abbrev result_for : ToolCallId → ToolResult
result_for id = record { call_id = id; status = succeeded; content = ""; execution_key = none }

result_ids-for : (ids : List ToolCallId) → result_ids (map result_for ids) ≡ ids
result_ids-for [] = refl
result_ids-for (id ∷ ids) = ap (◌∷◌ id) (result_ids-for ids)

-- Messages that end a conversation which has come to a state.
abbrev closing : (V : Type 0) → ValidationState → List (SemanticMessage V)
closing V (awaiting_tool_results ids) = tool_result_batch (map result_for ids) ∷ []
closing V _ = []

runs-closing :
    (V : Type 0) (index : ℕ) (state : ValidationState)
    → (last : ValidationState) × (validate_from {V = V} index state (closing V state) ≡ ok last)
      × IsClosed last
unfolding validate_from step
runs-closing V index (awaiting_tool_results ids) =
    (after_tool_results, rw ((list_beq_iff _ ids).1 (result_ids-for ids)), tt)
runs-closing V index start = (start, refl, tt)
runs-closing V index awaiting_assistant = (awaiting_assistant, refl, tt)
runs-closing V index after_tool_results = (after_tool_results, refl, tt)
runs-closing V index after_assistant = (after_assistant, refl, tt)

module _ {V : Type 0} where
  check_calls-err :
      (index : ℕ) (seen : List ToolCallId) (calls : List (ToolCall V)) (e : ConversationError)
      → check_calls index seen calls ≡ err e
      → error_index e ≡ some index
  unfolding check_calls
  check_calls-err index seen [] e h = cc
  check_calls-err index seen (call ∷ calls) e h =
      ground (arith, check_calls-err index (call.id ∷ seen) calls e)

  validate_calls-err :
      (index : ℕ) (calls : List (ToolCall V)) (e : ConversationError)
      → validate_calls index calls ≡ err e
      → error_index e ≡ some index
  unfolding validate_calls
  validate_calls-err index [] e h = ground arith
  validate_calls-err index (call ∷ calls) e h = check_calls-err index [] (call ∷ calls) e h

  step-err :
      (index : ℕ) (state : ValidationState) (message : SemanticMessage V) (e : ConversationError)
      → step index state message ≡ err e
      → error_index e ≡ some index
  unfolding step
  step-err index awaiting_assistant (assistant_tool_request _ calls _ _) e h =
      ground (arith, validate_calls-err index calls e)
  step-err index after_tool_results (assistant_tool_request _ calls _ _) e h =
      ground (arith, validate_calls-err index calls e)
  step-err index start (user _ _) e h = ground arith
  step-err index _ _ e h = ground arith

  -- The loop stops at the first message that its step refuses.
  record StopsAt (index : ℕ) (state : ValidationState) (messages : List (SemanticMessage V))
      (e : ConversationError) : Type 0 where
    before : List (SemanticMessage V)
    faulty : SemanticMessage V
    rest : List (SemanticMessage V)
    split : messages ≡ before ++ faulty ∷ rest
    reached : ValidationState
    runs : validate_from index state before ≡ ok reached
    refused : step (index + length before) reached faulty ≡ err e

  validate_from-err :
      (index : ℕ) (state : ValidationState) (messages : List (SemanticMessage V))
      (e : ConversationError)
      → validate_from index state messages ≡ err e
      → StopsAt index state messages e
  unfolding validate_from
  validate_from-err index state [] e h = cc
  validate_from-err index state (message ∷ messages) e h =
      elim (>>=-eq-err (step index state message) _ h) [
        | inl refused ↦ record {
          before = [];
          faulty = message;
          rest = messages;
          split = refl;
          reached = state;
          runs = refl;
          refused = rw add-zero refused;
        }
        | inr (next, passed, later) ↦
            let r = validate_from-err (suc index) next messages e later in
            record {
              before = message ∷ r.before;
              faulty = r.faulty;
              rest = r.rest;
              split = ap (◌∷◌ message) r.split;
              reached = r.reached;
              runs = rw passed r.runs;
              refused = rw (add-suc, ← suc-add) r.refused;
            }
      ]

  validate_from-append :
      (index : ℕ) (state : ValidationState) (xs ys : List (SemanticMessage V))
      → validate_from index state (xs ++ ys)
        ≡ (validate_from index state xs >>= λ s. validate_from (index + length xs) s ys)
  unfolding validate_from
  validate_from-append index state [] ys = rw add-zero refl
  validate_from-append index state (x ∷ xs) ys = elim (Result-cases (step index state x)) [
    | inl (next, e) ↦ rw (e, add-suc, ← suc-add) (validate_from-append (suc index) next xs ys)
    | inr (e, refused) ↦ rw refused
  ]

  -- Whatever state the messages have reached, they begin a conversation.
  conversation-closing :
      (messages : List (SemanticMessage V)) (state : ValidationState)
      → validate_from 0 start messages ≡ ok state
      → IsConversation (messages ++ closing V state)
  conversation-closing messages state e =
      let (last, runs, closed) = runs-closing V (0 + length messages) state in
      IsConversation-of_Accepts (messages ++ closing V state) 0 true (record {
        last = last;
        runs = rw (validate_from-append 0 start messages (closing V state), e) runs;
        closed = closed;
      })

  validate_from-stops :
      (index : ℕ) (state : ValidationState) (messages more : List (SemanticMessage V))
      (e : ConversationError) (r : StopsAt index state messages e)
      → validate_from index state (r.before ++ r.faulty ∷ more) ≡ err e
  unfolding validate_from
  validate_from-stops index state messages more e r =
      rw (validate_from-append index state r.before (r.faulty ∷ more), r.runs, r.refused) refl

  FirstFault-of_stop :
      (messages : List (SemanticMessage V)) (e : ConversationError) (index : ℕ)
      → StopsAt 0 start messages e
      → error_index e ≡ some index
      → FirstFault messages index
  unfolding validate_from
  FirstFault-of_stop messages e index r i = record {
    before = r.before;
    faulty = r.faulty;
    rest = r.rest;
    split = r.split;
    position = ground (arith, step-err (0 + length r.before) r.reached r.faulty e r.refused);
    completion = closing V r.reached;
    viable = conversation-closing r.before r.reached r.runs;
    stuck = λ more c.
        let a = Accepts-conversation 0 true c in
        cc (a.runs, validate_from-stops 0 start messages more e r);
  }

  LacksResults-of_state :
      (messages : List (SemanticMessage V)) (ids : List ToolCallId)
      → validate_from 0 start messages ≡ ok (awaiting_tool_results ids)
      → LacksResults messages
  LacksResults-of_state messages ids e = record {
    results = map result_for ids;
    open_ended = λ c.
        let a = Accepts-conversation 0 true c in
        let same : a.last ≡ awaiting_tool_results ids = cc (a.runs, e) in
        subst IsClosed same a.closed;
    completed = conversation-closing messages (awaiting_tool_results ids) e;
  }

  close-err :
      (messages : List (SemanticMessage V)) (state : ValidationState) (e : ConversationError)
      → close messages state ≡ err e
      → (ids : List ToolCallId) × (state ≡ awaiting_tool_results ids)
        × (e ≡ missing_tool_result_batch)
  unfolding close
  close-err messages (awaiting_tool_results ids) e h = (ids, refl, cc)
  close-err messages start e h = absurd (cc)
  close-err messages _ e h = absurd (cc)

  -- If `new` refuses a list of messages, the index in the error is that of the first message with
  -- which no conversation begins, while the messages before it do begin one; and an error without
  -- an index means that the list is no conversation but becomes one by a batch of results.
  pub new-err-Explains :
      (messages : List (SemanticMessage V)) (e : ConversationError)
      → new messages ≡ err e
      → Explains messages (error_index e)
  unfolding new
  new-err-Explains messages e h = elim (>>=-eq-err (validate_from 0 start messages) _ h) [
    | inl refused ↦
        let r = validate_from-err 0 start messages e refused in
        let i = step-err (0 + length r.before) r.reached r.faulty e r.refused in
        rw i (FirstFault-of_stop messages e _ r i)
    | inr (state, runs, closes) ↦
        let (ids, at_request, missing) = close-err messages state e closes in
        rw missing (LacksResults-of_state messages ids (rw at_request at runs))
  ]
