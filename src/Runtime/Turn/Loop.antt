-- ===== src/Runtime/Turn/Loop.antt =====
-- The end of an attempt, the loop over the attempts, and `run_turn` with its variants.
use hermes_rs.Prelude.{
  ℕ, zero, suc, String, false, not, ◌&&◌, Option, none, some, [], ◌∷◌, ◌++◌, Result, ok, ◌>>=◌,
  ◌>>◌, guard, map_err, if◌then◌else◌, PartialEq, ◌==◌, nat_eq, string_eq,
}
use hermes_rs.Runtime.Message.{
  ProviderMessage, AgentTurnRequest, TerminalOutcome, TerminalStatus, Json, assistant,
}
use hermes_rs.Runtime.Fault
use hermes_rs.Runtime.Fault.{
  RuntimeError, invalid_turn, zero_attempt_budget, unsupported_transport, empty_model, empty_scope,
  no_user_message, attempt_budget_exceeded, unused_attempts,
}
use hermes_rs.Runtime.Broker.{ToolBroker}
use hermes_rs.Runtime.Host.{new_host, fault}
use hermes_rs.Runtime.Calls.{finish_tool_calls}
use hermes_rs.Runtime.Projection.{provider_tool_request, semanticize, unless_empty}
use hermes_rs.Runtime.Turn.{
  RuntimeEventObserver, Provider, ProviderAttempt, ContractOutcome, push, append_assistant,
  append_tool_request, attempt_started, stream_failed, attempt_failed, provider_cancelled,
  protocol_error, message_complete,
}
use hermes_rs.Runtime.Turn.Attempt.{Attempt, completed, error, cancelled, malformed, receive_all}
use hermes_rs.Runtime.Turn.Tools.{run_batch}
use hermes_rs.Runtime.Turn.State.{
  validate_request, falls_back, provider_request, TurnState, first_state, Flow, continue, break,
  ended, check_remaining,
}

module _ {V S P O : Type 0} ⦃e : PartialEq V⦄ (provider : Provider V P) (broker : ToolBroker V S)
    (observer : RuntimeEventObserver V O) (serde : Json V) where
  -- The end of a completed attempt without tool calls.
  unfoldable pub answer :
      TurnState V S P O
      → String
      → Attempt V O
      → String
      → Option V
      → Result RuntimeError (TurnState V S P O × Flow)
  answer turn attempt_id a finish_reason provider_data = do
    let message : ProviderMessage V =
        assistant (some a.text) (unless_empty a.reasoning) [] provider_data
    log ← push observer turn.log (message_complete attempt_id a.text finish_reason)
    ok (
      record turn {
        raw_messages = turn.raw_messages ++ message ∷ [];
        persistence_intents = turn.persistence_intents ++ append_assistant message ∷ [];
        log = log;
      },
      break (record {
        status =
            if finish_reason == "stop" then TerminalStatus.completed else TerminalStatus.incomplete;
        final_response = some a.text;
        finish_reason = some finish_reason;
        reason = none;
        visible_output = none;
      }),
    )

  -- The end of a completed attempt with tool calls.
  unfoldable pub use_tools :
      TurnState V S P O → Attempt V O → Option V → Result RuntimeError (TurnState V S P O × Flow)
  use_tools turn a provider_data = do
    calls ← finish_tool_calls serde a.partial_calls
    message ← provider_tool_request serde a.text a.reasoning calls provider_data
    batch ←
        run_batch broker observer serde turn.tool_host
          (turn.persistence_intents ++ append_tool_request message ∷ [], turn.log) calls
    ok (
      record turn {
        raw_messages = turn.raw_messages ++ message ∷ batch.results;
        persistence_intents = batch.emitted.0;
        log = batch.emitted.1;
        tool_host = batch.host;
      },
      continue,
    )

  -- What follows the loop over the events.
  unfoldable pub settle :
      TurnState V S P O
      → ProviderAttempt V
      → Attempt V O
      → Result RuntimeError (TurnState V S P O × Flow)
  settle turn attempt a = elim a.terminal [
    | none ↦ do
      log ← push observer turn.log (stream_failed attempt.attempt_id "truncated")
      ok (
        record turn { log = log },
        break (ended TerminalStatus.failed "provider_stream_truncated" (some a.visible_output)),
      )
    | some (error reason) ↦ do
      log ← push observer turn.log (attempt_failed attempt.attempt_id reason)
      if falls_back attempt.error_policy && not a.visible_output
          then ok (record turn { log = log }, continue)
          else ok (
            record turn { log = log },
            break (
                ended
                  (if a.visible_output then TerminalStatus.interrupted else TerminalStatus.failed)
                  reason (some a.visible_output)),
          )
    | some (cancelled reason) ↦ do
      log ← push observer turn.log (provider_cancelled attempt.attempt_id reason)
      ok (record turn { log = log }, break (ended TerminalStatus.cancelled reason none))
    | some (malformed reason) ↦ do
      log ← push observer turn.log (protocol_error attempt.attempt_id reason)
      ok (record turn { log = log }, break (ended TerminalStatus.failed reason none))
    | some (completed finish_reason provider_data) ↦ elim a.partial_calls [
      | [] ↦ answer turn attempt.attempt_id a finish_reason provider_data
      | _ ∷ _ ↦ use_tools turn a provider_data
    ]
  ]

  -- One round of the loop, after the count of the attempts was checked.
  unfoldable pub attempt_once :
      AgentTurnRequest V → TurnState V S P O → Result RuntimeError (TurnState V S P O × Flow)
  attempt_once request turn =
      let sent = provider_request request turn.raw_messages in
      let (transport', streaming) = provider.stream turn.provider sent in
      do
        attempt ← map_err Fault.provider streaming
        log ← push observer turn.log (attempt_started attempt.attempt_id)
        received ←
            receive_all observer attempt.attempt_id
              (record {
                text = "";
                reasoning = "";
                partial_calls = [];
                terminal = none;
                visible_output = false;
                usage = turn.usage;
                log = log;
              })
              attempt.events
        settle
            (record turn {
              provider_requests =
                  turn.provider_requests
                  ++ record {
                    attempt_id = attempt.attempt_id;
                    transport = request.transport;
                    request = sent;
                  }
                    ∷ [];
              log = received.log;
              usage = received.usage;
              provider = transport';
            })
            attempt received

  -- The loop: `left` is the number of attempts that `max_attempts` still allows.
  unfoldable pub attempts :
      AgentTurnRequest V
      → (max_attempts left : ℕ) → TurnState V S P O
      → Result RuntimeError (TurnState V S P O × TerminalOutcome)
  attempts request max_attempts zero turn = fault (attempt_budget_exceeded max_attempts)
  attempts request max_attempts (suc left) turn = do
    (turn', flow) ← attempt_once request turn
    elim flow [
      | continue ↦ attempts request max_attempts left turn'
      | break outcome ↦ ok (turn', outcome)
    ]

  unfoldable pub run_turn_with_limit_observed :
      AgentTurnRequest V → P → S → ℕ → O → Result RuntimeError (ContractOutcome V)
  run_turn_with_limit_observed request transport tools max_attempts seen = do
    guard (not (max_attempts == 0)) (invalid_turn zero_attempt_budget)
    validate_request request
    host ← new_host tools request.execution_scope
    (turn, outcome) ←
        attempts request max_attempts max_attempts (first_state request host transport seen)
    check_remaining (provider.remaining_attempts turn.provider)
    semantic_conversation ← semanticize serde turn.raw_messages
    ok (record {
      provider_requests = turn.provider_requests;
      semantic_conversation = semantic_conversation;
      persistence_intents = turn.persistence_intents;
      public_events = turn.log.events;
      usage = turn.usage;
      terminal_outcome = outcome;
    })

abbrev pub max_attempts_per_turn : ℕ
max_attempts_per_turn = 128

-- `NoopEventObserver`
unfoldable pub noop_observer : {V : Type 0} → RuntimeEventObserver V (Unit {0})
noop_observer = record { observe = λ seen event. (seen, ok tt) }

module _ {V S P : Type 0} ⦃e : PartialEq V⦄ (provider : Provider V P) (broker : ToolBroker V S)
    (serde : Json V) where
  unfoldable pub run_turn_with_limit :
      AgentTurnRequest V → P → S → ℕ → Result RuntimeError (ContractOutcome V)
  run_turn_with_limit request transport tools max_attempts =
      run_turn_with_limit_observed provider broker noop_observer serde request transport tools
        max_attempts tt

  unfoldable pub run_turn : AgentTurnRequest V → P → S → Result RuntimeError (ContractOutcome V)
  run_turn request transport tools =
      run_turn_with_limit request transport tools max_attempts_per_turn
