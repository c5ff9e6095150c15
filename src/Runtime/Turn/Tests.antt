-- ===== src/Runtime/Turn/Tests.antt =====
-- A scripted provider: the first attempt fails before anything is visible, the second answers.
use hermes_rs.Prelude.{
  ℕ, ◌≡◌, ◌⊎◌, refl, String, false, none, some, List, [], ◌∷◌, map, length, Result, ok, err, nat_eq,
}
use hermes_rs.Domain.Conversation.{validate_from, step, new}
use hermes_rs.Runtime.Fault.{ProviderError, invalid_turn, attempt_budget_exceeded}
use hermes_rs.Runtime.Message
use hermes_rs.Runtime.Message.{
  ProviderMessage, ProviderEvent, AgentTurnRequest, ChatCompletionsRequest, chat_completions, Json,
  user, Usage,
}
use hermes_rs.Runtime.Broker.{ToolBroker}
use hermes_rs.Runtime.Host.{new_host}
use hermes_rs.Runtime.Projection.{semanticize, semantic_from, semantic_message, finish_results}
use hermes_rs.Runtime.Calls.{add_delta}
use hermes_rs.Runtime.Turn.{
  Provider, ProviderAttempt, ContractOutcome, push, fallback_before_visible_output,
}
use hermes_rs.Runtime.Turn.Attempt.{Attempt, receive, receive_all, add_usage}
use hermes_rs.Runtime.Turn.Received.{IsReceived, receive_all-IsReceived}
use hermes_rs.Runtime.Turn.Loop.{
  answer, use_tools, settle, attempt_once, attempts, run_turn_with_limit_observed, noop_observer,
}
use hermes_rs.Runtime.Turn.State.{
  TurnState, continue, last_is_user, validate_request, request_messages, provider_request,
  first_state, check_remaining,
}
use hermes_rs.Runtime.Turn.Outcome.{IsTurn, run_turn_with_limit_observed-IsTurn}
use hermes_rs.Runtime.Turn.Retry.{IsTools, IsSilent, settle-IsSilent}

abbrev event : ProviderEvent ℕ → Result ProviderError (ProviderEvent ℕ)
event e = ok e

abbrev failing : List (Result ProviderError (ProviderEvent ℕ))
failing = event Message.message_start ∷ event (Message.error none) ∷ []

abbrev answering : List (Result ProviderError (ProviderEvent ℕ))
answering =
    event Message.message_start
    ∷ event (Message.text_delta "Hel")
    ∷ event (Message.text_delta "lo")
    ∷ event (Message.usage 2 1 3 0)
    ∷ event (Message.completed none none)
    ∷ []

abbrev attempt : String → List (Result ProviderError (ProviderEvent ℕ)) → ProviderAttempt ℕ
attempt id events = record {
  attempt_id = id;
  error_policy = fallback_before_visible_output;
  events = events;
}

-- The attempts that are left.
abbrev stream_next :
    List (ProviderAttempt ℕ)
    → ChatCompletionsRequest ℕ
    → List (ProviderAttempt ℕ) × Result ProviderError (ProviderAttempt ℕ)
stream_next [] request = ([], err (record { message = "no attempt is left" }))
stream_next (next ∷ left) request = (left, ok next)

abbrev scripted : Provider ℕ (List (ProviderAttempt ℕ))
scripted = record { stream = stream_next; remaining_attempts = λ left. some (length left) }

abbrev script : List (ProviderAttempt ℕ)
script = attempt "one" failing ∷ attempt "two" answering ∷ []

abbrev no_tools : ToolBroker ℕ (Unit {0})
no_tools = record {
  plan = λ s calls ids. (s, ok []);
  resolve_approvals = λ s plans. (s, ok plans);
  execute = λ s plans. (s, ok []);
}

abbrev no_json : Json ℕ
no_json = record {
  to_string = λ arguments. ok "{}";
  from_str = λ text. ok (record { entries = [] });
  payload_to_string = λ execution_key message status. ok message;
}

abbrev greeting : AgentTurnRequest ℕ
greeting = record {
  execution_scope = "turn";
  transport = chat_completions;
  model = "model";
  system_prompt = some "Be brief.";
  conversation = user "hello" ∷ [];
  tools = [];
}

abbrev fresh : Attempt ℕ (Unit {0})
fresh = record {
  text = "";
  reasoning = "";
  partial_calls = [];
  terminal = none;
  visible_output = false;
  usage = record { prompt_tokens = 0; completion_tokens = 0; total_tokens = 0; cached_tokens = 0 };
  log = record { events = []; observer = tt };
}

code : Unit {0}
unfolding push noop_observer receive receive_all add_usage last_is_user validate_request
    request_messages provider_request first_state check_remaining answer use_tools settle
    attempt_once attempts run_turn_with_limit_observed new_host semanticize semantic_from
    semantic_message finish_results validate_from step new add_delta
code = tt

abbrev unwrap {ℓ κ} : {E : Type ℓ} {A : Type κ} → A → Result E A → A
unwrap default (ok a) = a
unwrap default (err e) = default

received : Attempt ℕ (Unit {0})
received = unwrap fresh (receive_all noop_observer "two" fresh answering)

received_ok : receive_all noop_observer "two" fresh answering ≡ ok received
unfolding code received
received_ok = refl

receive_all-IsReceived_example :
    (events : List (ProviderEvent ℕ)) × (answering ≡ map ok events)
    × IsReceived fresh events received
receive_all-IsReceived_example =
    receive_all-IsReceived noop_observer "two" fresh answering received received_ok

outcome : ContractOutcome ℕ
outcome =
    unwrap
      (record {
        provider_requests = [];
        semantic_conversation = [];
        persistence_intents = [];
        public_events = [];
        usage = fresh.usage;
        terminal_outcome = record {
          status = Message.TerminalStatus.failed;
          final_response = none;
          finish_reason = none;
          reason = none;
          visible_output = none;
        };
      })
      (run_turn_with_limit_observed scripted no_tools noop_observer no_json greeting script tt 2 tt)

outcome_ok :
    run_turn_with_limit_observed scripted no_tools noop_observer no_json greeting script tt 2 tt
    ≡ ok outcome
unfolding code outcome
outcome_ok = refl

run_turn_with_limit_observed-IsTurn_example :
    IsTurn scripted no_tools noop_observer no_json greeting 2 outcome
run_turn_with_limit_observed-IsTurn_example =
    run_turn_with_limit_observed-IsTurn scripted no_tools noop_observer no_json greeting script tt 2
      tt outcome outcome_ok

answered : outcome.terminal_outcome.final_response ≡ some "Hello"
unfolding code outcome
answered = refl

one_attempt_is_too_few :
    run_turn_with_limit_observed scripted no_tools noop_observer no_json greeting script tt 1 tt
    ≡ err (invalid_turn (attempt_budget_exceeded 1))
unfolding code
one_attempt_is_too_few = refl

failed : Attempt ℕ (Unit {0})
failed = unwrap fresh (receive_all noop_observer "one" fresh failing)

failed_ok : receive_all noop_observer "one" fresh failing ≡ ok failed
unfolding code failed
failed_ok = refl

abbrev before : TurnState ℕ (Unit {0}) (List (ProviderAttempt ℕ)) (Unit {0})
before =
    first_state greeting (record { tools = tt; execution_scope = "turn"; seen_invocation_ids = [] })
      script tt

after : TurnState ℕ (Unit {0}) (List (ProviderAttempt ℕ)) (Unit {0})
after =
    (unwrap (before, continue)
      (settle scripted no_tools noop_observer no_json before (attempt "one" failing) failed)).0

goes_on :
    settle scripted no_tools noop_observer no_json before (attempt "one" failing) failed
    ≡ ok (after, continue)
unfolding code failed after
goes_on = refl

settle-IsSilent_example :
    IsTools scripted no_tools noop_observer no_json failed
    ⊎ IsSilent scripted no_tools noop_observer no_json before after (attempt "one" failing) failed
settle-IsSilent_example =
    settle-IsSilent scripted no_tools noop_observer no_json before after (attempt "one" failing)
      fresh failed refl failed_ok goes_on
