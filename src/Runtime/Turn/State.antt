-- ===== src/Runtime/Turn/State.antt =====
-- The request of a turn, its check, and the variables of the loop over the attempts.
use hermes_rs.Prelude.{
  ℕ, String, Bool, true, false, not, Option, none, some, List, [], ◌∷◌, map, Result, ok,
  if◌then◌else◌, ◌==◌, nat_eq, string_eq,
}
use hermes_rs.Prelude.Text.{is_empty}
use hermes_rs.Runtime.Message.{
  ProviderMessage, AgentTurnRequest, ChatCompletionsRequest, TransportKind, chat_completions, Usage,
  TerminalOutcome, TerminalStatus, user, system,
}
use hermes_rs.Runtime.Fault.{
  RuntimeError, unsupported_transport, empty_model, empty_scope, no_user_message, unused_attempts,
}
use hermes_rs.Runtime.Host.{ToolHost, fault}
use hermes_rs.Runtime.Turn.{
  PublicEventLog, PersistenceIntent, AttemptErrorPolicy, fallback_before_visible_output, stop,
  ProviderRequestRecord, append_message,
}

abbrev pub is_user : {V : Type 0} → ProviderMessage V → Bool
is_user (user _) = true
is_user _ = false

unfoldable pub last_is_user : {V : Type 0} → List (ProviderMessage V) → Bool
last_is_user [] = false
last_is_user (message ∷ []) = is_user message
last_is_user (_ ∷ message ∷ messages) = last_is_user (message ∷ messages)

abbrev pub is_chat_completions : TransportKind → Bool
is_chat_completions chat_completions = true
is_chat_completions _ = false

unfoldable pub validate_request : {V : Type 0} → AgentTurnRequest V → Result RuntimeError (Unit {0})
validate_request request =
    if not (is_chat_completions request.transport)
    then fault unsupported_transport
    else if is_empty request.model
    then fault empty_model
    else if is_empty request.execution_scope
    then fault empty_scope
    else if not (last_is_user request.conversation)
    then fault no_user_message
    else ok tt

abbrev pub falls_back : AttemptErrorPolicy → Bool
falls_back stop = false
falls_back fallback_before_visible_output = true

-- The messages of a request: the prompt, when there is one, before the conversation.
unfoldable pub request_messages :
    {V : Type 0} → Option String → List (ProviderMessage V) → List (ProviderMessage V)
request_messages none messages = messages
request_messages (some prompt) messages = system prompt ∷ messages

-- The request of one attempt.
unfoldable pub provider_request :
    {V : Type 0} → AgentTurnRequest V → List (ProviderMessage V) → ChatCompletionsRequest V
provider_request request raw_messages = record {
  model = request.model;
  messages = request_messages request.system_prompt raw_messages;
  tools = request.tools;
}

-- The variables of the loop over the attempts.
pub record TurnState (V S P O : Type 0) : Type 0 where
  pub raw_messages : List (ProviderMessage V)
  pub provider_requests : List (ProviderRequestRecord V)
  pub persistence_intents : List (PersistenceIntent V)
  pub log : PublicEventLog V O
  pub usage : Usage
  pub tool_host : ToolHost S
  pub provider : P

-- The variables before the loop.
unfoldable pub first_state :
    {V S P O : Type 0} → AgentTurnRequest V → ToolHost S → P → O → TurnState V S P O
first_state request host transport seen = record {
  raw_messages = request.conversation;
  provider_requests = [];
  persistence_intents = map append_message request.conversation;
  log = record { events = []; observer = seen };
  usage = record { prompt_tokens = 0; completion_tokens = 0; total_tokens = 0; cached_tokens = 0 };
  tool_host = host;
  provider = transport;
}

-- A round of the loop goes on to the next attempt or breaks with an outcome.
pub data Flow : Type 0 where
  continue : Flow
  break : TerminalOutcome → Flow

-- An outcome without a final response.
abbrev pub ended : TerminalStatus → String → Option Bool → TerminalOutcome
ended status reason visible_output = record {
  status = status;
  final_response = none;
  finish_reason = none;
  reason = some reason;
  visible_output = visible_output;
}

-- No scripted attempt may be left over.
unfoldable pub check_remaining : Option ℕ → Result RuntimeError (Unit {0})
check_remaining none = ok tt
check_remaining (some remaining) =
    if not (remaining == 0) then fault (unused_attempts remaining) else ok tt
