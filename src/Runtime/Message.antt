-- ===== src/Runtime/Message.antt =====
-- The types of crates/protocol/src/lib.rs that a provider turn uses, and `serde_json` on the
-- arguments of a call. `V` is `serde_json::Value`.
use hermes_rs.Prelude.{ℕ, String, Bool, Option, List, Result}
use hermes_rs.Domain.Effect.{ToolArguments}
use hermes_rs.Runtime.Fault.{JsonError}

pub data TransportKind : Type 0 where
  chat_completions anthropic_messages codex_responses : TransportKind
  codex_app_server bedrock_converse gemini_native : TransportKind

pub record ProviderFunctionCall : Type 0 where
  pub name : String
  pub arguments : String

pub record ProviderToolCall : Type 0 where
  pub id : String
  pub kind : String
  pub function : ProviderFunctionCall

pub data ProviderMessage (V : Type 0) : Type 0 where
  -- content
  system user : String → ProviderMessage V
  -- content, reasoning, tool_calls, provider_replay
  assistant : Option String → Option String → List ProviderToolCall → Option V → ProviderMessage V
  -- tool_call_id, status, content, execution_key
  tool : String → String → String → String → ProviderMessage V

pub record ChatCompletionsRequest (V : Type 0) : Type 0 where
  pub model : String
  pub messages : List (ProviderMessage V)
  pub tools : List V

pub record AgentTurnRequest (V : Type 0) : Type 0 where
  pub execution_scope : String
  pub transport : TransportKind
  pub model : String
  pub system_prompt : Option String
  pub conversation : List (ProviderMessage V)
  pub tools : List V

pub data ProviderEvent (V : Type 0) : Type 0 where
  message_start : ProviderEvent V
  text_delta reasoning_delta : String → ProviderEvent V
  -- index, id, name, arguments_delta
  tool_call_delta : ℕ → Option String → Option String → String → ProviderEvent V
  -- prompt_tokens, completion_tokens, total_tokens, cached_tokens
  usage : ℕ → ℕ → ℕ → ℕ → ProviderEvent V
  -- finish_reason, provider_data
  completed : Option String → Option V → ProviderEvent V
  -- reason
  error cancelled malformed : Option String → ProviderEvent V

pub record Usage : Type 0 where
  pub prompt_tokens : ℕ
  pub completion_tokens : ℕ
  pub total_tokens : ℕ
  pub cached_tokens : ℕ

pub data TerminalStatus : Type 0 where
  completed incomplete failed cancelled interrupted fixture_projected : TerminalStatus

pub record TerminalOutcome : Type 0 where
  pub status : TerminalStatus
  pub final_response : Option String
  pub finish_reason : Option String
  pub reason : Option String
  pub visible_output : Option Bool

-- `to_string` and `from_str` of `serde_json`: at the type of a call's arguments, and for the payload
-- of a tool that did not succeed, with its execution_key, message and status.
pub record Json (V : Type 0) : Type 0 where
  pub to_string : ToolArguments V → Result JsonError String
  pub from_str : String → Result JsonError (ToolArguments V)
  pub payload_to_string : String → String → String → Result JsonError String
