-- ===== src/Runtime/Turn/Attempt.antt =====
-- The loop over the events of one provider attempt, in `run_turn_with_limit_observed`.
use hermes_rs.Prelude.{
  ℕ, ◌+◌, String, Bool, true, false, not, Option, none, some, List, [], ◌∷◌, Result, ok, ◌>>=◌,
  ◌>>◌, guard, map_err,
}
use Prim.Native.Nat.{◌%◌}
use Prim.Native.String
use hermes_rs.Runtime.Message
use hermes_rs.Runtime.Message.{ProviderEvent, Usage}
use hermes_rs.Runtime.Fault.{
  RuntimeError, ProviderError, invalid_turn, provider, event_after_terminal,
}
use hermes_rs.Runtime.Calls.{Entries, add_delta}
use hermes_rs.Runtime.Turn
use hermes_rs.Runtime.Turn.{RuntimeEventObserver, PublicEventLog, push}

pub data AttemptTerminal (V : Type 0) : Type 0 where
  -- finish_reason, provider_data
  completed : String → Option V → AttemptTerminal V
  -- reason
  error cancelled malformed : String → AttemptTerminal V

-- The variables that the loop changes.
pub record Attempt (V O : Type 0) : Type 0 where
  pub text : String
  pub reasoning : String
  pub partial_calls : Entries
  pub terminal : Option (AttemptTerminal V)
  pub visible_output : Bool
  pub usage : Usage
  pub log : PublicEventLog V O

-- `+=` on `u64`, as the release build runs it.
abbrev pub add_u64 : ℕ → ℕ → ℕ
add_u64 a b = (a + b) % 18446744073709551616

unfoldable pub add_usage : Usage → Usage → Usage
add_usage total more = record {
  prompt_tokens = add_u64 total.prompt_tokens more.prompt_tokens;
  completion_tokens = add_u64 total.completion_tokens more.completion_tokens;
  total_tokens = add_u64 total.total_tokens more.total_tokens;
  cached_tokens = add_u64 total.cached_tokens more.cached_tokens;
}

-- `Option::unwrap_or_else`
abbrev pub unwrap_or : Option String → String → String
unwrap_or none default = default
unwrap_or (some s) default = s

abbrev pub is_some {ℓ} : {A : Type ℓ} → Option A → Bool
is_some none = false
is_some (some a) = true

module _ {V O : Type 0} (observer : RuntimeEventObserver V O) where
  -- The match on one event.
  unfoldable pub receive :
      String → Attempt V O → ProviderEvent V → Result RuntimeError (Attempt V O)
  receive attempt_id a Message.message_start = do
    log ← push observer a.log (Turn.message_start attempt_id)
    ok (record a { log = log })
  receive attempt_id a (Message.text_delta delta) = do
    log ← push observer a.log (Turn.message_delta attempt_id delta)
    ok (record a { visible_output = true; text = String.◌++◌ a.text delta; log = log })
  receive attempt_id a (Message.reasoning_delta delta) = do
    log ← push observer a.log (Turn.reasoning_delta attempt_id delta)
    ok (record a { visible_output = true; reasoning = String.◌++◌ a.reasoning delta; log = log })
  receive attempt_id a (Message.tool_call_delta index id name arguments_delta) = do
    partial_calls ←
        add_delta a.partial_calls
          (record { index = index; id = id; name = name; arguments_delta = arguments_delta })
    log ← push observer a.log (Turn.tool_call_delta attempt_id index id name arguments_delta)
    ok (record a { visible_output = true; partial_calls = partial_calls; log = log })
  receive attempt_id a (Message.usage prompt completion total cached) = do
    let attempt_usage : Usage = record {
      prompt_tokens = prompt;
      completion_tokens = completion;
      total_tokens = total;
      cached_tokens = cached;
    }
    log ← push observer a.log (Turn.usage attempt_id attempt_usage)
    ok (record a { usage = add_usage a.usage attempt_usage; log = log })
  receive attempt_id a (Message.completed finish_reason provider_data) =
      ok (record a { terminal = some (completed (unwrap_or finish_reason "stop") provider_data) })
  receive attempt_id a (Message.error reason) =
      ok (record a { terminal = some (error (unwrap_or reason "provider_error")) })
  receive attempt_id a (Message.cancelled reason) =
      ok (record a { terminal = some (cancelled (unwrap_or reason "cancelled")) })
  receive attempt_id a (Message.malformed reason) =
      ok (record a { terminal = some (malformed (unwrap_or reason "malformed_provider_stream")) })

  unfoldable pub receive_all :
      String
      → Attempt V O
      → List (Result ProviderError (ProviderEvent V))
      → Result RuntimeError (Attempt V O)
  receive_all attempt_id a [] = ok a
  receive_all attempt_id a (item ∷ items) = do
    event ← map_err provider item
    guard (not (is_some a.terminal)) (invalid_turn (event_after_terminal attempt_id))
    a' ← receive attempt_id a event
    receive_all attempt_id a' items
