-- ===== src/Runtime/Turn/Received.antt =====
-- What the event loop makes of a whole stream.
use Prim.Native.String
use text.Mathlib.TextLemmas.{append_assoc as string_assoc, append-nil as string-nil}
use hermes_rs.Prelude.{
  ◌≡◌, refl, sym, ap, ◌∙◌, subst, String, Bool, true, false, not, ◌||◌, Option, none, some, List,
  [], ◌∷◌, ◌++◌, map, Result, ok, err, >>=-eq-ok, guard, arith,
}
use hermes_rs.Runtime.Message
use hermes_rs.Runtime.Message.{ProviderEvent, Usage}
use hermes_rs.Runtime.Fault.{ProviderError}
use hermes_rs.Runtime.Calls.{Delta, Entries, add_delta}
use hermes_rs.Runtime.Calls.Fragments.{add_deltas}
use hermes_rs.Runtime.Turn.{RuntimeEventObserver}
use hermes_rs.Runtime.Turn.Attempt.{
  Attempt, AttemptTerminal, completed, error, cancelled, malformed, unwrap_or, is_some, receive,
  receive_all,
}

module _ {V : Type 0} where
  -- The answer's text, and the model's reasoning, in an event.
  unfoldable pub said : ProviderEvent V → String
  said (Message.text_delta delta) = delta
  said _ = ""

  unfoldable pub thought : ProviderEvent V → String
  thought (Message.reasoning_delta delta) = delta
  thought _ = ""

  unfoldable pub all_said : List (ProviderEvent V) → String
  all_said [] = ""
  all_said (event ∷ events) = String.◌++◌ (said event) (all_said events)

  unfoldable pub all_thought : List (ProviderEvent V) → String
  all_thought [] = ""
  all_thought (event ∷ events) = String.◌++◌ (thought event) (all_thought events)

  unfoldable pub delta_in : ProviderEvent V → List Delta
  delta_in (Message.tool_call_delta index id name arguments_delta) =
      record { index = index; id = id; name = name; arguments_delta = arguments_delta } ∷ []
  delta_in _ = []

  unfoldable pub deltas_in : List (ProviderEvent V) → List Delta
  deltas_in [] = []
  deltas_in (event ∷ events) = delta_in event ++ deltas_in events

  -- The events that a user can see.
  unfoldable pub is_visible : ProviderEvent V → Bool
  is_visible (Message.text_delta _) = true
  is_visible (Message.reasoning_delta _) = true
  is_visible (Message.tool_call_delta _ _ _ _) = true
  is_visible _ = false

  unfoldable pub any_visible : List (ProviderEvent V) → Bool
  any_visible [] = false
  any_visible (event ∷ events) = is_visible event || any_visible events

  unfoldable pub ending : ProviderEvent V → Option (AttemptTerminal V)
  ending (Message.completed finish_reason provider_data) =
      some (completed (unwrap_or finish_reason "stop") provider_data)
  ending (Message.error reason) = some (error (unwrap_or reason "provider_error"))
  ending (Message.cancelled reason) = some (cancelled (unwrap_or reason "cancelled"))
  ending (Message.malformed reason) =
      some (malformed (unwrap_or reason "malformed_provider_stream"))
  ending _ = none

  -- A stream ends with its one terminal event, or has none: an event comes only where there was no
  -- terminal before it.
  unfoldable pub EndsWith :
      Option (AttemptTerminal V) → List (ProviderEvent V) → Option (AttemptTerminal V) → Type 0
  EndsWith before [] after = after ≡ before
  EndsWith before (event ∷ events) after = (before ≡ none) × EndsWith (ending event) events after

add_deltas-append :
    (before middle after : Entries) (deltas more : List Delta)
    → add_deltas before deltas ≡ ok middle
    → add_deltas middle more ≡ ok after
    → add_deltas before (deltas ++ more) ≡ ok after
unfolding add_deltas
add_deltas-append before middle after [] more h k =
    let same : before ≡ middle = ground (arith, h) in rw same k
add_deltas-append before middle after (delta ∷ deltas) more h k =
    let (next, added, rest) = >>=-eq-ok (add_delta before delta) _ h in
    rw added (add_deltas-append next middle after deltas more rest k)

module _ {V O : Type 0} where
  pub record IsReceived (a : Attempt V O) (events : List (ProviderEvent V)) (a' : Attempt V O)
      : Type 0 where
    pub text : a'.text ≡ String.◌++◌ a.text (all_said events)
    pub reasoning : a'.reasoning ≡ String.◌++◌ a.reasoning (all_thought events)
    pub calls : add_deltas a.partial_calls (deltas_in events) ≡ ok a'.partial_calls
    pub visible : a'.visible_output ≡ (a.visible_output || any_visible events)
    pub terminal : EndsWith a.terminal events a'.terminal

  -- One event.
  record IsStep (a : Attempt V O) (event : ProviderEvent V) (a' : Attempt V O) : Type 0 where
    text : a'.text ≡ String.◌++◌ a.text (said event)
    reasoning : a'.reasoning ≡ String.◌++◌ a.reasoning (thought event)
    calls : add_deltas a.partial_calls (delta_in event) ≡ ok a'.partial_calls
    visible : a'.visible_output ≡ (a.visible_output || is_visible event)
    terminal : (a.terminal ≡ none) → a'.terminal ≡ ending event

  receive-IsStep :
      (observer : RuntimeEventObserver V O) (id : String) (a : Attempt V O)
      (event : ProviderEvent V) (a' : Attempt V O)
      → receive observer id a event ≡ ok a'
      → IsStep a event a'
  unfolding receive said thought delta_in is_visible ending add_deltas
  receive-IsStep observer id a Message.message_start a' h =
      ground (arith, string-nil a.text, string-nil a.reasoning)
  receive-IsStep observer id a (Message.text_delta delta) a' h =
      ground (arith, string-nil a.text, string-nil a.reasoning)
  receive-IsStep observer id a (Message.reasoning_delta delta) a' h =
      ground (arith, string-nil a.text, string-nil a.reasoning)
  receive-IsStep observer id a (Message.tool_call_delta index call name text) a' h =
      ground (arith, string-nil a.text, string-nil a.reasoning)
  receive-IsStep observer id a (Message.usage p c t u) a' h =
      ground (arith, string-nil a.text, string-nil a.reasoning)
  receive-IsStep observer id a (Message.completed reason data') a' h =
      ground (arith, string-nil a.text, string-nil a.reasoning)
  receive-IsStep observer id a (Message.error reason) a' h =
      ground (arith, string-nil a.text, string-nil a.reasoning)
  receive-IsStep observer id a (Message.cancelled reason) a' h =
      ground (arith, string-nil a.text, string-nil a.reasoning)
  receive-IsStep observer id a (Message.malformed reason) a' h =
      ground (arith, string-nil a.text, string-nil a.reasoning)

  IsReceived-cons :
      (a b c : Attempt V O) (event : ProviderEvent V) (events : List (ProviderEvent V))
      → a.terminal ≡ none
      → IsStep a event b
      → IsReceived b events c
      → IsReceived a (event ∷ events) c
  unfolding all_said all_thought deltas_in any_visible EndsWith
  IsReceived-cons a b c event events unended s r = record {
    text =
        r.text
        ∙ ap (λ t. String.◌++◌ t (all_said events)) s.text
        ∙ string_assoc a.text (said event) (all_said events);
    reasoning =
        r.reasoning
        ∙ ap (λ t. String.◌++◌ t (all_thought events)) s.reasoning
        ∙ string_assoc a.reasoning (thought event) (all_thought events);
    calls = add_deltas-append _ _ _ (delta_in event) (deltas_in events) s.calls r.calls;
    visible = ground (arith, r.visible, s.visible);
    terminal = (unended, subst (λ t. EndsWith t events c.terminal) (s.terminal unended) r.terminal);
  }

  IsReceived-nil : (a b : Attempt V O) → a ≡ b → IsReceived a [] b
  unfolding all_said all_thought deltas_in any_visible EndsWith add_deltas
  IsReceived-nil a b same = subst (IsReceived a []) same (record {
    text = sym (string-nil a.text);
    reasoning = sym (string-nil a.reasoning);
    calls = refl;
    visible = ground arith;
    terminal = refl;
  })

  -- A stream is received only if the transport delivers all of it and its one terminal, when it has
  -- one, comes last. The text, the reasoning and the tool calls are then those of its events in
  -- order, and something was visible exactly when an event was.
  pub receive_all-IsReceived :
      (observer : RuntimeEventObserver V O) (id : String) (a : Attempt V O)
      (items : List (Result ProviderError (ProviderEvent V))) (a' : Attempt V O)
      → receive_all observer id a items ≡ ok a'
      → (events : List (ProviderEvent V)) × (items ≡ map ok events) × IsReceived a events a'
  unfolding receive_all
  receive_all-IsReceived observer id a [] a' h = ([], refl, IsReceived-nil a a' (ground (arith, h)))
  receive_all-IsReceived observer id a (err e ∷ items) a' h = cc
  receive_all-IsReceived observer id a (ok event ∷ items) a' h =
      let (u, passed, h₁) = >>=-eq-ok (guard (not (is_some a.terminal)) _) _ h in
      let unended : a.terminal ≡ none = ground (arith, passed) in
      let (b, step, rest) = >>=-eq-ok (receive observer id a event) _ h₁ in
      let (events, e, r) = receive_all-IsReceived observer id b items a' rest in
      (
        event ∷ events,
        ap (λ more. ok event ∷ more) e,
        IsReceived-cons a b a' event events unended (receive-IsStep observer id a event b step) r,
      )
