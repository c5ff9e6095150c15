-- ===== src/Runtime/Turn/Round.antt =====
-- What one round of the loop over the attempts adds to the turn.
use hermes_rs.Prelude.{
  suc, ◌≡◌, refl, sym, ap, ◌∙◌, subst, String, not, ◌&&◌, Option, none, some, List, [], ◌∷◌, ◌++◌,
  length, length-append_one, Result, ok, ◌>>=◌, >>=-eq-ok, map_err, ok-injective, Bool-cases,
  PartialEq, nat_eq, string_eq, append-nil, inl, inr,
}
use hermes_rs.Runtime.Message.{ProviderMessage, AgentTurnRequest, Json, assistant}
use hermes_rs.Runtime.Fault.{RuntimeError, conversation}
use hermes_rs.Runtime.Broker.{ToolBroker}
use hermes_rs.Runtime.Fault
use hermes_rs.Runtime.Calls.{Entries, finish_tool_calls}
use hermes_rs.Runtime.Projection.{provider_tool_request, unless_empty}
use hermes_rs.Runtime.Turn.{
  PublicEvent, attempt_started, RuntimeEventObserver, Provider, ProviderAttempt, push,
}
use hermes_rs.Runtime.Turn.Attempt.{
  Attempt, AttemptTerminal, completed, error, cancelled, malformed, receive_all,
}
use hermes_rs.Runtime.Turn.Tools.{run_batch}
use hermes_rs.Runtime.Turn.Loop.{answer, use_tools, settle, attempt_once}
use hermes_rs.Runtime.Turn.State.{TurnState, Flow, continue, break, falls_back, provider_request}

-- The last messages of a turn with this outcome: its final response, when there is one.
abbrev pub Answers : {V : Type 0} → Option String → List (ProviderMessage V) → Type 0
Answers none messages = messages ≡ []
Answers {V} (some text) messages =
    (reasoning : Option String) × (replay : Option V) × (messages
      ≡ assistant (some text) reasoning [] replay ∷ [])

abbrev pub Ends : {V : Type 0} → Flow → List (ProviderMessage V) → Type 0
Ends continue messages = Unit
Ends (break outcome) messages = Answers outcome.final_response messages

module _ {V S P O : Type 0} ⦃e : PartialEq V⦄ (provider : Provider V P) (broker : ToolBroker V S)
    (observer : RuntimeEventObserver V O) (serde : Json V) where
  -- The turn has more messages than before, and as many requests.
  record IsSettled (turn turn' : TurnState V S P O) (flow : Flow) : Type 0 where
    more : List (ProviderMessage V)
    grown : turn'.raw_messages ≡ turn.raw_messages ++ more
    requests : turn'.provider_requests ≡ turn.provider_requests
    ends : Ends flow more

  -- The pair that a step returns is the one written.
  settled :
      (turn : TurnState V S P O) (written returned : TurnState V S P O × Flow)
      → ◌≡◌ {A = Result RuntimeError (TurnState V S P O × Flow)} (ok written) (ok returned)
      → IsSettled turn written.0 written.1
      → IsSettled turn returned.0 returned.1
  settled turn written returned h s = subst (λ p. IsSettled turn p.0 p.1) (ok-injective h) s

  logged :
      (turn : TurnState V S P O) (event : PublicEvent V) (flow : Flow)
      (after : TurnState V S P O × Flow)
      → Ends {V = V} flow []
      → (push observer turn.log event >>= λ log. ok (record turn { log = log }, flow)) ≡ ok after
      → IsSettled turn after.0 after.1
  logged turn event flow after ends h =
      let (log, pushed, done) = >>=-eq-ok (push observer turn.log event) _ h in
      settled turn _ after done (record {
        more = [];
        grown = sym (append-nil turn.raw_messages);
        requests = refl;
        ends = ends;
      })

  answer-IsSettled :
      (turn : TurnState V S P O) (id : String) (a : Attempt V O) (finish : String)
      (data' : Option V) (after : TurnState V S P O × Flow)
      → answer provider broker observer serde turn id a finish data' ≡ ok after
      → IsSettled turn after.0 after.1
  unfolding answer
  answer-IsSettled turn id a finish data' after h =
      let (log, pushed, done) = >>=-eq-ok (push observer turn.log _) _ h in
      settled turn _ after done (record {
        more = assistant (some a.text) (unless_empty a.reasoning) [] data' ∷ [];
        grown = refl;
        requests = refl;
        ends = (_, _, refl);
      })

  use_tools-IsSettled :
      (turn : TurnState V S P O) (a : Attempt V O) (data' : Option V)
      (after : TurnState V S P O × Flow)
      → use_tools provider broker observer serde turn a data' ≡ ok after
      → IsSettled turn after.0 after.1
  unfolding use_tools
  use_tools-IsSettled turn a data' after h =
      let (calls, finished, h₁) = >>=-eq-ok (finish_tool_calls serde a.partial_calls) _ h in
      let (message, made, h₂) =
        >>=-eq-ok (provider_tool_request serde a.text a.reasoning calls data') _ h₁ in
      let (batch, ran, done) =
        >>=-eq-ok (run_batch broker observer serde turn.tool_host _ calls) _ h₂ in
      settled turn _ after done
        (record { more = message ∷ batch.results; grown = refl; requests = refl; ends = tt })

  settle-IsSettled :
      (turn : TurnState V S P O) (attempt : ProviderAttempt V) (a : Attempt V O)
      (terminal : Option (AttemptTerminal V)) (calls : Entries)
      → a.terminal ≡ terminal
      → a.partial_calls ≡ calls
      → (after : TurnState V S P O × Flow)
      → settle provider broker observer serde turn attempt a ≡ ok after
      → IsSettled turn after.0 after.1
  unfolding settle answer use_tools
  settle-IsSettled turn attempt a none calls t p after h = logged turn _ _ after refl (rw t at h)
  settle-IsSettled turn attempt a (some (cancelled reason)) calls t p after h =
      logged turn _ _ after refl (rw t at h)
  settle-IsSettled turn attempt a (some (malformed reason)) calls t p after h =
      logged turn _ _ after refl (rw t at h)
  settle-IsSettled turn attempt a (some (error reason)) calls t p after h =
      elim (Bool-cases (falls_back attempt.error_policy && not a.visible_output)) [
        | inl again ↦ logged turn _ _ after tt (rw (t, again) at h)
        | inr over ↦ logged turn _ _ after refl (rw (t, over) at h)
      ]
  settle-IsSettled turn attempt a (some (completed finish data')) [] t p after h =
      answer-IsSettled turn attempt.attempt_id a finish data' after (rw (t, p) at h)
  settle-IsSettled turn attempt a (some (completed finish data')) (_ ∷ _) t p after h =
      use_tools-IsSettled turn a data' after (rw (t, p) at h)

  -- A round sends one request and adds messages, the last of them its answer.
  pub record IsRound (turn turn' : TurnState V S P O) (flow : Flow) : Type 0 where
    pub more : List (ProviderMessage V)
    pub grown : turn'.raw_messages ≡ turn.raw_messages ++ more
    pub requests : length turn'.provider_requests ≡ suc (length turn.provider_requests)
    pub ends : Ends flow more

  pub attempt_once-IsRound :
      (request : AgentTurnRequest V) (turn : TurnState V S P O) (after : TurnState V S P O × Flow)
      → attempt_once provider broker observer serde request turn ≡ ok after
      → IsRound turn after.0 after.1
  unfolding attempt_once
  attempt_once-IsRound request turn after h =
      let (attempt, streamed, h₁) =
        >>=-eq-ok
          (map_err Fault.provider
            (provider.stream turn.provider (provider_request request turn.raw_messages)).1)
          _ h in
      let (log, started, h₂) =
        >>=-eq-ok (push observer turn.log (attempt_started attempt.attempt_id)) _ h₁ in
      let (a, received, h₃) =
        >>=-eq-ok (receive_all observer attempt.attempt_id _ attempt.events) _ h₂ in
      let s = settle-IsSettled _ attempt a a.terminal a.partial_calls refl refl after h₃ in
      record {
        more = s.more;
        grown = s.grown;
        requests = ap length s.requests ∙ length-append_one turn.provider_requests _;
        ends = s.ends;
      }
