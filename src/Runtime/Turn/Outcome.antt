-- ===== src/Runtime/Turn/Outcome.antt =====
-- What a turn that ends well has done.
use hermes_rs.Prelude.{
  ℕ, zero, suc, ◌+◌, ◌≤◌, ◌<◌, ◌≡◌, sym, ap, ◌∙◌, subst, not, List, [], ◌++◌, length, ok, >>=-eq-ok,
  guard, map_err, ok-injective, PartialEq, ◌==◌, nat_eq, string_eq, append_assoc, arith,
}
use hermes_rs.Domain.Conversation.{new, SemanticMessage}
use hermes_rs.Domain.Conversation.Grammar.{IsConversation}
use hermes_rs.Domain.Conversation.Acceptance.{new-iff-IsConversation}
use hermes_rs.Runtime.Message.{ProviderMessage, AgentTurnRequest, TerminalOutcome, Json}
use hermes_rs.Runtime.Fault.{conversation}
use hermes_rs.Runtime.Host.{new_host}
use hermes_rs.Runtime.Broker.{ToolBroker}
use hermes_rs.Runtime.Projection.{semanticize, semantic_from, between}
use hermes_rs.Runtime.Turn.{RuntimeEventObserver, Provider, ContractOutcome}
use hermes_rs.Runtime.Turn.Loop.{attempt_once, attempts, run_turn_with_limit_observed}
use hermes_rs.Runtime.Turn.State.{
  TurnState, Flow, continue, break, first_state, check_remaining, validate_request,
}
use hermes_rs.Runtime.Turn.Round.{Answers, IsRound, attempt_once-IsRound}

module _ {V S P O : Type 0} ⦃e : PartialEq V⦄ (provider : Provider V P) (broker : ToolBroker V S)
    (observer : RuntimeEventObserver V O) (serde : Json V) where
  -- A whole loop sends at least one request and at most as many as it may.
  record IsLoop (left : ℕ) (turn turn' : TurnState V S P O) (outcome : TerminalOutcome)
      : Type 0 where
    earlier : List (ProviderMessage V)
    last : List (ProviderMessage V)
    grown : turn'.raw_messages ≡ turn.raw_messages ++ (earlier ++ last)
    some_request : length turn.provider_requests < length turn'.provider_requests
    few_requests : length turn'.provider_requests ≤ length turn.provider_requests + left
    ends : Answers outcome.final_response last

  IsLoop-continue :
      (left : ℕ) (turn middle turn' : TurnState V S P O) (outcome : TerminalOutcome)
      → IsRound provider broker observer serde turn middle continue
      → IsLoop left middle turn' outcome
      → IsLoop (suc left) turn turn' outcome
  IsLoop-continue left turn middle turn' outcome r l = record {
    earlier = r.more ++ l.earlier;
    last = l.last;
    grown =
        l.grown
        ∙ ap (λ m. m ++ (l.earlier ++ l.last)) r.grown
        ∙ append_assoc turn.raw_messages r.more (l.earlier ++ l.last)
        ∙ ap (λ m. turn.raw_messages ++ m) (sym (append_assoc r.more l.earlier l.last));
    some_request = omega (arith, l.some_request, r.requests);
    few_requests = omega (arith, l.few_requests, r.requests);
    ends = l.ends;
  }

  IsLoop-break :
      (left : ℕ) (turn turn' : TurnState V S P O) (outcome : TerminalOutcome)
      → IsRound provider broker observer serde turn turn' (break outcome)
      → IsLoop (suc left) turn turn' outcome
  IsLoop-break left turn turn' outcome r = record {
    earlier = [];
    last = r.more;
    grown = r.grown;
    some_request = omega (arith, r.requests);
    few_requests = omega (arith, r.requests);
    ends = r.ends;
  }

  -- The two ways in which a round ends, for a loop whose remaining rounds are known.
  branch-IsLoop :
      (request : AgentTurnRequest V) (max_attempts left : ℕ) (turn middle turn' : TurnState V S P O)
      (outcome : TerminalOutcome) (flow : Flow)
      → (attempts provider broker observer serde request max_attempts left middle
            ≡ ok (turn', outcome)
          → IsLoop left middle turn' outcome)
      → IsRound provider broker observer serde turn middle flow
      → (elim flow [
        | continue ↦ attempts provider broker observer serde request max_attempts left middle
        | break found ↦ ok (middle, found)
      ])
        ≡ ok (turn', outcome)
      → IsLoop (suc left) turn turn' outcome
  branch-IsLoop request max_attempts left turn middle turn' outcome continue loop r rest =
      IsLoop-continue left turn middle turn' outcome r (loop rest)
  branch-IsLoop request max_attempts left turn middle turn' outcome (break found) loop r rest =
      subst (λ p. IsLoop (suc left) turn p.0 p.1) (ok-injective rest)
        (IsLoop-break left turn middle found r)

  attempts-IsLoop :
      (request : AgentTurnRequest V) (max_attempts left : ℕ) (turn turn' : TurnState V S P O)
      (outcome : TerminalOutcome)
      → attempts provider broker observer serde request max_attempts left turn ≡ ok (turn', outcome)
      → IsLoop left turn turn' outcome
  unfolding attempts
  attempts-IsLoop request max_attempts zero turn turn' outcome h = cc
  attempts-IsLoop request max_attempts (suc left) turn turn' outcome h =
      let ((middle, flow), round, rest) =
        >>=-eq-ok (attempt_once provider broker observer serde request turn) _ h in
      branch-IsLoop request max_attempts left turn middle turn' outcome flow
        (attempts-IsLoop request max_attempts left middle turn' outcome)
        (attempt_once-IsRound provider broker observer serde request turn (middle, flow) round) rest

  semanticize-IsConversation :
      (messages : List (ProviderMessage V)) (semantic : List (SemanticMessage V))
      → semanticize serde messages ≡ ok semantic
      → IsConversation semantic
  unfolding semanticize
  semanticize-IsConversation messages semantic h =
      let (read, r, h₁) = >>=-eq-ok (semantic_from serde between messages) _ h in
      let (c, accepted, done) = >>=-eq-ok (map_err conversation (new read)) _ h₁ in
      let valid : new read ≡ ok c = ground (arith, accepted) in
      let (same, grammar) = (new-iff-IsConversation read c).0 valid in
      subst IsConversation (ap (λ c. c.messages) (sym same) ∙ ok-injective done) grammar

  -- What a turn returns for a request, with a budget of attempts.
  pub record IsTurn (request : AgentTurnRequest V) (max_attempts : ℕ) (outcome : ContractOutcome V)
      : Type 0 where
    pub valid : IsConversation outcome.semantic_conversation
    pub some_request : 0 < length outcome.provider_requests
    pub few_requests : length outcome.provider_requests ≤ max_attempts
    pub earlier : List (ProviderMessage V)
    pub last : List (ProviderMessage V)
    pub reads :
        semanticize serde (request.conversation ++ (earlier ++ last))
        ≡ ok outcome.semantic_conversation
    pub answers : Answers outcome.terminal_outcome.final_response last

  -- A turn that returns an outcome has sent at least one request and no more than its budget; its
  -- conversation is a valid one, read from the messages of the request followed by those of the
  -- turn, of which the last is the final response when the outcome has one.
  pub run_turn_with_limit_observed-IsTurn :
      (request : AgentTurnRequest V) (transport : P) (tools : S) (max_attempts : ℕ) (seen : O)
      (outcome : ContractOutcome V)
      → run_turn_with_limit_observed provider broker observer serde request transport tools
          max_attempts seen
        ≡ ok outcome
      → IsTurn request max_attempts outcome
  unfolding run_turn_with_limit_observed first_state
  run_turn_with_limit_observed-IsTurn request transport tools max_attempts seen outcome h =
      let (u₁, budget, h₁) = >>=-eq-ok (guard (not (max_attempts == 0)) _) _ h in
      let (u₂, checked, h₂) = >>=-eq-ok (validate_request request) _ h₁ in
      let (host, made, h₃) = >>=-eq-ok (new_host tools request.execution_scope) _ h₂ in
      let ((turn, ending), looped, h₄) =
        >>=-eq-ok
          (attempts provider broker observer serde request max_attempts max_attempts
            (first_state request host transport seen))
          _ h₃ in
      let (u₃, remaining, h₅) =
        >>=-eq-ok (check_remaining (provider.remaining_attempts turn.provider)) _ h₄ in
      let (semantic, read, done) = >>=-eq-ok (semanticize serde turn.raw_messages) _ h₅ in
      let l = attempts-IsLoop request max_attempts max_attempts _ turn ending looped in
      subst (IsTurn request max_attempts) (ok-injective done) (record {
        valid = semanticize-IsConversation turn.raw_messages semantic read;
        some_request = omega (arith, l.some_request);
        few_requests = omega (arith, l.few_requests);
        earlier = l.earlier;
        last = l.last;
        reads = rw (sym l.grown) read;
        answers = l.ends;
      })
