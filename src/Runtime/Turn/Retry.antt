-- ===== src/Runtime/Turn/Retry.antt =====
-- When the loop goes on to another attempt.
use hermes_rs.Prelude.{
  ◌≡◌, ◌≢◌, refl, String, true, false, not, ◌&&◌, Option, none, some, List, [], ◌∷◌, ok, ◌>>=◌,
  >>=-eq-ok, map, ok-injective, PartialEq, ◌⊎◌, inl, inr, arith, Bool-cases, ap, sym,
}
use hermes_rs.Runtime.Message.{ProviderEvent, Json}
use hermes_rs.Runtime.Broker.{ToolBroker}
use hermes_rs.Runtime.Calls.{Entries}
use hermes_rs.Runtime.Turn.{RuntimeEventObserver, PublicEvent, Provider, ProviderAttempt, push}
use hermes_rs.Runtime.Turn.Attempt.{
  Attempt, AttemptTerminal, completed, error, cancelled, malformed, receive_all,
}
use hermes_rs.Runtime.Turn.Received.{any_visible, receive_all-IsReceived}
use hermes_rs.Runtime.Turn.Loop.{answer, use_tools, settle}
use hermes_rs.Runtime.Turn.State.{TurnState, Flow, continue, falls_back}

module _ {V S P O : Type 0} ⦃e : PartialEq V⦄ (provider : Provider V P) (broker : ToolBroker V S)
    (observer : RuntimeEventObserver V O) (serde : Json V) where
  -- The attempt failed, nothing of it was shown, and nothing of it goes into the conversation.
  pub record IsSilent (turn turn' : TurnState V S P O) (attempt : ProviderAttempt V)
      (a : Attempt V O) : Type 0 where
    pub reason : String
    pub failed : a.terminal ≡ some (error reason)
    pub policy : falls_back attempt.error_policy ≡ true
    pub events : List (ProviderEvent V)
    pub all : attempt.events ≡ map ok events
    pub unseen : any_visible events ≡ false
    pub messages : turn'.raw_messages ≡ turn.raw_messages

  -- The attempt was completed and asked for tools.
  pub record IsTools (a : Attempt V O) : Type 0 where
    pub finish : String
    pub raw : Option V
    pub completes : a.terminal ≡ some (completed finish raw)
    pub calls : a.partial_calls ≢ []

  logged :
      (turn : TurnState V S P O) (event : PublicEvent V) (flow : Flow)
      (after : TurnState V S P O × Flow)
      → (push observer turn.log event >>= λ log. ok (record turn { log = log }, flow)) ≡ ok after
      → (flow ≡ after.1) × (after.0.raw_messages ≡ turn.raw_messages)
  logged turn event flow after h =
      let (log, pushed, done) = >>=-eq-ok (push observer turn.log event) _ h in
      let same = ok-injective done in (ap (λ p. p.1) same, ap (λ p. p.0.raw_messages) (sym same))

  settle-continue :
      (turn turn' : TurnState V S P O) (attempt : ProviderAttempt V) (a : Attempt V O)
      (terminal : Option (AttemptTerminal V)) (calls : Entries)
      → a.terminal ≡ terminal
      → a.partial_calls ≡ calls
      → settle provider broker observer serde turn attempt a ≡ ok (turn', continue)
      → IsTools a
        ⊎ ((reason : String) × (a.terminal ≡ some (error reason))
            × (falls_back attempt.error_policy ≡ true)
            × (a.visible_output ≡ false)
            × (turn'.raw_messages ≡ turn.raw_messages))
  unfolding settle answer use_tools
  settle-continue turn turn' attempt a none calls t p h =
      cc ((logged turn _ _ (turn', continue) (rw t at h)).0)
  settle-continue turn turn' attempt a (some (cancelled reason)) calls t p h =
      cc ((logged turn _ _ (turn', continue) (rw t at h)).0)
  settle-continue turn turn' attempt a (some (malformed reason)) calls t p h =
      cc ((logged turn _ _ (turn', continue) (rw t at h)).0)
  settle-continue turn turn' attempt a (some (error reason)) calls t p h =
      elim (Bool-cases (falls_back attempt.error_policy && not a.visible_output)) [
        | inl again ↦
            let (flow, same) = logged turn _ _ (turn', continue) (rw (t, again) at h) in
            inr (reason, t, ground (arith, again), ground (arith, again), same)
        | inr over ↦ cc ((logged turn _ _ (turn', continue) (rw (t, over) at h)).0)
      ]
  settle-continue turn turn' attempt a (some (completed finish data')) [] t p h =
      let (log, pushed, done) = >>=-eq-ok (push observer turn.log _) _ (rw (t, p) at h) in
      cc (ap (λ p. p.1) (ok-injective done))
  settle-continue turn turn' attempt a (some (completed finish data')) (_ ∷ _) t p h =
      inl (record { finish = finish; raw = data'; completes = t; calls = λ none. cc (p, none) })

  -- After an attempt whose events were received into fresh variables, the loop goes on only when the
  -- attempt completed and asked for tools, or when its terminal event was an error under the fallback
  -- policy and none of its events was visible; in the second case the conversation is unchanged.
  pub settle-IsSilent :
      (turn turn' : TurnState V S P O) (attempt : ProviderAttempt V) (fresh a : Attempt V O)
      → fresh.visible_output ≡ false
      → receive_all observer attempt.attempt_id fresh attempt.events ≡ ok a
      → settle provider broker observer serde turn attempt a ≡ ok (turn', continue)
      → IsTools a ⊎ IsSilent turn turn' attempt a
  settle-IsSilent turn turn' attempt fresh a unseen received h =
      let (events, all, r) =
        receive_all-IsReceived observer attempt.attempt_id fresh attempt.events a received in
      elim (settle-continue turn turn' attempt a a.terminal a.partial_calls refl refl h) [
        | inl tools ↦ inl tools
        | inr (reason, fails, policy, invisible, same) ↦ inr (record {
          reason = reason;
          failed = fails;
          policy = policy;
          events = events;
          all = all;
          unseen = ground (arith, r.visible, unseen, invisible);
          messages = same;
        })
      ]
