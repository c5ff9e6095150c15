-- ===== src/Runtime/Journal/Recorded.antt =====
-- What the ledger of a journaling broker (crates/runtime/src/lib.rs) holds.
use hermes_rs.Prelude.{
  ◌≡◌, String, List, [], ◌∷◌, Result-cases, ok, >>=-eq-ok, map_err, inl, inr, arith, PartialEq, All,
  All-map, All-append, Bool-cases,
}
use hermes_rs.Domain.Id.{InvocationId}
use hermes_rs.Domain.Effect.{ToolCall, PlannedToolCall, ToolTerminal}
use hermes_rs.Runtime.Broker.{ToolBroker}
use hermes_rs.Runtime.Fault.{RuntimeError, tool_broker}
use hermes_rs.Runtime.Host.Identities.{plan_ids}
use hermes_rs.Runtime.Host.Turn.{HostCall, plans, resolves, executes, serve, run}
use hermes_rs.Runtime.Host.{
  ToolHost, plan, execute, resolve_approvals, allocate_invocation_ids, validate_plans,
}
use hermes_rs.Runtime.Journal.{
  EffectLedger, journal_plan, journal_execute, journal_resolve_approvals, had_pending, journaled,
}

-- What is documented of a ledger: a recorded plan can be found, and no call loses one.
pub record IsDurable {V L : Type 0} (ledger : EffectLedger V L) : Type 1 where
  pub Holds : L → InvocationId → Type 0
  pub plans_recorded :
      (l : L) (scope : String) (plans : List (PlannedToolCall V))
      → (ledger.record_plans l scope plans).1 ≡ ok tt
      → All (Holds (ledger.record_plans l scope plans).0) (plan_ids plans)
  pub plans_kept :
      (l : L) (scope : String) (plans : List (PlannedToolCall V)) (id : InvocationId)
      → Holds l id
      → Holds (ledger.record_plans l scope plans).0 id
  pub approvals_kept :
      (l : L) (plans : List (PlannedToolCall V)) (id : InvocationId)
      → Holds l id
      → Holds (ledger.record_approvals l plans).0 id
  pub terminals_kept :
      (l : L) (terminals : List ToolTerminal) (id : InvocationId)
      → Holds l id
      → Holds (ledger.record_terminals l terminals).0 id

module _ {V S L : Type 0} (inner : ToolBroker V S) (ledger : EffectLedger V L)
    (display : RuntimeError → String) (scope : String) where
  journal_plan-ok :
      (s : S) (l : L) (calls : List (ToolCall V)) (ids : List InvocationId)
      (frozen : List (PlannedToolCall V))
      → (journal_plan inner ledger display scope (s, l) calls ids).1 ≡ ok frozen
      → ((inner.plan s calls ids).1 ≡ ok frozen)
        × ((ledger.record_plans l scope frozen).1 ≡ ok tt)
        × ((journal_plan inner ledger display scope (s, l) calls ids).0
            ≡ ((inner.plan s calls ids).0, (ledger.record_plans l scope frozen).0))
  unfolding journal_plan
  journal_plan-ok s l calls ids frozen h = ground arith

module _ {V S L : Type 0} ⦃e : PartialEq V⦄ (inner : ToolBroker V S) (ledger : EffectLedger V L)
    (durable : IsDurable ledger) (display : RuntimeError → String) (scope : String) where
  open durable use {Holds}

  abbrev broker : ToolBroker V (S × L)
  broker = journaled inner ledger display scope

  journal_plan-kept :
      (s : S) (l : L) (calls : List (ToolCall V)) (ids : List InvocationId) (id : InvocationId)
      → Holds l id
      → Holds (journal_plan inner ledger display scope (s, l) calls ids).0.1 id
  unfolding journal_plan
  journal_plan-kept s l calls ids id h = elim (Result-cases (inner.plan s calls ids).1) [
    | inr (f, e) ↦ rw (journal_plan, e) h
    | inl (frozen, e) ↦ elim (Result-cases (validate_plans calls ids frozen)) [
      | inr (f, bad) ↦ rw (journal_plan, e, bad) h
      | inl (u, good) ↦ rw (journal_plan, e, good) (durable.plans_kept l scope frozen id h)
    ]
  ]

  journal_resolve-kept :
      (s : S) (l : L) (frozen : List (PlannedToolCall V)) (id : InvocationId)
      → Holds l id
      → Holds (journal_resolve_approvals inner ledger display scope (s, l) frozen).0.1 id
  unfolding journal_resolve_approvals
  journal_resolve-kept s l frozen id h = elim (Result-cases (inner.resolve_approvals s frozen).1) [
    | inr (f, e) ↦ rw (journal_resolve_approvals, e) h
    | inl (resolved, e) ↦ elim (Bool-cases (had_pending frozen)) [
      | inl some_pending ↦
          rw (journal_resolve_approvals, e, some_pending) (durable.approvals_kept l resolved id h)
      | inr none_pending ↦ rw (journal_resolve_approvals, e, none_pending) h
    ]
  ]

  journal_execute-kept :
      (s : S) (l : L) (frozen : List (PlannedToolCall V)) (id : InvocationId)
      → Holds l id
      → Holds (journal_execute inner ledger display scope (s, l) frozen).0.1 id
  unfolding journal_execute
  journal_execute-kept s l frozen id h = elim (Result-cases (inner.execute s frozen).1) [
    | inr (f, e) ↦ rw (journal_execute, e) h
    | inl (terminals, e) ↦ rw (journal_execute, e) (durable.terminals_kept l terminals id h)
  ]

  plan-kept :
      (host : ToolHost (S × L)) (calls : List (ToolCall V)) (id : InvocationId)
      → Holds host.tools.1 id
      → Holds (plan broker host calls).0.tools.1 id
  unfolding plan journaled
  plan-kept host calls id h =
      elim (Result-cases
        (allocate_invocation_ids host.execution_scope calls host.seen_invocation_ids).1) [
          | inr (f, e) ↦ rw (plan, e) h
          | inl (ids, e) ↦ rw (plan, e) (journal_plan-kept host.tools.0 host.tools.1 calls ids id h)
        ]

  serve-kept :
      (host : ToolHost (S × L)) (call : HostCall V) (id : InvocationId)
      → Holds host.tools.1 id
      → Holds (serve broker host call).0.tools.1 id
  unfolding serve resolve_approvals execute journaled
  serve-kept host (plans calls) id h = plan-kept host calls id h
  serve-kept host (resolves planned) id h =
      journal_resolve-kept host.tools.0 host.tools.1 planned id h
  serve-kept host (executes resolved) id h =
      journal_execute-kept host.tools.0 host.tools.1 resolved id h

  plan-recorded :
      (host : ToolHost (S × L)) (calls : List (ToolCall V)) (planned : List (PlannedToolCall V))
      → (plan broker host calls).1 ≡ ok planned
      → All (Holds (plan broker host calls).0.tools.1) (plan_ids planned)
  unfolding plan journaled
  plan-recorded host calls planned h =
      elim (Result-cases
        (allocate_invocation_ids host.execution_scope calls host.seen_invocation_ids).1) [
          | inr (f, e) ↦ cc (rw (plan, e) at h)
          | inl (ids, e) ↦
              let (answered, passed, rest) =
                >>=-eq-ok
                  (map_err tool_broker
                    (journal_plan inner ledger display scope host.tools calls ids).1)
                  _ (rw (plan, e) at h) in
              let same : answered ≡ planned = ground (arith, rest) in
              let journal : (journal_plan inner ledger display scope host.tools calls ids).1
                  ≡ ok planned =
                ground (arith, passed, same) in
              let (asked, recorded, state) =
                journal_plan-ok inner ledger display scope host.tools.0 host.tools.1 calls ids
                  planned journal in
              let held = durable.plans_recorded host.tools.1 scope planned recorded in
              rw (plan, e, state) held
        ]

  serve-recorded :
      (host : ToolHost (S × L)) (call : HostCall V)
      → All (Holds (serve broker host call).0.tools.1) (serve broker host call).1
  unfolding serve
  serve-recorded host (resolves planned) = tt
  serve-recorded host (executes resolved) = tt
  serve-recorded host (plans calls) = elim (Result-cases (plan broker host calls).1) [
    | inl (planned, e) ↦ rw e (plan-recorded host calls planned e)
    | inr (f, e) ↦ rw e tt
  ]

  -- The host after a sequence of calls.
  unfoldable pub host_after : ToolHost (S × L) → List (HostCall V) → ToolHost (S × L)
  host_after host [] = host
  host_after host (call ∷ calls) = host_after (serve broker host call).0 calls

  after-kept :
      (host : ToolHost (S × L)) (calls : List (HostCall V)) (id : InvocationId)
      → Holds host.tools.1 id
      → Holds (host_after host calls).tools.1 id
  unfolding host_after
  after-kept host [] id h = h
  after-kept host (call ∷ calls) id h =
      after-kept (serve broker host call).0 calls id (serve-kept host call id h)

  -- After any sequence of calls to a host over a journaling broker with a durable ledger, and with
  -- any inner broker, the ledger holds every invocation identity that the calls have handed out.
  pub run-recorded :
      (host : ToolHost (S × L)) (calls : List (HostCall V))
      → All (Holds (host_after host calls).tools.1) (run broker host calls)
  unfolding host_after run
  run-recorded host [] = tt
  run-recorded host (call ∷ calls) =
      All-append _ (serve broker host call).1 _
        (All-map (λ id h. after-kept (serve broker host call).0 calls id h) _
          (serve-recorded host call))
        (run-recorded (serve broker host call).0 calls)
