-- ===== src/Runtime/Host/Turn.antt =====
-- All the calls that a turn makes to its host, in any order and with any broker.
use hermes_rs.Prelude.{
  ◌≡◌, refl, subst, List, [], ◌∷◌, ◌++◌, inl, inr, Result, Result-cases, ok, err, PartialEq, All,
  All-append, All-map, Fresh, Distinct, Distinct-append,
}
use hermes_rs.Domain.Id.{InvocationId}
use hermes_rs.Domain.Effect.{ToolCall, PlannedToolCall}
use hermes_rs.Runtime.Broker.{ToolBroker}
use hermes_rs.Runtime.Fault.{RuntimeError}
use hermes_rs.Runtime.Host.{ToolHost, plan, resolve_approvals, execute}
use hermes_rs.Runtime.Host.Identities.{
  insert_all, Fresh-insert_all, plan_ids, plan-IsPlanned, plan-grows,
}

pub data HostCall (V : Type 0) : Type 0 where
  plans : List (ToolCall V) → HostCall V
  resolves executes : List (PlannedToolCall V) → HostCall V

-- The identities that a call hands out: those of the plans that it returns.
abbrev pub handed_out :
    {V : Type 0} → Result RuntimeError (List (PlannedToolCall V)) → List InvocationId
handed_out (ok planned) = plan_ids planned
handed_out (err e) = []

module _ {V S : Type 0} ⦃e : PartialEq V⦄ (broker : ToolBroker V S) where
  unfoldable pub serve : ToolHost S → HostCall V → ToolHost S × List InvocationId
  serve host (plans calls) =
      let (host', answer) = plan broker host calls in (host', handed_out answer)
  serve host (resolves planned) = ((resolve_approvals broker host planned).0, [])
  serve host (executes resolved) = ((execute broker host resolved).0, [])

  unfoldable pub run : ToolHost S → List (HostCall V) → List InvocationId
  run host [] = []
  run host (call ∷ calls) = let (host', ids) = serve host call in ids ++ run host' calls

  record Serves (host after : ToolHost S) (ids : List InvocationId) : Type 0 where
    more : List InvocationId
    grown : after.seen_invocation_ids ≡ insert_all more (insert_all ids host.seen_invocation_ids)
    unseen : All (λ id. Fresh id host.seen_invocation_ids) ids
    distinct : Distinct ids

  serve-Serves :
      (host : ToolHost S) (call : HostCall V) → Serves host (serve host call).0 (serve host call).1
  unfolding serve resolve_approvals execute
  serve-Serves host (resolves planned) = record {
    more = [];
    grown = refl;
    unseen = tt;
    distinct = tt;
  }
  serve-Serves host (executes resolved) = record {
    more = [];
    grown = refl;
    unseen = tt;
    distinct = tt;
  }
  serve-Serves host (plans calls) = elim (Result-cases (plan broker host calls).1) [
    | inl (planned, e) ↦
        let p = plan-IsPlanned broker host calls planned e in
        rw e (record {
          more = [];
          grown = p.grown;
          unseen = p.issued.unseen;
          distinct = p.issued.distinct;
        })
    | inr (f, e) ↦
        let (ids, grown) = plan-grows broker host calls in
        rw e (record { more = ids; grown = grown; unseen = tt; distinct = tt })
  ]

  later_unseen :
      (host : ToolHost S) (call : HostCall V) (id : InvocationId)
      → Fresh id (serve host call).0.seen_invocation_ids
      → Fresh id (serve host call).1 × Fresh id host.seen_invocation_ids
  later_unseen host call id h =
      let s = serve-Serves host call in
      let grown = subst (Fresh id) s.grown h in
      (Fresh-insert_all id (serve host call).1 host.seen_invocation_ids).0
        ((Fresh-insert_all id s.more _).0 grown).1

  -- However the turn calls its host, and whatever the broker answers, no invocation identity is
  -- handed out twice, and none that was taken before the turn's calls.
  pub run-Distinct :
      (host : ToolHost S) (calls : List (HostCall V))
      → Distinct (run host calls) × All (λ id. Fresh id host.seen_invocation_ids) (run host calls)
  unfolding run
  run-Distinct host [] = (tt, tt)
  run-Distinct host (call ∷ calls) =
      let s = serve-Serves host call in
      let (distinct, unseen) = run-Distinct (serve host call).0 calls in
      let later = All-map (later_unseen host call) (run (serve host call).0 calls) unseen in
      (
        Distinct-append (serve host call).1 _ s.distinct distinct (All-map (λ id h. h.0) _ later),
        All-append _ (serve host call).1 _ s.unseen (All-map (λ id h. h.1) _ later),
      )
