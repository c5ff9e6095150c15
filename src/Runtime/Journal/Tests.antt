-- ===== src/Runtime/Journal/Tests.antt =====
-- A ledger that keeps the identities of the recorded plans.
use mathlib.Core.List.{Memᴰ}
use hermes_rs.Prelude.{ℕ, refl, String, none, List, [], ◌∷◌, ◌++◌, ok, nat_eq, All, All-map}
use hermes_rs.Domain.Id.{InvocationId}
use hermes_rs.Domain.Effect.{ToolCall, PlannedToolCall, read_only}
use hermes_rs.Runtime.Broker.{ToolBroker}
use hermes_rs.Runtime.Host.{ToolHost}
use hermes_rs.Runtime.Host.Identities.{plan_ids}
use hermes_rs.Runtime.Host.Turn.{HostCall, plans, resolves, run}
use hermes_rs.Runtime.Journal.{EffectLedger, journaled}
use hermes_rs.Runtime.Journal.Recorded.{IsDurable, host_after, run-recorded}

abbrev listing : EffectLedger ℕ (List InvocationId)
listing = record {
  record_plans = λ l scope plans. (plan_ids plans ++ l, ok tt);
  record_approvals = λ l plans. (l, ok tt);
  record_terminals = λ l terminals. (l, ok tt);
}

listed : (xs ys : List InvocationId) → All (λ x. Memᴰ x (xs ++ ys)) xs
listed [] ys = tt
listed (x ∷ xs) ys = (Memᴰ.head refl, All-map (λ y m. Memᴰ.tail m) xs (listed xs ys))

still_listed : (xs ys : List InvocationId) (y : InvocationId) → Memᴰ y ys → Memᴰ y (xs ++ ys)
still_listed [] ys y m = m
still_listed (x ∷ xs) ys y m = Memᴰ.tail (still_listed xs ys y m)

listing-IsDurable : IsDurable listing
listing-IsDurable = record {
  Holds = λ l id. Memᴰ id l;
  plans_recorded = λ l scope plans h. listed (plan_ids plans) l;
  plans_kept = λ l scope plans id m. still_listed (plan_ids plans) l id m;
  approvals_kept = λ l plans id m. m;
  terminals_kept = λ l terminals id m. m;
}

abbrev make_plan : ToolCall ℕ → InvocationId → PlannedToolCall ℕ
make_plan call id = record {
  call_id = call.id;
  name = call.name;
  arguments = call.arguments;
  invocation_id = id;
  effect = read_only;
  approval = none;
}

abbrev make_plans : List (ToolCall ℕ) → List InvocationId → List (PlannedToolCall ℕ)
make_plans (call ∷ calls) (id ∷ ids) = make_plan call id ∷ make_plans calls ids
make_plans _ _ = []

abbrev planner : ToolBroker ℕ (Unit {0})
planner = record {
  plan = λ s calls ids. (s, ok (make_plans calls ids));
  resolve_approvals = λ s plans. (s, ok plans);
  execute = λ s plans. (s, ok []);
}

abbrev host : ToolHost (Unit {0} × List InvocationId)
host = record { tools = (tt, []); execution_scope = "turn"; seen_invocation_ids = [] }

abbrev call : String → ToolCall ℕ
call id = record { id = record { value = id }; name = "look"; arguments = record { entries = [] } }

abbrev calls : List (HostCall ℕ)
calls = plans (call "a" ∷ call "b" ∷ []) ∷ plans (call "c" ∷ []) ∷ resolves [] ∷ []

run-recorded_example :
    All
      (λ id.
        Memᴰ id
          (host_after planner listing listing-IsDurable (λ e. "refused") "turn" host calls).tools.1)
      (run (journaled planner listing (λ e. "refused") "turn") host calls)
unfolding listing-IsDurable
run-recorded_example =
    run-recorded planner listing listing-IsDurable (λ e. "refused") "turn" host calls
