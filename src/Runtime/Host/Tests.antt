-- ===== src/Runtime/Host/Tests.antt =====
-- A broker that answers in the reverse order.
use hermes_rs.Prelude.{
  ℕ, ◌≡◌, ◌↔◌, refl, String, true, none, some, List, [], ◌∷◌, ◌++◌, map, ok, err, nat_eq, contains,
  traverse, Distinct, All, Fresh,
}
use hermes_rs.Prelude.Text.{trim}
use hermes_rs.Prelude.Maps.{find_last}
use hermes_rs.Domain.Id.{InvocationId, new_id}
use hermes_rs.Domain.Effect.{
  ToolCall, PlannedToolCall, ToolTerminal, succeeded, local_mutation, effect_discrete,
  ApprovalRecord, pending,
}
use hermes_rs.Runtime.Broker.{ToolBroker}
use hermes_rs.Runtime.Fault.{invalid_turn, reused_call_id, terminals_not_once}
use hermes_rs.Runtime.Host.{
  ToolHost, allocate_invocation_ids, validate_plans, check_approval, check_resolved,
  check_all_resolved, validate_approval_resolution, check_terminal, check_terminals,
  validate_terminals, order_terminals, plan, resolve_approvals, execute,
}
use hermes_rs.Runtime.Host.Identities.{IsPlanned, plan-IsPlanned, plan_ids}
use hermes_rs.Runtime.Host.Turn.{HostCall, plans, resolves, executes, serve, run, run-Distinct}
use hermes_rs.Runtime.Host.Approvals.{
  AllResolve, IsSettled, validate_approval_resolution_iff, resolve_approvals-settles,
}
use hermes_rs.Runtime.Host.Terminals.{IsExecuted, execute-IsExecuted}

abbrev asked : ApprovalRecord
asked = record { required = true; decision = "pending"; principal = "user" }

abbrev make_plan : ToolCall ℕ → InvocationId → PlannedToolCall ℕ
make_plan call id = record {
  call_id = call.id;
  name = call.name;
  arguments = call.arguments;
  invocation_id = id;
  effect = local_mutation;
  approval = some asked;
}

abbrev make_plans : List (ToolCall ℕ) → List InvocationId → List (PlannedToolCall ℕ)
make_plans (call ∷ calls) (id ∷ ids) = make_plan call id ∷ make_plans calls ids
make_plans _ _ = []

abbrev allow : PlannedToolCall ℕ → PlannedToolCall ℕ
allow plan = record plan { approval = some (record asked { decision = "allow" }) }

abbrev finish : PlannedToolCall ℕ → ToolTerminal
finish plan = record {
  call_id = plan.call_id;
  name = plan.name;
  status = succeeded;
  content = "done";
  invocation_id = plan.invocation_id;
  effect = plan.effect;
  receipt = none;
}

abbrev backwards : List ToolTerminal → List ToolTerminal
backwards [] = []
backwards (t ∷ ts) = backwards ts ++ t ∷ []

-- The broker counts its calls.
abbrev broker : ToolBroker ℕ ℕ
broker = record {
  plan = λ n calls ids. (n, ok (make_plans calls ids));
  resolve_approvals = λ n plans. (n, ok (map allow plans));
  execute = λ n plans. (n, ok (backwards (map finish plans)));
}

abbrev host : ToolHost ℕ
host = record { tools = 0; execution_scope = "turn"; seen_invocation_ids = [] }

abbrev call : String → ToolCall ℕ
call id = record {
  id = record { value = id };
  name = "edit";
  arguments = record { entries = ("n", 1) ∷ [] };
}

abbrev calls : List (ToolCall ℕ)
calls = call "a" ∷ call "b" ∷ []

abbrev planned : List (PlannedToolCall ℕ)
planned = make_plans calls (record { value = "turn:a" } ∷ record { value = "turn:b" } ∷ [])

abbrev resolved : List (PlannedToolCall ℕ)
resolved = map allow planned

abbrev completed : List ToolTerminal
completed = backwards (map finish planned)

code : Unit {0}
unfolding allocate_invocation_ids new_id trim contains validate_plans pending check_approval
    check_resolved check_all_resolved validate_approval_resolution check_terminal check_terminals
    find_last validate_terminals order_terminals traverse plan resolve_approvals execute serve run
    effect_discrete
code = tt

plans_ok : (plan broker host calls).1 ≡ ok planned
unfolding code
plans_ok = refl

reuse_fails :
    (plan broker (plan broker host calls).0 (call "c" ∷ call "b" ∷ [])).1
    ≡ err (invalid_turn (reused_call_id (record { value = "b" })))
unfolding code
reuse_fails = refl

resolves_ok : (resolve_approvals broker host planned).1 ≡ ok resolved
unfolding code
resolves_ok = refl

executes_ok : (execute broker host resolved).1 ≡ ok completed
unfolding code
executes_ok = refl

reorders : order_terminals resolved completed ≡ ok (map finish planned)
unfolding code
reorders = refl

repeats_fail :
    validate_terminals resolved (
      finish (make_plan (call "a") (record { value = "turn:a" }))
      ∷ finish (make_plan (call "a") (record { value = "turn:a" }))
      ∷ [])
    ≡ err (invalid_turn terminals_not_once)
unfolding code
repeats_fail = refl

abbrev turn : List (HostCall ℕ)
turn = plans calls ∷ resolves planned ∷ executes resolved ∷ plans calls ∷ plans (call "c" ∷ []) ∷ []

plan-IsPlanned_example : IsPlanned host (plan broker host calls).0 calls planned
plan-IsPlanned_example = plan-IsPlanned broker host calls planned plans_ok

run-Distinct_example :
    Distinct (run broker host turn) × All (λ id. Fresh id []) (run broker host turn)
run-Distinct_example = run-Distinct broker host turn

run_issues : map (λ id. id.value) (run broker host turn) ≡ "turn:a" ∷ "turn:b" ∷ "turn:c" ∷ []
unfolding code
run_issues = refl

validate_approval_resolution_iff_example :
    (validate_approval_resolution planned resolved ≡ ok tt) ↔ AllResolve planned resolved
validate_approval_resolution_iff_example = validate_approval_resolution_iff planned resolved

resolve_approvals-settles_example :
    AllResolve planned resolved
    × (plan_ids resolved ≡ plan_ids planned)
    × All (λ r. IsSettled r.approval) resolved
resolve_approvals-settles_example =
    resolve_approvals-settles broker host planned resolved resolves_ok

execute-IsExecuted_example : IsExecuted resolved completed
execute-IsExecuted_example = execute-IsExecuted broker host resolved completed executes_ok
