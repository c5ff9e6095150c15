-- ===== src/Runtime/Host/Terminals.antt =====
-- A batch of terminals that `ToolHost::execute` returns, and `order_terminals` on it.
use mathlib.Core.List.{Memᴰ, Mem, Perm}
use mathlib.Core.List.Perm
use mathlib.Core.List.Memᴰ
use hermes_rs.Prelude.{
  ◌≡◌, refl, sym, ap, subst, ◌∙◌, inl, inr, some, Option-cases, List, [], ◌∷◌, length, length-map,
  ok, string_eq, All, All-Memᴰ, Distinct-of_map, nat_beq_iff, arith,
}
use hermes_rs.Prelude.Perms.{Fresh-not_mem, Nodup-Distinct, Distinct-Nodup, perm_of_distinct}
use hermes_rs.Prelude.Maps.{find_last-Memᴰ, find_last-none, find_last_of_mem}
use hermes_rs.Domain.Id.{id_eq}
use hermes_rs.Domain.Effect.{PlannedToolCall, ToolTerminal, effect_eq}
use hermes_rs.Runtime.Broker.{ToolBroker}
use hermes_rs.Runtime.Host.{
  ToolHost, check_terminals, validate_terminals, find_terminal, order_terminals, execute,
}
use hermes_rs.Runtime.Host.Checked.{
  plan_calls, terminal_calls, Answers, AllAnswer, Found, Checked, check_terminals-Checked,
}

module _ {V : Type 0} where
  -- Every plan has its terminal in the batch.
  terminal_of_plan :
      (plans : List (PlannedToolCall V)) (terminals : List ToolTerminal)
      (checked : Checked plans [] terminals)
      → Perm (terminal_calls terminals) (plan_calls plans)
      → (plan : PlannedToolCall V) → Memᴰ plan plans
      → (t : ToolTerminal) × (find_terminal plan.call_id terminals ≡ some t)
        × Memᴰ t terminals
        × Answers plan t
  terminal_of_plan plans terminals checked perm plan listed =
      elim (Option-cases (find_terminal plan.call_id terminals)) [
        | inl missing ↦ absurd (
            Fresh-not_mem (terminal_calls terminals)
              (find_last-none (λ t. t.call_id) plan.call_id terminals missing)
              (Perm.subset (Perm.symm perm) plan.call_id (∣ Memᴰ.map (λ p. p.call_id) listed ∣₁)))
        | inr (t, found) ↦
            let (member, same) = find_last-Memᴰ (λ t. t.call_id) plan.call_id terminals t found in
            let f = All-Memᴰ (Found plans) terminals checked.matched member in
            let distinct = Nodup-Distinct _ (Perm.nodup perm (Distinct-Nodup _ checked.distinct)) in
            let held = find_last_of_mem (λ p. p.call_id) plans plan distinct listed in
            let own : f.plan ≡ plan = cc (f.found, held, same) in
            (
              t,
              found,
              member,
              record {
                same_call = same;
                same_name = cc (f.same_name, own);
                same_invocation = cc (f.same_invocation, own);
                same_effect = cc (f.same_effect, own);
              },
            )
      ]

  -- The terminals that `run_turn` collects for these plans.
  record Ordered (plans : List (PlannedToolCall V)) (terminals : List ToolTerminal) : Type 0 where
    ordered : List ToolTerminal
    collects : order_terminals plans terminals ≡ ok ordered
    answers : AllAnswer plans ordered
    members : All (λ t. Mem t terminals) ordered

  order-Ordered :
      (plans : List (PlannedToolCall V)) (terminals : List ToolTerminal)
      → ((plan : PlannedToolCall V)
          → Memᴰ plan plans
          → (t : ToolTerminal) × (find_terminal plan.call_id terminals ≡ some t)
            × Memᴰ t terminals
            × Answers plan t)
      → Ordered plans terminals
  unfolding order_terminals
  order-Ordered [] terminals each = record {
    ordered = [];
    collects = refl;
    answers = tt;
    members = tt;
  }
  order-Ordered (plan ∷ plans) terminals each =
      let (t, found, member, answer) = each plan (Memᴰ.head refl) in
      let rest = order-Ordered plans terminals (λ p m. each p (Memᴰ.tail m)) in
      record {
        ordered = t ∷ rest.ordered;
        collects = rw (found, rest.collects) refl;
        answers = (answer, rest.answers);
        members = (∣ member ∣₁, rest.members);
      }

  AllAnswer-calls :
      (plans : List (PlannedToolCall V)) (terminals : List ToolTerminal)
      → AllAnswer plans terminals
      → terminal_calls terminals ≡ plan_calls plans
  AllAnswer-calls [] [] h = refl
  AllAnswer-calls [] (_ ∷ _) h = absurd h
  AllAnswer-calls (_ ∷ _) [] h = absurd h
  AllAnswer-calls (p ∷ ps) (t ∷ ts) h = cc (h.0.same_call, AllAnswer-calls ps ts h.1)

  -- What a host guarantees of a batch that it executed: as many terminals as plans, one for each
  -- call, and an order in which they answer the plans one by one.
  pub record IsExecuted (plans : List (PlannedToolCall V)) (terminals : List ToolTerminal)
      : Type 0 where
    pub once : Perm (terminal_calls terminals) (plan_calls plans)
    pub ordered : List ToolTerminal
    pub collects : order_terminals plans terminals ≡ ok ordered
    pub answers : AllAnswer plans ordered
    pub same_terminals : Perm ordered terminals

  Found-within :
      (plans : List (PlannedToolCall V)) (terminals : List ToolTerminal)
      → All (Found plans) terminals
      → All (λ id. Mem id (plan_calls plans)) (terminal_calls terminals)
  Found-within plans [] h = tt
  Found-within plans (t ∷ ts) h =
      let (listed, same) = find_last-Memᴰ (λ p. p.call_id) t.call_id plans h.0.plan h.0.found in
      (
        subst (λ id. Mem id (plan_calls plans)) same (∣ Memᴰ.map (λ p. p.call_id) listed ∣₁),
        Found-within plans ts h.1,
      )

  -- If the check passes, the batch is complete: each call has exactly one terminal, which carries
  -- the name, invocation and effect of its plan, and putting them in the order of the plans succeeds.
  pub validate_terminals-IsExecuted :
      (plans : List (PlannedToolCall V)) (terminals : List ToolTerminal)
      → validate_terminals plans terminals ≡ ok tt
      → IsExecuted plans terminals
  unfolding validate_terminals
  validate_terminals-IsExecuted plans terminals h =
      let same_length : length terminals ≡ length plans =
        ground (arith, nat_beq_iff (length terminals) (length plans)) in
      let checks : check_terminals plans [] terminals ≡ ok tt = ground arith in
      let checked = check_terminals-Checked plans [] terminals checks in
      let once =
        perm_of_distinct (terminal_calls terminals) (plan_calls plans) checked.distinct
          (Found-within plans terminals checked.matched)
          (length-map (λ t. t.call_id) terminals
            ∙ same_length
            ∙ sym (length-map (λ p. p.call_id) plans)) in
      let o = order-Ordered plans terminals (terminal_of_plan plans terminals checked once) in
      let calls = AllAnswer-calls plans o.ordered o.answers in
      let distinct = Nodup-Distinct _ (Perm.nodup once (Distinct-Nodup _ checked.distinct)) in
      record {
        once = once;
        ordered = o.ordered;
        collects = o.collects;
        answers = o.answers;
        same_terminals =
            perm_of_distinct o.ordered terminals
              (Distinct-of_map (λ t. t.call_id) o.ordered (rw calls distinct)) o.members
              (omega (
                arith,
                same_length,
                length-map (λ t. t.call_id) o.ordered,
                length-map (λ p. p.call_id) plans,
                ap length calls,
              ));
      }

  -- So it is for every batch that the host returns from `execute`, whatever the broker.
  pub execute-IsExecuted :
      {S : Type 0} (broker : ToolBroker V S) (host : ToolHost S)
      (resolved : List (PlannedToolCall V)) (completed : List ToolTerminal)
      → (execute broker host resolved).1 ≡ ok completed
      → IsExecuted resolved completed
  unfolding execute
  execute-IsExecuted broker host resolved completed h =
      validate_terminals-IsExecuted resolved completed (ground arith)
