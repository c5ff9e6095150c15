-- ===== src/Runtime/Host/Checked.antt =====
-- What the check of the terminals, one by one, has found when it passes.
use hermes_rs.Prelude.{
  ◌≡◌, ◌↔◌, sym, false, some, List, [], ◌∷◌, map, ok, string_eq, contains, contains-eq-false_iff,
  All, Fresh, Distinct, arith,
}
use hermes_rs.Domain.Id.{ToolCallId, id_eq, id_beq_iff}
use hermes_rs.Domain.Effect.{PlannedToolCall, ToolTerminal, effect_eq}
use hermes_rs.Runtime.Host.{find_plan, check_terminal, check_terminals}

abbrev pub plan_calls : {V : Type 0} → List (PlannedToolCall V) → List ToolCallId
plan_calls = map λ plan. plan.call_id

abbrev pub terminal_calls : List ToolTerminal → List ToolCallId
terminal_calls = map λ terminal. terminal.call_id

-- The terminal is of this plan, which it has not altered.
pub record Answers {V : Type 0} (plan : PlannedToolCall V) (terminal : ToolTerminal) : Type 0 where
  pub same_call : terminal.call_id ≡ plan.call_id
  pub same_name : terminal.name ≡ plan.name
  pub same_invocation : terminal.invocation_id ≡ plan.invocation_id
  pub same_effect : terminal.effect ≡ plan.effect

-- Each plan with its own terminal, in the order of the plans.
abbrev pub AllAnswer : {V : Type 0} → List (PlannedToolCall V) → List ToolTerminal → Type 0
AllAnswer [] [] = Unit
AllAnswer (plan ∷ plans) (terminal ∷ terminals) = Answers plan terminal × AllAnswer plans terminals
AllAnswer [] (_ ∷ _) = ⊥
AllAnswer (_ ∷ _) [] = ⊥

unseen_cons :
    (a : ToolCallId) (actual : List ToolCallId) (terminals : List ToolTerminal)
    → All (λ terminal. Fresh terminal.call_id (a ∷ actual)) terminals
    → Fresh a (terminal_calls terminals) × All (λ terminal. Fresh terminal.call_id actual) terminals
unseen_cons a actual [] h = (tt, tt)
unseen_cons a actual (t ∷ ts) h =
    let (fresh, rest) = unseen_cons a actual ts h.1 in ((λ e. h.0.0 (sym e), fresh), (h.0.1, rest))

module _ {V : Type 0} where
  -- The plan that the hash map holds for the terminal, unaltered.
  pub record Found (plans : List (PlannedToolCall V)) (terminal : ToolTerminal) : Type 0 where
    pub plan : PlannedToolCall V
    pub found : find_plan terminal.call_id plans ≡ some plan
    pub same_name : terminal.name ≡ plan.name
    pub same_invocation : terminal.invocation_id ≡ plan.invocation_id
    pub same_effect : terminal.effect ≡ plan.effect

  check_terminal_iff :
      (plan : PlannedToolCall V) (terminal : ToolTerminal)
      → (check_terminal plan terminal ≡ ok tt) ↔ (
          (terminal.name ≡ plan.name)
          × (terminal.invocation_id ≡ plan.invocation_id)
          × (terminal.effect ≡ plan.effect))
  unfolding check_terminal
  check_terminal_iff plan terminal = ground (
    arith,
    string_eq.eq_iff_same terminal.name plan.name,
    id_beq_iff terminal.invocation_id plan.invocation_id,
    effect_eq.eq_iff_same terminal.effect plan.effect,
  )

  pub record Checked (plans : List (PlannedToolCall V)) (actual : List ToolCallId)
      (terminals : List ToolTerminal) : Type 0 where
    pub matched : All (Found plans) terminals
    pub distinct : Distinct (terminal_calls terminals)
    pub unseen : All (λ terminal. Fresh terminal.call_id actual) terminals

  check_terminals-cons :
      (plans : List (PlannedToolCall V)) (actual : List ToolCallId) (t : ToolTerminal)
      (ts : List ToolTerminal)
      → check_terminals plans actual (t ∷ ts) ≡ ok tt
      → (plan : PlannedToolCall V) × (find_plan t.call_id plans ≡ some plan)
        × (check_terminal plan t ≡ ok tt)
        × (contains t.call_id actual ≡ false)
        × (check_terminals plans (t.call_id ∷ actual) ts ≡ ok tt)
  unfolding check_terminals
  check_terminals-cons plans actual t ts h = ground arith

  pub check_terminals-Checked :
      (plans : List (PlannedToolCall V)) (actual : List ToolCallId) (terminals : List ToolTerminal)
      → check_terminals plans actual terminals ≡ ok tt
      → Checked plans actual terminals
  check_terminals-Checked plans actual [] h = record { matched = tt; distinct = tt; unseen = tt }
  check_terminals-Checked plans actual (t ∷ ts) h =
      let (plan, found, same, free, rest) = check_terminals-cons plans actual t ts h in
      let (name, invocation, effect) = (check_terminal_iff plan t).0 same in
      let c = check_terminals-Checked plans (t.call_id ∷ actual) ts rest in
      let (fresh, unseen) = unseen_cons t.call_id actual ts c.unseen in
      record {
        matched = (
          record {
            plan = plan;
            found = found;
            same_name = name;
            same_invocation = invocation;
            same_effect = effect;
          },
          c.matched,
        );
        distinct = (fresh, c.distinct);
        unseen = ((contains-eq-false_iff t.call_id actual).0 free, unseen);
      }
