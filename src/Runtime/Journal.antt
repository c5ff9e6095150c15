-- ===== src/Runtime/Journal.antt =====
-- `JournaledToolBroker` of crates/runtime/src/lib.rs, over the trait `EffectLedger` of
-- crates/ports/src/lib.rs: a broker that records plans before they can be dispatched, approvals when
-- there was one to resolve, and terminals. Its state is the inner broker's and the ledger's. `display`
-- is the text of a `RuntimeError`.
pub mod Recorded
mod Tests
use Prim.Native.String
use hermes_rs.Prelude.{
  String, Bool, true, false, not, ◌||◌, Option, none, some, List, [], ◌∷◌, Result, ok, err, ◌>>=◌,
  ◌>>◌, map_err, if◌then◌else◌,
}
use hermes_rs.Prelude.Text.{is_empty}
use hermes_rs.Domain.Id.{InvocationId}
use hermes_rs.Domain.Effect.{ToolCall, PlannedToolCall, ToolTerminal, pending}
use hermes_rs.Runtime.Broker.{ToolBroker}
use hermes_rs.Runtime.Fault.{RuntimeError, ToolBrokerError}
use hermes_rs.Runtime.Host.{validate_plans}

pub data EffectLedgerError : Type 0 where
  already_recorded missing_plan plan_mismatch : String → EffectLedgerError
  already_terminal invalid storage : String → EffectLedgerError

-- The text of such an error.
unfoldable pub ledger_message : EffectLedgerError → String
ledger_message (already_recorded s) = String.◌++◌ "effect execution key is already recorded: " s
ledger_message (missing_plan s) = String.◌++◌ "effect execution key has no durable plan: " s
ledger_message (plan_mismatch s) = String.◌++◌ "effect terminal does not match its durable plan: " s
ledger_message (already_terminal s) =
    String.◌++◌ "effect execution key already has a terminal disposition: " s
ledger_message (invalid s) = String.◌++◌ "invalid effect ledger state: " s
ledger_message (storage s) = String.◌++◌ "effect ledger storage failed: " s

-- The calls that the journal makes; each may change the ledger, of type `L`.
pub record EffectLedger (V L : Type 0) : Type 0 where
  pub record_plans : L → String → List (PlannedToolCall V) → L × Result EffectLedgerError (Unit {0})
  pub record_approvals : L → List (PlannedToolCall V) → L × Result EffectLedgerError (Unit {0})
  pub record_terminals : L → List ToolTerminal → L × Result EffectLedgerError (Unit {0})

-- The journal cannot be made for an empty scope.
unfoldable pub check_scope : String → Result ToolBrokerError String
check_scope execution_scope =
    if is_empty execution_scope
    then err (record { message = "journal execution scope must be non-empty" })
    else ok execution_scope

abbrev pub is_pending : {V : Type 0} → PlannedToolCall V → Bool
is_pending call = elim call.approval [ none ↦ false | some approval ↦ pending approval ]

unfoldable pub had_pending : {V : Type 0} → List (PlannedToolCall V) → Bool
had_pending [] = false
had_pending (call ∷ calls) = is_pending call || had_pending calls

abbrev pub ledger_error : EffectLedgerError → ToolBrokerError
ledger_error e = record { message = ledger_message e }

module _ {V S L : Type 0} (inner : ToolBroker V S) (ledger : EffectLedger V L)
    (display : RuntimeError → String) (execution_scope : String) where
  unfoldable pub journal_plan :
      S × L
      → List (ToolCall V)
      → List InvocationId
      → (S × L) × Result ToolBrokerError (List (PlannedToolCall V))
  journal_plan (s, l) calls invocation_ids =
      let (s', answer) = inner.plan s calls invocation_ids in
      elim answer [
        | err e ↦ ((s', l), err e)
        | ok plans ↦ elim (validate_plans calls invocation_ids plans) [
          | err e ↦ ((s', l), err (record { message = display e }))
          | ok _ ↦
              let (l', recorded) = ledger.record_plans l execution_scope plans in
              ((s', l'), do map_err ledger_error recorded; ok plans)
        ]
      ]

  unfoldable pub journal_resolve_approvals :
      S × L → List (PlannedToolCall V) → (S × L) × Result ToolBrokerError (List (PlannedToolCall V))
  journal_resolve_approvals (s, l) calls =
      let (s', answer) = inner.resolve_approvals s calls in
      elim answer [
        | err e ↦ ((s', l), err e)
        | ok resolved ↦
            let (l', recorded) = ledger.record_approvals l resolved in
            if had_pending calls
            then ((s', l'), do map_err ledger_error recorded; ok resolved)
            else ((s', l), ok resolved)
      ]

  unfoldable pub journal_execute :
      S × L → List (PlannedToolCall V) → (S × L) × Result ToolBrokerError (List ToolTerminal)
  journal_execute (s, l) calls =
      let (s', answer) = inner.execute s calls in
      elim answer [
        | err e ↦ ((s', l), err e)
        | ok terminals ↦
            let (l', recorded) = ledger.record_terminals l terminals in
            ((s', l'), do map_err ledger_error recorded; ok terminals)
      ]

  unfoldable pub journaled : ToolBroker V (S × L)
  journaled = record {
    plan = journal_plan;
    resolve_approvals = journal_resolve_approvals;
    execute = journal_execute;
  }
