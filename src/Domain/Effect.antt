-- ===== src/Domain/Effect.antt =====
-- crates/domain/src/effect.rs, and the call and result types of conversation.rs that it uses.
-- `V` is `serde_json::Value`, whose definition is not in the repository.
use hermes_rs.Prelude.{
  ◌≡◌, ◌↔◌, String, Bool, true, ◌&&◌, Option, List, PartialEq, ◌==◌, string_eq, bool_eq,
  bool_beq_iff, list_eq, list_beq_iff, pair_eq, dec_beq, dec_beq_iff, arith,
}
use hermes_rs.Domain.Id.{ToolCallId, InvocationId}

pub record ToolArguments (V : Type 0) : Type 0 where
  pub entries : List (String × V)

pub record ToolCall (V : Type 0) : Type 0 where
  pub id : ToolCallId
  pub name : String
  pub arguments : ToolArguments V

pub data ToolResultStatus : Type 0 where
  succeeded failed cancelled rejected outcome_unknown observed : ToolResultStatus

pub record ToolResult : Type 0 where
  pub call_id : ToolCallId
  pub status : ToolResultStatus
  pub content : String
  pub execution_key : Option String

pub data ToolEffect : Type 0 where
  read_only model_inference local_mutation external_mutation : ToolEffect
  process_control credential_use : ToolEffect

pub record ApprovalRecord : Type 0 where
  pub required : Bool
  pub decision : String
  pub principal : String

unfoldable pub denied : ApprovalRecord → Bool
denied a = a.decision == "deny"

unfoldable pub pending : ApprovalRecord → Bool
pending a = a.decision == "pending"

pub record PlannedToolCall (V : Type 0) : Type 0 where
  pub call_id : ToolCallId
  pub name : String
  pub arguments : ToolArguments V
  pub invocation_id : InvocationId
  pub effect : ToolEffect
  pub approval : Option ApprovalRecord

pub record ToolTerminal : Type 0 where
  pub call_id : ToolCallId
  pub name : String
  pub status : ToolResultStatus
  pub content : String
  pub invocation_id : InvocationId
  pub effect : ToolEffect
  pub receipt : Option String

-- The derived equalities.
unfoldable pub effect_discrete : Discrete ToolEffect
effect_discrete = hlevel

instance abbrev pub effect_eq : PartialEq ToolEffect
effect_eq = record { eq = dec_beq effect_discrete; eq_iff_same = dec_beq_iff effect_discrete }

abbrev pub approval_beq : ApprovalRecord → ApprovalRecord → Bool
approval_beq a b =
    a.required == b.required && a.decision == b.decision && a.principal == b.principal

pub approval_beq_iff : (a b : ApprovalRecord) → (approval_beq a b ≡ true) ↔ (a ≡ b)
approval_beq_iff a b = ground (
  arith,
  bool_beq_iff a.required b.required,
  string_eq.eq_iff_same a.decision b.decision,
  string_eq.eq_iff_same a.principal b.principal,
)

instance abbrev pub approval_eq : PartialEq ApprovalRecord
approval_eq = record { eq = approval_beq; eq_iff_same = approval_beq_iff }

module _ {V : Type 0} ⦃e : PartialEq V⦄ where
  abbrev pub arguments_beq : ToolArguments V → ToolArguments V → Bool
  arguments_beq a b = a.entries == b.entries

  pub arguments_beq_iff : (a b : ToolArguments V) → (arguments_beq a b ≡ true) ↔ (a ≡ b)
  arguments_beq_iff a b = ground (arith, list_beq_iff a.entries b.entries)

instance abbrev pub arguments_eq : {V : Type 0} ⦃e : PartialEq V⦄ → PartialEq (ToolArguments V)
arguments_eq = record { eq = arguments_beq; eq_iff_same = arguments_beq_iff }
