-- ===== src/Domain/Delegation.antt =====
-- crates/domain/src/delegation.rs, and the snapshot and completion of crates/protocol/src/delegation.rs.
use hermes_rs.Prelude.{ℕ, String, Bool, true, false, Option}
use hermes_rs.Domain.Id.{
  OpaqueId, AuthorityCounter, delegation, completion_event, session, delegation_worker,
  delivery_claim, owner_generation, fencing_token,
}

abbrev pub DelegationId : Type 0
DelegationId = OpaqueId delegation

abbrev pub CompletionEventId : Type 0
CompletionEventId = OpaqueId completion_event

abbrev pub SessionId : Type 0
SessionId = OpaqueId session

abbrev pub DelegationWorkerId : Type 0
DelegationWorkerId = OpaqueId delegation_worker

abbrev pub DeliveryClaimId : Type 0
DeliveryClaimId = OpaqueId delivery_claim

abbrev pub OwnerGeneration : Type 0
OwnerGeneration = AuthorityCounter owner_generation

abbrev pub FencingToken : Type 0
FencingToken = AuthorityCounter fencing_token

pub record DelegationAuthority : Type 0 where
  pub owner_generation : OwnerGeneration
  pub fencing_token : FencingToken

pub record DelegationCancellation : Type 0 where
  pub reason : String
  pub requested_at_ms : ℕ

pub record DelegationSpec : Type 0 where
  pub delegation_id : DelegationId
  pub completion_event_id : CompletionEventId
  pub parent_session_id : SessionId
  pub child_session_id : SessionId
  pub goal : String
  pub context : Option String

pub data DelegationTerminal : Type 0 where
  completed failed cancelled outcome_unknown : String → DelegationTerminal

-- `DelegationTerminal::status_name`
unfoldable pub terminal_name : DelegationTerminal → String
terminal_name (completed _) = "completed"
terminal_name (failed _) = "failed"
terminal_name (cancelled _) = "cancelled"
terminal_name (outcome_unknown _) = "outcome_unknown"

pub data DelegationState : Type 0 where
  pending : DelegationState
  running : DelegationWorkerId → FencingToken → ℕ → Option DelegationCancellation → DelegationState
  terminal : DelegationTerminal → ℕ → DelegationState

unfoldable pub is_terminal : DelegationState → Bool
is_terminal (terminal _ _) = true
is_terminal _ = false

pub record DelegationSnapshot : Type 0 where
  pub spec : DelegationSpec
  pub owner_generation : OwnerGeneration
  pub state : DelegationState
  pub created_at_ms : ℕ
  pub updated_at_ms : ℕ

pub record DelegationCompletion : Type 0 where
  pub event_id : CompletionEventId
  pub delegation_id : DelegationId
  pub spec : DelegationSpec
  pub outcome : DelegationTerminal
  pub completed_at_ms : ℕ
