-- ===== src/Store/Ledger/Approvals.antt =====
-- What `record_approvals` of apps/hermesd/src/adapters/sqlite.rs may write.
use hermes_rs.Prelude.{◌≡◌, ◌⊎◌, String, true, some, List, ok, PartialEq, nat_eq}
use hermes_rs.Domain.Id.{id_eq}
use hermes_rs.Domain.Effect.{
  ToolArguments, ToolEffect, ApprovalRecord, pending, arguments_eq, effect_eq, approval_eq,
}
use hermes_rs.Store.Table.{Codec}
use hermes_rs.Store.Ledger.{EffectRow, find_effect, approve_row, transpose}

-- A pending approval and a decision on it, for the same principal.
pub record IsDecision (before after : ApprovalRecord) : Type 0 where
  pub was_pending : pending before ≡ true
  pub decided : (after.decision ≡ "allow") ⊎ (after.decision ≡ "deny")
  pub same_required : before.required ≡ after.required
  pub same_principal : before.principal ≡ after.principal

module _ {V : Type 0} ⦃e : PartialEq V⦄ (arguments : Codec (ToolArguments V))
    (effects : Codec ToolEffect) (approvals : Codec ApprovalRecord) where
  -- The text is a decision on the approval that is pending in the planned row.
  pub record IsDecided (row : EffectRow) (text : String) : Type 0 where
    pub before : ApprovalRecord
    pub after : ApprovalRecord
    pub planned : row.status ≡ "planned"
    pub stored : transpose approvals.decode row.approval_json ≡ ok (some before)
    pub written : approvals.encode after ≡ ok text
    pub decision : IsDecision before after

  IsJustified : List EffectRow → String × String → Type 0
  IsJustified rows change =
      (row : EffectRow) × (find_effect change.0 rows ≡ some row) × IsDecided row change.1

  -- A row as it was, or with a decision on its pending approval in it and nothing else changed.
  pub data IsResolved (row : EffectRow) : EffectRow → Type 0 where
    unchanged : IsResolved row row
    resolved : (text : String) → IsDecided row text → IsResolved row (approve_row text row)

  Resolves : List EffectRow → List EffectRow → Type 0
  Resolves rows rows' =
      (key : String) (row : EffectRow)
      → find_effect key rows ≡ some row
      → (row' : EffectRow) × (find_effect key rows' ≡ some row') × IsResolved row row'
