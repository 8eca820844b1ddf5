-- ===== src/Contracts/Governance.antt =====
-- The artifact and governance requests and responses of internal/communication/contracts/types.go,
-- and the operator commands of control_commands.go.
use touch_connect.Prelude.{ℕ, ℤ, String, Bool, List}

pub record ArtifactVersionRequest : Type 0 where
  pub endpoint_ref : String
  pub artifact_ref : String
  pub artifact_version_ref : String
  pub room_ref : String
  pub task_ref : String
  pub task_revision : ℤ
  pub kind : String
  pub media_type : String
  pub size_bytes : ℤ
  pub checksum : String
  pub storage_ref : String
  pub retention_class : String
  pub access_scope : String
  pub based_on_message_refs : List String
  pub based_on_artifact_version_refs : List String

pub record ArtifactVersionResponse : Type 0 where
  pub artifact_ref : String
  pub artifact_version_ref : String
  pub attempt_ref : String
  pub message_ref : String
  pub created_by_endpoint_ref : String
  pub created_at : String

pub record ApprovalDecisionRequest : Type 0 where
  pub approval_ref : String
  pub target_type : String
  pub target_ref : String
  pub requested_by_actor_id : String
  pub approver_subjects_or_roles : List String
  pub approval_scope : String
  pub approval_hash : String
  pub status : String
  pub reason : String
  pub expires_at : String
  pub decided_by_actor_id : String
  pub decision_note : String

pub record ApprovalDecisionResponse : Type 0 where
  pub approval_ref : String
  pub attempt_ref : String
  pub status : String
  pub approval_hash : String
  pub decided_by_actor_id : String
  pub decided_at : String

pub record SideEffectExecutionRequest : Type 0 where
  pub endpoint_ref : String
  pub idempotency_key : String
  pub protected_scope : String
  pub approval_ref : String
  pub approval_hash : String
  pub task_ref : String
  pub operation_kind : String
  pub external_target : String
  pub requested_by_actor_id : String

pub record SideEffectExecutionResponse : Type 0 where
  pub side_effect_execution_ref : String
  pub attempt_ref : String
  pub status : String
  pub deduped : Bool
  pub started_at : String

pub record CompleteSideEffectExecutionRequest : Type 0 where
  pub endpoint_ref : String
  pub status : String
  pub result_ref : String
  pub failure_reason_code : String

pub record CompleteSideEffectExecutionResponse : Type 0 where
  pub side_effect_execution_ref : String
  pub status : String
  pub completed_at : String

pub record TaskCommandRequest : Type 0 where
  pub task_ref : String
  pub reason : String

pub record TaskCommandResponse : Type 0 where
  pub task_ref : String
  pub state : String
  pub message_refs : List String
  pub attempt_refs : List String
  pub affected_messages : ℕ
  pub affected_attempts : ℕ

pub record DlqReplayRequest : Type 0 where
  pub dead_letter_ref : String
  pub reason : String

pub record DlqReplayResponse : Type 0 where
  pub dead_letter_ref : String
  pub original_ref : String
  pub message_ref : String
  pub delivery_ref : String
  pub state : String

pub record ArtifactFinalizeRequest : Type 0 where
  pub artifact_version_ref : String
  pub actor_id : String
  pub reason : String

pub record ArtifactFinalizeResponse : Type 0 where
  pub artifact_version_ref : String
  pub finalization_ref : String
  pub state : String
  pub finalized_by_actor_id : String
  pub finalized_at : String
  pub deduped : Bool
