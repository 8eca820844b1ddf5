-- ===== src/Domain/Model.antt =====
-- The records of tc-server/internal/domain/model.go. A time is a number of nanoseconds since Go's
-- zero time; the counters are unbounded.
use touch_connect.Prelude.{ℕ, ℤ, String, Bool, List, Slice}
use touch_connect.GoMap.{Map}
use touch_connect.Contracts.Policy.{QualityDecision}
use touch_connect.Contracts.Endpoints.{Capability}
use touch_connect.Contracts.Messages.{Payload, Constraint}

pub record Endpoint : Type 0 where
  pub endpoint_ref : String
  pub display_name : String
  pub actor_id : String
  pub workspace_id : String
  pub connection_state : String
  pub capabilities : Map Capability
  pub execution_hints : List String
  pub worker_version : String
  pub started_at : String
  pub registered_at : ℕ
  pub last_heartbeat_at : ℕ
  pub current_attempt_ref : String
  pub last_activity_at : ℕ
  pub progress_summary : String

pub record Message : Type 0 where
  pub message_ref : String
  pub delivery_ref : String
  pub sender_endpoint_ref : String
  pub target_capability : String
  pub target_endpoint_ref : String
  pub preferred_endpoint_ref : String
  pub depends_on_message_refs : List String
  pub payload : Payload
  pub constraints : Slice Constraint
  pub correlation_ref : String
  pub readback_required : Bool
  pub state : String
  pub attempt_ref : String
  pub redelivery_count : ℕ

pub record Attempt : Type 0 where
  pub attempt_ref : String
  pub message_ref : String
  pub endpoint_ref : String
  pub state : String
  pub lease_expires_at : ℕ
  pub revision : ℕ
  pub attempt_no : ℕ
  pub claim_epoch : ℕ

pub record Checkpoint : Type 0 where
  pub checkpoint_ref : String
  pub attempt_ref : String
  pub endpoint_ref : String
  pub state : String
  pub summary : String
  pub revision : ℕ
  pub artifact_refs : List String
  pub failure_reason_code : String
  pub missing_fields : List String
  pub missing_reasons : List String

pub record ArtifactVersion : Type 0 where
  pub artifact_ref : String
  pub artifact_version_ref : String
  pub room_ref : String
  pub task_ref : String
  pub task_revision : ℤ
  pub kind : String
  pub media_type : String
  pub size_bytes : ℤ
  pub checksum : String
  pub storage_ref : String
  pub retention_class : String
  pub access_scope : String
  pub based_on_message_refs : List String
  pub based_on_artifact_version_refs : List String
  pub created_by_actor_id : String
  pub created_by_endpoint_ref : String
  pub message_ref : String
  pub attempt_ref : String
  pub created_at : ℕ

pub record ArtifactFinalization : Type 0 where
  pub artifact_version_ref : String
  pub finalization_ref : String
  pub finalized_by_actor_id : String
  pub reason : String
  pub finalized_at : ℕ

pub record Readback : Type 0 where
  pub readback_ref : String
  pub attempt_ref : String
  pub endpoint_ref : String
  pub summary : String
  pub understanding : String
  pub questions : List String
  pub missing_fields : List String
  pub missing_reasons : List String
  pub revision : ℕ

pub record DeadLetter : Type 0 where
  pub dead_letter_ref : String
  pub message_ref : String
  pub last_attempt_ref : String
  pub last_checkpoint_ref : String
  pub reason : String
  pub redelivery_count : ℕ
  pub created_at : ℕ

pub record ApprovalDecision : Type 0 where
  pub approval_ref : String
  pub attempt_ref : String
  pub message_ref : String
  pub target_type : String
  pub target_ref : String
  pub requested_by_actor_id : String
  pub approver_subjects_or_roles : List String
  pub approval_scope : String
  pub approval_hash : String
  pub status : String
  pub reason : String
  pub decided_by_actor_id : String
  pub decision_note : String
  pub requested_at : ℕ
  pub expires_at : ℕ
  pub decided_at : ℕ

pub record SideEffectExecution : Type 0 where
  pub side_effect_execution_ref : String
  pub idempotency_key : String
  pub protected_scope : String
  pub approval_ref : String
  pub approval_hash : String
  pub message_ref : String
  pub task_ref : String
  pub attempt_ref : String
  pub operation_kind : String
  pub external_target : String
  pub requested_by_actor_id : String
  pub executed_by_actor_id : String
  pub executed_by_endpoint_ref : String
  pub status : String
  pub started_at : ℕ
  pub completed_at : ℕ
  pub result_ref : String
  pub failure_reason_code : String

pub record ClaimResult : Type 0 where
  pub message : Message
  pub attempt : Attempt
  pub takeover : Bool
  pub last_checkpoint_ref : String
  pub resume_summary : String
  pub resume_artifact_refs : List String

pub record ClaimRequest : Type 0 where
  pub message_ref : String
  pub endpoint : Endpoint
  pub attempt_ref : String
  pub dead_letter_ref : String
  pub lease_expires_at : ℕ
  pub now : ℕ
  pub max_redelivery : ℕ

pub record ClaimNextRequest : Type 0 where
  pub endpoint : Endpoint
  pub attempt_ref : String
  pub dead_letter_ref : String
  pub lease_expires_at : ℕ
  pub now : ℕ
  pub max_redelivery : ℕ
  pub preferred_endpoints : Map Endpoint

pub record Snapshot : Type 0 where
  pub endpoints : List Endpoint
  pub messages : List Message
  pub attempts : List Attempt
  pub checkpoints : List Checkpoint
  pub readbacks : List Readback
  pub artifacts : List ArtifactVersion
  pub finalizations : List ArtifactFinalization
  pub dead_letters : List DeadLetter
  pub approvals : List ApprovalDecision
  pub side_effects : List SideEffectExecution
  pub quality_decisions : List QualityDecision
