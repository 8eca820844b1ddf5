-- ===== src/Governance/Records.antt =====
-- The artifact and approval records of internal/communication/contracts/read_model.go, and the
-- results of contracts/governance.go.
use touch_connect.Prelude.{ℤ, String, List, Option}

pub record ArtifactRecord : Type 0 where
  pub artifact_ref : String
  pub artifact_version_ref : String
  pub room_ref : String
  pub task_ref : String
  pub task_revision : ℤ
  pub kind : String
  pub media_type : String
  pub size_bytes : ℤ
  pub checksum : String
  pub storage_ref : String
  pub retention_class : String
  pub access_scope : String
  pub based_on_message_refs : List String
  pub based_on_artifact_version_refs : List String
  pub created_by_actor_id : String
  pub created_by_endpoint_ref : String
  pub message_ref : String
  pub attempt_ref : String
  pub created_at : String

pub record ApprovalRecord : Type 0 where
  pub approval_ref : String
  pub attempt_ref : String
  pub message_ref : String
  pub target_type : String
  pub target_ref : String
  pub requested_by_actor_id : String
  pub approver_subjects_or_roles : List String
  pub approval_scope : String
  pub approval_hash : String
  pub status : String
  pub reason : String
  pub decided_by_actor_id : String
  pub decision_note : String
  pub requested_at : String
  pub expires_at : String
  pub decided_at : String

pub record ApprovalChain : Type 0 where
  pub chain_ref : String
  pub query_ref : String
  pub message_ref : String
  pub attempt_ref : String
  pub target_type : String
  pub target_ref : String
  pub current : Option ApprovalRecord
  pub decisions : List ApprovalRecord

pub record ArtifactLineageEdge : Type 0 where
  pub from_ref : String
  pub to_ref : String
  pub relation : String

pub record ArtifactLineage : Type 0 where
  pub lineage_ref : String
  pub query_ref : String
  pub artifact_ref : String
  pub current_version_ref : String
  pub versions : List ArtifactRecord
  pub edges : List ArtifactLineageEdge
