-- ===== src/Contracts/Attempts.antt =====
-- The attempt requests and responses of internal/communication/contracts/types.go.
use touch_connect.Prelude.{ℕ, String, List}
use touch_connect.Contracts.Messages.{FollowUpMessageRequest}

pub record CheckpointRequest : Type 0 where
  pub endpoint_ref : String
  pub state : String
  pub summary : String
  pub artifact_refs : List String
  pub failure_reason_code : String
  pub missing_fields : List String
  pub missing_reasons : List String

pub record CheckpointResponse : Type 0 where
  pub checkpoint_ref : String
  pub attempt_ref : String
  pub state : String
  pub revision : ℕ
  pub confidence_band : String

pub record ReadbackRequest : Type 0 where
  pub endpoint_ref : String
  pub summary : String
  pub understanding : String
  pub questions : List String
  pub missing_fields : List String
  pub missing_reasons : List String
  pub confidence_band : String

pub record ReadbackResponse : Type 0 where
  pub readback_ref : String
  pub attempt_ref : String
  pub revision : ℕ

pub record RefreshLeaseRequest : Type 0 where
  pub endpoint_ref : String

pub record RefreshLeaseResponse : Type 0 where
  pub attempt_ref : String
  pub state : String
  pub lease_expires_at : String

pub record CompleteAttemptRequest : Type 0 where
  pub endpoint_ref : String
  pub summary : String
  pub artifact_refs : List String
  pub follow_up_messages : List FollowUpMessageRequest

pub record CompleteAttemptResponse : Type 0 where
  pub attempt_ref : String
  pub state : String
  pub follow_up_message_refs : List String
