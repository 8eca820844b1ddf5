-- ===== src/Contracts/Messages.antt =====
-- The message requests and responses of internal/communication/contracts/types.go.
-- A `Slice` is a list that may be nil, kept where the code tests for nil.
use touch_connect.Prelude.{ℕ, ℤ, String, Bool, List, Option, Slice}
use touch_connect.Contracts.Policy.{PhraseologyPolicy}

pub record Reference : Type 0 where
  pub ref : String
  pub type : String
  pub title : String
  pub version : ℤ
  pub source_risk : String

pub record Constraint : Type 0 where
  pub code : String
  pub summary : String
  pub source_ref : String
  pub details : String

pub record Payload : Type 0 where
  pub summary : String
  pub body : String
  pub references : Slice Reference

pub record MessageIngressRequest : Type 0 where
  pub message_ref : String
  pub sender_endpoint_ref : String
  pub target_capability : String
  pub target_endpoint_ref : String
  pub preferred_endpoint_ref : String
  pub depends_on_message_refs : List String
  pub payload : Payload
  pub constraints : Slice Constraint
  pub correlation_ref : String
  pub readback_required : Bool
  pub phraseology_policy : Option PhraseologyPolicy
  pub quality_gate : String

pub record MessageIngressResponse : Type 0 where
  pub message_ref : String
  pub delivery_ref : String
  pub state : String
  pub quality_decision_ref : String

pub record ClaimMessageRequest : Type 0 where
  pub endpoint_ref : String

pub record ClaimNextMessageRequest : Type 0 where
  pub endpoint_ref : String

pub record ClaimMessageResponse : Type 0 where
  pub message_ref : String
  pub attempt_ref : String
  pub endpoint_ref : String
  pub state : String
  pub lease_expires_at : String
  pub takeover : Bool
  pub redelivery_count : ℕ
  pub last_checkpoint_ref : String
  pub resume_summary : String
  pub resume_artifact_refs : List String
  pub readback_required : Bool
  pub target_capability : String
  pub target_endpoint_ref : String
  pub preferred_endpoint_ref : String
  pub depends_on_message_refs : List String
  pub correlation_ref : String
  pub payload : Payload
  pub constraints : Slice Constraint
  pub payload_summary : String
  pub constraint_summary : String
  pub confidence_band : String

pub record ClaimNextMessageResponse : Type 0 where
  pub empty : Bool
  pub claim : Option ClaimMessageResponse

pub record FollowUpMessageRequest : Type 0 where
  pub message_ref : String
  pub target_capability : String
  pub target_endpoint_ref : String
  pub preferred_endpoint_ref : String
  pub depends_on_message_refs : List String
  pub summary : String
  pub body : String
  pub constraints : Slice Constraint
  pub readback_required : Bool
  pub quality_gate : String
