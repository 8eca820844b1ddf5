-- ===== src/Contracts/Endpoints.antt =====
-- The endpoint requests and responses of internal/communication/contracts/types.go.
use touch_connect.Prelude.{String, List}

pub record Capability : Type 0 where
  pub name : String
  pub execution_hints : List String

pub record EndpointRegistrationRequest : Type 0 where
  pub endpoint_ref : String
  pub display_name : String
  pub actor_id : String
  pub workspace_id : String
  pub connection_state : String
  pub capabilities : List Capability
  pub execution_hints : List String
  pub worker_version : String
  pub started_at : String

pub record EndpointRegistrationResponse : Type 0 where
  pub endpoint_ref : String
  pub accepted_ref : String

pub record EndpointHeartbeatRequest : Type 0 where
  pub endpoint_ref : String
  pub connection_state : String
  pub observed_at : String
  pub current_attempt_ref : String
  pub last_activity_at : String
  pub progress_summary : String

pub record EndpointHeartbeatResponse : Type 0 where
  pub endpoint_ref : String
  pub connection_state : String
  pub last_heartbeat_at : String
  pub heartbeat_expires : String

pub record CapabilityAdvertisementRequest : Type 0 where
  pub capabilities : List Capability

pub record CapabilityAdvertisementResponse : Type 0 where
  pub endpoint_ref : String
  pub names : List String
