-- ===== src/Domain/Validation.antt =====
-- tc-server/internal/domain/validation.go: the requests that the service accepts.
mod Enums
use touch_connect.Prelude.{
  ℕ, ℤ, pos, negsuc, String, Bool, true, false, not, ◌&&◌, ◌||◌, ltb, nat_eq, ◌==◌, ◌!=◌,
  if◌then◌else◌, is_some, Option, none, some, List, [], ◌∷◌, length, is_empty, any,
}
use touch_connect.GoMap.{Map, get, put}
use touch_connect.GoText.{blank}
use touch_connect.Contracts.Endpoints.{
  Capability, EndpointRegistrationRequest, EndpointHeartbeatRequest,
}
use touch_connect.Contracts.Messages.{MessageIngressRequest}
use touch_connect.Contracts.Attempts.{CheckpointRequest, ReadbackRequest, CompleteAttemptRequest}
use touch_connect.Contracts.Governance.{
  ArtifactVersionRequest, ApprovalDecisionRequest, SideEffectExecutionRequest,
  CompleteSideEffectExecutionRequest,
}
use touch_connect.Domain.States.{
  endpoint_state_online, endpoint_state_stale, endpoint_state_offline, attempt_state_failed,
  attempt_state_blocked_missing_fields, approval_status_pending, side_effect_status_succeeded,
  side_effect_status_failed, side_effect_status_canceled,
}
use touch_connect.Domain.Errors.{Result, ok, err, ◌>>◌, require, invalid_input, self_approval}
unfoldable pub use Enums.{
  valid_artifact_kind, valid_retention_class, valid_access_scope, valid_approval_target,
  valid_approval_status, valid_checkpoint_state, valid_quality_gate,
}

-- The loop of ValidateCapabilities; `seen` holds the names so far.
unfoldable pub distinct_names : Map (Unit {0}) → List Capability → Result (Unit {0})
distinct_names seen [] = ok tt
distinct_names seen (capability ∷ rest) =
    let later = distinct_names (put seen capability.name tt) rest in
    if blank capability.name
    then err invalid_input
    else if is_some (get seen capability.name)
    then err invalid_input
    else later

unfoldable pub validate_capabilities : List Capability → Result (Unit {0})
unfolding distinct_names
validate_capabilities capabilities =
    if is_empty capabilities then err invalid_input else distinct_names [] capabilities

unfoldable pub validate_endpoint_registration : EndpointRegistrationRequest → Result (Unit {0})
validate_endpoint_registration req = do
  require
      (not (
        blank req.endpoint_ref
        || blank req.display_name
        || blank req.actor_id
        || blank req.workspace_id))
      invalid_input
  require (not (req.connection_state != "" && req.connection_state != endpoint_state_online))
      invalid_input
  require (not (is_empty req.capabilities)) invalid_input
  validate_capabilities req.capabilities

unfoldable pub validate_heartbeat : EndpointHeartbeatRequest → Result (Unit {0})
validate_heartbeat req = do
  require (not (blank req.endpoint_ref)) invalid_input
  require
      (req.connection_state == endpoint_state_online
        || req.connection_state == endpoint_state_stale
        || req.connection_state == endpoint_state_offline)
      invalid_input

unfoldable pub validate_message : MessageIngressRequest → Result (Unit {0})
validate_message req = do
  require (not (blank req.sender_endpoint_ref || blank req.target_capability)) invalid_input
  require (not (blank req.payload.summary || blank req.payload.body)) invalid_input
  require (is_some req.payload.references && is_some req.constraints) invalid_input
  require (not (req.quality_gate != "" && not (valid_quality_gate req.quality_gate))) invalid_input
  require (not (any blank req.depends_on_message_refs)) invalid_input

-- The loop of validMissingFields, over lists of one length.
unfoldable pub none_blank : List String → List String → Bool
none_blank [] reasons = true
none_blank (f ∷ fields) [] = true
none_blank (f ∷ fields) (r ∷ reasons) = not (blank f || blank r) && none_blank fields reasons

unfoldable pub valid_missing_fields : List String → List String → Bool
unfolding none_blank
valid_missing_fields fields reasons =
    if is_empty fields || is_empty reasons || not (nat_eq (length fields) (length reasons))
    then false
    else none_blank fields reasons

unfoldable pub validate_checkpoint : CheckpointRequest → Result (Unit {0})
validate_checkpoint req = do
  require (not (blank req.endpoint_ref || blank req.state || blank req.summary)) invalid_input
  require (valid_checkpoint_state req.state) invalid_input
  require (not (req.state == attempt_state_failed && blank req.failure_reason_code)) invalid_input
  require
      (not (
        req.state == attempt_state_blocked_missing_fields
        && not (valid_missing_fields req.missing_fields req.missing_reasons)))
      invalid_input

unfoldable pub validate_readback : ReadbackRequest → Result (Unit {0})
validate_readback req = do
  require (not (blank req.endpoint_ref || blank req.summary || blank req.understanding))
      invalid_input
  require
      (not (
        not (is_empty req.missing_fields)
        && not (valid_missing_fields req.missing_fields req.missing_reasons)))
      invalid_input

unfoldable pub validate_completion : CompleteAttemptRequest → Result (Unit {0})
validate_completion req = require (not (blank req.endpoint_ref || blank req.summary)) invalid_input

unfoldable pub artifact_version_fields_complete : ArtifactVersionRequest → Bool
artifact_version_fields_complete req =
    not (blank req.endpoint_ref)
    && not (blank req.artifact_ref)
    && not (blank req.artifact_version_ref)
    && not (blank req.room_ref)
    && not (blank req.task_ref)
    && not (blank req.kind)
    && not (blank req.media_type)
    && not (blank req.checksum)
    && not (blank req.storage_ref)
    && not (blank req.retention_class)
    && not (blank req.access_scope)

unfoldable pub artifact_version_enums_valid : ArtifactVersionRequest → Bool
artifact_version_enums_valid req =
    valid_artifact_kind req.kind
    && valid_retention_class req.retention_class
    && valid_access_scope req.access_scope

unfoldable pub is_positive : ℤ → Bool
is_positive (pos n) = ltb 0 n
is_positive (negsuc n) = false

unfoldable pub is_negative : ℤ → Bool
is_negative (pos n) = false
is_negative (negsuc n) = true

unfoldable pub validate_artifact_version : ArtifactVersionRequest → Result (Unit {0})
unfolding is_positive is_negative
validate_artifact_version req = do
  require (artifact_version_fields_complete req) invalid_input
  require (is_positive req.task_revision && not (is_negative req.size_bytes)) invalid_input
  require (artifact_version_enums_valid req) invalid_input

unfoldable pub approval_fields_complete : ApprovalDecisionRequest → Bool
approval_fields_complete req = not (
    blank req.approval_ref
    || blank req.target_type
    || blank req.target_ref
    || blank req.requested_by_actor_id
    || blank req.approval_scope
    || blank req.approval_hash
    || blank req.status)

unfoldable pub validate_approval_decision : ApprovalDecisionRequest → Result (Unit {0})
validate_approval_decision req = do
  require (approval_fields_complete req) invalid_input
  require (not (is_empty req.approver_subjects_or_roles)) invalid_input
  require (valid_approval_target req.target_type && valid_approval_status req.status) invalid_input
  require (not (req.status != approval_status_pending && blank req.decided_by_actor_id))
      invalid_input
  require
      (not (
        req.status != approval_status_pending
        && req.decided_by_actor_id == req.requested_by_actor_id))
      self_approval

unfoldable pub validate_side_effect_execution : SideEffectExecutionRequest → Result (Unit {0})
validate_side_effect_execution req =
    require
      (not (
        blank req.endpoint_ref
        || blank req.idempotency_key
        || blank req.protected_scope
        || blank req.approval_ref
        || blank req.approval_hash
        || blank req.task_ref
        || blank req.operation_kind
        || blank req.external_target
        || blank req.requested_by_actor_id))
      invalid_input

-- The switch on the status.
unfoldable pub completion_status_valid : CompleteSideEffectExecutionRequest → Bool
completion_status_valid req =
    if req.status == side_effect_status_succeeded
    then not (blank req.result_ref)
    else if req.status == side_effect_status_failed
    then not (blank req.failure_reason_code)
    else req.status == side_effect_status_canceled

unfoldable pub validate_side_effect_completion :
    CompleteSideEffectExecutionRequest → Result (Unit {0})
unfolding completion_status_valid
validate_side_effect_completion req = do
  require (not (blank req.endpoint_ref || blank req.status)) invalid_input
  require (completion_status_valid req) invalid_input
