-- ===== src/Service/ErrorText.antt =====
-- The text of an error: the codes of domain/validation.go, application/quality_error.go, and errors.Join.
use Prim.Native.String
use touch_connect.Prelude.{String}
use touch_connect.Domain.Errors.{
  Error, invalid_input, endpoint_already_online, endpoint_not_found, capability_not_found,
  message_not_found, message_unavailable, attempt_not_found, stale_attempt, endpoint_stale,
  lease_expired, message_dead_lettered, artifact_not_found, artifact_exists, approval_not_found,
  approval_required, approval_rejected, approval_expired, approval_hash_mismatch, self_approval,
  side_effect_not_found, side_effect_conflict, quality_rejected, delivery_failed, joined,
}

-- Go's err.Error().
unfoldable pub error_text : Error → String
error_text invalid_input = "invalid_input"
error_text endpoint_already_online = "endpoint_already_online"
error_text endpoint_not_found = "endpoint_not_found"
error_text capability_not_found = "capability_not_found"
error_text message_not_found = "message_not_found"
error_text message_unavailable = "message_unavailable"
error_text attempt_not_found = "attempt_not_found"
error_text stale_attempt = "stale_attempt"
error_text endpoint_stale = "endpoint_stale"
error_text lease_expired = "lease_expired"
error_text message_dead_lettered = "message_dead_lettered"
error_text artifact_not_found = "artifact_not_found"
error_text artifact_exists = "artifact_version_exists"
error_text approval_not_found = "approval_not_found"
error_text approval_required = "approval_required"
error_text approval_rejected = "approval_not_approved"
error_text approval_expired = "approval_expired"
error_text approval_hash_mismatch = "approval_hash_mismatch"
error_text self_approval = "self_approval_forbidden"
error_text side_effect_not_found = "side_effect_not_found"
error_text side_effect_conflict = "side_effect_conflict"
error_text (quality_rejected d) = "quality_rejected"
error_text (delivery_failed text) = text
error_text (joined e f) = String.◌++◌ (error_text e) (String.◌++◌ "\n" (error_text f))
