-- ===== src/Domain/Validation/Enums.antt =====
-- The closed vocabularies of validation.go, and the gate modes of contracts/policy.go.
use touch_connect.Prelude.{String, Bool, ◌||◌, ◌==◌}
use touch_connect.Domain.States.{
  attempt_state_claimed, attempt_state_validating, attempt_state_blocked_missing_fields,
  attempt_state_in_progress, attempt_state_retrying, attempt_state_completed, attempt_state_failed,
  attempt_state_canceled, approval_status_pending, approval_status_approved,
  approval_status_rejected, approval_status_expired, approval_status_canceled,
}

unfoldable pub valid_artifact_kind : String → Bool
valid_artifact_kind kind =
    kind == "document"
    || kind == "code_patch"
    || kind == "design_asset"
    || kind == "test_report"
    || kind == "log_bundle"
    || kind == "structured_data"

unfoldable pub valid_retention_class : String → Bool
valid_retention_class c = c == "transient" || c == "operational" || c == "audit"

unfoldable pub valid_access_scope : String → Bool
valid_access_scope scope =
    scope == "room" || scope == "task" || scope == "actor" || scope == "role" || scope == "tenant"

unfoldable pub valid_approval_target : String → Bool
valid_approval_target target =
    target == "side_effect"
    || target == "egress"
    || target == "artifact_finalization"
    || target == "tool_invocation"
    || target == "policy_escalation"

unfoldable pub valid_approval_status : String → Bool
valid_approval_status status =
    status == approval_status_pending
    || status == approval_status_approved
    || status == approval_status_rejected
    || status == approval_status_expired
    || status == approval_status_canceled

-- The states that a checkpoint may report: all but `orphaned`.
unfoldable pub valid_checkpoint_state : String → Bool
valid_checkpoint_state state =
    state == attempt_state_claimed
    || state == attempt_state_validating
    || state == attempt_state_blocked_missing_fields
    || state == attempt_state_in_progress
    || state == attempt_state_retrying
    || state == attempt_state_completed
    || state == attempt_state_failed
    || state == attempt_state_canceled

unfoldable pub valid_quality_gate : String → Bool
valid_quality_gate mode = mode == "enforce" || mode == "warn" || mode == "skip"
