-- ===== src/Domain/States.antt =====
-- The state constants of tc-server/internal/domain/model.go.
use touch_connect.Prelude.{String}

abbrev pub attempt_state_claimed : String
attempt_state_claimed = "claimed"

abbrev pub attempt_state_validating : String
attempt_state_validating = "validating"

abbrev pub attempt_state_blocked_missing_fields : String
attempt_state_blocked_missing_fields = "blocked_missing_fields"

abbrev pub attempt_state_in_progress : String
attempt_state_in_progress = "in_progress"

abbrev pub attempt_state_retrying : String
attempt_state_retrying = "retrying"

abbrev pub attempt_state_orphaned : String
attempt_state_orphaned = "orphaned"

abbrev pub attempt_state_completed : String
attempt_state_completed = "completed"

abbrev pub attempt_state_failed : String
attempt_state_failed = "failed"

abbrev pub attempt_state_canceled : String
attempt_state_canceled = "canceled"

abbrev pub message_state_available : String
message_state_available = "available"

abbrev pub message_state_claimed : String
message_state_claimed = "claimed"

abbrev pub message_state_processing : String
message_state_processing = "processing"

abbrev pub message_state_takeover_candidate : String
message_state_takeover_candidate = "takeover_candidate"

abbrev pub message_state_input_required : String
message_state_input_required = "input_required"

abbrev pub message_state_completed : String
message_state_completed = "completed"

abbrev pub message_state_failed : String
message_state_failed = "failed"

abbrev pub message_state_dead_lettered : String
message_state_dead_lettered = "dead_lettered"

abbrev pub message_state_canceled : String
message_state_canceled = "canceled"

abbrev pub endpoint_state_online : String
endpoint_state_online = "online"

abbrev pub endpoint_state_stale : String
endpoint_state_stale = "stale"

abbrev pub endpoint_state_offline : String
endpoint_state_offline = "offline"

abbrev pub approval_status_pending : String
approval_status_pending = "pending"

abbrev pub approval_status_approved : String
approval_status_approved = "approved"

abbrev pub approval_status_rejected : String
approval_status_rejected = "rejected"

abbrev pub approval_status_expired : String
approval_status_expired = "expired"

abbrev pub approval_status_canceled : String
approval_status_canceled = "canceled"

abbrev pub side_effect_status_executing : String
side_effect_status_executing = "executing"

abbrev pub side_effect_status_succeeded : String
side_effect_status_succeeded = "succeeded"

abbrev pub side_effect_status_failed : String
side_effect_status_failed = "failed"

abbrev pub side_effect_status_canceled : String
side_effect_status_canceled = "canceled"

abbrev pub side_effect_status_deduped : String
side_effect_status_deduped = "deduped"
