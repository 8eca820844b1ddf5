-- ===== src/Service/Attempts.antt =====
-- SubmitCheckpoint, SubmitReadback, RefreshLease and CompleteAttempt of application/service.go, and
-- requireLiveAttempt of artifact_service.go: what the holder of an attempt may do.
pub mod Zero
use touch_connect.Prelude.{
  ℕ, ◌+◌, String, Bool, true, false, not, ◌&&◌, ◌||◌, ◌==◌, ◌!=◌, if◌then◌else◌, Option, none, some,
  List, [], ◌∷◌, items, is_empty,
}
use touch_connect.Contracts.Messages.{
  MessageIngressRequest, MessageIngressResponse, FollowUpMessageRequest,
}
use touch_connect.Contracts.Attempts.{
  CheckpointRequest, CheckpointResponse, ReadbackRequest, ReadbackResponse, RefreshLeaseRequest,
  RefreshLeaseResponse, CompleteAttemptRequest, CompleteAttemptResponse,
}
use touch_connect.Domain.States.{
  attempt_state_in_progress, attempt_state_validating, attempt_state_blocked_missing_fields,
  attempt_state_failed, attempt_state_completed, attempt_state_orphaned, message_state_processing,
  message_state_input_required, message_state_failed, message_state_completed,
}
use touch_connect.Domain.Errors.{
  Result, ok, err, message_not_found, attempt_not_found, stale_attempt, lease_expired,
  artifact_not_found,
}
use touch_connect.Domain.Model.{Message, Attempt, Checkpoint, Readback}
use touch_connect.Domain.Validation.{validate_checkpoint, validate_readback, validate_completion}
use touch_connect.Exec.{Exec, pure, lift, ensure, ◌>>=◌, ◌>>◌}
use touch_connect.Memory.Store.{Store}
use touch_connect.Memory.Ledger.{
  get_attempt, get_message, get_artifact_version, save_checkpoint, save_readback, update_attempt,
  update_message,
}
use touch_connect.Service.AttemptState.{attempt_closed}
use touch_connect.Service.World.{
  Service, World, Settings, on_store, read, found, allocate, ack_with,
}
use touch_connect.Service.World
use touch_connect.Service.Ingress.{ingress_message}
use Zero.{zero_attempt, zero_message}

-- The attempt, if it is open, held by the endpoint, and within its lease.
unfoldable pub require_live_attempt : Service → String → String → Exec World Attempt
require_live_attempt svc attempt_ref endpoint_ref = do
  attempt ← read (λ s. get_attempt s attempt_ref) >>= found attempt_not_found
  ensure (not (attempt.endpoint_ref != endpoint_ref || attempt_closed attempt.state)) stale_attempt
  ensure (not (World.lease_expired svc.settings attempt)) lease_expired
  pure attempt

-- validateCheckpointArtifactRefs of artifact_service.go.
unfoldable pub artifact_refs_known : Store → Attempt → List String → Bool
artifact_refs_known s attempt [] = true
artifact_refs_known s attempt (ref ∷ refs) = elim (get_artifact_version s ref) [
  | none ↦ false
  | some version ↦ version.message_ref == attempt.message_ref && artifact_refs_known s attempt refs
]

-- The switch of updateMessageStateForCheckpoint.
unfoldable pub message_state_after : String → String → String
message_state_after attempt_state before =
    if attempt_state == attempt_state_in_progress || attempt_state == attempt_state_validating
    then message_state_processing
    else if attempt_state == attempt_state_blocked_missing_fields
    then message_state_input_required
    else if attempt_state == attempt_state_failed
    then message_state_failed
    else if attempt_state == attempt_state_completed
    then message_state_completed
    else before

unfoldable pub update_message_state_for_checkpoint : String → String → Exec World (Unit {0})
unfolding message_state_after
update_message_state_for_checkpoint message_ref attempt_state = do
  message ← read (λ s. get_message s message_ref) >>= found message_not_found
  on_store
      (update_message (record message { state = message_state_after attempt_state message.state }))

unfoldable pub ack_delivery_for_terminal_checkpoint :
    Service → String → String → Exec World (Unit {0})
ack_delivery_for_terminal_checkpoint svc message_ref attempt_state = elim svc.delivery [
  | none ↦ pure tt
  | some adapter ↦
      if not (attempt_closed attempt_state) || attempt_state == attempt_state_orphaned
      then pure tt
      else (do
        message ← read (λ s. get_message s message_ref) >>= found message_not_found
        ack_with adapter message.delivery_ref)
]

unfoldable pub new_checkpoint : CheckpointRequest → String → String → Checkpoint
new_checkpoint req checkpoint_ref attempt_ref = record {
  checkpoint_ref = checkpoint_ref;
  attempt_ref = attempt_ref;
  endpoint_ref = req.endpoint_ref;
  state = req.state;
  summary = req.summary;
  revision = 0;
  artifact_refs = req.artifact_refs;
  failure_reason_code = req.failure_reason_code;
  missing_fields = req.missing_fields;
  missing_reasons = req.missing_reasons;
}

-- From the checkpoint's reference on.
unfoldable pub write_checkpoint :
    Service → Attempt → CheckpointRequest → Exec World CheckpointResponse
unfolding new_checkpoint update_message_state_for_checkpoint ack_delivery_for_terminal_checkpoint
write_checkpoint svc attempt req = do
  checkpoint_ref ← allocate "checkpoint"
  accepted ← on_store (save_checkpoint (new_checkpoint req checkpoint_ref attempt.attempt_ref))
  on_store (update_attempt (record attempt { state = req.state; revision = accepted.revision }))
  update_message_state_for_checkpoint attempt.message_ref req.state
  ack_delivery_for_terminal_checkpoint svc attempt.message_ref req.state
  pure (record {
    checkpoint_ref = accepted.checkpoint_ref;
    attempt_ref = accepted.attempt_ref;
    state = accepted.state;
    revision = accepted.revision;
    confidence_band = "";
  })

-- The guards on the attempt are those of requireLiveAttempt, in the same order.
unfoldable pub submit_checkpoint :
    Service → String → CheckpointRequest → Exec World CheckpointResponse
unfolding require_live_attempt write_checkpoint artifact_refs_known
submit_checkpoint svc attempt_ref req = do
  lift (validate_checkpoint req)
  attempt ← require_live_attempt svc attempt_ref req.endpoint_ref
  known ← read (λ s. artifact_refs_known s attempt req.artifact_refs)
  ensure known artifact_not_found
  write_checkpoint svc attempt req

unfoldable pub submit_readback : Service → String → ReadbackRequest → Exec World ReadbackResponse
unfolding require_live_attempt
submit_readback svc attempt_ref req = do
  lift (validate_readback req)
  attempt ← require_live_attempt svc attempt_ref req.endpoint_ref
  readback_ref ← allocate "readback"
  let readback : Readback = record {
    readback_ref = readback_ref;
    attempt_ref = attempt.attempt_ref;
    endpoint_ref = req.endpoint_ref;
    summary = req.summary;
    understanding = req.understanding;
    questions = req.questions;
    missing_fields = req.missing_fields;
    missing_reasons = req.missing_reasons;
    revision = 0;
  }
  accepted ← on_store (save_readback readback)
  pure (record {
    readback_ref = accepted.readback_ref;
    attempt_ref = accepted.attempt_ref;
    revision = accepted.revision;
  })

unfoldable pub refresh_lease :
    Service → String → RefreshLeaseRequest → Exec World RefreshLeaseResponse
refresh_lease svc attempt_ref req = do
  attempt ← read (λ s. get_attempt s attempt_ref) >>= found attempt_not_found
  ensure
      (not (
        req.endpoint_ref == ""
        || attempt.endpoint_ref != req.endpoint_ref
        || attempt_closed attempt.state))
      stale_attempt
  ensure (not (World.lease_expired svc.settings attempt)) lease_expired
  let lease = svc.settings.now + svc.settings.attempt_lease_duration
  on_store (update_attempt (record attempt { lease_expires_at = lease }))
  pure (record {
    attempt_ref = attempt.attempt_ref;
    state = attempt.state;
    lease_expires_at = svc.platform.format_time lease;
  })

-- The request of a follow-up, as the sender of the completed attempt.
unfoldable pub follow_up_request :
    CompleteAttemptRequest → Message → FollowUpMessageRequest → MessageIngressRequest
follow_up_request req parent follow_up = record {
  message_ref = follow_up.message_ref;
  sender_endpoint_ref = req.endpoint_ref;
  target_capability = follow_up.target_capability;
  target_endpoint_ref = follow_up.target_endpoint_ref;
  preferred_endpoint_ref = follow_up.preferred_endpoint_ref;
  depends_on_message_refs =
      if is_empty follow_up.depends_on_message_refs
      then parent.message_ref ∷ []
      else follow_up.depends_on_message_refs;
  payload = record { summary = follow_up.summary; body = follow_up.body; references = some [] };
  constraints = some (items follow_up.constraints);
  correlation_ref = parent.correlation_ref;
  readback_required = follow_up.readback_required;
  phraseology_policy = none;
  quality_gate = follow_up.quality_gate;
}

-- The loop stops at the first error; the messages before it stay.
unfoldable pub create_follow_up_messages :
    Service
    → CompleteAttemptRequest
    → Message
    → List FollowUpMessageRequest
    → Exec World (List String)
unfolding follow_up_request
create_follow_up_messages svc req parent [] = pure []
create_follow_up_messages svc req parent (follow_up ∷ rest) = do
  response ← ingress_message svc (follow_up_request req parent follow_up)
  refs ← create_follow_up_messages svc req parent rest
  pure (response.message_ref ∷ refs)

abbrev pub or_zero : {A : Type 0} → A → Option A → A
or_zero zero none = zero
or_zero zero (some a) = a

-- After the checkpoint, which has set both states already.
unfoldable pub finish_attempt :
    Service → String → CompleteAttemptRequest → Exec World CompleteAttemptResponse
unfolding create_follow_up_messages
finish_attempt svc attempt_ref req = do
  attempt ← read (λ s. or_zero zero_attempt (get_attempt s attempt_ref))
  message ← read (λ s. or_zero zero_message (get_message s attempt.message_ref))
  let closed : Message = record message { state = message_state_completed }
  on_store (update_attempt (record attempt { state = attempt_state_completed }))
  on_store (update_message closed)
  follow_up_refs ← create_follow_up_messages svc req closed req.follow_up_messages
  pure (record {
    attempt_ref = attempt.attempt_ref;
    state = attempt_state_completed;
    follow_up_message_refs = follow_up_refs;
  })

unfoldable pub completion_checkpoint : CompleteAttemptRequest → CheckpointRequest
completion_checkpoint req = record {
  endpoint_ref = req.endpoint_ref;
  state = attempt_state_completed;
  summary = req.summary;
  artifact_refs = req.artifact_refs;
  failure_reason_code = "";
  missing_fields = [];
  missing_reasons = [];
}

unfoldable pub complete_attempt :
    Service → String → CompleteAttemptRequest → Exec World CompleteAttemptResponse
unfolding finish_attempt completion_checkpoint
complete_attempt svc attempt_ref req = do
  lift (validate_completion req)
  attempt ← read (λ s. get_attempt s attempt_ref) >>= found attempt_not_found
  ensure (not (attempt.endpoint_ref != req.endpoint_ref)) stale_attempt
  ensure (not (attempt_closed attempt.state)) stale_attempt
  response ← submit_checkpoint svc attempt_ref (completion_checkpoint req)
  finish_attempt svc attempt_ref req
