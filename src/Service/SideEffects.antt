-- ===== src/Service/SideEffects.antt =====
-- application/side_effect_service.go: approvals, and the side effects that need one.
use touch_connect.Prelude.{
  ℕ, String, Bool, not, ◌&&◌, ◌||◌, ltb, nat_eq, ◌==◌, ◌!=◌, if◌then◌else◌, Option, some,
}
use touch_connect.Platform.{Platform, format_optional_time}
use touch_connect.Contracts.Governance.{
  ApprovalDecisionRequest, ApprovalDecisionResponse, SideEffectExecutionRequest,
  SideEffectExecutionResponse, CompleteSideEffectExecutionRequest,
  CompleteSideEffectExecutionResponse,
}
use touch_connect.Domain.States.{
  approval_status_pending, approval_status_approved, side_effect_status_executing,
  side_effect_status_deduped,
}
use touch_connect.Domain.Errors.{
  invalid_input, attempt_not_found, endpoint_not_found, approval_required, approval_not_found,
  approval_rejected, approval_expired, approval_hash_mismatch, side_effect_not_found,
  side_effect_conflict,
}
use touch_connect.Domain.Model.{Endpoint, Attempt, ApprovalDecision, SideEffectExecution}
use touch_connect.Domain.Validation.{
  validate_approval_decision, validate_side_effect_execution, validate_side_effect_completion,
}
use touch_connect.Exec.{Exec, pure, lift, ensure, ◌>>=◌, ◌>>◌}
use touch_connect.Memory.Ledger.{
  get_attempt, get_endpoint, get_approval_decision, save_approval_decision,
  save_side_effect_execution, get_side_effect_execution, update_side_effect_execution,
}
use touch_connect.Service.World.{Service, World, on_store, read, found, allocate}
use touch_connect.Service.Attempts.{require_live_attempt}

-- parseOptionalTime: none is a parse error, and an empty text is the zero time.
unfoldable pub parse_optional_time : Platform → String → Option ℕ
parse_optional_time platform value = if value == "" then some 0 else platform.parse_time value

unfoldable pub new_approval_decision :
    Service → ApprovalDecisionRequest → Attempt → ℕ → ApprovalDecision
new_approval_decision svc req attempt expires_at = record {
  approval_ref = req.approval_ref;
  attempt_ref = attempt.attempt_ref;
  message_ref = attempt.message_ref;
  target_type = req.target_type;
  target_ref = req.target_ref;
  requested_by_actor_id = req.requested_by_actor_id;
  approver_subjects_or_roles = req.approver_subjects_or_roles;
  approval_scope = req.approval_scope;
  approval_hash = req.approval_hash;
  status = req.status;
  reason = req.reason;
  decided_by_actor_id = req.decided_by_actor_id;
  decision_note = req.decision_note;
  requested_at = svc.settings.now;
  expires_at = expires_at;
  decided_at = if req.status != approval_status_pending then svc.settings.now else 0;
}

unfoldable pub record_approval_decision :
    Service → String → ApprovalDecisionRequest → Exec World ApprovalDecisionResponse
unfolding new_approval_decision parse_optional_time
record_approval_decision svc attempt_ref req = do
  lift (validate_approval_decision req)
  attempt ← read (λ s. get_attempt s attempt_ref) >>= found attempt_not_found
  expires_at ← found invalid_input (parse_optional_time svc.platform req.expires_at)
  let decision = new_approval_decision svc req attempt expires_at
  on_store (save_approval_decision decision)
  pure (record {
    approval_ref = decision.approval_ref;
    attempt_ref = decision.attempt_ref;
    status = decision.status;
    approval_hash = decision.approval_hash;
    decided_by_actor_id = decision.decided_by_actor_id;
    decided_at = format_optional_time svc.platform decision.decided_at;
  })

unfoldable pub require_approved_decision :
    Service → Attempt → SideEffectExecutionRequest → Exec World ApprovalDecision
require_approved_decision svc attempt req = do
  approval ← read (λ s. get_approval_decision s req.approval_ref) >>= found approval_required
  ensure (not (approval.attempt_ref != attempt.attempt_ref)) approval_not_found
  ensure (not (approval.status != approval_status_approved)) approval_rejected
  ensure
      (not (not (nat_eq approval.expires_at 0) && not (ltb svc.settings.now approval.expires_at)))
      approval_expired
  ensure (not (approval.approval_hash != req.approval_hash)) approval_hash_mismatch
  pure approval

unfoldable pub new_side_effect :
    Service
    → SideEffectExecutionRequest
    → Attempt
    → Endpoint
    → ApprovalDecision
    → String
    → SideEffectExecution
new_side_effect svc req attempt endpoint approval ref = record {
  side_effect_execution_ref = ref;
  idempotency_key = req.idempotency_key;
  protected_scope = req.protected_scope;
  approval_ref = approval.approval_ref;
  approval_hash = req.approval_hash;
  message_ref = attempt.message_ref;
  task_ref = req.task_ref;
  attempt_ref = attempt.attempt_ref;
  operation_kind = req.operation_kind;
  external_target = req.external_target;
  requested_by_actor_id = req.requested_by_actor_id;
  executed_by_actor_id = endpoint.actor_id;
  executed_by_endpoint_ref = endpoint.endpoint_ref;
  status = side_effect_status_executing;
  started_at = svc.settings.now;
  completed_at = 0;
  result_ref = "";
  failure_reason_code = "";
}

unfoldable pub side_effect_response :
    Platform → SideEffectExecution × Bool → SideEffectExecutionResponse
side_effect_response platform (accepted, deduped) = record {
  side_effect_execution_ref = accepted.side_effect_execution_ref;
  attempt_ref = accepted.attempt_ref;
  status = if deduped then side_effect_status_deduped else accepted.status;
  deduped = deduped;
  started_at = format_optional_time platform accepted.started_at;
}

unfoldable pub start_side_effect_execution :
    Service → String → SideEffectExecutionRequest → Exec World SideEffectExecutionResponse
unfolding new_side_effect side_effect_response
start_side_effect_execution svc attempt_ref req = do
  lift (validate_side_effect_execution req)
  attempt ← require_live_attempt svc attempt_ref req.endpoint_ref
  endpoint ← read (λ s. get_endpoint s req.endpoint_ref) >>= found endpoint_not_found
  approval ← require_approved_decision svc attempt req
  ref ← allocate "side-effect"
  accepted ←
      on_store (save_side_effect_execution (new_side_effect svc req attempt endpoint approval ref))
  pure (side_effect_response svc.platform accepted)

unfoldable pub complete_side_effect_execution :
    Service
    → String
    → CompleteSideEffectExecutionRequest
    → Exec World CompleteSideEffectExecutionResponse
complete_side_effect_execution svc execution_ref req = do
  lift (validate_side_effect_completion req)
  execution ← read (λ s. get_side_effect_execution s execution_ref) >>= found side_effect_not_found
  ensure
      (not (
        execution.executed_by_endpoint_ref != req.endpoint_ref
        || execution.status != side_effect_status_executing))
      side_effect_conflict
  attempt ← require_live_attempt svc execution.attempt_ref req.endpoint_ref
  let finished : SideEffectExecution = record execution {
    status = req.status;
    result_ref = req.result_ref;
    failure_reason_code = req.failure_reason_code;
    completed_at = svc.settings.now;
  }
  on_store (update_side_effect_execution finished)
  pure (record {
    side_effect_execution_ref = finished.side_effect_execution_ref;
    status = finished.status;
    completed_at = format_optional_time svc.platform finished.completed_at;
  })
