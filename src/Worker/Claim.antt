-- ===== src/Worker/Claim.antt =====
-- tc-worker/internal/runtime/runtime.go and executor.go: working on one claim.

use Prim.Native.String
use touch_connect.Prelude.{
  String, ◌==◌, ◌||◌, if◌then◌else◌, none, some, List, [], ◌∷◌, ◌++◌, map, is_empty, pos,
}
use touch_connect.Contracts.Messages.{ClaimMessageResponse}
use touch_connect.Contracts.Attempts.{RefreshLeaseResponse}
use touch_connect.Worker.Errors.{failure, attempt_drop, recoverable_attempt_drop}
use touch_connect.Worker.Work.{
  Ports, Work, Runtime, Returned, done, fails, MissingField, ExecutionResult, pure, call,
  mark_progress, clear_progress, execution_outcome_completed, execution_outcome_partial_completed,
  execution_outcome_missing_fields, execution_outcome_failed, ◌>>=◌, ◌>>◌,
}
use touch_connect.Worker.Canonical.{
  submit_readback, submit_readback_when_required, is_canonical_scenario, complete_canonical_claim,
}

-- ExecutionResult.validated of executor.go, where the summary is set.
abbrev pub with_summary : ExecutionResult → ExecutionResult
with_summary result =
    if result.summary == "" then record result { summary = "worker execution result" } else result

unfoldable pub validated_outcome : ExecutionResult → Returned ExecutionResult
validated_outcome result =
    if result.outcome == ""
    then done (record result { outcome = execution_outcome_completed })
    else if result.outcome == execution_outcome_completed
        || result.outcome == execution_outcome_partial_completed
    then done result
    else if result.outcome == execution_outcome_missing_fields
    then (if is_empty result.missing_fields
        then fails (failure "missing field result requires at least one missing field")
        else done result)
    else if result.outcome == execution_outcome_failed
    then (if result.failure_reason_code == ""
        then fails (failure "failed result requires failure reason code")
        else done result)
    else fails (failure "unknown worker execution outcome")

unfoldable pub validated : ExecutionResult → Returned ExecutionResult
unfolding validated_outcome
validated result = validated_outcome (with_summary result)

abbrev failed_result : String → String → ExecutionResult
failed_result summary failure_reason_code = record {
  outcome = execution_outcome_failed;
  summary = summary;
  artifact_refs = [];
  used_skill_refs = [];
  missing_fields = [];
  failure_reason_code = failure_reason_code;
  stdout = "";
  stderr = "";
  exit_code = pos 0;
  duration_ms = pos 0;
  follow_up_messages = [];
}

module _ {S : Type 0} (p : Ports S) where
  unfoldable pub acknowledge_claim : ClaimMessageResponse → Work S (Unit {0})
  acknowledge_claim claim = do
    mark_progress claim.attempt_ref "message claimed"
    call (
        p.submit_checkpoint claim.attempt_ref (record {
          endpoint_ref = p.endpoint_ref;
          state = "claimed";
          summary = "message claimed";
          artifact_refs = [];
          failure_reason_code = "";
          missing_fields = [];
          missing_reasons = [];
        }))
    pure tt

  unfoldable pub complete_claim : ClaimMessageResponse → ExecutionResult → Work S (Unit {0})
  complete_claim claim result = do
    submit_readback_when_required p claim []
    call (
        p.submit_checkpoint claim.attempt_ref (record {
          endpoint_ref = p.endpoint_ref;
          state = "in_progress";
          summary = "processing message";
          artifact_refs = result.artifact_refs;
          failure_reason_code = "";
          missing_fields = [];
          missing_reasons = [];
        }))
    call (
        p.complete_attempt claim.attempt_ref (record {
          endpoint_ref = p.endpoint_ref;
          summary = result.summary;
          artifact_refs = result.artifact_refs;
          follow_up_messages = result.follow_up_messages;
        }))
    pure tt

  unfoldable pub block_claim_for_missing_fields :
      ClaimMessageResponse → List MissingField → Work S (Unit {0})
  block_claim_for_missing_fields claim fields = do
    submit_readback p claim fields
    call (
        p.submit_checkpoint claim.attempt_ref (record {
          endpoint_ref = p.endpoint_ref;
          state = "blocked_missing_fields";
          summary = "processing blocked because required information is missing";
          artifact_refs = [];
          failure_reason_code = "";
          missing_fields = map MissingField.name fields;
          missing_reasons = map MissingField.reason fields;
        }))
    pure tt

  unfoldable pub fail_claim : ClaimMessageResponse → ExecutionResult → Work S (Unit {0})
  fail_claim claim result = do
    call (
        p.submit_checkpoint claim.attempt_ref (record {
          endpoint_ref = p.endpoint_ref;
          state = "failed";
          summary = result.summary;
          artifact_refs = result.artifact_refs;
          failure_reason_code = result.failure_reason_code;
          missing_fields = [];
          missing_reasons = [];
        }))
    pure tt

  -- RegisterArtifactVersion puts the endpoint of the worker into the request.
  unfoldable pub record_execution_artifact :
      ClaimMessageResponse → ExecutionResult → Work S ExecutionResult
  record_execution_artifact claim result = elim p.store_execution_log [
    | none ↦ pure result
    | some store ↦ (do
      request ← call (store claim result)
      response ← call (
          p.register_artifact_version claim.attempt_ref
            (record request { endpoint_ref = p.endpoint_ref }))
      pure (record result {
        artifact_refs = result.artifact_refs ++ response.artifact_version_ref ∷ [];
      }))
  ]

  unfoldable pub record_result_artifact_when_needed :
      ClaimMessageResponse → ExecutionResult → Work S ExecutionResult
  unfolding record_execution_artifact
  record_result_artifact_when_needed claim result =
      if result.outcome == execution_outcome_missing_fields
      then pure result
      else record_execution_artifact claim result

  -- The error of the log or of the checkpoint is dropped.
  unfoldable pub record_and_fail_claim :
      ClaimMessageResponse → ExecutionResult → Runtime S → Runtime S
  unfolding fail_claim record_execution_artifact
  record_and_fail_claim claim result r =
      let recorded = record_execution_artifact claim result r in
      elim recorded.0 [
        | done result' ↦ (fail_claim claim result' recorded.1).1
        | fails e ↦ (fail_claim claim result recorded.1).1
      ]

  unfoldable pub execute_and_validate_claim : ClaimMessageResponse → Work S ExecutionResult
  unfolding record_and_fail_claim validated
  execute_and_validate_claim claim r =
      let executed = call (p.execute claim) r in
      elim executed.0 [
        | fails e ↦ (
          fails e,
          record_and_fail_claim claim
              (failed_result "worker executor returned an error" "executor_error") executed.1,
        )
        | done result ↦ elim (validated result) [
          | fails e ↦ (
            fails e,
            record_and_fail_claim claim
                (failed_result "worker executor returned an invalid result"
                  "invalid_executor_result")
                executed.1,
          )
          | done accepted ↦ (done accepted, executed.1)
        ]
      ]

  -- The attempt and the outcome that is reported, and the error of the work.
  unfoldable pub finish_accepted_claim : ClaimMessageResponse → ExecutionResult → Work S String
  unfolding complete_claim block_claim_for_missing_fields fail_claim
  finish_accepted_claim claim result =
      if result.outcome == execution_outcome_missing_fields
      then block_claim_for_missing_fields claim result.missing_fields
        >> pure execution_outcome_missing_fields
      else if result.outcome == execution_outcome_failed
      then fail_claim claim result >> pure execution_outcome_failed
      else if is_canonical_scenario claim
      then complete_canonical_claim p claim result >> pure execution_outcome_completed
      else complete_claim claim result >> pure execution_outcome_completed

  unfoldable pub work_on_claim : ClaimMessageResponse → Work S String
  unfolding execute_and_validate_claim record_result_artifact_when_needed finish_accepted_claim
  work_on_claim claim = do
    result ← execute_and_validate_claim claim
    accepted ← record_result_artifact_when_needed claim result
    finish_accepted_claim claim accepted

  -- The deferred calls: the keeper's error replaces the result, and the progress is cleared.
  unfoldable pub settle :
      ClaimMessageResponse
      → RefreshLeaseResponse
      → Returned String × Runtime S
      → Returned String × Runtime S
  settle claim lease worked = elim (p.keeper_error claim lease worked.1.outside) [
    | none ↦ (worked.0, clear_progress claim.attempt_ref worked.1)
    | some lost ↦ elim (recoverable_attempt_drop p.status_text lost) [
      | none ↦ (fails lost, clear_progress claim.attempt_ref worked.1)
      | some drop ↦ (
        fails (attempt_drop drop.code drop.status_code drop.err),
        clear_progress claim.attempt_ref worked.1,
      )
    ]
  ]

  unfoldable pub finish_claim_after_ack : ClaimMessageResponse → Work S String
  unfolding work_on_claim settle
  finish_claim_after_ack claim = do
    lease ← call (p.refresh_lease claim.attempt_ref (record { endpoint_ref = p.endpoint_ref }))
    mark_progress claim.attempt_ref (String.◌++◌ "executing message " claim.message_ref)
    λ r. settle claim lease (work_on_claim claim r)
