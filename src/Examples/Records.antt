-- ===== src/Examples/Records.antt =====
-- Side effects and the quality gate.
use touch_connect.Prelude.{◌≡◌, refl, String, ◌==◌, ◌↔◌, [], ◌∷◌, true, false}
use touch_connect.GoMap.{get, put}
use touch_connect.Domain.Errors.{ok}
use touch_connect.Memory.Store.{Store, new_store}
use touch_connect.Memory.Ledger.{save_side_effect_execution}
use touch_connect.Memory.SideEffects.{save_side_effect_execution-once}
use touch_connect.Quality.Names.{quality_decision_rejected, quality_gate_skip, quality_gate_warn}
use touch_connect.Quality.Gate.{validate_message_with_gate}
use touch_connect.Quality.Outcomes.{Rejects, effective_gate, validate_message_with_gate-rejected}
use touch_connect.Service.Approval.{Started, start_side_effect_execution-Started}
use touch_connect.Contracts.Attempts.{CheckpointRequest, ReadbackRequest, RefreshLeaseRequest}
use touch_connect.Contracts.Governance.{
  ApprovalDecisionRequest, ArtifactVersionRequest, SideEffectExecutionRequest,
}
use touch_connect.Service.SelfApproval.{Recorded, record_approval_decision-Recorded}
use touch_connect.Service.Fencing.{Fenced, holder_operations-Fenced}
use touch_connect.Service.Attempts.{submit_checkpoint, submit_readback, refresh_lease}
use touch_connect.Service.Artifacts.{register_artifact_version}
use touch_connect.Service.History.{at}
use touch_connect.Service.SideEffects.{start_side_effect_execution, record_approval_decision}
use touch_connect.Examples.Data.{
  plain, service, approved_world, deploy, deploy_request, review_input,
}

abbrev deployed_store : Store
deployed_store = record new_store { side_effects = ("x1", deploy) ∷ [] }

save_side_effect_execution-once_example :
    save_side_effect_execution (record deploy { side_effect_execution_ref = "x2" }) deployed_store
    ≡ (ok (deploy, true), deployed_store)
unfolding save_side_effect_execution get put
save_side_effect_execution-once_example =
    save_side_effect_execution-once deploy (record deploy { side_effect_execution_ref = "x2" })
      deploy new_store deployed_store false refl refl refl

start_side_effect_execution-Started_example :
    Started (at service 5) approved_world "tc://attempt/att_000001" deploy_request (
      start_side_effect_execution
        (at service 5)
        "tc://attempt/att_000001"
        deploy_request
        approved_world)
start_side_effect_execution-Started_example =
    start_side_effect_execution-Started (at service 5) "tc://attempt/att_000001" deploy_request
      approved_world

validate_message_with_gate-rejected_example :
    ((validate_message_with_gate plain review_input "enforce").decision ≡ quality_decision_rejected)
    ↔ ((effective_gate "enforce" == quality_gate_skip ≡ false)
        × (effective_gate "enforce" == quality_gate_warn ≡ false)
        × Rejects plain review_input)
validate_message_with_gate-rejected_example =
    validate_message_with_gate-rejected plain review_input "enforce"

abbrev second_approval : ApprovalDecisionRequest
second_approval = record {
  approval_ref = "a2";
  target_type = "side_effect";
  target_ref = "deploy";
  requested_by_actor_id = "actor";
  approver_subjects_or_roles = "lead" ∷ [];
  approval_scope = "production";
  approval_hash = "h";
  status = "approved";
  reason = "";
  expires_at = "";
  decided_by_actor_id = "lead";
  decision_note = "";
}

record_approval_decision-Recorded_example : Recorded second_approval approved_world (
    record_approval_decision
      (at service 5)
      "tc://attempt/att_000001"
      second_approval
      approved_world)
record_approval_decision-Recorded_example =
    record_approval_decision-Recorded (at service 5) "tc://attempt/att_000001" second_approval
      approved_world

abbrev first_ref : String
first_ref = "tc://attempt/att_000001"

holder_operations-Fenced_example :
    ((req : CheckpointRequest)
      → Fenced
          (at service 5)
          first_ref
          req.endpoint_ref
          approved_world
          (submit_checkpoint (at service 5) first_ref req approved_world))
    × ((req : ReadbackRequest)
        → Fenced
            (at service 5)
            first_ref
            req.endpoint_ref
            approved_world
            (submit_readback (at service 5) first_ref req approved_world))
    × ((req : ArtifactVersionRequest)
        → Fenced
            (at service 5)
            first_ref
            req.endpoint_ref
            approved_world
            (register_artifact_version (at service 5) first_ref req approved_world))
    × ((req : SideEffectExecutionRequest)
        → Fenced
            (at service 5)
            first_ref
            req.endpoint_ref
            approved_world
            (start_side_effect_execution (at service 5) first_ref req approved_world))
    × ((req : RefreshLeaseRequest)
        → Fenced
            (at service 5)
            first_ref
            req.endpoint_ref
            approved_world
            (refresh_lease (at service 5) first_ref req approved_world))
holder_operations-Fenced_example = holder_operations-Fenced (at service 5) first_ref approved_world
