-- ===== src/Service/Artifacts.antt =====
-- application/artifact_service.go and artifact_finalize_service.go.
use touch_connect.Prelude.{
  String, Bool, true, false, not, ◌||◌, ◌==◌, is_some, Option, none, some, every,
}
use touch_connect.Platform.{Platform, format_optional_time}
use touch_connect.Contracts.Governance.{
  ArtifactVersionRequest, ArtifactVersionResponse, ArtifactFinalizeRequest,
  ArtifactFinalizeResponse,
}
use touch_connect.Domain.Errors.{
  invalid_input, endpoint_not_found, message_not_found, artifact_not_found,
}
use touch_connect.Domain.Model.{Endpoint, Attempt, ArtifactVersion, ArtifactFinalization}
use touch_connect.Domain.Validation.{validate_artifact_version}
use touch_connect.Exec.{Exec, pure, lift, ensure, ◌>>=◌, ◌>>◌}
use touch_connect.Memory.Ledger.{
  get_endpoint, get_message, get_artifact_version, get_artifact_finalization, save_artifact_version,
  save_artifact_finalization,
}
use touch_connect.Service.World.{Service, World, on_store, read, found, allocate}
use touch_connect.Service.Attempts.{require_live_attempt}

unfoldable pub new_artifact_version :
    Service → ArtifactVersionRequest → Attempt → Endpoint → ArtifactVersion
new_artifact_version svc req attempt endpoint = record {
  artifact_ref = req.artifact_ref;
  artifact_version_ref = req.artifact_version_ref;
  room_ref = req.room_ref;
  task_ref = req.task_ref;
  task_revision = req.task_revision;
  kind = req.kind;
  media_type = req.media_type;
  size_bytes = req.size_bytes;
  checksum = req.checksum;
  storage_ref = req.storage_ref;
  retention_class = req.retention_class;
  access_scope = req.access_scope;
  based_on_message_refs = req.based_on_message_refs;
  based_on_artifact_version_refs = req.based_on_artifact_version_refs;
  created_by_actor_id = endpoint.actor_id;
  created_by_endpoint_ref = endpoint.endpoint_ref;
  message_ref = attempt.message_ref;
  attempt_ref = attempt.attempt_ref;
  created_at = svc.settings.now;
}

unfoldable pub register_artifact_version :
    Service → String → ArtifactVersionRequest → Exec World ArtifactVersionResponse
unfolding new_artifact_version every
register_artifact_version svc attempt_ref req = do
  lift (validate_artifact_version req)
  attempt ← require_live_attempt svc attempt_ref req.endpoint_ref
  endpoint ← read (λ s. get_endpoint s req.endpoint_ref) >>= found endpoint_not_found
  known ← read (λ s. is_some (get_message s attempt.message_ref))
  ensure known message_not_found
  based ←
      read (λ s.
        every (λ ref. is_some (get_artifact_version s ref)) req.based_on_artifact_version_refs)
  ensure based artifact_not_found
  let version = new_artifact_version svc req attempt endpoint
  on_store (save_artifact_version version)
  pure (record {
    artifact_ref = version.artifact_ref;
    artifact_version_ref = version.artifact_version_ref;
    attempt_ref = version.attempt_ref;
    message_ref = version.message_ref;
    created_by_endpoint_ref = version.created_by_endpoint_ref;
    created_at = svc.platform.format_time version.created_at;
  })

unfoldable pub artifact_finalize_response :
    Platform → ArtifactFinalization → Bool → ArtifactFinalizeResponse
artifact_finalize_response platform finalization deduped = record {
  artifact_version_ref = finalization.artifact_version_ref;
  finalization_ref = finalization.finalization_ref;
  state = "finalized";
  finalized_by_actor_id = finalization.finalized_by_actor_id;
  finalized_at = format_optional_time platform finalization.finalized_at;
  deduped = deduped;
}

-- With what is stored under the version already.
unfoldable pub finalize_known :
    Service
    → ArtifactFinalizeRequest
    → Option ArtifactFinalization
    → Exec World ArtifactFinalizeResponse
unfolding artifact_finalize_response
finalize_known svc req (some existing) =
    pure (artifact_finalize_response svc.platform existing true)
finalize_known svc req none = do
  finalization_ref ← allocate "artifact-finalization"
  let finalization : ArtifactFinalization = record {
    artifact_version_ref = req.artifact_version_ref;
    finalization_ref = finalization_ref;
    finalized_by_actor_id = req.actor_id;
    reason = req.reason;
    finalized_at = svc.settings.now;
  }
  on_store (save_artifact_finalization finalization)
  pure (artifact_finalize_response svc.platform finalization false)

unfoldable pub finalize_artifact :
    Service → ArtifactFinalizeRequest → Exec World ArtifactFinalizeResponse
unfolding finalize_known
finalize_artifact svc req = do
  ensure (not (req.artifact_version_ref == "" || req.actor_id == "")) invalid_input
  known ← read (λ s. is_some (get_artifact_version s req.artifact_version_ref))
  ensure known artifact_not_found
  existing ← read (λ s. get_artifact_finalization s req.artifact_version_ref)
  finalize_known svc req existing
