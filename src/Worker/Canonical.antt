-- ===== src/Worker/Canonical.antt =====
-- tc-worker/internal/runtime/canonical.go: the fixed scenario that a claim may ask for, and the
-- readback of runtime.go.
use Prim.Native.String
use Prim.Native.String.{len}
use touch_connect.Prelude.{
  ℕ, zero, suc, ◌+◌, pos, String, Bool, not, ◌==◌, if◌then◌else◌, List, [], ◌∷◌, ◌++◌, map, any,
  items,
}
use touch_connect.GoText.{trim_space}
use touch_connect.Contracts.Messages.{ClaimMessageResponse, Constraint}
use touch_connect.Contracts.Governance.{ArtifactVersionRequest}
use touch_connect.Worker.Work.{
  Ports, Work, MissingField, ExecutionResult, pure, call, mark_progress, mark_readback_submitted,
  readback_already_submitted, ◌>>=◌, ◌>>◌,
}

infixr 66 ◌&◌
abbrev ◌&◌ : String → String → String
s & t = String.◌++◌ s t

-- value[:n], of ASCII.
unfoldable pub prefix : ℕ → String → String
prefix zero s = ""
prefix (suc n) String.[] = ""
prefix (suc n) (String.◌∷◌ c s) = String.◌∷◌ c (prefix n s)

unfoldable pub is_canonical_scenario : ClaimMessageResponse → Bool
is_canonical_scenario claim =
    any (λ (c : Constraint). c.code == "canonical_scenario") (items claim.constraints)

unfoldable pub last_artifact_ref : List String → String
last_artifact_ref [] = "tc://artifact-version/canonical-empty"
last_artifact_ref (x ∷ []) = x
last_artifact_ref (x ∷ y ∷ xs) = last_artifact_ref (y ∷ xs)

pub record CanonicalArtifactSpec : Type 0 where
  pub name : String
  pub kind : String
  pub media_type : String
  pub body : String

abbrev pub canonical_specs : List CanonicalArtifactSpec
canonical_specs =
    record {
      name = "task_brief";
      kind = "document";
      media_type = "text/markdown";
      body =
          "canonical task brief\n\n- handoff accepted\n- implementation and review evidence required\n";
    }
    ∷ record {
      name = "validation_report";
      kind = "test_report";
      media_type = "application/json";
      body =
          "{\"sonarqube_quality_gate\":\"pass\",\"tests\":\"pass\",\"scenario\":\"canonical\"}\n";
    }
    ∷ []

module _ {S : Type 0} (p : Ports S) where
  unfoldable pub short_digest : String → String
  unfolding prefix
  short_digest value = prefix 16 (p.sha256_hex value)

  unfoldable pub task_ref_for_claim : ClaimMessageResponse → String
  unfolding short_digest trim_space
  task_ref_for_claim claim =
      if not (trim_space claim.correlation_ref == "")
      then claim.correlation_ref
      else "tc://task/canonical_" & short_digest claim.message_ref

  unfoldable pub submit_readback : ClaimMessageResponse → List MissingField → Work S (Unit {0})
  submit_readback claim fields = do
    mark_progress claim.attempt_ref "readback submitted"
    call (
        p.submit_readback claim.attempt_ref (record {
          endpoint_ref = p.endpoint_ref;
          summary = "readback submitted before execution";
          understanding =
              "target capability=" & claim.target_capability & "; payload=" & claim.payload_summary;
          questions = [];
          missing_fields = map MissingField.name fields;
          missing_reasons = map MissingField.reason fields;
          confidence_band = "";
        }))
    mark_readback_submitted claim.attempt_ref

  unfoldable pub submit_readback_when_required :
      ClaimMessageResponse → List MissingField → Work S (Unit {0})
  unfolding submit_readback readback_already_submitted
  submit_readback_when_required claim fields r =
      if not claim.readback_required
      then pure tt r
      else if readback_already_submitted claim.attempt_ref r
      then pure tt r
      else submit_readback claim fields r

  unfoldable pub canonical_artifact_request :
      ClaimMessageResponse → CanonicalArtifactSpec → ℕ → List String → ArtifactVersionRequest
  unfolding prefix task_ref_for_claim
  canonical_artifact_request claim spec revision based_on =
      let digest = p.sha256_hex (spec.name & "|" & claim.attempt_ref & "|" & spec.body) in
      record {
        endpoint_ref = p.endpoint_ref;
        artifact_ref = "tc://artifact/canonical-" & spec.name & "_" & prefix 16 digest;
        artifact_version_ref =
            "tc://artifact-version/canonical-" & spec.name & "_" & prefix 16 digest;
        room_ref = "tc://room/canonical";
        task_ref = task_ref_for_claim claim;
        task_revision = pos revision;
        kind = spec.kind;
        media_type = spec.media_type;
        size_bytes = pos (len spec.body);
        checksum = "sha256:" & p.sha256_hex spec.body;
        storage_ref = "memory://canonical/" & spec.name & "/" & prefix 16 digest;
        retention_class = "audit";
        access_scope = "task";
        based_on_message_refs = claim.message_ref ∷ [];
        based_on_artifact_version_refs = based_on;
      }

  -- The loop of registerCanonicalArtifacts: `i` is the index of the next.
  unfoldable pub register_artifacts :
      ClaimMessageResponse → List CanonicalArtifactSpec → ℕ → List String → Work S (List String)
  unfolding canonical_artifact_request
  register_artifacts claim [] i refs = pure refs
  register_artifacts claim (spec ∷ specs) i refs = do
    registered ← call (
        p.register_artifact_version claim.attempt_ref
          (canonical_artifact_request claim spec (i + 1) refs))
    register_artifacts claim specs (i + 1) (refs ++ registered.artifact_version_ref ∷ [])

  unfoldable pub complete_canonical_claim :
      ClaimMessageResponse → ExecutionResult → Work S (Unit {0})
  unfolding submit_readback_when_required register_artifacts last_artifact_ref task_ref_for_claim
      short_digest
  complete_canonical_claim claim result = do
    submit_readback_when_required claim []
    created ← register_artifacts claim canonical_specs 0 []
    let artifact_refs = result.artifact_refs ++ created
    call (
        p.submit_checkpoint claim.attempt_ref (record {
          endpoint_ref = p.endpoint_ref;
          state = "in_progress";
          summary = "canonical scenario artifacts recorded";
          artifact_refs = artifact_refs;
          failure_reason_code = "";
          missing_fields = [];
          missing_reasons = [];
        }))
    let digest = short_digest claim.attempt_ref
    let approval_ref = "tc://approval/canonical_" & digest
    let approval_hash = "sha256:" & p.sha256_hex ("approval|" & claim.attempt_ref)
    call (
        p.record_approval_decision claim.attempt_ref (record {
          approval_ref = approval_ref;
          target_type = "side_effect";
          target_ref = "tc://protected-scope/canonical_" & digest;
          requested_by_actor_id = "actor.human_requester";
          approver_subjects_or_roles = "role.human_approver" ∷ [];
          approval_scope = "workspace";
          approval_hash = approval_hash;
          status = "approved";
          reason = "canonical success run approval";
          expires_at = "";
          decided_by_actor_id = "actor.human_approver";
          decision_note = "approved for canonical scenario";
        }))
    started ← call (
        p.start_side_effect_execution claim.attempt_ref (record {
          endpoint_ref = p.endpoint_ref;
          idempotency_key = "canonical:" & digest;
          protected_scope = "workspace:canonical-side-effect";
          approval_ref = approval_ref;
          approval_hash = approval_hash;
          task_ref = task_ref_for_claim claim;
          operation_kind = "canonical_noop";
          external_target = "local://canonical/protected-side-effect";
          requested_by_actor_id = "actor.human_requester";
        }))
    if started.deduped
        then pure tt
        else (call (
              p.complete_side_effect_execution started.side_effect_execution_ref (record {
                endpoint_ref = p.endpoint_ref;
                status = "succeeded";
                result_ref = last_artifact_ref artifact_refs;
                failure_reason_code = "";
              }))
            >> pure tt)
    call (
        p.complete_attempt claim.attempt_ref (record {
          endpoint_ref = p.endpoint_ref;
          summary = "canonical scenario completed";
          artifact_refs = artifact_refs;
          follow_up_messages = [];
        }))
    pure tt
