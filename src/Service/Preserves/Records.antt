-- ===== src/Service/Preserves/Records.antt =====
-- The operations on endpoints, artifacts, approvals and side effects.
use touch_connect.Prelude.{
  ℕ, String, is_some, refl, none, some, Option, inl, inr, arith, eq_iff, Option-cases,
}
use touch_connect.GoMap.{Map, get}
use touch_connect.Contracts.Endpoints.{
  Capability, EndpointRegistrationRequest, EndpointHeartbeatRequest, CapabilityAdvertisementRequest,
}
use touch_connect.Contracts.Governance.{
  ArtifactVersionRequest, ArtifactFinalizeRequest, ApprovalDecisionRequest,
  SideEffectExecutionRequest, CompleteSideEffectExecutionRequest,
}
use touch_connect.Domain.Model.{
  Endpoint, Attempt, ArtifactVersion, ArtifactFinalization, ApprovalDecision, SideEffectExecution,
}
use touch_connect.Memory.Refs.{sequence}
use touch_connect.Memory.Ledger.{
  save_endpoint, update_endpoint, update_capabilities, save_artifact_version,
  save_artifact_finalization, save_approval_decision, find_effect, save_side_effect_execution,
  update_side_effect_execution,
}
use touch_connect.Memory.Invariant.Fresh.{Good}
use touch_connect.Service.World.{Service, World, on_store}
use touch_connect.Service.Rules.{
  Ends, Ends-lookup, Ends-read, Ends-ensure, Ends-lift, Ends-found, Ends-then, Ends-pure,
}
use touch_connect.Service.Guards.{require_live_attempt-Ends, require_approved_decision-Ends}
use touch_connect.Service.Endpoints.{register_endpoint, heartbeat_endpoint, advertise_capabilities}
use touch_connect.Service.Artifacts.{register_artifact_version, finalize_artifact, finalize_known}
use touch_connect.Service.SideEffects.{
  record_approval_decision, start_side_effect_execution, complete_side_effect_execution,
}
use touch_connect.Service.Preserves.Basics.{
  GoodAfter, Keeps, SameLedger-refl, SameLedger-if, Ends-Keeps, on_store-Keeps, allocate-Keeps,
}

module _ (w : World) where
  save_endpoint-Keeps : (e : Endpoint) → Ends (Keeps w) (on_store (save_endpoint e)) w
  unfolding save_endpoint sequence
  save_endpoint-Keeps e =
      on_store-Keeps _ w
        (record { messages_same = refl; attempts_same = refl; sequence_same = refl })

  update_endpoint-Keeps : (e : Endpoint) → Ends (Keeps w) (on_store (update_endpoint e)) w
  unfolding update_endpoint sequence
  update_endpoint-Keeps e = on_store-Keeps _ w (
      SameLedger-if (is_some (get w.store.endpoints e.endpoint_ref)) _ _
        (record { messages_same = refl; attempts_same = refl; sequence_same = refl })
        (SameLedger-refl w.store))

  update_capabilities-Keeps :
      (ref : String) (c : Map Capability) → Ends (Keeps w) (on_store (update_capabilities ref c)) w
  unfolding on_store update_capabilities
  update_capabilities-Keeps ref c = elim (Option-cases (get w.store.endpoints ref)) [
    | inl e ↦ record { holds = rw (e, update_capabilities) (SameLedger-refl w.store) }
    | inr (x, e) ↦ record {
      holds =
          rw (e, update_capabilities)
            (unfold sequence in
              record { messages_same = refl; attempts_same = refl; sequence_same = refl });
    }
  ]

  save_artifact_version-Keeps :
      (v : ArtifactVersion) → Ends (Keeps w) (on_store (save_artifact_version v)) w
  unfolding save_artifact_version sequence
  save_artifact_version-Keeps v = on_store-Keeps _ w (
      SameLedger-if (is_some (get w.store.artifacts v.artifact_version_ref)) _ _
        (SameLedger-refl w.store)
        (record { messages_same = refl; attempts_same = refl; sequence_same = refl }))

  save_artifact_finalization-Keeps :
      (f : ArtifactFinalization) → Ends (Keeps w) (on_store (save_artifact_finalization f)) w
  unfolding save_artifact_finalization sequence
  save_artifact_finalization-Keeps f =
      on_store-Keeps _ w
        (record { messages_same = refl; attempts_same = refl; sequence_same = refl })

  save_approval_decision-Keeps :
      (d : ApprovalDecision) → Ends (Keeps w) (on_store (save_approval_decision d)) w
  unfolding save_approval_decision sequence
  save_approval_decision-Keeps d = on_store-Keeps _ w (
      SameLedger-if (is_some (get w.store.approvals d.approval_ref)) _ _ (SameLedger-refl w.store)
        (record { messages_same = refl; attempts_same = refl; sequence_same = refl }))

  save_side_effect-Keeps :
      (x : SideEffectExecution) → Ends (Keeps w) (on_store (save_side_effect_execution x)) w
  unfolding on_store save_side_effect_execution
  save_side_effect-Keeps x = elim (Option-cases (find_effect x w.store.side_effects)) [
    | inl e ↦ record {
      holds =
          rw (e, save_side_effect_execution)
            (SameLedger-if (is_some (get w.store.side_effects x.side_effect_execution_ref)) _ _
              (SameLedger-refl w.store)
              (unfold sequence in
                record { messages_same = refl; attempts_same = refl; sequence_same = refl }));
    }
    | inr (z, e) ↦ record { holds = rw (e, save_side_effect_execution) (SameLedger-refl w.store) }
  ]

  update_side_effect-Keeps :
      (x : SideEffectExecution) → Ends (Keeps w) (on_store (update_side_effect_execution x)) w
  unfolding update_side_effect_execution sequence
  update_side_effect-Keeps x = on_store-Keeps _ w (
      SameLedger-if (is_some (get w.store.side_effects x.side_effect_execution_ref)) _ _
        (record { messages_same = refl; attempts_same = refl; sequence_same = refl })
        (SameLedger-refl w.store))

module _ {max : ℕ} (svc : Service) (w : World) (g : Good max w.store) where
  pub register_endpoint-Good :
      (req : EndpointRegistrationRequest) → Ends (GoodAfter max) (register_endpoint svc req) w
  unfolding register_endpoint
  register_endpoint-Good req =
      Ends-lift _ _ (λ _. g)
        λ _ _. Ends-read _ _ (
          Ends-ensure _ _ _ g λ _. Ends-Keeps _ _ g (save_endpoint-Keeps w _) λ _ v _ good.
            Ends-Keeps _ _ good
              (allocate-Keeps "accepted" v (ground (arith, eq_iff "accepted" "attempt")))
              λ _ _ _ last. Ends-pure _ last)

  pub heartbeat_endpoint-Good :
      (ref : String) (req : EndpointHeartbeatRequest)
      → Ends (GoodAfter max) (heartbeat_endpoint svc ref req) w
  unfolding heartbeat_endpoint
  heartbeat_endpoint-Good ref req = Ends-ensure _ _ _ g λ _.
      Ends-lift _ _ (λ _. g)
        λ _ _. Ends-lookup _ _ _ g λ (endpoint : Endpoint) _.
          Ends-Keeps _ _ g (update_endpoint-Keeps w _) λ _ _ _ last. Ends-pure _ last

  pub advertise_capabilities-Good :
      (ref : String) (req : CapabilityAdvertisementRequest)
      → Ends (GoodAfter max) (advertise_capabilities ref req) w
  unfolding advertise_capabilities
  advertise_capabilities-Good ref req =
      Ends-lift _ _ (λ _. g)
        λ _ _. Ends-Keeps _ _ g (update_capabilities-Keeps w ref _) λ _ _ _ last. Ends-pure _ last

  pub register_artifact_version-Good :
      (ref : String) (req : ArtifactVersionRequest)
      → Ends (GoodAfter max) (register_artifact_version svc ref req) w
  unfolding register_artifact_version
  register_artifact_version-Good ref req =
      Ends-lift _ _ (λ _. g)
        λ _ _.
          Ends-then (GoodAfter max) _ _ (require_live_attempt-Ends svc w ref req.endpoint_ref)
            (λ e v same. rw same g)
            λ attempt v (live, same). rw same (
              Ends-lookup _ _ _ g λ (endpoint : Endpoint) _. Ends-read _ _ (
                Ends-ensure _ _ _ g λ _. Ends-read _ _ (
                  Ends-ensure _ _ _ g λ _.
                    Ends-Keeps _ _ g (save_artifact_version-Keeps w _)
                      λ _ _ _ last. Ends-pure _ last)))

  finalize_known-Good :
      (req : ArtifactFinalizeRequest) (o : Option ArtifactFinalization)
      → Ends (GoodAfter max) (finalize_known svc req o) w
  unfolding finalize_known
  finalize_known-Good req (some existing) = Ends-pure _ g
  finalize_known-Good req none =
      Ends-Keeps _ _ g
        (allocate-Keeps "artifact-finalization" w
          (ground (arith, eq_iff "artifact-finalization" "attempt")))
        λ _ v _ good.
          Ends-Keeps _ _ good (save_artifact_finalization-Keeps v _) λ _ _ _ last. Ends-pure _ last

  pub finalize_artifact-Good :
      (req : ArtifactFinalizeRequest) → Ends (GoodAfter max) (finalize_artifact svc req) w
  unfolding finalize_artifact
  finalize_artifact-Good req =
      Ends-ensure _ _ _ g
        λ _. Ends-read _ _ (Ends-ensure _ _ _ g λ _. Ends-read _ _ (finalize_known-Good req _))

  pub record_approval_decision-Good :
      (ref : String) (req : ApprovalDecisionRequest)
      → Ends (GoodAfter max) (record_approval_decision svc ref req) w
  unfolding record_approval_decision
  record_approval_decision-Good ref req =
      Ends-lift _ _ (λ _. g)
        λ _ _. Ends-lookup _ _ _ g λ (attempt : Attempt) _. Ends-found _ _ _ g λ expires_at _.
          Ends-Keeps _ _ g (save_approval_decision-Keeps w _) λ _ _ _ last. Ends-pure _ last

  pub start_side_effect_execution-Good :
      (ref : String) (req : SideEffectExecutionRequest)
      → Ends (GoodAfter max) (start_side_effect_execution svc ref req) w
  unfolding start_side_effect_execution
  start_side_effect_execution-Good ref req =
      Ends-lift _ _ (λ _. g)
        λ _ _.
          Ends-then (GoodAfter max) _ _ (require_live_attempt-Ends svc w ref req.endpoint_ref)
            (λ e v same. rw same g)
            λ attempt v (live, same). rw same (
              Ends-lookup _ _ _ g λ (endpoint : Endpoint) _.
                Ends-then (GoodAfter max) _ _ (require_approved_decision-Ends svc w attempt req)
                  (λ e v same. rw same g)
                  λ x v (approved, same). rw same (
                    Ends-Keeps _ _ g
                      (allocate-Keeps "side-effect" w
                        (ground (arith, eq_iff "side-effect" "attempt")))
                      λ _ u _ good.
                        Ends-Keeps _ _ good (save_side_effect-Keeps u _)
                          λ _ _ _ last. Ends-pure _ last))

  pub complete_side_effect_execution-Good :
      (ref : String) (req : CompleteSideEffectExecutionRequest)
      → Ends (GoodAfter max) (complete_side_effect_execution svc ref req) w
  unfolding complete_side_effect_execution
  complete_side_effect_execution-Good ref req =
      Ends-lift _ _ (λ _. g)
        λ _ _. Ends-lookup _ _ _ g λ (x : SideEffectExecution) _. Ends-ensure _ _ _ g λ _.
          Ends-then (GoodAfter max) _ _
            (require_live_attempt-Ends svc w x.attempt_ref req.endpoint_ref) (λ e v same. rw same g)
            λ attempt v (live, same).
              rw same
                (Ends-Keeps _ _ g (update_side_effect-Keeps w _) λ _ _ _ last. Ends-pure _ last)
