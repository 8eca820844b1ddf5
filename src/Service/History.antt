-- ===== src/Service/History.antt =====
-- Histories of requests: any sequence of the requests of senders and workers, of
-- replayed dead letters and of canceled tasks, each with its own clock reading, from
-- an empty store.
use touch_connect.Prelude.{ℕ, String, false, ◌≡◌, refl, some, List, [], ◌∷◌, arith}
use touch_connect.GoMap.{get}
use touch_connect.Contracts.Messages.{
  MessageIngressRequest, ClaimMessageRequest, ClaimNextMessageRequest,
}
use touch_connect.Contracts.Attempts.{
  CheckpointRequest, ReadbackRequest, RefreshLeaseRequest, CompleteAttemptRequest,
}
use touch_connect.Contracts.Endpoints.{
  EndpointRegistrationRequest, EndpointHeartbeatRequest, CapabilityAdvertisementRequest,
}
use touch_connect.Contracts.Governance.{
  ArtifactVersionRequest, ArtifactFinalizeRequest, ApprovalDecisionRequest,
  SideEffectExecutionRequest, CompleteSideEffectExecutionRequest, DlqReplayRequest,
  TaskCommandRequest,
}
use touch_connect.Domain.Model.{Attempt}
use touch_connect.Memory.Store.{new_store}
use touch_connect.Memory.Invariant.Fresh.{Good}
use touch_connect.Service.AttemptState.{attempt_closed}
use touch_connect.Service.World.{Service, World}
use touch_connect.Service.Ingress.{ingress_message}
use touch_connect.Service.Claims.{service_claim_message, service_claim_next_message}
use touch_connect.Service.Attempts.{
  submit_checkpoint, submit_readback, refresh_lease, complete_attempt,
}
use touch_connect.Service.Commands.{replay_dead_letter, cancel_task}
use touch_connect.Service.Endpoints.{register_endpoint, heartbeat_endpoint, advertise_capabilities}
use touch_connect.Service.Artifacts.{register_artifact_version, finalize_artifact}
use touch_connect.Service.SideEffects.{
  record_approval_decision, start_side_effect_execution, complete_side_effect_execution,
}
use touch_connect.Service.Preserves.Records.{
  register_endpoint-Good, heartbeat_endpoint-Good, advertise_capabilities-Good,
  register_artifact_version-Good, finalize_artifact-Good, record_approval_decision-Good,
  start_side_effect_execution-Good, complete_side_effect_execution-Good,
}
use touch_connect.Service.Preserves.Claims.{service_claim_message-Good}
use touch_connect.Service.Preserves.ClaimsNext.{service_claim_next_message-Good}
use touch_connect.Service.Preserves.Checkpoints.{submit_checkpoint-Good}
use touch_connect.Service.Preserves.Leases.{submit_readback-Good, refresh_lease-Good}
use touch_connect.Service.Preserves.Completion.{complete_attempt-Good, replay_dead_letter-Good}
use touch_connect.Service.Preserves.Cancel.{cancel_task-Good}
use touch_connect.Service.Preserves.Ingress.{ingress_message-Good}

pub data Request : Type 0 where
  register : EndpointRegistrationRequest → Request
  heartbeat : String → EndpointHeartbeatRequest → Request
  advertise : String → CapabilityAdvertisementRequest → Request
  ingress : MessageIngressRequest → Request
  claim : String → ClaimMessageRequest → Request
  claim_next : ClaimNextMessageRequest → Request
  checkpoint : String → CheckpointRequest → Request
  readback : String → ReadbackRequest → Request
  refresh : String → RefreshLeaseRequest → Request
  artifact : String → ArtifactVersionRequest → Request
  finalize : ArtifactFinalizeRequest → Request
  approve : String → ApprovalDecisionRequest → Request
  side_effect : String → SideEffectExecutionRequest → Request
  finish_effect : String → CompleteSideEffectExecutionRequest → Request
  complete : String → CompleteAttemptRequest → Request
  replay : DlqReplayRequest → Request
  cancel : TaskCommandRequest → Request

-- The state after a request, whatever its answer.
unfoldable pub handle : Service → Request → World → World
handle svc (register req) w = (register_endpoint svc req w).1
handle svc (heartbeat ref req) w = (heartbeat_endpoint svc ref req w).1
handle svc (advertise ref req) w = (advertise_capabilities ref req w).1
handle svc (ingress req) w = (ingress_message svc req w).1
handle svc (claim ref req) w = (service_claim_message svc ref req w).1
handle svc (claim_next req) w = (service_claim_next_message svc req w).1
handle svc (checkpoint ref req) w = (submit_checkpoint svc ref req w).1
handle svc (readback ref req) w = (submit_readback svc ref req w).1
handle svc (refresh ref req) w = (refresh_lease svc ref req w).1
handle svc (artifact ref req) w = (register_artifact_version svc ref req w).1
handle svc (finalize req) w = (finalize_artifact svc req w).1
handle svc (approve ref req) w = (record_approval_decision svc ref req w).1
handle svc (side_effect ref req) w = (start_side_effect_execution svc ref req w).1
handle svc (finish_effect ref req) w = (complete_side_effect_execution svc ref req w).1
handle svc (complete ref req) w = (complete_attempt svc ref req w).1
handle svc (replay req) w = (replay_dead_letter svc req w).1
handle svc (cancel req) w = (cancel_task svc req w).1

-- The service when its clock reads `now`.
abbrev pub at : Service → ℕ → Service
at svc now = record svc { settings = record svc.settings { now = now } }

unfoldable pub run : Service → List (ℕ × Request) → World → World
unfolding handle
run svc [] w = w
run svc ((now, request) ∷ later) w = run svc later (handle (at svc now) request w)

abbrev pub empty_world : World
empty_world = record { store = new_store; calls = [] }

new_store-Good : (max : ℕ) → Good max new_store
unfolding get
new_store-Good max = record {
  inv = record {
    distinct = tt;
    message_keyed = λ k m e. ground arith;
    attempt_keyed = λ k a e. ground arith;
    bounded = λ k m e. ground arith;
    owned = λ k a e o. ground arith;
  };
  fresh = λ n h. refl;
}

module _ (svc : Service) where
  handle-Good :
      (request : Request) (w : World)
      → Good svc.settings.max_redelivery w.store
      → Good svc.settings.max_redelivery (handle svc request w).store
  unfolding handle
  handle-Good (register req) w g = (register_endpoint-Good svc w g req).holds
  handle-Good (heartbeat ref req) w g = (heartbeat_endpoint-Good svc w g ref req).holds
  handle-Good (advertise ref req) w g = (advertise_capabilities-Good svc w g ref req).holds
  handle-Good (ingress req) w g = (ingress_message-Good svc req w g).holds
  handle-Good (claim ref req) w g = (service_claim_message-Good svc refl ref req w g).holds
  handle-Good (claim_next req) w g = (service_claim_next_message-Good svc refl req w g).holds
  handle-Good (checkpoint ref req) w g = (submit_checkpoint-Good svc ref req w g).holds
  handle-Good (readback ref req) w g = (submit_readback-Good svc ref w g req).holds
  handle-Good (refresh ref req) w g = (refresh_lease-Good svc ref w g req).holds
  handle-Good (artifact ref req) w g = (register_artifact_version-Good svc w g ref req).holds
  handle-Good (finalize req) w g = (finalize_artifact-Good svc w g req).holds
  handle-Good (approve ref req) w g = (record_approval_decision-Good svc w g ref req).holds
  handle-Good (side_effect ref req) w g = (start_side_effect_execution-Good svc w g ref req).holds
  handle-Good (finish_effect ref req) w g =
      (complete_side_effect_execution-Good svc w g ref req).holds
  handle-Good (complete ref req) w g = (complete_attempt-Good svc ref req w g).holds
  handle-Good (replay req) w g = (replay_dead_letter-Good svc req w g).holds
  handle-Good (cancel req) w g = (cancel_task-Good svc.settings.max_redelivery svc req w g).holds

pub run-Good :
    (svc : Service) (events : List (ℕ × Request)) (w : World)
    → Good svc.settings.max_redelivery w.store
    → Good svc.settings.max_redelivery (run svc events w).store
unfolding run
run-Good svc [] w g = g
run-Good svc ((now, request) ∷ later) w g =
    run-Good svc later (handle (at svc now) request w) (handle-Good (at svc now) request w g)

-- After any sequence of requests that register endpoints, beat, advertise, ingress, claim, claim
-- next, checkpoint, read back, refresh a lease, complete attempts with follow-ups, register or
-- finalize artifacts, decide approvals, start or complete side effects, replay dead letters or
-- cancel tasks, from an empty store, each at any clock reading and with any answers of a delivery
-- adapter, the maps are keyed by their records' references, with no message key twice, no message
-- was redelivered more often than the settings allow, an attempt that is open is the current
-- attempt of a message that does not wait, and the attempt numbers not given out yet are free.
pub history-Good :
    (svc : Service) (events : List (ℕ × Request))
    → Good svc.settings.max_redelivery (run svc events empty_world).store
history-Good svc events = run-Good svc events empty_world (new_store-Good _)

-- In every such history a message has at most one open attempt: two attempts that are stored, open
-- and of the same message are stored under the same reference.
pub history_one_open_attempt :
    (svc : Service) (events : List (ℕ × Request)) (j k : String) (a b : Attempt)
    → get (run svc events empty_world).store.attempts j ≡ some a
    → get (run svc events empty_world).store.attempts k ≡ some b
    → attempt_closed a.state ≡ false
    → attempt_closed b.state ≡ false
    → a.message_ref ≡ b.message_ref
    → j ≡ k
history_one_open_attempt svc events j k a b ea eb oa ob same =
    let v = (history-Good svc events).inv in
    let (m, em, mj, _) = v.owned j a ea oa in let (n, en, nk, _) = v.owned k b eb ob in cc
