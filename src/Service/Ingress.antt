-- ===== src/Service/Ingress.antt =====
-- IngressMessage of application/service.go: a message is accepted once it is valid, routable and of
-- the quality that its gate asks for.
use touch_connect.Prelude.{String, ◌==◌, ◌!=◌, if◌then◌else◌, none, some}
use touch_connect.Contracts.Policy.{QualityDecision}
use touch_connect.Contracts.Messages.{MessageIngressRequest, MessageIngressResponse}
use touch_connect.Domain.States.{message_state_available}
use touch_connect.Domain.Errors.{capability_not_found, quality_rejected}
use touch_connect.Domain.Model.{Message}
use touch_connect.Domain.Validation.{validate_message}
use touch_connect.Exec.{Exec, pure, lift, ensure, ◌>>=◌, ◌>>◌}
use touch_connect.Memory.Ledger.{save_quality_decision, save_message}
use touch_connect.Quality.Names.{quality_decision_rejected}
use touch_connect.Quality.Rules.{ValidationInput}
use touch_connect.Quality.Gate.{validate_message_with_gate}
use touch_connect.Service.World.{Service, World, on_store, read, allocate, publish_with}
use touch_connect.Service.Lookups.{ingress_route_available}

-- if ref == "" { ref = NextRef(kind) }
unfoldable pub ref_or_allocate : String → String → Exec World String
ref_or_allocate ref kind = if ref == "" then allocate kind else pure ref

unfoldable pub accepted_message : MessageIngressRequest → String → String → Message
accepted_message req message_ref delivery_ref = record {
  message_ref = message_ref;
  delivery_ref = delivery_ref;
  sender_endpoint_ref = req.sender_endpoint_ref;
  target_capability = req.target_capability;
  target_endpoint_ref = req.target_endpoint_ref;
  preferred_endpoint_ref = req.preferred_endpoint_ref;
  depends_on_message_refs = req.depends_on_message_refs;
  payload = req.payload;
  constraints = req.constraints;
  correlation_ref = req.correlation_ref;
  readback_required = req.readback_required;
  state = message_state_available;
  attempt_ref = "";
  redelivery_count = 0;
}

-- The quality decision of a request.
unfoldable pub ingress_decision :
    Service → MessageIngressRequest → String → String → QualityDecision
ingress_decision svc req decision_ref message_ref =
    let input : ValidationInput = record {
      decision_ref = decision_ref;
      message_ref = message_ref;
      request = req;
      created_at = svc.settings.now;
      created_by = req.sender_endpoint_ref;
    } in
    validate_message_with_gate svc.platform input req.quality_gate

-- if s.delivery != nil { PublishAcceptedMessage(message) }
unfoldable pub publish_accepted : Service → Message → Exec World (Unit {0})
publish_accepted svc message = elim svc.delivery [
  | none ↦ pure tt
  | some adapter ↦ publish_with adapter message
]

-- From the quality decision on.
unfoldable pub accept_message :
    Service → Message → QualityDecision → Exec World MessageIngressResponse
unfolding publish_accepted
accept_message svc message decision = do
  on_store (save_quality_decision decision)
  ensure (decision.decision != quality_decision_rejected) (quality_rejected decision)
  on_store (save_message message)
  publish_accepted svc message
  pure (record {
    message_ref = message.message_ref;
    delivery_ref = message.delivery_ref;
    state = message.state;
    quality_decision_ref = decision.quality_decision_ref;
  })

unfoldable pub ingress_message : Service → MessageIngressRequest → Exec World MessageIngressResponse
unfolding accept_message ref_or_allocate accepted_message
ingress_message svc req = do
  lift (validate_message req)
  available ← read (λ s. ingress_route_available svc.settings s req)
  ensure available capability_not_found
  message_ref ← ref_or_allocate req.message_ref "message"
  delivery_ref ← allocate "delivery"
  decision_ref ← allocate "quality-decision"
  accept_message svc (accepted_message req message_ref delivery_ref)
      (ingress_decision svc req decision_ref message_ref)
