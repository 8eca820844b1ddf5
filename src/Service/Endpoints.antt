-- ===== src/Service/Endpoints.antt =====
-- RegisterEndpoint, HeartbeatEndpoint and AdvertiseCapabilities of application/service.go.
use touch_connect.Prelude.{
  ℕ, ◌+◌, String, Bool, false, not, ◌&&◌, ◌==◌, ◌!=◌, if◌then◌else◌, Option, none, some,
}
use touch_connect.GoText.{trim_space}
use touch_connect.Contracts.Endpoints.{
  EndpointRegistrationRequest, EndpointRegistrationResponse, EndpointHeartbeatRequest,
  EndpointHeartbeatResponse, CapabilityAdvertisementRequest, CapabilityAdvertisementResponse,
}
use touch_connect.Domain.States.{endpoint_state_online}
use touch_connect.Domain.Errors.{invalid_input, endpoint_already_online, endpoint_not_found}
use touch_connect.Domain.Model.{Endpoint}
use touch_connect.Domain.Validation.{
  validate_endpoint_registration, validate_heartbeat, validate_capabilities,
}
use touch_connect.Exec.{Exec, pure, lift, ensure, ◌>>=◌, ◌>>◌}
use touch_connect.Memory.Ledger.{get_endpoint, save_endpoint, update_endpoint, update_capabilities}
use touch_connect.Service.World.{Service, World, on_store, read, found, allocate, endpoint_is_stale}
use touch_connect.Service.Lookups.{capability_map, capability_names}

-- An endpoint that is online and has not gone stale may not be registered again.
unfoldable pub is_live_endpoint : Service → Option Endpoint → Bool
is_live_endpoint svc none = false
is_live_endpoint svc (some existing) =
    existing.connection_state == endpoint_state_online
    && not (endpoint_is_stale svc.settings existing)

unfoldable pub new_endpoint : Service → EndpointRegistrationRequest → Endpoint
new_endpoint svc req = record {
  endpoint_ref = req.endpoint_ref;
  display_name = req.display_name;
  actor_id = req.actor_id;
  workspace_id = req.workspace_id;
  connection_state = req.connection_state;
  capabilities = capability_map req.capabilities;
  execution_hints = req.execution_hints;
  worker_version = req.worker_version;
  started_at = req.started_at;
  registered_at = svc.settings.now;
  last_heartbeat_at = svc.settings.now;
  current_attempt_ref = "";
  last_activity_at = 0;
  progress_summary = "";
}

unfoldable pub register_endpoint :
    Service → EndpointRegistrationRequest → Exec World EndpointRegistrationResponse
unfolding new_endpoint is_live_endpoint
register_endpoint svc req = do
  lift (validate_endpoint_registration req)
  existing ← read (λ s. get_endpoint s req.endpoint_ref)
  ensure (not (is_live_endpoint svc existing)) endpoint_already_online
  on_store (save_endpoint (new_endpoint svc req))
  accepted_ref ← allocate "accepted"
  pure (record { endpoint_ref = req.endpoint_ref; accepted_ref = accepted_ref })

-- The time of the last activity: as reported if it parses, the heartbeat's while an attempt is at
-- work and none is reported, and unchanged otherwise.
unfoldable pub last_activity : Service → EndpointHeartbeatRequest → ℕ → ℕ
last_activity svc req before =
    if req.last_activity_at != ""
    then elim (svc.platform.parse_time req.last_activity_at) [ none ↦ before | some t ↦ t ]
    else if trim_space req.current_attempt_ref != ""
    then svc.settings.now
    else before

unfoldable pub beat : Service → EndpointHeartbeatRequest → Endpoint → Endpoint
unfolding last_activity
beat svc req endpoint = record endpoint {
  connection_state = req.connection_state;
  last_heartbeat_at = svc.settings.now;
  current_attempt_ref = trim_space req.current_attempt_ref;
  progress_summary = trim_space req.progress_summary;
  last_activity_at = last_activity svc req endpoint.last_activity_at;
}

unfoldable pub heartbeat_endpoint :
    Service → String → EndpointHeartbeatRequest → Exec World EndpointHeartbeatResponse
unfolding beat
heartbeat_endpoint svc endpoint_ref given = do
  let req : EndpointHeartbeatRequest =
      if given.endpoint_ref == "" then record given { endpoint_ref = endpoint_ref } else given
  ensure (endpoint_ref == req.endpoint_ref) invalid_input
  lift (validate_heartbeat req)
  endpoint ← read (λ s. get_endpoint s endpoint_ref) >>= found endpoint_not_found
  on_store (update_endpoint (beat svc req endpoint))
  pure (record {
    endpoint_ref = endpoint.endpoint_ref;
    connection_state = req.connection_state;
    last_heartbeat_at = svc.platform.format_time svc.settings.now;
    heartbeat_expires =
        svc.platform.format_time (svc.settings.now + svc.settings.endpoint_heartbeat_timeout);
  })

unfoldable pub advertise_capabilities :
    String → CapabilityAdvertisementRequest → Exec World CapabilityAdvertisementResponse
advertise_capabilities endpoint_ref req = do
  lift (validate_capabilities req.capabilities)
  endpoint ← on_store (update_capabilities endpoint_ref (capability_map req.capabilities))
  pure (record {
    endpoint_ref = endpoint.endpoint_ref;
    names = capability_names endpoint.capabilities;
  })
