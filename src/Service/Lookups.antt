-- ===== src/Service/Lookups.antt =====
-- The reads of application/service.go that several operations share.
use touch_connect.Prelude.{
  String, Bool, true, false, not, ◌&&◌, ◌==◌, if◌then◌else◌, none, some, List, [], ◌∷◌, map, any,
  is_empty,
}
use touch_connect.GoMap.{Map, put}
use touch_connect.GoText.{trim_space}
use touch_connect.Contracts.Endpoints.{Capability}
use touch_connect.Contracts.Messages.{MessageIngressRequest}
use touch_connect.Domain.States.{endpoint_state_online, endpoint_state_stale}
use touch_connect.Domain.Model.{Endpoint, Message, Snapshot}
use touch_connect.Domain.Routing.{
  endpoint_can_handle, message_claimable_by_endpoint, message_dependencies_completed,
}
use touch_connect.Memory.Store.{Store}
use touch_connect.Memory.Ledger.{get_endpoint, get_message}
use touch_connect.Memory.Snapshots.{snapshot}
use touch_connect.Service.World.{Settings, endpoint_is_stale}

-- The loop of Snapshot: an online endpoint whose heartbeat is late reads as stale.
unfoldable pub mark_stale : Settings → Endpoint → Endpoint
mark_stale settings endpoint =
    if endpoint.connection_state == endpoint_state_online && endpoint_is_stale settings endpoint
    then record endpoint { connection_state = endpoint_state_stale }
    else endpoint

unfoldable pub service_snapshot : Settings → Store → Snapshot
unfolding mark_stale
service_snapshot settings s =
    let all = snapshot s in record all { endpoints = map (mark_stale settings) all.endpoints }

unfoldable pub ingress_route_available : Settings → Store → MessageIngressRequest → Bool
unfolding any
ingress_route_available settings s req =
    if not (req.target_endpoint_ref == "")
    then elim (get_endpoint s req.target_endpoint_ref) [
      | none ↦ false
      | some endpoint ↦ endpoint_can_handle endpoint req.target_capability
    ]
    else any (λ endpoint. endpoint_can_handle endpoint req.target_capability)
        (service_snapshot settings s).endpoints

unfoldable pub preferred_endpoint_online : Settings → Store → Message → Bool
preferred_endpoint_online settings s message =
    let preferred = trim_space message.preferred_endpoint_ref in
    if preferred == "" then false else elim (get_endpoint s preferred) [
      | none ↦ false
      | some endpoint ↦
          not (endpoint_is_stale settings endpoint)
          && endpoint_can_handle endpoint message.target_capability
    ]

unfoldable pub service_claimable : Settings → Store → Message → Endpoint → Bool
service_claimable settings s message endpoint =
    message_claimable_by_endpoint message endpoint (preferred_endpoint_online settings s message)

unfoldable pub online_of : List Endpoint → Map Endpoint → Map Endpoint
online_of [] active = active
online_of (endpoint ∷ rest) active = online_of rest (
    if endpoint.connection_state == endpoint_state_online
    then put active endpoint.endpoint_ref endpoint
    else active)

unfoldable pub online_endpoints_by_ref : Settings → Store → Map Endpoint
unfolding online_of
online_endpoints_by_ref settings s = online_of (service_snapshot settings s).endpoints []

-- The states of the dependencies that are known, each under the reference as the message has it.
unfoldable pub dependency_states : Store → List String → Map String → Map String
dependency_states s [] states = states
dependency_states s (ref ∷ refs) states = elim (get_message s ref) [
  | none ↦ dependency_states s refs states
  | some dependency ↦ dependency_states s refs (put states ref dependency.state)
]

unfoldable pub service_dependencies_completed : Store → Message → Bool
unfolding dependency_states
service_dependencies_completed s message =
    if is_empty message.depends_on_message_refs
    then true
    else message_dependencies_completed message
        (dependency_states s message.depends_on_message_refs [])

unfoldable pub capability_map_from : Map Capability → List Capability → Map Capability
capability_map_from m [] = m
capability_map_from m (item ∷ rest) = capability_map_from (put m item.name item) rest

unfoldable pub capability_map : List Capability → Map Capability
unfolding capability_map_from
capability_map capabilities = capability_map_from [] capabilities

-- Go leaves the order open.
unfoldable pub capability_names : Map Capability → List String
capability_names [] = []
capability_names ((name, c) ∷ rest) = name ∷ capability_names rest
