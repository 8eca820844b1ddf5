-- ===== src/Domain/Routing.antt =====
-- tc-server/internal/domain/routing.go: which endpoint may take which message.
pub mod Meaning
use touch_connect.Prelude.{
  String, Bool, true, false, not, ◌&&◌, ◌||◌, ◌==◌, if◌then◌else◌, is_some, Option, none, some,
  List, [], ◌∷◌,
}
use touch_connect.GoMap.{Map, get}
use touch_connect.GoText.{trim_space, has_prefix, has_suffix, trim_suffix}
use touch_connect.Contracts.Endpoints.{Capability}
use touch_connect.Domain.States.{message_state_completed}
use touch_connect.Domain.Model.{Endpoint, Message}

-- The body of the loop over the advertised names; `target` is trimmed.
unfoldable pub wildcard_matches : String → String → Bool
wildcard_matches name target =
    let trimmed = trim_space name in
    has_suffix trimmed ".*" && has_prefix target (trim_suffix trimmed "*")

unfoldable pub any_wildcard : Map Capability → String → Bool
unfolding wildcard_matches
any_wildcard [] target = false
any_wildcard ((name, c) ∷ rest) target = wildcard_matches name target || any_wildcard rest target

unfoldable pub capability_matches : Map Capability → String → Bool
unfolding any_wildcard
capability_matches capabilities target_capability =
    let target = trim_space target_capability in
    if target == ""
    then false
    else if is_some (get capabilities target)
    then true
    else any_wildcard capabilities target

unfoldable pub endpoint_can_handle : Endpoint → String → Bool
endpoint_can_handle endpoint target = capability_matches endpoint.capabilities target

unfoldable pub message_targets_endpoint : Message → String → Bool
message_targets_endpoint message endpoint_ref =
    message.target_endpoint_ref == "" || message.target_endpoint_ref == endpoint_ref

unfoldable pub message_routable_to_endpoint : Message → Endpoint → Bool
unfolding message_targets_endpoint
message_routable_to_endpoint message endpoint =
    message_targets_endpoint message endpoint.endpoint_ref
    && endpoint_can_handle endpoint message.target_capability

unfoldable pub message_claimable_by_endpoint : Message → Endpoint → Bool → Bool
unfolding message_routable_to_endpoint
message_claimable_by_endpoint message endpoint preferred_endpoint_online =
    let preferred = trim_space message.preferred_endpoint_ref in
    if not (message_routable_to_endpoint message endpoint)
    then false
    else preferred == "" || preferred == endpoint.endpoint_ref || not preferred_endpoint_online

unfoldable pub online_and_able : Option Endpoint → Message → Bool
online_and_able none message = false
online_and_able (some endpoint) message = endpoint_can_handle endpoint message.target_capability

unfoldable pub preferred_endpoint_online_for_message : Message → Map Endpoint → Bool
unfolding online_and_able
preferred_endpoint_online_for_message message endpoints =
    let preferred = trim_space message.preferred_endpoint_ref in
    if preferred == "" then false else online_and_able (get endpoints preferred) message

-- states[ref] != MessageStateCompleted, where a missing key reads as "".
unfoldable pub is_completed : Option String → Bool
is_completed none = false
is_completed (some state) = state == message_state_completed

unfoldable pub dependencies_completed : List String → Map String → Bool
unfolding is_completed
dependencies_completed [] states = true
dependencies_completed (r ∷ refs) states =
    let ref = trim_space r in
    (ref == "" || is_completed (get states ref)) && dependencies_completed refs states

unfoldable pub message_dependencies_completed : Message → Map String → Bool
unfolding dependencies_completed
message_dependencies_completed message states =
    dependencies_completed message.depends_on_message_refs states
