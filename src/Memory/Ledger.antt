-- ===== src/Memory/Ledger.antt =====
-- The records of memory/store.go: endpoints, messages, attempts, checkpoints, readbacks, artifacts,
-- approvals and quality decisions. Reads leave the store alone and are plain functions.
use touch_connect.Prelude.{
  ◌+◌, String, Bool, true, false, ◌&&◌, ◌||◌, ◌==◌, if◌then◌else◌, is_some, Option, none, some,
  List, [], ◌∷◌, ◌++◌, length, any,
}
use touch_connect.GoMap.{Map, get, put}
use touch_connect.Contracts.Policy.{QualityDecision}
use touch_connect.Contracts.Endpoints.{Capability}
use touch_connect.Domain.Errors.{
  ok, err, invalid_input, endpoint_not_found, message_not_found, attempt_not_found, artifact_exists,
  side_effect_conflict, side_effect_not_found,
}
use touch_connect.Domain.Model.{
  Endpoint, Message, Attempt, Checkpoint, Readback, ArtifactVersion, ArtifactFinalization,
  ApprovalDecision, SideEffectExecution,
}
use touch_connect.Domain.Routing.{endpoint_can_handle}
use touch_connect.Exec.{Exec}
use touch_connect.Memory.Store.{Store}
use touch_connect.Memory.Claim.{slice_at}

unfoldable pub save_endpoint : Endpoint → Exec Store (Unit {0})
save_endpoint e s = (ok tt, record s { endpoints = put s.endpoints e.endpoint_ref e })

unfoldable pub get_endpoint : Store → String → Option Endpoint
get_endpoint s ref = get s.endpoints ref

unfoldable pub update_capabilities : String → Map Capability → Exec Store Endpoint
update_capabilities ref capabilities s = elim (get s.endpoints ref) [
  | none ↦ (err endpoint_not_found, s)
  | some e ↦
      let e' : Endpoint = record e { capabilities = capabilities } in
      (ok e', record s { endpoints = put s.endpoints ref e' })
]

unfoldable pub update_endpoint : Endpoint → Exec Store (Unit {0})
update_endpoint e s =
    if is_some (get s.endpoints e.endpoint_ref)
    then (ok tt, record s { endpoints = put s.endpoints e.endpoint_ref e })
    else (err endpoint_not_found, s)

unfoldable pub able_endpoints : Map Endpoint → String → List Endpoint
able_endpoints [] capability = []
able_endpoints ((k, e) ∷ rest) capability =
    let later = able_endpoints rest capability in
    if endpoint_can_handle e capability then e ∷ later else later

unfoldable pub capability_endpoints : Store → String → List Endpoint
unfolding able_endpoints
capability_endpoints s capability = able_endpoints s.endpoints capability

unfoldable pub save_message : Message → Exec Store (Unit {0})
save_message m s =
    if is_some (get s.messages m.message_ref)
    then (err invalid_input, s)
    else (ok tt, record s { messages = put s.messages m.message_ref m })

unfoldable pub get_message : Store → String → Option Message
get_message s ref = get s.messages ref

unfoldable pub update_message : Message → Exec Store (Unit {0})
update_message m s =
    if is_some (get s.messages m.message_ref)
    then (ok tt, record s { messages = put s.messages m.message_ref m })
    else (err message_not_found, s)

unfoldable pub save_quality_decision : QualityDecision → Exec Store (Unit {0})
unfolding slice_at any
save_quality_decision d s =
    let existing = slice_at s.quality_decisions d.message_ref in
    if d.quality_decision_ref == "" || d.message_ref == ""
    then (err invalid_input, s)
    else if any (λ (x : QualityDecision). x.quality_decision_ref == d.quality_decision_ref) existing
    then (err invalid_input, s)
    else (
      ok tt,
      record s { quality_decisions = put s.quality_decisions d.message_ref (existing ++ d ∷ []) },
    )

unfoldable pub quality_decisions_of : Store → String → List QualityDecision
unfolding slice_at
quality_decisions_of s message_ref = slice_at s.quality_decisions message_ref

unfoldable pub save_attempt : Attempt → Exec Store (Unit {0})
save_attempt a s = (ok tt, record s { attempts = put s.attempts a.attempt_ref a })

unfoldable pub get_attempt : Store → String → Option Attempt
get_attempt s ref = get s.attempts ref

unfoldable pub update_attempt : Attempt → Exec Store (Unit {0})
update_attempt a s =
    if is_some (get s.attempts a.attempt_ref)
    then (ok tt, record s { attempts = put s.attempts a.attempt_ref a })
    else (err attempt_not_found, s)

unfoldable pub save_checkpoint : Checkpoint → Exec Store Checkpoint
unfolding slice_at
save_checkpoint c s =
    let existing = slice_at s.checkpoints c.attempt_ref in
    let c' : Checkpoint = record c { revision = length existing + 1 } in
    (ok c', record s { checkpoints = put s.checkpoints c.attempt_ref (existing ++ c' ∷ []) })

unfoldable pub save_readback : Readback → Exec Store Readback
unfolding slice_at
save_readback r s =
    let existing = slice_at s.readbacks r.attempt_ref in
    let r' : Readback = record r { revision = length existing + 1 } in
    (ok r', record s { readbacks = put s.readbacks r.attempt_ref (existing ++ r' ∷ []) })

unfoldable pub save_artifact_version : ArtifactVersion → Exec Store (Unit {0})
save_artifact_version v s =
    if is_some (get s.artifacts v.artifact_version_ref)
    then (err artifact_exists, s)
    else (ok tt, record s { artifacts = put s.artifacts v.artifact_version_ref v })

unfoldable pub get_artifact_version : Store → String → Option ArtifactVersion
get_artifact_version s ref = get s.artifacts ref

unfoldable pub save_artifact_finalization : ArtifactFinalization → Exec Store (Unit {0})
save_artifact_finalization f s =
    (ok tt, record s { finalizations = put s.finalizations f.artifact_version_ref f })

unfoldable pub get_artifact_finalization : Store → String → Option ArtifactFinalization
get_artifact_finalization s ref = get s.finalizations ref

unfoldable pub save_approval_decision : ApprovalDecision → Exec Store (Unit {0})
save_approval_decision d s =
    if is_some (get s.approvals d.approval_ref)
    then (err side_effect_conflict, s)
    else (ok tt, record s { approvals = put s.approvals d.approval_ref d })

unfoldable pub get_approval_decision : Store → String → Option ApprovalDecision
get_approval_decision s ref = get s.approvals ref

-- The test of the loop of SaveSideEffectExecution.
abbrev pub same_effect : SideEffectExecution → SideEffectExecution → Bool
same_effect a b = a.idempotency_key == b.idempotency_key && a.protected_scope == b.protected_scope

-- The first execution with the key and scope of `x`. Go's range may take any; saving stores no second.
unfoldable pub find_effect :
    SideEffectExecution → Map SideEffectExecution → Option SideEffectExecution
find_effect x [] = none
find_effect x ((k, e) ∷ rest) = if same_effect e x then some e else find_effect x rest

-- The flag is true when an earlier execution is returned in place of the new one.
unfoldable pub save_side_effect_execution :
    SideEffectExecution → Exec Store (SideEffectExecution × Bool)
unfolding find_effect
save_side_effect_execution x s = elim (find_effect x s.side_effects) [
  | some existing ↦ (ok (existing, true), s)
  | none ↦
      if is_some (get s.side_effects x.side_effect_execution_ref)
      then (err side_effect_conflict, s)
      else (
        ok (x, false),
        record s { side_effects = put s.side_effects x.side_effect_execution_ref x },
      )
]

unfoldable pub get_side_effect_execution : Store → String → Option SideEffectExecution
get_side_effect_execution s ref = get s.side_effects ref

unfoldable pub update_side_effect_execution : SideEffectExecution → Exec Store (Unit {0})
update_side_effect_execution x s =
    if is_some (get s.side_effects x.side_effect_execution_ref)
    then (ok tt, record s { side_effects = put s.side_effects x.side_effect_execution_ref x })
    else (err side_effect_not_found, s)
