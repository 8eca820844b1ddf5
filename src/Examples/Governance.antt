-- ===== src/Examples/Governance.antt =====
-- The approvals and the artifact versions of a task.
use touch_connect.Prelude.{pos, String, ◌≡◌, refl, Option, none, some, List, [], ◌∷◌}
use touch_connect.GoMap.{get, put}
use touch_connect.Governance.Records.{ApprovalRecord, ApprovalChain, ArtifactRecord}
use touch_connect.Governance.Chain.{build_approval_chain, approval_matches}
use touch_connect.Governance.Answers.{Answer, found, filter, last}
use touch_connect.Memory.Sort.{sort_by}
use touch_connect.GoText.{trim_space}
use touch_connect.Governance.Chain.Correct.{IsChainOf, build_approval_chain-IsChainOf}
use touch_connect.Governance.Lineage.{
  has, expand_matches, expand_artifact_closure, versions_by_ref, include_artifact_children,
  include_artifact_parents, has_included_parent,
}

abbrev approval : String → String → ApprovalRecord
approval ref decided_at = record {
  approval_ref = ref;
  attempt_ref = "tc://attempt/att_000001";
  message_ref = "m";
  target_type = "side_effect";
  target_ref = "deploy";
  requested_by_actor_id = "a";
  approver_subjects_or_roles = "b" ∷ [];
  approval_scope = "workspace";
  approval_hash = "h";
  status = "approved";
  reason = "";
  decided_by_actor_id = "b";
  decision_note = "";
  requested_at = "2026-01-01T00:00:00Z";
  expires_at = "";
  decided_at = decided_at;
}

abbrev approvals : List ApprovalRecord
approvals = approval "p2" "2026-01-03T00:00:00Z" ∷ approval "p1" "2026-01-02T00:00:00Z" ∷ []

build_approval_chain-IsChainOf_example :
    IsChainOf " deploy " approvals (build_approval_chain " deploy " approvals)
build_approval_chain-IsChainOf_example = build_approval_chain-IsChainOf " deploy " approvals

-- The decision that comes 20 milliseconds later is not the current one: its text comes first.
abbrev close_approvals : List ApprovalRecord
close_approvals =
    approval "later" "2026-01-02T00:00:00.12Z" ∷ approval "earlier" "2026-01-02T00:00:00.1Z" ∷ []

current_of : Answer ApprovalChain → Option ApprovalRecord
current_of (found chain) = chain.current
current_of _ = none

earlier_is_current :
    current_of (build_approval_chain "deploy" close_approvals)
    ≡ some (approval "earlier" "2026-01-02T00:00:00.1Z")
unfolding current_of build_approval_chain approval_matches trim_space filter last sort_by
earlier_is_current = refl

abbrev artifact : String → List String → ArtifactRecord
artifact ref parents = record {
  artifact_ref = "doc";
  artifact_version_ref = ref;
  room_ref = "";
  task_ref = "";
  task_revision = pos 1;
  kind = "document";
  media_type = "";
  size_bytes = pos 1;
  checksum = "";
  storage_ref = "";
  retention_class = "";
  access_scope = "";
  based_on_message_refs = [];
  based_on_artifact_version_refs = parents;
  created_by_actor_id = "";
  created_by_endpoint_ref = "";
  message_ref = "";
  attempt_ref = "";
  created_at = "";
}

-- v3 is based on v2, and v2 on v1; v9 is on its own.
abbrev artifacts : List ArtifactRecord
artifacts =
    artifact "v9" [] ∷ artifact "v3" ("v2" ∷ []) ∷ artifact "v2" ("v1" ∷ []) ∷ artifact "v1" [] ∷ []

-- From v3 the parents are found in one round.
closure_of_v3 : expand_matches artifacts ("v3" ∷ []) ≡ some ("v3" ∷ "v2" ∷ "v1" ∷ [])
unfolding expand_matches expand_artifact_closure include_artifact_children has
    include_artifact_parents get versions_by_ref put has_included_parent
closure_of_v3 = refl
