-- ===== src/Governance/Chain.antt =====
-- BuildApprovalChain of governance.go.
pub mod Correct
use Prim.Native.String
use touch_connect.Prelude.{
  String, Bool, ◌==◌, ◌!=◌, ◌||◌, if◌then◌else◌, none, some, List, is_empty,
}
use touch_connect.GoText.{trim_space}
use touch_connect.Memory.Sort.{sort_by, string_less}
use touch_connect.Governance.Answers.{Answer, absent, panics, found, last, filter}
use touch_connect.Governance.Records.{ApprovalRecord, ApprovalChain}
use touch_connect.Governance.Text.{compact_ref, first_set}

unfoldable pub approval_matches : String → ApprovalRecord → Bool
approval_matches query_ref approval =
    approval.approval_ref == query_ref
    || approval.message_ref == query_ref
    || approval.attempt_ref == query_ref
    || approval.target_ref == query_ref

unfoldable pub approval_sort_key : ApprovalRecord → String
approval_sort_key approval =
    if approval.decided_at != "" then approval.decided_at else approval.requested_at

-- By key, and by reference where the keys are the same.
unfoldable pub decided_before : ApprovalRecord → ApprovalRecord → Bool
unfolding approval_sort_key
decided_before left right =
    if approval_sort_key left == approval_sort_key right
    then string_less left.approval_ref right.approval_ref
    else string_less (approval_sort_key left) (approval_sort_key right)

unfoldable pub sorted_decisions : String → List ApprovalRecord → List ApprovalRecord
sorted_decisions query_ref approvals =
    sort_by decided_before (filter (approval_matches query_ref) approvals)

unfoldable pub chain_of : String → List ApprovalRecord → Answer ApprovalChain
chain_of query_ref matches = elim (last matches) [
  | none ↦ panics
  | some current ↦ found (record {
    chain_ref = String.◌++◌ "tc://approval-chain/" (compact_ref query_ref);
    query_ref = query_ref;
    message_ref = first_set ApprovalRecord.message_ref matches;
    attempt_ref = first_set ApprovalRecord.attempt_ref matches;
    target_type = first_set ApprovalRecord.target_type matches;
    target_ref = first_set ApprovalRecord.target_ref matches;
    current = some current;
    decisions = matches;
  })
]

unfoldable pub build_approval_chain : String → List ApprovalRecord → Answer ApprovalChain
unfolding sorted_decisions chain_of approval_matches decided_before trim_space
build_approval_chain query_ref approvals =
    let query = trim_space query_ref in
    if query == ""
    then absent
    else if is_empty (filter (approval_matches query) approvals)
    then absent
    else chain_of query (sorted_decisions query approvals)
