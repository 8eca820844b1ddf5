-- ===== src/Governance/Lineage.antt =====
-- BuildArtifactLineage of governance.go. A `map[string]bool` whose values are all true is the list of
-- its keys. `for versionRef := range included` visits the keys that are there when the loop starts,
-- which Go permits; whether it visits those added meanwhile Go leaves open, and the closure does not
-- depend on it.
pub mod Closure
pub mod Least
pub mod Minimal
pub mod Grows
pub mod Matched
pub mod Dated
pub mod Correct
use Prim.Native.String
use touch_connect.Prelude.{
  ℕ, zero, suc, String, Bool, true, false, not, ◌==◌, ◌!=◌, ◌&&◌, ◌||◌, if◌then◌else◌, is_some,
  Option, none, some, List, [], ◌∷◌, ◌++◌, any, is_empty, length,
}
use touch_connect.GoMap.{Map, get, put}
use touch_connect.GoText.{trim_space}
use touch_connect.Memory.Sort.{sort_by, string_less}
use touch_connect.Governance.Records.{ArtifactRecord, ArtifactLineage, ArtifactLineageEdge}
use touch_connect.Governance.Answers.{Answer, absent, panics, diverges, found, last, filter}
use touch_connect.Governance.Text.{compact_ref, first_set}

unfoldable pub artifact_matches : String → ArtifactRecord → Bool
artifact_matches query_ref artifact =
    artifact.artifact_version_ref == query_ref
    || artifact.artifact_ref == query_ref
    || artifact.message_ref == query_ref
    || artifact.attempt_ref == query_ref
    || artifact.task_ref == query_ref

-- included[ref]
unfoldable pub has : List String → String → Bool
unfolding any
has included ref = any (λ r. r == ref) included

-- included[ref] = true
unfoldable pub include : String → List String → List String
unfolding has
include ref included = if has included ref then included else included ++ ref ∷ []

-- The loop that fills byVersion and included.
unfoldable pub versions_by_ref : List ArtifactRecord → Map ArtifactRecord → Map ArtifactRecord
versions_by_ref [] m = m
versions_by_ref (a ∷ rest) m =
    versions_by_ref rest
      (if a.artifact_version_ref != "" then put m a.artifact_version_ref a else m)

unfoldable pub matched_refs : String → List ArtifactRecord → List String → List String
unfolding artifact_matches
matched_refs query_ref [] included = included
matched_refs query_ref (a ∷ rest) included =
    matched_refs query_ref rest
      (if artifact_matches query_ref a then include a.artifact_version_ref included else included)

-- `included` and `changed`.
abbrev pub Pass : Type 0
Pass = List String × Bool

module _ (by_version : Map ArtifactRecord) where
  unfoldable pub include_parents_of : List String → Pass → Pass
  include_parents_of [] (included, changed) = (included, changed)
  include_parents_of (parent ∷ rest) (included, changed) = include_parents_of rest (
      if is_some (get by_version parent) && not (has included parent)
      then (included ++ parent ∷ [], true)
      else (included, changed))

  unfoldable pub include_parents : List String → Pass → Pass
  unfolding include_parents_of
  include_parents [] pass = pass
  include_parents (ref ∷ rest) pass = include_parents rest (elim (get by_version ref) [
    | none ↦ pass
    | some artifact ↦ include_parents_of artifact.based_on_artifact_version_refs pass
  ])

  unfoldable pub include_artifact_parents : List String → Pass
  unfolding include_parents
  include_artifact_parents included = include_parents included (included, false)

unfoldable pub has_included_parent : ArtifactRecord → List String → Bool
unfolding any
has_included_parent artifact included = any (has included) artifact.based_on_artifact_version_refs

unfoldable pub include_children : List ArtifactRecord → Pass → Pass
include_children [] (included, changed) = (included, changed)
include_children (a ∷ rest) (included, changed) = include_children rest (
    if has included a.artifact_version_ref || not (has_included_parent a included)
    then (included, changed)
    else (included ++ a.artifact_version_ref ∷ [], true))

unfoldable pub include_artifact_children : List ArtifactRecord → List String → Pass
unfolding include_children
include_artifact_children artifacts included = include_children artifacts (included, false)

-- for changed { … }, with fuel; none means that the fuel ran out.
unfoldable pub expand_artifact_closure :
    Map ArtifactRecord → List ArtifactRecord → ℕ → List String → Option (List String)
expand_artifact_closure by_version artifacts zero included = none
expand_artifact_closure by_version artifacts (suc fuel) included =
    let (with_parents, up) = include_artifact_parents by_version included in
    let (with_children, down) = include_artifact_children artifacts with_parents in
    let again = expand_artifact_closure by_version artifacts fuel with_children in
    if down || up then again else some with_children

unfoldable pub artifact_sort_key : ArtifactRecord → String
artifact_sort_key artifact =
    if artifact.created_at != "" then artifact.created_at else artifact.artifact_version_ref

unfoldable pub created_before : ArtifactRecord → ArtifactRecord → Bool
unfolding artifact_sort_key
created_before left right =
    if artifact_sort_key left == artifact_sort_key right
    then string_less left.artifact_version_ref right.artifact_version_ref
    else string_less (artifact_sort_key left) (artifact_sort_key right)

unfoldable pub message_edges : String → List String → List ArtifactLineageEdge
message_edges to [] = []
message_edges to (from ∷ rest) =
    record { from_ref = from; to_ref = to; relation = "based_on_message" } ∷ message_edges to rest

unfoldable pub parent_edges : List String → String → List String → List ArtifactLineageEdge
parent_edges included to [] = []
parent_edges included to (from ∷ rest) =
    if not (has included from)
    then parent_edges included to rest
    else record { from_ref = from; to_ref = to; relation = "derived_from" }
      ∷ parent_edges included to rest

unfoldable pub edges_of : List ArtifactRecord → List String → List ArtifactLineageEdge
unfolding message_edges parent_edges
edges_of [] included = []
edges_of (a ∷ rest) included =
    message_edges a.artifact_version_ref a.based_on_message_refs
    ++ (parent_edges included a.artifact_version_ref a.based_on_artifact_version_refs
        ++ edges_of rest included)

unfoldable pub edge_before : ArtifactLineageEdge → ArtifactLineageEdge → Bool
edge_before left right =
    if left.from_ref != right.from_ref
    then string_less left.from_ref right.from_ref
    else if left.to_ref != right.to_ref
    then string_less left.to_ref right.to_ref
    else string_less left.relation right.relation

unfoldable pub artifact_lineage_edges : List ArtifactRecord → List String → List ArtifactLineageEdge
unfolding edges_of
artifact_lineage_edges versions included = sort_by edge_before (edges_of versions included)

unfoldable pub included_versions : List ArtifactRecord → List String → List ArtifactRecord
included_versions artifacts included =
    sort_by created_before (filter (λ a. has included a.artifact_version_ref) artifacts)

unfoldable pub lineage_of : String → List ArtifactRecord → List String → Answer ArtifactLineage
unfolding artifact_lineage_edges
lineage_of query_ref versions included = elim (last versions) [
  | none ↦ panics
  | some current ↦ found (record {
    lineage_ref = String.◌++◌ "tc://artifact-lineage/" (compact_ref query_ref);
    query_ref = query_ref;
    artifact_ref = first_set ArtifactRecord.artifact_ref versions;
    current_version_ref = current.artifact_version_ref;
    versions = versions;
    edges = artifact_lineage_edges versions included;
  })
]

-- The fuel allows one round for each artifact, and one more that changes nothing.
unfoldable pub expand_matches : List ArtifactRecord → List String → Option (List String)
expand_matches artifacts included =
    expand_artifact_closure (versions_by_ref artifacts []) artifacts (suc (length artifacts))
      included

unfoldable pub lineage_from :
    String → List ArtifactRecord → Option (List String) → Answer ArtifactLineage
unfolding included_versions lineage_of
lineage_from query_ref artifacts none = diverges
lineage_from query_ref artifacts (some included) =
    lineage_of query_ref (included_versions artifacts included) included

unfoldable pub build_artifact_lineage : String → List ArtifactRecord → Answer ArtifactLineage
unfolding matched_refs expand_matches lineage_from trim_space
build_artifact_lineage query_ref artifacts =
    let query = trim_space query_ref in
    let included = matched_refs query artifacts [] in
    if query == ""
    then absent
    else if is_empty included
    then absent
    else lineage_from query artifacts (expand_matches artifacts included)
