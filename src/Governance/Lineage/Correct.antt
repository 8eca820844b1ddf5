-- ===== src/Governance/Lineage/Correct.antt =====
-- What an artifact lineage holds, and when there is none.
use mathlib.Core.List.{Perm}
use mathlib.Core.List.Perm
use touch_connect.Prelude.{String, true, false, ◌≡◌, ◌≢◌, some, List, [], any}
use touch_connect.GoText.{trim_space}
use touch_connect.Memory.Sort.Ordered.{Sorted}
use touch_connect.Governance.Records.{ArtifactRecord, ArtifactLineage}
use touch_connect.Governance.Answers.{Answer, absent, found, last, filter}
use touch_connect.Governance.Lineage.{has, versions_by_ref}
use touch_connect.Governance.Lineage.Least.{IsClosed}
use touch_connect.Governance.Lineage.Minimal.{IsStable, Holds}
use touch_connect.Governance.Lineage.Grows.{Within}
use touch_connect.Governance.Lineage.Dated.{Precedes}
use touch_connect.Governance.Lineage.Matched.{names_artifact, is_named_version}

-- The closure of a set of version references.
pub record IsClosureOf (artifacts : List ArtifactRecord) (included closed : List String)
    : Type 1 where
  pub within : Within included closed
  pub closed_under : IsClosed (versions_by_ref artifacts []) artifacts closed
  pub least :
      (P : String → Type 0)
      → IsStable (versions_by_ref artifacts []) artifacts P
      → Holds P included
      → Holds P closed

module _ (query_ref : String) (artifacts : List ArtifactRecord) where
  pub record HoldsClosure (lineage : ArtifactLineage) : Type 1 where
    pub named : trim_space query_ref ≢ ""
    pub some_named : any (names_artifact (trim_space query_ref)) artifacts ≡ true
    pub of_query : lineage.query_ref ≡ trim_space query_ref
    pub seeds : List String
    pub seeds_named :
        (r : String) → has seeds r ≡ is_named_version (trim_space query_ref) artifacts r
    pub closed : List String
    pub closure : IsClosureOf artifacts seeds closed
    pub versions_closed :
        Perm lineage.versions (filter (λ a. has closed a.artifact_version_ref) artifacts)
    pub sorted : Sorted Precedes lineage.versions
    pub newest : ArtifactRecord
    pub newest_last : last lineage.versions ≡ some newest
    pub current : lineage.current_version_ref ≡ newest.artifact_version_ref

  pub data IsLineageOf : Answer ArtifactLineage → Type 1 where
    blank_reference : trim_space query_ref ≡ "" → IsLineageOf absent
    none_named : any (names_artifact (trim_space query_ref)) artifacts ≡ false → IsLineageOf absent
    holds : {lineage : ArtifactLineage} → HoldsClosure lineage → IsLineageOf (found lineage)
