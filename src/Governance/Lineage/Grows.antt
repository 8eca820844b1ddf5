-- ===== src/Governance/Lineage/Grows.antt =====
-- The loop of expandArtifactClosure keeps what is included, and what matches is a version.
use mathlib.Core.Path.{subst}
use touch_connect.Prelude.{
  ℕ, zero, suc, String, Bool, true, false, not, ◌&&◌, ◌||◌, is_some, Option, some, List, [], ◌∷◌,
  ◌++◌, ◌≡◌, arith, Bool-cases, Option-cases, inl, inr,
}
use touch_connect.GoMap.{Map, get}
use touch_connect.Governance.Records.{ArtifactRecord}
use touch_connect.Governance.Lineage.{
  has, Pass, include_parents_of, include_parents, include_artifact_parents, has_included_parent,
  include_children, include_artifact_children, expand_artifact_closure,
}
use touch_connect.Governance.Lineage.Closure.{has-concat}

-- Everything in the first is in the second.
abbrev pub Within : List String → List String → Type 0
Within included later = (r : String) → has included r ≡ true → has later r ≡ true

Within-concat :
    (start included : List String) (x : String)
    → Within start included
    → Within start (included ++ x ∷ [])
Within-concat start included x within r e = ground (arith, has-concat included x r, within r e)

module _ (start : List String) (by_version : Map ArtifactRecord) where
  include_parents_of-Within :
      (parents included : List String) (changed : Bool)
      → Within start included
      → Within start (include_parents_of by_version parents (included, changed)).0
  unfolding include_parents_of
  include_parents_of-Within [] included changed w = w
  include_parents_of-Within (x ∷ parents) included changed w =
      elim (Bool-cases (is_some (get by_version x) && not (has included x))) [
        | inl hit ↦
            rw (hit, include_parents_of)
              (include_parents_of-Within parents _ true (Within-concat start included x w))
        | inr miss ↦
            rw (miss, include_parents_of) (include_parents_of-Within parents included changed w)
      ]

  include_parents-Within :
      (refs : List String) (pass : Pass)
      → Within start pass.0
      → Within start (include_parents by_version refs pass).0
  unfolding include_parents
  include_parents-Within [] pass w = w
  include_parents-Within (x ∷ refs) pass w = elim (Option-cases (get by_version x)) [
    | inl e ↦ rw (e, include_parents) (include_parents-Within refs pass w)
    | inr (a, e) ↦
        rw (e, include_parents)
          (include_parents-Within refs _
            (include_parents_of-Within a.based_on_artifact_version_refs pass.0 pass.1 w))
  ]

include_children-Within :
    (start : List String) (artifacts : List ArtifactRecord) (included : List String)
    (changed : Bool)
    → Within start included
    → Within start (include_children artifacts (included, changed)).0
unfolding include_children
include_children-Within start [] included changed w = w
include_children-Within start (a ∷ rest) included changed w =
    elim (Bool-cases
      (has included a.artifact_version_ref || not (has_included_parent a included))) [
        | inl skip ↦
            rw (skip, include_children) (include_children-Within start rest included changed w)
        | inr new ↦
            rw (new, include_children)
              (include_children-Within start rest _ true
                (Within-concat start included a.artifact_version_ref w))
      ]

module _ (by_version : Map ArtifactRecord) (artifacts : List ArtifactRecord) where
  pub expand_artifact_closure-Within :
      (start : List String) (fuel : ℕ) (included closed : List String)
      → Within start included
      → expand_artifact_closure by_version artifacts fuel included ≡ some closed
      → Within start closed
  unfolding expand_artifact_closure include_artifact_parents include_artifact_children
  expand_artifact_closure-Within start zero included closed w h = cc
  expand_artifact_closure-Within start (suc fuel) included closed w h =
      let up = include_artifact_parents by_version included in
      let down = include_artifact_children artifacts up.0 in
      let grown =
        include_children-Within start artifacts up.0 false
          (include_parents-Within start by_version included (included, false) w) in
      elim (Bool-cases (down.1 || up.1)) [
        | inl more ↦
            expand_artifact_closure-Within start fuel down.0 closed grown
              (rw (more, expand_artifact_closure) at h)
        | inr done ↦
            let ends : ◌≡◌ {A = Option (List String)} (some down.0) (some closed) =
              rw (done, expand_artifact_closure) at h in
            let last : down.0 ≡ closed = cc in subst (Within start) last grown
      ]
