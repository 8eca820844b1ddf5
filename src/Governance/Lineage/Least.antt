-- ===== src/Governance/Lineage/Least.antt =====
-- A round of expandArtifactClosure that changes nothing leaves a set of version references that is
-- closed under the parents and the children of the artifacts.
use mathlib.Core.Path.{subst}
use touch_connect.Prelude.{
  ℕ, zero, suc, String, Bool, true, false, not, ◌==◌, ◌&&◌, ◌||◌, is_some, Option, some, List, [],
  ◌∷◌, ◌++◌, any, All, ◌≡◌, refl, sym, ap, ◌∙◌, arith, Bool-cases, Option-cases, inl, inr, eq_iff,
}
use touch_connect.GoMap.{Map, get}
use touch_connect.Governance.Records.{ArtifactRecord}
use touch_connect.Governance.Lineage.{
  has, Pass, include_parents_of, include_parents, include_artifact_parents, has_included_parent,
  include_children, include_artifact_children, expand_artifact_closure,
}
use touch_connect.Governance.Lineage.Closure.{or-false}

and-not-false : (a b : Bool) → a ≡ true → (a && not b) ≡ false → b ≡ true
and-not-false a true h k = refl
and-not-false true false h k = cc
and-not-false false false h k = cc

or-not-true : (a b : Bool) → b ≡ true → (a || not b) ≡ true → a ≡ true
or-not-true true b h k = refl
or-not-true false true h k = cc
or-not-true false false h k = cc

module _ (by_version : Map ArtifactRecord) where
  -- Every parent that is a known version is included.
  abbrev pub HasParents : List String → List String → Type 0
  HasParents parents included =
      (p : String)
      → has parents p ≡ true
      → is_some (get by_version p) ≡ true
      → has included p ≡ true

  abbrev pub HasParentsOf : List String → List String → Type 0
  HasParentsOf refs included =
      (r : String) (a : ArtifactRecord)
      → has refs r ≡ true
      → get by_version r ≡ some a
      → HasParents a.based_on_artifact_version_refs included

  HasParents-cons :
      (included parents : List String) (x : String)
      → (is_some (get by_version x) && not (has included x)) ≡ false
      → HasParents parents included
      → HasParents (x ∷ parents) included
  unfolding has any
  HasParents-cons included parents x miss rest p e known = elim (Bool-cases (x == p)) [
    | inl same ↦
        let x_is_p = (eq_iff x p).0 same in
        subst (λ q. has included q ≡ true) x_is_p
          (and-not-false _ _ (subst (λ q. is_some (get by_version q) ≡ true) (sym x_is_p) known)
            miss)
    | inr other ↦ rest p (rw other at e) known
  ]

  include_parents_of-quiet :
      (parents included : List String) (changed : Bool)
      → (include_parents_of by_version parents (included, changed)).1 ≡ false
      → (changed ≡ false)
        × ((include_parents_of by_version parents (included, changed)).0 ≡ included)
        × HasParents parents included
  unfolding include_parents_of has any
  include_parents_of-quiet [] included changed h = (h, refl, λ p e. absurd (ground arith))
  include_parents_of-quiet (x ∷ parents) included changed h =
      elim (Bool-cases (is_some (get by_version x) && not (has included x))) [
        | inl hit ↦ absurd (
            ground (
              arith,
              (include_parents_of-quiet parents (included ++ x ∷ []) true
                  (rw (hit, include_parents_of) at h)).0,
            ))
        | inr miss ↦
            let (quiet, same, rest) =
              include_parents_of-quiet parents included changed
                (rw (miss, include_parents_of) at h) in
            (
              quiet,
              rw (miss, include_parents_of) same,
              HasParents-cons included parents x miss rest,
            )
      ]

  HasParentsOf-cons :
      (included refs : List String) (x : String)
      → HasParentsOf refs included
      → ((a : ArtifactRecord)
          → get by_version x ≡ some a
          → HasParents a.based_on_artifact_version_refs included)
      → HasParentsOf (x ∷ refs) included
  unfolding has any
  HasParentsOf-cons included refs x rest here r a e found = elim (Bool-cases (x == r)) [
    | inl same ↦ here a (ap (get by_version) ((eq_iff x r).0 same) ∙ found)
    | inr other ↦ rest r a (rw other at e) found
  ]

  include_parents-quiet :
      (refs : List String) (pass : Pass)
      → (include_parents by_version refs pass).1 ≡ false
      → (pass.1 ≡ false)
        × ((include_parents by_version refs pass).0 ≡ pass.0)
        × HasParentsOf refs pass.0
  unfolding include_parents has any
  include_parents-quiet [] pass h = (h, refl, λ r a e. absurd (ground arith))
  include_parents-quiet (x ∷ refs) pass h = elim (Option-cases (get by_version x)) [
    | inl e ↦
        let (quiet, same, rest) = include_parents-quiet refs pass (rw (e, include_parents) at h) in
        (
          quiet,
          rw (e, include_parents) same,
          HasParentsOf-cons pass.0 refs x rest (λ b eb. absurd (ground arith)),
        )
    | inr (a, e) ↦
        let (still, kept, rest) =
          include_parents-quiet refs
            (include_parents_of by_version a.based_on_artifact_version_refs pass)
            (rw (e, include_parents) at h) in
        let (quiet, same, parents) =
          include_parents_of-quiet a.based_on_artifact_version_refs pass.0 pass.1 still in
        (
          quiet,
          rw (e, include_parents) (kept ∙ same),
          HasParentsOf-cons pass.0 refs x (subst (HasParentsOf refs) same rest) (λ b eb.
              let same_record : ◌≡◌ {A = ArtifactRecord} a b = cc in
              subst {A = ArtifactRecord} (λ c. HasParents c.based_on_artifact_version_refs pass.0)
                same_record parents),
        )
  ]

-- A version with an included parent is included.
abbrev pub HasChildren : List String → ArtifactRecord → Type 0
HasChildren included a =
    has_included_parent a included ≡ true → has included a.artifact_version_ref ≡ true

include_children-quiet :
    (artifacts : List ArtifactRecord) (included : List String) (changed : Bool)
    → (include_children artifacts (included, changed)).1 ≡ false
    → (changed ≡ false)
      × ((include_children artifacts (included, changed)).0 ≡ included)
      × All (HasChildren included) artifacts
unfolding include_children
include_children-quiet [] included changed h = (h, refl, tt)
include_children-quiet (a ∷ rest) included changed h =
    elim (Bool-cases
      (has included a.artifact_version_ref || not (has_included_parent a included))) [
        | inl skip ↦
            let (quiet, same, later) =
              include_children-quiet rest included changed (rw (skip, include_children) at h) in
            (quiet, rw (skip, include_children) same, (λ e. or-not-true _ _ e skip, later))
        | inr new ↦ absurd (
            ground
              (arith, (include_children-quiet rest _ true (rw (new, include_children) at h)).0))
      ]

-- Closed under the known parents, and under the children.
pub record IsClosed (by_version : Map ArtifactRecord) (artifacts : List ArtifactRecord)
    (included : List String) : Type 0 where
  pub parents : HasParentsOf by_version included included
  pub children : All (HasChildren included) artifacts

-- What a loop that ended has.
pub expand_artifact_closure-IsClosed :
    (by_version : Map ArtifactRecord) (artifacts : List ArtifactRecord) (fuel : ℕ)
    (included closed : List String)
    → expand_artifact_closure by_version artifacts fuel included ≡ some closed
    → IsClosed by_version artifacts closed
unfolding expand_artifact_closure include_artifact_parents include_artifact_children
expand_artifact_closure-IsClosed by_version artifacts zero included closed h = cc
expand_artifact_closure-IsClosed by_version artifacts (suc fuel) included closed h =
    let up = include_artifact_parents by_version included in
    let down = include_artifact_children artifacts up.0 in
    elim (Bool-cases (down.1 || up.1)) [
      | inl more ↦
          expand_artifact_closure-IsClosed by_version artifacts fuel down.0 closed
            (rw (more, expand_artifact_closure) at h)
      | inr done ↦
          let (no_down, no_up) = or-false down.1 up.1 done in
          let (_, same, parents) =
            include_parents-quiet by_version included (included, false) no_up in
          let (_, kept, children) = include_children-quiet artifacts up.0 false no_down in
          let ends : ◌≡◌ {A = Option (List String)} (some down.0) (some closed) =
            rw (done, expand_artifact_closure) at h in
          let last : down.0 ≡ closed = cc in
          subst (IsClosed by_version artifacts) last (record {
            parents = subst (λ s. HasParentsOf by_version s s) (sym (kept ∙ same)) parents;
            children = subst (λ s. All (HasChildren s) artifacts) (sym kept) children;
          })
    ]
