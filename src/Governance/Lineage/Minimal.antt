-- ===== src/Governance/Lineage/Minimal.antt =====
-- What the loop of expandArtifactClosure ends with: the least set of version references that holds
-- the given ones and is closed under the parents and the children of the artifacts.
use mathlib.Core.Path.{subst}
use touch_connect.Prelude.{
  ℕ, zero, suc, String, Bool, true, false, not, ◌&&◌, ◌||◌, is_some, Option, some, List, [], ◌∷◌,
  ◌++◌, any, All, ◌≡◌, refl, arith, Bool-cases, Option-cases, inl, inr, eq_iff, eq_refl,
}
use touch_connect.GoMap.{Map, get}
use touch_connect.Governance.Records.{ArtifactRecord}
use touch_connect.Governance.Lineage.{
  has, Pass, include_parents_of, include_parents, include_artifact_parents, has_included_parent,
  include_children, include_artifact_children, expand_artifact_closure,
}
use touch_connect.Governance.Lineage.Closure.{has-concat, and-true, or-false}

any-witness :
    (included parents : List String)
    → any (has included) parents ≡ true
    → (p : String) × (has parents p ≡ true) × (has included p ≡ true)
unfolding any has
any-witness included [] h = cc
any-witness included (x ∷ parents) h = elim (Bool-cases (has included x)) [
  | inl e ↦ (x, ground (arith, eq_refl x), e)
  | inr e ↦ let (p, q, r) = any-witness included parents (rw e at h) in (p, ground arith, r)
]

not-false : (a : Bool) → not a ≡ false → a ≡ true
not-false true h = refl
not-false false h = cc

-- A predicate that the members' known parents and children share.
pub record IsStable (by_version : Map ArtifactRecord) (artifacts : List ArtifactRecord)
    (P : String → Type 0) : Type 0 where
  pub to_parents :
      (r p : String) (a : ArtifactRecord)
      → P r
      → get by_version r ≡ some a
      → has a.based_on_artifact_version_refs p ≡ true
      → is_some (get by_version p) ≡ true
      → P p
  pub to_children :
      All
        (λ a.
          (p : String)
          → has a.based_on_artifact_version_refs p ≡ true
          → P p
          → P a.artifact_version_ref)
        artifacts

module _ (P : String → Type 0) where
  abbrev pub Holds : List String → Type 0
  Holds included = (r : String) → has included r ≡ true → P r

  Holds-concat :
      (included : List String) (r : String) → Holds included → P r → Holds (included ++ r ∷ [])
  Holds-concat included r old new q e = elim (Bool-cases (has included q)) [
    | inl there ↦ old q there
    | inr absent ↦ subst P ((eq_iff r q).0 (rw (has-concat included r q, absent) at e)) new
  ]

  module _ (by_version : Map ArtifactRecord) where
    include_parents_of-Holds :
        (parents included : List String) (changed : Bool)
        → ((p : String) → has parents p ≡ true → is_some (get by_version p) ≡ true → P p)
        → Holds included
        → Holds (include_parents_of by_version parents (included, changed)).0
    unfolding include_parents_of has any
    include_parents_of-Holds [] included changed ps old = old
    include_parents_of-Holds (x ∷ parents) included changed ps old =
        let later = λ (p : String) (e : has parents p ≡ true). ps p (ground arith) in
        elim (Bool-cases (is_some (get by_version x) && not (has included x))) [
          | inl hit ↦
              rw (hit, include_parents_of)
                (include_parents_of-Holds parents (included ++ x ∷ []) true later (
                  Holds-concat included x old
                    (ps x (ground (arith, eq_refl x)) (and-true _ _ hit).0)))
          | inr miss ↦
              rw (miss, include_parents_of)
                (include_parents_of-Holds parents included changed later old)
        ]

    include_parents-Holds :
        (stable : (r p : String) (a : ArtifactRecord)
          → P r
          → get by_version r ≡ some a
          → has a.based_on_artifact_version_refs p ≡ true
          → is_some (get by_version p) ≡ true
          → P p)
        (refs : List String) (pass : Pass)
        → Holds refs
        → Holds pass.0
        → Holds (include_parents by_version refs pass).0
    unfolding include_parents has any
    include_parents-Holds stable [] pass seeds old = old
    include_parents-Holds stable (x ∷ refs) pass seeds old =
        let later = λ (r : String) (e : has refs r ≡ true). seeds r (ground arith) in
        elim (Option-cases (get by_version x)) [
          | inl e ↦ rw (e, include_parents) (include_parents-Holds stable refs pass later old)
          | inr (a, e) ↦
              rw (e, include_parents)
                (include_parents-Holds stable refs _ later (
                  include_parents_of-Holds a.based_on_artifact_version_refs pass.0 pass.1
                    (λ p b known. stable x p a (seeds x (ground (arith, eq_refl x))) e b known)
                    old))
        ]

  include_children-Holds :
      (artifacts : List ArtifactRecord) (included : List String) (changed : Bool)
      → All
          (λ a.
            (p : String)
            → has a.based_on_artifact_version_refs p ≡ true
            → P p
            → P a.artifact_version_ref)
          artifacts
      → Holds included
      → Holds (include_children artifacts (included, changed)).0
  unfolding include_children has_included_parent
  include_children-Holds [] included changed stable old = old
  include_children-Holds (a ∷ rest) included changed stable old =
      elim (Bool-cases
        (has included a.artifact_version_ref || not (has_included_parent a included))) [
          | inl skip ↦
              rw (skip, include_children)
                (include_children-Holds rest included changed stable.1 old)
          | inr new ↦
              let (p, b, there) =
                any-witness included a.based_on_artifact_version_refs
                  (not-false _ (or-false _ _ new).1) in
              rw (new, include_children)
                (include_children-Holds rest _ true stable.1
                  (Holds-concat included a.artifact_version_ref old (stable.0 p b (old p there))))
        ]

  -- Nothing is included but what the given references lead to.
  pub expand_artifact_closure-Holds :
      (by_version : Map ArtifactRecord) (artifacts : List ArtifactRecord) (fuel : ℕ)
      (included closed : List String)
      → IsStable by_version artifacts P
      → Holds included
      → expand_artifact_closure by_version artifacts fuel included ≡ some closed
      → Holds closed
  unfolding expand_artifact_closure include_artifact_parents include_artifact_children
  expand_artifact_closure-Holds by_version artifacts zero included closed stable old h = cc
  expand_artifact_closure-Holds by_version artifacts (suc fuel) included closed stable old h =
      let up = include_artifact_parents by_version included in
      let down = include_artifact_children artifacts up.0 in
      let grown =
        include_children-Holds artifacts up.0 false stable.to_children
          (include_parents-Holds by_version stable.to_parents included (included, false) old old) in
      elim (Bool-cases (down.1 || up.1)) [
        | inl more ↦
            expand_artifact_closure-Holds by_version artifacts fuel down.0 closed stable grown
              (rw (more, expand_artifact_closure) at h)
        | inr done ↦
            let ends : ◌≡◌ {A = Option (List String)} (some down.0) (some closed) =
              rw (done, expand_artifact_closure) at h in
            let last : down.0 ≡ closed = cc in subst Holds last grown
      ]
