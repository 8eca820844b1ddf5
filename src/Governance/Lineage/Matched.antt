-- ===== src/Governance/Lineage/Matched.antt =====
-- Which artifacts a reference matches.
use touch_connect.Prelude.{
  String, Bool, ◌∙◌, ◌&&◌, true, false, ◌==◌, ◌≡◌, ◌≢◌, ap, refl, sym, arith, inl, inr, List, [],
  ◌∷◌, is_empty, Bool-cases, eq_iff, eq_refl, any, ◌||◌,
}
use touch_connect.Governance.Records.{ArtifactRecord}
use touch_connect.Governance.Answers.{filter}
use touch_connect.Governance.Lineage.{has, artifact_matches, matched_refs, include}
use touch_connect.Governance.Lineage.Closure.{names, has-concat}

-- One of the five references of the artifact.
abbrev pub names_artifact : String → ArtifactRecord → Bool
names_artifact ref a =
    any (λ r. r == ref)
      (a.artifact_version_ref ∷ a.artifact_ref ∷ a.message_ref ∷ a.attempt_ref ∷ a.task_ref ∷ [])

pub matches-names :
    (ref : String) (a : ArtifactRecord) → artifact_matches ref a ≡ names_artifact ref a
unfolding artifact_matches any
matches-names ref a = ground arith

has-include_iff :
    (included : List String) (x r : String)
    → has (include x included) r ≡ (has included r || x == r)
unfolding include
has-include_iff included x r =
    ground (arith, has-concat included x r, eq_iff x r, λ (e : x ≡ r). ap (has included) e)

-- A version of an artifact that the reference names.
abbrev pub is_named_version : String → List ArtifactRecord → String → Bool
is_named_version ref artifacts r =
    any (λ a. names_artifact ref a && a.artifact_version_ref == r) artifacts

pub named_of_version :
    (ref : String) (artifacts : List ArtifactRecord) (r : String)
    → is_named_version ref artifacts r ≡ true
    → any (names_artifact ref) artifacts ≡ true
unfolding any
named_of_version ref [] r h = h
named_of_version ref (a ∷ rest) r h = ground (arith, named_of_version ref rest r)

matched_refs-has :
    (ref : String) (artifacts : List ArtifactRecord) (included : List String) (r : String)
    → has (matched_refs ref artifacts included) r
      ≡ (has included r || is_named_version ref artifacts r)
unfolding matched_refs any
matched_refs-has ref [] included r = ground arith
matched_refs-has ref (a ∷ rest) included r = elim (Bool-cases (artifact_matches ref a)) [
  | inl e ↦
      rw (e, sym (matches-names ref a) ∙ e)
        (ground (
          arith,
          matched_refs-has ref rest (include a.artifact_version_ref included) r,
          has-include_iff included a.artifact_version_ref r,
        ))
  | inr e ↦ rw (e, sym (matches-names ref a) ∙ e) (matched_refs-has ref rest included r)
]

-- From no version on, the loop includes those that the reference names.
pub matched_refs-named :
    (ref : String) (artifacts : List ArtifactRecord) (r : String)
    → has (matched_refs ref artifacts []) r ≡ is_named_version ref artifacts r
unfolding has any
matched_refs-named ref artifacts r = matched_refs-has ref artifacts [] r

include-not_empty : (r : String) (included : List String) → is_empty (include r included) ≡ false
unfolding include has any
include-not_empty r [] = refl
include-not_empty r (x ∷ included) = ground arith

module _ (query_ref : String) where
  matched_refs-not_empty :
      (artifacts : List ArtifactRecord) (included : List String)
      → is_empty included ≡ false
      → is_empty (matched_refs query_ref artifacts included) ≡ false
  unfolding matched_refs
  matched_refs-not_empty [] included h = h
  matched_refs-not_empty (a ∷ rest) included h = elim (Bool-cases (artifact_matches query_ref a)) [
    | inl e ↦
        rw (e, matched_refs)
          (matched_refs-not_empty rest _ (include-not_empty a.artifact_version_ref included))
    | inr e ↦ rw (e, matched_refs) (matched_refs-not_empty rest included h)
  ]

  pub matched_refs-empty :
      (artifacts : List ArtifactRecord) (included : List String)
      → is_empty (matched_refs query_ref artifacts included) ≡ true
      → any (artifact_matches query_ref) artifacts ≡ false
  unfolding matched_refs any
  matched_refs-empty [] included h = refl
  matched_refs-empty (a ∷ rest) included h = elim (Bool-cases (artifact_matches query_ref a)) [
    | inl e ↦ absurd (
        ground (
          arith,
          rw (e, matched_refs) at h,
          matched_refs-not_empty rest _ (include-not_empty a.artifact_version_ref included),
        ))
    | inr e ↦ rw e (matched_refs-empty rest included (rw (e, matched_refs) at h))
  ]

  has-include :
      (included : List String) (x r : String)
      → has (include x included) r ≡ true
      → (has included r || x == r) ≡ true
  unfolding include
  has-include included x r h = ground (arith, has-concat included x r)

  pub matched_refs-names :
      (artifacts : List ArtifactRecord) (included : List String) (r : String)
      → has (matched_refs query_ref artifacts included) r ≡ true
      → (has included r || names artifacts r) ≡ true
  unfolding matched_refs names
  matched_refs-names [] included r h = ground arith
  matched_refs-names (a ∷ rest) included r h = elim (Bool-cases (artifact_matches query_ref a)) [
    | inl e ↦ ground (
      arith,
      matched_refs-names rest _ r (rw (e, matched_refs) at h),
      has-include included a.artifact_version_ref r,
    )
    | inr e ↦ ground (arith, matched_refs-names rest included r (rw (e, matched_refs) at h))
  ]

pub filter-ne-nil :
    (closed : List String) (artifacts : List ArtifactRecord) (r : String)
    → names artifacts r ≡ true
    → has closed r ≡ true
    → filter (λ (a : ArtifactRecord). has closed a.artifact_version_ref) artifacts ≢ []
unfolding filter names
filter-ne-nil closed [] r n h = absurd (ground arith)
filter-ne-nil closed (a ∷ rest) r n h = elim (Bool-cases (a.artifact_version_ref == r)) [
  | inl e ↦ λ none_left. cc (rw ((eq_iff a.artifact_version_ref r).0 e, h) at none_left)
  | inr e ↦ λ none_left. elim (Bool-cases (has closed a.artifact_version_ref)) [
    | inl kept ↦ cc (rw kept at none_left)
    | inr skipped ↦ filter-ne-nil closed rest r (rw e at n) h (rw skipped at none_left)
  ]
]

pub member_of : (xs : List String) → is_empty xs ≡ false → (r : String) × (has xs r ≡ true)
unfolding has any
member_of [] h = absurd (ground arith)
member_of (x ∷ xs) h = (x, ground (arith, eq_refl x))
