-- ===== src/Governance/Lineage/Dated.antt =====
-- The order of the versions of a lineage.
use touch_connect.Prelude.{
  String, if◌then◌else◌, ◌∙◌, ◌==◌, ◌≡◌, refl, sym, inl, inr, List, Bool-cases,
}
use touch_connect.Memory.Sort.{sort_by}
use touch_connect.Memory.Sort.Ordered.{Sorted, sort_by-Sorted}
use touch_connect.Governance.Order.{
  PairAtMost, PairAtMost-trans, pair_less, not_less-PairAtMost, less-PairAtMost,
}
use touch_connect.Governance.Records.{ArtifactRecord}
use touch_connect.Governance.Lineage.{artifact_sort_key, created_before}

-- The text that dates a version, and its reference: the creation time's, or the reference where none
-- is given.
abbrev pub version_key : ArtifactRecord → String × String
version_key a =
    (if a.created_at == "" then a.artifact_version_ref else a.created_at, a.artifact_version_ref)

abbrev pub Precedes : ArtifactRecord → ArtifactRecord → Type 0
Precedes a b = PairAtMost (version_key a) (version_key b)

created_before-pair_less :
    (a b : ArtifactRecord) → created_before a b ≡ pair_less (version_key a) (version_key b)
unfolding created_before artifact_sort_key
created_before-pair_less a b = elim (Bool-cases (a.created_at == "")) [
  | inl e ↦ elim (Bool-cases (b.created_at == "")) [
    | inl h ↦ rw (e, h) refl
    | inr h ↦ rw (e, h) refl
  ]
  | inr e ↦ elim (Bool-cases (b.created_at == "")) [
    | inl h ↦ rw (e, h) refl
    | inr h ↦ rw (e, h) refl
  ]
]

pub sort_by-version_key : (l : List ArtifactRecord) → Sorted Precedes (sort_by created_before l)
sort_by-version_key =
    sort_by-Sorted created_before Precedes
      (λ a b c. PairAtMost-trans (version_key a) (version_key b) (version_key c))
      (λ a b h.
        less-PairAtMost (version_key a) (version_key b) (sym (created_before-pair_less a b) ∙ h))
      (λ a b h.
        not_less-PairAtMost (version_key a) (version_key b)
          (sym (created_before-pair_less b a) ∙ h))
