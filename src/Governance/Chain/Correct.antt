-- ===== src/Governance/Chain/Correct.antt =====
-- What an approval chain holds, and when there is none.
use mathlib.Core.List.{Perm}
use mathlib.Core.List.Perm
use mathlib.Core.Path.{subst}
use touch_connect.Prelude.{
  String, Bool, ◌==◌, if◌then◌else◌, any, ◌∷◌, ◌∙◌, ◌≡◌, ◌≢◌, refl, sym, arith, ◌⊎◌, inl, inr, some,
  List, [], is_empty, Bool-cases, eq_iff,
}
use touch_connect.GoText.{trim_space}
use touch_connect.Memory.Sort.{sort_by}
use touch_connect.Memory.Sort.Ordered.{Sorted, sort_by-Sorted, sort_by-perm}
use touch_connect.Governance.Order.{
  PairAtMost, PairAtMost-trans, pair_less, not_less-PairAtMost, less-PairAtMost,
}
use touch_connect.Governance.Records.{ApprovalRecord, ApprovalChain}
use touch_connect.Governance.Answers.{
  Answer, absent, panics, diverges, found, last, last-some, filter, filter-cong, eq_nil_of_is_empty,
  ne_nil_of_not_empty,
}
use touch_connect.Governance.Chain.{
  approval_matches, approval_sort_key, decided_before, sorted_decisions, chain_of,
  build_approval_chain,
}

-- The text that dates a decision, and its reference: the decision time's, or the request time's
-- where none is given.
abbrev pub decision_key : ApprovalRecord → String × String
decision_key a = (if a.decided_at == "" then a.requested_at else a.decided_at, a.approval_ref)

-- One of the four references of the approval.
abbrev pub names_approval : String → ApprovalRecord → Bool
names_approval ref a =
    any (λ r. r == ref) (a.approval_ref ∷ a.message_ref ∷ a.attempt_ref ∷ a.target_ref ∷ [])

abbrev pub Precedes : ApprovalRecord → ApprovalRecord → Type 0
Precedes a b = PairAtMost (decision_key a) (decision_key b)

decided_before-pair_less :
    (a b : ApprovalRecord) → decided_before a b ≡ pair_less (decision_key a) (decision_key b)
unfolding decided_before approval_sort_key
decided_before-pair_less a b = elim (Bool-cases (a.decided_at == "")) [
  | inl e ↦ elim (Bool-cases (b.decided_at == "")) [
    | inl h ↦ rw (e, h) refl
    | inr h ↦ rw (e, h) refl
  ]
  | inr e ↦ elim (Bool-cases (b.decided_at == "")) [
    | inl h ↦ rw (e, h) refl
    | inr h ↦ rw (e, h) refl
  ]
]

sort_by-decision_key : (l : List ApprovalRecord) → Sorted Precedes (sort_by decided_before l)
sort_by-decision_key =
    sort_by-Sorted decided_before Precedes
      (λ a b c. PairAtMost-trans (decision_key a) (decision_key b) (decision_key c))
      (λ a b h.
        less-PairAtMost (decision_key a) (decision_key b) (sym (decided_before-pair_less a b) ∙ h))
      (λ a b h.
        not_less-PairAtMost (decision_key a) (decision_key b)
          (sym (decided_before-pair_less b a) ∙ h))

matches-names : (ref : String) (a : ApprovalRecord) → approval_matches ref a ≡ names_approval ref a
unfolding approval_matches any
matches-names ref a = ground arith

module _ (query_ref : String) (approvals : List ApprovalRecord) where
  abbrev pub matching : List ApprovalRecord
  matching = filter (names_approval (trim_space query_ref)) approvals

  abbrev pub IsChainOf : Answer ApprovalChain → Type 0
  IsChainOf absent = (trim_space query_ref ≡ "") ⊎ (matching ≡ [])
  IsChainOf panics = ⊥
  IsChainOf diverges = ⊥
  IsChainOf (found chain) =
      (trim_space query_ref ≢ "")
      × (matching ≢ [])
      × (chain.query_ref ≡ trim_space query_ref)
      × Perm chain.decisions matching
      × Sorted Precedes chain.decisions
      × ((a : ApprovalRecord) × (chain.current ≡ some a) × (last chain.decisions ≡ some a))

  chain_of-IsChainOf :
      (sorted : List ApprovalRecord)
      → Perm sorted matching
      → Sorted Precedes sorted
      → trim_space query_ref ≢ ""
      → matching ≢ []
      → IsChainOf (chain_of (trim_space query_ref) sorted)
  unfolding chain_of
  chain_of-IsChainOf sorted perm ordered named some_match =
      let (current, e) =
        last-some sorted
          (λ h. some_match (sym (Perm.nil-eq (subst (λ l. Perm l matching) h perm)))) in
      rw (e, chain_of, IsChainOf) (named, some_match, refl, perm, ordered, (current, refl, e))

-- The chain of a reference: there is none exactly where the trimmed reference is blank or is none of
-- the approval, message, attempt and target references of any approval, and else it holds each
-- approval with such a reference, as often as it is given, ordered by the text of the decision time,
-- or of the request time where there is no decision time, and by the approval reference where the
-- texts are the same. The last one is current, and it is not read from an empty slice.
pub build_approval_chain-IsChainOf :
    (query_ref : String) (approvals : List ApprovalRecord)
    → IsChainOf query_ref approvals (build_approval_chain query_ref approvals)
unfolding build_approval_chain sorted_decisions
build_approval_chain-IsChainOf query_ref approvals =
    let q = trim_space query_ref in
    let same = filter-cong (approval_matches q) (names_approval q) approvals (matches-names q) in
    elim (Bool-cases (q == "")) [
      | inl blank ↦ rw blank (inl ((eq_iff q "").0 blank))
      | inr named ↦
          rw (named, same)
            (elim (Bool-cases (is_empty (matching query_ref approvals))) [
              | inl empty ↦ rw empty (inr (eq_nil_of_is_empty _ empty))
              | inr more ↦ rw more (
                  chain_of-IsChainOf query_ref approvals _ (sort_by-perm decided_before _)
                    (sort_by-decision_key _) (λ e. cc ((eq_iff q "").1 e))
                    (ne_nil_of_not_empty _ more))
            ])
    ]
