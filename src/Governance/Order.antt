-- ===== src/Governance/Order.antt =====
-- The order in which governance.go lists decisions and versions: by a text, and by reference where
-- the texts are the same. It is told apart from the comparisons of the code.
use mathlib.Core.Path.{subst}
use touch_connect.Prelude.{
  String, Bool, true, false, ◌==◌, if◌then◌else◌, ◌≡◌, sym, ◌∙◌, arith, inl, inr, Bool-cases,
  eq_iff,
}
use touch_connect.Memory.Sort.{string_less}
use touch_connect.Memory.Sort.Ordered.{string_less_flip}
use touch_connect.Memory.Sort.TextOrder.{
  TextAtMost, TextAtMost-refl, TextAtMost-trans, TextAtMost-antisym, not_less-TextAtMost,
}

-- A text and a reference: by the text, and by the reference where the texts are the same.
abbrev pub PairAtMost : String × String → String × String → Type 0
PairAtMost (k, r) (j, q) = TextAtMost k j × (k ≡ j → TextAtMost r q)

pub PairAtMost-trans : (x y z : String × String) → PairAtMost x y → PairAtMost y z → PairAtMost x z
PairAtMost-trans (k, r) (j, q) (i, o) a b = (
  TextAtMost-trans k j i a.0 b.0,
  λ e.
      let first : k ≡ j = TextAtMost-antisym k j a.0 (subst (TextAtMost j) (sym e) b.0) in
      TextAtMost-trans r q o (a.1 first) (b.1 (sym first ∙ e)),
)

-- The comparison that both sorts make.
abbrev pub pair_less : String × String → String × String → Bool
pair_less (k, r) (j, q) = if k == j then string_less r q else string_less k j

pub not_less-PairAtMost : (x y : String × String) → pair_less y x ≡ false → PairAtMost x y
not_less-PairAtMost (k, r) (j, q) h = elim (Bool-cases (j == k)) [
  | inl same ↦
      let e : j ≡ k = (eq_iff j k).0 same in
      (rw e (TextAtMost-refl k), λ _. not_less-TextAtMost r q (rw same at h))
  | inr other ↦
      (not_less-TextAtMost k j (rw other at h), λ e. absurd (cc ((eq_iff j k).1 (sym e), other)))
]

pub less-PairAtMost : (x y : String × String) → pair_less x y ≡ true → PairAtMost x y
less-PairAtMost (k, r) (j, q) h =
    not_less-PairAtMost (k, r) (j, q)
      (ground (arith, eq_iff k j, eq_iff j k, string_less_flip k j, string_less_flip r q))
