-- ===== src/Memory/Sort/Ordered.antt =====
-- The order on texts, and that sorting orders a list and neither loses nor adds an element.
use Prim.Native.Nat.{Ordering, compare as compare_numbers}
use Prim.Native.Char.{code}
use Prim.Native.String.{compare, then}
use Prim.Native.String.compare
use text.Mathlib.Text.{is_lt}
use mathlib.Core.List.{Perm}
use mathlib.Core.List.Perm
use touch_connect.Prelude.{
  ℕ, String, Bool, true, false, ◌≡◌, arith, List, [], ◌∷◌, All, All-map, Bool-cases, inl, inr,
}
use touch_connect.Memory.Sort.{sort_by, insert_sorted, insert_sorted-All, string_less}

-- The first comparison that decides.
then_lt :
    (m n : ℕ) (r q : Ordering)
    → (is_lt r ≡ true → is_lt q ≡ true → ⊥)
    → is_lt (then (compare_numbers m n) r) ≡ true
    → is_lt (then (compare_numbers n m) q) ≡ true
    → ⊥
then_lt m n r q below h k = ground arith

string_less_asym : (a b : String) → string_less a b ≡ true → string_less b a ≡ true → ⊥
string_less_asym String.[] String.[] h k = cc
string_less_asym String.[] (String.◌∷◌ d t) h k = cc (rw (compare.cons-nil d t) at k)
string_less_asym (String.◌∷◌ c s) String.[] h k = cc (rw (compare.cons-nil c s) at h)
string_less_asym (String.◌∷◌ c s) (String.◌∷◌ d t) h k =
    then_lt (code c) (code d) (compare s t) (compare t s) (string_less_asym s t)
      (rw (compare.cons-cons c d s t) at h) (rw (compare.cons-cons d c t s) at k)

pub string_less_flip : (a b : String) → string_less a b ≡ true → string_less b a ≡ false
string_less_flip a b h = elim (Bool-cases (string_less b a)) [
  | inl e ↦ absurd (string_less_asym a b h e)
  | inr e ↦ e
]

-- Every element stands in the relation to all that follow it.
abbrev pub Sorted : {A : Type 0} → (A → A → Type 0) → List A → Type 0
Sorted R [] = Unit
Sorted R (x ∷ l) = All (R x) l × Sorted R l

module _ {A : Type 0} (less : A → A → Bool) where
  module _ (R : A → A → Type 0) (trans : (a b c : A) → R a b → R b c → R a c)
      (of_less : (a b : A) → less a b ≡ true → R a b)
      (of_not_less : (a b : A) → less b a ≡ false → R a b) where
    insert_sorted-Sorted : (a : A) (l : List A) → Sorted R l → Sorted R (insert_sorted less a l)
    unfolding insert_sorted
    insert_sorted-Sorted a [] o = (tt, tt)
    insert_sorted-Sorted a (b ∷ l) o = elim (Bool-cases (less b a)) [
      | inl e ↦
          rw e (insert_sorted-All (R b) less a l (of_less b a e) o.0, insert_sorted-Sorted a l o.1)
      | inr e ↦
          let first = of_not_less a b e in rw e ((first, All-map l (λ c. trans a b c first) o.0), o)
    ]

    pub sort_by-Sorted : (l : List A) → Sorted R (sort_by less l)
    unfolding sort_by
    sort_by-Sorted [] = tt
    sort_by-Sorted (a ∷ l) = insert_sorted-Sorted a (sort_by less l) (sort_by-Sorted l)

  insert_sorted-perm : (a : A) (l : List A) → Perm (insert_sorted less a l) (a ∷ l)
  unfolding insert_sorted
  insert_sorted-perm a [] = Perm.refl _
  insert_sorted-perm a (b ∷ l) = elim (Bool-cases (less b a)) [
    | inl e ↦ rw e (Perm.trans (Perm.cons b (insert_sorted-perm a l)) (Perm.swap a b l))
    | inr e ↦ rw e (Perm.refl _)
  ]

  pub sort_by-perm : (l : List A) → Perm (sort_by less l) l
  unfolding sort_by
  sort_by-perm [] = Perm.refl _
  sort_by-perm (a ∷ l) =
      Perm.trans (insert_sorted-perm a (sort_by less l)) (Perm.cons a (sort_by-perm l))
