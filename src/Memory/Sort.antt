-- ===== src/Memory/Sort.antt =====
-- The order that sort.Strings and sort.Slice produce: insertion by a strict order on keys. Where two
-- keys are equal Go leaves the order open; the keys that the store sorts by are distinct.
pub mod Ordered
pub mod TextOrder
use Prim.Native.String.{compare}
use text.Mathlib.Text.{is_lt}
use touch_connect.Prelude.{String, Bool, if◌then◌else◌, List, [], ◌∷◌, All, Bool-cases, inl, inr}

-- a < b on strings: by bytes, which is by code points.
abbrev pub string_less : String → String → Bool
string_less a b = is_lt (compare a b)

module _ {A : Type 0} (less : A → A → Bool) where
  unfoldable pub insert_sorted : A → List A → List A
  insert_sorted a [] = a ∷ []
  insert_sorted a (b ∷ l) = if less b a then b ∷ insert_sorted a l else a ∷ b ∷ l

  unfoldable pub sort_by : List A → List A
  unfolding insert_sorted
  sort_by [] = []
  sort_by (a ∷ l) = insert_sorted a (sort_by l)

unfoldable pub sort_strings : List String → List String
unfolding sort_by
sort_strings refs = sort_by string_less refs

-- What holds of every element holds of every element of the sorted list.
module _ {A : Type 0} (P : A → Type 0) (less : A → A → Bool) where
  pub insert_sorted-All : (a : A) (l : List A) → P a → All P l → All P (insert_sorted less a l)
  unfolding insert_sorted
  insert_sorted-All a [] p ps = (p, tt)
  insert_sorted-All a (b ∷ l) p ps = elim (Bool-cases (less b a)) [
    | inl e ↦ rw e (ps.0, insert_sorted-All a l p ps.1)
    | inr e ↦ rw e (p, ps)
  ]

  pub sort_by-All : (l : List A) → All P l → All P (sort_by less l)
  unfolding sort_by
  sort_by-All [] ps = tt
  sort_by-All (a ∷ l) ps = insert_sorted-All a (sort_by less l) ps.0 (sort_by-All l ps.1)
