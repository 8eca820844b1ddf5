-- ===== src/Governance/Answers.antt =====
-- What the builders of governance.go return, and the loops that both use.
use touch_connect.Prelude.{
  ◌≢◌, Bool, true, false, if◌then◌else◌, Option, none, some, List, [], ◌∷◌, is_empty, ◌≡◌, refl,
}

-- items[len(items)-1]; none stands for the panic at an empty slice.
unfoldable pub last : {A : Type 0} → List A → Option A
last [] = none
last (x ∷ []) = some x
last (x ∷ y ∷ xs) = last (y ∷ xs)

-- The second result false is `absent`.
pub data Answer (A : Type 0) : Type 0 where
  absent : Answer A
  panics : Answer A
  diverges : Answer A
  found : A → Answer A

pub last-some : {A : Type 0} (xs : List A) → xs ≢ [] → (a : A) × (last xs ≡ some a)
unfolding last
last-some [] h = absurd (h refl)
last-some (x ∷ []) h = (x, refl)
last-some (x ∷ y ∷ xs) h = last-some (y ∷ xs) (λ e. cc)

-- The loops that collect the records that match.
unfoldable pub filter : {A : Type 0} → (A → Bool) → List A → List A
filter p [] = []
filter p (x ∷ xs) = if p x then x ∷ filter p xs else filter p xs

pub filter-cong :
    {A : Type 0} (p q : A → Bool) (xs : List A) → ((x : A) → p x ≡ q x) → filter p xs ≡ filter q xs
unfolding filter
filter-cong p q [] e = refl
filter-cong p q (x ∷ xs) e = rw (e x, filter-cong p q xs e) refl

pub eq_nil_of_is_empty : {A : Type 0} (xs : List A) → is_empty xs ≡ true → xs ≡ []
eq_nil_of_is_empty [] h = refl
eq_nil_of_is_empty (x ∷ xs) h = cc

pub ne_nil_of_not_empty : {A : Type 0} (xs : List A) → is_empty xs ≡ false → xs ≢ []
ne_nil_of_not_empty [] h e = cc
ne_nil_of_not_empty (x ∷ xs) h e = cc
