-- ===== src/Memory/Sort/TextOrder.antt =====
-- The order of texts, told apart from the comparison of the model.
use Prim.Native.Char.{code}
use Prim.Native.Nat.{Ordering, compare as compare_numbers}
use Prim.Native.String.{compare, then}
use Prim.Native.String.compare
use text.Mathlib.Text.{is_lt}
use text.Mathlib.TextEquality.{Char-path}
use touch_connect.Prelude.{ℕ, String, false, ◌<◌, ◌≡◌, refl, arith, ◌⊎◌, inl, inr, ap, ◌∙◌}
use touch_connect.Memory.Sort.{string_less}

-- The first text is the second, or stands before it: by characters, a prefix first.
abbrev pub TextAtMost : String → String → Type 0
TextAtMost String.[] t = Unit
TextAtMost (String.◌∷◌ c s) String.[] = ⊥
TextAtMost (String.◌∷◌ c s) (String.◌∷◌ d t) = (code c < code d) ⊎ ((c ≡ d) × TextAtMost s t)

pub TextAtMost-refl : (a : String) → TextAtMost a a
TextAtMost-refl String.[] = tt
TextAtMost-refl (String.◌∷◌ c a) = inr (refl, TextAtMost-refl a)

pub TextAtMost-trans : (a b c : String) → TextAtMost a b → TextAtMost b c → TextAtMost a c
TextAtMost-trans String.[] b c p q = tt
TextAtMost-trans (String.◌∷◌ x a) String.[] c p q = absurd p
TextAtMost-trans (String.◌∷◌ x a) (String.◌∷◌ y b) String.[] p q = absurd q
TextAtMost-trans (String.◌∷◌ x a) (String.◌∷◌ y b) (String.◌∷◌ z c) (inl p) (inl q) =
    inl (omega arith)
TextAtMost-trans (String.◌∷◌ x a) (String.◌∷◌ y b) (String.◌∷◌ z c) (inl p) (inr q) =
    inl (omega (arith, ap code q.0))
TextAtMost-trans (String.◌∷◌ x a) (String.◌∷◌ y b) (String.◌∷◌ z c) (inr p) (inl q) =
    inl (omega (arith, ap code p.0))
TextAtMost-trans (String.◌∷◌ x a) (String.◌∷◌ y b) (String.◌∷◌ z c) (inr p) (inr q) =
    inr (p.0 ∙ q.0, TextAtMost-trans a b c p.1 q.1)

pub TextAtMost-antisym : (a b : String) → TextAtMost a b → TextAtMost b a → a ≡ b
TextAtMost-antisym String.[] String.[] p q = refl
TextAtMost-antisym String.[] (String.◌∷◌ y b) p q = absurd q
TextAtMost-antisym (String.◌∷◌ x a) String.[] p q = absurd p
TextAtMost-antisym (String.◌∷◌ x a) (String.◌∷◌ y b) (inl p) (inl q) = absurd (omega arith)
TextAtMost-antisym (String.◌∷◌ x a) (String.◌∷◌ y b) (inl p) (inr q) =
    absurd (omega (arith, ap code q.0))
TextAtMost-antisym (String.◌∷◌ x a) (String.◌∷◌ y b) (inr p) (inl q) =
    absurd (omega (arith, ap code p.0))
TextAtMost-antisym (String.◌∷◌ x a) (String.◌∷◌ y b) (inr p) (inr q) =
    rw (p.0, TextAtMost-antisym a b p.1 q.1) refl

then_not_lt :
    (m n : ℕ) (r : Ordering)
    → is_lt (then (compare_numbers n m) r) ≡ false
    → (m < n) ⊎ ((m ≡ n) × (is_lt r ≡ false))
then_not_lt m n r h = ground arith

pub not_less-TextAtMost : (a b : String) → string_less b a ≡ false → TextAtMost a b
not_less-TextAtMost String.[] b h = tt
not_less-TextAtMost (String.◌∷◌ c s) String.[] h = cc (rw (compare.nil-cons c s) at h)
not_less-TextAtMost (String.◌∷◌ c s) (String.◌∷◌ d t) h =
    elim (then_not_lt (code c) (code d) (compare t s) (rw (compare.cons-cons d c t s) at h)) [
      | inl below ↦ inl below
      | inr (same, rest) ↦ inr (Char-path c d same, not_less-TextAtMost s t rest)
    ]
