-- ===== src/Memory/Claim/Latest.antt =====
-- latestCheckpoint of memory/store.go: where a takeover resumes.
use touch_connect.Prelude.{
  ◌≤◌, ◌<◌, ltb, ◌≡◌, refl, sym, ◌∙◌, ◌⊎◌, inl, inr, arith, some, List, [], ◌∷◌, All, Bool-cases,
}
use touch_connect.Domain.Model.{Checkpoint}
use touch_connect.Memory.Claim.{latest_from, latest_checkpoint}

-- The checkpoint is one of the list.
abbrev pub IsOneOf : Checkpoint → List Checkpoint → Type 0
IsOneOf c [] = ⊥
IsOneOf c (x ∷ xs) = (c ≡ x) ⊎ IsOneOf c xs

-- No checkpoint of the list has a higher revision.
abbrev pub AtMost : Checkpoint → List Checkpoint → Type 0
AtMost c xs = All (λ (x : Checkpoint). x.revision ≤ c.revision) xs

-- One round of the loop.
latest_from-cons :
    (c x : Checkpoint) (xs : List Checkpoint)
    → ((c.revision < x.revision) × (latest_from c (x ∷ xs) ≡ latest_from x xs))
      ⊎ ((x.revision ≤ c.revision) × (latest_from c (x ∷ xs) ≡ latest_from c xs))
unfolding latest_from
latest_from-cons c x xs = elim (Bool-cases (ltb c.revision x.revision)) [
  | inl later ↦ inl (ground arith, rw (later, latest_from))
  | inr earlier ↦ inr (ground arith, rw (earlier, latest_from))
]

latest_from-revision :
    (c : Checkpoint) (xs : List Checkpoint) → c.revision ≤ (latest_from c xs).revision
unfolding latest_from
latest_from-revision c [] = omega arith
latest_from-revision c (x ∷ xs) = elim (latest_from-cons c x xs) [
  | inl (later, e) ↦ rw e (omega (arith, latest_from-revision x xs))
  | inr (earlier, e) ↦ rw e (latest_from-revision c xs)
]

latest_from-AtMost : (c : Checkpoint) (xs : List Checkpoint) → AtMost (latest_from c xs) xs
latest_from-AtMost c [] = tt
latest_from-AtMost c (x ∷ xs) = elim (latest_from-cons c x xs) [
  | inl (later, e) ↦
      coe 0 1 (i. AtMost (sym e i) (x ∷ xs)) (latest_from-revision x xs, latest_from-AtMost x xs)
  | inr (earlier, e) ↦
      coe 0 1 (i. AtMost (sym e i) (x ∷ xs))
        (omega (arith, latest_from-revision c xs), latest_from-AtMost c xs)
]

latest_from-IsOneOf : (c : Checkpoint) (xs : List Checkpoint) → IsOneOf (latest_from c xs) (c ∷ xs)
unfolding latest_from
latest_from-IsOneOf c [] = inl refl
latest_from-IsOneOf c (x ∷ xs) = elim (latest_from-cons c x xs) [
  | inl (later, e) ↦ inr (coe 0 1 (i. IsOneOf (sym e i) (x ∷ xs)) (latest_from-IsOneOf x xs))
  | inr (earlier, e) ↦ elim (latest_from-IsOneOf c xs) [
    | inl here ↦ inl (e ∙ here)
    | inr there ↦ inr (inr (coe 0 1 (i. IsOneOf (sym e i) xs) there))
  ]
]

-- What a takeover resumes from is one of the attempt's checkpoints, and none of them has a higher
-- revision; there is one whenever the attempt has a checkpoint.
pub latest_checkpoint-AtMost :
    (first : Checkpoint) (rest : List Checkpoint)
    → (c : Checkpoint) × (latest_checkpoint (first ∷ rest) ≡ some c)
      × IsOneOf c (first ∷ rest)
      × AtMost c (first ∷ rest)
unfolding latest_checkpoint
latest_checkpoint-AtMost first rest = (
  latest_from first rest,
  refl,
  latest_from-IsOneOf first rest,
  (latest_from-revision first rest, latest_from-AtMost first rest),
)
