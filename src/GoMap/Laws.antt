-- ===== src/GoMap/Laws.antt =====
-- Reads after writes, and entries of a map that satisfy a predicate.
use touch_connect.Prelude.{
  String, ◌==◌, if◌then◌else◌, none, some, All, [], ◌∷◌, ◌≡◌, ◌≢◌, refl, arith, Bool-cases, ◌⊎◌,
  inl, inr, eq_iff, eq_refl,
}
use touch_connect.GoMap.{Map, get, put}

module _ {ℓ} {V : Type ℓ} where
  pub get-put :
      (m : Map V) (k j : String) (v : V) → get (put m k v) j ≡ (if k == j then some v else get m j)
  unfolding get put
  get-put [] k j v = refl
  get-put ((i, w) ∷ m) k j v = ground (arith, get-put m k j v, eq_iff k j, eq_iff i k, eq_iff i j)

  pub get-put_self : (m : Map V) (k : String) (v : V) → get (put m k v) k ≡ some v
  get-put_self m k v = simp (get-put, eq_refl)

  pub get-put_ne : (m : Map V) (k j : String) (v : V) → k ≢ j → get (put m k v) j ≡ get m j
  get-put_ne m k j v h = ground (arith, get-put m k j v, eq_iff k j)

  -- Where an entry of a written map comes from.
  pub get-put_cases :
      (m : Map V) (k j : String) (v : V) {x : V}
      → get (put m k v) j ≡ some x
      → ((k ≡ j) × (v ≡ x)) ⊎ ((k ≢ j) × (get m j ≡ some x))
  get-put_cases m k j v {x} h = elim (Bool-cases (k == j)) [
    | inl hit ↦ inl ((eq_iff k j).0 hit, ground (arith, get-put m k j v))
    | inr miss ↦ inr (λ e. cc ((eq_iff k j).1 e), ground (arith, get-put m k j v))
  ]

  -- No key stands twice.
  abbrev pub Distinct : Map V → Type ℓ
  Distinct [] = Unit
  Distinct ((k, v) ∷ m) = (get m k ≡ none) × Distinct m

  pub put-Distinct : (m : Map V) (k : String) (v : V) → Distinct m → Distinct (put m k v)
  unfolding get put
  put-Distinct [] k v d = (refl, tt)
  put-Distinct ((j, w) ∷ m) k v d = elim (Bool-cases (j == k)) [
    | inl hit ↦ rw hit d
    | inr miss ↦
        rw miss
          (ground (arith, get-put m k j v, eq_iff j k, eq_iff k j, d.0), put-Distinct m k v d.1)
  ]

  entries_kept :
      (k : String) (v : V) (m n : Map V)
      → get m k ≡ none
      → All (λ (p : String × V). get m p.0 ≡ some p.1) n
      → All (λ (p : String × V). get ((k, v) ∷ m) p.0 ≡ some p.1) n
  unfolding get
  entries_kept k v m [] new all = tt
  entries_kept k v m ((j, w) ∷ n) new all =
      (ground (arith, eq_iff k j, all.0, new), entries_kept k v m n new all.1)

  -- In a map of distinct keys every entry is what its key reads.
  pub get-entries : (m : Map V) → Distinct m → All (λ (p : String × V). get m p.0 ≡ some p.1) m
  unfolding get
  get-entries [] d = tt
  get-entries ((k, v) ∷ m) d =
      (ground (arith, eq_refl k), entries_kept k v m m d.0 (get-entries m d.1))
