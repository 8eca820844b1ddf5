-- ===== src/Governance/Lineage/Closure.antt =====
-- The loop of expandArtifactClosure ends: a round that changes something includes an artifact that
-- was missing.
use mathlib.Core.Path.{subst}
use touch_connect.Prelude.{
  ℕ, zero, suc, ◌+◌, ◌≤◌, ◌<◌, String, Bool, true, false, not, ◌==◌, ◌!=◌, ◌&&◌, ◌||◌,
  if◌then◌else◌, is_some, some, List, [], ◌∷◌, ◌++◌, any, length, ◌≡◌, refl, sym, ◌∙◌, arith,
  Bool-cases, Option-cases, inl, inr, eq_iff, eq_refl,
}
use touch_connect.GoMap.{Map, get, put}
use touch_connect.GoMap.Laws.{get-put}
use touch_connect.Governance.Records.{ArtifactRecord}
use touch_connect.Governance.Lineage.{
  has, Pass, include_parents_of, include_parents, include_artifact_parents, has_included_parent,
  include_children, include_artifact_children, expand_artifact_closure, expand_matches,
  versions_by_ref,
}

-- Some artifact has the version reference.
unfoldable pub names : List ArtifactRecord → String → Bool
names [] ref = false
names (a ∷ rest) ref = a.artifact_version_ref == ref || names rest ref

-- How many artifacts are not included yet.
pub missing : List String → List ArtifactRecord → ℕ
missing included [] = 0
missing included (a ∷ rest) =
    (if has included a.artifact_version_ref then 0 else 1) + missing included rest

pub has-concat :
    (included : List String) (r q : String)
    → has (included ++ r ∷ []) q ≡ (has included q || r == q)
unfolding has any
has-concat [] r q = ground arith
has-concat (x ∷ included) r q = ground (arith, has-concat included r q)

missing-concat_le :
    (included : List String) (r : String) (artifacts : List ArtifactRecord)
    → missing (included ++ r ∷ []) artifacts ≤ missing included artifacts
unfolding missing
missing-concat_le included r [] = omega arith
missing-concat_le included r (a ∷ rest) =
    ground (arith, has-concat included r a.artifact_version_ref, missing-concat_le included r rest)

missing-concat_lt :
    (included : List String) (r : String) (artifacts : List ArtifactRecord)
    → names artifacts r ≡ true
    → has included r ≡ false
    → missing (included ++ r ∷ []) artifacts < missing included artifacts
unfolding missing names
missing-concat_lt included r [] n h = cc
missing-concat_lt included r (a ∷ rest) n h = elim (Bool-cases (a.artifact_version_ref == r)) [
  | inl e ↦
      let same = (eq_iff a.artifact_version_ref r).0 e in
      ground (
        arith,
        has-concat included r a.artifact_version_ref,
        missing-concat_le included r rest,
        same,
        rw (sym same) at h,
        eq_iff r a.artifact_version_ref,
      )
  | inr e ↦
      ground
        (arith, has-concat included r a.artifact_version_ref, missing-concat_lt included r rest)
]

missing-le-length :
    (included : List String) (artifacts : List ArtifactRecord)
    → missing included artifacts ≤ length artifacts
unfolding missing
missing-le-length included [] = omega arith
missing-le-length included (a ∷ rest) = ground (arith, missing-le-length included rest)

-- A pass from `start` either changed nothing, or fewer artifacts are missing than before.
abbrev Progress : List ArtifactRecord → List String → Pass → Type 0
Progress artifacts start (included, true) = missing included artifacts < missing start artifacts
Progress artifacts start (included, false) = included ≡ start

Progress-concat :
    (artifacts : List ArtifactRecord) (start included : List String) (changed : Bool) (r : String)
    → names artifacts r ≡ true
    → has included r ≡ false
    → Progress artifacts start (included, changed)
    → Progress artifacts start (included ++ r ∷ [], true)
Progress-concat artifacts start included true r n h p =
    omega (arith, missing-concat_lt included r artifacts n h)
Progress-concat artifacts start included false r n h p =
    subst (λ s. missing (included ++ r ∷ []) artifacts < missing s artifacts) p
      (missing-concat_lt included r artifacts n h)

-- The index holds versions of the artifacts only.
abbrev Indexes : List ArtifactRecord → Map ArtifactRecord → Type 0
Indexes artifacts by_version =
    (r : String) → is_some (get by_version r) ≡ true → names artifacts r ≡ true

pub and-true : (a b : Bool) → (a && b) ≡ true → (a ≡ true) × (b ≡ true)
and-true true true h = (refl, refl)
and-true true false h = cc
and-true false b h = cc

pub or-false : (a b : Bool) → (a || b) ≡ false → (a ≡ false) × (b ≡ false)
or-false false false h = (refl, refl)
or-false false true h = cc
or-false true b h = cc

pub not-true : (a : Bool) → not a ≡ true → a ≡ false
not-true true h = cc
not-true false h = refl

names-head :
    (a : ArtifactRecord) (rest : List ArtifactRecord)
    → names (a ∷ rest) a.artifact_version_ref ≡ true
unfolding names
names-head a rest = ground (arith, eq_refl a.artifact_version_ref)

names-tail :
    (artifacts : List ArtifactRecord) (a : ArtifactRecord) (rest : List ArtifactRecord)
    → ((r : String) → names (a ∷ rest) r ≡ true → names artifacts r ≡ true)
    → (r : String) → names rest r ≡ true
    → names artifacts r ≡ true
unfolding names
names-tail artifacts a rest within r h = within r (ground arith)

module _ (artifacts : List ArtifactRecord) (by_version : Map ArtifactRecord)
    (indexes : Indexes artifacts by_version) (start : List String) where
  include_parents_of-Progress :
      (parents : List String) (included : List String) (changed : Bool)
      → Progress artifacts start (included, changed)
      → Progress artifacts start (include_parents_of by_version parents (included, changed))
  unfolding include_parents_of
  include_parents_of-Progress [] included changed p = p
  include_parents_of-Progress (r ∷ rest) included changed p =
      elim (Bool-cases (is_some (get by_version r) && not (has included r))) [
        | inl hit ↦
            let (there, new) = and-true _ _ hit in
            rw hit (
              include_parents_of-Progress rest (included ++ r ∷ []) true (
                Progress-concat artifacts start included changed r (indexes r there)
                  (not-true _ new) p))
        | inr miss ↦ rw miss (include_parents_of-Progress rest included changed p)
      ]

  include_parents-Progress :
      (refs : List String) (pass : Pass)
      → Progress artifacts start pass
      → Progress artifacts start (include_parents by_version refs pass)
  unfolding include_parents
  include_parents-Progress [] pass p = p
  include_parents-Progress (r ∷ refs) pass p = elim (Option-cases (get by_version r)) [
    | inl e ↦ rw e (include_parents-Progress refs pass p)
    | inr (a, e) ↦ rw e (
        include_parents-Progress refs _
          (include_parents_of-Progress a.based_on_artifact_version_refs pass.0 pass.1 p))
  ]

  include_children-Progress :
      (rest : List ArtifactRecord) (included : List String) (changed : Bool)
      → ((r : String) → names rest r ≡ true → names artifacts r ≡ true)
      → Progress artifacts start (included, changed)
      → Progress artifacts start (include_children rest (included, changed))
  unfolding include_children
  include_children-Progress [] included changed within p = p
  include_children-Progress (a ∷ rest) included changed within p =
      let later = names-tail artifacts a rest within in
      elim (Bool-cases
        (has included a.artifact_version_ref || not (has_included_parent a included))) [
          | inl skip ↦ rw skip (include_children-Progress rest included changed later p)
          | inr new ↦ rw new (
              include_children-Progress rest _ true later (
                Progress-concat artifacts start included changed a.artifact_version_ref
                  (within a.artifact_version_ref (names-head a rest)) (or-false _ _ new).0 p))
        ]

module _ (artifacts : List ArtifactRecord) (by_version : Map ArtifactRecord)
    (indexes : Indexes artifacts by_version) where
  -- One round: it changed nothing, or fewer artifacts are missing.
  abbrev Round : List String → List String → Bool → Type 0
  Round start included true = missing included artifacts < missing start artifacts
  Round start included false = included ≡ start

  round :
      (start middle included : List String) (up down : Bool)
      → Progress artifacts start (middle, up)
      → Progress artifacts middle (included, down)
      → Round start included (down || up)
  round start middle included true true p q = omega arith
  round start middle included false true p q =
      subst (λ s. missing included artifacts < missing s artifacts) p q
  round start middle included true false p q =
      subst (λ s. missing s artifacts < missing start artifacts) (sym q) p
  round start middle included false false p q = q ∙ p

  -- Enough fuel gives a result.
  pub expand_artifact_closure-ends :
      (fuel : ℕ) (included : List String)
      → missing included artifacts < fuel
      → (closed : List String) × (expand_artifact_closure by_version artifacts fuel included
          ≡ some closed)
  unfolding expand_artifact_closure include_artifact_parents include_artifact_children
  expand_artifact_closure-ends zero included h = absurd (omega arith)
  expand_artifact_closure-ends (suc fuel) included h =
      let up = include_artifact_parents by_version included in
      let down = include_artifact_children artifacts up.0 in
      let outcome : Round included down.0 (down.1 || up.1) =
        round included up.0 down.0 up.1 down.1
          (include_parents-Progress artifacts by_version indexes included included (included, false)
            refl)
          (include_children-Progress artifacts by_version indexes up.0 artifacts up.0 false
            (λ r n. n) refl) in
      elim (Bool-cases (down.1 || up.1)) [
        | inl more ↦
            let fewer : missing down.0 artifacts < missing included artifacts =
              subst (Round included down.0) more outcome in
            let (closed, e) = expand_artifact_closure-ends fuel down.0 (omega arith) in
            (closed, rw more e)
        | inr done ↦ (down.0, rw done)
      ]

put-Indexes :
    (artifacts : List ArtifactRecord) (a : ArtifactRecord) (m : Map ArtifactRecord)
    → names artifacts a.artifact_version_ref ≡ true
    → Indexes artifacts m
    → Indexes artifacts (if a.artifact_version_ref != "" then put m a.artifact_version_ref a else m)
put-Indexes artifacts a m here known r h = elim (Bool-cases (a.artifact_version_ref != "")) [
  | inl e ↦ elim (Bool-cases (a.artifact_version_ref == r)) [
    | inl same ↦
        subst (λ q. names artifacts q ≡ true) ((eq_iff a.artifact_version_ref r).0 same) here
    | inr other ↦ known r (rw (e, get-put m a.artifact_version_ref r a, other) at h)
  ]
  | inr e ↦ known r (rw e at h)
]

versions_by_ref-Indexes :
    (artifacts rest : List ArtifactRecord) (m : Map ArtifactRecord)
    → ((r : String) → names rest r ≡ true → names artifacts r ≡ true)
    → Indexes artifacts m
    → Indexes artifacts (versions_by_ref rest m)
unfolding versions_by_ref
versions_by_ref-Indexes artifacts [] m within known = known
versions_by_ref-Indexes artifacts (a ∷ rest) m within known =
    versions_by_ref-Indexes artifacts rest _ (names-tail artifacts a rest within)
      (put-Indexes artifacts a m (within a.artifact_version_ref (names-head a rest)) known)

-- With the fuel that the lineage gives, the loop ends.
pub expand_matches-ends :
    (artifacts : List ArtifactRecord) (included : List String)
    → (closed : List String) × (expand_matches artifacts included ≡ some closed)
unfolding expand_matches get
expand_matches-ends artifacts included =
    expand_artifact_closure-ends artifacts (versions_by_ref artifacts [])
      (versions_by_ref-Indexes artifacts artifacts [] (λ r n. n) (λ r e. ground arith)) _ included
      (omega (arith, missing-le-length included artifacts))
