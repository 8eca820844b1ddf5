-- ===== src/Memory/ClaimNext/Picked.antt =====
-- What nextEligibleMessage picks: of the messages in the state that the endpoint may take, the one with
-- the least reference.
use mathlib.Core.Path.{subst}
use touch_connect.Prelude.{
  String, Bool, true, ◌==◌, ◌||◌, ◌≡◌, refl, ap, ◌∙◌, inl, inr, arith, eq_iff, eq_refl, Bool-cases,
  Option-cases, Option, none, some, List, [], ◌∷◌, All, any,
}
use touch_connect.GoMap.{Map, get, keys}
use touch_connect.Domain.Model.{Message, ClaimNextRequest}
use touch_connect.Memory.Store.{Store}
use touch_connect.Memory.Sort.{string_less, sort_by, insert_sorted, sort_strings}
use touch_connect.Memory.Sort.Ordered.{Sorted, sort_by-Sorted, string_less_flip}
use touch_connect.Memory.Sort.TextOrder.{
  TextAtMost, TextAtMost-refl, TextAtMost-trans, not_less-TextAtMost,
}
use touch_connect.Memory.ClaimNext.{
  in_state, refs_in_state, states_of, is_eligible, first_eligible, next_eligible_message,
}
use touch_connect.Memory.ClaimNext.Preserves.{next_eligible_message-Found}
use touch_connect.Memory.ClaimNext.Eligible.{Eligible, Eligible-iff}

abbrev lists : List String → String → Bool
lists refs ref = any (λ r. r == ref) refs

insert_sorted-lists :
    (a k : String) (l : List String)
    → lists (insert_sorted string_less a l) k ≡ (a == k || lists l k)
unfolding insert_sorted any
insert_sorted-lists a k [] = refl
insert_sorted-lists a k (b ∷ l) = ground (arith, insert_sorted-lists a k l)

sort_strings-lists : (l : List String) (k : String) → lists (sort_strings l) k ≡ lists l k
unfolding sort_strings sort_by any
sort_strings-lists [] k = refl
sort_strings-lists (a ∷ l) k =
    insert_sorted-lists a k (sort_strings l) ∙ ap (◌||◌ (a == k)) (sort_strings-lists l k)

sort_strings-Sorted : (l : List String) → Sorted TextAtMost (sort_strings l)
unfolding sort_strings
sort_strings-Sorted =
    sort_by-Sorted string_less TextAtMost TextAtMost-trans
      (λ a b h. not_less-TextAtMost a b (string_less_flip a b h)) not_less-TextAtMost

keys-lists :
    (messages : Map Message) (k : String) (m : Message)
    → get messages k ≡ some m
    → lists (keys messages) k ≡ true
unfolding get keys any
keys-lists [] k m h = cc
keys-lists ((j, x) ∷ messages) k m h = ground (arith, keys-lists messages k m)

refs_in_state-lists :
    (state : String) (messages : Map Message) (refs : List String) (k : String) (m : Message)
    → get messages k ≡ some m
    → m.state ≡ state
    → lists refs k ≡ true
    → lists (refs_in_state state messages refs) k ≡ true
unfolding refs_in_state in_state any
refs_in_state-lists state messages [] k m e same h = cc
refs_in_state-lists state messages (r ∷ refs) k m e same h =
    let later = refs_in_state-lists state messages refs k m e same in
    let kept : in_state state (get messages k) ≡ true =
      rw (e, in_state) ((eq_iff m.state state).1 same) in
    elim (Bool-cases (r == k)) [
      | inl hit ↦
          let first : in_state state (get messages r) ≡ true = rw ((eq_iff r k).0 hit) kept in
          ground arith
      | inr miss ↦ ground arith
    ]

All-lists : (P : String → Type 0) (l : List String) (k : String) → All P l → lists l k ≡ true → P k
unfolding any
All-lists P [] k ps h = absurd (ground arith)
All-lists P (r ∷ l) k ps h = elim (Bool-cases (r == k)) [
  | inl hit ↦ subst P ((eq_iff r k).0 hit) ps.0
  | inr miss ↦ All-lists P l k ps.1 (ground arith)
]

module _ (state : String) (claim : ClaimNextRequest) (s : Store) where
  -- The candidates of the search: the references are listed, and name an eligible message.
  abbrev Candidate : List String → String → Message → Type 0
  Candidate refs k x = (lists refs k ≡ true) × (get s.messages k ≡ some x) × Eligible claim s x

  abbrev PickedOf : List String → Option Message → Type 0
  PickedOf refs none = (k : String) (x : Message) → Candidate refs k x → ⊥
  PickedOf refs (some m) =
      (ref : String) × Candidate refs ref m
      × ((k : String) (x : Message) → Candidate refs k x → TextAtMost ref k)

  later-Candidate :
      (r : String) (refs : List String) (k : String) (x : Message)
      → ((y : Message) → get s.messages r ≡ some y → Eligible claim s y → ⊥)
      → Candidate (r ∷ refs) k x
      → Candidate refs k x
  unfolding any
  later-Candidate r refs k x out c = elim (Bool-cases (r == k)) [
    | inl hit ↦ absurd (out x (ap (get s.messages) ((eq_iff r k).0 hit) ∙ c.1) c.2)
    | inr miss ↦ (ground (arith, c.0), c.1, c.2)
  ]

  skip :
      (r : String) (refs : List String) (o : Option Message)
      → ((y : Message) → get s.messages r ≡ some y → Eligible claim s y → ⊥)
      → PickedOf refs o
      → PickedOf (r ∷ refs) o
  unfolding any
  skip r refs none out p = λ k x c. p k x (later-Candidate r refs k x out c)
  skip r refs (some m) out (ref, c, least) =
      (ref, (ground (arith, c.0), c.1, c.2), λ k x d. least k x (later-Candidate r refs k x out d))

  first_eligible-PickedOf :
      (refs : List String)
      → Sorted TextAtMost refs
      → PickedOf refs (first_eligible claim (states_of s.messages) s.messages refs)
  unfolding first_eligible any
  first_eligible-PickedOf [] sorted = λ k x c. absurd (ground (arith, c.0))
  first_eligible-PickedOf (r ∷ refs) sorted =
      let rest = first_eligible-PickedOf refs sorted.1 in
      elim (Option-cases (get s.messages r)) [
        | inl absent ↦ rw (absent, first_eligible) (skip r refs _ (λ y ey. absurd cc) rest)
        | inr (x, ex) ↦ elim (Bool-cases (is_eligible claim (states_of s.messages) x)) [
          | inl good ↦
              rw (ex, first_eligible, good)
                (
                  r,
                  (ground (arith, eq_refl r), ex, (Eligible-iff claim s x).0 good),
                  λ k y d. elim (Bool-cases (r == k)) [
                    | inl hit ↦ subst (TextAtMost r) ((eq_iff r k).0 hit) (TextAtMost-refl r)
                    | inr miss ↦ All-lists (TextAtMost r) refs k sorted.0 (ground (arith, d.0))
                  ],
                )
          | inr bad ↦
              rw (ex, first_eligible, bad)
                (skip r refs _
                  (λ y ey el.
                    let same : x ≡ y = ground (arith, ex, ey) in
                    cc ((Eligible-iff claim s y).1 el, same, bad))
                  rest)
        ]
      ]

  -- A message that the endpoint may take next.
  abbrev pub MayTake : String → Message → Type 0
  MayTake ref m = (get s.messages ref ≡ some m) × (m.state ≡ state) × Eligible claim s m

  abbrev pub Picked : Option Message → Type 0
  Picked none = (k : String) (x : Message) → MayTake k x → ⊥
  Picked (some m) =
      (ref : String) × MayTake ref m × ((k : String) (x : Message) → MayTake k x → TextAtMost ref k)

  abbrev candidates : List String
  candidates = sort_strings (refs_in_state state s.messages (keys s.messages))

  MayTake-Candidate : (k : String) (x : Message) → MayTake k x → Candidate candidates k x
  MayTake-Candidate k x (e, same, eligible) = (
    sort_strings-lists (refs_in_state state s.messages (keys s.messages)) k
        ∙ refs_in_state-lists state s.messages (keys s.messages) k x e same
            (keys-lists s.messages k x e),
    e,
    eligible,
  )

  of_candidates :
      (o : Option Message)
      → ((m : Message) → o ≡ some m → m.state ≡ state)
      → PickedOf candidates o
      → Picked o
  of_candidates none in_its_state p = λ k x may. p k x (MayTake-Candidate k x may)
  of_candidates (some m) in_its_state (ref, c, least) =
      (ref, (c.1, in_its_state m refl, c.2), λ k x may. least k x (MayTake-Candidate k x may))

-- nextEligibleMessage finds a message exactly where a stored one is in the state asked for and may be
-- taken by the endpoint: it is addressed to the endpoint or to none, the endpoint advertises its
-- capability by name or by a wildcard, it prefers no other endpoint that is online and able, and each
-- dependency that it names is stored and completed. Of such messages the one with the least reference
-- is returned.
pub next_eligible_message-Picked :
    (state : String) (claim : ClaimNextRequest) (s : Store)
    → Picked state claim s (next_eligible_message state claim s)
unfolding next_eligible_message
next_eligible_message-Picked state claim s =
    of_candidates state claim s _
      (λ m e. (next_eligible_message-Found state claim s e).in_its_state)
      (first_eligible-PickedOf state claim s _ (sort_strings-Sorted _))
