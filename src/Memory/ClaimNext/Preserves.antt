-- ===== src/Memory/ClaimNext/Preserves.antt =====
-- What ClaimNextMessage picks and does.
use touch_connect.Prelude.{
  String, true, false, leb, ◌==◌, ◌≡◌, refl, sym, ◌⊎◌, ap, ◌∙◌, inl, inr, arith, eq_iff, Bool-cases,
  Option-cases, Option, none, some, List, [], ◌∷◌, All,
}
use touch_connect.GoMap.{Map, get, keys}
use touch_connect.Domain.States.{
  message_state_available, message_state_takeover_candidate, message_state_dead_lettered,
}
use touch_connect.Domain.Errors.{Result, ok, err}
use touch_connect.Domain.Model.{Message, ClaimRequest, ClaimResult, ClaimNextRequest}
use touch_connect.Memory.Store.{Store}
use touch_connect.Memory.Sort.{sort_strings, sort_by-All, string_less}
use touch_connect.Memory.ClaimNext.{
  in_state, refs_in_state, states_of, is_eligible, first_eligible, next_eligible_message,
  claim_next_found,
}
use touch_connect.Memory.Claim.{claim_message, claim_found, with_attempt, claim_candidate}

-- The reference names a message in the state.
abbrev pub InState : Map Message → String → String → Type 0
InState messages state ref = in_state state (get messages ref) ≡ true

refs_in_state-All :
    (state : String) (messages : Map Message) (refs : List String)
    → All (InState messages state) (refs_in_state state messages refs)
unfolding refs_in_state
refs_in_state-All state messages [] = tt
refs_in_state-All state messages (ref ∷ refs) =
    elim (Bool-cases (in_state state (get messages ref))) [
      | inl e ↦ rw (e, refs_in_state) (e, refs_in_state-All state messages refs)
      | inr e ↦ rw (e, refs_in_state) (refs_in_state-All state messages refs)
    ]

-- A message that the search found: stored, in the state, and eligible.
pub record Found (state : String) (claim : ClaimNextRequest) (s : Store) (m : Message)
    : Type 0 where
  pub at_ref : String
  pub stored : get s.messages at_ref ≡ some m
  pub in_its_state : m.state ≡ state
  pub eligible : is_eligible claim (states_of s.messages) m ≡ true

first_eligible-Found :
    (state : String) (claim : ClaimNextRequest) (s : Store) (refs : List String) {m : Message}
    → All (InState s.messages state) refs
    → first_eligible claim (states_of s.messages) s.messages refs ≡ some m
    → Found state claim s m
unfolding first_eligible in_state
first_eligible-Found state claim s [] ps h = cc
first_eligible-Found state claim s (ref ∷ refs) {m} ps h =
    elim (Option-cases (get s.messages ref)) [
      | inl e ↦ first_eligible-Found state claim s refs ps.1 (rw (e, first_eligible) at h)
      | inr (x, e) ↦ elim (Bool-cases (is_eligible claim (states_of s.messages) x)) [
        | inl y ↦
            let same : x ≡ m = ground arith in
            record {
              at_ref = ref;
              stored = e ∙ ap some same;
              in_its_state =
                  ap (λ (z : Message). z.state) (sym same)
                  ∙ (eq_iff _ _).0 (rw (e, in_state) at (ps.0));
              eligible = rw (← same) y;
            }
        | inr n ↦ first_eligible-Found state claim s refs ps.1 (ground arith)
      ]
    ]

-- What nextEligibleMessage returns is a stored message in the state asked for that the endpoint may
-- claim and whose dependencies are completed.
pub next_eligible_message-Found :
    (state : String) (claim : ClaimNextRequest) (s : Store) {m : Message}
    → next_eligible_message state claim s ≡ some m
    → Found state claim s m
unfolding next_eligible_message sort_strings
next_eligible_message-Found state claim s h =
    first_eligible-Found state claim s _
      (sort_by-All (InState s.messages state) string_less
        (refs_in_state state s.messages (keys s.messages))
        (refs_in_state-All state s.messages (keys s.messages)))
      h

abbrev pub to_option : Result ClaimResult → Option ClaimResult
to_option (ok r) = some r
to_option (err e) = none

-- An error reads as nothing found.
abbrev pub lower : Result ClaimResult × Store → Option ClaimResult × Store
lower (r, s) = (to_option r, s)

candidate_lower :
    (m : Message) (request : ClaimRequest) (s : Store)
    → (m.state == message_state_available) ≡ false
    → claim_next_found m request s
      ≡ lower (with_attempt (get s.attempts m.attempt_ref) (λ a. claim_candidate m a request) s)
unfolding claim_next_found with_attempt claim_candidate
candidate_lower m request s other = elim (Option-cases (get s.attempts m.attempt_ref)) [
  | inl ea ↦ rw (other, ea, with_attempt)
  | inr (a, ea) ↦
      rw (other, ea, with_attempt)
        (elim (Bool-cases (leb request.max_redelivery m.redelivery_count)) [
          | inl full ↦ rw (full, claim_candidate)
          | inr room ↦ rw (room, claim_candidate)
        ])
]

-- On a stored message that is available or a takeover candidate, ClaimNextMessage does what
-- ClaimMessage does, and reports its errors as nothing found.
pub claim_next_found-claim_message :
    (m : Message) (request : ClaimRequest) (s : Store)
    → get s.messages request.message_ref ≡ some m
    → (m.state ≡ message_state_takeover_candidate) ⊎ (m.state ≡ message_state_available)
    → claim_next_found m request s ≡ lower (claim_message request s)
unfolding claim_message claim_found
claim_next_found-claim_message m request s e (inl here) =
    let other : (m.state == message_state_available) ≡ false = rw here refl in
    let live : (m.state == message_state_dead_lettered) ≡ false = rw here refl in
    let candidate : (m.state == message_state_takeover_candidate) ≡ true = rw here refl in
    rw (e, claim_message, other, live, candidate) (candidate_lower m request s other)
claim_next_found-claim_message m request s e (inr here) =
    let available : (m.state == message_state_available) ≡ true = rw here refl in
    rw (e, claim_message, available) (unfold claim_next_found in rw available)
