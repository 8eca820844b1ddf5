-- ===== src/Memory/Claim/Step.antt =====
-- The outcomes of ClaimMessage as a relation.
use touch_connect.Prelude.{
  ◌≤◌, ◌<◌, String, Bool, true, false, leb, ◌&&◌, ◌||◌, ◌==◌, ◌!=◌, ◌≡◌, refl, ◌⊎◌, inl, inr, arith,
  eq_iff, Bool-cases, Option-cases, if◌then◌else◌, Option, none, some,
}
use touch_connect.GoMap.{get}
use touch_connect.Domain.States.{
  message_state_available, message_state_dead_lettered, message_state_takeover_candidate,
  message_state_claimed, message_state_processing,
}
use touch_connect.Domain.Errors.{
  Result, err, message_not_found, message_unavailable, message_dead_lettered,
}
use touch_connect.Domain.Model.{Message, Attempt, ClaimRequest, ClaimResult}
use touch_connect.Memory.Store.{Store}
use touch_connect.Memory.Claim.{
  claim_available_message, takeover_message, dead_letter_message, orphan_attempt, claim_candidate,
  claim_leased, with_attempt, claim_found, claim_message, succeed,
}

-- The message is in the hands of an attempt.
abbrev pub IsLeased : Message → Type 0
IsLeased m = (m.state ≡ message_state_claimed) ⊎ (m.state ≡ message_state_processing)

-- A state from which no claim starts.
abbrev pub is_settled : String → Bool
is_settled state =
    if state == message_state_available
      || state == message_state_dead_lettered
      || state == message_state_takeover_candidate
      || state == message_state_claimed
      || state == message_state_processing
    then false
    else true

-- A takeover is due: the message is a candidate, or its lease has run out.
abbrev pub IsOverdue : Message → Attempt → ClaimRequest → Type 0
IsOverdue m a claim =
    (m.state ≡ message_state_takeover_candidate) ⊎ (IsLeased m × (a.lease_expires_at < claim.now))

pub data ClaimStep (claim : ClaimRequest) (s : Store) : Result ClaimResult × Store → Type 0 where
  missing : get s.messages claim.message_ref ≡ none → ClaimStep claim s (err message_not_found, s)
  available :
      (m : Message)
      → get s.messages claim.message_ref ≡ some m
      → m.state ≡ message_state_available
      → ClaimStep claim s (succeed (claim_available_message m claim s))
  dead :
      (m : Message)
      → get s.messages claim.message_ref ≡ some m
      → m.state ≡ message_state_dead_lettered
      → ClaimStep claim s (err message_dead_lettered, s)
  lost :
      (m : Message)
      → get s.messages claim.message_ref ≡ some m
      → (m.state ≡ message_state_takeover_candidate) ⊎ IsLeased m
      → get s.attempts m.attempt_ref ≡ none
      → ClaimStep claim s (err message_unavailable, s)
  held :
      (m : Message) (a : Attempt)
      → get s.messages claim.message_ref ≡ some m
      → IsLeased m
      → get s.attempts m.attempt_ref ≡ some a
      → claim.now ≤ a.lease_expires_at
      → ClaimStep claim s (err message_unavailable, s)
  settled :
      (m : Message)
      → get s.messages claim.message_ref ≡ some m
      → is_settled m.state ≡ true
      → ClaimStep claim s (err message_unavailable, s)
  exhausted :
      (m : Message) (a : Attempt)
      → get s.messages claim.message_ref ≡ some m
      → IsOverdue m a claim
      → get s.attempts m.attempt_ref ≡ some a
      → claim.max_redelivery ≤ m.redelivery_count
      → ClaimStep claim s (err message_dead_lettered, dead_letter_message m a claim s)
  resumed :
      (m : Message) (a : Attempt)
      → get s.messages claim.message_ref ≡ some m
      → m.state ≡ message_state_takeover_candidate
      → get s.attempts m.attempt_ref ≡ some a
      → m.redelivery_count < claim.max_redelivery
      → ClaimStep claim s (succeed (takeover_message m claim s))
  expired :
      (m : Message) (a : Attempt)
      → get s.messages claim.message_ref ≡ some m
      → IsLeased m
      → get s.attempts m.attempt_ref ≡ some a
      → a.lease_expires_at < claim.now
      → m.redelivery_count < claim.max_redelivery
      → ClaimStep claim s (succeed (takeover_message m claim (orphan_attempt a s)))

module _ (claim : ClaimRequest) (s : Store) (m : Message)
    (e : get s.messages claim.message_ref ≡ some m) where
  candidate-Step :
      m.state ≡ message_state_takeover_candidate
      → (o : Option Attempt) → get s.attempts m.attempt_ref ≡ o
      → ClaimStep claim s (with_attempt o (λ a. claim_candidate m a claim) s)
  unfolding with_attempt claim_candidate
  candidate-Step here none ea = lost m e (inl here) ea
  candidate-Step here (some a) ea =
      elim (Bool-cases (leb claim.max_redelivery m.redelivery_count)) [
        | inl full ↦ rw full (exhausted m a e (inl here) ea (ground arith))
        | inr room ↦ rw room (resumed m a e here ea (ground arith))
      ]

  leased-Step :
      IsLeased m
      → (o : Option Attempt) → get s.attempts m.attempt_ref ≡ o
      → ClaimStep claim s (with_attempt o (λ a. claim_leased m a claim) s)
  unfolding with_attempt claim_leased
  leased-Step here none ea = lost m e (inr here) ea
  leased-Step here (some a) ea = elim (Bool-cases (leb claim.now a.lease_expires_at)) [
    | inl early ↦ rw early (held m a e here ea (ground arith))
    | inr late ↦ rw late (elim (Bool-cases (leb claim.max_redelivery m.redelivery_count)) [
      | inl full ↦ rw full (exhausted m a e (inr (here, ground arith)) ea (ground arith))
      | inr room ↦ rw room (expired m a e here ea (ground arith) (ground arith))
    ])
  ]

  -- The last two tests of ClaimMessage.
  tail-Step :
      (m.state == message_state_available) ≡ false
      → (m.state == message_state_dead_lettered) ≡ false
      → (m.state == message_state_takeover_candidate) ≡ false
      → ClaimStep claim s (
          if m.state != message_state_claimed && m.state != message_state_processing
          then (err message_unavailable, s)
          else with_attempt (get s.attempts m.attempt_ref) (λ a. claim_leased m a claim) s)
  tail-Step other live later = elim (Bool-cases (m.state == message_state_claimed)) [
    | inl here ↦ rw here (leased-Step (inl ((eq_iff _ _).0 here)) _ refl)
    | inr free ↦ rw free (elim (Bool-cases (m.state == message_state_processing)) [
      | inl here ↦ rw here (leased-Step (inr ((eq_iff _ _).0 here)) _ refl)
      | inr idle ↦ rw idle (settled m e (rw (other, live, later, free, idle)))
    ])
  ]

  claim_found-Step : ClaimStep claim s (claim_found m claim s)
  unfolding claim_found
  claim_found-Step = elim (Bool-cases (m.state == message_state_available)) [
    | inl here ↦ rw here (available m e ((eq_iff _ _).0 here))
    | inr other ↦ rw other (elim (Bool-cases (m.state == message_state_dead_lettered)) [
      | inl here ↦ rw here (dead m e ((eq_iff _ _).0 here))
      | inr live ↦ rw live (elim (Bool-cases (m.state == message_state_takeover_candidate)) [
        | inl here ↦ rw here (candidate-Step ((eq_iff _ _).0 here) _ refl)
        | inr later ↦ rw later (tail-Step other live later)
      ])
    ])
  ]

-- Every call of ClaimMessage takes one of these outcomes, under that outcome's conditions: it hands
-- out an available message, takes over a candidate or a message whose lease has run out while
-- redeliveries are left, dead-letters it when none is left, and refuses in every other case with the
-- store unchanged.
pub claim_message-Step :
    (claim : ClaimRequest) (s : Store) → ClaimStep claim s (claim_message claim s)
unfolding claim_message
claim_message-Step claim s = elim (Option-cases (get s.messages claim.message_ref)) [
  | inl e ↦ rw (e, claim_message) (missing e)
  | inr (m, e) ↦ rw (e, claim_message) (claim_found-Step claim s m e)
]
