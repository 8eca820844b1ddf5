-- ===== src/Memory/ClaimNext/Numbered.antt =====
-- ClaimNextMessage and the invariant, when it numbers the attempt itself.
use touch_connect.Prelude.{
  ℕ, String, ◌≡◌, refl, ap, ◌∙◌, Option, some, inl, inr, ◌⊎◌, List, [], ◌∷◌, Option-cases, arith,
  eq_iff, All,
}
use touch_connect.GoMap.{get}
use touch_connect.Domain.States.{message_state_available, message_state_takeover_candidate}
use touch_connect.Domain.Errors.{Result}
use touch_connect.Domain.Model.{Message, ClaimRequest, ClaimNextRequest, ClaimResult}
use touch_connect.Memory.Store.{Store}
use touch_connect.Memory.Refs.{next_ref}
use touch_connect.Memory.Claim.{claim_message}
use touch_connect.Memory.Claim.Numbered.{claim_message-Good}
use touch_connect.Memory.ClaimNext.{
  ref_or_next, claim_request_for, claim_next_found, claim_next_eligible_message, claim_next_in,
  claim_next_message, next_eligible_message,
}
use touch_connect.Memory.ClaimNext.Preserves.{
  Found, next_eligible_message-Found, claim_next_found-claim_message, lower,
}
use touch_connect.Memory.Invariant.Fresh.{Good, sequence-next_ref_ne}

-- The second component of a result is untouched by `lower`.
lower-store : (r : Result ClaimResult × Store) → (lower r).1 ≡ r.1
lower-store (r, s) = refl

numbered_state :
    {state : String} (m : Message)
    → m.state ≡ state
    → (state ≡ message_state_takeover_candidate) ⊎ (state ≡ message_state_available)
    → (m.state ≡ message_state_takeover_candidate) ⊎ (m.state ≡ message_state_available)
numbered_state m e (inl h) = inl (e ∙ h)
numbered_state m e (inr h) = inr (e ∙ h)

ref_or_next-new :
    (ref kind : String) (s : Store) → ref ≡ "" → ref_or_next ref kind s ≡ next_ref kind s
unfolding ref_or_next
ref_or_next-new ref kind s e = rw ((eq_iff ref "").1 e)

module _ (s : Store) where
  -- The store after both references are taken.
  abbrev after_refs : Store
  after_refs = (next_ref "dead-letter" (next_ref "attempt" s).1).1

  after_refs-messages : after_refs.messages ≡ s.messages
  unfolding next_ref
  after_refs-messages = refl

  abbrev numbered_request : Message → ClaimNextRequest → ClaimRequest
  numbered_request m claim =
      claim_request_for m claim (next_ref "attempt" s).0
        (next_ref "dead-letter" (next_ref "attempt" s).1).0

  claim_next_eligible_message-numbered :
      (m : Message) (claim : ClaimNextRequest)
      → claim.attempt_ref ≡ ""
      → claim.dead_letter_ref ≡ ""
      → claim_next_eligible_message m claim s
        ≡ claim_next_found m (numbered_request m claim) after_refs
  unfolding claim_next_eligible_message
  claim_next_eligible_message-numbered m claim unnamed unlettered =
      let run : String × Store → String × Store → Option ClaimResult × Store =
        λ x y. claim_next_found m (claim_request_for m claim x.0 y.0) y.1 in
      ap (λ x. run x (ref_or_next claim.dead_letter_ref "dead-letter" x.1))
        (ref_or_next-new claim.attempt_ref "attempt" s unnamed)
      ∙ ap (run (next_ref "attempt" s))
          (ref_or_next-new claim.dead_letter_ref "dead-letter" (next_ref "attempt" s).1 unlettered)

module _ {max : ℕ} (claim : ClaimNextRequest) (unnamed : claim.attempt_ref ≡ "")
    (unlettered : claim.dead_letter_ref ≡ "") (same : claim.max_redelivery ≡ max) where
  claim_next_eligible_message-Good :
      (m : Message) (s : Store) {state : String}
      → Good max s
      → (state ≡ message_state_takeover_candidate) ⊎ (state ≡ message_state_available)
      → Found state claim s m
      → Good max (claim_next_eligible_message m claim s).1
  unfolding claim_request_for
  claim_next_eligible_message-Good m s g kind found =
      let named : m.message_ref ≡ found.at_ref = g.inv.message_keyed found.at_ref m found.stored in
      let stored : get (after_refs s).messages m.message_ref ≡ some m =
        ap (get (after_refs s).messages) named ∙ rw (after_refs-messages s) found.stored in
      let good =
        claim_message-Good s (after_refs s) (numbered_request s m claim) g
          (sequence-next_ref_ne _ "dead-letter" (ground (arith, eq_iff "dead-letter" "attempt")))
          refl same in
      let request = numbered_request s m claim in
      let equal =
        claim_next_eligible_message-numbered s m claim unnamed unlettered
        ∙ claim_next_found-claim_message m request (after_refs s) stored
            (numbered_state m found.in_its_state kind) in
      rw
        (ap (λ (r : Option ClaimResult × Store). r.1) equal
          ∙ lower-store (claim_message request (after_refs s)))
        good

  claim_next_in-Good :
      (states : List String) (s : Store)
      → All
          (λ state. (state ≡ message_state_takeover_candidate) ⊎ (state ≡ message_state_available))
          states
      → Good max s
      → Good max (claim_next_in states claim s).1
  unfolding claim_next_in
  claim_next_in-Good [] s known g = g
  claim_next_in-Good (state ∷ states) s known g =
      elim (Option-cases (next_eligible_message state claim s)) [
        | inl e ↦ rw (e, claim_next_in) (claim_next_in-Good states s known.1 g)
        | inr (m, e) ↦
            rw (e, claim_next_in)
              (claim_next_eligible_message-Good m s g known.0
                (next_eligible_message-Found state claim s e))
      ]

  pub claim_next_message-Good : (s : Store) → Good max s → Good max (claim_next_message claim s).1
  unfolding claim_next_message
  claim_next_message-Good s g =
      claim_next_in-Good (message_state_takeover_candidate ∷ message_state_available ∷ []) s
        (inl refl, (inr refl, tt)) g
