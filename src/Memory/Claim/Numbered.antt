-- ===== src/Memory/Claim/Numbered.antt =====
-- A claim under the next attempt number, and the numbers after it.
use touch_connect.Prelude.{ℕ, ◌+◌, ◌≡◌, ◌∙◌, none}
use touch_connect.GoMap.{get}
use touch_connect.Domain.Model.{ClaimRequest}
use touch_connect.Memory.Store.{Store}
use touch_connect.Memory.Refs.{next_ref, sequence}
use touch_connect.Memory.Claim.{claim_message}
use touch_connect.Memory.Claim.Preserves.{
  claim_message-Inv, claim_message-OnlyAdds, claim_message-sequences,
}
use touch_connect.Memory.Invariant.{Inv}
use touch_connect.Memory.Invariant.Fresh.{
  Good, SameLedger, SameLedger-Inv, OnlyAdds-fresh, next_ref-Good, next_ref_fresh,
  sequence-next_ref,
}

module _ {max : ℕ} (s s' : Store) (request : ClaimRequest) (g : Good max s)
    (e : SameLedger (next_ref "attempt" s).1 s')
    (named : request.attempt_ref ≡ (next_ref "attempt" s).0) where
  numbered-Inv : Inv max s'
  numbered-Inv = SameLedger-Inv e (next_ref-Good s g).inv

  numbered_fresh : get s'.attempts request.attempt_ref ≡ none
  numbered_fresh = rw (e.attempts_same, named) (next_ref_fresh s g)

  sequence-claim : sequence (claim_message request s').1 "attempt" ≡ sequence s "attempt" + 1
  unfolding sequence
  sequence-claim =
      rw (claim_message-sequences request s', sequence)
        (unfold sequence in (e.sequence_same ∙ sequence-next_ref s))

  pub claim_message-Good : request.max_redelivery ≡ max → Good max (claim_message request s').1
  claim_message-Good same = record {
    inv = claim_message-Inv request numbered-Inv numbered_fresh same;
    fresh =
        OnlyAdds-fresh s (claim_message request s').1 g
          (λ k other free.
            claim_message-OnlyAdds request numbered-Inv k (λ p. other (p ∙ named))
              (rw e.attempts_same free))
          sequence-claim;
  }
