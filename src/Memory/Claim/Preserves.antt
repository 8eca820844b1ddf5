-- ===== src/Memory/Claim/Preserves.antt =====
-- ClaimMessage and the invariant of the store.
use touch_connect.Prelude.{ℕ, ◌+◌, ◌<◌, String, ◌≡◌, refl, sym, ap, ◌∙◌, arith, none, some}
use touch_connect.GoMap.{get}
use touch_connect.GoMap.Laws.{get-put_ne}
use touch_connect.Domain.States.{message_state_dead_lettered}
use touch_connect.Domain.Errors.{Result}
use touch_connect.Domain.Model.{Message, Attempt, ClaimRequest, ClaimResult}
use touch_connect.Memory.Store.{Store}
use touch_connect.Memory.Claim.{
  claim_available_message, takeover_message, dead_letter_message, orphan_attempt, claim_message,
}
use touch_connect.Memory.Claim.Step.{
  ClaimStep, missing, available, dead, lost, held, settled, exhausted, resumed, expired,
  claim_message-Step,
}
use touch_connect.Memory.Invariant.{Inv, NoOpen}
use touch_connect.Memory.Invariant.Fresh.{OnlyAdds}
use touch_connect.Memory.Invariant.Steps.{
  waiting-NoOpen, orphan_attempt-Inv, orphan_attempt-NoOpen, write_message-Inv_idle,
  claim_available_message-Inv,
}

module _ {max : ℕ} {s : Store} (v : Inv max s) (m : Message) (claim : ClaimRequest) where
  pub takeover_message-Inv :
      NoOpen s m.message_ref
      → get s.attempts claim.attempt_ref ≡ none
      → m.redelivery_count < max
      → Inv max (takeover_message m claim s).1
  unfolding takeover_message
  takeover_message-Inv free fresh below =
      claim_available_message-Inv (record m { redelivery_count = m.redelivery_count + 1 }) claim v
        free fresh (omega arith)

  pub dead_letter_message-Inv :
      (a : Attempt)
      → get s.messages m.message_ref ≡ some m
      → get s.attempts m.attempt_ref ≡ some a
      → Inv max (dead_letter_message m a claim s)
  unfolding dead_letter_message orphan_attempt
  dead_letter_message-Inv a em ea =
      let w =
        write_message-Inv_idle m.message_ref (record m { state = message_state_dead_lettered })
          (orphan_attempt-Inv a v) (orphan_attempt-NoOpen v m.message_ref m a em ea) refl
          (v.bounded m.message_ref m em) in
      record {
        message_keyed = w.message_keyed;
        attempt_keyed = w.attempt_keyed;
        distinct = w.distinct;
        bounded = w.bounded;
        owned = w.owned;
      }

  -- Orphaning an attempt of the store does not use up the new reference.
  orphan_attempt-fresh :
      (a : Attempt)
      → get s.attempts m.attempt_ref ≡ some a
      → get s.attempts claim.attempt_ref ≡ none
      → get (orphan_attempt a s).attempts claim.attempt_ref ≡ none
  unfolding orphan_attempt
  orphan_attempt-fresh a ea fresh =
      get-put_ne s.attempts a.attempt_ref claim.attempt_ref _
        (λ p. cc (p, v.attempt_keyed m.attempt_ref a ea, ea, fresh))
      ∙ fresh

-- The message that the claim found, under its own reference.
stored :
    {max : ℕ} {s : Store} (v : Inv max s) (claim : ClaimRequest) (m : Message)
    → get s.messages claim.message_ref ≡ some m
    → get s.messages m.message_ref ≡ some m
stored {s = s} v claim m e = ap (get s.messages) (v.message_keyed claim.message_ref m e) ∙ e

ClaimStep-Inv :
    {max : ℕ} {s : Store} (claim : ClaimRequest)
    → Inv max s
    → get s.attempts claim.attempt_ref ≡ none
    → claim.max_redelivery ≡ max
    → {r : Result ClaimResult × Store} → ClaimStep claim s r
    → Inv max r.1
ClaimStep-Inv claim v fresh same (missing e) = v
ClaimStep-Inv claim v fresh same (available m e here) =
    claim_available_message-Inv m claim v (waiting-NoOpen v _ m (stored v claim m e) (rw here))
      fresh (v.bounded _ m e)
ClaimStep-Inv claim v fresh same (dead m e here) = v
ClaimStep-Inv claim v fresh same (lost m e here none_left) = v
ClaimStep-Inv claim v fresh same (held m a e here ea in_time) = v
ClaimStep-Inv claim v fresh same (settled m e here) = v
ClaimStep-Inv claim v fresh same (exhausted m a e here ea full) =
    dead_letter_message-Inv v m claim a (stored v claim m e) ea
ClaimStep-Inv claim v fresh same (resumed m a e here ea room) =
    takeover_message-Inv v m claim (waiting-NoOpen v _ m (stored v claim m e) (rw here)) fresh
      (omega arith)
ClaimStep-Inv claim v fresh same (expired m a e here ea late room) =
    takeover_message-Inv (orphan_attempt-Inv a v) m claim
      (orphan_attempt-NoOpen v m.message_ref m a (stored v claim m e) ea)
      (orphan_attempt-fresh v m claim a ea fresh) (omega arith)

-- A claim under a new attempt reference, with the store's redelivery limit, keeps the invariant,
-- whether it succeeds, fails, or dead-letters the message.
pub claim_message-Inv :
    {max : ℕ} {s : Store} (claim : ClaimRequest)
    → Inv max s
    → get s.attempts claim.attempt_ref ≡ none
    → claim.max_redelivery ≡ max
    → Inv max (claim_message claim s).1
claim_message-Inv {max} {s} claim v fresh same =
    ClaimStep-Inv claim v fresh same (claim_message-Step claim s)

orphan_attempt-OnlyAdds :
    {max : ℕ} {s : Store} (v : Inv max s) (ref k : String) (a : Attempt)
    → get s.attempts k ≡ some a
    → OnlyAdds ref s (orphan_attempt a s)
unfolding orphan_attempt
orphan_attempt-OnlyAdds {s = s} v ref k a ea j other free =
    get-put_ne s.attempts a.attempt_ref j _ (λ p. cc (p, v.attempt_keyed k a ea, ea, free)) ∙ free

claim_available_message-OnlyAdds :
    (m : Message) (claim : ClaimRequest) (s : Store)
    → OnlyAdds claim.attempt_ref s (claim_available_message m claim s).1
unfolding claim_available_message
claim_available_message-OnlyAdds m claim s k other free =
    get-put_ne s.attempts claim.attempt_ref k _ (λ p. other (sym p)) ∙ free

takeover_message-OnlyAdds :
    (m : Message) (claim : ClaimRequest) (s : Store)
    → OnlyAdds claim.attempt_ref s (takeover_message m claim s).1
unfolding takeover_message
takeover_message-OnlyAdds m claim s =
    claim_available_message-OnlyAdds (record m { redelivery_count = m.redelivery_count + 1 }) claim
      s

dead_letter_message-OnlyAdds :
    {max : ℕ} {s : Store} (v : Inv max s) (m : Message) (a : Attempt) (claim : ClaimRequest)
    → get s.attempts m.attempt_ref ≡ some a
    → OnlyAdds claim.attempt_ref s (dead_letter_message m a claim s)
unfolding dead_letter_message
dead_letter_message-OnlyAdds v m a claim ea = orphan_attempt-OnlyAdds v claim.attempt_ref _ a ea

ClaimStep-OnlyAdds :
    {max : ℕ} {s : Store} (claim : ClaimRequest)
    → Inv max s
    → {r : Result ClaimResult × Store} → ClaimStep claim s r
    → OnlyAdds claim.attempt_ref s r.1
ClaimStep-OnlyAdds claim v (missing e) k other free = free
ClaimStep-OnlyAdds {s = s} claim v (available m e here) k other free =
    claim_available_message-OnlyAdds m claim s k other free
ClaimStep-OnlyAdds claim v (dead m e here) k other free = free
ClaimStep-OnlyAdds claim v (lost m e here none_left) k other free = free
ClaimStep-OnlyAdds claim v (held m a e here ea in_time) k other free = free
ClaimStep-OnlyAdds claim v (settled m e here) k other free = free
ClaimStep-OnlyAdds claim v (exhausted m a e here ea full) k other free =
    dead_letter_message-OnlyAdds v m a claim ea k other free
ClaimStep-OnlyAdds {s = s} claim v (resumed m a e here ea room) k other free =
    takeover_message-OnlyAdds m claim s k other free
ClaimStep-OnlyAdds {s = s} claim v (expired m a e here ea late room) k other free =
    takeover_message-OnlyAdds m claim (orphan_attempt a s) k other
      (orphan_attempt-OnlyAdds v claim.attempt_ref m.attempt_ref a ea k other free)

pub claim_message-OnlyAdds :
    {max : ℕ} {s : Store} (claim : ClaimRequest)
    → Inv max s
    → OnlyAdds claim.attempt_ref s (claim_message claim s).1
claim_message-OnlyAdds {s = s} claim v = ClaimStep-OnlyAdds claim v (claim_message-Step claim s)

ClaimStep-sequences :
    (claim : ClaimRequest) (s : Store) {r : Result ClaimResult × Store}
    → ClaimStep claim s r
    → r.1.sequences ≡ s.sequences
unfolding claim_available_message takeover_message dead_letter_message orphan_attempt
ClaimStep-sequences claim s (missing e) = refl
ClaimStep-sequences claim s _ = refl

-- The numbers given out are left alone.
pub claim_message-sequences :
    (claim : ClaimRequest) (s : Store) → (claim_message claim s).1.sequences ≡ s.sequences
claim_message-sequences claim s = ClaimStep-sequences claim s (claim_message-Step claim s)
